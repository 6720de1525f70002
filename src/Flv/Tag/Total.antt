-- ===== src/Flv/Tag/Total.antt =====
-- How tags and files end, on any input, and at which tag a panic arises.
use video.Base.{
  ℕ, zero, suc, ◌+◌, ◌-◌, ◌≤◌, ◌≡◌, refl, arith, List, [], ◌∷◌, ◌==◌, ltb, length, value, failed,
  Settles->>=, Settles, Settles-known, Settles-because, ok, ap, ◌∙◌,
}
use video.Io.{Io, read_u8, read_u8-Settles}
use video.ByteOrder.{ByteOrder, read_be}
use video.ByteOrder.Laws.{read_be-Settles}
use video.BytesUtil.BytesCursor.Front.{extract_bytes-Ends, extract-Settles}
use video.BytesUtil.BytesCursor.{extract}
use video.Flv as Flv
use video.Flv.Ends.{Ends, Ends-if, ScriptPanics, data-Settles}
use video.Flv.Tag.{FlvTag, unless_done, demux, demux_tags, demux_file}

unless_done-Settles :
    {A C : Type 0} {P : A → Type 0} (bs : List ℕ) (found : A) (o : Io A)
    → P found
    → Settles C P o
    → Settles C P (unless_done bs found o)
unless_done-Settles [] found o h k = value h
unless_done-Settles (b ∷ bs) found o h k = k

module _ (bo : ByteOrder) where
  -- The AMF0 decoder panics on the data of the tag in front, which is a script tag: its frame is
  -- whole, and the data are as many bytes as its size says.
  pub record TagPanics (bs : List ℕ) : Type 0 where
    pub size : ℕ
    pub timestamp : ℕ
    pub extended : ℕ
    pub stream : ℕ
    pub after_type : List ℕ
    pub after_size : List ℕ
    pub after_timestamp : List ℕ
    pub after_extended : List ℕ
    pub after_stream : List ℕ
    pub contents : List ℕ
    pub rest : List ℕ
    pub type_of : read_u8 bs ≡ ok (18, after_type)
    pub size_of : read_be bo 3 after_type ≡ ok (size, after_size)
    pub timestamp_of : read_be bo 3 after_size ≡ ok (timestamp, after_timestamp)
    pub extended_of : read_u8 after_timestamp ≡ ok (extended, after_extended)
    pub stream_of : read_be bo 3 after_extended ≡ ok (stream, after_stream)
    pub contents_of : extract size after_stream ≡ ok (contents, rest)
    pub cause : ScriptPanics bo contents

  pub demux-Settles :
      (bs : List ℕ)
      → Settles (TagPanics bs) (λ (tag, rest). length rest + 11 ≤ length bs) (demux bo bs)
  unfolding demux
  demux-Settles bs = Settles->>= (Settles-known (read_u8-Settles bs)) λ (tag_type, bs₁) (h₁, e₁).
      Settles->>= (Settles-known (read_be-Settles bo 3 bs₁)) λ (size, bs₂) (h₂, e₂).
        Settles->>= (Settles-known (read_be-Settles bo 3 bs₂)) λ (timestamp, bs₃) (h₃, e₃).
          Settles->>= (Settles-known (read_u8-Settles bs₃)) λ (extended, bs₄) (h₄, e₄).
            Settles->>= (Settles-known (read_be-Settles bo 3 bs₄)) λ (stream, bs₅) (h₅, e₅).
              Settles->>= (Settles-known (extract-Settles size bs₅)) λ (bytes, rest) (h₆, e₆).
                Settles->>=
                  (Settles-because (data-Settles bo tag_type bytes) λ (script, p). record {
                    size = size;
                    timestamp = timestamp;
                    extended = extended;
                    stream = stream;
                    after_type = bs₁;
                    after_size = bs₂;
                    after_timestamp = bs₃;
                    after_extended = bs₄;
                    after_stream = bs₅;
                    contents = bytes;
                    rest = rest;
                    type_of = e₁ ∙ ap (λ t. ok (t, bs₁)) script;
                    size_of = e₂;
                    timestamp_of = e₃;
                    extended_of = e₄;
                    stream_of = e₅;
                    contents_of = e₆;
                    cause = p;
                  })
                  λ (body, dropped) _. value (omega arith)

  header-Ends : (bs : List ℕ) → Ends (Flv.demux bo bs)
  unfolding Flv.demux Flv.read_extra
  header-Ends bs = Settles->>= (read_be-Settles bo 3 bs) λ (signature, bs₁) _.
      Settles->>= (Ends-if (signature == Flv.flv_signature) (value tt) failed) λ _ _.
        Settles->>= (read_u8-Settles bs₁) λ (version, bs₂) _.
          Settles->>= (read_u8-Settles bs₂) λ (flags, bs₃) _.
            Settles->>= (read_be-Settles bo 4 bs₃) λ (offset, bs₄) _.
              Settles->>=
                (Ends-if (ltb offset 9) failed
                  (Settles->>= (extract_bytes-Ends (offset - 9) _) λ (extra, c) _. value tt))
                λ (extra, rest) _. value tt

  -- The tags of a file begin behind the size of the tag before, each where the one before ends.
  pub data TagAt : List ℕ → List ℕ → Type 0 where
    first : {size : ℕ} {bs at : List ℕ} → read_be bo 4 bs ≡ ok (size, at) → TagAt bs at
    next :
        {size : ℕ} {tag : FlvTag} {bs behind rest at : List ℕ}
        → read_be bo 4 bs ≡ ok (size, behind)
        → demux bo behind ≡ ok (tag, rest)
        → TagAt rest at
        → TagAt bs at

  -- A tag is reached of which the decoder panics.
  abbrev pub TagsPanic : List ℕ → Type 0
  TagsPanic bs = (at : List ℕ) × TagAt bs at × TagPanics at

  abbrev pub FilePanics : List ℕ → Type 0
  FilePanics bs =
      (header : Flv.FlvHeader) × (rest : List ℕ) × (Flv.demux bo bs ≡ ok (header, rest))
      × TagsPanic rest

  demux_tags-Settles :
      (f : ℕ) (bs : List ℕ)
      → length bs ≤ f
      → Settles (TagsPanic bs) (λ (tags, rest). rest ≡ []) (demux_tags bo f bs)
  unfolding demux_tags
  demux_tags-Settles f [] h = value refl
  demux_tags-Settles zero (b ∷ bs) h = absurd (omega arith)
  demux_tags-Settles (suc f) (b ∷ bs) h =
      Settles->>= (Settles-known (read_be-Settles bo 4 (b ∷ bs))) λ (size, behind) (h₁, e₁).
        unless_done-Settles behind _ _ refl (
          Settles->>=
            (Settles-because (Settles-known (demux-Settles behind)) λ p. (behind, first e₁, p))
            λ (tag, rest) (h₂, e₂).
              Settles->>=
                (Settles-because (demux_tags-Settles f rest (omega arith))
                  λ (at, reached, p). (at, next e₁ e₂ reached, p))
                λ (tags, rest') e. value e)

  -- `FlvFile::demux` ends on every input, whatever tags, script data and configuration records
  -- of H.264, H.265 and AV1 are in it, and never by running out of fuel: with a file, having
  -- read every byte, with an error, or with a panic, and with a panic only where the header is
  -- read, a tag is reached whose frame is whole and whose type is script data, and the AMF0
  -- decoder panics on the name in its data, or on the values behind a name.
  pub demux_file-Settles :
      (bs : List ℕ) → Settles (FilePanics bs) (λ (file, rest). rest ≡ []) (demux_file bo bs)
  unfolding demux_file
  demux_file-Settles bs =
      Settles->>= (Settles-because (Settles-known (header-Ends bs)) λ never. elim never [ ])
        λ (header, rest) (_, e).
          Settles->>=
            (Settles-because (demux_tags-Settles (length rest) rest (omega arith))
              λ p. (header, rest, e, p))
            λ (tags, rest') e'. value e'

-- ===== src/Flv/Ends.antt =====
-- How the readers of a tag's data end, on any input.
use video.Base.{
  ℕ, ◌/◌, ◌%◌, Bool, true, false, not, List, Option, none, some, Result, ok, err, panic, stuck,
  ◌==◌, if◌then◌else◌, Bool-cases, inl, inr, Yields, Returns, Settles, Settles->>=, Settles-because,
  value, failed, panicked, ◌≡◌, ◌⊎◌, refl, subst, arith,
}
use video.BytesUtil.BytesCursor.{extract_remaining-all}
use video.Io.{Io, Cursor, read_u8-Settles, read_exact-Settles}
use video.ByteOrder.{ByteOrder}
use video.ByteOrder.Laws.{read_be-Settles}
use video.Amf0.Define.{Amf0Value, Amf0Marker, Amf0ReadError, Str}
use video.Amf0.Decode.{Read, decode_with_type, decode_all}
use video.Amf0.Total.{decode_with_type-ends, decode_all-Yields}
use video.BytesUtil.BitReader.{BitReader}
use video.BytesUtil.BitReader.View.{IsValid}
use video.Flv.Audio as Audio
use video.Flv.Script as Script
use video.Flv.Video as Video
use video.Flv.Tag as Tag
use video.Av1.Config.Ends as Av1Ends
use video.H264.Ends as H264Ends
use video.H265.Ends as H265Ends

-- A read that ends.
abbrev pub Ends : {A : Type 0} → Io A → Type 0
Ends o = Returns (λ _. Unit {0}) o

pub Ends-if : {A : Type 0} (b : Bool) {p q : Io A} → Ends p → Ends q → Ends (if b then p else q)
Ends-if true h k = h
Ends-if false h k = k

-- An arm of a match ends, where it is taken.
abbrev Arm : {A : Type 0} → Option (Io A) → Type 0
Arm none = Unit
Arm (some p) = Ends p

Arm-if : {A : Type 0} (b : Bool) (p q : Option (Io A)) → Arm p → Arm q → Arm (if b then p else q)
Arm-if true p q h k = h
Arm-if false p q h k = k

Arm-otherwise :
    {A : Type 0} (o : Option (Io A)) {q : Io A} → Arm o → Ends q → Ends (Video.otherwise o q)
Arm-otherwise none h k = k
Arm-otherwise (some p) h k = h

pub take_remaining-all : (bs : List ℕ) → (Audio.take_remaining bs).0 ≡ bs
unfolding Audio.take_remaining
take_remaining-all bs = (extract_remaining-all (record { inner = bs; position = 0 })).0

-- What is read of a tag's own data.
module _ (bo : ByteOrder) where
  audio_body-Ends : (format : ℕ) (bs : List ℕ) → Ends (Audio.demux_body format bs)
  unfolding Audio.demux_body
  audio_body-Ends format bs = elim (Bool-cases (format == 10)) [
    | inl e ↦ rw e (Settles->>= (read_u8-Settles bs) λ (t, rest) _. value tt)
    | inr e ↦ rw e (value tt)
  ]

  audio-Ends : (bs : List ℕ) → Ends (Audio.demux bs)
  unfolding Audio.demux
  audio-Ends bs =
      Settles->>= (read_u8-Settles bs)
        λ (byte, bs₁) _. Settles->>= (audio_body-Ends (byte / 16) bs₁) λ (body, rest) _. value tt

  name-Settles :
      (o : Read Amf0Value)
      → Yields (λ (_, rest). Unit {0}) o
      → Settles
          (o ≡ panic)
          (λ (name, rest). o ≡ ok (Amf0Value.string name, rest))
          (Script.match_name o)
  unfolding Script.match_name
  name-Settles (ok (Amf0Value.string name, rest)) h = value refl
  name-Settles (ok (v, rest)) h = failed
  name-Settles (err e) h = failed
  name-Settles panic h = panicked refl
  name-Settles stuck h = elim h [ ]

  values-Settles :
      (o : Result Amf0ReadError (List Amf0Value))
      → Yields (λ _. Unit {0}) o
      → Settles (o ≡ panic) (λ _. Unit {0}) (Script.match_values o)
  unfolding Script.match_values
  values-Settles (ok values) h = value tt
  values-Settles (err e) h = failed
  values-Settles panic h = panicked refl
  values-Settles stuck h = elim h [ ]

  -- The AMF0 decoder panics on script data: on the name, or on the values behind it.
  abbrev pub ScriptPanics : List ℕ → Type 0
  ScriptPanics bytes =
      (decode_with_type bo Amf0Marker.string bytes ≡ panic)
      ⊎ ((name : Str) × (rest : List ℕ) × (decode_with_type bo Amf0Marker.string bytes
            ≡ ok (Amf0Value.string name, rest))
          × (decode_all bo rest ≡ panic))

  script-Settles : (bs : List ℕ) → Settles (ScriptPanics bs) (λ _. Unit {0}) (Script.demux bo bs)
  unfolding Script.demux
  script-Settles bs =
      Settles-because
        (Settles->>=
          (Settles-because (name-Settles _ (decode_with_type-ends bo Amf0Marker.string _)) inl)
          λ (name, rest) named.
            Settles->>=
              (Settles-because (values-Settles _ (decode_all-Yields bo rest))
                λ p. inr (name, rest, named, p))
              λ values _. value tt)
        (subst ScriptPanics (take_remaining-all bs))

  avc-Ends : (bs : List ℕ) → Ends (Video.demux_avc bo bs)
  unfolding Video.demux_avc
  avc-Ends bs = Settles->>= (read_u8-Settles bs) λ (type, bs₁) _.
      Settles->>= (read_be-Settles bo 3 bs₁) λ (time, bs₂) _.
        Ends-if (type == 0) (Settles->>= (H264Ends.demux-Ends bo bs₂) λ (config, rest) _. value tt)
          (Ends-if (type == 1) (value tt) (Ends-if (type == 2) (value tt) (value tt)))

  start-Ends :
      {A : Type 0} (demux : Cursor → Io (A × BitReader)) (bs : List ℕ)
      → ((c : Cursor) → Returns (λ (_, r). IsValid r) (demux c))
      → Ends (Video.from_start demux bs)
  unfolding Video.from_start
  start-Ends demux bs h = Settles->>= (h _) λ (config, r) _. value tt

  av1-Ends : (packet_type : ℕ) (bs : List ℕ) → Arm (Video.demux_av1 bo packet_type bs)
  unfolding Video.demux_av1
  av1-Ends packet_type bs =
      Arm-if (packet_type == 0) _ _
        (Settles->>= (start-Ends _ bs Av1Ends.demux-Returns) λ (config, rest) _. value tt)
        (Arm-if (packet_type == 5) _ _
          (Settles->>= (start-Ends _ bs Av1Ends.demux_descriptor-Returns)
            λ (descriptor, rest) _. value tt)
          (Arm-if (packet_type == 1) _ _ (value tt) tt))

  hevc-Ends : (packet_type : ℕ) (bs : List ℕ) → Arm (Video.demux_hevc bo packet_type bs)
  unfolding Video.demux_hevc
  hevc-Ends packet_type bs =
      Arm-if (packet_type == 0) _ _
        (Settles->>= (start-Ends _ bs (H265Ends.demux-Returns bo)) λ (config, rest) _. value tt)
        (Arm-if (packet_type == 1) _ _
          (Settles->>= (read_exact-Settles 3 bs) λ (buf, bs₁) _. value tt)
          (Arm-if (packet_type == 3) _ _ (value tt) tt))

  codec-Ends :
      (codec : List ℕ) (packet_type : ℕ) (bs : List ℕ)
      → Ends (Video.demux_codec bo codec packet_type bs)
  unfolding Video.demux_codec
  codec-Ends codec packet_type bs =
      Arm-otherwise _
        (Arm-if (Video.same_code codec Video.av1_code) _ _ (av1-Ends packet_type bs)
          (Arm-if (Video.same_code codec Video.hevc_code) _ _ (hevc-Ends packet_type bs) tt))
        (value tt)

  enhanced-Ends : (packet_type : ℕ) (bs : List ℕ) → Ends (Video.demux_enhanced bo packet_type bs)
  unfolding Video.demux_enhanced
  enhanced-Ends packet_type bs = Settles->>= (read_exact-Settles 4 bs) λ (codec, bs₁) _.
      Ends-if (packet_type == 2) (value tt)
        (Ends-if (packet_type == 4) (value tt) (codec-Ends codec packet_type bs₁))

  body-Ends :
      (packet_type : Video.VideoPacketType) (bs : List ℕ)
      → Ends (Video.demux_body bo packet_type bs)
  unfolding Video.demux_body
  body-Ends (Video.VideoPacketType.codec_id id) bs =
      Ends-if (id == 7) (Settles->>= (avc-Ends bs) λ (packet, rest) _. value tt) (value tt)
  body-Ends (Video.VideoPacketType.enhanced packet_type) bs =
      Settles->>= (enhanced-Ends packet_type bs) λ (packet, rest) _. value tt

  video-Ends : (bs : List ℕ) → Ends (Video.demux bo bs)
  unfolding Video.demux Video.read_body
  video-Ends bs = Settles->>= (read_u8-Settles bs) λ (byte, bs₁) _.
      Settles->>=
        (Ends-if (byte / 16 % 8 == 5)
          (Settles->>= (read_u8-Settles bs₁) λ (packet, rest) _. value tt)
          (body-Ends (Video.new (byte % 16) (not (byte / 128 % 2 == 0))) bs₁))
        λ (body, rest) _. value tt

  -- A read that can only panic on script data, which is that of a tag of type 18.
  abbrev DataSettles : {A : Type 0} → ℕ → List ℕ → Io A → Type 0
  DataSettles tag_type bs o = Settles ((tag_type ≡ 18) × ScriptPanics bs) (λ _. Unit {0}) o

  safe-DataSettles :
      {A : Type 0} (tag_type : ℕ) (bs : List ℕ) {o : Io A} → Ends o → DataSettles tag_type bs o
  safe-DataSettles tag_type bs h = Settles-because h λ never. elim never [ ]

  pub data-Settles :
      (tag_type : ℕ) (bs : List ℕ) → DataSettles tag_type bs (Tag.demux_data bo tag_type bs)
  unfolding Tag.demux_data
  data-Settles tag_type bs = elim (Bool-cases (tag_type == 8)) [
    | inl e ↦
        rw e
          (safe-DataSettles tag_type bs (Settles->>= (audio-Ends bs) λ (found, rest) _. value tt))
    | inr e ↦ rw e (elim (Bool-cases (tag_type == 9)) [
      | inl e' ↦
          rw e'
            (safe-DataSettles tag_type bs (Settles->>= (video-Ends bs) λ (found, rest) _. value tt))
      | inr e' ↦ rw e' (elim (Bool-cases (tag_type == 18)) [
        | inl e'' ↦ rw e'' (
            Settles->>= (Settles-because (script-Settles bs) λ p. (ground (arith, e''), p))
              λ (found, rest) _. value tt)
        | inr e'' ↦ rw e'' (value tt)
      ])
    ])
  ]

-- ===== src/Flv/Tag/Panics.antt =====
-- Files whose script data panic the AMF0 decoder, as `demux_file` reads them.
use video.Base.{
  ℕ, zero, suc, ◌+◌, ◌≤◌, ◌≡◌, arith, List, [], ◌∷◌, ok, panic, length, inl, inr, Settles-ok,
}
use video.Io.{Io, read_u8-Settles}
use video.ByteOrder.{ByteOrder, read_be}
use video.ByteOrder.Laws.{read_be-Settles}
use video.Flv.Ends.{ScriptPanics, take_remaining-all}
use video.Flv.Script as Script
use video.Flv.Tag.{FlvTag, unless_done, demux_data, demux, demux_tags, demux_file}
use video.Flv.Tag.Total.{TagPanics, TagAt, first, next, FilePanics, demux-Settles}

module _ (bo : ByteOrder) where
  script-panics : (bs : List ℕ) → ScriptPanics bo bs → Script.demux bo bs ≡ panic
  unfolding Script.demux Script.match_name Script.match_values
  script-panics bs (inl e) = rw (take_remaining-all bs) (rw e)
  script-panics bs (inr (name, rest, e, e')) = rw (take_remaining-all bs) (rw e (rw e'))

  tag-panics : (bs : List ℕ) → TagPanics bo bs → demux bo bs ≡ panic
  unfolding demux demux_data
  tag-panics bs p = rw p.type_of (
      rw p.size_of (
        rw p.timestamp_of (
          rw p.extended_of
            (rw p.stream_of (rw p.contents_of (rw (script-panics p.contents p.cause)))))))

  taken :
      (bs : List ℕ) {n : ℕ} {rest : List ℕ}
      → read_be bo 4 bs ≡ ok (n, rest)
      → length rest + 4 ≡ length bs
  taken bs e = Settles-ok (read_be-Settles bo {C = Unit} 4 bs) e

  framed :
      (bs : List ℕ) {tag : FlvTag} {rest : List ℕ}
      → demux bo bs ≡ ok (tag, rest)
      → length rest + 11 ≤ length bs
  framed bs e = Settles-ok (demux-Settles bo bs) e

  some_type : (bs : List ℕ) (p : TagPanics bo bs) → length p.after_type + 1 ≡ length bs
  some_type bs p = Settles-ok (read_u8-Settles {C = Unit} bs) p.type_of

  -- The bytes of a tag are not the end of the file.
  goes_on :
      {A : Type 0} (bs : List ℕ) (found : A) (o : Io A)
      → 1 ≤ length bs
      → o ≡ panic
      → unless_done bs found o ≡ panic
  goes_on [] found o h e = absurd (omega arith)
  goes_on (b ∷ bs) found o h e = e

  tags-panic :
      (f : ℕ) (bs at : List ℕ)
      → length bs ≤ f
      → TagAt bo bs at
      → TagPanics bo at
      → demux_tags bo f bs ≡ panic
  unfolding demux_tags
  tags-panic f [] at h (first e) p = absurd (omega (arith, taken [] e))
  tags-panic f [] at h (next e e' t) p = absurd (omega (arith, taken [] e))
  tags-panic zero (b ∷ bs) at h t p = absurd (omega arith)
  tags-panic (suc f) (b ∷ bs) at h (first e) p =
      rw e (goes_on at _ _ (omega (arith, some_type at p)) (rw (tag-panics at p)))
  tags-panic (suc f) (b ∷ bs) at h (next {behind} {rest} e e' t) p = rw e (
      goes_on behind _ _ (omega (arith, framed behind e'))
        (rw e' (rw (tags-panic f rest at (omega (arith, taken (b ∷ bs) e, framed behind e')) t p))))

  -- A file whose header is read, and in which a tag is reached whose frame is whole, whose type
  -- is script data and on whose name, or on whose values behind a name, the AMF0 decoder panics,
  -- panics `FlvFile::demux`: the panic is not turned into an error on the way.
  pub demux_file-panics : (bs : List ℕ) → FilePanics bo bs → demux_file bo bs ≡ panic
  unfolding demux_file
  demux_file-panics bs (header, rest, e, (at, reached, p)) =
      rw e (rw (tags-panic (length rest) rest at (omega arith) reached p))

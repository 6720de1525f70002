-- ===== src/BytesUtil/RoundTrip.antt =====
-- Any sequence of bit fields comes back from the bytes that were written for it.
use video.Base.{
  ℕ, ◌-◌, ◌%◌, ◌^◌, ◌≤◌, ◌<◌, ◌≡◌, refl, ap, ◌∙◌, sym, arith, List, [], ◌∷◌, ◌++◌, append_assoc,
  append-nil, map, ok, ◌>>=◌, All, Bool,
}
use native.Mathlib.Nat.{mod-eq_of_lt}
use video.Io.{Io}
use video.BytesUtil.Bits.{to_bits, of_bits, of_bits-to_bits, length-to_bits, bytes_bits}
use video.BytesUtil.BitReader.{BitReader, read_bits, new_from_slice}
use video.BytesUtil.BitReader.View as ReaderView
use video.BytesUtil.BitReader.View.{read_bits-view, view-new_from_slice, new_from_slice-IsValid}
use video.BytesUtil.BitWriter.{BitWriter, write_bits, finish, new}
use video.BytesUtil.BitWriter.View as WriterView
use video.BytesUtil.BitWriter.View.{write_bits-view, finish-view, view-new, new-IsValid}

-- A field is a number and its width in bits.
pub record Field : Type 0 where
  pub bits : ℕ
  pub count : ℕ

pub record Fits (f : Field) : Type 0 where
  pub wide : f.count ≤ 64
  pub small : f.bits < 2 ^ f.count

pub write_fields : List Field → BitWriter → Io BitWriter
write_fields [] w = ok w
write_fields (f ∷ fs) w = do w' ← write_bits f.bits f.count w; write_fields fs w'

pub read_fields : List ℕ → BitReader → Io (List ℕ × BitReader)
read_fields [] r = ok ([], r)
read_fields (n ∷ ns) r = do (v, r') ← read_bits n r; (vs, r'') ← read_fields ns r'; ok (v ∷ vs, r'')

abbrev bits_of : List Field → List Bool
bits_of [] = []
bits_of (f ∷ fs) = to_bits f.count f.bits ++ bits_of fs

write_fields-view :
    (fs : List Field) (w : BitWriter)
    → All Fits fs
    → WriterView.IsValid w
    → (w' : BitWriter) × (write_fields fs w ≡ ok w')
      × (WriterView.view w' ≡ WriterView.view w ++ bits_of fs)
      × WriterView.IsValid w'
unfolding write_fields
write_fields-view [] w h v = (w, refl, sym (append-nil _), v)
write_fields-view (f ∷ fs) w (h, hs) v =
    let (w₁, step, e₁, v₁) = write_bits-view f.bits f.count w v h.wide h.small in
    let (w₂, steps, e₂, v₂) = write_fields-view fs w₁ hs v₁ in
    (
      w₂,
      rw step steps,
      e₂ ∙ ap (λ t. t ++ bits_of fs) e₁ ∙ append_assoc (WriterView.view w) _ (bits_of fs),
      v₂,
    )

-- One field, read by its width.
pub read_field-view :
    (n v : ℕ) (rest : List Bool) (r : BitReader)
    → n ≤ 64
    → v < 2 ^ n
    → ReaderView.IsValid r
    → ReaderView.view r ≡ to_bits n v ++ rest
    → (r' : BitReader) × (read_bits n r ≡ ok (v, r'))
      × (ReaderView.view r' ≡ rest)
      × ReaderView.IsValid r'
read_field-view n v rest r le lt valid e =
    let (r', step, e', v') =
      read_bits-view (to_bits n v) rest r valid e (omega (arith, length-to_bits n v)) in
    (
      r',
      ap (λ k. read_bits k r) (sym (length-to_bits n v)) ∙ step ∙ ap (λ x. ok (x, r')) value,
      e',
      v',
    )
  where
    value : of_bits 0 (to_bits n v) ≡ v
    value = of_bits-to_bits n 0 v ∙ omega (arith, mod-eq_of_lt lt)

read_fields-view :
    (fs : List Field) (rest : List Bool) (r : BitReader)
    → All Fits fs
    → ReaderView.IsValid r
    → ReaderView.view r ≡ bits_of fs ++ rest
    → (r' : BitReader) × (read_fields (map (λ f. f.count) fs) r ≡ ok (map (λ f. f.bits) fs, r'))
      × (ReaderView.view r' ≡ rest)
      × ReaderView.IsValid r'
unfolding read_fields
read_fields-view [] rest r h v e = (r, refl, e, v)
read_fields-view (f ∷ fs) rest r (h, hs) v e =
    let (r₁, step, e₁, v₁) =
      read_field-view f.count f.bits (bits_of fs ++ rest) r h.wide h.small v
        (e ∙ append_assoc (to_bits f.count f.bits) (bits_of fs) rest) in
    let (r₂, steps, e₂, v₂) = read_fields-view fs rest r₁ hs v₁ e₁ in
    (r₂, rw step (rw steps), e₂, v₂)

-- Numbers that fit their widths of at most 64 bits, written to a new writer with `write_bits`
-- and finished, are read back from the finished bytes, in order, by a reader that asks for the
-- same widths.
pub read_fields-write_fields :
    (fs : List Field)
    → All Fits fs
    → (bytes : List ℕ) × (r : BitReader) × ((write_fields fs (new []) >>= finish) ≡ ok bytes)
      × (read_fields (map (λ f. f.count) fs) (new_from_slice bytes) ≡ ok (map (λ f. f.bits) fs, r))
unfolding bytes_bits
read_fields-write_fields fs h =
    let (w, wrote, e, v) = write_fields-view fs (new []) h (new-IsValid []) in
    let (bytes, done, e') = finish-view w v in
    let (r, read, _, _) =
      read_fields-view fs (to_bits ((8 - w.bit_pos) % 8) 0) (new_from_slice bytes) h
        (new_from_slice-IsValid bytes)
        (view-new_from_slice bytes
          ∙ e'
          ∙ ap (λ t. t ++ to_bits ((8 - w.bit_pos) % 8) 0)
              (e ∙ ap (λ t. t ++ bits_of fs) (view-new []))) in
    (bytes, r, rw wrote done, read)

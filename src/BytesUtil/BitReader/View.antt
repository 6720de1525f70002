-- ===== src/BytesUtil/BitReader/View.antt =====
-- The bit reader against a list of bits: what it reads is what it takes off the front of its view.
use native.Mathlib.Nat.{pow-le-pow_right}
use video.Base.{
  ℕ, zero, suc, ◌+◌, ◌-◌, ◌*◌, ◌%◌, ◌^◌, ◌≤◌, ◌<◌, min, ◌≡◌, ◌≢◌, refl, ap, ◌∙◌, arith, Bool, true,
  false, inl, inr, List, [], ◌∷◌, ◌++◌, ok, err, if◌then◌else◌, length, bit_or, Bool-cases, ==_iff,
  subst,
}
use video.Base.Arith.{bit_or-low, two_pow-suc}
use video.Io.{remaining, read_one_some, read_one_none, unexpected_eof}
use video.BytesUtil.Bits.{to_bits, of_bits, bytes_bits, bit_value, bit_at}
use video.BytesUtil.BitReader.{
  BitReader, is_aligned, read_bit, read_bits, read_bits_loop, new_from_slice,
}

-- How many bits of the current byte are still to be read.
abbrev pub pending : BitReader → ℕ
pending r = (8 - r.bit_pos) % 8

abbrev pub view : BitReader → List Bool
view r = to_bits (pending r) r.current_byte ++ bytes_bits (remaining r.source)

abbrev pub IsValid : BitReader → Type 0
IsValid r = r.bit_pos < 8

read_bit_fresh :
    (r : BitReader) (x : ℕ) (xs : List ℕ)
    → r.bit_pos ≡ 0
    → remaining r.source ≡ x ∷ xs
    → (r' : BitReader) × (read_bit r ≡ ok (bit_at x 7, r'))
      × (view r' ≡ to_bits 7 x ++ bytes_bits xs)
      × IsValid r'
unfolding read_bit
read_bit_fresh r x xs e h =
    let (one, rest) = read_one_some r.source x xs h in
    (
      record {
        source = record r.source { position = r.source.position + 1 };
        bit_pos = 1;
        current_byte = x;
      },
      ground (arith, one),
      ap (λ t. to_bits 7 x ++ bytes_bits t) rest,
      omega arith,
    )

read_bit_within :
    (r : BitReader)
    → IsValid r
    → r.bit_pos ≢ 0
    → (r' : BitReader) × (read_bit r ≡ ok (bit_at r.current_byte (7 - r.bit_pos), r'))
      × (view r' ≡ to_bits (7 - r.bit_pos) r.current_byte ++ bytes_bits (remaining r.source))
      × IsValid r'
unfolding read_bit
read_bit_within r v h = (
  record r { bit_pos = (r.bit_pos + 1) % 8 },
  ground arith,
  ap (λ n. to_bits n r.current_byte ++ bytes_bits (remaining r.source)) left,
  omega arith,
)
  where
    left : (8 - (r.bit_pos + 1) % 8) % 8 ≡ 7 - r.bit_pos
    left = omega arith

view_within :
    (r : BitReader)
    → IsValid r
    → r.bit_pos ≢ 0
    → view r
      ≡ bit_at r.current_byte (7 - r.bit_pos)
        ∷ (to_bits (7 - r.bit_pos) r.current_byte ++ bytes_bits (remaining r.source))
unfolding to_bits
view_within r v h = ap (λ n. to_bits n r.current_byte ++ bytes_bits (remaining r.source)) left
  where
    left : (8 - r.bit_pos) % 8 ≡ suc (7 - r.bit_pos)
    left = omega arith

view_fresh : (r : BitReader) → r.bit_pos ≡ 0 → view r ≡ bytes_bits (remaining r.source)
unfolding to_bits
view_fresh r e = ap (λ n. to_bits ((8 - n) % 8) r.current_byte ++ bytes_bits (remaining r.source)) e

-- What a read of one bit does, by the view of the reader.
abbrev pub ReadsBit : List Bool → BitReader → Type 0
ReadsBit [] r = read_bit r ≡ err unexpected_eof
ReadsBit (b ∷ bs) r = (r' : BitReader) × (read_bit r ≡ ok (b, r')) × (view r' ≡ bs) × IsValid r'

read_bit-at_end :
    (r : BitReader) → r.bit_pos ≡ 0 → remaining r.source ≡ [] → read_bit r ≡ err unexpected_eof
unfolding read_bit
read_bit-at_end r e h = ground (arith, read_one_none r.source h)

ReadsBit-fresh :
    (r : BitReader) (xs : List ℕ)
    → r.bit_pos ≡ 0
    → remaining r.source ≡ xs
    → ReadsBit (bytes_bits xs) r
unfolding bytes_bits
ReadsBit-fresh r [] e h = read_bit-at_end r e h
ReadsBit-fresh r (x ∷ xs) e h = read_bit_fresh r x xs e h

-- `read_bit` of a valid reader takes the first of the bits that are left, highest bit of a byte
-- first, keeps the reader valid, and fails with an end of file when there is none.
pub read_bit-view : (r : BitReader) → IsValid r → ReadsBit (view r) r
read_bit-view r v = elim (Bool-cases (is_aligned r)) [
  | inl e ↦
      let at : r.bit_pos ≡ 0 = (==_iff _ _).0 e in rw (view_fresh r at) (ReadsBit-fresh r _ at refl)
  | inr e ↦
      let off : r.bit_pos ≢ 0 = ground arith in rw (view_within r v off) (read_bit_within r v off)
]

pub read_bit-cons :
    (r : BitReader) (b : Bool) (bs : List Bool)
    → IsValid r
    → view r ≡ b ∷ bs
    → (r' : BitReader) × (read_bit r ≡ ok (b, r')) × (view r' ≡ bs) × IsValid r'
read_bit-cons r b bs v e = subst (λ t. ReadsBit t r) e (read_bit-view r v)

pub read_bit-nil : (r : BitReader) → IsValid r → view r ≡ [] → read_bit r ≡ err unexpected_eof
read_bit-nil r v e = subst (λ t. ReadsBit t r) e (read_bit-view r v)

shift_in :
    (b : Bool) (acc k : ℕ)
    → acc < 2 ^ k
    → suc k ≤ 64
    → bit_or (acc * 2 % 2 ^ 64) (if b then 1 else 0) ≡ acc * 2 + bit_value b
shift_in b acc k h le =
    ap (λ t. bit_or t (bit_value b)) wide ∙ bit_or-low 1 acc (bit_value b) (ground arith)
  where
    below : 2 ^ suc k ≤ 2 ^ 64
    below = pow-le-pow_right {n = 2} (omega arith) le

    wide : acc * 2 % 2 ^ 64 ≡ acc * 2
    wide = omega (arith, two_pow-suc k, below)

shift_in-lt : (b : Bool) (acc k : ℕ) → acc < 2 ^ k → acc * 2 + bit_value b < 2 ^ suc k
shift_in-lt true acc k h = omega (arith, two_pow-suc k)
shift_in-lt false acc k h = omega (arith, two_pow-suc k)

-- The loop, at a number of at most `k` bits with `n` bits to come.
pub read_bits_loop-view :
    (bs rest : List Bool) (acc k : ℕ) (r : BitReader)
    → IsValid r
    → view r ≡ bs ++ rest
    → length bs + k ≤ 64
    → acc < 2 ^ k
    → (r' : BitReader) × (read_bits_loop (length bs) acc r ≡ ok (of_bits acc bs, r'))
      × (view r' ≡ rest)
      × IsValid r'
unfolding read_bits_loop of_bits
read_bits_loop-view [] rest acc k r v e le h = (r, refl, e, v)
read_bits_loop-view (b ∷ bs) rest acc k r v e le h =
    let (r₁, step, e₁, v₁) = read_bit-cons r b (bs ++ rest) v e in
    let (r₂, steps, e₂, v₂) =
      read_bits_loop-view bs rest (acc * 2 + bit_value b) (suc k) r₁ v₁ e₁ (omega arith)
        (shift_in-lt b acc k h) in
    (r₂, rw step (rw (shift_in b acc k h (omega arith)) steps), e₂, v₂)

pub read_bits_loop-short :
    (n acc : ℕ) (bs : List Bool) (r : BitReader)
    → IsValid r
    → view r ≡ bs
    → length bs < n
    → read_bits_loop n acc r ≡ err unexpected_eof
unfolding read_bits_loop
read_bits_loop-short zero acc bs r v e h = absurd (omega arith)
read_bits_loop-short (suc n) acc [] r v e h = rw (read_bit-nil r v e)
read_bits_loop-short (suc n) acc (b ∷ bs) r v e h =
    let (r₁, step, e₁, v₁) = read_bit-cons r b bs v e in
    rw step (read_bits_loop-short n _ bs r₁ v₁ e₁ (omega arith))

-- `read_bits` with as many bits as it asks for: their number, and the view behind them.
pub read_bits-view :
    (bs rest : List Bool) (r : BitReader)
    → IsValid r
    → view r ≡ bs ++ rest
    → length bs ≤ 64
    → (r' : BitReader) × (read_bits (length bs) r ≡ ok (of_bits 0 bs, r'))
      × (view r' ≡ rest)
      × IsValid r'
unfolding read_bits
read_bits-view bs rest r v e le =
    let all : min (length bs) 64 ≡ length bs = omega arith in
    rw all (read_bits_loop-view bs rest 0 0 r v e (omega arith) (omega arith))

-- `read_bits` of a valid reader fails with an end of file when fewer bits are left than the
-- count, of which at most 64 count.
pub read_bits-short :
    (count : ℕ) (r : BitReader)
    → IsValid r
    → length (view r) < min count 64
    → read_bits count r ≡ err unexpected_eof
unfolding read_bits
read_bits-short count r v h = read_bits_loop-short (min count 64) 0 (view r) r v refl h

-- A fresh reader sees the bits of its bytes.
pub view-new_from_slice : (bytes : List ℕ) → view (new_from_slice bytes) ≡ bytes_bits bytes
unfolding new_from_slice to_bits
view-new_from_slice bytes = refl

pub new_from_slice-IsValid : (bytes : List ℕ) → IsValid (new_from_slice bytes)
unfolding new_from_slice
new_from_slice-IsValid bytes = omega arith

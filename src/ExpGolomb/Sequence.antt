-- ===== src/ExpGolomb/Sequence.antt =====
-- Whole buffers of code words, signed numbers, and the end of every read.
use video.Base.{
  ℕ, zero, suc, ◌+◌, ◌-◌, ◌*◌, ◌/◌, ◌%◌, ◌^◌, ◌<◌, ◌≡◌, refl, ap, ◌∙◌, sym, arith, Bool, true,
  false, List, [], ◌∷◌, ◌++◌, append_assoc, append-nil, ok, ◌>>=◌, All, length, ◌==◌, Returns,
  value, failed, Settles->>=, Settles-mono,
}
use video.Base.Int.{ℤ, pos, negsuc}
use video.Io.{Io}
use video.BytesUtil.Parser.Gives.{Gives-read_bit}
use video.BytesUtil.Bits.{to_bits, bytes_bits}
use video.BytesUtil.BitReader.{BitReader, read_bit, read_bits_loop, new_from_slice}
use video.BytesUtil.BitReader.View as ReaderView
use video.BytesUtil.BitReader.View.{
  view-new_from_slice, new_from_slice-IsValid, read_bit-cons, read_bit-nil,
}
use video.BytesUtil.BitWriter.{BitWriter, finish, new}
use video.BytesUtil.BitWriter.View as WriterView
use video.BytesUtil.BitWriter.View.{finish-view, view-new, new-IsValid}
use video.ExpGolomb.{
  skip_zeros, read_exp_golomb, write_exp_golomb, signed_of, unsigned_of, read_signed_exp_golomb,
  write_signed_exp_golomb, zeros_fuel,
}
use video.ExpGolomb.RoundTrip.{read_exp_golomb-write_exp_golomb, zeros_fuel-lt}

pub write_all : List ℕ → BitWriter → Io BitWriter
write_all [] w = ok w
write_all (n ∷ ns) w = do w' ← write_exp_golomb n w; write_all ns w'

pub read_all : List ℕ → BitReader → Io (List ℕ × BitReader)
read_all [] r = ok ([], r)
read_all (_ ∷ ns) r = do (v, r') ← read_exp_golomb r; (vs, r'') ← read_all ns r'; ok (v ∷ vs, r'')

abbrev pub IsCodable : ℕ → Type 0
IsCodable n = n + 1 < 2 ^ 64

abbrev ReadsBack : List ℕ → List Bool → Type 0
ReadsBack ns code =
    (r : BitReader) (rest : List Bool)
    → ReaderView.IsValid r
    → ReaderView.view r ≡ code ++ rest
    → (r' : BitReader) × (read_all ns r ≡ ok (ns, r'))

write_all-view :
    (ns : List ℕ) (w : BitWriter)
    → All IsCodable ns
    → WriterView.IsValid w
    → (w' : BitWriter) × (code : List Bool) × (write_all ns w ≡ ok w')
      × (WriterView.view w' ≡ WriterView.view w ++ code)
      × WriterView.IsValid w'
      × ReadsBack ns code
unfolding write_all read_all
write_all-view [] w h v = (w, [], refl, sym (append-nil _), v, λ r rest vr e. (r, refl))
write_all-view (n ∷ ns) w (h, hs) v =
    let (w₁, code, step, e₁, v₁, back) = read_exp_golomb-write_exp_golomb n w h v in
    let (w₂, codes, steps, e₂, v₂, backs) = write_all-view ns w₁ hs v₁ in
    (
      w₂,
      code ++ codes,
      rw step steps,
      e₂ ∙ ap (λ t. t ++ codes) e₁ ∙ append_assoc (WriterView.view w) code codes,
      v₂,
      λ r rest vr e.
          let (r₁, read, e₃, v₃) = back r (codes ++ rest) vr (e ∙ append_assoc code codes rest) in
          let (r₂, reads) = backs r₁ rest v₃ e₃ in (r₂, rw read (rw reads)),
    )

-- Numbers below 2 ^ 64 - 1, written in exponential Golomb code to a new writer and finished, are
-- read back from the finished bytes, in order.
pub read_all-write_all :
    (ns : List ℕ)
    → All IsCodable ns
    → (bytes : List ℕ) × (r : BitReader) × ((write_all ns (new []) >>= finish) ≡ ok bytes)
      × (read_all ns (new_from_slice bytes) ≡ ok (ns, r))
unfolding bytes_bits
read_all-write_all ns h =
    let (w, code, wrote, e, v, back) = write_all-view ns (new []) h (new-IsValid []) in
    let (bytes, done, e') = finish-view w v in
    let (r, read) =
      back (new_from_slice bytes) (to_bits ((8 - w.bit_pos) % 8) 0) (new_from_slice-IsValid bytes) (
        view-new_from_slice bytes
        ∙ e'
        ∙ ap (λ t. t ++ to_bits ((8 - w.bit_pos) % 8) 0) (e ∙ ap (λ t. t ++ code) (view-new []))) in
    (bytes, r, rw wrote done, read)

-- An i64 other than the least one.
abbrev pub IsNegatable : ℤ → Type 0
IsNegatable (pos n) = n < 2 ^ 63
IsNegatable (negsuc n) = suc n < 2 ^ 63

unsigned_of-IsCodable : (z : ℤ) → IsNegatable z → IsCodable (unsigned_of z)
unfolding unsigned_of
unsigned_of-IsCodable (pos zero) h = omega arith
unsigned_of-IsCodable (pos (suc n)) h = omega arith
unsigned_of-IsCodable (negsuc n) h = omega arith

pub signed_of-unsigned_of : (z : ℤ) → IsNegatable z → signed_of (unsigned_of z) ≡ z
unfolding signed_of unsigned_of
signed_of-unsigned_of (pos zero) h = refl
signed_of-unsigned_of (pos (suc n)) h = ground arith
signed_of-unsigned_of (negsuc n) h = ap signed_of whole ∙ rw (even, half)
  where
    whole : suc n * 2 % 2 ^ 64 ≡ suc n * 2
    whole = omega arith

    even : (suc n * 2 % 2 == 0) ≡ true
    even = ground arith

    half : suc n * 2 / 2 ≡ suc n
    half = omega arith

-- Every i64 but the least one comes back from the bytes that are written for it in signed
-- exponential Golomb code.
pub read_signed-write_signed :
    (z : ℤ)
    → IsNegatable z
    → (bytes : List ℕ) × (r : BitReader) × ((write_signed_exp_golomb z (new []) >>= finish)
        ≡ ok bytes)
      × (read_signed_exp_golomb (new_from_slice bytes) ≡ ok (z, r))
unfolding write_signed_exp_golomb read_signed_exp_golomb bytes_bits
read_signed-write_signed z h =
    let (w, code, wrote, e, v, back) =
      read_exp_golomb-write_exp_golomb (unsigned_of z) (new []) (unsigned_of-IsCodable z h)
        (new-IsValid []) in
    let (bytes, done, e') = finish-view w v in
    let (r, read, _, _) =
      back (new_from_slice bytes) (to_bits ((8 - w.bit_pos) % 8) 0) (new_from_slice-IsValid bytes) (
        view-new_from_slice bytes
        ∙ e'
        ∙ ap (λ t. t ++ to_bits ((8 - w.bit_pos) % 8) 0) (e ∙ ap (λ t. t ++ code) (view-new []))) in
    (bytes, r, rw wrote done, rw read (ap (λ t. ok (t, r)) (signed_of-unsigned_of z h)))

-- The first loop ends: on a one, or with an error at the end of the input.
skip_zeros-ends :
    (f n : ℕ) (bs : List Bool) (r : BitReader)
    → ReaderView.IsValid r
    → ReaderView.view r ≡ bs
    → length bs < f
    → Returns (λ (k, r'). ReaderView.IsValid r') (skip_zeros f n r)
unfolding skip_zeros
skip_zeros-ends zero n bs r v e h = absurd (omega arith)
skip_zeros-ends (suc f) n [] r v e h = rw (read_bit-nil r v e) failed
skip_zeros-ends (suc f) n (true ∷ bs) r v e h =
    let (r', step, e', v') = read_bit-cons r true bs v e in rw step (value v')
skip_zeros-ends (suc f) n (false ∷ bs) r v e h =
    let (r', step, e', v') = read_bit-cons r false bs v e in
    rw step (skip_zeros-ends f ((n + 1) % 2 ^ 32) bs r' v' e' (omega arith))

read_bit-ends :
    (r : BitReader) → ReaderView.IsValid r → Returns (λ (b, r'). ReaderView.IsValid r') (read_bit r)
read_bit-ends r v = Settles-mono (Gives-read_bit.run r v) λ (b, r') (_, v'). v'

read_bits_loop-ends :
    (n acc : ℕ) (r : BitReader)
    → ReaderView.IsValid r
    → Returns (λ (m, r'). ReaderView.IsValid r') (read_bits_loop n acc r)
unfolding read_bits_loop
read_bits_loop-ends zero acc r v = value v
read_bits_loop-ends (suc n) acc r v =
    Settles->>= (read_bit-ends r v) λ (b, r') v'. read_bits_loop-ends n _ r' v'

-- A read of an exponential Golomb number from a valid reader ends, with a number of 64 bits and
-- a valid reader or with an error, and never with a panic, however many zeros there are.
pub read_exp_golomb-ends :
    (r : BitReader)
    → ReaderView.IsValid r
    → Returns (λ (n, r'). (n < 2 ^ 64) × ReaderView.IsValid r') (read_exp_golomb r)
unfolding read_exp_golomb
read_exp_golomb-ends r v =
    Settles->>= (skip_zeros-ends (zeros_fuel r) 0 (ReaderView.view r) r v refl (zeros_fuel-lt r))
      λ (k, r') v'.
        Settles->>= (read_bits_loop-ends _ 1 r' v') λ (m, r'') v''. value (omega arith, v'')

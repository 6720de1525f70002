-- ===== src/ExpGolomb/RoundTrip.antt =====
-- What a code word is, and that reading a code word gives the number that was written.
use native.Mathlib.Nat.{mod-eq_of_lt, div-add-mod, div-eq_of_lt-le, pow-le-pow_right}
use native.Mathlib.Numerals.{add-one}
use native.Mathlib.Decide.{dec_le}
use video.Base.{
  ℕ, zero, suc, ◌+◌, ◌-◌, ◌*◌, ◌/◌, ◌%◌, ◌^◌, ◌≤◌, ◌<◌, ◌≡◌, ap, ◌∙◌, sym, arith, Bool, true, false,
  List, [], ◌∷◌, ◌++◌, append_assoc, append-nil, ok, ltb, length, length-append, replicate,
  Bool-cases, inl, inr,
}
use video.Base.Arith.{two_pow-suc, two_pow_pos}
use video.Io.{remaining}
use video.BytesUtil.Bits.{
  to_bits, of_bits, of_bits-to_bits, length-to_bits, bytes_bits, length-bytes_bits, bit_at,
}
use video.BytesUtil.BitReader.{BitReader, read_bits_loop}
use video.BytesUtil.BitReader.View as ReaderView
use video.BytesUtil.BitReader.View.{read_bit-cons, read_bits_loop-view, pending}
use video.BytesUtil.BitWriter.{BitWriter, write_bit, write_bits}
use video.BytesUtil.BitWriter.View as WriterView
use video.BytesUtil.BitWriter.View.{write_bit-view, write_bits-view}
use video.ExpGolomb.{
  skip_zeros, zeros_fuel, rounds, read_exp_golomb, count_shifts, write_zeros, write_exp_golomb,
}

-- `k` zeros, and then `n`, whose highest bit is bit `k`.
abbrev pub code_word : ℕ → ℕ → List Bool
code_word k n = replicate k false ++ to_bits (suc k) n

-- Bit `k` is the highest of `n`.
pub record HighestBit (k n : ℕ) : Type 0 where
  pub lower : 2 ^ k ≤ n
  pub upper : n < 2 ^ suc k

count_shifts-acc : (f n acc : ℕ) → count_shifts f n acc ≡ count_shifts f n 0 + acc
unfolding count_shifts
count_shifts-acc zero n acc = omega arith
count_shifts-acc (suc f) n acc =
    ground (arith, count_shifts-acc f (n / 2) (acc + 1), count_shifts-acc f (n / 2) 1)

halve_HighestBit : (k n : ℕ) → HighestBit k (n / 2) → HighestBit (suc k) n
halve_HighestBit k n h = record {
  lower = omega (arith, h.lower, two_pow-suc k);
  upper = omega (arith, h.upper, two_pow-suc k, two_pow-suc (suc k));
}

one_HighestBit : (n : ℕ) → n ≡ 1 → HighestBit 0 n
one_HighestBit n e = record { lower = omega arith; upper = omega arith }

-- The first loop of the writer finds the highest bit, if its fuel is above the count of bits.
count_shifts-HighestBit : (f n : ℕ) → 1 ≤ n → n < 2 ^ suc f → HighestBit (count_shifts f n 0) n
unfolding count_shifts
count_shifts-HighestBit zero n one h = one_HighestBit n (omega arith)
count_shifts-HighestBit (suc f) n one h = elim (Bool-cases (ltb 1 n)) [
  | inl more ↦
      rw (more, count_shifts-acc f (n / 2) 1, add-one)
        (halve_HighestBit _ n
          (count_shifts-HighestBit f (n / 2) (ground arith) (omega (arith, two_pow-suc (suc f)))))
  | inr done ↦ rw done (one_HighestBit n (ground arith))
]

write_zeros-view :
    (k : ℕ) (w : BitWriter)
    → WriterView.IsValid w
    → (WriterView.view (write_zeros k w) ≡ WriterView.view w ++ replicate k false)
      × WriterView.IsValid (write_zeros k w)
unfolding write_zeros
write_zeros-view zero w v = (sym (append-nil _), v)
write_zeros-view (suc k) w v =
    let (here, v₁) = write_bit-view false w v in
    let (there, v₂) = write_zeros-view k (write_bit false w) v₁ in
    (
      there
          ∙ ap (λ t. t ++ replicate k false) here
          ∙ append_assoc (WriterView.view w) (false ∷ []) (replicate k false),
      v₂,
    )

HighestBit-le : (k n : ℕ) → HighestBit k n → n < 2 ^ 64 → k ≤ 63
HighestBit-le k n h lt = elim (dec_le k 63) [
  | yes le ↦ le
  | no above ↦
      let far : 2 ^ 64 ≤ 2 ^ k = pow-le-pow_right {n = 2} (omega arith) {i = 64} (omega arith) in
      absurd (omega (arith, h.lower))
]

write_code_word :
    (k n : ℕ) (w : BitWriter)
    → HighestBit k n
    → n < 2 ^ 64
    → WriterView.IsValid w
    → (w' : BitWriter) × (write_bits n (k + 1) (write_zeros k w) ≡ ok w')
      × (WriterView.view w' ≡ WriterView.view w ++ code_word k n)
      × WriterView.IsValid w'
write_code_word k n w top lt v =
    let (e, v₁) = write_zeros-view k w v in
    let (w', step, e', v') =
      write_bits-view n (suc k) (write_zeros k w) v₁ (omega (arith, HighestBit-le k n top lt))
        top.upper in
    (
      w',
      rw add-one step,
      e'
          ∙ ap (λ t. t ++ to_bits (suc k) n) e
          ∙ append_assoc (WriterView.view w) (replicate k false) (to_bits (suc k) n),
      v',
    )

-- A write of a number below 2 ^ 64 - 1 to a valid writer puts behind the bits already written as
-- many zeros as the bit length of the number's successor less one, and then the successor in
-- binary, and keeps the writer valid.
pub write_exp_golomb-view :
    (input : ℕ) (w : BitWriter)
    → input + 1 < 2 ^ 64
    → WriterView.IsValid w
    → (k : ℕ) × (w' : BitWriter) × HighestBit k (input + 1)
      × (write_exp_golomb input w ≡ ok w')
      × (WriterView.view w' ≡ WriterView.view w ++ code_word k (input + 1))
      × WriterView.IsValid w'
unfolding write_exp_golomb
write_exp_golomb-view input w lt v =
    let (w', step, e, v') = write_code_word k (input + 1) w top lt v in
    (k, w', top, rw whole step, e, v')
  where
    whole : (input + 1) % 2 ^ 64 ≡ input + 1
    whole = mod-eq_of_lt lt

    k : ℕ
    k = count_shifts 64 (input + 1) 0

    top : HighestBit k (input + 1)
    top = count_shifts-HighestBit 64 (input + 1) (omega arith) (omega arith)

-- The reader's first loop takes the zeros and the one behind them.
skip_zeros-view :
    (k f n : ℕ) (rest : List Bool) (r : BitReader)
    → ReaderView.IsValid r
    → ReaderView.view r ≡ replicate k false ++ true ∷ rest
    → k < f
    → n + k < 2 ^ 31
    → (r' : BitReader) × (skip_zeros f n r ≡ ok (n + k, r'))
      × (ReaderView.view r' ≡ rest)
      × ReaderView.IsValid r'
unfolding skip_zeros
skip_zeros-view k zero n rest r v e h small = absurd (omega arith)
skip_zeros-view zero (suc f) n rest r v e h small =
    let (r', step, e', v') = read_bit-cons r true rest v e in
    (r', rw step (ap (λ m. ok (m, r')) (omega arith)), e', v')
skip_zeros-view (suc k) (suc f) n rest r v e h small =
    let (r₁, step, e₁, v₁) = read_bit-cons r false (replicate k false ++ true ∷ rest) v e in
    let (r', steps, e', v') =
      skip_zeros-view k f (n + 1) rest r₁ v₁ e₁ (omega arith) (omega arith) in
    let same : (n + 1) % 2 ^ 32 ≡ n + 1 = omega arith in
    (
      r',
      rw step (ap (λ m. skip_zeros f m r₁) same ∙ steps ∙ ap (λ m. ok (m, r')) (omega arith)),
      e',
      v',
    )

length-replicate_append :
    (k : ℕ) (b : Bool) (bs : List Bool) → length (replicate k b ++ bs) ≡ k + length bs
length-replicate_append zero b bs = omega arith
length-replicate_append (suc k) b bs = omega (arith, length-replicate_append k b bs)

-- The fuel of the reader's first loop is more than the bits that are left.
pub zeros_fuel-lt : (r : BitReader) → length (ReaderView.view r) < zeros_fuel r
zeros_fuel-lt r = omega (
  arith,
  length-append (to_bits (pending r) r.current_byte) (bytes_bits (remaining r.source)),
  length-to_bits (pending r) r.current_byte,
  length-bytes_bits (remaining r.source),
)

highest-quotient : (k n : ℕ) → HighestBit k n → n / 2 ^ k ≡ 1
highest-quotient k n h =
    div-eq_of_lt-le (2 ^ k) (omega (arith, h.lower)) (omega (arith, h.upper, two_pow-suc k))

-- The highest bit, and the number behind it.
code_word_lem : (k n : ℕ) → HighestBit k n → code_word k n ≡ replicate k false ++ true ∷ to_bits k n
unfolding to_bits
code_word_lem k n h = ap (λ b. replicate k false ++ b ∷ to_bits k n) set
  where
    set : bit_at n k ≡ true
    set = rw (highest-quotient k n h)

below_highest : (k n : ℕ) → HighestBit k n → 1 * 2 ^ k + n % 2 ^ k ≡ n
below_highest k n h =
    omega (arith, div-add-mod n (2 ^ k), ap (λ (t : ℕ). 2 ^ k * t) (highest-quotient k n h))

-- A valid reader in front of the code word of a 64-bit number returns that number less one, and
-- stands behind the code word.
pub read_exp_golomb-view :
    (k n : ℕ) (rest : List Bool) (r : BitReader)
    → HighestBit k n
    → n < 2 ^ 64
    → ReaderView.IsValid r
    → ReaderView.view r ≡ code_word k n ++ rest
    → (r' : BitReader) × (read_exp_golomb r ≡ ok (n - 1, r'))
      × (ReaderView.view r' ≡ rest)
      × ReaderView.IsValid r'
unfolding read_exp_golomb
read_exp_golomb-view k n rest r top lt v e =
    let (r₁, step, e₁, v₁) =
      skip_zeros-view k (zeros_fuel r) 0 (to_bits k n ++ rest) r v front enough
        (omega (arith, HighestBit-le k n top lt)) in
    let (r₂, steps, e₂, v₂) =
      read_bits_loop-view (to_bits k n) rest 1 1 r₁ v₁ e₁
        (omega (arith, length-to_bits k n, HighestBit-le k n top lt)) (omega arith) in
    let whole =
      ap (λ j. read_bits_loop j 1 r₁) (all_rounds ∙ count) ∙ steps ∙ ap (λ m. ok (m, r₂)) value in
    (r₂, rw step (rw whole (ap (λ m. ok (m, r₂)) less_one)), e₂, v₂)
  where
    front : ReaderView.view r ≡ replicate k false ++ true ∷ (to_bits k n ++ rest)
    front =
        e
        ∙ ap (λ t. t ++ rest) (code_word_lem k n top)
        ∙ append_assoc (replicate k false) (true ∷ to_bits k n) rest

    all_rounds : rounds (0 + k) ≡ 0 + k
    all_rounds = ground (arith, HighestBit-le k n top lt)

    count : 0 + k ≡ length (to_bits k n)
    count = omega (arith, length-to_bits k n)

    value : of_bits 1 (to_bits k n) ≡ n
    value = of_bits-to_bits k 1 n ∙ below_highest k n top

    less_one : (n + 2 ^ 64 - 1) % 2 ^ 64 ≡ n - 1
    less_one = omega (arith, top.lower, two_pow_pos k)

    enough : k < zeros_fuel r
    enough = omega (
      arith,
      zeros_fuel-lt r,
      ap length front,
      length-replicate_append k false (true ∷ (to_bits k n ++ rest)),
    )

-- A u64 below 2 ^ 64 - 1 that is written behind any bits comes back to a reader in front of it,
-- and the reader stands behind the code word.
pub read_exp_golomb-write_exp_golomb :
    (input : ℕ) (w : BitWriter)
    → input + 1 < 2 ^ 64
    → WriterView.IsValid w
    → (w' : BitWriter) × (code : List Bool) × (write_exp_golomb input w ≡ ok w')
      × (WriterView.view w' ≡ WriterView.view w ++ code)
      × WriterView.IsValid w'
      × ((r : BitReader) (rest : List Bool)
          → ReaderView.IsValid r
          → ReaderView.view r ≡ code ++ rest
          → (r' : BitReader) × (read_exp_golomb r ≡ ok (input, r'))
            × (ReaderView.view r' ≡ rest)
            × ReaderView.IsValid r')
read_exp_golomb-write_exp_golomb input w lt v =
    let (k, w', top, step, e, v') = write_exp_golomb-view input w lt v in
    (
      w',
      code_word k (input + 1),
      step,
      e,
      v',
      λ r rest vr er.
          let (r', read, e₂, v₂) = read_exp_golomb-view k (input + 1) rest r top lt vr er in
          (r', read ∙ ap (λ m. ok (m, r')) (omega arith), e₂, v₂),
    )

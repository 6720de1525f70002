-- ===== src/Av1/Leb128.antt =====
-- `read_leb128` against the encoding of the AV1 specification, 4.10.5.
use native.Mathlib.Nat.{pow-suc, mul-le-mul_right}
use video.Base.{
  ok, ℕ, zero, suc, ◌+◌, ◌*◌, ◌/◌, ◌%◌, ◌^◌, ◌≤◌, ◌<◌, ◌≡◌, sym, ap, ◌∙◌, subst, arith, Bool, true,
  false, inl, inr, List, [], ◌∷◌, ◌++◌, append-nil, bit_or, ltb, ◌==◌, if◌then◌else◌, Bool-cases,
}
use video.Base.Arith.{bit_or-high, two_pow-suc}
use video.BytesUtil.Bits.{to_bits, bytes_bits, bytes_bits-one}
use video.BytesUtil.BitReader.{BitReader}
use video.BytesUtil.Parser.{pure}
use video.BytesUtil.Parser.Reads.{At, Reads, Reads->>=, Reads-pure, Reads-read_bits}
use video.Av1.{read_leb128, read_leb128_loop}

-- Seven bits in a byte, the lowest first; the high bit says that more follow. At most `n + 1` bytes.
unfoldable pub leb128 : ℕ → ℕ → List ℕ
leb128 zero v = v ∷ []
leb128 (suc n) v = if ltb v 128 then v ∷ [] else (128 + v % 128) ∷ leb128 n (v / 128)

-- The last byte of a number.
ends-Reads :
    (n i result v : ℕ)
    → result < 2 ^ (i * 7)
    → v < 128
    → Reads (read_leb128_loop (suc n) i result) (result + v * 2 ^ (i * 7)) (bytes_bits (v ∷ []))
unfolding read_leb128_loop
ends-Reads n i result v hr hv =
    subst (λ t. Reads (read_leb128_loop (suc n) i result) (result + v * 2 ^ (i * 7)) t)
      (append-nil (to_bits 8 v) ∙ sym (bytes_bits-one v))
      (Reads->>= _ (Reads-read_bits 8 v (omega arith) (omega (arith, hv))) (
        rw stops (
          subst (λ t. Reads (pure (bit_or result (v % 128 * 2 ^ (i * 7)))) t []) value
            (Reads-pure _))))
  where
    stops : (v / 128 % 2 == 0) ≡ true
    stops = ground (arith, hv)

    value : bit_or result (v % 128 * 2 ^ (i * 7)) ≡ result + v * 2 ^ (i * 7)
    value =
        bit_or-high (i * 7) result (v % 128) hr
        ∙ ap (λ (k : ℕ). result + k * 2 ^ (i * 7)) (omega (arith, hv))

seven_more : (i : ℕ) → 2 ^ ((i + 1) * 7) ≡ 128 * 2 ^ (i * 7)
seven_more i = ap (λ (k : ℕ). 2 ^ k) parts ∙ seven_times (i * 7)
  where
    parts : (i + 1) * 7 ≡ suc (suc (suc (suc (suc (suc (suc (i * 7)))))))
    parts = omega arith

    seven_times : (k : ℕ) → 2 ^ suc (suc (suc (suc (suc (suc (suc k)))))) ≡ 128 * 2 ^ k
    seven_times k = omega (
      arith,
      two_pow-suc k,
      two_pow-suc (suc k),
      two_pow-suc (suc (suc k)),
      two_pow-suc (suc (suc (suc k))),
      two_pow-suc (suc (suc (suc (suc k)))),
      two_pow-suc (suc (suc (suc (suc (suc k))))),
      two_pow-suc (suc (suc (suc (suc (suc (suc k)))))),
    )

-- The number with seven bits more.
abbrev longer : ℕ → ℕ → ℕ → ℕ
longer i result v = result + v % 128 * 2 ^ (i * 7)

longer-lt : (i result v : ℕ) → result < 2 ^ (i * 7) → longer i result v < 2 ^ ((i + 1) * 7)
longer-lt i result v h =
    let wide : v % 128 * 2 ^ (i * 7) ≤ 127 * 2 ^ (i * 7) =
      mul-le-mul_right (2 ^ (i * 7)) (omega arith) in
    omega (arith, h, wide, seven_more i)

longer-rest :
    (i result v : ℕ) → longer i result v + v / 128 * 2 ^ ((i + 1) * 7) ≡ result + v * 2 ^ (i * 7)
longer-rest i result v =
    ap (λ (t : ℕ). longer i result v + v / 128 * t) (seven_more i)
    ∙ regroup (v % 128) (v / 128) (2 ^ (i * 7))
    ∙ ap (λ (t : ℕ). result + t * 2 ^ (i * 7)) (omega arith)
  where
    regroup : (a b p : ℕ) → result + a * p + b * (128 * p) ≡ result + (a + 128 * b) * p
    regroup a b p = grind arith

-- A byte that is not the last, in front of the others.
goes-Reads :
    (n i result v : ℕ) (bits : List Bool)
    → result < 2 ^ (i * 7)
    → Reads
        (read_leb128_loop (suc n) (i + 1) (longer i result v))
        (longer i result v + v / 128 * 2 ^ ((i + 1) * 7))
        bits
    → Reads
        (read_leb128_loop (suc (suc n)) i result)
        (result + v * 2 ^ (i * 7))
        (to_bits 8 (128 + v % 128) ++ bits)
unfolding read_leb128_loop
goes-Reads n i result v bits hr h =
    subst
      (λ t. Reads (read_leb128_loop (suc (suc n)) i result) t (to_bits 8 (128 + v % 128) ++ bits))
      (longer-rest i result v)
      (Reads->>= _ (Reads-read_bits 8 (128 + v % 128) (omega arith) (omega arith)) (
        rw goes_on (
          subst
            (λ t.
              Reads (read_leb128_loop (suc n) (i + 1) t)
                (longer i result v + v / 128 * 2 ^ ((i + 1) * 7)) bits)
            (sym (
              bit_or-high (i * 7) result ((128 + v % 128) % 128) hr
              ∙ ap (λ (k : ℕ). result + k * 2 ^ (i * 7)) low))
            h)))
  where
    goes_on : ((128 + v % 128) / 128 % 2 == 0) ≡ false
    goes_on = ground arith

    low : (128 + v % 128) % 128 ≡ v % 128
    low = omega arith

loop-Reads :
    (n i result v : ℕ)
    → result < 2 ^ (i * 7)
    → v < 128 ^ suc n
    → Reads (read_leb128_loop (suc n) i result) (result + v * 2 ^ (i * 7)) (bytes_bits (leb128 n v))
unfolding leb128 bytes_bits
loop-Reads zero i result v hr hv = ends-Reads zero i result v hr (omega (arith, hv))
loop-Reads (suc n) i result v hr hv = elim (Bool-cases (ltb v 128)) [
  | inl e ↦ rw e (ends-Reads (suc n) i result v hr (ground (arith, e)))
  | inr e ↦ rw e (
      goes-Reads n i result v (bytes_bits (leb128 n (v / 128))) hr (
        loop-Reads n (i + 1) (longer i result v) (v / 128) (longer-lt i result v hr)
          (omega (arith, hv, pow-suc 128 (suc n)))))
]

-- A number below 2 ^ 56 in little-endian base 128, in front of any bits and at any position in a
-- byte, is read by `read_leb128` as that number, and the bits behind it are left.
pub read_leb128-leb128 :
    (v : ℕ) (r : BitReader) (rest : List Bool)
    → v < 2 ^ 56
    → At r (bytes_bits (leb128 7 v) ++ rest)
    → (r' : BitReader) × (read_leb128 r ≡ ok (v, r')) × At r' rest
unfolding read_leb128
read_leb128-leb128 v r rest h at =
    (subst (λ t. Reads (read_leb128_loop 8 0 0) t (bytes_bits (leb128 7 v))) (omega arith)
        (loop-Reads 7 0 0 v (omega arith) (omega (arith, h)))).run
      r rest at

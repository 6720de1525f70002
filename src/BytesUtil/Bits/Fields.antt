-- ===== src/BytesUtil/Bits/Fields.antt =====
-- Two fields side by side are one number.
use native.Mathlib.Nat.{mul-add-div_right, div-eq_of_lt, div-div-eq-div-mul}
use mathlib.Core.Path.{ap₂}
use video.Base.{
  ℕ, zero, suc, ◌+◌, ◌*◌, ◌/◌, ◌%◌, ◌^◌, ◌<◌, ◌≡◌, refl, ap, ◌∙◌, sym, arith, ◌∷◌, ◌++◌, ◌==◌,
}
use video.Base.Arith.{two_pow-suc, two_pow_pos}
use video.BytesUtil.Bits.{to_bits}

none_more : (n : ℕ) → 0 + n ≡ n
none_more n = omega arith

one_more : (m n : ℕ) → suc m + n ≡ suc (m + n)
one_more m n = omega arith

-- The bits from `n` on are those of the higher field.
high_quotient : (m n a v : ℕ) → v < 2 ^ n → (a * 2 ^ n + v) / 2 ^ (m + n) ≡ a / 2 ^ m
high_quotient m n a v h =
    ap (λ (t : ℕ). (a * 2 ^ n + v) / t) (split m)
    ∙ sym (div-div-eq-div-mul (a * 2 ^ n + v) (2 ^ n) (2 ^ m))
    ∙ ap (λ (t : ℕ). t / 2 ^ m)
        (mul-add-div_right (two_pow_pos n) a v
          ∙ ap (λ (t : ℕ). a + t) (div-eq_of_lt h)
          ∙ omega arith)
  where
    split : (m : ℕ) → 2 ^ (m + n) ≡ 2 ^ n * 2 ^ m
    split zero = ap (λ (k : ℕ). 2 ^ k) (none_more n) ∙ omega arith
    split (suc m) = omega (
      arith,
      split m,
      ap (λ (k : ℕ). 2 ^ k) (one_more m n),
      two_pow-suc (m + n),
      two_pow-suc m,
      ap (λ (t : ℕ). 2 ^ n * t) (two_pow-suc m),
    )

-- The bits below `n` are those of the lower one.
to_bits-low : (n a v : ℕ) → to_bits n (a * 2 ^ n + v) ≡ to_bits n v
unfolding to_bits
to_bits-low zero a v = refl
to_bits-low (suc n) a v =
    ap₂ (λ b t. b ∷ t) (ap (λ (t : ℕ). t % 2 == 1) quotient ∙ ground arith)
      (ap (λ (t : ℕ). to_bits n (t + v)) doubled ∙ to_bits-low n (a * 2) v)
  where
    doubled : a * 2 ^ suc n ≡ a * 2 * 2 ^ n
    doubled = omega (arith, ap (λ (t : ℕ). a * t) (two_pow-suc n))

    quotient : (a * 2 ^ suc n + v) / 2 ^ n ≡ a * 2 + v / 2 ^ n
    quotient = ap (λ (t : ℕ). (t + v) / 2 ^ n) doubled ∙ mul-add-div_right (two_pow_pos n) (a * 2) v

pub to_bits-append :
    (m n a v : ℕ) → v < 2 ^ n → to_bits (m + n) (a * 2 ^ n + v) ≡ to_bits m a ++ to_bits n v
unfolding to_bits
to_bits-append zero n a v h = ap (λ k. to_bits k (a * 2 ^ n + v)) (none_more n) ∙ to_bits-low n a v
to_bits-append (suc m) n a v h =
    ap (λ k. to_bits k (a * 2 ^ n + v)) (one_more m n)
    ∙ ap₂ (λ b t. b ∷ t) (ap (λ (t : ℕ). t % 2 == 1) (high_quotient m n a v h))
        (to_bits-append m n a v h)

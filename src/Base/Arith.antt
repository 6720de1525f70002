-- ===== src/Base/Arith.antt =====
-- Arithmetic that the components share: powers of two, the bit operations as arithmetic, and
-- checks by evaluation over a small range.
use Prim.Native.Nat.{
  ℕ, zero, suc, ◌+◌, ◌*◌, ◌/◌, ◌%◌, ◌^◌, ◌≤◌, ◌<◌, max, bit_or, digits, bit_or-bitwise,
}
use mathlib.Core.Path.{◌≡◌, refl, ap, ◌∙◌}
use mathlib.Core.Bool.{Bool, true, ◌&&◌}
use native.Mathlib.Omega.{arith}
use native.Mathlib.Nat.{
  pow-suc, one-le-pow, mod-lt, mod-eq_of_lt, mul-add-mod_self_left, div-add-mod,
}

pub two_pow_pos : (n : ℕ) → 1 ≤ 2 ^ n
two_pow_pos n = one-le-pow n 2 (omega arith)

pub two_pow-suc : (n : ℕ) → 2 ^ suc n ≡ 2 * 2 ^ n
two_pow-suc n = omega (arith, pow-suc 2 n)

-- The digits of `v` below position n + 1 are digit n and those below n.
mod-double : (v p : ℕ) → 1 ≤ p → v % (2 * p) ≡ v / p % 2 * p + v % p
mod-double v p h =
    ap (λ (t : ℕ). t % (2 * p)) split
    ∙ mul-add-mod_self_left (2 * p) (v / p / 2) (v / p % 2 * p + v % p)
    ∙ mod-eq_of_lt small
  where
    low : v % p < p
    low = mod-lt v (omega arith)

    halves : v / p ≡ 2 * (v / p / 2) + v / p % 2
    halves = omega arith

    split : v ≡ 2 * p * (v / p / 2) + (v / p % 2 * p + v % p)
    split = omega (arith, div-add-mod v p, ap (λ (t : ℕ). p * t) halves)

    bit : v / p % 2 ≤ 1
    bit = omega arith

    small : v / p % 2 * p + v % p < 2 * p
    small = grind arith

pub mod-two_pow-suc : (v n : ℕ) → v % 2 ^ suc n ≡ v / 2 ^ n % 2 * 2 ^ n + v % 2 ^ n
mod-two_pow-suc v n = ap (λ (t : ℕ). v % t) (two_pow-suc n) ∙ mod-double v (2 ^ n) (two_pow_pos n)

-- A test that every number below a bound passes.
unfoldable pub passes_below : (ℕ → Bool) → ℕ → Bool
passes_below test zero = true
passes_below test (suc bound) = passes_below test bound && test bound

pub passes_below_sound :
    (test : ℕ → Bool) (bound i : ℕ) → i < bound → passes_below test bound ≡ true → test i ≡ true
unfolding passes_below
passes_below_sound test zero i below passed = absurd (omega arith)
passes_below_sound test (suc bound) i below passed = ground (arith, passes_below_sound test bound i)

-- `bit_or` digit by digit, from the definition that the native operation stands for.
abbrev or_digits : ℕ → ℕ → ℕ → ℕ
or_digits n a b = digits (λ c. c) max n a b

or_digits_fuel : (n m a b : ℕ) → a ≤ n → a ≤ m → or_digits n a b ≡ or_digits m a b
or_digits_fuel zero zero a b p q = refl
or_digits_fuel zero (suc m) zero b p q = refl
or_digits_fuel zero (suc m) (suc a) b p q = absurd (omega arith)
or_digits_fuel (suc n) zero zero b p q = refl
or_digits_fuel (suc n) zero (suc a) b p q = absurd (omega arith)
or_digits_fuel (suc n) (suc m) zero b p q = refl
or_digits_fuel (suc n) (suc m) (suc a) b p q =
    omega (arith, or_digits_fuel n m (suc a / 2) (b / 2) (omega arith) (omega arith))

pub zero-bit_or : (b : ℕ) → bit_or 0 b ≡ b
zero-bit_or b = bit_or-bitwise 0 b

bit_or_step : (a b : ℕ) → bit_or a b ≡ bit_or (a / 2) (b / 2) * 2 + max (a % 2) (b % 2)
bit_or_step zero b = omega (arith, zero-bit_or b, zero-bit_or (b / 2))
bit_or_step (suc a) b = omega (
  arith,
  bit_or-bitwise (suc a) b,
  bit_or-bitwise (suc a / 2) (b / 2),
  or_digits_fuel a (suc a / 2) (suc a / 2) (b / 2) (omega arith) (omega arith),
)

bit_or-zero_fuel : (n a : ℕ) → a ≤ n → bit_or a 0 ≡ a
bit_or-zero_fuel n zero h = refl
bit_or-zero_fuel zero (suc a) h = absurd (omega arith)
bit_or-zero_fuel (suc n) (suc a) h =
    omega (arith, bit_or_step (suc a) 0, bit_or-zero_fuel n (suc a / 2) (omega arith))

pub bit_or-zero : (a : ℕ) → bit_or a 0 ≡ a
bit_or-zero a = bit_or-zero_fuel a a (omega arith)

-- Where the bits of the two do not overlap, `bit_or` is a sum.
pub bit_or-high : (k a b : ℕ) → a < 2 ^ k → bit_or a (b * 2 ^ k) ≡ a + b * 2 ^ k
bit_or-high zero a b h = let e : a ≡ 0 = omega arith in rw e (zero-bit_or _ ∙ omega arith)
bit_or-high (suc k) a b h = omega (
  arith,
  bit_or_step a (b * 2 ^ suc k),
  two_pow-suc k,
  ap (λ (t : ℕ). b * t) (two_pow-suc k),
  ap (λ (t : ℕ). bit_or (a / 2) t) halved,
  bit_or-high k (a / 2) b (omega (arith, two_pow-suc k)),
)
  where
    halved : b * 2 ^ suc k / 2 ≡ b * 2 ^ k
    halved = omega (arith, ap (λ (t : ℕ). b * t) (two_pow-suc k))

pub bit_or-low : (k a b : ℕ) → b < 2 ^ k → bit_or (a * 2 ^ k) b ≡ a * 2 ^ k + b
bit_or-low zero a b h = let e : b ≡ 0 = omega arith in rw e (bit_or-zero _ ∙ omega arith)
bit_or-low (suc k) a b h = omega (
  arith,
  bit_or_step (a * 2 ^ suc k) b,
  two_pow-suc k,
  ap (λ (t : ℕ). a * t) (two_pow-suc k),
  ap (λ (t : ℕ). bit_or t (b / 2)) halved,
  bit_or-low k a (b / 2) (omega (arith, two_pow-suc k)),
)
  where
    halved : a * 2 ^ suc k / 2 ≡ a * 2 ^ k
    halved = omega (arith, ap (λ (t : ℕ). a * t) (two_pow-suc k))

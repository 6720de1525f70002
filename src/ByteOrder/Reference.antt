-- ===== src/ByteOrder/Reference.antt =====
-- An implementation of the interface: positional numbers to the base 256.
use native.Mathlib.Nat.{pow-suc}
use video.Base.{
  ℕ, ltb, lt→ltb, le→ltb, if◌then◌else◌, ◌-◌, ◌≤◌, zero, suc, ◌+◌, ◌*◌, ◌/◌, ◌%◌, ◌^◌, ◌<◌, ◌≡◌,
  refl, ◌∙◌, ap, arith, List, [], ◌∷◌, ◌++◌, length, length-append, All, All-append,
}
use video.Base.Int.{ℤ, pos, negsuc}
use video.Io.{IsByte}
use video.ByteOrder.{ByteOrder}

abbrev from_be_acc : ℕ → List ℕ → ℕ
from_be_acc acc [] = acc
from_be_acc acc (b ∷ bs) = from_be_acc (acc * 256 + b) bs

abbrev to_be : ℕ → ℕ → List ℕ
to_be zero v = []
to_be (suc n) v = to_be n (v / 256) ++ v % 256 ∷ []

abbrev from_le : List ℕ → ℕ
from_le [] = 0
from_le (b ∷ bs) = b + 256 * from_le bs

abbrev to_le : ℕ → ℕ → List ℕ
to_le zero v = []
to_le (suc n) v = v % 256 ∷ to_le n (v / 256)

pub from_be-snoc :
    (bs : List ℕ) (acc b : ℕ) → from_be_acc acc (bs ++ b ∷ []) ≡ from_be_acc acc bs * 256 + b
from_be-snoc [] acc b = refl
from_be-snoc (x ∷ bs) acc b = from_be-snoc bs (acc * 256 + x) b

pub to_be-bytes : (n v : ℕ) → All IsByte (to_be n v)
to_be-bytes zero v = tt
to_be-bytes (suc n) v =
    All-append IsByte (to_be n (v / 256)) _ (to_be-bytes n (v / 256)) (omega arith)

pub to_le-bytes : (n v : ℕ) → All IsByte (to_le n v)
to_le-bytes zero v = tt
to_le-bytes (suc n) v = (omega arith, to_le-bytes n (v / 256))

pub length-to_be : (n v : ℕ) → length (to_be n v) ≡ n
length-to_be zero v = refl
length-to_be (suc n) v =
    omega (arith, length-to_be n (v / 256), length-append (to_be n (v / 256)) (v % 256 ∷ []))

pub length-to_le : (n v : ℕ) → length (to_le n v) ≡ n
length-to_le zero v = refl
length-to_le (suc n) v = ap suc (length-to_le n (v / 256))

pow-suc_256 : (n : ℕ) → 256 ^ suc n ≡ 256 * 256 ^ n
pow-suc_256 n = omega (arith, pow-suc 256 n)

pub from_be-to_be : (n v : ℕ) → v < 256 ^ n → from_be_acc 0 (to_be n v) ≡ v
from_be-to_be zero v h = omega arith
from_be-to_be (suc n) v h =
    from_be-snoc (to_be n (v / 256)) 0 (v % 256)
    ∙ omega (arith, from_be-to_be n (v / 256) (omega (arith, pow-suc_256 n)))

pub from_le-to_le : (n v : ℕ) → v < 256 ^ n → from_le (to_le n v) ≡ v
from_le-to_le zero v h = omega arith
from_le-to_le (suc n) v h = omega (arith, from_le-to_le n (v / 256) (omega (arith, pow-suc_256 n)))

pub from_be_i24 : List ℕ → ℤ
from_be_i24 bs =
    let n = from_be_acc 0 bs in if ltb n (2 ^ 23) then pos n else negsuc (2 ^ 24 - 1 - n)

pub from_be_i24-pos :
    (bs : List ℕ) → from_be_acc 0 bs < 2 ^ 23 → from_be_i24 bs ≡ pos (from_be_acc 0 bs)
unfolding from_be_i24
from_be_i24-pos bs h = rw (lt→ltb _ _ h)

pub from_be_i24-neg :
    (bs : List ℕ)
    → 2 ^ 23 ≤ from_be_acc 0 bs
    → from_be_i24 bs ≡ negsuc (2 ^ 24 - 1 - from_be_acc 0 bs)
unfolding from_be_i24
from_be_i24-neg bs h = rw (le→ltb _ _ h)

abbrev pub positional : ByteOrder
positional = record {
  from_be = from_be_acc 0;
  to_be = to_be;
  from_le = from_le;
  to_le = to_le;
  from_be_i24 = from_be_i24;
  from_be_i24-pos = from_be_i24-pos;
  from_be_i24-neg = from_be_i24-neg;
  from_be-nil = refl;
  from_be-snoc = λ bs b. from_be-snoc bs 0 b;
  from_le-nil = refl;
  from_le-cons = λ b bs. refl;
  to_be-bytes = to_be-bytes;
  to_le-bytes = to_le-bytes;
  length-to_be = length-to_be;
  length-to_le = length-to_le;
  from_be-to_be = from_be-to_be;
  from_le-to_le = from_le-to_le;
}

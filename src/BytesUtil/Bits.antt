-- ===== src/BytesUtil/Bits.antt =====
-- Bytes and numbers as lists of bits, the highest first: the reference that the bit reader and
-- the bit writer are compared with.
pub mod Prefix
pub mod Fields
use video.Base.{
  ℕ, zero, suc, ◌+◌, ◌*◌, ◌/◌, ◌%◌, ◌^◌, ◌<◌, ◌≡◌, refl, ap, ◌∙◌, sym, arith, Bool, List, [], ◌∷◌,
  ◌++◌, append_assoc, append-nil, ◌==◌, if◌then◌else◌, length,
}
use video.Base.Arith.{mod-two_pow-suc, two_pow-suc}

abbrev pub bit_value : Bool → ℕ
bit_value b = if b then 1 else 0

-- Bit `i` of `v`.
abbrev pub bit_at : ℕ → ℕ → Bool
bit_at v i = v / 2 ^ i % 2 == 1

-- The lowest `n` bits of `v`.
unfoldable pub to_bits : ℕ → ℕ → List Bool
to_bits zero v = []
to_bits (suc n) v = bit_at v n ∷ to_bits n v

-- The number that `bits` stand for, behind the bits of `acc`.
unfoldable pub of_bits : ℕ → List Bool → ℕ
of_bits acc [] = acc
of_bits acc (b ∷ bs) = of_bits (acc * 2 + bit_value b) bs

unfoldable pub bytes_bits : List ℕ → List Bool
unfolding to_bits
bytes_bits [] = []
bytes_bits (b ∷ bs) = to_bits 8 b ++ bytes_bits bs

pub bytes_bits-append : (xs ys : List ℕ) → bytes_bits (xs ++ ys) ≡ bytes_bits xs ++ bytes_bits ys
unfolding bytes_bits
bytes_bits-append [] ys = refl
bytes_bits-append (x ∷ xs) ys =
    ap (λ t. to_bits 8 x ++ t) (bytes_bits-append xs ys)
    ∙ sym (append_assoc (to_bits 8 x) (bytes_bits xs) (bytes_bits ys))

pub bytes_bits-one : (b : ℕ) → bytes_bits (b ∷ []) ≡ to_bits 8 b
unfolding bytes_bits
bytes_bits-one b = append-nil (to_bits 8 b)

pub to_bits-zero : (v : ℕ) → to_bits 0 v ≡ []
unfolding to_bits
to_bits-zero v = refl

pub length-to_bits : (n v : ℕ) → length (to_bits n v) ≡ n
unfolding to_bits
length-to_bits zero v = refl
length-to_bits (suc n) v = ap suc (length-to_bits n v)

pub length-bytes_bits : (bs : List ℕ) → length (bytes_bits bs) ≡ 8 * length bs
unfolding bytes_bits
length-bytes_bits [] = refl
length-bytes_bits (b ∷ bs) = omega (arith, length-bytes_bits bs)

bit_value-bit_at : (v i : ℕ) → bit_value (bit_at v i) ≡ v / 2 ^ i % 2
bit_value-bit_at v i = ground arith

-- Reading back the lowest `n` bits of `v` gives `v` modulo 2 ^ n.
pub of_bits-to_bits : (n acc v : ℕ) → of_bits acc (to_bits n v) ≡ acc * 2 ^ n + v % 2 ^ n
unfolding of_bits to_bits
of_bits-to_bits zero acc v = omega arith
of_bits-to_bits (suc n) acc v = omega (
  arith,
  of_bits-to_bits n (acc * 2 + bit_value (bit_at v n)) v,
  ap (λ (t : ℕ). t * 2 ^ n) (bit_value-bit_at v n),
  mod-two_pow-suc v n,
  ap (λ (t : ℕ). acc * t) (two_pow-suc n),
)

pub of_bits-append :
    (xs ys : List Bool) (acc : ℕ) → of_bits acc (xs ++ ys) ≡ of_bits (of_bits acc xs) ys
unfolding of_bits
of_bits-append [] ys acc = refl
of_bits-append (x ∷ xs) ys acc = of_bits-append xs ys (acc * 2 + bit_value x)

-- `n` bits stand for a number below 2 ^ n.
pub of_bits-lt : (bs : List Bool) (acc m : ℕ) → acc < m → of_bits acc bs < m * 2 ^ length bs
unfolding of_bits
of_bits-lt [] acc m h = omega arith
of_bits-lt (b ∷ bs) acc m h = omega (
  arith,
  of_bits-lt bs (acc * 2 + bit_value b) (m * 2) (ground arith),
  ap (λ (t : ℕ). m * t) (two_pow-suc (length bs)),
)

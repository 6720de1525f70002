-- ===== src/BytesUtil/Bits/Prefix.antt =====
-- Bytes from their bits: the bits at the front of a list of bytes are those of the bytes at its front.
use video.Base.{
  ℕ, ◌≡◌, refl, ap, ◌∙◌, sym, arith, Bool, List, [], ◌∷◌, ◌++◌, append_assoc, append-nil, length,
  take, drop, All, take-append_length, drop-append_length, length-append,
}
use video.Io.{IsByte}
use video.BytesUtil.Bits.{
  to_bits, of_bits, bytes_bits, length-to_bits, length-bytes_bits, of_bits-to_bits,
}

-- The first bits, and those behind them.
append-parts :
    (xs ys us vs : List Bool) → length xs ≡ length ys → xs ++ us ≡ ys ++ vs → (xs ≡ ys) × (us ≡ vs)
append-parts xs ys us vs same e = (
  sym (take-append_length xs us)
      ∙ ap (λ t. take (length xs) t) e
      ∙ ap (λ n. take n (ys ++ vs)) same
      ∙ take-append_length ys vs,
  sym (drop-append_length xs us)
      ∙ ap (λ t. drop (length xs) t) e
      ∙ ap (λ n. drop n (ys ++ vs)) same
      ∙ drop-append_length ys vs,
)

byte-to_bits : (a b : ℕ) → IsByte a → IsByte b → to_bits 8 a ≡ to_bits 8 b → a ≡ b
byte-to_bits a b ha hb e =
    omega (arith, of_bits-to_bits 8 0 a, of_bits-to_bits 8 0 b, ap (λ t. of_bits 0 t) e)

pub bytes_bits-prefix :
    (bs xs : List ℕ) (rest : List Bool)
    → All IsByte bs
    → All IsByte xs
    → bytes_bits xs ≡ bytes_bits bs ++ rest
    → (ys : List ℕ) × (xs ≡ bs ++ ys) × (bytes_bits ys ≡ rest)
unfolding bytes_bits
bytes_bits-prefix [] xs rest hb hx e = (xs, refl, e)
bytes_bits-prefix (b ∷ bs) [] rest hb hx e = absurd (
    omega (
      arith,
      ap length e,
      length-append (to_bits 8 b ++ bytes_bits bs) rest,
      length-append (to_bits 8 b) (bytes_bits bs),
      length-to_bits 8 b,
    ))
bytes_bits-prefix (b ∷ bs) (x ∷ xs) rest (hb, hbs) (hx, hxs) e =
    let (first, others) =
      append-parts (to_bits 8 x) (to_bits 8 b) (bytes_bits xs) (bytes_bits bs ++ rest)
        (length-to_bits 8 x ∙ sym (length-to_bits 8 b))
        (e ∙ append_assoc (to_bits 8 b) (bytes_bits bs) rest) in
    let (ys, same, behind) = bytes_bits-prefix bs xs rest hbs hxs others in
    (ys, ap (λ t. t ∷ xs) (byte-to_bits x b hx hb first) ∙ ap (λ t. b ∷ t) same, behind)

-- Bytes are determined by their bits.
pub bytes_bits-injective :
    (xs ys : List ℕ) → All IsByte xs → All IsByte ys → bytes_bits xs ≡ bytes_bits ys → xs ≡ ys
bytes_bits-injective xs ys hx hy e =
    let (more, same, none) =
      bytes_bits-prefix ys xs [] hy hx (e ∙ sym (append-nil (bytes_bits ys))) in
    same ∙ ap (λ t. ys ++ t) (empty more none) ∙ append-nil ys
  where
    empty : (zs : List ℕ) → bytes_bits zs ≡ [] → zs ≡ []
    empty [] e = refl
    empty (z ∷ zs) e = absurd (omega (arith, ap length e, length-bytes_bits (z ∷ zs)))

-- ===== src/BytesUtil/Parser/Reads.antt =====
-- What a parser makes of the bits in front of it.
use video.Base.{
  ℕ, zero, suc, ◌^◌, ◌≤◌, ◌<◌, min, ◌≡◌, ◌≢◌, refl, sym, ap, ◌∙◌, arith, Bool, true, inl, inr, List,
  [], ◌∷◌, ◌++◌, append_assoc, append-nil, ok, length, drop, All, Bool-cases, Returns, value,
  failed, Settles->>=, Settles-ok, Settles-mono, subst,
}
use video.Io.{IsByte, remaining, read_one_some, read_one_none}
use video.BytesUtil.Bits.{to_bits, bytes_bits}
use video.BytesUtil.BitReader.{
  BitReader, is_aligned, read_bit, read_bits, read_bits_loop, new_from_slice,
}
use video.BytesUtil.BitReader.View.{view, IsValid, read_bit-cons, view-new_from_slice}
use video.BytesUtil.RoundTrip.{read_field-view}
use video.BytesUtil.Parser.{Parser, ◌>>=◌, pure, repeat}

-- The current byte is the one in front of the cursor.
pub record IsCurrent (r : BitReader) : Type 0 where
  pub before : ℕ
  pub behind : r.source.position ≡ suc before
  pub byte : drop before r.source.inner ≡ r.current_byte ∷ remaining r.source

-- A reader of bytes, in front of the given bits.
pub record At (r : BitReader) (bits : List Bool) : Type 0 where
  pub valid : IsValid r
  pub seen : view r ≡ bits
  pub current : r.bit_pos ≢ 0 → IsCurrent r
  pub bytes : All IsByte r.source.inner

-- Of the state that a read leaves.
abbrev Same : BitReader → BitReader → Type 0
Same r r' = (r'.bit_pos ≢ 0 → IsCurrent r') × (r'.source.inner ≡ r.source.inner)

read_bit-fresh :
    (r : BitReader) (t : List ℕ)
    → is_aligned r ≡ true
    → remaining r.source ≡ t
    → Returns (λ (b, r'). Same r r') (read_bit r)
unfolding read_bit
read_bit-fresh r [] a e = rw a (rw (read_one_none r.source e) failed)
read_bit-fresh r (x ∷ xs) a e =
    let (one, rest) = read_one_some r.source x xs e in
    rw a (
      rw one (
        value (
          (λ _. record {
            before = r.source.position;
            behind = omega arith;
            byte = e ∙ ap (λ t. x ∷ t) (sym rest);
          }),
          refl,
        )))

read_bit-Same :
    (r : BitReader) → (r.bit_pos ≢ 0 → IsCurrent r) → Returns (λ (b, r'). Same r r') (read_bit r)
unfolding read_bit
read_bit-Same r c = elim (Bool-cases (is_aligned r)) [
  | inl a ↦ read_bit-fresh r (remaining r.source) a refl
  | inr a ↦
      let off : r.bit_pos ≢ 0 = ground arith in
      let i : IsCurrent r = c off in
      rw a (value ((λ _. record { before = i.before; behind = i.behind; byte = i.byte }), refl))
]

read_bits_loop-Same :
    (n acc : ℕ) (r : BitReader)
    → (r.bit_pos ≢ 0 → IsCurrent r)
    → Returns (λ (v, r'). Same r r') (read_bits_loop n acc r)
unfolding read_bits_loop
read_bits_loop-Same zero acc r c = value (c, refl)
read_bits_loop-Same (suc n) acc r c = Settles->>= (read_bit-Same r c) λ (b, r₁) (c₁, e₁).
    Settles-mono (read_bits_loop-Same n _ r₁ c₁) (λ (v, r₂) (c₂, e₂). (c₂, e₂ ∙ e₁))

-- A parser that reads these bits, and no more, as this value.
pub record Reads {A : Type 0} (p : Parser A) (a : A) (bits : List Bool) : Type 0 where
  pub run :
      (r : BitReader) (rest : List Bool)
      → At r (bits ++ rest)
      → (r' : BitReader) × (p r ≡ ok (a, r')) × At r' rest

At-Same :
    (r r' : BitReader) (rest xs : List Bool)
    → At r xs
    → Same r r'
    → IsValid r'
    → view r' ≡ rest
    → At r' rest
At-Same r r' rest xs at (c, e) v s = record {
  valid = v;
  seen = s;
  current = c;
  bytes = subst (λ t. All IsByte t) (sym e) at.bytes;
}

pub Reads-read_bit : (b : Bool) → Reads read_bit b (b ∷ [])
Reads-read_bit b = record {
  run = λ r rest at.
      let (r', step, seen, v) = read_bit-cons r b rest at.valid at.seen in
      (r', step, At-Same r r' rest _ at (Settles-ok (read_bit-Same r at.current) step) v seen);
}

pub Reads-read_bits : (n v : ℕ) → n ≤ 64 → v < 2 ^ n → Reads (read_bits n) v (to_bits n v)
unfolding read_bits
Reads-read_bits n v le lt = record {
  run = λ r rest at.
      let (r', step, seen, v') = read_field-view n v rest r le lt at.valid at.seen in
      (
        r',
        step,
        At-Same r r' rest _ at (Settles-ok (read_bits_loop-Same (min n 64) 0 r at.current) step) v'
            seen,
      );
}

module _ {A B : Type 0} where
  pub Reads->>= :
      {p : Parser A} (f : A → Parser B) {a : A} {b : B} {xs ys : List Bool}
      → Reads p a xs
      → Reads (f a) b ys
      → Reads (p >>= f) b (xs ++ ys)
  unfolding ◌>>=◌
  Reads->>= f {xs} {ys} h k = record {
    run = λ r rest at.
        let (r₁, step, at₁) =
          h.run r (ys ++ rest) (subst (λ t. At r t) (append_assoc xs ys rest) at) in
        let (r₂, steps, at₂) = k.run r₁ rest at₁ in (r₂, rw step steps, at₂);
  }

pub Reads-pure : {A : Type 0} (a : A) → Reads (pure a) a []
unfolding pure
Reads-pure a = record { run = λ r rest at. (r, refl, at) }

pub Reads-map :
    {A B : Type 0} {p : Parser A} (f : A → B) {a : A} {xs : List Bool}
    → Reads p a xs
    → Reads (p >>= λ x. pure (f x)) (f a) xs
Reads-map {p} f {a} {xs} h =
    subst (λ t. Reads (p >>= λ x. pure (f x)) (f a) t) (append-nil xs)
      (Reads->>= _ h (Reads-pure (f a)))

-- The bits of one value after the other.
unfoldable pub all_bits : {A : Type 0} → (A → List Bool) → List A → List Bool
all_bits bits [] = []
all_bits bits (x ∷ xs) = bits x ++ all_bits bits xs

pub Reads-repeat :
    {A : Type 0} (p : Parser A) (bits : A → List Bool) (xs : List A)
    → All (λ x. Reads p x (bits x)) xs
    → Reads (repeat (length xs) p) xs (all_bits bits xs)
unfolding repeat all_bits
Reads-repeat p bits [] hs = Reads-pure []
Reads-repeat p bits (x ∷ xs) (h, hs) = Reads->>= _ h (Reads-map _ (Reads-repeat p bits xs hs))

-- A reader of bytes stands in front of their bits.
pub new_from_slice-At :
    (data_bytes : List ℕ)
    → All IsByte data_bytes
    → At (new_from_slice data_bytes) (bytes_bits data_bytes)
unfolding new_from_slice
new_from_slice-At data_bytes h = record {
  valid = omega arith;
  seen = view-new_from_slice data_bytes;
  current = λ off. absurd (off refl);
  bytes = h;
}

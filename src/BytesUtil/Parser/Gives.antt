-- ===== src/BytesUtil/Parser/Gives.antt =====
-- What a parser gives on any input: it ends, and a value that it returns has a property.
use native.Mathlib.Decide.{dec_lt}
use video.Base.{
  ℕ, zero, suc, ◌^◌, ◌≤◌, ◌<◌, ◌≡◌, refl, ap, ◌∙◌, sym, arith, Bool, true, false, List, [], ◌∷◌,
  Option, none, some, ok, if◌then◌else◌, length, take, drop, take-append-drop, length-take, All,
  Returns, value, failed, panicked, Settles-mono, Settles->>=, subst, ltb,
}
use video.Io.{Io, IoError, unexpected_eof}
use video.ByteOrder.{ByteOrder}
use video.BytesUtil.Bits.{of_bits, of_bits-lt}
use video.BytesUtil.BitReader.{
  BitReader, read_bit, read_bits, read, read_byte_loop, read_bytes_loop, is_aligned,
}
use video.BytesUtil.BitReader.View.{
  view, IsValid, ReadsBit, read_bit-view, read_bits-view, read_bits-short,
}
use video.BytesUtil.Parser.{
  Parser, after, ◌>>=◌, pure, fail, optional, ensure, repeat, read_exact, read_be, read_le, read_u8,
  byte_of,
}

pub record Gives {A : Type 0} (p : Parser A) (P : A → Type 0) : Type 0 where
  pub run : (r : BitReader) → IsValid r → Returns (λ (a, r'). P a × IsValid r') (p r)

module _ {A B : Type 0} where
  pub Gives->>= :
      {p : Parser A} {f : A → Parser B} {P : A → Type 0} {Q : B → Type 0}
      → Gives p P
      → ((a : A) → P a → Gives (f a) Q)
      → Gives (p >>= f) Q
  unfolding ◌>>=◌
  Gives->>= {p} {f} {P} {Q} h k = record { run = λ r v. chain (p r) (h.run r v) }
    where
      chain :
          (o : Io (A × BitReader))
          → Returns (λ (a, r'). P a × IsValid r') o
          → Returns (λ (b, r'). Q b × IsValid r') (after o f)
      chain (ok (a, r')) (value (ha, v')) = (k a ha).run r' v'
      chain _ failed = failed
      chain _ (panicked c) = elim c [ ]

module _ {A : Type 0} {P : A → Type 0} where
  pub Gives-pure : (a : A) → P a → Gives (pure a) P
  unfolding pure
  Gives-pure a h = record { run = λ r v. value (h, v) }

  pub Gives-fail : (e : IoError) → Gives (fail e) P
  unfolding fail
  Gives-fail e = record { run = λ r v. failed }

  pub Gives-if :
      (b : Bool) {p q : Parser A}
      → ((b ≡ true) → Gives p P)
      → ((b ≡ false) → Gives q P)
      → Gives (if b then p else q) P
  Gives-if true h k = h refl
  Gives-if false h k = k refl

  pub Gives-mono : {p : Parser A} {Q : A → Type 0} → Gives p P → ((a : A) → P a → Q a) → Gives p Q
  Gives-mono h k = record {
    run = λ r v. Settles-mono (h.run r v) (λ (a, r') (ha, v'). (k a ha, v'));
  }

-- Of the value, where there is one.
abbrev pub Inside : {A : Type 0} → (A → Type 0) → Option A → Type 0
Inside P none = Unit
Inside P (some a) = P a

pub Gives-optional :
    {A : Type 0} {P : A → Type 0} (b : Bool) {p : Parser A}
    → Gives p P
    → Gives (optional b p) (Inside P)
Gives-optional true h = Gives->>= h (λ a ha. Gives-pure (some a) ha)
Gives-optional false h = Gives-pure none tt

pub Gives-ensure : (b : Bool) (e : IoError) → Gives (ensure b e) (λ _. b ≡ true)
Gives-ensure true e = Gives-pure tt refl
Gives-ensure false e = Gives-fail e

pub Gives-repeat :
    {A : Type 0} {P : A → Type 0} (n : ℕ) {p : Parser A}
    → Gives p P
    → Gives (repeat n p) (λ xs. (length xs ≡ n) × All P xs)
unfolding repeat
Gives-repeat zero h = Gives-pure [] (refl, tt)
Gives-repeat (suc n) h =
    Gives->>= h
      λ x hx. Gives->>= (Gives-repeat n h) λ xs (e, hs). Gives-pure (x ∷ xs) (ap suc e, (hx, hs))

pub Gives-read_bit : Gives read_bit (λ _. Unit)
Gives-read_bit = record { run = λ r v. found r (view r) (read_bit-view r v) }
  where
    found :
        (r : BitReader) (bs : List Bool)
        → ReadsBit bs r
        → Returns (λ (b, r'). Unit {0} × IsValid r') (read_bit r)
    found r [] e = rw e failed
    found r (b ∷ bs) (r', e, seen, v) = rw e (value (tt, v))

pub Gives-read_bits : (n : ℕ) → n ≤ 64 → Gives (read_bits n) (λ v. v < 2 ^ n)
Gives-read_bits n le = record { run = λ r v. found r v }
  where
    found :
        (r : BitReader) → IsValid r → Returns (λ (b, r'). (b < 2 ^ n) × IsValid r') (read_bits n r)
    found r v = elim (dec_lt (length (view r)) n) [
      | yes short ↦ rw (read_bits-short n r v (omega arith)) failed
      | no enough ↦
          let size : length (take n (view r)) ≡ n = omega (arith, length-take n (view r)) in
          let (r', e, seen, v') =
            read_bits-view (take n (view r)) (drop n (view r)) r v
              (sym (take-append-drop n (view r))) (omega arith) in
          rw (ap (λ k. read_bits k r) (sym size) ∙ e) (
            value (
              subst (λ k. of_bits 0 (take n (view r)) < 2 ^ k) size
                  (omega (arith, of_bits-lt (take n (view r)) 0 1 (omega arith))),
              v',
            ))
    ]

abbrev pub Any : {A : Type 0} → A → Type 0
Any a = Unit {0}

read_byte_loop-Gives : (n byte : ℕ) → Gives (read_byte_loop n byte) Any
unfolding read_byte_loop
read_byte_loop-Gives zero byte = record { run = λ r v. value (tt, v) }
read_byte_loop-Gives (suc n) byte = record {
  run = λ r v.
      Settles->>= (Gives-read_bit.run r v)
        λ (bit, r') (_, v'). (read_byte_loop-Gives n _).run r' v';
}

read_bytes_loop-Gives : (n : ℕ) → Gives (read_bytes_loop n) Any
unfolding read_bytes_loop
read_bytes_loop-Gives zero = record { run = λ r v. value (tt, v) }
read_bytes_loop-Gives (suc n) = record {
  run = λ r v. Settles->>= ((read_byte_loop-Gives 8 0).run r v) λ (byte, r') (_, v').
      Settles->>= ((read_bytes_loop-Gives n).run r' v') λ (bytes, r'') (_, v''). value (tt, v'');
}

read-Gives : (n : ℕ) → Gives (read n) Any
unfolding read
read-Gives n = record { run = λ r v. at_byte r v (is_aligned r) refl }
  where
    at_byte :
        (r : BitReader)
        → IsValid r
        → (b : Bool) → is_aligned r ≡ b
        → Returns (λ (a, r'). Any a × IsValid r') (read n r)
    at_byte r v true e = rw (e, read) (value (tt, v))
    at_byte r v false e = rw (e, read) ((read_bytes_loop-Gives n).run r v)

pub Gives-read_exact : (n : ℕ) → Gives (read_exact n) (λ bytes. n ≤ length bytes)
unfolding read_exact
Gives-read_exact n = Gives->>= (read-Gives n) λ bytes _.
    Gives-if (ltb (length bytes) n) (λ e. Gives-fail unexpected_eof)
      (λ e. Gives-pure bytes (ground arith))

pub Gives-read_be : (bo : ByteOrder) (n : ℕ) → Gives (read_be bo n) Any
unfolding read_be
Gives-read_be bo n = Gives->>= (Gives-read_exact n) (λ bytes h. Gives-pure (bo.from_be bytes) tt)

pub Gives-read_u8 : Gives read_u8 Any
unfolding read_u8
Gives-read_u8 = Gives->>= (Gives-read_exact 1) (λ bytes h. Gives-pure (byte_of bytes) tt)

pub Gives-read_le : (bo : ByteOrder) (n : ℕ) → Gives (read_le bo n) Any
unfolding read_le
Gives-read_le bo n = Gives->>= (Gives-read_exact n) (λ bytes h. Gives-pure (bo.from_le bytes) tt)

-- ===== src/Io.antt =====
-- What the crates use of Rust's `std::io`: error kinds, and a `Cursor` over bytes in memory.
use native.Mathlib.Numerals.{add-one}
use native.Mathlib.Decide.{dec_lt}
use video.Base.{
  ℕ, zero, suc, ◌+◌, ◌<◌, ◌≡◌, refl, List, [], ◌∷◌, Result, ok, err, ltb, lt→ltb, le→ltb, Settles,
  Returns, value, failed, length-take, length-drop, length-append, if◌then◌else◌, length, take,
  ◌++◌, arith, take-append_length, drop-append_length, drop, arith,
}

-- `io::ErrorKind`, as far as the crates build or meet it.
pub data IoError : Type 0 where
  unexpected_eof invalid_data invalid_input : IoError

abbrev pub Io {ℓ} : Type ℓ → Type ℓ
Io A = Result IoError A

abbrev pub IsByte : ℕ → Type 0
IsByte b = b < 256

-- `io::Cursor<B: AsRef<[u8]>>`. The position may lie behind the end.
pub record Cursor : Type 0 where
  pub inner : List ℕ
  pub position : ℕ

abbrev pub remaining : Cursor → List ℕ
remaining c = drop c.position c.inner

-- `read_exact` into a buffer of one byte.
unfoldable pub read_one : Cursor → Io (ℕ × Cursor)
read_one c = elim (remaining c) [
  | [] ↦ err unexpected_eof
  | b ∷ _ ↦ ok (b, record c { position = c.position + 1 })
]

-- `read_exact` into a buffer of `n` bytes, where a reader is the list of the bytes that it has
-- not read.
unfoldable pub read_exact : ℕ → List ℕ → Io (List ℕ × List ℕ)
read_exact n bs = if ltb (length bs) n then err unexpected_eof else ok (take n bs, drop n bs)

-- byteorder's `read_u8`: the byte of a buffer of one.
unfoldable pub read_u8 : List ℕ → Io (ℕ × List ℕ)
read_u8 [] = err unexpected_eof
read_u8 (b ∷ bs) = ok (b, bs)

pub read_exact-append :
    (n : ℕ) (xs rest : List ℕ) → length xs ≡ n → read_exact n (xs ++ rest) ≡ ok (xs, rest)
unfolding read_exact
read_exact-append n xs rest e =
    rw (← e, le→ltb (length (xs ++ rest)) (length xs) (omega (arith, length-append xs rest)))
      (rw (take-append_length xs rest, drop-append_length xs rest))

pub read_exact-short : (n : ℕ) (bs : List ℕ) → length bs < n → read_exact n bs ≡ err unexpected_eof
unfolding read_exact
read_exact-short n bs h = rw (lt→ltb _ _ h)

drop-suc {ℓ} :
    {A : Type ℓ} (n : ℕ) (xs : List A) {b : A} {rest : List A}
    → drop n xs ≡ b ∷ rest
    → drop (suc n) xs ≡ rest
drop-suc zero [] e = cc
drop-suc zero (x ∷ xs) e = cc
drop-suc (suc n) [] e = cc
drop-suc (suc n) (x ∷ xs) e = drop-suc n xs e

-- One byte is read where there is one, and the rest remains.
pub read_one_some :
    (c : Cursor) (b : ℕ) (rest : List ℕ)
    → remaining c ≡ b ∷ rest
    → (read_one c ≡ ok (b, record c { position = c.position + 1 }))
      × (remaining (record c { position = c.position + 1 }) ≡ rest)
unfolding read_one
read_one_some c b rest e = (rw (e, read_one), rw add-one (drop-suc c.position c.inner e))

pub read_one_none : (c : Cursor) → remaining c ≡ [] → read_one c ≡ err unexpected_eof
unfolding read_one
read_one_none c e = rw (e, read_one)

pub read_one-Returns : (c : Cursor) → Returns (λ _. Unit {0}) (read_one c)
read_one-Returns c = found (remaining c) refl
  where
    found : (bs : List ℕ) → remaining c ≡ bs → Returns (λ _. Unit {0}) (read_one c)
    found [] e = rw (read_one_none c e) failed
    found (b ∷ bs) e = rw ((read_one_some c b bs e).0) (value tt)

-- A reader gives up what it reads.
pub read_exact-Settles :
    {C : Type 0} (n : ℕ) (bs : List ℕ)
    → Settles C (λ (buf, rest). (length buf ≡ n) × (length rest + n ≡ length bs)) (read_exact n bs)
unfolding read_exact
read_exact-Settles n bs = elim (dec_lt (length bs) n) [
  | yes short ↦ rw (lt→ltb _ _ short) failed
  | no enough ↦
      rw (le→ltb (length bs) n (omega arith))
        (value (omega (arith, length-take n bs), omega (arith, length-drop n bs)))
]

pub read_u8-Settles :
    {C : Type 0} (bs : List ℕ) → Settles C (λ (b, rest). length rest + 1 ≡ length bs) (read_u8 bs)
unfolding read_u8
read_u8-Settles [] = failed
read_u8-Settles (b ∷ bs) = value (omega arith)

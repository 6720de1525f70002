-- ===== src/BytesUtil/BytesCursor/Front.antt =====
-- `extract_bytes` in front of bytes: what it gives, and that it ends.
use mathlib.Core.Path.{ap₂}
use video.Base.{
  ℕ, ◌+◌, ◌-◌, ◌≤◌, ◌≡◌, refl, ap, ◌∙◌, arith, false, List, [], ◌∷◌, ◌++◌, ok, ◌==◌, ltb, le→ltb,
  length, length-append, length-drop, drop, take-append_length, drop-append_length, Bool-cases, inl,
  inr, Settles, Returns, value, failed,
}
use video.Io.{Io, Cursor}
use video.BytesUtil.BytesCursor.{extract_bytes, extract}

-- A read that ends.
abbrev pub Ends : {A : Type 0} → Io A → Type 0
Ends o = Returns (λ _. Unit {0}) o

pub extract_bytes-Ends : (size : ℕ) (c : Cursor) → Ends (extract_bytes size c)
unfolding extract_bytes
extract_bytes-Ends size c = elim (Bool-cases (size == 0)) [
  | inl e ↦ rw e (value tt)
  | inr e ↦ rw e (elim (Bool-cases (ltb (length c.inner - c.position) size)) [
    | inl e' ↦ rw e' failed
    | inr e' ↦ rw e' (value tt)
  ])
]

-- The bytes are so many as were asked for.
pub extract-Settles :
    {C : Type 0} (data_size : ℕ) (bs : List ℕ)
    → Settles C (λ (bytes, rest). length rest + data_size ≡ length bs) (extract data_size bs)
unfolding extract extract_bytes
extract-Settles data_size bs = elim (Bool-cases (data_size == 0)) [
  | inl e ↦ rw e (value (ground (arith, e)))
  | inr e ↦ rw e (elim (Bool-cases (ltb (length bs - 0) data_size)) [
    | inl short ↦ rw short failed
    | inr enough ↦ rw enough (
        value (
          let h : data_size ≤ length bs = ground (arith, enough) in
          omega (arith, h, length-drop (0 + data_size) bs)))
  ])
]

pub extract-append : (set rest : List ℕ) → extract (length set) (set ++ rest) ≡ ok (set, rest)
unfolding extract
extract-append [] rest = refl
extract-append (b ∷ set) rest = rw some_left (
    rw enough (
      ap₂ (λ xs ys. ok (xs, ys)) (take-append_length (b ∷ set) rest)
        (ap (λ n. drop n (b ∷ set ++ rest)) whole ∙ drop-append_length (b ∷ set) rest)))
  where
    some_left : (length (b ∷ set) == 0) ≡ false
    some_left = ground arith

    whole : 0 + length (b ∷ set) ≡ length (b ∷ set)
    whole = omega arith

    enough : ltb (length (b ∷ set ++ rest) - 0) (length (b ∷ set)) ≡ false
    enough = le→ltb _ _ (omega (arith, length-append set rest))

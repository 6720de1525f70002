-- ===== src/Utf8.antt =====
-- `std::str::from_utf8`: which byte strings are UTF-8.
use video.Base.{
  ℕ, zero, suc, Bool, true, false, ◌&&◌, List, [], ◌∷◌, Option, none, some, ltb, leb, ◌==◌,
  if◌then◌else◌,
}

-- What may follow a first byte: so many continuation bytes, the first of them in a range.
pub record Tail : Type 0 where
  pub more : ℕ
  pub low : ℕ
  pub high : ℕ

abbrev tail : ℕ → ℕ → ℕ → Option Tail
tail more low high = some (record { more = more; low = low; high = high })

-- The table of well-formed byte sequences; overlong forms and surrogates are left out of it.
unfoldable pub lead : ℕ → Option Tail
lead b =
    if ltb b 0x80
    then tail 0 0 0
    else if ltb b 0xc2
    then none
    else if ltb b 0xe0
    then tail 1 0x80 0xbf
    else if b == 0xe0
    then tail 2 0xa0 0xbf
    else if b == 0xed
    then tail 2 0x80 0x9f
    else if ltb b 0xf0
    then tail 2 0x80 0xbf
    else if b == 0xf0
    then tail 3 0x90 0xbf
    else if ltb b 0xf4
    then tail 3 0x80 0xbf
    else if b == 0xf4
    then tail 3 0x80 0x8f
    else none

unfoldable pub continues : ℕ → ℕ → ℕ → List ℕ → Bool
unfolding lead
continues zero low high [] = true
continues (suc n) low high [] = false
continues zero low high (b ∷ bs) = elim (lead b) [
  | none ↦ false
  | some t ↦ continues t.more t.low t.high bs
]
continues (suc n) low high (b ∷ bs) = leb low b && leb b high && continues n 0x80 0xbf bs

unfoldable pub valid_utf8 : List ℕ → Bool
unfolding continues
valid_utf8 bs = continues 0 0 0 bs

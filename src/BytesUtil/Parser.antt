-- ===== src/BytesUtil/Parser.antt =====
-- Functions that read from a `&mut BitReader`, in the order of their statements.
pub mod Reads
pub mod Gives
pub mod Skips
pub mod Takes
pub mod Exact
use video.Base.{
  ℕ, zero, suc, ◌+◌, ◌-◌, Bool, true, false, List, [], ◌∷◌, Option, none, some, Result, ok, err,
  panic, stuck, ltb, if◌then◌else◌, length,
}
use video.Io.{Io, IoError, unexpected_eof}
use video.ByteOrder.{ByteOrder}
use video.Base.Int.{pos}
use video.BytesUtil.BitReader.{BitReader, read}
use video.BytesUtil.BitReader.Seek.{seek_bits}
use video.BytesUtil.BytesCursor.{extract_remaining}

abbrev pub Parser : Type 0 → Type 0
Parser A = BitReader → Io (A × BitReader)

-- `?`, and what follows.
abbrev pub after : {A B : Type 0} → Io (A × BitReader) → (A → Parser B) → Io (B × BitReader)
after (ok (a, r)) f = f a r
after (err e) f = err e
after panic f = panic
after stuck f = stuck

infixl 5 ◌>>=◌ ◌>>◌
unfoldable pub ◌>>=◌ : {A B : Type 0} → Parser A → (A → Parser B) → Parser B
(p >>= f) r = after (p r) f

abbrev pub ◌>>◌ : {A B : Type 0} → Parser A → Parser B → Parser B
p >> q = p >>= λ _. q

unfoldable pub pure : {A : Type 0} → A → Parser A
pure a r = ok (a, r)

unfoldable pub fail : {A : Type 0} → IoError → Parser A
fail e r = err e

-- `if !test { return Err(e); }`
abbrev pub ensure : Bool → IoError → Parser (Unit {0})
ensure test e = if test then pure tt else fail e

-- `if test { Some(p?) } else { None }`
abbrev pub optional : {A : Type 0} → Bool → Parser A → Parser (Option A)
optional test p = if test then (p >>= λ a. pure (some a)) else pure none

-- `for _ in 0..n { v.push(p?); }`
unfoldable pub repeat : {A : Type 0} → ℕ → Parser A → Parser (List A)
repeat zero p = pure []
repeat (suc n) p = p >>= λ x. repeat n p >>= λ xs. pure (x ∷ xs)

-- `Read::read_exact` of a buffer of `n` bytes: a reader in memory that gives fewer is at its end.
unfoldable pub read_exact : ℕ → Parser (List ℕ)
read_exact n = read n >>= λ bytes. if ltb (length bytes) n then fail unexpected_eof else pure bytes

-- `ReadBytesExt`
module _ (bo : ByteOrder) where
  unfoldable pub read_be : ℕ → Parser ℕ
  read_be n = read_exact n >>= λ bytes. pure (bo.from_be bytes)

  unfoldable pub read_le : ℕ → Parser ℕ
  read_le n = read_exact n >>= λ bytes. pure (bo.from_le bytes)

-- `read_u8`
unfoldable pub byte_of : List ℕ → ℕ
byte_of [] = 0
byte_of (b ∷ _) = b

unfoldable pub read_u8 : Parser ℕ
read_u8 = read_exact 1 >>= λ bytes. pure (byte_of bytes)

-- `seek_bits(n)?;`
unfoldable pub skip : ℕ → Parser (Unit {0})
skip n = seek_bits (pos n) >>= λ _. pure tt

-- `into_inner`, and `extract_remaining` of the cursor.
unfoldable pub take_rest : Parser (List ℕ)
take_rest r = let (bytes, c) = extract_remaining r.source in ok (bytes, record r { source = c })

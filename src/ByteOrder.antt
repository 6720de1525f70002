-- ===== src/ByteOrder.antt =====
-- The crate `byteorder`, which the repository does not hold: what its readers and writers of
-- integers do with the bytes of a buffer, as an interface.
pub mod Laws
pub mod Reference
use video.Base.{
  ℕ, zero, suc, ◌+◌, ◌*◌, ◌-◌, ◌^◌, ◌≤◌, ◌<◌, ◌≡◌, List, [], ◌∷◌, ◌++◌, length, All, ok, ◌>>=◌,
}
use video.Base.Int.{ℤ, pos, negsuc}
use video.Io.{Io, IsByte, read_exact}

-- `from_be bytes` is what `BigEndian::read_u16`, `read_u24`, `read_u32` or `read_u64` makes of a
-- buffer of so many bytes, and `to_be n v` the `n` bytes that the writer of that width fills in;
-- `from_le` and `to_le` are those of `LittleEndian`.
pub record ByteOrder : Type 0 where
  pub from_be : List ℕ → ℕ
  pub to_be : ℕ → ℕ → List ℕ
  pub from_le : List ℕ → ℕ
  pub to_le : ℕ → ℕ → List ℕ
  -- What `BigEndian::read_i24` makes of three bytes: they stand for a number in two's complement.
  pub from_be_i24 : List ℕ → ℤ
  pub from_be_i24-pos : (bs : List ℕ) → from_be bs < 2 ^ 23 → from_be_i24 bs ≡ pos (from_be bs)
  pub from_be_i24-neg :
      (bs : List ℕ) → 2 ^ 23 ≤ from_be bs → from_be_i24 bs ≡ negsuc (2 ^ 24 - 1 - from_be bs)
  -- The highest byte comes first, or last.
  pub from_be-nil : from_be [] ≡ 0
  pub from_be-snoc : (bs : List ℕ) (b : ℕ) → from_be (bs ++ b ∷ []) ≡ from_be bs * 256 + b
  pub from_le-nil : from_le [] ≡ 0
  pub from_le-cons : (b : ℕ) (bs : List ℕ) → from_le (b ∷ bs) ≡ b + 256 * from_le bs
  -- A writer fills its buffer with bytes, and the reader of its width reads the number back.
  pub to_be-bytes : (n v : ℕ) → All IsByte (to_be n v)
  pub to_le-bytes : (n v : ℕ) → All IsByte (to_le n v)
  pub length-to_be : (n v : ℕ) → length (to_be n v) ≡ n
  pub length-to_le : (n v : ℕ) → length (to_le n v) ≡ n
  pub from_be-to_be : (n v : ℕ) → v < 256 ^ n → from_be (to_be n v) ≡ v
  pub from_le-to_le : (n v : ℕ) → v < 256 ^ n → from_le (to_le n v) ≡ v

module _ (bo : ByteOrder) where
  -- `ReadBytesExt`: a `read_exact` of so many bytes, and their number.
  unfoldable pub read_be : ℕ → List ℕ → Io (ℕ × List ℕ)
  read_be n bs = do (buf, rest) ← read_exact n bs; ok (bo.from_be buf, rest)

  unfoldable pub read_le : ℕ → List ℕ → Io (ℕ × List ℕ)
  read_le n bs = do (buf, rest) ← read_exact n bs; ok (bo.from_le buf, rest)

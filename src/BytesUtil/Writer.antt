-- ===== src/BytesUtil/Writer.antt =====
-- Functions that write to a `&mut BitWriter`, in the order of their statements.
pub mod Puts
pub mod Writes
use video.Base.{ℕ, zero, suc, List, [], ◌∷◌, Bool, Result, ok, err, panic, stuck}
use video.Io.{Io}
use video.ByteOrder.{ByteOrder}
use video.BytesUtil.BitWriter.{BitWriter, write, write_bit}

abbrev pub Put : Type 0
Put = BitWriter → Io BitWriter

-- `?`, and what follows.
abbrev pub afterwards : Io BitWriter → Put → Io BitWriter
afterwards (ok w) q = q w
afterwards (err e) q = err e
afterwards panic q = panic
afterwards stuck q = stuck

infixr 5 ◌>>◌
unfoldable pub ◌>>◌ : Put → Put → Put
(p >> q) w = afterwards (p w) q

unfoldable pub done : Put
done w = ok w

-- `write_bit`, into a vector.
unfoldable pub put_flag : Bool → Put
put_flag bit w = ok (write_bit bit w)

-- `Write::write_all`: a vector takes the whole buffer in one `write`.
unfoldable pub write_all : List ℕ → Put
write_all buf w = elim (write buf w) [
  | ok (n, w') ↦ ok w'
  | err e ↦ err e
  | panic ↦ panic
  | stuck ↦ stuck
]

-- `for x in xs { … }`
unfoldable pub put_each : {A : Type 0} → (A → Put) → List A → Put
put_each put [] = done
put_each put (x ∷ xs) = put x >> put_each put xs

unfoldable pub write_u8 : ℕ → Put
unfolding write_all
write_u8 v = write_all (v ∷ [])

-- `WriteBytesExt`
module _ (bo : ByteOrder) where
  unfoldable pub write_be : ℕ → ℕ → Put
  unfolding write_all
  write_be n v = write_all (bo.to_be n v)

  unfoldable pub write_le : ℕ → ℕ → Put
  unfolding write_all
  write_le n v = write_all (bo.to_le n v)

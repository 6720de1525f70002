-- ===== src/BytesUtil/BitWriter.antt =====
-- crates/bytes-util/src/bit_write.rs: `BitWriter<Vec<u8>>`. A vector takes every write.
pub mod View
use video.Base.{
  ℕ, zero, suc, ◌+◌, ◌-◌, ◌*◌, ◌/◌, ◌%◌, ◌^◌, min, bit_and, bit_or, Bool, true, false, not, ◌&&◌,
  List, [], ◌∷◌, ◌++◌, Result, ok, err, panic, stuck, ◌>>=◌, ◌==◌, ltb, if◌then◌else◌, length,
}
use video.Io.{Io, invalid_data}

pub record BitWriter : Type 0 where
  pub bit_pos : ℕ
  pub current_byte : ℕ
  pub writer : List ℕ

abbrev pub new : List ℕ → BitWriter
new w = record { bit_pos = 0; current_byte = 0; writer = w }

unfoldable pub get_ref : BitWriter → List ℕ
get_ref w = w.writer

-- `Write::flush`, of a vector in memory.
unfoldable pub flush : BitWriter → Io BitWriter
flush w = ok w

abbrev pub is_aligned : BitWriter → Bool
is_aligned w = w.bit_pos % 8 == 0

-- `current_byte |= 1 << (7 - bit_pos)`, or `&= !(1 << (7 - bit_pos))`, on a u8.
unfoldable pub put_bit : Bool → ℕ → ℕ → ℕ
put_bit bit byte pos =
    if bit then bit_or byte (2 ^ (7 - pos)) else bit_and byte (255 - 2 ^ (7 - pos))

unfoldable pub write_bit : Bool → BitWriter → BitWriter
write_bit bit w =
    let byte = put_bit bit w.current_byte w.bit_pos in
    if w.bit_pos + 1 == 8
    then record { bit_pos = 0; current_byte = 0; writer = w.writer ++ (byte ∷ []) }
    else record w { bit_pos = w.bit_pos + 1; current_byte = byte }

-- The rounds that are left of `for i in 0..count`: `n` is `count - i`.
unfoldable pub write_bits_loop : ℕ → ℕ → BitWriter → BitWriter
unfolding write_bit
write_bits_loop zero bits w = w
write_bits_loop (suc n) bits w = write_bits_loop n bits (write_bit (bits / 2 ^ n % 2 == 1) w)

unfoldable pub write_bits : ℕ → ℕ → BitWriter → Io BitWriter
unfolding write_bits_loop
write_bits bits count w =
    let n = min count 64 in
    if not (n == 64) && ltb (2 ^ n - 1) bits
    then err invalid_data
    else ok (write_bits_loop n bits w)

unfoldable pub align : BitWriter → Io BitWriter
unfolding write_bits
align w = if is_aligned w then ok w else write_bits 0 (8 - w.bit_pos % 8) w

unfoldable pub finish : BitWriter → Io (List ℕ)
unfolding align
finish w = do w' ← align w; ok w'.writer

-- `Write::write` of a buffer, in the loop that a writer takes when it is not aligned.
unfoldable pub write_bytes_loop : List ℕ → BitWriter → Io BitWriter
unfolding write_bits
write_bytes_loop [] w = ok w
write_bytes_loop (b ∷ bs) w = do w' ← write_bits b 8 w; write_bytes_loop bs w'

-- The count of bytes written, and the writer.
unfoldable pub write : List ℕ → BitWriter → Io (ℕ × BitWriter)
unfolding write_bytes_loop
write buf w = elim (is_aligned w) [
  | true ↦ ok (length buf, record w { writer = w.writer ++ buf })
  | false ↦ do w' ← write_bytes_loop buf w; ok (length buf, w')
]

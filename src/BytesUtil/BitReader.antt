-- ===== src/BytesUtil/BitReader.antt =====
-- crates/bytes-util/src/bit_read.rs: `BitReader<T>` over a cursor in memory.
pub mod View
pub mod Seek
use video.Base.{
  ℕ, zero, suc, ◌+◌, ◌-◌, ◌*◌, ◌/◌, ◌%◌, ◌^◌, min, bit_or, Bool, true, false, List, [], ◌∷◌, Result,
  ok, err, panic, stuck, ◌>>=◌, ◌==◌, if◌then◌else◌, take, drop, length,
}
use video.Io.{Io, Cursor, read_one, remaining}

pub record BitReader : Type 0 where
  pub source : Cursor
  pub bit_pos : ℕ
  pub current_byte : ℕ

unfoldable pub new : Cursor → BitReader
new c = record { source = c; bit_pos = 0; current_byte = 0 }

unfoldable pub new_from_slice : List ℕ → BitReader
unfolding new
new_from_slice bytes = new (record { inner = bytes; position = 0 })

unfoldable pub into_inner : BitReader → Cursor
into_inner r = r.source

unfoldable pub get_ref : BitReader → Cursor
get_ref r = r.source

abbrev pub is_aligned : BitReader → Bool
is_aligned r = r.bit_pos == 0

unfoldable pub update_byte : BitReader → Io BitReader
unfolding read_one
update_byte r = do (b, c) ← read_one r.source; ok (record r { source = c; current_byte = b })

unfoldable pub read_bit : BitReader → Io (Bool × BitReader)
unfolding update_byte
read_bit r = do
  r' ← if is_aligned r then update_byte r else ok r
  let bit = r'.current_byte / 2 ^ (7 - r'.bit_pos) % 2
  ok (bit == 1, record r' { bit_pos = (r'.bit_pos + 1) % 8 })

-- The rounds of `for _ in 0..count`; `bits` is a u64.
unfoldable pub read_bits_loop : ℕ → ℕ → BitReader → Io (ℕ × BitReader)
read_bits_loop zero bits r = ok (bits, r)
read_bits_loop (suc n) bits r = do
  (bit, r') ← read_bit r
  read_bits_loop n (bit_or (bits * 2 % 2 ^ 64) (if bit then 1 else 0)) r'

unfoldable pub read_bits : ℕ → BitReader → Io (ℕ × BitReader)
unfolding read_bits_loop read_bit
read_bits count r = read_bits_loop (min count 64) 0 r

unfoldable pub align : BitReader → BitReader
align r = record r { bit_pos = 0 }

-- One byte of the buffer of `Read::read`, a u8, at a reader that is not aligned.
unfoldable pub read_byte_loop : ℕ → ℕ → BitReader → Io (ℕ × BitReader)
read_byte_loop zero byte r = ok (byte, r)
read_byte_loop (suc n) byte r = do
  (bit, r') ← read_bit r
  read_byte_loop n (bit_or (byte * 2 % 256) (if bit then 1 else 0)) r'

unfoldable pub read_bytes_loop : ℕ → BitReader → Io (List ℕ × BitReader)
unfolding read_byte_loop read_bit
read_bytes_loop zero r = ok ([], r)
read_bytes_loop (suc n) r = do
  (byte, r') ← read_byte_loop 8 0 r
  (bytes, r'') ← read_bytes_loop n r'
  ok (byte ∷ bytes, r'')

-- `Read::read` into a buffer of `n` bytes: what it fills of the buffer. A cursor reads as many
-- bytes as there are, and never fails.
unfoldable pub read : ℕ → BitReader → Io (List ℕ × BitReader)
unfolding read_bytes_loop
read n r = elim (is_aligned r) [
  | true ↦
      let bytes = take n (remaining r.source) in
      let c = record r.source { position = r.source.position + length bytes } in
      ok (bytes, record r { source = c })
  | false ↦ read_bytes_loop n r
]

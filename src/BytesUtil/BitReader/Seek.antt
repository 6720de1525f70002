-- ===== src/BytesUtil/BitReader/Seek.antt =====
-- crates/bytes-util/src/bit_read.rs: seeking in a `BitReader` over a cursor in memory. Positions in
-- bits are taken to fit a u64, and counts of bits an i64 with the position in a byte added.
pub mod Forward
use video.Base.{
  ℕ, zero, suc, ◌+◌, ◌-◌, ◌*◌, ◌/◌, ◌%◌, Bool, true, false, not, List, ok, err, panic, stuck, ◌>>=◌,
  ◌==◌, ltb, if◌then◌else◌, length,
}
use video.Base.Int.{ℤ, pos, negsuc, neg}
use video.Io.{Io, Cursor, invalid_input}
use video.BytesUtil.BitReader.{BitReader, is_aligned, update_byte}

-- `n as i64 + count`
abbrev pub add_count : ℕ → ℤ → ℤ
add_count n (pos m) = pos (n + m)
add_count n (negsuc m) = if ltb m n then pos (n - (m + 1)) else negsuc (m - n)

-- `/ 8` and `% 8` of an i64, towards zero.
abbrev pub quotient : ℤ → ℤ
quotient (pos n) = pos (n / 8)
quotient (negsuc n) = neg ((n + 1) / 8)

abbrev pub remainder : ℤ → ℤ
remainder (pos n) = pos (n % 8)
remainder (negsuc n) = neg ((n + 1) % 8)

abbrev pub is_negative : ℤ → Bool
is_negative (pos n) = false
is_negative (negsuc n) = true

-- `k -= 1` where the test holds.
abbrev pub back : Bool → ℤ → ℤ
back false k = k
back true (pos zero) = negsuc 0
back true (pos (suc n)) = pos n
back true (negsuc n) = negsuc (n + 1)

-- `(8 + bit_move) % 8`
abbrev pub position_of : ℤ → ℕ
position_of (pos n) = (8 + n) % 8
position_of (negsuc n) = (8 - (n + 1)) % 8

-- `io::SeekFrom`
pub data SeekFrom : Type 0 where
  start : ℕ → SeekFrom
  end : ℤ → SeekFrom
  current : ℤ → SeekFrom

-- Where a cursor moves from a base, in bytes: not in front of the first one.
unfoldable pub move_from : ℕ → ℤ → Cursor → Io (ℕ × Cursor)
move_from base (pos k) c = ok (base + k, record c { position = base + k })
move_from base (negsuc k) c =
    if ltb k base
    then ok (base - (k + 1), record c { position = base - (k + 1) })
    else err invalid_input

unfoldable pub seek_cursor : SeekFrom → Cursor → Io (ℕ × Cursor)
unfolding move_from
seek_cursor (SeekFrom.start n) c = ok (n, record c { position = n })
seek_cursor (SeekFrom.end k) c = move_from (length c.inner) k c
seek_cursor (SeekFrom.current k) c = move_from c.position k c

unfoldable pub bit_stream_position : BitReader → ℕ
bit_stream_position r = r.source.position * 8 + (if is_aligned r then 8 else r.bit_pos) - 8

-- The new position in bits, of a reader that has been moved to byte `at`.
unfoldable pub settle : ℕ → BitReader → Io (ℕ × BitReader)
unfolding update_byte
settle at r =
    if is_aligned r then ok (at * 8, r) else (do r' ← update_byte r; ok (at * 8 + r.bit_pos, r'))

abbrev pub byte_move : ℤ → BitReader → ℤ
byte_move total r =
    back (is_negative (remainder total)) (back (not (is_aligned r)) (quotient total))

unfoldable pub move_bits : ℤ → BitReader → Io (ℕ × BitReader)
unfolding seek_cursor settle
move_bits total r = do
  (at, c) ← seek_cursor (SeekFrom.current (byte_move total r)) r.source
  settle at (record r { source = c; bit_pos = position_of (remainder total) })

unfoldable pub seek_bits : ℤ → BitReader → Io (ℕ × BitReader)
unfolding move_bits bit_stream_position
seek_bits (pos zero) r = ok (bit_stream_position r, r)
seek_bits (pos (suc n)) r = move_bits (add_count r.bit_pos (pos (suc n))) r
seek_bits (negsuc n) r = move_bits (add_count r.bit_pos (negsuc n)) r

-- `offset * 8`
abbrev pub eight_times : ℤ → ℤ
eight_times (pos n) = pos (n * 8)
eight_times (negsuc n) = negsuc (n * 8 + 7)

unfoldable pub seek_aligned : SeekFrom → BitReader → Io (ℕ × BitReader)
unfolding seek_cursor
seek_aligned target r = do
  (at, c) ← seek_cursor target r.source
  ok (at, record r { source = c; bit_pos = 0 })

-- `io::Seek::seek`
unfoldable pub seek : SeekFrom → BitReader → Io (ℕ × BitReader)
unfolding seek_aligned seek_bits
seek (SeekFrom.current offset) r =
    if not (is_aligned r)
    then (do (at, r') ← seek_bits (eight_times offset) r; ok ((at + 7) / 8, r'))
    else seek_aligned (SeekFrom.current offset) r
seek (SeekFrom.start n) r = seek_aligned (SeekFrom.start n) r
seek (SeekFrom.end k) r = seek_aligned (SeekFrom.end k) r

-- ===== src/ExpGolomb.antt =====
-- crates/expgolomb: exponential-Golomb codes over the bit reader and the bit writer. Arithmetic
-- on u64 and i64 wraps, as in a release build.
pub mod RoundTrip
pub mod Sequence
use video.Base.{
  ℕ, zero, suc, ◌+◌, ◌-◌, ◌*◌, ◌/◌, ◌%◌, ◌^◌, Bool, true, false, ok, err, panic, stuck, ◌>>=◌, ltb,
  ◌==◌, if◌then◌else◌, length,
}
use video.Base.Int.{ℤ, pos, negsuc, neg}
use video.Io.{Io, remaining}
use video.BytesUtil.BitReader.{BitReader, read_bit, read_bits_loop}
use video.BytesUtil.BitWriter.{BitWriter, write_bit, write_bits}

-- `while !self.read_bit()? { leading_zeros += 1; }`, where the counter is an i32, which stands
-- here as its 32 bits and wraps.
unfoldable pub skip_zeros : ℕ → ℕ → BitReader → Io (ℕ × BitReader)
skip_zeros zero leading_zeros r = stuck
skip_zeros (suc f) leading_zeros r = do
  (bit, r') ← read_bit r
  let rest = skip_zeros f ((leading_zeros + 1) % 2 ^ 32) r' in
      if bit then ok (leading_zeros, r') else rest

-- Each round takes a bit: those of the current byte and of the bytes that remain.
abbrev pub zeros_fuel : BitReader → ℕ
zeros_fuel r = 8 * length (remaining r.source) + 9

-- The rounds of `for _ in 0..leading_zeros`: none where the i32 is negative.
abbrev pub rounds : ℕ → ℕ
rounds leading_zeros = if ltb leading_zeros (2 ^ 31) then leading_zeros else 0

-- The second loop of the code, `result <<= 1; result |= bit`, is that of `read_bits`, from 1.
unfoldable pub read_exp_golomb : BitReader → Io (ℕ × BitReader)
read_exp_golomb r = do
  (leading_zeros, r') ← skip_zeros (zeros_fuel r) 0 r
  (result, r'') ← read_bits_loop (rounds leading_zeros) 1 r'
  ok ((result + 2 ^ 64 - 1) % 2 ^ 64, r'')

-- A u64 below 2 ^ 64 as an i64.
abbrev pub to_i64 : ℕ → ℤ
to_i64 n = if ltb n (2 ^ 63) then pos n else neg (2 ^ 64 - n)

unfoldable pub signed_of : ℕ → ℤ
signed_of exp_glob = if exp_glob % 2 == 0 then neg (exp_glob / 2) else to_i64 (exp_glob / 2 + 1)

unfoldable pub read_signed_exp_golomb : BitReader → Io (ℤ × BitReader)
read_signed_exp_golomb r = do (exp_glob, r') ← read_exp_golomb r; ok (signed_of exp_glob, r')

-- `while number > 1 { number >>= 1; leading_zeros += 1; }`: 64 rounds are enough for a u64.
unfoldable pub count_shifts : ℕ → ℕ → ℕ → ℕ
count_shifts zero number leading_zeros = leading_zeros
count_shifts (suc f) number leading_zeros =
    let rest = count_shifts f (number / 2) (leading_zeros + 1) in
    if ltb 1 number then rest else leading_zeros

unfoldable pub write_zeros : ℕ → BitWriter → BitWriter
write_zeros zero w = w
write_zeros (suc n) w = write_zeros n (write_bit false w)

unfoldable pub write_exp_golomb : ℕ → BitWriter → Io BitWriter
write_exp_golomb input w =
    let number = (input + 1) % 2 ^ 64 in
    let leading_zeros = count_shifts 64 number 0 in
    write_bits number (leading_zeros + 1) (write_zeros leading_zeros w)

-- `if number <= 0 { -number as u64 * 2 } else { number as u64 * 2 - 1 }`
unfoldable pub unsigned_of : ℤ → ℕ
unsigned_of (pos zero) = 0
unsigned_of (pos (suc n)) = suc n * 2 - 1
unsigned_of (negsuc n) = suc n * 2 % 2 ^ 64

unfoldable pub write_signed_exp_golomb : ℤ → BitWriter → Io BitWriter
write_signed_exp_golomb number w = write_exp_golomb (unsigned_of number) w

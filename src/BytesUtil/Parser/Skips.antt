-- ===== src/BytesUtil/Parser/Skips.antt =====
-- Parsers that seek, or take the rest of the bytes, on any input.
use video.Base.{
  ℕ, zero, suc, ◌<◌, ◌≡◌, refl, arith, inl, inr, ltb, Bool-cases, Returns, value, failed,
  Settles->>=,
}
use video.Base.Int.{ℤ, pos, negsuc}
use video.Io.{Cursor, read_one-Returns}
use video.BytesUtil.BitReader.{BitReader, is_aligned, update_byte}
use video.BytesUtil.BitReader.View.{IsValid}
use video.BytesUtil.BitReader.Seek.{
  seek_bits, move_bits, settle, move_from, seek_cursor, add_count, byte_move, position_of,
  remainder,
}
use video.BytesUtil.Parser.{skip, take_rest}
use video.BytesUtil.Parser.Gives.{Gives, Gives->>=, Gives-pure, Any}

abbrev Valid : ℕ × BitReader → Type 0
Valid (n, r) = Any n × IsValid r

move_from-Returns :
    (base : ℕ) (k : ℤ) (c : Cursor) → Returns (λ (n, c'). Unit {0}) (move_from base k c)
unfolding move_from
move_from-Returns base (pos k) c = value tt
move_from-Returns base (negsuc k) c = elim (Bool-cases (ltb k base)) [
  | inl e ↦ rw e (value tt)
  | inr e ↦ rw e failed
]

update_byte-Returns : (r : BitReader) → Returns (λ r'. r'.bit_pos ≡ r.bit_pos) (update_byte r)
unfolding update_byte
update_byte-Returns r = Settles->>= (read_one-Returns r.source) λ (b, c) _. value refl

settle-Returns : (at : ℕ) (r : BitReader) → IsValid r → Returns Valid (settle at r)
unfolding settle
settle-Returns at r v = elim (Bool-cases (is_aligned r)) [
  | inl e ↦ rw e (value (tt, v))
  | inr e ↦ rw e (Settles->>= (update_byte-Returns r) λ r' e'. value (tt, omega (arith, e', v)))
]

position_of-lt : (k : ℤ) → position_of k < 8
position_of-lt (pos n) = omega arith
position_of-lt (negsuc n) = omega arith

move_bits-Returns : (total : ℤ) (r : BitReader) → Returns Valid (move_bits total r)
unfolding move_bits seek_cursor
move_bits-Returns total r =
    Settles->>= (move_from-Returns r.source.position (byte_move total r) r.source)
      λ (at, c) _. settle-Returns at _ (position_of-lt (remainder total))

pub Gives-seek_bits : (count : ℤ) → Gives (seek_bits count) Any
unfolding seek_bits
Gives-seek_bits (pos zero) = record { run = λ r v. value (tt, v) }
Gives-seek_bits (pos (suc n)) = record {
  run = λ r v. move_bits-Returns (add_count r.bit_pos (pos (suc n))) r;
}
Gives-seek_bits (negsuc n) = record {
  run = λ r v. move_bits-Returns (add_count r.bit_pos (negsuc n)) r;
}

pub Gives-skip : (n : ℕ) → Gives (skip n) Any
unfolding skip
Gives-skip n = Gives->>= (Gives-seek_bits (pos n)) λ _ _. Gives-pure tt tt

pub Gives-take_rest : Gives take_rest Any
unfolding take_rest
Gives-take_rest = record { run = λ r v. value (tt, v) }

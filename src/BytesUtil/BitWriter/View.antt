-- ===== src/BytesUtil/BitWriter/View.antt =====
-- The bit writer against a list of bits: what it writes is what it puts behind its view.
use native.Mathlib.Nat.{div-div-eq-div-mul, mul-div_cancel, div-add-mod, div-one, mul-mod_left}
use mathlib.Core.Path.{ap₂}
use native.Mathlib.Decide.{ℕ_discrete}
use video.Base.{
  ℕ, zero, suc, ◌+◌, ◌-◌, ◌*◌, ◌/◌, ◌%◌, ◌^◌, ◌≤◌, ◌<◌, min, ◌≡◌, ◌≢◌, refl, ap, ◌∙◌, sym, arith,
  Bool, true, false, not, ◌&&◌, ◌||◌, List, [], ◌∷◌, ◌++◌, append_assoc, append-nil, ok, ◌==◌, ltb,
  length, length-append,
}
use video.Base.Arith.{two_pow-suc, two_pow_pos, passes_below, passes_below_sound}
use video.BytesUtil.Bits.{
  to_bits, bytes_bits, bytes_bits-append, bytes_bits-one, length-bytes_bits, length-to_bits,
  to_bits-zero, bit_value, bit_at,
}
use video.BytesUtil.BitWriter.{
  BitWriter, new, put_bit, write_bit, write_bits, write_bits_loop, align, finish,
}

-- The bits written to the current byte are its `bit_pos` highest ones.
abbrev pub view : BitWriter → List Bool
view w = bytes_bits w.writer ++ to_bits w.bit_pos (w.current_byte / 2 ^ (8 - w.bit_pos))

-- The bits of the current byte that are still to be written are zero.
pub record IsValid (w : BitWriter) : Type 0 where
  pub within : w.bit_pos < 8
  pub byte : w.current_byte < 256
  pub clear : w.current_byte % 2 ^ (8 - w.bit_pos) ≡ 0

put_bit-checks : Bool → ℕ → ℕ → Bool
unfolding put_bit
put_bit-checks bit pos byte =
    not (byte % 2 ^ (8 - pos) == 0)
    || (put_bit bit byte pos == byte + bit_value bit * 2 ^ (7 - pos))
      && ltb (put_bit bit byte pos) 256

put_bit-table :
    (bit : Bool) → passes_below (λ pos. passes_below (put_bit-checks bit pos) 256) 8 ≡ true
unfolding passes_below put_bit-checks
put_bit-table true = refl
put_bit-table false = refl

-- Where the bit at the position and those below it are zero, `put_bit` adds the bit to a byte.
pub put_bit_lem :
    (bit : Bool) (byte pos : ℕ)
    → pos < 8
    → byte < 256
    → byte % 2 ^ (8 - pos) ≡ 0
    → (put_bit bit byte pos ≡ byte + bit_value bit * 2 ^ (7 - pos)) × (put_bit bit byte pos < 256)
unfolding put_bit-checks
put_bit_lem bit byte pos hp hb hc = ground (
  arith,
  passes_below_sound (put_bit-checks bit pos) 256 byte hb (
      passes_below_sound (λ p. passes_below (put_bit-checks bit p) 256) 8 pos hp
        (put_bit-table bit)),
)

bit_at-double : (b : Bool) (c n : ℕ) → bit_at (c * 2 + bit_value b) (suc n) ≡ bit_at c n
bit_at-double b c n = ap (λ (t : ℕ). t % 2 == 1) halves
  where
    half : (c * 2 + bit_value b) / 2 ≡ c
    half = ground arith

    halves : (c * 2 + bit_value b) / 2 ^ suc n ≡ c / 2 ^ n
    halves =
        ap (λ (t : ℕ). (c * 2 + bit_value b) / t) (two_pow-suc n)
        ∙ sym (div-div-eq-div-mul (c * 2 + bit_value b) 2 (2 ^ n))
        ∙ ap (λ (t : ℕ). t / 2 ^ n) half

-- One bit more at the low end.
to_bits-snoc :
    (n c : ℕ) (b : Bool) → to_bits (suc n) (c * 2 + bit_value b) ≡ to_bits n c ++ (b ∷ [])
unfolding to_bits
to_bits-snoc zero c true = ap (λ t. t ∷ []) (ground arith)
to_bits-snoc zero c false = ap (λ t. t ∷ []) (ground arith)
to_bits-snoc (suc n) c b = ap₂ (λ x xs. x ∷ xs) (bit_at-double b c n) (to_bits-snoc n c b)

-- A byte whose bits below `p + 1` are zero, with bit `p` added: its digits from `p` on.
add_bit-high :
    (b : Bool) (byte p : ℕ)
    → byte % 2 ^ suc p ≡ 0
    → (byte + bit_value b * 2 ^ p) / 2 ^ p ≡ byte / 2 ^ suc p * 2 + bit_value b
add_bit-high b byte p h = ap (λ (t : ℕ). t / 2 ^ p) whole ∙ mul-div_cancel _ (two_pow_pos p)
  where
    q : ℕ
    q = byte / 2 ^ suc p

    whole : byte + bit_value b * 2 ^ p ≡ (q * 2 + bit_value b) * 2 ^ p
    whole = omega (arith, h, div-add-mod byte (2 ^ suc p), ap (λ (t : ℕ). t * q) (two_pow-suc p))

add_bit-low :
    (b : Bool) (byte p : ℕ) → byte % 2 ^ suc p ≡ 0 → (byte + bit_value b * 2 ^ p) % 2 ^ p ≡ 0
add_bit-low b byte p h =
    ap (λ (t : ℕ). t % 2 ^ p) whole ∙ mul-mod_left (q * 2 + bit_value b) (2 ^ p)
  where
    q : ℕ
    q = byte / 2 ^ suc p

    whole : byte + bit_value b * 2 ^ p ≡ (q * 2 + bit_value b) * 2 ^ p
    whole = omega (arith, h, div-add-mod byte (2 ^ suc p), ap (λ (t : ℕ). t * q) (two_pow-suc p))

module _ (bit : Bool) (w : BitWriter) (v : IsValid w) where
  abbrev next_byte : ℕ
  next_byte = put_bit bit w.current_byte w.bit_pos

  from_top : 8 - w.bit_pos ≡ suc (7 - w.bit_pos)
  from_top = omega arith

  clear_above : w.current_byte % 2 ^ suc (7 - w.bit_pos) ≡ 0
  clear_above = rw (← from_top) v.clear

  next_byte_cases :
      (next_byte ≡ w.current_byte + bit_value bit * 2 ^ (7 - w.bit_pos)) × (next_byte < 256)
  next_byte_cases = put_bit_lem bit w.current_byte w.bit_pos v.within v.byte v.clear

  next_byte_lem : next_byte ≡ w.current_byte + bit_value bit * 2 ^ (7 - w.bit_pos)
  next_byte_lem = next_byte_cases.0

  next_byte-bits :
      to_bits (suc w.bit_pos) (next_byte / 2 ^ (7 - w.bit_pos))
      ≡ to_bits w.bit_pos (w.current_byte / 2 ^ (8 - w.bit_pos)) ++ (bit ∷ [])
  next_byte-bits =
      ap (to_bits (suc w.bit_pos)) (
        ap (λ (t : ℕ). t / 2 ^ (7 - w.bit_pos)) next_byte_lem
        ∙ add_bit-high bit w.current_byte (7 - w.bit_pos) clear_above)
      ∙ to_bits-snoc w.bit_pos _ bit
      ∙ ap (λ (k : ℕ). to_bits w.bit_pos (w.current_byte / 2 ^ k) ++ (bit ∷ [])) (sym from_top)

  next_byte-clear : next_byte % 2 ^ (7 - w.bit_pos) ≡ 0
  next_byte-clear =
      ap (λ (t : ℕ). t % 2 ^ (7 - w.bit_pos)) next_byte_lem
      ∙ add_bit-low bit w.current_byte (7 - w.bit_pos) clear_above

  appended :
      (bits : List Bool)
      → bits ≡ to_bits w.bit_pos (w.current_byte / 2 ^ (8 - w.bit_pos)) ++ (bit ∷ [])
      → bytes_bits w.writer ++ bits ≡ view w ++ (bit ∷ [])
  appended bits e =
      ap (λ t. bytes_bits w.writer ++ t) e ∙ sym (append_assoc (bytes_bits w.writer) _ (bit ∷ []))

  full_byte :
      w.bit_pos ≡ 7
      → to_bits 8 next_byte ≡ to_bits (suc w.bit_pos) (next_byte / 2 ^ (7 - w.bit_pos))
  full_byte e =
      ap₂ to_bits (omega arith)
        (sym (div-one next_byte) ∙ ap (λ (k : ℕ). next_byte / 2 ^ k) zero_below)
    where
      zero_below : 0 ≡ 7 - w.bit_pos
      zero_below = omega arith

  write_bit_full :
      w.bit_pos ≡ 7 → (view (write_bit bit w) ≡ view w ++ (bit ∷ [])) × IsValid (write_bit bit w)
  unfolding write_bit
  write_bit_full e =
      rw full (opened, record { within = omega arith; byte = omega arith; clear = refl })
    where
      full : (w.bit_pos + 1 == 8) ≡ true
      full = ground arith

      opened :
          bytes_bits (w.writer ++ (next_byte ∷ [])) ++ to_bits 0 (0 / 2 ^ (8 - 0))
          ≡ view w ++ (bit ∷ [])
      opened =
          ap₂ ◌++◌ (bytes_bits-append w.writer (next_byte ∷ [])) (to_bits-zero _)
          ∙ append-nil _
          ∙ appended _ (bytes_bits-one next_byte ∙ full_byte e ∙ next_byte-bits)

  write_bit_part :
      w.bit_pos ≢ 7 → (view (write_bit bit w) ≡ view w ++ (bit ∷ [])) × IsValid (write_bit bit w)
  unfolding write_bit
  write_bit_part e = rw part (
    appended _ (ap₂ (λ n k. to_bits n (next_byte / 2 ^ k)) up down ∙ next_byte-bits),
    record {
      within = omega (arith, v.within);
      byte = next_byte_cases.1;
      clear = ap (λ (k : ℕ). next_byte % 2 ^ k) down ∙ next_byte-clear;
    },
  )
    where
      part : (w.bit_pos + 1 == 8) ≡ false
      part = let h = v.within in ground arith

      up : w.bit_pos + 1 ≡ suc w.bit_pos
      up = omega arith

      down : 8 - (w.bit_pos + 1) ≡ 7 - w.bit_pos
      down = omega arith

-- A write of one bit puts it behind the view.
pub write_bit-view :
    (bit : Bool) (w : BitWriter)
    → IsValid w
    → (view (write_bit bit w) ≡ view w ++ (bit ∷ [])) × IsValid (write_bit bit w)
write_bit-view bit w v = elim (ℕ_discrete w.bit_pos 7) [
  | yes e ↦ write_bit_full bit w v e
  | no e ↦ write_bit_part bit w v e
]

pub write_bits_loop-view :
    (n bits : ℕ) (w : BitWriter)
    → IsValid w
    → (view (write_bits_loop n bits w) ≡ view w ++ to_bits n bits)
      × IsValid (write_bits_loop n bits w)
unfolding write_bits_loop to_bits
write_bits_loop-view zero bits w v = (sym (append-nil (view w)), v)
write_bits_loop-view (suc n) bits w v =
    let (here, v₁) = write_bit-view (bit_at bits n) w v in
    let (there, v₂) = write_bits_loop-view n bits (write_bit (bit_at bits n) w) v₁ in
    (
      there
          ∙ ap (λ t. t ++ to_bits n bits) here
          ∙ append_assoc (view w) (bit_at bits n ∷ []) (to_bits n bits),
      v₂,
    )

-- `write_bits` of a number that fits a count of at most 64 bits puts its bits, the highest
-- first, behind those written to a valid writer, and keeps it valid.
pub write_bits-view :
    (bits count : ℕ) (w : BitWriter)
    → IsValid w
    → count ≤ 64
    → bits < 2 ^ count
    → (w' : BitWriter) × (write_bits bits count w ≡ ok w')
      × (view w' ≡ view w ++ to_bits count bits)
      × IsValid w'
unfolding write_bits
write_bits-view bits count w v le h =
    let (e, v') = write_bits_loop-view count bits w v in
    (write_bits_loop count bits w, rw (cap, fits), e, v')
  where
    cap : min count 64 ≡ count
    cap = omega arith

    fits : (not (count == 64) && ltb (2 ^ count - 1) bits) ≡ false
    fits = ground arith

pub length-view : (w : BitWriter) → length (view w) ≡ 8 * length w.writer + w.bit_pos
length-view w = omega (
  arith,
  length-append (bytes_bits w.writer) (to_bits w.bit_pos (w.current_byte / 2 ^ (8 - w.bit_pos))),
  length-bytes_bits w.writer,
  length-to_bits w.bit_pos (w.current_byte / 2 ^ (8 - w.bit_pos)),
)

-- What `align` leaves: the view filled up with zeros to a byte boundary.
abbrev pub Aligned : BitWriter → BitWriter → Type 0
Aligned w w' = (view w' ≡ view w ++ to_bits ((8 - w.bit_pos) % 8) 0) × (w'.bit_pos ≡ 0) × IsValid w'

align-at_boundary : (w : BitWriter) → IsValid w → w.bit_pos ≡ 0 → Aligned w w
align-at_boundary w v e = (
  sym (append-nil (view w))
      ∙ ap (λ t. view w ++ t) (sym (to_bits-zero 0) ∙ ap (λ n. to_bits n 0) none_left),
  e,
  v,
)
  where
    none_left : 0 ≡ (8 - w.bit_pos) % 8
    none_left = omega arith

-- `align` fills the current byte with zeros, and does nothing at a byte boundary.
pub align-view : (w : BitWriter) → IsValid w → (w' : BitWriter) × (align w ≡ ok w') × Aligned w w'
unfolding align
align-view w v = elim (ℕ_discrete w.bit_pos 0) [
  | yes e ↦ (w, rw (at_boundary e), align-at_boundary w v e)
  | no e ↦
      let (w', step, seen, v') =
        write_bits-view 0 (8 - w.bit_pos % 8) w v (omega arith) (two_pow_pos (8 - w.bit_pos % 8)) in
      (
        w',
        rw (inside e) step,
        (
          seen ∙ ap (λ n. view w ++ to_bits n 0) (left e),
          omega (
            arith,
            v'.within,
            length-view w',
            length-view w,
            ap length seen,
            length-append (view w) (to_bits (8 - w.bit_pos % 8) 0),
            length-to_bits (8 - w.bit_pos % 8) 0,
          ),
          v',
        ),
      )
]
  where
    at_boundary : w.bit_pos ≡ 0 → (w.bit_pos % 8 == 0) ≡ true
    at_boundary e = ground arith

    inside : w.bit_pos ≢ 0 → (w.bit_pos % 8 == 0) ≡ false
    inside e = let h = v.within in ground arith

    left : w.bit_pos ≢ 0 → 8 - w.bit_pos % 8 ≡ (8 - w.bit_pos) % 8
    left e = omega (arith, v.within)

-- `finish` of a valid writer returns the bytes whose bits are those written, with zeros up to
-- the next byte boundary.
pub finish-view :
    (w : BitWriter)
    → IsValid w
    → (bytes : List ℕ) × (finish w ≡ ok bytes)
      × (bytes_bits bytes ≡ view w ++ to_bits ((8 - w.bit_pos) % 8) 0)
unfolding finish
finish-view w v =
    let (w', step, (seen, at, v')) = align-view w v in
    (w'.writer, rw step, sym (whole w' at) ∙ seen)
  where
    whole : (w' : BitWriter) → w'.bit_pos ≡ 0 → view w' ≡ bytes_bits w'.writer
    whole w' e =
        ap (λ t. bytes_bits w'.writer ++ t)
          (ap (λ n. to_bits n (w'.current_byte / 2 ^ (8 - w'.bit_pos))) e ∙ to_bits-zero _)
        ∙ append-nil _

-- A new writer over `w` shows the bits of `w`.
pub view-new : (w : List ℕ) → view (new w) ≡ bytes_bits w
view-new w = ap (λ t. bytes_bits w ++ t) (to_bits-zero _) ∙ append-nil _

pub new-IsValid : (w : List ℕ) → IsValid (new w)
new-IsValid w = record { within = omega arith; byte = omega arith; clear = refl }

-- ===== src/BytesUtil/Writer/Puts.antt =====
-- What a function that writes puts behind the bits of a writer.
use video.Base.{
  ℕ, zero, suc, ◌+◌, ◌-◌, ◌*◌, ◌/◌, ◌^◌, ◌≤◌, ◌<◌, ◌≡◌, refl, ap, ◌∙◌, sym, arith, Bool, true,
  false, ◌⊎◌, inl, inr, List, [], ◌∷◌, ◌++◌, append_assoc, append-nil, ok, ◌==◌, length, All,
  All-append, Bool-cases, subst, min, not, ◌&&◌, ltb,
}
use video.Io.{IsByte}
use video.ByteOrder.{ByteOrder}
use video.BytesUtil.Bits.{
  to_bits, bytes_bits, bytes_bits-append, to_bits-zero, bit_at, length-bytes_bits,
}
use video.BytesUtil.Bits.Prefix.{bytes_bits-injective}
use video.BytesUtil.BitWriter.{
  BitWriter, is_aligned, write, write_bit, write_bits, write_bits_loop, write_bytes_loop, align,
  finish,
}
use video.BytesUtil.BitWriter.View.{
  view, IsValid, length-view, put_bit_lem, write_bit-view, write_bits_loop-view,
}
use video.BytesUtil.Writer.{Put, ◌>>◌, done, put_flag, write_all, write_u8, write_be, write_le}

-- A writer of bytes, with the given bits written.
pub record Holds (w : BitWriter) (bits : List Bool) : Type 0 where
  pub valid : IsValid w
  pub seen : view w ≡ bits
  pub bytes : All IsByte w.writer

pub record Puts (q : Put) (bits : List Bool) : Type 0 where
  pub run :
      (w : BitWriter) (before : List Bool)
      → Holds w before
      → (w' : BitWriter) × (q w ≡ ok w') × Holds w' (before ++ bits)

pub Puts->> : {p q : Put} {xs ys : List Bool} → Puts p xs → Puts q ys → Puts (p >> q) (xs ++ ys)
unfolding ◌>>◌
Puts->> {p} {q} {xs} {ys} h k = record {
  run = λ w before at.
      let (w₁, step, at₁) = h.run w before at in
      let (w₂, steps, at₂) = k.run w₁ (before ++ xs) at₁ in
      (w₂, rw step steps, subst (λ t. Holds w₂ t) (append_assoc before xs ys) at₂);
}

pub Puts-done : Puts done []
unfolding done
Puts-done = record {
  run = λ w before at. (w, refl, subst (λ t. Holds w t) (sym (append-nil before)) at);
}

write_bit-bytes :
    (bit : Bool) (w : BitWriter)
    → IsValid w
    → All IsByte w.writer
    → All IsByte ((write_bit bit w).writer)
unfolding write_bit
write_bit-bytes bit w v h = elim (Bool-cases (w.bit_pos + 1 == 8)) [
  | inl e ↦ rw e (
      All-append IsByte w.writer _ h
        ((put_bit_lem bit w.current_byte w.bit_pos v.within v.byte v.clear).1, tt))
  | inr e ↦ rw e h
]

write_bits_loop-bytes :
    (n bits : ℕ) (w : BitWriter)
    → IsValid w
    → All IsByte w.writer
    → All IsByte ((write_bits_loop n bits w).writer)
unfolding write_bits_loop
write_bits_loop-bytes zero bits w v h = h
write_bits_loop-bytes (suc n) bits w v h =
    write_bits_loop-bytes n bits (write_bit (bit_at bits n) w)
      ((write_bit-view (bit_at bits n) w v).1) (write_bit-bytes (bit_at bits n) w v h)

pub Puts-write_bits : (n v : ℕ) → n ≤ 64 → v < 2 ^ n → Puts (write_bits v n) (to_bits n v)
unfolding write_bits
Puts-write_bits n v le lt = record {
  run = λ w before at.
      let (e, v') = write_bits_loop-view n v w at.valid in
      (
        write_bits_loop n v w,
        rw (cap, fits) refl,
        record {
          valid = v';
          seen = e ∙ ap (λ t. t ++ to_bits n v) at.seen;
          bytes = write_bits_loop-bytes n v w at.valid at.bytes;
        },
      );
}
  where
    cap : min n 64 ≡ n
    cap = omega arith

    fits : (not (n == 64) && ltb (2 ^ n - 1) v) ≡ false
    fits = ground arith

pub Puts-put_flag : (bit : Bool) → Puts (put_flag bit) (bit ∷ [])
unfolding put_flag
Puts-put_flag bit = record {
  run = λ w before at.
      let (e, v') = write_bit-view bit w at.valid in
      (
        write_bit bit w,
        refl,
        record {
          valid = v';
          seen = e ∙ ap (λ t. t ++ bit ∷ []) at.seen;
          bytes = write_bit-bytes bit w at.valid at.bytes;
        },
      );
}

Puts-write_bytes_loop :
    (buf : List ℕ) → All IsByte buf → Puts (write_bytes_loop buf) (bytes_bits buf)
unfolding write_bytes_loop bytes_bits
Puts-write_bytes_loop [] h = record {
  run = λ w before at. (w, refl, subst (λ t. Holds w t) (sym (append-nil before)) at);
}
Puts-write_bytes_loop (b ∷ bs) (hb, hs) = record {
  run = λ w before at.
      let (w₁, step, at₁) = (Puts-write_bits 8 b (omega arith) hb).run w before at in
      let (w₂, steps, at₂) = (Puts-write_bytes_loop bs hs).run w₁ (before ++ to_bits 8 b) at₁ in
      (
        w₂,
        rw step steps,
        subst (λ t. Holds w₂ t) (append_assoc before (to_bits 8 b) (bytes_bits bs)) at₂,
      );
}

-- At a byte boundary the bytes themselves go behind those written.
view-boundary : (w : BitWriter) → w.bit_pos ≡ 0 → view w ≡ bytes_bits w.writer
view-boundary w e =
    ap (λ t. bytes_bits w.writer ++ t)
      (ap (λ n. to_bits n (w.current_byte / 2 ^ (8 - w.bit_pos))) e ∙ to_bits-zero _)
    ∙ append-nil _

append-view :
    (w : BitWriter) (buf : List ℕ)
    → w.bit_pos ≡ 0
    → view (record w { writer = w.writer ++ buf }) ≡ view w ++ bytes_bits buf
append-view w buf e =
    view-boundary (record w { writer = w.writer ++ buf }) e
    ∙ bytes_bits-append w.writer buf
    ∙ ap (λ t. t ++ bytes_bits buf) (sym (view-boundary w e))

write-aligned :
    (buf : List ℕ) (w : BitWriter)
    → is_aligned w ≡ true
    → write buf w ≡ ok (length buf, record w { writer = w.writer ++ buf })
unfolding write
write-aligned buf w e = rw (e, write) refl

write-inside :
    (buf : List ℕ) (w w' : BitWriter)
    → is_aligned w ≡ false
    → write_bytes_loop buf w ≡ ok w'
    → write buf w ≡ ok (length buf, w')
unfolding write
write-inside buf w w' e step = rw (e, write) (rw step refl)

write_all-write :
    (buf : List ℕ) (n : ℕ) (w w' : BitWriter) → write buf w ≡ ok (n, w') → write_all buf w ≡ ok w'
unfolding write_all
write_all-write buf n w w' e = rw (e, write_all) refl

pub Puts-write_all : (buf : List ℕ) → All IsByte buf → Puts (write_all buf) (bytes_bits buf)
Puts-write_all buf h = record {
  run = λ w before at. at_byte w before at (Bool-cases (is_aligned w));
}
  where
    at_byte :
        (w : BitWriter) (before : List Bool)
        → Holds w before
        → (is_aligned w ≡ true) ⊎ (is_aligned w ≡ false)
        → (w' : BitWriter) × (write_all buf w ≡ ok w') × Holds w' (before ++ bytes_bits buf)
    at_byte w before at (inl e) =
        let here : w.bit_pos ≡ 0 = (let lt = at.valid.within in ground arith) in
        (
          record w { writer = w.writer ++ buf },
          write_all-write buf (length buf) w _ (write-aligned buf w e),
          record {
            valid = record {
              within = at.valid.within;
              byte = at.valid.byte;
              clear = at.valid.clear;
            };
            seen = append-view w buf here ∙ ap (λ t. t ++ bytes_bits buf) at.seen;
            bytes = All-append IsByte w.writer buf at.bytes h;
          },
        )
    at_byte w before at (inr e) =
        let (w', step, at') = (Puts-write_bytes_loop buf h).run w before at in
        (w', write_all-write buf (length buf) w w' (write-inside buf w w' e step), at')

pub Puts-write_u8 : (v : ℕ) → v < 256 → Puts (write_u8 v) (bytes_bits (v ∷ []))
unfolding write_u8
Puts-write_u8 v h = Puts-write_all (v ∷ []) (h, tt)

pub Puts-write_be : (bo : ByteOrder) (n v : ℕ) → Puts (write_be bo n v) (bytes_bits (bo.to_be n v))
unfolding write_be
Puts-write_be bo n v = Puts-write_all (bo.to_be n v) (bo.to_be-bytes n v)

pub Puts-write_le : (bo : ByteOrder) (n v : ℕ) → Puts (write_le bo n v) (bytes_bits (bo.to_le n v))
unfolding write_le
Puts-write_le bo n v = Puts-write_all (bo.to_le n v) (bo.to_le-bytes n v)

-- At a whole number of bytes there is nothing to align.
pub Holds-whole :
    (w : BitWriter) (bits : List Bool) (n : ℕ)
    → Holds w bits
    → length bits ≡ 8 * n
    → (finish w ≡ ok w.writer) × (bytes_bits w.writer ≡ bits)
unfolding finish align
Holds-whole w bits n at h = (rw whole refl, sym (view-boundary w here) ∙ at.seen)
  where
    here : w.bit_pos ≡ 0
    here = omega (arith, at.valid.within, length-view w, ap length at.seen, h)

    whole : is_aligned w ≡ true
    whole = ground (arith, here)

pub Holds-finish :
    (w : BitWriter) (bytes : List ℕ)
    → Holds w (bytes_bits bytes)
    → All IsByte bytes
    → finish w ≡ ok bytes
Holds-finish w bytes at h =
    let (step, same) =
      Holds-whole w (bytes_bits bytes) (length bytes) at (length-bytes_bits bytes) in
    step ∙ ap ok (bytes_bits-injective w.writer bytes at.bytes h same)

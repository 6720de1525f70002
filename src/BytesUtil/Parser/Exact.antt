-- ===== src/BytesUtil/Parser/Exact.antt =====
-- `Read::read_exact` of a bit reader, at any position in a byte.
use native.Mathlib.Nat.{mul-le-mul_right, mul-le-mul_left, le_trans}
use video.Base.{
  ℕ, suc, ◌+◌, ◌-◌, ◌*◌, ◌%◌, ◌^◌, ◌≤◌, ◌<◌, ◌≡◌, refl, sym, ap, ◌∙◌, subst, arith, Bool, true,
  false, inl, inr, List, [], ◌∷◌, ◌++◌, append_assoc, ok, bit_or, le→ltb, if◌then◌else◌, length,
  take, drop, All, All-drop, Bool-cases, take-append_length, drop-append_length, ==_iff,
}
use video.Base.Arith.{bit_or-low, two_pow-suc, two_pow_pos}
use video.Io.{IsByte, remaining}
use video.ByteOrder.{ByteOrder}
use video.BytesUtil.Bits.{to_bits, of_bits, bytes_bits, bit_value, of_bits-to_bits, length-to_bits}
use video.BytesUtil.Bits.Prefix.{bytes_bits-prefix}
use video.BytesUtil.BitReader.{BitReader, is_aligned, read, read_byte_loop, read_bytes_loop}
use video.BytesUtil.BitReader.View.{view}
use video.BytesUtil.BitReader.Seek.Forward.{drop-drop}
use video.BytesUtil.Parser.{◌>>=◌, pure, read_exact, read_be, read_le, read_u8, byte_of}
use video.BytesUtil.Parser.Reads.{At, Reads, Reads-read_bit, Reads-map}

doubled : (byte n : ℕ) → (byte + 1) * 2 ^ suc n ≡ (byte * 2 + 2) * 2 ^ n
doubled byte n = ap (λ (t : ℕ). (byte + 1) * t) (two_pow-suc n) ∙ grind arith

-- There is room for one bit more.
room :
    (byte n : ℕ) (b : Bool)
    → (byte + 1) * 2 ^ suc n ≤ 256
    → (byte * 2 + bit_value b + 1) * 2 ^ n ≤ 256
room byte n true h =
    subst (λ t. t ≤ 256) (doubled byte n ∙ ap (λ (t : ℕ). t * 2 ^ n) (omega arith)) h
room byte n false h =
    le_trans (mul-le-mul_right (2 ^ n) more) (subst (λ t. t ≤ 256) (doubled byte n) h)
  where
    more : byte * 2 + 0 + 1 ≤ byte * 2 + 2
    more = omega arith

low : (byte n : ℕ) → (byte + 1) * 2 ^ suc n ≤ 256 → byte < 128
low byte n h =
    let some : (byte * 2 + 2) * 1 ≤ (byte * 2 + 2) * 2 ^ n =
      mul-le-mul_left (byte * 2 + 2) (two_pow_pos n) in
    omega (arith, some, doubled byte n, h)

shifted :
    (byte : ℕ) (b : Bool)
    → byte < 128
    → bit_or (byte * 2 % 256) (if b then 1 else 0) ≡ byte * 2 + bit_value b
shifted byte true h =
    ap (λ k. bit_or k 1) (omega (arith, h)) ∙ bit_or-low 1 byte 1 (omega arith) ∙ omega arith
shifted byte false h =
    ap (λ k. bit_or k 0) (omega (arith, h)) ∙ bit_or-low 1 byte 0 (omega arith) ∙ omega arith

-- The bits of a byte, the highest first: those that are read make the number so far.
read_byte_loop-Reads :
    (bits : List Bool) (byte : ℕ)
    → (byte + 1) * 2 ^ length bits ≤ 256
    → Reads (read_byte_loop (length bits) byte) (of_bits byte bits) bits
unfolding read_byte_loop of_bits
read_byte_loop-Reads [] byte h = record { run = λ r rest at. (r, refl, at) }
read_byte_loop-Reads (b ∷ bits) byte h = record {
  run = λ r rest at.
      let (r₁, step, at₁) = (Reads-read_bit b).run r (bits ++ rest) at in
      let (r₂, steps, at₂) =
        (read_byte_loop-Reads bits (byte * 2 + bit_value b) (room byte (length bits) b h)).run r₁
          rest at₁ in
      (
        r₂,
        rw step (
            ap (λ k. read_byte_loop (length bits) k r₁) (shifted byte b (low byte (length bits) h))
            ∙ steps),
        at₂,
      );
}

read_byte-Reads : (b : ℕ) → IsByte b → Reads (read_byte_loop 8 0) b (to_bits 8 b)
read_byte-Reads b h =
    subst (λ v. Reads (read_byte_loop 8 0) v (to_bits 8 b)) number
      (subst (λ n. Reads (read_byte_loop n 0) (of_bits 0 (to_bits 8 b)) (to_bits 8 b))
        (length-to_bits 8 b)
        (read_byte_loop-Reads (to_bits 8 b) 0
          (subst (λ (n : ℕ). (0 + 1) * 2 ^ n ≤ 256) (sym (length-to_bits 8 b)) (omega arith))))
  where
    number : of_bits 0 (to_bits 8 b) ≡ b
    number = of_bits-to_bits 8 0 b ∙ omega (arith, h)

read_bytes-Reads :
    (bytes : List ℕ)
    → All IsByte bytes
    → Reads (read_bytes_loop (length bytes)) bytes (bytes_bits bytes)
unfolding read_bytes_loop bytes_bits
read_bytes-Reads [] h = record { run = λ r rest at. (r, refl, at) }
read_bytes-Reads (b ∷ bytes) (h, hs) = record {
  run = λ r rest at.
      let (r₁, step, at₁) =
        (read_byte-Reads b h).run r (bytes_bits bytes ++ rest)
          (subst (λ t. At r t) (append_assoc (to_bits 8 b) (bytes_bits bytes) rest) at) in
      let (r₂, steps, at₂) = (read_bytes-Reads bytes hs).run r₁ rest at₁ in
      (r₂, rw step (rw steps refl), at₂);
}

-- At a byte boundary the bytes are taken off the cursor.
read-boundary :
    (bytes : List ℕ) (r : BitReader) (rest : List Bool)
    → All IsByte bytes
    → is_aligned r ≡ true
    → At r (bytes_bits bytes ++ rest)
    → (r' : BitReader) × (read (length bytes) r ≡ ok (bytes, r')) × At r' rest
unfolding read to_bits
read-boundary bytes r rest h e at =
    let here : r.bit_pos ≡ 0 = (==_iff _ _).0 e in
    let boundary : bytes_bits (remaining r.source) ≡ view r =
      ap (λ n. to_bits ((8 - n) % 8) r.current_byte ++ bytes_bits (remaining r.source))
        (sym here) in
    let (ys, same, behind) =
      bytes_bits-prefix bytes (remaining r.source) rest h
        (All-drop IsByte r.source.position r.source.inner at.bytes) (boundary ∙ at.seen) in
    let front : take (length bytes) (remaining r.source) ≡ bytes =
      ap (λ t. take (length bytes) t) same ∙ take-append_length bytes ys in
    let left : drop (r.source.position + length bytes) r.source.inner ≡ ys =
      sym (drop-drop r.source.position (length bytes) r.source.inner)
      ∙ ap (λ t. drop (length bytes) t) same
      ∙ drop-append_length bytes ys in
    (
      record r { source = record r.source { position = r.source.position + length bytes } },
      rw (e, read)
          (ap
            (λ t. ok (
              t,
              record r { source = record r.source { position = r.source.position + length t } },
            ))
            front),
      record {
        valid = at.valid;
        seen =
            ap
              (λ n.
                to_bits ((8 - n) % 8) r.current_byte
                ++ bytes_bits (drop (r.source.position + length bytes) r.source.inner))
              here
            ∙ ap (λ t. bytes_bits t) left
            ∙ behind;
        current = λ off. absurd (off here);
        bytes = at.bytes;
      },
    )

read-inside :
    (bytes : List ℕ) (r r' : BitReader)
    → is_aligned r ≡ false
    → read_bytes_loop (length bytes) r ≡ ok (bytes, r')
    → read (length bytes) r ≡ ok (bytes, r')
unfolding read
read-inside bytes r r' e step = rw (e, read) step

read-Reads :
    (bytes : List ℕ) → All IsByte bytes → Reads (read (length bytes)) bytes (bytes_bits bytes)
read-Reads bytes h = record {
  run = λ r rest at. elim (Bool-cases (is_aligned r)) [
    | inl e ↦ read-boundary bytes r rest h e at
    | inr e ↦
        let (r', step, at') = (read_bytes-Reads bytes h).run r rest at in
        (r', read-inside bytes r r' e step, at')
  ];
}

pub Reads-read_exact :
    (bytes : List ℕ) → All IsByte bytes → Reads (read_exact (length bytes)) bytes (bytes_bits bytes)
unfolding read_exact ◌>>=◌ pure
Reads-read_exact bytes h = record {
  run = λ r rest at.
      let (r', step, at') = (read-Reads bytes h).run r rest at in
      (r', rw step (rw (le→ltb (length bytes) (length bytes) (omega arith)) refl), at');
}

-- `n` bytes in the order of the reader, of a number that fits them.
exact-width :
    (n : ℕ) (bytes : List ℕ)
    → length bytes ≡ n
    → All IsByte bytes
    → Reads (read_exact n) bytes (bytes_bits bytes)
exact-width n bytes e h =
    subst (λ k. Reads (read_exact k) bytes (bytes_bits bytes)) e (Reads-read_exact bytes h)

pub Reads-read_be :
    (bo : ByteOrder) (n v : ℕ) → v < 256 ^ n → Reads (read_be bo n) v (bytes_bits (bo.to_be n v))
unfolding read_be
Reads-read_be bo n v h =
    subst (λ t. Reads (read_be bo n) t (bytes_bits (bo.to_be n v))) (bo.from_be-to_be n v h)
      (Reads-map bo.from_be
        (exact-width n (bo.to_be n v) (bo.length-to_be n v) (bo.to_be-bytes n v)))

pub Reads-read_le :
    (bo : ByteOrder) (n v : ℕ) → v < 256 ^ n → Reads (read_le bo n) v (bytes_bits (bo.to_le n v))
unfolding read_le
Reads-read_le bo n v h =
    subst (λ t. Reads (read_le bo n) t (bytes_bits (bo.to_le n v))) (bo.from_le-to_le n v h)
      (Reads-map bo.from_le
        (exact-width n (bo.to_le n v) (bo.length-to_le n v) (bo.to_le-bytes n v)))

pub Reads-read_u8 : (v : ℕ) → v < 256 → Reads read_u8 v (bytes_bits (v ∷ []))
unfolding read_u8 byte_of
Reads-read_u8 v h = Reads-map byte_of (Reads-read_exact (v ∷ []) (h, tt))

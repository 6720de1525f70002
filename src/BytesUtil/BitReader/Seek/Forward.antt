-- ===== src/BytesUtil/BitReader/Seek/Forward.antt =====
-- Seeking forward skips bits.
use video.Base.{
  ℕ, zero, suc, ◌+◌, ◌-◌, ◌*◌, ◌/◌, ◌%◌, ◌≤◌, ◌<◌, ◌≡◌, ◌≢◌, refl, ap, ◌∙◌, sym, subst, arith, Bool,
  true, false, inl, inr, List, [], ◌∷◌, ◌++◌, ok, lt→ltb, if◌then◌else◌, length, length-drop, drop,
  All, Bool-cases, ==_iff,
}
use video.Base.Int.{pos}
use video.Io.{IsByte, Cursor, remaining, read_one_some}
use video.BytesUtil.Bits.{to_bits, bytes_bits, length-bytes_bits}
use video.BytesUtil.BitReader.{BitReader, is_aligned, update_byte}
use video.BytesUtil.BitReader.View.{IsValid}
use video.BytesUtil.BitReader.Seek.{
  seek_bits, move_bits, settle, bit_stream_position, seek_cursor, SeekFrom, byte_move, back,
  move_from,
}
use video.BytesUtil.Parser.Reads.{IsCurrent, At}

drop-nil : {A : Type 0} (n : ℕ) → drop {A = A} n [] ≡ []
drop-nil zero = refl
drop-nil (suc n) = refl

one_more : (m n : ℕ) → suc (m + n) ≡ suc m + n
one_more m n = omega arith

pub drop-drop : {A : Type 0} (m n : ℕ) (xs : List A) → drop n (drop m xs) ≡ drop (m + n) xs
drop-drop zero n xs = ap (λ (k : ℕ). drop k xs) (omega arith)
drop-drop (suc m) n [] = drop-nil n ∙ sym (drop-nil (suc m + n))
drop-drop (suc m) n (x ∷ xs) = drop-drop m n xs ∙ ap (λ (k : ℕ). drop k (x ∷ xs)) (one_more m n)

-- Behind the first `k` bits of a number of `k + m` bits.
drop-to_bits : (k m x : ℕ) (ys : List Bool) → drop k (to_bits (k + m) x ++ ys) ≡ to_bits m x ++ ys
unfolding to_bits
drop-to_bits zero m x ys = ap (λ n. to_bits n x ++ ys) (omega arith)
drop-to_bits (suc k) m x ys =
    ap (λ n. drop (suc k) (to_bits n x ++ ys)) (sym (one_more k m)) ∙ drop-to_bits k m x ys

drop-byte :
    (b x : ℕ) (ys : List Bool) → b ≤ 8 → drop b (to_bits 8 x ++ ys) ≡ to_bits (8 - b) x ++ ys
drop-byte b x ys h =
    ap (λ n. drop b (to_bits n x ++ ys)) (omega arith) ∙ drop-to_bits b (8 - b) x ys

-- Whole bytes first.
drop-bytes : (q : ℕ) (xs : List ℕ) → drop (q * 8) (bytes_bits xs) ≡ bytes_bits (drop q xs)
unfolding bytes_bits
drop-bytes zero xs = refl
drop-bytes (suc q) [] = drop-nil (suc q * 8)
drop-bytes (suc q) (x ∷ xs) =
    ap (λ k. drop k (to_bits 8 x ++ bytes_bits xs)) eight_more
    ∙ sym (drop-drop 8 (q * 8) (to_bits 8 x ++ bytes_bits xs))
    ∙ ap (λ t. drop (q * 8) t) (drop-to_bits 8 0 x (bytes_bits xs))
    ∙ drop-bytes q xs
  where
    eight_more : suc q * 8 ≡ 8 + q * 8
    eight_more = omega arith

-- A place in the bytes, as a number of bits.
drop-place :
    (t : ℕ) (xs : List ℕ) → drop t (bytes_bits xs) ≡ drop (t % 8) (bytes_bits (drop (t / 8) xs))
drop-place t xs =
    ap (λ k. drop k (bytes_bits xs)) parts
    ∙ sym (drop-drop (t / 8 * 8) (t % 8) (bytes_bits xs))
    ∙ ap (λ u. drop (t % 8) u) (drop-bytes (t / 8) xs)
  where
    parts : t ≡ t / 8 * 8 + t % 8
    parts = omega arith

-- The byte that a reader is in, and what is in front of it from there.
pub record Place (r : BitReader) (bits : List Bool) : Type 0 where
  pub byte : ℕ
  pub ahead : bits ≡ drop r.bit_pos (bytes_bits (drop byte r.source.inner))
  pub at : r.source.position ≡ (if is_aligned r then byte else suc byte)

At-Place : (r : BitReader) (bits : List Bool) → At r bits → Place r bits
unfolding bytes_bits to_bits
At-Place r bits at = elim (Bool-cases (is_aligned r)) [
  | inl e ↦
      let here : r.bit_pos ≡ 0 = (==_iff _ _).0 e in
      record {
        byte = r.source.position;
        ahead =
            sym at.seen
            ∙ ap (λ n. to_bits ((8 - n) % 8) r.current_byte ++ bytes_bits (remaining r.source)) here
            ∙ ap (λ n. drop n (bytes_bits (remaining r.source))) (sym here);
        at = rw e refl;
      }
  | inr e ↦
      let off : r.bit_pos ≢ 0 = ground arith in
      let i : IsCurrent r = at.current off in
      record { byte = i.before; ahead = inside i off; at = rw e i.behind }
]
  where
    pending_bits : r.bit_pos ≢ 0 → (8 - r.bit_pos) % 8 ≡ 8 - r.bit_pos
    pending_bits off = omega (arith, at.valid)

    inside :
        (i : IsCurrent r)
        → r.bit_pos ≢ 0
        → bits ≡ drop r.bit_pos (bytes_bits (drop i.before r.source.inner))
    inside i off =
        sym at.seen
        ∙ ap (λ n. to_bits n r.current_byte ++ bytes_bits (remaining r.source)) (pending_bits off)
        ∙ sym (
            drop-byte r.bit_pos r.current_byte (bytes_bits (remaining r.source))
              (omega (arith, at.valid)))
        ∙ ap (λ t. drop r.bit_pos (bytes_bits t)) (sym i.byte)

-- A reader that settles at a bit of a byte stands in front of the bits from there.
abbrev Settled : BitReader → BitReader → Type 0
Settled r r' =
    (settle r.source.position r ≡ ok (bit_stream_position r', r'))
    × At r' (drop r.bit_pos (bytes_bits (remaining r.source)))

settle-boundary : (r : BitReader) → All IsByte r.source.inner → is_aligned r ≡ true → Settled r r
unfolding settle bit_stream_position to_bits
settle-boundary r h e = (
  rw e (ap (λ (n : ℕ). ok (n, r)) whole),
  record {
    valid = omega (arith, here);
    seen =
        ap (λ n. to_bits ((8 - n) % 8) r.current_byte ++ bytes_bits (remaining r.source)) here
        ∙ ap (λ n. drop n (bytes_bits (remaining r.source))) (sym here);
    current = λ off. absurd (off here);
    bytes = h;
  },
)
  where
    here : r.bit_pos ≡ 0
    here = (==_iff _ _).0 e

    whole : r.source.position * 8 ≡ r.source.position * 8 + 8 - 8
    whole = omega arith

settle-inside :
    (r : BitReader) (x : ℕ) (xs : List ℕ)
    → IsValid r
    → All IsByte r.source.inner
    → is_aligned r ≡ false
    → remaining r.source ≡ x ∷ xs
    → (r' : BitReader) × Settled r r'
unfolding settle update_byte bit_stream_position bytes_bits
settle-inside r x xs v h e some =
    let (one, rest) = read_one_some r.source x xs some in
    (
      record r { source = record r.source { position = r.source.position + 1 }; current_byte = x },
      (
        rw e (
            rw one (
              ap
                (λ (n : ℕ). ok (
                  n,
                  record r {
                    source = record r.source { position = r.source.position + 1 };
                    current_byte = x;
                  },
                ))
                place)),
        record {
          valid = v;
          seen =
              ap
                (λ n.
                  to_bits n x
                  ++ bytes_bits (remaining (record r.source { position = r.source.position + 1 })))
                pending_bits
              ∙ ap (λ t. to_bits (8 - r.bit_pos) x ++ bytes_bits t) rest
              ∙ sym (drop-byte r.bit_pos x (bytes_bits xs) (omega (arith, v)))
              ∙ ap (λ t. drop r.bit_pos (bytes_bits t)) (sym some);
          current = λ _. record {
            before = r.source.position;
            behind = omega arith;
            byte = some ∙ ap (λ t. x ∷ t) (sym rest);
          };
          bytes = h;
        },
      ),
    )
  where
    pending_bits : (8 - r.bit_pos) % 8 ≡ 8 - r.bit_pos
    pending_bits = let off : r.bit_pos ≢ 0 = ground arith in omega (arith, v)

    place : r.source.position * 8 + r.bit_pos ≡ (r.source.position + 1) * 8 + r.bit_pos - 8
    place = omega arith

settle-At :
    (r : BitReader)
    → IsValid r
    → All IsByte r.source.inner
    → r.bit_pos ≤ 8 * length (remaining r.source)
    → (r' : BitReader) × Settled r r'
settle-At r v h room = elim (Bool-cases (is_aligned r)) [
  | inl e ↦ (r, settle-boundary r h e)
  | inr e ↦
      let off : r.bit_pos ≢ 0 = ground arith in
      inside (remaining r.source) refl e (omega (arith, room, off))
]
  where
    inside :
        (bs : List ℕ)
        → remaining r.source ≡ bs
        → is_aligned r ≡ false
        → 0 < length (remaining r.source)
        → (r' : BitReader) × Settled r r'
    inside [] some e room = absurd (omega (arith, room, ap length some))
    inside (x ∷ xs) some e room = settle-inside r x xs v h e some

move_back :
    (base q : ℕ) (c : Cursor)
    → move_from (suc base) (back true (pos q)) c ≡ ok (base + q, record c { position = base + q })
unfolding move_from
move_back base zero c =
    rw (lt→ltb 0 (suc base) (omega arith))
      (ap (λ (n : ℕ). ok (n, record c { position = n })) one_less)
  where
    one_less : suc base - (0 + 1) ≡ base + 0
    one_less = omega arith
move_back base (suc q) c = ap (λ (n : ℕ). ok (n, record c { position = n })) one_more_back
  where
    one_more_back : suc base + q ≡ base + suc q
    one_more_back = omega arith

module _ (r : BitReader) (bits : List Bool) (place : Place r bits) (t : ℕ) where
  abbrev moved : BitReader
  moved = record r { source = record r.source { position = place.byte + t / 8 }; bit_pos = t % 8 }

  seek_cursor_lem :
      seek_cursor (SeekFrom.current (byte_move (pos t) r)) r.source
      ≡ ok (place.byte + t / 8, record r.source { position = place.byte + t / 8 })
  unfolding seek_cursor move_from
  seek_cursor_lem = elim (Bool-cases (is_aligned r)) [
    | inl e ↦ rw e (ap (λ (n : ℕ). ok (n + t / 8, record r.source { position = n + t / 8 })) (at e))
    | inr e ↦ rw e (
        ap (λ n. move_from n (back true (pos (t / 8))) r.source) (at e)
        ∙ move_back place.byte (t / 8) r.source)
  ]
    where
      at :
          {b : Bool}
          → is_aligned r ≡ b
          → r.source.position ≡ (if b then place.byte else suc place.byte)
      at e = place.at ∙ ap (λ b. if b then place.byte else suc place.byte) e

  move_bits_lem : move_bits (pos t) r ≡ settle (place.byte + t / 8) moved
  unfolding move_bits
  move_bits_lem =
      rw seek_cursor_lem
        (ap (λ n. settle (place.byte + t / 8) (record moved { bit_pos = n })) (omega arith))

  moved-ahead :
      (n : ℕ) → r.bit_pos + n ≡ t → drop (t % 8) (bytes_bits (remaining moved.source)) ≡ drop n bits
  moved-ahead n e =
      ap (λ xs. drop (t % 8) (bytes_bits xs)) (sym (drop-drop place.byte (t / 8) r.source.inner))
      ∙ sym (drop-place t (drop place.byte r.source.inner))
      ∙ ap (λ k. drop k (bytes_bits (drop place.byte r.source.inner))) (sym e)
      ∙ sym (drop-drop r.bit_pos n (bytes_bits (drop place.byte r.source.inner)))
      ∙ ap (λ xs. drop n xs) (sym place.ahead)

  moved-room :
      (n : ℕ)
      → r.bit_pos + n ≡ t
      → 0 < n
      → n ≤ length bits
      → t % 8 ≤ 8 * length (remaining moved.source)
  moved-room n e some h = omega (
    arith,
    e,
    some,
    h,
    ap length place.ahead,
    length-drop r.bit_pos (bytes_bits (drop place.byte r.source.inner)),
    length-bytes_bits (drop place.byte r.source.inner),
    length-drop place.byte r.source.inner,
    length-drop (place.byte + t / 8) r.source.inner,
  )

  move_bits-At :
      (n : ℕ)
      → r.bit_pos + n ≡ t
      → 0 < n
      → n ≤ length bits
      → All IsByte r.source.inner
      → (r' : BitReader) × (move_bits (pos t) r ≡ ok (bit_stream_position r', r'))
        × At r' (drop n bits)
  move_bits-At n e some h hb =
      let (r', (step, at)) = settle-At moved (omega arith) hb (moved-room n e some h) in
      (r', move_bits_lem ∙ step, subst (λ xs. At r' xs) (moved-ahead n e) at)

-- A reader of bytes in front of the given bits that seeks forward by at most as many bits as
-- there are, from any position in a byte, stands in front of the bits behind them, and returns
-- its new position in bits.
pub seek_bits-forward :
    (n : ℕ) (r : BitReader) (bits : List Bool)
    → At r bits
    → n ≤ length bits
    → (r' : BitReader) × (seek_bits (pos n) r ≡ ok (bit_stream_position r', r'))
      × At r' (drop n bits)
unfolding seek_bits
seek_bits-forward zero r bits at h = (r, refl, at)
seek_bits-forward (suc n) r bits at h =
    move_bits-At r bits (At-Place r bits at) (r.bit_pos + suc n) (suc n) refl (omega arith) h
      at.bytes

-- ===== src/BytesUtil/Parser/Takes.antt =====
-- What a parser makes of all the bits that are left.
use video.Base.{
  ℕ, ◌-◌, ◌%◌, ◌≡◌, refl, ap, ◌∙◌, sym, subst, arith, Bool, List, [], ◌++◌, ok, length,
  length-append, All, All-drop, drop-append_length,
}
use video.Io.{IsByte, remaining}
use video.BytesUtil.Bits.{to_bits, bytes_bits, length-to_bits, length-bytes_bits, to_bits-zero}
use video.BytesUtil.Bits.Prefix.{bytes_bits-injective}
use video.BytesUtil.BytesCursor.{extract_remaining, extract_remaining-all}
use video.BytesUtil.BitReader.{BitReader}
use video.BytesUtil.BitReader.View.{view, pending}
use video.BytesUtil.BitReader.Seek.Forward.{seek_bits-forward}
use video.BytesUtil.Parser.{Parser, ◌>>=◌, pure, skip, take_rest}
use video.BytesUtil.Parser.Reads.{At, Reads}

pub record Takes {A : Type 0} (p : Parser A) (a : A) (bits : List Bool) : Type 0 where
  pub run :
      (r : BitReader)
      → At r bits
      → (r' : BitReader) × (p r ≡ ok (a, r')) × (remaining r'.source ≡ [])

pub Takes->>= :
    {A B : Type 0} {p : Parser A} (f : A → Parser B) {a : A} {b : B} {xs ys : List Bool}
    → Reads p a xs
    → Takes (f a) b ys
    → Takes (p >>= f) b (xs ++ ys)
unfolding ◌>>=◌
Takes->>= f {ys} h k = record {
  run = λ r at.
      let (r₁, step, at₁) = h.run r ys at in
      let (r₂, steps, none_left) = k.run r₁ at₁ in (r₂, rw step steps, none_left);
}

-- In front of whole bytes a reader is at a byte boundary, and they are those of its cursor.
pub At-bytes :
    (r : BitReader) (bytes : List ℕ)
    → At r (bytes_bits bytes)
    → All IsByte bytes
    → (r.bit_pos ≡ 0) × (remaining r.source ≡ bytes)
At-bytes r bytes at h = (
  here,
  bytes_bits-injective (remaining r.source) bytes
      (All-drop IsByte r.source.position r.source.inner at.bytes) h (sym boundary ∙ at.seen),
)
  where
    here : r.bit_pos ≡ 0
    here = omega (
      arith,
      at.valid,
      ap length at.seen,
      length-append (to_bits (pending r) r.current_byte) (bytes_bits (remaining r.source)),
      length-to_bits (pending r) r.current_byte,
      length-bytes_bits (remaining r.source),
      length-bytes_bits bytes,
    )

    boundary : view r ≡ bytes_bits (remaining r.source)
    boundary =
        ap (λ n. to_bits ((8 - n) % 8) r.current_byte ++ bytes_bits (remaining r.source)) here
        ∙ ap (λ t. t ++ bytes_bits (remaining r.source)) (to_bits-zero r.current_byte)

pub Takes-take_rest :
    {B : Type 0} (f : List ℕ → B) (bytes : List ℕ)
    → All IsByte bytes
    → Takes (take_rest >>= λ rest. pure (f rest)) (f bytes) (bytes_bits bytes)
unfolding ◌>>=◌ pure take_rest
Takes-take_rest f bytes h = record {
  run = λ r at.
      let (_, same) = At-bytes r bytes at h in
      let (all, none_left) = extract_remaining-all r.source in
      (
        record r { source = (extract_remaining r.source).1 },
        ap (λ t. ok (f t, record r { source = (extract_remaining r.source).1 })) (all ∙ same),
        none_left,
      );
}

-- `skip` skips bits of any value.
pub Reads-skip : (bits : List Bool) → Reads (skip (length bits)) tt bits
unfolding skip ◌>>=◌ pure
Reads-skip bits = record {
  run = λ r rest at.
      let (r', step, at') =
        seek_bits-forward (length bits) r (bits ++ rest) at
          (omega (arith, length-append bits rest)) in
      (r', rw step refl, subst (λ t. At r' t) (drop-append_length bits rest) at');
}

-- ===== src/BytesUtil/Writer/Writes.antt =====
-- What a function that writes whole bytes puts into a vector.
use video.Base.{
  ℕ, ◌+◌, ◌*◌, ◌^◌, ◌<◌, ◌≡◌, ap, ◌∙◌, sym, subst, arith, List, [], ◌∷◌, ◌++◌, ok, All, All-append,
  concat_map,
}
use video.Io.{IsByte}
use video.ByteOrder.{ByteOrder}
use video.BytesUtil.Bits.{to_bits, bytes_bits, bytes_bits-append, bytes_bits-one}
use video.BytesUtil.Bits.Fields.{to_bits-append}
use video.BytesUtil.BitWriter.{BitWriter, new, write_bits, finish}
use video.BytesUtil.BitWriter.View.{new-IsValid, view-new}
use video.BytesUtil.Writer.{Put, ◌>>◌, done, put_each, write_all, write_u8, write_be, write_le}
use video.BytesUtil.Writer.Puts.{
  Puts, Holds, Puts->>, Puts-done, Puts-write_bits, Puts-write_all, Puts-write_u8, Puts-write_be,
  Puts-write_le, Holds-finish,
}

pub record Writes (q : Put) (bytes : List ℕ) : Type 0 where
  pub puts : Puts q (bytes_bits bytes)
  pub small : All IsByte bytes

pub Writes->> :
    {p q : Put} {xs ys : List ℕ} → Writes p xs → Writes q ys → Writes (p >> q) (xs ++ ys)
Writes->> {p} {q} {xs} {ys} h k = record {
  puts = subst (λ t. Puts (p >> q) t) (sym (bytes_bits-append xs ys)) (Puts->> h.puts k.puts);
  small = All-append IsByte xs ys h.small k.small;
}

pub Writes-done : Writes done []
unfolding bytes_bits
Writes-done = record { puts = Puts-done; small = tt }

pub Writes-write_u8 : (v : ℕ) → v < 256 → Writes (write_u8 v) (v ∷ [])
Writes-write_u8 v h = record { puts = Puts-write_u8 v h; small = (h, tt) }

pub Writes-write_be : (bo : ByteOrder) (n v : ℕ) → Writes (write_be bo n v) (bo.to_be n v)
Writes-write_be bo n v = record { puts = Puts-write_be bo n v; small = bo.to_be-bytes n v }

pub Writes-write_le : (bo : ByteOrder) (n v : ℕ) → Writes (write_le bo n v) (bo.to_le n v)
Writes-write_le bo n v = record { puts = Puts-write_le bo n v; small = bo.to_le-bytes n v }

pub Writes-write_all : (buf : List ℕ) → All IsByte buf → Writes (write_all buf) buf
Writes-write_all buf h = record { puts = Puts-write_all buf h; small = h }

-- A byte of one field.
pub Writes-byte : (v : ℕ) → v < 256 → Writes (write_bits v 8) (v ∷ [])
Writes-byte v h = record {
  puts =
      subst (λ t. Puts (write_bits v 8) t) (sym (bytes_bits-one v))
        (Puts-write_bits 8 v (omega arith) h);
  small = (h, tt);
}

-- A byte of two fields, high and low.
pub Writes-two_fields :
    (a m v n : ℕ)
    → m + n ≡ 8
    → a < 2 ^ m
    → v < 2 ^ n
    → a * 2 ^ n + v < 256
    → Writes (write_bits a m >> write_bits v n) ((a * 2 ^ n + v) ∷ [])
Writes-two_fields a m v n e ha hv h = record {
  puts =
      subst (λ t. Puts (write_bits a m >> write_bits v n) t) bits
        (Puts->> (Puts-write_bits m a (omega (arith, e)) ha)
          (Puts-write_bits n v (omega (arith, e)) hv));
  small = (h, tt);
}
  where
    bits : to_bits m a ++ to_bits n v ≡ bytes_bits ((a * 2 ^ n + v) ∷ [])
    bits =
        sym (to_bits-append m n a v hv)
        ∙ ap (λ k. to_bits k (a * 2 ^ n + v)) e
        ∙ sym (bytes_bits-one _)

-- One value after the other.
pub Writes-put_each :
    {A : Type 0} (put : A → Put) (bytes : A → List ℕ) (xs : List A)
    → All (λ x. Writes (put x) (bytes x)) xs
    → Writes (put_each put xs) (concat_map bytes xs)
unfolding put_each
Writes-put_each put bytes [] hs = Writes-done
Writes-put_each put bytes (x ∷ xs) (h, hs) = Writes->> h (Writes-put_each put bytes xs hs)

-- Its bytes stand behind those of the vector.
pub Writes-finish :
    {q : Put} (before : List ℕ) {written : List ℕ}
    → Writes q written
    → All IsByte before
    → (w : BitWriter) × (q (new before) ≡ ok w) × (finish w ≡ ok (before ++ written))
Writes-finish before {written} h hb =
    let (w, step, at) =
      h.puts.run (new before) (bytes_bits before)
        (record { valid = new-IsValid before; seen = view-new before; bytes = hb }) in
    (
      w,
      step,
      Holds-finish w (before ++ written)
          (subst (λ t. Holds w t) (sym (bytes_bits-append before written)) at)
          (All-append IsByte before written hb h.small),
    )

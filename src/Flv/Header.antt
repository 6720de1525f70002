-- ===== src/Flv/Header.antt =====
-- A header in the format's form, as `demux` reads it.
use video.Base.{
  ℕ, ◌+◌, ◌-◌, ◌/◌, ◌%◌, ◌^◌, ◌<◌, ◌≡◌, refl, arith, Bool, true, false, List, [], ◌∷◌, ◌++◌, ok,
  le→ltb, ◌==◌, if◌then◌else◌, Bool-cases, inl, inr, length, length-append, take-append_length,
  drop-append_length, append_assoc,
}
use video.Io.{Io, read_u8}
use video.ByteOrder.{ByteOrder}
use video.ByteOrder.Laws.{read_be-to_be}
use video.BytesUtil.BytesCursor.{extract_bytes}
use video.Flv.{FlvHeader, flv_signature, read_extra, demux}

abbrev pub flag_bits : Bool → Bool → ℕ
flag_bits audio_flag video_flag = (if audio_flag then 4 else 0) + (if video_flag then 1 else 0)

abbrev pub header_bytes : ByteOrder → FlvHeader → List ℕ
header_bytes bo h =
    bo.to_be 3 flv_signature
    ++ (h.version
        ∷ flag_bits h.has_audio h.has_video
        ∷ (bo.to_be 4 (length h.extra + 9) ++ h.extra))

-- What a read of extra data returns.
abbrev found : List ℕ → List ℕ → Io (List ℕ × List ℕ)
found extra rest = ok (extra, rest)

read_extra-front :
    (extra rest : List ℕ) → read_extra (length extra + 9) (extra ++ rest) ≡ ok (extra, rest)
unfolding read_extra extract_bytes
read_extra-front extra rest = elim (Bool-cases (length extra == 0)) [
  | inl e ↦ rw (le→ltb (length extra + 9) 9 (omega arith)) (rw back (rw e (nothing extra e)))
  | inr e ↦ rw (le→ltb (length extra + 9) 9 (omega arith)) (
      rw back (
        rw e (
          rw
            (le→ltb (length (extra ++ rest) - 0) (length extra)
              (omega (arith, length-append extra rest)))
            (rw (zero_add, take-append_length extra rest, drop-append_length extra rest)))))
]
  where
    back : length extra + 9 - 9 ≡ length extra
    back = omega arith

    zero_add : 0 + length extra ≡ length extra
    zero_add = omega arith

    nothing : (xs : List ℕ) → (length xs == 0) ≡ true → found [] (xs ++ rest) ≡ found xs rest
    nothing [] e = refl
    nothing (x ∷ xs) e = absurd (ground arith)

-- The bytes of a header in the format's form, whose extra data fit a 32-bit offset, are read as
-- that header: version, both flags and the extra data; the bytes behind them are left.
pub demux-header_bytes :
    (bo : ByteOrder) (h : FlvHeader) (rest : List ℕ)
    → length h.extra + 9 < 2 ^ 32
    → demux bo (header_bytes bo h ++ rest) ≡ ok (h, rest)
unfolding demux read_u8
demux-header_bytes bo h rest small = rw regroup (
    rw
      (read_be-to_be bo 3 flv_signature
        (h.version
          ∷ flag_bits h.has_audio h.has_video
          ∷ (bo.to_be 4 (length h.extra + 9) ++ (h.extra ++ rest)))
        (omega arith))
      (rw (read_be-to_be bo 4 (length h.extra + 9) (h.extra ++ rest) (omega (arith, small))) (
        rw (read_extra-front h.extra rest) (λ i. ok (
          record {
            version = h.version;
            has_audio = audio_flag h.has_audio h.has_video i;
            has_video = video_flag h.has_audio h.has_video i;
            extra = h.extra;
          },
          rest,
        )))))
  where
    regroup :
        header_bytes bo h ++ rest
        ≡ bo.to_be 3 flv_signature
          ++ (h.version
              ∷ flag_bits h.has_audio h.has_video
              ∷ (bo.to_be 4 (length h.extra + 9) ++ (h.extra ++ rest)))
    regroup = simp append_assoc

    audio_flag : (a v : Bool) → (flag_bits a v / 4 % 2 == 1) ≡ a
    audio_flag true true = refl
    audio_flag true false = refl
    audio_flag false true = refl
    audio_flag false false = refl

    video_flag : (a v : Bool) → (flag_bits a v % 2 == 1) ≡ v
    video_flag true true = refl
    video_flag true false = refl
    video_flag false true = refl
    video_flag false false = refl

-- ===== src/Rtmp/Chunk/Headers.antt =====
-- The headers that the encoder writes, as the decoder reads them.
use video.Base.{
  ℕ, zero, suc, ◌+◌, ◌-◌, ◌*◌, ◌/◌, ◌%◌, ◌^◌, ◌≤◌, ◌<◌, ◌≡◌, refl, ap, ◌∙◌, arith, false, List, ◌∷◌,
  ◌++◌, append_assoc, ok, ◌>>=◌, leb, le→leb, lt→leb, ◌==◌, if◌then◌else◌, Bool-cases, inl, inr,
  bit_or, some,
}
use native.Mathlib.Decide.{dec_le}
use video.Base.Arith.{bit_or-low}
use video.Base.Maps.{get, nat_eq}
use video.Io.{read_u8}
use video.ByteOrder.{ByteOrder}
use video.ByteOrder.Laws.{read_be-to_be, read_le-to_le}
use video.Rtmp.Messages
use video.Rtmp.Messages.{from_u8-to_u8}
use video.Rtmp.Chunk.Define.{
  ChunkType, ChunkMessageHeader, type0, type1, type2, type3, to_u8, from_u8-to_u8 as type_of_u8,
  is_extended_timestamp,
}
use video.Rtmp.Chunk.Encoder.{write_basic_header, write_message_header, write_extended_timestamp}
use video.Rtmp.Chunk.Decoder.{
  ChunkDecoder, read_csid, read_header, read_extended, read_length, read_type0, read_type3,
  previous_header, max_partial_chunk_size,
}

read_csid-plain : (n : ℕ) (bs : List ℕ) → 2 ≤ n → read_csid n bs ≡ ok (n, bs)
unfolding read_csid
read_csid-plain zero bs h = absurd (omega arith)
read_csid-plain (suc zero) bs h = absurd (omega arith)
read_csid-plain (suc (suc n)) bs h = refl

-- The first byte holds the format and six bits of the chunk stream id.
read_header-first :
    (f : ChunkType) (low byte : ℕ) (bs : List ℕ)
    → low < 64
    → byte ≡ to_u8 f * 64 + low
    → read_header (byte ∷ bs) ≡ (
        read_csid low bs >>= λ (csid, rest).
        ok (record { format = f; chunk_stream_id = csid }, rest))
unfolding read_header read_u8 to_u8
read_header-first f low byte bs h e = rw (kind f e, bits f e) (rw (type_of_u8 f))
  where
    kind : (g : ChunkType) → byte ≡ to_u8 g * 64 + low → byte / 2 ^ 6 % 4 ≡ to_u8 g
    kind type0 p = omega arith
    kind type1 p = omega arith
    kind type2 p = omega arith
    kind type3 p = omega arith

    bits : (g : ChunkType) → byte ≡ to_u8 g * 64 + low → byte % 2 ^ 6 ≡ low
    bits type0 p = omega arith
    bits type1 p = omega arith
    bits type2 p = omega arith
    bits type3 p = omega arith

shifted : (f : ChunkType) → to_u8 f * 64 % 256 ≡ to_u8 f * 64
unfolding to_u8
shifted type0 = refl
shifted _ = refl

-- The two ways to write the first byte.
first_or :
    (f : ChunkType) (low : ℕ) → low < 64 → bit_or (to_u8 f * 64 % 256) low ≡ to_u8 f * 64 + low
first_or f low h = ap (λ t. bit_or t low) (shifted f) ∙ bit_or-low 6 (to_u8 f) low h

read_csid-long :
    (csid : ℕ) (rest : List ℕ)
    → 64 ≤ csid
    → csid < 64 + 65536
    → read_csid 1 ((csid - 64) % 256 % 256 ∷ (csid - 64) / 256 % 256 ∷ rest) ≡ ok (csid, rest)
unfolding read_csid read_u8
read_csid-long csid rest lo hi = ap (λ n. ok (n, rest)) (omega arith)

read_csid-medium :
    (csid : ℕ) (rest : List ℕ)
    → 64 ≤ csid
    → csid < 64 + 256
    → read_csid 0 ((csid - 64) % 256 ∷ rest) ≡ ok (csid, rest)
unfolding read_csid read_u8
read_csid-medium csid rest lo hi = ap (λ n. ok (n, rest)) (omega arith)

-- A chunk stream id that a header can carry: 0 and 1 in its place announce longer forms.
pub record IsCsid (csid : ℕ) : Type 0 where
  pub low : 2 ≤ csid
  pub high : csid < 64 + 65536

-- A basic header of any type, with a chunk stream id of 2 to 65599, is read back as it was
-- written, in each of its three forms, and the bytes behind it are left.
pub read_header-write_basic_header :
    (f : ChunkType) (csid : ℕ) (rest : List ℕ)
    → IsCsid csid
    → read_header (write_basic_header f csid ++ rest)
      ≡ ok (record { format = f; chunk_stream_id = csid }, rest)
unfolding write_basic_header
read_header-write_basic_header f csid rest h = elim (dec_le (64 + 255) csid) [
  | yes long ↦ rw (le→leb (64 + 255) csid long) (
      read_header-first f 1 _ _ (omega arith) (first_or f 1 (omega arith))
      ∙ rw (read_csid-long csid rest (omega arith) h.high))
  | no below ↦ elim (dec_le 64 csid) [
    | yes medium ↦
        rw (lt→leb (64 + 255) csid (omega arith), le→leb 64 csid medium)
          (read_header-first f 0 _ _ (omega arith) (shifted f ∙ omega arith)
            ∙ rw (read_csid-medium csid rest medium (omega arith)))
    | no short ↦
        rw (lt→leb (64 + 255) csid (omega arith), lt→leb 64 csid (omega arith))
          (read_header-first f csid _ _ (omega arith) (
              ap (λ n. bit_or (to_u8 f * 64 % 256) n) (small (omega arith))
              ∙ first_or f csid (omega arith))
            ∙ rw (read_csid-plain csid rest h.low))
  ]
]
  where
    small : csid < 64 → csid % 256 ≡ csid
    small lt = omega arith

-- What the encoder can write of a message header.
pub record IsWritable (h : ChunkMessageHeader) : Type 0 where
  pub timestamp : h.timestamp < 2 ^ 32
  pub length : h.msg_length ≤ max_partial_chunk_size
  pub stream : h.msg_stream_id < 2 ^ 32

-- The header as it is after a round trip: the decoder notes whether the timestamp was extended.
abbrev pub read_back : ChunkMessageHeader → ChunkMessageHeader
read_back h = record h { was_extended_timestamp = is_extended_timestamp h }

module _ (bo : ByteOrder) where
  read_extended-written :
      (h : ChunkMessageHeader) (rest : List ℕ)
      → IsWritable h
      → read_extended bo
          (if leb 0xffffff h.timestamp then 0xffffff else h.timestamp)
          (write_extended_timestamp bo h ++ rest)
        ≡ ok ((h.timestamp, is_extended_timestamp h), rest)
  unfolding read_extended write_extended_timestamp
  read_extended-written h rest w = elim (Bool-cases (leb 0xffffff h.timestamp)) [
    | inl e ↦ rw e (rw (read_be-to_be bo 4 h.timestamp rest w.timestamp))
    | inr e ↦ rw e (rw (other e))
  ]
    where
      other : leb 0xffffff h.timestamp ≡ false → (h.timestamp == 0xffffff) ≡ false
      other p = ground arith

  read_length-written :
      (h : ChunkMessageHeader) (rest : List ℕ)
      → IsWritable h
      → read_length bo (bo.to_be 3 h.msg_length ++ Messages.to_u8 h.msg_type_id ∷ rest)
        ≡ ok ((h.msg_length, h.msg_type_id), rest)
  unfolding read_length read_u8
  read_length-written h rest w =
      rw
        (read_be-to_be bo 3 h.msg_length (Messages.to_u8 h.msg_type_id ∷ rest)
          (omega (arith, w.length)))
        (rw (le→leb h.msg_length max_partial_chunk_size w.length)
          (rw (from_u8-to_u8 h.msg_type_id)))

  write_message_header-rest :
      (h : ChunkMessageHeader) (rest : List ℕ)
      → write_message_header bo h ++ rest
        ≡ bo.to_be 3 (if leb 0xffffff h.timestamp then 0xffffff else h.timestamp)
          ++ (bo.to_be 3 h.msg_length
              ++ Messages.to_u8 h.msg_type_id
                ∷ (bo.to_le 4 h.msg_stream_id ++ (write_extended_timestamp bo h ++ rest)))
  unfolding write_message_header
  write_message_header-rest h rest = simp append_assoc

  -- A message header with timestamp and stream id of 32 bits and a length of at most 10 MiB is
  -- read back as it was written, with an extended timestamp or without one, which the decoder
  -- notes; the bytes behind it are left.
  pub read_type0-write_message_header :
      (h : ChunkMessageHeader) (rest : List ℕ)
      → IsWritable h
      → read_type0 bo (write_message_header bo h ++ rest) ≡ ok (read_back h, rest)
  unfolding read_type0
  read_type0-write_message_header h rest w = rw (write_message_header-rest h rest) (
      rw (read_be-to_be bo 3 _ _ short) (
        rw (read_length-written h _ w) (
          rw (read_le-to_le bo 4 h.msg_stream_id _ w.stream)
            (rw (read_extended-written h rest w)))))
    where
      short : (if leb 0xffffff h.timestamp then 0xffffff else h.timestamp) < 256 ^ 3
      short = ground arith

  -- A later chunk of the message: the decoder takes the header of the chunk before it.
  pub read_type3-written :
      (d : ChunkDecoder) (csid : ℕ) (h : ChunkMessageHeader) (rest : List ℕ)
      → IsWritable h
      → get csid d.previous_chunk_headers ≡ some (read_back h)
      → read_type3 bo d csid (write_extended_timestamp bo h ++ rest) ≡ ok (read_back h, rest)
  unfolding read_type3 previous_header write_extended_timestamp
  read_type3-written d csid h rest w e = rw e (elim (Bool-cases (is_extended_timestamp h)) [
    | inl x ↦ rw x (rw (read_be-to_be bo 4 h.timestamp rest w.timestamp))
    | inr x ↦ rw x
  ])

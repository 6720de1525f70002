-- ===== src/Rtmp/Chunk/Encoder.antt =====
-- crates/rtmp/src/chunk/encoder.rs: `ChunkEncoder`. A function returns the bytes that it writes.
-- byteorder's writers panic at a number that does not fit; the model leaves that case to `to_be`.
use video.Base.{
  ℕ, zero, suc, ◌+◌, ◌-◌, ◌*◌, ◌/◌, ◌%◌, bit_or, List, [], ◌∷◌, ◌++◌, Option, none, some, leb, ltb,
  if◌then◌else◌, length, take, drop,
}
use mathlib.Core.Option
use video.ByteOrder.{ByteOrder}
use video.Rtmp.Messages
use video.Rtmp.Chunk.Define.{
  Chunk, ChunkType, ChunkMessageHeader, to_u8, type0, type3, is_extended_timestamp, init_chunk_size,
}

pub record ChunkEncoder : Type 0 where
  pub chunk_size : ℕ

abbrev pub default : ChunkEncoder
default = record { chunk_size = init_chunk_size }

unfoldable pub set_chunk_size : ℕ → ChunkEncoder → ChunkEncoder
set_chunk_size chunk_size e = record e { chunk_size = chunk_size }

-- `fmt << 6` and `as u8` are on bytes.
unfoldable pub write_basic_header : ChunkType → ℕ → List ℕ
unfolding to_u8
write_basic_header fmt csid =
    if leb (64 + 255) csid
    then bit_or (to_u8 fmt * 64 % 256) 1 ∷ (csid - 64) % 256 % 256 ∷ (csid - 64) / 256 % 256 ∷ []
    else if leb 64 csid
    then to_u8 fmt * 64 % 256 ∷ (csid - 64) % 256 ∷ []
    else bit_or (to_u8 fmt * 64 % 256) (csid % 256) ∷ []

module _ (bo : ByteOrder) where
  unfoldable pub write_extended_timestamp : ChunkMessageHeader → List ℕ
  write_extended_timestamp h = if is_extended_timestamp h then bo.to_be 4 h.timestamp else []

  unfoldable pub write_message_header : ChunkMessageHeader → List ℕ
  unfolding write_extended_timestamp
  write_message_header h =
      let timestamp = if leb 0xffffff h.timestamp then 0xffffff else h.timestamp in
      bo.to_be 3 timestamp
      ++ (bo.to_be 3 h.msg_length
          ++ (Messages.to_u8 h.msg_type_id
              ∷ (bo.to_le 4 h.msg_stream_id ++ write_extended_timestamp h)))

  -- `while !chunk_info.payload.is_empty()`. The payload shrinks by `chunk_size` in a round.
  unfoldable pub write_payload : ℕ → ℕ → ℕ → ChunkMessageHeader → List ℕ → Option (List ℕ)
  write_payload f chunk_size csid h [] = some []
  write_payload zero chunk_size csid h (b ∷ bs) = none
  write_payload (suc f) chunk_size csid h (b ∷ bs) =
      let payload = b ∷ bs in
      let cur = if ltb chunk_size (length payload) then chunk_size else length payload in
      let rest = drop cur payload in
      let next =
        if ltb 0 (length rest)
        then write_basic_header type3 csid ++ write_extended_timestamp h
        else [] in
      Option.map (λ more. take cur payload ++ (next ++ more))
        (write_payload f chunk_size csid h rest)

  -- `none` where the loop does not end: a chunk size of 0.
  unfoldable pub write_chunk : ChunkEncoder → Chunk → Option (List ℕ)
  unfolding write_basic_header write_message_header write_payload
  write_chunk e c =
      let csid = c.basic_header.chunk_stream_id in
      let header = write_basic_header type0 csid ++ write_message_header c.message_header in
      Option.map (λ more. header ++ more)
        (write_payload (length c.payload) e.chunk_size csid c.message_header c.payload)

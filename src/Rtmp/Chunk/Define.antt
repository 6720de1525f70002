-- ===== src/Rtmp/Chunk/Define.antt =====
-- crates/rtmp/src/chunk/define.rs and errors.rs.
use video.Base.{
  ℕ, ◌*◌, ◌≡◌, refl, Bool, false, List, Option, none, some, ◌==◌, leb, length, if◌then◌else◌,
}
use video.Rtmp.Messages.{MessageTypeId}

pub data ChunkType : Type 0 where
  type0 type1 type2 type3 : ChunkType

unfoldable pub to_u8 : ChunkType → ℕ
to_u8 type0 = 0
to_u8 type1 = 1
to_u8 type2 = 2
to_u8 type3 = 3

-- `ChunkType::from_u8`, which `#[derive(FromPrimitive)]` makes.
unfoldable pub from_u8 : ℕ → Option ChunkType
from_u8 n =
    if n == 0
    then some type0
    else if n == 1
    then some type1
    else if n == 2
    then some type2
    else if n == 3
    then some type3
    else none

pub from_u8-to_u8 : (t : ChunkType) → from_u8 (to_u8 t) ≡ some t
unfolding from_u8 to_u8
from_u8-to_u8 type0 = refl
from_u8-to_u8 _ = refl

pub record ChunkBasicHeader : Type 0 where
  pub format : ChunkType
  pub chunk_stream_id : ℕ

pub record ChunkMessageHeader : Type 0 where
  pub timestamp : ℕ
  pub msg_length : ℕ
  pub msg_type_id : MessageTypeId
  pub msg_stream_id : ℕ
  pub was_extended_timestamp : Bool

abbrev pub is_extended_timestamp : ChunkMessageHeader → Bool
is_extended_timestamp h = leb 0xffffff h.timestamp

pub record Chunk : Type 0 where
  pub basic_header : ChunkBasicHeader
  pub message_header : ChunkMessageHeader
  pub payload : List ℕ

-- `Chunk::new`. The length of a payload fits a u32 here.
unfoldable pub new : ℕ → ℕ → MessageTypeId → ℕ → List ℕ → Chunk
new chunk_stream_id timestamp msg_type_id msg_stream_id payload = record {
  basic_header = record { format = type0; chunk_stream_id = chunk_stream_id };
  message_header = record {
    timestamp = timestamp;
    msg_length = length payload;
    msg_type_id = msg_type_id;
    msg_stream_id = msg_stream_id;
    was_extended_timestamp = false;
  };
  payload = payload;
}

abbrev pub max_chunk_size_limit : ℕ
max_chunk_size_limit = 4096 * 16

abbrev pub init_chunk_size : ℕ
init_chunk_size = 128

-- The errors of the decoder that it returns.
pub data ChunkDecodeError : Type 0 where
  invalid_chunk_type : ℕ → ChunkDecodeError
  invalid_message_type_id : ℕ → ChunkDecodeError
  missing_previous_chunk_header : ℕ → ChunkDecodeError
  too_many_partial_chunks : ChunkDecodeError
  too_many_previous_chunk_headers : ChunkDecodeError
  partial_chunk_too_large : ℕ → ChunkDecodeError

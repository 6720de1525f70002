-- ===== src/Rtmp/Chunk/Decoder.antt =====
-- crates/rtmp/src/chunk/decoder.rs: `ChunkDecoder`. A cursor is the list of the bytes behind it;
-- `usize` has 64 bits, and arithmetic wraps, as in a release build.
use video.Base.{
  ℕ, zero, suc, ◌+◌, ◌*◌, ◌/◌, ◌%◌, ◌^◌, Bool, true, false, ◌&&◌, List, [], Option, none, some,
  Result, ok, err, ◌>>=◌, ◌>>◌, map_err, leb, ltb, ◌==◌, if◌then◌else◌,
}
use video.Base.Maps.{Map, get, nat_eq, pair_eq}
use video.Io.{Io, read_u8}
use video.ByteOrder.{ByteOrder, read_be, read_le}
use video.Rtmp.Messages
use video.Rtmp.Messages.{MessageTypeId}
use video.Rtmp.Chunk.Define.{
  ChunkType, ChunkBasicHeader, ChunkMessageHeader, ChunkDecodeError, type0, type1, type2, type3,
  from_u8, init_chunk_size, max_chunk_size_limit, invalid_chunk_type, invalid_message_type_id,
  missing_previous_chunk_header, partial_chunk_too_large,
}

abbrev pub max_partial_chunk_size : ℕ
max_partial_chunk_size = 10 * 1024 * 1024

abbrev pub max_previous_chunk_headers : ℕ
max_previous_chunk_headers = 100

abbrev pub max_partial_chunk_count : ℕ
max_partial_chunk_count = 4

pub record ChunkDecoder : Type 0 where
  pub previous_chunk_headers : Map ℕ ChunkMessageHeader
  pub partial_chunks : Map (ℕ × ℕ) (List ℕ)
  pub max_chunk_size : ℕ

abbrev pub default : ChunkDecoder
default = record {
  previous_chunk_headers = [];
  partial_chunks = [];
  max_chunk_size = init_chunk_size;
}

unfoldable pub update_max_chunk_size : ℕ → ChunkDecoder → ChunkDecoder × Bool
update_max_chunk_size chunk_size d =
    if leb init_chunk_size chunk_size && leb chunk_size max_chunk_size_limit
    then (record d { max_chunk_size = chunk_size }, true)
    else (d, false)

-- `Result<_, Option<ChunkDecodeError>>`: `err none` asks for more input.
abbrev pub Read : Type 0 → Type 0
Read A = Result (Option ChunkDecodeError) (A × List ℕ)

-- `map_err(|_| None)`
abbrev pub more : {A : Type 0} → Io A → Result (Option ChunkDecodeError) A
more = map_err (λ _. none)

-- `ok_or(e)?`
abbrev pub ok_or : {A : Type 0} → Option A → ChunkDecodeError → Result (Option ChunkDecodeError) A
ok_or (some a) e = ok a
ok_or none e = err (some e)

-- `if !test { return Err(Some(e)); }`
abbrev pub guard : Bool → ChunkDecodeError → Result (Option ChunkDecodeError) (Unit {0})
guard true e = ok tt
guard false e = err (some e)

-- The chunk stream id, by the low six bits of the first byte.
unfoldable pub read_csid : ℕ → List ℕ → Read ℕ
read_csid zero bs = do (a, rest) ← more (read_u8 bs); ok (64 + a, rest)
read_csid (suc zero) bs = do
  (a, bs') ← more (read_u8 bs)
  (b, rest) ← more (read_u8 bs')
  ok (64 + a + b * 256, rest)
read_csid csid bs = ok (csid, bs)

unfoldable pub read_header : List ℕ → Read ChunkBasicHeader
read_header bs = do
  (byte, bs') ← more (read_u8 bs)
  format ← ok_or (from_u8 (byte / 2 ^ 6 % 4)) (invalid_chunk_type (byte / 2 ^ 6 % 4))
  (csid, rest) ← read_csid (byte % 2 ^ 6) bs'
  ok (record { format = format; chunk_stream_id = csid }, rest)

module _ (bo : ByteOrder) where
  -- The timestamp, or that of the extended field, and whether it was extended.
  unfoldable pub read_extended : ℕ → List ℕ → Read (ℕ × Bool)
  read_extended timestamp bs =
      if timestamp == 0xffffff
      then (do (t, rest) ← more (read_be bo 4 bs); ok ((t, true), rest))
      else ok ((timestamp, false), bs)

  -- The length and the type of a message, which types 0 and 1 read alike.
  unfoldable pub read_length : List ℕ → Read (ℕ × MessageTypeId)
  read_length bs = do
    (msg_length, bs') ← more (read_be bo 3 bs)
    guard (leb msg_length max_partial_chunk_size) (partial_chunk_too_large msg_length)
    (id, rest) ← more (read_u8 bs')
    msg_type_id ← ok_or (Messages.from_u8 id) (invalid_message_type_id id)
    ok ((msg_length, msg_type_id), rest)

  unfoldable pub previous_header :
      ChunkDecoder → ℕ → Result (Option ChunkDecodeError) ChunkMessageHeader
  previous_header d csid =
      ok_or (get csid d.previous_chunk_headers) (missing_previous_chunk_header csid)

  unfoldable pub read_type0 : List ℕ → Read ChunkMessageHeader
  read_type0 bs = do
    (timestamp, bs₁) ← more (read_be bo 3 bs)
    ((msg_length, msg_type_id), bs₂) ← read_length bs₁
    (msg_stream_id, bs₃) ← more (read_le bo 4 bs₂)
    ((timestamp', was_extended), rest) ← read_extended timestamp bs₃
    let header : ChunkMessageHeader = record {
      timestamp = timestamp';
      msg_length = msg_length;
      msg_type_id = msg_type_id;
      msg_stream_id = msg_stream_id;
      was_extended_timestamp = was_extended;
    }
    ok (header, rest)

  -- `checked_add`, and the previous timestamp where the sum does not fit.
  abbrev checked_timestamp : ℕ → ℕ → ℕ
  checked_timestamp previous delta =
      if ltb (previous + delta) (2 ^ 32) then previous + delta else previous

  unfoldable pub read_type1 : ChunkDecoder → ℕ → List ℕ → Read ChunkMessageHeader
  read_type1 d csid bs = do
    (timestamp_delta, bs₁) ← more (read_be bo 3 bs)
    ((msg_length, msg_type_id), bs₂) ← read_length bs₁
    ((delta, was_extended), rest) ← read_extended timestamp_delta bs₂
    previous ← previous_header d csid
    let header : ChunkMessageHeader = record {
      timestamp = checked_timestamp previous.timestamp delta;
      msg_length = msg_length;
      msg_type_id = msg_type_id;
      msg_stream_id = previous.msg_stream_id;
      was_extended_timestamp = was_extended;
    }
    ok (header, rest)

  -- Here the sum of the timestamps is not checked.
  unfoldable pub read_type2 : ChunkDecoder → ℕ → List ℕ → Read ChunkMessageHeader
  read_type2 d csid bs = do
    (timestamp_delta, bs₁) ← more (read_be bo 3 bs)
    ((delta, was_extended), rest) ← read_extended timestamp_delta bs₁
    previous ← previous_header d csid
    let header : ChunkMessageHeader = record {
      timestamp = (previous.timestamp + delta) % 2 ^ 32;
      msg_length = previous.msg_length;
      msg_type_id = previous.msg_type_id;
      msg_stream_id = previous.msg_stream_id;
      was_extended_timestamp = was_extended;
    }
    ok (header, rest)

  abbrev pub skip_timestamp : ChunkMessageHeader → List ℕ → Read ChunkMessageHeader
  skip_timestamp previous bs =
      if previous.was_extended_timestamp
      then (more (read_be bo 4 bs) >>= λ (_, rest). ok (previous, rest))
      else ok (previous, bs)

  -- The previous header, behind its timestamp if that was extended.
  unfoldable pub read_type3 : ChunkDecoder → ℕ → List ℕ → Read ChunkMessageHeader
  unfolding previous_header
  read_type3 d csid bs = do previous ← previous_header d csid; skip_timestamp previous bs

  unfoldable pub read_typed : ChunkType → ChunkDecoder → ℕ → List ℕ → Read ChunkMessageHeader
  read_typed type0 d csid bs = read_type0 bs
  read_typed type1 d csid bs = read_type1 d csid bs
  read_typed type2 d csid bs = read_type2 d csid bs
  read_typed type3 d csid bs = read_type3 d csid bs

  unfoldable pub read_message_header :
      ChunkDecoder → ChunkBasicHeader → List ℕ → Read ChunkMessageHeader
  unfolding read_typed
  read_message_header d header bs = read_typed header.format d header.chunk_stream_id bs

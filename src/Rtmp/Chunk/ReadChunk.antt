-- ===== src/Rtmp/Chunk/ReadChunk.antt =====
-- crates/rtmp/src/chunk/decoder.rs: `ChunkDecoder::read_chunk`, and the payload of a chunk.
use video.Base.{
  ℕ, zero, suc, ◌+◌, ◌-◌, ◌%◌, ◌^◌, min, List, [], ◌++◌, Option, none, some, ok, err, panic, stuck,
  ◌>>=◌, leb, ltb, ◌==◌, if◌then◌else◌, length, take, drop,
}
use video.Base.Maps.{Map, get, insert, remove, nat_eq, pair_eq}
use video.ByteOrder.{ByteOrder}
use video.Rtmp.Chunk.Define.{
  Chunk, ChunkBasicHeader, ChunkMessageHeader, ChunkDecodeError, too_many_partial_chunks,
  too_many_previous_chunk_headers, partial_chunk_too_large,
}
use video.Rtmp.Chunk.Decoder.{
  ChunkDecoder, Read, read_header, read_message_header, max_partial_chunk_size,
  max_partial_chunk_count, max_previous_chunk_headers,
}

-- `(header.chunk_stream_id, message_header.msg_stream_id)`
abbrev pub key_of : ChunkBasicHeader → ChunkMessageHeader → ℕ × ℕ
key_of header message_header = (header.chunk_stream_id, message_header.msg_stream_id)

-- How many bytes were read of a message, by the key of its chunk stream and message stream.
abbrev pub partial_length : ChunkDecoder → ℕ × ℕ → ℕ
partial_length d key = elim (get key d.partial_chunks) [ none ↦ 0 | some bytes ↦ length bytes ]

-- The length of the payload range, which starts at the cursor. The difference wraps.
unfoldable pub need_read_length : ChunkDecoder → ChunkBasicHeader → ChunkMessageHeader → ℕ
need_read_length d header message_header =
    min
      ((message_header.msg_length + 2 ^ 64 - partial_length d (key_of header message_header))
        % 2 ^ 64)
      d.max_chunk_size

-- A chunk that lies whole in the buffer.
pub record Parsed : Type 0 where
  pub header : ChunkBasicHeader
  pub message_header : ChunkMessageHeader
  pub payload : List ℕ

-- The part of a round of `read_chunk` up to `buffer.split_to(position)`: what is read, and the
-- buffer behind it.
unfoldable pub parse : ByteOrder → ChunkDecoder → List ℕ → Read Parsed
unfolding read_header read_message_header need_read_length
parse bo d buffer = do
  (header, bs₁) ← read_header buffer
  (message_header, bs₂) ← read_message_header bo d header bs₁
  let need = need_read_length d header message_header
  let parsed : Parsed = record {
    header = header;
    message_header = message_header;
    payload = take need bs₂;
  }
  if leb need (length bs₂) then ok (parsed, drop need bs₂) else err none

-- What `read_chunk` returns: `Ok(None)`, `Ok(Some(chunk))` or `Err(error)`. `out_of_fuel` has no
-- counterpart in the program.
pub data Outcome : Type 0 where
  waiting : Outcome
  complete : Chunk → Outcome
  refused : ChunkDecodeError → Outcome
  out_of_fuel : Outcome

-- The loop goes on, or it returns.
pub data Step : Type 0 where
  again : ChunkDecoder → Step
  done : ChunkDecoder → Outcome → Step

abbrev with_partials : ChunkDecoder → Map (ℕ × ℕ) (List ℕ) → ChunkDecoder
with_partials d m = record d { partial_chunks = m }

-- The payload goes behind the bytes `partial` that the map holds for the key.
unfoldable pub extend_partial : ChunkDecoder → Parsed → List ℕ → Step
extend_partial d p bytes =
    let key = key_of p.header p.message_header in
    let chunk : Chunk = record {
      basic_header = p.header;
      message_header = p.message_header;
      payload = bytes ++ p.payload;
    } in
    let size = length bytes + length p.payload in
    let extended = insert key (bytes ++ p.payload) d.partial_chunks in
    if ltb max_partial_chunk_size size
    then done (with_partials d (insert key bytes d.partial_chunks))
        (refused (partial_chunk_too_large size))
    else if size == p.message_header.msg_length
    then done (with_partials d (remove key extended)) (complete chunk)
    else again (with_partials d extended)

-- The partial chunk of the key, or a new and empty one.
unfoldable pub store_partial : ChunkDecoder → Parsed → Option (List ℕ) → Step
unfolding extend_partial
store_partial d p (some bytes) = extend_partial d p bytes
store_partial d p none =
    if leb max_partial_chunk_count (length d.partial_chunks)
    then done d (refused too_many_partial_chunks)
    else extend_partial d p []

-- `contains_key`, for the count of headers that an insertion leaves.
unfoldable pub headers_with : ℕ → ChunkDecoder → ℕ
headers_with csid d = elim (get csid d.previous_chunk_headers) [
  | some _ ↦ length d.previous_chunk_headers
  | none ↦ length d.previous_chunk_headers + 1
]

-- The part of a round behind `buffer.split_to(position)`.
unfoldable pub accept : ChunkDecoder → Parsed → Step
unfolding store_partial headers_with
accept d p =
    let csid = p.header.chunk_stream_id in
    let d' = record d {
      previous_chunk_headers = insert csid p.message_header d.previous_chunk_headers;
    } in
    let chunk : Chunk = record {
      basic_header = p.header;
      message_header = p.message_header;
      payload = p.payload;
    } in
    if ltb max_previous_chunk_headers (headers_with csid d)
    then done d (refused too_many_previous_chunk_headers)
    else if length p.payload == p.message_header.msg_length
    then done d' (complete chunk)
    else store_partial d' p (get (key_of p.header p.message_header) d.partial_chunks)

-- `read_chunk`: the decoder, the buffer and the result. Every round that goes on has taken a
-- byte, so one more round than there are bytes is enough.
unfoldable pub read_chunk_at :
    ByteOrder → ℕ → ChunkDecoder → List ℕ → ChunkDecoder × List ℕ × Outcome
read_chunk_at bo zero d buffer = (d, buffer, out_of_fuel)
read_chunk_at bo (suc f) d buffer = elim (parse bo d buffer) [
  | ok (p, rest) ↦ elim (accept d p) [
    | again d' ↦ read_chunk_at bo f d' rest
    | done d' outcome ↦ (d', rest, outcome)
  ]
  | err none ↦ (d, buffer, waiting)
  | err (some e) ↦ (d, buffer, refused e)
  | panic ↦ (d, buffer, out_of_fuel)
  | stuck ↦ (d, buffer, out_of_fuel)
]

unfoldable pub read_chunk : ByteOrder → ChunkDecoder → List ℕ → ChunkDecoder × List ℕ × Outcome
unfolding read_chunk_at parse accept
read_chunk bo d buffer = read_chunk_at bo (length buffer + 1) d buffer

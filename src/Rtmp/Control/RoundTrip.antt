-- ===== src/Rtmp/Control/RoundTrip.antt =====
-- The control messages as a decoder receives them.
use video.Base.{
  ℕ, ◌%◌, ◌^◌, ◌≤◌, ◌<◌, ◌≡◌, refl, ap, ◌∙◌, sym, arith, List, [], ◌++◌, append-nil, none, some, ok,
  length,
}
use video.Base.Maps.{get, length-insert-le, nat_eq, pair_eq}
use video.ByteOrder.{ByteOrder, read_be}
use video.ByteOrder.Laws.{read_be-to_be}
use video.Rtmp.Messages.{MessageTypeId, set_chunk_size}
use video.Rtmp.Chunk.Define.{Chunk, new}
use video.Rtmp.Chunk.Decoder.{
  ChunkDecoder, max_partial_chunk_size, max_partial_chunk_count, max_previous_chunk_headers,
}
use video.Rtmp.Chunk.ReadChunk.{complete, read_chunk}
use video.Rtmp.Chunk.Headers.{IsCsid, read_back}
use video.Rtmp.Chunk.RoundTrip.{Accepts, received, after, read_chunk-write_chunk}
use video.Rtmp.Control.{control_chunk, write_set_chunk_size, read_set_chunk_size}

-- A decoder that has room for a message of a chunk stream.
pub record IsReady (csid : ℕ) (d : ChunkDecoder) : Type 0 where
  pub nonzero : 1 ≤ d.max_chunk_size
  pub room : length d.previous_chunk_headers < max_previous_chunk_headers
  pub slot : length d.partial_chunks < max_partial_chunk_count
  pub fresh : get (csid, 0) d.partial_chunks ≡ none

pub new-Accepts :
    (d : ChunkDecoder) (csid : ℕ) (t : MessageTypeId) (payload : List ℕ)
    → IsCsid csid
    → length payload ≤ max_partial_chunk_size
    → IsReady csid d
    → Accepts d (new csid 0 t 0 payload)
unfolding new
new-Accepts d csid t payload c le r = record {
  header = record { timestamp = omega arith; length = le; stream = omega arith };
  csid = c;
  size = refl;
  nonzero = r.nonzero;
  room = omega (
    arith,
    length-insert-le csid (read_back (new csid 0 t 0 payload).message_header)
        d.previous_chunk_headers,
    r.room,
  );
  slot = r.slot;
  fresh = r.fresh;
}

-- A decoder of the encoder's chunk size that has room on chunk stream 2 receives the written
-- message that announces a chunk size, as one message of that type, and the reader finds in its
-- payload the size modulo 2 ^ 31.
pub read_set_chunk_size-write_set_chunk_size :
    (bo : ByteOrder) (d : ChunkDecoder) (chunk_size : ℕ) (tail : List ℕ)
    → IsReady 2 d
    → (bs : List ℕ) × (d' : ChunkDecoder) × (c : Chunk) × (write_set_chunk_size bo
          (record { chunk_size = d.max_chunk_size })
          chunk_size
        ≡ some bs)
      × (read_chunk bo d (bs ++ tail) ≡ (d', tail, complete c))
      × (c.message_header.msg_type_id ≡ set_chunk_size)
      × (read_set_chunk_size bo c.payload ≡ ok (chunk_size % 2 ^ 31))
unfolding write_set_chunk_size read_set_chunk_size new
read_set_chunk_size-write_set_chunk_size bo d chunk_size tail r =
    let payload : List ℕ = bo.to_be 4 (chunk_size % 2 ^ 31) in
    let sent : Chunk = control_chunk bo set_chunk_size payload in
    let (bs, written, reads) = read_chunk-write_chunk bo d sent tail (
      new-Accepts d 2 set_chunk_size payload (record { low = omega arith; high = omega arith })
        (omega (arith, bo.length-to_be 4 (chunk_size % 2 ^ 31))) r) in
    (bs, after d sent, received d.max_chunk_size sent, written, reads, refl, value)
  where
    payload_read :
        read_be bo 4 (bo.to_be 4 (chunk_size % 2 ^ 31) ++ []) ≡ ok (chunk_size % 2 ^ 31, [])
    payload_read = read_be-to_be bo 4 (chunk_size % 2 ^ 31) [] (omega arith)

    value : read_set_chunk_size bo (bo.to_be 4 (chunk_size % 2 ^ 31)) ≡ ok (chunk_size % 2 ^ 31)
    value = rw (
        ap (λ t. read_be bo 4 t) (sym (append-nil (bo.to_be 4 (chunk_size % 2 ^ 31))))
        ∙ payload_read)

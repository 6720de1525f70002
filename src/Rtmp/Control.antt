-- ===== src/Rtmp/Control.antt =====
-- crates/rtmp/src/protocol_control_messages and user_control_messages.
pub mod RoundTrip
use video.Base.{ℕ, ◌+◌, ◌%◌, ◌^◌, List, [], ◌∷◌, ◌++◌, Option, ok, ◌>>=◌}
use video.Io.{Io}
use video.ByteOrder.{ByteOrder, read_be}
use video.Rtmp.Messages.{
  MessageTypeId, set_chunk_size, window_acknowledgement_size, set_peer_bandwidth,
  user_control_event,
}
use video.Rtmp.Chunk.Define.{Chunk, new}
use video.Rtmp.Chunk.Encoder.{ChunkEncoder, write_chunk}

-- `RTMP_EVENT_STREAM_BEGIN`
abbrev pub event_stream_begin : ℕ
event_stream_begin = 0

module _ (bo : ByteOrder) where
  -- The message of chunk stream 2 that every writer here sends.
  abbrev pub control_chunk : MessageTypeId → List ℕ → Chunk
  control_chunk msg_type_id payload = new 2 0 msg_type_id 0 payload

  -- `chunk_size & 0x7FFFFFFF`
  unfoldable pub write_set_chunk_size : ChunkEncoder → ℕ → Option (List ℕ)
  write_set_chunk_size e chunk_size =
      write_chunk bo e (control_chunk set_chunk_size (bo.to_be 4 (chunk_size % 2 ^ 31)))

  unfoldable pub write_window_acknowledgement_size : ChunkEncoder → ℕ → Option (List ℕ)
  write_window_acknowledgement_size e window_size =
      write_chunk bo e (control_chunk window_acknowledgement_size (bo.to_be 4 window_size))

  unfoldable pub write_set_peer_bandwidth : ChunkEncoder → ℕ → ℕ → Option (List ℕ)
  write_set_peer_bandwidth e window_size limit_type =
      write_chunk bo e
        (control_chunk set_peer_bandwidth (bo.to_be 4 window_size ++ limit_type ∷ []))

  unfoldable pub write_stream_begin : ChunkEncoder → ℕ → Option (List ℕ)
  write_stream_begin e stream_id =
      write_chunk bo e
        (control_chunk user_control_event (bo.to_be 2 event_stream_begin ++ bo.to_be 4 stream_id))

  unfoldable pub read_set_chunk_size : List ℕ → Io ℕ
  read_set_chunk_size bytes = do (chunk_size, _) ← read_be bo 4 bytes; ok chunk_size

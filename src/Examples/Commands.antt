-- ===== src/Examples/Commands.antt =====
-- The theorems on control messages and commands at concrete inputs.
use video.Base.{ℕ, ◌≡◌, refl, arith, List, [], ◌∷◌, ◌++◌, some, ok}
use video.Base.Maps.{get, nat_eq, pair_eq}
use video.Utf8.{valid_utf8}
use video.ByteOrder.Reference.{positional}
use video.Amf0.Define.{to_u8}
use video.Amf0.Encode.{encode, encode_string}
use video.Amf0.Decode.{decode_all}
use video.Amf0.Layout.{IsShort}
use video.Amf0.Written.{encode_all}
use video.Rtmp.Messages.{set_chunk_size}
use video.Rtmp.Chunk.Define.{Chunk}
use video.Rtmp.Chunk.Decoder.{ChunkDecoder, default}
use video.Rtmp.Chunk.ReadChunk.{complete, read_chunk}
use video.Rtmp.Control.{write_set_chunk_size, read_set_chunk_size}
use video.Rtmp.Control.RoundTrip.{IsReady, read_set_chunk_size-write_set_chunk_size}
use video.Rtmp.Commands.{write_on_status, on_status_name, level_key, code_key, description_key}
use video.Rtmp.Commands.Received.{on_status_values, decode_all-write_on_status}

default-IsReady : (csid : ℕ) → IsReady csid default
unfolding get
default-IsReady csid = record {
  nonzero = omega arith;
  room = omega arith;
  slot = omega arith;
  fresh = refl;
}

read_set_chunk_size-write_set_chunk_size_example :
    (bs : List ℕ) × (d : ChunkDecoder) × (c : Chunk) × (write_set_chunk_size positional
        (record { chunk_size = 128 })
        4096
      ≡ some bs)
    × (read_chunk positional default (bs ++ 3 ∷ []) ≡ (d, 3 ∷ [], complete c))
    × (c.message_header.msg_type_id ≡ set_chunk_size)
    × (read_set_chunk_size positional c.payload ≡ ok 4096)
read_set_chunk_size-write_set_chunk_size_example =
    read_set_chunk_size-write_set_chunk_size positional default 4096 (3 ∷ []) (default-IsReady 2)

-- A status of the level "a", the code "b" and the description "c".
abbrev status : List ℕ
status =
    (2 ∷ 0 ∷ 8 ∷ on_status_name)
    ++ (0 ∷ 0 ∷ 0 ∷ 0 ∷ 0 ∷ 0 ∷ 0 ∷ 0 ∷ 0 ∷ 5 ∷ 3 ∷ [])
    ++ (0 ∷ 5 ∷ level_key)
    ++ (2 ∷ 0 ∷ 1 ∷ 97 ∷ 0 ∷ 4 ∷ code_key)
    ++ (2 ∷ 0 ∷ 1 ∷ 98 ∷ 0 ∷ 11 ∷ description_key)
    ++ (2 ∷ 0 ∷ 1 ∷ 99 ∷ 0 ∷ 0 ∷ 9 ∷ [])

letter-IsShort : (IsShort (97 ∷ []) × IsShort (98 ∷ []) × IsShort (99 ∷ []))
unfolding valid_utf8
letter-IsShort = (
  record { fits = omega arith; utf8 = refl },
  record { fits = omega arith; utf8 = refl },
  record { fits = omega arith; utf8 = refl },
)

status-encoded :
    encode_all positional [] (on_status_values 0 (97 ∷ []) (98 ∷ []) (99 ∷ [])) ≡ ok status
unfolding encode_all encode encode_string to_u8
status-encoded = refl

decode_all-write_on_status_example :
    (bs : List ℕ) × (d : ChunkDecoder) × (c : Chunk) × (write_on_status positional
        (record { chunk_size = 128 })
        0
        (97 ∷ [])
        (98 ∷ [])
        (99 ∷ [])
      ≡ ok bs)
    × (read_chunk positional default (bs ++ []) ≡ (d, [], complete c))
    × (decode_all positional c.payload ≡ ok (on_status_values 0 (97 ∷ []) (98 ∷ []) (99 ∷ [])))
decode_all-write_on_status_example =
    decode_all-write_on_status positional default 0 (97 ∷ []) (98 ∷ []) (99 ∷ []) status []
      (default-IsReady 3) (omega arith) (letter-IsShort.0) (letter-IsShort.1) (letter-IsShort.2)
      status-encoded (omega arith)

-- ===== src/Rtmp/Commands.antt =====
-- crates/rtmp/src/netconnection/writer.rs and netstream/writer.rs: the commands that the server
-- answers with. A string is the list of its bytes, and a number that of the bits of its f64.
pub mod Received
use video.Base.{ℕ, ◌+◌, List, [], ◌∷◌, ◌++◌, Option, none, some, Result, ok, err, stuck, ◌>>=◌}
use video.ByteOrder.{ByteOrder}
use video.Amf0.Define.{Amf0Value, Amf0WriteError, Properties, Str, empty, property}
use video.Amf0.Encode.{encode_string, encode_number, encode_null, encode_object}
use video.Rtmp.Messages.{command_amf0}
use video.Rtmp.Chunk.Define.{Chunk, new}
use video.Rtmp.Chunk.Encoder
use video.Rtmp.Chunk.Encoder.{ChunkEncoder}

-- `DefinedChunkStreamID::Command`
abbrev pub command_stream : ℕ
command_stream = 3

-- "_result", "onStatus" and the names of the properties.
abbrev pub result_name : Str
result_name = 95 ∷ 114 ∷ 101 ∷ 115 ∷ 117 ∷ 108 ∷ 116 ∷ []

abbrev pub on_status_name : Str
on_status_name = 111 ∷ 110 ∷ 83 ∷ 116 ∷ 97 ∷ 116 ∷ 117 ∷ 115 ∷ []

abbrev pub fms_ver_key : Str
fms_ver_key = 102 ∷ 109 ∷ 115 ∷ 86 ∷ 101 ∷ 114 ∷ []

abbrev pub capabilities_key : Str
capabilities_key = 99 ∷ 97 ∷ 112 ∷ 97 ∷ 98 ∷ 105 ∷ 108 ∷ 105 ∷ 116 ∷ 105 ∷ 101 ∷ 115 ∷ []

abbrev pub level_key : Str
level_key = 108 ∷ 101 ∷ 118 ∷ 101 ∷ 108 ∷ []

abbrev pub code_key : Str
code_key = 99 ∷ 111 ∷ 100 ∷ 101 ∷ []

abbrev pub description_key : Str
description_key = 100 ∷ 101 ∷ 115 ∷ 99 ∷ 114 ∷ 105 ∷ 112 ∷ 116 ∷ 105 ∷ 111 ∷ 110 ∷ []

abbrev pub object_encoding_key : Str
object_encoding_key =
    111 ∷ 98 ∷ 106 ∷ 101 ∷ 99 ∷ 116 ∷ 69 ∷ 110 ∷ 99 ∷ 111 ∷ 100 ∷ 105 ∷ 110 ∷ 103 ∷ []

-- What a writer sends, or the error of the AMF0 encoder. `stuck` is the endless loop of a chunk
-- encoder whose chunk size is 0.
abbrev Write : Type 0
Write = Result Amf0WriteError (List ℕ)

abbrev pub sent : Option (List ℕ) → Write
sent (some bytes) = ok bytes
sent none = stuck

module _ (bo : ByteOrder) where
  -- `NetConnection::write_chunk`
  unfoldable pub write_command : ChunkEncoder → List ℕ → Write
  write_command e amf0 = sent (Encoder.write_chunk bo e (new command_stream 0 command_amf0 0 amf0))

  -- `NetStreamWriter::write_chunk`
  unfoldable pub write_stream_command : ChunkEncoder → List ℕ → Write
  write_stream_command e amf0 =
      sent (Encoder.write_chunk bo e (new command_stream 0 command_amf0 0 amf0))

  unfoldable pub write_connect_response : ChunkEncoder → ℕ → Str → ℕ → Str → Str → Str → ℕ → Write
  unfolding write_command
  write_connect_response e transaction_id fmsver capabilities code level description encoding = do
    w₁ ← encode_string bo [] result_name
    let w₂ = encode_number bo w₁ transaction_id
    w₃ ← encode_object bo w₂ (
        property fms_ver_key (Amf0Value.string fmsver)
          (property capabilities_key (Amf0Value.number capabilities) empty))
    w₄ ← encode_object bo w₃ (
        property level_key (Amf0Value.string level) (
          property code_key (Amf0Value.string code) (
            property description_key (Amf0Value.string description)
              (property object_encoding_key (Amf0Value.number encoding) empty))))
    write_command e w₄

  unfoldable pub write_create_stream_response : ChunkEncoder → ℕ → ℕ → Write
  unfolding write_command
  write_create_stream_response e transaction_id stream_id = do
    w₁ ← encode_string bo [] result_name
    let w₂ = encode_number bo w₁ transaction_id
    let w₃ = encode_null bo w₂
    write_command e (encode_number bo w₃ stream_id)

  unfoldable pub write_on_status : ChunkEncoder → ℕ → Str → Str → Str → Write
  unfolding write_stream_command
  write_on_status e transaction_id level code description = do
    w₁ ← encode_string bo [] on_status_name
    let w₂ = encode_number bo w₁ transaction_id
    let w₃ = encode_null bo w₂
    w₄ ← encode_object bo w₃ (
        property level_key (Amf0Value.string level) (
          property code_key (Amf0Value.string code)
            (property description_key (Amf0Value.string description) empty)))
    write_stream_command e w₄

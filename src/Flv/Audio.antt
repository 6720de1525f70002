-- ===== src/Flv/Audio.antt =====
-- crates/flv/src/audio.rs and aac.rs: the data of an audio tag. A value of a type that
-- `nutype_enum!` declares is its number.
use video.Base.{ℕ, ◌/◌, ◌%◌, List, ok, ◌>>=◌, ◌==◌, if◌then◌else◌}
use video.Io.{Io, remaining, read_u8}
use video.BytesUtil.BytesCursor.{extract_remaining}

-- `extract_remaining` of a cursor in front of these bytes, and the bytes behind it then.
unfoldable pub take_remaining : List ℕ → List ℕ × List ℕ
unfolding extract_remaining
take_remaining bs =
    let (bytes, c) = extract_remaining (record { inner = bs; position = 0 }) in (bytes, remaining c)

pub data AacPacket : Type 0 where
  sequence_header : List ℕ → AacPacket
  raw : List ℕ → AacPacket
  unknown : ℕ → List ℕ → AacPacket

-- `AacPacket::new`
unfoldable pub new : ℕ → List ℕ → AacPacket
new aac_packet_type data_bytes =
    if aac_packet_type == 1
    then AacPacket.raw data_bytes
    else if aac_packet_type == 0
    then AacPacket.sequence_header data_bytes
    else AacPacket.unknown aac_packet_type data_bytes

pub data AudioDataBody : Type 0 where
  aac : AacPacket → AudioDataBody
  unknown : ℕ → List ℕ → AudioDataBody

pub record AudioData : Type 0 where
  pub sound_rate : ℕ
  pub sound_size : ℕ
  pub sound_type : ℕ
  pub body : AudioDataBody

-- `AudioDataBody::demux`, where `SoundFormat::Aac` is 10.
unfoldable pub demux_body : ℕ → List ℕ → Io (AudioDataBody × List ℕ)
unfolding new take_remaining
demux_body sound_format bs =
    if sound_format == 10
    then (do
      (aac_packet_type, rest) ← read_u8 bs
      let (data_bytes, rest') = take_remaining rest
      ok (AudioDataBody.aac (new aac_packet_type data_bytes), rest'))
    else (let (data_bytes, rest) = take_remaining bs in
        ok (AudioDataBody.unknown sound_format data_bytes, rest))

-- `AudioData::demux`
unfoldable pub demux : List ℕ → Io (AudioData × List ℕ)
unfolding demux_body
demux bs = do
  (byte, bs₁) ← read_u8 bs
  (body, rest) ← demux_body (byte / 16) bs₁
  let audio : AudioData = record {
    sound_rate = byte / 4 % 4;
    sound_size = byte / 2 % 2;
    sound_type = byte % 2;
    body = body;
  }
  ok (audio, rest)

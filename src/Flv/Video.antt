-- ===== src/Flv/Video.antt =====
-- crates/flv/src/video.rs, avc.rs, av1.rs and hevc.rs: the data of a video tag.
use video.Base.{
  ℕ, ◌/◌, ◌%◌, Bool, true, false, not, ◌&&◌, List, [], ◌∷◌, Option, none, some, ok, ◌>>=◌, ◌==◌,
  if◌then◌else◌,
}
use video.Base.Int.{ℤ}
use video.Io.{Io, Cursor, remaining, read_u8, read_exact}
use video.ByteOrder.{ByteOrder, read_be}
use video.BytesUtil.BitReader.{BitReader}
use video.Av1.Config as Av1Config
use video.H264 as H264
use video.H265 as H265
use video.Flv.Audio.{take_remaining}

pub data AvcPacket : Type 0 where
  nalu : ℕ → List ℕ → AvcPacket
  sequence_header : H264.AvcDecoderConfigurationRecord → AvcPacket
  end_of_sequence : AvcPacket
  unknown : ℕ → ℕ → List ℕ → AvcPacket

pub data Av1Packet : Type 0 where
  sequence_start : Av1Config.Av1CodecConfigurationRecord → Av1Packet
  raw : List ℕ → Av1Packet

pub data HevcPacket : Type 0 where
  sequence_start : H265.HevcDecoderConfigurationRecord → HevcPacket
  nalu : Option ℤ → List ℕ → HevcPacket

-- The codec is the four bytes of a `VideoFourCC`.
pub data EnhancedPacket : Type 0 where
  metadata : List ℕ → List ℕ → EnhancedPacket
  sequence_end : List ℕ → EnhancedPacket
  av1 : Av1Packet → EnhancedPacket
  hevc : HevcPacket → EnhancedPacket
  unknown : ℕ → List ℕ → List ℕ → EnhancedPacket

pub data VideoTagBody : Type 0 where
  avc : AvcPacket → VideoTagBody
  enhanced : EnhancedPacket → VideoTagBody
  command : ℕ → VideoTagBody
  unknown : ℕ → List ℕ → VideoTagBody

pub data VideoPacketType : Type 0 where
  codec_id : ℕ → VideoPacketType
  enhanced : ℕ → VideoPacketType

pub record VideoTagHeader : Type 0 where
  pub frame_type : ℕ
  pub body : VideoTagBody

-- `VideoPacketType::new`
unfoldable pub new : ℕ → Bool → VideoPacketType
new byte true = VideoPacketType.enhanced byte
new byte false = VideoPacketType.codec_id byte

-- `VideoFourCC::Av1` and `VideoFourCC::Hevc`: b"av01" and b"hvc1".
abbrev pub av1_code : List ℕ
av1_code = 97 ∷ 118 ∷ 48 ∷ 49 ∷ []

abbrev pub hevc_code : List ℕ
hevc_code = 104 ∷ 118 ∷ 99 ∷ 49 ∷ []

unfoldable pub same_code : List ℕ → List ℕ → Bool
same_code [] [] = true
same_code (x ∷ xs) (y ∷ ys) = x == y && same_code xs ys
same_code _ _ = false

-- A configuration record that is read by a bit reader over the cursor.
unfoldable pub from_start : {A : Type 0} → (Cursor → Io (A × BitReader)) → List ℕ → Io (A × List ℕ)
from_start demux bs = do
  (config, r) ← demux (record { inner = bs; position = 0 })
  ok (config, remaining r.source)

-- The last arm, where no other is taken.
abbrev pub otherwise : {A : Type 0} → Option A → A → A
otherwise (some a) b = a
otherwise none b = b

module _ (bo : ByteOrder) where
  -- `AvcPacketType` is `SeqHdr` = 0, `Nalu` = 1, `EndOfSequence` = 2.
  unfoldable pub demux_avc : List ℕ → Io (AvcPacket × List ℕ)
  unfolding take_remaining
  demux_avc bs = do
    (avc_packet_type, bs₁) ← read_u8 bs
    (composition_time, bs₂) ← read_be bo 3 bs₁
    if avc_packet_type == 0
        then (do (config, rest) ← H264.demux bo bs₂; ok (AvcPacket.sequence_header config, rest))
        else if avc_packet_type == 1
        then (let (bytes, rest) = take_remaining bs₂ in
            ok (AvcPacket.nalu composition_time bytes, rest))
        else if avc_packet_type == 2
        then ok (AvcPacket.end_of_sequence, bs₂)
        else (let (bytes, rest) = take_remaining bs₂ in
            ok (AvcPacket.unknown avc_packet_type composition_time bytes, rest))

  -- The arms of `VideoFourCC::Av1`; `None` where the last arm is taken.
  unfoldable pub demux_av1 : ℕ → List ℕ → Option (Io (EnhancedPacket × List ℕ))
  unfolding from_start take_remaining
  demux_av1 packet_type bs =
      if packet_type == 0
      then some (do
        (config, rest) ← from_start Av1Config.demux bs
        ok (EnhancedPacket.av1 (Av1Packet.sequence_start config), rest))
      else if packet_type == 5
      then some (do
        (descriptor, rest) ← from_start Av1Config.demux_descriptor bs
        ok (
          EnhancedPacket.av1 (Av1Packet.sequence_start descriptor.codec_configuration_record),
          rest,
        ))
      else if packet_type == 1
      then some (
          let (bytes, rest) = take_remaining bs in
          ok (EnhancedPacket.av1 (Av1Packet.raw bytes), rest))
      else none

  -- The arms of `VideoFourCC::Hevc`.
  unfoldable pub demux_hevc : ℕ → List ℕ → Option (Io (EnhancedPacket × List ℕ))
  unfolding from_start take_remaining
  demux_hevc packet_type bs =
      if packet_type == 0
      then some (do
        (config, rest) ← from_start (H265.demux bo) bs
        ok (EnhancedPacket.hevc (HevcPacket.sequence_start config), rest))
      else if packet_type == 1
      then some (do
        (buf, bs₁) ← read_exact 3 bs
        let (bytes, rest) = take_remaining bs₁
        ok (EnhancedPacket.hevc (HevcPacket.nalu (some (bo.from_be_i24 buf)) bytes), rest))
      else if packet_type == 3
      then some (
          let (bytes, rest) = take_remaining bs in
          ok (EnhancedPacket.hevc (HevcPacket.nalu none bytes), rest))
      else none

  -- `match (video_codec, packet_type)`
  unfoldable pub demux_codec : List ℕ → ℕ → List ℕ → Io (EnhancedPacket × List ℕ)
  unfolding demux_av1 demux_hevc same_code
  demux_codec video_codec packet_type bs =
      otherwise
        (if same_code video_codec av1_code
          then demux_av1 packet_type bs
          else if same_code video_codec hevc_code
          then demux_hevc packet_type bs
          else none)
        (let (bytes, rest) = take_remaining bs in
          ok (EnhancedPacket.unknown packet_type video_codec bytes, rest))

  -- `EnhancedPacketType::SequenceEnd` is 2, and `Metadata` is 4.
  unfoldable pub demux_enhanced : ℕ → List ℕ → Io (EnhancedPacket × List ℕ)
  unfolding demux_codec take_remaining
  demux_enhanced packet_type bs = do
    (video_codec, bs₁) ← read_exact 4 bs
    if packet_type == 2
        then ok (EnhancedPacket.sequence_end video_codec, bs₁)
        else if packet_type == 4
        then (let (bytes, rest) = take_remaining bs₁ in
            ok (EnhancedPacket.metadata video_codec bytes, rest))
        else demux_codec video_codec packet_type bs₁

  -- `VideoTagBody::demux`, where `VideoCodecId::Avc` is 7.
  unfoldable pub demux_body : VideoPacketType → List ℕ → Io (VideoTagBody × List ℕ)
  unfolding demux_avc demux_enhanced take_remaining
  demux_body (VideoPacketType.codec_id id) bs =
      if id == 7
      then (do (packet, rest) ← demux_avc bs; ok (VideoTagBody.avc packet, rest))
      else (let (bytes, rest) = take_remaining bs in ok (VideoTagBody.unknown id bytes, rest))
  demux_body (VideoPacketType.enhanced packet_type) bs = do
    (packet, rest) ← demux_enhanced packet_type bs
    ok (VideoTagBody.enhanced packet, rest)

  -- `FrameType::VideoInfoOrCommandFrame` is 5.
  unfoldable pub read_body : ℕ → VideoPacketType → List ℕ → Io (VideoTagBody × List ℕ)
  unfolding demux_body
  read_body frame_type packet_type bs =
      if frame_type == 5
      then (do (packet, rest) ← read_u8 bs; ok (VideoTagBody.command packet, rest))
      else demux_body packet_type bs

  -- `VideoTagHeader::demux`
  unfoldable pub demux : List ℕ → Io (VideoTagHeader × List ℕ)
  unfolding read_body new
  demux bs = do
    (byte, bs₁) ← read_u8 bs
    let frame_type = byte / 16 % 8
    (body, rest) ← read_body frame_type (new (byte % 16) (not (byte / 128 % 2 == 0))) bs₁
    let header : VideoTagHeader = record { frame_type = frame_type; body = body }
    ok (header, rest)

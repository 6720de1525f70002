-- ===== src/Av1/Config.antt =====
-- crates/av1/src/config.rs: `AV1VideoDescriptor` and `AV1CodecConfigurationRecord`, read.
pub mod Mux
pub mod Ends
pub mod RoundTrip
use video.Base.{
  ℕ, ◌+◌, ◌%◌, Bool, true, false, not, List, [], ◌∷◌, Option, none, some, ok, err, panic, stuck,
  ◌==◌, if◌then◌else◌, length,
}
use video.Io.{Io, Cursor, invalid_data}
use video.BytesUtil.BitReader.{BitReader, new, read_bit, read_bits, is_aligned}
use video.BytesUtil.Parser.{Parser, after, ◌>>=◌, ◌>>◌, pure, ensure, skip, take_rest, read_u8}
use video.Av1.{check_aligned}

pub record Av1CodecConfigurationRecord : Type 0 where
  pub seq_profile : ℕ
  pub seq_level_idx_0 : ℕ
  pub seq_tier_0 : Bool
  pub high_bitdepth : Bool
  pub twelve_bit : Bool
  pub monochrome : Bool
  pub chroma_subsampling_x : Bool
  pub chroma_subsampling_y : Bool
  pub chroma_sample_position : ℕ
  pub hdr_wcg_idc : ℕ
  pub initial_presentation_delay_minus_one : Option ℕ
  pub config_obu : List ℕ

pub record Av1VideoDescriptor : Type 0 where
  pub tag : ℕ
  pub length : ℕ
  pub codec_configuration_record : Av1CodecConfigurationRecord

-- `initial_presentation_delay_present`, and four bits.
unfoldable pub read_delay : Parser (Option ℕ)
unfolding skip
read_delay = do
  present ← read_bit
  if present then (read_bits 4 >>= λ delay. pure (some delay)) else (skip 4 >>= λ _. pure none)

unfoldable pub demux_bits : Parser Av1CodecConfigurationRecord
unfolding read_delay check_aligned take_rest skip
demux_bits = do
  marker ← read_bit
  ensure marker invalid_data
  version ← read_bits 7
  ensure (version == 1) invalid_data
  seq_profile ← read_bits 3
  seq_level_idx_0 ← read_bits 5
  seq_tier_0 ← read_bit
  high_bitdepth ← read_bit
  twelve_bit ← read_bit
  monochrome ← read_bit
  chroma_subsampling_x ← read_bit
  chroma_subsampling_y ← read_bit
  chroma_sample_position ← read_bits 2
  hdr_wcg_idc ← read_bits 2
  skip 1
  initial_presentation_delay_minus_one ← read_delay
  check_aligned
  config_obu ← take_rest
  let config : Av1CodecConfigurationRecord = record {
    seq_profile = seq_profile;
    seq_level_idx_0 = seq_level_idx_0;
    seq_tier_0 = seq_tier_0;
    high_bitdepth = high_bitdepth;
    twelve_bit = twelve_bit;
    monochrome = monochrome;
    chroma_subsampling_x = chroma_subsampling_x;
    chroma_subsampling_y = chroma_subsampling_y;
    chroma_sample_position = chroma_sample_position;
    hdr_wcg_idc = hdr_wcg_idc;
    initial_presentation_delay_minus_one = initial_presentation_delay_minus_one;
    config_obu = config_obu;
  }
  pure config

-- `AV1CodecConfigurationRecord::demux`, of a cursor.
unfoldable pub demux : Cursor → Io (Av1CodecConfigurationRecord × BitReader)
unfolding demux_bits
demux c = demux_bits (new c)

-- `AV1VideoDescriptor::demux`. Two bytes are read off the cursor itself, and a bit reader at its
-- start does the same.
unfoldable pub descriptor_bits : Parser Av1VideoDescriptor
unfolding demux_bits
descriptor_bits = do
  tag ← read_u8
  ensure (tag == 128) invalid_data
  length ← read_u8
  ensure (length == 4) invalid_data
  config ← demux_bits
  let descriptor : Av1VideoDescriptor = record {
    tag = tag;
    length = length;
    codec_configuration_record = config;
  }
  pure descriptor

unfoldable pub demux_descriptor : Cursor → Io (Av1VideoDescriptor × BitReader)
unfolding descriptor_bits
demux_descriptor c = descriptor_bits (new c)

unfoldable pub size : Av1CodecConfigurationRecord → ℕ
size config = 4 + length config.config_obu

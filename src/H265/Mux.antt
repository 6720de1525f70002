-- ===== src/H265/Mux.antt =====
-- crates/h265/src/config.rs: `HEVCDecoderConfigurationRecord::mux`.
use video.Base.{ℕ, ◌%◌, ◌^◌, List, ◌>>=◌, length}
use video.Io.{Io}
use video.ByteOrder.{ByteOrder}
use video.BytesUtil.BitWriter.{new, write_bits, finish}
use video.BytesUtil.Writer.{Put, ◌>>◌, put_flag, put_each, write_all, write_u8, write_be, write_le}
use video.H265.{NaluArray, HevcDecoderConfigurationRecord, type_into}

module _ (bo : ByteOrder) where
  -- `nalu.len() as u16`
  unfoldable pub write_nalu : List ℕ → Put
  write_nalu nalu = write_be bo 2 (length nalu % 2 ^ 16) >> write_all nalu

  unfoldable pub write_array : NaluArray → Put
  unfolding write_nalu
  write_array array =
      put_flag array.array_completeness
      >> write_bits 0 1
      >> write_bits (type_into array.nal_unit_type) 6
      >> write_be bo 2 (length array.nalus % 2 ^ 16)
      >> put_each write_nalu array.nalus

  unfoldable pub put_config : HevcDecoderConfigurationRecord → Put
  unfolding write_array
  put_config config =
      write_u8 config.configuration_version
      >> write_bits config.general_profile_space 2
      >> put_flag config.general_tier_flag
      >> write_bits config.general_profile_idc 5
      >> write_le bo 4 config.general_profile_compatibility_flags
      >> write_le bo 6 config.general_constraint_indicator_flags
      >> write_u8 config.general_level_idc
      >> write_bits 15 4
      >> write_bits config.min_spatial_segmentation_idc 12
      >> write_bits 63 6
      >> write_bits config.parallelism_type 2
      >> write_bits 63 6
      >> write_bits config.chroma_format_idc 2
      >> write_bits 31 5
      >> write_bits config.bit_depth_luma_minus8 3
      >> write_bits 31 5
      >> write_bits config.bit_depth_chroma_minus8 3
      >> write_be bo 2 config.avg_frame_rate
      >> write_bits config.constant_frame_rate 2
      >> write_bits config.num_temporal_layers 3
      >> put_flag config.temporal_id_nested
      >> write_bits config.length_size_minus_one 2
      >> write_u8 (length config.arrays % 256)
      >> put_each write_array config.arrays

  -- What it writes into a vector behind `out`.
  unfoldable pub mux : HevcDecoderConfigurationRecord → List ℕ → Io (List ℕ)
  unfolding put_config
  mux config out = do w ← put_config config (new out); finish w

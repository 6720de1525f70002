-- ===== src/H265.antt =====
-- crates/h265/src/config.rs: `HEVCDecoderConfigurationRecord`, read.
pub mod Mux
pub mod Ends
pub mod RoundTrip
use video.Base.{
  ℕ, zero, suc, ◌+◌, ◌%◌, Bool, List, [], ◌∷◌, ok, err, panic, stuck, ◌==◌, if◌then◌else◌, length,
}
use video.Io.{Io, Cursor}
use video.ByteOrder.{ByteOrder}
use video.BytesUtil.BitReader.{BitReader, new, read_bit, read_bits}
use video.BytesUtil.Parser.{
  Parser, after, ◌>>=◌, ◌>>◌, pure, repeat, skip, read_exact, read_be, read_le, read_u8,
}

pub data NaluType : Type 0 where
  vps pps sps : NaluType
  unknown : ℕ → NaluType

-- `NaluType::from`
unfoldable pub type_from : ℕ → NaluType
type_from value =
    if value == 32
    then vps
    else if value == 33
    then sps
    else if value == 34
    then pps
    else unknown value

-- `u8::from`
unfoldable pub type_into : NaluType → ℕ
type_into vps = 32
type_into sps = 33
type_into pps = 34
type_into (unknown value) = value

pub record NaluArray : Type 0 where
  pub array_completeness : Bool
  pub nal_unit_type : NaluType
  pub nalus : List (List ℕ)

pub record HevcDecoderConfigurationRecord : Type 0 where
  pub configuration_version : ℕ
  pub general_profile_space : ℕ
  pub general_tier_flag : Bool
  pub general_profile_idc : ℕ
  pub general_profile_compatibility_flags : ℕ
  pub general_constraint_indicator_flags : ℕ
  pub general_level_idc : ℕ
  pub min_spatial_segmentation_idc : ℕ
  pub parallelism_type : ℕ
  pub chroma_format_idc : ℕ
  pub bit_depth_luma_minus8 : ℕ
  pub bit_depth_chroma_minus8 : ℕ
  pub avg_frame_rate : ℕ
  pub constant_frame_rate : ℕ
  pub num_temporal_layers : ℕ
  pub temporal_id_nested : Bool
  pub length_size_minus_one : ℕ
  pub arrays : List NaluArray

-- The sums over the arrays, and over the units of an array.
unfoldable pub nalus_size : List (List ℕ) → ℕ
nalus_size [] = 0
nalus_size (nalu ∷ nalus) = 2 + length nalu + nalus_size nalus

unfoldable pub arrays_size : List NaluArray → ℕ
unfolding nalus_size
arrays_size [] = 0
arrays_size (array ∷ arrays) = 3 + nalus_size array.nalus + arrays_size arrays

unfoldable pub size : HevcDecoderConfigurationRecord → ℕ
unfolding arrays_size
size config = 23 + arrays_size config.arrays

module _ (bo : ByteOrder) where
  unfoldable pub read_nalu : Parser (List ℕ)
  read_nalu = do nal_unit_length ← read_be bo 2; read_exact nal_unit_length

  unfoldable pub read_array : Parser NaluArray
  unfolding read_nalu skip
  read_array = do
    array_completeness ← read_bit
    skip 1
    nal_unit_type ← read_bits 6
    num_nalus ← read_be bo 2
    nalus ← repeat num_nalus read_nalu
    let array : NaluArray = record {
      array_completeness = array_completeness;
      nal_unit_type = type_from nal_unit_type;
      nalus = nalus;
    }
    pure array

  unfoldable pub demux_bits : Parser HevcDecoderConfigurationRecord
  unfolding read_array skip
  demux_bits = do
    configuration_version ← read_u8
    general_profile_space ← read_bits 2
    general_tier_flag ← read_bit
    general_profile_idc ← read_bits 5
    general_profile_compatibility_flags ← read_le bo 4
    general_constraint_indicator_flags ← read_le bo 6
    general_level_idc ← read_u8
    skip 4
    min_spatial_segmentation_idc ← read_bits 12
    skip 6
    parallelism_type ← read_bits 2
    skip 6
    chroma_format_idc ← read_bits 2
    skip 5
    bit_depth_luma_minus8 ← read_bits 3
    skip 5
    bit_depth_chroma_minus8 ← read_bits 3
    avg_frame_rate ← read_be bo 2
    constant_frame_rate ← read_bits 2
    num_temporal_layers ← read_bits 3
    temporal_id_nested ← read_bit
    length_size_minus_one ← read_bits 2
    num_of_arrays ← read_u8
    arrays ← repeat num_of_arrays read_array
    let config : HevcDecoderConfigurationRecord = record {
      configuration_version = configuration_version;
      general_profile_space = general_profile_space;
      general_tier_flag = general_tier_flag;
      general_profile_idc = general_profile_idc;
      general_profile_compatibility_flags = general_profile_compatibility_flags;
      general_constraint_indicator_flags = general_constraint_indicator_flags;
      general_level_idc = general_level_idc;
      min_spatial_segmentation_idc = min_spatial_segmentation_idc;
      parallelism_type = parallelism_type;
      chroma_format_idc = chroma_format_idc;
      bit_depth_luma_minus8 = bit_depth_luma_minus8;
      bit_depth_chroma_minus8 = bit_depth_chroma_minus8;
      avg_frame_rate = avg_frame_rate;
      constant_frame_rate = constant_frame_rate;
      num_temporal_layers = num_temporal_layers;
      temporal_id_nested = temporal_id_nested;
      length_size_minus_one = length_size_minus_one;
      arrays = arrays;
    }
    pure config

  -- `demux`, of a cursor.
  unfoldable pub demux : Cursor → Io (HevcDecoderConfigurationRecord × BitReader)
  unfolding demux_bits
  demux c = demux_bits (new c)

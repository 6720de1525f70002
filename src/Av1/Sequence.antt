-- ===== src/Av1/Sequence.antt =====
-- crates/av1/src/obu/seq.rs: the sequence header, and `read_uvlc` of utils.rs. A `u8` that grows by
-- one here stays below 256.
use video.Base.{ℕ, zero, suc, ◌+◌, ◌-◌, ◌%◌, ◌^◌, Bool, List, Option, stuck, leb, if◌then◌else◌}
use video.ByteOrder.{ByteOrder}
use video.BytesUtil.BitReader.{read_bit, read_bits}
use video.BytesUtil.Parser.{Parser, ◌>>=◌, pure, optional, read_be}
use video.ExpGolomb.{zeros_fuel}
use video.Av1.{ObuHeader}

-- `while !reader.read_bit()? { leading_zeros += 1; }`, of a u8. A round takes a bit, so that one
-- round more than there are bits is enough.
unfoldable pub count_zeros : ℕ → ℕ → Parser ℕ
count_zeros zero leading_zeros r = stuck
count_zeros (suc f) leading_zeros r =
    (read_bit >>= λ bit.
    if bit then pure leading_zeros else count_zeros f ((leading_zeros + 1) % 256))
      r

unfoldable pub skip_zeros : Parser ℕ
unfolding count_zeros
skip_zeros r = count_zeros (zeros_fuel r) 0 r

unfoldable pub read_uvlc : Parser ℕ
unfolding skip_zeros
read_uvlc = do
  leading_zeros ← skip_zeros
  if leb 32 leading_zeros
      then pure (2 ^ 32 - 1)
      else (do value ← read_bits leading_zeros; pure (value + 2 ^ leading_zeros - 1))

pub record FrameIds : Type 0 where
  pub delta_frame_id_length : ℕ
  pub additional_frame_id_length : ℕ

pub record TimingInfo : Type 0 where
  pub num_units_in_display_tick : ℕ
  pub time_scale : ℕ
  pub num_ticks_per_picture : Option ℕ

pub record DecoderModelInfo : Type 0 where
  pub buffer_delay_length : ℕ
  pub num_units_in_decoding_tick : ℕ
  pub buffer_removal_time_length : ℕ
  pub frame_presentation_time_length : ℕ

pub record OperatingParametersInfo : Type 0 where
  pub decoder_buffer_delay : ℕ
  pub encoder_buffer_delay : ℕ
  pub low_delay_mode_flag : Bool

pub record OperatingPoint : Type 0 where
  pub idc : ℕ
  pub seq_level_idx : ℕ
  pub seq_tier : Bool
  pub operating_parameters_info : Option OperatingParametersInfo
  pub initial_display_delay : Option ℕ

pub record ColorConfig : Type 0 where
  pub bit_depth : ℕ
  pub mono_chrome : Bool
  pub num_planes : ℕ
  pub color_primaries : ℕ
  pub transfer_characteristics : ℕ
  pub matrix_coefficients : ℕ
  pub full_color_range : Bool
  pub subsampling_x : Bool
  pub subsampling_y : Bool
  pub chroma_sample_position : ℕ
  pub separate_uv_delta_q : Bool

pub record ColorRangeAndSubsampling : Type 0 where
  pub color_range : Bool
  pub subsampling_x : Bool
  pub subsampling_y : Bool

-- The tools that a header without `reduced_still_picture_header` chooses.
pub record Tools : Type 0 where
  pub enable_interintra_compound : Bool
  pub enable_masked_compound : Bool
  pub enable_warped_motion : Bool
  pub enable_dual_filter : Bool
  pub enable_order_hint : Bool
  pub enable_jnt_comp : Bool
  pub enable_ref_frame_mvs : Bool
  pub seq_force_screen_content_tools : ℕ
  pub seq_force_integer_mv : ℕ
  pub order_hint_bits : ℕ

-- The fields of the struct; those of `tools` stand among them there.
pub record SequenceHeaderObu : Type 0 where
  pub header : ObuHeader
  pub seq_profile : ℕ
  pub still_picture : Bool
  pub reduced_still_picture_header : Bool
  pub timing_info : Option TimingInfo
  pub decoder_model_info : Option DecoderModelInfo
  pub operating_points : List OperatingPoint
  pub max_frame_width : ℕ
  pub max_frame_height : ℕ
  pub frame_ids : Option FrameIds
  pub use_128x128_superblock : Bool
  pub enable_filter_intra : Bool
  pub enable_intra_edge_filter : Bool
  pub tools : Tools
  pub enable_superres : Bool
  pub enable_cdef : Bool
  pub enable_restoration : Bool
  pub color_config : ColorConfig
  pub film_grain_params_present : Bool

module _ (bo : ByteOrder) where
  unfoldable pub parse_timing_info : Parser TimingInfo
  unfolding read_uvlc
  parse_timing_info = do
    num_units_in_display_tick ← read_be bo 4
    time_scale ← read_be bo 4
    present ← read_bit
    num_ticks_per_picture ← optional present (read_uvlc >>= λ ticks. pure (ticks + 1))
    let info : TimingInfo = record {
      num_units_in_display_tick = num_units_in_display_tick;
      time_scale = time_scale;
      num_ticks_per_picture = num_ticks_per_picture;
    }
    pure info

  unfoldable pub parse_decoder_model_info : Parser DecoderModelInfo
  parse_decoder_model_info = do
    buffer_delay_length ← read_bits 5
    num_units_in_decoding_tick ← read_be bo 4
    buffer_removal_time_length ← read_bits 5
    frame_presentation_time_length ← read_bits 5
    let info : DecoderModelInfo = record {
      buffer_delay_length = buffer_delay_length + 1;
      num_units_in_decoding_tick = num_units_in_decoding_tick;
      buffer_removal_time_length = buffer_removal_time_length + 1;
      frame_presentation_time_length = frame_presentation_time_length + 1;
    }
    pure info

unfoldable pub parse_operating_parameters_info : ℕ → Parser OperatingParametersInfo
parse_operating_parameters_info delay_bit_length = do
  decoder_buffer_delay ← read_bits delay_bit_length
  encoder_buffer_delay ← read_bits delay_bit_length
  low_delay_mode_flag ← read_bit
  let info : OperatingParametersInfo = record {
    decoder_buffer_delay = decoder_buffer_delay;
    encoder_buffer_delay = encoder_buffer_delay;
    low_delay_mode_flag = low_delay_mode_flag;
  }
  pure info

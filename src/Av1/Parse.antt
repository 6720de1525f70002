-- ===== src/Av1/Parse.antt =====
-- crates/av1/src/obu/seq.rs: `SequenceHeaderObu::parse`, in its parts.
use video.Base.{
  ℕ, ◌+◌, Bool, true, false, not, ◌&&◌, List, [], ◌∷◌, Option, none, some, ltb, ◌==◌, if◌then◌else◌,
}
use video.Io.{Io, invalid_data}
use video.ByteOrder.{ByteOrder}
use video.BytesUtil.BitReader.{BitReader, new_from_slice, read_bit, read_bits}
use video.BytesUtil.Parser.{Parser, ◌>>=◌, ◌>>◌, pure, ensure, optional, repeat}
use video.Av1.{ObuHeader}
use video.Av1.Sequence.{
  FrameIds, TimingInfo, DecoderModelInfo, OperatingParametersInfo, OperatingPoint, Tools,
  SequenceHeaderObu, parse_timing_info, parse_decoder_model_info, parse_operating_parameters_info,
}
use video.Av1.Color.{parse_color_config}

-- `decoder_model_present_for_this_op`, and the parameters whose width it is.
unfoldable pub read_parameters : Option DecoderModelInfo → Parser (Option OperatingParametersInfo)
unfolding parse_operating_parameters_info
read_parameters none = pure none
read_parameters (some model) = do
  present ← read_bit
  optional present (parse_operating_parameters_info model.buffer_delay_length)

unfoldable pub read_display_delay : Bool → Parser (Option ℕ)
read_display_delay false = pure none
read_display_delay true = do
  present ← read_bit
  optional present (read_bits 4 >>= λ delay. pure (delay + 1))

-- A round of the loop over the operating points.
unfoldable pub read_operating_point : Option DecoderModelInfo → Bool → Parser OperatingPoint
unfolding read_parameters read_display_delay
read_operating_point model delay_flag = do
  idc ← read_bits 12
  seq_level_idx ← read_bits 5
  seq_tier ← if ltb 7 seq_level_idx then read_bit else pure false
  operating_parameters_info ← read_parameters model
  initial_display_delay ← read_display_delay delay_flag
  let point : OperatingPoint = record {
    idc = idc;
    seq_level_idx = seq_level_idx;
    seq_tier = seq_tier;
    operating_parameters_info = operating_parameters_info;
    initial_display_delay = initial_display_delay;
  }
  pure point

-- What the header says of time: the first branch on `reduced_still_picture_header`.
pub record Timing : Type 0 where
  pub timing_info : Option TimingInfo
  pub decoder_model_info : Option DecoderModelInfo
  pub operating_points : List OperatingPoint

unfoldable pub read_reduced_timing : Parser Timing
read_reduced_timing = do
  seq_level_idx ← read_bits 5
  let point : OperatingPoint = record {
    idc = 0;
    seq_level_idx = seq_level_idx;
    seq_tier = false;
    operating_parameters_info = none;
    initial_display_delay = none;
  }
  let timing : Timing = record {
    timing_info = none;
    decoder_model_info = none;
    operating_points = point ∷ [];
  }
  pure timing

-- `enable_order_hint` and the two flags under it.
unfoldable pub read_hints : Bool → Parser (Bool × Bool)
read_hints false = pure (false, false)
read_hints true = do
  enable_jnt_comp ← read_bit
  enable_ref_frame_mvs ← read_bit
  pure (enable_jnt_comp, enable_ref_frame_mvs)

-- The second operand of `||` is read only where the first is false.
unfoldable pub read_integer_mv : ℕ → Parser ℕ
read_integer_mv screen_content_tools =
    if screen_content_tools == 0
    then pure 2
    else (do chosen ← read_bit; if chosen then pure 2 else read_bits 1)

unfoldable pub read_tools : Parser Tools
unfolding read_hints read_integer_mv
read_tools = do
  enable_interintra_compound ← read_bit
  enable_masked_compound ← read_bit
  enable_warped_motion ← read_bit
  enable_dual_filter ← read_bit
  enable_order_hint ← read_bit
  hints ← read_hints enable_order_hint
  seq_choose_screen_content_tools ← read_bit
  seq_force_screen_content_tools ← if seq_choose_screen_content_tools then pure 2 else read_bits 1
  seq_force_integer_mv ← read_integer_mv seq_force_screen_content_tools
  order_hint_bits ← if enable_order_hint then (read_bits 3 >>= λ n. pure (n + 1)) else pure 0
  let tools : Tools = record {
    enable_interintra_compound = enable_interintra_compound;
    enable_masked_compound = enable_masked_compound;
    enable_warped_motion = enable_warped_motion;
    enable_dual_filter = enable_dual_filter;
    enable_order_hint = enable_order_hint;
    enable_jnt_comp = hints.0;
    enable_ref_frame_mvs = hints.1;
    seq_force_screen_content_tools = seq_force_screen_content_tools;
    seq_force_integer_mv = seq_force_integer_mv;
    order_hint_bits = order_hint_bits;
  }
  pure tools

-- What a reduced header says of the tools.
abbrev pub no_tools : Tools
no_tools = record {
  enable_interintra_compound = false;
  enable_masked_compound = false;
  enable_warped_motion = false;
  enable_dual_filter = false;
  enable_order_hint = false;
  enable_jnt_comp = false;
  enable_ref_frame_mvs = false;
  seq_force_screen_content_tools = 2;
  seq_force_integer_mv = 2;
  order_hint_bits = 0;
}

unfoldable pub read_frame_ids : Parser FrameIds
read_frame_ids = do
  delta_frame_id_length ← read_bits 4
  additional_frame_id_length ← read_bits 3
  let ids : FrameIds = record {
    delta_frame_id_length = delta_frame_id_length + 2;
    additional_frame_id_length = additional_frame_id_length + 1;
  }
  pure ids

-- The width and the height, each in as many bits as is said in front of them.
unfoldable pub read_frame_size : Parser (ℕ × ℕ)
read_frame_size = do
  frame_width_bits ← read_bits 4
  frame_height_bits ← read_bits 4
  max_frame_width ← read_bits (frame_width_bits + 1)
  max_frame_height ← read_bits (frame_height_bits + 1)
  pure (max_frame_width + 1, max_frame_height + 1)

module _ (bo : ByteOrder) where
  -- The timing, and the model behind it.
  unfoldable pub read_timing_info : Parser (TimingInfo × Option DecoderModelInfo)
  unfolding parse_timing_info parse_decoder_model_info
  read_timing_info = do
    timing_info ← parse_timing_info bo
    present ← read_bit
    decoder_model_info ← optional present (parse_decoder_model_info bo)
    pure (timing_info, decoder_model_info)

  abbrev pub model_of : Option (TimingInfo × Option DecoderModelInfo) → Option DecoderModelInfo
  model_of none = none
  model_of (some (timing, model)) = model

  abbrev pub timing_of : Option (TimingInfo × Option DecoderModelInfo) → Option TimingInfo
  timing_of none = none
  timing_of (some (timing, model)) = some timing

  unfoldable pub read_full_timing : Parser Timing
  unfolding read_timing_info read_operating_point
  read_full_timing = do
    timing_info_present_flag ← read_bit
    info ← optional timing_info_present_flag read_timing_info
    initial_display_delay_present_flag ← read_bit
    operating_points_cnt_minus_1 ← read_bits 5
    operating_points ←
        repeat (operating_points_cnt_minus_1 + 1)
          (read_operating_point (model_of info) initial_display_delay_present_flag)
    let timing : Timing = record {
      timing_info = timing_of info;
      decoder_model_info = model_of info;
      operating_points = operating_points;
    }
    pure timing

  unfoldable pub parse_bits : ObuHeader → Parser SequenceHeaderObu
  unfolding read_reduced_timing read_full_timing read_frame_size read_frame_ids read_tools
      parse_color_config
  parse_bits header = do
    seq_profile ← read_bits 3
    still_picture ← read_bit
    reduced_still_picture_header ← read_bit
    ensure (not (not still_picture && reduced_still_picture_header)) invalid_data
    timing ← if reduced_still_picture_header then read_reduced_timing else read_full_timing
    frame_size ← read_frame_size
    frame_id_numbers_present_flag ← if reduced_still_picture_header then pure false else read_bit
    frame_ids ← optional frame_id_numbers_present_flag read_frame_ids
    use_128x128_superblock ← read_bit
    enable_filter_intra ← read_bit
    enable_intra_edge_filter ← read_bit
    tools ← if reduced_still_picture_header then pure no_tools else read_tools
    enable_superres ← read_bit
    enable_cdef ← read_bit
    enable_restoration ← read_bit
    color_config ← parse_color_config seq_profile
    film_grain_params_present ← read_bit
    let parsed : SequenceHeaderObu = record {
      header = header;
      seq_profile = seq_profile;
      still_picture = still_picture;
      reduced_still_picture_header = reduced_still_picture_header;
      timing_info = timing.timing_info;
      decoder_model_info = timing.decoder_model_info;
      operating_points = timing.operating_points;
      max_frame_width = frame_size.0;
      max_frame_height = frame_size.1;
      frame_ids = frame_ids;
      use_128x128_superblock = use_128x128_superblock;
      enable_filter_intra = enable_filter_intra;
      enable_intra_edge_filter = enable_intra_edge_filter;
      tools = tools;
      enable_superres = enable_superres;
      enable_cdef = enable_cdef;
      enable_restoration = enable_restoration;
      color_config = color_config;
      film_grain_params_present = film_grain_params_present;
    }
    pure parsed

  -- `SequenceHeaderObu::parse`, of a reader of bytes.
  unfoldable pub parse : ObuHeader → List ℕ → Io (SequenceHeaderObu × BitReader)
  unfolding parse_bits
  parse header data_bytes = parse_bits header (new_from_slice data_bytes)

-- ===== src/Av1/Color.antt =====
-- crates/av1/src/obu/seq.rs: `ColorConfig::parse`.
use video.Base.{ℕ, ◌%◌, Bool, true, false, ◌&&◌, ◌==◌, if◌then◌else◌}
use video.BytesUtil.BitReader.{read_bit, read_bits}
use video.BytesUtil.Parser.{Parser, ◌>>=◌, pure}
use video.Av1.Sequence.{ColorConfig, ColorRangeAndSubsampling}

-- 4:2:0, 4:4:4, or what a 12 bit depth says.
unfoldable pub read_subsampling : ℕ → ℕ → Parser (Bool × Bool)
read_subsampling seq_profile bit_depth =
    if seq_profile == 0
    then pure (true, true)
    else if seq_profile == 1
    then pure (false, false)
    else if bit_depth == 12
    then (do
      subsampling_x ← read_bit
      subsampling_y ← if subsampling_x then read_bit else pure false
      pure (subsampling_x, subsampling_y))
    else pure (true, false)

unfoldable pub parse_color_range_and_subsampling :
    ℕ → ℕ → ℕ → ℕ → ℕ → Parser ColorRangeAndSubsampling
unfolding read_subsampling
parse_color_range_and_subsampling seq_profile color_primaries transfer_characteristics
      matrix_coefficients bit_depth =
    if (color_primaries == 1) && (transfer_characteristics == 13) && (matrix_coefficients == 0)
    then pure (record { color_range = true; subsampling_x = false; subsampling_y = false })
    else (do
      color_range ← read_bit
      subsampling ← read_subsampling seq_profile bit_depth
      let found : ColorRangeAndSubsampling = record {
        color_range = color_range;
        subsampling_x = subsampling.0;
        subsampling_y = subsampling.1;
      }
      pure found)

-- The `match` on the profile and the flag: the last bit is read for profile 2 alone.
unfoldable pub read_bit_depth : ℕ → Bool → Parser ℕ
read_bit_depth seq_profile false = pure 8
read_bit_depth seq_profile true =
    if seq_profile == 2 then (do twelve ← read_bit; pure (if twelve then 12 else 10)) else pure 10

-- Primaries, transfer characteristics and matrix coefficients, 2 where they are unspecified.
unfoldable pub read_description : Parser (ℕ × ℕ × ℕ)
read_description = do
  color_description_present_flag ← read_bit
  if color_description_present_flag
      then (do
        color_primaries ← read_bits 8
        transfer_characteristics ← read_bits 8
        matrix_coefficients ← read_bits 8
        pure (color_primaries % 256, transfer_characteristics % 256, matrix_coefficients % 256))
      else pure (2, 2, 2)

unfoldable pub parse_color_config : ℕ → Parser ColorConfig
unfolding read_bit_depth read_description parse_color_range_and_subsampling
parse_color_config seq_profile = do
  high_bitdepth ← read_bit
  bit_depth ← read_bit_depth seq_profile high_bitdepth
  mono_chrome ← if seq_profile == 1 then pure false else read_bit
  description ← read_description
  if mono_chrome
      then (do
        full_color_range ← read_bit
        let config : ColorConfig = record {
          bit_depth = bit_depth;
          mono_chrome = mono_chrome;
          num_planes = 1;
          color_primaries = description.0;
          transfer_characteristics = description.1;
          matrix_coefficients = description.2;
          full_color_range = full_color_range;
          subsampling_x = true;
          subsampling_y = true;
          chroma_sample_position = 0;
          separate_uv_delta_q = false;
        }
        pure config)
      else (do
        found ←
            parse_color_range_and_subsampling seq_profile description.0 description.1 description.2
              bit_depth
        chroma_sample_position ←
            if found.subsampling_x && found.subsampling_y then read_bits 2 else pure 0
        separate_uv_delta_q ← read_bit
        let config : ColorConfig = record {
          bit_depth = bit_depth;
          mono_chrome = mono_chrome;
          num_planes = 3;
          color_primaries = description.0;
          transfer_characteristics = description.1;
          matrix_coefficients = description.2;
          full_color_range = found.color_range;
          subsampling_x = found.subsampling_x;
          subsampling_y = found.subsampling_y;
          chroma_sample_position = chroma_sample_position % 256;
          separate_uv_delta_q = separate_uv_delta_q;
        }
        pure config)

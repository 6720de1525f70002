-- ===== src/Av1/Config/Mux.antt =====
-- crates/av1/src/config.rs: `AV1CodecConfigurationRecord::mux`.
use video.Base.{ℕ, true, false, List, ◌++◌, Option, none, some, ok, ◌>>=◌}
use video.Io.{Io}
use video.BytesUtil.BitWriter.{new, write_bits, finish}
use video.BytesUtil.Writer.{Put, ◌>>◌, put_flag}
use video.Av1.Config.{Av1CodecConfigurationRecord}

unfoldable pub write_delay : Option ℕ → Put
write_delay none = put_flag false >> write_bits 0 4
write_delay (some delay) = put_flag true >> write_bits delay 4

unfoldable pub put_config : Av1CodecConfigurationRecord → Put
unfolding write_delay
put_config config =
    put_flag true
    >> write_bits 1 7
    >> write_bits config.seq_profile 3
    >> write_bits config.seq_level_idx_0 5
    >> put_flag config.seq_tier_0
    >> put_flag config.high_bitdepth
    >> put_flag config.twelve_bit
    >> put_flag config.monochrome
    >> put_flag config.chroma_subsampling_x
    >> put_flag config.chroma_subsampling_y
    >> write_bits config.chroma_sample_position 2
    >> write_bits 0 3
    >> write_delay config.initial_presentation_delay_minus_one

-- What it writes into a vector behind `out`. A vector takes the whole of `config_obu`.
unfoldable pub mux : Av1CodecConfigurationRecord → List ℕ → Io (List ℕ)
unfolding put_config
mux config out = do
  w ← put_config config (new out)
  bytes ← finish w
  ok (bytes ++ config.config_obu)

-- ===== src/H264.antt =====
-- crates/h264/src/config.rs: `AVCDecoderConfigurationRecord`. A reader is the list of the bytes
-- behind its cursor.
pub mod RoundTrip
pub mod Ends
use video.Base.{
  ℕ, zero, suc, ◌+◌, ◌*◌, ◌%◌, ◌^◌, Bool, true, false, ◌||◌, List, [], ◌∷◌, Option, none, some, ok,
  err, panic, stuck, ◌>>=◌, ◌==◌, if◌then◌else◌, length,
}
use video.Io.{Io, Cursor, remaining, read_u8}
use video.ByteOrder.{ByteOrder, read_be}
use video.BytesUtil.BytesCursor.{extract}
use video.BytesUtil.BitWriter.{BitWriter, new, write_bits, finish}
use video.BytesUtil.Writer.{Put, ◌>>◌, done, put_each, write_all, write_u8, write_be}

pub record AvccExtendedConfig : Type 0 where
  pub chroma_format : ℕ
  pub bit_depth_luma_minus8 : ℕ
  pub bit_depth_chroma_minus8 : ℕ
  pub sequence_parameter_set_ext : List (List ℕ)

pub record AvcDecoderConfigurationRecord : Type 0 where
  pub configuration_version : ℕ
  pub profile_indication : ℕ
  pub profile_compatibility : ℕ
  pub level_indication : ℕ
  pub length_size_minus_one : ℕ
  pub sps : List (List ℕ)
  pub pps : List (List ℕ)
  pub extended_config : Option AvccExtendedConfig

-- `66 | 77 | 88`
abbrev pub has_no_extension : ℕ → Bool
has_no_extension profile = profile == 66 || profile == 77 || profile == 88

-- `reader.has_remaining()`
abbrev pub has_remaining : List ℕ → Bool
has_remaining [] = false
has_remaining (_ ∷ _) = true

-- The sum over a list of parameter sets, of `2 + set.len()`.
unfoldable pub sets_size : List (List ℕ) → ℕ
sets_size [] = 0
sets_size (set ∷ sets) = 2 + length set + sets_size sets

unfoldable pub extension_size : Option AvccExtendedConfig → ℕ
unfolding sets_size
extension_size none = 0
extension_size (some extended) = 4 + sets_size extended.sequence_parameter_set_ext

unfoldable pub size : AvcDecoderConfigurationRecord → ℕ
unfolding sets_size extension_size
size config =
    6 + sets_size config.sps + 1 + sets_size config.pps + extension_size config.extended_config

module _ (bo : ByteOrder) where
  unfoldable pub read_set : List ℕ → Io (List ℕ × List ℕ)
  unfolding extract
  read_set bs = do (set_length, rest) ← read_be bo 2 bs; extract set_length rest

  -- `for _ in 0..n`
  unfoldable pub read_sets : ℕ → List ℕ → Io (List (List ℕ) × List ℕ)
  unfolding read_set
  read_sets zero bs = ok ([], bs)
  read_sets (suc n) bs = do
    (set, rest) ← read_set bs
    (sets, rest') ← read_sets n rest
    ok (set ∷ sets, rest')

  unfoldable pub read_extended : List ℕ → Io (AvccExtendedConfig × List ℕ)
  unfolding read_sets
  read_extended bs = do
    (chroma_format, bs₁) ← read_u8 bs
    (bit_depth_luma_minus8, bs₂) ← read_u8 bs₁
    (bit_depth_chroma_minus8, bs₃) ← read_u8 bs₂
    (number_of_sequence_parameter_set_ext, bs₄) ← read_u8 bs₃
    (sequence_parameter_set_ext, rest) ← read_sets number_of_sequence_parameter_set_ext bs₄
    let extended : AvccExtendedConfig = record {
      chroma_format = chroma_format % 4;
      bit_depth_luma_minus8 = bit_depth_luma_minus8 % 8;
      bit_depth_chroma_minus8 = bit_depth_chroma_minus8 % 8;
      sequence_parameter_set_ext = sequence_parameter_set_ext;
    }
    ok (extended, rest)

  unfoldable pub read_extended_config : ℕ → List ℕ → Io (Option AvccExtendedConfig × List ℕ)
  unfolding read_extended
  read_extended_config profile_indication bs =
      if has_no_extension profile_indication
      then ok (none, bs)
      else if has_remaining bs
      then (do (extended, rest) ← read_extended bs; ok (some extended, rest))
      else ok (none, bs)

  -- The record, and the bytes behind it.
  unfoldable pub demux : List ℕ → Io (AvcDecoderConfigurationRecord × List ℕ)
  unfolding read_sets read_extended_config
  demux bs = do
    (configuration_version, bs₁) ← read_u8 bs
    (profile_indication, bs₂) ← read_u8 bs₁
    (profile_compatibility, bs₃) ← read_u8 bs₂
    (level_indication, bs₄) ← read_u8 bs₃
    (length_size_minus_one, bs₅) ← read_u8 bs₄
    (num_of_sequence_parameter_sets, bs₆) ← read_u8 bs₅
    (sps, bs₇) ← read_sets (num_of_sequence_parameter_sets % 32) bs₆
    (num_of_picture_parameter_sets, bs₈) ← read_u8 bs₇
    (pps, bs₉) ← read_sets num_of_picture_parameter_sets bs₈
    (extended_config, rest) ← read_extended_config profile_indication bs₉
    let config : AvcDecoderConfigurationRecord = record {
      configuration_version = configuration_version;
      profile_indication = profile_indication;
      profile_compatibility = profile_compatibility;
      level_indication = level_indication;
      length_size_minus_one = length_size_minus_one % 4;
      sps = sps;
      pps = pps;
      extended_config = extended_config;
    }
    ok (config, rest)

  -- `sps.len() as u16`
  unfoldable pub write_set : List ℕ → Put
  unfolding write_be write_all
  write_set set = write_be bo 2 (length set % 2 ^ 16) >> write_all set

  unfoldable pub write_extended : Option AvccExtendedConfig → Put
  unfolding write_set
  write_extended none = done
  write_extended (some extended) =
      (write_bits 63 6 >> write_bits extended.chroma_format 2)
      >> (write_bits 31 5 >> write_bits extended.bit_depth_luma_minus8 3)
      >> (write_bits 31 5 >> write_bits extended.bit_depth_chroma_minus8 3)
      >> write_bits (length extended.sequence_parameter_set_ext) 8
      >> put_each write_set extended.sequence_parameter_set_ext

  unfoldable pub put_config : AvcDecoderConfigurationRecord → Put
  unfolding write_set write_extended
  put_config config =
      write_u8 config.configuration_version
      >> write_u8 config.profile_indication
      >> write_u8 config.profile_compatibility
      >> write_u8 config.level_indication
      >> (write_bits 63 6 >> write_bits config.length_size_minus_one 2)
      >> (write_bits 7 3 >> write_bits (length config.sps) 5)
      >> put_each write_set config.sps
      >> write_bits (length config.pps) 8
      >> put_each write_set config.pps
      >> write_extended config.extended_config

  -- What `mux` writes into a vector behind `out`.
  unfoldable pub mux : AvcDecoderConfigurationRecord → List ℕ → Io (List ℕ)
  unfolding put_config
  mux config out = do w ← put_config config (new out); finish w

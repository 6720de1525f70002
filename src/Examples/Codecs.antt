-- ===== src/Examples/Codecs.antt =====
-- The theorems on FLV files and on the records of video codecs at concrete inputs.
use video.Base.{
  ℕ, true, false, ◌≤◌, ◌≡◌, refl, arith, List, [], ◌∷◌, ◌++◌, none, some, ok, length, drop, inl,
  panic, Returns, Settles,
}
use video.Base.Int.{pos}
use video.Io.{read_u8, read_exact}
use video.ByteOrder.{read_be}
use video.ByteOrder.Reference.{positional}
use video.Amf0.Decode.{decode_with_type, read_string}
use video.Amf0.Define.{from_number}
use video.BytesUtil.BytesCursor.{extract}
use video.Flv as Flv
use video.BytesUtil.Bits.{to_bits, bytes_bits}
use video.BytesUtil.BitReader.{BitReader, new_from_slice}
use video.BytesUtil.BitReader.Seek.{seek_bits, bit_stream_position}
use video.BytesUtil.BitReader.Seek.Forward.{seek_bits-forward}
use video.BytesUtil.Parser.Reads.{At, new_from_slice-At}
use video.Flv.Audio as Audio
use video.Flv.Tag as Tag
use video.Flv.Tag.Total.{TagPanics, first, FilePanics, demux_file-Settles}
use video.Flv.Tag.Panics.{demux_file-panics}
use video.Flv.Tag.Layout.{RawTag, tag_bytes, read_as, demux-tag_bytes}
use video.H264 as H264
use video.H264.RoundTrip.{IsConfig, config_bytes, demux-mux, size-mux, mux-config_bytes}
use video.H265 as H265
use video.H265.Mux as H265Mux
use video.H265.RoundTrip as H265RoundTrip
use video.Av1 as Av1
use video.Av1.Parse as Av1Parse
use video.Av1.Bounds.Header.{IsBounded, parse-IsBounded}
use video.Av1.Leb128.{leb128, read_leb128-leb128}
use video.Av1.Config as Av1Config
use video.Av1.Config.Mux as Av1Mux
use video.Av1.Config.RoundTrip as Av1RoundTrip

-- A header, the size of no tag, and an audio tag of two bytes.
abbrev flv_file : List ℕ
flv_file =
    70 ∷ 76 ∷ 86 ∷ 1 ∷ 4 ∷ 0 ∷ 0 ∷ 0 ∷ 9 ∷ 0 ∷ 0 ∷ 0 ∷ 0 ∷ 8 ∷ 0 ∷ 0 ∷ 2 ∷ 0 ∷ 0 ∷ 5 ∷ 0 ∷ 0 ∷ 0 ∷ 0
    ∷ 32 ∷ 7 ∷ []

-- A header, the size of no tag, and a script tag whose data are a string of five bytes that has none.
abbrev script_tag : List ℕ
script_tag = 18 ∷ 0 ∷ 0 ∷ 3 ∷ 0 ∷ 0 ∷ 0 ∷ 0 ∷ 0 ∷ 0 ∷ 0 ∷ 2 ∷ 0 ∷ 5 ∷ []

abbrev script_file : List ℕ
script_file = 70 ∷ 76 ∷ 86 ∷ 1 ∷ 4 ∷ 0 ∷ 0 ∷ 0 ∷ 9 ∷ 0 ∷ 0 ∷ 0 ∷ 0 ∷ script_tag

script_tag-TagPanics : TagPanics positional script_tag
unfolding read_u8 read_be read_exact extract decode_with_type from_number read_string
script_tag-TagPanics = record {
  size = 3;
  timestamp = 0;
  extended = 0;
  stream = 0;
  after_type = drop 1 script_tag;
  after_size = drop 4 script_tag;
  after_timestamp = drop 7 script_tag;
  after_extended = drop 8 script_tag;
  after_stream = drop 11 script_tag;
  contents = 2 ∷ 0 ∷ 5 ∷ [];
  rest = [];
  type_of = refl;
  size_of = refl;
  timestamp_of = refl;
  extended_of = refl;
  stream_of = refl;
  contents_of = refl;
  cause = inl refl;
}

script_file-FilePanics : FilePanics positional script_file
unfolding Flv.demux read_be read_exact read_u8
script_file-FilePanics = (
  record { version = 1; has_audio = true; has_video = false; extra = [] },
  drop 9 script_file,
  refl,
  (script_tag, first refl, script_tag-TagPanics),
)

demux_file-panics_example : Tag.demux_file positional script_file ≡ panic
demux_file-panics_example = demux_file-panics positional script_file script_file-FilePanics

demux_file-Settles_example :
    Settles
      (FilePanics positional flv_file)
      (λ (file, rest). rest ≡ [])
      (Tag.demux_file positional flv_file)
demux_file-Settles_example = demux_file-Settles positional flv_file

-- Raw AAC data at 44 kHz, in stereo.
abbrev audio_tag : RawTag
audio_tag = record {
  tag_type = 8;
  timestamp_ms = 16909060;
  stream_id = 0;
  contents = 175 ∷ 1 ∷ 33 ∷ [];
}

abbrev audio_data : Tag.FlvTagData
audio_data = Tag.FlvTagData.audio (record {
  sound_rate = 3;
  sound_size = 1;
  sound_type = 1;
  body = Audio.AudioDataBody.aac (Audio.AacPacket.raw (33 ∷ []));
})

audio_data-read : Tag.demux_data positional 8 (175 ∷ 1 ∷ 33 ∷ []) ≡ ok (audio_data, [])
unfolding Tag.demux_data Audio.demux read_u8
audio_data-read = refl

demux-tag_bytes_example :
    Tag.demux positional (tag_bytes positional audio_tag ++ 0 ∷ [])
    ≡ ok (read_as audio_tag audio_data, 0 ∷ [])
demux-tag_bytes_example =
    demux-tag_bytes positional audio_tag audio_data [] (0 ∷ [])
      (record { timestamp = omega arith; stream = omega arith; size = omega arith }) audio_data-read

abbrev avc_config : H264.AvcDecoderConfigurationRecord
avc_config = record {
  configuration_version = 1;
  profile_indication = 100;
  profile_compatibility = 0;
  level_indication = 31;
  length_size_minus_one = 3;
  sps = (103 ∷ 100 ∷ []) ∷ [];
  pps = (104 ∷ []) ∷ [];
  extended_config = some (record {
    chroma_format = 1;
    bit_depth_luma_minus8 = 0;
    bit_depth_chroma_minus8 = 2;
    sequence_parameter_set_ext = [];
  });
}

avc_config-IsConfig : IsConfig avc_config
avc_config-IsConfig = record {
  version = omega arith;
  profile = omega arith;
  compatibility = omega arith;
  level = omega arith;
  length_size = omega arith;
  sps_count = omega arith;
  sps_sets = (record { short = omega arith; bytes = (omega arith, (omega arith, tt)) }, tt);
  pps_count = omega arith;
  pps_sets = (record { short = omega arith; bytes = (omega arith, tt) }, tt);
  extension = (
    refl,
    record {
      chroma = omega arith;
      luma_depth = omega arith;
      chroma_depth = omega arith;
      count = omega arith;
      sets = tt;
    },
  );
}

demux-mux_example :
    (bytes : List ℕ) × (H264.mux positional avc_config [] ≡ ok bytes)
    × (H264.demux positional bytes ≡ ok (avc_config, []))
demux-mux_example = demux-mux positional avc_config avc_config-IsConfig

size-mux_example :
    (bytes : List ℕ) × (H264.mux positional avc_config [] ≡ ok bytes)
    × (H264.size avc_config ≡ length bytes)
size-mux_example = size-mux positional avc_config avc_config-IsConfig

mux-config_bytes_example :
    H264.mux positional avc_config (7 ∷ []) ≡ ok (7 ∷ config_bytes positional avc_config)
mux-config_bytes_example =
    mux-config_bytes positional avc_config (7 ∷ []) avc_config-IsConfig (omega arith, tt)

two_bytes-enough : 11 ≤ length (bytes_bits (160 ∷ 255 ∷ []))
unfolding bytes_bits to_bits
two_bytes-enough = omega arith

seek_bits-forward_example :
    (r' : BitReader) × (seek_bits (pos 11) (new_from_slice (160 ∷ 255 ∷ []))
      ≡ ok (bit_stream_position r', r'))
    × At r' (drop 11 (bytes_bits (160 ∷ 255 ∷ [])))
seek_bits-forward_example =
    seek_bits-forward 11 (new_from_slice (160 ∷ 255 ∷ [])) (bytes_bits (160 ∷ 255 ∷ []))
      (new_from_slice-At (160 ∷ 255 ∷ []) (omega arith, (omega arith, tt))) two_bytes-enough

abbrev obu_header : Av1.ObuHeader
obu_header = record { obu_type = Av1.ObuType.sequence_header; size = none; extension_header = none }

parse-IsBounded_example :
    Returns
      (λ (h, r). IsBounded h)
      (Av1Parse.parse positional obu_header (24 ∷ 21 ∷ 127 ∷ 252 ∷ 192 ∷ 8 ∷ []))
parse-IsBounded_example = parse-IsBounded positional obu_header (24 ∷ 21 ∷ 127 ∷ 252 ∷ 192 ∷ 8 ∷ [])

abbrev av1_config : Av1Config.Av1CodecConfigurationRecord
av1_config = record {
  seq_profile = 0;
  seq_level_idx_0 = 13;
  seq_tier_0 = false;
  high_bitdepth = true;
  twelve_bit = false;
  monochrome = false;
  chroma_subsampling_x = true;
  chroma_subsampling_y = true;
  chroma_sample_position = 2;
  hdr_wcg_idc = 1;
  initial_presentation_delay_minus_one = some 9;
  config_obu = 10 ∷ 11 ∷ [];
}

av1_config-IsConfig : Av1RoundTrip.IsConfig av1_config
av1_config-IsConfig = record {
  profile = omega arith;
  level = omega arith;
  position = omega arith;
  delay = omega arith;
  obu = (omega arith, (omega arith, tt));
}

demux-mux-without_hdr_example :
    (bytes : List ℕ) × (r : BitReader) × (Av1Mux.mux av1_config [] ≡ ok bytes)
    × (Av1Config.size av1_config ≡ length bytes)
    × (Av1Config.demux (record { inner = bytes; position = 0 })
        ≡ ok (Av1RoundTrip.without_hdr av1_config, r))
demux-mux-without_hdr_example = Av1RoundTrip.demux-mux-without_hdr av1_config av1_config-IsConfig

-- One SPS of three bytes.
abbrev hevc_config : H265.HevcDecoderConfigurationRecord
hevc_config = record {
  configuration_version = 1;
  general_profile_space = 0;
  general_tier_flag = true;
  general_profile_idc = 2;
  general_profile_compatibility_flags = 4;
  general_constraint_indicator_flags = 144;
  general_level_idc = 93;
  min_spatial_segmentation_idc = 300;
  parallelism_type = 1;
  chroma_format_idc = 1;
  bit_depth_luma_minus8 = 2;
  bit_depth_chroma_minus8 = 2;
  avg_frame_rate = 7680;
  constant_frame_rate = 1;
  num_temporal_layers = 1;
  temporal_id_nested = true;
  length_size_minus_one = 3;
  arrays =
      record {
        array_completeness = true;
        nal_unit_type = H265.NaluType.sps;
        nalus = (66 ∷ 1 ∷ 1 ∷ []) ∷ [];
      }
      ∷ record { array_completeness = false; nal_unit_type = H265.NaluType.unknown 39; nalus = [] }
      ∷ record { array_completeness = false; nal_unit_type = H265.NaluType.vps; nalus = [] }
      ∷ [];
}

hevc_config-IsConfig : H265RoundTrip.IsConfig hevc_config
hevc_config-IsConfig = record {
  version = omega arith;
  profile_space = omega arith;
  profile_idc = omega arith;
  compatibility = omega arith;
  constraint = omega arith;
  level = omega arith;
  segmentation = omega arith;
  parallelism = omega arith;
  chroma = omega arith;
  luma_depth = omega arith;
  chroma_depth = omega arith;
  average_rate = omega arith;
  constant_rate = omega arith;
  layers = omega arith;
  length_size = omega arith;
  count = omega arith;
  units = (
    record {
      type = tt;
      count = omega arith;
      units = (
        record { short = omega arith; bytes = (omega arith, (omega arith, (omega arith, tt))) },
        tt,
      );
    },
    (
      record {
        type = (omega arith, (omega arith, (omega arith, omega arith)));
        count = omega arith;
        units = tt;
      },
      (record { type = tt; count = omega arith; units = tt }, tt),
    ),
  );
}

demux-mux-size_example :
    (bytes : List ℕ) × (r : BitReader) × (H265Mux.mux positional hevc_config [] ≡ ok bytes)
    × (H265.size hevc_config ≡ length bytes)
    × (H265.demux positional (record { inner = bytes; position = 0 }) ≡ ok (hevc_config, r))
demux-mux-size_example = H265RoundTrip.demux-mux-size positional hevc_config hevc_config-IsConfig

-- 624485 in three bytes, with a byte behind it.
leb128-At :
    At
      (new_from_slice (229 ∷ 142 ∷ 38 ∷ 7 ∷ []))
      (bytes_bits (leb128 7 624485) ++ bytes_bits (7 ∷ []))
unfolding leb128 bytes_bits to_bits
leb128-At =
    new_from_slice-At (229 ∷ 142 ∷ 38 ∷ 7 ∷ [])
      (omega arith, (omega arith, (omega arith, (omega arith, tt))))

read_leb128-leb128_example :
    (r' : BitReader) × (Av1.read_leb128 (new_from_slice (229 ∷ 142 ∷ 38 ∷ 7 ∷ []))
      ≡ ok (624485, r'))
    × At r' (bytes_bits (7 ∷ []))
read_leb128-leb128_example =
    read_leb128-leb128 624485 (new_from_slice (229 ∷ 142 ∷ 38 ∷ 7 ∷ [])) (bytes_bits (7 ∷ []))
      (omega arith) leb128-At

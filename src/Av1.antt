-- ===== src/Av1.antt =====
-- crates/av1/src/obu: OBU headers, and the variable-length integers in them.
pub mod Bounds
pub mod Parse
pub mod Sequence
pub mod Color
pub mod Config
pub mod Leb128
use video.Base.{
  ℕ, zero, suc, ◌+◌, ◌-◌, ◌*◌, ◌/◌, ◌%◌, ◌^◌, bit_or, Bool, true, false, not, Option, none, some,
  ok, err, leb, ltb, ◌==◌, if◌then◌else◌,
}
use video.Io.{Io, IoError, invalid_data}
use video.BytesUtil.BitReader.{BitReader, new_from_slice, read_bit, read_bits, is_aligned}
use video.BytesUtil.Parser.{Parser, after, ◌>>=◌, ◌>>◌, pure, fail, ensure, optional}

-- The rounds `i` to 7 of the loop of `read_leb128`; `n` is `8 - i`.
unfoldable pub read_leb128_loop : ℕ → ℕ → ℕ → Parser ℕ
read_leb128_loop zero i result = pure result
read_leb128_loop (suc n) i result = do
  byte ← read_bits 8
  let rest = read_leb128_loop n (i + 1) (bit_or result (byte % 128 * 2 ^ (i * 7)))
  if byte / 128 % 2 == 0 then pure (bit_or result (byte % 128 * 2 ^ (i * 7))) else rest

unfoldable pub read_leb128 : Parser ℕ
unfolding read_leb128_loop
read_leb128 = read_leb128_loop 8 0 0

pub data ObuType : Type 0 where
  sequence_header temporal_delimiter frame_header tile_group metadata frame : ObuType
  redundant_frame_header tile_list padding : ObuType
  reserved : ℕ → ObuType

-- `ObuType::from`
unfoldable pub type_from : ℕ → ObuType
type_from value =
    if value == 1
    then sequence_header
    else if value == 2
    then temporal_delimiter
    else if value == 3
    then frame_header
    else if value == 4
    then tile_group
    else if value == 5
    then metadata
    else if value == 6
    then frame
    else if value == 7
    then redundant_frame_header
    else if value == 8
    then tile_list
    else if value == 15
    then padding
    else reserved value

-- `u8::from`
unfoldable pub type_into : ObuType → ℕ
type_into sequence_header = 1
type_into temporal_delimiter = 2
type_into frame_header = 3
type_into tile_group = 4
type_into metadata = 5
type_into frame = 6
type_into redundant_frame_header = 7
type_into tile_list = 8
type_into padding = 15
type_into (reserved value) = value

pub record ObuExtensionHeader : Type 0 where
  pub temporal_id : ℕ
  pub spatial_id : ℕ

pub record ObuHeader : Type 0 where
  pub obu_type : ObuType
  pub size : Option ℕ
  pub extension_header : Option ObuExtensionHeader

unfoldable pub read_extension : Parser ObuExtensionHeader
read_extension = do
  temporal_id ← read_bits 3
  spatial_id ← read_bits 2
  _ ← read_bits 3
  let header : ObuExtensionHeader = record {
    temporal_id = temporal_id % 256;
    spatial_id = spatial_id % 256;
  }
  pure header

-- `if !bit_reader.is_aligned() { return Err(…); }`
unfoldable pub check_aligned : Parser (Unit {0})
check_aligned r = if is_aligned r then ok (tt, r) else err invalid_data

-- `ObuHeader::parse`, of a reader at a byte boundary.
unfoldable pub parse_header : Parser ObuHeader
unfolding read_extension read_leb128 check_aligned type_from
parse_header = do
  forbidden_bit ← read_bit
  ensure (not forbidden_bit) invalid_data
  obu_type ← read_bits 4
  extension_flag ← read_bit
  has_size_field ← read_bit
  _ ← read_bit
  extension_header ← optional extension_flag read_extension
  size ← optional has_size_field read_leb128
  check_aligned
  let header : ObuHeader = record {
    obu_type = type_from (obu_type % 256);
    size = size;
    extension_header = extension_header;
  }
  pure header

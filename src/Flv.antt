-- ===== src/Flv.antt =====
-- crates/flv/src/header.rs: `FlvHeader::demux`.
pub mod Header
pub mod Audio
pub mod Script
pub mod Video
pub mod Tag
pub mod Ends
use video.Base.{
  ℕ, ◌+◌, ◌-◌, ◌*◌, ◌/◌, ◌%◌, ◌^◌, Bool, not, List, ok, err, ◌>>=◌, ◌>>◌, ltb, ◌==◌, if◌then◌else◌,
  length,
}
use video.Io.{Io, Cursor, remaining, read_u8, invalid_data}
use video.ByteOrder.{ByteOrder, read_be}
use video.BytesUtil.BytesCursor.{extract_bytes}

pub record FlvHeader : Type 0 where
  pub version : ℕ
  pub has_audio : Bool
  pub has_video : Bool
  pub extra : List ℕ

-- "FLV" as a number of three bytes.
abbrev pub flv_signature : ℕ
flv_signature = 70 * 65536 + 76 * 256 + 86

abbrev pub check_signature : ℕ → Io (Unit {0})
check_signature signature = if signature == flv_signature then ok tt else err invalid_data

-- The bytes between the end of the header, which takes nine, and the offset that it announces.
unfoldable pub read_extra : ℕ → List ℕ → Io (List ℕ × List ℕ)
read_extra offset bs =
    if ltb offset 9
    then err invalid_data
    else extract_bytes (offset - 9) (record { inner = bs; position = 0 }) >>= λ (extra, c).
        ok (extra, remaining c)

module _ (bo : ByteOrder) where
  -- The header, and the bytes behind its extra data.
  unfoldable pub demux : List ℕ → Io (FlvHeader × List ℕ)
  unfolding read_extra extract_bytes
  demux bs = do
    (signature, bs₁) ← read_be bo 3 bs
    check_signature signature
    (version, bs₂) ← read_u8 bs₁
    (flags, bs₃) ← read_u8 bs₂
    (offset, bs₄) ← read_be bo 4 bs₃
    (extra, rest) ← read_extra offset bs₄
    let header : FlvHeader = record {
      version = version;
      has_audio = flags / 4 % 2 == 1;
      has_video = flags % 2 == 1;
      extra = extra;
    }
    ok (header, rest)

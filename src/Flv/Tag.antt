-- ===== src/Flv/Tag.antt =====
-- crates/flv/src/tag.rs and file.rs: tags, and a file of them. Recursion is on fuel: a round of the
-- file's loop takes four bytes at least, so that one round more than there are bytes is enough.
pub mod Total
pub mod Layout
pub mod Panics
use video.Base.{
  ℕ, zero, suc, ◌+◌, ◌*◌, ◌^◌, bit_or, Bool, List, [], ◌∷◌, Result, ok, err, panic, stuck, ◌>>=◌,
  ◌==◌, if◌then◌else◌, length,
}
use video.Io.{Io, Cursor, remaining, read_u8}
use video.ByteOrder.{ByteOrder, read_be}
use video.BytesUtil.BytesCursor.{extract}
use video.Flv as Flv
use video.Flv.Audio as Audio
use video.Flv.Script as Script
use video.Flv.Video as Video

pub data FlvTagData : Type 0 where
  audio : Audio.AudioData → FlvTagData
  video_data : Video.VideoTagHeader → FlvTagData
  script_data : Script.ScriptData → FlvTagData
  unknown : ℕ → List ℕ → FlvTagData

pub record FlvTag : Type 0 where
  pub timestamp_ms : ℕ
  pub stream_id : ℕ
  pub body : FlvTagData

pub record FlvFile : Type 0 where
  pub header : Flv.FlvHeader
  pub tags : List FlvTag

-- `if !reader.has_remaining() { break; }`, and what follows.
abbrev pub unless_done : {A : Type 0} → List ℕ → A → Io A → Io A
unless_done [] found o = ok found
unless_done (_ ∷ _) found o = o

module _ (bo : ByteOrder) where
  -- `FlvTagData::demux`, where `Audio` is 8, `Video` is 9 and `ScriptData` is 18.
  unfoldable pub demux_data : ℕ → List ℕ → Io (FlvTagData × List ℕ)
  demux_data tag_type bs =
      if tag_type == 8
      then (do (found, rest) ← Audio.demux bs; ok (FlvTagData.audio found, rest))
      else if tag_type == 9
      then (do (found, rest) ← Video.demux bo bs; ok (FlvTagData.video_data found, rest))
      else if tag_type == 18
      then (do (found, rest) ← Script.demux bo bs; ok (FlvTagData.script_data found, rest))
      else (let (bytes, rest) = Audio.take_remaining bs in
          ok (FlvTagData.unknown tag_type bytes, rest))

  -- `FlvTag::demux`. The data are read by a cursor of their own, whose rest is dropped.
  unfoldable pub demux : List ℕ → Io (FlvTag × List ℕ)
  unfolding demux_data extract
  demux bs = do
    (tag_type, bs₁) ← read_u8 bs
    (data_size, bs₂) ← read_be bo 3 bs₁
    (timestamp, bs₃) ← read_be bo 3 bs₂
    (extended, bs₄) ← read_u8 bs₃
    (stream_id, bs₅) ← read_be bo 3 bs₄
    (bytes, rest) ← extract data_size bs₅
    (body, _) ← demux_data tag_type bytes
    let tag : FlvTag = record {
      timestamp_ms = bit_or timestamp (extended * 2 ^ 24);
      stream_id = stream_id;
      body = body;
    }
    ok (tag, rest)

  -- `while reader.has_remaining()`
  unfoldable pub demux_tags : ℕ → List ℕ → Io (List FlvTag × List ℕ)
  unfolding demux
  demux_tags f [] = ok ([], [])
  demux_tags zero (b ∷ bs) = stuck
  demux_tags (suc f) (b ∷ bs) = do
    (_, behind) ← read_be bo 4 (b ∷ bs)
    unless_done behind ([], [])
        (do (tag, rest) ← demux behind; (tags, rest') ← demux_tags f rest; ok (tag ∷ tags, rest'))

  -- `FlvFile::demux`
  unfoldable pub demux_file : List ℕ → Io (FlvFile × List ℕ)
  unfolding demux_tags
  demux_file bs = do
    (header, rest) ← Flv.demux bo bs
    (tags, rest') ← demux_tags (length rest) rest
    let file : FlvFile = record { header = header; tags = tags }
    ok (file, rest')

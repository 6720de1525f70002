-- ===== src/Flv/Tag/Layout.antt =====
-- Tags in the format's form, as `demux` and `demux_file` read them.
use video.Base.{
  ℕ, ◌*◌, ◌/◌, ◌%◌, ◌^◌, ◌<◌, ◌≡◌, ap, ◌∙◌, arith, List, ◌∷◌, ◌++◌, append_assoc, bit_or, ok,
  length,
}
use video.Base.Arith.{bit_or-high}
use video.Io.{read_u8}
use video.ByteOrder.{ByteOrder}
use video.ByteOrder.Laws.{read_be-to_be}
use video.BytesUtil.BytesCursor.Front.{extract-append}
use video.Flv.Tag.{FlvTag, FlvTagData, demux_data, demux}

-- A tag as it stands in a file, its data not yet read.
pub record RawTag : Type 0 where
  pub tag_type : ℕ
  pub timestamp_ms : ℕ
  pub stream_id : ℕ
  pub contents : List ℕ

pub record IsRawTag (raw : RawTag) : Type 0 where
  pub timestamp : raw.timestamp_ms < 2 ^ 32
  pub stream : raw.stream_id < 2 ^ 24
  pub size : length raw.contents < 2 ^ 24

-- The tag, with what its data are read as.
abbrev pub read_as : RawTag → FlvTagData → FlvTag
read_as raw body = record {
  timestamp_ms = raw.timestamp_ms;
  stream_id = raw.stream_id;
  body = body;
}

module _ (bo : ByteOrder) where
  -- The low 24 bits of the timestamp stand in front of its high 8.
  abbrev pub tag_bytes : RawTag → List ℕ
  tag_bytes raw =
      raw.tag_type
      ∷ (bo.to_be 3 (length raw.contents)
          ++ (bo.to_be 3 (raw.timestamp_ms % 2 ^ 24)
              ++ (raw.timestamp_ms / 2 ^ 24 ∷ (bo.to_be 3 raw.stream_id ++ raw.contents))))

  -- A tag in the format's form, with a timestamp of 32 bits, a stream id of 24 bits and fewer
  -- than 2 ^ 24 bytes of data, is read by `FlvTag::demux` as that timestamp and stream id with
  -- what its data alone are read as, and the bytes behind the tag are left.
  pub demux-tag_bytes :
      (raw : RawTag) (body : FlvTagData) (left rest : List ℕ)
      → IsRawTag raw
      → demux_data bo raw.tag_type raw.contents ≡ ok (body, left)
      → demux bo (tag_bytes raw ++ rest) ≡ ok (read_as raw body, rest)
  unfolding demux read_u8
  demux-tag_bytes raw body left rest h read =
      rw (append_assoc (bo.to_be 3 (length raw.contents)) _ rest) (
        rw (read_be-to_be bo 3 (length raw.contents) _ (omega (arith, h.size))) (
          rw (append_assoc (bo.to_be 3 (raw.timestamp_ms % 2 ^ 24)) _ rest) (
            rw (read_be-to_be bo 3 (raw.timestamp_ms % 2 ^ 24) _ (omega arith)) (
              rw (append_assoc (bo.to_be 3 raw.stream_id) raw.contents rest) (
                rw
                  (read_be-to_be bo 3 raw.stream_id (raw.contents ++ rest)
                    (omega (arith, h.stream)))
                  (rw (extract-append raw.contents rest) (
                    rw read (
                      ap
                        (λ n. ok (
                          record { timestamp_ms = n; stream_id = raw.stream_id; body = body },
                          rest,
                        ))
                        timestamp))))))))
    where
      timestamp :
          bit_or (raw.timestamp_ms % 2 ^ 24) (raw.timestamp_ms / 2 ^ 24 * 2 ^ 24) ≡ raw.timestamp_ms
      timestamp =
          bit_or-high 24 (raw.timestamp_ms % 2 ^ 24) (raw.timestamp_ms / 2 ^ 24) (omega arith)
          ∙ omega arith

-- ===== src/Rtmp/Chunk/Frames.antt =====
-- One round of the decoder's loop and one of the encoder's, in front of the bytes of a chunk.
use video.Base.{
  ℕ, suc, ◌<◌, ◌≡◌, sym, arith, List, [], ◌∷◌, ◌++◌, ok, ltb, le→leb, if◌then◌else◌, inl, inr,
  Option-cases, some, length, take, drop, length-append, take-append_length, drop-append_length,
}
use video.Base.Maps.{get, insert, nat_eq, pair_eq, length-insert_new, length-insert_known}
use video.ByteOrder.{ByteOrder}
use video.Rtmp.Chunk.Define.{ChunkType, ChunkMessageHeader, type3}
use video.Rtmp.Chunk.Encoder.{write_basic_header, write_extended_timestamp, write_payload}
use video.Rtmp.Chunk.Decoder.{ChunkDecoder, read_typed, read_message_header}
use video.Rtmp.Chunk.ReadChunk.{parse, headers_with, need_read_length}
use video.Rtmp.Chunk.Headers.{IsCsid, read_header-write_basic_header}

pub parse-frame :
    (bo : ByteOrder) (d : ChunkDecoder) (f : ChunkType) (csid : ℕ) (h : ChunkMessageHeader)
    (head payload tail : List ℕ)
    → IsCsid csid
    → read_typed bo f d csid (head ++ (payload ++ tail)) ≡ ok (h, payload ++ tail)
    → need_read_length d (record { format = f; chunk_stream_id = csid }) h ≡ length payload
    → parse bo d (write_basic_header f csid ++ (head ++ (payload ++ tail)))
      ≡ ok (
        record {
          header = record { format = f; chunk_stream_id = csid };
          message_header = h;
          payload = payload;
        },
        tail,
      )
unfolding parse read_message_header
parse-frame bo d f csid h head payload tail c typed need =
    rw (read_header-write_basic_header f csid (head ++ (payload ++ tail)) c) (
      rw typed (
        rw need (
          rw
            (le→leb (length payload) (length (payload ++ tail))
              (omega (arith, length-append payload tail)))
            (rw (take-append_length payload tail, drop-append_length payload tail)))))

pub headers_with-insert :
    (csid : ℕ) (h : ChunkMessageHeader) (d : ChunkDecoder)
    → headers_with csid d ≡ length (insert csid h d.previous_chunk_headers)
unfolding headers_with
headers_with-insert csid h d = elim (Option-cases (get csid d.previous_chunk_headers)) [
  | inl e ↦ rw (e, headers_with) (sym (length-insert_new csid h d.previous_chunk_headers e))
  | inr (g, e) ↦
      rw (e, headers_with) (sym (length-insert_known csid h g d.previous_chunk_headers e))
]

-- The round's payload, and what is left.
abbrev pub cut : ℕ → List ℕ → ℕ
cut s p = if ltb s (length p) then s else length p

abbrev pub next_header : ByteOrder → ℕ → ChunkMessageHeader → List ℕ → List ℕ
next_header bo csid h rest =
    if ltb 0 (length rest)
    then write_basic_header type3 csid ++ write_extended_timestamp bo h
    else []

pub write_payload-cons :
    (bo : ByteOrder) (f s csid : ℕ) (h : ChunkMessageHeader) (p more : List ℕ)
    → 0 < length p
    → write_payload bo f s csid h (drop (cut s p) p) ≡ some more
    → write_payload bo (suc f) s csid h p
      ≡ some (take (cut s p) p ++ (next_header bo csid h (drop (cut s p) p) ++ more))
unfolding write_payload
write_payload-cons bo f s csid h [] more pos e = absurd (omega arith)
write_payload-cons bo f s csid h (x ∷ xs) more pos e = rw e

-- ===== src/Rtmp/Chunk/RoundTrip.antt =====
-- A message that the encoder writes as chunks comes out of the decoder as it was.
use video.Base.{
  ℕ, zero, suc, ◌+◌, ◌-◌, ◌%◌, ◌^◌, ◌≤◌, ◌<◌, ◌≡◌, ◌≢◌, refl, ap, ◌∙◌, sym, arith, true, false,
  List, [], ◌∷◌, ◌++◌, append_assoc, append-nil, ok, ltb, lt→leb, lt→ltb, le→ltb, ◌==◌,
  if◌then◌else◌, some, none, length, take, drop, length-append, take-all, drop-all, min,
  take-append-drop, length-take, length-drop,
}
use native.Mathlib.Decide.{dec_le}
use video.Base.Maps.{
  Map, get, insert, remove, nat_eq, pair_eq, get-insert_self, insert-insert, remove-insert_new,
}
use video.ByteOrder.{ByteOrder}
use video.Rtmp.Chunk.Define.{Chunk, ChunkType, ChunkBasicHeader, ChunkMessageHeader, type0, type3}
use video.Rtmp.Chunk.Encoder.{
  write_basic_header, write_message_header, write_extended_timestamp, write_payload, write_chunk,
}
use video.Rtmp.Chunk.Decoder.{
  ChunkDecoder, read_typed, max_partial_chunk_size, max_partial_chunk_count,
  max_previous_chunk_headers,
}
use video.Rtmp.Chunk.ReadChunk.{
  Parsed, Outcome, complete, again, done, parse, accept, extend_partial, store_partial,
  need_read_length, partial_length, read_chunk_at, read_chunk,
}
use video.Rtmp.Chunk.Headers.{
  IsCsid, IsWritable, read_back, read_type0-write_message_header, read_type3-written,
}
use video.Rtmp.Chunk.Frames.{parse-frame, headers_with-insert, cut, write_payload-cons}

-- A message that is sent to a decoder whose maps are `H` and `M`, in chunks of `s` bytes.
module _ (bo : ByteOrder) (h : ChunkMessageHeader) (csid s : ℕ) (H : Map ℕ ChunkMessageHeader)
    (M : Map (ℕ × ℕ) (List ℕ)) (w : IsWritable h) (c : IsCsid csid) (pos : 1 ≤ s)
    (room : length (insert csid (read_back h) H) ≤ max_previous_chunk_headers)
    (fresh : get (csid, h.msg_stream_id) M ≡ none) where
  abbrev key : ℕ × ℕ
  key = (csid, h.msg_stream_id)

  abbrev headers : Map ℕ ChunkMessageHeader
  headers = insert csid (read_back h) H

  abbrev basic : ChunkType → ChunkBasicHeader
  basic f = record { format = f; chunk_stream_id = csid }

  abbrev piece : ChunkType → List ℕ → Parsed
  piece f payload = record { header = basic f; message_header = read_back h; payload = payload }

  abbrev result : ChunkType → List ℕ → Chunk
  result f payload = record {
    basic_header = basic f;
    message_header = read_back h;
    payload = payload;
  }

  -- The decoder between two chunks of the message, and behind the last of them.
  abbrev inside : List ℕ → ChunkDecoder
  inside pre = record {
    previous_chunk_headers = headers;
    partial_chunks = insert key pre M;
    max_chunk_size = s;
  }

  abbrev behind : ChunkDecoder
  behind = record { previous_chunk_headers = headers; partial_chunks = M; max_chunk_size = s }

  -- The payload of a chunk goes behind the bytes of the chunks before it.
  extend_partial-more :
      (d : ChunkDecoder) (f : ChunkType) (pre payload : List ℕ)
      → insert key (pre ++ payload) d.partial_chunks ≡ insert key (pre ++ payload) M
      → d.previous_chunk_headers ≡ headers
      → d.max_chunk_size ≡ s
      → length pre + length payload < h.msg_length
      → extend_partial d (piece f payload) pre ≡ again (inside (pre ++ payload))
  unfolding extend_partial
  extend_partial-more d f pre payload eM eH es lt =
      rw (le→ltb max_partial_chunk_size (length pre + length payload) (omega (arith, w.length))) (
        rw (differ) (λ i.
          again (record {
            previous_chunk_headers = eH i;
            partial_chunks = eM i;
            max_chunk_size = es i;
          })))
    where
      differ : (length pre + length payload == h.msg_length) ≡ false
      differ = ground arith

  extend_partial-last :
      (d : ChunkDecoder) (f : ChunkType) (pre payload : List ℕ)
      → insert key (pre ++ payload) d.partial_chunks ≡ insert key (pre ++ payload) M
      → d.previous_chunk_headers ≡ headers
      → d.max_chunk_size ≡ s
      → length pre + length payload ≡ h.msg_length
      → extend_partial d (piece f payload) pre ≡ done behind (complete (result f (pre ++ payload)))
  unfolding extend_partial
  extend_partial-last d f pre payload eM eH es e =
      rw (le→ltb max_partial_chunk_size (length pre + length payload) (omega (arith, w.length))) (
        rw same (λ i.
          done
            (record {
              previous_chunk_headers = eH i;
              partial_chunks =
                  (ap (remove key) eM ∙ remove-insert_new key (pre ++ payload) M fresh) i;
              max_chunk_size = es i;
            })
            (complete (result f (pre ++ payload)))))
    where
      same : (length pre + length payload == h.msg_length) ≡ true
      same = ground arith

  -- A later chunk goes to the bytes of the chunks before it.
  accept-later :
      (pre payload : List ℕ)
      → length payload ≢ h.msg_length
      → accept (inside pre) (piece type3 payload)
        ≡ extend_partial (inside pre) (piece type3 payload) pre
  unfolding accept store_partial
  accept-later pre payload ne = rw (headers_with-insert csid (read_back h) (inside pre)) (
      rw (insert-insert csid (read_back h) (read_back h) H) (
        rw (le→ltb max_previous_chunk_headers (length headers) room)
          (rw (differ) (rw (get-insert_self key pre M)))))
    where
      differ : (length payload == h.msg_length) ≡ false
      differ = ground arith

  need-later :
      (pre payload more : List ℕ)
      → length pre + length (payload ++ more) ≡ h.msg_length
      → length payload ≡ min (length (payload ++ more)) s
      → need_read_length (inside pre) (basic type3) (read_back h) ≡ length payload
  unfolding need_read_length
  need-later pre payload more e el =
      ap (λ n. min ((h.msg_length + 2 ^ 64 - n) % 2 ^ 64) s) held
      ∙ (ap (λ n. min n s) left ∙ sym el)
    where
      held : partial_length (inside pre) key ≡ length pre
      held = ap (λ o. elim o [ none ↦ 0 | some bytes ↦ length bytes ]) (get-insert_self key pre M)

      left : (h.msg_length + 2 ^ 64 - length pre) % 2 ^ 64 ≡ length (payload ++ more)
      left = omega (arith, w.length)

  -- One later chunk.
  round-later :
      (pre payload more tail : List ℕ)
      → length pre + length (payload ++ more) ≡ h.msg_length
      → length payload ≡ min (length (payload ++ more)) s
      → parse bo
          (inside pre)
          (write_basic_header type3 csid ++ (write_extended_timestamp bo h ++ (payload ++ tail)))
        ≡ ok (piece type3 payload, tail)
  unfolding read_typed
  round-later pre payload more tail e el =
      parse-frame bo (inside pre) type3 csid (read_back h) (write_extended_timestamp bo h) payload
        tail c
        (read_type3-written bo (inside pre) csid h (payload ++ tail) w
          (get-insert_self csid (read_back h) H))
        (need-later pre payload more e el)

  abbrev follow : List ℕ → List ℕ
  follow bs = write_basic_header type3 csid ++ (write_extended_timestamp bo h ++ bs)

  write_payload-last :
      (f : ℕ) (p : List ℕ)
      → 0 < length p
      → length p ≤ s
      → write_payload bo (suc f) s csid h p ≡ some p
  unfolding write_payload
  write_payload-last f p lo hi =
      write_payload-cons bo f s csid h p [] lo (rw (whole) (rw (drop-all p)))
      ∙ rw (whole) (rw (drop-all p, take-all p) (rw (append-nil p)))
    where
      whole : cut s p ≡ length p
      whole = rw (le→ltb s (length p) hi)

  write_payload-more :
      (f : ℕ) (p more : List ℕ)
      → s < length p
      → write_payload bo f s csid h (drop s p) ≡ some more
      → write_payload bo (suc f) s csid h p ≡ some (take s p ++ follow more)
  write_payload-more f p more lt e =
      write_payload-cons bo f s csid h p more (omega arith) (rw cutting e)
      ∙ rw cutting (
          rw (lt→ltb 0 (length (drop s p)) (omega (arith, length-drop s p))) (
            ap (λ t. some (take s p ++ t))
              (append_assoc (write_basic_header type3 csid) (write_extended_timestamp bo h) more)))
    where
      cutting : cut s p ≡ s
      cutting = rw (lt→ltb s (length p) lt)

  read-again :
      (f : ℕ) (d d' : ChunkDecoder) (buffer rest : List ℕ) (p : Parsed)
      → 0 < f
      → parse bo d buffer ≡ ok (p, rest)
      → accept d p ≡ again d'
      → read_chunk_at bo f d buffer ≡ read_chunk_at bo (f - 1) d' rest
  unfolding read_chunk_at
  read-again zero d d' buffer rest p lo e e' = absurd (omega arith)
  read-again (suc f) d d' buffer rest p lo e e' =
      rw (e, read_chunk_at) (rw e' (ap (λ n. read_chunk_at bo n d' rest) (omega arith)))

  read-done :
      (f : ℕ) (d d' : ChunkDecoder) (buffer rest : List ℕ) (p : Parsed) (o : Outcome)
      → 0 < f
      → parse bo d buffer ≡ ok (p, rest)
      → accept d p ≡ done d' o
      → read_chunk_at bo f d buffer ≡ (d', rest, o)
  unfolding read_chunk_at
  read-done zero d d' buffer rest p o lo e e' = absurd (omega arith)
  read-done (suc f) d d' buffer rest p o lo e e' = rw (e, read_chunk_at) (rw e')

  -- What the encoder writes of a payload behind the first chunk, and what the decoder makes of it.
  Continues : ℕ → List ℕ → List ℕ → List ℕ → Type 0
  Continues fw pre p tail =
      (bs : List ℕ) × (write_payload bo fw s csid h p ≡ some bs)
      × (length p ≤ length bs)
      × ((fr : ℕ)
          → length p ≤ fr
          → read_chunk_at bo fr (inside pre) (follow (bs ++ tail))
            ≡ (behind, tail, complete (result type3 (pre ++ p))))

  continues-last :
      (fw : ℕ) (pre p tail : List ℕ)
      → 0 < length p
      → 0 < length pre
      → length pre + length p ≡ h.msg_length
      → length p ≤ s
      → Continues (suc fw) pre p tail
  unfolding Continues
  continues-last fw pre p tail lo some_before e fits = (
    p,
    write_payload-last fw p lo fits,
    omega arith,
    λ fr enough.
        read-done fr (inside pre) behind (follow (p ++ tail)) tail (piece type3 p)
          (complete (result type3 (pre ++ p))) (omega arith)
          (round-later pre p [] tail (rw (append-nil p) e) (rw (append-nil p) (omega arith)))
          (accept-later pre p (omega arith)
            ∙ extend_partial-last (inside pre) type3 pre p (insert-insert key pre (pre ++ p) M) refl
                refl e),
  )

  round-more :
      (fr : ℕ) (pre p more : List ℕ)
      → s < length p
      → 0 < length pre
      → length pre + length p ≡ h.msg_length
      → length p ≤ fr
      → read_chunk_at bo fr (inside pre) (follow (take s p ++ more))
        ≡ read_chunk_at bo (fr - 1) (inside (pre ++ take s p)) more
  round-more fr pre p more lt some_before e enough =
      read-again fr (inside pre) (inside (pre ++ take s p)) (follow (take s p ++ more)) more
        (piece type3 (take s p)) (omega arith)
        (round-later pre (take s p) (drop s p) more (rw (take-append-drop s p) e)
          (rw (take-append-drop s p) (omega (arith, length-take s p))))
        (accept-later pre (take s p) (omega (arith, length-take s p))
          ∙ extend_partial-more (inside pre) type3 pre (take s p)
              (insert-insert key pre (pre ++ take s p) M) refl refl
              (omega (arith, length-take s p)))

  length-follow : (bs : List ℕ) → length bs ≤ length (follow bs)
  length-follow bs = omega (
    arith,
    length-append (write_basic_header type3 csid) (write_extended_timestamp bo h ++ bs),
    length-append (write_extended_timestamp bo h) bs,
  )

  regroup : (q bs tail : List ℕ) → (q ++ follow bs) ++ tail ≡ q ++ follow (bs ++ tail)
  regroup q bs tail = simp append_assoc

  continues-more :
      (fw : ℕ) (pre p tail : List ℕ)
      → s < length p
      → 0 < length pre
      → length pre + length p ≡ h.msg_length
      → Continues fw (pre ++ take s p) (drop s p) tail
      → Continues (suc fw) pre p tail
  unfolding Continues
  continues-more fw pre p tail lt some_before e (bs, written, long, reads) = (
    take s p ++ follow bs,
    write_payload-more fw p bs lt written,
    omega (
      arith,
      length-take s p,
      length-drop s p,
      length-append (take s p) (follow bs),
      length-follow bs,
    ),
    λ fr enough.
        ap (λ t. read_chunk_at bo fr (inside pre) (follow t)) (regroup (take s p) bs tail)
        ∙ round-more fr pre p (follow (bs ++ tail)) lt some_before e enough
        ∙ reads (fr - 1) (omega (arith, length-drop s p))
        ∙ ap (λ t. (behind, tail, complete (result type3 t)))
            (append_assoc pre (take s p) (drop s p) ∙ ap (λ t. pre ++ t) (take-append-drop s p)),
  )

  continues :
      (fw : ℕ) (pre p tail : List ℕ)
      → 0 < length p
      → 0 < length pre
      → length pre + length p ≡ h.msg_length
      → length p ≤ fw
      → Continues fw pre p tail
  continues zero pre p tail lo some_before e hw = absurd (omega arith)
  continues (suc fw) pre p tail lo some_before e hw = elim (dec_le (length p) s) [
    | yes fits ↦ continues-last fw pre p tail lo some_before e fits
    | no long ↦ continues-more fw pre p tail (omega arith) some_before e (
        continues fw (pre ++ take s p) (drop s p) tail (omega (arith, length-drop s p))
          (omega (arith, length-append pre (take s p)))
          (omega (arith, length-append pre (take s p), length-take s p, length-drop s p))
          (omega (arith, length-drop s p)))
  ]

  -- The decoder before the message.
  abbrev start : ChunkDecoder
  start = record { previous_chunk_headers = H; partial_chunks = M; max_chunk_size = s }

  abbrev lead : List ℕ → List ℕ
  lead bs = write_basic_header type0 csid ++ (write_message_header bo h ++ bs)

  round-first :
      (payload tail : List ℕ)
      → length payload ≡ min h.msg_length s
      → parse bo start (lead (payload ++ tail)) ≡ ok (piece type0 payload, tail)
  unfolding read_typed need_read_length
  round-first payload tail e =
      parse-frame bo start type0 csid (read_back h) (write_message_header bo h) payload tail c
        (read_type0-write_message_header bo h (payload ++ tail) w) need
    where
      need : need_read_length start (basic type0) (read_back h) ≡ length payload
      need =
          ap
            (λ o.
              min
                ((h.msg_length + 2 ^ 64 - elim o [ none ↦ 0 | some bytes ↦ length bytes ]) % 2 ^ 64)
                s)
            fresh
          ∙ (ap (λ n. min n s) (omega (arith, w.length)) ∙ sym e)

  accept-whole :
      (payload : List ℕ)
      → length payload ≡ h.msg_length
      → accept start (piece type0 payload) ≡ done behind (complete (result type0 payload))
  unfolding accept
  accept-whole payload e =
      rw (headers_with-insert csid (read_back h) start)
        (rw (le→ltb max_previous_chunk_headers (length headers) room) (rw same))
    where
      same : (length payload == h.msg_length) ≡ true
      same = ground arith

  accept-part :
      (payload : List ℕ)
      → length payload < h.msg_length
      → length M < max_partial_chunk_count
      → accept start (piece type0 payload) ≡ again (inside payload)
  unfolding accept store_partial
  accept-part payload lt few = rw (headers_with-insert csid (read_back h) start) (
      rw (le→ltb max_previous_chunk_headers (length headers) room) (
        rw differ (
          rw fresh (
            rw (lt→leb max_partial_chunk_count (length M) few) (
              extend_partial-more (record start { previous_chunk_headers = headers }) type0 []
                payload refl refl refl (omega arith))))))
    where
      differ : (length payload == h.msg_length) ≡ false
      differ = ground arith

  -- What the encoder writes of a payload, and what the decoder makes of it.
  Transfers : ChunkType → List ℕ → List ℕ → Type 0
  Transfers f payload tail =
      (bs : List ℕ) × (write_payload bo (length payload) s csid h payload ≡ some bs)
      × (read_chunk bo start (lead (bs ++ tail)) ≡ (behind, tail, complete (result f payload)))

  send_whole :
      (payload tail : List ℕ)
      → length payload ≡ h.msg_length
      → length payload ≤ s
      → Transfers type0 payload tail
  unfolding Transfers read_chunk write_payload
  send_whole payload tail e fits = (
    payload,
    written payload fits,
    read-done (length (lead (payload ++ tail)) + 1) start behind (lead (payload ++ tail)) tail
        (piece type0 payload) (complete (result type0 payload)) (omega arith)
        (round-first payload tail (omega arith)) (accept-whole payload e),
  )
    where
      written : (p : List ℕ) → length p ≤ s → write_payload bo (length p) s csid h p ≡ some p
      written [] le = refl
      written (x ∷ xs) le = write_payload-last (length xs) (x ∷ xs) (omega arith) le

  length-lead : (bs : List ℕ) → length bs ≤ length (lead bs)
  length-lead bs = omega (
    arith,
    length-append (write_basic_header type0 csid) (write_message_header bo h ++ bs),
    length-append (write_message_header bo h) bs,
  )

  send_parts :
      (x : ℕ) (xs tail : List ℕ)
      → length (x ∷ xs) ≡ h.msg_length
      → s < length (x ∷ xs)
      → length M < max_partial_chunk_count
      → Continues (length xs) (take s (x ∷ xs)) (drop s (x ∷ xs)) tail
      → Transfers type3 (x ∷ xs) tail
  unfolding Transfers Continues read_chunk
  send_parts x xs tail e long few (bs, written, grown, reads) =
      let p : List ℕ = x ∷ xs in
      (
        take s p ++ follow bs,
        write_payload-more (length xs) p bs long written,
        ap (λ t. read_chunk bo start (lead t)) (regroup (take s p) bs tail)
            ∙ read-again (length (lead (take s p ++ follow (bs ++ tail))) + 1) start
                (inside (take s p)) (lead (take s p ++ follow (bs ++ tail))) (follow (bs ++ tail))
                (piece type0 (take s p)) (omega arith)
                (round-first (take s p) (follow (bs ++ tail)) (omega (arith, length-take s p)))
                (accept-part (take s p) (omega (arith, length-take s p)) few)
            ∙ reads _ (
                omega (
                  arith,
                  length-lead (take s p ++ follow (bs ++ tail)),
                  length-append (take s p) (follow (bs ++ tail)),
                  length-follow (bs ++ tail),
                  length-append bs tail,
                ))
            ∙ ap (λ t. (behind, tail, complete (result type3 t))) (take-append-drop s p),
      )

  transfers :
      (payload tail : List ℕ)
      → length payload ≡ h.msg_length
      → length M < max_partial_chunk_count
      → Transfers (if ltb s (length payload) then type3 else type0) payload tail
  transfers payload tail e few = elim (dec_le (length payload) s) [
    | yes fits ↦ rw (le→ltb s (length payload) fits) (send_whole payload tail e fits)
    | no long ↦ rw (lt→ltb s (length payload) (omega arith)) (parts payload e (omega arith))
  ]
    where
      parts : (p : List ℕ) → length p ≡ h.msg_length → s < length p → Transfers type3 p tail
      parts [] e' long = absurd (omega arith)
      parts (x ∷ xs) e' long = send_parts x xs tail e' long few (
          continues (length xs) (take s (x ∷ xs)) (drop s (x ∷ xs)) tail
            (omega (arith, length-drop s (x ∷ xs))) (omega (arith, length-take s (x ∷ xs)))
            (omega (arith, length-take s (x ∷ xs), length-drop s (x ∷ xs)))
            (omega (arith, length-drop s (x ∷ xs))))

-- A chunk that the encoder can write, and that the decoder has room for.
pub record Accepts (d : ChunkDecoder) (c : Chunk) : Type 0 where
  pub header : IsWritable c.message_header
  pub csid : IsCsid c.basic_header.chunk_stream_id
  pub size : length c.payload ≡ c.message_header.msg_length
  pub nonzero : 1 ≤ d.max_chunk_size
  pub room :
      length (
        insert c.basic_header.chunk_stream_id (read_back c.message_header) d.previous_chunk_headers)
      ≤ max_previous_chunk_headers
  pub slot : length d.partial_chunks < max_partial_chunk_count
  pub fresh :
      get (c.basic_header.chunk_stream_id, c.message_header.msg_stream_id) d.partial_chunks ≡ none

-- The chunk as the decoder returns it, and the decoder behind it.
abbrev pub received : ℕ → Chunk → Chunk
received chunk_size c = record {
  basic_header = record {
    format = if ltb chunk_size (length c.payload) then type3 else type0;
    chunk_stream_id = c.basic_header.chunk_stream_id;
  };
  message_header = read_back c.message_header;
  payload = c.payload;
}

abbrev pub after : ChunkDecoder → Chunk → ChunkDecoder
after d c = record d {
  previous_chunk_headers =
      insert c.basic_header.chunk_stream_id (read_back c.message_header) d.previous_chunk_headers;
}

-- A chunk whose header can be written (timestamp and stream id of 32 bits, at most 10 MiB, a
-- chunk stream id of 2 to 65599) and whose payload has the announced length is written by an
-- encoder of any chunk size from 1 on, its loop ends, and a decoder of the same chunk size that
-- has room for it and no part of it returns it whole from these bytes: the same payload and
-- header, with the type of its last chunk and a note whether the timestamp was extended, the
-- bytes behind it left in the buffer, and the map of parts as before.
pub read_chunk-write_chunk :
    (bo : ByteOrder) (d : ChunkDecoder) (c : Chunk) (tail : List ℕ)
    → Accepts d c
    → (bs : List ℕ) × (write_chunk bo (record { chunk_size = d.max_chunk_size }) c ≡ some bs)
      × (read_chunk bo d (bs ++ tail) ≡ (after d c, tail, complete (received d.max_chunk_size c)))
unfolding write_chunk Transfers
read_chunk-write_chunk bo d c tail a =
    let csid = c.basic_header.chunk_stream_id in
    let h = c.message_header in
    let (bs, written, reads) =
      transfers bo h csid d.max_chunk_size d.previous_chunk_headers d.partial_chunks a.header a.csid
        a.nonzero a.room a.fresh c.payload tail a.size a.slot in
    (
      (write_basic_header type0 csid ++ write_message_header bo h) ++ bs,
      rw written refl,
      ap (λ t. read_chunk bo d t) (simp append_assoc) ∙ reads,
    )

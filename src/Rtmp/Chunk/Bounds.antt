-- ===== src/Rtmp/Chunk/Bounds.antt =====
-- What the decoder holds, whatever bytes come in.
use video.Base.{
  ℕ, zero, suc, ◌+◌, ◌≤◌, ◌≡◌, arith, false, List, [], ◌++◌, none, some, ok, err, panic, stuck, leb,
  ltb, ◌==◌, Bool-cases, Option-cases, inl, inr, length, length-append,
}
use video.Base.Maps.{
  get, insert, nat_eq, pair_eq, AllValues, AllValues-insert, AllValues-remove, AllValues-get,
  length-insert_new, length-insert_known, length-remove-le,
}
use video.ByteOrder.{ByteOrder}
use video.Rtmp.Chunk.Define.{max_chunk_size_limit, init_chunk_size}
use video.Rtmp.Chunk.Decoder.{
  ChunkDecoder, Read, default, update_max_chunk_size, max_partial_chunk_size,
  max_partial_chunk_count, max_previous_chunk_headers,
}
use video.Rtmp.Chunk.ReadChunk.{
  Parsed, Outcome, Step, waiting, refused, out_of_fuel, again, done, parse, accept, extend_partial,
  store_partial, headers_with, key_of, read_chunk_at, read_chunk,
}
use video.Rtmp.Chunk.Frames.{headers_with-insert}

-- The limits that the constants of the decoder set.
pub record IsBounded (d : ChunkDecoder) : Type 0 where
  pub headers : length d.previous_chunk_headers ≤ max_previous_chunk_headers
  pub count : length d.partial_chunks ≤ max_partial_chunk_count
  pub sizes : AllValues (λ bytes. length bytes ≤ max_partial_chunk_size) d.partial_chunks
  pub low : init_chunk_size ≤ d.max_chunk_size
  pub high : d.max_chunk_size ≤ max_chunk_size_limit

pub default-IsBounded : IsBounded default
default-IsBounded = record {
  headers = omega arith;
  count = omega arith;
  sizes = tt;
  low = omega arith;
  high = omega arith;
}

-- `update_max_chunk_size` keeps the limits of a decoder that is within them, whatever size is
-- asked for.
pub update_max_chunk_size-IsBounded :
    (chunk_size : ℕ) (d : ChunkDecoder)
    → IsBounded d
    → IsBounded ((update_max_chunk_size chunk_size d).0)
unfolding update_max_chunk_size
update_max_chunk_size-IsBounded chunk_size d b =
    elim (Bool-cases (leb init_chunk_size chunk_size)) [
      | inl lo ↦ elim (Bool-cases (leb chunk_size max_chunk_size_limit)) [
        | inl hi ↦ rw lo (
            rw hi (record {
              headers = b.headers;
              count = b.count;
              sizes = b.sizes;
              low = ground arith;
              high = ground arith;
            }))
        | inr hi ↦ rw lo (rw hi b)
      ]
      | inr lo ↦ rw lo b
    ]

abbrev Keeps : Step → Type 0
Keeps (again d) = IsBounded d
Keeps (done d _) = IsBounded d

extend_partial-Keeps :
    (d : ChunkDecoder) (p : Parsed) (bytes : List ℕ)
    → IsBounded d
    → length bytes ≤ max_partial_chunk_size
    → ((b : List ℕ)
        → length (insert (key_of p.header p.message_header) b d.partial_chunks)
          ≤ max_partial_chunk_count)
    → Keeps (extend_partial d p bytes)
unfolding extend_partial
extend_partial-Keeps d p bytes b fits places =
    elim (Bool-cases (ltb max_partial_chunk_size (length bytes + length p.payload))) [
      | inl large ↦ rw large (record {
        headers = b.headers;
        count = places bytes;
        sizes = AllValues-insert _ key bytes d.partial_chunks fits b.sizes;
        low = b.low;
        high = b.high;
      })
      | inr small ↦
          elim (Bool-cases (length bytes + length p.payload == p.message_header.msg_length)) [
            | inl whole ↦ rw small (
                rw whole (record {
                  headers = b.headers;
                  count = omega (
                    arith,
                    places (bytes ++ p.payload),
                    length-remove-le key (insert key (bytes ++ p.payload) d.partial_chunks),
                  );
                  sizes = AllValues-remove _ key _ (extended small);
                  low = b.low;
                  high = b.high;
                }))
            | inr part ↦ rw small (
                rw part (record {
                  headers = b.headers;
                  count = places (bytes ++ p.payload);
                  sizes = extended small;
                  low = b.low;
                  high = b.high;
                }))
          ]
    ]
  where
    key : ℕ × ℕ
    key = key_of p.header p.message_header

    extended :
        ltb max_partial_chunk_size (length bytes + length p.payload) ≡ false
        → AllValues
            (λ t. length t ≤ max_partial_chunk_size)
            (insert key (bytes ++ p.payload) d.partial_chunks)
    extended small =
        AllValues-insert _ key (bytes ++ p.payload) d.partial_chunks
          (ground (arith, length-append bytes p.payload)) b.sizes

store_partial-Keeps :
    (d : ChunkDecoder) (p : Parsed)
    → IsBounded d
    → Keeps (store_partial d p (get (key_of p.header p.message_header) d.partial_chunks))
unfolding store_partial
store_partial-Keeps d p b = elim (Option-cases (get key d.partial_chunks)) [
  | inl missing ↦ elim (Bool-cases (leb max_partial_chunk_count (length d.partial_chunks))) [
    | inl full ↦ rw missing (rw full b)
    | inr free ↦ rw missing (
        rw free (
          extend_partial-Keeps d p [] b (omega arith)
            (λ t. ground (arith, length-insert_new key t d.partial_chunks missing))))
  ]
  | inr (bytes, held) ↦ rw held (
      extend_partial-Keeps d p bytes b (AllValues-get _ key bytes d.partial_chunks b.sizes held)
        (λ t. omega (arith, length-insert_known key t bytes d.partial_chunks held, b.count)))
]
  where
    key : ℕ × ℕ
    key = key_of p.header p.message_header

accept-Keeps : (d : ChunkDecoder) (p : Parsed) → IsBounded d → Keeps (accept d p)
unfolding accept
accept-Keeps d p b = elim (Bool-cases (ltb max_previous_chunk_headers (headers_with csid d))) [
  | inl full ↦ rw full b
  | inr free ↦ elim (Bool-cases (length p.payload == p.message_header.msg_length)) [
    | inl whole ↦ rw free (rw whole (stored free))
    | inr part ↦ rw free (rw part (store_partial-Keeps _ p (stored free)))
  ]
]
  where
    csid : ℕ
    csid = p.header.chunk_stream_id

    stored :
        ltb max_previous_chunk_headers (headers_with csid d) ≡ false
        → IsBounded (record d {
          previous_chunk_headers = insert csid p.message_header d.previous_chunk_headers;
        })
    stored free = record {
      headers = ground (arith, headers_with-insert csid p.message_header d);
      count = b.count;
      sizes = b.sizes;
      low = b.low;
      high = b.high;
    }

module _ (bo : ByteOrder) where
  -- Whatever bytes come in, the decoder keeps its limits over all the rounds of a call.
  read_chunk_at-IsBounded :
      (f : ℕ) (d : ChunkDecoder) (buffer : List ℕ)
      → IsBounded d
      → IsBounded ((read_chunk_at bo f d buffer).0)
  unfolding read_chunk_at
  read_chunk_at-IsBounded zero d buffer b = b
  read_chunk_at-IsBounded (suc f) d buffer b =
      parsed (read_chunk_at-IsBounded f) (parse bo d buffer)
    where
      accepted :
          ((d' : ChunkDecoder) (rest : List ℕ)
            → IsBounded d'
            → IsBounded ((read_chunk_at bo f d' rest).0))
          → (s : Step) (rest : List ℕ) → Keeps s
          → IsBounded (
              (elim s as (λ _. ChunkDecoder × List ℕ × Outcome) [
                | again d' ↦ read_chunk_at bo f d' rest
                | done d' outcome ↦ (d', rest, outcome)
              ]).0)
      accepted ih (again d') rest k = ih d' rest k
      accepted ih (done d' o) rest k = k

      parsed :
          ((d' : ChunkDecoder) (rest : List ℕ)
            → IsBounded d'
            → IsBounded ((read_chunk_at bo f d' rest).0))
          → (r : Read Parsed)
          → IsBounded (
              (elim r as (λ _. ChunkDecoder × List ℕ × Outcome) [
                | ok (p, rest) ↦ elim (accept d p) [
                  | again d' ↦ read_chunk_at bo f d' rest
                  | done d' outcome ↦ (d', rest, outcome)
                ]
                | err none ↦ (d, buffer, waiting)
                | err (some e) ↦ (d, buffer, refused e)
                | panic ↦ (d, buffer, out_of_fuel)
                | stuck ↦ (d, buffer, out_of_fuel)
              ]).0)
      parsed ih (ok (p, rest)) = accepted ih (accept d p) rest (accept-Keeps d p b)
      parsed ih (err none) = b
      parsed ih (err (some e)) = b
      parsed ih panic = b
      parsed ih stuck = b

  -- Whatever bytes come in, a call of `read_chunk` keeps the limits of a decoder that is within
  -- them: at most 100 headers, at most 4 partial chunks, each of at most 10 MiB, and a maximal
  -- chunk size of 128 to 65536.
  pub read_chunk-IsBounded :
      (d : ChunkDecoder) (buffer : List ℕ) → IsBounded d → IsBounded ((read_chunk bo d buffer).0)
  unfolding read_chunk
  read_chunk-IsBounded d buffer b = read_chunk_at-IsBounded (length buffer + 1) d buffer b

-- ===== src/Rtmp/Chunk/Ends.antt =====
-- `read_chunk` returns on every buffer: a round takes bytes off it.
use video.Base.{
  ℕ, zero, suc, ◌+◌, ◌≤◌, ◌<◌, ◌≢◌, arith, Bool, true, false, List, [], ◌∷◌, Option, none, some,
  Result, ok, err, panic, stuck, ◌>>=◌, leb, ◌==◌, if◌then◌else◌, Bool-cases, inl, inr, length,
  length-drop, drop, take, ltb, lt→ltb, le→ltb,
}
use native.Mathlib.Decide.{dec_lt}
use video.Io.{Io, read_u8}
use video.ByteOrder.{ByteOrder, read_be, read_le}
use video.Io.{read_exact}
use video.Base.Maps.{get, insert, nat_eq, pair_eq}
use video.Rtmp.Chunk.Define.{
  ChunkType, ChunkBasicHeader, ChunkMessageHeader, ChunkDecodeError, type0, type1, type2, type3,
}
use video.Rtmp.Chunk.Decoder.{
  ChunkDecoder, Read, more, ok_or, guard, read_csid, read_header, read_extended, read_length,
  previous_header, read_type0, read_type1, read_type2, read_type3, skip_timestamp, read_typed,
  read_message_header, max_partial_chunk_size, max_partial_chunk_count, max_previous_chunk_headers,
}
use video.Rtmp.Chunk.ReadChunk.{
  Parsed, Outcome, Step, waiting, refused, out_of_fuel, again, done, parse, accept,
  need_read_length, key_of, extend_partial, store_partial, headers_with, read_chunk_at, read_chunk,
}

-- A read that takes at least `n` bytes off the buffer, or fails with an error of the program.
data Takes {E A : Type 0} (n : ℕ) (bs : List ℕ) : Result E (A × List ℕ) → Type 0 where
  value : {a : A} {rest : List ℕ} → length rest + n ≤ length bs → Takes n bs (ok (a, rest))
  failed : {e : E} → Takes n bs (err e)

Takes-weaken :
    {E A : Type 0} (n m : ℕ) (bs bs' : List ℕ) {r : Result E (A × List ℕ)}
    → Takes n bs r
    → length bs + m ≤ length bs' + n
    → Takes m bs' r
Takes-weaken n m bs bs' (value h) le = value (omega arith)
Takes-weaken n m bs bs' failed le = failed

module _ {E A B : Type 0} where
  Takes->>= :
      (n : ℕ) (bs : List ℕ) {r : Result E (A × List ℕ)} {f : A × List ℕ → Result E (B × List ℕ)}
      → Takes n bs r
      → ((p : A × List ℕ) → Takes 0 p.1 (f p))
      → Takes n bs (r >>= f)
  Takes->>= n bs (value {a} {rest} h) k = Takes-weaken 0 n rest bs (k (a, rest)) (omega arith)
  Takes->>= n bs failed k = failed

-- A step that leaves the buffer as it is.
data Checks {E A : Type 0} : Result E A → Type 0 where
  passed : {a : A} → Checks (ok a)
  rejected : {e : E} → Checks (err e)

Checks->>= :
    {E A B : Type 0} (n : ℕ) (bs : List ℕ) {r : Result E A} {f : A → Result E (B × List ℕ)}
    → Checks r
    → ((a : A) → Takes n bs (f a))
    → Takes n bs (r >>= f)
Checks->>= n bs (passed {a}) k = k a
Checks->>= n bs rejected k = failed

ok_or-Checks : {A : Type 0} (o : Option A) (e : ChunkDecodeError) → Checks (ok_or o e)
ok_or-Checks (some a) e = passed
ok_or-Checks none e = rejected

guard-Checks : (t : Bool) (e : ChunkDecodeError) → Checks (guard t e)
guard-Checks true e = passed
guard-Checks false e = rejected

read_exact-Takes : (n : ℕ) (bs : List ℕ) → Takes n bs (read_exact n bs)
unfolding read_exact
read_exact-Takes n bs = elim (dec_lt (length bs) n) [
  | yes short ↦ rw (lt→ltb _ _ short) failed
  | no enough ↦ rw (le→ltb (length bs) n (omega arith)) (value (omega (arith, length-drop n bs)))
]

more-Takes :
    {A : Type 0} (n : ℕ) (bs : List ℕ) {r : Io (A × List ℕ)} → Takes n bs r → Takes n bs (more r)
more-Takes n bs (value h) = value h
more-Takes n bs failed = failed

read_u8-Takes : (bs : List ℕ) → Takes 1 bs (more (read_u8 bs))
unfolding read_u8
read_u8-Takes [] = failed
read_u8-Takes (b ∷ bs) = value (omega arith)

read_csid-Takes : (n : ℕ) (bs : List ℕ) → Takes 0 bs (read_csid n bs)
unfolding read_csid
read_csid-Takes zero bs =
    Takes-weaken 1 0 bs bs (Takes->>= 1 bs (read_u8-Takes bs) (λ (a, rest). value (omega arith)))
      (omega arith)
read_csid-Takes (suc zero) bs =
    Takes-weaken 1 0 bs bs
      (Takes->>= 1 bs (read_u8-Takes bs) λ (a, bs').
        Takes-weaken 1 0 bs' bs'
          (Takes->>= 1 bs' (read_u8-Takes bs') (λ (b, rest). value (omega arith))) (omega arith))
      (omega arith)
read_csid-Takes (suc (suc n)) bs = value (omega arith)

read_header-Takes : (bs : List ℕ) → Takes 1 bs (read_header bs)
unfolding read_header
read_header-Takes bs = Takes->>= 1 bs (read_u8-Takes bs) λ (byte, bs').
    Checks->>= 0 bs' (ok_or-Checks _ _)
      λ format. Takes->>= 0 bs' (read_csid-Takes _ bs') (λ (csid, rest). value (omega arith))

module _ (bo : ByteOrder) where
  read_be-Takes : (n : ℕ) (bs : List ℕ) → Takes 0 bs (more (read_be bo n bs))
  unfolding read_be
  read_be-Takes n bs = more-Takes 0 bs (
      Takes-weaken n 0 bs bs
        (Takes->>= n bs (read_exact-Takes n bs) (λ (buf, rest). value (omega arith))) (omega arith))

  read_le-Takes : (n : ℕ) (bs : List ℕ) → Takes 0 bs (more (read_le bo n bs))
  unfolding read_le
  read_le-Takes n bs = more-Takes 0 bs (
      Takes-weaken n 0 bs bs
        (Takes->>= n bs (read_exact-Takes n bs) (λ (buf, rest). value (omega arith))) (omega arith))

  read_extended-Takes : (t : ℕ) (bs : List ℕ) → Takes 0 bs (read_extended bo t bs)
  unfolding read_extended
  read_extended-Takes t bs = elim (Bool-cases (t == 0xffffff)) [
    | inl e ↦ rw e (Takes->>= 0 bs (read_be-Takes 4 bs) (λ (a, rest). value (omega arith)))
    | inr e ↦ rw e (value (omega arith))
  ]

  read_length-Takes : (bs : List ℕ) → Takes 0 bs (read_length bo bs)
  unfolding read_length
  read_length-Takes bs = Takes->>= 0 bs (read_be-Takes 3 bs) λ (n, bs').
      Checks->>= 0 bs' (guard-Checks _ _) λ u.
        Takes-weaken 1 0 bs' bs'
          (Takes->>= 1 bs' (read_u8-Takes bs')
            λ (id, rest). Checks->>= 0 rest (ok_or-Checks _ _) (λ t. value (omega arith)))
          (omega arith)

  previous_header-Checks : (d : ChunkDecoder) (csid : ℕ) → Checks (previous_header bo d csid)
  unfolding previous_header
  previous_header-Checks d csid = ok_or-Checks _ _

  read_typed-Takes :
      (t : ChunkType) (d : ChunkDecoder) (csid : ℕ) (bs : List ℕ)
      → Takes 0 bs (read_typed bo t d csid bs)
  unfolding read_typed read_type0 read_type1 read_type2 read_type3
  read_typed-Takes type0 d csid bs = Takes->>= 0 bs (read_be-Takes 3 bs) λ (t, bs₁).
      Takes->>= 0 bs₁ (read_length-Takes bs₁) λ (l, bs₂).
        Takes->>= 0 bs₂ (read_le-Takes 4 bs₂)
          λ (s, bs₃). Takes->>= 0 bs₃ (read_extended-Takes t bs₃) (λ (e, rest). value (omega arith))
  read_typed-Takes type1 d csid bs = Takes->>= 0 bs (read_be-Takes 3 bs) λ (t, bs₁).
      Takes->>= 0 bs₁ (read_length-Takes bs₁) λ (l, bs₂).
        Takes->>= 0 bs₂ (read_extended-Takes t bs₂)
          λ (e, rest). Checks->>= 0 rest (previous_header-Checks d csid) (λ p. value (omega arith))
  read_typed-Takes type2 d csid bs = Takes->>= 0 bs (read_be-Takes 3 bs) λ (t, bs₁).
      Takes->>= 0 bs₁ (read_extended-Takes t bs₁)
        λ (e, rest). Checks->>= 0 rest (previous_header-Checks d csid) (λ p. value (omega arith))
  read_typed-Takes type3 d csid bs = Checks->>= 0 bs (previous_header-Checks d csid) λ p. skipped p
    where
      skipped : (p : ChunkMessageHeader) → Takes 0 bs (skip_timestamp bo p bs)
      skipped p = elim (Bool-cases p.was_extended_timestamp) [
        | inl e ↦ rw e (Takes->>= 0 bs (read_be-Takes 4 bs) (λ (a, rest). value (omega arith)))
        | inr e ↦ rw e (value (omega arith))
      ]

  -- What a round reads is at least the byte of the basic header.
  parse-Takes : (d : ChunkDecoder) (bs : List ℕ) → Takes 1 bs (parse bo d bs)
  unfolding parse read_message_header
  parse-Takes d bs = Takes->>= 1 bs (read_header-Takes bs) λ (header, bs₁).
      Takes->>= 0 bs₁ (read_typed-Takes header.format d header.chunk_stream_id bs₁)
        λ (h, bs₂). whole header h bs₂ (need_read_length d header h)
    where
      whole :
          (header : ChunkBasicHeader) (h : ChunkMessageHeader) (rest : List ℕ) (need : ℕ)
          → Takes {E = Option ChunkDecodeError} {A = Parsed} 0 rest (
              if leb need (length rest)
              then ok (
                record { header = header; message_header = h; payload = take need rest },
                drop need rest,
              )
              else err none)
      whole header h rest need = elim (Bool-cases (leb need (length rest))) [
        | inl e ↦ rw e (value (omega (arith, length-drop need rest)))
        | inr e ↦ rw e failed
      ]

  abbrev Answers : Step → Type 0
  Answers (again d) = Unit
  Answers (done d o) = o ≢ out_of_fuel

  extend_partial-Answers :
      (d : ChunkDecoder) (p : Parsed) (bytes : List ℕ) → Answers (extend_partial d p bytes)
  unfolding extend_partial
  extend_partial-Answers d p bytes =
      elim (Bool-cases (ltb max_partial_chunk_size (length bytes + length p.payload))) [
        | inl large ↦ rw large (λ e. cc)
        | inr small ↦
            elim (Bool-cases (length bytes + length p.payload == p.message_header.msg_length)) [
              | inl whole ↦ rw small (rw whole (λ e. cc))
              | inr part ↦ rw small (rw part tt)
            ]
      ]

  store_partial-Answers :
      (d : ChunkDecoder) (p : Parsed) (o : Option (List ℕ)) → Answers (store_partial d p o)
  unfolding store_partial
  store_partial-Answers d p (some bytes) = extend_partial-Answers d p bytes
  store_partial-Answers d p none =
      elim (Bool-cases (leb max_partial_chunk_count (length d.partial_chunks))) [
        | inl full ↦ rw full (λ e. cc)
        | inr free ↦ rw free (extend_partial-Answers d p [])
      ]

  accept-Answers : (d : ChunkDecoder) (p : Parsed) → Answers (accept d p)
  unfolding accept
  accept-Answers d p =
      elim (Bool-cases (ltb max_previous_chunk_headers (headers_with p.header.chunk_stream_id d))) [
        | inl full ↦ rw full (λ e. cc)
        | inr free ↦ elim (Bool-cases (length p.payload == p.message_header.msg_length)) [
          | inl whole ↦ rw free (rw whole (λ e. cc))
          | inr part ↦ rw free (
              rw part (
                store_partial-Answers
                  (record d {
                    previous_chunk_headers =
                        insert p.header.chunk_stream_id p.message_header d.previous_chunk_headers;
                  })
                  p (get (key_of p.header p.message_header) d.partial_chunks)))
        ]
      ]

  Ended : ℕ → ChunkDecoder × List ℕ × Outcome → Type 0
  Ended n (d, rest, o) = (o ≢ out_of_fuel) × (length rest ≤ n)

  read_chunk_at-Ended :
      (f : ℕ) (d : ChunkDecoder) (buffer : List ℕ)
      → length buffer < f
      → Ended (length buffer) (read_chunk_at bo f d buffer)
  unfolding read_chunk_at Ended
  read_chunk_at-Ended zero d buffer h = absurd (omega arith)
  read_chunk_at-Ended (suc f) d buffer h =
      parsed (read_chunk_at-Ended f) (parse bo d buffer) (parse-Takes d buffer)
    where
      accepted :
          ((d' : ChunkDecoder) (rest : List ℕ)
            → length rest < f
            → Ended (length rest) (read_chunk_at bo f d' rest))
          → (s : Step) (rest : List ℕ) → length rest + 1 ≤ length buffer
          → Answers s
          → Ended (length buffer) (elim s [
            | again d' ↦ read_chunk_at bo f d' rest
            | done d' outcome ↦ (d', rest, outcome)
          ])
      accepted ih (again d') rest le a =
          ((ih d' rest (omega arith)).0, omega (arith, (ih d' rest (omega arith)).1))
      accepted ih (done d' o) rest le a = (a, omega arith)

      parsed :
          ((d' : ChunkDecoder) (rest : List ℕ)
            → length rest < f
            → Ended (length rest) (read_chunk_at bo f d' rest))
          → (r : Read Parsed) → Takes 1 buffer r
          → Ended (length buffer) (elim r [
            | ok (p, rest) ↦ elim (accept d p) [
              | again d' ↦ read_chunk_at bo f d' rest
              | done d' outcome ↦ (d', rest, outcome)
            ]
            | err none ↦ (d, buffer, waiting)
            | err (some e) ↦ (d, buffer, refused e)
            | panic ↦ (d, buffer, out_of_fuel)
            | stuck ↦ (d, buffer, out_of_fuel)
          ])
      parsed ih (ok (p, rest)) (value le) = accepted ih (accept d p) rest le (accept-Answers d p)
      parsed ih (err none) failed = (λ e. cc, omega arith)
      parsed ih (err (some e)) failed = (λ e'. cc, omega arith)
      parsed ih panic t = elim t [ ]
      parsed ih stuck t = elim t [ ]

  -- `read_chunk` returns on every decoder and every buffer, within as many rounds as there are
  -- bytes and one more, and what it leaves of the buffer is not longer than the buffer.
  pub read_chunk-ends :
      (d : ChunkDecoder) (buffer : List ℕ)
      → ((read_chunk bo d buffer).2 ≢ out_of_fuel)
        × (length ((read_chunk bo d buffer).1) ≤ length buffer)
  unfolding read_chunk Ended
  read_chunk-ends d buffer = read_chunk_at-Ended (length buffer + 1) d buffer (omega arith)

-- ===== src/Amf0/Decode.antt =====
-- crates/amf0/src/decode.rs: `Amf0Decoder`. The decoder is the list of the bytes behind its
-- cursor. Recursion is on fuel: every call takes a byte at least, so one more than the count of
-- bytes is enough.
use video.Base.{
  ℕ, zero, suc, ◌+◌, Bool, true, false, List, [], ◌∷◌, Option, none, some, Result, ok, err, panic,
  stuck, ◌>>=◌, map_err, ltb, if◌then◌else◌, length, take, drop,
}
use video.Io.{Io, read_u8}
use video.Utf8.{valid_utf8}
use video.ByteOrder.{ByteOrder, read_be}
use video.Amf0.Define.{
  Amf0Value, Properties, Amf0Marker, Amf0ReadError, Str, from_number, same_marker, empty, property,
}

abbrev pub Read : Type 0 → Type 0
Read A = Result Amf0ReadError (A × List ℕ)

-- `?` on an `io::Result`.
abbrev io : {A : Type 0} → Io A → Result Amf0ReadError A
io = map_err Amf0ReadError.io

-- The cursor moves on without a check, and the slice behind it panics where it is too short.
unfoldable pub read_bytes : ℕ → List ℕ → Read Str
read_bytes len bs = if ltb (length bs) len then panic else ok (take len bs, drop len bs)

unfoldable pub check_utf8 : Str → List ℕ → Read Str
check_utf8 bytes rest =
    if valid_utf8 bytes then ok (bytes, rest) else err Amf0ReadError.string_parse_error

unfoldable pub read_bool : List ℕ → Read Bool
read_bool bs = do (b, rest) ← io (read_u8 bs); ok (ltb 0 b, rest)

abbrev pub is_object_end : Option Amf0Marker → Bool
is_object_end (some Amf0Marker.object_end) = true
is_object_end _ = false

abbrev pub match_eof : Io (ℕ × List ℕ) → Option (List ℕ)
match_eof (ok (m, rest)) = if is_object_end (from_number m) then some rest else none
match_eof _ = none

module _ (bo : ByteOrder) where
  unfoldable pub read_number : List ℕ → Read ℕ
  read_number bs = io (read_be bo 8 bs)

  unfoldable pub read_string : List ℕ → Read Str
  unfolding read_bytes check_utf8
  read_string bs = do
    (l, bs') ← io (read_be bo 2 bs)
    (bytes, rest) ← read_bytes l bs'
    check_utf8 bytes rest

  unfoldable pub read_long_string : List ℕ → Read Str
  unfolding read_bytes check_utf8
  read_long_string bs = do
    (l, bs') ← io (read_be bo 4 bs)
    (buff, rest) ← read_bytes l bs'
    check_utf8 buff rest

  -- `some` of the bytes behind an object end, for `Ok(true)`; `none` for `Ok(false)`, where the
  -- cursor is set back to where it was.
  unfoldable pub is_read_object_eof : List ℕ → Option (List ℕ)
  is_read_object_eof bs = match_eof (read_be bo 3 bs)

  -- `self.is_read_object_eof().ok()`: where the cursor is then.
  unfoldable pub skip_object_eof : List ℕ → List ℕ
  skip_object_eof bs = elim (is_read_object_eof bs) [ some rest ↦ rest | none ↦ bs ]

  -- `match marker`, with the readers of an object's and an array's properties.
  unfoldable pub decode_marked :
      (List ℕ → Read Properties)
      → (ℕ → List ℕ → Read Properties)
      → Amf0Marker
      → List ℕ
      → Read Amf0Value
  decode_marked read_object read_ecma_array Amf0Marker.number bs = do
    (n, rest) ← read_number bs
    ok (Amf0Value.number n, rest)
  decode_marked read_object read_ecma_array Amf0Marker.boolean bs = do
    (b, rest) ← read_bool bs
    ok (Amf0Value.boolean b, rest)
  decode_marked read_object read_ecma_array Amf0Marker.string bs = do
    (s, rest) ← read_string bs
    ok (Amf0Value.string s, rest)
  decode_marked read_object read_ecma_array Amf0Marker.object bs = do
    (ps, rest) ← read_object bs
    ok (Amf0Value.object ps, rest)
  decode_marked read_object read_ecma_array Amf0Marker.null bs = ok (Amf0Value.null, bs)
  decode_marked read_object read_ecma_array Amf0Marker.ecma_array bs = do
    (len, bs') ← io (read_be bo 4 bs)
    (ps, rest) ← read_ecma_array len bs'
    ok (Amf0Value.object ps, skip_object_eof rest)
  decode_marked read_object read_ecma_array Amf0Marker.long_string bs = do
    (s, rest) ← read_long_string bs
    ok (Amf0Value.long_string s, rest)
  decode_marked read_object read_ecma_array other bs = err (Amf0ReadError.unsupported_type other)

  -- `ok_or(UnknownMarker(marker))?`, and the match.
  unfoldable pub decode_kind :
      (List ℕ → Read Properties)
      → (ℕ → List ℕ → Read Properties)
      → ℕ
      → Option Amf0Marker
      → List ℕ
      → Read Amf0Value
  unfolding decode_marked
  decode_kind read_object read_ecma_array m none bs = err (Amf0ReadError.unknown_marker m)
  decode_kind read_object read_ecma_array m (some kind) bs =
      decode_marked read_object read_ecma_array kind bs

  unfoldable mutual
    unfolding decode_kind

    pub decode_at : ℕ → List ℕ → Read Amf0Value
    decode_at zero bs = stuck
    decode_at (suc f) bs = do
      (m, rest) ← io (read_u8 bs)
      decode_kind (read_object_at f) (read_ecma_array_at f) m (from_number m) rest

    pub read_object_at : ℕ → List ℕ → Read Properties
    read_object_at zero bs = stuck
    read_object_at (suc f) bs = elim (is_read_object_eof bs) [
      | some rest ↦ ok (empty, rest)
      | none ↦ do
        (key, bs₁) ← read_string bs
        (val, bs₂) ← decode_at f bs₁
        (ps, bs₃) ← read_object_at f bs₂
        ok (property key val ps, bs₃)
    ]

    -- The rounds that are left of `for _ in 0..len`.
    pub read_ecma_array_at : ℕ → ℕ → List ℕ → Read Properties
    read_ecma_array_at f zero bs = ok (empty, bs)
    read_ecma_array_at zero (suc n) bs = stuck
    read_ecma_array_at (suc f) (suc n) bs = do
      (key, bs₁) ← read_string bs
      (val, bs₂) ← decode_at f bs₁
      (ps, bs₃) ← read_ecma_array_at f n bs₂
      ok (property key val ps, bs₃)

  -- `Amf0Decoder::decode`
  unfoldable pub decode : List ℕ → Read Amf0Value
  unfolding decode_at
  decode bs = decode_at (length bs + 1) bs

  -- `while !self.is_empty() { results.push(self.decode()?); }`
  unfoldable pub decode_all_at : ℕ → List ℕ → Result Amf0ReadError (List Amf0Value)
  decode_all_at f [] = ok []
  decode_all_at zero (b ∷ bs) = stuck
  decode_all_at (suc f) (b ∷ bs) = do
    (v, rest) ← decode (b ∷ bs)
    vs ← decode_all_at f rest
    ok (v ∷ vs)

  unfoldable pub decode_all : List ℕ → Result Amf0ReadError (List Amf0Value)
  unfolding decode_all_at decode
  decode_all bs = decode_all_at (length bs) bs

  unfoldable pub match_type : Amf0Marker → List ℕ → ℕ → Option Amf0Marker → Read Amf0Value
  unfolding decode same_marker
  match_type specified bs m none = err (Amf0ReadError.unknown_marker m)
  match_type specified bs m (some found) =
      if same_marker found specified
      then decode bs
      else err (Amf0ReadError.wrong_type specified found)

  -- The marker is read, and the cursor set back to it.
  unfoldable pub decode_with_type : Amf0Marker → List ℕ → Read Amf0Value
  unfolding match_type
  decode_with_type specified bs = do
    (m, _) ← io (read_u8 bs)
    match_type specified bs m (from_number m)

  -- `Iterator::next`
  unfoldable pub next : List ℕ → Option (Read Amf0Value)
  next [] = none
  next (b ∷ bs) = some (decode (b ∷ bs))

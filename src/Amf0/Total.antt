-- ===== src/Amf0/Total.antt =====
-- The decoder ends on every input, and where it panics.
use video.Base.{
  ℕ, zero, suc, ◌+◌, ◌≤◌, ◌<◌, ◌≡◌, ◌≢◌, arith, List, [], ◌∷◌, ◌++◌, ok, panic, stuck, Yields,
  value, failed, panicked, Settles->>=, Settles-map_err, Settles-mono, Settles-ne-stuck, lt→ltb,
  le→ltb, length, length-drop, some, none, Option, Bool-cases, inl, inr, Option-cases,
}
use native.Mathlib.Numerals.{add-one}
use native.Mathlib.Decide.{dec_lt}
use video.Io.{Io, read_u8, read_u8-Settles}
use video.Utf8.{valid_utf8}
use video.ByteOrder.{ByteOrder, read_be}
use video.ByteOrder.Laws.{read_be-Settles, read_be-to_be}
use video.Amf0.Define.{Properties, Amf0Marker, from_number, same_marker}
use video.Amf0.Decode.{
  match_type, decode_with_type, Read, decode, decode_at, read_object_at, read_ecma_array_at,
  read_string, read_long_string, read_bytes, check_utf8, is_read_object_eof, skip_object_eof,
  read_number, read_bool, decode_all, decode_all_at, match_eof, decode_marked, decode_kind,
}

-- A read that ends, and takes at least `n` bytes off the input if it succeeds.
abbrev Takes : {A : Type 0} → ℕ → List ℕ → Read A → Type 0
Takes n bs r = Yields (λ (_, rest). length rest + n ≤ length bs) r

read_bytes-Takes : (n : ℕ) (bs : List ℕ) → Takes n bs (read_bytes n bs)
unfolding read_bytes
read_bytes-Takes n bs = elim (dec_lt (length bs) n) [
  | yes short ↦ rw (lt→ltb _ _ short) (panicked tt)
  | no enough ↦ rw (le→ltb (length bs) n (omega arith)) (value (omega (arith, length-drop n bs)))
]

check_utf8-Takes : (s rest : List ℕ) → Takes 0 rest (check_utf8 s rest)
unfolding check_utf8
check_utf8-Takes s rest = elim (Bool-cases (valid_utf8 s)) [
  | inl e ↦ rw e (value (omega arith))
  | inr e ↦ rw e failed
]

read_bool-Takes : (bs : List ℕ) → Takes 1 bs (read_bool bs)
unfolding read_bool
read_bool-Takes bs =
    Settles->>= (Settles-map_err _ (read_u8-Settles bs)) (λ (b, rest) h. value (omega arith))

match_eof-takes :
    (bs rest : List ℕ) (r : Io (ℕ × List ℕ))
    → Yields (λ (_, rest'). length rest' + 3 ≡ length bs) r
    → match_eof r ≡ some rest
    → length rest + 3 ≡ length bs
match_eof-takes bs rest (ok (m, rest')) (value h) e = ground arith
match_eof-takes bs rest _ failed e = cc
match_eof-takes bs rest _ (panicked c) e = cc

module _ (bo : ByteOrder) where
  read_number-Takes : (bs : List ℕ) → Takes 8 bs (read_number bo bs)
  unfolding read_number
  read_number-Takes bs =
      Settles-map_err _ (Settles-mono (read_be-Settles bo 8 bs) (λ a h. omega arith))

  read_string-Takes : (bs : List ℕ) → Takes 2 bs (read_string bo bs)
  unfolding read_string
  read_string-Takes bs = Settles->>= (Settles-map_err _ (read_be-Settles bo 2 bs)) λ (l, bs') h.
      Settles->>= (read_bytes-Takes l bs')
        λ (s, rest) h'. Settles-mono (check_utf8-Takes s rest) (λ a h''. omega arith)

  read_long_string-Takes : (bs : List ℕ) → Takes 4 bs (read_long_string bo bs)
  unfolding read_long_string
  read_long_string-Takes bs =
      Settles->>= (Settles-map_err _ (read_be-Settles bo 4 bs)) λ (l, bs') h.
        Settles->>= (read_bytes-Takes l bs')
          λ (s, rest) h'. Settles-mono (check_utf8-Takes s rest) (λ a h''. omega arith)

  is_read_object_eof-takes :
      (bs rest : List ℕ) → is_read_object_eof bo bs ≡ some rest → length rest + 3 ≡ length bs
  unfolding is_read_object_eof
  is_read_object_eof-takes bs rest e =
      match_eof-takes bs rest (read_be bo 3 bs) (read_be-Settles bo 3 bs) e

  skip_object_eof-le : (bs : List ℕ) → length (skip_object_eof bo bs) ≤ length bs
  unfolding skip_object_eof
  skip_object_eof-le bs = elim (Option-cases (is_read_object_eof bo bs)) [
    | inl e ↦ rw (e, skip_object_eof) (omega arith)
    | inr (rest, e) ↦ rw (e, skip_object_eof) (omega (arith, is_read_object_eof-takes bs rest e))
  ]

  decode_marked-Takes :
      (object : List ℕ → Read Properties) (array : ℕ → List ℕ → Read Properties) (m : Amf0Marker)
      (bs : List ℕ)
      → Takes 0 bs (object bs)
      → ((n : ℕ) (bs' : List ℕ) → length bs' ≤ length bs → Takes 0 bs' (array n bs'))
      → Takes 0 bs (decode_marked bo object array m bs)
  unfolding decode_marked
  decode_marked-Takes object array Amf0Marker.number bs ho ha =
      Settles->>= (read_number-Takes bs) (λ a h. value (omega arith))
  decode_marked-Takes object array Amf0Marker.boolean bs ho ha =
      Settles->>= (read_bool-Takes bs) (λ a h. value (omega arith))
  decode_marked-Takes object array Amf0Marker.string bs ho ha =
      Settles->>= (read_string-Takes bs) (λ a h. value (omega arith))
  decode_marked-Takes object array Amf0Marker.object bs ho ha = Settles->>= ho (λ a h. value h)
  decode_marked-Takes object array Amf0Marker.null bs ho ha = value (omega arith)
  decode_marked-Takes object array Amf0Marker.ecma_array bs ho ha =
      Settles->>= (Settles-map_err _ (read_be-Settles bo 4 bs)) λ (n, bs') h.
        Settles->>= (ha n bs' (omega arith))
          λ (ps, rest) h'. value (omega (arith, skip_object_eof-le rest))
  decode_marked-Takes object array Amf0Marker.long_string bs ho ha =
      Settles->>= (read_long_string-Takes bs) (λ a h. value (omega arith))
  decode_marked-Takes object array _ bs ho ha = failed

  decode_kind-Takes :
      (object : List ℕ → Read Properties) (array : ℕ → List ℕ → Read Properties) (m : ℕ)
      (kind : Option Amf0Marker) (bs : List ℕ)
      → Takes 0 bs (object bs)
      → ((n : ℕ) (bs' : List ℕ) → length bs' ≤ length bs → Takes 0 bs' (array n bs'))
      → Takes 0 bs (decode_kind bo object array m kind bs)
  unfolding decode_kind
  decode_kind-Takes object array m none bs ho ha = failed
  decode_kind-Takes object array m (some kind) bs ho ha =
      decode_marked-Takes object array kind bs ho ha

  -- One induction on the fuel, which stays above the count of the bytes that are left.
  mutual
    unfolding decode_at

    decode_at-Takes : (f : ℕ) (bs : List ℕ) → length bs < f → Takes 1 bs (decode_at bo f bs)
    decode_at-Takes zero bs h = absurd (omega arith)
    decode_at-Takes (suc f) bs h =
        Settles->>= (Settles-map_err _ (read_u8-Settles bs)) λ (m, rest) h₁.
          Settles-mono
            (decode_kind-Takes (read_object_at bo f) (read_ecma_array_at bo f) m (from_number m)
              rest (read_object_at-Takes f rest (omega arith))
              (λ n bs' le. read_ecma_array_at-Takes f n bs' (omega arith)))
            (λ a h₂. omega arith)

    read_object_at-Takes :
        (f : ℕ) (bs : List ℕ) → length bs < f → Takes 0 bs (read_object_at bo f bs)
    read_object_at-Takes zero bs h = absurd (omega arith)
    read_object_at-Takes (suc f) bs h = elim (Option-cases (is_read_object_eof bo bs)) [
      | inl e ↦
          rw (e, read_object_at)
            (Settles->>= (read_string-Takes bs) λ (key, bs₁) h₁.
              Settles->>= (decode_at-Takes f bs₁ (omega arith)) λ (val, bs₂) h₂.
                Settles->>= (read_object_at-Takes f bs₂ (omega arith))
                  λ (ps, bs₃) h₃. value (omega arith))
      | inr (rest, e) ↦
          rw (e, read_object_at) (value (omega (arith, is_read_object_eof-takes bs rest e)))
    ]

    read_ecma_array_at-Takes :
        (f n : ℕ) (bs : List ℕ) → length bs < f → Takes 0 bs (read_ecma_array_at bo f n bs)
    read_ecma_array_at-Takes f zero bs h = value (omega arith)
    read_ecma_array_at-Takes zero (suc n) bs h = absurd (omega arith)
    read_ecma_array_at-Takes (suc f) (suc n) bs h =
        Settles->>= (read_string-Takes bs) λ (key, bs₁) h₁.
          Settles->>= (decode_at-Takes f bs₁ (omega arith)) λ (val, bs₂) h₂.
            Settles->>= (read_ecma_array_at-Takes f n bs₂ (omega arith))
              λ (ps, bs₃) h₃. value (omega arith)

  -- `decode` ends on every input: with a value, having taken at least one byte, with an error,
  -- or with a panic, and never by running out of fuel.
  pub decode_ends : (bs : List ℕ) → Yields (λ (_, rest). length rest + 1 ≤ length bs) (decode bo bs)
  unfolding decode
  decode_ends bs = decode_at-Takes (length bs + 1) bs (omega arith)

  pub decode_all_at-ends :
      (f : ℕ) (bs : List ℕ) → length bs ≤ f → Yields (λ _. Unit {0}) (decode_all_at bo f bs)
  unfolding decode_all_at
  decode_all_at-ends f [] h = value tt
  decode_all_at-ends zero (b ∷ bs) h = absurd (omega arith)
  decode_all_at-ends (suc f) (b ∷ bs) h =
      Settles->>= (decode_ends (b ∷ bs))
        λ (v, rest) le. Settles->>= (decode_all_at-ends f rest (omega arith)) λ vs _. value tt

  -- `decode_all` ends on every input.
  pub decode_all-ends : (bs : List ℕ) → decode_all bo bs ≢ stuck
  unfolding decode_all
  decode_all-ends bs = Settles-ne-stuck (decode_all_at-ends (length bs) bs (omega arith))

  match_type-ends :
      (specified : Amf0Marker) (bs : List ℕ) (m : ℕ) (o : Option Amf0Marker)
      → Yields (λ _. Unit {0}) (match_type bo specified bs m o)
  unfolding match_type
  match_type-ends specified bs m none = failed
  match_type-ends specified bs m (some found) = elim (Bool-cases (same_marker found specified)) [
    | inl e ↦ rw e (Settles-mono (decode_ends bs) λ _ _. tt)
    | inr e ↦ rw e failed
  ]

  pub decode_with_type-ends :
      (specified : Amf0Marker) (bs : List ℕ)
      → Yields (λ _. Unit {0}) (decode_with_type bo specified bs)
  unfolding decode_with_type
  decode_with_type-ends specified bs =
      Settles->>= (Settles-map_err _ (read_u8-Settles bs))
        λ (m, rest) _. match_type-ends specified bs m (from_number m)

  -- `decode_all` ends on every input.
  pub decode_all-Yields : (bs : List ℕ) → Yields (λ _. Unit {0}) (decode_all bo bs)
  unfolding decode_all
  decode_all-Yields bs = decode_all_at-ends (length bs) bs (omega arith)

  -- A string value whose length field, of 16 bits, promises more bytes than the buffer has
  -- panics the decoder.
  pub decode_string_panics :
      (l : ℕ) (tail : List ℕ)
      → l < 65536
      → length tail < l
      → decode bo (2 ∷ (bo.to_be 2 l ++ tail)) ≡ panic
  unfolding decode decode_at read_string read_bytes from_number read_u8
  decode_string_panics l tail h short =
      rw add-one (rw (read_be-to_be bo 2 l tail h) (rw (lt→ltb (length tail) l short)))

-- ===== src/BytesUtil/BytesCursor.antt =====
-- crates/bytes-util/src/bytes_cursor.rs: `BytesCursorExt` of a `Cursor<Bytes>`.
pub mod Front
use video.Base.{
  ℕ, ◌+◌, ◌-◌, ◌≡◌, refl, sym, ap, ◌∙◌, arith, true, false, List, [], ◌∷◌, ok, err, panic, stuck,
  ◌>>=◌, ltb, le→ltb, ◌==◌, if◌then◌else◌, Bool-cases, inl, inr, length, take, drop, length-drop,
  take-all,
}
use video.Io.{Io, Cursor, remaining, unexpected_eof}

-- `saturating_sub`
abbrev pub remaining_count : Cursor → ℕ
remaining_count c = length c.inner - c.position

unfoldable pub extract_bytes : ℕ → Cursor → Io (List ℕ × Cursor)
extract_bytes size c =
    if size == 0
    then ok ([], c)
    else if ltb (remaining_count c) size
    then err unexpected_eof
    else ok (take size (drop c.position c.inner), record c { position = c.position + size })

-- `extract_bytes` of a cursor in front of these bytes, and the bytes behind it then.
unfoldable pub extract : ℕ → List ℕ → Io (List ℕ × List ℕ)
unfolding extract_bytes
extract size bs = do
  (bytes, c) ← extract_bytes size (record { inner = bs; position = 0 })
  ok (bytes, remaining c)

-- `unwrap_or_default`
unfoldable pub extract_remaining : Cursor → List ℕ × Cursor
unfolding extract_bytes
extract_remaining c = elim (extract_bytes (remaining_count c) c) [
  | ok (bytes, c') ↦ (bytes, c')
  | err e ↦ ([], c)
  | panic ↦ ([], c)
  | stuck ↦ ([], c)
]

no_bytes : (bs : List ℕ) → length bs ≡ 0 → [] ≡ bs
no_bytes [] h = refl
no_bytes (b ∷ bs) h = absurd (omega arith)

extract_bytes-none :
    (c : Cursor)
    → (remaining_count c == 0) ≡ true
    → extract_bytes (remaining_count c) c ≡ ok ([], c)
unfolding extract_bytes
extract_bytes-none c e = rw e

extract_bytes-some :
    (c : Cursor)
    → (remaining_count c == 0) ≡ false
    → extract_bytes (remaining_count c) c
      ≡ ok (
        take (remaining_count c) (remaining c),
        record c { position = c.position + remaining_count c },
      )
unfolding extract_bytes
extract_bytes-some c e = rw e (rw (le→ltb (remaining_count c) (remaining_count c) (omega arith)))

-- `extract_remaining` returns the bytes behind the cursor, all of them, and leaves none, also
-- where the cursor stands behind the end.
pub extract_remaining-all :
    (c : Cursor)
    → ((extract_remaining c).0 ≡ remaining c) × (remaining ((extract_remaining c).1) ≡ [])
unfolding extract_remaining
extract_remaining-all c = elim (Bool-cases (remaining_count c == 0)) [
  | inl none_left ↦
      rw (extract_bytes-none c none_left, extract_remaining)
        (no_bytes (remaining c) (empty none_left), sym (no_bytes (remaining c) (empty none_left)))
  | inr some_left ↦
      rw (extract_bytes-some c some_left, extract_remaining)
        (all (remaining c) (length-drop c.position c.inner), behind)
]
  where
    empty : (remaining_count c == 0) ≡ true → length (remaining c) ≡ 0
    empty e = ground (arith, length-drop c.position c.inner)

    all : (bs : List ℕ) → length bs ≡ remaining_count c → take (remaining_count c) bs ≡ bs
    all bs h = ap (λ n. take n bs) (omega (arith, h)) ∙ take-all bs

    behind : drop (c.position + remaining_count c) c.inner ≡ []
    behind = sym (
        no_bytes (drop (c.position + remaining_count c) c.inner)
          (omega (arith, length-drop (c.position + remaining_count c) c.inner)))

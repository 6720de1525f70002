-- ===== src/Amf0/RoundTrip.antt =====
-- What the encoder writes, the decoder reads.
use video.Base.{
  ℕ, zero, suc, ◌+◌, ◌*◌, ◌^◌, ◌≤◌, ◌<◌, ◌≡◌, ◌≢◌, refl, ap, ◌∙◌, arith, Bool, true, false, List,
  [], ◌∷◌, ◌++◌, append_assoc, ok, if◌then◌else◌, length, length-append, le→ltb, take-append_length,
  drop-append_length, none, some,
}
use video.Io.{read_u8, read_exact-append}
use video.ByteOrder.{ByteOrder, read_be}
use video.ByteOrder.Laws.{read_be-to_be}
use video.Amf0.Define.{Amf0Value, Properties, Str, from_number}
use video.Amf0.Decode.{
  decode_at, read_object_at, read_string, read_bytes, is_read_object_eof, is_object_end,
  read_number, read_bool,
}
use video.Amf0.Layout.{
  IsShort, IsEncodable, AreEncodable, is_number, is_boolean, is_string, is_object, is_null,
  are_empty, are_property, bytes, property_bytes,
}

is_object_end-ne : (m : ℕ) → m ≢ 9 → is_object_end (from_number m) ≡ false
unfolding from_number
is_object_end-ne m h = ground arith

read_bytes-append :
    (n : ℕ) (xs rest : List ℕ) → length xs ≡ n → read_bytes n (xs ++ rest) ≡ ok (xs, rest)
unfolding read_bytes
read_bytes-append n xs rest e =
    rw (← e, le→ltb (length (xs ++ rest)) (length xs) (omega (arith, length-append xs rest)))
      (rw (take-append_length xs rest, drop-append_length xs rest))

module _ (bo : ByteOrder) where
  read_string-append :
      (s rest : List ℕ)
      → IsShort s
      → read_string bo (bo.to_be 2 (length s) ++ (s ++ rest)) ≡ ok (s, rest)
  unfolding read_string
  read_string-append s rest h =
      rw (read_be-to_be bo 2 (length s) (s ++ rest) (omega (arith, h.fits)))
        (rw (read_bytes-append (length s) s rest refl) (rw h.utf8))

  is_read_object_eof-end :
      (rest : List ℕ) → is_read_object_eof bo (bo.to_be 3 9 ++ rest) ≡ some rest
  unfolding is_read_object_eof from_number
  is_read_object_eof-end rest = rw (read_be-to_be bo 3 9 rest (omega arith), is_read_object_eof)

  read_be_three :
      (xs tl : List ℕ) (c : ℕ)
      → length xs ≡ 2
      → read_be bo 3 (xs ++ c ∷ tl) ≡ ok (bo.from_be xs * 256 + c, tl)
  unfolding read_be
  read_be_three xs tl c e = rw (← append_assoc xs (c ∷ []) tl) (
      rw (read_exact-append 3 (xs ++ c ∷ []) tl (omega (arith, length-append xs (c ∷ []))))
        (ap (λ m. ok (m, tl)) (bo.from_be-snoc xs c)))

  -- A key of `n` bytes and what follows it are no object end, unless `n` is 0 and a 9 follows.
  is_read_object_eof-key :
      (n c : ℕ) (tl : List ℕ)
      → n ≤ 65535
      → n * 256 + c ≢ 9
      → is_read_object_eof bo (bo.to_be 2 n ++ c ∷ tl) ≡ none
  unfolding is_read_object_eof
  is_read_object_eof-key n c tl h ne =
      rw (read_be_three (bo.to_be 2 n) tl c (bo.length-to_be 2 n), is_read_object_eof)
        (rw (is_object_end-ne (bo.from_be (bo.to_be 2 n) * 256 + c) away))
    where
      away : bo.from_be (bo.to_be 2 n) * 256 + c ≢ 9
      away = rw (bo.from_be-to_be 2 n (omega arith)) ne

  -- No value that can be encoded starts with the marker of an object end.
  pub bytes-head :
      {v : Amf0Value} → IsEncodable v → (c : ℕ) × (tl : List ℕ) × (bytes bo v ≡ c ∷ tl) × (c ≢ 9)
  unfolding bytes
  bytes-head (is_number {n} h) = (0, bo.to_be 8 n, refl, omega arith)
  bytes-head (is_boolean {b}) = (1, (if b then 1 else 0) ∷ [], refl, omega arith)
  bytes-head (is_string {s} h) = (2, bo.to_be 2 (length s) ++ s, refl, omega arith)
  bytes-head (is_object {ps} h) = (3, property_bytes bo ps, refl, omega arith)
  bytes-head is_null = (5, [], refl, omega arith)

  key-not_end :
      {v : Amf0Value} (key more : List ℕ)
      → IsShort key
      → IsEncodable v
      → is_read_object_eof bo (bo.to_be 2 (length key) ++ (key ++ (bytes bo v ++ more))) ≡ none
  key-not_end [] more h hv =
      let (c, tl, e, ne) = bytes-head hv in
      rw e (is_read_object_eof-key 0 c (tl ++ more) (omega arith) (λ p. ne (omega arith)))
  key-not_end {v} (x ∷ key) more h hv =
      is_read_object_eof-key (suc (length key)) x (key ++ (bytes bo v ++ more)) h.fits (omega arith)

  -- What follows the properties of an object follows the last of them.
  property_rest :
      (key : Str) (v : Amf0Value) (ps : Properties) (rest : List ℕ)
      → (bo.to_be 2 (length key) ++ (key ++ (bytes bo v ++ property_bytes bo ps))) ++ rest
        ≡ bo.to_be 2 (length key) ++ (key ++ (bytes bo v ++ (property_bytes bo ps ++ rest)))
  property_rest key v ps rest =
      append_assoc (bo.to_be 2 (length key)) (key ++ (bytes bo v ++ property_bytes bo ps)) rest
      ∙ ap (λ t. bo.to_be 2 (length key) ++ t)
          (append_assoc key (bytes bo v ++ property_bytes bo ps) rest
            ∙ ap (λ t. key ++ t) (append_assoc (bytes bo v) (property_bytes bo ps) rest))

  -- Fuel for a property is enough for its value and for those that follow.
  property_fuel :
      (key : Str) (v : Amf0Value) (ps : Properties) (f : ℕ)
      → length (bo.to_be 2 (length key) ++ (key ++ (bytes bo v ++ property_bytes bo ps))) ≤ suc f
      → (length (bytes bo v) ≤ f) × (length (property_bytes bo ps) ≤ f)
  property_fuel key v ps f le = omega (
    arith,
    bo.length-to_be 2 (length key),
    length-append (bo.to_be 2 (length key)) (key ++ (bytes bo v ++ property_bytes bo ps)),
    length-append key (bytes bo v ++ property_bytes bo ps),
    length-append (bytes bo v) (property_bytes bo ps),
  )

  read_number-append :
      (n : ℕ) (rest : List ℕ) → n < 2 ^ 64 → read_number bo (bo.to_be 8 n ++ rest) ≡ ok (n, rest)
  unfolding read_number
  read_number-append n rest h = rw (read_be-to_be bo 8 n rest h)

  read_bool-append :
      (b : Bool) (rest : List ℕ) → read_bool ((if b then 1 else 0) ∷ rest) ≡ ok (b, rest)
  unfolding read_bool read_u8
  read_bool-append true rest = refl
  read_bool-append false rest = refl

  mutual
    unfolding decode_at bytes from_number read_u8

    pub decode_at-bytes :
        {v : Amf0Value}
        → IsEncodable v
        → (f : ℕ) (rest : List ℕ) → length (bytes bo v) ≤ f
        → decode_at bo f (bytes bo v ++ rest) ≡ ok (v, rest)
    decode_at-bytes (is_number {n} h) zero rest le = absurd (omega arith)
    decode_at-bytes (is_number {n} h) (suc f) rest le = rw (read_number-append n rest h)
    decode_at-bytes (is_boolean {b}) zero rest le = absurd (omega arith)
    decode_at-bytes (is_boolean {b}) (suc f) rest le = rw (read_bool-append b rest)
    decode_at-bytes (is_string {s} h) zero rest le = absurd (omega arith)
    decode_at-bytes (is_string {s} h) (suc f) rest le =
        rw (append_assoc (bo.to_be 2 (length s)) s rest) (rw (read_string-append s rest h))
    decode_at-bytes (is_object {ps} h) zero rest le = absurd (omega arith)
    decode_at-bytes (is_object {ps} h) (suc f) rest le =
        rw (read_object_at-bytes h f rest (omega arith))
    decode_at-bytes is_null zero rest le = absurd (omega arith)
    decode_at-bytes is_null (suc f) rest le = refl

    read_object_at-bytes :
        {ps : Properties}
        → AreEncodable ps
        → (f : ℕ) (rest : List ℕ) → length (property_bytes bo ps) ≤ f
        → read_object_at bo f (property_bytes bo ps ++ rest) ≡ ok (ps, rest)
    read_object_at-bytes are_empty zero rest le = absurd (omega (arith, bo.length-to_be 3 9))
    read_object_at-bytes are_empty (suc f) rest le =
        rw (is_read_object_eof-end rest, read_object_at)
    read_object_at-bytes (are_property {key} {v} {ps} h hv hs) zero rest le = absurd (
        omega (
          arith,
          bo.length-to_be 2 (length key),
          length-append (bo.to_be 2 (length key)) (key ++ (bytes bo v ++ property_bytes bo ps)),
        ))
    read_object_at-bytes (are_property {key} {v} {ps} h hv hs) (suc f) rest le =
        rw (property_rest key v ps rest) (
          rw (key-not_end key (property_bytes bo ps ++ rest) h hv, read_object_at)
            (rw (read_string-append key (bytes bo v ++ (property_bytes bo ps ++ rest)) h) (
              rw
                (decode_at-bytes hv f (property_bytes bo ps ++ rest)
                  (property_fuel key v ps f le).0)
                (rw (read_object_at-bytes hs f rest (property_fuel key v ps f le).1)))))

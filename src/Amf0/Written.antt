-- ===== src/Amf0/Written.antt =====
-- The encoder writes the layout of a value, and the decoder reads whole buffers of it.
use video.Base.{
  ℕ, zero, suc, ◌+◌, ◌%◌, ◌^◌, ◌≤◌, ◌≡◌, refl, ap, ◌∙◌, sym, arith, List, [], ◌∷◌, ◌++◌,
  append_assoc, append-nil, ok, ◌>>=◌, Result, le→ltb, if◌then◌else◌, length, length-append, All,
}
use native.Mathlib.Nat.{mod-eq_of_lt}
use video.ByteOrder.{ByteOrder}
use video.Amf0.Define.{Amf0Value, Properties, Amf0WriteError, to_u8}
use video.Amf0.Encode.{
  encode, encode_properties, object_eof, encode_string, encode_number, encode_bool, encode_null,
}
use video.Amf0.Decode.{decode, decode_all, decode_all_at}
use video.Amf0.Layout.{
  IsShort, IsEncodable, AreEncodable, is_number, is_boolean, is_string, is_object, is_null,
  are_empty, are_property, bytes, property_bytes,
}
use video.Amf0.RoundTrip.{decode_at-bytes, bytes-head}

module _ (bo : ByteOrder) where
  encode_string-bytes :
      (w s : List ℕ)
      → IsShort s
      → encode_string bo w s ≡ ok (w ++ (2 ∷ (bo.to_be 2 (length s) ++ s)))
  unfolding encode_string to_u8
  encode_string-bytes w s h = rw (le→ltb 65535 (length s) h.fits) (
      ap ok (
        append_assoc (w ++ 2 ∷ []) (bo.to_be 2 (length s)) s
        ∙ append_assoc w (2 ∷ []) (bo.to_be 2 (length s) ++ s)))

  put_key-bytes :
      (w key more : List ℕ)
      → IsShort key
      → ((w ++ bo.to_be 2 (length key % 2 ^ 16)) ++ key) ++ more
        ≡ w ++ (bo.to_be 2 (length key) ++ (key ++ more))
  put_key-bytes w key more h =
      rw (mod-eq_of_lt {n = length key} {m = 2 ^ 16} (omega (arith, h.fits))) (
        append_assoc (w ++ bo.to_be 2 (length key)) key more
        ∙ append_assoc w (bo.to_be 2 (length key)) (key ++ more))

  mutual
    unfolding encode bytes object_eof encode_number encode_bool encode_null to_u8

    pub encode-bytes :
        {v : Amf0Value} → IsEncodable v → (w : List ℕ) → encode bo w v ≡ ok (w ++ bytes bo v)
    encode-bytes (is_number {n} h) w = ap ok (append_assoc w (0 ∷ []) (bo.to_be 8 n))
    encode-bytes (is_boolean {b}) w = ap ok (append_assoc w (1 ∷ []) ((if b then 1 else 0) ∷ []))
    encode-bytes (is_string {s} h) w = encode_string-bytes w s h
    encode-bytes (is_object {ps} hs) w =
        encode_properties-bytes hs (w ++ 3 ∷ [])
        ∙ ap ok (append_assoc w (3 ∷ []) (property_bytes bo ps))
    encode-bytes is_null w = refl

    encode_properties-bytes :
        {ps : Properties}
        → AreEncodable ps
        → (w : List ℕ)
        → (encode_properties bo w ps >>= λ w'. ok (object_eof bo w'))
          ≡ ok (w ++ property_bytes bo ps)
    encode_properties-bytes are_empty w = refl
    encode_properties-bytes (are_property {key} {v} {ps} h hv hs) w =
        rw (encode-bytes hv (((w ++ bo.to_be 2 (length key % 2 ^ 16)) ++ key))) (
          encode_properties-bytes hs
            (((w ++ bo.to_be 2 (length key % 2 ^ 16)) ++ key) ++ bytes bo v)
          ∙ ap ok (
              append_assoc ((w ++ bo.to_be 2 (length key % 2 ^ 16)) ++ key) (bytes bo v)
                (property_bytes bo ps)
              ∙ put_key-bytes w key (bytes bo v ++ property_bytes bo ps) h))

  -- A value that can be encoded is written behind what the writer holds, and `decode` reads it
  -- back from what was written, whatever bytes follow, which it leaves.
  pub decode-encode :
      (v : Amf0Value) (w rest : List ℕ)
      → IsEncodable v
      → (bs : List ℕ) × (encode bo w v ≡ ok (w ++ bs)) × (decode bo (bs ++ rest) ≡ ok (v, rest))
  unfolding decode
  decode-encode v w rest h = (
    bytes bo v,
    encode-bytes h w,
    decode_at-bytes bo h (length (bytes bo v ++ rest) + 1) rest
        (omega (arith, length-append (bytes bo v) rest)),
  )

  -- `encode` of one value after the other, as the writers of commands call it.
  unfoldable pub encode_all : List ℕ → List Amf0Value → Result Amf0WriteError (List ℕ)
  encode_all w [] = ok w
  encode_all w (v ∷ vs) = do w' ← encode bo w v; encode_all w' vs

  abbrev all_bytes : List Amf0Value → List ℕ
  all_bytes [] = []
  all_bytes (v ∷ vs) = bytes bo v ++ all_bytes vs

  encode_all-bytes :
      (vs : List Amf0Value) (w : List ℕ)
      → All IsEncodable vs
      → encode_all w vs ≡ ok (w ++ all_bytes vs)
  unfolding encode_all
  encode_all-bytes [] w h = ap ok (sym (append-nil w))
  encode_all-bytes (v ∷ vs) w (h, hs) = rw (encode-bytes h w) (
      encode_all-bytes vs (w ++ bytes bo v) hs ∙ ap ok (append_assoc w (bytes bo v) (all_bytes vs)))

  decode_all_at-step :
      (f : ℕ) (bs rest : List ℕ) (v : Amf0Value) (c : ℕ) (tl : List ℕ)
      → bs ≡ c ∷ tl
      → decode bo bs ≡ ok (v, rest)
      → decode_all_at bo (suc f) bs ≡ (decode_all_at bo f rest >>= λ vs. ok (v ∷ vs))
  unfolding decode_all_at
  decode_all_at-step f bs rest v c tl e d = rw e (rw (rw e at d))

  -- One round of the loop, in front of the bytes of `v`.
  decode_all_at-next :
      (v : Amf0Value) (vs : List Amf0Value) (f : ℕ)
      → IsEncodable v
      → (c : ℕ) (tl : List ℕ) → bytes bo v ≡ c ∷ tl
      → length (bytes bo v ++ all_bytes vs) ≤ f
      → ((g : ℕ) → length (all_bytes vs) ≤ g → decode_all_at bo g (all_bytes vs) ≡ ok vs)
      → decode_all_at bo f (bytes bo v ++ all_bytes vs) ≡ ok (v ∷ vs)
  unfolding decode
  decode_all_at-next v vs zero h c tl e le rest =
      absurd (omega (arith, length-append (bytes bo v) (all_bytes vs), ap length e))
  decode_all_at-next v vs (suc f) h c tl e le rest =
      decode_all_at-step f (bytes bo v ++ all_bytes vs) (all_bytes vs) v c (tl ++ all_bytes vs)
        (ap (λ t. t ++ all_bytes vs) e)
        (decode_at-bytes bo h _ (all_bytes vs)
          (omega (arith, length-append (bytes bo v) (all_bytes vs))))
      ∙ rw (rest f (omega (arith, length-append (bytes bo v) (all_bytes vs), ap length e)))

  decode_all_at-bytes :
      (vs : List Amf0Value) (f : ℕ)
      → All IsEncodable vs
      → length (all_bytes vs) ≤ f
      → decode_all_at bo f (all_bytes vs) ≡ ok vs
  unfolding decode_all_at
  decode_all_at-bytes [] f h le = refl
  decode_all_at-bytes (v ∷ vs) f (h, hs) le =
      let (c, tl, e, _) = bytes-head bo h in
      decode_all_at-next v vs f h c tl e le (λ g le'. decode_all_at-bytes vs g hs le')

  -- Values that can be encoded (numbers of 64 bits, valid UTF-8 strings and keys of at most
  -- 65535 bytes, objects of these, booleans and null) are encoded one after the other, and the
  -- buffer decodes to these values, in order, and to no more.
  pub decode_all-encode_all :
      (vs : List Amf0Value)
      → All IsEncodable vs
      → (bs : List ℕ) × (encode_all [] vs ≡ ok bs) × (decode_all bo bs ≡ ok vs)
  unfolding decode_all
  decode_all-encode_all vs h =
      (all_bytes vs, encode_all-bytes vs [] h, decode_all_at-bytes vs _ h (omega arith))

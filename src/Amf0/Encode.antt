-- ===== src/Amf0/Encode.antt =====
-- crates/amf0/src/encode.rs: `Amf0Encoder` over a `Vec<u8>`, which takes every write. A function
-- takes what the writer holds and returns what it holds then.
use video.Base.{
  ℕ, ◌%◌, ◌^◌, Bool, List, [], ◌∷◌, ◌++◌, Result, ok, err, ◌>>=◌, ltb, if◌then◌else◌, length,
}
use video.ByteOrder.{ByteOrder}
use video.Amf0.Define.{
  Amf0Value, Properties, Amf0Marker, Amf0WriteError, Str, to_u8, marker, normal_string_too_long,
  empty, property,
}

abbrev Write : Type 0
Write = Result Amf0WriteError (List ℕ)

module _ (bo : ByteOrder) where
  -- `write_u8` of a marker.
  abbrev put_marker : List ℕ → Amf0Marker → List ℕ
  put_marker w m = w ++ to_u8 m ∷ []

  unfoldable pub object_eof : List ℕ → List ℕ
  object_eof w = w ++ bo.to_be 3 (to_u8 Amf0Marker.object_end)

  unfoldable pub encode_number : List ℕ → ℕ → List ℕ
  encode_number w value = put_marker w Amf0Marker.number ++ bo.to_be 8 value

  unfoldable pub encode_bool : List ℕ → Bool → List ℕ
  encode_bool w value = put_marker w Amf0Marker.boolean ++ (if value then 1 else 0) ∷ []

  unfoldable pub encode_string : List ℕ → Str → Write
  encode_string w value =
      if ltb 65535 (length value)
      then err normal_string_too_long
      else ok ((put_marker w Amf0Marker.string ++ bo.to_be 2 (length value)) ++ value)

  unfoldable pub encode_null : List ℕ → List ℕ
  encode_null w = put_marker w Amf0Marker.null

  -- The length of a key is cut to 16 bits.
  abbrev put_key : List ℕ → Str → List ℕ
  put_key w key = (w ++ bo.to_be 2 (length key % 2 ^ 16)) ++ key

  unfoldable mutual
    unfolding object_eof encode_number encode_bool encode_string encode_null marker

    pub encode : List ℕ → Amf0Value → Write
    encode w (Amf0Value.boolean val) = ok (encode_bool w val)
    encode w Amf0Value.null = ok (encode_null w)
    encode w (Amf0Value.number val) = ok (encode_number w val)
    encode w (Amf0Value.string val) = encode_string w val
    encode w (Amf0Value.object val) = do
      w' ← encode_properties (put_marker w Amf0Marker.object) val
      ok (object_eof w')
    encode w Amf0Value.object_end = err (Amf0WriteError.unsupported_type Amf0Marker.object_end)
    encode w (Amf0Value.long_string val) =
        err (Amf0WriteError.unsupported_type Amf0Marker.long_string)

    pub encode_properties : List ℕ → Properties → Write
    encode_properties w empty = ok w
    encode_properties w (property key value rest) = do
      w' ← encode (put_key w key) value
      encode_properties w' rest

  -- `encode_object`, which callers use on its own, too.
  unfoldable pub encode_object : List ℕ → Properties → Write
  unfolding encode
  encode_object w properties = encode w (Amf0Value.object properties)

-- ===== src/Amf0/Layout.antt =====
-- The bytes of a value that `Amf0Encoder` can write, and the values that it can write: numbers of
-- 64 bits, strings and keys of at most 65535 bytes, all of them UTF-8, as Rust's `str` is.
use video.Base.{ℕ, ◌^◌, ◌≤◌, ◌<◌, ◌≡◌, Bool, true, List, [], ◌∷◌, ◌++◌, if◌then◌else◌, length}
use video.Utf8.{valid_utf8}
use video.ByteOrder.{ByteOrder}
use video.Amf0.Define.{Amf0Value, Properties, Str, empty, property}

pub record IsShort (s : Str) : Type 0 where
  pub fits : length s ≤ 65535
  pub utf8 : valid_utf8 s ≡ true

mutual
  pub data IsEncodable : Amf0Value → Type 0 where
    is_number : {n : ℕ} → n < 2 ^ 64 → IsEncodable (Amf0Value.number n)
    is_boolean : {b : Bool} → IsEncodable (Amf0Value.boolean b)
    is_string : {s : Str} → IsShort s → IsEncodable (Amf0Value.string s)
    is_object : {ps : Properties} → AreEncodable ps → IsEncodable (Amf0Value.object ps)
    is_null : IsEncodable Amf0Value.null

  pub data AreEncodable : Properties → Type 0 where
    are_empty : AreEncodable empty
    are_property :
        {key : Str} {v : Amf0Value} {ps : Properties}
        → IsShort key
        → IsEncodable v
        → AreEncodable ps
        → AreEncodable (property key v ps)

module _ (bo : ByteOrder) where
  unfoldable mutual
    pub bytes : Amf0Value → List ℕ
    bytes (Amf0Value.number n) = 0 ∷ bo.to_be 8 n
    bytes (Amf0Value.boolean b) = 1 ∷ (if b then 1 else 0) ∷ []
    bytes (Amf0Value.string s) = 2 ∷ (bo.to_be 2 (length s) ++ s)
    bytes (Amf0Value.object ps) = 3 ∷ property_bytes ps
    bytes Amf0Value.null = 5 ∷ []
    bytes Amf0Value.object_end = []
    bytes (Amf0Value.long_string s) = []

    pub property_bytes : Properties → List ℕ
    property_bytes empty = bo.to_be 3 9
    property_bytes (property key v ps) =
        bo.to_be 2 (length key) ++ (key ++ (bytes v ++ property_bytes ps))

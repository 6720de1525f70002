-- ===== src/Amf0/Define.antt =====
-- crates/amf0/src/define.rs and errors.rs: markers, values and errors.
use video.Base.{ℕ, Bool, List, [], ◌∷◌, Option, none, some, ◌==◌, if◌then◌else◌}
use video.Io.{IoError}

-- A string is the list of its bytes, and a number the 64 bits of an f64.
abbrev pub Str : Type 0
Str = List ℕ

mutual
  pub data Amf0Value : Type 0 where
    number : ℕ → Amf0Value
    boolean : Bool → Amf0Value
    string : Str → Amf0Value
    object : Properties → Amf0Value
    null : Amf0Value
    object_end : Amf0Value
    long_string : Str → Amf0Value

  -- `[(Cow<str>, Amf0Value)]`
  pub data Properties : Type 0 where
    empty : Properties
    property : Str → Amf0Value → Properties → Properties

pub data Amf0Marker : Type 0 where
  number boolean string object movie_clip_marker null undefined reference ecma_array : Amf0Marker
  object_end strict_array date long_string unsupported recordset xml_document : Amf0Marker
  typed_object avm_plus_object : Amf0Marker

-- `marker as u8`
unfoldable pub to_u8 : Amf0Marker → ℕ
to_u8 Amf0Marker.number = 0x00
to_u8 Amf0Marker.boolean = 0x01
to_u8 Amf0Marker.string = 0x02
to_u8 Amf0Marker.object = 0x03
to_u8 Amf0Marker.movie_clip_marker = 0x04
to_u8 Amf0Marker.null = 0x05
to_u8 Amf0Marker.undefined = 0x06
to_u8 Amf0Marker.reference = 0x07
to_u8 Amf0Marker.ecma_array = 0x08
to_u8 Amf0Marker.object_end = 0x09
to_u8 Amf0Marker.strict_array = 0x0a
to_u8 Amf0Marker.date = 0x0b
to_u8 Amf0Marker.long_string = 0x0c
to_u8 Amf0Marker.unsupported = 0x0d
to_u8 Amf0Marker.recordset = 0x0e
to_u8 Amf0Marker.xml_document = 0x0f
to_u8 Amf0Marker.typed_object = 0x10
to_u8 Amf0Marker.avm_plus_object = 0x11

abbrev markers : List Amf0Marker
markers =
    Amf0Marker.number ∷ Amf0Marker.boolean ∷ Amf0Marker.string ∷ Amf0Marker.object
    ∷ Amf0Marker.movie_clip_marker ∷ Amf0Marker.null ∷ Amf0Marker.undefined ∷ Amf0Marker.reference
    ∷ Amf0Marker.ecma_array ∷ Amf0Marker.object_end ∷ Amf0Marker.strict_array ∷ Amf0Marker.date
    ∷ Amf0Marker.long_string ∷ Amf0Marker.unsupported ∷ Amf0Marker.recordset
    ∷ Amf0Marker.xml_document ∷ Amf0Marker.typed_object ∷ Amf0Marker.avm_plus_object ∷ []

unfoldable pub find_marker : List Amf0Marker → ℕ → Option Amf0Marker
find_marker [] n = none
find_marker (m ∷ ms) n = if n == to_u8 m then some m else find_marker ms n

-- What `#[derive(FromPrimitive)]` makes of the discriminants: `from_u8` and `from_u32`.
unfoldable pub from_number : ℕ → Option Amf0Marker
unfolding find_marker to_u8
from_number n = find_marker markers n

-- `Amf0Value::marker`
unfoldable pub marker : Amf0Value → Amf0Marker
marker (boolean _) = Amf0Marker.boolean
marker (number _) = Amf0Marker.number
marker (string _) = Amf0Marker.string
marker (object _) = Amf0Marker.object
marker null = Amf0Marker.null
marker object_end = Amf0Marker.object_end
marker (long_string _) = Amf0Marker.long_string

pub data Amf0ReadError : Type 0 where
  unknown_marker : ℕ → Amf0ReadError
  unsupported_type : Amf0Marker → Amf0ReadError
  string_parse_error : Amf0ReadError
  io : IoError → Amf0ReadError
  wrong_type : Amf0Marker → Amf0Marker → Amf0ReadError

pub data Amf0WriteError : Type 0 where
  normal_string_too_long : Amf0WriteError
  io : IoError → Amf0WriteError
  unsupported_type : Amf0Marker → Amf0WriteError

-- `derive(PartialEq)` on markers: they are equal if their discriminants are.
unfoldable pub same_marker : Amf0Marker → Amf0Marker → Bool
unfolding to_u8
same_marker a b = to_u8 a == to_u8 b

unfoldable mutual
  pub to_owned : Amf0Value → Amf0Value
  to_owned (Amf0Value.string s) = Amf0Value.string s
  to_owned (Amf0Value.long_string s) = Amf0Value.long_string s
  to_owned (Amf0Value.object ps) = Amf0Value.object (properties_to_owned ps)
  to_owned (Amf0Value.number n) = Amf0Value.number n
  to_owned (Amf0Value.boolean b) = Amf0Value.boolean b
  to_owned Amf0Value.null = Amf0Value.null
  to_owned Amf0Value.object_end = Amf0Value.object_end

  pub properties_to_owned : Properties → Properties
  properties_to_owned empty = empty
  properties_to_owned (property key value rest) =
      property key (to_owned value) (properties_to_owned rest)

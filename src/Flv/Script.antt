-- ===== src/Flv/Script.antt =====
-- crates/flv/src/script.rs: `ScriptData::demux`.
use video.Base.{List, Result, ok, err, panic, stuck, ◌>>=◌}
use video.Io.{Io, invalid_data}
use video.ByteOrder.{ByteOrder}
use video.Amf0.Define.{Amf0Value, Amf0Marker, Amf0ReadError, Str, to_owned}
use video.Amf0.Decode.{Read, decode_with_type, decode_all}
use video.Flv.Audio.{take_remaining}
use mathlib.Core.List.{map}
use Prim.Native.Nat.{ℕ}

pub record ScriptData : Type 0 where
  pub name : Str
  pub values : List Amf0Value

-- Any error, and any value that is not a string, is invalid data.
unfoldable pub match_name : Read Amf0Value → Io (Str × List ℕ)
match_name (ok (Amf0Value.string name, rest)) = ok (name, rest)
match_name panic = panic
match_name stuck = stuck
match_name _ = err invalid_data

-- `map_err(|_| …)`
unfoldable pub match_values : Result Amf0ReadError (List Amf0Value) → Io (List Amf0Value)
match_values (ok values) = ok values
match_values (err e) = err invalid_data
match_values panic = panic
match_values stuck = stuck

module _ (bo : ByteOrder) where
  unfoldable pub demux : List ℕ → Io (ScriptData × List ℕ)
  unfolding take_remaining match_name match_values
  demux bs = do
    let (buf, behind) = take_remaining bs
    (name, rest) ← match_name (decode_with_type bo Amf0Marker.string buf)
    values ← match_values (decode_all bo rest)
    let script : ScriptData = record { name = name; values = map to_owned values }
    ok (script, behind)

-- ===== src/Aac.antt =====
-- crates/aac/src/lib.rs: the first fields of an AudioSpecificConfig.
pub mod Config
use video.Base.{ℕ, ◌+◌, ◌%◌, ◌^◌, List, Option, none, some, ok, err, ◌>>=◌, ◌==◌, if◌then◌else◌}
use video.Io.{Io, IoError, invalid_data}
use video.BytesUtil.BitReader.{BitReader, new_from_slice, read_bits}

pub data AudioObjectType : Type 0 where
  aac_main aac_low_complexity : AudioObjectType
  unknown : ℕ → AudioObjectType

unfoldable pub as_u16 : AudioObjectType → ℕ
as_u16 aac_main = 1
as_u16 aac_low_complexity = 2
as_u16 (unknown value) = value

unfoldable pub from_u16 : ℕ → AudioObjectType
from_u16 value =
    if value == 1 then aac_main else if value == 2 then aac_low_complexity else unknown value

pub data SampleFrequencyIndex : Type 0 where
  freq96000 freq88200 freq64000 freq48000 freq44100 freq32000 freq24000 : SampleFrequencyIndex
  freq22050 freq16000 freq12000 freq11025 freq8000 freq7350 : SampleFrequencyIndex
  freq_reserved freq_reserved2 freq_escape : SampleFrequencyIndex

-- The discriminants.
unfoldable pub index_of : SampleFrequencyIndex → ℕ
index_of freq96000 = 0x0
index_of freq88200 = 0x1
index_of freq64000 = 0x2
index_of freq48000 = 0x3
index_of freq44100 = 0x4
index_of freq32000 = 0x5
index_of freq24000 = 0x6
index_of freq22050 = 0x7
index_of freq16000 = 0x8
index_of freq12000 = 0x9
index_of freq11025 = 0xA
index_of freq8000 = 0xB
index_of freq7350 = 0xC
index_of freq_reserved = 0xD
index_of freq_reserved2 = 0xE
index_of freq_escape = 0xF

-- `SampleFrequencyIndex::from_u8`, which `#[derive(FromPrimitive)]` makes.
unfoldable pub from_u8 : ℕ → Option SampleFrequencyIndex
from_u8 n =
    if n == 0x0
    then some freq96000
    else if n == 0x1
    then some freq88200
    else if n == 0x2
    then some freq64000
    else if n == 0x3
    then some freq48000
    else if n == 0x4
    then some freq44100
    else if n == 0x5
    then some freq32000
    else if n == 0x6
    then some freq24000
    else if n == 0x7
    then some freq22050
    else if n == 0x8
    then some freq16000
    else if n == 0x9
    then some freq12000
    else if n == 0xA
    then some freq11025
    else if n == 0xB
    then some freq8000
    else if n == 0xC
    then some freq7350
    else if n == 0xD
    then some freq_reserved
    else if n == 0xE
    then some freq_reserved2
    else if n == 0xF
    then some freq_escape
    else none

unfoldable pub to_freq : SampleFrequencyIndex → Option ℕ
to_freq freq96000 = some 96000
to_freq freq88200 = some 88200
to_freq freq64000 = some 64000
to_freq freq48000 = some 48000
to_freq freq44100 = some 44100
to_freq freq32000 = some 32000
to_freq freq24000 = some 24000
to_freq freq22050 = some 22050
to_freq freq16000 = some 16000
to_freq freq12000 = some 12000
to_freq freq11025 = some 11025
to_freq freq8000 = some 8000
to_freq freq7350 = some 7350
to_freq freq_reserved = none
to_freq freq_reserved2 = none
to_freq freq_escape = none

pub record PartialAudioSpecificConfig : Type 0 where
  pub audio_object_type : AudioObjectType
  pub sampling_frequency : ℕ
  pub channel_configuration : ℕ

abbrev pub ok_or {ℓ} : {A : Type ℓ} → Option A → Io A
ok_or (some a) = ok a
ok_or none = err invalid_data

-- The object type, a u16, whose escape value is 31.
abbrev pub extend_type : ℕ → BitReader → Io (ℕ × BitReader)
extend_type t r =
    if t == 31
    then (do (extended, r') ← read_bits 6 r; ok ((32 + extended % 2 ^ 16) % 2 ^ 16, r'))
    else ok (t, r)

unfoldable pub read_object_type : BitReader → Io (ℕ × BitReader)
read_object_type r = do (t, r') ← read_bits 5 r; extend_type (t % 2 ^ 16) r'

-- The `match` on the index.
unfoldable pub read_frequency : SampleFrequencyIndex → BitReader → Io (ℕ × BitReader)
unfolding to_freq
read_frequency freq_escape r = do (frequency, r') ← read_bits 24 r; ok (frequency % 2 ^ 32, r')
read_frequency index r = do frequency ← ok_or (to_freq index); ok (frequency, r)

-- The sampling frequency, by its index.
unfoldable pub read_rate : BitReader → Io (ℕ × BitReader)
read_rate r = do
  (bits, r') ← read_bits 4 r
  index ← ok_or (from_u8 (bits % 2 ^ 8))
  read_frequency index r'

unfoldable pub parse : List ℕ → Io PartialAudioSpecificConfig
unfolding read_object_type read_rate read_frequency from_u8 from_u16
parse data_bytes = do
  (audio_object_type, r₁) ← read_object_type (new_from_slice data_bytes)
  (sampling_frequency, r₂) ← read_rate r₁
  (channels, _) ← read_bits 4 r₂
  ok (record {
    audio_object_type = from_u16 audio_object_type;
    sampling_frequency = sampling_frequency;
    channel_configuration = channels % 2 ^ 8;
  })

-- ===== src/Aac/Config.antt =====
-- What `parse` makes of the bits of a configuration.
use video.Base.{
  ℕ, zero, suc, ◌+◌, ◌-◌, ◌%◌, ◌^◌, ◌≤◌, ◌<◌, ◌≡◌, refl, ap, ◌∙◌, sym, subst, arith, Bool, false,
  List, [], ◌∷◌, ◌++◌, append_assoc, Option, none, some, ok, err, panic, stuck, ◌>>=◌, ◌==◌, ltb,
  lt→ltb, le→ltb, if◌then◌else◌, Bool-cases, inl, inr,
}
use native.Mathlib.Decide.{dec_lt}
use video.Io.{Io, invalid_data}
use video.BytesUtil.Bits.{to_bits, bytes_bits}
use video.BytesUtil.BitReader.{BitReader, new_from_slice, read_bits}
use video.BytesUtil.BitReader.View.{view, IsValid, view-new_from_slice, new_from_slice-IsValid}
use video.BytesUtil.RoundTrip.{read_field-view}
use video.Aac.{
  AudioObjectType, aac_main, aac_low_complexity, unknown, as_u16, from_u16, freq_escape, from_u8,
  PartialAudioSpecificConfig, ok_or, extend_type, read_object_type, read_frequency, read_rate,
  parse,
}

pub as_u16-from_u16 : (n : ℕ) → as_u16 (from_u16 n) ≡ n
unfolding as_u16 from_u16
as_u16-from_u16 n = elim (Bool-cases (n == 1)) [
  | inl one ↦ rw one (ground arith)
  | inr other ↦ elim (Bool-cases (n == 2)) [
    | inl two ↦ rw other (rw two (ground arith))
    | inr neither ↦ rw other (rw neither)
  ]
]

-- ISO/IEC 14496-3, 1.6.2.1: the object type, escaped from 32 on, and the frequency, which is an
-- entry of the table or 24 bits behind the escape index.
pub data Rate : Type 0 where
  table : ℕ → Rate
  explicit : ℕ → Rate

pub record Fields : Type 0 where
  pub object_type : ℕ
  pub rate : Rate
  pub channels : ℕ

-- Table 1.18: the frequencies of the indices from 0 on; the others below 15 are reserved.
abbrev sampling_frequencies : List ℕ
sampling_frequencies =
    96000 ∷ 88200 ∷ 64000 ∷ 48000 ∷ 44100 ∷ 32000 ∷ 24000 ∷ 22050 ∷ 16000 ∷ 12000 ∷ 11025 ∷ 8000
    ∷ 7350 ∷ []

abbrev entry : ℕ → List ℕ → Option ℕ
entry n [] = none
entry zero (f ∷ fs) = some f
entry (suc n) (f ∷ fs) = entry n fs

-- Table 1.17: 1 is AAC Main and 2 is AAC LC; the code has no name for the others.
abbrev named : ℕ → AudioObjectType
named zero = unknown 0
named (suc zero) = aac_main
named (suc (suc zero)) = aac_low_complexity
named (suc (suc (suc t))) = unknown (suc (suc (suc t)))

abbrev pub type_bits : ℕ → List Bool
type_bits t = if ltb t 31 then to_bits 5 t else to_bits 5 31 ++ to_bits 6 (t - 32)

abbrev pub rate_bits : Rate → List Bool
rate_bits (table n) = to_bits 4 n
rate_bits (explicit f) = to_bits 4 15 ++ to_bits 24 f

abbrev pub config_bits : Fields → List Bool
config_bits c = type_bits c.object_type ++ (rate_bits c.rate ++ to_bits 4 c.channels)

-- What the bits can say: 31 is the escape, and so is the last index.
abbrev pub IsRate : Rate → Type 0
IsRate (table n) = n < 15
IsRate (explicit f) = f < 2 ^ 24

abbrev pub IsObjectType : ℕ → Type 0
IsObjectType t = (t < 96) × ((t == 31) ≡ false)

-- The frequency; the reserved entries have none.
abbrev pub frequency : Rate → Io ℕ
frequency (table n) = elim (entry n sampling_frequencies) [
  | some f ↦ ok f
  | none ↦ err invalid_data
]
frequency (explicit f) = ok f

abbrev pub meaning : Fields → Io PartialAudioSpecificConfig
meaning c = frequency c.rate >>= λ f. ok (record {
  audio_object_type = named c.object_type;
  sampling_frequency = f;
  channel_configuration = c.channels;
})

read_object_type-view :
    (t : ℕ) (rest : List Bool) (r : BitReader)
    → IsObjectType t
    → IsValid r
    → view r ≡ type_bits t ++ rest
    → (r' : BitReader) × (read_object_type r ≡ ok (t, r')) × (view r' ≡ rest) × IsValid r'
unfolding read_object_type
read_object_type-view t rest r h v e = elim (dec_lt t 31) [
  | yes short ↦
      let (r₁, step, e₁, v₁) =
        read_field-view 5 t rest r (omega arith) (omega arith) v (e ∙ rw (lt→ltb t 31 short)) in
      (r₁, rw step (plain short r₁), e₁, v₁)
  | no long ↦
      let (r₁, step, e₁, v₁) =
        read_field-view 5 31 (to_bits 6 (t - 32) ++ rest) r (omega arith) (omega arith) v (
          e
          ∙ rw (le→ltb t 31 (omega arith))
              (append_assoc (to_bits 5 31) (to_bits 6 (t - 32)) rest)) in
      let (r₂, step', e₂, v₂) =
        read_field-view 6 (t - 32) rest r₁ (omega arith) (omega (arith, h.0)) v₁ e₁ in
      (r₂, rw step (rw step' (ap (λ n. ok (n, r₂)) (wide (omega arith)))), e₂, v₂)
]
  where
    plain : t < 31 → (r₁ : BitReader) → extend_type (t % 2 ^ 16) r₁ ≡ ok (t, r₁)
    plain lt r₁ = let small : t % 2 ^ 16 ≡ t = omega arith in rw small (rw h.1)

    wide : 31 ≤ t → (32 + (t - 32) % 2 ^ 16) % 2 ^ 16 ≡ t
    wide le = ground (arith, h.0, h.1)

from_u16-named : (t : ℕ) → from_u16 t ≡ named t
unfolding from_u16
from_u16-named zero = refl
from_u16-named (suc zero) = refl
from_u16-named (suc (suc zero)) = refl
from_u16-named (suc (suc (suc t))) = ground arith

-- What is checked at every number below a bound holds below it.
abbrev Below : (ℕ → Type 0) → ℕ → Type 0
Below P zero = Unit
Below P (suc k) = Below P k × P k

below : (P : ℕ → Type 0) (k : ℕ) → Below P k → (n : ℕ) → n < k → P n
below P zero hs n h = absurd (omega arith)
below P (suc k) (hs, last) n h = elim (dec_lt n k) [
  | yes less ↦ below P k hs n less
  | no same ↦ let e : k ≡ n = omega arith in subst P e last
]

-- The code's tables agree with the standard's at this index.
Agrees : ℕ → Type 0
Agrees n =
    (r : BitReader)
    → (ok_or (from_u8 (n % 2 ^ 8)) >>= λ index. read_frequency index r)
      ≡ (ok_or (entry n sampling_frequencies) >>= λ f. ok (f, r))

read_frequency-entry : (n : ℕ) → n < 15 → Agrees n
unfolding read_frequency from_u8 Agrees
read_frequency-entry = below Agrees 15 (
    (
      (
        (
          (
            (
              (
                (
                  (
                    (
                      (
                        (((((tt, λ r. refl), λ r. refl), λ r. refl), λ r. refl), λ r. refl),
                        λ r. refl,
                      ),
                      λ r. refl,
                    ),
                    λ r. refl,
                  ),
                  λ r. refl,
                ),
                λ r. refl,
              ),
              λ r. refl,
            ),
            λ r. refl,
          ),
          λ r. refl,
        ),
        λ r. refl,
      ),
      λ r. refl,
    ))

-- A rate without a frequency is an error, and a frequency leaves the reader behind the rate.
ReadsRate : Rate → List Bool → BitReader → Io ℕ → Type 0
ReadsRate rate rest r (ok f) =
    (r' : BitReader) × (read_rate r ≡ ok (f, r')) × (view r' ≡ rest) × IsValid r'
ReadsRate rate rest r o = (read_rate r ≡ err invalid_data) × (o ≡ err invalid_data)

read_rate-table :
    (n : ℕ) (rest : List Bool) (r r₁ : BitReader)
    → n < 15
    → read_bits 4 r ≡ ok (n, r₁)
    → view r₁ ≡ rest
    → IsValid r₁
    → (o : Option ℕ) → entry n sampling_frequencies ≡ o
    → ReadsRate (table n) rest r (elim o [ some f ↦ ok f | none ↦ err invalid_data ])
unfolding read_rate ReadsRate Agrees
read_rate-table n rest r r₁ h step e₁ v₁ none missing =
    (rw step (read_frequency-entry n h r₁ ∙ rw missing), refl)
read_rate-table n rest r r₁ h step e₁ v₁ (some f) found =
    (r₁, rw step (read_frequency-entry n h r₁ ∙ rw found), e₁, v₁)

escape : from_u8 (15 % 2 ^ 8) ≡ some freq_escape
unfolding from_u8
escape = refl

read_rate-view :
    (rate : Rate) (rest : List Bool) (r : BitReader)
    → IsRate rate
    → IsValid r
    → view r ≡ rate_bits rate ++ rest
    → ReadsRate rate rest r (frequency rate)
unfolding read_rate ReadsRate read_frequency
read_rate-view (table n) rest r h v e =
    let (r₁, step, e₁, v₁) = read_field-view 4 n rest r (omega arith) (omega (arith, h)) v e in
    read_rate-table n rest r r₁ h step e₁ v₁ (entry n sampling_frequencies) refl
read_rate-view (explicit f) rest r h v e =
    let (r₁, step, e₁, v₁) =
      read_field-view 4 15 (to_bits 24 f ++ rest) r (omega arith) (omega arith) v
        (e ∙ append_assoc (to_bits 4 15) (to_bits 24 f) rest) in
    let (r₂, step', e₂, v₂) = read_field-view 24 f rest r₁ (omega arith) h v₁ e₁ in
    let small : f % 2 ^ 32 ≡ f = omega (arith, h) in
    (r₂, rw step (rw escape (rw step' (ap (λ n. ok (n, r₂)) small))), e₂, v₂)

-- `parse` from the rate on.
finish_parse : ℕ → Io (ℕ × BitReader) → Io PartialAudioSpecificConfig
finish_parse t o = o >>= λ (f, r₃). read_bits 4 r₃ >>= λ (n, r₄). ok (record {
  audio_object_type = from_u16 t;
  sampling_frequency = f;
  channel_configuration = n % 2 ^ 8;
})

finish_parse-view :
    (t n : ℕ) (rate : Rate) (rest : List Bool) (r : BitReader) (o : Io ℕ)
    → n < 16
    → ReadsRate rate (to_bits 4 n ++ rest) r o
    → finish_parse t (read_rate r) ≡ (
        o >>= λ f. ok (record {
          audio_object_type = from_u16 t;
          sampling_frequency = f;
          channel_configuration = n;
        }))
unfolding finish_parse ReadsRate
finish_parse-view t n rate rest r (ok f) h (r', step, e, v) =
    let (r₂, step', _, _) = read_field-view 4 n rest r' (omega arith) (omega (arith, h)) v e in
    let small : n % 2 ^ 8 ≡ n = omega (arith, h) in rw step (rw step' (rw small))
finish_parse-view t n rate rest r (err e) h (failed, same) = rw failed (cc)
finish_parse-view t n rate rest r panic h (failed, same) = cc
finish_parse-view t n rate rest r stuck h (failed, same) = cc

-- Bytes that begin with the bits of a configuration in the standard's form (an object type below
-- 96 other than 31, escaped from 32 on; a table index below 15 or an explicit frequency of 24
-- bits; 4 bits of channels) are parsed to its object type, of which 1 is AAC Main, 2 is AAC LC
-- and every other one is kept by its number, its frequency, which for an index is the entry of
-- the standard's table, and its channels; an index without an entry is refused as invalid data.
pub parse-config_bits :
    (c : Fields) (rest : List Bool) (data_bytes : List ℕ)
    → IsObjectType c.object_type
    → IsRate c.rate
    → c.channels < 16
    → bytes_bits data_bytes ≡ config_bits c ++ rest
    → parse data_bytes ≡ meaning c
unfolding parse finish_parse
parse-config_bits c rest data_bytes ht hr hc e =
    let (r₁, step, e₁, v₁) =
      read_object_type-view c.object_type (rate_bits c.rate ++ (to_bits 4 c.channels ++ rest))
        (new_from_slice data_bytes) ht (new_from_slice-IsValid data_bytes)
        (view-new_from_slice data_bytes ∙ e ∙ simp append_assoc) in
    rw (sym (from_u16-named c.object_type), step)
      (finish_parse-view c.object_type c.channels c.rate rest r₁ (frequency c.rate) hc
        (read_rate-view c.rate (to_bits 4 c.channels ++ rest) r₁ hr v₁ e₁))

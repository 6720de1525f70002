-- ===== src/Av1/Bounds/Points.antt =====
-- What the timing of an AV1 sequence header is, on any input.
use video.Base.{◌+◌, ◌≤◌, ◌<◌, arith, Bool, true, false, Option, none, some, ltb, length, All}
use video.ByteOrder.{ByteOrder}
use video.BytesUtil.Parser.Gives.{
  Gives, Gives->>=, Gives-pure, Gives-if, Gives-mono, Inside, Gives-optional, Gives-repeat,
  Gives-read_bit, Gives-read_bits, Any, Gives-read_be,
}
use video.Av1.Sequence.{
  TimingInfo, DecoderModelInfo, OperatingPoint, parse_timing_info, parse_decoder_model_info,
  parse_operating_parameters_info,
}
use video.Av1.Parse.{
  Timing, read_parameters, read_display_delay, read_operating_point, read_reduced_timing,
  read_timing_info, model_of, read_full_timing,
}
use video.Av1.Bounds.{read_uvlc-Gives}

read_timing_info-Gives :
    (bo : ByteOrder)
    → Gives (read_timing_info bo) (λ (t, m). Inside (λ d. d.buffer_delay_length ≤ 32) m)
unfolding read_timing_info parse_timing_info parse_decoder_model_info
read_timing_info-Gives bo = Gives->>= timing λ t _.
    Gives->>= Gives-read_bit
      λ present _. Gives->>= (Gives-optional present model) λ m hm. Gives-pure (t, m) hm
  where
    timing : Gives (parse_timing_info bo) Any
    timing = Gives->>= (Gives-read_be bo 4) λ a _. Gives->>= (Gives-read_be bo 4) λ b _.
        Gives->>= Gives-read_bit λ present _.
          Gives->>=
            (Gives-optional present
              (Gives->>= read_uvlc-Gives λ n h. Gives-pure {P = Any} (n + 1) tt))
            λ n _. Gives-pure _ tt

    model : Gives (parse_decoder_model_info bo) (λ d. d.buffer_delay_length ≤ 32)
    model = Gives->>= (Gives-read_bits 5 (omega arith)) λ a h. Gives->>= (Gives-read_be bo 4) λ b _.
        Gives->>= (Gives-read_bits 5 (omega arith))
          λ c _. Gives->>= (Gives-read_bits 5 (omega arith)) λ d _. Gives-pure _ (omega (arith, h))

read_parameters-Gives :
    (m : Option DecoderModelInfo)
    → Inside (λ d. d.buffer_delay_length ≤ 32) m
    → Gives (read_parameters m) Any
unfolding read_parameters parse_operating_parameters_info
read_parameters-Gives none h = Gives-pure none tt
read_parameters-Gives (some m) h = Gives->>= Gives-read_bit λ present _.
    Gives-mono
      (Gives-optional {P = Any} present (
        Gives->>= (Gives-read_bits m.buffer_delay_length (omega (arith, h))) λ a _.
          Gives->>= (Gives-read_bits m.buffer_delay_length (omega (arith, h)))
            λ b _. Gives->>= Gives-read_bit λ c _. Gives-pure _ tt))
      (λ _ _. tt)

read_display_delay-Gives : (b : Bool) → Gives (read_display_delay b) (Inside (λ n. n ≤ 16))
unfolding read_display_delay
read_display_delay-Gives false = Gives-pure none tt
read_display_delay-Gives true = Gives->>= Gives-read_bit λ present _.
    Gives-optional present
      (Gives->>= (Gives-read_bits 4 (omega arith)) λ n h. Gives-pure (n + 1) (omega (arith, h)))

pub record IsPoint (p : OperatingPoint) : Type 0 where
  pub idc : p.idc < 4096
  pub level : p.seq_level_idx < 32
  pub delay : Inside (λ n. n ≤ 16) p.initial_display_delay

read_operating_point-Gives :
    (m : Option DecoderModelInfo) (b : Bool)
    → Inside (λ d. d.buffer_delay_length ≤ 32) m
    → Gives (read_operating_point m b) IsPoint
unfolding read_operating_point
read_operating_point-Gives m b h = Gives->>= (Gives-read_bits 12 (omega arith)) λ idc h₁.
    Gives->>= (Gives-read_bits 5 (omega arith)) λ level h₂.
      Gives->>= (Gives-if (ltb 7 level) (λ _. Gives-read_bit) (λ _. Gives-pure false tt)) λ tier _.
        Gives->>= (read_parameters-Gives m h) λ parameters _.
          Gives->>= (read_display_delay-Gives b) λ delay h₃.
            Gives-pure _ (record { idc = omega (arith, h₁); level = omega (arith, h₂); delay = h₃ })

abbrev pub IsTiming : Timing → Type 0
IsTiming t =
    (1 ≤ length t.operating_points)
    × (length t.operating_points ≤ 32)
    × All IsPoint t.operating_points

pub read_reduced_timing-Gives : Gives read_reduced_timing IsTiming
unfolding read_reduced_timing
read_reduced_timing-Gives = Gives->>= (Gives-read_bits 5 (omega arith)) λ level h. Gives-pure _ (
  omega arith,
  omega arith,
  (record { idc = omega arith; level = omega (arith, h); delay = tt }, tt),
)

pub read_full_timing-Gives : (bo : ByteOrder) → Gives (read_full_timing bo) IsTiming
unfolding read_full_timing
read_full_timing-Gives bo = Gives->>= Gives-read_bit λ present _.
    Gives->>= (Gives-optional present (read_timing_info-Gives bo)) λ info hi.
      Gives->>= Gives-read_bit λ delay _. Gives->>= (Gives-read_bits 5 (omega arith)) λ n hn.
        Gives->>=
          (Gives-repeat (n + 1)
            (read_operating_point-Gives (model_of bo info) delay (model info hi)))
          λ ps (e, hs). Gives-pure _ (omega (arith, e), omega (arith, e, hn), hs)
  where
    model :
        (info : Option (TimingInfo × Option DecoderModelInfo))
        → Inside (λ (t, m). Inside (λ d. d.buffer_delay_length ≤ 32) m) info
        → Inside (λ d. d.buffer_delay_length ≤ 32) (model_of bo info)
    model none h = tt
    model (some (t, m)) h = h

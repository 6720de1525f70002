-- ===== src/Av1/Bounds.antt =====
-- What the AV1 parsers return on any input: numbers and colours.
pub mod Points
pub mod Header
use native.Mathlib.Nat.{pow-le-pow_right}
use video.Base.{
  ℕ, zero, suc, ◌+◌, ◌-◌, ◌*◌, ◌/◌, ◌%◌, ◌^◌, ◌≤◌, ◌<◌, ◌≡◌, refl, arith, Bool, true, false, not,
  ◌&&◌, ◌||◌, inl, inr, List, [], ◌∷◌, Option, none, some, stuck, ok, err, leb, ltb, ◌==◌,
  if◌then◌else◌, length, All, Returns, value, failed, panicked, Settles-mono,
}
use video.Io.{invalid_data, unexpected_eof}
use video.ByteOrder.{ByteOrder}
use video.BytesUtil.BitReader.{BitReader, new_from_slice, read_bit, read_bits, is_aligned}
use video.BytesUtil.BitReader.View.{
  view, IsValid, read_bit-cons, read_bit-nil, new_from_slice-IsValid,
}
use video.BytesUtil.Parser.{Parser, after, ◌>>=◌, ◌>>◌, pure, ensure, optional, repeat, read_be}
use video.BytesUtil.Parser.Gives.{
  Gives, Gives->>=, Gives-pure, Gives-fail, Gives-if, Gives-mono, Inside, Gives-optional,
  Gives-ensure, Gives-repeat, Gives-read_bit, Gives-read_bits, Any, Gives-read_be,
}
use video.ExpGolomb.{zeros_fuel}
use video.ExpGolomb.RoundTrip.{zeros_fuel-lt}
use video.Av1.{ObuHeader}
use video.Av1.Sequence.{
  TimingInfo, DecoderModelInfo, OperatingParametersInfo, OperatingPoint, FrameIds, ColorConfig,
  ColorRangeAndSubsampling, Tools, SequenceHeaderObu, count_zeros, skip_zeros, read_uvlc,
  parse_timing_info, parse_decoder_model_info, parse_operating_parameters_info,
}
use video.Av1.Color.{
  read_subsampling, parse_color_range_and_subsampling, read_bit_depth, read_description,
  parse_color_config,
}
use video.Av1.Parse.{
  Timing, read_parameters, read_display_delay, read_operating_point, read_reduced_timing,
  read_hints, read_integer_mv, read_tools, no_tools, read_frame_ids, read_frame_size,
  read_timing_info, model_of, timing_of, read_full_timing, parse_bits, parse,
}

-- The loop takes a bit in every round.
count_zeros-Gives :
    (f n : ℕ) (bs : List Bool) (r : BitReader)
    → IsValid r
    → view r ≡ bs
    → length bs < f
    → Returns (λ (a, r'). Any a × IsValid r') (count_zeros f n r)
unfolding count_zeros pure ◌>>=◌
count_zeros-Gives zero n bs r v e h = absurd (omega arith)
count_zeros-Gives (suc f) n [] r v e h = rw (read_bit-nil r v e) failed
count_zeros-Gives (suc f) n (true ∷ bs) r v e h =
    let (r', step, e', v') = read_bit-cons r true bs v e in rw step (value (tt, v'))
count_zeros-Gives (suc f) n (false ∷ bs) r v e h =
    let (r', step, e', v') = read_bit-cons r false bs v e in
    rw step (count_zeros-Gives f ((n + 1) % 256) bs r' v' e' (omega arith))

skip_zeros-Gives : Gives skip_zeros Any
unfolding skip_zeros
skip_zeros-Gives = record {
  run = λ r v. count_zeros-Gives (zeros_fuel r) 0 (view r) r v refl (zeros_fuel-lt r);
}

pub read_uvlc-Gives : Gives read_uvlc (λ n. n < 2 ^ 32)
unfolding read_uvlc
read_uvlc-Gives = Gives->>= skip_zeros-Gives λ k _.
    Gives-if (leb 32 k) (λ _. Gives-pure (2 ^ 32 - 1) (omega arith))
      (λ e.
        Gives->>= (Gives-read_bits k (ground arith))
          λ v h. Gives-pure (v + 2 ^ k - 1) (small k v h (ground arith)))
  where
    small : (k v : ℕ) → v < 2 ^ k → k ≤ 31 → v + 2 ^ k - 1 < 2 ^ 32
    small k v h le =
        let wide : 2 ^ k ≤ 2 ^ 31 = pow-le-pow_right {n = 2} (omega arith) le in omega arith

read_bit_depth-Gives :
    (profile : ℕ) (high : Bool) → Gives (read_bit_depth profile high) (λ d. (8 ≤ d) × (d ≤ 12))
unfolding read_bit_depth
read_bit_depth-Gives profile false = Gives-pure 8 (omega arith, omega arith)
read_bit_depth-Gives profile true =
    Gives-if (profile == 2)
      (λ _.
        Gives->>= Gives-read_bit
          λ twelve _. Gives-pure (if twelve then 12 else 10) (ground arith, ground arith))
      (λ _. Gives-pure 10 (omega arith, omega arith))

read_description-Gives : Gives read_description (λ (p, t, m). (p < 256) × (t < 256) × (m < 256))
unfolding read_description
read_description-Gives = Gives->>= Gives-read_bit λ present _.
    Gives-if present
      (λ _. Gives->>= (Gives-read_bits 8 (omega arith)) λ p _.
        Gives->>= (Gives-read_bits 8 (omega arith)) λ t _.
          Gives->>= (Gives-read_bits 8 (omega arith))
            λ m _. Gives-pure (p % 256, t % 256, m % 256) (omega arith, omega arith, omega arith))
      (λ _. Gives-pure (2, 2, 2) (omega arith, omega arith, omega arith))

read_subsampling-Gives : (profile depth : ℕ) → Gives (read_subsampling profile depth) Any
unfolding read_subsampling
read_subsampling-Gives profile depth =
    Gives-if (profile == 0) (λ _. Gives-pure _ tt)
      λ _.
        Gives-if (profile == 1) (λ _. Gives-pure _ tt)
          λ _.
            Gives-if (depth == 12)
              (λ _. Gives->>= Gives-read_bit λ x _.
                Gives->>= (Gives-if x (λ _. Gives-read_bit) (λ _. Gives-pure false tt))
                  λ y _. Gives-pure (x, y) tt)
              (λ _. Gives-pure _ tt)

parse_color_range_and_subsampling-Gives :
    (a b c d e : ℕ) → Gives (parse_color_range_and_subsampling a b c d e) Any
unfolding parse_color_range_and_subsampling
parse_color_range_and_subsampling-Gives a b c d e =
    Gives-if ((b == 1) && (c == 13) && (d == 0)) (λ _. Gives-pure _ tt)
      λ _.
        Gives->>= Gives-read_bit
          λ range _. Gives->>= (read_subsampling-Gives a e) λ s _. Gives-pure _ tt

pub record IsColor (c : ColorConfig) : Type 0 where
  pub depth : (8 ≤ c.bit_depth) × (c.bit_depth ≤ 12)
  pub planes : (1 ≤ c.num_planes) × (c.num_planes ≤ 3)
  pub primaries : c.color_primaries < 256
  pub transfer : c.transfer_characteristics < 256
  pub matrix : c.matrix_coefficients < 256
  pub position : c.chroma_sample_position < 4

pub parse_color_config-Gives : (profile : ℕ) → Gives (parse_color_config profile) IsColor
unfolding parse_color_config
parse_color_config-Gives profile = Gives->>= Gives-read_bit λ high _.
    Gives->>= (read_bit_depth-Gives profile high) λ d hd.
      Gives->>= (Gives-if (profile == 1) (λ _. Gives-pure false tt) (λ _. Gives-read_bit)) λ mono _.
        Gives->>= read_description-Gives λ (p, t, m) (hp, ht, hm).
          Gives-if mono
            (λ _. Gives->>= Gives-read_bit λ full _. Gives-pure _ (record {
              depth = hd;
              planes = (omega arith, omega arith);
              primaries = hp;
              transfer = ht;
              matrix = hm;
              position = omega arith;
            }))
            (λ _. Gives->>= (parse_color_range_and_subsampling-Gives profile p t m d) λ found _.
              Gives->>=
                (Gives-if (found.subsampling_x && found.subsampling_y)
                  (λ _. Gives-read_bits 2 (omega arith)) (λ _. Gives-pure 0 (omega arith)))
                λ n hn. Gives->>= Gives-read_bit λ delta _. Gives-pure _ (record {
                  depth = hd;
                  planes = (omega arith, omega arith);
                  primaries = hp;
                  transfer = ht;
                  matrix = hm;
                  position = omega (arith, hn);
                }))

-- ===== src/Av1/Config/Ends.antt =====
-- How `AV1CodecConfigurationRecord::demux` ends, on any input.
use video.Base.{arith, inl, inr, Bool-cases, ◌==◌, Returns, value, failed, Settles-mono, some, none}
use video.Io.{Cursor, invalid_data}
use video.BytesUtil.BitReader.{new, is_aligned}
use video.BytesUtil.BitReader.View.{IsValid}
use video.BytesUtil.Parser.Gives.{
  Gives, Gives->>=, Gives-pure, Gives-if, Gives-ensure, Gives-read_bit, Gives-read_bits, Any,
  Gives-read_u8,
}
use video.BytesUtil.Parser.Skips.{Gives-skip, Gives-take_rest}
use video.Av1.{check_aligned}
use video.Av1.Config.{read_delay, demux_bits, demux, descriptor_bits, demux_descriptor}

Gives-check_aligned : Gives check_aligned Any
unfolding check_aligned
Gives-check_aligned = record {
  run = λ r v. elim (Bool-cases (is_aligned r)) [
    | inl e ↦ rw e (value (tt, v))
    | inr e ↦ rw e failed
  ];
}

read_delay-Gives : Gives read_delay Any
unfolding read_delay
read_delay-Gives = Gives->>= Gives-read_bit λ present _.
    Gives-if present
      (λ _. Gives->>= (Gives-read_bits 4 (omega arith)) λ delay _. Gives-pure (some delay) tt)
      (λ _. Gives->>= (Gives-skip 4) λ _ _. Gives-pure none tt)

demux_bits-Gives : Gives demux_bits Any
unfolding demux_bits
demux_bits-Gives = Gives->>= Gives-read_bit λ marker _.
    Gives->>= (Gives-ensure marker invalid_data) λ _ _.
      Gives->>= (Gives-read_bits 7 (omega arith)) λ version _.
        Gives->>= (Gives-ensure (version == 1) invalid_data) λ _ _.
          Gives->>= (Gives-read_bits 3 (omega arith)) λ _ _.
            Gives->>= (Gives-read_bits 5 (omega arith)) λ _ _. Gives->>= Gives-read_bit λ _ _.
              Gives->>= Gives-read_bit λ _ _. Gives->>= Gives-read_bit λ _ _.
                Gives->>= Gives-read_bit λ _ _. Gives->>= Gives-read_bit λ _ _.
                  Gives->>= Gives-read_bit λ _ _. Gives->>= (Gives-read_bits 2 (omega arith)) λ _ _.
                    Gives->>= (Gives-read_bits 2 (omega arith)) λ _ _.
                      Gives->>= (Gives-skip 1) λ _ _. Gives->>= read_delay-Gives λ _ _.
                        Gives->>= Gives-check_aligned
                          λ _ _. Gives->>= Gives-take_rest λ _ _. Gives-pure _ tt

pub demux-Returns : (c : Cursor) → Returns (λ (_, r). IsValid r) (demux c)
unfolding demux new
demux-Returns c = Settles-mono (demux_bits-Gives.run (new c) (omega arith)) λ (_, r) (_, v). v

descriptor_bits-Gives : Gives descriptor_bits Any
unfolding descriptor_bits
descriptor_bits-Gives = Gives->>= Gives-read_u8 λ tag _.
    Gives->>= (Gives-ensure (tag == 128) invalid_data) λ _ _. Gives->>= Gives-read_u8 λ length _.
      Gives->>= (Gives-ensure (length == 4) invalid_data)
        λ _ _. Gives->>= demux_bits-Gives λ config _. Gives-pure _ tt

pub demux_descriptor-Returns : (c : Cursor) → Returns (λ (_, r). IsValid r) (demux_descriptor c)
unfolding demux_descriptor new
demux_descriptor-Returns c =
    Settles-mono (descriptor_bits-Gives.run (new c) (omega arith)) λ (_, r) (_, v). v

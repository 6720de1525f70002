-- ===== src/H265/Ends.antt =====
-- How `HEVCDecoderConfigurationRecord::demux` ends, on any input.
use video.Base.{arith, Returns, Settles-mono}
use video.Io.{Cursor}
use video.ByteOrder.{ByteOrder}
use video.BytesUtil.BitReader.{new}
use video.BytesUtil.BitReader.View.{IsValid}
use video.BytesUtil.Parser.Gives.{
  Gives, Gives->>=, Gives-pure, Gives-mono, Gives-repeat, Gives-read_bit, Gives-read_bits, Any,
  Gives-read_exact, Gives-read_be, Gives-read_le, Gives-read_u8,
}
use video.BytesUtil.Parser.Skips.{Gives-skip}
use video.H265.{read_nalu, read_array, demux_bits, demux}

module _ (bo : ByteOrder) where
  read_nalu-Gives : Gives (read_nalu bo) Any
  unfolding read_nalu
  read_nalu-Gives = Gives->>= (Gives-read_be bo 2) λ n _. Gives-mono (Gives-read_exact n) λ _ _. tt

  read_array-Gives : Gives (read_array bo) Any
  unfolding read_array
  read_array-Gives = Gives->>= Gives-read_bit λ _ _. Gives->>= (Gives-skip 1) λ _ _.
      Gives->>= (Gives-read_bits 6 (omega arith)) λ _ _.
        Gives->>= (Gives-read_be bo 2)
          λ n _. Gives->>= (Gives-repeat n read_nalu-Gives) λ _ _. Gives-pure _ tt

  demux_bits-Gives : Gives (demux_bits bo) Any
  unfolding demux_bits
  demux_bits-Gives = Gives->>= Gives-read_u8 λ _ _.
      Gives->>= (Gives-read_bits 2 (omega arith)) λ _ _. Gives->>= Gives-read_bit λ _ _.
        Gives->>= (Gives-read_bits 5 (omega arith)) λ _ _. Gives->>= (Gives-read_le bo 4) λ _ _.
          Gives->>= (Gives-read_le bo 6) λ _ _. Gives->>= Gives-read_u8 λ _ _.
            Gives->>= (Gives-skip 4) λ _ _. Gives->>= (Gives-read_bits 12 (omega arith)) λ _ _.
              Gives->>= (Gives-skip 6) λ _ _. Gives->>= (Gives-read_bits 2 (omega arith)) λ _ _.
                Gives->>= (Gives-skip 6) λ _ _. Gives->>= (Gives-read_bits 2 (omega arith)) λ _ _.
                  Gives->>= (Gives-skip 5) λ _ _. Gives->>= (Gives-read_bits 3 (omega arith)) λ _ _.
                    Gives->>= (Gives-skip 5) λ _ _.
                      Gives->>= (Gives-read_bits 3 (omega arith)) λ _ _.
                        Gives->>= (Gives-read_be bo 2) λ _ _.
                          Gives->>= (Gives-read_bits 2 (omega arith)) λ _ _.
                            Gives->>= (Gives-read_bits 3 (omega arith)) λ _ _.
                              Gives->>= Gives-read_bit λ _ _.
                                Gives->>= (Gives-read_bits 2 (omega arith)) λ _ _.
                                  Gives->>= Gives-read_u8 λ n _.
                                    Gives->>= (Gives-repeat n read_array-Gives)
                                      λ _ _. Gives-pure _ tt

  pub demux-Returns : (c : Cursor) → Returns (λ (_, r). IsValid r) (demux bo c)
  unfolding demux new
  demux-Returns c = Settles-mono (demux_bits-Gives.run (new c) (omega arith)) λ (_, r) (_, v). v

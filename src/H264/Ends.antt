-- ===== src/H264/Ends.antt =====
-- How `AVCDecoderConfigurationRecord::demux` ends, on any input.
use video.Base.{ℕ, zero, suc, ◌%◌, List, inl, inr, Bool-cases, value, Settles->>=, Settles-mono}
use video.Io.{read_u8-Settles}
use video.ByteOrder.{ByteOrder}
use video.ByteOrder.Laws.{read_be-Settles}
use video.BytesUtil.BytesCursor.{extract}
use video.BytesUtil.BytesCursor.Front.{Ends, extract-Settles}
use video.H264.{
  has_no_extension, has_remaining, read_set, read_sets, read_extended, read_extended_config, demux,
}

module _ (bo : ByteOrder) where
  extract-Ends : (size : ℕ) (bs : List ℕ) → Ends (extract size bs)
  extract-Ends size bs = Settles-mono (extract-Settles size bs) λ _ _. tt

  read_sets-Ends : (n : ℕ) (bs : List ℕ) → Ends (read_sets bo n bs)
  unfolding read_sets read_set
  read_sets-Ends zero bs = value tt
  read_sets-Ends (suc n) bs =
      Settles->>= (Settles->>= (read_be-Settles bo 2 bs) λ (size, rest) _. extract-Ends size rest)
        λ (set, rest) _. Settles->>= (read_sets-Ends n rest) λ (sets, rest') _. value tt

  read_extended-Ends : (bs : List ℕ) → Ends (read_extended bo bs)
  unfolding read_extended
  read_extended-Ends bs = Settles->>= (read_u8-Settles bs) λ (_, bs₁) _.
      Settles->>= (read_u8-Settles bs₁) λ (_, bs₂) _.
        Settles->>= (read_u8-Settles bs₂) λ (_, bs₃) _.
          Settles->>= (read_u8-Settles bs₃)
            λ (n, bs₄) _. Settles->>= (read_sets-Ends n bs₄) λ (sets, rest) _. value tt

  read_extended_config-Ends :
      (profile : ℕ) (bs : List ℕ) → Ends (read_extended_config bo profile bs)
  unfolding read_extended_config
  read_extended_config-Ends profile bs = elim (Bool-cases (has_no_extension profile)) [
    | inl e ↦ rw e (value tt)
    | inr e ↦ rw e (elim (Bool-cases (has_remaining bs)) [
      | inl e' ↦ rw e' (Settles->>= (read_extended-Ends bs) λ (extended, rest) _. value tt)
      | inr e' ↦ rw e' (value tt)
    ])
  ]

  pub demux-Ends : (bs : List ℕ) → Ends (demux bo bs)
  unfolding demux
  demux-Ends bs = Settles->>= (read_u8-Settles bs) λ (_, bs₁) _.
      Settles->>= (read_u8-Settles bs₁) λ (profile, bs₂) _.
        Settles->>= (read_u8-Settles bs₂) λ (_, bs₃) _.
          Settles->>= (read_u8-Settles bs₃) λ (_, bs₄) _.
            Settles->>= (read_u8-Settles bs₄) λ (_, bs₅) _.
              Settles->>= (read_u8-Settles bs₅) λ (n, bs₆) _.
                Settles->>= (read_sets-Ends (n % 32) bs₆) λ (_, bs₇) _.
                  Settles->>= (read_u8-Settles bs₇) λ (m, bs₈) _.
                    Settles->>= (read_sets-Ends m bs₈) λ (_, bs₉) _.
                      Settles->>= (read_extended_config-Ends profile bs₉) λ (_, rest) _. value tt

-- ===== src/Av1/Config/RoundTrip.antt =====
-- The AV1 configuration record, written and read back.
use video.Base.{
  ℕ, ◌<◌, ◌≡◌, refl, ap, ◌∙◌, subst, arith, Bool, true, false, List, [], ◌∷◌, ◌++◌, append_assoc,
  Option, none, some, ok, length, length-append, All, All-append,
}
use video.Io.{IsByte}
use video.BytesUtil.Bits.{to_bits, bytes_bits, bytes_bits-append, length-to_bits, length-bytes_bits}
use video.BytesUtil.BitReader.{BitReader, new_from_slice, is_aligned}
use video.BytesUtil.BitWriter.{BitWriter, write_bits, finish}
use video.BytesUtil.Parser.{Parser, ◌>>=◌}
use video.BytesUtil.Parser.Reads.{
  At, Reads, Reads->>=, Reads-pure, Reads-map, Reads-read_bit, Reads-read_bits, new_from_slice-At,
}
use video.BytesUtil.Parser.Takes.{Takes, Takes->>=, At-bytes, Takes-take_rest, Reads-skip}
use video.BytesUtil.BitWriter.View.{new-IsValid, view-new}
use video.BytesUtil.BitWriter as Writing
use video.BytesUtil.Writer.Puts.{Holds-whole, Puts, Puts->>, Puts-write_bits, Puts-put_flag}
use video.Av1.{check_aligned}
use video.Av1.Config.{Av1CodecConfigurationRecord, read_delay, demux_bits, demux, size}
use video.Av1.Config.Mux.{write_delay, put_config, mux}

-- A delay has four bits.
abbrev pub IsDelay : Option ℕ → Type 0
IsDelay none = Unit
IsDelay (some delay) = delay < 16

-- What the fields of the record have room for.
pub record IsConfig (config : Av1CodecConfigurationRecord) : Type 0 where
  pub profile : config.seq_profile < 8
  pub level : config.seq_level_idx_0 < 32
  pub position : config.chroma_sample_position < 4
  pub delay : IsDelay config.initial_presentation_delay_minus_one
  pub obu : All IsByte config.config_obu

delay_bits : Option ℕ → List Bool
delay_bits none = false ∷ to_bits 4 0
delay_bits (some delay) = true ∷ to_bits 4 delay

length-delay_bits : (delay : Option ℕ) → length (delay_bits delay) ≡ 5
unfolding delay_bits
length-delay_bits none = omega (arith, length-to_bits 4 0)
length-delay_bits (some delay) = omega (arith, length-to_bits 4 delay)

abbrev flag : Bool → List Bool
flag b = b ∷ []

-- The bits of the record, in front of others.
abbrev front : Av1CodecConfigurationRecord → List Bool → List Bool
front config behind =
    flag true
    ++ (to_bits 7 1
        ++ (to_bits 3 config.seq_profile
            ++ (to_bits 5 config.seq_level_idx_0
                ++ (flag config.seq_tier_0
                    ++ (flag config.high_bitdepth
                        ++ (flag config.twelve_bit
                            ++ (flag config.monochrome
                                ++ (flag config.chroma_subsampling_x
                                    ++ (flag config.chroma_subsampling_y
                                        ++ (to_bits 2 config.chroma_sample_position
                                            ++ (to_bits 3 0
                                                ++ (delay_bits
                                                      config.initial_presentation_delay_minus_one
                                                    ++ behind))))))))))))

abbrev front_bits : Av1CodecConfigurationRecord → List Bool
front_bits config =
    flag true
    ++ (to_bits 7 1
        ++ (to_bits 3 config.seq_profile
            ++ (to_bits 5 config.seq_level_idx_0
                ++ (flag config.seq_tier_0
                    ++ (flag config.high_bitdepth
                        ++ (flag config.twelve_bit
                            ++ (flag config.monochrome
                                ++ (flag config.chroma_subsampling_x
                                    ++ (flag config.chroma_subsampling_y
                                        ++ (to_bits 2 config.chroma_sample_position
                                            ++ (to_bits 3 0
                                                ++ (delay_bits
                                                    config.initial_presentation_delay_minus_one))))))))))))

front_bits-append :
    (config : Av1CodecConfigurationRecord) (behind : List Bool)
    → front_bits config ++ behind ≡ front config behind
front_bits-append config behind = simp append_assoc refl

length-front_bits : (config : Av1CodecConfigurationRecord) → length (front_bits config) ≡ 32
unfolding to_bits
length-front_bits config =
    omega (arith, length-delay_bits config.initial_presentation_delay_minus_one)

write_delay-Puts : (delay : Option ℕ) → IsDelay delay → Puts (write_delay delay) (delay_bits delay)
unfolding write_delay delay_bits
write_delay-Puts none h =
    Puts->> (Puts-put_flag false) (Puts-write_bits 4 0 (omega arith) (omega arith))
write_delay-Puts (some delay) h =
    Puts->> (Puts-put_flag true) (Puts-write_bits 4 delay (omega arith) h)

put_config-Puts :
    (config : Av1CodecConfigurationRecord)
    → IsConfig config
    → Puts (put_config config) (front_bits config)
unfolding put_config
put_config-Puts config h = Puts->> (Puts-put_flag true) (
    Puts->> (Puts-write_bits 7 1 (omega arith) (omega arith)) (
      Puts->> (Puts-write_bits 3 config.seq_profile (omega arith) h.profile) (
        Puts->> (Puts-write_bits 5 config.seq_level_idx_0 (omega arith) h.level) (
          Puts->> (Puts-put_flag config.seq_tier_0) (
            Puts->> (Puts-put_flag config.high_bitdepth) (
              Puts->> (Puts-put_flag config.twelve_bit) (
                Puts->> (Puts-put_flag config.monochrome) (
                  Puts->> (Puts-put_flag config.chroma_subsampling_x) (
                    Puts->> (Puts-put_flag config.chroma_subsampling_y) (
                      Puts->>
                        (Puts-write_bits 2 config.chroma_sample_position (omega arith) h.position)
                        (Puts->> (Puts-write_bits 3 0 (omega arith) (omega arith)) (
                          write_delay-Puts config.initial_presentation_delay_minus_one
                            h.delay))))))))))))

read_delay-Reads : (delay : Option ℕ) → IsDelay delay → Reads read_delay delay (delay_bits delay)
unfolding read_delay delay_bits to_bits
read_delay-Reads none h =
    Reads->>= _ (Reads-read_bit false) (Reads-map (λ _. none) (Reads-skip (to_bits 4 0)))
read_delay-Reads (some delay) h =
    Reads->>= _ (Reads-read_bit true) (Reads-map some (Reads-read_bits 4 delay (omega arith) h))

-- The first two of the reserved bits are read as `hdr_wcg_idc`.
abbrev pub without_hdr : Av1CodecConfigurationRecord → Av1CodecConfigurationRecord
without_hdr config = record config { hdr_wcg_idc = 0 }

Takes-aligned :
    {A : Type 0} {p : Parser A} {a : A} (bytes : List ℕ)
    → All IsByte bytes
    → Takes p a (bytes_bits bytes)
    → Takes (check_aligned >>= λ _. p) a (bytes_bits bytes)
unfolding ◌>>=◌ check_aligned
Takes-aligned bytes h k = record {
  run = λ r at.
      let (here, _) = At-bytes r bytes at h in
      let aligned : is_aligned r ≡ true = ground (arith, here) in
      let (r', step, none_left) = k.run r at in (r', rw aligned step, none_left);
}

demux_bits-Takes :
    (config : Av1CodecConfigurationRecord)
    → IsConfig config
    → Takes demux_bits (without_hdr config) (front config (bytes_bits config.config_obu))
unfolding demux_bits to_bits
demux_bits-Takes config h = Takes->>= _ (Reads-read_bit true) (
    Takes->>= _ (Reads-pure tt) (
      Takes->>= _ (Reads-read_bits 7 1 (omega arith) (omega arith)) (
        Takes->>= _ (Reads-pure tt) (
          Takes->>= _ (Reads-read_bits 3 config.seq_profile (omega arith) h.profile) (
            Takes->>= _ (Reads-read_bits 5 config.seq_level_idx_0 (omega arith) h.level) (
              Takes->>= _ (Reads-read_bit config.seq_tier_0) (
                Takes->>= _ (Reads-read_bit config.high_bitdepth) (
                  Takes->>= _ (Reads-read_bit config.twelve_bit) (
                    Takes->>= _ (Reads-read_bit config.monochrome) (
                      Takes->>= _ (Reads-read_bit config.chroma_subsampling_x) (
                        Takes->>= _ (Reads-read_bit config.chroma_subsampling_y) (
                          Takes->>= _
                            (Reads-read_bits 2 config.chroma_sample_position (omega arith)
                              h.position)
                            (Takes->>= _ (Reads-read_bits 2 0 (omega arith) (omega arith)) (
                              Takes->>= _ (Reads-skip (false ∷ [])) (
                                Takes->>= _
                                  (read_delay-Reads config.initial_presentation_delay_minus_one
                                    h.delay)
                                  (Takes-aligned config.config_obu h.obu
                                    (Takes-take_rest _ config.config_obu h.obu)))))))))))))))))

written :
    (config : Av1CodecConfigurationRecord)
    → IsConfig config
    → (w : BitWriter) × (put_config config (Writing.new []) ≡ ok w)
      × (finish w ≡ ok w.writer)
      × (bytes_bits w.writer ≡ front_bits config)
      × All IsByte w.writer
unfolding bytes_bits
written config h =
    let (w, step, at) =
      (put_config-Puts config h).run (Writing.new []) []
        (record { valid = new-IsValid []; seen = view-new []; bytes = tt }) in
    let (last, same) = Holds-whole w (front_bits config) 4 at (length-front_bits config) in
    (w, step, last, same, at.bytes)

-- An AV1 configuration record whose fields fit their widths is written by `mux` in as many bytes
-- as `size` says, and `demux` reads it back from them, except that its `hdr_wcg_idc` is 0.
pub demux-mux-without_hdr :
    (config : Av1CodecConfigurationRecord)
    → IsConfig config
    → (bytes : List ℕ) × (r : BitReader) × (mux config [] ≡ ok bytes)
      × (size config ≡ length bytes)
      × (demux (record { inner = bytes; position = 0 }) ≡ ok (without_hdr config, r))
unfolding mux size demux new_from_slice
demux-mux-without_hdr config h =
    let (w, step, last, same, small) = written config h in
    let bytes = w.writer ++ config.config_obu in
    let seen : bytes_bits bytes ≡ front config (bytes_bits config.config_obu) =
      bytes_bits-append w.writer config.config_obu
      ∙ ap (λ t. t ++ bytes_bits config.config_obu) same
      ∙ front_bits-append config (bytes_bits config.config_obu) in
    let (r, read, _) = (demux_bits-Takes config h).run (new_from_slice bytes) (
      subst (λ t. At (new_from_slice bytes) t) seen
        (new_from_slice-At bytes (All-append IsByte w.writer config.config_obu small h.obu))) in
    (
      bytes,
      r,
      rw step (rw last refl),
      omega (
        arith,
        length-append w.writer config.config_obu,
        length-bytes_bits w.writer,
        ap length same,
        length-front_bits config,
      ),
      read,
    )

-- ===== src/H265/RoundTrip.antt =====
-- The HEVC configuration record, written and read back.
use video.Base.{
  ℕ, ◌+◌, ◌*◌, ◌%◌, ◌^◌, ◌<◌, ◌≡◌, ◌≢◌, refl, ap, ◌∙◌, sym, subst, arith, Bool, List, [], ◌∷◌, ◌++◌,
  append-nil, ok, length, length-append, All, All-map,
}
use video.Io.{IsByte}
use video.ByteOrder.{ByteOrder}
use video.BytesUtil.Bits.{to_bits, bytes_bits, length-bytes_bits}
use video.BytesUtil.BitReader.{BitReader, new_from_slice}
use video.BytesUtil.BitWriter.{BitWriter, new, finish}
use video.BytesUtil.BitWriter.View.{new-IsValid, view-new}
use video.BytesUtil.Parser.{◌>>=◌, pure, repeat}
use video.BytesUtil.Parser.Reads.{
  At, Reads, Reads->>=, Reads-map, Reads-read_bit, Reads-read_bits, Reads-repeat, all_bits,
  new_from_slice-At,
}
use video.BytesUtil.Parser.Takes.{Reads-skip}
use video.BytesUtil.Parser.Exact.{Reads-read_exact, Reads-read_be, Reads-read_le, Reads-read_u8}
use video.BytesUtil.Writer.{Put, put_each, write_u8, write_be}
use video.BytesUtil.Writer.Puts.{
  Puts, Puts->>, Puts-done, Puts-write_bits, Puts-put_flag, Puts-write_u8, Puts-write_all,
  Puts-write_be, Puts-write_le, Holds-whole,
}
use video.H265.{
  NaluType, vps, sps, pps, unknown, NaluArray, HevcDecoderConfigurationRecord, type_from, type_into,
  read_nalu, read_array, demux_bits, demux, nalus_size, arrays_size, size,
}
use video.H265.Mux.{write_nalu, write_array, put_config, mux}

-- A unit whose length fits a `u16`.
pub record IsNalu (nalu : List ℕ) : Type 0 where
  pub short : length nalu < 2 ^ 16
  pub bytes : All IsByte nalu

-- A type without a name of its own has six bits, and is none of VPS_NUT, SPS_NUT and PPS_NUT.
abbrev pub IsType : NaluType → Type 0
IsType (unknown value) = (value < 64) × ((value ≢ 32) × ((value ≢ 33) × (value ≢ 34)))
IsType _ = Unit

type_into-lt : (t : NaluType) → IsType t → type_into t < 64
unfolding type_into
type_into-lt (unknown value) h = h.0
type_into-lt vps h = omega arith
type_into-lt sps h = omega arith
type_into-lt pps h = omega arith

type_from-type_into : (t : NaluType) → IsType t → type_from (type_into t) ≡ t
unfolding type_from type_into
type_from-type_into (unknown value) (small, others) = ground arith
type_from-type_into vps h = refl
type_from-type_into sps h = refl
type_from-type_into pps h = refl

pub record IsArray (array : NaluArray) : Type 0 where
  pub type : IsType array.nal_unit_type
  pub count : length array.nalus < 2 ^ 16
  pub units : All IsNalu array.nalus

-- What the fields of the record have room for.
pub record IsConfig (config : HevcDecoderConfigurationRecord) : Type 0 where
  pub version : config.configuration_version < 256
  pub profile_space : config.general_profile_space < 4
  pub profile_idc : config.general_profile_idc < 32
  pub compatibility : config.general_profile_compatibility_flags < 256 ^ 4
  pub constraint : config.general_constraint_indicator_flags < 256 ^ 6
  pub level : config.general_level_idc < 256
  pub segmentation : config.min_spatial_segmentation_idc < 2 ^ 12
  pub parallelism : config.parallelism_type < 4
  pub chroma : config.chroma_format_idc < 4
  pub luma_depth : config.bit_depth_luma_minus8 < 8
  pub chroma_depth : config.bit_depth_chroma_minus8 < 8
  pub average_rate : config.avg_frame_rate < 256 ^ 2
  pub constant_rate : config.constant_frame_rate < 4
  pub layers : config.num_temporal_layers < 8
  pub length_size : config.length_size_minus_one < 4
  pub count : length config.arrays < 256
  pub units : All IsArray config.arrays

abbrev flag : Bool → List Bool
flag b = b ∷ []

put_each-Puts :
    {A : Type 0} (put : A → Put) (bits : A → List Bool) (xs : List A)
    → All (λ x. Puts (put x) (bits x)) xs
    → Puts (put_each put xs) (all_bits bits xs)
unfolding put_each all_bits
put_each-Puts put bits [] hs = Puts-done
put_each-Puts put bits (x ∷ xs) (h, hs) = Puts->> h (put_each-Puts put bits xs hs)

module _ (bo : ByteOrder) where
  -- The layout of ISO/IEC 14496-15, 8.3.2.1.
  nalu_bits : List ℕ → List Bool
  nalu_bits nalu = bytes_bits (bo.to_be 2 (length nalu)) ++ bytes_bits nalu

  array_bits : NaluArray → List Bool
  array_bits array =
      flag array.array_completeness
      ++ (to_bits 1 0
          ++ (to_bits 6 (type_into array.nal_unit_type)
              ++ (bytes_bits (bo.to_be 2 (length array.nalus)) ++ all_bits nalu_bits array.nalus)))

  abbrev last_bits : HevcDecoderConfigurationRecord → List Bool
  last_bits config =
      to_bits 2 config.constant_frame_rate
      ++ (to_bits 3 config.num_temporal_layers
          ++ (flag config.temporal_id_nested
              ++ (to_bits 2 config.length_size_minus_one
                  ++ (bytes_bits (length config.arrays ∷ [])
                      ++ (all_bits array_bits config.arrays)))))

  abbrev middle_bits : HevcDecoderConfigurationRecord → List Bool
  middle_bits config =
      bytes_bits (config.general_level_idc ∷ [])
      ++ (to_bits 4 15
          ++ (to_bits 12 config.min_spatial_segmentation_idc
              ++ (to_bits 6 63
                  ++ (to_bits 2 config.parallelism_type
                      ++ (to_bits 6 63
                          ++ (to_bits 2 config.chroma_format_idc
                              ++ (to_bits 5 31
                                  ++ (to_bits 3 config.bit_depth_luma_minus8
                                      ++ (to_bits 5 31
                                          ++ (to_bits 3 config.bit_depth_chroma_minus8
                                              ++ (bytes_bits (bo.to_be 2 config.avg_frame_rate)
                                                  ++ (last_bits config))))))))))))

  abbrev flags_bits : HevcDecoderConfigurationRecord → List Bool
  flags_bits config =
      bytes_bits (bo.to_le 6 config.general_constraint_indicator_flags) ++ (middle_bits config)

  abbrev config_bits : HevcDecoderConfigurationRecord → List Bool
  config_bits config =
      bytes_bits (config.configuration_version ∷ [])
      ++ (to_bits 2 config.general_profile_space
          ++ (flag config.general_tier_flag
              ++ (to_bits 5 config.general_profile_idc
                  ++ (bytes_bits (bo.to_le 4 config.general_profile_compatibility_flags)
                      ++ (flags_bits config)))))

  -- The count is written modulo 2 ^ 16.
  write_count-Puts :
      (n : ℕ) → n < 2 ^ 16 → Puts (write_be bo 2 (n % 2 ^ 16)) (bytes_bits (bo.to_be 2 n))
  write_count-Puts n h =
      subst (λ k. Puts (write_be bo 2 (n % 2 ^ 16)) (bytes_bits (bo.to_be 2 k))) (omega (arith, h))
        (Puts-write_be bo 2 (n % 2 ^ 16))

  write_nalu-Puts : (nalu : List ℕ) → IsNalu nalu → Puts (write_nalu bo nalu) (nalu_bits nalu)
  unfolding write_nalu nalu_bits
  write_nalu-Puts nalu h =
      Puts->> (write_count-Puts (length nalu) h.short) (Puts-write_all nalu h.bytes)

  write_array-Puts :
      (array : NaluArray) → IsArray array → Puts (write_array bo array) (array_bits array)
  unfolding write_array array_bits
  write_array-Puts array h = Puts->> (Puts-put_flag array.array_completeness) (
      Puts->> (Puts-write_bits 1 0 (omega arith) (omega arith)) (
        Puts->>
          (Puts-write_bits 6 (type_into array.nal_unit_type) (omega arith)
            (type_into-lt array.nal_unit_type h.type))
          (Puts->> (write_count-Puts (length array.nalus) h.count) (
            put_each-Puts (write_nalu bo) nalu_bits array.nalus
              (All-map write_nalu-Puts array.nalus h.units)))))

  read_nalu-Reads : (nalu : List ℕ) → IsNalu nalu → Reads (read_nalu bo) nalu (nalu_bits nalu)
  unfolding read_nalu nalu_bits
  read_nalu-Reads nalu h =
      Reads->>= _ (Reads-read_be bo 2 (length nalu) (omega (arith, h.short)))
        (Reads-read_exact nalu h.bytes)

  read_array-Reads :
      (array : NaluArray) → IsArray array → Reads (read_array bo) array (array_bits array)
  unfolding read_array array_bits to_bits
  read_array-Reads array h = Reads->>= _ (Reads-read_bit array.array_completeness) (
      Reads->>= _ (Reads-skip (to_bits 1 0)) (
        Reads->>= _
          (Reads-read_bits 6 (type_into array.nal_unit_type) (omega arith)
            (type_into-lt array.nal_unit_type h.type))
          (Reads->>= _ (Reads-read_be bo 2 (length array.nalus) (omega (arith, h.count))) (
            subst
              (λ t.
                Reads
                  (repeat (length array.nalus) (read_nalu bo) >>= λ nalus. pure (record {
                    array_completeness = array.array_completeness;
                    nal_unit_type = type_from (type_into array.nal_unit_type);
                    nalus = nalus;
                  }))
                  (record array { nal_unit_type = t }) (all_bits nalu_bits array.nalus))
              (type_from-type_into array.nal_unit_type h.type)
              (Reads-map _ (
                Reads-repeat (read_nalu bo) nalu_bits array.nalus
                  (All-map read_nalu-Reads array.nalus h.units)))))))

  write_last-Puts : (n : ℕ) → n < 256 → Puts (write_u8 (n % 256)) (bytes_bits (n ∷ []))
  write_last-Puts n h =
      subst (λ k. Puts (write_u8 (n % 256)) (bytes_bits (k ∷ []))) (omega (arith, h))
        (Puts-write_u8 (n % 256) (omega arith))

  put_config-Puts :
      (config : HevcDecoderConfigurationRecord)
      → IsConfig config
      → Puts (put_config bo config) (config_bits config)
  unfolding put_config
  put_config-Puts config h = Puts->> (Puts-write_u8 config.configuration_version h.version) (
      Puts->> (Puts-write_bits 2 config.general_profile_space (omega arith) h.profile_space) (
        Puts->> (Puts-put_flag config.general_tier_flag) (
          Puts->> (Puts-write_bits 5 config.general_profile_idc (omega arith) h.profile_idc) (
            Puts->> (Puts-write_le bo 4 config.general_profile_compatibility_flags) (
              Puts->> (Puts-write_le bo 6 config.general_constraint_indicator_flags) (
                Puts->> (Puts-write_u8 config.general_level_idc h.level) (
                  Puts->> (Puts-write_bits 4 15 (omega arith) (omega arith)) (
                    Puts->>
                      (Puts-write_bits 12 config.min_spatial_segmentation_idc (omega arith)
                        h.segmentation)
                      (Puts->> (Puts-write_bits 6 63 (omega arith) (omega arith)) (
                        Puts->>
                          (Puts-write_bits 2 config.parallelism_type (omega arith) h.parallelism)
                          (Puts->> (Puts-write_bits 6 63 (omega arith) (omega arith)) (
                            Puts->>
                              (Puts-write_bits 2 config.chroma_format_idc (omega arith) h.chroma)
                              (Puts->> (Puts-write_bits 5 31 (omega arith) (omega arith)) (
                                Puts->>
                                  (Puts-write_bits 3 config.bit_depth_luma_minus8 (omega arith)
                                    h.luma_depth)
                                  (Puts->> (Puts-write_bits 5 31 (omega arith) (omega arith)) (
                                    Puts->>
                                      (Puts-write_bits 3 config.bit_depth_chroma_minus8
                                        (omega arith) h.chroma_depth)
                                      (Puts->> (Puts-write_be bo 2 config.avg_frame_rate) (
                                        Puts->>
                                          (Puts-write_bits 2 config.constant_frame_rate
                                            (omega arith) h.constant_rate)
                                          (Puts->>
                                            (Puts-write_bits 3 config.num_temporal_layers
                                              (omega arith) h.layers)
                                            (Puts->> (Puts-put_flag config.temporal_id_nested) (
                                              Puts->>
                                                (Puts-write_bits 2 config.length_size_minus_one
                                                  (omega arith) h.length_size)
                                                (Puts->>
                                                  (write_last-Puts (length config.arrays) h.count)
                                                  (put_each-Puts (write_array bo) array_bits
                                                    config.arrays
                                                    (All-map write_array-Puts config.arrays
                                                      h.units))))))))))))))))))))))))

  demux_bits-Reads :
      (config : HevcDecoderConfigurationRecord)
      → IsConfig config
      → Reads (demux_bits bo) config (config_bits config)
  unfolding demux_bits to_bits
  demux_bits-Reads config h = Reads->>= _ (Reads-read_u8 config.configuration_version h.version) (
      Reads->>= _ (Reads-read_bits 2 config.general_profile_space (omega arith) h.profile_space) (
        Reads->>= _ (Reads-read_bit config.general_tier_flag) (
          Reads->>= _ (Reads-read_bits 5 config.general_profile_idc (omega arith) h.profile_idc) (
            Reads->>= _
              (Reads-read_le bo 4 config.general_profile_compatibility_flags h.compatibility)
              (Reads->>= _
                (Reads-read_le bo 6 config.general_constraint_indicator_flags h.constraint)
                (Reads->>= _ (Reads-read_u8 config.general_level_idc h.level) (
                  Reads->>= _ (Reads-skip (to_bits 4 15)) (
                    Reads->>= _
                      (Reads-read_bits 12 config.min_spatial_segmentation_idc (omega arith)
                        h.segmentation)
                      (Reads->>= _ (Reads-skip (to_bits 6 63)) (
                        Reads->>= _
                          (Reads-read_bits 2 config.parallelism_type (omega arith) h.parallelism)
                          (Reads->>= _ (Reads-skip (to_bits 6 63)) (
                            Reads->>= _
                              (Reads-read_bits 2 config.chroma_format_idc (omega arith) h.chroma)
                              (Reads->>= _ (Reads-skip (to_bits 5 31)) (
                                Reads->>= _
                                  (Reads-read_bits 3 config.bit_depth_luma_minus8 (omega arith)
                                    h.luma_depth)
                                  (Reads->>= _ (Reads-skip (to_bits 5 31)) (
                                    Reads->>= _
                                      (Reads-read_bits 3 config.bit_depth_chroma_minus8
                                        (omega arith) h.chroma_depth)
                                      (Reads->>= _
                                        (Reads-read_be bo 2 config.avg_frame_rate h.average_rate)
                                        (Reads->>= _
                                          (Reads-read_bits 2 config.constant_frame_rate
                                            (omega arith) h.constant_rate)
                                          (Reads->>= _
                                            (Reads-read_bits 3 config.num_temporal_layers
                                              (omega arith) h.layers)
                                            (Reads->>= _ (Reads-read_bit config.temporal_id_nested)
                                              (Reads->>= _
                                                (Reads-read_bits 2 config.length_size_minus_one
                                                  (omega arith) h.length_size)
                                                (Reads->>= _
                                                  (Reads-read_u8 (length config.arrays) h.count)
                                                  (Reads-map _ (
                                                    Reads-repeat (read_array bo) array_bits
                                                      config.arrays
                                                      (All-map read_array-Reads config.arrays
                                                        h.units)))))))))))))))))))))))))

  length-nalus : (nalus : List (List ℕ)) → length (all_bits nalu_bits nalus) ≡ 8 * nalus_size nalus
  unfolding all_bits nalu_bits nalus_size
  length-nalus [] = refl
  length-nalus (nalu ∷ nalus) = omega (
    arith,
    length-append (nalu_bits nalu) (all_bits nalu_bits nalus),
    length-append (bytes_bits (bo.to_be 2 (length nalu))) (bytes_bits nalu),
    length-bytes_bits (bo.to_be 2 (length nalu)),
    bo.length-to_be 2 (length nalu),
    length-bytes_bits nalu,
    length-nalus nalus,
  )

  length-array : (array : NaluArray) → length (array_bits array) ≡ 8 * (3 + nalus_size array.nalus)
  unfolding array_bits to_bits
  length-array array = omega (
    arith,
    length-append (bytes_bits (bo.to_be 2 (length array.nalus))) (all_bits nalu_bits array.nalus),
    length-bytes_bits (bo.to_be 2 (length array.nalus)),
    bo.length-to_be 2 (length array.nalus),
    length-nalus array.nalus,
  )

  length-arrays :
      (arrays : List NaluArray) → length (all_bits array_bits arrays) ≡ 8 * arrays_size arrays
  unfolding all_bits arrays_size
  length-arrays [] = refl
  length-arrays (array ∷ arrays) = omega (
    arith,
    length-append (array_bits array) (all_bits array_bits arrays),
    length-array array,
    length-arrays arrays,
  )

  length-config_bits :
      (config : HevcDecoderConfigurationRecord) → length (config_bits config) ≡ 8 * size config
  unfolding size to_bits bytes_bits
  length-config_bits config = omega (
    arith,
    length-append (bytes_bits (bo.to_le 4 config.general_profile_compatibility_flags))
        (flags_bits config),
    length-bytes_bits (bo.to_le 4 config.general_profile_compatibility_flags),
    bo.length-to_le 4 config.general_profile_compatibility_flags,
    length-append (bytes_bits (bo.to_le 6 config.general_constraint_indicator_flags))
        (middle_bits config),
    length-bytes_bits (bo.to_le 6 config.general_constraint_indicator_flags),
    bo.length-to_le 6 config.general_constraint_indicator_flags,
    length-append (bytes_bits (bo.to_be 2 config.avg_frame_rate)) (last_bits config),
    length-bytes_bits (bo.to_be 2 config.avg_frame_rate),
    bo.length-to_be 2 config.avg_frame_rate,
    length-arrays config.arrays,
  )

  written :
      (config : HevcDecoderConfigurationRecord)
      → IsConfig config
      → (w : BitWriter) × (put_config bo config (new []) ≡ ok w)
        × (finish w ≡ ok w.writer)
        × (bytes_bits w.writer ≡ config_bits config)
        × All IsByte w.writer
  unfolding bytes_bits
  written config h =
      let (w, step, at) =
        (put_config-Puts config h).run (new []) []
          (record { valid = new-IsValid []; seen = view-new []; bytes = tt }) in
      let (last, same) =
        Holds-whole w (config_bits config) (size config) at (length-config_bits config) in
      (w, step, last, same, at.bytes)

  -- An HEVC configuration record whose fields fit their widths (fewer than 256 arrays, each of
  -- fewer than 65536 units of fewer than 65536 bytes, of type VPS, SPS or PPS, or of another
  -- type of six bits) is written by `mux` in as many bytes as `size` says, and `demux` reads the
  -- same record from them.
  pub demux-mux-size :
      (config : HevcDecoderConfigurationRecord)
      → IsConfig config
      → (bytes : List ℕ) × (r : BitReader) × (mux bo config [] ≡ ok bytes)
        × (size config ≡ length bytes)
        × (demux bo (record { inner = bytes; position = 0 }) ≡ ok (config, r))
  unfolding mux demux new_from_slice
  demux-mux-size config h =
      let (w, step, last, same, small) = written config h in
      let (r, read, _) = (demux_bits-Reads config h).run (new_from_slice w.writer) [] (
        subst (λ t. At (new_from_slice w.writer) t) (same ∙ sym (append-nil (config_bits config)))
          (new_from_slice-At w.writer small)) in
      (
        w.writer,
        r,
        rw step last,
        omega (arith, length-bytes_bits w.writer, ap length same, length-config_bits config),
        read,
      )

-- ===== src/H264/RoundTrip.antt =====
-- The AVC configuration record, written and read back.
use video.Base.{
  Bool-cases, inl, inr, ℕ, ◌+◌, ◌%◌, ◌^◌, ◌<◌, ◌≡◌, refl, ap, ◌∙◌, sym, subst, arith, false, List,
  [], ◌∷◌, ◌++◌, append_assoc, append-nil, Option, none, some, ok, length, length-append, All,
  All-map, concat_map,
}
use video.Io.{IsByte, read_u8}
use video.ByteOrder.{ByteOrder}
use video.ByteOrder.Laws.{read_be-to_be}
use video.BytesUtil.BytesCursor.Front.{extract-append}
use video.BytesUtil.Writer.{put_each, write_be}
use video.BytesUtil.Writer.Writes.{
  Writes, Writes->>, Writes-done, Writes-write_u8, Writes-write_all, Writes-write_be, Writes-byte,
  Writes-two_fields, Writes-put_each, Writes-finish,
}
use video.H264.{
  AvccExtendedConfig, AvcDecoderConfigurationRecord, has_no_extension, sets_size, extension_size,
  size, read_set, read_sets, read_extended, read_extended_config, demux, write_set, write_extended,
  put_config, mux,
}

-- A parameter set whose length fits a `u16`.
pub record IsParameterSet (set : List ℕ) : Type 0 where
  pub short : length set < 2 ^ 16
  pub bytes : All IsByte set

pub record IsExtended (extended : AvccExtendedConfig) : Type 0 where
  pub chroma : extended.chroma_format < 4
  pub luma_depth : extended.bit_depth_luma_minus8 < 8
  pub chroma_depth : extended.bit_depth_chroma_minus8 < 8
  pub count : length extended.sequence_parameter_set_ext < 256
  pub sets : All IsParameterSet extended.sequence_parameter_set_ext

-- An extension stands only behind a profile that has one.
abbrev pub IsExtension : ℕ → Option AvccExtendedConfig → Type 0
IsExtension profile none = Unit
IsExtension profile (some extended) = (has_no_extension profile ≡ false) × IsExtended extended

-- What the fields of the record have room for.
pub record IsConfig (config : AvcDecoderConfigurationRecord) : Type 0 where
  pub version : config.configuration_version < 256
  pub profile : config.profile_indication < 256
  pub compatibility : config.profile_compatibility < 256
  pub level : config.level_indication < 256
  pub length_size : config.length_size_minus_one < 4
  pub sps_count : length config.sps < 32
  pub sps_sets : All IsParameterSet config.sps
  pub pps_count : length config.pps < 256
  pub pps_sets : All IsParameterSet config.pps
  pub extension : IsExtension config.profile_indication config.extended_config

module _ (bo : ByteOrder) where
  -- The layout of ISO/IEC 14496-15, 5.3.2.1.2.
  abbrev pub set_bytes : List ℕ → List ℕ
  set_bytes set = bo.to_be 2 (length set) ++ set

  abbrev pub extension_bytes : Option AvccExtendedConfig → List ℕ
  extension_bytes none = []
  extension_bytes (some extended) =
      (252 + extended.chroma_format)
      ∷ (248 + extended.bit_depth_luma_minus8)
      ∷ (248 + extended.bit_depth_chroma_minus8)
      ∷ length extended.sequence_parameter_set_ext
      ∷ concat_map set_bytes extended.sequence_parameter_set_ext

  abbrev pub config_bytes : AvcDecoderConfigurationRecord → List ℕ
  config_bytes config =
      config.configuration_version
      ∷ config.profile_indication
      ∷ config.profile_compatibility
      ∷ config.level_indication
      ∷ (252 + config.length_size_minus_one)
      ∷ (224 + length config.sps)
      ∷ (concat_map set_bytes config.sps
          ++ length config.pps
            ∷ (concat_map set_bytes config.pps ++ extension_bytes config.extended_config))

  write_set-Writes : (set : List ℕ) → IsParameterSet set → Writes (write_set bo set) (set_bytes set)
  unfolding write_set
  write_set-Writes set h =
      Writes->>
        (subst (λ n. Writes (write_be bo 2 (length set % 2 ^ 16)) (bo.to_be 2 n))
          (omega (arith, h.short)) (Writes-write_be bo 2 (length set % 2 ^ 16)))
        (Writes-write_all set h.bytes)

  sets-Writes :
      (sets : List (List ℕ))
      → All IsParameterSet sets
      → Writes (put_each (write_set bo) sets) (concat_map set_bytes sets)
  sets-Writes sets hs =
      Writes-put_each (write_set bo) set_bytes sets (All-map write_set-Writes sets hs)

  extension-Writes :
      (profile : ℕ) (extension : Option AvccExtendedConfig)
      → IsExtension profile extension
      → Writes (write_extended bo extension) (extension_bytes extension)
  unfolding write_extended
  extension-Writes profile none h = Writes-done
  extension-Writes profile (some extended) (_, h) =
      Writes->>
        (Writes-two_fields 63 6 extended.chroma_format 2 refl (omega arith) h.chroma
          (omega (arith, h.chroma)))
        (Writes->>
          (Writes-two_fields 31 5 extended.bit_depth_luma_minus8 3 refl (omega arith) h.luma_depth
            (omega (arith, h.luma_depth)))
          (Writes->>
            (Writes-two_fields 31 5 extended.bit_depth_chroma_minus8 3 refl (omega arith)
              h.chroma_depth (omega (arith, h.chroma_depth)))
            (Writes->> (Writes-byte (length extended.sequence_parameter_set_ext) h.count)
              (sets-Writes extended.sequence_parameter_set_ext h.sets))))

  config-Writes :
      (config : AvcDecoderConfigurationRecord)
      → IsConfig config
      → Writes (put_config bo config) (config_bytes config)
  unfolding put_config
  config-Writes config h = Writes->> (Writes-write_u8 config.configuration_version h.version) (
      Writes->> (Writes-write_u8 config.profile_indication h.profile) (
        Writes->> (Writes-write_u8 config.profile_compatibility h.compatibility) (
          Writes->> (Writes-write_u8 config.level_indication h.level) (
            Writes->>
              (Writes-two_fields 63 6 config.length_size_minus_one 2 refl (omega arith)
                h.length_size (omega (arith, h.length_size)))
              (Writes->>
                (Writes-two_fields 7 3 (length config.sps) 5 refl (omega arith) h.sps_count
                  (omega (arith, h.sps_count)))
                (Writes->> (sets-Writes config.sps h.sps_sets) (
                  Writes->> (Writes-byte (length config.pps) h.pps_count) (
                    Writes->> (sets-Writes config.pps h.pps_sets) (
                      extension-Writes config.profile_indication config.extended_config
                        h.extension)))))))))

  -- For an AVC configuration record whose fields fit their widths, what `mux` writes with a bit
  -- writer behind the bytes of a vector is the byte layout of the format.
  pub mux-config_bytes :
      (config : AvcDecoderConfigurationRecord) (out : List ℕ)
      → IsConfig config
      → All IsByte out
      → mux bo config out ≡ ok (out ++ config_bytes config)
  unfolding mux
  mux-config_bytes config out h hb =
      let (w, step, last) = Writes-finish out (config-Writes config h) hb in rw step last

  length-sets : (sets : List (List ℕ)) → length (concat_map set_bytes sets) ≡ sets_size sets
  unfolding sets_size
  length-sets [] = refl
  length-sets (set ∷ sets) = omega (
    arith,
    length-append (set_bytes set) (concat_map set_bytes sets),
    length-append (bo.to_be 2 (length set)) set,
    bo.length-to_be 2 (length set),
    length-sets sets,
  )

  length-extension :
      (extension : Option AvccExtendedConfig)
      → length (extension_bytes extension) ≡ extension_size extension
  unfolding extension_size
  length-extension none = refl
  length-extension (some extended) = omega (arith, length-sets extended.sequence_parameter_set_ext)

  -- For an AVC configuration record whose fields fit their widths, `size` is the number of bytes
  -- that `mux` writes.
  pub size-mux :
      (config : AvcDecoderConfigurationRecord)
      → IsConfig config
      → (bytes : List ℕ) × (mux bo config [] ≡ ok bytes) × (size config ≡ length bytes)
  unfolding size
  size-mux config h = (
    config_bytes config,
    mux-config_bytes config [] h tt,
    omega (
      arith,
      length-append (concat_map set_bytes config.sps) (
          length config.pps
          ∷ (concat_map set_bytes config.pps ++ extension_bytes config.extended_config)),
      length-append (concat_map set_bytes config.pps) (extension_bytes config.extended_config),
      length-sets config.sps,
      length-sets config.pps,
      length-extension config.extended_config,
    ),
  )

  read_set-bytes :
      (set rest : List ℕ)
      → IsParameterSet set
      → read_set bo (set_bytes set ++ rest) ≡ ok (set, rest)
  unfolding read_set
  read_set-bytes set rest h = rw (append_assoc (bo.to_be 2 (length set)) set rest) (
      rw (read_be-to_be bo 2 (length set) (set ++ rest) (omega (arith, h.short)))
        (extract-append set rest))

  read_sets-bytes :
      (sets : List (List ℕ)) (rest : List ℕ)
      → All IsParameterSet sets
      → read_sets bo (length sets) (concat_map set_bytes sets ++ rest) ≡ ok (sets, rest)
  unfolding read_sets
  read_sets-bytes [] rest hs = refl
  read_sets-bytes (set ∷ sets) rest (h, hs) =
      rw (append_assoc (set_bytes set) (concat_map set_bytes sets) rest) (
        rw (read_set-bytes set (concat_map set_bytes sets ++ rest) h)
          (rw (read_sets-bytes sets rest hs) refl))

  read_extended-bytes :
      (extended : AvccExtendedConfig)
      → IsExtended extended
      → read_extended bo (extension_bytes (some extended)) ≡ ok (extended, [])
  unfolding read_extended read_u8
  read_extended-bytes extended h =
      rw
        (ap (λ t. read_sets bo (length extended.sequence_parameter_set_ext) t) (sym (append-nil _))
          ∙ read_sets-bytes extended.sequence_parameter_set_ext [] h.sets)
        (ap
            (λ n. ok (
              record extended {
                chroma_format = n;
                bit_depth_luma_minus8 = (248 + extended.bit_depth_luma_minus8) % 8;
                bit_depth_chroma_minus8 = (248 + extended.bit_depth_chroma_minus8) % 8;
              },
              [],
            ))
            chroma
          ∙ ap
              (λ n. ok (
                record extended {
                  bit_depth_luma_minus8 = n;
                  bit_depth_chroma_minus8 = (248 + extended.bit_depth_chroma_minus8) % 8;
                },
                [],
              ))
              luma_depth
          ∙ ap (λ n. ok (record extended { bit_depth_chroma_minus8 = n }, [])) chroma_depth)
    where
      chroma : (252 + extended.chroma_format) % 4 ≡ extended.chroma_format
      chroma = omega (arith, h.chroma)

      luma_depth : (248 + extended.bit_depth_luma_minus8) % 8 ≡ extended.bit_depth_luma_minus8
      luma_depth = omega (arith, h.luma_depth)

      chroma_depth : (248 + extended.bit_depth_chroma_minus8) % 8 ≡ extended.bit_depth_chroma_minus8
      chroma_depth = omega (arith, h.chroma_depth)

  read_extended_config-bytes :
      (profile : ℕ) (extension : Option AvccExtendedConfig)
      → IsExtension profile extension
      → read_extended_config bo profile (extension_bytes extension) ≡ ok (extension, [])
  unfolding read_extended_config
  read_extended_config-bytes profile none h = elim (Bool-cases (has_no_extension profile)) [
    | inl e ↦ rw e refl
    | inr e ↦ rw e refl
  ]
  read_extended_config-bytes profile (some extended) (e, h) =
      rw e (rw (read_extended-bytes extended h) refl)

  demux-bytes :
      (config : AvcDecoderConfigurationRecord)
      → IsConfig config
      → demux bo (config_bytes config) ≡ ok (config, [])
  unfolding demux read_u8
  demux-bytes config h = rw sps_count (
      rw
        (read_sets-bytes config.sps
          (length config.pps
            ∷ (concat_map set_bytes config.pps ++ extension_bytes config.extended_config))
          h.sps_sets)
        (rw (read_sets-bytes config.pps (extension_bytes config.extended_config) h.pps_sets) (
          rw
            (read_extended_config-bytes config.profile_indication config.extended_config
              h.extension)
            (ap (λ n. ok (record config { length_size_minus_one = n }, [])) length_size))))
    where
      sps_count : (224 + length config.sps) % 32 ≡ length config.sps
      sps_count = omega (arith, h.sps_count)

      length_size : (252 + config.length_size_minus_one) % 4 ≡ config.length_size_minus_one
      length_size = omega (arith, h.length_size)

  -- An AVC configuration record whose fields fit their widths (at most 31 SPS and 255 PPS, each
  -- of fewer than 65536 bytes, an extension only behind a profile that has one) is written by
  -- `mux`, and `demux` reads the same record from these bytes and leaves nothing.
  pub demux-mux :
      (config : AvcDecoderConfigurationRecord)
      → IsConfig config
      → (bytes : List ℕ) × (mux bo config [] ≡ ok bytes) × (demux bo bytes ≡ ok (config, []))
  demux-mux config h = (config_bytes config, mux-config_bytes config [] h tt, demux-bytes config h)

-- ===== src/Examples/Streams.antt =====
-- The theorems on bits, numbers, values and configurations at concrete inputs.
use video.Base.{
  ℕ, true, false, ◌+◌, ◌^◌, ◌≤◌, ◌<◌, ◌≡◌, ◌≢◌, refl, arith, List, [], ◌∷◌, ◌++◌, ok, err, panic,
  stuck, ◌>>=◌, Yields, Returns, length, All,
}
use video.Base.Int.{negsuc}
use video.Base.Maps.{nat_eq, pair_eq}
use video.Utf8.{valid_utf8}
use video.Io.{remaining, unexpected_eof}
use video.ByteOrder.Reference.{positional}
use video.Amf0.Define.{Amf0Value, empty, property}
use video.Amf0.Encode.{encode}
use video.Amf0.Decode.{decode, decode_all}
use video.Amf0.Layout.{IsEncodable, is_string, is_object, is_null, are_empty, are_property}
use video.Amf0.Written.{encode_all, decode-encode, decode_all-encode_all}
use video.Amf0.Total.{decode_ends, decode_all-ends, decode_string_panics}
use video.BytesUtil.Bits.{to_bits, bytes_bits}
use video.BytesUtil.BitReader.{BitReader, new_from_slice, read_bits}
use video.BytesUtil.BitReader.View as ReaderView
use video.BytesUtil.BitWriter.{BitWriter, new, write_bits, finish}
use video.BytesUtil.BitWriter.View as WriterView
use video.BytesUtil.RoundTrip.{Field, Fits, write_fields, read_fields, read_fields-write_fields}
use video.BytesUtil.BytesCursor.{extract_remaining, extract_remaining-all}
use video.ExpGolomb.{
  read_exp_golomb, write_exp_golomb, read_signed_exp_golomb, write_signed_exp_golomb,
}
use video.ExpGolomb.RoundTrip.{HighestBit, code_word, write_exp_golomb-view, read_exp_golomb-view}
use video.ExpGolomb.Sequence.{
  write_all, read_all, read_all-write_all, read_signed-write_signed, read_exp_golomb-ends,
}
use video.Flv.{FlvHeader, demux}
use video.Flv.Header.{header_bytes, demux-header_bytes}
use video.Aac.{parse}
use video.Aac.Config.{table, meaning, config_bits, parse-config_bits}

abbrev fields : List Field
fields = record { bits = 5; count = 3 } ∷ record { bits = 300; count = 9 } ∷ []

fields-Fits : All Fits fields
fields-Fits = (
  record { wide = omega arith; small = omega arith },
  (record { wide = omega arith; small = omega arith }, tt),
)

read_fields-write_fields_example :
    (bytes : List ℕ) × (r : BitReader) × ((write_fields fields (new []) >>= finish) ≡ ok bytes)
    × (read_fields (3 ∷ 9 ∷ []) (new_from_slice bytes) ≡ ok (5 ∷ 300 ∷ [], r))
read_fields-write_fields_example = read_fields-write_fields fields fields-Fits

abbrev reader : BitReader
reader = record {
  source = record { inner = 1 ∷ 2 ∷ []; position = 1 };
  bit_pos = 3;
  current_byte = 1;
}

reader-IsValid : ReaderView.IsValid reader
reader-IsValid = omega arith

read_bit-view_example : ReaderView.ReadsBit (ReaderView.view reader) reader
read_bit-view_example = ReaderView.read_bit-view reader reader-IsValid

reader-IsShort : length (ReaderView.view reader) < 20
unfolding to_bits bytes_bits
reader-IsShort = omega arith

read_bits-short_example : read_bits 20 reader ≡ err unexpected_eof
read_bits-short_example = ReaderView.read_bits-short 20 reader reader-IsValid reader-IsShort

write_bits-view_example :
    (w : BitWriter) × (write_bits 5 3 (new []) ≡ ok w)
    × (WriterView.view w ≡ WriterView.view (new []) ++ to_bits 3 5)
    × WriterView.IsValid w
write_bits-view_example =
    WriterView.write_bits-view 5 3 (new []) (WriterView.new-IsValid []) (omega arith) (omega arith)

abbrev writer : BitWriter
writer = record { bit_pos = 2; current_byte = 192; writer = 7 ∷ [] }

writer-IsValid : WriterView.IsValid writer
writer-IsValid = record { within = omega arith; byte = omega arith; clear = refl }

finish-view_example :
    (bytes : List ℕ) × (finish writer ≡ ok bytes)
    × (bytes_bits bytes ≡ WriterView.view writer ++ to_bits 6 0)
finish-view_example = WriterView.finish-view writer writer-IsValid

extract_remaining-all_example :
    ((extract_remaining (record { inner = 1 ∷ 2 ∷ 3 ∷ []; position = 1 })).0 ≡ 2 ∷ 3 ∷ [])
    × (remaining ((extract_remaining (record { inner = 1 ∷ 2 ∷ 3 ∷ []; position = 1 })).1) ≡ [])
extract_remaining-all_example =
    extract_remaining-all (record { inner = 1 ∷ 2 ∷ 3 ∷ []; position = 1 })

read_all-write_all_example :
    (bytes : List ℕ) × (r : BitReader) × ((write_all (0 ∷ 7 ∷ []) (new []) >>= finish) ≡ ok bytes)
    × (read_all (0 ∷ 7 ∷ []) (new_from_slice bytes) ≡ ok (0 ∷ 7 ∷ [], r))
read_all-write_all_example = read_all-write_all (0 ∷ 7 ∷ []) (omega arith, (omega arith, tt))

read_signed-write_signed_example :
    (bytes : List ℕ) × (r : BitReader) × ((write_signed_exp_golomb (negsuc 4) (new []) >>= finish)
      ≡ ok bytes)
    × (read_signed_exp_golomb (new_from_slice bytes) ≡ ok (negsuc 4, r))
read_signed-write_signed_example = read_signed-write_signed (negsuc 4) (omega arith)

read_exp_golomb-ends_example :
    Returns (λ (n, r'). (n < 2 ^ 64) × ReaderView.IsValid r') (read_exp_golomb reader)
read_exp_golomb-ends_example = read_exp_golomb-ends reader reader-IsValid

write_exp_golomb-view_example :
    (k : ℕ) × (w : BitWriter) × HighestBit k 8
    × (write_exp_golomb 7 (new []) ≡ ok w)
    × (WriterView.view w ≡ WriterView.view (new []) ++ code_word k 8)
    × WriterView.IsValid w
write_exp_golomb-view_example =
    write_exp_golomb-view 7 (new []) (omega arith) (WriterView.new-IsValid [])

code_word_bits : ReaderView.view (new_from_slice (40 ∷ [])) ≡ code_word 2 5 ++ to_bits 3 0
unfolding new_from_slice to_bits bytes_bits
code_word_bits = refl

-- The eight bits of 0b00101000: the number 4, and three bits behind it.
read_exp_golomb-view_example :
    (r : BitReader) × (read_exp_golomb (new_from_slice (40 ∷ [])) ≡ ok (4, r))
    × (ReaderView.view r ≡ to_bits 3 0)
    × ReaderView.IsValid r
read_exp_golomb-view_example =
    read_exp_golomb-view 2 5 (to_bits 3 0) (new_from_slice (40 ∷ []))
      (record { lower = omega arith; upper = omega arith }) (omega arith)
      (ReaderView.new_from_slice-IsValid (40 ∷ [])) code_word_bits

abbrev value : Amf0Value
value = Amf0Value.object (property (97 ∷ []) (Amf0Value.string (98 ∷ [])) empty)

value-IsEncodable : IsEncodable value
unfolding valid_utf8
value-IsEncodable = is_object (
    are_property (record { fits = omega arith; utf8 = refl })
      (is_string (record { fits = omega arith; utf8 = refl })) are_empty)

decode-encode_example :
    (bs : List ℕ) × (encode positional (1 ∷ []) value ≡ ok (1 ∷ bs))
    × (decode positional (bs ++ 5 ∷ []) ≡ ok (value, 5 ∷ []))
decode-encode_example = decode-encode positional value (1 ∷ []) (5 ∷ []) value-IsEncodable

decode_all-encode_all_example :
    (bs : List ℕ) × (encode_all positional [] (Amf0Value.null ∷ value ∷ []) ≡ ok bs)
    × (decode_all positional bs ≡ ok (Amf0Value.null ∷ value ∷ []))
decode_all-encode_all_example =
    decode_all-encode_all positional (Amf0Value.null ∷ value ∷ [])
      (is_null, (value-IsEncodable, tt))

decode_ends_example : Yields (λ (_, rest). length rest + 1 ≤ 2) (decode positional (1 ∷ 1 ∷ []))
decode_ends_example = decode_ends positional (1 ∷ 1 ∷ [])

decode_all-ends_example : decode_all positional (1 ∷ 1 ∷ []) ≢ stuck
decode_all-ends_example = decode_all-ends positional (1 ∷ 1 ∷ [])

decode_string_panics_example : decode positional (2 ∷ 0 ∷ 5 ∷ 65 ∷ []) ≡ panic
decode_string_panics_example =
    decode_string_panics positional 5 (65 ∷ []) (omega arith) (omega arith)

stereo-config_bits :
    bytes_bits (18 ∷ 16 ∷ [])
    ≡ config_bits (record { object_type = 2; rate = table 4; channels = 2 }) ++ to_bits 3 0
unfolding to_bits bytes_bits
stereo-config_bits = refl

stereo-IsRate : 4 < 15
stereo-IsRate = omega arith

-- Low complexity, 44100 Hz, two channels.
parse-config_bits_example :
    parse (18 ∷ 16 ∷ []) ≡ meaning (record { object_type = 2; rate = table 4; channels = 2 })
parse-config_bits_example =
    parse-config_bits (record { object_type = 2; rate = table 4; channels = 2 }) (to_bits 3 0)
      (18 ∷ 16 ∷ []) (omega arith, refl) stereo-IsRate (omega arith) stereo-config_bits

abbrev flv_header : FlvHeader
flv_header = record { version = 1; has_audio = true; has_video = false; extra = 9 ∷ [] }

demux-header_bytes_example :
    demux positional (header_bytes positional flv_header ++ 0 ∷ []) ≡ ok (flv_header, 0 ∷ [])
demux-header_bytes_example = demux-header_bytes positional flv_header (0 ∷ []) (omega arith)

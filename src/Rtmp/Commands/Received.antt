-- ===== src/Rtmp/Commands/Received.antt =====
-- The commands as a decoder receives them.
use video.Base.{
  ℕ, ◌^◌, ◌≤◌, ◌<◌, ◌≡◌, refl, ap, ◌∙◌, subst, arith, List, [], ◌∷◌, ◌++◌, Result, ok, err, panic,
  stuck, ◌>>=◌, length, All,
}
use video.Base.Maps.{nat_eq, pair_eq}
use video.Utf8.{valid_utf8}
use video.ByteOrder.{ByteOrder}
use video.Amf0.Define.{Amf0Value, Amf0WriteError, Properties, Str, empty, property}
use video.Amf0.Encode.{encode, encode_string, encode_number, encode_null, encode_object}
use video.Amf0.Decode.{decode_all}
use video.Amf0.Layout.{
  IsShort, IsEncodable, is_string, is_number, is_null, is_object, are_empty, are_property,
}
use video.Amf0.Written.{encode_all, decode_all-encode_all}
use video.Rtmp.Messages.{command_amf0}
use video.Rtmp.Chunk.Define.{Chunk, new}
use video.Rtmp.Chunk.Encoder.{ChunkEncoder}
use video.Rtmp.Chunk.Decoder.{ChunkDecoder, max_partial_chunk_size}
use video.Rtmp.Chunk.ReadChunk.{complete, read_chunk}
use video.Rtmp.Chunk.RoundTrip.{received, after, read_chunk-write_chunk}
use video.Rtmp.Control.RoundTrip.{IsReady, new-Accepts}
use video.Rtmp.Commands.{
  command_stream, on_status_name, level_key, code_key, description_key, write_stream_command,
  write_on_status, sent,
}

ok-injective : {A : Type 0} {a b : A} {r : Result Amf0WriteError A} → r ≡ ok a → r ≡ ok b → a ≡ b
ok-injective e e' = cc

>>=-ok :
    {E A B : Type 0} (r : Result E A) (k : A → Result E B) → (r >>= k) ≡ ((r >>= λ a. ok a) >>= k)
>>=-ok (ok a) k = refl
>>=-ok (err e) k = refl
>>=-ok panic k = refl
>>=-ok stuck k = refl

-- The values of the status command.
abbrev pub on_status_values : ℕ → Str → Str → Str → List Amf0Value
on_status_values transaction_id level code description =
    Amf0Value.string on_status_name
    ∷ Amf0Value.number transaction_id
    ∷ Amf0Value.null
    ∷ Amf0Value.object (
        property level_key (Amf0Value.string level) (
          property code_key (Amf0Value.string code)
            (property description_key (Amf0Value.string description) empty)))
    ∷ []

module _ (bo : ByteOrder) where
  -- What a decoder receives of the values that a command encodes.
  Receives : ChunkDecoder → Result Amf0WriteError (List ℕ) → List Amf0Value → List ℕ → Type 0
  Receives d written vs tail =
      (bs : List ℕ) × (d' : ChunkDecoder) × (c : Chunk) × (written ≡ ok bs)
      × (read_chunk bo d (bs ++ tail) ≡ (d', tail, complete c))
      × (decode_all bo c.payload ≡ ok vs)

  write_stream_command-received :
      (d : ChunkDecoder) (vs : List Amf0Value) (w tail : List ℕ)
      → IsReady command_stream d
      → All IsEncodable vs
      → encode_all bo [] vs ≡ ok w
      → length w ≤ max_partial_chunk_size
      → Receives d (write_stream_command bo (record { chunk_size = d.max_chunk_size }) w) vs tail
  unfolding Receives write_stream_command new
  write_stream_command-received d vs w tail r h e le =
      let command : Chunk = new command_stream 0 command_amf0 0 w in
      let (bs, written, reads) = read_chunk-write_chunk bo d command tail (
        new-Accepts d command_stream command_amf0 w
          (record { low = omega arith; high = omega arith }) le r) in
      let (w', e', decoded) = decode_all-encode_all bo vs h in
      let same : w' ≡ w = ok-injective e' e in
      (
        bs,
        after d command,
        received d.max_chunk_size command,
        ap sent written,
        reads,
        subst (λ t. decode_all bo t ≡ ok vs) same decoded,
      )

  write_on_status-encoded :
      (e : ChunkEncoder) (transaction_id : ℕ) (level code description : Str)
      → write_on_status bo e transaction_id level code description ≡ (
          encode_all bo [] (on_status_values transaction_id level code description)
          >>= write_stream_command bo e)
  unfolding write_on_status encode_all encode encode_object encode_string video.Amf0.Define.to_u8
  write_on_status-encoded e transaction_id level code description =
      >>=-ok
        (encode bo
          (encode_null bo (encode_number bo ((2 ∷ bo.to_be 2 8) ++ on_status_name) transaction_id))
          (Amf0Value.object (
            property level_key (Amf0Value.string level) (
              property code_key (Amf0Value.string code)
                (property description_key (Amf0Value.string description) empty)))))
        (write_stream_command bo e)

  on_status_values-IsEncodable :
      (transaction_id : ℕ) (level code description : Str)
      → transaction_id < 2 ^ 64
      → IsShort level
      → IsShort code
      → IsShort description
      → All IsEncodable (on_status_values transaction_id level code description)
  unfolding valid_utf8
  on_status_values-IsEncodable transaction_id level code description h l c d = (
    is_string (record { fits = omega arith; utf8 = refl }),
    (
      is_number h,
      (
        is_null,
        (
          is_object (
              are_property (record { fits = omega arith; utf8 = refl }) (is_string l)
                (are_property (record { fits = omega arith; utf8 = refl }) (is_string c)
                  (are_property (record { fits = omega arith; utf8 = refl }) (is_string d)
                    are_empty))),
          tt,
        ),
      ),
    ),
  )

  -- The status command with valid UTF-8 strings of at most 65535 bytes and a number of 64 bits,
  -- whose encoding has at most 10 MiB, is written without an error; a decoder of the encoder's
  -- chunk size that has room on the command stream receives one message from it and leaves the
  -- bytes behind it, and the message decodes to the command's name, its number, null and the
  -- object of level, code and description.
  pub decode_all-write_on_status :
      (d : ChunkDecoder) (transaction_id : ℕ) (level code description : Str) (w tail : List ℕ)
      → IsReady command_stream d
      → transaction_id < 2 ^ 64
      → IsShort level
      → IsShort code
      → IsShort description
      → encode_all bo [] (on_status_values transaction_id level code description) ≡ ok w
      → length w ≤ max_partial_chunk_size
      → (bs : List ℕ) × (d' : ChunkDecoder) × (c : Chunk) × (write_on_status bo
            (record { chunk_size = d.max_chunk_size })
            transaction_id
            level
            code
            description
          ≡ ok bs)
        × (read_chunk bo d (bs ++ tail) ≡ (d', tail, complete c))
        × (decode_all bo c.payload ≡ ok (on_status_values transaction_id level code description))
  unfolding Receives
  decode_all-write_on_status d transaction_id level code description w tail r h l c s e le =
      let (bs, d', ch, written, reads, decoded) =
        write_stream_command-received d (on_status_values transaction_id level code description) w
          tail r (on_status_values-IsEncodable transaction_id level code description h l c s) e
          le in
      (
        bs,
        d',
        ch,
        write_on_status-encoded _ transaction_id level code description ∙ rw e written,
        reads,
        decoded,
      )

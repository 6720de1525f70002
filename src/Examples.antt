-- ===== src/Examples.antt =====
-- The theorems at concrete inputs, and runs of the definitions.
mod Streams
mod Codecs
mod Commands
use video.Base.{
  ℕ, zero, suc, ◌+◌, ◌*◌, ◌^◌, ◌%◌, ◌-◌, ◌≤◌, ◌<◌, ◌≡◌, ◌≢◌, refl, arith, Bool, true, false, List,
  [], ◌∷◌, ◌++◌, map, Option, none, some, Result, ok, err, panic, stuck, ◌>>=◌, Yields, length, All,
}
use video.Base.Int.{ℤ, pos, negsuc}
use video.Base.Maps.{Map, get, insert, nat_eq, pair_eq, AllValues}
use video.Utf8.{valid_utf8}
use video.Io.{Io, Cursor, remaining, unexpected_eof, invalid_data}
use video.ByteOrder.Reference.{positional}
use video.Rtmp.Messages.{audio_data, set_chunk_size}
use video.Rtmp.Chunk.Define.{Chunk, ChunkMessageHeader, type0, type3}
use video.Rtmp.Chunk.Define
use video.Rtmp.Chunk.Encoder.{write_chunk, write_basic_header, write_message_header}
use video.Rtmp.Chunk.Decoder.{ChunkDecoder, default, update_max_chunk_size, read_header, read_type0}
use video.Rtmp.Chunk.ReadChunk.{Outcome, complete, out_of_fuel, read_chunk}
use video.Rtmp.Chunk.Headers.{
  IsCsid, IsWritable, read_back, read_header-write_basic_header, read_type0-write_message_header,
}
use video.Rtmp.Chunk.RoundTrip.{Accepts, received, after, read_chunk-write_chunk}
use video.Rtmp.Chunk.Bounds.{
  IsBounded, default-IsBounded, update_max_chunk_size-IsBounded, read_chunk-IsBounded,
}
use video.Rtmp.Chunk.Ends.{read_chunk-ends}

-- A message of five bytes at a chunk size of two: three chunks.
abbrev sample : Chunk
sample = record {
  basic_header = record { format = type0; chunk_stream_id = 70 };
  message_header = record {
    timestamp = 0x1000000;
    msg_length = 5;
    msg_type_id = audio_data;
    msg_stream_id = 1;
    was_extended_timestamp = false;
  };
  payload = 1 ∷ 2 ∷ 3 ∷ 4 ∷ 5 ∷ [];
}

abbrev small_decoder : ChunkDecoder
small_decoder = record default { max_chunk_size = 2 }

sample-IsWritable : IsWritable sample.message_header
sample-IsWritable = record { timestamp = omega arith; length = omega arith; stream = omega arith }

seventy : IsCsid 70
seventy = record { low = omega arith; high = omega arith }

sample-Accepts : Accepts small_decoder sample
unfolding insert get
sample-Accepts = record {
  header = sample-IsWritable;
  csid = seventy;
  size = refl;
  nonzero = omega arith;
  room = omega arith;
  slot = omega arith;
  fresh = refl;
}

read_chunk-write_chunk_example :
    (bs : List ℕ) × (write_chunk positional (record { chunk_size = 2 }) sample ≡ some bs)
    × (read_chunk positional small_decoder (bs ++ 7 ∷ [])
        ≡ (after small_decoder sample, 7 ∷ [], complete (received 2 sample)))
read_chunk-write_chunk_example =
    read_chunk-write_chunk positional small_decoder sample (7 ∷ []) sample-Accepts

read_chunk-IsBounded_example : IsBounded ((read_chunk positional default (2 ∷ 0 ∷ 0 ∷ [])).0)
read_chunk-IsBounded_example =
    read_chunk-IsBounded positional default (2 ∷ 0 ∷ 0 ∷ []) default-IsBounded

read_chunk-ends_example :
    ((read_chunk positional default (194 ∷ 0 ∷ [])).2 ≢ out_of_fuel)
    × (length ((read_chunk positional default (194 ∷ 0 ∷ [])).1) ≤ 2)
read_chunk-ends_example = read_chunk-ends positional default (194 ∷ 0 ∷ [])

update_max_chunk_size-IsBounded_example : IsBounded ((update_max_chunk_size 4096 default).0)
update_max_chunk_size-IsBounded_example =
    update_max_chunk_size-IsBounded 4096 default default-IsBounded

read_header-write_basic_header_example :
    read_header (write_basic_header type3 70 ++ 9 ∷ [])
    ≡ ok (record { format = type3; chunk_stream_id = 70 }, 9 ∷ [])
read_header-write_basic_header_example = read_header-write_basic_header type3 70 (9 ∷ []) seventy

read_type0-write_message_header_example :
    read_type0 positional (write_message_header positional sample.message_header ++ 9 ∷ [])
    ≡ ok (read_back sample.message_header, 9 ∷ [])
read_type0-write_message_header_example =
    read_type0-write_message_header positional sample.message_header (9 ∷ []) sample-IsWritable

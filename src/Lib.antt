-- ===== src/Lib.antt =====
-- Verification of the byte-level core of this repository: the RTMP chunk stream with the messages
-- that go over it, the AMF0 values in them, the bit readers and writers of the codec crates, the
-- configuration records of the video codecs, and FLV files.
--
-- How the parts interact. A command of the server (crates/rtmp/src/netconnection and netstream)
-- encodes AMF0 values (crates/amf0) into a payload, which the chunk encoder cuts into chunks;
-- the chunk decoder of the peer puts the chunks together again, and the payload is decoded. Control
-- messages go the same way without AMF0. The codec parsers read bits (crates/bytes-util), numbers in
-- exponential Golomb code (crates/expgolomb) and the AAC configuration (crates/aac) from byte strings.
-- An FLV file (crates/flv) is a header and tags; a tag holds audio, script data in AMF0, or video, which
-- may begin with a configuration record of H.264, H.265 or AV1 (crates/h264, crates/h265, crates/av1).
--
-- Files, and the code they model:
--   Base, Base/*         shared names, tests, lists, results, integers and maps; no code of its own
--   Io                   the parts of std::io that the crates use: error kinds and a Cursor
--   ByteOrder            the byteorder crate, as a record of its functions with their documented laws;
--                        ByteOrder/Reference has an instance, and ByteOrder/Laws what readers do
--   Utf8                 the validity test of std::str::from_utf8, by the table of well-formed bytes
--   BytesUtil            crates/bytes-util/src: BitReader is bit_read.rs, BitWriter is bit_write.rs and
--                        BytesCursor is bytes_cursor.rs; the View modules give the abstract view of a
--                        reader (the bits that are left) and of a writer (the bits written);
--                        BitReader/Seek is the seeking of bit_read.rs. Parser and Writer chain reads and
--                        writes in the order of a function's statements; Parser/Reads, Takes and Gives
--                        and Writer/Puts and Writes say what such a chain does
--   ExpGolomb            crates/expgolomb/src/lib.rs
--   Aac                  crates/aac/src/lib.rs
--   Flv                  crates/flv/src: Flv itself is header.rs, Audio is audio.rs and aac.rs, Script is
--                        script.rs, Video is video.rs, avc.rs, av1.rs and hevc.rs, and Tag is tag.rs and
--                        file.rs
--   Av1                  crates/av1/src: Av1 itself is obu/mod.rs and read_leb128, Sequence, Color and Parse
--                        are obu/seq.rs and read_uvlc, Leb128 is the encoding of read_leb128, and Config and Config/Mux are config.rs
--   H264, H265           crates/h264/src/config.rs and crates/h265/src/config.rs
--   Amf0                 crates/amf0/src: Define is define.rs and errors.rs, Encode is encode.rs, Decode
--                        is decode.rs; Layout is the format on its own, and Written and Total relate
--                        the code to it
--   Rtmp/Messages        crates/rtmp/src/messages/define.rs
--   Rtmp/Chunk           crates/rtmp/src/chunk: Define is define.rs and errors.rs, Encoder is encoder.rs,
--                        Decoder and ReadChunk are decoder.rs; Headers, Frames and RoundTrip relate
--                        the two sides, Bounds and Ends are about the decoder on any bytes
--   Rtmp/Control         crates/rtmp/src/protocol_control_messages and user_control_messages
--   Rtmp/Commands        crates/rtmp/src/netconnection/writer.rs and netstream/writer.rs
--   Examples             runs and instances
--
-- State and operations. A reader of bytes is the list of the bytes behind its cursor, and an operation
-- returns its result with the new state, or an error; `panic` stands for a panic of the program and
-- `stuck` for a loop that was given too little fuel. A function has the name that it has in the
-- program. The chunk decoder is a record of its three fields; a HashMap is an association list in which
-- a key stands once. `read_chunk` is a loop of `parse` (everything up to `split_to`) and `accept`
-- (everything behind it).
--
-- Fuel. `read_chunk` gets one round more than the buffer has bytes, and a round that goes on takes the
-- byte of a basic header at least. `write_payload` gets as many rounds as the payload has bytes; with a
-- chunk size of 0 the program's loop has no end, and the model returns no bytes. The recursion of the
-- AMF0 decoder gets one level more than there are bytes, and `read_exp_golomb` one round more than there
-- are bits left. The loop over the tags of an FLV file gets one round per byte behind the header, and
-- a round takes fifteen at least.
--
-- Numbers. Integers of the program are natural numbers with their wrap-around written out, as in a
-- release build; usize has 64 bits. An f64 is the number of its 64 bits, since the crates only move it.
--
-- Not modelled: I/O errors other than the end of the input, what a writer has written when it fails, the
-- texts of errors, and the writer panics of the byteorder crate on numbers that are too wide. The
-- sequence parameter sets of H.264 and H.265 are not modelled. The crates that are left out,
-- asynchronous services, MP4 and the transmuxer, bindings and macros, have no file here.
pub mod Base
pub mod Io
pub mod ByteOrder
pub mod Utf8
pub mod Amf0
pub mod Rtmp
pub mod BytesUtil
pub mod ExpGolomb
pub mod Aac
pub mod Examples
pub mod Flv
pub mod Av1
pub mod H264
pub mod H265

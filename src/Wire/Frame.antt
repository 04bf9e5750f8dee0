-- ===== src/Wire/Frame.antt =====
-- core/stream_frame.go: the 13-byte header of a stream frame. A frame type is its byte.
pub mod Laws
pub mod Examples
use smp3_multipath_kit_publi.Base.{
  ℕ, ◌^◌, ◌<◌, Bool, true, false, ◌||◌, List, [], ◌∷◌, ◌++◌, ltb, leb, ◌==◌, ◌!=◌, if◌then◌else◌,
  length, drop, get_or,
}
use smp3_multipath_kit_publi.Wire.Result.{
  Result, ok, err, ◌>>=◌, ◌>>◌, fail_if, short_buffer, unknown_frame_type, invalid_control_size,
  invalid_frame_length,
}
use smp3_multipath_kit_publi.Wire.FrameType
use smp3_multipath_kit_publi.Wire.FrameType.{
  stream_rtt_message_size, stream_drain_control_message_size,
}
use smp3_multipath_kit_publi.Wire.Bytes.{be, be_value, read_full, slice, row}

abbrev pub stream_frame_header_size : ℕ
stream_frame_header_size = 13

abbrev pub max_stream_frame_payload : ℕ
max_stream_frame_payload = 2 ^ 20

pub record StreamFrameHeader : Type 0 where
  pub kind : ℕ  -- uint8
  pub value : ℕ  -- uint64
  pub size : ℕ  -- uint32

-- The `switch header.Type`, with the length tests of each case.
pub validate_stream_frame_header : StreamFrameHeader → Result (Unit {0})
validate_stream_frame_header header =
    if header.kind == FrameType.data_frame
    then fail_if (header.size == 0 || ltb max_stream_frame_payload header.size) invalid_frame_length
    else if header.kind == FrameType.activate
        || header.kind == FrameType.ack
        || header.kind == FrameType.close
    then fail_if (header.size != 0) invalid_control_size
    else if header.kind == FrameType.path_rtt
    then fail_if (header.value != 0 || header.size != stream_rtt_message_size) invalid_control_size
    else if header.kind == FrameType.drain
    then fail_if (header.value != 0 || header.size != stream_drain_control_message_size)
        invalid_control_size
    else err unknown_frame_type

abbrev pub stream_frame_fields : StreamFrameHeader → List (List ℕ)
stream_frame_fields header = (header.kind ∷ []) ∷ be 8 header.value ∷ be 4 header.size ∷ []

-- The buffer after the call: its first 13 bytes are overwritten, the others stay.
pub encode_stream_frame_header : List ℕ → StreamFrameHeader → Result (List ℕ)
encode_stream_frame_header dst header = do
  fail_if (ltb (length dst) stream_frame_header_size) short_buffer
  validate_stream_frame_header header
  ok (row (stream_frame_fields header) ++ drop stream_frame_header_size dst)

-- The header that the 13 bytes of `wire` say.
pub parse_stream_frame_header : List ℕ → StreamFrameHeader
parse_stream_frame_header wire = record {
  kind = get_or wire 0 0;
  value = be_value (slice 1 9 wire);
  size = be_value (slice 9 stream_frame_header_size wire);
}

-- The header, and the bytes of the carrier behind it.
pub read_stream_frame_header : List ℕ → Result (StreamFrameHeader × List ℕ)
read_stream_frame_header reader = do
  (wire, rest) ← read_full stream_frame_header_size reader
  let header = parse_stream_frame_header wire
  validate_stream_frame_header header
  ok (header, rest)

-- Fields that fit Go's types.
pub record IsHeader (header : StreamFrameHeader) : Type 0 where
  pub kind_fits : header.kind < 256
  pub value_fits : header.value < 2 ^ 64
  pub size_fits : header.size < 2 ^ 32

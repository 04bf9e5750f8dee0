-- ===== src/Wire/Datagram.antt =====
-- core/datagram_engine.go, WriteDatagramFrame and ReadDatagramFrame: one datagram in a frame. The
-- writer's bytes are what reaches the carrier when no write fails.
pub mod Laws
pub mod Accept
pub mod Examples
use smp3_multipath_kit_publi.Base.{
  ◌∷◌, List, ◌!=◌, ◌+◌, ◌++◌, drop, length, get_or, ℕ, [], ◌==◌, ltb, ◌||◌,
}
use smp3_multipath_kit_publi.Wire.Result.{
  Result, ok, err, ◌>>=◌, ◌>>◌, fail_if, datagram_address, datagram_too_large, datagram_type,
  datagram_length, datagram_address_length, datagram_exceeds_maximum,
}
use smp3_multipath_kit_publi.Wire.Bytes.{be, be_value, read_full, slice, row}
use smp3_multipath_kit_publi.Wire.Frame.{stream_frame_header_size, max_stream_frame_payload}

abbrev pub datagram_frame_type : ℕ
datagram_frame_type = 5

abbrev pub max_datagram_address_size : ℕ
max_datagram_address_size = 512

pub record DatagramFrame : Type 0 where
  pub id : ℕ  -- uint64
  pub address : List ℕ
  pub body : List ℕ

abbrev pub datagram_header : ℕ → ℕ → List (List ℕ)
datagram_header id payload_length = (datagram_frame_type ∷ []) ∷ be 8 id ∷ be 4 payload_length ∷ []

pub write_datagram_frame : DatagramFrame → Result (List ℕ)
write_datagram_frame f = do
  fail_if (length f.address == 0 || ltb max_datagram_address_size (length f.address))
      datagram_address
  let payload_length : ℕ = 2 + length f.address + length f.body
  fail_if (ltb max_stream_frame_payload payload_length) datagram_too_large
  ok (
      row (datagram_header f.id payload_length)
      ++ (be 2 (length f.address) ++ (f.address ++ f.body)))

-- The tests of the payload, and the datagram in it.
pub read_datagram_payload : ℕ → ℕ → List ℕ → Result DatagramFrame
read_datagram_payload max_datagram id payload = do
  let address_length : ℕ = be_value (slice 0 2 payload)
  fail_if
      (address_length == 0
        || ltb max_datagram_address_size address_length
        || ltb (length payload) (2 + address_length))
      datagram_address_length
  let body : List ℕ = drop (2 + address_length) payload
  fail_if (ltb max_datagram (length body)) datagram_exceeds_maximum
  ok (record { id = id; address = slice 2 (2 + address_length) payload; body = body })

-- The datagram, and the bytes of the carrier behind its frame.
pub read_datagram_frame : ℕ → List ℕ → Result (DatagramFrame × List ℕ)
unfolding read_datagram_payload
read_datagram_frame max_datagram reader = do
  (header, behind) ← read_full stream_frame_header_size reader
  fail_if (get_or header 0 0 != datagram_frame_type) datagram_type
  let payload_length : ℕ = be_value (slice 9 13 header)
  fail_if
      (ltb payload_length 3
        || ltb (2 + max_datagram_address_size + max_datagram) payload_length
        || ltb max_stream_frame_payload payload_length)
      datagram_length
  (payload, rest) ← read_full payload_length behind
  frame ← read_datagram_payload max_datagram (be_value (slice 1 9 header)) payload
  ok (frame, rest)

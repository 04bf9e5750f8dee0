-- ===== src/Wire/Frame/Laws.antt =====
-- core/stream_frame.go: the header's encoder, validator and reader together.
use smp3_multipath_kit_publi.Base.{
  ℕ, ◌≤◌, ◌≡◌, refl, ◌⊎◌, ◌↔◌, List, [], ◌∷◌, ◌++◌, append_assoc, arith, length, drop,
  length-append,
}
use smp3_multipath_kit_publi.Wire.Result.{ok, Result-cases}
use smp3_multipath_kit_publi.Wire.Bytes.{be, length-be, be_field, read_full-append, row}
use smp3_multipath_kit_publi.Wire.FrameType
use smp3_multipath_kit_publi.Wire.Frame.{
  StreamFrameHeader, IsHeader, stream_frame_fields, validate_stream_frame_header,
  encode_stream_frame_header, parse_stream_frame_header, read_stream_frame_header,
}

length-stream_frame_fields :
    (header : StreamFrameHeader) → length (row (stream_frame_fields header)) ≡ 13
length-stream_frame_fields header = omega (
  arith,
  length-append (be 8 header.value) (be 4 header.size ++ []),
  length-append (be 4 header.size) [],
  length-be 8 header.value,
  length-be 4 header.size,
)

-- The bytes 1 to 8 and 9 to 12 hold the value and the length.
parse-row :
    (header : StreamFrameHeader)
    → IsHeader header
    → parse_stream_frame_header (row (stream_frame_fields header)) ≡ header
unfolding parse_stream_frame_header
parse-row header w =
    let before : List (List ℕ) = (header.kind ∷ []) ∷ [] in
    ground (
      arith,
      be_field 8 header.value before (be 4 header.size ∷ []) 1 9 (omega arith) refl refl,
      be_field 4 header.size (before ++ (be 8 header.value ∷ [])) [] 9 13 (omega arith)
          (omega (arith, length-be 8 header.value)) refl,
    )

read-row :
    (header : StreamFrameHeader) (rest : List ℕ)
    → IsHeader header
    → validate_stream_frame_header header ≡ ok tt
    → read_stream_frame_header (row (stream_frame_fields header) ++ rest) ≡ ok (header, rest)
unfolding read_stream_frame_header
read-row header rest w valid = rw (
  read_full-append 13 (row (stream_frame_fields header)) rest (length-stream_frame_fields header),
  parse-row header w,
  valid,
)

encode→row :
    (header : StreamFrameHeader) (dst : List ℕ) {buffer : List ℕ}
    → encode_stream_frame_header dst header ≡ ok buffer
    → (13 ≤ length dst)
      × (validate_stream_frame_header header ≡ ok tt)
      × (buffer ≡ row (stream_frame_fields header) ++ drop 13 dst)
unfolding encode_stream_frame_header
encode→row header dst e = ground (arith, Result-cases (validate_stream_frame_header header))

-- A header whose fields fit Go's types, which `EncodeStreamFrameHeader` accepts and writes to the
-- front of a buffer, is what the reader gives back; it leaves the bytes of the buffer behind the
-- header and those that follow the buffer on the carrier.
pub read-encode :
    (header : StreamFrameHeader) (dst stream : List ℕ) {buffer : List ℕ}
    → IsHeader header
    → encode_stream_frame_header dst header ≡ ok buffer
    → read_stream_frame_header (buffer ++ stream) ≡ ok (header, drop 13 dst ++ stream)
read-encode header dst stream w e =
    let (fits, valid, same) = encode→row header dst e in
    rw (same, append_assoc (row (stream_frame_fields header)) (drop 13 dst) stream)
      (read-row header (drop 13 dst ++ stream) w valid)

-- What a header may say: DATA carries 1 byte to 1 MiB, ACTIVATE, ACK and CLOSE carry nothing, and
-- the two control messages have their fixed size and value 0.
abbrev pub Allowed : StreamFrameHeader → Type 0
Allowed header =
    ((header.kind ≡ FrameType.data_frame) × (1 ≤ header.size) × (header.size ≤ 1048576))
    ⊎ (((header.kind ≡ FrameType.activate)
          ⊎ (header.kind ≡ FrameType.ack)
          ⊎ (header.kind ≡ FrameType.close))
        × (header.size ≡ 0))
    ⊎ (((header.kind ≡ FrameType.path_rtt) × (header.size ≡ 68)
          ⊎ (header.kind ≡ FrameType.drain) × (header.size ≡ 129))
        × (header.value ≡ 0))

-- `validateStreamFrameHeader` accepts a header exactly when it is DATA of 1 byte to 1 MiB, or
-- ACTIVATE, ACK or CLOSE of length 0, or a path RTT or drain message of its fixed length and value 0.
pub validate_iff_Allowed :
    (header : StreamFrameHeader) → (validate_stream_frame_header header ≡ ok tt) ↔ Allowed header
unfolding validate_stream_frame_header
validate_iff_Allowed header = (λ h. ground arith, λ h. ground arith)

-- ===== src/Path/Rtt/Accept.antt =====
-- core/stream_path_protocol.go: what the decoder of probes and echoes accepts.
use smp3_multipath_kit_publi.Wire.Canonical.{slice-byte, slice-join, be-slice}
use smp3_multipath_kit_publi.Path.Rtt.{
  rtt_message_magic, StreamRttMessage, validate_rtt_message, binding_of, rtt_message_mac,
  rtt_message_v1, decode_rtt_message, encode_rtt_message, rtt_fields, bad_rtt_frame, bad_rtt_fields,
}
use smp3_multipath_kit_publi.Base.{
  ◌+◌, get_or, ◌≡◌, List, ◌++◌, drop, ℕ, length, take, arith, All, ◌∷◌, [], ◌<◌, refl, ap,
  append-nil, ◌∙◌, take-append-drop, sym, false,
}
use smp3_multipath_kit_publi.Path.{validate_binding, StreamPathBinding, ok}
use smp3_multipath_kit_publi.Wire.Bytes.{be, row, slice, be_value, IsByte, bytes_equal→eq}

-- The header of a wire message, read field by field, is its first 36 bytes.
header-read :
    (wire : List ℕ)
    → All IsByte wire
    → length wire ≡ 68
    → take 8 wire ≡ rtt_message_magic
    → get_or wire 8 0 ≡ 1
    → row (
        rtt_message_magic
        ∷ (rtt_message_v1 ∷ get_or wire 9 0 ∷ get_or wire 10 0 ∷ get_or wire 11 0 ∷ [])
        ∷ slice 12 28 wire
        ∷ be 8 (be_value (slice 28 36 wire))
        ∷ [])
      ≡ take 36 wire
unfolding slice
header-read wire bytes size magic version =
    let byte : (i : ℕ) → i < 36 → get_or wire i 0 ∷ slice (i + 1) 36 wire ≡ slice i 36 wire =
      λ i inside. slice-byte i (i + 1) 36 wire refl inside (omega (arith, size)) in
    let tail = slice-join 12 28 36 wire (omega arith) (omega arith) in
    let whole : take 8 wire ++ slice 8 36 wire ≡ take 36 wire =
      slice-join 0 8 36 wire (omega arith) (omega arith) in
    rw
      (
        be-slice 8 28 36 wire bytes refl (omega (arith, size)),
        append-nil (slice 28 36 wire),
        tail,
        byte 11 (omega arith),
        byte 10 (omega arith),
        byte 9 (omega arith),
      )
      (ap (λ v. rtt_message_magic ++ (v ∷ slice 9 36 wire)) (sym version)
        ∙ ap (◌++◌ rtt_message_magic) (byte 8 (omega arith))
        ∙ ap (λ m. m ++ slice 8 36 wire) (sym magic)
        ∙ whole)

frame→facts :
    (wire : List ℕ)
    → bad_rtt_frame wire ≡ false
    → (length wire ≡ 68) × (take 8 wire ≡ rtt_message_magic) × (get_or wire 8 0 ≡ 1)
unfolding bad_rtt_frame
frame→facts wire e = ground (arith, bytes_equal→eq (take 8 wire) rtt_message_magic)

module _ (mac : List ℕ → List ℕ → List ℕ) where
  decode→facts :
      (wire key : List ℕ) (expected : StreamPathBinding) {message : StreamRttMessage}
      → decode_rtt_message mac wire key expected ≡ ok message
      → (bad_rtt_frame wire ≡ false)
        × (drop 36 wire ≡ rtt_message_mac mac key (take 36 wire))
        × (validate_rtt_message message ≡ ok tt)
        × (binding_of message.identity ≡ expected)
        × (message.kind ≡ get_or wire 9 0)
        × (message.identity.direction ≡ get_or wire 10 0)
        × (message.identity.leg_id ≡ get_or wire 11 0)
        × (message.identity.session_id ≡ slice 12 28 wire)
        × (message.token ≡ be_value (slice 28 36 wire))
  unfolding decode_rtt_message validate_rtt_message bad_rtt_fields validate_binding
  decode→facts wire key expected {message} e = ground (
    arith,
    bytes_equal→eq (drop 36 wire) (rtt_message_mac mac key (take 36 wire)),
    bytes_equal→eq (slice 12 28 wire) expected.session_id,
  )

  -- What the decoder of probes and echoes accepts, on a wire of bytes, is bound to the carrier that it
  -- came in on, and is byte for byte what the encoder writes for that message under the same key.
  pub decode_rtt_message-canonical :
      (wire key : List ℕ) (expected : StreamPathBinding) {message : StreamRttMessage}
      → All IsByte wire
      → decode_rtt_message mac wire key expected ≡ ok message
      → (binding_of message.identity ≡ expected) × (encode_rtt_message mac message key ≡ ok wire)
  unfolding encode_rtt_message
  decode_rtt_message-canonical wire key expected {message} bytes e =
      let (framed, signed, valid, bound, k, d, l, s, t) = decode→facts wire key expected e in
      let (size, magic, version) = frame→facts wire framed in
      let fields = header-read wire bytes size magic version in
      let same : row (rtt_fields message) ≡ take 36 wire = rw (k, d, l, s, t) fields in
      (
        bound,
        rw valid (
            ap (λ p. ok (p ++ rtt_message_mac mac key p)) same
            ∙ rw (← signed) (ap ok (take-append-drop 36 wire))),
      )

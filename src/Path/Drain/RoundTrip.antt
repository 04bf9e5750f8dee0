-- ===== src/Path/Drain/RoundTrip.antt =====
-- core/stream_path_protocol.go: a drain message, written and read back.
use smp3_multipath_kit_publi.Path.{coordinated_drain_enabled, StreamPathAuth, ok}
use smp3_multipath_kit_publi.Path.Drain.{
  drain_fields, drain_message_at, StreamDrainMessage, drain_control_magic, be, drain_message_label,
  drain_message_mac, decode_drain_message, valid_drain_message, bad_drain_frame,
  encode_drain_message, bad_drain_fields,
}
use smp3_multipath_kit_publi.Base.{
  arith, [], ℕ, List, refl, ◌<◌, ◌∷◌, ◌≡◌, ◌++◌, length, ◌^◌, subst, take, take-append,
  length-append, true, drop-append,
}
use smp3_multipath_kit_publi.Wire.Bytes.{
  row, length-row, be_field_tagged, length-be, slice-row_tagged, total-append, get_or-row_tagged,
  total, bytes_equal, bytes_equal_refl,
}

-- Fields that fit Go's types.
pub record IsDrainMessage (message : StreamDrainMessage) : Type 0 where
  pub session_size : length message.session_id ≡ 16
  pub generation_fits : message.generation < 2 ^ 64
  pub binding_size : length message.target_binding ≡ 16
  pub operation_size : length message.operation_id ≡ 16
  pub counter_fits : message.counter < 2 ^ 64
  pub acked_fits : message.acked_next < 2 ^ 64
  pub frames_fit : message.outstanding_frames < 2 ^ 32
  pub bytes_fit : message.outstanding_bytes < 2 ^ 64

module _ (message : StreamDrainMessage) (w : IsDrainMessage message) (tag : List ℕ) where
  abbrev prefix : List ℕ
  prefix = row (drain_fields message)

  -- The sizes of the fields of variable content.
  length-prefix : length prefix ≡ 97
  length-prefix = omega (
    arith,
    length-row (drain_fields message),
    w.session_size,
    w.binding_size,
    w.operation_size,
    length-be 8 message.generation,
    length-be 8 message.counter,
    length-be 8 message.acked_next,
    length-be 4 message.outstanding_frames,
    length-be 8 message.outstanding_bytes,
  )

  abbrev head : List (List ℕ)
  head = drain_control_magic ∷ (1 ∷ message.kind ∷ message.sender_role ∷ 0 ∷ []) ∷ []

  abbrev up_to_leg : List (List ℕ)
  up_to_leg = head ++ (message.session_id ∷ (message.target_leg ∷ []) ∷ [])

  abbrev up_to_operation : List (List ℕ)
  up_to_operation =
      up_to_leg ++ (be 8 message.generation ∷ message.target_binding ∷ message.operation_id ∷ [])

  abbrev up_to_acked : List (List ℕ)
  up_to_acked = up_to_operation ++ (be 8 message.counter ∷ be 8 message.acked_next ∷ [])

  at_leg : total up_to_leg ≡ 29
  at_leg = omega (arith, w.session_size)

  at_operation : total up_to_operation ≡ 69
  at_operation =
      omega
        (arith, w.session_size, w.binding_size, w.operation_size, length-be 8 message.generation)

  at_acked : total up_to_acked ≡ 85
  at_acked = omega (
    arith,
    at_operation,
    total-append up_to_operation (be 8 message.counter ∷ be 8 message.acked_next ∷ []),
    length-be 8 message.counter,
    length-be 8 message.acked_next,
  )

  drain_message_at-prefix : drain_message_at (prefix ++ tag) ≡ message
  unfolding drain_message_at
  drain_message_at-prefix =
      let g = length-be 8 message.generation in
      let c = length-be 8 message.counter in
      rw
        (
          slice-row_tagged head message.session_id _ tag 12 28 refl (omega (arith, w.session_size)),
          get_or-row_tagged (head ++ (message.session_id ∷ [])) (message.target_leg ∷ []) _ tag 28
              (omega (arith, w.session_size)) (omega arith),
          be_field_tagged 8 message.generation up_to_leg _ tag 29 37 w.generation_fits at_leg refl,
          slice-row_tagged (up_to_leg ++ (be 8 message.generation ∷ [])) message.target_binding _
              tag 37 53 (omega (arith, w.session_size, g)) (omega (arith, w.binding_size)),
          slice-row_tagged (up_to_leg ++ (be 8 message.generation ∷ message.target_binding ∷ []))
              message.operation_id _ tag 53 69 (omega (arith, w.session_size, g, w.binding_size))
              (omega (arith, w.operation_size)),
          be_field_tagged 8 message.counter up_to_operation _ tag 69 77 w.counter_fits at_operation
              refl,
          be_field_tagged 8 message.acked_next (up_to_operation ++ (be 8 message.counter ∷ [])) _
              tag 77 85 w.acked_fits
              (omega
                (arith, at_operation, total-append up_to_operation (be 8 message.counter ∷ []), c))
              refl,
          be_field_tagged 4 message.outstanding_frames up_to_acked _ tag 85 89 w.frames_fit at_acked
              refl,
          be_field_tagged 8 message.outstanding_bytes
              (up_to_acked ++ (be 4 message.outstanding_frames ∷ [])) [] tag 89 97 w.bytes_fit
              (omega (
                arith,
                at_acked,
                total-append up_to_acked (be 4 message.outstanding_frames ∷ []),
                length-be 4 message.outstanding_frames,
              ))
              refl,
        )
        refl

module _ (mac : List ℕ → List ℕ → List ℕ)
    (mac_size : (key text : List ℕ) → length (mac key text) ≡ 32) where
  encode→facts :
      (a : StreamPathAuth) (message : StreamDrainMessage) {wire : List ℕ}
      → encode_drain_message mac a message ≡ ok wire
      → (coordinated_drain_enabled a ≡ true)
        × (bytes_equal message.session_id a.session_id ≡ true)
        × (valid_drain_message message ≡ true)
        × (row (drain_fields message)
              ++ drain_message_mac mac a.drain_key (row (drain_fields message))
            ≡ wire)
  unfolding encode_drain_message
  encode→facts a message e = ground arith

  decode-prefix :
      (a : StreamPathAuth) (message : StreamDrainMessage)
      → IsDrainMessage message
      → coordinated_drain_enabled a ≡ true
      → bytes_equal message.session_id a.session_id ≡ true
      → valid_drain_message message ≡ true
      → decode_drain_message mac a
          (row (drain_fields message)
            ++ drain_message_mac mac a.drain_key (row (drain_fields message)))
          message.sender_role
        ≡ ok message
  unfolding decode_drain_message bad_drain_fields bad_drain_frame
  decode-prefix a message w enabled own valid =
      let front : List ℕ = row (drain_fields message) in
      let tag : List ℕ = drain_message_mac mac a.drain_key front in
      let size = length-prefix message w tag in
      let magic : bytes_equal (take 8 (front ++ tag)) drain_control_magic ≡ true =
        bytes_equal_refl drain_control_magic in
      rw
        (
          drain_message_at-prefix message w tag,
          take-append 97 front tag size,
          drop-append 97 front tag size,
          magic,
          bytes_equal_refl tag,
          enabled,
          own,
          valid,
        )
        (ground (
          arith,
          length-append front tag,
          size,
          mac_size a.drain_key (drain_message_label ++ front),
        ))

  -- A drain message that one end of a carrier encodes is read back by an end that has derived the
  -- same keys and expects the sender's role, for a message whose fields fit their Go types.
  pub decode_drain_message-encode :
      (a : StreamPathAuth) (message : StreamDrainMessage) {wire : List ℕ}
      → IsDrainMessage message
      → encode_drain_message mac a message ≡ ok wire
      → decode_drain_message mac a wire message.sender_role ≡ ok message
  decode_drain_message-encode a message {wire} w e =
      let (enabled, own, valid, same) = encode→facts a message e in
      subst (λ written. decode_drain_message mac a written message.sender_role ≡ ok message) same
        (decode-prefix a message w enabled own valid)

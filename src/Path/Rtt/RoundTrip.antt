-- ===== src/Path/Rtt/RoundTrip.antt =====
-- core/stream_path_protocol.go: what the decoder of probes and echoes accepts.
use smp3_multipath_kit_publi.Wire.Result.{ok_injective, bind→ok}
use smp3_multipath_kit_publi.Wire.Bytes.{
  length-row, slice-row_tagged, be_field_tagged, bytes_equal_refl, length-be, bytes_equal,
}
use smp3_multipath_kit_publi.Path.Rtt.{
  rtt_message_magic, StreamRttMessage, decode_rtt_message, rtt_fields, rtt_message_label,
  rtt_message_v1, encode_rtt_message, rtt_message_mac, binding_of, validate_rtt_message,
  bad_rtt_frame, bad_rtt_fields,
}
use smp3_multipath_kit_publi.Base.{
  ◌∷◌, [], List, ◌<◌, ◌⊎◌, arith, ◌^◌, drop-append, refl, ◌≢◌, ℕ, ◌++◌, length-append, ◌≡◌,
  take-append, length, take, subst, true,
}
use smp3_multipath_kit_publi.Path.{validate_binding, ok, row, be}

-- Fields that fit Go's types.
pub record IsRttMessage (message : StreamRttMessage) : Type 0 where
  pub session_size : length message.identity.session_id ≡ 16
  pub token_fits : message.token < 2 ^ 64

validate→facts :
    (message : StreamRttMessage)
    → validate_rtt_message message ≡ ok tt
    → (validate_binding (binding_of message.identity) ≡ ok tt)
      × ((message.identity.direction ≡ 1) ⊎ (message.identity.direction ≡ 2))
      × ((message.kind ≡ 1) ⊎ (message.kind ≡ 2))
      × (message.token ≢ 0)
unfolding validate_rtt_message validate_binding
validate→facts message e = ground arith

length-fields :
    (message : StreamRttMessage) → IsRttMessage message → length (row (rtt_fields message)) ≡ 36
length-fields message w =
    omega (arith, length-row (rtt_fields message), w.session_size, length-be 8 message.token)

module _ (mac : List ℕ → List ℕ → List ℕ)
    (mac_size : (key text : List ℕ) → length (mac key text) ≡ 32) where
  decode-fields :
      (message : StreamRttMessage) (key : List ℕ)
      → IsRttMessage message
      → validate_rtt_message message ≡ ok tt
      → decode_rtt_message mac
          (row (rtt_fields message) ++ rtt_message_mac mac key (row (rtt_fields message)))
          key
          (binding_of message.identity)
        ≡ ok message
  unfolding decode_rtt_message bad_rtt_frame bad_rtt_fields
  decode-fields message key w valid =
      let (bound, directed, kinded, filled) = validate→facts message valid in
      let prefix : List ℕ = row (rtt_fields message) in
      let tag : List ℕ = rtt_message_mac mac key prefix in
      let front : List (List ℕ) =
        rtt_message_magic
        ∷ (rtt_message_v1 ∷ message.kind ∷ message.identity.direction ∷ message.identity.leg_id
            ∷ [])
        ∷ [] in
      let size = length-fields message w in
      let magic : bytes_equal (take 8 (prefix ++ tag)) rtt_message_magic ≡ true =
        bytes_equal_refl rtt_message_magic in
      rw
        (
          bound,
          take-append 36 prefix tag size,
          drop-append 36 prefix tag size,
          slice-row_tagged front message.identity.session_id (be 8 message.token ∷ []) tag 12 28
              refl (omega (arith, w.session_size)),
          be_field_tagged 8 message.token (front ++ (message.identity.session_id ∷ [])) [] tag 28 36
              w.token_fits (omega (arith, w.session_size)) refl,
          magic,
          bytes_equal_refl tag,
          bytes_equal_refl message.identity.session_id,
        )
        (ground (arith, length-append prefix tag, size, mac_size key (rtt_message_label ++ prefix)))

  -- A probe or echo that the encoder writes is read back by the decoder that holds the same key and
  -- is bound to the message's own carrier, for a message whose fields fit their Go types.
  pub decode_rtt_message-encode :
      (message : StreamRttMessage) (key : List ℕ) {wire : List ℕ}
      → IsRttMessage message
      → encode_rtt_message mac message key ≡ ok wire
      → decode_rtt_message mac wire key (binding_of message.identity) ≡ ok message
  unfolding encode_rtt_message
  decode_rtt_message-encode message key {wire} w e =
      let (_, valid, same) = bind→ok (validate_rtt_message message) _ e in
      subst
        (λ written. decode_rtt_message mac written key (binding_of message.identity) ≡ ok message)
        (ok_injective same) (decode-fields message key w valid)

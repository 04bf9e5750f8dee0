-- ===== src/Path/Drain/Accept.antt =====
-- core/stream_path_protocol.go: what the decoder of drain messages accepts.
use smp3_multipath_kit_publi.Wire.Result.{ok_injective, fail_if→ok}
use smp3_multipath_kit_publi.Path.{coordinated_drain_enabled, StreamPathAuth, ok}
use smp3_multipath_kit_publi.Wire.Canonical.{be-slice, slice-byte, slice-join}
use smp3_multipath_kit_publi.Path.Drain.{
  drain_fields, drain_ready, drain_message_mac, drain_commit, decode_drain_message,
  valid_drain_message, bad_drain_frame, StreamDrainMessage, encode_drain_message,
  drain_control_magic, drain_message_at, bad_drain_fields, drain_commit_ack,
}
use smp3_multipath_kit_publi.Base.{
  get_or, ap, ◌+◌, subst, ◌∷◌, ◌⊎◌, ◌++◌, ℕ, ◌∙◌, refl, ◌≤◌, ◌≡◌, take, false, arith, length,
  take-append-drop, sym, ◌<◌, true, append-nil, All, drop, List, ◌||◌, not, ◌!=◌,
}
use smp3_multipath_kit_publi.Wire.Bytes.{
  row, slice, bytes_equal→eq, IsByte, bytes_equal, bytes_equal_refl,
}

-- The phases that promise an empty ledger.
abbrev pub IsEmptyPhase : ℕ → Type 0
IsEmptyPhase kind = (kind ≡ drain_ready) ⊎ (kind ≡ drain_commit) ⊎ (kind ≡ drain_commit_ack)

pub record DrainAccepted (a : StreamPathAuth) (role : ℕ) (message : StreamDrainMessage)
    : Type 0 where
  pub enabled : coordinated_drain_enabled a ≡ true
  pub own_session : message.session_id ≡ a.session_id
  pub peer_role : message.sender_role ≡ role
  pub valid : valid_drain_message message ≡ true

-- The header of a wire message, read field by field, is its first 97 bytes.
header-read :
    (wire : List ℕ)
    → All IsByte wire
    → length wire ≡ 129
    → take 8 wire ≡ drain_control_magic
    → get_or wire 8 0 ≡ 1
    → get_or wire 11 0 ≡ 0
    → row (drain_fields (drain_message_at wire)) ≡ take 97 wire
unfolding slice drain_message_at
header-read wire bytes size magic version zero_byte =
    let byte : (i : ℕ) → i < 97 → get_or wire i 0 ∷ slice (i + 1) 97 wire ≡ slice i 97 wire =
      λ i inside. slice-byte i (i + 1) 97 wire refl inside (omega (arith, size)) in
    let join : (lo mid : ℕ)
        → lo ≤ mid
        → mid ≤ 97
        → slice lo mid wire ++ slice mid 97 wire ≡ slice lo 97 wire =
      λ lo mid. slice-join lo mid 97 wire in
    let whole : take 8 wire ++ slice 8 97 wire ≡ take 97 wire =
      join 0 8 (omega arith) (omega arith) in
    let behind : slice 12 28 wire
          ++ (get_or wire 28 0
              ∷ (slice 29 37 wire
                  ++ (slice 37 53 wire
                      ++ (slice 53 69 wire
                          ++ (slice 69 77 wire
                              ++ (slice 77 85 wire ++ (slice 85 89 wire ++ slice 89 97 wire)))))))
        ≡ slice 12 97 wire =
      rw
        (
          join 85 89 (omega arith) (omega arith),
          join 77 85 (omega arith) (omega arith),
          join 69 77 (omega arith) (omega arith),
          join 53 69 (omega arith) (omega arith),
          join 37 53 (omega arith) (omega arith),
          join 29 37 (omega arith) (omega arith),
          byte 28 (omega arith),
        )
        (join 12 28 (omega arith) (omega arith)) in
    rw
      (
        be-slice 8 29 37 wire bytes refl (omega (arith, size)),
        be-slice 8 69 77 wire bytes refl (omega (arith, size)),
        be-slice 8 77 85 wire bytes refl (omega (arith, size)),
        be-slice 4 85 89 wire bytes refl (omega (arith, size)),
        be-slice 8 89 97 wire bytes refl (omega (arith, size)),
        append-nil (slice 89 97 wire),
        behind,
      )
      (ap
          (λ z.
            drain_control_magic ++ (1 ∷ get_or wire 9 0 ∷ get_or wire 10 0 ∷ z ∷ slice 12 97 wire))
          (sym zero_byte)
        ∙ rw (byte 11 (omega arith), byte 10 (omega arith), byte 9 (omega arith))
            (ap (λ v. drain_control_magic ++ (v ∷ slice 9 97 wire)) (sym version)
              ∙ ap (◌++◌ drain_control_magic) (byte 8 (omega arith))
              ∙ ap (λ m. m ++ slice 8 97 wire) (sym magic)
              ∙ whole))

frame→facts :
    (wire : List ℕ)
    → bad_drain_frame wire ≡ false
    → (length wire ≡ 129) × (take 8 wire ≡ drain_control_magic) × (get_or wire 8 0 ≡ 1)
unfolding bad_drain_frame
frame→facts wire e = ground (arith, bytes_equal→eq (take 8 wire) drain_control_magic)

fields→facts :
    (a : StreamPathAuth) (message : StreamDrainMessage) (role : ℕ)
    → bad_drain_fields a message role ≡ false
    → (message.session_id ≡ a.session_id)
      × (message.sender_role ≡ role)
      × (valid_drain_message message ≡ true)
unfolding bad_drain_fields
fields→facts a message role e = ground (arith, bytes_equal→eq message.session_id a.session_id)

module _ (mac : List ℕ → List ℕ → List ℕ) where
  decode→facts :
      (a : StreamPathAuth) (wire : List ℕ) (role : ℕ) {message : StreamDrainMessage}
      → decode_drain_message mac a wire role ≡ ok message
      → (coordinated_drain_enabled a ≡ true)
        × (bad_drain_frame wire ≡ false)
        × (get_or wire 11 0 ≡ 0)
        × (drop 97 wire ≡ drain_message_mac mac a.drain_key (take 97 wire))
        × (bad_drain_fields a (drain_message_at wire) role ≡ false)
        × (drain_message_at wire ≡ message)
  unfolding decode_drain_message
  decode→facts a wire role e =
      let code : List ℕ = drain_message_mac mac a.drain_key (take 97 wire) in
      let (opened, r1) =
        fail_if→ok (not (coordinated_drain_enabled a) || bad_drain_frame wire) _ _ e in
      let (filled, r2) = fail_if→ok (get_or wire 11 0 != 0) _ _ r1 in
      let (signed, r3) = fail_if→ok (not (bytes_equal (drop 97 wire) code)) _ _ r2 in
      let (fields, r4) = fail_if→ok (bad_drain_fields a (drain_message_at wire) role) _ _ r3 in
      (
        ground arith,
        ground arith,
        ground arith,
        bytes_equal→eq (drop 97 wire) code (ground arith),
        fields,
        ok_injective r4,
      )

  encode-accepted :
      (a : StreamPathAuth) (wire : List ℕ) (role : ℕ)
      → DrainAccepted a role (drain_message_at wire)
      → row (drain_fields (drain_message_at wire)) ≡ take 97 wire
      → drop 97 wire ≡ drain_message_mac mac a.drain_key (take 97 wire)
      → encode_drain_message mac a (drain_message_at wire) ≡ ok wire
  unfolding encode_drain_message
  encode-accepted a wire role d same signed =
      let own : bytes_equal (drain_message_at wire).session_id a.session_id ≡ true =
        rw d.own_session (bytes_equal_refl a.session_id) in
      rw (d.enabled, own, d.valid)
        (ap (λ p. ok (p ++ drain_message_mac mac a.drain_key p)) same
          ∙ rw (← signed) (ap ok (take-append-drop 97 wire)))

  -- What the decoder of drain messages accepts, on a wire of bytes, comes over a carrier that
  -- negotiated the capability, names its session and the expected sender, passes the checks of
  -- `validStreamDrainMessage`, and is byte for byte what the encoder writes for that message.
  pub decode_drain_message-canonical :
      (a : StreamPathAuth) (wire : List ℕ) (role : ℕ) {message : StreamDrainMessage}
      → All IsByte wire
      → decode_drain_message mac a wire role ≡ ok message
      → DrainAccepted a role message × (encode_drain_message mac a message ≡ ok wire)
  decode_drain_message-canonical a wire role {message} bytes e =
      let (enabled, framed, zero_byte, signed, good, same) = decode→facts a wire role e in
      let (size, magic, version) = frame→facts wire framed in
      let (own, peer, valid) = fields→facts a (drain_message_at wire) role good in
      let accepted : DrainAccepted a role (drain_message_at wire) = record {
        enabled = enabled;
        own_session = own;
        peer_role = peer;
        valid = valid;
      } in
      subst (λ m. DrainAccepted a role m × (encode_drain_message mac a m ≡ ok wire)) same
        (
          accepted,
          encode-accepted a wire role accepted (header-read wire bytes size magic version zero_byte)
              signed,
        )

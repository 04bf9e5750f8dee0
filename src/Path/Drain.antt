-- ===== src/Path/Drain.antt =====
-- core/stream_path_protocol.go: the messages of a coordinated drain, 129 bytes.
pub mod RoundTrip
pub mod Accept
use smp3_multipath_kit_publi.Wire.Bytes.{bytes_equal, be_value, slice}
use smp3_multipath_kit_publi.Path.{zero_id, coordinated_drain_enabled, StreamPathAuth, row, be, ok}
use smp3_multipath_kit_publi.Wire.FrameType.{stream_drain_control_message_size}
use smp3_multipath_kit_publi.Base.{
  ltb, drop, ◌&&◌, if◌then◌else◌, length, get_or, Bool, ◌==◌, not, false, ℕ, ◌++◌, List, take, ◌!=◌,
  [], ◌||◌, ◌∷◌,
}
use smp3_multipath_kit_publi.Wire.Result.{
  ◌>>◌, invalid_authentication, drain_negotiation, Result, drain_message, fail_if,
}

-- "SMP3DRN1"
abbrev pub drain_control_magic : List ℕ
drain_control_magic = 83 ∷ 77 ∷ 80 ∷ 51 ∷ 68 ∷ 82 ∷ 78 ∷ 49 ∷ []

-- StreamPathRole
abbrev pub role_client : ℕ
role_client = 1

abbrev pub role_server : ℕ
role_server = 2

-- StreamDrainMessageKind
abbrev pub drain_intent : ℕ
drain_intent = 1

abbrev pub drain_quiesced : ℕ
drain_quiesced = 2

abbrev pub drain_ready : ℕ
drain_ready = 3

abbrev pub drain_commit : ℕ
drain_commit = 4

abbrev pub drain_commit_ack : ℕ
drain_commit_ack = 5

abbrev pub drain_abort : ℕ
drain_abort = 6

pub record StreamDrainMessage : Type 0 where
  pub kind : ℕ  -- uint8
  pub sender_role : ℕ  -- uint8
  pub session_id : List ℕ  -- [16]byte
  pub target_leg : ℕ  -- uint8
  pub generation : ℕ  -- uint64
  pub target_binding : List ℕ  -- [16]byte
  pub operation_id : List ℕ  -- [16]byte
  pub counter : ℕ  -- uint64
  pub acked_next : ℕ  -- uint64
  pub outstanding_frames : ℕ  -- uint32
  pub outstanding_bytes : ℕ  -- uint64

unfoldable pub valid_drain_message : StreamDrainMessage → Bool
valid_drain_message message =
    if ltb message.kind drain_intent
      || ltb drain_abort message.kind
      || (message.sender_role != role_client && message.sender_role != role_server)
      || message.generation == 0
      || message.counter == 0
    then false
    else if bytes_equal message.target_binding zero_id || bytes_equal message.operation_id zero_id
    then false
    else not (
        (message.kind == drain_ready
          || message.kind == drain_commit
          || message.kind == drain_commit_ack)
        && (message.outstanding_frames != 0 || message.outstanding_bytes != 0))

-- "SMP3-STREAM-DRAIN-MESSAGE-V1"
abbrev pub drain_message_label : List ℕ
drain_message_label =
    83 ∷ 77 ∷ 80 ∷ 51 ∷ 45 ∷ 83 ∷ 84 ∷ 82 ∷ 69 ∷ 65 ∷ 77 ∷ 45 ∷ 68 ∷ 82 ∷ 65 ∷ 73 ∷ 78 ∷ 45 ∷ 77
    ∷ 69 ∷ 83 ∷ 83 ∷ 65 ∷ 71 ∷ 69 ∷ 45 ∷ 86 ∷ 49 ∷ []

-- The first 97 bytes.
abbrev pub drain_fields : StreamDrainMessage → List (List ℕ)
drain_fields message =
    drain_control_magic
    ∷ (1 ∷ message.kind ∷ message.sender_role ∷ 0 ∷ [])
    ∷ message.session_id
    ∷ (message.target_leg ∷ [])
    ∷ be 8 message.generation
    ∷ message.target_binding
    ∷ message.operation_id
    ∷ be 8 message.counter
    ∷ be 8 message.acked_next
    ∷ be 4 message.outstanding_frames
    ∷ be 8 message.outstanding_bytes
    ∷ []

-- The fields of a message of 97 bytes or more.
unfoldable pub drain_message_at : List ℕ → StreamDrainMessage
drain_message_at wire = record {
  kind = get_or wire 9 0;
  sender_role = get_or wire 10 0;
  session_id = slice 12 28 wire;
  target_leg = get_or wire 28 0;
  generation = be_value (slice 29 37 wire);
  target_binding = slice 37 53 wire;
  operation_id = slice 53 69 wire;
  counter = be_value (slice 69 77 wire);
  acked_next = be_value (slice 77 85 wire);
  outstanding_frames = be_value (slice 85 89 wire);
  outstanding_bytes = be_value (slice 89 97 wire);
}

-- The tests of `DecodeDrainMessage`, ahead of the code and behind it.
unfoldable pub bad_drain_frame : List ℕ → Bool
bad_drain_frame wire =
    length wire != stream_drain_control_message_size
    || not (bytes_equal (take 8 wire) drain_control_magic)
    || get_or wire 8 0 != 1

unfoldable pub bad_drain_fields : StreamPathAuth → StreamDrainMessage → ℕ → Bool
bad_drain_fields a message expected_peer_role =
    not (bytes_equal message.session_id a.session_id)
    || message.sender_role != expected_peer_role
    || not (valid_drain_message message)

module _ (mac : List ℕ → List ℕ → List ℕ) where
  abbrev pub drain_message_mac : List ℕ → List ℕ → List ℕ
  drain_message_mac key prefix = mac key (drain_message_label ++ prefix)

  unfoldable pub encode_drain_message : StreamPathAuth → StreamDrainMessage → Result (List ℕ)
  encode_drain_message a message = do
    fail_if
        (not (coordinated_drain_enabled a)
          || not (bytes_equal message.session_id a.session_id)
          || not (valid_drain_message message))
        drain_negotiation
    let prefix = row (drain_fields message)
    ok (prefix ++ drain_message_mac a.drain_key prefix)

  unfoldable pub decode_drain_message : StreamPathAuth → List ℕ → ℕ → Result StreamDrainMessage
  decode_drain_message a wire expected_peer_role = do
    fail_if (not (coordinated_drain_enabled a) || bad_drain_frame wire) drain_message
    fail_if (get_or wire 11 0 != 0) drain_message
    fail_if (not (bytes_equal (drop 97 wire) (drain_message_mac a.drain_key (take 97 wire))))
        invalid_authentication
    fail_if (bad_drain_fields a (drain_message_at wire) expected_peer_role) drain_message
    ok (drain_message_at wire)

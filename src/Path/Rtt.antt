-- ===== src/Path/Rtt.antt =====
-- core/stream_path_protocol.go: the probe and echo messages, 68 bytes.
pub mod RoundTrip
pub mod Accept
use smp3_multipath_kit_publi.Wire.Bytes.{bytes_equal, be_value, slice}
use smp3_multipath_kit_publi.Path.{validate_binding, StreamPathBinding, row, be, ok}
use smp3_multipath_kit_publi.Wire.FrameType.{stream_rtt_message_size}
use smp3_multipath_kit_publi.Base.{
  drop, ◌&&◌, length, get_or, Bool, ◌==◌, not, ℕ, ◌++◌, List, take, ◌!=◌, [], ◌||◌, ◌∷◌,
}
use smp3_multipath_kit_publi.Wire.Result.{
  ◌>>◌, path_message, invalid_authentication, Result, fail_if,
}

-- "SMP3RTT1"
abbrev pub rtt_message_magic : List ℕ
rtt_message_magic = 83 ∷ 77 ∷ 80 ∷ 51 ∷ 82 ∷ 84 ∷ 84 ∷ 49 ∷ []

abbrev pub rtt_message_v1 : ℕ
rtt_message_v1 = 1

-- StreamRTTMessageKind
abbrev pub rtt_probe : ℕ
rtt_probe = 1

abbrev pub rtt_echo : ℕ
rtt_echo = 2

-- StreamRTTDirection
abbrev pub client_to_server : ℕ
client_to_server = 1

abbrev pub server_to_client : ℕ
server_to_client = 2

pub record StreamPathIdentity : Type 0 where
  pub session_id : List ℕ  -- [16]byte
  pub leg_id : ℕ  -- uint8
  pub carrier_id : List ℕ  -- string
  pub generation : ℕ  -- uint64
  pub direction : ℕ  -- uint8

-- `binding`
abbrev pub binding_of : StreamPathIdentity → StreamPathBinding
binding_of i = record {
  session_id = i.session_id;
  leg_id = i.leg_id;
  carrier_id = i.carrier_id;
  generation = i.generation;
}

pub record StreamRttMessage : Type 0 where
  pub kind : ℕ  -- uint8
  pub identity : StreamPathIdentity
  pub token : ℕ  -- uint64

abbrev bad_direction : ℕ → Bool
bad_direction direction = direction != client_to_server && direction != server_to_client

abbrev bad_kind : ℕ → Bool
bad_kind kind = kind != rtt_probe && kind != rtt_echo

unfoldable pub validate_rtt_message : StreamRttMessage → Result (Unit {0})
validate_rtt_message message = do
  validate_binding (binding_of message.identity)
  fail_if (bad_direction message.identity.direction) path_message
  fail_if (bad_kind message.kind || message.token == 0) path_message

-- "SMP3-STREAM-RTT-MESSAGE-V1"
abbrev pub rtt_message_label : List ℕ
rtt_message_label =
    83 ∷ 77 ∷ 80 ∷ 51 ∷ 45 ∷ 83 ∷ 84 ∷ 82 ∷ 69 ∷ 65 ∷ 77 ∷ 45 ∷ 82 ∷ 84 ∷ 84 ∷ 45 ∷ 77 ∷ 69 ∷ 83
    ∷ 83 ∷ 65 ∷ 71 ∷ 69 ∷ 45 ∷ 86 ∷ 49 ∷ []

-- The first 36 bytes.
abbrev pub rtt_fields : StreamRttMessage → List (List ℕ)
rtt_fields message =
    rtt_message_magic
    ∷ (rtt_message_v1 ∷ message.kind ∷ message.identity.direction ∷ message.identity.leg_id ∷ [])
    ∷ message.identity.session_id
    ∷ be 8 message.token
    ∷ []

-- The tests of `decodeStreamRTTMessage`, ahead of the code and behind it.
unfoldable pub bad_rtt_frame : List ℕ → Bool
bad_rtt_frame wire =
    length wire != stream_rtt_message_size
    || not (bytes_equal (take 8 wire) rtt_message_magic)
    || get_or wire 8 0 != rtt_message_v1

unfoldable pub bad_rtt_fields : List ℕ → StreamPathBinding → Bool
bad_rtt_fields wire expected =
    bad_kind (get_or wire 9 0)
    || bad_direction (get_or wire 10 0)
    || get_or wire 11 0 != expected.leg_id
    || not (bytes_equal (slice 12 28 wire) expected.session_id)
    || be_value (slice 28 36 wire) == 0

module _ (mac : List ℕ → List ℕ → List ℕ) where
  abbrev pub rtt_message_mac : List ℕ → List ℕ → List ℕ
  rtt_message_mac key prefix = mac key (rtt_message_label ++ prefix)

  unfoldable pub encode_rtt_message : StreamRttMessage → List ℕ → Result (List ℕ)
  encode_rtt_message message key = do
    validate_rtt_message message
    let prefix = row (rtt_fields message)
    ok (prefix ++ rtt_message_mac key prefix)

  unfoldable pub decode_rtt_message : List ℕ → List ℕ → StreamPathBinding → Result StreamRttMessage
  decode_rtt_message wire key expected = do
    validate_binding expected
    fail_if (bad_rtt_frame wire) path_message
    fail_if (not (bytes_equal (drop 36 wire) (rtt_message_mac key (take 36 wire))))
        invalid_authentication
    fail_if (bad_rtt_fields wire expected) path_message
    ok (record {
      kind = get_or wire 9 0;
      identity = record {
        session_id = expected.session_id;
        leg_id = expected.leg_id;
        carrier_id = expected.carrier_id;
        generation = expected.generation;
        direction = get_or wire 10 0;
      };
      token = be_value (slice 28 36 wire);
    })

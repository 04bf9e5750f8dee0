-- ===== src/Path.antt =====
-- core/stream_path_protocol.go: what READY negotiates. The client's HELLO offers capabilities, the
-- server selects some, and both sides derive the keys of the probes and of the drain messages.
-- HMAC-SHA256 is the parameter `mac`; its Write calls are one text.
pub mod Ready
pub mod Rtt
pub mod Drain
pub mod Probe
pub mod Writer
pub mod Agree
pub mod Examples
use smp3_multipath_kit_publi.Wire.Bytes.{bytes_equal, row, be}
use smp3_multipath_kit_publi.Wire.Result.{
  Result, fail_if, empty_password, invalid_capabilities, path_message, path_negotiation, ok, ◌>>◌,
  ◌>>=◌,
}
use smp3_multipath_kit_publi.Base.{
  false, some, if◌then◌else◌, List, ℕ, Option, none, not, Bool, ◌&&◌, negsuc, ◌*◌, length, ◌!=◌,
  pos, ◌∷◌, bit_and, ◌||◌, true, take, [], ◌==◌, ℤ, replicate, ltb,
}
use smp3_multipath_kit_publi.Wire.Hello.{
  Hello, version6, version7, mode_stream, stream_capability_path_rtt,
  stream_capability_coordinated_drain, known_stream_capabilities, and_not, bad_v6_capabilities,
}

-- A result of the READY exchange.
pub record StreamReady : Type 0 where
  pub session_id : List ℕ  -- [16]byte
  pub leg_id : ℕ  -- uint8
  pub mode : ℕ  -- uint8
  pub capabilities : ℕ  -- uint32
  pub server_nonce : List ℕ  -- [16]byte

pub record StreamPathAuth : Type 0 where
  pub session_id : List ℕ  -- [16]byte
  pub leg_id : ℕ  -- uint8
  pub capabilities : ℕ  -- uint32
  pub probe_key : List ℕ  -- [32]byte
  pub drain_key : List ℕ  -- [32]byte
  pub drain_binding : List ℕ  -- [16]byte
  pub authenticated : Bool
  pub handshake_rtt : ℤ  -- nanoseconds
  pub handshake_at : ℕ  -- 0 for the zero time

-- Local connection identity. A carrier's id is a string.
pub record StreamPathBinding : Type 0 where
  pub session_id : List ℕ
  pub leg_id : ℕ
  pub carrier_id : List ℕ
  pub generation : ℕ

abbrev pub zero_key : List ℕ
zero_key = replicate 32 0

abbrev pub zero_id : List ℕ
zero_id = replicate 16 0

-- StreamPathAuth{}
abbrev pub no_auth : StreamPathAuth
no_auth = record {
  session_id = zero_id;
  leg_id = 0;
  capabilities = 0;
  probe_key = zero_key;
  drain_key = zero_key;
  drain_binding = zero_id;
  authenticated = false;
  handshake_rtt = pos 0;
  handshake_at = 0;
}

abbrev pub coordinated_drain_enabled : StreamPathAuth → Bool
coordinated_drain_enabled a =
    a.authenticated && bit_and a.capabilities stream_capability_coordinated_drain != 0

abbrev pub path_rtt_enabled : StreamPathAuth → Bool
path_rtt_enabled a = a.authenticated && bit_and a.capabilities stream_capability_path_rtt != 0

-- Two seconds.
abbrev pub stream_rtt_probe_timeout : ℕ
stream_rtt_probe_timeout = 2 * 1000000000

-- 0 < rtt < StreamRTTProbeTimeout
abbrev pub in_probe_timeout : ℤ → Bool
in_probe_timeout (pos n) = ltb 0 n && ltb n stream_rtt_probe_timeout
in_probe_timeout (negsuc n) = false

-- The sample, where there is one; `none` for Go's (0, false).
unfoldable pub carrier_handshake_rtt : StreamPathAuth → Option ℤ
carrier_handshake_rtt a =
    if path_rtt_enabled a && in_probe_timeout a.handshake_rtt && a.handshake_at != 0
    then some a.handshake_rtt
    else none

-- `now` is the reading of time.Now.
unfoldable pub with_carrier_handshake_rtt : StreamPathAuth → ℤ → ℕ → Result StreamPathAuth
with_carrier_handshake_rtt a rtt now = do
  fail_if (not (path_rtt_enabled a)) path_negotiation
  fail_if (not (in_probe_timeout rtt)) path_message
  ok (record a { handshake_rtt = rtt; handshake_at = now })

unfoldable pub validate_v6_hello : Hello → Result (Unit {0})
validate_v6_hello hello = do
  fail_if (hello.version != version6 || hello.mode != mode_stream) path_message
  fail_if (bad_v6_capabilities hello.capabilities) invalid_capabilities

unfoldable pub validate_path_hello : Hello → Result (Unit {0})
validate_path_hello hello = do
  fail_if
      (hello.mode != mode_stream
        || (hello.version != version6 && hello.version != version7)
        || bit_and hello.capabilities stream_capability_path_rtt == 0)
      path_message
  fail_if
      ((hello.version == version6 && and_not hello.capabilities stream_capability_path_rtt != 0)
        || (hello.version == version7 && and_not hello.capabilities known_stream_capabilities != 0))
      invalid_capabilities

unfoldable pub validate_ready_hello : Hello → Result (Unit {0})
validate_ready_hello hello =
    if hello.version == version6
    then validate_v6_hello hello
    else fail_if
        (hello.version != version7
          || hello.mode != mode_stream
          || and_not hello.capabilities known_stream_capabilities != 0
          || bit_and hello.capabilities stream_capability_coordinated_drain == 0)
        path_message

unfoldable pub valid_selected_capabilities : Hello → ℕ → Bool
valid_selected_capabilities hello selected =
    if and_not selected hello.capabilities != 0 || and_not selected known_stream_capabilities != 0
    then false
    else if hello.version == version6
    then and_not selected stream_capability_path_rtt == 0
    else hello.version == version7 && hello.mode == mode_stream

-- The first test of `deriveStreamPathProbeKey` and of `makeStreamPathAuth`.
unfoldable pub ready_mismatch : Hello → StreamReady → Bool
ready_mismatch hello ready =
    not (bytes_equal ready.session_id hello.session_id)
    || ready.leg_id != hello.leg_id
    || ready.mode != mode_stream
    || not (valid_selected_capabilities hello ready.capabilities)

-- "SMP3-STREAM-PATH-KEY-V6"
abbrev pub path_key_label : List ℕ
path_key_label =
    83 ∷ 77 ∷ 80 ∷ 51 ∷ 45 ∷ 83 ∷ 84 ∷ 82 ∷ 69 ∷ 65 ∷ 77 ∷ 45 ∷ 80 ∷ 65 ∷ 84 ∷ 72 ∷ 45 ∷ 75 ∷ 69
    ∷ 89 ∷ 45 ∷ 86 ∷ 54 ∷ []

-- "SMP3-STREAM-DRAIN-CONTROL-KEY-V1"
abbrev pub drain_key_label : List ℕ
drain_key_label =
    83 ∷ 77 ∷ 80 ∷ 51 ∷ 45 ∷ 83 ∷ 84 ∷ 82 ∷ 69 ∷ 65 ∷ 77 ∷ 45 ∷ 68 ∷ 82 ∷ 65 ∷ 73 ∷ 78 ∷ 45 ∷ 67
    ∷ 79 ∷ 78 ∷ 84 ∷ 82 ∷ 79 ∷ 76 ∷ 45 ∷ 75 ∷ 69 ∷ 89 ∷ 45 ∷ 86 ∷ 49 ∷ []

-- "SMP3-DRAIN-CARRIER-BINDING-V1"
abbrev pub drain_binding_label : List ℕ
drain_binding_label =
    83 ∷ 77 ∷ 80 ∷ 51 ∷ 45 ∷ 68 ∷ 82 ∷ 65 ∷ 73 ∷ 78 ∷ 45 ∷ 67 ∷ 65 ∷ 82 ∷ 82 ∷ 73 ∷ 69 ∷ 82 ∷ 45
    ∷ 66 ∷ 73 ∷ 78 ∷ 68 ∷ 73 ∷ 78 ∷ 71 ∷ 45 ∷ 86 ∷ 49 ∷ []

module _ (mac : List ℕ → List ℕ → List ℕ) where
  unfoldable pub derive_path_probe_key : Hello → StreamReady → List ℕ → Result (List ℕ)
  derive_path_probe_key hello ready password = do
    validate_path_hello hello
    fail_if (length password == 0) empty_password
    fail_if (ready_mismatch hello ready) path_message
    fail_if (bit_and ready.capabilities stream_capability_path_rtt == 0) path_negotiation
    ok (
        mac password (
          row (
            path_key_label
            ∷ hello.session_id
            ∷ (hello.leg_id ∷ hello.mode ∷ [])
            ∷ be 4 ready.capabilities
            ∷ hello.nonce
            ∷ ready.server_nonce
            ∷ [])))

  unfoldable pub derive_drain_control_key : Hello → StreamReady → List ℕ → List ℕ
  derive_drain_control_key hello ready password = mac password (
      row (
        drain_key_label
        ∷ (hello.version ∷ hello.mode ∷ hello.leg_id ∷ [])
        ∷ hello.session_id
        ∷ be 4 ready.capabilities
        ∷ hello.nonce
        ∷ ready.server_nonce
        ∷ []))

  -- The probe key of `makeStreamPathAuth`, zero where RTT is not selected.
  unfoldable pub path_key_of : Hello → StreamReady → List ℕ → Result (List ℕ)
  path_key_of hello ready password =
      if bit_and ready.capabilities stream_capability_path_rtt != 0
      then derive_path_probe_key hello ready password
      else ok zero_key

  unfoldable pub bound_drain_key : Hello → List ℕ → List ℕ × List ℕ
  bound_drain_key hello drain_key = (
    drain_key,
    take 16
        (mac drain_key (row (drain_binding_label ∷ hello.session_id ∷ (hello.leg_id ∷ []) ∷ []))),
  )

  -- The drain key and the carrier's binding, zero where drain is not selected.
  unfoldable pub drain_keys_of : Hello → StreamReady → List ℕ → Result (List ℕ × List ℕ)
  drain_keys_of hello ready password =
      if bit_and ready.capabilities stream_capability_coordinated_drain != 0
      then (fail_if (hello.version != version7 || length password == 0) invalid_capabilities
          >> ok (bound_drain_key hello (derive_drain_control_key hello ready password)))
      else ok (zero_key, zero_id)

  -- `makeStreamPathAuth` behind the test for an empty selection.
  unfoldable pub derive_path_auth : Hello → StreamReady → List ℕ → Result StreamPathAuth
  derive_path_auth hello ready password = do
    path_key ← path_key_of hello ready password
    (drain_key, drain_binding) ← drain_keys_of hello ready password
    ok (record {
      session_id = hello.session_id;
      leg_id = hello.leg_id;
      capabilities = ready.capabilities;
      probe_key = path_key;
      drain_key = drain_key;
      drain_binding = drain_binding;
      authenticated = true;
      handshake_rtt = pos 0;
      handshake_at = 0;
    })

  unfoldable pub make_path_auth : Hello → StreamReady → List ℕ → Result StreamPathAuth
  make_path_auth hello ready password = do
    fail_if (ready_mismatch hello ready) path_message
    if ready.capabilities == 0 then ok no_auth else derive_path_auth hello ready password

unfoldable pub valid_for : StreamPathAuth → StreamPathBinding → Bool
valid_for a binding =
    a.authenticated
    && bytes_equal a.session_id binding.session_id
    && a.leg_id == binding.leg_id
    && bit_and a.capabilities stream_capability_path_rtt != 0
    && and_not a.capabilities known_stream_capabilities == 0

unfoldable pub validate_binding : StreamPathBinding → Result (Unit {0})
validate_binding binding =
    fail_if (length binding.carrier_id == 0 || binding.generation == 0) path_message

-- ===== src/Path/Ready.antt =====
-- core/stream_path_protocol.go: the READY message, 78 bytes.
pub mod RoundTrip
pub mod Accept
use smp3_multipath_kit_publi.Wire.Result.{
  Result, invalid_capabilities, path_message, invalid_authentication, fail_if, empty_password,
  ◌>>=◌, ◌>>◌,
}
use smp3_multipath_kit_publi.Wire.Bytes.{be_value, read_full, bytes_equal, slice}
use smp3_multipath_kit_publi.Path.{
  StreamReady, StreamPathAuth, validate_ready_hello, make_path_auth, valid_selected_capabilities,
  be, row, ok,
}
use smp3_multipath_kit_publi.Base.{
  ◌++◌, if◌then◌else◌, List, ℕ, not, length, ◌!=◌, get_or, ◌∷◌, ◌||◌, take, drop, ◌+◌, [], ◌==◌,
  Bool,
}
use smp3_multipath_kit_publi.Wire.Hello.{Hello, version6, version7}

-- "SMP3RDY2"
abbrev pub ready_v2_magic : List ℕ
ready_v2_magic = 83 ∷ 77 ∷ 80 ∷ 51 ∷ 82 ∷ 68 ∷ 89 ∷ 50 ∷ []

-- "SMP3RDY3"
abbrev pub ready_v3_magic : List ℕ
ready_v3_magic = 83 ∷ 77 ∷ 80 ∷ 51 ∷ 82 ∷ 68 ∷ 89 ∷ 51 ∷ []

-- "SMP3-SIDECAR-READY-V2"
abbrev pub ready_v2_label : List ℕ
ready_v2_label =
    83 ∷ 77 ∷ 80 ∷ 51 ∷ 45 ∷ 83 ∷ 73 ∷ 68 ∷ 69 ∷ 67 ∷ 65 ∷ 82 ∷ 45 ∷ 82 ∷ 69 ∷ 65 ∷ 68 ∷ 89 ∷ 45
    ∷ 86 ∷ 50 ∷ []

-- "SMP3-SIDECAR-READY-V3"
abbrev pub ready_v3_label : List ℕ
ready_v3_label =
    83 ∷ 77 ∷ 80 ∷ 51 ∷ 45 ∷ 83 ∷ 73 ∷ 68 ∷ 69 ∷ 67 ∷ 65 ∷ 82 ∷ 45 ∷ 82 ∷ 69 ∷ 65 ∷ 68 ∷ 89 ∷ 45
    ∷ 86 ∷ 51 ∷ []

abbrev pub stream_ready_size : ℕ
stream_ready_size = 8 + 16 + 1 + 1 + 4 + 16 + 32

unfoldable pub ready_magic : ℕ → List ℕ
ready_magic version = if version == version7 then ready_v3_magic else ready_v2_magic

-- The first 46 bytes.
abbrev pub ready_fields : Hello → ℕ → List ℕ → List (List ℕ)
ready_fields hello selected server_nonce =
    ready_magic hello.version
    ∷ hello.session_id
    ∷ (hello.leg_id ∷ [])
    ∷ (hello.mode ∷ [])
    ∷ be 4 selected
    ∷ server_nonce
    ∷ []

-- The result that both sides build.
abbrev pub ready_of : Hello → ℕ → List ℕ → StreamReady
ready_of hello selected server_nonce = record {
  session_id = hello.session_id;
  leg_id = hello.leg_id;
  mode = hello.mode;
  capabilities = selected;
  server_nonce = server_nonce;
}

-- The identity that READY repeats.
unfoldable pub bad_ready_fields : List ℕ → Hello → Bool
bad_ready_fields wire expected =
    not (bytes_equal (take 8 wire) (ready_magic expected.version))
    || not (bytes_equal (slice 8 24 wire) expected.session_id)
    || get_or wire 24 0 != expected.leg_id
    || get_or wire 25 0 != expected.mode

module _ (mac : List ℕ → List ℕ → List ℕ) where
  -- `streamReadyMAC`, and for version 6 `streamReadyV2MAC`.
  unfoldable pub ready_mac : Hello → List ℕ → List ℕ → List ℕ
  ready_mac hello prefix password =
      if hello.version == version6
      then mac password (ready_v2_label ++ (hello.nonce ++ prefix))
      else mac password (ready_v3_label ++ (hello.version ∷ hello.nonce ++ prefix))

  unfoldable pub encode_ready : Hello → ℕ → List ℕ → List ℕ → Result (List ℕ)
  encode_ready hello selected server_nonce password = do
    validate_ready_hello hello
    fail_if (length password == 0) empty_password
    fail_if (not (valid_selected_capabilities hello selected)) invalid_capabilities
    let prefix = row (ready_fields hello selected server_nonce)
    ok (prefix ++ ready_mac hello prefix password)

  -- The message in hand: its code, its identity, its selection and the keys.
  unfoldable pub accept_ready : List ℕ → Hello → List ℕ → Result (StreamReady × StreamPathAuth)
  accept_ready wire expected password = do
    fail_if (not (bytes_equal (drop 46 wire) (ready_mac expected (take 46 wire) password)))
        invalid_authentication
    fail_if (bad_ready_fields wire expected) path_message
    let ready = ready_of expected (be_value (slice 26 30 wire)) (slice 30 46 wire)
    fail_if (not (valid_selected_capabilities expected ready.capabilities)) invalid_capabilities
    auth ← make_path_auth mac expected ready password
    ok (ready, auth)

  -- The READY, the keys, and the bytes of the carrier behind it.
  unfoldable pub read_ready :
      List ℕ → Hello → List ℕ → Result (StreamReady × StreamPathAuth × List ℕ)
  read_ready reader expected password = do
    validate_ready_hello expected
    fail_if (length password == 0) empty_password
    (wire, rest) ← read_full stream_ready_size reader
    (ready, auth) ← accept_ready wire expected password
    ok (ready, auth, rest)

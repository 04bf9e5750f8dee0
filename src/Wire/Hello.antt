-- ===== src/Wire/Hello.antt =====
-- core/types.go and core/hello.go: the authenticated HELLO of a carrier, versions 4 to 7. A byte
-- string is a list of bytes; HMAC-SHA256 is the parameter `mac`.
pub mod Header
pub mod Layout
pub mod RoundTrip
pub mod Reads
pub mod Accept
pub mod Examples
use smp3_multipath_kit_publi.Base.{
  ℕ, ◌-◌, ◌*◌, ◌^◌, ◌<◌, ◌≡◌, Bool, true, false, not, ◌&&◌, ◌||◌, List, [], ◌∷◌, ◌++◌, ltb, leb,
  ◌==◌, ◌!=◌, if◌then◌else◌, length, drop, get_or, All, bit_and, ℤ, to_uint64, to_int64, IsInt64,
  unix_nanos, add_nanos, sub_nanos, before,
}
use smp3_multipath_kit_publi.Wire.Result.{
  Result, ok, err, ◌>>=◌, ◌>>◌, fail_if, empty_password, invalid_hello, invalid_version,
  invalid_mode, invalid_v5_mode, stale_hello, empty_destination, invalid_destination,
  invalid_authentication, invalid_capabilities,
}
use smp3_multipath_kit_publi.Wire.Bytes.{IsByte, be, be_value, read_full, slice, row, bytes_equal}

abbrev pub version4 : ℕ
version4 = 4

abbrev pub version5 : ℕ
version5 = 5

abbrev pub version6 : ℕ
version6 = 6

abbrev pub version7 : ℕ
version7 = 7

abbrev pub mode_stream : ℕ
mode_stream = 0

abbrev pub mode_datagram : ℕ
mode_datagram = 1

abbrev pub stream_capability_path_rtt : ℕ
stream_capability_path_rtt = 1

abbrev pub stream_capability_coordinated_drain : ℕ
stream_capability_coordinated_drain = 2

abbrev pub known_stream_capabilities : ℕ
known_stream_capabilities = 3

-- 90 seconds.
abbrev pub hello_skew : ℕ
hello_skew = 90 * 1000000000

abbrev pub hello_magic : List ℕ
hello_magic = b'S' ∷ b'M' ∷ b'P' ∷ b'3' ∷ []

pub record Hello : Type 0 where
  pub version : ℕ  -- uint8
  pub session_id : List ℕ  -- [16]byte
  pub leg_id : ℕ  -- uint8
  pub mode : ℕ  -- uint8
  pub timestamp : ℤ  -- int64
  pub nonce : List ℕ  -- [16]byte
  pub capabilities : ℕ  -- uint32
  pub destination : List ℕ  -- string

-- Fields that fit Go's types.
pub record IsHello (hello : Hello) : Type 0 where
  pub session_size : length hello.session_id ≡ 16
  pub nonce_size : length hello.nonce ≡ 16
  pub timestamp_fits : IsInt64 hello.timestamp
  pub capabilities_fits : hello.capabilities < 2 ^ 32

-- x &^ m
abbrev pub and_not : ℕ → ℕ → ℕ
and_not x m = x - bit_and x m

-- The capability tests that `EncodeHelloParts` and `ReadHelloAt` share.
unfoldable pub bad_v6_capabilities : ℕ → Bool
bad_v6_capabilities c =
    and_not c stream_capability_path_rtt != 0 || bit_and c stream_capability_path_rtt == 0

unfoldable pub bad_v7_capabilities : ℕ → Bool
bad_v7_capabilities c =
    and_not c known_stream_capabilities != 0 || bit_and c stream_capability_coordinated_drain == 0

-- The header of each version: its fields in the order of their offsets.
abbrev pub v4_fields : Hello → List (List ℕ)
v4_fields hello =
    hello_magic
    ∷ (version4 ∷ [])
    ∷ (hello.leg_id ∷ [])
    ∷ hello.session_id
    ∷ be 8 (to_uint64 hello.timestamp)
    ∷ hello.nonce
    ∷ be 2 (length hello.destination)
    ∷ []

abbrev pub v5_fields : Hello → List (List ℕ)
v5_fields hello =
    hello_magic
    ∷ (version5 ∷ [])
    ∷ (hello.leg_id ∷ [])
    ∷ (hello.mode ∷ [])
    ∷ hello.session_id
    ∷ be 8 (to_uint64 hello.timestamp)
    ∷ hello.nonce
    ∷ be 2 (length hello.destination)
    ∷ []

abbrev pub v67_fields : Hello → List (List ℕ)
v67_fields hello =
    hello_magic
    ∷ (hello.version ∷ [])
    ∷ (hello.leg_id ∷ [])
    ∷ (hello.mode ∷ [])
    ∷ hello.session_id
    ∷ be 8 (to_uint64 hello.timestamp)
    ∷ hello.nonce
    ∷ be 4 hello.capabilities
    ∷ be 2 (length hello.destination)
    ∷ []

unfoldable pub hello_fields : Hello → List (List ℕ)
hello_fields hello =
    if hello.version == version5
    then v5_fields hello
    else if hello.version == version6 || hello.version == version7
    then v67_fields hello
    else v4_fields hello

-- The checks of `EncodeHelloParts`, in their order.
unfoldable pub check_hello : Hello → List ℕ → Result (Unit {0})
check_hello hello password = do
  fail_if (length password == 0) empty_password
  fail_if (length hello.destination == 0 || ltb 65535 (length hello.destination))
      invalid_destination
  fail_if
      (hello.version != version4
        && hello.version != version5
        && hello.version != version6
        && hello.version != version7)
      invalid_version
  fail_if (hello.version == version4 && hello.mode != mode_stream) invalid_mode
  fail_if (hello.version == version5 && hello.mode != mode_datagram) invalid_mode
  fail_if (hello.version == version6 && hello.mode != mode_stream) invalid_mode
  fail_if (hello.version == version7 && hello.mode != mode_stream) invalid_mode
  fail_if (hello.version != version6 && hello.version != version7 && hello.capabilities != 0)
      invalid_capabilities
  fail_if (hello.version == version6 && bad_v6_capabilities hello.capabilities) invalid_capabilities
  fail_if (hello.version == version7 && bad_v7_capabilities hello.capabilities) invalid_capabilities

-- What the `switch version` of `ReadHelloAt` has found out, with the stream behind the header.
pub record Parsed : Type 0 where
  pub header : List ℕ
  pub version : ℕ
  pub leg_id : ℕ
  pub mode : ℕ
  pub session_id : List ℕ
  pub nonce : List ℕ
  pub capabilities : ℕ
  pub timestamp : ℤ
  pub destination_length : ℕ
  pub rest : List ℕ

unfoldable pub read_v4 : List ℕ → List ℕ → Result Parsed
read_v4 prefix reader = do
  (tail, rest) ← read_full 42 reader
  let header = prefix ++ tail
  ok (record {
    header = header;
    version = version4;
    leg_id = get_or prefix 5 0;
    mode = mode_stream;
    session_id = slice 6 22 header;
    nonce = slice 30 46 header;
    capabilities = 0;
    timestamp = to_int64 (be_value (slice 22 30 header));
    destination_length = be_value (slice 46 48 header);
    rest = rest;
  })

unfoldable pub read_v5 : List ℕ → List ℕ → Result Parsed
read_v5 prefix reader = do
  (tail, rest) ← read_full 43 reader
  let header = prefix ++ tail
  fail_if (get_or header 6 0 != mode_datagram) invalid_v5_mode
  ok (record {
    header = header;
    version = version5;
    leg_id = get_or prefix 5 0;
    mode = get_or header 6 0;
    session_id = slice 7 23 header;
    nonce = slice 31 47 header;
    capabilities = 0;
    timestamp = to_int64 (be_value (slice 23 31 header));
    destination_length = be_value (slice 47 49 header);
    rest = rest;
  })

-- Versions 6 and 7.
unfoldable pub read_v67 : ℕ → List ℕ → List ℕ → Result Parsed
read_v67 version prefix reader = do
  (tail, rest) ← read_full 47 reader
  let header = prefix ++ tail
  fail_if (get_or header 6 0 != mode_stream) invalid_mode
  let capabilities = be_value (slice 47 51 header)
  fail_if (version == version6 && bad_v6_capabilities capabilities) invalid_capabilities
  fail_if (version == version7 && bad_v7_capabilities capabilities) invalid_capabilities
  ok (record {
    header = header;
    version = version;
    leg_id = get_or prefix 5 0;
    mode = get_or header 6 0;
    session_id = slice 7 23 header;
    nonce = slice 31 47 header;
    capabilities = capabilities;
    timestamp = to_int64 (be_value (slice 23 31 header));
    destination_length = be_value (slice 51 53 header);
    rest = rest;
  })

-- The `switch version`.
unfoldable pub read_switch : ℕ → List ℕ → List ℕ → Result Parsed
read_switch version prefix rest =
    if version == version4
    then read_v4 prefix rest
    else if version == version5
    then read_v5 prefix rest
    else if version == version6 || version == version7
    then read_v67 version prefix rest
    else err invalid_version

-- The prefix of six bytes, and the rest of the header by its version.
unfoldable pub read_header : List ℕ → Result Parsed
unfolding read_switch
read_header reader = do
  (prefix, rest) ← read_full 6 reader
  fail_if
      (get_or prefix 0 0 != b'S'
        || get_or prefix 1 0 != b'M'
        || get_or prefix 2 0 != b'P'
        || get_or prefix 3 0 != b'3')
      invalid_hello
  read_switch (get_or prefix 4 0) prefix rest

-- sent.Before(now.Add(-helloSkew)) || sent.After(now.Add(helloSkew))
unfoldable pub stale : ℤ → ℤ → Bool
stale timestamp now =
    before (unix_nanos timestamp) (sub_nanos now hello_skew)
    || before (add_nanos now hello_skew) (unix_nanos timestamp)

module _ (mac : List ℕ → List ℕ → List ℕ) where
  pub encode_hello_parts : Hello → List ℕ → Result (List ℕ × List ℕ × List ℕ)
  encode_hello_parts hello password = do
    check_hello hello password
    let header = row (hello_fields hello)
    ok (header, hello.destination, mac password (header ++ hello.destination))

  -- `ReadHelloAt` behind the `switch`: the clock, the destination and the code.
  pub finish_hello : Parsed → List ℕ → ℤ → Result (Hello × List ℕ)
  finish_hello p password now = do
    fail_if (stale p.timestamp now) stale_hello
    fail_if (p.destination_length == 0) empty_destination
    (destination, behind) ← read_full p.destination_length p.rest
    (got, rest) ← read_full 32 behind
    fail_if (not (bytes_equal got (mac password (p.header ++ destination)))) invalid_authentication
    ok (
      record {
        version = p.version;
        session_id = p.session_id;
        leg_id = p.leg_id;
        mode = p.mode;
        timestamp = p.timestamp;
        nonce = p.nonce;
        capabilities = p.capabilities;
        destination = destination;
      },
      rest,
    )

  -- The HELLO, and the bytes of the carrier behind it.
  pub read_hello_at : List ℕ → List ℕ → ℤ → Result (Hello × List ℕ)
  unfolding finish_hello
  read_hello_at reader password now = do
    fail_if (length password == 0) empty_password
    p ← read_header reader
    finish_hello p password now

-- ===== src/Path/Examples.antt =====
-- core/stream_path_protocol.go: one exchange under a stand-in for HMAC-SHA256, and a writer that takes
-- one byte at a time.
use smp3_multipath_kit_publi.Path.Drain.RoundTrip.{decode_drain_message-encode}
use smp3_multipath_kit_publi.Path.Ready.RoundTrip.{read_ready-encode}
use smp3_multipath_kit_publi.Path.Rtt.RoundTrip.{decode_rtt_message-encode}
use smp3_multipath_kit_publi.Path.Drain.Accept.{decode_drain_message-canonical, DrainAccepted}
use smp3_multipath_kit_publi.Path.Rtt.Accept.{decode_rtt_message-canonical}
use smp3_multipath_kit_publi.Path.Ready.Accept.{Negotiated, read_ready-Negotiated}
use smp3_multipath_kit_publi.Path.Drain.{
  drain_message_mac, decode_drain_message, StreamDrainMessage, encode_drain_message, drain_fields,
  valid_drain_message,
}
use smp3_multipath_kit_publi.Path.Rtt.{
  rtt_message_mac, encode_rtt_message, rtt_fields, binding_of, validate_rtt_message,
  decode_rtt_message, StreamRttMessage,
}
use smp3_multipath_kit_publi.Path.Writer.{
  IsWriter, Delivered, write_protocol_full-Delivered, write_protocol_full,
}
use smp3_multipath_kit_publi.Path.Agree.{
  write_ready_with_nonce-ClientAgrees, send_ready, write_ready_with_nonce, ClientAgrees,
}
use smp3_multipath_kit_publi.Path.Ready.{
  ready_mac, read_ready, ready_fields, encode_ready, ready_of, ready_magic,
}
use smp3_multipath_kit_publi.Path.{
  derive_drain_control_key, ready_mismatch, derive_path_auth, bound_drain_key, validate_ready_hello,
  validate_binding, path_key_of, derive_path_probe_key, valid_selected_capabilities, StreamPathAuth,
  validate_path_hello, make_path_auth, drain_keys_of,
}
use smp3_multipath_kit_publi.Base.{
  none, arith, append-nil, true, [], some, ◌≤◌, refl, ◌≡◌, sym, ◌∷◌, ◌++◌, length, List, take,
  replicate, ℕ, All, Option, drop, pos,
}
use smp3_multipath_kit_publi.Wire.Hello.Examples.{bytes_of_small, toy_mac, toy_mac_size}
use smp3_multipath_kit_publi.Wire.Bytes.{be, row, IsByte, bytes_equal}
use smp3_multipath_kit_publi.Wire.Result.{ok, Result, Error}
use smp3_multipath_kit_publi.Wire.Hello.{Hello, IsHello}

abbrev hello : Hello
hello = record {
  version = 7;
  session_id = replicate 16 1;
  leg_id = 3;
  mode = 0;
  timestamp = pos 1000;
  nonce = replicate 16 9;
  capabilities = 3;
  destination = 97 ∷ [];
}

hello-IsHello : IsHello hello
hello-IsHello = record {
  session_size = refl;
  nonce_size = refl;
  timestamp_fits = omega arith;
  capabilities_fits = omega arith;
}

abbrev password : List ℕ
password = 42 ∷ []

abbrev server_nonce : List ℕ
server_nonce = replicate 16 5

-- The server selects both features.
abbrev prefix : List ℕ
prefix = row (ready_fields hello 3 server_nonce)

abbrev ready_wire : List ℕ
ready_wire = prefix ++ ready_mac toy_mac hello prefix password

abbrev auth : StreamPathAuth
auth = record {
  session_id = hello.session_id;
  leg_id = 3;
  capabilities = 3;
  probe_key = replicate 32 78;
  drain_key = replicate 32 88;
  drain_binding = replicate 16 78;
  authenticated = true;
  handshake_rtt = pos 0;
  handshake_at = 0;
}

read_ready-encode_example :
    read_ready toy_mac (ready_wire ++ (255 ∷ [])) hello password
    ≡ ok (ready_of hello 3 server_nonce, auth, 255 ∷ [])
unfolding ready_mac ready_magic be encode_ready validate_ready_hello valid_selected_capabilities
    make_path_auth derive_path_auth path_key_of drain_keys_of ready_mismatch derive_path_probe_key
    derive_drain_control_key bound_drain_key validate_path_hello bytes_equal
read_ready-encode_example =
    read_ready-encode toy_mac toy_mac_size hello 3 server_nonce password (255 ∷ []) hello-IsHello
      (omega arith) refl refl refl

ready_bytes : All IsByte (ready_wire ++ (255 ∷ []))
unfolding ready_mac ready_magic be
ready_bytes = bytes_of_small (ready_wire ++ (255 ∷ [])) refl

read_ready-Negotiated_example :
    ((wire : List ℕ) × (ready_wire ++ (255 ∷ []) ≡ wire ++ (255 ∷ []))
      × (length wire ≡ 78)
      × (take 46 wire ≡ row (ready_fields hello 3 server_nonce))
      × (drop 46 wire ≡ ready_mac toy_mac hello (take 46 wire) password))
    × Negotiated hello (ready_of hello 3 server_nonce) auth
read_ready-Negotiated_example =
    read_ready-Negotiated toy_mac (ready_wire ++ (255 ∷ [])) hello password ready_bytes
      read_ready-encode_example

abbrev byte_writer : List ℕ → List ℕ → List ℕ × ℕ × Option Error
byte_writer w [] = (w, 0, none)
byte_writer w (b ∷ bs) = (w ++ (b ∷ []), 1, none)

byte_writer-IsWriter : IsWriter byte_writer (λ w. w)
byte_writer-IsWriter = record {
  takes_front = λ w bytes. front w bytes;
  takes_part = λ w bytes. part w bytes;
}
  where
    front : (w bytes : List ℕ) → (byte_writer w bytes).0 ≡ w ++ take (byte_writer w bytes).1 bytes
    front w [] = sym (append-nil w)
    front w (b ∷ bs) = refl

    part : (w bytes : List ℕ) → (byte_writer w bytes).1 ≤ length bytes
    part w [] = omega arith
    part w (b ∷ bs) = omega arith

write_protocol_full-Delivered_example :
    (written : List ℕ × Result (Unit {0})) × (write_protocol_full byte_writer 3
        (7 ∷ [])
        (1 ∷ 2 ∷ 3 ∷ [])
      ≡ some written)
    × Delivered (λ w. w) (7 ∷ []) (1 ∷ 2 ∷ 3 ∷ []) written
write_protocol_full-Delivered_example =
    write_protocol_full-Delivered byte_writer (λ w. w) byte_writer-IsWriter 3 (7 ∷ [])
      (1 ∷ 2 ∷ 3 ∷ []) (omega arith)

write_ready_with_nonce-ClientAgrees_example :
    ClientAgrees byte_writer toy_mac hello 3 server_nonce password auth [] ready_wire
unfolding write_ready_with_nonce send_ready write_protocol_full encode_ready ready_mac ready_magic
    be validate_ready_hello valid_selected_capabilities make_path_auth derive_path_auth path_key_of
    drain_keys_of ready_mismatch derive_path_probe_key derive_drain_control_key bound_drain_key
    validate_path_hello bytes_equal
write_ready_with_nonce-ClientAgrees_example =
    write_ready_with_nonce-ClientAgrees byte_writer toy_mac toy_mac_size (λ w. w)
      byte_writer-IsWriter [] hello 3 server_nonce password hello-IsHello (omega arith) refl refl

abbrev probe : StreamRttMessage
probe = record {
  kind = 1;
  identity = record {
    session_id = hello.session_id;
    leg_id = 3;
    carrier_id = 99 ∷ [];
    generation = 4;
    direction = 1;
  };
  token = 77;
}

abbrev probe_wire : List ℕ
probe_wire =
    row (rtt_fields probe) ++ rtt_message_mac toy_mac auth.probe_key (row (rtt_fields probe))

decode_rtt_message-encode_example :
    decode_rtt_message toy_mac probe_wire auth.probe_key (binding_of probe.identity) ≡ ok probe
unfolding encode_rtt_message validate_rtt_message validate_binding be
decode_rtt_message-encode_example =
    decode_rtt_message-encode toy_mac toy_mac_size probe auth.probe_key
      (record { session_size = refl; token_fits = omega arith }) refl

probe_wire-All : All IsByte probe_wire
unfolding be
probe_wire-All = bytes_of_small probe_wire refl

decode_rtt_message-canonical_example :
    (binding_of probe.identity ≡ binding_of probe.identity)
    × (encode_rtt_message toy_mac probe auth.probe_key ≡ ok probe_wire)
decode_rtt_message-canonical_example =
    decode_rtt_message-canonical toy_mac probe_wire auth.probe_key (binding_of probe.identity)
      probe_wire-All decode_rtt_message-encode_example

abbrev intent : StreamDrainMessage
intent = record {
  kind = 1;
  sender_role = 1;
  session_id = hello.session_id;
  target_leg = 2;
  generation = 4;
  target_binding = replicate 16 8;
  operation_id = replicate 16 6;
  counter = 1;
  acked_next = 12;
  outstanding_frames = 3;
  outstanding_bytes = 4096;
}

abbrev intent_wire : List ℕ
intent_wire =
    row (drain_fields intent)
    ++ drain_message_mac toy_mac auth.drain_key (row (drain_fields intent))

decode_drain_message-encode_example : decode_drain_message toy_mac auth intent_wire 1 ≡ ok intent
unfolding encode_drain_message valid_drain_message bytes_equal be
decode_drain_message-encode_example =
    decode_drain_message-encode toy_mac toy_mac_size auth intent
      (record {
        session_size = refl;
        generation_fits = omega arith;
        binding_size = refl;
        operation_size = refl;
        counter_fits = omega arith;
        acked_fits = omega arith;
        frames_fit = omega arith;
        bytes_fit = omega arith;
      })
      refl

intent_wire-All : All IsByte intent_wire
unfolding be
intent_wire-All = bytes_of_small intent_wire refl

decode_drain_message-canonical_example :
    DrainAccepted auth 1 intent × (encode_drain_message toy_mac auth intent ≡ ok intent_wire)
decode_drain_message-canonical_example =
    decode_drain_message-canonical toy_mac auth intent_wire 1 intent_wire-All
      decode_drain_message-encode_example

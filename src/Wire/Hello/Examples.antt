-- ===== src/Wire/Hello/Examples.antt =====
-- core/hello.go: a HELLO of version 5 under a stand-in for HMAC-SHA256.
use smp3_multipath_kit_publi.Wire.Hello.{
  hello_fields, Hello, IsHello, check_hello, encode_hello_parts, stale, read_hello_at,
}
use smp3_multipath_kit_publi.Base.{
  List, length-replicate, [], ◌++◌, ◌≡◌, length, ◌%◌, ℕ, replicate, ◌+◌, arith, pos, refl, ◌∷◌,
  add_nanos, unix_nanos, sub_nanos, before, All, ltb, to_uint64, true, Bool, ◌&&◌,
}
use smp3_multipath_kit_publi.Wire.Hello.RoundTrip.{read_hello_at-encode}
use smp3_multipath_kit_publi.Wire.Hello.Accept.{read_hello_at-Authentic, Authentic}
use smp3_multipath_kit_publi.Wire.Result.{ok}
use smp3_multipath_kit_publi.Wire.Bytes.{row, IsByte, be}

-- 32 bytes that depend on both arguments.
abbrev pub toy_mac : List ℕ → List ℕ → List ℕ
toy_mac key text = replicate 32 ((length key + length text) % 256)

pub toy_mac_size : (key text : List ℕ) → length (toy_mac key text) ≡ 32
toy_mac_size key text = length-replicate 32 ((length key + length text) % 256)

abbrev hello : Hello
hello = record {
  version = 5;
  session_id = replicate 16 1;
  leg_id = 3;
  mode = 1;
  timestamp = pos 1000;
  nonce = replicate 16 9;
  capabilities = 0;
  destination = 97 ∷ 98 ∷ [];
}

hello-IsHello : IsHello hello
hello-IsHello = record {
  session_size = refl;
  nonce_size = refl;
  timestamp_fits = omega arith;
  capabilities_fits = omega arith;
}

abbrev key : List ℕ
key = 42 ∷ []

abbrev code : List ℕ
code = toy_mac key (row (hello_fields hello) ++ hello.destination)

-- One byte more is on the carrier.
abbrev carrier : List ℕ
carrier = row (hello_fields hello) ++ (hello.destination ++ (code ++ (255 ∷ [])))

read_hello_at-encode_example :
    read_hello_at toy_mac carrier key (pos 1000000000000) ≡ ok (hello, 255 ∷ [])
unfolding encode_hello_parts check_hello hello_fields stale before unix_nanos sub_nanos add_nanos
read_hello_at-encode_example =
    read_hello_at-encode toy_mac toy_mac_size hello key (pos 1000000000000) (255 ∷ []) hello-IsHello
      refl refl

abbrev pub all_small : List ℕ → Bool
all_small [] = true
all_small (x ∷ xs) = ltb x 256 && all_small xs

pub bytes_of_small : (xs : List ℕ) → all_small xs ≡ true → All IsByte xs
bytes_of_small [] h = tt
bytes_of_small (x ∷ xs) h = ground (arith, bytes_of_small xs)

carrier-All : All IsByte carrier
unfolding hello_fields be to_uint64
carrier-All = bytes_of_small carrier refl

read_hello_at-Authentic_example : Authentic toy_mac carrier key (pos 1000000000000) hello (255 ∷ [])
read_hello_at-Authentic_example =
    read_hello_at-Authentic toy_mac carrier key (pos 1000000000000) carrier-All
      read_hello_at-encode_example

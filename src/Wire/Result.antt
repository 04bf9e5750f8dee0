-- ===== src/Wire/Result.antt =====
-- Go's (value, error) pairs on the wire path. The value that comes with an error is dropped: every
-- caller tests the error first.
use smp3_multipath_kit_publi.Base.{Bool, true, false, ◌≡◌, refl, ◌⊎◌, inl, inr}

-- The errors of core/hello.go, core/stream_frame.go, core/datagram_engine.go and
-- core/stream_path_protocol.go, io.ReadFull's, and a writer's own (`write_failed`).
pub data Error : Type 0 where
  eof unexpected_eof short_buffer : Error
  empty_password invalid_hello invalid_version invalid_mode invalid_v5_mode : Error
  stale_hello empty_destination invalid_destination invalid_authentication : Error
  invalid_capabilities : Error
  unknown_frame_type invalid_control_size invalid_frame_length : Error
  datagram_address datagram_too_large datagram_type datagram_length : Error
  datagram_address_length datagram_exceeds_maximum : Error
  path_negotiation path_message : Error
  drain_negotiation drain_message : Error
  short_write write_failed : Error

pub data Result {ℓ} (V : Type ℓ) : Type ℓ where
  ok : V → Result V
  err : Error → Result V

-- `if bad { return err }`
abbrev pub fail_if : Bool → Error → Result (Unit {0})
fail_if true why = err why
fail_if false why = ok tt

infixl 5 ◌>>=◌
abbrev pub ◌>>=◌ {ℓ κ} : {V : Type ℓ} {W : Type κ} → Result V → (V → Result W) → Result W
ok value >>= next = next value
err why >>= next = err why

infixl 5 ◌>>◌
abbrev pub ◌>>◌ {κ} : {W : Type κ} → Result (Unit {0}) → Result W → Result W
test >> after = test >>= λ _. after

-- An inversion is by cases on how the first step ended.
pub Result-cases {ℓ} :
    {V : Type ℓ} (r : Result V) → ((v : V) × (r ≡ ok v)) ⊎ ((why : Error) × (r ≡ err why))
Result-cases (ok v) = inl (v, refl)
Result-cases (err why) = inr (why, refl)

pub bind→ok {κ ℓ} :
    {W : Type κ} {V : Type ℓ} (first : Result W) (next : W → Result V) {result : V}
    → (first >>= next) ≡ ok result
    → (middle : W) × (first ≡ ok middle) × (next middle ≡ ok result)
bind→ok (ok middle) next whole = (middle, refl, whole)
bind→ok (err why) next whole = cc

pub fail_if→ok {ℓ} :
    {V : Type ℓ} (bad : Bool) (why : Error) (after : Result V) {result : V}
    → (fail_if bad why >> after) ≡ ok result
    → (bad ≡ false) × (after ≡ ok result)
fail_if→ok true why after whole = cc
fail_if→ok false why after whole = (refl, whole)

pub ok_injective {ℓ} : {V : Type ℓ} {v w : V} → ok v ≡ ok w → v ≡ w
ok_injective e = cc

-- ===== src/Path/Probe/Answer.antt =====
-- core/stream_rtt_probe_cache.go: the cache that a probe reaches, and the echo that it returns.
use smp3_multipath_kit_publi.Path.Probe.Cache.{
  is_bound, leg_at, valid_direction, direction_at, set_direction,
}
use smp3_multipath_kit_publi.Path.Probe.Exchange.{
  echo_message, answer_probe, accept_probe, probe_message,
}
use smp3_multipath_kit_publi.Path.{validate_binding, StreamPathBinding}
use smp3_multipath_kit_publi.Path.Probe.{
  RttDirection, RttProbeCache, empty_leg, done, refused, replay, bad_message, stale_generation,
}
use smp3_multipath_kit_publi.Path.Rtt.{
  StreamRttMessage, StreamPathIdentity, encode_rtt_message, rtt_message_mac, validate_rtt_message,
  binding_of, rtt_fields, client_to_server, decode_rtt_message, rtt_probe,
}
use smp3_multipath_kit_publi.Base.{
  refl, ◌++◌, leb, true, ℕ, ◌≡◌, if◌then◌else◌, List, ◌⊎◌, length, false, arith, Bool, ◌==◌,
  Bool-cases, inr, inl, get_or-set_self, ◌∙◌, length-set, ◌!=◌, ap, not, ◌||◌,
}
use smp3_multipath_kit_publi.Wire.Result.{ok, ok_injective, bind→ok}
use smp3_multipath_kit_publi.Wire.Bytes.{row}

-- The same leg at the other end, whose carrier has an id and a generation of its own.
abbrev pub seen_as : StreamPathIdentity → List ℕ → ℕ → StreamPathIdentity
seen_as i carrier generation = record i { carrier_id = carrier; generation = generation }

pub if_false : {A : Type 0} (b : Bool) (x y : A) → b ≡ false → (if b then x else y) ≡ y
if_false false x y e = refl
if_false true x y e = absurd (ground (arith, e))

pub if_true : {A : Type 0} (b : Bool) (x y : A) → b ≡ true → (if b then x else y) ≡ x
if_true true x y e = refl
if_true false x y e = absurd (ground (arith, e))

-- A message that differs from a valid one in its kind and its carrier.
pub revalidate :
    (m n : StreamRttMessage)
    → validate_rtt_message m ≡ ok tt
    → validate_binding (binding_of n.identity) ≡ ok tt
    → n.identity.direction ≡ m.identity.direction
    → n.token ≡ m.token
    → (n.kind ≡ 1) ⊎ (n.kind ≡ 2)
    → validate_rtt_message n ≡ ok tt
unfolding validate_rtt_message validate_binding
revalidate m n e b d t k = ground arith

pub leg_at-set_direction :
    (c : RttProbeCache) (id d : ℕ) (new : RttDirection)
    → leb (length c.legs) id ≡ false
    → (is_bound (leg_at (set_direction c id d new) id) ≡ is_bound (leg_at c id))
      × ((leg_at (set_direction c id d new) id).probe_key ≡ (leg_at c id).probe_key)
      × (direction_at (leg_at (set_direction c id d new) id) d ≡ new)
unfolding set_direction is_bound
leg_at-set_direction c id d new inside =
    let leg = leg_at c id in
    let stored : leg_at (set_direction c id d new) id ≡ (
        if d == client_to_server
        then record leg { outward = new }
        else record leg { inward = new }) =
      get_or-set_self c.legs id _ empty_leg (ground (arith, inside)) in
    elim (Bool-cases (d == client_to_server)) [
      | inl outward ↦ rw (stored, outward) (refl, refl, refl)
      | inr inward ↦ rw (stored, inward) (refl, refl, refl)
    ]

-- A cache that is open and bound, and has not seen the token on this leg and direction.
pub record CanAnswer (c : RttProbeCache) (theirs : StreamPathIdentity) (key : List ℕ) (token : ℕ)
    : Type 0 where
  pub is_open : c.cache_closed ≡ false
  pub in_range : leb (length c.legs) theirs.leg_id ≡ false
  pub bound_to : is_bound (leg_at c theirs.leg_id) (binding_of theirs) ≡ true
  pub valid : validate_binding (binding_of theirs) ≡ ok tt
  pub same_key : (leg_at c theirs.leg_id).probe_key ≡ key
  pub unseen :
      leb token (direction_at (leg_at c theirs.leg_id) theirs.direction).last_peer_token ≡ false

-- The cache that has answered.
abbrev pub answered : RttProbeCache → StreamPathIdentity → ℕ → RttProbeCache
answered c theirs token =
    set_direction c theirs.leg_id theirs.direction
      (record (direction_at (leg_at c theirs.leg_id) theirs.direction) { last_peer_token = token })

pub set_direction-inside :
    (c : RttProbeCache) (id j d : ℕ) (new : RttDirection)
    → leb (length c.legs) j ≡ false
    → leb (length (set_direction c id d new).legs) j ≡ false
unfolding set_direction
set_direction-inside c id j d new inside = ap (λ n. leb n j) (length-set c.legs id _) ∙ inside

module _ (mac : List ℕ → List ℕ → List ℕ)
    (mac_size : (key text : List ℕ) → length (mac key text) ≡ 32) where
  pub encode→ok :
      (m : StreamRttMessage) (key : List ℕ) {wire : List ℕ}
      → encode_rtt_message mac m key ≡ ok wire
      → (validate_rtt_message m ≡ ok tt)
        × ((row (rtt_fields m) ++ rtt_message_mac mac key (row (rtt_fields m))) ≡ wire)
  unfolding encode_rtt_message
  encode→ok m key {wire} e =
      let (_, valid, same) = bind→ok (validate_rtt_message m) _ e in (valid, ok_injective same)

  pub ok→encode :
      (m : StreamRttMessage) (key : List ℕ)
      → validate_rtt_message m ≡ ok tt
      → encode_rtt_message mac m key
        ≡ ok (row (rtt_fields m) ++ rtt_message_mac mac key (row (rtt_fields m)))
  unfolding encode_rtt_message
  ok→encode m key e = rw e refl

  accept_probe-decoded :
      (c : RttProbeCache) (theirs : StreamPathIdentity) (token : ℕ) (key wire : List ℕ)
      → c.cache_closed ≡ false
      → leb (length c.legs) theirs.leg_id ≡ false
      → is_bound (leg_at c theirs.leg_id) (binding_of theirs) ≡ true
      → (leg_at c theirs.leg_id).probe_key ≡ key
      → valid_direction theirs.direction ≡ true
      → decode_rtt_message mac wire key (binding_of theirs) ≡ ok (probe_message theirs token)
      → accept_probe mac c (binding_of theirs) theirs.direction wire
        ≡ answer_probe mac c theirs.leg_id (probe_message theirs token) theirs.direction
  unfolding accept_probe
  accept_probe-decoded c theirs token key wire is_open in_range bound same_key directed decoded =
      if_false (leb (length c.legs) theirs.leg_id || not (valid_direction theirs.direction))
        (c, refused bad_message) _ (ground (arith, in_range, directed))
      ∙ if_false (c.cache_closed || not (is_bound (leg_at c theirs.leg_id) (binding_of theirs)))
          (c, refused stale_generation) _ (ground (arith, is_open, bound))
      ∙ rw (same_key, decoded) refl

  answer_probe-echo :
      (c : RttProbeCache) (theirs : StreamPathIdentity) (token : ℕ) (key : List ℕ) {echo : List ℕ}
      → CanAnswer c theirs key token
      → encode_rtt_message mac (echo_message theirs token) key ≡ ok echo
      → answer_probe mac c theirs.leg_id (probe_message theirs token) theirs.direction
        ≡ (answered c theirs token, done echo)
  unfolding answer_probe
  answer_probe-echo c theirs token key w encoded =
      if_false (rtt_probe != rtt_probe || theirs.direction != theirs.direction)
        (c, refused bad_message) _ (ground arith)
      ∙ if_false
          (leb token (direction_at (leg_at c theirs.leg_id) theirs.direction).last_peer_token)
          (c, refused replay) _ w.unseen
      ∙ rw (w.same_key, encoded) refl

  answer_probe-replay :
      (c : RttProbeCache) (theirs : StreamPathIdentity) (token : ℕ)
      → (direction_at (leg_at c theirs.leg_id) theirs.direction).last_peer_token ≡ token
      → answer_probe mac c theirs.leg_id (probe_message theirs token) theirs.direction
        ≡ (c, refused replay)
  unfolding answer_probe
  answer_probe-replay c theirs token seen =
      if_false (rtt_probe != rtt_probe || theirs.direction != theirs.direction)
        (c, refused bad_message) _ (ground arith)
      ∙ if_true (leb token (direction_at (leg_at c theirs.leg_id) theirs.direction).last_peer_token)
          (c, refused replay) _ (ground (arith, seen))

  pub accept_probe-echo :
      (c : RttProbeCache) (theirs : StreamPathIdentity) (token : ℕ) (key wire : List ℕ)
      {echo : List ℕ}
      → CanAnswer c theirs key token
      → valid_direction theirs.direction ≡ true
      → decode_rtt_message mac wire key (binding_of theirs) ≡ ok (probe_message theirs token)
      → encode_rtt_message mac (echo_message theirs token) key ≡ ok echo
      → (accept_probe mac c (binding_of theirs) theirs.direction wire
          ≡ (answered c theirs token, done echo))
        × (accept_probe mac (answered c theirs token) (binding_of theirs) theirs.direction wire
            ≡ (answered c theirs token, refused replay))
  unfolding set_direction
  accept_probe-echo c theirs token key wire w directed decoded encoded =
      let leg = theirs.leg_id in
      let d = record (direction_at (leg_at c leg) theirs.direction) { last_peer_token = token } in
      let (same_bound, kept_key, kept) = leg_at-set_direction c leg theirs.direction d w.in_range in
      (
        accept_probe-decoded c theirs token key wire w.is_open w.in_range w.bound_to w.same_key
              directed decoded
            ∙ answer_probe-echo c theirs token key w encoded,
        accept_probe-decoded (answered c theirs token) theirs token key wire w.is_open
              (set_direction-inside c leg leg theirs.direction d w.in_range)
              (ap (λ (bound : StreamPathBinding → Bool). bound (binding_of theirs)) same_bound
                ∙ w.bound_to)
              (kept_key ∙ w.same_key) directed decoded
            ∙ answer_probe-replay (answered c theirs token) theirs token
                (ap (λ (d : RttDirection). d.last_peer_token) kept),
      )

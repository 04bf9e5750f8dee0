-- ===== src/Path/Probe/Echo.antt =====
-- core/stream_rtt_probe_cache.go: an echo that comes back to the cache that sent the probe.
use smp3_multipath_kit_publi.Path.Probe.Cache.{
  is_bound, set_direction, leg_at, valid_direction, same_identity, direction_at,
}
use smp3_multipath_kit_publi.Path.Probe.Exchange.{
  echo_message, match_echo, accept_echo, settle_probe,
}
use smp3_multipath_kit_publi.Path.Probe.Sample.{record_sample}
use smp3_multipath_kit_publi.Path.{StreamPathBinding, stream_rtt_probe_timeout}
use smp3_multipath_kit_publi.Path.Probe.Answer.{
  leg_at-set_direction, set_direction-inside, if_false, if_true,
}
use smp3_multipath_kit_publi.Path.Probe.{
  stale_generation, RttProbeCache, probe_expired, bad_message, done, refused, no_pending,
}
use smp3_multipath_kit_publi.Wire.Bytes.{bytes_equal_refl}
use smp3_multipath_kit_publi.Path.Rtt.{binding_of, decode_rtt_message, StreamPathIdentity, rtt_echo}
use smp3_multipath_kit_publi.Base.{
  ◌<◌, length, not, ◌==◌, List, lookup, true, ◌∙◌, ℕ, ap, ltb, refl, delete, false, Bool, none,
  arith, ◌||◌, ◌!=◌, ◌-◌, lookup-delete, leb, ◌≡◌, some,
}
use smp3_multipath_kit_publi.Wire.Result.{ok}

same_identity_refl : (i : StreamPathIdentity) → same_identity i i ≡ true
same_identity_refl i = ground (arith, bytes_equal_refl i.session_id, bytes_equal_refl i.carrier_id)

-- The token is retired.
abbrev pub retired : RttProbeCache → ℕ → RttProbeCache
retired c token = record c { pending = delete token c.pending }

-- The cache with the sample.
abbrev pub measured : RttProbeCache → StreamPathIdentity → ℕ → ℕ → ℕ → RttProbeCache
measured c mine token sent heard =
    set_direction (retired c token) mine.leg_id mine.direction
      (record_sample (direction_at (leg_at c mine.leg_id) mine.direction) mine (heard - sent) heard)

-- A cache where the leg is bound to the identity's carrier.
pub record IsLive (c : RttProbeCache) (mine : StreamPathIdentity) (key : List ℕ) : Type 0 where
  pub is_open : c.cache_closed ≡ false
  pub in_range : leb (length c.legs) mine.leg_id ≡ false
  pub bound_to : is_bound (leg_at c mine.leg_id) (binding_of mine) ≡ true
  pub same_key : (leg_at c mine.leg_id).probe_key ≡ key

pub measured-IsLive :
    (c : RttProbeCache) (mine : StreamPathIdentity) (key : List ℕ) (token sent heard : ℕ)
    → IsLive c mine key
    → IsLive (measured c mine token sent heard) mine key
unfolding set_direction
measured-IsLive c mine key token sent heard w =
    let new =
      record_sample (direction_at (leg_at c mine.leg_id) mine.direction) mine (heard - sent)
        heard in
    let (same_bound, kept_key, _) =
      leg_at-set_direction (retired c token) mine.leg_id mine.direction new w.in_range in
    record {
      is_open = w.is_open;
      in_range =
          set_direction-inside (retired c token) mine.leg_id mine.leg_id mine.direction new
            w.in_range;
      bound_to =
          ap (λ (bound : StreamPathBinding → Bool). bound (binding_of mine)) same_bound
          ∙ w.bound_to;
      same_key = kept_key ∙ w.same_key;
    }

module _ (mac : List ℕ → List ℕ → List ℕ) where
  accept_echo-decoded :
      (c : RttProbeCache) (mine : StreamPathIdentity) (token : ℕ) (key wire : List ℕ) (now : ℕ)
      → IsLive c mine key
      → valid_direction mine.direction ≡ true
      → decode_rtt_message mac wire key (binding_of mine) ≡ ok (echo_message mine token)
      → accept_echo mac c mine wire now ≡ match_echo mac c mine (echo_message mine token) now
  unfolding accept_echo
  accept_echo-decoded c mine token key wire now w directed decoded =
      if_false (leb (length c.legs) mine.leg_id || not (valid_direction mine.direction))
        (c, refused bad_message) _ (ground (arith, w.in_range, directed))
      ∙ if_false (c.cache_closed || not (is_bound (leg_at c mine.leg_id) (binding_of mine)))
          (c, refused stale_generation) _ (ground (arith, w.is_open, w.bound_to))
      ∙ rw (w.same_key, decoded) refl

  match_echo-measured :
      (c : RttProbeCache) (mine : StreamPathIdentity) (token sent heard : ℕ)
      → lookup token c.pending ≡ some (record { pending_identity = mine; probe_started = sent })
      → sent < heard
      → heard - sent < stream_rtt_probe_timeout
      → match_echo mac c mine (echo_message mine token) heard
        ≡ (measured c mine token sent heard, done tt)
  unfolding match_echo settle_probe
  match_echo-measured c mine token sent heard waits later in_time =
      if_false (rtt_echo != rtt_echo || mine.direction != mine.direction) (c, refused bad_message) _
        (ground arith)
      ∙ rw waits (
          if_true (same_identity mine mine) _ (c, refused no_pending) (same_identity_refl mine)
          ∙ if_false (ltb heard sent || leb stream_rtt_probe_timeout (heard - sent))
              (retired c token, refused probe_expired) _ (ground (arith, later, in_time))
          ∙ if_false (heard - sent == 0) (retired c token, done tt) _ (ground (arith, later)))

  match_echo-gone :
      (c : RttProbeCache) (mine : StreamPathIdentity) (token now : ℕ)
      → lookup token c.pending ≡ none
      → match_echo mac c mine (echo_message mine token) now ≡ (c, refused no_pending)
  unfolding match_echo
  match_echo-gone c mine token now gone =
      if_false (rtt_echo != rtt_echo || mine.direction != mine.direction) (c, refused bad_message) _
        (ground arith)
      ∙ rw gone refl

  pub accept_echo-measured :
      (c : RttProbeCache) (mine : StreamPathIdentity) (token sent heard : ℕ) (key wire : List ℕ)
      → IsLive c mine key
      → valid_direction mine.direction ≡ true
      → decode_rtt_message mac wire key (binding_of mine) ≡ ok (echo_message mine token)
      → lookup token c.pending ≡ some (record { pending_identity = mine; probe_started = sent })
      → sent < heard
      → heard - sent < stream_rtt_probe_timeout
      → (accept_echo mac c mine wire heard ≡ (measured c mine token sent heard, done tt))
        × ((later : ℕ)
            → accept_echo mac (measured c mine token sent heard) mine wire later
              ≡ (measured c mine token sent heard, refused no_pending))
  unfolding set_direction
  accept_echo-measured c mine token sent heard key wire w directed decoded waits after in_time =
      let c' = measured c mine token sent heard in
      let gone : lookup token (delete token c.pending) ≡ none =
        ground (arith, lookup-delete token token c.pending) in
      (
        accept_echo-decoded c mine token key wire heard w directed decoded
            ∙ match_echo-measured c mine token sent heard waits after in_time,
        λ later.
            accept_echo-decoded c' mine token key wire later
              (measured-IsLive c mine key token sent heard w) directed decoded
            ∙ match_echo-gone c' mine token later gone,
      )

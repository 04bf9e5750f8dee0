-- ===== src/Path/Probe/Cache.antt =====
-- core/stream_rtt_probe_cache.go: the operations of the cache. A nil cache is no cache.
use smp3_multipath_kit_publi.Path.{
  StreamPathBinding, StreamPathAuth, valid_for, stream_rtt_probe_timeout,
}
use smp3_multipath_kit_publi.Path.Rtt.{
  binding_of, server_to_client, StreamPathIdentity, client_to_server,
}
use smp3_multipath_kit_publi.Base.{
  get_or, ◌&&◌, true, ltb, lookup, ◌∷◌, Bool, ◌+◌, ◌||◌, ℕ, if◌then◌else◌, List, leb, set, some,
  none, length, ◌-◌, delete, ◌==◌, false, [], not,
}
use smp3_multipath_kit_publi.Wire.Bytes.{bytes_equal}
use smp3_multipath_kit_publi.Path.Probe.{
  cache_closed, done, refused, ProbeResult, RttPending, stale_generation, bad_negotiation,
  RttDirection, RttLeg, generation_reuse, empty_leg, RttProbeCache, bad_message,
}

-- StreamRTTProbePendingLimit
abbrev pub probe_pending_limit : ℕ
probe_pending_limit = 8

abbrev pub same_binding : StreamPathBinding → StreamPathBinding → Bool
same_binding a b =
    bytes_equal a.session_id b.session_id
    && a.leg_id == b.leg_id
    && bytes_equal a.carrier_id b.carrier_id
    && a.generation == b.generation

abbrev pub same_identity : StreamPathIdentity → StreamPathIdentity → Bool
same_identity a b = same_binding (binding_of a) (binding_of b) && a.direction == b.direction

abbrev pub valid_direction : ℕ → Bool
valid_direction d = d == client_to_server || d == server_to_client

abbrev pub leg_at : RttProbeCache → ℕ → RttLeg
leg_at c id = get_or c.legs id empty_leg

-- `c.closed || !c.active[id] || c.binding[id] != binding`, past the test for `closed`.
unfoldable pub is_bound : RttLeg → StreamPathBinding → Bool
is_bound leg binding = elim leg.bound [ none ↦ false | some b ↦ same_binding b binding ]

unfoldable pub drop_leg_pending : ℕ → List (ℕ × RttPending) → List (ℕ × RttPending)
drop_leg_pending id [] = []
drop_leg_pending id ((token, p) ∷ ps) =
    let rest = drop_leg_pending id ps in
    if p.pending_identity.leg_id == id then rest else (token, p) ∷ rest

-- `clearLegLocked`: the high-water mark of the generations stays.
unfoldable pub clear_leg : RttProbeCache → ℕ → RttProbeCache
clear_leg c id = record c {
  pending = drop_leg_pending id c.pending;
  legs = set c.legs id (record empty_leg { high_water = (leg_at c id).high_water });
}

unfoldable pub install_leg : RttProbeCache → StreamPathBinding → List ℕ → RttProbeCache
install_leg c binding key =
    let cleared = clear_leg c binding.leg_id in
    record cleared {
      legs = set cleared.legs binding.leg_id (record empty_leg {
        high_water = binding.generation;
        bound = some binding;
        probe_key = key;
      });
    }

unfoldable pub bind_leg :
    RttProbeCache → StreamPathBinding → StreamPathAuth → RttProbeCache × ProbeResult (Unit {0})
bind_leg c binding auth =
    let leg = leg_at c binding.leg_id in
    if length binding.carrier_id == 0 || binding.generation == 0
    then (c, refused bad_message)
    else if leb (length c.legs) binding.leg_id
    then (c, refused bad_message)
    else if not (valid_for auth binding)
    then (c, refused bad_negotiation)
    else if c.cache_closed
    then (c, refused cache_closed)
    else if ltb binding.generation leg.high_water
    then (c, refused stale_generation)
    else if binding.generation == leg.high_water
    then if is_bound leg binding && bytes_equal leg.probe_key auth.probe_key
      then (c, done tt)
      else (c, refused generation_reuse)
    else (install_leg c binding auth.probe_key, done tt)

unfoldable pub invalidate_probe_leg : RttProbeCache → StreamPathBinding → RttProbeCache × Bool
invalidate_probe_leg c binding =
    if leb (length c.legs) binding.leg_id
      || c.cache_closed
      || not (is_bound (leg_at c binding.leg_id) binding)
    then (c, false)
    else (clear_leg c binding.leg_id, true)

-- `expirePendingLocked`
abbrev pub is_expired : ℕ → RttPending → Bool
is_expired now p = leb p.probe_started now && leb stream_rtt_probe_timeout (now - p.probe_started)

unfoldable pub drop_expired : ℕ → List (ℕ × RttPending) → List (ℕ × RttPending)
drop_expired now [] = []
drop_expired now ((token, p) ∷ ps) =
    let rest = drop_expired now ps in if is_expired now p then rest else (token, p) ∷ rest

unfoldable pub count_pending : ℕ → List (ℕ × RttPending) → ℕ
count_pending id [] = 0
count_pending id ((token, p) ∷ ps) =
    (if p.pending_identity.leg_id == id then 1 else 0) + count_pending id ps

unfoldable pub cancel_probe : RttProbeCache → StreamPathIdentity → ℕ → RttProbeCache × Bool
cancel_probe c identity token =
    if leb (length c.legs) identity.leg_id || token == 0
    then (c, false)
    else elim (lookup token c.pending) [
      | none ↦ (c, false)
      | some p ↦
          if same_identity p.pending_identity identity
          then (record c { pending = delete token c.pending }, true)
          else (c, false)
    ]

abbrev pub direction_at : RttLeg → ℕ → RttDirection
direction_at leg d = if d == client_to_server then leg.outward else leg.inward

unfoldable pub set_direction : RttProbeCache → ℕ → ℕ → RttDirection → RttProbeCache
set_direction c id d new =
    let leg = leg_at c id in
    record c {
      legs = set c.legs id (
          if d == client_to_server
          then record leg { outward = new }
          else record leg { inward = new });
    }

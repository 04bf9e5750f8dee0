-- ===== src/Path/Probe/Feedback.antt =====
-- core/stream_rtt_probe_cache.go: what the scheduler reads, the sample of the handshake, and the close.
use smp3_multipath_kit_publi.Path.Probe.Cache.{
  same_binding, is_bound, set_direction, leg_at, valid_direction, same_identity, direction_at,
}
use smp3_multipath_kit_publi.Path.{
  StreamPathBinding, StreamPathAuth, valid_for, stream_rtt_probe_timeout,
}
use smp3_multipath_kit_publi.Path.Probe.Sample.{
  median_rtt, record_sample, sorted_rtts, sample_window,
}
use smp3_multipath_kit_publi.Path.Rtt.{StreamPathIdentity, binding_of, client_to_server}
use smp3_multipath_kit_publi.Path.Probe.{empty_leg, RttLeg, RttProbeCache, RttSample}
use smp3_multipath_kit_publi.Base.{
  if◌then◌else◌, not, Option, [], ◌!=◌, length, none, leb, ltb, ◌||◌, false, Bool, pos, ◌-◌, ℕ,
  ◌&&◌, ◌==◌, negsuc, List, true, ◌∷◌, some,
}

pub record StreamPathFeedback : Type 0 where
  pub feedback_identity : StreamPathIdentity
  pub rtt : ℕ
  pub samples : ℕ
  pub observed_at : ℕ

abbrev pub is_recent : ℕ → RttSample → Bool
is_recent now s = leb s.sampled_at now && leb (now - s.sampled_at) sample_window

-- `newest`, from the zero time on.
unfoldable pub newest_in : ℕ → List RttSample → ℕ → ℕ
newest_in now [] newest = newest
newest_in now (s ∷ ss) newest =
    newest_in now ss (if is_recent now s && ltb newest s.sampled_at then s.sampled_at else newest)

-- Two loads of the binding see the same one here.
unfoldable pub path_feedback_at : RttProbeCache → StreamPathIdentity → ℕ → Option StreamPathFeedback
path_feedback_at c identity now =
    let leg = leg_at c identity.leg_id in
    if leb (length c.legs) identity.leg_id || not (valid_direction identity.direction)
    then none
    else if not (is_bound leg (binding_of identity))
    then none
    else elim (direction_at leg identity.direction).published [
      | none ↦ none
      | some (owner, samples) ↦
          let recent = sorted_rtts now samples [] in
          if not (same_identity owner identity) then none else elim (median_rtt recent) [
            | none ↦ none
            | some median ↦ some (record {
              feedback_identity = identity;
              rtt = median;
              samples = length recent;
              observed_at = newest_in now samples 0;
            })
          ]
    ]

-- `observed` is the instant of the handshake, `now` the reading of time.Since.
unfoldable pub record_handshake_sample :
    RttProbeCache
    → StreamPathBinding
    → StreamPathIdentity
    → StreamPathAuth
    → ℕ
    → RttProbeCache × Bool
record_handshake_sample c binding identity auth now =
    let observed = auth.handshake_at in
    let leg = leg_at c binding.leg_id in
    elim auth.handshake_rtt [
      | negsuc n ↦ (c, false)
      | pos rtt ↦
          if leb (length c.legs) binding.leg_id
            || identity.direction != client_to_server
            || rtt == 0
            || leb stream_rtt_probe_timeout rtt
            || observed == 0
            || not (valid_for auth binding)
            || not (same_binding (binding_of identity) binding)
          then (c, false)
          else if c.cache_closed || not (is_bound leg binding)
          then (c, false)
          else if ltb now observed || ltb sample_window (now - observed)
          then (c, false)
          else (
            set_direction c identity.leg_id identity.direction
                (record_sample (direction_at leg identity.direction) identity rtt observed),
            true,
          )
    ]

unfoldable pub clear_legs : List RttLeg → List RttLeg
clear_legs [] = []
clear_legs (leg ∷ legs) = record empty_leg { high_water = leg.high_water } ∷ clear_legs legs

unfoldable pub close_probes : RttProbeCache → RttProbeCache
close_probes c =
    if c.cache_closed
    then c
    else record c { cache_closed = true; legs = clear_legs c.legs; pending = [] }

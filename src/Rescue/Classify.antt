-- ===== src/Rescue/Classify.antt =====
-- core/stream_bounded_rescue.go: ClassifyStreamRescue.
use smp3_multipath_kit_publi.Rescue.{
  cause_retry_planner, cause_probe, failure_recovery, StreamRescueEvidence, cause_frontier,
  healthy_hol, duplicate_or_rejected, original_data, cause_none, StreamRescueCause,
  StreamRescueClass, other_core_retry,
}
use smp3_multipath_kit_publi.Base.{
  ◌==◌, ◌!=◌, not, ◌&&◌, pos, ◌||◌, false, true, ℤ, Bool, negsuc, if◌then◌else◌,
}

-- A leg that is known: OwnerLeg >= 0.
abbrev pub is_leg : ℤ → Bool
is_leg (pos n) = true
is_leg (negsuc n) = false

abbrev pub same_int : ℤ → ℤ → Bool
same_int (pos a) (pos b) = a == b
same_int (pos a) (negsuc b) = false
same_int (negsuc a) (pos b) = false
same_int (negsuc a) (negsuc b) = a == b

abbrev pub is_probe_cause : StreamRescueCause → Bool
is_probe_cause cause_none = false
is_probe_cause cause_frontier = false
is_probe_cause cause_retry_planner = false
is_probe_cause cause_probe = true

abbrev pub is_frontier_cause : StreamRescueCause → Bool
is_frontier_cause cause_none = false
is_frontier_cause cause_frontier = true
is_frontier_cause cause_retry_planner = false
is_frontier_cause cause_probe = false

abbrev pub own_leg : StreamRescueEvidence → Bool
own_leg e = is_leg e.owner_leg && same_int e.owner_leg e.record_owner_leg

unfoldable pub classify_rescue : StreamRescueEvidence → StreamRescueClass
classify_rescue e =
    let probe_candidate = e.for_probe || is_probe_cause e.cause in
    if not e.is_data
    then other_core_retry
    else if not e.is_rescue
    then original_data
    else if not e.outstanding
    then duplicate_or_rejected
    else if e.owner_invalidated && own_leg e && e.origin_generation != 0
    then failure_recovery
    else if probe_candidate
        && own_leg e
        && e.owner_live
        && e.generation_matches_origin
        && e.recovery_epoch_current
        && e.origin_generation != 0
    then StreamRescueClass.probe_data
    else if probe_candidate
    then other_core_retry
    else if is_frontier_cause e.cause
        && e.frontier_overdue
        && own_leg e
        && e.owner_live
        && e.generation_matches_origin
        && e.recovery_epoch_current
        && e.origin_generation != 0
        && e.recovery_epoch != 0
        && e.original_write_observed
    then healthy_hol
    else other_core_retry

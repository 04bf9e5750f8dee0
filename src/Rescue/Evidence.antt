-- ===== src/Rescue/Evidence.antt =====
-- core/stream_bounded_rescue.go: the evidence that each class of a rescue needs.
use smp3_multipath_kit_publi.Rescue.Classify.{same_int, classify_rescue, is_leg}
use smp3_multipath_kit_publi.Rescue.{
  cause_probe, failure_recovery, StreamRescueEvidence, healthy_hol, cause_frontier,
  StreamRescueClass,
}
use smp3_multipath_kit_publi.Base.{◌↔◌, ◌⊎◌, true, ◌≢◌, false, ◌≡◌, arith}

-- The owner's leg is known and is the record's.
abbrev IsOwn : StreamRescueEvidence → Type 0
IsOwn e = (is_leg e.owner_leg ≡ true) × (same_int e.owner_leg e.record_owner_leg ≡ true)

-- A rescue attempt of DATA whose record is outstanding.
abbrev IsRescueOfData : StreamRescueEvidence → Type 0
IsRescueOfData e = (e.is_data ≡ true) × (e.is_rescue ≡ true) × (e.outstanding ≡ true)

-- The invalidation of the record's own owner.
abbrev pub ShowsFailure : StreamRescueEvidence → Type 0
ShowsFailure e =
    IsRescueOfData e × (e.owner_invalidated ≡ true) × IsOwn e × (e.origin_generation ≢ 0)

-- The original write is the current one of a live owner in the current recovery epoch.
abbrev IsCurrent : StreamRescueEvidence → Type 0
IsCurrent e =
    IsOwn e
    × (e.owner_live ≡ true)
    × (e.generation_matches_origin ≡ true)
    × (e.recovery_epoch_current ≡ true)
    × (e.origin_generation ≢ 0)

abbrev pub ShowsProbe : StreamRescueEvidence → Type 0
ShowsProbe e =
    IsRescueOfData e
    × ¬ (ShowsFailure e)
    × ((e.for_probe ≡ true) ⊎ (e.cause ≡ cause_probe))
    × IsCurrent e

abbrev pub ShowsHol : StreamRescueEvidence → Type 0
ShowsHol e =
    IsRescueOfData e
    × ¬ (ShowsFailure e)
    × (e.for_probe ≡ false)
    × (e.cause ≡ cause_frontier)
    × (e.frontier_overdue ≡ true)
    × IsCurrent e
    × (e.recovery_epoch ≢ 0)
    × (e.original_write_observed ≡ true)

-- A rescue is classed as a failure's recovery, as a probe's data or as a healthy head-of-line rescue
-- exactly when its evidence shows that: the invalidation of the record's own owner; a probe over a
-- current original write; or an overdue frontier over a current and observed original write.
pub classify_rescue_iff_Shows :
    (e : StreamRescueEvidence)
    → ((classify_rescue e ≡ failure_recovery) ↔ ShowsFailure e)
      × ((classify_rescue e ≡ StreamRescueClass.probe_data) ↔ ShowsProbe e)
      × ((classify_rescue e ≡ healthy_hol) ↔ ShowsHol e)
unfolding classify_rescue
classify_rescue_iff_Shows e = (
  (λ h. ground arith, λ h. ground arith),
  (λ h. ground arith, λ h. ground arith),
  (λ h. ground arith, λ h. ground arith),
)

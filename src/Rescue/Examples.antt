-- ===== src/Rescue/Examples.antt =====
-- core/stream_bounded_rescue.go: a budget of 9.09 percent and a burst of 100 bytes, with one original
-- record of 1000 bytes and one rescue of 150.
use smp3_multipath_kit_publi.Rescue.Run.Refine.{
  RescueStep-AccountRun, account_of, AccountRun, settle_pays,
}
use smp3_multipath_kit_publi.Rescue.Classify.{classify_rescue}
use smp3_multipath_kit_publi.Rescue.Eligible.{rolling_budget_eligible-split, IsWindow}
use smp3_multipath_kit_publi.Rescue.Write.{begin_write_record, begin_write, start_write, settle}
use smp3_multipath_kit_publi.Rescue.Account.{IsAccounted}
use smp3_multipath_kit_publi.Rescue.Run.Sound.{RescueReach-IsAccounted}
use smp3_multipath_kit_publi.Rescue.Evidence.{
  ShowsHol, classify_rescue_iff_Shows, ShowsFailure, ShowsProbe,
}
use smp3_multipath_kit_publi.Rescue.Run.Attempt.{begin_write_once}
use smp3_multipath_kit_publi.Rescue.Admit.{reserve-Reserved, Reserved}
use smp3_multipath_kit_publi.Rescue.Run.{
  step_reserve, RescueReach, after_call, step_original, at_start, step_settle, step_begin,
}
use smp3_multipath_kit_publi.Rescue.{
  new_rescue_refused, has_epoch, delete_epoch, new_rescue_budget, lookup_epoch, failure_recovery,
  StreamRescueBudget, BoundedRescueConfig, StreamRescueEvidence, cause_frontier, StreamRescueClass,
  factor_full, healthy_hol, RescueReservation,
}
use smp3_multipath_kit_publi.Base.{
  arith, delete, [], ◌≡◌, some, pos, insert, refl, is_some, ◌↔◌, false, lookup, true, ◌≤◌, ◌+◌,
}
use smp3_multipath_kit_publi.Rescue.Window.{
  prune, prune_events, rolling_budget_eligible, saturating_add, bounded_rescue_ratio, split_budget,
}
use smp3_multipath_kit_publi.Rescue.Reserve.{
  reserve, entered, split_for, add_reservation, record_original, reserve_record, reserve_class,
  reserve_parts,
}

abbrev config : BoundedRescueConfig
config = record {
  enabled = true;
  budget_basis_points = 909;
  burst_bytes = 100;
  factor_mode = factor_full;
}

-- The frontier's record is overdue on its live owner, leg 0.
abbrev overdue : StreamRescueEvidence
overdue = record {
  sequence = 7;
  evidence_acked_next = 7;
  owner_leg = pos 0;
  record_owner_leg = pos 0;
  target_leg = 1;
  target_generation = 1;
  origin_generation = 1;
  owner_generation = 1;
  recovery_epoch = 1;
  recovery_epoch_current = true;
  cause = cause_frontier;
  is_data = true;
  is_rescue = true;
  for_probe = false;
  outstanding = true;
  original_write_in_transit = false;
  original_write_leg = 0;
  frontier_overdue = true;
  original_write_observed = true;
  owner_live = true;
  target_available = true;
  target_generation_matches = true;
  owner_restricted = false;
  owner_invalidated = false;
  generation_matches_origin = true;
}

abbrev start : StreamRescueBudget
start = record {
  config = config;
  closed = false;
  acked_next = 0;
  last_original = 0;
  has_original = false;
  next_reservation = 0;
  next_attempt = 0;
  next_candidate = 0;
  original_events = [];
  accepted_events = [];
  window_original = 0;
  window_accepted = 0;
  base_reserved = 0;
  burst_reserved = 0;
  burst_committed = 0;
  reservations = [];
  records = [];
}

start-new : new_rescue_budget config 1000 ≡ some start
unfolding new_rescue_budget new_rescue_refused
start-new = refl

abbrev recorded : StreamRescueBudget
recorded = (record_original start 7 1000 10).0

abbrev reserved : StreamRescueBudget
reserved = (reserve recorded overdue 150 20).0

reserved-reached : RescueReach start 2 reserved
reserved-reached =
    after_call (after_call at_start (step_original 7 1000 10)) (step_reserve overdue 150 20)

RescueReach-IsAccounted_example : IsAccounted 2 reserved × (reserved.config ≡ config)
RescueReach-IsAccounted_example =
    RescueReach-IsAccounted config 1000 2 refl (omega arith) (omega arith) start-new
      reserved-reached

abbrev reservation : RescueReservation
reservation = record {
  reservation_id = 1;
  seq = 7;
  key = record { key_generation = 1; key_epoch = 1 };
  target = 1;
  reserved_bytes = 150;
  base_bytes = 90;
  burst_part = 60;
  started = false;
  evidence = overdue;
}

abbrev writing : StreamRescueBudget
writing = (begin_write reserved 1).0

begin_write_once_example : (begin_write writing 1).1 ≡ false
unfolding record_original entered prune prune_events reserve reserve_class reserve_record
    reserve_parts classify_rescue split_budget bounded_rescue_ratio saturating_add add_reservation
    begin_write begin_write_record start_write lookup insert delete has_epoch lookup_epoch
    delete_epoch
begin_write_once_example =
    begin_write_once config 1000 2 0 1 1 {r = reservation}
      {r' = record reservation { started = true }} refl start-new reserved-reached refl refl
      at_start refl (refl, refl)

classify_rescue_iff_Shows_example :
    ((classify_rescue overdue ≡ failure_recovery) ↔ ShowsFailure overdue)
    × ((classify_rescue overdue ≡ StreamRescueClass.probe_data) ↔ ShowsProbe overdue)
    × ((classify_rescue overdue ≡ healthy_hol) ↔ ShowsHol overdue)
classify_rescue_iff_Shows_example = classify_rescue_iff_Shows overdue

recorded-IsWindow : IsWindow recorded
unfolding record_original entered prune prune_events
recorded-IsWindow = record {
  original_ordered = (tt, tt);
  original_sum = refl;
  original_fits = omega arith;
  accepted_ordered = tt;
  accepted_sum = refl;
  accepted_fits = omega arith;
}

rolling_budget_eligible-split_example :
    rolling_budget_eligible recorded 150 20 ≡ is_some (split_for (prune recorded 20) 150)
unfolding record_original entered prune prune_events
rolling_budget_eligible-split_example =
    rolling_budget_eligible-split recorded 150 20 recorded-IsWindow refl
      (λ e. absurd (omega (arith, e)))

reserve-Reserved_example : Reserved recorded overdue 150 (reserve recorded overdue 150 20)
unfolding record_original entered prune prune_events reserve reserve_class reserve_record
    reserve_parts classify_rescue split_budget bounded_rescue_ratio saturating_add add_reservation
    lookup insert delete has_epoch lookup_epoch delete_epoch
reserve-Reserved_example = reserve-Reserved recorded overdue 150 20 refl refl

RescueStep-AccountRun_example :
    AccountRun config.burst_bytes (account_of writing) (account_of (settle writing 1 150 30).0)
    × (writing.burst_committed ≤ (settle writing 1 150 30).0.burst_committed)
    × (((settle writing 1 150 30).0.burst_committed)
        ≡ writing.burst_committed + settle_pays 1 150 (lookup 1 writing.reservations))
RescueStep-AccountRun_example =
    RescueStep-AccountRun config 1000 3 refl (omega arith) (omega arith) start-new
      (after_call reserved-reached (step_begin 1)) (step_settle 1 150 30)

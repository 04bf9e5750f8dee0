-- ===== src/Rescue/Reserve.antt =====
-- core/stream_bounded_rescue.go: RecordOriginal and Reserve.
use smp3_multipath_kit_publi.Rescue.Window.{split_budget, prune}
use smp3_multipath_kit_publi.Rescue.Classify.{classify_rescue}
use smp3_multipath_kit_publi.Rescue.{
  other_core_retry, failure_recovery, delete_epoch, is_full, duplicate_or_rejected,
  StreamRescueBudget, StreamRescueEvidence, lookup_epoch, RescueRecordState, probe_data, has_epoch,
  StreamRescueClass, original_data, is_c_only, epoch_of, healthy_hol,
}
use smp3_multipath_kit_publi.Base.{
  Option, is_some, ℕ, some, not, true, add64, [], leb, ◌&&◌, insert, ◌∷◌, ◌++◌, none, ◌==◌, lookup,
  false, ltb, ◌||◌, Bool, if◌then◌else◌,
}

abbrev pub new_record : RescueRecordState
new_record = record {
  acked = false;
  pending_by_epoch = [];
  used_by_epoch = [];
  lifetime_attempt = 0;
}

-- The event, and a record for a sequence that the frontier has not passed.
unfoldable pub entered : StreamRescueBudget → ℕ → ℕ → ℕ → StreamRescueBudget
entered b sequence bytes at = record b {
  last_original = sequence;
  has_original = true;
  original_events = b.original_events ++ (record { at = at; event_bytes = bytes; target = 0 } ∷ []);
  window_original = add64 b.window_original bytes;
  records =
      if leb b.acked_next sequence && not (is_some (lookup sequence b.records))
      then insert sequence new_record b.records
      else b.records;
}

-- The budget, and whether the bytes were accounted.
unfoldable pub record_original : StreamRescueBudget → ℕ → ℕ → ℕ → StreamRescueBudget × Bool
record_original b sequence bytes at =
    if bytes == 0 || b.closed || (b.has_original && leb sequence b.last_original)
    then (b, false)
    else (prune (entered b sequence bytes at) at, true)

pub data RescueReason : Type 0 where
  session_closed positive_owner_invalidation recovery_probe_data : RescueReason
  classification_not_healthy_hol already_acked missing_or_acked_original : RescueReason
  per_record_epoch_limit per_record_epoch_reservation_pending empty_payload : RescueReason
  rolling_budget_exhausted budget_reserved variant_admitted : RescueReason

-- `candidate` and `class` are in every result of `Reserve`.
pub record RescueAdmission : Type 0 where
  pub candidate_id : ℕ
  pub admission_id : ℕ  -- ReservationID, 0 for none
  pub class : StreamRescueClass
  pub admitted : Bool
  pub exempt : Bool
  pub reason : RescueReason

abbrev pub rejected : ℕ → StreamRescueClass → RescueReason → RescueAdmission
rejected candidate class reason = record {
  candidate_id = candidate;
  admission_id = 0;
  class = class;
  admitted = false;
  exempt = false;
  reason = reason;
}

abbrev pub exempted : ℕ → StreamRescueClass → RescueReason → RescueAdmission
exempted candidate class reason = record {
  candidate_id = candidate;
  admission_id = 0;
  class = class;
  admitted = true;
  exempt = true;
  reason = reason;
}

-- The parts of the payload: in the modes without a rolling budget all of it is the base's.
abbrev pub split_for : StreamRescueBudget → ℕ → Option (ℕ × ℕ)
split_for b payload =
    if is_full b.config.factor_mode
    then split_budget b.config b.window_original b.window_accepted b.base_reserved b.burst_reserved
        b.burst_committed payload
    else some (payload, 0)

-- The reservation of two parts, for the record of the evidence's sequence.
unfoldable pub add_reservation :
    StreamRescueBudget → StreamRescueEvidence → RescueRecordState → ℕ → ℕ → ℕ → StreamRescueBudget
add_reservation b e state payload base burst =
    let id = add64 b.next_reservation 1 in
    record b {
      next_reservation = id;
      reservations =
          insert id
            (record {
              reservation_id = id;
              seq = e.sequence;
              key = epoch_of e;
              target = e.target_leg;
              reserved_bytes = payload;
              base_bytes = base;
              burst_part = burst;
              started = false;
              evidence = e;
            })
            b.reservations;
      records =
          insert e.sequence
            (record state {
              pending_by_epoch =
                  (epoch_of e, id) ∷ delete_epoch (epoch_of e) state.pending_by_epoch;
            })
            b.records;
      base_reserved = add64 b.base_reserved base;
      burst_reserved = add64 b.burst_reserved burst;
    }

-- `Reserve` behind the record's checks.
unfoldable pub reserve_parts :
    StreamRescueBudget
    → StreamRescueEvidence
    → RescueRecordState
    → ℕ
    → ℕ
    → StreamRescueBudget × RescueAdmission
reserve_parts b e state payload at =
    let pruned = prune b at in
    elim (split_for pruned payload) [
      | none ↦ (pruned, rejected b.next_candidate healthy_hol rolling_budget_exhausted)
      | some (base, burst) ↦ (
        add_reservation pruned e state payload base burst,
        record {
          candidate_id = b.next_candidate;
          admission_id = add64 b.next_reservation 1;
          class = healthy_hol;
          admitted = true;
          exempt = false;
          reason = if is_full b.config.factor_mode then budget_reserved else variant_admitted;
        },
      )
    ]

-- The checks on the record of a healthy HOL rescue, in their order.
unfoldable pub reserve_record :
    StreamRescueBudget
    → StreamRescueEvidence
    → Option RescueRecordState
    → ℕ
    → ℕ
    → StreamRescueBudget × RescueAdmission
reserve_record b e none payload at =
    (b, rejected b.next_candidate healthy_hol missing_or_acked_original)
reserve_record b e (some state) payload at =
    if state.acked
    then (b, rejected b.next_candidate healthy_hol missing_or_acked_original)
    else if not (is_c_only b.config.factor_mode) && has_epoch (epoch_of e) state.used_by_epoch
    then (b, rejected b.next_candidate healthy_hol per_record_epoch_limit)
    else if is_some (lookup_epoch (epoch_of e) state.pending_by_epoch)
    then (b, rejected b.next_candidate healthy_hol per_record_epoch_reservation_pending)
    else if payload == 0
    then (b, rejected b.next_candidate healthy_hol empty_payload)
    else reserve_parts b e state payload at

-- The classes, behind the test for a closed session.
unfoldable pub reserve_class :
    StreamRescueBudget
    → StreamRescueClass
    → StreamRescueEvidence
    → ℕ
    → ℕ
    → StreamRescueBudget × RescueAdmission
reserve_class b failure_recovery e payload at =
    (b, exempted b.next_candidate failure_recovery positive_owner_invalidation)
reserve_class b probe_data e payload at =
    (b, exempted b.next_candidate probe_data recovery_probe_data)
reserve_class b healthy_hol e payload at =
    if ltb e.sequence b.acked_next
    then (b, rejected b.next_candidate healthy_hol already_acked)
    else reserve_record b e (lookup e.sequence b.records) payload at
reserve_class b original_data e payload at =
    (b, rejected b.next_candidate original_data classification_not_healthy_hol)
reserve_class b other_core_retry e payload at =
    (b, rejected b.next_candidate other_core_retry classification_not_healthy_hol)
reserve_class b duplicate_or_rejected e payload at =
    (b, rejected b.next_candidate duplicate_or_rejected classification_not_healthy_hol)

unfoldable pub reserve :
    StreamRescueBudget → StreamRescueEvidence → ℕ → ℕ → StreamRescueBudget × RescueAdmission
reserve b e payload at =
    let counted = record b { next_candidate = add64 b.next_candidate 1 } in
    if b.closed
    then (counted, rejected counted.next_candidate (classify_rescue e) session_closed)
    else reserve_class counted (classify_rescue e) e payload at

-- ===== src/Rescue/Write.antt =====
-- core/stream_bounded_rescue.go: a reservation's way to the carrier. beginWriteDeferred,
-- RevalidateBeforeWrite, Settle, Release, AckThrough and Close.
use smp3_multipath_kit_publi.Rescue.Classify.{classify_rescue, same_int}
use smp3_multipath_kit_publi.Rescue.Window.{push_event, prune}
use smp3_multipath_kit_publi.Rescue.{
  other_core_retry, failure_recovery, store_record, delete_epoch, RescueReservation, no_pending,
  duplicate_or_rejected, StreamRescueBudget, StreamRescueEvidence, lookup_epoch, RescueRecordState,
  probe_data, has_epoch, StreamRescueClass, RescueEpochKey, original_data, is_c_only, healthy_hol,
}
use smp3_multipath_kit_publi.Base.{
  Option, ℕ, some, not, true, add64, delete, [], ◌&&◌, insert, ◌∷◌, none, List, ◌==◌, lookup, false,
  ◌-◌, ltb, ◌||◌, Bool, if◌then◌else◌,
}

-- `releaseAccountingLocked`: a difference that the source guards stops at 0.
abbrev pub release_accounting : StreamRescueBudget → RescueReservation → StreamRescueBudget
release_accounting b r = record b {
  base_reserved = b.base_reserved - r.base_bytes;
  burst_reserved = b.burst_reserved - r.burst_part;
}

-- The record without the pending entry of this reservation.
unfoldable pub drop_pending : RescueRecordState → RescueEpochKey → ℕ → RescueRecordState
drop_pending state key id = elim (lookup_epoch key state.pending_by_epoch) [
  | none ↦ state
  | some pending ↦
      if pending == id
      then record state { pending_by_epoch = delete_epoch key state.pending_by_epoch }
      else state
]

unfoldable pub drop_pending_at :
    List (ℕ × RescueRecordState) → RescueReservation → ℕ → List (ℕ × RescueRecordState)
drop_pending_at records r id = elim (lookup r.seq records) [
  | none ↦ records
  | some state ↦ store_record r.seq (drop_pending state r.key id) records
]

-- The reservation taken out: its accounting, its entry and its record's pending entry. `Settle`,
-- `RevalidateBeforeWrite` and `releaseLocked` share it.
unfoldable pub take_out : StreamRescueBudget → RescueReservation → ℕ → StreamRescueBudget
take_out b r id =
    let freed = release_accounting b r in
    record freed {
      reservations = delete id b.reservations;
      records = drop_pending_at b.records r id;
    }

-- `releaseLocked`, for a reservation that was looked up.
abbrev pub release_locked : StreamRescueBudget → RescueReservation → ℕ → StreamRescueBudget
release_locked b r id = take_out b r id

-- The commitment of the attempt.
unfoldable pub start_write :
    StreamRescueBudget → RescueReservation → RescueRecordState → ℕ → StreamRescueBudget
start_write b r state id = record b {
  next_attempt = add64 b.next_attempt 1;
  reservations = insert id (record r { started = true }) b.reservations;
  records =
      insert r.seq
        (record state {
          used_by_epoch = r.key ∷ state.used_by_epoch;
          lifetime_attempt = add64 state.lifetime_attempt 1;
        })
        b.records;
}

unfoldable pub begin_write_record :
    StreamRescueBudget
    → RescueReservation
    → Option RescueRecordState
    → ℕ
    → StreamRescueBudget × Bool
begin_write_record b r none id = (release_locked b r id, false)
begin_write_record b r (some state) id =
    if state.acked
    then (release_locked b r id, false)
    else if has_epoch r.key state.used_by_epoch && not (is_c_only b.config.factor_mode)
    then (release_locked b r id, false)
    else (start_write b r state id, true)

-- `beginWriteDeferred` and `BeginWrite`.
unfoldable pub begin_write : StreamRescueBudget → ℕ → StreamRescueBudget × Bool
begin_write b id = if id == 0 then (b, false) else elim (lookup id b.reservations) [
  | none ↦ (b, false)
  | some r ↦
      if r.started
      then (b, false)
      else if b.closed || ltb r.seq b.acked_next
      then (release_locked b r id, false)
      else begin_write_record b r (lookup r.seq b.records) id
]

-- The evidence still fits the reservation.
unfoldable pub still_fits : StreamRescueEvidence → RescueReservation → Bool
still_fits current r =
    current.sequence == r.evidence.sequence
    && same_int current.owner_leg r.evidence.owner_leg
    && same_int current.record_owner_leg r.evidence.record_owner_leg
    && current.target_leg == r.target
    && current.origin_generation == r.key.key_generation
    && current.recovery_epoch == r.key.key_epoch

unfoldable pub revalidate_class :
    StreamRescueBudget
    → RescueReservation
    → ℕ
    → StreamRescueClass
    → StreamRescueEvidence
    → StreamRescueBudget × (StreamRescueClass × ℕ × Bool)
revalidate_class b r id failure_recovery current = (take_out b r id, (failure_recovery, 0, true))
revalidate_class b r id probe_data current = (take_out b r id, (probe_data, 0, true))
revalidate_class b r id healthy_hol current =
    if still_fits current r
    then (b, (healthy_hol, id, true))
    else (release_locked b r id, (healthy_hol, 0, false))
revalidate_class b r id original_data current = (release_locked b r id, (original_data, 0, false))
revalidate_class b r id other_core_retry current =
    (release_locked b r id, (other_core_retry, 0, false))
revalidate_class b r id duplicate_or_rejected current =
    (release_locked b r id, (duplicate_or_rejected, 0, false))

unfoldable pub revalidate_before_write :
    StreamRescueBudget
    → ℕ
    → StreamRescueEvidence
    → StreamRescueBudget × (StreamRescueClass × ℕ × Bool)
revalidate_before_write b id current =
    if id == 0 then (b, (other_core_retry, 0, false)) else elim (lookup id b.reservations) [
      | none ↦ (b, (duplicate_or_rejected, 0, false))
      | some r ↦
          if r.started
          then (b, (duplicate_or_rejected, 0, false))
          else if b.closed
          then (release_locked b r id, (duplicate_or_rejected, 0, false))
          else revalidate_class b r id (classify_rescue current) current
    ]

pub data SettleResult : Type 0 where
  settled not_found not_started over_accepted : SettleResult

-- The bytes that the carrier took, in the window and in the burst.
unfoldable pub charge : StreamRescueBudget → RescueReservation → ℕ → ℕ → StreamRescueBudget
charge b r accepted at = if accepted == 0 then b else record b {
  accepted_events =
      push_event (record { at = at; event_bytes = accepted; target = r.target }) b.accepted_events;
  window_accepted = add64 b.window_accepted accepted;
  burst_committed =
      add64 b.burst_committed
        (accepted - (if ltb r.base_bytes accepted then r.base_bytes else accepted));
}

unfoldable pub settle : StreamRescueBudget → ℕ → ℕ → ℕ → StreamRescueBudget × SettleResult
settle b id accepted at = if id == 0 then (b, settled) else elim (lookup id b.reservations) [
  | none ↦ (b, not_found)
  | some r ↦
      if not r.started
      then (b, not_started)
      else if ltb r.reserved_bytes accepted
      then (prune (take_out (charge b r r.reserved_bytes at) r id) at, over_accepted)
      else (prune (take_out (charge b r accepted at) r id) at, settled)
]

unfoldable pub release_unstarted : StreamRescueBudget → ℕ → StreamRescueBudget × Bool
release_unstarted b id = if id == 0 then (b, true) else elim (lookup id b.reservations) [
  | none ↦ (b, false)
  | some r ↦ if r.started then (b, false) else (release_locked b r id, true)
]

-- The records behind an ACK: those below `next` are marked, and kept only for pending reservations.
unfoldable pub ack_records : ℕ → List (ℕ × RescueRecordState) → List (ℕ × RescueRecordState)
ack_records next [] = []
ack_records next ((sequence, state) ∷ records) =
    let rest = ack_records next records in
    if ltb sequence next
    then if no_pending state.pending_by_epoch
      then rest
      else (sequence, record state { acked = true }) ∷ rest
    else (sequence, state) ∷ rest

unfoldable pub ack_through : StreamRescueBudget → ℕ → StreamRescueBudget
ack_through b next =
    let frontier = if ltb b.acked_next next then next else b.acked_next in
    record b { acked_next = frontier; records = ack_records frontier b.records }

unfoldable pub close_budget : StreamRescueBudget → StreamRescueBudget
close_budget b = record b { closed = true }

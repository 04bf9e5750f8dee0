-- ===== src/Rescue/Admit.antt =====
-- core/stream_bounded_rescue.go: what Reserve has checked when it reserves bytes.
use smp3_multipath_kit_publi.Rescue.Classify.{classify_rescue}
use smp3_multipath_kit_publi.Rescue.{
  epoch_of, StreamRescueBudget, StreamRescueEvidence, healthy_hol, has_epoch, lookup_epoch,
  RescueReservation, RescueRecordState, is_c_only, duplicate_or_rejected, StreamRescueClass,
  other_core_retry, original_data, failure_recovery, probe_data,
}
use smp3_multipath_kit_publi.Base.{
  none, ◌≤◌, Bool-cases, ℕ, ◌||◌, arith, lookup, not, Option, ◌⊎◌, Option-cases, some, ◌≡◌, inl,
  true, inr, false, ◌&&◌, ◌≢◌, ◌==◌, is_some, lookup-insert, insert, ltb, subst, add64, sym, refl,
  List, ◌∙◌, ap, if◌then◌else◌,
}
use smp3_multipath_kit_publi.Rescue.Window.{prune}
use smp3_multipath_kit_publi.Rescue.Reserve.{
  reserve, reserve_parts, add_reservation, RescueAdmission, split_for, reserve_record,
  reserve_class, session_closed, rejected,
}

-- The checks on the record, and the reservation that stands for it.
pub record ReservedFor (b : StreamRescueBudget) (e : StreamRescueEvidence)
    (found : Option RescueRecordState) (payload : ℕ) (result : StreamRescueBudget × RescueAdmission)
    : Type 0 where
  pub state : RescueRecordState
  pub present : found ≡ some state
  pub live : state.acked ≡ false
  pub unused :
      (is_c_only b.config.factor_mode ≡ true) ⊎ (has_epoch (epoch_of e) state.used_by_epoch ≡ false)
  pub idle : is_some (lookup_epoch (epoch_of e) state.pending_by_epoch) ≡ false
  pub filled : payload ≢ 0
  pub reservation : RescueReservation
  pub held : lookup result.1.admission_id result.0.reservations ≡ some reservation
  pub fresh : reservation.started ≡ false
  pub whole : reservation.reserved_bytes ≡ payload
  pub own : (reservation.seq ≡ e.sequence) × (reservation.key ≡ epoch_of e)

pub record Reserved (b : StreamRescueBudget) (e : StreamRescueEvidence) (payload : ℕ)
    (result : StreamRescueBudget × RescueAdmission) : Type 0 where
  pub running : b.closed ≡ false
  pub healthy : classify_rescue e ≡ healthy_hol
  pub unacked : b.acked_next ≤ e.sequence
  pub for_record : ReservedFor b e (lookup e.sequence b.records) payload result

lookup-insert_self :
    (k : ℕ) (r : RescueReservation) (m : List (ℕ × RescueReservation))
    → lookup k (insert k r m) ≡ some r
lookup-insert_self k r m = ground (arith, lookup-insert k k r m)

reserve_parts-held :
    (b : StreamRescueBudget) (e : StreamRescueEvidence) (state : RescueRecordState) (payload at : ℕ)
    → (reserve_parts b e state payload at).1.admitted ≡ true
    → (reservation : RescueReservation) × (lookup
          (reserve_parts b e state payload at).1.admission_id
          (reserve_parts b e state payload at).0.reservations
        ≡ some reservation)
      × (reservation.started ≡ false)
      × (reservation.reserved_bytes ≡ payload)
      × (reservation.seq ≡ e.sequence)
      × (reservation.key ≡ epoch_of e)
unfolding reserve_parts add_reservation prune
reserve_parts-held b e state payload at taken =
    elim (Option-cases (split_for (prune b at) payload)) [
      | inl short ↦ cc (rw (short, reserve_parts) at taken)
      | inr ((base, burst), enough) ↦
          rw (enough, reserve_parts)
            (
              _,
              lookup-insert_self (add64 b.next_reservation 1) _ b.reservations,
              refl,
              refl,
              refl,
              refl,
            )
    ]

reserve_record-ReservedFor :
    (b : StreamRescueBudget) (e : StreamRescueEvidence) (found : Option RescueRecordState)
    (payload at : ℕ)
    → (reserve_record b e found payload at).1.admitted ≡ true
    → ReservedFor b e found payload (reserve_record b e found payload at)
unfolding reserve_record
reserve_record-ReservedFor b e none payload at taken = cc taken
reserve_record-ReservedFor b e (some state) payload at taken =
    elim (Bool-cases (
      state.acked
      || (not (is_c_only b.config.factor_mode) && has_epoch (epoch_of e) state.used_by_epoch)
      || is_some (lookup_epoch (epoch_of e) state.pending_by_epoch)
      || payload == 0)) [
        | inl bad ↦ absurd (ground (arith, bad))
        | inr good ↦
            let passed : reserve_record b e (some state) payload at
                ≡ reserve_parts b e state payload at =
              ground (arith, good) in
            let (reservation, held, fresh, whole, seq, key) =
              reserve_parts-held b e state payload at
                (subst (λ p. p.1.admitted ≡ true) passed taken) in
            subst (ReservedFor b e (some state) payload) (sym passed) (record {
              state = state;
              present = refl;
              live = ground (arith, good);
              unused = ground (arith, good);
              idle = ground (arith, good);
              filled = ground (arith, good);
              reservation = reservation;
              held = held;
              fresh = fresh;
              whole = whole;
              own = (seq, key);
            })
      ]

reserve_class-Reserved :
    (b : StreamRescueBudget) (class : StreamRescueClass) (e : StreamRescueEvidence) (payload at : ℕ)
    → (reserve_class b class e payload at).1.admitted ≡ true
    → (reserve_class b class e payload at).1.exempt ≡ false
    → (class ≡ healthy_hol)
      × (b.acked_next ≤ e.sequence)
      × ReservedFor b e (lookup e.sequence b.records) payload (reserve_class b class e payload at)
unfolding reserve_class
reserve_class-Reserved b original_data e payload at taken charged = cc taken
reserve_class-Reserved b failure_recovery e payload at taken charged = cc charged
reserve_class-Reserved b other_core_retry e payload at taken charged = cc taken
reserve_class-Reserved b probe_data e payload at taken charged = cc charged
reserve_class-Reserved b duplicate_or_rejected e payload at taken charged = cc taken
reserve_class-Reserved b healthy_hol e payload at taken charged =
    elim (Bool-cases (ltb e.sequence b.acked_next)) [
      | inl acked ↦ absurd (ground (arith, acked))
      | inr ahead ↦ (
        refl,
        ground (arith, ahead),
        rw ahead (
            reserve_record-ReservedFor b e (lookup e.sequence b.records) payload at
              (rw (ahead, reserve_class) at taken)),
      )
    ]

-- The checks read the budget's mode and records, which counting leaves as they are.
moved :
    (b c : StreamRescueBudget) (e : StreamRescueEvidence) (payload : ℕ)
    (result : StreamRescueBudget × RescueAdmission)
    → c.config ≡ b.config
    → c.records ≡ b.records
    → ReservedFor c e (lookup e.sequence c.records) payload result
    → ReservedFor b e (lookup e.sequence b.records) payload result
moved b c e payload result config records h = record {
  state = h.state;
  present = ap (lookup e.sequence) (sym records) ∙ h.present;
  live = h.live;
  unused = rw (← config) h.unused;
  idle = h.idle;
  filled = h.filled;
  reservation = h.reservation;
  held = h.held;
  fresh = h.fresh;
  whole = h.whole;
  own = h.own;
}

distinct_tests : true ≢ false
distinct_tests e = cc e

-- When Reserve admits a rescue and does not exempt it, the session runs, the evidence is that of a
-- healthy head-of-line rescue, the record is there and not yet acknowledged, its epoch has no pending
-- reservation and, in the modes with the limit for each record, no earlier attempt; and the budget
-- holds a reservation under the id that is returned, of the whole payload, for this record and epoch,
-- whose write has not started.
pub reserve-Reserved :
    (b : StreamRescueBudget) (e : StreamRescueEvidence) (payload at : ℕ)
    → (reserve b e payload at).1.admitted ≡ true
    → (reserve b e payload at).1.exempt ≡ false
    → Reserved b e payload (reserve b e payload at)
unfolding reserve
reserve-Reserved b e payload at taken charged =
    let counted : StreamRescueBudget = record b { next_candidate = add64 b.next_candidate 1 } in
    let chosen : StreamRescueBudget × RescueAdmission =
      reserve_class counted (classify_rescue e) e payload at in
    let refused : StreamRescueBudget × RescueAdmission =
      (counted, rejected counted.next_candidate (classify_rescue e) session_closed) in
    elim (Bool-cases b.closed) [
      | inl shut ↦
          absurd
            (distinct_tests (sym taken ∙ ap (λ c. (if c then refused else chosen).1.admitted) shut))
      | inr running ↦
          let same : (if b.closed then refused else chosen) ≡ chosen =
            ap (λ c. if c then refused else chosen) running in
          let (healthy, unacked, for_record) =
            reserve_class-Reserved counted (classify_rescue e) e payload at
              (ap (λ p. p.1.admitted) (sym same) ∙ taken)
              (ap (λ p. p.1.exempt) (sym same) ∙ charged) in
          subst (Reserved b e payload) (sym same) (record {
            running = running;
            healthy = healthy;
            unacked = unacked;
            for_record = moved b counted e payload chosen refl refl for_record;
          })
    ]

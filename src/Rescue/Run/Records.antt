-- ===== src/Rescue/Run/Records.antt =====
-- core/stream_bounded_rescue.go: what every change keeps true of the records, whose used epochs only
-- grow while the record is there.
use smp3_multipath_kit_publi.Rescue.{
  store_record, RescueEpochKey, RescueRecordState, StreamRescueBudget, no_pending,
  RescueReservation,
}
use smp3_multipath_kit_publi.Rescue.Run.{
  move_close, move_candidate, move_original, move_start, move_add, move_take, move_settle,
  move_prune, RescueMove, move_ack,
}
use smp3_multipath_kit_publi.Base.{
  lookup, if◌then◌else◌, true, Entries, not, Entries-insert, ◌⊎◌, leb, List, Entries-delete, [],
  inr, inl, refl, false, Entries-lookup, ◌≡◌, arith, ◌&&◌, Option-cases, ◌∷◌, ◌==◌, ltb, Bool-cases,
  ℕ, is_some, before,
}
use smp3_multipath_kit_publi.Rescue.Window.{prune}
use smp3_multipath_kit_publi.Rescue.Reserve.{entered, add_reservation, new_record}
use smp3_multipath_kit_publi.Rescue.Write.{
  charge, take_out, start_write, drop_pending, ack_records, ack_through, drop_pending_at,
  close_budget,
}

-- The used epochs of a record after a change: the same, or one more.
abbrev Grown : List RescueEpochKey → List RescueEpochKey → Type 0
Grown before after = (after ≡ before) ⊎ ((k : RescueEpochKey) × (after ≡ k ∷ before))

drop_pending-used :
    (state : RescueRecordState) (key : RescueEpochKey) (id : ℕ)
    → (drop_pending state key id).used_by_epoch ≡ state.used_by_epoch
unfolding drop_pending
drop_pending-used state key id = ground arith

charge-records :
    (b : StreamRescueBudget) (r : RescueReservation) (accepted at : ℕ)
    → (charge b r accepted at).records ≡ b.records
unfolding charge
charge-records b r accepted at = elim (Bool-cases (accepted == 0)) [
  | inl none_paid ↦ rw (none_paid, charge) refl
  | inr paid ↦ rw (paid, charge) refl
]

module _ (P : ℕ → RescueRecordState → Type 0)
    (grow : (s : ℕ) (before after : RescueRecordState)
      → Grown before.used_by_epoch after.used_by_epoch
      → P s before
      → P s after) where
  store_record-Entries :
      (s : ℕ) (state : RescueRecordState) (records : List (ℕ × RescueRecordState))
      → P s state
      → Entries P records
      → Entries P (store_record s state records)
  unfolding store_record
  store_record-Entries s state records p h =
      elim (Bool-cases (state.acked && no_pending state.pending_by_epoch)) [
        | inl gone ↦ rw gone (Entries-delete P s records h)
        | inr stays ↦ rw stays (Entries-insert P s state records p h)
      ]

  drop_pending_at-Entries :
      (records : List (ℕ × RescueRecordState)) (r : RescueReservation) (id : ℕ)
      → Entries P records
      → Entries P (drop_pending_at records r id)
  unfolding drop_pending_at
  drop_pending_at-Entries records r id h = elim (Option-cases (lookup r.seq records)) [
    | inl missing ↦ rw (missing, drop_pending_at) h
    | inr (state, found) ↦
        rw (found, drop_pending_at)
          (store_record-Entries r.seq (drop_pending state r.key id) records
            (grow r.seq state (drop_pending state r.key id) (inl (drop_pending-used state r.key id))
              (Entries-lookup P r.seq records h found))
            h)
  ]

  ack_records-Entries :
      (next : ℕ) (records : List (ℕ × RescueRecordState))
      → Entries P records
      → Entries P (ack_records next records)
  unfolding ack_records
  ack_records-Entries next [] h = tt
  ack_records-Entries next ((s, state) ∷ records) (p, h) =
      let rest = ack_records-Entries next records h in
      let marked = grow s state (record state { acked = true }) (inl refl) p in
      elim (Bool-cases (ltb s next)) [
        | inr above ↦ rw above (p, rest)
        | inl below ↦ elim (Bool-cases (no_pending state.pending_by_epoch)) [
          | inl idle ↦ rw (below, idle, ack_records) rest
          | inr busy ↦ rw (below, busy, ack_records) (marked, rest)
        ]
      ]

  -- A change keeps a property of all records that growth keeps, if a record that enters has it.
  pub move-Entries :
      (b : StreamRescueBudget) {k : ℕ} {c : StreamRescueBudget}
      → RescueMove b k c
      → ((sequence bytes at : ℕ)
          → (b.has_original && leb sequence b.last_original) ≡ false
          → c ≡ entered b sequence bytes at
          → P sequence new_record)
      → Entries P b.records
      → Entries P c.records
  unfolding prune close_budget ack_through entered start_write take_out add_reservation
  move-Entries b (move_candidate c) enter h = h
  move-Entries b (move_prune at) enter h = h
  move-Entries b move_close enter h = h
  move-Entries b (move_ack next) enter h =
      ack_records-Entries (if ltb b.acked_next next then next else b.acked_next) b.records h
  move-Entries b (move_original sequence bytes at later) enter h =
      elim (Bool-cases (leb b.acked_next sequence && not (is_some (lookup sequence b.records)))) [
        | inl new ↦
            rw (new, entered)
              (Entries-insert P sequence new_record b.records (enter sequence bytes at later refl)
                h)
        | inr old ↦ rw (old, entered) h
      ]
  move-Entries b (move_add e state payload base burst found enough) enter h =
      Entries-insert P e.sequence _ b.records
        (grow e.sequence state _ (inl refl) (Entries-lookup P e.sequence b.records h found)) h
  move-Entries b (move_take id r held) enter h = drop_pending_at-Entries b.records r id h
  move-Entries b (move_settle id r accepted at held within) enter h =
      rw (charge-records b r accepted at) (drop_pending_at-Entries b.records r id h)
  move-Entries b (move_start id r state held found) enter h =
      Entries-insert P r.seq _ b.records
        (grow r.seq state _ (inr (r.key, refl)) (Entries-lookup P r.seq b.records h found)) h

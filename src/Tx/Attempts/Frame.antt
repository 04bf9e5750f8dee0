-- ===== src/Tx/Attempts/Frame.antt =====
-- core/stream_tx.go: the next sequence under the attempt methods.
use smp3_multipath_kit_publi.Tx.Attempts.{
  transit_change, mark_transit, invalidate_leg, mark_restricted_rescue_transit, mark_write_started,
  mark_rescue_transit, rescue_change, mark_attempt_sent, finish_local_enqueue, clear_attempt_at,
  set_origin, mark_rescue_queued, on_record,
}
use smp3_multipath_kit_publi.Base.{
  some, ◌≡◌, refl, false, inr, Option-cases, Option, Bool, inl, ℕ, ℤ,
}
use smp3_multipath_kit_publi.Tx.{StreamTxRecord, StreamTxLedger, find, store}

-- A method on one record gives no sequence away.
on_record-next {ℓ} :
    {R : Type ℓ} (l : StreamTxLedger) (handle : Option ℕ) (idle : R)
    (change : StreamTxRecord → Option (StreamTxRecord × R))
    → (on_record l handle idle change).0.next_sequence ≡ l.next_sequence
unfolding store
on_record-next l handle idle change = elim (Option-cases (find l handle)) [
  | inl gone ↦ rw (gone, on_record) refl
  | inr (r, found) ↦ elim (Option-cases (change r)) [
    | inl nothing ↦ rw (found, nothing, on_record) refl
    | inr (p, changed) ↦ rw (found, changed, on_record) refl
  ]
]

module _ (l : StreamTxLedger) (handle : Option ℕ) (leg now : ℕ) where
  pub mark_transit-next : (mark_transit l handle leg now).0.next_sequence ≡ l.next_sequence
  unfolding mark_transit
  mark_transit-next = on_record-next l handle false (transit_change leg now)

  pub mark_rescue_transit-next :
      (mark_rescue_transit l handle leg now).0.next_sequence ≡ l.next_sequence
  unfolding mark_rescue_transit
  mark_rescue_transit-next = on_record-next l handle (0, false) (rescue_change leg now)

  pub mark_restricted_rescue_transit-next :
      (owner : Option ℕ)
      → (mark_restricted_rescue_transit l handle leg owner now).0.next_sequence ≡ l.next_sequence
  unfolding mark_restricted_rescue_transit
  mark_restricted_rescue_transit-next owner = on_record-next l handle (0, false) _

  pub mark_rescue_queued-next :
      (mark_rescue_queued l handle leg now).0.next_sequence ≡ l.next_sequence
  unfolding mark_rescue_queued
  mark_rescue_queued-next = on_record-next l handle false _

  pub clear_attempt_at-next :
      (rescue : Bool) → (clear_attempt_at l handle leg rescue now).next_sequence ≡ l.next_sequence
  unfolding clear_attempt_at
  clear_attempt_at-next rescue = on_record-next l handle tt _

  pub mark_attempt_sent-next :
      (rescue : Bool)
      → (mark_attempt_sent l handle leg rescue now).0.next_sequence ≡ l.next_sequence
  unfolding mark_attempt_sent
  mark_attempt_sent-next rescue = on_record-next l handle _ _

module _ (l : StreamTxLedger) (sequence : ℕ) where
  pub mark_write_started-next :
      (leg : ℕ) (rescue : Bool) (now : ℕ)
      → (mark_write_started l sequence leg rescue now).next_sequence ≡ l.next_sequence
  unfolding mark_write_started
  mark_write_started-next leg rescue now = on_record-next l (some sequence) tt _

  pub set_origin-next :
      (generation : ℕ) (epoch : ℤ)
      → (set_origin l sequence generation epoch).next_sequence ≡ l.next_sequence
  unfolding set_origin
  set_origin-next generation epoch =
      on_record-next {0} l (some sequence) tt
        (λ r. some (record r { origin_generation = generation; origin_epoch = epoch }, tt))

  pub finish_local_enqueue-next : (finish_local_enqueue l sequence).next_sequence ≡ l.next_sequence
  unfolding finish_local_enqueue
  finish_local_enqueue-next =
      on_record-next {0} l (some sequence) tt (λ r. some (record r { local_enqueue = false }, tt))

pub invalidate_leg-next :
    (l : StreamTxLedger) (leg : ℕ) → (invalidate_leg l leg).next_sequence ≡ l.next_sequence
unfolding invalidate_leg
invalidate_leg-next l leg = refl

-- ===== src/Tx/Attempts/Keep.antt =====
-- core/stream_tx.go: the attempt methods and the ledger's invariant.
use smp3_multipath_kit_publi.Base.{
  inr, some, Option-cases, arith, ℕ, ◌≡◌, false, inl, Option, Bool, sym, ap, pos, length, ◌%◌,
  lookup-map_values, refl, sum_over, sum_over-map_values, Distinct-map_values, Entries-map_values,
  ◌^◌, ◌∙◌, map_values, ℤ,
}
use smp3_multipath_kit_publi.Tx.{StreamTxRecord, StreamTxLedger, find}
use smp3_multipath_kit_publi.Tx.Invariant.{
  IsEntry, owned, owned_bytes, owned_pending, IsSound, Same, store-IsSound,
}
use smp3_multipath_kit_publi.Tx.Attempts.{
  on_record, transit_change, mark_transit, mark_restricted_rescue_transit, mark_rescue_transit,
  set_origin, clear_attempt_at, mark_rescue_queued, mark_write_started, mark_attempt_sent,
  finish_local_enqueue, rescue_change, invalidate_leg, invalidated_record,
}

-- A method on one record keeps the invariant when its change keeps what the invariant speaks of.
on_record-IsSound {ℓ} :
    {R : Type ℓ} (l : StreamTxLedger) (handle : Option ℕ) (idle : R)
    (change : StreamTxRecord → Option (StreamTxRecord × R))
    → ((r r' : StreamTxRecord) (x : R) → change r ≡ some (r', x) → Same r r')
    → IsSound l
    → IsSound (on_record l handle idle change).0
on_record-IsSound {R} l handle idle change same v = elim (Option-cases (find l handle)) [
  | inl gone ↦ rw (gone, on_record) v
  | inr (r, found) ↦ elim (Option-cases (change r)) [
    | inl refused ↦ rw (found, refused, on_record) v
    | inr ((r', x), changed) ↦
        rw (found, changed, on_record) (store-IsSound l handle r r' v found (same r r' x changed))
  ]
]

module _ (l : StreamTxLedger) (handle : Option ℕ) (leg now : ℕ) (v : IsSound l) where
  pub mark_transit-IsSound : IsSound (mark_transit l handle leg now).0
  unfolding mark_transit
  mark_transit-IsSound =
      on_record-IsSound l handle false (transit_change leg now) (λ r r' x e. ground arith) v

  pub mark_rescue_transit-IsSound : IsSound (mark_rescue_transit l handle leg now).0
  unfolding mark_rescue_transit
  mark_rescue_transit-IsSound =
      on_record-IsSound l handle (0, false) (rescue_change leg now) (λ r r' x e. ground arith) v

  pub mark_restricted_rescue_transit-IsSound :
      (owner : Option ℕ) → IsSound (mark_restricted_rescue_transit l handle leg owner now).0
  unfolding mark_restricted_rescue_transit
  mark_restricted_rescue_transit-IsSound owner =
      on_record-IsSound l handle (0, false) _ (λ r r' x e. ground arith) v

  pub mark_rescue_queued-IsSound : IsSound (mark_rescue_queued l handle leg now).0
  unfolding mark_rescue_queued
  mark_rescue_queued-IsSound = on_record-IsSound l handle false _ (λ r r' x e. ground arith) v

  pub clear_attempt_at-IsSound :
      (rescue : Bool) → IsSound (clear_attempt_at l handle leg rescue now)
  unfolding clear_attempt_at
  clear_attempt_at-IsSound rescue = on_record-IsSound l handle tt _ (λ r r' x e. ground arith) v

  pub mark_attempt_sent-IsSound :
      (rescue : Bool) → IsSound (mark_attempt_sent l handle leg rescue now).0
  unfolding mark_attempt_sent
  mark_attempt_sent-IsSound rescue = on_record-IsSound l handle _ _ (λ r r' x e. ground arith) v

module _ (l : StreamTxLedger) (sequence : ℕ) (v : IsSound l) where
  pub mark_write_started-IsSound :
      (leg : ℕ) (rescue : Bool) (now : ℕ) → IsSound (mark_write_started l sequence leg rescue now)
  unfolding mark_write_started
  mark_write_started-IsSound leg rescue now =
      on_record-IsSound l (some sequence) tt _ (λ r r' x e. ground arith) v

  pub set_origin-IsSound :
      (generation : ℕ) (epoch : ℤ) → IsSound (set_origin l sequence generation epoch)
  unfolding set_origin
  set_origin-IsSound generation epoch =
      on_record-IsSound {0} l (some sequence) tt
        (λ r. some (record r { origin_generation = generation; origin_epoch = epoch }, tt))
        (λ r r' x e. ground arith) v

  pub finish_local_enqueue-IsSound : IsSound (finish_local_enqueue l sequence)
  unfolding finish_local_enqueue
  finish_local_enqueue-IsSound =
      on_record-IsSound {0} l (some sequence) tt
        (λ r. some (record r { local_enqueue = false }, tt)) (λ r r' x e. ground arith) v

-- The failure of a leg changes no sequence, payload, owner or admission.
invalidated_record-Same : (leg : ℕ) (r : StreamTxRecord) → Same r (invalidated_record leg r)
invalidated_record-Same leg r = record {
  sequence = refl;
  payload = refl;
  owner = refl;
  admitted = refl;
}

pub invalidate_leg-IsSound :
    (l : StreamTxLedger) (leg : ℕ) → IsSound l → IsSound (invalidate_leg l leg)
unfolding invalidate_leg
invalidate_leg-IsSound l leg v = record {
  ledger = record {
    distinct = Distinct-map_values (invalidated_record leg) l.outstanding v.ledger.distinct;
    entries =
        Entries-map_values (invalidated_record leg)
          (IsEntry l.acked_next l.next_sequence (length l.ordinary_frames)) (λ k r h. h)
          l.outstanding v.ledger.entries;
    ordered = v.ledger.ordered;
    complete = λ k lo hi.
        lookup-map_values (invalidated_record leg) k l.outstanding ∙ v.ledger.complete k lo hi;
    byte_rows = v.ledger.byte_rows;
    pending_rows = v.ledger.pending_rows;
    rows = v.ledger.rows;
  };
  accounts = λ id. record {
    frames = (v.accounts id).frames ∙ ap pos (sym (kept (owned id) (λ r. refl)));
    bytes =
        (v.accounts id).bytes
        ∙ ap (λ (n : ℕ). n % 2 ^ 64) (sym (kept (owned_bytes id) (λ r. refl)));
    pending =
        (v.accounts id).pending
        ∙ ap (λ (n : ℕ). n % 2 ^ 64) (sym (kept (owned_pending id) (λ r. refl)));
  };
}
  where
    kept :
        (weight : StreamTxRecord → ℕ)
        → ((r : StreamTxRecord) → weight (invalidated_record leg r) ≡ weight r)
        → sum_over weight (map_values (invalidated_record leg) l.outstanding)
          ≡ sum_over weight l.outstanding
    kept weight same = sum_over-map_values weight (invalidated_record leg) same l.outstanding

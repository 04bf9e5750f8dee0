-- ===== src/Tx/Attempts/Cycle.antt =====
-- core/stream_tx.go: the claim and the end of an attempt, each reported twice.
use smp3_multipath_kit_publi.Base.{
  lookup-insert, arith, inl, inr, Option-cases, none, some, Option, Bool, ◌≡◌, ℕ, false, refl, sym,
  subst,
}
use smp3_multipath_kit_publi.Tx.{StreamTxRecord, StreamTxLedger, find, store}
use smp3_multipath_kit_publi.Tx.Invariant.{IsSound, find-Found}
use smp3_multipath_kit_publi.Tx.Attempts.{
  on_record, mark_transit, mark_attempt_sent, no_attempt, transit_change,
}

-- After a store the handle finds the record in its new state.
find-store :
    (l : StreamTxLedger) (handle : Option ℕ) (r r' : StreamTxRecord)
    → IsSound l
    → find l handle ≡ some r
    → r'.sequence ≡ r.sequence
    → find (store l r') handle ≡ some r'
unfolding find store
find-store l none r r' v e s = cc
find-store l (some k) r r' v e s =
    let f = find-Found l (some k) r v.ledger e in
    rw (lookup-insert r'.sequence k r' l.outstanding) (ground (arith, f.named, s))

-- The outcomes of a method on one record.
module _ {ℓ} {R : Type ℓ} (l : StreamTxLedger) (handle : Option ℕ) (idle : R)
    (change : StreamTxRecord → Option (StreamTxRecord × R)) where
  on_record_gone : find l handle ≡ none → on_record l handle idle change ≡ (l, idle)
  on_record_gone gone = rw (gone, on_record) refl

  on_record_refused :
      (r : StreamTxRecord)
      → find l handle ≡ some r
      → change r ≡ none
      → on_record l handle idle change ≡ (l, idle)
  on_record_refused r found no_change = rw (found, no_change, on_record) refl

  on_record_made :
      (r r' : StreamTxRecord) (x : R)
      → find l handle ≡ some r
      → change r ≡ some (r', x)
      → on_record l handle idle change ≡ (store l r', x)
  on_record_made r r' x found changed = rw (found, changed, on_record) refl

-- A change that refuses the record it has made is refused the second time.
on_record_again {ℓ} :
    {R : Type ℓ} (l : StreamTxLedger) (handle : Option ℕ) (idle : R)
    (change again : StreamTxRecord → Option (StreamTxRecord × R))
    → IsSound l
    → ((r r' : StreamTxRecord) (x : R)
        → change r ≡ some (r', x)
        → (r'.sequence ≡ r.sequence) × (again r' ≡ none))
    → ((r : StreamTxRecord) → change r ≡ none → again r ≡ none)
    → let after = (on_record l handle idle change).0 in
      on_record after handle idle again ≡ (after, idle)
on_record_again {R} l handle idle change again v made refused =
    elim (Option-cases (find l handle)) [
      | inl gone ↦
          settled (on_record_gone l handle idle change gone)
            (on_record_gone l handle idle again gone)
      | inr (r, found) ↦ elim (Option-cases (change r)) [
        | inl nope ↦
            settled (on_record_refused l handle idle change r found nope)
              (on_record_refused l handle idle again r found (refused r nope))
        | inr ((r', x), changed) ↦
            let (same, again_no) = made r r' x changed in
            settled (on_record_made l handle idle change r r' x found changed) (
              on_record_refused (store l r') handle idle again r'
                (find-store l handle r r' v found same) again_no)
      ]
    ]
  where
    settled :
        {p : StreamTxLedger × R}
        → on_record l handle idle change ≡ p
        → on_record p.0 handle idle again ≡ (p.0, idle)
        → on_record (on_record l handle idle change).0 handle idle again
          ≡ ((on_record l handle idle change).0, idle)
    settled e t =
        subst (λ (q : StreamTxLedger × R). on_record q.0 handle idle again ≡ (q.0, idle)) (sym e) t

-- An attempt's end is counted once: on a sound ledger, a second report of the attempt that
-- `mark_attempt_sent` has just handled changes nothing and is not applied.
pub mark_attempt_sent_once :
    (l : StreamTxLedger) (handle : Option ℕ) (leg now later : ℕ) (rescue : Bool)
    → IsSound l
    → let sent = (mark_attempt_sent l handle leg rescue now).0 in
      mark_attempt_sent sent handle leg rescue later ≡ (sent, no_attempt)
unfolding mark_attempt_sent
mark_attempt_sent_once l handle leg now later rescue v =
    on_record_again l handle no_attempt _ _ v (λ r r' x e. ground arith) (λ r e. ground arith)

-- An attempt is claimed once: on a sound ledger, after `mark_transit` has handled a record, a
-- second claim on any leg changes nothing and is refused.
pub mark_transit_once :
    (l : StreamTxLedger) (handle : Option ℕ) (leg now other later : ℕ)
    → IsSound l
    → let claimed = (mark_transit l handle leg now).0 in
      mark_transit claimed handle other later ≡ (claimed, false)
unfolding mark_transit
mark_transit_once l handle leg now other later v =
    on_record_again l handle false _ (transit_change other later) v (λ r r' x e. ground arith)
      (λ r e. ground arith)

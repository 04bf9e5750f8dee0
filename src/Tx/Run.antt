-- ===== src/Tx/Run.antt =====
-- core/stream_tx.go: any sequence of the ledger's calls that change it, each as one step.
pub mod Sound
use smp3_multipath_kit_publi.Tx.{StreamTxLedger, add}
use smp3_multipath_kit_publi.Tx.Ack.{apply_ack}
use smp3_multipath_kit_publi.Tx.Attempts.{
  set_origin, mark_attempt_sent, clear_attempt_at, mark_rescue_queued, mark_write_started,
  finish_local_enqueue, mark_transit, invalidate_leg, mark_rescue_transit,
  mark_restricted_rescue_transit,
}
use smp3_multipath_kit_publi.Tx.Legs.{mark_ordinary_admitted, assign_ordinary}
use smp3_multipath_kit_publi.Base.{[], ◌∷◌, Bool, ℕ, List, Option, ℤ}

pub data TxCall : Type 0 where
  call_add : List ℕ → ℕ → Bool → TxCall
  call_transit call_rescue call_rescue_queued : Option ℕ → ℕ → ℕ → TxCall
  call_restricted_rescue : Option ℕ → ℕ → Option ℕ → ℕ → TxCall
  call_clear : Option ℕ → ℕ → Bool → ℕ → TxCall
  call_sent : Option ℕ → ℕ → Bool → ℕ → TxCall
  call_invalidate : ℕ → TxCall
  call_write_started : ℕ → ℕ → Bool → ℕ → TxCall
  call_set_origin : ℕ → ℕ → ℤ → TxCall
  call_finish_enqueue : ℕ → TxCall
  call_assign : Option ℕ → ℕ → ℕ → TxCall
  call_admitted : Option ℕ → ℕ → TxCall
  call_ack : ℕ → ℕ → TxCall

unfoldable pub perform : StreamTxLedger → TxCall → StreamTxLedger
perform l (call_add payload now local_enqueue) = (add l payload now local_enqueue).0
perform l (call_transit handle leg now) = (mark_transit l handle leg now).0
perform l (call_rescue handle leg now) = (mark_rescue_transit l handle leg now).0
perform l (call_rescue_queued handle leg started) = (mark_rescue_queued l handle leg started).0
perform l (call_restricted_rescue handle leg owner now) =
    (mark_restricted_rescue_transit l handle leg owner now).0
perform l (call_clear handle leg rescue started) = clear_attempt_at l handle leg rescue started
perform l (call_sent handle leg rescue now) = (mark_attempt_sent l handle leg rescue now).0
perform l (call_invalidate leg) = invalidate_leg l leg
perform l (call_write_started sequence leg rescue now) =
    mark_write_started l sequence leg rescue now
perform l (call_set_origin sequence generation epoch) = set_origin l sequence generation epoch
perform l (call_finish_enqueue sequence) = finish_local_enqueue l sequence
perform l (call_assign handle id now) = (assign_ordinary l handle id now).0
perform l (call_admitted handle id) = mark_ordinary_admitted l handle id
perform l (call_ack next now) = (apply_ack l next now).0

unfoldable pub perform_all : StreamTxLedger → List TxCall → StreamTxLedger
perform_all l [] = l
perform_all l (c ∷ cs) = perform_all (perform l c) cs

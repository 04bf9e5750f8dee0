-- ===== src/Tx/Run/Sound.antt =====
-- core/stream_tx.go: the invariant along any sequence of calls.
use smp3_multipath_kit_publi.Tx.Legs.Frame.{mark_ordinary_admitted-next, assign_ordinary-next}
use smp3_multipath_kit_publi.Tx.Attempts.Frame.{
  invalidate_leg-next, mark_restricted_rescue_transit-next, set_origin-next,
  mark_rescue_transit-next, finish_local_enqueue-next, mark_rescue_queued-next, mark_transit-next,
  mark_attempt_sent-next, mark_write_started-next, clear_attempt_at-next,
}
use smp3_multipath_kit_publi.Tx.Legs.Grow.{ensure-frame, new_ledger-IsSound}
use smp3_multipath_kit_publi.Tx.Ack.Effect.{apply_ack-IsSound, apply_ack-next}
use smp3_multipath_kit_publi.Tx.Legs.Assign.{assign_ordinary-IsSound}
use smp3_multipath_kit_publi.Tx.Attempts.Keep.{
  mark_rescue_transit-IsSound, mark_attempt_sent-IsSound, set_origin-IsSound,
  invalidate_leg-IsSound, finish_local_enqueue-IsSound, mark_write_started-IsSound,
  clear_attempt_at-IsSound, mark_rescue_queued-IsSound, mark_restricted_rescue_transit-IsSound,
  mark_transit-IsSound,
}
use smp3_multipath_kit_publi.Tx.{StreamTxLedger, add, new_ledger}
use smp3_multipath_kit_publi.Tx.Legs.Admit.{mark_ordinary_admitted-IsSound, add-IsSound}
use smp3_multipath_kit_publi.Base.{arith, ◌≤◌, ◌+◌, ℕ, ◌^◌, ◌<◌, ◌∷◌, [], length, List}
use smp3_multipath_kit_publi.Tx.Invariant.{IsSound}
use smp3_multipath_kit_publi.Tx.Run.{
  TxCall, perform, perform_all, call_add, call_sent, call_restricted_rescue, call_rescue_queued,
  call_finish_enqueue, call_assign, call_clear, call_write_started, call_admitted, call_ack,
  call_set_origin, call_transit, call_invalidate, call_rescue,
}

perform-IsSound :
    (l : StreamTxLedger) (c : TxCall)
    → l.next_sequence + 1 < 2 ^ 64
    → IsSound l
    → IsSound (perform l c)
unfolding perform
perform-IsSound l (call_add payload now local_enqueue) h v =
    add-IsSound l payload now local_enqueue v h
perform-IsSound l (call_transit handle leg now) h v = mark_transit-IsSound l handle leg now v
perform-IsSound l (call_rescue handle leg now) h v = mark_rescue_transit-IsSound l handle leg now v
perform-IsSound l (call_rescue_queued handle leg started) h v =
    mark_rescue_queued-IsSound l handle leg started v
perform-IsSound l (call_restricted_rescue handle leg owner now) h v =
    mark_restricted_rescue_transit-IsSound l handle leg now v owner
perform-IsSound l (call_clear handle leg rescue started) h v =
    clear_attempt_at-IsSound l handle leg started v rescue
perform-IsSound l (call_sent handle leg rescue now) h v =
    mark_attempt_sent-IsSound l handle leg now v rescue
perform-IsSound l (call_invalidate leg) h v = invalidate_leg-IsSound l leg v
perform-IsSound l (call_write_started sequence leg rescue now) h v =
    mark_write_started-IsSound l sequence v leg rescue now
perform-IsSound l (call_set_origin sequence generation epoch) h v =
    set_origin-IsSound l sequence v generation epoch
perform-IsSound l (call_finish_enqueue sequence) h v = finish_local_enqueue-IsSound l sequence v
perform-IsSound l (call_assign handle id now) h v = assign_ordinary-IsSound l handle id now v
perform-IsSound l (call_admitted handle id) h v = mark_ordinary_admitted-IsSound l handle id v
perform-IsSound l (call_ack next now) h v = apply_ack-IsSound l next now v

-- A call gives at most one sequence.
perform-next :
    (l : StreamTxLedger) (c : TxCall)
    → IsSound l
    → (perform l c).next_sequence ≤ l.next_sequence + 1
unfolding perform add
perform-next l (call_add payload now local_enqueue) v = omega (arith, (ensure-frame l).0)
perform-next l (call_transit handle leg now) v = omega (arith, mark_transit-next l handle leg now)
perform-next l (call_rescue handle leg now) v =
    omega (arith, mark_rescue_transit-next l handle leg now)
perform-next l (call_rescue_queued handle leg started) v =
    omega (arith, mark_rescue_queued-next l handle leg started)
perform-next l (call_restricted_rescue handle leg owner now) v =
    omega (arith, mark_restricted_rescue_transit-next l handle leg now owner)
perform-next l (call_clear handle leg rescue started) v =
    omega (arith, clear_attempt_at-next l handle leg started rescue)
perform-next l (call_sent handle leg rescue now) v =
    omega (arith, mark_attempt_sent-next l handle leg now rescue)
perform-next l (call_invalidate leg) v = omega (arith, invalidate_leg-next l leg)
perform-next l (call_write_started sequence leg rescue now) v =
    omega (arith, mark_write_started-next l sequence leg rescue now)
perform-next l (call_set_origin sequence generation epoch) v =
    omega (arith, set_origin-next l sequence generation epoch)
perform-next l (call_finish_enqueue sequence) v =
    omega (arith, finish_local_enqueue-next l sequence)
perform-next l (call_assign handle id now) v = omega (arith, assign_ordinary-next l handle id now)
perform-next l (call_admitted handle id) v = omega (arith, mark_ordinary_admitted-next l handle id)
perform-next l (call_ack next now) v = omega (arith, apply_ack-next l next now v)

perform_all-IsSound_from :
    (l : StreamTxLedger) (calls : List TxCall)
    → IsSound l
    → l.next_sequence + length calls < 2 ^ 64
    → IsSound (perform_all l calls)
unfolding perform_all
perform_all-IsSound_from l [] v h = v
perform_all-IsSound_from l (c ∷ calls) v h =
    perform_all-IsSound_from (perform l c) calls (perform-IsSound l c (omega (arith, h)) v)
      (omega (arith, h, perform-next l c v))

-- A new ledger is sound after any fewer than 2^64 calls, in any order and with any arguments: its
-- records are exactly those from the frontier to the next sequence, each under its own sequence,
-- and the three counters of each leg are the number, the bytes and the pending bytes of the records
-- that the leg owns (the bytes modulo 2^64).
pub perform_all-IsSound :
    (max_legs : ℕ) (calls : List TxCall)
    → length calls < 2 ^ 64
    → IsSound (perform_all (new_ledger max_legs) calls)
unfolding new_ledger
perform_all-IsSound max_legs calls h =
    perform_all-IsSound_from (new_ledger max_legs) calls (new_ledger-IsSound max_legs)
      (omega (arith, h))

-- ===== src/Tx/Examples.antt =====
-- core/stream_tx.go: a ledger of two legs and two frames, the first assigned and under way.
use smp3_multipath_kit_publi.Tx.Attempts.Invalidate.{invalidate_leg-outstanding_for_leg}
use smp3_multipath_kit_publi.Tx.Invariant.{IsSound}
use smp3_multipath_kit_publi.Tx.{
  ensure_leg, new_ledger, StreamTxLedger, add, ensure, find, store, outstanding_for_leg,
}
use smp3_multipath_kit_publi.Tx.Legs.{assign_ordinary, release_owner, take_owner, reassign}
use smp3_multipath_kit_publi.Tx.Attempts.{
  no_attempt, mark_attempt_sent, mark_transit, invalidate_leg,
}
use smp3_multipath_kit_publi.Tx.Run.{
  perform_all, call_assign, call_add, call_transit, TxCall, perform,
}
use smp3_multipath_kit_publi.Tx.Ack.{apply_ack, no_progress, future}
use smp3_multipath_kit_publi.Base.{
  ◌≡◌, List, ltb, lookup, arith, [], refl, ◌∷◌, inr, false, insert, some, add64, if◌then◌else◌,
  delete, pos, get_or,
}
use smp3_multipath_kit_publi.Tx.Run.Sound.{perform_all-IsSound}
use smp3_multipath_kit_publi.Tx.Ack.Frontier.{Acknowledged}
use smp3_multipath_kit_publi.Tx.Ack.Effect.{apply_ack-Acknowledged, apply_ack-Ignored, Ignored}
use smp3_multipath_kit_publi.Tx.Attempts.Cycle.{mark_attempt_sent_once, mark_transit_once}

abbrev calls : List TxCall
calls =
    call_add (1 ∷ 2 ∷ []) 5 false
    ∷ call_add (3 ∷ []) 6 false
    ∷ call_assign (some 0) 1 7
    ∷ call_transit (some 0) 1 8
    ∷ []

abbrev two_frames : StreamTxLedger
two_frames = perform_all (new_ledger 2) calls

perform_all-IsSound_example : IsSound (perform_all (new_ledger 2) calls)
perform_all-IsSound_example = perform_all-IsSound 2 calls (omega arith)

two_frames-ends : (two_frames.acked_next ≡ 0) × (two_frames.next_sequence ≡ 2)
unfolding perform_all perform add new_ledger ensure ensure_leg assign_ordinary reassign
    release_owner take_owner mark_transit find store lookup insert delete
two_frames-ends = (refl, refl)

apply_ack-Acknowledged_example :
    let after = apply_ack two_frames 1 20 in Acknowledged two_frames 1 20 after.0 after.1
apply_ack-Acknowledged_example =
    apply_ack-Acknowledged two_frames 1 20 perform_all-IsSound_example
      (omega (arith, two_frames-ends.0)) (omega (arith, two_frames-ends.1))

apply_ack-Ignored_example :
    let after = apply_ack two_frames 3 20 in
    Ignored two_frames after.0
    × (after.1.released ≡ 0)
    × (after.1.disposition ≡ (if ltb two_frames.next_sequence 3 then future else no_progress))
    × (after.1.future_count
        ≡ (if ltb two_frames.next_sequence 3 then add64 two_frames.future_ack_count 1 else 0))
apply_ack-Ignored_example =
    apply_ack-Ignored two_frames 3 20 perform_all-IsSound_example
      (inr (omega (arith, two_frames-ends.1)))

mark_attempt_sent_once_example :
    let sent = (mark_attempt_sent two_frames (some 0) 1 false 9).0 in
    mark_attempt_sent sent (some 0) 1 false 30 ≡ (sent, no_attempt)
mark_attempt_sent_once_example =
    mark_attempt_sent_once two_frames (some 0) 1 9 30 false perform_all-IsSound_example

mark_transit_once_example :
    let claimed = (mark_transit two_frames (some 1) 0 9).0 in
    mark_transit claimed (some 1) 1 30 ≡ (claimed, false)
mark_transit_once_example =
    mark_transit_once two_frames (some 1) 0 9 1 30 perform_all-IsSound_example

invalidate_leg-outstanding_for_leg_example :
    pos (outstanding_for_leg (invalidate_leg two_frames 1) 1)
    ≡ get_or (invalidate_leg two_frames 1).ordinary_frames 1 (pos 0)
invalidate_leg-outstanding_for_leg_example =
    invalidate_leg-outstanding_for_leg two_frames 1 perform_all-IsSound_example

-- ===== src/Tx/Repair/Examples.antt =====
-- core/stream_repair.go: a ledger of two frames that were never sent, the first assigned to leg 1.
use smp3_multipath_kit_publi.Tx.{
  ensure_leg, new_ledger, StreamTxRecord, StreamTxLedger, add, ensure, find, store,
}
use smp3_multipath_kit_publi.Tx.Run.{TxCall, call_assign, perform_all, call_add, perform}
use smp3_multipath_kit_publi.Tx.Repair.{RetryCandidate, restricted_frontier_batch, plan_retries}
use smp3_multipath_kit_publi.Tx.Legs.{take_owner, assign_ordinary, release_owner, reassign}
use smp3_multipath_kit_publi.Base.{
  insert, ◌≡◌, [], arith, false, lookup, some, refl, List, ◌∷◌, true, delete, All, Bool, none, pos,
  inl,
}
use smp3_multipath_kit_publi.Tx.Repair.Retries.{plan_retries-FromMap, plan_retries-Planned, FromMap}
use smp3_multipath_kit_publi.Tx.Repair.Sorted.{Planned, Ascending}
use smp3_multipath_kit_publi.Tx.Repair.Batch.{restricted_frontier_batch-IsBatch, IsBatch}
use smp3_multipath_kit_publi.Tx.Run.Sound.{perform_all-IsSound}
use smp3_multipath_kit_publi.Tx.Invariant.{IsSound}

abbrev unsent_calls : List TxCall
unsent_calls =
    call_add (1 ∷ 2 ∷ []) 5 false ∷ call_add (3 ∷ []) 6 false ∷ call_assign (some 0) 1 7 ∷ []

abbrev pub unsent : StreamTxLedger
unsent = perform_all (new_ledger 2) unsent_calls

unsent-IsSound : IsSound unsent
unsent-IsSound = perform_all-IsSound 2 unsent_calls (omega arith)

abbrev both_live : List Bool
both_live = true ∷ true ∷ []

plan_retries-FromMap_example :
    Ascending (plan_retries unsent both_live)
    × All (FromMap both_live unsent.outstanding) (plan_retries unsent both_live)
plan_retries-FromMap_example = plan_retries-FromMap unsent both_live unsent-IsSound

-- The second frame as `add` made it.
abbrev pub second : StreamTxRecord
second = record {
  sequence = 1;
  payload = 3 ∷ [];
  created_at = 6;
  last_sent_at = 0;
  last_sent_leg = none;
  last_sent_attempt_at = 0;
  in_transit = false;
  transit_leg = 0;
  transit_since = 0;
  rescue_in_transit = false;
  rescue_leg = 0;
  rescue_since = 0;
  last_rescue_at = 0;
  send_count = 0;
  ordinary_owner = none;
  ordinary_admitted = false;
  assigned_at = 0;
  first_write_at = 0;
  frontier_at = 0;
  origin_generation = 0;
  origin_epoch = pos 0;
  probe_write_started_at = none;
  invalidated = false;
  duplicated = false;
  local_enqueue = false;
}

abbrev resend : RetryCandidate
resend = record { candidate = second; avoid = none }

pub second-outstanding : lookup 1 unsent.outstanding ≡ some second
unfolding perform_all perform add new_ledger ensure ensure_leg assign_ordinary reassign
    release_owner take_owner find store lookup insert delete
second-outstanding = refl

plan_retries-Planned_example : Planned resend (plan_retries unsent both_live)
plan_retries-Planned_example =
    plan_retries-Planned unsent both_live 1 second second-outstanding (refl, refl, refl, inl refl)

restricted_frontier_batch-IsBatch_example :
    IsBatch 1 20 10 5 100 unsent.outstanding
      (restricted_frontier_batch unsent (some 0) 1 20 10 5 100)
restricted_frontier_batch-IsBatch_example =
    restricted_frontier_batch-IsBatch unsent (some 0) 1 20 10 5 100 unsent-IsSound

-- ===== src/Rescue/Run.antt =====
-- core/stream_bounded_rescue.go: the calls that change the budget, each as one step, and the changes of
-- state that they are made of.
pub mod Moves
pub mod Records
pub mod Sound
pub mod Spent
pub mod Attempt
pub mod Refine
use smp3_multipath_kit_publi.Rescue.Window.{prune}
use smp3_multipath_kit_publi.Rescue.Write.{
  settle, release_unstarted, charge, ack_through, begin_write, close_budget,
  revalidate_before_write, start_write, take_out, settle, release_unstarted,
}
use smp3_multipath_kit_publi.Rescue.{
  RescueRecordState, RescueReservation, StreamRescueEvidence, StreamRescueBudget,
}
use smp3_multipath_kit_publi.Rescue.Reserve.{
  reserve, entered, split_for, record_original, add_reservation, reserve,
}
use smp3_multipath_kit_publi.Base.{leb, lookup, ◌≡◌, false, some, ℕ, ◌≤◌, ◌&&◌, ◌+◌, suc}

-- One call of the engine. Snapshot only prunes.
pub data RescueStep (b : StreamRescueBudget) : StreamRescueBudget → Type 0 where
  step_original : (sequence bytes at : ℕ) → RescueStep b (record_original b sequence bytes at).0
  step_reserve :
      (e : StreamRescueEvidence) (payload at : ℕ) → RescueStep b (reserve b e payload at).0
  step_begin : (id : ℕ) → RescueStep b (begin_write b id).0
  step_revalidate :
      (id : ℕ) (current : StreamRescueEvidence)
      → RescueStep b (revalidate_before_write b id current).0
  step_settle : (id accepted at : ℕ) → RescueStep b (settle b id accepted at).0
  step_release : (id : ℕ) → RescueStep b (release_unstarted b id).0
  step_ack : (next : ℕ) → RescueStep b (ack_through b next)
  step_close : RescueStep b (close_budget b)
  step_snapshot : (at : ℕ) → RescueStep b (prune b at)

-- What n calls lead to.
pub data RescueReach (b : StreamRescueBudget) : ℕ → StreamRescueBudget → Type 0 where
  at_start : RescueReach b 0 b
  after_call :
      {n : ℕ} {c d : StreamRescueBudget}
      → RescueReach b n c
      → RescueStep c d
      → RescueReach b (suc n) d

-- The changes of state. The number is that of the reservations added.
pub data RescueMove (b : StreamRescueBudget) : ℕ → StreamRescueBudget → Type 0 where
  move_candidate : (c : ℕ) → RescueMove b 0 (record b { next_candidate = c })
  move_prune : (at : ℕ) → RescueMove b 0 (prune b at)
  move_close : RescueMove b 0 (close_budget b)
  move_ack : (next : ℕ) → RescueMove b 0 (ack_through b next)
  move_original :
      (sequence bytes at : ℕ)
      → (b.has_original && leb sequence b.last_original) ≡ false
      → RescueMove b 0 (entered b sequence bytes at)
  move_add :
      (e : StreamRescueEvidence) (state : RescueRecordState) (payload base burst : ℕ)
      → lookup e.sequence b.records ≡ some state
      → split_for b payload ≡ some (base, burst)
      → RescueMove b 1 (add_reservation b e state payload base burst)
  move_take :
      (id : ℕ) (r : RescueReservation)
      → lookup id b.reservations ≡ some r
      → RescueMove b 0 (take_out b r id)
  move_settle :
      (id : ℕ) (r : RescueReservation) (accepted at : ℕ)
      → lookup id b.reservations ≡ some r
      → accepted ≤ r.reserved_bytes
      → RescueMove b 0 (take_out (charge b r accepted at) r id)
  move_start :
      (id : ℕ) (r : RescueReservation) (state : RescueRecordState)
      → lookup id b.reservations ≡ some r
      → lookup r.seq b.records ≡ some state
      → RescueMove b 0 (start_write b r state id)

pub data RescueMoves : StreamRescueBudget → ℕ → StreamRescueBudget → Type 0 where
  no_move : {b : StreamRescueBudget} → RescueMoves b 0 b
  move_then :
      {n k l : ℕ} {b c d : StreamRescueBudget}
      → n ≡ k + l
      → RescueMove b k c
      → RescueMoves c l d
      → RescueMoves b n d

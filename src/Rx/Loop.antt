-- ===== src/Rx/Loop.antt =====
-- core/stream_engine.go, rxLoop: what the engine does with each DATA frame that a carrier delivers.
-- The application pipe is the parameter `pipe_accepts`: whether writeAll of a payload succeeds when
-- so many frames have been written. Telemetry, traces and buffer pools are left out.
pub mod Delivery
pub mod Progress
pub mod Examples
use smp3_multipath_kit_publi.Base.{
  ℕ, List, [], Bool, ◌∷◌, Option, suc, length, ◌+◌, none, false, true, zero, some,
}
use smp3_multipath_kit_publi.Rx.{
  StreamRxFrame, StreamRxWindow, Outcome, accepted, reorder_limit, ready, buffered, duplicate,
  buffered_duplicate, new_stream_rx_window, insert_frame, commit_ready, pop_contiguous, ℕ, List,
}

-- How the loop stands. `limit_exceeded` is fail(ErrStreamRXReorderLimit), `write_failed` the error of
-- the pipe. `out_of_fuel` is no state of the program.
pub data Status : Type 0 where
  running limit_exceeded write_failed out_of_fuel : Status

pub record RxState : Type 0 where
  pub window : StreamRxWindow
  pub written : List StreamRxFrame  -- to the pipe, newest first
  pub forced_acks : ℕ  -- calls of forceAck
  pub requested_acks : List ℕ  -- arguments of requestAck, newest first
  pub status : Status

-- A frame from `incoming`, the clock when it is inserted, and the clock at the commits that follow.
pub record Arrival : Type 0 where
  pub frame : StreamRxFrame
  pub observed_at : ℕ
  pub commit_at : ℕ → ℕ

pub new_rx_state : ℕ → RxState
new_rx_state max_reorder_frames = record {
  window = new_stream_rx_window max_reorder_frames;
  written = [];
  forced_acks = 0;
  requested_acks = [];
  status = running;
}

-- requestAck(window.Expected())
pub acknowledge : RxState → RxState
acknowledge s = record s { requested_acks = s.window.expected ∷ s.requested_acks }

module _ (pipe_accepts : ℕ → List ℕ → Bool) where
  -- One round of the inner loop, when the pipe takes the frame: commit it, and look for the next.
  pub commit_written : RxState → StreamRxFrame → ℕ → RxState × Option StreamRxFrame
  commit_written s frame now =
      let (w, next) = pop_contiguous (commit_ready s.window now) in
      (record s { window = w; written = frame ∷ s.written }, next)

  -- The inner loop, which ends with requestAck of the frontier.
  pub write_contiguous : ℕ → RxState → StreamRxFrame → (ℕ → ℕ) → RxState
  write_contiguous zero s frame commit_at = record s { status = out_of_fuel }
  write_contiguous (suc fuel) s frame commit_at =
      let round = commit_written s frame (commit_at fuel) in
      elim (pipe_accepts (length s.written) frame.payload) [
        | false ↦ record s { status = write_failed }
        | true ↦ elim round.1 [
          | none ↦ acknowledge round.0
          | some next ↦ write_contiguous fuel round.0 next commit_at
        ]
      ]

  -- The `switch disposition`. A commit can be followed by one frame for each that is retained.
  pub handle : RxState → Arrival → Outcome → RxState
  handle s a reorder_limit = record s { status = limit_exceeded }
  handle s a (accepted duplicate) = record s { forced_acks = s.forced_acks + 1 }
  handle s a (accepted buffered_duplicate) = s
  handle s a (accepted buffered) = s
  handle s a (accepted ready) = write_contiguous (length s.window.pending + 1) s a.frame a.commit_at

  pub receive : RxState → Arrival → RxState
  receive s a =
      let (w, outcome) = insert_frame s.window a.frame a.observed_at in
      elim s.status [ running ↦ handle (record s { window = w }) a outcome | _ ↦ s ]

  pub run : RxState → List Arrival → RxState
  run s [] = s
  run s (a ∷ as') = run (receive s a) as'

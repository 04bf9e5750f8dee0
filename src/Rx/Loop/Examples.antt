-- ===== src/Rx/Loop/Examples.antt =====
-- core/stream_engine.go, rxLoop on four frames that arrive out of order, one of them twice.
use smp3_multipath_kit_publi.Rx.Loop.{
  Arrival, new_rx_state, out_of_fuel, run, receive, running, handle, write_contiguous,
  commit_written, acknowledge,
}
use smp3_multipath_kit_publi.Rx.{
  advance, retain, refresh_gap, insert_frame, commit_ready, refresh_gap, StreamRxWindow,
  pop_contiguous, new_stream_rx_window,
}
use smp3_multipath_kit_publi.Base.{
  ◌∷◌, true, delete, ◌≢◌, lookup, Bool, ◌+◌, arith, refl, List, length, insert, ◌<◌, All, ◌≤◌, ◌≡◌,
  ◌⊎◌, ℕ, [],
}
use smp3_multipath_kit_publi.Rx.Loop.Delivery.{run_delivers, stream_of, sent}
use smp3_multipath_kit_publi.Rx.Loop.Progress.{run_progress, Arrived}
use smp3_multipath_kit_publi.Rx.Window.{
  insert_frame-Inserted, commit-pop, new-IsIdle, Popped, Inserted, IsFrameOf, IsReady,
}

abbrev open_pipe : ℕ → List ℕ → Bool
open_pipe written payload = true

abbrev letters : ℕ → List ℕ
letters k = (97 + k) ∷ []

abbrev arrival : ℕ → ℕ → Arrival
arrival sequence at = record {
  frame = record { sequence = sequence; leg = 0; payload = letters sequence };
  observed_at = at;
  commit_at = λ n. at;
}

abbrev arrivals : List Arrival
arrivals = arrival 1 10 ∷ arrival 0 11 ∷ arrival 1 12 ∷ arrival 2 13 ∷ []

arrivals-IsFrameOf : All (λ a. IsFrameOf letters a.frame) arrivals
arrivals-IsFrameOf = (
  fits 1 (omega arith),
  (fits 0 (omega arith), (fits 1 (omega arith), (fits 2 (omega arith), tt))),
)
  where
    fits : (k : ℕ) → k < 3 → IsFrameOf letters (arrival k 0).frame
    fits k h = (omega (arith, h), refl)

run_delivers_example :
    let s = run open_pipe (new_rx_state 8) arrivals in
    (stream_of s.written ≡ sent letters (length s.written))
    × (s.status ≢ out_of_fuel)
    × ((s.status ≢ running) ⊎ (s.window.expected ≡ length s.written))
run_delivers_example = run_delivers open_pipe letters 8 arrivals arrivals-IsFrameOf

arrived : (k : ℕ) → k < 3 → Arrived k arrivals
arrived k h = ground arith

run_progress_example : 3 ≤ length (run open_pipe (new_rx_state 8) arrivals).written
unfolding run receive handle write_contiguous commit_written acknowledge insert_frame commit_ready
    pop_contiguous advance retain refresh_gap new_rx_state new_stream_rx_window lookup insert delete
run_progress_example = run_progress open_pipe letters 8 3 arrivals arrivals-IsFrameOf arrived refl

insert_frame-Inserted_example :
    Inserted letters
      (new_stream_rx_window 8)
      (arrival 1 10).frame
      (insert_frame (new_stream_rx_window 8) (arrival 1 10).frame 10)
insert_frame-Inserted_example =
    insert_frame-Inserted letters (new_stream_rx_window 8) (arrival 1 10).frame 10
      (new-IsIdle letters 8) (omega arith, refl)

-- The frontier's frame has been inserted and waits for its delivery.
abbrev ready_window : StreamRxWindow
ready_window = record (new_stream_rx_window 8) { ready_pending = true }

ready_window-IsReady : IsReady letters ready_window
unfolding new_stream_rx_window
ready_window-IsReady =
    let v = new-IsIdle letters 8 in
    record {
      window = record {
        distinct = tt;
        retained = tt;
        bounded = omega arith;
        counted = refl;
        in_range = omega arith;
      };
      busy = refl;
      next_fits = omega arith;
    }

commit-pop_example : Popped letters ready_window (pop_contiguous (commit_ready ready_window 20))
commit-pop_example = commit-pop letters ready_window 20 ready_window-IsReady

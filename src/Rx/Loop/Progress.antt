-- ===== src/Rx/Loop/Progress.antt =====
-- core/stream_engine.go, rxLoop: what has become of each sequence that arrived.
use smp3_multipath_kit_publi.Base.{
  ◌≡◌, inl, arith, ◌⊎◌, true, ◌<◌, none, inr, zero, length, is_some, length-delete_found, Option, ℕ,
  List, Bool, lookup, lookup-delete, some, Bool-cases, suc, ◌∷◌, [], refl, ◌∙◌, lookup-insert, ap,
  ◌+◌, All, ◌≢◌, ◌≤◌, leb→le, leb,
}
use smp3_multipath_kit_publi.Rx.{
  StreamRxFrame, StreamRxWindow, Outcome, accepted, reorder_limit, ready, buffered, duplicate,
  buffered_duplicate, insert_frame,
}
use smp3_multipath_kit_publi.Rx.Window.{
  Retained-below, IsReady, IsFrameOf, Inserted, insert_frame-Inserted, Popped, commit-pop,
}
use smp3_multipath_kit_publi.Rx.Loop.{
  RxState, Arrival, running, limit_exceeded, write_failed, new_rx_state, acknowledge,
  commit_written, write_contiguous, handle, receive, run,
}
use smp3_multipath_kit_publi.Rx.Loop.Delivery.{
  run-IsSound, run_delivers, IsRunning, IsSound, receive-IsSound, receive_stopped, new-IsSound,
}

abbrev pub Covered : ℕ → StreamRxWindow → Type 0
Covered k w = (k < w.expected) ⊎ (is_some (lookup k w.pending) ≡ true)

abbrev pub Arrived : ℕ → List Arrival → Type 0
Arrived k [] = ⊥
Arrived k (a ∷ rest) = (k ≡ a.frame.sequence) ⊎ Arrived k rest

module _ (pipe_accepts : ℕ → List ℕ → Bool) (source : ℕ → List ℕ) (k : ℕ) where
  -- Covered, or the frame that is being delivered.
  abbrev InHand : StreamRxWindow → Type 0
  InHand w = Covered k w ⊎ (k ≡ w.expected)

  -- The inner loop covers what was covered, and the frame in hand, unless the pipe fails.
  abbrev LoopCovers : ℕ → (ℕ → ℕ) → Type 0
  LoopCovers fuel commit_at =
      (s : RxState) (f : StreamRxFrame)
      → length s.window.pending < fuel
      → IsReady source s.window
      → InHand s.window
      → (write_contiguous pipe_accepts fuel s f commit_at).status ≡ running
      → Covered k (write_contiguous pipe_accepts fuel s f commit_at).window

  next_round-covers :
      (fuel : ℕ) (commit_at : ℕ → ℕ) (s s' : RxState) (next : Option StreamRxFrame)
      → LoopCovers fuel commit_at
      → length s.window.pending < suc fuel
      → IsReady source s.window
      → InHand s.window
      → Popped source s.window (s'.window, next)
      → let t : RxState = elim next [
        | none ↦ acknowledge s'
        | some g ↦ write_contiguous pipe_accepts fuel s' g commit_at
      ] in
        t.status ≡ running → Covered k t.window
  unfolding acknowledge
  next_round-covers fuel commit_at s s' none loop enough v covered (idle, to, same) alive =
      rw (to, same) (ground arith)
  next_round-covers fuel commit_at s s' (some g) loop enough v covered
        (busy, to, key, payload, found, left) alive =
      loop s' g (omega (arith, fewer)) busy still alive
    where
      fewer : length s.window.pending ≡ suc (length s'.window.pending)
      fewer =
          rw left (length-delete_found s'.window.expected s.window.pending v.window.distinct found)

      still : InHand s'.window
      still = rw (left, lookup-delete s'.window.expected k s.window.pending) (ground arith)

  write_contiguous-covers : (fuel : ℕ) (commit_at : ℕ → ℕ) → LoopCovers fuel commit_at
  unfolding write_contiguous commit_written
  write_contiguous-covers zero commit_at s f enough v covered = absurd (omega arith)
  write_contiguous-covers (suc fuel) commit_at s f enough v covered =
      let round = commit_written pipe_accepts s f (commit_at fuel) in
      elim (Bool-cases (pipe_accepts (length s.written) f.payload)) [
        | inl taken ↦
            rw (taken, write_contiguous)
              (next_round-covers fuel commit_at s round.0 round.1
                (write_contiguous-covers fuel commit_at) enough v covered
                (commit-pop source s.window (commit_at fuel) v))
        | inr refused ↦ rw (refused, write_contiguous) (λ e. cc)
      ]

  handle-covers :
      (s : RxState) (a : Arrival) (outcome : Outcome) (w : StreamRxWindow)
      → IsRunning pipe_accepts source s
      → Covered k s.window ⊎ (k ≡ a.frame.sequence)
      → Inserted source s.window a.frame (w, outcome)
      → let t = handle pipe_accepts (record s { window = w }) a outcome in
        t.status ≡ running → Covered k t.window
  unfolding handle
  handle-covers s a reorder_limit w v covered i e = cc
  handle-covers s a (accepted duplicate) w v covered (idle, same, old) e = rw same (ground arith)
  handle-covers s a (accepted buffered_duplicate) w v covered (idle, same, held) e =
      rw same (ground arith)
  handle-covers s a (accepted buffered) w v covered (idle, to, same) e =
      rw (to, same, lookup-insert a.frame.sequence k a.frame s.window.pending) (ground arith)
  handle-covers s a (accepted ready) w v covered (busy, key, to, same) e =
      write_contiguous-covers (length w.pending + 1) a.commit_at (record s { window = w }) a.frame
        (omega arith) busy (rw (to, same) (ground arith)) e

  receive-covers :
      (s : RxState) (a : Arrival)
      → IsRunning pipe_accepts source s
      → IsFrameOf source a.frame
      → Covered k s.window ⊎ (k ≡ a.frame.sequence)
      → (receive pipe_accepts s a).status ≡ running
      → Covered k (receive pipe_accepts s a).window
  unfolding receive
  receive-covers s a v g covered =
      let inserted = insert_frame s.window a.frame a.observed_at in
      rw (v.alive, receive)
        (handle-covers s a inserted.1 inserted.0 v covered
          (insert_frame-Inserted source s.window a.frame a.observed_at v.idle g))

  -- A loop that runs at the end has run all the time.
  run_stopped :
      (s : RxState) (arrivals : List Arrival)
      → (s.status ≡ limit_exceeded) ⊎ (s.status ≡ write_failed)
      → run pipe_accepts s arrivals ≡ s
  unfolding run
  run_stopped s [] stop = refl
  run_stopped s (a ∷ rest) stop =
      ap (λ t. run pipe_accepts t rest) (receive_stopped pipe_accepts source s a stop)
      ∙ run_stopped s rest stop

  stopped-running :
      (s : RxState) (arrivals : List Arrival)
      → (s.status ≡ limit_exceeded) ⊎ (s.status ≡ write_failed)
      → (run pipe_accepts s arrivals).status ≢ running
  stopped-running s arrivals why = rw (run_stopped s arrivals why) (λ e. ground arith)

  run-covers :
      (s : RxState) (arrivals : List Arrival)
      → IsSound pipe_accepts source s
      → All (λ a. IsFrameOf source a.frame) arrivals
      → Covered k s.window ⊎ Arrived k arrivals
      → (run pipe_accepts s arrivals).status ≡ running
      → Covered k (run pipe_accepts s arrivals).window
  unfolding run
  run-covers s [] v g (inl covered) e = covered
  run-covers s [] v g (inr never) e = absurd never
  run-covers s (a ∷ rest) (inr (why, d)) g covered e = absurd (stopped-running s (a ∷ rest) why e)
  run-covers s (a ∷ rest) (inl v) (g, more) covered e =
      elim (receive-IsSound pipe_accepts source s a v g) [
        | inl v' ↦
            run-covers (receive pipe_accepts s a) rest (inl v') more (next covered v'.alive) e
        | inr (why, d) ↦ absurd (stopped-running (receive pipe_accepts s a) rest why e)
      ]
    where
      next :
          Covered k s.window ⊎ Arrived k (a ∷ rest)
          → (receive pipe_accepts s a).status ≡ running
          → Covered k (receive pipe_accepts s a).window ⊎ Arrived k rest
      next (inl c) alive = inl (receive-covers s a v g (inl c) alive)
      next (inr (inl here)) alive = inl (receive-covers s a v g (inr here) alive)
      next (inr (inr later)) alive = inr later

-- When all arrivals are frames of one sender, the frames of the sequences below n are among them,
-- and neither the reorder limit nor the pipe has stopped the loop, at least n frames have been
-- written to the application.
pub run_progress :
    (pipe_accepts : ℕ → List ℕ → Bool) (source : ℕ → List ℕ) (max_reorder_frames n : ℕ)
    (arrivals : List Arrival)
    → All (λ a. IsFrameOf source a.frame) arrivals
    → ((k : ℕ) → k < n → Arrived k arrivals)
    → (run pipe_accepts (new_rx_state max_reorder_frames) arrivals).status ≡ running
    → n ≤ length (run pipe_accepts (new_rx_state max_reorder_frames) arrivals).written
run_progress pipe source limit n arrivals g all alive =
    elim (Bool-cases (leb n (length s.written))) [
      | inl enough ↦ leb→le _ _ enough
      | inr short ↦ absurd (missing (all s.window.expected (rw count (ground arith))))
    ]
  where
    s : RxState
    s = run pipe (new_rx_state limit) arrivals

    sound : IsSound pipe source s
    sound = run-IsSound pipe source (new_rx_state limit) arrivals (new-IsSound pipe source limit) g

    count : s.window.expected ≡ length s.written
    count = elim (run_delivers pipe source limit arrivals g).2 [
      | inl stopped ↦ absurd (stopped alive)
      | inr same ↦ same
    ]

    missing : Arrived s.window.expected arrivals → ⊥
    missing arrived =
        elim (run-covers pipe source s.window.expected (new_rx_state limit) arrivals
          (new-IsSound pipe source limit) g (inr arrived) alive) [
            | inl below ↦ omega arith
            | inr held ↦ elim sound [
              | inl v ↦
                  let gone =
                    Retained-below source (s.window.expected + 1) s.window.expected s.window.pending
                      (omega arith) v.idle.window.retained in
                  ground (arith, gone)
              | inr (why, d) ↦ ground arith
            ]
          ]

-- ===== src/Rx/Loop/Delivery.antt =====
-- core/stream_engine.go, rxLoop: what the loop writes to the application.
use native.Mathlib.Numerals.{add-one}
use smp3_multipath_kit_publi.Base.{
  ◌≡◌, ℕ, ◌<◌, length, List, ◌∷◌, Bool, ◌⊎◌, ◌++◌, zero, [], arith, suc, inr, inl, Bool-cases, ◌∙◌,
  none, ◌+◌, refl, some, length-delete_found, Option, sym, ap, All, ◌≢◌,
}
use smp3_multipath_kit_publi.Rx.{
  new_stream_rx_window, StreamRxFrame, StreamRxWindow, Outcome, accepted, reorder_limit, ready,
  buffered, duplicate, buffered_duplicate, insert_frame, commit_ready, pop_contiguous,
}
use smp3_multipath_kit_publi.Rx.Window.{
  IsIdle, IsReady, IsFrameOf, Inserted, insert_frame-Inserted, Popped, commit-pop, new-IsIdle,
}
use smp3_multipath_kit_publi.Rx.Loop.{
  RxState, Arrival, running, limit_exceeded, write_failed, acknowledge, commit_written,
  write_contiguous, handle, receive, run, new_rx_state, out_of_fuel,
}

-- The bytes that the pipe was given, oldest first, and the first n payloads of the sender.
abbrev pub stream_of : List StreamRxFrame → List ℕ
stream_of [] = []
stream_of (f ∷ fs) = stream_of fs ++ f.payload

abbrev pub sent : (ℕ → List ℕ) → ℕ → List ℕ
sent source zero = []
sent source (suc n) = sent source n ++ source n

module _ (pipe_accepts : ℕ → List ℕ → Bool) (source : ℕ → List ℕ) where
  -- The frames that were written are those below the frontier, in order, each once.
  pub record IsDelivered (s : RxState) (frontier : ℕ) : Type 0 where
    pub bytes : stream_of s.written ≡ sent source frontier
    pub count : length s.written ≡ frontier

  pub record IsRunning (s : RxState) : Type 0 where
    pub idle : IsIdle source s.window
    pub delivered : IsDelivered s s.window.expected
    pub alive : s.status ≡ running

  -- After any arrival: the loop runs on, or it has stopped with what was written still in order.
  abbrev pub IsSound : RxState → Type 0
  IsSound s =
      IsRunning s
      ⊎ (((s.status ≡ limit_exceeded) ⊎ (s.status ≡ write_failed)) × ((n : ℕ) × IsDelivered s n))

  extend :
      {s : RxState} (f : StreamRxFrame) (w : StreamRxWindow)
      → IsDelivered s s.window.expected
      → f.payload ≡ source s.window.expected
      → w.expected ≡ s.window.expected + 1
      → IsDelivered (record s { window = w; written = f ∷ s.written }) w.expected
  extend {s} f w d same next = record {
    bytes = rw (next ∙ add-one s.window.expected, d.bytes, same);
    count = omega (arith, d.count);
  }

  -- One round of the inner loop: the frontier's frame is written, and either the frame behind it is
  -- at hand or the window is idle.
  abbrev Round : RxState → RxState × Option StreamRxFrame → Type 0
  Round s (s', none) =
      IsIdle source s'.window × IsDelivered s' s'.window.expected × (s'.status ≡ s.status)
  Round s (s', some g) =
      IsReady source s'.window
      × IsDelivered s' s'.window.expected
      × (s'.status ≡ s.status)
      × (g.sequence ≡ s'.window.expected)
      × (g.payload ≡ source s'.window.expected)
      × (length s.window.pending ≡ suc (length s'.window.pending))

  Popped-Round :
      (s : RxState) (f : StreamRxFrame) (w : StreamRxWindow) (next : Option StreamRxFrame)
      → IsReady source s.window
      → IsDelivered s s.window.expected
      → f.payload ≡ source s.window.expected
      → Popped source s.window (w, next)
      → Round s (record s { window = w; written = f ∷ s.written }, next)
  Popped-Round s f w none v d same (idle, to, _) = (idle, extend f w d same to, refl)
  Popped-Round s f w (some g) v d same (busy, to, key, payload, found, left) = (
    busy,
    extend f w d same to,
    refl,
    key,
    payload,
    rw left (length-delete_found w.expected s.window.pending v.window.distinct found),
  )

  commit_written-Round :
      (s : RxState) (f : StreamRxFrame) (now : ℕ)
      → IsReady source s.window
      → IsDelivered s s.window.expected
      → f.payload ≡ source s.window.expected
      → Round s (commit_written pipe_accepts s f now)
  unfolding commit_written
  commit_written-Round s f now v d same =
      let next = pop_contiguous (commit_ready s.window now) in
      Popped-Round s f next.0 next.1 v d same (commit-pop source s.window now v)

  -- The inner loop with so much fuel is sound from any state in which a frame is being delivered.
  abbrev LoopIsSound : ℕ → (ℕ → ℕ) → Type 0
  LoopIsSound fuel commit_at =
      (s : RxState) (f : StreamRxFrame)
      → length s.window.pending < fuel
      → IsReady source s.window
      → IsDelivered s s.window.expected
      → f.payload ≡ source s.window.expected
      → s.status ≡ running
      → IsSound (write_contiguous pipe_accepts fuel s f commit_at)

  -- What follows a round, by whether a frame was handed over.
  next-Round-IsSound :
      (fuel : ℕ) (commit_at : ℕ → ℕ) (s s' : RxState) (next : Option StreamRxFrame)
      → LoopIsSound fuel commit_at
      → length s.window.pending < suc fuel
      → s.status ≡ running
      → Round s (s', next)
      → IsSound (elim next [
        | none ↦ acknowledge s'
        | some g ↦ write_contiguous pipe_accepts fuel s' g commit_at
      ])
  unfolding acknowledge
  next-Round-IsSound fuel commit_at s s' none loop enough alive (idle, d, same) = inl (record {
    idle = idle;
    delivered = record { bytes = d.bytes; count = d.count };
    alive = same ∙ alive;
  })
  next-Round-IsSound fuel commit_at s s' (some g) loop enough alive
        (busy, d, same, key, payload, fewer) =
      loop s' g (omega arith) busy d payload (same ∙ alive)

  write_contiguous-IsSound : (fuel : ℕ) (commit_at : ℕ → ℕ) → LoopIsSound fuel commit_at
  unfolding write_contiguous
  write_contiguous-IsSound zero commit_at s f enough v d same alive = absurd (omega arith)
  write_contiguous-IsSound (suc fuel) commit_at s f enough v d same alive =
      let round = commit_written pipe_accepts s f (commit_at fuel) in
      elim (Bool-cases (pipe_accepts (length s.written) f.payload)) [
        | inl taken ↦
            rw (taken, write_contiguous)
              (next-Round-IsSound fuel commit_at s round.0 round.1
                (write_contiguous-IsSound fuel commit_at) enough alive
                (commit_written-Round s f (commit_at fuel) v d same))
        | inr refused ↦
            rw (refused, write_contiguous)
              (inr (inr refl, (s.window.expected, record { bytes = d.bytes; count = d.count })))
      ]

  kept :
      {s : RxState} {w : StreamRxWindow} {forced : ℕ}
      → IsRunning s
      → IsIdle source w
      → w.expected ≡ s.window.expected
      → IsRunning (record s { window = w; forced_acks = forced })
  kept v idle to = record {
    idle = idle;
    delivered = record {
      bytes = v.delivered.bytes ∙ ap (sent source) (sym to);
      count = v.delivered.count ∙ sym to;
    };
    alive = v.alive;
  }

  handle-IsSound :
      (s : RxState) (a : Arrival) (outcome : Outcome) (w : StreamRxWindow)
      → IsRunning s
      → IsFrameOf source a.frame
      → Inserted source s.window a.frame (w, outcome)
      → IsSound (handle pipe_accepts (record s { window = w }) a outcome)
  unfolding handle
  handle-IsSound s a reorder_limit w v g (idle, same, _) = inr (
    inl refl,
    (s.window.expected, record { bytes = v.delivered.bytes; count = v.delivered.count }),
  )
  handle-IsSound s a (accepted duplicate) w v g (idle, same, _) =
      inl (kept v idle (ap (λ (x : StreamRxWindow). x.expected) same))
  handle-IsSound s a (accepted buffered_duplicate) w v g (idle, same, _) =
      inl (kept v idle (ap (λ (x : StreamRxWindow). x.expected) same))
  handle-IsSound s a (accepted buffered) w v g (idle, to, _) = inl (kept v idle to)
  handle-IsSound s a (accepted ready) w v g (busy, key, to, same) =
      write_contiguous-IsSound (length w.pending + 1) a.commit_at (record s { window = w }) a.frame
        (omega arith) busy
        (record {
          bytes = v.delivered.bytes ∙ ap (sent source) (sym to);
          count = v.delivered.count ∙ sym to;
        })
        (g.1 ∙ ap source (key ∙ sym to)) v.alive

  pub receive-IsSound :
      (s : RxState) (a : Arrival)
      → IsRunning s
      → IsFrameOf source a.frame
      → IsSound (receive pipe_accepts s a)
  unfolding receive
  receive-IsSound s a v g =
      let inserted = insert_frame s.window a.frame a.observed_at in
      rw (v.alive, receive)
        (handle-IsSound s a inserted.1 inserted.0 v g
          (insert_frame-Inserted source s.window a.frame a.observed_at v.idle g))

  -- A loop that has stopped takes no more frames.
  pub receive_stopped :
      (s : RxState) (a : Arrival)
      → (s.status ≡ limit_exceeded) ⊎ (s.status ≡ write_failed)
      → receive pipe_accepts s a ≡ s
  unfolding receive
  receive_stopped s a (inl e) = ground arith
  receive_stopped s a (inr e) = ground arith

  pub run-IsSound :
      (s : RxState) (arrivals : List Arrival)
      → IsSound s
      → All (λ a. IsFrameOf source a.frame) arrivals
      → IsSound (run pipe_accepts s arrivals)
  unfolding run
  run-IsSound s [] v g = v
  run-IsSound s (a ∷ rest) (inl v) (g, more) =
      run-IsSound (receive pipe_accepts s a) rest (receive-IsSound s a v g) more
  run-IsSound s (a ∷ rest) (inr v) (g, more) =
      run-IsSound (receive pipe_accepts s a) rest (rw (receive_stopped s a v.0) (inr v)) more

  pub new-IsSound : (max_reorder_frames : ℕ) → IsSound (new_rx_state max_reorder_frames)
  unfolding new_rx_state new_stream_rx_window
  new-IsSound n = inl (record {
    idle = new-IsIdle source n;
    delivered = record { bytes = refl; count = refl };
    alive = refl;
  })

  -- For every behaviour of the pipe, and whatever frames of one sender arrive, in whatever order and
  -- however often (each with its sender's payload, short of the last sequence of 64 bits): what the
  -- loop has written to the application is the sender's payloads in order from the first, none
  -- missing and none twice. The inner loop never runs out of fuel, and either the loop has stopped
  -- or its frontier is the number of frames written.
  pub run_delivers :
      (max_reorder_frames : ℕ) (arrivals : List Arrival)
      → All (λ a. IsFrameOf source a.frame) arrivals
      → let s = run pipe_accepts (new_rx_state max_reorder_frames) arrivals in
        (stream_of s.written ≡ sent source (length s.written))
        × (s.status ≢ out_of_fuel)
        × ((s.status ≢ running) ⊎ (s.window.expected ≡ length s.written))
  run_delivers n arrivals g =
      summary (run pipe_accepts (new_rx_state n) arrivals)
        (run-IsSound (new_rx_state n) arrivals (new-IsSound n) g)
    where
      summary :
          (s : RxState)
          → IsSound s
          → (stream_of s.written ≡ sent source (length s.written))
            × (s.status ≢ out_of_fuel)
            × ((s.status ≢ running) ⊎ (s.window.expected ≡ length s.written))
      summary s (inl v) = (
        v.delivered.bytes ∙ ap (sent source) (sym v.delivered.count),
        λ e. cc (e, v.alive),
        inr (sym v.delivered.count),
      )
      summary s (inr (why, (n, d))) =
          (d.bytes ∙ ap (sent source) (sym d.count), λ e. ground arith, inl (λ e. ground arith))

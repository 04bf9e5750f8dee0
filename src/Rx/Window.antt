-- ===== src/Rx/Window.antt =====
-- core/stream_rx.go: the invariants of the reorder window.
use smp3_multipath_kit_publi.Base.{
  List, ℕ, Distinct, ◌≡◌, sum_over, Absent, arith, ◌+◌, ◌<◌, ◌≤◌, length, Entries, false, ◌^◌, ◌%◌,
  [], ◌∷◌, refl, true, none, lookup, Absent→lookup-none, lookup-none→Absent, some, insert_new,
  lookup-insert, Option-cases, add64, delete, Option, insert, sum_over-delete, length-delete-le,
  sub64, Distinct-delete, Entries-lookup, Entries-delete, Absent-delete_self, ◌∙◌, inr, ap, inl,
  is_some,
}
use smp3_multipath_kit_publi.Rx.{
  StreamRxFrame, StreamRxWindow, Outcome, accepted, reorder_limit, ready, buffered, duplicate,
  buffered_duplicate, new_stream_rx_window, refresh_gap, retain, insert_frame, advance,
  commit_ready, pop_contiguous, List, ℕ,
}

abbrev pub payload_bytes : List (ℕ × StreamRxFrame) → ℕ
payload_bytes = sum_over (λ f. length f.payload)

-- A retained frame stands under its own sequence, at `floor` or above, and is the sender's.
abbrev pub Retained : (ℕ → List ℕ) → ℕ → ℕ → StreamRxFrame → Type 0
Retained source floor k f =
    (f.sequence ≡ k) × (floor ≤ k) × (k + 1 < 2 ^ 64) × (f.payload ≡ source k)

-- What holds of a window whose frames are those of one sender: `source n` is the payload that the
-- sender gave the sequence n. All retained frames stand at `floor` or above.
pub record IsWindow (source : ℕ → List ℕ) (floor : ℕ) (w : StreamRxWindow) : Type 0 where
  pub distinct : Distinct w.pending
  pub retained : Entries (Retained source floor) w.pending
  pub bounded : length w.pending ≤ w.max_reorder_frames
  pub counted : w.pending_bytes ≡ payload_bytes w.pending % 2 ^ 64
  pub in_range : w.expected < 2 ^ 64

abbrev pub IsFrameOf : (ℕ → List ℕ) → StreamRxFrame → Type 0
IsFrameOf source f = (f.sequence + 1 < 2 ^ 64) × (f.payload ≡ source f.sequence)

-- Between two arrivals no frame is being delivered, and the frontier's frame is missing.
pub record IsIdle (source : ℕ → List ℕ) (w : StreamRxWindow) : Type 0 where
  pub window : IsWindow source (w.expected + 1) w
  pub idle : w.ready_pending ≡ false

-- While the frame of the frontier is being delivered.
pub record IsReady (source : ℕ → List ℕ) (w : StreamRxWindow) : Type 0 where
  pub window : IsWindow source (w.expected + 1) w
  pub busy : w.ready_pending ≡ true
  pub next_fits : w.expected + 1 < 2 ^ 64

pub new-IsIdle : (source : ℕ → List ℕ) (n : ℕ) → IsIdle source (new_stream_rx_window n)
unfolding new_stream_rx_window
new-IsIdle source n = record {
  window = record {
    distinct = tt;
    retained = tt;
    bounded = omega arith;
    counted = refl;
    in_range = omega arith;
  };
  idle = refl;
}

module _ (source : ℕ → List ℕ) where
  Retained-raise :
      (k : ℕ) (m : List (ℕ × StreamRxFrame))
      → Absent k m
      → Entries (Retained source k) m
      → Entries (Retained source (k + 1)) m
  Retained-raise k [] a h = tt
  Retained-raise k ((i, f) ∷ m) (a, rest) (h, t) = ground (arith, Retained-raise k m rest t)

  pub Retained-below :
      (floor k : ℕ) (m : List (ℕ × StreamRxFrame))
      → k < floor
      → Entries (Retained source floor) m
      → lookup k m ≡ none
  Retained-below floor k m h e = Absent→lookup-none k m (absent m e)
    where
      absent : (m : List (ℕ × StreamRxFrame)) → Entries (Retained source floor) m → Absent k m
      absent [] e = tt
      absent ((i, f) ∷ m) (e, t) = (omega arith, absent m t)

  refresh_gap-IsWindow :
      {floor : ℕ} {w : StreamRxWindow} (now : ℕ)
      → IsWindow source floor w
      → IsWindow source floor (refresh_gap w now)
  unfolding refresh_gap
  refresh_gap-IsWindow now v = ground arith

  -- A future frame that is new and finds room is retained.
  pub retain-IsIdle :
      (w : StreamRxWindow) (f : StreamRxFrame) (now : ℕ)
      → IsIdle source w
      → IsFrameOf source f
      → w.expected < f.sequence
      → lookup f.sequence w.pending ≡ none
      → length w.pending < w.max_reorder_frames
      → IsIdle source (retain w f now)
  unfolding retain refresh_gap
  retain-IsIdle w f now v (fits, same) future new room =
      let head : Retained source (w.expected + 1) f.sequence f = (refl, omega arith, fits, same) in
      let absent = lookup-none→Absent f.sequence w.pending new in
      ground (arith, insert_new f.sequence f w.pending new)

  pub retain_lem :
      (w : StreamRxWindow) (f : StreamRxFrame) (now : ℕ)
      → ((retain w f now).expected ≡ w.expected)
        × ((retain w f now).pending ≡ insert f.sequence f w.pending)
  unfolding retain refresh_gap
  retain_lem w f now = ground arith

  -- The window after `Insert`, by its result.
  abbrev pub Inserted : StreamRxWindow → StreamRxFrame → StreamRxWindow × Outcome → Type 0
  Inserted w f (w', accepted ready) =
      IsReady source w'
      × (f.sequence ≡ w.expected)
      × (w'.expected ≡ w.expected)
      × (w'.pending ≡ w.pending)
  Inserted w f (w', accepted buffered) =
      IsIdle source w' × (w'.expected ≡ w.expected) × (w'.pending ≡ insert f.sequence f w.pending)
  Inserted w f (w', accepted duplicate) = IsIdle source w' × (w' ≡ w) × (f.sequence < w.expected)
  Inserted w f (w', accepted buffered_duplicate) =
      IsIdle source w' × (w' ≡ w) × (is_some (lookup f.sequence w.pending) ≡ true)
  Inserted w f (w', reorder_limit) =
      IsIdle source w' × (w' ≡ w) × (length w.pending ≡ w.max_reorder_frames)

  -- On an idle window, `Insert` of a frame of the sender leaves an idle or a ready window, and its
  -- result tells the truth: a ready frame is the frontier's and nothing else changes; a buffered
  -- frame is retained under its sequence; a duplicate lies below the frontier, a buffered duplicate
  -- has a retained frame of its sequence, and the reorder limit is met only by a full window, all
  -- three without a change.
  pub insert_frame-Inserted :
      (w : StreamRxWindow) (f : StreamRxFrame) (now : ℕ)
      → IsIdle source w
      → IsFrameOf source f
      → Inserted w f (insert_frame w f now)
  unfolding insert_frame
  insert_frame-Inserted w f now v g = ground (
    arith,
    retain-IsIdle w f now v g,
    retain_lem w f now,
    lookup-insert f.sequence f.sequence f w.pending,
    Option-cases (lookup f.sequence w.pending),
  )

  -- `CommitReady` and `PopContiguous`, in the order in which the loop calls them.
  abbrev pub Popped : StreamRxWindow → StreamRxWindow × Option StreamRxFrame → Type 0
  Popped w (w', none) = IsIdle source w' × (w'.expected ≡ w.expected + 1) × (w'.pending ≡ w.pending)
  Popped w (w', some f) =
      IsReady source w'
      × (w'.expected ≡ w.expected + 1)
      × (f.sequence ≡ w'.expected)
      × (f.payload ≡ source w'.expected)
      × (lookup w'.expected w.pending ≡ some f)
      × (w'.pending ≡ delete w'.expected w.pending)

  advance_lem :
      (w : StreamRxWindow) (now : ℕ)
      → ((advance w now).expected ≡ add64 w.expected 1)
        × ((advance w now).pending ≡ w.pending)
        × ((advance w now).pending_bytes ≡ w.pending_bytes)
        × ((advance w now).max_reorder_frames ≡ w.max_reorder_frames)
        × ((advance w now).ready_pending ≡ false)
  unfolding advance refresh_gap
  advance_lem w now = ground arith

  pop-none :
      (w : StreamRxWindow)
      → IsWindow source w.expected w
      → w.ready_pending ≡ false
      → lookup w.expected w.pending ≡ none
      → IsIdle source w
  pop-none w v idle gone = record {
    window = record {
      distinct = v.distinct;
      retained =
          Retained-raise w.expected w.pending (lookup-none→Absent w.expected w.pending gone)
            v.retained;
      bounded = v.bounded;
      counted = v.counted;
      in_range = v.in_range;
    };
    idle = idle;
  }

  abbrev popped : StreamRxWindow → StreamRxFrame → StreamRxWindow
  popped w f = record w {
    pending = delete w.expected w.pending;
    pending_bytes = sub64 w.pending_bytes (length f.payload);
    ready_pending = true;
  }

  pop-some :
      (w : StreamRxWindow) (f : StreamRxFrame)
      → IsWindow source w.expected w
      → lookup w.expected w.pending ≡ some f
      → IsReady source (popped w f) × (f.sequence ≡ w.expected) × (f.payload ≡ source w.expected)
  pop-some w f v found =
      let (key, _, fits, same) =
        Entries-lookup (Retained source w.expected) w.expected w.pending v.retained found in
      let kept = Entries-delete (Retained source w.expected) w.expected w.pending v.retained in
      let window : IsWindow source (w.expected + 1) (popped w f) = record {
        distinct = Distinct-delete w.expected w.pending v.distinct;
        retained =
            Retained-raise w.expected (delete w.expected w.pending)
              (Absent-delete_self w.expected w.pending) kept;
        bounded = omega (arith, v.bounded, length-delete-le w.expected w.pending);
        counted = omega (
          arith,
          v.counted,
          sum_over-delete (λ (g : StreamRxFrame). length g.payload) w.expected w.pending v.distinct
              found,
        );
        in_range = v.in_range;
      } in
      (record { window = window; busy = refl; next_fits = fits }, key, same)

  committed-IsWindow :
      (w : StreamRxWindow) (now : ℕ)
      → IsReady source w
      → IsWindow source (advance w now).expected (advance w now)
        × ((advance w now).expected ≡ w.expected + 1)
  committed-IsWindow w now v =
      let (to, same, bytes, cap, _) = advance_lem w now in
      let next : (advance w now).expected ≡ w.expected + 1 = to ∙ omega (arith, v.next_fits) in
      (
        record {
          distinct = rw same v.window.distinct;
          retained = rw (next, same) v.window.retained;
          bounded = rw (same, cap) v.window.bounded;
          counted = rw (same, bytes) v.window.counted;
          in_range = rw next v.next_fits;
        },
        next,
      )

  pop-Popped :
      (w v : StreamRxWindow)
      → v.ready_pending ≡ false
      → IsWindow source v.expected v
      → v.expected ≡ w.expected + 1
      → v.pending ≡ w.pending
      → Popped w (pop_contiguous v)
  unfolding pop_contiguous
  pop-Popped w v idle h next same = elim (Option-cases (lookup v.expected v.pending)) [
    | inl gone ↦ rw (idle, gone, pop_contiguous) (pop-none v h idle gone, next, same)
    | inr (f, found) ↦
        let (busy, key, payload) = pop-some v f h found in
        rw (idle, found, pop_contiguous)
          (busy, next, key, payload, rw same at found, ap (delete v.expected) same)
  ]

  -- On a ready window, `CommitReady` and then `PopContiguous` move the frontier to the next sequence:
  -- either its frame was retained, and is handed over with the sender's payload and no longer
  -- retained, or none is handed over, nothing leaves the retained frames and the window is idle.
  pub commit-pop :
      (w : StreamRxWindow) (now : ℕ)
      → IsReady source w
      → Popped w (pop_contiguous (commit_ready w now))
  unfolding commit_ready
  commit-pop w now v =
      let (_, same, _, _, idle) = advance_lem w now in
      let (h, next) = committed-IsWindow w now v in
      simp v.busy (pop-Popped w (advance w now) idle h next same)

-- ===== src/Rx.antt =====
-- core/stream_rx.go: the reorder window of a stream. Payload ownership is not modelled: a payload is
-- a value. An instant is its nanoseconds since the zero time.Time, which is 0.
pub mod Loop
pub mod Window
use smp3_multipath_kit_publi.Base.{
  ℕ, Bool, true, false, ◌||◌, Option, none, some, List, [], map, ltb, leb, ◌==◌, ◌!=◌,
  if◌then◌else◌, length, add64, sub64, is_some, lookup, delete, insert, sum_over,
}

pub record StreamRxFrame : Type 0 where
  pub sequence : ℕ  -- uint64
  pub leg : ℕ  -- uint8
  pub payload : List ℕ

pub data StreamRxDisposition : Type 0 where
  ready buffered duplicate buffered_duplicate : StreamRxDisposition

-- Insert's results: a disposition, or ErrStreamRXReorderLimit.
pub data Outcome : Type 0 where
  accepted : StreamRxDisposition → Outcome
  reorder_limit : Outcome

pub record StreamRxWindow : Type 0 where
  pub expected : ℕ  -- uint64
  pub pending : List (ℕ × StreamRxFrame)
  pub pending_bytes : ℕ  -- uint64
  pub gap_expected : ℕ  -- uint64
  pub gap_since : ℕ
  pub max_reorder_frames : ℕ
  pub ready_pending : Bool

pub new_stream_rx_window : ℕ → StreamRxWindow
new_stream_rx_window max_reorder_frames = record {
  expected = 0;
  pending = [];
  pending_bytes = 0;
  gap_expected = 0;
  gap_since = 0;
  max_reorder_frames = max_reorder_frames;
  ready_pending = false;
}

pub refresh_gap : StreamRxWindow → ℕ → StreamRxWindow
refresh_gap w now =
    if length w.pending == 0
    then record w { gap_expected = w.expected; gap_since = 0 }
    else if w.gap_expected != w.expected || w.gap_since == 0
    then record w { gap_expected = w.expected; gap_since = now }
    else w

-- `Insert` of a future frame that is not retained yet, with room for it.
pub retain : StreamRxWindow → StreamRxFrame → ℕ → StreamRxWindow
unfolding refresh_gap
retain w frame now =
    refresh_gap
      (record w {
        pending = insert frame.sequence frame w.pending;
        pending_bytes = add64 w.pending_bytes (length frame.payload);
      })
      now

pub insert_frame : StreamRxWindow → StreamRxFrame → ℕ → StreamRxWindow × Outcome
insert_frame w frame now =
    if ltb frame.sequence w.expected
    then (w, accepted duplicate)
    else if frame.sequence == w.expected
    then (record w { ready_pending = true }, accepted ready)
    else if is_some (lookup frame.sequence w.pending)
    then (w, accepted buffered_duplicate)
    else if leb w.max_reorder_frames (length w.pending)
    then (w, reorder_limit)
    else (retain w frame now, accepted buffered)

-- `CommitReady` when a frame is ready: the frontier moves on.
pub advance : StreamRxWindow → ℕ → StreamRxWindow
unfolding refresh_gap
advance w now =
    let w' = record w { ready_pending = false; expected = add64 w.expected 1 } in
    if is_some (lookup (add64 w.expected 1) w.pending) then w' else refresh_gap w' now

pub commit_ready : StreamRxWindow → ℕ → StreamRxWindow
commit_ready w now = if w.ready_pending then advance w now else w

-- The window after the call, with the frame that is handed over.
pub pop_contiguous : StreamRxWindow → StreamRxWindow × Option StreamRxFrame
pop_contiguous w = if w.ready_pending then (w, none) else elim (lookup w.expected w.pending) [
  | none ↦ (w, none)
  | some frame ↦ (
    record w {
      pending = delete w.expected w.pending;
      pending_bytes = sub64 w.pending_bytes (length frame.payload);
      ready_pending = true;
    },
    some frame,
  )
]

-- The retained frames, in some order, and the empty window.
pub drain_pending : StreamRxWindow → StreamRxWindow × List StreamRxFrame
drain_pending w = (
  record w {
    pending = [];
    pending_bytes = 0;
    gap_expected = w.expected;
    gap_since = 0;
    ready_pending = false;
  },
  map (λ e. e.1) w.pending,
)

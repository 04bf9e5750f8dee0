-- ===== src/Tx/Ack.antt =====
-- core/stream_tx.go, ApplyACK: retiring the records that a cumulative ACK covers.
pub mod Retire
pub mod Frontier
pub mod Effect
use smp3_multipath_kit_publi.Base.{
  ◌∷◌, zero, add64, ◌!=◌, pos, [], ◌+◌, suc, lookup, List, delete, ◌-◌, ℤ, is_some, set, not, ℕ,
  ltb, leb, get_or, none, false, ◌*◌, ◌&&◌, some, ◌==◌, length, Bool, if◌then◌else◌, Option, ◌||◌,
  drop,
}
use smp3_multipath_kit_publi.Tx.{StreamTxRecord, StreamTxLedger, store, ensure}
use smp3_multipath_kit_publi.Tx.Legs.{release_owner}

pub data StreamTxAckDisposition : Type 0 where
  no_progress advanced future : StreamTxAckDisposition

-- StreamTXACKLegResult
pub record AckLegResult : Type 0 where
  pub acked_bytes : ℕ
  pub unique_timely : ℕ
  pub unique_generation : ℕ
  pub unique_ordered : ℕ
  pub unique_bytes : ℕ
  pub feedback_min : ℕ
  pub feedback_max : ℕ
  pub before_ordinary_frames : ℤ
  pub before_ordinary_bytes : ℕ
  pub rejected_duplicate : ℕ  -- ProofRejected[0]
  pub rejected_unwritten : ℕ  -- ProofRejected[1]
  pub rejected_late : ℕ  -- ProofRejected[2]
  pub sample_bytes : ℕ
  pub sample_assigned_min : ℕ

-- StreamTXACKResult, without the two-entry mirrors of its per-leg results.
pub record StreamTxAckResult : Type 0 where
  pub disposition : StreamTxAckDisposition
  pub next : ℕ
  pub max_next : ℕ
  pub future_count : ℕ
  pub released : ℕ
  pub retired_bytes : ℕ
  pub acked_next : ℕ
  pub last_ack_progress : ℕ
  pub per_leg : List AckLegResult

-- 700 ms (core/stream_admission.go).
abbrev pub stream_proof_budget : ℕ
stream_proof_budget = 700 * 1000000

abbrev pub blank_leg : ℤ → ℕ → AckLegResult
blank_leg frames bytes = record {
  acked_bytes = 0;
  unique_timely = 0;
  unique_generation = 0;
  unique_ordered = 0;
  unique_bytes = 0;
  feedback_min = 0;
  feedback_max = 0;
  before_ordinary_frames = frames;
  before_ordinary_bytes = bytes;
  rejected_duplicate = 0;
  rejected_unwritten = 0;
  rejected_late = 0;
  sample_bytes = 0;
  sample_assigned_min = 0;
}

-- The per-leg rows at the start: the counts before the ACK.
pub before_rows : ℕ → List ℤ → List ℕ → List AckLegResult
before_rows zero frames bytes = []
before_rows (suc n) frames bytes =
    blank_leg (get_or frames 0 (pos 0)) (get_or bytes 0 0)
    ∷ before_rows n (drop 1 frames) (drop 1 bytes)

-- The leg that the bytes of a retired record are credited to.
pub credited_leg : StreamTxRecord → Option ℕ
credited_leg r = elim r.last_sent_leg [
  | some leg ↦ some leg
  | none ↦ if r.in_transit then some r.transit_leg else r.ordinary_owner
]

abbrev at_row : List AckLegResult → ℕ → (AckLegResult → AckLegResult) → List AckLegResult
at_row rows id f = set rows id (f (get_or rows id (blank_leg (pos 0) 0)))

-- The bytes, and the sample of an attempt that nothing makes ambiguous.
pub credit_bytes : StreamTxRecord → AckLegResult → AckLegResult
credit_bytes r row =
    let size = length r.payload in
    let clean = is_some r.ordinary_owner && not r.duplicated && r.first_write_at != 0 in
    let older =
      r.assigned_at != 0
      && (row.sample_assigned_min == 0 || ltb r.assigned_at row.sample_assigned_min) in
    record row {
      acked_bytes = add64 row.acked_bytes size;
      sample_bytes = if clean then add64 row.sample_bytes size else row.sample_bytes;
      sample_assigned_min = if clean && older then r.assigned_at else row.sample_assigned_min;
    }

-- Whether the record `r` was held up by a clean frontier record of another owner.
abbrev behind_other : Option StreamTxRecord → StreamTxRecord → ℕ → Bool
behind_other none r id = false
behind_other (some head) r id =
    head.sequence != r.sequence
    && not (elim head.ordinary_owner [ none ↦ false | some o ↦ o == id ])
    && not head.duplicated
    && head.first_write_at != 0

-- The owner's proof of service. A difference of instants is truncated at 0: the tests read a
-- negative one as they read 0.
pub credit_proof : Option StreamTxRecord → ℕ → StreamTxRecord → ℕ → AckLegResult → AckLegResult
credit_proof head now r id row =
    let started : ℕ = elim r.probe_write_started_at [ none ↦ r.first_write_at | some at ↦ at ] in
    let age = now - started in
    let on_time = leb age stream_proof_budget in
    let ordered =
      (r.frontier_at != 0 && leb (now - r.frontier_at) stream_proof_budget)
      || behind_other head r id in
    if r.duplicated || ltb 1 r.send_count
    then record row { rejected_duplicate = row.rejected_duplicate + 1 }
    else if r.first_write_at == 0
    then record row { rejected_unwritten = row.rejected_unwritten + 1 }
    else record row {
      unique_generation = r.origin_generation;
      feedback_max = if ltb row.feedback_max age then age else row.feedback_max;
      feedback_min =
          if ltb 0 age && (row.feedback_min == 0 || ltb age row.feedback_min)
          then age
          else row.feedback_min;
      unique_timely = if started != 0 && on_time then row.unique_timely + 1 else row.unique_timely;
      unique_ordered =
          if not (started != 0 && on_time) && ordered
          then row.unique_ordered + 1
          else row.unique_ordered;
      rejected_late =
          if not (started != 0 && on_time) && not ordered
          then row.rejected_late + 1
          else row.rejected_late;
      unique_bytes =
          if r.assigned_at != 0 && (on_time || ordered)
          then add64 row.unique_bytes (length r.payload)
          else row.unique_bytes;
    }

-- The rows after a record has been credited to the leg that carried it and to its owner.
pub credit_rows :
    Option StreamTxRecord → ℕ → StreamTxRecord → ℕ → List AckLegResult → List AckLegResult
unfolding credited_leg credit_bytes credit_proof
credit_rows head now r legs rows =
    let carried : List AckLegResult = elim (credited_leg r) [
      | none ↦ rows
      | some leg ↦ at_row rows leg (credit_bytes r)
    ] in
    elim r.ordinary_owner [
      | none ↦ carried
      | some id ↦ if ltb id legs then at_row carried id (credit_proof head now r id) else carried
    ]

-- The body of the loop for a record that exists.
pub retire :
    Option StreamTxRecord
    → ℕ
    → StreamTxRecord
    → StreamTxLedger × StreamTxAckResult
    → StreamTxLedger × StreamTxAckResult
retire head now r (l, result) =
    let l' = record l { outstanding = delete r.sequence l.outstanding } in
    (
      elim r.ordinary_owner [
        | none ↦ l'
        | some id ↦ if ltb id (length l.ordinary_frames) then release_owner l' id r else l'
      ],
      record result {
        released = result.released + 1;
        retired_bytes = add64 result.retired_bytes (length r.payload);
        per_leg = credit_rows head now r (length l.ordinary_frames) result.per_leg;
      },
    )

-- for sequence := ackedNext; sequence < next; sequence++, as a count of the rounds left.
pub retire_range :
    ℕ
    → ℕ
    → Option StreamTxRecord
    → ℕ
    → StreamTxLedger × StreamTxAckResult
    → StreamTxLedger × StreamTxAckResult
retire_range zero sequence head now s = s
retire_range (suc rounds) sequence head now s =
    retire_range rounds (sequence + 1) head now
      (elim (lookup sequence s.0.outstanding) [ none ↦ s | some r ↦ retire head now r s ])

-- The record at the new frontier is exposed from now on.
pub expose_frontier : StreamTxLedger → ℕ → ℕ → StreamTxLedger
expose_frontier l next now = elim (lookup next l.outstanding) [
  | none ↦ l
  | some r ↦ if r.frontier_at == 0 then store l (record r { frontier_at = now }) else l
]

abbrev pub initial_result : StreamTxLedger → ℕ → StreamTxAckDisposition → ℕ → StreamTxAckResult
initial_result l next disposition future_count = record {
  disposition = disposition;
  next = next;
  max_next = l.next_sequence;
  future_count = future_count;
  released = 0;
  retired_bytes = 0;
  acked_next = l.acked_next;
  last_ack_progress = l.last_ack_progress;
  per_leg = [];
}

-- The tail of the method, behind the loop.
pub finish_ack : StreamTxLedger → StreamTxAckResult → ℕ → ℕ → StreamTxLedger × StreamTxAckResult
unfolding expose_frontier
finish_ack l result next now =
    let progress = ltb 0 result.released in
    let exposed = expose_frontier (record l { acked_next = next }) next now in
    (
      record exposed { last_ack_progress = if progress then now else exposed.last_ack_progress },
      record result {
        acked_next = next;
        last_ack_progress = if progress then now else result.last_ack_progress;
      },
    )

pub advance_ack : StreamTxLedger → ℕ → ℕ → StreamTxLedger × StreamTxAckResult
advance_ack l next now =
    let start = record (initial_result l next advanced 0) {
      per_leg = before_rows l.max_legs l.ordinary_frames l.ordinary_bytes;
    } in
    let (l', result) =
      retire_range (next - l.acked_next) l.acked_next (lookup l.acked_next l.outstanding) now
        (l, start) in
    finish_ack l' result next now

pub apply_ack : StreamTxLedger → ℕ → ℕ → StreamTxLedger × StreamTxAckResult
apply_ack l₀ next now =
    let l = ensure l₀ in
    if ltb l.next_sequence next
    then (
      record l { future_ack_count = add64 l.future_ack_count 1 },
      initial_result l next future (add64 l.future_ack_count 1),
    )
    else if leb next l.acked_next
    then (l, initial_result l next no_progress 0)
    else advance_ack l next now

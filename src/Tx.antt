-- ===== src/Tx.antt =====
-- core/stream_tx.go: the ledger of sent frames. A *StreamTXRecord is a handle: nil, or the sequence
-- that `Add` gave the record. Sequences are not given twice before 2^64 frames, so the test
-- `l.outstanding[record.sequence] == record` is whether the map has the sequence. The mutex makes
-- each method one step. Left out: the trace hook, the evidence ring and the
-- record's trace and benchmark fields, which are off in operation.
pub mod Attempts
pub mod Ack
pub mod Legs
pub mod Invariant
pub mod Run
pub mod Repair
pub mod Frontier
pub mod Examples
use smp3_multipath_kit_publi.Base.{
  leb, ◌||◌, true, [], ◌^◌, pos, Bool, ◌&&◌, ℤ, ◌++◌, ltb, if◌then◌else◌, add64, sum_over, List,
  none, ℕ, false, insert, Option, replicate, ◌+◌, ◌==◌, lookup, ◌-◌, some, is_some, ◌%◌, length,
}

pub record StreamTxRecord : Type 0 where
  pub sequence : ℕ  -- uint64
  pub payload : List ℕ
  pub created_at : ℕ
  pub last_sent_at : ℕ
  pub last_sent_leg : Option ℕ  -- int16, -1 for none
  pub last_sent_attempt_at : ℕ
  pub in_transit : Bool
  pub transit_leg : ℕ
  pub transit_since : ℕ
  pub rescue_in_transit : Bool
  pub rescue_leg : ℕ
  pub rescue_since : ℕ
  pub last_rescue_at : ℕ
  pub send_count : ℕ  -- uint32
  pub ordinary_owner : Option ℕ  -- int16, -1 for none
  pub ordinary_admitted : Bool
  pub assigned_at : ℕ
  pub first_write_at : ℕ
  pub frontier_at : ℕ
  pub origin_generation : ℕ
  pub origin_epoch : ℤ  -- int64, nanoseconds
  pub probe_write_started_at : Option ℕ  -- recoveryProbeWriteStartedAt
  pub invalidated : Bool
  pub duplicated : Bool
  pub local_enqueue : Bool

pub record StreamTxLedger : Type 0 where
  pub next_sequence : ℕ  -- uint64
  pub acked_next : ℕ  -- uint64
  pub outstanding : List (ℕ × StreamTxRecord)
  pub future_ack_count : ℕ  -- uint64
  pub last_ack_progress : ℕ
  pub max_legs : ℕ
  pub ordinary_frames : List ℤ  -- []int
  pub ordinary_bytes : List ℕ  -- []uint64
  pub pending_bytes : List ℕ  -- []uint64

abbrev pub max_stream_leg_id_count : ℕ
max_stream_leg_id_count = 256

-- newStreamTXLedger
pub new_ledger : ℕ → StreamTxLedger
new_ledger max_legs =
    let at_least = if ltb max_legs 1 then 2 else max_legs in
    let legs = if ltb max_stream_leg_id_count at_least then max_stream_leg_id_count else at_least in
    record {
      next_sequence = 0;
      acked_next = 0;
      outstanding = [];
      future_ack_count = 0;
      last_ack_progress = 0;
      max_legs = legs;
      ordinary_frames = replicate legs (pos 0);
      ordinary_bytes = replicate legs 0;
      pending_bytes = replicate legs 0;
    }

-- append(xs, make([]T, n-len(xs))...)
abbrev pub grow {ℓ} : {A : Type ℓ} → A → ℕ → List A → List A
grow zero_value n xs = xs ++ replicate (n - length xs) zero_value

abbrev pub grow_legs : ℕ → StreamTxLedger → StreamTxLedger
grow_legs n l = record l {
  ordinary_frames = grow (pos 0) n l.ordinary_frames;
  ordinary_bytes = grow 0 n l.ordinary_bytes;
  pending_bytes = grow 0 n l.pending_bytes;
}

unfoldable pub ensure : StreamTxLedger → StreamTxLedger
ensure l =
    let l' = if ltb l.max_legs 2 then record l { max_legs = 2 } else l in
    if ltb (length l'.ordinary_frames) l'.max_legs then grow_legs l'.max_legs l' else l'

-- ensureLegLocked: the ledger after it, and its result.
unfoldable pub ensure_leg : StreamTxLedger → ℕ → StreamTxLedger × Bool
unfolding ensure
ensure_leg l₀ id =
    let l = ensure l₀ in
    if leb max_stream_leg_id_count id
    then (l, false)
    else if leb (id + 1) l.max_legs
    then (l, true)
    else (
      record (if ltb (length l.ordinary_frames) (id + 1) then grow_legs (id + 1) l else l) {
        max_legs = id + 1;
      },
      true,
    )

-- add, with the handle of the record.
unfoldable pub add : StreamTxLedger → List ℕ → ℕ → Bool → StreamTxLedger × ℕ
unfolding ensure
add l₀ payload now local_enqueue =
    let l = ensure l₀ in
    (
      record l {
        next_sequence = add64 l.next_sequence 1;
        outstanding =
            insert l.next_sequence
              (record {
                sequence = l.next_sequence;
                payload = payload;
                created_at = now;
                last_sent_at = 0;
                last_sent_leg = none;
                last_sent_attempt_at = 0;
                in_transit = false;
                transit_leg = 0;
                transit_since = 0;
                rescue_in_transit = false;
                rescue_leg = 0;
                rescue_since = 0;
                last_rescue_at = 0;
                send_count = 0;
                ordinary_owner = none;
                ordinary_admitted = false;
                assigned_at = 0;
                first_write_at = 0;
                frontier_at = if l.next_sequence == l.acked_next then now else 0;
                origin_generation = 0;
                origin_epoch = pos 0;
                probe_write_started_at = none;
                invalidated = false;
                duplicated = false;
                local_enqueue = local_enqueue;
              })
              l.outstanding;
      },
      l.next_sequence,
    )

-- The record of a handle, when it is outstanding.
pub find : StreamTxLedger → Option ℕ → Option StreamTxRecord
find l none = none
find l (some sequence) = lookup sequence l.outstanding

abbrev pub is_outstanding : StreamTxLedger → Option ℕ → Bool
is_outstanding l handle = is_some (find l handle)

-- The ledger with the outstanding record `r` in its new state.
pub store : StreamTxLedger → StreamTxRecord → StreamTxLedger
store l r = record l { outstanding = insert r.sequence r l.outstanding }

-- `int16(id) == x` for an x that is -1 or a leg.
abbrev pub is_leg : Option ℕ → ℕ → Bool
is_leg none id = false
is_leg (some x) id = x == id

-- Whether the record still depends on the leg.
pub depends_on : ℕ → StreamTxRecord → Bool
depends_on id r =
    is_leg r.ordinary_owner id
    || is_leg r.last_sent_leg id
    || (r.in_transit && r.transit_leg == id)
    || (r.rescue_in_transit && r.rescue_leg == id)

pub outstanding_for_leg : StreamTxLedger → ℕ → ℕ
unfolding depends_on
outstanding_for_leg l id = sum_over (λ r. if depends_on id r then 1 else 0) l.outstanding

pub outstanding_bytes_for_leg : StreamTxLedger → ℕ → ℕ
unfolding depends_on
outstanding_bytes_for_leg l id =
    sum_over (λ r. if depends_on id r then length r.payload else 0) l.outstanding % 2 ^ 64

-- ===== src/Tx/Frontier.antt =====
-- core/stream_tx.go and core/stream_repair.go: what the rescue of the frontier reads off the ledger,
-- and what it decides. An instant that is not known is 0.
pub mod Decide
pub mod Probe
pub mod Examples
use smp3_multipath_kit_publi.Base.{
  ◌&&◌, not, ◌+◌, ◌||◌, add64, if◌then◌else◌, List, is_some, [], ◌∷◌, leb, Bool, lookup, some,
  Option, ltb, zero, false, ◌!=◌, none, suc, ℕ, length, ◌==◌,
}
use smp3_multipath_kit_publi.Tx.{StreamTxRecord, StreamTxLedger, find}
use smp3_multipath_kit_publi.Tx.Repair.{has_leg, count_live}

-- The later of two instants.
abbrev pub later : ℕ → ℕ → ℕ
later reference candidate = if ltb reference candidate then candidate else reference

-- StreamTXFrontierCandidate; the zero value for a ledger without a frontier record.
pub record FrontierCandidate : Type 0 where
  pub frontier : Option StreamTxRecord
  pub owner : Option ℕ
  pub reference : ℕ
  pub overdue : Bool
  pub rescue_in_transit : Bool

-- frontierSnapshot's owner and reference time
abbrev pub frontier_owner : StreamTxRecord → Option ℕ
frontier_owner r =
    if r.in_transit
    then some r.transit_leg
    else elim r.last_sent_leg [ none ↦ r.ordinary_owner | some leg ↦ some leg ]

abbrev pub frontier_reference : StreamTxRecord → ℕ
frontier_reference r =
    later (later (later r.created_at r.transit_since) r.last_sent_at) r.last_rescue_at

-- FrontierCandidate, on the result of frontierSnapshot.
pub frontier_candidate : StreamTxLedger → ℕ → ℕ → FrontierCandidate
frontier_candidate l now timeout = elim (lookup l.acked_next l.outstanding) [
  | none ↦ record {
    frontier = none;
    owner = none;
    reference = 0;
    overdue = false;
    rescue_in_transit = false;
  }
  | some r ↦ record {
    frontier = some r;
    owner = frontier_owner r;
    reference = frontier_reference r;
    overdue = frontier_reference r != 0 && leb (frontier_reference r + timeout) now;
    rescue_in_transit = r.rescue_in_transit;
  }
]

-- StreamTXFrontierPlan: a rescue of the record that avoids a leg, or none.
pub data FrontierPlan : Type 0 where
  no_repair : FrontierPlan
  rescue : Option StreamTxRecord → Option ℕ → FrontierPlan

-- The first live leg.
abbrev pub first_live : List Bool → Option ℕ
first_live [] = none
first_live (present ∷ live) =
    if present then some 0 else elim (first_live live) [ none ↦ none | some id ↦ some (suc id) ]

-- int16(id) - 1
abbrev pub leg_before : ℕ → Option ℕ
leg_before zero = none
leg_before (suc id) = some id

-- DecideStreamTXFrontierRepair
pub decide_frontier_repair : FrontierCandidate → List Bool → FrontierPlan
decide_frontier_repair c live =
    if not (is_some c.frontier) || c.rescue_in_transit || not c.overdue
    then no_repair
    else if count_live live == 0
    then no_repair
    else elim (if count_live live == 1 then first_live live else none) [
      | some id ↦ rescue c.frontier (leg_before id)
      | none ↦ elim c.owner [
        | none ↦ no_repair
        | some owner ↦ if has_leg live owner then rescue c.frontier (some owner) else no_repair
      ]
    ]

-- The reference of an outstanding record.
abbrev pub used_reference : Bool → StreamTxRecord → ℕ
used_reference recovering r = elim (if recovering then r.probe_write_started_at else none) [
  | some started ↦ started
  | none ↦
      let ref = if recovering then r.frontier_at else r.created_at in
      later (if ref == 0 then r.created_at else ref) r.first_write_at
]

pub probe_reference : StreamTxLedger → Option ℕ → Bool → ℕ
probe_reference l handle recovering = elim (find l handle) [
  | none ↦ 0
  | some r ↦ used_reference recovering r
]

-- The ReferenceAt of probeReferenceSnapshot, computed as that method computes it.
abbrev pub reported_reference : Bool → StreamTxRecord → ℕ
reported_reference recovering r =
    let started = if recovering then r.probe_write_started_at else none in
    let ref : ℕ = elim started [
      | none ↦ if recovering then r.frontier_at else r.created_at
      | some at ↦ at
    ] in
    let ref' = if ref == 0 then r.created_at else ref in
    if is_some started then ref' else later ref' r.first_write_at

pub probe_reference_snapshot : StreamTxLedger → Option ℕ → Bool → ℕ
probe_reference_snapshot l handle recovering = elim (find l handle) [
  | none ↦ 0
  | some r ↦ reported_reference recovering r
]

-- The accumulators of sentTailStalled's loop.
pub record SentTail : Type 0 where
  pub bytes : ℕ  -- uint64
  pub repeated : Bool
  pub old : ℕ

pub sent_tail : List (ℕ × StreamTxRecord) → SentTail → SentTail
sent_tail [] t = t
sent_tail ((k, r) ∷ m) t = sent_tail m (
    if r.first_write_at == 0 then t else record {
      bytes = add64 t.bytes (length r.payload);
      repeated = t.repeated || leb 2 r.send_count;
      old = if t.old == 0 || ltb r.first_write_at t.old then r.first_write_at else t.old;
    })

pub sent_tail_stalled : StreamTxLedger → ℕ → ℕ → ℕ → Bool
unfolding sent_tail
sent_tail_stalled l now required min_bytes =
    let t = sent_tail l.outstanding (record { bytes = 0; repeated = false; old = 0 }) in
    (leb min_bytes t.bytes || t.repeated)
    && t.old != 0
    && leb (t.old + required) now
    && (l.last_ack_progress == 0 || leb (l.last_ack_progress + required) now)

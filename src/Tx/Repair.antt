-- ===== src/Tx/Repair.antt =====
-- core/stream_repair.go: which records are sent again, and on which leg not. A mask of live legs is a
-- list of 256 Booleans, an int16 that may be -1 an optional leg.
pub mod Sorted
pub mod Retries
pub mod Batch
pub mod Examples
use smp3_multipath_kit_publi.Base.{
  false, ℕ, lookup, ◌||◌, ltb, if◌then◌else◌, [], true, length, Option, ◌∷◌, some, get_or, Bool,
  ◌&&◌, none, take, ◌!=◌, ◌+◌, List, suc, not,
}
use smp3_multipath_kit_publi.Tx.{StreamTxRecord, StreamTxLedger, find, is_leg}

-- Has
abbrev pub has_leg : List Bool → ℕ → Bool
has_leg live id = get_or live id false

-- Count
abbrev pub count_live : List Bool → ℕ
count_live [] = 0
count_live (present ∷ live) = if present then suc (count_live live) else count_live live

pub record RetryCandidate : Type 0 where
  pub candidate : StreamTxRecord
  pub avoid : Option ℕ

-- The tests of PlanRetries on one state of retrySnapshot.
abbrev pub retry_state : List Bool → StreamTxRecord → Option RetryCandidate
retry_state live r =
    if r.local_enqueue || r.in_transit || r.rescue_in_transit then none else elim r.last_sent_leg [
      | none ↦ some (record { candidate = r; avoid = none })
      | some leg ↦
          if has_leg live leg then none else some (record { candidate = r; avoid = some leg })
    ]

pub retry_candidates : List Bool → List (ℕ × StreamTxRecord) → List RetryCandidate
retry_candidates live [] = []
retry_candidates live ((k, r) ∷ m) =
    let rest = retry_candidates live m in
    elim (retry_state live r) [ none ↦ rest | some c ↦ c ∷ rest ]

-- sort.Slice by the record's sequence
pub insert_candidate : RetryCandidate → List RetryCandidate → List RetryCandidate
insert_candidate c [] = c ∷ []
insert_candidate c (d ∷ ds) =
    let rest = insert_candidate c ds in
    if ltb d.candidate.sequence c.candidate.sequence then d ∷ rest else c ∷ d ∷ ds

pub sort_candidates : List RetryCandidate → List RetryCandidate
sort_candidates [] = []
sort_candidates (c ∷ cs) = insert_candidate c (sort_candidates cs)

pub plan_retries : StreamTxLedger → List Bool → List RetryCandidate
unfolding retry_candidates sort_candidates
plan_retries l live = sort_candidates (retry_candidates live l.outstanding)

-- The records that RestrictedFrontierBatch passes over.
abbrev pub outside_batch : ℕ → ℕ → ℕ → ℕ → StreamTxRecord → Bool
outside_batch owner now cutoff cooldown r =
    not (is_leg r.ordinary_owner owner)
    || ltb cutoff r.created_at
    || r.rescue_in_transit
    || (r.last_rescue_at != 0 && ltb now (r.last_rescue_at + cooldown))

pub insert_sequence : StreamTxRecord → List StreamTxRecord → List StreamTxRecord
insert_sequence r [] = r ∷ []
insert_sequence r (x ∷ xs) =
    let rest = insert_sequence r xs in if ltb x.sequence r.sequence then x ∷ rest else r ∷ x ∷ xs

-- The 8 first records by sequence: a full prefix loses its last one.
pub batch_prefix :
    (StreamTxRecord → Bool) → List StreamTxRecord → List (ℕ × StreamTxRecord) → List StreamTxRecord
unfolding insert_sequence
batch_prefix skip prefix [] = prefix
batch_prefix skip prefix ((k, r) ∷ m) =
    batch_prefix skip (if skip r then prefix else take 8 (insert_sequence r prefix)) m

-- The first record, and those that the byte budget has room for.
pub within_budget : ℕ → Bool → ℕ → List StreamTxRecord → List StreamTxRecord
within_budget budget first bytes [] = []
within_budget budget first bytes (r ∷ rs) =
    let size = length r.payload in
    let rest = within_budget budget false (bytes + size) rs in
    if not first && ltb budget (bytes + size) then [] else r ∷ rest

pub restricted_frontier_batch : StreamTxLedger → Option ℕ → ℕ → ℕ → ℕ → ℕ → ℕ → List StreamTxRecord
unfolding batch_prefix within_budget
restricted_frontier_batch l frontier owner now cutoff cooldown byte_budget =
    elim (lookup l.acked_next l.outstanding) [
      | none ↦ []
      | some r ↦
          if is_leg frontier l.acked_next && is_leg r.ordinary_owner owner
          then within_budget byte_budget true 0
              (batch_prefix (outside_batch owner now cutoff cooldown) [] l.outstanding)
          else []
    ]

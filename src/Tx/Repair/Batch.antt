-- ===== src/Tx/Repair/Batch.antt =====
-- core/stream_repair.go, RestrictedFrontierBatch: the bounds of a batch.
use smp3_multipath_kit_publi.Tx.Invariant.{IsEntry, IsSound}
use smp3_multipath_kit_publi.Tx.{StreamTxRecord, StreamTxLedger, is_leg}
use smp3_multipath_kit_publi.Base.{
  ◌&&◌, ◌≤◌, arith, ℕ, Bool, false, zero, lookup, inr, [], inl, ◌⊎◌, before, List, ◌∷◌, Bool-cases,
  length, ◌+◌, suc, refl, not, take, some, ltb, Entries, ◌≡◌, All, ap, true, Absent→lookup-none,
  Option, Entries-weaken, Absent, Option-cases, Distinct, none,
}
use smp3_multipath_kit_publi.Tx.Repair.{
  batch_prefix, insert_sequence, within_budget, restricted_frontier_batch, outside_batch,
}

abbrev pub bytes_of : List StreamTxRecord → ℕ
bytes_of [] = 0
bytes_of (r ∷ rs) = length r.payload + bytes_of rs

-- What a record of a batch is.
abbrev pub Batched : ℕ → ℕ → ℕ → ℕ → List (ℕ × StreamTxRecord) → StreamTxRecord → Type 0
Batched owner now cutoff cooldown m r =
    (lookup r.sequence m ≡ some r)
    × (r.ordinary_owner ≡ some owner)
    × (r.created_at ≤ cutoff)
    × (r.rescue_in_transit ≡ false)
    × ((r.last_rescue_at ≡ 0) ⊎ (r.last_rescue_at + cooldown ≤ now))

outside_batch-Batched :
    (owner now cutoff cooldown : ℕ) (m : List (ℕ × StreamTxRecord)) (r : StreamTxRecord)
    → outside_batch owner now cutoff cooldown r ≡ false
    → lookup r.sequence m ≡ some r
    → Batched owner now cutoff cooldown m r
outside_batch-Batched owner now cutoff cooldown m r within found = (
  found,
  owned r.ordinary_owner (ground (arith, within)),
  ground (arith, within),
  ground (arith, within),
  ground (arith, within),
)
  where
    owned : (o : Option ℕ) → is_leg o owner ≡ true → o ≡ some owner
    owned none e = absurd (ground (arith, e))
    owned (some x) e = ground (arith, e)

module _ {ℓ} (P : StreamTxRecord → Type ℓ) where
  All-insert_sequence :
      (r : StreamTxRecord) (rs : List StreamTxRecord)
      → P r
      → All P rs
      → All P (insert_sequence r rs)
  unfolding insert_sequence
  All-insert_sequence r [] p h = (p, tt)
  All-insert_sequence r (x ∷ xs) p (h, t) = elim (Bool-cases (ltb x.sequence r.sequence)) [
    | inl before ↦ rw before (h, All-insert_sequence r xs p t)
    | inr after ↦ rw after (p, (h, t))
  ]

  All-take : (n : ℕ) (rs : List StreamTxRecord) → All P rs → All P (take n rs)
  All-take zero rs h = tt
  All-take (suc n) [] h = tt
  All-take (suc n) (r ∷ rs) (h, t) = (h, All-take n rs t)

  All-within_budget :
      (budget : ℕ) (first : Bool) (bytes : ℕ) (rs : List StreamTxRecord)
      → All P rs
      → All P (within_budget budget first bytes rs)
  unfolding within_budget
  All-within_budget budget first bytes [] h = tt
  All-within_budget budget first bytes (r ∷ rs) (h, t) =
      elim (Bool-cases (not first && ltb budget (bytes + length r.payload))) [
        | inl full ↦ rw full tt
        | inr room ↦ rw room (h, All-within_budget budget false (bytes + length r.payload) rs t)
      ]

length-take-le : (n : ℕ) (rs : List StreamTxRecord) → length (take n rs) ≤ n
length-take-le zero rs = omega arith
length-take-le (suc n) [] = omega arith
length-take-le (suc n) (r ∷ rs) = omega (arith, length-take-le n rs)

length-within_budget :
    (budget : ℕ) (first : Bool) (bytes : ℕ) (rs : List StreamTxRecord)
    → length (within_budget budget first bytes rs) ≤ length rs
unfolding within_budget
length-within_budget budget first bytes [] = omega arith
length-within_budget budget first bytes (r ∷ rs) =
    ground (arith, length-within_budget budget false (bytes + length r.payload) rs)

-- Behind the first record the budget holds.
bytes-within_budget :
    (budget bytes : ℕ) (rs : List StreamTxRecord)
    → (bytes + bytes_of (within_budget budget false bytes rs) ≤ budget)
      ⊎ (within_budget budget false bytes rs ≡ [])
unfolding within_budget
bytes-within_budget budget bytes [] = inr refl
bytes-within_budget budget bytes (r ∷ rs) =
    elim (Bool-cases (ltb budget (bytes + length r.payload))) [
      | inl full ↦ rw full (inr refl)
      | inr room ↦ rw room (
          inl (elim (bytes-within_budget budget (bytes + length r.payload) rs) [
            | inl fits ↦ omega (arith, fits)
            | inr last ↦ rw last (ground (arith, room))
          ]))
    ]

batch_prefix-bound :
    (skip : StreamTxRecord → Bool) (prefix : List StreamTxRecord) (m : List (ℕ × StreamTxRecord))
    → length prefix ≤ 8
    → length (batch_prefix skip prefix m) ≤ 8
unfolding batch_prefix
batch_prefix-bound skip prefix [] h = h
batch_prefix-bound skip prefix ((k, r) ∷ m) h = elim (Bool-cases (skip r)) [
  | inl out ↦ rw (out, batch_prefix) (batch_prefix-bound skip prefix m h)
  | inr within ↦
      rw (within, batch_prefix)
        (batch_prefix-bound skip (take 8 (insert_sequence r prefix)) m
          (length-take-le 8 (insert_sequence r prefix)))
]

All-batch_prefix {ℓ} :
    (P : StreamTxRecord → Type ℓ) (skip : StreamTxRecord → Bool) (prefix : List StreamTxRecord)
    (m : List (ℕ × StreamTxRecord))
    → All P prefix
    → Entries (λ k r. skip r ≡ false → P r) m
    → All P (batch_prefix skip prefix m)
unfolding batch_prefix
All-batch_prefix P skip prefix [] h e = h
All-batch_prefix P skip prefix ((k, r) ∷ m) h (p, e) = elim (Bool-cases (skip r)) [
  | inl out ↦ rw (out, batch_prefix) (All-batch_prefix P skip prefix m h e)
  | inr within ↦
      rw (within, batch_prefix)
        (All-batch_prefix P skip (take 8 (insert_sequence r prefix)) m
          (All-take P 8 (insert_sequence r prefix) (All-insert_sequence P r prefix (p within) h)) e)
]

-- What holds of every batch.
pub record IsBatch (owner now cutoff cooldown byte_budget : ℕ) (m : List (ℕ × StreamTxRecord))
    (batch : List StreamTxRecord) : Type 0 where
  pub few : length batch ≤ 8
  pub records : All (Batched owner now cutoff cooldown m) batch
  -- The first record may exceed the budget alone.
  pub bounded : (bytes_of batch ≤ byte_budget) ⊎ (length batch ≤ 1)

within_budget-bounded :
    (byte_budget : ℕ) (rs : List StreamTxRecord)
    → (bytes_of (within_budget byte_budget true 0 rs) ≤ byte_budget)
      ⊎ (length (within_budget byte_budget true 0 rs) ≤ 1)
unfolding within_budget
within_budget-bounded byte_budget [] = inr (omega arith)
within_budget-bounded byte_budget (r ∷ rs) =
    elim (bytes-within_budget byte_budget (0 + length r.payload) rs) [
      | inl fits ↦ inl (omega (arith, fits))
      | inr last ↦ inr (omega (arith, ap length last))
    ]

-- The entries of a part of the map, which the whole map finds.
Entries-Batched :
    (owner now cutoff cooldown : ℕ) (whole m : List (ℕ × StreamTxRecord))
    → Entries (λ k r. lookup r.sequence whole ≡ some r) m
    → Entries
        (λ k r.
          outside_batch owner now cutoff cooldown r ≡ false
          → Batched owner now cutoff cooldown whole r)
        m
Entries-Batched owner now cutoff cooldown whole [] e = tt
Entries-Batched owner now cutoff cooldown whole ((k, r) ∷ m) (found, e) = (
  λ within. outside_batch-Batched owner now cutoff cooldown whole r within found,
  Entries-Batched owner now cutoff cooldown whole m e,
)

Entries-found_cons :
    (k : ℕ) (r : StreamTxRecord) (m rest : List (ℕ × StreamTxRecord))
    → Absent k m
    → Entries (λ j x. lookup x.sequence m ≡ some x) rest
    → Entries (λ j x. lookup x.sequence ((k, r) ∷ m) ≡ some x) rest
unfolding lookup
Entries-found_cons k r m [] a h = tt
Entries-found_cons k r m ((j, x) ∷ rest) a (h, t) =
    (ground (arith, h, Absent→lookup-none k m a), Entries-found_cons k r m rest a t)

-- Each entry is found under its record's sequence.
Entries-found :
    (m : List (ℕ × StreamTxRecord))
    → Distinct m
    → Entries (λ k r. r.sequence ≡ k) m
    → Entries (λ k r. lookup r.sequence m ≡ some r) m
unfolding lookup
Entries-found [] d e = tt
Entries-found ((k, r) ∷ m) (a, d) (same, e) =
    (ground (arith, same), Entries-found_cons k r m m a (Entries-found m d e))

-- On a sound ledger a batch holds at most 8 records, each outstanding, of the restricted owner,
-- created by the cutoff, in no rescue, and never rescued or past the cooldown of its last rescue; and its payloads keep to the byte
-- budget, or it is a single record.
pub restricted_frontier_batch-IsBatch :
    (l : StreamTxLedger) (frontier : Option ℕ) (owner now cutoff cooldown byte_budget : ℕ)
    → IsSound l
    → IsBatch owner now cutoff cooldown byte_budget l.outstanding
        (restricted_frontier_batch l frontier owner now cutoff cooldown byte_budget)
unfolding restricted_frontier_batch
restricted_frontier_batch-IsBatch l frontier owner now cutoff cooldown byte_budget v =
    elim (Option-cases (lookup l.acked_next l.outstanding)) [
      | inl gone ↦ rw (gone, restricted_frontier_batch) nothing
      | inr (r, found) ↦
          elim (Bool-cases (is_leg frontier l.acked_next && is_leg r.ordinary_owner owner)) [
            | inr other ↦ rw (found, other, restricted_frontier_batch) nothing
            | inl mine ↦ rw (found, mine, restricted_frontier_batch) some_batch
          ]
    ]
  where
    skip : StreamTxRecord → Bool
    skip = outside_batch owner now cutoff cooldown

    prefix : List StreamTxRecord
    prefix = batch_prefix skip [] l.outstanding

    nothing : IsBatch owner now cutoff cooldown byte_budget l.outstanding []
    nothing = record { few = omega arith; records = tt; bounded = inr (omega arith) }

    keyed : Entries (λ k r. r.sequence ≡ k) l.outstanding
    keyed =
        Entries-weaken (IsEntry l.acked_next l.next_sequence (length l.ordinary_frames))
          (λ k r. r.sequence ≡ k) (λ k r h. h.0) l.outstanding v.ledger.entries

    some_batch :
        IsBatch owner now cutoff cooldown byte_budget l.outstanding
          (within_budget byte_budget true 0 prefix)
    some_batch = record {
      few = omega (
        arith,
        length-within_budget byte_budget true 0 prefix,
        batch_prefix-bound skip [] l.outstanding (omega arith),
      );
      records =
          All-within_budget (Batched owner now cutoff cooldown l.outstanding) byte_budget true 0
            prefix
            (All-batch_prefix (Batched owner now cutoff cooldown l.outstanding) skip []
              l.outstanding tt
              (Entries-Batched owner now cutoff cooldown l.outstanding l.outstanding
                (Entries-found l.outstanding v.ledger.distinct keyed)));
      bounded = within_budget-bounded byte_budget prefix;
    }

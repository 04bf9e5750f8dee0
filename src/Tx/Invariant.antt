-- ===== src/Tx/Invariant.antt =====
-- core/stream_tx.go: the invariant of the ledger, and the changes to one record.
use smp3_multipath_kit_publi.Base.{
  length, some, sum_over, ◌≡◌, if◌then◌else◌, pos, Distinct, ◌%◌, Entries, lookup, sym, ℕ, ◌≤◌,
  Option, Entries-lookup, get_or, ap, ◌<◌, ◌^◌, not, ◌&&◌, none, true, is_some, refl,
  Distinct-insert, sum_over-insert, Entries-insert, lookup-insert, ◌∙◌, insert, arith, subst,
}
use smp3_multipath_kit_publi.Tx.{StreamTxRecord, StreamTxLedger, find, store, is_leg}

-- What a record counts for at a leg.
abbrev pub owned : ℕ → StreamTxRecord → ℕ
owned id r = if is_leg r.ordinary_owner id then 1 else 0

abbrev pub owned_bytes : ℕ → StreamTxRecord → ℕ
owned_bytes id r = if is_leg r.ordinary_owner id then length r.payload else 0

abbrev pub owned_pending : ℕ → StreamTxRecord → ℕ
owned_pending id r =
    if is_leg r.ordinary_owner id && not r.ordinary_admitted then length r.payload else 0

abbrev pub OwnerBelow : ℕ → Option ℕ → Type 0
OwnerBelow n none = Unit {0}
OwnerBelow n (some id) = id < n

-- A record stands under its sequence, between the two ends, and its owner has a row.
abbrev pub IsEntry : ℕ → ℕ → ℕ → ℕ → StreamTxRecord → Type 0
IsEntry acked_next next_sequence rows k r =
    (r.sequence ≡ k) × (acked_next ≤ k) × (k < next_sequence) × OwnerBelow rows r.ordinary_owner

pub record IsLedger (l : StreamTxLedger) : Type 0 where
  pub distinct : Distinct l.outstanding
  pub entries :
      Entries (IsEntry l.acked_next l.next_sequence (length l.ordinary_frames)) l.outstanding
  pub ordered : l.acked_next ≤ l.next_sequence
  -- No record between the two ends is missing.
  pub complete :
      (k : ℕ) → l.acked_next ≤ k → k < l.next_sequence → is_some (lookup k l.outstanding) ≡ true
  pub byte_rows : length l.ordinary_bytes ≡ length l.ordinary_frames
  pub pending_rows : length l.pending_bytes ≡ length l.ordinary_frames
  pub rows : l.max_legs ≡ length l.ordinary_frames

-- The counters of the leg are the sums over the records that it owns.
pub record Accounts (id : ℕ) (l : StreamTxLedger) : Type 0 where
  pub frames : get_or l.ordinary_frames id (pos 0) ≡ pos (sum_over (owned id) l.outstanding)
  pub bytes : get_or l.ordinary_bytes id 0 ≡ sum_over (owned_bytes id) l.outstanding % 2 ^ 64
  pub pending : get_or l.pending_bytes id 0 ≡ sum_over (owned_pending id) l.outstanding % 2 ^ 64

-- A record that keeps what the invariant speaks of.
pub record Same (r r' : StreamTxRecord) : Type 0 where
  pub sequence : r'.sequence ≡ r.sequence
  pub payload : r'.payload ≡ r.payload
  pub owner : r'.ordinary_owner ≡ r.ordinary_owner
  pub admitted : r'.ordinary_admitted ≡ r.ordinary_admitted

abbrev EntryOf : StreamTxLedger → ℕ → StreamTxRecord → Type 0
EntryOf l = IsEntry l.acked_next l.next_sequence (length l.ordinary_frames)

-- What is known of the record that a handle finds.
pub record Found (l : StreamTxLedger) (handle : Option ℕ) (r : StreamTxRecord) : Type 0 where
  pub here : lookup r.sequence l.outstanding ≡ some r
  pub named : handle ≡ some r.sequence
  pub acked : l.acked_next ≤ r.sequence
  pub sent : r.sequence < l.next_sequence
  pub owned : OwnerBelow (length l.ordinary_frames) r.ordinary_owner

pub find-Found :
    (l : StreamTxLedger) (handle : Option ℕ) (r : StreamTxRecord)
    → IsLedger l
    → find l handle ≡ some r
    → Found l handle r
unfolding find
find-Found l none r v e = cc
find-Found l (some k) r v e =
    let (key, lo, hi, o) = Entries-lookup (EntryOf l) k l.outstanding v.entries e in
    record {
      here = subst (λ (x : ℕ). lookup x l.outstanding ≡ some r) (sym key) e;
      named = ap some (sym key);
      acked = omega arith;
      sent = omega arith;
      owned = o;
    }

-- The invariant, but for the order of the ends, sees the ledger through its map and its rows.
pub store-IsLedger :
    (l : StreamTxLedger) (handle : Option ℕ) (r r' : StreamTxRecord)
    → IsLedger l
    → Found l handle r
    → r'.sequence ≡ r.sequence
    → OwnerBelow (length l.ordinary_frames) r'.ordinary_owner
    → IsLedger (store l r')
unfolding store
store-IsLedger l handle r r' v f s o = record {
  distinct = Distinct-insert r'.sequence r' l.outstanding v.distinct;
  entries =
      Entries-insert (EntryOf l) r'.sequence r' l.outstanding
        (refl, omega (arith, f.acked), omega (arith, f.sent), o) v.entries;
  ordered = v.ordered;
  complete = λ k lo hi.
      rw (lookup-insert r'.sequence k r' l.outstanding) (ground (arith, v.complete k lo hi));
  byte_rows = v.byte_rows;
  pending_rows = v.pending_rows;
  rows = v.rows;
}

-- A sum over the records is kept by a record that counts for the same.
pub sum_over-store :
    (weight : StreamTxRecord → ℕ) (l : StreamTxLedger) (r r' : StreamTxRecord)
    → Distinct l.outstanding
    → lookup r.sequence l.outstanding ≡ some r
    → r'.sequence ≡ r.sequence
    → weight r' ≡ weight r
    → sum_over weight (insert r'.sequence r' l.outstanding) ≡ sum_over weight l.outstanding
sum_over-store weight l r r' d e s w =
    let there : lookup r'.sequence l.outstanding ≡ some r =
      subst (λ (x : ℕ). lookup x l.outstanding ≡ some r) (sym s) e in
    omega (arith, w, sum_over-insert weight r'.sequence r' l.outstanding {v = r} d there)

pub store-Accounts :
    (l : StreamTxLedger) (id : ℕ) (handle : Option ℕ) (r r' : StreamTxRecord)
    → IsLedger l
    → Accounts id l
    → Found l handle r
    → Same r r'
    → Accounts id (store l r')
unfolding store
store-Accounts l id handle r r' v a f s = record {
  frames = a.frames ∙ ap pos (sym (kept (owned id) (rw s.owner)));
  bytes =
      a.bytes ∙ ap (λ (n : ℕ). n % 2 ^ 64) (sym (kept (owned_bytes id) (rw (s.owner, s.payload))));
  pending =
      a.pending
      ∙ ap (λ (n : ℕ). n % 2 ^ 64)
          (sym (kept (owned_pending id) (rw (s.owner, s.payload, s.admitted))));
}
  where
    kept :
        (weight : StreamTxRecord → ℕ)
        → weight r' ≡ weight r
        → sum_over weight (insert r'.sequence r' l.outstanding) ≡ sum_over weight l.outstanding
    kept weight = sum_over-store weight l r r' v.distinct f.here s.sequence

-- The invariant of the whole ledger.
pub record IsSound (l : StreamTxLedger) : Type 0 where
  pub ledger : IsLedger l
  pub accounts : (id : ℕ) → Accounts id l

pub store-IsSound :
    (l : StreamTxLedger) (handle : Option ℕ) (r r' : StreamTxRecord)
    → IsSound l
    → find l handle ≡ some r
    → Same r r'
    → IsSound (store l r')
store-IsSound l handle r r' v e s =
    let f = find-Found l handle r v.ledger e in
    record {
      ledger = store-IsLedger l handle r r' v.ledger f s.sequence (rw s.owner f.owned);
      accounts = λ id. store-Accounts l id handle r r' v.ledger (v.accounts id) f s;
    }

-- ===== src/Tx/Legs.antt =====
-- core/stream_tx.go: the ordinary owner of a record, and the frames and bytes that each leg owns.
pub mod Rows
pub mod Grow
pub mod Take
pub mod Assign
pub mod Admit
pub mod Frame
use smp3_multipath_kit_publi.Base.{
  zero, add64, pos, suc, List, true, ℤ, set, not, ℕ, sub64, negsuc, get_or, none, false, some,
  length, Bool, if◌then◌else◌, Option, ◌||◌,
}
use smp3_multipath_kit_publi.Tx.{StreamTxRecord, StreamTxLedger, find, store, is_leg, ensure_leg}

-- An int is signed: the count of a leg could go below 0.
abbrev pub int_suc : ℤ → ℤ
int_suc (pos n) = pos (suc n)
int_suc (negsuc zero) = pos 0
int_suc (negsuc (suc n)) = negsuc n

abbrev pub int_pred : ℤ → ℤ
int_pred (pos zero) = negsuc 0
int_pred (pos (suc n)) = pos n
int_pred (negsuc n) = negsuc (suc n)

abbrev pub at_leg {ℓ} : {A : Type ℓ} → A → List A → ℕ → (A → A) → List A
at_leg d xs id f = set xs id (f (get_or xs id d))

-- A leg gives the record up, and takes it.
unfoldable pub release_owner : StreamTxLedger → ℕ → StreamTxRecord → StreamTxLedger
release_owner l id r =
    let size = length r.payload in
    record l {
      ordinary_frames = at_leg (pos 0) l.ordinary_frames id int_pred;
      ordinary_bytes = at_leg 0 l.ordinary_bytes id (λ b. sub64 b size);
      pending_bytes =
          if r.ordinary_admitted
          then l.pending_bytes
          else at_leg 0 l.pending_bytes id (λ b. sub64 b size);
    }

unfoldable pub take_owner : StreamTxLedger → ℕ → StreamTxRecord → StreamTxLedger
take_owner l id r =
    let size = length r.payload in
    record l {
      ordinary_frames = at_leg (pos 0) l.ordinary_frames id int_suc;
      ordinary_bytes = at_leg 0 l.ordinary_bytes id (λ b. add64 b size);
      pending_bytes =
          if r.ordinary_admitted
          then l.pending_bytes
          else at_leg 0 l.pending_bytes id (λ b. add64 b size);
    }

abbrev pub release_previous : StreamTxLedger → StreamTxRecord → StreamTxLedger
release_previous l r = elim r.ordinary_owner [
  | none ↦ l
  | some previous ↦ release_owner l previous r
]

-- The move of an outstanding record to the leg.
unfoldable pub reassign : StreamTxLedger → StreamTxRecord → ℕ → ℕ → StreamTxLedger
unfolding release_owner take_owner store
reassign l r id now =
    take_owner
      (store (release_previous l r) (record r { ordinary_owner = some id; assigned_at = now })) id r

unfoldable pub assign_ordinary : StreamTxLedger → Option ℕ → ℕ → ℕ → StreamTxLedger × Bool
assign_ordinary l₀ handle id now =
    let (l, valid) = ensure_leg l₀ id in
    if valid
    then elim (find l handle) [
      | none ↦ (l, false)
      | some r ↦ if is_leg r.ordinary_owner id then (l, true) else (reassign l r id now, true)
    ]
    else (l, false)

pub mark_ordinary_admitted : StreamTxLedger → Option ℕ → ℕ → StreamTxLedger
mark_ordinary_admitted l₀ handle id =
    let (l, valid) = ensure_leg l₀ id in
    if valid
    then elim (find l handle) [
      | none ↦ l
      | some r ↦
          if not (is_leg r.ordinary_owner id) || r.ordinary_admitted
          then l
          else record (store l (record r { ordinary_admitted = true })) {
            pending_bytes = at_leg 0 l.pending_bytes id (λ b. sub64 b (length r.payload));
          }
    ]
    else l

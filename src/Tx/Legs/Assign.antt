-- ===== src/Tx/Legs/Assign.antt =====
-- core/stream_tx.go, assignOrdinary: a record moves to another leg.
use smp3_multipath_kit_publi.Tx.Legs.Take.{take_owner-Counts}
use smp3_multipath_kit_publi.Tx.Legs.Grow.{ensure_leg-row, ensure_leg-IsSound}
use smp3_multipath_kit_publi.Tx.{StreamTxRecord, StreamTxLedger, store, find, ensure_leg, is_leg}
use smp3_multipath_kit_publi.Tx.Invariant.{
  owned_bytes, owned_pending, IsEntry, IsLedger, owned, find-Found, store-IsLedger, IsSound,
}
use smp3_multipath_kit_publi.Tx.Legs.Rows.{
  release_owner-Counts, weights_other, Counts, Counts-share,
}
use smp3_multipath_kit_publi.Base.{
  length, pos, refl, arith, ap, inl, ℤ, sym, length-set, Option-cases, ℕ, ◌≡◌, List, Entries, ◌∙◌,
  ◌<◌, Bool-cases, subst, inr, Option, some, sum_over, delete, insert,
}
use smp3_multipath_kit_publi.Tx.Legs.{
  release_owner, take_owner, release_previous, reassign, assign_ordinary,
}

-- The map and the ends do not read the rows but for their number.
pub rows-IsLedger :
    (l : StreamTxLedger) (frames : List ℤ) (sizes waiting : List ℕ)
    → length frames ≡ length l.ordinary_frames
    → length sizes ≡ length l.ordinary_frames
    → length waiting ≡ length l.ordinary_frames
    → IsLedger l
    → IsLedger
        (record l { ordinary_frames = frames; ordinary_bytes = sizes; pending_bytes = waiting })
rows-IsLedger l frames sizes waiting f s w v = record {
  distinct = v.distinct;
  entries =
      subst (λ (n : ℕ). Entries (IsEntry l.acked_next l.next_sequence n) l.outstanding) (sym f)
        v.entries;
  ordered = v.ordered;
  complete = v.complete;
  byte_rows = s ∙ sym f;
  pending_rows = w ∙ sym f;
  rows = v.rows ∙ sym f;
}

-- The rows keep their number.
record Sized (l l' : StreamTxLedger) : Type 0 where
  frames : length l'.ordinary_frames ≡ length l.ordinary_frames
  bytes : length l'.ordinary_bytes ≡ length l.ordinary_bytes
  pending : length l'.pending_bytes ≡ length l.pending_bytes

release_owner-Sized :
    (l : StreamTxLedger) (id : ℕ) (r : StreamTxRecord) → Sized l (release_owner l id r)
unfolding release_owner
release_owner-Sized l id r = record {
  frames = length-set l.ordinary_frames id _;
  bytes = length-set l.ordinary_bytes id _;
  pending = elim (Bool-cases r.ordinary_admitted) [
    | inl was ↦ rw was refl
    | inr not_yet ↦ rw not_yet (length-set l.pending_bytes id _)
  ];
}

take_owner-Sized : (l : StreamTxLedger) (id : ℕ) (r : StreamTxRecord) → Sized l (take_owner l id r)
unfolding take_owner
take_owner-Sized l id r = record {
  frames = length-set l.ordinary_frames id _;
  bytes = length-set l.ordinary_bytes id _;
  pending = elim (Bool-cases r.ordinary_admitted) [
    | inl was ↦ rw was refl
    | inr not_yet ↦ rw not_yet (length-set l.pending_bytes id _)
  ];
}

-- The moved record's new state.
abbrev moved : StreamTxRecord → ℕ → ℕ → StreamTxRecord
moved r id now = record r { ordinary_owner = some id; assigned_at = now }

-- The move, from rows that no longer count the record.
taken-IsSound :
    (l : StreamTxLedger) (handle : Option ℕ) (r : StreamTxRecord) (id now : ℕ) (frames : List ℤ)
    (sizes waiting : List ℕ)
    → IsSound l
    → find l handle ≡ some r
    → id < length l.ordinary_frames
    → let p : StreamTxLedger = record l {
      ordinary_frames = frames;
      ordinary_bytes = sizes;
      pending_bytes = waiting;
    } in
      let m = delete r.sequence l.outstanding in
      Sized l p
      → ((j : ℕ)
          → Counts p j
              (sum_over (owned j) m)
              (sum_over (owned_bytes j) m)
              (sum_over (owned_pending j) m))
      → IsSound (take_owner (store p (moved r id now)) id (moved r id now))
unfolding take_owner store insert delete
taken-IsSound l handle r id now frames sizes waiting v e h z c =
    let f = find-Found l handle r v.ledger e in
    let r' : StreamTxRecord = moved r id now in
    let p : StreamTxLedger = record l {
      ordinary_frames = frames;
      ordinary_bytes = sizes;
      pending_bytes = waiting;
    } in
    let t = take_owner-Sized (store p r') id r' in
    record {
      ledger =
          rows-IsLedger (store l r') _ _ _ (t.frames ∙ z.frames)
            (t.bytes ∙ z.bytes ∙ v.ledger.byte_rows) (t.pending ∙ z.pending ∙ v.ledger.pending_rows)
            (store-IsLedger l handle r r' v.ledger f refl h);
      accounts = λ j.
          let d =
            take_owner-Counts (store p r') id r' _ _ _ refl (omega (arith, h, z.frames))
              (z.bytes ∙ v.ledger.byte_rows ∙ sym z.frames)
              (z.pending ∙ v.ledger.pending_rows ∙ sym z.frames) j
              (record { frames = (c j).frames; bytes = (c j).bytes; pending = (c j).pending }) in
          record { frames = d.frames; bytes = d.bytes; pending = d.pending };
    }

reassign-IsSound :
    (l : StreamTxLedger) (handle : Option ℕ) (r : StreamTxRecord) (id now : ℕ)
    → IsSound l
    → find l handle ≡ some r
    → id < length l.ordinary_frames
    → IsSound (reassign l r id now)
unfolding reassign release_owner
reassign-IsSound l handle r id now v e h =
    let f = find-Found l handle r v.ledger e in
    let c = λ (j : ℕ). Counts-share r.sequence l r j v.ledger.distinct f.here (v.accounts j) in
    elim (Option-cases r.ordinary_owner) [
      | inl own ↦
          rw (own, release_previous, reassign)
            (taken-IsSound l handle r id now l.ordinary_frames l.ordinary_bytes l.pending_bytes v e
              h (record { frames = refl; bytes = refl; pending = refl })
              λ j.
                let (no_frame, no_byte, no_wait) = weights_other r j (rw own refl) in
                record {
                  frames = (c j).frames ∙ ap pos (omega (arith, no_frame));
                  bytes = omega (arith, (c j).bytes, no_byte);
                  pending = omega (arith, (c j).pending, no_wait);
                })
      | inr (previous, own) ↦
          let below : previous < length l.ordinary_frames = rw own at f.owned in
          let released = release_owner l previous r in
          rw (own, release_previous, reassign)
            (taken-IsSound l handle r id now released.ordinary_frames released.ordinary_bytes
              released.pending_bytes v e h (release_owner-Sized l previous r)
              λ j.
                release_owner-Counts l previous r _ _ _ own below v.ledger.byte_rows
                  v.ledger.pending_rows j (c j))
    ]

pub assign_ordinary-IsSound :
    (l : StreamTxLedger) (handle : Option ℕ) (id now : ℕ)
    → IsSound l
    → IsSound (assign_ordinary l handle id now).0
unfolding assign_ordinary
assign_ordinary-IsSound l handle id now v =
    let w = ensure_leg-IsSound l id v in
    elim (Bool-cases (ensure_leg l id).1) [
      | inr out ↦ rw (out, assign_ordinary) w
      | inl ok ↦ elim (Option-cases (find (ensure_leg l id).0 handle)) [
        | inl gone ↦ rw (ok, gone, assign_ordinary) w
        | inr (r, found) ↦ elim (Bool-cases (is_leg r.ordinary_owner id)) [
          | inl mine ↦ rw (ok, found, mine, assign_ordinary) w
          | inr other ↦
              rw (ok, found, other, assign_ordinary)
                (reassign-IsSound (ensure_leg l id).0 handle r id now w found
                  (ensure_leg-row l id v ok))
        ]
      ]
    ]

-- ===== src/Tx/Legs/Admit.antt =====
-- core/stream_tx.go, add and markOrdinaryAdmitted: a record is added, and admitted by its owner.
use smp3_multipath_kit_publi.Tx.Legs.Assign.{rows-IsLedger}
use smp3_multipath_kit_publi.Tx.Invariant.{
  store-IsLedger, owned_pending, find-Found, IsEntry, IsSound,
}
use smp3_multipath_kit_publi.Tx.Legs.Rows.{Counts-share, weights_other}
use smp3_multipath_kit_publi.Tx.Legs.Grow.{ensure_leg-IsSound, ensure-IsSound, ensure-frame}
use smp3_multipath_kit_publi.Tx.{
  StreamTxRecord, ensure_leg, is_leg, StreamTxLedger, add, store, ensure, find,
}
use smp3_multipath_kit_publi.Base.{
  ◌||◌, lookup-none→Absent, length-set, inl, lookup, ◌≡◌, pos, Option, ◌%◌, List, length, not, ◌^◌,
  ap, ◌∷◌, insert_new, refl, Bool, ◌==◌, Bool-cases, insert, ◌+◌, arith, add64, sum_over, true,
  some, ◌<◌, delete, get_or-set, ==_iff, false, Entries-lookup, sub64, ◌∙◌, Option-cases, inr,
  Entries-weaken, none, get_or, ℕ,
}
use smp3_multipath_kit_publi.Tx.Legs.{mark_ordinary_admitted, at_leg}

-- The payload of an admitted record is no longer pending at its owner.
admitted_row :
    (l : StreamTxLedger) (r : StreamTxRecord) (id j waiting : ℕ)
    → r.ordinary_owner ≡ some id
    → r.ordinary_admitted ≡ false
    → id < length l.pending_bytes
    → get_or l.pending_bytes j 0 ≡ (owned_pending j r + waiting) % 2 ^ 64
    → get_or (at_leg 0 l.pending_bytes id (λ b. sub64 b (length r.payload))) j 0 ≡ waiting % 2 ^ 64
admitted_row l r id j waiting own fresh h e =
    get_or-set l.pending_bytes id j (sub64 (get_or l.pending_bytes id 0) (length r.payload)) 0 h
    ∙ elim (Bool-cases (id == j)) [
      | inl hit ↦
          let same : get_or l.pending_bytes id 0 ≡ get_or l.pending_bytes j 0 =
            ap (λ (x : ℕ). get_or l.pending_bytes x 0) ((==_iff id j).0 hit) in
          let all : owned_pending j r ≡ length r.payload = ground (arith, own, fresh, hit) in
          rw hit (omega (arith, same, all, e))
      | inr miss ↦
          let none_of : owned_pending j r ≡ 0 = ground (arith, own, miss) in
          rw miss (omega (arith, none_of, e))
    ]

admit-IsSound :
    (l : StreamTxLedger) (handle : Option ℕ) (r : StreamTxRecord) (id : ℕ)
    → IsSound l
    → find l handle ≡ some r
    → r.ordinary_owner ≡ some id
    → r.ordinary_admitted ≡ false
    → IsSound (record (store l (record r { ordinary_admitted = true })) {
      pending_bytes = at_leg 0 l.pending_bytes id (λ b. sub64 b (length r.payload));
    })
unfolding store insert delete
admit-IsSound l handle r id v e own fresh =
    let f = find-Found l handle r v.ledger e in
    let r' : StreamTxRecord = record r { ordinary_admitted = true } in
    let below : id < length l.ordinary_frames = rw own at f.owned in
    record {
      ledger =
          rows-IsLedger (store l r') _ _ _ refl v.ledger.byte_rows
            (length-set l.pending_bytes id _ ∙ v.ledger.pending_rows)
            (store-IsLedger l handle r r' v.ledger f refl f.owned);
      accounts = λ j.
          let c = Counts-share r.sequence l r j v.ledger.distinct f.here (v.accounts j) in
          let rest = sum_over (owned_pending j) (delete r.sequence l.outstanding) in
          let quiet : owned_pending j r' ≡ 0 = ground arith in
          record {
            frames = c.frames;
            bytes = c.bytes;
            pending =
                admitted_row l r id j rest own fresh (omega (arith, below, v.ledger.pending_rows))
                  c.pending
                ∙ ap (λ (x : ℕ). x % 2 ^ 64) {x = rest} {y = owned_pending j r' + rest}
                    (omega (arith, quiet));
          };
    }

pub mark_ordinary_admitted-IsSound :
    (l : StreamTxLedger) (handle : Option ℕ) (id : ℕ)
    → IsSound l
    → IsSound (mark_ordinary_admitted l handle id)
unfolding mark_ordinary_admitted
mark_ordinary_admitted-IsSound l handle id v =
    let w = ensure_leg-IsSound l id v in
    elim (Bool-cases (ensure_leg l id).1) [
      | inr out ↦ rw (out, mark_ordinary_admitted) w
      | inl ok ↦ elim (Option-cases (find (ensure_leg l id).0 handle)) [
        | inl gone ↦ rw (ok, gone, mark_ordinary_admitted) w
        | inr (r, found) ↦
            elim (Bool-cases (not (is_leg r.ordinary_owner id) || r.ordinary_admitted)) [
              | inl idle ↦ rw (ok, found, idle, mark_ordinary_admitted) w
              | inr due ↦
                  rw (ok, found, due, mark_ordinary_admitted)
                    (admit-IsSound (ensure_leg l id).0 handle r id w found (ground (arith, due))
                      (ground (arith, due)))
            ]
      ]
    ]

-- A sequence that is not given yet has no record.
next-none : (l : StreamTxLedger) → IsSound l → lookup l.next_sequence l.outstanding ≡ none
next-none l v = elim (Option-cases (lookup l.next_sequence l.outstanding)) [
  | inl gone ↦ gone
  | inr (r, found) ↦
      let (s, lo, hi, o) =
        Entries-lookup (IsEntry l.acked_next l.next_sequence (length l.ordinary_frames))
          l.next_sequence l.outstanding v.ledger.entries found in
      absurd (omega (arith, hi))
]

appended-IsSound :
    (l : StreamTxLedger) (r : StreamTxRecord)
    → IsSound l
    → r.sequence ≡ l.next_sequence
    → r.ordinary_owner ≡ none
    → IsSound (record l {
      next_sequence = l.next_sequence + 1;
      outstanding = (l.next_sequence, r) ∷ l.outstanding;
    })
unfolding lookup
appended-IsSound l r v s own = record {
  ledger = record {
    distinct =
        (lookup-none→Absent l.next_sequence l.outstanding (next-none l v), v.ledger.distinct);
    entries = (
      (s, v.ledger.ordered, omega arith, rw own tt),
      Entries-weaken (IsEntry l.acked_next l.next_sequence (length l.ordinary_frames))
          (IsEntry l.acked_next (l.next_sequence + 1) (length l.ordinary_frames))
          (λ j r' (same, lo, hi, o). (same, lo, omega (arith, hi), o)) l.outstanding
          v.ledger.entries,
    );
    ordered = omega (arith, v.ledger.ordered);
    complete = λ k lo hi. ground (arith, v.ledger.complete k lo);
    byte_rows = v.ledger.byte_rows;
    pending_rows = v.ledger.pending_rows;
    rows = v.ledger.rows;
  };
  accounts = λ j.
      let (no_frame, no_byte, no_wait) = weights_other r j (rw own refl) in
      record {
        frames = (v.accounts j).frames ∙ ap pos (omega (arith, no_frame));
        bytes = omega (arith, (v.accounts j).bytes, no_byte);
        pending = omega (arith, (v.accounts j).pending, no_wait);
      };
}

-- A frame that is added to a sound ledger, short of the last sequence of 64 bits, leaves it sound.
pub add-IsSound :
    (l : StreamTxLedger) (payload : List ℕ) (now : ℕ) (local_enqueue : Bool)
    → IsSound l
    → l.next_sequence + 1 < 2 ^ 64
    → IsSound (add l payload now local_enqueue).0
unfolding add
add-IsSound l payload now local_enqueue v h =
    let w = ensure-IsSound l v in
    let (same_next, same_acked, same_map, same_count) = ensure-frame l in
    let word : add64 (ensure l).next_sequence 1 ≡ (ensure l).next_sequence + 1 =
      omega (arith, h, same_next) in
    rw (word, insert_new (ensure l).next_sequence _ (ensure l).outstanding (next-none (ensure l) w))
      (appended-IsSound (ensure l) _ w refl refl)

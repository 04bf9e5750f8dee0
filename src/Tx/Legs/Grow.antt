-- ===== src/Tx/Legs/Grow.antt =====
-- core/stream_tx.go, ensureLocked and ensureLegLocked: the ledger grows to the legs it is asked about.
use smp3_multipath_kit_publi.Base.{
  ℕ, inl, arith, Bool-cases, ltb, sym, ◌+◌, ltb→lt, List, false, ◌≡◌, some, leb, Option, none, inr,
  pos, length-append, length, replicate, ◌≤◌, true, [], ◌<◌, ◌∙◌, Entries-weaken, length-replicate,
  ◌-◌, get_or-append_replicate,
}
use smp3_multipath_kit_publi.Tx.{
  StreamTxLedger, grow_legs, grow, ensure, ensure_leg, new_ledger, max_stream_leg_id_count,
}
use smp3_multipath_kit_publi.Tx.Invariant.{IsSound, OwnerBelow, IsEntry}

length-grow {ℓ} :
    {A : Type ℓ} (d : A) (n : ℕ) (xs : List A) → length xs ≤ n → length (grow d n xs) ≡ n
length-grow d n xs h =
    omega
      (arith, length-append xs (replicate (n - length xs) d), length-replicate (n - length xs) d)

OwnerBelow-le : (n m : ℕ) (o : Option ℕ) → n ≤ m → OwnerBelow n o → OwnerBelow m o
OwnerBelow-le n m none h b = tt
OwnerBelow-le n m (some id) h b = omega (arith, h, b)

pub grow_legs-IsSound :
    (n : ℕ) (l : StreamTxLedger)
    → length l.ordinary_frames ≤ n
    → IsSound l
    → IsSound (record (grow_legs n l) { max_legs = n })
grow_legs-IsSound n l h v = record {
  ledger = record {
    distinct = v.ledger.distinct;
    entries =
        Entries-weaken (IsEntry l.acked_next l.next_sequence (length l.ordinary_frames))
          (IsEntry l.acked_next l.next_sequence (length (grow (pos 0) n l.ordinary_frames)))
          (λ j r (s, lo, hi, o). (
            s,
            lo,
            hi,
            OwnerBelow-le _ _ r.ordinary_owner
                (omega (arith, h, length-grow (pos 0) n l.ordinary_frames h)) o,
          ))
          l.outstanding v.ledger.entries;
    ordered = v.ledger.ordered;
    complete = v.ledger.complete;
    byte_rows =
        length-grow 0 n l.ordinary_bytes (omega (arith, h, v.ledger.byte_rows))
        ∙ sym (length-grow (pos 0) n l.ordinary_frames h);
    pending_rows =
        length-grow 0 n l.pending_bytes (omega (arith, h, v.ledger.pending_rows))
        ∙ sym (length-grow (pos 0) n l.ordinary_frames h);
    rows = sym (length-grow (pos 0) n l.ordinary_frames h);
  };
  accounts = λ id. record {
    frames = get_or-append_replicate l.ordinary_frames _ id (pos 0) ∙ (v.accounts id).frames;
    bytes = get_or-append_replicate l.ordinary_bytes _ id 0 ∙ (v.accounts id).bytes;
    pending = get_or-append_replicate l.pending_bytes _ id 0 ∙ (v.accounts id).pending;
  };
}

pub ensure-IsSound : (l : StreamTxLedger) → IsSound l → IsSound (ensure l)
unfolding ensure
ensure-IsSound l v = elim (Bool-cases (ltb l.max_legs 2)) [
  | inl few ↦
      let short = ltb→lt l.max_legs 2 few in
      let grows : ltb (length l.ordinary_frames) 2 ≡ true = ground (arith, short, v.ledger.rows) in
      rw (few, grows, ensure) (grow_legs-IsSound 2 l (omega (arith, short, v.ledger.rows)) v)
  | inr enough ↦
      let fits : ltb (length l.ordinary_frames) l.max_legs ≡ false =
        ground (arith, v.ledger.rows) in
      rw (enough, fits, ensure) v
]

-- `ensure` changes the rows alone.
pub ensure-frame :
    (l : StreamTxLedger)
    → ((ensure l).next_sequence ≡ l.next_sequence)
      × ((ensure l).acked_next ≡ l.acked_next)
      × ((ensure l).outstanding ≡ l.outstanding)
      × ((ensure l).future_ack_count ≡ l.future_ack_count)
unfolding ensure
ensure-frame l = ground arith

pub ensure_leg-IsSound : (l : StreamTxLedger) (id : ℕ) → IsSound l → IsSound (ensure_leg l id).0
unfolding ensure_leg
ensure_leg-IsSound l id v =
    let w = ensure-IsSound l v in
    elim (Bool-cases (leb max_stream_leg_id_count id)) [
      | inl out ↦ rw (out, ensure_leg) w
      | inr ok ↦ elim (Bool-cases (leb (id + 1) (ensure l).max_legs)) [
        | inl known ↦ rw (ok, known, ensure_leg) w
        | inr unknown ↦
            let grows : ltb (length (ensure l).ordinary_frames) (id + 1) ≡ true =
              ground (arith, unknown, w.ledger.rows) in
            rw (ok, unknown, grows, ensure_leg)
              (grow_legs-IsSound (id + 1) (ensure l) (omega (arith, ltb→lt _ _ grows)) w)
      ]
    ]

ensure_leg-max :
    (l : StreamTxLedger) (id : ℕ) → (ensure_leg l id).1 ≡ true → id < (ensure_leg l id).0.max_legs
unfolding ensure_leg
ensure_leg-max l id ok = ground arith

-- A leg that `ensure_leg` accepts has a row.
pub ensure_leg-row :
    (l : StreamTxLedger) (id : ℕ)
    → IsSound l
    → (ensure_leg l id).1 ≡ true
    → id < length (ensure_leg l id).0.ordinary_frames
ensure_leg-row l id v ok =
    omega (arith, (ensure_leg-IsSound l id v).ledger.rows, ensure_leg-max l id ok)

pub new_ledger-IsSound : (max_legs : ℕ) → IsSound (new_ledger max_legs)
unfolding new_ledger
new_ledger-IsSound max_legs = record {
  ledger = record {
    distinct = tt;
    entries = tt;
    ordered = omega arith;
    complete = λ k lo hi. absurd (omega (arith, hi));
    byte_rows = length-replicate _ 0 ∙ sym (length-replicate _ (pos 0));
    pending_rows = length-replicate _ 0 ∙ sym (length-replicate _ (pos 0));
    rows = sym (length-replicate _ (pos 0));
  };
  accounts = λ id. record {
    frames = get_or-append_replicate [] _ id (pos 0);
    bytes = get_or-append_replicate [] _ id 0;
    pending = get_or-append_replicate [] _ id 0;
  };
}

-- ===== src/Tx/Ack/Frontier.antt =====
-- core/stream_tx.go, ApplyACK: how the frontier is exposed, and what an ACK that advances has done.
use smp3_multipath_kit_publi.Base.{
  ℕ, inl, sum_over, inr, Option-cases, lookup, ◌≡◌, ◌≢◌, ◌==◌, Bool-cases, refl, some, ◌∙◌, ◌<◌,
  length, ◌%◌, ◌^◌, Entries-lookup, lookup-insert, none, arith, ◌+◌, ltb, subst, true,
  if◌then◌else◌, ◌⊎◌, ==_iff, ltb→lt,
}
use smp3_multipath_kit_publi.Tx.{StreamTxRecord, StreamTxLedger, store, find}
use smp3_multipath_kit_publi.Tx.Invariant.{
  IsSound, IsEntry, store-IsSound, find-Found, sum_over-store,
}
use smp3_multipath_kit_publi.Tx.Ack.{StreamTxAckResult, finish_ack, expose_frontier, advanced}
use smp3_multipath_kit_publi.Tx.Ack.Retire.{Retired, acked_at, payload_size}

-- The effect of exposing the record at the frontier.
record Exposed (next : ℕ) (l l' : StreamTxLedger) : Type 0 where
  pub sound : IsSound l'
  pub acked_next : l'.acked_next ≡ l.acked_next
  pub next_sequence : l'.next_sequence ≡ l.next_sequence
  others : (j : ℕ) → j ≢ next → lookup j l'.outstanding ≡ lookup j l.outstanding
  pub bytes : sum_over payload_size l'.outstanding ≡ sum_over payload_size l.outstanding

expose_frontier-Exposed :
    (l : StreamTxLedger) (next now : ℕ) → IsSound l → Exposed next l (expose_frontier l next now)
unfolding expose_frontier store find
expose_frontier-Exposed l next now v = elim (Option-cases (lookup next l.outstanding)) [
  | inl gone ↦
      rw (gone, expose_frontier)
        (record {
          sound = v;
          acked_next = refl;
          next_sequence = refl;
          others = λ j ne. refl;
          bytes = refl;
        })
  | inr (r, found) ↦ elim (Bool-cases (r.frontier_at == 0)) [
    | inl first ↦
        let r' : StreamTxRecord = record r { frontier_at = now } in
        let f = find-Found l (some next) r v.ledger found in
        let key : next ≡ r.sequence = ground (arith, f.named) in
        rw (found, first, expose_frontier)
          (record {
            sound =
                store-IsSound l (some next) r r' v found
                  (record { sequence = refl; payload = refl; owner = refl; admitted = refl });
            acked_next = refl;
            next_sequence = refl;
            others = λ j ne. lookup-insert r.sequence j r' l.outstanding ∙ ground (arith, ne, key);
            bytes = sum_over-store payload_size l r r' v.ledger.distinct f.here refl refl;
          })
    | inr again ↦
        rw (found, again, expose_frontier)
          (record {
            sound = v;
            acked_next = refl;
            next_sequence = refl;
            others = λ j ne. refl;
            bytes = refl;
          })
  ]
]

-- The ledger and the result after an ACK that advances the frontier.
pub record Acknowledged (l : StreamTxLedger) (next now : ℕ) (l' : StreamTxLedger)
    (result : StreamTxAckResult) : Type 0 where
  pub sound : IsSound l'
  pub disposition : result.disposition ≡ advanced
  pub released : result.released + l.acked_next ≡ next
  pub frontier : l'.acked_next ≡ next
  pub reported : result.acked_next ≡ next
  pub next_sequence : l'.next_sequence ≡ l.next_sequence
  -- Below `next` the records are gone, above it they are as they were.
  pub records :
      (j : ℕ)
      → (j ≡ next)
        ⊎ (lookup j l'.outstanding ≡ (if ltb j next then none else lookup j l.outstanding))
  pub bytes :
      (result.retired_bytes + sum_over payload_size l'.outstanding) % 2 ^ 64
      ≡ sum_over payload_size l.outstanding % 2 ^ 64
  pub progress : l'.last_ack_progress ≡ now

-- No record stands below the frontier.
below-none :
    (l : StreamTxLedger) (j : ℕ) → IsSound l → j < l.acked_next → lookup j l.outstanding ≡ none
below-none l j v h = elim (Option-cases (lookup j l.outstanding)) [
  | inl gone ↦ gone
  | inr (r, found) ↦
      let (s, lo, hi, o) =
        Entries-lookup (IsEntry l.acked_next l.next_sequence (length l.ordinary_frames)) j
          l.outstanding v.ledger.entries found in
      absurd (omega (arith, lo, h))
]

-- The invariant does not read the counters of the feedback.
pub touch-IsSound :
    (l : StreamTxLedger) (count progress : ℕ)
    → IsSound l
    → IsSound (record l { future_ack_count = count; last_ack_progress = progress })
touch-IsSound l count progress v = record {
  ledger = record {
    distinct = v.ledger.distinct;
    entries = v.ledger.entries;
    ordered = v.ledger.ordered;
    complete = v.ledger.complete;
    byte_rows = v.ledger.byte_rows;
    pending_rows = v.ledger.pending_rows;
    rows = v.ledger.rows;
  };
  accounts = λ id. record {
    frames = (v.accounts id).frames;
    bytes = (v.accounts id).bytes;
    pending = (v.accounts id).pending;
  };
}

pub finish_ack-Acknowledged :
    (l l₁ : StreamTxLedger) (start result : StreamTxAckResult) (rounds next now : ℕ)
    → Retired rounds l.acked_next l l₁ start result
    → l.acked_next + rounds ≡ next
    → 0 < rounds
    → start.released ≡ 0
    → start.retired_bytes ≡ 0
    → start.disposition ≡ advanced
    → let after = finish_ack l₁ result next now in Acknowledged l next now after.0 after.1
unfolding finish_ack
finish_ack-Acknowledged l l₁ start result rounds next now t end some_rounds none_yet no_bytes kind =
    let moved : StreamTxLedger = acked_at next l₁ in
    let sound : IsSound moved = subst (λ (x : ℕ). IsSound (acked_at x l₁)) end t.sound in
    let e : Exposed next moved (expose_frontier moved next now) =
      expose_frontier-Exposed moved next now sound in
    let progress : ltb 0 result.released ≡ true = ground (arith, t.released, some_rounds) in
    let last =
      touch-IsSound (expose_frontier moved next now)
        (expose_frontier moved next now).future_ack_count
        (if ltb 0 result.released then now else (expose_frontier moved next now).last_ack_progress)
        e.sound in
    record {
      sound = last;
      disposition = t.disposition ∙ kind;
      released = omega (arith, t.released, none_yet, end);
      frontier = e.acked_next;
      reported = refl;
      next_sequence = e.next_sequence ∙ t.next_sequence;
      records = λ j. elim (Bool-cases (ltb j next)) [
        | inl below ↦ inr (
            rw below (
              below-none (expose_frontier moved next now) j e.sound
                (omega (arith, ltb→lt j next below, e.acked_next))))
        | inr above ↦ elim (Bool-cases (j == next)) [
          | inl here ↦ inl ((==_iff j next).0 here)
          | inr past ↦
              inr (
                rw above
                  (e.others j (ground (arith, past)) ∙ t.kept j (ground (arith, above, end))))
        ]
      ];
      bytes = omega (arith, e.bytes, t.bytes, no_bytes);
      progress = rw progress refl;
    }

-- ===== src/Tx/Ack/Retire.antt =====
-- core/stream_tx.go, ApplyACK's loop: the ledger is read with the frontier at the loop's sequence.
use smp3_multipath_kit_publi.Base.{
  ℕ, ap, Entries-delete_other, inr, ◌%◌, lookup-delete, Entries-lookup, ◌<◌, Distinct-delete, arith,
  length, ◌^◌, some, pos, ◌∙◌, inl, ◌≡◌, sum_over, sum_over-delete, ◌+◌, delete, if◌then◌else◌, ltb,
  lookup, none, Option-cases, Bool-cases, refl, get_or, Option, suc, subst, length-set, ◌≤◌, zero,
  sym, Entries, lt→ltb, map,
}
use smp3_multipath_kit_publi.Tx.{StreamTxRecord, StreamTxLedger}
use smp3_multipath_kit_publi.Tx.Legs.{release_owner, int_pred}
use smp3_multipath_kit_publi.Tx.Legs.Rows.{release_owner-Counts, weights_other, Counts-share}
use smp3_multipath_kit_publi.Tx.Invariant.{
  IsLedger, owned, owned_bytes, owned_pending, IsSound, IsEntry,
}
use smp3_multipath_kit_publi.Tx.Ack.{retire, retire_range, StreamTxAckResult}

-- The ledger, read as if the frontier were at `k`.
abbrev pub acked_at : ℕ → StreamTxLedger → StreamTxLedger
acked_at k l = record l { acked_next = k }

abbrev without : ℕ → StreamTxLedger → StreamTxLedger
without k l = record l { outstanding = delete k l.outstanding }

-- The ledger's map and ends without the record at the frontier.
without-IsLedger :
    (k : ℕ) (l : StreamTxLedger)
    → IsLedger (acked_at k l)
    → k < l.next_sequence
    → IsLedger (acked_at (k + 1) (without k l))
without-IsLedger k l v h = record {
  distinct = Distinct-delete k l.outstanding v.distinct;
  entries =
      Entries-delete_other (IsEntry k l.next_sequence (length l.ordinary_frames))
        (IsEntry (k + 1) l.next_sequence (length l.ordinary_frames)) k
        (λ j r ne (s, lo, hi, o). (s, omega (arith, ne, lo), hi, o)) l.outstanding v.entries;
  ordered = omega (arith, h);
  complete = λ j lo hi.
      rw (lookup-delete k j l.outstanding) (ground (arith, v.complete j (omega (arith, lo)) hi));
  byte_rows = v.byte_rows;
  pending_rows = v.pending_rows;
  rows = v.rows;
}

-- A record without an owner is in no leg's counts.
unowned-IsSound :
    (k : ℕ) (l : StreamTxLedger) (r : StreamTxRecord)
    → IsSound (acked_at k l)
    → k < l.next_sequence
    → lookup k l.outstanding ≡ some r
    → r.ordinary_owner ≡ none
    → IsSound (acked_at (k + 1) (without k l))
unowned-IsSound k l r v h e own = record {
  ledger = without-IsLedger k l v.ledger h;
  accounts = λ j.
      let (no_frame, no_byte, no_wait) = weights_other r j (rw own refl) in
      let c = Counts-share k l r j v.ledger.distinct e (record {
        frames = (v.accounts j).frames;
        bytes = (v.accounts j).bytes;
        pending = (v.accounts j).pending;
      }) in
      let m = delete k l.outstanding in
      record {
        frames = c.frames ∙ ap pos {y = sum_over (owned j) m} (omega (arith, no_frame));
        bytes =
            c.bytes
            ∙ ap (λ (n : ℕ). n % 2 ^ 64) {y = sum_over (owned_bytes j) m} (omega (arith, no_byte));
        pending =
            c.pending
            ∙ ap (λ (n : ℕ). n % 2 ^ 64) {y = sum_over (owned_pending j) m}
                (omega (arith, no_wait));
      };
}

release_owner-IsLedger :
    (k id : ℕ) (l : StreamTxLedger) (r : StreamTxRecord)
    → IsLedger (acked_at k l)
    → IsLedger (acked_at k (release_owner l id r))
unfolding release_owner
release_owner-IsLedger k id l r v = record {
  distinct = v.distinct;
  entries =
      subst (λ (n : ℕ). Entries (IsEntry k l.next_sequence n) l.outstanding)
        (sym (length-set l.ordinary_frames id (int_pred (get_or l.ordinary_frames id (pos 0)))))
        v.entries;
  ordered = v.ordered;
  complete = v.complete;
  byte_rows =
      length-set l.ordinary_bytes id _ ∙ v.byte_rows ∙ sym (length-set l.ordinary_frames id _);
  pending_rows = elim (Bool-cases r.ordinary_admitted) [
    | inl was ↦ rw was (v.pending_rows ∙ sym (length-set l.ordinary_frames id _))
    | inr not_yet ↦
        rw not_yet (
          length-set l.pending_bytes id _
          ∙ v.pending_rows
          ∙ sym (length-set l.ordinary_frames id _))
  ];
  rows = v.rows ∙ sym (length-set l.ordinary_frames id _);
}

owned-IsSound :
    (k id : ℕ) (l : StreamTxLedger) (r : StreamTxRecord)
    → IsSound (acked_at k l)
    → k < l.next_sequence
    → lookup k l.outstanding ≡ some r
    → r.ordinary_owner ≡ some id
    → id < length l.ordinary_frames
    → IsSound (acked_at (k + 1) (release_owner (without k l) id r))
unfolding release_owner
owned-IsSound k id l r v h e own below = record {
  ledger = release_owner-IsLedger (k + 1) id (without k l) r (without-IsLedger k l v.ledger h);
  accounts = λ j.
      let before = Counts-share k l r j v.ledger.distinct e (record {
        frames = (v.accounts j).frames;
        bytes = (v.accounts j).bytes;
        pending = (v.accounts j).pending;
      }) in
      let c =
        release_owner-Counts (without k l) id r _ _ _ own below v.ledger.byte_rows
          v.ledger.pending_rows j
          (record { frames = before.frames; bytes = before.bytes; pending = before.pending }) in
      record { frames = c.frames; bytes = c.bytes; pending = c.pending };
}

-- The ledger that the loop goes on with after the record.
abbrev released_ledger : StreamTxLedger → StreamTxRecord → StreamTxLedger
released_ledger l r = elim r.ordinary_owner [
  | none ↦ without r.sequence l
  | some id ↦
      if ltb id (length l.ordinary_frames)
      then release_owner (without r.sequence l) id r
      else without r.sequence l
]

released_ledger-IsSound :
    (l : StreamTxLedger) (k : ℕ) (r : StreamTxRecord)
    → IsSound (acked_at k l)
    → lookup k l.outstanding ≡ some r
    → IsSound (acked_at (k + 1) (released_ledger l r))
unfolding release_owner
released_ledger-IsSound l k r v e =
    let (s, lo, hi, o) =
      Entries-lookup (IsEntry k l.next_sequence (length l.ordinary_frames)) k l.outstanding
        v.ledger.entries e in
    elim (Option-cases r.ordinary_owner) [
      | inl own ↦ rw (own, released_ledger, s) (unowned-IsSound k l r v hi e own)
      | inr (id, own) ↦
          let below : id < length l.ordinary_frames = rw own at o in
          rw (own, released_ledger, s, lt→ltb id (length l.ordinary_frames) below)
            (owned-IsSound k id l r v hi e own below)
    ]

abbrev pub payload_size : StreamTxRecord → ℕ
payload_size r = length r.payload

-- What the rounds of the loop from the sequence `k` do.
pub record Retired (rounds k : ℕ) (l l' : StreamTxLedger) (result result' : StreamTxAckResult)
    : Type 0 where
  pub sound : IsSound (acked_at (k + rounds) l')
  pub released : result'.released ≡ result.released + rounds
  pub next_sequence : l'.next_sequence ≡ l.next_sequence
  -- The records from the loop's end on are as they were.
  pub kept : (j : ℕ) → k + rounds ≤ j → lookup j l'.outstanding ≡ lookup j l.outstanding
  pub disposition : result'.disposition ≡ result.disposition
  -- The bytes that left the map are the bytes that the result has counted.
  pub bytes :
      (result'.retired_bytes + sum_over payload_size l'.outstanding) % 2 ^ 64
      ≡ (result.retired_bytes + sum_over payload_size l.outstanding) % 2 ^ 64

released_ledger-frame :
    (l : StreamTxLedger) (r : StreamTxRecord)
    → ((released_ledger l r).next_sequence ≡ l.next_sequence)
      × ((released_ledger l r).outstanding ≡ delete r.sequence l.outstanding)
unfolding release_owner
released_ledger-frame l r = elim (Option-cases r.ordinary_owner) [
  | inl own ↦ rw (own, released_ledger) (refl, refl)
  | inr (id, own) ↦ elim (Bool-cases (ltb id (length l.ordinary_frames))) [
    | inl below ↦ rw (own, below, released_ledger) (refl, refl)
    | inr above ↦ rw (own, above, released_ledger) (refl, refl)
  ]
]

-- One round: the record at the sequence is there, and leaves.
retire-Retired :
    (k : ℕ) (head : Option StreamTxRecord) (now : ℕ) (l : StreamTxLedger) (r : StreamTxRecord)
    (result : StreamTxAckResult)
    → IsSound (acked_at k l)
    → lookup k l.outstanding ≡ some r
    → let after = retire head now r (l, result) in Retired 1 k l after.0 result after.1
unfolding retire
retire-Retired k head now l r result v e =
    let (same_next, map) = released_ledger-frame l r in
    let (s, lo, hi, o) =
      Entries-lookup (IsEntry k l.next_sequence (length l.ordinary_frames)) k l.outstanding
        v.ledger.entries e in
    record {
      sound = released_ledger-IsSound l k r v e;
      released = refl;
      next_sequence = same_next;
      kept = λ j h.
          ap (lookup j) map ∙ lookup-delete r.sequence j l.outstanding ∙ ground (arith, s, h);
      disposition = refl;
      bytes = omega (
        arith,
        sum_over-delete payload_size k l.outstanding {v = r} v.ledger.distinct e,
        ap (sum_over payload_size) map,
        ap (λ (x : ℕ). sum_over payload_size (delete x l.outstanding)) s,
      );
    }

pub retire_range-Retired :
    (rounds k : ℕ) (head : Option StreamTxRecord) (now : ℕ) (l : StreamTxLedger)
    (result : StreamTxAckResult)
    → IsSound (acked_at k l)
    → k + rounds ≤ l.next_sequence
    → let after = retire_range rounds k head now (l, result) in
      Retired rounds k l after.0 result after.1
unfolding retire_range
retire_range-Retired zero k head now l result v h = record {
  sound = subst (λ (x : ℕ). IsSound (acked_at x l)) (omega arith) v;
  released = omega arith;
  next_sequence = refl;
  kept = λ j g. refl;
  disposition = refl;
  bytes = refl;
}
retire_range-Retired (suc rounds) k head now l result v h =
    elim (Option-cases (lookup k l.outstanding)) [
      | inl gone ↦
          absurd (ground (arith, gone, v.ledger.complete k (omega arith) (omega (arith, h))))
      | inr (r, found) ↦
          let (l₁, result₁) = retire head now r (l, result) in
          let one : Retired 1 k l l₁ result result₁ =
            retire-Retired k head now l r result v found in
          let more =
            retire_range-Retired rounds (k + 1) head now l₁ result₁ one.sound
              (omega (arith, h, one.next_sequence)) in
          rw (found, retire_range)
            (record {
              sound =
                  subst
                    (λ (x : ℕ).
                      IsSound (acked_at x (retire_range rounds (k + 1) head now (l₁, result₁)).0))
                    (omega arith) more.sound;
              released = omega (arith, more.released, one.released);
              next_sequence = more.next_sequence ∙ one.next_sequence;
              kept = λ j g. more.kept j (omega (arith, g)) ∙ one.kept j (omega (arith, g));
              disposition = more.disposition ∙ one.disposition;
              bytes = more.bytes ∙ one.bytes;
            })
    ]

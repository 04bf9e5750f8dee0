-- ===== src/Tx/Ack/Effect.antt =====
-- core/stream_tx.go: ApplyACK on each of its branches.
use smp3_multipath_kit_publi.Tx.Ack.Frontier.{Acknowledged, touch-IsSound, finish_ack-Acknowledged}
use smp3_multipath_kit_publi.Tx.Legs.Grow.{ensure-frame, ensure-IsSound}
use smp3_multipath_kit_publi.Base.{
  ℕ, inl, sum_over, inr, lookup, ◌≡◌, Bool-cases, refl, ◌-◌, ◌≤◌, ◌∙◌, ◌<◌, ◌%◌, ◌^◌, none, arith,
  ◌+◌, ltb, true, if◌then◌else◌, ap, ◌||◌, false, leb, List, add64, ◌⊎◌,
}
use smp3_multipath_kit_publi.Tx.{StreamTxRecord, StreamTxLedger, ensure}
use smp3_multipath_kit_publi.Tx.Invariant.{IsSound}
use smp3_multipath_kit_publi.Tx.Ack.{
  StreamTxAckResult, advance_ack, initial_result, advanced, before_rows, retire_range, apply_ack,
  future, no_progress,
}
use smp3_multipath_kit_publi.Tx.Ack.Retire.{Retired, retire_range-Retired, payload_size}

pub advance_ack-Acknowledged :
    (l : StreamTxLedger) (next now : ℕ)
    → IsSound l
    → l.acked_next < next
    → next ≤ l.next_sequence
    → let after = advance_ack l next now in Acknowledged l next now after.0 after.1
unfolding advance_ack
advance_ack-Acknowledged l next now v lo hi =
    let start : StreamTxAckResult = record (initial_result l next advanced 0) {
      per_leg = before_rows l.max_legs l.ordinary_frames l.ordinary_bytes;
    } in
    let rounds = next - l.acked_next in
    let end : l.acked_next + rounds ≡ next = omega (arith, lo) in
    let after =
      retire_range rounds l.acked_next (lookup l.acked_next l.outstanding) now (l, start) in
    let t : Retired rounds l.acked_next l after.0 start after.1 =
      retire_range-Retired rounds l.acked_next (lookup l.acked_next l.outstanding) now l start v
        (omega (arith, hi, end)) in
    finish_ack-Acknowledged l after.0 start after.1 rounds next now t end (omega (arith, lo)) refl
      refl refl

-- On a sound ledger, an ACK above the frontier and at most at the next sequence is reported as
-- advanced. It counts exactly the sequences from the old frontier to `next` as released, the
-- records below `next` are gone, those above are as they were, the frontier is at `next`, the bytes
-- counted as retired are (modulo 2^64) those that left the map, the time of the last progress is
-- now, and the ledger stays sound.
pub apply_ack-Acknowledged :
    (l : StreamTxLedger) (next now : ℕ)
    → IsSound l
    → l.acked_next < next
    → next ≤ l.next_sequence
    → let after = apply_ack l next now in Acknowledged l next now after.0 after.1
unfolding apply_ack
apply_ack-Acknowledged l next now v lo hi =
    let (same_next, same_acked, same_map, same_count) = ensure-frame l in
    let a =
      advance_ack-Acknowledged (ensure l) next now (ensure-IsSound l v)
        (omega (arith, lo, same_acked)) (omega (arith, hi, same_next)) in
    let not_future : ltb (ensure l).next_sequence next ≡ false = ground (arith, hi, same_next) in
    let not_old : leb next (ensure l).acked_next ≡ false = ground (arith, lo, same_acked) in
    rw (not_future, not_old, apply_ack)
      (record {
        sound = a.sound;
        disposition = a.disposition;
        released = omega (arith, a.released, same_acked);
        frontier = a.frontier;
        reported = a.reported;
        next_sequence = a.next_sequence ∙ same_next;
        records = λ j. elim (a.records j) [
          | inl here ↦ inl here
          | inr same ↦ inr (
              same
              ∙ ap (λ (m : List (ℕ × StreamTxRecord)). if ltb j next then none else lookup j m)
                  same_map)
        ];
        bytes =
            a.bytes
            ∙ ap (λ (m : List (ℕ × StreamTxRecord)). sum_over payload_size m % 2 ^ 64) same_map;
        progress = a.progress;
      })

-- An ACK at or below the frontier, or above the next sequence.
pub record Ignored (l : StreamTxLedger) (l' : StreamTxLedger) : Type 0 where
  pub sound : IsSound l'
  pub frontier : l'.acked_next ≡ l.acked_next
  pub next_sequence : l'.next_sequence ≡ l.next_sequence
  pub outstanding : l'.outstanding ≡ l.outstanding

-- On a sound ledger, an ACK at or below the frontier makes no progress, one above the next sequence
-- is reported as future and counted (modulo 2^64). Neither moves the ends or touches a record.
pub apply_ack-Ignored :
    (l : StreamTxLedger) (next now : ℕ)
    → IsSound l
    → (next ≤ l.acked_next) ⊎ (l.next_sequence < next)
    → let after = apply_ack l next now in
      Ignored l after.0
      × (after.1.released ≡ 0)
      × (after.1.disposition ≡ (if ltb l.next_sequence next then future else no_progress))
      × (after.1.future_count
          ≡ (if ltb l.next_sequence next then add64 l.future_ack_count 1 else 0))
unfolding apply_ack
apply_ack-Ignored l next now v (inl old) =
    let (same_next, same_acked, same_map, same_count) = ensure-frame l in
    let within : ltb l.next_sequence next ≡ false = ground (arith, old, v.ledger.ordered) in
    let not_future : ltb (ensure l).next_sequence next ≡ false = rw same_next within in
    let is_old : leb next (ensure l).acked_next ≡ true = ground (arith, old, same_acked) in
    rw (not_future, is_old, within, apply_ack)
      (
        record {
          sound = ensure-IsSound l v;
          frontier = same_acked;
          next_sequence = same_next;
          outstanding = same_map;
        },
        refl,
        refl,
        refl,
      )
apply_ack-Ignored l next now v (inr ahead) =
    let (same_next, same_acked, same_map, same_count) = ensure-frame l in
    let beyond : ltb l.next_sequence next ≡ true = ground (arith, ahead) in
    let is_future : ltb (ensure l).next_sequence next ≡ true = rw same_next beyond in
    rw (is_future, beyond, apply_ack)
      (
        record {
          sound = touch-IsSound (ensure l) _ _ (ensure-IsSound l v);
          frontier = same_acked;
          next_sequence = same_next;
          outstanding = same_map;
        },
        refl,
        refl,
        ap (λ (n : ℕ). add64 n 1) same_count,
      )

-- The ledger stays sound whatever the peer acknowledges.
pub apply_ack-IsSound :
    (l : StreamTxLedger) (next now : ℕ) → IsSound l → IsSound (apply_ack l next now).0
apply_ack-IsSound l next now v =
    elim (Bool-cases (leb next l.acked_next || ltb l.next_sequence next)) [
      | inl refused ↦ (apply_ack-Ignored l next now v (ground (arith, refused))).0.sound
      | inr taken ↦
          (apply_ack-Acknowledged l next now v (ground (arith, taken))
            (ground (arith, taken))).sound
    ]

pub apply_ack-next :
    (l : StreamTxLedger) (next now : ℕ)
    → IsSound l
    → (apply_ack l next now).0.next_sequence ≡ l.next_sequence
apply_ack-next l next now v =
    elim (Bool-cases (leb next l.acked_next || ltb l.next_sequence next)) [
      | inl refused ↦ (apply_ack-Ignored l next now v (ground (arith, refused))).0.next_sequence
      | inr taken ↦
          (apply_ack-Acknowledged l next now v (ground (arith, taken))
            (ground (arith, taken))).next_sequence
    ]

-- ===== src/Rescue/Run/Spent.antt =====
-- core/stream_bounded_rescue.go: a record whose attempt in an epoch is spent.
use smp3_multipath_kit_publi.Rescue.Run.Records.{move-Entries}
use smp3_multipath_kit_publi.Rescue.Run.Moves.{RescueStep-Made}
use smp3_multipath_kit_publi.Rescue.Run.{
  move_close, move_original, move_prune, move_ack, RescueMove, move_start, move_settle, move_add,
  move_take, move_candidate, at_start, move_then, no_move, RescueReach, after_call, RescueMoves,
}
use smp3_multipath_kit_publi.Rescue.{
  RescueEpochKey, same_epoch, has_epoch, StreamRescueBudget, RescueRecordState,
}
use smp3_multipath_kit_publi.Base.{
  Entries, ◌⊎◌, List, ◌≢◌, ℕ, ◌≡◌, ◌∷◌, true, ◌≤◌, arith, refl, false, inr, inl, Entries-weaken,
  leb, ◌&&◌, before, ap,
}
use smp3_multipath_kit_publi.Rescue.Window.{prune}
use smp3_multipath_kit_publi.Rescue.Reserve.{entered, add_reservation}
use smp3_multipath_kit_publi.Rescue.Write.{charge, ack_through, close_budget, take_out, start_write}

-- The sequences up to the last original are the only ones with records.
abbrev pub Known : StreamRescueBudget → Type 0
Known b = Entries (λ s state. (b.has_original ≡ true) × (s ≤ b.last_original)) b.records

-- The record of a sequence that is known, if there still is one, has used the epoch.
pub record Spent (sequence : ℕ) (key : RescueEpochKey) (b : StreamRescueBudget) : Type 0 where
  pub seen : b.has_original ≡ true
  pub passed : sequence ≤ b.last_original
  pub used :
      Entries (λ s state. (s ≢ sequence) ⊎ (has_epoch key state.used_by_epoch ≡ true)) b.records

pub same_epoch_refl : (key : RescueEpochKey) → same_epoch key key ≡ true
same_epoch_refl key = ground arith

has_epoch-grow :
    (key k : RescueEpochKey) (es : List RescueEpochKey)
    → has_epoch key es ≡ true
    → has_epoch key (k ∷ es) ≡ true
unfolding has_epoch
has_epoch-grow key k es h = ground arith

-- `lastOriginal` only grows.
last_original-le :
    (b : StreamRescueBudget) {k : ℕ} {c : StreamRescueBudget}
    → RescueMove b k c
    → b.has_original ≡ true
    → (c.has_original ≡ true) × (b.last_original ≤ c.last_original)
unfolding prune close_budget ack_through entered start_write take_out add_reservation charge
last_original-le b (move_candidate c) h = (h, omega arith)
last_original-le b (move_prune at) h = (h, omega arith)
last_original-le b move_close h = (h, omega arith)
last_original-le b (move_ack next) h = (h, omega arith)
last_original-le b (move_original sequence bytes at later) h = (refl, ground arith)
last_original-le b (move_add e state payload base burst found enough) h = (h, omega arith)
last_original-le b (move_take id r held) h = (h, omega arith)
last_original-le b (move_settle id r accepted at held within) h = ground arith
last_original-le b (move_start id r state held found) h = (h, omega arith)

move-Known :
    (b : StreamRescueBudget) {k : ℕ} {c : StreamRescueBudget} → RescueMove b k c → Known b → Known c
unfolding entered
move-Known b {c = c} move h =
    let later =
      Entries-weaken (λ s state. (b.has_original ≡ true) × (s ≤ b.last_original))
        (λ s state. (c.has_original ≡ true) × (s ≤ c.last_original))
        (λ s state p.
          let (seen, passed) = last_original-le b move p.0 in (seen, omega (arith, passed, p.1)))
        b.records h in
    move-Entries (λ s state. (c.has_original ≡ true) × (s ≤ c.last_original))
      (λ s before after grown p. p) b move
      (λ sequence bytes at fresh same.
        (ap (λ x. x.has_original) same, omega (arith, ap (λ x. x.last_original) same)))
      later

keep-used :
    (sequence : ℕ) (key : RescueEpochKey) (s : ℕ) (before after : RescueRecordState)
    → (after.used_by_epoch ≡ before.used_by_epoch)
      ⊎ ((k : RescueEpochKey) × (after.used_by_epoch ≡ k ∷ before.used_by_epoch))
    → (s ≢ sequence) ⊎ (has_epoch key before.used_by_epoch ≡ true)
    → (s ≢ sequence) ⊎ (has_epoch key after.used_by_epoch ≡ true)
keep-used sequence key s before after grown (inl other) = inl other
keep-used sequence key s before after (inl same) (inr used) = inr (rw same used)
keep-used sequence key s before after (inr (k, more)) (inr used) =
    inr (rw more (has_epoch-grow key k before.used_by_epoch used))

-- A sequence that enters is behind the last one.
entering-new :
    (b : StreamRescueBudget) (entering : ℕ)
    → (b.has_original && leb entering b.last_original) ≡ false
    → b.has_original ≡ true
    → ¬ (entering ≤ b.last_original)
entering-new b entering fresh seen below = ground arith

move-Spent :
    (sequence : ℕ) (key : RescueEpochKey) (b : StreamRescueBudget) {k : ℕ} {c : StreamRescueBudget}
    → RescueMove b k c
    → Spent sequence key b
    → Spent sequence key c
move-Spent sequence key b {c = c} move h =
    let (seen, passed) = last_original-le b move h.seen in
    record {
      seen = seen;
      passed = omega (arith, passed, h.passed);
      used =
          move-Entries (λ s state. (s ≢ sequence) ⊎ (has_epoch key state.used_by_epoch ≡ true))
            (λ s before after grown p. keep-used sequence key s before after grown p) b move
            (λ entering bytes at fresh same.
              inl (λ equal. entering-new b entering fresh h.seen (omega (arith, equal, h.passed))))
            h.used;
    }

moves-Known : {k : ℕ} {b c : StreamRescueBudget} → RescueMoves b k c → Known b → Known c
moves-Known no_move h = h
moves-Known {b = b} (move_then e move moves) h = moves-Known moves (move-Known b move h)

moves-Spent :
    (sequence : ℕ) (key : RescueEpochKey) {k : ℕ} {b c : StreamRescueBudget}
    → RescueMoves b k c
    → Spent sequence key b
    → Spent sequence key c
moves-Spent sequence key no_move h = h
moves-Spent sequence key {b = b} (move_then e move moves) h =
    moves-Spent sequence key moves (move-Spent sequence key b move h)

pub reach-Known :
    {b : StreamRescueBudget}
    → Known b
    → (n : ℕ) {c : StreamRescueBudget} → RescueReach b n c
    → Known c
reach-Known h n at_start = h
reach-Known h n (after_call {n = m} reach step) =
    moves-Known (RescueStep-Made step).2 (reach-Known h m reach)

pub reach-Spent :
    (sequence : ℕ) (key : RescueEpochKey) {b : StreamRescueBudget}
    → Spent sequence key b
    → (n : ℕ) {c : StreamRescueBudget} → RescueReach b n c
    → Spent sequence key c
reach-Spent sequence key h n at_start = h
reach-Spent sequence key h n (after_call {n = m} reach step) =
    moves-Spent sequence key (RescueStep-Made step).2 (reach-Spent sequence key h m reach)

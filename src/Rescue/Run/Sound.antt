-- ===== src/Rescue/Run/Sound.antt =====
-- core/stream_bounded_rescue.go: the accounting of the budget over any sequence of calls.
use smp3_multipath_kit_publi.Rescue.Run.Moves.{RescueStep-Made}
use smp3_multipath_kit_publi.Rescue.Account.{
  IsAccounted, Accounted-add, Accounted-delete, Accounted, split_budget-Within, Accounted-replace,
  Handed, Accounted-more,
}
use smp3_multipath_kit_publi.Rescue.Run.{
  RescueMove, at_start, move_start, move_add, move_ack, move_prune, RescueStep, move_original,
  no_move, RescueReach, move_then, move_take, move_close, move_settle, after_call, move_candidate,
  RescueMoves,
}
use smp3_multipath_kit_publi.Rescue.{
  StreamRescueBudget, RescueRecordState, StreamRescueEvidence, RescueReservation, factor_full,
  new_rescue_budget, BoundedRescueConfig, new_rescue_refused,
}
use smp3_multipath_kit_publi.Base.{
  some, lookup, ◌≡◌, arith, ◌≤◌, ◌+◌, add64, if◌then◌else◌, subst, ℕ, ◌^◌, suc, delete, ◌<◌, ◌-◌,
  ltb, inl, inr, Bool-cases, Entries-lookup, ◌==◌, refl, true, some_injective, ◌∙◌,
}
use smp3_multipath_kit_publi.Rescue.Window.{prune}
use smp3_multipath_kit_publi.Rescue.Reserve.{entered, split_for, add_reservation}
use smp3_multipath_kit_publi.Rescue.Write.{charge, take_out, start_write, close_budget, ack_through}

-- What the carrier took is paid by the base first.
pub paid-le :
    (accepted base burst : ℕ)
    → accepted ≤ base + burst
    → accepted - (if ltb base accepted then base else accepted) ≤ burst
paid-le accepted base burst h = ground arith

module _ {n : ℕ} (b : StreamRescueBudget) (h : IsAccounted n b) where
  take_out-Accounted :
      (id : ℕ) (r : RescueReservation)
      → lookup id b.reservations ≡ some r
      → IsAccounted n (take_out b r id)
  unfolding take_out
  take_out-Accounted id r held =
      let none_paid : b.burst_committed + 0 ≡ b.burst_committed = omega arith in
      subst
        (λ committed.
          Accounted n b.config b.next_reservation (delete id b.reservations)
            (b.base_reserved - r.base_bytes) (b.burst_reserved - r.burst_part) committed)
        none_paid (Accounted-delete h id 0 r held (omega arith))

  settle-Accounted :
      (id : ℕ) (r : RescueReservation) (accepted at : ℕ)
      → lookup id b.reservations ≡ some r
      → accepted ≤ r.reserved_bytes
      → IsAccounted n (take_out (charge b r accepted at) r id)
  unfolding take_out charge
  settle-Accounted id r accepted at held within =
      let parts = (Entries-lookup (Handed b.next_reservation) id b.reservations h.handed held).1 in
      let paid : ℕ = accepted - (if ltb r.base_bytes accepted then r.base_bytes else accepted) in
      let part : paid ≤ r.burst_part =
        paid-le accepted r.base_bytes r.burst_part (omega (arith, parts, within)) in
      let freed = Accounted-delete h id paid r held part in
      let exact : add64 b.burst_committed paid ≡ b.burst_committed + paid =
        omega (arith, freed.limit, freed.burst_fits) in
      elim (Bool-cases (accepted == 0)) [
        | inl nothing_paid ↦ rw (nothing_paid, charge) (take_out-Accounted id r held)
        | inr some_paid ↦ rw (some_paid, charge) (rw exact freed)
      ]

  add_reservation-Accounted :
      (e : StreamRescueEvidence) (state : RescueRecordState) (payload base burst : ℕ)
      → n < 2 ^ 64 - 1
      → split_for b payload ≡ some (base, burst)
      → IsAccounted (suc n) (add_reservation b e state payload base burst)
  unfolding add_reservation
  add_reservation-Accounted e state payload base burst room enough =
      let split = rw h.full at enough in
      let (parts, base_room, burst_room) =
        split_budget-Within b.config b.window_original b.window_accepted b.base_reserved
          b.burst_reserved b.burst_committed payload h.burst_fits h.base_fits h.limit split in
      Accounted-add h _ room parts base_room burst_room

  pub move-Accounted :
      {k : ℕ} {c : StreamRescueBudget} → n + k < 2 ^ 64 → RescueMove b k c → IsAccounted (n + k) c
  unfolding prune close_budget ack_through entered start_write
  move-Accounted room (move_candidate c) = Accounted-more (omega arith) h
  move-Accounted room (move_prune at) = Accounted-more (omega arith) h
  move-Accounted room move_close = Accounted-more (omega arith) h
  move-Accounted room (move_ack next) = Accounted-more (omega arith) h
  move-Accounted room (move_original sequence bytes at later) = Accounted-more (omega arith) h
  move-Accounted room (move_add e state payload base burst found enough) =
      Accounted-more (omega arith)
        (add_reservation-Accounted e state payload base burst (omega arith) enough)
  move-Accounted room (move_take id r held) =
      Accounted-more (omega arith) (take_out-Accounted id r held)
  move-Accounted room (move_settle id r accepted at held within) =
      Accounted-more (omega arith) (settle-Accounted id r accepted at held within)
  move-Accounted room (move_start id r state held found) =
      Accounted-more (omega arith)
        (Accounted-replace h id r (record r { started = true }) held refl refl refl)

moves-Accounted :
    {n k : ℕ} {b c : StreamRescueBudget}
    → IsAccounted n b
    → n + k < 2 ^ 64
    → RescueMoves b k c
    → IsAccounted (n + k) c
moves-Accounted h room no_move = Accounted-more (omega arith) h
moves-Accounted {n = n} {b = b} h room (move_then {k = i} e move moves) =
    let first = move-Accounted b h (omega arith) move in
    Accounted-more (omega arith) (moves-Accounted {n = n + i} first (omega arith) moves)

step-Accounted :
    {n : ℕ} {b c : StreamRescueBudget}
    → IsAccounted n b
    → n + 1 < 2 ^ 64
    → RescueStep b c
    → IsAccounted (suc n) c
step-Accounted {n} {b} {c} h room step =
    let (k, small, moves) = RescueStep-Made step in
    Accounted-more (omega arith) (moves-Accounted h (omega arith) moves)

pub move-config :
    (b : StreamRescueBudget) {k : ℕ} {c : StreamRescueBudget}
    → RescueMove b k c
    → c.config ≡ b.config
unfolding prune close_budget ack_through entered start_write take_out charge add_reservation
move-config b (move_candidate c) = refl
move-config b (move_prune at) = refl
move-config b move_close = refl
move-config b (move_ack next) = refl
move-config b (move_original sequence bytes at later) = refl
move-config b (move_add e state payload base burst found enough) = refl
move-config b (move_take id r held) = refl
move-config b (move_settle id r accepted at held within) = ground arith
move-config b (move_start id r state held found) = refl

pub moves-config : {k : ℕ} {b c : StreamRescueBudget} → RescueMoves b k c → c.config ≡ b.config
moves-config no_move = refl
moves-config {b = b} (move_then e move moves) = moves-config moves ∙ move-config b move

pub new-config :
    (cfg : BoundedRescueConfig) (chunk_bytes : ℕ) {b : StreamRescueBudget}
    → new_rescue_budget cfg chunk_bytes ≡ some b
    → b.config ≡ cfg
unfolding new_rescue_budget
new-config cfg chunk_bytes made = ground arith

pub reach-config :
    {b : StreamRescueBudget} {n : ℕ} {c : StreamRescueBudget}
    → RescueReach b n c
    → c.config ≡ b.config
reach-config at_start = refl
reach-config (after_call reach step) = moves-config (RescueStep-Made step).2 ∙ reach-config reach

new-Accounted :
    (cfg : BoundedRescueConfig) (chunk_bytes : ℕ) {b : StreamRescueBudget}
    → cfg.factor_mode ≡ factor_full
    → chunk_bytes < 2 ^ 64
    → new_rescue_budget cfg chunk_bytes ≡ some b
    → IsAccounted 0 b
unfolding new_rescue_budget new_rescue_refused
new-Accounted cfg chunk_bytes {b} mode fits made =
    elim (Bool-cases (new_rescue_refused cfg chunk_bytes)) [
      | inl refused ↦ cc (rw (refused, new_rescue_budget) at made)
      | inr accepted ↦
          subst (IsAccounted 0) (some_injective (rw (accepted, new_rescue_budget) at made))
            (record {
              full = rw mode refl;
              burst_fits = ground (arith, accepted);
              counted = omega arith;
              distinct = tt;
              handed = tt;
              base_sum = refl;
              burst_sum = refl;
              base_fits = omega arith;
              limit = omega arith;
            })
    ]

reach-Accounted :
    (cfg : BoundedRescueConfig) (chunk_bytes : ℕ) {b : StreamRescueBudget}
    → cfg.factor_mode ≡ factor_full
    → chunk_bytes < 2 ^ 64
    → new_rescue_budget cfg chunk_bytes ≡ some b
    → (n : ℕ) {c : StreamRescueBudget} → n < 2 ^ 64
    → RescueReach b n c
    → IsAccounted n c
reach-Accounted cfg chunk_bytes mode fits made n few at_start =
    new-Accounted cfg chunk_bytes mode fits made
reach-Accounted cfg chunk_bytes mode fits made n few (after_call {n = m} reach step) =
    step-Accounted (reach-Accounted cfg chunk_bytes mode fits made m (omega arith) reach)
      (omega arith) step

-- After any sequence of calls, in the mode with a rolling budget: the bytes that are reserved from the
-- base and from the burst are exactly those of the open reservations, each of which holds its payload
-- in two parts, no two under one id; and what the burst has paid and what it holds are together within
-- its limit. The number of calls is below 2^64, which keeps the ids apart. The configuration stays.
pub RescueReach-IsAccounted :
    (cfg : BoundedRescueConfig) (chunk_bytes n : ℕ) {b c : StreamRescueBudget}
    → cfg.factor_mode ≡ factor_full
    → chunk_bytes < 2 ^ 64
    → n < 2 ^ 64
    → new_rescue_budget cfg chunk_bytes ≡ some b
    → RescueReach b n c
    → IsAccounted n c × (c.config ≡ cfg)
RescueReach-IsAccounted cfg chunk_bytes n mode fits few made reach = (
  reach-Accounted cfg chunk_bytes mode fits made n few reach,
  reach-config reach ∙ new-config cfg chunk_bytes made,
)

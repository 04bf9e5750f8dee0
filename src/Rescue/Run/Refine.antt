-- ===== src/Rescue/Run/Refine.antt =====
-- core/stream_bounded_rescue.go: the burst of the budget as an account of tokens that are held, paid or
-- given back, which knows nothing of records, epochs and reservations.
use smp3_multipath_kit_publi.Path.{zero_id}
use smp3_multipath_kit_publi.Rescue.Run.Moves.{RescueStep-Made}
use smp3_multipath_kit_publi.Rescue.Run.Sound.{
  RescueReach-IsAccounted, paid-le, move-Accounted, move-config,
}
use smp3_multipath_kit_publi.Rescue.Account.{IsAccounted, split_budget-Within, Handed}
use smp3_multipath_kit_publi.Rescue.{
  RescueReservation, StreamRescueBudget, new_rescue_budget, factor_full, BoundedRescueConfig,
}
use smp3_multipath_kit_publi.Rescue.Run.{
  move_candidate, move_start, move_add, move_original, move_prune, move_settle, RescueMove,
  move_ack, move_take, move_close, no_move, move_then, RescueReach, RescueMoves, RescueStep,
  step_revalidate, step_original, step_snapshot, step_reserve, step_close, step_settle, step_begin,
  step_ack, step_release,
}
use smp3_multipath_kit_publi.Base.{
  ◌+◌, arith, ◌≡◌, ◌<◌, ℕ, sum_over-delete, lookup, ◌-◌, ◌^◌, ◌≤◌, subst, some, ◌==◌,
  Entries-lookup, inl, ap, ltb, inr, add64, Bool-cases, if◌then◌else◌, none, not, Option,
  Option-cases,
}
use smp3_multipath_kit_publi.Rescue.Window.{prune}
use smp3_multipath_kit_publi.Rescue.Reserve.{entered, add_reservation}
use smp3_multipath_kit_publi.Rescue.Write.{
  settle, charge, ack_through, start_write, close_budget, take_out,
}

pub record BurstAccount : Type 0 where
  pub held : ℕ
  pub paid : ℕ

-- Tokens are held up to the limit, which is for the whole life of the account; what is held is paid in
-- part, and the rest of it is given back.
pub data AccountStep (limit : ℕ) (a : BurstAccount) : BurstAccount → Type 0 where
  hold :
      (n : ℕ) → a.paid + (a.held + n) ≤ limit → AccountStep limit a (record a { held = a.held + n })
  close_out :
      (n k : ℕ)
      → n ≤ a.held
      → k ≤ n
      → AccountStep limit a (record { held = a.held - n; paid = a.paid + k })

pub data AccountRun (limit : ℕ) : BurstAccount → BurstAccount → Type 0 where
  account_same : {a : BurstAccount} → AccountRun limit a a
  account_then :
      {a b c : BurstAccount} → AccountRun limit a b → AccountStep limit b c → AccountRun limit a c

-- The view of the budget.
abbrev pub account_of : StreamRescueBudget → BurstAccount
account_of b = record { held = b.burst_reserved; paid = b.burst_committed }

run-paid : {limit : ℕ} {a b : BurstAccount} → AccountRun limit a b → a.paid ≤ b.paid
run-paid account_same = omega arith
run-paid (account_then r (hold n room)) = run-paid r
run-paid (account_then r (close_out n k held part)) = omega (arith, run-paid r)

run_trans :
    {limit : ℕ} {a b c : BurstAccount}
    → AccountRun limit a b
    → AccountRun limit b c
    → AccountRun limit a c
run_trans r account_same = r
run_trans r (account_then s step) = account_then (run_trans r s) step

-- A reservation holds no more of the burst than is reserved.
burst_part-le :
    {n : ℕ} (b : StreamRescueBudget) (id : ℕ) (r : RescueReservation)
    → IsAccounted n b
    → lookup id b.reservations ≡ some r
    → r.burst_part ≤ b.burst_reserved
burst_part-le b id r h found =
    omega
      (arith, h.burst_sum, sum_over-delete (λ r. r.burst_part) id b.reservations h.distinct found)

module _ {n : ℕ} (b : StreamRescueBudget) (h : IsAccounted n b) where
  taken-Account :
      (id : ℕ) (r : RescueReservation)
      → lookup id b.reservations ≡ some r
      → AccountRun b.config.burst_bytes (account_of b) (account_of (take_out b r id))
  unfolding take_out
  taken-Account id r found =
      let step : AccountStep b.config.burst_bytes (account_of b) _ =
        close_out r.burst_part 0 (burst_part-le b id r h found) (omega arith) in
      let same : b.burst_committed + 0 ≡ b.burst_committed = omega arith in
      subst
        (λ p.
          AccountRun b.config.burst_bytes (account_of b)
            (record { held = b.burst_reserved - r.burst_part; paid = p }))
        same (account_then account_same step)

  settled-Account :
      (id : ℕ) (r : RescueReservation) (accepted at : ℕ)
      → lookup id b.reservations ≡ some r
      → accepted ≤ r.reserved_bytes
      → AccountRun b.config.burst_bytes
          (account_of b)
          (account_of (take_out (charge b r accepted at) r id))
  unfolding take_out charge
  settled-Account id r accepted at found within =
      let parts = (Entries-lookup (Handed b.next_reservation) id b.reservations h.handed found).1 in
      let paid : ℕ = accepted - (if ltb r.base_bytes accepted then r.base_bytes else accepted) in
      let part : paid ≤ r.burst_part =
        paid-le accepted r.base_bytes r.burst_part (omega (arith, parts, within)) in
      let exact : b.burst_committed + paid ≡ add64 b.burst_committed paid =
        omega (arith, part, burst_part-le b id r h found, h.limit, h.burst_fits) in
      let step : AccountStep b.config.burst_bytes (account_of b) _ =
        close_out r.burst_part paid (burst_part-le b id r h found) part in
      elim (Bool-cases (accepted == 0)) [
        | inl nothing_paid ↦ rw (nothing_paid, charge) (taken-Account id r found)
        | inr some_paid ↦
            rw (some_paid, charge)
              (subst
                (λ p.
                  AccountRun b.config.burst_bytes (account_of b)
                    (record { held = b.burst_reserved - r.burst_part; paid = p }))
                exact (account_then account_same step))
      ]

  move-Account :
      {k : ℕ} {c : StreamRescueBudget}
      → n + k < 2 ^ 64
      → RescueMove b k c
      → AccountRun b.config.burst_bytes (account_of b) (account_of c)
  unfolding prune close_budget ack_through entered start_write add_reservation
  move-Account room (move_candidate c) = account_same
  move-Account room (move_prune at) = account_same
  move-Account room move_close = account_same
  move-Account room (move_ack next) = account_same
  move-Account room (move_original sequence bytes at later) = account_same
  move-Account room (move_add e state payload base burst found enough) =
      let (_, _, burst_room) =
        split_budget-Within b.config b.window_original b.window_accepted b.base_reserved
          b.burst_reserved b.burst_committed payload h.burst_fits h.base_fits h.limit
          (rw h.full at enough) in
      let step : AccountStep b.config.burst_bytes (account_of b) _ = hold burst burst_room in
      let exact : b.burst_reserved + burst ≡ add64 b.burst_reserved burst =
        omega (arith, burst_room, h.burst_fits) in
      subst
        (λ held.
          AccountRun b.config.burst_bytes (account_of b)
            (record { held = held; paid = b.burst_committed }))
        exact (account_then account_same step)
  move-Account room (move_take id r held) = taken-Account id r held
  move-Account room (move_settle id r accepted at held within) =
      settled-Account id r accepted at held within
  move-Account room (move_start id r state held found) = account_same

moves-Account :
    {n k : ℕ} {b c : StreamRescueBudget}
    → IsAccounted n b
    → n + k < 2 ^ 64
    → RescueMoves b k c
    → AccountRun b.config.burst_bytes (account_of b) (account_of c)
moves-Account h room no_move = account_same
moves-Account {n = n} {b = b} {c = d} h room (move_then {k = i} {c = c} e move moves) =
    let kept = move-Accounted b h (omega arith) move in
    let rest = moves-Account {n = n + i} {b = c} kept (omega arith) moves in
    run_trans (move-Account b h (omega arith) move) (
      subst (λ limit. AccountRun limit (account_of c) (account_of d))
        (ap (λ g. g.burst_bytes) (move-config b move)) rest)

-- What a settlement pays of the burst: the bytes that the carrier took, at most those reserved, beyond
-- the base.
abbrev pub settle_pays : ℕ → ℕ → Option RescueReservation → ℕ
settle_pays id accepted none = 0
settle_pays id accepted (some r) =
    if id == 0
    then 0
    else if not r.started
    then 0
    else (if ltb r.reserved_bytes accepted then r.reserved_bytes else accepted) - r.base_bytes

charge-pays :
    {n : ℕ} (b : StreamRescueBudget) (id : ℕ) (r : RescueReservation) (accepted at : ℕ)
    → IsAccounted n b
    → lookup id b.reservations ≡ some r
    → accepted ≤ r.reserved_bytes
    → (charge b r accepted at).burst_committed ≡ b.burst_committed + (accepted - r.base_bytes)
unfolding charge
charge-pays b id r accepted at h found within =
    let parts = (Entries-lookup (Handed b.next_reservation) id b.reservations h.handed found).1 in
    let part = burst_part-le b id r h found in
    let exact : add64 b.burst_committed (accepted - r.base_bytes)
        ≡ b.burst_committed + (accepted - r.base_bytes) =
      omega (arith, parts, within, part, h.limit, h.burst_fits) in
    let paid : accepted - (if ltb r.base_bytes accepted then r.base_bytes else accepted)
        ≡ accepted - r.base_bytes =
      ground arith in
    elim (Bool-cases (accepted == 0)) [
      | inl nothing_paid ↦ rw (nothing_paid, charge) (ground (arith, nothing_paid))
      | inr some_paid ↦ rw (some_paid, charge, paid) exact
    ]

settle-pays :
    {n : ℕ} (b : StreamRescueBudget) (id accepted at : ℕ)
    → IsAccounted n b
    → (settle b id accepted at).0.burst_committed
      ≡ b.burst_committed + settle_pays id accepted (lookup id b.reservations)
unfolding settle take_out prune
settle-pays b id accepted at h = elim (Option-cases (lookup id b.reservations)) [
  | inl missing ↦ rw (missing, settle) (ground arith)
  | inr (r, found) ↦ elim (Bool-cases (id == 0)) [
    | inl zero_id ↦ rw (found, zero_id, settle) (omega arith)
    | inr some_id ↦ elim (Bool-cases (not r.started)) [
      | inl waiting ↦ rw (found, some_id, waiting, settle) (omega arith)
      | inr begun ↦ elim (Bool-cases (ltb r.reserved_bytes accepted)) [
        | inl above ↦
            rw (found, some_id, begun, above, settle)
              (charge-pays b id r r.reserved_bytes at h found (omega arith))
        | inr within ↦
            rw (found, some_id, begun, within, settle)
              (charge-pays b id r accepted at h found (ground (arith, within)))
      ]
    ]
  ]
]

-- The payment of a call that settles.
abbrev pub Pays : {c d : StreamRescueBudget} → RescueStep c d → Type 0
Pays {c} {d} (step_settle id accepted at) =
    d.burst_committed ≡ c.burst_committed + settle_pays id accepted (lookup id c.reservations)
Pays {c} {d} (step_original sequence bytes at) = Unit {0}
Pays {c} {d} (step_reserve e payload at) = Unit {0}
Pays {c} {d} (step_begin id) = Unit {0}
Pays {c} {d} (step_revalidate id current) = Unit {0}
Pays {c} {d} (step_release id) = Unit {0}
Pays {c} {d} (step_ack next) = Unit {0}
Pays {c} {d} step_close = Unit {0}
Pays {c} {d} (step_snapshot at) = Unit {0}

step-Pays : {n : ℕ} {c d : StreamRescueBudget} (step : RescueStep c d) → IsAccounted n c → Pays step
step-Pays {c = c} (step_settle id accepted at) h = settle-pays c id accepted at h
step-Pays (step_original sequence bytes at) h = tt
step-Pays (step_reserve e payload at) h = tt
step-Pays (step_begin id) h = tt
step-Pays (step_revalidate id current) h = tt
step-Pays (step_release id) h = tt
step-Pays (step_ack next) h = tt
step-Pays step_close h = tt
step-Pays (step_snapshot at) h = tt

-- Refinement, call by call: in the mode with a rolling budget, wherever fewer than 2^64 calls have
-- brought a new budget, the next call is a run of the account from what the burst stood at to what it
-- stands at then. The run's steps hold tokens only up to the burst's limit, or pay a part of what is
-- held and give back the rest; so no call takes a payment back, and a call that settles pays exactly
-- the bytes that the carrier took, at most those reserved, beyond the base.
pub RescueStep-AccountRun :
    (cfg : BoundedRescueConfig) (chunk_bytes n : ℕ) {b c d : StreamRescueBudget}
    → cfg.factor_mode ≡ factor_full
    → chunk_bytes < 2 ^ 64
    → n + 1 < 2 ^ 64
    → new_rescue_budget cfg chunk_bytes ≡ some b
    → RescueReach b n c
    → (step : RescueStep c d)
    → AccountRun cfg.burst_bytes (account_of c) (account_of d)
      × (c.burst_committed ≤ d.burst_committed)
      × Pays step
RescueStep-AccountRun cfg chunk_bytes n {c = c} {d = d} mode fits few made reach step =
    let (h, config) =
      RescueReach-IsAccounted cfg chunk_bytes n mode fits (omega arith) made reach in
    let (k, small, moves) = RescueStep-Made step in
    let run =
      subst (λ limit. AccountRun limit (account_of c) (account_of d))
        (ap (λ g. g.burst_bytes) config) (moves-Account h (omega arith) moves) in
    (run, run-paid run, step-Pays step h)

-- ===== src/Rescue/Window.antt =====
-- core/stream_bounded_rescue.go: the rolling window of 60 seconds and its arithmetic.
-- container/heap's Push and Pop are an insertion by time and the head of the list.
use smp3_multipath_kit_publi.Rescue.{RescueByteEvent, BoundedRescueConfig, StreamRescueBudget}
use smp3_multipath_kit_publi.Base.{
  ◌+◌, ◌%◌, u64_mod, ◌==◌, ℕ, ◌^◌, some, ◌-◌, false, leb, ◌*◌, Bool, ltb, ◌∷◌, [], if◌then◌else◌,
  List, is_some, add64, Option, none, ◌/◌,
}

abbrev pub bounded_rescue_window : ℕ
bounded_rescue_window = 60 * 1000000000

abbrev pub max_uint64 : ℕ
max_uint64 = 2 ^ 64 - 1

unfoldable pub saturating_add : ℕ → ℕ → ℕ
saturating_add a b = if ltb (max_uint64 - a) b then max_uint64 else add64 a b

unfoldable pub bounded_rescue_ratio : ℕ → ℕ → ℕ
bounded_rescue_ratio bytes basis_points =
    add64 ((bytes / 10000 * basis_points) % u64_mod)
      ((bytes % 10000 * basis_points) % u64_mod / 10000)

-- event.at.After(now.Add(-window))
abbrev pub in_window : ℕ → RescueByteEvent → Bool
in_window now event = ltb now (event.at + bounded_rescue_window)

-- The events that stay, and the window's bytes. Both loops of `pruneLocked` have this shape.
unfoldable pub prune_events : ℕ → List RescueByteEvent → ℕ → List RescueByteEvent × ℕ
prune_events now [] bytes = ([], bytes)
prune_events now (e ∷ es) bytes =
    let rest = prune_events now es (bytes - e.event_bytes) in
    if in_window now e then (e ∷ es, bytes) else rest

unfoldable pub prune : StreamRescueBudget → ℕ → StreamRescueBudget
prune b now =
    let (originals, original_bytes) = prune_events now b.original_events b.window_original in
    let (accepted, accepted_bytes) = prune_events now b.accepted_events b.window_accepted in
    record b {
      original_events = originals;
      window_original = original_bytes;
      accepted_events = accepted;
      window_accepted = accepted_bytes;
    }

unfoldable pub push_event : RescueByteEvent → List RescueByteEvent → List RescueByteEvent
push_event e [] = e ∷ []
push_event e (f ∷ fs) = let rest = push_event e fs in if ltb e.at f.at then e ∷ f ∷ fs else f ∷ rest

-- The bytes of a reservation from the quota and from the burst, `none` when they do not suffice. A
-- difference that the source guards stops at 0.
unfoldable pub split_budget : BoundedRescueConfig → ℕ → ℕ → ℕ → ℕ → ℕ → ℕ → Option (ℕ × ℕ)
split_budget cfg original accepted base_reserved burst_reserved burst_committed payload =
    let base_quota = bounded_rescue_ratio original cfg.budget_basis_points in
    let base_used = saturating_add accepted base_reserved in
    let base_available = base_quota - base_used in
    let base_debt = base_used - base_quota in
    let burst_left = cfg.burst_bytes - saturating_add burst_committed burst_reserved in
    let burst_available = if leb burst_left base_debt then 0 else burst_left - base_debt in
    if ltb (saturating_add base_available burst_available) payload
    then none
    else if ltb base_available payload
    then some (base_available, payload - base_available)
    else some (payload, 0)

-- `rollingBudgetEligibleLocked`: the sums of the window without pruning.
unfoldable pub window_sum : ℕ → List RescueByteEvent → ℕ → ℕ
window_sum now [] acc = acc
window_sum now (e ∷ es) acc =
    window_sum now es (if in_window now e then saturating_add acc e.event_bytes else acc)

unfoldable pub rolling_budget_eligible : StreamRescueBudget → ℕ → ℕ → Bool
rolling_budget_eligible b payload now =
    if payload == 0
    then false
    else is_some (
        split_budget b.config (window_sum now b.original_events 0)
          (window_sum now b.accepted_events 0) b.base_reserved b.burst_reserved b.burst_committed
          payload)

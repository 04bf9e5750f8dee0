-- ===== src/Rescue/Eligible.antt =====
-- core/stream_bounded_rescue.go: rollingBudgetEligibleLocked against Reserve.
use smp3_multipath_kit_publi.Rescue.Reserve.{split_for}
use smp3_multipath_kit_publi.Rescue.{StreamRescueBudget, is_full, RescueByteEvent}
use smp3_multipath_kit_publi.Base.{
  ℕ, All, ◌^◌, ◌∙◌, is_some, inl, true, ◌≢◌, [], ◌≤◌, ◌+◌, ◌∷◌, inr, List, false, ◌==◌, ◌≡◌, arith,
  ◌<◌, ◌-◌, Bool-cases, refl,
}
use smp3_multipath_kit_publi.Rescue.Window.{
  prune, prune_events, in_window, bounded_rescue_window, rolling_budget_eligible, window_sum,
  saturating_add,
}

abbrev total_bytes : List RescueByteEvent → ℕ
total_bytes [] = 0
total_bytes (e ∷ es) = e.event_bytes + total_bytes es

abbrev IsOrdered : List RescueByteEvent → Type 0
IsOrdered [] = Unit {0}
IsOrdered (e ∷ es) = All (λ f. e.at ≤ f.at) es × IsOrdered es

-- The two windows: their events stand by time, and their counters are the events' sums, which fit.
pub record IsWindow (b : StreamRescueBudget) : Type 0 where
  pub original_ordered : IsOrdered b.original_events
  pub original_sum : b.window_original ≡ total_bytes b.original_events
  pub original_fits : b.window_original < 2 ^ 64
  pub accepted_ordered : IsOrdered b.accepted_events
  pub accepted_sum : b.window_accepted ≡ total_bytes b.accepted_events
  pub accepted_fits : b.window_accepted < 2 ^ 64

saturating-step : (acc n : ℕ) → acc + n < 2 ^ 64 → saturating_add acc n ≡ acc + n
unfolding saturating_add
saturating-step acc n fits = ground arith

-- Behind an event in the window all are in it.
window_sum-recent :
    (now start acc : ℕ) (es : List RescueByteEvent)
    → now < start + bounded_rescue_window
    → All (λ f. start ≤ f.at) es
    → acc + total_bytes es < 2 ^ 64
    → window_sum now es acc ≡ acc + total_bytes es
unfolding window_sum
window_sum-recent now start acc [] recent above fits = omega arith
window_sum-recent now start acc (e ∷ es) recent above fits =
    let inside : in_window now e ≡ true = ground (arith, above.0) in
    rw (inside, saturating-step acc e.event_bytes (omega arith))
      (window_sum-recent now start (acc + e.event_bytes) es recent above.1 (omega arith)
        ∙ omega arith)

-- What the walk sums up is the counter that the pruning leaves.
window_sum-prune :
    (now bytes : ℕ) (es : List RescueByteEvent)
    → IsOrdered es
    → bytes ≡ total_bytes es
    → bytes < 2 ^ 64
    → window_sum now es 0 ≡ (prune_events now es bytes).1
unfolding window_sum prune_events
window_sum-prune now bytes [] sorted sum fits = omega (arith, sum)
window_sum-prune now bytes (e ∷ es) sorted sum fits = elim (Bool-cases (in_window now e)) [
  | inl inside ↦
      rw (inside, window_sum, prune_events, saturating-step 0 e.event_bytes (omega (arith, sum)))
        (window_sum-recent now e.at (0 + e.event_bytes) es (ground (arith, inside)) sorted.0
            (omega (arith, sum))
          ∙ omega (arith, sum))
  | inr outside ↦
      rw (outside, window_sum, prune_events)
        (window_sum-prune now (bytes - e.event_bytes) es sorted.1 (omega (arith, sum))
          (omega (arith, fits)))
]

-- In the full factor mode, for a payload that is not empty and a budget whose windows are in order:
-- the eligibility that an event reports without pruning is the decision that Reserve takes after
-- pruning, so that the bytes can be split if and only if it holds.
pub rolling_budget_eligible-split :
    (b : StreamRescueBudget) (payload now : ℕ)
    → IsWindow b
    → is_full b.config.factor_mode ≡ true
    → payload ≢ 0
    → rolling_budget_eligible b payload now ≡ is_some (split_for (prune b now) payload)
unfolding rolling_budget_eligible prune
rolling_budget_eligible-split b payload now w full some_bytes =
    let filled : (payload == 0) ≡ false = ground arith in
    rw
      (
        filled,
        full,
        window_sum-prune now b.window_original b.original_events w.original_ordered w.original_sum
            w.original_fits,
        window_sum-prune now b.window_accepted b.accepted_events w.accepted_ordered w.accepted_sum
            w.accepted_fits,
      )
      refl

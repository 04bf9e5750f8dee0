-- ===== src/Path/Probe/Fresh.antt =====
-- core/stream_rtt_probe_cache.go: what a round trip that pathFeedbackAt reports rests on.
-- A sample of the list, in the window at `now`, has this round trip.
use smp3_multipath_kit_publi.Path.Probe.Cache.{
  is_bound, leg_at, valid_direction, same_identity, direction_at,
}
use smp3_multipath_kit_publi.Path.Rtt.{StreamPathIdentity, binding_of}
use smp3_multipath_kit_publi.Path.Probe.{RttSample, RttProbeCache}
use smp3_multipath_kit_publi.Path.Probe.Sample.{sorted_rtts, median_rtt, insert_rtt}
use smp3_multipath_kit_publi.Path.Probe.Feedback.{is_recent, path_feedback_at, StreamPathFeedback}
use smp3_multipath_kit_publi.Base.{
  inr, refl, ℕ, [], ◌<◌, Bool-cases, ◌≤◌, ◌-◌, suc, some, ltb, ◌∷◌, length, All, arith, zero,
  get_or, true, inl, List, ◌≡◌, ◌/◌, ◌⊎◌, ◌≢◌, leb, ◌==◌, some_injective, ◌+◌, ◌%◌, Option-cases,
  false, not, ◌||◌, subst,
}

abbrev pub Observed : ℕ → List RttSample → ℕ → Type 0
Observed now [] r = ⊥
Observed now (s ∷ ss) r = ((is_recent now s ≡ true) × (s.rtt ≡ r)) ⊎ Observed now ss r

module _ (P : ℕ → Type 0) where
  get_or-All : (xs : List ℕ) (i d : ℕ) → All P xs → i < length xs → P (get_or xs i d)
  get_or-All [] i d w h = absurd (ground (arith, h))
  get_or-All (x ∷ xs) zero d (p, w) h = p
  get_or-All (x ∷ xs) (suc i) d (p, w) h = get_or-All xs i d w (omega (arith, h))

  insert_rtt-All : (r : ℕ) (xs : List ℕ) → P r → All P xs → All P (insert_rtt r xs)
  unfolding insert_rtt
  insert_rtt-All r [] p w = (p, tt)
  insert_rtt-All r (x ∷ xs) p (q, w) = elim (Bool-cases (ltb r x)) [
    | inl ahead ↦ rw ahead (p, (q, w))
    | inr behind ↦ rw behind (q, insert_rtt-All r xs p w)
  ]

  sorted_rtts-All :
      (now : ℕ) (ss : List RttSample) (sorted : List ℕ)
      → All P sorted
      → ((r : ℕ) → Observed now ss r → P r)
      → All P (sorted_rtts now ss sorted)
  unfolding sorted_rtts
  sorted_rtts-All now [] sorted w each = w
  sorted_rtts-All now (s ∷ ss) sorted w each = elim (Bool-cases (is_recent now s)) [
    | inl recent ↦ rw recent (
        sorted_rtts-All now ss (insert_rtt s.rtt sorted)
          (insert_rtt-All s.rtt sorted (each s.rtt (inl (recent, refl))) w) (λ r o. each r (inr o)))
    | inr old ↦ rw old (sorted_rtts-All now ss sorted w (λ r o. each r (inr o)))
  ]

  median_rtt-Between :
      (xs : List ℕ) {m : ℕ}
      → All P xs
      → median_rtt xs ≡ some m
      → (length xs ≢ 0) × ((low : ℕ) × P low × (low ≤ m)) × ((high : ℕ) × P high × (m ≤ high))
  unfolding median_rtt
  median_rtt-Between [] w e = absurd (ground (arith, e))
  median_rtt-Between (r ∷ rs) {m = m} w e =
      let xs : List ℕ = r ∷ rs in
      let count = length xs in
      let middle = get_or xs (count / 2) 0 in
      let low = get_or xs (count / 2 - 1) 0 in
      let at_middle : P middle = get_or-All xs (count / 2) 0 w (omega arith) in
      let at_low : P low = get_or-All xs (count / 2 - 1) 0 w (omega arith) in
      elim (Bool-cases (count % 2 == 0)) [
        | inl even ↦
            let same : low + (middle - low) / 2 ≡ m = some_injective (rw even at e) in
            elim (Bool-cases (leb low middle)) [
              | inl sorted ↦ (
                omega arith,
                (low, at_low, omega (arith, same)),
                (middle, at_middle, ground (arith, same, sorted)),
              )
              | inr mixed ↦ (
                omega arith,
                (low, at_low, omega (arith, same)),
                (low, at_low, ground (arith, same, mixed)),
              )
            ]
        | inr odd ↦
            let same : middle ≡ m = some_injective (rw odd at e) in
            (
              omega arith,
              (middle, at_middle, omega (arith, same)),
              (middle, at_middle, omega (arith, same)),
            )
      ]

-- Feedback that the scheduler reads is of a leg within the limit that is bound to exactly the
-- identity's session, carrier and generation, and comes from samples published for that identity and
-- direction: at least one, and the round trip lies between those of two samples that are in the
-- window at the time of reading.
pub path_feedback_at-Fresh :
    (c : RttProbeCache) (i : StreamPathIdentity) (now : ℕ) {f : StreamPathFeedback}
    → path_feedback_at c i now ≡ some f
    → (leb (length c.legs) i.leg_id ≡ false)
      × (is_bound (leg_at c i.leg_id) (binding_of i) ≡ true)
      × (f.samples ≢ 0)
      × ((owner : StreamPathIdentity) × (samples : List RttSample) × ((direction_at
              (leg_at c i.leg_id)
              i.direction).published
            ≡ some (owner, samples))
          × (same_identity owner i ≡ true)
          × ((low : ℕ) × Observed now samples low × (low ≤ f.rtt))
          × ((high : ℕ) × Observed now samples high × (f.rtt ≤ high)))
unfolding path_feedback_at
path_feedback_at-Fresh c i now {f} e =
    let leg = leg_at c i.leg_id in
    elim (Bool-cases (leb (length c.legs) i.leg_id || not (valid_direction i.direction))) [
      | inl out ↦ cc (rw (out, path_feedback_at) at e)
      | inr inside ↦ elim (Bool-cases (is_bound leg (binding_of i))) [
        | inr loose ↦ cc (rw (inside, loose, path_feedback_at) at e)
        | inl bound ↦ elim (Option-cases (direction_at leg i.direction).published) [
          | inl nothing ↦ cc (rw (inside, bound, nothing, path_feedback_at) at e)
          | inr ((owner, samples), published) ↦ elim (Bool-cases (same_identity owner i)) [
            | inr other ↦ cc (rw (inside, bound, published, other, path_feedback_at) at e)
            | inl own ↦
                let recent = sorted_rtts now samples [] in
                let all = sorted_rtts-All (Observed now samples) now samples [] tt (λ r o. o) in
                elim (Option-cases (median_rtt recent)) [
                  | inl empty ↦
                      cc (rw (inside, bound, published, own, empty, path_feedback_at) at e)
                  | inr (median, m) ↦
                      let same =
                        some_injective
                          (rw (inside, bound, published, own, m, path_feedback_at) at e) in
                      let (count, low, high) =
                        subst
                          (λ (g : StreamPathFeedback).
                            (g.samples ≢ 0)
                            × ((x : ℕ) × Observed now samples x × (x ≤ g.rtt))
                            × ((x : ℕ) × Observed now samples x × (g.rtt ≤ x)))
                          same (median_rtt-Between (Observed now samples) recent all m) in
                      (
                        ground (arith, inside),
                        bound,
                        count,
                        (owner, samples, published, own, low, high),
                      )
                ]
          ]
        ]
      ]
    ]

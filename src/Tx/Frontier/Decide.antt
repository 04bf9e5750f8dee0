-- ===== src/Tx/Frontier/Decide.antt =====
-- core/stream_repair.go, DecideStreamTXFrontierRepair: when the frontier is rescued, and where not.
use smp3_multipath_kit_publi.Tx.{StreamTxRecord}
use smp3_multipath_kit_publi.Base.{
  some, ◌≢◌, [], refl, arith, false, List, ℕ, is_some, true, ◌∷◌, ◌≡◌, Bool, suc, Option,
  Option-cases, inr, subst, ◌⊎◌, ◌≤◌, inl, zero, none,
}
use smp3_multipath_kit_publi.Tx.Frontier.{
  FrontierCandidate, decide_frontier_repair, first_live, leg_before, rescue,
}
use smp3_multipath_kit_publi.Tx.Repair.{has_leg, count_live}

first_live-some : (live : List Bool) → count_live live ≢ 0 → is_some (first_live live) ≡ true
first_live-some [] h = absurd (h refl)
first_live-some (true ∷ live) h = refl
first_live-some (false ∷ live) h = ground (arith, first_live-some live h)

zero_first : (id : ℕ) → ◌≡◌ {A = Option ℕ} (some 0) (some id) → 0 ≡ id
zero_first id e = ground (arith, e)

first_live-has_leg :
    (live : List Bool) (id : ℕ) → first_live live ≡ some id → has_leg live id ≡ true
first_live-has_leg [] id e = cc
first_live-has_leg (true ∷ live) id e =
    subst (λ (x : ℕ). has_leg (true ∷ live) x ≡ true) (zero_first id e) refl
first_live-has_leg (false ∷ live) zero e = ground (arith, Option-cases (first_live live))
first_live-has_leg (false ∷ live) (suc id) e =
    first_live-has_leg live id (ground (arith, e, Option-cases (first_live live)))

-- A frontier that is due: it is there, no rescue is under way, and its time has passed.
abbrev pub Due : FrontierCandidate → Type 0
Due c = (is_some c.frontier ≡ true) × (c.rescue_in_transit ≡ false) × (c.overdue ≡ true)

-- With one live leg, a due frontier is always rescued, and the leg to avoid is not the live one.
pub decide_frontier_repair-single :
    (c : FrontierCandidate) (live : List Bool)
    → Due c
    → count_live live ≡ 1
    → (id : ℕ) × (has_leg live id ≡ true)
      × (decide_frontier_repair c live ≡ rescue c.frontier (leg_before id))
      × (leg_before id ≢ some id)
unfolding decide_frontier_repair
decide_frontier_repair-single c live (there, quiet, overdue) one =
    elim (Option-cases (first_live live)) [
      | inl gone ↦ absurd (ground (arith, first_live-some live (λ e. omega (arith, e, one)), gone))
      | inr (id, first) ↦ (
        id,
        first_live-has_leg live id first,
        ground (arith, there, quiet, overdue, one, first),
        other id,
      )
    ]
  where
    other : (id : ℕ) → leg_before id ≢ some id
    other zero e = cc
    other (suc id) e = ground (arith, e)

abbrev pub owner_live : List Bool → Option ℕ → Bool
owner_live live none = false
owner_live live (some owner) = has_leg live owner

-- A rescue is decided only for a due frontier and while a leg is live; with more live legs than one
-- the leg to avoid is the frontier's owner, and it is live.
pub decide_frontier_repair-Due :
    (c : FrontierCandidate) (live : List Bool) (record_of : Option StreamTxRecord)
    (avoid : Option ℕ)
    → decide_frontier_repair c live ≡ rescue record_of avoid
    → Due c
      × (record_of ≡ c.frontier)
      × (1 ≤ count_live live)
      × ((count_live live ≡ 1) ⊎ ((avoid ≡ c.owner) × (owner_live live c.owner ≡ true)))
unfolding decide_frontier_repair
decide_frontier_repair-Due c live record_of avoid e =
    ground (arith, e, Option-cases c.owner, Option-cases (first_live live))

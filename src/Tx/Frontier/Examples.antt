-- ===== src/Tx/Frontier/Examples.antt =====
-- core/stream_repair.go and core/stream_tx.go: an overdue frontier, and the probe reference of a frame.
use smp3_multipath_kit_publi.Tx.Frontier.{
  FrontierCandidate, decide_frontier_repair, probe_reference, probe_reference_snapshot, leg_before,
  find, rescue,
}
use smp3_multipath_kit_publi.Tx.Repair.{count_live, has_leg}
use smp3_multipath_kit_publi.Base.{
  ◌∷◌, true, ℕ, ◌⊎◌, subst, some, refl, [], false, List, ◌≢◌, sym, Bool, ◌≡◌, ◌≤◌,
}
use smp3_multipath_kit_publi.Tx.Frontier.Decide.{
  decide_frontier_repair-single, decide_frontier_repair-Due, Due, owner_live,
}
use smp3_multipath_kit_publi.Tx.Frontier.Probe.{probe_reference_snapshot-same, StartKnown}
use smp3_multipath_kit_publi.Tx.Repair.Examples.{second, unsent, second-outstanding}

abbrev overdue_frontier : FrontierCandidate
overdue_frontier = record {
  frontier = some second;
  owner = some 1;
  reference = 6;
  overdue = true;
  rescue_in_transit = false;
}

abbrev one_live : List Bool
one_live = false ∷ true ∷ false ∷ []

abbrev two_live : List Bool
two_live = true ∷ true ∷ []

decide_frontier_repair-single_example :
    (id : ℕ) × (has_leg one_live id ≡ true)
    × (decide_frontier_repair overdue_frontier one_live
        ≡ rescue overdue_frontier.frontier (leg_before id))
    × (leg_before id ≢ some id)
decide_frontier_repair-single_example =
    decide_frontier_repair-single overdue_frontier one_live (refl, refl, refl) refl

decide_frontier_repair-Due_example :
    Due overdue_frontier
    × (some second ≡ overdue_frontier.frontier)
    × (1 ≤ count_live two_live)
    × ((count_live two_live ≡ 1)
        ⊎ ((some 1 ≡ overdue_frontier.owner) × (owner_live two_live overdue_frontier.owner ≡ true)))
unfolding decide_frontier_repair
decide_frontier_repair-Due_example =
    decide_frontier_repair-Due overdue_frontier two_live (some second) (some 1) refl

second-StartKnown : StartKnown (find unsent (some 1))
unfolding find
second-StartKnown = subst StartKnown (sym second-outstanding) (λ e. cc)

probe_reference_snapshot-same_example :
    probe_reference_snapshot unsent (some 1) true ≡ probe_reference unsent (some 1) true
probe_reference_snapshot-same_example =
    probe_reference_snapshot-same unsent (some 1) true second-StartKnown

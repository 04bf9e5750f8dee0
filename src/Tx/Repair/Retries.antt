-- ===== src/Tx/Repair/Retries.antt =====
-- core/stream_repair.go, PlanRetries: which records the plan holds, and in which order.
use smp3_multipath_kit_publi.Tx.Repair.Sorted.{
  sort_candidates-Ascending, Planned, Ascending, Planned-sort_candidates, All-sort_candidates,
}
use smp3_multipath_kit_publi.Tx.{StreamTxRecord, StreamTxLedger}
use smp3_multipath_kit_publi.Base.{
  lookup, ℕ, Distinct, Bool-cases, [], List, ◌∷◌, ◌≡◌, All, ◌⊎◌, inl, Bool, arith, inr, some,
  Absent, refl, ◌==◌, Option-cases, Absent→lookup-none, sym, subst, get_or, none, false,
}
use smp3_multipath_kit_publi.Tx.Repair.{
  RetryCandidate, retry_state, plan_retries, retry_candidates, sort_candidates,
}
use smp3_multipath_kit_publi.Tx.Invariant.{IsSound}

-- A candidate comes from a record of the map.
abbrev pub Chosen : List Bool → List (ℕ × StreamTxRecord) → RetryCandidate → Type 0
Chosen live m c =
    (k : ℕ) × (lookup k m ≡ some c.candidate) × (retry_state live c.candidate ≡ some c)

Chosen-cons :
    (live : List Bool) (k : ℕ) (r : StreamTxRecord) (m : List (ℕ × StreamTxRecord))
    (cs : List RetryCandidate)
    → Absent k m
    → All (Chosen live m) cs
    → All (Chosen live ((k, r) ∷ m)) cs
unfolding lookup
Chosen-cons live k r m [] a h = tt
Chosen-cons live k r m (c ∷ cs) a ((j, e, s), t) =
    ((j, ground (arith, e, Absent→lookup-none k m a), s), Chosen-cons live k r m cs a t)

retry_state-candidate :
    (live : List Bool) (r : StreamTxRecord) (c : RetryCandidate)
    → retry_state live r ≡ some c
    → c.candidate ≡ r
retry_state-candidate live r c e = ground arith

candidates-Chosen :
    (live : List Bool) (m : List (ℕ × StreamTxRecord))
    → Distinct m
    → All (Chosen live m) (retry_candidates live m)
unfolding retry_candidates lookup
candidates-Chosen live [] d = tt
candidates-Chosen live ((k, r) ∷ m) (a, d) =
    let rest = Chosen-cons live k r m (retry_candidates live m) a (candidates-Chosen live m d) in
    elim (Option-cases (retry_state live r)) [
      | inl nothing ↦ rw (nothing, retry_candidates) rest
      | inr (c, made) ↦
          let same = retry_state-candidate live r c made in
          rw (made, retry_candidates)
            (
              (
                k,
                ground (arith, same),
                subst (λ (x : StreamTxRecord). retry_state live x ≡ some c) (sym same) made,
              ),
              rest,
            )
    ]

Planned-first :
    (live : List Bool) (j : ℕ) (x : StreamTxRecord) (m : List (ℕ × StreamTxRecord))
    (c : RetryCandidate)
    → retry_state live x ≡ some c
    → Planned c (retry_candidates live ((j, x) ∷ m))
unfolding retry_candidates
Planned-first live j x m c made = rw (made, retry_candidates) (inl refl)

candidates-Planned :
    (live : List Bool) (m : List (ℕ × StreamTxRecord)) (k : ℕ) (r : StreamTxRecord)
    (c : RetryCandidate)
    → lookup k m ≡ some r
    → retry_state live r ≡ some c
    → Planned c (retry_candidates live m)
unfolding retry_candidates lookup
candidates-Planned live [] k r c e s = cc
candidates-Planned live ((j, x) ∷ m) k r c e s = elim (Bool-cases (j == k)) [
  | inl hit ↦
      let same : r ≡ x = ground (arith, e, hit) in
      Planned-first live j x m c
        (subst (λ (y : StreamTxRecord). retry_state live y ≡ some c) same s)
  | inr miss ↦
      let later = candidates-Planned live m k r c (ground (arith, e, miss)) s in
      elim (Option-cases (retry_state live x)) [
        | inl nothing ↦ rw (nothing, retry_candidates) later
        | inr (d, made) ↦ rw (made, retry_candidates) (inr later)
      ]
]

-- A record that is sent again: it is not the application's, in no transit, and was last sent on no
-- leg or on one that is not live.
abbrev pub Retriable : List Bool → StreamTxRecord → Type 0
Retriable live r =
    (r.local_enqueue ≡ false)
    × (r.in_transit ≡ false)
    × (r.rescue_in_transit ≡ false)
    × ((r.last_sent_leg ≡ none)
        ⊎ ((leg : ℕ) × (r.last_sent_leg ≡ some leg) × (get_or live leg false ≡ false)))

-- A candidate of the map, with the leg to avoid.
abbrev pub FromMap : List Bool → List (ℕ × StreamTxRecord) → RetryCandidate → Type 0
FromMap live m c =
    (k : ℕ) × (lookup k m ≡ some c.candidate)
    × Retriable live c.candidate
    × (c.avoid ≡ c.candidate.last_sent_leg)

Chosen→FromMap :
    (live : List Bool) (m : List (ℕ × StreamTxRecord)) (c : RetryCandidate)
    → Chosen live m c
    → FromMap live m c
Chosen→FromMap live m c (k, found, chosen) =
    let r = c.candidate in
    elim (Option-cases r.last_sent_leg) [
      | inl unsent ↦ (
        k,
        found,
        (ground (arith, chosen), ground (arith, chosen), ground (arith, chosen), inl unsent),
        ground (arith, chosen, unsent),
      )
      | inr (leg, sent) ↦ (
        k,
        found,
        (
          ground (arith, chosen),
          ground (arith, chosen),
          ground (arith, chosen),
          inr (leg, sent, ground (arith, chosen, sent)),
        ),
        ground (arith, chosen, sent),
      )
    ]

All-FromMap :
    (live : List Bool) (m : List (ℕ × StreamTxRecord)) (cs : List RetryCandidate)
    → All (Chosen live m) cs
    → All (FromMap live m) cs
All-FromMap live m [] h = tt
All-FromMap live m (c ∷ cs) (h, t) = (Chosen→FromMap live m c h, All-FromMap live m cs t)

Retriable→chosen :
    (live : List Bool) (r : StreamTxRecord)
    → Retriable live r
    → retry_state live r ≡ some (record { candidate = r; avoid = r.last_sent_leg })
Retriable→chosen live r (a, b, c, inl unsent) = ground (arith, a, b, c, unsent)
Retriable→chosen live r (a, b, c, inr (leg, sent, dead)) = ground (arith, a, b, c, sent, dead)

-- On a sound ledger the retry plan is in the order of the sequences, and each of its candidates is
-- an outstanding record that is not the application's, in no transit or rescue, and was last sent on
-- no leg or on one that is not live; the leg to avoid is the one that it was last sent on.
pub plan_retries-FromMap :
    (l : StreamTxLedger) (live : List Bool)
    → IsSound l
    → Ascending (plan_retries l live) × All (FromMap live l.outstanding) (plan_retries l live)
unfolding plan_retries
plan_retries-FromMap l live v = (
  sort_candidates-Ascending (retry_candidates live l.outstanding),
  All-FromMap live l.outstanding (sort_candidates (retry_candidates live l.outstanding)) (
      All-sort_candidates (Chosen live l.outstanding) (retry_candidates live l.outstanding)
        (candidates-Chosen live l.outstanding v.ledger.distinct)),
)

-- Every outstanding record that is not the application's, in no transit or rescue, and was last sent
-- on no leg or on one that is not live, is in the retry plan, which avoids the leg that it was last
-- sent on.
pub plan_retries-Planned :
    (l : StreamTxLedger) (live : List Bool) (k : ℕ) (r : StreamTxRecord)
    → lookup k l.outstanding ≡ some r
    → Retriable live r
    → Planned (record { candidate = r; avoid = r.last_sent_leg }) (plan_retries l live)
unfolding plan_retries
plan_retries-Planned l live k r e s =
    Planned-sort_candidates _ (retry_candidates live l.outstanding)
      (candidates-Planned live l.outstanding k r _ e (Retriable→chosen live r s))

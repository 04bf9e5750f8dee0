-- ===== src/Tx/Repair/Sorted.antt =====
-- core/stream_repair.go, PlanRetries: the order of the plan, and what sorting keeps.
use smp3_multipath_kit_publi.Base.{
  ℕ, before, Bool-cases, [], List, ◌∷◌, ◌≡◌, All, ◌⊎◌, ltb, inl, arith, inr, ◌≤◌,
}
use smp3_multipath_kit_publi.Tx.Repair.{RetryCandidate, insert_candidate, sort_candidates}

abbrev pub Planned : RetryCandidate → List RetryCandidate → Type 0
Planned c [] = ⊥
Planned c (d ∷ ds) = (c ≡ d) ⊎ Planned c ds

abbrev pub Ascending : List RetryCandidate → Type 0
Ascending [] = Unit {0}
Ascending (c ∷ cs) = All (λ d. c.candidate.sequence ≤ d.candidate.sequence) cs × Ascending cs

All-insert_candidate {ℓ} :
    (P : RetryCandidate → Type ℓ) (c : RetryCandidate) (cs : List RetryCandidate)
    → P c
    → All P cs
    → All P (insert_candidate c cs)
unfolding insert_candidate
All-insert_candidate P c [] p h = (p, tt)
All-insert_candidate P c (d ∷ ds) p (h, t) =
    elim (Bool-cases (ltb d.candidate.sequence c.candidate.sequence)) [
      | inl before ↦ rw before (h, All-insert_candidate P c ds p t)
      | inr after ↦ rw after (p, (h, t))
    ]

pub All-sort_candidates {ℓ} :
    (P : RetryCandidate → Type ℓ) (cs : List RetryCandidate) → All P cs → All P (sort_candidates cs)
unfolding sort_candidates
All-sort_candidates P [] h = tt
All-sort_candidates P (c ∷ cs) (h, t) =
    All-insert_candidate P c (sort_candidates cs) h (All-sort_candidates P cs t)

All-le :
    (n m : ℕ) (cs : List RetryCandidate)
    → n ≤ m
    → All (λ d. m ≤ d.candidate.sequence) cs
    → All (λ d. n ≤ d.candidate.sequence) cs
All-le n m [] h a = tt
All-le n m (c ∷ cs) h (a, t) = (omega (arith, h, a), All-le n m cs h t)

insert_candidate-Ascending :
    (c : RetryCandidate) (cs : List RetryCandidate)
    → Ascending cs
    → Ascending (insert_candidate c cs)
unfolding insert_candidate
insert_candidate-Ascending c [] h = (tt, tt)
insert_candidate-Ascending c (d ∷ ds) (h, t) =
    elim (Bool-cases (ltb d.candidate.sequence c.candidate.sequence)) [
      | inl before ↦ rw before (
        All-insert_candidate (λ x. d.candidate.sequence ≤ x.candidate.sequence) c ds
            (ground (arith, before)) h,
        insert_candidate-Ascending c ds t,
      )
      | inr after ↦
          let le : c.candidate.sequence ≤ d.candidate.sequence = ground (arith, after) in
          rw after ((le, All-le c.candidate.sequence d.candidate.sequence ds le h), (h, t))
    ]

pub sort_candidates-Ascending : (cs : List RetryCandidate) → Ascending (sort_candidates cs)
unfolding sort_candidates
sort_candidates-Ascending [] = tt
sort_candidates-Ascending (c ∷ cs) =
    insert_candidate-Ascending c (sort_candidates cs) (sort_candidates-Ascending cs)

Planned-insert_candidate :
    (x c : RetryCandidate) (cs : List RetryCandidate)
    → (x ≡ c) ⊎ Planned x cs
    → Planned x (insert_candidate c cs)
unfolding insert_candidate
Planned-insert_candidate x c [] h = h
Planned-insert_candidate x c (d ∷ ds) h =
    elim (Bool-cases (ltb d.candidate.sequence c.candidate.sequence)) [
      | inl before ↦ rw before (elim h [
        | inl same ↦ inr (Planned-insert_candidate x c ds (inl same))
        | inr (inl first) ↦ inl first
        | inr (inr later) ↦ inr (Planned-insert_candidate x c ds (inr later))
      ])
      | inr after ↦ rw after h
    ]

pub Planned-sort_candidates :
    (x : RetryCandidate) (cs : List RetryCandidate) → Planned x cs → Planned x (sort_candidates cs)
unfolding sort_candidates
Planned-sort_candidates x [] h = h
Planned-sort_candidates x (c ∷ cs) (inl same) =
    Planned-insert_candidate x c (sort_candidates cs) (inl same)
Planned-sort_candidates x (c ∷ cs) (inr later) =
    Planned-insert_candidate x c (sort_candidates cs) (inr (Planned-sort_candidates x cs later))

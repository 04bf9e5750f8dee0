-- ===== src/Datagram/Once.antt =====
-- core/datagram_engine.go, acceptDatagramID: the ids of a run of datagrams.
use smp3_multipath_kit_publi.Base.{
  arith, true, ◌-◌, ltb, length, lookup, insert, [], ◌⊎◌, ◌<◌, ℕ, if◌then◌else◌, ◌≡◌, ap, suc, List,
  is_some, ◌+◌, none, insert_new, ◌∷◌, ◌≤◌, inr, inl, lookup-insert, All, false, refl, ◌≢◌, subst,
}
use smp3_multipath_kit_publi.Datagram.{
  DedupState, keep_from, remember, DatagramConfig, accept_all, new_dedup, may_be_replicated,
  accept_datagram_id,
}

lookup-keep_from :
    (floor j : ℕ) (m : List (ℕ × Unit {0}))
    → lookup j (keep_from floor m) ≡ (if ltb j floor then none else lookup j m)
unfolding keep_from lookup
lookup-keep_from floor j [] = ground arith
lookup-keep_from floor j ((k, v) ∷ m) = ground (arith, lookup-keep_from floor j m)

module _ (window : ℕ) where
  -- The id is in the map, or below the floor.
  abbrev pub Kept : DedupState → ℕ → Type 0
  Kept s a = (is_some (lookup a s.seen) ≡ true) ⊎ (a + window < s.max_seen)

  -- The greatest id is in the map, unless nothing has been accepted.
  abbrev pub Anchored : DedupState → List ℕ → Type 0
  Anchored s accepted =
      ((s.seen ≡ []) × (accepted ≡ [])) ⊎ (is_some (lookup s.max_seen s.seen) ≡ true)

  length-insert_new :
      (s : DedupState) (id : ℕ)
      → lookup id s.seen ≡ none
      → length (insert id tt s.seen) ≡ suc (length s.seen)
  length-insert_new s id h = ap length (insert_new id tt s.seen h)

  nonempty : (m : List (ℕ × Unit {0})) (k : ℕ) → is_some (lookup k m) ≡ true → 0 < length m
  unfolding lookup
  nonempty [] k h = cc
  nonempty (e ∷ m) k h = omega arith

  remember-lookup :
      (s : DedupState) (id j : ℕ)
      → (lookup j (remember window s id).seen ≡ lookup j (insert id tt s.seen))
        ⊎ ((lookup j (remember window s id).seen ≡ (
              if ltb j ((remember window s id).max_seen - window)
              then none
              else lookup j (insert id tt s.seen)))
            × (window < (remember window s id).max_seen))
  unfolding remember
  remember-lookup s id j =
      ground
        (arith, lookup-keep_from ((remember window s id).max_seen - window) j (insert id tt s.seen))

  remember-max :
      (s : DedupState) (id : ℕ) (accepted : List ℕ)
      → Anchored s accepted
      → lookup id s.seen ≡ none
      → (id ≤ (remember window s id).max_seen)
        × ((accepted ≡ []) ⊎ (s.max_seen ≤ (remember window s id).max_seen))
        × (((remember window s id).max_seen ≡ id)
            ⊎ (((remember window s id).max_seen ≡ s.max_seen)
                × (is_some (lookup s.max_seen s.seen) ≡ true)))
  unfolding remember
  remember-max s id accepted (inl (none_seen, none_yet)) fresh =
      ground (arith, length-insert_new s id fresh, ap length none_seen, none_yet)
  remember-max s id accepted (inr there) fresh =
      ground (arith, length-insert_new s id fresh, nonempty s.seen s.max_seen there)

  -- What was kept is kept.
  Kept-remember :
      (s : DedupState) (id a : ℕ)
      → lookup id s.seen ≡ none
      → s.max_seen ≤ (remember window s id).max_seen
      → Kept s a
      → Kept (remember window s id) a
  Kept-remember s id a fresh grows kept =
      ground (arith, remember-lookup s id a, lookup-insert id a tt s.seen)

  Kept-new : (s : DedupState) (id : ℕ) → Kept (remember window s id) id
  Kept-new s id = ground (arith, remember-lookup s id id, lookup-insert id id tt s.seen)

  Anchored-remember :
      (s : DedupState) (id : ℕ) (accepted : List ℕ)
      → Anchored s accepted
      → lookup id s.seen ≡ none
      → is_some (lookup (remember window s id).max_seen (remember window s id).seen) ≡ true
  Anchored-remember s id accepted h fresh =
      let top = (remember window s id).max_seen in
      ground (
        arith,
        remember-max s id accepted h fresh,
        remember-lookup s id top,
        lookup-insert id top tt s.seen,
      )

-- No id stands twice.
abbrev pub Once : List ℕ → Type 0
Once [] = Unit {0}
Once (x ∷ xs) = All (λ y. y ≢ x) xs × Once xs

module _ (cfg : DatagramConfig) where
  -- The outcome of one datagram that may be replicated.
  accept-cases :
      (s : DedupState) (id size : ℕ)
      → may_be_replicated cfg size ≡ true
      → (accept_datagram_id cfg s id size ≡ (s, false))
        ⊎ ((accept_datagram_id cfg s id size ≡ (remember cfg.dedup_window s id, true))
            × (lookup id s.seen ≡ none)
            × ((length s.seen ≡ 0) ⊎ (s.max_seen ≤ id + cfg.dedup_window)))
  unfolding accept_datagram_id
  accept-cases s id size copied = ground (arith, copied)

  record Remembers (s : DedupState) (accepted : List ℕ) : Type 0 where
    kept : All (Kept cfg.dedup_window s) accepted
    anchored : Anchored cfg.dedup_window s accepted
    once : Once accepted

  Kept-every :
      (s : DedupState) (id : ℕ) (accepted : List ℕ)
      → lookup id s.seen ≡ none
      → s.max_seen ≤ (remember cfg.dedup_window s id).max_seen
      → All (Kept cfg.dedup_window s) accepted
      → All (Kept cfg.dedup_window (remember cfg.dedup_window s id)) accepted
  Kept-every s id [] fresh grows kept = tt
  Kept-every s id (a ∷ accepted) fresh grows (k, kept) = (
    Kept-remember cfg.dedup_window s id a fresh grows k,
    Kept-every s id accepted fresh grows kept,
  )

  -- An id that passes the tests is none of the accepted ones.
  fresh-every :
      (s : DedupState) (id : ℕ) (accepted : List ℕ)
      → lookup id s.seen ≡ none
      → s.max_seen ≤ id + cfg.dedup_window
      → All (Kept cfg.dedup_window s) accepted
      → All (λ a. a ≢ id) accepted
  fresh-every s id [] fresh close kept = tt
  fresh-every s id (a ∷ accepted) fresh close (k, kept) = (
    λ same. elim k [
      | inl there ↦
          let there' : is_some (lookup id s.seen) ≡ true =
            subst (λ (x : ℕ). is_some (lookup x s.seen) ≡ true) same there in
          ground (arith, fresh)
      | inr below ↦ omega (arith, same, below, close)
    ],
    fresh-every s id accepted fresh close kept,
  )

  step-Remembers :
      (s : DedupState) (accepted : List ℕ) (id size : ℕ)
      → may_be_replicated cfg size ≡ true
      → Remembers s accepted
      → let step = accept_datagram_id cfg s id size in
        Remembers step.0 (if step.1 then id ∷ accepted else accepted)
  step-Remembers s accepted id size copied v = elim (accept-cases s id size copied) [
    | inl refused ↦ rw refused v
    | inr (taken, fresh, close) ↦
        let (_, grows, _) = remember-max cfg.dedup_window s id accepted v.anchored fresh in
        rw taken (record {
          kept = (
            Kept-new cfg.dedup_window s id,
            elim grows [
              | inl none_yet ↦ rw none_yet tt
              | inr up ↦ Kept-every s id accepted fresh up v.kept
            ],
          );
          anchored = inr (Anchored-remember cfg.dedup_window s id accepted v.anchored fresh);
          once = (
            elim v.anchored [
              | inl (_, none_yet) ↦ rw none_yet tt
              | inr there ↦
                  fresh-every s id accepted fresh
                    (ground (arith, close, nonempty cfg.dedup_window s.seen s.max_seen there))
                    v.kept
            ],
            v.once,
          );
        })
  ]

  accept_all-Remembers :
      (s : DedupState) (accepted : List ℕ) (packets : List (ℕ × ℕ))
      → All (λ p. may_be_replicated cfg p.1 ≡ true) packets
      → Remembers s accepted
      → let end = accept_all cfg s accepted packets in Remembers end.0 end.1
  unfolding accept_all
  accept_all-Remembers s accepted [] copied v = v
  accept_all-Remembers s accepted ((id, size) ∷ packets) (c, copied) v =
      let step = accept_datagram_id cfg s id size in
      accept_all-Remembers step.0 (if step.1 then id ∷ accepted else accepted) packets copied
        (step-Remembers s accepted id size c v)

  -- When every datagram of a run may have been replicated (in the duplicate mode each one, in the
  -- adaptive mode those up to the threshold), no id is accepted twice, in whatever order and however
  -- late the copies arrive, although the engine forgets ids.
  pub accept_all-Once :
      (packets : List (ℕ × ℕ))
      → All (λ p. may_be_replicated cfg p.1 ≡ true) packets
      → Once (accept_all cfg new_dedup [] packets).1
  accept_all-Once packets copied =
      (accept_all-Remembers new_dedup [] packets copied
        (record { kept = tt; anchored = inl (refl, refl); once = tt })).once

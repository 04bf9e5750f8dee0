-- ===== src/Startup/Decision.antt =====
-- core/stream_startup.go, await: when the gate opens, and for which leg.
use smp3_multipath_kit_publi.Base.{
  Bool, ◌⊎◌, get_or, arith, ◌≡◌, false, List, some, true, none, ◌∙◌, Option, [], refl, ℕ, subst,
  Option-cases, inl, ◌∷◌, inr,
}
use smp3_multipath_kit_publi.Startup.{
  woken, StartupGate, Waiter, AwaitRound, await_round, release, other_ready, set_waiting_state,
  returned, waiting, after_event, mark_terminal_unavailable, timer_fired, leg_up, leg_terminal,
  session_over, StartupEvent, await, notify,
}

-- What a round of await may end with on a gate that is not open.
abbrev pub Decided : StartupGate → Waiter → List Bool → AwaitRound → Type 0
Decided s w live (returned s' (some leg) ok) =
    (leg ≡ s.preferred) × (get_or live leg false ≡ true) × (ok ≡ true) × (s'.released ≡ true)
Decided s w live (returned s' none ok) =
    (get_or live s.preferred false ≡ false)
    × (other_ready s live ≡ true)
    × ((get_or s.terminal s.preferred false ≡ true) ⊎ (s.grace ≡ 0) ⊎ (w.grace_expired ≡ true))
    × (ok ≡ true)
    × (s'.released ≡ true)
Decided s w live (waiting s' w') =
    (get_or live s.preferred false ≡ false)
    × (s'.released ≡ false)
    × ((other_ready s live ≡ false) ⊎ ((w'.timer ≡ true) × (w'.grace_expired ≡ false)))

-- On a gate that is closed, a round of await opens it for the preferred leg exactly when that leg is
-- up; it opens it for any leg only when the preferred one is down, another is up, and the preferred
-- is terminal or the grace is zero or over; and else it waits, with its timer armed if another leg is
-- up.
pub await_round-Decided :
    (s : StartupGate) (w : Waiter) (live : List Bool)
    → s.released ≡ false
    → Decided s w live (await_round s w live)
unfolding await_round release set_waiting_state
await_round-Decided s w live closed = ground (arith, closed)

AwaitRound-cases :
    (r : AwaitRound)
    → ((s : StartupGate) × (leg : Option ℕ) × (ok : Bool) × (r ≡ returned s leg ok))
      ⊎ ((s : StartupGate) × (w : Waiter) × (r ≡ waiting s w))
AwaitRound-cases (returned s leg ok) = inl (s, leg, ok, refl)
AwaitRound-cases (waiting s w) = inr (s, w, refl)

-- What await has made of the gate: it is open exactly when await has returned true, and a leg that
-- it names is the preferred one.
abbrev pub Outcome : ℕ → StartupGate × Option (Option ℕ × Bool) → Type 0
Outcome preferred (s, none) = s.released ≡ false
Outcome preferred (s, some (none, ok)) = s.released ≡ ok
Outcome preferred (s, some (some leg, ok)) = (s.released ≡ ok) × (leg ≡ preferred)

returned-Outcome :
    (s : StartupGate) (w : Waiter) (live : List Bool) (s' : StartupGate) (leg : Option ℕ)
    (ok : Bool)
    → Decided s w live (returned s' leg ok)
    → Outcome s.preferred (s', some (leg, ok))
returned-Outcome s w live s' none ok d = ground arith
returned-Outcome s w live s' (some leg) ok d = ground arith

-- A wait changes neither the preferred leg nor opens the gate.
waiting-preferred :
    (s : StartupGate) (w : Waiter) (live : List Bool) (s' : StartupGate) (w' : Waiter)
    → await_round s w live ≡ waiting s' w'
    → s'.preferred ≡ s.preferred
unfolding await_round release set_waiting_state
waiting-preferred s w live s' w' e = ground (arith, e)

after_event-closed :
    (s : StartupGate) (w : Waiter) (event : StartupEvent) (p : StartupGate × Waiter)
    → s.released ≡ false
    → after_event s w event ≡ some p
    → (p.0.released ≡ false) × (p.0.preferred ≡ s.preferred)
unfolding after_event notify mark_terminal_unavailable
after_event-closed s w session_over p closed e = cc
after_event-closed s w woken p closed e = ground (arith, e)
after_event-closed s w timer_fired p closed e = ground (arith, e)
after_event-closed s w (leg_up id) p closed e = ground (arith, e)
after_event-closed s w (leg_terminal id) p closed e = ground (arith, e)

-- On a gate that is closed, whatever events come: while await waits and when the session ends the
-- gate stays closed, and await returns true exactly when it has opened the gate; a leg that it names
-- is the preferred one.
pub await-Outcome :
    (s : StartupGate) (w : Waiter) (live : List Bool) (events : List (StartupEvent × List Bool))
    → s.released ≡ false
    → Outcome s.preferred (await s w live events)
unfolding await
await-Outcome s w live [] closed =
    let d = await_round-Decided s w live closed in
    elim (AwaitRound-cases (await_round s w live)) [
      | inl (s', leg, ok, e) ↦
          rw (e, await) (returned-Outcome s w live s' leg ok (subst (Decided s w live) e d))
      | inr (s', w', e) ↦ rw (e, await) ((subst (Decided s w live) e d).1)
    ]
await-Outcome s w live ((event, next_live) ∷ events) closed =
    let d = await_round-Decided s w live closed in
    elim (AwaitRound-cases (await_round s w live)) [
      | inl (s', leg, ok, e) ↦
          rw (e, await) (returned-Outcome s w live s' leg ok (subst (Decided s w live) e d))
      | inr (s', w', e) ↦
          let still : s'.released ≡ false = (subst (Decided s w live) e d).1 in
          elim (Option-cases (after_event s' w' event)) [
            | inl over ↦ rw (e, over, await) still
            | inr (p, next) ↦
                let (closed', same) = after_event-closed s' w' event p still next in
                rw (e, next, await)
                  (subst (λ (leg : ℕ). Outcome leg (await p.0 p.1 next_live events))
                    (same ∙ waiting-preferred s w live s' w' e)
                    (await-Outcome p.0 p.1 next_live events closed'))
          ]
    ]

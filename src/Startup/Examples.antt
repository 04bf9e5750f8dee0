-- ===== src/Startup/Examples.antt =====
-- core/stream_startup.go: a gate of two legs whose preferred leg 0 comes up within its grace.
use smp3_multipath_kit_publi.Base.{refl, false, true, List, [], some, pos, ◌≡◌, ◌∷◌, Bool}
use smp3_multipath_kit_publi.Startup.{
  new_startup_gate, mark_terminal_unavailable, StartupGate, after_event, leg_up, await_round,
  StartupEvent, Waiter, set_waiting_state, await, notify, release,
}
use smp3_multipath_kit_publi.Startup.Decision.{await-Outcome, Outcome}

abbrev gate : StartupGate
gate = new_startup_gate 2 0 (pos 300)

abbrev idle : Waiter
idle = record { timer = false; grace_expired = false }

-- Leg 1 is up first, then both legs are.
abbrev events : List (StartupEvent × List Bool)
events = (leg_up 1, false ∷ true ∷ []) ∷ (leg_up 0, true ∷ true ∷ []) ∷ []

gate-closed : gate.released ≡ false
unfolding new_startup_gate
gate-closed = refl

names_preferred : (await gate idle (false ∷ false ∷ []) events).1 ≡ some (some 0, true)
unfolding new_startup_gate await await_round after_event notify mark_terminal_unavailable release
    set_waiting_state
names_preferred = refl

await-Outcome_example : Outcome gate.preferred (await gate idle (false ∷ false ∷ []) events)
await-Outcome_example = await-Outcome gate idle (false ∷ false ∷ []) events gate-closed

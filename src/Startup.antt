-- ===== src/Startup.antt =====
-- core/stream_startup.go: the gate that holds the first data of a stream until the preferred leg is
-- up or its grace has passed. `live` is what hasLeg says of each leg. The timer is armed or not, and
-- the events of `select` are given as a list; telemetry is left out.
pub mod Decision
pub mod Examples
use smp3_multipath_kit_publi.Base.{
  ℕ, Bool, ◌%◌, ◌&&◌, ◌!=◌, some, List, true, length, if◌then◌else◌, ◌==◌, none, replicate, ◌∷◌,
  pos, take, negsuc, false, ltb, set, ℤ, not, get_or, Option, [], suc, ◌*◌, ◌||◌, leb,
}

-- 10 seconds
abbrev pub max_stream_startup_grace : ℕ
max_stream_startup_grace = 10 * 1000000000

pub data StartupState : Type 0 where
  no_data data_waiting_no_leg in_grace state_released : StartupState

pub data ReleaseReason : Type 0 where
  already_attached attached_first arrived_within_grace : ReleaseReason
  terminal_unavailable grace_expired_reason : ReleaseReason

pub record StartupGate : Type 0 where
  pub preferred : ℕ  -- uint8
  pub grace : ℕ
  pub state : StartupState
  pub terminal : List Bool
  pub attached : List Bool
  pub preferred_first : Bool  -- preferredBeforeNonPreferred
  pub released : Bool
  pub grace_started : Bool
  pub reason : Option ReleaseReason

-- newStreamStartupGate for the preferred policy
pub new_startup_gate : ℕ → ℕ → ℤ → StartupGate
new_startup_gate max_active_legs startup_preferred_leg startup_grace = record {
  preferred =
      let preferred : ℕ = startup_preferred_leg % 256 in
      if leb max_active_legs preferred then 0 else preferred;
  grace = elim startup_grace [
    | pos n ↦ if ltb max_stream_startup_grace n then max_stream_startup_grace else n
    | negsuc n ↦ 0
  ];
  state = no_data;
  terminal = replicate max_active_legs false;
  attached = replicate max_active_legs false;
  preferred_first = false;
  released = false;
  grace_started = false;
  reason = none;
}

-- Whether another leg than `preferred` is set; `id` is the number of the first.
abbrev pub other_set : ℕ → ℕ → List Bool → Bool
other_set preferred id [] = false
other_set preferred id (set ∷ legs) = (id != preferred && set) || other_set preferred (suc id) legs

-- notify(id), without the wake-up
pub notify : StartupGate → ℕ → StartupGate
notify s id =
    if s.released || leb (length s.attached) id || get_or s.attached id false then s else record s {
      preferred_first =
          if id == s.preferred && not (other_set s.preferred 0 s.attached)
          then true
          else s.preferred_first;
      attached = set s.attached id true;
    }

pub mark_terminal_unavailable : StartupGate → ℕ → StartupGate × Bool
mark_terminal_unavailable s id =
    if leb (length s.terminal) id || s.released || id != s.preferred
    then (s, false)
    else (record s { terminal = set s.terminal id true }, true)

pub release : StartupGate → ReleaseReason → StartupGate
release s why =
    if s.released
    then s
    else record s { state = state_released; reason = some why; released = true }

abbrev pub preferred_release_reason : StartupGate → ReleaseReason
preferred_release_reason s =
    if s.grace_started
    then arrived_within_grace
    else if s.preferred_first
    then attached_first
    else already_attached

pub set_waiting_state : StartupGate → StartupState → Bool → StartupGate
set_waiting_state s state is_grace =
    if s.released
    then s
    else record s { state = state; grace_started = if is_grace then true else s.grace_started }

-- The variables of await.
pub record Waiter : Type 0 where
  pub timer : Bool
  pub grace_expired : Bool

-- One round of await up to its select: a return, or the state in which it waits.
pub data AwaitRound : Type 0 where
  returned : StartupGate → Option ℕ → Bool → AwaitRound
  waiting : StartupGate → Waiter → AwaitRound

abbrev pub other_ready : StartupGate → List Bool → Bool
other_ready s live = other_set s.preferred 0 (take (length s.attached) live)

pub await_round : StartupGate → Waiter → List Bool → AwaitRound
await_round s w live =
    let other = other_ready s live in
    if s.released
    then returned s none true
    else if get_or live s.preferred false
    then returned (release s (preferred_release_reason s)) (some s.preferred) true
    else if other && get_or s.terminal s.preferred false
    then returned (release s terminal_unavailable) none true
    else if other && (s.grace == 0 || w.grace_expired)
    then returned (release s grace_expired_reason) none true
    else if not other
    then waiting (set_waiting_state s data_waiting_no_leg false)
        (record { timer = false; grace_expired = false })
    else if w.timer
    then waiting s w
    else waiting (set_waiting_state s in_grace true)
        (record { timer = true; grace_expired = w.grace_expired })

-- What wakes the select: the end of the session, a leg that comes up, one that is marked terminal, any
-- other wake-up, and the timer.
pub data StartupEvent : Type 0 where
  session_over woken timer_fired : StartupEvent
  leg_up leg_terminal : ℕ → StartupEvent

-- The wait after an event, or none at the session's end. A timer that is not armed cannot fire.
pub after_event : StartupGate → Waiter → StartupEvent → Option (StartupGate × Waiter)
unfolding notify mark_terminal_unavailable
after_event s w session_over = none
after_event s w woken = some (s, w)
after_event s w timer_fired =
    some (s, if w.timer then record { timer = false; grace_expired = true } else w)
after_event s w (leg_up id) = some (notify s id, w)
after_event s w (leg_terminal id) = some ((mark_terminal_unavailable s id).0, w)

-- await on the events that come, each with the legs that are up at the next round: the gate, and what
-- await returns, or none while it waits for more events.
pub await :
    StartupGate
    → Waiter
    → List Bool
    → List (StartupEvent × List Bool)
    → StartupGate × Option (Option ℕ × Bool)
await s w live [] = elim (await_round s w live) [
  | returned s' leg ok ↦ (s', some (leg, ok))
  | waiting s' w' ↦ (s', none)
]
await s w live ((event, next_live) ∷ events) = elim (await_round s w live) [
  | returned s' leg ok ↦ (s', some (leg, ok))
  | waiting s' w' ↦ elim (after_event s' w' event) [
    | none ↦ (s', some (none, false))
    | some p ↦ await p.0 p.1 next_live events
  ]
]

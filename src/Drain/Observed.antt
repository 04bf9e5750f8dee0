-- ===== src/Drain/Observed.antt =====
-- core/stream_coordinated_drain.go: when an endpoint has seen its target empty, and when it has retired
-- it.
-- The target is the current leg and open, drains, and holds nothing back.
use smp3_multipath_kit_publi.Drain.Flags.{When}
use smp3_multipath_kit_publi.Drain.{
  DrainTarget, DrainEndpoint, place_absent, TargetPlace, is_current, place_replaced, note_ready,
  target_ready, place_current, may_retire,
}
use smp3_multipath_kit_publi.Drain.Heard.{handle_response-Heard, When-left}
use smp3_multipath_kit_publi.Drain.System.{
  DrainSystem, drain_next, drain_start, DrainStep, DrainReach, first_announce, second_engine,
  first_engine, first_send_commit, deliver_first, second_abandon, first_retire, second_respond,
  first_commit, first_abandon, deliver_second, first_ready, second_retire, first_announced,
  second_ready,
}
use smp3_multipath_kit_publi.Base.{
  false, ◌≡◌, true, Bool-cases, inr, subst, Bool, ◌⊎◌, refl, arith, inl, sym,
}

pub record IsQuiet (t : DrainTarget) : Type 0 where
  pub still_open : t.leg_closed ≡ false
  pub in_place : t.place ≡ place_current
  pub is_draining : t.draining ≡ true
  pub nothing_queued : (t.send_queued ≡ 0) × (t.rescue_queued ≡ 0)
  pub not_writing : t.writing ≡ false
  pub all_acknowledged : t.tx_outstanding ≡ 0
  pub nothing_received : t.pending_depth ≡ 0
  pub nothing_fed : t.feeder_held ≡ 0

-- Its carrier is agreed to go: the other end has acknowledged that, or has asked for it.
pub record IsSettled (ep : DrainEndpoint) : Type 0 where
  pub quiet : IsQuiet ep.target
  pub settled : (ep.op.commit_ack ≡ true) ⊎ (ep.op.commit_requested ≡ true)

current→place : (p : TargetPlace) → is_current p ≡ true → p ≡ place_current
current→place place_current e = refl
current→place place_absent e = absurd (ground (arith, e))
current→place place_replaced e = absurd (ground (arith, e))

target_ready→IsQuiet : (t : DrainTarget) → target_ready t ≡ true → IsQuiet t
unfolding target_ready
target_ready→IsQuiet t e = record {
  still_open = ground (arith, e);
  in_place = current→place t.place (ground (arith, e));
  is_draining = ground (arith, e);
  nothing_queued = ground (arith, e);
  not_writing = ground (arith, e);
  all_acknowledged = ground (arith, e);
  nothing_received = ground (arith, e);
  nothing_fed = ground (arith, e);
}

-- A state of the run from s to t has had P.
pub record Past (s t : DrainSystem) (P : DrainSystem → Type 0) : Type 0 where
  pub moment : DrainSystem
  pub reached : DrainReach s moment
  pub onward : DrainReach moment t
  pub fact : P moment

-- A flag that only rises where P holds.
past_when :
    (P : DrainSystem → Type 0) (flag : DrainSystem → Bool)
    → ((t u : DrainSystem) → DrainStep t u → When (flag u) ((flag t ≡ true) ⊎ P t))
    → (s : DrainSystem) {t : DrainSystem} → flag s ≡ false
    → DrainReach s t
    → When (flag t) (Past s t P)
past_when P flag rises s off drain_start = inl off
past_when P flag rises s {t = u} off (drain_next {t = t} reach step) = elim (rises t u step) [
  | inl still_off ↦ inl still_off
  | inr (inr now) ↦
      inr (record { moment = t; reached = reach; onward = drain_next drain_start step; fact = now })
  | inr (inl earlier) ↦ elim (past_when P flag rises s off reach) [
    | inl off ↦ absurd (ground (arith, off, earlier))
    | inr past ↦ inr (record {
      moment = past.moment;
      reached = past.reached;
      onward = drain_next past.onward step;
      fact = past.fact;
    })
  ]
]

-- What a step may have raised.
record Observes (t u : DrainSystem) : Type 0 where
  ready1 : When u.first.op.local_ready ((t.first.op.local_ready ≡ true) ⊎ IsQuiet t.first.target)
  ready2 : When u.second.op.local_ready ((t.second.op.local_ready ≡ true) ⊎ IsQuiet t.second.target)
  gone1 : When u.first.retired ((t.first.retired ≡ true) ⊎ IsSettled t.first)
  gone2 : When u.second.retired ((t.second.retired ≡ true) ⊎ IsSettled t.second)

When-same : (a b : Bool) (P : Type 0) → b ≡ a → When b ((a ≡ true) ⊎ P)
When-same a b P e = subst (λ (c : Bool). When c ((a ≡ true) ⊎ P)) (sym e) (When-left a P)

keeps :
    (t u : DrainSystem)
    → u.first.op.local_ready ≡ t.first.op.local_ready
    → u.second.op.local_ready ≡ t.second.op.local_ready
    → u.first.retired ≡ t.first.retired
    → u.second.retired ≡ t.second.retired
    → Observes t u
keeps t u a b c d = record {
  ready1 = When-same _ _ _ a;
  ready2 = When-same _ _ _ b;
  gone1 = When-same _ _ _ c;
  gone2 = When-same _ _ _ d;
}

note_ready-noted :
    (ep : DrainEndpoint)
    → When (note_ready ep).op.local_ready ((ep.op.local_ready ≡ true) ⊎ IsQuiet ep.target)
      × ((note_ready ep).retired ≡ ep.retired)
unfolding note_ready
note_ready-noted ep = elim (Bool-cases (target_ready ep.target)) [
  | inl quiet ↦ rw (quiet, note_ready) (inr (inr (target_ready→IsQuiet ep.target quiet)), refl)
  | inr busy ↦ rw (busy, note_ready) (When-left ep.op.local_ready _, refl)
]

may_retire→IsSettled : (ep : DrainEndpoint) → may_retire ep ≡ true → IsSettled ep
unfolding may_retire
may_retire→IsSettled ep e = record {
  quiet = target_ready→IsQuiet ep.target (ground (arith, e));
  settled = ground (arith, e);
}

step-Observes : (t : DrainSystem) {u : DrainSystem} → DrainStep t u → Observes t u
step-Observes t (first_engine target acked) = keeps t _ refl refl refl refl
step-Observes t (second_engine target acked) = keeps t _ refl refl refl refl
step-Observes t first_ready =
    let (noted, same) = note_ready-noted t.first in
    record {
      ready1 = noted;
      ready2 = When-left t.second.op.local_ready _;
      gone1 = When-same _ _ _ same;
      gone2 = When-left t.second.retired _;
    }
step-Observes t second_ready =
    let (noted, same) = note_ready-noted t.second in
    record {
      ready1 = When-left t.first.op.local_ready _;
      ready2 = noted;
      gone1 = When-left t.first.retired _;
      gone2 = When-same _ _ _ same;
    }
step-Observes t (first_announce may valid) = keeps t _ refl refl refl refl
step-Observes t (first_abandon why) = keeps t _ refl refl refl refl
step-Observes t (second_abandon why) = keeps t _ refl refl refl refl
step-Observes t first_announced = keeps t _ refl refl refl refl
step-Observes t (first_commit may) = keeps t _ refl refl refl refl
step-Observes t (first_send_commit sent valid) = keeps t _ refl refl refl refl
step-Observes t (second_respond valid) = keeps t _ refl refl refl refl
step-Observes t (deliver_first m later earlier e from) =
    let (heard, _, gone) = handle_response-Heard m t.first in
    keeps t _ heard.same_ready refl gone refl
step-Observes t (deliver_second m later earlier e from) =
    let (heard, _, gone) = handle_response-Heard m t.second in
    keeps t _ refl heard.same_ready refl gone
step-Observes t (first_retire may) = record {
  ready1 = When-left t.first.op.local_ready _;
  ready2 = When-left t.second.op.local_ready _;
  gone1 = inr (inr (may_retire→IsSettled t.first may));
  gone2 = When-left t.second.retired _;
}
step-Observes t (second_retire may) = record {
  ready1 = When-left t.first.op.local_ready _;
  ready2 = When-left t.second.op.local_ready _;
  gone1 = When-left t.first.retired _;
  gone2 = inr (inr (may_retire→IsSettled t.second may));
}

-- Where the flags of a run come from, if they are off at its start.
pub reach-ready1 :
    (s : DrainSystem) {t : DrainSystem}
    → s.first.op.local_ready ≡ false
    → DrainReach s t
    → When t.first.op.local_ready (Past s t (λ u. IsQuiet u.first.target))
reach-ready1 s off reach =
    past_when (λ u. IsQuiet u.first.target) (λ u. u.first.op.local_ready)
      (λ t u step. (step-Observes t step).ready1) s off reach

pub reach-ready2 :
    (s : DrainSystem) {t : DrainSystem}
    → s.second.op.local_ready ≡ false
    → DrainReach s t
    → When t.second.op.local_ready (Past s t (λ u. IsQuiet u.second.target))
reach-ready2 s off reach =
    past_when (λ u. IsQuiet u.second.target) (λ u. u.second.op.local_ready)
      (λ t u step. (step-Observes t step).ready2) s off reach

pub reach-retired1 :
    (s : DrainSystem) {t : DrainSystem}
    → s.first.retired ≡ false
    → DrainReach s t
    → When t.first.retired (Past s t (λ u. IsSettled u.first))
reach-retired1 s off reach =
    past_when (λ u. IsSettled u.first) (λ u. u.first.retired)
      (λ t u step. (step-Observes t step).gone1) s off reach

pub reach-retired2 :
    (s : DrainSystem) {t : DrainSystem}
    → s.second.retired ≡ false
    → DrainReach s t
    → When t.second.retired (Past s t (λ u. IsSettled u.second))
reach-retired2 s off reach =
    past_when (λ u. IsSettled u.second) (λ u. u.second.retired)
      (λ t u step. (step-Observes t step).gone2) s off reach

-- ===== src/Drain/Agreed.antt =====
-- core/stream_coordinated_drain.go: what both endpoints have agreed on when one of them retires the
-- carrier.
use smp3_multipath_kit_publi.Drain.Observed.{
  reach-ready1, IsQuiet, IsSettled, reach-retired1, Past, reach-ready2, reach-retired2,
}
use smp3_multipath_kit_publi.Drain.Delivered.{deliver2-Agrees, deliver1-Agrees}
use smp3_multipath_kit_publi.Drain.Heard.{When-left}
use smp3_multipath_kit_publi.Drain.Flags.{
  DrainFlags, Agrees, Rises, When_refl, All-Speaks, flags_of, When, Speaks, Consistent, become,
}
use smp3_multipath_kit_publi.Drain.{
  StreamDrainOperation, may_announce, target_ready, response_kind, make_drain_message, can_commit,
  may_retire, note_ready,
}
use smp3_multipath_kit_publi.Path.Drain.{StreamDrainMessage, drain_ready, drain_commit}
use smp3_multipath_kit_publi.Drain.System.{
  DrainSystem, first_send_commit, first_announce, second_retire, deliver_first, first_commit,
  first_retire, DrainStep, second_engine, first_announced, second_ready, deliver_second,
  second_respond, first_ready, first_engine, drain_next, IsFresh, DrainReach, drain_start,
  second_abandon, first_abandon, Foreign,
}
use smp3_multipath_kit_publi.Base.{
  ◌≡◌, List, refl, Bool, Bool-cases, true, arith, inr, ◌⊎◌, inl, All, ◌∷◌, [],
}

-- One flag of readiness, commitment or retirement.
set_flags :
    (f : DrainFlags) (sent : List StreamDrainMessage) (ready1 ready2 commit1 gone1 gone2 : Bool)
    → When f.ready1 (ready1 ≡ true)
    → When f.ready2 (ready2 ≡ true)
    → When commit1 ((f.commit1 ≡ true) ⊎ ((f.ready1 ≡ true) × (f.peer1 ≡ true)))
    → When f.commit1 (commit1 ≡ true)
    → When gone1 ((f.gone1 ≡ true) ⊎ (f.ack1 ≡ true))
    → When gone2 ((f.gone2 ≡ true) ⊎ (f.request2 ≡ true))
    → Agrees f sent
    → Agrees
        (record f {
          ready1 = ready1;
          ready2 = ready2;
          commit1 = commit1;
          gone1 = gone1;
          gone2 = gone2;
        })
        sent
set_flags f sent ready1 ready2 commit1 gone1 gone2 r1 r2 c k g1 g2 (h, says) =
    let g : DrainFlags = record f {
      ready1 = ready1;
      ready2 = ready2;
      commit1 = commit1;
      gone1 = gone1;
      gone2 = gone2;
    } in
    let rises : Rises f g = record {
      same_role1 = refl;
      same_role2 = refl;
      same_id1 = refl;
      same_id2 = refl;
      same_counter1 = refl;
      same_counter2 = refl;
      rise_ready1 = r1;
      rise_ready2 = r2;
      rise_commit1 = k;
      rise_request2 = When_refl f.request2;
    } in
    (become f ready1 ready2 commit1 gone1 gone2 r1 r2 c k g1 g2 h, All-Speaks f g sent rises says)

-- A message that a step sends says what is so.
speaks1 :
    (f : DrainFlags) (m : StreamDrainMessage)
    → Consistent f
    → m.sender_role ≡ f.role1
    → ((m.kind ≡ drain_ready) × (f.ready1 ≡ true)) ⊎ ((m.kind ≡ drain_commit) × (f.commit1 ≡ true))
    → Speaks f m
speaks1 f m h from says = record {
  ready_from1 = ground arith;
  commit_from1 = ground arith;
  ready_from2 = ground (arith, h.roles);
  ack_from2 = ground (arith, h.roles);
}

speaks2 :
    (f : DrainFlags) (s : StreamDrainOperation) (m : StreamDrainMessage)
    → Consistent f
    → m.sender_role ≡ f.role2
    → m.kind ≡ response_kind s
    → s.local_ready ≡ f.ready2
    → s.commit_requested ≡ f.request2
    → Speaks f m
unfolding response_kind
speaks2 f s m h from kind ready request = record {
  ready_from1 = ground (arith, h.roles);
  commit_from1 = ground (arith, h.roles);
  ready_from2 = ground arith;
  ack_from2 = ground arith;
}

step-Agrees :
    (s : DrainSystem) {t : DrainSystem}
    → DrainStep s t
    → Agrees (flags_of s) s.sent
    → Agrees (flags_of t) t.sent
unfolding note_ready make_drain_message may_announce can_commit may_retire
step-Agrees s (first_engine t acked) h = h
step-Agrees s (second_engine t acked) h = h
step-Agrees s first_ready h = elim (Bool-cases (target_ready s.first.target)) [
  | inl quiet ↦
      rw (quiet, note_ready)
        (set_flags (flags_of s) s.sent true s.second.op.local_ready s.first.op.commit_sent
          s.first.retired s.second.retired (inr refl) (When_refl s.second.op.local_ready)
          (When-left s.first.op.commit_sent _) (When_refl s.first.op.commit_sent)
          (When-left s.first.retired _) (When-left s.second.retired _) h)
  | inr busy ↦ rw (busy, note_ready) h
]
step-Agrees s second_ready h = elim (Bool-cases (target_ready s.second.target)) [
  | inl quiet ↦
      rw (quiet, note_ready)
        (set_flags (flags_of s) s.sent s.first.op.local_ready true s.first.op.commit_sent
          s.first.retired s.second.retired (When_refl s.first.op.local_ready) (inr refl)
          (When-left s.first.op.commit_sent _) (When_refl s.first.op.commit_sent)
          (When-left s.first.retired _) (When-left s.second.retired _) h)
  | inr busy ↦ rw (busy, note_ready) h
]
step-Agrees s (first_announce may valid) (h, says) =
    (h, (speaks1 (flags_of s) _ h refl (inl (refl, ground arith)), says))
step-Agrees s (first_abandon why) h = h
step-Agrees s (second_abandon why) h = h
step-Agrees s first_announced h = h
step-Agrees s (first_commit may) h =
    set_flags (flags_of s) s.sent s.first.op.local_ready s.second.op.local_ready true
      s.first.retired s.second.retired (When_refl s.first.op.local_ready)
      (When_refl s.second.op.local_ready) (inr (inr (ground arith))) (inr refl)
      (When-left s.first.retired _) (When-left s.second.retired _) h
step-Agrees s (first_send_commit done valid) (h, says) =
    (h, (speaks1 (flags_of s) _ h refl (inr (refl, done)), says))
step-Agrees s (second_respond valid) (h, says) =
    (h, (speaks2 (flags_of s) s.second.op _ h refl refl refl refl, says))
step-Agrees s (deliver_first m later earlier e from) h = deliver1-Agrees s m later earlier e from h
step-Agrees s (deliver_second m later earlier e from) h = deliver2-Agrees s m later earlier e from h
step-Agrees s (first_retire may) h =
    set_flags (flags_of s) s.sent s.first.op.local_ready s.second.op.local_ready
      s.first.op.commit_sent true s.second.retired (When_refl s.first.op.local_ready)
      (When_refl s.second.op.local_ready) (When-left s.first.op.commit_sent _)
      (When_refl s.first.op.commit_sent) (inr (inr (ground (arith, h.0.starts))))
      (When-left s.second.retired _) h
step-Agrees s (second_retire may) h =
    set_flags (flags_of s) s.sent s.first.op.local_ready s.second.op.local_ready
      s.first.op.commit_sent s.first.retired true (When_refl s.first.op.local_ready)
      (When_refl s.second.op.local_ready) (When-left s.first.op.commit_sent _)
      (When_refl s.first.op.commit_sent) (When-left s.first.retired _)
      (inr (inr (ground (arith, h.0.starts)))) h

reach-Agrees :
    (s : DrainSystem) {t : DrainSystem}
    → Agrees (flags_of s) s.sent
    → DrainReach s t
    → Agrees (flags_of t) t.sent
reach-Agrees s h drain_start = h
reach-Agrees s h (drain_next {t = t} reach step) = step-Agrees t step (reach-Agrees s h reach)

-- By a state t of the run from s, each endpoint has noted that it is ready and had seen its target
-- quiet before, the initiator has committed, and the responder has taken the commitment up.
pub record BothReady (s t : DrainSystem) : Type 0 where
  pub initiator_ready : t.first.op.local_ready ≡ true
  pub initiator_quiet : Past s t (λ u. IsQuiet u.first.target)
  pub responder_ready : t.second.op.local_ready ≡ true
  pub responder_quiet : Past s t (λ u. IsQuiet u.second.target)
  pub committed : t.first.op.commit_sent ≡ true
  pub taken_up : t.second.op.commit_requested ≡ true

fresh-Speaks :
    (f : DrainFlags) (sent : List StreamDrainMessage)
    → All (λ m. Foreign f.id1 f.counter1 m × Foreign f.id2 f.counter2 m) sent
    → All (Speaks f) sent
fresh-Speaks f [] h = tt
fresh-Speaks f (m ∷ sent) ((a, b), h) = (
  record {
    ready_from1 = inr (inr (inr b));
    commit_from1 = inr (inr (inr b));
    ready_from2 = inr (inr (inr a));
    ack_from2 = inr (inr (inr a));
  },
  fresh-Speaks f sent h,
)

fresh-Agrees : (s : DrainSystem) → IsFresh s → Agrees (flags_of s) s.sent
fresh-Agrees s h = (
  record {
    roles = h.12;
    starts = (h.0, h.1);
    commit_backed = inl h.4;
    heard1 = inl h.3;
    heard2 = inl h.7;
    requested = inl h.8;
    acknowledged = inl h.5;
    retired1 = inl h.9;
    retired2 = inl h.10;
  },
  fresh-Speaks (flags_of s) s.sent h.11,
)

agreed_when :
    (f : DrainFlags)
    → Consistent f
    → When f.request2
        ((f.ready1 ≡ true) × (f.ready2 ≡ true) × (f.commit1 ≡ true) × (f.request2 ≡ true))
agreed_when f h = ground (arith, h.requested, h.commit_backed)

whenever : {b : Bool} {P : Type 0} → b ≡ true → When b P → P
whenever on (inl off) = absurd (ground (arith, on, off))
whenever on (inr p) = p

both :
    {gone requested : Bool} {P Q : Type 0}
    → When gone (requested ≡ true)
    → When requested P
    → When gone Q
    → When gone (P × Q)
both (inl off) p q = inl off
both (inr on) p (inl off) = inl off
both (inr on) p (inr q) = inr (whenever on p, q)

-- However the control messages are delayed, repeated, reordered or lost, whatever messages of other
-- operations are under way, and whatever the engines do meanwhile: an endpoint of a fresh drain that
-- has retired the carrier has done so only after each endpoint had noted that it was ready, its own
-- target quiet before that, and after the initiator had committed and the responder had taken that
-- up; its target was quiet at a moment when it had the other's commitment or acknowledgement. The
-- responder takes a commitment up only under the first condition.
pub DrainReach-BothReady :
    (s : DrainSystem) {t : DrainSystem}
    → IsFresh s
    → DrainReach s t
    → When t.first.retired (BothReady s t × Past s t (λ u. IsSettled u.first))
      × When t.second.retired (BothReady s t × Past s t (λ u. IsSettled u.second))
      × When t.second.op.commit_requested (BothReady s t)
DrainReach-BothReady s {t} fresh reach =
    let (h, _) = reach-Agrees s (fresh-Agrees s fresh) reach in
    let requested : When t.second.op.commit_requested (BothReady s t) =
      elim (agreed_when (flags_of t) h) [
        | inl off ↦ inl off
        | inr (a, b, c, d) ↦ inr (record {
          initiator_ready = a;
          initiator_quiet = whenever a (reach-ready1 s fresh.2 reach);
          responder_ready = b;
          responder_quiet = whenever b (reach-ready2 s fresh.6 reach);
          committed = c;
          taken_up = d;
        })
      ] in
    let retired1 : When t.first.retired (t.second.op.commit_requested ≡ true) =
      ground (arith, h.acknowledged, h.retired1) in
    (
      both retired1 requested (reach-retired1 s fresh.9 reach),
      both h.retired2 requested (reach-retired2 s fresh.10 reach),
      requested,
    )

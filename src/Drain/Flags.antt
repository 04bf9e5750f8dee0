-- ===== src/Drain/Flags.antt =====
-- core/stream_coordinated_drain.go: the flags of the two operations, what the messages say of them, and
-- what stays true of them.
use smp3_multipath_kit_publi.Drain.System.{DrainSystem, Foreign, Own}
use smp3_multipath_kit_publi.Path.Drain.{
  drain_commit_ack, drain_commit, drain_ready, StreamDrainMessage,
}
use smp3_multipath_kit_publi.Base.{
  ◌⊎◌, true, ◌≢◌, All, Bool, false, ◌≡◌, inr, refl, arith, inl, ◌++◌, ℕ, subst, [], List, ◌∷◌,
}

-- If b, then P.
abbrev pub When : Bool → Type 0 → Type 0
When b P = (b ≡ false) ⊎ P

pub When_refl : (b : Bool) → When b (b ≡ true)
When_refl true = inr refl
When_refl false = inl refl

-- What the agreement is about.
pub record DrainFlags : Type 0 where
  pub role1 : ℕ
  pub role2 : ℕ
  pub id1 : List ℕ
  pub id2 : List ℕ
  pub counter1 : ℕ
  pub counter2 : ℕ
  pub starts1 : Bool
  pub starts2 : Bool
  pub ready1 : Bool
  pub ready2 : Bool
  pub peer1 : Bool
  pub peer2 : Bool
  pub commit1 : Bool
  pub request2 : Bool
  pub ack1 : Bool
  pub gone1 : Bool
  pub gone2 : Bool

abbrev pub flags_of : DrainSystem → DrainFlags
flags_of s = record {
  role1 = s.first.role;
  role2 = s.second.role;
  id1 = s.first.op.op_operation_id;
  id2 = s.second.op.op_operation_id;
  counter1 = s.first.op.op_counter;
  counter2 = s.second.op.op_counter;
  starts1 = s.first.op.initiator;
  starts2 = s.second.op.initiator;
  ready1 = s.first.op.local_ready;
  ready2 = s.second.op.local_ready;
  peer1 = s.first.op.peer_ready;
  peer2 = s.second.op.peer_ready;
  commit1 = s.first.op.commit_sent;
  request2 = s.second.op.commit_requested;
  ack1 = s.first.op.commit_ack;
  gone1 = s.first.retired;
  gone2 = s.second.retired;
}

-- What a message of each kind says of the endpoint that sent it, if it is of the operation of the
-- endpoint that hears it.
pub record Speaks (f : DrainFlags) (m : StreamDrainMessage) : Type 0 where
  pub ready_from1 :
      (m.sender_role ≢ f.role1)
      ⊎ (m.kind ≢ drain_ready)
      ⊎ (f.ready1 ≡ true)
      ⊎ Foreign f.id2 f.counter2 m
  pub commit_from1 :
      (m.sender_role ≢ f.role1)
      ⊎ (m.kind ≢ drain_commit)
      ⊎ (f.commit1 ≡ true)
      ⊎ Foreign f.id2 f.counter2 m
  pub ready_from2 :
      (m.sender_role ≢ f.role2)
      ⊎ (m.kind ≢ drain_ready)
      ⊎ (f.ready2 ≡ true)
      ⊎ Foreign f.id1 f.counter1 m
  pub ack_from2 :
      (m.sender_role ≢ f.role2)
      ⊎ (m.kind ≢ drain_commit_ack)
      ⊎ ((f.request2 ≡ true) × (f.ready2 ≡ true))
      ⊎ Foreign f.id1 f.counter1 m

pub record Consistent (f : DrainFlags) : Type 0 where
  pub roles : f.role1 ≢ f.role2
  pub starts : (f.starts1 ≡ true) × (f.starts2 ≡ false)
  pub commit_backed : When f.commit1 ((f.ready1 ≡ true) × (f.peer1 ≡ true))
  pub heard1 : When f.peer1 (f.ready2 ≡ true)
  pub heard2 : When f.peer2 (f.ready1 ≡ true)
  pub requested : When f.request2 ((f.commit1 ≡ true) × (f.ready2 ≡ true))
  pub acknowledged : When f.ack1 (f.request2 ≡ true)
  pub retired1 : When f.gone1 (f.ack1 ≡ true)
  pub retired2 : When f.gone2 (f.request2 ≡ true)

abbrev pub Agrees : DrainFlags → List StreamDrainMessage → Type 0
Agrees f sent = Consistent f × All (Speaks f) sent

-- The flags that only rise.
pub record Rises (f g : DrainFlags) : Type 0 where
  pub same_role1 : g.role1 ≡ f.role1
  pub same_role2 : g.role2 ≡ f.role2
  pub same_id1 : g.id1 ≡ f.id1
  pub same_id2 : g.id2 ≡ f.id2
  pub same_counter1 : g.counter1 ≡ f.counter1
  pub same_counter2 : g.counter2 ≡ f.counter2
  pub rise_ready1 : When f.ready1 (g.ready1 ≡ true)
  pub rise_ready2 : When f.ready2 (g.ready2 ≡ true)
  pub rise_commit1 : When f.commit1 (g.commit1 ≡ true)
  pub rise_request2 : When f.request2 (g.request2 ≡ true)

pub Speaks-Rises : (f g : DrainFlags) (m : StreamDrainMessage) → Rises f g → Speaks f m → Speaks g m
Speaks-Rises f g m r h = record {
  ready_from1 =
      ground (arith, h.ready_from1, r.same_role1, r.same_id2, r.same_counter2, r.rise_ready1);
  commit_from1 =
      ground (arith, h.commit_from1, r.same_role1, r.same_id2, r.same_counter2, r.rise_commit1);
  ready_from2 =
      ground (arith, h.ready_from2, r.same_role2, r.same_id1, r.same_counter1, r.rise_ready2);
  ack_from2 = ground (
    arith, h.ack_from2, r.same_role2, r.same_id1, r.same_counter1, r.rise_ready2, r.rise_request2,
  );
}

pub All-Speaks :
    (f g : DrainFlags) (sent : List StreamDrainMessage)
    → Rises f g
    → All (Speaks f) sent
    → All (Speaks g) sent
All-Speaks f g [] r h = tt
All-Speaks f g (m ∷ sent) r (h, t) = (Speaks-Rises f g m r h, All-Speaks f g sent r t)

pub Speaks-heard :
    (f : DrainFlags) (later earlier sent : List StreamDrainMessage) (m : StreamDrainMessage)
    → sent ≡ later ++ (m ∷ earlier)
    → All (Speaks f) sent
    → Speaks f m
Speaks-heard f later earlier sent m e h = go later (subst (All (Speaks f)) e h)
  where
    go : (later : List StreamDrainMessage) → All (Speaks f) (later ++ (m ∷ earlier)) → Speaks f m
    go [] h = h.0
    go (x ∷ later) h = go later h.1

-- The keeping, step by step.
pub keeps_refl : (f : DrainFlags) → Rises f f
keeps_refl f = record {
  same_role1 = refl;
  same_role2 = refl;
  same_id1 = refl;
  same_id2 = refl;
  same_counter1 = refl;
  same_counter2 = refl;
  rise_ready1 = When_refl f.ready1;
  rise_ready2 = When_refl f.ready2;
  rise_commit1 = When_refl f.commit1;
  rise_request2 = When_refl f.request2;
}

-- The initiator hears a message.
pub hear1 :
    (f : DrainFlags) (m : StreamDrainMessage) (peer ack : Bool)
    → When peer ((f.peer1 ≡ true) ⊎ ((m.kind ≡ drain_ready) × Own f.id1 f.counter1 m))
    → When f.peer1 (peer ≡ true)
    → When ack ((f.ack1 ≡ true) ⊎ ((m.kind ≡ drain_commit_ack) × Own f.id1 f.counter1 m))
    → When f.ack1 (ack ≡ true)
    → m.sender_role ≡ f.role2
    → Speaks f m
    → Consistent f
    → Consistent (record f { peer1 = peer; ack1 = ack })
hear1 f m peer ack peer_new peer_kept ack_new ack_kept from says h = record {
  roles = h.roles;
  starts = h.starts;
  commit_backed = ground (arith, h.commit_backed);
  heard1 = ground (arith, h.heard1, says.ready_from2);
  heard2 = h.heard2;
  requested = h.requested;
  acknowledged = ground (arith, h.acknowledged, says.ack_from2);
  retired1 = ground (arith, h.retired1);
  retired2 = h.retired2;
}

-- The responder hears a message.
pub hear2 :
    (f : DrainFlags) (m : StreamDrainMessage) (peer request : Bool)
    → When peer ((f.peer2 ≡ true) ⊎ ((m.kind ≡ drain_ready) × Own f.id2 f.counter2 m))
    → When request (
        (f.request2 ≡ true)
        ⊎ ((m.kind ≡ drain_commit) × (f.ready2 ≡ true) × (Own f.id2 f.counter2 m)))
    → When f.request2 (request ≡ true)
    → m.sender_role ≡ f.role1
    → Speaks f m
    → Consistent f
    → Consistent (record f { peer2 = peer; request2 = request })
hear2 f m peer request peer_new request_new request_kept from says h = record {
  roles = h.roles;
  starts = h.starts;
  commit_backed = h.commit_backed;
  heard1 = h.heard1;
  heard2 = ground (arith, h.heard2, says.ready_from1);
  requested = ground (arith, h.requested, says.commit_from1);
  acknowledged = ground (arith, h.acknowledged);
  retired1 = h.retired1;
  retired2 = ground (arith, h.retired2);
}

-- One side becomes ready, commits, or retires.
pub become :
    (f : DrainFlags) (ready1 ready2 commit1 gone1 gone2 : Bool)
    → When f.ready1 (ready1 ≡ true)
    → When f.ready2 (ready2 ≡ true)
    → When commit1 ((f.commit1 ≡ true) ⊎ ((f.ready1 ≡ true) × (f.peer1 ≡ true)))
    → When f.commit1 (commit1 ≡ true)
    → When gone1 ((f.gone1 ≡ true) ⊎ (f.ack1 ≡ true))
    → When gone2 ((f.gone2 ≡ true) ⊎ (f.request2 ≡ true))
    → Consistent f
    → Consistent (record f {
      ready1 = ready1;
      ready2 = ready2;
      commit1 = commit1;
      gone1 = gone1;
      gone2 = gone2;
    })
become f ready1 ready2 commit1 gone1 gone2 r1 r2 c k g1 g2 h = record {
  roles = h.roles;
  starts = h.starts;
  commit_backed = ground (arith, h.commit_backed);
  heard1 = ground (arith, h.heard1);
  heard2 = ground (arith, h.heard2);
  requested = ground (arith, h.requested);
  acknowledged = h.acknowledged;
  retired1 = ground (arith, h.retired1);
  retired2 = ground (arith, h.retired2);
}

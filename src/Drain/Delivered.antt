-- ===== src/Drain/Delivered.antt =====
-- core/stream_coordinated_drain.go: a message that arrives keeps what the endpoints have agreed on.
use smp3_multipath_kit_publi.Drain.Heard.{handle_response-Heard}
use smp3_multipath_kit_publi.Drain.Flags.{
  DrainFlags, Agrees, Rises, Speaks-heard, When_refl, All-Speaks, flags_of, hear1, hear2,
}
use smp3_multipath_kit_publi.Drain.{handle_response}
use smp3_multipath_kit_publi.Path.Drain.{StreamDrainMessage}
use smp3_multipath_kit_publi.Drain.System.{DrainSystem}
use smp3_multipath_kit_publi.Base.{subst, ◌≡◌, ◌∷◌, List, refl, ◌++◌, Bool, ℕ, arith}

-- The flags of an endpoint that hears a message: those that stay are the same.
pub flags1 :
    (f : DrainFlags) (role : ℕ) (id : List ℕ) (counter : ℕ)
    (starts ready commit gone peer ack : Bool)
    → role ≡ f.role1
    → id ≡ f.id1
    → counter ≡ f.counter1
    → starts ≡ f.starts1
    → ready ≡ f.ready1
    → commit ≡ f.commit1
    → gone ≡ f.gone1
    → record f { peer1 = peer; ack1 = ack } ≡ record f {
      role1 = role;
      id1 = id;
      counter1 = counter;
      starts1 = starts;
      ready1 = ready;
      commit1 = commit;
      gone1 = gone;
      peer1 = peer;
      ack1 = ack;
    }
flags1 f role id counter starts ready commit gone peer ack a i n b c d e =
    rw (a, i, n, b, c, d, e) refl

pub flags2 :
    (f : DrainFlags) (role : ℕ) (id : List ℕ) (counter : ℕ) (starts ready gone peer request : Bool)
    → role ≡ f.role2
    → id ≡ f.id2
    → counter ≡ f.counter2
    → starts ≡ f.starts2
    → ready ≡ f.ready2
    → gone ≡ f.gone2
    → record f { peer2 = peer; request2 = request } ≡ record f {
      role2 = role;
      id2 = id;
      counter2 = counter;
      starts2 = starts;
      ready2 = ready;
      gone2 = gone;
      peer2 = peer;
      request2 = request;
    }
flags2 f role id counter starts ready gone peer request a i n b c d = rw (a, i, n, b, c, d) refl

pub deliver1-Agrees :
    (s : DrainSystem) (m : StreamDrainMessage) (later earlier : List StreamDrainMessage)
    → s.sent ≡ later ++ (m ∷ earlier)
    → m.sender_role ≡ s.second.role
    → Agrees (flags_of s) s.sent
    → Agrees (flags_of (record s { first = handle_response s.first m })) s.sent
deliver1-Agrees s m later earlier e from (h, says) =
    let (heard, role, gone) = handle_response-Heard m s.first in
    let said = Speaks-heard (flags_of s) later earlier s.sent m e says in
    let op = (handle_response s.first m).op in
    let f : DrainFlags = record (flags_of s) { peer1 = op.peer_ready; ack1 = op.commit_ack } in
    let consistent =
      hear1 (flags_of s) m op.peer_ready op.commit_ack heard.peer_new heard.peer_kept
        (ground (arith, heard.ack_new)) heard.ack_kept from said h in
    let rises : Rises (flags_of s) f = record {
      same_role1 = refl;
      same_role2 = refl;
      same_id1 = refl;
      same_id2 = refl;
      same_counter1 = refl;
      same_counter2 = refl;
      rise_ready1 = When_refl _;
      rise_ready2 = When_refl _;
      rise_commit1 = When_refl _;
      rise_request2 = When_refl _;
    } in
    subst (λ g. Agrees g s.sent)
      (flags1 (flags_of s) _ _ _ _ _ _ _ op.peer_ready op.commit_ack role heard.same_id
        heard.same_counter heard.same_start heard.same_ready heard.same_commit gone)
      (consistent, All-Speaks (flags_of s) f s.sent rises says)

pub deliver2-Agrees :
    (s : DrainSystem) (m : StreamDrainMessage) (later earlier : List StreamDrainMessage)
    → s.sent ≡ later ++ (m ∷ earlier)
    → m.sender_role ≡ s.first.role
    → Agrees (flags_of s) s.sent
    → Agrees (flags_of (record s { second = handle_response s.second m })) s.sent
deliver2-Agrees s m later earlier e from (h, says) =
    let (heard, role, gone) = handle_response-Heard m s.second in
    let said = Speaks-heard (flags_of s) later earlier s.sent m e says in
    let op = (handle_response s.second m).op in
    let f : DrainFlags = record (flags_of s) {
      peer2 = op.peer_ready;
      request2 = op.commit_requested;
    } in
    let consistent =
      hear2 (flags_of s) m op.peer_ready op.commit_requested heard.peer_new
        (ground (arith, heard.request_new)) heard.request_kept from said h in
    let rises : Rises (flags_of s) f = record {
      same_role1 = refl;
      same_role2 = refl;
      same_id1 = refl;
      same_id2 = refl;
      same_counter1 = refl;
      same_counter2 = refl;
      rise_ready1 = When_refl _;
      rise_ready2 = When_refl _;
      rise_commit1 = When_refl _;
      rise_request2 = heard.request_kept;
    } in
    subst (λ g. Agrees g s.sent)
      (flags2 (flags_of s) _ _ _ _ _ _ op.peer_ready op.commit_requested role heard.same_id
        heard.same_counter heard.same_start heard.same_ready gone)
      (consistent, All-Speaks (flags_of s) f s.sent rises says)

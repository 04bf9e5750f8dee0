-- ===== src/Drain.antt =====
-- core/stream_coordinated_drain.go: one coordinated drain at one endpoint, from the intent on. A
-- message that arrives has been decoded and authenticated (Path.Drain). Locks make each function one
-- step; telemetry and the acknowledged frontier that it shows are left out.
pub mod System
pub mod Flags
pub mod Heard
pub mod Delivered
pub mod Observed
pub mod Agreed
pub mod Examples
use smp3_multipath_kit_publi.Base.{
  Bool, ◌||◌, false, ◌==◌, not, if◌then◌else◌, u32_mod, ◌!=◌, ℕ, ◌%◌, List, ◌&&◌, true,
}
use smp3_multipath_kit_publi.Wire.Bytes.{bytes_equal}
use smp3_multipath_kit_publi.Path.Drain.{
  StreamDrainMessage, drain_intent, drain_quiesced, drain_ready, drain_commit, drain_commit_ack,
  drain_abort,
}

-- What `getLeg` of the target's id returns.
pub data TargetPlace : Type 0 where
  place_current place_absent place_replaced : TargetPlace

abbrev pub is_current : TargetPlace → Bool
is_current place_current = true
is_current place_absent = false
is_current place_replaced = false

abbrev pub is_replaced : TargetPlace → Bool
is_replaced place_current = false
is_replaced place_absent = false
is_replaced place_replaced = true

-- The leg that is drained, as `drainReady` and the handlers read it.
pub record DrainTarget : Type 0 where
  pub leg : ℕ
  pub leg_generation : ℕ
  pub leg_binding : List ℕ
  pub drain_enabled : Bool
  pub place : TargetPlace
  pub leg_closed : Bool
  pub draining : Bool
  pub send_queued : ℕ
  pub rescue_queued : ℕ
  pub writing : Bool
  pub tx_outstanding : ℕ
  pub tx_outstanding_bytes : ℕ
  pub pending_depth : ℕ
  pub feeder_held : ℕ

pub data DrainFailure : Type 0 where
  no_failure failed_message failed_by_peer : DrainFailure

pub record StreamDrainOperation : Type 0 where
  pub op_operation_id : List ℕ
  pub op_target_binding : List ℕ
  pub op_counter : ℕ
  pub peer_generation : ℕ
  pub peer_acked_next : ℕ
  pub peer_outstanding_frames : ℕ
  pub peer_outstanding_bytes : ℕ
  pub initiator : Bool
  pub peer_quiesced : Bool
  pub local_ready : Bool
  pub ready_sent : Bool
  pub peer_ready : Bool
  pub commit_sent : Bool
  pub commit_requested : Bool
  pub commit_ack : Bool
  pub terminal_err : DrainFailure

-- An endpoint: its role, its session, its frontier, the target and the operation, which is `active`
-- while the engine's table has it.
pub record DrainEndpoint : Type 0 where
  pub role : ℕ
  pub drain_session_id : List ℕ
  pub own_acked_next : ℕ
  pub target : DrainTarget
  pub op : StreamDrainOperation
  pub active : Bool
  pub retired : Bool

-- `drainReady`
unfoldable pub target_ready : DrainTarget → Bool
target_ready t =
    not t.leg_closed
    && is_current t.place
    && t.draining
    && t.send_queued == 0
    && t.rescue_queued == 0
    && not t.writing
    && t.tx_outstanding == 0
    && t.pending_depth == 0
    && t.feeder_held == 0

unfoldable pub make_drain_message : DrainEndpoint → ℕ → StreamDrainMessage
make_drain_message ep kind = record {
  kind = kind;
  sender_role = ep.role;
  session_id = ep.drain_session_id;
  target_leg = ep.target.leg;
  generation = ep.target.leg_generation;
  target_binding = ep.op.op_target_binding;
  operation_id = ep.op.op_operation_id;
  counter = ep.op.op_counter;
  acked_next = ep.own_acked_next;
  outstanding_frames = ep.target.tx_outstanding % u32_mod;
  outstanding_bytes = ep.target.tx_outstanding_bytes;
}

-- Another operation, another carrier or another generation of the peer.
unfoldable pub stale_response : DrainEndpoint → StreamDrainMessage → Bool
stale_response ep m =
    not ep.active
    || not ep.target.drain_enabled
    || not (bytes_equal ep.op.op_operation_id m.operation_id)
    || ep.op.op_counter != m.counter
    || not (bytes_equal ep.op.op_target_binding m.target_binding)
    || not (bytes_equal ep.target.leg_binding m.target_binding)
    || (ep.op.peer_generation != 0 && ep.op.peer_generation != m.generation)

-- The target is not where a message of this kind may act.
unfoldable pub misplaced_response : DrainEndpoint → StreamDrainMessage → Bool
misplaced_response ep m =
    is_replaced ep.target.place
    || (not (is_current ep.target.place)
        && (m.kind != drain_commit_ack || not ep.target.leg_closed))
    || (ep.op.peer_generation == 0
        && (not (is_current ep.target.place) || ep.target.leg_closed || m.kind == drain_commit_ack))

abbrev pub is_empty_message : StreamDrainMessage → Bool
is_empty_message m = m.outstanding_frames == 0 && m.outstanding_bytes == 0

-- The `switch message.Kind` of `handleDrainControlFrame`.
unfoldable pub apply_response : StreamDrainOperation → StreamDrainMessage → StreamDrainOperation
apply_response op m =
    if m.kind == drain_quiesced
    then record op { peer_quiesced = true }
    else if m.kind == drain_ready
    then if is_empty_message m
      then record op { peer_quiesced = true; peer_ready = true }
      else record op { terminal_err = failed_message }
    else if m.kind == drain_commit
    then if is_empty_message m && not op.initiator && op.local_ready && op.peer_ready
      then record op { commit_requested = true }
      else record op { terminal_err = failed_message }
    else if m.kind == drain_commit_ack
    then if op.initiator && op.commit_sent && is_empty_message m
      then record op { commit_ack = true }
      else record op { terminal_err = failed_message }
    else if m.kind == drain_abort
    then record op { terminal_err = failed_by_peer }
    else op

-- `handleDrainControlFrame` behind the intent.
unfoldable pub handle_response : DrainEndpoint → StreamDrainMessage → DrainEndpoint
handle_response ep m = if stale_response ep m || misplaced_response ep m then ep else record ep {
  op =
      apply_response
        (record ep.op {
          peer_generation = m.generation;
          peer_acked_next = m.acked_next;
          peer_outstanding_frames = m.outstanding_frames;
          peer_outstanding_bytes = m.outstanding_bytes;
        })
        m;
}

-- The loops of `coordinatedDrainLeg` and `runRemoteDrain`: the local readiness, which is kept.
unfoldable pub note_ready : DrainEndpoint → DrainEndpoint
note_ready ep =
    if target_ready ep.target then record ep { op = record ep.op { local_ready = true } } else ep

-- When the initiator sends READY; the time of a repetition is not looked at.
unfoldable pub may_announce : DrainEndpoint → Bool
may_announce ep = target_ready ep.target && ep.op.local_ready && ep.op.peer_quiesced

abbrev pub unfailed : DrainFailure → Bool
unfailed no_failure = true
unfailed failed_message = false
unfailed failed_by_peer = false

-- `canCommit`
unfoldable pub can_commit : DrainEndpoint → Bool
can_commit ep =
    target_ready ep.target
    && ep.active
    && unfailed ep.op.terminal_err
    && ep.op.ready_sent
    && ep.op.local_ready
    && ep.op.peer_quiesced
    && ep.op.peer_ready
    && not ep.op.commit_sent

-- The kind of the responder's message.
unfoldable pub response_kind : StreamDrainOperation → ℕ
response_kind op =
    if op.commit_requested && op.local_ready
    then drain_commit_ack
    else if op.local_ready
    then drain_ready
    else drain_quiesced

-- `retireDrainedLeg` at the end of either loop.
unfoldable pub may_retire : DrainEndpoint → Bool
may_retire ep =
    target_ready ep.target
    && (if ep.op.initiator
        then ep.op.commit_ack
        else ep.op.commit_requested && ep.op.local_ready && ep.op.peer_ready)

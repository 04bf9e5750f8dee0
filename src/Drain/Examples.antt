-- ===== src/Drain/Examples.antt =====
-- core/stream_coordinated_drain.go: a whole drain of leg 1, until the responder retires it.
use smp3_multipath_kit_publi.Drain.Observed.{IsSettled, Past}
use smp3_multipath_kit_publi.Drain.Flags.{When}
use smp3_multipath_kit_publi.Drain.Agreed.{BothReady, DrainReach-BothReady}
use smp3_multipath_kit_publi.Path.Drain.{
  drain_ready, drain_commit, valid_drain_message, StreamDrainMessage,
}
use smp3_multipath_kit_publi.Drain.System.{
  deliver_first, drain_next, DrainReach, deliver_second, drain_start, first_send_commit,
  first_announced, first_commit, DrainSystem, first_announce, second_retire, second_respond,
  first_ready, IsFresh, second_ready,
}
use smp3_multipath_kit_publi.Drain.{
  may_announce, misplaced_response, can_commit, DrainTarget, StreamDrainOperation, stale_response,
  handle_response, make_drain_message, note_ready, place_current, target_ready, DrainEndpoint,
  apply_response, may_retire, no_failure, response_kind,
}
use smp3_multipath_kit_publi.Base.{not, true, replicate, false, ℕ, [], refl, arith, Bool, ◌∷◌, inr}
use smp3_multipath_kit_publi.Wire.Bytes.{bytes_equal}

abbrev quiet_target : DrainTarget
quiet_target = record {
  leg = 1;
  leg_generation = 4;
  leg_binding = replicate 16 8;
  drain_enabled = true;
  place = place_current;
  leg_closed = false;
  draining = true;
  send_queued = 0;
  rescue_queued = 0;
  writing = false;
  tx_outstanding = 0;
  tx_outstanding_bytes = 0;
  pending_depth = 0;
  feeder_held = 0;
}

abbrev operation : Bool → StreamDrainOperation
operation initiator = record {
  op_operation_id = replicate 16 6;
  op_target_binding = replicate 16 8;
  op_counter = 1;
  peer_generation = 4;
  peer_acked_next = 0;
  peer_outstanding_frames = 0;
  peer_outstanding_bytes = 0;
  initiator = initiator;
  peer_quiesced = not initiator;
  local_ready = false;
  ready_sent = false;
  peer_ready = false;
  commit_sent = false;
  commit_requested = false;
  commit_ack = false;
  terminal_err = no_failure;
}

abbrev endpoint : ℕ → Bool → DrainEndpoint
endpoint role initiator = record {
  role = role;
  drain_session_id = replicate 16 1;
  own_acked_next = 12;
  target = quiet_target;
  op = operation initiator;
  active = true;
  retired = false;
}

-- A READY of the responder's operation before, which is still under way.
abbrev old_ready : StreamDrainMessage
old_ready = record (make_drain_message (endpoint 2 false) drain_ready) { counter = 0 }

abbrev fresh : DrainSystem
fresh = record { first = endpoint 1 true; second = endpoint 2 false; sent = old_ready ∷ [] }

fresh-IsFresh : IsFresh fresh
unfolding make_drain_message
fresh-IsFresh = (
  refl,
  refl,
  refl,
  refl,
  refl,
  refl,
  refl,
  refl,
  refl,
  refl,
  refl,
  ((inr (λ e. absurd (omega (arith, e))), inr (λ e. absurd (omega (arith, e)))), tt),
  λ e. absurd (omega (arith, e)),
)

-- Both are ready, and the responder says so.
abbrev both_quiet : DrainSystem
both_quiet =
    let noted = record fresh { first = note_ready fresh.first; second = note_ready fresh.second } in
    record noted { sent = make_drain_message noted.second drain_ready ∷ noted.sent }

-- The initiator has heard it, and says that it is ready too.
abbrev announced : DrainSystem
announced =
    let heard =
      handle_response both_quiet.first (make_drain_message both_quiet.second drain_ready) in
    record both_quiet {
      first = record heard { op = record heard.op { ready_sent = true } };
      sent = make_drain_message heard drain_ready ∷ both_quiet.sent;
    }

-- The responder has heard that; the initiator commits.
abbrev committed : DrainSystem
committed =
    let heard = handle_response announced.second (make_drain_message announced.first drain_ready) in
    let sender = record announced.first { op = record announced.first.op { commit_sent = true } } in
    record {
      first = sender;
      second = heard;
      sent = make_drain_message sender drain_commit ∷ announced.sent;
    }

-- The responder takes it up and retires the carrier.
abbrev done : DrainSystem
done =
    let heard =
      handle_response committed.second (make_drain_message committed.first drain_commit) in
    record committed { second = record heard { retired = true } }

both_quiet-reached : DrainReach fresh both_quiet
unfolding note_ready target_ready make_drain_message response_kind valid_drain_message bytes_equal
both_quiet-reached =
    drain_next (drain_next (drain_next drain_start first_ready) second_ready) (second_respond refl)

announced-reached : DrainReach fresh announced
unfolding note_ready target_ready make_drain_message handle_response stale_response
    misplaced_response apply_response may_announce valid_drain_message bytes_equal
announced-reached =
    drain_next
      (drain_next
        (drain_next both_quiet-reached (
          deliver_first (make_drain_message both_quiet.second drain_ready) [] fresh.sent refl refl))
        (first_announce refl refl))
      first_announced

committed-reached : DrainReach fresh committed
unfolding note_ready target_ready make_drain_message handle_response stale_response
    misplaced_response apply_response may_announce can_commit valid_drain_message bytes_equal
committed-reached =
    drain_next
      (drain_next
        (drain_next announced-reached (
          deliver_second (make_drain_message announced.first drain_ready) [] both_quiet.sent refl
            refl))
        (first_commit refl))
      (first_send_commit refl refl)

done-reached : DrainReach fresh done
unfolding note_ready target_ready make_drain_message handle_response stale_response
    misplaced_response apply_response may_retire valid_drain_message bytes_equal
done-reached =
    drain_next
      (drain_next committed-reached (
        deliver_second (make_drain_message committed.first drain_commit) [] announced.sent refl
          refl))
      (second_retire refl)

DrainReach-BothReady_example :
    When done.first.retired (BothReady fresh done × Past fresh done (λ u. IsSettled u.first))
    × When done.second.retired (BothReady fresh done × Past fresh done (λ u. IsSettled u.second))
    × When done.second.op.commit_requested (BothReady fresh done)
DrainReach-BothReady_example = DrainReach-BothReady fresh fresh-IsFresh done-reached

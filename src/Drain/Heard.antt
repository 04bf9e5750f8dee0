-- ===== src/Drain/Heard.antt =====
-- core/stream_coordinated_drain.go: what handleDrainControlFrame changes of an operation.
use smp3_multipath_kit_publi.Drain.System.{Own}
use smp3_multipath_kit_publi.Wire.Bytes.{bytes_equal→eq}
use smp3_multipath_kit_publi.Drain.Flags.{When, When_refl}
use smp3_multipath_kit_publi.Path.Drain.{
  drain_commit, StreamDrainMessage, drain_commit_ack, drain_ready,
}
use smp3_multipath_kit_publi.Base.{
  true, false, inl, ◌≡◌, ◌||◌, Bool-cases, refl, inr, arith, Bool, ◌⊎◌,
}
use smp3_multipath_kit_publi.Drain.{
  DrainEndpoint, misplaced_response, handle_response, apply_response, StreamDrainOperation,
  stale_response,
}

-- What a message changes of the endpoint that hears it.
pub record Heard (m : StreamDrainMessage) (a b : StreamDrainOperation) : Type 0 where
  pub same_start : b.initiator ≡ a.initiator
  pub same_ready : b.local_ready ≡ a.local_ready
  pub same_id : b.op_operation_id ≡ a.op_operation_id
  pub same_counter : b.op_counter ≡ a.op_counter
  pub same_commit : b.commit_sent ≡ a.commit_sent
  pub peer_kept : When a.peer_ready (b.peer_ready ≡ true)
  pub peer_new :
      When b.peer_ready
        ((a.peer_ready ≡ true) ⊎ ((m.kind ≡ drain_ready) × Own a.op_operation_id a.op_counter m))
  pub request_kept : When a.commit_requested (b.commit_requested ≡ true)
  pub request_new : When b.commit_requested (
      (a.commit_requested ≡ true)
      ⊎ ((m.kind ≡ drain_commit)
          × (a.initiator ≡ false)
          × (a.local_ready ≡ true)
          × (Own a.op_operation_id a.op_counter m)))
  pub ack_kept : When a.commit_ack (b.commit_ack ≡ true)
  pub ack_new : When b.commit_ack (
      (a.commit_ack ≡ true)
      ⊎ ((m.kind ≡ drain_commit_ack)
          × (a.initiator ≡ true)
          × (Own a.op_operation_id a.op_counter m)))

pub When-left : (b : Bool) (P : Type 0) → When b ((b ≡ true) ⊎ P)
When-left true P = inr (inl refl)
When-left false P = inl refl

pub unchanged : (m : StreamDrainMessage) (a : StreamDrainOperation) → Heard m a a
unchanged m a = record {
  same_start = refl;
  same_ready = refl;
  same_id = refl;
  same_counter = refl;
  same_commit = refl;
  peer_kept = When_refl a.peer_ready;
  peer_new = When-left a.peer_ready _;
  request_kept = When_refl a.commit_requested;
  request_new = When-left a.commit_requested _;
  ack_kept = When_refl a.commit_ack;
  ack_new = When-left a.commit_ack _;
}

pub apply_response-Heard :
    (m : StreamDrainMessage) (op : StreamDrainOperation)
    → Own op.op_operation_id op.op_counter m
    → Heard m op (apply_response op m)
unfolding apply_response
apply_response-Heard m op own = record {
  same_start = ground arith;
  same_ready = ground arith;
  same_id = ground arith;
  same_counter = ground arith;
  same_commit = ground arith;
  peer_kept = ground arith;
  peer_new = ground arith;
  request_kept = ground arith;
  request_new = ground arith;
  ack_kept = ground arith;
  ack_new = ground arith;
}

pub handle_response-Heard :
    (m : StreamDrainMessage) (ep : DrainEndpoint)
    → Heard m ep.op (handle_response ep m).op
      × ((handle_response ep m).role ≡ ep.role)
      × ((handle_response ep m).retired ≡ ep.retired)
unfolding handle_response stale_response
handle_response-Heard m ep = elim (Bool-cases (stale_response ep m || misplaced_response ep m)) [
  | inl ignored ↦ rw (ignored, handle_response) (unchanged m ep.op, refl, refl)
  | inr taken ↦
      rw (taken, handle_response)
        (
          (let h =
                apply_response-Heard m
                  (record ep.op {
                    peer_generation = m.generation;
                    peer_acked_next = m.acked_next;
                    peer_outstanding_frames = m.outstanding_frames;
                    peer_outstanding_bytes = m.outstanding_bytes;
                  })
                  (ground (arith, taken, bytes_equal→eq ep.op.op_operation_id m.operation_id)) in
              record {
                same_start = h.same_start;
                same_ready = h.same_ready;
                same_id = h.same_id;
                same_counter = h.same_counter;
                same_commit = h.same_commit;
                peer_kept = h.peer_kept;
                peer_new = h.peer_new;
                request_kept = h.request_kept;
                request_new = h.request_new;
                ack_kept = h.ack_kept;
                ack_new = h.ack_new;
              }),
          refl,
          refl,
        )
]

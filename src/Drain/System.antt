-- ===== src/Drain/System.antt =====
-- core/stream_coordinated_drain.go: the two endpoints of a drain and the control messages between them,
-- which the surviving carriers deliver late, again, in any order or not at all.
use smp3_multipath_kit_publi.Base.{List, true, ◌≢◌, ◌∷◌, ℕ, false, ◌≡◌, ◌++◌, ◌⊎◌, All}
use smp3_multipath_kit_publi.Drain.{
  may_retire, can_commit, DrainTarget, may_announce, response_kind, DrainEndpoint, note_ready,
  make_drain_message, handle_response, DrainFailure,
}
use smp3_multipath_kit_publi.Path.Drain.{
  valid_drain_message, drain_commit, drain_ready, StreamDrainMessage,
}

pub record DrainSystem : Type 0 where
  pub first : DrainEndpoint  -- the initiator
  pub second : DrainEndpoint  -- the responder
  pub sent : List StreamDrainMessage

-- One step of the initiator's loop, of the responder's loop, of a read loop or of the engine around
-- them. A message goes out if `EncodeDrainMessage` accepts it. An abort, a timeout or the end of an
-- operation takes it out of the engine's table.
pub data DrainStep (s : DrainSystem) : DrainSystem → Type 0 where
  first_engine :
      (t : DrainTarget) (acked : ℕ)
      → DrainStep s (record s { first = record s.first { target = t; own_acked_next = acked } })
  second_engine :
      (t : DrainTarget) (acked : ℕ)
      → DrainStep s (record s { second = record s.second { target = t; own_acked_next = acked } })
  first_ready : DrainStep s (record s { first = note_ready s.first })
  second_ready : DrainStep s (record s { second = note_ready s.second })
  first_announce :
      may_announce s.first ≡ true
      → valid_drain_message (make_drain_message s.first drain_ready) ≡ true
      → DrainStep s (record s { sent = make_drain_message s.first drain_ready ∷ s.sent })
  first_abandon :
      (why : DrainFailure)
      → DrainStep s (record s {
        first = record s.first { op = record s.first.op { terminal_err = why }; active = false };
      })
  second_abandon :
      (why : DrainFailure)
      → DrainStep s (record s {
        second = record s.second { op = record s.second.op { terminal_err = why }; active = false };
      })
  first_announced :
      DrainStep s
        (record s { first = record s.first { op = record s.first.op { ready_sent = true } } })
  first_commit :
      can_commit s.first ≡ true
      → DrainStep s
          (record s { first = record s.first { op = record s.first.op { commit_sent = true } } })
  first_send_commit :
      s.first.op.commit_sent ≡ true
      → valid_drain_message (make_drain_message s.first drain_commit) ≡ true
      → DrainStep s (record s { sent = make_drain_message s.first drain_commit ∷ s.sent })
  second_respond :
      valid_drain_message (make_drain_message s.second (response_kind s.second.op)) ≡ true
      → DrainStep s
          (record s { sent = make_drain_message s.second (response_kind s.second.op) ∷ s.sent })
  deliver_first :
      (m : StreamDrainMessage) (later earlier : List StreamDrainMessage)
      → s.sent ≡ later ++ (m ∷ earlier)
      → m.sender_role ≡ s.second.role
      → DrainStep s (record s { first = handle_response s.first m })
  deliver_second :
      (m : StreamDrainMessage) (later earlier : List StreamDrainMessage)
      → s.sent ≡ later ++ (m ∷ earlier)
      → m.sender_role ≡ s.first.role
      → DrainStep s (record s { second = handle_response s.second m })
  first_retire :
      may_retire s.first ≡ true
      → DrainStep s (record s { first = record s.first { retired = true } })
  second_retire :
      may_retire s.second ≡ true
      → DrainStep s (record s { second = record s.second { retired = true } })

pub data DrainReach (s : DrainSystem) : DrainSystem → Type 0 where
  drain_start : DrainReach s s
  drain_next : {t u : DrainSystem} → DrainReach s t → DrainStep t u → DrainReach s u

-- A message of the operation, and one of another.
abbrev pub Own : List ℕ → ℕ → StreamDrainMessage → Type 0
Own id counter m = (m.operation_id ≡ id) × (m.counter ≡ counter)

abbrev pub Foreign : List ℕ → ℕ → StreamDrainMessage → Type 0
Foreign id counter m = (m.operation_id ≢ id) ⊎ (m.counter ≢ counter)

-- The operations as `coordinatedDrainLeg` and `acceptDrainIntent` make them. Messages that are under
-- way already are of other operations.
abbrev pub IsFresh : DrainSystem → Type 0
IsFresh s =
    (s.first.op.initiator ≡ true)
    × (s.second.op.initiator ≡ false)
    × (s.first.op.local_ready ≡ false)
    × (s.first.op.peer_ready ≡ false)
    × (s.first.op.commit_sent ≡ false)
    × (s.first.op.commit_ack ≡ false)
    × (s.second.op.local_ready ≡ false)
    × (s.second.op.peer_ready ≡ false)
    × (s.second.op.commit_requested ≡ false)
    × (s.first.retired ≡ false)
    × (s.second.retired ≡ false)
    × All
        (λ m.
          Foreign s.first.op.op_operation_id s.first.op.op_counter m
          × Foreign s.second.op.op_operation_id s.second.op.op_counter m)
        s.sent
    × (s.first.role ≢ s.second.role)

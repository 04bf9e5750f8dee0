-- ===== src/Rescue/Run/Moves.antt =====
-- core/stream_bounded_rescue.go: the changes of state behind each call.
use smp3_multipath_kit_publi.Rescue.Write.{
  settled, over_accepted, begin_write_record, begin_write, revalidate_class,
  revalidate_before_write, take_out, release_locked, start_write,
}
use smp3_multipath_kit_publi.Rescue.Classify.{classify_rescue}
use smp3_multipath_kit_publi.Rescue.{
  RescueRecordState, StreamRescueEvidence, StreamRescueBudget, healthy_hol, StreamRescueClass,
  other_core_retry, probe_data, RescueReservation, failure_recovery, duplicate_or_rejected,
  original_data,
}
use smp3_multipath_kit_publi.Rescue.Run.{
  move_take, no_move, move_add, move_original, move_start, move_candidate, RescueMoves, move_then,
  RescueMove, move_prune, step_snapshot, step_revalidate, RescueStep, step_close, step_settle,
  move_ack, step_reserve, move_close, step_original, step_begin, move_settle, step_release,
  step_ack, charge,
}
use smp3_multipath_kit_publi.Rescue.Reserve.{
  record_original, split_for, reserve_record, reserve_parts, reserve_class,
}
use smp3_multipath_kit_publi.Base.{
  arith, true, ℕ, inr, lookup, if◌then◌else◌, add64, some, ◌≡◌, Option-cases, Option, refl, Bool,
  inl, false, none, ◌≤◌, ltb, leb, ◌||◌, Bool-cases, ◌==◌, ◌&&◌,
}
use smp3_multipath_kit_publi.Rescue.Window.{prune}
use smp3_multipath_kit_publi.Rescue.Reserve.{reserve, entered}
use smp3_multipath_kit_publi.Rescue.Write.{settle, release_unstarted}

-- A call adds at most one reservation.
abbrev pub Made : StreamRescueBudget → StreamRescueBudget → Type 0
Made b c = (k : ℕ) × (k ≤ 1) × RescueMoves b k c

-- The same of a call that returns a result with the budget.
record Makes {ℓ} {A : Type ℓ} (b : StreamRescueBudget) (p : StreamRescueBudget × A) : Type 0 where
  made : Made b p.0

move_alone : {b c : StreamRescueBudget} → RescueMove b 0 c → Made b c
move_alone move = (0, omega arith, move_then refl move no_move)

module _ {ℓ} {A : Type ℓ} where
  nothing : {b : StreamRescueBudget} {out : A} → Makes b (b, out)
  nothing = record { made = (0, omega arith, no_move) }

  one : {b c : StreamRescueBudget} {out : A} → RescueMove b 0 c → Makes b (c, out)
  one move = record { made = move_alone move }

  made_before :
      {b c : StreamRescueBudget} {p : StreamRescueBudget × A}
      → RescueMove b 0 c
      → Makes c p
      → Makes b p
  made_before move rest =
      let (k, small, moves) = rest.made in
      record { made = (k, small, move_then (omega arith) move moves) }

  adds : {b c : StreamRescueBudget} {out : A} → RescueMove b 1 c → Makes b (c, out)
  adds move = record { made = (1, omega arith, move_then refl move no_move) }

  -- A test of the code: both branches.
  branch :
      {b : StreamRescueBudget} {c : Bool} {x y : StreamRescueBudget × A}
      → (c ≡ true → Makes b x)
      → (c ≡ false → Makes b y)
      → Makes b (if c then x else y)
  branch {c = true} h k = h refl
  branch {c = false} h k = k refl

record_original-Made :
    (b : StreamRescueBudget) (sequence bytes at : ℕ) → Makes b (record_original b sequence bytes at)
unfolding record_original
record_original-Made b sequence bytes at =
    let pruned : Makes (entered b sequence bytes at)
        (prune (entered b sequence bytes at) at, true) =
      one (move_prune at) in
    elim (Bool-cases (bytes == 0 || b.closed || (b.has_original && leb sequence b.last_original))) [
      | inl bad ↦ rw bad nothing
      | inr good ↦
          rw good (made_before (move_original sequence bytes at (ground (arith, good))) pruned)
    ]

reserve_parts-Made :
    (b : StreamRescueBudget) (e : StreamRescueEvidence) (state : RescueRecordState) (payload at : ℕ)
    → lookup e.sequence b.records ≡ some state
    → Makes b (reserve_parts b e state payload at)
unfolding reserve_parts prune
reserve_parts-Made b e state payload at found =
    made_before (move_prune at) (elim (Option-cases (split_for (prune b at) payload)) [
      | inl short ↦ rw (short, reserve_parts) nothing
      | inr ((base, burst), enough) ↦
          rw (enough, reserve_parts) (adds (move_add e state payload base burst found enough))
    ])

reserve_record-Made :
    (b : StreamRescueBudget) (e : StreamRescueEvidence) (found : Option RescueRecordState)
    (payload at : ℕ)
    → lookup e.sequence b.records ≡ found
    → Makes b (reserve_record b e found payload at)
unfolding reserve_record
reserve_record-Made b e none payload at h = nothing
reserve_record-Made b e (some state) payload at h =
    search (branch, nothing, reserve_parts-Made b e state payload at h)

reserve_class-Made :
    (b : StreamRescueBudget) (class : StreamRescueClass) (e : StreamRescueEvidence) (payload at : ℕ)
    → Makes b (reserve_class b class e payload at)
unfolding reserve_class
reserve_class-Made b original_data e payload at = nothing
reserve_class-Made b failure_recovery e payload at = nothing
reserve_class-Made b other_core_retry e payload at = nothing
reserve_class-Made b probe_data e payload at = nothing
reserve_class-Made b duplicate_or_rejected e payload at = nothing
reserve_class-Made b healthy_hol e payload at =
    search (branch, nothing, reserve_record-Made b e (lookup e.sequence b.records) payload at refl)

reserve-Made :
    (b : StreamRescueBudget) (e : StreamRescueEvidence) (payload at : ℕ)
    → Makes b (reserve b e payload at)
unfolding reserve
reserve-Made b e payload at =
    let counted : StreamRescueBudget = record b { next_candidate = add64 b.next_candidate 1 } in
    let chosen = reserve_class-Made counted (classify_rescue e) e payload at in
    made_before (move_candidate (add64 b.next_candidate 1)) (search (branch, nothing, chosen))

begin_write_record-Made :
    (b : StreamRescueBudget) (id : ℕ) (r : RescueReservation) (found : Option RescueRecordState)
    → lookup id b.reservations ≡ some r
    → lookup r.seq b.records ≡ found
    → Makes b (begin_write_record b r found id)
unfolding begin_write_record
begin_write_record-Made b id r none held h = one (move_take id r held)
begin_write_record-Made b id r (some state) held h =
    let taken : Makes b (release_locked b r id, false) = one (move_take id r held) in
    let started : Makes b (start_write b r state id, true) = one (move_start id r state held h) in
    search (branch, taken, started)

begin_write-Made : (b : StreamRescueBudget) (id : ℕ) → Makes b (begin_write b id)
unfolding begin_write
begin_write-Made b id = elim (Option-cases (lookup id b.reservations)) [
  | inl missing ↦ rw missing (search (branch, nothing))
  | inr (r, held) ↦
      let checked = begin_write_record-Made b id r (lookup r.seq b.records) held refl in
      let taken : Makes b (release_locked b r id, false) = one (move_take id r held) in
      rw held (search (branch, nothing, taken, checked))
]

revalidate_class-Made :
    (b : StreamRescueBudget) (id : ℕ) (r : RescueReservation) (class : StreamRescueClass)
    (current : StreamRescueEvidence)
    → lookup id b.reservations ≡ some r
    → Makes b (revalidate_class b r id class current)
unfolding revalidate_class
revalidate_class-Made b id r original_data current held = one (move_take id r held)
revalidate_class-Made b id r failure_recovery current held = one (move_take id r held)
revalidate_class-Made b id r other_core_retry current held = one (move_take id r held)
revalidate_class-Made b id r probe_data current held = one (move_take id r held)
revalidate_class-Made b id r duplicate_or_rejected current held = one (move_take id r held)
revalidate_class-Made b id r healthy_hol current held =
    let taken : Makes {A = StreamRescueClass × ℕ × Bool} b
        (release_locked b r id, (healthy_hol, 0, false)) =
      one (move_take id r held) in
    let kept : Makes {A = StreamRescueClass × ℕ × Bool} b (b, (healthy_hol, id, true)) = nothing in
    search (branch, kept, taken)

revalidate-Made :
    (b : StreamRescueBudget) (id : ℕ) (current : StreamRescueEvidence)
    → Makes b (revalidate_before_write b id current)
unfolding revalidate_before_write
revalidate-Made b id current = elim (Option-cases (lookup id b.reservations)) [
  | inl missing ↦ rw missing (search (branch, nothing))
  | inr (r, held) ↦
      let checked = revalidate_class-Made b id r (classify_rescue current) current held in
      let taken : Makes {A = StreamRescueClass × ℕ × Bool} b
          (release_locked b r id, (duplicate_or_rejected, 0, false)) =
        one (move_take id r held) in
      rw held (search (branch, nothing, taken, checked))
]

settle-Made : (b : StreamRescueBudget) (id accepted at : ℕ) → Makes b (settle b id accepted at)
unfolding settle
settle-Made b id accepted at = elim (Option-cases (lookup id b.reservations)) [
  | inl missing ↦ rw missing (search (branch, nothing))
  | inr (r, held) ↦ elim (Bool-cases (ltb r.reserved_bytes accepted)) [
    | inl above ↦
        let clamped : Makes b
            (prune (take_out (charge b r r.reserved_bytes at) r id) at, over_accepted) =
          made_before (move_settle id r r.reserved_bytes at held (omega arith))
            (one (move_prune at)) in
        rw (held, above, settle) (search (branch, nothing, clamped))
    | inr within ↦
        let taken : Makes b (prune (take_out (charge b r accepted at) r id) at, settled) =
          made_before (move_settle id r accepted at held (ground (arith, within)))
            (one (move_prune at)) in
        rw (held, within, settle) (search (branch, nothing, taken))
  ]
]

release_unstarted-Made : (b : StreamRescueBudget) (id : ℕ) → Makes b (release_unstarted b id)
unfolding release_unstarted
release_unstarted-Made b id = elim (Option-cases (lookup id b.reservations)) [
  | inl missing ↦ rw missing (search (branch, nothing))
  | inr (r, held) ↦
      let taken : Makes b (release_locked b r id, true) = one (move_take id r held) in
      rw held (search (branch, nothing, taken))
]

-- Every call is made of these changes.
pub RescueStep-Made : {b c : StreamRescueBudget} → RescueStep b c → Made b c
RescueStep-Made {b = b} (step_original sequence bytes at) =
    (record_original-Made b sequence bytes at).made
RescueStep-Made {b = b} (step_reserve e payload at) = (reserve-Made b e payload at).made
RescueStep-Made {b = b} (step_begin id) = (begin_write-Made b id).made
RescueStep-Made {b = b} (step_revalidate id current) = (revalidate-Made b id current).made
RescueStep-Made {b = b} (step_settle id accepted at) = (settle-Made b id accepted at).made
RescueStep-Made {b = b} (step_release id) = (release_unstarted-Made b id).made
RescueStep-Made {b = b} (step_ack next) = move_alone (move_ack next)
RescueStep-Made {b = b} step_close = move_alone move_close
RescueStep-Made {b = b} (step_snapshot at) = move_alone (move_prune at)

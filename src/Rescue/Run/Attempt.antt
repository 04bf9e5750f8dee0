-- ===== src/Rescue/Run/Attempt.antt =====
-- core/stream_bounded_rescue.go: one rescue write for a record in each epoch.
use smp3_multipath_kit_publi.Rescue.Run.Spent.{
  reach-Spent, Spent, same_epoch_refl, reach-Known, Known,
}
use smp3_multipath_kit_publi.Rescue.Run.Sound.{new-config, reach-config}
use smp3_multipath_kit_publi.Rescue.Run.{RescueReach}
use smp3_multipath_kit_publi.Rescue.{
  has_epoch, StreamRescueBudget, RescueReservation, RescueRecordState, is_c_only,
  BoundedRescueConfig, new_rescue_refused, new_rescue_budget,
}
use smp3_multipath_kit_publi.Base.{
  Entries, ◌⊎◌, List, ◌≢◌, ℕ, ◌≡◌, ◌∷◌, true, ◌≤◌, arith, refl, false, Absent, inr, inl, some,
  Absent-delete_self, [], insert, delete, before, ap, lookup, Entries-lookup, Bool-cases, ◌∙◌,
  Option-cases, subst, some_injective,
}
use smp3_multipath_kit_publi.Rescue.Write.{start_write, begin_write, begin_write_record}

Absent-other :
    (sequence : ℕ) (P : RescueRecordState → Type 0) (records : List (ℕ × RescueRecordState))
    → Absent sequence records
    → Entries (λ s state. (s ≢ sequence) ⊎ P state) records
Absent-other sequence P [] h = tt
Absent-other sequence P ((s, state) ∷ records) (h, t) = (inl h, Absent-other sequence P records t)

-- The write that starts uses the epoch up.
start_write-Spent :
    (b : StreamRescueBudget) (r : RescueReservation) (state : RescueRecordState) (id : ℕ)
    → Known b
    → lookup r.seq b.records ≡ some state
    → Spent r.seq r.key (start_write b r state id)
unfolding start_write insert has_epoch
start_write-Spent b r state id h found =
    let (seen, passed) =
      Entries-lookup (λ s state. (b.has_original ≡ true) × (s ≤ b.last_original)) r.seq b.records h
        found in
    record {
      seen = seen;
      passed = passed;
      used = (
        inr (rw (same_epoch_refl r.key) refl),
        Absent-other r.seq (λ state. has_epoch r.key state.used_by_epoch ≡ true)
            (delete r.seq b.records) (Absent-delete_self r.seq b.records),
      );
    }

new-Known :
    (cfg : BoundedRescueConfig) (chunk_bytes : ℕ) {b : StreamRescueBudget}
    → new_rescue_budget cfg chunk_bytes ≡ some b
    → Known b
unfolding new_rescue_budget
new-Known cfg chunk_bytes {b} made = elim (Bool-cases (new_rescue_refused cfg chunk_bytes)) [
  | inl refused ↦ cc (rw (refused, new_rescue_budget) at made)
  | inr accepted ↦ subst Known (some_injective (rw (accepted, new_rescue_budget) at made)) tt
]

start_write-config :
    (b : StreamRescueBudget) (r : RescueReservation) (state : RescueRecordState) (id : ℕ)
    → (start_write b r state id).config ≡ b.config
unfolding start_write
start_write-config b r state id = refl

-- What `beginWriteDeferred` found when it starts a write.
begin→started :
    (b : StreamRescueBudget) (id : ℕ) (r : RescueReservation) {c : StreamRescueBudget}
    → lookup id b.reservations ≡ some r
    → begin_write b id ≡ (c, true)
    → (state : RescueRecordState) × (lookup r.seq b.records ≡ some state)
      × (c ≡ start_write b r state id)
unfolding begin_write begin_write_record
begin→started b id r held e = elim (Option-cases (lookup r.seq b.records)) [
  | inl missing ↦ absurd (ground (arith, rw (held, missing, begin_write) at e))
  | inr (state, found) ↦ (state, found, ground (arith, rw (held, found, begin_write) at e))
]

-- Where the epoch is used up, no write starts.
refused_again :
    (b : StreamRescueBudget) (id : ℕ) (r : RescueReservation)
    → is_c_only b.config.factor_mode ≡ false
    → lookup id b.reservations ≡ some r
    → Spent r.seq r.key b
    → (begin_write b id).1 ≡ false
unfolding begin_write begin_write_record
refused_again b id r mode held h = elim (Option-cases (lookup r.seq b.records)) [
  | inl missing ↦ rw (held, missing, begin_write) (ground arith)
  | inr (state, found) ↦
      let used =
        Entries-lookup (λ s state. (s ≢ r.seq) ⊎ (has_epoch r.key state.used_by_epoch ≡ true)) r.seq
          b.records h.used found in
      rw (held, found, begin_write) (ground arith)
]

-- In the modes with the limit for each record: once a rescue write of a record has started in an
-- epoch, no later call, whatever the calls between, starts a rescue write of that record in that
-- epoch, be it by the same reservation or by another.
pub begin_write_once :
    (cfg : BoundedRescueConfig) (chunk_bytes n m id id' : ℕ) {b c d e : StreamRescueBudget}
    {r r' : RescueReservation}
    → is_c_only cfg.factor_mode ≡ false
    → new_rescue_budget cfg chunk_bytes ≡ some b
    → RescueReach b n c
    → lookup id c.reservations ≡ some r
    → begin_write c id ≡ (d, true)
    → RescueReach d m e
    → lookup id' e.reservations ≡ some r'
    → (r'.seq ≡ r.seq) × (r'.key ≡ r.key)
    → (begin_write e id').1 ≡ false
begin_write_once cfg chunk_bytes n m id id' {b} {c} {d} {e} {r} {r'} mode made before held starts
      after held' (same_record, same_key) =
    let known = reach-Known (new-Known cfg chunk_bytes made) n before in
    let (state, found, started) = begin→started c id r held starts in
    let spent : Spent r.seq r.key d = rw started (start_write-Spent c r state id known found) in
    let still = reach-Spent r.seq r.key spent m after in
    let config : e.config ≡ cfg =
      reach-config after
      ∙ ap (λ x. x.config) started
      ∙ start_write-config c r state id
      ∙ reach-config before
      ∙ new-config cfg chunk_bytes made in
    refused_again e id' r' (rw config mode) held' (rw (same_record, same_key) still)

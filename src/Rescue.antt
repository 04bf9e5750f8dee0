-- ===== src/Rescue.antt =====
-- core/stream_bounded_rescue.go: the classes of a DATA attempt, and the state of the rescue budget. The
-- statistics, the events for the observer and what only they read (candidate links, last results,
-- bytes by leg) are left out.
pub mod Classify
pub mod Window
pub mod Reserve
pub mod Write
pub mod Evidence
pub mod Eligible
pub mod Admit
pub mod Account
pub mod Run
pub mod Examples
use smp3_multipath_kit_publi.Base.{
  ◌==◌, ℕ, some, delete, not, ◌&&◌, ◌||◌, false, true, ℤ, Bool, insert, ltb, ◌∷◌, [], if◌then◌else◌,
  List, Option, none,
}

pub data StreamRescueClass : Type 0 where
  original_data healthy_hol failure_recovery other_core_retry : StreamRescueClass
  probe_data duplicate_or_rejected : StreamRescueClass

pub data StreamRescueCause : Type 0 where
  cause_none cause_frontier cause_retry_planner cause_probe : StreamRescueCause

pub record StreamRescueEvidence : Type 0 where
  pub sequence : ℕ
  pub evidence_acked_next : ℕ  -- AckedNext
  pub owner_leg : ℤ  -- int16
  pub record_owner_leg : ℤ  -- int16
  pub target_leg : ℕ
  pub target_generation : ℕ
  pub origin_generation : ℕ
  pub owner_generation : ℕ
  pub recovery_epoch : ℕ
  pub recovery_epoch_current : Bool
  pub cause : StreamRescueCause
  pub is_data : Bool
  pub is_rescue : Bool
  pub for_probe : Bool  -- ProbeData
  pub outstanding : Bool
  pub original_write_in_transit : Bool
  pub original_write_leg : ℕ
  pub frontier_overdue : Bool
  pub original_write_observed : Bool
  pub owner_live : Bool
  pub target_available : Bool
  pub target_generation_matches : Bool
  pub owner_restricted : Bool
  pub owner_invalidated : Bool
  pub generation_matches_origin : Bool

pub data RescueFactorMode : Type 0 where
  factor_full factor_c_only factor_cr : RescueFactorMode

pub record BoundedRescueConfig : Type 0 where
  pub enabled : Bool
  pub budget_basis_points : ℕ
  pub burst_bytes : ℕ
  pub factor_mode : RescueFactorMode

pub record RescueByteEvent : Type 0 where
  pub at : ℕ
  pub event_bytes : ℕ
  pub target : ℕ

pub record RescueEpochKey : Type 0 where
  pub key_generation : ℕ
  pub key_epoch : ℕ

pub record RescueRecordState : Type 0 where
  pub acked : Bool
  pub pending_by_epoch : List (RescueEpochKey × ℕ)
  pub used_by_epoch : List RescueEpochKey
  pub lifetime_attempt : ℕ

pub record RescueReservation : Type 0 where
  pub reservation_id : ℕ
  pub seq : ℕ
  pub key : RescueEpochKey
  pub target : ℕ
  pub reserved_bytes : ℕ
  pub base_bytes : ℕ
  pub burst_part : ℕ
  pub started : Bool
  pub evidence : StreamRescueEvidence

-- `accepted_events` is a heap (container/heap), here the list of its events by time.
pub record StreamRescueBudget : Type 0 where
  pub config : BoundedRescueConfig
  pub closed : Bool
  pub acked_next : ℕ
  pub last_original : ℕ
  pub has_original : Bool
  pub next_reservation : ℕ
  pub next_attempt : ℕ
  pub next_candidate : ℕ
  pub original_events : List RescueByteEvent
  pub accepted_events : List RescueByteEvent
  pub window_original : ℕ
  pub window_accepted : ℕ
  pub base_reserved : ℕ
  pub burst_reserved : ℕ
  pub burst_committed : ℕ
  pub reservations : List (ℕ × RescueReservation)
  pub records : List (ℕ × RescueRecordState)

abbrev pub valid_basis_points : ℕ → Bool
valid_basis_points bp = bp == 25 || bp == 50 || bp == 100 || bp == 300 || bp == 500 || bp == 909

-- The errors of `newStreamBoundedRescueBudget`; the factor mode is one of three by its type.
unfoldable pub new_rescue_refused : BoundedRescueConfig → ℕ → Bool
new_rescue_refused cfg chunk_bytes =
    not cfg.enabled
    || not (valid_basis_points cfg.budget_basis_points)
    || chunk_bytes == 0
    || ltb chunk_bytes cfg.burst_bytes

-- `none` for an error. The session's random identity is left out.
unfoldable pub new_rescue_budget : BoundedRescueConfig → ℕ → Option StreamRescueBudget
new_rescue_budget cfg chunk_bytes =
    if new_rescue_refused cfg chunk_bytes
    then none
    else some (record {
      config = cfg;
      closed = false;
      acked_next = 0;
      last_original = 0;
      has_original = false;
      next_reservation = 0;
      next_attempt = 0;
      next_candidate = 0;
      original_events = [];
      accepted_events = [];
      window_original = 0;
      window_accepted = 0;
      base_reserved = 0;
      burst_reserved = 0;
      burst_committed = 0;
      reservations = [];
      records = [];
    })

abbrev pub same_epoch : RescueEpochKey → RescueEpochKey → Bool
same_epoch a b = a.key_generation == b.key_generation && a.key_epoch == b.key_epoch

-- The maps of a record by its epochs.
unfoldable pub has_epoch : RescueEpochKey → List RescueEpochKey → Bool
has_epoch k [] = false
has_epoch k (e ∷ es) = same_epoch e k || has_epoch k es

unfoldable pub lookup_epoch : RescueEpochKey → List (RescueEpochKey × ℕ) → Option ℕ
lookup_epoch k [] = none
lookup_epoch k ((e, id) ∷ m) = if same_epoch e k then some id else lookup_epoch k m

unfoldable pub delete_epoch : RescueEpochKey → List (RescueEpochKey × ℕ) → List (RescueEpochKey × ℕ)
delete_epoch k [] = []
delete_epoch k ((e, id) ∷ m) =
    if same_epoch e k then delete_epoch k m else (e, id) ∷ delete_epoch k m

abbrev pub is_c_only : RescueFactorMode → Bool
is_c_only factor_c_only = true
is_c_only factor_full = false
is_c_only factor_cr = false

abbrev pub is_full : RescueFactorMode → Bool
is_full factor_full = true
is_full factor_c_only = false
is_full factor_cr = false

abbrev pub epoch_of : StreamRescueEvidence → RescueEpochKey
epoch_of e = record { key_generation = e.origin_generation; key_epoch = e.recovery_epoch }

abbrev pub no_pending : List (RescueEpochKey × ℕ) → Bool
no_pending [] = true
no_pending (p ∷ ps) = false

-- The map of records after a change of one, which `maybeDeleteRecordLocked` may delete.
unfoldable pub store_record :
    ℕ → RescueRecordState → List (ℕ × RescueRecordState) → List (ℕ × RescueRecordState)
store_record sequence state records =
    if state.acked && no_pending state.pending_by_epoch
    then delete sequence records
    else insert sequence state records

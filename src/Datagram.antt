-- ===== src/Datagram.antt =====
-- core/datagram_engine.go, acceptDatagramID: which datagrams of several carriers are new. The lock
-- makes each call one step.
pub mod Once
pub mod Examples
use smp3_multipath_kit_publi.Base.{
  ℕ, [], ◌^◌, length, if◌then◌else◌, ◌||◌, ◌==◌, Bool, ◌∷◌, false, ◌-◌, ◌%◌, true, lookup, List,
  insert, ◌*◌, ◌&&◌, leb, ltb, is_some,
}

pub data DatagramMode : Type 0 where
  stripe duplicate adaptive : DatagramMode

-- The fields of DatagramConfig that the method reads.
pub record DatagramConfig : Type 0 where
  pub mode : DatagramMode
  pub dedup_window : ℕ  -- uint64
  pub adaptive_duplicate_threshold : ℕ  -- int, not negative here

pub record DedupState : Type 0 where
  pub seen : List (ℕ × Unit {0})  -- map[uint64]struct{}
  pub max_seen : ℕ  -- uint64

abbrev pub new_dedup : DedupState
new_dedup = record { seen = []; max_seen = 0 }

abbrev pub may_be_replicated : DatagramConfig → ℕ → Bool
may_be_replicated cfg size = elim cfg.mode [
  | stripe ↦ false
  | duplicate ↦ true
  | adaptive ↦ ltb 0 cfg.adaptive_duplicate_threshold && leb size cfg.adaptive_duplicate_threshold
]

-- for seq := range seen { if seq < floor { delete(seen, seq) } }
pub keep_from : ℕ → List (ℕ × Unit {0}) → List (ℕ × Unit {0})
keep_from floor [] = []
keep_from floor ((k, v) ∷ m) =
    let rest = keep_from floor m in if ltb k floor then rest else (k, v) ∷ rest

-- The state once the id is new.
pub remember : ℕ → DedupState → ℕ → DedupState
remember window s id =
    let seen = insert id tt s.seen in
    let max_seen = if ltb s.max_seen id || length seen == 1 then id else s.max_seen in
    record {
      seen =
          if ltb window max_seen && ltb (window * 2 % 2 ^ 64) (length seen)
          then keep_from (max_seen - window) seen
          else seen;
      max_seen = max_seen;
    }

pub accept_datagram_id : DatagramConfig → DedupState → ℕ → ℕ → DedupState × Bool
accept_datagram_id cfg s id size =
    let window = cfg.dedup_window in
    if may_be_replicated cfg size
      && ltb 0 (length s.seen)
      && ltb window s.max_seen
      && ltb id (s.max_seen - window)
    then (s, false)
    else if is_some (lookup id s.seen)
    then (s, false)
    else (remember window s id, true)

-- The datagrams of a run, by id and size, and the ids that were accepted, newest first.
pub accept_all : DatagramConfig → DedupState → List ℕ → List (ℕ × ℕ) → DedupState × List ℕ
accept_all cfg s accepted [] = (s, accepted)
accept_all cfg s accepted ((id, size) ∷ packets) =
    let step = accept_datagram_id cfg s id size in
    accept_all cfg step.0 (if step.1 then id ∷ accepted else accepted) packets

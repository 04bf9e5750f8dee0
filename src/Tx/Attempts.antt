-- ===== src/Tx/Attempts.antt =====
-- core/stream_tx.go: claiming, committing and abandoning the attempts to send a record.
pub mod Keep
pub mod Cycle
pub mod Invalidate
pub mod Frame
use smp3_multipath_kit_publi.Base.{
  ◌+◌, true, not, ℕ, ◌%◌, ltb, leb, none, false, ◌&&◌, some, ◌==◌, ◌^◌, length, Bool, map,
  if◌then◌else◌, Option, ◌||◌, map_values, ℤ,
}
use smp3_multipath_kit_publi.Tx.{StreamTxRecord, StreamTxLedger, find, store, is_leg}

-- A method on the record of a handle; it does nothing to a record that is not outstanding. `change`
-- is `none` where the method returns without a change.
abbrev pub on_record {ℓ} :
    {R : Type ℓ}
    → StreamTxLedger
    → Option ℕ
    → R
    → (StreamTxRecord → Option (StreamTxRecord × R))
    → StreamTxLedger × R
on_record l handle idle change = elim (find l handle) [
  | none ↦ (l, idle)
  | some r ↦ elim (change r) [ none ↦ (l, idle) | some p ↦ (store l p.0, p.1) ]
]

abbrev pub transit_change : ℕ → ℕ → StreamTxRecord → Option (StreamTxRecord × Bool)
transit_change leg now r =
    if r.in_transit
    then none
    else some (
      record r {
        in_transit = true;
        duplicated = if ltb 0 r.send_count then true else r.duplicated;
        transit_leg = leg;
        transit_since = now;
      },
      true,
    )

unfoldable pub mark_transit : StreamTxLedger → Option ℕ → ℕ → ℕ → StreamTxLedger × Bool
mark_transit l handle leg now = on_record l handle false (transit_change leg now)

-- markRescueTransitLocked: the result is the attempt's time stamp and whether it was claimed.
abbrev pub rescue_change : ℕ → ℕ → StreamTxRecord → Option (StreamTxRecord × (ℕ × Bool))
rescue_change leg now r =
    if r.rescue_in_transit || (r.in_transit && r.transit_leg == leg)
    then none
    else some (
      record r {
        rescue_in_transit = true;
        duplicated = true;
        rescue_leg = leg;
        rescue_since = now;
      },
      (now, true),
    )

pub mark_rescue_transit : StreamTxLedger → Option ℕ → ℕ → ℕ → StreamTxLedger × (ℕ × Bool)
mark_rescue_transit l handle leg now = on_record l handle (0, false) (rescue_change leg now)

-- `record.ordinaryOwner != owner` is false, for an owner that is -1 or a leg.
abbrev pub same_owner : Option ℕ → Option ℕ → Bool
same_owner none none = true
same_owner none (some y) = false
same_owner (some x) none = false
same_owner (some x) (some y) = x == y

-- The owner's test reads the record before the ledger looks it up; a record that is no longer
-- outstanding fails at the one or the other.
pub mark_restricted_rescue_transit :
    StreamTxLedger → Option ℕ → ℕ → Option ℕ → ℕ → StreamTxLedger × (ℕ × Bool)
mark_restricted_rescue_transit l handle leg owner now =
    on_record l handle (0, false)
      λ r. if same_owner r.ordinary_owner owner then rescue_change leg now r else none

pub mark_rescue_queued : StreamTxLedger → Option ℕ → ℕ → ℕ → StreamTxLedger × Bool
mark_rescue_queued l handle leg started = on_record l handle false λ r.
    if (r.rescue_in_transit && r.rescue_leg == leg && r.rescue_since == started)
      || r.last_sent_attempt_at == started
    then some (record r { last_rescue_at = started }, true)
    else none

-- A rescue that ends before it was written takes its cooldown back.
abbrev pub drop_rescue : StreamTxRecord → StreamTxRecord
drop_rescue r = record r {
  last_rescue_at = if r.last_rescue_at == r.rescue_since then 0 else r.last_rescue_at;
  rescue_in_transit = false;
  rescue_since = 0;
}

-- clearAttemptAt, whose zero `started` stands for any attempt; ClearAttempt passes that.
pub clear_attempt_at : StreamTxLedger → Option ℕ → ℕ → Bool → ℕ → StreamTxLedger
clear_attempt_at l handle leg rescue started =
    (on_record {0} l handle tt λ r.
      if rescue
      then if r.rescue_in_transit
          && r.rescue_leg == leg
          && (started == 0 || r.rescue_since == started)
        then some (drop_rescue r, tt)
        else none
      else if r.in_transit && r.transit_leg == leg && (started == 0 || r.transit_since == started)
      then some (record r { in_transit = false; transit_since = 0 }, tt)
      else none).0

-- The claim that an attempt on the leg holds on the record.
abbrev pub claims : Bool → ℕ → StreamTxRecord → Bool
claims rescue leg r =
    if rescue
    then r.rescue_in_transit && r.rescue_leg == leg
    else r.in_transit && r.transit_leg == leg

pub attempt_current : StreamTxLedger → Option ℕ → ℕ → Bool → Bool
attempt_current l handle leg rescue = elim (find l handle) [
  | none ↦ false
  | some r ↦ claims rescue leg r
]

pub record StreamTxAttemptResult : Type 0 where
  pub applied : Bool
  pub bytes : ℕ
  pub retransmit : Bool

abbrev pub no_attempt : StreamTxAttemptResult
no_attempt = record { applied = false; bytes = 0; retransmit = false }

-- The record when its write on the leg has succeeded, `started` being the attempt's time stamp.
abbrev pub sent_record : ℕ → Bool → ℕ → ℕ → StreamTxRecord → StreamTxRecord
sent_record leg rescue started now r =
    let latest = r.last_sent_attempt_at == 0 || leb r.last_sent_attempt_at started in
    record r {
      rescue_in_transit = if rescue then false else r.rescue_in_transit;
      rescue_since = if rescue then 0 else r.rescue_since;
      in_transit = if rescue then r.in_transit else false;
      transit_since = if rescue then r.transit_since else 0;
      last_sent_attempt_at = if latest then started else r.last_sent_attempt_at;
      last_sent_at = if latest then now else r.last_sent_at;
      last_sent_leg = if latest then some leg else r.last_sent_leg;
      first_write_at = if r.first_write_at == 0 then started else r.first_write_at;
      send_count = (r.send_count + 1) % 2 ^ 32;
    }

abbrev pub attempt_started : Bool → ℕ → StreamTxRecord → ℕ
attempt_started rescue now r =
    let since = if rescue then r.rescue_since else r.transit_since in
    if since == 0 then now else since

pub mark_attempt_sent :
    StreamTxLedger → Option ℕ → ℕ → Bool → ℕ → StreamTxLedger × StreamTxAttemptResult
mark_attempt_sent l handle leg rescue now = on_record l handle no_attempt λ r.
    if claims rescue leg r
    then some (
      sent_record leg rescue (attempt_started rescue now r) now r,
      record {
        applied = true;
        bytes = length r.payload;
        retransmit = rescue || ltb 1 ((r.send_count + 1) % 2 ^ 32);
      },
    )
    else none

-- InvalidateLegWithReason visits every outstanding record.
abbrev pub invalidated_record : ℕ → StreamTxRecord → StreamTxRecord
invalidated_record leg r =
    let owned = is_leg r.ordinary_owner leg in
    let sent = r.in_transit && r.transit_leg == leg in
    let rescued = r.rescue_in_transit && r.rescue_leg == leg in
    record r {
      duplicated = if owned then true else r.duplicated;
      invalidated = if owned then true else r.invalidated;
      in_transit = if sent then false else r.in_transit;
      transit_since = if sent then 0 else r.transit_since;
      last_rescue_at =
          if rescued && r.last_rescue_at == r.rescue_since then 0 else r.last_rescue_at;
      rescue_in_transit = if rescued then false else r.rescue_in_transit;
      rescue_since = if rescued then 0 else r.rescue_since;
      last_sent_leg = if is_leg r.last_sent_leg leg then none else r.last_sent_leg;
    }

pub invalidate_leg : StreamTxLedger → ℕ → StreamTxLedger
invalidate_leg l leg = record l { outstanding = map_values (invalidated_record leg) l.outstanding }

pub mark_write_started : StreamTxLedger → ℕ → ℕ → Bool → ℕ → StreamTxLedger
mark_write_started l sequence leg rescue now =
    (on_record {0} l (some sequence) tt λ r.
      if not rescue && r.in_transit && r.transit_leg == leg && r.first_write_at == 0
      then some (record r { first_write_at = now }, tt)
      else none).0

-- setOrigin, with epoch.UnixNano().
pub set_origin : StreamTxLedger → ℕ → ℕ → ℤ → StreamTxLedger
set_origin l sequence generation epoch =
    (on_record {0} l (some sequence) tt
      λ r. some (record r { origin_generation = generation; origin_epoch = epoch }, tt)).0

-- The record is the application's until its enqueue has ended. On a record that is not outstanding
-- the flag is of no account.
pub finish_local_enqueue : StreamTxLedger → ℕ → StreamTxLedger
finish_local_enqueue l sequence =
    (on_record {0} l (some sequence) tt λ r. some (record r { local_enqueue = false }, tt)).0

-- ===== src/Rescue/Account.antt =====
-- core/stream_bounded_rescue.go: what the accounting of the budget keeps true, in the mode with a
-- rolling budget.
use smp3_multipath_kit_publi.Rescue.{
  BoundedRescueConfig, is_full, StreamRescueBudget, RescueReservation,
}
use smp3_multipath_kit_publi.Rescue.Window.{saturating_add, split_budget, bounded_rescue_ratio}
use smp3_multipath_kit_publi.Base.{
  sum_over, ◌+◌, ◌≤◌, arith, ◌≡◌, ◌^◌, Entries, leb, ◌-◌, some, true, Distinct, if◌then◌else◌, ℕ,
  ◌<◌, List, sum_over-insert, Distinct-insert, sum_over-delete, ◌∷◌, Absent, add64,
  Absent→lookup-none, insert, Entries-weaken, Entries-insert, Entries-lookup, suc, delete, [],
  lookup, Distinct-delete, insert_new, Entries-delete,
}

abbrev pub base_of : List (ℕ × RescueReservation) → ℕ
base_of = sum_over (λ r. r.base_bytes)

abbrev pub burst_of : List (ℕ × RescueReservation) → ℕ
burst_of = sum_over (λ r. r.burst_part)

-- A reservation's id was handed out, and its bytes are its two parts.
abbrev pub Handed : ℕ → ℕ → RescueReservation → Type 0
Handed last id r = (id ≤ last) × (r.reserved_bytes ≡ r.base_bytes + r.burst_part)

-- After n calls at most: the reserved bytes are those of the open reservations, and what the burst
-- has paid and holds is within its limit.
pub record Accounted (n : ℕ) (cfg : BoundedRescueConfig) (last : ℕ)
    (reservations : List (ℕ × RescueReservation)) (base burst committed : ℕ) : Type 0 where
  pub full : is_full cfg.factor_mode ≡ true
  pub burst_fits : cfg.burst_bytes < 2 ^ 64
  pub counted : last ≤ n
  pub distinct : Distinct reservations
  pub handed : Entries (Handed last) reservations
  pub base_sum : base ≡ base_of reservations
  pub burst_sum : burst ≡ burst_of reservations
  pub base_fits : base < 2 ^ 64
  pub limit : committed + burst ≤ cfg.burst_bytes

abbrev pub IsAccounted : ℕ → StreamRescueBudget → Type 0
IsAccounted n b =
    Accounted n b.config b.next_reservation b.reservations b.base_reserved b.burst_reserved
      b.burst_committed

saturating_add-ge : (a b : ℕ) → b < 2 ^ 64 → b ≤ saturating_add a b
unfolding saturating_add
saturating_add-ge a b fits = ground arith

saturating_add-exact : (a b : ℕ) → a + b < 2 ^ 64 → saturating_add a b ≡ a + b
unfolding saturating_add
saturating_add-exact a b fits = ground arith

saturating_add-le : (a b : ℕ) → saturating_add a b ≤ a + b
unfolding saturating_add
saturating_add-le a b = ground arith

bounded_rescue_ratio-lt : (bytes bp : ℕ) → bounded_rescue_ratio bytes bp < 2 ^ 64
unfolding bounded_rescue_ratio
bounded_rescue_ratio-lt bytes bp = omega arith

-- What a split leaves within the limits.
pub split_budget-Within :
    (cfg : BoundedRescueConfig) (original accepted base burst committed payload : ℕ)
    {base_part burst_part : ℕ}
    → cfg.burst_bytes < 2 ^ 64
    → base < 2 ^ 64
    → committed + burst ≤ cfg.burst_bytes
    → split_budget cfg original accepted base burst committed payload ≡ some (base_part, burst_part)
    → (payload ≡ base_part + burst_part)
      × (base + base_part < 2 ^ 64)
      × (committed + (burst + burst_part) ≤ cfg.burst_bytes)
unfolding split_budget
split_budget-Within cfg original accepted base burst committed payload fits small limit e = ground (
  arith,
  saturating_add-ge accepted base small,
  saturating_add-exact committed burst (omega arith),
  saturating_add-le
      (bounded_rescue_ratio original cfg.budget_basis_points - saturating_add accepted base)
      (if leb (cfg.burst_bytes - saturating_add committed burst)
          (saturating_add accepted base - bounded_rescue_ratio original cfg.budget_basis_points)
        then 0
        else cfg.burst_bytes
          - saturating_add committed burst
          - (saturating_add accepted base - bounded_rescue_ratio original cfg.budget_basis_points)),
  bounded_rescue_ratio-lt original cfg.budget_basis_points,
)

Handed-later :
    (last next : ℕ)
    → last ≤ next
    → (id : ℕ) (r : RescueReservation) → Handed last id r
    → Handed next id r
Handed-later last next later id r h = (omega (arith, h.0), h.1)

-- No entry has an id that was not handed out.
Handed-Absent :
    (last id : ℕ) (reservations : List (ℕ × RescueReservation))
    → last < id
    → Entries (Handed last) reservations
    → Absent id reservations
Handed-Absent last id [] above h = tt
Handed-Absent last id ((j, r) ∷ m) above (h, t) =
    ((λ e. omega (arith, h.0, e)), Handed-Absent last id m above t)

pub Accounted-more :
    {n m : ℕ} {cfg : BoundedRescueConfig} {last base burst committed : ℕ}
    {reservations : List (ℕ × RescueReservation)}
    → n ≤ m
    → Accounted n cfg last reservations base burst committed
    → Accounted m cfg last reservations base burst committed
Accounted-more more h = record {
  full = h.full;
  burst_fits = h.burst_fits;
  counted = omega (arith, h.counted, more);
  distinct = h.distinct;
  handed = h.handed;
  base_sum = h.base_sum;
  burst_sum = h.burst_sum;
  base_fits = h.base_fits;
  limit = h.limit;
}

module _ {n : ℕ} {cfg : BoundedRescueConfig} {last base burst committed : ℕ}
    {reservations : List (ℕ × RescueReservation)}
    (h : Accounted n cfg last reservations base burst committed) where
  -- A reservation goes, and what it held goes with it; a part of its burst may have been paid.
  pub Accounted-delete :
      (id paid : ℕ) (r : RescueReservation)
      → lookup id reservations ≡ some r
      → paid ≤ r.burst_part
      → Accounted n cfg last
          (delete id reservations)
          (base - r.base_bytes)
          (burst - r.burst_part)
          (committed + paid)
  Accounted-delete id paid r found part =
      let bases = sum_over-delete (λ r. r.base_bytes) id reservations h.distinct found in
      let bursts = sum_over-delete (λ r. r.burst_part) id reservations h.distinct found in
      record {
        full = h.full;
        burst_fits = h.burst_fits;
        counted = h.counted;
        distinct = Distinct-delete id reservations h.distinct;
        handed = Entries-delete (Handed last) id reservations h.handed;
        base_sum = omega (arith, bases, h.base_sum);
        burst_sum = omega (arith, bursts, h.burst_sum);
        base_fits = omega (arith, h.base_fits);
        limit = omega (arith, bursts, h.burst_sum, h.limit, part);
      }

  -- A new reservation, whose parts a split allowed.
  pub Accounted-add :
      (r : RescueReservation)
      → n < 2 ^ 64 - 1
      → r.reserved_bytes ≡ r.base_bytes + r.burst_part
      → base + r.base_bytes < 2 ^ 64
      → committed + (burst + r.burst_part) ≤ cfg.burst_bytes
      → Accounted
          (suc n)
          cfg
          (add64 last 1)
          (insert (add64 last 1) r reservations)
          (add64 base r.base_bytes)
          (add64 burst r.burst_part)
          committed
  Accounted-add r room parts base_room burst_room =
      let next : add64 last 1 ≡ last + 1 = omega (arith, h.counted) in
      let fresh = Handed-Absent last (last + 1) reservations (omega arith) h.handed in
      let new =
        insert_new (last + 1) r reservations (Absent→lookup-none (last + 1) reservations fresh) in
      let base_sum : add64 base r.base_bytes ≡ base + r.base_bytes = omega (arith, base_room) in
      let burst_sum : add64 burst r.burst_part ≡ burst + r.burst_part =
        omega (arith, burst_room, h.burst_fits) in
      rw (next, new, base_sum, burst_sum)
        (record {
          full = h.full;
          burst_fits = h.burst_fits;
          counted = omega (arith, h.counted);
          distinct = (fresh, h.distinct);
          handed = (
            (omega arith, parts),
            Entries-weaken (Handed last) (Handed (last + 1))
                (Handed-later last (last + 1) (omega arith)) reservations h.handed,
          );
          base_sum = omega (arith, h.base_sum);
          burst_sum = omega (arith, h.burst_sum);
          base_fits = base_room;
          limit = burst_room;
        })

  -- An open reservation changes, and keeps its bytes.
  pub Accounted-replace :
      (id : ℕ) (r u : RescueReservation)
      → lookup id reservations ≡ some r
      → u.reserved_bytes ≡ r.reserved_bytes
      → u.base_bytes ≡ r.base_bytes
      → u.burst_part ≡ r.burst_part
      → Accounted n cfg last (insert id u reservations) base burst committed
  Accounted-replace id r u found whole base_part burst_part =
      let bases = sum_over-insert (λ r. r.base_bytes) id u reservations h.distinct found in
      let bursts = sum_over-insert (λ r. r.burst_part) id u reservations h.distinct found in
      let old = Entries-lookup (Handed last) id reservations h.handed found in
      record {
        full = h.full;
        burst_fits = h.burst_fits;
        counted = h.counted;
        distinct = Distinct-insert id u reservations h.distinct;
        handed =
            Entries-insert (Handed last) id u reservations
              (old.0, omega (arith, old.1, whole, base_part, burst_part)) h.handed;
        base_sum = omega (arith, bases, h.base_sum, base_part);
        burst_sum = omega (arith, bursts, h.burst_sum, burst_part);
        base_fits = h.base_fits;
        limit = h.limit;
      }

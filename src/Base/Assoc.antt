-- ===== src/Base/Assoc.antt =====
-- Go's map[uint64]V as an association list.
use Prim.Native.Nat.{ℕ, suc, ◌+◌, ◌≤◌}
use mathlib.Core.Path.{subst₂, ◌≡◌, refl}
use mathlib.Core.Logic.{◌≢◌, inl, inr}
use mathlib.Core.Option.{Option, none, some}
use mathlib.Core.List.{List, [], ◌∷◌}
use native.Mathlib.Omega.{arith}
use smp3_multipath_kit_publi.Base.Tests.{is_some, Bool-cases, ==_iff, ◌==◌, if◌then◌else◌}
use smp3_multipath_kit_publi.Base.Lists.{length, All}

module _ {ℓ} {V : Type ℓ} where
  unfoldable pub lookup : ℕ → List (ℕ × V) → Option V
  lookup k [] = none
  lookup k ((j, v) ∷ m) = if j == k then some v else lookup k m

  unfoldable pub delete : ℕ → List (ℕ × V) → List (ℕ × V)
  delete k [] = []
  delete k ((j, v) ∷ m) = if j == k then delete k m else (j, v) ∷ delete k m

  unfoldable pub insert : ℕ → V → List (ℕ × V) → List (ℕ × V)
  insert k v m = (k, v) ∷ delete k m

  pub lookup-delete :
      (k j : ℕ) (m : List (ℕ × V)) → lookup j (delete k m) ≡ (if k == j then none else lookup j m)
  unfolding lookup delete
  lookup-delete k j [] = ground arith
  lookup-delete k j ((i, v) ∷ m) = ground (arith, lookup-delete k j m)

  pub lookup-insert :
      (k j : ℕ) (v : V) (m : List (ℕ × V))
      → lookup j (insert k v m) ≡ (if k == j then some v else lookup j m)
  unfolding lookup insert
  lookup-insert k j v m = ground (arith, lookup-delete k j m)

  -- Every entry satisfies P.
  abbrev pub Entries {κ} : (ℕ → V → Type κ) → List (ℕ × V) → Type κ
  Entries P = All (λ e. P e.0 e.1)

  -- No entry has the key k, and each key stands once: what makes a list a map.
  abbrev pub Absent : ℕ → List (ℕ × V) → Type 0
  Absent k = All (λ e. e.0 ≢ k)

  abbrev pub Distinct : List (ℕ × V) → Type 0
  Distinct [] = Unit {0}
  Distinct ((k, v) ∷ m) = Absent k m × Distinct m

  pub Absent-delete : (k j : ℕ) (m : List (ℕ × V)) → Absent j m → Absent j (delete k m)
  unfolding delete
  Absent-delete k j [] h = tt
  Absent-delete k j ((i, v) ∷ m) (h, t) = ground (arith, Absent-delete k j m t)

  pub Absent-delete_self : (k : ℕ) (m : List (ℕ × V)) → Absent k (delete k m)
  unfolding delete
  Absent-delete_self k [] = tt
  Absent-delete_self k ((i, v) ∷ m) = ground (arith, Absent-delete_self k m)

  pub Distinct-delete : (k : ℕ) (m : List (ℕ × V)) → Distinct m → Distinct (delete k m)
  unfolding delete
  Distinct-delete k [] h = tt
  Distinct-delete k ((i, v) ∷ m) (h, t) =
      ground (arith, Distinct-delete k m t, Absent-delete k i m h)

  pub Distinct-insert : (k : ℕ) (v : V) (m : List (ℕ × V)) → Distinct m → Distinct (insert k v m)
  unfolding insert
  Distinct-insert k v m h = (Absent-delete_self k m, Distinct-delete k m h)

  pub delete-Absent : (k : ℕ) (m : List (ℕ × V)) → Absent k m → delete k m ≡ m
  unfolding delete
  delete-Absent k [] h = refl
  delete-Absent k ((i, v) ∷ m) (h, t) = ground (arith, delete-Absent k m t)

  pub insert_new :
      (k : ℕ) (v : V) (m : List (ℕ × V)) → lookup k m ≡ none → insert k v m ≡ (k, v) ∷ m
  unfolding insert lookup delete
  insert_new k v [] h = refl
  insert_new k v ((j, u) ∷ m) h = ground (arith, insert_new k v m)

  pub lookup-none→Absent : (k : ℕ) (m : List (ℕ × V)) → lookup k m ≡ none → Absent k m
  unfolding lookup
  lookup-none→Absent k [] h = tt
  lookup-none→Absent k ((i, v) ∷ m) h = ground (arith, lookup-none→Absent k m)

  pub Absent→lookup-none : (k : ℕ) (m : List (ℕ × V)) → Absent k m → lookup k m ≡ none
  unfolding lookup
  Absent→lookup-none k [] h = refl
  Absent→lookup-none k ((i, v) ∷ m) (h, t) = ground (arith, Absent→lookup-none k m t)

  pub length-delete-le : (k : ℕ) (m : List (ℕ × V)) → length (delete k m) ≤ length m
  unfolding delete
  length-delete-le k [] = omega arith
  length-delete-le k ((i, v) ∷ m) = ground (arith, length-delete-le k m)

  pub length-delete_found :
      (k : ℕ) (m : List (ℕ × V)) {v : V}
      → Distinct m
      → lookup k m ≡ some v
      → length m ≡ suc (length (delete k m))
  unfolding lookup delete
  length-delete_found k [] d h = cc
  length-delete_found k ((i, u) ∷ m) {v} (a, d) h =
      ground (arith, length-delete_found k m {v = v} d, delete-Absent k m)

-- A change of every value in place.
module _ {ℓ} {V : Type ℓ} (f : V → V) where
  abbrev pub map_values : List (ℕ × V) → List (ℕ × V)
  map_values [] = []
  map_values ((k, v) ∷ m) = (k, f v) ∷ map_values m

  pub lookup-map_values :
      (k : ℕ) (m : List (ℕ × V)) → is_some (lookup k (map_values m)) ≡ is_some (lookup k m)
  unfolding lookup
  lookup-map_values k [] = refl
  lookup-map_values k ((j, v) ∷ m) = ground (arith, lookup-map_values k m)

  pub lookup-map_values_found :
      (k : ℕ) (m : List (ℕ × V)) {v : V}
      → lookup k m ≡ some v
      → lookup k (map_values m) ≡ some (f v)
  unfolding lookup
  lookup-map_values_found k [] e = cc
  lookup-map_values_found k ((j, u) ∷ m) {v} e = ground (arith, lookup-map_values_found k m {v = v})

  Absent-map_values : (k : ℕ) (m : List (ℕ × V)) → Absent k m → Absent k (map_values m)
  Absent-map_values k [] a = tt
  Absent-map_values k ((j, v) ∷ m) (a, rest) = (a, Absent-map_values k m rest)

  pub Distinct-map_values : (m : List (ℕ × V)) → Distinct m → Distinct (map_values m)
  Distinct-map_values [] d = tt
  Distinct-map_values ((k, v) ∷ m) (a, d) = (Absent-map_values k m a, Distinct-map_values m d)

  pub Entries-map_values {κ} :
      (P : ℕ → V → Type κ)
      → ((k : ℕ) (v : V) → P k v → P k (f v))
      → (m : List (ℕ × V)) → Entries P m
      → Entries P (map_values m)
  Entries-map_values P keep [] h = tt
  Entries-map_values P keep ((k, v) ∷ m) (h, t) = (keep k v h, Entries-map_values P keep m t)

pub Entries-weaken {ℓ κ} :
    {V : Type ℓ} (P Q : ℕ → V → Type κ)
    → ((j : ℕ) (v : V) → P j v → Q j v)
    → (m : List (ℕ × V)) → Entries P m
    → Entries Q m
Entries-weaken P Q keep [] h = tt
Entries-weaken P Q keep ((j, v) ∷ m) (h, t) = (keep j v h, Entries-weaken P Q keep m t)

-- What the entries satisfy once the key k is gone.
pub Entries-delete_other {ℓ κ} :
    {V : Type ℓ} (P Q : ℕ → V → Type κ) (k : ℕ)
    → ((j : ℕ) (v : V) → j ≢ k → P j v → Q j v)
    → (m : List (ℕ × V)) → Entries P m
    → Entries Q (delete k m)
unfolding delete
Entries-delete_other P Q k keep [] h = tt
Entries-delete_other P Q k keep ((j, v) ∷ m) (h, t) = elim (Bool-cases (j == k)) [
  | inl hit ↦ rw hit (Entries-delete_other P Q k keep m t)
  | inr miss ↦ rw miss (keep j v (ground (arith, miss)) h, Entries-delete_other P Q k keep m t)
]

module _ {ℓ κ} {V : Type ℓ} (P : ℕ → V → Type κ) where
  pub Entries-delete : (k : ℕ) (m : List (ℕ × V)) → Entries P m → Entries P (delete k m)
  unfolding delete
  Entries-delete k [] h = tt
  Entries-delete k ((i, v) ∷ m) (h, t) = ground (arith, Entries-delete k m t)

  pub Entries-insert :
      (k : ℕ) (v : V) (m : List (ℕ × V)) → P k v → Entries P m → Entries P (insert k v m)
  unfolding insert
  Entries-insert k v m p h = (p, Entries-delete k m h)

  pub Entries-lookup :
      (k : ℕ) (m : List (ℕ × V)) {v : V} → Entries P m → lookup k m ≡ some v → P k v
  unfolding lookup
  Entries-lookup k [] h e = cc
  Entries-lookup k ((i, u) ∷ m) {v} (h, t) e = elim (Bool-cases (i == k)) [
    | inl hit ↦ subst₂ P ((==_iff i k).0 hit) (ground arith) h
    | inr miss ↦ Entries-lookup k m t (rw (miss, lookup) at e)
  ]

module _ {ℓ} {V : Type ℓ} (weight : V → ℕ) where
  -- The sum of a weight over the entries.
  abbrev pub sum_over : List (ℕ × V) → ℕ
  sum_over [] = 0
  sum_over ((k, v) ∷ m) = weight v + sum_over m

  pub sum_over-delete :
      (k : ℕ) (m : List (ℕ × V)) {v : V}
      → Distinct m
      → lookup k m ≡ some v
      → sum_over m ≡ weight v + sum_over (delete k m)
  unfolding lookup delete
  sum_over-delete k [] d h = cc
  sum_over-delete k ((i, u) ∷ m) {v} (a, d) h =
      ground (arith, sum_over-delete k m {v = v} d, delete-Absent k m)

  -- Replacing the value of a key that is there.
  pub sum_over-insert :
      (k : ℕ) (u : V) (m : List (ℕ × V)) {v : V}
      → Distinct m
      → lookup k m ≡ some v
      → sum_over (insert k u m) + weight v ≡ sum_over m + weight u
  unfolding insert
  sum_over-insert k u m {v} d h = omega (arith, sum_over-delete k m {v = v} d h)

  pub sum_over-map_values :
      (f : V → V)
      → ((v : V) → weight (f v) ≡ weight v)
      → (m : List (ℕ × V)) → sum_over (map_values f m) ≡ sum_over m
  sum_over-map_values f same [] = refl
  sum_over-map_values f same ((k, v) ∷ m) = omega (arith, same v, sum_over-map_values f same m)

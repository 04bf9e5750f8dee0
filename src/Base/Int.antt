-- ===== src/Base/Int.antt =====
-- Signed integers over the native numbers, and Go's int64 as a 64-bit pattern.
use Prim.Native.Nat.{ℕ, suc, ◌+◌, ◌*◌, ◌-◌, ◌%◌, ◌^◌, ◌≤◌, ◌<◌}
use mathlib.Core.Bool.{Bool, true, false}
use mathlib.Core.Logic.{◌↔◌}
use mathlib.Core.Path.{◌≡◌}
use native.Mathlib.Omega.{arith}
use smp3_multipath_kit_publi.Base.Tests.{ltb, leb, if◌then◌else◌, u64_mod}

-- `negsuc n` is -(n + 1).
pub data ℤ : Type 0 where
  pos : ℕ → ℤ
  negsuc : ℕ → ℤ

abbrev pub pos_part : ℤ → ℕ
pos_part (pos n) = n
pos_part (negsuc n) = 0

abbrev pub neg_part : ℤ → ℕ
neg_part (pos n) = 0
neg_part (negsuc n) = suc n

infix 50 ◌<ℤ◌ ◌≤ℤ◌
abbrev pub ◌≤ℤ◌ : ℤ → ℤ → Type 0
a ≤ℤ b = pos_part a + neg_part b ≤ pos_part b + neg_part a

abbrev pub ◌<ℤ◌ : ℤ → ℤ → Type 0
a <ℤ b = pos_part a + neg_part b < pos_part b + neg_part a

-- uint64(x) of an int64, and int64(u) of a uint64.
unfoldable pub to_uint64 : ℤ → ℕ
to_uint64 (pos n) = n % u64_mod
to_uint64 (negsuc n) = u64_mod - suc (n % u64_mod)

unfoldable pub to_int64 : ℕ → ℤ
to_int64 u = if ltb u (2 ^ 63) then pos u else negsuc (u64_mod - suc u)

abbrev pub IsInt64 : ℤ → Type 0
IsInt64 (pos n) = n < 2 ^ 63
IsInt64 (negsuc n) = n < 2 ^ 63

pub to_int64-to_uint64 : (x : ℤ) → IsInt64 x → to_int64 (to_uint64 x) ≡ x
unfolding to_int64 to_uint64
to_int64-to_uint64 (pos n) h = ground arith
to_int64-to_uint64 (negsuc n) h = ground arith

pub to_uint64-to_int64 : (u : ℕ) → u < 2 ^ 64 → to_uint64 (to_int64 u) ≡ u
unfolding to_int64 to_uint64
to_uint64-to_int64 u h = ground arith

pub to_uint64-lt : (x : ℤ) → to_uint64 x < u64_mod
unfolding to_uint64
to_uint64-lt (pos n) = omega arith
to_uint64-lt (negsuc n) = omega arith

-- An instant in nanoseconds since the Unix epoch: time.Unix(s, 0), t.Add(d), t.Add(-d), t.Before(u).
unfoldable pub unix_nanos : ℤ → ℤ
unix_nanos (pos s) = pos (s * 1000000000)
unix_nanos (negsuc s) = negsuc (s * 1000000000 + 999999999)

unfoldable pub add_nanos : ℤ → ℕ → ℤ
add_nanos (pos a) d = pos (a + d)
add_nanos (negsuc a) d = if ltb a d then pos (d - suc a) else negsuc (a - d)

unfoldable pub sub_nanos : ℤ → ℕ → ℤ
sub_nanos (pos a) d = if leb d a then pos (a - d) else negsuc (d - suc a)
sub_nanos (negsuc a) d = negsuc (a + d)

unfoldable pub before : ℤ → ℤ → Bool
before a b = ltb (pos_part a + neg_part b) (pos_part b + neg_part a)

pub before_iff : (a b : ℤ) → (before a b ≡ true) ↔ (a <ℤ b)
unfolding before
before_iff a b = (λ h. ground arith, λ h. ground arith)

pub not-before_iff : (a b : ℤ) → (before a b ≡ false) ↔ (b ≤ℤ a)
unfolding before
not-before_iff a b = (λ h. ground arith, λ h. ground arith)

-- ===== src/Wire/Canonical.antt =====
-- Fields read off a byte string are written back as the same bytes (encoding/binary and slices).
use smp3_multipath_kit_publi.Wire.Bytes.{IsByte, be_value_from, length-slice, be_value, be, slice}
use smp3_multipath_kit_publi.Base.{
  zero, get_or, ◌*◌, All, arith, drop, append-nil, ◌≡◌, ◌<◌, length, suc, ap, ◌-◌, [], refl, ◌∷◌,
  ◌≤◌, take, ◌+◌, ◌++◌, ℕ, List, ◌/◌, ◌∙◌, ◌%◌, append_assoc, sym, to_uint64, to_int64, ◌^◌, subst,
  to_uint64-to_int64,
}

take_nil : (n : ℕ) → take {A = ℕ} n [] ≡ []
take_nil zero = refl
take_nil (suc n) = refl

drop_nil : (n : ℕ) → drop {A = ℕ} n [] ≡ []
drop_nil zero = refl
drop_nil (suc n) = refl

-- The bytes of an integer that was read are the bytes it was read from.
be-from :
    (k acc n : ℕ) (xs : List ℕ)
    → All IsByte xs
    → n ≡ k + length xs
    → be n (be_value_from acc xs) ≡ be k acc ++ xs
unfolding be be_value_from
be-from k acc n [] h e = let e' : n ≡ k = omega arith in rw (e', append-nil (be k acc)) refl
be-from k acc n (x ∷ xs) h e =
    let above : (acc * 256 + x) / 256 ≡ acc = omega (arith, h.0) in
    let below : (acc * 256 + x) % 256 ≡ x = omega (arith, h.0) in
    be-from (suc k) (acc * 256 + x) n xs h.1 (omega arith)
    ∙ rw (above, below) (append_assoc (be k acc) (x ∷ []) xs)

be-be_value : (k : ℕ) (xs : List ℕ) → All IsByte xs → length xs ≡ k → be k (be_value xs) ≡ xs
unfolding be_value be
be-be_value k xs h size = be-from 0 0 k xs h (omega arith)

pub take-length : (xs : List ℕ) → take (length xs) xs ≡ xs
take-length [] = refl
take-length (x ∷ xs) = ap (◌∷◌ x) (take-length xs)

pub take-full : (xs : List ℕ) (n : ℕ) → length xs ≡ n → take n xs ≡ xs
take-full xs n size = rw (← size) (take-length xs)

pub slice-front : (n : ℕ) (xs : List ℕ) → slice 0 n xs ≡ take n xs
unfolding slice
slice-front n xs = ap (λ (k : ℕ). take k xs) (omega arith)

pub take-split : (a b n : ℕ) (xs : List ℕ) → n ≡ a + b → take n xs ≡ take a xs ++ take b (drop a xs)
take-split zero b n xs e = let e' : n ≡ b = omega arith in rw e' refl
take-split (suc a) b n [] e = rw (take_nil n, take_nil b) refl
take-split (suc a) b zero (x ∷ xs) e = absurd (omega arith)
take-split (suc a) b (suc n) (x ∷ xs) e = ap (◌∷◌ x) (take-split a b n xs (omega arith))

drop-drop : (a b n : ℕ) (xs : List ℕ) → n ≡ a + b → drop b (drop a xs) ≡ drop n xs
drop-drop zero b n xs e = let e' : n ≡ b = omega arith in rw e' refl
drop-drop (suc a) b n [] e = rw (drop_nil n, drop_nil b) refl
drop-drop (suc a) b zero (x ∷ xs) e = absurd (omega arith)
drop-drop (suc a) b (suc n) (x ∷ xs) e = drop-drop a b n xs (omega arith)

-- Two neighbouring slices are one.
pub slice-join :
    (lo mid hi : ℕ) (xs : List ℕ)
    → lo ≤ mid
    → mid ≤ hi
    → slice lo mid xs ++ slice mid hi xs ≡ slice lo hi xs
unfolding slice
slice-join lo mid hi xs below above = sym (
    rw
      (
        take-split (mid - lo) (hi - mid) (hi - lo) (drop lo xs) (omega arith),
        drop-drop lo (mid - lo) mid xs (omega arith),
      )
      refl)

drop_lt : (i : ℕ) (xs : List ℕ) → i < length xs → drop i xs ≡ get_or xs i 0 ∷ drop (suc i) xs
drop_lt i [] h = absurd (omega arith)
drop_lt zero (x ∷ xs) h = refl
drop_lt (suc i) (x ∷ xs) h = drop_lt i xs (omega arith)

-- A byte and the slice behind it are one slice.
pub slice-byte :
    (lo next hi : ℕ) (xs : List ℕ)
    → lo + 1 ≡ next
    → lo < hi
    → lo < length xs
    → get_or xs lo 0 ∷ slice next hi xs ≡ slice lo hi xs
unfolding slice
slice-byte lo next hi xs up below inside =
    let e : next ≡ suc lo = omega arith in
    let size : hi - lo ≡ suc (hi - suc lo) = omega arith in rw (drop_lt lo xs inside, e, size) refl

-- A front part of bytes is bytes, and so is what stands behind it.
pub bytes-split :
    (front behind : List ℕ) → All IsByte (front ++ behind) → All IsByte front × All IsByte behind
bytes-split [] behind h = (tt, h)
bytes-split (x ∷ front) behind (b, h) = let (f, r) = bytes-split front behind h in ((b, f), r)

-- A slice of bytes is bytes.
pub slice-All : (lo hi : ℕ) (xs : List ℕ) → All IsByte xs → All IsByte (slice lo hi xs)
unfolding slice
slice-All lo hi xs h = take-All (hi - lo) (drop lo xs) (drop-All lo xs h)
  where
    drop-All : (n : ℕ) (xs : List ℕ) → All IsByte xs → All IsByte (drop n xs)
    drop-All zero xs h = h
    drop-All (suc n) [] h = tt
    drop-All (suc n) (x ∷ xs) h = drop-All n xs h.1

    take-All : (n : ℕ) (xs : List ℕ) → All IsByte xs → All IsByte (take n xs)
    take-All zero xs h = tt
    take-All (suc n) [] h = tt
    take-All (suc n) (x ∷ xs) h = (h.0, take-All n xs h.1)

-- An integer field that was read off a slice is written back.
pub be-slice :
    (k lo hi : ℕ) (xs : List ℕ)
    → All IsByte xs
    → lo + k ≡ hi
    → hi ≤ length xs
    → be k (be_value (slice lo hi xs)) ≡ slice lo hi xs
be-slice k lo hi xs h to inside =
    be-be_value k (slice lo hi xs) (slice-All lo hi xs h)
      (omega (arith, length-slice lo hi xs inside))

be_value_from-lt :
    (j n acc : ℕ) (xs : List ℕ)
    → All IsByte xs
    → acc < 256 ^ j
    → n ≡ j + length xs
    → be_value_from acc xs < 256 ^ n
unfolding be_value_from
be_value_from-lt j n acc [] h small e = subst (λ (k : ℕ). acc < 256 ^ k) (omega (arith, e)) small
be_value_from-lt j n acc (x ∷ xs) h small e =
    be_value_from-lt (suc j) n (acc * 256 + x) xs h.1 (omega (arith, h.0, small)) (omega (arith, e))

-- An int64 field that was read off a slice is written back.
pub int64-slice :
    (lo hi : ℕ) (xs : List ℕ)
    → All IsByte xs
    → lo + 8 ≡ hi
    → hi ≤ length xs
    → be 8 (to_uint64 (to_int64 (be_value (slice lo hi xs)))) ≡ slice lo hi xs
unfolding be_value
int64-slice lo hi xs h to inside =
    let size : length (slice lo hi xs) ≡ 8 = omega (arith, length-slice lo hi xs inside, to) in
    let fits : be_value (slice lo hi xs) < 2 ^ 64 =
      be_value_from-lt 0 8 0 (slice lo hi xs) (slice-All lo hi xs h) (omega arith)
        (omega (arith, size)) in
    rw (to_uint64-to_int64 (be_value (slice lo hi xs)) fits) (be-slice 8 lo hi xs h to inside)

-- A byte of the front part.
pub get_or-front :
    (front behind : List ℕ) (i : ℕ)
    → i < length front
    → get_or (front ++ behind) i 0 ≡ get_or front i 0
get_or-front [] behind i h = absurd (omega (arith, h))
get_or-front (x ∷ front) behind zero h = refl
get_or-front (x ∷ front) behind (suc i) h = get_or-front front behind i (omega (arith, h))

-- ===== src/Wire/Bytes.antt =====
-- encoding/binary's big-endian integers, io.ReadFull over a stream of bytes, and the slices of a
-- header that is laid out as a row of fixed-size fields.
use smp3_multipath_kit_publi.Base.{
  ℕ, zero, suc, ◌+◌, ◌-◌, ◌*◌, ◌/◌, ◌%◌, ◌^◌, ◌<◌, ◌≡◌, refl, ◌∙◌, Bool, true, false, ◌&&◌, List,
  [], ◌∷◌, ◌++◌, arith, leb, ◌==◌, if◌then◌else◌, length, take, drop, All, length-append,
  take-append, drop-append, take-append-drop, length-take, length-drop, before, ◌≤◌, sym, ap,
  get_or, append-nil, append_assoc,
}
use smp3_multipath_kit_publi.Wire.Result.{Result, ok, err, eof, unexpected_eof}

abbrev pub IsByte : ℕ → Type 0
IsByte b = b < 256

-- binary.BigEndian.PutUint16, PutUint32 and PutUint64 at k = 2, 4 and 8.
unfoldable pub be : ℕ → ℕ → List ℕ
be zero v = []
be (suc k) v = be k (v / 256) ++ (v % 256 ∷ [])

unfoldable pub be_value_from : ℕ → List ℕ → ℕ
be_value_from acc [] = acc
be_value_from acc (b ∷ bs) = be_value_from (acc * 256 + b) bs

-- binary.BigEndian.Uint16, Uint32 and Uint64.
unfoldable pub be_value : List ℕ → ℕ
unfolding be_value_from
be_value bs = be_value_from 0 bs

be_value_from-append :
    (acc : ℕ) (xs : List ℕ) (b : ℕ)
    → be_value_from acc (xs ++ (b ∷ [])) ≡ be_value_from acc xs * 256 + b
unfolding be_value_from
be_value_from-append acc [] b = refl
be_value_from-append acc (x ∷ xs) b = be_value_from-append (acc * 256 + x) xs b

pub length-be : (k v : ℕ) → length (be k v) ≡ k
unfolding be
length-be zero v = refl
length-be (suc k) v =
    omega (arith, length-append (be k (v / 256)) (v % 256 ∷ []), length-be k (v / 256))

be_value_from-be : (k v : ℕ) → v < 256 ^ k → be_value_from 0 (be k v) ≡ v
unfolding be_value_from be
be_value_from-be zero v h = omega arith
be_value_from-be (suc k) v h = omega (
  arith,
  be_value_from-append 0 (be k (v / 256)) (v % 256),
  be_value_from-be k (v / 256) (omega arith),
)

-- An integer that fits its field is read back as written.
pub be_value-be : (k v : ℕ) → v < 256 ^ k → be_value (be k v) ≡ v
unfolding be_value
be_value-be k v h = be_value_from-be k v h

pub be-All : (k v : ℕ) → All IsByte (be k v)
unfolding be
be-All zero v = tt
be-All (suc k) v = go (be k (v / 256)) (be-All k (v / 256))
  where
    go : (xs : List ℕ) → All IsByte xs → All IsByte (xs ++ (v % 256 ∷ []))
    go [] h = (omega arith, tt)
    go (x ∷ xs) h = (h.0, go xs h.1)

-- io.ReadFull: exactly n bytes of the stream, and the stream behind them.
pub read_full : ℕ → List ℕ → Result (List ℕ × List ℕ)
read_full n stream =
    if leb n (length stream)
    then ok (take n stream, drop n stream)
    else if 0 == length stream
    then err eof
    else err unexpected_eof

pub read_full-append :
    (n : ℕ) (xs ys : List ℕ) → length xs ≡ n → read_full n (xs ++ ys) ≡ ok (xs, ys)
unfolding read_full
read_full-append n xs ys h =
    ground (arith, length-append xs ys, take-append n xs ys h, drop-append n xs ys h)

pub length-read_full :
    (n : ℕ) (stream : List ℕ) {xs ys : List ℕ} → read_full n stream ≡ ok (xs, ys) → length xs ≡ n
unfolding read_full
length-read_full n stream h = ground (arith, length-take n stream)

-- header[lo:hi]
unfoldable pub slice : ℕ → ℕ → List ℕ → List ℕ
slice lo hi xs = take (hi - lo) (drop lo xs)

pub length-slice : (lo hi : ℕ) (xs : List ℕ) → hi ≤ length xs → length (slice lo hi xs) ≡ hi - lo
unfolding slice
length-slice lo hi xs h = length-take (hi - lo) (drop lo xs) (omega (arith, length-drop lo xs))

-- The bytes of a row of fields.
abbrev pub total : List (List ℕ) → ℕ
total [] = 0
total (f ∷ fs) = length f + total fs

abbrev pub row : List (List ℕ) → List ℕ
row [] = []
row (f ∷ fs) = f ++ row fs

pub length-row : (fs : List (List ℕ)) → length (row fs) ≡ total fs
length-row [] = refl
length-row (f ∷ fs) = omega (arith, length-append f (row fs), length-row fs)

drop-row :
    (before after : List (List ℕ)) (n : ℕ)
    → total before ≡ n
    → drop n (row (before ++ after)) ≡ row after
drop-row [] after n h = rw (← h)
drop-row (f ∷ fs) after n h =
    drop-add (length f) f (total fs) (row (fs ++ after)) n refl h
    ∙ drop-row fs after (total fs) refl
  where
    drop-add :
        (k : ℕ) (xs : List ℕ) (m : ℕ) (ys : List ℕ) (n : ℕ)
        → length xs ≡ k
        → k + m ≡ n
        → drop n (xs ++ ys) ≡ drop m ys
    drop-add k [] m ys n e h = let e' : n ≡ m = omega arith in rw e'
    drop-add k (x ∷ xs) m ys zero e h = absurd (omega arith)
    drop-add k (x ∷ xs) m ys (suc n) e h = drop-add (length xs) xs m ys n refl (omega arith)

-- The slice that starts where `before` ends and has the length of `f` is `f`.
pub slice-row :
    (before : List (List ℕ)) (f : List ℕ) (after : List (List ℕ)) (lo hi : ℕ)
    → total before ≡ lo
    → lo + length f ≡ hi
    → slice lo hi (row (before ++ (f ∷ after))) ≡ f
unfolding slice
slice-row before f after lo hi h e =
    rw (drop-row before (f ∷ after) lo h) (take-append (hi - lo) f (row after) (omega arith))

-- bytes.Equal, as hmac.Equal and the comparison of arrays and strings use it.
unfoldable pub bytes_equal : List ℕ → List ℕ → Bool
bytes_equal [] [] = true
bytes_equal [] (y ∷ ys) = false
bytes_equal (x ∷ xs) [] = false
bytes_equal (x ∷ xs) (y ∷ ys) = x == y && bytes_equal xs ys

pub bytes_equal_refl : (xs : List ℕ) → bytes_equal xs xs ≡ true
unfolding bytes_equal
bytes_equal_refl [] = refl
bytes_equal_refl (x ∷ xs) = ground (arith, bytes_equal_refl xs)

pub bytes_equal→eq : (xs ys : List ℕ) → bytes_equal xs ys ≡ true → xs ≡ ys
unfolding bytes_equal
bytes_equal→eq [] [] h = refl
bytes_equal→eq [] (y ∷ ys) h = cc
bytes_equal→eq (x ∷ xs) [] h = cc
bytes_equal→eq (x ∷ xs) (y ∷ ys) h = ground (arith, bytes_equal→eq xs ys)

-- An integer field of a row is read back by its slice.
pub be_field :
    (k v : ℕ) (before after : List (List ℕ)) (lo hi : ℕ)
    → v < 256 ^ k
    → total before ≡ lo
    → lo + k ≡ hi
    → be_value (slice lo hi (row (before ++ (be k v ∷ after)))) ≡ v
be_field k v before after lo hi fits h e =
    rw (slice-row before (be k v) after lo hi h (omega (arith, length-be k v)))
      (be_value-be k v fits)

-- A read that ends without an error takes exactly n bytes off the stream.
pub read_full_takes :
    (n : ℕ) (stream : List ℕ) {xs ys : List ℕ}
    → read_full n stream ≡ ok (xs, ys)
    → (stream ≡ xs ++ ys) × (length xs ≡ n) × (length stream ≡ n + length ys)
unfolding read_full
read_full_takes n stream h =
    ground (arith, length-take n stream, take-append-drop n stream, length-drop n stream)

pub total-append : (fs gs : List (List ℕ)) → total (fs ++ gs) ≡ total fs + total gs
total-append [] gs = omega arith
total-append (f ∷ fs) gs = omega (arith, total-append fs gs)

get_or-drop : (i : ℕ) (xs : List ℕ) → get_or xs i 0 ≡ get_or (drop i xs) 0 0
get_or-drop zero xs = refl
get_or-drop (suc i) [] = refl
get_or-drop (suc i) (x ∷ xs) = get_or-drop i xs

get_or-front : (f rest : List ℕ) → 0 < length f → get_or (f ++ rest) 0 0 ≡ get_or f 0 0
get_or-front [] rest h = absurd (omega arith)
get_or-front (x ∷ f) rest h = refl

-- A row, and one field more.
pub row-snoc : (fs : List (List ℕ)) (f : List ℕ) → row fs ++ f ≡ row (fs ++ (f ∷ []))
row-snoc [] f = sym (append-nil f)
row-snoc (g ∷ fs) f = append_assoc g (row fs) f ∙ ap (◌++◌ g) (row-snoc fs f)

-- A field's slice, and an integer field, where a code stands behind the row.
module _ (before : List (List ℕ)) (f : List ℕ) (after : List (List ℕ)) (tag : List ℕ) where
  pub slice-row_tagged :
      (lo hi : ℕ)
      → total before ≡ lo
      → lo + length f ≡ hi
      → slice lo hi (row (before ++ (f ∷ after)) ++ tag) ≡ f
  slice-row_tagged lo hi at to =
      rw (row-snoc (before ++ (f ∷ after)) tag, append_assoc before (f ∷ after) (tag ∷ []))
        (slice-row before f (after ++ (tag ∷ [])) lo hi at to)

  pub get_or-row_tagged :
      (lo : ℕ)
      → total before ≡ lo
      → 0 < length f
      → get_or (row (before ++ (f ∷ after)) ++ tag) lo 0 ≡ get_or f 0 0
  get_or-row_tagged lo at some_byte =
      rw (row-snoc (before ++ (f ∷ after)) tag, append_assoc before (f ∷ after) (tag ∷ []))
        (get_or-drop lo (row (before ++ (f ∷ (after ++ (tag ∷ [])))))
          ∙ rw (drop-row before (f ∷ (after ++ (tag ∷ []))) lo at) (get_or-front f _ some_byte))

pub be_field_tagged :
    (k v : ℕ) (before after : List (List ℕ)) (tag : List ℕ) (lo hi : ℕ)
    → v < 256 ^ k
    → total before ≡ lo
    → lo + k ≡ hi
    → be_value (slice lo hi (row (before ++ (be k v ∷ after)) ++ tag)) ≡ v
be_field_tagged k v before after tag lo hi fits at to =
    rw (slice-row_tagged before (be k v) after tag lo hi at (omega (arith, length-be k v)))
      (be_value-be k v fits)

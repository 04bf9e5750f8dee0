-- ===== src/Wire/Hello/Header.antt =====
-- core/hello.go: each version's header, read back from the fields that were written.
use smp3_multipath_kit_publi.Base.{
  ℕ, ◌≡◌, refl, List, [], ◌∷◌, ◌++◌, arith, length, ◌≢◌, ◌≤◌, ◌⊎◌, ◌+◌, drop, to_int64, false,
  to_uint64, append_assoc, to_uint64-lt, to_int64-to_uint64, length-drop,
}
use smp3_multipath_kit_publi.Wire.Hello.{
  Hello, IsHello, hello_fields, check_hello, Parsed, read_v4, read_v5, read_v67, v5_fields,
  v4_fields, v67_fields,
}
use smp3_multipath_kit_publi.Wire.Result.{ok}
use smp3_multipath_kit_publi.Wire.Bytes.{
  be, be_value, length-be, be_field, slice-row, read_full-append, row, total, slice, total-append,
  length-row,
}
use smp3_multipath_kit_publi.Wire.Hello.{hello_magic, bad_v6_capabilities, bad_v7_capabilities}

abbrev pub parsed_hello : Hello → List ℕ → Parsed
parsed_hello h rest = record {
  header = row (hello_fields h);
  version = h.version;
  leg_id = h.leg_id;
  mode = h.mode;
  session_id = h.session_id;
  nonce = h.nonce;
  capabilities = h.capabilities;
  timestamp = h.timestamp;
  destination_length = length h.destination;
  rest = rest;
}

-- What `check_hello` leaves true.
pub check_hello→facts :
    (h : Hello) (password : List ℕ)
    → check_hello h password ≡ ok tt
    → (length password ≢ 0)
      × (length h.destination ≢ 0)
      × (length h.destination ≤ 65535)
      × (((h.version ≡ 4) × (h.mode ≡ 0) × (h.capabilities ≡ 0))
          ⊎ ((h.version ≡ 5) × (h.mode ≡ 1) × (h.capabilities ≡ 0))
          ⊎ ((h.version ≡ 6) × (h.mode ≡ 0) × (bad_v6_capabilities h.capabilities ≡ false))
          ⊎ ((h.version ≡ 7) × (h.mode ≡ 0) × (bad_v7_capabilities h.capabilities ≡ false)))
unfolding check_hello
check_hello→facts h password e = ground arith

abbrev pub prefix_of : ℕ → Hello → List ℕ
prefix_of version h = 83 ∷ 77 ∷ 80 ∷ 51 ∷ version ∷ h.leg_id ∷ []

-- The fields that all versions share stand in a row behind `front`.
module _ (h : Hello) (w : IsHello h) (front after : List (List ℕ)) (a b c d : ℕ)
    (at_a : total front ≡ a) (to_b : a + 16 ≡ b) (to_c : b + 8 ≡ c) (to_d : c + 16 ≡ d) where
  abbrev shared_fields : List (List ℕ)
  shared_fields = front ++ (h.session_id ∷ be 8 (to_uint64 h.timestamp) ∷ h.nonce ∷ after)

  session_read : slice a b (row shared_fields) ≡ h.session_id
  session_read = slice-row front h.session_id _ a b at_a (omega (arith, w.session_size))

  time_read : to_int64 (be_value (slice b c (row shared_fields))) ≡ h.timestamp
  time_read =
      let before : List (List ℕ) = front ++ (h.session_id ∷ []) in
      let moved =
        append_assoc front (h.session_id ∷ []) (be 8 (to_uint64 h.timestamp) ∷ h.nonce ∷ after) in
      rw (← moved) (
        rw
          (be_field 8 (to_uint64 h.timestamp) before (h.nonce ∷ after) b c
            (omega (arith, to_uint64-lt h.timestamp))
            (omega (arith, total-append front (h.session_id ∷ []), w.session_size)) to_c)
          (to_int64-to_uint64 h.timestamp w.timestamp_fits))

  nonce_read : slice c d (row shared_fields) ≡ h.nonce
  nonce_read =
      let time : List ℕ = be 8 (to_uint64 h.timestamp) in
      let between : List (List ℕ) = h.session_id ∷ time ∷ [] in
      rw (← append_assoc front between (h.nonce ∷ after)) (
        slice-row (front ++ between) h.nonce after c d
          (omega (
            arith,
            total-append front between,
            w.session_size,
            length-be 8 (to_uint64 h.timestamp),
          ))
          (omega (arith, w.nonce_size)))

module _ (h : Hello) (w : IsHello h) (fits : length h.destination ≤ 65535) (rest : List ℕ) where
  abbrev pub time : List ℕ
  time = be 8 (to_uint64 h.timestamp)

  abbrev size : List ℕ
  size = be 2 (length h.destination)

  -- The length field stands last.
  size_read :
      (before : List (List ℕ)) (lo hi : ℕ)
      → total before ≡ lo
      → lo + 2 ≡ hi
      → be_value (slice lo hi (row (before ++ (size ∷ [])))) ≡ length h.destination
  size_read before lo hi at to =
      be_field 2 (length h.destination) before [] lo hi (omega arith) at to

  pub read_v4-row :
      h.mode ≡ 0
      → h.capabilities ≡ 0
      → h.version ≡ 4
      → read_v4 (prefix_of 4 h) (drop 6 (row (v4_fields h)) ++ rest)
        ≡ ok (record (parsed_hello h rest) { header = row (v4_fields h) })
  unfolding read_v4
  read_v4-row m c v =
      let front : List (List ℕ) = hello_magic ∷ (4 ∷ []) ∷ (h.leg_id ∷ []) ∷ [] in
      let before : List (List ℕ) = front ++ (h.session_id ∷ time ∷ h.nonce ∷ []) in
      let sizes = length-be 8 (to_uint64 h.timestamp) in
      rw
        (read_full-append 42 (drop 6 (row (v4_fields h))) rest (
          omega (
            arith,
            length-drop 6 (row (v4_fields h)),
            length-row (v4_fields h),
            w.session_size,
            w.nonce_size,
            sizes,
            length-be 2 (length h.destination),
          )))
        (ground (
          arith,
          session_read h w front (size ∷ []) 6 22 30 46 refl refl refl refl,
          time_read h w front (size ∷ []) 6 22 30 46 refl refl refl refl,
          nonce_read h w front (size ∷ []) 6 22 30 46 refl refl refl refl,
          size_read before 46 48 (omega (arith, w.session_size, w.nonce_size, sizes)) refl,
        ))

  pub read_v5-row :
      h.mode ≡ 1
      → h.capabilities ≡ 0
      → h.version ≡ 5
      → read_v5 (prefix_of 5 h) (drop 6 (row (v5_fields h)) ++ rest)
        ≡ ok (record (parsed_hello h rest) { header = row (v5_fields h) })
  unfolding read_v5
  read_v5-row m c v =
      let front : List (List ℕ) = hello_magic ∷ (5 ∷ []) ∷ (h.leg_id ∷ []) ∷ (h.mode ∷ []) ∷ [] in
      let before : List (List ℕ) = front ++ (h.session_id ∷ time ∷ h.nonce ∷ []) in
      let sizes = length-be 8 (to_uint64 h.timestamp) in
      rw
        (read_full-append 43 (drop 6 (row (v5_fields h))) rest (
          omega (
            arith,
            length-drop 6 (row (v5_fields h)),
            length-row (v5_fields h),
            w.session_size,
            w.nonce_size,
            sizes,
            length-be 2 (length h.destination),
          )))
        (ground (
          arith,
          session_read h w front (size ∷ []) 7 23 31 47 refl refl refl refl,
          time_read h w front (size ∷ []) 7 23 31 47 refl refl refl refl,
          nonce_read h w front (size ∷ []) 7 23 31 47 refl refl refl refl,
          size_read before 47 49 (omega (arith, w.session_size, w.nonce_size, sizes)) refl,
        ))

  pub read_v67-row :
      h.mode ≡ 0
      → ((h.version ≡ 6) × (bad_v6_capabilities h.capabilities ≡ false))
        ⊎ ((h.version ≡ 7) × (bad_v7_capabilities h.capabilities ≡ false))
      → read_v67 h.version (prefix_of h.version h) (drop 6 (row (v67_fields h)) ++ rest)
        ≡ ok (record (parsed_hello h rest) { header = row (v67_fields h) })
  unfolding read_v67
  read_v67-row m v =
      let caps : List ℕ = be 4 h.capabilities in
      let front : List (List ℕ) =
        hello_magic ∷ (h.version ∷ []) ∷ (h.leg_id ∷ []) ∷ (h.mode ∷ []) ∷ [] in
      let shared : List (List ℕ) = front ++ (h.session_id ∷ time ∷ h.nonce ∷ []) in
      let sizes = length-be 8 (to_uint64 h.timestamp) in
      let caps_size = length-be 4 h.capabilities in
      let at47 : total shared ≡ 47 = omega (arith, w.session_size, w.nonce_size, sizes) in
      rw
        (read_full-append 47 (drop 6 (row (v67_fields h))) rest (
          omega (
            arith,
            length-drop 6 (row (v67_fields h)),
            length-row (v67_fields h),
            w.session_size,
            w.nonce_size,
            sizes,
            caps_size,
            length-be 2 (length h.destination),
          )))
        (ground (
          arith,
          session_read h w front (caps ∷ size ∷ []) 7 23 31 47 refl refl refl refl,
          time_read h w front (caps ∷ size ∷ []) 7 23 31 47 refl refl refl refl,
          nonce_read h w front (caps ∷ size ∷ []) 7 23 31 47 refl refl refl refl,
          be_field 4 h.capabilities shared (size ∷ []) 47 51 w.capabilities_fits at47 refl,
          size_read (shared ++ (caps ∷ [])) 51 53
              (omega (arith, w.session_size, w.nonce_size, sizes, caps_size)) refl,
        ))

-- ===== src/Wire/Hello/RoundTrip.antt =====
-- core/hello.go: encoding a HELLO and reading it back.
use smp3_multipath_kit_publi.Wire.Hello.Header.{
  prefix_of, read_v67-row, read_v4-row, read_v5-row, check_hello→facts, parsed_hello,
}
use smp3_multipath_kit_publi.Base.{
  ℕ, ◌≡◌, refl, List, ◌++◌, arith, length, ◌⊎◌, drop, false, inl, ℤ, inr, ◌∙◌,
}
use smp3_multipath_kit_publi.Wire.Hello.{
  Hello, IsHello, hello_fields, check_hello, read_v4, read_v5, read_v67, v5_fields, v4_fields,
  v67_fields, read_header, read_hello_at, encode_hello_parts, stale,
}
use smp3_multipath_kit_publi.Wire.Result.{ok, Result-cases}
use smp3_multipath_kit_publi.Wire.Bytes.{read_full-append, row, bytes_equal_refl}

-- One lemma for each version: the six bytes of the prefix, and the rest of its header.
read_header-v4 :
    (h : Hello) (rest : List ℕ)
    → read_header (row (v4_fields h) ++ rest)
      ≡ read_v4 (prefix_of 4 h) (drop 6 (row (v4_fields h)) ++ rest)
unfolding read_header
read_header-v4 h rest =
    rw (read_full-append 6 (prefix_of 4 h) (drop 6 (row (v4_fields h)) ++ rest) refl)

read_header-v5 :
    (h : Hello) (rest : List ℕ)
    → read_header (row (v5_fields h) ++ rest)
      ≡ read_v5 (prefix_of 5 h) (drop 6 (row (v5_fields h)) ++ rest)
unfolding read_header
read_header-v5 h rest =
    rw (read_full-append 6 (prefix_of 5 h) (drop 6 (row (v5_fields h)) ++ rest) refl)

read_header-v67 :
    (h : Hello) (rest : List ℕ)
    → (h.version ≡ 6) ⊎ (h.version ≡ 7)
    → read_header (row (v67_fields h) ++ rest)
      ≡ read_v67 h.version (prefix_of h.version h) (drop 6 (row (v67_fields h)) ++ rest)
unfolding read_header
read_header-v67 h rest v =
    rw (read_full-append 6 (prefix_of h.version h) (drop 6 (row (v67_fields h)) ++ rest) refl)
      (ground arith)

fields-v4 : (h : Hello) → h.version ≡ 4 → hello_fields h ≡ v4_fields h
unfolding hello_fields
fields-v4 h v = ground arith

fields-v5 : (h : Hello) → h.version ≡ 5 → hello_fields h ≡ v5_fields h
unfolding hello_fields
fields-v5 h v = ground arith

pub fields-v67 : (h : Hello) → (h.version ≡ 6) ⊎ (h.version ≡ 7) → hello_fields h ≡ v67_fields h
unfolding hello_fields
fields-v67 h v = ground arith

read_header-row :
    (h : Hello) (password rest : List ℕ)
    → IsHello h
    → check_hello h password ≡ ok tt
    → read_header (row (hello_fields h) ++ rest) ≡ ok (parsed_hello h rest)
read_header-row h password rest w e =
    let (_, _, fits, known) = check_hello→facts h password e in
    elim known [
      | inl (v, m, c) ↦ rw (fields-v4 h v) (read_header-v4 h rest ∙ read_v4-row h w fits rest m c v)
      | inr (inl (v, m, c)) ↦
          rw (fields-v5 h v) (read_header-v5 h rest ∙ read_v5-row h w fits rest m c v)
      | inr (inr (inl (v, m, c))) ↦
          rw (fields-v67 h (inl v))
            (read_header-v67 h rest (inl v) ∙ read_v67-row h w fits rest m (inl (v, c)))
      | inr (inr (inr (v, m, c))) ↦
          rw (fields-v67 h (inr v))
            (read_header-v67 h rest (inr v) ∙ read_v67-row h w fits rest m (inr (v, c)))
    ]

module _ (mac : List ℕ → List ℕ → List ℕ)
    (mac_size : (key text : List ℕ) → length (mac key text) ≡ 32) where
  encode→parts :
      (h : Hello) (password : List ℕ) {header destination tag : List ℕ}
      → encode_hello_parts mac h password ≡ ok (header, destination, tag)
      → (check_hello h password ≡ ok tt)
        × (header ≡ row (hello_fields h))
        × (destination ≡ h.destination)
        × (tag ≡ mac password (row (hello_fields h) ++ h.destination))
  unfolding encode_hello_parts
  encode→parts h password e = ground (arith, Result-cases (check_hello h password))

  read-parts :
      (h : Hello) (password : List ℕ) (now : ℤ) (rest : List ℕ)
      → IsHello h
      → check_hello h password ≡ ok tt
      → stale h.timestamp now ≡ false
      → read_hello_at mac
          (row (hello_fields h)
            ++ (h.destination ++ (mac password (row (hello_fields h) ++ h.destination) ++ rest)))
          password
          now
        ≡ ok (h, rest)
  unfolding read_hello_at
  read-parts h password now rest w good fresh =
      let (named, filled, _, _) = check_hello→facts h password good in
      let tag : List ℕ = mac password (row (hello_fields h) ++ h.destination) in
      rw
        (
          read_header-row h password (h.destination ++ (tag ++ rest)) w good,
          read_full-append (length h.destination) h.destination (tag ++ rest) refl,
          read_full-append 32 tag rest (mac_size password _),
          fresh,
          bytes_equal_refl tag,
        )
        (ground arith)

  -- When every authentication code has 32 bytes: a HELLO whose fields fit Go's types and which the
  -- encoder accepts is read back as it was, whatever follows it on the carrier, by a reader with the
  -- same password whose clock is within the skew of the HELLO's time stamp.
  pub read_hello_at-encode :
      (h : Hello) (password : List ℕ) (now : ℤ) (rest : List ℕ) {header destination tag : List ℕ}
      → IsHello h
      → encode_hello_parts mac h password ≡ ok (header, destination, tag)
      → stale h.timestamp now ≡ false
      → read_hello_at mac (header ++ (destination ++ (tag ++ rest))) password now ≡ ok (h, rest)
  read_hello_at-encode h password now rest w e fresh =
      let (good, head, dest, code) = encode→parts h password e in
      rw (head, dest, code) (read-parts h password now rest w good fresh)

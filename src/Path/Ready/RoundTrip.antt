-- ===== src/Path/Ready/RoundTrip.antt =====
-- core/stream_path_protocol.go: a READY, written and read back.
use smp3_multipath_kit_publi.Wire.Hello.{Hello, IsHello}
use smp3_multipath_kit_publi.Path.Ready.{
  ready_v3_label, encode_ready, ready_magic, ready_of, ready_v2_label, ready_mac, bad_ready_fields,
  ready_fields, accept_ready, read_ready,
}
use smp3_multipath_kit_publi.Path.{
  validate_ready_hello, make_path_auth, StreamPathAuth, valid_selected_capabilities, be,
}
use smp3_multipath_kit_publi.Base.{
  take, ◌++◌, drop-append, not, true, ℕ, ◌∷◌, [], ◌≡◌, append_assoc, false, ap, ◌^◌, length-append,
  refl, length, List, take-append, ◌≢◌, ◌<◌, arith, ◌==◌,
}
use smp3_multipath_kit_publi.Wire.Bytes.{
  row, slice, bytes_equal_refl, length-be, read_full-append, length-row, be_field_tagged,
  slice-row_tagged, be_value, get_or-row_tagged,
}
use smp3_multipath_kit_publi.Wire.Result.{ok, fail_if→ok, bind→ok, ok_injective}

length-ready_magic : (version : ℕ) → length (ready_magic version) ≡ 8
unfolding ready_magic
length-ready_magic version = ground arith

module _ (hello : Hello) (selected : ℕ) (nonce tag : List ℕ) (w : IsHello hello)
    (fits : selected < 2 ^ 32) (sized : length nonce ≡ 16) where
  abbrev prefix : List ℕ
  prefix = row (ready_fields hello selected nonce)

  abbrev up_to_mode : List (List ℕ)
  up_to_mode =
      ready_magic hello.version ∷ hello.session_id ∷ (hello.leg_id ∷ []) ∷ (hello.mode ∷ []) ∷ []

  magic_size : length (ready_magic hello.version) ≡ 8
  magic_size = length-ready_magic hello.version

  length-prefix : length prefix ≡ 46
  length-prefix = omega (
    arith,
    length-row (ready_fields hello selected nonce),
    magic_size,
    w.session_size,
    length-be 4 selected,
    sized,
  )

  take-magic : take 8 (prefix ++ tag) ≡ ready_magic hello.version
  take-magic =
      rw
        (append_assoc (ready_magic hello.version)
          (row (
            hello.session_id
            ∷ (hello.leg_id ∷ [])
            ∷ (hello.mode ∷ [])
            ∷ be 4 selected
            ∷ nonce
            ∷ []))
          tag)
        (take-append 8 (ready_magic hello.version) _ magic_size)

  fields_good : bad_ready_fields (prefix ++ tag) hello ≡ false
  unfolding bad_ready_fields
  fields_good =
      rw
        (
          take-magic,
          slice-row_tagged (ready_magic hello.version ∷ []) hello.session_id
              ((hello.leg_id ∷ []) ∷ (hello.mode ∷ []) ∷ be 4 selected ∷ nonce ∷ []) tag 8 24
              (omega (arith, magic_size)) (omega (arith, w.session_size)),
          get_or-row_tagged (ready_magic hello.version ∷ hello.session_id ∷ []) (hello.leg_id ∷ [])
              ((hello.mode ∷ []) ∷ be 4 selected ∷ nonce ∷ []) tag 24
              (omega (arith, magic_size, w.session_size)) (omega arith),
          get_or-row_tagged
              (ready_magic hello.version ∷ hello.session_id ∷ (hello.leg_id ∷ []) ∷ [])
              (hello.mode ∷ []) (be 4 selected ∷ nonce ∷ []) tag 25
              (omega (arith, magic_size, w.session_size)) (omega arith),
          bytes_equal_refl (ready_magic hello.version),
          bytes_equal_refl hello.session_id,
        )
        (ground arith)

  selected_read : be_value (slice 26 30 (prefix ++ tag)) ≡ selected
  selected_read =
      be_field_tagged 4 selected up_to_mode (nonce ∷ []) tag 26 30 fits
        (omega (arith, magic_size, w.session_size)) refl

  nonce_read : slice 30 46 (prefix ++ tag) ≡ nonce
  nonce_read =
      slice-row_tagged (up_to_mode ++ (be 4 selected ∷ [])) nonce [] tag 30 46
        (omega (arith, magic_size, w.session_size, length-be 4 selected)) (omega (arith, sized))

module _ (mac : List ℕ → List ℕ → List ℕ)
    (mac_size : (key text : List ℕ) → length (mac key text) ≡ 32) where
  encode→facts :
      (hello : Hello) (selected : ℕ) (nonce password : List ℕ) {wire : List ℕ}
      → encode_ready mac hello selected nonce password ≡ ok wire
      → (validate_ready_hello hello ≡ ok tt)
        × (length password ≢ 0)
        × (valid_selected_capabilities hello selected ≡ true)
        × (row (ready_fields hello selected nonce)
              ++ ready_mac mac hello (row (ready_fields hello selected nonce)) password
            ≡ wire)
  unfolding encode_ready
  encode→facts hello selected nonce password e =
      let (_, valid, e1) = bind→ok (validate_ready_hello hello) _ e in
      let (keyed, e2) = fail_if→ok (length password == 0) _ _ e1 in
      let (chosen, e3) = fail_if→ok (not (valid_selected_capabilities hello selected)) _ _ e2 in
      (valid, ground arith, ground arith, ok_injective e3)

  length-ready_mac :
      (hello : Hello) (prefix password : List ℕ) → length (ready_mac mac hello prefix password) ≡ 32
  unfolding ready_mac
  length-ready_mac hello prefix password = ground (
    arith,
    mac_size password (ready_v2_label ++ (hello.nonce ++ prefix)),
    mac_size password (ready_v3_label ++ (hello.version ∷ hello.nonce ++ prefix)),
  )

  accept-prefix :
      (hello : Hello) (selected : ℕ) (nonce password : List ℕ) {auth : StreamPathAuth}
      → IsHello hello
      → selected < 2 ^ 32
      → length nonce ≡ 16
      → valid_selected_capabilities hello selected ≡ true
      → make_path_auth mac hello (ready_of hello selected nonce) password ≡ ok auth
      → accept_ready mac
          (row (ready_fields hello selected nonce)
            ++ ready_mac mac hello (row (ready_fields hello selected nonce)) password)
          hello
          password
        ≡ ok (ready_of hello selected nonce, auth)
  unfolding accept_ready
  accept-prefix hello selected nonce password w fits sized chosen made =
      let front : List ℕ = row (ready_fields hello selected nonce) in
      let tag : List ℕ = ready_mac mac hello front password in
      let size = length-prefix hello selected nonce tag w fits sized in
      rw
        (
          take-append 46 front tag size,
          drop-append 46 front tag size,
          bytes_equal_refl tag,
          fields_good hello selected nonce tag w fits sized,
          selected_read hello selected nonce tag w fits sized,
          nonce_read hello selected nonce tag w fits sized,
          chosen,
          made,
        )
        refl

  -- A READY that the server encodes is read back by the client whose HELLO it answers, with the keys
  -- that `makeStreamPathAuth` gives the server, and exactly its bytes are taken off the carrier.
  pub read_ready-encode :
      (hello : Hello) (selected : ℕ) (nonce password rest : List ℕ) {wire : List ℕ}
      {auth : StreamPathAuth}
      → IsHello hello
      → selected < 2 ^ 32
      → length nonce ≡ 16
      → encode_ready mac hello selected nonce password ≡ ok wire
      → make_path_auth mac hello (ready_of hello selected nonce) password ≡ ok auth
      → read_ready mac (wire ++ rest) hello password
        ≡ ok (ready_of hello selected nonce, auth, rest)
  unfolding read_ready
  read_ready-encode hello selected nonce password rest {wire} {auth} w fits sized e made =
      let (valid, keyed, chosen, same) = encode→facts hello selected nonce password e in
      let front : List ℕ = row (ready_fields hello selected nonce) in
      let tag : List ℕ = ready_mac mac hello front password in
      let whole : length wire ≡ 78 = omega (
        arith,
        ap length same,
        length-append front tag,
        length-prefix hello selected nonce tag w fits sized,
        length-ready_mac hello front password,
      ) in
      let accepted : accept_ready mac wire hello password
          ≡ ok (ready_of hello selected nonce, auth) =
        rw (← same) (accept-prefix hello selected nonce password w fits sized chosen made) in
      rw (valid, read_full-append 78 wire rest whole, accepted) (ground arith)

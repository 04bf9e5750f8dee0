-- ===== src/Path/Ready/Accept.antt =====
-- core/stream_path_protocol.go: what the client has checked when it returns a READY.
use smp3_multipath_kit_publi.Wire.Canonical.{be-slice, slice-join, slice-byte, bytes-split}
use smp3_multipath_kit_publi.Path.{row}
use smp3_multipath_kit_publi.Wire.Bytes.{IsByte, be_value}
use smp3_multipath_kit_publi.Path.Ready.{ready_fields, ready_magic}
use smp3_multipath_kit_publi.Path.Ready.{
  accept_ready, read_ready, ready_of, ready_mac, bad_ready_fields, stream_ready_size,
}
use smp3_multipath_kit_publi.Wire.Hello.{
  stream_capability_path_rtt, stream_capability_coordinated_drain, Hello, and_not,
}
use smp3_multipath_kit_publi.Path.{
  validate_ready_hello, valid_selected_capabilities, StreamPathAuth, derive_path_auth, StreamReady,
  no_auth, drain_keys_of, path_rtt_enabled, make_path_auth, coordinated_drain_enabled, path_key_of,
}
use smp3_multipath_kit_publi.Base.{
  take, drop, sym, ◌∙◌, refl, length, ℕ, ◌⊎◌, arith, inr, ◌≡◌, ◌==◌, not, subst, inl, ap, ◌++◌,
  List, true, ◌!=◌, bit_and, false, get_or, ◌+◌, append-nil, ◌<◌, All, ◌∷◌,
}
use smp3_multipath_kit_publi.Wire.Bytes.{
  slice, be_value, read_full_takes, bytes_equal, bytes_equal→eq, read_full,
}
use smp3_multipath_kit_publi.Wire.Result.{ok, fail_if→ok, bind→ok, ok_injective}

-- A feature is on in `auth` exactly when the READY selects it.
pub record Negotiated (hello : Hello) (ready : StreamReady) (auth : StreamPathAuth) : Type 0 where
  pub own_session : ready.session_id ≡ hello.session_id
  pub own_leg : ready.leg_id ≡ hello.leg_id
  pub own_mode : ready.mode ≡ hello.mode
  -- No bit that the HELLO did not offer, and none that is unknown.
  pub offered : and_not ready.capabilities hello.capabilities ≡ 0
  pub known : and_not ready.capabilities 3 ≡ 0
  pub by_version :
      ((hello.version ≡ 6) × (and_not ready.capabilities 1 ≡ 0))
      ⊎ ((hello.version ≡ 7) × (hello.mode ≡ 0))
  pub same_capabilities : auth.capabilities ≡ ready.capabilities
  pub rtt_selected :
      path_rtt_enabled auth ≡ (bit_and ready.capabilities stream_capability_path_rtt != 0)
  pub drain_selected :
      coordinated_drain_enabled auth
      ≡ (bit_and ready.capabilities stream_capability_coordinated_drain != 0)

valid_selected→facts :
    (hello : Hello) (selected : ℕ)
    → valid_selected_capabilities hello selected ≡ true
    → (and_not selected hello.capabilities ≡ 0)
      × (and_not selected 3 ≡ 0)
      × (((hello.version ≡ 6) × (and_not selected 1 ≡ 0))
          ⊎ ((hello.version ≡ 7) × (hello.mode ≡ 0)))
unfolding valid_selected_capabilities
valid_selected→facts hello selected e = ground (arith, e)

-- The message, read field by field, is its first 46 bytes.
fields-read :
    (wire : List ℕ) (hello : Hello)
    → All IsByte wire
    → length wire ≡ 78
    → bad_ready_fields wire hello ≡ false
    → row (ready_fields hello (be_value (slice 26 30 wire)) (slice 30 46 wire)) ≡ take 46 wire
unfolding slice bad_ready_fields
fields-read wire hello bytes size good =
    let byte : (i : ℕ) → i < 46 → get_or wire i 0 ∷ slice (i + 1) 46 wire ≡ slice i 46 wire =
      λ i inside. slice-byte i (i + 1) 46 wire refl inside (omega (arith, size)) in
    let magic : take 8 wire ≡ ready_magic hello.version =
      ground (arith, good, bytes_equal→eq (take 8 wire) (ready_magic hello.version)) in
    let session : slice 8 24 wire ≡ hello.session_id =
      ground (arith, good, bytes_equal→eq (slice 8 24 wire) hello.session_id) in
    let leg : get_or wire 24 0 ≡ hello.leg_id = ground (arith, good) in
    let mode : get_or wire 25 0 ≡ hello.mode = ground (arith, good) in
    rw
      (
        be-slice 4 26 30 wire bytes refl (omega (arith, size)),
        append-nil (slice 30 46 wire),
        slice-join 26 30 46 wire (omega arith) (omega arith),
        ← magic,
        ← session,
        ← leg,
        ← mode,
        byte 25 (omega arith),
        byte 24 (omega arith),
        slice-join 8 24 46 wire (omega arith) (omega arith),
      )
      (slice-join 0 8 46 wire (omega arith) (omega arith))

module _ (mac : List ℕ → List ℕ → List ℕ) where
  derive→facts :
      (hello : Hello) (ready : StreamReady) (password : List ℕ) {auth : StreamPathAuth}
      → derive_path_auth mac hello ready password ≡ ok auth
      → (auth.capabilities ≡ ready.capabilities) × (auth.authenticated ≡ true)
  unfolding derive_path_auth
  derive→facts hello ready password {auth} e =
      let (path_key, _, e1) = bind→ok (path_key_of mac hello ready password) _ e in
      let ((drain_key, binding), _, e2) = bind→ok (drain_keys_of mac hello ready password) _ e1 in
      let same = ok_injective e2 in
      (ap (λ a. a.capabilities) (sym same), ap (λ a. a.authenticated) (sym same))

  make→facts :
      (hello : Hello) (ready : StreamReady) (password : List ℕ) {auth : StreamPathAuth}
      → make_path_auth mac hello ready password ≡ ok auth
      → ((ready.capabilities ≡ 0) × (auth ≡ no_auth))
        ⊎ ((auth.capabilities ≡ ready.capabilities) × (auth.authenticated ≡ true))
  unfolding make_path_auth
  make→facts hello ready password {auth} e =
      ground (arith, derive→facts hello ready password {auth = auth})

  -- Whatever keys `makeStreamPathAuth` derives, they enable what the READY selects and nothing else.
  make-Negotiated :
      (hello : Hello) (ready : StreamReady) (password : List ℕ) {auth : StreamPathAuth}
      → ready.session_id ≡ hello.session_id
      → ready.leg_id ≡ hello.leg_id
      → ready.mode ≡ hello.mode
      → valid_selected_capabilities hello ready.capabilities ≡ true
      → make_path_auth mac hello ready password ≡ ok auth
      → Negotiated hello ready auth
  make-Negotiated hello ready password {auth} s l m c e =
      let (offered, known, by_version) = valid_selected→facts hello ready.capabilities c in
      elim (make→facts hello ready password e) [
        | inl (none_selected, same) ↦ record {
          own_session = s;
          own_leg = l;
          own_mode = m;
          offered = offered;
          known = known;
          by_version = by_version;
          same_capabilities = rw (same, none_selected) refl;
          rtt_selected = rw (same, none_selected) refl;
          drain_selected = rw (same, none_selected) refl;
        }
        | inr (same, on) ↦ record {
          own_session = s;
          own_leg = l;
          own_mode = m;
          offered = offered;
          known = known;
          by_version = by_version;
          same_capabilities = same;
          rtt_selected = rw (same, on) refl;
          drain_selected = rw (same, on) refl;
        }
      ]

  accept→facts :
      (wire : List ℕ) (hello : Hello) (password : List ℕ) {ready : StreamReady}
      {auth : StreamPathAuth}
      → accept_ready mac wire hello password ≡ ok (ready, auth)
      → All IsByte wire
      → length wire ≡ 78
      → (take 46 wire ≡ row (ready_fields hello ready.capabilities ready.server_nonce))
        × (drop 46 wire ≡ ready_mac mac hello (take 46 wire) password)
        × Negotiated hello ready auth
  unfolding accept_ready
  accept→facts wire hello password {ready} {auth} e bytes size =
      let code : List ℕ = ready_mac mac hello (take 46 wire) password in
      let answer : StreamReady = ready_of hello (be_value (slice 26 30 wire)) (slice 30 46 wire) in
      let (signed, e1) = fail_if→ok (not (bytes_equal (drop 46 wire) code)) _ _ e in
      let (named, e2) = fail_if→ok (bad_ready_fields wire hello) _ _ e1 in
      let (chosen, e3) =
        fail_if→ok (not (valid_selected_capabilities hello answer.capabilities)) _ _ e2 in
      let (made, m, e4) = bind→ok (make_path_auth mac hello answer password) _ e3 in
      (
        subst
            (λ (p : StreamReady × StreamPathAuth).
              take 46 wire ≡ row (ready_fields hello p.0.capabilities p.0.server_nonce))
            (ok_injective e4) (sym (fields-read wire hello bytes size (ground (arith, named)))),
        bytes_equal→eq (drop 46 wire) code (ground arith),
        subst (λ (p : StreamReady × StreamPathAuth). Negotiated hello p.0 p.1) (ok_injective e4)
            (make-Negotiated hello answer password refl refl refl (ground arith) m),
      )

  -- What the client accepts as READY on a carrier of bytes: 78 bytes at its front that are, byte for
  -- byte, the fields of the READY that is returned and a code that is right under the password and the
  -- client's own nonce. The READY has the HELLO's session, leg and mode; its selection has no bit that
  -- the HELLO did not offer and none that is unknown or that the version does not allow; and the keys
  -- enable probes or coordinated drain exactly when they are selected.
  pub read_ready-Negotiated :
      (reader : List ℕ) (hello : Hello) (password : List ℕ) {ready : StreamReady}
      {auth : StreamPathAuth} {rest : List ℕ}
      → All IsByte reader
      → read_ready mac reader hello password ≡ ok (ready, auth, rest)
      → ((wire : List ℕ) × (reader ≡ wire ++ rest)
          × (length wire ≡ 78)
          × (take 46 wire ≡ row (ready_fields hello ready.capabilities ready.server_nonce))
          × (drop 46 wire ≡ ready_mac mac hello (take 46 wire) password))
        × Negotiated hello ready auth
  unfolding read_ready
  read_ready-Negotiated reader hello password {ready} {auth} {rest} bytes e =
      let (_, valid, e1) = bind→ok (validate_ready_hello hello) _ e in
      let (keyed, e2) = fail_if→ok (length password == 0) _ _ e1 in
      let ((wire, behind), r, e3) = bind→ok (read_full stream_ready_size reader) _ e2 in
      let ((ready', auth'), accepted, e4) = bind→ok (accept_ready mac wire hello password) _ e3 in
      let same = ok_injective e4 in
      let (split, size, _) = read_full_takes stream_ready_size reader r in
      let front : All IsByte wire = (bytes-split wire behind (subst (All IsByte) split bytes)).0 in
      let (fields, signed, negotiated) = accept→facts wire hello password accepted front size in
      (
        (
          wire,
          split ∙ ap (λ p. wire ++ p.2) same,
          size,
          subst
              (λ (p : StreamReady × StreamPathAuth × List ℕ).
                take 46 wire ≡ row (ready_fields hello p.0.capabilities p.0.server_nonce))
              same fields,
          signed,
        ),
        subst (λ (p : StreamReady × StreamPathAuth × List ℕ). Negotiated hello p.0 p.1) same
            negotiated,
      )

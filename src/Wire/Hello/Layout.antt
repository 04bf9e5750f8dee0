-- ===== src/Wire/Hello/Layout.antt =====
-- core/hello.go: a header that was read is, byte for byte, the header of the HELLO that comes out of it.
use smp3_multipath_kit_publi.Wire.Canonical.{
  slice-byte, be-slice, slice-join, int64-slice, get_or-front, take-length,
}
use smp3_multipath_kit_publi.Base.{
  refl, ◌≡◌, ◌<◌, List, ◌+◌, get_or, ℕ, ◌∷◌, arith, length, All, to_int64, append-nil, ◌∙◌, ◌-◌,
  ◌++◌,
}
use smp3_multipath_kit_publi.Wire.Bytes.{row, slice, IsByte, be_value}
use smp3_multipath_kit_publi.Wire.Hello.{Hello, Parsed, v5_fields, v67_fields, v4_fields}

abbrev pub hello_of : Parsed → List ℕ → Hello
hello_of p destination = record {
  version = p.version;
  session_id = p.session_id;
  leg_id = p.leg_id;
  mode = p.mode;
  timestamp = p.timestamp;
  nonce = p.nonce;
  capabilities = p.capabilities;
  destination = destination;
}

-- "SMP3" and the version.
pub record Opens (version : ℕ) (w : List ℕ) : Type 0 where
  pub letter_s : get_or w 0 0 ≡ 83
  pub letter_m : get_or w 1 0 ≡ 77
  pub letter_p : get_or w 2 0 ≡ 80
  pub digit : get_or w 3 0 ≡ 51
  pub versioned : get_or w 4 0 ≡ version

whole : (w : List ℕ) (n : ℕ) → length w ≡ n → slice 0 n w ≡ w
unfolding slice
whole w n size = let e : n - 0 ≡ length w = omega (arith, size) in rw e (take-length w)

lead :
    (version n : ℕ) (w : List ℕ)
    → length w ≡ n
    → 5 < n
    → Opens version w
    → 83 ∷ 77 ∷ 80 ∷ 51 ∷ version ∷ slice 5 n w ≡ w
unfolding slice
lead version n w size long h =
    let byte : (i : ℕ) → i < 5 → get_or w i 0 ∷ slice (i + 1) n w ≡ slice i n w = λ i inside.
      slice-byte i (i + 1) n w refl (omega (arith, long, inside))
        (omega (arith, size, long, inside)) in
    rw (← h.letter_s, ← h.letter_m, ← h.letter_p, ← h.digit, ← h.versioned)
      (rw
        (
          byte 4 (omega arith),
          byte 3 (omega arith),
          byte 2 (omega arith),
          byte 1 (omega arith),
          byte 0 (omega arith),
        )
        (whole w n size))

pub v4_fields-read :
    (w destination : List ℕ)
    → All IsByte w
    → length w ≡ 48
    → Opens 4 w
    → length destination ≡ be_value (slice 46 48 w)
    → row (
        v4_fields (record {
          version = 4;
          session_id = slice 6 22 w;
          leg_id = get_or w 5 0;
          mode = 0;
          timestamp = to_int64 (be_value (slice 22 30 w));
          nonce = slice 30 46 w;
          capabilities = 0;
          destination = destination;
        }))
      ≡ w
v4_fields-read w destination bytes size opens len =
    rw
      (
        len,
        int64-slice 22 30 w bytes refl (omega (arith, size)),
        be-slice 2 46 48 w bytes refl (omega (arith, size)),
        append-nil (slice 46 48 w),
        slice-join 30 46 48 w (omega arith) (omega arith),
        slice-join 22 30 48 w (omega arith) (omega arith),
        slice-join 6 22 48 w (omega arith) (omega arith),
        slice-byte 5 6 48 w refl (omega arith) (omega (arith, size)),
      )
      (lead 4 48 w size (omega arith) opens)

pub v5_fields-read :
    (w destination : List ℕ)
    → All IsByte w
    → length w ≡ 49
    → Opens 5 w
    → length destination ≡ be_value (slice 47 49 w)
    → row (
        v5_fields (record {
          version = 5;
          session_id = slice 7 23 w;
          leg_id = get_or w 5 0;
          mode = get_or w 6 0;
          timestamp = to_int64 (be_value (slice 23 31 w));
          nonce = slice 31 47 w;
          capabilities = 0;
          destination = destination;
        }))
      ≡ w
v5_fields-read w destination bytes size opens len =
    rw
      (
        len,
        int64-slice 23 31 w bytes refl (omega (arith, size)),
        be-slice 2 47 49 w bytes refl (omega (arith, size)),
        append-nil (slice 47 49 w),
        slice-join 31 47 49 w (omega arith) (omega arith),
        slice-join 23 31 49 w (omega arith) (omega arith),
        slice-join 7 23 49 w (omega arith) (omega arith),
        slice-byte 6 7 49 w refl (omega arith) (omega (arith, size)),
        slice-byte 5 6 49 w refl (omega arith) (omega (arith, size)),
      )
      (lead 5 49 w size (omega arith) opens)

pub v67_fields-read :
    (w destination : List ℕ) (version : ℕ)
    → All IsByte w
    → length w ≡ 53
    → Opens version w
    → length destination ≡ be_value (slice 51 53 w)
    → row (
        v67_fields (record {
          version = version;
          session_id = slice 7 23 w;
          leg_id = get_or w 5 0;
          mode = get_or w 6 0;
          timestamp = to_int64 (be_value (slice 23 31 w));
          nonce = slice 31 47 w;
          capabilities = be_value (slice 47 51 w);
          destination = destination;
        }))
      ≡ w
v67_fields-read w destination version bytes size opens len =
    rw
      (
        len,
        int64-slice 23 31 w bytes refl (omega (arith, size)),
        be-slice 2 51 53 w bytes refl (omega (arith, size)),
        be-slice 4 47 51 w bytes refl (omega (arith, size)),
        append-nil (slice 51 53 w),
        slice-join 47 51 53 w (omega arith) (omega arith),
        slice-join 31 47 53 w (omega arith) (omega arith),
        slice-join 23 31 53 w (omega arith) (omega arith),
        slice-join 7 23 53 w (omega arith) (omega arith),
        slice-byte 6 7 53 w refl (omega arith) (omega (arith, size)),
        slice-byte 5 6 53 w refl (omega arith) (omega (arith, size)),
      )
      (lead version 53 w size (omega arith) opens)

pub Opens-front :
    (version : ℕ) (prefix tail : List ℕ)
    → length prefix ≡ 6
    → Opens version prefix
    → Opens version (prefix ++ tail)
Opens-front version prefix tail size h = record {
  letter_s = get_or-front prefix tail 0 (omega (arith, size)) ∙ h.letter_s;
  letter_m = get_or-front prefix tail 1 (omega (arith, size)) ∙ h.letter_m;
  letter_p = get_or-front prefix tail 2 (omega (arith, size)) ∙ h.letter_p;
  digit = get_or-front prefix tail 3 (omega (arith, size)) ∙ h.digit;
  versioned = get_or-front prefix tail 4 (omega (arith, size)) ∙ h.versioned;
}

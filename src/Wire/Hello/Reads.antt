-- ===== src/Wire/Hello/Reads.antt =====
-- core/hello.go: what the header reader of each version has checked.
use smp3_multipath_kit_publi.Wire.Hello.RoundTrip.{fields-v67}
use smp3_multipath_kit_publi.Wire.Canonical.{bytes-split, get_or-front}
use smp3_multipath_kit_publi.Wire.Hello.Layout.{
  v5_fields-read, hello_of, v4_fields-read, v67_fields-read, Opens, Opens-front,
}
use smp3_multipath_kit_publi.Base.{
  ℕ, List, ◌≡◌, ◌++◌, ◌⊎◌, false, arith, append_assoc, inl, length, ◌≢◌, get_or, inr, ◌==◌, subst,
  ap, ◌∙◌, ◌&&◌, ◌||◌, All, length-append, bit_and, ◌!=◌, Bool-cases, refl, sym,
}
use smp3_multipath_kit_publi.Wire.Hello.{and_not, hello_fields}
use smp3_multipath_kit_publi.Wire.Bytes.{row, IsByte, slice, be_value}
use smp3_multipath_kit_publi.Wire.Hello.{
  Parsed, read_v4, read_v5, read_v67, read_header, bad_v6_capabilities, bad_v7_capabilities, ℕ,
  List, read_switch,
}
use smp3_multipath_kit_publi.Wire.Result.{ok, Result-cases, bind→ok, fail_if→ok, ok_injective}
use smp3_multipath_kit_publi.Wire.Bytes.{read_full, read_full_takes}

-- The version, mode and capabilities agree: version 6 selects the path RTT feature and nothing else,
-- version 7 the coordinated drain and nothing unknown.
abbrev pub Negotiable : ℕ → ℕ → ℕ → Type 0
Negotiable version mode capabilities =
    ((version ≡ 4) × (mode ≡ 0) × (capabilities ≡ 0))
    ⊎ ((version ≡ 5) × (mode ≡ 1) × (capabilities ≡ 0))
    ⊎ ((version ≡ 6) × (mode ≡ 0) × (and_not capabilities 1 ≡ 0) × (bit_and capabilities 1 ≢ 0))
    ⊎ ((version ≡ 7) × (mode ≡ 0) × (and_not capabilities 3 ≡ 0) × (bit_and capabilities 2 ≢ 0))

-- The header is that of the HELLO, with whatever destination of the length that it names.
abbrev pub Reads : List ℕ → Parsed → Type 0
Reads reader p =
    (reader ≡ p.header ++ p.rest)
    × Negotiable p.version p.mode p.capabilities
    × ((destination : List ℕ)
        → length destination ≡ p.destination_length
        → row (hello_fields (hello_of p destination)) ≡ p.header)

v67→Negotiable :
    (version mode capabilities : ℕ)
    → (version ≡ 6) ⊎ (version ≡ 7)
    → mode ≡ 0
    → (version == 6 && bad_v6_capabilities capabilities) ≡ false
    → (version == 7 && bad_v7_capabilities capabilities) ≡ false
    → Negotiable version mode capabilities
unfolding bad_v6_capabilities bad_v7_capabilities
v67→Negotiable version mode capabilities (inl e) m six seven =
    inr (inr (inl (e, m, ground (arith, e, six), ground (arith, e, six))))
v67→Negotiable version mode capabilities (inr e) m six seven =
    inr (inr (inr (e, m, ground (arith, e, seven), ground (arith, e, seven))))

read_v4-Reads :
    (prefix reader : List ℕ) {p : Parsed}
    → All IsByte (prefix ++ reader)
    → length prefix ≡ 6
    → Opens 4 prefix
    → read_v4 prefix reader ≡ ok p
    → Reads (prefix ++ reader) p
unfolding read_v4 hello_fields
read_v4-Reads prefix reader {p} bytes six opens e =
    let ((tail, rest), r, k) = bind→ok (read_full 42 reader) _ e in
    let (split, size, _) = read_full_takes 42 reader r in
    let all : prefix ++ reader ≡ (prefix ++ tail) ++ rest =
      ap (◌++◌ prefix) split ∙ sym (append_assoc prefix tail rest) in
    let front = (bytes-split (prefix ++ tail) rest (subst (All IsByte) all bytes)).0 in
    let leg = get_or-front prefix tail 5 (omega (arith, six)) in
    subst (λ p. Reads (prefix ++ reader) p) (ok_injective k)
      (
        all,
        inl (refl, refl, refl),
        λ destination len. rw (← leg) (
            v4_fields-read (prefix ++ tail) destination front
              (omega (arith, length-append prefix tail, six, size))
              (Opens-front 4 prefix tail six opens) len),
      )

read_v5-Reads :
    (prefix reader : List ℕ) {p : Parsed}
    → All IsByte (prefix ++ reader)
    → length prefix ≡ 6
    → Opens 5 prefix
    → read_v5 prefix reader ≡ ok p
    → Reads (prefix ++ reader) p
unfolding read_v5 hello_fields
read_v5-Reads prefix reader {p} bytes six opens e =
    let ((tail, rest), r, k) = bind→ok (read_full 43 reader) _ e in
    let (split, size, _) = read_full_takes 43 reader r in
    let (mode, k') = fail_if→ok (get_or (prefix ++ tail) 6 0 != 1) _ _ k in
    let all : prefix ++ reader ≡ (prefix ++ tail) ++ rest =
      ap (◌++◌ prefix) split ∙ sym (append_assoc prefix tail rest) in
    let front = (bytes-split (prefix ++ tail) rest (subst (All IsByte) all bytes)).0 in
    let leg = get_or-front prefix tail 5 (omega (arith, six)) in
    subst (λ p. Reads (prefix ++ reader) p) (ok_injective k')
      (
        all,
        inr (inl (refl, ground (arith, mode), refl)),
        λ destination len. rw (← leg) (
            v5_fields-read (prefix ++ tail) destination front
              (omega (arith, length-append prefix tail, six, size))
              (Opens-front 5 prefix tail six opens) len),
      )

read_v67-Reads :
    (version : ℕ) (prefix reader : List ℕ) {p : Parsed}
    → (version ≡ 6) ⊎ (version ≡ 7)
    → All IsByte (prefix ++ reader)
    → length prefix ≡ 6
    → Opens version prefix
    → read_v67 version prefix reader ≡ ok p
    → Reads (prefix ++ reader) p
unfolding read_v67
read_v67-Reads version prefix reader {p} v bytes six opens e =
    let ((tail, rest), r, k) = bind→ok (read_full 47 reader) _ e in
    let (split, size, _) = read_full_takes 47 reader r in
    let capabilities : ℕ = be_value (slice 47 51 (prefix ++ tail)) in
    let (mode, k1) = fail_if→ok (get_or (prefix ++ tail) 6 0 != 0) _ _ k in
    let (by_six, k2) = fail_if→ok (version == 6 && bad_v6_capabilities capabilities) _ _ k1 in
    let (by_seven, k3) = fail_if→ok (version == 7 && bad_v7_capabilities capabilities) _ _ k2 in
    let all : prefix ++ reader ≡ (prefix ++ tail) ++ rest =
      ap (◌++◌ prefix) split ∙ sym (append_assoc prefix tail rest) in
    let front = (bytes-split (prefix ++ tail) rest (subst (All IsByte) all bytes)).0 in
    let leg = get_or-front prefix tail 5 (omega (arith, six)) in
    subst (λ p. Reads (prefix ++ reader) p) (ok_injective k3)
      (
        all,
        v67→Negotiable version _ capabilities v (ground (arith, mode)) by_six by_seven,
        λ destination len.
            ap row (fields-v67 _ v)
            ∙ rw (← leg) (
                v67_fields-read (prefix ++ tail) destination version front
                  (omega (arith, length-append prefix tail, six, size))
                  (Opens-front version prefix tail six opens) len),
      )

read_switch-Reads :
    (version : ℕ) (prefix rest : List ℕ) {p : Parsed}
    → All IsByte (prefix ++ rest)
    → length prefix ≡ 6
    → Opens version prefix
    → read_switch version prefix rest ≡ ok p
    → Reads (prefix ++ rest) p
unfolding read_switch
read_switch-Reads version prefix rest {p} bytes six opens e = elim (Bool-cases (version == 4)) [
  | inl four ↦
      read_v4-Reads prefix rest bytes six (subst (λ v. Opens v prefix) (ground (arith, four)) opens)
        (rw (four, read_switch) at e)
  | inr other ↦ elim (Bool-cases (version == 5)) [
    | inl five ↦
        read_v5-Reads prefix rest bytes six
          (subst (λ v. Opens v prefix) (ground (arith, five)) opens)
          (rw (other, five, read_switch) at e)
    | inr later ↦ elim (Bool-cases (version == 6 || version == 7)) [
      | inl known ↦
          read_v67-Reads version prefix rest (ground (arith, known)) bytes six opens
            (rw (other, later, known, read_switch) at e)
      | inr unknown ↦ cc (rw (other, later, unknown, read_switch) at e)
    ]
  ]
]

pub read_header-Reads :
    (reader : List ℕ) {p : Parsed} → All IsByte reader → read_header reader ≡ ok p → Reads reader p
unfolding read_header
read_header-Reads reader {p} bytes e = elim (Result-cases (read_full 6 reader)) [
  | inl ((prefix, rest), r) ↦
      let (split, six, _) = read_full_takes 6 reader r in
      let (letters, switched) =
        fail_if→ok _ _ (read_switch (get_or prefix 4 0) prefix rest) (rw (r, read_header) at e) in
      let opens : Opens (get_or prefix 4 0) prefix = record {
        letter_s = ground (arith, letters);
        letter_m = ground (arith, letters);
        letter_p = ground (arith, letters);
        digit = ground (arith, letters);
        versioned = refl;
      } in
      rw split (
        read_switch-Reads (get_or prefix 4 0) prefix rest (subst (All IsByte) split bytes) six opens
          switched)
  | inr (x, r) ↦ cc (rw (r, read_header) at e)
]

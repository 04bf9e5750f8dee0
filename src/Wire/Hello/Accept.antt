-- ===== src/Wire/Hello/Accept.antt =====
-- core/hello.go: what ReadHelloAt accepts.
use smp3_multipath_kit_publi.Wire.Hello.Reads.{Reads, Negotiable, read_header-Reads}
use smp3_multipath_kit_publi.Wire.Hello.Layout.{hello_of}
use smp3_multipath_kit_publi.Base.{
  ℕ, List, ◌≡◌, ◌++◌, false, arith, ℤ, inl, length, ◌≢◌, [], inr, ◌==◌, subst, ap, not-before_iff,
  All,
}
use smp3_multipath_kit_publi.Wire.Hello.{hello_skew, hello_fields}
use smp3_multipath_kit_publi.Wire.Bytes.{row, IsByte}
use smp3_multipath_kit_publi.Base.{unix_nanos, ◌≤ℤ◌, sub_nanos, add_nanos}
use smp3_multipath_kit_publi.Wire.Hello.{
  Hello, Parsed, read_header, stale, read_hello_at, ℕ, List, finish_hello,
}
use smp3_multipath_kit_publi.Wire.Result.{ok, err, Result-cases, bind→ok, fail_if→ok, Error}
use smp3_multipath_kit_publi.Wire.Bytes.{read_full, read_full_takes, bytes_equal→eq}

stale→skew :
    (timestamp now : ℤ)
    → stale timestamp now ≡ false
    → (sub_nanos now hello_skew ≤ℤ unix_nanos timestamp)
      × (unix_nanos timestamp ≤ℤ add_nanos now hello_skew)
unfolding stale
stale→skew timestamp now e = (
  (not-before_iff (unix_nanos timestamp) (sub_nanos now hello_skew)).0 (ground (arith, e)),
  (not-before_iff (add_nanos now hello_skew) (unix_nanos timestamp)).0 (ground (arith, e)),
)

module _ (mac : List ℕ → List ℕ → List ℕ) where
  -- What `ReadHelloAt` has checked when it returns a HELLO.
  pub record Authentic (reader password : List ℕ) (now : ℤ) (hello : Hello) (rest : List ℕ)
      : Type 0 where
    pub tag : List ℕ
    pub layout : reader ≡ row (hello_fields hello) ++ (hello.destination ++ (tag ++ rest))
    pub signed : tag ≡ mac password (row (hello_fields hello) ++ hello.destination)
    pub negotiable : Negotiable hello.version hello.mode hello.capabilities
    pub not_early : sub_nanos now hello_skew ≤ℤ unix_nanos hello.timestamp
    pub not_late : unix_nanos hello.timestamp ≤ℤ add_nanos now hello_skew
    pub named : hello.destination ≢ []
    pub keyed : password ≢ []

  finish→facts :
      (p : Parsed) (password : List ℕ) (now : ℤ) (destination behind got more : List ℕ)
      {hello : Hello} {rest : List ℕ}
      → read_full p.destination_length p.rest ≡ ok (destination, behind)
      → read_full 32 behind ≡ ok (got, more)
      → finish_hello mac p password now ≡ ok (hello, rest)
      → (stale p.timestamp now ≡ false)
        × (p.destination_length ≢ 0)
        × (got ≡ mac password (p.header ++ destination))
        × (hello_of p destination ≡ hello)
        × (more ≡ rest)
  unfolding finish_hello
  finish→facts p password now destination behind got more r r' e =
      ground (arith, bytes_equal→eq got (mac password (p.header ++ destination)))

  -- The reader does not succeed when the carrier ends early.
  finish_short_destination :
      (p : Parsed) (password : List ℕ) (now : ℤ) (x : Error) {r : Hello × List ℕ}
      → read_full p.destination_length p.rest ≡ err x
      → finish_hello mac p password now ≢ ok r
  unfolding finish_hello
  finish_short_destination p password now x short e = ground arith

  finish_short_code :
      (p : Parsed) (password : List ℕ) (now : ℤ) (destination behind : List ℕ) (x : Error)
      {r : Hello × List ℕ}
      → read_full p.destination_length p.rest ≡ ok (destination, behind)
      → read_full 32 behind ≡ err x
      → finish_hello mac p password now ≢ ok r
  unfolding finish_hello
  finish_short_code p password now destination behind x long short e = ground arith

  body-Authentic :
      (p : Parsed) (reader password : List ℕ) (now : ℤ) {hello : Hello} {rest : List ℕ}
      → Reads reader p
      → length password ≢ 0
      → finish_hello mac p password now ≡ ok (hello, rest)
      → Authentic reader password now hello rest
  body-Authentic p reader password now {hello} {rest} (split, known, laid) keyed e =
      elim (Result-cases (read_full p.destination_length p.rest)) [
        | inr (x, r) ↦ absurd (finish_short_destination p password now x r e)
        | inl ((destination, behind), r) ↦ elim (Result-cases (read_full 32 behind)) [
          | inr (x, r') ↦ absurd (finish_short_code p password now destination behind x r r' e)
          | inl ((got, more), r') ↦
              let (recent, sized, signed, same, last) =
                finish→facts p password now destination behind got more r r' e in
              let (split', len, _) = read_full_takes p.destination_length p.rest r in
              let (split'', _, _) = read_full_takes 32 behind r' in
              let header_of = laid destination len in
              subst (λ h. Authentic reader password now h rest) same
                (record {
                  tag = got;
                  layout = rw header_of (rw (split, split', split'', last));
                  signed = rw header_of signed;
                  negotiable = known;
                  not_early = (stale→skew p.timestamp now recent).0;
                  not_late = (stale→skew p.timestamp now recent).1;
                  named = λ empty. sized (omega (arith, len, ap length empty));
                  keyed = λ empty. keyed (ap length empty);
                })
        ]
      ]

  -- A HELLO that the reader returns from a carrier of bytes is authentic: the carrier's front is, byte
  -- for byte, the header of that HELLO, its destination and the code of both under the password, and
  -- only the rest is left. Its version, mode and capabilities agree, its time stamp is at most 90
  -- seconds from the clock on either side, and neither its destination nor the password is empty.
  pub read_hello_at-Authentic :
      (reader password : List ℕ) (now : ℤ) {hello : Hello} {rest : List ℕ}
      → All IsByte reader
      → read_hello_at mac reader password now ≡ ok (hello, rest)
      → Authentic reader password now hello rest
  unfolding read_hello_at
  read_hello_at-Authentic reader password now {hello} {rest} bytes e =
      let (keyed, read) = fail_if→ok (length password == 0) _ _ e in
      let (p, r, finished) = bind→ok (read_header reader) _ read in
      body-Authentic p reader password now (read_header-Reads reader bytes r) (ground arith)
        finished

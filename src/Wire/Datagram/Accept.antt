-- ===== src/Wire/Datagram/Accept.antt =====
-- core/datagram_engine.go: what ReadDatagramFrame accepts.
use smp3_multipath_kit_publi.Wire.Frame.{max_stream_frame_payload}
use smp3_multipath_kit_publi.Wire.Datagram.{
  read_datagram_frame, max_datagram_address_size, read_datagram_payload, write_datagram_frame,
  datagram_header, datagram_frame_type, DatagramFrame,
}
use smp3_multipath_kit_publi.Rx.Window.{payload_bytes}
use smp3_multipath_kit_publi.Wire.Canonical.{
  slice-byte, slice-join, be-slice, bytes-split, take-full, slice-front,
}
use smp3_multipath_kit_publi.Base.{
  sym, ◌++◌, ◌!=◌, ◌||◌, List, ◌^◌, length-drop, All, append_assoc, ap, length, take-append-drop,
  ◌∙◌, refl, get_or, ltb, subst, ◌≡◌, arith, ◌+◌, ◌==◌, ◌≤◌, drop, take, append-nil, ℕ,
}
use smp3_multipath_kit_publi.Wire.Bytes.{
  row, be, slice, be_value, read_full, IsByte, length-slice, read_full_takes,
}
use smp3_multipath_kit_publi.Wire.Result.{ok, ok_injective, fail_if→ok, bind→ok}

-- A datagram that the reader returns, and the frame that the writer makes of it.
pub record Accepted (max_datagram : ℕ) (reader : List ℕ) (f : DatagramFrame) (rest : List ℕ)
    : Type 0 where
  pub named : 1 ≤ length f.address
  pub small : length f.address ≤ 512
  pub fits : length f.body ≤ max_datagram
  pub payload_fits : 2 + length f.address + length f.body ≤ 2 ^ 20
  pub wire : List ℕ
  pub taken : reader ≡ wire ++ rest
  pub written : write_datagram_frame f ≡ ok wire

write-ok :
    (f : DatagramFrame)
    → 1 ≤ length f.address
    → length f.address ≤ 512
    → 2 + length f.address + length f.body ≤ 2 ^ 20
    → write_datagram_frame f
      ≡ ok (
          row (datagram_header f.id (2 + length f.address + length f.body))
          ++ (be 2 (length f.address) ++ (f.address ++ f.body)))
unfolding write_datagram_frame
write-ok f named small whole = ground arith

header-read :
    (header : List ℕ)
    → All IsByte header
    → length header ≡ 13
    → get_or header 0 0 ≡ datagram_frame_type
    → row (datagram_header (be_value (slice 1 9 header)) (be_value (slice 9 13 header))) ≡ header
unfolding slice
header-read header bytes size kind =
    let whole : take 13 header ++ drop 13 header ≡ header = take-append-drop 13 header in
    rw
      (
        be-slice 8 1 9 header bytes refl (omega (arith, size)),
        be-slice 4 9 13 header bytes refl (omega (arith, size)),
        append-nil (slice 9 13 header),
        slice-join 1 9 13 header (omega arith) (omega arith),
        ← kind,
        slice-byte 0 1 13 header refl (omega arith) (omega (arith, size)),
      )
      (take-full header 13 size)

payload-read :
    (max_datagram id : ℕ) (payload : List ℕ) {f : DatagramFrame}
    → All IsByte payload
    → read_datagram_payload max_datagram id payload ≡ ok f
    → (1 ≤ length f.address)
      × (length f.address ≤ 512)
      × (length f.body ≤ max_datagram)
      × (2 + length f.address + length f.body ≡ length payload)
      × (f.id ≡ id)
      × (be 2 (length f.address) ++ (f.address ++ f.body) ≡ payload)
unfolding read_datagram_payload
payload-read max_datagram id payload {f} bytes e =
    let n : ℕ = be_value (slice 0 2 payload) in
    let (bad_length, e₁) =
      fail_if→ok (n == 0 || ltb max_datagram_address_size n || ltb (length payload) (2 + n)) _ _
        e in
    let (too_long, e₂) = fail_if→ok (ltb max_datagram (length (drop (2 + n) payload))) _ _ e₁ in
    let inside : 2 + n ≤ length payload = ground (arith, bad_length) in
    let range : (1 ≤ n) × (n ≤ 512) = ground (arith, bad_length) in
    let at_most : length (drop (2 + n) payload) ≤ max_datagram = ground (arith, too_long) in
    let named = length-slice 2 (2 + n) payload inside in
    let size : length (slice 2 (2 + n) payload) ≡ n = omega (arith, named) in
    subst
      (λ (g : DatagramFrame).
        (1 ≤ length g.address)
        × (length g.address ≤ 512)
        × (length g.body ≤ max_datagram)
        × (2 + length g.address + length g.body ≡ length payload)
        × (g.id ≡ id)
        × (be 2 (length g.address) ++ (g.address ++ g.body) ≡ payload))
      (ok_injective e₂)
      (
        omega (arith, size, range),
        omega (arith, size, range),
        at_most,
        omega (arith, size, length-drop (2 + n) payload, inside),
        refl,
        rw (size, be-slice 2 0 2 payload bytes refl (omega (arith, inside)))
            (sym (append_assoc (slice 0 2 payload) (slice 2 (2 + n) payload) (drop (2 + n) payload))
              ∙ ap (λ front. front ++ drop (2 + n) payload)
                  (slice-join 0 2 (2 + n) payload (omega arith) (omega arith))
              ∙ ap (λ front. front ++ drop (2 + n) payload) (slice-front (2 + n) payload)
              ∙ take-append-drop (2 + n) payload),
      )

-- Whatever bytes arrive, a datagram that the reader returns has an address of 1 to 512 bytes and at
-- most the agreed maximum of data, which with the two bytes of the address's length are a payload of
-- at most 1 MiB; and what was taken off the carrier is, byte for byte, the frame that the writer makes
-- of that datagram.
pub read_datagram_frame-Accepted :
    (max_datagram : ℕ) (reader : List ℕ) {f : DatagramFrame} {rest : List ℕ}
    → All IsByte reader
    → read_datagram_frame max_datagram reader ≡ ok (f, rest)
    → Accepted max_datagram reader f rest
unfolding read_datagram_frame
read_datagram_frame-Accepted max_datagram reader {f} {rest} bytes e =
    let ((header, behind), r₁, e₁) = bind→ok (read_full 13 reader) _ e in
    let (kind, e₂) = fail_if→ok (get_or header 0 0 != datagram_frame_type) _ _ e₁ in
    let n : ℕ = be_value (slice 9 13 header) in
    let (size, e₃) =
      fail_if→ok
        (ltb n 3
          || ltb (2 + max_datagram_address_size + max_datagram) n
          || ltb max_stream_frame_payload n)
        _ _ e₂ in
    let ((payload, more), r₂, e₄) =
      bind→ok (read_full (be_value (slice 9 13 header)) behind) _ e₃ in
    let (g, read, same) =
      bind→ok (read_datagram_payload max_datagram (be_value (slice 1 9 header)) payload) _ e₄ in
    let (split₁, len₁, _) = read_full_takes 13 reader r₁ in
    let (split₂, len₂, _) = read_full_takes (be_value (slice 9 13 header)) behind r₂ in
    let (header_bytes, behind_bytes) =
      bytes-split header behind (subst (All IsByte) split₁ bytes) in
    let (payload_bytes, _) = bytes-split payload more (subst (All IsByte) split₂ behind_bytes) in
    let (named, small, fits, all, id, laid) =
      payload-read max_datagram (be_value (slice 1 9 header)) payload payload_bytes read in
    let limit : 2 + length g.address + length g.body ≤ 2 ^ 20 = ground (arith, size, all, len₂) in
    let head : row (datagram_header g.id (2 + length g.address + length g.body)) ≡ header =
      rw (id, all, len₂) (header-read header header_bytes len₁ (ground (arith, kind))) in
    subst (λ (p : DatagramFrame × List ℕ). Accepted max_datagram reader p.0 p.1) (ok_injective same)
      (record {
        named = named;
        small = small;
        fits = fits;
        payload_fits = limit;
        wire = header ++ payload;
        taken = split₁ ∙ ap (◌++◌ header) split₂ ∙ sym (append_assoc header payload more);
        written =
            write-ok g named small limit
            ∙ ap ok (
                ap (λ h. h ++ (be 2 (length g.address) ++ (g.address ++ g.body))) head
                ∙ ap (◌++◌ header) laid);
      })

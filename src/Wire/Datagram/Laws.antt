-- ===== src/Wire/Datagram/Laws.antt =====
-- core/datagram_engine.go: the datagram frame's writer and reader together.
use smp3_multipath_kit_publi.Wire.Datagram.{
  read_datagram_payload, DatagramFrame, datagram_header, read_datagram_frame, write_datagram_frame,
}
use smp3_multipath_kit_publi.Wire.Bytes.{
  length-be, be_field, be_value, length-row, slice-row, slice, row, be, read_full-append,
}
use smp3_multipath_kit_publi.Base.{
  arith, ◌++◌, ◌<◌, ◌^◌, ◌∷◌, ◌+◌, length-append, ℕ, ◌≤◌, length, ◌≡◌, [], refl, List, drop, sym,
  ◌∙◌, append-nil, ap, drop-append, append_assoc,
}
use smp3_multipath_kit_publi.Wire.Result.{ok}

header-length : (id n : ℕ) → length (row (datagram_header id n)) ≡ 13
header-length id n = omega (
  arith,
  length-append (be 8 id) (be 4 n ++ []),
  length-append (be 4 n) [],
  length-be 8 id,
  length-be 4 n,
)

header-id : (id n : ℕ) → id < 2 ^ 64 → be_value (slice 1 9 (row (datagram_header id n))) ≡ id
header-id id n h = be_field 8 id ((5 ∷ []) ∷ []) (be 4 n ∷ []) 1 9 h refl refl

header-size : (id n : ℕ) → n < 2 ^ 32 → be_value (slice 9 13 (row (datagram_header id n))) ≡ n
header-size id n h =
    be_field 4 n ((5 ∷ []) ∷ be 8 id ∷ []) [] 9 13 h (omega (arith, length-be 8 id)) refl

-- What the writer puts behind the header.
abbrev payload_fields : DatagramFrame → List (List ℕ)
payload_fields f = be 2 (length f.address) ∷ f.address ∷ f.body ∷ []

payload-length :
    (f : DatagramFrame) → length (row (payload_fields f)) ≡ 2 + length f.address + length f.body
payload-length f = omega (arith, length-row (payload_fields f), length-be 2 (length f.address))

payload-data : (f : DatagramFrame) → drop (2 + length f.address) (row (payload_fields f)) ≡ f.body
payload-data f =
    ap (drop (2 + length f.address))
      (sym (append_assoc (be 2 (length f.address)) f.address (f.body ++ [])))
    ∙ drop-append (2 + length f.address) (be 2 (length f.address) ++ f.address) (f.body ++ []) (
        omega (
          arith,
          length-append (be 2 (length f.address)) f.address,
          length-be 2 (length f.address),
        ))
    ∙ append-nil f.body

read-payload :
    (f : DatagramFrame) (max_datagram : ℕ)
    → 1 ≤ length f.address
    → length f.address ≤ 512
    → length f.body ≤ max_datagram
    → read_datagram_payload max_datagram f.id (row (payload_fields f)) ≡ ok f
unfolding read_datagram_payload
read-payload f max_datagram named small fits =
    let size =
      be_field 2 (length f.address) [] (f.address ∷ f.body ∷ []) 0 2 (omega (arith, small)) refl
        refl in
    let address =
      slice-row (be 2 (length f.address) ∷ []) f.address (f.body ∷ []) 2 (2 + length f.address)
        (omega (arith, length-be 2 (length f.address))) refl in
    let body = payload-data f in
    let len = payload-length f in rw (size, address, body, len) (ground arith)

write→facts :
    (f : DatagramFrame) {wire : List ℕ}
    → write_datagram_frame f ≡ ok wire
    → (1 ≤ length f.address)
      × (length f.address ≤ 512)
      × (2 + length f.address + length f.body ≤ 2 ^ 20)
      × (wire
          ≡ row (datagram_header f.id (2 + length f.address + length f.body))
            ++ row (payload_fields f))
unfolding write_datagram_frame
write→facts f e = ground (arith, append-nil f.body)

-- A datagram whose id fits a uint64, which `WriteDatagramFrame` accepts, is read back as it was by a
-- reader whose maximum it does not exceed, and what follows it stays on the carrier.
pub read_datagram_frame-write :
    (f : DatagramFrame) (max_datagram : ℕ) (rest : List ℕ) {wire : List ℕ}
    → f.id < 2 ^ 64
    → length f.body ≤ max_datagram
    → write_datagram_frame f ≡ ok wire
    → read_datagram_frame max_datagram (wire ++ rest) ≡ ok (f, rest)
unfolding read_datagram_frame
read_datagram_frame-write f max_datagram rest {wire} word fits e =
    let (named, small, whole, same) = write→facts f e in
    let n : ℕ = 2 + length f.address + length f.body in
    rw
      (
        same,
        append_assoc (row (datagram_header f.id n)) (row (payload_fields f)) rest,
        read_full-append 13 (row (datagram_header f.id n)) (row (payload_fields f) ++ rest)
            (header-length f.id n),
        header-size f.id n (omega (arith, whole)),
        header-id f.id n word,
        read_full-append n (row (payload_fields f)) rest (payload-length f),
        read-payload f max_datagram named small fits,
      )
      (ground arith)

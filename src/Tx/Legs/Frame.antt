-- ===== src/Tx/Legs/Frame.antt =====
-- core/stream_tx.go: the next sequence under the methods of ownership.
use smp3_multipath_kit_publi.Tx.Legs.{
  release_previous, mark_ordinary_admitted, assign_ordinary, release_owner, take_owner, reassign,
}
use smp3_multipath_kit_publi.Tx.Legs.Grow.{ensure-frame}
use smp3_multipath_kit_publi.Base.{
  inr, refl, ◌∙◌, ◌≡◌, ◌||◌, Bool-cases, ℕ, not, Option-cases, Option, inl, arith,
}
use smp3_multipath_kit_publi.Tx.{StreamTxRecord, StreamTxLedger, find, store, is_leg, ensure_leg}

ensure_leg-next :
    (l : StreamTxLedger) (id : ℕ) → (ensure_leg l id).0.next_sequence ≡ l.next_sequence
unfolding ensure_leg
ensure_leg-next l id = ground (arith, ensure-frame l)

reassign-next :
    (l : StreamTxLedger) (r : StreamTxRecord) (id now : ℕ)
    → (reassign l r id now).next_sequence ≡ l.next_sequence
unfolding reassign release_owner take_owner store
reassign-next l r id now = elim (Option-cases r.ordinary_owner) [
  | inl own ↦ rw (own, release_previous, reassign) refl
  | inr (id, own) ↦ rw (own, release_previous, reassign) refl
]

pub assign_ordinary-next :
    (l : StreamTxLedger) (handle : Option ℕ) (id now : ℕ)
    → (assign_ordinary l handle id now).0.next_sequence ≡ l.next_sequence
unfolding assign_ordinary
assign_ordinary-next l handle id now =
    let same = ensure_leg-next l id in
    elim (Bool-cases (ensure_leg l id).1) [
      | inr out ↦ rw (out, assign_ordinary) same
      | inl ok ↦ elim (Option-cases (find (ensure_leg l id).0 handle)) [
        | inl gone ↦ rw (ok, gone, assign_ordinary) same
        | inr (r, found) ↦ elim (Bool-cases (is_leg r.ordinary_owner id)) [
          | inl mine ↦ rw (ok, found, mine, assign_ordinary) same
          | inr other ↦
              rw (ok, found, other, assign_ordinary)
                (reassign-next (ensure_leg l id).0 r id now ∙ same)
        ]
      ]
    ]

pub mark_ordinary_admitted-next :
    (l : StreamTxLedger) (handle : Option ℕ) (id : ℕ)
    → (mark_ordinary_admitted l handle id).next_sequence ≡ l.next_sequence
unfolding mark_ordinary_admitted store
mark_ordinary_admitted-next l handle id =
    let same = ensure_leg-next l id in
    elim (Bool-cases (ensure_leg l id).1) [
      | inr out ↦ rw (out, mark_ordinary_admitted) same
      | inl ok ↦ elim (Option-cases (find (ensure_leg l id).0 handle)) [
        | inl gone ↦ rw (ok, gone, mark_ordinary_admitted) same
        | inr (r, found) ↦
            elim (Bool-cases (not (is_leg r.ordinary_owner id) || r.ordinary_admitted)) [
              | inl idle ↦ rw (ok, found, idle, mark_ordinary_admitted) same
              | inr due ↦ rw (ok, found, due, mark_ordinary_admitted) same
            ]
      ]
    ]

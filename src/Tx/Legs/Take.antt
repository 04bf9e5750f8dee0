-- ===== src/Tx/Legs/Take.antt =====
-- core/stream_tx.go: the rows of the legs when a record comes to an owner.
use smp3_multipath_kit_publi.Tx.Invariant.{owned_pending, owned_bytes, owned}
use smp3_multipath_kit_publi.Tx.{StreamTxLedger, StreamTxRecord}
use smp3_multipath_kit_publi.Tx.Legs.Rows.{weights_other, weights_own, Counts}
use smp3_multipath_kit_publi.Base.{
  ◌≢◌, pos, add64, get_or, Bool-cases, ==_iff, inr, ◌≡◌, ◌==◌, ◌%◌, get_or-set_self, ◌<◌, ◌^◌, inl,
  some, ◌∙◌, suc, subst, length, ap, ℕ, arith, ◌+◌, get_or-set_ne, if◌then◌else◌, sym,
}
use smp3_multipath_kit_publi.Tx.Legs.{int_suc, take_owner}

module _ (l : StreamTxLedger) (id : ℕ) (r : StreamTxRecord) (n size waiting : ℕ)
    (o : r.ordinary_owner ≡ some id) (h : id < length l.ordinary_frames)
    (b : length l.ordinary_bytes ≡ length l.ordinary_frames)
    (p : length l.pending_bytes ≡ length l.ordinary_frames) where
  take_owner-own :
      Counts l id n size waiting
      → Counts
          (take_owner l id r)
          id
          (owned id r + n)
          (owned_bytes id r + size)
          (owned_pending id r + waiting)
  unfolding take_owner
  take_owner-own c =
      let (one, all, rest) = weights_own r id o in
      record {
        frames =
            get_or-set_self l.ordinary_frames id _ (pos 0) h
            ∙ ap int_suc c.frames
            ∙ ap pos {x = suc n} (omega (arith, one));
        bytes = omega (
          arith,
          get_or-set_self l.ordinary_bytes id
              (add64 (get_or l.ordinary_bytes id 0) (length r.payload)) 0 (omega (arith, h, b)),
          c.bytes,
          all,
        );
        pending = row c ∙ ap (λ (x : ℕ). (x + waiting) % 2 ^ 64) (sym rest);
      }
    where
      row :
          Counts l id n size waiting
          → get_or (take_owner l id r).pending_bytes id 0
            ≡ ((if r.ordinary_admitted then 0 else length r.payload) + waiting) % 2 ^ 64
      row c = elim (Bool-cases r.ordinary_admitted) [
        | inl was ↦ rw was (omega (arith, c.pending))
        | inr not_yet ↦ rw not_yet (
            omega (
              arith,
              get_or-set_self l.pending_bytes id
                  (add64 (get_or l.pending_bytes id 0) (length r.payload)) 0 (omega (arith, h, p)),
              c.pending,
            ))
      ]

  take_owner-other :
      (j : ℕ)
      → id ≢ j
      → Counts l j n size waiting
      → Counts
          (take_owner l id r)
          j
          (owned j r + n)
          (owned_bytes j r + size)
          (owned_pending j r + waiting)
  unfolding take_owner
  take_owner-other j keep c =
      let (one, all, rest) = weights_other r j (ground (arith, o, keep)) in
      record {
        frames =
            get_or-set_ne l.ordinary_frames id j _ _ keep ∙ c.frames ∙ ap pos (omega (arith, one));
        bytes = get_or-set_ne l.ordinary_bytes id j _ _ keep ∙ omega (arith, c.bytes, all);
        pending = row c ∙ ap (λ (x : ℕ). (x + waiting) % 2 ^ 64) (sym rest);
      }
    where
      row :
          Counts l j n size waiting
          → get_or (take_owner l id r).pending_bytes j 0 ≡ (0 + waiting) % 2 ^ 64
      row c = elim (Bool-cases r.ordinary_admitted) [
        | inl was ↦ rw was (omega (arith, c.pending))
        | inr not_yet ↦
            rw not_yet (get_or-set_ne l.pending_bytes id j _ _ keep ∙ omega (arith, c.pending))
      ]

  pub take_owner-Counts :
      (j : ℕ)
      → Counts l j n size waiting
      → Counts
          (take_owner l id r)
          j
          (owned j r + n)
          (owned_bytes j r + size)
          (owned_pending j r + waiting)
  take_owner-Counts j c = elim (Bool-cases (id == j)) [
    | inl hit ↦
        subst
          (λ (x : ℕ).
            Counts l x n size waiting
            → Counts (take_owner l id r) x (owned x r + n) (owned_bytes x r + size)
                (owned_pending x r + waiting))
          ((==_iff id j).0 hit) take_owner-own c
    | inr miss ↦ take_owner-other j (ground (arith, miss)) c
  ]

-- ===== src/Tx/Legs/Rows.antt =====
-- core/stream_tx.go: the rows of the legs when a record leaves its owner.
use smp3_multipath_kit_publi.Base.{
  ℕ, arith, ◌%◌, pos, length, ◌+◌, ◌∙◌, sub64, some, get_or, ◌≡◌, ◌^◌, ◌<◌, if◌then◌else◌, false,
  ◌==◌, inl, ◌≢◌, get_or-set_ne, inr, ==_iff, ap, Bool-cases, get_or-set_self, subst, suc, Distinct,
  sum_over, delete, lookup, sum_over-delete,
}
use smp3_multipath_kit_publi.Tx.{StreamTxRecord, StreamTxLedger, is_leg}
use smp3_multipath_kit_publi.Tx.Legs.{release_owner, int_pred}
use smp3_multipath_kit_publi.Tx.Invariant.{owned, owned_bytes, owned_pending, Accounts}

-- The counters of the leg `j` are these, the bytes as uint64.
pub record Counts (l : StreamTxLedger) (j n size waiting : ℕ) : Type 0 where
  pub frames : get_or l.ordinary_frames j (pos 0) ≡ pos n
  pub bytes : get_or l.ordinary_bytes j 0 ≡ size % 2 ^ 64
  pub pending : get_or l.pending_bytes j 0 ≡ waiting % 2 ^ 64

-- What a record counts for at its owner and at another leg.
pub weights_own :
    (r : StreamTxRecord) (id : ℕ)
    → r.ordinary_owner ≡ some id
    → (owned id r ≡ 1)
      × (owned_bytes id r ≡ length r.payload)
      × (owned_pending id r ≡ (if r.ordinary_admitted then 0 else length r.payload))
weights_own r id o = ground (arith, o)

pub weights_other :
    (r : StreamTxRecord) (j : ℕ)
    → is_leg r.ordinary_owner j ≡ false
    → (owned j r ≡ 0) × (owned_bytes j r ≡ 0) × (owned_pending j r ≡ 0)
weights_other r j o = ground (arith, o)

-- The counts of a leg as the share of one record and that of the others.
pub Counts-share :
    (k : ℕ) (l : StreamTxLedger) (r : StreamTxRecord) (j : ℕ)
    → Distinct l.outstanding
    → lookup k l.outstanding ≡ some r
    → Accounts j l
    → let m = delete k l.outstanding in
      Counts l j
        (owned j r + sum_over (owned j) m)
        (owned_bytes j r + sum_over (owned_bytes j) m)
        (owned_pending j r + sum_over (owned_pending j) m)
Counts-share k l r j d e a = record {
  frames = a.frames ∙ ap pos (sum_over-delete (owned j) k l.outstanding {v = r} d e);
  bytes =
      a.bytes
      ∙ ap (λ (n : ℕ). n % 2 ^ 64) (sum_over-delete (owned_bytes j) k l.outstanding {v = r} d e);
  pending =
      a.pending
      ∙ ap (λ (n : ℕ). n % 2 ^ 64) (sum_over-delete (owned_pending j) k l.outstanding {v = r} d e);
}

-- The counters of the leg `j` when those of the leg `id` lose the record.
module _ (l : StreamTxLedger) (id : ℕ) (r : StreamTxRecord) (n size waiting : ℕ)
    (o : r.ordinary_owner ≡ some id) (h : id < length l.ordinary_frames)
    (b : length l.ordinary_bytes ≡ length l.ordinary_frames)
    (p : length l.pending_bytes ≡ length l.ordinary_frames) where
  release_owner-own :
      Counts l id (owned id r + n) (owned_bytes id r + size) (owned_pending id r + waiting)
      → Counts (release_owner l id r) id n size waiting
  unfolding release_owner
  release_owner-own c =
      let (one, all, rest) = weights_own r id o in
      record {
        frames =
            get_or-set_self l.ordinary_frames id _ (pos 0) h
            ∙ ap int_pred (c.frames ∙ ap pos {y = suc n} (omega (arith, one)));
        bytes = omega (
          arith,
          get_or-set_self l.ordinary_bytes id
              (sub64 (get_or l.ordinary_bytes id 0) (length r.payload)) 0 (omega (arith, h, b)),
          c.bytes,
          all,
        );
        pending = elim (Bool-cases r.ordinary_admitted) [
          | inl was ↦ rw was (c.pending ∙ ap (λ (x : ℕ). x % 2 ^ 64) (ground (arith, rest, was)))
          | inr not_yet ↦
              let all_of : owned_pending id r ≡ length r.payload = ground (arith, rest, not_yet) in
              rw not_yet (
                omega (
                  arith,
                  get_or-set_self l.pending_bytes id
                      (sub64 (get_or l.pending_bytes id 0) (length r.payload)) 0
                      (omega (arith, h, p)),
                  c.pending,
                  all_of,
                ))
        ];
      }

  release_owner-other :
      (j : ℕ)
      → id ≢ j
      → Counts l j (owned j r + n) (owned_bytes j r + size) (owned_pending j r + waiting)
      → Counts (release_owner l id r) j n size waiting
  unfolding release_owner
  release_owner-other j keep c =
      let (one, all, rest) = weights_other r j (ground (arith, o, keep)) in
      record {
        frames =
            get_or-set_ne l.ordinary_frames id j _ _ keep ∙ c.frames ∙ ap pos (omega (arith, one));
        bytes = get_or-set_ne l.ordinary_bytes id j _ _ keep ∙ omega (arith, c.bytes, all);
        pending = elim (Bool-cases r.ordinary_admitted) [
          | inl was ↦ rw was (omega (arith, c.pending, rest))
          | inr not_yet ↦
              rw not_yet
                (get_or-set_ne l.pending_bytes id j _ _ keep ∙ omega (arith, c.pending, rest))
        ];
      }

  pub release_owner-Counts :
      (j : ℕ)
      → Counts l j (owned j r + n) (owned_bytes j r + size) (owned_pending j r + waiting)
      → Counts (release_owner l id r) j n size waiting
  release_owner-Counts j c = elim (Bool-cases (id == j)) [
    | inl hit ↦
        subst
          (λ (x : ℕ).
            Counts l x (owned x r + n) (owned_bytes x r + size) (owned_pending x r + waiting)
            → Counts (release_owner l id r) x n size waiting)
          ((==_iff id j).0 hit) release_owner-own c
    | inr miss ↦ release_owner-other j (ground (arith, miss)) c
  ]

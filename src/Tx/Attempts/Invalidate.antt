-- ===== src/Tx/Attempts/Invalidate.antt =====
-- core/stream_tx.go, InvalidateLegWithReason: what still depends on a leg that has failed.
use smp3_multipath_kit_publi.Base.{
  ◌≡◌, pos, refl, if◌then◌else◌, ◌∙◌, List, [], map_values, sum_over, ℕ, Option-cases, arith, ap,
  get_or, sym, ◌∷◌,
}
use smp3_multipath_kit_publi.Tx.{StreamTxRecord, StreamTxLedger, depends_on, outstanding_for_leg}
use smp3_multipath_kit_publi.Tx.Attempts.{invalidate_leg, invalidated_record}
use smp3_multipath_kit_publi.Tx.Invariant.{IsSound, owned}

-- Of an invalidated record only the ordinary owner can still name the leg.
invalidated-depends_on :
    (leg : ℕ) (r : StreamTxRecord)
    → (if depends_on leg (invalidated_record leg r) then 1 else 0) ≡ owned leg r
unfolding depends_on
invalidated-depends_on leg r =
    ground (arith, Option-cases r.last_sent_leg, Option-cases r.ordinary_owner)

invalidated-sum :
    (leg : ℕ) (m : List (ℕ × StreamTxRecord))
    → sum_over (λ r. if depends_on leg r then 1 else 0) (map_values (invalidated_record leg) m)
      ≡ sum_over (owned leg) m
invalidated-sum leg [] = refl
invalidated-sum leg ((k, r) ∷ m) =
    omega (arith, invalidated-depends_on leg r, invalidated-sum leg m)

-- When a leg of a sound ledger has failed, no attempt, rescue or last write depends on it any more:
-- the records that `outstandingForLeg` still counts are those that the leg owns, as many as its
-- ordinary counter says.
pub invalidate_leg-outstanding_for_leg :
    (l : StreamTxLedger) (leg : ℕ)
    → IsSound l
    → pos (outstanding_for_leg (invalidate_leg l leg) leg)
      ≡ get_or (invalidate_leg l leg).ordinary_frames leg (pos 0)
unfolding outstanding_for_leg invalidate_leg
invalidate_leg-outstanding_for_leg l leg v =
    ap pos (invalidated-sum leg l.outstanding) ∙ sym (v.accounts leg).frames

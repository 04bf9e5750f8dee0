-- ===== src/Path/Writer.antt =====
-- core/stream_path_protocol.go: writeProtocolFull. The io.Writer is the parameter `write`, a function
-- of the writer's state and the bytes, which returns how many it took, and an error or none.
use smp3_multipath_kit_publi.Wire.Canonical.{take-split}
use smp3_multipath_kit_publi.Base.{
  take, drop, ◌==◌, refl, append_assoc, Option, ◌∙◌, if◌then◌else◌, [], inr, append-nil, zero, ◌++◌,
  inl, take-append-drop, ◌+◌, List, none, arith, ◌≡◌, some, sym, ◌∷◌, ℕ, ◌≤◌, ◌⊎◌, suc, length,
  Option-cases, length-drop, Bool-cases, ◌<◌,
}
use smp3_multipath_kit_publi.Wire.Result.{ok, Result, Error, short_write, err}

-- The end of a write: all of the bytes are out, or an error and a front part of them.
pub record Delivered {W : Type 0} (sent : W → List ℕ) (w : W) (bytes : List ℕ)
    (written : W × Result (Unit {0})) : Type 0 where
  pub count : ℕ
  pub out : sent written.0 ≡ sent w ++ take count bytes
  pub complete :
      ((written.1 ≡ ok tt) × (take count bytes ≡ bytes)) ⊎ ((why : Error) × (written.1 ≡ err why))

-- What io.Writer documents: it takes a part of the bytes from their front.
pub record IsWriter {W : Type 0} (write : W → List ℕ → W × ℕ × Option Error) (sent : W → List ℕ)
    : Type 0 where
  pub takes_front :
      (w : W) (bytes : List ℕ) → sent (write w bytes).0 ≡ sent w ++ take (write w bytes).1 bytes
  pub takes_part : (w : W) (bytes : List ℕ) → (write w bytes).1 ≤ length bytes

module _ {W : Type 0} (write : W → List ℕ → W × ℕ × Option Error) where
  -- `none` when the fuel runs out. A count of 0 or less is 0 here.
  unfoldable pub write_protocol_full : ℕ → W → List ℕ → Option (W × Result (Unit {0}))
  write_protocol_full fuel w [] = some (w, ok tt)
  write_protocol_full zero w (b ∷ bs) = none
  write_protocol_full (suc fuel) w (b ∷ bs) =
      let (after, n, failure) = write w (b ∷ bs) in
      let rest = write_protocol_full fuel after (drop n (b ∷ bs)) in
      elim failure [
        | some why ↦ some (after, err why)
        | none ↦ if n == 0 then some (after, err short_write) else rest
      ]

  module _ (sent : W → List ℕ) (contract : IsWriter write sent) where
    after-part :
        (w : W) (bytes : List ℕ) (n : ℕ) (after : W) {written : W × Result (Unit {0})}
        → sent after ≡ sent w ++ take n bytes
        → Delivered sent after (drop n bytes) written
        → Delivered sent w bytes written
    after-part w bytes n after {written} one more = record {
      count = n + more.count;
      out =
          more.out
          ∙ rw (one, take-split n more.count (n + more.count) bytes refl)
              (append_assoc (sent w) (take n bytes) (take more.count (drop n bytes)));
      complete = elim more.complete [
        | inl (done, all) ↦ inl (
          done,
          take-split n more.count (n + more.count) bytes refl ∙ rw all (take-append-drop n bytes),
        )
        | inr failed ↦ inr failed
      ];
    }

    -- `writeProtocolFull` returns: as many rounds as there are bytes are enough, whatever the writer
    -- does. Without an error all of the bytes are out, in their order; with an error a front part of
    -- them is.
    pub write_protocol_full-Delivered :
        (fuel : ℕ) (w : W) (bytes : List ℕ)
        → length bytes ≤ fuel
        → (written : W × Result (Unit {0})) × (write_protocol_full fuel w bytes ≡ some written)
          × Delivered sent w bytes written
    unfolding write_protocol_full
    write_protocol_full-Delivered fuel w [] enough = (
      (w, ok tt),
      refl,
      record { count = 0; out = sym (append-nil (sent w)); complete = inl (refl, refl) },
    )
    write_protocol_full-Delivered zero w (b ∷ bs) enough = absurd (omega arith)
    write_protocol_full-Delivered (suc fuel) w (b ∷ bs) enough =
        let n : ℕ = (write w (b ∷ bs)).1 in
        let after : W = (write w (b ∷ bs)).0 in
        let one = contract.takes_front w (b ∷ bs) in
        elim (Option-cases (write w (b ∷ bs)).2) [
          | inr (why, failed) ↦ (
            (after, err why),
            rw (failed, write_protocol_full) refl,
            record { count = n; out = one; complete = inr (why, refl) },
          )
          | inl fine ↦ elim (Bool-cases (n == 0)) [
            | inl stuck ↦ (
              (after, err short_write),
              rw (fine, stuck, write_protocol_full) refl,
              record { count = n; out = one; complete = inr (short_write, refl) },
            )
            | inr moved ↦
                let some_bytes : 0 < n = ground arith in
                let (written, e, d) =
                  write_protocol_full-Delivered fuel after (drop n (b ∷ bs))
                    (omega (arith, length-drop n (b ∷ bs))) in
                (
                  written,
                  rw (fine, moved, write_protocol_full) e,
                  after-part w (b ∷ bs) n after one d,
                )
          ]
        ]

-- ===== src/Tx/Frontier/Probe.antt =====
-- core/stream_tx.go: the probe reference and the copy of it that a snapshot reports.
use smp3_multipath_kit_publi.Tx.{StreamTxRecord, StreamTxLedger, find}
use smp3_multipath_kit_publi.Base.{
  Bool, ℕ, Option, ◌≡◌, ◌≢◌, some, none, Option-cases, inl, refl, inr, arith, false, true, subst,
}
use smp3_multipath_kit_publi.Tx.Frontier.{
  probe_reference, probe_reference_snapshot, reported_reference, used_reference,
}

-- A record whose recorded probe start is a known instant.
abbrev pub StartKnown : Option StreamTxRecord → Type 0
StartKnown none = Unit {0}
StartKnown (some r) = r.probe_write_started_at ≢ some 0

-- The snapshot reports the reference that the policy uses, for a nil, a retired or an outstanding
-- record, unless the record's probe start is the zero time.
pub probe_reference_snapshot-same :
    (l : StreamTxLedger) (handle : Option ℕ) (recovering : Bool)
    → StartKnown (find l handle)
    → probe_reference_snapshot l handle recovering ≡ probe_reference l handle recovering
unfolding probe_reference_snapshot probe_reference
probe_reference_snapshot-same l handle recovering h = elim (Option-cases (find l handle)) [
  | inl gone ↦ rw (gone, probe_reference_snapshot, probe_reference) refl
  | inr (r, found) ↦
      let known : r.probe_write_started_at ≢ some 0 = subst StartKnown found h in
      rw (found, probe_reference_snapshot, probe_reference) (outstanding recovering r known)
]
  where
    outstanding :
        (recovering : Bool) (r : StreamTxRecord)
        → r.probe_write_started_at ≢ some 0
        → reported_reference recovering r ≡ used_reference recovering r
    outstanding false r known = refl
    outstanding true r known = elim (Option-cases r.probe_write_started_at) [
      | inl gone ↦ ground (arith, gone)
      | inr (at, there) ↦ ground (arith, there, known)
    ]

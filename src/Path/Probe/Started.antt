-- ===== src/Path/Probe/Started.antt =====
-- core/stream_rtt_probe_cache.go: what startProbeAt has done where it sends a probe.
use smp3_multipath_kit_publi.Path.Probe.Exchange.{start_probe, send_probe, probe_message}
use smp3_multipath_kit_publi.Path.Probe.Cache.{
  drop_expired, count_pending, is_bound, probe_pending_limit, leg_at, valid_direction,
}
use smp3_multipath_kit_publi.Path.Probe.Echo.{IsLive}
use smp3_multipath_kit_publi.Wire.Result.{ok, Result-cases}
use smp3_multipath_kit_publi.Path.Probe.{
  RttProbeCache, done, ProbeResult, refused, RttPending, stale_generation, cache_closed,
}
use smp3_multipath_kit_publi.Path.Rtt.{binding_of, StreamPathIdentity, encode_rtt_message}
use smp3_multipath_kit_publi.Base.{
  ◌+◌, ◌≢◌, leb, List, length, false, ◌^◌, true, ◌≡◌, ℕ, some, lookup, ◌-◌, arith, ◌==◌, inr,
  Bool-cases, inl, insert, refl, not, ◌||◌, subst, lookup-insert, ap, if◌then◌else◌, Bool,
}

-- What an operation returned, and `v` where it refused.
abbrev value_or : {A : Type 0} → A → ProbeResult A → A
value_or v (done x) = x
value_or v (refused why) = v

else_case : {A : Type 0} (b : Bool) (x : A) {y z : A} → b ≡ false → (if b then x else y) ≡ z → y ≡ z
else_case false x e whole = whole
else_case true x e whole = absurd (ground (arith, e))

lookup-insert_self :
    (k : ℕ) (p : RttPending) (m : List (ℕ × RttPending)) → lookup k (insert k p m) ≡ some p
lookup-insert_self k p m = ground (arith, lookup-insert k k p m)

module _ (mac : List ℕ → List ℕ → List ℕ) where
  -- What `startProbeAt` leaves where it sends.
  pub record Started (c c' : RttProbeCache) (mine : StreamPathIdentity) (sent token : ℕ)
      (wire : List ℕ) : Type 0 where
    pub live : IsLive c' mine (leg_at c mine.leg_id).probe_key
    pub directed : valid_direction mine.direction ≡ true
    pub numbered : token ≡ c.next_token + 1
    pub unspent : c.next_token ≢ 2 ^ 64 - 1
    pub waits :
        lookup token c'.pending ≡ some (record { pending_identity = mine; probe_started = sent })
    pub encoded :
        encode_rtt_message mac (probe_message mine token) (leg_at c mine.leg_id).probe_key ≡ ok wire

  send_probe→Started :
      (c : RttProbeCache) (mine : StreamPathIdentity) (sent : ℕ) {c' : RttProbeCache} {token : ℕ}
      {wire : List ℕ}
      → c.cache_closed ≡ false
      → leb (length c.legs) mine.leg_id ≡ false
      → valid_direction mine.direction ≡ true
      → is_bound (leg_at c mine.leg_id) (binding_of mine) ≡ true
      → send_probe mac c mine sent ≡ (c', done (token, wire))
      → Started c c' mine sent token wire
  unfolding send_probe
  send_probe→Started c mine sent {c' = c'} {token = token} {wire = wire} e1 e2 e3 e4 e =
      let kept = record c { pending = drop_expired sent c.pending } in
      let next = c.next_token + 1 in
      let key = (leg_at c mine.leg_id).probe_key in
      elim (Bool-cases (leb probe_pending_limit (count_pending mine.leg_id kept.pending))) [
        | inl full ↦ cc (rw (full, send_probe) at e)
        | inr room ↦ elim (Bool-cases (c.next_token == 2 ^ 64 - 1)) [
          | inl spent ↦ cc (rw (room, spent, send_probe) at e)
          | inr left ↦ elim (Result-cases (encode_rtt_message mac (probe_message mine next) key)) [
            | inl (text, encoded) ↦
                let queue =
                  insert next (record { pending_identity = mine; probe_started = sent })
                    kept.pending in
                let sends : RttProbeCache = record kept { next_token = next; pending = queue } in
                let unspent : c.next_token ≢ 2 ^ 64 - 1 = ground (arith, left) in
                let whole : (sends, done (next, text)) ≡ (c', done (token, wire)) =
                  rw (room, left, encoded, send_probe) at e in
                subst (λ (s : RttProbeCache × (ℕ × List ℕ)). Started c s.0 mine sent s.1.0 s.1.1)
                  (ap
                    (λ (s : RttProbeCache × ProbeResult (ℕ × List ℕ)).
                      (s.0, value_or (next, text) s.1))
                    whole)
                  (record {
                    live = record { is_open = e1; in_range = e2; bound_to = e4; same_key = refl };
                    directed = e3;
                    numbered = refl;
                    unspent = unspent;
                    waits =
                        lookup-insert_self next
                          (record { pending_identity = mine; probe_started = sent }) kept.pending;
                    encoded = encoded;
                  })
            | inr (why, w) ↦ cc (rw (room, left, w, send_probe) at e)
          ]
        ]
      ]

  pub start_probe→Started :
      (c : RttProbeCache) (mine : StreamPathIdentity) (sent : ℕ) {c' : RttProbeCache} {token : ℕ}
      {wire : List ℕ}
      → start_probe mac c mine sent ≡ (c', done (token, wire))
      → Started c c' mine sent token wire
  unfolding start_probe
  start_probe→Started c mine sent {c' = c'} {token = token} {wire = wire} e =
      elim (Bool-cases (not (valid_direction mine.direction) || leb (length c.legs) mine.leg_id)) [
        | inl bad ↦ cc (rw (bad, start_probe) at e)
        | inr good ↦ elim (Bool-cases c.cache_closed) [
          | inl shut ↦ cc (rw (good, shut, start_probe) at e)
          | inr is_open ↦
              let rest : (if not (is_bound (leg_at c mine.leg_id) (binding_of mine))
                    then (c, refused stale_generation)
                    else send_probe mac c mine sent)
                  ≡ (c', done (token, wire)) =
                else_case c.cache_closed (c, refused cache_closed) is_open
                  (rw (good, start_probe) at e) in
              elim (Bool-cases (is_bound (leg_at c mine.leg_id) (binding_of mine))) [
                | inl bound ↦
                    send_probe→Started c mine sent is_open (ground (arith, good))
                      (ground (arith, good)) bound (rw bound at rest)
                | inr loose ↦ cc (rw loose at rest)
              ]
        ]
      ]

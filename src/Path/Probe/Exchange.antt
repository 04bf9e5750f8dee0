-- ===== src/Path/Probe/Exchange.antt =====
-- core/stream_rtt_probe_cache.go: startProbeAt, acceptProbe and acceptEchoAt.
use smp3_multipath_kit_publi.Path.Probe.Sample.{record_sample}
use smp3_multipath_kit_publi.Path.{StreamPathBinding, stream_rtt_probe_timeout}
use smp3_multipath_kit_publi.Path.Rtt.{
  binding_of, rtt_probe, StreamPathIdentity, rtt_echo, encode_rtt_message, decode_rtt_message,
  StreamRttMessage,
}
use smp3_multipath_kit_publi.Base.{
  ◌^◌, ltb, lookup, insert, ◌!=◌, ◌+◌, ◌||◌, ℕ, if◌then◌else◌, List, leb, some, none, length, ◌-◌,
  delete, ◌==◌, not,
}
use smp3_multipath_kit_publi.Path.Probe.{
  cache_closed, replay, done, refused, pending_full, probe_expired, ProbeResult, RttPending,
  stale_generation, token_exhausted, RttProbeCache, bad_code, bad_message, no_pending,
}
use smp3_multipath_kit_publi.Wire.Result.{ok, err}
use smp3_multipath_kit_publi.Path.Probe.Cache.{
  drop_expired, count_pending, is_bound, set_direction, probe_pending_limit, leg_at,
  valid_direction, same_identity, direction_at,
}

-- The message of a probe, and its echo.
abbrev pub probe_message : StreamPathIdentity → ℕ → StreamRttMessage
probe_message identity token = record { kind = rtt_probe; identity = identity; token = token }

abbrev pub echo_message : StreamPathIdentity → ℕ → StreamRttMessage
echo_message identity token = record { kind = rtt_echo; identity = identity; token = token }

module _ (mac : List ℕ → List ℕ → List ℕ) where
  -- `startProbeAt` behind the test of the leg.
  unfoldable pub send_probe :
      RttProbeCache → StreamPathIdentity → ℕ → RttProbeCache × ProbeResult (ℕ × List ℕ)
  send_probe c identity now =
      let kept = record c { pending = drop_expired now c.pending } in
      let token = c.next_token + 1 in
      if leb probe_pending_limit (count_pending identity.leg_id kept.pending)
      then (kept, refused pending_full)
      else if c.next_token == 2 ^ 64 - 1
      then (kept, refused token_exhausted)
      else elim (encode_rtt_message mac (probe_message identity token)
          (leg_at c identity.leg_id).probe_key) [
            | err why ↦ (kept, refused (bad_code why))
            | ok wire ↦ (
              record kept {
                next_token = token;
                pending =
                    insert token (record { pending_identity = identity; probe_started = now })
                      kept.pending;
              },
              done (token, wire),
            )
          ]

  unfoldable pub start_probe :
      RttProbeCache → StreamPathIdentity → ℕ → RttProbeCache × ProbeResult (ℕ × List ℕ)
  start_probe c identity now =
      if not (valid_direction identity.direction) || leb (length c.legs) identity.leg_id
      then (c, refused bad_message)
      else if c.cache_closed
      then (c, refused cache_closed)
      else if not (is_bound (leg_at c identity.leg_id) (binding_of identity))
      then (c, refused stale_generation)
      else send_probe c identity now

  -- `acceptProbe` behind the decoder.
  unfoldable pub answer_probe :
      RttProbeCache → ℕ → StreamRttMessage → ℕ → RttProbeCache × ProbeResult (List ℕ)
  answer_probe c id message expected =
      let leg = leg_at c id in
      let d = direction_at leg message.identity.direction in
      if message.kind != rtt_probe || message.identity.direction != expected
      then (c, refused bad_message)
      else if leb message.token d.last_peer_token
      then (c, refused replay)
      else elim (encode_rtt_message mac (record message { kind = rtt_echo }) leg.probe_key) [
        | err why ↦ (c, refused (bad_code why))
        | ok wire ↦ (
          set_direction c id message.identity.direction
              (record d { last_peer_token = message.token }),
          done wire,
        )
      ]

  unfoldable pub accept_probe :
      RttProbeCache → StreamPathBinding → ℕ → List ℕ → RttProbeCache × ProbeResult (List ℕ)
  accept_probe c binding expected wire =
      let leg = leg_at c binding.leg_id in
      if leb (length c.legs) binding.leg_id || not (valid_direction expected)
      then (c, refused bad_message)
      else if c.cache_closed || not (is_bound leg binding)
      then (c, refused stale_generation)
      else elim (decode_rtt_message mac wire leg.probe_key binding) [
        | err why ↦ (c, refused (bad_code why))
        | ok message ↦ answer_probe c binding.leg_id message expected
      ]

  -- `acceptEchoAt` behind the decoder: the token is retired whatever its time.
  unfoldable pub settle_probe :
      RttProbeCache
      → StreamPathIdentity
      → RttPending
      → ℕ
      → ℕ
      → RttProbeCache × ProbeResult (Unit {0})
  settle_probe c identity p token now =
      let retired = record c { pending = delete token c.pending } in
      let d = direction_at (leg_at c identity.leg_id) identity.direction in
      let rtt = now - p.probe_started in
      if ltb now p.probe_started || leb stream_rtt_probe_timeout rtt
      then (retired, refused probe_expired)
      else if rtt == 0
      then (retired, done tt)
      else (
        set_direction retired identity.leg_id identity.direction (record_sample d identity rtt now),
        done tt,
      )

  unfoldable pub match_echo :
      RttProbeCache
      → StreamPathIdentity
      → StreamRttMessage
      → ℕ
      → RttProbeCache × ProbeResult (Unit {0})
  match_echo c identity message now =
      if message.kind != rtt_echo || message.identity.direction != identity.direction
      then (c, refused bad_message)
      else elim (lookup message.token c.pending) [
        | none ↦ (c, refused no_pending)
        | some p ↦
            if same_identity p.pending_identity identity
            then settle_probe c identity p message.token now
            else (c, refused no_pending)
      ]

  unfoldable pub accept_echo :
      RttProbeCache → StreamPathIdentity → List ℕ → ℕ → RttProbeCache × ProbeResult (Unit {0})
  accept_echo c identity wire now =
      let leg = leg_at c identity.leg_id in
      if leb (length c.legs) identity.leg_id || not (valid_direction identity.direction)
      then (c, refused bad_message)
      else if c.cache_closed || not (is_bound leg (binding_of identity))
      then (c, refused stale_generation)
      else elim (decode_rtt_message mac wire leg.probe_key (binding_of identity)) [
        | err why ↦ (c, refused (bad_code why))
        | ok message ↦ match_echo c identity message now
      ]

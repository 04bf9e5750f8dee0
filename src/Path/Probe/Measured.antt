-- ===== src/Path/Probe/Measured.antt =====
-- core/stream_rtt_probe_cache.go: a probe, its answer and its echo, between the caches of both ends.
use smp3_multipath_kit_publi.Path.Probe.Cache.{leg_at, direction_at}
use smp3_multipath_kit_publi.Path.Probe.Exchange.{
  start_probe, echo_message, accept_probe, probe_message, accept_echo,
}
use smp3_multipath_kit_publi.Path.Probe.Answer.{ok→encode, answered}
use smp3_multipath_kit_publi.Path.Probe.Started.{start_probe→Started}
use smp3_multipath_kit_publi.Path.Rtt.RoundTrip.{decode_rtt_message-encode}
use smp3_multipath_kit_publi.Path.Probe.{
  RttDirection, RttProbeCache, done, refused, replay, no_pending,
}
use smp3_multipath_kit_publi.Path.Probe.Answer.{
  CanAnswer, seen_as, leg_at-set_direction, accept_probe-echo, encode→ok, revalidate,
}
use smp3_multipath_kit_publi.Path.Rtt.{
  StreamPathIdentity, rtt_message_mac, StreamRttMessage, binding_of, encode_rtt_message, rtt_fields,
  validate_rtt_message,
}
use smp3_multipath_kit_publi.Path.Probe.Sample.{add_sample, record_sample}
use smp3_multipath_kit_publi.Path.Probe.Echo.{accept_echo-measured, measured, retired}
use smp3_multipath_kit_publi.Path.{stream_rtt_probe_timeout, validate_binding}
use smp3_multipath_kit_publi.Base.{
  arith, some, ◌∙◌, ◌≡◌, inl, ◌-◌, ◌⊎◌, inr, length, leb, ◌^◌, ap, ◌++◌, refl, List, ℕ, false, ◌<◌,
}
use smp3_multipath_kit_publi.Wire.Result.{ok}
use smp3_multipath_kit_publi.Wire.Bytes.{row}

measured-published :
    (c : RttProbeCache) (mine : StreamPathIdentity) (token sent heard : ℕ)
    → leb (length c.legs) mine.leg_id ≡ false
    → (direction_at
        (leg_at (measured c mine token sent heard) mine.leg_id)
        mine.direction).published
      ≡ some (
        mine,
        add_sample
            (direction_at (leg_at c mine.leg_id) mine.direction).samples
            (heard - sent)
            heard,
      )
unfolding record_sample
measured-published c mine token sent heard inside =
    let new =
      record_sample (direction_at (leg_at c mine.leg_id) mine.direction) mine (heard - sent)
        heard in
    let (_, _, kept) =
      leg_at-set_direction (retired c token) mine.leg_id mine.direction new inside in
    ap (λ (d : RttDirection). d.published) kept

validate→bound :
    (m : StreamRttMessage)
    → validate_rtt_message m ≡ ok tt
    → validate_binding (binding_of m.identity) ≡ ok tt
unfolding validate_rtt_message validate_binding
validate→bound m e = ground arith

module _ (mac : List ℕ → List ℕ → List ℕ)
    (mac_size : (key text : List ℕ) → length (mac key text) ≡ 32) where
  -- Where one end sends a probe, and the other end has the leg bound under the same session and key
  -- with a carrier and a generation of its own and has not seen that token or a later one: the other
  -- end answers the probe and refuses a second copy as a replay; and the answer, if it comes back
  -- later than the probe was sent and within the timeout, is accepted once, publishes the samples
  -- with the time between, and a second copy finds no pending probe.
  pub start_probe-measured :
      (a b : RttProbeCache) (mine : StreamPathIdentity) (carrier : List ℕ)
      (generation sent heard later : ℕ) {a' : RttProbeCache} {token : ℕ} {wire : List ℕ}
      → length mine.session_id ≡ 16
      → a.next_token < 2 ^ 64
      → start_probe mac a mine sent ≡ (a', done (token, wire))
      → CanAnswer b (seen_as mine carrier generation) (leg_at a mine.leg_id).probe_key token
      → sent < heard
      → heard - sent < stream_rtt_probe_timeout
      → (echo : List ℕ) × (b' : RttProbeCache) × (a'' : RttProbeCache) × (accept_probe mac b
            (binding_of (seen_as mine carrier generation))
            mine.direction
            wire
          ≡ (b', done echo))
        × (accept_probe mac b' (binding_of (seen_as mine carrier generation)) mine.direction wire
            ≡ (b', refused replay))
        × (accept_echo mac a' mine echo heard ≡ (a'', done tt))
        × (accept_echo mac a'' mine echo later ≡ (a'', refused no_pending))
        × ((direction_at (leg_at a'' mine.leg_id) mine.direction).published
            ≡ some (
              mine,
              add_sample
                  (direction_at (leg_at a' mine.leg_id) mine.direction).samples
                  (heard - sent)
                  heard,
            ))
  start_probe-measured a b mine carrier generation sent heard later {a' = a'} {token = token}
        {wire = wire} size small sends ready after in_time =
      let theirs = seen_as mine carrier generation in
      let key = (leg_at a mine.leg_id).probe_key in
      let started = start_probe→Started mac a mine sent sends in
      let fits : token < 2 ^ 64 = omega (arith, started.numbered, started.unspent, small) in
      let (valid, text) = encode→ok mac mac_size (probe_message mine token) key started.encoded in
      let valid_of : (n : StreamRttMessage)
          → validate_binding (binding_of n.identity) ≡ ok tt
          → n.identity.direction ≡ mine.direction
          → n.token ≡ token
          → (n.kind ≡ 1) ⊎ (n.kind ≡ 2)
          → validate_rtt_message n ≡ ok tt =
        λ n. revalidate (probe_message mine token) n valid in
      let own : validate_binding (binding_of mine) ≡ ok tt =
        (validate→bound (probe_message mine token) valid) in
      let echo : List ℕ =
        row (rtt_fields (echo_message mine token))
        ++ rtt_message_mac mac key (row (rtt_fields (echo_message mine token))) in
      let wire_theirs : encode_rtt_message mac (probe_message theirs token) key ≡ ok wire =
        ok→encode mac mac_size (probe_message theirs token) key
          (valid_of (probe_message theirs token) ready.valid refl refl (inl refl))
        ∙ ap ok text in
      let echo_theirs : encode_rtt_message mac (echo_message theirs token) key ≡ ok echo =
        ok→encode mac mac_size (echo_message theirs token) key
          (valid_of (echo_message theirs token) ready.valid refl refl (inr refl)) in
      let echo_mine : encode_rtt_message mac (echo_message mine token) key ≡ ok echo =
        ok→encode mac mac_size (echo_message mine token) key
          (valid_of (echo_message mine token) own refl refl (inr refl)) in
      let heard_there =
        decode_rtt_message-encode mac mac_size (probe_message theirs token) key
          (record { session_size = size; token_fits = fits }) wire_theirs in
      let heard_here =
        decode_rtt_message-encode mac mac_size (echo_message mine token) key
          (record { session_size = size; token_fits = fits }) echo_mine in
      let (answers, once) =
        accept_probe-echo mac mac_size b theirs token key wire ready started.directed heard_there
          echo_theirs in
      let (settles, gone) =
        accept_echo-measured mac a' mine token sent heard key echo started.live started.directed
          heard_here started.waits after in_time in
      (
        echo,
        answered b theirs token,
        measured a' mine token sent heard,
        answers,
        once,
        settles,
        gone later,
        measured-published a' mine token sent heard started.live.in_range,
      )

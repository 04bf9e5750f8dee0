-- ===== src/Path/Probe.antt =====
-- core/stream_rtt_probe_cache.go: the probes of one session, by leg and direction. `mac` is
-- HMAC-SHA256, an instant that the source reads is an argument. The view that readers load atomically
-- is the published snapshot and the binding of the leg.
pub mod Sample
pub mod Cache
pub mod Exchange
pub mod Feedback
pub mod Fresh
pub mod Answer
pub mod Echo
pub mod Started
pub mod Measured
pub mod Examples
use smp3_multipath_kit_publi.Wire.Result.{Error}
use smp3_multipath_kit_publi.Path.Rtt.{StreamPathIdentity}
use smp3_multipath_kit_publi.Base.{Option, Bool, ℕ, List, none, []}
use smp3_multipath_kit_publi.Path.{StreamPathBinding, StreamPathAuth, zero_key, zero_id}

pub data ProbeError : Type 0 where
  cache_closed stale_generation generation_reuse pending_full token_exhausted : ProbeError
  probe_expired no_pending replay bad_message bad_negotiation : ProbeError
  bad_code : Error → ProbeError

pub data ProbeResult {ℓ} (V : Type ℓ) : Type ℓ where
  done : V → ProbeResult V
  refused : ProbeError → ProbeResult V

pub record RttSample : Type 0 where
  pub rtt : ℕ
  pub sampled_at : ℕ

pub record RttPending : Type 0 where
  pub pending_identity : StreamPathIdentity
  pub probe_started : ℕ

-- One direction of a leg: the peer's last token, the samples, and what is published of them.
pub record RttDirection : Type 0 where
  pub last_peer_token : ℕ
  pub samples : List RttSample
  pub published : Option (StreamPathIdentity × List RttSample)

pub record RttLeg : Type 0 where
  pub high_water : ℕ
  pub bound : Option StreamPathBinding  -- where the leg is active
  pub probe_key : List ℕ
  pub outward : RttDirection  -- client to server
  pub inward : RttDirection  -- server to client

pub record RttProbeCache : Type 0 where
  pub cache_closed : Bool
  pub legs : List RttLeg
  pub next_token : ℕ
  pub pending : List (ℕ × RttPending)

abbrev pub empty_direction : RttDirection
empty_direction = record { last_peer_token = 0; samples = []; published = none }

abbrev pub empty_leg : RttLeg
empty_leg = record {
  high_water = 0;
  bound = none;
  probe_key = zero_key;
  outward = empty_direction;
  inward = empty_direction;
}

-- ===== src/Path/Probe/Examples.antt =====
-- core/stream_rtt_probe_cache.go: a probe between two caches that name the leg's carrier differently.
use smp3_multipath_kit_publi.Path.Probe.Exchange.{
  start_probe, send_probe, accept_probe, probe_message, accept_echo,
}
use smp3_multipath_kit_publi.Path.Probe.Cache.{
  drop_expired, install_leg, bind_leg, count_pending, clear_leg, is_bound, leg_at, direction_at,
  drop_leg_pending, invalidate_probe_leg, same_identity,
}
use smp3_multipath_kit_publi.Path.Probe.Feedback.{StreamPathFeedback, path_feedback_at, newest_in}
use smp3_multipath_kit_publi.Path.Probe.Fresh.{Observed, path_feedback_at-Fresh}
use smp3_multipath_kit_publi.Path.Probe.Sample.{
  median_rtt, sorted_rtts, add_sample, recent_samples, sort_samples, insert_rtt, window_end,
  insert_sample,
}
use smp3_multipath_kit_publi.Path.Probe.Measured.{start_probe-measured}
use smp3_multipath_kit_publi.Wire.Bytes.{be}
use smp3_multipath_kit_publi.Wire.Hello.Examples.{toy_mac, toy_mac_size}
use smp3_multipath_kit_publi.Wire.Bytes.{bytes_equal}
use smp3_multipath_kit_publi.Path.Probe.Answer.{CanAnswer, seen_as}
use smp3_multipath_kit_publi.Path.Probe.{
  RttProbeCache, empty_leg, RttSample, generation_reuse, refused, done, replay, no_pending,
  empty_direction,
}
use smp3_multipath_kit_publi.Path.{validate_binding, row, valid_for, no_auth, StreamPathAuth}
use smp3_multipath_kit_publi.Path.Rtt.{
  binding_of, client_to_server, validate_rtt_message, rtt_fields, rtt_message_mac,
  encode_rtt_message, StreamPathIdentity,
}
use smp3_multipath_kit_publi.Base.{
  [], false, insert, refl, ◌≡◌, some, replicate, delete, ◌++◌, ◌∷◌, ℕ, List, true, arith, leb, ◌≤◌,
  length, ◌≢◌,
}

abbrev mine : StreamPathIdentity
mine = record {
  session_id = replicate 16 3;
  leg_id = 1;
  carrier_id = 97 ∷ [];
  generation = 4;
  direction = client_to_server;
}

abbrev theirs : StreamPathIdentity
theirs = seen_as mine (98 ∷ 99 ∷ []) 9

abbrev cache_for : StreamPathIdentity → RttProbeCache
cache_for i = record {
  cache_closed = false;
  legs =
      empty_leg
      ∷ record empty_leg {
        high_water = i.generation;
        bound = some (binding_of i);
        probe_key = replicate 32 5;
      }
      ∷ [];
  next_token = 6;
  pending = [];
}

abbrev sending : RttProbeCache
sending = record (cache_for mine) {
  next_token = 7;
  pending = (7, record { pending_identity = mine; probe_started = 1000 }) ∷ [];
}

abbrev probe_wire : List ℕ
probe_wire =
    row (rtt_fields (probe_message mine 7))
    ++ rtt_message_mac toy_mac (replicate 32 5) (row (rtt_fields (probe_message mine 7)))

starts : start_probe toy_mac (cache_for mine) mine 1000 ≡ (sending, done (7, probe_wire))
unfolding start_probe send_probe is_bound drop_expired count_pending encode_rtt_message
    validate_rtt_message validate_binding be insert delete bytes_equal
starts = refl

can_answer : CanAnswer (cache_for theirs) theirs (replicate 32 5) 7
unfolding is_bound validate_binding bytes_equal
can_answer = record {
  is_open = refl;
  in_range = refl;
  bound_to = refl;
  valid = refl;
  same_key = refl;
  unseen = refl;
}

start_probe-measured_example :
    (echo : List ℕ) × (b' : RttProbeCache) × (a'' : RttProbeCache) × (accept_probe toy_mac
        (cache_for theirs)
        (binding_of theirs)
        1
        probe_wire
      ≡ (b', done echo))
    × (accept_probe toy_mac b' (binding_of theirs) 1 probe_wire ≡ (b', refused replay))
    × (accept_echo toy_mac sending mine echo 1250 ≡ (a'', done tt))
    × (accept_echo toy_mac a'' mine echo 1300 ≡ (a'', refused no_pending))
    × ((direction_at (leg_at a'' 1) 1).published ≡ some (mine, add_sample [] 250 1250))
start_probe-measured_example =
    start_probe-measured toy_mac toy_mac_size (cache_for mine) (cache_for theirs) mine
      (98 ∷ 99 ∷ []) 9 1000 1250 1300 refl (omega arith) starts can_answer (omega arith)
      (omega arith)

-- The sample that is published, and the median of a window.
sample : add_sample [] 250 1250 ≡ record { rtt = 250; sampled_at = 1250 } ∷ []
unfolding add_sample window_end recent_samples sort_samples insert_sample
sample = refl

abbrev samples : List RttSample
samples =
    record { rtt = 30; sampled_at = 1 }
    ∷ record { rtt = 10; sampled_at = 2 }
    ∷ record { rtt = 21; sampled_at = 3 }
    ∷ record { rtt = 99; sampled_at = 9 }
    ∷ []

median : median_rtt (sorted_rtts 3 samples []) ≡ some 21
unfolding median_rtt sorted_rtts insert_rtt
median = refl

-- A clock that stands before the second sample does not count it; an even count takes the middle.
median_even : median_rtt (sorted_rtts 2 samples []) ≡ some 20
unfolding median_rtt sorted_rtts insert_rtt
median_even = refl

-- A generation below the mark is stale, the mark itself is reused, and a leg that went keeps it.
abbrev auth_for : StreamPathIdentity → StreamPathAuth
auth_for i = record no_auth {
  session_id = i.session_id;
  leg_id = i.leg_id;
  capabilities = 1;
  probe_key = replicate 32 5;
  authenticated = true;
}

gone : invalidate_probe_leg sending (binding_of mine) ≡ (
  record (cache_for mine) {
    legs = empty_leg ∷ record empty_leg { high_water = 4 } ∷ [];
    next_token = 7;
  },
  true,
)
unfolding invalidate_probe_leg clear_leg drop_leg_pending is_bound bytes_equal
gone = refl

rebound :
    (bind_leg
      (invalidate_probe_leg sending (binding_of mine)).0
      (binding_of mine)
      (auth_for mine)).1
    ≡ refused generation_reuse
unfolding bind_leg install_leg invalidate_probe_leg clear_leg drop_leg_pending is_bound bytes_equal
    valid_for
rebound = refl

abbrev fed : RttProbeCache
fed = record (cache_for mine) {
  legs =
      empty_leg
      ∷ record empty_leg {
        high_water = 4;
        bound = some (binding_of mine);
        probe_key = replicate 32 5;
        outward = record empty_direction { samples = samples; published = some (mine, samples) };
      }
      ∷ [];
}

abbrev report : StreamPathFeedback
report = record { feedback_identity = mine; rtt = 21; samples = 3; observed_at = 3 }

reads : path_feedback_at fed mine 3 ≡ some report
unfolding path_feedback_at is_bound bytes_equal median_rtt sorted_rtts insert_rtt newest_in
reads = refl

path_feedback_at-Fresh_example :
    (leb (length fed.legs) 1 ≡ false)
    × (is_bound (leg_at fed 1) (binding_of mine) ≡ true)
    × (report.samples ≢ 0)
    × ((owner : StreamPathIdentity) × (shown : List RttSample) × ((direction_at
            (leg_at fed 1)
            1).published
          ≡ some (owner, shown))
        × (same_identity owner mine ≡ true)
        × ((low : ℕ) × Observed 3 shown low × (low ≤ 21))
        × ((high : ℕ) × Observed 3 shown high × (21 ≤ high)))
path_feedback_at-Fresh_example = path_feedback_at-Fresh fed mine 3 reads

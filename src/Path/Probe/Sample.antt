-- ===== src/Path/Probe/Sample.antt =====
-- core/stream_rtt_probe_cache.go: recordSampleLocked and the median of pathFeedbackAt.
use smp3_multipath_kit_publi.Path.Probe.{RttDirection, RttSample}
use smp3_multipath_kit_publi.Path.Rtt.{StreamPathIdentity}
use smp3_multipath_kit_publi.Base.{
  get_or, ◌&&◌, Option, drop, ltb, ◌%◌, ◌/◌, ◌∷◌, ◌+◌, ℕ, ◌*◌, if◌then◌else◌, List, leb, some, none,
  length, ◌-◌, ◌==◌, ◌++◌, [],
}

-- StreamRTTSampleWindow, 30 seconds.
abbrev pub sample_window : ℕ
sample_window = 30 * 1000000000

abbrev pub max_samples : ℕ
max_samples = 5

unfoldable pub window_end : List RttSample → ℕ → ℕ
window_end [] edge = edge
window_end (s ∷ ss) edge = window_end ss (if ltb edge s.sampled_at then s.sampled_at else edge)

-- Samples that are no older than the window, seen from its end.
unfoldable pub recent_samples : ℕ → List RttSample → List RttSample
recent_samples edge [] = []
recent_samples edge (s ∷ ss) =
    let rest = recent_samples edge ss in
    if leb s.sampled_at edge && leb (edge - s.sampled_at) sample_window then s ∷ rest else rest

-- The insertion sort by time, from the front.
unfoldable pub insert_sample : RttSample → List RttSample → List RttSample
insert_sample s [] = s ∷ []
insert_sample s (t ∷ ts) =
    let rest = insert_sample s ts in if ltb s.sampled_at t.sampled_at then s ∷ t ∷ ts else t ∷ rest

unfoldable pub sort_samples : List RttSample → List RttSample → List RttSample
sort_samples sorted [] = sorted
sort_samples sorted (s ∷ ss) = sort_samples (insert_sample s sorted) ss

abbrev pub latest : List RttSample → List RttSample
latest ss = drop (length ss - max_samples) ss

unfoldable pub add_sample : List RttSample → ℕ → ℕ → List RttSample
add_sample current rtt now =
    let edge = window_end current now in
    let recent = recent_samples edge current in
    let added =
      if leb (edge - now) sample_window
      then recent ++ (record { rtt = rtt; sampled_at = now } ∷ [])
      else recent in
    latest (sort_samples [] added)

unfoldable pub record_sample : RttDirection → StreamPathIdentity → ℕ → ℕ → RttDirection
record_sample d identity rtt now =
    let recent = add_sample d.samples rtt now in
    record d { samples = recent; published = some (identity, recent) }

-- The round trips in the window at `now`, sorted, and their median; `none` where there is none.
unfoldable pub insert_rtt : ℕ → List ℕ → List ℕ
insert_rtt r [] = r ∷ []
insert_rtt r (x ∷ xs) = let rest = insert_rtt r xs in if ltb r x then r ∷ x ∷ xs else x ∷ rest

unfoldable pub sorted_rtts : ℕ → List RttSample → List ℕ → List ℕ
sorted_rtts now [] sorted = sorted
sorted_rtts now (s ∷ ss) sorted = sorted_rtts now ss (
    if leb s.sampled_at now && leb (now - s.sampled_at) sample_window
    then insert_rtt s.rtt sorted
    else sorted)

unfoldable pub median_rtt : List ℕ → Option ℕ
median_rtt [] = none
median_rtt (r ∷ rs) =
    let count = length (r ∷ rs) in
    let middle = get_or (r ∷ rs) (count / 2) 0 in
    let low = get_or (r ∷ rs) (count / 2 - 1) 0 in
    some (if count % 2 == 0 then low + (middle - low) / 2 else middle)

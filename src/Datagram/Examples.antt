-- ===== src/Datagram/Examples.antt =====
-- core/datagram_engine.go, acceptDatagramID at a window of two ids, and copies that arrive late.
use smp3_multipath_kit_publi.Datagram.{
  new_dedup, keep_from, accept_datagram_id, accept_all, DatagramConfig, remember, duplicate,
}
use smp3_multipath_kit_publi.Base.{ℕ, [], ◌≡◌, refl, lookup, insert, List, ◌∷◌, delete}
use smp3_multipath_kit_publi.Datagram.Once.{accept_all-Once, Once}

abbrev cfg : DatagramConfig
cfg = record { mode = duplicate; dedup_window = 2; adaptive_duplicate_threshold = 0 }

abbrev packets : List (ℕ × ℕ)
packets = (1, 10) ∷ (9, 10) ∷ (1, 10) ∷ (8, 10) ∷ (9, 10) ∷ []

-- The ids 1, 9 and 8 are accepted, newest first.
accepts : (accept_all cfg new_dedup [] packets).1 ≡ 8 ∷ 9 ∷ 1 ∷ []
unfolding accept_all accept_datagram_id remember keep_from insert delete lookup
accepts = refl

accept_all-Once_example : Once (accept_all cfg new_dedup [] packets).1
accept_all-Once_example = accept_all-Once cfg packets (refl, (refl, (refl, (refl, (refl, tt)))))

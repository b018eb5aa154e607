-- ===== src/Tests/Caches.antt =====
-- The theorems about the counter cache at concrete inputs.
use pacinet.Prelude.{◌≡◌, refl, [], ◌∷◌, arith}
use pacinet.HashMap.{get}
use pacinet.Counters.Cache.{CounterSnapshotCache, deque_of, evict_expired}
use pacinet.Counters.Cache.Laws.{evict_expired_lem}
use pacinet.Tests.Data.{snapshot}

abbrev full : CounterSnapshotCache
full = record {
  deques = ("a", snapshot 10 ∷ snapshot 70 ∷ []) ∷ [];
  retention = 60;
  max_per_node = 2;
}

evict_expired_lem_example : deque_of (get "a" (evict_expired 100 full).deques) ≡ snapshot 70 ∷ []
unfolding get
evict_expired_lem_example = evict_expired_lem 100 "a" full (refl, tt) (omega arith, tt)

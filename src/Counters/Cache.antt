-- ===== src/Counters/Cache.antt =====
-- `CounterSnapshotCache` of pacinet-server/src/counter_cache.rs: the last snapshots of each node. The lock
-- is taken for the whole of every method, so a method is one step.
pub mod Laws
pub mod Newest
use pacinet.Prelude.{
  ℕ, ◌+◌, ◌-◌, String, Bool, true, false, not, Option, none, some, List, [], ◌∷◌, ◌++◌, ltb, leb,
  length, keep, get_elem?, last?, if◌then◌else◌, is_some,
}
use pacinet.HashMap.{HashMap, get, insert, remove, keys, values, retain}
use pacinet.Model.{DateTime, Duration, CounterSnapshot}

pub record CounterSnapshotCache : Type 0 where
  pub deques : HashMap (List CounterSnapshot)
  pub retention : Duration
  pub max_per_node : ℕ

unfoldable pub new : Duration → ℕ → CounterSnapshotCache
new retention max_per_node = record {
  deques = [];
  retention = retention;
  max_per_node = max_per_node;
}

-- `or_default` at a deque.
abbrev pub deque_of : Option (List CounterSnapshot) → List CounterSnapshot
deque_of none = []
deque_of (some d) = d

-- `while deque.len() > max { deque.pop_front() }`
unfoldable pub trim : ℕ → List CounterSnapshot → List CounterSnapshot
trim max [] = []
trim max (x ∷ xs) = let rest = trim max xs in if ltb max (length (x ∷ xs)) then rest else x ∷ xs

unfoldable pub push_snapshot : CounterSnapshot → CounterSnapshotCache → CounterSnapshotCache
unfolding trim
push_snapshot snapshot c = record c {
  deques =
      insert snapshot.node_id
        (trim c.max_per_node (deque_of (get snapshot.node_id c.deques) ++ snapshot ∷ [])) c.deques;
}

unfoldable pub latest_pair :
    String → CounterSnapshotCache → Option (CounterSnapshot × CounterSnapshot)
latest_pair node_id c = elim (get node_id c.deques) [
  | none ↦ none
  | some deque ↦ if ltb (length deque) 2 then none else elim (get_elem? deque (length deque - 2)) [
    | none ↦ none
    | some older ↦ elim (get_elem? deque (length deque - 1)) [
      | none ↦ none
      | some newer ↦ some (older, newer)
    ]
  ]
]

unfoldable pub latest : String → CounterSnapshotCache → Option CounterSnapshot
latest node_id c = elim (get node_id c.deques) [ none ↦ none | some deque ↦ last? deque ]

-- `s.collected_at >= now - window`
unfoldable pub snapshots_in_window :
    DateTime → String → Duration → CounterSnapshotCache → List CounterSnapshot
snapshots_in_window now node_id window c = elim (get node_id c.deques) [
  | none ↦ []
  | some deque ↦ keep (λ s. leb now (s.collected_at + window)) deque
]

unfoldable pub remove_node : String → CounterSnapshotCache → CounterSnapshotCache
remove_node node_id c = record c { deques = remove node_id c.deques }

-- `front.collected_at < now - retention`
abbrev pub is_expired : DateTime → Duration → CounterSnapshot → Bool
is_expired now retention s = ltb (s.collected_at + retention) now

-- The inner loop of `evict_expired`.
unfoldable pub pop_expired : DateTime → Duration → List CounterSnapshot → List CounterSnapshot
pop_expired now retention [] = []
pop_expired now retention (x ∷ xs) =
    let rest = pop_expired now retention xs in if is_expired now retention x then rest else x ∷ xs

-- The loop over `values_mut()`.
unfoldable pub pop_each :
    DateTime → Duration → HashMap (List CounterSnapshot) → HashMap (List CounterSnapshot)
unfolding pop_expired
pop_each now retention [] = []
pop_each now retention ((k, deque) ∷ rest) =
    (k, pop_expired now retention deque) ∷ pop_each now retention rest

-- `data.retain(|_, deque| !deque.is_empty())`
unfoldable pub retain_filled : HashMap (List CounterSnapshot) → HashMap (List CounterSnapshot)
retain_filled [] = []
retain_filled ((k, []) ∷ rest) = retain_filled rest
retain_filled ((k, x ∷ xs) ∷ rest) = (k, x ∷ xs) ∷ retain_filled rest

unfoldable pub evict_expired : DateTime → CounterSnapshotCache → CounterSnapshotCache
unfolding pop_each retain_filled
evict_expired now c = record c { deques = retain_filled (pop_each now c.retention c.deques) }

unfoldable pub node_ids : CounterSnapshotCache → List String
node_ids c = keys c.deques

-- `data.values().map(|d| d.len()).sum()`
unfoldable pub sum_lengths : List (List CounterSnapshot) → ℕ
sum_lengths [] = 0
sum_lengths (d ∷ ds) = length d + sum_lengths ds

unfoldable pub total_snapshots : CounterSnapshotCache → ℕ
unfolding sum_lengths
total_snapshots c = sum_lengths (values c.deques)

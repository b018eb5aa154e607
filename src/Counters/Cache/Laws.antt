-- ===== src/Counters/Cache/Laws.antt =====
-- What the cache keeps of the snapshots that were put into it.
use mathlib.Core.Option
use pacinet.Prelude.{
  ℕ, suc, ◌+◌, ◌-◌, ◌≤◌, ◌<◌, String, ◌==◌, ◌≡◌, ◌∙◌, sym, ap, refl, eq_iff, false, Option, none,
  some, ltb→lt, List, [], ◌∷◌, ◌++◌, arith, ltb, length, length-append, drop, keep, not, Bool-cases,
  inl, inr, if◌then◌else◌,
}
use pacinet.HashMap.{HashMap, get}
use pacinet.HashMap.Laws.{get-insert, IsFunctional}
use pacinet.Model.{DateTime, Duration, CounterSnapshot}
use pacinet.Counters.Cache.{
  CounterSnapshotCache, deque_of, trim, push_snapshot, is_expired, pop_expired, pop_each,
  retain_filled, evict_expired,
}

more : (max n : ℕ) → max < suc n → suc n - max ≡ suc (n - max)
more max n h = omega arith

none_left : (max n : ℕ) → suc n ≤ max → suc n - max ≡ 0
none_left max n h = omega arith

nothing : (max : ℕ) → 0 - max ≡ 0
nothing max = omega arith

trim-drop : (max : ℕ) (xs : List CounterSnapshot) → trim max xs ≡ drop (length xs - max) xs
unfolding trim
trim-drop max [] = rw (nothing max) refl
trim-drop max (x ∷ xs) = elim (Bool-cases (ltb max (suc (length xs)))) [
  | inl e ↦ rw (e, trim-drop max xs, more max (length xs) (ltb→lt max (suc (length xs)) e)) refl
  | inr e ↦ rw (e, none_left max (length xs) (ground (arith, e))) refl
]

-- The cache holds of each node the newest snapshots, as many as fit; a new one drops the oldest.
pub push_snapshot_lem :
    (x : CounterSnapshot) (k : String) (c : CounterSnapshotCache)
    → let old = deque_of (get k c.deques) in
      deque_of (get k (push_snapshot x c).deques)
      ≡ (if x.node_id == k then drop ((length old + 1) - c.max_per_node) (old ++ x ∷ []) else old)
unfolding push_snapshot
push_snapshot_lem x k c =
    let old = deque_of (get x.node_id c.deques) in
    elim (Bool-cases (x.node_id == k)) [
      | inl e ↦
          simp (get-insert, e)
            (trim-drop c.max_per_node (old ++ x ∷ [])
              ∙ ap (λ n. drop (n - c.max_per_node) (old ++ x ∷ [])) (length-append old (x ∷ []))
              ∙ ap
                  (λ j.
                    let d = deque_of (get j c.deques) in
                    drop ((length d + 1) - c.max_per_node) (d ++ x ∷ []))
                  ((eq_iff x.node_id k).0 e))
      | inr e ↦ simp (get-insert, e) refl
    ]

-- Snapshots in the order of their times.
abbrev pub IsSorted : List CounterSnapshot → Type 0
IsSorted [] = Unit
IsSorted (x ∷ []) = Unit
IsSorted (x ∷ y ∷ xs) = (x.collected_at ≤ y.collected_at) × IsSorted (y ∷ xs)

all_fresh :
    (now : DateTime) (d : Duration) (x : CounterSnapshot) (xs : List CounterSnapshot)
    → is_expired now d x ≡ false
    → IsSorted (x ∷ xs)
    → keep (λ y. not (is_expired now d y)) (x ∷ xs) ≡ x ∷ xs
all_fresh now d x [] e h = rw e refl
all_fresh now d x (y ∷ ys) e h =
    rw e (ap (λ t. x ∷ t) (all_fresh now d y ys (ground (arith, h.0)) h.1))

pop_expired-keep :
    (now : DateTime) (d : Duration) (xs : List CounterSnapshot)
    → IsSorted xs
    → pop_expired now d xs ≡ keep (λ x. not (is_expired now d x)) xs
unfolding pop_expired
pop_expired-keep now d [] h = refl
pop_expired-keep now d (x ∷ []) h = ground arith
pop_expired-keep now d (x ∷ y ∷ xs) h = elim (Bool-cases (is_expired now d x)) [
  | inl e ↦ rw e (pop_expired-keep now d (y ∷ xs) h.1)
  | inr e ↦ rw e (ap (λ t. x ∷ t) (sym (all_fresh now d y xs (ground (arith, h.0)) h.1)))
]

get-pop_each :
    (now : DateTime) (d : Duration) (k : String) (m : HashMap (List CounterSnapshot))
    → get k (pop_each now d m) ≡ Option.map (pop_expired now d) (get k m)
unfolding pop_each get
get-pop_each now d k [] = refl
get-pop_each now d k ((j, v) ∷ m) = ground (arith, get-pop_each now d k m)

pop_each-IsFunctional :
    (now : DateTime) (d : Duration) (m : HashMap (List CounterSnapshot))
    → IsFunctional m
    → IsFunctional (pop_each now d m)
unfolding pop_each
pop_each-IsFunctional now d [] h = tt
pop_each-IsFunctional now d ((j, v) ∷ m) h = (
  get-pop_each now d j m ∙ ap (Option.map (pop_expired now d)) h.0,
  pop_each-IsFunctional now d m h.1,
)

get-retain_filled :
    (k : String) (m : HashMap (List CounterSnapshot))
    → IsFunctional m
    → deque_of (get k (retain_filled m)) ≡ deque_of (get k m)
unfolding retain_filled get
get-retain_filled k [] h = refl
get-retain_filled k ((j, []) ∷ m) h = elim (Bool-cases (j == k)) [
  | inl e ↦ rw e (
      get-retain_filled k m h.1
      ∙ ap (λ i. deque_of (get i m)) (sym ((eq_iff j k).0 e))
      ∙ ap deque_of h.0)
  | inr e ↦ rw e (get-retain_filled k m h.1)
]
get-retain_filled k ((j, x ∷ xs) ∷ m) h = ground (arith, get-retain_filled k m h.1)

deque_of-map :
    (now : DateTime) (d : Duration) (o : Option (List CounterSnapshot))
    → IsSorted (deque_of o)
    → deque_of (Option.map (pop_expired now d) o)
      ≡ keep (λ x. not (is_expired now d x)) (deque_of o)
deque_of-map now d none h = refl
deque_of-map now d (some xs) h = pop_expired-keep now d xs h

-- Where a node's snapshots came in the order of their times, an eviction leaves exactly those that are
-- not older than the retention period.
pub evict_expired_lem :
    (now : DateTime) (k : String) (c : CounterSnapshotCache)
    → IsFunctional c.deques
    → IsSorted (deque_of (get k c.deques))
    → deque_of (get k (evict_expired now c).deques)
      ≡ keep (λ x. not (is_expired now c.retention x)) (deque_of (get k c.deques))
unfolding evict_expired
evict_expired_lem now k c f h =
    get-retain_filled k (pop_each now c.retention c.deques)
      (pop_each-IsFunctional now c.retention c.deques f)
    ∙ rw (get-pop_each now c.retention k c.deques) (deque_of-map now c.retention (get k c.deques) h)

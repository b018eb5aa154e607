-- ===== src/Storage/Nodes/Summary.antt =====
-- `status_summary` counts every node once, under the name of its state, and finds the oldest heartbeat.
use mathlib.Core.Path.{subst}
use pacinet.Prelude.{
  ap, sym, ◌∙◌, ltb→lt, ℕ, suc, ◌+◌, ◌≤◌, String, ◌==◌, ◌≡◌, ◌⊎◌, eq_iff, refl, Option, none, some,
  List, [], ◌∷◌, arith, ok, length, keep, ltb, IsIn, All, inl, inr, if◌then◌else◌, Bool-cases,
}
use pacinet.HashMap.{HashMap, get, values}
use pacinet.HashMap.Laws.{get-insert}
use pacinet.Model.{DateTime, Node}
use pacinet.Model.State.{
  NodeState, registered, online, deploying, active, error, offline, same_state, display,
}
use pacinet.Storage.State.{MemoryStorage}
use pacinet.Storage.Nodes.{count_one, older, summarise, status_summary}

-- What a map of counts says of a key; a key that is missing counts nothing.
abbrev pub count_at : String → HashMap ℕ → ℕ
count_at k m = elim (get k m) [ none ↦ 0 | some n ↦ n ]

-- How many of the nodes are in a state.
abbrev pub in_state : NodeState → List Node → ℕ
in_state t ns = length (keep (λ n. same_state n.state t) ns)

count_at-count_one :
    (k j : String) (m : HashMap ℕ)
    → count_at j (count_one k m) ≡ (if k == j then suc (count_at j m) else count_at j m)
unfolding count_one
count_at-count_one k j m =
    ground (arith, eq_iff k j, get-insert k j (elim (get k m) [ none ↦ 1 | some n ↦ n + 1 ]) m)

display_inj : (s t : NodeState) → (display s == display t) ≡ same_state s t
unfolding display
display_inj registered registered = refl
display_inj registered _ = refl
display_inj online registered = refl
display_inj online _ = refl
display_inj deploying registered = refl
display_inj deploying _ = refl
display_inj active registered = refl
display_inj active _ = refl
display_inj error registered = refl
display_inj error _ = refl
display_inj offline registered = refl
display_inj offline _ = refl

summarise-count :
    (t : NodeState) (ns : List Node) (m : HashMap ℕ) (o : Option DateTime)
    → count_at (display t) (summarise ns m o).0 ≡ count_at (display t) m + in_state t ns
unfolding summarise
summarise-count t [] m o = omega arith
summarise-count t (n ∷ ns) m o = ground (
  arith,
  summarise-count t ns (count_one (display n.state) m) (older o n.last_heartbeat),
  count_at-count_one (display n.state) (display t) m,
  display_inj n.state t,
)

-- The nodes of all six states.
abbrev pub in_any_state : List Node → ℕ
in_any_state ns =
    in_state registered ns
    + in_state online ns
    + in_state deploying ns
    + in_state active ns
    + in_state error ns
    + in_state offline ns

length-in_any_state : (ns : List Node) → length ns ≡ in_any_state ns
length-in_any_state [] = omega arith
length-in_any_state (n ∷ ns) = ground (arith, length-in_any_state ns)

length-values : (m : HashMap Node) → length m ≡ length (values m)
length-values [] = refl
length-values (e ∷ m) = ap suc (length-values m)

-- The summary's total counts all nodes, and its count for each state the nodes in that state, so
-- that the six counts add up to the total.
pub status_summary_counts :
    (s : MemoryStorage) (t : NodeState) (total : ℕ) (by_state : HashMap ℕ)
    (oldest : Option DateTime)
    → status_summary s ≡ ok (total, by_state, oldest)
    → (count_at (display t) by_state ≡ in_state t (values s.nodes))
      × (total ≡ in_any_state (values s.nodes))
unfolding status_summary
status_summary_counts s t total by_state oldest h =
    let total_eq : length s.nodes ≡ total = cc in
    let counts_eq : (summarise (values s.nodes) [] none).0 ≡ by_state = cc in
    (
      ap (count_at (display t)) (sym counts_eq)
          ∙ summarise-count t (values s.nodes) [] none
          ∙ (unfold get in omega arith),
      sym total_eq ∙ length-values s.nodes ∙ length-in_any_state (values s.nodes),
    )

-- The earliest heartbeat of the nodes and of `start`.
abbrev IsEarliest : DateTime → List Node → DateTime → Type 0
IsEarliest start ns t =
    (t ≤ start)
    × All (λ n. t ≤ n.last_heartbeat) ns
    × ((t ≡ start) ⊎ ((n : Node) × IsIn n ns × (n.last_heartbeat ≡ t)))

summarise-oldest :
    (start : DateTime) (ns : List Node) (m : HashMap ℕ)
    → (t : DateTime) × ((summarise ns m (some start)).1 ≡ some t) × IsEarliest start ns t
unfolding summarise older
summarise-oldest start [] m = (start, refl, (omega arith, tt, inl refl))
summarise-oldest start (n ∷ ns) m = elim (Bool-cases (ltb n.last_heartbeat start)) [
  | inl y ↦
      let (t, e, w) = summarise-oldest n.last_heartbeat ns (count_one (display n.state) m) in
      (
        t,
        rw (y, summarise) e,
        (
          omega (arith, ltb→lt _ _ y),
          (w.0, w.1),
          elim w.2 [ inl q ↦ inr (n, inl refl, sym q) | inr (x, i, q) ↦ inr (x, inr i, q) ],
        ),
      )
  | inr y ↦
      let (t, e, w) = summarise-oldest start ns (count_one (display n.state) m) in
      (
        t,
        rw (y, summarise) e,
        (w.0, (ground arith, w.1), elim w.2 [ inl q ↦ inl q | inr (x, i, q) ↦ inr (x, inr i, q) ]),
      )
]

-- Without nodes the summary names no heartbeat, and else the earliest heartbeat of a node.
abbrev pub OldestOf : List Node → Option DateTime → Type 0
OldestOf [] oldest = oldest ≡ none
OldestOf (n ∷ ns) oldest =
    (t : DateTime) × (oldest ≡ some t)
    × All (λ x. t ≤ x.last_heartbeat) (n ∷ ns)
    × ((x : Node) × IsIn x (n ∷ ns) × (x.last_heartbeat ≡ t))

summarise-OldestOf : (ns : List Node) → OldestOf ns (summarise ns [] none).1
unfolding summarise older
summarise-OldestOf [] = refl
summarise-OldestOf (n ∷ ns) =
    let (t, e, w) = summarise-oldest n.last_heartbeat ns (count_one (display n.state) []) in
    (t, e, (w.0, w.1), elim w.2 [ inl q ↦ (n, inl refl, sym q) | inr (x, i, q) ↦ (x, inr i, q) ])

-- The summary's heartbeat is the earliest one among the nodes, or absent if there are none.
pub status_summary_oldest :
    (s : MemoryStorage) (total : ℕ) (by_state : HashMap ℕ) (oldest : Option DateTime)
    → status_summary s ≡ ok (total, by_state, oldest)
    → OldestOf (values s.nodes) oldest
unfolding status_summary
status_summary_oldest s total by_state oldest h =
    let e : (summarise (values s.nodes) [] none).1 ≡ oldest = cc in
    subst (OldestOf (values s.nodes)) e (summarise-OldestOf (values s.nodes))

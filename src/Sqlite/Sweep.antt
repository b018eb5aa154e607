-- ===== src/Sqlite/Sweep.antt =====
-- The stale sweep of pacinet-server/src/storage/sqlite.rs finds and marks what that of the memory storage does.
use mathlib.Core.Option
use pacinet.Prelude.{
  String, ◌==◌, ◌≡◌, ◌↔◌, ◌∙◌, inl, inr, refl, sym, eq_iff, Bool, true, false, Option, none, some,
  List, [], ◌∷◌, map, keep, any, IsIn, arith, Bool-cases, Option-cases, if◌then◌else◌, ◌||◌,
}
use pacinet.HashMap.{HashMap, get, insert, values}
use pacinet.HashMap.Laws.{get-insert}
use pacinet.HashMap.Keyed.{IsKeyedBy, IsKeyedBy-rewrite}
use pacinet.Model.{DateTime, Duration, Node}
use pacinet.Model.State.{offline}
use pacinet.Storage.State.{listed}
use pacinet.Storage.Nodes.{is_stale}
use pacinet.Storage.Nodes.Changes.{swept}
use pacinet.Sqlite.{SqliteStorage}
use pacinet.Sqlite.Fleet.{set_offline, mark_stale_nodes}

abbrev off : Node → Node
off n = record n { state = offline }

-- One `UPDATE`.
abbrev one_offline : String → HashMap Node → HashMap Node
one_offline id nodes = elim (get id nodes) [
  | none ↦ nodes
  | some n ↦ insert id (record n { state = offline }) nodes
]

get-one_offline :
    (id k : String) (nodes : HashMap Node)
    → get k (one_offline id nodes) ≡ (if id == k then Option.map off (get k nodes) else get k nodes)
get-one_offline id k nodes = elim (Option-cases (get id nodes)) [
  | inl e ↦ ground (arith, e, eq_iff id k)
  | inr (n, e) ↦ ground (arith, e, eq_iff id k, get-insert id k (off n) nodes)
]

IsKeyedBy-one_offline :
    (id : String) (nodes : HashMap Node)
    → IsKeyedBy (λ n. n.node_id) nodes
    → IsKeyedBy (λ n. n.node_id) (one_offline id nodes)
IsKeyedBy-one_offline id nodes h = elim (Option-cases (get id nodes)) [
  | inl e ↦ rw (e, one_offline) h
  | inr (n, e) ↦
      rw (e, one_offline) (IsKeyedBy-rewrite (λ x. x.node_id) id n (off n) nodes e refl h)
]

twice :
    (a b : Bool) (o : Option Node)
    → let p : Option Node = if b then Option.map off o else o in
      (if a then Option.map off p else p) ≡ (if b || a then Option.map off o else o)
twice true true none = refl
twice true true (some n) = refl
twice true false o = refl
twice false true o = refl
twice false false o = refl

get-set_offline :
    (ids : List String) (k : String) (nodes : HashMap Node)
    → get k (set_offline ids nodes)
      ≡ (if any (λ i. i == k) ids then Option.map off (get k nodes) else get k nodes)
unfolding set_offline
get-set_offline [] k nodes = refl
get-set_offline (id ∷ ids) k nodes =
    get-set_offline ids k (one_offline id nodes)
    ∙ rw (get-one_offline id k nodes) (twice (any (λ i. i == k) ids) (id == k) (get k nodes))

IsKeyedBy-set_offline :
    (ids : List String) (nodes : HashMap Node)
    → IsKeyedBy (λ n. n.node_id) nodes
    → IsKeyedBy (λ n. n.node_id) (set_offline ids nodes)
unfolding set_offline
IsKeyedBy-set_offline [] nodes h = h
IsKeyedBy-set_offline (id ∷ ids) nodes h =
    IsKeyedBy-set_offline ids (one_offline id nodes) (IsKeyedBy-one_offline id nodes h)

any_iff : (k : String) (ids : List String) → (any (λ i. i == k) ids ≡ true) ↔ IsIn k ids
any_iff k [] = (λ h. ground (arith, h), λ i. elim i [ ])
any_iff k (i ∷ is) =
    let rest = any_iff k is in
    (λ h. ground (arith, h, rest, eq_iff i k), λ h. ground (arith, h, rest, eq_iff i k))

-- The identifier of a node is selected exactly if the node is stale.
any-stale :
    (now : DateTime) (d : Duration) (k : String) (nodes : HashMap Node)
    → IsKeyedBy (λ n. n.node_id) nodes
    → any (λ i. i == k) (map (λ n. n.node_id) (keep (is_stale now d) (values nodes)))
      ≡ elim (get k nodes) [ none ↦ false | some n ↦ is_stale now d n ]
unfolding get
any-stale now d k [] h = refl
any-stale now d k ((j, n) ∷ rest) h =
    let ih = any-stale now d k rest (record { functional = h.functional.1; keyed = h.keyed.1 }) in
    elim (Bool-cases (is_stale now d n)) [
      | inl e ↦
          rw e (ground (arith, e, ih, h.keyed.0, h.functional.0, eq_iff j k, eq_iff n.node_id k))
      | inr e ↦
          rw e (ground (arith, e, ih, h.keyed.0, h.functional.0, eq_iff j k, eq_iff n.node_id k))
    ]

swept_by_test :
    (now : DateTime) (d : Duration) (o : Option Node)
    → (if elim o [ none ↦ false | some n ↦ is_stale now d n ] then Option.map off o else o)
      ≡ Option.map (swept now d) o
swept_by_test now d none = refl
swept_by_test now d (some n) = elim (Bool-cases (is_stale now d n)) [
  | inl e ↦ rw e refl
  | inr e ↦ rw e refl
]

-- A sweep reports exactly the identifiers of the stale nodes and makes these offline.
pub mark_stale_nodes-swept :
    (now : DateTime) (d : Duration) (k : String) (s : SqliteStorage)
    → IsKeyedBy (λ n. n.node_id) s.nodes
    → (IsIn k (listed (mark_stale_nodes now d s).0)
        ↔ ((n : Node) × (get k s.nodes ≡ some n) × (is_stale now d n ≡ true)))
      × (get k (mark_stale_nodes now d s).1.nodes ≡ Option.map (swept now d) (get k s.nodes))
      × IsKeyedBy (λ n. n.node_id) (mark_stale_nodes now d s).1.nodes
unfolding mark_stale_nodes
mark_stale_nodes-swept now d k s h =
    let ids : List String = map (λ n. n.node_id) (keep (is_stale now d) (values s.nodes)) in
    let test = any-stale now d k s.nodes h in
    let among = any_iff k ids in
    (
      elim (Option-cases (get k s.nodes)) [
        | inl e ↦
            (λ i. absurd (ground (arith, sym test ∙ among.1 i, e)), λ w. ground (arith, w.1, e))
        | inr (n, e) ↦ (
          λ i. (n, e, ground (arith, sym test ∙ among.1 i, e)),
          λ w. among.0 (test ∙ ground (arith, w.1, w.2)),
        )
      ],
      get-set_offline ids k s.nodes ∙ rw test (swept_by_test now d (get k s.nodes)),
      IsKeyedBy-set_offline ids s.nodes h,
    )

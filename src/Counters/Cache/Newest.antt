-- ===== src/Counters/Cache/Newest.antt =====
-- The two newest snapshots of a node.
use mathlib.Core.List.{append_assoc}
use mathlib.Core.Path.{subst}
use pacinet.Prelude.{
  ℕ, suc, zero, ◌+◌, ◌-◌, ◌≤◌, ◌<◌, String, ◌≡◌, ◌∙◌, sym, ap, refl, eq_refl, false, some, List, [],
  ◌∷◌, ◌++◌, arith, ltb, length, length-append, length-drop, drop, get_elem?, last?, last?-drop,
  last?-concat, split_last, Option-cases, inl, inr,
}
use pacinet.HashMap.{get}
use pacinet.Model.{CounterSnapshot}
use pacinet.Counters.Cache.{CounterSnapshotCache, deque_of, push_snapshot, latest_pair, latest}
use pacinet.Counters.Cache.Laws.{push_snapshot_lem}

successor : (n i : ℕ) → suc (n + i) ≡ suc n + i
successor n i = omega arith

not_short : ltb 0 2 ≡ false → ⊥
not_short h = cc

room :
    (xs : List CounterSnapshot) (p : CounterSnapshot) (max : ℕ)
    → 1 < max
    → last? xs ≡ some p
    → suc ((length xs + 1) - max) ≤ length xs
room [] p max h e = absurd cc
room (x ∷ xs) p max h e = omega arith

module _ {A : Type 0} where
  get_elem-drop : (n i : ℕ) (xs : List A) → get_elem? (drop n xs) i ≡ get_elem? xs (n + i)
  get_elem-drop zero i xs = ap (get_elem? xs) (omega arith)
  get_elem-drop (suc n) i [] = refl
  get_elem-drop (suc n) i (x ∷ xs) = get_elem-drop n i xs ∙ ap (get_elem? (x ∷ xs)) (successor n i)

  get_elem-concat :
      (xs : List A) (x : A) (ys : List A) → get_elem? (xs ++ x ∷ ys) (length xs) ≡ some x
  get_elem-concat [] x ys = refl
  get_elem-concat (y ∷ xs) x ys = get_elem-concat xs x ys

  -- The two last elements of a list of which the front may have been dropped.
  last_two :
      (n : ℕ) (xs : List A) (p x : A)
      → last? xs ≡ some p
      → suc n ≤ length xs
      → let d = drop n (xs ++ x ∷ []) in
        (ltb (length d) 2 ≡ false)
        × (get_elem? d (length d - 2) ≡ some p)
        × (get_elem? d (length d - 1) ≡ some x)
        × (last? d ≡ some x)
  last_two n xs p x e h =
      let (ys, f) = split_last xs p e in
      let zs = xs ++ x ∷ [] in
      let m : length xs ≡ length ys + 1 = ap length f ∙ length-append ys (p ∷ []) in
      let l : length (drop n zs) ≡ (length xs + 1) - n =
        length-drop n zs ∙ ap (λ k. k - n) (length-append xs (x ∷ [])) in
      let at_p : get_elem? zs (length ys) ≡ some p =
        ap (λ t. get_elem? t (length ys))
          (ap (λ t. t ++ x ∷ []) f ∙ append_assoc ys (p ∷ []) (x ∷ []))
        ∙ get_elem-concat ys p (x ∷ []) in
      (
        ground (arith, l, h),
        get_elem-drop n (length (drop n zs) - 2) zs
            ∙ ap (get_elem? zs) (omega (arith, l, m, h))
            ∙ at_p,
        get_elem-drop n (length (drop n zs) - 1) zs
            ∙ ap (get_elem? zs) (omega (arith, l, m, h))
            ∙ get_elem-concat xs x [],
        last?-drop n zs (omega (arith, length-append xs (x ∷ []), h)) ∙ last?-concat xs x,
      )

latest_of : (k : String) (c : CounterSnapshotCache) → latest k c ≡ last? (deque_of (get k c.deques))
unfolding latest
latest_of k c = ground arith

pair_of :
    (k : String) (c : CounterSnapshotCache) (d : List CounterSnapshot) (p x : CounterSnapshot)
    → deque_of (get k c.deques) ≡ d
    → ltb (length d) 2 ≡ false
    → get_elem? d (length d - 2) ≡ some p
    → get_elem? d (length d - 1) ≡ some x
    → latest_pair k c ≡ some (p, x)
unfolding latest_pair
pair_of k c d p x e l a b = elim (Option-cases (get k c.deques)) [
  | inl q ↦
      let empty : d ≡ [] = sym e ∙ ap deque_of q in
      absurd (not_short (sym (ap (λ t. ltb (length t) 2) empty) ∙ l))
  | inr (t, q) ↦
      let same : d ≡ t = sym e ∙ ap deque_of q in
      let l' = subst (λ u. ltb (length u) 2 ≡ false) same l in
      let a' = subst (λ u. get_elem? u (length u - 2) ≡ some p) same a in
      let b' = subst (λ u. get_elem? u (length u - 1) ≡ some x) same b in
      rw (q, latest_pair) (rw (l', a', b') refl)
]

-- Where the cache has room for two snapshots of a node, the one recorded last is the latest of its
-- node, and makes a pair with the one that was the latest before.
pub latest-push_snapshot :
    (x : CounterSnapshot) (p : CounterSnapshot) (c : CounterSnapshotCache)
    → 1 < c.max_per_node
    → latest x.node_id c ≡ some p
    → (latest x.node_id (push_snapshot x c) ≡ some x)
      × (latest_pair x.node_id (push_snapshot x c) ≡ some (p, x))
latest-push_snapshot x p c h e =
    let k = x.node_id in
    let old = deque_of (get k c.deques) in
    let n = (length old + 1) - c.max_per_node in
    let found = sym (latest_of k c) ∙ e in
    let (l, a, b, t) = last_two n old p x found (room old p c.max_per_node h found) in
    let d : deque_of (get k (push_snapshot x c).deques) ≡ drop n (old ++ x ∷ []) =
      push_snapshot_lem x k c ∙ simp (eq_refl) in
    (latest_of k (push_snapshot x c) ∙ ap last? d ∙ t, pair_of k (push_snapshot x c) _ p x d l a b)

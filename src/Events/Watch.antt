-- ===== src/Events/Watch.antt =====
-- The streams `watch_fsm_events`, `watch_counters` and `watch_node_events` of
-- pacinet-server/src/service.rs. What a stream yields is given as the domain's events, before their
-- conversion to messages.
use pacinet.Prelude.{
  and_true, true_and, ℕ, String, ◌==◌, ◌≡◌, refl, ap, Bool, true, false, Option, none, some, List,
  [], ◌∷◌, keep, all, if◌then◌else◌, is_none_or, Bool-cases, inl, inr, ◌∙◌, IsIn, ◌↔◌, eq_iff,
  arith, Option-cases, sym,
}
use pacinet.HashMap.{HashMap, get}
use pacinet.Events.Machine.{FsmEvent, instance_id}
use pacinet.Events.Fleet.{CounterEvent, NodeEvent, labels}

-- What `recv` of a broadcast channel answers: an event, how many were lost, or that the channel closed.
pub data Received (A : Type 0) : Type 0 where
  event : A → Received A
  lagged : ℕ → Received A
  closed : Received A

-- The loop of a stream, on what the channel gives it.
unfoldable pub watch : {A : Type 0} → (A → Bool) → List (Received A) → List A
watch p [] = []
watch p (event a ∷ rest) = let more = watch p rest in if p a then a ∷ more else more
watch p (lagged n ∷ rest) = watch p rest
watch p (closed ∷ rest) = []

-- An empty identifier in the request filters nothing.
unfoldable pub filter_id : String → Option String
filter_id s = if s == "" then none else some s

unfoldable pub watch_fsm_events : String → List (Received FsmEvent) → List FsmEvent
unfolding watch filter_id instance_id
watch_fsm_events id = watch (λ e. is_none_or (filter_id id) (λ i. instance_id e == i))

unfoldable pub watch_counters : String → List (Received CounterEvent) → List CounterEvent
unfolding watch filter_id
watch_counters id = watch (λ e. is_none_or (filter_id id) (λ i. e.node_id == i))

-- `filter.iter().all(|(k, v)| event_labels.get(k).map(|ev| ev == v).unwrap_or(false))`
unfoldable pub event_has_labels : HashMap String → NodeEvent → Bool
unfolding labels
event_has_labels label_filter e =
    all (λ kv. elim (get kv.0 (labels e)) [ none ↦ false | some w ↦ w == kv.1 ]) label_filter

unfoldable pub filter_labels : HashMap String → Option (HashMap String)
filter_labels [] = none
filter_labels (x ∷ xs) = some (x ∷ xs)

unfoldable pub watch_node_events : HashMap String → List (Received NodeEvent) → List NodeEvent
unfolding watch filter_labels event_has_labels
watch_node_events label_filter =
    watch (λ e. is_none_or (filter_labels label_filter) (λ f. event_has_labels f e))

-- The events that the channel gives before it closes.
abbrev pub received : {A : Type 0} → List (Received A) → List A
received [] = []
received (event a ∷ rest) = a ∷ received rest
received (lagged n ∷ rest) = received rest
received (closed ∷ rest) = []

watch-received :
    {A : Type 0} (p : A → Bool) (rs : List (Received A)) → watch p rs ≡ keep p (received rs)
unfolding watch
watch-received p [] = refl
watch-received p (event a ∷ rest) = rw (watch-received p rest) refl
watch-received p (lagged n ∷ rest) = watch-received p rest
watch-received p (closed ∷ rest) = refl

keep-true : {A : Type 0} (xs : List A) → keep (λ _. true) xs ≡ xs
keep-true [] = refl
keep-true (x ∷ xs) = ap (λ ys. x ∷ ys) (keep-true xs)

watch_by_id :
    {A : Type 0} (f : A → String) (id : String) (rs : List (Received A))
    → watch (λ e. is_none_or (filter_id id) (λ i. f e == i)) rs
      ≡ (if id == "" then received rs else keep (λ e. f e == id) (received rs))
unfolding filter_id
watch_by_id f id rs = elim (Bool-cases (id == "")) [
  | inl e ↦ rw (e, filter_id) (watch-received (λ _. true) rs ∙ keep-true (received rs))
  | inr e ↦ rw (e, filter_id) (watch-received (λ x. f x == id) rs)
]

watch_by_labels :
    (label_filter : HashMap String) (ns : List (Received NodeEvent))
    → watch (λ e. is_none_or (filter_labels label_filter) (λ f. event_has_labels f e)) ns
      ≡ keep (event_has_labels label_filter) (received ns)
unfolding filter_labels event_has_labels
watch_by_labels [] ns = watch-received (λ _. true) ns
watch_by_labels (x ∷ xs) ns = watch-received (event_has_labels (x ∷ xs)) ns

label_iff :
    (j w : String) (e : NodeEvent)
    → ((elim (get j (labels e)) [ none ↦ false | some x ↦ x == w ]) ≡ true)
      ↔ (get j (labels e) ≡ some w)
label_iff j w e = elim (Option-cases (get j (labels e))) [
  | inl n ↦ rw n (λ h. ground (arith, h), λ h. ground (arith, h))
  | inr (x, n) ↦ rw n (
    λ h. ap some ((eq_iff x w).0 h),
    λ h. (eq_iff x w).1 (ap (λ o. elim o [ none ↦ x | some y ↦ y ]) h),
  )
]

event_has_labels_iff :
    (label_filter : HashMap String) (e : NodeEvent)
    → (event_has_labels label_filter e ≡ true)
      ↔ ((k v : String) → IsIn (k, v) label_filter → get k (labels e) ≡ some v)
unfolding event_has_labels
event_has_labels_iff [] e = (λ h k v i. elim i [ ], λ h. refl)
event_has_labels_iff ((j, w) ∷ rest) e =
    let first = label_iff j w e in
    let others = event_has_labels_iff rest e in
    (
      λ h k v i. elim i [
        | inl p ↦
            ap (λ q. get q (labels e)) (ap (λ q. q.0) p)
            ∙ first.0 (and_true _ _ h).0
            ∙ ap (λ q. some q.1) (sym p)
        | inr m ↦ others.0 (and_true _ _ h).1 k v m
      ],
      λ h. true_and _ _ (first.1 (h j w (inl refl))) (others.1 (λ k v m. h k v (inr m))),
    )

-- Each of the three streams yields those of the events received before the channel closes that its filter
-- lets through, in their order and each as often as it was received: all of them if the request
-- names no instance, no node or no label, and otherwise those of the instance, of the node, or that
-- have every label of the request with its value.
pub watch_lem :
    (id : String) (label_filter : HashMap String) (fs : List (Received FsmEvent))
    (cs : List (Received CounterEvent)) (ns : List (Received NodeEvent))
    → (watch_fsm_events id fs
        ≡ (if id == "" then received fs else keep (λ e. instance_id e == id) (received fs)))
      × (watch_counters id cs
          ≡ (if id == "" then received cs else keep (λ e. e.node_id == id) (received cs)))
      × ((has : NodeEvent → Bool) × ((e : NodeEvent)
            → (has e ≡ true)
              ↔ ((k v : String) → IsIn (k, v) label_filter → get k (labels e) ≡ some v))
          × (watch_node_events label_filter ns ≡ keep has (received ns)))
unfolding watch_fsm_events watch_counters watch_node_events filter_id
watch_lem id label_filter fs cs ns = (
  watch_by_id instance_id id fs,
  watch_by_id (λ e. e.node_id) id cs,
  (
    event_has_labels label_filter,
    event_has_labels_iff label_filter,
    watch_by_labels label_filter ns,
  ),
)

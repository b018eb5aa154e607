-- ===== src/Sqlite/Logs/Newest.antt =====
-- What a query with a limit answers.
use pacinet.Prelude.{
  and_true, true_and, ℕ, zero, suc, ◌≤◌, String, ◌≡◌, ◌↔◌, ◌⊎◌, inl, inr, refl, true, Option, List,
  [], ◌∷◌, ok, take, drop, length, keep, IsIn, IsIn-keep, IsIn-of_IsIn-keep, length-take-le, arith,
  eq_iff, OptionAll-of_test, test_of_OptionAll,
}
use pacinet.Model.{DateTime, PersistentEvent}
use pacinet.Storage.Logs.Queries.{IsAsked, leb-true, true-leb}
use pacinet.Sqlite.{SqliteStorage}
use pacinet.Sqlite.Logs.{OrderBy, is_wanted, query_events}

-- The two parts that a limit makes of the rows.
module _ {A : Type 0} where
  of_parts : (n : ℕ) (a : A) (xs : List A) → IsIn a (take n xs) ⊎ IsIn a (drop n xs) → IsIn a xs
  of_parts zero a xs (inl i) = elim i [ ]
  of_parts zero a xs (inr i) = i
  of_parts (suc n) a [] (inl i) = elim i [ ]
  of_parts (suc n) a [] (inr i) = elim i [ ]
  of_parts (suc n) a (x ∷ xs) (inl (inl e)) = inl e
  of_parts (suc n) a (x ∷ xs) (inl (inr i)) = inr (of_parts n a xs (inl i))
  of_parts (suc n) a (x ∷ xs) (inr i) = inr (of_parts n a xs (inr i))

  to_parts : (n : ℕ) (a : A) (xs : List A) → IsIn a xs → IsIn a (take n xs) ⊎ IsIn a (drop n xs)
  to_parts zero a xs i = inr i
  to_parts (suc n) a [] i = elim i [ ]
  to_parts (suc n) a (x ∷ xs) (inl e) = inl (inl e)
  to_parts (suc n) a (x ∷ xs) (inr i) = elim (to_parts n a xs i) [
    | inl t ↦ inl (inr t)
    | inr d ↦ inr d
  ]

module _ {A : Type 0} (key : A → ℕ) where
  -- Each is followed by none with a greater key.
  unfoldable pub IsDescending : List A → Type 0
  IsDescending [] = Unit
  IsDescending (x ∷ xs) = ((y : A) → IsIn y xs → key y ≤ key x) × IsDescending xs

  not_after :
      (n : ℕ) (xs : List A) (a b : A)
      → IsDescending xs
      → IsIn a (take n xs)
      → IsIn b (drop n xs)
      → key b ≤ key a
  unfolding IsDescending
  not_after zero xs a b h i j = elim i [ ]
  not_after (suc n) [] a b h i j = elim i [ ]
  not_after (suc n) (x ∷ xs) a b h (inl e) j = rw e (h.0 b (of_parts n b xs (inr j)))
  not_after (suc n) (x ∷ xs) a b h (inr i) j = not_after n xs a b h.1 i j

take_or_all : {A : Type 0} (n : ℕ) (xs : List A) → (drop n xs ≡ []) ⊎ (length (take n xs) ≡ n)
take_or_all zero xs = inr refl
take_or_all (suc n) [] = inl refl
take_or_all (suc n) (x ∷ xs) = elim (take_or_all n xs) [
  | inl e ↦ inl e
  | inr e ↦ inr (omega (arith, e))
]

-- What the `WHERE` of a query selects: the events of the type, of the source, from the one time on and up to the
-- other, of those that the query names.
is_wanted_iff :
    (event_type source : Option String) (since until : Option DateTime) (e : PersistentEvent)
    → (is_wanted event_type source since until e ≡ true) ↔ IsAsked event_type source since until e
unfolding is_wanted
is_wanted_iff event_type source since until e = (
  λ h.
      let (named, p₄) = and_true _ _ h in
      let (from, p₃) = and_true _ _ named in
      let (p₁, p₂) = and_true _ _ from in
      (
        OptionAll-of_test _ _ event_type (λ t q. (eq_iff e.event_type t).0 q) p₁,
        OptionAll-of_test _ _ source (λ r q. (eq_iff e.source r).0 q) p₂,
        OptionAll-of_test _ _ since (λ t q. true-leb t e.timestamp q) p₃,
        OptionAll-of_test _ _ until (λ u q. true-leb e.timestamp u q) p₄,
      ),
  λ (p₁, p₂, p₃, p₄).
      true_and _ _
        (true_and _ _
          (true_and _ _ (test_of_OptionAll _ _ event_type (λ t q. (eq_iff e.event_type t).1 q) p₁)
            (test_of_OptionAll _ _ source (λ r q. (eq_iff e.source r).1 q) p₂))
          (test_of_OptionAll _ _ since (λ t q. leb-true t e.timestamp q) p₃))
        (test_of_OptionAll _ _ until (λ u q. leb-true e.timestamp u q) p₄),
)

-- Where `ORDER BY` answers the rows that were selected, the later ones first, a query of the event log answers
-- events of the log with the type, the source and the times that were asked for; each event that was asked
-- for is answered or left out, none that is left out is later than one that is answered, and one is left out
-- only if `limit` events are answered, never more.
pub query_events-newest :
    (order : OrderBy) (event_type source : Option String) (since until : Option DateTime)
    (limit : ℕ) (s : SqliteStorage)
    → let asked = keep (is_wanted event_type source since until) s.events in
      let ordered = order.descending (λ e. e.timestamp) asked in
      ((e : PersistentEvent) → IsIn e ordered ↔ IsIn e asked)
      → IsDescending (λ (e : PersistentEvent). e.timestamp) ordered
      → (answered : List PersistentEvent) × (left : List PersistentEvent) × (query_events order
            event_type source since until limit s
          ≡ ok answered)
        × ((e : PersistentEvent)
            → (IsIn e s.events × IsAsked event_type source since until e)
              ↔ (IsIn e answered ⊎ IsIn e left))
        × ((a b : PersistentEvent) → IsIn a answered → IsIn b left → b.timestamp ≤ a.timestamp)
        × ((left ≡ []) ⊎ (length answered ≡ limit))
        × (length answered ≤ limit)
unfolding query_events
query_events-newest order event_type source since until limit s selected descending =
    let wanted = is_wanted event_type source since until in
    let asked = keep wanted s.events in
    let ordered : List PersistentEvent = order.descending (λ e. e.timestamp) asked in
    (
      take limit ordered,
      drop limit ordered,
      refl,
      λ e. (
        λ h. to_parts limit e ordered (
            (selected e).1 (
              IsIn-keep wanted e s.events h.0
                ((is_wanted_iff event_type source since until e).1 h.1))),
        λ h.
            let (i, t) =
              IsIn-of_IsIn-keep wanted e s.events ((selected e).0 (of_parts limit e ordered h)) in
            (i, (is_wanted_iff event_type source since until e).0 t),
      ),
      λ a b. not_after (λ e. e.timestamp) limit ordered a b descending,
      take_or_all limit ordered,
      length-take-le limit ordered,
    )

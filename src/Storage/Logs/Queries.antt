-- ===== src/Storage/Logs/Queries.antt =====
-- What a query of the event log answers, and what pruning leaves of it.
use mathlib.Core.List.{reverse}
use pacinet.Prelude.{
  Bool, ◌==◌, is_none_or, ap, sym, ◌∙◌, ltb, IsIn-reverse, IsIn-of_IsIn-reverse, length-reverse,
  take_of_length-le, ℕ, ◌+◌, ◌≤◌, String, ◌≡◌, ◌↔◌, eq_iff, refl, true, Option, List, [], ◌∷◌,
  arith, ok, leb, length, length-keep-le, take, keep, IsIn, IsIn-keep, IsIn-of_IsIn-keep, OptionAll,
  OptionAll-of_test, test_of_OptionAll,
}
use pacinet.Model.{DateTime, PersistentEvent}
use pacinet.Storage.State.{MemoryStorage, listed}
use pacinet.Storage.Logs.{query_events, prune_events}

-- The filter of a query, each part of which may be absent.
abbrev pub IsAsked :
    Option String → Option String → Option DateTime → Option DateTime → PersistentEvent → Type 0
IsAsked event_type source since until e =
    OptionAll (λ t. e.event_type ≡ t) event_type
    × OptionAll (λ r. e.source ≡ r) source
    × OptionAll (λ t. t ≤ e.timestamp) since
    × OptionAll (λ u. e.timestamp ≤ u) until

pub leb-true : (a b : ℕ) → a ≤ b → leb a b ≡ true
leb-true a b h = ground arith

pub true-leb : (a b : ℕ) → leb a b ≡ true → a ≤ b
true-leb a b h = ground arith

by_type : Option String → PersistentEvent → Bool
by_type o e = is_none_or o (λ t. e.event_type == t)

by_source : Option String → PersistentEvent → Bool
by_source o e = is_none_or o (λ r. e.source == r)

from_time : Option DateTime → PersistentEvent → Bool
from_time o e = is_none_or o (λ t. leb t e.timestamp)

to_time : Option DateTime → PersistentEvent → Bool
to_time o e = is_none_or o (λ u. leb e.timestamp u)

module _ (event_type source : Option String) (since until : Option DateTime) where
  -- The events that pass the four filters, newest first.
  matching : List PersistentEvent → List PersistentEvent
  matching es =
      keep (to_time until)
        (keep (from_time since) (keep (by_source source) (keep (by_type event_type) (reverse es))))

  length-matching-le : (es : List PersistentEvent) → length (matching es) ≤ length es
  unfolding matching
  length-matching-le es = omega (
    arith,
    length-keep-le (to_time until)
        (keep (from_time since) (keep (by_source source) (keep (by_type event_type) (reverse es)))),
    length-keep-le (from_time since)
        (keep (by_source source) (keep (by_type event_type) (reverse es))),
    length-keep-le (by_source source) (keep (by_type event_type) (reverse es)),
    length-keep-le (by_type event_type) (reverse es),
    length-reverse es,
  )

  IsIn-of_IsIn-matching :
      (e : PersistentEvent) (es : List PersistentEvent)
      → IsIn e (matching es)
      → IsIn e es × IsAsked event_type source since until e
  unfolding matching by_type by_source from_time to_time
  IsIn-of_IsIn-matching e es m =
      let (a, p₄) = IsIn-of_IsIn-keep (to_time until) e _ m in
      let (b, p₃) = IsIn-of_IsIn-keep (from_time since) e _ a in
      let (c, p₂) = IsIn-of_IsIn-keep (by_source source) e _ b in
      let (d, p₁) = IsIn-of_IsIn-keep (by_type event_type) e _ c in
      (
        IsIn-of_IsIn-reverse e es d,
        (
          OptionAll-of_test _ _ event_type (λ t q. (eq_iff e.event_type t).0 q) p₁,
          OptionAll-of_test _ _ source (λ r q. (eq_iff e.source r).0 q) p₂,
          OptionAll-of_test _ _ since (λ t q. true-leb t e.timestamp q) p₃,
          OptionAll-of_test _ _ until (λ u q. true-leb e.timestamp u q) p₄,
        ),
      )

  IsIn-matching :
      (e : PersistentEvent) (es : List PersistentEvent)
      → IsIn e es × IsAsked event_type source since until e
      → IsIn e (matching es)
  unfolding matching by_type by_source from_time to_time
  IsIn-matching e es h =
      let (p₁, p₂, p₃, p₄) = h.1 in
      IsIn-keep (to_time until) e _
        (IsIn-keep (from_time since) e _
          (IsIn-keep (by_source source) e _
            (IsIn-keep (by_type event_type) e _ (IsIn-reverse e es h.0)
              (test_of_OptionAll _ _ event_type (λ t q. (eq_iff e.event_type t).1 q) p₁))
            (test_of_OptionAll _ _ source (λ r q. (eq_iff e.source r).1 q) p₂))
          (test_of_OptionAll _ _ since (λ t q. leb-true t e.timestamp q) p₃))
        (test_of_OptionAll _ _ until (λ u q. leb-true e.timestamp u q) p₄)

  query-take :
      (limit : ℕ) (s : MemoryStorage)
      → listed (query_events event_type source since until limit s) ≡ take limit (matching s.events)
  unfolding query_events matching by_type by_source from_time to_time
  query-take limit s = refl

  query_all :
      (limit : ℕ) (s : MemoryStorage)
      → length s.events ≤ limit
      → listed (query_events event_type source since until limit s) ≡ matching s.events
  query_all limit s h =
      query-take limit s
      ∙ take_of_length-le limit (matching s.events) (omega (arith, length-matching-le s.events))

-- A query whose limit covers the log answers exactly the events in the log that were asked for.
pub query_events_iff :
    (event_type source : Option String) (since until : Option DateTime) (limit : ℕ)
    (e : PersistentEvent) (s : MemoryStorage)
    → length s.events ≤ limit
    → IsIn e (listed (query_events event_type source since until limit s))
      ↔ (IsIn e s.events × IsAsked event_type source since until e)
query_events_iff event_type source since until limit e s h =
    rw (query_all event_type source since until limit s h) (
      IsIn-of_IsIn-matching event_type source since until e s.events,
      IsIn-matching event_type source since until e s.events,
    )

-- With a smaller limit a query answers the first `limit` events of the full answer.
pub query_events_limit :
    (event_type source : Option String) (since until : Option DateTime) (limit : ℕ)
    (s : MemoryStorage)
    → listed (query_events event_type source since until limit s)
      ≡ take limit (listed (query_events event_type source since until (length s.events) s))
query_events_limit event_type source since until limit s =
    query-take event_type source since until limit s
    ∙ ap (take limit) (sym (query_all event_type source since until (length s.events) s le_self))
  where
    le_self : length s.events ≤ length s.events
    le_self = omega arith

older_and_newer :
    (t : DateTime) (es : List PersistentEvent)
    → length (keep (λ e. leb t e.timestamp) es) + length (keep (λ e. ltb e.timestamp t) es)
      ≡ length es
older_and_newer t [] = omega arith
older_and_newer t (e ∷ es) = ground (arith, older_and_newer t es)

-- Pruning leaves exactly the events from `older_than` on, and answers how many it has removed.
pub prune_events_lem :
    (older_than : DateTime) (e : PersistentEvent) (s : MemoryStorage)
    → (IsIn e (prune_events older_than s).1.events ↔ (IsIn e s.events × (older_than ≤ e.timestamp)))
      × ((prune_events older_than s).0
          ≡ ok (length (keep (λ x. ltb x.timestamp older_than) s.events)))
unfolding prune_events
prune_events_lem older_than e s = (
  (
    λ m. let (i, t) = IsIn-of_IsIn-keep _ e s.events m in (i, true-leb older_than e.timestamp t),
    λ h. IsIn-keep _ e s.events h.0 (leb-true older_than e.timestamp h.1),
  ),
  ap ok (omega (arith, older_and_newer older_than s.events)),
)

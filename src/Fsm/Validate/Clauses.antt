-- ===== src/Fsm/Validate/Clauses.antt =====
-- The conditions that `validate_condition` accepts, said without its messages.
use pacinet.Prelude.{
  both, OptionAll, ℕ, String, ◌≡◌, ◌⊎◌, ◌↔◌, eq_iff, refl, arith, true, Option, none, some, ok,
  is_some,
}
use pacinet.Fsm.Duration.{parse_duration}
use pacinet.Fsm.Definition.{
  ConditionDefinition, Conditions, MaybeConditions, MaybeCondition, CounterCondition, counter,
  simple, compound, nil, cons, absent, present, missing, given,
}
use pacinet.Fsm.Validate.{
  pass, validate_condition, validate_list, validate_maybe_list, validate_maybe, validate_counter,
  check_thresholds, check_aggregate, check_field, check_for_duration,
}

-- A text that `parse_duration` reads.
abbrev pub IsDuration : String → Type 0
IsDuration s = (r : ℕ) × (parse_duration s ≡ ok r)

abbrev pub IsGiven : {A : Type 0} → Option A → Type 0
IsGiven o = is_some o ≡ true

abbrev pub IsValidCounter : CounterCondition → Type 0
IsValidCounter cc =
    (IsGiven cc.rate_above ⊎ IsGiven cc.rate_below ⊎ IsGiven cc.total_above)
    × OptionAll (λ a. (a ≡ "any") ⊎ (a ≡ "all") ⊎ (a ≡ "sum")) cc.aggregate
    × OptionAll (λ f. (f ≡ "matches") ⊎ (f ≡ "bytes")) cc.field
    × OptionAll IsDuration cc.for_duration

abbrev mutual
  pub IsValidCondition : ConditionDefinition → Type 0
  IsValidCondition (counter cc) = IsValidCounter cc
  IsValidCondition (simple s) = Unit
  IsValidCondition (compound all_of one_of negated) =
      IsValidMaybeList all_of × IsValidMaybeList one_of × IsValidMaybe negated

  pub IsValidList : Conditions → Type 0
  IsValidList nil = Unit
  IsValidList (cons c cs) = IsValidCondition c × IsValidList cs

  pub IsValidMaybeList : MaybeConditions → Type 0
  IsValidMaybeList absent = Unit
  IsValidMaybeList (present cs) = IsValidList cs

  pub IsValidMaybe : MaybeCondition → Type 0
  IsValidMaybe missing = Unit
  IsValidMaybe (given c) = IsValidCondition c

pub pass_iff : (pass ≡ ok tt) ↔ Unit {0}
pass_iff = (λ _. tt, λ _. refl)

thresholds_iff :
    (cc : CounterCondition) (n : String) (i : ℕ)
    → (check_thresholds cc n i ≡ ok tt)
      ↔ (IsGiven cc.rate_above ⊎ IsGiven cc.rate_below ⊎ IsGiven cc.total_above)
unfolding check_thresholds
thresholds_iff cc n i = (ground arith, ground arith)

aggregate_iff :
    (o : Option String) (n : String) (i : ℕ)
    → (check_aggregate o n i ≡ ok tt) ↔ OptionAll (λ a. (a ≡ "any") ⊎ (a ≡ "all") ⊎ (a ≡ "sum")) o
unfolding check_aggregate
aggregate_iff none n i = pass_iff
aggregate_iff (some a) n i = (
  ground (arith, eq_iff a "any", eq_iff a "all", eq_iff a "sum"),
  ground (arith, eq_iff a "any", eq_iff a "all", eq_iff a "sum"),
)

field_iff :
    (o : Option String) (n : String) (i : ℕ)
    → (check_field o n i ≡ ok tt) ↔ OptionAll (λ f. (f ≡ "matches") ⊎ (f ≡ "bytes")) o
unfolding check_field
field_iff none n i = pass_iff
field_iff (some f) n i = (
  ground (arith, eq_iff f "matches", eq_iff f "bytes"),
  ground (arith, eq_iff f "matches", eq_iff f "bytes"),
)

for-IsDuration_iff :
    (o : Option String) (n : String) (i : ℕ)
    → (check_for_duration o n i ≡ ok tt) ↔ OptionAll IsDuration o
unfolding check_for_duration
for-IsDuration_iff none n i = pass_iff
for-IsDuration_iff (some f) n i = (ground arith, λ h. rw (h.1, check_for_duration))

counter_iff :
    (cc : CounterCondition) (n : String) (i : ℕ)
    → (validate_counter cc n i ≡ ok tt) ↔ IsValidCounter cc
unfolding validate_counter
counter_iff cc n i =
    let parts = both (check_thresholds cc n i) _ (thresholds_iff cc n i) (
      both (check_aggregate cc.aggregate n i) _ (aggregate_iff cc.aggregate n i) (
        both (check_field cc.field n i) (check_for_duration cc.for_duration n i)
          (field_iff cc.field n i) (for-IsDuration_iff cc.for_duration n i))) in
    (λ h. let (a, (b, (c, d))) = parts.0 h in (a, b, c, d), λ h. parts.1 (h.0, (h.1, (h.2, h.3))))

mutual
  unfolding validate_condition validate_list validate_maybe_list validate_maybe

  pub condition_iff :
      (c : ConditionDefinition) (n : String) (i : ℕ)
      → (validate_condition c n i ≡ ok tt) ↔ IsValidCondition c
  condition_iff (counter cc) n i = counter_iff cc n i
  condition_iff (simple s) n i = pass_iff
  condition_iff (compound a o m) n i =
      let parts = both (validate_maybe_list a n i) _ (maybe_list_iff a n i) (
        both (validate_maybe_list o n i) (validate_maybe m n i) (maybe_list_iff o n i)
          (maybe_iff m n i)) in
      (λ h. let (x, (y, z)) = parts.0 h in (x, y, z), λ h. parts.1 (h.0, (h.1, h.2)))

  list_iff :
      (cs : Conditions) (n : String) (i : ℕ) → (validate_list cs n i ≡ ok tt) ↔ IsValidList cs
  list_iff nil n i = pass_iff
  list_iff (cons c cs) n i =
      both (validate_condition c n i) (validate_list cs n i) (condition_iff c n i) (list_iff cs n i)

  maybe_list_iff :
      (cs : MaybeConditions) (n : String) (i : ℕ)
      → (validate_maybe_list cs n i ≡ ok tt) ↔ IsValidMaybeList cs
  maybe_list_iff absent n i = pass_iff
  maybe_list_iff (present cs) n i = list_iff cs n i

  maybe_iff :
      (c : MaybeCondition) (n : String) (i : ℕ) → (validate_maybe c n i ≡ ok tt) ↔ IsValidMaybe c
  maybe_iff missing n i = pass_iff
  maybe_iff (given c) n i = condition_iff c n i

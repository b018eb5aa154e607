-- ===== src/Counters/Rate.antt =====
-- The rates of pacinet-server/src/counter_rate.rs. The arithmetic of `f64` is an argument.
use pacinet.Prelude.{
  ℕ, ◌-◌, ◌/◌, String, ◌==◌, Bool, true, false, Option, none, some, List, leb, find, if◌then◌else◌,
}
use pacinet.Text.{to_lowercase}
use pacinet.Model.{DateTime, RuleCounter, CounterSnapshot}
use pacinet.Fsm.Definition.{F64}

-- The operations of `f64` that the rates are computed with: the conversion of an integer, given by
-- its sign and its size, the product and the quotient, `iter().sum()`, `<=`, and `ceil() as usize`.
pub record Floats : Type 0 where
  pub of_integer : Bool → ℕ → F64
  pub multiply : F64 → F64 → F64
  pub divide : F64 → F64 → F64
  pub sum : List F64 → F64
  pub ceiling : F64 → ℕ
  pub is_at_most : F64 → F64 → Bool

pub record CounterRate : Type 0 where
  pub rule_name : String
  pub matches_per_second : F64
  pub bytes_per_second : F64
  pub window_seconds : F64

pub data AggregateMode : Type 0 where
  any_node all_nodes sum_nodes : AggregateMode

unfoldable pub parse_aggregate_mode : String → AggregateMode
parse_aggregate_mode s =
    let t = to_lowercase s in
    if t == "all" then all_nodes else if t == "sum" then sum_nodes else any_node

unfoldable pub find_counter : String → List RuleCounter → Option RuleCounter
find_counter rule_name counters = find (λ c. c.rule_name == rule_name) counters

-- `(newer - older).num_milliseconds() as f64`, rounded towards zero.
unfoldable pub milliseconds : Floats → DateTime → DateTime → F64
milliseconds fl older newer =
    if leb older newer
    then fl.of_integer false ((newer - older) / 1000000)
    else fl.of_integer true ((older - newer) / 1000000)

-- A counter that went backwards was reset, and has no rate.
unfoldable pub delta : Floats → ℕ → ℕ → F64
delta fl older newer =
    if leb older newer then fl.of_integer false (newer - older) else fl.of_integer false 0

unfoldable pub calculate_rate :
    Floats → CounterSnapshot → CounterSnapshot → String → Option CounterRate
unfolding find_counter milliseconds delta
calculate_rate fl older newer rule_name = elim (find_counter rule_name older.counters) [
  | none ↦ none
  | some older_counter ↦ elim (find_counter rule_name newer.counters) [
    | none ↦ none
    | some newer_counter ↦
        let elapsed =
          fl.divide (milliseconds fl older.collected_at newer.collected_at)
            (fl.of_integer false 1000) in
        if fl.is_at_most elapsed (fl.of_integer false 0)
        then none
        else some (record {
          rule_name = rule_name;
          matches_per_second =
              fl.divide (delta fl older_counter.match_count newer_counter.match_count) elapsed;
          bytes_per_second =
              fl.divide (delta fl older_counter.byte_count newer_counter.byte_count) elapsed;
          window_seconds = elapsed;
        })
  ]
]

unfoldable pub get_counter_total : CounterSnapshot → String → Option (ℕ × ℕ)
unfolding find_counter
get_counter_total snapshot rule_name = elim (find_counter rule_name snapshot.counters) [
  | none ↦ none
  | some c ↦ some (c.match_count, c.byte_count)
]

-- ===== src/Fsm/Duration.antt =====
-- `parse_duration` of pacinet-core/src/fsm/mod.rs.
use Prim.Native.Char.{Char, code}
use pacinet.Prelude.{
  ℕ, ◌+◌, ◌-◌, ◌*◌, ◌%◌, ◌^◌, ◌<◌, String, ◌==◌, ◌≡◌, refl, Bool, ◌&&◌, ◌||◌, Option, none, some,
  Result, ok, err, arith, Bool-cases, inl, inr, leb, ltb, eqb, if◌then◌else◌,
}
use pacinet.Text.{◌<>◌}

-- `char::is_whitespace`: the property White_Space of Unicode.
is_whitespace : Char → Bool
is_whitespace c =
    let n = code c in
    leb 9 n && leb n 13
    || eqb n 32
    || eqb n 0x85
    || eqb n 0xA0
    || eqb n 0x1680
    || leb 0x2000 n && leb n 0x200A
    || eqb n 0x2028
    || eqb n 0x2029
    || eqb n 0x202F
    || eqb n 0x205F
    || eqb n 0x3000

unfoldable pub trim_start : String → String
unfolding is_whitespace
trim_start String.[] = ""
trim_start (String.◌∷◌ c s) = if is_whitespace c then trim_start s else String.◌∷◌ c s

-- Drops a character that only white space follows.
unfoldable pub trim_end : String → String
unfolding is_whitespace
trim_end String.[] = ""
trim_end (String.◌∷◌ c s) =
    let rest = trim_end s in if is_whitespace c && rest == "" then "" else String.◌∷◌ c rest

abbrev pub is_ascii_digit : Char → Bool
is_ascii_digit c = leb b'0' (code c) && leb (code c) b'9'

abbrev pub u64_mod : ℕ
u64_mod = 2 ^ 64

-- `str::parse::<u64>` of a text of digits: the loop multiplies and adds with a check.
unfoldable pub parse_digits : String → ℕ → Option ℕ
parse_digits String.[] n = some n
parse_digits (String.◌∷◌ c s) n =
    let m = n * 10 + (code c - b'0') in if ltb m u64_mod then parse_digits s m else none

-- The seconds of a unit.
unfoldable pub unit_seconds : Char → Option ℕ
unit_seconds c =
    if eqb (code c) b's'
    then some 1
    else if eqb (code c) b'm'
    then some 60
    else if eqb (code c) b'h'
    then some 3600
    else if eqb (code c) b'd'
    then some 86400
    else none

abbrev pub char_text : Char → String
char_text c = String.◌∷◌ c ""

-- What a unit does: `total_secs += n * seconds`, on `u64` as a release build computes it.
close : ℕ → String → Char → Result ℕ String
unfolding parse_digits unit_seconds
close total current ch =
    if current == ""
    then err ("unexpected '" <> char_text ch <> "' without number")
    else elim (parse_digits current 0) [
      | none ↦ err "invalid number: number too large to fit in target type"
      | some n ↦ elim (unit_seconds ch) [
        | none ↦ err ("unknown duration unit: '" <> char_text ch <> "'")
        | some k ↦ ok ((total + n * k % u64_mod) % u64_mod)
      ]
    ]

-- The loop over the characters: the seconds so far, and the digits since the last unit.
unfoldable pub scan : String → ℕ → String → Result ℕ String
unfolding close
scan String.[] total current =
    if current == ""
    then (if eqb total 0 then err "duration must be greater than 0" else ok total)
    else err ("missing duration unit for '" <> current <> "' (use s/m/h/d)")
scan (String.◌∷◌ ch s) total current =
    let digit = scan s total (current <> char_text ch) in
    let unit : Result ℕ String = elim (close total current ch) [
      | ok t ↦ scan s t ""
      | err e ↦ err e
    ] in
    if is_ascii_digit ch then digit else unit

-- The result is a number of seconds.
unfoldable pub parse_duration : String → Result ℕ String
unfolding scan trim_start trim_end
parse_duration s =
    let t = trim_end (trim_start s) in if t == "" then err "empty duration string" else scan t 0 ""

combined : parse_duration " 1h30m " ≡ ok 5400
unfolding parse_duration
combined = refl

no_unit : parse_duration "5" ≡ err "missing duration unit for '5' (use s/m/h/d)"
unfolding parse_duration
no_unit = refl

-- A release build wraps round: 2^64 seconds and one more are one second.
wraps : parse_duration "18446744073709551615s2s" ≡ ok 1
unfolding parse_duration
wraps = refl

close-lt :
    (total : ℕ) (current : String) (ch : Char) (t : ℕ) → close total current ch ≡ ok t → t < u64_mod
unfolding close
close-lt total current ch t h = ground arith

scan_bounds :
    (s : String) (total : ℕ) (current : String) (r : ℕ)
    → total < u64_mod
    → scan s total current ≡ ok r
    → (0 < r) × (r < u64_mod)
unfolding scan
scan_bounds String.[] total current r t h = ground arith
scan_bounds (String.◌∷◌ ch s) total current r t h = elim (Bool-cases (is_ascii_digit ch)) [
  | inl d ↦ scan_bounds s total (current <> char_text ch) r t (rw d at h)
  | inr n ↦
      after (λ t' k e. scan_bounds s t' "" r k e) (close total current ch)
        (close-lt total current ch) (rw n at h)
]
  where
    after :
        ((t' : ℕ) → t' < u64_mod → scan s t' "" ≡ ok r → (0 < r) × (r < u64_mod))
        → (c : Result ℕ String) → ((t' : ℕ) → c ≡ ok t' → t' < u64_mod)
        → elim c as (λ _. Result ℕ String) [ ok t' ↦ scan s t' "" | err e ↦ err e ] ≡ ok r
        → (0 < r) × (r < u64_mod)
    after rest (ok t') small e = rest t' (small t' refl) e
    after rest (err x) small e = cc

-- An accepted duration is positive and fits a `u64`.
pub parse_duration_bounds : (s : String) (r : ℕ) → parse_duration s ≡ ok r → (0 < r) × (r < u64_mod)
unfolding parse_duration
parse_duration_bounds s r h = ground (arith, scan_bounds (trim_end (trim_start s)) 0 "" r)

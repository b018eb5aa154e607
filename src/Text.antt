-- ===== src/Text.antt =====
-- Rust's `str` and `format!` as far as the program uses them: `to_lowercase` before a comparison with
-- ASCII keywords, and decimal numbers inside a message or a key.
use Prim.Native.Char.{Char, code}
use Prim.Native.String.{char_at}
use Prim.Native.String
use pacinet.Prelude.{ℕ, zero, suc, ◌-◌, ◌/◌, ◌%◌, String, ◌≡◌, refl, ◌&&◌, leb, ltb, if◌then◌else◌}

-- The lower case of an ASCII capital. Outside ASCII Rust maps more characters, and of those only the
-- Kelvin sign goes to an ASCII letter, `k`, which no keyword of the program holds: so every
-- comparison with a keyword has the answer that it has in Rust.
lower_char : Char → Char
lower_char c =
    if leb 65 (code c) && leb (code c) 90
    then char_at "abcdefghijklmnopqrstuvwxyz" (code c - 65)
    else c

unfoldable pub to_lowercase : String → String
unfolding lower_char
to_lowercase String.[] = ""
to_lowercase (String.◌∷◌ c s) = String.◌∷◌ (lower_char c) (to_lowercase s)

-- The capital of an ASCII letter. Of the characters outside ASCII that Rust maps to capitals of ASCII, none
-- gives the letters of `PUT` and `PATCH` alone, so a comparison with them has the answer that it has in Rust.
upper_char : Char → Char
upper_char c =
    if leb 97 (code c) && leb (code c) 122
    then char_at "ABCDEFGHIJKLMNOPQRSTUVWXYZ" (code c - 97)
    else c

unfoldable pub to_uppercase : String → String
unfolding upper_char
to_uppercase String.[] = ""
to_uppercase (String.◌∷◌ c s) = String.◌∷◌ (upper_char c) (to_uppercase s)

abbrev pub digit : ℕ → String
digit n = String.◌∷◌ (char_at "0123456789" n) ""

-- `{}` of a number in `format!`; the fuel is the number itself, which has at most so many digits.
show_fuel : ℕ → ℕ → String → String
show_fuel zero n out = out
show_fuel (suc f) n out =
    let rest = show_fuel f (n / 10) (String.◌++◌ (digit (n % 10)) out) in
    if ltb n 10 then String.◌++◌ (digit n) out else rest

unfoldable pub show_ℕ : ℕ → String
unfolding show_fuel
show_ℕ n = show_fuel (suc n) n ""

infixr 65 ◌<>◌
abbrev pub ◌<>◌ : String → String → String
s <> t = String.◌++◌ s t

uppercase_test : to_uppercase "pAtch" ≡ "PATCH"
unfolding to_uppercase
uppercase_test = refl

lowercase_test : to_lowercase "ONLine" ≡ "online"
unfolding to_lowercase
lowercase_test = refl

show_test : show_ℕ 10203 ≡ "10203"
unfolding show_ℕ
show_test = refl

-- ===== src/Text.antt =====
-- What the hub uses of Rust's standard library on texts: `str::split`, `u32::from_str`, `str::replace`
-- and the `Display` of an unsigned integer.
pub mod Decimal
use Prim.Native.Char.{Char, code}
use Prim.Native.String.{◌++◌}
use rgb_multisig_hub.Base.{
  ℕ, zero, suc, ◌+◌, ◌-◌, ◌*◌, ◌/◌, ◌%◌, ◌^◌, String, Bool, ◌&&◌, Option, none, some, List, [], ◌∷◌,
  ◌==◌, ltb, leb, if◌then◌else◌, ◌≡◌, refl,
}

abbrev pub prepend : Char → List String → List String
prepend c [] = String.◌∷◌ c String.[] ∷ []
prepend c (part ∷ parts) = String.◌∷◌ c part ∷ parts

-- `text.split(sep)`: the parts between the characters with the code `sep`.
unfoldable pub split : ℕ → String → List String
split sep String.[] = String.[] ∷ []
split sep (String.◌∷◌ c s) =
    if code c == sep then String.[] ∷ split sep s else prepend c (split sep s)

-- `text.replace(from, to)` of a single character, by its code, with another.
unfoldable pub replace : ℕ → Char → String → String
replace from to String.[] = String.[]
replace from to (String.◌∷◌ c s) = String.◌∷◌ (if code c == from then to else c) (replace from to s)

unfoldable pub digit_value : Char → Option ℕ
digit_value c = if leb 48 (code c) && leb (code c) 57 then some (code c - 48) else none

-- `checked_mul` by ten and `checked_add` of the digit.
abbrev pub push_digit : ℕ → ℕ → Option ℕ
push_digit n d = if ltb (n * 10 + d) (2 ^ 32) then some (n * 10 + d) else none

unfoldable pub scan_digits : String → ℕ → Option ℕ
scan_digits String.[] n = some n
scan_digits (String.◌∷◌ c s) n = elim (digit_value c) [
  | none ↦ none
  | some d ↦ elim (push_digit n d) [ none ↦ none | some m ↦ scan_digits s m ]
]

-- `text.parse::<u32>().ok()`: a sign `+` may stand before the digits.
unfoldable pub parse_u32 : String → Option ℕ
unfolding scan_digits
parse_u32 String.[] = none
parse_u32 (String.◌∷◌ c String.[]) = scan_digits (String.◌∷◌ c String.[]) 0
parse_u32 (String.◌∷◌ c (String.◌∷◌ d s)) =
    if code c == 43
    then scan_digits (String.◌∷◌ d s) 0
    else scan_digits (String.◌∷◌ c (String.◌∷◌ d s)) 0

abbrev pub digit_char : ℕ → Char
digit_char d =
    if d == 0
    then "0"
    else if d == 1
    then "1"
    else if d == 2
    then "2"
    else if d == 3
    then "3"
    else if d == 4
    then "4"
    else if d == 5
    then "5"
    else if d == 6
    then "6"
    else if d == 7
    then "7"
    else if d == 8
    then "8"
    else "9"

-- The digits of a number before a text. The fuel is the number itself.
unfoldable pub emit : ℕ → ℕ → String → String
emit zero n out = out
emit (suc fuel) n out =
    let rest = emit fuel (n / 10) (String.◌∷◌ (digit_char (n % 10)) out) in
    if n == 0 then out else rest

unfoldable pub decimal : ℕ → String
unfolding emit
decimal n = if n == 0 then "0" else emit n n ""

t1 : parse_u32 (decimal 1203) ≡ some 1203
unfolding parse_u32 decimal scan_digits digit_value emit
t1 = refl

-- ===== src/Prelude/Text.antt =====
-- strings and strconv: Split, HasPrefix, TrimPrefix, Trim, TrimSpace and ParseInt, on the library's
-- strings. A character is compared by its number.
pub mod Splits
pub mod Numbers
use Prim.Native.Nat.{ℕ, zero, suc, ◌+◌, ◌-◌, ◌*◌, ◌/◌, ◌%◌, ◌≤◌, ◌<◌}
use Prim.Native.Char.{Char, code}
use Prim.Native.String
use Prim.Native.String.{String}
use mathlib.Core.Path.{◌≡◌, refl, sym, ap, ◌∙◌}
use mathlib.Core.Bool.{Bool, true, false, not, ◌&&◌, ◌||◌}
use mathlib.Core.Option.{Option, none, some}
use mathlib.Core.List.{List, [], ◌∷◌}
use mathlib.Core.Logic.{inl, inr}
use native.Mathlib.Omega.{arith}
use text.Mathlib.TextLemmas.{cons-append, nil-append}
use text.Mathlib.TextEquality.{codes_equal}
use x_ui_site.Prelude.Tests.{if◌then◌else◌, ltb, leb, ◌==◌, ==-refl, Bool-cases}
use x_ui_site.Prelude.Int.{ℤ, pos, negsuc}
use x_ui_site.Prelude.Decimal.{decimal, digit, digits_from}

abbrev pub same_char : Char → Char → Bool
same_char c d = code c == code d

-- The character does not occur in the text.
abbrev pub free_of : Char → String → Bool
free_of c String.[] = true
free_of c (String.◌∷◌ d s) = not (same_char d c) && free_of c s

abbrev pub in_front : Char → List String → List String
in_front d [] = []
in_front d (p ∷ ps) = String.◌∷◌ d p ∷ ps

-- strings.Split at one character
abbrev pub split : Char → String → List String
split c String.[] = "" ∷ []
split c (String.◌∷◌ d s) =
    let rest = split c s in if same_char d c then "" ∷ rest else in_front d rest

-- strings.Join with one character
abbrev pub join : Char → List String → String
join c [] = ""
join c (p ∷ []) = p
join c (p ∷ q ∷ ps) = String.◌++◌ p (String.◌∷◌ c (join c (q ∷ ps)))

abbrev cons_left : Char → Option (String × String) → Option (String × String)
cons_left d none = none
cons_left d (some (a, b)) = some (String.◌∷◌ d a, b)

-- The texts before and behind the first occurrence of the character.
abbrev pub cut : Char → String → Option (String × String)
cut c String.[] = none
cut c (String.◌∷◌ d s) =
    let rest = cut c s in if same_char d c then some ("", s) else cons_left d rest

-- What follows the prefix, if the text has it: strings.HasPrefix with strings.TrimPrefix.
abbrev pub strip_prefix : String → String → Option String
strip_prefix String.[] s = some s
strip_prefix (String.◌∷◌ p ps) String.[] = none
strip_prefix (String.◌∷◌ p ps) (String.◌∷◌ c s) =
    let rest = strip_prefix ps s in if same_char p c then rest else none

-- strings.TrimPrefix
abbrev pub trim_prefix : String → String → String
trim_prefix p s = elim (strip_prefix p s) [ none ↦ s | some rest ↦ rest ]

abbrev trim_left : (Char → Bool) → String → String
trim_left p String.[] = ""
trim_left p (String.◌∷◌ c s) = let rest = trim_left p s in if p c then rest else String.◌∷◌ c s

abbrev is_empty : String → Bool
is_empty String.[] = true
is_empty (String.◌∷◌ c s) = false

abbrev trim_right : (Char → Bool) → String → String
trim_right p String.[] = ""
trim_right p (String.◌∷◌ c s) =
    let rest = trim_right p s in if p c && is_empty rest then "" else String.◌∷◌ c rest

-- strings.TrimFunc; strings.Trim with one character is its case.
abbrev pub trim : (Char → Bool) → String → String
trim p s = trim_right p (trim_left p s)

-- unicode.IsSpace below 256
abbrev pub is_space : Char → Bool
is_space c = (leb 9 (code c) && leb (code c) 13) || code c == 32 || code c == 133 || code c == 160

-- The text before the first occurrence of the character, or all of it.
abbrev pub before_first : Char → String → String
before_first c String.[] = ""
before_first c (String.◌∷◌ d s) =
    let rest = before_first c s in if same_char d c then "" else String.◌∷◌ d rest

-- The text before the last occurrence of the character, or all of it.
abbrev pub before_last : Char → String → String
before_last c String.[] = ""
before_last c (String.◌∷◌ d s) =
    let rest = before_last c s in if same_char d c && free_of c s then "" else String.◌∷◌ d rest

abbrev digit_of : Char → Option ℕ
digit_of c = if leb 48 (code c) && leb (code c) 57 then some (code c - 48) else none

abbrev pub max_uint : ℕ
max_uint = 18446744073709551615

abbrev pub max_int : ℕ
max_int = 9223372036854775807

-- strconv.ParseUint base 10 behind its first digits: `none` is a syntax error, and the greatest
-- number stands for a range error, which is found before what follows is read.
unfoldable pub uint_from : ℕ → String → Option ℕ
uint_from n String.[] = some n
uint_from n (String.◌∷◌ c s) = elim (digit_of c) [
  | none ↦ none
  | some d ↦
      let rest = uint_from (n * 10 + d) s in
      if ltb max_uint (n * 10 + d) then some max_uint else rest
]

unfoldable pub parse_uint : String → Option ℕ
unfolding uint_from
parse_uint String.[] = none
parse_uint (String.◌∷◌ c s) = uint_from 0 (String.◌∷◌ c s)

abbrev clamped : Option ℕ → ℤ
clamped none = pos 0
clamped (some n) = pos (if ltb max_int n then max_int else n)

abbrev negated : Option ℕ → ℤ
negated none = pos 0
negated (some zero) = pos 0
negated (some (suc n)) = negsuc (if ltb max_int n then max_int else n)

-- strconv.ParseInt(s, 10, 64) with its error dropped: 0 for a syntax error, the nearest number for
-- one out of range.
unfoldable pub parse_int : String → ℤ
unfolding parse_uint
parse_int String.[] = pos 0
parse_int (String.◌∷◌ c s) =
    let positive = clamped (parse_uint s) in
    let negative = negated (parse_uint s) in
    let plain = clamped (parse_uint (String.◌∷◌ c s)) in
    if same_char c "+" then positive else if same_char c "-" then negative else plain

-- An int64 as the id that stands for it: its bit pattern.
abbrev pub id_of : ℤ → ℕ
id_of (pos n) = n
id_of (negsuc n) = max_uint - n

abbrev pub parse_id : String → ℕ
parse_id s = id_of (parse_int s)

parse_int_test : parse_int "-12" ≡ negsuc 11
unfolding parse_int
parse_int_test = refl

parse_int_range_test : parse_int "99999999999999999999x" ≡ pos 9223372036854775807
unfolding parse_int
parse_int_range_test = refl

split_test : split "/" "a//b" ≡ "a" ∷ "" ∷ "b" ∷ []
split_test = refl

trim_test : trim (same_char "/") "//a/b/" ≡ "a/b"
trim_test = refl

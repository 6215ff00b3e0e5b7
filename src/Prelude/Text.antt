-- ===== src/Prelude/Text.antt =====
-- What the program uses of Go's `strings`, `strconv` and `unicode`, over texts as lists of code
-- points. `Order` has the order of strings.
pub mod Order
pub mod Prefix
use Prim.Native.Nat.{ℕ, zero, suc, ◌+◌, ◌-◌, ◌*◌, ◌^◌, ◌<◌, ◌≤◌}
use Prim.Native.Char.{Char, char, code, IsScalar}
use Prim.Native.String.{String, [], ◌∷◌, ◌++◌}
use mathlib.Core.Path.{◌≡◌, refl}
use mathlib.Core.Logic.{dite}
use mathlib.Core.Bool.{Bool, true, false, ◌&&◌, ◌||◌}
use mathlib.Core.Option.{Option, none, some}
use mathlib.Core.List
use mathlib.Core.List.{List}
use native.Mathlib.Decide.{dec_lt}
use native.Mathlib.Omega.{arith}
use text.Mathlib.Text.{◌==◌}
use hush_hush_cli.Prelude.Tests.{ltb, leb, eqb, if◌then◌else◌}
use hush_hush_cli.Prelude.Int.{ℤ, pos, negsuc, negate}

pub IsScalar-of_lt : (n : ℕ) → n < 55296 → IsScalar n
IsScalar-of_lt n h = ground arith

-- The character of a code point below the surrogates, and U+FFFD for any other number.
unfoldable pub char_of : ℕ → Char
unfolding dec_lt
char_of n = dite (dec_lt n 55296) (λ h. char n (IsScalar-of_lt n h)) (λ _. char 0xFFFD tt)

abbrev pub is_upper : ℕ → Bool
is_upper n = leb b'A' n && leb n b'Z'

abbrev pub is_lower : ℕ → Bool
is_lower n = leb b'a' n && leb n b'z'

abbrev pub is_digit : ℕ → Bool
is_digit n = leb b'0' n && leb n b'9'

-- `unicode.ToLower`, exact wherever the lower case is ASCII: U+0130 and U+212A are the two
-- code points outside ASCII whose lower case is an ASCII letter. Other letters stay themselves.
unfoldable pub lower_char : Char → Char
unfolding char_of
lower_char c =
    if is_upper (code c)
    then char_of (code c + 32)
    else if eqb (code c) 0x130
    then char_of b'i'
    else if eqb (code c) 0x212A
    then char_of b'k'
    else c

-- `strings.ToLower`
unfoldable pub to_lower : String → String
unfolding lower_char
to_lower [] = []
to_lower (c ∷ s) = lower_char c ∷ to_lower s

-- The representative that `strings.EqualFold` compares, exact on the letters that fold to ASCII.
unfoldable pub fold_char : Char → Char
unfolding char_of
fold_char c =
    if is_upper (code c)
    then char_of (code c + 32)
    else if eqb (code c) 0x17F
    then char_of b's'
    else if eqb (code c) 0x212A
    then char_of b'k'
    else c

unfoldable pub fold : String → String
unfolding fold_char
fold [] = []
fold (c ∷ s) = fold_char c ∷ fold s

unfoldable pub equal_fold : String → String → Bool
unfolding fold
equal_fold s t = fold s == fold t

abbrev pub is_empty : String → Bool
is_empty [] = true
is_empty (c ∷ s) = false

-- `strings.CutPrefix(s, prefix)`: the rest after the prefix.
unfoldable pub cut_prefix : String → String → Option String
cut_prefix s [] = some s
cut_prefix [] (d ∷ t) = none
cut_prefix (c ∷ s) (d ∷ t) = if eqb (code c) (code d) then cut_prefix s t else none

abbrev is_there : Option String → Bool
is_there none = false
is_there (some s) = true

-- `strings.Contains(s, part)`
unfoldable pub contains : String → String → Bool
unfolding cut_prefix
contains [] part = is_empty part
contains (c ∷ s) part = is_there (cut_prefix (c ∷ s) part) || contains s part

-- `slices.Contains(xs, s)`
unfoldable pub member : String → List String → Bool
member s List.[] = false
member s (List.◌∷◌ x xs) = x == s || member s xs

-- The first field and the others of a text that `strings.Split` cuts at a byte.
unfoldable pub split_fields : ℕ → String → String × List String
split_fields sep [] = ([], List.[])
split_fields sep (c ∷ s) =
    let (field, more) = split_fields sep s in
    if eqb (code c) sep then ([], List.◌∷◌ field more) else (c ∷ field, more)

-- `strings.Split(s, ",")`
unfoldable pub split_comma : String → List String
unfolding split_fields
split_comma s = let (field, more) = split_fields b',' s in List.◌∷◌ field more

-- `unicode.IsSpace`
abbrev pub is_space : ℕ → Bool
is_space n =
    leb 9 n && leb n 13
    || eqb n 32
    || eqb n 0x85
    || eqb n 0xA0
    || eqb n 0x1680
    || leb 0x2000 n && leb n 0x200A
    || eqb n 0x2028
    || eqb n 0x2029
    || eqb n 0x202F
    || eqb n 0x205F
    || eqb n 0x3000

trim_left : String → String
trim_left [] = []
trim_left (c ∷ s) = if is_space (code c) then trim_left s else c ∷ s

trim_right : String → String
trim_right [] = []
trim_right (c ∷ s) =
    let rest = trim_right s in if is_empty rest && is_space (code c) then [] else c ∷ rest

-- `strings.TrimSpace`
unfoldable pub trim_space : String → String
unfolding trim_left trim_right
trim_space s = trim_right (trim_left s)

-- `strings.TrimSuffix(s, "\n")`: at most one trailing newline goes.
unfoldable pub trim_newline : String → String
trim_newline [] = []
trim_newline (c ∷ []) = if eqb (code c) 10 then [] else c ∷ []
trim_newline (c ∷ (d ∷ s)) = c ∷ trim_newline (d ∷ s)

-- Decimal digits, most significant first; `none` on anything else.
digits_from : ℕ → String → Option ℕ
digits_from acc [] = some acc
digits_from acc (c ∷ s) =
    if is_digit (code c) then digits_from (acc * 10 + (code c - b'0')) s else none

decimal : String → Option ℕ
unfolding digits_from
decimal [] = none
decimal (c ∷ s) = digits_from 0 (c ∷ s)

positive : ℕ → Option ℕ → Option ℤ
positive bits none = none
positive bits (some n) = if ltb n (2 ^ (bits - 1)) then some (pos n) else none

negative : ℕ → Option ℕ → Option ℤ
negative bits none = none
negative bits (some n) = if leb n (2 ^ (bits - 1)) then some (negate n) else none

-- `strconv.ParseInt(s, 10, bits)`: an optional sign, digits, and a value in range.
unfoldable pub parse_int : ℕ → String → Option ℤ
unfolding decimal positive negative
parse_int bits [] = none
parse_int bits (c ∷ s) =
    if eqb (code c) b'-'
    then negative bits (decimal s)
    else if eqb (code c) b'+'
    then positive bits (decimal s)
    else positive bits (decimal (c ∷ s))

parse_tests :
    (parse_int 32 "-12" ≡ some (negsuc 11))
    × (parse_int 32 "+7" ≡ some (pos 7))
    × (parse_int 32 "2147483648" ≡ none)
    × (parse_int 32 "1x" ≡ none)
unfolding parse_int
parse_tests = (refl, refl, refl, refl)

text_tests :
    (to_lower "Prod/DB" ≡ "prod/db")
    × (contains "homelab/vps" "lab/" ≡ true)
    × (trim_space "  y \n" ≡ "y")
    × (trim_newline "s \n\n" ≡ "s \n")
    × (split_comma "a,,b" ≡ List.◌∷◌ "a" (List.◌∷◌ "" (List.◌∷◌ "b" List.[])))
    × (cut_prefix "Bearer x" "Bearer " ≡ some "x")
unfolding to_lower contains trim_space trim_newline split_comma cut_prefix
text_tests = (refl, refl, refl, refl, refl, refl)

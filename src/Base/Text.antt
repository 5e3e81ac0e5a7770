-- ===== src/Base/Text.antt =====
-- Python's `str`: the tests that the program makes on texts, over the native `String`.
pub mod Take
use Prim.Native.Nat.{ℕ, zero, suc, ◌+◌, ◌/◌, ◌%◌}
use Prim.Native.Char.{Char, code}
use Prim.Native.String.{String, count, char_at, ◌++◌}
use mathlib.Core.Option.{Option, none, some}
use mathlib.Core.List.{List, [], ◌∷◌}
use mathlib.Core.Path.{◌≡◌, refl}
use mathlib.Core.Bool.{Bool, true, false, ◌&&◌, ◌||◌}
use text.Mathlib.Text.{◌==◌, starts_with}
use jn_engine_contributor_mc.Base.Tests.{ltb, leb, eqb, if◌then◌else◌}

-- Some character of the text passes the test.
unfoldable pub any_char : (ℕ → Bool) → String → Bool
any_char p String.[] = false
any_char p (String.◌∷◌ c s) = p (code c) || any_char p s

unfoldable pub all_chars : (ℕ → Bool) → String → Bool
all_chars p String.[] = true
all_chars p (String.◌∷◌ c s) = p (code c) && all_chars p s

-- `str.isspace` of one character.
unfoldable pub is_space : ℕ → Bool
is_space c =
    (leb 9 c && leb c 13)
    || (leb 28 c && leb c 32)
    || eqb c 0x85
    || eqb c 0xa0
    || eqb c 0x1680
    || (leb 0x2000 c && leb c 0x200a)
    || eqb c 0x2028
    || eqb c 0x2029
    || eqb c 0x202f
    || eqb c 0x205f
    || eqb c 0x3000

unfoldable pub lstrip : String → String
unfolding is_space
lstrip String.[] = ""
lstrip (String.◌∷◌ c s) = let rest = lstrip s in if is_space (code c) then rest else String.◌∷◌ c s

unfoldable pub rstrip : String → String
unfolding is_space
rstrip String.[] = ""
rstrip (String.◌∷◌ c s) =
    let rest = rstrip s in if is_space (code c) && rest == "" then "" else String.◌∷◌ c rest

unfoldable pub strip : String → String
unfolding lstrip rstrip
strip s = rstrip (lstrip s)

-- `s[:n]`
unfoldable pub take_text : ℕ → String → String
take_text zero s = ""
take_text (suc n) String.[] = ""
take_text (suc n) (String.◌∷◌ c s) = String.◌∷◌ c (take_text n s)

-- `len(s)`
abbrev pub text_length : String → ℕ
text_length = count

-- `s` consists of `lo` to `hi` characters of a class: `fullmatch` of `[class]{lo,hi}`.
unfoldable pub in_class : (ℕ → Bool) → ℕ → ℕ → String → Bool
unfolding all_chars
in_class p lo hi s = leb lo (text_length s) && (leb (text_length s) hi && all_chars p s)

abbrev pub is_digit : ℕ → Bool
is_digit c = leb b'0' c && leb c b'9'

abbrev pub is_lower : ℕ → Bool
is_lower c = leb b'a' c && leb c b'z'

abbrev pub is_upper : ℕ → Bool
is_upper c = leb b'A' c && leb c b'Z'

-- `[\x00-\x1f\x7f]`
abbrev pub is_control : ℕ → Bool
is_control c = ltb c 0x20 || eqb c 0x7f

strip_example : strip "  a b " ≡ "a b"
unfolding strip
strip_example = refl

in_class_example : in_class is_digit 2 4 "123" ≡ true
unfolding in_class
in_class_example = refl

-- `t in s`
unfoldable pub contains : String → String → Bool
contains String.[] t = t == ""
contains (String.◌∷◌ c s) t = starts_with (String.◌∷◌ c s) t || contains s t

-- `s.endswith(t)`
unfoldable pub ends_with : String → String → Bool
ends_with String.[] t = t == ""
ends_with (String.◌∷◌ c s) t = String.◌∷◌ c s == t || ends_with s t

-- The text after a prefix.
unfoldable pub drop_prefix : String → String → Option String
drop_prefix String.[] s = some s
drop_prefix (String.◌∷◌ c t) String.[] = none
drop_prefix (String.◌∷◌ c t) (String.◌∷◌ d s) =
    if eqb (code c) (code d) then drop_prefix t s else none

abbrev pub cons_first : Char → List String → List String
cons_first c [] = String.◌∷◌ c "" ∷ []
cons_first c (s ∷ rest) = String.◌∷◌ c s ∷ rest

-- `s.split(sep)` for a separator of one character.
unfoldable pub split : ℕ → String → List String
split sep String.[] = "" ∷ []
split sep (String.◌∷◌ c s) =
    let rest = split sep s in if eqb (code c) sep then "" ∷ rest else cons_first c rest

-- `s` without the characters that pass the test.
unfoldable pub remove_chars : (ℕ → Bool) → String → String
remove_chars p String.[] = ""
remove_chars p (String.◌∷◌ c s) =
    let rest = remove_chars p s in if p (code c) then rest else String.◌∷◌ c rest

split_example : split b'/' "a/b//c" ≡ "a" ∷ "b" ∷ "" ∷ "c" ∷ []
unfolding split
split_example = refl

abbrev hex_digit : ℕ → String
hex_digit n = String.◌∷◌ (char_at "0123456789ABCDEF" n) ""

abbrev percent : ℕ → String
percent b = "%" ++ (hex_digit (b / 16) ++ hex_digit (b % 16))

-- A character as percent-encoded UTF-8.
abbrev percent_char : ℕ → String
percent_char c =
    if ltb c 0x80
    then percent c
    else if ltb c 0x800
    then percent (0xc0 + c / 64) ++ percent (0x80 + c % 64)
    else if ltb c 0x10000
    then percent (0xe0 + c / 4096) ++ (percent (0x80 + c / 64 % 64) ++ percent (0x80 + c % 64))
    else percent (0xf0 + c / 262144)
      ++ (percent (0x80 + c / 4096 % 64)
          ++ (percent (0x80 + c / 64 % 64) ++ percent (0x80 + c % 64)))

abbrev is_unreserved : ℕ → Bool
is_unreserved c =
    is_upper c
    || (is_lower c || (is_digit c || (eqb c b'_' || (eqb c b'.' || (eqb c b'-' || eqb c b'~')))))

-- `urllib.parse.quote(s, safe=…)`, where `safe` is a test of characters.
unfoldable pub quote : (ℕ → Bool) → String → String
quote safe String.[] = ""
quote safe (String.◌∷◌ c s) =
    let n = code c in
    if is_unreserved n || safe n
    then String.◌∷◌ c (quote safe s)
    else percent_char n ++ quote safe s

quote_example : quote (λ c. false) "contrib/a é" ≡ "contrib%2Fa%20%C3%A9"
unfolding quote
quote_example = refl

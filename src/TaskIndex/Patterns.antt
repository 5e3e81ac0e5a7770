-- ===== src/TaskIndex/Patterns.antt =====
-- The regular expressions of core/task_index.py for lines and labels.
use Prim.Native.Char.{code}
use jn_engine_contributor_mc.Base.{
  ℕ, String, Bool, true, false, not, ◌&&◌, ◌||◌, Option, none, some, eqb, if◌then◌else◌, ◌==◌, ◌≡◌,
  refl,
}
use jn_engine_contributor_mc.Base.Text.{
  is_space, is_digit, is_lower, is_upper, lstrip, rstrip, drop_prefix,
}
use jn_engine_contributor_mc.TaskIndex.{Library}

-- The last character of a text.
unfoldable pub last_of : String → String
last_of String.[] = ""
last_of (String.◌∷◌ c s) = let rest = last_of s in if s == "" then String.◌∷◌ c "" else rest

-- What `\s+(.+)` takes of a text, where it matches all of it: of blanks alone it leaves the last.
unfoldable pub after_spaces : String → Option String
unfolding lstrip is_space last_of
after_spaces String.[] = none
after_spaces (String.◌∷◌ c s) =
    if is_space (code c)
    then (if lstrip s == "" then (if s == "" then none else some (last_of s)) else some (lstrip s))
    else none

abbrev trimmed : Option String → Option String
trimmed none = none
trimmed (some t) = some (if rstrip t == "" then t else rstrip t)

-- `re.fullmatch(r"##\s+(.+?)\s*", line)`
unfoldable pub section_heading : String → Option String
unfolding drop_prefix after_spaces rstrip
section_heading line = elim (drop_prefix "##" line) [
  | none ↦ none
  | some rest ↦ trimmed (after_spaces rest)
]

abbrev is_bullet : ℕ → Bool
is_bullet c = eqb c b'-' || (eqb c b'*' || eqb c b'+')

-- `\[([ xX])\]\s+(.+)`
abbrev box : String → Option (Bool × String)
box String.[] = none
box (String.◌∷◌ a String.[]) = none
box (String.◌∷◌ a (String.◌∷◌ c String.[])) = none
box (String.◌∷◌ a (String.◌∷◌ c (String.◌∷◌ b s))) =
    if eqb (code a) b'['
      && (eqb (code b) b']' && (eqb (code c) b' ' || (eqb (code c) b'x' || eqb (code c) b'X')))
    then elim (after_spaces s) [ none ↦ none | some title ↦ some (not (eqb (code c) b' '), title) ]
    else none

abbrev boxed : String → Option (Bool × String)
boxed rest = elim (after_spaces rest) [ none ↦ none | some s ↦ box s ]

abbrev or_bullet : Option (Bool × String) → Option String → Option (Bool × String)
or_bullet (some found) bullet = some found
or_bullet none none = none
or_bullet none (some title) = some (false, title)

-- `\d+[.)]\s+(.+)`, after some digits.
unfoldable pub numbered_item : (ℕ → Bool) → Bool → String → Option String
unfolding after_spaces
numbered_item is_decimal some_digits String.[] = none
numbered_item is_decimal some_digits (String.◌∷◌ c s) =
    let more = numbered_item is_decimal true s in
    if is_decimal (code c)
    then more
    else if some_digits && (eqb (code c) b'.' || eqb (code c) b')')
    then after_spaces s
    else none

-- A line of the handoff that is a task: whether it is checked, and its title.
unfoldable pub list_item : Library → String → Option (Bool × String)
unfolding after_spaces numbered_item
list_item lib String.[] = none
list_item lib (String.◌∷◌ c s) =
    if is_bullet (code c)
    then or_bullet (boxed s) (after_spaces s)
    else or_bullet none (numbered_item lib.is_decimal false (String.◌∷◌ c s))

-- `[a-z0-9]` without regard to case, which takes in four letters beyond ASCII.
abbrev is_label_char : ℕ → Bool
is_label_char c =
    is_lower c
    || (is_upper c
        || (is_digit c || (eqb c 0x130 || (eqb c 0x131 || (eqb c 0x17f || eqb c 0x212a)))))

-- The text before the closing parenthesis of a label.
unfoldable label_rest : String → Option String
label_rest String.[] = none
label_rest (String.◌∷◌ c s) =
    let rest = label_rest s in
    if eqb (code c) b')'
    then some ""
    else if is_label_char (code c)
    then elim rest [ none ↦ none | some t ↦ some (String.◌∷◌ c t) ]
    else none

-- `re.match(r"^\(([a-z0-9]+)\)\s*", plain, re.IGNORECASE)`
unfoldable pub label : String → Option String
unfolding label_rest
label String.[] = none
label (String.◌∷◌ c s) =
    if eqb (code c) b'('
    then elim (label_rest s) [ none ↦ none | some t ↦ if t == "" then none else some t ]
    else none

item_example : (lib : Library) → list_item lib "- [x]  (ab) Do it" ≡ some (true, "(ab) Do it")
unfolding list_item
item_example lib = refl

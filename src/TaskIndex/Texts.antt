-- ===== src/TaskIndex/Texts.antt =====
-- The text helpers of core/task_index.py.
use Prim.Native.Char.{Char, code}
use Prim.Native.String.{char_at}
use text.Mathlib.Text.{starts_with}
use jn_engine_contributor_mc.Base.{
  ℕ, suc, String, Bool, true, false, not, ◌&&◌, ◌||◌, Option, none, some, List, [], ◌∷◌, eqb, leb,
  if◌then◌else◌, ◌==◌, ◌≡◌, refl,
}
use jn_engine_contributor_mc.Base.Lists.{all}
use jn_engine_contributor_mc.Base.Paths.{join}
use jn_engine_contributor_mc.Base.Text.{
  any_char, is_space, is_digit, is_lower, is_upper, strip, take_text, ends_with, drop_prefix, split,
  cons_first,
}
use jn_engine_contributor_mc.TaskIndex.{
  TaskStatus, status_open, status_blocked, status_done, Library,
}

-- The pieces of a text between the characters that pass the test.
unfoldable pub split_where : (ℕ → Bool) → String → List String
split_where p String.[] = "" ∷ []
split_where p (String.◌∷◌ c s) =
    let rest = split_where p s in if p (code c) then "" ∷ rest else cons_first c rest

unfoldable pub nonempty_texts : List String → List String
nonempty_texts [] = []
nonempty_texts (s ∷ rest) =
    let others = nonempty_texts rest in if s == "" then others else s ∷ others

-- `" ".join(value.split())`
unfoldable pub squeeze : String → String
unfolding split_where nonempty_texts join is_space
squeeze value = join " " (nonempty_texts (split_where is_space value))

-- `_bounded`
unfoldable pub bounded : String → ℕ → Option String
unfolding squeeze take_text
bounded value limit = if squeeze value == "" then none else some (take_text limit (squeeze value))

abbrev is_tick : ℕ → Bool
is_tick c = eqb c 0x60

-- `re.sub` of a text in backticks by the text, `inside` one or not.
unfoldable drop_ticks : Bool → String → String
unfolding any_char
drop_ticks inside String.[] = ""
drop_ticks inside (String.◌∷◌ c s) =
    let outer = drop_ticks false s in
    let inner = drop_ticks true s in
    if is_tick (code c) && inside
    then outer
    else if is_tick (code c) && any_char is_tick s
    then inner
    else String.◌∷◌ c (if inside then inner else outer)

-- `.replace(kk, "")` for a character k, where the last character was a k that is still to be written.
unfoldable drop_pairs : Char → Bool → String → String
drop_pairs k true String.[] = String.◌∷◌ k ""
drop_pairs k false String.[] = ""
drop_pairs k pending (String.◌∷◌ c s) =
    let after = drop_pairs k false s in
    let waiting = drop_pairs k true s in
    if eqb (code c) (code k)
    then (if pending then after else waiting)
    else if pending
    then String.◌∷◌ k (String.◌∷◌ c after)
    else String.◌∷◌ c after

-- `_plain_markdown`
unfoldable pub plain_markdown : String → String
unfolding strip drop_ticks drop_pairs squeeze
plain_markdown value = squeeze (
    drop_pairs (char_at "_" 0) false
      (drop_pairs (char_at "*" 0) false (drop_ticks false (strip value))))

abbrev is_slug_char : ℕ → Bool
is_slug_char c = is_lower c || is_digit c

abbrev not_slug_char : ℕ → Bool
not_slug_char c = not (is_slug_char c)

-- `_semantic_slug`: the runs of other characters become dashes, and those at the ends are dropped.
unfoldable pub semantic_slug : Library → String → String
unfolding split_where nonempty_texts join take_text
semantic_slug lib value =
    let slug =
      take_text 96 (join "-" (nonempty_texts (split_where not_slug_char (lib.casefold value)))) in
    if slug == "" then "task" else slug

-- `s[1:]` and `s[:-1]`
abbrev pub drop_first : String → String
drop_first String.[] = ""
drop_first (String.◌∷◌ c s) = s

unfoldable pub drop_last : String → String
drop_last String.[] = ""
drop_last (String.◌∷◌ c s) = let rest = drop_last s in if s == "" then "" else String.◌∷◌ c rest

unfoldable pub strip_all : List String → List String
unfolding strip
strip_all [] = []
strip_all (s ∷ rest) = strip s ∷ strip_all rest

-- `_table_cells`
unfoldable pub table_cells : String → Option (List String)
unfolding strip ends_with drop_last split strip_all
table_cells line =
    let stripped = strip line in
    if starts_with stripped "|" && ends_with stripped "|"
    then some (strip_all (split b'|' (drop_last (drop_first stripped))))
    else none

-- At least three dashes, of which some came before, and a colon or nothing after them.
unfoldable dashes : ℕ → String → Bool
dashes n String.[] = leb 3 n
dashes n (String.◌∷◌ c s) =
    let more = dashes (suc n) s in
    if eqb (code c) b'-' then more else eqb (code c) b':' && (s == "" && leb 3 n)

unfoldable pub is_separator_cell : String → Bool
unfolding dashes
is_separator_cell String.[] = false
is_separator_cell (String.◌∷◌ c s) =
    if eqb (code c) b':' then dashes 0 s else dashes 0 (String.◌∷◌ c s)

-- `_is_separator_row`
unfoldable pub is_separator_row : List String → Bool
unfolding is_separator_cell
is_separator_row [] = false
is_separator_row (cell ∷ cells) = all is_separator_cell (cell ∷ cells)

abbrev is_word_char : ℕ → Bool
is_word_char c = is_upper c || is_digit c

abbrev starts_word : String → Bool
starts_word String.[] = false
starts_word (String.◌∷◌ c s) = is_word_char (code c)

abbrev token_at : String → String → Bool
token_at token s = elim (drop_prefix token s) [ none ↦ false | some rest ↦ not (starts_word rest) ]

-- `re.search` of a token that no other letter or digit touches; `after_word` tells of the one before.
unfoldable pub has_token : String → Bool → String → Bool
unfolding drop_prefix
has_token token after_word String.[] = false
has_token token after_word (String.◌∷◌ c s) =
    (not after_word && token_at token (String.◌∷◌ c s)) || has_token token (is_word_char (code c)) s

-- `QA_STATUS_RULES`
abbrev pub qa_status_rules : List (String × TaskStatus)
qa_status_rules =
    ("NOT FIXED", status_open)
    ∷ ("WONTFIX", status_done)
    ∷ ("INCOMPLETE", status_blocked)
    ∷ ("DEFERRED", status_blocked)
    ∷ ("BLOCKED", status_blocked)
    ∷ ("RESOLVED", status_done)
    ∷ ("PENDING", status_open)
    ∷ ("CLOSED", status_done)
    ∷ ("FIXED", status_done)
    ∷ ("DONE", status_done)
    ∷ ("OPEN", status_open)
    ∷ []

unfoldable pub first_status : List (String × TaskStatus) → String → Option TaskStatus
unfolding has_token
first_status [] text = none
first_status ((token, status) ∷ rules) text =
    let rest = first_status rules text in if has_token token false text then some status else rest

-- `normalize_qa_status`
unfoldable pub normalize_qa_status : Library → String → Option TaskStatus
unfolding first_status
normalize_qa_status lib raw_status = first_status qa_status_rules (lib.upper raw_status)

plain_example : plain_markdown " **Port** `the` class__es  " ≡ "Port the classes"
unfolding plain_markdown
plain_example = refl

cells_example : table_cells " | a |b c| " ≡ some ("a" ∷ "b c" ∷ [])
unfolding table_cells
cells_example = refl

separator_example : is_separator_row (":---" ∷ "----:" ∷ []) ≡ true
unfolding is_separator_row
separator_example = refl

-- ===== src/Search/Engines.antt =====
-- The two engines of core/content_search.py, which give line numbers by paths.
use jn_engine_contributor_mc.Base.{
  ℕ, zero, suc, String, Bool, true, false, not, ◌&&◌, ◌||◌, Option, none, some, List, [], ◌∷◌, ◌++◌,
  ltb, if◌then◌else◌, ◌==◌,
}
use jn_engine_contributor_mc.Base.Int.{ℤ, pos, leb_ℤ, eqb_ℤ}
use jn_engine_contributor_mc.Base.Lists.{any, length}
use jn_engine_contributor_mc.Base.Sort.{sort}
use jn_engine_contributor_mc.Base.Text.{split, contains}
use jn_engine_contributor_mc.Python.Json.{Json, null, get, as_dict, as_text, equals_text}
use jn_engine_contributor_mc.Python.Dict.{Dict, lookup, insert}
use jn_engine_contributor_mc.Corpus.{
  Outcome, returns, raises, Failure, search_engine_error, search_request_error, attribute_error,
  ◌>>=◌, ◌>>◌, refuse_if,
}
use jn_engine_contributor_mc.Corpus.Policy.{one_of, max_file_bytes}
use jn_engine_contributor_mc.Corpus.ContentId.{encode_content_id}
use jn_engine_contributor_mc.Corpus.Snapshot.{Snapshot}
use jn_engine_contributor_mc.Corpus.Reads.{Disk, read_text_bounded, resolve_content_id}
use jn_engine_contributor_mc.Search.{
  max_matches_per_file, ClassifiedFile, Unicode, Completed, Ripgrep,
}

abbrev pub LineMap : Type 0
LineMap = Dict (List ℤ)

abbrev pub or_empty : Option (List ℤ) → List ℤ
or_empty none = []
or_empty (some numbers) = numbers

-- `if matches: line_map[path] = matches`
abbrev pub add_numbers : String → List ℤ → LineMap → LineMap
add_numbers path [] line_map = line_map
add_numbers path (n ∷ numbers) line_map = insert path (n ∷ numbers) line_map

module _ (unicode : Unicode) where
  -- The numbers of the lines with the needle, counted from `number` on; `room` more are wanted.
  unfoldable pub matching_lines : String → ℕ → ℕ → List String → List ℤ
  unfolding contains
  matching_lines needle room number [] = []
  matching_lines needle zero number (line ∷ lines) = []
  matching_lines needle (suc room) number (line ∷ lines) =
      elim (contains (unicode.casefold line) needle) [
        | true ↦ pos number ∷ matching_lines needle room (suc number) lines
        | false ↦ matching_lines needle (suc room) (suc number) lines
      ]

  -- `_python_line_map`, from the lines that are there.
  unfoldable pub python_lines : Disk → String → LineMap → List ClassifiedFile → Outcome LineMap
  unfolding read_text_bounded split matching_lines insert
  python_lines disk needle line_map [] = returns line_map
  python_lines disk needle line_map (entry ∷ selected) = do
    read ← read_text_bounded disk max_file_bytes entry.item
    python_lines disk needle
        (add_numbers entry.item.relative_path
          (matching_lines needle max_matches_per_file 1 (split 0x0a read.0)) line_map)
        selected

  unfoldable pub python_line_map : Disk → String → List ClassifiedFile → Outcome LineMap
  unfolding python_lines
  python_line_map disk query selected = python_lines disk (unicode.casefold query) [] selected

-- The keys of `data`, where it is a `dict`: another value raises a `TypeError`.
abbrev inner : Json → String → Json
inner value key = elim (as_dict value) [ none ↦ null | some fields ↦ get fields key ]

abbrev located : Option String → Option ℤ → Option (String × ℤ)
located none number = none
located (some path) none = none
located (some path) (some number) = some (path, number)

abbrev resolved : Ripgrep → Option String → Option String
resolved rg none = none
resolved rg (some text) = rg.relative_path text

-- A line of the output, with the file and the line that it names. A value that is not a `dict` has no
-- `get`.
unfoldable pub read_event : Ripgrep → Option Json → Outcome (Option (String × ℤ))
unfolding get
read_event rg none = returns none
read_event rg (some value) = elim (as_dict value) [
  | none ↦ raises attribute_error
  | some fields ↦ returns (
      if equals_text (get fields "type") "match"
      then located (resolved rg (as_text (inner (inner (get fields "data") "path") "text")))
          (rg.to_int (inner (get fields "data") "line_number"))
      else none)
]

-- `path in selected_paths`
abbrev pub is_selected : List ClassifiedFile → String → Bool
is_selected selected path = any (λ entry. entry.item.relative_path == path) selected

abbrev is_in : List ℤ → ℤ → Bool
is_in numbers number = any (λ n. eqb_ℤ n number) numbers

-- `numbers.append(line_number)`, unless the number is there or there are enough.
abbrev pub append_number : List ℤ → ℤ → List ℤ
append_number numbers number =
    if not (is_in numbers number) && ltb (length numbers) max_matches_per_file
    then numbers ++ number ∷ []
    else numbers

unfoldable pub sort_numbers : LineMap → LineMap
unfolding sort
sort_numbers [] = []
sort_numbers ((path, numbers) ∷ line_map) = (path, sort leb_ℤ numbers) ∷ sort_numbers line_map

module _ (rg : Ripgrep) (disk : Disk) (snapshot : Snapshot) where
  -- The end of the loop's body, for an event that names a line.
  unfoldable pub add_event : List ClassifiedFile → LineMap → Option (String × ℤ) → Outcome LineMap
  unfolding encode_content_id resolve_content_id lookup insert
  add_event selected line_map none = returns line_map
  add_event selected line_map (some (path, number)) = elim (is_selected selected path) [
    | false ↦ returns line_map
    | true ↦ encode_content_id snapshot.manifest.commit path >>= λ id.
        resolve_content_id disk snapshot id >>= λ _.
        returns (insert path (append_number (or_empty (lookup path line_map)) number) line_map)
  ]

  unfoldable pub add_events : List ClassifiedFile → LineMap → List (Option Json) → Outcome LineMap
  unfolding read_event add_event
  add_events selected line_map [] = returns line_map
  add_events selected line_map (value ∷ events) = do
    event ← read_event rg value
    added ← add_event selected line_map event
    add_events selected added events

  abbrev pub completed : Option Completed → Outcome Completed
  completed none = raises (search_engine_error "ripgrep execution failed")
  completed (some run) =
      if eqb_ℤ run.returncode (pos 0) || eqb_ℤ run.returncode (pos 1)
      then returns run
      else raises (search_engine_error "ripgrep returned an unexpected status")

  -- `_ripgrep_line_map`
  unfoldable pub ripgrep_line_map : String → List ClassifiedFile → Outcome LineMap
  unfolding add_events sort_numbers
  ripgrep_line_map query selected = do
    refuse_if (not rg.installed) (search_engine_error "ripgrep is unavailable")
    run ← completed (rg.run query)
    line_map ← add_events selected [] run.events
    returns (sort_numbers line_map)

  abbrev pub is_engine_error : Failure → Bool
  is_engine_error (search_engine_error why) = true
  is_engine_error _ = false

  -- What is done where ripgrep's lines are there, or where that raised.
  abbrev pub or_python : String → Outcome LineMap → Outcome LineMap → Outcome LineMap
  or_python choice (returns line_map) python = returns line_map
  or_python choice (raises why) python =
      if is_engine_error why && not (choice == "ripgrep") then python else raises why

  -- `_line_map`, for an engine that is chosen.
  unfoldable pub line_map_of : Unicode → String → String → List ClassifiedFile → Outcome LineMap
  unfolding python_line_map ripgrep_line_map
  line_map_of unicode choice query selected =
      let python = python_line_map unicode disk query selected in
      if not (one_of ("auto" ∷ "ripgrep" ∷ "python" ∷ []) choice)
      then raises (search_request_error "search engine is invalid")
      else if choice == "python"
      then python
      else if choice == "auto" && not rg.installed
      then python
      else or_python choice (ripgrep_line_map query selected) python

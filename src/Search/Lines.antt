-- ===== src/Search/Lines.antt =====
-- How many line numbers the engines give for a path.
use jn_engine_contributor_mc.Base.{
  ℕ, zero, suc, ◌≤◌, String, Bool, true, false, not, ◌&&◌, Option, none, some, List, [], ◌∷◌, ◌==◌,
  ◌≡◌, arith, Bool-cases, inl, inr, if◌then◌else◌,
}
use jn_engine_contributor_mc.Base.Int.{ℤ, leb_ℤ}
use jn_engine_contributor_mc.Base.Lists.{All, length, length-append}
use jn_engine_contributor_mc.Base.Sort.Kept.{length-sort}
use jn_engine_contributor_mc.Base.Text.{split, contains}
use jn_engine_contributor_mc.Python.Dict.{lookup, insert}
use jn_engine_contributor_mc.Python.Json.{Json}
use jn_engine_contributor_mc.Corpus.{
  Outcome, returns, raises, after-returns, check-returns, returned, search_request_error,
}
use jn_engine_contributor_mc.Corpus.Policy.{max_file_bytes}
use jn_engine_contributor_mc.Corpus.ContentId.{encode_content_id}
use jn_engine_contributor_mc.Corpus.Snapshot.{Snapshot}
use jn_engine_contributor_mc.Corpus.Reads.{Disk, read_text_bounded, resolve_content_id}
use jn_engine_contributor_mc.Search.{max_matches_per_file, ClassifiedFile, Unicode, Ripgrep}
use jn_engine_contributor_mc.Search.Engines.{
  LineMap, or_empty, matching_lines, add_numbers, python_lines, python_line_map, read_event,
  completed, is_selected, append_number, sort_numbers, add_event, add_events, or_python,
  is_engine_error, ripgrep_line_map, line_map_of,
}

-- The numbers for a path are at most 20.
abbrev IsShort : String × List ℤ → Type 0
IsShort e = length e.1 ≤ max_matches_per_file

insert-IsShort :
    (path : String) (numbers : List ℤ) (m : LineMap)
    → length numbers ≤ max_matches_per_file
    → All IsShort m
    → All IsShort (insert path numbers m)
unfolding insert
insert-IsShort path numbers [] h k = (h, tt)
insert-IsShort path numbers ((other, ns) ∷ m) h k = elim (Bool-cases (other == path)) [
  | inl e ↦ rw (insert, e) (h, k.1)
  | inr e ↦ rw (insert, e) (k.0, insert-IsShort path numbers m h k.1)
]

lookup-IsShort :
    (path : String) (m : LineMap)
    → All IsShort m
    → length (or_empty (lookup path m)) ≤ max_matches_per_file
unfolding lookup
lookup-IsShort path [] h = omega arith
lookup-IsShort path ((other, ns) ∷ m) h = elim (Bool-cases (other == path)) [
  | inl e ↦ rw (lookup, e) h.0
  | inr e ↦ rw (lookup, e) (lookup-IsShort path m h.1)
]

append_number-short :
    (numbers : List ℤ) (number : ℤ)
    → length numbers ≤ max_matches_per_file
    → length (append_number numbers number) ≤ max_matches_per_file
append_number-short numbers number h = ground (arith, length-append numbers (number ∷ []))

matching_lines-length :
    (unicode : Unicode) (needle : String) (room number : ℕ) (lines : List String)
    → length (matching_lines unicode needle room number lines) ≤ room
unfolding matching_lines
matching_lines-length unicode needle room number [] = omega arith
matching_lines-length unicode needle zero number (line ∷ lines) = omega arith
matching_lines-length unicode needle (suc room) number (line ∷ lines) =
    elim (Bool-cases (contains (unicode.casefold line) needle)) [
      | inl e ↦
          rw (matching_lines, e)
            (omega (arith, matching_lines-length unicode needle room (suc number) lines))
      | inr e ↦
          rw (matching_lines, e)
            (matching_lines-length unicode needle (suc room) (suc number) lines)
    ]

add_numbers-IsShort :
    (path : String) (numbers : List ℤ) (m : LineMap)
    → length numbers ≤ max_matches_per_file
    → All IsShort m
    → All IsShort (add_numbers path numbers m)
add_numbers-IsShort path [] m h k = k
add_numbers-IsShort path (n ∷ numbers) m h k = insert-IsShort path (n ∷ numbers) m h k

python_lines-IsShort :
    (unicode : Unicode) (disk : Disk) (needle : String) (m : LineMap)
    (selected : List ClassifiedFile) (r : LineMap)
    → All IsShort m
    → python_lines unicode disk needle m selected ≡ returns r
    → All IsShort r
unfolding python_lines
python_lines-IsShort unicode disk needle m [] r k h = returned (All IsShort) m r h k
python_lines-IsShort unicode disk needle m (entry ∷ selected) r k h =
    let (read, h1, k1) = after-returns (read_text_bounded disk max_file_bytes entry.item) _ h in
    let numbers = matching_lines unicode needle max_matches_per_file 1 (split 0x0a read.0) in
    python_lines-IsShort unicode disk needle (add_numbers entry.item.relative_path numbers m)
      selected r
      (add_numbers-IsShort entry.item.relative_path numbers m
        (matching_lines-length unicode needle max_matches_per_file 1 (split 0x0a read.0)) k)
      k1

sort_numbers-IsShort : (m : LineMap) → All IsShort m → All IsShort (sort_numbers m)
unfolding sort_numbers
sort_numbers-IsShort [] h = tt
sort_numbers-IsShort ((path, numbers) ∷ m) h =
    (omega (arith, length-sort leb_ℤ numbers, h.0), sort_numbers-IsShort m h.1)

-- What holds of both branches holds of a conditional.
if-returns :
    (test : Bool) (yes_branch no_branch : Outcome LineMap) (r : LineMap)
    → (yes_branch ≡ returns r → All IsShort r)
    → (no_branch ≡ returns r → All IsShort r)
    → (if test then yes_branch else no_branch) ≡ returns r
    → All IsShort r
if-returns true yes_branch no_branch r f g = f
if-returns false yes_branch no_branch r f g = g

module _ (rg : Ripgrep) (disk : Disk) (snapshot : Snapshot) where
  add_event-IsShort :
      (selected : List ClassifiedFile) (m : LineMap) (event : Option (String × ℤ)) (r : LineMap)
      → All IsShort m
      → add_event rg disk snapshot selected m event ≡ returns r
      → All IsShort r
  unfolding add_event
  add_event-IsShort selected m none r k = λ h. returned (All IsShort) m r h k
  add_event-IsShort selected m (some (path, number)) r k =
      elim (Bool-cases (is_selected selected path)) [
        | inr e ↦ rw (add_event, e) (λ h. returned (All IsShort) m r h k)
        | inl e ↦
            rw (add_event, e)
              (λ h.
                let (id, h1, k1) =
                  after-returns (encode_content_id snapshot.manifest.commit path) _ h in
                let (item, h2, k2) = after-returns (resolve_content_id disk snapshot id) _ k1 in
                let numbers = append_number (or_empty (lookup path m)) number in
                returned (All IsShort) (insert path numbers m) r k2 (
                  insert-IsShort path numbers m
                    (append_number-short (or_empty (lookup path m)) number
                      (lookup-IsShort path m k))
                    k))
      ]

  add_events-IsShort :
      (selected : List ClassifiedFile) (m : LineMap) (events : List (Option Json)) (r : LineMap)
      → All IsShort m
      → add_events rg disk snapshot selected m events ≡ returns r
      → All IsShort r
  unfolding add_events
  add_events-IsShort selected m [] r k h = returned (All IsShort) m r h k
  add_events-IsShort selected m (value ∷ events) r k h =
      let (event, h1, k1) = after-returns (read_event rg value) _ h in
      let (added, h2, k2) = after-returns (add_event rg disk snapshot selected m event) _ k1 in
      add_events-IsShort selected added events r (add_event-IsShort selected m event added k h2) k2

  ripgrep_line_map-IsShort :
      (query : String) (selected : List ClassifiedFile) (r : LineMap)
      → ripgrep_line_map rg disk snapshot query selected ≡ returns r
      → All IsShort r
  unfolding ripgrep_line_map
  ripgrep_line_map-IsShort query selected r h =
      let (h1, k1) = check-returns (not rg.installed) _ _ h in
      let (run, h2, k2) = after-returns (completed rg disk snapshot (rg.run query)) _ k1 in
      let (m, h3, k3) = after-returns (add_events rg disk snapshot selected [] run.events) _ k2 in
      returned (All IsShort) (sort_numbers m) r k3
        (sort_numbers-IsShort m (add_events-IsShort selected [] run.events m tt h3))

  or_python-IsShort :
      (choice : String) (lines python : Outcome LineMap) (r : LineMap)
      → ((m : LineMap) → lines ≡ returns m → All IsShort m)
      → ((m : LineMap) → python ≡ returns m → All IsShort m)
      → or_python rg disk snapshot choice lines python ≡ returns r
      → All IsShort r
  or_python-IsShort choice (returns m) python r h k = h r
  or_python-IsShort choice (raises why) python r h k =
      if-returns (is_engine_error rg disk snapshot why && not (choice == "ripgrep")) python
        (raises why) r (k r) (λ e. cc)

  -- Whichever engine is chosen, and whatever ripgrep answers, no path has more than 20 line numbers.
  pub line_map_of-length :
      (unicode : Unicode) (choice query : String) (selected : List ClassifiedFile) (m : LineMap)
      (path : String)
      → line_map_of rg disk snapshot unicode choice query selected ≡ returns m
      → length (or_empty (lookup path m)) ≤ max_matches_per_file
  unfolding line_map_of python_line_map
  line_map_of-length unicode choice query selected m path h =
      let by_python : (n : LineMap)
          → python_line_map unicode disk query selected ≡ returns n
          → All IsShort n =
        λ n e. python_lines-IsShort unicode disk (unicode.casefold query) [] selected n tt e in
      lookup-IsShort path m (
        if-returns _ (raises (search_request_error "search engine is invalid")) _ m (λ e. cc)
          (if-returns (choice == "python") _ _ m (by_python m) (
            if-returns (choice == "auto" && not rg.installed) _ _ m (by_python m) (
              or_python-IsShort choice (ripgrep_line_map rg disk snapshot query selected) _ m
                (ripgrep_line_map-IsShort query selected) by_python)))
          h)

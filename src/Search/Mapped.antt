-- ===== src/Search/Mapped.antt =====
-- The map of lines that the engine of Python of core/content_search.py makes, file by file.
use jn_engine_contributor_mc.Base.{
  String, Bool, false, none, some, List, [], ◌∷◌, ◌≡◌, refl, ap, ◌∙◌, arith, eq_iff, ◌==◌, eq_refl,
  if◌then◌else◌,
}
use jn_engine_contributor_mc.Base.Int.{ℤ}
use jn_engine_contributor_mc.Base.Lists.{All}
use jn_engine_contributor_mc.Base.Text.{split}
use jn_engine_contributor_mc.Python.Dict.{lookup, insert, lookup-insert}
use jn_engine_contributor_mc.Corpus.{returns, after-returns, returned}
use jn_engine_contributor_mc.Corpus.Policy.{max_file_bytes}
use jn_engine_contributor_mc.Corpus.Reads.{Disk, read_text_bounded}
use jn_engine_contributor_mc.Search.{max_matches_per_file, ClassifiedFile, Unicode}
use jn_engine_contributor_mc.Search.Engines.{
  LineMap, or_empty, add_numbers, matching_lines, python_lines,
}

abbrev pub path_of : ClassifiedFile → String
path_of entry = entry.item.relative_path

-- The path of the other file is not this one.
abbrev pub IsOther : String → ClassifiedFile → Type 0
IsOther path other = (path_of other == path) ≡ false

-- No two of the files have the same path.
abbrev pub HaveDistinctPaths : List ClassifiedFile → Type 0
HaveDistinctPaths [] = Unit
HaveDistinctPaths (entry ∷ entries) =
    All (IsOther (path_of entry)) entries × HaveDistinctPaths entries

lookup-add_numbers :
    (path other : String) (numbers : List ℤ) (m : LineMap)
    → (path == other) ≡ false
    → lookup other (add_numbers path numbers m) ≡ lookup other m
lookup-add_numbers path other [] m h = refl
lookup-add_numbers path other (n ∷ numbers) m h =
    lookup-insert path other (n ∷ numbers) m ∙ rw h refl

lookup_added :
    (path : String) (numbers : List ℤ) (m : LineMap)
    → lookup path m ≡ none
    → or_empty (lookup path (add_numbers path numbers m)) ≡ numbers
lookup_added path [] m h = ap or_empty h
lookup_added path (n ∷ numbers) m h = ap or_empty (found_there ∙ same)
  where
    found_there :
        lookup path (insert path (n ∷ numbers) m)
        ≡ (if path == path then some (n ∷ numbers) else lookup path m)
    found_there = lookup-insert path path (n ∷ numbers) m

    same : (if path == path then some (n ∷ numbers) else lookup path m) ≡ some (n ∷ numbers)
    same = rw (eq_refl path) refl

abbrev pub IsNew : LineMap → ClassifiedFile → Type 0
IsNew m entry = lookup (path_of entry) m ≡ none

add_numbers-IsNew :
    (path : String) (numbers : List ℤ) (m : LineMap) (entries : List ClassifiedFile)
    → All (IsOther path) entries
    → All (IsNew m) entries
    → All (IsNew (add_numbers path numbers m)) entries
add_numbers-IsNew path numbers m [] h k = tt
add_numbers-IsNew path numbers m (e ∷ entries) h k =
    let apart : (path == path_of e) ≡ false =
      ground (arith, eq_iff path (path_of e), eq_iff (path_of e) path, h.0) in
    (
      lookup-add_numbers path (path_of e) numbers m apart ∙ k.0,
      add_numbers-IsNew path numbers m entries h.1 k.1,
    )

module _ (unicode : Unicode) (disk : Disk) (needle : String) where
  abbrev pub lines_of : String × Bool → List ℤ
  lines_of read = matching_lines unicode needle max_matches_per_file 1 (split 0x0a read.0)

  python_lines-kept :
      (path : String) (entries : List ClassifiedFile) (m r : LineMap)
      → All (IsOther path) entries
      → python_lines unicode disk needle m entries ≡ returns r
      → lookup path r ≡ lookup path m
  unfolding python_lines
  python_lines-kept path [] m r h e = returned (λ x. lookup path x ≡ lookup path m) m r e refl
  python_lines-kept path (entry ∷ entries) m r h e =
      let (read, h₁, k₁) = after-returns (read_text_bounded disk max_file_bytes entry.item) _ e in
      python_lines-kept path entries (add_numbers (path_of entry) (lines_of read) m) r h.1 k₁
      ∙ lookup-add_numbers (path_of entry) path (lines_of read) m h.0

  -- The file could be read, and the map has the lines of its text.
  abbrev pub IsMapped : LineMap → ClassifiedFile → Type 0
  IsMapped m entry =
      (read : String × Bool) × (read_text_bounded disk max_file_bytes entry.item ≡ returns read)
      × (or_empty (lookup (path_of entry) m) ≡ lines_of read)

  pub python_lines-IsMapped :
      (entries : List ClassifiedFile) (m r : LineMap)
      → HaveDistinctPaths entries
      → All (IsNew m) entries
      → python_lines unicode disk needle m entries ≡ returns r
      → All (IsMapped r) entries
  unfolding python_lines
  python_lines-IsMapped [] m r h new e = tt
  python_lines-IsMapped (entry ∷ entries) m r h new e =
      let (read, h₁, k₁) = after-returns (read_text_bounded disk max_file_bytes entry.item) _ e in
      let m₁ = add_numbers (path_of entry) (lines_of read) m in
      (
        (
          read,
          h₁,
          ap or_empty (python_lines-kept (path_of entry) entries m₁ r h.0 k₁)
              ∙ lookup_added (path_of entry) (lines_of read) m new.0,
        ),
        python_lines-IsMapped entries m₁ r h.1
            (add_numbers-IsNew (path_of entry) (lines_of read) m entries h.0 new.1) k₁,
      )

pub all-IsNew : (entries : List ClassifiedFile) → All (IsNew []) entries
unfolding lookup
all-IsNew [] = tt
all-IsNew (e ∷ entries) = (refl, all-IsNew entries)

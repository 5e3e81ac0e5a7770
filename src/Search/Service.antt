-- ===== src/Search/Service.antt =====
-- `ContentSearch` of core/content_search.py: the search and the fetch.
use jn_engine_contributor_mc.Base.{
  ℕ, zero, suc, String, Bool, not, ◌&&◌, ◌||◌, Option, none, some, List, [], ◌∷◌, ◌++◌, eqb, ltb,
  leb, if◌then◌else◌, ◌==◌,
}
use jn_engine_contributor_mc.Base.Int.{ℤ, pos, negsuc, leb_ℤ, pos_part}
use jn_engine_contributor_mc.Base.Lists.{length, take}
use jn_engine_contributor_mc.Base.Paths.{name}
use jn_engine_contributor_mc.Base.Sort.{sort, text_leb, pair_leb}
use jn_engine_contributor_mc.Base.Text.{strip, split, contains, take_text, text_length}
use jn_engine_contributor_mc.Python.Dict.{lookup}
use jn_engine_contributor_mc.Corpus.{
  Outcome, returns, raises, content_unavailable, search_request_error, key_error, ◌>>=◌, ◌>>◌,
  refuse_if,
}
use jn_engine_contributor_mc.Corpus.Policy.{max_file_bytes}
use jn_engine_contributor_mc.Corpus.Scan.{SnapshotFile}
use jn_engine_contributor_mc.Corpus.ContentId.{encode_content_id}
use jn_engine_contributor_mc.Corpus.Snapshot.{Snapshot, expected_repository, expected_ref}
use jn_engine_contributor_mc.Corpus.Reads.{
  Disk, max_fetch_chars, read_text_bounded, resolve_content_id,
}
use jn_engine_contributor_mc.Corpus.Cite.{title_from_text, citation_url, language_for_path}
use jn_engine_contributor_mc.Search.{
  max_query_chars, max_search_results, max_matches_per_file, max_match_text_chars,
  max_search_content_chars, SearchScope, all_scope, source_scope, docs_scope, re_scope, tasks_scope,
  ContentKind, source_kind, documentation_kind, reverse_engineering_kind, task_kind, SearchMatch,
  SearchResult, SearchResponse, FetchRecord, ClassifiedFile, has_scope, classify_file, Unicode,
  Ripgrep,
}
use jn_engine_contributor_mc.Search.Engines.{LineMap, or_empty, line_map_of}

-- `_selected_files`, of the files that `__init__` classified.
unfoldable pub selected_files : SearchScope → List SnapshotFile → List ClassifiedFile
unfolding classify_file
selected_files scope [] = []
selected_files scope (item ∷ items) =
    let rest = selected_files scope items in
    if has_scope (classify_file item).scopes scope then classify_file item ∷ rest else rest

-- `_validate_query`
unfoldable pub validate_query : String → Outcome String
unfolding strip
validate_query query = do
  refuse_if (strip query == "" || ltb max_query_chars (text_length (strip query)))
      (search_request_error "query must contain 1..200 characters after trimming")
  returns (strip query)

-- `_validate_limit`
unfoldable pub validate_limit : ℤ → Outcome ℕ
validate_limit limit = do
  refuse_if (not (leb_ℤ (pos 1) limit && leb_ℤ limit (pos max_search_results)))
      (search_request_error "limit must be in 1..50")
  returns (pos_part limit)

-- `_scope`
unfoldable pub scope_of : String → Outcome SearchScope
scope_of value =
    if value == "all"
    then returns all_scope
    else if value == "source"
    then returns source_scope
    else if value == "docs"
    then returns docs_scope
    else if value == "re"
    then returns re_scope
    else if value == "tasks"
    then returns tasks_scope
    else raises (search_request_error "scope must be all, source, docs, re, or tasks")

-- `lines[line_number - 1]`, for a line number from 1 to the number of lines.
unfoldable pub line_at : List String → ℤ → Option String
line_at lines (negsuc n) = none
line_at [] (pos n) = none
line_at (line ∷ lines) (pos zero) = none
line_at (line ∷ lines) (pos (suc zero)) = some line
line_at (line ∷ lines) (pos (suc (suc n))) = line_at lines (pos (suc n))

abbrev pub kind_order : ContentKind → ℕ
kind_order task_kind = 0
kind_order reverse_engineering_kind = 1
kind_order documentation_kind = 2
kind_order source_kind = 3

-- A text read for the results: a file that has become unavailable is left out.
abbrev pub if_available : Outcome (String × Bool) → Outcome (Option String)
if_available (returns (text, cut)) = returns (some text)
if_available (raises (content_unavailable why)) = returns none
if_available (raises why) = raises why

module _ (unicode : Unicode) where
  -- The lines that still have the needle, of those that the engine gave.
  unfoldable pub rechecked : String → List String → List ℤ → List SearchMatch
  unfolding line_at contains take_text
  rechecked needle lines [] = []
  rechecked needle lines (number ∷ numbers) =
      let rest = rechecked needle lines numbers in
      elim (line_at lines number) [
        | none ↦ rest
        | some line ↦
            if contains (unicode.casefold line) needle
            then record { line = number; text = take_text max_match_text_chars line } ∷ rest
            else rest
      ]

  module _ (disk : Disk) (snapshot : Snapshot) where
    -- The result for a file with matches.
    unfoldable pub result_for :
        Bool → ClassifiedFile → String → SearchMatch → List SearchMatch → Outcome SearchResult
    unfolding encode_content_id citation_url title_from_text take_text
    result_for include_content entry text first others = do
      id ← encode_content_id snapshot.manifest.commit entry.item.relative_path
      url ← citation_url snapshot.manifest.commit entry.item.relative_path (some first.line)
      returns (record {
        id = id;
        path = entry.item.relative_path;
        title = title_from_text entry.item.relative_path text;
        kind = entry.kind;
        matches = first ∷ others;
        url = url;
        content = if include_content then some (take_text max_search_content_chars text) else none;
      })

    abbrev pub results_for :
        Bool → ClassifiedFile → String → List SearchMatch → Outcome (List SearchResult)
    results_for include_content entry text [] = returns []
    results_for include_content entry text (first ∷ others) =
        result_for include_content entry text first others >>= λ result. returns (result ∷ [])

    -- What the loop adds for a file that is available, by the numbers of its lines.
    unfoldable pub results_of_text :
        Bool → String → ClassifiedFile → List ℤ → Option String → Outcome (List SearchResult)
    unfolding rechecked result_for split
    results_of_text include_content needle entry numbers none = returns []
    results_of_text include_content needle entry numbers (some text) =
        results_for include_content entry text
          (take max_matches_per_file (rechecked needle (split 0x0a text) numbers))

    unfoldable pub results_of_file :
        Bool → String → ClassifiedFile → List ℤ → Outcome (List SearchResult)
    unfolding read_text_bounded results_of_text
    results_of_file include_content needle entry [] = returns []
    results_of_file include_content needle entry (number ∷ numbers) =
        if_available (read_text_bounded disk max_file_bytes entry.item) >>= λ text.
        results_of_text include_content needle entry (number ∷ numbers) text

    -- The loop of `search` over the selected files.
    unfoldable pub collect :
        Bool → String → LineMap → List ClassifiedFile → Outcome (List SearchResult)
    unfolding results_of_file lookup
    collect include_content needle line_map [] = returns []
    collect include_content needle line_map (entry ∷ selected) = do
      found ←
          results_of_file include_content needle entry
            (or_empty (lookup entry.item.relative_path line_map))
      others ← collect include_content needle line_map selected
      returns (found ++ others)

  -- `match_rank`
  unfoldable pub match_rank : String → SearchResult → ℕ
  unfolding contains name
  match_rank needle result =
      let filename = unicode.casefold (name result.path) in
      if needle == filename || needle == unicode.casefold result.title
      then 0
      else if contains filename needle || contains (unicode.casefold result.path) needle
      then 1
      else 2

  -- The order of `sort_key`.
  unfoldable pub key_leb : String → SearchResult → SearchResult → Bool
  unfolding match_rank
  key_leb needle a b =
      let rank_a = match_rank needle a in
      let rank_b = match_rank needle b in
      if eqb rank_a rank_b
      then (if eqb (kind_order a.kind) (kind_order b.kind)
          then pair_leb text_leb (unicode.casefold a.path, a.path) (unicode.casefold b.path, b.path)
          else leb (kind_order a.kind) (kind_order b.kind))
      else leb rank_a rank_b

  module _ (rg : Ripgrep) (disk : Disk) (snapshot : Snapshot) where
    -- The end of `search`, from the line numbers.
    unfoldable pub respond :
        String → ℕ → SearchScope → Bool → List ClassifiedFile → LineMap → Outcome SearchResponse
    unfolding collect sort key_leb
    respond query limit scope include_content selected line_map = do
      results ← collect disk snapshot include_content (unicode.casefold query) line_map selected
      let bounded = take limit (sort (key_leb (unicode.casefold query)) results)
      returns (record { query = query; scope = scope; count = length bounded; results = bounded })

    -- `ContentSearch.search`, with the engine that `engine or self.search_engine` is.
    unfoldable pub search : String → String → ℤ → Bool → String → Outcome SearchResponse
    unfolding validate_query validate_limit scope_of selected_files line_map_of respond
    search query scope limit include_content engine = do
      clean_query ← validate_query query
      bounded_limit ← validate_limit limit
      selected_scope ← scope_of scope
      line_map ←
          line_map_of rg disk snapshot unicode engine clean_query
            (selected_files selected_scope snapshot.files)
      respond clean_query bounded_limit selected_scope include_content
          (selected_files selected_scope snapshot.files) line_map

-- `self._by_path[path]`
unfoldable pub classified_at : List SnapshotFile → String → Outcome ClassifiedFile
unfolding classify_file
classified_at [] path = raises key_error
classified_at (item ∷ items) path = elim (classified_at items path) [
  | returns entry ↦ returns entry
  | raises why ↦ if item.relative_path == path then returns (classify_file item) else raises why
]

module _ (disk : Disk) (snapshot : Snapshot) where
  -- `ContentSearch.fetch`
  unfoldable pub fetch : String → Outcome FetchRecord
  unfolding resolve_content_id classified_at read_text_bounded title_from_text citation_url
      language_for_path
  fetch content_id = do
    item ← resolve_content_id disk snapshot content_id
    entry ← classified_at snapshot.files item.relative_path
    read ← read_text_bounded disk max_fetch_chars item
    url ← citation_url snapshot.manifest.commit item.relative_path none
    returns (record {
      id = content_id;
      title = title_from_text item.relative_path read.0;
      text = read.0;
      url = url;
      path = item.relative_path;
      kind = entry.kind;
      language = language_for_path item.relative_path;
      repository = expected_repository;
      ref = expected_ref;
      commit = snapshot.manifest.commit;
      text_chars = text_length read.0;
      truncated = read.1;
    })

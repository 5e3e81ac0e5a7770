-- ===== src/Search/Reference.antt =====
-- The search of core/content_search.py by its engine of Python, against a search of each file by itself.
use jn_engine_contributor_mc.Base.{
  ℕ, zero, suc, String, Bool, not, ◌&&◌, List, [], ◌∷◌, ◌++◌, ◌≡◌, refl, sym, ap, ◌∙◌,
}
use jn_engine_contributor_mc.Base.Int.{ℤ, pos, leb_ℤ, pos_part}
use jn_engine_contributor_mc.Base.Lists.{All, take}
use jn_engine_contributor_mc.Base.Sort.{sort}
use jn_engine_contributor_mc.Base.Text.{split}
use jn_engine_contributor_mc.Python.Dict.{lookup}
use jn_engine_contributor_mc.Corpus.{
  Outcome, returns, ◌>>=◌, after-returns, check-returns, returned, returns_inj,
}
use jn_engine_contributor_mc.Corpus.Policy.{max_file_bytes}
use jn_engine_contributor_mc.Corpus.Snapshot.{Snapshot}
use jn_engine_contributor_mc.Corpus.Reads.{Disk, read_text_bounded}
use jn_engine_contributor_mc.Search.{
  max_matches_per_file, max_search_results, SearchResult, SearchResponse, ClassifiedFile, Unicode,
  Ripgrep,
}
use jn_engine_contributor_mc.Search.Engines.{LineMap, or_empty, python_line_map, line_map_of}
use jn_engine_contributor_mc.Search.Service.{
  selected_files, validate_query, validate_limit, scope_of, rechecked, results_for, results_of_text,
  results_of_file, collect, key_leb, respond, search,
}
use jn_engine_contributor_mc.Search.Grep.{grep, rechecked-matching_lines}
use jn_engine_contributor_mc.Search.Mapped.{
  path_of, HaveDistinctPaths, lines_of, IsMapped, python_lines-IsMapped, all-IsNew,
}

take_twice {ℓ} : {A : Type ℓ} (n : ℕ) (xs : List A) → take n (take n xs) ≡ take n xs
take_twice zero xs = refl
take_twice (suc n) [] = refl
take_twice (suc n) (x ∷ xs) = ap (λ ys. x ∷ ys) (take_twice n xs)

module _ (unicode : Unicode) (disk : Disk) (snapshot : Snapshot) (include_content : Bool) where
  abbrev results_of_grep : String → ClassifiedFile → String × Bool → Outcome (List SearchResult)
  results_of_grep needle entry read =
      results_for unicode disk snapshot include_content entry read.0
        (take max_matches_per_file (grep unicode needle 1 (split 0x0a read.0)))

  -- Each file is read and searched by itself, without a map of lines and without a check of them.
  unfoldable pub grep_files : String → List ClassifiedFile → Outcome (List SearchResult)
  unfolding read_text_bounded grep
  grep_files needle [] = returns []
  grep_files needle (entry ∷ entries) = do
    found ← read_text_bounded disk max_file_bytes entry.item >>= results_of_grep needle entry
    others ← grep_files needle entries
    returns (found ++ others)

  module _ (needle : String) (entry : ClassifiedFile) (read : String × Bool)
      (read_is : read_text_bounded disk max_file_bytes entry.item ≡ returns read) where
    kept_lines :
        (numbers : List ℤ)
        → numbers ≡ lines_of unicode disk needle read
        → rechecked unicode needle (split 0x0a read.0) numbers
          ≡ take max_matches_per_file (grep unicode needle 1 (split 0x0a read.0))
    kept_lines numbers h =
        ap (rechecked unicode needle (split 0x0a read.0)) h
        ∙ rechecked-matching_lines unicode needle (split 0x0a read.0) max_matches_per_file

    results_of_file-grep :
        (numbers : List ℤ)
        → numbers ≡ lines_of unicode disk needle read
        → results_of_file unicode disk snapshot include_content needle entry numbers
          ≡ (read_text_bounded disk max_file_bytes entry.item >>= results_of_grep needle entry)
    unfolding results_of_file results_of_text rechecked
    results_of_file-grep [] h =
        rw read_is
          (ap (results_for unicode disk snapshot include_content entry read.0) (kept_lines [] h))
    results_of_file-grep (n ∷ numbers) h = rw read_is (
        ap
          (λ ms.
            results_for unicode disk snapshot include_content entry read.0
              (take max_matches_per_file ms))
          (kept_lines (n ∷ numbers) h)
        ∙ ap (results_for unicode disk snapshot include_content entry read.0)
            (take_twice max_matches_per_file (grep unicode needle 1 (split 0x0a read.0))))

  collect-grep_files :
      (needle : String) (m : LineMap) (entries : List ClassifiedFile)
      → All (IsMapped unicode disk needle m) entries
      → collect unicode disk snapshot include_content needle m entries ≡ grep_files needle entries
  unfolding collect grep_files
  collect-grep_files needle m [] h = refl
  collect-grep_files needle m (entry ∷ entries) h =
      let (read, read_is, numbers_are) = h.0 in
      rw
        (
          results_of_file-grep needle entry read read_is (or_empty (lookup (path_of entry) m))
              numbers_are,
          collect-grep_files needle m entries h.1,
        )
        refl

-- The response has the trimmed query and its scope, and the first results, as many as the limit, of a direct
-- search of the files of the scope.
pub record IsGrepped (unicode : Unicode) (disk : Disk) (snapshot : Snapshot) (query scope : String)
    (limit : ℤ) (include_content : Bool) (r : SearchResponse) : Type 0 where
  pub results : List SearchResult
  pub query_is : validate_query query ≡ returns r.query
  pub scope_is : scope_of scope ≡ returns r.scope
  pub grepped :
      grep_files unicode disk snapshot include_content
        (unicode.casefold r.query)
        (selected_files r.scope snapshot.files)
      ≡ returns results
  pub first_ones :
      r.results ≡ take (pos_part limit) (sort (key_leb unicode (unicode.casefold r.query)) results)

bound_is : (limit : ℤ) (n : ℕ) → validate_limit limit ≡ returns n → n ≡ pos_part limit
unfolding validate_limit
bound_is limit n h =
    let (fits, k) =
      check-returns (not (leb_ℤ (pos 1) limit && leb_ℤ limit (pos max_search_results))) _ _ h in
    sym (returns_inj (pos_part limit) n k)

-- What a search by the engine of Python returns, where no two files of its scope have the same path: the results
-- are the first in the order of the sort key, as many as the limit, of what reading each file of the scope and
-- taking its first 20 lines with the needle gives; so neither the map of the lines nor the second check of them
-- adds or loses a result.
pub search-grep_files :
    (unicode : Unicode) (rg : Ripgrep) (disk : Disk) (snapshot : Snapshot) (query scope : String)
    (limit : ℤ) (include_content : Bool) (r : SearchResponse)
    → search unicode rg disk snapshot query scope limit include_content "python" ≡ returns r
    → HaveDistinctPaths (selected_files r.scope snapshot.files)
    → IsGrepped unicode disk snapshot query scope limit include_content r
unfolding search respond line_map_of python_line_map
search-grep_files unicode rg disk snapshot query scope limit include_content r h distinct =
    let (clean, is_clean, k₁) = after-returns (validate_query query) _ h in
    let (bound, bounded, k₂) = after-returns (validate_limit limit) _ k₁ in
    let (s, is_scope, k₃) = after-returns (scope_of scope) _ k₂ in
    let selected = selected_files s snapshot.files in
    let needle = unicode.casefold clean in
    let (m, mapped, k₄) =
      after-returns (line_map_of rg disk snapshot unicode "python" clean selected) _ k₃ in
    let (results, collected, k₅) =
      after-returns (collect unicode disk snapshot include_content needle m selected) _ k₄ in
    returned
      (λ (x : SearchResponse).
        HaveDistinctPaths (selected_files x.scope snapshot.files)
        → IsGrepped unicode disk snapshot query scope limit include_content x)
      _ r k₅
      (λ apart. record {
        results = results;
        query_is = is_clean;
        scope_is = is_scope;
        grepped =
            sym (
              collect-grep_files unicode disk snapshot include_content needle m selected (
                python_lines-IsMapped unicode disk needle selected [] m apart (all-IsNew selected)
                  mapped))
            ∙ collected;
        first_ones =
            ap (λ (n : ℕ). take n (sort (key_leb unicode needle) results))
              (bound_is limit bound bounded);
      })
      distinct

-- ===== src/Search/Sound.antt =====
-- What a search finds is in the files.
use jn_engine_contributor_mc.Base.{
  ℕ, ◌≤◌, String, Bool, true, false, not, ◌&&◌, Option, none, some, List, [], ◌∷◌, ◌++◌, eqb, leb,
  ◌≡◌, refl, arith, not-false, and_both, Bool-cases, Option-cases, inl, inr, if◌then◌else◌,
}
use jn_engine_contributor_mc.Base.Int.{ℤ, pos, negsuc, leb_ℤ, pos_part}
use jn_engine_contributor_mc.Base.Lists.{All, All-append, All-take, length, take, length-take}
use jn_engine_contributor_mc.Base.Sort.{sort, text_leb}
use jn_engine_contributor_mc.Base.Sort.Kept.{All-sort}
use jn_engine_contributor_mc.Base.Sort.Ordered.{
  IsOrdered, IsOrdered-take, sort-IsOrdered, text_leb_total, pair_leb_total,
}
use jn_engine_contributor_mc.Base.Text.{contains, split, take_text}
use jn_engine_contributor_mc.Python.Dict.{lookup}
use jn_engine_contributor_mc.Corpus.{returns, after-returns, check-returns, returned}
use jn_engine_contributor_mc.Corpus.Policy.{max_file_bytes}
use jn_engine_contributor_mc.Corpus.ContentId.{encode_content_id}
use jn_engine_contributor_mc.Corpus.Snapshot.{Snapshot}
use jn_engine_contributor_mc.Corpus.Reads.{Disk, read_text_bounded}
use jn_engine_contributor_mc.Corpus.Cite.{citation_url}
use jn_engine_contributor_mc.Search.{
  max_search_results, max_matches_per_file, max_match_text_chars, SearchMatch, SearchResult,
  SearchResponse, ClassifiedFile, Unicode, Ripgrep,
}
use jn_engine_contributor_mc.Search.Engines.{LineMap, or_empty, line_map_of}
use jn_engine_contributor_mc.Search.Service.{
  selected_files, validate_query, validate_limit, scope_of, line_at, kind_order, if_available,
  rechecked, result_for, results_for, results_of_text, results_of_file, collect, match_rank,
  key_leb, respond, search,
}

-- A match is a line of the text that has the needle, cut at 500 characters.
pub record IsMatch (unicode : Unicode) (needle text : String) (m : SearchMatch) : Type 0 where
  pub line : String
  pub is_line : line_at (split 0x0a text) m.line ≡ some line
  pub has_needle : contains (unicode.casefold line) needle ≡ true
  pub text_is : m.text ≡ take_text max_match_text_chars line

rechecked-IsMatch :
    (unicode : Unicode) (needle text : String) (numbers : List ℤ)
    → All (IsMatch unicode needle text) (rechecked unicode needle (split 0x0a text) numbers)
unfolding rechecked
rechecked-IsMatch unicode needle text [] = tt
rechecked-IsMatch unicode needle text (number ∷ numbers) =
    elim (Option-cases (line_at (split 0x0a text) number)) [
      | inl e ↦ rw (rechecked, e) (rechecked-IsMatch unicode needle text numbers)
      | inr (line, e) ↦ elim (Bool-cases (contains (unicode.casefold line) needle)) [
        | inr d ↦ rw (rechecked, e, d) (rechecked-IsMatch unicode needle text numbers)
        | inl d ↦
            rw (rechecked, e, d)
              (
                record { line = line; is_line = e; has_needle = d; text_is = refl },
                rechecked-IsMatch unicode needle text numbers,
              )
      ]
    ]

-- A result of a search for the needle: its matches are lines of the file as it was read, and its id and its
-- citation are those of the snapshot's commit and its path.
pub record IsResult (unicode : Unicode) (disk : Disk) (snapshot : Snapshot) (needle : String)
    (r : SearchResult) : Type 0 where
  pub entry : ClassifiedFile
  pub text : String
  pub path_is : r.path ≡ entry.item.relative_path
  pub kind_is : r.kind ≡ entry.kind
  pub is_read :
      if_available (read_text_bounded disk max_file_bytes entry.item) ≡ returns (some text)
  pub matched : All (IsMatch unicode needle text) r.matches
  pub some_matches : 1 ≤ length r.matches
  pub few_matches : length r.matches ≤ max_matches_per_file
  pub id_is : encode_content_id snapshot.manifest.commit r.path ≡ returns r.id

module _ (unicode : Unicode) (disk : Disk) (snapshot : Snapshot) (needle : String) where
  results_for-IsResult :
      (include_content : Bool) (entry : ClassifiedFile) (text : String) (matches : List SearchMatch)
      (results : List SearchResult)
      → if_available (read_text_bounded disk max_file_bytes entry.item) ≡ returns (some text)
      → All (IsMatch unicode needle text) matches
      → length matches ≤ max_matches_per_file
      → results_for unicode disk snapshot include_content entry text matches ≡ returns results
      → All (IsResult unicode disk snapshot needle) results
  unfolding result_for
  results_for-IsResult include_content entry text [] results e m few h =
      returned (All (IsResult unicode disk snapshot needle)) [] results h tt
  results_for-IsResult include_content entry text (first ∷ others) results e m few h =
      let (result, h1, k1) =
        after-returns (result_for unicode disk snapshot include_content entry text first others) _
          h in
      let (id, h2, k2) =
        after-returns (encode_content_id snapshot.manifest.commit entry.item.relative_path) _ h1 in
      let (url, h3, k3) =
        after-returns
          (citation_url snapshot.manifest.commit entry.item.relative_path (some first.line)) _ k2 in
      returned (All (IsResult unicode disk snapshot needle)) (result ∷ []) results k1 (
        returned (IsResult unicode disk snapshot needle) _ result k3 (record {
          entry = entry;
          text = text;
          path_is = refl;
          kind_is = refl;
          is_read = e;
          matched = m;
          some_matches = omega arith;
          few_matches = few;
          id_is = h2;
        }),
        tt,
      )

  results_of_text-IsResult :
      (include_content : Bool) (entry : ClassifiedFile) (numbers : List ℤ) (o : Option String)
      (results : List SearchResult)
      → if_available (read_text_bounded disk max_file_bytes entry.item) ≡ returns o
      → results_of_text unicode disk snapshot include_content needle entry numbers o
        ≡ returns results
      → All (IsResult unicode disk snapshot needle) results
  unfolding results_of_text
  results_of_text-IsResult include_content entry numbers none results e h =
      returned (All (IsResult unicode disk snapshot needle)) [] results h tt
  results_of_text-IsResult include_content entry numbers (some text) results e h =
      let found = rechecked unicode needle (split 0x0a text) numbers in
      results_for-IsResult include_content entry text (take max_matches_per_file found) results e
        (All-take (IsMatch unicode needle text) max_matches_per_file found
          (rechecked-IsMatch unicode needle text numbers))
        (length-take max_matches_per_file found) h

  results_of_file-IsResult :
      (include_content : Bool) (entry : ClassifiedFile) (numbers : List ℤ)
      (results : List SearchResult)
      → results_of_file unicode disk snapshot include_content needle entry numbers ≡ returns results
      → All (IsResult unicode disk snapshot needle) results
  unfolding results_of_file
  results_of_file-IsResult include_content entry [] results h =
      returned (All (IsResult unicode disk snapshot needle)) [] results h tt
  results_of_file-IsResult include_content entry (number ∷ numbers) results h =
      let (o, h1, k1) =
        after-returns (if_available (read_text_bounded disk max_file_bytes entry.item)) _ h in
      results_of_text-IsResult include_content entry (number ∷ numbers) o results h1 k1

  collect-IsResult :
      (include_content : Bool) (line_map : LineMap) (selected : List ClassifiedFile)
      (results : List SearchResult)
      → collect unicode disk snapshot include_content needle line_map selected ≡ returns results
      → All (IsResult unicode disk snapshot needle) results
  unfolding collect
  collect-IsResult include_content line_map [] results h =
      returned (All (IsResult unicode disk snapshot needle)) [] results h tt
  collect-IsResult include_content line_map (entry ∷ selected) results h =
      let numbers = or_empty (lookup entry.item.relative_path line_map) in
      let (found, h1, k1) =
        after-returns (results_of_file unicode disk snapshot include_content needle entry numbers) _
          h in
      let (others, h2, k2) =
        after-returns (collect unicode disk snapshot include_content needle line_map selected) _
          k1 in
      returned (All (IsResult unicode disk snapshot needle)) (found ++ others) results k2 (
        All-append _ found others (results_of_file-IsResult include_content entry numbers found h1)
          (collect-IsResult include_content line_map selected others h2))

-- An order by numbers, and among equal ones by another order, is total if that is.
by_number_total :
    (m n : ℕ) (p q : Bool)
    → (p ≡ false → q ≡ true)
    → (if eqb m n then p else leb m n) ≡ false
    → (if eqb n m then q else leb n m) ≡ true
by_number_total m n p q total h = ground arith

key_leb_total :
    (unicode : Unicode) (needle : String) (a b : SearchResult)
    → key_leb unicode needle a b ≡ false
    → key_leb unicode needle b a ≡ true
unfolding key_leb
key_leb_total unicode needle a b =
    by_number_total (match_rank unicode needle a) (match_rank unicode needle b) _ _ (
      by_number_total (kind_order a.kind) (kind_order b.kind) _ _ (
        pair_leb_total text_leb text_leb_total (unicode.casefold a.path, a.path)
          (unicode.casefold b.path, b.path)))

-- A response: at most as many results as asked for, and at most 50, in the order of the sort key.
pub record IsResponse (unicode : Unicode) (disk : Disk) (snapshot : Snapshot) (needle : String)
    (limit : ℤ) (r : SearchResponse) : Type 0 where
  pub counted : r.count ≡ length r.results
  pub asked : length r.results ≤ pos_part limit
  pub bounded : length r.results ≤ max_search_results
  pub found : All (IsResult unicode disk snapshot needle) r.results
  pub ordered : IsOrdered (key_leb unicode needle) r.results

most : (z : ℤ) → leb_ℤ z (pos max_search_results) ≡ true → pos_part z ≤ max_search_results
most (pos m) h = ground arith
most (negsuc m) h = omega arith

limit-bounds :
    (limit : ℤ) (n : ℕ)
    → validate_limit limit ≡ returns n
    → (n ≡ pos_part limit) × (n ≤ max_search_results)
unfolding validate_limit
limit-bounds limit n h =
    let (h1, k1) =
      check-returns (not (leb_ℤ (pos 1) limit && leb_ℤ limit (pos max_search_results))) _ _ h in
    let (above, below) =
      and_both (leb_ℤ (pos 1) limit) (leb_ℤ limit (pos max_search_results)) (not-false _ h1) in
    returned (λ k. (k ≡ pos_part limit) × (k ≤ max_search_results)) (pos_part limit) n k1
      (refl, most limit below)

-- What `search` returns, whichever engine gave the lines: the count is that of the results, of which there
-- are at most as many as asked for and at most 50, in the order of the sort key. Each of them is of a file
-- that could be read, and has 1 to 20 matches, each a line of that file in which the needle is, cut at 500
-- characters; and its id is the content id of the snapshot's commit and its path.
pub search-IsResponse :
    (unicode : Unicode) (rg : Ripgrep) (disk : Disk) (snapshot : Snapshot) (query scope : String)
    (limit : ℤ) (include_content : Bool) (engine : String) (r : SearchResponse)
    → search unicode rg disk snapshot query scope limit include_content engine ≡ returns r
    → IsResponse unicode disk snapshot (unicode.casefold r.query) limit r
unfolding search respond
search-IsResponse unicode rg disk snapshot query scope limit include_content engine r h =
    let (clean, h1, k1) = after-returns (validate_query query) _ h in
    let (n, h2, k2) = after-returns (validate_limit limit) _ k1 in
    let (s, h3, k3) = after-returns (scope_of scope) _ k2 in
    let selected = selected_files s snapshot.files in
    let (lines, h4, k4) =
      after-returns (line_map_of rg disk snapshot unicode engine clean selected) _ k3 in
    let needle = unicode.casefold clean in
    let (results, h5, k5) =
      after-returns (collect unicode disk snapshot include_content needle lines selected) _ k4 in
    let (n_is, n_most) = limit-bounds limit n h2 in
    let sorted = sort (key_leb unicode needle) results in
    let short = length-take n sorted in
    returned
      (λ (x : SearchResponse). IsResponse unicode disk snapshot (unicode.casefold x.query) limit x)
      _ r k5
      (record {
        counted = refl;
        asked = omega (arith, n_is, short);
        bounded = omega (arith, n_most, short);
        found = All-take (IsResult unicode disk snapshot needle) n sorted (
            All-sort (key_leb unicode needle) (IsResult unicode disk snapshot needle) results (
              collect-IsResult unicode disk snapshot needle include_content lines selected results
                h5));
        ordered =
            IsOrdered-take (key_leb unicode needle) n sorted
              (sort-IsOrdered (key_leb unicode needle) (key_leb_total unicode needle) results);
      })

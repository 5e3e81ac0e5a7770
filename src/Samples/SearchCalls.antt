-- ===== src/Samples/SearchCalls.antt =====
-- Searches of the small repository, and the theorems about the search at work on them.
use jn_engine_contributor_mc.Base.{◌≤◌, true, false, none, some, List, [], ◌∷◌, ◌≡◌, refl}
use jn_engine_contributor_mc.Base.Int.{pos}
use jn_engine_contributor_mc.Base.Lists.{length}
use jn_engine_contributor_mc.Base.Paths.{lower}
use jn_engine_contributor_mc.Python.Utf8.{utf8, as_char}
use jn_engine_contributor_mc.Python.Dict.{lookup}
use jn_engine_contributor_mc.Python.Json.{Json, end, field, str, int, obj, as_int}
use jn_engine_contributor_mc.Corpus.{returns}
use jn_engine_contributor_mc.Corpus.ContentId.{sample_commit, sample_id}
use jn_engine_contributor_mc.Corpus.Scan.{SnapshotFile}
use jn_engine_contributor_mc.Corpus.Snapshot.{Snapshot}
use jn_engine_contributor_mc.Search.{
  all_scope, documentation_kind, SearchResponse, FetchRecord, Unicode, Ripgrep, classify_file,
}
use jn_engine_contributor_mc.Search.Engines.{LineMap, or_empty, line_map_of}
use jn_engine_contributor_mc.Search.Service.{selected_files, search, fetch}
use jn_engine_contributor_mc.Search.Sound.{IsResponse, search-IsResponse}
use jn_engine_contributor_mc.Search.Classified.{IsClassified, classify_file-IsClassified}
use jn_engine_contributor_mc.Search.Mapped.{HaveDistinctPaths}
use jn_engine_contributor_mc.Search.Reference.{IsGrepped, search-grep_files}
use jn_engine_contributor_mc.Search.Lines.{line_map_of-length}
use jn_engine_contributor_mc.Search.Fetched.{IsFetched, fetch-IsFetched}
use jn_engine_contributor_mc.Samples.CorpusCalls.{snapshot, disk, readme, main_file}

-- Case folding of the texts of the tests, which are ASCII.
abbrev ascii : Unicode
ascii = record { casefold = lower }

abbrev event : Json
event = obj (
    field "type" (str "match") (
      field "data"
        (obj (
          field "path" (obj (field "text" (str "README.md") end))
            (field "line_number" (int (pos 1)) end)))
        end))

abbrev rg : Ripgrep
rg = record {
  installed = true;
  run = λ query. some (record { returncode = pos 0; events = none ∷ some event ∷ [] });
  relative_path = λ text. some text;
  to_int = as_int;
}

abbrev two_files : List SnapshotFile
two_files = readme ∷ main_file ∷ []

abbrev small : Snapshot
small = record snapshot { files = two_files }

abbrev response : SearchResponse
response = record {
  query = "readme";
  scope = all_scope;
  count = 1;
  results =
      record {
        id = sample_id;
        path = "README.md";
        title = "Readme";
        kind = documentation_kind;
        matches = record { line = pos 1; text = "# Readme" } ∷ [];
        url =
            "https://github.com/alexscott2718-gif/jn-engine/blob/0123456789abcdef0123456789abcdef01234567/README.md#L1";
        content = none;
      }
      ∷ [];
}

searched : search ascii rg disk small " readme" "all" (pos 5) false "ripgrep" ≡ returns response
unfolding search as_char
searched = refl

search-IsResponse_example : IsResponse ascii disk small (lower "readme") (pos 5) response
search-IsResponse_example =
    search-IsResponse ascii rg disk small " readme" "all" (pos 5) false "ripgrep" response searched

classify_file-IsClassified_example : IsClassified (classify_file readme)
classify_file-IsClassified_example = classify_file-IsClassified readme

abbrev lines : LineMap
lines = ("README.md", pos 1 ∷ []) ∷ []

by_ripgrep :
    line_map_of rg disk small ascii "ripgrep" "readme" (selected_files all_scope two_files)
    ≡ returns lines
unfolding line_map_of selected_files as_char
by_ripgrep = refl

searched_by_python :
    search ascii rg disk small " readme" "all" (pos 5) false "python" ≡ returns response
unfolding search selected_files as_char
searched_by_python = refl

apart : HaveDistinctPaths (selected_files all_scope two_files)
unfolding selected_files
apart = ((refl, tt), (tt, tt))

search-grep_files_example : IsGrepped ascii disk small " readme" "all" (pos 5) false response
search-grep_files_example =
    search-grep_files ascii rg disk small " readme" "all" (pos 5) false response searched_by_python
      apart

line_map_of-length_example : length (or_empty (lookup "README.md" lines)) ≤ 20
line_map_of-length_example =
    line_map_of-length rg disk small ascii "ripgrep" "readme" (selected_files all_scope two_files)
      lines "README.md" by_ripgrep

abbrev record_of_readme : FetchRecord
record_of_readme = record {
  id = sample_id;
  title = "Readme";
  text = "# Readme\nIt works\n";
  url =
      "https://github.com/alexscott2718-gif/jn-engine/blob/0123456789abcdef0123456789abcdef01234567/README.md";
  path = "README.md";
  kind = documentation_kind;
  language = some "markdown";
  repository = "alexscott2718-gif/jn-engine";
  ref = "refs/heads/master";
  commit = sample_commit;
  text_chars = 18;
  truncated = false;
}

fetched : fetch disk snapshot sample_id ≡ returns record_of_readme
unfolding fetch as_char utf8
fetched = refl

fetch-IsFetched_example : IsFetched disk snapshot sample_id record_of_readme
fetch-IsFetched_example = fetch-IsFetched disk snapshot sample_id record_of_readme fetched

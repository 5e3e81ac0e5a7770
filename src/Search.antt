-- ===== src/Search.antt =====
-- The search over the corpus: core/content_search.py. Its data, and the classification of files.
pub mod Engines
pub mod Service
pub mod Sound
pub mod Classified
pub mod Grep
pub mod Mapped
pub mod Reference
pub mod Lines
pub mod Fetched
use text.Mathlib.Text.{starts_with}
use jn_engine_contributor_mc.Base.{
  ℕ, String, Bool, true, false, not, ◌&&◌, ◌||◌, Option, none, some, List, [], ◌∷◌, ◌++◌,
  if◌then◌else◌, ◌==◌, ◌≡◌, refl,
}
use jn_engine_contributor_mc.Base.Int.{ℤ}
use jn_engine_contributor_mc.Base.Lists.{any}
use jn_engine_contributor_mc.Python.Json.{Json}
use jn_engine_contributor_mc.Corpus.Policy.{one_of}
use jn_engine_contributor_mc.Corpus.Scan.{SnapshotFile}

abbrev pub max_query_chars : ℕ
max_query_chars = 200

abbrev pub max_search_results : ℕ
max_search_results = 50

abbrev pub max_matches_per_file : ℕ
max_matches_per_file = 20

abbrev pub max_match_text_chars : ℕ
max_match_text_chars = 500

abbrev pub max_search_content_chars : ℕ
max_search_content_chars = 10_000

abbrev pub task_source_paths : List String
task_source_paths =
    "docs/decomp/_next_session.md" ∷ "docs/qa/qa_backlog_campaign_handoff.md"
    ∷ "docs/linkage_certificates.csv" ∷ "docs/decomp_ledger.csv"
    ∷ "docs/asset_catalog/behavior_todo.md" ∷ []

pub data SearchScope : Type 0 where
  all_scope : SearchScope
  source_scope : SearchScope
  docs_scope : SearchScope
  re_scope : SearchScope
  tasks_scope : SearchScope

pub data ContentKind : Type 0 where
  source_kind : ContentKind
  documentation_kind : ContentKind
  reverse_engineering_kind : ContentKind
  task_kind : ContentKind

pub record SearchMatch : Type 0 where
  pub line : ℤ
  pub text : String

pub record SearchResult : Type 0 where
  pub id : String
  pub path : String
  pub title : String
  pub kind : ContentKind
  pub matches : List SearchMatch
  pub url : String
  pub content : Option String

pub record SearchResponse : Type 0 where
  pub query : String
  pub scope : SearchScope
  pub count : ℕ
  pub results : List SearchResult

pub record FetchRecord : Type 0 where
  pub id : String
  pub title : String
  pub text : String
  pub url : String
  pub path : String
  pub kind : ContentKind
  pub language : Option String
  pub repository : String
  pub ref : String
  pub commit : String
  pub text_chars : ℕ
  pub truncated : Bool

pub record ClassifiedFile : Type 0 where
  pub item : SnapshotFile
  pub kind : ContentKind
  pub scopes : List SearchScope

abbrev pub same_scope : SearchScope → SearchScope → Bool
same_scope all_scope all_scope = true
same_scope source_scope source_scope = true
same_scope docs_scope docs_scope = true
same_scope re_scope re_scope = true
same_scope tasks_scope tasks_scope = true
same_scope _ _ = false

abbrev pub has_scope : List SearchScope → SearchScope → Bool
has_scope scopes scope = any (λ s. same_scope scope s) scopes

-- `_is_re_path`
unfoldable pub is_re_path : String → Bool
is_re_path path =
    starts_with path "docs/decomp/"
    || (path == "docs/decomp_ledger.csv"
        || (path == "docs/_gam_classids.tsv"
            || (starts_with path "docs/ghidra"
                || (path == "docs/gam_schema.md"
                    || (starts_with path "docs/linkage"
                        || (starts_with path "docs/vtable"
                            || (starts_with path "tools/ghidra/"
                                || (starts_with path "tools/linkage_oracles/"
                                    || path == "instrument/proxy/protocol.h"))))))))

unfoldable pub is_task_path : String → Bool
is_task_path path = one_of task_source_paths path

abbrev pub is_source_path : String → Bool
is_source_path path =
    path == "Makefile"
    || (starts_with path "src/"
        || (starts_with path "instrument/"
            || (starts_with path "tools/" || starts_with path "web/")))

abbrev pub is_root_document : String → Bool
is_root_document path = one_of ("AGENTS.md" ∷ "README.md" ∷ []) path

abbrev pub scope_if : Bool → SearchScope → List SearchScope
scope_if true s = s ∷ []
scope_if false s = []

abbrev pub kind_of : Bool → Bool → Bool → ContentKind
kind_of true is_re is_document = task_kind
kind_of false true is_document = reverse_engineering_kind
kind_of false false true = documentation_kind
kind_of false false false = source_kind

-- The scopes beside `all`, by the tests of the path.
abbrev pub scopes_of : Bool → Bool → Bool → Bool → List SearchScope
scopes_of is_source is_re is_task is_docs =
    scope_if is_source source_scope
    ++ (scope_if is_re re_scope ++ (scope_if is_task tasks_scope ++ scope_if is_docs docs_scope))

-- `classify_file`
unfoldable pub classify_file : SnapshotFile → ClassifiedFile
unfolding is_re_path is_task_path
classify_file item =
    let path = item.relative_path in
    let is_task = is_task_path path in
    let is_re = is_re_path path in
    record {
      item = item;
      kind = kind_of is_task is_re (is_root_document path || starts_with path "docs/");
      scopes =
          all_scope
          ∷ scopes_of (is_source_path path) is_re is_task
              (is_root_document path || (starts_with path "docs/" && (not is_task && not is_re)));
    }

-- The `casefold` of Python's `str`, from the Unicode tables.
pub record Unicode : Type 0 where
  pub casefold : String → String

-- A run of ripgrep: its status, and what `json.loads` makes of each line, none where it raises.
pub record Completed : Type 0 where
  pub returncode : ℤ
  pub events : List (Option Json)

-- What the program knows from outside: whether `rg` is on the path; its run for a query, none where it
-- cannot be run or takes too long; a path that it names, resolved and relative to the content root, none
-- where that raises; and `int` of a value, none where that raises.
pub record Ripgrep : Type 0 where
  pub installed : Bool
  pub run : String → Option Completed
  pub relative_path : String → Option String
  pub to_int : Json → Option ℤ

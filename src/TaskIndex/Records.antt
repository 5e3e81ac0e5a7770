-- ===== src/TaskIndex/Records.antt =====
-- Rows and records of core/task_index.py.
use Prim.Native.String.{◌++◌}
use jn_engine_contributor_mc.Base.{ℕ, String, Bool, not, none, some, List, [], ◌∷◌, eqb}
use jn_engine_contributor_mc.Base.Int.{pos}
use jn_engine_contributor_mc.Base.Lists.{length}
use jn_engine_contributor_mc.Base.Text.{take_text}
use jn_engine_contributor_mc.Python.Dict.{Dict, lookup}
use jn_engine_contributor_mc.Corpus.{
  Outcome, returns, raises, task_index_error, ◌>>=◌, ◌>>◌, refuse_if,
}
use jn_engine_contributor_mc.Corpus.Snapshot.{same_texts}
use jn_engine_contributor_mc.Corpus.Cite.{citation_url}
use jn_engine_contributor_mc.TaskIndex.{
  TaskStatus, TaskSourceKind, TaskRecord, Library, max_task_title_chars, max_task_detail_chars,
}
use jn_engine_contributor_mc.TaskIndex.Texts.{bounded, plain_markdown}

abbrev pub decomp_headers : List String
decomp_headers =
    "class" ∷ "base_chain" ∷ "vftable" ∷ "ctor" ∷ "n_methods" ∷ "family" ∷ "wave" ∷ "status"
    ∷ "owner" ∷ "confidence" ∷ "notes" ∷ []

abbrev pub linkage_headers : List String
linkage_headers = "class" ∷ "aspect" ∷ "domain" ∷ "status" ∷ "oracle" ∷ "linkage_doc" ∷ "note" ∷ []

abbrev pub qa_headers : List String
qa_headers = "#" ∷ "Level" ∷ "Model" ∷ "Cat" ∷ "Issue" ∷ "Group" ∷ "Status" ∷ []

abbrev pub catalog_queue_headers : List String
catalog_queue_headers =
    "Rank" ∷ "Score" ∷ "FourCC" ∷ "Class" ∷ "Family" ∷ "Inst" ∷ "Lvls" ∷ "Visual" ∷ "Levels" ∷ []

abbrev pub catalog_unused_headers : List String
catalog_unused_headers = "FourCC" ∷ "Class" ∷ "Visual status" ∷ "Decomp doc" ∷ []

-- `dict(zip(headers, cells))`
abbrev pub row_of : List String → List String → Dict String
row_of [] cells = []
row_of (header ∷ headers) [] = []
row_of (header ∷ headers) (cell ∷ cells) = (header, cell) ∷ row_of headers cells

-- `row[key]`. A row has the keys of its headers, so that no key that the parsers ask for is missing.
unfoldable pub value_of : String → Dict String → String
unfolding lookup
value_of key row = elim (lookup key row) [ none ↦ "" | some value ↦ value ]

-- `_csv_rows`, behind the check of the headers.
unfoldable pub csv_rows_of :
    List String → String → Bool → List (ℕ × List String) → Outcome (List (ℕ × Dict String))
csv_rows_of headers path broken [] =
    refuse_if broken (task_index_error (path ++ " is not valid CSV")) >> returns []
csv_rows_of headers path broken ((line, values) ∷ rows) = do
  refuse_if (not (eqb (length values) (length headers)))
      (task_index_error (path ++ " contains a malformed row"))
  others ← csv_rows_of headers path broken rows
  returns ((line, row_of headers values) ∷ others)

-- `_csv_rows`
unfoldable pub csv_rows : Library → String → List String → String → Outcome (List (ℕ × Dict String))
unfolding csv_rows_of
csv_rows lib text headers path = elim (lib.read_csv text) [
  | none ↦ raises (task_index_error (path ++ " is not valid CSV"))
  | some table ↦
      refuse_if (not (same_texts table.fieldnames headers))
        (task_index_error (path ++ " has unexpected headers"))
      >> csv_rows_of headers path table.broken table.rows
]

-- What the parsers give `_record` of a task, without its path.
pub record Draft : Type 0 where
  pub task_id : String
  pub title : String
  pub status : TaskStatus
  pub category : String
  pub detail : String

-- `_record`
unfoldable pub new_record : String → TaskSourceKind → String → ℕ → Draft → Outcome TaskRecord
unfolding take_text plain_markdown bounded citation_url
new_record commit source_kind path line draft = do
  source_url ← citation_url commit path (some (pos line))
  returns (record {
    id = draft.task_id;
    title = take_text max_task_title_chars (plain_markdown draft.title);
    status = draft.status;
    source_kind = source_kind;
    category = bounded draft.category 200;
    detail = bounded draft.detail max_task_detail_chars;
    source_path = path;
    source_line = line;
    source_url = source_url;
    commit = commit;
  })

-- `records.append`, before the rest of a loop.
abbrev pub then_record : Outcome TaskRecord → Outcome (List TaskRecord) → Outcome (List TaskRecord)
then_record added rest = do task ← added; others ← rest; returns (task ∷ others)

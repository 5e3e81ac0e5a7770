-- ===== src/TaskIndex.antt =====
-- The index of the committed tasks: core/task_index.py. Its data.
pub mod Texts
pub mod Patterns
pub mod Records
pub mod Sources
pub mod Tables
pub mod Catalog
pub mod Index
pub mod Unique
pub mod Recorded
pub mod Loops
pub mod Reads
pub mod Listed
use jn_engine_contributor_mc.Base.{ℕ, String, Bool, Option, List, [], ◌∷◌}

pub data TaskStatus : Type 0 where
  status_open : TaskStatus
  status_blocked : TaskStatus
  status_done : TaskStatus

pub data TaskSourceKind : Type 0 where
  handoff : TaskSourceKind
  qa : TaskSourceKind
  linkage : TaskSourceKind
  decomp : TaskSourceKind
  catalog : TaskSourceKind

pub record TaskRecord : Type 0 where
  pub id : String
  pub title : String
  pub status : TaskStatus
  pub source_kind : TaskSourceKind
  pub category : Option String
  pub detail : Option String
  pub source_path : String
  pub source_line : ℕ
  pub source_url : String
  pub commit : String

-- `TaskStatusFilter` and `TaskSourceFilter`: one value or all.
pub data TaskStatusFilter : Type 0 where
  only_status : TaskStatus → TaskStatusFilter
  all_statuses : TaskStatusFilter

pub data TaskSourceFilter : Type 0 where
  only_source : TaskSourceKind → TaskSourceFilter
  all_sources : TaskSourceFilter

pub record TaskList : Type 0 where
  pub status : TaskStatusFilter
  pub source : TaskSourceFilter
  pub count : ℕ
  pub tasks : List TaskRecord

-- What a strict `csv.DictReader` reads: the names of the columns, each row with the line it ends on and
-- its values, and whether the reader raises `csv.Error` after those rows.
pub record CsvTable : Type 0 where
  pub fieldnames : List String
  pub rows : List (ℕ × List String)
  pub broken : Bool

-- Python's Unicode tables and the `csv` module: `str.casefold`, `str.upper`, the digits of `\d` and of
-- `str.isdigit`, and the reader of a text, none where it raises on the first row.
pub record Library : Type 0 where
  pub casefold : String → String
  pub upper : String → String
  pub is_decimal : ℕ → Bool
  pub is_digit : ℕ → Bool
  pub read_csv : String → Option CsvTable

abbrev pub max_tasks : ℕ
max_tasks = 10_000

abbrev pub max_task_detail_chars : ℕ
max_task_detail_chars = 1_000

abbrev pub max_task_title_chars : ℕ
max_task_title_chars = 500

abbrev pub max_task_limit : ℕ
max_task_limit = 100

abbrev pub handoff_path : String
handoff_path = "docs/decomp/_next_session.md"

abbrev pub qa_path : String
qa_path = "docs/qa/qa_backlog_campaign_handoff.md"

abbrev pub linkage_path : String
linkage_path = "docs/linkage_certificates.csv"

abbrev pub decomp_path : String
decomp_path = "docs/decomp_ledger.csv"

abbrev pub catalog_path : String
catalog_path = "docs/asset_catalog/behavior_todo.md"

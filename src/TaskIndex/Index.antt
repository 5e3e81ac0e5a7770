-- ===== src/TaskIndex/Index.antt =====
-- `TaskIndex` of core/task_index.py: the index and its reads.
use jn_engine_contributor_mc.Base.{
  ℕ, String, Bool, true, false, not, ◌&&◌, ◌||◌, Option, none, some, List, [], ◌∷◌, ◌++◌, eqb, ltb,
  if◌then◌else◌, ◌==◌,
}
use jn_engine_contributor_mc.Base.Int.{ℤ, pos, leb_ℤ, pos_part}
use jn_engine_contributor_mc.Base.Lists.{length, take, all, any}
use jn_engine_contributor_mc.Base.Sort.{sort, text_leb}
use jn_engine_contributor_mc.Python.Dict.{Dict, lookup, insert}
use jn_engine_contributor_mc.Corpus.{
  Outcome, returns, raises, Failure, task_index_error, task_request_error, ◌>>=◌, ◌>>◌, refuse_if,
}
use jn_engine_contributor_mc.Corpus.Policy.{max_file_bytes}
use jn_engine_contributor_mc.Corpus.Scan.{SnapshotFile}
use jn_engine_contributor_mc.Corpus.Snapshot.{Snapshot}
use jn_engine_contributor_mc.Corpus.Reads.{Disk, resolve_relative_file, read_text_bounded}
use jn_engine_contributor_mc.Search.{task_source_paths}
use jn_engine_contributor_mc.TaskIndex.{
  TaskStatus, status_open, status_blocked, status_done, TaskSourceKind, handoff, qa, linkage,
  decomp, catalog, TaskRecord, TaskStatusFilter, only_status, all_statuses, TaskSourceFilter,
  only_source, all_sources, TaskList, Library, max_tasks, max_task_limit, handoff_path, qa_path,
  linkage_path, decomp_path, catalog_path,
}
use jn_engine_contributor_mc.TaskIndex.Sources.{parse_handoff, parse_qa}
use jn_engine_contributor_mc.TaskIndex.Tables.{parse_linkage, parse_decomp}
use jn_engine_contributor_mc.TaskIndex.Catalog.{parse_catalog}

pub record Index : Type 0 where
  pub tasks : List TaskRecord
  pub tasks_by_id : Dict TaskRecord

abbrev pub status_order : TaskStatus → ℕ
status_order status_open = 0
status_order status_blocked = 1
status_order status_done = 2

abbrev pub source_order : TaskSourceKind → ℕ
source_order handoff = 0
source_order qa = 1
source_order linkage = 2
source_order catalog = 3
source_order decomp = 4

-- The order of tuples whose first parts are numbers.
abbrev pub ranked : ℕ → ℕ → Bool → Bool
ranked m n next = ltb m n || (eqb m n && next)

-- The order by the sort key.
abbrev pub task_leb : TaskRecord → TaskRecord → Bool
task_leb a b = ranked (status_order a.status) (status_order b.status) (
    ranked (source_order a.source_kind) (source_order b.source_kind)
      (ranked a.source_line b.source_line (text_leb a.id b.id)))

abbrev pub other_id : String → TaskRecord → Bool
other_id id task = not (task.id == id)

-- `len(ids) == len(set(ids))`
unfoldable pub has_unique_ids : List TaskRecord → Bool
has_unique_ids [] = true
has_unique_ids (task ∷ tasks) = all (other_id task.id) tasks && has_unique_ids tasks

-- `{task.id: task for task in tasks}`, from what is there.
unfoldable pub by_id : Dict TaskRecord → List TaskRecord → Dict TaskRecord
unfolding insert
by_id found [] = found
by_id found (task ∷ tasks) = by_id (insert task.id task found) tasks

abbrev is_missing : Option SnapshotFile → Bool
is_missing none = true
is_missing (some item) = false

abbrev pub missing_source : Snapshot → String → Bool
missing_source snapshot path = is_missing (lookup path snapshot.files_by_path)

abbrev pub missing_sources : Failure
missing_sources = task_index_error "one or more required task sources are missing"

abbrev pub too_many_tasks : Failure
too_many_tasks = task_index_error "task index exceeds 10000 records"

abbrev pub duplicate_ids : Failure
duplicate_ids = task_index_error "task index contains duplicate semantic IDs"

-- `__init__`, behind the parsers.
unfoldable pub index_of : List TaskRecord → Outcome Index
unfolding has_unique_ids sort by_id
index_of tasks = do
  refuse_if (ltb max_tasks (length tasks)) too_many_tasks
  refuse_if (not (has_unique_ids tasks)) duplicate_ids
  returns (record { tasks = sort task_leb tasks; tasks_by_id = by_id [] (sort task_leb tasks) })

-- `tasks.extend(self._parse_...())`
abbrev pub extended : Outcome (List TaskRecord) → List TaskRecord → Outcome (List TaskRecord)
extended more tasks = do found ← more; returns (tasks ++ found)

module _ (lib : Library) (disk : Disk) (snapshot : Snapshot) where
  -- `_text`
  unfoldable pub source_text : String → Outcome String
  unfolding resolve_relative_file read_text_bounded
  source_text path = do
    item ← resolve_relative_file disk snapshot path
    found ← read_text_bounded disk max_file_bytes item
    returns found.0

  abbrev pub parsed :
      String → (String → String → Outcome (List TaskRecord)) → Outcome (List TaskRecord)
  parsed path parse = source_text path >>= parse snapshot.manifest.commit

  -- The tasks of the five sources, in the order in which they are read.
  unfoldable pub all_tasks : Outcome (List TaskRecord)
  unfolding source_text parse_handoff parse_qa parse_linkage parse_decomp parse_catalog
  all_tasks =
      extended (parsed handoff_path (parse_handoff lib)) []
      >>= extended (parsed qa_path (parse_qa lib))
      >>= extended (parsed linkage_path (parse_linkage lib))
      >>= extended (parsed decomp_path (parse_decomp lib))
      >>= extended (parsed catalog_path (parse_catalog lib))

  -- `TaskIndex(snapshot)`
  unfoldable pub build : Outcome Index
  unfolding all_tasks index_of lookup
  build = do
    refuse_if (any (missing_source snapshot) task_source_paths) missing_sources
    tasks ← all_tasks
    index_of tasks

abbrev same_status : TaskStatus → TaskStatus → Bool
same_status a b = eqb (status_order a) (status_order b)

abbrev same_source : TaskSourceKind → TaskSourceKind → Bool
same_source a b = eqb (source_order a) (source_order b)

abbrev pub has_status : TaskStatusFilter → TaskRecord → Bool
has_status all_statuses task = true
has_status (only_status status) task = same_status task.status status

abbrev pub has_source : TaskSourceFilter → TaskRecord → Bool
has_source all_sources task = true
has_source (only_source source) task = same_source task.source_kind source

abbrev pub is_selected : TaskStatusFilter → TaskSourceFilter → TaskRecord → Bool
is_selected status source task = has_status status task && has_source source task

unfoldable pub selected : TaskStatusFilter → TaskSourceFilter → List TaskRecord → List TaskRecord
selected status source [] = []
selected status source (task ∷ tasks) =
    let rest = selected status source tasks in
    if is_selected status source task then task ∷ rest else rest

-- `TaskStatusFilter(status)` and `TaskSourceFilter(source)` of texts, none where they raise.
unfoldable pub status_filter : String → Option TaskStatusFilter
unfolding lookup
status_filter text = lookup text (
    ("open", only_status status_open)
    ∷ ("blocked", only_status status_blocked)
    ∷ ("done", only_status status_done)
    ∷ ("all", all_statuses)
    ∷ [])

unfoldable pub source_filter : String → Option TaskSourceFilter
unfolding lookup
source_filter text = lookup text (
    ("all", all_sources)
    ∷ ("handoff", only_source handoff)
    ∷ ("qa", only_source qa)
    ∷ ("linkage", only_source linkage)
    ∷ ("decomp", only_source decomp)
    ∷ ("catalog", only_source catalog)
    ∷ [])

abbrev pub found_filter {ℓ} : {A : Type ℓ} → Option A → Outcome A
found_filter none = raises (task_request_error "task status or source filter is invalid")
found_filter (some filter) = returns filter

abbrev pub limit_refused : Failure
limit_refused = task_request_error "limit must be in 1..100"

-- `list_tasks`, of filters given as texts.
unfoldable pub list_tasks : Index → String → String → ℤ → Outcome TaskList
unfolding status_filter source_filter selected
list_tasks index status source limit = do
  selected_status ← found_filter (status_filter status)
  selected_source ← found_filter (source_filter source)
  refuse_if (not (leb_ℤ (pos 1) limit && leb_ℤ limit (pos max_task_limit))) limit_refused
  returns (record {
    status = selected_status;
    source = selected_source;
    count = length (take (pos_part limit) (selected selected_status selected_source index.tasks));
    tasks = take (pos_part limit) (selected selected_status selected_source index.tasks);
  })

-- `get_task`
unfoldable pub get_task : Index → String → Option TaskRecord
unfolding lookup
get_task index task_id = lookup task_id index.tasks_by_id

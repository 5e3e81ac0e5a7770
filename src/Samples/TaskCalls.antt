-- ===== src/Samples/TaskCalls.antt =====
-- A small index of tasks, and the theorems about it at work.
use jn_engine_contributor_mc.Base.{
  ℕ, suc, String, true, false, Option, none, some, List, [], ◌∷◌, ◌≡◌, refl,
}
use jn_engine_contributor_mc.Base.Int.{pos}
use jn_engine_contributor_mc.Base.Lists.{length}
use jn_engine_contributor_mc.Base.Paths.{join, lower}
use jn_engine_contributor_mc.Base.Text.{is_digit, split}
use jn_engine_contributor_mc.Python.Utf8.{utf8, as_char}
use jn_engine_contributor_mc.Python.Dict.{Dict, lookup}
use jn_engine_contributor_mc.Corpus.{Outcome, returns, raises}
use jn_engine_contributor_mc.Corpus.ContentId.{sample_commit}
use jn_engine_contributor_mc.Corpus.Cite.{splitlines}
use jn_engine_contributor_mc.Corpus.Scan.{SnapshotFile}
use jn_engine_contributor_mc.Corpus.Snapshot.{Snapshot}
use jn_engine_contributor_mc.Corpus.Reads.{directory_kind, regular_kind, Stat, Opened, Disk}
use jn_engine_contributor_mc.Samples.CorpusCalls.{snapshot}
use jn_engine_contributor_mc.TaskIndex.{
  status_open, qa, only_status, only_source, TaskRecord, TaskList, CsvTable, Library, handoff_path,
  qa_path, linkage_path, decomp_path, catalog_path,
}
use jn_engine_contributor_mc.TaskIndex.Index.{Index, build, get_task, list_tasks}
use jn_engine_contributor_mc.TaskIndex.Unique.{IsIndex, build-IsIndex}
use jn_engine_contributor_mc.TaskIndex.Recorded.{IsTask}
use jn_engine_contributor_mc.TaskIndex.Reads.{get_task-IsTask}
use jn_engine_contributor_mc.TaskIndex.Listed.{IsListed, list_tasks-IsListed}

abbrev texts : Dict String
texts =
    (handoff_path, "## Your task this session\n- [x] (A) Port `jump`\n* Test it\n")
    ∷ (
      qa_path,
      "## Master report ledger\n| # | Level | Model | Cat | Issue | Group | Status |\n|---|---|---|---|---|---|---|\n| 7 | L1 | M2 | art | Bad hat | G | NOT FIXED |\n",
    )
    ∷ (
      linkage_path,
      "class,aspect,domain,status,oracle,linkage_doc,note\nHero,Jump,ai,linked-blocked,,d,ok\n",
    )
    ∷ (
      decomp_path,
      "class,base_chain,vftable,ctor,n_methods,family,wave,status,owner,confidence,notes\nHero,B,v,c,3,fam,1,todo,me,high,n\n",
    )
    ∷ (
      catalog_path,
      "## Full Missing Native Behavior Queue\n| Rank | Score | FourCC | Class | Family | Inst | Lvls | Visual | Levels |\n| 1 | 2 | `HERO` | Hero | - | 3 | 4 | - | x |\n## Enemy-Family Specs With No Current `.gam` Placement\n| FourCC | Class | Visual status | Decomp doc |\n",
    )
    ∷ []

-- A reader of tables without quotes.
unfoldable rows_from : ℕ → List String → List (ℕ × List String)
unfolding split
rows_from n [] = []
rows_from n (line ∷ lines) = (n, split b',' line) ∷ rows_from (suc n) lines

abbrev table_of : List String → Option CsvTable
table_of [] = none
table_of (header ∷ lines) =
    some (record { fieldnames = split b',' header; rows = rows_from 2 lines; broken = false })

abbrev library : Library
library = record {
  casefold = lower;
  upper = λ s. s;
  is_decimal = is_digit;
  is_digit = is_digit;
  read_csv = λ text. table_of (splitlines text);
}

abbrev stat_of_text : Option String → Option Stat
stat_of_text none = some (record { kind = directory_kind; links = 2; size = 4096 })
stat_of_text (some text) =
    some (record { kind = regular_kind; links = 1; size = length (utf8 text) })

abbrev opened_text : Option String → Option Opened
opened_text none = none
opened_text (some text) = some (record {
  stat = record { kind = regular_kind; links = 1; size = length (utf8 text) };
  data_bytes = utf8 text;
})

abbrev disk : Disk
disk = record {
  lstat = λ names. stat_of_text (lookup (join "/" names) texts);
  contained = λ names. true;
  open_file = λ names. opened_text (lookup (join "/" names) texts);
}

abbrev files_of : Dict String → Dict SnapshotFile
files_of [] = []
files_of ((path, text) ∷ rest) =
    (path, record { relative_path = path; size_bytes = length (utf8 text) }) ∷ files_of rest

abbrev tasks_snapshot : Snapshot
tasks_snapshot = record {
  manifest = snapshot.manifest;
  files = snapshot.files;
  files_by_path = files_of texts;
}

abbrev index_or_none : Outcome Index → Index
index_or_none (raises why) = record { tasks = []; tasks_by_id = [] }
index_or_none (returns index) = index

abbrev index : Index
index = index_or_none (build library disk tasks_snapshot)

abbrev ids_of : List TaskRecord → List String
ids_of [] = []
ids_of (task ∷ tasks) = task.id ∷ ids_of tasks

ids :
    ids_of index.tasks
    ≡ "handoff:test-it" ∷ "qa:7" ∷ "catalog:hero:hero" ∷ "decomp:hero" ∷ "linkage:hero:jump"
      ∷ "handoff:a" ∷ []
unfolding build utf8 as_char rows_from
ids = refl

built : build library disk tasks_snapshot ≡ returns index
unfolding build utf8 as_char rows_from
built = refl

build-IsIndex_example : IsIndex index
build-IsIndex_example = build-IsIndex library disk tasks_snapshot index built

abbrev report : TaskRecord
report = record {
  id = "qa:7";
  title = "QA #7 L1 M2: Bad hat";
  status = status_open;
  source_kind = qa;
  category = some "art";
  detail = some "group=G; status=NOT FIXED";
  source_path = qa_path;
  source_line = 4;
  source_url =
      "https://github.com/alexscott2718-gif/jn-engine/blob/0123456789abcdef0123456789abcdef01234567/docs/qa/qa_backlog_campaign_handoff.md#L4";
  commit = sample_commit;
}

report_found : get_task index "qa:7" ≡ some report
unfolding build utf8 as_char rows_from get_task
report_found = refl

get_task-IsTask_example : (◌≡◌ {A = String} "qa:7" "qa:7") × IsTask sample_commit report
get_task-IsTask_example =
    get_task-IsTask library disk tasks_snapshot index "qa:7" report built report_found

abbrev open_reports : TaskList
open_reports = record {
  status = only_status status_open;
  source = only_source qa;
  count = 1;
  tasks = report ∷ [];
}

reports_listed : list_tasks index "open" "qa" (pos 5) ≡ returns open_reports
unfolding build utf8 as_char rows_from list_tasks
reports_listed = refl

list_tasks-IsListed_example :
    IsListed library disk tasks_snapshot index "open" "qa" (pos 5) open_reports
list_tasks-IsListed_example =
    list_tasks-IsListed library disk tasks_snapshot index "open" "qa" (pos 5) open_reports built
      reports_listed

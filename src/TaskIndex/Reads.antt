-- ===== src/TaskIndex/Reads.antt =====
-- What the reads of an index return: `get_task` of core/task_index.py.
use jn_engine_contributor_mc.Base.{
  String, not, some, List, [], ◌∷◌, ◌++◌, ◌≡◌, refl, sym, subst, ap, ◌∙◌, inl, inr, ltb,
}
use jn_engine_contributor_mc.Base.Lists.{All, All-append, length, any}
use jn_engine_contributor_mc.Base.Sort.Kept.{All-sort}
use jn_engine_contributor_mc.Python.Dict.{Dict, lookup, insert, found-insert}
use jn_engine_contributor_mc.Corpus.{Outcome, returns, after}
use jn_engine_contributor_mc.Corpus.Snapshot.{Snapshot}
use jn_engine_contributor_mc.Corpus.Reads.{Disk}
use jn_engine_contributor_mc.Search.{task_source_paths}
use jn_engine_contributor_mc.TaskIndex.{
  TaskRecord, Library, max_tasks, handoff_path, qa_path, linkage_path, decomp_path, catalog_path,
}
use jn_engine_contributor_mc.TaskIndex.Index.{
  Index, task_leb, by_id, index_of, missing_source, missing_sources, too_many_tasks, duplicate_ids,
  has_unique_ids, source_text, parsed, extended, all_tasks, build, get_task,
}
use jn_engine_contributor_mc.TaskIndex.Sources.{parse_handoff, parse_qa}
use jn_engine_contributor_mc.TaskIndex.Tables.{parse_linkage, parse_decomp}
use jn_engine_contributor_mc.TaskIndex.Catalog.{parse_catalog}
use jn_engine_contributor_mc.TaskIndex.Recorded.{
  IsTask, Gives, gives, Gives-after, Gives-chain, Gives-refuse_if,
}
use jn_engine_contributor_mc.TaskIndex.Loops.{
  Tasks, parse_handoff-Tasks, parse_qa-Tasks, parse_linkage-Tasks, parse_decomp-Tasks,
  parse_catalog-Tasks,
}

module _ (P : TaskRecord → Type 0) where
  -- What is found by an id has that id, and is one of the tasks or was there.
  by_id-only :
      (tasks : List TaskRecord) (found : Dict TaskRecord) (id : String) (t : TaskRecord)
      → All P tasks
      → ((u : TaskRecord) → lookup id found ≡ some u → (u.id ≡ id) × P u)
      → lookup id (by_id found tasks) ≡ some t
      → (t.id ≡ id) × P t
  unfolding by_id
  by_id-only [] found id t h k e = k t e
  by_id-only (task ∷ tasks) found id t h k e =
      by_id-only tasks (insert task.id task found) id t h.1 after_insert e
    where
      after_insert :
          (u : TaskRecord) → lookup id (insert task.id task found) ≡ some u → (u.id ≡ id) × P u
      after_insert u d = elim (found-insert task.id id task u found d) [
        | inl (id_is, same) ↦ subst (λ (x : TaskRecord). (x.id ≡ id) × P x) same (id_is, h.0)
        | inr before ↦ k u before
      ]

module _ (lib : Library) (disk : Disk) (snapshot : Snapshot) where
  abbrev commit : String
  commit = snapshot.manifest.commit

  Gives-extended :
      (path : String) (parse : String → String → Outcome (List TaskRecord))
      (before : Outcome (List TaskRecord))
      → ((text : String) → Tasks lib commit (parse commit text))
      → Tasks lib commit before
      → Tasks lib commit (after (extended (parsed lib disk snapshot path parse)) before)
  unfolding source_text
  Gives-extended path parse before h k =
      Gives-chain before (extended (parsed lib disk snapshot path parse)) k (λ tasks all.
        Gives-chain (parsed lib disk snapshot path parse) (λ found. returns (tasks ++ found))
          (Gives-after (source_text lib disk snapshot path) (parse commit) h)
          (λ found more.
            gives (All (IsTask commit)) (tasks ++ found)
              (All-append (IsTask commit) tasks found all more)))

  all_tasks-IsTask : Tasks lib commit (all_tasks lib disk snapshot)
  unfolding all_tasks
  all_tasks-IsTask =
      Gives-extended catalog_path (parse_catalog lib) _ (parse_catalog-Tasks lib commit) (
        Gives-extended decomp_path (parse_decomp lib) _ (parse_decomp-Tasks lib commit) (
          Gives-extended linkage_path (parse_linkage lib) _ (parse_linkage-Tasks lib commit) (
            Gives-extended qa_path (parse_qa lib) _ (parse_qa-Tasks lib commit) (
              Gives-extended handoff_path (parse_handoff lib) (returns [])
                (parse_handoff-Tasks lib commit) (gives _ [] tt)))))

  -- The tasks of an index that is built, in its list and behind its ids.
  pub record HasTasks (index : Index) : Type 0 where
    pub listed : All (IsTask commit) index.tasks
    pub by_ids : index.tasks_by_id ≡ by_id [] index.tasks

  index_of-HasTasks :
      (tasks : List TaskRecord) → All (IsTask commit) tasks → Gives HasTasks (index_of tasks)
  unfolding index_of
  index_of-HasTasks tasks h = Gives-refuse_if (ltb max_tasks (length tasks)) too_many_tasks (
      Gives-refuse_if (not (has_unique_ids tasks)) duplicate_ids (
        gives HasTasks _
          (record { listed = All-sort task_leb (IsTask commit) tasks h; by_ids = refl })))

  pub build-HasTasks : Gives HasTasks (build lib disk snapshot)
  unfolding build
  build-HasTasks =
      Gives-refuse_if (any (missing_source snapshot) task_source_paths) missing_sources
        (Gives-chain (all_tasks lib disk snapshot) index_of all_tasks-IsTask index_of-HasTasks)

  -- A task that get_task returns of an index that is built has the id asked for, cites its own file and
  -- line at the snapshot's commit, and has a title of at most 500 characters, a category of at most 200 and
  -- a detail of at most 1,000.
  pub get_task-IsTask :
      (index : Index) (id : String) (task : TaskRecord)
      → build lib disk snapshot ≡ returns index
      → get_task index id ≡ some task
      → (task.id ≡ id) × IsTask commit task
  unfolding get_task
  get_task-IsTask index id task h e =
      let b = build-HasTasks.given index h in
      by_id-only (IsTask commit) index.tasks [] id task b.listed (λ u d. cc)
        (sym (ap (lookup id) b.by_ids) ∙ e)

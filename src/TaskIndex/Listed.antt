-- ===== src/TaskIndex/Listed.antt =====
-- What `list_tasks` of core/task_index.py returns.
use jn_engine_contributor_mc.Base.{
  ℕ, zero, suc, sym, ◌∙◌, eqb→eq, ◌≤◌, String, true, not, ◌&&◌, Option, none, some, List, [], ◌∷◌,
  ◌≡◌, refl, ap, arith, Bool-cases, inl, inr, and_both, not-false,
}
use jn_engine_contributor_mc.Base.Int.{ℤ, pos, negsuc, leb_ℤ, pos_part}
use jn_engine_contributor_mc.Base.Lists.{All, All-map, All-take, length, length-take}
use jn_engine_contributor_mc.Corpus.{returns, check-returns, returned, returns_inj, after-returns}
use jn_engine_contributor_mc.Corpus.Snapshot.{Snapshot}
use jn_engine_contributor_mc.Corpus.Reads.{Disk}
use jn_engine_contributor_mc.TaskIndex.{
  TaskStatus, status_open, status_blocked, status_done, TaskSourceKind, handoff, qa, linkage,
  decomp, catalog, only_status, all_statuses, only_source, all_sources, TaskRecord, TaskList,
  TaskStatusFilter, TaskSourceFilter, Library, max_task_limit,
}
use jn_engine_contributor_mc.TaskIndex.Index.{
  Index, status_order, source_order, has_status, has_source, limit_refused, build, get_task,
  list_tasks, is_selected, selected, found_filter, status_filter, source_filter,
}
use jn_engine_contributor_mc.TaskIndex.Recorded.{IsTask}
use jn_engine_contributor_mc.TaskIndex.Unique.{build-IsIndex}
use jn_engine_contributor_mc.TaskIndex.Reads.{build-HasTasks}

-- A task that passes a filter, by what the filter names.
abbrev pub PassesStatus : TaskStatusFilter → TaskRecord → Type 0
PassesStatus all_statuses task = Unit
PassesStatus (only_status status) task = task.status ≡ status

abbrev pub PassesSource : TaskSourceFilter → TaskRecord → Type 0
PassesSource all_sources task = Unit
PassesSource (only_source source) task = task.source_kind ≡ source

abbrev status_at : ℕ → TaskStatus
status_at zero = status_open
status_at (suc zero) = status_blocked
status_at (suc (suc n)) = status_done

status_at-status_order : (s : TaskStatus) → status_at (status_order s) ≡ s
status_at-status_order status_open = refl
status_at-status_order status_blocked = refl
status_at-status_order status_done = refl

abbrev source_at : ℕ → TaskSourceKind
source_at zero = handoff
source_at (suc zero) = qa
source_at (suc (suc zero)) = linkage
source_at (suc (suc (suc zero))) = catalog
source_at (suc (suc (suc (suc n)))) = decomp

source_at-source_order : (s : TaskSourceKind) → source_at (source_order s) ≡ s
source_at-source_order handoff = refl
source_at-source_order qa = refl
source_at-source_order linkage = refl
source_at-source_order catalog = refl
source_at-source_order decomp = refl

has_status-PassesStatus :
    (f : TaskStatusFilter) (t : TaskRecord) → has_status f t ≡ true → PassesStatus f t
has_status-PassesStatus all_statuses t h = tt
has_status-PassesStatus (only_status s) t h =
    sym (status_at-status_order t.status)
    ∙ ap status_at (eqb→eq (status_order t.status) (status_order s) h)
    ∙ status_at-status_order s

has_source-PassesSource :
    (f : TaskSourceFilter) (t : TaskRecord) → has_source f t ≡ true → PassesSource f t
has_source-PassesSource all_sources t h = tt
has_source-PassesSource (only_source s) t h =
    sym (source_at-source_order t.source_kind)
    ∙ ap source_at (eqb→eq (source_order t.source_kind) (source_order s) h)
    ∙ source_at-source_order s

-- A task that passes both filters.
abbrev pub Passes : TaskStatusFilter → TaskSourceFilter → TaskRecord → Type 0
Passes st so t = PassesStatus st t × PassesSource so t

is_selected-Passes :
    (st : TaskStatusFilter) (so : TaskSourceFilter) (t : TaskRecord)
    → is_selected st so t ≡ true
    → Passes st so t
is_selected-Passes st so t h =
    let (p, q) = and_both (has_status st t) (has_source so t) h in
    (has_status-PassesStatus st t p, has_source-PassesSource so t q)

module _ (lib : Library) (disk : Disk) (snapshot : Snapshot) where
  abbrev commit : String
  commit = snapshot.manifest.commit

  -- A task list for the texts of two filters and a limit.
  pub record IsListed (index : Index) (status source : String) (limit : ℤ) (found : TaskList)
      : Type 0 where
    pub status_is : status_filter status ≡ some found.status
    pub source_is : source_filter source ≡ some found.source
    pub limit_bound : pos_part limit ≤ 100
    pub few : length found.tasks ≤ pos_part limit
    pub count_is : found.count ≡ length found.tasks
    pub matches :
        All (λ (t : TaskRecord). is_selected found.status found.source t ≡ true) found.tasks
    pub passes : All (Passes found.status found.source) found.tasks
    pub of_index : All (λ (t : TaskRecord). get_task index t.id ≡ some t) found.tasks
    pub recorded : All (IsTask commit) found.tasks

  found_filter-returns {ℓ} :
      {A : Type ℓ} (o : Option A) (a : A) → found_filter o ≡ returns a → o ≡ some a
  found_filter-returns none a h = cc
  found_filter-returns (some b) a h = ap some (returns_inj b a h)

  limit_fits : (limit : ℤ) → leb_ℤ limit (pos max_task_limit) ≡ true → pos_part limit ≤ 100
  limit_fits (pos n) h = ground arith
  limit_fits (negsuc n) h = omega arith

  All-selected {κ} :
      (P : TaskRecord → Type κ) (st : TaskStatusFilter) (so : TaskSourceFilter)
      (tasks : List TaskRecord)
      → All P tasks
      → All P (selected st so tasks)
  unfolding selected
  All-selected P st so [] h = tt
  All-selected P st so (t ∷ tasks) h = elim (Bool-cases (is_selected st so t)) [
    | inl e ↦ rw (selected, e) (h.0, All-selected P st so tasks h.1)
    | inr e ↦ rw (selected, e) (All-selected P st so tasks h.1)
  ]

  selected-matches :
      (st : TaskStatusFilter) (so : TaskSourceFilter) (tasks : List TaskRecord)
      → All (λ (t : TaskRecord). is_selected st so t ≡ true) (selected st so tasks)
  unfolding selected
  selected-matches st so [] = tt
  selected-matches st so (t ∷ tasks) = elim (Bool-cases (is_selected st so t)) [
    | inl e ↦ rw (selected, e) (e, selected-matches st so tasks)
    | inr e ↦ rw (selected, e) (selected-matches st so tasks)
  ]

  -- What list_tasks returns of an index that is built: the filters are those that the texts name, the limit
  -- is at most 100, the count is that of the tasks, there are no more of them than the limit, each of them
  -- passes both filters, get_task returns it for its id, and its texts and its citation are as in the index.
  pub list_tasks-IsListed :
      (index : Index) (status source : String) (limit : ℤ) (found : TaskList)
      → build lib disk snapshot ≡ returns index
      → list_tasks index status source limit ≡ returns found
      → IsListed index status source limit found
  unfolding list_tasks
  list_tasks-IsListed index status source limit found h e =
      let (st, is_st, e1) = after-returns (found_filter (status_filter status)) _ e in
      let (so, is_so, e2) = after-returns (found_filter (source_filter source)) _ e1 in
      let (fits, e3) =
        check-returns (not (leb_ℤ (pos 1) limit && leb_ℤ limit (pos max_task_limit))) limit_refused
          _ e2 in
      let limits =
        and_both (leb_ℤ (pos 1) limit) (leb_ℤ limit (pos max_task_limit))
          (not-false (leb_ℤ (pos 1) limit && leb_ℤ limit (pos max_task_limit)) fits) in
      let n = pos_part limit in
      let all = selected st so index.tasks in
      returned (IsListed index status source limit) _ found e3 (record {
        status_is = found_filter-returns (status_filter status) st is_st;
        source_is = found_filter-returns (source_filter source) so is_so;
        limit_bound = limit_fits limit limits.1;
        few = length-take n all;
        count_is = refl;
        matches =
            All-take (λ (t : TaskRecord). is_selected st so t ≡ true) n all
              (selected-matches st so index.tasks);
        passes =
            All-take (Passes st so) n all
              (All-map (is_selected-Passes st so) all (selected-matches st so index.tasks));
        of_index =
            All-take (λ (t : TaskRecord). get_task index t.id ≡ some t) n all
              (All-selected (λ (t : TaskRecord). get_task index t.id ≡ some t) st so index.tasks
                (build-IsIndex lib disk snapshot index h).found);
        recorded = All-take (IsTask commit) n all (
            All-selected (IsTask commit) st so index.tasks
              ((build-HasTasks lib disk snapshot).given index h).listed);
      })

-- ===== src/TaskIndex/Unique.antt =====
-- The order of the tasks of an index, and looking one up.
use jn_engine_contributor_mc.Base.{
  ◌≤◌, String, true, false, not, some, List, [], ◌∷◌, ◌≡◌, refl, ◌∙◌, arith, eq_iff, eq_refl,
  Bool-cases, inl, inr, ltb, not-false, and_both, ltb_false→le,
}
use jn_engine_contributor_mc.Base.Lists.{All, all, any, length}
use jn_engine_contributor_mc.Base.Sort.{insert_sorted, sort}
use jn_engine_contributor_mc.Base.Sort.Kept.{All-insert_sorted, All-sort, length-sort}
use jn_engine_contributor_mc.Base.Sort.Ordered.{text_leb_total, IsOrdered, sort-IsOrdered}
use jn_engine_contributor_mc.Python.Dict.{Dict, lookup, insert, lookup-insert}
use jn_engine_contributor_mc.Corpus.{returns, after, check-returns, returned, after-returns}
use jn_engine_contributor_mc.Corpus.Snapshot.{Snapshot}
use jn_engine_contributor_mc.Corpus.Reads.{Disk}
use jn_engine_contributor_mc.Search.{task_source_paths}
use jn_engine_contributor_mc.TaskIndex.{TaskRecord, Library, max_tasks}
use jn_engine_contributor_mc.TaskIndex.Index.{
  Index, task_leb, other_id, has_unique_ids, by_id, index_of, missing_source, missing_sources,
  all_tasks, build, get_task,
}

abbrev IsOther : String → TaskRecord → Type 0
IsOther id task = other_id id task ≡ true

abbrev HasUniqueIds : List TaskRecord → Type 0
HasUniqueIds [] = Unit
HasUniqueIds (task ∷ tasks) = All (IsOther task.id) tasks × HasUniqueIds tasks

all-other_id :
    (id : String) (tasks : List TaskRecord)
    → all (other_id id) tasks ≡ true
    → All (IsOther id) tasks
all-other_id id [] h = tt
all-other_id id (t ∷ tasks) h =
    let (p, q) = and_both (other_id id t) (all (other_id id) tasks) h in
    (p, all-other_id id tasks q)

has_unique_ids_sound : (tasks : List TaskRecord) → has_unique_ids tasks ≡ true → HasUniqueIds tasks
unfolding has_unique_ids
has_unique_ids_sound [] h = tt
has_unique_ids_sound (t ∷ tasks) h =
    let (p, q) = and_both (all (other_id t.id) tasks) (has_unique_ids tasks) h in
    (all-other_id t.id tasks p, has_unique_ids_sound tasks q)

IsOther-sym : (t u : TaskRecord) → IsOther t.id u → IsOther u.id t
IsOther-sym t u h = ground (arith, eq_iff t.id u.id, eq_iff u.id t.id)

insert_sorted-HasUniqueIds :
    (t : TaskRecord) (tasks : List TaskRecord)
    → All (IsOther t.id) tasks
    → HasUniqueIds tasks
    → HasUniqueIds (insert_sorted task_leb t tasks)
unfolding insert_sorted
insert_sorted-HasUniqueIds t [] h k = (tt, tt)
insert_sorted-HasUniqueIds t (u ∷ tasks) h k = elim (Bool-cases (task_leb t u)) [
  | inl e ↦ rw (insert_sorted, e) (h, k)
  | inr e ↦
      rw (insert_sorted, e)
        (All-insert (IsOther-sym t u h.0) k.0, insert_sorted-HasUniqueIds t tasks h.1 k.1)
]
  where
    All-insert :
        IsOther u.id t
        → All (IsOther u.id) tasks
        → All (IsOther u.id) (insert_sorted task_leb t tasks)
    All-insert p q = All-insert_sorted task_leb (IsOther u.id) t tasks p q

sort-HasUniqueIds :
    (tasks : List TaskRecord) → HasUniqueIds tasks → HasUniqueIds (sort task_leb tasks)
unfolding sort
sort-HasUniqueIds [] h = tt
sort-HasUniqueIds (t ∷ tasks) h =
    insert_sorted-HasUniqueIds t (sort task_leb tasks) (All-sort task_leb (IsOther t.id) tasks h.0)
      (sort-HasUniqueIds tasks h.1)

task_leb_total : (a b : TaskRecord) → task_leb a b ≡ false → task_leb b a ≡ true
task_leb_total a b h = ground (arith, text_leb_total a.id b.id)

-- An entry whose id none of the tasks has stays.
by_id-kept :
    (tasks : List TaskRecord) (found : Dict TaskRecord) (id : String)
    → All (IsOther id) tasks
    → lookup id (by_id found tasks) ≡ lookup id found
unfolding by_id
by_id-kept [] found id h = refl
by_id-kept (t ∷ tasks) found id h =
    by_id-kept tasks (insert t.id t found) id h.1
    ∙ (lookup-insert t.id id t found ∙ ground (arith, h.0))

by_id-found :
    (tasks : List TaskRecord) (found : Dict TaskRecord)
    → HasUniqueIds tasks
    → All (λ (t : TaskRecord). lookup t.id (by_id found tasks) ≡ some t) tasks
unfolding by_id
by_id-found [] found h = tt
by_id-found (t ∷ tasks) found h = (
  by_id-kept tasks (insert t.id t found) t.id h.0
      ∙ (lookup-insert t.id t.id t found ∙ rw (eq_refl t.id) refl),
  by_id-found tasks (insert t.id t found) h.1,
)

-- An index of some tasks: it has all of them, at most 10,000, in the order of the sort key, and finds
-- each of them by its id.
pub record IsIndex (index : Index) : Type 0 where
  pub few : length index.tasks ≤ max_tasks
  pub ordered : IsOrdered task_leb index.tasks
  pub found : All (λ (t : TaskRecord). get_task index t.id ≡ some t) index.tasks

index_of-IsIndex :
    (tasks : List TaskRecord) (index : Index) → index_of tasks ≡ returns index → IsIndex index
unfolding index_of get_task
index_of-IsIndex tasks index h =
    let (few, h1) = check-returns (ltb max_tasks (length tasks)) _ _ h in
    let (unique, h2) = check-returns (not (has_unique_ids tasks)) _ _ h1 in
    let ids =
      sort-HasUniqueIds tasks
        (has_unique_ids_sound tasks (not-false (has_unique_ids tasks) unique)) in
    let size = length-sort task_leb tasks in
    returned IsIndex _ index h2 (record {
      few = omega (arith, size, ltb_false→le max_tasks (length tasks) few);
      ordered = sort-IsOrdered task_leb task_leb_total tasks;
      found = by_id-found (sort task_leb tasks) [] ids;
    })

-- An index that `TaskIndex` builds has at most 10,000 tasks, in the order of the sort key; and
-- get_task returns each of them for its id, which no two tasks share.
pub build-IsIndex :
    (lib : Library) (disk : Disk) (snapshot : Snapshot) (index : Index)
    → build lib disk snapshot ≡ returns index
    → IsIndex index
unfolding build
build-IsIndex lib disk snapshot index h =
    let (present, h1) =
      check-returns (any (missing_source snapshot) task_source_paths) missing_sources
        (after index_of (all_tasks lib disk snapshot)) h in
    let (tasks, read, h2) = after-returns (all_tasks lib disk snapshot) index_of h1 in
    index_of-IsIndex tasks index h2

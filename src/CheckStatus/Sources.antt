-- ===== src/CheckStatus/Sources.antt =====
-- The runs and the jobs that a call of core/check_status.py has read from GitHub.
use Prim.Native.String.{◌++◌ as ◌<>◌}
use jn_engine_contributor_mc.Base.{
  ◌≡◌, ltb, subst, inl, inr, String, some, List, [], ◌∷◌, ◌++◌, arith, Option-cases,
}
use jn_engine_contributor_mc.Base.Int.{ℤ, pos}
use jn_engine_contributor_mc.Base.Lists.{All}
use jn_engine_contributor_mc.Base.Sort.{sort, second_of}
use jn_engine_contributor_mc.Base.Sort.Kept.{All-sort, All-second_of}
use jn_engine_contributor_mc.Python.Json.{
  Json, int, arr, str, obj, Fields, end, field, Items, nil, cons, get, as_int,
}
use jn_engine_contributor_mc.Python.Result.{raise_if, ok, >>=-eq-ok}
use jn_engine_contributor_mc.Github.{Request, Remote, Library}
use jn_engine_contributor_mc.Github.Session.{get_request}
use jn_engine_contributor_mc.Github.Answered.{Answered, Answered-more}
use jn_engine_contributor_mc.CheckStatus.{Conversions}
use jn_engine_contributor_mc.CheckStatus.Steps.{
  require_dict, require_list, require_count, items_length, unavailable, dicts, Keyed, later, get_or,
  keyed, newest_first, whole_page,
}
use jn_engine_contributor_mc.CheckStatus.Reads.{ItemIn, require_dict-is}
use jn_engine_contributor_mc.CheckStatus.Service.{repository_path, run_parts}

module _ (lib : Library) (remote : Remote) (conv : Conversions) where
  -- The requests for the runs of a commit and for the jobs of a run.
  abbrev pub runs_request : String → Request
  runs_request commit =
      get_request lib remote (repository_path <> "/actions/runs")
        (field "head_sha" (str commit) (field "per_page" (int (pos 100)) end))

  abbrev pub jobs_request : Json → Request
  jobs_request run_id =
      get_request lib remote
        (repository_path <> ("/actions/runs/" <> (conv.to_str run_id <> "/jobs")))
        (field "filter" (str "latest") (field "per_page" (int (pos 100)) end))

  module _ (sent : List Request) (commit : String) where
    -- GitHub listed the run among those of the commit.
    pub record IsRun (run : Fields) : Type 0 where
      pub payload : Fields
      pub page : Items
      pub answered : Answered remote sent (runs_request commit) payload
      pub page_is : get payload "workflow_runs" ≡ arr page
      pub listed : ItemIn (obj run) page

    -- GitHub listed the job among those of the run, which is one of the commit.
    pub record IsJob (number : ℤ) (run_id : Json) (run_url : String) (job : Fields) : Type 0 where
      pub run : Fields
      pub payload : Fields
      pub jobs : Items
      pub run_is : IsRun run
      pub id_is : get run "id" ≡ run_id
      pub number_is : as_int run_id ≡ some number
      pub url_is : get run "html_url" ≡ str run_url
      pub answered : Answered remote sent (jobs_request run_id) payload
      pub jobs_are : get payload "jobs" ≡ arr jobs
      pub listed : ItemIn (obj job) jobs

  module _ (sent s more : List Request) (grown : s ≡ sent ++ more) (commit : String) where
    pub IsRun-more : (run : Fields) → IsRun sent commit run → IsRun s commit run
    IsRun-more run r = record {
      payload = r.payload;
      page = r.page;
      answered = Answered-more s more grown r.answered;
      page_is = r.page_is;
      listed = r.listed;
    }

    pub IsJob-more :
        (number : ℤ) (run_id : Json) (run_url : String) (job : Fields)
        → IsJob sent commit number run_id run_url job
        → IsJob s commit number run_id run_url job
    IsJob-more number run_id run_url job j = record {
      run = j.run;
      payload = j.payload;
      jobs = j.jobs;
      run_is = IsRun-more j.run j.run_is;
      id_is = j.id_is;
      number_is = j.number_is;
      url_is = j.url_is;
      answered = Answered-more s more grown j.answered;
      jobs_are = j.jobs_are;
      listed = j.listed;
    }

pub require_list-is : (v : Json) (xs : Items) → require_list v ≡ ok xs → v ≡ arr xs
unfolding require_list
require_list-is v xs h = ground arith

pub whole_page-is : (total v : Json) (xs : Items) → whole_page total v ≡ ok xs → v ≡ arr xs
unfolding whole_page
whole_page-is total v xs h =
    let (page, p, q) = >>=-eq-ok (require_list v) _ h in
    let (count, p2, q2) = >>=-eq-ok (require_count total) _ q in
    let (u, p3, q3) = >>=-eq-ok (raise_if (ltb (items_length page) count) unavailable) _ q2 in
    let same : page ≡ xs = cc (q3) in
    subst (λ (ys : Items). v ≡ arr ys) same (require_list-is v page p)

-- A run has a number and an address.
abbrev pub IsNumbered : Fields → ℤ × String → Type 0
IsNumbered run parts = (as_int (get run "id") ≡ some parts.0) × (get run "html_url" ≡ str parts.1)

pub run_parts-IsNumbered :
    (lib : Library) (remote : Remote) (conv : Conversions) (run : Fields) (parts : ℤ × String)
    → run_parts lib remote conv run ≡ ok parts
    → IsNumbered run parts
run_parts-IsNumbered lib remote conv run (number, url) h = (ground arith, ground arith)

-- What holds of each item of a list holds of all runs of it.
dicts-All :
    (P : Fields → Type 0) (xs : Items) (runs : List Fields)
    → ((run : Fields) → ItemIn (obj run) xs → P run)
    → dicts xs ≡ ok runs
    → All P runs
unfolding dicts
dicts-All P nil runs h e = let same : [] ≡ runs = cc (e) in subst (All P) same tt
dicts-All P (cons x xs) runs h e =
    let (run, p, q) = >>=-eq-ok (require_dict x) _ e in
    let (rest, p2, q2) = >>=-eq-ok (dicts xs) _ q in
    let same : run ∷ rest ≡ runs = cc (q2) in
    subst (All P) same
      (h run (inl (require_dict-is x run p)), dicts-All P xs rest (λ r i. h r (inr i)) p2)

module _ (P : Fields → Type 0) (conv : Conversions) where
  keyed-All :
      (runs : List Fields) (ks : List Keyed)
      → All P runs
      → keyed conv runs ≡ ok ks
      → All (λ (k : Keyed). P k.1) ks
  unfolding keyed
  keyed-All [] ks h = λ e. let same : [] ≡ ks = cc (e) in subst (All (λ (k : Keyed). P k.1)) same tt
  keyed-All (run ∷ runs) ks h = elim (Option-cases (conv.to_int (get_or run "id" (int (pos 0))))) [
    | inl w ↦ rw (keyed, w) (λ e. cc)
    | inr (id, w) ↦
        rw (keyed, w)
          (λ e.
            let (rest, p, q) = >>=-eq-ok (keyed conv runs) _ e in
            let same : ((conv.to_str (get_or run "created_at" (str "")), id), run) ∷ rest ≡ ks =
              cc (q) in
            subst (All (λ (k : Keyed). P k.1)) same (h.0, keyed-All runs rest h.1 p))
  ]

  pub newest_first-All :
      (page : Items) (unsorted runs : List Fields)
      → ((run : Fields) → ItemIn (obj run) page → P run)
      → dicts page ≡ ok unsorted
      → newest_first conv unsorted ≡ ok runs
      → All P runs
  unfolding newest_first
  newest_first-All page unsorted runs h e k =
      let (ks, p, q) = >>=-eq-ok (keyed conv unsorted) _ k in
      let same : second_of (sort later ks) ≡ runs = cc (q) in
      subst (All P) same (
        All-second_of P (sort later ks) (
          All-sort later (λ (x : Keyed). P x.1) ks
            (keyed-All unsorted ks (dicts-All P page unsorted h e) p)))

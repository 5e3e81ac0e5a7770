-- ===== src/CheckStatus/Reads.antt =====
-- Where the contexts of core/check_status.py come from.
use jn_engine_contributor_mc.Base.{
  String, ◌≡◌, refl, subst, ◌⊎◌, sym, ap, ◌∙◌, inl, inr, Bool-cases, some, Option-cases, arith,
}
use jn_engine_contributor_mc.Base.Int.{ℤ}
use jn_engine_contributor_mc.Python.Json.{Json, str, obj, Fields, Items, nil, cons, get}
use jn_engine_contributor_mc.Python.Result.{ok, >>=-eq-ok}
use jn_engine_contributor_mc.Python.Dict.{Dict, lookup, insert, found-insert}
use jn_engine_contributor_mc.CheckStatus.{RequiredContext}
use jn_engine_contributor_mc.CheckStatus.Steps.{
  Found, required_name, is_found, context_of, add_job, add_jobs, require_dict,
}

-- A value is one of the items of a list of JSON values.
abbrev pub ItemIn : Json → Items → Type 0
ItemIn v nil = ⊥
ItemIn v (cons x xs) = (x ≡ v) ⊎ ItemIn v xs

pub require_dict-is : (v : Json) (d : Fields) → require_dict v ≡ ok d → v ≡ obj d
unfolding require_dict
require_dict-is v d h = ground arith

required_name-eq : (v : Json) {name : String} → required_name v ≡ some name → v ≡ str name
required_name-eq v h = ground arith

module _ (number : ℤ) (run_id : Json) (run_url : String) where
  -- A job adds nothing, or its own report.
  add_job-cases :
      (found : Found) (job : Fields)
      → ((add_job number run_id run_url found job).contexts ≡ found.contexts)
        ⊎ ((n : String) × (get job "name" ≡ str n)
            × ((add_job number run_id run_url found job).contexts
                ≡ insert n (context_of number run_id run_url job) found.contexts))
  unfolding add_job
  add_job-cases found job = elim (Option-cases (required_name (get job "name"))) [
    | inl e ↦ inl (rw (e, add_job) refl)
    | inr (n, e) ↦ elim (Bool-cases (is_found (lookup n found.contexts))) [
      | inl there ↦ inl (rw (e, add_job, there) refl)
      | inr new ↦ inr (n, required_name-eq (get job "name") e, rw (e, add_job, new) refl)
    ]
  ]

-- The contexts so far, where `Source` tells what a job of a run is known by.
module _ (Source : ℤ → Json → String → Fields → Type 0) where
  -- The context is the report of a job of this name.
  pub record IsReport (name : String) (c : RequiredContext) : Type 0 where
    pub number : ℤ
    pub run_id : Json
    pub run_url : String
    pub job : Fields
    pub source : Source number run_id run_url job
    pub named : get job "name" ≡ str name
    pub said : c ≡ context_of number run_id run_url job

  abbrev pub AllReports : Found → Type 0
  AllReports found =
      (name : String) (c : RequiredContext) → lookup name found.contexts ≡ some c → IsReport name c

  module _ (number : ℤ) (run_id : Json) (run_url : String) where
    insert-Reports :
        (n name : String) (job : Fields) (c : RequiredContext) (contexts : Dict RequiredContext)
        → Source number run_id run_url job
        → get job "name" ≡ str n
        → (lookup name contexts ≡ some c → IsReport name c)
        → lookup name (insert n (context_of number run_id run_url job) contexts) ≡ some c
        → IsReport name c
    insert-Reports n name job c contexts known named all h =
        elim (found-insert n name (context_of number run_id run_url job) c contexts h) [
          | inr before ↦ all before
          | inl (name_is, same) ↦ record {
            number = number;
            run_id = run_id;
            run_url = run_url;
            job = job;
            source = known;
            named = named ∙ ap str name_is;
            said = sym same;
          }
        ]

    add_job-AllReports :
        (found : Found) (job : Fields)
        → Source number run_id run_url job
        → AllReports found
        → AllReports (add_job number run_id run_url found job)
    add_job-AllReports found job known all name c h =
        elim (add_job-cases number run_id run_url found job) [
          | inl same ↦ all name c (ap (lookup name) (sym same) ∙ h)
          | inr (n, named, added) ↦
              insert-Reports n name job c found.contexts known named (all name c)
                (ap (lookup name) (sym added) ∙ h)
        ]

    pub add_jobs-AllReports :
        (found : Found) (jobs : Items) {found' : Found}
        → ((job : Fields) → ItemIn (obj job) jobs → Source number run_id run_url job)
        → AllReports found
        → add_jobs number run_id run_url found jobs ≡ ok found'
        → AllReports found'
    unfolding add_jobs
    add_jobs-AllReports found nil {found' = found'} known all h =
        let same : found ≡ found' = cc (h) in subst AllReports same all
    add_jobs-AllReports found (cons raw rest) known all h =
        let (job, p, q) = >>=-eq-ok (require_dict raw) _ h in
        add_jobs-AllReports (add_job number run_id run_url found job) rest
          (λ other there. known other (inr there))
          (add_job-AllReports found job (known job (inl (require_dict-is raw job p))) all) q

-- What is known of the jobs may be known by more.
pub AllReports-more :
    {P Q : ℤ → Json → String → Fields → Type 0}
    → ((number : ℤ) (run_id : Json) (run_url : String) (job : Fields)
        → P number run_id run_url job
        → Q number run_id run_url job)
    → (found : Found) → AllReports P found
    → AllReports Q found
AllReports-more f found all name c h =
    let r = all name c h in
    record {
      number = r.number;
      run_id = r.run_id;
      run_url = r.run_url;
      job = r.job;
      source = f r.number r.run_id r.run_url r.job r.source;
      named = r.named;
      said = r.said;
    }

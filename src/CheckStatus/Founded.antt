-- ===== src/CheckStatus/Founded.antt =====
-- What the contexts of core/check_status.py stand on, from the runs of a commit to the verdict.
use jn_engine_contributor_mc.Base.{
  String, ◌≡◌, refl, subst, sym, ap, ◌∙◌, inl, inr, Bool-cases, Option, none, some, List, [], ◌∷◌,
  arith,
}
use jn_engine_contributor_mc.Base.Lists.{All, All-map}
use jn_engine_contributor_mc.Base.Int.{ℤ}
use jn_engine_contributor_mc.Python.Json.{Json, str, Fields, get}
use jn_engine_contributor_mc.Python.Result.{Result, ok}
use jn_engine_contributor_mc.Python.Dict.{lookup}
use jn_engine_contributor_mc.Github.{Request, Remote, Library}
use jn_engine_contributor_mc.Github.Session.{Api, lift}
use jn_engine_contributor_mc.Github.Answered.{
  Yields, Yields-lift, Yields-bind, get-Yields, Answered-more,
}
use jn_engine_contributor_mc.CheckStatus.{
  success, RequiredContext, StatusArtifact, Contexts, Conversions,
}
use jn_engine_contributor_mc.CheckStatus.Verdict.{context_state}
use jn_engine_contributor_mc.CheckStatus.Gate.{context_state-success_iff}
use jn_engine_contributor_mc.CheckStatus.Steps.{
  Found, nothing_found, add_artifacts, sorted_artifacts, sorted_runs, contexts_of, dicts,
  newest_first, or_missing, require_count, require_list,
}
use jn_engine_contributor_mc.CheckStatus.Reads.{
  IsReport, AllReports, AllReports-more, add_jobs-AllReports,
}
use jn_engine_contributor_mc.CheckStatus.Sources.{
  IsRun, IsJob, IsRun-more, IsJob-more, require_list-is, whole_page-is, run_parts-IsNumbered,
  newest_first-All,
}
use jn_engine_contributor_mc.CheckStatus.Service.{
  scan_run, is_complete, scan_runs, run_parts, list_artifacts, check_page, contexts_and_artifacts,
}

nothing-AllReports :
    (Source : ℤ → Json → String → Fields → Type 0) → AllReports Source nothing_found
unfolding lookup
nothing-AllReports Source name c h = cc

module _ (lib : Library) (remote : Remote) (conv : Conversions) where
  -- The context is the report of a job of this name, which GitHub listed for a run that it listed for the
  -- commit, and which is completed with the conclusion success.
  abbrev pub IsGreen : List Request → String → String → RequiredContext → Type 0
  IsGreen sent commit name c =
      (r : IsReport (IsJob lib remote conv sent commit) name c) × (get r.job "status"
        ≡ str "completed")
      × (get r.job "conclusion" ≡ str "success")

  -- Each context that is a success is green.
  abbrev pub Founded : List Request → String → Contexts → Type 0
  Founded sent commit c =
      (c.core.state ≡ success → IsGreen sent commit "core" c.core)
      × (c.assets.state ≡ success → IsGreen sent commit "assets" c.assets)

  abbrev Reports : String → List Request → Found → Type 0
  Reports commit sent found = AllReports (IsJob lib remote conv sent commit) found

  abbrev Runs : String → List Request → List Fields → Type 0
  Runs commit sent runs = All (IsRun lib remote conv sent commit) runs

  green :
      (sent : List Request) (commit name : String) (c : RequiredContext)
      → IsReport (IsJob lib remote conv sent commit) name c
      → c.state ≡ success
      → IsGreen sent commit name c
  green sent commit name c r h =
      let state : context_state r.job ≡ success = sym (ap (λ x. x.state) r.said) ∙ h in
      let (status, conclusion) = (context_state-success_iff r.job).0 state in
      (r, status, conclusion)

  module _ (sent : List Request) (commit : String) (found : Found)
      (all : Reports commit sent found) where
    found-IsGreen :
        (name : String) (o : Option RequiredContext)
        → lookup name found.contexts ≡ o
        → (or_missing o).state ≡ success
        → IsGreen sent commit name (or_missing o)
    found-IsGreen name none e h = ground arith
    found-IsGreen name (some c) e h = green sent commit name c (all name c e) h

    contexts_of-Founded : Founded sent commit (contexts_of found.contexts)
    unfolding contexts_of
    contexts_of-Founded = (found-IsGreen "core" _ refl, found-IsGreen "assets" _ refl)

  -- A step of which only the requests are known, and the value that it returns.
  step :
      {A : Type 0} (r : Result A) (before : List Request)
      → Yields (lift r) before (λ sent a. r ≡ ok a)
  step r before = Yields-lift r before (λ a e. e)

  abbrev pub Steps {ℓ} : {A : Type ℓ} → Api A → List Request → Type ℓ
  Steps m before = Yields m before (λ sent a. Unit)

  pub plain_step {ℓ} : {A : Type ℓ} (r : Result A) (before : List Request) → Steps (lift r) before
  plain_step r before = Yields-lift r before (λ a e. tt)

  module _ (commit : String) where
    scan_run-Reports :
        (found : Found) (run : Fields) (before : List Request)
        → IsRun lib remote conv before commit run
        → Reports commit before found
        → Yields (scan_run lib remote conv found run) before (Reports commit)
    unfolding scan_run
    scan_run-Reports found run before is_run all =
        Yields-bind _ _ (step (run_parts lib remote conv run) before) λ parts s₁ m₁ g₁ numbered.
          Yields-bind _ _ (get-Yields lib remote _ _ _ s₁) λ payload s₂ m₂ g₂ answered.
            Yields-bind _ _ (step _ s₂) λ jobs s₃ m₃ g₃ page.
              let (number, url) = run_parts-IsNumbered lib remote conv run parts numbered in
              let run₁ = IsRun-more lib remote conv before s₁ m₁ g₁ commit run is_run in
              let run₂ = IsRun-more lib remote conv s₁ s₂ m₂ g₂ commit run run₁ in
              let run₃ = IsRun-more lib remote conv s₂ s₃ m₃ g₃ commit run run₂ in
              let all₁ =
                AllReports-more (IsJob-more lib remote conv before s₁ m₁ g₁ commit) found all in
              let all₂ =
                AllReports-more (IsJob-more lib remote conv s₁ s₂ m₂ g₂ commit) found all₁ in
              let all₃ =
                AllReports-more (IsJob-more lib remote conv s₂ s₃ m₃ g₃ commit) found all₂ in
              Yields-lift _ s₃ (λ found' e.
                add_jobs-AllReports (IsJob lib remote conv s₃ commit) parts.0 (get run "id") parts.1
                  found jobs
                  (λ job there. record {
                    run = run;
                    payload = payload;
                    jobs = jobs;
                    run_is = run₃;
                    id_is = refl;
                    number_is = number;
                    url_is = url;
                    answered = Answered-more s₃ m₃ g₃ answered;
                    jobs_are = whole_page-is _ _ jobs page;
                    listed = there;
                  })
                  all₃ e)

    scan_runs-Reports :
        (runs : List Fields) (found : Found) (before : List Request)
        → Runs commit before runs
        → Reports commit before found
        → Yields (scan_runs lib remote conv found runs) before (Reports commit)
    unfolding scan_runs
    scan_runs-Reports [] found before listed all =
        Yields-lift (ok found) before
          (λ found' e. let same : found ≡ found' = cc (e) in subst (Reports commit before) same all)
    scan_runs-Reports (run ∷ runs) found before listed all =
        Yields-bind _ _ (scan_run-Reports found run before listed.0 all) λ found' s m g all'.
          elim (Bool-cases (is_complete lib remote conv found')) [
            | inl e ↦ rw e (
                Yields-lift (ok found') s (λ last q.
                  let same : found' ≡ last = cc (q) in subst (Reports commit s) same all'))
            | inr e ↦ rw e (
                scan_runs-Reports runs found' s
                  (All-map (IsRun-more lib remote conv before s m g commit) runs listed.1) all')
          ]

  list_artifacts-Steps :
      (runs : List (ℤ × Json)) (found : List (ℤ × StatusArtifact)) (before : List Request)
      → Steps (list_artifacts lib remote conv found runs) before
  unfolding list_artifacts
  list_artifacts-Steps [] found before = plain_step (ok found) before
  list_artifacts-Steps ((number, run_id) ∷ runs) found before =
      Yields-bind _ _ (get-Yields lib remote _ _ _ before) λ payload s m g a.
        Yields-bind _ _ (plain_step _ s) λ items s₁ m₁ g₁ b.
          Yields-bind _ _ (plain_step (add_artifacts found items) s₁)
            λ found' s₂ m₂ g₂ c. list_artifacts-Steps runs found' s₂

  pub contexts-Founded :
      (commit : String) (before : List Request)
      → Yields
          (contexts_and_artifacts lib remote conv commit)
          before
          (λ sent p. Founded sent commit p.0)
  unfolding contexts_and_artifacts
  contexts-Founded commit before =
      Yields-bind _ _ (get-Yields lib remote _ _ _ before) λ payload s₀ m₀ g₀ answered.
        Yields-bind _ _ (plain_step (require_count (get payload "total_count")) s₀)
          λ total s₁ m₁ g₁ u₁.
            Yields-bind _ _ (step (require_list (get payload "workflow_runs")) s₁)
              λ page s₂ m₂ g₂ is_page.
                Yields-bind _ _ (step (dicts page) s₂) λ unsorted s₃ m₃ g₃ are_dicts.
                  Yields-bind _ _ (step (newest_first conv unsorted) s₃) λ runs s₄ m₄ g₄ are_sorted.
                    let a₁ = Answered-more s₁ m₁ g₁ answered in
                    let a₂ = Answered-more s₂ m₂ g₂ a₁ in
                    let a₃ = Answered-more s₃ m₃ g₃ a₂ in
                    let a₄ = Answered-more s₄ m₄ g₄ a₃ in
                    let listed =
                      newest_first-All (IsRun lib remote conv s₄ commit) conv page unsorted runs
                        (λ run there. record {
                          payload = payload;
                          page = page;
                          answered = a₄;
                          page_is = require_list-is (get payload "workflow_runs") page is_page;
                          listed = there;
                        })
                        are_dicts are_sorted in
                    Yields-bind _ _
                      (scan_runs-Reports commit runs nothing_found s₄ listed (nothing-AllReports _))
                      λ found s₅ m₅ g₅ all.
                        Yields-bind _ _
                          (plain_step (check_page lib remote conv total page found) s₅)
                          λ u s₆ m₆ g₆ v.
                            Yields-bind _ _ (list_artifacts-Steps (sorted_runs found.runs) [] s₆)
                              λ artifacts s₇ m₇ g₇ w.
                                let all₆ =
                                  AllReports-more (IsJob-more lib remote conv s₅ s₆ m₆ g₆ commit)
                                    found all in
                                let all₇ =
                                  AllReports-more (IsJob-more lib remote conv s₆ s₇ m₇ g₇ commit)
                                    found all₆ in
                                Yields-lift
                                  (ok (contexts_of found.contexts, sorted_artifacts artifacts)) s₇
                                  (λ p e.
                                    let same : (
                                      contexts_of found.contexts,
                                      sorted_artifacts artifacts,
                                    )
                                        ≡ p =
                                      cc (e) in
                                    subst (λ q. Founded s₇ commit q.0) same
                                      (contexts_of-Founded s₇ commit found all₇))

-- ===== src/CheckStatus/Service.antt =====
-- `CheckStatusService.check` of core/check_status.py, and its steps on GitHub.
use Prim.Native.String.{◌++◌}
use jn_engine_contributor_mc.Base.{
  ℕ, String, Bool, true, false, ◌&&◌, Option, none, some, List, [], ◌∷◌, ltb, eqb, if◌then◌else◌,
}
use jn_engine_contributor_mc.Base.Int.{ℤ, pos}
use jn_engine_contributor_mc.Base.Lists.{length}
use jn_engine_contributor_mc.Base.Text.{quote}
use jn_engine_contributor_mc.Python.Json.{
  Json, null, int, arr, str, obj, Fields, end, field, Items, nil, cons, as_text, as_int,
  text_or_null,
}
use jn_engine_contributor_mc.Python.Json
use jn_engine_contributor_mc.Python.Result.{
  CollaborationError, Exception, collaboration, audit_unavailable, other_exception,
  upstream_unavailable, credential_unavailable, code_text, Result, ok, err,
}
use jn_engine_contributor_mc.Audit.{File, Host, append}
use jn_engine_contributor_mc.Github.{Remote, Library, Trail}
use jn_engine_contributor_mc.Github.Session.{
  Api, ◌>>=◌, ◌>>◌, lift, note_head, get, new_trail, begin_session,
}
use jn_engine_contributor_mc.CheckStatus.{
  ContextState, queued, in_progress, success, failure, neutral, cancelled, timed_out, missing,
  OverallState, reported, blocked, StatusArtifact, Contexts, CheckStatus, required_contexts,
  Conversions,
}
use jn_engine_contributor_mc.CheckStatus.Verdict.{overall}
use jn_engine_contributor_mc.CheckStatus.Steps.{
  unavailable, is_null, is_commit, validate_request, require_dict, require_list, require_string,
  require_count, items_length, whole_page, dicts, newest_first, Found, nothing_found, add_jobs,
  contexts_of, add_artifacts, sorted_artifacts, sorted_runs,
}

abbrev pub repository_path : String
repository_path = "/repos/alexscott2718-gif/jn-engine"

abbrev nothing_safe : ℕ → Bool
nothing_safe c = false

module _ (lib : Library) (remote : Remote) (conv : Conversions) where
  abbrev pub head_sha : Fields → Api String
  head_sha payload = do
    object ← lift (require_dict (Json.get payload "object"))
    lift (require_string (Json.get object "sha"))

  -- The ref of a branch, and the commit that it is at; the branch is not `None` where no PR is given.
  abbrev pub branch_ref : Option String → Api (String × String)
  branch_ref none = lift (err other_exception)
  branch_ref (some b) = do
    payload ←
        get lib remote (repository_path ++ ("/git/ref/heads/" ++ quote nothing_safe b)) end false
    resolved ← head_sha payload
    lift (ok ("refs/heads/" ++ b, resolved))

  abbrev pub pull_ref : String → Api (String × String)
  pull_ref pr = do
    payload ← get lib remote (repository_path ++ ("/git/ref/pull/" ++ (pr ++ "/head"))) end false
    resolved ← head_sha payload
    lift (ok ("refs/pull/" ++ (pr ++ "/head"), resolved))

  abbrev pub full_sha : String → Result String
  full_sha sha = if is_commit (lib.lower sha) then ok (lib.lower sha) else err unavailable

  -- The commit that was asked for, as GitHub spells it.
  abbrev pub asked_commit : Option String → Api String
  asked_commit none = lift (err other_exception)
  asked_commit (some c) = do
    selected ← lift (full_sha c)
    payload ← get lib remote (repository_path ++ ("/commits/" ++ selected)) end false
    sha ← lift (require_string (Json.get payload "sha"))
    lift (ok (lib.lower sha))

  abbrev pub ref_of : Json → Json → Api (String × String)
  ref_of pr branch = if is_null pr then branch_ref (as_text branch) else pull_ref (conv.to_str pr)

  abbrev pub commit_of : Json → String → Api String
  commit_of commit resolved =
      if is_null commit then lift (full_sha resolved) else asked_commit (as_text commit)

  -- `_resolve`
  unfoldable pub resolve : Json → Json → Json → Api (String × String)
  resolve pr branch commit = do
    at ← ref_of pr branch
    selected ← commit_of commit at.1
    lift (ok (at.0, selected))

  -- `isinstance(run_id, int)` and `isinstance(run_url, str)`
  abbrev pub run_parts : Fields → Result (ℤ × String)
  run_parts run = elim (as_int (Json.get run "id")) [
    | none ↦ err unavailable
    | some number ↦ elim (as_text (Json.get run "html_url")) [
      | none ↦ err unavailable
      | some url ↦ ok (number, url)
    ]
  ]

  -- The body of the loop over the runs.
  unfoldable pub scan_run : Found → Fields → Api Found
  scan_run found run = do
    parts ← lift (run_parts run)
    payload ←
        get lib remote
          (repository_path ++ ("/actions/runs/" ++ (conv.to_str (Json.get run "id") ++ "/jobs")))
          (field "filter" (str "latest") (field "per_page" (int (pos 100)) end)) true
    jobs ← lift (whole_page (Json.get payload "total_count") (Json.get payload "jobs"))
    lift (add_jobs parts.0 (Json.get run "id") parts.1 found jobs)

  abbrev pub is_complete : Found → Bool
  is_complete found = eqb (length found.contexts) (length required_contexts)

  -- The loop over the runs, which ends when all contexts are found.
  unfoldable pub scan_runs : Found → List Fields → Api Found
  unfolding scan_run
  scan_runs found [] = lift (ok found)
  scan_runs found (run ∷ runs) = scan_run found run >>= λ found'.
      if is_complete found' then lift (ok found') else scan_runs found' runs

  -- The loop over the runs whose artifacts are listed.
  unfoldable pub list_artifacts :
      List (ℤ × StatusArtifact) → List (ℤ × Json) → Api (List (ℤ × StatusArtifact))
  list_artifacts found [] = lift (ok found)
  list_artifacts found ((number, run_id) ∷ runs) =
      get lib remote (repository_path ++ ("/actions/runs/" ++ (conv.to_str run_id ++ "/artifacts")))
        (field "per_page" (int (pos 100)) end) true
      >>= λ payload.
          lift (whole_page (Json.get payload "total_count") (Json.get payload "artifacts"))
          >>= λ items. lift (add_artifacts found items) >>= λ found'. list_artifacts found' runs

  -- A context is never called missing when there are runs beyond the page.
  abbrev pub check_page : ℕ → Items → Found → Result (Unit {0})
  check_page total page found =
      if ltb (length found.contexts) (length required_contexts) && ltb (items_length page) total
      then err unavailable
      else ok tt

  -- `_contexts_and_artifacts`
  unfoldable pub contexts_and_artifacts : String → Api (Contexts × List StatusArtifact)
  unfolding scan_runs list_artifacts
  contexts_and_artifacts commit = do
    payload ←
        get lib remote (repository_path ++ "/actions/runs")
          (field "head_sha" (str commit) (field "per_page" (int (pos 100)) end)) true
    total ← lift (require_count (Json.get payload "total_count"))
    page ← lift (require_list (Json.get payload "workflow_runs"))
    unsorted ← lift (dicts page)
    runs ← lift (newest_first conv unsorted)
    found ← scan_runs nothing_found runs
    checked ← lift (check_page total page found)
    artifacts ← list_artifacts [] (sorted_runs found.runs)
    lift (ok (contexts_of found.contexts, sorted_artifacts artifacts))

  abbrev pub status_of : String → String → String → Contexts → List StatusArtifact → CheckStatus
  status_of checked_at ref commit contexts artifacts = record {
    repository_name = "alexscott2718-gif/jn-engine";
    ref = ref;
    commit = commit;
    contexts = contexts;
    overall_state = (overall contexts).0;
    blocked_reason = (overall contexts).1;
    artifacts = artifacts;
    checked_at = checked_at;
  }

  -- The `try` block of `check`.
  unfoldable pub check_body : Option String → String → Json → Json → Json → Api CheckStatus
  unfolding resolve contexts_and_artifacts
  check_body token checked_at pr branch commit = do
    lift (validate_request pr branch commit)
    lift (begin_session token)
    at ← resolve pr branch commit
    note_head at.1
    found ← contexts_and_artifacts at.1
    lift (ok (status_of checked_at at.0 at.1 found.0 found.1))

-- Every other exception is `upstream_unavailable`.
abbrev pub failure_of : Exception → CollaborationError
failure_of (collaboration e) = e
failure_of (audit_unavailable m) = upstream_unavailable
failure_of other_exception = upstream_unavailable

abbrev state_text : ContextState → String
state_text queued = "queued"
state_text in_progress = "in_progress"
state_text success = "success"
state_text failure = "failure"
state_text neutral = "neutral"
state_text cancelled = "cancelled"
state_text timed_out = "timed_out"
state_text missing = "missing"

abbrev overall_text : OverallState → String
overall_text (reported s) = state_text s
overall_text blocked = "blocked"

abbrev check_outcome : Result CheckStatus → String
check_outcome (ok s) = overall_text s.overall_state
check_outcome (err e) = code_text (failure_of e).code

abbrev status_list : List ℕ → Items
status_list [] = nil
status_list (n ∷ rest) = cons (int (pos n)) (status_list rest)

-- The audit record of `check`.
abbrev pub check_record : String → String → Json → Json → Json → Result CheckStatus → Trail → Fields
check_record checked_at caller_identity pr branch commit r t = field "timestamp" (str checked_at) (
    field "caller_identity" (str caller_identity) (
      field "tool" (str "check_status") (
        field "args" (obj (field "pr" pr (field "branch" branch (field "commit" commit end)))) (
          field "resolved_commit" (text_or_null t.head) (
            field "outcome" (str (check_outcome r))
              (field "github_api_status" (arr (status_list t.statuses)) end))))))

abbrev pub checked : Result (Unit {0}) → Result CheckStatus → Result CheckStatus
checked (err e) r = err (collaboration upstream_unavailable)
checked (ok u) (ok s) = ok s
checked (ok u) (err e) = err (collaboration (failure_of e))

module _ (lib : Library) (remote : Remote) (conv : Conversions) (encoded : Fields → ℕ) where
  -- `CheckStatusService.check`: what the caller gets, the audit log, and the state of the call.
  unfoldable pub check :
      Host
      → File
      → Option String
      → String
      → Json
      → Json
      → Json
      → String
      → Result CheckStatus × File × Trail
  unfolding check_body
  check host log token checked_at pr branch commit caller_identity =
      let (r, t) = check_body lib remote conv token checked_at pr branch commit new_trail in
      let (written, log') =
        append encoded host log (check_record checked_at caller_identity pr branch commit r t) in
      (checked written r, log', t)

-- `CredentialUnavailableStatusService`
unfoldable pub uncredentialed_check : Json → Json → Json → Result CheckStatus
uncredentialed_check pr branch commit = err (collaboration credential_unavailable)

-- ===== src/Samples/StatusCalls.antt =====
-- Calls of the status service, and the theorems about it at work on them.
use jn_engine_contributor_mc.Python.Dict.{insert, lookup}
use jn_engine_contributor_mc.Base.Text.{
  all_chars, any_char, contains, in_class, is_space, lstrip, quote, rstrip, strip,
}
use jn_engine_contributor_mc.Audit.{add_record, append, finish_write, write_all, write_record}
use jn_engine_contributor_mc.CheckStatus.Steps.{
  add_artifacts, add_job, add_jobs, contexts_of, dicts, is_commit, keyed, newest_first, put,
  read_artifact, require_count, require_dict, require_list, require_string, sorted_artifacts,
  sorted_runs, validate_request, whole_page,
}
use jn_engine_contributor_mc.Github.Session.{
  accepted, attempt_once, begin_session, delay_for, fetch, is_transient, rate_limited, settled,
}
use jn_engine_contributor_mc.Base.{
  ℕ, String, List, ◌≡◌, refl, ◌↔◌, none, some, [], ◌==◌, if◌then◌else◌,
}
use jn_engine_contributor_mc.Base.Int.{pos}
use jn_engine_contributor_mc.Base.Sort.{sort}
use jn_engine_contributor_mc.Python.Json.{
  Json, Fields, Items, nil, cons, end, field, str, int, null, obj, arr, as_int, as_text,
}
use jn_engine_contributor_mc.Python.Json
use jn_engine_contributor_mc.Github.Session
use jn_engine_contributor_mc.Python.Result.{ok}
use jn_engine_contributor_mc.Claims.Ownership.Sound.{empty_file}
use jn_engine_contributor_mc.Github.{Request, Remote}
use jn_engine_contributor_mc.Github.Emits.{posts}
use jn_engine_contributor_mc.CheckStatus.{
  ContextState, success, in_progress, reported, RequiredContext, Contexts, CheckStatus, Conversions,
}
use jn_engine_contributor_mc.CheckStatus.Verdict.{overall, context_state, conclusion_state}
use jn_engine_contributor_mc.CheckStatus.Gate.{
  verdict, overall-worse, overall-success_iff, context_state-success_iff,
}
use jn_engine_contributor_mc.CheckStatus.Founded.{IsGreen}
use jn_engine_contributor_mc.CheckStatus.Green.{check-posts, check-success}
use jn_engine_contributor_mc.CheckStatus.Service.{
  check, check_body, contexts_and_artifacts, list_artifacts, resolve, scan_run, scan_runs,
}
use jn_engine_contributor_mc.Samples.{willing, hundred}
use jn_engine_contributor_mc.Samples.GithubCalls.{plain, answer}

abbrev in_state : ContextState → RequiredContext
in_state s = record {
  state = s;
  run_id = none;
  run_url = none;
  started_at = none;
  completed_at = none;
}

abbrev mixed : Contexts
mixed = record { core = in_state success; assets = in_state in_progress }

overall-worse_example : (overall mixed).0 ≡ verdict success in_progress
overall-worse_example = overall-worse mixed

overall-success_iff_example :
    ((overall mixed).0 ≡ reported success) ↔ ((success ≡ success) × (in_progress ≡ success))
overall-success_iff_example = overall-success_iff mixed

abbrev done_job : String → Fields
done_job name =
    field "name" (str name)
      (field "status" (str "completed") (field "conclusion" (str "success") end))

context_state-success_iff_example : (context_state (done_job "core") ≡ success) ↔ (
    (Json.get (done_job "core") "status" ≡ str "completed")
    × (Json.get (done_job "core") "conclusion" ≡ str "success"))
context_state-success_iff_example = context_state-success_iff (done_job "core")

abbrev sha : String
sha = "0123456789012345678901234567890123456789"

abbrev five_or_text : Json → String
five_or_text (str s) = s
five_or_text _ = "5"

abbrev conversions : Conversions
conversions = record { to_str = five_or_text; to_int = as_int }

abbrev page : String → ℕ → Items → Json
page name total items = obj (field "total_count" (int (pos total)) (field name (arr items) end))

abbrev a_run : Json
a_run = obj (
    field "id" (int (pos 5)) (
      field "html_url" (str "https://github.com/run/5")
        (field "created_at" (str "2026-01-01") end)))

abbrev respond : String → Json
respond path =
    if path == "/repos/alexscott2718-gif/jn-engine/git/ref/heads/topic"
    then obj (field "object" (obj (field "sha" (str sha) end)) end)
    else if path == "/repos/alexscott2718-gif/jn-engine/actions/runs"
    then page "workflow_runs" 1 (cons a_run nil)
    else if path == "/repos/alexscott2718-gif/jn-engine/actions/runs/5/jobs"
    then page "jobs" 2 (cons (obj (done_job "core")) (cons (obj (done_job "assets")) nil))
    else page "artifacts" 0 nil

-- A repository with one run, of both contexts.
abbrev green_repository : Remote
green_repository sent q = answer 200 (respond q.path)

check-posts_example :
    posts
      (check plain green_repository conversions hundred
        (willing 0)
        empty_file
        (some "t")
        "now"
        null
        (str "topic")
        null
        "ann").2.sent
    ≡ []
check-posts_example =
    check-posts plain green_repository conversions hundred (willing 0) empty_file (some "t") "now"
      null (str "topic") null "ann"

abbrev green_context : RequiredContext
green_context = record {
  state = success;
  run_id = some (int (pos 5));
  run_url = some "https://github.com/run/5";
  started_at = none;
  completed_at = none;
}

abbrev green_status : CheckStatus
green_status = record {
  repository_name = "alexscott2718-gif/jn-engine";
  ref = "refs/heads/topic";
  commit = sha;
  contexts = record { core = green_context; assets = green_context };
  overall_state = reported success;
  blocked_reason = none;
  artifacts = [];
  checked_at = "now";
}

green_check :
    (check plain green_repository conversions hundred
      (willing 0)
      empty_file
      (some "t")
      "now"
      null
      (str "topic")
      null
      "ann").0
    ≡ ok green_status
unfolding Json.get Session.get accepted add_artifacts add_job add_jobs add_record all_chars any_char
    append attempt_once begin_session check check_body conclusion_state contains context_state
    contexts_and_artifacts contexts_of delay_for dicts fetch finish_write in_class insert is_commit
    is_space is_transient keyed list_artifacts lookup lstrip newest_first overall put quote
    rate_limited read_artifact require_count require_dict require_list require_string resolve rstrip
    scan_run scan_runs settled sort sorted_artifacts sorted_runs strip validate_request whole_page
    write_all write_record
green_check = refl

-- The requests of that call.
abbrev green_requests : List Request
green_requests =
    (check plain green_repository conversions hundred (willing 0) empty_file (some "t") "now" null
      (str "topic") null "ann").2.sent

check-success_example :
    IsGreen plain green_repository conversions green_requests sha "core" green_context
    × IsGreen plain green_repository conversions green_requests sha "assets" green_context
check-success_example =
    check-success plain green_repository conversions hundred (willing 0) empty_file (some "t") "now"
      null (str "topic") null "ann" green_check refl

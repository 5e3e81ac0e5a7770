-- ===== src/CheckStatus/Verdict.antt =====
-- `_context_state` and `_overall` of core/check_status.py.
use Prim.Native.String.{◌++◌}
use jn_engine_contributor_mc.Base.{
  ℕ, String, Bool, not, ◌&&◌, ◌||◌, Option, none, some, List, [], ◌∷◌, eqb, if◌then◌else◌, ◌==◌,
}
use jn_engine_contributor_mc.Python.Json.{Json, Fields, get, as_text, equals_text}
use jn_engine_contributor_mc.CheckStatus.{
  ContextState, queued, in_progress, success, failure, neutral, cancelled, timed_out, missing,
  OverallState, reported, blocked, Contexts,
}

-- `_CONCLUSION_STATES.get(conclusion, "failure")`
unfoldable pub conclusion_state : String → ContextState
conclusion_state c =
    if c == "success"
    then success
    else if c == "neutral" || c == "skipped"
    then neutral
    else if c == "cancelled" || c == "stale"
    then cancelled
    else if c == "timed_out"
    then timed_out
    else failure

abbrev pub conclusion_of : Json → ContextState
conclusion_of v = elim (as_text v) [ none ↦ failure | some c ↦ conclusion_state c ]

-- `_context_state`, by the status and the conclusion of a job.
abbrev pub state_of : Json → Json → ContextState
state_of status conclusion =
    if equals_text status "queued" || (equals_text status "waiting" || equals_text status "pending")
    then queued
    else if equals_text status "in_progress" || equals_text status "requested"
    then in_progress
    else if not (equals_text status "completed")
    then failure
    else conclusion_of conclusion

-- `_context_state`
unfoldable pub context_state : Fields → ContextState
unfolding conclusion_state
context_state job = state_of (get job "status") (get job "conclusion")

abbrev pub index : ContextState → ℕ
index queued = 0
index in_progress = 1
index success = 2
index failure = 3
index neutral = 4
index cancelled = 5
index timed_out = 6
index missing = 7

abbrev pub same_state : ContextState → ContextState → Bool
same_state a b = eqb (index a) (index b)

abbrev pub is_missing : ContextState → Bool
is_missing s = same_state s missing

-- The first of the list that one of the two states is.
abbrev pub first_of : List ContextState → ContextState → ContextState → OverallState
first_of [] a b = reported failure
first_of (s ∷ rest) a b =
    let later = first_of rest a b in if same_state a s || same_state b s then reported s else later

abbrev pub blocking : List ContextState
blocking = failure ∷ timed_out ∷ cancelled ∷ in_progress ∷ queued ∷ neutral ∷ []

-- `', '.join(missing)`
abbrev pub missing_names : ContextState → ContextState → String
missing_names a b =
    if is_missing a then (if is_missing b then "core, assets" else "core") else "assets"

-- `_overall`
unfoldable pub overall : Contexts → OverallState × Option String
overall contexts =
    let a = contexts.core.state in
    let b = contexts.assets.state in
    if is_missing a || is_missing b
    then (blocked, some ("required CI context(s) not reported: " ++ missing_names a b))
    else if same_state a success && same_state b success
    then (reported success, none)
    else (first_of blocking a b, none)

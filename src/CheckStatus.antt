-- ===== src/CheckStatus.antt =====
-- core/check_status.py: the data of the status service.
pub mod Verdict
pub mod Steps
pub mod Service
pub mod Gate
pub mod Reads
pub mod Sources
pub mod Founded
pub mod Green
use jn_engine_contributor_mc.Base.{ℕ, String, Bool, Option, List, [], ◌∷◌}
use jn_engine_contributor_mc.Base.Int.{ℤ}
use jn_engine_contributor_mc.Python.Json.{Json}

-- `ContextState`
pub data ContextState : Type 0 where
  queued : ContextState
  in_progress : ContextState
  success : ContextState
  failure : ContextState
  neutral : ContextState
  cancelled : ContextState
  timed_out : ContextState
  missing : ContextState

-- `OverallState`: the state of a context, or `blocked`.
pub data OverallState : Type 0 where
  reported : ContextState → OverallState
  blocked : OverallState

-- `REQUIRED_CONTEXTS`
abbrev pub required_contexts : List String
required_contexts = "core" ∷ "assets" ∷ []

-- `RequiredContext`; `run_id` is the `int` that GitHub gave.
pub record RequiredContext : Type 0 where
  pub state : ContextState
  pub run_id : Option Json
  pub run_url : Option String
  pub started_at : Option String
  pub completed_at : Option String

-- `StatusArtifact`
pub record StatusArtifact : Type 0 where
  pub name : String
  pub size_bytes : ℤ
  pub download_url : String
  pub expired : Bool

-- The dict of the required contexts.
pub record Contexts : Type 0 where
  pub core : RequiredContext
  pub assets : RequiredContext

-- `CheckStatus`
pub record CheckStatus : Type 0 where
  pub repository_name : String
  pub ref : String
  pub commit : String
  pub contexts : Contexts
  pub overall_state : OverallState
  pub blocked_reason : Option String
  pub artifacts : List StatusArtifact
  pub checked_at : String

-- `str(v)` and `int(v)` of a JSON value; `none` is an exception of `int`.
pub record Conversions : Type 0 where
  pub to_str : Json → String
  pub to_int : Json → Option ℤ

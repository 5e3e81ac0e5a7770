-- ===== src/Claims.antt =====
-- core/task_claims.py: the data of the claim service. `Service` holds what its constructor is
-- given; the calendar stands for Python's `datetime` and `printable` for `str.isprintable`.
pub mod Validate
pub mod Ledger
pub mod Body
pub mod Operations
pub mod Records
pub mod Wellformed
pub mod Inversion
pub mod Refinement
pub mod Ownership
pub use jn_engine_contributor_mc.TaskIndex.{
  TaskStatus, status_open, status_blocked, status_done, TaskSourceKind, handoff, qa, linkage,
  decomp, catalog, TaskRecord,
}
use jn_engine_contributor_mc.Base.{ℕ, ◌+◌, ◌*◌, ◌/◌, ◌≤◌, ◌<◌, String, ◌≡◌, Bool, Option, some}
use jn_engine_contributor_mc.Base.Text.{text_length}

abbrev pub min_claim_minutes : ℕ
min_claim_minutes = 15

abbrev pub max_claim_minutes : ℕ
max_claim_minutes = 1440

-- An instant is a number of microseconds.
abbrev pub second : ℕ
second = 1000000

abbrev pub minutes : ℕ → ℕ
minutes n = n * 60000000

-- `format` is `_timestamp`, which drops the fraction of a second; `parse` is `fromisoformat` after
-- the replacement of "Z": `none` is its `ValueError`, `some none` an instant without a time zone.
-- `horizon` is the first instant after `datetime.max`.
pub record Calendar : Type 0 where
  pub horizon : ℕ
  pub format : ℕ → String
  pub parse : String → Option (Option ℕ)

-- What the code relies on of `datetime`.
pub record IsFaithful (c : Calendar) : Type 0 where
  pub format_length : (t : ℕ) → t < c.horizon → text_length (c.format t) ≤ 32
  pub parse-format :
      (t : ℕ) → t < c.horizon → c.parse (c.format t) ≡ some (some (t / second * second))

-- `get_task` and `commit` are those of the task index.
pub record Service : Type 0 where
  pub calendar : Calendar
  pub printable : ℕ → Bool
  pub get_task : String → Option TaskRecord
  pub snapshot_commit : String

-- `_ActiveClaim`
pub record ActiveClaim : Type 0 where
  pub task_id : String
  pub claim_id : String
  pub owner : String
  pub idempotency_key : String
  pub claimed_at : String
  pub expires_at : String

-- `ClaimedTask`
pub record ClaimedTask : Type 0 where
  pub task : TaskRecord
  pub claim_id : String
  pub owner : String
  pub claimed_at : String
  pub expires_at : String
  pub replayed : Bool

-- `ReleasedTask`
pub record ReleasedTask : Type 0 where
  pub task_id : String
  pub claim_id : String
  pub owner : String
  pub released : Bool
  pub released_at : String

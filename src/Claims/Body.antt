-- ===== src/Claims/Body.antt =====
-- The bodies of the `decide` functions of core/task_claims.py, up to their `except` clause.
use jn_engine_contributor_mc.Base.{
  ℕ, ◌+◌, String, Bool, true, false, not, ◌&&◌, Option, none, some, List, leb, ◌==◌, if◌then◌else◌,
}
use Prim.Native.String.{◌++◌ as append_text}
use jn_engine_contributor_mc.Python.Json.{Json, Fields}
use jn_engine_contributor_mc.Python.Result.{
  collaboration, other_exception, conflict, task_not_found, Exception, Result, ok, err,
}
use jn_engine_contributor_mc.Python.Dict.{lookup}
use jn_engine_contributor_mc.Claims.{
  Service, TaskRecord, TaskStatus, status_done, ActiveClaim, ClaimedTask, ReleasedTask, minutes,
}
use jn_engine_contributor_mc.Claims.Validate.{
  bounded_identity, valid_task_id, valid_idempotency_key, valid_claim_id, valid_duration,
  is_claim_id, or_raise,
}
use jn_engine_contributor_mc.Claims.Ledger.{ledger_claims}

-- The local variables that the audit record is made of; `None` at the start.
pub record Locals : Type 0 where
  pub owner : Option String
  pub task_id : Option String
  pub key : Option String
  pub duration : Option ℕ
  pub claim_id : Option String
  pub claimed_at : Option String
  pub expires_at : Option String

abbrev pub start : Locals
start = record {
  owner = none;
  task_id = none;
  key = none;
  duration = none;
  claim_id = none;
  claimed_at = none;
  expires_at = none;
}

-- A step of a body: what is assigned stays assigned after a raise.
abbrev pub Try : Type 0 → Type 0
Try A = Locals → Result A × Locals

infixl 5 ◌>>=◌ ◌>>◌
abbrev pub ◌>>=◌ : {A B : Type 0} → Try A → (A → Try B) → Try B
◌>>=◌ m f l = let (r, l') = m l in elim r [ ok a ↦ f a l' | err e ↦ (err e, l') ]

abbrev pub ◌>>◌ : {A B : Type 0} → Try A → Try B → Try B
m >> k = m >>= λ _. k

abbrev pub lift : {A : Type 0} → Result A → Try A
lift r l = (r, l)

abbrev pub assign : (Locals → Locals) → Try (Unit {0})
assign f l = (ok tt, f l)

abbrev pub is_done : TaskStatus → Bool
is_done status_done = true
is_done _ = false

abbrev pub raised_if : Bool → Exception → Try (Unit {0})
raised_if b e l = (if b then err e else ok tt, l)

held_by : ActiveClaim → Exception
held_by active = collaboration (
    conflict (
      append_text "task is claimed by "
        (append_text active.owner (append_text " until " active.expires_at))))

module _ (s : Service) (now : ℕ) where
  -- No one holds the task.
  unfoldable pub grant : String → TaskRecord → String → ℕ → Try ClaimedTask
  grant new_id task owner duration = do
    assign (λ l. record l { claim_id = some new_id })
    raised_if (not (is_claim_id new_id)) other_exception
    assign (λ l. record l { claimed_at = some (s.calendar.format now) })
    raised_if (leb s.calendar.horizon (now + minutes duration)) other_exception
    assign (λ l. record l { expires_at = some (s.calendar.format (now + minutes duration)) })
    lift (
        ok (record {
          task = task;
          claim_id = new_id;
          owner = owner;
          claimed_at = s.calendar.format now;
          expires_at = s.calendar.format (now + minutes duration);
          replayed = false;
        }))

  -- The task is held: a replay for its owner's own key, else a conflict.
  unfoldable pub replay : ActiveClaim → TaskRecord → String → String → Try ClaimedTask
  unfolding held_by
  replay active task owner key =
      if active.owner == owner && active.idempotency_key == key
      then (do
        assign (λ l. record l {
          claim_id = some active.claim_id;
          claimed_at = some active.claimed_at;
          expires_at = some active.expires_at;
        })
        lift (
            ok (record {
              task = task;
              claim_id = active.claim_id;
              owner = owner;
              claimed_at = active.claimed_at;
              expires_at = active.expires_at;
              replayed = true;
            })))
      else lift (err (held_by active))

  -- The branches of `claim_task` on the active claim.
  abbrev pub claim_rest :
      String → Option ActiveClaim → TaskRecord → String → String → ℕ → Try ClaimedTask
  claim_rest new_id none task owner key duration = grant new_id task owner duration
  claim_rest new_id (some active) task owner key duration = replay active task owner key

  -- The `try` block of `claim_task`.
  unfoldable pub claim_body : String → Json → Json → Json → Json → List Fields → Try ClaimedTask
  claim_body new_id task_id duration_minutes idempotency_key caller_identity records = do
    owner ← lift (bounded_identity s.printable caller_identity)
    assign (λ l. record l { owner = some owner })
    id ← lift (valid_task_id task_id)
    assign (λ l. record l { task_id = some id })
    key ← lift (valid_idempotency_key idempotency_key)
    assign (λ l. record l { key = some key })
    duration ← lift (valid_duration duration_minutes)
    assign (λ l. record l { duration = some duration })
    task ← lift (or_raise (s.get_task id) (collaboration task_not_found))
    raised_if (is_done task.status) (collaboration (conflict "completed tasks cannot be claimed"))
    claims ← lift (ledger_claims s.calendar s.printable records now)
    claim_rest new_id (lookup id claims) task owner key duration

  abbrev released_task : String → String → String → Bool → ReleasedTask
  released_task id claim_id owner released = record {
    task_id = id;
    claim_id = claim_id;
    owner = owner;
    released = released;
    released_at = s.calendar.format now;
  }

  -- The branches of `release_task` on the active claim.
  unfoldable pub release_held : Option ActiveClaim → String → String → String → Result ReleasedTask
  unfolding held_by
  release_held none id claim_id owner = ok (released_task id claim_id owner false)
  release_held (some active) id claim_id owner =
      if not (active.owner == owner)
      then err (held_by active)
      else if not (active.claim_id == claim_id)
      then err (collaboration (conflict "claim_id does not match the caller's active claim"))
      else ok (released_task id claim_id owner true)

  -- The `try` block of `release_task`.
  unfoldable pub release_body : Json → Json → Json → List Fields → Try ReleasedTask
  release_body task_id claim_id caller_identity records = do
    owner ← lift (bounded_identity s.printable caller_identity)
    assign (λ l. record l { owner = some owner })
    id ← lift (valid_task_id task_id)
    assign (λ l. record l { task_id = some id })
    claim ← lift (valid_claim_id claim_id)
    assign (λ l. record l { claim_id = some claim })
    claims ← lift (ledger_claims s.calendar s.printable records now)
    lift (release_held (lookup id claims) id claim owner)

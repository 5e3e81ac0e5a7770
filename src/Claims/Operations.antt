-- ===== src/Claims/Operations.antt =====
-- `TaskClaimService.claim_task` and `release_task` of core/task_claims.py: what is decided inside
-- the transaction of the ledger, the audit record of it, and what the caller gets.
use jn_engine_contributor_mc.Base.{ℕ, String, Option, none, some, List, if◌then◌else◌}
use jn_engine_contributor_mc.Base.Int.{pos}
use jn_engine_contributor_mc.Base.Text.{take_text}
use jn_engine_contributor_mc.Python.Json.{
  Json, null, int, obj, str, Fields, end, field, as_text, text_or_null,
}
use jn_engine_contributor_mc.Python.Result.{
  collaboration, audit_unavailable, other_exception, Result, ok, err, upstream_unavailable,
  write_disabled, code_text,
}
use jn_engine_contributor_mc.Audit.{File, Host, Decision, transact}
use jn_engine_contributor_mc.Claims.{Service, ClaimedTask, ReleasedTask}
use jn_engine_contributor_mc.Claims.Body.{Locals, start, claim_body, release_body}

-- `_safe_arg`
unfoldable pub safe_arg : Json → ℕ → Json
safe_arg value limit = elim (as_text value) [ none ↦ null | some s ↦ str (take_text limit s) ]

-- `valid or _safe_arg(value, limit)`; a valid text is not empty.
unfoldable pub valid_or_safe : Option String → Json → ℕ → Json
unfolding safe_arg
valid_or_safe (some s) value limit = str s
valid_or_safe none value limit = safe_arg value limit

abbrev number_or_null : Option ℕ → Json
number_or_null none = null
number_or_null (some n) = int (pos n)

module _ (s : Service) (now : ℕ) where
  -- The audit record of `claim_task`.
  abbrev pub claim_record : Json → Json → Json → Locals → String → Fields
  claim_record task_id idempotency_key caller_identity l outcome =
      field "schema_version" (int (pos 1)) (
        field "timestamp" (str (s.calendar.format now)) (
          field "caller_identity" (valid_or_safe l.owner caller_identity 160) (
            field "tool" (str "claim_task") (
              field "args"
                (obj (
                  field "task_id" (valid_or_safe l.task_id task_id 256) (
                    field "duration_minutes" (number_or_null l.duration)
                      (field "idempotency_key" (valid_or_safe l.key idempotency_key 64) end))))
                (field "snapshot_commit" (str s.snapshot_commit) (
                  field "claim_id" (text_or_null l.claim_id) (
                    field "claimed_at" (text_or_null l.claimed_at) (
                      field "expires_at" (text_or_null l.expires_at)
                        (field "outcome" (str outcome) end)))))))))

  -- The audit record of `release_task`.
  abbrev pub release_record : Json → Json → Json → Locals → String → Fields
  release_record task_id claim_id caller_identity l outcome = field "schema_version" (int (pos 1)) (
      field "timestamp" (str (s.calendar.format now)) (
        field "caller_identity" (valid_or_safe l.owner caller_identity 160) (
          field "tool" (str "release_task") (
            field "args"
              (obj (
                field "task_id" (valid_or_safe l.task_id task_id 256)
                  (field "claim_id" (valid_or_safe l.claim_id claim_id 24) end)))
              (field "snapshot_commit" (str s.snapshot_commit)
                (field "outcome" (str outcome) end))))))

  abbrev pub claim_outcome : ClaimedTask → String
  claim_outcome t = if t.replayed then "replayed" else "claimed"

  abbrev pub release_outcome : ReleasedTask → String
  release_outcome t = if t.released then "released" else "not_claimed"

-- The `except CollaborationError` clause and the audit record; any other exception goes on.
unfoldable pub conclude :
    {A : Type 0}
    → (A → String)
    → (Locals → String → Fields)
    → Result A × Locals
    → Result (Decision (Result A))
conclude outcome entry (ok a, l) = ok (record { entry = entry l (outcome a); value = ok a })
conclude outcome entry (err (collaboration e), l) =
    ok (record { entry = entry l (code_text e.code); value = err (collaboration e) })
conclude outcome entry (err (audit_unavailable m), l) = err (audit_unavailable m)
conclude outcome entry (err other_exception, l) = err other_exception

-- The end of a call: every exception of the transaction is `upstream_unavailable`.
unfoldable pub settle : {A : Type 0} → Result (Result A) × File → Result A × File
settle (ok r, file) = (r, file)
settle (err e, file) = (err (collaboration upstream_unavailable), file)

module _ (s : Service) (now : ℕ) where
  unfoldable pub claim_decide :
      String → Json → Json → Json → Json → List Fields → Result (Decision (Result ClaimedTask))
  unfolding claim_body conclude
  claim_decide new_id task_id duration_minutes idempotency_key caller_identity records =
      conclude (claim_outcome s now) (claim_record s now task_id idempotency_key caller_identity) (
        claim_body s now new_id task_id duration_minutes idempotency_key caller_identity records
          start)

  unfoldable pub release_decide :
      Json → Json → Json → List Fields → Result (Decision (Result ReleasedTask))
  unfolding release_body conclude
  release_decide task_id claim_id caller_identity records =
      conclude (release_outcome s now) (release_record s now task_id claim_id caller_identity)
        (release_body s now task_id claim_id caller_identity records start)

  -- `TaskClaimService.claim_task`; `new_id` is what the claim ID factory returns.
  unfoldable pub claim_task :
      (Fields → ℕ) → Host → File → String → Json → Json → Json → Json → Result ClaimedTask × File
  unfolding claim_decide settle
  claim_task encoded host file new_id task_id duration_minutes idempotency_key caller_identity =
      settle (
        transact encoded host file
          (claim_decide new_id task_id duration_minutes idempotency_key caller_identity))

  -- `TaskClaimService.release_task`
  unfoldable pub release_task :
      (Fields → ℕ) → Host → File → Json → Json → Json → Result ReleasedTask × File
  unfolding release_decide settle
  release_task encoded host file task_id claim_id caller_identity =
      settle (transact encoded host file (release_decide task_id claim_id caller_identity))

-- `WriteDisabledTaskClaimService`
unfoldable pub disabled_claim_task : File → Result ClaimedTask × File
disabled_claim_task file = (err (collaboration write_disabled), file)

unfoldable pub disabled_release_task : File → Result ReleasedTask × File
disabled_release_task file = (err (collaboration write_disabled), file)

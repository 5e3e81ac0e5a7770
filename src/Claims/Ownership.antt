-- ===== src/Claims/Ownership.antt =====
-- The ledger of core/task_claims.py over sequences of calls: it stays readable, and a task has one
-- owner at a time.
pub mod Sound
pub mod Exclusive
pub mod Owner
use jn_engine_contributor_mc.Base.{
  ℕ, ◌+◌, ◌*◌, ◌/◌, ◌≤◌, ◌<◌, ◌≡◌, ◌≢◌, refl, sym, ◌∙◌, ap, ◌⊎◌, inl, inr, String, Bool, true,
  false, Option, none, some, List, [], ◌∷◌, ◌++◌, arith, ltb, eq_iff, ◌==◌,
}
use jn_engine_contributor_mc.Base.Lists.{All}
use jn_engine_contributor_mc.Python.Json.{Json, Fields, str}
use jn_engine_contributor_mc.Python.Result.{Result, ok, err}
use jn_engine_contributor_mc.Python.Dict.{lookup, insert, erase, lookup-insert, lookup-erase}
use jn_engine_contributor_mc.Audit.{File, Host, Decision, parse_lines, read_records, transact}
use jn_engine_contributor_mc.Audit.Record.{Leaves, read_records-ok}
use jn_engine_contributor_mc.Audit.Transact.{transact-ok, transact-Leaves}
use jn_engine_contributor_mc.Claims.{Service, IsFaithful, ActiveClaim, ClaimedTask, ReleasedTask}
use jn_engine_contributor_mc.Claims.Ledger.{Claims, parse_timestamp, read_ledger}
use jn_engine_contributor_mc.Claims.Operations.{
  claim_decide, release_decide, claim_task, release_task, settle,
}
use jn_engine_contributor_mc.Claims.Refinement.{
  Releaser, Transition, stay, claimed, released, Stands, claim_decide-Stands, release_decide-Stands,
}

-- A call of the service: the answers of the host, the clock, and the arguments.
pub data Call : Type 0 where
  claim : Host → ℕ → String → Json → Json → Json → Json → Call
  release : Host → ℕ → Json → Json → Json → Call

abbrev pub by_call : Call → Releaser
by_call (claim host now new_id task_id minutes key caller) = none
by_call (release host now task_id claim_id caller) = some (task_id, caller, claim_id)

abbrev pub time_of : Call → ℕ
time_of (claim host now new_id task_id minutes key caller) = now
time_of (release host now task_id claim_id caller) = now

settle-file : {A : Type 0} (r : Result (Result A) × File) → (settle r).1 ≡ r.1
unfolding settle
settle-file (ok r, file) = refl
settle-file (err e, file) = refl

module _ (s : Service) (encoded : Fields → ℕ) where
  -- The file after a call.
  unfoldable pub step : Call → File → File
  step (claim host now new_id task_id minutes key caller) file =
      (claim_task s now encoded host file new_id task_id minutes key caller).1
  step (release host now task_id claim_id caller) file =
      (release_task s now encoded host file task_id claim_id caller).1

  unfoldable pub run : List Call → File → File
  run [] file = file
  run (c ∷ calls) file = run calls (step c file)

  -- The file is whole, and its records stand for these claims.
  pub record Registers (file : File) (claims : Claims) : Type 0 where
    pub whole : file.torn ≡ false
    pub records : List Fields
    pub parsed : parse_lines file.lines ≡ ok records
    pub read : read_ledger s.calendar s.printable [] records ≡ ok claims

  -- A call leaves a torn file, or one that stands for the claims after a permitted step.
  abbrev pub Steps : Call → Claims → File → Type 0
  Steps c claims file =
      (file.torn ≡ true)
      ⊎ ((claims' : Claims) × Transition s (time_of c) (by_call c) claims claims'
          × Registers file claims')

  module _ (faithful : IsFaithful s.calendar) (encoded_pos : (r : Fields) → 0 < encoded r) where
    transact-Steps :
        {A : Type 0} (c : Call) (host : Host) (file : File) (claims : Claims)
        (decide : List Fields → Result (Decision A))
        → Registers file claims
        → ((records : List Fields) (d : Decision A)
            → read_ledger s.calendar s.printable [] records ≡ ok claims
            → decide records ≡ ok d
            → (claims' : Claims) × Transition s (time_of c) (by_call c) claims claims'
              × (read_ledger s.calendar s.printable [] (records ++ d.entry ∷ []) ≡ ok claims'))
        → Steps c claims (transact encoded host file decide).1
    transact-Steps c host file claims decide g sound =
        elim (transact-Leaves encoded encoded_pos host file decide) [
          | inl same ↦ inr (claims, stay, rw same g)
          | inr (records, d, read, decided, left) ↦ elim left [
            | inl same ↦ inr (claims, stay, rw same g)
            | inr (inl torn) ↦ inl torn
            | inr (inr (whole, back)) ↦
                let same : g.records ≡ records =
                  cc (g.parsed, (read_records-ok host file records read).0) in
                let (claims', t, e) = sound records d (rw same at g.read) decided in
                inr (
                  claims',
                  t,
                  record {
                    whole = whole;
                    records = records ++ d.entry ∷ [];
                    parsed = back;
                    read = e;
                  },
                )
          ]
        ]

    pub step-Steps :
        (c : Call) (file : File) (claims : Claims)
        → Registers file claims
        → Steps c claims (step c file)
    unfolding step claim_task release_task
    step-Steps (claim host now new_id task_id minutes key caller) file claims g =
        rw
          (settle-file
            (transact encoded host file (claim_decide s now new_id task_id minutes key caller)))
          (transact-Steps (claim host now new_id task_id minutes key caller) host file claims
            (claim_decide s now new_id task_id minutes key caller) g
            (λ records d h e.
              claim_decide-Stands s now faithful records claims h new_id task_id minutes key caller
                d e))
    step-Steps (release host now task_id claim_id caller) file claims g =
        rw (settle-file (transact encoded host file (release_decide s now task_id claim_id caller)))
          (transact-Steps (release host now task_id claim_id caller) host file claims
            (release_decide s now task_id claim_id caller) g
            (λ records d h e.
              release_decide-Stands s now faithful records claims h task_id claim_id caller d e))

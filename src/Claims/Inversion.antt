-- ===== src/Claims/Inversion.antt =====
-- What a call of core/task_claims.py went through when its body returned.
use jn_engine_contributor_mc.Base.{
  eq_iff, ℕ, ◌+◌, ◌≤◌, ◌<◌, ◌≡◌, refl, ◌⊎◌, inl, inr, String, Bool, true, false, Option, none, some,
  List, arith, Bool-cases, Option-cases,
}
use jn_engine_contributor_mc.Python.Json.{Json, Fields, str}
use jn_engine_contributor_mc.Python.Result.{
  CollaborationError, Exception, collaboration, audit_unavailable, other_exception, Result, ok, err,
  code_text, Result-cases,
}
use jn_engine_contributor_mc.Python.Dict.{lookup}
use jn_engine_contributor_mc.Audit.{Decision}
use jn_engine_contributor_mc.Claims.{
  Service, TaskRecord, ActiveClaim, ClaimedTask, ReleasedTask, minutes, min_claim_minutes,
  max_claim_minutes,
}
use jn_engine_contributor_mc.Claims.Validate.{
  bounded_identity, valid_task_id, valid_idempotency_key, valid_claim_id, valid_duration,
  is_claim_id, is_identity, is_task_id, is_idempotency_key, or_raise, text_such,
}
use jn_engine_contributor_mc.Claims.Ledger.{Claims, ledger_claims}
use jn_engine_contributor_mc.Claims.Body.{
  Locals, start, is_done, claim_rest, grant, replay, claim_body, release_body, release_held,
}
use jn_engine_contributor_mc.Claims.Operations.{conclude}

pub conclude-cases :
    {A : Type 0} (outcome : A → String) (entry : Locals → String → Fields) (m : Result A × Locals)
    {d : Decision (Result A)}
    → conclude outcome entry m ≡ ok d
    → ((a : A) × (l : Locals) × (m ≡ (ok a, l))
        × (d ≡ record { entry = entry l (outcome a); value = ok a }))
      ⊎ ((e : CollaborationError) × (l : Locals) × (m ≡ (err (collaboration e), l))
          × (d ≡ record { entry = entry l (code_text e.code); value = err (collaboration e) }))
unfolding conclude
conclude-cases outcome entry (ok a, l) h = inl (a, l, refl, cc)
conclude-cases outcome entry (err (collaboration e), l) h = inr (e, l, refl, cc)
conclude-cases outcome entry (err (audit_unavailable m), l) h = cc
conclude-cases outcome entry (err other_exception, l) h = cc

text_such-ok :
    (p : String → Bool) (v : Json) (e : Exception) {t : String}
    → or_raise (text_such p v) e ≡ ok t
    → (p t ≡ true) × (v ≡ str t)
unfolding text_such
text_such-ok p v e h = ground arith

pub bounded_identity-ok :
    (p : ℕ → Bool) (v : Json) {t : String}
    → bounded_identity p v ≡ ok t
    → (is_identity p t ≡ true) × (v ≡ str t)
unfolding bounded_identity
bounded_identity-ok p v h = text_such-ok (is_identity p) v _ h

pub valid_task_id-ok :
    (v : Json) {t : String} → valid_task_id v ≡ ok t → (is_task_id t ≡ true) × (v ≡ str t)
unfolding valid_task_id
valid_task_id-ok v h = text_such-ok is_task_id v _ h

pub valid_idempotency_key-ok :
    (v : Json) {t : String}
    → valid_idempotency_key v ≡ ok t
    → (is_idempotency_key t ≡ true) × (v ≡ str t)
unfolding valid_idempotency_key
valid_idempotency_key-ok v h = text_such-ok is_idempotency_key v _ h

pub valid_claim_id-ok :
    (v : Json) {t : String} → valid_claim_id v ≡ ok t → (is_claim_id t ≡ true) × (v ≡ str t)
unfolding valid_claim_id
valid_claim_id-ok v h = text_such-ok is_claim_id v _ h

pub valid_duration-ok :
    (v : Json) {d : ℕ} → valid_duration v ≡ ok d → (min_claim_minutes ≤ d) × (d ≤ max_claim_minutes)
unfolding valid_duration
valid_duration-ok v h = ground arith

module _ (s : Service) (now : ℕ) where
  -- The checks that a claim has passed once its body returned, and what it read.
  pub record Passed (task_id duration_minutes idempotency_key caller : Json) (records : List Fields)
      : Type 0 where
    pub owner : String
    pub id : String
    pub key : String
    pub duration : ℕ
    pub task : TaskRecord
    pub claims : Claims
    pub owner_ok : bounded_identity s.printable caller ≡ ok owner
    pub id_ok : valid_task_id task_id ≡ ok id
    pub key_ok : valid_idempotency_key idempotency_key ≡ ok key
    pub duration_ok : valid_duration duration_minutes ≡ ok duration
    pub known : s.get_task id ≡ some task
    pub unfinished : is_done task.status ≡ false
    pub read : ledger_claims s.calendar s.printable records now ≡ ok claims

  abbrev pub passed_locals : String → String → String → ℕ → Locals
  passed_locals owner id key d = record start {
    owner = some owner;
    task_id = some id;
    key = some key;
    duration = some d;
  }

  module _ (new_id : String) (task_id duration_minutes idempotency_key caller : Json)
      (records : List Fields) where
    -- A body whose checks all pass goes on with the ledger's claim on the task.
    pub claim_body-Passed :
        (p : Passed task_id duration_minutes idempotency_key caller records)
        → claim_body s now new_id task_id duration_minutes idempotency_key caller records start
          ≡ claim_rest s now new_id
              (lookup p.id p.claims)
              p.task
              p.owner
              p.key
              p.duration
              (passed_locals p.owner p.id p.key p.duration)
    unfolding claim_body
    claim_body-Passed p =
        rw (p.owner_ok, p.id_ok, p.key_ok, p.duration_ok, p.known, p.unfinished, p.read) refl

    pub claim_body-ok :
        {t : ClaimedTask} {l : Locals}
        → claim_body s now new_id task_id duration_minutes idempotency_key caller records start
          ≡ (ok t, l)
        → Passed task_id duration_minutes idempotency_key caller records
    unfolding claim_body
    claim_body-ok h = elim (Result-cases (bounded_identity s.printable caller)) [
      | inr (e, p) ↦ absurd (ground arith)
      | inl (owner, p₁) ↦ elim (Result-cases (valid_task_id task_id)) [
        | inr (e, p) ↦ absurd (ground arith)
        | inl (id, p₂) ↦ elim (Result-cases (valid_idempotency_key idempotency_key)) [
          | inr (e, p) ↦ absurd (ground arith)
          | inl (key, p₃) ↦ elim (Result-cases (valid_duration duration_minutes)) [
            | inr (e, p) ↦ absurd (ground arith)
            | inl (d, p₄) ↦ elim (Option-cases (s.get_task id)) [
              | inl p ↦ absurd (ground arith)
              | inr (task, p₅) ↦ elim (Bool-cases (is_done task.status)) [
                | inl p ↦ absurd (ground arith)
                | inr p₆ ↦ elim (Result-cases (ledger_claims s.calendar s.printable records now)) [
                  | inr (e, p) ↦ absurd (ground arith)
                  | inl (claims, p₇) ↦ record {
                    owner = owner;
                    id = id;
                    key = key;
                    duration = d;
                    task = task;
                    claims = claims;
                    owner_ok = p₁;
                    id_ok = p₂;
                    key_ok = p₃;
                    duration_ok = p₄;
                    known = p₅;
                    unfinished = p₆;
                    read = p₇;
                  }
                ]
              ]
            ]
          ]
        ]
      ]
    ]

  module _ (new_id : String) (task : TaskRecord) (owner : String) where
    pub grant-ok :
        (d : ℕ) (l : Locals) {t : ClaimedTask} {l' : Locals}
        → grant s now new_id task owner d l ≡ (ok t, l')
        → (is_claim_id new_id ≡ true)
          × (now + minutes d < s.calendar.horizon)
          × (t ≡ record {
            task = task;
            claim_id = new_id;
            owner = owner;
            claimed_at = s.calendar.format now;
            expires_at = s.calendar.format (now + minutes d);
            replayed = false;
          })
          × (l' ≡ record l {
            claim_id = some new_id;
            claimed_at = some (s.calendar.format now);
            expires_at = some (s.calendar.format (now + minutes d));
          })
    unfolding grant
    grant-ok d l h = ground arith

  pub replay-ok :
      (active : ActiveClaim) (task : TaskRecord) (owner key : String) (l : Locals) {t : ClaimedTask}
      {l' : Locals}
      → replay s now active task owner key l ≡ (ok t, l')
      → (active.owner ≡ owner)
        × (active.idempotency_key ≡ key)
        × (t ≡ record {
          task = task;
          claim_id = active.claim_id;
          owner = owner;
          claimed_at = active.claimed_at;
          expires_at = active.expires_at;
          replayed = true;
        })
  unfolding replay
  replay-ok active task owner key l h =
      ground (arith, eq_iff active.owner owner, eq_iff active.idempotency_key key)

  -- The same for a release.
  pub record ReleasePassed (task_id claim_id caller : Json) (records : List Fields) : Type 0 where
    pub owner : String
    pub id : String
    pub claim : String
    pub claims : Claims
    pub owner_ok : bounded_identity s.printable caller ≡ ok owner
    pub id_ok : valid_task_id task_id ≡ ok id
    pub claim_ok : valid_claim_id claim_id ≡ ok claim
    pub read : ledger_claims s.calendar s.printable records now ≡ ok claims

  module _ (task_id claim_id caller : Json) (records : List Fields) where
    pub release_body-ReleasePassed :
        (p : ReleasePassed task_id claim_id caller records)
        → release_body s now task_id claim_id caller records start ≡ (
          release_held s now (lookup p.id p.claims) p.id p.claim p.owner,
          record start { owner = some p.owner; task_id = some p.id; claim_id = some p.claim },
        )
    unfolding release_body
    release_body-ReleasePassed p = rw (p.owner_ok, p.id_ok, p.claim_ok, p.read) refl

    pub release_body-ok :
        {t : ReleasedTask} {l : Locals}
        → release_body s now task_id claim_id caller records start ≡ (ok t, l)
        → ReleasePassed task_id claim_id caller records
    unfolding release_body
    release_body-ok h = elim (Result-cases (bounded_identity s.printable caller)) [
      | inr (e, p) ↦ absurd (ground arith)
      | inl (owner, p₁) ↦ elim (Result-cases (valid_task_id task_id)) [
        | inr (e, p) ↦ absurd (ground arith)
        | inl (id, p₂) ↦ elim (Result-cases (valid_claim_id claim_id)) [
          | inr (e, p) ↦ absurd (ground arith)
          | inl (claim, p₃) ↦
              elim (Result-cases (ledger_claims s.calendar s.printable records now)) [
                | inr (e, p) ↦ absurd (ground arith)
                | inl (claims, p₄) ↦ record {
                  owner = owner;
                  id = id;
                  claim = claim;
                  claims = claims;
                  owner_ok = p₁;
                  id_ok = p₂;
                  claim_ok = p₃;
                  read = p₄;
                }
              ]
        ]
      ]
    ]

  -- A release returns either that it released the caller's own active claim, or that the task is free.
  pub release_held-ok :
      (o : Option ActiveClaim) (id claim owner : String) {t : ReleasedTask}
      → release_held s now o id claim owner ≡ ok t
      → ((o ≡ none) × (t.released ≡ false))
        ⊎ ((a : ActiveClaim) × (o ≡ some a)
            × (a.owner ≡ owner)
            × (a.claim_id ≡ claim)
            × (t.released ≡ true))
  unfolding release_held
  release_held-ok none id claim owner h = ground arith
  release_held-ok (some a) id claim owner h = inr (
    a,
    refl,
    ground (arith, eq_iff a.owner owner),
    ground (arith, eq_iff a.claim_id claim),
    ground arith,
  )

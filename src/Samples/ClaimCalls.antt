-- ===== src/Samples/ClaimCalls.antt =====
-- Calls of the claim service, and the theorems about it at work on them.
use jn_engine_contributor_mc.Base.{
  ◌*◌, ◌≡◌, ◌≢◌, refl, String, true, false, none, some, List, [], ◌∷◌, arith, ◌==◌, eq_iff,
  if◌then◌else◌,
}
use jn_engine_contributor_mc.Base.Lists.{All}
use jn_engine_contributor_mc.Base.Int.{pos}
use jn_engine_contributor_mc.Python.Json.{Fields, end, get, int, str}
use jn_engine_contributor_mc.Python.Result.{Result, ok, err, other_exception}
use jn_engine_contributor_mc.Audit.{
  Decision, File, add_record, commit, finish_write, parse_line, parse_lines, read_records, transact,
  write_all, write_record,
}
use jn_engine_contributor_mc.Claims.{
  Service, TaskRecord, status_open, qa, ClaimedTask, ReleasedTask, ActiveClaim, second,
}
use jn_engine_contributor_mc.Claims.Operations.{
  claim_decide, claim_task, conclude, release_decide, release_task, safe_arg, settle, valid_or_safe,
}
use jn_engine_contributor_mc.Claims.Ownership.{Call, Registers, claim, release, run, step}
use jn_engine_contributor_mc.Claims.Ownership.Sound.{empty_file}
use jn_engine_contributor_mc.Audit.{parse_lines}
use jn_engine_contributor_mc.Claims.Ledger.{
  add_claim, arg, claimed_entry, drop_claim, ledger_claims, parse_timestamp, read_ledger,
  read_record, unexpired,
}
use jn_engine_contributor_mc.Claims.Ownership.Owner.{
  Unreleased, Told, one_owner, claim_task-Told, claim_task-held,
}
use jn_engine_contributor_mc.Claims.Ownership.Sound.{IsSound, service-IsSound}
use jn_engine_contributor_mc.Base.Text.{
  all_chars, any_char, in_class, is_space, lstrip, rstrip, strip, take_text,
}
use jn_engine_contributor_mc.Claims.Validate.{
  bounded_identity, is_claim_id, is_idempotency_key, is_identity, is_task_id, text_such,
  valid_claim_id, valid_duration, valid_idempotency_key, valid_task_id,
}
use jn_engine_contributor_mc.Claims.Body.{claim_body, grant, release_body, release_held, replay}
use jn_engine_contributor_mc.Python.Dict.{erase, insert, lookup}
use jn_engine_contributor_mc.Claims.Ownership.Exclusive.{Holds}
use jn_engine_contributor_mc.Claims.Refinement.{Stands, claim_decide-Stands, release_decide-Stands}
use jn_engine_contributor_mc.Claims.Wellformed.{IsValid, read_ledger-IsValid}
use jn_engine_contributor_mc.Samples.{
  binary, binary-IsFaithful, digits, hundred, hundred_pos, number, willing,
}

abbrev one_task : TaskRecord
one_task = record {
  id = "qa:1";
  title = "Check the gate";
  status = status_open;
  source_kind = qa;
  category = none;
  detail = none;
  source_path = "docs/qa.md";
  source_line = 1;
  source_url = "";
  commit = "c0";
}

abbrev service : Service
service = record {
  calendar = binary;
  printable = λ c. true;
  get_task = λ id. if id == "qa:1" then some one_task else none;
  snapshot_commit = "c0";
}

abbrev a_claim_id : String
a_claim_id = "AAAAAAAAAAAAAAAAAAAAAAAA"

abbrev another_claim_id : String
another_claim_id = "BBBBBBBBBBBBBBBBBBBBBBBB"

-- Ann claims the task at second 10, for 15 minutes.
abbrev first : Result ClaimedTask × File
unfolding claim_task
first =
    claim_task service (10 * second) hundred (willing 0) empty_file a_claim_id (str "qa:1")
      (int (pos 15)) (str "ann-key-1") (str "ann")

abbrev granted : ClaimedTask
granted = record {
  task = one_task;
  claim_id = a_claim_id;
  owner = "ann";
  claimed_at = "010100000000000000000000000000";
  expires_at = "011100011100000000000000000000";
  replayed = false;
}

abbrev second_file : File
second_file = first.1

-- Meanwhile Bob asks for the task and is refused, and Ann releases another claim.
abbrev meanwhile : List Call
meanwhile =
    claim (willing 100) (20 * second) another_claim_id (str "qa:1") (int (pos 30)) (str "bob-key-1")
      (str "bob")
    ∷ release (willing 200) (25 * second) (str "qa:1") (str another_claim_id) (str "ann")
    ∷ []

-- Ann asks again, with the same key.
abbrev again : Result ClaimedTask × File
unfolding claim_task run step release_task
again =
    claim_task service (30 * second) hundred (willing 300)
      (run service hundred meanwhile second_file) another_claim_id (str "qa:1") (int (pos 60))
      (str "ann-key-1") (str "ann")

abbrev replayed_claim : ClaimedTask
replayed_claim = record granted { replayed = true }

abbrev no_claims : Registers service hundred empty_file []
unfolding parse_lines read_ledger
no_claims = record { whole = refl; records = []; parsed = refl; read = refl }

first_claim :
    claim_task service
      (10 * second)
      hundred
      (willing 0)
      empty_file
      a_claim_id
      (str "qa:1")
      (int (pos 15))
      (str "ann-key-1")
      (str "ann")
    ≡ (ok granted, second_file)
unfolding transact read_records parse_line parse_lines commit write_record finish_write write_all
    add_record bounded_identity valid_task_id valid_idempotency_key valid_claim_id valid_duration
    text_such is_identity is_task_id is_idempotency_key is_claim_id all_chars any_char is_space
    lstrip rstrip strip in_class take_text get arg lookup insert erase parse_timestamp claimed_entry
    add_claim drop_claim read_record read_ledger unexpired ledger_claims grant replay claim_body
    release_held release_body safe_arg valid_or_safe conclude settle claim_decide release_decide
    claim_task release_task step run digits number
first_claim = refl

second_claim :
    claim_task service
      (30 * second)
      hundred
      (willing 300)
      (run service hundred meanwhile second_file)
      another_claim_id
      (str "qa:1")
      (int (pos 60))
      (str "ann-key-1")
      (str "ann")
    ≡ (ok replayed_claim, again.1)
unfolding transact read_records parse_line parse_lines commit write_record finish_write write_all
    add_record bounded_identity valid_task_id valid_idempotency_key valid_claim_id valid_duration
    text_such is_identity is_task_id is_idempotency_key is_claim_id all_chars any_char is_space
    lstrip rstrip strip in_class take_text get arg lookup insert erase parse_timestamp claimed_entry
    add_claim drop_claim read_record read_ledger unexpired ledger_claims grant replay claim_body
    release_held release_body safe_arg valid_or_safe conclude settle claim_decide release_decide
    claim_task release_task step run digits number
second_claim = refl

expiry_read : parse_timestamp binary granted.expires_at ≡ ok (910 * second)
unfolding parse_timestamp number
expiry_read = refl

claim_ids_differ : another_claim_id ≢ a_claim_id
claim_ids_differ e = let same = (eq_iff another_claim_id a_claim_id).1 e in cc (same)

meanwhile-Unreleased : All (λ c. Unreleased "qa:1" granted (910 * second) c) meanwhile
meanwhile-Unreleased = (
  (omega arith, λ e. cc),
  (
    (omega arith, λ e. let same : another_claim_id ≡ a_claim_id = cc (e) in claim_ids_differ same),
    tt,
  ),
)

one_owner_example :
    (str "ann" ≡ str "ann")
    × (replayed_claim.owner ≡ granted.owner)
    × (replayed_claim.claim_id ≡ granted.claim_id)
    × (replayed_claim.replayed ≡ true)
one_owner_example =
    one_owner service hundred binary-IsFaithful hundred_pos (willing 0) (10 * second) empty_file []
      a_claim_id "qa:1" (int (pos 15)) (str "ann-key-1") (str "ann") (910 * second) meanwhile
      (willing 300) (30 * second) another_claim_id (int (pos 60)) (str "ann-key-1") (str "ann")
      no_claims first_claim expiry_read meanwhile-Unreleased (omega arith) second_claim

service-IsSound_example :
    IsSound service hundred binary-IsFaithful hundred_pos (run service hundred meanwhile empty_file)
service-IsSound_example = service-IsSound service hundred binary-IsFaithful hundred_pos meanwhile

claim_task-Told_example :
    Told service hundred binary-IsFaithful hundred_pos
      (willing 0)
      (10 * second)
      empty_file
      a_claim_id
      (str "qa:1")
      (int (pos 15))
      (str "ann-key-1")
      (str "ann")
      second_file
      granted
claim_task-Told_example =
    claim_task-Told service hundred binary-IsFaithful hundred_pos (willing 0) (10 * second)
      empty_file a_claim_id (str "qa:1") (int (pos 15)) (str "ann-key-1") (str "ann") [] no_claims
      first_claim

abbrev held : ActiveClaim
held = record {
  task_id = "qa:1";
  claim_id = a_claim_id;
  owner = "ann";
  idempotency_key = "ann-key-1";
  claimed_at = "010100000000000000000000000000";
  expires_at = "011100011100000000000000000000";
}

abbrev first_records : List Fields
unfolding transact read_records parse_line parse_lines commit write_record finish_write write_all
    add_record bounded_identity valid_task_id valid_idempotency_key valid_claim_id valid_duration
    text_such is_identity is_task_id is_idempotency_key is_claim_id all_chars any_char is_space
    lstrip rstrip strip in_class take_text get arg lookup insert erase parse_timestamp claimed_entry
    add_claim drop_claim read_record read_ledger unexpired ledger_claims grant replay claim_body
    release_held release_body safe_arg valid_or_safe conclude settle claim_decide release_decide
    claim_task release_task step run digits number
first_records = elim (parse_lines second_file.lines) [ ok records ↦ records | err e ↦ [] ]

second-Holds : Holds service hundred second_file "qa:1" held
unfolding transact read_records parse_line parse_lines commit write_record finish_write write_all
    add_record bounded_identity valid_task_id valid_idempotency_key valid_claim_id valid_duration
    text_such is_identity is_task_id is_idempotency_key is_claim_id all_chars any_char is_space
    lstrip rstrip strip in_class take_text get arg lookup insert erase parse_timestamp claimed_entry
    add_claim drop_claim read_record read_ledger unexpired ledger_claims grant replay claim_body
    release_held release_body safe_arg valid_or_safe conclude settle claim_decide release_decide
    claim_task release_task step run digits number
second-Holds = record {
  claims = ("qa:1", held) ∷ [];
  registers = record { whole = refl; records = first_records; parsed = refl; read = refl };
  found = refl;
}

-- Ann asks at once again.
twice :
    claim_task service
      (11 * second)
      hundred
      (willing 100)
      second_file
      another_claim_id
      (str "qa:1")
      (int (pos 60))
      (str "ann-key-1")
      (str "ann")
    ≡ (
      ok replayed_claim,
      (claim_task service
          (11 * second)
          hundred
          (willing 100)
          second_file
          another_claim_id
          (str "qa:1")
          (int (pos 60))
          (str "ann-key-1")
          (str "ann")).1,
    )
unfolding transact read_records parse_line parse_lines commit write_record finish_write write_all
    add_record bounded_identity valid_task_id valid_idempotency_key valid_claim_id valid_duration
    text_such is_identity is_task_id is_idempotency_key is_claim_id all_chars any_char is_space
    lstrip rstrip strip in_class take_text get arg lookup insert erase parse_timestamp claimed_entry
    add_claim drop_claim read_record read_ledger unexpired ledger_claims grant replay claim_body
    release_held release_body safe_arg valid_or_safe conclude settle claim_decide release_decide
    claim_task release_task step run digits number
twice = refl

claim_task-held_example :
    (str "ann" ≡ str held.owner)
    × (str "ann-key-1" ≡ str held.idempotency_key)
    × (replayed_claim.owner ≡ held.owner)
    × (replayed_claim.claim_id ≡ held.claim_id)
    × (replayed_claim.expires_at ≡ held.expires_at)
    × (replayed_claim.replayed ≡ true)
claim_task-held_example =
    claim_task-held service hundred binary-IsFaithful hundred_pos (willing 100) (11 * second)
      second_file another_claim_id (str "qa:1") (int (pos 60)) (str "ann-key-1") (str "ann") "qa:1"
      held (910 * second) refl second-Holds expiry_read (omega arith) twice

abbrev decision {ℓ} : {A : Type ℓ} → Result (Decision A) → Decision A → Decision A
decision (ok d) other = d
decision (err e) other = other

abbrev no_decision : {A : Type 0} → Decision (Result A)
no_decision = record { entry = end; value = err other_exception }

abbrev to_claim : Decision (Result ClaimedTask)
unfolding transact read_records parse_line parse_lines commit write_record finish_write write_all
    add_record bounded_identity valid_task_id valid_idempotency_key valid_claim_id valid_duration
    text_such is_identity is_task_id is_idempotency_key is_claim_id all_chars any_char is_space
    lstrip rstrip strip in_class take_text get arg lookup insert erase parse_timestamp claimed_entry
    add_claim drop_claim read_record read_ledger unexpired ledger_claims grant replay claim_body
    release_held release_body safe_arg valid_or_safe conclude settle claim_decide release_decide
    claim_task release_task step run digits number
to_claim =
    decision
      (claim_decide service (10 * second) a_claim_id (str "qa:1") (int (pos 15)) (str "ann-key-1")
        (str "ann") [])
      no_decision

decided_claim :
    claim_decide service
      (10 * second)
      a_claim_id
      (str "qa:1")
      (int (pos 15))
      (str "ann-key-1")
      (str "ann")
      []
    ≡ ok to_claim
unfolding transact read_records parse_line parse_lines commit write_record finish_write write_all
    add_record bounded_identity valid_task_id valid_idempotency_key valid_claim_id valid_duration
    text_such is_identity is_task_id is_idempotency_key is_claim_id all_chars any_char is_space
    lstrip rstrip strip in_class take_text get arg lookup insert erase parse_timestamp claimed_entry
    add_claim drop_claim read_record read_ledger unexpired ledger_claims grant replay claim_body
    release_held release_body safe_arg valid_or_safe conclude settle claim_decide release_decide
    claim_task release_task step run digits number
decided_claim = refl

no_records : read_ledger binary (λ c. true) [] [] ≡ ok []
unfolding read_ledger
no_records = refl

claim_decide-Stands_example :
    Stands service (10 * second) binary-IsFaithful [] [] no_records none to_claim.entry
claim_decide-Stands_example =
    claim_decide-Stands service (10 * second) binary-IsFaithful [] [] no_records a_claim_id
      (str "qa:1") (int (pos 15)) (str "ann-key-1") (str "ann") to_claim decided_claim

abbrev to_release : Decision (Result ReleasedTask)
unfolding transact read_records parse_line parse_lines commit write_record finish_write write_all
    add_record bounded_identity valid_task_id valid_idempotency_key valid_claim_id valid_duration
    text_such is_identity is_task_id is_idempotency_key is_claim_id all_chars any_char is_space
    lstrip rstrip strip in_class take_text get arg lookup insert erase parse_timestamp claimed_entry
    add_claim drop_claim read_record read_ledger unexpired ledger_claims grant replay claim_body
    release_held release_body safe_arg valid_or_safe conclude settle claim_decide release_decide
    claim_task release_task step run digits number
to_release =
    decision
      (release_decide service (20 * second) (str "qa:1") (str a_claim_id) (str "ann") first_records)
      no_decision

decided_release :
    release_decide service (20 * second) (str "qa:1") (str a_claim_id) (str "ann") first_records
    ≡ ok to_release
unfolding transact read_records parse_line parse_lines commit write_record finish_write write_all
    add_record bounded_identity valid_task_id valid_idempotency_key valid_claim_id valid_duration
    text_such is_identity is_task_id is_idempotency_key is_claim_id all_chars any_char is_space
    lstrip rstrip strip in_class take_text get arg lookup insert erase parse_timestamp claimed_entry
    add_claim drop_claim read_record read_ledger unexpired ledger_claims grant replay claim_body
    release_held release_body safe_arg valid_or_safe conclude settle claim_decide release_decide
    claim_task release_task step run digits number
decided_release = refl

first_read : read_ledger binary (λ c. true) [] first_records ≡ ok (("qa:1", held) ∷ [])
unfolding transact read_records parse_line parse_lines commit write_record finish_write write_all
    add_record bounded_identity valid_task_id valid_idempotency_key valid_claim_id valid_duration
    text_such is_identity is_task_id is_idempotency_key is_claim_id all_chars any_char is_space
    lstrip rstrip strip in_class take_text get arg lookup insert erase parse_timestamp claimed_entry
    add_claim drop_claim read_record read_ledger unexpired ledger_claims grant replay claim_body
    release_held release_body safe_arg valid_or_safe conclude settle claim_decide release_decide
    claim_task release_task step run digits number
first_read = refl

release_decide-Stands_example :
    Stands service
      (20 * second)
      binary-IsFaithful
      first_records
      (("qa:1", held) ∷ [])
      first_read
      (some (str "qa:1", str "ann", str a_claim_id))
      to_release.entry
release_decide-Stands_example =
    release_decide-Stands service (20 * second) binary-IsFaithful first_records
      (("qa:1", held) ∷ []) first_read (str "qa:1") (str a_claim_id) (str "ann") to_release
      decided_release

read_ledger-IsValid_example : IsValid binary (λ c. true) (("qa:1", held) ∷ [])
read_ledger-IsValid_example = read_ledger-IsValid binary (λ c. true) [] first_records tt first_read

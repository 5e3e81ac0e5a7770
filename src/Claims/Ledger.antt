-- ===== src/Claims/Ledger.antt =====
-- `_ledger_claims` of core/task_claims.py: the active claims that the records of the ledger stand
-- for at an instant.
use jn_engine_contributor_mc.Base.{
  ℕ, ◌+◌, String, Bool, true, false, not, ◌&&◌, ◌||◌, Option, none, some, List, [], ◌∷◌, ltb, leb,
  ◌==◌, if◌then◌else◌,
}
use jn_engine_contributor_mc.Base.Text.{text_length}
use jn_engine_contributor_mc.Python.Json.{
  Json, null, arr, obj, Fields, get, as_dict, as_text, equals_one, equals_text,
}
use jn_engine_contributor_mc.Python.Result.{
  audit_unavailable, other_exception, Result, ok, err, ◌>>=◌, ◌>>◌, raise_if,
}
use jn_engine_contributor_mc.Python.Dict.{Dict, lookup, insert, erase}
use jn_engine_contributor_mc.Claims.{Calendar, ActiveClaim, minutes, max_claim_minutes}
use jn_engine_contributor_mc.Claims.Validate.{
  is_identity, is_task_id, is_idempotency_key, is_claim_id, text_such, or_raise,
}

abbrev pub Claims : Type 0
Claims = Dict ActiveClaim

-- `args.get(key) if isinstance(args, dict) else None`, with `args = record.get("args")`
unfoldable pub arg : Fields → String → Json
arg record' key = elim (as_dict (get record' "args")) [ none ↦ null | some args ↦ get args key ]

unfoldable pub parse_timestamp : Calendar → String → Result ℕ
parse_timestamp c value =
    if ltb 32 (text_length value)
    then err (audit_unavailable "claim ledger timestamp is malformed")
    else elim (c.parse value) [
      | none ↦ err (audit_unavailable "claim ledger timestamp is malformed")
      | some none ↦ err (audit_unavailable "claim ledger timestamp lacks a timezone")
      | some (some t) ↦ ok t
    ]

module _ (c : Calendar) (printable : ℕ → Bool) where
  -- The fields of a record of a granted claim, if each of them has its form.
  unfoldable pub claimed_entry : Fields → Option ActiveClaim
  claimed_entry r = elim (text_such is_task_id (arg r "task_id")) [
    | none ↦ none
    | some task_id ↦ elim (text_such is_idempotency_key (arg r "idempotency_key")) [
      | none ↦ none
      | some key ↦ elim (text_such (is_identity printable) (get r "caller_identity")) [
        | none ↦ none
        | some owner ↦ elim (text_such is_claim_id (get r "claim_id")) [
          | none ↦ none
          | some claim_id ↦ elim (as_text (get r "claimed_at")) [
            | none ↦ none
            | some claimed_at ↦ elim (as_text (get r "expires_at")) [
              | none ↦ none
              | some expires_at ↦ some (record {
                task_id = task_id;
                claim_id = claim_id;
                owner = owner;
                idempotency_key = key;
                claimed_at = claimed_at;
                expires_at = expires_at;
              })
            ]
          ]
        ]
      ]
    ]
  ]

  -- The branch of a granted claim.
  unfoldable pub add_claim : Claims → Fields → Result Claims
  add_claim claims r = do
    entry ← or_raise (claimed_entry r) (audit_unavailable "claim ledger record is malformed")
    start ← parse_timestamp c entry.claimed_at
    expiry ← parse_timestamp c entry.expires_at
    raise_if (leb expiry start || ltb (start + minutes max_claim_minutes) expiry)
        (audit_unavailable "claim ledger expiry is malformed")
    ok (insert entry.task_id entry claims)

  abbrev owned : Option ActiveClaim → String → String → Bool
  owned none claim_id owner = false
  owned (some current) claim_id owner = current.claim_id == claim_id && current.owner == owner

  -- The branch of a release that took place.
  unfoldable pub drop_claim : Claims → Fields → Result Claims
  drop_claim claims r = do
    task_id ←
        or_raise (text_such is_task_id (arg r "task_id"))
          (audit_unavailable "release ledger record is malformed")
    claim_id ←
        or_raise (text_such is_claim_id (arg r "claim_id"))
          (audit_unavailable "release ledger record is malformed")
    owner ←
        or_raise (text_such (is_identity printable) (get r "caller_identity"))
          (audit_unavailable "release ledger record is malformed")
    raise_if (not (owned (lookup task_id claims) claim_id owner))
        (audit_unavailable "release ledger does not match active ownership")
    ok (erase task_id claims)

  -- A list or a dict is not hashable, so `in` a set raises.
  abbrev is_unhashable : Json → Bool
  is_unhashable (arr _) = true
  is_unhashable (obj _) = true
  is_unhashable _ = false

  -- The body of the loop over the records.
  unfoldable pub read_record : Claims → Fields → Result Claims
  read_record claims r =
      let tool = get r "tool" in
      let outcome = get r "outcome" in
      if is_unhashable tool
      then err other_exception
      else if not (equals_text tool "claim_task" || equals_text tool "release_task")
      then ok claims
      else if not (equals_one (get r "schema_version"))
      then err (audit_unavailable "claim ledger schema version is unsupported")
      else if equals_text tool "claim_task" && equals_text outcome "claimed"
      then add_claim claims r
      else if equals_text tool "release_task" && equals_text outcome "released"
      then drop_claim claims r
      else ok claims

  unfoldable pub read_ledger : Claims → List Fields → Result Claims
  read_ledger claims [] = ok claims
  read_ledger claims (r ∷ rest) = read_record claims r >>= λ claims'. read_ledger claims' rest

  -- The claims that have not expired.
  unfoldable pub unexpired : ℕ → Claims → Result Claims
  unexpired now [] = ok []
  unexpired now ((task_id, claim) ∷ rest) = do
    expiry ← parse_timestamp c claim.expires_at
    claims ← unexpired now rest
    ok (if ltb now expiry then (task_id, claim) ∷ claims else claims)

  unfoldable pub ledger_claims : List Fields → ℕ → Result Claims
  ledger_claims records now = read_ledger [] records >>= unexpired now

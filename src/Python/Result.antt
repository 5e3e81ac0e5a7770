-- ===== src/Python/Result.antt =====
-- A call that may raise, and the exceptions of the collaboration tools (collaboration/errors.py).
use jn_engine_contributor_mc.Base.{String, ◌≡◌, refl, ◌⊎◌, inl, inr, Bool, true, false}

-- `CollaborationErrorCode`
pub data ErrorCode : Type 0 where
  credential_unavailable_code : ErrorCode
  upstream_unavailable_code : ErrorCode
  bad_args_code : ErrorCode
  not_found_code : ErrorCode
  write_disabled_code : ErrorCode
  conflict_code : ErrorCode

pub record CollaborationError : Type 0 where
  pub code : ErrorCode
  pub detail : String

-- `other_exception` is any exception of Python's own or of a library.
pub data Exception : Type 0 where
  collaboration : CollaborationError → Exception
  audit_unavailable : String → Exception
  other_exception : Exception

-- A call returns a value or raises.
pub data Result {ℓ} (Value : Type ℓ) : Type ℓ where
  ok : Value → Result Value
  err : Exception → Result Value

infixl 5 ◌>>=◌ ◌>>◌
-- A raise leaves out what comes next.
abbrev pub ◌>>=◌ {ℓ κ} :
    {B : Type κ} {A : Type ℓ} (call : Result A) (next : A → Result B) → Result B
err raised >>= next = err raised
ok value >>= next = next value

abbrev pub ◌>>◌ {κ} : {B : Type κ} (check : Result (Unit {0})) (rest : Result B) → Result B
check >> rest = check >>= λ done. rest

-- `if test: raise e`
abbrev pub raise_if : Bool → Exception → Result (Unit {0})
raise_if true e = err e
raise_if false e = ok tt

abbrev pub credential_unavailable : CollaborationError
credential_unavailable = record {
  code = credential_unavailable_code;
  detail = "the read-only GitHub credential is unavailable";
}

abbrev pub upstream_unavailable : CollaborationError
upstream_unavailable = record {
  code = upstream_unavailable_code;
  detail = "the collaboration service is temporarily unavailable";
}

abbrev pub bad_args : String → CollaborationError
bad_args detail = record { code = bad_args_code; detail = detail }

abbrev pub not_found : CollaborationError
not_found = record {
  code = not_found_code;
  detail = "the requested pull request, branch, or commit was not found";
}

abbrev pub write_disabled : CollaborationError
write_disabled = record {
  code = write_disabled_code;
  detail = "write actions are disabled on this deployment";
}

abbrev pub task_not_found : CollaborationError
task_not_found = record {
  code = not_found_code;
  detail = "the requested committed task was not found";
}

abbrev pub conflict : String → CollaborationError
conflict detail = record { code = conflict_code; detail = detail }

-- The text of an error code.
abbrev pub code_text : ErrorCode → String
code_text credential_unavailable_code = "credential_unavailable"
code_text upstream_unavailable_code = "upstream_unavailable"
code_text bad_args_code = "bad_args"
code_text not_found_code = "not_found"
code_text write_disabled_code = "write_disabled"
code_text conflict_code = "conflict"

pub Result-cases {ℓ} :
    {A : Type ℓ} (call : Result A)
    → ((value : A) × (call ≡ ok value)) ⊎ ((raised : Exception) × (call ≡ err raised))
Result-cases (err raised) = inr (raised, refl)
Result-cases (ok value) = inl (value, refl)

-- Two calls in a row return only if each of them does.
pub >>=-eq-ok {ℓ κ} :
    {B : Type κ} {A : Type ℓ} (call : Result A) (next : A → Result B) {last : B}
    → (call >>= next) ≡ ok last
    → (value : A) × (call ≡ ok value) × (next value ≡ ok last)
>>=-eq-ok (err raised) next returned = cc
>>=-eq-ok (ok value) next returned = (value, refl, returned)

-- ===== src/Claims/Validate.antt =====
-- The argument checks of core/task_claims.py.
use jn_engine_contributor_mc.Base.{
  ℕ, String, Bool, not, ◌&&◌, ◌||◌, Option, none, some, leb, eqb, ◌==◌, if◌then◌else◌,
}
use jn_engine_contributor_mc.Base.Int.{ℤ, pos, negsuc}
use jn_engine_contributor_mc.Base.Text.{
  any_char, all_chars, strip, text_length, in_class, is_digit, is_lower, is_upper, is_control,
}
use jn_engine_contributor_mc.Python.Json.{Json, as_text, as_strict_int}
use jn_engine_contributor_mc.Python.Result.{Exception, collaboration, bad_args, Result, ok, err}
use jn_engine_contributor_mc.Claims.{min_claim_minutes, max_claim_minutes}

-- `_IDEMPOTENCY_KEY`
unfoldable pub is_idempotency_key : String → Bool
is_idempotency_key =
    in_class
      (λ c.
        is_upper c || (is_lower c || (is_digit c || (eqb c b'.' || (eqb c b'_' || eqb c b'-')))))
      8 64

-- `_CLAIM_ID`
unfoldable pub is_claim_id : String → Bool
is_claim_id =
    in_class (λ c. is_upper c || (is_lower c || (is_digit c || (eqb c b'_' || eqb c b'-')))) 24 24

-- The test that `_bounded_identity` and the reader of the ledger make of an identity.
unfoldable pub is_identity : (ℕ → Bool) → String → Bool
is_identity printable s =
    not (s == "")
    && (leb (text_length s) 160 && (all_chars printable s && not (any_char is_control s)))

-- The test that `_task_id` and the reader of the ledger make of a task ID.
unfoldable pub is_task_id : String → Bool
is_task_id s =
    not (s == "") && (leb (text_length s) 256 && (s == strip s && not (any_char is_control s)))

-- `isinstance(value, str)` and a test of the text.
unfoldable pub text_such : (String → Bool) → Json → Option String
text_such p v = elim (as_text v) [ none ↦ none | some s ↦ if p s then some s else none ]

abbrev pub or_raise {ℓ} : {A : Type ℓ} → Option A → Exception → Result A
or_raise none e = err e
or_raise (some a) e = ok a

unfoldable pub bounded_identity : (ℕ → Bool) → Json → Result String
bounded_identity printable value =
    or_raise (text_such (is_identity printable) value)
      (collaboration (bad_args "authenticated caller identity is invalid"))

unfoldable pub valid_task_id : Json → Result String
valid_task_id value =
    or_raise (text_such is_task_id value)
      (collaboration (bad_args "task_id must be an exact printable committed task ID"))

unfoldable pub valid_idempotency_key : Json → Result String
valid_idempotency_key value = or_raise (text_such is_idempotency_key value) (
    collaboration (
      bad_args
        "idempotency_key must be 8..64 characters of letters, digits, dot, underscore, or hyphen"))

unfoldable pub valid_claim_id : Json → Result String
valid_claim_id value =
    or_raise (text_such is_claim_id value)
      (collaboration (bad_args "claim_id is invalid; use the value returned by claim_task"))

abbrev in_range : ℤ → Option ℕ
in_range (pos n) = if leb min_claim_minutes n && leb n max_claim_minutes then some n else none
in_range (negsuc n) = none

unfoldable pub valid_duration : Json → Result ℕ
valid_duration value =
    or_raise (elim (as_strict_int value) [ none ↦ none | some z ↦ in_range z ])
      (collaboration (bad_args "duration_minutes must be in 15..1440"))

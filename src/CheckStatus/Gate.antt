-- ===== src/CheckStatus/Gate.antt =====
-- The verdict of core/check_status.py on the states of the two required contexts.
use jn_engine_contributor_mc.Base.{
  ℕ, String, ◌≡◌, refl, sym, ap, ◌∙◌, ◌↔◌, Bool, not, true, false, arith, ltb, eq_iff,
  if◌then◌else◌,
}
use jn_engine_contributor_mc.Python.Json.{Json, null, str, Fields, get, equals_text}
use jn_engine_contributor_mc.CheckStatus.{
  ContextState, queued, in_progress, success, failure, neutral, cancelled, timed_out, missing,
  OverallState, reported, blocked, Contexts,
}
use jn_engine_contributor_mc.CheckStatus.Verdict.{
  conclusion_state, conclusion_of, state_of, context_state, overall, same_state,
}

-- How bad a state is.
abbrev pub severity : ContextState → ℕ
severity success = 0
severity neutral = 1
severity queued = 2
severity in_progress = 3
severity cancelled = 4
severity timed_out = 5
severity failure = 6
severity missing = 7

abbrev pub worse : ContextState → ContextState → ContextState
worse a b = if ltb (severity a) (severity b) then b else a

abbrev pub verdict : ContextState → ContextState → OverallState
verdict a b = if same_state (worse a b) missing then blocked else reported (worse a b)

-- The overall state is the worse one of the two, in the order success, neutral, queued, in progress,
-- cancelled, timed out, failure; and it is `blocked` if a context is missing.
pub overall-worse : (c : Contexts) → (overall c).0 ≡ verdict c.core.state c.assets.state
unfolding overall
overall-worse c = ground arith

success_of : (a b : ContextState) → verdict a b ≡ reported success → (a ≡ success) × (b ≡ success)
success_of a b h = ground arith

-- The overall state is success exactly if both contexts are.
pub overall-success_iff :
    (c : Contexts)
    → ((overall c).0 ≡ reported success) ↔ ((c.core.state ≡ success) × (c.assets.state ≡ success))
overall-success_iff c = (
  λ h. success_of c.core.state c.assets.state (sym (overall-worse c) ∙ h),
  λ both. overall-worse c ∙ rw (both.0, both.1) refl,
)

equals_text-eq : (v : Json) (s : String) → equals_text v s ≡ true → v ≡ str s
equals_text-eq null s h = cc
equals_text-eq (Json.bool b) s h = cc
equals_text-eq (Json.int z) s h = cc
equals_text-eq (Json.real m k) s h = cc
equals_text-eq Json.nonfinite s h = cc
equals_text-eq (str t) s h = ap str ((eq_iff t s).0 h)
equals_text-eq (Json.arr xs) s h = cc
equals_text-eq (Json.obj d) s h = cc

concluded : (v : Json) → conclusion_of v ≡ success → v ≡ str "success"
unfolding conclusion_state
concluded (str c) h = ap str ((eq_iff c "success").0 (ground arith))
concluded null h = ground arith
concluded (Json.bool b) h = ground arith
concluded (Json.int z) h = ground arith
concluded (Json.real m k) h = ground arith
concluded Json.nonfinite h = ground arith
concluded (Json.arr xs) h = ground arith
concluded (Json.obj d) h = ground arith

-- Only a completed job can be a success.
gated :
    (waits runs completed : Bool) (s : ContextState)
    → (if waits then queued else if runs then in_progress else if not completed then failure else s)
      ≡ success
    → (completed ≡ true) × (s ≡ success)
gated true runs completed s h = ground arith
gated false true completed s h = ground arith
gated false false false s h = ground arith
gated false false true s h = (refl, h)

state_of-eq :
    (status conclusion : Json)
    → status ≡ str "completed"
    → conclusion ≡ str "success"
    → state_of status conclusion ≡ state_of (str "completed") (str "success")
state_of-eq status conclusion p q =
    ap (λ v. state_of v conclusion) p ∙ ap (state_of (str "completed")) q

-- A job is a success exactly if it is completed with the conclusion success.
pub context_state-success_iff :
    (job : Fields)
    → (context_state job ≡ success)
      ↔ ((get job "status" ≡ str "completed") × (get job "conclusion" ≡ str "success"))
unfolding context_state conclusion_state
context_state-success_iff job = (
  λ h.
      let (completed, succeeded) = gated _ _ _ _ h in
      (
        equals_text-eq (get job "status") "completed" completed,
        concluded (get job "conclusion") succeeded,
      ),
  λ both. state_of-eq (get job "status") (get job "conclusion") both.0 both.1,
)

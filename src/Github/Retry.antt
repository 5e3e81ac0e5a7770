-- ===== src/Github/Retry.antt =====
-- How collaboration/github.py retries a read.
use jn_engine_contributor_mc.Base.{
  ℕ, zero, suc, ◌-◌, ◌≤◌, ◌≡◌, refl, sym, ◌∙◌, ap, String, false, Bool-cases, Option-cases, Option,
  none, some, List, [], ◌∷◌, ◌++◌, arith, ◌⊎◌, inl, inr, eqb,
}
use mathlib.Core.List.{append_assoc, append-nil}
use jn_engine_contributor_mc.Base.Int.{pos, negsuc}
use jn_engine_contributor_mc.Base.Lists.{length, All}
use jn_engine_contributor_mc.Python.Json.{Json}
use jn_engine_contributor_mc.Python.Result.{CollaborationError, Result}
use jn_engine_contributor_mc.Github.{
  Request, Reply, request_error, response, Remote, Library, Trail,
}
use jn_engine_contributor_mc.Github.Session.{
  Api, go_on, max_attempts, attempt_once, fetch, is_transient, delay_for, backoff, add_request,
}

abbrev pub replicate : ℕ → Request → List Request
replicate zero q = []
replicate (suc n) q = q ∷ replicate n q

module _ (lib : Library) where
  backoff-le : (attempt : ℕ) → backoff lib attempt ≤ 5000
  backoff-le zero = omega arith
  backoff-le (suc n) = omega arith

  delay_for-le : (header : Option String) (attempt : ℕ) → delay_for lib header attempt ≤ 5000
  unfolding delay_for
  delay_for-le none attempt = backoff-le attempt
  delay_for-le (some h) attempt = elim (Option-cases (lib.millis h)) [
    | inl e ↦ rw (e, delay_for) (backoff-le attempt)
    | inr (pos n, e) ↦ ground arith
    | inr (negsuc n, e) ↦ ground arith
  ]

  module _ {ℓ} {A : Type ℓ} (accept : Json → Option A) (missing : CollaborationError) where
    -- What an attempt leaves of the session that it is given.
    abbrev After : ℕ → Trail → (Result A × Trail) ⊎ Trail → Type 0
    After left t (inl (r, t')) = (t'.sent ≡ t.sent) × (t'.slept ≡ t.slept)
    After left t (inr t') =
        (1 ≤ left) × (t'.sent ≡ t.sent) × (n : ℕ) × (n ≤ 5000) × (t'.slept ≡ t.slept ++ n ∷ [])

    pos_of : (n : ℕ) → eqb n 0 ≡ false → 1 ≤ n
    pos_of n h = ground arith

    attempt_once-After :
        (left : ℕ) (t : Trail) (r : Reply) → After left t (attempt_once lib accept missing left t r)
    unfolding attempt_once
    attempt_once-After left t request_error = elim (Bool-cases (eqb left 0)) [
      | inl e ↦ rw e (refl, refl)
      | inr e ↦ rw e (pos_of left e, refl, _, delay_for-le none (max_attempts - 1 - left), refl)
    ]
    attempt_once-After left t (response r) = elim (Bool-cases (is_transient lib r)) [
      | inr e ↦ rw e (refl, refl)
      | inl e ↦ elim (Bool-cases (eqb left 0)) [
        | inl z ↦ rw (e, z) (refl, refl)
        | inr z ↦
            rw (e, z)
              (pos_of left z, refl, _, delay_for-le r.retry_after (max_attempts - 1 - left), refl)
      ]
    ]

    module _ (remote : Remote) (q : Request) where
      abbrev pub Bounded : ℕ → Trail → Trail → Type 0
      Bounded left t t' =
          (n : ℕ) × (naps : List ℕ) × (1 ≤ n)
          × (n ≤ suc left)
          × (t'.sent ≡ t.sent ++ replicate n q)
          × (t'.slept ≡ t.slept ++ naps)
          × All (λ nap. nap ≤ 5000) naps
          × (length naps ≤ left)

      done_bounds :
          (left : ℕ) (t t' : Trail)
          → t'.sent ≡ t.sent ++ q ∷ []
          → t'.slept ≡ t.slept
          → Bounded left t t'
      done_bounds left t t' p e =
          (1, [], omega arith, omega arith, p, e ∙ sym (append-nil t.slept), tt, omega arith)

      more_bounds :
          (left nap : ℕ) (t t' u : Trail)
          → nap ≤ 5000
          → t'.sent ≡ t.sent ++ q ∷ []
          → t'.slept ≡ t.slept ++ nap ∷ []
          → Bounded left t' u
          → Bounded (suc left) t u
      more_bounds left nap t t' u small p e (n, naps, low, high, sent, slept, all, len) = (
        suc n,
        nap ∷ naps,
        omega arith,
        omega arith,
        sent ∙ ap (λ x. x ++ replicate n q) p ∙ append_assoc t.sent (q ∷ []) (replicate n q),
        slept ∙ ap (λ x. x ++ naps) e ∙ append_assoc t.slept (nap ∷ []) naps,
        (small, all),
        omega arith,
      )

      last_bounds :
          (t : Trail) (o : (Result A × Trail) ⊎ Trail) (rest : Api A)
          → After zero (add_request lib q t) o
          → Bounded zero t (go_on rest o).1
      last_bounds t (inl (r, t')) rest (p, e) = done_bounds zero t t' p e
      last_bounds t (inr t') rest (low, p, nap, small, e) = absurd (omega arith)

      next_bounds :
          (left : ℕ) (t : Trail) (o : (Result A × Trail) ⊎ Trail) (rest : Api A)
          → After (suc left) (add_request lib q t) o
          → ((t' : Trail) → Bounded left t' (rest t').1)
          → Bounded (suc left) t (go_on rest o).1
      next_bounds left t (inl (r, t')) rest (p, e) ih = done_bounds (suc left) t t' p e
      next_bounds left t (inr t') rest (low, p, nap, small, e) ih =
          more_bounds left nap t t' (rest t').1 small p e (ih t')

      -- With `left` attempts to come after the first one, a read sends its request once to `left` + 1
      -- times and nothing else, and it sleeps at most `left` times, for at most five seconds each.
      pub fetch_bounds :
          (left : ℕ) (t : Trail) → Bounded left t (fetch lib accept remote missing q (suc left) t).1
      unfolding fetch
      fetch_bounds zero t =
          last_bounds t
            (attempt_once lib accept missing zero (add_request lib q t) (remote t.sent q)) _
            (attempt_once-After zero (add_request lib q t) (remote t.sent q))
      fetch_bounds (suc left) t =
          next_bounds left t
            (attempt_once lib accept missing (suc left) (add_request lib q t) (remote t.sent q)) _
            (attempt_once-After (suc left) (add_request lib q t) (remote t.sent q))
            (fetch_bounds left)

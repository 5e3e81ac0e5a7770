-- ===== src/Github/Session.antt =====
-- The requests of collaboration/github.py: reads with bounded retries, and mutations sent once.
use jn_engine_contributor_mc.Base.{
  ℕ, zero, suc, ◌-◌, String, Bool, true, false, not, ◌&&◌, ◌||◌, ◌⊎◌, inl, inr, Option, none, some,
  List, [], ◌∷◌, ◌++◌, ltb, leb, eqb, ◌==◌, if◌then◌else◌,
}
use jn_engine_contributor_mc.Base.Int.{ℤ, pos, negsuc}
use jn_engine_contributor_mc.Base.Lists.{any}
use jn_engine_contributor_mc.Base.Text.{contains}
use jn_engine_contributor_mc.Python.Json.{Json, null, Fields, end, Items, as_dict, as_list}
use jn_engine_contributor_mc.Python.Result.{
  CollaborationError, collaboration, credential_unavailable, not_found, upstream_unavailable,
  Result, ok, err,
}
use jn_engine_contributor_mc.Github.{
  get_method, post_method, Request, Response, Reply, request_error, response, Remote, Library,
  Trail,
}

-- A step of a call: the session as it is then comes back after a raise too.
abbrev pub Api {ℓ} : Type ℓ → Type ℓ
Api A = Trail → Result A × Trail

abbrev pub continue {ℓ κ} :
    {A : Type ℓ} {B : Type κ} → Result A × Trail → (A → Api B) → Result B × Trail
continue (ok a, t) f = f a t
continue (err e, t) f = (err e, t)

infixl 5 ◌>>=◌ ◌>>◌
abbrev pub ◌>>=◌ {ℓ κ} : {A : Type ℓ} {B : Type κ} → Api A → (A → Api B) → Api B
◌>>=◌ m f t = continue (m t) f

abbrev pub ◌>>◌ {ℓ} : {B : Type ℓ} → Api (Unit {0}) → Api B → Api B
m >> k = m >>= λ _. k

abbrev pub lift {ℓ} : {A : Type ℓ} → Result A → Api A
lift r t = (r, t)

abbrev pub fail {ℓ} : {A : Type ℓ} → CollaborationError → Api A
fail e t = (err (collaboration e), t)

-- An assignment to a local variable that the audit record reads.
abbrev pub note_base : String → Api (Unit {0})
note_base commit t = (ok tt, record t { base = some commit })

abbrev pub note_head : String → Api (Unit {0})
note_head commit t = (ok tt, record t { head = some commit })

abbrev pub go_on {ℓ} : {A : Type ℓ} → Api A → (Result A × Trail) ⊎ Trail → Result A × Trail
go_on rest (inl done) = done
go_on rest (inr t) = rest t

abbrev pub max_attempts : ℕ
max_attempts = 3

abbrev pub is_some_text : Option String → Bool
is_some_text none = false
is_some_text (some _) = true

abbrev pub is_text : Option String → String → Bool
is_text none s = false
is_text (some t) s = t == s

abbrev pub is_success : ℕ → Bool
is_success status = leb 200 status && ltb status 300

module _ (lib : Library) where
  -- `_rate_limited`
  unfoldable pub rate_limited : Response → Bool
  rate_limited r =
      if eqb r.status 429
      then true
      else if not (eqb r.status 403)
      then false
      else (is_some_text r.retry_after
          || (is_text r.remaining "0"
              || (contains (lib.casefold r.text) "secondary rate limit"
                  || contains (lib.casefold r.text) "rate limit exceeded")))

  -- `min(max(x, 0.0), 5.0)`, in milliseconds.
  abbrev pub clamp : ℤ → ℕ
  clamp (pos n) = if ltb 5000 n then 5000 else n
  clamp (negsuc n) = 0

  -- `BACKOFF_SECONDS`
  abbrev pub backoff : ℕ → ℕ
  backoff zero = 250
  backoff (suc _) = 750

  -- `_delay`
  unfoldable pub delay_for : Option String → ℕ → ℕ
  delay_for none attempt = backoff attempt
  delay_for (some header) attempt = elim (lib.millis header) [
    | none ↦ backoff attempt
    | some x ↦ clamp x
  ]

  abbrev pub sleep : ℕ → Trail → Trail
  sleep n t = record t { slept = t.slept ++ n ∷ [] }

  abbrev pub add_request : Request → Trail → Trail
  add_request q t = record t { sent = t.sent ++ q ∷ [] }

  abbrev pub add_status : ℕ → Trail → Trail
  add_status n t = record t { statuses = t.statuses ++ n ∷ [] }

  -- A response that is retried, while attempts are left.
  unfoldable pub is_transient : Response → Bool
  unfolding rate_limited
  is_transient r =
      not (is_success r.status || (eqb r.status 401 || eqb r.status 404))
      && (leb 500 r.status || rate_limited r)

  module _ {ℓ} {A : Type ℓ} (accept : Json → Option A) where
    -- The body of a successful response.
    unfoldable pub accepted : Response → Result A
    accepted r = elim r.body [
      | none ↦ err (collaboration upstream_unavailable)
      | some v ↦ elim (accept v) [ none ↦ err (collaboration upstream_unavailable) | some a ↦ ok a ]
    ]

    -- What becomes of a response that is not retried.
    unfoldable pub settled : CollaborationError → Response → Result A
    unfolding accepted
    settled missing r =
        if is_success r.status
        then accepted r
        else if eqb r.status 401
        then err (collaboration credential_unavailable)
        else if eqb r.status 404
        then err (collaboration missing)
        else if eqb r.status 403
        then err (collaboration credential_unavailable)
        else err (collaboration upstream_unavailable)

    module _ (missing : CollaborationError) where
      -- The body of the loop: the end of the call, or the session with which it goes on. `left` is
      -- the number of attempts to come after this one.
      unfoldable pub attempt_once : ℕ → Trail → Reply → (Result A × Trail) ⊎ Trail
      unfolding settled is_transient
      attempt_once left t request_error =
          if eqb left 0
          then inl (err (collaboration upstream_unavailable), t)
          else inr (sleep (delay_for none (max_attempts - 1 - left)) t)
      attempt_once left t (response r) =
          let t₁ = add_status r.status t in
          if is_transient r
          then (if eqb left 0
              then inl (err (collaboration upstream_unavailable), t₁)
              else inr (sleep (delay_for r.retry_after (max_attempts - 1 - left)) t₁))
          else inl (settled missing r, t₁)

    module _ (remote : Remote) (missing : CollaborationError) (q : Request) where
      -- The loop over the attempts.
      unfoldable pub fetch : ℕ → Api A
      fetch zero t = (err (collaboration upstream_unavailable), t)
      fetch (suc left) t =
          go_on (fetch left) (attempt_once missing left (add_request q t) (remote t.sent q))

  module _ (remote : Remote) where
    abbrev pub get_request : String → Fields → Request
    get_request path params = record {
      method = get_method;
      path = path;
      params = params;
      body = null;
    }

    -- `GitHubReadSession.get`
    unfoldable pub get : String → Fields → Bool → Api Fields
    unfolding fetch
    get path params not_found_is_credential =
        fetch as_dict remote (if not_found_is_credential then credential_unavailable else not_found)
          (get_request path params) max_attempts

    -- `GitHubWriteSession.get_list`
    unfoldable pub get_list : String → Fields → Api Items
    unfolding fetch
    get_list path params = fetch as_list remote not_found (get_request path params) max_attempts

    abbrev pub send_result : List ℕ → Response → Result (ℕ × Fields)
    send_result handled r =
        if is_success r.status || any (eqb r.status) handled
        then elim (accepted as_dict r) [ ok fs ↦ ok (r.status, fs) | err e ↦ err e ]
        else if eqb r.status 401 || eqb r.status 403
        then err (collaboration credential_unavailable)
        else if eqb r.status 404
        then err (collaboration not_found)
        else err (collaboration upstream_unavailable)

    -- `GitHubWriteSession.send`, by POST.
    unfoldable pub send : String → Json → List ℕ → Api (ℕ × Fields)
    unfolding accepted
    send path body handled t =
        let q : Request = record { method = post_method; path = path; params = end; body = body } in
        let t₁ = add_request q t in
        elim (remote t.sent q) [
          | request_error ↦ (err (collaboration upstream_unavailable), t₁)
          | response r ↦ (send_result handled r, add_status r.status t₁)
        ]

abbrev pub new_trail : Trail
new_trail = record { sent = []; statuses = []; slept = []; base = none; head = none }

-- `begin`, by what the token loader returns: `none` is its `OSError` or `ValueError`.
unfoldable pub begin_session : Option String → Result (Unit {0})
begin_session none = err (collaboration credential_unavailable)
begin_session (some token) =
    if token == "" then err (collaboration credential_unavailable) else ok tt

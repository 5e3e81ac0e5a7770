-- ===== src/Github/Answered.antt =====
-- Calls through collaboration/github.py that only read, with the replies that they go by.
use jn_engine_contributor_mc.Base.{
  ℕ, zero, suc, ◌≡◌, refl, sym, ◌∙◌, ap, subst, String, Bool, true, Bool-cases, inl, inr, some,
  List, [], ◌∷◌, ◌++◌, arith, eqb,
}
use mathlib.Core.List.{append_assoc, append-nil}
use jn_engine_contributor_mc.Python.Json.{obj, Fields, as_dict}
use jn_engine_contributor_mc.Python.Result.{CollaborationError, Result, ok, err}
use jn_engine_contributor_mc.Github.{
  Request, Response, Reply, request_error, response, Remote, Library, Trail,
}
use jn_engine_contributor_mc.Github.Session.{
  Api, continue, ◌>>=◌, lift, go_on, get, get_request, fetch, max_attempts, attempt_once,
  add_request, accepted, settled, is_transient, is_success,
}
use jn_engine_contributor_mc.Github.Retry.{replicate, fetch_bounds}
use jn_engine_contributor_mc.Github.Emits.{posts, posts-append, posts-replicate}

-- GitHub answered the request, one of those that were sent, with success and this object.
pub record Answered (remote : Remote) (sent : List Request) (q : Request) (payload : Fields)
    : Type 0 where
  pub before : List Request
  pub later : List Request
  pub split : before ++ (q ∷ later) ≡ sent
  pub reply : Response
  pub reply_is : remote before q ≡ response reply
  pub succeeds : is_success reply.status ≡ true
  pub body_is : reply.body ≡ some (obj payload)

pub Answered-more :
    {remote : Remote} {sent : List Request} {q : Request} {payload : Fields} (s more : List Request)
    → s ≡ sent ++ more
    → Answered remote sent q payload
    → Answered remote s q payload
Answered-more {q = q} s more h a = record {
  before = a.before;
  later = a.later ++ more;
  split = sym (append_assoc a.before (q ∷ a.later) more) ∙ ap (λ r. r ++ more) a.split ∙ sym h;
  reply = a.reply;
  reply_is = a.reply_is;
  succeeds = a.succeeds;
  body_is = a.body_is;
}

-- From the requests `before` on, the call sends no mutation, and a value that it returns meets `Q` with all
-- the requests sent by then.
pub record Yields {ℓ} {A : Type ℓ} (m : Api A) (before : List Request)
    (Q : List Request → A → Type 0) : Type ℓ where
  pub at :
      (t : Trail)
      → t.sent ≡ before
      → (more : List Request) × ((m t).1.sent ≡ before ++ more)
        × (posts more ≡ [])
        × ((a : A) → (m t).0 ≡ ok a → Q (m t).1.sent a)

module _ {ℓ} {A : Type ℓ} where
  pub Yields-tap :
      {Q : List Request → A → Type 0} (f : Api A) (before : List Request)
      → ((t : Trail) → (f t).1.sent ≡ t.sent)
      → ((t : Trail) (a : A) → (f t).0 ≡ ok a → Q before a)
      → Yields f before Q
  Yields-tap {Q = Q} f before h q = record {
    at = λ t e.
        let same = h t ∙ e in
        ([], same ∙ sym (append-nil before), refl, λ a k. subst (λ s. Q s a) (sym same) (q t a k));
  }

  pub Yields-lift :
      {Q : List Request → A → Type 0} (r : Result A) (before : List Request)
      → ((a : A) → r ≡ ok a → Q before a)
      → Yields (lift r) before Q
  Yields-lift r before q = Yields-tap (lift r) before (λ t. refl) (λ t. q)

module _ {ℓ κ} {A : Type ℓ} {B : Type κ} where
  continue-Yields :
      {Q : List Request → A → Type 0} {R : List Request → B → Type 0} (before : List Request)
      (p : Result A × Trail) (f : A → Api B)
      → ((a : A) (s more : List Request) → s ≡ before ++ more → Q s a → Yields (f a) s R)
      → (more : List Request) × (p.1.sent ≡ before ++ more)
        × (posts more ≡ [])
        × ((a : A) → p.0 ≡ ok a → Q p.1.sent a)
      → (more : List Request) × ((continue p f).1.sent ≡ before ++ more)
        × (posts more ≡ [])
        × ((b : B) → (continue p f).0 ≡ ok b → R (continue p f).1.sent b)
  continue-Yields before (err e, t) f hf (more, grown, quiet, all) = (more, grown, quiet, λ b h. cc)
  continue-Yields before (ok a, t) f hf (more, grown, quiet, all) =
      let (more', grown', quiet', all') = (hf a t.sent more grown (all a refl)).at t refl in
      (
        more ++ more',
        grown' ∙ ap (λ r. r ++ more') grown ∙ append_assoc before more more',
        posts-append more more' ∙ ap (λ r. r ++ posts more') quiet ∙ quiet',
        all',
      )

  pub Yields-bind :
      {Q : List Request → A → Type 0} {R : List Request → B → Type 0} {before : List Request}
      (m : Api A) (f : A → Api B)
      → Yields m before Q
      → ((a : A) (s more : List Request) → s ≡ before ++ more → Q s a → Yields (f a) s R)
      → Yields (m >>= f) before R
  Yields-bind {before = before} m f hm hf = record {
    at = λ t e. continue-Yields before (m t) f hf (hm.at t e);
  }

ok_inj {ℓ} : {A : Type ℓ} (a b : A) → ok a ≡ ok b → a ≡ b
ok_inj a b h = cc

module _ (lib : Library) (remote : Remote) (missing : CollaborationError) (q : Request)
    (payload : Fields) where
  accepted-body : (r : Response) → accepted lib as_dict r ≡ ok payload → r.body ≡ some (obj payload)
  unfolding accepted
  accepted-body r h = ground arith

  settled-ok :
      (r : Response)
      → settled lib as_dict missing r ≡ ok payload
      → (is_success r.status ≡ true) × (r.body ≡ some (obj payload))
  unfolding settled
  settled-ok r h = ground (arith, accepted-body r)

  -- A reply that is not retried, and that a value was returned for, was a success with that value.
  go_on-Answered :
      (left : ℕ) (t : Trail) (reply : Reply) (rest : Api Fields)
      → remote t.sent q ≡ reply
      → ((t' : Trail) → (rest t').0 ≡ ok payload → Answered remote (rest t').1.sent q payload)
      → (go_on rest (attempt_once lib as_dict missing left (add_request lib q t) reply)).0
        ≡ ok payload
      → Answered remote
          (go_on rest (attempt_once lib as_dict missing left (add_request lib q t) reply)).1.sent
          q
          payload
  unfolding attempt_once
  go_on-Answered left t request_error rest e ih = elim (Bool-cases (eqb left 0)) [
    | inl z ↦ rw z (λ h. cc)
    | inr z ↦ rw z (λ h. ih _ h)
  ]
  go_on-Answered left t (response r) rest e ih = elim (Bool-cases (is_transient lib r)) [
    | inl w ↦ elim (Bool-cases (eqb left 0)) [
      | inl z ↦ rw (w, z) (λ h. cc)
      | inr z ↦ rw (w, z) (λ h. ih _ h)
    ]
    | inr w ↦ rw w (λ h.
        let (good, body) = settled-ok r h in
        record {
          before = t.sent;
          later = [];
          split = refl;
          reply = r;
          reply_is = e;
          succeeds = good;
          body_is = body;
        })
  ]

  fetch-Answered :
      (left : ℕ) (t : Trail)
      → (fetch lib as_dict remote missing q left t).0 ≡ ok payload
      → Answered remote (fetch lib as_dict remote missing q left t).1.sent q payload
  unfolding fetch
  fetch-Answered zero t = λ h. cc
  fetch-Answered (suc left) t =
      go_on-Answered left t (remote t.sent q) (fetch lib as_dict remote missing q left) refl
        (fetch-Answered left)

module _ (lib : Library) (remote : Remote) where
  -- What `get` returns is the object that GitHub answered with.
  pub get-Yields :
      (path : String) (params : Fields) (b : Bool) (before : List Request)
      → Yields
          (get lib remote path params b)
          before
          (λ sent payload. Answered remote sent (get_request lib remote path params) payload)
  unfolding get
  get-Yields path params b before = record {
    at = λ t e.
        let q = get_request lib remote path params in
        let (n, naps, low, high, sent, slept, all, len) = fetch_bounds lib as_dict _ remote q 2 t in
        (
          replicate n q,
          sent ∙ ap (λ r. r ++ replicate n q) e,
          posts-replicate n q refl,
          λ payload h. fetch-Answered lib remote _ q payload max_attempts t h,
        );
  }

-- ===== src/Github/Emits.antt =====
-- What a call through collaboration/github.py sends: the mutations in their order, and a predicate
-- that every request meets. One rule for each way to build a call.
use jn_engine_contributor_mc.Base.{
  ℕ, zero, suc, ◌≡◌, refl, sym, ◌∙◌, ap, subst, String, Bool, Option, List, [], ◌∷◌, ◌++◌, arith,
}
use mathlib.Core.List.{append_assoc, append-nil}
use jn_engine_contributor_mc.Base.Lists.{All, All-append}
use jn_engine_contributor_mc.Python.Json.{Json, Fields, end, as_dict, as_list}
use jn_engine_contributor_mc.Python.Result.{CollaborationError, Result, ok, err}
use jn_engine_contributor_mc.Github.{get_method, post_method, Request, Remote, Library, Trail}
use jn_engine_contributor_mc.Github.Session.{
  Api, continue, ◌>>=◌, lift, fail, get, get_list, send, get_request, fetch, max_attempts,
}
use jn_engine_contributor_mc.Github.Retry.{replicate, fetch_bounds}

-- The paths of the mutations, in their order.
abbrev pub posts : List Request → List String
posts [] = []
posts (q ∷ sent) = elim q.method [ get_method ↦ posts sent | post_method ↦ q.path ∷ posts sent ]

pub posts-append : (xs ys : List Request) → posts (xs ++ ys) ≡ posts xs ++ posts ys
posts-append [] ys = refl
posts-append (q ∷ xs) ys = ground (arith, posts-append xs ys)

pub posts-replicate : (n : ℕ) (q : Request) → q.method ≡ get_method → posts (replicate n q) ≡ []
posts-replicate zero q h = refl
posts-replicate (suc n) q h = ground (arith, posts-replicate n q h)

All-replicate {κ} : (P : Request → Type κ) (n : ℕ) (q : Request) → P q → All P (replicate n q)
All-replicate P zero q h = tt
All-replicate P (suc n) q h = (h, All-replicate P n q h)

-- What was done is a part from the front of the list; after a return it is all of it, and the value
-- meets `Q`.
abbrev pub Part {ℓ} :
    {A : Type ℓ} → List String → List String → (A → Type 0) → Result A × Trail → Type ℓ
Part {A} before paths Q p =
    (done : List String) × (rest : List String) × (done ++ rest ≡ paths)
    × (posts p.1.sent ≡ before ++ done)
    × ((a : A) → p.0 ≡ ok a → (rest ≡ []) × Q a)

-- The call sends the mutations at `paths`, in this order and each of them once: all of them if it
-- returns, and then the value meets `Q`; a part from the front if it raises.
pub record Emits {ℓ} {A : Type ℓ} (m : Api A) (paths : List String) (Q : A → Type 0) : Type ℓ where
  pub at : (t : Trail) → Part (posts t.sent) paths Q (m t)

-- Every request that the call adds meets `P`.
pub record Sends {ℓ} {A : Type ℓ} (P : Request → Type 0) (m : Api A) : Type ℓ where
  pub at : (t : Trail) → All P t.sent → All P (m t).1.sent

module _ {ℓ} {A : Type ℓ} where
  pub Emits-tap :
      {Q : A → Type 0} (f : Api A)
      → ((t : Trail) → (f t).1.sent ≡ t.sent)
      → ((t : Trail) (a : A) → (f t).0 ≡ ok a → Q a)
      → Emits f [] Q
  Emits-tap f h q = record {
    at = λ t.
        ([], [], refl, ap posts (h t) ∙ sym (append-nil (posts t.sent)), λ a e. (refl, q t a e));
  }

  pub Emits-lift :
      {Q : A → Type 0} (r : Result A) → ((a : A) → r ≡ ok a → Q a) → Emits (lift r) [] Q
  Emits-lift r q = Emits-tap (lift r) (λ t. refl) (λ t. q)

  pub Emits-fail : {Q : A → Type 0} (e : CollaborationError) → Emits (fail {A = A} e) [] Q
  Emits-fail e = Emits-tap (fail e) (λ t. refl) (λ t a h. cc)

  pub Sends-tap :
      {P : Request → Type 0} (f : Api A) → ((t : Trail) → (f t).1.sent ≡ t.sent) → Sends P f
  Sends-tap {P} f h = record { at = λ t before. subst (All P) (sym (h t)) before }

  pub Sends-lift : {P : Request → Type 0} (r : Result A) → Sends P (lift r)
  Sends-lift r = record { at = λ t h. h }

  pub Sends-fail : {P : Request → Type 0} (e : CollaborationError) → Sends P (fail {A = A} e)
  Sends-fail e = record { at = λ t h. h }

module _ {ℓ κ} {A : Type ℓ} {B : Type κ} where
  continue-Sends :
      {P : Request → Type 0} (p : Result A × Trail) (f : A → Api B)
      → ((a : A) → Sends P (f a))
      → All P p.1.sent
      → All P (continue p f).1.sent
  continue-Sends (ok a, t) f hf h = (hf a).at t h
  continue-Sends (err e, t) f hf h = h

  pub Sends-bind :
      {P : Request → Type 0} (m : Api A) (f : A → Api B)
      → Sends P m
      → ((a : A) → Sends P (f a))
      → Sends P (m >>= f)
  Sends-bind m f hm hf = record { at = λ t h. continue-Sends (m t) f hf (hm.at t h) }

  pub continue-Part :
      (before xs ys : List String) {Q : A → Type 0} {R : B → Type 0} (p : Result A × Trail)
      (f : A → Api B)
      → ((a : A) → Q a → Emits (f a) ys R)
      → Part before xs Q p
      → Part before (xs ++ ys) R (continue p f)
  continue-Part before xs ys (ok a, t) f hf (done, rest, split, sent, all) =
      let (none_left, q) = all a refl in
      let (done', rest', split', sent', all') = (hf a q).at t in
      let whole : done ≡ xs = sym (append-nil done) ∙ ap (λ r. done ++ r) (sym none_left) ∙ split in
      (
        xs ++ done',
        rest',
        append_assoc xs done' rest' ∙ ap (λ r. xs ++ r) split',
        sent'
            ∙ ap (λ r. r ++ done') sent
            ∙ append_assoc before done done'
            ∙ ap (λ r. before ++ (r ++ done')) whole,
        all',
      )
  continue-Part before xs ys (err e, t) f hf (done, rest, split, sent, all) =
      (done, rest ++ ys, sym (append_assoc done rest ys) ∙ ap (λ r. r ++ ys) split, sent, λ c h. cc)

  pub Emits-bind :
      {Q : A → Type 0} {R : B → Type 0} (m : Api A) (f : A → Api B) (xs ys : List String)
      → Emits m xs Q
      → ((a : A) → Q a → Emits (f a) ys R)
      → Emits (m >>= f) (xs ++ ys) R
  Emits-bind m f xs ys hm hf = record {
    at = λ t. continue-Part (posts t.sent) xs ys (m t) f hf (hm.at t);
  }

abbrev pub Any {ℓ} : {A : Type ℓ} → A → Type 0
Any a = Unit

module _ (lib : Library) (remote : Remote) where
  fetch-Emits {ℓ} :
      {A : Type ℓ} (accept : Json → Option A) (missing : CollaborationError) (q : Request)
      → q.method ≡ get_method
      → Emits (fetch lib accept remote missing q max_attempts) [] Any
  fetch-Emits accept missing q h = record {
    at = λ t.
        let (n, naps, low, high, sent, slept, all, len) =
          fetch_bounds lib accept missing remote q 2 t in
        (
          [],
          [],
          refl,
          ap posts sent
              ∙ posts-append t.sent (replicate n q)
              ∙ ap (λ r. posts t.sent ++ r) (posts-replicate n q h),
          λ a e. (refl, tt),
        );
  }

  fetch-Sends {ℓ} :
      {A : Type ℓ} {P : Request → Type 0} (accept : Json → Option A) (missing : CollaborationError)
      (q : Request)
      → P q
      → Sends P (fetch lib accept remote missing q max_attempts)
  fetch-Sends {P = P} accept missing q h = record {
    at = λ t before.
        let (n, naps, low, high, sent, slept, all, len) =
          fetch_bounds lib accept missing remote q 2 t in
        subst (All P) (sym sent)
          (All-append P t.sent (replicate n q) before (All-replicate P n q h));
  }

  pub get-Emits :
      (path : String) (params : Fields) (b : Bool) → Emits (get lib remote path params b) [] Any
  unfolding get
  get-Emits path params b = fetch-Emits as_dict _ (get_request lib remote path params) refl

  pub get-Sends :
      {P : Request → Type 0} (path : String) (params : Fields) (b : Bool)
      → P (get_request lib remote path params)
      → Sends P (get lib remote path params b)
  unfolding get
  get-Sends path params b h = fetch-Sends as_dict _ (get_request lib remote path params) h

  pub get_list-Emits :
      (path : String) (params : Fields) → Emits (get_list lib remote path params) [] Any
  unfolding get_list
  get_list-Emits path params = fetch-Emits as_list _ (get_request lib remote path params) refl

  pub get_list-Sends :
      {P : Request → Type 0} (path : String) (params : Fields)
      → P (get_request lib remote path params)
      → Sends P (get_list lib remote path params)
  unfolding get_list
  get_list-Sends path params h = fetch-Sends as_list _ (get_request lib remote path params) h

  pub send-sent :
      (path : String) (body : Json) (handled : List ℕ) (t : Trail)
      → (send lib remote path body handled t).1.sent
        ≡ t.sent ++ record { method = post_method; path = path; params = end; body = body } ∷ []
  unfolding send
  send-sent path body handled t = ground arith

  -- A mutation is sent once, whatever the answer.
  pub send-Emits :
      (path : String) (body : Json) (handled : List ℕ)
      → Emits (send lib remote path body handled) (path ∷ []) Any
  send-Emits path body handled = record {
    at = λ t. (
      path ∷ [],
      [],
      refl,
      ap posts (send-sent path body handled t)
          ∙ posts-append t.sent
              (record { method = post_method; path = path; params = end; body = body } ∷ []),
      λ a e. (refl, tt),
    );
  }

  pub send-Sends :
      {P : Request → Type 0} (path : String) (body : Json) (handled : List ℕ)
      → P (record { method = post_method; path = path; params = end; body = body })
      → Sends P (send lib remote path body handled)
  send-Sends {P} path body handled h = record {
    at = λ t before. subst (All P) (sym (send-sent path body handled t)) (
        All-append P t.sent
          (record { method = post_method; path = path; params = end; body = body } ∷ []) before
          (h, tt));
  }

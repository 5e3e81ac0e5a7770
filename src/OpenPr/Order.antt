-- ===== src/OpenPr/Order.antt =====
-- The order of the mutations of core/open_pr.py.
use Prim.Native.String
use text.Mathlib.Text.{starts_with}
use jn_engine_contributor_mc.Base.{
  ℕ, String, ◌≡◌, inl, inr, false, Bool-cases, Option, none, some, List, [], ◌∷◌, ◌++◌, arith, eqb,
}
use jn_engine_contributor_mc.Python.Json.{Json, Fields, end, Items, nil, cons, as_dict, as_text}
use jn_engine_contributor_mc.Python.Json
use jn_engine_contributor_mc.Python.Result.{
  collaboration, audit_unavailable, other_exception, Result, ok, err, upstream_unavailable,
}
use jn_engine_contributor_mc.Github.{Remote, Library, Trail}
use jn_engine_contributor_mc.Github.Session.{Api, ◌>>=◌, lift, get, send}
use jn_engine_contributor_mc.Github.Reads.{Reads, lift-Reads, bind-Reads, read_then, fail-Emits}
use jn_engine_contributor_mc.Github.Emits.{
  posts, Part, Emits, Any, Emits-bind, Emits-fail, continue-Part, get-Emits, get_list-Emits,
  send-Emits,
}
use jn_engine_contributor_mc.OpenPr.{Proposal}
use jn_engine_contributor_mc.OpenPr.Steps.{
  base_commit, existing_branch_head, head_idempotency_key, create_commit, create_branch,
  create_pull, pull_result, find_open_pr, find_trailer, sha_of, pr_of, first_pr, or_unavailable,
  head_of, trailer_in,
}

abbrev pub trees : String
trees = "/repos/alexscott2718-gif/jn-engine/git/trees"

abbrev pub commits : String
commits = "/repos/alexscott2718-gif/jn-engine/git/commits"

abbrev pub refs : String
refs = "/repos/alexscott2718-gif/jn-engine/git/refs"

abbrev pub pulls : String
pulls = "/repos/alexscott2718-gif/jn-engine/pulls"

rest_none : (done rest : List String) → done ++ rest ≡ [] → rest ≡ []
rest_none [] rest h = h
rest_none (x ∷ done) rest h = ground arith

module _ (lib : Library) (remote : Remote) where
  send_then {κ} :
      {B : Type κ} {paths : List String} {R : B → Type 0} {path : String} (body : Json)
      (handled : List ℕ) (f : ℕ × Fields → Api B)
      → ((reply : ℕ × Fields) → Emits (f reply) paths R)
      → Emits (send lib remote path body handled >>= f) (path ∷ paths) R
  send_then {paths = paths} {path = path} body handled f hf =
      Emits-bind _ f (path ∷ []) paths (send-Emits lib remote path body handled)
        (λ reply q. hf reply)

  get-Reads : (path : String) → Reads (get lib remote path end false)
  get-Reads path = get-Emits lib remote path end false

  sha_of-Reads : (payload : Fields) → Reads (sha_of lib remote payload)
  sha_of-Reads payload = search (bind-Reads, lift-Reads)

  pub base_commit-Reads : Reads (base_commit lib remote)
  unfolding base_commit
  base_commit-Reads = search (bind-Reads, get-Reads, sha_of-Reads)

  pr_of-Reads : (item : Fields) → Reads (pr_of lib remote item)
  pr_of-Reads item = search (bind-Reads, lift-Reads)

  first_pr-Reads : (items : Items) → Reads (first_pr lib remote items)
  first_pr-Reads nil = lift-Reads (ok none)
  first_pr-Reads (cons raw rest) = search (bind-Reads, lift-Reads, pr_of-Reads)

  find_open_pr-Reads : (branch : String) → Reads (find_open_pr lib remote branch)
  unfolding find_open_pr
  find_open_pr-Reads branch = bind-Reads _ _ (get_list-Emits lib remote _ _) first_pr-Reads

  pub head_idempotency_key-Reads :
      (commit : String) → Reads (head_idempotency_key lib remote commit)
  unfolding head_idempotency_key
  head_idempotency_key-Reads commit =
      bind-Reads _ _ (get-Reads _) λ payload. trailer-Reads (as_text (Json.get payload "message"))
    where
      trailer-Reads : (o : Option String) → Reads (trailer_in lib remote o)
      trailer-Reads none = Emits-fail upstream_unavailable
      trailer-Reads (some m) = lift-Reads (ok (find_trailer m))

  -- The answer to the read of a branch leaves the trail as it is.
  head_of-Reads :
      (before : List String) (p : Result Fields × Trail)
      → Part before [] Any p
      → Part before [] (Any {A = Option String}) (head_of lib remote p)
  head_of-Reads before (ok payload, t) h =
      continue-Part before [] [] (ok payload, t)
        (λ payload. sha_of lib remote payload >>= λ sha. lift (ok (some sha)))
        (λ payload q. bind-Reads _ _ (sha_of-Reads payload) (λ sha. lift-Reads (ok (some sha)))) h
  head_of-Reads before (err (collaboration e), t) (done, rest, split, sent, all) =
      let none_left = rest_none done rest split in
      (done, rest, split, ground arith, λ a h. (none_left, tt))
  head_of-Reads before (err (audit_unavailable m), t) (done, rest, split, sent, all) =
      (done, rest, split, sent, λ a h. cc)
  head_of-Reads before (err other_exception, t) (done, rest, split, sent, all) =
      (done, rest, split, sent, λ a h. cc)

  pub existing_branch_head-Reads :
      (branch : String) → Reads (existing_branch_head lib remote branch)
  unfolding existing_branch_head
  existing_branch_head-Reads branch = record {
    at = λ t. head_of-Reads (posts t.sent) _ ((get-Reads _).at t);
  }

  pub create_commit-Emits :
      (base : String) (p : Proposal) (caller : String)
      → Emits (create_commit lib remote base p caller) (trees ∷ commits ∷ []) Any
  unfolding create_commit
  create_commit-Emits base p caller = search (read_then, send_then, lift-Reads, get-Reads) depth 24

  pub create_branch-Emits :
      (branch commit : String) → Emits (create_branch lib remote branch commit) (refs ∷ []) Any
  unfolding create_branch
  create_branch-Emits branch commit =
      elim (Bool-cases (starts_with (String.◌++◌ "refs/heads/" branch) "refs/heads/contrib/")) [
        | inr e ↦ rw e (fail-Emits _ (refs ∷ []))
        | inl e ↦ rw e (send_then _ _ _ λ reply. lift-Reads _)
      ]

  pull_result-Reads :
      (branch : String) (reply : ℕ × Fields) → Reads (pull_result lib remote branch reply)
  unfolding pull_result
  pull_result-Reads branch reply = elim (Bool-cases (eqb reply.0 422)) [
    | inl e ↦ rw e (bind-Reads _ _ (find_open_pr-Reads branch) found-Reads)
    | inr e ↦ rw e (pr_of-Reads reply.1)
  ]
    where
      found-Reads : (o : Option (ℕ × String)) → Reads (or_unavailable lib remote o)
      found-Reads none = Emits-fail upstream_unavailable
      found-Reads (some pr) = lift-Reads (ok pr)

  pub create_pull-Emits :
      (branch title body : String)
      → Emits (create_pull lib remote branch title body) (pulls ∷ []) Any
  unfolding create_pull
  create_pull-Emits branch title body = send_then _ _ _ (pull_result-Reads branch)

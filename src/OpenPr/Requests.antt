-- ===== src/OpenPr/Requests.antt =====
-- What core/open_pr.py can ask of GitHub, whatever the arguments and the answers are.
use Prim.Native.String.{◌++◌}
use text.Mathlib.Text.{starts_with}
use jn_engine_contributor_mc.Base.{
  ℕ, String, ◌≡◌, refl, inl, inr, true, false, Bool-cases, Option, none, some, [], arith, eqb,
}
use jn_engine_contributor_mc.Base.Lists.{All}
use jn_engine_contributor_mc.Python.Json.{Json, Fields, end, Items, nil, cons, str, obj}
use jn_engine_contributor_mc.Python.Json
use jn_engine_contributor_mc.Python.Result.{
  collaboration, audit_unavailable, other_exception, Result, ok, err, upstream_unavailable,
}
use jn_engine_contributor_mc.Github.{get_method, Request, Remote, Library, Trail}
use jn_engine_contributor_mc.Github.Session.{Api, lift, get, send}
use jn_engine_contributor_mc.Github.Emits.{
  Sends, Sends-bind, Sends-lift, Sends-fail, get-Sends, get_list-Sends, send-Sends,
}
use jn_engine_contributor_mc.OpenPr.{Proposal}
use jn_engine_contributor_mc.OpenPr.Steps.{
  repos, base_commit, existing_branch_head, head_idempotency_key, create_commit, create_branch,
  create_pull, pull_result, find_open_pr, sha_of, pr_of, first_pr, or_unavailable, head_of,
  trailer_in,
}

-- A request that a call on this branch may send: a read, a tree, a commit, the one ref of the branch,
-- which is under contrib/, and a pull request from the branch to master.
pub data IsAllowed (branch : String) (q : Request) : Type 0 where
  reads : q.method ≡ get_method → IsAllowed branch q
  makes_tree : q.path ≡ repos ++ "/git/trees" → IsAllowed branch q
  makes_commit : q.path ≡ repos ++ "/git/commits" → IsAllowed branch q
  makes_ref :
      (body : Fields)
      → q.path ≡ repos ++ "/git/refs"
      → q.body ≡ obj body
      → Json.get body "ref" ≡ str ("refs/heads/" ++ branch)
      → starts_with ("refs/heads/" ++ branch) "refs/heads/contrib/" ≡ true
      → IsAllowed branch q
  makes_pull :
      (body : Fields)
      → q.path ≡ repos ++ "/pulls"
      → q.body ≡ obj body
      → Json.get body "head" ≡ str branch
      → Json.get body "base" ≡ str "master"
      → IsAllowed branch q

module _ (lib : Library) (remote : Remote) (branch : String) where
  abbrev pub Fine {ℓ} : {A : Type ℓ} → Api A → Type ℓ
  Fine m = Sends (IsAllowed branch) m

  pub read-Fine : (path : String) → Fine (get lib remote path end false)
  read-Fine path = get-Sends lib remote path end false (reads refl)

  pub sha_of-Fine : (payload : Fields) → Fine (sha_of lib remote payload)
  sha_of-Fine payload = search (Sends-bind, Sends-lift)

  pub base_commit-Fine : Fine (base_commit lib remote)
  unfolding base_commit
  base_commit-Fine = search (Sends-bind, read-Fine, sha_of-Fine)

  pub head_of-Fine :
      (p : Result Fields × Trail)
      → All (IsAllowed branch) p.1.sent
      → All (IsAllowed branch) (head_of lib remote p).1.sent
  head_of-Fine (ok payload, t) h =
      (Sends-bind (sha_of lib remote payload) (λ sha. lift (ok (some sha))) (sha_of-Fine payload)
          (λ sha. Sends-lift (ok (some sha)))).at
        t h
  head_of-Fine (err (collaboration e), t) h = ground arith
  head_of-Fine (err (audit_unavailable m), t) h = h
  head_of-Fine (err other_exception, t) h = h

  pub existing_branch_head-Fine : Fine (existing_branch_head lib remote branch)
  unfolding existing_branch_head
  existing_branch_head-Fine = record { at = λ t h. head_of-Fine _ ((read-Fine _).at t h) }

  pub trailer_in-Fine : (o : Option String) → Fine (trailer_in lib remote o)
  trailer_in-Fine none = Sends-fail upstream_unavailable
  trailer_in-Fine (some m) = Sends-lift _

  pub head_idempotency_key-Fine : (commit : String) → Fine (head_idempotency_key lib remote commit)
  unfolding head_idempotency_key
  head_idempotency_key-Fine commit = Sends-bind _ _ (read-Fine _) (λ payload. trailer_in-Fine _)

  pub tree-Fine : (body : Json) → Fine (send lib remote (repos ++ "/git/trees") body [])
  tree-Fine body = send-Sends lib remote _ body [] (makes_tree refl)

  pub commit-Fine : (body : Json) → Fine (send lib remote (repos ++ "/git/commits") body [])
  commit-Fine body = send-Sends lib remote _ body [] (makes_commit refl)

  pub create_commit-Fine :
      (base : String) (p : Proposal) (caller : String)
      → Fine (create_commit lib remote base p caller)
  unfolding create_commit
  create_commit-Fine base p caller =
      search (Sends-bind, Sends-lift, read-Fine, tree-Fine, commit-Fine) depth 20

  pub create_branch-Fine : (commit : String) → Fine (create_branch lib remote branch commit)
  unfolding create_branch Json.get
  create_branch-Fine commit =
      elim (Bool-cases (starts_with ("refs/heads/" ++ branch) "refs/heads/contrib/")) [
        | inr e ↦ rw e (Sends-fail _)
        | inl e ↦ rw e (
            Sends-bind _ _ (send-Sends lib remote _ _ [] (makes_ref _ refl refl refl e))
              (λ reply. Sends-lift (ok tt)))
      ]

  pub pr_of-Fine : (item : Fields) → Fine (pr_of lib remote item)
  pr_of-Fine item = search (Sends-bind, Sends-lift)

  pub first_pr-Fine : (items : Items) → Fine (first_pr lib remote items)
  first_pr-Fine nil = Sends-lift _
  first_pr-Fine (cons raw rest) = search (Sends-bind, Sends-lift, pr_of-Fine)

  pub or_unavailable-Fine : (o : Option (ℕ × String)) → Fine (or_unavailable lib remote o)
  or_unavailable-Fine none = Sends-fail _
  or_unavailable-Fine (some pr) = Sends-lift _

  pub find_open_pr-Fine : (name : String) → Fine (find_open_pr lib remote name)
  unfolding find_open_pr
  find_open_pr-Fine name = Sends-bind _ _ (get_list-Sends lib remote _ _ (reads refl)) first_pr-Fine

  pub pull_result-Fine :
      (name : String) (reply : ℕ × Fields) → Fine (pull_result lib remote name reply)
  unfolding pull_result
  pull_result-Fine name reply = elim (Bool-cases (eqb reply.0 422)) [
    | inl e ↦ rw e (Sends-bind _ _ (find_open_pr-Fine name) or_unavailable-Fine)
    | inr e ↦ rw e (pr_of-Fine reply.1)
  ]

  pub create_pull-Fine : (title body : String) → Fine (create_pull lib remote branch title body)
  unfolding create_pull Json.get
  create_pull-Fine title body =
      Sends-bind _ _ (send-Sends lib remote _ _ _ (makes_pull _ refl refl refl refl))
        (pull_result-Fine branch)

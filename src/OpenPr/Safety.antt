-- ===== src/OpenPr/Safety.antt =====
-- The PR-only guarantee of core/open_pr.py: every request of a call, for every GitHub.
use jn_engine_contributor_mc.Base.{
  ℕ, String, ◌≡◌, refl, ◌⊎◌, inl, inr, true, false, Bool-cases, Option, none, some, [],
}
use jn_engine_contributor_mc.Base.Lists.{All}
use jn_engine_contributor_mc.Python.Json.{Fields}
use jn_engine_contributor_mc.Python.Result.{ok, Result-cases}
use jn_engine_contributor_mc.Audit.{File, Host}
use jn_engine_contributor_mc.Github.{Remote, Library}
use jn_engine_contributor_mc.Github.Session.{note_base, note_head, new_trail}
use jn_engine_contributor_mc.Github.Emits.{Sends-bind, Sends-lift, Sends-fail, Sends-tap}
use jn_engine_contributor_mc.OpenPr.{Proposal, Arguments}
use jn_engine_contributor_mc.OpenPr.Validate.{is_branch, validate}
use jn_engine_contributor_mc.OpenPr.Accepted.{validate-parts, validate_branch-ok}
use jn_engine_contributor_mc.OpenPr.Service.{
  same_key, is_stale, opened, replay_branch, make_branch, branch_step, publish, open_body, open_pr,
}
use jn_engine_contributor_mc.OpenPr.Requests.{
  IsAllowed, Fine, base_commit-Fine, existing_branch_head-Fine, head_idempotency_key-Fine,
  create_commit-Fine, create_branch-Fine, create_pull-Fine,
}

module _ (lib : Library) (remote : Remote) (p : Proposal) where
  note_head-Fine : (commit : String) → Fine lib remote p.branch (note_head commit)
  note_head-Fine commit = Sends-tap (note_head commit) (λ t. refl)

  note_base-Fine : (commit : String) → Fine lib remote p.branch (note_base commit)
  note_base-Fine commit = Sends-tap (note_base commit) (λ t. refl)

  replay_branch-Fine : (head : String) → Fine lib remote p.branch (replay_branch lib remote p head)
  unfolding replay_branch
  replay_branch-Fine head =
      Sends-bind _ _ (head_idempotency_key-Fine lib remote p.branch head) λ key.
        elim (Bool-cases (same_key key p.key)) [
          | inl e ↦ rw e (Sends-bind _ _ (note_head-Fine head) (λ u. Sends-lift (ok (head, true))))
          | inr e ↦ rw e (Sends-fail _)
        ]

  make_branch-Fine :
      (caller base : String) → Fine lib remote p.branch (make_branch lib remote p caller base)
  unfolding make_branch
  make_branch-Fine caller base = elim (Bool-cases (is_stale p.expected_base base)) [
    | inl e ↦ rw e (Sends-fail _)
    | inr e ↦ rw e (
        Sends-bind _ _ (create_commit-Fine lib remote p.branch base p caller) (λ head.
          Sends-bind _ _ (note_head-Fine head) (λ u.
            Sends-bind _ _ (create_branch-Fine lib remote p.branch head)
              (λ v. Sends-lift (ok (head, false))))))
  ]

  branch_step-Fine :
      (caller base : String) (o : Option String)
      → Fine lib remote p.branch (branch_step lib remote p caller base o)
  branch_step-Fine caller base none = make_branch-Fine caller base
  branch_step-Fine caller base (some head) = replay_branch-Fine head

  publish-Fine :
      (token : Option String) (opened_at caller : String)
      → Fine lib remote p.branch (publish lib remote token opened_at caller p)
  unfolding publish
  publish-Fine token opened_at caller = Sends-bind _ _ (Sends-lift _) λ u.
      Sends-bind _ _ (base_commit-Fine lib remote p.branch) λ base.
        Sends-bind _ _ (note_base-Fine base) λ v.
          Sends-bind _ _ (existing_branch_head-Fine lib remote p.branch) λ existing.
            Sends-bind _ _ (branch_step-Fine caller base existing) λ done.
              Sends-bind _ _ (create_pull-Fine lib remote p.branch p.title p.body)
                λ pr. Sends-lift (ok (opened lib remote p opened_at base done pr))

module _ (lib : Library) (remote : Remote) (encoded : Fields → ℕ) where
  -- Whatever the arguments, the answers of GitHub and the audit log are: a call of open_pr sends nothing,
  -- or its arguments are valid, with a branch that matches contrib/<name>, and each request that it sends
  -- is a read, a tree, a commit, the ref refs/heads/<branch>, or a pull request from <branch> to master.
  pub open_pr-IsAllowed :
      (host : Host) (log : File) (token : Option String) (opened_at : String) (a : Arguments)
      → ((open_pr lib remote encoded host log token opened_at a).2.sent ≡ [])
        ⊎ ((p : Proposal) × (validate a ≡ ok p)
            × (is_branch p.branch ≡ true)
            × All
                (IsAllowed p.branch)
                (open_pr lib remote encoded host log token opened_at a).2.sent)
  unfolding open_pr open_body
  open_pr-IsAllowed host log token opened_at a = elim (Result-cases (validate a)) [
    | inr (e, invalid) ↦ inl (rw invalid refl)
    | inl (p, valid) ↦ inr (
      p,
      valid,
      (validate_branch-ok a.branch (validate-parts a valid).0).0,
      rw valid ((publish-Fine lib remote p token opened_at a.caller_identity).at new_trail tt),
    )
  ]

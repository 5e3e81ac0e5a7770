-- ===== src/CheckStatus/Green.antt =====
-- A call of core/check_status.py: it only reads, and what its success stands on.
use jn_engine_contributor_mc.Base.{
  ℕ, String, ◌≡◌, refl, subst, sym, ap, ◌∙◌, inl, inr, Bool-cases, Option, none, some, List, [],
  arith,
}
use jn_engine_contributor_mc.Python.Json.{Json, Fields, get, as_text}
use jn_engine_contributor_mc.Python.Result.{other_exception, Result, ok, err}
use jn_engine_contributor_mc.Audit.{File, Host}
use jn_engine_contributor_mc.Github.{Request, Remote, Library}
use jn_engine_contributor_mc.Github.Session.{note_head, new_trail, begin_session}
use jn_engine_contributor_mc.Github.Emits.{posts}
use jn_engine_contributor_mc.Github.Answered.{
  Yields, Yields-tap, Yields-lift, Yields-bind, get-Yields,
}
use jn_engine_contributor_mc.CheckStatus.{success, reported, CheckStatus, Conversions}
use jn_engine_contributor_mc.CheckStatus.Verdict.{overall}
use jn_engine_contributor_mc.CheckStatus.Gate.{overall-success_iff}
use jn_engine_contributor_mc.CheckStatus.Steps.{
  is_null, validate_request, require_dict, require_string,
}
use jn_engine_contributor_mc.CheckStatus.Service.{
  branch_ref, pull_ref, full_sha, asked_commit, ref_of, commit_of, resolve, head_sha, status_of,
  check_body, checked, check,
}
use jn_engine_contributor_mc.CheckStatus.Founded.{
  IsGreen, Founded, Steps, plain_step, contexts-Founded,
}

module _ (lib : Library) (remote : Remote) (conv : Conversions) where
  head_sha-Steps :
      (payload : Fields) (before : List Request)
      → Steps lib remote conv (head_sha lib remote conv payload) before
  head_sha-Steps payload before =
      Yields-bind _ _ (plain_step lib remote conv (require_dict (get payload "object")) before)
        λ object s m g u. plain_step lib remote conv (require_string (get object "sha")) s

  branch_ref-Steps :
      (o : Option String) (before : List Request)
      → Steps lib remote conv (branch_ref lib remote conv o) before
  branch_ref-Steps none before = plain_step lib remote conv (err other_exception) before
  branch_ref-Steps (some b) before =
      Yields-bind _ _ (get-Yields lib remote _ _ _ before) λ payload s m g u.
        Yields-bind _ _ (head_sha-Steps payload s) λ sha s₁ m₁ g₁ v. plain_step lib remote conv _ s₁

  pull_ref-Steps :
      (pr : String) (before : List Request)
      → Steps lib remote conv (pull_ref lib remote conv pr) before
  pull_ref-Steps pr before = Yields-bind _ _ (get-Yields lib remote _ _ _ before) λ payload s m g u.
      Yields-bind _ _ (head_sha-Steps payload s) λ sha s₁ m₁ g₁ v. plain_step lib remote conv _ s₁

  asked_commit-Steps :
      (o : Option String) (before : List Request)
      → Steps lib remote conv (asked_commit lib remote conv o) before
  asked_commit-Steps none before = plain_step lib remote conv (err other_exception) before
  asked_commit-Steps (some c) before =
      Yields-bind _ _ (plain_step lib remote conv (full_sha lib remote conv c) before)
        λ selected s m g u. Yields-bind _ _ (get-Yields lib remote _ _ _ s) λ payload s₁ m₁ g₁ v.
          Yields-bind _ _ (plain_step lib remote conv (require_string (get payload "sha")) s₁)
            λ sha s₂ m₂ g₂ w. plain_step lib remote conv _ s₂

  ref_of-Steps :
      (pr branch : Json) (before : List Request)
      → Steps lib remote conv (ref_of lib remote conv pr branch) before
  ref_of-Steps pr branch before = elim (Bool-cases (is_null pr)) [
    | inl e ↦ rw e (branch_ref-Steps (as_text branch) before)
    | inr e ↦ rw e (pull_ref-Steps (conv.to_str pr) before)
  ]

  commit_of-Steps :
      (commit : Json) (sha : String) (before : List Request)
      → Steps lib remote conv (commit_of lib remote conv commit sha) before
  commit_of-Steps commit sha before = elim (Bool-cases (is_null commit)) [
    | inl e ↦ rw e (plain_step lib remote conv (full_sha lib remote conv sha) before)
    | inr e ↦ rw e (asked_commit-Steps (as_text commit) before)
  ]

  resolve-Steps :
      (pr branch commit : Json) (before : List Request)
      → Steps lib remote conv (resolve lib remote conv pr branch commit) before
  unfolding resolve
  resolve-Steps pr branch commit before =
      Yields-bind _ _ (ref_of-Steps pr branch before) λ at s m g u.
        Yields-bind _ _ (commit_of-Steps commit at.1 s)
          λ selected s₁ m₁ g₁ v. plain_step lib remote conv (ok (at.0, selected)) s₁

  -- The contexts of a status stand on reports of jobs of its commit.
  abbrev Reported : List Request → CheckStatus → Type 0
  Reported sent s =
      Founded lib remote conv sent s.commit s.contexts × (s.overall_state ≡ (overall s.contexts).0)

  check_body-Reported :
      (token : Option String) (checked_at : String) (pr branch commit : Json)
      → Yields (check_body lib remote conv token checked_at pr branch commit) [] Reported
  unfolding check_body
  check_body-Reported token checked_at pr branch commit =
      Yields-bind _ _ (plain_step lib remote conv (validate_request pr branch commit) [])
        λ u s₀ m₀ g₀ w₀.
          Yields-bind _ _ (plain_step lib remote conv (begin_session token) s₀) λ v s₁ m₁ g₁ w₁.
            Yields-bind _ _ (resolve-Steps pr branch commit s₁) λ at s₂ m₂ g₂ w₂.
              Yields-bind {Q = λ sent a. Unit} _ _
                (Yields-tap (note_head at.1) s₂ (λ t. refl) (λ t a e. tt))
                λ w s₃ m₃ g₃ w₃.
                  Yields-bind _ _ (contexts-Founded lib remote conv at.1 s₃)
                    λ found s₄ m₄ g₄ founded.
                      Yields-lift
                        (ok (status_of lib remote conv checked_at at.0 at.1 found.0 found.1)) s₄
                        (λ s e.
                          let same : status_of lib remote conv checked_at at.0 at.1 found.0 found.1
                              ≡ s =
                            cc (e) in
                          subst (Reported s₄) same (founded, refl))

checked-ok :
    (w : Result (Unit {0})) (r : Result CheckStatus) {s : CheckStatus}
    → checked w r ≡ ok s
    → r ≡ ok s
checked-ok (ok u) (ok a) h = h
checked-ok (ok u) (err e) h = ground arith
checked-ok (err e) r h = ground arith

module _ (lib : Library) (remote : Remote) (conv : Conversions) (encoded : Fields → ℕ) (host : Host)
    (log : File) (token : Option String) (checked_at : String) (pr branch commit : Json)
    (caller : String) where
  -- Whatever the arguments and the answers are, a call of check sends no mutation to GitHub.
  pub check-posts :
      posts (check lib remote conv encoded host log token checked_at pr branch commit caller).2.sent
      ≡ []
  unfolding check
  check-posts =
      let (more, grown, quiet, all) =
        (check_body-Reported lib remote conv token checked_at pr branch commit).at new_trail refl in
      ap posts grown ∙ quiet

  -- A call of check that returns an overall success has read a job named `core` and a job named
  -- `assets`: GitHub answered a request of the call with a list of the runs of the commit that is returned,
  -- and one for the jobs of such a run with a list that has the job; each of the two is completed with the
  -- conclusion success, and the contexts are the reports of these.
  pub check-success :
      {s : CheckStatus}
      → (check lib remote conv encoded host log token checked_at pr branch commit caller).0 ≡ ok s
      → s.overall_state ≡ reported success
      → IsGreen lib remote conv
          (check lib remote conv encoded host log token checked_at pr branch commit caller).2.sent
          s.commit
          "core"
          s.contexts.core
        × IsGreen lib remote conv
            (check lib remote conv encoded host log token checked_at pr branch commit caller).2.sent
            s.commit
            "assets"
            s.contexts.assets
  unfolding check
  check-success {s} h good =
      let (more, grown, quiet, all) =
        (check_body-Reported lib remote conv token checked_at pr branch commit).at new_trail refl in
      let (founded, is_overall) = all s (checked-ok _ _ h) in
      let (core_ok, assets_ok) = (overall-success_iff s.contexts).0 (sym is_overall ∙ good) in
      (founded.0 core_ok, founded.1 assets_ok)

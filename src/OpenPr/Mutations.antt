-- ===== src/OpenPr/Mutations.antt =====
-- The mutations of a call of core/open_pr.py, in their order.
use jn_engine_contributor_mc.Base.{
  ℕ, String, ◌≡◌, refl, subst, sym, ap, ◌∙◌, inl, inr, Bool, true, false, Bool-cases, Option, none,
  some, List, [], ◌∷◌, ◌++◌, arith, if◌then◌else◌,
}
use mathlib.Core.List.{append-nil}
use jn_engine_contributor_mc.Python.Json.{Fields}
use jn_engine_contributor_mc.Python.Result.{Result, ok, err}
use jn_engine_contributor_mc.Audit.{File, Host}
use jn_engine_contributor_mc.Github.{Remote, Library, Trail}
use jn_engine_contributor_mc.Github.Session.{
  Api, continue, ◌>>=◌, lift, note_base, note_head, new_trail,
}
use jn_engine_contributor_mc.Github.Emits.{
  posts, Part, Emits, Any, Emits-bind, Emits-lift, Emits-tap,
}
use jn_engine_contributor_mc.OpenPr.{Proposal, OpenedPr, Arguments}
use jn_engine_contributor_mc.OpenPr.Validate.{validate}
use jn_engine_contributor_mc.OpenPr.Steps.{create_pull}
use jn_engine_contributor_mc.OpenPr.Service.{
  same_key, is_stale, opened, replay_branch, make_branch, branch_step, publish, open_body,
  concluded, open_pr,
}
use jn_engine_contributor_mc.Github.Reads.{none_done, Reads, lift-Reads, read_then, fail-Emits}
use jn_engine_contributor_mc.OpenPr.Order.{
  trees, commits, refs, pulls, base_commit-Reads, existing_branch_head-Reads,
  head_idempotency_key-Reads, create_commit-Emits, create_branch-Emits, create_pull-Emits,
}

-- The mutations of a call that runs to its end.
abbrev pub mutations : Bool → List String
mutations replayed = if replayed then pulls ∷ [] else trees ∷ commits ∷ refs ∷ pulls ∷ []

abbrev Says : Bool → String × Bool → Type 0
Says b done = done.1 ≡ b

abbrev Reports : Bool → OpenedPr → Type 0
Reports b pr = pr.replayed ≡ b

-- The call is one of the two: the mutations of a replay, or those of a new branch.
record Runs (m : Api OpenedPr) : Type 0 where
  at : (t : Trail) → (b : Bool) × Part (posts t.sent) (mutations b) (Reports b) (m t)

continue-Runs {ℓ} :
    {A : Type ℓ} (before : List String) (r : Result A × Trail) (f : A → Api OpenedPr)
    → ((a : A) → Runs (f a))
    → Part before [] Any r
    → (b : Bool) × Part before (mutations b) (Reports b) (continue r f)
continue-Runs before (ok a, t) f hf (done, rest, split, sent, all) =
    let (none_left, q) = all a refl in
    let here : posts t.sent ≡ before =
      sent
      ∙ ap (λ r. before ++ r) (sym (append-nil done) ∙ ap (λ r. done ++ r) (sym none_left) ∙ split)
      ∙ append-nil before in
    subst (λ l. (b : Bool) × Part l (mutations b) (Reports b) (f a t)) here ((hf a).at t)
continue-Runs before (err e, t) f hf (done, rest, split, sent, all) =
    let undone = none_done done rest split in
    (false, ([], mutations false, refl, sent ∙ ap (λ r. before ++ r) undone, λ pr h. cc))

bind-Runs {ℓ} :
    {A : Type ℓ} (lib : Library) (remote : Remote) (m : Api A) (f : A → Api OpenedPr)
    → Reads m
    → ((a : A) → Runs (f a))
    → Runs (m >>= f)
bind-Runs lib remote m f hm hf = record {
  at = λ t. continue-Runs (posts t.sent) (m t) f hf (hm.at t);
}

module _ (lib : Library) (remote : Remote) (p : Proposal) where
  note_head-Reads : (commit : String) → Emits (note_head commit) [] Any
  note_head-Reads commit = Emits-tap (note_head commit) (λ t. refl) (λ t a e. tt)

  note_base-Reads : (commit : String) → Emits (note_base commit) [] Any
  note_base-Reads commit = Emits-tap (note_base commit) (λ t. refl) (λ t a e. tt)

  done-Emits : (commit : String) (b : Bool) → Emits (lift (ok (commit, b))) [] (Says b)
  done-Emits commit b = Emits-lift (ok (commit, b)) (λ a e. ground arith)

  replay_branch-Emits : (head : String) → Emits (replay_branch lib remote p head) [] (Says true)
  unfolding replay_branch
  replay_branch-Emits head = read_then _ _ (head_idempotency_key-Reads lib remote head) λ key.
      elim (Bool-cases (same_key key p.key)) [
        | inl e ↦ rw e (read_then _ _ (note_head-Reads head) (λ u. done-Emits head true))
        | inr e ↦ rw e (fail-Emits _ [])
      ]

  make_branch-Emits :
      (caller base : String)
      → Emits (make_branch lib remote p caller base) (trees ∷ commits ∷ refs ∷ []) (Says false)
  unfolding make_branch
  make_branch-Emits caller base = elim (Bool-cases (is_stale p.expected_base base)) [
    | inl e ↦ rw e (fail-Emits _ (trees ∷ commits ∷ refs ∷ []))
    | inr e ↦ rw e (
        Emits-bind _ _ (trees ∷ commits ∷ []) (refs ∷ [])
          (create_commit-Emits lib remote base p caller)
          λ head q. read_then _ _ (note_head-Reads head) λ u.
            Emits-bind _ _ (refs ∷ []) [] (create_branch-Emits lib remote p.branch head)
              (λ v q. done-Emits head false))
  ]

  abbrev is_there : Option String → Bool
  is_there none = false
  is_there (some head) = true

  abbrev branch_mutations : Bool → List String
  branch_mutations there = if there then [] else trees ∷ commits ∷ refs ∷ []

  branch_step-Emits :
      (caller base : String) (o : Option String)
      → Emits
          (branch_step lib remote p caller base o)
          (branch_mutations (is_there o))
          (Says (is_there o))
  branch_step-Emits caller base none = make_branch-Emits caller base
  branch_step-Emits caller base (some head) = replay_branch-Emits head

  module _ (opened_at : String) where
    abbrev ended : String → String × Bool → Api OpenedPr
    ended base done = create_pull lib remote p.branch p.title p.body >>= λ pr.
        lift (ok (opened lib remote p opened_at base done pr))

    ended-Emits :
        (base : String) (b : Bool) (done : String × Bool)
        → Says b done
        → Emits (ended base done) (pulls ∷ []) (Reports b)
    ended-Emits base b done h =
        Emits-bind _ _ (pulls ∷ []) [] (create_pull-Emits lib remote p.branch p.title p.body)
          λ pr q. Emits-lift (ok (opened lib remote p opened_at base done pr)) (λ a e. ground arith)

    branch-Runs :
        (caller base : String) (o : Option String)
        → Runs (branch_step lib remote p caller base o >>= ended base)
    branch-Runs caller base none = record {
      at = λ t. (
        false,
        (Emits-bind _ _ (branch_mutations false) (pulls ∷ []) (branch_step-Emits caller base none)
              (ended-Emits base false)).at
            t,
      );
    }
    branch-Runs caller base (some head) = record {
      at = λ t. (
        true,
        (Emits-bind _ _ [] (pulls ∷ []) (branch_step-Emits caller base (some head))
              (ended-Emits base true)).at
            t,
      );
    }

    publish-Runs :
        (token : Option String) (caller : String)
        → Runs (publish lib remote token opened_at caller p)
    unfolding publish
    publish-Runs token caller = bind-Runs lib remote _ _ (lift-Reads _) λ u.
        bind-Runs lib remote _ _ (base_commit-Reads lib remote) λ base.
          bind-Runs lib remote _ _ (note_base-Reads base) λ v.
            bind-Runs lib remote _ _ (existing_branch_head-Reads lib remote p.branch)
              (branch-Runs caller base)

open_body-Runs :
    (lib : Library) (remote : Remote) (token : Option String) (opened_at : String) (a : Arguments)
    → Runs (open_body lib remote token opened_at a)
unfolding open_body
open_body-Runs lib remote token opened_at a =
    bind-Runs lib remote _ _ (lift-Reads (validate a))
      (λ p. publish-Runs lib remote p opened_at token a.caller_identity)

module _ (lib : Library) (remote : Remote) (encoded : Fields → ℕ) where
  concluded-ok {ℓ} :
      {A : Type ℓ} (w : Result (Unit {0})) (r : Result A) {a : A} → concluded w r ≡ ok a → r ≡ ok a
  concluded-ok (ok u) (ok a) h = h
  concluded-ok (ok u) (err e) h = ground arith
  concluded-ok (err e) r h = ground arith

  -- The trees, commits, refs and pull requests that a call of open_pr makes are, in this order, a part
  -- from the front of one of two lists: the pull request alone, when the branch is replayed, or a tree,
  -- a commit, a ref and a pull request. No mutation is sent twice. A call that returns has made the
  -- whole list, and its `replayed` says which one.
  pub open_pr-mutations :
      (host : Host) (log : File) (token : Option String) (opened_at : String) (a : Arguments)
      → (b : Bool) × (done : List String) × (rest : List String) × (done ++ rest ≡ mutations b)
        × (posts (open_pr lib remote encoded host log token opened_at a).2.sent ≡ done)
        × ((pr : OpenedPr)
            → (open_pr lib remote encoded host log token opened_at a).0 ≡ ok pr
            → (rest ≡ []) × (pr.replayed ≡ b))
  unfolding open_pr
  open_pr-mutations host log token opened_at a =
      let (b, (done, rest, split, sent, all)) =
        (open_body-Runs lib remote token opened_at a).at new_trail in
      (b, done, rest, split, sent, λ pr h. all pr (concluded-ok _ _ h))

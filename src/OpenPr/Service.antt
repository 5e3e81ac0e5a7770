-- ===== src/OpenPr/Service.antt =====
-- `OpenPrService.open_pr` of core/open_pr.py: the `try` block, the audit record and the end.
use Prim.Native.String.{◌++◌}
use jn_engine_contributor_mc.Base.{
  ℕ, String, Bool, true, false, not, Option, none, some, List, [], ◌∷◌, ◌==◌, if◌then◌else◌,
}
use jn_engine_contributor_mc.Base.Int.{pos}
use jn_engine_contributor_mc.Base.Text.{text_length}
use jn_engine_contributor_mc.Python.Json.{
  Json, null, int, arr, str, obj, Fields, end, field, Items, nil, cons, as_text, text_or_null,
}
use jn_engine_contributor_mc.Python.Result.{
  CollaborationError, Exception, collaboration, audit_unavailable, other_exception, conflict,
  upstream_unavailable, write_disabled, code_text, Result, ok, err,
}
use jn_engine_contributor_mc.Audit.{File, Host, append}
use jn_engine_contributor_mc.Github.{Remote, Library, Trail}
use jn_engine_contributor_mc.Github.Session.{
  Api, ◌>>=◌, ◌>>◌, lift, fail, note_base, note_head, new_trail, begin_session,
}
use jn_engine_contributor_mc.OpenPr.{
  ProposedFile, Arguments, Proposal, OpenedPr, repository, protected_base_branch,
}
use jn_engine_contributor_mc.OpenPr.Validate.{validate}
use jn_engine_contributor_mc.OpenPr.Steps.{
  base_commit, existing_branch_head, head_idempotency_key, create_commit, create_branch,
  create_pull,
}

abbrev pub same_key : Option String → String → Bool
same_key none key = false
same_key (some k) key = k == key

-- `valid_expected_base is not None and base_commit != valid_expected_base`
abbrev pub is_stale : Option String → String → Bool
is_stale none base = false
is_stale (some expected) base = not (base == expected)

module _ (lib : Library) (remote : Remote) where
  -- The branch is there: a replay if its head commit carries the key.
  unfoldable pub replay_branch : Proposal → String → Api (String × Bool)
  replay_branch p head = do
    key ← head_idempotency_key lib remote head
    (if same_key key p.key
        then (note_head head >> lift (ok (head, true)))
        else fail (
            conflict
              "branch already exists with different proposed work; choose a new contrib/ branch name"))

  -- The branch is new.
  unfoldable pub make_branch : Proposal → String → String → Api (String × Bool)
  make_branch p caller base =
      if is_stale p.expected_base base
      then fail (
          conflict
            "master advanced beyond expected_base_commit; refresh the snapshot and retry on a new contrib/ branch")
      else (do
        head ← create_commit lib remote base p caller
        note_head head
        create_branch lib remote p.branch head
        lift (ok (head, false)))

  abbrev pub branch_step : Proposal → String → String → Option String → Api (String × Bool)
  branch_step p caller base (some head) = replay_branch p head
  branch_step p caller base none = make_branch p caller base

  abbrev pub opened : Proposal → String → String → String × Bool → ℕ × String → OpenedPr
  opened p opened_at base (head, replayed) (number, url) = record {
    repository_name = repository;
    base_ref = "refs/heads/" ++ protected_base_branch;
    base_commit = base;
    branch = p.branch;
    head_commit = head;
    pr_number = number;
    pr_url = url;
    created_branch = not replayed;
    replayed = replayed;
    opened_at = opened_at;
  }

  -- The `try` block after the validation.
  unfoldable pub publish : Option String → String → String → Proposal → Api OpenedPr
  publish token opened_at caller p = do
    lift (begin_session token)
    base ← base_commit lib remote
    note_base base
    existing ← existing_branch_head lib remote p.branch
    done ← branch_step p caller base existing
    pr ← create_pull lib remote p.branch p.title p.body
    lift (ok (opened p opened_at base done pr))

  unfoldable pub open_body : Option String → String → Arguments → Api OpenedPr
  open_body token opened_at a =
      lift (validate a) >>= λ p. publish token opened_at a.caller_identity p

abbrev file_items : List ProposedFile → Items
file_items [] = nil
file_items (f ∷ files) =
    cons (obj (field "path" (str f.path) (field "chars" (int (pos (text_length f.content))) end)))
      (file_items files)

-- The `audit_files` of a call: those of valid arguments.
abbrev audit_files : Result Proposal → Items
audit_files (ok p) = file_items p.files
audit_files (err e) = nil

abbrev chars_or_null : Option String → Json
chars_or_null none = null
chars_or_null (some s) = int (pos (text_length s))

abbrev status_items : List ℕ → Items
status_items [] = nil
status_items (n ∷ rest) = cons (int (pos n)) (status_items rest)

-- The failure of a call: any other exception is `upstream_unavailable`.
abbrev pub failure_of : Exception → CollaborationError
failure_of (collaboration e) = e
failure_of (audit_unavailable m) = upstream_unavailable
failure_of other_exception = upstream_unavailable

abbrev pub open_outcome : Result OpenedPr → String
open_outcome (ok pr) = if pr.replayed then "replayed" else "opened"
open_outcome (err e) = code_text (failure_of e).code

abbrev number_or_null : Result OpenedPr → Json
number_or_null (ok pr) = int (pos pr.pr_number)
number_or_null (err e) = null

-- The audit record of `open_pr`.
abbrev pub open_record : String → Arguments → Result OpenedPr → Trail → Fields
open_record opened_at a r t = field "timestamp" (str opened_at) (
    field "caller_identity" (str a.caller_identity) (
      field "tool" (str "open_pr") (
        field "args"
          (obj (
            field "branch" (text_or_null (as_text a.branch)) (
              field "title" (text_or_null (as_text a.title)) (
                field "body_chars" (chars_or_null (as_text a.body)) (
                  field "files" (arr (audit_files (validate a))) (
                    field "idempotency_key" (text_or_null (as_text a.idempotency_key)) (
                      field "expected_base_commit" (text_or_null (as_text a.expected_base_commit))
                        end)))))))
          (field "base_commit" (text_or_null t.base) (
            field "head_commit" (text_or_null t.head) (
              field "pr_number" (number_or_null r) (
                field "outcome" (str (open_outcome r))
                  (field "github_api_status" (arr (status_items t.statuses)) end))))))))

-- The end of a call, once the audit record is written or not.
abbrev pub concluded {ℓ} : {A : Type ℓ} → Result (Unit {0}) → Result A → Result A
concluded (err e) r = err (collaboration upstream_unavailable)
concluded (ok u) (ok a) = ok a
concluded (ok u) (err e) = err (collaboration (failure_of e))

module _ (lib : Library) (remote : Remote) (encoded : Fields → ℕ) where
  -- `OpenPrService.open_pr`: what the caller gets, the audit log, and the state of the call.
  unfoldable pub open_pr :
      Host → File → Option String → String → Arguments → Result OpenedPr × File × Trail
  open_pr host log token opened_at a =
      let (r, t) = open_body lib remote token opened_at a new_trail in
      let (written, log') = append encoded host log (open_record opened_at a r t) in
      (concluded written r, log', t)

-- `WriteDisabledOpenPrService`
unfoldable pub disabled_open_pr : Arguments → Result OpenedPr
disabled_open_pr a = err (collaboration write_disabled)

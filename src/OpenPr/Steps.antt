-- ===== src/OpenPr/Steps.antt =====
-- The GitHub steps of core/open_pr.py.
use Prim.Native.String.{◌++◌}
use text.Mathlib.Text.{starts_with}
use jn_engine_contributor_mc.Base.{
  ℕ, String, Bool, true, false, not, Option, none, some, List, [], ◌∷◌, eqb, ◌==◌, if◌then◌else◌,
}
use jn_engine_contributor_mc.Base.Int.{ℤ, pos}
use jn_engine_contributor_mc.Base.Text.{quote, split, drop_prefix}
use jn_engine_contributor_mc.Python.Json.{
  Json, null, bool, int, arr, str, obj, Fields, end, field, Items, nil, cons, as_dict, as_text,
  as_strict_int,
}
use jn_engine_contributor_mc.Python.Json
use jn_engine_contributor_mc.Python.Result.{
  not_found_code, collaboration, bad_args, upstream_unavailable, Result, ok, err,
}
use jn_engine_contributor_mc.Claims.Validate.{is_idempotency_key}
use jn_engine_contributor_mc.Github.{Remote, Library, Trail}
use jn_engine_contributor_mc.Github.Session.{Api, ◌>>=◌, lift, fail, get, get_list, send}
use jn_engine_contributor_mc.OpenPr.{ProposedFile, Proposal, protected_base_branch}

abbrev pub repos : String
repos = "/repos/alexscott2718-gif/jn-engine"

-- `_require_dict`, `_require_string`, `_require_int`
unfoldable pub require_dict : Json → Result Fields
require_dict v = elim (as_dict v) [
  | none ↦ err (collaboration upstream_unavailable)
  | some d ↦ ok d
]

unfoldable pub require_string : Json → Result String
require_string v = elim (as_text v) [
  | none ↦ err (collaboration upstream_unavailable)
  | some s ↦ if s == "" then err (collaboration upstream_unavailable) else ok s
]

abbrev positive : Option ℤ → Result ℕ
positive (some (pos n)) = if eqb n 0 then err (collaboration upstream_unavailable) else ok n
positive _ = err (collaboration upstream_unavailable)

unfoldable pub require_int : Json → Result ℕ
require_int v = positive (as_strict_int v)

-- `_IDEMPOTENCY_TRAILER.search`, over the lines of the message.
abbrev trailer_prefix : String
trailer_prefix = "Idempotency-Key: "

unfoldable pub trailer_of_line : String → Option String
trailer_of_line line = elim (drop_prefix trailer_prefix line) [
  | none ↦ none
  | some key ↦ if is_idempotency_key key then some key else none
]

unfoldable pub first_trailer : List String → Option String
first_trailer [] = none
first_trailer (line ∷ lines) =
    let rest = first_trailer lines in
    elim (trailer_of_line line) [ none ↦ rest | some key ↦ some key ]

unfoldable pub find_trailer : String → Option String
find_trailer message = first_trailer (split 0x0a message)

-- The commit message of a proposal.
unfoldable pub commit_message : String → String → String → String
commit_message title caller key =
    title ++ ("\n\nProposed-by: " ++ (caller ++ ("\nIdempotency-Key: " ++ (key ++ "\n"))))

abbrev no_safe : ℕ → Bool
no_safe c = false

abbrev tree_items : List ProposedFile → Items
tree_items [] = nil
tree_items (f ∷ files) =
    cons
      (obj (
        field "path" (str f.path) (
          field "mode" (str "100644")
            (field "type" (str "blob") (field "content" (str f.content) end)))))
      (tree_items files)

abbrev pub ref_body : String → String → Json
ref_body ref commit = obj (field "ref" (str ref) (field "sha" (str commit) end))

abbrev pub pull_body : String → String → String → Json
pull_body branch title body = obj (
    field "title" (str title) (
      field "body" (str body) (
        field "head" (str branch) (
          field "base" (str protected_base_branch)
            (field "maintainer_can_modify" (bool true) (field "draft" (bool false) end))))))

module _ (lib : Library) (remote : Remote) where
  abbrev pub sha_of : Fields → Api String
  sha_of payload = do
    object ← lift (require_dict (Json.get payload "object"))
    sha ← lift (require_string (Json.get object "sha"))
    lift (ok (lib.lower sha))

  -- `_base_commit`
  unfoldable pub base_commit : Api String
  base_commit = do
    payload ← get lib remote (repos ++ "/git/ref/heads/master") end false
    sha_of payload

  -- The `except` clause of `_existing_branch_head`, on the read of the branch.
  abbrev pub head_of : Result Fields × Trail → Result (Option String) × Trail
  head_of (ok payload, t) = (sha_of payload >>= λ sha. lift (ok (some sha))) t
  head_of (err (collaboration e), t) = elim e.code [
    | not_found_code ↦ (ok none, t)
    | _ ↦ (err (collaboration e), t)
  ]
  head_of (err e, t) = (err e, t)

  -- `_existing_branch_head`
  unfoldable pub existing_branch_head : String → Api (Option String)
  existing_branch_head branch t =
      head_of (get lib remote (repos ++ ("/git/ref/heads/" ++ quote no_safe branch)) end false t)

  abbrev pub trailer_in : Option String → Api (Option String)
  trailer_in none = fail upstream_unavailable
  trailer_in (some message) = lift (ok (find_trailer message))

  -- `_head_idempotency_key`
  unfoldable pub head_idempotency_key : String → Api (Option String)
  head_idempotency_key commit = do
    payload ← get lib remote (repos ++ ("/git/commits/" ++ commit)) end false
    trailer_in (as_text (Json.get payload "message"))

  -- `_create_commit`
  unfoldable pub create_commit : String → Proposal → String → Api String
  create_commit base p caller = do
    base_payload ← get lib remote (repos ++ ("/git/commits/" ++ base)) end false
    tree ← lift (require_dict (Json.get base_payload "tree"))
    base_tree ← lift (require_string (Json.get tree "sha"))
    tree_reply ←
        send lib remote (repos ++ "/git/trees")
          (obj (field "base_tree" (str base_tree) (field "tree" (arr (tree_items p.files)) end))) []
    tree_sha ← lift (require_string (Json.get tree_reply.1 "sha"))
    commit_reply ←
        send lib remote (repos ++ "/git/commits")
          (obj (
            field "message" (str (commit_message p.title caller p.key))
              (field "tree" (str tree_sha) (field "parents" (arr (cons (str base) nil)) end))))
          []
    sha ← lift (require_string (Json.get commit_reply.1 "sha"))
    lift (ok (lib.lower sha))

  -- `_create_branch`
  unfoldable pub create_branch : String → String → Api (Unit {0})
  create_branch branch commit =
      let ref = "refs/heads/" ++ branch in
      if not (starts_with ref "refs/heads/contrib/")
      then fail (bad_args "only contrib/ branches may be written")
      else (send lib remote (repos ++ "/git/refs") (ref_body ref commit) [] >>= λ reply.
          lift (ok tt))

  abbrev pub pr_of : Fields → Api (ℕ × String)
  pr_of item = do
    number ← lift (require_int (Json.get item "number"))
    url ← lift (require_string (Json.get item "html_url"))
    lift (ok (number, url))

  abbrev pub first_pr : Items → Api (Option (ℕ × String))
  first_pr nil = lift (ok none)
  first_pr (cons raw rest) = do item ← lift (require_dict raw); pr ← pr_of item; lift (ok (some pr))

  -- `_find_open_pr`
  unfoldable pub find_open_pr : String → Api (Option (ℕ × String))
  find_open_pr branch = do
    items ← get_list lib remote (repos ++ "/pulls") (
        field "state" (str "open") (
          field "head" (str ("alexscott2718-gif:" ++ branch))
            (field "base" (str protected_base_branch) (field "per_page" (int (pos 10)) end))))
    first_pr items

  abbrev pub or_unavailable : Option (ℕ × String) → Api (ℕ × String)
  or_unavailable none = fail upstream_unavailable
  or_unavailable (some pr) = lift (ok pr)

  unfoldable pub pull_result : String → ℕ × Fields → Api (ℕ × String)
  unfolding find_open_pr
  pull_result branch reply =
      if eqb reply.0 422 then (find_open_pr branch >>= or_unavailable) else pr_of reply.1

  -- `_open_pr`
  unfoldable pub create_pull : String → String → String → Api (ℕ × String)
  unfolding pull_result
  create_pull branch title body = do
    reply ← send lib remote (repos ++ "/pulls") (pull_body branch title body) (422 ∷ [])
    pull_result branch reply

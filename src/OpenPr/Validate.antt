-- ===== src/OpenPr/Validate.antt =====
-- The argument checks of core/open_pr.py.
use jn_engine_contributor_mc.Base.{
  ℕ, ◌+◌, ◌≡◌, refl, String, Bool, false, not, ◌&&◌, ◌||◌, Option, none, some, List, [], ◌∷◌, leb,
  ltb, eqb, ◌==◌,
}
use text.Mathlib.Text.{starts_with}
use jn_engine_contributor_mc.Base.Lists.{length, any}
use jn_engine_contributor_mc.Base.Text.{
  any_char, strip, text_length, in_class, is_digit, is_lower, is_control, contains, ends_with,
  drop_prefix, split, remove_chars,
}
use jn_engine_contributor_mc.Python.Json.{Json, null, str, as_text, as_dict, get}
use jn_engine_contributor_mc.Python.Result.{
  Exception, collaboration, bad_args, Result, ok, err, ◌>>=◌, ◌>>◌, raise_if,
}
use jn_engine_contributor_mc.Claims.Validate.{is_idempotency_key, text_such, or_raise}
use jn_engine_contributor_mc.OpenPr.{
  ProposedFile, FileEntry, proposed, value, Arguments, Proposal, branch_prefix, max_files,
  max_file_chars, max_total_chars, max_path_chars,
}

abbrev refused : String → Exception
refused detail = collaboration (bad_args detail)

abbrev is_branch_start : ℕ → Bool
is_branch_start c = is_lower c || is_digit c

abbrev is_branch_char : ℕ → Bool
is_branch_char c = is_branch_start c || (eqb c b'.' || (eqb c b'_' || eqb c b'-'))

-- `[a-z0-9][a-z0-9._-]{0,80}`
abbrev is_branch_name : String → Bool
is_branch_name s =
    in_class is_branch_char 1 81 s
    && not (starts_with s "." || (starts_with s "_" || starts_with s "-"))

-- `_BRANCH`
unfoldable pub is_branch : String → Bool
is_branch s = elim (drop_prefix branch_prefix s) [ none ↦ false | some name ↦ is_branch_name name ]

unfoldable pub is_ref_name : String → Bool
is_ref_name s = not (contains s ".." || (ends_with s ".lock" || ends_with s "."))

-- `_validate_branch`
unfoldable pub validate_branch : Json → Result String
validate_branch v = do
  branch ← or_raise (text_such is_branch v) (
      refused
        "branch must match contrib/<name> using lowercase letters, digits, dot, underscore, or hyphen")
  raise_if (not (is_ref_name branch)) (refused "branch is not a valid git ref name")
  ok branch

unfoldable pub is_title : String → Bool
is_title s =
    not (s == "") && (leb (text_length s) 120 && (s == strip s && not (any_char is_control s)))

-- `_validate_title`
unfoldable pub validate_title : Json → Result String
validate_title v =
    or_raise (text_such is_title v) (refused "title must be 1..120 printable characters")

-- The body less its newlines and tabs.
abbrev plain_body : String → String
plain_body = remove_chars (λ c. eqb c 0x0a || eqb c 0x09)

-- `_validate_body`
unfoldable pub validate_body : Json → Result String
validate_body v = do
  body ←
      or_raise (text_such (λ s. leb (text_length s) 10000) v)
        (refused "body must be at most 10000 characters")
  raise_if (not (remove_chars is_control (plain_body body) == plain_body body))
      (refused "body contains forbidden control characters")
  ok body

-- `_validate_idempotency_key`
unfoldable pub validate_idempotency_key : Json → Result String
validate_idempotency_key v = or_raise (text_such is_idempotency_key v) (
    refused
      "idempotency_key must be 8..64 characters of letters, digits, dot, underscore, or hyphen")

abbrev is_hex_lower : ℕ → Bool
is_hex_lower c = is_digit c || (leb b'a' c && leb c b'f')

-- `_COMMIT_SHA`
unfoldable pub is_commit_sha : String → Bool
is_commit_sha = in_class is_hex_lower 40 40

-- `_validate_expected_base_commit`
unfoldable pub validate_expected_base_commit : Json → Result (Option String)
validate_expected_base_commit null = ok none
validate_expected_base_commit v =
    or_raise (text_such is_commit_sha v)
      (refused "expected_base_commit must be a lowercase 40-character SHA")
    >>= λ commit. ok (some commit)

abbrev pub is_dot_segment : String → Bool
is_dot_segment s = s == "" || (s == "." || s == "..")

abbrev pub is_forbidden : String → Bool
is_forbidden path =
    path == ".git"
    || (path == ".github/workflows"
        || (starts_with path ".git/" || starts_with path ".github/workflows/"))

-- `_validate_path`
unfoldable pub validate_path : Json → Result String
validate_path v = do
  path ←
      or_raise (text_such (λ s. not (s == "") && leb (text_length s) max_path_chars) v)
        (refused "every file path must be 1..300 characters")
  raise_if (any_char is_control path || contains path "\\")
      (refused "file paths must not contain control characters or backslashes")
  raise_if (starts_with path "/" || ends_with path "/")
      (refused "file paths must be repository-relative")
  raise_if (any is_dot_segment (split b'/' path))
      (refused "file paths must not contain empty or dot segments")
  raise_if (is_forbidden path) (refused "file paths may not modify .git or workflow definitions")
  ok path

-- The path and the content of an entry, not yet checked.
unfoldable pub entry_parts : FileEntry → Result (Json × Json)
entry_parts (proposed f) = ok (str f.path, str f.content)
entry_parts (value v) = elim (as_dict v) [
  | none ↦ err (refused "every file entry must provide path and content")
  | some d ↦ ok (get d "path", get d "content")
]

-- The body of the loop over the entries: the file of an entry, after those of `seen` and with
-- `total` characters so far.
unfoldable pub validate_entry : List String → ℕ → FileEntry → Result ProposedFile
validate_entry seen total entry = entry_parts entry >>= λ parts. validate_path parts.0 >>= λ path.
    raise_if (any (λ p. p == path) seen) (refused "duplicate file path")
    >> or_raise (as_text parts.1) (refused "every file content must be UTF-8 text")
    >>= λ content.
        raise_if (ltb max_file_chars (text_length content))
          (refused "file content is limited to 200000 characters")
        >> raise_if (ltb max_total_chars (total + text_length content))
            (refused "combined file content is limited to 1000000 characters")
        >> ok (record { path = path; content = content })

unfoldable pub validate_entries : List String → ℕ → List FileEntry → Result (List ProposedFile)
validate_entries seen total [] = ok []
validate_entries seen total (entry ∷ rest) = validate_entry seen total entry >>= λ f.
    validate_entries (f.path ∷ seen) (total + text_length f.content) rest >>= λ files.
    ok (f ∷ files)

-- `_validate_files`
unfoldable pub validate_files : Option (List FileEntry) → Result (List ProposedFile)
validate_files none = err (refused "files must contain 1..32 entries")
validate_files (some entries) = do
  raise_if (eqb (length entries) 0 || ltb max_files (length entries))
      (refused "files must contain 1..32 entries")
  validate_entries [] 0 entries

-- The checks of `open_pr`, in their order.
unfoldable pub validate : Arguments → Result Proposal
validate a = do
  branch ← validate_branch a.branch
  title ← validate_title a.title
  body ← validate_body a.body
  files ← validate_files a.files
  key ← validate_idempotency_key a.idempotency_key
  expected ← validate_expected_base_commit a.expected_base_commit
  ok (record {
    branch = branch;
    title = title;
    body = body;
    files = files;
    key = key;
    expected_base = expected;
  })

validate_branch_example : validate_branch (str "contrib/fix-1.2") ≡ ok "contrib/fix-1.2"
unfolding validate_branch is_branch text_such is_ref_name contains ends_with drop_prefix in_class
validate_branch_example = refl

backslash_example : text_length "\\" ≡ 1
backslash_example = refl

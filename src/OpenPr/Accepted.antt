-- ===== src/OpenPr/Accepted.antt =====
-- What the argument checks of core/open_pr.py let through.
use text.Mathlib.Text.{starts_with}
use jn_engine_contributor_mc.Base.{
  ℕ, suc, ◌+◌, ◌≤◌, String, ◌≡◌, true, false, subst, Option, none, some, List, [], ◌∷◌, arith, ◌||◌,
  ltb, eqb, ◌==◌,
}
use jn_engine_contributor_mc.Base.Lists.{All, length, any}
use jn_engine_contributor_mc.Base.Text.{text_length, any_char, is_control, split}
use jn_engine_contributor_mc.Python.Json.{Json, str}
use jn_engine_contributor_mc.Python.Result.{ok, raise_if, >>=-eq-ok}
use jn_engine_contributor_mc.Claims.Validate.{text_such}
use jn_engine_contributor_mc.OpenPr.{
  Proposal, ProposedFile, FileEntry, Arguments, max_files, max_file_chars, max_total_chars,
  max_path_chars,
}
use jn_engine_contributor_mc.OpenPr.Validate.{
  is_branch, is_ref_name, validate, validate_branch, validate_title, validate_body, validate_files,
  validate_idempotency_key, validate_expected_base_commit, validate_path, validate_entry,
  validate_entries, entry_parts, is_dot_segment, is_forbidden,
}

pub validate_branch-ok :
    (v : Json) {s : String}
    → validate_branch v ≡ ok s
    → (is_branch s ≡ true) × (is_ref_name s ≡ true) × (v ≡ str s)
unfolding validate_branch text_such
validate_branch-ok v h = ground arith

-- A proposal is what each check returned for its argument.
pub validate-parts :
    (a : Arguments) {p : Proposal}
    → validate a ≡ ok p
    → (validate_branch a.branch ≡ ok p.branch)
      × (validate_title a.title ≡ ok p.title)
      × (validate_body a.body ≡ ok p.body)
      × (validate_files a.files ≡ ok p.files)
      × (validate_idempotency_key a.idempotency_key ≡ ok p.key)
      × (validate_expected_base_commit a.expected_base_commit ≡ ok p.expected_base)
unfolding validate
validate-parts a h = ground arith

-- A path that is accepted: within the repository, and neither Git data nor a workflow.
pub record IsSafePath (path : String) : Type 0 where
  pub nonempty : (path == "") ≡ false
  pub short : text_length path ≤ max_path_chars
  pub printable : any_char is_control path ≡ false
  pub relative : starts_with path "/" ≡ false
  pub segments : any is_dot_segment (split b'/' path) ≡ false
  pub allowed : is_forbidden path ≡ false

pub validate_path-ok : (v : Json) {path : String} → validate_path v ≡ ok path → IsSafePath path
unfolding validate_path text_such
validate_path-ok v h = ground arith

-- The content of all files together.
abbrev pub total_chars : List ProposedFile → ℕ
total_chars [] = 0
total_chars (f ∷ files) = text_length f.content + total_chars files

-- No path stands twice.
abbrev pub Distinct : List ProposedFile → Type 0
Distinct [] = Unit
Distinct (f ∷ files) = All (λ g. (f.path == g.path) ≡ false) files × Distinct files

abbrev IsNew : List String → ProposedFile → Type 0
IsNew seen f = any (λ p. p == f.path) seen ≡ false

validate_entry-ok :
    (seen : List String) (total : ℕ) (entry : FileEntry) {f : ProposedFile}
    → validate_entry seen total entry ≡ ok f
    → IsSafePath f.path
      × IsNew seen f
      × (text_length f.content ≤ max_file_chars)
      × (total + text_length f.content ≤ max_total_chars)
unfolding validate_entry
validate_entry-ok seen total entry h =
    let (parts, p, h₁) = >>=-eq-ok (entry_parts entry) _ h in
    let (path, q, h₂) = >>=-eq-ok (validate_path parts.0) _ h₁ in
    let safe = validate_path-ok parts.0 q in ground (arith, safe)

newer :
    (seen : List String) (path : String) (f : ProposedFile)
    → IsNew (path ∷ seen) f
    → ((path == f.path) ≡ false) × IsNew seen f
newer seen path f h = ground arith

still-IsNew :
    (seen : List String) (path : String) (files : List ProposedFile)
    → All (IsNew (path ∷ seen)) files
    → All (λ f. (path == f.path) ≡ false) files × All (IsNew seen) files
still-IsNew seen path [] h = (tt, tt)
still-IsNew seen path (f ∷ files) (h, hs) =
    let (differs, new) = newer seen path f h in
    let (all_differ, all_new) = still-IsNew seen path files hs in
    ((differs, all_differ), (new, all_new))

abbrev Entries : List String → ℕ → ℕ → List ProposedFile → Type 0
Entries seen total count files =
    (length files ≡ count)
    × All (λ f. IsSafePath f.path × (text_length f.content ≤ max_file_chars)) files
    × (total + total_chars files ≤ max_total_chars)
    × All (IsNew seen) files
    × Distinct files

Entries-cons :
    (seen : List String) (total count : ℕ) (f : ProposedFile) (files : List ProposedFile)
    → IsSafePath f.path
      × IsNew seen f
      × (text_length f.content ≤ max_file_chars)
      × (total + text_length f.content ≤ max_total_chars)
    → Entries (f.path ∷ seen) (total + text_length f.content) count files
    → Entries seen total (suc count) (f ∷ files)
Entries-cons seen total count f files (safe, new, small, fits) (len, all, sum, fresh, distinct) =
    let (differ, new_rest) = still-IsNew seen f.path files fresh in
    (omega arith, ((safe, small), all), omega arith, (new, new_rest), (differ, distinct))

validate_entries-ok :
    (seen : List String) (total : ℕ) (entries : List FileEntry) {files : List ProposedFile}
    → total ≤ max_total_chars
    → validate_entries seen total entries ≡ ok files
    → Entries seen total (length entries) files
unfolding validate_entries
validate_entries-ok seen total [] room h = ground arith
validate_entries-ok seen total (entry ∷ entries) {files = whole} room h =
    let (f, p, h₁) = >>=-eq-ok (validate_entry seen total entry) _ h in
    let (files, q, h₂) =
      >>=-eq-ok (validate_entries (f.path ∷ seen) (total + text_length f.content) entries) _ h₁ in
    let facts = validate_entry-ok seen total entry p in
    let rest =
      validate_entries-ok (f.path ∷ seen) (total + text_length f.content) entries facts.3 q in
    let same : f ∷ files ≡ whole = cc in
    subst (Entries seen total (suc (length entries))) same
      (Entries-cons seen total (length entries) f files facts rest)

-- The files that validate_files accepts are 1 to 32 files, each of at most 200,000 characters and
-- together of at most 1,000,000, at distinct paths: no path is empty, absolute or longer than 300
-- characters, or has a control character or an empty, `.` or `..` segment, and none is .git or
-- .github/workflows or under them.
pub validate_files-ok :
    (files : Option (List FileEntry)) {accepted : List ProposedFile}
    → validate_files files ≡ ok accepted
    → (1 ≤ length accepted)
      × (length accepted ≤ max_files)
      × All (λ f. IsSafePath f.path × (text_length f.content ≤ max_file_chars)) accepted
      × (total_chars accepted ≤ max_total_chars)
      × Distinct accepted
unfolding validate_files
validate_files-ok none h = cc
validate_files-ok (some entries) {accepted = accepted} h =
    let (tested, p, h₁) =
      >>=-eq-ok (raise_if (eqb (length entries) 0 || ltb max_files (length entries)) _) _ h in
    let (len, all, sum, fresh, distinct) = validate_entries-ok [] 0 entries (omega arith) h₁ in
    let bounds : (1 ≤ length entries) × (length entries ≤ max_files) = ground arith in
    (omega arith, omega arith, all, omega arith, distinct)

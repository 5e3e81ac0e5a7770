-- ===== src/Samples/OpenPrCalls.antt =====
-- Calls of open_pr, and the theorems about it at work on them.
use jn_engine_contributor_mc.OpenPr.Trailer.{
  is_newline, find_trailer-commit_message, find_trailer-title,
}
use jn_engine_contributor_mc.OpenPr.Steps.{find_trailer, trailer_of_line, commit_message}
use jn_engine_contributor_mc.Claims.Validate.{is_idempotency_key}
use jn_engine_contributor_mc.OpenPr.Validate.{is_title}
use jn_engine_contributor_mc.Base.Text.{strip, in_class, all_chars, drop_prefix}
use jn_engine_contributor_mc.Base.{
  ◌≤◌, ◌≡◌, refl, ◌⊎◌, String, Bool, true, some, List, [], ◌∷◌, ◌++◌, ◌==◌, if◌then◌else◌, none,
  false,
}
use jn_engine_contributor_mc.Base.Lists.{All, length}
use jn_engine_contributor_mc.Base.Int.{pos}
use jn_engine_contributor_mc.Base.Text.{text_length, any_char, contains, ends_with, split}
use jn_engine_contributor_mc.Python.Json.{Json, end, field, str, int, null, obj}
use jn_engine_contributor_mc.Python.Result.{ok}
use jn_engine_contributor_mc.Claims.Ownership.Sound.{empty_file}
use jn_engine_contributor_mc.Github.{Reply, Remote, get_method, post_method}
use jn_engine_contributor_mc.Github.Emits.{posts}
use jn_engine_contributor_mc.OpenPr.{
  Arguments, ProposedFile, FileEntry, proposed, Proposal, OpenedPr, max_files, max_file_chars,
  max_total_chars,
}
use jn_engine_contributor_mc.OpenPr.Validate.{
  is_branch, validate, validate_files, validate_entries, validate_entry, entry_parts, validate_path,
}
use jn_engine_contributor_mc.Claims.Validate.{text_such}
use jn_engine_contributor_mc.OpenPr.Accepted.{IsSafePath, Distinct, total_chars, validate_files-ok}
use jn_engine_contributor_mc.OpenPr.Requests.{IsAllowed}
use jn_engine_contributor_mc.OpenPr.Safety.{open_pr-IsAllowed}
use jn_engine_contributor_mc.OpenPr.Mutations.{mutations, open_pr-mutations}
use jn_engine_contributor_mc.OpenPr.Service.{open_pr}
use jn_engine_contributor_mc.Samples.{willing, hundred}
use jn_engine_contributor_mc.Samples.GithubCalls.{plain, answer}

abbrev sha_object : Json
sha_object = obj (field "object" (obj (field "sha" (str "c1") end)) end)

abbrev post_answer : String → Reply
post_answer path =
    if path == "/repos/alexscott2718-gif/jn-engine/pulls"
    then answer 201 (
        obj (field "number" (int (pos 7)) (field "html_url" (str "https://github.com/pull/7") end)))
    else answer 201 (obj (field "sha" (str "c2") end))

abbrev get_answer : String → Reply
get_answer path =
    if path == "/repos/alexscott2718-gif/jn-engine/git/ref/heads/master"
    then answer 200 sha_object
    else if path == "/repos/alexscott2718-gif/jn-engine/git/commits/c1"
    then answer 200 (obj (field "tree" (obj (field "sha" (str "t1") end)) end))
    else answer 404 null

-- A repository with a master at c1 and no other branch.
abbrev repository : Remote
repository sent q = elim q.method [
  | get_method ↦ get_answer q.path
  | post_method ↦ post_answer q.path
]

abbrev arguments : Arguments
arguments = record {
  branch = str "contrib/fix";
  title = str "Fix the gate";
  body = str "";
  files = some (proposed (record { path = "docs/a.md"; content = "a" }) ∷ []);
  idempotency_key = str "ann-key-1";
  caller_identity = "ann";
  expected_base_commit = null;
}

open_pr-IsAllowed_example :
    ((open_pr plain repository hundred (willing 0) empty_file (some "t") "now" arguments).2.sent
      ≡ [])
    ⊎ ((p : Proposal) × (validate arguments ≡ ok p)
        × (is_branch p.branch ≡ true)
        × All
            (IsAllowed p.branch)
            (open_pr plain repository hundred
              (willing 0)
              empty_file
              (some "t")
              "now"
              arguments).2.sent)
open_pr-IsAllowed_example =
    open_pr-IsAllowed plain repository hundred (willing 0) empty_file (some "t") "now" arguments

open_pr-mutations_example :
    (b : Bool) × (done : List String) × (rest : List String) × (done ++ rest ≡ mutations b)
    × (posts
          (open_pr plain repository hundred
            (willing 0)
            empty_file
            (some "t")
            "now"
            arguments).2.sent
        ≡ done)
    × ((pr : OpenedPr)
        → (open_pr plain repository hundred (willing 0) empty_file (some "t") "now" arguments).0
          ≡ ok pr
        → (rest ≡ []) × (pr.replayed ≡ b))
open_pr-mutations_example =
    open_pr-mutations plain repository hundred (willing 0) empty_file (some "t") "now" arguments

abbrev given : List FileEntry
given =
    proposed (record { path = "docs/a.md"; content = "a" })
    ∷ proposed (record { path = "docs/b.md"; content = "" })
    ∷ []

abbrev accepted : List ProposedFile
accepted =
    record { path = "docs/a.md"; content = "a" } ∷ record { path = "docs/b.md"; content = "" } ∷ []

given-ok : validate_files (some given) ≡ ok accepted
unfolding validate_files validate_entries validate_entry entry_parts validate_path text_such
    any_char contains ends_with split
given-ok = refl

validate_files-ok_example :
    (1 ≤ length accepted)
    × (length accepted ≤ max_files)
    × All (λ f. IsSafePath f.path × (text_length f.content ≤ max_file_chars)) accepted
    × (total_chars accepted ≤ max_total_chars)
    × Distinct accepted
validate_files-ok_example = validate_files-ok (some given) given-ok

plain_line : trailer_of_line "Fix the gate" ≡ none
unfolding trailer_of_line drop_prefix
plain_line = refl

a_key : is_idempotency_key "ann-key-1" ≡ true
unfolding is_idempotency_key in_class all_chars
a_key = refl

no_newline : any_char is_newline "Fix the gate" ≡ false
unfolding any_char
no_newline = refl

ann_line : any_char is_newline "ann" ≡ false
unfolding any_char
ann_line = refl

find_trailer-commit_message_example :
    find_trailer (commit_message "Fix the gate" "ann" "ann-key-1") ≡ some "ann-key-1"
find_trailer-commit_message_example =
    find_trailer-commit_message "Fix the gate" "ann" "ann-key-1" no_newline ann_line a_key
      plain_line

abbrev odd_title : String
odd_title = "Idempotency-Key: abcdefgh"

odd_title_accepted : is_title odd_title ≡ true
unfolding is_title any_char strip
odd_title_accepted = refl

odd_line : any_char is_newline odd_title ≡ false
unfolding any_char
odd_line = refl

odd_trailer : trailer_of_line odd_title ≡ some "abcdefgh"
unfolding trailer_of_line drop_prefix is_idempotency_key in_class all_chars
odd_trailer = refl

find_trailer-title_example :
    find_trailer (commit_message odd_title "ann" "ann-key-1") ≡ some "abcdefgh"
find_trailer-title_example =
    find_trailer-title odd_title "ann" "ann-key-1" "abcdefgh" odd_line odd_trailer

-- ===== src/Corpus/Cite.antt =====
-- Titles, citations and languages of core/path_safety.py.
pub mod Cited
use Prim.Native.Char.{Char, code}
use Prim.Native.String.{◌++◌}
use jn_engine_contributor_mc.Base.{
  ℕ, String, Bool, true, false, not, ◌&&◌, ◌||◌, Option, none, some, List, [], ◌∷◌, eqb, leb,
  if◌then◌else◌, ◌==◌, ◌≡◌, refl,
}
use jn_engine_contributor_mc.Base.Int.{ℤ, pos, negsuc, leb_ℤ, pos_part}
use jn_engine_contributor_mc.Base.Decimal.{decimal_text}
use jn_engine_contributor_mc.Base.Paths.{suffix, lower}
use jn_engine_contributor_mc.Base.Text.{strip, take_text, quote, cons_first}
use jn_engine_contributor_mc.Python.Dict.{Dict, lookup}
use jn_engine_contributor_mc.Corpus.{Outcome, returns, raises, unsafe_path, ◌>>=◌, ◌>>◌, refuse_if}
use jn_engine_contributor_mc.Corpus.SafePath.{validate_relative_path}
use jn_engine_contributor_mc.Corpus.ContentId.{is_commit_hash, sample_commit}

abbrev pub title_chars : ℕ
title_chars = 200

abbrev github_blob_base : String
github_blob_base = "https://github.com/alexscott2718-gif/jn-engine/blob"

-- The characters at which `str.splitlines` breaks a line.
abbrev is_line_break : ℕ → Bool
is_line_break c =
    (leb 0x0a c && leb c 0x0d)
    || ((leb 0x1c c && leb c 0x1e) || (eqb c 0x85 || (eqb c 0x2028 || eqb c 0x2029)))

abbrev starts_with_newline : String → Bool
starts_with_newline String.[] = false
starts_with_newline (String.◌∷◌ c s) = eqb (code c) 0x0a

-- `str.splitlines`: the two characters of CR LF are one break, and the last one begins no line.
unfoldable pub splitlines : String → List String
splitlines String.[] = []
splitlines (String.◌∷◌ c s) =
    let rest = splitlines s in
    if is_line_break (code c)
    then (if eqb (code c) 0x0d && starts_with_newline s then rest else "" ∷ rest)
    else cons_first c rest

abbrev is_blank : ℕ → Bool
is_blank c = eqb c b' ' || eqb c b'\t'

-- `H1_PATTERN.fullmatch(line)` for a line that is stripped, with `match.group(1).strip()`.
unfoldable pub heading : String → Option String
unfolding strip
heading String.[] = none
heading (String.◌∷◌ c String.[]) = none
heading (String.◌∷◌ c (String.◌∷◌ d s)) =
    if eqb (code c) b'#' && is_blank (code d) then some (strip s) else none

-- The loop over the lines, up to the first that is not blank.
unfoldable pub first_heading : List String → Option String
unfolding heading strip
first_heading [] = none
first_heading (line ∷ lines) =
    let rest = first_heading lines in if strip line == "" then rest else heading (strip line)

-- `title_from_text`
unfoldable pub title_from_text : String → String → String
unfolding first_heading splitlines take_text suffix lower
title_from_text relative_path text =
    if lower (suffix relative_path) == ".md"
    then elim (first_heading (splitlines text)) [
      | none ↦ take_text title_chars relative_path
      | some title ↦ take_text title_chars title
    ]
    else take_text title_chars relative_path

abbrev is_slash : ℕ → Bool
is_slash c = eqb c b'/'

-- The fragment for a line.
abbrev pub with_line : String → Option ℤ → Outcome String
with_line url none = returns url
with_line url (some line) = do
  refuse_if (not (leb_ℤ (pos 1) line)) (unsafe_path "citation line must be positive")
  returns (url ++ ("#L" ++ decimal_text (pos_part line)))

-- `citation_url`
unfoldable pub citation_url : String → String → Option ℤ → Outcome String
unfolding is_commit_hash validate_relative_path quote decimal_text
citation_url commit relative_path line = do
  refuse_if (not (is_commit_hash commit)) (unsafe_path "citation commit is invalid")
  normalized ← validate_relative_path relative_path
  with_line (github_blob_base ++ ("/" ++ (commit ++ ("/" ++ quote is_slash normalized)))) line

abbrev languages : Dict String
languages =
    (".md", "markdown")
    ∷ (".txt", "text")
    ∷ (".rst", "restructuredtext")
    ∷ (".c", "c")
    ∷ (".h", "c")
    ∷ (".cc", "cpp")
    ∷ (".cpp", "cpp")
    ∷ (".py", "python")
    ∷ (".java", "java")
    ∷ (".sh", "shell")
    ∷ (".js", "javascript")
    ∷ (".css", "css")
    ∷ (".html", "html")
    ∷ (".toml", "toml")
    ∷ (".json", "json")
    ∷ (".yaml", "yaml")
    ∷ (".yml", "yaml")
    ∷ (".csv", "csv")
    ∷ (".tsv", "tsv")
    ∷ []

-- `language_for_path`
unfoldable pub language_for_path : String → Option String
unfolding lookup suffix lower
language_for_path relative_path = lookup (lower (suffix relative_path)) languages

title_of_heading : title_from_text "docs/a.md" "\r\n#  The title \nbody" ≡ "The title"
unfolding title_from_text
title_of_heading = refl

cited_line :
    citation_url sample_commit "docs/a b.md" (some (pos 12))
    ≡ returns
        "https://github.com/alexscott2718-gif/jn-engine/blob/0123456789abcdef0123456789abcdef01234567/docs/a%20b.md#L12"
unfolding citation_url
cited_line = refl

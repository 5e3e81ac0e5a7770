-- ===== src/Corpus/Cite/Cited.antt =====
-- What is cited, and how long titles are.
use jn_engine_contributor_mc.Base.{
  ◌≤◌, String, true, not, Option, none, some, ◌≡◌, Bool-cases, inl, inr, Option-cases, not-false,
  ◌==◌,
}
use jn_engine_contributor_mc.Base.Int.{ℤ, pos, leb_ℤ}
use jn_engine_contributor_mc.Base.Paths.{suffix, lower}
use jn_engine_contributor_mc.Base.Text.{text_length}
use jn_engine_contributor_mc.Base.Text.Take.{take_text-length}
use jn_engine_contributor_mc.Corpus.{returns, after-returns, check-returns}
use jn_engine_contributor_mc.Corpus.SafePath.{validate_relative_path}
use jn_engine_contributor_mc.Corpus.SafePath.Accepted.{IsSafe, validate_relative_path-returns_iff}
use jn_engine_contributor_mc.Corpus.ContentId.{is_commit_hash}
use jn_engine_contributor_mc.Corpus.Cite.{
  title_chars, title_from_text, first_heading, splitlines, citation_url, with_line,
}

abbrev pub IsPositive : Option ℤ → Type 0
IsPositive none = Unit
IsPositive (some line) = leb_ℤ (pos 1) line ≡ true

with_line-IsPositive :
    (url : String) (line : Option ℤ) (cited : String)
    → with_line url line ≡ returns cited
    → IsPositive line
with_line-IsPositive url none cited h = tt
with_line-IsPositive url (some line) cited h =
    let (h1, k1) = check-returns (not (leb_ℤ (pos 1) line)) _ _ h in not-false _ h1

-- A citation is of a commit hash and a safe path, and its line, if it has one, is positive.
pub citation_url-IsSafe :
    (commit path : String) (line : Option ℤ) (url : String)
    → citation_url commit path line ≡ returns url
    → (is_commit_hash commit ≡ true) × IsSafe path × IsPositive line
unfolding citation_url
citation_url-IsSafe commit path line url h =
    let (h1, k1) = check-returns (not (is_commit_hash commit)) _ _ h in
    let (normalized, h2, k2) = after-returns (validate_relative_path path) _ k1 in
    let (same, safe) = (validate_relative_path-returns_iff path normalized).0 h2 in
    (not-false _ h1, safe, with_line-IsPositive _ line url k2)

-- A title has at most 200 characters.
pub title_from_text-length :
    (path text : String) → text_length (title_from_text path text) ≤ title_chars
unfolding title_from_text
title_from_text-length path text = elim (Bool-cases (lower (suffix path) == ".md")) [
  | inr e ↦ rw e (take_text-length title_chars path)
  | inl e ↦ elim (Option-cases (first_heading (splitlines text))) [
    | inl d ↦ rw (e, d) (take_text-length title_chars path)
    | inr (title, d) ↦ rw (e, d) (take_text-length title_chars title)
  ]
]

-- ===== src/Search/Grep.antt =====
-- A direct search of a text, and what the engine of Python and the check of its lines make of the text.
use jn_engine_contributor_mc.Base.{
  ℕ, zero, suc, String, true, some, List, [], ◌∷◌, ◌++◌, ◌≡◌, refl, ap, ◌∙◌, subst, arith,
  Bool-cases, inl, inr, if◌then◌else◌,
}
use mathlib.Core.List.{append_assoc}
use jn_engine_contributor_mc.Base.Int.{ℤ, pos}
use jn_engine_contributor_mc.Base.Lists.{length, length-append, take}
use jn_engine_contributor_mc.Base.Text.{contains, take_text}
use jn_engine_contributor_mc.Search.{max_match_text_chars, SearchMatch, Unicode}
use jn_engine_contributor_mc.Search.Engines.{matching_lines}
use jn_engine_contributor_mc.Search.Service.{line_at, rechecked}

abbrev match_at : ℕ → String → SearchMatch
match_at number line = record { line = pos number; text = take_text max_match_text_chars line }

-- All the lines with the needle, counted from `number` on.
unfoldable pub grep : Unicode → String → ℕ → List String → List SearchMatch
unfolding contains take_text
grep unicode needle number [] = []
grep unicode needle number (line ∷ lines) =
    let rest = grep unicode needle (suc number) lines in
    if contains (unicode.casefold line) needle then match_at number line ∷ rest else rest

line_at-append :
    (before : List String) (line : String) (rest : List String)
    → line_at (before ++ line ∷ rest) (pos (suc (length before))) ≡ some line
unfolding line_at
line_at-append [] line rest = refl
line_at-append (other ∷ before) line rest = line_at-append before line rest

module _ (unicode : Unicode) (needle : String) where
  -- A line that has the needle is kept by the check.
  rechecked-kept :
      (lines : List String) (number : ℕ) (numbers : List ℤ) (line : String)
      → line_at lines (pos number) ≡ some line
      → contains (unicode.casefold line) needle ≡ true
      → rechecked unicode needle lines (pos number ∷ numbers)
        ≡ match_at number line ∷ rechecked unicode needle lines numbers
  unfolding rechecked
  rechecked-kept lines number numbers line there has = rw (rechecked, there, has) refl

  rechecked-matching_lines_from :
      (rest : List String) (before lines : List String) (room number : ℕ)
      → before ++ rest ≡ lines
      → suc (length before) ≡ number
      → rechecked unicode needle lines (matching_lines unicode needle room number rest)
        ≡ take room (grep unicode needle number rest)
  unfolding matching_lines grep rechecked
  rechecked-matching_lines_from [] before lines zero number whole counted = refl
  rechecked-matching_lines_from [] before lines (suc room) number whole counted = refl
  rechecked-matching_lines_from (line ∷ rest) before lines zero number whole counted = refl
  rechecked-matching_lines_from (line ∷ rest) before lines (suc room) number whole counted =
      let there : line_at lines (pos number) ≡ some line =
        subst (λ (ls : List String). line_at ls (pos number) ≡ some line) whole
          (subst (λ (n : ℕ). line_at (before ++ line ∷ rest) (pos n) ≡ some line) counted
            (line_at-append before line rest)) in
      let next = λ (r : ℕ).
        rechecked-matching_lines_from rest (before ++ line ∷ []) lines r (suc number)
          (append_assoc before (line ∷ []) rest ∙ whole)
          (omega (arith, length-append before (line ∷ []), counted)) in
      elim (Bool-cases (contains (unicode.casefold line) needle)) [
        | inl e ↦
            rw (matching_lines, grep, e)
              (rechecked-kept lines number (matching_lines unicode needle room (suc number) rest)
                  line there e
                ∙ ap (λ ms. match_at number line ∷ ms) (next room))
        | inr e ↦ rw (matching_lines, grep, e) (next (suc room))
      ]

  -- The check keeps all the lines that the engine of Python gives, and they are the first ones with the needle.
  pub rechecked-matching_lines :
      (lines : List String) (room : ℕ)
      → rechecked unicode needle lines (matching_lines unicode needle room 1 lines)
        ≡ take room (grep unicode needle 1 lines)
  rechecked-matching_lines lines room =
      rechecked-matching_lines_from lines [] lines room 1 refl refl

-- ===== src/Corpus/SafePath/Accepted.antt =====
-- The paths that `validate_relative_path` accepts.
use Prim.Native.Char.{Char, code}
use Prim.Native.String.{char_at}
use text.Mathlib.TextEquality.{Char-path, eq_iff}
use text.Mathlib.TextLemmas.{nil-append, cons-append}
use jn_engine_contributor_mc.Base.{
  String, true, false, List, [], ◌∷◌, ◌==◌, ◌≡◌, refl, sym, ap, ◌∙◌, arith, eqb, eqb→eq, ◌≢◌, ℕ,
  Bool-cases, or_false, not-false, ◌↔◌, inl, inr,
}
use jn_engine_contributor_mc.Base.Lists.{any}
use jn_engine_contributor_mc.Base.Text.{any_char, contains, split, cons_first}
use jn_engine_contributor_mc.Base.Paths.{is_absolute, as_posix, join, parts, kept_segments}
use jn_engine_contributor_mc.Corpus.{returns, after-returns, check-returns}
use jn_engine_contributor_mc.Corpus.Policy.{is_nul, is_backslash, is_admitted_repository_path}
use jn_engine_contributor_mc.Corpus.SafePath.{
  has_drive, is_dot_segment, is_hidden, validate_relative_path,
}

abbrev slash : Char
slash = char_at "/" 0

join-cons_first :
    (c : Char) (pieces : List String)
    → join "/" (cons_first c pieces) ≡ String.◌∷◌ c (join "/" pieces)
unfolding join
join-cons_first c [] = refl
join-cons_first c (s ∷ []) = refl
join-cons_first c (s ∷ t ∷ rest) = cons-append c s _

join-blank :
    (pieces : List String)
    → pieces ≢ []
    → join "/" ("" ∷ pieces) ≡ String.◌∷◌ slash (join "/" pieces)
unfolding join
join-blank [] h = absurd (h refl)
join-blank (t ∷ rest) h =
    nil-append _ ∙ cons-append slash "" _ ∙ ap (λ x. String.◌∷◌ slash x) (nil-append _)

cons_first-ne-nil : (c : Char) (pieces : List String) → cons_first c pieces ≢ []
cons_first-ne-nil c [] h = cc
cons_first-ne-nil c (s ∷ pieces) h = cc

pub split-ne-nil : (sep : ℕ) (s : String) → split sep s ≢ []
unfolding split
split-ne-nil sep String.[] = λ h. cc
split-ne-nil sep (String.◌∷◌ c s) = elim (Bool-cases (eqb (code c) sep)) [
  | inl e ↦ rw (split, e) (λ h. cc)
  | inr e ↦ rw (split, e) (cons_first-ne-nil c (split sep s))
]

-- The segments of a text make it up again.
pub join-split : (s : String) → join "/" (split b'/' s) ≡ s
unfolding split join
join-split String.[] = refl
join-split (String.◌∷◌ c s) = elim (Bool-cases (eqb (code c) b'/')) [
  | inl e ↦
      rw (split, e)
        (join-blank (split b'/' s) (split-ne-nil b'/' s)
          ∙ ap (λ x. String.◌∷◌ slash x) (join-split s)
          ∙ ap (λ d. String.◌∷◌ d s) (sym (Char-path c slash (eqb→eq _ _ e))))
  | inr e ↦
      rw (split, e) (join-cons_first c (split b'/' s) ∙ ap (λ x. String.◌∷◌ c x) (join-split s))
]

-- What an accepted path is like: its segments, the policy, and that it is not changed.
pub record IsSafe (path : String) : Type 0 where
  pub no_nul : any_char is_nul path ≡ false
  pub no_backslash : any_char is_backslash path ≡ false
  pub no_blank : contains path "//" ≡ false
  pub relative : is_absolute path ≡ false
  pub no_drive : has_drive path ≡ false
  pub no_dots : any is_dot_segment (split b'/' path) ≡ false
  pub none_hidden : any is_hidden (split b'/' path) ≡ false
  pub admitted : is_admitted_repository_path path ≡ returns true

pub kept_segments-plain :
    (pieces : List String) → any is_dot_segment pieces ≡ false → kept_segments pieces ≡ pieces
unfolding kept_segments
kept_segments-plain [] h = refl
kept_segments-plain (s ∷ pieces) h =
    ground
      (arith, kept_segments-plain pieces, or_false (is_dot_segment s) (any is_dot_segment pieces))

as_posix-plain :
    (path : String)
    → (path == "") ≡ false
    → any is_dot_segment (split b'/' path) ≡ false
    → as_posix path ≡ path
unfolding as_posix parts
as_posix-plain path h k =
    rw (as_posix, parts, kept_segments-plain (split b'/' path) k, join-split path, h) refl

dots_of_blank : any is_dot_segment (split b'/' "") ≡ true
unfolding split
dots_of_blank = refl

nonempty : (s : String) → any is_dot_segment (split b'/' s) ≡ false → (s == "") ≡ false
nonempty s h = elim (Bool-cases (s == "")) [
  | inl e ↦ absurd (
      grind
        (arith, dots_of_blank, h, ap (λ x. any is_dot_segment (split b'/' x)) ((eq_iff s "").0 e)))
  | inr e ↦ e
]

sound : (raw path : String) → validate_relative_path raw ≡ returns path → (path ≡ raw) × IsSafe raw
unfolding validate_relative_path
sound raw path h =
    let (h1, k1) = check-returns _ _ _ h in
    let (h2, k2) = check-returns _ _ _ k1 in
    let (h3, k3) = check-returns _ _ _ k2 in
    let (h4, k4) = check-returns _ _ _ k3 in
    let (h5, k5) = check-returns _ _ _ k4 in
    let (h6, k6) = check-returns _ _ _ k5 in
    let (admitted, h7, k7) = after-returns (is_admitted_repository_path raw) _ k6 in
    let (h8, k8) = check-returns _ _ _ k7 in
    let (nonempty, no_nul) = or_false (raw == "") (any_char is_nul raw) h1 in
    let (relative, no_drive) = or_false (is_absolute raw) (has_drive raw) h4 in
    let plain = as_posix-plain raw nonempty h5 in
    (
      grind (arith, k8, plain),
      record {
        no_nul = no_nul;
        no_backslash = h2;
        no_blank = h3;
        relative = relative;
        no_drive = no_drive;
        no_dots = h5;
        none_hidden = h6;
        admitted = h7 ∙ ap returns (not-false admitted h8);
      },
    )

complete : (raw path : String) → path ≡ raw → IsSafe raw → validate_relative_path raw ≡ returns path
unfolding validate_relative_path
complete raw path e h =
    rw
      (
        h.admitted,
        as_posix-plain raw (nonempty raw h.no_dots) h.no_dots,
        nonempty raw h.no_dots,
        h.no_nul,
        h.no_backslash,
        h.no_blank,
        h.relative,
        h.no_drive,
        h.no_dots,
        h.none_hidden,
      )
      (ap returns (sym e))

-- `validate_relative_path` returns a path just when it is safe, and then returns that path unchanged.
pub validate_relative_path-returns_iff :
    (raw path : String) → (validate_relative_path raw ≡ returns path) ↔ ((path ≡ raw) × IsSafe raw)
validate_relative_path-returns_iff raw path = (sound raw path, λ h. complete raw path h.0 h.1)

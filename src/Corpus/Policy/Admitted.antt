-- ===== src/Corpus/Policy/Admitted.antt =====
-- Which paths the policy admits, and when the test raises.
use jn_engine_contributor_mc.Base.{
  String, Bool, true, false, ◌||◌, List, [], ◌∷◌, ◌==◌, ◌≡◌, refl, sym, or_false, and_both,
  if◌then◌else◌,
}
use jn_engine_contributor_mc.Base.Lists.{any}
use jn_engine_contributor_mc.Base.Text.{any_char}
use jn_engine_contributor_mc.Base.Paths.{parts, is_absolute, suffix, lower}
use jn_engine_contributor_mc.Corpus.{
  Outcome, Failure, returns, raises, index_error, returns_inj, raises_inj,
}
use jn_engine_contributor_mc.Corpus.Policy.{
  one_of, approved_root_files, approved_root_directories, allowed_suffixes, is_nul, is_backslash,
  is_dot_part, is_excluded, admits_parts, is_admitted_repository_path,
}

-- One of the root files, or a file with an allowed suffix below one of the root directories.
abbrev pub HasPlace : String → List String → Type 0
HasPlace path [] = ⊥
HasPlace path (only ∷ []) = one_of approved_root_files path ≡ true
HasPlace path (root ∷ part ∷ rest) =
    (one_of approved_root_directories root ≡ true)
    × (one_of allowed_suffixes (lower (suffix path)) ≡ true)

pub record IsAdmittedPath (path : String) : Type 0 where
  pub nonempty : (path == "") ≡ false
  pub no_nul : any_char is_nul path ≡ false
  pub no_backslash : any_char is_backslash path ≡ false
  pub relative : is_absolute path ≡ false
  pub no_dots : any is_dot_part (parts path) ≡ false
  pub not_excluded : is_excluded path ≡ false
  pub placed : HasPlace path (parts path)

-- A test that was not met, in front of other tests.
unless :
    (test : Bool) (rest : Outcome Bool)
    → (if test then returns false else rest) ≡ returns true
    → (test ≡ false) × (rest ≡ returns true)
unless true rest h = absurd (false_not_true (returns_inj false true h))
  where
    false_not_true : false ≡ true → ⊥
    false_not_true e = cc
unless false rest h = (refl, h)

admits_parts-HasPlace :
    (path : String) (ps : List String) → admits_parts path ps ≡ returns true → HasPlace path ps
admits_parts-HasPlace path [] h = cc
admits_parts-HasPlace path (only ∷ []) h = returns_inj _ true h
admits_parts-HasPlace path (root ∷ part ∷ rest) h = and_both _ _ (returns_inj _ true h)

-- A path that the policy admits is relative, without a hidden or dot segment, a zero character or a
-- backslash, is not excluded, and is one of the root files or has an allowed suffix and lies below one of the
-- root directories.
pub is_admitted_repository_path-IsAdmittedPath :
    (path : String) → is_admitted_repository_path path ≡ returns true → IsAdmittedPath path
unfolding is_admitted_repository_path
is_admitted_repository_path-IsAdmittedPath path h =
    let (h1, k1) =
      unless (path == "" || (any_char is_nul path || any_char is_backslash path)) _ h in
    let (h2, k2) = unless (is_absolute path || any is_dot_part (parts path)) _ k1 in
    let (h3, k3) = unless (is_excluded path) _ k2 in
    let (nonempty, h4) = or_false (path == "") _ h1 in
    let (no_nul, no_backslash) = or_false (any_char is_nul path) (any_char is_backslash path) h4 in
    let (relative, no_dots) = or_false (is_absolute path) (any is_dot_part (parts path)) h2 in
    record {
      nonempty = nonempty;
      no_nul = no_nul;
      no_backslash = no_backslash;
      relative = relative;
      no_dots = no_dots;
      not_excluded = h3;
      placed = admits_parts-HasPlace path (parts path) k3;
    }

unless_raises :
    (test : Bool) (rest : Outcome Bool) (why : Failure)
    → (if test then returns false else rest) ≡ raises why
    → rest ≡ raises why
unless_raises true rest why h = cc
unless_raises false rest why h = h

admits_parts-raises :
    (path : String) (ps : List String) (why : Failure)
    → admits_parts path ps ≡ raises why
    → (why ≡ index_error) × (ps ≡ [])
admits_parts-raises path [] why h = (sym (raises_inj index_error why h), refl)
admits_parts-raises path (only ∷ []) why h = cc
admits_parts-raises path (root ∷ part ∷ rest) why h = cc

-- The test of the policy raises only an `IndexError`, and only for a path without a part.
pub is_admitted_repository_path-raises :
    (path : String) (why : Failure)
    → is_admitted_repository_path path ≡ raises why
    → (why ≡ index_error) × (parts path ≡ [])
unfolding is_admitted_repository_path
is_admitted_repository_path-raises path why h = admits_parts-raises path (parts path) why (
    unless_raises (is_excluded path) _ why (
      unless_raises (is_absolute path || any is_dot_part (parts path)) _ why (
        unless_raises (path == "" || (any_char is_nul path || any_char is_backslash path)) _ why
          h)))

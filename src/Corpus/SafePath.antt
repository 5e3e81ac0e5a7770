-- ===== src/Corpus/SafePath.antt =====
-- The path check of core/path_safety.py.
pub mod Accepted
pub mod Errors
use Prim.Native.Char.{code}
use text.Mathlib.Text.{starts_with}
use jn_engine_contributor_mc.Base.{
  ℕ, String, Bool, true, false, not, ◌&&◌, ◌||◌, List, [], ◌∷◌, eqb, ◌==◌, ◌≡◌, refl,
}
use jn_engine_contributor_mc.Base.Lists.{any}
use jn_engine_contributor_mc.Base.Text.{any_char, contains, split}
use jn_engine_contributor_mc.Base.Paths.{is_absolute, as_posix}
use jn_engine_contributor_mc.Corpus.{
  Outcome, returns, raises, Failure, unsafe_path, ◌>>=◌, ◌>>◌, refuse_if,
}
use jn_engine_contributor_mc.Corpus.Policy.{
  one_of, is_nul, is_backslash, is_admitted_repository_path,
}

-- `PureWindowsPath(s).drive` of a text without a backslash and without an empty segment. An absolute
-- Windows path has a drive.
abbrev pub has_drive : String → Bool
has_drive String.[] = false
has_drive (String.◌∷◌ c String.[]) = false
has_drive (String.◌∷◌ c (String.◌∷◌ d s)) = eqb (code d) b':'

abbrev pub is_dot_segment : String → Bool
is_dot_segment part = one_of ("" ∷ "." ∷ ".." ∷ []) part

abbrev pub is_hidden : String → Bool
is_hidden part = starts_with part "."

-- `validate_relative_path`
unfoldable pub validate_relative_path : String → Outcome String
unfolding any_char contains is_absolute split is_admitted_repository_path as_posix
validate_relative_path raw_path = do
  refuse_if (raw_path == "" || any_char is_nul raw_path)
      (unsafe_path "path must be nonempty and contain no NUL")
  refuse_if (any_char is_backslash raw_path) (unsafe_path "backslashes are not allowed")
  refuse_if (contains raw_path "//") (unsafe_path "empty path segments are not allowed")
  refuse_if (is_absolute raw_path || has_drive raw_path)
      (unsafe_path "absolute paths and drive letters are not allowed")
  refuse_if (any is_dot_segment (split b'/' raw_path))
      (unsafe_path "dot path segments are not allowed")
  refuse_if (any is_hidden (split b'/' raw_path)) (unsafe_path "hidden paths are not allowed")
  admitted ← is_admitted_repository_path raw_path
  refuse_if (not admitted) (unsafe_path "path is outside the admitted content policy")
  returns (as_posix raw_path)

accepted_source : validate_relative_path "src/engine/main.c" ≡ returns "src/engine/main.c"
unfolding validate_relative_path
accepted_source = refl

refused_parent :
    validate_relative_path "src/../main.c"
    ≡ raises (unsafe_path "dot path segments are not allowed")
unfolding validate_relative_path
refused_parent = refl

refused_drive :
    validate_relative_path "c:/main.c"
    ≡ raises (unsafe_path "absolute paths and drive letters are not allowed")
unfolding validate_relative_path
refused_drive = refl

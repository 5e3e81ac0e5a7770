-- ===== src/Corpus/Policy.antt =====
-- The closed policy of core/snapshot.py: which paths of the repository belong to the corpus.
pub mod Admitted
use text.Mathlib.Text.{starts_with}
use jn_engine_contributor_mc.Base.{
  ℕ, String, Bool, true, false, not, ◌&&◌, ◌||◌, List, [], ◌∷◌, eqb, if◌then◌else◌, ◌==◌, ◌≡◌, refl,
}
use jn_engine_contributor_mc.Base.Lists.{any}
use jn_engine_contributor_mc.Base.Text.{any_char}
use jn_engine_contributor_mc.Base.Paths.{parts, is_absolute, suffix, lower}
use jn_engine_contributor_mc.Corpus.{Outcome, returns, raises, index_error}

-- `s in texts`
abbrev pub one_of : List String → String → Bool
one_of texts s = any (λ t. s == t) texts

abbrev pub included_roots : List String
included_roots =
    "AGENTS.md" ∷ "README.md" ∷ "Makefile" ∷ "src" ∷ "instrument" ∷ "tools" ∷ "docs" ∷ "web" ∷ []

-- In the order of `sorted`.
abbrev pub approved_root_files : List String
approved_root_files = "AGENTS.md" ∷ "Makefile" ∷ "README.md" ∷ []

-- In the order of `sorted`.
abbrev pub approved_root_directories : List String
approved_root_directories = "docs" ∷ "instrument" ∷ "src" ∷ "tools" ∷ "web" ∷ []

abbrev pub allowed_suffixes : List String
allowed_suffixes =
    ".md" ∷ ".txt" ∷ ".rst" ∷ ".c" ∷ ".h" ∷ ".cc" ∷ ".cpp" ∷ ".py" ∷ ".java" ∷ ".sh" ∷ ".js"
    ∷ ".css" ∷ ".html" ∷ ".toml" ∷ ".json" ∷ ".yaml" ∷ ".yml" ∷ ".csv" ∷ ".tsv" ∷ []

abbrev pub excluded_files : List String
excluded_files =
    "src/engine/stb_image.h" ∷ "src/engine/glad.c" ∷ "src/engine/glad.h" ∷ "src/engine/cgltf.h" ∷ []

abbrev pub excluded_prefixes : List String
excluded_prefixes = "web/grn-catalog/vendor/" ∷ []

abbrev pub max_file_bytes : ℕ
max_file_bytes = 1_000_000

abbrev pub max_snapshot_files : ℕ
max_snapshot_files = 20_000

abbrev pub max_snapshot_bytes : ℕ
max_snapshot_bytes = 128_000_000

abbrev pub max_manifest_bytes : ℕ
max_manifest_bytes = 65_536

abbrev pub binary_probe_bytes : ℕ
binary_probe_bytes = 4_096

abbrev pub is_nul : ℕ → Bool
is_nul c = eqb c 0

abbrev pub is_backslash : ℕ → Bool
is_backslash c = eqb c 0x5c

abbrev pub is_dot_part : String → Bool
is_dot_part part = one_of ("" ∷ "." ∷ ".." ∷ []) part || starts_with part "."

abbrev pub is_excluded : String → Bool
is_excluded path = one_of excluded_files path || any (λ p. starts_with path p) excluded_prefixes

-- The last tests, on the parts of the path. `relative.parts[0]` raises on an empty tuple.
abbrev pub admits_parts : String → List String → Outcome Bool
admits_parts path [] = raises index_error
admits_parts path (only ∷ []) = returns (one_of approved_root_files path)
admits_parts path (root ∷ part ∷ rest) =
    returns (one_of approved_root_directories root && one_of allowed_suffixes (lower (suffix path)))

-- `is_admitted_repository_path`
unfoldable pub is_admitted_repository_path : String → Outcome Bool
unfolding any_char parts is_absolute suffix lower
is_admitted_repository_path path =
    if path == "" || (any_char is_nul path || any_char is_backslash path)
    then returns false
    else if is_absolute path || any is_dot_part (parts path)
    then returns false
    else if is_excluded path
    then returns false
    else admits_parts path (parts path)

source_is_admitted : is_admitted_repository_path "src/engine/main.C" ≡ returns true
unfolding is_admitted_repository_path
source_is_admitted = refl

vendored_is_not : is_admitted_repository_path "src/engine/glad.c" ≡ returns false
unfolding is_admitted_repository_path
vendored_is_not = refl

dot_raises : is_admitted_repository_path "." ≡ raises index_error
unfolding is_admitted_repository_path
dot_raises = refl

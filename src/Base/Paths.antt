-- ===== src/Base/Paths.antt =====
-- Python's `PurePosixPath`: the parts, the name and the suffix of a path.
use Prim.Native.Nat.{◌-◌}
use Prim.Native.Char.{code}
use Prim.Native.String.{String, ◌++◌, char_at}
use mathlib.Core.Path.{◌≡◌, refl}
use mathlib.Core.Bool.{Bool, ◌||◌}
use mathlib.Core.Option.{Option, none, some}
use mathlib.Core.List.{List, [], ◌∷◌}
use text.Mathlib.Text.{◌==◌, starts_with}
use jn_engine_contributor_mc.Base.Tests.{eqb, if◌then◌else◌}
use jn_engine_contributor_mc.Base.Text.{split, is_upper}

-- `sep.join(pieces)`
unfoldable pub join : String → List String → String
join sep [] = ""
join sep (s ∷ []) = s
join sep (s ∷ t ∷ rest) = s ++ (sep ++ join sep (t ∷ rest))

-- The segments that `PurePosixPath` keeps.
unfoldable pub kept_segments : List String → List String
kept_segments [] = []
kept_segments (s ∷ rest) =
    let others = kept_segments rest in if s == "" || s == "." then others else s ∷ others

-- `PurePosixPath(s).parts`, less the root of an absolute path.
unfoldable pub parts : String → List String
unfolding split kept_segments
parts s = kept_segments (split b'/' s)

unfoldable pub is_absolute : String → Bool
is_absolute s = starts_with s "/"

-- `PurePosixPath(s).as_posix()` of a relative path.
unfoldable pub as_posix : String → String
unfolding parts join
as_posix s = let path = join "/" (parts s) in if path == "" then "." else path

unfoldable pub last_text : List String → String
last_text [] = ""
last_text (s ∷ []) = s
last_text (s ∷ t ∷ rest) = last_text (t ∷ rest)

-- The text from the last dot on.
unfoldable pub last_dot : String → Option String
last_dot String.[] = none
last_dot (String.◌∷◌ c s) = elim (last_dot s) [
  | some t ↦ some t
  | none ↦ if eqb (code c) b'.' then some (String.◌∷◌ c s) else none
]

-- The suffix of a name: a dot at its start or at its end makes none.
unfoldable pub suffix_of_name : String → String
unfolding last_dot
suffix_of_name String.[] = ""
suffix_of_name (String.◌∷◌ c s) = elim (last_dot s) [
  | none ↦ ""
  | some t ↦ if t == "." then "" else t
]

-- `PurePosixPath(s).name`
unfoldable pub name : String → String
unfolding parts last_text
name s = last_text (parts s)

-- `PurePosixPath(s).suffix`
unfoldable pub suffix : String → String
unfolding name suffix_of_name
suffix s = suffix_of_name (name s)

-- `str.lower` for a comparison with lower-case texts of ASCII letters other than k: no character beyond
-- ASCII becomes one of those.
unfoldable pub lower : String → String
lower String.[] = ""
lower (String.◌∷◌ c s) =
    let rest = lower s in
    if is_upper (code c)
    then String.◌∷◌ (char_at "abcdefghijklmnopqrstuvwxyz" (code c - b'A')) rest
    else String.◌∷◌ c rest

parts_example : parts "docs//./a.md" ≡ "docs" ∷ "a.md" ∷ []
unfolding parts
parts_example = refl

suffix_example : suffix "docs/a.b.MD" ≡ ".MD"
unfolding suffix
suffix_example = refl

hidden_suffix : suffix "docs/.md" ≡ ""
unfolding suffix
hidden_suffix = refl

lower_example : lower ".MD" ≡ ".md"
unfolding lower
lower_example = refl

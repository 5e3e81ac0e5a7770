-- ===== src/Python/Json.antt =====
-- A value of type `object`: what `json.loads` returns, what a tool receives, and what the audit
-- records hold. `real m k` is the float m / 2^k, and `nonfinite` an infinity or a NaN.
use jn_engine_contributor_mc.Base.{
  ℕ, ◌^◌, String, ◌≡◌, refl, Bool, true, false, Option, none, some, List, [], ◌∷◌, ◌==◌, eqb,
  if◌then◌else◌,
}
use jn_engine_contributor_mc.Base.Int.{ℤ, pos, negsuc}

mutual
  pub data Json : Type 0 where
    null : Json
    bool : Bool → Json
    int : ℤ → Json
    real : ℤ → ℕ → Json
    nonfinite : Json
    str : String → Json
    arr : Items → Json
    obj : Fields → Json

  pub data Items : Type 0 where
    nil : Items
    cons : Json → Items → Items

  pub data Fields : Type 0 where
    end : Fields
    field : String → Json → Fields → Fields

-- `d.get(key)`: a missing key reads as `None`.
unfoldable pub get : Fields → String → Json
get end key = null
get (field k v rest) key = if k == key then v else get rest key

-- `isinstance(v, dict)`, with the dict.
abbrev pub as_dict : Json → Option Fields
as_dict (obj fs) = some fs
as_dict _ = none

abbrev pub as_list : Json → Option Items
as_list (arr xs) = some xs
as_list _ = none

-- `isinstance(v, str)`, with the text.
abbrev pub as_text : Json → Option String
as_text (str s) = some s
as_text _ = none

-- `isinstance(v, int)`, which a bool passes as 0 or 1.
abbrev pub as_int : Json → Option ℤ
as_int (int z) = some z
as_int (bool true) = some (pos 1)
as_int (bool false) = some (pos 0)
as_int _ = none

-- `isinstance(v, int) and not isinstance(v, bool)`
abbrev pub as_strict_int : Json → Option ℤ
as_strict_int (int z) = some z
as_strict_int _ = none

abbrev pub as_bool : Json → Option Bool
as_bool (bool b) = some b
as_bool _ = none

abbrev is_pos : ℕ → ℤ → Bool
is_pos n (pos m) = eqb m n
is_pos n (negsuc _) = false

-- `v == 1`: so are `True` and `1.0`.
abbrev pub equals_one : Json → Bool
equals_one (int z) = is_pos 1 z
equals_one (bool b) = b
equals_one (real m k) = is_pos (2 ^ k) m
equals_one _ = false

-- `v == s` for a text `s`
abbrev pub equals_text : Json → String → Bool
equals_text (str t) s = t == s
equals_text _ s = false

-- A text, or `None`.
abbrev pub text_or_null : Option String → Json
text_or_null none = null
text_or_null (some s) = str s

-- An array as a list of values.
abbrev pub item_list : Items → List Json
item_list nil = []
item_list (cons x xs) = x ∷ item_list xs

get_example : get (field "a" null (field "b" (bool true) end)) "b" ≡ bool true
unfolding get
get_example = refl

-- ===== src/Base/Sort.antt =====
-- Python's stable `sort`, by an order given as a test.
pub mod Kept
pub mod Ordered
use Prim.Native.Nat.{lt, eq, gt}
use Prim.Native.String.{String, compare as compare_text}
use mathlib.Core.Bool.{Bool, true, false}
use mathlib.Core.List.{List, [], ◌∷◌}
use text.Mathlib.Text.{◌==◌}
use jn_engine_contributor_mc.Base.Tests.{if◌then◌else◌}

abbrev pub text_leb : String → String → Bool
text_leb s t = elim (compare_text s t) [ lt ↦ true | eq ↦ true | gt ↦ false ]

-- The order of pairs, with an order of the second parts.
abbrev pub pair_leb {ℓ} : {A : Type ℓ} → (A → A → Bool) → String × A → String × A → Bool
pair_leb le (s, a) (t, b) = if s == t then le a b else text_leb s t

module _ {ℓ} {A : Type ℓ} (le : A → A → Bool) where
  -- `sort` puts a value before those that it is not greater than, and keeps equal ones in order.
  unfoldable pub insert_sorted : A → List A → List A
  insert_sorted x [] = x ∷ []
  insert_sorted x (y ∷ ys) =
      let rest = insert_sorted x ys in if le x y then x ∷ (y ∷ ys) else y ∷ rest

  unfoldable pub sort : List A → List A
  unfolding insert_sorted
  sort [] = []
  sort (x ∷ xs) = insert_sorted x (sort xs)

-- The values without their sort keys.
abbrev pub second_of {ℓ κ} : {A : Type ℓ} {B : Type κ} → List (A × B) → List B
second_of [] = []
second_of ((a, b) ∷ rest) = b ∷ second_of rest

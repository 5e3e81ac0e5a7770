-- ===== src/Base/Sort/Ordered.antt =====
-- A sort by a total order puts its items in that order.
use Prim.Native.Nat.{ℕ, zero, suc, Ordering, lt, eq, gt, compare as compare_ℕ}
use Prim.Native.Char.{code}
use Prim.Native.String.{String, compare, then}
use Prim.Native.String.compare
use mathlib.Core.Path.{◌≡◌, refl}
use mathlib.Core.Bool.{Bool, true, false}
use mathlib.Core.Logic.{inl, inr}
use mathlib.Core.List.{List, [], ◌∷◌}
use native.Mathlib.Omega.{arith}
use jn_engine_contributor_mc.Base.Tests.{Bool-cases}
use text.Mathlib.TextEquality.{eq_iff}
use jn_engine_contributor_mc.Base.Lists.{take}
use jn_engine_contributor_mc.Base.Sort.{insert_sorted, sort, text_leb, pair_leb}

abbrev pub flip : Ordering → Ordering
flip lt = gt
flip eq = eq
flip gt = lt

compare_flip : (m n : ℕ) → compare_ℕ m n ≡ flip (compare_ℕ n m)
compare_flip m n = ground arith

then-flip : (o p q r : Ordering) → o ≡ flip p → q ≡ flip r → then o q ≡ flip (then p r)
then-flip o p q r h k = ground arith

text_compare-flip : (s t : String) → compare s t ≡ flip (compare t s)
text_compare-flip String.[] String.[] = refl
text_compare-flip String.[] (String.◌∷◌ d t) = rw (compare.nil-cons d t, compare.cons-nil d t) refl
text_compare-flip (String.◌∷◌ c s) String.[] = rw (compare.nil-cons c s, compare.cons-nil c s) refl
text_compare-flip (String.◌∷◌ c s) (String.◌∷◌ d t) =
    rw (compare.cons-cons c d s t, compare.cons-cons d c t s)
      (then-flip _ _ _ _ (compare_flip (code c) (code d)) (text_compare-flip s t))

-- The order of texts is total, and so is that of pairs with an order that is total.
pub text_leb_total : (s t : String) → text_leb s t ≡ false → text_leb t s ≡ true
text_leb_total s t h = ground (arith, text_compare-flip s t)

pub pair_leb_total {ℓ} :
    {A : Type ℓ} (le : A → A → Bool)
    → ((a b : A) → le a b ≡ false → le b a ≡ true)
    → (p q : String × A) → pair_leb le p q ≡ false
    → pair_leb le q p ≡ true
pair_leb_total le total (s, a) (t, b) h =
    ground (arith, eq_iff s t, eq_iff t s, text_leb_total s t, total a b)

module _ {ℓ} {A : Type ℓ} (le : A → A → Bool) where
  abbrev pub IsTotal : Type ℓ
  IsTotal = (a b : A) → le a b ≡ false → le b a ≡ true

  -- No item comes before a list that it is greater than the first of.
  abbrev pub IsBefore : A → List A → Type 0
  IsBefore a [] = Unit
  IsBefore a (x ∷ xs) = le a x ≡ true

  -- Each item is at most the next.
  abbrev pub IsOrdered : List A → Type 0
  IsOrdered [] = Unit
  IsOrdered (x ∷ xs) = IsBefore x xs × IsOrdered xs

  pub IsOrdered-take : (n : ℕ) (xs : List A) → IsOrdered xs → IsOrdered (take n xs)
  IsOrdered-take zero xs h = tt
  IsOrdered-take (suc n) [] h = tt
  IsOrdered-take (suc zero) (x ∷ xs) h = (tt, tt)
  IsOrdered-take (suc (suc n)) (x ∷ []) h = (tt, tt)
  IsOrdered-take (suc (suc n)) (x ∷ y ∷ xs) h = (h.0, IsOrdered-take (suc n) (y ∷ xs) h.1)

  module _ (total : IsTotal) where
    insert_sorted-IsBefore :
        (a x : A) (ys : List A) → le a x ≡ true → IsBefore a ys → IsBefore a (insert_sorted le x ys)
    unfolding insert_sorted
    insert_sorted-IsBefore a x [] h k = h
    insert_sorted-IsBefore a x (y ∷ ys) h k = elim (Bool-cases (le x y)) [
      | inl e ↦ rw (insert_sorted, e) h
      | inr e ↦ rw (insert_sorted, e) k
    ]

    insert_sorted-IsOrdered :
        (x : A) (ys : List A) → IsOrdered ys → IsOrdered (insert_sorted le x ys)
    unfolding insert_sorted
    insert_sorted-IsOrdered x [] h = (tt, tt)
    insert_sorted-IsOrdered x (y ∷ ys) h = elim (Bool-cases (le x y)) [
      | inl e ↦ rw (insert_sorted, e) (e, h)
      | inr e ↦
          rw (insert_sorted, e)
            (insert_sorted-IsBefore y x ys (total x y e) h.0, insert_sorted-IsOrdered x ys h.1)
    ]

    pub sort-IsOrdered : (xs : List A) → IsOrdered (sort le xs)
    unfolding sort
    sort-IsOrdered [] = tt
    sort-IsOrdered (x ∷ xs) = insert_sorted-IsOrdered x (sort le xs) (sort-IsOrdered xs)

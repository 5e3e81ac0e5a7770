-- ===== src/Base/Sort/Kept.antt =====
-- A sort keeps what it is given: a predicate of all items, their number, and the items.
use Prim.Native.Nat.{suc}
use mathlib.Core.Path.{◌≡◌, refl, ap, ◌∙◌}
use mathlib.Core.Bool.{Bool}
use mathlib.Core.Logic.{inl, inr}
use mathlib.Core.List.{List, [], ◌∷◌, ◌++◌, Perm, perm_middle}
use mathlib.Core.List.Perm
use native.Mathlib.Omega.{arith}
use jn_engine_contributor_mc.Base.Tests.{Bool-cases}
use jn_engine_contributor_mc.Base.Lists.{All, length}
use jn_engine_contributor_mc.Base.Sort.{insert_sorted, sort, second_of}

module _ {ℓ} {A : Type ℓ} where
  -- The lists that the items stand for, one after the other.
  unfoldable pub flat {κ} : {B : Type κ} → (A → List B) → List A → List B
  flat f [] = []
  flat f (x ∷ xs) = f x ++ flat f xs

  append-swap : (xs ys zs : List A) → Perm (xs ++ (ys ++ zs)) (ys ++ (xs ++ zs))
  append-swap [] ys zs = Perm.rfl
  append-swap (x ∷ xs) ys zs =
      Perm.trans (Perm.cons x (append-swap xs ys zs)) (Perm.symm (perm_middle ys (xs ++ zs)))

module _ {ℓ} {A : Type ℓ} (le : A → A → Bool) where
  module _ {κ} (P : A → Type κ) where
    pub All-insert_sorted : (x : A) (ys : List A) → P x → All P ys → All P (insert_sorted le x ys)
    unfolding insert_sorted
    All-insert_sorted x [] p h = (p, tt)
    All-insert_sorted x (y ∷ ys) p h = elim (Bool-cases (le x y)) [
      | inl e ↦ rw (insert_sorted, e) (p, h)
      | inr e ↦ rw (insert_sorted, e) (h.0, All-insert_sorted x ys p h.1)
    ]

    All-of_insert_sorted : (x : A) (ys : List A) → All P (insert_sorted le x ys) → P x × All P ys
    unfolding insert_sorted
    All-of_insert_sorted x [] = λ h. h
    All-of_insert_sorted x (y ∷ ys) = elim (Bool-cases (le x y)) [
      | inl e ↦ rw (insert_sorted, e) (λ h. h)
      | inr e ↦
          rw (insert_sorted, e) (λ h. let (p, q) = All-of_insert_sorted x ys h.1 in (p, (h.0, q)))
    ]

    -- What holds of all items holds of all that are sorted.
    pub All-sort : (xs : List A) → All P xs → All P (sort le xs)
    unfolding sort
    All-sort [] h = tt
    All-sort (x ∷ xs) h = All-insert_sorted x (sort le xs) h.0 (All-sort xs h.1)

    -- And the other way round.
    pub All-of_sort : (xs : List A) → All P (sort le xs) → All P xs
    unfolding sort
    All-of_sort [] h = tt
    All-of_sort (x ∷ xs) h =
        let (p, q) = All-of_insert_sorted x (sort le xs) h in (p, All-of_sort xs q)

  module _ {κ} {B : Type κ} (f : A → List B) where
    flat-insert_sorted :
        (x : A) (ys : List A) → Perm (flat f (insert_sorted le x ys)) (f x ++ flat f ys)
    unfolding insert_sorted flat
    flat-insert_sorted x [] = Perm.rfl
    flat-insert_sorted x (y ∷ ys) = elim (Bool-cases (le x y)) [
      | inl e ↦ rw (insert_sorted, e, flat) Perm.rfl
      | inr e ↦
          rw (insert_sorted, e, flat)
            (Perm.trans (Perm.append_left (f y) (flat-insert_sorted x ys))
              (append-swap (f y) (f x) (flat f ys)))
    ]

    -- A sort leaves the same items in all the lists.
    pub flat-sort : (xs : List A) → Perm (flat f (sort le xs)) (flat f xs)
    unfolding sort flat
    flat-sort [] = Perm.rfl
    flat-sort (x ∷ xs) =
        Perm.trans (flat-insert_sorted x (sort le xs)) (Perm.append_left (f x) (flat-sort xs))

  insert_sorted-Perm : (x : A) (ys : List A) → Perm (insert_sorted le x ys) (x ∷ ys)
  unfolding insert_sorted
  insert_sorted-Perm x [] = Perm.rfl
  insert_sorted-Perm x (y ∷ ys) = elim (Bool-cases (le x y)) [
    | inl e ↦ rw (insert_sorted, e) Perm.rfl
    | inr e ↦
        rw (insert_sorted, e)
          (Perm.trans (Perm.cons y (insert_sorted-Perm x ys)) (Perm.swap x y ys))
  ]

  pub sort-Perm : (xs : List A) → Perm (sort le xs) xs
  unfolding sort
  sort-Perm [] = Perm.rfl
  sort-Perm (x ∷ xs) = Perm.trans (insert_sorted-Perm x (sort le xs)) (Perm.cons x (sort-Perm xs))

module _ {ℓ} {A : Type ℓ} (le : A → A → Bool) where
  length-insert_sorted : (x : A) (ys : List A) → length (insert_sorted le x ys) ≡ suc (length ys)
  unfolding insert_sorted
  length-insert_sorted x [] = refl
  length-insert_sorted x (y ∷ ys) = ground (arith, length-insert_sorted x ys)

  pub length-sort : (xs : List A) → length (sort le xs) ≡ length xs
  unfolding sort
  length-sort [] = refl
  length-sort (x ∷ xs) = length-insert_sorted x (sort le xs) ∙ ap suc (length-sort xs)

module _ {ℓ κ} {A : Type ℓ} {B : Type κ} where
  pub All-second_of {μ} :
      (P : B → Type μ) (xs : List (A × B)) → All (λ x. P x.1) xs → All P (second_of xs)
  All-second_of P [] h = tt
  All-second_of P ((a, b) ∷ xs) h = (h.0, All-second_of P xs h.1)

  pub All-of_second_of {μ} :
      (P : B → Type μ) (xs : List (A × B)) → All P (second_of xs) → All (λ x. P x.1) xs
  All-of_second_of P [] h = tt
  All-of_second_of P ((a, b) ∷ xs) h = (h.0, All-of_second_of P xs h.1)

  pub flat-second_of {μ} :
      {C : Type μ} (f : B → List C) (xs : List (A × B))
      → flat f (second_of xs) ≡ flat (λ x. f x.1) xs
  unfolding flat
  flat-second_of f [] = refl
  flat-second_of f ((a, b) ∷ xs) = ap (λ cs. f b ++ cs) (flat-second_of f xs)

-- ===== src/Base/Text/Take.antt =====
-- How long the first characters of a text are, and the first items of a list.
use Prim.Native.Nat.{ℕ, zero, suc, ◌≤◌, ◌<◌}
use Prim.Native.String.{String}
use mathlib.Core.Path.{◌≡◌, refl, ap}
use mathlib.Core.List.{List, [], ◌∷◌}
use native.Mathlib.Omega.{arith}
use text.Mathlib.TextLemmas.{length-nil, length-cons}
use jn_engine_contributor_mc.Base.Lists.{length, take}
use jn_engine_contributor_mc.Base.Text.{take_text, text_length}

pub take_text-length : (n : ℕ) (s : String) → text_length (take_text n s) ≤ n
unfolding take_text
take_text-length zero s = omega (arith, length-nil)
take_text-length (suc n) String.[] = omega (arith, length-nil)
take_text-length (suc n) (String.◌∷◌ c s) =
    omega (arith, length-cons c (take_text n s), take_text-length n s)

pub take_text-whole : (n : ℕ) (s : String) → text_length s ≤ n → take_text n s ≡ s
unfolding take_text
take_text-whole zero String.[] h = refl
take_text-whole zero (String.◌∷◌ c s) h = absurd (omega (arith, length-cons c s, h))
take_text-whole (suc n) String.[] h = refl
take_text-whole (suc n) (String.◌∷◌ c s) h =
    ap (λ t. String.◌∷◌ c t) (take_text-whole n s (omega (arith, length-cons c s, h)))

pub take_text-full : (n : ℕ) (s : String) → n < text_length s → text_length (take_text n s) ≡ n
unfolding take_text
take_text-full zero s h = omega (arith, length-nil)
take_text-full (suc n) String.[] h = absurd (omega (arith, length-nil, h))
take_text-full (suc n) (String.◌∷◌ c s) h =
    omega
      (arith, length-cons c (take_text n s), take_text-full n s (omega (arith, length-cons c s, h)))

-- A list that is not longer than what was taken of it was taken whole.
pub take-whole {ℓ} :
    {A : Type ℓ} (n : ℕ) (xs : List A) → length (take (suc n) xs) ≤ n → take (suc n) xs ≡ xs
take-whole n [] h = refl
take-whole zero (x ∷ xs) h = absurd (omega (arith, h))
take-whole (suc n) (x ∷ xs) h = ap (λ ys. x ∷ ys) (take-whole n xs (omega (arith, h)))

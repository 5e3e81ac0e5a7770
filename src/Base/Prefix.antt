-- ===== src/Base/Prefix.antt =====
-- Texts put together from a prefix or a first character and the rest.
use Prim.Native.Char.{Char, code}
use Prim.Native.String.{String, ◌++◌}
use mathlib.Core.Path.{◌≡◌, ap}
use mathlib.Core.Bool.{false}
use mathlib.Core.Logic.{inl, inr}
use mathlib.Core.Option.{some}
use text.Mathlib.Text.{◌==◌}
use text.Mathlib.TextEquality.{eq_iff}
use text.Mathlib.TextLemmas.{nil-append, cons-append, cons≢nil}
use jn_engine_contributor_mc.Base.Tests.{eqb_refl, Bool-cases}
use jn_engine_contributor_mc.Base.Text.{drop_prefix}

pub drop_prefix-append : (s t : String) → drop_prefix s (s ++ t) ≡ some t
unfolding drop_prefix
drop_prefix-append String.[] t = ap some (nil-append t)
drop_prefix-append (String.◌∷◌ c s) t =
    rw (cons-append c s t, eqb_refl (code c)) (drop_prefix-append s t)

pub cons_nonempty : (c : Char) (s : String) → (String.◌∷◌ c s == "") ≡ false
cons_nonempty c s = elim (Bool-cases (String.◌∷◌ c s == "")) [
  | inl e ↦ absurd (cons≢nil ((eq_iff (String.◌∷◌ c s) "").0 e))
  | inr e ↦ e
]

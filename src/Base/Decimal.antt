-- ===== src/Base/Decimal.antt =====
-- `str(n)` of a number.
use Prim.Native.Nat.{ℕ, zero, suc, ◌/◌, ◌%◌}
use Prim.Native.String.{String, ◌++◌, char_at}
use mathlib.Core.Path.{◌≡◌, refl}
use jn_engine_contributor_mc.Base.Tests.{ltb, if◌then◌else◌}

abbrev digit_text : ℕ → String
digit_text n = String.◌∷◌ (char_at "0123456789" n) ""

-- The digits of a number, with `fuel` for how many there may be.
unfoldable pub digits_text : ℕ → ℕ → String
digits_text zero n = ""
digits_text (suc fuel) n =
    let rest = digits_text fuel (n / 10) in
    if ltb n 10 then digit_text n else rest ++ digit_text (n % 10)

-- A number has at most one digit more than it says.
unfoldable pub decimal_text : ℕ → String
unfolding digits_text
decimal_text n = digits_text (suc n) n

decimal_text_example : decimal_text 1203 ≡ "1203"
unfolding decimal_text
decimal_text_example = refl

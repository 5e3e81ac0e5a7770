-- ===== src/Python/Base64.antt =====
-- `base64`: the URL-safe encoding without its padding, and the decoding of it.
use Prim.Native.Char.{Char, char, code, IsScalar}
use jn_engine_contributor_mc.Base.{
  ℕ, ◌+◌, ◌-◌, ◌*◌, ◌/◌, ◌%◌, ◌<◌, ◌≡◌, refl, String, Bool, true, ◌||◌, Option, none, some, List,
  [], ◌∷◌, arith, ltb, eqb, if◌then◌else◌,
}
use jn_engine_contributor_mc.Base.Lists.{All}
use jn_engine_contributor_mc.Base.Text.{all_chars, is_upper, is_lower, is_digit}
use jn_engine_contributor_mc.Python.Utf8.{Bytes}

-- The digit of six bits.
abbrev digit_code : ℕ → ℕ
digit_code n =
    if ltb n 26
    then b'A' + n
    else if ltb n 52
    then 71 + n
    else if ltb n 62
    then n - 4
    else if eqb n 62
    then b'-'
    else b'_'

digit_IsScalar : (n : ℕ) → IsScalar (digit_code n)
digit_IsScalar n = ground arith

unfoldable pub digit : ℕ → Char
unfolding digit_IsScalar
digit n = char (digit_code n) (digit_IsScalar n)

-- `[A-Za-z0-9_-]`
abbrev pub is_digit_char : ℕ → Bool
is_digit_char c = is_upper c || (is_lower c || (is_digit c || (eqb c b'_' || eqb c b'-')))

abbrev digit_value : ℕ → Option ℕ
digit_value c =
    if is_upper c
    then some (c - b'A')
    else if is_lower c
    then some (c - 71)
    else if is_digit c
    then some (c + 4)
    else if eqb c b'-'
    then some 62
    else if eqb c b'_'
    then some 63
    else none

infixr 67 ◌∷ₜ◌
abbrev ◌∷ₜ◌ : ℕ → String → String
n ∷ₜ s = String.◌∷◌ (digit n) s

-- `base64.urlsafe_b64encode(data).decode("ascii").rstrip("=")`: a digit is never `=`.
unfoldable pub b64encode : Bytes → String
unfolding digit
b64encode [] = ""
b64encode (a ∷ []) = (a / 4) ∷ₜ (a % 4 * 16) ∷ₜ ""
b64encode (a ∷ b ∷ []) = (a / 4) ∷ₜ (a % 4 * 16 + b / 16) ∷ₜ (b % 16 * 4) ∷ₜ ""
b64encode (a ∷ b ∷ c ∷ rest) =
    (a / 4) ∷ₜ (a % 4 * 16 + b / 16) ∷ₜ (b % 16 * 4 + c / 64) ∷ₜ (c % 64) ∷ₜ b64encode rest

abbrev keep_digit : Option ℕ → Option (List ℕ) → Option (List ℕ)
keep_digit none rest = none
keep_digit (some n) none = none
keep_digit (some n) (some ns) = some (n ∷ ns)

unfoldable pub digits_of : String → Option (List ℕ)
digits_of String.[] = some []
digits_of (String.◌∷◌ c s) = keep_digit (digit_value (code c)) (digits_of s)

abbrev put_three : ℕ → ℕ → ℕ → Option Bytes → Option Bytes
put_three a b c none = none
put_three a b c (some rest) = some (a ∷ b ∷ c ∷ rest)

-- The bits that no byte takes are dropped; one digit alone is refused.
unfoldable pub bytes_of : List ℕ → Option Bytes
bytes_of [] = some []
bytes_of (x ∷ []) = none
bytes_of (x ∷ y ∷ []) = some ((x * 4 + y / 16) ∷ [])
bytes_of (x ∷ y ∷ z ∷ []) = some ((x * 4 + y / 16) ∷ (y % 16 * 16 + z / 4) ∷ [])
bytes_of (x ∷ y ∷ z ∷ w ∷ rest) =
    put_three (x * 4 + y / 16) (y % 16 * 16 + z / 4) (z % 4 * 64 + w) (bytes_of rest)

abbrev and_bytes : Option (List ℕ) → Option Bytes
and_bytes none = none
and_bytes (some ns) = bytes_of ns

-- `base64.b64decode(s + "=" * (-len(s) % 4), altchars=b"-_", validate=True)`, with none where it raises.
unfoldable pub b64decode : String → Option Bytes
unfolding digits_of bytes_of
b64decode s = and_bytes (digits_of s)

abbrev pub IsByte : ℕ → Type 0
IsByte n = n < 256

-- The digits of some bytes, as numbers.
unfoldable pub sextets : Bytes → List ℕ
sextets [] = []
sextets (a ∷ []) = (a / 4) ∷ (a % 4 * 16) ∷ []
sextets (a ∷ b ∷ []) = (a / 4) ∷ (a % 4 * 16 + b / 16) ∷ (b % 16 * 4) ∷ []
sextets (a ∷ b ∷ c ∷ rest) =
    (a / 4) ∷ (a % 4 * 16 + b / 16) ∷ (b % 16 * 4 + c / 64) ∷ (c % 64) ∷ sextets rest

digit_value-code : (n : ℕ) → n < 64 → digit_value (digit_code n) ≡ some n
digit_value-code n h = ground arith

digit_IsDigit : (n : ℕ) → is_digit_char (digit_code n) ≡ true
digit_IsDigit n = ground arith

digits_of-b64encode : (bs : Bytes) → All IsByte bs → digits_of (b64encode bs) ≡ some (sextets bs)
unfolding b64encode sextets digits_of digit
digits_of-b64encode [] h = refl
digits_of-b64encode (a ∷ []) h =
    rw (digit_value-code (a / 4) (omega (arith, h.0)), digit_value-code (a % 4 * 16) (omega arith))
      refl
digits_of-b64encode (a ∷ b ∷ []) h =
    rw
      (
        digit_value-code (a / 4) (omega (arith, h.0)),
        digit_value-code (a % 4 * 16 + b / 16) (omega (arith, h.1.0)),
        digit_value-code (b % 16 * 4) (omega arith),
      )
      refl
digits_of-b64encode (a ∷ b ∷ c ∷ rest) h =
    rw
      (
        digit_value-code (a / 4) (omega (arith, h.0)),
        digit_value-code (a % 4 * 16 + b / 16) (omega (arith, h.1.0)),
        digit_value-code (b % 16 * 4 + c / 64) (omega (arith, h.1.1.0)),
        digit_value-code (c % 64) (omega arith),
        digits_of-b64encode rest h.1.1.1,
      )
      refl

bytes_of-sextets : (bs : Bytes) → All IsByte bs → bytes_of (sextets bs) ≡ some bs
unfolding bytes_of sextets
bytes_of-sextets [] h = refl
bytes_of-sextets (a ∷ []) h = grind arith
bytes_of-sextets (a ∷ b ∷ []) h = grind arith
bytes_of-sextets (a ∷ b ∷ c ∷ rest) h = grind (arith, bytes_of-sextets rest h.1.1.1)

-- What was encoded decodes to itself.
pub b64decode-b64encode : (bs : Bytes) → All IsByte bs → b64decode (b64encode bs) ≡ some bs
unfolding b64decode
b64decode-b64encode bs h = rw (digits_of-b64encode bs h) (bytes_of-sextets bs h)

-- The encoding has digits only.
pub b64encode-digits : (bs : Bytes) → all_chars is_digit_char (b64encode bs) ≡ true
unfolding b64encode all_chars digit
b64encode-digits [] = refl
b64encode-digits (a ∷ []) = rw (digit_IsDigit (a / 4), digit_IsDigit (a % 4 * 16)) refl
b64encode-digits (a ∷ b ∷ []) =
    rw (digit_IsDigit (a / 4), digit_IsDigit (a % 4 * 16 + b / 16), digit_IsDigit (b % 16 * 4)) refl
b64encode-digits (a ∷ b ∷ c ∷ rest) =
    rw
      (
        digit_IsDigit (a / 4),
        digit_IsDigit (a % 4 * 16 + b / 16),
        digit_IsDigit (b % 16 * 4 + c / 64),
        digit_IsDigit (c % 64),
      )
      (b64encode-digits rest)

b64encode_example : b64encode (b'j' ∷ b'n' ∷ 255 ∷ b'!' ∷ []) ≡ "am7_IQ"
unfolding b64encode
b64encode_example = refl

-- ===== src/Python/Utf8.antt =====
-- UTF-8: `str.encode` and the strict `bytes.decode`.
pub mod Lossy
use Prim.Native.Char.{Char, char, code, IsScalar}
use native.Mathlib.Decide.{dec_lt}
use text.Mathlib.TextEquality.{Char-path}
use jn_engine_contributor_mc.Base.{
  ℕ, zero, suc, ◌+◌, ◌*◌, ◌/◌, ◌%◌, ◌<◌, ◌≤◌, ◌∙◌, String, ◌≡◌, refl, ap, Bool, true, false, ◌&&◌,
  Option, none, some, List, [], ◌∷◌, ◌++◌, arith, ltb, leb, if◌then◌else◌, ◌⊎◌, inl, inr,
}

pub scalar_low : (n : ℕ) → n < 0xd800 → IsScalar n
scalar_low n h = ground arith

pub scalar_high : (n : ℕ) → 0xdfff < n → n < 0x110000 → IsScalar n
scalar_high n h k = ground arith

scalar_above : (n : ℕ) → IsScalar n → (n < 0xd800 → ⊥) → 0xdfff < n
scalar_above n p h = ground arith

scalar_below : (n : ℕ) → IsScalar n → (n < 0xd800 → ⊥) → n < 0x110000
scalar_below n p h = ground arith

-- A number as a character: the surrogates and the numbers beyond Unicode are none.
unfoldable pub pick :
    (n : ℕ) → Dec (n < 0xd800) → Dec (0xdfff < n) → Dec (n < 0x110000) → Option Char
pick n (yes low) above below = some (char n (scalar_low n low))
pick n (no _) (no _) below = none
pick n (no _) (yes above) (no _) = none
pick n (no _) (yes above) (yes below) = some (char n (scalar_high n above below))

unfoldable pub as_char : ℕ → Option Char
unfolding dec_lt pick
as_char n = pick n (dec_lt n 0xd800) (dec_lt 0xdfff n) (dec_lt n 0x110000)

pick-code :
    (n : ℕ) (p : IsScalar n) (d : Dec (n < 0xd800)) (e : Dec (0xdfff < n)) (f : Dec (n < 0x110000))
    → pick n d e f ≡ some (char n p)
unfolding pick
pick-code n p (yes low) e f = ap some (Char-path (char n (scalar_low n low)) (char n p) refl)
pick-code n p (no high) (no under) f = absurd (under (scalar_above n p high))
pick-code n p (no high) (yes above) (no beyond) = absurd (beyond (scalar_below n p high))
pick-code n p (no high) (yes above) (yes below) =
    ap some (Char-path (char n (scalar_high n above below)) (char n p) refl)

as_char-code : (c : Char) → as_char (code c) ≡ some c
unfolding as_char
as_char-code (char n p) = pick-code n p _ _ _

abbrev pub Bytes : Type 0
Bytes = List ℕ

-- A character's code in UTF-8.
abbrev pub utf8_char : ℕ → Bytes
utf8_char n =
    if ltb n 0x80
    then n ∷ []
    else if ltb n 0x800
    then (0xc0 + n / 64) ∷ (0x80 + n % 64) ∷ []
    else if ltb n 0x10000
    then (0xe0 + n / 4096) ∷ (0x80 + n / 64 % 64) ∷ (0x80 + n % 64) ∷ []
    else (0xf0 + n / 262144) ∷ (0x80 + n / 4096 % 64) ∷ (0x80 + n / 64 % 64) ∷ (0x80 + n % 64) ∷ []

-- `s.encode("utf-8")`
unfoldable pub utf8 : String → Bytes
utf8 String.[] = []
utf8 (String.◌∷◌ c s) = utf8_char (code c) ++ utf8 s

abbrev put_char : Option Char → Option String → Option String
put_char none rest = none
put_char (some c) none = none
put_char (some c) (some s) = some (String.◌∷◌ c s)

-- What a first byte begins: how many bytes follow, its bits, and the least character of that length.
abbrev first_byte : ℕ → Option (ℕ × ℕ × ℕ)
first_byte b =
    if ltb b 0x80
    then some (0, b, 0)
    else if ltb b 0xc2
    then none
    else if ltb b 0xe0
    then some (1, b % 32, 0x80)
    else if ltb b 0xf0
    then some (2, b % 16, 0x800)
    else if ltb b 0xf5
    then some (3, b % 8, 0x10000)
    else none

-- `bytes.decode("utf-8")` where `wanted` bytes of a character are still to come, whose bits so far are
-- `bits` and which may not be below `least`.
unfoldable pub decode_from : ℕ → ℕ → ℕ → Bytes → Option String
decode_from zero bits least [] = some ""
decode_from (suc wanted) bits least [] = none
decode_from zero bits least (b ∷ rest) = elim (first_byte b) [
  | none ↦ none
  | some (zero, n, low) ↦ put_char (as_char n) (decode_from 0 0 0 rest)
  | some (suc k, n, low) ↦ decode_from (suc k) n low rest
]
decode_from (suc zero) bits least (b ∷ rest) = elim (leb 0x80 b && ltb b 0xc0) [
  | false ↦ none
  | true ↦ elim (leb least (bits * 64 + b % 64)) [
    | false ↦ none
    | true ↦ put_char (as_char (bits * 64 + b % 64)) (decode_from 0 0 0 rest)
  ]
]
decode_from (suc (suc wanted)) bits least (b ∷ rest) = elim (leb 0x80 b && ltb b 0xc0) [
  | false ↦ none
  | true ↦ decode_from (suc wanted) (bits * 64 + b % 64) least rest
]

unfoldable pub decode_utf8 : Bytes → Option String
unfolding decode_from
decode_utf8 bytes = decode_from 0 0 0 bytes

put_char-code : (c : Char) (o : Option String) → put_char (as_char (code c)) o ≡ put_char (some c) o
put_char-code c o = rw (as_char-code c) refl

pub code_lt : (n : ℕ) → IsScalar n → n < 0x110000
code_lt n p = ground arith

module _ (bits least x : ℕ) (rest : Bytes) (small : x < 64) where
  follows :
      (k : ℕ)
      → decode_from (suc (suc k)) bits least ((0x80 + x) ∷ rest)
        ≡ decode_from (suc k) (bits * 64 + x) least rest
  unfolding decode_from
  follows k = ground arith

  ends :
      (n : ℕ)
      → bits * 64 + x ≡ n
      → least ≤ n
      → decode_from 1 bits least ((0x80 + x) ∷ rest) ≡ put_char (as_char n) (decode_from 0 0 0 rest)
  unfolding decode_from
  ends n e h = ground arith

begins :
    (b k n low : ℕ) (rest : Bytes)
    → first_byte b ≡ some (suc k, n, low)
    → decode_from 0 0 0 (b ∷ rest) ≡ decode_from (suc k) n low rest
unfolding decode_from
begins b k n low rest h = rw (decode_from, h) refl

stands_alone :
    (b n low : ℕ) (rest : Bytes)
    → first_byte b ≡ some (0, n, low)
    → decode_from 0 0 0 (b ∷ rest) ≡ put_char (as_char n) (decode_from 0 0 0 rest)
unfolding decode_from
stands_alone b n low rest h = rw (decode_from, h) refl

first_of_1 : (n : ℕ) → n < 0x80 → first_byte n ≡ some (0, n, 0)
first_of_1 n h = ground arith

first_of_2 : (n : ℕ) → 0x80 ≤ n → n < 0x800 → first_byte (0xc0 + n / 64) ≡ some (1, n / 64, 0x80)
first_of_2 n l h = ground arith

first_of_3 : (n : ℕ) → n < 0x10000 → first_byte (0xe0 + n / 4096) ≡ some (2, n / 4096, 0x800)
first_of_3 n h = ground arith

first_of_4 : (n : ℕ) → n < 0x110000 → first_byte (0xf0 + n / 262144) ≡ some (3, n / 262144, 0x10000)
first_of_4 n h = ground arith

module _ (n : ℕ) (rest : Bytes) where
  decode_2 :
      0x80 ≤ n
      → n < 0x800
      → decode_from 0 0 0 ((0xc0 + n / 64) ∷ (0x80 + n % 64) ∷ rest)
        ≡ put_char (as_char n) (decode_from 0 0 0 rest)
  decode_2 l h =
      begins _ 0 _ _ _ (first_of_2 n l h)
      ∙ ends (n / 64) 0x80 (n % 64) rest (omega arith) n (omega arith) l

  decode_3 :
      0x800 ≤ n
      → n < 0x10000
      → decode_from 0 0 0 ((0xe0 + n / 4096) ∷ (0x80 + n / 64 % 64) ∷ (0x80 + n % 64) ∷ rest)
        ≡ put_char (as_char n) (decode_from 0 0 0 rest)
  decode_3 l h =
      begins _ 1 _ _ _ (first_of_3 n h)
      ∙ follows (n / 4096) 0x800 (n / 64 % 64) _ (omega arith) 0
      ∙ ends _ 0x800 (n % 64) rest (omega arith) n (omega arith) l

  decode_4 :
      0x10000 ≤ n
      → n < 0x110000
      → decode_from 0 0 0 (
          (0xf0 + n / 262144)
          ∷ (0x80 + n / 4096 % 64)
          ∷ (0x80 + n / 64 % 64)
          ∷ (0x80 + n % 64)
          ∷ rest)
        ≡ put_char (as_char n) (decode_from 0 0 0 rest)
  decode_4 l h =
      begins _ 2 _ _ _ (first_of_4 n h)
      ∙ follows (n / 262144) 0x10000 (n / 4096 % 64) _ (omega arith) 1
      ∙ follows _ 0x10000 (n / 64 % 64) _ (omega arith) 0
      ∙ ends _ 0x10000 (n % 64) rest (omega arith) n (omega arith) l

  decode-code :
      n < 0x110000
      → decode_from 0 0 0 (utf8_char n ++ rest) ≡ put_char (as_char n) (decode_from 0 0 0 rest)
  decode-code h = ground (
    arith,
    λ (l : n < 0x80). stands_alone n n 0 rest (first_of_1 n l),
    decode_2,
    decode_3,
    decode_4,
  )

-- What was encoded decodes to itself.
pub decode_utf8-utf8 : (s : String) → decode_utf8 (utf8 s) ≡ some s
unfolding decode_utf8 utf8
decode_utf8-utf8 String.[] = refl
decode_utf8-utf8 (String.◌∷◌ (char n p) s) =
    decode-code n (utf8 s) (code_lt n p)
    ∙ put_char-code (char n p) (decode_from 0 0 0 (utf8 s))
    ∙ ap (put_char (some (char n p))) (decode_utf8-utf8 s)

-- ===== src/Python/Utf8/Lossy.antt =====
-- `bytes.decode("utf-8", errors="replace")`.
use Prim.Native.Char.{Char}
use Prim.Native.String.{char_at}
use jn_engine_contributor_mc.Base.{
  ℕ, ◌+◌, ◌-◌, ◌*◌, ◌%◌, String, ◌≡◌, refl, Bool, true, false, ◌&&◌, Option, none, some, [], ◌∷◌,
  ltb, leb, eqb, if◌then◌else◌,
}
use jn_engine_contributor_mc.Python.Utf8.{Bytes, as_char}

abbrev replacement : Char
replacement = char_at "�" 0

-- A character of which bytes are still to come: how many, its bits so far, and between which bounds the
-- next byte is.
record Pending : Type 0 where
  wanted : ℕ
  bits : ℕ
  low : ℕ
  high : ℕ

abbrev idle : Pending
idle = record { wanted = 0; bits = 0; low = 0; high = 0 }

abbrev pending : ℕ → ℕ → ℕ → ℕ → Pending
pending wanted bits low high = record { wanted = wanted; bits = bits; low = low; high = high }

-- What a byte begins that no other precedes. Bytes below 0x80 and those that begin nothing leave no more
-- to come.
abbrev begun : ℕ → Pending
begun b =
    if ltb b 0xc2
    then idle
    else if ltb b 0xe0
    then pending 1 (b % 32) 0x80 0xbf
    else if ltb b 0xf0
    then pending 2 (b % 16) (if eqb b 0xe0 then 0xa0 else 0x80) (if eqb b 0xed then 0x9f else 0xbf)
    else if ltb b 0xf5
    then pending 3 (b % 8) (if eqb b 0xf0 then 0x90 else 0x80) (if eqb b 0xf4 then 0x8f else 0xbf)
    else idle

abbrev char_or : Option Char → Char
char_or none = replacement
char_or (some c) = c

abbrev with_char : Bool → Char → String → String
with_char true c s = String.◌∷◌ c s
with_char false c s = s

abbrev is_idle : Pending → Bool
is_idle p = eqb p.wanted 0

-- The character that a first byte is by itself, in front of the rest.
abbrev first_char : ℕ → String → String
first_char b rest =
    with_char (is_idle (begun b)) (if ltb b 0x80 then char_or (as_char b) else replacement) rest

abbrev continues : Pending → ℕ → Bool
continues p b = ltb 0 p.wanted && (leb p.low b && leb b p.high)

abbrev bits_with : Pending → ℕ → ℕ
bits_with p b = p.bits * 64 + b % 64

-- The text of the bytes, where those of a character may have come before. The bytes of a character that
-- is broken off are one replacement character, and the byte that breaks it off begins anew.
unfoldable decode_pending : Pending → Bytes → String
decode_pending p [] = with_char (ltb 0 p.wanted) replacement ""
decode_pending p (b ∷ rest) = elim (continues p b) [
  | false ↦ with_char (ltb 0 p.wanted) replacement (first_char b (decode_pending (begun b) rest))
  | true ↦ elim (eqb p.wanted 1) [
    | true ↦ String.◌∷◌ (char_or (as_char (bits_with p b))) (decode_pending idle rest)
    | false ↦ decode_pending (pending (p.wanted - 1) (bits_with p b) 0x80 0xbf) rest
  ]
]

unfoldable pub decode_replace : Bytes → String
unfolding decode_pending
decode_replace bytes = decode_pending idle bytes

broken_off : decode_replace (b'a' ∷ 0xe2 ∷ 0x82 ∷ b'b' ∷ 0xff ∷ []) ≡ "a�b�"
unfolding decode_replace as_char
broken_off = refl

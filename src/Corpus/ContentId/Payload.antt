-- ===== src/Corpus/ContentId/Payload.antt =====
-- The bytes of a content id's payload: UTF-8 of the two parts around one zero byte.
use Prim.Native.Char.{char, code}
use Prim.Native.String.{◌++◌ as ◌<>◌}
use text.Mathlib.TextLemmas.{nil-append, cons-append}
use jn_engine_contributor_mc.Base.{
  ℕ, ◌+◌, ◌<◌, String, Bool, true, false, [], ◌∷◌, ◌++◌, ◌≡◌, refl, sym, ap, ◌∙◌, arith, eqb, ltb,
  and_both, or_false,
}
use mathlib.Core.List.{append_assoc}
use jn_engine_contributor_mc.Base.Lists.{all, All, All-append}
use jn_engine_contributor_mc.Base.Text.{all_chars, any_char}
use jn_engine_contributor_mc.Python.Utf8.{Bytes, utf8, utf8_char, code_lt}
use jn_engine_contributor_mc.Python.Base64.{IsByte}
use jn_engine_contributor_mc.Corpus.Policy.{is_nul}
use jn_engine_contributor_mc.Corpus.ContentId.{count_nul, cut_nul, is_hex_char, id_payload}

utf8-append : (s t : String) → utf8 (s <> t) ≡ utf8 s ++ utf8 t
unfolding utf8
utf8-append String.[] t = ap utf8 (nil-append t)
utf8-append (String.◌∷◌ c s) t =
    ap utf8 (cons-append c s t)
    ∙ ap (λ x. utf8_char (code c) ++ x) (utf8-append s t)
    ∙ sym (append_assoc (utf8_char (code c)) (utf8 s) (utf8 t))

utf8_char-IsByte : (n : ℕ) → n < 0x110000 → All IsByte (utf8_char n)
utf8_char-IsByte n h = ground arith

pub utf8-IsByte : (s : String) → All IsByte (utf8 s)
unfolding utf8
utf8-IsByte String.[] = tt
utf8-IsByte (String.◌∷◌ (char n p) s) =
    All-append IsByte (utf8_char n) (utf8 s) (utf8_char-IsByte n (code_lt n p)) (utf8-IsByte s)

count_nul-append : (a b : Bytes) → count_nul (a ++ b) ≡ count_nul a + count_nul b
unfolding count_nul
count_nul-append [] b = omega arith
count_nul-append (x ∷ a) b = ground (arith, count_nul-append a b)

count_nul-utf8_char : (n : ℕ) → eqb n 0 ≡ false → count_nul (utf8_char n) ≡ 0
unfolding count_nul
count_nul-utf8_char n h = ground arith

-- A text without the character zero has no zero byte.
pub count_nul-utf8 : (s : String) → any_char is_nul s ≡ false → count_nul (utf8 s) ≡ 0
unfolding utf8 any_char count_nul
count_nul-utf8 String.[] h = refl
count_nul-utf8 (String.◌∷◌ c s) h =
    let (first, others) = or_false (is_nul (code c)) (any_char is_nul s) h in
    omega (
      arith,
      count_nul-append (utf8_char (code c)) (utf8 s),
      count_nul-utf8_char (code c) first,
      count_nul-utf8 s others,
    )

all-append : (p : ℕ → Bool) (a b : Bytes) → all p a ≡ true → all p b ≡ true → all p (a ++ b) ≡ true
all-append p [] b h k = k
all-append p (x ∷ a) b h k =
    let (first, others) = and_both (p x) (all p a) h in rw first (all-append p a b others k)

hex_is_ascii : (n : ℕ) → is_hex_char n ≡ true → all (λ b. ltb b 0x80) (utf8_char n) ≡ true
hex_is_ascii n h = ground arith

hex_not_nul : (n : ℕ) → is_hex_char n ≡ true → is_nul n ≡ false
hex_not_nul n h = ground arith

pub all-utf8 : (s : String) → all_chars is_hex_char s ≡ true → all (λ b. ltb b 0x80) (utf8 s) ≡ true
unfolding utf8 all_chars
all-utf8 String.[] h = refl
all-utf8 (String.◌∷◌ c s) h =
    let (first, others) = and_both (is_hex_char (code c)) (all_chars is_hex_char s) h in
    all-append (λ b. ltb b 0x80) (utf8_char (code c)) (utf8 s) (hex_is_ascii (code c) first)
      (all-utf8 s others)

pub hex-no_nul : (s : String) → all_chars is_hex_char s ≡ true → any_char is_nul s ≡ false
unfolding all_chars any_char
hex-no_nul String.[] h = refl
hex-no_nul (String.◌∷◌ c s) h =
    let (first, others) = and_both (is_hex_char (code c)) (all_chars is_hex_char s) h in
    rw (hex_not_nul (code c) first) (hex-no_nul s others)

separator : utf8 "\0" ≡ 0 ∷ []
unfolding utf8
separator = refl

pub payload :
    (commit path : String) → utf8 (id_payload commit path) ≡ utf8 commit ++ (0 ∷ utf8 path)
payload commit path =
    utf8-append commit ("\0" <> path)
    ∙ ap (λ x. utf8 commit ++ x) (utf8-append "\0" path ∙ ap (λ x. x ++ utf8 path) separator)

pub count_nul-payload :
    (a b : Bytes) → count_nul a ≡ 0 → count_nul b ≡ 0 → count_nul (a ++ (0 ∷ b)) ≡ 1
unfolding count_nul
count_nul-payload a b h k = omega (arith, count_nul-append a (0 ∷ b))

pub cut_nul-payload : (a b : Bytes) → count_nul a ≡ 0 → cut_nul (a ++ (0 ∷ b)) ≡ (a, b)
unfolding cut_nul count_nul
cut_nul-payload [] b h = refl
cut_nul-payload (x ∷ a) b h = ground (arith, cut_nul-payload a b)

-- ===== src/OpenPr/Trailer.antt =====
-- The idempotency trailer of core/open_pr.py: what is written in a commit message is found in it.
use Prim.Native.Char.{Char, code}
use Prim.Native.String.{◌++◌, char_at}
use text.Mathlib.TextLemmas.{append_assoc, nil-append, cons-append}
use jn_engine_contributor_mc.Base.{
  ℕ, String, ◌≡◌, refl, ap, ◌∙◌, Bool, true, false, none, some, List, ◌∷◌, arith, and-right, eqb,
  or_false, and_both, ◌||◌,
}
use jn_engine_contributor_mc.Base.Text.{
  any_char, all_chars, in_class, is_upper, is_lower, is_digit, split, drop_prefix,
}
use jn_engine_contributor_mc.Base.Prefix.{drop_prefix-append}
use jn_engine_contributor_mc.Claims.Validate.{is_idempotency_key}
use jn_engine_contributor_mc.OpenPr.Steps.{
  trailer_of_line, first_trailer, find_trailer, commit_message,
}

-- The characters of a key.
abbrev is_key_char : ℕ → Bool
is_key_char c =
    is_upper c || (is_lower c || (is_digit c || (eqb c b'.' || (eqb c b'_' || eqb c b'-'))))

abbrev pub is_newline : ℕ → Bool
is_newline c = eqb c 0x0a

abbrev newline : Char
newline = char_at "\n" 0

abbrev after_line : String → String
after_line rest = String.◌∷◌ newline rest

-- A text without a newline is a line.
split-line :
    (s rest : String)
    → any_char is_newline s ≡ false
    → split 0x0a (s ++ after_line rest) ≡ s ∷ split 0x0a rest
unfolding split any_char
split-line String.[] rest h = rw (nil-append (String.◌∷◌ newline rest)) refl
split-line (String.◌∷◌ c s) rest h =
    let (first, others) = or_false (is_newline (code c)) (any_char is_newline s) h in
    rw (cons-append c s (String.◌∷◌ newline rest), first, split-line s rest others) refl

any_char-append :
    (p : ℕ → Bool) (s t : String)
    → any_char p s ≡ false
    → any_char p t ≡ false
    → any_char p (s ++ t) ≡ false
unfolding any_char
any_char-append p String.[] t h k = rw (nil-append t) k
any_char-append p (String.◌∷◌ c s) t h k =
    let (first, others) = or_false (p (code c)) (any_char p s) h in
    rw (cons-append c s t, first) (any_char-append p s t others k)

all-any :
    (p q : ℕ → Bool) (s : String)
    → ((c : ℕ) → p c ≡ true → q c ≡ false)
    → all_chars p s ≡ true
    → any_char q s ≡ false
unfolding all_chars any_char
all-any p q String.[] h k = refl
all-any p q (String.◌∷◌ c s) h k =
    let (first, others) = and_both (p (code c)) (all_chars p s) k in
    rw (h (code c) first) (all-any p q s h others)

abbrev proposer : String
proposer = "Proposed-by: "

abbrev key_line : String
key_line = "Idempotency-Key: "

-- The lines of a commit message.
commit_message-lines :
    (title caller key : String)
    → commit_message title caller key
      ≡ title
        ++ after_line
            (after_line ((proposer ++ caller) ++ after_line ((key_line ++ key) ++ after_line "")))
unfolding commit_message
commit_message-lines title caller key =
    rw
      (
        append_assoc proposer caller (after_line ((key_line ++ key) ++ after_line "")),
        append_assoc key_line key (after_line ""),
      )
      (ap (λ x. title ++ x)
        (cons-append newline "\nProposed-by: " _
          ∙ ap after_line (
              cons-append newline proposer _
              ∙ ap (λ x. after_line (proposer ++ (caller ++ x))) (cons-append newline key_line _))))

class_no_newline : (c : ℕ) → is_key_char c ≡ true → is_newline c ≡ false
class_no_newline c h = ground arith

key-line : (key : String) → is_idempotency_key key ≡ true → any_char is_newline key ≡ false
unfolding is_idempotency_key in_class
key-line key h =
    all-any is_key_char is_newline key class_no_newline (and-right _ _ (and-right _ _ h))

proposer_is_no_trailer : (caller : String) → trailer_of_line (proposer ++ caller) ≡ none
unfolding trailer_of_line drop_prefix
proposer_is_no_trailer caller = rw (cons-append (char_at "P" 0) "roposed-by: " caller) refl

key_line-trailer :
    (key : String) → is_idempotency_key key ≡ true → trailer_of_line (key_line ++ key) ≡ some key
unfolding trailer_of_line
key_line-trailer key h = rw (trailer_of_line, drop_prefix-append key_line key, h) refl

-- A blank line comes first.
split-blank : (rest : String) → split 0x0a (after_line rest) ≡ "" ∷ split 0x0a rest
unfolding split
split-blank rest = refl

proposer_ok : any_char is_newline proposer ≡ false
unfolding any_char
proposer_ok = refl

key_line_ok : any_char is_newline key_line ≡ false
unfolding any_char
key_line_ok = refl

lines_of :
    (title caller key : String)
    → any_char is_newline title ≡ false
    → any_char is_newline caller ≡ false
    → any_char is_newline key ≡ false
    → split 0x0a (commit_message title caller key)
      ≡ title ∷ "" ∷ (proposer ++ caller) ∷ (key_line ++ key) ∷ split 0x0a ""
lines_of title caller key title_ok caller_ok key_ok =
    ap (split 0x0a) (commit_message-lines title caller key)
    ∙ split-line title _ title_ok
    ∙ ap (λ l. title ∷ l)
        (split-blank _
          ∙ ap (λ l. "" ∷ l)
              (split-line (proposer ++ caller) _
                  (any_char-append is_newline proposer caller proposer_ok caller_ok)
                ∙ ap (λ l. (proposer ++ caller) ∷ l)
                    (split-line (key_line ++ key) ""
                      (any_char-append is_newline key_line key key_line_ok key_ok))))

first_trailer-none :
    (line : String) (rest : List String)
    → trailer_of_line line ≡ none
    → first_trailer (line ∷ rest) ≡ first_trailer rest
unfolding first_trailer
first_trailer-none line rest h = rw (first_trailer, h) refl

first_trailer-some :
    (line key : String) (rest : List String)
    → trailer_of_line line ≡ some key
    → first_trailer (line ∷ rest) ≡ some key
unfolding first_trailer
first_trailer-some line key rest h = rw (first_trailer, h) refl

blank_is_no_trailer : trailer_of_line "" ≡ none
unfolding trailer_of_line drop_prefix
blank_is_no_trailer = refl

-- The key of a commit message is found in it, if neither the title nor the caller has a newline and the
-- title is not a trailer itself.
pub find_trailer-commit_message :
    (title caller key : String)
    → any_char is_newline title ≡ false
    → any_char is_newline caller ≡ false
    → is_idempotency_key key ≡ true
    → trailer_of_line title ≡ none
    → find_trailer (commit_message title caller key) ≡ some key
unfolding find_trailer
find_trailer-commit_message title caller key title_ok caller_ok key_ok no_trailer =
    ap first_trailer (lines_of title caller key title_ok caller_ok (key-line key key_ok))
    ∙ first_trailer-none title _ no_trailer
    ∙ first_trailer-none "" _ blank_is_no_trailer
    ∙ first_trailer-none (proposer ++ caller) _ (proposer_is_no_trailer caller)
    ∙ first_trailer-some (key_line ++ key) key _ (key_line-trailer key key_ok)

-- A title without a newline that is a trailer itself hides the key: it is the title's that is found.
pub find_trailer-title :
    (title caller key hidden : String)
    → any_char is_newline title ≡ false
    → trailer_of_line title ≡ some hidden
    → find_trailer (commit_message title caller key) ≡ some hidden
unfolding find_trailer
find_trailer-title title caller key hidden title_ok found =
    ap (λ m. first_trailer (split 0x0a m)) (commit_message-lines title caller key)
    ∙ ap first_trailer (split-line title _ title_ok)
    ∙ first_trailer-some title hidden _ found

-- ===== src/Samples.antt =====
-- Concrete calls of the services, and the theorems at work on them. The calendar of the tests writes
-- the seconds of an instant as thirty binary digits, the lowest first.
pub mod ClaimCalls
pub mod AuditCalls
pub mod GithubCalls
pub mod OpenPrCalls
pub mod StatusCalls
pub mod CorpusCalls
pub mod SearchCalls
pub mod TaskCalls
use Prim.Native.Char.{Char, code}
use Prim.Native.String.{count, char_at}
use text.Mathlib.TextLemmas.{length-cons}
use jn_engine_contributor_mc.Base.{
  ℕ, zero, suc, ◌+◌, ◌*◌, ◌/◌, ◌%◌, ◌^◌, ◌≤◌, ◌<◌, String, ◌≡◌, refl, ap, ◌∙◌, Bool, true, false,
  Bool-cases, inl, inr, Option, none, some, List, [], ◌∷◌, arith, eqb, if◌then◌else◌,
}
use jn_engine_contributor_mc.Base.Text.{text_length}
use jn_engine_contributor_mc.Python.Json.{Fields}
use jn_engine_contributor_mc.Audit.{Host}
use jn_engine_contributor_mc.Claims.{Calendar, IsFaithful, second}

abbrev pub bit : ℕ → Char
bit n = char_at "01" n

unfoldable pub digits : ℕ → ℕ → String
digits zero n = ""
digits (suc k) n =
    if eqb (n % 2) 0
    then String.◌∷◌ (bit 0) (digits k (n / 2))
    else String.◌∷◌ (bit 1) (digits k (n / 2))

unfoldable pub number : String → ℕ
number String.[] = 0
number (String.◌∷◌ c s) = (if eqb (code c) b'1' then 1 else 0) + 2 * number s

digits-length : (k n : ℕ) → text_length (digits k n) ≡ k
unfolding digits
digits-length zero n = refl
digits-length (suc k) n = elim (Bool-cases (eqb (n % 2) 0)) [
  | inl e ↦ rw e (length-cons _ _ ∙ ap suc (digits-length k (n / 2)))
  | inr e ↦ rw e (length-cons _ _ ∙ ap suc (digits-length k (n / 2)))
]

bit_0 : (h n : ℕ) → 2 * h ≡ n → (if eqb (code (bit 0)) b'1' then 1 else 0) + 2 * h ≡ n
bit_0 h n e = omega arith

bit_1 : (h n : ℕ) → 1 + 2 * h ≡ n → (if eqb (code (bit 1)) b'1' then 1 else 0) + 2 * h ≡ n
bit_1 h n e = omega arith

number-digits : (k n : ℕ) → n < 2 ^ k → number (digits k n) ≡ n
unfolding digits number
number-digits zero n h = omega arith
number-digits (suc k) n h =
    let half : n / 2 < 2 ^ k = omega arith in
    elim (Bool-cases (eqb (n % 2) 0)) [
      | inl e ↦ rw (e, number-digits k (n / 2) half) (bit_0 (n / 2) n (ground arith))
      | inr e ↦ rw (e, number-digits k (n / 2) half) (bit_1 (n / 2) n (ground arith))
    ]

abbrev pub binary : Calendar
binary = record {
  horizon = 2 ^ 30 * second;
  format = λ t. digits 30 (t / second);
  parse = λ s. some (some (number s * second));
}

pub binary-IsFaithful : IsFaithful binary
binary-IsFaithful = record {
  format_length = λ t h. rw (digits-length 30 (t / second)) (omega arith);
  parse-format = λ t h. rw (number-digits 30 (t / second) (omega arith)) refl;
}

-- An operating system that does all it is asked, with a file of this many bytes.
abbrev pub willing : ℕ → Host
willing bytes = record {
  opens = true;
  regular = true;
  mode = 0o600;
  size_at_open = bytes;
  locks = true;
  reads = some bytes;
  writes = λ i. some 70;
  syncs = true;
  glued = none;
}

-- Every record is a hundred bytes.
abbrev pub hundred : Fields → ℕ
hundred r = 100

pub hundred_pos : (r : Fields) → 0 < hundred r
hundred_pos r = omega arith

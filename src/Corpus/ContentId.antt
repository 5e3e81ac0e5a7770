-- ===== src/Corpus/ContentId.antt =====
-- The content ids of core/path_safety.py: a commit and a path in one text.
pub mod Payload
pub mod RoundTrip
use Prim.Native.String.{◌++◌}
use jn_engine_contributor_mc.Base.{
  ℕ, zero, suc, String, Bool, true, false, not, ◌&&◌, ◌||◌, Option, none, some, List, [], ◌∷◌, eqb,
  leb, ltb, ◌==◌, ◌≡◌, refl, if◌then◌else◌,
}
use jn_engine_contributor_mc.Base.Lists.{all}
use jn_engine_contributor_mc.Base.Text.{in_class, is_digit, all_chars, drop_prefix, text_length}
use jn_engine_contributor_mc.Python.Utf8.{Bytes, utf8, decode_utf8}
use jn_engine_contributor_mc.Python.Base64.{is_digit_char, b64encode, b64decode}
use jn_engine_contributor_mc.Corpus.{
  Outcome, returns, raises, Failure, invalid_content_id, unsafe_path, ◌>>=◌, ◌>>◌, refuse_if,
}
use jn_engine_contributor_mc.Corpus.SafePath.{validate_relative_path}

abbrev pub content_id_prefix : String
content_id_prefix = "jn1_"

abbrev pub max_content_id_chars : ℕ
max_content_id_chars = 8_192

-- `[0-9a-f]`
abbrev pub is_hex_char : ℕ → Bool
is_hex_char c = is_digit c || (leb b'a' c && leb c b'f')

-- `COMMIT_PATTERN`
unfoldable pub is_commit_hash : String → Bool
unfolding in_class
is_commit_hash commit = in_class is_hex_char 40 40 commit

-- `DecodedContentId`
pub record DecodedContentId : Type 0 where
  pub commit : String
  pub relative_path : String

-- `f"{commit}\x00{normalized}"`
abbrev pub id_payload : String → String → String
id_payload commit path = commit ++ ("\0" ++ path)

-- `encode_content_id`
unfoldable pub encode_content_id : String → String → Outcome String
unfolding is_commit_hash validate_relative_path utf8 b64encode
encode_content_id commit relative_path = do
  refuse_if (not (is_commit_hash commit))
      (invalid_content_id "commit is not a lowercase 40-character hash")
  normalized ← validate_relative_path relative_path
  returns (content_id_prefix ++ b64encode (utf8 (id_payload commit normalized)))

-- `raw.count(b"\x00")`
unfoldable pub count_nul : Bytes → ℕ
count_nul [] = 0
count_nul (b ∷ rest) = let others = count_nul rest in if eqb b 0 then suc others else others

-- `raw.split(b"\x00", maxsplit=1)`, where there is a separator.
unfoldable pub cut_nul : Bytes → Bytes × Bytes
cut_nul [] = ([], [])
cut_nul (b ∷ rest) =
    let (first, second) = cut_nul rest in if eqb b 0 then ([], rest) else (b ∷ first, second)

-- `bytes.decode("ascii")`
unfoldable pub decode_ascii : Bytes → Option String
unfolding decode_utf8
decode_ascii bytes = if all (λ b. ltb b 0x80) bytes then decode_utf8 bytes else none

abbrev pub required {ℓ} : {A : Type ℓ} → Option A → Failure → Outcome A
required none why = raises why
required (some a) why = returns a

-- `except UnsafePathError as exc: raise …`
abbrev pub as_invalid_id : Outcome String → Outcome String
as_invalid_id (returns path) = returns path
as_invalid_id (raises (unsafe_path why)) = raises (invalid_content_id "content ID path is unsafe")
as_invalid_id (raises why) = raises why

abbrev pub unknown_id : Failure
unknown_id = invalid_content_id "unknown or oversized content ID"

abbrev pub malformed : Failure
malformed = invalid_content_id "content ID payload is malformed"

abbrev pub not_base64 : Failure
not_base64 = invalid_content_id "content ID payload is not unpadded base64url"

abbrev pub no_separator : Failure
no_separator = invalid_content_id "content ID payload must contain one separator"

abbrev pub not_utf8 : Failure
not_utf8 = invalid_content_id "content ID payload is not valid UTF-8"

-- The end of `decode_content_id`, on the two parts of the payload.
unfoldable pub decode_parts : Bytes × Bytes → Outcome DecodedContentId
unfolding decode_ascii decode_utf8 is_commit_hash validate_relative_path
decode_parts (commit_bytes, path_bytes) = do
  commit ← required (decode_ascii commit_bytes) not_utf8
  relative_path ← required (decode_utf8 path_bytes) not_utf8
  refuse_if (not (is_commit_hash commit)) (invalid_content_id "content ID commit is malformed")
  normalized ← as_invalid_id (validate_relative_path relative_path)
  returns (record { commit = commit; relative_path = normalized })

-- `decode_content_id`: `drop_prefix` is the test for the prefix and the slice after it.
unfoldable pub decode_content_id : String → Outcome DecodedContentId
unfolding drop_prefix all_chars b64decode count_nul cut_nul decode_parts
decode_content_id content_id = do
  encoded ← required (drop_prefix content_id_prefix content_id) unknown_id
  refuse_if (ltb max_content_id_chars (text_length content_id)) unknown_id
  refuse_if (encoded == "" || not (all_chars is_digit_char encoded)) not_base64
  raw ← required (b64decode encoded) malformed
  refuse_if (not (eqb (count_nul raw) 1)) no_separator
  decode_parts (cut_nul raw)

abbrev pub sample_commit : String
sample_commit = "0123456789abcdef0123456789abcdef01234567"

abbrev pub sample_id : String
sample_id = "jn1_MDEyMzQ1Njc4OWFiY2RlZjAxMjM0NTY3ODlhYmNkZWYwMTIzNDU2NwBSRUFETUUubWQ"

-- ===== src/Corpus/ContentId/RoundTrip.antt =====
-- Content ids that were encoded decode to what they were made of, and what decodes is safe.
use Prim.Native.String.{◌++◌ as ◌<>◌}
use jn_engine_contributor_mc.Base.{
  ◌≤◌, String, true, false, not, ◌||◌, [], ◌∷◌, ◌≡◌, refl, sym, subst, ap, ◌∙◌, arith, eqb, ltb,
  and-right, ◌==◌, not-false,
}
use jn_engine_contributor_mc.Base.Text.{all_chars, text_length, drop_prefix, in_class}
use jn_engine_contributor_mc.Python.Utf8.{Bytes, utf8, decode_utf8, decode_utf8-utf8}
use jn_engine_contributor_mc.Python.Base64.{
  is_digit_char, b64encode, b64decode, b64decode-b64encode, b64encode-digits,
}
use jn_engine_contributor_mc.Corpus.{
  Outcome, returns, raises, after-returns, check-returns, returned,
}
use jn_engine_contributor_mc.Corpus.SafePath.{validate_relative_path}
use jn_engine_contributor_mc.Corpus.SafePath.Accepted.{IsSafe, validate_relative_path-returns_iff}
use jn_engine_contributor_mc.Corpus.ContentId.{
  content_id_prefix, max_content_id_chars, is_commit_hash, is_hex_char, id_payload,
  encode_content_id, count_nul, cut_nul, decode_ascii, decode_parts, as_invalid_id, required,
  not_utf8, malformed, unknown_id, not_base64, no_separator, DecodedContentId, decode_content_id,
}
use jn_engine_contributor_mc.Corpus.ContentId.Payload.{
  utf8-IsByte, count_nul-utf8, all-utf8, hex-no_nul, payload, count_nul-payload, cut_nul-payload,
}
use jn_engine_contributor_mc.Base.Prefix.{drop_prefix-append, cons_nonempty}

commit_chars :
    (commit : String) → is_commit_hash commit ≡ true → all_chars is_hex_char commit ≡ true
unfolding is_commit_hash in_class
commit_chars commit h = and-right _ _ (and-right _ _ h)

-- What `encode_content_id` needs and gives.
encoded-is :
    (commit path id : String)
    → encode_content_id commit path ≡ returns id
    → (is_commit_hash commit ≡ true)
      × (validate_relative_path path ≡ returns path)
      × (id ≡ content_id_prefix <> b64encode (utf8 (id_payload commit path)))
unfolding encode_content_id
encoded-is commit path id h =
    let (h1, k1) = check-returns _ _ _ h in
    let (normalized, h2, k2) = after-returns (validate_relative_path path) _ k1 in
    let (same, safe) = (validate_relative_path-returns_iff path normalized).0 h2 in
    (not-false (is_commit_hash commit) h1, h2 ∙ ap returns same, grind (arith, k2, same))

b64encode-nonempty : (bytes : Bytes) → count_nul bytes ≡ 1 → (b64encode bytes == "") ≡ false
unfolding b64encode count_nul
b64encode-nonempty [] h = absurd (omega (arith, h))
b64encode-nonempty (a ∷ []) h = cons_nonempty _ _
b64encode-nonempty (a ∷ b ∷ []) h = cons_nonempty _ _
b64encode-nonempty (a ∷ b ∷ c ∷ rest) h = cons_nonempty _ _

module _ (commit path : String) (hash : is_commit_hash commit ≡ true) (safe : IsSafe path) where
  commit_bytes-no_nul : count_nul (utf8 commit) ≡ 0
  commit_bytes-no_nul = count_nul-utf8 commit (hex-no_nul commit (commit_chars commit hash))

  one_separator : count_nul (utf8 (id_payload commit path)) ≡ 1
  one_separator =
      ap count_nul (payload commit path)
      ∙ count_nul-payload _ _ commit_bytes-no_nul (count_nul-utf8 path safe.no_nul)

  decode_parts-payload :
      decode_parts (cut_nul (utf8 (id_payload commit path)))
      ≡ returns (record { commit = commit; relative_path = path })
  unfolding decode_parts decode_ascii
  decode_parts-payload =
      rw
        (
          payload commit path,
          cut_nul-payload (utf8 commit) (utf8 path) commit_bytes-no_nul,
          all-utf8 commit (commit_chars commit hash),
          decode_utf8-utf8 commit,
          decode_utf8-utf8 path,
          hash,
          (validate_relative_path-returns_iff path path).1 (refl, safe),
        )
        refl

short_enough :
    (id : String)
    → text_length id ≤ max_content_id_chars
    → ltb max_content_id_chars (text_length id) ≡ false
short_enough id h = ground arith

valid_path :
    (m : Outcome String) (path : String) → as_invalid_id m ≡ returns path → m ≡ returns path
valid_path (returns p) path h = h
valid_path (raises why) path h = ground arith

-- An id that `encode_content_id` returned, and that is not longer than ids may be, decodes to the commit
-- and the path that it was made of.
pub decode_content_id-encode_content_id :
    (commit path id : String)
    → encode_content_id commit path ≡ returns id
    → text_length id ≤ max_content_id_chars
    → decode_content_id id ≡ returns (record { commit = commit; relative_path = path })
unfolding decode_content_id
decode_content_id-encode_content_id commit path id h short =
    let (hash, valid, e) = encoded-is commit path id h in
    let (same, safe) = (validate_relative_path-returns_iff path path).0 valid in
    let bytes = utf8 (id_payload commit path) in
    let one = one_separator commit path hash safe in
    rw
      (
        ap (drop_prefix content_id_prefix) e
            ∙ drop_prefix-append content_id_prefix (b64encode bytes),
        short_enough id short,
        b64encode-nonempty bytes one,
        b64encode-digits bytes,
        b64decode-b64encode bytes (utf8-IsByte (id_payload commit path)),
        one,
        decode_parts-payload commit path hash safe,
      )
      refl

decode_parts-IsSafe :
    (bytes : Bytes × Bytes) (decoded : DecodedContentId)
    → decode_parts bytes ≡ returns decoded
    → (is_commit_hash decoded.commit ≡ true) × IsSafe decoded.relative_path
unfolding decode_parts
decode_parts-IsSafe (a, b) decoded h =
    let (commit, h1, k1) = after-returns (required (decode_ascii a) not_utf8) _ h in
    let (path, h2, k2) = after-returns (required (decode_utf8 b) not_utf8) _ k1 in
    let (h3, k3) = check-returns _ _ _ k2 in
    let (normalized, h4, k4) = after-returns (as_invalid_id (validate_relative_path path)) _ k3 in
    let (same, safe) =
      (validate_relative_path-returns_iff path normalized).0 (valid_path _ normalized h4) in
    returned (λ d. (is_commit_hash d.commit ≡ true) × IsSafe d.relative_path)
      (record { commit = commit; relative_path = normalized }) decoded k4
      (not-false (is_commit_hash commit) h3, subst IsSafe (sym same) safe)

-- What `decode_content_id` returns has a hash for its commit and a safe path, whatever text it is given.
pub decode_content_id-IsSafe :
    (id : String) (decoded : DecodedContentId)
    → decode_content_id id ≡ returns decoded
    → (is_commit_hash decoded.commit ≡ true) × IsSafe decoded.relative_path
unfolding decode_content_id
decode_content_id-IsSafe id decoded h =
    let (encoded, h1, k1) =
      after-returns (required (drop_prefix content_id_prefix id) unknown_id) _ h in
    let (h2, k2) = check-returns (ltb max_content_id_chars (text_length id)) unknown_id _ k1 in
    let (h3, k3) =
      check-returns (encoded == "" || not (all_chars is_digit_char encoded)) not_base64 _ k2 in
    let (raw, h4, k4) = after-returns (required (b64decode encoded) malformed) _ k3 in
    let (h5, k5) = check-returns (not (eqb (count_nul raw) 1)) no_separator _ k4 in
    decode_parts-IsSafe (cut_nul raw) decoded k5

-- ===== src/Corpus/SafePath/Errors.antt =====
-- The errors of `validate_relative_path`.
use jn_engine_contributor_mc.Base.{String, false, not, ◌||◌, [], ◌==◌, ◌≡◌, refl, sym, ◌∙◌, ◌≢◌}
use jn_engine_contributor_mc.Base.Lists.{any}
use jn_engine_contributor_mc.Base.Text.{any_char, contains, split}
use jn_engine_contributor_mc.Base.Paths.{is_absolute, parts}
use jn_engine_contributor_mc.Corpus.{Failure, raises, unsafe_path, check-raises, after-raises}
use jn_engine_contributor_mc.Corpus.Policy.{is_nul, is_backslash, is_admitted_repository_path}
use jn_engine_contributor_mc.Corpus.Policy.Admitted.{is_admitted_repository_path-raises}
use jn_engine_contributor_mc.Corpus.SafePath.{
  has_drive, is_dot_segment, is_hidden, validate_relative_path,
}
use jn_engine_contributor_mc.Corpus.SafePath.Accepted.{kept_segments-plain, split-ne-nil}

abbrev pub IsUnsafe : Failure → Type 0
IsUnsafe why = (detail : String) × (why ≡ unsafe_path detail)

-- A text without dot segments has a part.
has_part : (raw : String) → any is_dot_segment (split b'/' raw) ≡ false → parts raw ≢ []
unfolding parts
has_part raw h e = split-ne-nil b'/' raw (sym (kept_segments-plain (split b'/' raw) h) ∙ e)

-- Whatever text it is given, `validate_relative_path` raises nothing but an `UnsafePathError`: the `IndexError`
-- of the policy's test is out of its reach.
pub validate_relative_path-raises :
    (raw : String) (why : Failure) → validate_relative_path raw ≡ raises why → IsUnsafe why
unfolding validate_relative_path
validate_relative_path-raises raw why =
    check-raises IsUnsafe (raw == "" || any_char is_nul raw) _ _ why (_, refl)
      λ _.
        check-raises IsUnsafe (any_char is_backslash raw) _ _ why (_, refl)
          λ _.
            check-raises IsUnsafe (contains raw "//") _ _ why (_, refl)
              λ _.
                check-raises IsUnsafe (is_absolute raw || has_drive raw) _ _ why (_, refl)
                  λ _.
                    check-raises IsUnsafe (any is_dot_segment (split b'/' raw)) _ _ why (_, refl)
                      λ no_dots.
                        check-raises IsUnsafe (any is_hidden (split b'/' raw)) _ _ why (_, refl)
                          λ _.
                            after-raises IsUnsafe (is_admitted_repository_path raw) _ why
                              (λ h. absurd (
                                has_part raw no_dots
                                  (is_admitted_repository_path-raises raw why h).1))
                              λ admitted _.
                                check-raises IsUnsafe (not admitted) _ _ why (_, refl) λ _ h. cc

-- ===== src/Corpus/Reads/Resolved.antt =====
-- Which paths pass the checks before an open, and which content ids resolve.
use text.Mathlib.TextEquality.{eq_iff}
use jn_engine_contributor_mc.Base.{
  ◌≤◌, String, true, not, ◌||◌, Option, none, some, List, [], ◌∷◌, ◌++◌, eqb, ltb, ◌==◌, ◌≡◌, refl,
  subst, or_false, not-false, eqb→eq, ltb_false→le, if◌then◌else◌, Bool-cases, inl, inr,
}
use jn_engine_contributor_mc.Base.Paths.{parts}
use jn_engine_contributor_mc.Base.Text.{text_length}
use jn_engine_contributor_mc.Corpus.{
  returns, raises, stale_content_id, after-returns, check-returns, returned, refuse_if-returns,
}
use jn_engine_contributor_mc.Corpus.Policy.{max_file_bytes}
use jn_engine_contributor_mc.Corpus.Scan.{SnapshotFile}
use jn_engine_contributor_mc.Corpus.SafePath.{validate_relative_path}
use jn_engine_contributor_mc.Corpus.SafePath.Accepted.{IsSafe, validate_relative_path-returns_iff}
use jn_engine_contributor_mc.Corpus.ContentId.{
  encode_content_id, decode_content_id, DecodedContentId, max_content_id_chars,
}
use jn_engine_contributor_mc.Corpus.ContentId.RoundTrip.{decode_content_id-encode_content_id}
use jn_engine_contributor_mc.Corpus.Snapshot.{Snapshot, file}
use jn_engine_contributor_mc.Corpus.Reads.{
  Stat, Disk, is_symlink, is_directory, is_regular, stat_of, present_file, check_file, check_parts,
  revalidate_file, resolve_relative_file, resolve_content_id,
}
use jn_engine_contributor_mc.Corpus.Reads.Bounded.{IsInventoried}

-- The path leads over real directories to a single regular file of the inventory's size.
abbrev pub LeadsTo : Disk → SnapshotFile → List String → List String → Type 0
LeadsTo disk item names [] = Unit
LeadsTo disk item names (part ∷ []) =
    (s : Stat) × (disk.lstat (names ++ part ∷ []) ≡ some s) × IsInventoried item s
LeadsTo disk item names (part ∷ next ∷ rest) =
    (s : Stat) × (disk.lstat (names ++ part ∷ []) ≡ some s)
    × (is_directory s.kind ≡ true)
    × LeadsTo disk item (names ++ part ∷ []) (next ∷ rest)

stat_is : (o : Option Stat) (s : Stat) → stat_of o ≡ returns s → o ≡ some s
stat_is none s h = cc
stat_is (some t) s h = returned (λ x. some t ≡ some x) t s h refl

check_file_sound :
    (disk : Disk) (item : SnapshotFile) (s : Stat)
    → check_file disk item s ≡ returns tt
    → IsInventoried item s
unfolding check_file
check_file_sound disk item s h =
    let (h1, k1) = check-returns (not (is_regular s.kind) || not (eqb s.links 1)) _ _ h in
    let (h2, k2) = check-returns (ltb max_file_bytes s.size) _ _ k1 in
    let h3 = refuse_if-returns (not (eqb s.size item.size_bytes)) _ k2 in
    let (regular, single) = or_false (not (is_regular s.kind)) (not (eqb s.links 1)) h1 in
    record {
      regular = not-false _ regular;
      single = eqb→eq s.links 1 (not-false _ single);
      same_size = eqb→eq s.size item.size_bytes (not-false _ h3);
      small = ltb_false→le max_file_bytes s.size h2;
    }

check_parts_sound :
    (disk : Disk) (item : SnapshotFile) (names path : List String) (done : Unit {0})
    → check_parts disk item names path ≡ returns done
    → LeadsTo disk item names path
unfolding check_parts
check_parts_sound disk item names [] done h = tt
check_parts_sound disk item names (part ∷ []) done h =
    let (s, h1, k1) = after-returns (stat_of (disk.lstat (names ++ part ∷ []))) _ h in
    let (h2, k2) = check-returns (is_symlink s.kind) _ _ k1 in
    (s, stat_is _ s h1, check_file_sound disk item s k2)
check_parts_sound disk item names (part ∷ next ∷ rest) done h =
    let (s, h1, k1) = after-returns (stat_of (disk.lstat (names ++ part ∷ []))) _ h in
    let (h2, k2) = check-returns (is_symlink s.kind) _ _ k1 in
    let (h3, k3) = check-returns (not (is_directory s.kind)) _ _ k2 in
    (
      s,
      stat_is _ s h1,
      not-false _ h3,
      check_parts_sound disk item (names ++ part ∷ []) (next ∷ rest) done k3,
    )

-- What an id that resolves stands for.
pub record IsResolved (disk : Disk) (s : Snapshot) (id : String) (item : SnapshotFile)
    : Type 0 where
  pub decoded : DecodedContentId
  pub decodes : decode_content_id id ≡ returns decoded
  pub same_commit : decoded.commit ≡ s.manifest.commit
  pub safe : IsSafe decoded.relative_path
  pub in_snapshot : file s decoded.relative_path ≡ some item
  pub leads : LeadsTo disk item [] (parts item.relative_path)
  pub contained : disk.contained (parts item.relative_path) ≡ true

present_is : (o : Option SnapshotFile) (f : SnapshotFile) → present_file o ≡ returns f → o ≡ some f
present_is none f h = cc
present_is (some g) f h = returned (λ x. some g ≡ some x) g f h refl

-- An item that `resolve_content_id` returns is the snapshot's file for the path that the id decodes to; the
-- id's commit is the snapshot's; the path is safe; and it leads, over real directories and within the
-- content root, to a single regular file of the size that the inventory has.
pub resolve_content_id-IsResolved :
    (disk : Disk) (s : Snapshot) (id : String) (item : SnapshotFile)
    → resolve_content_id disk s id ≡ returns item
    → IsResolved disk s id item
unfolding resolve_content_id resolve_relative_file revalidate_file
resolve_content_id-IsResolved disk s id item h =
    let (decoded, h1, k1) = after-returns (decode_content_id id) _ h in
    let (h2, k2) = check-returns (not (decoded.commit == s.manifest.commit)) _ _ k1 in
    let (path, h3, k3) = after-returns (validate_relative_path decoded.relative_path) _ k2 in
    let (found, h4, k4) = after-returns (present_file (file s path)) _ k3 in
    let (names, h5, k5) = after-returns (revalidate_file disk found) _ k4 in
    let (done, h6, k6) =
      after-returns (check_parts disk found [] (parts found.relative_path)) _ h5 in
    let (h7, k7) = check-returns (not (disk.contained (parts found.relative_path))) _ _ k6 in
    let (same, safe) = (validate_relative_path-returns_iff decoded.relative_path path).0 h3 in
    returned (IsResolved disk s id) found item k5 (record {
      decoded = decoded;
      decodes = h1;
      same_commit = (eq_iff decoded.commit s.manifest.commit).0 (not-false _ h2);
      safe = safe;
      in_snapshot = subst (λ p. file s p ≡ some found) same (present_is _ found h4);
      leads = check_parts_sound disk found [] (parts found.relative_path) done h6;
      contained = not-false _ h7;
    })

-- An id that was encoded, and that is not longer than ids may be, resolves as its path does if its commit is
-- the snapshot's, and is stale otherwise.
pub resolve_content_id-encode_content_id :
    (disk : Disk) (s : Snapshot) (commit path id : String)
    → encode_content_id commit path ≡ returns id
    → text_length id ≤ max_content_id_chars
    → resolve_content_id disk s id ≡ (
        if commit == s.manifest.commit
        then resolve_relative_file disk s path
        else raises stale_content_id)
unfolding resolve_content_id
resolve_content_id-encode_content_id disk s commit path id h short =
    rw (decode_content_id-encode_content_id commit path id h short)
      (elim (Bool-cases (commit == s.manifest.commit)) [ inl e ↦ rw e refl | inr e ↦ rw e refl ])

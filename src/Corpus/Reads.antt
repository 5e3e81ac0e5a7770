-- ===== src/Corpus/Reads.antt =====
-- The reads of core/path_safety.py: the checks before a file is opened and after.
pub mod Bounded
pub mod Resolved
use jn_engine_contributor_mc.Base.{
  ℕ, suc, String, Bool, true, false, not, ◌&&◌, ◌||◌, Option, none, some, List, [], ◌∷◌, ◌++◌, eqb,
  ltb, ◌==◌, ◌≡◌, refl, if◌then◌else◌,
}
use jn_engine_contributor_mc.Base.Lists.{length, take}
use jn_engine_contributor_mc.Base.Paths.{parts}
use jn_engine_contributor_mc.Base.Text.{take_text, text_length}
use jn_engine_contributor_mc.Python.Utf8.{Bytes}
use jn_engine_contributor_mc.Python.Utf8.Lossy.{decode_replace}
use jn_engine_contributor_mc.Corpus.{
  Outcome, returns, raises, Failure, stale_content_id, content_not_found, content_unavailable,
  ◌>>=◌, ◌>>◌, refuse_if,
}
use jn_engine_contributor_mc.Corpus.Policy.{max_file_bytes}
use jn_engine_contributor_mc.Corpus.Scan.{SnapshotFile, looks_binary}
use jn_engine_contributor_mc.Corpus.SafePath.{validate_relative_path}
use jn_engine_contributor_mc.Corpus.ContentId.{decode_content_id}
use jn_engine_contributor_mc.Corpus.Snapshot.{Snapshot, file}

pub data FileKind : Type 0 where
  symlink_kind : FileKind
  directory_kind : FileKind
  regular_kind : FileKind
  special_kind : FileKind

-- What `lstat` and `fstat` tell.
pub record Stat : Type 0 where
  pub kind : FileKind
  pub links : ℕ
  pub size : ℕ

-- A file that is open: its `fstat` and its bytes.
pub record Opened : Type 0 where
  pub stat : Stat
  pub data_bytes : Bytes

-- What the file system answers during a request, for the names below the content root: `lstat`, whether
-- the path resolves to one inside the root, and `os.open`. It may have changed since the start, and again
-- between the first answers and the last.
pub record Disk : Type 0 where
  pub lstat : List String → Option Stat
  pub contained : List String → Bool
  pub open_file : List String → Option Opened

abbrev pub is_symlink : FileKind → Bool
is_symlink symlink_kind = true
is_symlink _ = false

abbrev pub is_directory : FileKind → Bool
is_directory directory_kind = true
is_directory _ = false

abbrev pub is_regular : FileKind → Bool
is_regular regular_kind = true
is_regular _ = false

abbrev pub max_fetch_chars : ℕ
max_fetch_chars = 200_000

abbrev pub stat_of : Option Stat → Outcome Stat
stat_of none = raises (content_not_found "content file is missing")
stat_of (some s) = returns s

abbrev pub opened : Option Opened → Outcome Opened
opened none = raises (content_unavailable "content file cannot be opened safely")
opened (some f) = returns f

abbrev pub present_file : Option SnapshotFile → Outcome SnapshotFile
present_file none = raises (content_not_found "content file is not in the active snapshot")
present_file (some item) = returns item

-- A file that is open is not the one that the inventory has.
abbrev pub is_changed : SnapshotFile → Stat → Bool
is_changed item metadata =
    not (is_regular metadata.kind)
    || (not (eqb metadata.links 1)
        || (not (eqb metadata.size item.size_bytes) || ltb max_file_bytes metadata.size))

-- `text[:max_chars]`, and whether that cuts the text.
unfoldable pub bounded : ℕ → String → String × Bool
unfolding take_text
bounded max_chars text = (take_text max_chars text, ltb max_chars (text_length text))

module _ (disk : Disk) where
  -- The checks of the last part of a path.
  unfoldable pub check_file : SnapshotFile → Stat → Outcome (Unit {0})
  check_file item metadata = do
    refuse_if (not (is_regular metadata.kind) || not (eqb metadata.links 1))
        (content_unavailable "content file is no longer a single regular file")
    refuse_if (ltb max_file_bytes metadata.size)
        (content_unavailable "content file exceeds its size bound")
    refuse_if (not (eqb metadata.size item.size_bytes))
        (content_unavailable "content file changed after startup")

  -- The loop over the parts of a path, behind those in `names`.
  unfoldable pub check_parts : SnapshotFile → List String → List String → Outcome (Unit {0})
  unfolding check_file
  check_parts item names [] = returns tt
  check_parts item names (part ∷ []) = do
    metadata ← stat_of (disk.lstat (names ++ part ∷ []))
    refuse_if (is_symlink metadata.kind) (content_unavailable "content path became a symlink")
    check_file item metadata
  check_parts item names (part ∷ next ∷ rest) = do
    metadata ← stat_of (disk.lstat (names ++ part ∷ []))
    refuse_if (is_symlink metadata.kind) (content_unavailable "content path became a symlink")
    refuse_if (not (is_directory metadata.kind))
        (content_unavailable "content path component is not a directory")
    check_parts item (names ++ part ∷ []) (next ∷ rest)

  -- `_revalidate_file`
  unfoldable pub revalidate_file : SnapshotFile → Outcome (List String)
  unfolding check_parts parts
  revalidate_file item = do
    check_parts item [] (parts item.relative_path)
    refuse_if (not (disk.contained (parts item.relative_path)))
        (content_unavailable "content path failed containment")
    returns (parts item.relative_path)

  -- `resolve_relative_file`
  unfoldable pub resolve_relative_file : Snapshot → String → Outcome SnapshotFile
  unfolding validate_relative_path file revalidate_file
  resolve_relative_file snapshot raw_path = do
    relative_path ← validate_relative_path raw_path
    item ← present_file (file snapshot relative_path)
    revalidate_file item >>= λ _. returns item

  -- `resolve_content_id`
  unfoldable pub resolve_content_id : Snapshot → String → Outcome SnapshotFile
  unfolding decode_content_id resolve_relative_file
  resolve_content_id snapshot content_id = do
    decoded ← decode_content_id content_id
    refuse_if (not (decoded.commit == snapshot.manifest.commit)) stale_content_id
    resolve_relative_file snapshot decoded.relative_path

  -- `read_text_bounded`: the text, and whether it was cut.
  unfoldable pub read_text_bounded : ℕ → SnapshotFile → Outcome (String × Bool)
  unfolding revalidate_file decode_replace bounded
  read_text_bounded max_chars item = do
    path ← revalidate_file item
    found ← opened (disk.open_file path)
    refuse_if (is_changed item found.stat) (content_unavailable "content file changed during open")
    refuse_if (ltb max_file_bytes (length (take (suc max_file_bytes) found.data_bytes)))
        (content_unavailable "content file exceeds its size bound")
    refuse_if (looks_binary (take (suc max_file_bytes) found.data_bytes))
        (content_unavailable "content file is binary")
    returns (bounded max_chars (decode_replace (take (suc max_file_bytes) found.data_bytes)))

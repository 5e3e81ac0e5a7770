-- ===== src/Corpus/Scan.antt =====
-- The walk of core/snapshot.py over the exported tree, with what the file system answers as data.
pub mod Clean
pub mod Found
use text.Mathlib.Text.{starts_with}
use jn_engine_contributor_mc.Base.{
  ℕ, String, Bool, true, false, not, ◌&&◌, ◌||◌, Option, none, some, List, [], ◌∷◌, ◌++◌, eqb, ltb,
  if◌then◌else◌, ◌==◌, ◌≡◌, refl,
}
use jn_engine_contributor_mc.Base.Lists.{any, take}
use jn_engine_contributor_mc.Base.Paths.{join}
use jn_engine_contributor_mc.Base.Sort.{sort, text_leb, second_of}
use jn_engine_contributor_mc.Python.Utf8.{Bytes}
use jn_engine_contributor_mc.Corpus.{
  Outcome, returns, raises, Failure, snapshot_error, ◌>>=◌, ◌>>◌, refuse_if,
}
use jn_engine_contributor_mc.Corpus.Policy.{
  one_of, approved_root_directories, max_file_bytes, binary_probe_bytes, is_nul,
  is_admitted_repository_path,
}

-- `st_nlink` and `st_size`, and whether `st_mode` has a write bit.
pub record Metadata : Type 0 where
  pub links : ℕ
  pub size : ℕ
  pub writable : Bool

-- `uninspected` is an entry whose `lstat` raises; a file without a body cannot be opened or read, and a
-- directory that is not `listed` cannot be enumerated.
mutual
  pub data Node : Type 0 where
    uninspected : Node
    symlink : Node
    special : Node
    regular : Metadata → Option Bytes → Node
    directory : Bool → Bool → Listing → Node

  pub data Listing : Type 0 where
    empty : Listing
    entry : String → Node → Listing → Listing

-- `SnapshotFile`; its absolute path is the content root's followed by the relative one.
pub record SnapshotFile : Type 0 where
  pub relative_path : String
  pub size_bytes : ℕ

-- A file of the walk, with what `lstat` and `read` gave.
pub record ScannedFile : Type 0 where
  pub file : SnapshotFile
  pub body : Bytes
  pub writable : Bool

abbrev refused : String → Failure
refused detail = snapshot_error detail

-- `PurePosixPath(*parts).as_posix()`, for names of directory entries.
abbrev pub path_of : List String → String
path_of names = join "/" names

-- `b"\x00" in handle.read(BINARY_PROBE_BYTES)`
abbrev pub looks_binary : Bytes → Bool
looks_binary body = any is_nul (take binary_probe_bytes body)

abbrev pub read_body : Option Bytes → Outcome Bytes
read_body none = raises (refused "snapshot file cannot be read")
read_body (some body) = returns body

abbrev pub scanned : String → Metadata → Bytes → ScannedFile
scanned path metadata body = record {
  file = record { relative_path = path; size_bytes = metadata.size };
  body = body;
  writable = metadata.writable;
}

-- The end of the loop's body, for an entry that is not a directory.
unfoldable pub admit_file : String → Metadata → Option Bytes → Outcome (List ScannedFile)
admit_file path metadata content = do
  refuse_if (not (eqb metadata.links 1)) (refused "snapshot contains a hard link")
  admitted ← is_admitted_repository_path path
  refuse_if (not admitted) (refused "snapshot contains a file outside the admitted policy")
  refuse_if (ltb max_file_bytes metadata.size) (refused "snapshot contains an oversized file")
  body ← read_body content
  refuse_if (looks_binary body) (refused "snapshot contains a binary file")
  returns (scanned path metadata body ∷ [])

abbrev pub is_root : List String → Bool
is_root [] = true
is_root (name ∷ names) = false

-- What the loop has found when it ends: it goes through the entries in the order of their names, and
-- the first of them that raises ends it.
unfoldable pub gather : List (Outcome (List ScannedFile)) → Outcome (List ScannedFile)
gather [] = returns []
gather (found ∷ rest) = found >>= λ files. gather rest >>= λ others. returns (files ++ others)

abbrev pub name_leb {ℓ} : {A : Type ℓ} → String × A → String × A → Bool
name_leb a b = text_leb a.0 b.0

-- The loop of `_scan_directory`, with whether the directory could be enumerated, and what the body does
-- at each entry.
unfoldable pub in_order :
    Bool → List (String × Outcome (List ScannedFile)) → Outcome (List ScannedFile)
unfolding gather sort
in_order false outcomes = raises (refused "snapshot directory cannot be enumerated")
in_order true outcomes = gather (second_of (sort name_leb outcomes))

-- The body of the loop at every entry, and what it does after the test of the name.
unfoldable mutual
  unfolding in_order admit_file

  pub scan_entries : List String → Listing → List (String × Outcome (List ScannedFile))
  scan_entries names empty = []
  scan_entries names (entry name node rest) =
      (
        name,
        (refuse_if (starts_with name ".") (refused "snapshot contains a hidden path")
            >> scan_node names name node),
      )
      ∷ scan_entries names rest

  pub scan_node : List String → String → Node → Outcome (List ScannedFile)
  scan_node names name uninspected = raises (refused "snapshot entry cannot be inspected")
  scan_node names name symlink = raises (refused "snapshot contains a symlink")
  scan_node names name special = raises (refused "snapshot contains a special file")
  scan_node names name (regular metadata content) =
      admit_file (path_of (names ++ name ∷ [])) metadata content
  scan_node names name (directory listed writable listing) = do
    refuse_if (is_root names && not (one_of approved_root_directories name))
        (refused "snapshot contains an unapproved root directory")
    refuse_if (path_of (names ++ name ∷ []) == "web/grn-catalog/vendor")
        (refused "snapshot contains an excluded vendored directory")
    in_order listed (scan_entries (names ++ name ∷ []) listing)

-- `_scan_directory`
unfoldable pub scan_directory : List String → Bool → Listing → Outcome (List ScannedFile)
unfolding in_order scan_entries
scan_directory names listed listing = in_order listed (scan_entries names listing)

abbrev pub plain_file : Node
plain_file = regular (record { links = 1; size = 2; writable = false }) (some (b'o' ∷ b'k' ∷ []))

abbrev sample : Listing
sample =
    entry "src" (directory true false (entry "b.c" plain_file (entry "a.c" plain_file empty))) empty

abbrev paths_of : Outcome (List ScannedFile) → List String
paths_of (raises why) = []
paths_of (returns []) = []
paths_of (returns (f ∷ rest)) = f.file.relative_path ∷ paths_of (returns rest)

sample_paths : paths_of (scan_directory [] true sample) ≡ "src/a.c" ∷ "src/b.c" ∷ []
unfolding scan_directory scan_entries in_order admit_file gather is_admitted_repository_path sort
    join
sample_paths = refl

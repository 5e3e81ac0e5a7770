-- ===== src/Corpus/Snapshot.antt =====
-- The manifest and the inventory of core/snapshot.py, and the snapshot made of the two.
pub mod Sealed
pub mod Valid
pub mod Lookup
use Prim.Native.String.{◌++◌ as ◌<>◌}
use jn_engine_contributor_mc.Base.{
  ℕ, zero, suc, ◌+◌, ◌/◌, ◌%◌, String, Bool, true, false, not, ◌&&◌, ◌||◌, Option, none, some, List,
  [], ◌∷◌, ◌++◌, eqb, ltb, if◌then◌else◌, ◌==◌, ◌≡◌, refl,
}
use jn_engine_contributor_mc.Base.Int.{ℤ, pos, negsuc, leb_ℤ, eqb_ℤ}
use jn_engine_contributor_mc.Base.Lists.{any, take, length}
use jn_engine_contributor_mc.Base.Sort.{sort, text_leb}
use jn_engine_contributor_mc.Base.Text.{in_class}
use jn_engine_contributor_mc.Base.Decimal.{decimal_text}
use jn_engine_contributor_mc.Python.Utf8.{Bytes, utf8}
use jn_engine_contributor_mc.Python.Dict.{Dict, lookup, insert}
use jn_engine_contributor_mc.Corpus.{
  Outcome, returns, raises, Failure, snapshot_error, ◌>>=◌, ◌>>◌, refuse_if,
}
use jn_engine_contributor_mc.Corpus.Policy.{
  included_roots, approved_root_files, approved_root_directories, max_manifest_bytes,
  max_snapshot_files, max_snapshot_bytes,
}
use jn_engine_contributor_mc.Corpus.Scan.{
  Metadata, Node, uninspected, symlink, special, regular, directory, Listing, empty, entry,
  SnapshotFile, ScannedFile, scan_directory,
}
use jn_engine_contributor_mc.Corpus.ContentId.{is_hex_char, is_commit_hash}

abbrev pub expected_repository : String
expected_repository = "alexscott2718-gif/jn-engine"

abbrev pub expected_ref : String
expected_ref = "refs/heads/master"

-- A `datetime`: its seconds, and its offset from UTC unless it is naive.
pub record Timestamp : Type 0 where
  pub seconds : ℤ
  pub utc_offset : Option ℤ

pub record SnapshotManifest : Type 0 where
  pub schema_version : ℤ
  pub repository : String
  pub ref : String
  pub commit : String
  pub tree : String
  pub commit_time : Timestamp
  pub created_at : Timestamp
  pub file_count : ℤ
  pub total_bytes : ℤ
  pub content_sha256 : String
  pub included_roots : List String

-- `require_utc`
abbrev pub is_utc : Timestamp → Bool
is_utc t = elim t.utc_offset [ none ↦ false | some z ↦ eqb_ℤ z (pos 0) ]

abbrev pub within : ℕ → ℤ → Bool
within most z = leb_ℤ (pos 1) z && leb_ℤ z (pos most)

abbrev pub same_texts : List String → List String → Bool
same_texts [] [] = true
same_texts [] (t ∷ ts) = false
same_texts (s ∷ ss) [] = false
same_texts (s ∷ ss) (t ∷ ts) = s == t && same_texts ss ts

-- `require_frozen_identity`
unfoldable pub has_frozen_identity : SnapshotManifest → Bool
has_frozen_identity m =
    m.repository == expected_repository
    && (m.ref == expected_ref && same_texts m.included_roots included_roots)

-- The constraints of the fields of `SnapshotManifest`, and its validators.
unfoldable pub manifest_is_valid : SnapshotManifest → Bool
unfolding is_commit_hash in_class has_frozen_identity
manifest_is_valid m =
    eqb_ℤ m.schema_version (pos 1)
    && (is_commit_hash m.commit
        && (is_commit_hash m.tree
            && (is_utc m.commit_time
                && (is_utc m.created_at
                    && (within max_snapshot_files m.file_count
                        && (within max_snapshot_bytes m.total_bytes
                            && (in_class is_hex_char 64 64 m.content_sha256
                                && has_frozen_identity m)))))))

pub record ContentInventory : Type 0 where
  pub files : List SnapshotFile
  pub file_count : ℕ
  pub total_bytes : ℕ
  pub content_sha256 : String

pub record Snapshot : Type 0 where
  pub manifest : SnapshotManifest
  pub files : List SnapshotFile
  pub files_by_path : Dict SnapshotFile

-- `Snapshot.file`
unfoldable pub file : Snapshot → String → Option SnapshotFile
unfolding lookup
file snapshot relative_path = lookup relative_path snapshot.files_by_path

-- The entry of a directory, of which there is none where `lstat` raises.
unfoldable pub member : String → Listing → Option Node
member name empty = none
member name (entry other node rest) =
    let found = member name rest in if other == name then some node else found

-- A directory: whether it can be enumerated, its own write bit, its entries.
pub record Folder : Type 0 where
  pub listed : Bool
  pub writable : Bool
  pub entries : Listing

-- `_require_real_directory`
unfoldable pub require_real_directory : String → Option Node → Outcome Folder
require_real_directory label none = raises (snapshot_error (label <> " is missing or inaccessible"))
require_real_directory label (some uninspected) =
    raises (snapshot_error (label <> " is missing or inaccessible"))
require_real_directory label (some (directory listed writable listing)) =
    returns (record { listed = listed; writable = writable; entries = listing })
require_real_directory label (some symlink) =
    raises (snapshot_error (label <> " must be a real directory"))
require_real_directory label (some special) =
    raises (snapshot_error (label <> " must be a real directory"))
require_real_directory label (some (regular metadata content)) =
    raises (snapshot_error (label <> " must be a real directory"))

-- `_require_real_regular_file`
unfoldable pub require_real_regular_file : String → Option Node → Outcome (Metadata × Option Bytes)
require_real_regular_file label none =
    raises (snapshot_error ("required snapshot file is missing: " <> label))
require_real_regular_file label (some uninspected) =
    raises (snapshot_error ("required snapshot file is missing: " <> label))
require_real_regular_file label (some (regular metadata content)) = do
  refuse_if (not (eqb metadata.links 1))
      (snapshot_error ("required snapshot file is multiply linked: " <> label))
  returns (metadata, content)
require_real_regular_file label (some symlink) =
    raises (snapshot_error ("required snapshot file is unsafe: " <> label))
require_real_regular_file label (some special) =
    raises (snapshot_error ("required snapshot file is unsafe: " <> label))
require_real_regular_file label (some (directory listed writable listing)) =
    raises (snapshot_error ("required snapshot file is unsafe: " <> label))

unfoldable pub require_files : List String → Listing → Outcome (Unit {0})
unfolding require_real_regular_file member
require_files [] content = returns tt
require_files (name ∷ names) content =
    require_real_regular_file name (member name content) >>= λ _. require_files names content

unfoldable pub require_directories : List String → Listing → Outcome (Unit {0})
unfolding require_real_directory member
require_directories [] content = returns tt
require_directories (name ∷ names) content =
    require_real_directory (name <> "/") (member name content) >>= λ _.
    require_directories names content

-- What a file adds to the digest.
unfoldable pub digest_entry : ScannedFile → Bytes
unfolding utf8 decimal_text
digest_entry f =
    utf8 f.file.relative_path
    ++ (0 ∷ (utf8 (decimal_text f.file.size_bytes) ++ (0 ∷ (f.body ++ 0 ∷ []))))

unfoldable pub digest_input : List ScannedFile → Bytes
unfolding digest_entry
digest_input [] = []
digest_input (f ∷ files) = digest_entry f ++ digest_input files

unfoldable pub total_size : List ScannedFile → ℕ
total_size [] = 0
total_size (f ∷ files) = f.file.size_bytes + total_size files

abbrev pub path_leb : ScannedFile → ScannedFile → Bool
path_leb a b = text_leb a.file.relative_path b.file.relative_path

abbrev pub inventoried : List ScannedFile → List SnapshotFile
inventoried [] = []
inventoried (f ∷ files) = f.file ∷ inventoried files

abbrev pub has_none {ℓ} : {A : Type ℓ} → List A → Bool
has_none [] = true
has_none (a ∷ rest) = false

-- The directories below a directory, by their write bits.
unfoldable mutual
  pub writable_directories : Listing → Bool
  writable_directories empty = false
  writable_directories (entry name node rest) = writable_directory node || writable_directories rest

  pub writable_directory : Node → Bool
  writable_directory (directory listed writable listing) = writable || writable_directories listing
  writable_directory uninspected = false
  writable_directory symlink = false
  writable_directory special = false
  writable_directory (regular metadata content) = false

-- What the program computes by libraries: the manifest in a text of JSON, by `json` and pydantic's types,
-- and the hexadecimal SHA-256.
pub record Readers : Type 0 where
  pub parse_manifest : Bytes → Option SnapshotManifest
  pub sha256 : Bytes → String

-- The manifest, with what `lstat` gives for it and for the snapshot's root.
pub record Loaded : Type 0 where
  pub manifest : SnapshotManifest
  pub manifest_writable : Bool
  pub root : Folder

-- The content root and its files.
pub record Content : Type 0 where
  pub files : List ScannedFile
  pub root : Folder

-- `_require_nonwritable`: a path of the snapshot has a write bit.
unfoldable pub is_writable : Loaded → Content → Bool
unfolding writable_directories
is_writable loaded content =
    loaded.root.writable
    || (loaded.manifest_writable
        || (content.root.writable
            || (any (λ f. f.writable) content.files || writable_directories content.root.entries)))

abbrev pub invalid_manifest : Failure
invalid_manifest = snapshot_error "snapshot manifest is invalid"

module _ (readers : Readers) where
  abbrev pub accept_manifest : Option SnapshotManifest → Outcome SnapshotManifest
  accept_manifest none = raises invalid_manifest
  accept_manifest (some m) = if manifest_is_valid m then returns m else raises invalid_manifest

  abbrev pub read_manifest : Option Bytes → Outcome SnapshotManifest
  read_manifest none = raises invalid_manifest
  read_manifest (some body) =
      accept_manifest (readers.parse_manifest (take (suc max_manifest_bytes) body))

  -- `load_snapshot_manifest`
  unfoldable pub load_snapshot_manifest : Option Node → Outcome Loaded
  unfolding require_real_directory require_real_regular_file member manifest_is_valid
  load_snapshot_manifest snapshot_path = do
    root ← require_real_directory "snapshot root" snapshot_path
    found ← require_real_regular_file "manifest.json" (member "manifest.json" root.entries)
    refuse_if (ltb max_manifest_bytes found.0.size)
        (snapshot_error "snapshot manifest exceeds its size bound")
    manifest ← read_manifest found.1
    returns (record { manifest = manifest; manifest_writable = found.0.writable; root = root })

  -- The files of the corpus in the order of their paths, and the content root.
  unfoldable pub content_files : Option Node → Outcome Content
  unfolding require_real_directory require_files require_directories scan_directory sort
  content_files content_root = do
    root ← require_real_directory "snapshot content" content_root
    require_files approved_root_files root.entries
    require_directories approved_root_directories root.entries
    files ← scan_directory [] root.listed root.entries
    returns (record { files = sort path_leb files; root = root })

  -- The rest of `compute_content_inventory`, from the sorted files.
  unfoldable pub inventory_of : List ScannedFile → Outcome ContentInventory
  unfolding total_size digest_input
  inventory_of files = do
    refuse_if (has_none files) (snapshot_error "snapshot contains no admitted files")
    refuse_if (ltb max_snapshot_files (length files))
        (snapshot_error "snapshot exceeds the file-count bound")
    refuse_if (ltb max_snapshot_bytes (total_size files))
        (snapshot_error "snapshot exceeds the total-byte bound")
    returns (record {
      files = inventoried files;
      file_count = length files;
      total_bytes = total_size files;
      content_sha256 = readers.sha256 (digest_input files);
    })

  -- `{item.relative_path: item for item in files}`, from what is there.
  unfoldable pub index_files : Dict SnapshotFile → List SnapshotFile → Dict SnapshotFile
  unfolding insert
  index_files found [] = found
  index_files found (item ∷ items) = index_files (insert item.relative_path item found) items

  -- `validate_snapshot`, with `require_read_only`.
  unfoldable pub validate_snapshot : Bool → Option Node → Outcome Snapshot
  unfolding load_snapshot_manifest content_files inventory_of member index_files is_writable
  validate_snapshot require_read_only snapshot_path = do
    loaded ← load_snapshot_manifest snapshot_path
    content ← content_files (member "content" loaded.root.entries)
    inventory ← inventory_of content.files
    refuse_if (not (eqb_ℤ loaded.manifest.file_count (pos inventory.file_count)))
        (snapshot_error "snapshot file_count does not match the corpus")
    refuse_if (not (eqb_ℤ loaded.manifest.total_bytes (pos inventory.total_bytes)))
        (snapshot_error "snapshot total_bytes does not match the corpus")
    refuse_if (not (loaded.manifest.content_sha256 == inventory.content_sha256))
        (snapshot_error "snapshot content_sha256 does not match the corpus")
    refuse_if (require_read_only && is_writable loaded content)
        (snapshot_error "snapshot is writable")
    returns (record {
      manifest = loaded.manifest;
      files = inventory.files;
      files_by_path = index_files [] inventory.files;
    })

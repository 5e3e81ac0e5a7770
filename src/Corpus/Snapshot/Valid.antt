-- ===== src/Corpus/Snapshot/Valid.antt =====
-- What a validated snapshot satisfies.
use text.Mathlib.TextEquality.{eq_iff}
use mathlib.Core.List.{Perm}
use mathlib.Core.List.Perm
use jn_engine_contributor_mc.Base.{
  ℕ, suc, String, eqb, eqb→eq, ◌≤◌, Bool, true, false, not, ◌&&◌, Option, none, some, List, [], ◌∷◌,
  ltb, ◌==◌, ◌≡◌, refl, sym, subst, ap, ◌∙◌, arith, not-false, ltb_false→le, Bool-cases, inl, inr,
  if◌then◌else◌,
}
use jn_engine_contributor_mc.Base.Int.{ℤ, pos, negsuc, eqb_ℤ}
use jn_engine_contributor_mc.Base.Lists.{All, length, take}
use jn_engine_contributor_mc.Base.Sort.{sort}
use jn_engine_contributor_mc.Base.Sort.Kept.{All-sort, sort-Perm}
use jn_engine_contributor_mc.Base.Sort.Ordered.{IsOrdered, sort-IsOrdered, text_leb_total}
use jn_engine_contributor_mc.Python.Utf8.{Bytes}
use jn_engine_contributor_mc.Corpus.{
  returns, raises, after-returns, check-returns, returned, returns_inj,
}
use jn_engine_contributor_mc.Corpus.Policy.{
  approved_root_files, approved_root_directories, max_snapshot_files, max_snapshot_bytes,
  max_manifest_bytes,
}
use jn_engine_contributor_mc.Corpus.Scan.{
  Metadata, Node, uninspected, symlink, special, regular, directory, Listing, ScannedFile,
  scan_directory, in_order,
}
use jn_engine_contributor_mc.Corpus.Scan.Clean.{IsCorpusFile, IsCleanListing, files_below}
use jn_engine_contributor_mc.Corpus.Scan.Found.{
  scan_directory-returns_iff, scan_directory-IsCorpusFile,
}
use jn_engine_contributor_mc.Corpus.Snapshot.Sealed.{IsSealed, is_writable-IsSealed}
use jn_engine_contributor_mc.Corpus.Snapshot.{
  Folder, SnapshotManifest, manifest_is_valid, ContentInventory, Snapshot, Loaded, Content, Readers,
  member, require_files, require_directories, require_real_directory, total_size, digest_input,
  path_leb, inventoried, accept_manifest, read_manifest, invalid_manifest,
  require_real_regular_file, has_none, is_writable, load_snapshot_manifest, content_files,
  inventory_of, index_files, validate_snapshot,
}

eqb_ℤ→eq : (z : ℤ) (n : ℕ) → eqb_ℤ z (pos n) ≡ true → z ≡ pos n
eqb_ℤ→eq (pos m) n h = ground arith
eqb_ℤ→eq (negsuc m) n h = ground arith

has_none-length {ℓ} : {A : Type ℓ} (xs : List A) → has_none xs ≡ false → 1 ≤ length xs
has_none-length [] h = cc
has_none-length (x ∷ xs) h = omega arith

-- The inventory of some files.
pub record IsInventory (readers : Readers) (files : List ScannedFile) (i : ContentInventory)
    : Type 0 where
  some_files : 1 ≤ length files
  few_files : length files ≤ max_snapshot_files
  few_bytes : total_size files ≤ max_snapshot_bytes
  files_are : i.files ≡ inventoried files
  count_is : i.file_count ≡ length files
  bytes_are : i.total_bytes ≡ total_size files
  digest_is : i.content_sha256 ≡ readers.sha256 (digest_input files)

inventory_of-is :
    (readers : Readers) (files : List ScannedFile) (i : ContentInventory)
    → inventory_of readers files ≡ returns i
    → IsInventory readers files i
unfolding inventory_of
inventory_of-is readers files i h =
    let (h1, k1) = check-returns _ _ _ h in
    let (h2, k2) = check-returns _ _ _ k1 in
    let (h3, k3) = check-returns _ _ _ k2 in
    let e = returns_inj _ i k3 in
    record {
      some_files = has_none-length files h1;
      few_files = ltb_false→le max_snapshot_files (length files) h2;
      few_bytes = ltb_false→le max_snapshot_bytes (total_size files) h3;
      files_are = sym (ap (λ (x : ContentInventory). x.files) e);
      count_is = sym (ap (λ (x : ContentInventory). x.file_count) e);
      bytes_are = sym (ap (λ (x : ContentInventory). x.total_bytes) e);
      digest_is = sym (ap (λ (x : ContentInventory). x.content_sha256) e);
    }

-- The content root is a real directory with a clean tree; the files are those of the tree, in the order of the
-- paths.
pub record IsContent (node : Option Node) (c : Content) : Type 0 where
  pub node_is : node ≡ some (directory true c.root.writable c.root.entries)
  pub clean : IsCleanListing [] c.root.entries
  pub complete : Perm c.files (files_below [] c.root.entries)
  pub corpus : All IsCorpusFile c.files
  pub ordered : IsOrdered path_leb c.files

-- The root is a real directory, and its `manifest.json` a single regular file of at most 65,536 bytes whose
-- JSON is the manifest.
pub record IsLoaded (readers : Readers) (node : Option Node) (loaded : Loaded) : Type 0 where
  pub metadata : Metadata
  pub body : Bytes
  pub node_is : node ≡ some (directory loaded.root.listed loaded.root.writable loaded.root.entries)
  pub file_is : member "manifest.json" loaded.root.entries ≡ some (regular metadata (some body))
  pub single : metadata.links ≡ 1
  pub small : metadata.size ≤ max_manifest_bytes
  pub parsed : readers.parse_manifest (take (suc max_manifest_bytes) body) ≡ some loaded.manifest
  pub valid : manifest_is_valid loaded.manifest ≡ true
  pub writable_is : loaded.manifest_writable ≡ metadata.writable

require_real_directory-is :
    (label : String) (node : Option Node) (root : Folder)
    → require_real_directory label node ≡ returns root
    → node ≡ some (directory root.listed root.writable root.entries)
unfolding require_real_directory
require_real_directory-is label none root h = cc
require_real_directory-is label (some uninspected) root h = cc
require_real_directory-is label (some symlink) root h = cc
require_real_directory-is label (some special) root h = cc
require_real_directory-is label (some (regular metadata content)) root h = cc
require_real_directory-is label (some (directory listed writable entries)) root h =
    returned
      (λ (r : Folder).
        some (directory listed writable entries) ≡ some (directory r.listed r.writable r.entries))
      _ root h refl

require_real_regular_file-is :
    (label : String) (node : Option Node) (found : Metadata × Option Bytes)
    → require_real_regular_file label node ≡ returns found
    → (node ≡ some (regular found.0 found.1)) × (found.0.links ≡ 1)
unfolding require_real_regular_file
require_real_regular_file-is label none found h = cc
require_real_regular_file-is label (some uninspected) found h = cc
require_real_regular_file-is label (some symlink) found h = cc
require_real_regular_file-is label (some special) found h = cc
require_real_regular_file-is label (some (directory listed writable entries)) found h = cc
require_real_regular_file-is label (some (regular metadata content)) found h =
    let (single, k) = check-returns (not (eqb metadata.links 1)) _ _ h in
    returned
      (λ (f : Metadata × Option Bytes).
        (some (regular metadata content) ≡ some (regular f.0 f.1)) × (f.0.links ≡ 1))
      _ found k (refl, eqb→eq metadata.links 1 (not-false _ single))

path_leb_total : (a b : ScannedFile) → path_leb a b ≡ false → path_leb b a ≡ true
path_leb_total a b h = text_leb_total a.file.relative_path b.file.relative_path h

listed_first :
    (listed : Bool) (listing : Listing) (files : List ScannedFile)
    → scan_directory [] listed listing ≡ returns files
    → listed ≡ true
unfolding scan_directory in_order
listed_first false listing files h = cc
listed_first true listing files h = refl

content_files-is :
    (readers : Readers) (node : Option Node) (c : Content)
    → content_files readers node ≡ returns c
    → IsContent node c
unfolding content_files
content_files-is readers node c h =
    let (root, h1, k1) = after-returns (require_real_directory "snapshot content" node) _ h in
    let (done1, h2, k2) = after-returns (require_files approved_root_files root.entries) _ k1 in
    let (done2, h3, k3) =
      after-returns (require_directories approved_root_directories root.entries) _ k2 in
    let (files, h4, k4) = after-returns (scan_directory [] root.listed root.entries) _ k3 in
    let listed = listed_first root.listed root.entries files h4 in
    let scanned = subst (λ b. scan_directory [] b root.entries ≡ returns files) listed h4 in
    let (corpus, below) = scan_directory-IsCorpusFile [] root.entries files scanned in
    let is = require_real_directory-is "snapshot content" node root h1 in
    returned (IsContent node) (record { files = sort path_leb files; root = root }) c k4
      (record {
        node_is = is ∙ ap (λ (b : Bool). some (directory b root.writable root.entries)) listed;
        clean = (scan_directory-returns_iff [] root.entries).0 (files, scanned);
        complete = Perm.trans (sort-Perm path_leb files) below;
        corpus = All-sort path_leb IsCorpusFile files corpus;
        ordered = sort-IsOrdered path_leb path_leb_total files;
      })

accepts :
    (n : SnapshotManifest)
    → manifest_is_valid n ≡ true
    → returns n ≡ (if manifest_is_valid n then returns n else raises invalid_manifest)
accepts n e = rw e refl

refuses :
    (n : SnapshotManifest)
    → manifest_is_valid n ≡ false
    → (m : SnapshotManifest)
    → (if manifest_is_valid n then returns n else raises invalid_manifest) ≡ returns m
    → ⊥
refuses n e = rw e (λ m h. cc)

accepted_manifest :
    (readers : Readers) (o : Option SnapshotManifest) (m : SnapshotManifest)
    → accept_manifest readers o ≡ returns m
    → (o ≡ some m) × (manifest_is_valid m ≡ true)
accepted_manifest readers none m h = cc
accepted_manifest readers (some n) m h = elim (Bool-cases (manifest_is_valid n)) [
  | inl e ↦
      returned (λ x. (some n ≡ some x) × (manifest_is_valid x ≡ true)) n m (accepts n e ∙ h)
        (refl, e)
  | inr e ↦ absurd (refuses n e m h)
]

read_manifest-is :
    (readers : Readers) (content : Option Bytes) (m : SnapshotManifest)
    → read_manifest readers content ≡ returns m
    → (body : Bytes) × (content ≡ some body)
      × (readers.parse_manifest (take (suc max_manifest_bytes) body) ≡ some m)
      × (manifest_is_valid m ≡ true)
read_manifest-is readers none m h = cc
read_manifest-is readers (some body) m h =
    let (parsed, valid) = accepted_manifest readers _ m h in (body, refl, parsed, valid)

load_snapshot_manifest-is :
    (readers : Readers) (node : Option Node) (loaded : Loaded)
    → load_snapshot_manifest readers node ≡ returns loaded
    → IsLoaded readers node loaded
unfolding load_snapshot_manifest
load_snapshot_manifest-is readers node loaded h =
    let (root, h1, k1) = after-returns (require_real_directory "snapshot root" node) _ h in
    let (found, h2, k2) =
      after-returns
        (require_real_regular_file "manifest.json" (member "manifest.json" root.entries)) _ k1 in
    let (h3, k3) = check-returns (ltb max_manifest_bytes found.0.size) _ _ k2 in
    let (m, h4, k4) = after-returns (read_manifest readers found.1) _ k3 in
    let (is_file, single) =
      require_real_regular_file-is "manifest.json" (member "manifest.json" root.entries) found h2 in
    let (body, content_is, parsed, valid) = read_manifest-is readers found.1 m h4 in
    returned (IsLoaded readers node)
      (record { manifest = m; manifest_writable = found.0.writable; root = root }) loaded k4
      (record {
        metadata = found.0;
        body = body;
        node_is = require_real_directory-is "snapshot root" node root h1;
        file_is = is_file ∙ ap (λ (o : Option Bytes). some (regular found.0 o)) content_is;
        single = single;
        small = ltb_false→le max_manifest_bytes found.0.size h3;
        parsed = parsed;
        valid = valid;
        writable_is = refl;
      })

-- A snapshot that agrees with the manifest and with the tree at the path that it was read from.
pub record IsValidated (readers : Readers) (read_only : Bool) (path : Option Node) (s : Snapshot)
    : Type 0 where
  pub loaded : Loaded
  pub content : Content
  pub loaded_is : IsLoaded readers path loaded
  pub manifest_is : s.manifest ≡ loaded.manifest
  pub manifest_valid : manifest_is_valid s.manifest ≡ true
  pub content_is : IsContent (member "content" loaded.root.entries) content
  pub files_are : s.files ≡ inventoried content.files
  pub count_is : s.manifest.file_count ≡ pos (length content.files)
  pub bytes_are : s.manifest.total_bytes ≡ pos (total_size content.files)
  pub digest_is : s.manifest.content_sha256 ≡ readers.sha256 (digest_input content.files)
  pub some_files : 1 ≤ length content.files
  pub few_files : length content.files ≤ max_snapshot_files
  pub few_bytes : total_size content.files ≤ max_snapshot_bytes
  pub sealed : IsSealed read_only loaded content
  pub index_is : s.files_by_path ≡ index_files readers [] s.files

-- A snapshot that `validate_snapshot` returns is read from the path that it is given: the manifest is what the
-- JSON of the root's `manifest.json` says, and valid; the whole tree of the root's `content` is clean, and the
-- snapshot holds the files of that tree, each once, in the order of the paths; the manifest's file count, byte
-- count and digest are those of the files; there are 1 to 20,000 of them with at most 128,000,000 bytes; and
-- with `require_read_only` neither the root, the manifest, a file nor a directory has a write bit.
pub validate_snapshot-IsValidated :
    (readers : Readers) (read_only : Bool) (path : Option Node) (s : Snapshot)
    → validate_snapshot readers read_only path ≡ returns s
    → IsValidated readers read_only path s
unfolding validate_snapshot
validate_snapshot-IsValidated readers read_only path s h =
    let (loaded, h1, k1) = after-returns (load_snapshot_manifest readers path) _ h in
    let (content, h2, k2) =
      after-returns (content_files readers (member "content" loaded.root.entries)) _ k1 in
    let (i, h3, k3) = after-returns (inventory_of readers content.files) _ k2 in
    let (h4, k4) =
      check-returns (not (eqb_ℤ loaded.manifest.file_count (pos i.file_count))) _ _ k3 in
    let (h5, k5) =
      check-returns (not (eqb_ℤ loaded.manifest.total_bytes (pos i.total_bytes))) _ _ k4 in
    let (h6, k6) =
      check-returns (not (loaded.manifest.content_sha256 == i.content_sha256)) _ _ k5 in
    let (h7, k7) = check-returns (read_only && is_writable loaded content) _ _ k6 in
    let inv = inventory_of-is readers content.files i h3 in
    let is_loaded = load_snapshot_manifest-is readers path loaded h1 in
    returned (IsValidated readers read_only path) _ s k7 (record {
      loaded = loaded;
      content = content;
      manifest_is = refl;
      loaded_is = is_loaded;
      manifest_valid = is_loaded.valid;
      content_is = content_files-is readers (member "content" loaded.root.entries) content h2;
      files_are = inv.files_are;
      count_is = eqb_ℤ→eq _ _ (not-false _ h4) ∙ ap pos inv.count_is;
      bytes_are = eqb_ℤ→eq _ _ (not-false _ h5) ∙ ap pos inv.bytes_are;
      digest_is = (eq_iff _ _).0 (not-false _ h6) ∙ inv.digest_is;
      some_files = inv.some_files;
      few_files = inv.few_files;
      few_bytes = inv.few_bytes;
      sealed = is_writable-IsSealed read_only loaded content h7;
      index_is = refl;
    })

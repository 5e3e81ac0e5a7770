-- ===== src/Corpus/Scan/Clean.antt =====
-- The trees that the walk should accept, and the files of the corpus, described without the walk.
use text.Mathlib.Text.{starts_with}
use jn_engine_contributor_mc.Base.{
  ◌≤◌, String, true, false, not, ◌&&◌, Option, none, some, List, [], ◌∷◌, ◌++◌, ◌==◌, ◌≡◌,
}
use jn_engine_contributor_mc.Python.Utf8.{Bytes}
use jn_engine_contributor_mc.Corpus.{returns}
use jn_engine_contributor_mc.Corpus.Policy.{
  one_of, approved_root_directories, max_file_bytes, is_admitted_repository_path,
}
use jn_engine_contributor_mc.Corpus.Scan.{
  Metadata, Node, uninspected, symlink, special, regular, directory, Listing, empty, entry,
  ScannedFile, path_of, looks_binary, is_root,
}

-- What a file of the corpus is like.
pub record IsCorpusFile (f : ScannedFile) : Type 0 where
  pub admitted : is_admitted_repository_path f.file.relative_path ≡ returns true
  pub small : f.file.size_bytes ≤ max_file_bytes
  pub text : looks_binary f.body ≡ false

abbrev pub IsReadableText : Option Bytes → Type 0
IsReadableText none = ⊥
IsReadableText (some body) = looks_binary body ≡ false

-- A file with its content, none where it cannot be read.
abbrev pub file_with : String → Metadata → Option Bytes → List ScannedFile
file_with path metadata none = []
file_with path metadata (some body) =
    record {
      file = record { relative_path = path; size_bytes = metadata.size };
      body = body;
      writable = metadata.writable;
    }
    ∷ []

-- A tree without hidden names, links, special, oversized or binary files, whose directories can be listed,
-- and whose paths the policy admits.
unfoldable mutual
  pub IsCleanListing : List String → Listing → Type 0
  IsCleanListing names empty = Unit
  IsCleanListing names (entry name node rest) =
      (starts_with name "." ≡ false) × IsCleanNode names name node × IsCleanListing names rest

  pub IsCleanNode : List String → String → Node → Type 0
  IsCleanNode names name uninspected = ⊥
  IsCleanNode names name symlink = ⊥
  IsCleanNode names name special = ⊥
  IsCleanNode names name (regular metadata content) =
      (metadata.links ≡ 1)
      × (is_admitted_repository_path (path_of (names ++ name ∷ [])) ≡ returns true)
      × (metadata.size ≤ max_file_bytes)
      × IsReadableText content
  IsCleanNode names name (directory listed writable listing) =
      ((is_root names && not (one_of approved_root_directories name)) ≡ false)
      × (((path_of (names ++ name ∷ []) == "web/grn-catalog/vendor") ≡ false)
          × ((listed ≡ true) × IsCleanListing (names ++ name ∷ []) listing))

-- The files of a tree by their paths, with their sizes, bytes and write bits. A file that cannot be read is
-- left out.
unfoldable mutual
  pub files_below : List String → Listing → List ScannedFile
  files_below names empty = []
  files_below names (entry name node rest) = files_at names name node ++ files_below names rest

  pub files_at : List String → String → Node → List ScannedFile
  files_at names name uninspected = []
  files_at names name symlink = []
  files_at names name special = []
  files_at names name (regular metadata content) =
      file_with (path_of (names ++ name ∷ [])) metadata content
  files_at names name (directory listed writable listing) = files_below (names ++ name ∷ []) listing

-- No directory below a directory has a write bit.
unfoldable mutual
  pub IsSealedListing : Listing → Type 0
  IsSealedListing empty = Unit
  IsSealedListing (entry name node rest) = IsSealedNode node × IsSealedListing rest

  pub IsSealedNode : Node → Type 0
  IsSealedNode uninspected = Unit
  IsSealedNode symlink = Unit
  IsSealedNode special = Unit
  IsSealedNode (regular metadata content) = Unit
  IsSealedNode (directory listed writable listing) = (writable ≡ false) × IsSealedListing listing

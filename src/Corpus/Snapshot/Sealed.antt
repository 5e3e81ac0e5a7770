-- ===== src/Corpus/Snapshot/Sealed.antt =====
-- What the check for write bits of core/snapshot.py leaves.
use jn_engine_contributor_mc.Base.{Bool, true, false, ◌&&◌, List, [], ◌∷◌, ◌≡◌, or_false}
use jn_engine_contributor_mc.Base.Lists.{All, any}
use jn_engine_contributor_mc.Corpus.Scan.{
  Node, uninspected, symlink, special, regular, directory, Listing, empty, entry, ScannedFile,
}
use jn_engine_contributor_mc.Corpus.Scan.Clean.{IsSealedListing, IsSealedNode}
use jn_engine_contributor_mc.Corpus.Snapshot.{
  Loaded, Content, is_writable, writable_directories, writable_directory,
}

-- Nothing of a snapshot that must be read-only has a write bit: neither the root, nor the manifest, nor the
-- content root, nor a file, nor a directory.
abbrev pub IsSealed : Bool → Loaded → Content → Type 0
IsSealed false loaded content = Unit
IsSealed true loaded content =
    (loaded.root.writable ≡ false)
    × (loaded.manifest_writable ≡ false)
    × (content.root.writable ≡ false)
    × All (λ (f : ScannedFile). f.writable ≡ false) content.files
    × IsSealedListing content.root.entries

mutual
  unfolding writable_directories IsSealedListing

  listing-IsSealed : (l : Listing) → writable_directories l ≡ false → IsSealedListing l
  listing-IsSealed empty h = tt
  listing-IsSealed (entry name node rest) h =
      let (p, q) = or_false (writable_directory node) (writable_directories rest) h in
      (node-IsSealed node p, listing-IsSealed rest q)

  node-IsSealed : (n : Node) → writable_directory n ≡ false → IsSealedNode n
  node-IsSealed uninspected h = tt
  node-IsSealed symlink h = tt
  node-IsSealed special h = tt
  node-IsSealed (regular metadata content) h = tt
  node-IsSealed (directory listed writable listing) h =
      let (p, q) = or_false writable (writable_directories listing) h in
      (p, listing-IsSealed listing q)

files-IsSealed :
    (files : List ScannedFile)
    → any (λ (f : ScannedFile). f.writable) files ≡ false
    → All (λ (f : ScannedFile). f.writable ≡ false) files
files-IsSealed [] h = tt
files-IsSealed (f ∷ files) h =
    let (p, q) = or_false f.writable (any (λ (g : ScannedFile). g.writable) files) h in
    (p, files-IsSealed files q)

pub is_writable-IsSealed :
    (read_only : Bool) (loaded : Loaded) (content : Content)
    → (read_only && is_writable loaded content) ≡ false
    → IsSealed read_only loaded content
unfolding is_writable
is_writable-IsSealed false loaded content h = tt
is_writable-IsSealed true loaded content h =
    let (root, h₁) = or_false loaded.root.writable _ h in
    let (manifest, h₂) = or_false loaded.manifest_writable _ h₁ in
    let (top, h₃) = or_false content.root.writable _ h₂ in
    let (files, below) =
      or_false (any (λ (f : ScannedFile). f.writable) content.files)
        (writable_directories content.root.entries) h₃ in
    (
      root,
      manifest,
      top,
      files-IsSealed content.files files,
      listing-IsSealed content.root.entries below,
    )

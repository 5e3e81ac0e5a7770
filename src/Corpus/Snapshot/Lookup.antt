-- ===== src/Corpus/Snapshot/Lookup.antt =====
-- Looking a file up in a snapshot.
use jn_engine_contributor_mc.Base.{
  ◌≤◌, String, Bool, true, Option, some, List, [], ◌∷◌, ◌≡◌, sym, subst, ap, ◌∙◌, inl, inr,
}
use jn_engine_contributor_mc.Base.Lists.{All}
use jn_engine_contributor_mc.Python.Dict.{Dict, lookup, insert, found-insert}
use jn_engine_contributor_mc.Corpus.{returns}
use jn_engine_contributor_mc.Corpus.Policy.{is_admitted_repository_path, max_file_bytes}
use jn_engine_contributor_mc.Corpus.Scan.{Node, SnapshotFile, ScannedFile}
use jn_engine_contributor_mc.Corpus.Scan.Clean.{IsCorpusFile}
use jn_engine_contributor_mc.Corpus.Snapshot.{
  Snapshot, Readers, inventoried, index_files, file, validate_snapshot,
}
use jn_engine_contributor_mc.Corpus.Snapshot.Valid.{validate_snapshot-IsValidated}

-- A file of the corpus, as the inventory has it.
pub record IsAdmittedFile (f : SnapshotFile) : Type 0 where
  pub admitted : is_admitted_repository_path f.relative_path ≡ returns true
  pub small : f.size_bytes ≤ max_file_bytes

module _ (readers : Readers) (P : SnapshotFile → Type 0) where
  -- What is found by a path is an item with that path, of those that were there or are added.
  index_files-found :
      (items : List SnapshotFile) (found : Dict SnapshotFile) (path : String) (f : SnapshotFile)
      → All P items
      → ((g : SnapshotFile) → lookup path found ≡ some g → P g × (g.relative_path ≡ path))
      → lookup path (index_files readers found items) ≡ some f
      → P f × (f.relative_path ≡ path)
  unfolding index_files
  index_files-found [] found path f h k e = k f e
  index_files-found (item ∷ items) found path f h k e =
      index_files-found items (insert item.relative_path item found) path f h.1 after_insert e
    where
      after_insert :
          (g : SnapshotFile)
          → lookup path (insert item.relative_path item found) ≡ some g
          → P g × (g.relative_path ≡ path)
      after_insert g d = elim (found-insert item.relative_path path item g found d) [
        | inl (path_is, same) ↦
            subst (λ (x : SnapshotFile). P x × (x.relative_path ≡ path)) same (h.0, path_is)
        | inr before ↦ k g before
      ]

inventoried-IsAdmittedFile :
    (files : List ScannedFile) → All IsCorpusFile files → All IsAdmittedFile (inventoried files)
inventoried-IsAdmittedFile [] h = tt
inventoried-IsAdmittedFile (f ∷ files) h =
    (record { admitted = h.0.admitted; small = h.0.small }, inventoried-IsAdmittedFile files h.1)

-- A file that a validated snapshot gives for a path has that path, the policy admits it, and it has at
-- most 1,000,000 bytes.
pub file-IsAdmittedFile :
    (readers : Readers) (read_only : Bool) (root : Option Node) (s : Snapshot) (path : String)
    (f : SnapshotFile)
    → validate_snapshot readers read_only root ≡ returns s
    → file s path ≡ some f
    → IsAdmittedFile f × (f.relative_path ≡ path)
unfolding file lookup
file-IsAdmittedFile readers read_only root s path f h e =
    let v = validate_snapshot-IsValidated readers read_only root s h in
    let all_admitted = inventoried-IsAdmittedFile v.content.files v.content_is.corpus in
    index_files-found readers IsAdmittedFile s.files [] path f
      (subst (All IsAdmittedFile) (sym v.files_are) all_admitted) (λ g d. cc)
      (sym (ap (lookup path) v.index_is) ∙ e)

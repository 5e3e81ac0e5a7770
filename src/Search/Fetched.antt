-- ===== src/Search/Fetched.antt =====
-- What `fetch` returns.
use text.Mathlib.TextEquality.{eq_iff}
use jn_engine_contributor_mc.Base.{
  String, none, List, [], ◌∷◌, ◌==◌, ◌≡◌, refl, ap, Bool-cases, inl, inr,
}
use jn_engine_contributor_mc.Base.Text.{text_length}
use jn_engine_contributor_mc.Corpus.{returns, after-returns, returned, Outcome-cases}
use jn_engine_contributor_mc.Corpus.Scan.{SnapshotFile}
use jn_engine_contributor_mc.Corpus.Snapshot.{Snapshot}
use jn_engine_contributor_mc.Corpus.Reads.{
  Disk, max_fetch_chars, read_text_bounded, resolve_content_id,
}
use jn_engine_contributor_mc.Corpus.Reads.Bounded.{IsRead, read_text_bounded-IsRead}
use jn_engine_contributor_mc.Corpus.Reads.Resolved.{IsResolved, resolve_content_id-IsResolved}
use jn_engine_contributor_mc.Corpus.Cite.{citation_url}
use jn_engine_contributor_mc.Search.{FetchRecord, ClassifiedFile, classify_file}
use jn_engine_contributor_mc.Search.Service.{classified_at, fetch}

-- The kind of a file depends on its path alone.
kind-path :
    (a b : SnapshotFile)
    → a.relative_path ≡ b.relative_path
    → (classify_file a).kind ≡ (classify_file b).kind
unfolding classify_file
kind-path a b h = ap (λ p. (classify_file (record { relative_path = p; size_bytes = 0 })).kind) h

classified_at-kind :
    (items : List SnapshotFile) (item : SnapshotFile) (entry : ClassifiedFile)
    → classified_at items item.relative_path ≡ returns entry
    → entry.kind ≡ (classify_file item).kind
unfolding classified_at
classified_at-kind [] item entry = λ h. cc
classified_at-kind (other ∷ items) item entry =
    elim (Outcome-cases (classified_at items item.relative_path)) [
      | inl (found, e) ↦
          rw (classified_at, e)
            (λ h.
              returned (λ (x : ClassifiedFile). x.kind ≡ (classify_file item).kind) found entry h
                (classified_at-kind items item found e))
      | inr (why, e) ↦ elim (Bool-cases (other.relative_path == item.relative_path)) [
        | inl d ↦
            rw (classified_at, e, d)
              (λ h.
                returned (λ (x : ClassifiedFile). x.kind ≡ (classify_file item).kind)
                  (classify_file other) entry h
                  (kind-path other item ((eq_iff other.relative_path item.relative_path).0 d)))
        | inr d ↦ rw (classified_at, e, d) (λ h. cc)
      ]
    ]

-- A record that was fetched: the item that its id resolves to, read up to 200,000 characters.
pub record IsFetched (disk : Disk) (snapshot : Snapshot) (id : String) (r : FetchRecord)
    : Type 0 where
  pub item : SnapshotFile
  pub resolved : IsResolved disk snapshot id item
  pub read : IsRead disk max_fetch_chars item r.text r.truncated
  pub id_is : r.id ≡ id
  pub path_is : r.path ≡ item.relative_path
  pub kind_is : r.kind ≡ (classify_file item).kind
  pub commit_is : r.commit ≡ snapshot.manifest.commit
  pub length_is : r.text_chars ≡ text_length r.text

-- What `fetch` returns for an id is read from the file that the id resolves to: its text is that of the file,
-- cut at 200,000 characters with the flag set, its kind is that of the file's path, and its commit is the
-- snapshot's.
pub fetch-IsFetched :
    (disk : Disk) (snapshot : Snapshot) (id : String) (r : FetchRecord)
    → fetch disk snapshot id ≡ returns r
    → IsFetched disk snapshot id r
unfolding fetch
fetch-IsFetched disk snapshot id r h =
    let (item, h1, k1) = after-returns (resolve_content_id disk snapshot id) _ h in
    let (entry, h2, k2) = after-returns (classified_at snapshot.files item.relative_path) _ k1 in
    let (read, h3, k3) = after-returns (read_text_bounded disk max_fetch_chars item) _ k2 in
    let (url, h4, k4) =
      after-returns (citation_url snapshot.manifest.commit item.relative_path none) _ k3 in
    returned (IsFetched disk snapshot id) _ r k4 (record {
      item = item;
      resolved = resolve_content_id-IsResolved disk snapshot id item h1;
      read = read_text_bounded-IsRead disk max_fetch_chars item read.0 read.1 h3;
      id_is = refl;
      path_is = refl;
      kind_is = classified_at-kind snapshot.files item entry h2;
      commit_is = refl;
      length_is = refl;
    })

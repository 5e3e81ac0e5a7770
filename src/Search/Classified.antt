-- ===== src/Search/Classified.antt =====
-- The scopes of a file and its kind.
use text.Mathlib.Text.{starts_with}
use text.Mathlib.TextEquality.{eq_iff}
use jn_engine_contributor_mc.Base.{
  String, Bool, true, false, not, ◌&&◌, ◌||◌, ◌∷◌, ◌==◌, ◌≡◌, refl, subst, arith, Bool-cases, inl,
  inr, sym,
}
use jn_engine_contributor_mc.Corpus.Scan.{SnapshotFile}
use jn_engine_contributor_mc.Search.{
  all_scope, docs_scope, re_scope, tasks_scope, ContentKind, documentation_kind,
  reverse_engineering_kind, task_kind, ClassifiedFile, has_scope, is_re_path, is_task_path,
  is_source_path, is_root_document, kind_of, scopes_of, classify_file,
}

abbrev pub is_documentation : ContentKind → Bool
is_documentation documentation_kind = true
is_documentation _ = false

abbrev pub is_task : ContentKind → Bool
is_task task_kind = true
is_task _ = false

abbrev pub is_reverse_engineering : ContentKind → Bool
is_reverse_engineering reverse_engineering_kind = true
is_reverse_engineering _ = false

-- The scopes of a file and its kind go together.
pub record IsClassified (c : ClassifiedFile) : Type 0 where
  pub in_all : has_scope c.scopes all_scope ≡ true
  pub in_docs : has_scope c.scopes docs_scope ≡ is_documentation c.kind
  pub in_tasks : has_scope c.scopes tasks_scope ≡ is_task c.kind
  pub in_re :
      (has_scope c.scopes re_scope && not (has_scope c.scopes tasks_scope))
      ≡ is_reverse_engineering c.kind

-- What holds of the two root documents.
root_document :
    (P : String → Type 0)
    → P "AGENTS.md"
    → P "README.md"
    → (path : String) → is_root_document path ≡ true
    → P path
root_document P a r path = elim (Bool-cases (path == "AGENTS.md")) [
  | inl e ↦ λ h. subst P (sym ((eq_iff path "AGENTS.md").0 e)) a
  | inr e ↦ elim (Bool-cases (path == "README.md")) [
    | inl d ↦ λ h. subst P (sym ((eq_iff path "README.md").0 d)) r
    | inr d ↦ rw (e, d) (λ h. cc)
  ]
]

agents_is_neither : (is_task_path "AGENTS.md" ≡ false) × (is_re_path "AGENTS.md" ≡ false)
unfolding is_task_path is_re_path
agents_is_neither = (refl, refl)

readme_is_neither : (is_task_path "README.md" ≡ false) × (is_re_path "README.md" ≡ false)
unfolding is_task_path is_re_path
readme_is_neither = (refl, refl)

scopes-kind :
    (item : SnapshotFile) (s r t d p : Bool)
    → (d ≡ true → (t ≡ false) × (r ≡ false))
    → IsClassified (record {
      item = item;
      kind = kind_of t r (d || p);
      scopes = all_scope ∷ scopes_of s r t (d || (p && (not t && not r)));
    })
scopes-kind item s r t d p h = record {
  in_all = refl;
  in_docs = ground arith;
  in_tasks = ground arith;
  in_re = ground arith;
}

-- Every file is in the scope of all. It is in the scope of the documents just if its kind is documentation,
-- in that of the tasks just if its kind is a task, and in that of reverse engineering and not that of the
-- tasks just if its kind is reverse engineering.
pub classify_file-IsClassified : (item : SnapshotFile) → IsClassified (classify_file item)
unfolding classify_file
classify_file-IsClassified item =
    let path = item.relative_path in
    scopes-kind item (is_source_path path) (is_re_path path) (is_task_path path)
      (is_root_document path) (starts_with path "docs/")
      (root_document (λ p. (is_task_path p ≡ false) × (is_re_path p ≡ false)) agents_is_neither
        readme_is_neither path)

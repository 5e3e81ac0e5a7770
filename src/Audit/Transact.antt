-- ===== src/Audit/Transact.antt =====
-- `AuditLog.transact` of collaboration/audit.py: what a call decides and what it leaves behind.
use jn_engine_contributor_mc.Base.{
  ℕ, ◌≤◌, ◌<◌, ◌≡◌, refl, ap, ◌⊎◌, inl, inr, true, false, List, [], ◌∷◌, ◌++◌,
}
use jn_engine_contributor_mc.Python.Json.{Fields}
use jn_engine_contributor_mc.Python.Result.{
  Exception, Result, ok, err, ◌>>=◌, >>=-eq-ok, Result-cases,
}
use jn_engine_contributor_mc.Audit.{
  File, Host, Decision, parse_lines, read_records, commit, transact, max_transaction_bytes,
}
use jn_engine_contributor_mc.Audit.Record.{
  Leaves, read_records-torn, commit-ok, commit-Leaves, commit-bytes,
}

module _ {ℓ} {A : Type ℓ} (encoded : Fields → ℕ) (encoded_pos : (r : Fields) → 0 < encoded r)
    (host : Host) (file : File) (decide : List Fields → Result (Decision A)) where
  -- A call ends before the commit, and leaves the file alone, or it commits what it decided.
  transact-cases :
      ((e : Exception) × (transact encoded host file decide ≡ (err e, file)))
      ⊎ ((records : List Fields) × (d : Decision A) × (read_records host file ≡ ok records)
          × (decide records ≡ ok d)
          × (transact encoded host file decide ≡ commit encoded host file d))
  unfolding transact
  transact-cases = elim (Result-cases (read_records host file >>= decide)) [
    | inr (e, p) ↦ inl (e, rw p)
    | inl (d, p) ↦
        let (records, q, r) = >>=-eq-ok (read_records host file) decide p in
        inr (records, d, q, r, rw p)
  ]

  -- A transaction that returns has read the records of the file and decided on them. It gives the
  -- decided value, and leaves a file that is not torn and that is read as those records with the decided
  -- one after them. Every record is taken to be encoded in at least one byte.
  pub transact-ok :
      {v : A} {file' : File}
      → transact encoded host file decide ≡ (ok v, file')
      → (records : List Fields) × (d : Decision A) × (read_records host file ≡ ok records)
        × (decide records ≡ ok d)
        × (v ≡ d.value)
        × (file'.torn ≡ false)
        × (parse_lines file'.lines ≡ ok (records ++ d.entry ∷ []))
  transact-ok h = elim transact-cases [
    | inl (e, p) ↦ cc
    | inr (records, d, p, q, r) ↦
        let (eq, whole, back) = commit-ok encoded encoded_pos host file records p d (rw r at h) in
        (records, d, p, q, eq, whole, back)
  ]

  -- Whatever the operating system answers, a transaction leaves the file as it was; or it has read the
  -- records of the file and decided on them, and leaves the file as it was, a torn file, or one that is
  -- not torn and is read as those records with the decided one after them. Every record is taken to be
  -- encoded in at least one byte.
  pub transact-Leaves :
      ((transact encoded host file decide).1 ≡ file)
      ⊎ ((records : List Fields) × (d : Decision A) × (read_records host file ≡ ok records)
          × (decide records ≡ ok d)
          × Leaves file records d.entry (transact encoded host file decide).1)
  transact-Leaves = elim transact-cases [
    | inl (e, p) ↦ inl (ap (λ t. t.1) p)
    | inr (records, d, p, q, r) ↦
        inr (records, d, p, q, rw r (commit-Leaves encoded encoded_pos host file records p d))
  ]

  -- A transaction on a file of at most 64 MiB leaves a file of at most 64 MiB. Every record is taken to be
  -- encoded in at least one byte.
  pub transact-bytes :
      file.bytes ≤ max_transaction_bytes
      → (transact encoded host file decide).1.bytes ≤ max_transaction_bytes
  transact-bytes h = elim transact-cases [
    | inl (e, p) ↦ rw p h
    | inr (records, d, p, q, r) ↦ rw r (commit-bytes encoded encoded_pos host file records p d)
  ]

  -- A transaction on a torn file raises and leaves the file as it is. Every record is taken to be encoded
  -- in at least one byte.
  pub transact-torn :
      file.torn ≡ true → (e : Exception) × (transact encoded host file decide ≡ (err e, file))
  unfolding transact
  transact-torn h = let (e, p) = read_records-torn host file h in (e, rw p refl)

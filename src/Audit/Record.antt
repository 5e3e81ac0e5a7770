-- ===== src/Audit/Record.antt =====
-- collaboration/audit.py: what reading checks, and what the commit of one record leaves in the file.
use jn_engine_contributor_mc.Base.{
  ℕ, suc, zero, ◌+◌, ◌≤◌, ◌<◌, ◌≡◌, refl, ◌⊎◌, inl, inr, true, false, some, List, [], ◌∷◌, ◌++◌,
  arith, ltb, Bool-cases,
}
use jn_engine_contributor_mc.Python.Json.{obj, Fields}
use jn_engine_contributor_mc.Python.Result.{Exception, Result, ok, err, >>=-eq-ok, Result-cases}
use jn_engine_contributor_mc.Audit.{
  File, Line, Host, Decision, Written, complete, failed, out_of_fuel, write_all, add_record,
  finish_write, write_record, parse_line, parse_lines, read_records, commit, returned,
  max_audit_record_bytes, max_transaction_bytes,
}
use jn_engine_contributor_mc.Audit.Write.{write_all-returns, write_all-left}

pub Written-cases : (w : Written) → (w ≡ complete) ⊎ ((k : ℕ) × (w ≡ failed k)) ⊎ (w ≡ out_of_fuel)
Written-cases complete = inl refl
Written-cases (failed k) = inr (inl (k, refl))
Written-cases out_of_fuel = inr (inr refl)

parse_line_lem :
    (n : ℕ) (entry : Fields)
    → n ≤ max_audit_record_bytes
    → parse_line (record { size = n; body = some (obj entry) }) ≡ ok entry
unfolding parse_line
parse_line_lem n entry fits = ground arith

-- A whole record at the end of the lines is read back last.
pub parse_lines-append :
    (lines : List Line) (n : ℕ) (entry : Fields) (records : List Fields)
    → parse_lines lines ≡ ok records
    → n ≤ max_audit_record_bytes
    → parse_lines (lines ++ record { size = n; body = some (obj entry) } ∷ [])
      ≡ ok (records ++ entry ∷ [])
unfolding parse_lines
parse_lines-append [] n entry records h fits = ground (arith, parse_line_lem n entry)
parse_lines-append (l ∷ lines) n entry records h fits =
    let (fs, p, q) = >>=-eq-ok (parse_line l) _ h in
    let (rs, r, s) = >>=-eq-ok (parse_lines lines) _ q in
    ground (arith, parse_lines-append lines n entry rs r)

-- The last line is whole once the write was complete.
add_record_complete :
    (host : Host) (file : File) (size : ℕ) (entry : Fields) (records : List Fields)
    → parse_lines file.lines ≡ ok records
    → file.torn ≡ false
    → 0 < size
    → size ≤ max_audit_record_bytes
    → (parse_lines (add_record host file size 0 entry).lines ≡ ok (records ++ entry ∷ []))
      × ((add_record host file size 0 entry).bytes ≡ file.bytes + size)
      × ((add_record host file size 0 entry).torn ≡ false)
unfolding add_record
add_record_complete host file zero entry records h whole p fits = elim p [ ]
add_record_complete host file (suc n) entry records h whole p fits =
    (ground (arith, parse_lines-append file.lines n entry records h), ground arith, ground arith)

-- A failed write leaves the file as it was, or torn.
add_record-failed :
    (host : Host) (file : File) (size left : ℕ) (entry : Fields)
    → 1 ≤ left
    → left ≤ size
    → ((add_record host file size left entry ≡ file)
        ⊎ ((add_record host file size left entry).torn ≡ true))
      × ((add_record host file size left entry).bytes ≤ file.bytes + size)
unfolding add_record
add_record-failed host file size left entry p q = (ground arith, ground arith)

-- What one call may leave behind: the file as it was, a torn file that no later call accepts, or
-- the records that were read and the new one after them.
abbrev pub Leaves : File → List Fields → Fields → File → Type 0
Leaves file records entry file' =
    (file' ≡ file)
    ⊎ (file'.torn ≡ true)
    ⊎ ((file'.torn ≡ false) × (parse_lines file'.lines ≡ ok (records ++ entry ∷ [])))

module _ (host : Host) (file : File) (size : ℕ) (entry : Fields) (records : List Fields)
    (parsed : parse_lines file.lines ≡ ok records) (whole : file.torn ≡ false) (nonempty : 0 < size)
    (fits : size ≤ max_audit_record_bytes) where
  finish_write-Leaves :
      (w : Written)
      → write_all size host.writes 0 size ≡ w
      → Leaves file records entry (finish_write host file size entry w).1
  unfolding finish_write
  finish_write-Leaves complete e =
      let (p, q, r) = add_record_complete host file size entry records parsed whole nonempty fits in
      inr (inr (r, p))
  finish_write-Leaves (failed k) e =
      let (p, q) = write_all-left size host.writes 0 size k e in
      ground (arith, (add_record-failed host file size k entry p q).0)
  finish_write-Leaves out_of_fuel e =
      absurd (write_all-returns size host.writes 0 size (omega arith) e)

  pub write_record-Leaves : Leaves file records entry (write_record host file size entry).1
  unfolding write_record
  write_record-Leaves = finish_write-Leaves (write_all size host.writes 0 size) refl

  finish_write-bytes :
      (w : Written)
      → write_all size host.writes 0 size ≡ w
      → (finish_write host file size entry w).1.bytes ≤ file.bytes + size
  unfolding finish_write
  finish_write-bytes complete e =
      let (p, q, r) = add_record_complete host file size entry records parsed whole nonempty fits in
      omega arith
  finish_write-bytes (failed k) e =
      let (p, q) = write_all-left size host.writes 0 size k e in
      (add_record-failed host file size k entry p q).1
  finish_write-bytes out_of_fuel e = omega arith

  pub write_record-bytes : (write_record host file size entry).1.bytes ≤ file.bytes + size
  unfolding write_record
  write_record-bytes = finish_write-bytes (write_all size host.writes 0 size) refl

  finish_write-ok :
      (w : Written) {u : Unit {0}} {file' : File}
      → finish_write host file size entry w ≡ (ok u, file')
      → (file'.torn ≡ false) × (parse_lines file'.lines ≡ ok (records ++ entry ∷ []))
  unfolding finish_write
  finish_write-ok complete h =
      let (p, q, r) = add_record_complete host file size entry records parsed whole nonempty fits in
      ground arith
  finish_write-ok (failed k) h = cc
  finish_write-ok out_of_fuel h = cc

  pub write_record-ok :
      {u : Unit {0}} {file' : File}
      → write_record host file size entry ≡ (ok u, file')
      → (file'.torn ≡ false) × (parse_lines file'.lines ≡ ok (records ++ entry ∷ []))
  unfolding write_record
  write_record-ok h = finish_write-ok (write_all size host.writes 0 size) h

-- Reading the records checks that the file is whole and within its bound.
pub read_records-ok :
    (host : Host) (file : File) (records : List Fields)
    → read_records host file ≡ ok records
    → (parse_lines file.lines ≡ ok records)
      × (file.torn ≡ false)
      × (file.bytes ≤ max_transaction_bytes)
unfolding read_records
read_records-ok host file records h = ground arith

pub read_records-torn :
    (host : Host) (file : File)
    → file.torn ≡ true
    → (e : Exception) × (read_records host file ≡ err e)
unfolding read_records
read_records-torn host file h = elim (Result-cases (read_records host file)) [
  | inl (records, e) ↦ absurd (ground (arith, (read_records-ok host file records e).1))
  | inr e ↦ e
]

returned-file {ℓ} : {A : Type ℓ} (v : A) (r : Result (Unit {0}) × File) → (returned v r).1 ≡ r.1
returned-file v (ok u, file) = refl
returned-file v (err e, file) = refl

returned-ok {ℓ} :
    {A : Type ℓ} (v : A) (r : Result (Unit {0}) × File) {w : A} {file' : File}
    → returned v r ≡ (ok w, file')
    → (w ≡ v) × (u : Unit {0}) × (r ≡ (ok u, file'))
returned-ok v (ok u, file) h = (cc, u, cc)
returned-ok v (err e, file) h = cc

module _ {ℓ} {A : Type ℓ} (encoded : Fields → ℕ) (encoded_pos : (r : Fields) → 0 < encoded r)
    (host : Host) (file : File) where
  module _ (records : List Fields) (parsed : read_records host file ≡ ok records)
      (d : Decision A) where
    pub commit-ok :
        {v : A} {file' : File}
        → commit encoded host file d ≡ (ok v, file')
        → (v ≡ d.value)
          × (file'.torn ≡ false)
          × (parse_lines file'.lines ≡ ok (records ++ d.entry ∷ []))
    unfolding commit
    commit-ok h = elim (Bool-cases (ltb max_audit_record_bytes (encoded d.entry))) [
      | inl big ↦ ground arith
      | inr fits ↦ elim (Bool-cases (ltb max_transaction_bytes (file.bytes + encoded d.entry))) [
        | inl full ↦ ground arith
        | inr room ↦
            let (p, q, r) = read_records-ok host file records parsed in
            let (eq, u, w) =
              returned-ok d.value (write_record host file (encoded d.entry) d.entry)
                (rw (fits, room) at h) in
            let (whole, back) =
              write_record-ok host file (encoded d.entry) d.entry records p q (encoded_pos d.entry)
                (ground arith) w in
            (eq, whole, back)
      ]
    ]

    pub commit-Leaves : Leaves file records d.entry (commit encoded host file d).1
    unfolding commit
    commit-Leaves =
        let (p, q, r) = read_records-ok host file records parsed in
        ground (
          arith,
          returned-file d.value (write_record host file (encoded d.entry) d.entry),
          write_record-Leaves host file (encoded d.entry) d.entry records p q (encoded_pos d.entry),
        )

    pub commit-bytes : (commit encoded host file d).1.bytes ≤ max_transaction_bytes
    unfolding commit
    commit-bytes =
        let (p, q, r) = read_records-ok host file records parsed in
        ground (
          arith,
          returned-file d.value (write_record host file (encoded d.entry) d.entry),
          write_record-bytes host file (encoded d.entry) d.entry records p q (encoded_pos d.entry),
        )

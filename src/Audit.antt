-- ===== src/Audit.antt =====
-- collaboration/audit.py: the append-only NDJSON file, `AuditLog.append` and `AuditLog.transact`.
-- The answers of the operating system in one call are the fields of `Host`.
pub mod Write
pub mod Record
pub mod Transact
use jn_engine_contributor_mc.Base.{
  ℕ, zero, suc, ◌+◌, ◌-◌, ◌*◌, String, Bool, true, false, not, Option, none, some, List, [], ◌∷◌,
  ◌++◌, ltb, eqb, if◌then◌else◌,
}
use jn_engine_contributor_mc.Python.Json.{Json, obj, Fields, as_dict}
use jn_engine_contributor_mc.Python.Result.{
  Exception, audit_unavailable, other_exception, Result, ok, err, ◌>>=◌, ◌>>◌, raise_if,
}

abbrev pub max_transaction_bytes : ℕ
max_transaction_bytes = 64 * 1024 * 1024

abbrev pub max_audit_record_bytes : ℕ
max_audit_record_bytes = 64 * 1024

-- A line of the file, as `splitlines` cuts it: its length and what `json.loads` makes of it, with
-- `none` for a line that is no JSON.
pub record Line : Type 0 where
  pub size : ℕ
  pub body : Option Json

-- `bytes` is `st_size`; the file is torn when it is not empty and does not end in a newline.
pub record File : Type 0 where
  pub lines : List Line
  pub bytes : ℕ
  pub torn : Bool

-- What the operating system answers in one call; `none` is an `OSError`. `writes i` is the answer
-- of the i-th `os.write`, and `glued` what a torn last line and the text that follows it parse as.
pub record Host : Type 0 where
  pub opens : Bool
  pub regular : Bool
  pub mode : ℕ
  pub size_at_open : ℕ
  pub locks : Bool
  pub reads : Option ℕ
  pub writes : ℕ → Option ℕ
  pub syncs : Bool
  pub glued : Option Json

-- `AuditDecision`
pub record Decision {ℓ} (A : Type ℓ) : Type ℓ where
  pub entry : Fields
  pub value : A

pub data Written : Type 0 where
  complete : Written
  failed : ℕ → Written
  out_of_fuel : Written

-- `while view: written = os.write(descriptor, view); …`, over the bytes that are left.
unfoldable pub write_all : ℕ → (ℕ → Option ℕ) → ℕ → ℕ → Written
write_all zero writes i zero = complete
write_all zero writes i (suc left) = out_of_fuel
write_all (suc fuel) writes i zero = complete
write_all (suc fuel) writes i (suc left) = elim (writes i) [
  | none ↦ failed (suc left)
  | some zero ↦ failed (suc left)
  | some (suc n) ↦ write_all fuel writes (i + 1) (left - n)
]

-- The last line goes on where the file is torn.
extend_last : List Line → ℕ → Option Json → List Line
extend_last [] n body = record { size = n; body = body } ∷ []
extend_last (l ∷ []) n body = record { size = l.size + n; body = body } ∷ []
extend_last (l ∷ (k ∷ rest)) n body = l ∷ extend_last (k ∷ rest) n body

-- The file after a record of `size` bytes, newline included, was written but for its last `left`.
unfoldable pub add_record : Host → File → ℕ → ℕ → Fields → File
unfolding extend_last
add_record host file size left entry =
    let ended = eqb left 0 in
    let n = if ended then size - 1 else size - left in
    let body = if ltb left 2 then some (obj entry) else none in
    if eqb (size - left) 0 then file else record {
      lines =
          if file.torn
          then extend_last file.lines n host.glued
          else file.lines ++ record { size = n; body = body } ∷ [];
      bytes = file.bytes + (size - left);
      torn = not ended;
    }

-- What the write loop and `os.fsync` make of the call. `size` is the payload's length.
unfoldable pub finish_write : Host → File → ℕ → Fields → Written → Result (Unit {0}) × File
finish_write host file size entry complete = (
  (if host.syncs then ok tt else err (audit_unavailable "audit append did not complete")),
  add_record host file size 0 entry,
)
finish_write host file size entry (failed left) =
    (err (audit_unavailable "audit append did not complete"), add_record host file size left entry)
finish_write host file size entry out_of_fuel = (err other_exception, file)

-- Write and sync: the end of `append` and of `transact`.
unfoldable pub write_record : Host → File → ℕ → Fields → Result (Unit {0}) × File
unfolding finish_write
write_record host file size entry =
    finish_write host file size entry (write_all size host.writes 0 size)

open_checked : Host → Result (Unit {0})
open_checked host =
    raise_if (not host.opens) (audit_unavailable "audit log cannot be opened safely")
    >> raise_if (not host.regular) (audit_unavailable "audit log must be a regular file")
    >> raise_if (not (eqb host.mode 0o600)) (audit_unavailable "audit log must have mode 0600")

abbrev after : Result (Unit {0}) → File → Result (Unit {0}) × File → Result (Unit {0}) × File
after (ok _) file done = done
after (err e) file done = (err e, file)

-- `AuditLog.append`; `encoded` is the length of `json.dumps(record) + "\n"`.
unfoldable pub append : (Fields → ℕ) → Host → File → Fields → Result (Unit {0}) × File
unfolding open_checked write_record
append encoded host file entry =
    after
      (open_checked host
        >> raise_if (not host.locks) (audit_unavailable "audit append did not complete"))
      file (write_record host file (encoded entry) entry)

-- The body of the loop over the lines.
unfoldable pub parse_line : Line → Result Fields
parse_line line = do
  raise_if (ltb max_audit_record_bytes line.size)
      (audit_unavailable "audit record exceeds its safe bound")
  elim line.body [
    | none ↦ err (audit_unavailable "audit ledger is malformed")
    | some v ↦ elim (as_dict v) [
      | none ↦ err (audit_unavailable "audit ledger record must be an object")
      | some fs ↦ ok fs
    ]
  ]

unfoldable pub parse_lines : List Line → Result (List Fields)
unfolding parse_line
parse_lines [] = ok []
parse_lines (line ∷ rest) = do fs ← parse_line line; records ← parse_lines rest; ok (fs ∷ records)

read_length : Option ℕ → ℕ → Result (Unit {0})
read_length none bytes = err (audit_unavailable "audit transaction did not complete")
read_length (some n) bytes =
    raise_if (not (eqb n bytes)) (audit_unavailable "audit ledger read did not complete")

-- `transact` up to the call of `decide`: the records of the file.
unfoldable pub read_records : Host → File → Result (List Fields)
unfolding open_checked read_length
read_records host file = do
  open_checked host
  raise_if (ltb max_transaction_bytes host.size_at_open)
      (audit_unavailable "audit ledger exceeds its safe bound")
  raise_if (not host.locks) (audit_unavailable "audit transaction did not complete")
  raise_if (ltb max_transaction_bytes file.bytes)
      (audit_unavailable "audit ledger exceeds its safe bound")
  read_length host.reads file.bytes
  raise_if file.torn (audit_unavailable "audit ledger contains a partial record")
  parse_lines file.lines

module _ {ℓ} {A : Type ℓ} where
  abbrev returned : A → Result (Unit {0}) × File → Result A × File
  returned value (ok _, file) = (ok value, file)
  returned value (err e, file) = (err e, file)

  -- `transact` after the call of `decide`.
  unfoldable pub commit : (Fields → ℕ) → Host → File → Decision A → Result A × File
  commit encoded host file d =
      let size = encoded d.entry in
      if ltb max_audit_record_bytes size
      then (err (audit_unavailable "audit record exceeds its safe bound"), file)
      else if ltb max_transaction_bytes (file.bytes + size)
      then (err (audit_unavailable "audit ledger exceeds its safe bound"), file)
      else returned d.value (write_record host file size d.entry)

  abbrev decided : (Fields → ℕ) → Host → File → Result (Decision A) → Result A × File
  decided encoded host file (ok d) = commit encoded host file d
  decided encoded host file (err e) = (err e, file)

  -- `AuditLog.transact`
  unfoldable pub transact :
      (Fields → ℕ) → Host → File → (List Fields → Result (Decision A)) → Result A × File
  transact encoded host file decide = decided encoded host file (read_records host file >>= decide)

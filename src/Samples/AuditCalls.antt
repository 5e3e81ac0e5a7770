-- ===== src/Samples/AuditCalls.antt =====
-- Transactions on the audit file, and the theorems about it at work on them.
use jn_engine_contributor_mc.Base.{
  ℕ, ◌≤◌, ◌≡◌, ◌≢◌, refl, ◌⊎◌, true, false, none, some, List, [], ◌∷◌, ◌++◌, arith, eqb,
  if◌then◌else◌,
}
use jn_engine_contributor_mc.Base.Int.{pos}
use jn_engine_contributor_mc.Python.Json.{Json, Fields, end, field, int}
use jn_engine_contributor_mc.Python.Result.{Exception, Result, ok, err}
use jn_engine_contributor_mc.Audit.{
  File, Host, Decision, out_of_fuel, write_all, parse_line, parse_lines, read_records, add_record,
  finish_write, write_record, commit, transact, max_transaction_bytes,
}
use jn_engine_contributor_mc.Audit.Write.{write_all-returns}
use jn_engine_contributor_mc.Audit.Record.{Leaves}
use jn_engine_contributor_mc.Audit.Transact.{
  transact-ok, transact-Leaves, transact-bytes, transact-torn,
}
use jn_engine_contributor_mc.Samples.{willing, hundred, hundred_pos}

abbrev note : Fields
note = field "n" (int (pos 1)) end

abbrev one_note : File
one_note = record {
  lines = record { size = 99; body = some (Json.obj note) } ∷ [];
  bytes = 100;
  torn = false;
}

-- The call adds a note, and gives the number of notes before it.
abbrev add_note : List Fields → Result (Decision ℕ)
add_note [] = ok (record { entry = note; value = 0 })
add_note (r ∷ records) = ok (record { entry = note; value = 1 })

abbrev two_notes : File
two_notes = record {
  lines =
      record { size = 99; body = some (Json.obj note) }
      ∷ record { size = 99; body = some (Json.obj note) }
      ∷ [];
  bytes = 200;
  torn = false;
}

noted : transact hundred (willing 100) one_note add_note ≡ (ok 1, two_notes)
unfolding transact read_records parse_line parse_lines commit write_record finish_write write_all
    add_record
noted = refl

transact-ok_example :
    (records : List Fields) × (d : Decision ℕ) × (read_records (willing 100) one_note ≡ ok records)
    × (add_note records ≡ ok d)
    × (1 ≡ d.value)
    × (two_notes.torn ≡ false)
    × (parse_lines two_notes.lines ≡ ok (records ++ d.entry ∷ []))
transact-ok_example = transact-ok hundred hundred_pos (willing 100) one_note add_note noted

-- The disk is full after the first seventy bytes.
abbrev full : Host
full = record (willing 100) { writes = λ i. if eqb i 0 then some 70 else none }

full_disk_tears : (transact hundred full one_note add_note).1.torn ≡ true
unfolding transact read_records parse_line parse_lines commit write_record finish_write write_all
    add_record
full_disk_tears = refl

transact-Leaves_example :
    ((transact hundred full one_note add_note).1 ≡ one_note)
    ⊎ ((records : List Fields) × (d : Decision ℕ) × (read_records full one_note ≡ ok records)
        × (add_note records ≡ ok d)
        × Leaves one_note records d.entry (transact hundred full one_note add_note).1)
transact-Leaves_example = transact-Leaves hundred hundred_pos full one_note add_note

transact-bytes_example : (transact hundred full one_note add_note).1.bytes ≤ max_transaction_bytes
transact-bytes_example = transact-bytes hundred hundred_pos full one_note add_note (omega arith)

abbrev torn_file : File
torn_file = record one_note { torn = true }

transact-torn_example :
    (e : Exception) × (transact hundred (willing 100) torn_file add_note ≡ (err e, torn_file))
transact-torn_example = transact-torn hundred hundred_pos (willing 100) torn_file add_note refl

write_all-returns_example : write_all 100 (λ i. some 30) 0 100 ≢ out_of_fuel
write_all-returns_example = write_all-returns 100 (λ i. some 30) 0 100 (omega arith)

-- ===== src/TaskIndex/Tables.antt =====
-- The tables of core/task_index.py: `_parse_linkage`, `_parse_decomp` and `_parse_catalog`.
use Prim.Native.String.{◌++◌}
use jn_engine_contributor_mc.Base.{
  ℕ, String, ◌||◌, Option, none, some, List, [], ◌∷◌, if◌then◌else◌, ◌==◌,
}
use jn_engine_contributor_mc.Base.Text.{strip}
use jn_engine_contributor_mc.Python.Dict.{Dict, lookup}
use jn_engine_contributor_mc.Corpus.{Outcome, returns, task_index_error, ◌>>=◌, ◌>>◌, refuse_if}
use jn_engine_contributor_mc.TaskIndex.{
  TaskStatus, status_open, status_blocked, status_done, linkage, decomp, TaskRecord, Library,
  linkage_path, decomp_path,
}
use jn_engine_contributor_mc.TaskIndex.Texts.{semantic_slug}
use jn_engine_contributor_mc.TaskIndex.Records.{
  decomp_headers, linkage_headers, value_of, csv_rows, Draft, new_record, then_record,
}

-- `row[key].strip()`
abbrev stripped : String → Dict String → String
stripped key row = strip (value_of key row)

abbrev or_text : String → String → String
or_text other s = if s == "" then other else s

-- The status of a row of the linkage certificates, by its text.
unfoldable pub linkage_status : String → Option TaskStatus
linkage_status raw =
    if raw == "linked"
    then some status_done
    else if raw == "linked-blocked"
    then some status_blocked
    else none

abbrev pub status_map : Dict TaskStatus
status_map =
    ("todo", status_open)
    ∷ ("in_progress", status_open)
    ∷ ("spec", status_done)
    ∷ ("ported", status_done)
    ∷ ("ported(optional)", status_done)
    ∷ ("validated", status_done)
    ∷ []

module _ (lib : Library) (commit : String) where
  unfoldable pub linkage_draft : Dict String → TaskStatus → Draft
  unfolding value_of strip semantic_slug
  linkage_draft row status = record {
    task_id =
        "linkage:"
        ++ (lib.casefold (stripped "class" row)
            ++ (":" ++ semantic_slug lib (stripped "aspect" row)));
    title = stripped "class" row ++ (" / " ++ stripped "aspect" row);
    status = status;
    category = value_of "domain" row;
    detail =
        "status="
        ++ (value_of "status" row
            ++ ("; oracle="
                ++ (or_text "none" (value_of "oracle" row) ++ ("; " ++ value_of "note" row))));
  }

  -- The loop of `_parse_linkage`.
  unfoldable pub linkage_rows : List (ℕ × Dict String) → Outcome (List TaskRecord)
  unfolding value_of strip linkage_status linkage_draft new_record
  linkage_rows [] = returns []
  linkage_rows ((line, row) ∷ rows) =
      let rest = linkage_rows rows in
      elim (linkage_status (lib.casefold (stripped "status" row))) [
        | none ↦ rest
        | some status ↦
            refuse_if (stripped "class" row == "" || stripped "aspect" row == "")
              (task_index_error "linkage row is missing class or aspect")
            >> then_record (new_record commit linkage linkage_path line (linkage_draft row status))
                rest
      ]

  -- `_parse_linkage`
  unfoldable pub parse_linkage : String → Outcome (List TaskRecord)
  unfolding csv_rows linkage_rows
  parse_linkage text = csv_rows lib text linkage_headers linkage_path >>= linkage_rows

  unfoldable pub decomp_draft : Dict String → TaskStatus → Draft
  unfolding value_of strip
  decomp_draft row status = record {
    task_id = "decomp:" ++ lib.casefold (stripped "class" row);
    title = stripped "class" row;
    status = status;
    category = value_of "family" row;
    detail =
        "status="
        ++ (value_of "status" row
            ++ ("; wave="
                ++ (value_of "wave" row
                    ++ ("; confidence="
                        ++ (value_of "confidence" row ++ ("; " ++ value_of "notes" row))))));
  }

  -- The loop of `_parse_decomp`.
  unfoldable pub decomp_rows : List (ℕ × Dict String) → Outcome (List TaskRecord)
  unfolding value_of strip lookup decomp_draft new_record
  decomp_rows [] = returns []
  decomp_rows ((line, row) ∷ rows) =
      let rest = decomp_rows rows in
      elim (lookup (lib.casefold (stripped "status" row)) status_map) [
        | none ↦ rest
        | some status ↦
            refuse_if (stripped "class" row == "")
              (task_index_error "decomp row is missing its class")
            >> then_record (new_record commit decomp decomp_path line (decomp_draft row status))
                rest
      ]

  -- `_parse_decomp`
  unfoldable pub parse_decomp : String → Outcome (List TaskRecord)
  unfolding csv_rows decomp_rows
  parse_decomp text = csv_rows lib text decomp_headers decomp_path >>= decomp_rows

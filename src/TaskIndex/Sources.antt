-- ===== src/TaskIndex/Sources.antt =====
-- The handoff and the QA ledger: `_parse_handoff` and `_parse_qa` of core/task_index.py.
use Prim.Native.String.{◌++◌}
use text.Mathlib.Text.{starts_with}
use jn_engine_contributor_mc.Base.{
  ℕ, suc, String, Bool, true, false, not, ◌&&◌, ◌||◌, Option, none, some, List, [], ◌∷◌, eqb,
  if◌then◌else◌, ◌==◌,
}
use jn_engine_contributor_mc.Base.Lists.{length}
use jn_engine_contributor_mc.Base.Text.{all_chars, strip}
use jn_engine_contributor_mc.Python.Dict.{Dict}
use jn_engine_contributor_mc.Corpus.{
  Outcome, returns, raises, task_index_error, ◌>>=◌, ◌>>◌, refuse_if,
}
use jn_engine_contributor_mc.Corpus.Snapshot.{same_texts}
use jn_engine_contributor_mc.Corpus.Cite.{splitlines}
use jn_engine_contributor_mc.TaskIndex.{
  TaskStatus, status_open, status_done, handoff, qa, TaskRecord, Library, handoff_path, qa_path,
}
use jn_engine_contributor_mc.TaskIndex.Texts.{
  plain_markdown, semantic_slug, table_cells, is_separator_row, normalize_qa_status,
}
use jn_engine_contributor_mc.TaskIndex.Patterns.{section_heading, list_item, label}
use jn_engine_contributor_mc.TaskIndex.Records.{
  qa_headers, row_of, value_of, Draft, new_record, then_record,
}

module _ (lib : Library) (commit : String) where
  abbrev is_current : String → Bool
  is_current title =
      starts_with title "your task this session"
      || (starts_with title "live options" || starts_with title "recommended next campaign")

  abbrev or_slug : String → Option String → String
  or_slug plain none = semantic_slug lib plain
  or_slug plain (some l) = l

  unfoldable pub handoff_draft : Bool → String → Draft
  unfolding plain_markdown semantic_slug label
  handoff_draft checked title =
      let plain = plain_markdown title in
      record {
        task_id = "handoff:" ++ lib.casefold (or_slug plain (label plain));
        title = plain;
        status = if checked then status_done else status_open;
        category = "current";
        detail = title;
      }

  -- The loop of `_parse_handoff`, from a line number on.
  unfoldable pub handoff_lines : Bool → ℕ → List String → Outcome (List TaskRecord)
  unfolding new_record section_heading list_item handoff_draft
  handoff_lines in_section n [] = returns []
  handoff_lines in_section n (line ∷ lines) = elim (section_heading line) [
    | some title ↦ handoff_lines (is_current (lib.casefold title)) (suc n) lines
    | none ↦
        let rest = handoff_lines in_section (suc n) lines in
        if in_section
        then elim (list_item lib line) [
          | none ↦ rest
          | some (checked, title) ↦
              then_record (new_record commit handoff handoff_path n (handoff_draft checked title))
                rest
        ]
        else rest
  ]

  -- `_parse_handoff`
  unfoldable pub parse_handoff : String → Outcome (List TaskRecord)
  unfolding handoff_lines splitlines
  parse_handoff text = do
    records ← handoff_lines false 1 (splitlines text)
    refuse_if (eqb (length records) 0)
        (task_index_error "handoff current-task section contains no tasks")
    returns records

  unfoldable pub qa_draft : Dict String → TaskStatus → Draft
  unfolding value_of
  qa_draft row status = record {
    task_id = "qa:" ++ value_of "#" row;
    title =
        "QA #"
        ++ (value_of "#" row
            ++ (" "
                ++ (value_of "Level" row
                    ++ (" " ++ (value_of "Model" row ++ (": " ++ value_of "Issue" row))))));
    status = status;
    category = value_of "Cat" row;
    detail = "group=" ++ (value_of "Group" row ++ ("; status=" ++ value_of "Status" row));
  }

  -- The row of a report, none where it is skipped.
  unfoldable pub qa_row : List String → Option Draft
  unfolding value_of all_chars normalize_qa_status qa_draft
  qa_row cells =
      let row = row_of qa_headers cells in
      let number = value_of "#" row in
      if not (number == "") && all_chars lib.is_digit number
      then elim (normalize_qa_status lib (value_of "Status" row)) [
        | none ↦ none
        | some status ↦ some (qa_draft row status)
      ]
      else none

  -- The loop of `_parse_qa`.
  unfoldable pub qa_lines : Bool → Bool → ℕ → List String → Outcome (List TaskRecord)
  unfolding new_record section_heading table_cells is_separator_row strip qa_row
  qa_lines in_section header_seen n [] =
      refuse_if (not header_seen) (task_index_error "QA master ledger header is missing")
      >> returns []
  qa_lines in_section header_seen n (line ∷ lines) = elim (section_heading line) [
    | some title ↦
        let inside = starts_with title "Master report ledger" in
        let rest = qa_lines inside header_seen (suc n) lines in
        if header_seen && not inside then returns [] else rest
    | none ↦
        let rest = qa_lines in_section header_seen (suc n) lines in
        let headed = qa_lines in_section true (suc n) lines in
        if not in_section then rest else elim (table_cells line) [
          | none ↦ if header_seen && not (strip line == "") then returns [] else rest
          | some cells ↦
              if same_texts cells qa_headers
              then headed
              else if is_separator_row cells || not header_seen
              then rest
              else if not (eqb (length cells) (length qa_headers))
              then raises (task_index_error "QA ledger contains a malformed row")
              else elim (qa_row cells) [
                | none ↦ rest
                | some draft ↦ then_record (new_record commit qa qa_path n draft) rest
              ]
        ]
  ]

  -- `_parse_qa`
  unfoldable pub parse_qa : String → Outcome (List TaskRecord)
  unfolding qa_lines splitlines
  parse_qa text = qa_lines false false 1 (splitlines text)

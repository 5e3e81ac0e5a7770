-- ===== src/TaskIndex/Catalog.antt =====
-- The catalog of assets: `_parse_catalog` and `_parse_catalog_table` of core/task_index.py.
use Prim.Native.String.{◌++◌}
use Prim.Native.Char.{code}
use text.Mathlib.Text.{starts_with}
use jn_engine_contributor_mc.Base.{
  ℕ, suc, String, Bool, true, false, not, ◌&&◌, ◌||◌, Option, none, some, List, [], ◌∷◌, eqb,
  if◌then◌else◌, ◌==◌,
}
use jn_engine_contributor_mc.Base.Lists.{length}
use jn_engine_contributor_mc.Base.Paths.{join}
use jn_engine_contributor_mc.Base.Text.{text_length}
use jn_engine_contributor_mc.Python.Dict.{Dict, lookup}
use jn_engine_contributor_mc.Corpus.{
  Failure, Outcome, returns, task_index_error, ◌>>=◌, ◌>>◌, refuse_if,
}
use jn_engine_contributor_mc.Corpus.Snapshot.{same_texts}
use jn_engine_contributor_mc.Corpus.Cite.{splitlines}
use jn_engine_contributor_mc.TaskIndex.{status_open, catalog, TaskRecord, Library, catalog_path}
use jn_engine_contributor_mc.TaskIndex.Texts.{table_cells, is_separator_row}
use jn_engine_contributor_mc.TaskIndex.Patterns.{section_heading}
use jn_engine_contributor_mc.TaskIndex.Records.{
  catalog_queue_headers, catalog_unused_headers, row_of, value_of, Draft, new_record, then_record,
}

-- `value.strip("\x60 ")`
abbrev is_mark : ℕ → Bool
is_mark c = eqb c 0x60 || eqb c b' '

unfoldable strip_left : String → String
strip_left String.[] = ""
strip_left (String.◌∷◌ c s) =
    let rest = strip_left s in if is_mark (code c) then rest else String.◌∷◌ c s

unfoldable strip_right : String → String
strip_right String.[] = ""
strip_right (String.◌∷◌ c s) =
    let rest = strip_right s in if is_mark (code c) && rest == "" then "" else String.◌∷◌ c rest

unfoldable pub strip_marks : String → String
unfolding strip_left strip_right
strip_marks value = strip_right (strip_left value)

-- The sections of the catalog that have tasks.
pub data Section : Type 0 where
  queue : Section
  unused : Section

abbrev pub expected_section : String → Option Section
expected_section title =
    if title == "Full Missing Native Behavior Queue"
    then some queue
    else if title == "Enemy-Family Specs With No Current `.gam` Placement"
    then some unused
    else none

abbrev headers_of : Section → List String
headers_of queue = catalog_queue_headers
headers_of unused = catalog_unused_headers

-- `detail_parts`
unfoldable pub detail_parts : Dict String → List String
detail_parts [] = []
detail_parts ((key, value) ∷ row) =
    let rest = detail_parts row in
    if not (key == "FourCC" || key == "Class") && (not (value == "") && not (value == "-"))
    then (key ++ ("=" ++ value)) ∷ rest
    else rest

-- The sections that were found.
pub record Found : Type 0 where
  pub queue_found : Bool
  pub unused_found : Bool

abbrev pub add_section : Section → Found → Found
add_section queue found = record { queue_found = true; unused_found = found.unused_found }
add_section unused found = record { queue_found = found.queue_found; unused_found = true }

-- Where the loops are: outside the sections, or in the table of one, with `header_seen`.
pub data Place : Type 0 where
  outside : Place
  inside : Section → Bool → Place

abbrev pub sections_missing : Failure
sections_missing = task_index_error "catalog required sections are missing"

abbrev pub header_missing : Failure
header_missing = task_index_error "catalog named section is missing its table header"

module _ (lib : Library) (commit : String) where
  abbrev or_unplaced : Option String → String
  or_unplaced none = "unplaced"
  or_unplaced (some family) = if family == "" then "unplaced" else family

  unfoldable catalog_draft : Dict String → String → String → Draft
  unfolding lookup detail_parts join
  catalog_draft row fourcc class_name = record {
    task_id = "catalog:" ++ (lib.casefold fourcc ++ (":" ++ lib.casefold class_name));
    title = fourcc ++ (" " ++ class_name);
    status = status_open;
    category = or_unplaced (lookup "Family" row);
    detail = join "; " (detail_parts row);
  }

  -- The row of a task, none where it is skipped.
  unfoldable pub catalog_row : Dict String → Outcome (Option Draft)
  unfolding value_of strip_marks catalog_draft
  catalog_row row =
      let fourcc = strip_marks (value_of "FourCC" row) in
      let class_name = strip_marks (value_of "Class" row) in
      if fourcc == "-" && class_name == "-"
      then returns none
      else refuse_if (not (eqb (text_length fourcc) 4) || class_name == "")
          (task_index_error "catalog task has invalid FourCC or class")
        >> returns (some (catalog_draft row fourcc class_name))

  abbrev add_row : ℕ → Outcome (List TaskRecord) → Option Draft → Outcome (List TaskRecord)
  add_row n rest none = rest
  add_row n rest (some draft) = then_record (new_record commit catalog catalog_path n draft) rest

  abbrev table_ends : Bool → Outcome (Unit {0})
  table_ends header_seen = refuse_if (not header_seen) header_missing

  -- The two loops, one in the other, which share the line that they are at.
  unfoldable pub catalog_lines : Found → Place → ℕ → List String → Outcome (List TaskRecord)
  unfolding section_heading table_cells is_separator_row catalog_row new_record
  catalog_lines found outside n [] =
      refuse_if (not (found.queue_found && found.unused_found)) sections_missing >> returns []
  catalog_lines found (inside section header_seen) n [] =
      table_ends header_seen
      >> (refuse_if (not (found.queue_found && found.unused_found)) sections_missing >> returns [])
  catalog_lines found outside n (line ∷ lines) = elim (section_heading line) [
    | none ↦ catalog_lines found outside (suc n) lines
    | some title ↦ elim (expected_section title) [
      | none ↦ catalog_lines found outside (suc n) lines
      | some section ↦
          catalog_lines (add_section section found) (inside section false) (suc n) lines
    ]
  ]
  catalog_lines found (inside section header_seen) n (line ∷ lines) =
      let rest = catalog_lines found (inside section header_seen) (suc n) lines in
      let headed = catalog_lines found (inside section true) (suc n) lines in
      if starts_with line "## "
      then table_ends header_seen >> elim (section_heading line) [
        | none ↦ catalog_lines found outside (suc n) lines
        | some title ↦ elim (expected_section title) [
          | none ↦ catalog_lines found outside (suc n) lines
          | some next ↦ catalog_lines (add_section next found) (inside next false) (suc n) lines
        ]
      ]
      else elim (table_cells line) [
        | none ↦ rest
        | some cells ↦
            if same_texts cells (headers_of section)
            then headed
            else if is_separator_row cells || not header_seen
            then rest
            else refuse_if (not (eqb (length cells) (length (headers_of section))))
                (task_index_error "catalog contains a malformed table row")
              >> (catalog_row (row_of (headers_of section) cells) >>= add_row n rest)
      ]

  -- `_parse_catalog`
  unfoldable pub parse_catalog : String → Outcome (List TaskRecord)
  unfolding catalog_lines splitlines
  parse_catalog text =
      catalog_lines (record { queue_found = false; unused_found = false }) outside 1
        (splitlines text)

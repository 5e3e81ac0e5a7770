-- ===== src/TaskIndex/Loops.antt =====
-- What the loops of the parsers promise of every task.
use jn_engine_contributor_mc.Base.{
  ℕ, suc, String, Bool, true, false, not, ◌&&◌, none, some, List, [], ◌∷◌, eqb,
}
use jn_engine_contributor_mc.Base.Lists.{length, All}
use jn_engine_contributor_mc.Base.Text.{strip}
use jn_engine_contributor_mc.Python.Dict.{Dict, lookup}
use jn_engine_contributor_mc.Corpus.{Outcome}
use jn_engine_contributor_mc.Corpus.Cite.{splitlines}
use jn_engine_contributor_mc.TaskIndex.{
  handoff, qa, linkage, decomp, catalog, TaskRecord, Library, handoff_path, qa_path, linkage_path,
  decomp_path, catalog_path,
}
use jn_engine_contributor_mc.TaskIndex.Texts.{table_cells}
use jn_engine_contributor_mc.TaskIndex.Patterns.{section_heading, list_item}
use jn_engine_contributor_mc.TaskIndex.Records.{value_of}
use jn_engine_contributor_mc.TaskIndex.Sources.{
  handoff_draft, handoff_lines, parse_handoff, qa_row, qa_lines, parse_qa,
}
use jn_engine_contributor_mc.TaskIndex.Tables.{
  linkage_status, status_map, linkage_draft, decomp_draft, linkage_rows, parse_linkage, decomp_rows,
  parse_decomp,
}
use jn_engine_contributor_mc.TaskIndex.Catalog.{
  sections_missing, header_missing, Found, Place, outside, inside, expected_section, add_section,
  catalog_lines, parse_catalog,
}
use jn_engine_contributor_mc.TaskIndex.Recorded.{
  IsTask, Gives, gives, raises_none, Gives-if, Gives-refuse_if, Gives-elim, Gives-after,
  Gives-then_record, Gives-kept, new_record-IsTask,
}

module _ (lib : Library) (commit : String) where
  abbrev pub Tasks : Outcome (List TaskRecord) → Type 0
  Tasks m = Gives (All (IsTask commit)) m

  handoff_lines-Tasks :
      (lines : List String) (in_section : Bool) (n : ℕ)
      → Tasks (handoff_lines lib commit in_section n lines)
  unfolding handoff_lines
  handoff_lines-Tasks [] in_section n = gives _ _ tt
  handoff_lines-Tasks (line ∷ lines) in_section n =
      let rest = handoff_lines-Tasks lines in_section (suc n) in
      Gives-elim (section_heading line) _
        (Gives-if in_section
          (Gives-elim (list_item lib line) _ rest (λ found.
            Gives-then_record _ _
              (new_record-IsTask commit handoff handoff_path n
                (handoff_draft lib commit found.0 found.1))
              rest))
          rest)
        (λ title. handoff_lines-Tasks lines _ (suc n))

  qa_lines-Tasks :
      (lines : List String) (in_section header_seen : Bool) (n : ℕ)
      → Tasks (qa_lines lib commit in_section header_seen n lines)
  unfolding qa_lines
  qa_lines-Tasks [] in_section header_seen n = Gives-refuse_if _ _ (gives _ _ tt)
  qa_lines-Tasks (line ∷ lines) in_section header_seen n =
      let rest = qa_lines-Tasks lines in_section header_seen (suc n) in
      let none_left = gives (All (IsTask commit)) [] tt in
      Gives-elim (section_heading line) _
        (Gives-if (not in_section) rest (
          Gives-elim (table_cells line) _ (Gives-if _ none_left rest) (λ cells.
            Gives-if _ (qa_lines-Tasks lines in_section true (suc n)) (
              Gives-if _ rest (
                Gives-if _ (raises_none _ _) (
                  Gives-elim (qa_row lib commit cells) _ rest (λ draft.
                    Gives-then_record _ _ (new_record-IsTask commit qa qa_path n draft) rest)))))))
        (λ title. Gives-if _ none_left (qa_lines-Tasks lines _ header_seen (suc n)))

  linkage_rows-Tasks : (rows : List (ℕ × Dict String)) → Tasks (linkage_rows lib commit rows)
  unfolding linkage_rows
  linkage_rows-Tasks [] = gives _ _ tt
  linkage_rows-Tasks ((line, row) ∷ rows) =
      let rest = linkage_rows-Tasks rows in
      Gives-elim (linkage_status (lib.casefold (strip (value_of "status" row)))) _ rest (λ status.
        Gives-refuse_if _ _ (
          Gives-then_record _ _
            (new_record-IsTask commit linkage linkage_path line
              (linkage_draft lib commit row status))
            rest))

  decomp_rows-Tasks : (rows : List (ℕ × Dict String)) → Tasks (decomp_rows lib commit rows)
  unfolding decomp_rows
  decomp_rows-Tasks [] = gives _ _ tt
  decomp_rows-Tasks ((line, row) ∷ rows) =
      let rest = decomp_rows-Tasks rows in
      Gives-elim (lookup (lib.casefold (strip (value_of "status" row))) status_map) _ rest
        (λ status. Gives-refuse_if _ _ (
          Gives-then_record _ _
            (new_record-IsTask commit decomp decomp_path line (decomp_draft lib commit row status))
            rest))

  section_starts :
      (n : ℕ) (lines : List String) (found : Found) (title : String)
      → ((place : Place) (f : Found) → Tasks (catalog_lines lib commit f place (suc n) lines))
      → Tasks (elim (expected_section title) [
        | none ↦ catalog_lines lib commit found outside (suc n) lines
        | some next ↦
            catalog_lines lib commit (add_section next found) (inside next false) (suc n) lines
      ])
  section_starts n lines found title rest =
      Gives-elim (expected_section title) _ (rest outside found)
        (λ next. rest (inside next false) (add_section next found))

  catalog_lines-Tasks :
      (lines : List String) (found : Found) (place : Place) (n : ℕ)
      → Tasks (catalog_lines lib commit found place n lines)
  unfolding catalog_lines
  catalog_lines-Tasks [] found outside n = Gives-refuse_if _ _ (gives _ _ tt)
  catalog_lines-Tasks [] found (inside section header_seen) n =
      Gives-refuse_if (not header_seen) header_missing (
        Gives-refuse_if (not (found.queue_found && found.unused_found)) sections_missing
          (gives (All (IsTask commit)) [] tt))
  catalog_lines-Tasks (line ∷ lines) found outside n =
      let rest = λ (place : Place) (f : Found). catalog_lines-Tasks lines f place (suc n) in
      Gives-elim (section_heading line) _ (rest outside found)
        (λ title. section_starts n lines found title rest)
  catalog_lines-Tasks (line ∷ lines) found (inside section header_seen) n =
      let rest = λ (place : Place) (f : Found). catalog_lines-Tasks lines f place (suc n) in
      let more = rest (inside section header_seen) found in
      Gives-if _
        (Gives-refuse_if _ _ (
          Gives-elim (section_heading line) _ (rest outside found)
            (λ title. section_starts n lines found title rest)))
        (Gives-elim (table_cells line) _ more (λ cells.
          Gives-if _ (rest (inside section true) found) (
            Gives-if _ more (
              Gives-refuse_if _ _ (
                Gives-after _ _ (λ row. Gives-elim row _ more (λ draft.
                  Gives-then_record _ _ (new_record-IsTask commit catalog catalog_path n draft)
                    more)))))))

  pub parse_handoff-Tasks : (text : String) → Tasks (parse_handoff lib commit text)
  unfolding parse_handoff
  parse_handoff-Tasks text =
      Gives-kept _ (λ records. eqb (length records) 0) _
        (handoff_lines-Tasks (splitlines text) false 1)

  pub parse_qa-Tasks : (text : String) → Tasks (parse_qa lib commit text)
  unfolding parse_qa
  parse_qa-Tasks text = qa_lines-Tasks (splitlines text) false false 1

  pub parse_linkage-Tasks : (text : String) → Tasks (parse_linkage lib commit text)
  unfolding parse_linkage
  parse_linkage-Tasks text = Gives-after _ (linkage_rows lib commit) linkage_rows-Tasks

  pub parse_decomp-Tasks : (text : String) → Tasks (parse_decomp lib commit text)
  unfolding parse_decomp
  parse_decomp-Tasks text = Gives-after _ (decomp_rows lib commit) decomp_rows-Tasks

  pub parse_catalog-Tasks : (text : String) → Tasks (parse_catalog lib commit text)
  unfolding parse_catalog
  parse_catalog-Tasks text = catalog_lines-Tasks (splitlines text) _ outside 1

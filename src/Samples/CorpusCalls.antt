-- ===== src/Samples/CorpusCalls.antt =====
-- A small exported repository, and the theorems about the corpus at work on it.
use mathlib.Core.List.{Perm}
use jn_engine_contributor_mc.Base.{
  ℕ, ◌≤◌, String, true, false, Option, none, some, List, [], ◌∷◌, ◌==◌, ◌≡◌, refl, ◌↔◌, arith,
  if◌then◌else◌,
}
use jn_engine_contributor_mc.Base.Int.{pos}
use jn_engine_contributor_mc.Base.Lists.{All, length}
use jn_engine_contributor_mc.Base.Text.{text_length}
use jn_engine_contributor_mc.Base.Paths.{join, parts}
use jn_engine_contributor_mc.Python.Utf8.{utf8, as_char}
use jn_engine_contributor_mc.Corpus.{returns, raises, index_error, unsafe_path, stale_content_id}
use jn_engine_contributor_mc.Corpus.Policy.{included_roots, is_admitted_repository_path}
use jn_engine_contributor_mc.Corpus.Policy.Admitted.{
  IsAdmittedPath, is_admitted_repository_path-IsAdmittedPath, is_admitted_repository_path-raises,
}
use jn_engine_contributor_mc.Corpus.Scan.{
  Node, regular, directory, Listing, empty, entry, SnapshotFile, ScannedFile, scan_directory,
}
use jn_engine_contributor_mc.Corpus.Scan.Clean.{IsCorpusFile, IsCleanListing, files_below}
use jn_engine_contributor_mc.Corpus.Scan.Found.{
  scan_directory-returns_iff, scan_directory-IsCorpusFile,
}
use jn_engine_contributor_mc.Corpus.SafePath.{validate_relative_path}
use jn_engine_contributor_mc.Corpus.SafePath.Accepted.{IsSafe, validate_relative_path-returns_iff}
use jn_engine_contributor_mc.Corpus.SafePath.Errors.{IsUnsafe, validate_relative_path-raises}
use jn_engine_contributor_mc.Corpus.ContentId.{
  encode_content_id, decode_content_id, is_commit_hash, sample_commit, sample_id,
}
use jn_engine_contributor_mc.Corpus.ContentId.RoundTrip.{
  decode_content_id-encode_content_id, decode_content_id-IsSafe,
}
use jn_engine_contributor_mc.Corpus.Snapshot.{
  SnapshotManifest, Snapshot, Timestamp, Readers, expected_repository, expected_ref, file,
  validate_snapshot,
}
use jn_engine_contributor_mc.Corpus.Snapshot.Valid.{IsValidated, validate_snapshot-IsValidated}
use jn_engine_contributor_mc.Corpus.Snapshot.Lookup.{IsAdmittedFile, file-IsAdmittedFile}
use jn_engine_contributor_mc.Corpus.Reads.{
  directory_kind, regular_kind, Stat, Opened, Disk, read_text_bounded, resolve_relative_file,
  resolve_content_id,
}
use jn_engine_contributor_mc.Corpus.Reads.Bounded.{IsRead, read_text_bounded-IsRead}
use jn_engine_contributor_mc.Corpus.Reads.Resolved.{
  IsResolved, resolve_content_id-IsResolved, resolve_content_id-encode_content_id,
}
use jn_engine_contributor_mc.Corpus.Cite.{citation_url}
use jn_engine_contributor_mc.Corpus.Cite.Cited.{IsPositive, citation_url-IsSafe}

source_admitted : is_admitted_repository_path "src/main.c" ≡ returns true
unfolding is_admitted_repository_path
source_admitted = refl

is_admitted_repository_path-IsAdmittedPath_example : IsAdmittedPath "src/main.c"
is_admitted_repository_path-IsAdmittedPath_example =
    is_admitted_repository_path-IsAdmittedPath "src/main.c" source_admitted

dot_has_no_part : is_admitted_repository_path "." ≡ raises index_error
unfolding is_admitted_repository_path
dot_has_no_part = refl

is_admitted_repository_path-raises_example : (index_error ≡ index_error) × (parts "." ≡ [])
is_admitted_repository_path-raises_example =
    is_admitted_repository_path-raises "." index_error dot_has_no_part

validate_relative_path-returns_iff_example :
    (validate_relative_path "src/main.c" ≡ returns "src/main.c")
    ↔ (◌≡◌ {A = String} "src/main.c" "src/main.c" × IsSafe "src/main.c")
validate_relative_path-returns_iff_example =
    validate_relative_path-returns_iff "src/main.c" "src/main.c"

dots_refused :
    validate_relative_path "docs/./a.md" ≡ raises (unsafe_path "dot path segments are not allowed")
unfolding validate_relative_path
dots_refused = refl

validate_relative_path-raises_example : IsUnsafe (unsafe_path "dot path segments are not allowed")
validate_relative_path-raises_example =
    validate_relative_path-raises "docs/./a.md" (unsafe_path "dot path segments are not allowed")
      dots_refused

encode_sample : encode_content_id sample_commit "README.md" ≡ returns sample_id
unfolding encode_content_id
encode_sample = refl

id_is_short : text_length sample_id ≤ 8_192
id_is_short = omega arith

decode_content_id-encode_content_id_example :
    decode_content_id sample_id
    ≡ returns (record { commit = sample_commit; relative_path = "README.md" })
decode_content_id-encode_content_id_example =
    decode_content_id-encode_content_id sample_commit "README.md" sample_id encode_sample
      id_is_short

decode_content_id-IsSafe_example : (is_commit_hash sample_commit ≡ true) × IsSafe "README.md"
decode_content_id-IsSafe_example =
    decode_content_id-IsSafe sample_id
      (record { commit = sample_commit; relative_path = "README.md" })
      decode_content_id-encode_content_id_example

abbrev pub text_file : String → Node
text_file text =
    regular (record { links = 1; size = length (utf8 text); writable = false }) (some (utf8 text))

abbrev pub folder : Listing → Node
folder listing = directory true false listing

abbrev content : Listing
content = entry "src" (folder (entry "main.c" (text_file "int x;\n") empty)) (
    entry "README.md" (text_file "# Readme\nIt works\n") (
      entry "docs" (folder empty) (
        entry "AGENTS.md" (text_file "# Agents\n") (
          entry "tools" (folder empty) (
            entry "Makefile" (text_file "all:\n")
              (entry "web" (folder empty) (entry "instrument" (folder empty) empty)))))))

abbrev found : List ScannedFile
found =
    record {
      file = record { relative_path = "AGENTS.md"; size_bytes = 9 };
      body = utf8 "# Agents\n";
      writable = false;
    }
    ∷ record {
      file = record { relative_path = "Makefile"; size_bytes = 5 };
      body = utf8 "all:\n";
      writable = false;
    }
    ∷ record {
      file = record { relative_path = "README.md"; size_bytes = 18 };
      body = utf8 "# Readme\nIt works\n";
      writable = false;
    }
    ∷ record {
      file = record { relative_path = "src/main.c"; size_bytes = 7 };
      body = utf8 "int x;\n";
      writable = false;
    }
    ∷ []

content_scanned : scan_directory [] true content ≡ returns found
unfolding scan_directory is_admitted_repository_path utf8 join
content_scanned = refl

scan_directory-IsCorpusFile_example : All IsCorpusFile found × Perm found (files_below [] content)
scan_directory-IsCorpusFile_example = scan_directory-IsCorpusFile [] content found content_scanned

scan_directory-returns_iff_example :
    ((files : List ScannedFile) × (scan_directory [] true content ≡ returns files))
    ↔ IsCleanListing [] content
scan_directory-returns_iff_example = scan_directory-returns_iff [] content

abbrev noon : Timestamp
noon = record { seconds = pos 0; utc_offset = some (pos 0) }

abbrev digest : String
digest = "0123456789abcdef0123456789abcdef0123456789abcdef0123456789abcdef"

abbrev pub manifest : SnapshotManifest
manifest = record {
  schema_version = pos 1;
  repository = expected_repository;
  ref = expected_ref;
  commit = sample_commit;
  tree = sample_commit;
  commit_time = noon;
  created_at = noon;
  file_count = pos 4;
  total_bytes = pos 39;
  content_sha256 = digest;
  included_roots = included_roots;
}

-- Readers that know one manifest and one digest.
abbrev readers : Readers
readers = record { parse_manifest = λ bytes. some manifest; sha256 = λ bytes. digest }

abbrev exported : Option Node
exported =
    some (folder (entry "manifest.json" (text_file "{}") (entry "content" (folder content) empty)))

abbrev agents : SnapshotFile
agents = record { relative_path = "AGENTS.md"; size_bytes = 9 }

abbrev makefile : SnapshotFile
makefile = record { relative_path = "Makefile"; size_bytes = 5 }

abbrev pub readme : SnapshotFile
readme = record { relative_path = "README.md"; size_bytes = 18 }

abbrev pub main_file : SnapshotFile
main_file = record { relative_path = "src/main.c"; size_bytes = 7 }

abbrev pub snapshot : Snapshot
snapshot = record {
  manifest = manifest;
  files = agents ∷ makefile ∷ readme ∷ main_file ∷ [];
  files_by_path =
      ("AGENTS.md", agents)
      ∷ ("Makefile", makefile)
      ∷ ("README.md", readme)
      ∷ ("src/main.c", main_file)
      ∷ [];
}

exported_is_valid : validate_snapshot readers true exported ≡ returns snapshot
unfolding validate_snapshot is_admitted_repository_path join
exported_is_valid = refl

validate_snapshot-IsValidated_example : IsValidated readers true exported snapshot
validate_snapshot-IsValidated_example =
    validate_snapshot-IsValidated readers true exported snapshot exported_is_valid

readme_is_there : file snapshot "README.md" ≡ some readme
unfolding file
readme_is_there = refl

file-IsAdmittedFile_example : IsAdmittedFile readme × ◌≡◌ {A = String} "README.md" "README.md"
file-IsAdmittedFile_example =
    file-IsAdmittedFile readers true exported snapshot "README.md" readme exported_is_valid
      readme_is_there

abbrev file_stat : ℕ → Stat
file_stat n = record { kind = regular_kind; links = 1; size = n }

abbrev folder_stat : Stat
folder_stat = record { kind = directory_kind; links = 2; size = 4096 }

abbrev opened : String → Option Opened
opened text = some (record { stat = file_stat (length (utf8 text)); data_bytes = utf8 text })

-- The file system of the tests holds two of the files.
abbrev stat_at : List String → Option Stat
stat_at [] = none
stat_at (a ∷ []) =
    if a == "README.md" then some (file_stat 18) else if a == "src" then some folder_stat else none
stat_at (a ∷ b ∷ rest) = if b == "main.c" then some (file_stat 7) else none

abbrev open_at : List String → Option Opened
open_at [] = none
open_at (a ∷ []) = if a == "README.md" then opened "# Readme\nIt works\n" else none
open_at (a ∷ b ∷ rest) = if b == "main.c" then opened "int x;\n" else none

abbrev pub disk : Disk
disk = record { lstat = stat_at; contained = λ names. true; open_file = open_at }

cut_read : read_text_bounded disk 8 readme ≡ returns ("# Readme", true)
unfolding read_text_bounded utf8 as_char
cut_read = refl

read_text_bounded-IsRead_example : IsRead disk 8 readme "# Readme" true
read_text_bounded-IsRead_example = read_text_bounded-IsRead disk 8 readme "# Readme" true cut_read

readme_resolves : resolve_content_id disk snapshot sample_id ≡ returns readme
unfolding resolve_content_id as_char
readme_resolves = refl

resolve_content_id-IsResolved_example : IsResolved disk snapshot sample_id readme
resolve_content_id-IsResolved_example =
    resolve_content_id-IsResolved disk snapshot sample_id readme readme_resolves

resolve_content_id-encode_content_id_example : resolve_content_id disk snapshot sample_id ≡ (
    if sample_commit == sample_commit
    then resolve_relative_file disk snapshot "README.md"
    else raises stale_content_id)
resolve_content_id-encode_content_id_example =
    resolve_content_id-encode_content_id disk snapshot sample_commit "README.md" sample_id
      encode_sample id_is_short

line_cited :
    citation_url sample_commit "README.md" (some (pos 2))
    ≡ returns
        "https://github.com/alexscott2718-gif/jn-engine/blob/0123456789abcdef0123456789abcdef01234567/README.md#L2"
unfolding citation_url
line_cited = refl

citation_url-IsSafe_example :
    (is_commit_hash sample_commit ≡ true) × IsSafe "README.md" × IsPositive (some (pos 2))
citation_url-IsSafe_example =
    citation_url-IsSafe sample_commit "README.md" (some (pos 2)) _ line_cited

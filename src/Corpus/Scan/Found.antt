-- ===== src/Corpus/Scan/Found.antt =====
-- The walk of core/snapshot.py returns just on the clean trees, and finds all files of those.
use text.Mathlib.Text.{starts_with}
use mathlib.Core.List.{Perm}
use mathlib.Core.List.Perm
use jn_engine_contributor_mc.Base.{
  ◌≤◌, String, Bool, true, false, not, ◌&&◌, Option, none, some, List, [], ◌∷◌, ◌++◌, eqb, ◌==◌,
  ◌≡◌, refl, sym, subst, ap, ◌∙◌, ◌↔◌, not-false, eqb→eq, ltb_false→le, le→ltb_false,
}
use jn_engine_contributor_mc.Base.Lists.{All, All-append}
use jn_engine_contributor_mc.Base.Sort.{sort, second_of}
use jn_engine_contributor_mc.Base.Sort.Kept.{
  All-sort, All-of_sort, flat, flat-sort, All-second_of, All-of_second_of, flat-second_of,
}
use jn_engine_contributor_mc.Python.Utf8.{Bytes}
use jn_engine_contributor_mc.Corpus.{
  Outcome, returns, raises, after-returns, check-returns, returned, refuse_if, Failure,
  snapshot_error, ◌>>=◌, ◌>>◌,
}
use jn_engine_contributor_mc.Corpus.Policy.{
  one_of, approved_root_directories, max_file_bytes, is_admitted_repository_path,
}
use jn_engine_contributor_mc.Corpus.Scan.{
  Metadata, Node, uninspected, symlink, special, regular, directory, Listing, empty, entry,
  ScannedFile, path_of, looks_binary, scanned, admit_file, read_body, is_root, gather, name_leb,
  in_order, scan_entries, scan_node, scan_directory,
}
use jn_engine_contributor_mc.Corpus.Scan.Clean.{
  IsCorpusFile, IsReadableText, IsCleanListing, IsCleanNode, file_with, files_below, files_at,
}

abbrev Found : Type 0
Found = Outcome (List ScannedFile)

abbrev Returns : Found → Type 0
Returns o = (files : List ScannedFile) × (o ≡ returns files)

abbrev AreCorpusFiles : Found → Type 0
AreCorpusFiles o = (files : List ScannedFile) → o ≡ returns files → All IsCorpusFile files

abbrev files_in : Found → List ScannedFile
files_in (raises why) = []
files_in (returns files) = files

gather-Returns : (os : List Found) → All Returns os → Returns (gather os)
unfolding gather
gather-Returns [] h = ([], refl)
gather-Returns (o ∷ os) h =
    let (files, e) = h.0 in
    let (others, k) = gather-Returns os h.1 in (files ++ others, rw (e, k) refl)

gather-returns :
    (os : List Found) (files : List ScannedFile)
    → gather os ≡ returns files
    → All Returns os × (files ≡ flat files_in os)
unfolding gather flat
gather-returns [] files h = (tt, returned (λ fs. fs ≡ []) [] files h refl)
gather-returns (raises why ∷ os) files h = cc
gather-returns (returns fs ∷ os) files h =
    let (others, e, k) = after-returns (gather os) _ h in
    let (all_return, counted) = gather-returns os others e in
    (
      ((fs, refl), all_return),
      returned (λ x. x ≡ fs ++ flat files_in os) (fs ++ others) files k
          (ap (λ rest. fs ++ rest) counted),
    )

gather-AreCorpusFiles : (os : List Found) → All AreCorpusFiles os → AreCorpusFiles (gather os)
unfolding gather
gather-AreCorpusFiles [] h files e = returned (All IsCorpusFile) [] files e tt
gather-AreCorpusFiles (o ∷ os) h files e =
    let (fs, e1, k1) = after-returns o _ e in
    let (others, e2, k2) = after-returns (gather os) _ k1 in
    returned (All IsCorpusFile) (fs ++ others) files k2
      (All-append IsCorpusFile fs others (h.0 fs e1) (gather-AreCorpusFiles os h.1 others e2))

abbrev Named : Type 0
Named = List (String × Found)

in_order-Returns :
    (outcomes : Named) → All (λ o. Returns o.1) outcomes → Returns (in_order true outcomes)
unfolding in_order
in_order-Returns outcomes h = gather-Returns _ (
    All-second_of Returns (sort name_leb outcomes)
      (All-sort name_leb (λ o. Returns o.1) outcomes h))

in_order-returns :
    (listed : Bool) (outcomes : Named) (files : List ScannedFile)
    → in_order listed outcomes ≡ returns files
    → (listed ≡ true)
      × All (λ o. Returns o.1) outcomes
      × Perm files (flat (λ o. files_in o.1) outcomes)
unfolding in_order
in_order-returns false outcomes files h = cc
in_order-returns true outcomes files h =
    let sorted = sort name_leb outcomes in
    let (all_return, counted) = gather-returns (second_of sorted) files h in
    (
      refl,
      All-of_sort name_leb (λ o. Returns o.1) outcomes (All-of_second_of Returns sorted all_return),
      subst (λ fs. Perm fs (flat (λ o. files_in o.1) outcomes))
          (sym (counted ∙ flat-second_of files_in sorted))
          (flat-sort name_leb (λ o. files_in o.1) outcomes),
    )

in_order-AreCorpusFiles :
    (listed : Bool) (outcomes : Named)
    → All (λ o. AreCorpusFiles o.1) outcomes
    → AreCorpusFiles (in_order listed outcomes)
unfolding in_order
in_order-AreCorpusFiles false outcomes h = λ files e. cc
in_order-AreCorpusFiles true outcomes h = gather-AreCorpusFiles _ (
    All-second_of AreCorpusFiles (sort name_leb outcomes)
      (All-sort name_leb (λ o. AreCorpusFiles o.1) outcomes h))

module _ (path : String) (metadata : Metadata) where
  last_checks :
      (content : Option Bytes) (files : List ScannedFile)
      → is_admitted_repository_path path ≡ returns true
      → metadata.size ≤ max_file_bytes
      → (read_body content >>= λ body.
          refuse_if (looks_binary body) (snapshot_error "snapshot contains a binary file")
          >> returns (scanned path metadata body ∷ []))
        ≡ returns files
      → IsReadableText content × All IsCorpusFile files × (files ≡ file_with path metadata content)
  last_checks none files allowed small h = cc
  last_checks (some body) files allowed small h =
      let (text, k) = check-returns (looks_binary body) _ _ h in
      let f = scanned path metadata body in
      (
        text,
        returned (All IsCorpusFile) (f ∷ []) files k
            (record { admitted = allowed; small = small; text = text }, tt),
        returned (λ fs. fs ≡ f ∷ []) (f ∷ []) files k refl,
      )

  admit_file-returns :
      (content : Option Bytes) (files : List ScannedFile)
      → admit_file path metadata content ≡ returns files
      → ((metadata.links ≡ 1)
          × (is_admitted_repository_path path ≡ returns true)
          × (metadata.size ≤ max_file_bytes)
          × IsReadableText content)
        × All IsCorpusFile files
        × (files ≡ file_with path metadata content)
  unfolding admit_file
  admit_file-returns content files h =
      let (h1, k1) = check-returns _ _ _ h in
      let (admitted, h2, k2) = after-returns (is_admitted_repository_path path) _ k1 in
      let (h3, k3) = check-returns (not admitted) _ _ k2 in
      let (h4, k4) = check-returns _ _ _ k3 in
      let allowed = h2 ∙ ap returns (not-false admitted h3) in
      let small = ltb_false→le max_file_bytes metadata.size h4 in
      let (body, text, corpus) = last_checks content files allowed small k4 in
      ((eqb→eq metadata.links 1 (not-false _ h1), allowed, small, body), text, corpus)

  admit_file-Returns :
      (content : Option Bytes)
      → metadata.links ≡ 1
      → is_admitted_repository_path path ≡ returns true
      → metadata.size ≤ max_file_bytes
      → IsReadableText content
      → Returns (admit_file path metadata content)
  unfolding admit_file
  admit_file-Returns none single allowed small text = absurd text
  admit_file-Returns (some body) single allowed small text = (
    scanned path metadata body ∷ [],
    rw (ap (λ n. eqb n 1) single, allowed, le→ltb_false max_file_bytes metadata.size small, text)
        refl,
  )

-- The three facts of an entry: it returns on a clean node; then the node is clean and all its files are
-- found; and those are files of the corpus.
record IsFaithful (IsClean : Type 0) (files : List ScannedFile) (outcome : Found) : Type 0 where
  complete : IsClean → Returns outcome
  sound : (found : List ScannedFile) → outcome ≡ returns found → IsClean × Perm found files
  corpus : AreCorpusFiles outcome

refused-IsFaithful : (why : Failure) → IsFaithful ⊥ [] (raises why)
refused-IsFaithful why = record {
  complete = λ h. absurd h;
  sound = λ found h. cc;
  corpus = λ found h. cc;
}

-- A check before an entry adds its condition.
checked-IsFaithful :
    (test : Bool) (why : Failure) {C : Type 0} {n : List ScannedFile} {o : Found}
    → IsFaithful C n o
    → IsFaithful ((test ≡ false) × C) n (refuse_if test why >> o)
checked-IsFaithful true why f = record {
  complete = λ h. cc;
  sound = λ found h. cc;
  corpus = λ found h. cc;
}
checked-IsFaithful false why f = record {
  complete = λ h. f.complete h.1;
  sound = λ found h. let (clean, counted) = f.sound found h in ((refl, clean), counted);
  corpus = λ found h. f.corpus found h;
}

file-IsFaithful :
    (path : String) (metadata : Metadata) (content : Option Bytes)
    → IsFaithful
        ((metadata.links ≡ 1)
          × (is_admitted_repository_path path ≡ returns true)
          × (metadata.size ≤ max_file_bytes)
          × IsReadableText content)
        (file_with path metadata content)
        (admit_file path metadata content)
file-IsFaithful path metadata content = record {
  complete = λ h. admit_file-Returns path metadata content h.0 h.1 h.2 h.3;
  sound = λ found h.
      let (clean, corpus, counted) = admit_file-returns path metadata content found h in
      (clean, subst (λ fs. Perm fs (file_with path metadata content)) (sym counted) Perm.rfl);
  corpus = λ found h. (admit_file-returns path metadata content found h).1;
}

-- The facts of all the entries of a directory.
record AreFaithful (IsClean : Type 0) (files : List ScannedFile) (outcomes : Named) : Type 0 where
  complete : IsClean → All (λ o. Returns o.1) outcomes
  sound : All (λ o. Returns o.1) outcomes → IsClean × Perm (flat (λ o. files_in o.1) outcomes) files
  corpus : All (λ o. AreCorpusFiles o.1) outcomes

in_order-IsFaithful :
    (listed : Bool) (outcomes : Named) {C : Type 0} {n : List ScannedFile}
    → AreFaithful C n outcomes
    → IsFaithful ((listed ≡ true) × C) n (in_order listed outcomes)
in_order-IsFaithful listed outcomes f = record {
  complete = λ h.
      subst (λ b. Returns (in_order b outcomes)) (sym h.0)
        (in_order-Returns outcomes (f.complete h.1));
  sound = λ found h.
      let (all_listed, all_return, counted) = in_order-returns listed outcomes found h in
      let (clean, total) = f.sound all_return in ((all_listed, clean), Perm.trans counted total);
  corpus = in_order-AreCorpusFiles listed outcomes f.corpus;
}

append_two :
    (name : String) (o : Found) (rest : Named) (found : List ScannedFile) {m n : List ScannedFile}
    → o ≡ returns found
    → Perm found m
    → Perm (flat (λ o. files_in o.1) rest) n
    → Perm (flat (λ o. files_in o.1) ((name, o) ∷ rest)) (m ++ n)
unfolding flat
append_two name o rest found {m = m} {n = n} e c t =
    subst (λ (x : Found). Perm (files_in x ++ flat (λ o. files_in o.1) rest) (m ++ n)) (sym e)
      (Perm.append c t)

entry-AreFaithful :
    (name : String) (o : Found) (rest : Named) {C D E : Type 0} {m n : List ScannedFile}
    → IsFaithful (E × C) m o
    → AreFaithful D n rest
    → AreFaithful (E × C × D) (m ++ n) ((name, o) ∷ rest)
entry-AreFaithful name o rest f g = record {
  complete = λ h. (f.complete (h.0, h.1), g.complete h.2);
  sound = λ h.
      let (found, e) = h.0 in
      let (clean, counted) = f.sound found e in
      let (others, total) = g.sound h.1 in
      ((clean.0, clean.1, others), append_two name o rest found e counted total);
  corpus = (f.corpus, g.corpus);
}

mutual
  unfolding scan_entries IsCleanListing files_below flat

  entries-AreFaithful :
      (names : List String) (listing : Listing)
      → AreFaithful
          (IsCleanListing names listing)
          (files_below names listing)
          (scan_entries names listing)
  entries-AreFaithful names empty = record {
    complete = λ h. tt;
    sound = λ h. (tt, Perm.rfl);
    corpus = tt;
  }
  entries-AreFaithful names (entry name node rest) =
      entry-AreFaithful name _ _
        (checked-IsFaithful (starts_with name ".") _ (node-IsFaithful names name node))
        (entries-AreFaithful names rest)

  node-IsFaithful :
      (names : List String) (name : String) (node : Node)
      → IsFaithful
          (IsCleanNode names name node)
          (files_at names name node)
          (scan_node names name node)
  node-IsFaithful names name uninspected = refused-IsFaithful _
  node-IsFaithful names name symlink = refused-IsFaithful _
  node-IsFaithful names name special = refused-IsFaithful _
  node-IsFaithful names name (regular metadata content) =
      file-IsFaithful (path_of (names ++ name ∷ [])) metadata content
  node-IsFaithful names name (directory listed writable listing) =
      checked-IsFaithful (is_root names && not (one_of approved_root_directories name))
        (snapshot_error "snapshot contains an unapproved root directory")
        (checked-IsFaithful (path_of (names ++ name ∷ []) == "web/grn-catalog/vendor")
          (snapshot_error "snapshot contains an excluded vendored directory")
          (in_order-IsFaithful listed _ (entries-AreFaithful (names ++ name ∷ []) listing)))

-- The walk over a directory returns just where all that is below it is clean.
pub scan_directory-returns_iff :
    (names : List String) (listing : Listing)
    → ((files : List ScannedFile) × (scan_directory names true listing ≡ returns files))
      ↔ IsCleanListing names listing
unfolding scan_directory
scan_directory-returns_iff names listing =
    let f = in_order-IsFaithful true _ (entries-AreFaithful names listing) in
    (λ h. (f.sound h.0 h.1).0.1, λ h. f.complete (refl, h))

-- What the walk returns is the files of the tree, each once and in some order, with their paths, sizes and
-- bytes; each of them is one that the policy admits, of at most 1,000,000 bytes, and without a zero byte in
-- its first 4,096.
pub scan_directory-IsCorpusFile :
    (names : List String) (listing : Listing) (files : List ScannedFile)
    → scan_directory names true listing ≡ returns files
    → All IsCorpusFile files × Perm files (files_below names listing)
unfolding scan_directory
scan_directory-IsCorpusFile names listing files h =
    let f = in_order-IsFaithful true _ (entries-AreFaithful names listing) in
    (f.corpus files h, (f.sound files h).1)

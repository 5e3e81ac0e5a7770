-- ===== src/Corpus/Reads/Bounded.antt =====
-- What is read: a file that is still the inventory's, whole or cut at the bound.
use jn_engine_contributor_mc.Base.{
  ℕ, suc, ◌≤◌, String, Bool, true, false, not, Option, none, some, List, [], eqb, ltb, ◌≡◌, refl,
  subst, ap, ◌∙◌, ltb→lt, ltb_false→le, or_false, not-false, eqb→eq,
}
use jn_engine_contributor_mc.Base.Lists.{length, take}
use jn_engine_contributor_mc.Base.Paths.{parts}
use jn_engine_contributor_mc.Base.Text.{take_text, text_length}
use jn_engine_contributor_mc.Base.Text.Take.{
  take_text-length, take_text-whole, take_text-full, take-whole,
}
use jn_engine_contributor_mc.Python.Utf8.Lossy.{decode_replace}
use jn_engine_contributor_mc.Corpus.{returns, after-returns, check-returns, returned}
use jn_engine_contributor_mc.Corpus.Policy.{max_file_bytes}
use jn_engine_contributor_mc.Corpus.Scan.{SnapshotFile, looks_binary}
use jn_engine_contributor_mc.Corpus.Reads.{
  Stat, Opened, Disk, is_regular, is_changed, opened, check_parts, revalidate_file, bounded,
  read_text_bounded,
}

-- A single regular file of the size that the inventory has.
pub record IsInventoried (item : SnapshotFile) (s : Stat) : Type 0 where
  pub regular : is_regular s.kind ≡ true
  pub single : s.links ≡ 1
  pub same_size : s.size ≡ item.size_bytes
  pub small : s.size ≤ max_file_bytes

unchanged : (item : SnapshotFile) (s : Stat) → is_changed item s ≡ false → IsInventoried item s
unchanged item s h =
    let (regular, h1) = or_false (not (is_regular s.kind)) _ h in
    let (single, h2) = or_false (not (eqb s.links 1)) _ h1 in
    let (same, small) = or_false (not (eqb s.size item.size_bytes)) _ h2 in
    record {
      regular = not-false _ regular;
      single = eqb→eq s.links 1 (not-false _ single);
      same_size = eqb→eq s.size item.size_bytes (not-false _ same);
      small = ltb_false→le max_file_bytes s.size small;
    }

-- What a read returns: the bytes of the file that was opened, as a text, up to a number of characters.
pub record IsRead (disk : Disk) (max_chars : ℕ) (item : SnapshotFile) (text : String) (cut : Bool)
    : Type 0 where
  pub found : Opened
  pub found_is : disk.open_file (parts item.relative_path) ≡ some found
  pub same : IsInventoried item found.stat
  pub no_binary : looks_binary found.data_bytes ≡ false
  pub few_bytes : length found.data_bytes ≤ max_file_bytes
  pub text_is : text ≡ take_text max_chars (decode_replace found.data_bytes)
  pub bounded : text_length text ≤ max_chars
  pub whole : cut ≡ false → text ≡ decode_replace found.data_bytes
  pub filled : cut ≡ true → text_length text ≡ max_chars

opened_is : (o : Option Opened) (f : Opened) → opened o ≡ returns f → o ≡ some f
opened_is none f h = cc
opened_is (some g) f h = returned (λ x. some g ≡ some x) g f h refl

revalidate_file-parts :
    (disk : Disk) (item : SnapshotFile) (path : List String)
    → revalidate_file disk item ≡ returns path
    → parts item.relative_path ≡ path
unfolding revalidate_file
revalidate_file-parts disk item path h =
    let (done, h1, k1) = after-returns (check_parts disk item [] (parts item.relative_path)) _ h in
    let (h2, k2) = check-returns (not (disk.contained (parts item.relative_path))) _ _ k1 in
    returned (λ x. parts item.relative_path ≡ x) _ path k2 refl

-- What `read_text_bounded` returns is read from a single regular file of the inventory's size, which is at
-- most 1,000,000 bytes without a zero byte in the first 4,096. The text has at most `max_chars`
-- characters; it is the whole file if the flag is false, and has exactly `max_chars` if the flag is true.
pub read_text_bounded-IsRead :
    (disk : Disk) (max_chars : ℕ) (item : SnapshotFile) (text : String) (cut : Bool)
    → read_text_bounded disk max_chars item ≡ returns (text, cut)
    → IsRead disk max_chars item text cut
unfolding read_text_bounded bounded
read_text_bounded-IsRead disk max_chars item text cut h =
    let (path, h1, k1) = after-returns (revalidate_file disk item) _ h in
    let (found, h2, k2) = after-returns (opened (disk.open_file path)) _ k1 in
    let (h3, k3) = check-returns (is_changed item found.stat) _ _ k2 in
    let (h4, k4) =
      check-returns (ltb max_file_bytes (length (take (suc max_file_bytes) found.data_bytes))) _ _
        k3 in
    let (h5, k5) =
      check-returns (looks_binary (take (suc max_file_bytes) found.data_bytes)) _ _ k4 in
    let few =
      ltb_false→le max_file_bytes (length (take (suc max_file_bytes) found.data_bytes)) h4 in
    let all_bytes = take-whole max_file_bytes found.data_bytes few in
    let full = decode_replace found.data_bytes in
    let made =
      subst (λ bytes. returns (bounded max_chars (decode_replace bytes)) ≡ returns (text, cut))
        all_bytes k5 in
    let path_is = revalidate_file-parts disk item path h1 in
    returned (λ r. IsRead disk max_chars item r.0 r.1) (bounded max_chars full) (text, cut) made
      (record {
        found = found;
        found_is = ap (λ p. disk.open_file p) path_is ∙ opened_is _ found h2;
        same = unchanged item found.stat h3;
        no_binary = subst (λ bytes. looks_binary bytes ≡ false) all_bytes h5;
        few_bytes = subst (λ bytes. length bytes ≤ max_file_bytes) all_bytes few;
        text_is = refl;
        bounded = take_text-length max_chars full;
        whole = λ e. take_text-whole max_chars full (ltb_false→le max_chars (text_length full) e);
        filled = λ e. take_text-full max_chars full (ltb→lt max_chars (text_length full) e);
      })

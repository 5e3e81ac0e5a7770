-- ===== src/TaskIndex/Recorded.antt =====
-- What the parsers promise of every task, and how it passes through their calls.
use jn_engine_contributor_mc.Base.{
  ℕ, ◌≤◌, String, Bool, true, false, Option, none, some, List, ◌∷◌, ◌==◌, ◌≡◌, refl, Bool-cases,
  inl, inr, if◌then◌else◌,
}
use jn_engine_contributor_mc.Base.Int.{pos}
use jn_engine_contributor_mc.Base.Lists.{All}
use jn_engine_contributor_mc.Base.Text.{text_length}
use jn_engine_contributor_mc.Base.Text.Take.{take_text-length}
use jn_engine_contributor_mc.Corpus.{
  Outcome, returns, raises, Failure, after, ◌>>=◌, ◌>>◌, refuse_if, Outcome-cases, returned,
}
use jn_engine_contributor_mc.Corpus.Cite.{citation_url}
use jn_engine_contributor_mc.TaskIndex.{TaskSourceKind, TaskRecord}
use jn_engine_contributor_mc.TaskIndex.Texts.{squeeze, bounded, plain_markdown}
use jn_engine_contributor_mc.TaskIndex.Records.{Draft, new_record, then_record}

abbrev pub IsBounded : ℕ → Option String → Type 0
IsBounded n none = Unit
IsBounded n (some s) = text_length s ≤ n

-- A task of a commit: it cites that commit, its own file and line, and its texts are bounded.
pub record IsTask (commit : String) (task : TaskRecord) : Type 0 where
  pub commit_is : task.commit ≡ commit
  pub cites :
      citation_url commit task.source_path (some (pos task.source_line)) ≡ returns task.source_url
  pub title_bound : text_length task.title ≤ 500
  pub category_bound : IsBounded 200 task.category
  pub detail_bound : IsBounded 1_000 task.detail

bounded-IsBounded : (s : String) (n : ℕ) → IsBounded n (bounded s n)
unfolding bounded
bounded-IsBounded s n = elim (Bool-cases (squeeze s == "")) [
  | inl e ↦ rw (bounded, e) tt
  | inr e ↦ rw (bounded, e) (take_text-length n (squeeze s))
]

-- A call that returns only values of which P holds.
pub record Gives {ℓ} {A : Type ℓ} (P : A → Type 0) (m : Outcome A) : Type ℓ where
  pub given : (a : A) → m ≡ returns a → P a

pub raises_none {ℓ} : {A : Type ℓ} (P : A → Type 0) (why : Failure) → Gives P (raises why)
raises_none P why = record { given = λ a e. cc }

pub gives {ℓ} : {A : Type ℓ} (P : A → Type 0) (a : A) → P a → Gives P (returns a)
gives P a h = record { given = λ b e. returned P a b e h }

pub Gives-if {ℓ} :
    {A : Type ℓ} {P : A → Type 0} (b : Bool) {x y : Outcome A}
    → Gives P x
    → Gives P y
    → Gives P (if b then x else y)
Gives-if true h k = h
Gives-if false h k = k

pub Gives-refuse_if {ℓ} :
    {A : Type ℓ} {P : A → Type 0} (b : Bool) (why : Failure) {x : Outcome A}
    → Gives P x
    → Gives P (refuse_if b why >> x)
Gives-refuse_if true why h = raises_none _ why
Gives-refuse_if false why h = h

pub Gives-elim {ℓ κ} :
    {O : Type κ} {A : Type ℓ} {P : A → Type 0} (o : Option O) {x : Outcome A} (f : O → Outcome A)
    → Gives P x
    → ((a : O) → Gives P (f a))
    → Gives P (elim o [ none ↦ x | some a ↦ f a ])
Gives-elim none f h k = h
Gives-elim (some a) f h k = k a

pub Gives-after {ℓ κ} :
    {A : Type ℓ} {B : Type κ} {P : B → Type 0} (m : Outcome A) (f : A → Outcome B)
    → ((a : A) → Gives P (f a))
    → Gives P (after f m)
Gives-after (raises why) f h = raises_none _ why
Gives-after (returns a) f h = h a

pub Gives-chain {ℓ κ} :
    {A : Type ℓ} {B : Type κ} {P : A → Type 0} {Q : B → Type 0} (m : Outcome A) (f : A → Outcome B)
    → Gives P m
    → ((a : A) → P a → Gives Q (f a))
    → Gives Q (after f m)
Gives-chain (raises why) f h k = raises_none _ why
Gives-chain (returns a) f h k = k a (h.given a refl)

pub Gives-then_record :
    {P : TaskRecord → Type 0} (m : Outcome TaskRecord) (rest : Outcome (List TaskRecord))
    → Gives P m
    → Gives (All P) rest
    → Gives (All P) (then_record m rest)
Gives-then_record (raises why) rest h k = raises_none _ why
Gives-then_record (returns t) (raises why) h k = raises_none _ why
Gives-then_record {P = P} (returns t) (returns ts) h k =
    gives (All P) (t ∷ ts) (h.given t refl, k.given ts refl)

pub new_record-IsTask :
    (commit : String) (kind : TaskSourceKind) (path : String) (line : ℕ) (draft : Draft)
    → Gives (IsTask commit) (new_record commit kind path line draft)
unfolding new_record
new_record-IsTask commit kind path line draft =
    elim (Outcome-cases (citation_url commit path (some (pos line)))) [
      | inl (url, e) ↦
          rw (new_record, e)
            (gives _ _ (record {
              commit_is = refl;
              cites = e;
              title_bound = take_text-length 500 (plain_markdown draft.title);
              category_bound = bounded-IsBounded draft.category 200;
              detail_bound = bounded-IsBounded draft.detail 1_000;
            }))
      | inr (why, e) ↦ rw (new_record, e) (raises_none _ why)
    ]

-- A check of what a call gives, which then is returned.
pub Gives-kept {ℓ} :
    {A : Type ℓ} {P : A → Type 0} (m : Outcome A) (test : A → Bool) (why : Failure)
    → Gives P m
    → Gives P (m >>= λ a. (refuse_if (test a) why >> returns a))
Gives-kept (raises v) test why h = raises_none _ v
Gives-kept {P = P} (returns a) test why h =
    Gives-refuse_if (test a) why (gives P a (h.given a refl))

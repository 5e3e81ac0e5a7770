-- ===== src/CheckStatus/Steps.antt =====
-- The argument check and the readers of core/check_status.py.
use jn_engine_contributor_mc.Base.{
  ℕ, suc, String, Bool, true, false, not, ◌&&◌, ◌||◌, Option, none, some, List, [], ◌∷◌, ltb, leb,
  if◌then◌else◌, ◌==◌,
}
use jn_engine_contributor_mc.Base.Int.{ℤ, pos, negsuc, leb_ℤ, eqb_ℤ}
use jn_engine_contributor_mc.Base.Sort.{text_leb, pair_leb, sort, second_of}
use jn_engine_contributor_mc.Base.Lists.{any}
use jn_engine_contributor_mc.Base.Text.{
  any_char, strip, text_length, in_class, is_digit, is_control,
}
use jn_engine_contributor_mc.Python.Json.{
  Json, null, Fields, end, field, Items, nil, cons, get, as_dict, as_list, as_text, as_int,
  as_strict_int, as_bool,
}
use jn_engine_contributor_mc.Python.Result.{
  Exception, collaboration, other_exception, bad_args, upstream_unavailable, Result, ok, err, ◌>>=◌,
  ◌>>◌, raise_if,
}
use jn_engine_contributor_mc.Python.Dict.{Dict, lookup, insert}
use jn_engine_contributor_mc.CheckStatus.{
  missing, RequiredContext, StatusArtifact, Contexts, required_contexts, Conversions,
}
use jn_engine_contributor_mc.CheckStatus.Verdict.{context_state}

abbrev pub unavailable : Exception
unavailable = collaboration upstream_unavailable

abbrev pub is_null : Json → Bool
is_null null = true
is_null _ = false

abbrev is_hex : ℕ → Bool
is_hex c = is_digit c || ((leb b'a' c && leb c b'f') || (leb b'A' c && leb c b'F'))

-- `_COMMIT`
unfoldable pub is_commit : String → Bool
is_commit = in_class is_hex 40 40

abbrev is_pr_number : Json → Bool
is_pr_number v = elim (as_strict_int v) [ none ↦ false | some z ↦ leb_ℤ (pos 1) z ]

abbrev is_branch_text : Json → Bool
is_branch_text v = elim (as_text v) [
  | none ↦ false
  | some s ↦
      not (s == "") && (leb (text_length s) 255 && (s == strip s && not (any_char is_control s)))
]

abbrev is_commit_text : Json → Bool
is_commit_text v = elim (as_text v) [ none ↦ false | some s ↦ is_commit s ]

abbrev same_bool : Bool → Bool → Bool
same_bool true b = b
same_bool false b = not b

-- `_validate_request`
unfoldable pub validate_request : Json → Json → Json → Result (Unit {0})
validate_request pr branch commit = do
  raise_if (same_bool (is_null pr) (is_null branch))
      (collaboration (bad_args "provide exactly one of pr or branch"))
  raise_if (not (is_null pr) && not (is_pr_number pr))
      (collaboration (bad_args "pr must be a positive integer"))
  raise_if (not (is_null branch) && not (is_branch_text branch))
      (collaboration (bad_args "branch is invalid"))
  raise_if (not (is_null commit) && not (is_commit_text commit))
      (collaboration (bad_args "commit must be a full 40-character SHA"))

-- `_require_dict`, `_require_list`, `_require_string`
unfoldable pub require_dict : Json → Result Fields
require_dict v = elim (as_dict v) [ none ↦ err unavailable | some d ↦ ok d ]

unfoldable pub require_list : Json → Result Items
require_list v = elim (as_list v) [ none ↦ err unavailable | some xs ↦ ok xs ]

unfoldable pub require_string : Json → Result String
require_string v = elim (as_text v) [
  | none ↦ err unavailable
  | some s ↦ if s == "" then err unavailable else ok s
]

-- A count that GitHub gives: an `int` of at least zero.
unfoldable pub require_count : Json → Result ℕ
require_count v = elim (as_int v) [
  | none ↦ err unavailable
  | some z ↦ elim z [ pos n ↦ ok n | negsuc n ↦ err unavailable ]
]

abbrev pub items_length : Items → ℕ
items_length nil = 0
items_length (cons x xs) = suc (items_length xs)

-- The items of a page that holds all there are of `total`.
unfoldable pub whole_page : Json → Json → Result Items
whole_page total items = do
  page ← require_list items
  count ← require_count total
  raise_if (ltb (items_length page) count) unavailable
  ok page

unfoldable pub dicts : Items → Result (List Fields)
unfolding require_dict
dicts nil = ok []
dicts (cons x xs) = do d ← require_dict x; rest ← dicts xs; ok (d ∷ rest)

-- `d.get(key, default)`
abbrev pub get_or : Fields → String → Json → Json
get_or end key other = other
get_or (field k v rest) key other = if k == key then v else get_or rest key other

-- A run with its sort key.
abbrev pub Keyed : Type 0
Keyed = (String × ℤ) × Fields

abbrev pub later : Keyed → Keyed → Bool
later (k, r) (l, s) = pair_leb leb_ℤ l k

module _ (conv : Conversions) where
  unfoldable pub keyed : List Fields → Result (List Keyed)
  keyed [] = ok []
  keyed (run ∷ runs) = elim (conv.to_int (get_or run "id" (Json.int (pos 0)))) [
    | none ↦ err other_exception
    | some id ↦ keyed runs >>= λ rest.
        ok (((conv.to_str (get_or run "created_at" (Json.str "")), id), run) ∷ rest)
  ]

  -- `runs.sort(…, reverse=True)`
  unfoldable pub newest_first : List Fields → Result (List Fields)
  unfolding sort keyed
  newest_first runs = keyed runs >>= λ ks. ok (second_of (sort later ks))

-- What the loop over the runs has found: the contexts, and the runs that they are of.
pub record Found : Type 0 where
  pub contexts : Dict RequiredContext
  pub runs : List (ℤ × Json)

abbrev pub nothing_found : Found
nothing_found = record { contexts = []; runs = [] }

-- `name in REQUIRED_CONTEXTS`, with the name.
abbrev pub required_name : Json → Option String
required_name v = elim (as_text v) [
  | none ↦ none
  | some s ↦ if any (λ n. s == n) required_contexts then some s else none
]

abbrev pub is_found {ℓ} : {A : Type ℓ} → Option A → Bool
is_found none = false
is_found (some a) = true

module _ {ℓ} {A : Type ℓ} where
  -- `d[key] = v` for an `int` key.
  unfoldable pub put : ℤ → A → List (ℤ × A) → List (ℤ × A)
  put k v [] = (k, v) ∷ []
  put k v ((j, w) ∷ d) = let rest = put k v d in if eqb_ℤ j k then (j, v) ∷ d else (j, w) ∷ rest

module _ (number : ℤ) (run_id : Json) (run_url : String) where
  abbrev pub context_of : Fields → RequiredContext
  context_of job = record {
    state = context_state job;
    run_id = some run_id;
    run_url = some run_url;
    started_at = as_text (get job "started_at");
    completed_at = as_text (get job "completed_at");
  }

  -- The body of the loop over the jobs of a run.
  unfoldable pub add_job : Found → Fields → Found
  unfolding put
  add_job found job = elim (required_name (get job "name")) [
    | none ↦ found
    | some name ↦ if is_found (lookup name found.contexts) then found else record {
      contexts = insert name (context_of job) found.contexts;
      runs = put number run_id found.runs;
    }
  ]

  unfoldable pub add_jobs : Found → Items → Result Found
  unfolding add_job require_dict
  add_jobs found nil = ok found
  add_jobs found (cons raw rest) = require_dict raw >>= λ job. add_jobs (add_job found job) rest

abbrev pub no_context : RequiredContext
no_context = record {
  state = missing;
  run_id = none;
  run_url = none;
  started_at = none;
  completed_at = none;
}

abbrev pub or_missing : Option RequiredContext → RequiredContext
or_missing none = no_context
or_missing (some c) = c

-- `contexts`
unfoldable pub contexts_of : Dict RequiredContext → Contexts
contexts_of found = record {
  core = or_missing (lookup "core" found);
  assets = or_missing (lookup "assets" found);
}

-- The body of the loop over the artifacts of a run.
unfoldable pub read_artifact : Fields → Result (ℤ × StatusArtifact)
read_artifact a = elim (as_int (get a "id")) [
  | none ↦ err unavailable
  | some id ↦ elim (as_text (get a "name")) [
    | none ↦ err unavailable
    | some name ↦ elim (as_int (get a "size_in_bytes")) [
      | none ↦ err unavailable
      | some size ↦ elim (as_text (get a "archive_download_url")) [
        | none ↦ err unavailable
        | some url ↦ elim (as_bool (get a "expired")) [
          | none ↦ err unavailable
          | some expired ↦
              ok (
                id,
                record { name = name; size_bytes = size; download_url = url; expired = expired },
              )
        ]
      ]
    ]
  ]
]

unfoldable pub add_artifacts :
    List (ℤ × StatusArtifact) → Items → Result (List (ℤ × StatusArtifact))
unfolding require_dict read_artifact put
add_artifacts found nil = ok found
add_artifacts found (cons raw rest) = require_dict raw >>= λ a.
    read_artifact a >>= λ entry. add_artifacts (put entry.0 entry.1 found) rest

abbrev artifact_leb : StatusArtifact → StatusArtifact → Bool
artifact_leb a b = pair_leb text_leb (a.name, a.download_url) (b.name, b.download_url)

unfoldable pub sorted_artifacts : List (ℤ × StatusArtifact) → List StatusArtifact
unfolding sort
sorted_artifacts found = sort artifact_leb (second_of found)

abbrev number_leb : ℤ × Json → ℤ × Json → Bool
number_leb a b = leb_ℤ a.0 b.0

-- `sorted(artifact_run_ids)`
unfoldable pub sorted_runs : List (ℤ × Json) → List (ℤ × Json)
unfolding sort
sorted_runs runs = sort number_leb runs

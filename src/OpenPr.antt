-- ===== src/OpenPr.antt =====
-- core/open_pr.py: the only write path of the gateway, a branch under contrib/ and a pull request.
pub mod Validate
pub mod Steps
pub mod Service
pub mod Accepted
pub mod Requests
pub mod Safety
pub mod Order
pub mod Mutations
pub mod Trailer
use jn_engine_contributor_mc.Base.{ℕ, String, Bool, Option, List}
use jn_engine_contributor_mc.Python.Json.{Json}

abbrev pub repository : String
repository = "alexscott2718-gif/jn-engine"

abbrev pub protected_base_branch : String
protected_base_branch = "master"

abbrev pub branch_prefix : String
branch_prefix = "contrib/"

abbrev pub max_files : ℕ
max_files = 32

abbrev pub max_file_chars : ℕ
max_file_chars = 200000

abbrev pub max_total_chars : ℕ
max_total_chars = 1000000

abbrev pub max_path_chars : ℕ
max_path_chars = 300

pub record ProposedFile : Type 0 where
  pub path : String
  pub content : String

-- An entry of `files`: a `ProposedFile`, or any other value.
pub data FileEntry : Type 0 where
  proposed : ProposedFile → FileEntry
  value : Json → FileEntry

-- The arguments of `open_pr`; `files` is `none` where it is neither a list nor a tuple.
pub record Arguments : Type 0 where
  pub branch : Json
  pub title : Json
  pub body : Json
  pub files : Option (List FileEntry)
  pub idempotency_key : Json
  pub caller_identity : String
  pub expected_base_commit : Json

-- The arguments once they are validated.
pub record Proposal : Type 0 where
  pub branch : String
  pub title : String
  pub body : String
  pub files : List ProposedFile
  pub key : String
  pub expected_base : Option String

-- `OpenedPr`
pub record OpenedPr : Type 0 where
  pub repository_name : String
  pub base_ref : String
  pub base_commit : String
  pub branch : String
  pub head_commit : String
  pub pr_number : ℕ
  pub pr_url : String
  pub created_branch : Bool
  pub replayed : Bool
  pub opened_at : String

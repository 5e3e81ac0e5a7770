-- ===== src/Github.antt =====
-- collaboration/github.py: the sessions of the GitHub client. GitHub answers each request by a
-- function of the requests before it, so a theorem holds for every remote.
pub mod Session
pub mod Retry
pub mod Emits
pub mod Reads
pub mod Answered
use jn_engine_contributor_mc.Base.{ℕ, String, Bool, Option, List}
use jn_engine_contributor_mc.Base.Int.{ℤ}
use jn_engine_contributor_mc.Python.Json.{Json, Fields}

pub data Method : Type 0 where
  get_method : Method
  post_method : Method

-- A request to the API: `body` is the JSON of a POST, and `params` the query of a GET.
pub record Request : Type 0 where
  pub method : Method
  pub path : String
  pub params : Fields
  pub body : Json

-- `body` is `none` where `response.json()` raises.
pub record Response : Type 0 where
  pub status : ℕ
  pub body : Option Json
  pub text : String
  pub retry_after : Option String
  pub remaining : Option String

-- `request_error` is an `httpx.RequestError`.
pub data Reply : Type 0 where
  request_error : Reply
  response : Response → Reply

abbrev pub Remote : Type 0
Remote = List Request → Request → Reply

-- What the code uses of Python's text and float functions: `str.casefold`, `str.lower`, and a text
-- as a number of milliseconds, with `none` where `float` or `time.sleep` raises.
pub record Library : Type 0 where
  pub casefold : String → String
  pub lower : String → String
  pub millis : String → Option ℤ

-- The state of one call: its session, with the requests and the sleeps in their order, and the
-- local variables that its audit record reads.
pub record Trail : Type 0 where
  pub sent : List Request
  pub statuses : List ℕ
  pub slept : List ℕ
  pub base : Option String
  pub head : Option String

-- ===== src/Samples/GithubCalls.antt =====
-- Calls through the GitHub client, and the theorem about its retries at work on them.
use jn_engine_contributor_mc.Base.{ℕ, ◌≡◌, refl, none, some, [], ◌∷◌}
use jn_engine_contributor_mc.Python.Json.{Json, end, field, str, null, as_dict}
use jn_engine_contributor_mc.Python.Result.{not_found}
use jn_engine_contributor_mc.Github.{Request, Reply, response, Remote, Library, get_method}
use jn_engine_contributor_mc.Github.Session.{
  fetch, attempt_once, new_trail, settled, accepted, is_transient, rate_limited, delay_for,
}
use jn_engine_contributor_mc.Github.Retry.{Bounded, fetch_bounds}

abbrev pub plain : Library
plain = record { casefold = λ s. s; lower = λ s. s; millis = λ s. none }

abbrev pub answer : ℕ → Json → Reply
answer status body =
    response (record {
      status = status;
      body = some body;
      text = "";
      retry_after = none;
      remaining = none;
    })

-- Out of service at the first request, then there.
abbrev flaky : Remote
flaky [] q = answer 503 null
flaky (p ∷ sent) q = answer 200 (Json.obj (field "sha" (str "c1") end))

abbrev ask : Request
ask = record { method = get_method; path = "/x"; params = end; body = null }

retried_once : (fetch plain as_dict flaky not_found ask 3 new_trail).1.statuses ≡ 503 ∷ 200 ∷ []
unfolding fetch attempt_once settled accepted is_transient rate_limited delay_for
retried_once = refl

fetch_bounds_example :
    Bounded plain as_dict not_found flaky ask 2 new_trail
      (fetch plain as_dict flaky not_found ask 3 new_trail).1
fetch_bounds_example = fetch_bounds plain as_dict not_found flaky ask 2 new_trail

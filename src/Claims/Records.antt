-- ===== src/Claims/Records.antt =====
-- How the reader of the ledger takes the records that core/task_claims.py writes.
use jn_engine_contributor_mc.Base.{
  ℕ, ◌+◌, ◌*◌, ◌/◌, ◌≤◌, ◌<◌, ◌≡◌, refl, String, Bool, true, false, ◌||◌, some, List, [], ◌∷◌, ◌++◌,
  arith, ◌==◌, ltb, leb,
}
use jn_engine_contributor_mc.Base.Text.{text_length}
use jn_engine_contributor_mc.Python.Json.{Json, str, Fields, get}
use jn_engine_contributor_mc.Python.Result.{
  ErrorCode, credential_unavailable_code, ok, err, code_text, ◌>>=◌,
}
use jn_engine_contributor_mc.Python.Dict.{lookup, insert, erase}
use jn_engine_contributor_mc.Claims.{
  Service, Calendar, IsFaithful, ActiveClaim, minutes, second, max_claim_minutes, min_claim_minutes,
}
use jn_engine_contributor_mc.Claims.Validate.{
  is_identity, is_task_id, is_idempotency_key, is_claim_id, text_such,
}
use jn_engine_contributor_mc.Claims.Ledger.{
  Claims, arg, parse_timestamp, claimed_entry, add_claim, drop_claim, read_record, read_ledger,
}
use jn_engine_contributor_mc.Claims.Body.{Locals}
use jn_engine_contributor_mc.Claims.Operations.{claim_record, release_record, valid_or_safe}

pub read_ledger-append :
    (c : Calendar) (printable : ℕ → Bool) (claims : Claims) (records : List Fields) (r : Fields)
    → read_ledger c printable claims (records ++ r ∷ [])
      ≡ (read_ledger c printable claims records >>= λ claims'. read_record c printable claims' r)
unfolding read_ledger
read_ledger-append c printable claims [] r =
    elim (read_record c printable claims r) as (λ m. (m >>= λ claims'. ok claims') ≡ m) [
      | ok a ↦ refl
      | err e ↦ refl
    ]
read_ledger-append c printable claims (q ∷ records) r =
    elim (read_record c printable claims q)
      as (λ m. (m >>= λ claims'. read_ledger c printable claims' (records ++ r ∷ [])) ≡ (
        (m >>= λ claims'. read_ledger c printable claims' records) >>= λ claims'.
        read_record c printable claims' r)) [
          | ok a ↦ read_ledger-append c printable a records r
          | err e ↦ refl
        ]

module _ (s : Service) (now : ℕ) (claims : Claims) (l : Locals) where
  -- A record of a claim that was not granted changes nothing.
  pub read_record-claim :
      (task_id key caller : Json) (outcome : String)
      → (outcome == "claimed") ≡ false
      → read_record s.calendar s.printable claims (claim_record s now task_id key caller l outcome)
        ≡ ok claims
  unfolding read_record get
  read_record-claim task_id key caller outcome h = rw h

  pub read_record-release :
      (task_id claim_id caller : Json) (outcome : String)
      → (outcome == "released") ≡ false
      → read_record s.calendar s.printable claims
          (release_record s now task_id claim_id caller l outcome)
        ≡ ok claims
  unfolding read_record get
  read_record-release task_id claim_id caller outcome h = rw h

pub code_text-ne :
    (c : ErrorCode) → ((code_text c == "claimed") ≡ false) × ((code_text c == "released") ≡ false)
code_text-ne credential_unavailable_code = (refl, refl)
code_text-ne _ = (refl, refl)

text_such_lem : (p : String → Bool) (t : String) → p t ≡ true → text_such p (str t) ≡ some t
unfolding text_such
text_such_lem p t h = rw h

-- A timestamp that `datetime` can write is read back, less the fraction of a second.
pub parse_timestamp-format :
    (c : Calendar)
    → IsFaithful c
    → (t : ℕ) → t < c.horizon
    → parse_timestamp c (c.format t) ≡ ok (t / second * second)
unfolding parse_timestamp
parse_timestamp-format c f t h =
    rw (leb_false (text_length (c.format t)) (f.format_length t h), f.parse-format t h) refl
  where
    leb_false : (n : ℕ) → n ≤ 32 → ltb 32 n ≡ false
    leb_false n k = ground arith

-- From its start to its expiry a granted claim lasts a whole number of minutes within bounds.
in_window :
    (now d : ℕ)
    → min_claim_minutes ≤ d
    → d ≤ max_claim_minutes
    → (leb ((now + minutes d) / second * second) (now / second * second)
        || ltb
            (now / second * second + minutes max_claim_minutes)
            ((now + minutes d) / second * second))
      ≡ false
in_window now d low high = ground arith

module _ (s : Service) (faithful : IsFaithful s.calendar) (now d : ℕ) (claims : Claims)
    (id key owner claim_id : String) (id_ok : is_task_id id ≡ true)
    (key_ok : is_idempotency_key key ≡ true) (owner_ok : is_identity s.printable owner ≡ true)
    (claim_ok : is_claim_id claim_id ≡ true) (low : min_claim_minutes ≤ d)
    (high : d ≤ max_claim_minutes) (room : now + minutes d < s.calendar.horizon) where
  abbrev pub granted_locals : Locals
  granted_locals = record {
    owner = some owner;
    task_id = some id;
    key = some key;
    duration = some d;
    claim_id = some claim_id;
    claimed_at = some (s.calendar.format now);
    expires_at = some (s.calendar.format (now + minutes d));
  }

  abbrev pub granted_claim : ActiveClaim
  granted_claim = record {
    task_id = id;
    claim_id = claim_id;
    owner = owner;
    idempotency_key = key;
    claimed_at = s.calendar.format now;
    expires_at = s.calendar.format (now + minutes d);
  }

  claimed_entry-granted :
      (task_id idempotency_key caller : Json)
      → claimed_entry s.calendar s.printable
          (claim_record s now task_id idempotency_key caller granted_locals "claimed")
        ≡ some granted_claim
  unfolding claimed_entry get arg valid_or_safe
  claimed_entry-granted task_id idempotency_key caller = ground (
    arith,
    text_such_lem is_task_id id id_ok,
    text_such_lem is_idempotency_key key key_ok,
    text_such_lem (is_identity s.printable) owner owner_ok,
    text_such_lem is_claim_id claim_id claim_ok,
  )

  pub read_record-granted :
      (task_id idempotency_key caller : Json)
      → read_record s.calendar s.printable claims
          (claim_record s now task_id idempotency_key caller granted_locals "claimed")
        ≡ ok (insert id granted_claim claims)
  unfolding read_record get add_claim
  read_record-granted task_id idempotency_key caller =
      rw
        (
          claimed_entry-granted task_id idempotency_key caller,
          parse_timestamp-format s.calendar faithful now (omega arith),
          parse_timestamp-format s.calendar faithful (now + minutes d) room,
        )
        (rw (in_window now d low high))

-- A record of a release removes the claim that it names.
pub read_record-released :
    (s : Service) (now : ℕ) (claims : Claims) (l : Locals) (id owner claim_id : String)
    (active : ActiveClaim)
    → l.owner ≡ some owner
    → l.task_id ≡ some id
    → l.claim_id ≡ some claim_id
    → is_task_id id ≡ true
    → is_identity s.printable owner ≡ true
    → is_claim_id claim_id ≡ true
    → lookup id claims ≡ some active
    → (active.owner == owner) ≡ true
    → (active.claim_id == claim_id) ≡ true
    → (task_id claim caller : Json)
    → read_record s.calendar s.printable claims
        (release_record s now task_id claim caller l "released")
      ≡ ok (erase id claims)
unfolding read_record get drop_claim arg valid_or_safe
read_record-released s now claims l id owner claim_id active lo lt lc vt vo vc held so sc task_id
      claim caller =
    ground (
      arith,
      text_such_lem is_task_id id vt,
      text_such_lem (is_identity s.printable) owner vo,
      text_such_lem is_claim_id claim_id vc,
    )

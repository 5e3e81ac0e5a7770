-- ===== src/Claims/Wellformed.antt =====
-- What every readable ledger stands for: one claim for a task, each with an expiry that is read.
use jn_engine_contributor_mc.Base.{
  ℕ, ◌≡◌, refl, subst, ◌⊎◌, inl, inr, String, Bool, Option, none, some, List, [], ◌∷◌, arith,
  eq_iff, ltb, if◌then◌else◌,
}
use jn_engine_contributor_mc.Python.Json.{Fields}
use jn_engine_contributor_mc.Python.Result.{ok, err, >>=-eq-ok}
use jn_engine_contributor_mc.Python.Dict.{lookup, insert, erase, lookup-insert, lookup-erase}
use jn_engine_contributor_mc.Claims.{Calendar, ActiveClaim}
use jn_engine_contributor_mc.Claims.Validate.{is_task_id, text_such, or_raise}
use jn_engine_contributor_mc.Claims.Ledger.{
  Claims, arg, parse_timestamp, claimed_entry, add_claim, drop_claim, read_record, read_ledger,
  unexpired,
}

module _ (c : Calendar) (printable : ℕ → Bool) where
  abbrev pub HasExpiry : ActiveClaim → Type 0
  HasExpiry a = (t : ℕ) × (parse_timestamp c a.expires_at ≡ ok t)

  -- No task has two claims, and each claim has an expiry.
  abbrev pub IsValid : Claims → Type 0
  IsValid [] = Unit
  IsValid ((k, a) ∷ claims) = (lookup k claims ≡ none) × HasExpiry a × IsValid claims

  insert-IsValid :
      (k : String) (a : ActiveClaim) (claims : Claims)
      → HasExpiry a
      → IsValid claims
      → IsValid (insert k a claims)
  unfolding insert lookup
  insert-IsValid k a [] e v = (refl, e, tt)
  insert-IsValid k a ((j, b) ∷ claims) e (fresh, eb, v) =
      ground
        (arith, eq_iff j k, eq_iff k j, insert-IsValid k a claims e v, lookup-insert k j a claims)

  erase-IsValid : (k : String) (claims : Claims) → IsValid claims → IsValid (erase k claims)
  unfolding erase lookup
  erase-IsValid k [] v = tt
  erase-IsValid k ((j, b) ∷ claims) (fresh, eb, v) =
      ground (arith, eq_iff j k, eq_iff k j, erase-IsValid k claims v, lookup-erase k j claims)

  -- A granted claim is one more entry, and its expiry was read.
  add_claim-ok :
      (claims claims' : Claims) (r : Fields)
      → add_claim c printable claims r ≡ ok claims'
      → (a : ActiveClaim) × HasExpiry a × (claims' ≡ insert a.task_id a claims)
  unfolding add_claim
  add_claim-ok claims claims' r h =
      let (a, p, h₁) = >>=-eq-ok (or_raise (claimed_entry c printable r) _) _ h in
      let (begun, q, h₂) = >>=-eq-ok (parse_timestamp c a.claimed_at) _ h₁ in
      let (t, e, h₃) = >>=-eq-ok (parse_timestamp c a.expires_at) _ h₂ in (a, (t, e), ground arith)

  drop_claim-ok :
      (claims claims' : Claims) (r : Fields)
      → drop_claim c printable claims r ≡ ok claims'
      → (id : String) × (claims' ≡ erase id claims)
  unfolding drop_claim
  drop_claim-ok claims claims' r h =
      let (id, p, h₁) = >>=-eq-ok (or_raise (text_such is_task_id (arg r "task_id")) _) _ h in
      (id, ground arith)

  read_record-cases :
      (claims claims' : Claims) (r : Fields)
      → read_record c printable claims r ≡ ok claims'
      → (claims' ≡ claims)
        ⊎ (add_claim c printable claims r ≡ ok claims')
        ⊎ (drop_claim c printable claims r ≡ ok claims')
  unfolding read_record
  read_record-cases claims claims' r h = ground arith

  read_record-IsValid :
      (claims claims' : Claims) (r : Fields)
      → IsValid claims
      → read_record c printable claims r ≡ ok claims'
      → IsValid claims'
  read_record-IsValid claims claims' r v h = elim (read_record-cases claims claims' r h) [
    | inl same ↦ rw same v
    | inr (inl added) ↦
        let (a, e, p) = add_claim-ok claims claims' r added in
        rw p (insert-IsValid a.task_id a claims e v)
    | inr (inr dropped) ↦
        let (id, p) = drop_claim-ok claims claims' r dropped in rw p (erase-IsValid id claims v)
  ]

  -- The claims that a readable ledger stands for are well-formed if those at the start are: no task has
  -- two claims, and each claim's expiry is a timestamp that is read.
  pub read_ledger-IsValid :
      (claims : Claims) (records : List Fields) {claims' : Claims}
      → IsValid claims
      → read_ledger c printable claims records ≡ ok claims'
      → IsValid claims'
  unfolding read_ledger
  read_ledger-IsValid claims [] {claims'} v h = subst IsValid (ground arith) v
  read_ledger-IsValid claims (r ∷ records) v h =
      let (next, p, q) = >>=-eq-ok (read_record c printable claims r) _ h in
      read_ledger-IsValid next records (read_record-IsValid claims next r v p) q

  -- What `ledger_claims` keeps of the claim on a task.
  abbrev pub live : ℕ → Option ActiveClaim → Option ActiveClaim
  live now none = none
  live now (some a) = elim (parse_timestamp c a.expires_at) [
    | ok t ↦ if ltb now t then some a else none
    | err e ↦ none
  ]

  pub unexpired_lem :
      (now : ℕ) (claims : Claims)
      → IsValid claims
      → (active : Claims) × (unexpired c printable now claims ≡ ok active)
        × ((k : String) → lookup k active ≡ live now (lookup k claims))
  unfolding unexpired lookup
  unexpired_lem now [] v = ([], refl, λ k. refl)
  unexpired_lem now ((j, a) ∷ claims) (fresh, (t, e), v) =
      let (active, p, q) = unexpired_lem now claims v in
      (
        if ltb now t then (j, a) ∷ active else active,
        rw (e, p) refl,
        λ k. ground (arith, q k, eq_iff j k),
      )

  pub live-some :
      (now : ℕ) (o : Option ActiveClaim) {a : ActiveClaim} → live now o ≡ some a → o ≡ some a
  live-some now none e = cc
  live-some now (some b) e = ground arith

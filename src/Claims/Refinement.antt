-- ===== src/Claims/Refinement.antt =====
-- The claim service as a registry of claims: each call of core/task_claims.py appends one record,
-- and the ledger then stands for the registry after one permitted step.
use jn_engine_contributor_mc.Base.{
  ℕ, ◌+◌, ◌*◌, ◌/◌, ◌≤◌, ◌<◌, ◌≡◌, refl, sym, ◌∙◌, ap, ◌⊎◌, inl, inr, String, true, false, Option,
  none, some, Option-cases, List, [], ◌∷◌, ◌++◌, arith, eq_iff,
}
use jn_engine_contributor_mc.Python.Json.{Json, Fields, str}
use jn_engine_contributor_mc.Python.Result.{Result, ok, code_text}
use jn_engine_contributor_mc.Python.Dict.{lookup, insert, erase}
use jn_engine_contributor_mc.Audit.{Decision}
use jn_engine_contributor_mc.Claims.{
  Service, IsFaithful, ActiveClaim, ClaimedTask, ReleasedTask, minutes, second, min_claim_minutes,
  max_claim_minutes,
}
use jn_engine_contributor_mc.Claims.Validate.{is_claim_id}
use jn_engine_contributor_mc.Claims.Ledger.{
  Claims, parse_timestamp, read_record, read_ledger, ledger_claims,
}
use jn_engine_contributor_mc.Claims.Body.{Locals, start, claim_body, release_body}
use jn_engine_contributor_mc.Claims.Operations.{
  claim_decide, release_decide, claim_record, release_record, claim_outcome, release_outcome,
}
use jn_engine_contributor_mc.Claims.Records.{
  read_ledger-append, read_record-claim, read_record-release, read_record-granted,
  read_record-released, granted_claim, code_text-ne, parse_timestamp-format,
}
use jn_engine_contributor_mc.Claims.Wellformed.{live, read_ledger-IsValid, unexpired_lem, live-some}
use jn_engine_contributor_mc.Claims.Inversion.{
  conclude-cases, Passed, claim_body-ok, claim_body-Passed, passed_locals, grant-ok, replay-ok,
  release_body-ok, release_body-ReleasePassed, release_held-ok, bounded_identity-ok,
  valid_task_id-ok, valid_idempotency_key-ok, valid_claim_id-ok, valid_duration-ok,
}

-- Who asks for the end of a claim: the task ID, the caller and the claim ID that a call was given.
abbrev pub Releaser : Type 0
Releaser = Option (Json × Json × Json)

module _ (s : Service) (now : ℕ) where
  -- A permitted step of the registry: nothing, a claim on a task that no one holds, for 15 to 1440
  -- minutes from now, or the end of a claim that is held, at its owner's request.
  pub data Transition (by : Releaser) (claims : Claims) : Claims → Type 0 where
    stay : Transition by claims claims
    claimed :
        (a : ActiveClaim) (d : ℕ)
        → live s.calendar s.printable now (lookup a.task_id claims) ≡ none
        → min_claim_minutes ≤ d
        → d ≤ max_claim_minutes
        → parse_timestamp s.calendar a.expires_at ≡ ok ((now + minutes d) / second * second)
        → Transition by claims (insert a.task_id a claims)
    released :
        (id : String) (a : ActiveClaim)
        → live s.calendar s.printable now (lookup id claims) ≡ some a
        → by ≡ some (str id, str a.owner, str a.claim_id)
        → Transition by claims (erase id claims)

  -- Reading the ledger at an instant gives the live claims of what it stands for.
  pub ledger_claims-live :
      (records : List Fields) (claims active : Claims)
      → read_ledger s.calendar s.printable [] records ≡ ok claims
      → ledger_claims s.calendar s.printable records now ≡ ok active
      → (k : String) → lookup k active ≡ live s.calendar s.printable now (lookup k claims)
  unfolding ledger_claims
  ledger_claims-live records claims active h e k =
      let (active', p, q) =
        unexpired_lem s.calendar s.printable now claims
          (read_ledger-IsValid s.calendar s.printable [] records tt h) in
      let same : active ≡ active' = ground arith in ap (lookup k) same ∙ q k

  module _ (faithful : IsFaithful s.calendar) (records : List Fields) (claims : Claims)
      (h : read_ledger s.calendar s.printable [] records ≡ ok claims) where
    abbrev pub Stands : Releaser → Fields → Type 0
    Stands by entry =
        (claims' : Claims) × Transition by claims claims'
        × (read_ledger s.calendar s.printable [] (records ++ entry ∷ []) ≡ ok claims')

    stands :
        {by : Releaser} (entry : Fields) (claims' : Claims)
        → Transition by claims claims'
        → read_record s.calendar s.printable claims entry ≡ ok claims'
        → Stands by entry
    stands entry claims' t e =
        (claims', t, rw (read_ledger-append s.calendar s.printable [] records entry, h) e)

    module _ (new_id : String) (task_id duration_minutes key caller : Json) where
      abbrev pub Request : Type 0
      Request = Passed s now task_id duration_minutes key caller records

      -- What a claim that returned has found: the task free, and it was granted, or the caller's own
      -- claim with this key.
      abbrev pub Granted : Request → ClaimedTask → Locals → Type 0
      Granted r t l =
          (live s.calendar s.printable now (lookup r.id claims) ≡ none)
          × (is_claim_id new_id ≡ true)
          × (now + minutes r.duration < s.calendar.horizon)
          × (t ≡ record {
            task = r.task;
            claim_id = new_id;
            owner = r.owner;
            claimed_at = s.calendar.format now;
            expires_at = s.calendar.format (now + minutes r.duration);
            replayed = false;
          })
          × (l ≡ record {
            owner = some r.owner;
            task_id = some r.id;
            key = some r.key;
            duration = some r.duration;
            claim_id = some new_id;
            claimed_at = some (s.calendar.format now);
            expires_at = some (s.calendar.format (now + minutes r.duration));
          })

      abbrev pub Replayed : Request → ClaimedTask → Type 0
      Replayed r t =
          (a : ActiveClaim) × (live s.calendar s.printable now (lookup r.id claims) ≡ some a)
          × (a.owner ≡ r.owner)
          × (a.idempotency_key ≡ r.key)
          × (t ≡ record {
            task = r.task;
            claim_id = a.claim_id;
            owner = r.owner;
            claimed_at = a.claimed_at;
            expires_at = a.expires_at;
            replayed = true;
          })

      pub claim_returned :
          {t : ClaimedTask} {l : Locals}
          → claim_body s now new_id task_id duration_minutes key caller records start ≡ (ok t, l)
          → (r : Request) × (Granted r t l ⊎ Replayed r t)
      claim_returned {t} {l} e =
          let r = claim_body-ok s now new_id task_id duration_minutes key caller records e in
          let found = ledger_claims-live records claims r.claims h r.read r.id in
          let e' =
            sym (claim_body-Passed s now new_id task_id duration_minutes key caller records r)
            ∙ e in
          elim (Option-cases (lookup r.id r.claims)) [
            | inl free ↦
                let (p₁, p₂, p₃, p₄) =
                  grant-ok s now new_id r.task r.owner r.duration
                    (passed_locals s now r.owner r.id r.key r.duration) (rw free at e') in
                (r, inl (sym found ∙ free, p₁, p₂, p₃, p₄))
            | inr (a, held) ↦
                let (p₁, p₂, p₃) =
                  replay-ok s now a r.task r.owner r.key
                    (passed_locals s now r.owner r.id r.key r.duration) (rw held at e') in
                (r, inr (a, sym found ∙ held, p₁, p₂, p₃))
          ]

      Granted-Stands :
          (r : Request) (t : ClaimedTask) (l : Locals)
          → Granted r t l
          → Stands none (claim_record s now task_id key caller l (claim_outcome s now t))
      Granted-Stands r t l (free, claim_ok, room, pt, pl) =
          let id_ok = (valid_task_id-ok task_id r.id_ok).0 in
          let key_ok = (valid_idempotency_key-ok key r.key_ok).0 in
          let owner_ok = (bounded_identity-ok s.printable caller r.owner_ok).0 in
          let (low, high) = valid_duration-ok duration_minutes r.duration_ok in
          let a =
            granted_claim s faithful now r.duration claims r.id r.key r.owner new_id id_ok key_ok
              owner_ok claim_ok low high room in
          rw (pl, pt)
            (stands _ (insert r.id a claims)
              (claimed a r.duration free low high
                (parse_timestamp-format s.calendar faithful (now + minutes r.duration) room))
              (read_record-granted s faithful now r.duration claims r.id r.key r.owner new_id id_ok
                key_ok owner_ok claim_ok low high room task_id key caller))

      Replayed-Stands :
          (r : Request) (t : ClaimedTask) (l : Locals)
          → Replayed r t
          → Stands none (claim_record s now task_id key caller l (claim_outcome s now t))
      Replayed-Stands r t l (a, held, po, pk, pt) = rw pt (
          stands _ claims stay
            (read_record-claim s now claims l task_id key caller "replayed" refl))

      claim_body-Stands :
          (t : ClaimedTask) (l : Locals)
          → claim_body s now new_id task_id duration_minutes key caller records start ≡ (ok t, l)
          → Stands none (claim_record s now task_id key caller l (claim_outcome s now t))
      claim_body-Stands t l e =
          let (r, found) = claim_returned e in
          elim found [
            | inl granted ↦ Granted-Stands r t l granted
            | inr replayed ↦ Replayed-Stands r t l replayed
          ]

    -- The record that claim_task decides on, appended to a ledger that is read, leaves a ledger that is
    -- read. Its claims are the old ones, or those with one claim inserted on a task on which there is no
    -- unexpired claim, with an expiry of 15 to 1440 minutes from now, to the second.
    -- The calendar is taken to be faithful.
    pub claim_decide-Stands :
        (new_id : String) (task_id duration_minutes key caller : Json)
        (d : Decision (Result ClaimedTask))
        → claim_decide s now new_id task_id duration_minutes key caller records ≡ ok d
        → Stands none d.entry
    unfolding claim_decide
    claim_decide-Stands new_id task_id duration_minutes key caller d e =
        elim (conclude-cases (claim_outcome s now) (claim_record s now task_id key caller)
          (claim_body s now new_id task_id duration_minutes key caller records start) e) [
            | inr (error, l, p, q) ↦ rw q (
                stands (claim_record s now task_id key caller l (code_text error.code)) claims stay
                  (read_record-claim s now claims l task_id key caller (code_text error.code)
                    (code_text-ne error.code).0))
            | inl (t, l, p, q) ↦
                rw q (claim_body-Stands new_id task_id duration_minutes key caller t l p)
          ]

    release_body-Stands :
        (task_id claim_id caller : Json) (t : ReleasedTask) (l : Locals)
        → release_body s now task_id claim_id caller records start ≡ (ok t, l)
        → Stands
            (some (task_id, caller, claim_id))
            (release_record s now task_id claim_id caller l (release_outcome s now t))
    release_body-Stands task_id claim_id caller t l e =
        let r = release_body-ok s now task_id claim_id caller records e in
        let found = ledger_claims-live records claims r.claims h r.read r.id in
        let e' = sym (release_body-ReleasePassed s now task_id claim_id caller records r) ∙ e in
        elim (release_held-ok s now (lookup r.id r.claims) r.id r.claim r.owner
          (ap (λ p. p.0) e')) [
            | inl (free, not_released) ↦ rw not_released (
                stands _ claims stay
                  (read_record-release s now claims l task_id claim_id caller "not_claimed" refl))
            | inr (a, held, po, pc, yes_released) ↦
                let active = sym found ∙ held in
                rw yes_released (
                  stands _ (erase r.id claims)
                    (released r.id a active (
                      cc (
                        (valid_task_id-ok task_id r.id_ok).1,
                        (bounded_identity-ok s.printable caller r.owner_ok).1,
                        (valid_claim_id-ok claim_id r.claim_ok).1,
                        po,
                        pc,
                      )))
                    (read_record-released s now claims l r.id r.owner r.claim a
                      (ap (λ p. p.1.owner) (sym e')) (ap (λ p. p.1.task_id) (sym e'))
                      (ap (λ p. p.1.claim_id) (sym e')) (valid_task_id-ok task_id r.id_ok).0
                      (bounded_identity-ok s.printable caller r.owner_ok).0
                      (valid_claim_id-ok claim_id r.claim_ok).0
                      (live-some s.calendar s.printable now (lookup r.id claims) active)
                      ((eq_iff a.owner r.owner).1 po) ((eq_iff a.claim_id r.claim).1 pc) task_id
                      claim_id caller))
          ]

    -- The record that release_task decides on, appended to a ledger that is read, leaves a ledger that is
    -- read. Its claims are the old ones, or those less one unexpired claim, of the task, the owner and
    -- the claim ID that the call was given. The calendar is taken to be faithful.
    pub release_decide-Stands :
        (task_id claim_id caller : Json) (d : Decision (Result ReleasedTask))
        → release_decide s now task_id claim_id caller records ≡ ok d
        → Stands (some (task_id, caller, claim_id)) d.entry
    unfolding release_decide
    release_decide-Stands task_id claim_id caller d e =
        elim (conclude-cases (release_outcome s now) (release_record s now task_id claim_id caller)
          (release_body s now task_id claim_id caller records start) e) [
            | inr (error, l, p, q) ↦ rw q (
                stands (release_record s now task_id claim_id caller l (code_text error.code))
                  claims stay
                  (read_record-release s now claims l task_id claim_id caller (code_text error.code)
                    (code_text-ne error.code).1))
            | inl (t, l, p, q) ↦ rw q (release_body-Stands task_id claim_id caller t l p)
          ]

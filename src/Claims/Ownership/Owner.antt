-- ===== src/Claims/Ownership/Owner.antt =====
-- What `claim_task` of core/task_claims.py promises its caller: the task is the caller's own, and no
-- one else's, until the claim expires or is released.
use jn_engine_contributor_mc.Base.{
  ℕ, ◌<◌, ◌≡◌, ◌≢◌, refl, sym, ◌∙◌, ap, inl, inr, String, true, false, some, List, [], ◌∷◌, ◌++◌,
  eq_refl,
}
use jn_engine_contributor_mc.Base.Lists.{All, All-map}
use jn_engine_contributor_mc.Python.Json.{Json, Fields, str}
use jn_engine_contributor_mc.Python.Result.{Result, ok, err}
use jn_engine_contributor_mc.Python.Dict.{lookup, insert, lookup-insert}
use jn_engine_contributor_mc.Audit.{File, Host, parse_lines, transact}
use jn_engine_contributor_mc.Audit.Record.{read_records-ok}
use jn_engine_contributor_mc.Audit.Transact.{transact-ok, transact-torn}
use jn_engine_contributor_mc.Claims.{Service, IsFaithful, ActiveClaim, ClaimedTask}
use jn_engine_contributor_mc.Claims.Ledger.{Claims, parse_timestamp, read_ledger}
use jn_engine_contributor_mc.Claims.Wellformed.{live-some}
use jn_engine_contributor_mc.Claims.Body.{Locals, start, claim_body}
use jn_engine_contributor_mc.Claims.Records.{
  read_ledger-append, read_record-granted, read_record-claim, granted_claim,
}
use jn_engine_contributor_mc.Claims.Inversion.{
  conclude-cases, bounded_identity-ok, valid_task_id-ok, valid_idempotency_key-ok,
  valid_duration-ok,
}
use jn_engine_contributor_mc.Claims.Operations.{
  claim_decide, claim_task, settle, claim_record, claim_outcome,
}
use jn_engine_contributor_mc.Claims.Refinement.{Request, Granted, Replayed, claim_returned}
use jn_engine_contributor_mc.Claims.Ownership.{Call, run, time_of, by_call, Registers}
use jn_engine_contributor_mc.Claims.Ownership.Exclusive.{Holds, live-held, LeavesAlone, run-Holds}

settle-ok :
    {A : Type 0} (r : Result (Result A) × File) {v : A} {file : File}
    → settle r ≡ (ok v, file)
    → r ≡ (ok (ok v), file)
unfolding settle
settle-ok (ok r, f) h = cc
settle-ok (err e, f) h = cc

-- A call before the expiry that is not the owner's release of the claim that the caller was told.
abbrev pub Unreleased : String → ClaimedTask → ℕ → Call → Type 0
Unreleased id t expiry c =
    (time_of c < expiry) × (by_call c ≢ some (str id, str t.owner, str t.claim_id))

module _ (s : Service) (encoded : Fields → ℕ) (faithful : IsFaithful s.calendar)
    (encoded_pos : (r : Fields) → 0 < encoded r) where
  module _ (host : Host) (now : ℕ) (file : File) (new_id : String)
      (task_id duration_minutes key caller : Json) where
    -- The ledger that a returned claim was decided on, and the record of it.
    record Decided (claims : Claims) (t : ClaimedTask) (file' : File) : Type 0 where
      records : List Fields
      locals : Locals
      read : read_ledger s.calendar s.printable [] records ≡ ok claims
      body :
          claim_body s now new_id task_id duration_minutes key caller records start ≡ (ok t, locals)
      whole : file'.torn ≡ false
      parsed :
          parse_lines file'.lines
          ≡ ok
              (records ++ claim_record s now task_id key caller locals (claim_outcome s now t) ∷ [])

    claim_task-Decided :
        (claims : Claims) {t : ClaimedTask} {file' : File}
        → Registers s encoded file claims
        → claim_task s now encoded host file new_id task_id duration_minutes key caller
          ≡ (ok t, file')
        → Decided claims t file'
    unfolding claim_task
    claim_task-Decided claims {t} {file'} g h =
        let (records, d, read, decided, value, whole, back) =
          transact-ok encoded encoded_pos host file
            (claim_decide s now new_id task_id duration_minutes key caller)
            (settle-ok
              (transact encoded host file
                (claim_decide s now new_id task_id duration_minutes key caller))
              h) in
        let same : g.records ≡ records =
          cc (g.parsed, (read_records-ok host file records read).0) in
        elim (conclude-cases (claim_outcome s now) (claim_record s now task_id key caller)
          (claim_body s now new_id task_id duration_minutes key caller records start) decided) [
            | inr (e, l, p, q) ↦ absurd (cc)
            | inl (t', l, p, q) ↦
                let eq : t' ≡ t = cc in
                record {
                  records = records;
                  locals = l;
                  read = rw same at g.read;
                  body = rw eq at p;
                  whole = whole;
                  parsed = rw (q, eq) at back;
                }
          ]

    -- The ledger holds for the task what the caller was told.
    abbrev pub Told : File → ClaimedTask → Type 0
    Told file' t =
        (id : String) × (a : ActiveClaim) × (task_id ≡ str id)
        × Holds s encoded file' id a
        × (caller ≡ str a.owner)
        × (a.owner ≡ t.owner)
        × (a.claim_id ≡ t.claim_id)
        × (a.claimed_at ≡ t.claimed_at)
        × (a.expires_at ≡ t.expires_at)

    module _ (claims : Claims) {t : ClaimedTask} {file' : File} (p : Decided claims t file')
        (r : Request s now faithful p.records claims p.read new_id task_id duration_minutes key
          caller) where
      Granted-Told :
          Granted s now faithful p.records claims p.read new_id task_id duration_minutes key caller
            r t p.locals
          → Told file' t
      Granted-Told (free, claim_ok, room, pt, pl) =
          let (id_ok, it) = valid_task_id-ok task_id r.id_ok in
          let (key_ok, ik) = valid_idempotency_key-ok key r.key_ok in
          let (owner_ok, io) = bounded_identity-ok s.printable caller r.owner_ok in
          let (low, high) = valid_duration-ok duration_minutes r.duration_ok in
          let a =
            granted_claim s faithful now r.duration claims r.id r.key r.owner new_id id_ok key_ok
              owner_ok claim_ok low high room in
          let e =
            read_record-granted s faithful now r.duration claims r.id r.key r.owner new_id id_ok
              key_ok owner_ok claim_ok low high room task_id key caller in
          (
            r.id,
            a,
            it,
            record {
              claims = insert r.id a claims;
              registers = record {
                whole = p.whole;
                records =
                    p.records
                    ++ claim_record s now task_id key caller p.locals (claim_outcome s now t) ∷ [];
                parsed = p.parsed;
                read = rw (read_ledger-append, p.read, pl, pt) e;
              };
              found = rw (lookup-insert, eq_refl r.id) refl;
            },
            io,
            ap (λ x. x.owner) (sym pt),
            ap (λ x. x.claim_id) (sym pt),
            ap (λ x. x.claimed_at) (sym pt),
            ap (λ x. x.expires_at) (sym pt),
          )

      Replayed-Told :
          Replayed s now faithful p.records claims p.read new_id task_id duration_minutes key caller
            r t
          → Told file' t
      Replayed-Told (a, active, po, pk, pt) =
          let (id_ok, it) = valid_task_id-ok task_id r.id_ok in
          let (owner_ok, io) = bounded_identity-ok s.printable caller r.owner_ok in
          let e = read_record-claim s now claims p.locals task_id key caller "replayed" refl in
          (
            r.id,
            a,
            it,
            record {
              claims = claims;
              registers = record {
                whole = p.whole;
                records =
                    p.records
                    ++ claim_record s now task_id key caller p.locals (claim_outcome s now t) ∷ [];
                parsed = p.parsed;
                read = rw (read_ledger-append, p.read, pt) e;
              };
              found = live-some s.calendar s.printable now (lookup r.id claims) active;
            },
            cc (io, po),
            cc (po, ap (λ x. x.owner) pt),
            ap (λ x. x.claim_id) (sym pt),
            ap (λ x. x.claimed_at) (sym pt),
            ap (λ x. x.expires_at) (sym pt),
          )

    -- After a claim_task call on a readable ledger returned, the ledger holds for its task the claim ID, the
    -- owner and the two timestamps that the caller was told, and the owner is the caller. The calendar is
    -- taken to be faithful, and every record to be encoded in at least one byte.
    pub claim_task-Told :
        (claims : Claims) {t : ClaimedTask} {file' : File}
        → Registers s encoded file claims
        → claim_task s now encoded host file new_id task_id duration_minutes key caller
          ≡ (ok t, file')
        → Told file' t
    claim_task-Told claims g h =
        let p = claim_task-Decided claims g h in
        let (r, found) =
          claim_returned s now faithful p.records claims p.read new_id task_id duration_minutes key
            caller p.body in
        elim found [
          | inl granted ↦ Granted-Told claims p r granted
          | inr replayed ↦ Replayed-Told claims p r replayed
        ]

    -- While the ledger holds a claim on a task that has not expired, a claim_task call on it returns only
    -- if the caller and the key are those of the claim, and it then gives the claim's owner, ID and expiry,
    -- as a replay. The calendar is taken to be faithful, and every record to be encoded in at least one
    -- byte.
    pub claim_task-held :
        {t : ClaimedTask} {file' : File} (id : String) (a : ActiveClaim) (expiry : ℕ)
        → task_id ≡ str id
        → Holds s encoded file id a
        → parse_timestamp s.calendar a.expires_at ≡ ok expiry
        → now < expiry
        → claim_task s now encoded host file new_id task_id duration_minutes key caller
          ≡ (ok t, file')
        → (caller ≡ str a.owner)
          × (key ≡ str a.idempotency_key)
          × (t.owner ≡ a.owner)
          × (t.claim_id ≡ a.claim_id)
          × (t.expires_at ≡ a.expires_at)
          × (t.replayed ≡ true)
    claim_task-held {t} {file'} id a expiry it held read early h =
        let p = claim_task-Decided held.claims held.registers h in
        let (r, found) =
          claim_returned s now faithful p.records held.claims p.read new_id task_id duration_minutes
            key caller p.body in
        let same : r.id ≡ id = cc (it, (valid_task_id-ok task_id r.id_ok).1) in
        let alive = live-held s encoded id a expiry read now early in
        elim found [
          | inl granted ↦ absurd (cc (same, held.found, alive, granted.0))
          | inr (b, active, po, pk, pt) ↦
              let eq : b ≡ a = cc (same, held.found, alive, active) in
              (
                cc ((bounded_identity-ok s.printable caller r.owner_ok).1, po, eq),
                cc ((valid_idempotency_key-ok key r.key_ok).1, pk, eq),
                cc (ap (λ x. x.owner) pt, po, eq),
                cc (ap (λ x. x.claim_id) pt, eq),
                cc (ap (λ x. x.expires_at) pt, eq),
                ap (λ x. x.replayed) pt,
              )
        ]

  claim_task-torn :
      (host : Host) (now : ℕ) (file : File) (new_id : String) (task_id duration key caller : Json)
      {t : ClaimedTask} {file' : File}
      → file.torn ≡ true
      → claim_task s now encoded host file new_id task_id duration key caller ≡ (ok t, file')
      → ⊥
  unfolding claim_task settle
  claim_task-torn host now file new_id task_id duration key caller torn h =
      let (e, p) =
        transact-torn encoded encoded_pos host file
          (claim_decide s now new_id task_id duration key caller) torn in
      cc (ap settle p, h)

  -- After a claim_task call on a readable ledger returned, and any calls each of which is before its
  -- expiry and is not the owner's release of it, a claim_task call on the task before the expiry returns
  -- only to the same caller, with the same owner and claim ID and as a replay. The calendar is taken to
  -- be faithful, and every record to be encoded in at least one byte.
  pub one_owner :
      (host : Host) (now : ℕ) (file : File) (claims : Claims) (new_id id : String)
      (duration key caller : Json) {t : ClaimedTask} {file₁ : File} (expiry : ℕ) (calls : List Call)
      (host' : Host) (now' : ℕ) (new_id' : String) (duration' key' caller' : Json)
      {t' : ClaimedTask} {file₂ : File}
      → Registers s encoded file claims
      → claim_task s now encoded host file new_id (str id) duration key caller ≡ (ok t, file₁)
      → parse_timestamp s.calendar t.expires_at ≡ ok expiry
      → All (λ c. Unreleased id t expiry c) calls
      → now' < expiry
      → claim_task s now' encoded host'
          (run s encoded calls file₁)
          new_id'
          (str id)
          duration'
          key'
          caller'
        ≡ (ok t', file₂)
      → (caller' ≡ caller)
        × (t'.owner ≡ t.owner)
        × (t'.claim_id ≡ t.claim_id)
        × (t'.replayed ≡ true)
  one_owner host now file claims new_id id duration key caller {t} {file₁} expiry calls host' now'
        new_id' duration' key' caller' g h read quiet early h' =
      let (id', a, it, held, ia, po, pc, ps, pe) =
        claim_task-Told host now file new_id (str id) duration key caller claims g h in
      let read' : parse_timestamp s.calendar a.expires_at ≡ ok expiry = rw pe read in
      let alone : All (LeavesAlone s encoded id' a expiry) calls =
        All-map
          (λ c (u : Unreleased id t expiry c). (
            u.0,
            λ (e : by_call c ≡ some (str id', str a.owner, str a.claim_id)).
                u.1 (e ∙ cc (it, po, pc)),
          ))
          calls quiet in
      elim (run-Holds s encoded id' a expiry read' faithful encoded_pos calls file₁ alone held) [
        | inl torn ↦ absurd (
            claim_task-torn host' now' (run s encoded calls file₁) new_id' (str id) duration' key'
              caller' torn h')
        | inr held' ↦
            let (qc, qk, qo, qi, qe, qr) =
              claim_task-held host' now' (run s encoded calls file₁) new_id' (str id) duration' key'
                caller' id' a expiry it held' read' early h' in
            (cc (qc, ia), cc (qo, po), cc (qi, pc), qr)
      ]

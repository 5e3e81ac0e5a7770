-- ===== src/Claims/Ownership/Exclusive.antt =====
-- A granted claim is kept until it expires or its owner releases it.
use jn_engine_contributor_mc.Base.{
  ℕ, ◌<◌, ◌≡◌, ◌≢◌, ◌∙◌, ◌⊎◌, inl, inr, String, true, some, List, [], ◌∷◌, arith, eq_iff, ◌==◌,
  Bool-cases,
}
use jn_engine_contributor_mc.Base.Lists.{All}
use jn_engine_contributor_mc.Python.Json.{Fields, str}
use jn_engine_contributor_mc.Python.Result.{ok}
use jn_engine_contributor_mc.Python.Dict.{lookup, lookup-insert, lookup-erase}
use jn_engine_contributor_mc.Audit.{File}
use jn_engine_contributor_mc.Claims.{Service, IsFaithful, ActiveClaim}
use jn_engine_contributor_mc.Claims.Ledger.{Claims, parse_timestamp}
use jn_engine_contributor_mc.Claims.Wellformed.{live, live-some}
use jn_engine_contributor_mc.Claims.Refinement.{Transition, stay, claimed, released}
use jn_engine_contributor_mc.Claims.Ownership.{
  Call, step, run, time_of, by_call, Registers, step-Steps,
}
use jn_engine_contributor_mc.Claims.Ownership.Sound.{step-torn}

module _ (s : Service) (encoded : Fields → ℕ) where
  -- The ledger says that the task is claimed so.
  pub record Holds (file : File) (id : String) (a : ActiveClaim) : Type 0 where
    pub claims : Claims
    pub registers : Registers s encoded file claims
    pub found : lookup id claims ≡ some a

  -- Before the expiry, and not the owner's release of this very claim.
  abbrev pub LeavesAlone : String → ActiveClaim → ℕ → Call → Type 0
  LeavesAlone id a expiry c =
      (time_of c < expiry) × (by_call c ≢ some (str id, str a.owner, str a.claim_id))

  module _ (id : String) (a : ActiveClaim) (expiry : ℕ)
      (read : parse_timestamp s.calendar a.expires_at ≡ ok expiry) where
    pub live-held : (now : ℕ) → now < expiry → live s.calendar s.printable now (some a) ≡ some a
    live-held now h = ground arith

    Transition-keeps :
        (c : Call) {claims claims' : Claims}
        → Transition s (time_of c) (by_call c) claims claims'
        → LeavesAlone id a expiry c
        → lookup id claims ≡ some a
        → lookup id claims' ≡ some a
    Transition-keeps c stay alone h = h
    Transition-keeps c {claims} (claimed b d free low high e) alone h =
        rw lookup-insert (ground (arith, eq_iff b.task_id id, live-held (time_of c) alone.0))
    Transition-keeps c {claims} (released id' b held by) alone h = elim (Bool-cases (id' == id)) [
      | inr other ↦ rw (lookup-erase, other) h
      | inl same ↦
          let eq : id' ≡ id = (eq_iff id' id).0 same in
          let p = live-some s.calendar s.printable (time_of c) (lookup id' claims) held in
          absurd (alone.1 (by ∙ cc (eq, p, h)))
    ]

    -- Every other call leaves the claim in force, or a torn file.
    step-Holds :
        (faithful : IsFaithful s.calendar) (encoded_pos : (r : Fields) → 0 < encoded r) (c : Call)
        (file : File)
        → LeavesAlone id a expiry c
        → Holds file id a
        → ((step s encoded c file).torn ≡ true) ⊎ Holds (step s encoded c file) id a
    step-Holds faithful encoded_pos c file alone h =
        elim (step-Steps s encoded faithful encoded_pos c file h.claims h.registers) [
          | inl torn ↦ inl torn
          | inr (claims', t, g) ↦ inr (record {
            claims = claims';
            registers = g;
            found = Transition-keeps c t alone h.found;
          })
        ]

    run-torn :
        (encoded_pos : (r : Fields) → 0 < encoded r) (faithful : IsFaithful s.calendar)
        (calls : List Call) (file : File)
        → file.torn ≡ true
        → (run s encoded calls file).torn ≡ true
    unfolding run
    run-torn encoded_pos faithful [] file h = h
    run-torn encoded_pos faithful (c ∷ calls) file h =
        run-torn encoded_pos faithful calls (step s encoded c file)
          (rw (step-torn s encoded faithful encoded_pos c file h) h)

    pub run-Holds :
        (faithful : IsFaithful s.calendar) (encoded_pos : (r : Fields) → 0 < encoded r)
        (calls : List Call) (file : File)
        → All (LeavesAlone id a expiry) calls
        → Holds file id a
        → ((run s encoded calls file).torn ≡ true) ⊎ Holds (run s encoded calls file) id a
    unfolding run
    run-Holds faithful encoded_pos [] file alone h = inr h
    run-Holds faithful encoded_pos (c ∷ calls) file alone h =
        elim (step-Holds faithful encoded_pos c file alone.0 h) [
          | inl torn ↦ inl (run-torn encoded_pos faithful calls (step s encoded c file) torn)
          | inr h' ↦ run-Holds faithful encoded_pos calls (step s encoded c file) alone.1 h'
        ]

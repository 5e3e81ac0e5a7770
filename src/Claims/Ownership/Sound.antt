-- ===== src/Claims/Ownership/Sound.antt =====
-- No sequence of calls of core/task_claims.py makes its ledger unreadable.
use jn_engine_contributor_mc.Base.{ℕ, ◌<◌, ◌≡◌, refl, ap, ◌⊎◌, inl, inr, true, false, List, [], ◌∷◌}
use jn_engine_contributor_mc.Python.Json.{Fields}
use jn_engine_contributor_mc.Audit.{File, parse_lines}
use jn_engine_contributor_mc.Audit.Transact.{transact-torn}
use jn_engine_contributor_mc.Claims.{Service, IsFaithful}
use jn_engine_contributor_mc.Claims.Ledger.{Claims, read_ledger}
use jn_engine_contributor_mc.Claims.Operations.{
  claim_decide, release_decide, claim_task, release_task, settle,
}
use jn_engine_contributor_mc.Claims.Ownership.{
  Call, claim, release, step, run, Registers, step-Steps,
}

abbrev pub empty_file : File
empty_file = record { lines = []; bytes = 0; torn = false }

module _ (s : Service) (encoded : Fields → ℕ) (faithful : IsFaithful s.calendar)
    (encoded_pos : (r : Fields) → 0 < encoded r) where
  abbrev pub IsSound : File → Type 0
  IsSound file = (file.torn ≡ true) ⊎ ((claims : Claims) × Registers s encoded file claims)

  -- Nothing is done with a torn file.
  pub step-torn : (c : Call) (file : File) → file.torn ≡ true → step s encoded c file ≡ file
  unfolding step claim_task release_task settle
  step-torn (claim host now new_id task_id minutes key caller) file h =
      let (e, p) =
        transact-torn encoded encoded_pos host file
          (claim_decide s now new_id task_id minutes key caller) h in
      ap (λ r. (settle r).1) p
  step-torn (release host now task_id claim_id caller) file h =
      let (e, p) =
        transact-torn encoded encoded_pos host file (release_decide s now task_id claim_id caller)
          h in
      ap (λ r. (settle r).1) p

  pub step-IsSound : (c : Call) (file : File) → IsSound file → IsSound (step s encoded c file)
  step-IsSound c file (inl torn) = inl (rw (step-torn c file torn) torn)
  step-IsSound c file (inr (claims, g)) =
      elim (step-Steps s encoded faithful encoded_pos c file claims g) [
        | inl torn ↦ inl torn
        | inr (claims', t, g') ↦ inr (claims', g')
      ]

  pub run-IsSound :
      (calls : List Call) (file : File) → IsSound file → IsSound (run s encoded calls file)
  unfolding run
  run-IsSound [] file h = h
  run-IsSound (c ∷ calls) file h = run-IsSound calls (step s encoded c file) (step-IsSound c file h)

  empty_file-IsSound : IsSound empty_file
  unfolding parse_lines read_ledger
  empty_file-IsSound = inr ([], record { whole = refl; records = []; parsed = refl; read = refl })

  -- From an empty ledger, after any claim_task and release_task calls, with any arguments and any answers
  -- of the operating system, the file is torn, or it is read as records that stand for claims. The
  -- calendar is taken to be faithful, and every record to be encoded in at least one byte.
  pub service-IsSound : (calls : List Call) → IsSound (run s encoded calls empty_file)
  service-IsSound calls = run-IsSound calls empty_file empty_file-IsSound

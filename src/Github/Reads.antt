-- ===== src/Github/Reads.antt =====
-- Calls through collaboration/github.py that only read, and what comes before a mutation.
use jn_engine_contributor_mc.Base.{String, ◌≡◌, refl, sym, List, [], ◌∷◌, ◌++◌, arith}
use mathlib.Core.List.{append-nil}
use jn_engine_contributor_mc.Python.Result.{CollaborationError, Result}
use jn_engine_contributor_mc.Github.Session.{Api, ◌>>=◌, lift, fail}
use jn_engine_contributor_mc.Github.Emits.{posts, Emits, Any, Emits-bind, Emits-lift}

pub none_done : (done rest : List String) → done ++ rest ≡ [] → done ≡ []
none_done [] rest h = refl
none_done (x ∷ done) rest h = ground arith

-- The call sends no mutation.
abbrev pub Reads {ℓ} : {A : Type ℓ} → Api A → Type ℓ
Reads m = Emits m [] Any

pub lift-Reads {ℓ} : {A : Type ℓ} (r : Result A) → Reads (lift r)
lift-Reads r = Emits-lift r (λ a e. tt)

-- A failure leaves all the mutations out.
pub fail-Emits {ℓ} :
    {A : Type ℓ} {Q : A → Type 0} (e : CollaborationError) (paths : List String)
    → Emits (fail {A = A} e) paths Q
fail-Emits e paths = record {
  at = λ t. ([], paths, refl, sym (append-nil (posts t.sent)), λ a h. cc);
}

module _ {ℓ κ} {A : Type ℓ} {B : Type κ} (m : Api A) (f : A → Api B) where
  pub bind-Reads : Reads m → ((a : A) → Reads (f a)) → Reads (m >>= f)
  bind-Reads hm hf = Emits-bind m f [] [] hm (λ a q. hf a)

  pub read_then :
      {paths : List String} {R : B → Type 0}
      → Reads m
      → ((a : A) → Emits (f a) paths R)
      → Emits (m >>= f) paths R
  read_then {paths = paths} hm hf = Emits-bind m f [] paths hm (λ a q. hf a)

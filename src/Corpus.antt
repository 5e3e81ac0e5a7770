-- ===== src/Corpus.antt =====
-- The exported repository that the server reads: core/snapshot.py and core/path_safety.py. The errors
-- of the two, and calls that raise them.
pub mod Policy
pub mod Scan
pub mod SafePath
pub mod ContentId
pub mod Snapshot
pub mod Reads
pub mod Cite
use jn_engine_contributor_mc.Base.{String, ◌≡◌, refl, ◌⊎◌, inl, inr, Bool, true, false, ap, subst}

-- The exceptions of the two files, of core/content_search.py and core/task_index.py, and some of Python's own.
pub data Failure : Type 0 where
  snapshot_error : String → Failure
  unsafe_path : String → Failure
  invalid_content_id : String → Failure
  stale_content_id : Failure
  content_not_found : String → Failure
  content_unavailable : String → Failure
  search_request_error : String → Failure
  search_engine_error : String → Failure
  task_index_error : String → Failure
  task_request_error : String → Failure
  index_error : Failure
  attribute_error : Failure
  key_error : Failure

pub data Outcome {ℓ} (Value : Type ℓ) : Type ℓ where
  raises : Failure → Outcome Value
  returns : Value → Outcome Value

abbrev pub after {ℓ κ} : {A : Type ℓ} {B : Type κ} → (A → Outcome B) → Outcome A → Outcome B
after f (raises why) = raises why
after f (returns a) = f a

infixl 5 ◌>>=◌ ◌>>◌
abbrev pub ◌>>=◌ {ℓ κ} : {A : Type ℓ} {B : Type κ} → Outcome A → (A → Outcome B) → Outcome B
m >>= f = after f m

abbrev pub ◌>>◌ {ℓ} : {B : Type ℓ} → Outcome (Unit {0}) → Outcome B → Outcome B
m >> k = after (λ _. k) m

-- `if test: raise why`
abbrev pub refuse_if : Bool → Failure → Outcome (Unit {0})
refuse_if false why = returns tt
refuse_if true why = raises why

pub refuse_if-returns :
    (test : Bool) (why : Failure) → refuse_if test why ≡ returns tt → test ≡ false
refuse_if-returns true why h = cc
refuse_if-returns false why h = refl

pub Outcome-cases {ℓ} :
    {A : Type ℓ} (m : Outcome A)
    → ((a : A) × (m ≡ returns a)) ⊎ ((why : Failure) × (m ≡ raises why))
Outcome-cases (returns a) = inl (a, refl)
Outcome-cases (raises why) = inr (why, refl)

-- What a chain returns comes from what its first call returns.
pub after-returns {ℓ κ} :
    {A : Type ℓ} {B : Type κ} (m : Outcome A) (f : A → Outcome B) {b : B}
    → after f m ≡ returns b
    → (a : A) × (m ≡ returns a) × (f a ≡ returns b)
after-returns (raises why) f h = cc
after-returns (returns a) f h = (a, refl, h)

-- A check that comes first passed.
pub check-returns {ℓ} :
    {B : Type ℓ} (test : Bool) (why : Failure) (k : Outcome B) {b : B}
    → (refuse_if test why >> k) ≡ returns b
    → (test ≡ false) × (k ≡ returns b)
check-returns true why k h = cc
check-returns false why k h = (refl, h)

pub returns_inj {ℓ} : {A : Type ℓ} (a b : A) → returns a ≡ returns b → a ≡ b
returns_inj {A = A} a b h = ap (value_of a) h
  where
    value_of : A → Outcome A → A
    value_of other (raises why) = other
    value_of other (returns c) = c

-- What holds of a value that is returned holds of the value that the call returned.
pub returned {ℓ κ} : {A : Type ℓ} (P : A → Type κ) (a b : A) → returns a ≡ returns b → P a → P b
returned P a b h p = subst P (returns_inj a b h) p

pub raises_inj {ℓ} :
    {A : Type ℓ} (v w : Failure) → ◌≡◌ {A = Outcome A} (raises v) (raises w) → v ≡ w
raises_inj {A = A} v w h = ap why_of h
  where
    why_of : Outcome A → Failure
    why_of (raises why) = why
    why_of (returns a) = v

-- What holds of the failure of a check, and of those of what comes after, holds of those of both.
pub check-raises {ℓ κ} :
    {B : Type ℓ} (P : Failure → Type κ) (test : Bool) (failure : Failure) (k : Outcome B)
    (why : Failure)
    → P failure
    → (test ≡ false → k ≡ raises why → P why)
    → (refuse_if test failure >> k) ≡ raises why
    → P why
check-raises P true failure k why p q h = subst P (raises_inj failure why h) p
check-raises P false failure k why p q h = q refl h

-- And so for a call.
pub after-raises {ℓ ℓ' κ} :
    {A : Type ℓ} {B : Type ℓ'} (P : Failure → Type κ) (m : Outcome A) (f : A → Outcome B)
    (why : Failure)
    → (m ≡ raises why → P why)
    → ((a : A) → m ≡ returns a → f a ≡ raises why → P why)
    → after f m ≡ raises why
    → P why
after-raises P (raises v) f why p q h = p (ap raises (raises_inj v why h))
after-raises P (returns a) f why p q h = q a refl h

-- ===== src/Audit/Write.antt =====
-- The write loop of collaboration/audit.py.
use jn_engine_contributor_mc.Base.{
  ℕ, zero, suc, ◌+◌, ◌-◌, ◌≤◌, ◌≡◌, ◌≢◌, inl, inr, Option, Option-cases, arith,
}
use jn_engine_contributor_mc.Audit.{write_all, out_of_fuel, failed}

-- With fuel for each byte that is left, the write loop never runs out of fuel.
pub write_all-returns :
    (fuel : ℕ) (writes : ℕ → Option ℕ) (i left : ℕ)
    → left ≤ fuel
    → write_all fuel writes i left ≢ out_of_fuel
unfolding write_all
write_all-returns zero writes i zero h = λ e. cc
write_all-returns zero writes i (suc left) h = absurd (omega arith)
write_all-returns (suc fuel) writes i zero h = λ e. cc
write_all-returns (suc fuel) writes i (suc left) h = elim (Option-cases (writes i)) [
  | inl e ↦ ground arith
  | inr (zero, e) ↦ ground arith
  | inr (suc n, e) ↦ ground (arith, write_all-returns fuel writes (i + 1) (left - n))
]

-- A failed loop leaves some bytes, and no more than there were.
pub write_all-left :
    (fuel : ℕ) (writes : ℕ → Option ℕ) (i left k : ℕ)
    → write_all fuel writes i left ≡ failed k
    → (1 ≤ k) × (k ≤ left)
unfolding write_all
write_all-left zero writes i zero k h = cc
write_all-left zero writes i (suc left) k h = cc
write_all-left (suc fuel) writes i zero k h = cc
write_all-left (suc fuel) writes i (suc left) k h = elim (Option-cases (writes i)) [
  | inl e ↦ ground arith
  | inr (zero, e) ↦ ground arith
  | inr (suc n, e) ↦ ground (arith, write_all-left fuel writes (i + 1) (left - n) k)
]

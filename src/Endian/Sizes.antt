-- ===== src/Endian/Sizes.antt =====
-- The overflow checks of `checked_mul` and `checked_add` are exact.
use native.Mathlib.Nat.{div-mul-le_self, mul-div_cancel_left}
use chromatin_protocol.Prelude.{
  ℕ, zero, suc, ◌+◌, ◌*◌, ◌/◌, ◌%◌, ◌≤◌, ◌<◌, ◌≡◌, ◌≢◌, ap, arith, none, some, ltb, if◌then◌else◌,
}
use chromatin_protocol.Endian.{checked_mul, checked_add, size_mod}

-- On sizes, `checked_add` gives the sum if it is a size, and `none` if not.
pub checked_add_exact :
    (a b : ℕ)
    → a < size_mod
    → b < size_mod
    → checked_add a b ≡ (if ltb (a + b) size_mod then some (a + b) else none)
unfolding checked_add
checked_add_exact a b ha hb = ground arith

-- A wrapped product is told apart by the quotient.
wrapped_quotient : (a b : ℕ) → 0 < a → b < size_mod → size_mod ≤ a * b → a * b % size_mod / a ≢ b
wrapped_quotient a b pos hb big e =
    absurd (omega (arith, div-mul-le_self (a * b % size_mod) a, ap (λ (t : ℕ). t * a) e))

-- On sizes, `checked_mul` gives the product if it is a size, and `none` if not.
pub checked_mul_exact :
    (a b : ℕ)
    → a < size_mod
    → b < size_mod
    → checked_mul a b ≡ (if ltb (a * b) size_mod then some (a * b) else none)
unfolding checked_mul
checked_mul_exact zero b ha hb = ground arith
checked_mul_exact (suc a) zero ha hb = ground arith
checked_mul_exact (suc a) (suc b) ha hb =
    ground (arith, wrapped_quotient (suc a) (suc b), mul-div_cancel_left (suc b) {n = suc a})

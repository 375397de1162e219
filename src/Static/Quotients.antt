-- ===== src/Static/Quotients.antt =====
-- The checked division of src/compiler/static_integer_evaluator.cpp against exact integers.
use atomic_proof_interpreter.Prelude.{
  ℕ, zero, suc, ◌*◌, ◌/◌, ◌%◌, ◌^◌, ◌≡◌, ◌≤◌, ◌<◌, refl, arith, Bool, true, false, ◌&&◌,
  if◌then◌else◌, Bool-cases, inl, inr,
}
use native.Mathlib.Nat.{div-add-mod, mul_comm, div-le_self}
use atomic_proof_interpreter.Prelude.Arith.{mul_mono}
use atomic_proof_interpreter.Prelude.Int.{ℤ, pos, negsuc, eqb_ℤ}
use atomic_proof_interpreter.Vm.Number.{negate, abs_value}
use atomic_proof_interpreter.Vm.Numeric.{quotient, remainder}
use atomic_proof_interpreter.Static.Checked.{
  StaticIntegerError, known, error, checked_divide, checked_modulo, min,
}
use atomic_proof_interpreter.Static.Exact.{InInt64, fits, or_error}

negate-fits : (n : ℕ) → n ≤ 2 ^ 63 → fits (negate n) ≡ true
unfolding negate
negate-fits zero h = refl
negate-fits (suc n) h = ground arith

half_fits : (n b : ℕ) → n ≤ 2 ^ 63 → n / suc (suc b) < 2 ^ 63
half_fits n b h =
    let p : (n / suc (suc b)) * 2 ≤ (n / suc (suc b)) * suc (suc b) =
      mul_mono (n / suc (suc b)) 2 (suc (suc b)) (omega arith) in
    let c : (n / suc (suc b)) * suc (suc b) ≡ suc (suc b) * (n / suc (suc b)) =
      mul_comm (n / suc (suc b)) (suc (suc b)) in
    omega (arith, div-add-mod n (suc (suc b)), p, c)

-- The one pair whose quotient does not fit.
abbrev least_by_minus_one : ℤ → ℤ → Bool
least_by_minus_one lhs rhs = eqb_ℤ lhs min && eqb_ℤ rhs (negsuc 0)

quotient-fits :
    (a b : ℤ)
    → InInt64 a
    → InInt64 b
    → fits (quotient a b) ≡ (if least_by_minus_one a b then false else true)
unfolding quotient
quotient-fits (pos a) (pos b) h k = ground (arith, div-le_self a b)
quotient-fits (pos a) (negsuc b) h k =
    ground (arith, negate-fits (a / suc b) (omega (arith, div-le_self a (suc b))))
quotient-fits (negsuc a) (pos b) h k =
    ground (arith, negate-fits (suc a / b) (omega (arith, div-le_self (suc a) b)))
quotient-fits (negsuc a) (negsuc zero) h k = ground arith
quotient-fits (negsuc a) (negsuc (suc b)) h k = ground (arith, half_fits (suc a) b)

-- On int64_t values, checkedDivide and checkedModulo refuse a divisor 0; for another divisor they are
-- the quotient cut towards 0 and its remainder where an int64_t holds the quotient, and the overflow
-- error where not.
pub checked_division-exact :
    (a b : ℤ)
    → InInt64 a
    → InInt64 b
    → (checked_divide a b ≡ (
        if eqb_ℤ b (pos 0)
        then error StaticIntegerError.division_by_zero
        else or_error StaticIntegerError.division_overflow (quotient a b)))
      × (checked_modulo a b ≡ (
          if eqb_ℤ b (pos 0)
          then error StaticIntegerError.modulo_by_zero
          else if fits (quotient a b)
          then known (remainder a b)
          else error StaticIntegerError.modulo_overflow))
unfolding checked_divide checked_modulo
checked_division-exact a b h k = elim (Bool-cases (eqb_ℤ b (pos 0))) [
  | inl e ↦ (rw e refl, rw e refl)
  | inr e ↦ elim (Bool-cases (least_by_minus_one a b)) [
    | inl f ↦ (rw (quotient-fits a b h k, e, f) refl, rw (quotient-fits a b h k, e, f) refl)
    | inr f ↦ (rw (quotient-fits a b h k, e, f) refl, rw (quotient-fits a b h k, e, f) refl)
  ]
]

mod_le : (a m : ℕ) → a % m ≤ a
mod_le a m = omega (arith, div-add-mod a m)

pub negate-InInt64 : (n : ℕ) → n ≤ 2 ^ 63 → InInt64 (negate n)
unfolding negate
negate-InInt64 zero h = omega arith
negate-InInt64 (suc n) h = omega arith

pub remainder-InInt64 : (a b : ℤ) → InInt64 a → InInt64 (remainder a b)
unfolding remainder negate
remainder-InInt64 (pos a) b h = omega (arith, mod_le a (abs_value b))
remainder-InInt64 (negsuc a) b h =
    negate-InInt64 (suc a % abs_value b) (omega (arith, mod_le (suc a) (abs_value b)))

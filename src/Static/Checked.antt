-- ===== src/Static/Checked.antt =====
-- The checked arithmetic of src/compiler/static_integer_evaluator.cpp. An int64_t is an integer; the
-- bounds that the tests compute stay in the range of int64_t under the conditions in front of them.
use atomic_proof_interpreter.Prelude.{Bool, ◌&&◌, ◌||◌, if◌then◌else◌}
use atomic_proof_interpreter.Prelude.Int.{ℤ, pos, negsuc, ◌+ℤ◌, ◌-ℤ◌, ◌*ℤ◌, ltb_ℤ, eqb_ℤ}
use atomic_proof_interpreter.Vm.Number.{int64_max}
use atomic_proof_interpreter.Vm.Numeric.{quotient, remainder}

-- The diagnostics, by what they report.
pub data StaticIntegerError : Type 0 where
  literal_out_of_range invalid_literal addition_overflow subtraction_overflow : StaticIntegerError
  multiplication_overflow division_by_zero division_overflow : StaticIntegerError
  modulo_by_zero modulo_overflow negation_overflow : StaticIntegerError

pub data StaticIntegerResult : Type 0 where
  known : ℤ → StaticIntegerResult
  unknown : StaticIntegerResult
  error : StaticIntegerError → StaticIntegerResult

abbrev pub max : ℤ
max = pos int64_max

abbrev pub min : ℤ
min = negsuc int64_max

unfoldable pub checked_add : ℤ → ℤ → StaticIntegerResult
checked_add lhs rhs =
    if (ltb_ℤ (pos 0) rhs && ltb_ℤ (max -ℤ rhs) lhs)
      || (ltb_ℤ rhs (pos 0) && ltb_ℤ lhs (min -ℤ rhs))
    then error StaticIntegerError.addition_overflow
    else known (lhs +ℤ rhs)

unfoldable pub checked_subtract : ℤ → ℤ → StaticIntegerResult
checked_subtract lhs rhs =
    if (ltb_ℤ rhs (pos 0) && ltb_ℤ (max +ℤ rhs) lhs)
      || (ltb_ℤ (pos 0) rhs && ltb_ℤ lhs (min +ℤ rhs))
    then error StaticIntegerError.subtraction_overflow
    else known (lhs -ℤ rhs)

-- The tests for two factors that are not 0 and not the least number times -1.
unfoldable pub product_overflows : ℤ → ℤ → Bool
product_overflows lhs rhs =
    if ltb_ℤ (pos 0) lhs
    then (ltb_ℤ (pos 0) rhs && ltb_ℤ (quotient max rhs) lhs)
      || (ltb_ℤ rhs (pos 0) && ltb_ℤ rhs (quotient min lhs))
    else (ltb_ℤ (pos 0) rhs && ltb_ℤ lhs (quotient min rhs))
      || (ltb_ℤ rhs (pos 0) && ltb_ℤ lhs (quotient max rhs))

unfoldable pub checked_multiply : ℤ → ℤ → StaticIntegerResult
unfolding product_overflows
checked_multiply lhs rhs =
    if eqb_ℤ lhs (pos 0) || eqb_ℤ rhs (pos 0)
    then known (pos 0)
    else if (eqb_ℤ lhs (negsuc 0) && eqb_ℤ rhs min) || (eqb_ℤ rhs (negsuc 0) && eqb_ℤ lhs min)
    then error StaticIntegerError.multiplication_overflow
    else if product_overflows lhs rhs
    then error StaticIntegerError.multiplication_overflow
    else known (lhs *ℤ rhs)

unfoldable pub checked_divide : ℤ → ℤ → StaticIntegerResult
checked_divide lhs rhs =
    if eqb_ℤ rhs (pos 0)
    then error StaticIntegerError.division_by_zero
    else if eqb_ℤ lhs min && eqb_ℤ rhs (negsuc 0)
    then error StaticIntegerError.division_overflow
    else known (quotient lhs rhs)

unfoldable pub checked_modulo : ℤ → ℤ → StaticIntegerResult
checked_modulo lhs rhs =
    if eqb_ℤ rhs (pos 0)
    then error StaticIntegerError.modulo_by_zero
    else if eqb_ℤ lhs min && eqb_ℤ rhs (negsuc 0)
    then error StaticIntegerError.modulo_overflow
    else known (remainder lhs rhs)

-- Unary minus.
unfoldable pub checked_negate : ℤ → StaticIntegerResult
checked_negate rhs =
    if eqb_ℤ rhs min then error StaticIntegerError.negation_overflow else known (pos 0 -ℤ rhs)

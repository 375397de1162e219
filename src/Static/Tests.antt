-- ===== src/Static/Tests.antt =====
-- Evaluations of constant expressions, and the theorems at concrete inputs.
use atomic_proof_interpreter.Prelude.{ℕ, ◌≡◌, refl, arith, none, some, List, [], ◌∷◌, if◌then◌else◌}
use atomic_proof_interpreter.Prelude.Int.{pos, negsuc, ◌+ℤ◌, ◌-ℤ◌, ◌*ℤ◌, eqb_ℤ}
use atomic_proof_interpreter.Vm.Numeric.{quotient, remainder}
use atomic_proof_interpreter.Vm.Number.{int64_max, negate}
use atomic_proof_interpreter.Static.Checked.{
  StaticIntegerError, StaticIntegerResult, known, error, checked_add, checked_subtract,
  checked_multiply, checked_divide, checked_modulo, checked_negate,
}
use atomic_proof_interpreter.Static.Exact.{or_error, fits, checked_arithmetic-exact}
use atomic_proof_interpreter.Static.Quotients.{checked_division-exact}
use atomic_proof_interpreter.Static.Evaluator.{
  Operator, ExprNode, number_literal, identifier, unary, binary, evaluate_expression,
  evaluate_bindings,
}
use atomic_proof_interpreter.Static.Sound.{InRange, evaluate_expression-InRange}
use atomic_proof_interpreter.Static.Errors.{
  Below, here, in_left, in_unary, IsError, evaluate_expression-IsError,
}

-- -7
abbrev seven : ExprNode
seven = number_literal (b'-' ∷ b'7' ∷ [])

-- -7 / 0
abbrev by_zero : ExprNode
by_zero = binary Operator.divide seven (number_literal (b'0' ∷ []))

by_zero_error : evaluate_expression none by_zero ≡ error StaticIntegerError.division_by_zero
unfolding evaluate_expression checked_divide negate
by_zero_error = refl

-- -7 % 12
remainder_of :
    evaluate_expression none (binary Operator.modulo seven (number_literal (b'1' ∷ b'2' ∷ [])))
    ≡ known (negsuc 6)
unfolding evaluate_expression checked_modulo negate remainder
remainder_of = refl

checked_arithmetic-exact_example :
    (checked_add (pos 5) (negsuc 8)
      ≡ or_error StaticIntegerError.addition_overflow (pos 5 +ℤ negsuc 8))
    × (checked_subtract (pos 5) (negsuc 8)
        ≡ or_error StaticIntegerError.subtraction_overflow (pos 5 -ℤ negsuc 8))
    × (checked_multiply (pos 5) (negsuc 8)
        ≡ or_error StaticIntegerError.multiplication_overflow (pos 5 *ℤ negsuc 8))
    × (checked_negate (negsuc 8)
        ≡ or_error StaticIntegerError.negation_overflow (pos 0 -ℤ negsuc 8))
checked_arithmetic-exact_example =
    checked_arithmetic-exact (pos 5) (negsuc 8) (omega arith) (omega arith)

checked_division-exact_example :
    (checked_divide (negsuc int64_max) (negsuc 0) ≡ (
      if eqb_ℤ (negsuc 0) (pos 0)
      then error StaticIntegerError.division_by_zero
      else or_error StaticIntegerError.division_overflow (quotient (negsuc int64_max) (negsuc 0))))
    × (checked_modulo (negsuc int64_max) (negsuc 0) ≡ (
        if eqb_ℤ (negsuc 0) (pos 0)
        then error StaticIntegerError.modulo_by_zero
        else if fits (quotient (negsuc int64_max) (negsuc 0))
        then known (remainder (negsuc int64_max) (negsuc 0))
        else error StaticIntegerError.modulo_overflow))
checked_division-exact_example =
    checked_division-exact (negsuc int64_max) (negsuc 0) (omega arith) (omega arith)

-- x + 1 where x is 4.
bound :
    evaluate_bindings
      (binary Operator.plus (identifier (b'x' ∷ [])) (number_literal (b'1' ∷ [])))
      ((b'x' ∷ [], pos 4) ∷ [])
    ≡ known (pos 5)
unfolding evaluate_bindings checked_add ◌+ℤ◌ ◌-ℤ◌
bound = refl

-- Every name stands for 9.
abbrev nines : List ℕ → StaticIntegerResult
nines name = known (pos 9)

-- -x * -7
abbrev product : ExprNode
product = binary Operator.times (unary Operator.minus (identifier (b'x' ∷ []))) seven

evaluate_expression-InRange_example : InRange (evaluate_expression (some nines) product)
evaluate_expression-InRange_example =
    evaluate_expression-InRange nines (λ name. omega arith) product

-- -(-7 / 0) + x
abbrev sum : ExprNode
sum = binary Operator.plus (unary Operator.minus by_zero) (identifier (b'x' ∷ []))

Below-sum : Below by_zero sum
Below-sum =
    in_left Operator.plus (unary Operator.minus by_zero) (identifier (b'x' ∷ []))
      (in_unary Operator.minus by_zero here)

IsError-here : IsError (evaluate_expression none by_zero)
IsError-here = rw by_zero_error tt

evaluate_expression-IsError_example : IsError (evaluate_expression none sum)
evaluate_expression-IsError_example =
    evaluate_expression-IsError none by_zero sum Below-sum IsError-here

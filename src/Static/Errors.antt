-- ===== src/Static/Errors.antt =====
-- Errors below an expression in evaluateExpression of src/compiler/static_integer_evaluator.cpp.
use atomic_proof_interpreter.Prelude.{ℕ, Option, List}
use atomic_proof_interpreter.Prelude.Int.{ℤ}
use atomic_proof_interpreter.Static.Checked.{StaticIntegerResult, known, unknown, error}
use atomic_proof_interpreter.Static.Evaluator.{
  Operator, ExprNode, clone, unary, binary, with_known, with_both, evaluate_expression,
}

-- An expression that another one evaluates.
pub data Below (e : ExprNode) : ExprNode → Type 0 where
  here : Below e e
  in_clone : (x : ExprNode) → Below e x → Below e (clone x)
  in_unary : (op : Operator) (x : ExprNode) → Below e x → Below e (unary op x)
  in_left : (op : Operator) (l r : ExprNode) → Below e l → Below e (binary op l r)
  in_right : (op : Operator) (l r : ExprNode) → Below e r → Below e (binary op l r)

abbrev pub IsError : StaticIntegerResult → Type 0
IsError (known v) = ⊥
IsError unknown = ⊥
IsError (error e) = Unit

with_known-IsError :
    (r : StaticIntegerResult) (f : ℤ → StaticIntegerResult) → IsError r → IsError (with_known r f)
unfolding with_known
with_known-IsError (known v) f h = absurd h
with_known-IsError unknown f h = absurd h
with_known-IsError (error e) f h = tt

with_both-IsError_left :
    (r s : StaticIntegerResult) (f : ℤ → ℤ → StaticIntegerResult)
    → IsError r
    → IsError (with_both r s f)
unfolding with_both
with_both-IsError_left (known v) s f h = absurd h
with_both-IsError_left unknown s f h = absurd h
with_both-IsError_left (error e) s f h = tt

with_both-IsError_right :
    (r s : StaticIntegerResult) (f : ℤ → ℤ → StaticIntegerResult)
    → IsError s
    → IsError (with_both r s f)
unfolding with_both
with_both-IsError_right r (known v) f h = absurd h
with_both-IsError_right r unknown f h = absurd h
with_both-IsError_right (known v) (error e) f h = tt
with_both-IsError_right unknown (error e) f h = tt
with_both-IsError_right (error d) (error e) f h = tt

-- An error anywhere in an expression, below any operators and calls of Clone and whatever stands beside
-- it, is an error of the whole expression.
pub evaluate_expression-IsError :
    (resolver : Option (List ℕ → StaticIntegerResult)) (e whole : ExprNode)
    → Below e whole
    → IsError (evaluate_expression resolver e)
    → IsError (evaluate_expression resolver whole)
unfolding evaluate_expression
evaluate_expression-IsError resolver e whole here h = h
evaluate_expression-IsError resolver e whole (in_clone x b) h =
    evaluate_expression-IsError resolver e x b h
evaluate_expression-IsError resolver e whole (in_unary op x b) h =
    with_known-IsError _ _ (evaluate_expression-IsError resolver e x b h)
evaluate_expression-IsError resolver e whole (in_left op l r b) h =
    with_both-IsError_left _ _ _ (evaluate_expression-IsError resolver e l b h)
evaluate_expression-IsError resolver e whole (in_right op l r b) h =
    with_both-IsError_right _ _ _ (evaluate_expression-IsError resolver e r b h)

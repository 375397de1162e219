-- ===== src/Static/Evaluator.antt =====
-- evaluateExpression of src/compiler/static_integer_evaluator.cpp over the nodes of src/ast/ast.h that it
-- tells apart.
use atomic_proof_interpreter.Prelude.{
  ℕ, ◌+◌, ◌-◌, ◌*◌, Bool, true, not, ◌&&◌, ◌||◌, ◌==◌, ltb, leb, Option, none, some, List, [], ◌∷◌,
  if◌then◌else◌,
}
use atomic_proof_interpreter.Script.Codec.{eq_text}
use atomic_proof_interpreter.Prelude.Int.{ℤ, pos, ltb_ℤ, eqb_ℤ}
use atomic_proof_interpreter.Vm.Number.{int64_max, negate}
use atomic_proof_interpreter.Static.Checked.{
  StaticIntegerError, StaticIntegerResult, known, unknown, error, checked_add, checked_subtract,
  checked_multiply, checked_divide, checked_modulo, checked_negate,
}

-- The operators by their text; `other` is any text that the evaluator does not know.
pub data Operator : Type 0 where
  plus minus times divide modulo equal not_equal less greater less_equal greater_equal : Operator
  and_ or_ not_ other : Operator

-- A literal has its text, where it is a number; a method call is Clone without arguments on an
-- object, or any other; an operation without right operand is `unsupported`, as is any other node.
pub data ExprNode : Type 0 where
  number_literal : List ℕ → ExprNode
  identifier : List ℕ → ExprNode
  clone : ExprNode → ExprNode
  unary : Operator → ExprNode → ExprNode
  binary : Operator → ExprNode → ExprNode → ExprNode
  unsupported : ExprNode

-- std::from_chars of base 10: the digits at the front, and what is left of the text.
unfoldable pub digits_value : ℕ → List ℕ → ℕ
digits_value acc [] = acc
digits_value acc (c ∷ text) = digits_value (acc * 10 + (c - b'0')) text

unfoldable pub is_digit : ℕ → Bool
is_digit c = leb b'0' c && leb c b'9'

unfoldable pub leading_digits : List ℕ → List ℕ
unfolding is_digit
leading_digits [] = []
leading_digits (c ∷ text) = let rest = leading_digits text in if is_digit c then c ∷ rest else []

unfoldable pub all_digits : List ℕ → Bool
unfolding is_digit
all_digits [] = true
all_digits (c ∷ text) = is_digit c && all_digits text

-- The magnitude read, its bound, and the sign: out of range goes before a text that is not used up.
unfoldable pub parse_magnitude : ℕ → (ℕ → ℤ) → List ℕ → StaticIntegerResult
unfolding leading_digits digits_value all_digits
parse_magnitude bound signed [] = error StaticIntegerError.invalid_literal
parse_magnitude bound signed (c ∷ text) =
    if not (is_digit c)
    then error StaticIntegerError.invalid_literal
    else if ltb bound (digits_value 0 (leading_digits (c ∷ text)))
    then error StaticIntegerError.literal_out_of_range
    else if not (all_digits (c ∷ text))
    then error StaticIntegerError.invalid_literal
    else known (signed (digits_value 0 (c ∷ text)))

unfoldable pub parse_integer_literal : List ℕ → StaticIntegerResult
unfolding parse_magnitude
parse_integer_literal [] = error StaticIntegerError.invalid_literal
parse_integer_literal (c ∷ text) =
    if c == b'-'
    then parse_magnitude (int64_max + 1) negate text
    else parse_magnitude int64_max pos (c ∷ text)

unfoldable pub truth : Bool → StaticIntegerResult
truth b = known (if b then pos 1 else pos 0)

unfoldable pub apply_unary : Operator → ℤ → StaticIntegerResult
unfolding truth
apply_unary minus v = checked_negate v
apply_unary not_ v = truth (eqb_ℤ v (pos 0))
apply_unary _ v = unknown

unfoldable pub apply_binary : Operator → ℤ → ℤ → StaticIntegerResult
unfolding truth
apply_binary plus a b = checked_add a b
apply_binary minus a b = checked_subtract a b
apply_binary times a b = checked_multiply a b
apply_binary divide a b = checked_divide a b
apply_binary modulo a b = checked_modulo a b
apply_binary equal a b = truth (eqb_ℤ a b)
apply_binary not_equal a b = truth (not (eqb_ℤ a b))
apply_binary less a b = truth (ltb_ℤ a b)
apply_binary greater a b = truth (ltb_ℤ b a)
apply_binary less_equal a b = truth (not (ltb_ℤ b a))
apply_binary greater_equal a b = truth (not (ltb_ℤ a b))
apply_binary and_ a b = truth (not (eqb_ℤ a (pos 0)) && not (eqb_ℤ b (pos 0)))
apply_binary or_ a b = truth (not (eqb_ℤ a (pos 0)) || not (eqb_ℤ b (pos 0)))
apply_binary _ a b = unknown

-- What is not known is passed on.
unfoldable pub with_known : StaticIntegerResult → (ℤ → StaticIntegerResult) → StaticIntegerResult
with_known (known v) f = f v
with_known unknown f = unknown
with_known (error e) f = error e

-- An error of either side goes before a side that is not known.
unfoldable pub with_both :
    StaticIntegerResult → StaticIntegerResult → (ℤ → ℤ → StaticIntegerResult) → StaticIntegerResult
with_both (error e) rhs f = error e
with_both (known a) (error e) f = error e
with_both unknown (error e) f = error e
with_both (known a) (known b) f = f a b
with_both _ _ f = unknown

-- The resolver may be missing.
unfoldable pub resolve : Option (List ℕ → StaticIntegerResult) → List ℕ → StaticIntegerResult
resolve none name = unknown
resolve (some f) name = f name

unfoldable pub evaluate_expression :
    Option (List ℕ → StaticIntegerResult) → ExprNode → StaticIntegerResult
unfolding parse_integer_literal resolve with_known with_both apply_unary apply_binary
evaluate_expression env (number_literal text) = parse_integer_literal text
evaluate_expression env (identifier name) = resolve env name
evaluate_expression env (clone e) = evaluate_expression env e
evaluate_expression env (unary op e) = with_known (evaluate_expression env e) (apply_unary op)
evaluate_expression env (binary op l r) =
    with_both (evaluate_expression env l) (evaluate_expression env r) (apply_binary op)
evaluate_expression env unsupported = unknown

-- A std::map from names to values, by its entries.
unfoldable pub find_binding : List ℕ → List (List ℕ × ℤ) → StaticIntegerResult
unfolding eq_text
find_binding name [] = unknown
find_binding name ((key, value) ∷ bindings) =
    if eq_text key name then known value else find_binding name bindings

unfoldable pub evaluate_bindings : ExprNode → List (List ℕ × ℤ) → StaticIntegerResult
unfolding evaluate_expression find_binding
evaluate_bindings e bindings = evaluate_expression (some (λ name. find_binding name bindings)) e

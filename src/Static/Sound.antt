-- ===== src/Static/Sound.antt =====
-- evaluateExpression of src/compiler/static_integer_evaluator.cpp as a whole: the range of its
-- values.
use atomic_proof_interpreter.Prelude.{
  ℕ, ◌+◌, ◌≡◌, ◌≤◌, refl, arith, Bool, true, false, not, ◌&&◌, ◌==◌, ltb, some, List, [], ◌∷◌,
  if◌then◌else◌, Bool-cases, inl, inr,
}
use atomic_proof_interpreter.Prelude.Int.{ℤ, pos, negsuc, ◌+ℤ◌, ◌-ℤ◌, ◌*ℤ◌, eqb_ℤ}
use atomic_proof_interpreter.Vm.Number.{int64_max, negate}
use atomic_proof_interpreter.Vm.Numeric.{quotient}
use atomic_proof_interpreter.Static.Checked.{
  StaticIntegerError, StaticIntegerResult, known, unknown, error,
}
use atomic_proof_interpreter.Static.Exact.{InInt64, fits, or_error, checked_arithmetic-exact}
use atomic_proof_interpreter.Static.Quotients.{
  checked_division-exact, negate-InInt64, remainder-InInt64,
}
use atomic_proof_interpreter.Static.Evaluator.{
  Operator, plus, minus, times, divide, modulo, equal, not_equal, less, greater, less_equal,
  greater_equal, and_, or_, not_, ExprNode, number_literal, identifier, clone, unary, binary,
  unsupported, digits_value, is_digit, leading_digits, all_digits, parse_magnitude,
  parse_integer_literal, truth, apply_unary, apply_binary, with_known, with_both, resolve,
  evaluate_expression,
}

-- A result that is no value, or a value that an int64_t holds.
abbrev pub InRange : StaticIntegerResult → Type 0
InRange (known v) = InInt64 v
InRange unknown = Unit
InRange (error e) = Unit

or_error-InRange : (e : StaticIntegerError) (z : ℤ) → InRange (or_error e z)
or_error-InRange e (pos n) = ground arith
or_error-InRange e (negsuc n) = ground arith

truth-InRange : (b : Bool) → InRange (truth b)
unfolding truth
truth-InRange true = omega arith
truth-InRange false = omega arith

if_InRange :
    (c : Bool) (x y : StaticIntegerResult) → InRange x → InRange y → InRange (if c then x else y)
if_InRange true x y h k = h
if_InRange false x y h k = k

apply_unary-InRange : (op : Operator) (v : ℤ) → InInt64 v → InRange (apply_unary op v)
unfolding apply_unary
apply_unary-InRange minus v h =
    rw (checked_arithmetic-exact v v h h).3
      (or_error-InRange StaticIntegerError.negation_overflow (pos 0 -ℤ v))
apply_unary-InRange not_ v h = truth-InRange _
apply_unary-InRange _ v h = tt

apply_binary-InRange :
    (op : Operator) (a b : ℤ) → InInt64 a → InInt64 b → InRange (apply_binary op a b)
unfolding apply_binary
apply_binary-InRange plus a b h k =
    rw (checked_arithmetic-exact a b h k).0
      (or_error-InRange StaticIntegerError.addition_overflow (a +ℤ b))
apply_binary-InRange minus a b h k =
    rw (checked_arithmetic-exact a b h k).1
      (or_error-InRange StaticIntegerError.subtraction_overflow (a -ℤ b))
apply_binary-InRange times a b h k =
    rw (checked_arithmetic-exact a b h k).2
      (or_error-InRange StaticIntegerError.multiplication_overflow (a *ℤ b))
apply_binary-InRange divide a b h k = rw (checked_division-exact a b h k).0 (
    if_InRange (eqb_ℤ b (pos 0)) _ _ tt
      (or_error-InRange StaticIntegerError.division_overflow (quotient a b)))
apply_binary-InRange modulo a b h k = rw (checked_division-exact a b h k).1 (
    if_InRange (eqb_ℤ b (pos 0)) _ _ tt
      (if_InRange (fits (quotient a b)) _ _ (remainder-InInt64 a b h) tt))
apply_binary-InRange equal a b h k = truth-InRange _
apply_binary-InRange not_equal a b h k = truth-InRange _
apply_binary-InRange less a b h k = truth-InRange _
apply_binary-InRange greater a b h k = truth-InRange _
apply_binary-InRange less_equal a b h k = truth-InRange _
apply_binary-InRange greater_equal a b h k = truth-InRange _
apply_binary-InRange and_ a b h k = truth-InRange _
apply_binary-InRange or_ a b h k = truth-InRange _
apply_binary-InRange _ a b h k = tt

both_true : (a b : Bool) → a && b ≡ true → (a ≡ true) × (b ≡ true)
both_true a b h = (ground arith, ground arith)

leading_all : (text : List ℕ) → all_digits text ≡ true → leading_digits text ≡ text
unfolding all_digits leading_digits
leading_all [] h = refl
leading_all (c ∷ text) h =
    let (d, r) = both_true (is_digit c) (all_digits text) h in rw (d, leading_all text r) refl

parse_magnitude-InRange :
    (bound : ℕ) (signed : ℕ → ℤ) (text : List ℕ)
    → ((n : ℕ) → n ≤ bound → InInt64 (signed n))
    → InRange (parse_magnitude bound signed text)
unfolding parse_magnitude
parse_magnitude-InRange bound signed [] h = tt
parse_magnitude-InRange bound signed (c ∷ text) h =
    if_InRange (not (is_digit c)) _ _ tt
      (elim (Bool-cases (ltb bound (digits_value 0 (leading_digits (c ∷ text))))) [
        | inl e ↦ rw e tt
        | inr e ↦ elim (Bool-cases (all_digits (c ∷ text))) [
          | inl f ↦
              let g : leading_digits (c ∷ text) ≡ c ∷ text = leading_all (c ∷ text) f in
              let x : ltb bound (digits_value 0 (c ∷ text)) ≡ false = rw g at e in
              let small : digits_value 0 (c ∷ text) ≤ bound = ground arith in
              rw (e, f) (h (digits_value 0 (c ∷ text)) small)
          | inr f ↦ rw (e, f) tt
        ]
      ])

parse_integer_literal-InRange : (text : List ℕ) → InRange (parse_integer_literal text)
unfolding parse_integer_literal
parse_integer_literal-InRange [] = tt
parse_integer_literal-InRange (c ∷ text) =
    if_InRange (c == b'-') _ _
      (parse_magnitude-InRange (int64_max + 1) negate text (λ n h. negate-InInt64 n h))
      (parse_magnitude-InRange int64_max pos (c ∷ text) (λ n h. omega arith))

with_known-InRange :
    (r : StaticIntegerResult) (f : ℤ → StaticIntegerResult)
    → InRange r
    → ((v : ℤ) → InInt64 v → InRange (f v))
    → InRange (with_known r f)
unfolding with_known
with_known-InRange (known v) f h k = k v h
with_known-InRange unknown f h k = tt
with_known-InRange (error e) f h k = tt

with_both-InRange :
    (r s : StaticIntegerResult) (f : ℤ → ℤ → StaticIntegerResult)
    → InRange r
    → InRange s
    → ((a b : ℤ) → InInt64 a → InInt64 b → InRange (f a b))
    → InRange (with_both r s f)
unfolding with_both
with_both-InRange (known a) (known b) f h k g = g a b h k
with_both-InRange (known a) unknown f h k g = tt
with_both-InRange (known a) (error e) f h k g = tt
with_both-InRange unknown (known b) f h k g = tt
with_both-InRange unknown unknown f h k g = tt
with_both-InRange unknown (error e) f h k g = tt
with_both-InRange (error e) s f h k g = tt

-- Where the resolver gives only values that an int64_t holds, an expression evaluates to such a value,
-- or to none.
pub evaluate_expression-InRange :
    (resolver : List ℕ → StaticIntegerResult)
    → ((name : List ℕ) → InRange (resolver name))
    → (e : ExprNode) → InRange (evaluate_expression (some resolver) e)
unfolding evaluate_expression resolve
evaluate_expression-InRange resolver h (number_literal text) = parse_integer_literal-InRange text
evaluate_expression-InRange resolver h (identifier name) = h name
evaluate_expression-InRange resolver h (clone e) = evaluate_expression-InRange resolver h e
evaluate_expression-InRange resolver h (unary op e) =
    with_known-InRange _ _ (evaluate_expression-InRange resolver h e) (apply_unary-InRange op)
evaluate_expression-InRange resolver h (binary op l r) =
    with_both-InRange _ _ _ (evaluate_expression-InRange resolver h l)
      (evaluate_expression-InRange resolver h r) (apply_binary-InRange op)
evaluate_expression-InRange resolver h unsupported = tt

-- ===== src/Vm/Numeric.antt =====
-- The number and comparison instructions of src/debugger/vm/bvm_simulator.cpp, op_add to op_verify.
-- int64_t arithmetic wraps to 64 bits where C++ leaves an overflow undefined.
use atomic_proof_interpreter.Prelude.{
  ℕ, suc, ◌-◌, ◌/◌, ◌%◌, ◌^◌, Bool, true, false, not, ◌&&◌, ◌||◌, Option, none, some, [], ◌∷◌, ltb,
  ◌==◌, if◌then◌else◌, Result, ok, err, ◌>>=◌,
}
use atomic_proof_interpreter.Prelude.Int.{ℤ, pos, negsuc, ◌+ℤ◌, ◌-ℤ◌, ◌*ℤ◌, ltb_ℤ, eqb_ℤ}
use atomic_proof_interpreter.Vm.Number.{Element, to_int, abs_value, negate}
use atomic_proof_interpreter.Vm.Stack.{VmError, Stack, Outcome, push_int, pop}
use atomic_proof_interpreter.Vm.Ops.{is_true}

-- Two's complement.
unfoldable pub to_int64 : ℕ → ℤ
to_int64 w = if ltb w (2 ^ 63) then pos w else negsuc (2 ^ 64 - 1 - w)

unfoldable pub wrap64 : ℤ → ℤ
unfolding to_int64
wrap64 (pos n) = to_int64 (n % 2 ^ 64)
wrap64 (negsuc n) = to_int64 (2 ^ 64 - 1 - n % 2 ^ 64)

-- Pops b, then a; both must be numbers.
unfoldable pub both : Option ℤ → Option ℤ → Result VmError (ℤ × ℤ)
both (some a) (some b) = ok (a, b)
both _ _ = err VmError.not_a_number

unfoldable pub numeric_pair : Stack → Result VmError (ℤ × ℤ × Stack)
unfolding pop both
numeric_pair s = do
  (b, s₁) ← pop s
  (a, s₂) ← pop s₁
  (x, y) ← both (to_int a) (to_int b)
  ok (x, y, s₂)

unfoldable pub numeric : Option ℤ → Result VmError ℤ
numeric none = err VmError.not_a_number
numeric (some a) = ok a

unfoldable pub numeric_top : Stack → Result VmError (ℤ × Stack)
unfolding pop numeric
numeric_top s = do (a, s₁) ← pop s; x ← numeric (to_int a); ok (x, s₁)

unfoldable pub op_add : Stack → Outcome
unfolding numeric_pair push_int
op_add s = do (a, b, s₁) ← numeric_pair s; ok (push_int (wrap64 (a +ℤ b)) s₁)

unfoldable pub op_sub : Stack → Outcome
unfolding numeric_pair push_int
op_sub s = do (a, b, s₁) ← numeric_pair s; ok (push_int (wrap64 (a -ℤ b)) s₁)

unfoldable pub op_mul : Stack → Outcome
unfolding numeric_pair push_int
op_mul s = do (a, b, s₁) ← numeric_pair s; ok (push_int (wrap64 (a *ℤ b)) s₁)

-- C++ division and remainder: the quotient is cut towards 0, the remainder has the dividend's sign.
unfoldable pub quotient : ℤ → ℤ → ℤ
unfolding abs_value negate
quotient (pos a) (pos b) = pos (a / b)
quotient (pos a) (negsuc b) = negate (a / suc b)
quotient (negsuc a) (pos b) = negate (suc a / b)
quotient (negsuc a) (negsuc b) = pos (suc a / suc b)

unfoldable pub remainder : ℤ → ℤ → ℤ
unfolding abs_value negate
remainder (pos a) b = pos (a % abs_value b)
remainder (negsuc a) b = negate (suc a % abs_value b)

unfoldable pub op_div : Stack → Outcome
unfolding numeric_pair push_int
op_div s = do
  (a, b, s₁) ← numeric_pair s
  if abs_value b == 0
      then err VmError.division_by_zero
      else ok (push_int (wrap64 (quotient a b)) s₁)

unfoldable pub op_mod : Stack → Outcome
unfolding numeric_pair push_int
op_mod s = do
  (a, b, s₁) ← numeric_pair s
  if abs_value b == 0 then err VmError.division_by_zero else ok (push_int (remainder a b) s₁)

unfoldable pub op_neg : Stack → Outcome
unfolding numeric_top push_int
op_neg s = do (a, s₁) ← numeric_top s; ok (push_int (wrap64 (pos 0 -ℤ a)) s₁)

unfoldable pub op_abs : Stack → Outcome
unfolding numeric_top push_int
op_abs s = do (a, s₁) ← numeric_top s; ok (push_int (wrap64 (pos (abs_value a))) s₁)

unfoldable pub op_inc : Stack → Outcome
unfolding numeric_top push_int
op_inc s = do (a, s₁) ← numeric_top s; ok (push_int (wrap64 (a +ℤ pos 1)) s₁)

unfoldable pub op_dec : Stack → Outcome
unfolding numeric_top push_int
op_dec s = do (a, s₁) ← numeric_top s; ok (push_int (wrap64 (a -ℤ pos 1)) s₁)

-- `c ? 1 : 0`
unfoldable pub flag : Bool → ℤ
flag c = if c then pos 1 else pos 0

unfoldable pub op_0notequal : Stack → Outcome
unfolding pop push_int flag
op_0notequal s = do (a, s₁) ← pop s; ok (push_int (flag (is_true (to_int a))) s₁)

-- Only a number that is 0 gives 1; other bytes give 0, as do other numbers.
unfoldable pub is_zero : Option ℤ → Bool
is_zero (some (pos n)) = n == 0
is_zero _ = false

unfoldable pub op_not : Stack → Outcome
unfolding pop push_int flag
op_not s = do (a, s₁) ← pop s; ok (push_int (flag (is_zero (to_int a))) s₁)

-- std::vector equality.
unfoldable pub eq_bytes : Element → Element → Bool
eq_bytes [] [] = true
eq_bytes (x ∷ xs) (y ∷ ys) = x == y && eq_bytes xs ys
eq_bytes _ _ = false

unfoldable pub op_equal : Stack → Outcome
unfolding pop push_int flag
op_equal s = do (b, s₁) ← pop s; (a, s₂) ← pop s₁; ok (push_int (flag (eq_bytes a b)) s₂)

unfoldable pub compare_with : (ℤ → ℤ → Bool) → Stack → Outcome
unfolding numeric_pair push_int flag
compare_with test s = do (a, b, s₁) ← numeric_pair s; ok (push_int (flag (test a b)) s₁)

unfoldable pub op_numequal : Stack → Outcome
unfolding compare_with
op_numequal = compare_with eqb_ℤ

unfoldable pub op_numnotequal : Stack → Outcome
unfolding compare_with
op_numnotequal = compare_with (λ a b. not (eqb_ℤ a b))

unfoldable pub op_lessthan : Stack → Outcome
unfolding compare_with
op_lessthan = compare_with ltb_ℤ

unfoldable pub op_greaterthan : Stack → Outcome
unfolding compare_with
op_greaterthan = compare_with (λ a b. ltb_ℤ b a)

unfoldable pub op_lessthanorequal : Stack → Outcome
unfolding compare_with
op_lessthanorequal = compare_with (λ a b. not (ltb_ℤ b a))

unfoldable pub op_greaterthanorequal : Stack → Outcome
unfolding compare_with
op_greaterthanorequal = compare_with (λ a b. not (ltb_ℤ a b))

unfoldable pub op_min : Stack → Outcome
unfolding numeric_pair push_int
op_min s = do (a, b, s₁) ← numeric_pair s; ok (push_int (if ltb_ℤ b a then b else a) s₁)

unfoldable pub op_max : Stack → Outcome
unfolding numeric_pair push_int
op_max s = do (a, b, s₁) ← numeric_pair s; ok (push_int (if ltb_ℤ a b then b else a) s₁)

unfoldable pub op_within : Stack → Outcome
unfolding pop numeric push_int flag
op_within s = do
  (hi, s₁) ← pop s
  (lo, s₂) ← pop s₁
  (e, s₃) ← pop s₂
  x ← numeric (to_int e)
  low ← numeric (to_int lo)
  high ← numeric (to_int hi)
  ok (push_int (flag (not (ltb_ℤ x low) && ltb_ℤ x high)) s₃)

unfoldable pub op_and : Stack → Outcome
unfolding compare_with
op_and = compare_with (λ a b. is_true (some a) && is_true (some b))

unfoldable pub op_or : Stack → Outcome
unfolding compare_with
op_or = compare_with (λ a b. is_true (some a) || is_true (some b))

unfoldable pub op_verify : Stack → Outcome
unfolding pop
op_verify s = do (a, s₁) ← pop s; if is_true (to_int a) then ok s₁ else err VmError.verify_failed

-- ===== src/Vm/Ops.antt =====
-- The stack instructions of src/debugger/vm/bvm_simulator.cpp, op_dup to op_roll and op_size, on the
-- main stack. Each pops and pushes in the order of the source.
use atomic_proof_interpreter.Prelude.{
  ℕ, Bool, true, false, not, Option, none, some, List, [], ◌∷◌, length, ◌==◌, if◌then◌else◌, Result,
  ok, err, ◌>>=◌,
}
use atomic_proof_interpreter.Prelude.Int.{ℤ, pos, negsuc}
use atomic_proof_interpreter.Vm.Number.{to_int}
use atomic_proof_interpreter.Vm.Stack.{
  VmError, Stack, Outcome, push, push_int, pop, peek, dup, drop_top, drop_many, pick, roll,
}

-- The operand is the decoded hexadecimal text; an empty one is refused.
unfoldable pub op_push : List ℕ → Stack → Outcome
op_push [] s = err VmError.missing_operand
op_push (b ∷ bytes) s = ok (push (b ∷ bytes) s)

unfoldable pub op_2drop : Stack → Outcome
unfolding drop_many
op_2drop = drop_many 2

unfoldable pub op_2dup : Stack → Outcome
unfolding pop push
op_2dup s = do (x2, s₁) ← pop s; (x1, s₂) ← pop s₁; ok (push x2 (push x1 (push x2 (push x1 s₂))))

unfoldable pub op_3dup : Stack → Outcome
unfolding pop push
op_3dup s = do
  (x3, s₁) ← pop s
  (x2, s₂) ← pop s₁
  (x1, s₃) ← pop s₂
  ok (push x3 (push x2 (push x1 (push x3 (push x2 (push x1 s₃))))))

unfoldable pub op_over : Stack → Outcome
unfolding pick
op_over = pick 1

unfoldable pub op_2over : Stack → Outcome
unfolding pick
op_2over s = do s₁ ← pick 3 s; pick 3 s₁

unfoldable pub op_rot : Stack → Outcome
unfolding pop push
op_rot s = do
  (x3, s₁) ← pop s
  (x2, s₂) ← pop s₁
  (x1, s₃) ← pop s₂
  ok (push x1 (push x3 (push x2 s₃)))

unfoldable pub op_2rot : Stack → Outcome
unfolding pop push
op_2rot s = do
  (x6, s₁) ← pop s
  (x5, s₂) ← pop s₁
  (x4, s₃) ← pop s₂
  (x3, s₄) ← pop s₃
  (x2, s₅) ← pop s₄
  (x1, s₆) ← pop s₅
  ok (push x2 (push x1 (push x6 (push x5 (push x4 (push x3 s₆))))))

unfoldable pub op_2swap : Stack → Outcome
unfolding pop push
op_2swap s = do
  (x4, s₁) ← pop s
  (x3, s₂) ← pop s₁
  (x2, s₃) ← pop s₂
  (x1, s₄) ← pop s₃
  ok (push x2 (push x1 (push x4 (push x3 s₄))))

-- `val && *val != 0`
unfoldable pub is_true : Option ℤ → Bool
is_true none = false
is_true (some (pos n)) = not (n == 0)
is_true (some (negsuc n)) = true

unfoldable pub op_ifdup : Stack → Outcome
unfolding peek dup
op_ifdup s = do top ← peek 0 s; if is_true (to_int top) then dup s else ok s

unfoldable pub op_depth : Stack → Outcome
unfolding push_int
op_depth s = ok (push_int (pos (length s)) s)

unfoldable pub op_nip : Stack → Outcome
unfolding roll drop_top
op_nip s = do s₁ ← roll 1 s; drop_top s₁

unfoldable pub op_tuck : Stack → Outcome
unfolding pop push
op_tuck s = do (x2, s₁) ← pop s; (x1, s₂) ← pop s₁; ok (push x2 (push x1 (push x2 s₂)))

-- A depth on the stack: a number, and not negative.
unfoldable pub to_depth : Option ℤ → Result VmError ℕ
to_depth none = err VmError.bad_index
to_depth (some (negsuc n)) = err VmError.bad_index
to_depth (some (pos n)) = ok n

unfoldable pub op_pick : Stack → Outcome
unfolding pop to_depth pick
op_pick s = do (e, s₁) ← pop s; depth ← to_depth (to_int e); pick depth s₁

unfoldable pub op_roll : Stack → Outcome
unfolding pop to_depth roll
op_roll s = do (e, s₁) ← pop s; depth ← to_depth (to_int e); roll depth s₁

unfoldable pub op_size : Stack → Outcome
unfolding pop push push_int
op_size s = do (x, s₁) ← pop s; ok (push_int (pos (length x)) (push x s₁))

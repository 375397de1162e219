-- ===== src/Vm/Blocks.antt =====
-- Conditional blocks of src/debugger/vm/bvm_simulator.cpp: code in a block that is not executing.
use atomic_proof_interpreter.Prelude.{
  ℕ, zero, suc, ◌≡◌, ◌≤◌, ◌==◌, refl, arith, ◌∙◌, Bool, true, false, List, [], ◌∷◌, ◌++◌, length,
  Result, ok, ◌>>=◌, if◌then◌else◌,
}
use atomic_proof_interpreter.Vm.Stack.{VmError}
use atomic_proof_interpreter.Vm.Machine.{
  BytOpcode, Instruction, Signatures, Vm, all_true, is_currently_executing, is_control_flow,
  open_block, flip_block, op_else, close_block, op_endif, dispatch, execute_opcode, Run, going,
  stopped, returns,
}

-- Instructions executed one after the other, until an OP_RETURN is executed.
unfoldable pub execute_all : Signatures → List Instruction → Vm → Result VmError Run
unfolding returns
execute_all env [] vm = ok (going vm)
execute_all env (i ∷ is) vm = do
  vm' ← execute_opcode env i vm
  if returns i vm then ok (stopped vm') else execute_all env is vm'

-- What an instruction does to the blocks.
pub data Flow : Type 0 where
  opens middle ends straight : Flow

unfoldable pub flow : Instruction → Flow
flow (Instruction.opcode BytOpcode.if_) = opens
flow (Instruction.opcode BytOpcode.notif) = opens
flow (Instruction.opcode BytOpcode.else_) = middle
flow (Instruction.opcode BytOpcode.endif) = ends
flow i = straight

-- Code that closes the given number of blocks and all that it opens itself.
unfoldable pub closes_with : (ℕ → Bool) → Flow → ℕ → Bool
closes_with rest opens n = rest (suc n)
closes_with rest straight n = rest n
closes_with rest middle zero = false
closes_with rest middle (suc n) = rest (suc n)
closes_with rest ends zero = false
closes_with rest ends (suc n) = rest n

unfoldable pub closes : List Instruction → ℕ → Bool
unfolding flow closes_with
closes [] n = n == 0
closes (i ∷ is) n = closes_with (closes is) (flow i) n

abbrev pub with_conditions : Vm → List Bool → Vm
with_conditions vm cs = record vm { condition_stack = cs }

all_true-append : (xs ys : List Bool) → all_true ys ≡ false → all_true (xs ++ ys) ≡ false
unfolding all_true
all_true-append [] ys h = h
all_true-append (x ∷ xs) ys h = ground (arith, all_true-append xs ys h)

-- What one instruction does to the conditions where an outer block is not executing.
unfoldable skip_conditions : Flow → List Bool → List Bool
skip_conditions opens cs = false ∷ cs
skip_conditions middle (c ∷ cs) = false ∷ cs
skip_conditions ends (c ∷ cs) = cs
skip_conditions _ cs = cs

closes_with-next :
    (rest : ℕ → Bool) (f : Flow) (opened : List Bool)
    → closes_with rest f (length opened) ≡ true
    → (rest (length (skip_conditions f opened)) ≡ true)
      × (f ≡ middle → 1 ≤ length opened)
      × (f ≡ ends → 1 ≤ length opened)
unfolding closes_with skip_conditions
closes_with-next rest opens opened c = (c, λ e. ground arith, λ e. ground arith)
closes_with-next rest straight opened c = (c, λ e. ground arith, λ e. ground arith)
closes_with-next rest middle [] c = absurd (ground arith)
closes_with-next rest middle (o ∷ opened) c = (c, λ e. ground arith, λ e. ground arith)
closes_with-next rest ends [] c = absurd (ground arith)
closes_with-next rest ends (o ∷ opened) c = (c, λ e. ground arith, λ e. ground arith)

module _ (env : Signatures) (vm : Vm) where
  execute_skipped :
      (i : Instruction) (opened outer : List Bool)
      → all_true outer ≡ false
      → (flow i ≡ middle → 1 ≤ length opened)
      → (flow i ≡ ends → 1 ≤ length opened)
      → execute_opcode env i (with_conditions vm (opened ++ outer))
        ≡ ok (with_conditions vm (skip_conditions (flow i) opened ++ outer))
  unfolding execute_opcode is_currently_executing is_control_flow flow skip_conditions open_block
      op_else flip_block op_endif close_block dispatch
  execute_skipped (Instruction.opcode BytOpcode.if_) opened outer h m e =
      rw (all_true-append opened outer h) refl
  execute_skipped (Instruction.opcode BytOpcode.notif) opened outer h m e =
      rw (all_true-append opened outer h) refl
  execute_skipped (Instruction.opcode BytOpcode.else_) [] outer h m e =
      absurd (omega (arith, m refl))
  execute_skipped (Instruction.opcode BytOpcode.else_) (o ∷ opened) outer h m e =
      ground (arith, all_true-append opened outer h)
  execute_skipped (Instruction.opcode BytOpcode.endif) [] outer h m e =
      absurd (omega (arith, e refl))
  execute_skipped (Instruction.opcode BytOpcode.endif) (o ∷ opened) outer h m e =
      ground (arith, all_true-append opened outer h)
  execute_skipped i opened outer h m e = rw (all_true-append opened outer h) refl

  execute_cons :
      (i : Instruction) (is : List Instruction) (w w' : Vm)
      → returns i w ≡ false
      → execute_opcode env i w ≡ ok w'
      → execute_all env (i ∷ is) w ≡ execute_all env is w'
  unfolding execute_all
  execute_cons i is w w' f e = rw (e, f) refl

  -- Nothing that is skipped returns.
  returns_skipped :
      (i : Instruction) (opened outer : List Bool)
      → all_true outer ≡ false
      → returns i (with_conditions vm (opened ++ outer)) ≡ false
  unfolding returns is_currently_executing
  returns_skipped (Instruction.opcode BytOpcode.return_) opened outer h =
      all_true-append opened outer h
  returns_skipped i opened outer h = refl

  -- Code inside blocks of which an outer one is not executing touches neither stack, whatever it
  -- holds, and leaves the conditions as they were outside the blocks it closes.
  pub execute_all-skipped :
      (is : List Instruction) (opened outer : List Bool)
      → all_true outer ≡ false
      → closes is (length opened) ≡ true
      → execute_all env is (with_conditions vm (opened ++ outer))
        ≡ ok (going (with_conditions vm outer))
  unfolding closes
  execute_all-skipped [] [] outer h c = unfold execute_all in refl
  execute_all-skipped [] (o ∷ opened) outer h c = absurd (ground arith)
  execute_all-skipped (i ∷ is) opened outer h c =
      let (next, m, e) = closes_with-next (closes is) (flow i) opened c in
      execute_cons i is _ _ (returns_skipped i opened outer h)
        (execute_skipped i opened outer h m e)
      ∙ execute_all-skipped is (skip_conditions (flow i) opened) outer h next

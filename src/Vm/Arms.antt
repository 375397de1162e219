-- ===== src/Vm/Arms.antt =====
-- OP_IF, OP_NOTIF and OP_ELSE of src/debugger/vm/bvm_simulator.cpp: which arm of a block runs.
use atomic_proof_interpreter.Prelude.{
  ◌≡◌, refl, arith, ◌∙◌, Bool, true, false, not, List, [], ◌∷◌, ◌++◌, if◌then◌else◌, Result, ok,
  Result-cases, Bool-cases, inl, inr,
}
use atomic_proof_interpreter.Vm.Number.{Element, to_int}
use atomic_proof_interpreter.Vm.Stack.{VmError, Stack, pop}
use atomic_proof_interpreter.Vm.Ops.{is_true}
use atomic_proof_interpreter.Vm.Machine.{
  BytOpcode, Instruction, BranchArm, CallFrame, Signatures, Vm, all_true, is_currently_executing,
  is_control_flow, record_arm, open_block, flip_block, op_else, close_block, op_endif, dispatch,
  execute_opcode, going, returns,
}
use atomic_proof_interpreter.Vm.Blocks.{execute_all, closes, with_conditions, execute_all-skipped}

-- The instruction that opens a block which runs its first arm on a true condition, or on a false.
abbrev pub opener : Bool → Instruction
opener true = Instruction.opcode BytOpcode.if_
opener false = Instruction.opcode BytOpcode.notif

abbrev pub taken : Vm → Stack → List CallFrame → BranchArm → List Bool → Vm
taken vm s frames arm cs = with_conditions (record_arm arm (record vm { main_stack = s }) frames) cs

abbrev pub else_code : Instruction
else_code = Instruction.opcode BytOpcode.else_

abbrev pub endif_code : Instruction
endif_code = Instruction.opcode BytOpcode.endif

-- Whether the first arm runs.
abbrev pub selects : Bool → Element → Bool
selects wanted c = if wanted then is_true (to_int c) else not (is_true (to_int c))

abbrev pub arm_of : Bool → BranchArm
arm_of runs = if runs then BranchArm.then_arm else BranchArm.else_arm

module _ (env : Signatures) where
  execute_all-append :
      (xs ys : List Instruction) (vm vm' : Vm)
      → execute_all env xs vm ≡ ok (going vm')
      → execute_all env (xs ++ ys) vm ≡ execute_all env ys vm'
  unfolding execute_all
  execute_all-append [] ys vm vm' e = ground arith
  execute_all-append (x ∷ xs) ys vm vm' e = elim (Result-cases (execute_opcode env x vm)) [
    | inl (w, p) ↦ elim (Bool-cases (returns x vm)) [
      | inl r ↦ absurd (let y = rw (execute_all, p, r) at e in grind arith)
      | inr r ↦ rw (p, r) (execute_all-append xs ys w vm' (rw (execute_all, p, r) at e))
    ]
    | inr (x, p) ↦ absurd (let y = rw (execute_all, p) at e in grind arith)
  ]

  execute_all-first :
      (i : Instruction) (is : List Instruction) (vm vm' : Vm)
      → returns i vm ≡ false
      → execute_opcode env i vm ≡ ok vm'
      → execute_all env (i ∷ is) vm ≡ execute_all env is vm'
  unfolding execute_all
  execute_all-first i is vm vm' f e = rw (e, f) refl

  plain_codes :
      (wanted : Bool) (vm : Vm)
      → (returns (opener wanted) vm ≡ false)
        × (returns else_code vm ≡ false)
        × (returns endif_code vm ≡ false)
  unfolding returns
  plain_codes true vm = (refl, refl, refl)
  plain_codes false vm = (refl, refl, refl)

  open_live :
      (wanted : Bool) (vm : Vm) (c : Element) (s : Stack)
      → all_true vm.condition_stack ≡ true
      → vm.main_stack ≡ c ∷ s
      → execute_opcode env (opener wanted) vm
        ≡ ok (
            if (if wanted then is_true (to_int c) else not (is_true (to_int c)))
            then taken vm s vm.call_stack BranchArm.then_arm (true ∷ vm.condition_stack)
            else taken vm s vm.call_stack BranchArm.else_arm (false ∷ vm.condition_stack))
  unfolding execute_opcode is_currently_executing is_control_flow dispatch open_block pop
  open_live true vm c s live m = rw (live, m) (ground arith)
  open_live false vm c s live m = rw (live, m) (ground arith)

  else_first :
      (w : Vm) (c : Bool) (cs : List Bool)
      → all_true cs ≡ true
      → execute_opcode env else_code (with_conditions w (c ∷ cs))
        ≡ ok (with_conditions w (not c ∷ cs))
  unfolding execute_opcode is_currently_executing is_control_flow dispatch op_else flip_block
      all_true
  else_first w c cs live = rw live (ground arith)

  endif_first :
      (w : Vm) (c : Bool) (cs : List Bool)
      → execute_opcode env endif_code (with_conditions w (c ∷ cs)) ≡ ok (with_conditions w cs)
  unfolding execute_opcode is_currently_executing is_control_flow dispatch op_endif close_block
  endif_first w c cs = ground arith

  not_executing : (cs : List Bool) → all_true (false ∷ cs) ≡ false
  unfolding all_true
  not_executing cs = refl

  skipped_arm :
      (arm rest : List Instruction) (w : Vm) (cs : List Bool)
      → closes arm 0 ≡ true
      → execute_all env (arm ++ rest) (with_conditions w (false ∷ cs))
        ≡ execute_all env rest (with_conditions w (false ∷ cs))
  skipped_arm arm rest w cs h =
      execute_all-append arm rest _ _
        (execute_all-skipped env w arm [] (false ∷ cs) (not_executing cs) h)

  selected :
      (runs : Bool) (vm w : Vm) (s : Stack) (first second rest : List Instruction)
      → all_true vm.condition_stack ≡ true
      → closes first 0 ≡ true
      → closes second 0 ≡ true
      → execute_all env
          (if runs then first else second)
          (taken vm s vm.call_stack (arm_of runs) (true ∷ vm.condition_stack))
        ≡ ok (going (with_conditions w (true ∷ vm.condition_stack)))
      → execute_all env
          (first ++ (else_code ∷ (second ++ (endif_code ∷ rest))))
          (taken vm s vm.call_stack (arm_of runs) (runs ∷ vm.condition_stack))
        ≡ execute_all env rest (with_conditions w vm.condition_stack)
  selected true vm w s first second rest live h k e =
      execute_all-append first (else_code ∷ (second ++ (endif_code ∷ rest))) _ _ e
      ∙ execute_all-first else_code _ _ _ (plain_codes true _).1
          (else_first w true vm.condition_stack live)
      ∙ skipped_arm second (endif_code ∷ rest) w vm.condition_stack k
      ∙ execute_all-first endif_code rest _ _ (plain_codes true _).2
          (endif_first w false vm.condition_stack)
  selected false vm w s first second rest live h k e =
      skipped_arm first _
        (record_arm BranchArm.else_arm (record vm { main_stack = s }) vm.call_stack)
        vm.condition_stack h
      ∙ execute_all-first else_code _ _ _ (plain_codes true _).1 (
          else_first (record_arm BranchArm.else_arm (record vm { main_stack = s }) vm.call_stack)
            false vm.condition_stack live)
      ∙ execute_all-append second (endif_code ∷ rest) _ _ e
      ∙ execute_all-first endif_code rest _ _ (plain_codes true _).2
          (endif_first w true vm.condition_stack)

  -- A block with two arms, on a machine that is executing: the condition on top of the stack selects
  -- one arm, the code of the other has no effect, and after OP_ENDIF the code that follows goes on
  -- with the conditions as they were before the block. The arms close every block they open and have
  -- no OP_ELSE of their own at the outermost level; the selected one executes no OP_RETURN and ends
  -- as it began, executing.
  pub execute_all-block :
      (wanted : Bool) (vm w : Vm) (c : Element) (s : Stack) (first second rest : List Instruction)
      → all_true vm.condition_stack ≡ true
      → vm.main_stack ≡ c ∷ s
      → closes first 0 ≡ true
      → closes second 0 ≡ true
      → execute_all env
          (if selects wanted c then first else second)
          (taken vm s vm.call_stack (arm_of (selects wanted c)) (true ∷ vm.condition_stack))
        ≡ ok (going (with_conditions w (true ∷ vm.condition_stack)))
      → execute_all env
          (opener wanted ∷ (first ++ (else_code ∷ (second ++ (endif_code ∷ rest)))))
          vm
        ≡ execute_all env rest (with_conditions w vm.condition_stack)
  execute_all-block wanted vm w c s first second rest live m h k e =
      execute_all-first (opener wanted) _ vm _ (plain_codes wanted vm).0
        (open_live wanted vm c s live m ∙ started (selects wanted c))
      ∙ selected (selects wanted c) vm w s first second rest live h k e
    where
      started :
          (runs : Bool)
          → ◌≡◌ {A = Result VmError Vm}
              (ok (
                if runs
                then taken vm s vm.call_stack BranchArm.then_arm (true ∷ vm.condition_stack)
                else taken vm s vm.call_stack BranchArm.else_arm (false ∷ vm.condition_stack)))
              (ok (taken vm s vm.call_stack (arm_of runs) (runs ∷ vm.condition_stack)))
      started true = refl
      started false = refl

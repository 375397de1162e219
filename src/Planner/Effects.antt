-- ===== src/Planner/Effects.antt =====
-- Each step of src/bytecode/stack_permutation_planner.cpp on the machine of
-- src/debugger/vm/bvm_simulator.cpp.
use atomic_proof_interpreter.Prelude.{
  ℕ, zero, suc, ◌≡◌, ◌≤◌, refl, arith, sym, ◌∙◌, subst, true, some, [], ◌∷◌, ◌++◌,
}
use atomic_proof_interpreter.Vm.Number.{Element}
use atomic_proof_interpreter.Vm.Stack
use atomic_proof_interpreter.Vm.Stack.{VmError, Stack, Outcome, remove_at}
use atomic_proof_interpreter.Vm.Ops.{
  op_over, op_rot, op_2rot, op_2swap, op_nip, op_tuck, op_pick, op_roll,
}
use atomic_proof_interpreter.Vm.Machine
use atomic_proof_interpreter.Vm.Machine.{
  BytOpcode, Instruction, Signatures, Vm, all_true, dispatch, is_currently_executing,
  execute_opcode, on_main, main_op,
}
use atomic_proof_interpreter.Vm.Text.{opcode_to_hex}
use atomic_proof_interpreter.Vm.Opcodes.{read_text-opcode_to_hex}
use atomic_proof_interpreter.Planner.Step.{StackPlanOp, encoded_instructions_of}
use atomic_proof_interpreter.Planner.Stacks.{
  swap-Agrees, swap_roll-Agrees, roll_zero, rot-Agrees, two_swap-Agrees, two_rot-Agrees, dup-Agrees,
  over-Agrees, tuck-Agrees, drop-Agrees, nip-Agrees, moved-inv, copied-inv, deleted-inv,
}
use atomic_proof_interpreter.Planner.Depths.{
  roll-front, pick-front, op_roll-depth, op_pick-depth, many_roll, many_pick,
}
use atomic_proof_interpreter.Planner.Moves.{
  CopyState, roll_front, swap_front, two_swap_front, two_rot_front, copy_front, tuck_front,
  drop_front, nip_front, to_alt, from_alt, copy_step,
}
use atomic_proof_interpreter.Planner.Machine.{Runs, run_cons, run_nil, run_agreed, run_numbered}

module _ (env : Signatures) (vm : Vm) (live : all_true vm.condition_stack ≡ true) where
  module _ (st st' : CopyState Element) (below frozen : Stack) where
    run_roll :
        (d : ℕ)
        → d ≤ 16
        → (roll_front d st.main ≡ some st'.main) × (st'.alt ≡ st.alt)
        → Runs env vm live st st' below frozen (encoded_instructions_of StackPlanOp.roll d)
    unfolding dispatch on_main main_op encoded_instructions_of
    run_roll zero h (m, a) = rw (roll_zero st.main st'.main m, a) (run_nil env vm live _ _)
    run_roll (suc zero) h e =
        run_agreed env vm live st st' below frozen BytOpcode.swap_ Stack.swap (roll_front 1)
          (read_text-opcode_to_hex BytOpcode.swap_ tt) (λ main alt. refl) swap_roll-Agrees e
    run_roll (suc (suc zero)) h e =
        run_agreed env vm live st st' below frozen BytOpcode.rot op_rot (roll_front 2)
          (read_text-opcode_to_hex BytOpcode.rot tt) (λ main alt. refl) rot-Agrees e
    run_roll (suc (suc (suc d))) h e =
        subst (Runs env vm live st st' below frozen) (sym (many_roll d)) (
          run_numbered env vm live st st' below frozen BytOpcode.roll op_roll
            (roll_front (suc (suc (suc d)))) (suc (suc (suc d))) (omega arith) h
            (read_text-opcode_to_hex BytOpcode.roll tt) (λ main alt. refl)
            (λ s ys g. op_roll-depth _ (s ++ below) h ∙ roll-front _ s below ys g) e)

    run_pick :
        (d : ℕ)
        → d ≤ 16
        → (copy_front d st.main ≡ some st'.main) × (st'.alt ≡ st.alt)
        → Runs env vm live st st' below frozen (encoded_instructions_of StackPlanOp.pick d)
    unfolding dispatch on_main main_op encoded_instructions_of
    run_pick zero h e =
        run_agreed env vm live st st' below frozen BytOpcode.dup_ Stack.dup (copy_front 0)
          (read_text-opcode_to_hex BytOpcode.dup_ tt) (λ main alt. refl) dup-Agrees e
    run_pick (suc zero) h e =
        run_agreed env vm live st st' below frozen BytOpcode.over op_over (copy_front 1)
          (read_text-opcode_to_hex BytOpcode.over tt) (λ main alt. refl) over-Agrees e
    run_pick (suc (suc d)) h e = subst (Runs env vm live st st' below frozen) (sym (many_pick d)) (
        run_numbered env vm live st st' below frozen BytOpcode.pick op_pick
          (copy_front (suc (suc d))) (suc (suc d)) (omega arith) h
          (read_text-opcode_to_hex BytOpcode.pick tt) (λ main alt. refl)
          (λ s ys g. op_pick-depth _ (s ++ below) h ∙ pick-front _ s below ys g) e)

    run_to_alt :
        (xs : Stack)
        → to_alt st xs ≡ some st'
        → xs ≡ st.main
        → Runs env vm live st st' below frozen (opcode_to_hex BytOpcode.to_alt_stack ∷ [])
    unfolding to_alt dispatch Machine.op_to_alt_stack
    run_to_alt [] e m = absurd (ground arith)
    run_to_alt (a ∷ s) e m =
        let taken : st.main ≡ a ∷ s = sym m in
        let left : st'.main ≡ s = ground arith in
        let kept : st'.alt ≡ a ∷ st.alt = ground arith in
        rw (taken, left, kept)
          (run_cons env vm live (opcode_to_hex BytOpcode.to_alt_stack) []
              (Instruction.opcode BytOpcode.to_alt_stack) (a ∷ (s ++ below)) (st.alt ++ frozen)
              (s ++ below) (a ∷ (st.alt ++ frozen))
              (read_text-opcode_to_hex BytOpcode.to_alt_stack tt) refl
            ∙ run_nil env vm live _ _)

    run_from_alt :
        (xs : Stack)
        → from_alt st xs ≡ some st'
        → xs ≡ st.alt
        → Runs env vm live st st' below frozen (opcode_to_hex BytOpcode.from_alt_stack ∷ [])
    unfolding from_alt dispatch Machine.op_from_alt_stack
    run_from_alt [] e m = absurd (ground arith)
    run_from_alt (a ∷ s) e m =
        let taken : st.alt ≡ a ∷ s = sym m in
        let left : st'.alt ≡ s = ground arith in
        let kept : st'.main ≡ a ∷ st.main = ground arith in
        rw (taken, left, kept)
          (run_cons env vm live (opcode_to_hex BytOpcode.from_alt_stack) []
              (Instruction.opcode BytOpcode.from_alt_stack) (st.main ++ below) (a ∷ (s ++ frozen))
              (a ∷ (st.main ++ below)) (s ++ frozen)
              (read_text-opcode_to_hex BytOpcode.from_alt_stack tt) refl
            ∙ run_nil env vm live _ _)

    -- Every step that the planner applies.
    pub run_step :
        (op : StackPlanOp) (d : ℕ)
        → d ≤ 16
        → copy_step st op d ≡ some st'
        → Runs env vm live st st' below frozen (encoded_instructions_of op d)
    unfolding copy_step dispatch on_main main_op encoded_instructions_of
    run_step StackPlanOp.swap d h e =
        run_agreed env vm live st st' below frozen BytOpcode.swap_ Stack.swap swap_front
          (read_text-opcode_to_hex BytOpcode.swap_ tt) (λ main alt. refl) swap-Agrees
          (moved-inv st st' (swap_front st.main) e)
    run_step StackPlanOp.two_swap d h e =
        run_agreed env vm live st st' below frozen BytOpcode.two_swap op_2swap two_swap_front
          (read_text-opcode_to_hex BytOpcode.two_swap tt) (λ main alt. refl) two_swap-Agrees
          (moved-inv st st' (two_swap_front st.main) e)
    run_step StackPlanOp.two_rot d h e =
        run_agreed env vm live st st' below frozen BytOpcode.two_rot op_2rot two_rot_front
          (read_text-opcode_to_hex BytOpcode.two_rot tt) (λ main alt. refl) two_rot-Agrees
          (moved-inv st st' (two_rot_front st.main) e)
    run_step StackPlanOp.rot d h e =
        run_agreed env vm live st st' below frozen BytOpcode.rot op_rot (roll_front 2)
          (read_text-opcode_to_hex BytOpcode.rot tt) (λ main alt. refl) rot-Agrees
          (moved-inv st st' (roll_front 2 st.main) e)
    run_step StackPlanOp.dup d h e =
        run_agreed env vm live st st' below frozen BytOpcode.dup_ Stack.dup (copy_front 0)
          (read_text-opcode_to_hex BytOpcode.dup_ tt) (λ main alt. refl) dup-Agrees
          (copied-inv st st' st.copied (copy_front 0 st.main) e)
    run_step StackPlanOp.over d h e =
        run_agreed env vm live st st' below frozen BytOpcode.over op_over (copy_front 1)
          (read_text-opcode_to_hex BytOpcode.over tt) (λ main alt. refl) over-Agrees
          (copied-inv st st' st.copied (copy_front 1 st.main) e)
    run_step StackPlanOp.tuck d h e =
        run_agreed env vm live st st' below frozen BytOpcode.tuck op_tuck tuck_front
          (read_text-opcode_to_hex BytOpcode.tuck tt) (λ main alt. refl) tuck-Agrees
          (copied-inv st st' st.copied (tuck_front st.main) e)
    run_step StackPlanOp.drop d h e =
        run_agreed env vm live st st' below frozen BytOpcode.drop Stack.drop_top drop_front
          (read_text-opcode_to_hex BytOpcode.drop tt) (λ main alt. refl) drop-Agrees
          (deleted-inv st st' st.deleted (drop_front st.main) e)
    run_step StackPlanOp.nip d h e =
        run_agreed env vm live st st' below frozen BytOpcode.nip op_nip nip_front
          (read_text-opcode_to_hex BytOpcode.nip tt) (λ main alt. refl) nip-Agrees
          (deleted-inv st st' st.deleted (nip_front st.main) e)
    run_step StackPlanOp.roll d h e = run_roll d h (moved-inv st st' (roll_front d st.main) e)
    run_step StackPlanOp.pick d h e =
        run_pick d h (copied-inv st st' st.copied (copy_front d st.main) e)
    run_step StackPlanOp.to_alt_stack d h e = run_to_alt st.main e refl
    run_step StackPlanOp.from_alt_stack d h e = run_from_alt st.alt e refl

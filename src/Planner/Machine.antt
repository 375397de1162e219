-- ===== src/Planner/Machine.antt =====
-- Plans of stack_permutation_planner.cpp run on the machine of bvm_simulator.cpp: the emitted text
-- does to the real stacks what the planner computed on its own.
use atomic_proof_interpreter.Prelude.{
  ℕ, ◌≡◌, ◌≤◌, refl, ◌∙◌, true, Option, some, List, [], ◌∷◌, ◌++◌, ok,
}
use atomic_proof_interpreter.Prelude.Int.{pos}
use atomic_proof_interpreter.Vm.Number.{Element, serialize_script_num}
use atomic_proof_interpreter.Vm.Stack.{Stack, Outcome}
use atomic_proof_interpreter.Vm.Machine.{
  BytOpcode, Instruction, Signatures, Vm, all_true, dispatch, execute_opcode, on_main,
}
use atomic_proof_interpreter.Vm.Text.{opcode_to_hex, read_text, run_instruction, run_texts}
use atomic_proof_interpreter.Planner.Step.{number_to_script_hex}
use atomic_proof_interpreter.Planner.Stacks.{Agrees}
use atomic_proof_interpreter.Planner.Depths.{read_depth}
use atomic_proof_interpreter.Planner.Moves.{CopyState}

-- The machine with the planner's window on top of each stack.
abbrev pub with_stacks : Vm → Stack → Stack → Vm
with_stacks vm main alt = record vm { main_stack = main; alt_stack = alt }

module _ (env : Signatures) (vm : Vm) (live : all_true vm.condition_stack ≡ true) where
  execute-live :
      (i : Instruction) (main alt : Stack)
      → execute_opcode env i (with_stacks vm main alt) ≡ dispatch env i (with_stacks vm main alt)
  unfolding execute_opcode
  execute-live i main alt = rw live

  pub run_cons :
      (text : List ℕ) (texts : List (List ℕ)) (i : Instruction) (main alt main' alt' : Stack)
      → read_text text ≡ some i
      → dispatch env i (with_stacks vm main alt) ≡ ok (with_stacks vm main' alt')
      → run_texts env (text ∷ texts) (with_stacks vm main alt)
        ≡ run_texts env texts (with_stacks vm main' alt')
  unfolding run_texts run_instruction
  run_cons text texts i main alt main' alt' r e = rw (r, execute-live i main alt, e)

  pub run_nil :
      (main alt : Stack) → run_texts env [] (with_stacks vm main alt) ≡ ok (with_stacks vm main alt)
  unfolding run_texts
  run_nil main alt = refl

  -- One opcode that works on the main stack.
  run_one :
      (op : BytOpcode) (f : Stack → Outcome) (main alt main' : Stack)
      → read_text (opcode_to_hex op) ≡ some (Instruction.opcode op)
      → dispatch env (Instruction.opcode op) (with_stacks vm main alt)
        ≡ on_main f (with_stacks vm main alt)
      → f main ≡ ok main'
      → run_texts env (opcode_to_hex op ∷ []) (with_stacks vm main alt)
        ≡ ok (with_stacks vm main' alt)
  unfolding on_main
  run_one op f main alt main' r d e =
      run_cons (opcode_to_hex op) [] (Instruction.opcode op) main alt main' alt r (d ∙ rw e)
      ∙ run_nil main' alt

  module _ (st st' : CopyState Element) (below frozen : Stack) where
    abbrev pub Runs : List (List ℕ) → Type 0
    Runs texts =
        run_texts env texts (with_stacks vm (st.main ++ below) (st.alt ++ frozen))
        ≡ ok (with_stacks vm (st'.main ++ below) (st'.alt ++ frozen))

    -- A step on the main stack, from the agreement of instruction and planner.
    pub run_agreed :
        (op : BytOpcode) (f : Stack → Outcome) (g : Stack → Option Stack)
        → read_text (opcode_to_hex op) ≡ some (Instruction.opcode op)
        → ((main alt : Stack)
            → dispatch env (Instruction.opcode op) (with_stacks vm main alt)
              ≡ on_main f (with_stacks vm main alt))
        → Agrees f g
        → (g st.main ≡ some st'.main) × (st'.alt ≡ st.alt)
        → Runs (opcode_to_hex op ∷ [])
    run_agreed op f g r d agree (m, a) = rw a (
        run_one op f (st.main ++ below) (st.alt ++ frozen) (st'.main ++ below) r (d _ _)
          (agree st.main st'.main below m))

    -- A depth is pushed, and OP_ROLL or OP_PICK takes it.
    pub run_numbered :
        (op : BytOpcode) (f : Stack → Outcome) (g : Stack → Option Stack) (d : ℕ)
        → 1 ≤ d
        → d ≤ 16
        → read_text (opcode_to_hex op) ≡ some (Instruction.opcode op)
        → ((main alt : Stack)
            → dispatch env (Instruction.opcode op) (with_stacks vm main alt)
              ≡ on_main f (with_stacks vm main alt))
        → ((s : Stack) (ys : Stack)
            → g s ≡ some ys
            → f (serialize_script_num (pos d) ∷ (s ++ below)) ≡ ok (ys ++ below))
        → (g st.main ≡ some st'.main) × (st'.alt ≡ st.alt)
        → Runs (number_to_script_hex (pos d) ∷ opcode_to_hex op ∷ [])
    unfolding dispatch
    run_numbered op f g d lo hi r e agree (m, a) = rw a (
        run_cons (number_to_script_hex (pos d)) (opcode_to_hex op ∷ [])
          (Instruction.opcode (BytOpcode.op_n d)) (st.main ++ below) (st.alt ++ frozen)
          (serialize_script_num (pos d) ∷ (st.main ++ below)) (st.alt ++ frozen)
          (read_depth d lo hi) refl
        ∙ run_one op f (serialize_script_num (pos d) ∷ (st.main ++ below)) (st.alt ++ frozen)
            (st'.main ++ below) r (e _ _) (agree st.main st'.main m))

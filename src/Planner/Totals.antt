-- ===== src/Planner/Totals.antt =====
-- The cost totals of src/bytecode/stack_permutation_planner.cpp against the text that is emitted.
use atomic_proof_interpreter.Prelude.{
  ℕ, zero, suc, ◌≡◌, ◌≤◌, refl, arith, sym, some, List, [], ◌∷◌, length, length-append, All,
}
use atomic_proof_interpreter.Prelude.Int.{pos}
use atomic_proof_interpreter.Script.Hex.{byte_to_hex}
use atomic_proof_interpreter.Vm.Machine.{BytOpcode}
use atomic_proof_interpreter.Vm.Text.{opcode_to_hex, opcode_value}
use atomic_proof_interpreter.Planner.Step.{
  StackPlanOp, StackPlanStep, encoded_instructions, encoded_instructions_of, serialized_byte_size,
  emitted_instruction_count, emitted_instruction_count_of, add_size, encoded_byte_size, has_0x,
  sum_sizes, number_to_script_hex, number_digits,
}
use atomic_proof_interpreter.Planner.Plans.{
  make_plan, total_bytes, total_instructions, plan_instructions, IsShallow,
}

-- The sizes and the number of the texts of one step.
number_size : (d : ℕ) → 1 ≤ d → d ≤ 16 → encoded_byte_size (number_to_script_hex (pos d)) ≡ some 1
unfolding encoded_byte_size has_0x number_to_script_hex number_digits byte_to_hex
number_size zero lo hi = absurd (omega arith)
number_size (suc n) lo hi = ground arith

numbered_totals :
    (d : ℕ) (op : BytOpcode)
    → 1 ≤ d
    → d ≤ 16
    → encoded_byte_size (opcode_to_hex op) ≡ some 1
    → sum_sizes (number_to_script_hex (pos d) ∷ opcode_to_hex op ∷ []) ≡ some 2
unfolding sum_sizes add_size
numbered_totals d op lo hi e = rw (number_size d lo hi, e) refl

roll_size : encoded_byte_size (opcode_to_hex BytOpcode.roll) ≡ some 1
unfolding encoded_byte_size has_0x opcode_to_hex opcode_value byte_to_hex
roll_size = refl

pick_size : encoded_byte_size (opcode_to_hex BytOpcode.pick) ≡ some 1
unfolding encoded_byte_size has_0x opcode_to_hex opcode_value byte_to_hex
pick_size = refl

step_totals :
    (op : StackPlanOp) (d : ℕ)
    → d ≤ 16
    → (sum_sizes (encoded_instructions_of op d) ≡ some (emitted_instruction_count_of op d))
      × (length (encoded_instructions_of op d) ≡ emitted_instruction_count_of op d)
unfolding sum_sizes encoded_instructions_of emitted_instruction_count_of encoded_byte_size has_0x
    opcode_to_hex opcode_value byte_to_hex add_size
step_totals StackPlanOp.roll zero h = (refl, refl)
step_totals StackPlanOp.roll (suc zero) h = (refl, refl)
step_totals StackPlanOp.roll (suc (suc zero)) h = (refl, refl)
step_totals StackPlanOp.roll (suc (suc (suc d))) h =
    ground (arith, numbered_totals (suc (suc (suc d))) BytOpcode.roll (omega arith) h roll_size)
step_totals StackPlanOp.pick zero h = (refl, refl)
step_totals StackPlanOp.pick (suc zero) h = (refl, refl)
step_totals StackPlanOp.pick (suc (suc d)) h =
    ground (arith, numbered_totals (suc (suc d)) BytOpcode.pick (omega arith) h pick_size)
step_totals StackPlanOp.swap d h = (refl, refl)
step_totals StackPlanOp.rot d h = (refl, refl)
step_totals StackPlanOp.two_swap d h = (refl, refl)
step_totals StackPlanOp.two_rot d h = (refl, refl)
step_totals StackPlanOp.dup d h = (refl, refl)
step_totals StackPlanOp.over d h = (refl, refl)
step_totals StackPlanOp.drop d h = (refl, refl)
step_totals StackPlanOp.nip d h = (refl, refl)
step_totals StackPlanOp.tuck d h = (refl, refl)
step_totals StackPlanOp.to_alt_stack d h = (refl, refl)
step_totals StackPlanOp.from_alt_stack d h = (refl, refl)

totals :
    (steps : List StackPlanStep)
    → All IsShallow steps
    → (total_bytes steps ≡ some (total_instructions steps))
      × (length (plan_instructions steps) ≡ total_instructions steps)
unfolding total_bytes total_instructions plan_instructions add_size serialized_byte_size
    emitted_instruction_count encoded_instructions
totals [] h = (refl, refl)
totals (s ∷ steps) (d, h) =
    let (bytes, count) = totals steps h in
    let (b, c) = step_totals s.op s.depth d in
    (
      rw (b, bytes) refl,
      omega (arith, length-append (encoded_instructions s) (plan_instructions steps), count, c),
    )

-- A plan whose depths are at most 16 announces as many bytes as instructions, and as many
-- instructions as its text has.
pub make_plan-plan_instructions :
    (steps : List StackPlanStep)
    → All IsShallow steps
    → ((make_plan steps).serialized_bytes ≡ some (make_plan steps).emitted_instructions)
      × ((make_plan steps).emitted_instructions ≡ length (plan_instructions steps))
unfolding make_plan
make_plan-plan_instructions steps h = let (b, c) = totals steps h in (b, sym c)

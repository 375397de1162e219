-- ===== src/Planner/Tests.antt =====
-- Runs of stack plans, and the theorems at concrete inputs.
use atomic_proof_interpreter.Prelude.{
  err, ℕ, ◌≡◌, refl, arith, true, false, none, some, List, [], ◌∷◌, ◌++◌, length, All, ok,
}
use mathlib.Core.List.{Memᴰ}
use atomic_proof_interpreter.Vm.Stack.{VmError, Stack}
use atomic_proof_interpreter.Vm.Machine.{Signatures, Vm, VmState, all_true}
use atomic_proof_interpreter.Vm.Text.{run_texts}
use atomic_proof_interpreter.Planner.Step.{StackPlanOp, StackPlanStep, step}
use atomic_proof_interpreter.Planner.Moves.{
  CopyState, run_plan, copy_step, moved, to_alt, from_alt, copied_to, deleted_to, copy_front,
  drop_front, apply_move, roll_front, without, iota,
}
use atomic_proof_interpreter.Planner.Machine.{with_stacks}
use atomic_proof_interpreter.Planner.Plans.{
  make_plan, plan_instructions, IsShallow, run_texts-plan_instructions,
}
use atomic_proof_interpreter.Planner.Totals.{make_plan-plan_instructions}
use atomic_proof_interpreter.Planner.Copy.{
  Reaches, initial, goal, set_at, is_copy_goal, same_tokens, copy_neighbours, neighbours_by,
  operations, copy_operations, delete_operations, has_token, picks_from,
}
use atomic_proof_interpreter.Planner.Chains.{IsSized}
use atomic_proof_interpreter.Planner.Reach.{Reaches-run_plan}
use atomic_proof_interpreter.Prelude.Int.{negsuc}
use atomic_proof_interpreter.Vm.Number.{serialize_script_num}
use atomic_proof_interpreter.Vm.Machine.{Instruction}
use atomic_proof_interpreter.Vm.Text.{read_text}
use atomic_proof_interpreter.Planner.Step.{number_to_script_hex, encode_push_data}
use atomic_proof_interpreter.Planner.Emission.{run_texts-number_to_script_hex}
use atomic_proof_interpreter.Planner.Numbers.{read_text-encode_push_data}
use atomic_proof_interpreter.Planner.Assignment.{run_texts-Reaches}

abbrev env : Signatures
env = record {
  foreign = λ t vm. err VmError.unknown_opcode;
  check_sig_callback = none;
  inputs_hash = [];
}

abbrev machine : Vm
machine = record {
  main_stack = [];
  alt_stack = [];
  condition_stack = [];
  call_stack = [];
  root_branch_trace = [];
  pc = 0;
  state = VmState.running;
}

live : all_true [] ≡ true
unfolding all_true
live = refl

-- The slot below the top copied over the top: OP_DROP OP_DUP.
abbrev assign : List StackPlanStep
assign = step StackPlanOp.drop 0 ∷ step StackPlanOp.dup 0 ∷ []

abbrev dropped : CopyState ℕ
dropped = record { main = 1 ∷ []; alt = []; copied = false; deleted = true }

abbrev reached : CopyState ℕ
reached = record { main = 1 ∷ 1 ∷ []; alt = []; copied = true; deleted = true }

assign_reaches : Reaches 2 1 0 assign reached
unfolding copy_neighbours neighbours_by operations copy_operations delete_operations has_token
    picks_from copy_step copied_to deleted_to copy_front drop_front initial iota
assign_reaches =
    Reaches.extend {state = dropped}
      (Reaches.extend {state = initial 2} Reaches.start (Memᴰ.tail (Memᴰ.head refl)))
      (Memᴰ.head refl)

assign_goal : is_copy_goal reached (goal 2 1 0) ≡ true
unfolding is_copy_goal same_tokens goal set_at iota
assign_goal = refl

run_texts-Reaches_example :
    run_texts env
      (plan_instructions assign)
      (with_stacks machine ((7 ∷ []) ∷ (8 ∷ []) ∷ (9 ∷ []) ∷ []) [])
    ≡ ok (with_stacks machine ((8 ∷ []) ∷ (8 ∷ []) ∷ (9 ∷ []) ∷ []) [])
unfolding set_at
run_texts-Reaches_example =
    run_texts-Reaches env machine ((7 ∷ []) ∷ (8 ∷ []) ∷ []) ((9 ∷ []) ∷ []) [] 1 0 assign reached
      live (omega arith) assign_reaches assign_goal

Reaches-run_plan_example :
    (run_plan assign (initial 2) ≡ some reached) × All IsShallow assign × IsSized 2 reached
Reaches-run_plan_example = Reaches-run_plan 2 1 0 assign reached (omega arith) assign_reaches

-- OP_3 OP_ROLL, with the alternative stack used in between.
abbrev deep : List StackPlanStep
deep =
    step StackPlanOp.to_alt_stack 0
    ∷ step StackPlanOp.roll 3
    ∷ step StackPlanOp.from_alt_stack 0
    ∷ []

abbrev start {ℓ} : {A : Type ℓ} → List A → CopyState A
start s = record { main = s; alt = []; copied = false; deleted = false }

abbrev five : Stack
five = (1 ∷ []) ∷ (2 ∷ []) ∷ (3 ∷ []) ∷ (4 ∷ []) ∷ (5 ∷ []) ∷ []

abbrev rolled : Stack
rolled = (1 ∷ []) ∷ (5 ∷ []) ∷ (2 ∷ []) ∷ (3 ∷ []) ∷ (4 ∷ []) ∷ []

deep_runs : run_plan deep (start five) ≡ some (start rolled)
unfolding run_plan copy_step moved apply_move roll_front without to_alt from_alt
deep_runs = refl

deep_slots :
    run_plan {A = ℕ} deep (start (0 ∷ 1 ∷ 2 ∷ 3 ∷ 4 ∷ [])) ≡ some (start (0 ∷ 4 ∷ 1 ∷ 2 ∷ 3 ∷ []))
unfolding run_plan copy_step moved apply_move roll_front without to_alt from_alt
deep_slots = refl

run_texts-plan_instructions_example :
    run_texts env (plan_instructions deep) (with_stacks machine (five ++ ((6 ∷ []) ∷ [])) [])
    ≡ ok (with_stacks machine (rolled ++ ((6 ∷ []) ∷ [])) [])
run_texts-plan_instructions_example =
    run_texts-plan_instructions env machine deep (start five) (start rolled) ((6 ∷ []) ∷ []) [] live
      (omega arith) deep_runs

make_plan-plan_instructions_example :
    ((make_plan deep).serialized_bytes ≡ some (make_plan deep).emitted_instructions)
    × ((make_plan deep).emitted_instructions ≡ length (plan_instructions deep))
make_plan-plan_instructions_example = make_plan-plan_instructions deep (omega arith)

run_texts-number_to_script_hex_example :
    run_texts env (number_to_script_hex (negsuc 999) ∷ []) (with_stacks machine five [])
    ≡ ok (with_stacks machine (serialize_script_num (negsuc 999) ∷ five) [])
run_texts-number_to_script_hex_example =
    run_texts-number_to_script_hex env machine live (negsuc 999) five []

read_text-encode_push_data_example :
    read_text (encode_push_data (0xde ∷ 0xad ∷ []))
    ≡ some (Instruction.push_data (0xde ∷ 0xad ∷ []))
read_text-encode_push_data_example =
    read_text-encode_push_data (0xde ∷ 0xad ∷ []) (omega arith) (omega arith)

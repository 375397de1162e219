-- ===== src/Planner/Plans.antt =====
-- StackPermutationPlan of src/bytecode/stack_permutation_planner.cpp: whole plans, their totals, and
-- their effect on the machine.
use atomic_proof_interpreter.Prelude.{
  ℕ, ◌+◌, ◌≡◌, ◌≤◌, arith, ap, ◌∙◌, true, Option, some, List, [], ◌∷◌, ◌++◌, All, ok, Result-cases,
  Option-cases, inl, inr,
}
use Prim.Native.Nat.{max}
use atomic_proof_interpreter.Vm.Number.{Element}
use atomic_proof_interpreter.Vm.Stack.{Stack}
use atomic_proof_interpreter.Vm.Machine.{Signatures, Vm, all_true}
use atomic_proof_interpreter.Vm.Text.{run_texts, run_instruction, read_text}
use atomic_proof_interpreter.Planner.Step.{
  StackPlanStep, encoded_instructions, serialized_byte_size, emitted_instruction_count,
  touched_depth, add_size,
}
use atomic_proof_interpreter.Planner.Moves.{CopyState, copy_step, run_plan}
use atomic_proof_interpreter.Planner.Machine.{with_stacks}
use atomic_proof_interpreter.Planner.Effects.{run_step}

pub record StackPermutationPlan : Type 0 where
  pub steps : List StackPlanStep
  pub serialized_bytes : Option ℕ
  pub emitted_instructions : ℕ
  pub maximum_touched_depth : ℕ

-- The loop of makePlan; the sums do not depend on the order.
unfoldable pub total_bytes : List StackPlanStep → Option ℕ
unfolding add_size serialized_byte_size
total_bytes [] = some 0
total_bytes (s ∷ steps) = add_size (serialized_byte_size s) (total_bytes steps)

unfoldable pub total_instructions : List StackPlanStep → ℕ
total_instructions [] = 0
total_instructions (s ∷ steps) = emitted_instruction_count s + total_instructions steps

unfoldable pub deepest : List StackPlanStep → ℕ
deepest [] = 0
deepest (s ∷ steps) = max (touched_depth s) (deepest steps)

unfoldable pub make_plan : List StackPlanStep → StackPermutationPlan
unfolding total_bytes total_instructions deepest
make_plan steps = record {
  steps = steps;
  serialized_bytes = total_bytes steps;
  emitted_instructions = total_instructions steps;
  maximum_touched_depth = deepest steps;
}

unfoldable pub plan_instructions : List StackPlanStep → List (List ℕ)
plan_instructions [] = []
plan_instructions (s ∷ steps) = encoded_instructions s ++ plan_instructions steps

-- The planner's windows have at most eight slots, so its depths stay within OP_1 to OP_16.
abbrev pub IsShallow : StackPlanStep → Type 0
IsShallow s = s.depth ≤ 16

run_texts-append :
    (env : Signatures) (xs ys : List (List ℕ)) (vm vm' : Vm)
    → run_texts env xs vm ≡ ok vm'
    → run_texts env (xs ++ ys) vm ≡ run_texts env ys vm'
unfolding run_texts
run_texts-append env [] ys vm vm' e = ground arith
run_texts-append env (x ∷ xs) ys vm vm' e =
    elim (Result-cases (run_instruction env x (read_text x) vm)) [
      | inl (w, p) ↦ rw p (run_texts-append env xs ys w vm' (rw p at e))
      | inr (x, p) ↦ absurd (ground (arith, p))
    ]

run_step_lem :
    (env : Signatures) (vm : Vm) (s : StackPlanStep) (st st' : CopyState Element)
    (below frozen : Stack)
    → all_true vm.condition_stack ≡ true
    → IsShallow s
    → copy_step st s.op s.depth ≡ some st'
    → run_texts env (encoded_instructions s) (with_stacks vm (st.main ++ below) (st.alt ++ frozen))
      ≡ ok (with_stacks vm (st'.main ++ below) (st'.alt ++ frozen))
unfolding encoded_instructions
run_step_lem env vm s st st' below frozen live d e =
    run_step env vm live st st' below frozen s.op s.depth d e

-- On a machine that is executing, the text of a plan whose depths are at most 16 does to the top of
-- the two real stacks what the planner computed for its own state, and leaves all below as it was.
pub run_texts-plan_instructions :
    (env : Signatures) (vm : Vm) (steps : List StackPlanStep) (st st' : CopyState Element)
    (below frozen : Stack)
    → all_true vm.condition_stack ≡ true
    → All IsShallow steps
    → run_plan steps st ≡ some st'
    → run_texts env (plan_instructions steps) (with_stacks vm (st.main ++ below) (st.alt ++ frozen))
      ≡ ok (with_stacks vm (st'.main ++ below) (st'.alt ++ frozen))
unfolding run_plan plan_instructions
run_texts-plan_instructions env vm [] st st' below frozen live h e =
    let same : st ≡ st' = cc in
    unfold run_texts in
    ap (λ (w : CopyState Element). ok (with_stacks vm (w.main ++ below) (w.alt ++ frozen))) same
run_texts-plan_instructions env vm (s ∷ steps) st st' below frozen live (d, h) e =
    elim (Option-cases (copy_step st s.op s.depth)) [
      | inl p ↦ absurd (ground (arith, p))
      | inr (next, p) ↦
          run_texts-append env (encoded_instructions s) (plan_instructions steps) _ _
            (run_step_lem env vm s st next below frozen live d p)
          ∙ run_texts-plan_instructions env vm steps next st' below frozen live h
              (rw (p, run_plan) at e)
    ]

-- ===== src/Vm/Machine/Control.antt =====
-- The control instructions of src/debugger/vm/bvm_simulator.cpp: blocks, return and the alternative
-- stack.
use atomic_proof_interpreter.Prelude.{
  ℕ, ◌-◌, Bool, true, false, not, ◌&&◌, List, [], ◌∷◌, ◌==◌, if◌then◌else◌, Result, ok, err, ◌>>=◌,
}
use atomic_proof_interpreter.Vm.Number.{to_int}
use atomic_proof_interpreter.Vm.Stack.{VmError, Stack, Outcome, push, pop}
use atomic_proof_interpreter.Vm.Ops.{is_true}
use atomic_proof_interpreter.Vm.Machine.State.{BranchArm, BranchTrace, CallFrame, VmState, Vm}

unfoldable pub all_true : List Bool → Bool
all_true [] = true
all_true (v ∷ vs) = v && all_true vs

unfoldable pub is_currently_executing : Vm → Bool
unfolding all_true
is_currently_executing vm = all_true vm.condition_stack

-- An instruction that works on the main stack alone.
unfoldable pub on_main : (Stack → Outcome) → Vm → Result VmError Vm
on_main f vm = do s ← f vm.main_stack; ok (record vm { main_stack = s })

unfoldable pub op_to_alt_stack : Vm → Result VmError Vm
unfolding pop push
op_to_alt_stack vm = do
  (e, s) ← pop vm.main_stack
  ok (record vm { main_stack = s; alt_stack = push e vm.alt_stack })

unfoldable pub op_from_alt_stack : Vm → Result VmError Vm
unfolding pop push
op_from_alt_stack vm = do
  (e, s) ← pop vm.alt_stack
  ok (record vm { main_stack = push e vm.main_stack; alt_stack = s })

-- `branchTrace[pc] = arm`
unfoldable pub set_arm : ℕ → BranchArm → BranchTrace → BranchTrace
set_arm pc arm [] = (pc, arm) ∷ []
set_arm pc arm ((p, a) ∷ trace) =
    if p == pc then (pc, arm) ∷ trace else (p, a) ∷ set_arm pc arm trace

-- The choice is kept in the innermost frame, or at the root where no call is open.
unfoldable pub record_arm : BranchArm → Vm → List CallFrame → Vm
unfolding set_arm
record_arm arm vm [] = record vm { root_branch_trace = set_arm vm.pc arm vm.root_branch_trace }
record_arm arm vm (frame ∷ frames) = record vm {
  call_stack = record frame { branch_trace = set_arm vm.pc arm frame.branch_trace } ∷ frames;
}

-- OP_IF runs its block where the condition is true, OP_NOTIF where it is false; a block inside one
-- that is not executing takes no condition from the stack.
unfoldable pub open_block : Bool → Vm → Result VmError Vm
unfolding is_currently_executing pop record_arm
open_block wanted vm =
    if is_currently_executing vm
    then (do
      (condition, s) ← pop vm.main_stack
      let taken = is_true (to_int condition)
      let runs = if wanted then taken else not taken
      let arm = if runs then BranchArm.then_arm else BranchArm.else_arm
      let vm' = record_arm arm (record vm { main_stack = s }) vm.call_stack
      ok (record vm' { condition_stack = runs ∷ vm.condition_stack }))
    else ok (record vm { condition_stack = false ∷ vm.condition_stack })

-- Else of the innermost block: it runs if all blocks around it do and the first arm did not.
unfoldable pub flip_block : List Bool → Result VmError (List Bool)
unfolding all_true
flip_block [] = err VmError.unbalanced_else
flip_block (current ∷ outer) = ok ((all_true outer && not current) ∷ outer)

unfoldable pub op_else : Vm → Result VmError Vm
unfolding flip_block
op_else vm = do cs ← flip_block vm.condition_stack; ok (record vm { condition_stack = cs })

unfoldable pub close_block : List Bool → Result VmError (List Bool)
close_block [] = err VmError.unbalanced_endif
close_block (current ∷ outer) = ok outer

unfoldable pub op_endif : Vm → Result VmError Vm
unfolding close_block
op_endif vm = do cs ← close_block vm.condition_stack; ok (record vm { condition_stack = cs })

-- At the top level the program ends; in a call the frame is left, and the pc is put one before the
-- return address, where the caller's increment takes it.
unfoldable pub return_from : List CallFrame → Vm → Vm
return_from [] vm = record vm { state = VmState.finished }
return_from (frame ∷ []) vm = record vm { state = VmState.finished }
return_from (frame ∷ next ∷ frames) vm = record vm {
  call_stack = next ∷ frames;
  pc = frame.return_pc - 1;
}

unfoldable pub op_return : Vm → Result VmError Vm
unfolding return_from
op_return vm = ok (return_from vm.call_stack vm)

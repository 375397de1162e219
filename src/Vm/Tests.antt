-- ===== src/Vm/Tests.antt =====
-- Runs of the machine, and the theorems at concrete inputs.
use atomic_proof_interpreter.Prelude.{
  ◌-◌, ◌≡◌, ◌≢◌, ◌<◌, ◌^◌, refl, arith, ◌⊎◌, true, false, none, some, List, [], ◌∷◌, ◌++◌, ok, err,
}
use atomic_proof_interpreter.Prelude.Int.{ℤ, pos, negsuc, ◌+ℤ◌, ◌*ℤ◌}
use atomic_proof_interpreter.Vm.Number.{
  to_int, serialize_script_num, low_bytes, set_sign, abs_value, little_endian, last_byte,
}
use atomic_proof_interpreter.Vm.NumberText.{to_int-serialize_script_num}
use atomic_proof_interpreter.Vm.Stack.{VmError, Stack, push_int}
use atomic_proof_interpreter.Vm.Ops.{is_true}
use atomic_proof_interpreter.Vm.Numeric.{op_div, op_mod}
use atomic_proof_interpreter.Vm.Machine.{
  BytOpcode, Instruction, BranchArm, Signatures, Vm, VmState, all_true, execute_opcode,
  is_currently_executing, is_control_flow, dispatch, on_main, main_op, record_arm, set_arm, going,
  returns,
}
use atomic_proof_interpreter.Vm.Blocks.{
  execute_all, closes, closes_with, flow, with_conditions, execute_all-skipped,
}
use atomic_proof_interpreter.Vm.Arms.{else_code, endif_code, execute_all-block}
use atomic_proof_interpreter.Vm.Division.{op_div-op_mod}

to_int-serialize_script_num_example :
    (negsuc 999 ≢ negsuc (2 ^ 63 - 1)
      → to_int (serialize_script_num (negsuc 999)) ≡ some (negsuc 999))
    × (negsuc 999 ≡ negsuc (2 ^ 63 - 1) → to_int (serialize_script_num (negsuc 999)) ≡ none)
to_int-serialize_script_num_example =
    to_int-serialize_script_num (negsuc 999) (omega arith) (omega arith)

op_div-op_mod_example :
    ((abs_value (pos 2) ≡ 0)
      × (op_div (serialize_script_num (pos 2) ∷ serialize_script_num (negsuc 6) ∷ [])
          ≡ err VmError.division_by_zero)
      × (op_mod (serialize_script_num (pos 2) ∷ serialize_script_num (negsuc 6) ∷ [])
          ≡ err VmError.division_by_zero))
    ⊎ ((q : ℤ) × (r : ℤ) × (op_div
            (serialize_script_num (pos 2) ∷ serialize_script_num (negsuc 6) ∷ [])
          ≡ ok (serialize_script_num q ∷ []))
        × (op_mod (serialize_script_num (pos 2) ∷ serialize_script_num (negsuc 6) ∷ [])
            ≡ ok (serialize_script_num r ∷ []))
        × (negsuc 6 ≡ q *ℤ pos 2 +ℤ r)
        × (abs_value r < abs_value (pos 2)))
op_div-op_mod_example = op_div-op_mod (negsuc 6) (pos 2) [] (omega arith) (omega arith)

-- Signatures that are never checked, and a machine about to start.
abbrev env : Signatures
env = record {
  foreign = λ t vm. err VmError.unknown_opcode;
  check_sig_callback = none;
  inputs_hash = [];
}

abbrev fresh : Stack → Vm
fresh s = record {
  main_stack = s;
  alt_stack = [];
  condition_stack = [];
  call_stack = [];
  root_branch_trace = [];
  pc = 0;
  state = VmState.running;
}

abbrev code : BytOpcode → Instruction
code = Instruction.opcode

-- OP_IF OP_DROP OP_ELSE OP_ADD OP_ENDIF OP_ENDIF, where the outermost block was opened before.
abbrev nested : List Instruction
nested =
    code BytOpcode.if_
    ∷ code BytOpcode.drop
    ∷ code BytOpcode.else_
    ∷ code BytOpcode.add
    ∷ code BytOpcode.endif
    ∷ code BytOpcode.endif
    ∷ []

nested-closes : closes nested 1 ≡ true
unfolding closes closes_with flow
nested-closes = refl

skips : all_true (false ∷ []) ≡ false
unfolding all_true
skips = refl

execute_all-skipped_example :
    execute_all env nested (with_conditions (fresh []) (true ∷ false ∷ []))
    ≡ ok (going (with_conditions (fresh []) (false ∷ [])))
execute_all-skipped_example =
    execute_all-skipped env (fresh []) nested (true ∷ []) (false ∷ []) skips nested-closes

-- OP_NOTIF OP_1 OP_ELSE OP_2 OP_ENDIF with a true condition, over one more element, leaves 2.
abbrev one : List Instruction
one = code (BytOpcode.op_n 1) ∷ []

abbrev two : List Instruction
two = code (BytOpcode.op_n 2) ∷ []

arms_close : (closes one 0 ≡ true) × (closes two 0 ≡ true)
unfolding closes closes_with flow
arms_close = (refl, refl)

abbrev before : Vm
before = fresh ((1 ∷ []) ∷ (9 ∷ []) ∷ [])

abbrev after : Vm
after = record (fresh ((2 ∷ []) ∷ (9 ∷ []) ∷ [])) {
  root_branch_trace = (0, BranchArm.else_arm) ∷ [];
}

else_runs :
    execute_all env two (
      with_conditions
        (record (fresh ((9 ∷ []) ∷ [])) { root_branch_trace = (0, BranchArm.else_arm) ∷ [] })
        (true ∷ []))
    ≡ ok (going (with_conditions after (true ∷ [])))
unfolding execute_all returns execute_opcode is_currently_executing all_true is_control_flow
    dispatch on_main main_op push_int serialize_script_num low_bytes set_sign
else_runs = refl

execute_all-block_example :
    execute_all env
      (code BytOpcode.notif ∷ (one ++ (else_code ∷ (two ++ (endif_code ∷ [])))))
      before
    ≡ execute_all env [] (with_conditions after [])
unfolding all_true to_int little_endian last_byte is_true record_arm set_arm
execute_all-block_example =
    execute_all-block env false before after (1 ∷ []) ((9 ∷ []) ∷ []) one two [] refl refl
      arms_close.0 arms_close.1 else_runs

-- ===== src/Vm/Machine.antt =====
-- executeOpcode of src/debugger/vm/bvm_simulator.cpp, with OP_CHECKSIG. Left out: shifts, the hash
-- instructions, OP_PUSH_META and OP_PARTIAL_HASH.
mod State
mod Control
unfoldable pub use State.*
unfoldable pub use Control.*
use atomic_proof_interpreter.Prelude.{
  ℕ, ◌-◌, Bool, true, false, not, ◌&&◌, Option, none, some, List, [], ◌∷◌, ◌==◌, if◌then◌else◌,
  Result, ok, err, ◌>>=◌,
}
use atomic_proof_interpreter.Prelude.Int.{pos, negsuc}
use atomic_proof_interpreter.Vm.Number.{to_int}
use atomic_proof_interpreter.Vm.Stack.{
  VmError, Stack, Outcome, push, push_int, pop, dup, drop_top, swap,
}
use atomic_proof_interpreter.Vm.Ops.{
  op_push, op_2drop, op_2dup, op_3dup, op_over, op_2over, op_rot, op_2rot, op_2swap, op_ifdup,
  op_depth, op_nip, op_tuck, op_pick, op_roll, op_size, is_true,
}
use atomic_proof_interpreter.Vm.Numeric.{
  flag, op_add, op_sub, op_mul, op_div, op_mod, op_neg, op_abs, op_inc, op_dec, op_0notequal,
  op_not, op_equal, op_numequal, op_numnotequal, op_lessthan, op_greaterthan, op_lessthanorequal,
  op_greaterthanorequal, op_min, op_max, op_within, op_and, op_or, op_verify,
}
use atomic_proof_interpreter.Vm.Bytes.{
  op_cat, op_split, op_num2bin, op_bin2num, op_invert, op_bitand, op_bitor, op_bitxor,
}

-- A signature loses its last byte, the sighash type.
unfoldable pub drop_last : List ℕ → List ℕ
drop_last [] = []
drop_last (b ∷ []) = []
drop_last (b ∷ c ∷ bytes) = b ∷ drop_last (c ∷ bytes)

unfoldable pub signature_ok :
    Option (List ℕ → List ℕ → List ℕ → Bool) → List ℕ → List ℕ → List ℕ → Bool
signature_ok none sig pubkey sighash = true
signature_ok (some check) sig pubkey sighash = check sig pubkey sighash

unfoldable pub op_checksig : Signatures → Bool → Stack → Outcome
unfolding pop push_int drop_last signature_ok flag
op_checksig env verify_only s = do
  (pubkey, s₁) ← pop s
  (sig, s₂) ← pop s₁
  let good = signature_ok env.check_sig_callback (drop_last sig) pubkey env.inputs_hash
  if verify_only
      then (if good then ok s₂ else err VmError.check_sig_failed)
      else ok (push_int (flag good) s₂)

-- The main-stack function of an opcode that needs nothing else.
unfoldable pub main_op : Signatures → BytOpcode → Stack → Outcome
unfolding push_int op_checksig
main_op env op_0 s = ok (push_int (pos 0) s)
main_op env op_1negate s = ok (push_int (negsuc 0) s)
main_op env (op_n n) s = ok (push_int (pos n) s)
main_op env verify s = op_verify s
main_op env two_drop s = op_2drop s
main_op env two_dup s = op_2dup s
main_op env three_dup s = op_3dup s
main_op env two_over s = op_2over s
main_op env two_rot s = op_2rot s
main_op env two_swap s = op_2swap s
main_op env if_dup s = op_ifdup s
main_op env depth s = op_depth s
main_op env drop s = drop_top s
main_op env dup_ s = dup s
main_op env nip s = op_nip s
main_op env over s = op_over s
main_op env pick s = op_pick s
main_op env roll s = op_roll s
main_op env rot s = op_rot s
main_op env swap_ s = swap s
main_op env tuck s = op_tuck s
main_op env cat s = op_cat s
main_op env split s = op_split s
main_op env num2bin s = op_num2bin s
main_op env bin2num s = op_bin2num s
main_op env size_ s = op_size s
main_op env invert s = op_invert s
main_op env bit_and_ s = op_bitand s
main_op env bit_or_ s = op_bitor s
main_op env bit_xor_ s = op_bitxor s
main_op env equal s = op_equal s
main_op env equal_verify s = do s₁ ← op_equal s; op_verify s₁
main_op env add_one s = op_inc s
main_op env sub_one s = op_dec s
main_op env negate_ s = op_neg s
main_op env abs s = op_abs s
main_op env not_ s = op_not s
main_op env zero_not_equal s = op_0notequal s
main_op env add s = op_add s
main_op env sub s = op_sub s
main_op env mul s = op_mul s
main_op env div s = op_div s
main_op env mod_ s = op_mod s
main_op env bool_and s = op_and s
main_op env bool_or s = op_or s
main_op env num_equal s = op_numequal s
main_op env num_equal_verify s = do s₁ ← op_numequal s; op_verify s₁
main_op env num_not_equal s = op_numnotequal s
main_op env less_than s = op_lessthan s
main_op env greater_than s = op_greaterthan s
main_op env less_than_or_equal s = op_lessthanorequal s
main_op env greater_than_or_equal s = op_greaterthanorequal s
main_op env min_ s = op_min s
main_op env max_ s = op_max s
main_op env within s = op_within s
main_op env check_sig s = op_checksig env false s
main_op env check_sig_verify s = op_checksig env true s
main_op env check_multisig s = err VmError.not_implemented
main_op env check_multisig_verify s = err VmError.not_implemented
main_op env _ s = ok s

unfoldable pub is_control_flow : Instruction → Bool
is_control_flow (opcode if_) = true
is_control_flow (opcode notif) = true
is_control_flow (opcode else_) = true
is_control_flow (opcode endif) = true
is_control_flow _ = false

-- One branch for each instruction. OP_NOP, OP_CODESEPARATOR and the time locks do nothing.
unfoldable pub dispatch : Signatures → Instruction → Vm → Result VmError Vm
unfolding on_main op_push main_op
dispatch env (push_data operand) vm = on_main (op_push operand) vm
dispatch env (opcode if_) vm = open_block true vm
dispatch env (opcode notif) vm = open_block false vm
dispatch env (opcode else_) vm = op_else vm
dispatch env (opcode endif) vm = op_endif vm
dispatch env (opcode return_) vm = op_return vm
dispatch env (opcode to_alt_stack) vm = op_to_alt_stack vm
dispatch env (opcode from_alt_stack) vm = op_from_alt_stack vm
dispatch env (opcode op) vm = on_main (main_op env op) vm

-- In a block that is not executing, only control flow has an effect.
unfoldable pub execute_opcode : Signatures → Instruction → Vm → Result VmError Vm
unfolding is_currently_executing is_control_flow dispatch
execute_opcode env i vm =
    if not (is_currently_executing vm) && not (is_control_flow i) then ok vm else dispatch env i vm

-- Where a run through code ends: behind its last instruction, or at an OP_RETURN that was executed,
-- which finishes the program or leaves for the code behind the call.
pub data Run : Type 0 where
  going stopped : Vm → Run

-- Whether the instruction is an OP_RETURN that is executed.
unfoldable pub returns : Instruction → Vm → Bool
unfolding is_currently_executing
returns (opcode return_) vm = is_currently_executing vm
returns _ vm = false

-- The run of more code, from where the first run ends.
unfoldable pub and_then : (Vm → Result VmError Run) → Run → Result VmError Run
and_then f (going vm) = f vm
and_then f (stopped vm) = ok (stopped vm)

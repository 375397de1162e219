-- ===== src/Vm/Machine/State.antt =====
-- BytOpcode of src/bytecode/bytecode_opcodes.h and the state of src/debugger/vm/bvm_simulator.h.
use atomic_proof_interpreter.Prelude.{ℕ, Bool, Option, List, Result}
use atomic_proof_interpreter.Vm.Stack.{VmError, Stack}

-- BytOpcode of src/bytecode/bytecode_opcodes.h, less the opcodes left out. `op_n n` is OP_n for n
-- from 1 to 16.
pub data BytOpcode : Type 0 where
  op_0 op_1negate : BytOpcode
  op_n : ℕ → BytOpcode
  nop if_ notif else_ endif verify return_ : BytOpcode
  to_alt_stack from_alt_stack two_drop two_dup three_dup two_over two_rot two_swap if_dup depth drop
        dup_ nip over pick roll rot swap_ tuck :
      BytOpcode
  cat split num2bin bin2num size_ : BytOpcode
  invert bit_and_ bit_or_ bit_xor_ : BytOpcode
  equal equal_verify : BytOpcode
  add_one sub_one negate_ abs not_ zero_not_equal add sub mul div mod_ bool_and bool_or : BytOpcode
  num_equal num_equal_verify num_not_equal less_than greater_than less_than_or_equal
        greater_than_or_equal min_ max_ within :
      BytOpcode
  code_separator check_sig check_sig_verify check_multisig check_multisig_verify : BytOpcode
  check_lock_time_verify check_sequence_verify : BytOpcode

-- A parsed instruction: an opcode, or a push with its operand's bytes.
pub data Instruction : Type 0 where
  opcode : BytOpcode → Instruction
  push_data : List ℕ → Instruction

pub data BranchArm : Type 0 where
  then_arm else_arm : BranchArm

-- The last choice made at each OP_IF or OP_NOTIF, by its pc.
abbrev pub BranchTrace : Type 0
BranchTrace = List (ℕ × BranchArm)

-- What execution reads of a CallFrame.
pub record CallFrame : Type 0 where
  pub return_pc : ℕ
  pub branch_trace : BranchTrace

pub data VmState : Type 0 where
  ready running paused step_mode finished error : VmState

-- Conditions and frames have the innermost first.
pub record Vm : Type 0 where
  pub main_stack : Stack
  pub alt_stack : Stack
  pub condition_stack : List Bool
  pub call_stack : List CallFrame
  pub root_branch_trace : BranchTrace
  pub pc : ℕ
  pub state : VmState

-- What the machine is set up with: the configured callback (`none` where it is not set), the
-- transaction's sighash, and what it does with a text that is no instruction of the model, in a
-- block that executes or not: the opcodes left out, and the placeholders.
pub record Signatures : Type 0 where
  pub foreign : List ℕ → Vm → Result VmError Vm
  pub check_sig_callback : Option (List ℕ → List ℕ → List ℕ → Bool)
  pub inputs_hash : List ℕ

-- ===== src/Vm/Text.antt =====
-- Script text run on the machine: the opcode of each byte (src/bytecode/bytecode_opcodes.h), and the
-- instruction that the decoder of src/bytecode/script_decoder.cpp hands to executeOpcode.
use atomic_proof_interpreter.Prelude.{
  ℕ, ◌+◌, ◌-◌, ◌&&◌, Bool, false, Option, none, some, List, [], ◌∷◌, length, leb, ◌==◌,
  if◌then◌else◌, Result, ok, err, ◌>>=◌,
}
use atomic_proof_interpreter.Script.Hex.{ScriptCodecError, hex_to_bytes, byte_to_hex}
use atomic_proof_interpreter.Script.Decoder.{RawInstruction, decode_instruction}
use atomic_proof_interpreter.Vm.Stack.{VmError}
use atomic_proof_interpreter.Vm.Machine.{
  BytOpcode, op_0, op_1negate, op_n, nop, if_, notif, else_, endif, verify, return_, to_alt_stack,
  from_alt_stack, two_drop, two_dup, three_dup, two_over, two_rot, two_swap, if_dup, depth, drop,
  dup_, nip, over, pick, roll, rot, swap_, tuck, cat, split, num2bin, bin2num, size_, invert,
  bit_and_, bit_or_, bit_xor_, equal, equal_verify, add_one, sub_one, negate_, abs, not_,
  zero_not_equal, add, sub, mul, div, mod_, bool_and, bool_or, num_equal, num_equal_verify,
  num_not_equal, less_than, greater_than, less_than_or_equal, greater_than_or_equal, min_, max_,
  within, code_separator, check_sig, check_sig_verify, check_multisig, check_multisig_verify,
  check_lock_time_verify, check_sequence_verify, Instruction, Vm, Signatures, execute_opcode, Run,
  going, stopped, returns,
}

-- The values of the enumeration.
unfoldable pub opcode_value : BytOpcode → ℕ
opcode_value op_0 = 0x00
opcode_value op_1negate = 0x4f
opcode_value (op_n n) = 0x50 + n
opcode_value nop = 0x61
opcode_value if_ = 0x63
opcode_value notif = 0x64
opcode_value else_ = 0x67
opcode_value endif = 0x68
opcode_value verify = 0x69
opcode_value return_ = 0x6a
opcode_value to_alt_stack = 0x6b
opcode_value from_alt_stack = 0x6c
opcode_value two_drop = 0x6d
opcode_value two_dup = 0x6e
opcode_value three_dup = 0x6f
opcode_value two_over = 0x70
opcode_value two_rot = 0x71
opcode_value two_swap = 0x72
opcode_value if_dup = 0x73
opcode_value depth = 0x74
opcode_value drop = 0x75
opcode_value dup_ = 0x76
opcode_value nip = 0x77
opcode_value over = 0x78
opcode_value pick = 0x79
opcode_value roll = 0x7a
opcode_value rot = 0x7b
opcode_value swap_ = 0x7c
opcode_value tuck = 0x7d
opcode_value cat = 0x7e
opcode_value split = 0x7f
opcode_value num2bin = 0x80
opcode_value bin2num = 0x81
opcode_value size_ = 0x82
opcode_value invert = 0x83
opcode_value bit_and_ = 0x84
opcode_value bit_or_ = 0x85
opcode_value bit_xor_ = 0x86
opcode_value equal = 0x87
opcode_value equal_verify = 0x88
opcode_value add_one = 0x8b
opcode_value sub_one = 0x8c
opcode_value negate_ = 0x8f
opcode_value abs = 0x90
opcode_value not_ = 0x91
opcode_value zero_not_equal = 0x92
opcode_value add = 0x93
opcode_value sub = 0x94
opcode_value mul = 0x95
opcode_value div = 0x96
opcode_value mod_ = 0x97
opcode_value bool_and = 0x9a
opcode_value bool_or = 0x9b
opcode_value num_equal = 0x9c
opcode_value num_equal_verify = 0x9d
opcode_value num_not_equal = 0x9e
opcode_value less_than = 0x9f
opcode_value greater_than = 0xa0
opcode_value less_than_or_equal = 0xa1
opcode_value greater_than_or_equal = 0xa2
opcode_value min_ = 0xa3
opcode_value max_ = 0xa4
opcode_value within = 0xa5
opcode_value code_separator = 0xab
opcode_value check_sig = 0xac
opcode_value check_sig_verify = 0xad
opcode_value check_multisig = 0xae
opcode_value check_multisig_verify = 0xaf
opcode_value check_lock_time_verify = 0xb1
opcode_value check_sequence_verify = 0xb2

unfoldable pub opcode_to_hex : BytOpcode → List ℕ
opcode_to_hex op = byte_to_hex (opcode_value op)

-- Every opcode but OP_1 to OP_16.
abbrev named_opcodes : List BytOpcode
named_opcodes =
    op_0 ∷ op_1negate ∷ nop ∷ if_ ∷ notif ∷ else_ ∷ endif ∷ verify ∷ return_ ∷ to_alt_stack
    ∷ from_alt_stack ∷ two_drop ∷ two_dup ∷ three_dup ∷ two_over ∷ two_rot ∷ two_swap ∷ if_dup
    ∷ depth ∷ drop ∷ dup_ ∷ nip ∷ over ∷ pick ∷ roll ∷ rot ∷ swap_ ∷ tuck ∷ cat ∷ split ∷ num2bin
    ∷ bin2num ∷ size_ ∷ invert ∷ bit_and_ ∷ bit_or_ ∷ bit_xor_ ∷ equal ∷ equal_verify ∷ add_one
    ∷ sub_one ∷ negate_ ∷ abs ∷ not_ ∷ zero_not_equal ∷ add ∷ sub ∷ mul ∷ div ∷ mod_ ∷ bool_and
    ∷ bool_or ∷ num_equal ∷ num_equal_verify ∷ num_not_equal ∷ less_than ∷ greater_than
    ∷ less_than_or_equal ∷ greater_than_or_equal ∷ min_ ∷ max_ ∷ within ∷ code_separator ∷ check_sig
    ∷ check_sig_verify ∷ check_multisig ∷ check_multisig_verify ∷ check_lock_time_verify
    ∷ check_sequence_verify ∷ []

unfoldable pub find_opcode : ℕ → List BytOpcode → Option BytOpcode
find_opcode byte [] = none
find_opcode byte (op ∷ ops) = if opcode_value op == byte then some op else find_opcode byte ops

unfoldable pub opcode_of_byte : ℕ → Option BytOpcode
unfolding find_opcode opcode_value
opcode_of_byte byte =
    if leb 0x51 byte && leb byte 0x60
    then some (op_n (byte - 0x50))
    else find_opcode byte named_opcodes

unfoldable pub named : Option BytOpcode → Option Instruction
named none = none
named (some op) = some (Instruction.opcode op)

-- A push with its operand, or the instruction that the opcode names.
unfoldable pub to_instruction : RawInstruction → Option Instruction
unfolding opcode_of_byte named
to_instruction r =
    if leb 0x01 r.opcode && leb r.opcode 0x4e
    then some (Instruction.push_data r.operand)
    else named (opcode_of_byte r.opcode)

unfoldable pub whole : ℕ → Option RawInstruction → Option Instruction
unfolding to_instruction
whole size none = none
whole size (some r) = if r.bytes_consumed == size then to_instruction r else none

unfoldable pub read_bytes : Result ScriptCodecError (List ℕ) → Option Instruction
unfolding whole decode_instruction
read_bytes (err e) = none
read_bytes (ok bytes) = whole (length bytes) (decode_instruction bytes)

-- The one instruction that a hexadecimal text holds, if it holds exactly one.
unfoldable pub read_text : List ℕ → Option Instruction
read_text text = read_bytes (hex_to_bytes text)

-- An instruction of the model, or another text.
unfoldable pub run_instruction : Signatures → List ℕ → Option Instruction → Vm → Result VmError Vm
run_instruction env text none vm = env.foreign text vm
run_instruction env text (some i) vm = execute_opcode env i vm

-- executeOpcode for each text in turn, as for code without OP_RETURN.
unfoldable pub run_texts : Signatures → List (List ℕ) → Vm → Result VmError Vm
unfolding run_instruction
run_texts env [] vm = ok vm
run_texts env (text ∷ texts) vm = do
  vm' ← run_instruction env text (read_text text) vm
  run_texts env texts vm'

unfoldable pub text_returns : Option Instruction → Vm → Bool
unfolding returns
text_returns none vm = false
text_returns (some i) vm = returns i vm

-- A script's run, which an OP_RETURN that is executed ends.
unfoldable pub run_script : Signatures → List (List ℕ) → Vm → Result VmError Run
unfolding run_instruction text_returns
run_script env [] vm = ok (going vm)
run_script env (text ∷ texts) vm = do
  vm' ← run_instruction env text (read_text text) vm
  if text_returns (read_text text) vm then ok (stopped vm') else run_script env texts vm'

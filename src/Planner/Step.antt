-- ===== src/Planner/Step.antt =====
-- StackPlanStep of src/bytecode/stack_permutation_planner.cpp: the emitted text and its cost, and
-- numberToScriptHex of src/bytecode/bytecode_helper_fun.h.
use atomic_proof_interpreter.Prelude.{
  ℕ, zero, suc, ◌+◌, ◌-◌, ◌*◌, ◌/◌, ◌%◌, Bool, true, false, ◌&&◌, Option, none, some, List, [], ◌∷◌,
  length, ltb, leb, ◌==◌, if◌then◌else◌,
}
use atomic_proof_interpreter.Prelude.Int.{ℤ, pos, negsuc}
use atomic_proof_interpreter.Script.Hex.{byte_to_hex}
use atomic_proof_interpreter.Script.Codec.{PushEncodingPolicy, encode_push}
use atomic_proof_interpreter.Vm.Number.{serialize_script_num}
use atomic_proof_interpreter.Vm.Machine.{BytOpcode}
use atomic_proof_interpreter.Vm.Text.{opcode_to_hex}

pub data StackPlanOp : Type 0 where
  swap rot two_swap two_rot roll dup over pick drop nip tuck to_alt_stack from_alt_stack :
      StackPlanOp

pub record StackPlanStep : Type 0 where
  pub op : StackPlanOp
  pub depth : ℕ

abbrev pub step : StackPlanOp → ℕ → StackPlanStep
step op depth = record { op = op; depth = depth }

-- OP_INVALIDOPCODE stands for a push that cannot be encoded.
unfoldable pub or_invalid : Option (List ℕ) → List ℕ
or_invalid none = byte_to_hex 0xff
or_invalid (some text) = text

unfoldable pub encode_push_data : List ℕ → List ℕ
unfolding or_invalid
encode_push_data bytes = or_invalid (encode_push bytes PushEncodingPolicy.legacy)

-- The digits behind "0x". CScriptNum::Serialize writes what serializeScriptNum writes.
unfoldable pub number_digits : ℤ → List ℕ
unfolding encode_push_data serialize_script_num
number_digits (pos zero) = opcode_to_hex BytOpcode.op_0
number_digits (pos (suc n)) =
    if leb (suc n) 16
    then byte_to_hex (0x50 + suc n)
    else encode_push_data (serialize_script_num (pos (suc n)))
number_digits (negsuc zero) = opcode_to_hex BytOpcode.op_1negate
number_digits (negsuc (suc n)) = encode_push_data (serialize_script_num (negsuc (suc n)))

unfoldable pub number_to_script_hex : ℤ → List ℕ
unfolding number_digits
number_to_script_hex value = b'0' ∷ b'x' ∷ number_digits value

unfoldable pub encoded_instructions_of : StackPlanOp → ℕ → List (List ℕ)
encoded_instructions_of swap depth = opcode_to_hex BytOpcode.swap_ ∷ []
encoded_instructions_of rot depth = opcode_to_hex BytOpcode.rot ∷ []
encoded_instructions_of two_swap depth = opcode_to_hex BytOpcode.two_swap ∷ []
encoded_instructions_of two_rot depth = opcode_to_hex BytOpcode.two_rot ∷ []
encoded_instructions_of roll depth =
    if depth == 0
    then []
    else if depth == 1
    then opcode_to_hex BytOpcode.swap_ ∷ []
    else if depth == 2
    then opcode_to_hex BytOpcode.rot ∷ []
    else number_to_script_hex (pos depth) ∷ opcode_to_hex BytOpcode.roll ∷ []
encoded_instructions_of dup depth = opcode_to_hex BytOpcode.dup_ ∷ []
encoded_instructions_of over depth = opcode_to_hex BytOpcode.over ∷ []
encoded_instructions_of pick depth =
    if depth == 0
    then opcode_to_hex BytOpcode.dup_ ∷ []
    else if depth == 1
    then opcode_to_hex BytOpcode.over ∷ []
    else number_to_script_hex (pos depth) ∷ opcode_to_hex BytOpcode.pick ∷ []
encoded_instructions_of drop depth = opcode_to_hex BytOpcode.drop ∷ []
encoded_instructions_of nip depth = opcode_to_hex BytOpcode.nip ∷ []
encoded_instructions_of tuck depth = opcode_to_hex BytOpcode.tuck ∷ []
encoded_instructions_of to_alt_stack depth = opcode_to_hex BytOpcode.to_alt_stack ∷ []
encoded_instructions_of from_alt_stack depth = opcode_to_hex BytOpcode.from_alt_stack ∷ []

unfoldable pub encoded_instructions : StackPlanStep → List (List ℕ)
unfolding encoded_instructions_of
encoded_instructions s = encoded_instructions_of s.op s.depth

unfoldable pub has_0x : List ℕ → Bool
has_0x (c ∷ d ∷ text) = c == b'0' && (if d == b'x' then true else d == b'X')
has_0x text = false

-- `none` is the exception for an odd number of digits.
unfoldable pub encoded_byte_size : List ℕ → Option ℕ
unfolding has_0x
encoded_byte_size text =
    let digits = length text - (if has_0x text then 2 else 0) in
    if digits % 2 == 0 then some (digits / 2) else none

unfoldable pub add_size : Option ℕ → Option ℕ → Option ℕ
add_size (some a) (some b) = some (a + b)
add_size _ _ = none

unfoldable pub sum_sizes : List (List ℕ) → Option ℕ
unfolding encoded_byte_size add_size
sum_sizes [] = some 0
sum_sizes (text ∷ texts) = add_size (encoded_byte_size text) (sum_sizes texts)

unfoldable pub serialized_byte_size : StackPlanStep → Option ℕ
unfolding sum_sizes encoded_instructions
serialized_byte_size s = sum_sizes (encoded_instructions s)

unfoldable pub emitted_instruction_count_of : StackPlanOp → ℕ → ℕ
emitted_instruction_count_of roll depth = if depth == 0 then 0 else if leb depth 2 then 1 else 2
emitted_instruction_count_of pick depth = if leb depth 1 then 1 else 2
emitted_instruction_count_of _ depth = 1

unfoldable pub emitted_instruction_count : StackPlanStep → ℕ
unfolding emitted_instruction_count_of
emitted_instruction_count s = emitted_instruction_count_of s.op s.depth

unfoldable pub touched_depth_of : StackPlanOp → ℕ → ℕ
touched_depth_of swap depth = 1
touched_depth_of over depth = 1
touched_depth_of nip depth = 1
touched_depth_of tuck depth = 1
touched_depth_of rot depth = 2
touched_depth_of two_swap depth = 3
touched_depth_of two_rot depth = 5
touched_depth_of roll depth = depth
touched_depth_of pick depth = depth
touched_depth_of _ depth = 0

unfoldable pub touched_depth : StackPlanStep → ℕ
unfolding touched_depth_of
touched_depth s = touched_depth_of s.op s.depth

unfoldable pub pick_byte_cost : ℕ → Option ℕ
unfolding add_size encoded_byte_size number_to_script_hex
pick_byte_cost depth =
    if leb depth 1
    then some 1
    else add_size (encoded_byte_size (number_to_script_hex (pos depth))) (some 1)

abbrev pub size_max : ℕ
size_max = 0xffff_ffff_ffff_ffff

unfoldable pub legacy_copy_assignment_byte_cost : ℕ → ℕ → Option ℕ
unfolding add_size pick_byte_cost
legacy_copy_assignment_byte_cost source target =
    if source == target
    then some size_max
    else if ltb target source
    then add_size (some (2 * target + 1)) (pick_byte_cost (source - target - 1))
    else if source == 0 && target == 1
    then some 2
    else add_size (pick_byte_cost source) (some (3 * target + 3))

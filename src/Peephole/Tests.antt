-- ===== src/Peephole/Tests.antt =====
-- Runs of the peephole pass, and the theorems at concrete inputs.
use atomic_proof_interpreter.Prelude.{
  err, ℕ, ◌≡◌, ◌≤◌, refl, arith, sym, ◌∙◌, true, none, some, List, [], ◌∷◌, ◌++◌, length, All, ok,
}
use atomic_proof_interpreter.Script.Hex.{
  byte_to_hex, IsByte, bytes_to_hex, hex_to_bytes, hex_pairs, hex_digit, hex_pair, cons_byte,
  remove_prefix,
}
use atomic_proof_interpreter.Script.Codec.{PushEncodingPolicy, decode_push_hex}
use atomic_proof_interpreter.Vm.Number.{Element, serialize_script_num, set_sign, low_bytes, to_int}
use atomic_proof_interpreter.Vm.Stack.{VmError, Stack, dup, push_int, pop}
use atomic_proof_interpreter.Vm.Numeric.{op_not, flag, is_zero}
use atomic_proof_interpreter.Vm.Machine.{
  execute_opcode, is_control_flow, dispatch, on_main, main_op, BytOpcode, Instruction, push_data,
  Signatures, Vm, VmState, is_currently_executing,
}
use atomic_proof_interpreter.Vm.Text.{opcode_to_hex, read_text, read_bytes, run_texts}
use atomic_proof_interpreter.Peephole.Push.{
  LocalRewriteOptions, is_profitable_duplicate_push, decoded_push_payload,
}
use atomic_proof_interpreter.Peephole.Pass.{commit, run_rounds, pass_loop}
use atomic_proof_interpreter.Peephole.Placeholders.{PlaceholdersPush, pushed}
use atomic_proof_interpreter.Peephole.Windows.{SameRun}
use atomic_proof_interpreter.Peephole.Constants.{IsSolid}
use atomic_proof_interpreter.Peephole.Soundness.{hex-IsSolid, IsSound}
use atomic_proof_interpreter.Peephole.Text.{is_op}
use atomic_proof_interpreter.Peephole.Rules.{
  op_hex, try_rewrite_pair, try_rewrite_triple, after_bool, has_proven_stack_depth,
}
use atomic_proof_interpreter.Peephole.Reads.{is_op-read}
use atomic_proof_interpreter.Peephole.Agreement.{BoolTop}
use atomic_proof_interpreter.Peephole.Context.{
  run-Context, after_bool-BoolTop, has_proven_stack_depth-Deep,
}
use atomic_proof_interpreter.Peephole.Control.{try_rewrite_pair-IsSound}
use atomic_proof_interpreter.Peephole.TripleRules.{try_rewrite_triple-Sound}
use atomic_proof_interpreter.Peephole.Duplicates.{is_profitable_duplicate_push-SameRun}
use atomic_proof_interpreter.Peephole.Payloads.{run_texts-decoded_push_payload}
use atomic_proof_interpreter.Peephole.Suffix.{NoReturn, run_rounds-suffix}
use atomic_proof_interpreter.Peephole.Rounds.{run_rounds-same, pass_loop-fuel}

abbrev env : Signatures
env = record {
  foreign = λ t vm. err VmError.unknown_opcode;
  check_sig_callback = none;
  inputs_hash = [];
}

abbrev machine : Vm
machine = record {
  main_stack = (5 ∷ []) ∷ [];
  alt_stack = [];
  condition_stack = [];
  call_stack = [];
  root_branch_trace = [];
  pc = 0;
  state = VmState.running;
}

abbrev options : LocalRewriteOptions
options = record {
  known_data_placeholders = [];
  push_encoding_policy = PushEncodingPolicy.canonical;
}

abbrev script : List (List ℕ)
script =
    opcode_to_hex (BytOpcode.op_n 1)
    ∷ opcode_to_hex BytOpcode.add
    ∷ opcode_to_hex (BytOpcode.op_n 2)
    ∷ opcode_to_hex BytOpcode.roll
    ∷ []

abbrev smaller : List (List ℕ)
smaller = opcode_to_hex BytOpcode.add_one ∷ opcode_to_hex BytOpcode.rot ∷ []

rewritten : run_rounds true options 16 script ≡ smaller
unfolding run_rounds opcode_to_hex byte_to_hex hex_digit
rewritten = refl

solid : All IsSolid script
solid = (
  (hex-IsSolid (BytOpcode.op_n 1) (omega arith)).0,
  (
    (hex-IsSolid BytOpcode.add tt).0,
    ((hex-IsSolid (BytOpcode.op_n 2) (omega arith)).0, ((hex-IsSolid BytOpcode.roll tt).0, tt)),
  ),
)

-- The placeholder <a> of two bytes, and a machine on which it pushes them.
abbrev with_placeholder : LocalRewriteOptions
with_placeholder = record {
  known_data_placeholders = (b'a' ∷ [], 2) ∷ [];
  push_encoding_policy = PushEncodingPolicy.canonical;
}

abbrev pushing : Signatures
pushing = record {
  foreign = λ t vm. ok (pushed (7 ∷ 7 ∷ []) vm);
  check_sig_callback = none;
  inputs_hash = [];
}

placeholders_push : PlaceholdersPush pushing with_placeholder
placeholders_push t n h = (7 ∷ 7 ∷ [], λ vm. refl)

abbrev placeholder : List ℕ
placeholder = b'<' ∷ b'a' ∷ b'>' ∷ []

placeholder-IsSolid : IsSolid placeholder
unfolding read_text read_bytes hex_to_bytes hex_pairs hex_pair hex_digit cons_byte remove_prefix
placeholder-IsSolid e = grind arith

-- The script behind two placeholders, of which the second becomes OP_DUP.
abbrev twice : List (List ℕ)
twice = placeholder ∷ placeholder ∷ script

abbrev once : List (List ℕ)
once = placeholder ∷ opcode_to_hex BytOpcode.dup_ ∷ smaller

twice_rewritten : run_rounds true with_placeholder 16 twice ≡ once
unfolding run_rounds opcode_to_hex byte_to_hex hex_digit decode_push_hex hex_to_bytes
twice_rewritten = refl

run_rounds-same_example : SameRun pushing twice (run_rounds true with_placeholder 16 twice) machine
run_rounds-same_example =
    run_rounds-same pushing true with_placeholder placeholders_push 16 twice machine
      (placeholder-IsSolid, (placeholder-IsSolid, solid))

-- OP_1 OP_VERIFY, which is not removed from a script that has nothing else.
abbrev checked : List (List ℕ)
checked = opcode_to_hex (BytOpcode.op_n 1) ∷ opcode_to_hex BytOpcode.verify ∷ []

checked_kept : commit true checked (run_rounds true options 16 checked) ≡ checked
unfolding run_rounds commit opcode_to_hex byte_to_hex hex_digit
checked_kept = refl

-- OP_1 OP_ADD, before and behind an OP_RETURN.
abbrev one_add : List (List ℕ)
one_add = opcode_to_hex (BytOpcode.op_n 1) ∷ opcode_to_hex BytOpcode.add ∷ []

abbrev return_text : List ℕ
return_text = opcode_to_hex BytOpcode.return_

suffix_kept :
    run_rounds true options 16 (one_add ++ (return_text ∷ one_add))
    ≡ opcode_to_hex BytOpcode.add_one ∷ return_text ∷ one_add
unfolding run_rounds opcode_to_hex byte_to_hex hex_digit
suffix_kept = refl

return_found : is_op return_text BytOpcode.return_ ≡ true
unfolding is_op opcode_to_hex byte_to_hex hex_digit
return_found = refl

one_add-NoReturn : All NoReturn one_add
unfolding is_op opcode_to_hex byte_to_hex hex_digit
one_add-NoReturn = (refl, (refl, tt))

run_rounds-suffix_example :
    (front : List (List ℕ)) × (run_rounds true options 16 (one_add ++ (return_text ∷ one_add))
      ≡ front ++ (return_text ∷ one_add))
run_rounds-suffix_example =
    run_rounds-suffix return_text return_found true options one_add one_add-NoReturn 16 one_add

pass_loop-fuel_example : pass_loop true options 4 [] script ≡ pass_loop true options 9 [] script
pass_loop-fuel_example = pass_loop-fuel env true options 4 9 [] script (omega arith) (omega arith)

empty_run : run_texts env [] machine ≡ ok machine
unfolding run_texts
empty_run = refl

try_rewrite_pair-IsSound_example :
    IsSound env machine
      (opcode_to_hex (BytOpcode.op_n 1) ∷ opcode_to_hex BytOpcode.add ∷ [])
      (try_rewrite_pair (opcode_to_hex (BytOpcode.op_n 1)) (opcode_to_hex BytOpcode.add) [] true)
try_rewrite_pair-IsSound_example =
    try_rewrite_pair-IsSound env [] machine (run-Context env [] machine machine empty_run)
      (opcode_to_hex (BytOpcode.op_n 1)) (opcode_to_hex BytOpcode.add) true
      (hex-IsSolid (BytOpcode.op_n 1) (omega arith)).0

try_rewrite_triple-Sound_example :
    IsSound env machine
      (opcode_to_hex (BytOpcode.op_n 1)
        ∷ opcode_to_hex BytOpcode.dup_
        ∷ opcode_to_hex BytOpcode.equal
        ∷ [])
      (try_rewrite_triple
        (opcode_to_hex (BytOpcode.op_n 1))
        (opcode_to_hex BytOpcode.dup_)
        (opcode_to_hex BytOpcode.equal))
try_rewrite_triple-Sound_example =
    try_rewrite_triple-Sound env machine (opcode_to_hex (BytOpcode.op_n 1))
      (opcode_to_hex BytOpcode.dup_) (opcode_to_hex BytOpcode.equal)
      (hex-IsSolid (BytOpcode.op_n 1) (omega arith)).0 (hex-IsSolid BytOpcode.dup_ tt).0

-- The two bytes 7 7 behind their length.
abbrev two_bytes : List ℕ
two_bytes = b'0' ∷ b'2' ∷ b'0' ∷ b'7' ∷ b'0' ∷ b'7' ∷ []

two_bytes_read : read_text two_bytes ≡ some (push_data (7 ∷ 7 ∷ []))
unfolding read_text read_bytes hex_to_bytes hex_pairs hex_pair hex_digit cons_byte remove_prefix
two_bytes_read = refl

two_bytes-IsSolid : IsSolid two_bytes
two_bytes-IsSolid e = let x = sym two_bytes_read ∙ e in grind arith

placeholder_profitable :
    is_profitable_duplicate_push placeholder placeholder with_placeholder ≡ true
unfolding is_profitable_duplicate_push hex_digit decode_push_hex hex_to_bytes
placeholder_profitable = refl

is_profitable_duplicate_push-SameRun_example :
    SameRun pushing
      (placeholder ∷ placeholder ∷ [])
      (placeholder ∷ op_hex BytOpcode.dup_ ∷ [])
      machine
is_profitable_duplicate_push-SameRun_example =
    is_profitable_duplicate_push-SameRun pushing with_placeholder placeholder placeholder machine
      placeholders_push placeholder_profitable placeholder-IsSolid

decoded : decoded_push_payload two_bytes ≡ some (b'0' ∷ b'7' ∷ b'0' ∷ b'7' ∷ [])
unfolding decoded_push_payload hex_digit
decoded = refl

live : is_currently_executing machine ≡ true
unfolding is_currently_executing
live = refl

run_texts-decoded_push_payload_example :
    (e : Element) × All IsByte e
    × (b'0' ∷ b'7' ∷ b'0' ∷ b'7' ∷ [] ≡ bytes_to_hex e)
    × (run_texts env (two_bytes ∷ []) machine
        ≡ ok (record machine { main_stack = e ∷ machine.main_stack }))
run_texts-decoded_push_payload_example =
    run_texts-decoded_push_payload env two_bytes _ machine decoded two_bytes-IsSolid live

live_after : (s : Stack) → is_currently_executing (record machine { main_stack = s }) ≡ true
unfolding is_currently_executing
live_after s = refl

-- OP_1 OP_DUP, and what the machine has then.
abbrev emitted : List (List ℕ)
emitted = opcode_to_hex (BytOpcode.op_n 1) ∷ opcode_to_hex BytOpcode.dup_ ∷ []

abbrev after : Vm
after = record machine { main_stack = (1 ∷ []) ∷ (1 ∷ []) ∷ (5 ∷ []) ∷ [] }

emitted_run : run_texts env emitted machine ≡ ok after
unfolding run_texts read_text read_bytes hex_to_bytes hex_pairs hex_pair hex_digit cons_byte
    remove_prefix opcode_to_hex byte_to_hex execute_opcode is_currently_executing is_control_flow
    dispatch on_main main_op dup serialize_script_num set_sign low_bytes push_int pop op_not flag
    is_zero to_int
emitted_run = refl

proven : has_proven_stack_depth emitted 2 ≡ true
unfolding has_proven_stack_depth opcode_to_hex byte_to_hex hex_digit
proven = refl

has_proven_stack_depth-Deep_example : 2 ≤ length after.main_stack
has_proven_stack_depth-Deep_example =
    has_proven_stack_depth-Deep env emitted 2 machine after proven emitted_run (live_after _)

-- OP_NOT
abbrev negated : List (List ℕ)
negated = opcode_to_hex BytOpcode.not_ ∷ []

abbrev zeroed : Vm
zeroed = record machine { main_stack = [] ∷ [] }

negated_run : run_texts env negated machine ≡ ok zeroed
unfolding run_texts read_text read_bytes hex_to_bytes hex_pairs hex_pair hex_digit cons_byte
    remove_prefix opcode_to_hex byte_to_hex execute_opcode is_currently_executing is_control_flow
    dispatch on_main main_op dup serialize_script_num set_sign low_bytes push_int pop op_not flag
    is_zero to_int
negated_run = refl

negated_bool : after_bool negated ≡ true
unfolding after_bool opcode_to_hex byte_to_hex hex_digit
negated_bool = refl

after_bool-BoolTop_example : BoolTop env zeroed.main_stack
after_bool-BoolTop_example =
    after_bool-BoolTop env negated machine zeroed negated_bool negated_run (live_after _)

is_op_dup : is_op (b'7' ∷ b'6' ∷ []) BytOpcode.dup_ ≡ true
unfolding is_op hex_digit
is_op_dup = refl

is_op-read_example : read_text (b'7' ∷ b'6' ∷ []) ≡ some (Instruction.opcode BytOpcode.dup_)
is_op-read_example = is_op-read (b'7' ∷ b'6' ∷ []) BytOpcode.dup_ is_op_dup tt

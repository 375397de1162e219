-- ===== src/Planner/Emission.antt =====
-- numberToScriptHex of src/bytecode/bytecode_helper_fun.h run on the machine of
-- src/debugger/vm/bvm_simulator.cpp.
use atomic_proof_interpreter.Prelude.{
  ℕ, zero, suc, ◌/◌, ◌%◌, ◌≡◌, ◌≤◌, ◌<◌, refl, arith, ◌∙◌, Bool, true, false, some, List, [], ◌∷◌,
  length, All, leb, ◌==◌, ok, Bool-cases, inl, inr,
}
use atomic_proof_interpreter.Prelude.Int.{ℤ, pos, negsuc}
use atomic_proof_interpreter.Script.Hex.{
  IsByte, bytes_to_hex, hex_to_bytes, remove_prefix, byte_to_hex, hex_pairs, hex_pair, hex_digit,
}
use atomic_proof_interpreter.Script.HexText.{remove_prefix-bytes_to_hex}
use atomic_proof_interpreter.Script.Codec.{PushEncodingPolicy}
use atomic_proof_interpreter.Script.Bytes.{
  IsPayload, legacy_bytes, push_bytes-IsByte, encode_push-bytes,
}
use atomic_proof_interpreter.Vm.Number.{
  Element, serialize_script_num, set_sign, low_bytes, is_negative, abs_value,
}
use atomic_proof_interpreter.Vm.NumberText.{low_bytes-IsByte, low_bytes-suc}
use atomic_proof_interpreter.Vm.Stack.{Stack, push, push_int}
use atomic_proof_interpreter.Vm.Ops.{op_push}
use atomic_proof_interpreter.Vm.Machine.{
  BytOpcode, Instruction, Signatures, Vm, all_true, dispatch, on_main, main_op,
}
use atomic_proof_interpreter.Vm.Text.{read_text, read_bytes, run_texts, opcode_to_hex, opcode_value}
use atomic_proof_interpreter.Vm.Opcodes.{read_0x_number}
use atomic_proof_interpreter.Planner.Step.{
  number_to_script_hex, number_digits, encode_push_data, or_invalid,
}
use atomic_proof_interpreter.Planner.Machine.{with_stacks, run_cons, run_nil}
use atomic_proof_interpreter.Planner.Numbers.{read_text-encode_push_data}

set_sign-IsByte : (neg : Bool) (bs : List ℕ) → All IsByte bs → All IsByte (set_sign neg bs)
unfolding set_sign
set_sign-IsByte neg [] h = tt
set_sign-IsByte neg (b ∷ []) h = ground arith
set_sign-IsByte neg (b ∷ c ∷ bs) (hb, h) = (hb, set_sign-IsByte neg (c ∷ bs) h)

length-set_sign :
    (neg : Bool) (b : ℕ) (bs : List ℕ)
    → (1 ≤ length (set_sign neg (b ∷ bs)))
      × (length (set_sign neg (b ∷ bs)) ≤ suc (suc (length bs)))
unfolding set_sign
length-set_sign neg b [] = ground arith
length-set_sign neg b (c ∷ bs) =
    let (lo, hi) = length-set_sign neg c bs in (omega arith, omega arith)

length-low_bytes : (fuel n : ℕ) → length (low_bytes fuel n) ≤ fuel
unfolding low_bytes
length-low_bytes zero n = omega arith
length-low_bytes (suc fuel) n = ground (arith, length-low_bytes fuel (n / 256))

signed-IsPayload :
    (neg : Bool) (n : ℕ)
    → 0 < n
    → IsPayload (set_sign neg (low_bytes 8 n)) × (1 ≤ length (set_sign neg (low_bytes 8 n)))
signed-IsPayload neg n h =
    let written : low_bytes 8 n ≡ n % 256 ∷ low_bytes 7 (n / 256) =
      low_bytes-suc 7 n ∙ ground arith in
    let (lo, hi) = length-set_sign neg (n % 256) (low_bytes 7 (n / 256)) in
    rw written (
      (
        set_sign-IsByte neg (n % 256 ∷ low_bytes 7 (n / 256))
            (omega arith, low_bytes-IsByte 7 (n / 256)),
        omega (arith, length-low_bytes 7 (n / 256)),
      ),
      lo,
    )

pub serialize_script_num-IsPayload :
    (z : ℤ)
    → 0 < abs_value z
    → IsPayload (serialize_script_num z) × (1 ≤ length (serialize_script_num z))
unfolding serialize_script_num
serialize_script_num-IsPayload z h =
    let test : (abs_value z == 0) ≡ false = ground arith in
    rw test (signed-IsPayload (is_negative z) (abs_value z) h)

read_0x :
    (bs : List ℕ)
    → All IsByte bs
    → read_text (b'0' ∷ b'x' ∷ bytes_to_hex bs) ≡ read_text (bytes_to_hex bs)
unfolding read_text hex_to_bytes
read_0x bs h = rw (remove_prefix-bytes_to_hex bs h, remove_prefix) refl

read_pushed :
    (z : ℤ)
    → 0 < abs_value z
    → read_text (b'0' ∷ b'x' ∷ encode_push_data (serialize_script_num z))
      ≡ some (Instruction.push_data (serialize_script_num z))
read_pushed z h =
    let (payload, some_bytes) = serialize_script_num-IsPayload z h in
    let written : encode_push_data (serialize_script_num z)
        ≡ bytes_to_hex (legacy_bytes (serialize_script_num z)) =
      unfold encode_push_data or_invalid in
      rw ((encode_push-bytes (serialize_script_num z) PushEncodingPolicy.legacy).0 payload) refl in
    rw
      (
        written,
        read_0x (legacy_bytes (serialize_script_num z))
            (push_bytes-IsByte PushEncodingPolicy.legacy (serialize_script_num z) payload),
        ← written,
      )
      (read_text-encode_push_data (serialize_script_num z) payload some_bytes)

-- The two numbers with an opcode of their own.
read_constants :
    (read_text (b'0' ∷ b'x' ∷ opcode_to_hex BytOpcode.op_0)
      ≡ some (Instruction.opcode BytOpcode.op_0))
    × (read_text (b'0' ∷ b'x' ∷ opcode_to_hex BytOpcode.op_1negate)
        ≡ some (Instruction.opcode BytOpcode.op_1negate))
unfolding read_text opcode_to_hex opcode_value byte_to_hex read_bytes hex_to_bytes hex_pairs
    hex_pair hex_digit
read_constants = (refl, refl)

module _ (env : Signatures) (vm : Vm) (live : all_true vm.condition_stack ≡ true) where
  run_read :
      (text : List ℕ) (i : Instruction) (e : Element) (main alt : Stack)
      → read_text text ≡ some i
      → dispatch env i (with_stacks vm main alt) ≡ ok (with_stacks vm (e ∷ main) alt)
      → run_texts env (text ∷ []) (with_stacks vm main alt) ≡ ok (with_stacks vm (e ∷ main) alt)
  run_read text i e main alt r d =
      run_cons env vm live text [] i main alt (e ∷ main) alt r d
      ∙ run_nil env vm live (e ∷ main) alt

  dispatch_push :
      (main alt : Stack) (payload : List ℕ)
      → 1 ≤ length payload
      → dispatch env (Instruction.push_data payload) (with_stacks vm main alt)
        ≡ ok (with_stacks vm (payload ∷ main) alt)
  unfolding dispatch on_main op_push push
  dispatch_push main alt [] h = absurd (omega arith)
  dispatch_push main alt (b ∷ payload) h = refl

  run_pushed :
      (z : ℤ) (main alt : Stack)
      → 0 < abs_value z
      → run_texts env
          ((b'0' ∷ b'x' ∷ encode_push_data (serialize_script_num z)) ∷ [])
          (with_stacks vm main alt)
        ≡ ok (with_stacks vm (serialize_script_num z ∷ main) alt)
  run_pushed z main alt h =
      run_read _ (Instruction.push_data (serialize_script_num z)) (serialize_script_num z) main alt
        (read_pushed z h)
        (dispatch_push main alt (serialize_script_num z) (serialize_script_num-IsPayload z h).1)

  -- On a machine that is executing, the text that numberToScriptHex writes for an integer runs to the
  -- end and pushes what serializeScriptNum writes for that integer.
  pub run_texts-number_to_script_hex :
      (z : ℤ) (main alt : Stack)
      → run_texts env (number_to_script_hex z ∷ []) (with_stacks vm main alt)
        ≡ ok (with_stacks vm (serialize_script_num z ∷ main) alt)
  unfolding number_to_script_hex number_digits dispatch on_main main_op push_int
  run_texts-number_to_script_hex (pos zero) main alt =
      run_read _ (Instruction.opcode BytOpcode.op_0) (serialize_script_num (pos 0)) main alt
        read_constants.0 refl
  run_texts-number_to_script_hex (pos (suc n)) main alt = elim (Bool-cases (leb (suc n) 16)) [
    | inl h ↦ rw h (
        run_read _ (Instruction.opcode (BytOpcode.op_n (suc n)))
          (serialize_script_num (pos (suc n))) main alt
          (read_0x_number (suc n) (omega arith) (ground arith)) refl)
    | inr h ↦ rw h (run_pushed (pos (suc n)) main alt (unfold abs_value in omega arith))
  ]
  run_texts-number_to_script_hex (negsuc zero) main alt =
      run_read _ (Instruction.opcode BytOpcode.op_1negate) (serialize_script_num (negsuc 0)) main
        alt read_constants.1 refl
  run_texts-number_to_script_hex (negsuc (suc n)) main alt =
      run_pushed (negsuc (suc n)) main alt (unfold abs_value in omega arith)

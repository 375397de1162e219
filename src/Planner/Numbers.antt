-- ===== src/Planner/Numbers.antt =====
-- numberToScriptHex and encodePushData of src/bytecode/bytecode_helper_fun.h on the machine of
-- src/debugger/vm/bvm_simulator.cpp: what is emitted pushes what it stands for.
use atomic_proof_interpreter.Prelude.{
  ℕ, ◌+◌, ◌*◌, ◌/◌, ◌%◌, ◌^◌, ◌≡◌, ◌≤◌, ◌<◌, refl, arith, ap, some, List, [], ◌∷◌, ◌++◌, length,
  take, All, ltb, leb, ok, Bool-cases, inl, inr,
}
use atomic_proof_interpreter.Script.Hex.{IsByte, bytes_to_hex, hex_to_bytes}
use atomic_proof_interpreter.Script.HexText.{hex_to_bytes-bytes_to_hex}
use atomic_proof_interpreter.Script.Codec.{PushEncodingPolicy}
use atomic_proof_interpreter.Script.Bytes.{
  prefix_bytes, legacy_bytes, IsPayload, encode_push-bytes, push_bytes-IsByte,
}
use atomic_proof_interpreter.Script.Decoder.{decode_instruction, read_operand}
use atomic_proof_interpreter.Vm.Machine.{Instruction}
use atomic_proof_interpreter.Vm.Text.{read_text, read_bytes, whole, to_instruction}
use atomic_proof_interpreter.Planner.Step.{encode_push_data, or_invalid}

-- The bytes that are read as exactly one push of the payload.
abbrev Pushes : List ℕ → List ℕ → Type 0
Pushes bytes payload =
    whole (length bytes) (decode_instruction bytes) ≡ some (Instruction.push_data payload)

direct_operand :
    (n : ℕ) (tail : List ℕ) → 1 ≤ n → n < 76 → length tail ≡ n → Pushes (n ∷ tail) (take n tail)
unfolding decode_instruction read_operand whole to_instruction
direct_operand n tail lo hi e = ground arith

one_byte_operand :
    (n : ℕ) (tail : List ℕ) → length tail ≡ n → Pushes (0x4c ∷ n ∷ tail) (take n tail)
unfolding decode_instruction read_operand whole to_instruction
one_byte_operand n tail e = ground arith

two_byte_operand :
    (n : ℕ) (tail : List ℕ)
    → length tail ≡ n
    → Pushes (0x4d ∷ n % 256 ∷ n / 256 ∷ tail) (take n tail)
unfolding decode_instruction read_operand whole to_instruction
two_byte_operand n tail e =
    let m : n % 256 + n / 256 * 2 ^ 8 ≡ n = omega arith in rw (m, e) (ground arith)

four_byte_operand :
    (n : ℕ) (tail : List ℕ)
    → n < 2 ^ 32
    → length tail ≡ n
    → Pushes (0x4e ∷ n % 256 ∷ n / 256 % 256 ∷ n / 65536 % 256 ∷ n / 16777216 ∷ tail) (take n tail)
unfolding decode_instruction read_operand whole to_instruction
four_byte_operand n tail h e =
    let m : n % 256 + n / 256 % 256 * 2 ^ 8 + n / 65536 % 256 * 2 ^ 16 + n / 16777216 * 2 ^ 24 ≡ n =
      omega arith in
    rw (m, e) (ground arith)

legacy_operand :
    (n : ℕ) (tail : List ℕ)
    → 1 ≤ n
    → n < 2 ^ 32
    → length tail ≡ n
    → Pushes (prefix_bytes n ++ tail) (take n tail)
legacy_operand n tail lo hi e = elim (Bool-cases (ltb n 76)) [
  | inl a ↦ rw a (direct_operand n tail lo (ground arith) e)
  | inr a ↦ elim (Bool-cases (leb n 255)) [
    | inl b ↦ rw (a, b) (one_byte_operand n tail e)
    | inr b ↦ elim (Bool-cases (leb n 65535)) [
      | inl c ↦ rw (a, b, c) (two_byte_operand n tail e)
      | inr c ↦ rw (a, b, c) (four_byte_operand n tail hi e)
    ]
  ]
]

take_all : (xs : List ℕ) → take (length xs) xs ≡ xs
take_all [] = refl
take_all (x ∷ xs) = ap (λ (l : List ℕ). x ∷ l) (take_all xs)

nonempty_text :
    (bs : List ℕ) → All IsByte bs → 1 ≤ length bs → hex_to_bytes (bytes_to_hex bs) ≡ ok bs
nonempty_text [] h k = absurd (omega arith)
nonempty_text (b ∷ bs) h k = hex_to_bytes-bytes_to_hex b bs h

prefix_nonempty : (n : ℕ) (tail : List ℕ) → 1 ≤ length (prefix_bytes n ++ tail)
prefix_nonempty n tail = ground arith

-- The text of a payload that is not empty is read as the push of that payload.
pub read_text-encode_push_data :
    (payload : List ℕ)
    → IsPayload payload
    → 1 ≤ length payload
    → read_text (encode_push_data payload) ≡ some (Instruction.push_data payload)
unfolding read_text read_bytes encode_push_data or_invalid
read_text-encode_push_data payload h k =
    let text : hex_to_bytes (bytes_to_hex (legacy_bytes payload)) ≡ ok (legacy_bytes payload) =
      nonempty_text (legacy_bytes payload) (push_bytes-IsByte PushEncodingPolicy.legacy payload h)
        (prefix_nonempty (length payload) payload) in
    rw
      (
        (encode_push-bytes payload PushEncodingPolicy.legacy).0 h,
        or_invalid,
        text,
        legacy_operand (length payload) payload k h.1 refl,
        take_all,
      )
      refl

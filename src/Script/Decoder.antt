-- ===== src/Script/Decoder.antt =====
-- decode_instruction of src/bytecode/script_decoder.cpp.
use atomic_proof_interpreter.Prelude.{
  ℕ, ◌+◌, ◌*◌, ◌^◌, Option, none, some, List, [], ◌∷◌, length, take, drop, ltb, ◌==◌, if◌then◌else◌,
}
use atomic_proof_interpreter.Script.Codec.{byte_at}

pub record RawInstruction : Type 0 where
  pub opcode : ℕ
  pub operand : List ℕ
  pub bytes_consumed : ℕ

abbrev raw : ℕ → List ℕ → ℕ → RawInstruction
raw opcode operand consumed = record {
  opcode = opcode;
  operand = operand;
  bytes_consumed = consumed;
}

-- `none` is a result that is not valid.
unfoldable pub read_operand : List ℕ → ℕ → ℕ → Option RawInstruction
read_operand bytes length_bytes data_length =
    if ltb (length bytes) (1 + length_bytes + data_length)
    then none
    else some (
        raw (byte_at bytes 0) (take data_length (drop (1 + length_bytes) bytes))
          (1 + length_bytes + data_length))

unfoldable pub decode_instruction : List ℕ → Option RawInstruction
unfolding read_operand
decode_instruction [] = none
decode_instruction (opcode ∷ rest) =
    let bytes = opcode ∷ rest in
    if ltb opcode 0x4c
    then read_operand bytes 0 opcode
    else if opcode == 0x4c
    then (if ltb (length bytes) 2 then none else read_operand bytes 1 (byte_at bytes 1))
    else if opcode == 0x4d
    then (if ltb (length bytes) 3
        then none
        else read_operand bytes 2 (byte_at bytes 1 + byte_at bytes 2 * 2 ^ 8))
    else if opcode == 0x4e
    then (if ltb (length bytes) 5
        then none
        else read_operand bytes 4 (
            byte_at bytes 1
            + byte_at bytes 2 * 2 ^ 8
            + byte_at bytes 3 * 2 ^ 16
            + byte_at bytes 4 * 2 ^ 24))
    else some (raw opcode [] 1)

-- ===== src/Vm/Opcodes.antt =====
-- Each opcode's text is read back as that opcode.
use atomic_proof_interpreter.Prelude.{ℕ, ◌+◌, ◌≡◌, ◌<◌, ◌≤◌, refl, arith, some, [], ◌∷◌, ok}
use mathlib.Core.List.{append-nil}
use atomic_proof_interpreter.Script.Hex.{
  hex_to_bytes, byte_to_hex, bytes_to_hex, remove_prefix, hex_pairs, hex_digit, hex_pair,
}
use atomic_proof_interpreter.Script.HexText.{hex_to_bytes-bytes_to_hex, remove_prefix-bytes_to_hex}
use atomic_proof_interpreter.Vm.Machine.{BytOpcode, Instruction}
use atomic_proof_interpreter.Vm.Text.{opcode_value, opcode_to_hex, read_text, read_bytes}

-- OP_n exists for n from 1 to 16.
abbrev pub IsOpcode : BytOpcode → Type 0
IsOpcode (BytOpcode.op_n n) = (1 ≤ n) × (n ≤ 16)
IsOpcode _ = Unit

byte_text : (b : ℕ) → b < 256 → hex_to_bytes (byte_to_hex b) ≡ ok (b ∷ [])
unfolding bytes_to_hex
byte_text b h = rw append-nil at (hex_to_bytes-bytes_to_hex b [] (omega arith))

pub one_number :
    (n : ℕ)
    → 1 ≤ n
    → n ≤ 16
    → read_bytes (ok ((0x50 + n) ∷ [])) ≡ some (Instruction.opcode (BytOpcode.op_n n))
unfolding read_bytes
one_number n lo hi = ground arith

pub read_number_byte :
    (n : ℕ)
    → 1 ≤ n
    → n ≤ 16
    → read_text (byte_to_hex (0x50 + n)) ≡ some (Instruction.opcode (BytOpcode.op_n n))
unfolding read_text
read_number_byte n lo hi = rw (byte_text (0x50 + n) (omega arith)) (one_number n lo hi)

-- The text that opcodeToHex writes for an opcode is decoded to that opcode, for every opcode.
pub read_text-opcode_to_hex :
    (op : BytOpcode) → IsOpcode op → read_text (opcode_to_hex op) ≡ some (Instruction.opcode op)
unfolding read_text read_bytes hex_to_bytes opcode_to_hex byte_to_hex hex_pairs hex_digit hex_pair
    opcode_value
read_text-opcode_to_hex (BytOpcode.op_n n) (lo, hi) = read_number_byte n lo hi
read_text-opcode_to_hex _ h = refl

-- A leading "0x" changes nothing.
hex_to_bytes-0x :
    (b : ℕ) → b < 256 → hex_to_bytes (b'0' ∷ b'x' ∷ byte_to_hex b) ≡ hex_to_bytes (byte_to_hex b)
unfolding hex_to_bytes bytes_to_hex
hex_to_bytes-0x b h =
    let same : remove_prefix (byte_to_hex b) ≡ byte_to_hex b =
      rw append-nil at (remove_prefix-bytes_to_hex (b ∷ []) (omega arith)) in
    rw same

pub read_0x_number :
    (n : ℕ)
    → 1 ≤ n
    → n ≤ 16
    → read_text (b'0' ∷ b'x' ∷ byte_to_hex (0x50 + n))
      ≡ some (Instruction.opcode (BytOpcode.op_n n))
unfolding read_text
read_0x_number n lo hi =
    rw (hex_to_bytes-0x (0x50 + n) (omega arith), byte_text (0x50 + n) (omega arith))
      (one_number n lo hi)

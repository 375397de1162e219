-- ===== src/Peephole/Reads.antt =====
-- Which instruction the machine reads where isSingleOp of src/bytecode_peephole_pass.h accepts a text.
use atomic_proof_interpreter.Prelude.{
  ℕ, ◌≡◌, ◌<◌, arith, ap, sym, ◌∙◌, true, some, List, [], ◌∷◌, ok,
}
use mathlib.Core.List.{append-nil}
use atomic_proof_interpreter.Script.Hex.{hex_to_bytes, bytes_to_hex}
use atomic_proof_interpreter.Script.HexText.{hex_to_bytes-bytes_to_hex}
use atomic_proof_interpreter.Vm.Machine.{BytOpcode, Instruction}
use atomic_proof_interpreter.Vm.Text.{opcode_value, opcode_to_hex, read_text, read_bytes}
use atomic_proof_interpreter.Vm.Opcodes.{IsOpcode, read_text-opcode_to_hex}
use atomic_proof_interpreter.Peephole.Text.{is_op}
use atomic_proof_interpreter.Peephole.Hex.{is_single_op-decoded}

opcode_below : (op : BytOpcode) → IsOpcode op → opcode_value op < 256
unfolding opcode_value
opcode_below (BytOpcode.op_n n) (lo, hi) = omega arith
opcode_below _ h = omega arith

opcode_bytes :
    (op : BytOpcode) → IsOpcode op → hex_to_bytes (opcode_to_hex op) ≡ ok (opcode_value op ∷ [])
unfolding opcode_to_hex bytes_to_hex
opcode_bytes op h =
    rw append-nil at (hex_to_bytes-bytes_to_hex (opcode_value op) [] (opcode_below op h, tt))

-- A text that the pass takes for an opcode is read by the machine as that opcode, if that is one
-- of the enumeration.
pub is_op-read :
    (s : List ℕ) (op : BytOpcode)
    → is_op s op ≡ true
    → IsOpcode op
    → read_text s ≡ some (Instruction.opcode op)
unfolding is_op read_text
is_op-read s op h k =
    ap read_bytes (is_single_op-decoded s (opcode_value op) h)
    ∙ ap read_bytes (sym (opcode_bytes op k))
    ∙ read_text-opcode_to_hex op k

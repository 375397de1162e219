-- ===== src/Peephole/Text.antt =====
-- What src/bytecode_peephole_pass.h reads off one instruction's text: isPureHex to isInert.
use atomic_proof_interpreter.Prelude.{
  ℕ, ◌+◌, ◌*◌, ◌%◌, Bool, true, false, not, ◌&&◌, ◌||◌, Option, none, some, List, [], ◌∷◌, length,
  get_or, ltb, leb, ◌==◌, if◌then◌else◌,
}
use atomic_proof_interpreter.Script.Hex.{hex_digit}
use atomic_proof_interpreter.Vm.Machine.{BytOpcode}
use atomic_proof_interpreter.Vm.Text.{opcode_value}

unfoldable pub is_hex_char : ℕ → Bool
is_hex_char c =
    (leb b'0' c && leb c b'9') || ((leb b'a' c && leb c b'f') || (leb b'A' c && leb c b'F'))

unfoldable pub all_hex : List ℕ → Bool
unfolding is_hex_char
all_hex [] = true
all_hex (c ∷ s) = is_hex_char c && all_hex s

unfoldable pub is_pure_hex : List ℕ → Bool
unfolding all_hex
is_pure_hex s = not (length s == 0) && (length s % 2 == 0 && all_hex s)

-- std::stoi of base 16 on one character of two; only hexadecimal digits are passed.
unfoldable pub digit_value : Option ℕ → ℕ
digit_value none = 0
digit_value (some n) = n

unfoldable pub hex_byte_at : List ℕ → ℕ → ℕ
unfolding digit_value
hex_byte_at encoding byte_index =
    digit_value (hex_digit (get_or encoding (2 * byte_index) 0)) * 16
    + digit_value (hex_digit (get_or encoding (2 * byte_index + 1) 0))

-- `none` is -1.
unfoldable pub first_byte : List ℕ → Option ℕ
unfolding is_pure_hex hex_byte_at
first_byte s = if not (is_pure_hex s) || ltb (length s) 2 then none else some (hex_byte_at s 0)

unfoldable pub is_byte : Option ℕ → ℕ → Bool
is_byte none op = false
is_byte (some b) op = b == op

unfoldable pub is_single_op : List ℕ → ℕ → Bool
unfolding first_byte is_byte
is_single_op s op = length s == 2 && is_byte (first_byte s) op

unfoldable pub is_op : List ℕ → BytOpcode → Bool
unfolding is_single_op opcode_value
is_op s op = is_single_op s (opcode_value op)

unfoldable pub is_any_op : List ℕ → List BytOpcode → Bool
unfolding is_op
is_any_op s [] = false
is_any_op s (op ∷ ops) = is_op s op || is_any_op s ops

-- The opcodes whose result is 0 or 1.
abbrev pub canonical_bool_producers : List BytOpcode
canonical_bool_producers =
    BytOpcode.op_0
    ∷ BytOpcode.op_n 1
    ∷ BytOpcode.not_
    ∷ BytOpcode.zero_not_equal
    ∷ BytOpcode.equal
    ∷ BytOpcode.num_equal
    ∷ BytOpcode.num_not_equal
    ∷ BytOpcode.less_than
    ∷ BytOpcode.greater_than
    ∷ BytOpcode.less_than_or_equal
    ∷ BytOpcode.greater_than_or_equal
    ∷ BytOpcode.bool_and
    ∷ BytOpcode.bool_or
    ∷ BytOpcode.within
    ∷ BytOpcode.check_sig
    ∷ BytOpcode.check_multisig
    ∷ []

unfoldable pub produces_canonical_bool : List ℕ → Bool
unfolding is_any_op
produces_canonical_bool s = is_any_op s canonical_bool_producers

-- OP_IF, OP_NOTIF, OP_ELSE, OP_ENDIF, OP_VERIFY, OP_RETURN and OP_CODESEPARATOR, by the first byte.
unfoldable pub is_barrier_byte : ℕ → Bool
is_barrier_byte b =
    b == 0x63
    || (b == 0x64 || (b == 0x67 || (b == 0x68 || (b == 0x69 || (b == 0x6a || b == 0xab)))))

unfoldable pub is_barrier : Option ℕ → Bool
unfolding is_barrier_byte
is_barrier none = false
is_barrier (some b) = is_barrier_byte b

unfoldable pub is_control_flow : List ℕ → Bool
unfolding first_byte is_barrier
is_control_flow s = is_barrier (first_byte s)

-- A comment starts with '#', which is no hexadecimal digit.
unfoldable pub is_inert : List ℕ → Bool
unfolding is_pure_hex
is_inert [] = true
is_inert (c ∷ s) = c == b'#' || not (is_pure_hex (c ∷ s))

-- ===== src/Script/Hex.antt =====
-- The hexadecimal text of script_codec.h. A std::string is the list of its character codes, a
-- std::vector<uint8_t> the list of its bytes.
use atomic_proof_interpreter.Prelude.{
  ℕ, ◌+◌, ◌-◌, ◌*◌, ◌/◌, ◌%◌, ◌<◌, not, ◌&&◌, ◌||◌, Option, none, some, List, [], ◌∷◌, ◌++◌, length,
  get_or, leb, ◌==◌, if◌then◌else◌, Result, ok, err,
}

abbrev pub IsByte : ℕ → Type 0
IsByte b = b < 256

pub data ScriptCodecError : Type 0 where
  empty_input invalid_hex odd_hex_length not_push truncated_length : ScriptCodecError
  truncated_payload trailing_bytes non_minimal_push payload_too_large : ScriptCodecError

-- "0123456789abcdef"
abbrev pub digits : List ℕ
digits =
    b'0' ∷ b'1' ∷ b'2' ∷ b'3' ∷ b'4' ∷ b'5' ∷ b'6' ∷ b'7' ∷ b'8' ∷ b'9' ∷ b'a' ∷ b'b' ∷ b'c' ∷ b'd'
    ∷ b'e' ∷ b'f' ∷ []

unfoldable pub byte_to_hex : ℕ → List ℕ
byte_to_hex byte = get_or digits (byte / 16) 0 ∷ get_or digits (byte % 16) 0 ∷ []

unfoldable pub bytes_to_hex : List ℕ → List ℕ
bytes_to_hex [] = []
bytes_to_hex (byte ∷ bytes) = byte_to_hex byte ++ bytes_to_hex bytes

-- `none` is the source's -1.
unfoldable pub hex_digit : ℕ → Option ℕ
hex_digit c =
    if leb b'0' c && leb c b'9'
    then some (c - b'0')
    else if leb b'a' c && leb c b'f'
    then some (10 + c - b'a')
    else if leb b'A' c && leb c b'F'
    then some (10 + c - b'A')
    else none

-- `(high << 4) | low`, where low has four bits.
unfoldable pub hex_pair : Option ℕ → Option ℕ → Option ℕ
hex_pair (some high) (some low) = some (high * 16 + low)
hex_pair _ _ = none

unfoldable pub cons_byte :
    Option ℕ → Result ScriptCodecError (List ℕ) → Result ScriptCodecError (List ℕ)
cons_byte none rest = err ScriptCodecError.invalid_hex
cons_byte (some b) (ok bs) = ok (b ∷ bs)
cons_byte (some b) (err e) = err e

-- The loop over the pairs of digits; the text has even length.
unfoldable pub hex_pairs : List ℕ → Result ScriptCodecError (List ℕ)
unfolding cons_byte
hex_pairs [] = ok []
hex_pairs (c ∷ []) = err ScriptCodecError.odd_hex_length
hex_pairs (c ∷ d ∷ text) = cons_byte (hex_pair (hex_digit c) (hex_digit d)) (hex_pairs text)

-- A leading "0x" or "0X" is dropped.
unfoldable pub remove_prefix : List ℕ → List ℕ
remove_prefix (c ∷ d ∷ text) = if c == b'0' && (d == b'x' || d == b'X') then text else c ∷ d ∷ text
remove_prefix text = text

unfoldable pub hex_to_bytes : List ℕ → Result ScriptCodecError (List ℕ)
unfolding remove_prefix
hex_to_bytes hex =
    let text = remove_prefix hex in
    if length text == 0
    then err ScriptCodecError.empty_input
    else if not (length text % 2 == 0)
    then err ScriptCodecError.odd_hex_length
    else hex_pairs text

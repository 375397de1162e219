-- ===== src/Peephole/Push.antt =====
-- Constant pushes in src/bytecode_peephole_pass.h: wellFormedPushSize to isProfitableDuplicatePush.
use atomic_proof_interpreter.Prelude.{
  ℕ, ◌+◌, ◌-◌, ◌*◌, ◌/◌, ◌%◌, ◌^◌, Bool, true, false, not, ◌&&◌, ◌||◌, Option, none, some, List, [],
  ◌∷◌, length, get_or, take, drop, map, ltb, leb, ◌==◌, if◌then◌else◌, Result, ok, err,
}
use atomic_proof_interpreter.Script.Hex.{digits, ScriptCodecError}
use atomic_proof_interpreter.Script.Codec.{
  PushEncodingPolicy, DecodedPush, decode_push_hex, serialized_push_size, eq_text,
}
use atomic_proof_interpreter.Peephole.Text.{is_pure_hex, hex_byte_at}

-- Placeholder labels without angle brackets, with the length of their payload.
pub record LocalRewriteOptions : Type 0 where
  pub known_data_placeholders : List (List ℕ × ℕ)
  pub push_encoding_policy : PushEncodingPolicy

unfoldable pub when : Bool → ℕ → Option ℕ
when b n = if b then some n else none

-- The opcodes that push a number by themselves.
unfoldable pub is_small : ℕ → Bool
is_small opcode = opcode == 0x00 || (opcode == 0x4f || (leb 0x51 opcode && leb opcode 0x60))

-- The number of prefix bytes and of payload bytes of an OP_PUSHDATA.
unfoldable pub pushdata_header : ℕ → ℕ → List ℕ → Option (ℕ × ℕ)
unfolding hex_byte_at
pushdata_header opcode bytes encoding =
    let b1 = hex_byte_at encoding 1 in
    let b2 = hex_byte_at encoding 2 in
    let b3 = hex_byte_at encoding 3 in
    let b4 = hex_byte_at encoding 4 in
    if opcode == 0x4c
    then (if ltb bytes 2 then none else some (2, b1))
    else if opcode == 0x4d
    then (if ltb bytes 3 then none else some (3, b1 + b2 * 2 ^ 8))
    else if opcode == 0x4e
    then (if ltb bytes 5 then none else some (5, b1 + b2 * 2 ^ 8 + b3 * 2 ^ 16 + b4 * 2 ^ 24))
    else none

unfoldable pub fits_header : ℕ → Option (ℕ × ℕ) → Option ℕ
unfolding when
fits_header bytes none = none
fits_header bytes (some (prefix_bytes, payload_bytes)) =
    when (payload_bytes == bytes - prefix_bytes) bytes

unfoldable pub well_formed_size : ℕ → ℕ → List ℕ → Option ℕ
unfolding when is_small pushdata_header fits_header
well_formed_size opcode bytes encoding =
    if is_small opcode
    then when (bytes == 1) 1
    else if leb 0x01 opcode && leb opcode 0x4b
    then when (bytes == opcode + 1) bytes
    else fits_header bytes (pushdata_header opcode bytes encoding)

unfoldable pub well_formed_push_size : List ℕ → Option ℕ
unfolding well_formed_size is_pure_hex hex_byte_at
well_formed_push_size encoding =
    if is_pure_hex encoding
    then well_formed_size (hex_byte_at encoding 0) (length encoding / 2) encoding
    else none

unfoldable pub is_well_formed : Option ℕ → Bool
is_well_formed none = false
is_well_formed (some n) = true

-- std::tolower.
unfoldable pub to_lower : ℕ → ℕ
to_lower c = if leb b'A' c && leb c b'Z' then c + 32 else c

unfoldable pub payload_of : ℕ → List ℕ → List ℕ
unfolding to_lower
payload_of opcode encoding =
    if opcode == 0x00
    then []
    else if opcode == 0x4f
    then b'8' ∷ b'1' ∷ []
    else if leb 0x51 opcode && leb opcode 0x60
    then get_or digits ((opcode - 0x50) / 16) 0 ∷ get_or digits ((opcode - 0x50) % 16) 0 ∷ []
    else map to_lower (
        drop
          (2
            * (if opcode == 0x4c
                then 2
                else if opcode == 0x4d
                then 3
                else if opcode == 0x4e
                then 5
                else 1))
          encoding)

unfoldable pub decoded_push_payload : List ℕ → Option (List ℕ)
unfolding well_formed_push_size is_well_formed payload_of
decoded_push_payload encoding =
    if is_well_formed (well_formed_push_size encoding)
    then some (payload_of (hex_byte_at encoding 0) encoding)
    else none

unfoldable find_label : List ℕ → List (List ℕ × ℕ) → Option ℕ
unfolding eq_text
find_label label [] = none
find_label label ((l, n) ∷ known) = if eq_text l label then some n else find_label label known

-- Whether the character stands in a text.
unfoldable occurs : ℕ → List ℕ → Bool
occurs c [] = false
occurs c (d ∷ s) = d == c || occurs c s

-- The text between '<' and the last character '>', where neither occurs.
unfoldable pub label_of : List ℕ → Option (List ℕ)
unfolding occurs
label_of [] = none
label_of (c ∷ s) =
    let label = take (length s - 1) s in
    if ltb (length s) 2
    then none
    else if not (c == b'<') || not (get_or s (length s - 1) 0 == b'>')
    then none
    else if occurs b'<' s || occurs b'>' label
    then none
    else some label

unfoldable pub known_payload : Option (List ℕ) → LocalRewriteOptions → Option ℕ
unfolding find_label
known_payload none options = none
known_payload (some label) options = find_label label options.known_data_placeholders

unfoldable pub placeholder_size : Option ℕ → Option ℕ
placeholder_size none = none
placeholder_size (some payload) =
    if ltb 0xffff_ffff payload
    then none
    else some (
        payload
        + (if leb payload 75
            then 1
            else if leb payload 255
            then 2
            else if leb payload 65535
            then 3
            else 5))

unfoldable pub known_placeholder_push_size : List ℕ → LocalRewriteOptions → Option ℕ
unfolding label_of known_payload placeholder_size
known_placeholder_push_size encoding options =
    placeholder_size (known_payload (label_of encoding) options)

unfoldable pub exceeds_one : Option ℕ → Bool
exceeds_one none = false
exceeds_one (some n) = ltb 1 n

-- The second push of a pair of equal texts, by what the first one decodes to.
unfoldable pub is_profitable :
    Result ScriptCodecError DecodedPush → List ℕ → LocalRewriteOptions → Bool
unfolding exceeds_one known_placeholder_push_size
is_profitable (ok d) first options =
    exceeds_one (serialized_push_size d.payload options.push_encoding_policy)
is_profitable (err e) first options = elim (known_placeholder_push_size first options) [
  | none ↦ false
  | some size ↦ elim options.push_encoding_policy [
    | PushEncodingPolicy.legacy ↦ ltb 1 size
    | PushEncodingPolicy.canonical ↦ exceeds_one (known_payload (label_of first) options)
  ]
]

unfoldable pub is_profitable_duplicate_push : List ℕ → List ℕ → LocalRewriteOptions → Bool
unfolding is_profitable
is_profitable_duplicate_push first second options =
    eq_text first second && is_profitable (decode_push_hex first false) first options

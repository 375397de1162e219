-- ===== src/Script/Codec.antt =====
-- ScriptCodec of src/bytecode/script_codec.h: push encoders and decoders. uint8_t, uint32_t and
-- size_t values are native numbers; `|` of shifted bytes is their sum, as the bits are disjoint.
use atomic_proof_interpreter.Prelude.{
  ℕ, zero, suc, ◌+◌, ◌-◌, ◌*◌, ◌/◌, ◌%◌, ◌^◌, Bool, true, false, not, ◌&&◌, Option, none, some,
  List, [], ◌∷◌, ◌++◌, length, get_or, take, drop, ltb, leb, ◌==◌, if◌then◌else◌, Result, ok, err,
  ◌>>=◌,
}
use atomic_proof_interpreter.Script.Hex.{ScriptCodecError, byte_to_hex, bytes_to_hex, hex_to_bytes}

pub data PushEncodingPolicy : Type 0 where
  legacy canonical : PushEncodingPolicy

pub data PushForm : Type 0 where
  op_0 small_integer direct push_data1 push_data2 push_data4 : PushForm

pub record DecodedPush : Type 0 where
  pub payload : List ℕ
  pub form : PushForm
  pub encoded_size : ℕ

abbrev pub uint32_max : ℕ
uint32_max = 2 ^ 32 - 1

-- Rounds i, i + 1, ... of the loop over the bytes, `rounds` of them.
unfoldable pub little_endian_hex_from : ℕ → ℕ → ℕ → List ℕ
little_endian_hex_from value i zero = []
little_endian_hex_from value i (suc rounds) =
    byte_to_hex (value / 2 ^ (8 * i) % 256) ++ little_endian_hex_from value (i + 1) rounds

unfoldable pub little_endian_hex : ℕ → ℕ → List ℕ
unfolding little_endian_hex_from
little_endian_hex value byte_count = little_endian_hex_from value 0 byte_count

unfoldable pub legacy_push_prefix_hex : ℕ → Option (List ℕ)
legacy_push_prefix_hex size =
    if ltb size 76
    then some (byte_to_hex (size % 256))
    else if leb size 255
    then some (b'4' ∷ b'c' ∷ byte_to_hex (size % 256))
    else if leb size 65535
    then some (b'4' ∷ b'd' ∷ little_endian_hex size 2)
    else if leb size uint32_max
    then some (b'4' ∷ b'e' ∷ little_endian_hex size 4)
    else none

unfoldable pub legacy_serialized_push_size : ℕ → Option ℕ
legacy_serialized_push_size size =
    if ltb uint32_max size
    then none
    else some (
        (if ltb size 76 then 1 else if leb size 255 then 2 else if leb size 65535 then 3 else 5)
        + size)

unfoldable pub append_payload : Option (List ℕ) → List ℕ → Option (List ℕ)
append_payload none payload = none
append_payload (some prefix) payload = some (prefix ++ bytes_to_hex payload)

-- Length prefix and payload, the historical form.
unfoldable pub encode_legacy : List ℕ → Option (List ℕ)
unfolding append_payload
encode_legacy payload = append_payload (legacy_push_prefix_hex (length payload)) payload

-- The canonical policy's own forms; any other payload falls through to the legacy one.
unfoldable pub encode_canonical : List ℕ → Option (List ℕ)
encode_canonical [] = some (b'0' ∷ b'0' ∷ [])
encode_canonical (value ∷ []) =
    if leb 0x01 value && leb value 0x10
    then some (byte_to_hex ((0x50 + value) % 256))
    else if value == 0x81
    then some (b'4' ∷ b'f' ∷ [])
    else encode_legacy (value ∷ [])
encode_canonical payload = encode_legacy payload

unfoldable pub encode_by : PushEncodingPolicy → List ℕ → Option (List ℕ)
encode_by PushEncodingPolicy.canonical payload = encode_canonical payload
encode_by PushEncodingPolicy.legacy payload = encode_legacy payload

unfoldable pub encode_push : List ℕ → PushEncodingPolicy → Option (List ℕ)
unfolding encode_by
encode_push payload policy =
    if ltb uint32_max (length payload) then none else encode_by policy payload

unfoldable pub half_length : Option (List ℕ) → Option ℕ
half_length none = none
half_length (some encoded) = some (length encoded / 2)

unfoldable pub serialized_push_size : List ℕ → PushEncodingPolicy → Option ℕ
unfolding half_length
serialized_push_size payload policy = half_length (encode_push payload policy)

-- What the leading opcode and its length bytes say: the locals of decodePushPrefix.
pub record PushHeader : Type 0 where
  pub form : PushForm
  pub header_size : ℕ
  pub payload_size : ℕ
  pub synthetic_payload : List ℕ

abbrev pub header : PushForm → ℕ → ℕ → List ℕ → PushHeader
header f h n s = record { form = f; header_size = h; payload_size = n; synthetic_payload = s }

-- A header whose length bytes must be present.
unfoldable pub sized : List ℕ → ℕ → PushForm → ℕ → Result ScriptCodecError PushHeader
sized encoding header_size form payload_size =
    if ltb (length encoding) header_size
    then err ScriptCodecError.truncated_length
    else ok (header form header_size payload_size [])

abbrev pub byte_at : List ℕ → ℕ → ℕ
byte_at encoding i = get_or encoding i 0

unfoldable pub read_header : ℕ → List ℕ → Result ScriptCodecError PushHeader
unfolding sized
read_header opcode encoding =
    if opcode == 0x00
    then ok (header PushForm.op_0 1 0 [])
    else if leb 0x01 opcode && leb opcode 0x4b
    then ok (header PushForm.direct 1 opcode [])
    else if opcode == 0x4c
    then sized encoding 2 PushForm.push_data1 (byte_at encoding 1)
    else if opcode == 0x4d
    then sized encoding 3 PushForm.push_data2 (byte_at encoding 1 + byte_at encoding 2 * 2 ^ 8)
    else if opcode == 0x4e
    then sized encoding 5 PushForm.push_data4 (
        byte_at encoding 1
        + byte_at encoding 2 * 2 ^ 8
        + byte_at encoding 3 * 2 ^ 16
        + byte_at encoding 4 * 2 ^ 24)
    else if opcode == 0x4f
    then ok (header PushForm.small_integer 1 0 (0x81 ∷ []))
    else if leb 0x51 opcode && leb opcode 0x60
    then ok (header PushForm.small_integer 1 0 ((opcode - 0x50) ∷ []))
    else err ScriptCodecError.not_push

-- The payload behind the header, or the one that the opcode stands for.
unfoldable pub read_payload : List ℕ → PushHeader → List ℕ → Result ScriptCodecError DecodedPush
read_payload encoding h [] =
    if ltb (length encoding - h.header_size) h.payload_size
    then err ScriptCodecError.truncated_payload
    else ok (record {
      payload = take h.payload_size (drop h.header_size encoding);
      form = h.form;
      encoded_size = h.header_size + h.payload_size;
    })
read_payload encoding h (b ∷ bs) = ok (record { payload = b ∷ bs; form = h.form; encoded_size = 1 })

-- std::string equality.
unfoldable pub eq_text : List ℕ → List ℕ → Bool
eq_text [] [] = true
eq_text (c ∷ s) (d ∷ t) = c == d && eq_text s t
eq_text _ _ = false

unfoldable pub eq_encoding : Option (List ℕ) → List ℕ → Bool
eq_encoding none text = false
eq_encoding (some s) text = eq_text s text

unfoldable pub is_canonical : List ℕ → DecodedPush → Bool
unfolding eq_text eq_encoding
is_canonical encoding d =
    eq_encoding (encode_push d.payload PushEncodingPolicy.canonical)
      (bytes_to_hex (take d.encoded_size encoding))

unfoldable pub require : Bool → List ℕ → DecodedPush → Result ScriptCodecError DecodedPush
require require_canonical encoding d =
    if require_canonical && not (is_canonical encoding d)
    then err ScriptCodecError.non_minimal_push
    else ok d

unfoldable pub decode_push_prefix : List ℕ → Bool → Result ScriptCodecError DecodedPush
decode_push_prefix [] require_canonical = err ScriptCodecError.empty_input
decode_push_prefix (opcode ∷ rest) require_canonical = do
  h ← read_header opcode (opcode ∷ rest)
  d ← read_payload (opcode ∷ rest) h h.synthetic_payload
  require require_canonical (opcode ∷ rest) d

unfoldable pub no_trailing : List ℕ → DecodedPush → Result ScriptCodecError DecodedPush
no_trailing encoding d =
    if d.encoded_size == length encoding then ok d else err ScriptCodecError.trailing_bytes

unfoldable pub decode_push : List ℕ → Bool → Result ScriptCodecError DecodedPush
unfolding no_trailing
decode_push encoding require_canonical = do
  d ← decode_push_prefix encoding require_canonical
  no_trailing encoding d

unfoldable pub decode_push_hex : List ℕ → Bool → Result ScriptCodecError DecodedPush
decode_push_hex text require_canonical = do
  bytes ← hex_to_bytes text
  decode_push bytes require_canonical

-- ===== src/Script/Tests.antt =====
-- Runs of the push codec, and the theorems at concrete inputs.
use atomic_proof_interpreter.Prelude.{
  ℕ, ◌≡◌, ◌≤◌, ◌^◌, ◌/◌, refl, arith, inl, inr, true, false, none, some, List, [], ◌∷◌, length,
  take, ok, err,
}
use atomic_proof_interpreter.Script.Hex.{ScriptCodecError, bytes_to_hex, byte_to_hex}
use atomic_proof_interpreter.Script.Codec.{
  PushEncodingPolicy, PushForm, DecodedPush, encode_push, encode_canonical, decode_push_prefix,
  decode_push_hex, read_header, read_payload, require, is_canonical, eq_encoding, eq_text, sized,
  serialized_push_size, legacy_serialized_push_size,
}
use atomic_proof_interpreter.Script.Bytes.{push_bytes, IsPayload, encode_push-bytes}
use atomic_proof_interpreter.Script.RoundTrip.{
  decoded, decode_push_prefix-push_bytes, decode_push_hex-encode_push,
}
use atomic_proof_interpreter.Script.Minimal.{decode_push_prefix-IsLeast}
use atomic_proof_interpreter.Script.Sizes.{serialized_push_size-bytes}
use atomic_proof_interpreter.Script.Strict.{decode_push_prefix-canonical}

abbrev payload : List ℕ
payload = 0xde ∷ 0xad ∷ []

payload-IsPayload : IsPayload payload
payload-IsPayload = omega arith

-- The payload 05 behind OP_PUSHDATA1, and what the canonical form of it is.
abbrev wasteful : List ℕ
wasteful = 0x4c ∷ 0x01 ∷ 0x05 ∷ 0xac ∷ []

abbrev wasteful_push : DecodedPush
wasteful_push = decoded (0x05 ∷ []) PushForm.push_data1 3

wasteful_accepted : decode_push_prefix wasteful false ≡ ok wasteful_push
unfolding decode_push_prefix read_header sized read_payload require
wasteful_accepted = refl

wasteful_refused : decode_push_prefix wasteful true ≡ err ScriptCodecError.non_minimal_push
unfolding decode_push_prefix read_header sized read_payload require is_canonical eq_encoding eq_text
    encode_push encode_canonical bytes_to_hex byte_to_hex
wasteful_refused = refl

abbrev small : List ℕ
small = 0x55 ∷ 0xac ∷ []

small_accepted : decode_push_prefix small true ≡ ok (decoded (0x05 ∷ []) PushForm.small_integer 1)
unfolding decode_push_prefix read_header read_payload require is_canonical eq_encoding eq_text
    encode_push encode_canonical bytes_to_hex byte_to_hex
small_accepted = refl

decode_push_prefix-IsLeast_example :
    length (push_bytes PushEncodingPolicy.canonical (0x05 ∷ [])) ≤ 3
decode_push_prefix-IsLeast_example =
    decode_push_prefix-IsLeast wasteful wasteful_push (omega arith) wasteful_accepted

decode_push_prefix-canonical_example :
    take 1 small ≡ push_bytes PushEncodingPolicy.canonical (0x05 ∷ [])
decode_push_prefix-canonical_example =
    decode_push_prefix-canonical small (decoded (0x05 ∷ []) PushForm.small_integer 1) (omega arith)
      small_accepted

decode_push_prefix-push_bytes_example :
    decode_push_prefix (0x02 ∷ 0xde ∷ 0xad ∷ 0xac ∷ []) true
    ≡ ok (decoded payload PushForm.direct 3)
decode_push_prefix-push_bytes_example =
    decode_push_prefix-push_bytes payload (0xac ∷ []) PushEncodingPolicy.canonical true
      payload-IsPayload (inr refl)

decode_push_hex-encode_push_example :
    (text : List ℕ) × (encode_push payload PushEncodingPolicy.legacy ≡ some text)
    × (decode_push_hex text false ≡ ok (decoded payload PushForm.direct (length text / 2)))
decode_push_hex-encode_push_example =
    decode_push_hex-encode_push payload PushEncodingPolicy.legacy false payload-IsPayload (inl refl)

encode_push-bytes_example :
    (IsPayload payload
      → encode_push payload PushEncodingPolicy.canonical
        ≡ some (bytes_to_hex (0x02 ∷ 0xde ∷ 0xad ∷ [])))
    × (2 ^ 32 ≤ 2 → encode_push payload PushEncodingPolicy.canonical ≡ none)
encode_push-bytes_example = encode_push-bytes payload PushEncodingPolicy.canonical

serialized_push_size-bytes_example :
    (serialized_push_size payload PushEncodingPolicy.canonical ≡ some 3)
    × (serialized_push_size payload PushEncodingPolicy.legacy ≡ legacy_serialized_push_size 2)
serialized_push_size-bytes_example =
    serialized_push_size-bytes payload PushEncodingPolicy.canonical payload-IsPayload

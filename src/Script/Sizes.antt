-- ===== src/Script/Sizes.antt =====
-- legacySerializedPushSize and serializedPushSize of src/bytecode/script_codec.h.
use atomic_proof_interpreter.Prelude.{ℕ, ◌≡◌, arith, ap, ◌∙◌, some, List, length, length-append}
use atomic_proof_interpreter.Script.Hex.{bytes_to_hex}
use atomic_proof_interpreter.Script.HexText.{length-bytes_to_hex}
use atomic_proof_interpreter.Script.Codec.{
  PushEncodingPolicy, legacy_serialized_push_size, serialized_push_size, half_length,
}
use atomic_proof_interpreter.Script.Bytes.{IsPayload, push_bytes, prefix_bytes, encode_push-bytes}

half_length-bytes : (bs : List ℕ) → half_length (some (bytes_to_hex bs)) ≡ some (length bs)
unfolding half_length
half_length-bytes bs = ap some (omega (arith, length-bytes_to_hex bs))

-- The size computed for a payload is the number of bytes that the push takes under that policy; under
-- the legacy policy it is also what is computed from the payload's size alone.
pub serialized_push_size-bytes :
    (payload : List ℕ) (policy : PushEncodingPolicy)
    → IsPayload payload
    → (serialized_push_size payload policy ≡ some (length (push_bytes policy payload)))
      × (serialized_push_size payload PushEncodingPolicy.legacy
          ≡ legacy_serialized_push_size (length payload))
unfolding serialized_push_size legacy_serialized_push_size
serialized_push_size-bytes payload policy h = (
  rw ((encode_push-bytes payload policy).0 h) (half_length-bytes (push_bytes policy payload)),
  rw ((encode_push-bytes payload PushEncodingPolicy.legacy).0 h) (
      half_length-bytes (push_bytes PushEncodingPolicy.legacy payload)
      ∙ ground (arith, length-append (prefix_bytes (length payload)) payload, h.1)),
)

-- ===== src/Script/Bytes.antt =====
-- An independent description of the encodings of script_codec.h as byte strings.
use atomic_proof_interpreter.Prelude.{
  ℕ, ◌+◌, ◌/◌, ◌%◌, ◌^◌, ◌≤◌, ◌<◌, ◌≡◌, refl, ◌&&◌, none, some, List, [], ◌∷◌, ◌++◌, length, All,
  All-append, ltb, leb, ◌==◌, if◌then◌else◌, arith,
}
use mathlib.Core.List.{append-nil}
use atomic_proof_interpreter.Script.Hex.{IsByte, byte_to_hex, bytes_to_hex}
use atomic_proof_interpreter.Script.HexText.{bytes_to_hex-append}
use atomic_proof_interpreter.Script.Codec.{
  PushEncodingPolicy, little_endian_hex, legacy_push_prefix_hex, encode_legacy, encode_canonical,
  encode_push,
}

-- The length prefix of a payload of n bytes, n a uint32_t.
abbrev pub prefix_bytes : ℕ → List ℕ
prefix_bytes n =
    if ltb n 76
    then n ∷ []
    else if leb n 255
    then 0x4c ∷ n ∷ []
    else if leb n 65535
    then 0x4d ∷ n % 256 ∷ n / 256 ∷ []
    else 0x4e ∷ n % 256 ∷ n / 256 % 256 ∷ n / 65536 % 256 ∷ n / 16777216 ∷ []

abbrev pub legacy_bytes : List ℕ → List ℕ
legacy_bytes payload = prefix_bytes (length payload) ++ payload

-- OP_1 to OP_16 and OP_1NEGATE stand for the one-byte payloads that they push.
abbrev pub single_bytes : ℕ → List ℕ
single_bytes b =
    if leb 0x01 b && leb b 0x10
    then (0x50 + b) ∷ []
    else if b == 0x81
    then 0x4f ∷ []
    else 0x01 ∷ b ∷ []

abbrev pub push_bytes : PushEncodingPolicy → List ℕ → List ℕ
push_bytes PushEncodingPolicy.legacy payload = legacy_bytes payload
push_bytes PushEncodingPolicy.canonical [] = 0x00 ∷ []
push_bytes PushEncodingPolicy.canonical (b ∷ []) = single_bytes b
push_bytes PushEncodingPolicy.canonical (b ∷ c ∷ bs) = legacy_bytes (b ∷ c ∷ bs)

abbrev pub IsPayload : List ℕ → Type 0
IsPayload payload = All IsByte payload × (length payload < 2 ^ 32)

pub prefix_bytes-IsByte : (n : ℕ) → n < 2 ^ 32 → All IsByte (prefix_bytes n)
prefix_bytes-IsByte n h = ground arith

pub push_bytes-IsByte :
    (policy : PushEncodingPolicy) (payload : List ℕ)
    → IsPayload payload
    → All IsByte (push_bytes policy payload)
push_bytes-IsByte PushEncodingPolicy.legacy payload (b, n) =
    All-append IsByte _ payload (prefix_bytes-IsByte _ n) b
push_bytes-IsByte PushEncodingPolicy.canonical [] (b, n) = omega arith
push_bytes-IsByte PushEncodingPolicy.canonical (c ∷ []) (b, n) = ground arith
push_bytes-IsByte PushEncodingPolicy.canonical (c ∷ d ∷ bs) (b, n) =
    All-append IsByte _ (c ∷ d ∷ bs) (prefix_bytes-IsByte _ n) b

text_4c : byte_to_hex 0x4c ≡ b'4' ∷ b'c' ∷ []
unfolding byte_to_hex
text_4c = refl

text_4d : byte_to_hex 0x4d ≡ b'4' ∷ b'd' ∷ []
unfolding byte_to_hex
text_4d = refl

text_4e : byte_to_hex 0x4e ≡ b'4' ∷ b'e' ∷ []
unfolding byte_to_hex
text_4e = refl

bytes_to_hex_one : (b : ℕ) → bytes_to_hex (b ∷ []) ≡ byte_to_hex b
unfolding bytes_to_hex
bytes_to_hex_one b = append-nil _

legacy_push_prefix_hex-bytes :
    (n : ℕ) → n < 2 ^ 32 → legacy_push_prefix_hex n ≡ some (bytes_to_hex (prefix_bytes n))
unfolding legacy_push_prefix_hex little_endian_hex bytes_to_hex
legacy_push_prefix_hex-bytes n h =
    ground (arith, text_4c, text_4d, text_4e, append-nil (byte_to_hex n))

encode_legacy-bytes :
    (payload : List ℕ)
    → length payload < 2 ^ 32
    → encode_legacy payload ≡ some (bytes_to_hex (legacy_bytes payload))
unfolding encode_legacy
encode_legacy-bytes payload h = rw (legacy_push_prefix_hex-bytes _ h, bytes_to_hex-append)

text_00 : byte_to_hex 0x00 ≡ b'0' ∷ b'0' ∷ []
unfolding byte_to_hex
text_00 = refl

text_4f : byte_to_hex 0x4f ≡ b'4' ∷ b'f' ∷ []
unfolding byte_to_hex
text_4f = refl

encode_canonical-bytes :
    (payload : List ℕ)
    → IsPayload payload
    → encode_canonical payload
      ≡ some (bytes_to_hex (push_bytes PushEncodingPolicy.canonical payload))
unfolding encode_canonical bytes_to_hex
encode_canonical-bytes [] h = ground (arith, text_00)
encode_canonical-bytes (b ∷ []) (h, n) =
    ground (arith, text_4f, encode_legacy-bytes (b ∷ []) n, append-nil (byte_to_hex (0x50 + b)))
encode_canonical-bytes (b ∷ c ∷ bs) (h, n) = encode_legacy-bytes (b ∷ c ∷ bs) n

-- A payload of bytes that a uint32_t can measure is encoded, under either policy, as the text of the
-- bytes that the push rules prescribe; a longer payload is refused under either policy.
pub encode_push-bytes :
    (payload : List ℕ) (policy : PushEncodingPolicy)
    → (IsPayload payload
        → encode_push payload policy ≡ some (bytes_to_hex (push_bytes policy payload)))
      × (2 ^ 32 ≤ length payload → encode_push payload policy ≡ none)
unfolding encode_push
encode_push-bytes payload PushEncodingPolicy.canonical =
    (λ h. ground (arith, encode_canonical-bytes payload h), λ h. ground arith)
encode_push-bytes payload PushEncodingPolicy.legacy =
    (λ h. ground (arith, encode_legacy-bytes payload), λ h. ground arith)

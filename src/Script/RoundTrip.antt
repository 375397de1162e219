-- ===== src/Script/RoundTrip.antt =====
-- Decoding what the encoders of script_codec.h wrote.
use atomic_proof_interpreter.Prelude.{
  ℕ, ◌+◌, ◌/◌, ◌^◌, ◌≤◌, ◌<◌, ◌≡◌, refl, ap, ◌∙◌, Bool, true, false, ◌&&◌, some, List, [], ◌∷◌,
  ◌++◌, length, length-append, All, ltb, leb, ◌==◌, if◌then◌else◌, ok, arith, ◌⊎◌, inl, inr, take,
  take-length-append,
}
use mathlib.Core.List.{append_assoc, append-nil}
use atomic_proof_interpreter.Script.Hex.{IsByte, bytes_to_hex, hex_to_bytes}
use atomic_proof_interpreter.Script.HexText.{length-bytes_to_hex, hex_to_bytes-bytes_to_hex}
use atomic_proof_interpreter.Script.Codec.{
  PushEncodingPolicy, PushForm, DecodedPush, read_header, read_payload, require, is_canonical,
  eq_text, encode_push, decode_push_prefix, decode_push, decode_push_hex,
}
use atomic_proof_interpreter.Script.Bytes.{
  prefix_bytes, legacy_bytes, push_bytes, IsPayload, push_bytes-IsByte, encode_push-bytes,
}

abbrev pub decoded : List ℕ → PushForm → ℕ → DecodedPush
decoded payload form size = record { payload = payload; form = form; encoded_size = size }

-- The form that the length prefix of a payload of n bytes shows.
abbrev legacy_form : ℕ → PushForm
legacy_form n =
    if n == 0
    then PushForm.op_0
    else if ltb n 76
    then PushForm.direct
    else if leb n 255
    then PushForm.push_data1
    else if leb n 65535
    then PushForm.push_data2
    else PushForm.push_data4

legacy_header :
    (n : ℕ) (tail : List ℕ)
    → n < 2 ^ 32
    → n ≤ length tail
    → (decode_push_prefix (prefix_bytes n ++ tail) false
        ≡ ok (decoded (take n tail) (legacy_form n) (length (prefix_bytes n) + n)))
unfolding decode_push_prefix read_header read_payload require
legacy_header n tail h k = ground arith

legacy_structural :
    (payload rest : List ℕ)
    → length payload < 2 ^ 32
    → decode_push_prefix (legacy_bytes payload ++ rest) false
      ≡ ok (decoded payload (legacy_form (length payload)) (length (legacy_bytes payload)))
legacy_structural payload rest h = rw (
  append_assoc,
  legacy_header (length payload) (payload ++ rest) h (omega (arith, length-append payload rest)),
  take-length-append,
  length-append,
)

-- The form under each policy.
abbrev pub form_of : PushEncodingPolicy → List ℕ → PushForm
form_of PushEncodingPolicy.canonical (b ∷ []) =
    if leb 0x01 b && leb b 0x10
    then PushForm.small_integer
    else if b == 0x81
    then PushForm.small_integer
    else PushForm.direct
form_of _ payload = legacy_form (length payload)

structural :
    (payload rest : List ℕ) (policy : PushEncodingPolicy)
    → IsPayload payload
    → decode_push_prefix (push_bytes policy payload ++ rest) false
      ≡ ok (decoded payload (form_of policy payload) (length (push_bytes policy payload)))
structural payload rest PushEncodingPolicy.legacy (b, h) = legacy_structural payload rest h
structural [] rest PushEncodingPolicy.canonical (b, h) = legacy_structural [] rest h
structural (c ∷ []) rest PushEncodingPolicy.canonical (b, h) =
    unfold decode_push_prefix read_header read_payload require in ground arith
structural (c ∷ d ∷ bs) rest PushEncodingPolicy.canonical (b, h) =
    legacy_structural (c ∷ d ∷ bs) rest h

eq_text_refl : (s : List ℕ) → eq_text s s ≡ true
unfolding eq_text
eq_text_refl [] = refl
eq_text_refl (c ∷ s) = ground (arith, eq_text_refl s)

canonical_accepted :
    (payload rest : List ℕ) (form : PushForm)
    → IsPayload payload
    → is_canonical
        (push_bytes PushEncodingPolicy.canonical payload ++ rest)
        (decoded payload form (length (push_bytes PushEncodingPolicy.canonical payload)))
      ≡ true
unfolding is_canonical
canonical_accepted payload rest form h =
    rw ((encode_push-bytes payload PushEncodingPolicy.canonical).0 h, take-length-append)
      (eq_text_refl (bytes_to_hex (push_bytes PushEncodingPolicy.canonical payload)))

-- The check for the minimal form only filters what the structural decoder accepts.
require_after :
    (encoding : List ℕ) (strict : Bool) (d : DecodedPush)
    → decode_push_prefix encoding false ≡ ok d
    → is_canonical encoding d ≡ true
    → decode_push_prefix encoding strict ≡ ok d
unfolding decode_push_prefix require
require_after encoding false d e c = e
require_after [] true d e c = cc
require_after (opcode ∷ rest) true d e c = ground arith

-- The decoder reads back every payload that fits a uint32_t from its encoding under either policy,
-- whatever bytes follow, and reports the size of the encoding; the strict decoder, which demands
-- minimal pushes, accepts what the canonical policy writes.
pub decode_push_prefix-push_bytes :
    (payload rest : List ℕ) (policy : PushEncodingPolicy) (strict : Bool)
    → IsPayload payload
    → strict ≡ false ⊎ policy ≡ PushEncodingPolicy.canonical
    → decode_push_prefix (push_bytes policy payload ++ rest) strict
      ≡ ok (decoded payload (form_of policy payload) (length (push_bytes policy payload)))
decode_push_prefix-push_bytes payload rest policy strict h (inl e) =
    rw e (structural payload rest policy h)
decode_push_prefix-push_bytes payload rest policy strict h (inr e) = rw e (
    require_after _ strict _ (structural payload rest PushEncodingPolicy.canonical h)
      (canonical_accepted payload rest _ h))

nonempty : (payload : List ℕ) (policy : PushEncodingPolicy) → 1 ≤ length (push_bytes policy payload)
nonempty payload PushEncodingPolicy.legacy =
    ground (arith, length-append (prefix_bytes (length payload)) payload)
nonempty [] PushEncodingPolicy.canonical = omega arith
nonempty (b ∷ []) PushEncodingPolicy.canonical = ground arith
nonempty (b ∷ c ∷ bs) PushEncodingPolicy.canonical =
    ground (arith, length-append (prefix_bytes (length (b ∷ c ∷ bs))) (b ∷ c ∷ bs))

hex_to_bytes-push :
    (bs : List ℕ) → All IsByte bs → 1 ≤ length bs → hex_to_bytes (bytes_to_hex bs) ≡ ok bs
hex_to_bytes-push [] h k = absurd (omega arith)
hex_to_bytes-push (b ∷ bs) h k = hex_to_bytes-bytes_to_hex b bs h

decode_push-push_bytes :
    (payload : List ℕ) (policy : PushEncodingPolicy) (strict : Bool)
    → IsPayload payload
    → strict ≡ false ⊎ policy ≡ PushEncodingPolicy.canonical
    → decode_push (push_bytes policy payload) strict
      ≡ ok (decoded payload (form_of policy payload) (length (push_bytes policy payload)))
unfolding decode_push
decode_push-push_bytes payload policy strict h c = ground (
  arith,
  append-nil (push_bytes policy payload),
  decode_push_prefix-push_bytes payload [] policy strict h c,
)

decode_push_hex-push_bytes :
    (payload : List ℕ) (policy : PushEncodingPolicy) (strict : Bool)
    → IsPayload payload
    → strict ≡ false ⊎ policy ≡ PushEncodingPolicy.canonical
    → decode_push_hex (bytes_to_hex (push_bytes policy payload)) strict
      ≡ ok (
          decoded payload
            (form_of policy payload)
            (length (bytes_to_hex (push_bytes policy payload)) / 2))
unfolding decode_push_hex
decode_push_hex-push_bytes payload policy strict h c =
    let bs : List ℕ = push_bytes policy payload in
    let half : length bs ≡ length (bytes_to_hex bs) / 2 = omega (arith, length-bytes_to_hex bs) in
    rw (hex_to_bytes-push bs (push_bytes-IsByte policy payload h) (nonempty payload policy)) (
      decode_push-push_bytes payload policy strict h c
      ∙ ap (λ (n : ℕ). ok (decoded payload (form_of policy payload) n)) half)

-- For a payload of bytes that a uint32_t can measure, `encode_push` writes a text, and
-- `decode_push_hex` reads the payload back from it, with half the text's length as its size: in strict
-- mode what the canonical policy wrote, in structural mode what either policy wrote.
pub decode_push_hex-encode_push :
    (payload : List ℕ) (policy : PushEncodingPolicy) (strict : Bool)
    → IsPayload payload
    → strict ≡ false ⊎ policy ≡ PushEncodingPolicy.canonical
    → (text : List ℕ) × (encode_push payload policy ≡ some text)
      × (decode_push_hex text strict
          ≡ ok (decoded payload (form_of policy payload) (length text / 2)))
decode_push_hex-encode_push payload policy strict h c = (
  bytes_to_hex (push_bytes policy payload),
  (encode_push-bytes payload policy).0 h,
  decode_push_hex-push_bytes payload policy strict h c,
)

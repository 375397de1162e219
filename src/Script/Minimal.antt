-- ===== src/Script/Minimal.antt =====
-- The canonical encoding of script_codec.h against every other encoding that a decoder accepts.
use atomic_proof_interpreter.Prelude.{
  ℕ, zero, suc, ◌+◌, ◌-◌, ◌^◌, ◌≤◌, ◌<◌, ◌≡◌, subst, false, List, [], ◌∷◌, length, length-append,
  length-take_le, length-drop, get_or, All, ltb, Result, ok, err, Result-cases, ◌>>=◌, arith,
  Bool-cases, inl, inr, take, drop,
}
use atomic_proof_interpreter.Script.Hex.{IsByte, ScriptCodecError}
use atomic_proof_interpreter.Script.Codec.{
  PushEncodingPolicy, DecodedPush, PushHeader, read_header, read_payload, require,
  decode_push_prefix,
}
use atomic_proof_interpreter.Script.Bytes.{prefix_bytes, push_bytes}

-- What the header of an accepted push says of its size.
record Fits (h : PushHeader) : Type 0 where
  room : 1 ≤ h.header_size
  small : length (push_bytes PushEncodingPolicy.canonical h.synthetic_payload) ≤ 1
  direct : 76 ≤ h.payload_size → 2 ≤ h.header_size
  one : 256 ≤ h.payload_size → 3 ≤ h.header_size
  two : 65536 ≤ h.payload_size → 5 ≤ h.header_size
  four : h.payload_size < 2 ^ 32

get_or-IsByte : (xs : List ℕ) (i : ℕ) → All IsByte xs → get_or xs i 0 < 256
get_or-IsByte [] i h = omega arith
get_or-IsByte (x ∷ xs) zero (b, h) = b
get_or-IsByte (x ∷ xs) (suc i) (b, h) = get_or-IsByte xs i h

read_header-Fits :
    (opcode : ℕ) (rest : List ℕ) (h : PushHeader)
    → All IsByte (opcode ∷ rest)
    → read_header opcode (opcode ∷ rest) ≡ ok h
    → Fits h
unfolding read_header
read_header-Fits opcode rest h (b, bs) e = ground (
  arith,
  get_or-IsByte rest 0 bs,
  get_or-IsByte rest 1 bs,
  get_or-IsByte rest 2 bs,
  get_or-IsByte rest 3 bs,
)

-- The size of the canonical encoding, in terms of the payload's.
canonical_size :
    (payload : List ℕ)
    → length (push_bytes PushEncodingPolicy.canonical payload)
      ≤ length (prefix_bytes (length payload)) + length payload
canonical_size [] = omega arith
canonical_size (b ∷ []) = ground arith
canonical_size (b ∷ c ∷ bs) =
    omega (arith, length-append (prefix_bytes (length (b ∷ c ∷ bs))) (b ∷ c ∷ bs))

abbrev IsLeast : DecodedPush → Type 0
IsLeast d = length (push_bytes PushEncodingPolicy.canonical d.payload) ≤ d.encoded_size

ok-IsLeast :
    (c d : DecodedPush)
    → ◌≡◌ {A = Result ScriptCodecError DecodedPush} (ok c) (ok d)
    → IsLeast c
    → IsLeast d
ok-IsLeast c d e h = let p : c ≡ d = cc in subst IsLeast p h

taken :
    (encoding : List ℕ) (h n : ℕ) → n ≤ length encoding - h → length (take n (drop h encoding)) ≡ n
taken encoding h n k = length-take_le n (drop h encoding) (omega (arith, length-drop h encoding))

prefix_size : (h : PushHeader) → Fits h → length (prefix_bytes h.payload_size) ≤ h.header_size
prefix_size h f = ground arith

read_payload-size :
    (encoding synthetic : List ℕ) (h : PushHeader) (d : DecodedPush)
    → Fits h
    → length (push_bytes PushEncodingPolicy.canonical synthetic) ≤ 1
    → read_payload encoding h synthetic ≡ ok d
    → IsLeast d
unfolding read_payload
read_payload-size encoding [] h d f k e =
    elim (Bool-cases (ltb (length encoding - h.header_size) h.payload_size)) [
      | inl short ↦ cc (rw short at e)
      | inr long ↦
          let payload : List ℕ = take h.payload_size (drop h.header_size encoding) in
          let n : length payload ≡ h.payload_size =
            taken encoding h.header_size h.payload_size (ground arith) in
          let size : length (push_bytes PushEncodingPolicy.canonical payload)
              ≤ h.header_size + h.payload_size =
            omega (arith, rw n at (canonical_size payload), prefix_size h f) in
          ok-IsLeast _ d (rw long at e) size
    ]
read_payload-size encoding (b ∷ bs) h d f k e = ok-IsLeast _ d e k

-- The structural mode asks for nothing more.
structural_ok :
    (encoding : List ℕ) (d : DecodedPush) (r : Result ScriptCodecError DecodedPush)
    → (r >>= require false encoding) ≡ ok d
    → r ≡ ok d
unfolding require
structural_ok encoding d (ok c) e = e
structural_ok encoding d (err x) e = cc

-- The canonical encoding of a payload is never longer than an encoding of that payload which the
-- structural decoder accepts at the front of some byte string.
pub decode_push_prefix-IsLeast :
    (encoding : List ℕ) (d : DecodedPush)
    → All IsByte encoding
    → decode_push_prefix encoding false ≡ ok d
    → length (push_bytes PushEncodingPolicy.canonical d.payload) ≤ d.encoded_size
unfolding decode_push_prefix require
decode_push_prefix-IsLeast [] d b e = cc
decode_push_prefix-IsLeast (opcode ∷ rest) d b e =
    elim (Result-cases (read_header opcode (opcode ∷ rest))) [
      | inl (h, p) ↦
          let f : Fits h = read_header-Fits opcode rest h b p in
          read_payload-size (opcode ∷ rest) h.synthetic_payload h d f f.small
            (structural_ok (opcode ∷ rest) d _ (rw p at e))
      | inr (x, p) ↦ cc (rw p at e)
    ]

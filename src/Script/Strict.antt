-- ===== src/Script/Strict.antt =====
-- The strict mode of decodePushPrefix in src/bytecode/script_codec.h: it accepts the canonical
-- encoding of a payload and no other.
use atomic_proof_interpreter.Prelude.{
  ℕ, ◌-◌, ◌^◌, ◌≡◌, refl, sym, subst, ap, ◌∙◌, true, none, List, [], ◌∷◌, length, All, All-take,
  All-drop, ltb, Result, ok, Result-cases, arith, Bool-cases, inl, inr, take,
}
use atomic_proof_interpreter.Script.Hex.{IsByte, ScriptCodecError, bytes_to_hex, hex_pairs}
use atomic_proof_interpreter.Script.HexText.{hex_pairs-bytes_to_hex}
use atomic_proof_interpreter.Script.Codec.{
  PushEncodingPolicy, DecodedPush, PushHeader, read_header, read_payload, require, is_canonical,
  eq_text, eq_encoding, encode_push, decode_push_prefix, sized,
}
use atomic_proof_interpreter.Script.Bytes.{
  IsPayload, push_bytes, push_bytes-IsByte, encode_push-bytes,
}

eq_text→eq : (s t : List ℕ) → eq_text s t ≡ true → s ≡ t
unfolding eq_text
eq_text→eq [] [] h = refl
eq_text→eq [] (d ∷ t) h = absurd (ground arith)
eq_text→eq (c ∷ s) [] h = absurd (ground arith)
eq_text→eq (c ∷ s) (d ∷ t) h =
    let e : c ≡ d = ground arith in
    let rest : s ≡ t = eq_text→eq s t (ground arith) in rw (e, rest) refl

-- Equal texts are texts of equal bytes.
bytes_to_hex-injective :
    (xs ys : List ℕ) → All IsByte xs → All IsByte ys → bytes_to_hex xs ≡ bytes_to_hex ys → xs ≡ ys
bytes_to_hex-injective xs ys hx hy e =
    let p : ◌≡◌ {A = Result ScriptCodecError (List ℕ)} (ok xs) (ok ys) =
      sym (hex_pairs-bytes_to_hex xs hx) ∙ ap hex_pairs e ∙ hex_pairs-bytes_to_hex ys hy in
    cc

canonical_bytes :
    (encoding : List ℕ) (d : DecodedPush)
    → All IsByte encoding
    → All IsByte d.payload
    → is_canonical encoding d ≡ true
    → take d.encoded_size encoding ≡ push_bytes PushEncodingPolicy.canonical d.payload
unfolding is_canonical eq_encoding
canonical_bytes encoding d h k e = elim (Bool-cases (ltb (length d.payload) (2 ^ 32))) [
  | inl short ↦
      let small : IsPayload d.payload = (k, ground arith) in
      let text : bytes_to_hex (push_bytes PushEncodingPolicy.canonical d.payload)
          ≡ bytes_to_hex (take d.encoded_size encoding) =
        eq_text→eq _ _ (
          rw ((encode_push-bytes d.payload PushEncodingPolicy.canonical).0 small, eq_encoding) at
            e) in
      bytes_to_hex-injective _ _ (All-take IsByte d.encoded_size encoding h)
        (push_bytes-IsByte PushEncodingPolicy.canonical d.payload small) (sym text)
  | inr long ↦
      let refused : encode_push d.payload PushEncodingPolicy.canonical ≡ none =
        (encode_push-bytes d.payload PushEncodingPolicy.canonical).1 (ground arith) in
      absurd (ground (arith, refused))
]

read_header-IsByte :
    (opcode : ℕ) (rest : List ℕ) (h : PushHeader)
    → IsByte opcode
    → read_header opcode (opcode ∷ rest) ≡ ok h
    → All IsByte h.synthetic_payload
unfolding read_header sized
read_header-IsByte opcode rest h b e = ground arith

ok-bytes :
    (c d : DecodedPush)
    → ◌≡◌ {A = Result ScriptCodecError DecodedPush} (ok c) (ok d)
    → All IsByte c.payload
    → All IsByte d.payload
ok-bytes c d e h = let p : c ≡ d = cc in subst (λ (x : DecodedPush). All IsByte x.payload) p h

read_payload-IsByte :
    (encoding synthetic : List ℕ) (h : PushHeader) (d : DecodedPush)
    → All IsByte encoding
    → All IsByte synthetic
    → read_payload encoding h synthetic ≡ ok d
    → All IsByte d.payload
unfolding read_payload
read_payload-IsByte encoding [] h d b s e =
    elim (Bool-cases (ltb (length encoding - h.header_size) h.payload_size)) [
      | inl short ↦ cc (rw short at e)
      | inr long ↦
          ok-bytes _ d (rw long at e)
            (All-take IsByte h.payload_size _ (All-drop IsByte h.header_size encoding b))
    ]
read_payload-IsByte encoding (x ∷ xs) h d b s e = ok-bytes _ d e s

required :
    (encoding : List ℕ) (c d : DecodedPush)
    → require true encoding c ≡ ok d
    → (c ≡ d) × (is_canonical encoding c ≡ true)
unfolding require
required encoding c d e = ground arith

-- Whatever the strict decoder accepts at the front of a byte string is the canonical encoding of the
-- payload it reports.
pub decode_push_prefix-canonical :
    (encoding : List ℕ) (d : DecodedPush)
    → All IsByte encoding
    → decode_push_prefix encoding true ≡ ok d
    → take d.encoded_size encoding ≡ push_bytes PushEncodingPolicy.canonical d.payload
unfolding decode_push_prefix
decode_push_prefix-canonical [] d b e = cc
decode_push_prefix-canonical (opcode ∷ rest) d (o, b) e =
    elim (Result-cases (read_header opcode (opcode ∷ rest))) [
      | inl (h, p) ↦ elim (Result-cases (read_payload (opcode ∷ rest) h h.synthetic_payload)) [
        | inl (c, q) ↦
            let (same, canonical) = required (opcode ∷ rest) c d (rw (p, q) at e) in
            let bytes : All IsByte c.payload =
              read_payload-IsByte (opcode ∷ rest) h.synthetic_payload h c (o, b)
                (read_header-IsByte opcode rest h o p) q in
            subst
              (λ (x : DecodedPush).
                take x.encoded_size (opcode ∷ rest)
                ≡ push_bytes PushEncodingPolicy.canonical x.payload)
              same (canonical_bytes (opcode ∷ rest) c (o, b) bytes canonical)
        | inr (x, q) ↦ cc (rw (p, q) at e)
      ]
      | inr (x, p) ↦ cc (rw p at e)
    ]

-- ===== src/Script/Consumed.antt =====
-- decodePush of src/bytecode/script_codec.h beside decode_instruction of
-- src/bytecode/script_decoder.cpp: the bytes of a push are one instruction.
use atomic_proof_interpreter.Prelude.{
  ℕ, ◌+◌, ◌-◌, ◌≡◌, arith, sym, ◌∙◌, true, false, ◌&&◌, Option, none, some, List, [], ◌∷◌, length,
  ltb, leb, ◌==◌, if◌then◌else◌, Result, ok, err, Bool-cases, Result-cases, inl, inr,
}
use atomic_proof_interpreter.Script.Hex.{ScriptCodecError}
use atomic_proof_interpreter.Script.Codec.{
  PushForm, DecodedPush, PushHeader, read_header, sized, read_payload, require, no_trailing,
  decode_push_prefix, decode_push,
}
use atomic_proof_interpreter.Script.Decoder.{RawInstruction, read_operand, decode_instruction}

-- An instruction of so many bytes.
abbrev pub IsWhole : ℕ → Option RawInstruction → Type 0
IsWhole n none = ⊥
IsWhole n (some r) = r.bytes_consumed ≡ n

-- The bytes that a header asks for, in front of them and with the payload it stands for.
abbrev size_with : PushHeader → List ℕ → ℕ
size_with h [] = h.header_size + h.payload_size
size_with h (b ∷ bs) = 1

abbrev HasSize : Result ScriptCodecError PushHeader → ℕ → Type 0
HasSize (err e) n = ⊥
HasSize (ok h) n = size_with h h.synthetic_payload ≡ n

read_payload-size :
    (encoding synthetic : List ℕ) (h : PushHeader) (d : DecodedPush)
    → read_payload encoding h synthetic ≡ ok d
    → d.encoded_size ≡ size_with h synthetic
unfolding read_payload
read_payload-size encoding [] h d e =
    elim (Bool-cases (ltb (length encoding - h.header_size) h.payload_size)) [
      | inl f ↦ absurd (let y = rw f at e in grind arith)
      | inr f ↦ let y = rw f at e in grind arith
    ]
read_payload-size encoding (b ∷ bs) h d e = grind arith

no_trailing-size :
    (encoding : List ℕ) (c d : DecodedPush)
    → no_trailing encoding c ≡ ok d
    → c.encoded_size ≡ length encoding
unfolding no_trailing
no_trailing-size encoding c d h = ground arith

decode_push-HasSize :
    (b : ℕ) (tail : List ℕ) (d : DecodedPush)
    → decode_push (b ∷ tail) false ≡ ok d
    → HasSize (read_header b (b ∷ tail)) (length (b ∷ tail))
unfolding decode_push decode_push_prefix require
decode_push-HasSize b tail d e = elim (Result-cases (read_header b (b ∷ tail))) [
  | inl (h, f) ↦ elim (Result-cases (read_payload (b ∷ tail) h h.synthetic_payload)) [
    | inl (c, g) ↦ rw f (
        sym (read_payload-size (b ∷ tail) h.synthetic_payload h c g)
        ∙ no_trailing-size (b ∷ tail) c d (rw (f, g) at e))
    | inr (x, g) ↦ absurd (let y = rw (f, g) at e in grind arith)
  ]
  | inr (x, f) ↦ absurd (let y = rw f at e in grind arith)
]

read_operand-IsWhole :
    (bytes : List ℕ) (m k : ℕ)
    → 1 + m + k ≡ length bytes
    → IsWhole (length bytes) (read_operand bytes m k)
unfolding read_operand
read_operand-IsWhole bytes m k h =
    let e : ltb (length bytes) (1 + m + k) ≡ false = ground arith in rw e h

-- An OP_PUSHDATA with its length bytes.
sized-IsWhole :
    (bytes : List ℕ) (m k : ℕ) (form : PushForm)
    → HasSize (sized bytes (1 + m) form k) (length bytes)
    → IsWhole (length bytes) (if ltb (length bytes) (1 + m) then none else read_operand bytes m k)
unfolding sized
sized-IsWhole bytes m k form h = elim (Bool-cases (ltb (length bytes) (1 + m))) [
  | inl e ↦ absurd (rw e at h)
  | inr e ↦ rw e (read_operand-IsWhole bytes m k (rw e at h))
]

read_header-IsWhole :
    (b : ℕ) (tail : List ℕ)
    → HasSize (read_header b (b ∷ tail)) (length (b ∷ tail))
    → IsWhole (length (b ∷ tail)) (decode_instruction (b ∷ tail))
unfolding read_header decode_instruction
read_header-IsWhole b tail h = elim (Bool-cases (b == 0x00)) [
  | inl e₀ ↦
      let z : b ≡ 0 = ground arith in
      let x : ltb b 0x4c ≡ true = ground arith in
      let y = rw e₀ at h in rw x (read_operand-IsWhole (b ∷ tail) 0 b (omega arith))
  | inr e₀ ↦ elim (Bool-cases (leb 0x01 b && leb b 0x4b)) [
    | inl e₁ ↦
        let x : ltb b 0x4c ≡ true = ground arith in
        let y = rw (e₀, e₁) at h in rw x (read_operand-IsWhole (b ∷ tail) 0 b (omega arith))
    | inr e₁ ↦
        let x : ltb b 0x4c ≡ false = ground arith in
        elim (Bool-cases (b == 0x4c)) [
          | inl e₂ ↦ rw (x, e₂) (sized-IsWhole (b ∷ tail) 1 _ _ (rw (e₀, e₁, e₂) at h))
          | inr e₂ ↦ elim (Bool-cases (b == 0x4d)) [
            | inl e₃ ↦ rw (x, e₂, e₃) (sized-IsWhole (b ∷ tail) 2 _ _ (rw (e₀, e₁, e₂, e₃) at h))
            | inr e₃ ↦ elim (Bool-cases (b == 0x4e)) [
              | inl e₄ ↦
                  rw (x, e₂, e₃, e₄) (sized-IsWhole (b ∷ tail) 4 _ _ (rw (e₀, e₁, e₂, e₃, e₄) at h))
              | inr e₄ ↦ elim (Bool-cases (b == 0x4f)) [
                | inl e₅ ↦ rw (x, e₂, e₃, e₄) (rw (e₀, e₁, e₂, e₃, e₄, e₅) at h)
                | inr e₅ ↦ elim (Bool-cases (leb 0x51 b && leb b 0x60)) [
                  | inl e₆ ↦ rw (x, e₂, e₃, e₄) (rw (e₀, e₁, e₂, e₃, e₄, e₅, e₆) at h)
                  | inr e₆ ↦ absurd (rw (e₀, e₁, e₂, e₃, e₄, e₅, e₆) at h)
                ]
              ]
            ]
          ]
        ]
  ]
]

-- Bytes that decodePush accepts are one instruction for the decoder of the machine.
pub decode_push-IsWhole :
    (b : ℕ) (tail : List ℕ) (d : DecodedPush)
    → decode_push (b ∷ tail) false ≡ ok d
    → IsWhole (length (b ∷ tail)) (decode_instruction (b ∷ tail))
decode_push-IsWhole b tail d e = read_header-IsWhole b tail (decode_push-HasSize b tail d e)

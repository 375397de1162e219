-- ===== src/Peephole/Decoded.antt =====
-- Texts that decodePushHex of src/bytecode/script_codec.h accepts, on the machine: each is an
-- instruction that pushes.
use atomic_proof_interpreter.Prelude.{
  ℕ, ◌+◌, ◌-◌, ◌≡◌, ◌≢◌, ◌≤◌, ◌<◌, ◌⊎◌, refl, arith, Bool, true, false, ◌&&◌, Option, none, some,
  List, [], ◌∷◌, length, ltb, leb, ◌==◌, if◌then◌else◌, ok, Bool-cases, Result-cases, inl, inr,
}
use atomic_proof_interpreter.Prelude.Int.{pos, negsuc}
use atomic_proof_interpreter.Script.Hex.{hex_to_bytes}
use atomic_proof_interpreter.Script.Codec.{
  DecodedPush, PushHeader, decode_push_hex, decode_push, decode_push_prefix, read_header,
}
use atomic_proof_interpreter.Script.Decoder.{RawInstruction, decode_instruction, read_operand}
use atomic_proof_interpreter.Script.Consumed.{IsWhole, decode_push-IsWhole}
use atomic_proof_interpreter.Vm.Number.{Element, serialize_script_num}
use atomic_proof_interpreter.Vm.Stack.{push, push_int}
use atomic_proof_interpreter.Vm.Ops.{op_push}
use atomic_proof_interpreter.Vm.Machine.{Instruction, push_data, Signatures, main_op}
use atomic_proof_interpreter.Vm.Text.{
  opcode_value, opcode_of_byte, find_opcode, named, read_text, read_bytes, whole, to_instruction,
}
use atomic_proof_interpreter.Peephole.Windows.{is_plain, on_stack}
use atomic_proof_interpreter.Peephole.Producers.{PushOf}

-- The first byte of a push.
abbrev IsPushByte : ℕ → Type 0
IsPushByte b = (b < 0x50) ⊎ ((0x51 ≤ b) × (b ≤ 0x60))

read_header-IsPushByte :
    (b : ℕ) (bytes : List ℕ) (h : PushHeader) → read_header b bytes ≡ ok h → IsPushByte b
unfolding read_header
read_header-IsPushByte b bytes h e = elim (Bool-cases (ltb b 0x50)) [
  | inl f ↦ inl (ground arith)
  | inr f ↦ elim (Bool-cases (leb 0x51 b && leb b 0x60)) [
    | inl g ↦ inr (ground arith, ground arith)
    | inr g ↦ absurd (ground arith)
  ]
]

decode_push-IsPushByte :
    (b : ℕ) (tail : List ℕ) (d : DecodedPush) → decode_push (b ∷ tail) false ≡ ok d → IsPushByte b
unfolding decode_push decode_push_prefix
decode_push-IsPushByte b tail d h = elim (Result-cases (read_header b (b ∷ tail))) [
  | inl (x, e) ↦ read_header-IsPushByte b (b ∷ tail) x e
  | inr (x, e) ↦ absurd (let y = rw e at h in grind arith)
]

-- What is decoded, if anything, has the first byte for its opcode.
abbrev HasOpcode : ℕ → Option RawInstruction → Type 0
HasOpcode b none = Unit
HasOpcode b (some r) = r.opcode ≡ b

HasOpcode-if :
    (b : ℕ) (c : Bool) (x y : Option RawInstruction)
    → HasOpcode b x
    → HasOpcode b y
    → HasOpcode b (if c then x else y)
HasOpcode-if b true x y h k = h
HasOpcode-if b false x y h k = k

read_operand-HasOpcode : (b m n : ℕ) (tail : List ℕ) → HasOpcode b (read_operand (b ∷ tail) m n)
unfolding read_operand
read_operand-HasOpcode b m n tail =
    HasOpcode-if b (ltb (length (b ∷ tail)) (1 + m + n)) none _ tt refl

decode_instruction-HasOpcode : (b : ℕ) (tail : List ℕ) → HasOpcode b (decode_instruction (b ∷ tail))
unfolding decode_instruction
decode_instruction-HasOpcode b tail =
    HasOpcode-if b (ltb b 0x4c) _ _ (read_operand-HasOpcode b 0 b tail) (
      HasOpcode-if b (b == 0x4c) _ _
        (HasOpcode-if b (ltb (length (b ∷ tail)) 2) none _ tt (read_operand-HasOpcode b 1 _ tail))
        (HasOpcode-if b (b == 0x4d) _ _
          (HasOpcode-if b (ltb (length (b ∷ tail)) 3) none _ tt (read_operand-HasOpcode b 2 _ tail))
          (HasOpcode-if b (b == 0x4e) _ _
            (HasOpcode-if b (ltb (length (b ∷ tail)) 5) none _ tt
              (read_operand-HasOpcode b 4 _ tail))
            refl)))

-- An instruction that pushes, unless it is an empty OP_PUSHDATA.
module _ (env : Signatures) where
  pub record Pushing (i : Instruction) : Type 0 where
    pub element : Element
    pub plain : is_plain i ≡ true
    pub pushes : i ≢ push_data [] → PushOf env i element

  -- An instruction, and one that pushes.
  abbrev pub Pushes : Option Instruction → Type 0
  Pushes none = ⊥
  Pushes (some i) = Pushing i

  push_data-Pushing : (e : List ℕ) → Pushing (push_data e)
  unfolding is_plain on_stack op_push push
  push_data-Pushing [] = record { element = []; plain = refl; pushes = λ h. absurd (h refl) }
  push_data-Pushing (b ∷ e) = record { element = b ∷ e; plain = refl; pushes = λ h s. refl }

  byte_Pushing :
      (b : ℕ)
      → IsPushByte b
      → (leb 0x01 b && leb b 0x4e) ≡ false
      → Pushes (named (opcode_of_byte b))
  unfolding is_plain on_stack main_op push_int opcode_of_byte named find_opcode opcode_value
  byte_Pushing b h e = elim (Bool-cases (leb 0x51 b && leb b 0x60)) [
    | inl f ↦ rw f record {
      element = serialize_script_num (pos (b - 0x50));
      plain = refl;
      pushes = λ x s. refl;
    }
    | inr f ↦ elim (Bool-cases (b == 0)) [
      | inl g ↦
          let z : b ≡ 0 = ground arith in
          rw z record { element = serialize_script_num (pos 0); plain = refl; pushes = λ x s. refl }
      | inr g ↦
          let z : b ≡ 0x4f = ground arith in
          rw z
            record { element = serialize_script_num (negsuc 0); plain = refl; pushes = λ x s. refl }
    ]
  ]

  to_instruction-Pushing :
      (b : ℕ) (r : RawInstruction) → IsPushByte b → r.opcode ≡ b → Pushes (to_instruction r)
  unfolding to_instruction
  to_instruction-Pushing b r h e = elim (Bool-cases (leb 0x01 b && leb b 0x4e)) [
    | inl f ↦ rw (e, f) (push_data-Pushing r.operand)
    | inr f ↦ rw (e, f) (byte_Pushing b h f)
  ]

  whole-Pushing :
      (n b : ℕ) (o : Option RawInstruction)
      → IsPushByte b
      → HasOpcode b o
      → IsWhole n o
      → Pushes (whole n o)
  unfolding whole
  whole-Pushing n b none h k w = absurd w
  whole-Pushing n b (some r) h k w =
      let e : (r.bytes_consumed == n) ≡ true = ground arith in rw e (to_instruction-Pushing b r h k)

  read_bytes-Pushing :
      (b : ℕ) (tail : List ℕ) (d : DecodedPush)
      → decode_push (b ∷ tail) false ≡ ok d
      → Pushes (read_bytes (ok (b ∷ tail)))
  unfolding read_bytes
  read_bytes-Pushing b tail d h =
      whole-Pushing _ b _ (decode_push-IsPushByte b tail d h) (decode_instruction-HasOpcode b tail)
        (decode_push-IsWhole b tail d h)

  bytes_Pushes :
      (bytes : List ℕ) (d : DecodedPush)
      → decode_push bytes false ≡ ok d
      → Pushes (read_bytes (ok bytes))
  bytes_Pushes [] d h = absurd (unfold decode_push decode_push_prefix in grind arith)
  bytes_Pushes (b ∷ tail) d h = read_bytes-Pushing b tail d h

  -- A text that decodes as a push, in any form.
  pub decoded-Pushes :
      (t : List ℕ) (d : DecodedPush) → decode_push_hex t false ≡ ok d → Pushes (read_text t)
  unfolding decode_push_hex read_text
  decoded-Pushes t d h = elim (Result-cases (hex_to_bytes t)) [
    | inl (bytes, e) ↦ rw e (bytes_Pushes bytes d (rw e at h))
    | inr (x, e) ↦ absurd (let y = rw e at h in grind arith)
  ]

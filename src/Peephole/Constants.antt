-- ===== src/Peephole/Constants.antt =====
-- Constant pushes of src/bytecode_peephole_pass.h: the machine pushes the payload that
-- decodedPushPayload reads.
use atomic_proof_interpreter.Prelude.{
  ℕ, ◌+◌, ◌-◌, ◌*◌, ◌/◌, ◌^◌, ◌≡◌, ◌≢◌, ◌≤◌, refl, arith, ap, sym, ◌∙◌, true, some, List, [], ◌∷◌,
  length, drop, map, All, All-drop, get_or, ◌==◌, ok, Bool-cases, inl, inr,
}
use atomic_proof_interpreter.Prelude.Int.{pos}
use atomic_proof_interpreter.Script.Hex.{IsByte, bytes_to_hex, byte_to_hex}
use atomic_proof_interpreter.Script.Decoder.{decode_instruction, read_operand}
use atomic_proof_interpreter.Vm.Number.{Element, serialize_script_num, set_sign, low_bytes}
use atomic_proof_interpreter.Vm.Stack.{push, push_int}
use atomic_proof_interpreter.Vm.Ops.{op_push}
use atomic_proof_interpreter.Vm.Machine.{
  BytOpcode, Instruction, opcode, push_data, Signatures, main_op,
}
use atomic_proof_interpreter.Vm.Text.{
  opcode_value, opcode_of_byte, find_opcode, read_text, read_bytes, whole, to_instruction,
}
use atomic_proof_interpreter.Vm.Opcodes.{one_number}
use atomic_proof_interpreter.Peephole.Text.{hex_byte_at, is_pure_hex}
use atomic_proof_interpreter.Peephole.Push.{
  is_small, well_formed_push_size, is_well_formed, to_lower, payload_of, decoded_push_payload,
}
use atomic_proof_interpreter.Peephole.Hex.{PureHex, is_pure_hex-PureHex}
use atomic_proof_interpreter.Peephole.Forms.{
  Form, small, direct, data1, data2, data4, lower_payload, take_all, well_formed_size-Form,
}
use atomic_proof_interpreter.Peephole.Windows.{is_plain, on_stack}
use atomic_proof_interpreter.Peephole.Producers.{PushOf}

-- The machine refuses an OP_PUSHDATA without payload.
abbrev pub IsSolid : List ℕ → Type 0
IsSolid t = read_text t ≢ some (push_data [])

module _ (env : Signatures) where
  -- What the bytes are read as, and the element it pushes.
  pub record Constant (bytes payload : List ℕ) : Type 0 where
    pub instruction : Instruction
    pub element : Element
    pub read : read_bytes (ok bytes) ≡ some instruction
    pub plain : is_plain instruction ≡ true
    pub pushes : instruction ≢ push_data [] → PushOf env instruction element
    pub text : payload ≡ bytes_to_hex element
    pub are_bytes : All IsByte element

  op_push-solid : (e : Element) → push_data e ≢ push_data [] → PushOf env (push_data e) e
  unfolding on_stack op_push push
  op_push-solid [] h s = absurd (h refl)
  op_push-solid (b ∷ e) h s = refl

  data_Constant :
      (bytes e payload : List ℕ)
      → read_bytes (ok bytes) ≡ some (push_data e)
      → payload ≡ bytes_to_hex e
      → All IsByte e
      → Constant bytes payload
  unfolding is_plain
  data_Constant bytes e payload r t h = record {
    instruction = push_data e;
    element = e;
    read = r;
    plain = refl;
    pushes = op_push-solid e;
    text = t;
    are_bytes = h;
  }

  small_number : (n : ℕ) → 1 ≤ n → n ≤ 16 → serialize_script_num (pos n) ≡ n ∷ []
  unfolding serialize_script_num low_bytes set_sign
  small_number n lo hi = ground arith

  number_Constant :
      (n : ℕ) (payload : List ℕ)
      → 1 ≤ n
      → n ≤ 16
      → payload ≡ bytes_to_hex (n ∷ [])
      → Constant ((0x50 + n) ∷ []) payload
  unfolding is_plain on_stack main_op push_int
  number_Constant n payload lo hi t = record {
    instruction = opcode (BytOpcode.op_n n);
    element = n ∷ [];
    read = one_number n lo hi;
    plain = refl;
    pushes = λ h s. ap (λ x. ok (x ∷ s)) (small_number n lo hi);
    text = t;
    are_bytes = (omega arith, tt);
  }

  zero_Constant : Constant (0x00 ∷ []) []
  unfolding is_plain on_stack main_op push_int serialize_script_num read_bytes opcode_of_byte
      find_opcode opcode_value bytes_to_hex
  zero_Constant = record {
    instruction = opcode BytOpcode.op_0;
    element = [];
    read = refl;
    plain = refl;
    pushes = λ h s. refl;
    text = refl;
    are_bytes = tt;
  }

  minus_Constant : Constant (0x4f ∷ []) (b'8' ∷ b'1' ∷ [])
  unfolding is_plain on_stack main_op push_int serialize_script_num low_bytes set_sign read_bytes
      opcode_of_byte find_opcode opcode_value bytes_to_hex byte_to_hex
  minus_Constant = record {
    instruction = opcode BytOpcode.op_1negate;
    element = 0x81 ∷ [];
    read = refl;
    plain = refl;
    pushes = λ h s. refl;
    text = refl;
    are_bytes = (omega arith, tt);
  }

  read_direct :
      (b : ℕ) (tail : List ℕ)
      → 1 ≤ b
      → b ≤ 75
      → length tail ≡ b
      → read_bytes (ok (b ∷ tail)) ≡ some (push_data tail)
  unfolding read_bytes decode_instruction read_operand whole to_instruction
  read_direct b tail lo hi e = ground (arith, take_all b tail e)

  read_data1 :
      (b1 : ℕ) (tail : List ℕ)
      → length tail ≡ b1
      → read_bytes (ok (0x4c ∷ b1 ∷ tail)) ≡ some (push_data tail)
  unfolding read_bytes decode_instruction read_operand whole to_instruction
  read_data1 b1 tail e = ground (arith, take_all b1 tail e)

  read_data2 :
      (b1 b2 n : ℕ) (tail : List ℕ)
      → b1 + b2 * 2 ^ 8 ≡ n
      → length tail ≡ n
      → read_bytes (ok (0x4d ∷ b1 ∷ b2 ∷ tail)) ≡ some (push_data tail)
  unfolding read_bytes decode_instruction read_operand whole to_instruction
  read_data2 b1 b2 n tail m e = rw m (ground (arith, take_all n tail e))

  read_data4 :
      (b1 b2 b3 b4 n : ℕ) (tail : List ℕ)
      → b1 + b2 * 2 ^ 8 + b3 * 2 ^ 16 + b4 * 2 ^ 24 ≡ n
      → length tail ≡ n
      → read_bytes (ok (0x4e ∷ b1 ∷ b2 ∷ b3 ∷ b4 ∷ tail)) ≡ some (push_data tail)
  unfolding read_bytes decode_instruction read_operand whole to_instruction
  read_data4 b1 b2 b3 b4 n tail m e = rw m (ground (arith, take_all n tail e))

  module _ (t bytes : List ℕ) (p : PureHex t bytes) where
    -- The bytes behind a header of k bytes, as decodedPushPayload reads them.
    behind : (k : ℕ) → map to_lower (drop (2 * k) t) ≡ bytes_to_hex (drop k bytes)
    behind k = lower_payload k t bytes p.as_bytes.lower

    behind_Constant :
        (b k : ℕ)
        → payload_of b t ≡ map to_lower (drop (2 * k) t)
        → read_bytes (ok bytes) ≡ some (push_data (drop k bytes))
        → Constant bytes (payload_of b t)
    behind_Constant b k e r =
        data_Constant bytes (drop k bytes) (payload_of b t) r (e ∙ behind k)
          (All-drop IsByte k bytes p.as_bytes.are_bytes)

  payload_direct :
      (b : ℕ) (t : List ℕ) → 1 ≤ b → b ≤ 75 → payload_of b t ≡ map to_lower (drop (2 * 1) t)
  unfolding payload_of
  payload_direct b t lo hi = ground arith

  payload_number :
      (n : ℕ) (t : List ℕ) → 1 ≤ n → n ≤ 16 → payload_of (0x50 + n) t ≡ bytes_to_hex (n ∷ [])
  unfolding payload_of bytes_to_hex byte_to_hex
  payload_number n t lo hi = let e : 0x50 + n - 0x50 ≡ n = omega arith in rw e (ground arith)

  small_Constant : (b : ℕ) (t : List ℕ) → is_small b ≡ true → Constant (b ∷ []) (payload_of b t)
  unfolding is_small payload_of
  small_Constant b t h = elim (Bool-cases (b == 0x00)) [
    | inl e ↦ let f : b ≡ 0x00 = ground arith in rw f zero_Constant
    | inr e ↦ elim (Bool-cases (b == 0x4f)) [
      | inl f ↦ let g : b ≡ 0x4f = ground arith in rw g minus_Constant
      | inr f ↦
          let lo : 0x51 ≤ b = ground arith in
          let hi : b ≤ 0x60 = ground arith in
          let g : b ≡ 0x50 + (b - 0x50) = omega arith in
          rw g (
            number_Constant (b - 0x50) _ (omega arith) (omega arith)
              (payload_number (b - 0x50) t (omega arith) (omega arith)))
    ]
  ]

  form_Constant :
      (t bytes : List ℕ)
      → PureHex t bytes
      → (b : ℕ) → get_or bytes 0 0 ≡ b
      → Form b (length bytes) t
      → Constant bytes (payload_of b t)
  form_Constant t [] p b e f = absurd (omega (arith, p.positive))
  form_Constant t (c ∷ []) p b e (small h n) = rw e (small_Constant b t h)
  form_Constant t (c ∷ d ∷ tail) p b e (small h n) = absurd (omega arith)
  form_Constant t (c ∷ tail) p b e (direct lo hi n) =
      behind_Constant t (c ∷ tail) p b 1 (payload_direct b t lo hi)
        (rw e (read_direct b tail lo hi (omega arith)))
  form_Constant t (c ∷ []) p b e (data1 h (lo, n)) = absurd (omega arith)
  form_Constant t (c ∷ b1 ∷ tail) p b e (data1 h (lo, n)) =
      behind_Constant t (c ∷ b1 ∷ tail) p b 2 (unfold payload_of in rw h refl)
        (rw (e, h) (read_data1 b1 tail (omega (arith, p.at 1))))
  form_Constant t (c ∷ []) p b e (data2 h (lo, n)) = absurd (omega arith)
  form_Constant t (c ∷ b1 ∷ []) p b e (data2 h (lo, n)) = absurd (omega arith)
  form_Constant t (c ∷ b1 ∷ b2 ∷ tail) p b e (data2 h (lo, n)) =
      behind_Constant t (c ∷ b1 ∷ b2 ∷ tail) p b 3 (unfold payload_of in rw h refl)
        (rw (e, h) (read_data2 b1 b2 _ tail refl (omega (arith, p.at 1, p.at 2))))
  form_Constant t (c ∷ []) p b e (data4 h (lo, n)) = absurd (omega arith)
  form_Constant t (c ∷ b1 ∷ []) p b e (data4 h (lo, n)) = absurd (omega arith)
  form_Constant t (c ∷ b1 ∷ b2 ∷ []) p b e (data4 h (lo, n)) = absurd (omega arith)
  form_Constant t (c ∷ b1 ∷ b2 ∷ b3 ∷ []) p b e (data4 h (lo, n)) = absurd (omega arith)
  form_Constant t (c ∷ b1 ∷ b2 ∷ b3 ∷ b4 ∷ tail) p b e (data4 h (lo, n)) =
      behind_Constant t (c ∷ b1 ∷ b2 ∷ b3 ∷ b4 ∷ tail) p b 5 (unfold payload_of in rw h refl) (
        rw (e, h)
          (read_data4 b1 b2 b3 b4 _ tail refl (omega (arith, p.at 1, p.at 2, p.at 3, p.at 4))))

  -- A text that is a push to the pass: its bytes, and what they push.
  pub record ConstantText (t : List ℕ) : Type 0 where
    pub bytes : List ℕ
    pub payload : List ℕ
    pub same_read : read_text t ≡ read_bytes (ok bytes)
    pub decoded : decoded_push_payload t ≡ some payload
    pub constant : Constant bytes payload

  well_formed-form :
      (t bytes : List ℕ)
      → PureHex t bytes
      → is_pure_hex t ≡ true
      → is_well_formed (well_formed_push_size t) ≡ true
      → Form (hex_byte_at t 0) (length bytes) t
  unfolding well_formed_push_size
  well_formed-form t bytes p e h =
      let n : length t / 2 ≡ length bytes = omega (arith, p.as_bytes.size) in
      well_formed_size-Form (hex_byte_at t 0) (length bytes) t (rw (e, n) at h)

  pub well_formed-ConstantText :
      (t : List ℕ) → is_well_formed (well_formed_push_size t) ≡ true → ConstantText t
  unfolding read_text decoded_push_payload
  well_formed-ConstantText t h = elim (Bool-cases (is_pure_hex t)) [
    | inl e ↦
        let (bytes, p) = is_pure_hex-PureHex t e in
        record {
          bytes = bytes;
          payload = payload_of (hex_byte_at t 0) t;
          same_read = ap read_bytes p.decoded;
          decoded = rw h refl;
          constant =
              form_Constant t bytes p (hex_byte_at t 0) (sym (p.at 0))
                (well_formed-form t bytes p e h);
        }
    | inr e ↦ absurd (unfold well_formed_push_size is_well_formed in ground arith)
  ]

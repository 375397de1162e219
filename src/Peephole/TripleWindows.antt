-- ===== src/Peephole/TripleWindows.antt =====
-- Windows of three instructions in src/bytecode_peephole_pass.h, on the machine.
use atomic_proof_interpreter.Prelude.{
  ℕ, ◌≡◌, refl, arith, ap, ◌∙◌, Bool, true, false, ◌&&◌, ◌||◌, some, List, [], ◌∷◌, All,
  if◌then◌else◌, ok, Bool-cases, Result-cases, inl, inr,
}
use atomic_proof_interpreter.Vm.Stack.{Stack}
use atomic_proof_interpreter.Vm.Numeric.{eq_bytes}
use atomic_proof_interpreter.Vm.Machine.{BytOpcode, Instruction, opcode, Signatures, Vm}
use atomic_proof_interpreter.Vm.Text.{read_text}
use atomic_proof_interpreter.Peephole.Text.{is_op, produces_canonical_bool}
use atomic_proof_interpreter.Peephole.Push.{decoded_push_payload}
use atomic_proof_interpreter.Peephole.Rules.{Rewrite, op_hex, is_some, same_payload}
use atomic_proof_interpreter.Peephole.Hex.{and-true}
use atomic_proof_interpreter.Peephole.Windows.{
  is_plain, on_stack, run_stack, Reads, SameStack, same_window,
}
use atomic_proof_interpreter.Peephole.Agreement.{BoolTop, BoolRules, bool_rules}
use atomic_proof_interpreter.Peephole.Producers.{PushOf, producer_read, push-push-equal}
use atomic_proof_interpreter.Peephole.Constants.{IsSolid, ConstantText, well_formed-ConstantText}
use atomic_proof_interpreter.Peephole.Soundness.{
  hex-IsSolid, PlainOp, Reads-op, Reads-cons, Reads-hex, IsSound,
}
use atomic_proof_interpreter.Peephole.Equality.{same_text, decoded-well_formed}

module _ (env : Signatures) (vm : Vm) (a b c : List ℕ) where
  abbrev Sound : Rewrite → Type 0
  Sound r = IsSound env vm (a ∷ b ∷ c ∷ []) r

  -- An instruction and two opcodes, on every stack.
  three :
      (i : Instruction) (o₂ o₃ : BytOpcode) (new : List (List ℕ)) (js : List Instruction)
      → Reads env (a ∷ []) (i ∷ [])
      → PlainOp o₂
      → PlainOp o₃
      → Reads env new js
      → is_op b o₂ ≡ true
      → is_op c o₃ ≡ true
      → SameStack env (i ∷ opcode o₂ ∷ opcode o₃ ∷ []) js vm.main_stack
      → All IsSolid new
      → Sound (some new)
  three i o₂ o₃ new js ra p q r hb hc same solid = (
    same_window env (a ∷ b ∷ c ∷ []) new (i ∷ opcode o₂ ∷ opcode o₃ ∷ []) js vm
        (Reads-cons env a i (b ∷ c ∷ []) (opcode o₂ ∷ opcode o₃ ∷ []) ra (
          Reads-cons env b (opcode o₂) (c ∷ []) (opcode o₃ ∷ []) (Reads-op env b o₂ p hb)
            (Reads-op env c o₃ q hc)))
        r (λ live. same),
    solid,
  )

  -- An instruction that pushes a constant.
  pub record Pushed (t : List ℕ) : Type 0 where
    pub text : ConstantText env t
    pub reads : Reads env (t ∷ []) (text.constant.instruction ∷ [])
    pub pushes : PushOf env text.constant.instruction text.constant.element

  pushed : (t : List ℕ) → IsSolid t → is_some (decoded_push_payload t) ≡ true → Pushed t
  pushed t solid h =
      let k = well_formed-ConstantText env t (decoded-well_formed t h) in
      let r : read_text t ≡ some k.constant.instruction = k.same_read ∙ k.constant.read in
      record {
        text = k;
        reads = (r, k.constant.plain, tt);
        pushes = k.constant.pushes (λ e. solid (r ∙ ap some e));
      }

  and_three : (x y z : Bool) → x && (y && z) ≡ true → (x ≡ true) × (y ≡ true) × (z ≡ true)
  and_three x y z h =
      let (hx, h') = and-true x (y && z) h in let (hy, hz) = and-true y z h' in (hx, hy, hz)

  payload_same :
      (s t : List ℕ) (p : Pushed s) (q : Pushed t)
      → same_payload (decoded_push_payload s) (decoded_push_payload t)
        ≡ eq_bytes p.text.constant.element q.text.constant.element
  unfolding same_payload
  payload_same s t p q =
      let k = p.text.constant in
      let m = q.text.constant in
      rw (p.text.decoded, q.text.decoded, k.text, m.text)
        (same_text k.element m.element k.are_bytes m.are_bytes)

  verdict-Reads :
      (v : Bool)
      → Reads env
          (op_hex (if v then BytOpcode.op_n 1 else BytOpcode.op_0) ∷ [])
          (opcode (if v then BytOpcode.op_n 1 else BytOpcode.op_0) ∷ [])
  unfolding is_plain
  verdict-Reads true = Reads-hex env (BytOpcode.op_n 1) (omega arith, refl)
  verdict-Reads false = Reads-hex env BytOpcode.op_0 (tt, refl)

  verdict-IsSolid :
      (v : Bool) → All IsSolid (op_hex (if v then BytOpcode.op_n 1 else BytOpcode.op_0) ∷ [])
  verdict-IsSolid true = hex-IsSolid (BytOpcode.op_n 1) (omega arith)
  verdict-IsSolid false = hex-IsSolid BytOpcode.op_0 tt

  -- Two constants and OP_EQUAL.
  pub constants-Sound :
      IsSolid a
      → IsSolid b
      → is_some (decoded_push_payload a)
          && (is_some (decoded_push_payload b) && is_op c BytOpcode.equal)
        ≡ true
      → Sound (
          some (
            op_hex (
              if same_payload (decoded_push_payload a) (decoded_push_payload b)
              then BytOpcode.op_n 1
              else BytOpcode.op_0)
            ∷ []))
  constants-Sound sa sb h =
      let (ha, hb, hc) =
        and_three (is_some (decoded_push_payload a)) (is_some (decoded_push_payload b))
          (is_op c BytOpcode.equal) h in
      let p = pushed a sa ha in
      let q = pushed b sb hb in
      let i = p.text.constant.instruction in
      let j = q.text.constant.instruction in
      let verdict = same_payload (decoded_push_payload a) (decoded_push_payload b) in
      let same : verdict ≡ eq_bytes p.text.constant.element q.text.constant.element =
        payload_same a b p q in
      (
        same_window env (a ∷ b ∷ c ∷ []) _ (i ∷ j ∷ opcode BytOpcode.equal ∷ [])
            (opcode (if verdict then BytOpcode.op_n 1 else BytOpcode.op_0) ∷ []) vm
            (Reads-cons env a i (b ∷ c ∷ []) (j ∷ opcode BytOpcode.equal ∷ []) p.reads (
              Reads-cons env b j (c ∷ []) (opcode BytOpcode.equal ∷ []) q.reads
                (Reads-op env c BytOpcode.equal (tt, unfold is_plain in refl) hc)))
            (verdict-Reads verdict)
            (λ live. rw same (
              push-push-equal env i p.text.constant.element p.pushes j q.text.constant.element
                q.pushes vm.main_stack)),
        verdict-IsSolid verdict,
      )

  dup_plain : PlainOp BytOpcode.dup_
  unfolding is_plain
  dup_plain = (tt, refl)

  -- A constant, OP_DUP and an opcode.
  pub dup_rule :
      (o : BytOpcode) (new : List (List ℕ)) (js : Pushed a → List Instruction)
      → PlainOp o
      → IsSolid a
      → ((p : Pushed a) → Reads env new (js p))
      → ((p : Pushed a)
          → SameStack env
              (p.text.constant.instruction ∷ opcode BytOpcode.dup_ ∷ opcode o ∷ [])
              (js p)
              vm.main_stack)
      → All IsSolid new
      → is_some (decoded_push_payload a) && (is_op b BytOpcode.dup_ && is_op c o) ≡ true
      → Sound (some new)
  dup_rule o new js plain sa r same solid h =
      let (ha, hb, hc) =
        and_three (is_some (decoded_push_payload a)) (is_op b BytOpcode.dup_) (is_op c o) h in
      let p = pushed a sa ha in
      three p.text.constant.instruction BytOpcode.dup_ o new (js p) p.reads dup_plain plain (r p) hb
        hc (same p) solid

  -- Behind an instruction that leaves a Boolean, two opcodes that act on it.
  bool_tail :
      (i : Instruction) (is js : List Instruction)
      → ((s s' : Stack) → on_stack env i s ≡ ok s' → BoolTop env s')
      → ((s : Stack) → BoolRules env s → SameStack env is js s)
      → (s : Stack) → SameStack env (i ∷ is) (i ∷ js) s
  unfolding run_stack
  bool_tail i is js ends same s = elim (Result-cases (on_stack env i s)) [
    | inl (s', e) ↦ rw e (same s' (bool_rules env s' (ends s s' e)))
    | inr (x, e) ↦ rw e refl
  ]

  bool_rule :
      (o₂ o₃ : BytOpcode) (new : List (List ℕ)) (js : List Instruction)
      → PlainOp o₂
      → PlainOp o₃
      → Reads env new js
      → ((s : Stack) → BoolRules env s → SameStack env (opcode o₂ ∷ opcode o₃ ∷ []) js s)
      → produces_canonical_bool a ≡ true
      → is_op b o₂ ≡ true
      → is_op c o₃ ≡ true
      → All IsSolid (a ∷ new)
      → Sound (some (a ∷ new))
  bool_rule o₂ o₃ new js p q r same ha hb hc solid =
      let (i, e, plain, ends) = producer_read env a ha in
      three i o₂ o₃ (a ∷ new) (i ∷ js) (e, plain, tt) p q
        (Reads-cons env a i new js (e, plain, tt) r) hb hc
        (bool_tail i (opcode o₂ ∷ opcode o₃ ∷ []) js ends same vm.main_stack) solid

  pub bool_if :
      (o₂ o₃ : BytOpcode) (new : List (List ℕ)) (js : List Instruction)
      → PlainOp o₂
      → PlainOp o₃
      → Reads env new js
      → ((s : Stack) → BoolRules env s → SameStack env (opcode o₂ ∷ opcode o₃ ∷ []) js s)
      → All IsSolid (a ∷ new)
      → produces_canonical_bool a && (is_op b o₂ && is_op c o₃) ≡ true
      → Sound (some (a ∷ new))
  bool_if o₂ o₃ new js p q r same solid h =
      let (ha, hb, hc) = and_three (produces_canonical_bool a) (is_op b o₂) (is_op c o₃) h in
      bool_rule o₂ o₃ new js p q r same ha hb hc solid

  -- The two equalities do the same to Booleans.
  pub bool_equality :
      (o₂ : BytOpcode) (new : List (List ℕ)) (js : List Instruction)
      → PlainOp o₂
      → Reads env new js
      → ((s : Stack)
          → BoolRules env s
          → SameStack env (opcode o₂ ∷ opcode BytOpcode.equal ∷ []) js s)
      → ((s : Stack)
          → BoolRules env s
          → SameStack env (opcode o₂ ∷ opcode BytOpcode.num_equal ∷ []) js s)
      → All IsSolid (a ∷ new)
      → produces_canonical_bool a
          && (is_op b o₂ && (is_op c BytOpcode.equal || is_op c BytOpcode.num_equal))
        ≡ true
      → Sound (some (a ∷ new))
  unfolding is_plain
  bool_equality o₂ new js p r same same' solid h =
      let (ha, hb, hc) =
        and_three (produces_canonical_bool a) (is_op b o₂)
          (is_op c BytOpcode.equal || is_op c BytOpcode.num_equal) h in
      elim (Bool-cases (is_op c BytOpcode.equal)) [
        | inl e ↦ bool_rule o₂ BytOpcode.equal new js p (tt, refl) r same ha hb e solid
        | inr e ↦
            bool_rule o₂ BytOpcode.num_equal new js p (tt, refl) r same' ha hb (rw e at hc) solid
      ]

-- ===== src/Peephole/Verify.antt =====
-- The rules of tryRewritePair of src/bytecode_peephole_pass.h in front of OP_VERIFY.
use atomic_proof_interpreter.Prelude.{
  ℕ, ◌≡◌, refl, arith, Bool, true, ◌&&◌, some, List, [], ◌∷◌, Bool-cases, Result-cases, inl, inr,
}
use atomic_proof_interpreter.Vm.Stack.{Stack, pop, push_int}
use atomic_proof_interpreter.Vm.Numeric.{op_equal, op_numequal, op_verify, flag}
use atomic_proof_interpreter.Vm.Number.{serialize_script_num, set_sign, low_bytes, to_int}
use atomic_proof_interpreter.Vm.Ops.{is_true}
use atomic_proof_interpreter.Vm.Machine.{
  BytOpcode, opcode, Signatures, Vm, main_op, op_checksig, signature_ok, drop_last,
}
use atomic_proof_interpreter.Peephole.Text.{is_op}
use atomic_proof_interpreter.Peephole.Rules.{fused, fused_verify_opcode, replace, verify_rule}
use atomic_proof_interpreter.Peephole.Hex.{and-true}
use atomic_proof_interpreter.Peephole.Windows.{succeeded, is_plain, on_stack, run_stack, SameStack}
use atomic_proof_interpreter.Peephole.Agreement.{one-verify}
use atomic_proof_interpreter.Peephole.Context.{Context}
use atomic_proof_interpreter.Peephole.Soundness.{PlainOp, IsSound, if_IsSound, pair-IsSound}
use atomic_proof_interpreter.Peephole.PairRules.{one_op}

module _ (env : Signatures) where
  abbrev Verifies : BytOpcode → BytOpcode → Type 0
  Verifies o v =
      (s : Stack) → SameStack env (opcode o ∷ opcode BytOpcode.verify ∷ []) (opcode v ∷ []) s

  equal-verify : Verifies BytOpcode.equal BytOpcode.equal_verify
  unfolding run_stack on_stack main_op
  equal-verify s = elim (Result-cases (op_equal s)) [
    | inl (s', e) ↦ rw e refl
    | inr (x, e) ↦ rw e refl
  ]

  num_equal-verify : Verifies BytOpcode.num_equal BytOpcode.num_equal_verify
  unfolding run_stack on_stack main_op
  num_equal-verify s = elim (Result-cases (op_numequal s)) [
    | inl (s', e) ↦ rw e refl
    | inr (x, e) ↦ rw e refl
  ]

  check_sig-verify : Verifies BytOpcode.check_sig BytOpcode.check_sig_verify
  unfolding run_stack on_stack main_op op_checksig op_verify pop push_int flag succeeded
      serialize_script_num set_sign low_bytes to_int is_true
  check_sig-verify [] = refl
  check_sig-verify (a ∷ []) = refl
  check_sig-verify (a ∷ b ∷ s) =
      elim (Bool-cases (signature_ok env.check_sig_callback (drop_last b) a env.inputs_hash)) [
        | inl e ↦ rw e refl
        | inr e ↦ rw e refl
      ]

  check_multisig-verify : Verifies BytOpcode.check_multisig BytOpcode.check_multisig_verify
  unfolding run_stack on_stack main_op
  check_multisig-verify s = refl

  module _ (out : List (List ℕ)) (vm : Vm) (context : Context env out vm) (a b : List ℕ) where
    fused_one :
        (o v : BytOpcode)
        → PlainOp o
        → PlainOp v
        → Verifies o v
        → is_op b BytOpcode.verify ≡ true
        → is_op a o ≡ true
        → IsSound env vm (a ∷ b ∷ []) (fused (some v))
    unfolding fused is_plain replace
    fused_one o v p q same hb ha =
        one_op env out vm context a b o BytOpcode.verify v p (tt, refl) q same (rw (ha, hb) refl)

    fused-IsSound :
        is_op b BytOpcode.verify ≡ true
        → IsSound env vm (a ∷ b ∷ []) (fused (fused_verify_opcode a))
    unfolding fused_verify_opcode is_plain fused
    fused-IsSound hb = elim (Bool-cases (is_op a BytOpcode.equal)) [
      | inl e ↦
          rw e (
            fused_one BytOpcode.equal BytOpcode.equal_verify (tt, refl) (tt, refl) equal-verify hb
              e)
      | inr e ↦ elim (Bool-cases (is_op a BytOpcode.num_equal)) [
        | inl f ↦
            rw (e, f)
              (fused_one BytOpcode.num_equal BytOpcode.num_equal_verify (tt, refl) (tt, refl)
                num_equal-verify hb f)
        | inr f ↦ elim (Bool-cases (is_op a BytOpcode.check_sig)) [
          | inl g ↦
              rw (e, f, g)
                (fused_one BytOpcode.check_sig BytOpcode.check_sig_verify (tt, refl) (tt, refl)
                  check_sig-verify hb g)
          | inr g ↦ elim (Bool-cases (is_op a BytOpcode.check_multisig)) [
            | inl h ↦
                rw (e, f, g, h)
                  (fused_one BytOpcode.check_multisig BytOpcode.check_multisig_verify (tt, refl)
                    (tt, refl) check_multisig-verify hb h)
            | inr h ↦ rw (e, f, g, h) tt
          ]
        ]
      ]
    ]

    pub verify_rule-IsSound :
        (elide : Bool)
        → is_op b BytOpcode.verify ≡ true
        → IsSound env vm (a ∷ b ∷ []) (verify_rule a elide)
    unfolding verify_rule is_plain
    verify_rule-IsSound elide hb =
        if_IsSound env vm (a ∷ b ∷ []) (elide && is_op a (BytOpcode.op_n 1)) (some [])
          (fused (fused_verify_opcode a))
          (λ h.
            let (_, ha) = and-true elide (is_op a (BytOpcode.op_n 1)) h in
            pair-IsSound env vm a b (BytOpcode.op_n 1) BytOpcode.verify [] [] (omega arith, refl)
              (tt, refl) tt (rw (ha, hb) refl) (λ live. one-verify env vm.main_stack) tt)
          (fused-IsSound hb)

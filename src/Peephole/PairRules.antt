-- ===== src/Peephole/PairRules.antt =====
-- tryRewritePair of src/bytecode_peephole_pass.h on the machine, rule for rule.
use atomic_proof_interpreter.Prelude.{
  ℕ, ◌≡◌, ◌≤◌, refl, arith, ap, ◌∙◌, Bool, true, ◌&&◌, some, List, [], ◌∷◌, length,
}
use atomic_proof_interpreter.Vm.Stack.{Stack}
use atomic_proof_interpreter.Vm.Machine.{BytOpcode, opcode, Signatures, Vm, is_currently_executing}
use atomic_proof_interpreter.Vm.Text.{read_text}
use atomic_proof_interpreter.Peephole.Text.{is_op}
use atomic_proof_interpreter.Peephole.Push.{well_formed_push_size, is_well_formed}
use atomic_proof_interpreter.Peephole.Rules.{
  Rewrite, op_hex, after_bool, has_proven_stack_depth, replace, straight_rule,
}
use atomic_proof_interpreter.Peephole.Hex.{and-true}
use atomic_proof_interpreter.Peephole.Windows.{is_plain, SameStack, same_window}
use atomic_proof_interpreter.Peephole.Agreement.{
  over-over, swap-drop, drop-drop, pick_zero, pick_one, roll_one, roll_two, one-add, one-sub,
  minus-add, minus-sub, dup-drop, swap-swap, BoolRules, bool_rules,
}
use atomic_proof_interpreter.Peephole.Producers.{push-drop}
use atomic_proof_interpreter.Peephole.Constants.{IsSolid, well_formed-ConstantText}
use atomic_proof_interpreter.Peephole.Context.{Context}
use atomic_proof_interpreter.Peephole.Soundness.{
  hex-IsSolid, PlainOp, Reads-op, Reads-cons, Reads-hex, IsSound, if_IsSound, pair-IsSound,
}

module _ (env : Signatures) (out : List (List ℕ)) (vm : Vm) (context : Context env out vm) where
  bools : after_bool out ≡ true → is_currently_executing vm ≡ true → BoolRules env vm.main_stack
  bools h live = bool_rules env vm.main_stack (context.bool_top h live)

  deep :
      (n : ℕ)
      → has_proven_stack_depth out n ≡ true
      → is_currently_executing vm ≡ true
      → n ≤ length vm.main_stack
  deep n h live = context.deep n h live

  module _ (a b : List ℕ) where
    abbrev Sound : Rewrite → Type 0
    Sound r = IsSound env vm (a ∷ b ∷ []) r

    -- Two opcodes that become one, on every stack.
    pub one_op :
        (o₁ o₂ o : BytOpcode)
        → PlainOp o₁
        → PlainOp o₂
        → PlainOp o
        → ((s : Stack) → SameStack env (opcode o₁ ∷ opcode o₂ ∷ []) (opcode o ∷ []) s)
        → is_op a o₁ && is_op b o₂ ≡ true
        → Sound (replace o)
    unfolding replace
    one_op o₁ o₂ o p q r same h =
        pair-IsSound env vm a b o₁ o₂ (op_hex o ∷ []) (opcode o ∷ []) p q (Reads-hex env o r) h
          (λ live. same vm.main_stack) (hex-IsSolid o r.0)

    -- The same behind a condition on what has been emitted.
    one_op_if :
        (o₁ o₂ o : BytOpcode) (c : Bool)
        → PlainOp o₁
        → PlainOp o₂
        → PlainOp o
        → (c ≡ true
            → is_currently_executing vm ≡ true
            → SameStack env (opcode o₁ ∷ opcode o₂ ∷ []) (opcode o ∷ []) vm.main_stack)
        → is_op a o₁ && (is_op b o₂ && c) ≡ true
        → Sound (replace o)
    unfolding replace
    one_op_if o₁ o₂ o c p q r same h =
        let (ha, h') = and-true (is_op a o₁) (is_op b o₂ && c) h in
        let (hb, hc) = and-true (is_op b o₂) c h' in
        pair-IsSound env vm a b o₁ o₂ (op_hex o ∷ []) (opcode o ∷ []) p q (Reads-hex env o r)
          (rw (ha, hb) refl) (same hc) (hex-IsSolid o r.0)

    no_op_if :
        (o₁ o₂ : BytOpcode) (c : Bool)
        → PlainOp o₁
        → PlainOp o₂
        → (c ≡ true
            → is_currently_executing vm ≡ true
            → SameStack env (opcode o₁ ∷ opcode o₂ ∷ []) [] vm.main_stack)
        → is_op a o₁ && (is_op b o₂ && c) ≡ true
        → Sound (some [])
    no_op_if o₁ o₂ c p q same h =
        let (ha, h') = and-true (is_op a o₁) (is_op b o₂ && c) h in
        let (hb, hc) = and-true (is_op b o₂) c h' in
        pair-IsSound env vm a b o₁ o₂ [] [] p q tt (rw (ha, hb) refl) (same hc) tt

    push_drop :
        IsSolid a
        → is_well_formed (well_formed_push_size a) && is_op b BytOpcode.drop ≡ true
        → Sound (some [])
    push_drop solid h =
        let (ha, hb) =
          and-true (is_well_formed (well_formed_push_size a)) (is_op b BytOpcode.drop) h in
        let c = well_formed-ConstantText env a ha in
        let i = c.constant.instruction in
        let r : read_text a ≡ some i = c.same_read ∙ c.constant.read in
        let p = c.constant.pushes (λ e. solid (r ∙ ap some e)) in
        (
          same_window env (a ∷ b ∷ []) [] (i ∷ opcode BytOpcode.drop ∷ []) [] vm
              (Reads-cons env a i (b ∷ []) (opcode BytOpcode.drop ∷ []) (r, c.constant.plain, tt)
                (Reads-op env b BytOpcode.drop (tt, unfold is_plain in refl) hb))
              tt (λ live. push-drop env i c.constant.element p vm.main_stack),
          tt,
        )

    abbrev n : ℕ → BytOpcode
    n k = BytOpcode.op_n k

    -- Each rule for two instructions in a row leaves what the machine does as it was.
    pub straight_rule-Sound : IsSolid a → Sound (straight_rule a b out)
    unfolding straight_rule is_plain
    straight_rule-Sound solid =
        if_IsSound env vm (a ∷ b ∷ []) _ _ _
          (one_op (n 1) BytOpcode.add BytOpcode.add_one (omega arith, refl) (tt, refl) (tt, refl)
            (one-add env))
          (if_IsSound env vm (a ∷ b ∷ []) _ _ _
            (one_op (n 1) BytOpcode.sub BytOpcode.sub_one (omega arith, refl) (tt, refl) (tt, refl)
              (one-sub env))
            (if_IsSound env vm (a ∷ b ∷ []) _ _ _
              (one_op BytOpcode.op_1negate BytOpcode.add BytOpcode.sub_one (tt, refl) (tt, refl)
                (tt, refl) (minus-add env))
              (if_IsSound env vm (a ∷ b ∷ []) _ _ _
                (one_op BytOpcode.op_1negate BytOpcode.sub BytOpcode.add_one (tt, refl) (tt, refl)
                  (tt, refl) (minus-sub env))
                (if_IsSound env vm (a ∷ b ∷ []) _ _ _
                  (one_op BytOpcode.swap_ BytOpcode.drop BytOpcode.nip (tt, refl) (tt, refl)
                    (tt, refl) (swap-drop env))
                  (if_IsSound env vm (a ∷ b ∷ []) _ _ _
                    (one_op BytOpcode.over BytOpcode.over BytOpcode.two_dup (tt, refl) (tt, refl)
                      (tt, refl) (over-over env))
                    (if_IsSound env vm (a ∷ b ∷ []) _ _ _
                      (one_op BytOpcode.op_0 BytOpcode.pick BytOpcode.dup_ (tt, refl) (tt, refl)
                        (tt, refl) (pick_zero env))
                      (if_IsSound env vm (a ∷ b ∷ []) _ _ _
                        (one_op (n 1) BytOpcode.pick BytOpcode.over (omega arith, refl) (tt, refl)
                          (tt, refl) (pick_one env))
                        (if_IsSound env vm (a ∷ b ∷ []) _ _ _
                          (one_op (n 1) BytOpcode.roll BytOpcode.swap_ (omega arith, refl)
                            (tt, refl) (tt, refl) (roll_one env))
                          (if_IsSound env vm (a ∷ b ∷ []) _ _ _
                            (one_op (n 2) BytOpcode.roll BytOpcode.rot (omega arith, refl)
                              (tt, refl) (tt, refl) (roll_two env))
                            (if_IsSound env vm (a ∷ b ∷ []) _ _ _ (push_drop solid) (
                              if_IsSound env vm (a ∷ b ∷ []) _ _ _
                                (no_op_if BytOpcode.dup_ BytOpcode.drop
                                  (has_proven_stack_depth out 1) (tt, refl) (tt, refl)
                                  (λ h live. dup-drop env vm.main_stack (deep 1 h live)))
                                (if_IsSound env vm (a ∷ b ∷ []) _ _ _
                                  (no_op_if BytOpcode.swap_ BytOpcode.swap_
                                    (has_proven_stack_depth out 2) (tt, refl) (tt, refl)
                                    (λ h live. swap-swap env vm.main_stack (deep 2 h live)))
                                  (if_IsSound env vm (a ∷ b ∷ []) _ _ _
                                    (one_op_if BytOpcode.not_ BytOpcode.not_
                                      BytOpcode.zero_not_equal (after_bool out) (tt, refl)
                                      (tt, refl) (tt, refl)
                                      (λ h live. (bools h live).not-not_numeric))
                                    (if_IsSound env vm (a ∷ b ∷ []) _ _ _
                                      (one_op BytOpcode.drop BytOpcode.drop BytOpcode.two_drop
                                        (tt, refl) (tt, refl) (tt, refl) (drop-drop env))
                                      (if_IsSound env vm (a ∷ b ∷ []) _ _ _
                                        (one_op_if BytOpcode.op_0 BytOpcode.equal BytOpcode.not_
                                          (after_bool out) (tt, refl) (tt, refl) (tt, refl)
                                          (λ h live. (bools h live).zero-equal))
                                        (if_IsSound env vm (a ∷ b ∷ []) _ _ _
                                          (one_op_if BytOpcode.op_0 BytOpcode.num_equal
                                            BytOpcode.not_ (after_bool out) (tt, refl) (tt, refl)
                                            (tt, refl) (λ h live. (bools h live).zero-num_equal))
                                          tt))))))))))))))))

-- ===== src/Peephole/TripleRules.antt =====
-- tryRewriteTriple of src/bytecode_peephole_pass.h on the machine, rule for rule.
use atomic_proof_interpreter.Prelude.{ℕ, refl, arith, none, some, List, [], ◌∷◌}
use atomic_proof_interpreter.Vm.Machine.{BytOpcode, opcode, Signatures, Vm}
use atomic_proof_interpreter.Peephole.Rules.{
  Rewrite, op_hex, triple_rule, when_smaller, triple_rewrite_is_strictly_smaller,
  try_rewrite_triple,
}
use atomic_proof_interpreter.Peephole.Windows.{is_plain}
use atomic_proof_interpreter.Peephole.Producers.{push-dup-drop, push-dup-two_drop, push-dup-equal}
use atomic_proof_interpreter.Peephole.Constants.{IsSolid}
use atomic_proof_interpreter.Peephole.Soundness.{hex-IsSolid, Reads-hex, IsSound, if_IsSound}
use atomic_proof_interpreter.Peephole.TripleWindows.{
  constants-Sound, dup_rule, bool_if, bool_equality,
}

module _ (env : Signatures) (vm : Vm) (a b c : List ℕ) where
  abbrev Sound : Rewrite → Type 0
  Sound r = IsSound env vm (a ∷ b ∷ c ∷ []) r

  triple_rule-Sound : IsSolid a → IsSolid b → Sound (triple_rule a b c)
  unfolding triple_rule is_plain
  triple_rule-Sound sa sb =
      if_IsSound env vm (a ∷ b ∷ c ∷ []) _ _ _ (constants-Sound env vm a b c sa sb) (
        if_IsSound env vm (a ∷ b ∷ c ∷ []) _ _ _
          (dup_rule env vm a b c BytOpcode.equal _ (λ p. opcode (BytOpcode.op_n 1) ∷ []) (tt, refl)
            sa (λ p. Reads-hex env (BytOpcode.op_n 1) (omega arith, refl))
            (λ p.
              push-dup-equal env p.text.constant.instruction p.text.constant.element p.pushes
                vm.main_stack)
            (hex-IsSolid (BytOpcode.op_n 1) (omega arith)))
          (if_IsSound env vm (a ∷ b ∷ c ∷ []) _ _ _
            (dup_rule env vm a b c BytOpcode.drop _ (λ p. p.text.constant.instruction ∷ [])
              (tt, refl) sa (λ p. p.reads)
              (λ p.
                push-dup-drop env p.text.constant.instruction p.text.constant.element p.pushes
                  vm.main_stack)
              (sa, tt))
            (if_IsSound env vm (a ∷ b ∷ c ∷ []) _ _ _
              (dup_rule env vm a b c BytOpcode.two_drop _ (λ p. []) (tt, refl) sa (λ p. tt)
                (λ p.
                  push-dup-two_drop env p.text.constant.instruction p.text.constant.element p.pushes
                    vm.main_stack)
                tt)
              (if_IsSound env vm (a ∷ b ∷ c ∷ []) _ _ _
                (bool_if env vm a b c BytOpcode.not_ BytOpcode.not_ [] [] (tt, refl) (tt, refl) tt
                  (λ s r. r.not-not) (sa, tt))
                (if_IsSound env vm (a ∷ b ∷ c ∷ []) _ _ _
                  (bool_equality env vm a b c (BytOpcode.op_n 1) [] [] (omega arith, refl) tt
                    (λ s r. r.one-equal) (λ s r. r.one-num_equal) (sa, tt))
                  (if_IsSound env vm (a ∷ b ∷ c ∷ []) _ _ _
                    (bool_equality env vm a b c BytOpcode.op_0 (op_hex BytOpcode.not_ ∷ [])
                      (opcode BytOpcode.not_ ∷ []) (tt, refl)
                      (Reads-hex env BytOpcode.not_ (tt, refl)) (λ s r. r.zero-equal)
                      (λ s r. r.zero-num_equal) (sa, hex-IsSolid BytOpcode.not_ tt))
                    (if_IsSound env vm (a ∷ b ∷ c ∷ []) _ _ _
                      (bool_if env vm a b c BytOpcode.op_0 BytOpcode.num_not_equal [] [] (tt, refl)
                        (tt, refl) tt (λ s r. r.zero-num_not_equal) (sa, tt))
                      (if_IsSound env vm (a ∷ b ∷ c ∷ []) _ _ _
                        (bool_if env vm a b c (BytOpcode.op_n 1) BytOpcode.num_not_equal
                          (op_hex BytOpcode.not_ ∷ []) (opcode BytOpcode.not_ ∷ [])
                          (omega arith, refl) (tt, refl) (Reads-hex env BytOpcode.not_ (tt, refl))
                          (λ s r. r.one-num_not_equal) (sa, hex-IsSolid BytOpcode.not_ tt))
                        tt))))))))

  when_smaller-Sound : (r : Rewrite) → Sound r → Sound (when_smaller a b c r)
  unfolding when_smaller
  when_smaller-Sound none h = tt
  when_smaller-Sound (some new) h =
      if_IsSound env vm (a ∷ b ∷ c ∷ []) (triple_rewrite_is_strictly_smaller a b c new) (some new)
        none (λ e. h) tt

  -- In every state, whatever tryRewriteTriple puts in place of three instructions does what they
  -- do: both runs fail, or both end in the same state. The first two may not be an OP_PUSHDATA
  -- without payload; nor is any text that is written.
  pub try_rewrite_triple-Sound : IsSolid a → IsSolid b → Sound (try_rewrite_triple a b c)
  unfolding try_rewrite_triple
  try_rewrite_triple-Sound sa sb = when_smaller-Sound (triple_rule a b c) (triple_rule-Sound sa sb)

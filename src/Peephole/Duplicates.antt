-- ===== src/Peephole/Duplicates.antt =====
-- isProfitableDuplicatePush of src/bytecode_peephole_pass.h on the machine: the second of two equal
-- pushes may be OP_DUP.
use atomic_proof_interpreter.Prelude.{
  ℕ, ◌≡◌, refl, arith, ap, sym, ◌∙◌, true, false, Option, none, some, List, [], ◌∷◌, err,
  Option-cases, Result-cases, inl, inr,
}
use atomic_proof_interpreter.Script.Hex.{ScriptCodecError}
use atomic_proof_interpreter.Script.Codec.{decode_push_hex, eq_text}
use atomic_proof_interpreter.Vm.Machine.{BytOpcode, Instruction, opcode, Signatures, Vm}
use atomic_proof_interpreter.Vm.Text.{read_text}
use atomic_proof_interpreter.Peephole.Push.{
  LocalRewriteOptions, known_placeholder_push_size, is_profitable, is_profitable_duplicate_push,
}
use atomic_proof_interpreter.Peephole.Rules.{op_hex}
use atomic_proof_interpreter.Peephole.Hex.{and-true}
use atomic_proof_interpreter.Peephole.Windows.{is_plain, SameRun, same_window}
use atomic_proof_interpreter.Peephole.Producers.{push-dup}
use atomic_proof_interpreter.Peephole.Constants.{IsSolid}
use atomic_proof_interpreter.Peephole.Equality.{eq_text→eq}
use atomic_proof_interpreter.Peephole.Soundness.{Reads-cons, Reads-hex}
use atomic_proof_interpreter.Peephole.Decoded.{Pushes, decoded-Pushes}
use atomic_proof_interpreter.Peephole.Placeholders.{
  PlaceholdersPush, placeholder_read, placeholder_twice,
}

module _ (env : Signatures) (options : LocalRewriteOptions) where
  -- What is no push is a placeholder of known size.
  placeholder_profitable :
      (t : List ℕ) (x : ScriptCodecError)
      → is_profitable (err x) t options ≡ true
      → (n : ℕ) × (known_placeholder_push_size t options ≡ some n)
  unfolding is_profitable
  placeholder_profitable t x h = elim (Option-cases (known_placeholder_push_size t options)) [
    | inl f ↦ absurd (let y = rw (is_profitable, f) at h in grind arith)
    | inr (n, f) ↦ (n, f)
  ]

  twice_pushed :
      (t : List ℕ) (o : Option Instruction) (vm : Vm)
      → read_text t ≡ o
      → Pushes env o
      → IsSolid t
      → SameRun env (t ∷ t ∷ []) (t ∷ op_hex BytOpcode.dup_ ∷ []) vm
  unfolding is_plain
  twice_pushed t none vm e p solid = absurd p
  twice_pushed t (some i) vm e p solid =
      same_window env (t ∷ t ∷ []) (t ∷ op_hex BytOpcode.dup_ ∷ []) (i ∷ i ∷ [])
        (i ∷ opcode BytOpcode.dup_ ∷ []) vm
        (Reads-cons env t i (t ∷ []) (i ∷ []) (e, p.plain, tt) (e, p.plain, tt))
        (Reads-cons env t i (op_hex BytOpcode.dup_ ∷ []) (opcode BytOpcode.dup_ ∷ [])
          (e, p.plain, tt) (Reads-hex env BytOpcode.dup_ (tt, refl)))
        (λ live. push-dup env i p.element (p.pushes (λ x. solid (e ∙ ap some x))) vm.main_stack)

  -- Where isProfitableDuplicatePush holds of two texts and the first is no OP_PUSHDATA without
  -- payload, the first followed by OP_DUP does in every state what the two do, a push or a
  -- placeholder of known size. Such placeholders are taken to stand for the push of one element each.
  pub is_profitable_duplicate_push-SameRun :
      (a b : List ℕ) (vm : Vm)
      → PlaceholdersPush env options
      → is_profitable_duplicate_push a b options ≡ true
      → IsSolid a
      → SameRun env (a ∷ b ∷ []) (a ∷ op_hex BytOpcode.dup_ ∷ []) vm
  unfolding is_profitable_duplicate_push
  is_profitable_duplicate_push-SameRun a b vm known h solid =
      let (hs, hp) = and-true (eq_text a b) (is_profitable (decode_push_hex a false) a options) h in
      let same : b ≡ a = sym (eq_text→eq a b hs) in
      rw same (elim (Result-cases (decode_push_hex a false)) [
        | inl (d, e) ↦ twice_pushed a (read_text a) vm refl (decoded-Pushes env a d e) solid
        | inr (x, e) ↦
            let (n, f) = placeholder_profitable a x (rw e at hp) in
            let (p, pushes) = known a n f in
            placeholder_twice env a p (placeholder_read a options n f) pushes vm
      ])

-- ===== src/Peephole/Soundness.antt =====
-- When a window of src/bytecode_peephole_pass.h may be replaced: behind the instructions emitted so
-- far, the machine does the same with the window and with its replacement.
use atomic_proof_interpreter.Prelude.{
  ℕ, ◌≡◌, refl, arith, sym, ◌∙◌, Bool, true, false, ◌&&◌, none, some, List, [], ◌∷◌, All,
  if◌then◌else◌,
}
use atomic_proof_interpreter.Vm.Machine.{
  BytOpcode, Instruction, opcode, Signatures, Vm, is_currently_executing,
}
use atomic_proof_interpreter.Vm.Opcodes.{IsOpcode, read_text-opcode_to_hex}
use atomic_proof_interpreter.Peephole.Text.{is_op}
use atomic_proof_interpreter.Peephole.Rules.{Rewrite, op_hex, or_else}
use atomic_proof_interpreter.Peephole.Hex.{and-true}
use atomic_proof_interpreter.Peephole.Reads.{is_op-read}
use atomic_proof_interpreter.Peephole.Constants.{IsSolid}
use atomic_proof_interpreter.Peephole.Windows.{is_plain, Reads, SameRun, SameStack, same_window}

-- The opcodes that are written are no empty OP_PUSHDATA.
pub hex-IsSolid : (o : BytOpcode) → IsOpcode o → All IsSolid (op_hex o ∷ [])
hex-IsSolid o h = (λ e. let x = sym (read_text-opcode_to_hex o h) ∙ e in grind arith, tt)

-- An opcode that works on the main stack alone.
abbrev pub PlainOp : BytOpcode → Type 0
PlainOp o = IsOpcode o × (is_plain (opcode o) ≡ true)

module _ (env : Signatures) where
  pub Reads-op :
      (t : List ℕ) (o : BytOpcode)
      → PlainOp o
      → is_op t o ≡ true
      → Reads env (t ∷ []) (opcode o ∷ [])
  Reads-op t o (h, p) e = (is_op-read t o e h, p, tt)

  pub Reads-cons :
      (t : List ℕ) (i : Instruction) (ts : List (List ℕ)) (is : List Instruction)
      → Reads env (t ∷ []) (i ∷ [])
      → Reads env ts is
      → Reads env (t ∷ ts) (i ∷ is)
  Reads-cons t i ts is (e, p, _) r = (e, p, r)

  pub Reads-hex : (o : BytOpcode) → PlainOp o → Reads env (op_hex o ∷ []) (opcode o ∷ [])
  Reads-hex o (h, p) = (read_text-opcode_to_hex o h, p, tt)

  -- A rewrite that the machine does not notice in the state, and that leaves the next rules sound.
  abbrev pub IsSound : Vm → List (List ℕ) → Rewrite → Type 0
  IsSound vm old none = Unit
  IsSound vm old (some new) = SameRun env old new vm × All IsSolid new

  module _ (vm : Vm) (old : List (List ℕ)) where
    pub if_IsSound :
        (c : Bool) (x y : Rewrite)
        → (c ≡ true → IsSound vm old x)
        → IsSound vm old y
        → IsSound vm old (if c then x else y)
    if_IsSound true x y h k = h refl
    if_IsSound false x y h k = k

    pub or_else-IsSound :
        (x y : Rewrite) → IsSound vm old x → IsSound vm old y → IsSound vm old (or_else x y)
    unfolding or_else
    or_else-IsSound none y h k = k
    or_else-IsSound (some r) y h k = h

  -- Two opcodes, and what stands in their place.
  pub pair-IsSound :
      (vm : Vm) (a b : List ℕ) (o₁ o₂ : BytOpcode) (new : List (List ℕ)) (js : List Instruction)
      → PlainOp o₁
      → PlainOp o₂
      → Reads env new js
      → is_op a o₁ && is_op b o₂ ≡ true
      → (is_currently_executing vm ≡ true
          → SameStack env (opcode o₁ ∷ opcode o₂ ∷ []) js vm.main_stack)
      → All IsSolid new
      → IsSound vm (a ∷ b ∷ []) (some new)
  pair-IsSound vm a b o₁ o₂ new js p q r h same solid =
      let (ha, hb) = and-true (is_op a o₁) (is_op b o₂) h in
      let r' =
        Reads-cons a (opcode o₁) (b ∷ []) (opcode o₂ ∷ []) (Reads-op a o₁ p ha)
          (Reads-op b o₂ q hb) in
      (same_window env (a ∷ b ∷ []) new (opcode o₁ ∷ opcode o₂ ∷ []) js vm r' r same, solid)

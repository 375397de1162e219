-- ===== src/Peephole/Placeholders.antt =====
-- The placeholders of src/bytecode_peephole_pass.h on the machine.
use atomic_proof_interpreter.Prelude.{
  ℕ, ◌%◌, ◌≡◌, refl, arith, ap, sym, ◌∙◌, false, none, some, List, [], ◌∷◌, length, ◌==◌,
  if◌then◌else◌, ok, err, Bool-cases, Option-cases, inl, inr,
}
use atomic_proof_interpreter.Script.Hex.{
  ScriptCodecError, hex_to_bytes, hex_pairs, remove_prefix, hex_digit, hex_pair, cons_byte,
}
use atomic_proof_interpreter.Vm.Opcodes.{read_text-opcode_to_hex}
use atomic_proof_interpreter.Vm.Number.{Element}
use atomic_proof_interpreter.Vm.Stack.{dup}
use atomic_proof_interpreter.Vm.Machine.{
  BytOpcode, Signatures, Vm, main_op, going, returns, execute_opcode, is_control_flow, dispatch,
  on_main, is_currently_executing,
}
use atomic_proof_interpreter.Vm.Text.{
  read_text, read_bytes, run_instruction, run_script, text_returns,
}
use atomic_proof_interpreter.Peephole.Push.{
  LocalRewriteOptions, label_of, known_payload, placeholder_size, known_placeholder_push_size,
}
use atomic_proof_interpreter.Peephole.Rules.{op_hex}
use atomic_proof_interpreter.Peephole.Windows.{succeeded, SameRun}

angle_pairs : (d : ℕ) (s : List ℕ) → hex_pairs (b'<' ∷ d ∷ s) ≡ err ScriptCodecError.invalid_hex
unfolding hex_pairs hex_digit hex_pair cons_byte
angle_pairs d s = refl

-- A placeholder's text is no instruction.
angle_read : (s : List ℕ) → read_text (b'<' ∷ s) ≡ none
unfolding read_text hex_to_bytes read_bytes remove_prefix
angle_read [] = refl
angle_read (d ∷ s) =
    let some_text : (length (b'<' ∷ d ∷ s) == 0) ≡ false = ground arith in
    elim (Bool-cases (length (b'<' ∷ d ∷ s) % 2 == 0)) [
      | inl e ↦ rw (e, some_text, angle_pairs d s) refl
      | inr e ↦ rw (e, some_text) refl
    ]

label_read : (t l : List ℕ) → label_of t ≡ some l → read_text t ≡ none
label_read [] l h = absurd (unfold label_of in grind arith)
label_read (c ∷ s) l h = let e : c ≡ b'<' = unfold label_of in ground arith in rw e (angle_read s)

pub placeholder_read :
    (t : List ℕ) (options : LocalRewriteOptions) (n : ℕ)
    → known_placeholder_push_size t options ≡ some n
    → read_text t ≡ none
unfolding known_placeholder_push_size known_payload placeholder_size
placeholder_read t options n h = elim (Option-cases (label_of t)) [
  | inl e ↦ absurd (let y = rw e at h in grind arith)
  | inr (l, e) ↦ label_read t l e
]

-- The state behind a push, or behind a push that is skipped.
abbrev pub pushed : Element → Vm → Vm
pushed e vm = if is_currently_executing vm then record vm { main_stack = e ∷ vm.main_stack } else vm

-- Each placeholder of known size stands for the push of one element, which takes its place before
-- the script runs.
abbrev pub PlaceholdersPush : Signatures → LocalRewriteOptions → Type 0
PlaceholdersPush env options =
    (t : List ℕ) (n : ℕ)
    → known_placeholder_push_size t options ≡ some n
    → (e : Element) × ((vm : Vm) → env.foreign t vm ≡ ok (pushed e vm))

module _ (env : Signatures) (t : List ℕ) (e : Element) (reads : read_text t ≡ none)
    (pushes : (vm : Vm) → env.foreign t vm ≡ ok (pushed e vm)) where
  run_placeholder :
      (ts : List (List ℕ)) (vm : Vm) → run_script env (t ∷ ts) vm ≡ run_script env ts (pushed e vm)
  unfolding run_script run_instruction text_returns
  run_placeholder ts vm = rw (reads, pushes vm) refl

  run_end : (vm : Vm) → run_script env [] vm ≡ ok (going vm)
  unfolding run_script
  run_end vm = refl

  run_dup :
      (vm : Vm)
      → run_script env (op_hex BytOpcode.dup_ ∷ []) (pushed e vm)
        ≡ ok (going (pushed e (pushed e vm)))
  unfolding run_script run_instruction text_returns returns execute_opcode is_control_flow dispatch
      on_main main_op dup is_currently_executing
  run_dup vm =
      rw (read_text-opcode_to_hex BytOpcode.dup_ tt)
        (elim (Bool-cases (is_currently_executing vm)) [
          | inl live ↦ rw live (rw live refl)
          | inr dead ↦ rw dead (rw dead refl)
        ])

  pub placeholder_twice : (vm : Vm) → SameRun env (t ∷ t ∷ []) (t ∷ op_hex BytOpcode.dup_ ∷ []) vm
  placeholder_twice vm = ap succeeded (
      run_placeholder (t ∷ []) vm
      ∙ run_placeholder [] (pushed e vm)
      ∙ run_end (pushed e (pushed e vm))
      ∙ sym (run_dup vm)
      ∙ sym (run_placeholder (op_hex BytOpcode.dup_ ∷ []) vm))

-- ===== src/Peephole/Windows.antt =====
-- Runs of the machine over a window of instructions that work on the main stack alone, for the rules
-- of src/bytecode_peephole_pass.h.
use atomic_proof_interpreter.Prelude.{
  ℕ, ◌≡◌, refl, arith, ap, sym, ◌∙◌, Bool, true, false, Option, none, some, List, [], ◌∷◌, Result,
  ok, err, ◌>>=◌, Bool-cases, Result-cases, inl, inr,
}
use atomic_proof_interpreter.Vm.Stack.{Stack, Outcome}
use atomic_proof_interpreter.Vm.Ops.{op_push}
use atomic_proof_interpreter.Vm.Machine.{
  if_, notif, else_, endif, return_, to_alt_stack, from_alt_stack, Instruction, opcode, push_data,
  Signatures, Vm, is_currently_executing, is_control_flow, on_main, main_op, dispatch,
  execute_opcode, going, returns,
}
use atomic_proof_interpreter.Vm.Text.{
  read_text, run_instruction, run_texts, run_script, text_returns,
}

-- A run's final state, whatever the error where there is none.
unfoldable pub succeeded {ℓ} : {E A : Type ℓ} → Result E A → Option A
succeeded (ok a) = some a
succeeded (err e) = none

pub succeeded-bind {ℓ} :
    {E A B : Type ℓ} (r s : Result E A) (f g : A → Result E B)
    → succeeded r ≡ succeeded s
    → ((a : A) → r ≡ ok a → succeeded (f a) ≡ succeeded (g a))
    → succeeded (r >>= f) ≡ succeeded (s >>= g)
unfolding succeeded
succeeded-bind (ok a) (ok b) f g h k = k a refl ∙ ap (λ x. succeeded (g x)) (grind arith)
succeeded-bind (ok a) (err e) f g h k = absurd (grind arith)
succeeded-bind (err e) (ok a) f g h k = absurd (grind arith)
succeeded-bind (err e) (err d) f g h k = refl

-- The instructions that touch the main stack and nothing else.
unfoldable pub is_plain : Instruction → Bool
is_plain (opcode if_) = false
is_plain (opcode notif) = false
is_plain (opcode else_) = false
is_plain (opcode endif) = false
is_plain (opcode return_) = false
is_plain (opcode to_alt_stack) = false
is_plain (opcode from_alt_stack) = false
is_plain _ = true

module _ (env : Signatures) where
  unfoldable pub on_stack : Instruction → Stack → Outcome
  on_stack (opcode op) s = main_op env op s
  on_stack (push_data operand) s = op_push operand s

  unfoldable pub run_stack : List Instruction → Stack → Outcome
  unfolding on_stack
  run_stack [] s = ok s
  run_stack (i ∷ is) s = do s' ← on_stack i s; run_stack is s'

  dispatch-plain :
      (i : Instruction) (vm : Vm) → is_plain i ≡ true → dispatch env i vm ≡ on_main (on_stack i) vm
  unfolding is_plain dispatch on_stack
  dispatch-plain (opcode if_) vm h = absurd (ground arith)
  dispatch-plain (opcode notif) vm h = absurd (ground arith)
  dispatch-plain (opcode else_) vm h = absurd (ground arith)
  dispatch-plain (opcode endif) vm h = absurd (ground arith)
  dispatch-plain (opcode return_) vm h = absurd (ground arith)
  dispatch-plain (opcode to_alt_stack) vm h = absurd (ground arith)
  dispatch-plain (opcode from_alt_stack) vm h = absurd (ground arith)
  dispatch-plain i vm h = refl

  no_control : (i : Instruction) → is_plain i ≡ true → is_control_flow i ≡ false
  unfolding is_plain is_control_flow
  no_control (opcode if_) h = absurd (ground arith)
  no_control (opcode notif) h = absurd (ground arith)
  no_control (opcode else_) h = absurd (ground arith)
  no_control (opcode endif) h = absurd (ground arith)
  no_control i h = refl

  pub execute-live :
      (i : Instruction) (vm : Vm)
      → is_plain i ≡ true
      → is_currently_executing vm ≡ true
      → execute_opcode env i vm ≡ on_main (on_stack i) vm
  unfolding execute_opcode
  execute-live i vm h live = rw live (dispatch-plain i vm h)

  pub execute-skipped :
      (i : Instruction) (vm : Vm)
      → is_plain i ≡ true
      → is_currently_executing vm ≡ false
      → execute_opcode env i vm ≡ ok vm
  unfolding execute_opcode
  execute-skipped i vm h dead = rw (dead, no_control i h) refl

  -- Each text is read as the instruction at its place, and all of these are plain.
  abbrev pub Reads : List (List ℕ) → List Instruction → Type 0
  Reads [] [] = Unit
  Reads (t ∷ ts) (i ∷ is) = (read_text t ≡ some i) × (is_plain i ≡ true) × Reads ts is
  Reads _ _ = ⊥

  on_main-bind :
      (f : Stack → Outcome) (g : Stack → Outcome) (vm : Vm)
      → (on_main f vm >>= on_main g) ≡ on_main (λ s. f s >>= g) vm
  unfolding on_main
  on_main-bind f g vm = elim (Result-cases (f vm.main_stack)) [
    | inl (s, e) ↦ rw e refl
    | inr (x, e) ↦ rw e refl
  ]

  -- A window that runs acts on the main stack, and one in a block that does not is passed over.
  pub run_texts-live :
      (ts : List (List ℕ)) (is : List Instruction) (vm : Vm)
      → Reads ts is
      → is_currently_executing vm ≡ true
      → run_texts env ts vm ≡ on_main (run_stack is) vm
  unfolding run_texts run_stack on_main is_currently_executing
  run_texts-live [] [] vm r live = refl
  run_texts-live [] (i ∷ is) vm r live = absurd r
  run_texts-live (t ∷ ts) [] vm r live = absurd r
  run_texts-live (t ∷ ts) (i ∷ is) vm (e, p, r) live =
      let first : run_instruction env t (read_text t) vm ≡ on_main (on_stack i) vm =
        unfold run_instruction in rw e (execute-live i vm p live) in
      elim (Result-cases (on_stack i vm.main_stack)) [
        | inl (s, g) ↦ rw (first, g) (run_texts-live ts is (record vm { main_stack = s }) r live)
        | inr (x, g) ↦ rw (first, g) refl
      ]

  run_texts-skipped :
      (ts : List (List ℕ)) (is : List Instruction) (vm : Vm)
      → Reads ts is
      → is_currently_executing vm ≡ false
      → run_texts env ts vm ≡ ok vm
  unfolding run_texts run_instruction
  run_texts-skipped [] [] vm r dead = refl
  run_texts-skipped [] (i ∷ is) vm r dead = absurd r
  run_texts-skipped (t ∷ ts) [] vm r dead = absurd r
  run_texts-skipped (t ∷ ts) (i ∷ is) vm (e, p, r) dead =
      rw (e, execute-skipped i vm p dead) (run_texts-skipped ts is vm r dead)

  plain_returns : (i : Instruction) (vm : Vm) → is_plain i ≡ true → returns i vm ≡ false
  unfolding is_plain returns
  plain_returns (opcode return_) vm h = absurd (ground arith)
  plain_returns i vm h = refl

  -- A run through plain instructions reaches their end, unless it fails.
  pub run_script-plain :
      (ts : List (List ℕ)) (is : List Instruction) (vm : Vm)
      → Reads ts is
      → run_script env ts vm ≡ (run_texts env ts vm >>= λ w. ok (going w))
  unfolding run_script run_texts text_returns
  run_script-plain [] [] vm r = refl
  run_script-plain [] (i ∷ is) vm r = absurd r
  run_script-plain (t ∷ ts) [] vm r = absurd r
  run_script-plain (t ∷ ts) (i ∷ is) vm (e, p, r) =
      elim (Result-cases (run_instruction env t (read_text t) vm)) [
        | inl (w, g) ↦ rw (g, e, plain_returns i vm p) (run_script-plain ts is w r)
        | inr (x, g) ↦ rw g refl
      ]

  -- Both runs fail, or both end in the same state and at the same OP_RETURN, if at any.
  abbrev pub SameRun : List (List ℕ) → List (List ℕ) → Vm → Type 0
  SameRun ts us vm = succeeded (run_script env ts vm) ≡ succeeded (run_script env us vm)

  abbrev pub SameStack : List Instruction → List Instruction → Stack → Type 0
  SameStack is js s = succeeded (run_stack is s) ≡ succeeded (run_stack js s)

  same_main :
      (f g : Stack → Outcome) (vm : Vm)
      → succeeded (f vm.main_stack) ≡ succeeded (g vm.main_stack)
      → succeeded (on_main f vm) ≡ succeeded (on_main g vm)
  unfolding on_main
  same_main f g vm h = succeeded-bind (f vm.main_stack) (g vm.main_stack) _ _ h (λ a e. refl)

  same_texts :
      (ts us : List (List ℕ)) (is js : List Instruction) (vm : Vm)
      → Reads ts is
      → Reads us js
      → succeeded (run_texts env ts vm) ≡ succeeded (run_texts env us vm)
      → SameRun ts us vm
  same_texts ts us is js vm r q h =
      ap succeeded (run_script-plain ts is vm r)
      ∙ succeeded-bind (run_texts env ts vm) (run_texts env us vm) _ _ h (λ a e. refl)
      ∙ sym (ap succeeded (run_script-plain us js vm q))

  -- Windows of plain instructions that agree on the main stack agree on the machine.
  pub same_window :
      (ts us : List (List ℕ)) (is js : List Instruction) (vm : Vm)
      → Reads ts is
      → Reads us js
      → (is_currently_executing vm ≡ true → SameStack is js vm.main_stack)
      → SameRun ts us vm
  same_window ts us is js vm r q h =
      same_texts ts us is js vm r q (elim (Bool-cases (is_currently_executing vm)) [
        | inl live ↦
            ap succeeded (run_texts-live ts is vm r live)
            ∙ same_main (run_stack is) (run_stack js) vm (h live)
            ∙ sym (ap succeeded (run_texts-live us js vm q live))
        | inr dead ↦
            ap succeeded (run_texts-skipped ts is vm r dead)
            ∙ sym (ap succeeded (run_texts-skipped us js vm q dead))
      ])

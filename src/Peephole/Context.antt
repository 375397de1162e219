-- ===== src/Peephole/Context.antt =====
-- What the rules of src/bytecode_peephole_pass.h may rely on behind the instructions emitted so far:
-- a Boolean on top (producesCanonicalBool), and a depth (hasProvenStackDepth).
use atomic_proof_interpreter.Prelude.{
  ℕ, ◌+◌, ◌-◌, ◌≡◌, ◌≢◌, ◌≤◌, refl, arith, ap, sym, subst, ◌∙◌, true, false, ◌||◌, some, List, [],
  ◌∷◌, length, ltb, ◌==◌, if◌then◌else◌, ok, Bool-cases, Result-cases, ok_injective, inl, inr,
}
use atomic_proof_interpreter.Vm.Stack.{Stack, Outcome, dup, drop_top, swap}
use atomic_proof_interpreter.Vm.Machine.{
  BytOpcode, Instruction, opcode, push_data, Signatures, Vm, is_currently_executing, on_main,
  main_op,
}
use atomic_proof_interpreter.Vm.Ops.{op_push}
use atomic_proof_interpreter.Vm.Text.{read_text, run_instruction, run_texts}
use atomic_proof_interpreter.Peephole.Text.{is_op, is_inert, is_control_flow}
use atomic_proof_interpreter.Peephole.Push.{well_formed_push_size, is_well_formed}
use atomic_proof_interpreter.Peephole.Rules.{
  after_bool, depth_after, proven_depth, has_proven_stack_depth,
}
use atomic_proof_interpreter.Peephole.Reads.{is_op-read}
use atomic_proof_interpreter.Peephole.Windows.{is_plain, on_stack, execute-live, execute-skipped}
use atomic_proof_interpreter.Peephole.Agreement.{BoolTop}
use atomic_proof_interpreter.Peephole.Producers.{producer_read}
use atomic_proof_interpreter.Peephole.Constants.{well_formed-ConstantText}

module _ (env : Signatures) where
  ok_eq :
      (f : Stack → Outcome) (vm vm' : Vm)
      → on_main f vm ≡ ok vm'
      → is_currently_executing vm ≡ true
      → (is_currently_executing vm' ≡ true) × (f vm.main_stack ≡ ok vm'.main_stack)
  unfolding on_main is_currently_executing
  ok_eq f vm vm' h live = elim (Result-cases (f vm.main_stack)) [
    | inl (s, e) ↦
        let g : record vm { main_stack = s } ≡ vm' = ok_injective _ vm' (rw e at h) in
        (rw (sym g) live, e ∙ ap (λ w. ok w.main_stack) g)
    | inr (x, e) ↦ absurd (let y = rw e at h in grind arith)
  ]

  -- A plain instruction that ran, in a block that executes.
  plain_step :
      (t : List ℕ) (i : Instruction) (vm vm' : Vm)
      → read_text t ≡ some i
      → is_plain i ≡ true
      → run_instruction env t (read_text t) vm ≡ ok vm'
      → is_currently_executing vm' ≡ true
      → (is_currently_executing vm ≡ true) × (on_stack env i vm.main_stack ≡ ok vm'.main_stack)
  unfolding run_instruction
  plain_step t i vm vm' r p h live' = elim (Bool-cases (is_currently_executing vm)) [
    | inl live ↦
        let g : on_main (on_stack env i) vm ≡ ok vm' =
          sym (execute-live env i vm p live) ∙ (rw r at h) in
        (live, (ok_eq (on_stack env i) vm vm' g live).1)
    | inr dead ↦
        let same : vm ≡ vm' =
          ok_injective vm vm' (sym (execute-skipped env i vm p dead) ∙ (rw r at h)) in
        absurd (let x : is_currently_executing vm ≡ true = rw same live' in ground arith)
  ]

  run_split :
      (t : List ℕ) (ts : List (List ℕ)) (vm vm' : Vm)
      → run_texts env (t ∷ ts) vm ≡ ok vm'
      → (w : Vm) × (run_instruction env t (read_text t) vm ≡ ok w) × (run_texts env ts w ≡ ok vm')
  unfolding run_texts
  run_split t ts vm vm' h = elim (Result-cases (run_instruction env t (read_text t) vm)) [
    | inl (w, e) ↦ (w, e, rw e at h)
    | inr (x, e) ↦ absurd (let y = rw e at h in grind arith)
  ]

  run_end : (vm vm' : Vm) → run_texts env [] vm ≡ ok vm' → vm ≡ vm'
  unfolding run_texts
  run_end vm vm' h = ok_injective vm vm' h

  -- Where the last instruction emitted produces a canonical Boolean, a run that ends where the
  -- machine executes leaves the empty string or the one byte 1 on top of the main stack.
  pub after_bool-BoolTop :
      (out : List (List ℕ)) (vm vm' : Vm)
      → after_bool out ≡ true
      → run_texts env out vm ≡ ok vm'
      → is_currently_executing vm' ≡ true
      → BoolTop env vm'.main_stack
  unfolding after_bool
  after_bool-BoolTop [] vm vm' h r live = absurd (ground arith)
  after_bool-BoolTop (t ∷ []) vm vm' h r live =
      let (i, e, p, ends) = producer_read env t h in
      let (w, f, g) = run_split t [] vm vm' r in
      let same : w ≡ vm' = run_end w vm' g in
      let (_, q) = plain_step t i vm vm' e p (f ∙ ap ok same) live in
      ends vm.main_stack vm'.main_stack q
  after_bool-BoolTop (t ∷ u ∷ out) vm vm' h r live =
      let (w, f, g) = run_split t (u ∷ out) vm vm' r in after_bool-BoolTop (u ∷ out) w vm' h g live

  -- A depth that the machine's stack has, where it executes.
  abbrev Deep : ℕ → Vm → Type 0
  Deep depth vm = is_currently_executing vm ≡ true → depth ≤ length vm.main_stack

  shallow : (vm : Vm) → Deep 0 vm
  shallow vm live = omega arith

  ran_solid : (i : Instruction) (s s' : Stack) → on_stack env i s ≡ ok s' → i ≢ push_data []
  unfolding on_stack op_push
  ran_solid i s s' h e =
      let x : on_stack env (push_data []) s ≡ ok s' = sym (ap (λ j. on_stack env j s) e) ∙ h in
      grind arith

  push-Deep :
      (t : List ℕ) (depth : ℕ) (vm vm' : Vm)
      → is_well_formed (well_formed_push_size t) ≡ true
      → run_instruction env t (read_text t) vm ≡ ok vm'
      → Deep depth vm
      → Deep (depth + 1) vm'
  push-Deep t depth vm vm' h r deep live =
      let c = well_formed-ConstantText env t h in
      let (l, q) =
        plain_step t c.constant.instruction vm vm' (c.same_read ∙ c.constant.read) c.constant.plain
          r live in
      let pushed =
        c.constant.pushes (ran_solid c.constant.instruction vm.main_stack vm'.main_stack q)
          vm.main_stack in
      let same : c.constant.element ∷ vm.main_stack ≡ vm'.main_stack =
        ok_injective _ vm'.main_stack (sym pushed ∙ q) in
      let d : depth ≤ length vm.main_stack = deep l in rw (sym same) (omega arith)

  op_step :
      (t : List ℕ) (o : BytOpcode) (vm vm' : Vm)
      → read_text t ≡ some (opcode o)
      → is_plain (opcode o) ≡ true
      → run_instruction env t (read_text t) vm ≡ ok vm'
      → is_currently_executing vm' ≡ true
      → (is_currently_executing vm ≡ true) × (main_op env o vm.main_stack ≡ ok vm'.main_stack)
  unfolding on_stack
  op_step t o vm vm' e p r live = plain_step t (opcode o) vm vm' e p r live

  length-dup : (s s' : Stack) → dup s ≡ ok s' → length s' ≡ length s + 1
  unfolding dup
  length-dup [] s' h = absurd (grind arith)
  length-dup (a ∷ s) s' h = let e : a ∷ a ∷ s ≡ s' = ok_injective _ s' h in rw (sym e) (omega arith)

  length-drop_top : (s s' : Stack) → drop_top s ≡ ok s' → length s ≡ length s' + 1
  unfolding drop_top
  length-drop_top [] s' h = absurd (grind arith)
  length-drop_top (a ∷ s) s' h = let e : s ≡ s' = ok_injective _ s' h in rw (sym e) (omega arith)

  length-swap : (s s' : Stack) → swap s ≡ ok s' → length s' ≡ length s
  unfolding swap
  length-swap [] s' h = absurd (grind arith)
  length-swap (a ∷ []) s' h = absurd (grind arith)
  length-swap (a ∷ b ∷ s) s' h =
      let e : b ∷ a ∷ s ≡ s' = ok_injective _ s' h in rw (sym e) (omega arith)

  module _ (t : List ℕ) (depth : ℕ) (vm vm' : Vm)
      (r : run_instruction env t (read_text t) vm ≡ ok vm') (deep : Deep depth vm) where
    dup-Deep : is_op t BytOpcode.dup_ ≡ true → Deep (if depth == 0 then 0 else depth + 1) vm'
    dup-Deep h live =
        let (l, q) =
          op_step t BytOpcode.dup_ vm vm' (is_op-read t BytOpcode.dup_ h tt)
            (unfold is_plain in refl) r live in
        let n : length vm'.main_stack ≡ length vm.main_stack + 1 =
          length-dup vm.main_stack vm'.main_stack (unfold main_op in q) in
        let d : depth ≤ length vm.main_stack = deep l in rw n (ground arith)

    drop-Deep : is_op t BytOpcode.drop ≡ true → Deep (depth - 1) vm'
    drop-Deep h live =
        let (l, q) =
          op_step t BytOpcode.drop vm vm' (is_op-read t BytOpcode.drop h tt)
            (unfold is_plain in refl) r live in
        let n : length vm.main_stack ≡ length vm'.main_stack + 1 =
          length-drop_top vm.main_stack vm'.main_stack (unfold main_op in q) in
        let d : depth ≤ length vm.main_stack = deep l in omega arith

    swap-Deep : is_op t BytOpcode.swap_ ≡ true → Deep (if ltb depth 2 then 0 else depth) vm'
    swap-Deep h live =
        let (l, q) =
          op_step t BytOpcode.swap_ vm vm' (is_op-read t BytOpcode.swap_ h tt)
            (unfold is_plain in refl) r live in
        let n : length vm'.main_stack ≡ length vm.main_stack =
          length-swap vm.main_stack vm'.main_stack (unfold main_op in q) in
        let d : depth ≤ length vm.main_stack = deep l in rw n (ground arith)

    depth_after-Deep : Deep (depth_after depth t) vm'
    unfolding depth_after
    depth_after-Deep = elim (Bool-cases (is_inert t || is_control_flow t)) [
      | inl e ↦ rw e (shallow vm')
      | inr e ↦ elim (Bool-cases (is_well_formed (well_formed_push_size t))) [
        | inl f ↦ rw (e, f) (push-Deep t depth vm vm' f r deep)
        | inr f ↦ elim (Bool-cases (is_op t BytOpcode.dup_)) [
          | inl g ↦ rw (e, f, g) (dup-Deep g)
          | inr g ↦ elim (Bool-cases (is_op t BytOpcode.drop)) [
            | inl h ↦ rw (e, f, g, h) (drop-Deep h)
            | inr h ↦ elim (Bool-cases (is_op t BytOpcode.swap_)) [
              | inl k ↦ rw (e, f, g, h, k) (swap-Deep k)
              | inr k ↦ rw (e, f, g, h, k) (shallow vm')
            ]
          ]
        ]
      ]
    ]

  proven_depth-Deep :
      (out : List (List ℕ)) (depth : ℕ) (vm vm' : Vm)
      → run_texts env out vm ≡ ok vm'
      → Deep depth vm
      → Deep (proven_depth depth out) vm'
  unfolding proven_depth
  proven_depth-Deep [] depth vm vm' r deep = subst (Deep depth) (run_end vm vm' r) deep
  proven_depth-Deep (t ∷ out) depth vm vm' r deep =
      let (w, f, g) = run_split t out vm vm' r in
      proven_depth-Deep out (depth_after depth t) w vm' g (depth_after-Deep t depth vm w f deep)

  -- Where hasProvenStackDepth holds of the instructions emitted so far and a number, a run of
  -- these that ends where the machine executes leaves at least that many elements on the main
  -- stack.
  pub has_proven_stack_depth-Deep :
      (out : List (List ℕ)) (n : ℕ) (vm vm' : Vm)
      → has_proven_stack_depth out n ≡ true
      → run_texts env out vm ≡ ok vm'
      → is_currently_executing vm' ≡ true
      → n ≤ length vm'.main_stack
  unfolding has_proven_stack_depth
  has_proven_stack_depth-Deep out n vm vm' h r live =
      let d : proven_depth 0 out ≤ length vm'.main_stack =
        proven_depth-Deep out 0 vm vm' r (shallow vm) live in
      let e : n ≤ proven_depth 0 out = ground arith in omega arith

  -- What holds in a state behind the instructions emitted so far.
  pub record Context (out : List (List ℕ)) (vm : Vm) : Type 0 where
    pub bool_top :
        after_bool out ≡ true → is_currently_executing vm ≡ true → BoolTop env vm.main_stack
    pub deep :
        (n : ℕ)
        → has_proven_stack_depth out n ≡ true
        → is_currently_executing vm ≡ true
        → n ≤ length vm.main_stack

  pub run-Context :
      (out : List (List ℕ)) (vm₀ vm : Vm) → run_texts env out vm₀ ≡ ok vm → Context out vm
  run-Context out vm₀ vm ran = record {
    bool_top = λ h. after_bool-BoolTop out vm₀ vm h ran;
    deep = λ n h. has_proven_stack_depth-Deep out n vm₀ vm h ran;
  }

  -- A state in a block that does not execute, where nothing is asked of the stack.
  pub dead-Context :
      (out : List (List ℕ)) (vm : Vm) → is_currently_executing vm ≡ false → Context out vm
  dead-Context out vm dead = record {
    bool_top = λ h live. absurd (ground arith);
    deep = λ n h live. absurd (ground arith);
  }

-- ===== src/Peephole/Control.antt =====
-- tryRewritePair of src/bytecode_peephole_pass.h as a whole, with its rules in front of OP_IF and
-- OP_NOTIF.
use atomic_proof_interpreter.Prelude.{
  ℕ, ◌≡◌, refl, ap, sym, subst, ◌∙◌, Bool, true, false, not, ◌&&◌, ◌||◌, none, some, List, [], ◌∷◌,
  All, if◌then◌else◌, Result, ok, err, ◌>>=◌, Bool-cases, Result-cases, inl, inr,
}
use atomic_proof_interpreter.Vm.Stack.{VmError, Stack, pop, push_int}
use atomic_proof_interpreter.Vm.Numeric.{op_not, flag, is_zero}
use atomic_proof_interpreter.Vm.Number.{serialize_script_num, set_sign, low_bytes, to_int}
use atomic_proof_interpreter.Vm.Ops.{is_true}
use atomic_proof_interpreter.Vm.Machine.{
  BytOpcode, Instruction, opcode, Signatures, Vm, is_currently_executing, main_op, open_block,
  on_main, execute_opcode, going, returns,
}
use atomic_proof_interpreter.Vm.Text.{read_text, run_instruction, run_script, text_returns}
use atomic_proof_interpreter.Vm.Opcodes.{read_text-opcode_to_hex}
use atomic_proof_interpreter.Peephole.Text.{is_op, is_control_flow}
use atomic_proof_interpreter.Peephole.Rules.{
  op_hex, after_bool, replace, straight_rule, try_rewrite_pair,
}
use atomic_proof_interpreter.Peephole.Hex.{and-true}
use atomic_proof_interpreter.Peephole.Reads.{is_op-read}
use atomic_proof_interpreter.Peephole.Windows.{succeeded}
use atomic_proof_interpreter.Peephole.Agreement.{BoolTop}
use atomic_proof_interpreter.Peephole.Context.{Context}
use atomic_proof_interpreter.Peephole.Constants.{IsSolid}
use atomic_proof_interpreter.Peephole.Soundness.{hex-IsSolid, IsSound, if_IsSound, or_else-IsSound}
use atomic_proof_interpreter.Peephole.PairRules.{straight_rule-Sound}
use atomic_proof_interpreter.Peephole.Verify.{verify_rule-IsSound}

module _ (env : Signatures) where
  -- A condition that is negated before the block opens.
  abbrev with_top : Vm → List ℕ → Stack → Vm
  with_top vm e rest = record vm { main_stack = e ∷ rest }

  module _ (vm : Vm) (live : is_currently_executing vm ≡ true) (rest : Stack) where
    open_negated :
        (wanted : Bool)
        → (open_block wanted (with_top vm (1 ∷ []) rest)
            ≡ open_block (not wanted) (with_top vm [] rest))
          × (open_block wanted (with_top vm [] rest)
              ≡ open_block (not wanted) (with_top vm (1 ∷ []) rest))
    unfolding open_block is_currently_executing pop is_true to_int
    open_negated true = (rw live refl, rw live refl)
    open_negated false = (rw live refl, rw live refl)

    negates :
        (execute_opcode env (opcode BytOpcode.not_) (with_top vm [] rest)
          ≡ ok (with_top vm (1 ∷ []) rest))
        × (execute_opcode env (opcode BytOpcode.not_) (with_top vm (1 ∷ []) rest)
            ≡ ok (with_top vm [] rest))
    unfolding execute_opcode is_currently_executing on_main main_op op_not pop push_int flag is_zero
        to_int serialize_script_num set_sign low_bytes
    negates = (rw live refl, rw live refl)

  opens : (wanted : Bool) → BytOpcode
  opens wanted = if wanted then BytOpcode.if_ else BytOpcode.notif

  execute_block :
      (wanted : Bool) (vm : Vm)
      → execute_opcode env (opcode (opens wanted)) vm ≡ open_block wanted vm
  unfolding execute_opcode opens
  execute_block true vm = elim (Bool-cases (is_currently_executing vm)) [
    | inl e ↦ rw e refl
    | inr e ↦ rw e refl
  ]
  execute_block false vm = elim (Bool-cases (is_currently_executing vm)) [
    | inl e ↦ rw e refl
    | inr e ↦ rw e refl
  ]

  -- Negation and block, and the other block, in one state.
  abbrev Negated : Bool → Vm → Type 0
  Negated wanted vm =
      (execute_opcode env (opcode BytOpcode.not_) vm >>= open_block wanted)
      ≡ open_block (not wanted) vm

  negated_live :
      (wanted : Bool) (vm : Vm)
      → is_currently_executing vm ≡ true
      → BoolTop env vm.main_stack
      → Negated wanted vm
  negated_live wanted vm live (rest, inl e) =
      let same : vm ≡ with_top vm [] rest = ap (λ s. record vm { main_stack = s }) e in
      subst (Negated wanted) (sym same)
        (rw (negates vm live rest).0 (open_negated vm live rest wanted).0)
  negated_live wanted vm live (rest, inr e) =
      let same : vm ≡ with_top vm (1 ∷ []) rest = ap (λ s. record vm { main_stack = s }) e in
      subst (Negated wanted) (sym same)
        (rw (negates vm live rest).1 (open_negated vm live rest wanted).1)

  negated_dead : (wanted : Bool) (vm : Vm) → is_currently_executing vm ≡ false → Negated wanted vm
  unfolding execute_opcode open_block
  negated_dead wanted vm dead = rw dead (rw dead refl)

  run_two :
      (s t : List ℕ) (i j : Instruction) (vm : Vm)
      → read_text s ≡ some i
      → read_text t ≡ some j
      → ((w : Vm) → (returns i w ≡ false) × (returns j w ≡ false))
      → run_script env (s ∷ t ∷ []) vm
        ≡ (execute_opcode env i vm >>= λ w. execute_opcode env j w >>= λ x. ok (going x))
  unfolding run_script run_instruction text_returns
  run_two s t i j vm e f stays =
      rw (e, f)
        (elim (Result-cases (execute_opcode env i vm)) [
          | inl (w, g) ↦
              rw (g, (stays vm).0)
                (elim (Result-cases (execute_opcode env j w)) [
                  | inl (x, h) ↦ rw (h, (stays w).1) refl
                  | inr (x, h) ↦ rw h refl
                ])
          | inr (x, g) ↦ rw g refl
        ])

  run_single :
      (s : List ℕ) (i : Instruction) (vm : Vm)
      → read_text s ≡ some i
      → ((w : Vm) → returns i w ≡ false)
      → run_script env (s ∷ []) vm ≡ (execute_opcode env i vm >>= λ w. ok (going w))
  unfolding run_script run_instruction text_returns
  run_single s i vm e stays = rw e (elim (Result-cases (execute_opcode env i vm)) [
    | inl (x, h) ↦ rw (h, stays vm) refl
    | inr (x, h) ↦ rw h refl
  ])

  bind_block :
      (wanted : Bool) (r : Result VmError Vm)
      → (r >>= λ w. execute_opcode env (opcode (opens wanted)) w >>= λ x. ok (going x))
        ≡ ((r >>= open_block wanted) >>= λ x. ok (going x))
  bind_block wanted (ok w) = ap (λ y. y >>= λ x. ok (going x)) (execute_block wanted w)
  bind_block wanted (err e) = refl

  no_return :
      (wanted : Bool) (w : Vm)
      → (returns (opcode BytOpcode.not_) w ≡ false) × (returns (opcode (opens wanted)) w ≡ false)
  unfolding returns opens
  no_return true w = (refl, refl)
  no_return false w = (refl, refl)

  read_opens :
      (wanted : Bool) (t : List ℕ)
      → is_op t (opens wanted) ≡ true
      → read_text t ≡ some (opcode (opens wanted))
  unfolding opens
  read_opens true t h = is_op-read t BytOpcode.if_ h tt
  read_opens false t h = is_op-read t BytOpcode.notif h tt

  read_opens_hex :
      (wanted : Bool) → read_text (op_hex (opens wanted)) ≡ some (opcode (opens wanted))
  unfolding opens
  read_opens_hex true = read_text-opcode_to_hex BytOpcode.if_ tt
  read_opens_hex false = read_text-opcode_to_hex BytOpcode.notif tt

  opens-IsSolid : (wanted : Bool) → All IsSolid (op_hex (opens wanted) ∷ [])
  unfolding opens
  opens-IsSolid true = hex-IsSolid BytOpcode.if_ tt
  opens-IsSolid false = hex-IsSolid BytOpcode.notif tt

  module _ (out : List (List ℕ)) (vm : Vm) (context : Context env out vm) (a b : List ℕ) where
    negated : (wanted : Bool) → after_bool out ≡ true → Negated wanted vm
    negated wanted h = elim (Bool-cases (is_currently_executing vm)) [
      | inl live ↦ negated_live wanted vm live (context.bool_top h live)
      | inr dead ↦ negated_dead wanted vm dead
    ]

    block-IsSound :
        (wanted : Bool)
        → is_op a BytOpcode.not_ ≡ true
        → is_op b (opens wanted) ≡ true
        → after_bool out ≡ true
        → IsSound env vm (a ∷ b ∷ []) (replace (opens (not wanted)))
    unfolding replace
    block-IsSound wanted ha hb h = (
      ap succeeded (
          run_two a b (opcode BytOpcode.not_) (opcode (opens wanted)) vm
            (is_op-read a BytOpcode.not_ ha tt) (read_opens wanted b hb) (no_return wanted)
          ∙ bind_block wanted _
          ∙ ap (λ y. y >>= λ x. ok (going x))
              (negated wanted h ∙ sym (execute_block (not wanted) vm))
          ∙ sym (
              run_single (op_hex (opens (not wanted))) _ vm (read_opens_hex (not wanted))
                (λ w. (no_return (not wanted) w).1))),
      opens-IsSolid (not wanted),
    )

    block_rule :
        is_op a BytOpcode.not_
            && ((is_op b BytOpcode.if_ || is_op b BytOpcode.notif) && after_bool out)
          ≡ true
        → IsSound env vm
            (a ∷ b ∷ [])
            (replace (if is_op b BytOpcode.if_ then BytOpcode.notif else BytOpcode.if_))
    unfolding opens
    block_rule h =
        let (ha, h') =
          and-true (is_op a BytOpcode.not_)
            ((is_op b BytOpcode.if_ || is_op b BytOpcode.notif) && after_bool out) h in
        let (hb, hc) =
          and-true (is_op b BytOpcode.if_ || is_op b BytOpcode.notif) (after_bool out) h' in
        elim (Bool-cases (is_op b BytOpcode.if_)) [
          | inl e ↦ rw e (block-IsSound true ha e hc)
          | inr e ↦ rw e (block-IsSound false ha (rw e at hb) hc)
        ]

    straight :
        IsSolid a
        → IsSound env vm (a ∷ b ∷ []) (if is_control_flow b then none else straight_rule a b out)
    straight solid =
        if_IsSound env vm (a ∷ b ∷ []) (is_control_flow b) none (straight_rule a b out) (λ h. tt)
          (straight_rule-Sound env out vm context a b solid)

    -- In a state that the instructions emitted so far can lead to, whatever tryRewritePair puts in
    -- place of two instructions does what they do: both runs fail, or both end in the same state.
    -- The first of them may not be an OP_PUSHDATA without payload; nor is any text that is
    -- written.
    pub try_rewrite_pair-IsSound :
        (elide : Bool) → IsSolid a → IsSound env vm (a ∷ b ∷ []) (try_rewrite_pair a b out elide)
    unfolding try_rewrite_pair
    try_rewrite_pair-IsSound elide solid = if_IsSound env vm (a ∷ b ∷ []) _ _ _ block_rule (
        if_IsSound env vm (a ∷ b ∷ []) (is_op b BytOpcode.verify) _ _
          (λ h.
            or_else-IsSound env vm (a ∷ b ∷ []) _ _
              (verify_rule-IsSound env out vm context a b elide h) (straight solid))
          (straight solid))

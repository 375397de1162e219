-- ===== src/Peephole/Agreement.antt =====
-- What the rules of src/bytecode_peephole_pass.h do on the stack, instruction for instruction.
use atomic_proof_interpreter.Prelude.{
  ◌≡◌, ◌≤◌, ◌⊎◌, refl, arith, sym, subst, [], ◌∷◌, length, Option-cases, inl, inr,
}
use atomic_proof_interpreter.Prelude.Int.{◌+ℤ◌, ◌-ℤ◌}
use atomic_proof_interpreter.Vm.Number.{to_int, serialize_script_num, set_sign, low_bytes}
use atomic_proof_interpreter.Vm.Stack.{
  Stack, push, push_int, pop, peek, dup, drop_top, drop_many, swap, pick, roll, remove_at,
}
use atomic_proof_interpreter.Vm.Ops.{
  op_2drop, op_2dup, op_over, op_rot, op_nip, op_pick, op_roll, to_depth, is_true,
}
use atomic_proof_interpreter.Vm.Numeric.{
  numeric_pair, numeric_top, numeric, both, op_add, op_sub, op_inc, op_dec, op_not, op_0notequal,
  op_equal, op_numequal, op_numnotequal, op_verify, compare_with, flag, is_zero, eq_bytes,
}
use atomic_proof_interpreter.Vm.Machine.{BytOpcode, Instruction, opcode, Signatures, main_op}
use atomic_proof_interpreter.Peephole.Windows.{succeeded, on_stack, run_stack, SameStack}

module _ (env : Signatures) where
  abbrev pub op : BytOpcode → Instruction
  op o = opcode o

  pub over-over :
      (s : Stack)
      → SameStack env (op BytOpcode.over ∷ op BytOpcode.over ∷ []) (op BytOpcode.two_dup ∷ []) s
  unfolding run_stack on_stack main_op op_2dup op_over pick peek pop push succeeded
  over-over [] = refl
  over-over (a ∷ []) = refl
  over-over (a ∷ b ∷ s) = refl

  pub swap-drop :
      (s : Stack)
      → SameStack env (op BytOpcode.swap_ ∷ op BytOpcode.drop ∷ []) (op BytOpcode.nip ∷ []) s
  unfolding run_stack on_stack main_op op_nip roll peek remove_at drop_top swap succeeded
  swap-drop [] = refl
  swap-drop (a ∷ []) = refl
  swap-drop (a ∷ b ∷ s) = refl

  pub drop-drop :
      (s : Stack)
      → SameStack env (op BytOpcode.drop ∷ op BytOpcode.drop ∷ []) (op BytOpcode.two_drop ∷ []) s
  unfolding run_stack on_stack main_op op_2drop drop_many drop_top succeeded
  drop-drop [] = refl
  drop-drop (a ∷ []) = refl
  drop-drop (a ∷ b ∷ s) = ground arith

  pub pick_zero :
      (s : Stack)
      → SameStack env (op BytOpcode.op_0 ∷ op BytOpcode.pick ∷ []) (op BytOpcode.dup_ ∷ []) s
  unfolding run_stack on_stack main_op op_pick pick peek pop push_int serialize_script_num set_sign
      low_bytes to_int to_depth dup succeeded
  pick_zero [] = refl
  pick_zero (a ∷ s) = refl

  pub pick_one :
      (s : Stack)
      → SameStack env (op (BytOpcode.op_n 1) ∷ op BytOpcode.pick ∷ []) (op BytOpcode.over ∷ []) s
  unfolding run_stack on_stack main_op op_pick op_over pick peek pop push_int serialize_script_num
      set_sign low_bytes to_int to_depth succeeded
  pick_one [] = refl
  pick_one (a ∷ []) = refl
  pick_one (a ∷ b ∷ s) = refl

  pub roll_one :
      (s : Stack)
      → SameStack env (op (BytOpcode.op_n 1) ∷ op BytOpcode.roll ∷ []) (op BytOpcode.swap_ ∷ []) s
  unfolding run_stack on_stack main_op op_roll roll peek remove_at pop push_int serialize_script_num
      set_sign low_bytes to_int to_depth swap succeeded
  roll_one [] = refl
  roll_one (a ∷ []) = refl
  roll_one (a ∷ b ∷ s) = refl

  pub roll_two :
      (s : Stack)
      → SameStack env (op (BytOpcode.op_n 2) ∷ op BytOpcode.roll ∷ []) (op BytOpcode.rot ∷ []) s
  unfolding run_stack on_stack main_op op_roll roll peek remove_at pop push push_int
      serialize_script_num set_sign low_bytes to_int to_depth op_rot succeeded
  roll_two [] = refl
  roll_two (a ∷ []) = refl
  roll_two (a ∷ b ∷ []) = refl
  roll_two (a ∷ b ∷ c ∷ s) = refl

  pub one-add :
      (s : Stack)
      → SameStack env (op (BytOpcode.op_n 1) ∷ op BytOpcode.add ∷ []) (op BytOpcode.add_one ∷ []) s
  unfolding run_stack on_stack main_op op_add op_inc numeric_pair numeric_top both numeric pop
      push_int serialize_script_num set_sign low_bytes to_int succeeded
  one-add [] = refl
  one-add (a ∷ s) = elim (Option-cases (to_int a)) [ inl e ↦ rw e refl | inr (x, e) ↦ rw e refl ]

  pub one-sub :
      (s : Stack)
      → SameStack env (op (BytOpcode.op_n 1) ∷ op BytOpcode.sub ∷ []) (op BytOpcode.sub_one ∷ []) s
  unfolding run_stack on_stack main_op op_sub op_dec numeric_pair numeric_top both numeric pop
      push_int serialize_script_num set_sign low_bytes to_int succeeded
  one-sub [] = refl
  one-sub (a ∷ s) = elim (Option-cases (to_int a)) [ inl e ↦ rw e refl | inr (x, e) ↦ rw e refl ]

  pub minus-add :
      (s : Stack)
      → SameStack env
          (op BytOpcode.op_1negate ∷ op BytOpcode.add ∷ [])
          (op BytOpcode.sub_one ∷ [])
          s
  unfolding run_stack on_stack main_op op_add op_dec numeric_pair numeric_top both numeric pop
      push_int serialize_script_num set_sign low_bytes to_int succeeded ◌+ℤ◌ ◌-ℤ◌
  minus-add [] = refl
  minus-add (a ∷ s) = elim (Option-cases (to_int a)) [ inl e ↦ rw e refl | inr (x, e) ↦ rw e refl ]

  pub minus-sub :
      (s : Stack)
      → SameStack env
          (op BytOpcode.op_1negate ∷ op BytOpcode.sub ∷ [])
          (op BytOpcode.add_one ∷ [])
          s
  unfolding run_stack on_stack main_op op_sub op_inc numeric_pair numeric_top both numeric pop
      push_int serialize_script_num set_sign low_bytes to_int succeeded ◌+ℤ◌ ◌-ℤ◌
  minus-sub [] = refl
  minus-sub (a ∷ s) = elim (Option-cases (to_int a)) [ inl e ↦ rw e refl | inr (x, e) ↦ rw e refl ]

  pub dup-drop :
      (s : Stack) → 1 ≤ length s → SameStack env (op BytOpcode.dup_ ∷ op BytOpcode.drop ∷ []) [] s
  unfolding run_stack on_stack main_op dup drop_top succeeded
  dup-drop [] h = absurd (omega arith)
  dup-drop (a ∷ s) h = refl

  pub swap-swap :
      (s : Stack) → 2 ≤ length s → SameStack env (op BytOpcode.swap_ ∷ op BytOpcode.swap_ ∷ []) [] s
  unfolding run_stack on_stack main_op swap succeeded
  swap-swap [] h = absurd (omega arith)
  swap-swap (a ∷ []) h = absurd (omega arith)
  swap-swap (a ∷ b ∷ s) h = refl

  pub one-verify :
      (s : Stack) → SameStack env (op (BytOpcode.op_n 1) ∷ op BytOpcode.verify ∷ []) [] s
  unfolding run_stack on_stack main_op op_verify pop push_int serialize_script_num set_sign
      low_bytes to_int is_true succeeded
  one-verify s = refl

  -- The top is 0 or 1, in its one encoding.
  abbrev pub BoolTop : Stack → Type 0
  BoolTop s = (rest : Stack) × ((s ≡ [] ∷ rest) ⊎ (s ≡ (1 ∷ []) ∷ rest))

  pub record BoolRules (s : Stack) : Type 0 where
    pub not-not : SameStack env (op BytOpcode.not_ ∷ op BytOpcode.not_ ∷ []) [] s
    pub not-not_numeric :
        SameStack env
          (op BytOpcode.not_ ∷ op BytOpcode.not_ ∷ [])
          (op BytOpcode.zero_not_equal ∷ [])
          s
    pub one-equal : SameStack env (op (BytOpcode.op_n 1) ∷ op BytOpcode.equal ∷ []) [] s
    pub one-num_equal : SameStack env (op (BytOpcode.op_n 1) ∷ op BytOpcode.num_equal ∷ []) [] s
    pub zero-equal :
        SameStack env (op BytOpcode.op_0 ∷ op BytOpcode.equal ∷ []) (op BytOpcode.not_ ∷ []) s
    pub zero-num_equal :
        SameStack env (op BytOpcode.op_0 ∷ op BytOpcode.num_equal ∷ []) (op BytOpcode.not_ ∷ []) s
    pub zero-num_not_equal :
        SameStack env (op BytOpcode.op_0 ∷ op BytOpcode.num_not_equal ∷ []) [] s
    pub one-num_not_equal :
        SameStack env
          (op (BytOpcode.op_n 1) ∷ op BytOpcode.num_not_equal ∷ [])
          (op BytOpcode.not_ ∷ [])
          s

  BoolRules-zero : (rest : Stack) → BoolRules ([] ∷ rest)
  unfolding run_stack on_stack main_op op_not op_0notequal op_equal op_numequal op_numnotequal
      compare_with numeric_pair both pop push_int serialize_script_num set_sign low_bytes to_int
      is_zero is_true flag eq_bytes succeeded
  BoolRules-zero rest = record {
    not-not = refl;
    not-not_numeric = refl;
    one-equal = refl;
    one-num_equal = refl;
    zero-equal = refl;
    zero-num_equal = refl;
    zero-num_not_equal = refl;
    one-num_not_equal = refl;
  }

  BoolRules-one : (rest : Stack) → BoolRules ((1 ∷ []) ∷ rest)
  unfolding run_stack on_stack main_op op_not op_0notequal op_equal op_numequal op_numnotequal
      compare_with numeric_pair both pop push_int serialize_script_num set_sign low_bytes to_int
      is_zero is_true flag eq_bytes succeeded
  BoolRules-one rest = record {
    not-not = refl;
    not-not_numeric = refl;
    one-equal = refl;
    one-num_equal = refl;
    zero-equal = refl;
    zero-num_equal = refl;
    zero-num_not_equal = refl;
    one-num_not_equal = refl;
  }

  pub bool_rules : (s : Stack) → BoolTop s → BoolRules s
  bool_rules s (rest, inl e) = subst BoolRules (sym e) (BoolRules-zero rest)
  bool_rules s (rest, inr e) = subst BoolRules (sym e) (BoolRules-one rest)

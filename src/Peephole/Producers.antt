-- ===== src/Peephole/Producers.antt =====
-- Instructions whose result the rules of src/bytecode_peephole_pass.h know: producesCanonicalBool,
-- and pushes of constants.
use atomic_proof_interpreter.Prelude.{
  ℕ, ◌≡◌, refl, arith, subst, Bool, true, false, some, List, [], ◌∷◌, All, ok, err, ◌>>=◌,
  if◌then◌else◌, Bool-cases, Result-cases, inl, inr,
}
use atomic_proof_interpreter.Prelude.Int.{ℤ}
use atomic_proof_interpreter.Vm.Number.{Element, to_int, serialize_script_num, set_sign, low_bytes}
use atomic_proof_interpreter.Vm.Stack.{
  VmError, Stack, Outcome, push_int, pop, dup, drop_top, drop_many,
}
use atomic_proof_interpreter.Vm.Ops.{op_2drop}
use atomic_proof_interpreter.Vm.Numeric.{
  numeric, numeric_pair, op_not, op_0notequal, op_equal, op_numequal, op_numnotequal, op_lessthan,
  op_greaterthan, op_lessthanorequal, op_greaterthanorequal, op_within, op_and, op_or, compare_with,
  flag, eq_bytes,
}
use atomic_proof_interpreter.Vm.Machine.{
  BytOpcode, Instruction, opcode, Signatures, main_op, op_checksig,
}
use atomic_proof_interpreter.Vm.Text.{read_text}
use atomic_proof_interpreter.Vm.Opcodes.{IsOpcode}
use atomic_proof_interpreter.Peephole.Text.{
  is_op, is_any_op, canonical_bool_producers, produces_canonical_bool,
}
use atomic_proof_interpreter.Peephole.Reads.{is_op-read}
use atomic_proof_interpreter.Peephole.Windows.{is_plain, on_stack, run_stack, SameStack}
use atomic_proof_interpreter.Peephole.Agreement.{op, BoolTop}

module _ (env : Signatures) where
  -- A result, if there is one, has a canonical Boolean on top.
  abbrev pub EndsBool : Outcome → Type 0
  EndsBool r = (s : Stack) → r ≡ ok s → BoolTop env s

  no_result : (e : VmError) → EndsBool (err e)
  no_result e s p = absurd (grind arith)

  ends_top : (e : Element) (s : Stack) → BoolTop env (e ∷ s) → EndsBool (ok (e ∷ s))
  ends_top e s h s' p = let q : e ∷ s ≡ s' = grind arith in subst (BoolTop env) q h

  ends_flag : (c : Bool) (s : Stack) → EndsBool (ok (push_int (flag c) s))
  unfolding push_int flag serialize_script_num set_sign low_bytes
  ends_flag true s = ends_top (1 ∷ []) s (s, inr refl)
  ends_flag false s = ends_top [] s (s, inl refl)

  compare_with-EndsBool : (test : ℤ → ℤ → Bool) (s : Stack) → EndsBool (compare_with test s)
  unfolding compare_with
  compare_with-EndsBool test s = elim (Result-cases (numeric_pair s)) [
    | inl (x, e) ↦ rw e (ends_flag _ _)
    | inr (x, e) ↦ rw e (no_result x)
  ]

  top_flag :
      (test : Element → Bool) (s : Stack)
      → EndsBool (pop s >>= λ x. ok (push_int (flag (test x.0)) x.1))
  unfolding pop
  top_flag test [] = no_result _
  top_flag test (a ∷ s) = ends_flag _ _

  op_equal-EndsBool : (s : Stack) → EndsBool (op_equal s)
  unfolding op_equal pop
  op_equal-EndsBool [] = no_result _
  op_equal-EndsBool (a ∷ []) = no_result _
  op_equal-EndsBool (a ∷ b ∷ s) = ends_flag _ _

  op_within-EndsBool : (s : Stack) → EndsBool (op_within s)
  unfolding op_within pop
  op_within-EndsBool [] = no_result _
  op_within-EndsBool (a ∷ []) = no_result _
  op_within-EndsBool (a ∷ b ∷ []) = no_result _
  op_within-EndsBool (a ∷ b ∷ c ∷ s) = elim (Result-cases (numeric (to_int c))) [
    | inl (x, e) ↦ elim (Result-cases (numeric (to_int b))) [
      | inl (y, f) ↦ elim (Result-cases (numeric (to_int a))) [
        | inl (z, g) ↦ rw (e, f, g) (ends_flag _ _)
        | inr (z, g) ↦ rw (e, f, g) (no_result z)
      ]
      | inr (y, f) ↦ rw (e, f) (no_result y)
    ]
    | inr (x, e) ↦ rw e (no_result x)
  ]

  op_checksig-EndsBool : (s : Stack) → EndsBool (op_checksig env false s)
  unfolding op_checksig pop
  op_checksig-EndsBool [] = no_result _
  op_checksig-EndsBool (a ∷ []) = no_result _
  op_checksig-EndsBool (a ∷ b ∷ s) = ends_flag _ _

  -- An opcode whose result is a canonical Boolean.
  pub record Producer (o : BytOpcode) : Type 0 where
    pub is_opcode : IsOpcode o
    pub plain : is_plain (opcode o) ≡ true
    pub ends : (s : Stack) → EndsBool (main_op env o s)

  producers : All Producer canonical_bool_producers
  unfolding is_plain main_op op_not op_0notequal op_equal op_numequal op_numnotequal op_lessthan
      op_greaterthan op_lessthanorequal op_greaterthanorequal op_and op_or
  producers = (
    record { is_opcode = tt; plain = refl; ends = λ s. ends_flag false s },
    (
      record { is_opcode = omega arith; plain = refl; ends = λ s. ends_flag true s },
      (
        record { is_opcode = tt; plain = refl; ends = top_flag _ },
        (
          record { is_opcode = tt; plain = refl; ends = top_flag _ },
          (
            record { is_opcode = tt; plain = refl; ends = op_equal-EndsBool },
            (
              record { is_opcode = tt; plain = refl; ends = compare_with-EndsBool _ },
              (
                record { is_opcode = tt; plain = refl; ends = compare_with-EndsBool _ },
                (
                  record { is_opcode = tt; plain = refl; ends = compare_with-EndsBool _ },
                  (
                    record { is_opcode = tt; plain = refl; ends = compare_with-EndsBool _ },
                    (
                      record { is_opcode = tt; plain = refl; ends = compare_with-EndsBool _ },
                      (
                        record { is_opcode = tt; plain = refl; ends = compare_with-EndsBool _ },
                        (
                          record { is_opcode = tt; plain = refl; ends = compare_with-EndsBool _ },
                          (
                            record { is_opcode = tt; plain = refl; ends = compare_with-EndsBool _ },
                            (
                              record { is_opcode = tt; plain = refl; ends = op_within-EndsBool },
                              (
                                record {
                                  is_opcode = tt;
                                  plain = refl;
                                  ends = op_checksig-EndsBool;
                                },
                                (
                                  record { is_opcode = tt; plain = refl; ends = λ s. no_result _ },
                                  tt,
                                ),
                              ),
                            ),
                          ),
                        ),
                      ),
                    ),
                  ),
                ),
              ),
            ),
          ),
        ),
      ),
    ),
  )

  any_op :
      (t : List ℕ) (ops : List BytOpcode)
      → All Producer ops
      → is_any_op t ops ≡ true
      → (o : BytOpcode) × (is_op t o ≡ true) × Producer o
  unfolding is_any_op
  any_op t [] p h = absurd (ground arith)
  any_op t (o ∷ ops) (q, p) h = elim (Bool-cases (is_op t o)) [
    | inl e ↦ (o, e, q)
    | inr e ↦ any_op t ops p (ground arith)
  ]

  -- A text that producesCanonicalBool accepts is read as an opcode that leaves 0 or 1 on top.
  pub producer_read :
      (t : List ℕ)
      → produces_canonical_bool t ≡ true
      → (i : Instruction) × (read_text t ≡ some i)
        × (is_plain i ≡ true)
        × ((s : Stack) → EndsBool (on_stack env i s))
  unfolding produces_canonical_bool on_stack
  producer_read t h =
      let (o, e, p) = any_op t canonical_bool_producers producers h in
      (opcode o, is_op-read t o e p.is_opcode, p.plain, p.ends)

  -- An instruction that pushes one element, whatever the stack.
  abbrev pub PushOf : Instruction → Element → Type 0
  PushOf i e = (s : Stack) → on_stack env i s ≡ ok (e ∷ s)

  eq_bytes-same : (x : Element) → eq_bytes x x ≡ true
  unfolding eq_bytes
  eq_bytes-same [] = refl
  eq_bytes-same (b ∷ x) = ground (arith, eq_bytes-same x)

  module _ (i : Instruction) (e : Element) (p : PushOf i e) where
    pub push-drop : (s : Stack) → SameStack env (i ∷ op env BytOpcode.drop ∷ []) [] s
    unfolding run_stack on_stack main_op drop_top
    push-drop s = rw (p s) refl

    pub push-dup : (s : Stack) → SameStack env (i ∷ i ∷ []) (i ∷ op env BytOpcode.dup_ ∷ []) s
    unfolding run_stack on_stack main_op dup
    push-dup s = rw (p s, p (e ∷ s)) refl

    pub push-dup-drop :
        (s : Stack)
        → SameStack env (i ∷ op env BytOpcode.dup_ ∷ op env BytOpcode.drop ∷ []) (i ∷ []) s
    unfolding run_stack on_stack main_op dup drop_top
    push-dup-drop s = rw (p s) refl

    pub push-dup-two_drop :
        (s : Stack)
        → SameStack env (i ∷ op env BytOpcode.dup_ ∷ op env BytOpcode.two_drop ∷ []) [] s
    unfolding run_stack on_stack main_op dup op_2drop drop_many
    push-dup-two_drop s = rw (p s) (ground arith)

    pub push-dup-equal :
        (s : Stack)
        → SameStack env
            (i ∷ op env BytOpcode.dup_ ∷ op env BytOpcode.equal ∷ [])
            (op env (BytOpcode.op_n 1) ∷ [])
            s
    unfolding run_stack on_stack main_op dup op_equal pop flag
    push-dup-equal s = rw (p s, eq_bytes-same e) refl

    -- Two constants are compared at once.
    pub push-push-equal :
        (j : Instruction) (f : Element)
        → PushOf j f
        → (s : Stack)
        → SameStack env
            (i ∷ j ∷ op env BytOpcode.equal ∷ [])
            (op env (if eq_bytes e f then BytOpcode.op_n 1 else BytOpcode.op_0) ∷ [])
            s
    unfolding run_stack on_stack main_op op_equal pop flag
    push-push-equal j f q s = elim (Bool-cases (eq_bytes e f)) [
      | inl h ↦ rw (p s, q (e ∷ s), h) refl
      | inr h ↦ rw (p s, q (e ∷ s), h) refl
    ]

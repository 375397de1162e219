-- ===== src/Peephole/Suffix.antt =====
-- optimizablePrefixLength of src/bytecode_peephole_pass.h: the data behind the last OP_RETURN stays.
use atomic_proof_interpreter.Prelude.{
  ℕ, zero, suc, ◌≡◌, ◌⊎◌, refl, arith, ap, sym, ◌∙◌, Bool, true, false, none, some, List, [], ◌∷◌,
  ◌++◌, length, take, drop, All, err, Bool-cases, Result-cases, Option-cases, inl, inr,
}
use mathlib.Core.List.{append_assoc, append-nil}
use atomic_proof_interpreter.Vm.Stack.{VmError}
use atomic_proof_interpreter.Vm.Machine.{BytOpcode, Instruction, Signatures}
use atomic_proof_interpreter.Vm.Text.{opcode_value, read_text}
use atomic_proof_interpreter.Script.Codec.{eq_text, decode_push_hex}
use atomic_proof_interpreter.Peephole.Text.{
  is_op, is_single_op, first_byte, is_byte, is_barrier, is_barrier_byte, is_control_flow,
}
use atomic_proof_interpreter.Peephole.Push.{
  LocalRewriteOptions, is_profitable, is_profitable_duplicate_push, known_placeholder_push_size,
}
use atomic_proof_interpreter.Peephole.Rules.{Rewrite, try_rewrite_pair}
use atomic_proof_interpreter.Peephole.Pass.{
  Decision, or_decide, triple_window, duplicate_window, pair_window, decide_pair, decide, pass_loop,
  return_end, value_or, straight_line, optimizable_prefix_length, run_one_pass, run_rounds,
}
use atomic_proof_interpreter.Peephole.Hex.{and-true}
use atomic_proof_interpreter.Peephole.Reads.{is_op-read}
use atomic_proof_interpreter.Peephole.Windows.{is_plain}
use atomic_proof_interpreter.Peephole.Equality.{eq_text→eq}
use atomic_proof_interpreter.Peephole.Decoded.{Pushes, decoded-Pushes}
use atomic_proof_interpreter.Peephole.Placeholders.{placeholder_read}

-- A machine that knows no other text.
abbrev idle : Signatures
idle = record {
  foreign = λ t vm. err VmError.unknown_opcode;
  check_sig_callback = none;
  inputs_hash = [];
}

abbrev pub NoReturn : List ℕ → Type 0
NoReturn s = is_op s BytOpcode.return_ ≡ false

module _ (ret : List ℕ) (returns : is_op ret BytOpcode.return_ ≡ true) where
  first_return : first_byte ret ≡ some 0x6a
  unfolding is_op is_single_op opcode_value is_byte
  first_return = ground arith

  return_controls : is_control_flow ret ≡ true
  unfolding is_control_flow is_barrier is_barrier_byte
  return_controls = rw first_return refl

  no_other :
      (is_op ret BytOpcode.if_ ≡ false)
      × (is_op ret BytOpcode.notif ≡ false)
      × (is_op ret BytOpcode.verify ≡ false)
  unfolding is_op is_single_op opcode_value is_byte
  no_other = (
    rw first_return (ground arith),
    rw first_return (ground arith),
    rw first_return (ground arith),
  )

  module _ (elide : Bool) (options : LocalRewriteOptions) where
    return_unprofitable : is_profitable (decode_push_hex ret false) ret options ≡ true → ⊥
    unfolding is_profitable is_plain
    return_unprofitable h =
        let read = is_op-read ret BytOpcode.return_ returns tt in
        elim (Result-cases (decode_push_hex ret false)) [
          | inl (d, e) ↦
              let p : Pushes idle (read_text ret) = decoded-Pushes idle ret d e in
              let q : Pushes idle (some (Instruction.opcode BytOpcode.return_)) = rw read at p in
              let r = q.plain in grind arith
          | inr (x, e) ↦ elim (Option-cases (known_placeholder_push_size ret options)) [
            | inl f ↦ let y = rw (is_profitable, e, f) at h in grind arith
            | inr (n, f) ↦ let y = sym read ∙ placeholder_read ret options n f in grind arith
          ]
        ]

    triple_none : (a b : List ℕ) → triple_window a b ret ≡ none
    unfolding triple_window straight_line
    triple_none a b = rw return_controls (ground arith)

    duplicate_none : (a : List ℕ) → duplicate_window options a ret ≡ none
    unfolding duplicate_window is_profitable_duplicate_push
    duplicate_none a = elim (Bool-cases (is_profitable_duplicate_push a ret options)) [
      | inl e ↦
          let (f, g) =
            and-true (eq_text a ret) (is_profitable (decode_push_hex a false) a options) e in
          let same : a ≡ ret = eq_text→eq a ret f in absurd (return_unprofitable (rw same at g))
      | inr e ↦ rw e refl
    ]

    pair_none : (out : List (List ℕ)) (a : List ℕ) → pair_window elide out a ret ≡ none
    unfolding pair_window try_rewrite_pair
    pair_none out a = let (e, f, g) = no_other in rw (e, f, g, return_controls) (ground arith)

    -- Texts that end in the OP_RETURN.
    abbrev Ends : List (List ℕ) → Type 0
    Ends v = (code : List (List ℕ)) × (v ≡ code ++ (ret ∷ []))

    or_decide-Ends :
        (r : Rewrite) (rest : List (List ℕ)) (other : Decision)
        → (r ≡ none) ⊎ Ends rest
        → Ends other.rest
        → Ends (or_decide r rest other).rest
    unfolding or_decide
    or_decide-Ends none rest other h k = k
    or_decide-Ends (some new) rest other (inl e) k = absurd (grind arith)
    or_decide-Ends (some new) rest other (inr h) k = h

    decide_pair-Ends :
        (out : List (List ℕ)) (a : List ℕ) (code : List (List ℕ))
        → Ends (decide_pair elide options out a (code ++ (ret ∷ []))).rest
    unfolding decide_pair
    decide_pair-Ends out a [] =
        or_decide-Ends (duplicate_window options a ret) [] _ (inl (duplicate_none a))
          (or_decide-Ends (pair_window elide out a ret) [] _ (inl (pair_none out a)) ([], refl))
    decide_pair-Ends out a (b ∷ code) =
        or_decide-Ends (duplicate_window options a b) _ _ (inr (code, refl))
          (or_decide-Ends (pair_window elide out a b) _ _ (inr (code, refl)) (b ∷ code, refl))

    decide-Ends :
        (out : List (List ℕ)) (a : List ℕ) (code : List (List ℕ))
        → Ends (decide elide options out a (code ++ (ret ∷ []))).rest
    unfolding decide
    decide-Ends out a [] = decide_pair-Ends out a []
    decide-Ends out a (b ∷ []) =
        or_decide-Ends (triple_window a b ret) [] _ (inl (triple_none a b))
          (decide_pair-Ends out a (b ∷ []))
    decide-Ends out a (b ∷ c ∷ code) =
        or_decide-Ends (triple_window a b c) _ _ (inr (code, refl))
          (decide_pair-Ends out a (b ∷ c ∷ code))

    -- The loop leaves the OP_RETURN at the end.
    pass_loop-last :
        (fuel : ℕ) (out : List (List ℕ))
        → (pass_loop elide options fuel (out ++ (ret ∷ [])) []).0 ≡ out ++ (ret ∷ [])
    unfolding pass_loop
    pass_loop-last zero out = append-nil (out ++ (ret ∷ []))
    pass_loop-last (suc fuel) out = refl

    pass_loop-Ends :
        (fuel : ℕ) (out code : List (List ℕ))
        → Ends (pass_loop elide options fuel out (code ++ (ret ∷ []))).0
    unfolding pass_loop
    pass_loop-Ends zero out code = (out ++ code, sym (append_assoc out code (ret ∷ [])))
    pass_loop-Ends (suc fuel) out [] = (out, unfold decide decide_pair in pass_loop-last fuel out)
    pass_loop-Ends (suc fuel) out (a ∷ code) =
        let d = decide elide options out a (code ++ (ret ∷ [])) in
        let (left, e) = decide-Ends out a code in rw e (pass_loop-Ends fuel (out ++ d.emitted) left)

    module _ (suffix : List (List ℕ)) (plain : All NoReturn suffix) where
      return_end-data : (texts : List (List ℕ)) → All NoReturn texts → return_end texts ≡ none
      unfolding return_end
      return_end-data [] h = refl
      return_end-data (s ∷ texts) (h, k) = rw (return_end-data texts k, h) refl

      return_end-last :
          (code : List (List ℕ)) → return_end (code ++ (ret ∷ suffix)) ≡ some (suc (length code))
      unfolding return_end
      return_end-last [] = rw (return_end-data suffix plain, returns) refl
      return_end-last (s ∷ code) = rw (return_end-last code) refl

      prefix :
          (code : List (List ℕ))
          → optimizable_prefix_length (code ++ (ret ∷ suffix)) none ≡ suc (length code)
      unfolding optimizable_prefix_length value_or
      prefix code = rw (return_end-last code) refl

      take_code :
          (code : List (List ℕ))
          → take (suc (length code)) (code ++ (ret ∷ suffix)) ≡ code ++ (ret ∷ [])
      take_code [] = refl
      take_code (s ∷ code) = ap (λ x. s ∷ x) (take_code code)

      drop_code :
          (code : List (List ℕ)) → drop (suc (length code)) (code ++ (ret ∷ suffix)) ≡ suffix
      drop_code [] = refl
      drop_code (s ∷ code) = drop_code code

      run_one_pass-suffix :
          (code : List (List ℕ))
          → (front : List (List ℕ)) × ((run_one_pass elide options none (code ++ (ret ∷ suffix))).0
              ≡ front ++ (ret ∷ suffix))
      unfolding run_one_pass
      run_one_pass-suffix code =
          let (front, e) = pass_loop-Ends (length (code ++ (ret ∷ []))) [] code in
          (
            front,
            rw (prefix code, take_code code, drop_code code, e)
                (append_assoc front (ret ∷ []) suffix),
          )

      -- Where the suffix behind an OP_RETURN has no other OP_RETURN, the rounds of the pass, however
      -- many, leave that OP_RETURN and the suffix at the end of the script as they were, whatever stands
      -- in front.
      pub run_rounds-suffix :
          (rounds : ℕ) (code : List (List ℕ))
          → (front : List (List ℕ)) × (run_rounds elide options rounds (code ++ (ret ∷ suffix))
              ≡ front ++ (ret ∷ suffix))
      unfolding run_rounds
      run_rounds-suffix zero code = (code, refl)
      run_rounds-suffix (suc rounds) code =
          let (front, e) = run_one_pass-suffix code in
          elim (Bool-cases (run_one_pass elide options none (code ++ (ret ∷ suffix))).1) [
            | inl f ↦ let (last, g) = run_rounds-suffix rounds front in (last, rw (f, e) g)
            | inr f ↦ (front, rw f e)
          ]

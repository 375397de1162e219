-- ===== src/Peephole/Rounds.antt =====
-- runOnePass of src/bytecode_peephole_pass.h and the rounds of its loop, on the machine: whole
-- scripts before and after.
use atomic_proof_interpreter.Prelude.{
  ℕ, zero, suc, ◌≡◌, ◌≤◌, ◌<◌, refl, arith, ap, sym, ◌∙◌, Bool, Option, none, some, List, [], ◌∷◌,
  ◌++◌, length, take, drop, take-append-drop, All, All-append, All-take, All-drop, Bool-cases, inl,
  inr,
}
use mathlib.Core.List.{append_assoc, append-nil}
use atomic_proof_interpreter.Vm.Machine.{Signatures, Vm}
use atomic_proof_interpreter.Vm.Text.{run_script}
use atomic_proof_interpreter.Peephole.Placeholders.{PlaceholdersPush}
use atomic_proof_interpreter.Peephole.Push.{LocalRewriteOptions}
use atomic_proof_interpreter.Peephole.Rules.{Rewrite}
use atomic_proof_interpreter.Peephole.Pass.{
  BytecodeInstruction, Decision, or_decide, triple_window, duplicate_window, pair_window,
  decide_pair, decide, pass_loop, optimizable_prefix_length, run_one_pass, run_rounds,
}
use atomic_proof_interpreter.Peephole.Windows.{succeeded, SameRun}
use atomic_proof_interpreter.Peephole.Constants.{IsSolid}
use atomic_proof_interpreter.Peephole.Context.{run-Context}
use atomic_proof_interpreter.Peephole.Decisions.{same_before, same_behind, decide-Good}

module _ (env : Signatures) where
  module _ (elide : Bool) (options : LocalRewriteOptions) where
    or_decide-shorter :
        (n : ℕ) (r : Rewrite) (rest : List (List ℕ)) (other : Decision)
        → length rest < n
        → length other.rest < n
        → length (or_decide r rest other).rest < n
    unfolding or_decide
    or_decide-shorter n none rest other h k = k
    or_decide-shorter n (some new) rest other h k = h

    decide_pair-shorter :
        (out : List (List ℕ)) (a : List ℕ) (v : List (List ℕ))
        → length (decide_pair elide options out a v).rest < suc (length v)
    unfolding decide_pair
    decide_pair-shorter out a [] = omega arith
    decide_pair-shorter out a (b ∷ rest) =
        or_decide-shorter _ (duplicate_window options a b) rest _ (omega arith)
          (or_decide-shorter _ (pair_window elide out a b) rest _ (omega arith) (omega arith))

    decide-shorter :
        (out : List (List ℕ)) (a : List ℕ) (v : List (List ℕ))
        → length (decide elide options out a v).rest < suc (length v)
    unfolding decide
    decide-shorter out a [] = decide_pair-shorter out a []
    decide-shorter out a (b ∷ []) = decide_pair-shorter out a (b ∷ [])
    decide-shorter out a (b ∷ c ∷ rest) =
        or_decide-shorter _ (triple_window a b c) rest _ (omega arith)
          (decide_pair-shorter out a (b ∷ c ∷ rest))

    module _ (known : PlaceholdersPush env options) where
      pass_loop-same :
          (fuel : ℕ) (out v : List (List ℕ)) (vm : Vm)
          → All IsSolid v
          → SameRun env (out ++ v) (pass_loop elide options fuel out v).0 vm
      unfolding pass_loop
      pass_loop-same zero out v vm s = refl
      pass_loop-same (suc fuel) out [] vm s = rw (append-nil out) refl
      pass_loop-same (suc fuel) out (a ∷ v) vm s =
          let d = decide elide options out a v in
          let g = decide-Good env out elide options known a v s in
          same_behind env out (a ∷ v) (d.emitted ++ d.rest) vm
            (λ w ran. g.same w (run-Context env out vm w ran))
          ∙ ap (λ x. succeeded (run_script env x vm)) (sym (append_assoc out d.emitted d.rest))
          ∙ pass_loop-same fuel (out ++ d.emitted) d.rest vm g.rest_solid

      pass_loop-IsSolid :
          (fuel : ℕ) (out v : List (List ℕ))
          → All IsSolid out
          → All IsSolid v
          → All IsSolid (pass_loop elide options fuel out v).0
      unfolding pass_loop
      pass_loop-IsSolid zero out v h s = All-append IsSolid out v h s
      pass_loop-IsSolid (suc fuel) out [] h s = h
      pass_loop-IsSolid (suc fuel) out (a ∷ v) h s =
          let d = decide elide options out a v in
          let g = decide-Good env out elide options known a v s in
          pass_loop-IsSolid fuel (out ++ d.emitted) d.rest
            (All-append IsSolid out d.emitted h g.emitted_solid) g.rest_solid

      -- One round leaves what the machine does with the script as it was.
      run_one_pass-same :
          (artifact : Option (List BytecodeInstruction)) (v : List (List ℕ)) (vm : Vm)
          → All IsSolid v
          → SameRun env v (run_one_pass elide options artifact v).0 vm
      unfolding run_one_pass
      run_one_pass-same artifact v vm s =
          let end = optimizable_prefix_length v artifact in
          let front = take end v in
          let round = (pass_loop elide options (length front) [] front).0 in
          ap (λ x. succeeded (run_script env x vm)) (sym (take-append-drop end v))
          ∙ same_before env front round (drop end v) vm
              (pass_loop-same (length front) [] front vm (All-take IsSolid end v s))

      run_one_pass-IsSolid :
          (artifact : Option (List BytecodeInstruction)) (v : List (List ℕ))
          → All IsSolid v
          → All IsSolid (run_one_pass elide options artifact v).0
      unfolding run_one_pass
      run_one_pass-IsSolid artifact v s =
          let end = optimizable_prefix_length v artifact in
          All-append IsSolid _ _
            (pass_loop-IsSolid (length (take end v)) [] (take end v) tt (All-take IsSolid end v s))
            (All-drop IsSolid end v s)

      -- The rounds leave what the machine does with the script as it was, for any number of them, from
      -- any state, with and without the removal of OP_1 OP_VERIFY: the run fails before and after, or
      -- it ends in the same state, behind the script or at an OP_RETURN before and after. What the machine
      -- does with the opcodes left out is arbitrary. Placeholders of known size are taken to stand for the
      -- push of one element each, and no text may be an OP_PUSHDATA without payload, which the machine
      -- refuses. The pc stays at its start.
      pub run_rounds-same :
          (rounds : ℕ) (v : List (List ℕ)) (vm : Vm)
          → All IsSolid v
          → SameRun env v (run_rounds elide options rounds v) vm
      unfolding run_rounds
      run_rounds-same zero v vm s = refl
      run_rounds-same (suc rounds) v vm s =
          let once = run_one_pass-same none v vm s in
          elim (Bool-cases (run_one_pass elide options none v).1) [
            | inl e ↦ rw e (
                once
                ∙ run_rounds-same rounds (run_one_pass elide options none v).0 vm
                    (run_one_pass-IsSolid none v s))
            | inr e ↦ rw e once
          ]

    -- Each decision leaves fewer instructions, so that the loop of runOnePass ends: any fuel of at
    -- least the number of instructions left gives the same result.
    pub pass_loop-fuel :
        (n m : ℕ) (out v : List (List ℕ))
        → length v ≤ n
        → length v ≤ m
        → pass_loop elide options n out v ≡ pass_loop elide options m out v
    unfolding pass_loop
    pass_loop-fuel zero zero out v h k = refl
    pass_loop-fuel zero (suc m) out [] h k = rw (append-nil out) refl
    pass_loop-fuel zero (suc m) out (a ∷ v) h k = absurd (omega arith)
    pass_loop-fuel (suc n) zero out [] h k = rw (append-nil out) refl
    pass_loop-fuel (suc n) zero out (a ∷ v) h k = absurd (omega arith)
    pass_loop-fuel (suc n) (suc m) out [] h k = refl
    pass_loop-fuel (suc n) (suc m) out (a ∷ v) h k =
        let d = decide elide options out a v in
        let fewer = decide-shorter out a v in
        rw
          (pass_loop-fuel n m (out ++ d.emitted) d.rest (omega (arith, fewer))
            (omega (arith, fewer)))
          refl

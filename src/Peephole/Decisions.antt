-- ===== src/Peephole/Decisions.antt =====
-- The decisions of runOnePass of src/bytecode_peephole_pass.h: each leaves what the machine does.
use atomic_proof_interpreter.Prelude.{
  ℕ, ◌≡◌, refl, arith, ap, sym, ◌∙◌, Bool, false, none, some, List, [], ◌∷◌, ◌++◌, All, ok, ◌>>=◌,
  Result, Result-cases, Bool-cases, inl, inr,
}
use atomic_proof_interpreter.Vm.Machine.{
  BytOpcode, Signatures, Vm, VmState, is_currently_executing, all_true, Run, going, stopped,
  and_then,
}
use atomic_proof_interpreter.Vm.Text.{
  read_text, run_instruction, run_texts, run_script, text_returns,
}
use atomic_proof_interpreter.Vm.Stack.{VmError}
use atomic_proof_interpreter.Peephole.Push.{LocalRewriteOptions, is_profitable_duplicate_push}
use atomic_proof_interpreter.Peephole.Rules.{Rewrite, try_rewrite_triple, try_rewrite_pair}
use atomic_proof_interpreter.Peephole.Pass.{
  Decision, decided, or_decide, triple_window, duplicate_window, pair_window, decide_pair, decide,
}
use atomic_proof_interpreter.Peephole.Windows.{succeeded, succeeded-bind, SameRun}
use atomic_proof_interpreter.Peephole.Constants.{IsSolid}
use atomic_proof_interpreter.Peephole.Context.{Context, dead-Context}
use atomic_proof_interpreter.Peephole.Soundness.{hex-IsSolid, IsSound, if_IsSound}
use atomic_proof_interpreter.Peephole.Control.{try_rewrite_pair-IsSound}
use atomic_proof_interpreter.Peephole.TripleRules.{try_rewrite_triple-Sound}
use atomic_proof_interpreter.Peephole.Placeholders.{PlaceholdersPush}
use atomic_proof_interpreter.Peephole.Duplicates.{is_profitable_duplicate_push-SameRun}

module _ (env : Signatures) where
  run_script-bind :
      (xs ys : List (List ℕ)) (vm : Vm)
      → run_script env (xs ++ ys) vm ≡ (run_script env xs vm >>= and_then (run_script env ys))
  unfolding run_script and_then
  run_script-bind [] ys vm = refl
  run_script-bind (x ∷ xs) ys vm = elim (Result-cases (run_instruction env x (read_text x) vm)) [
    | inl (w, e) ↦ elim (Bool-cases (text_returns (read_text x) vm)) [
      | inl r ↦ rw (e, r) refl
      | inr r ↦ rw (e, r) (run_script-bind xs ys w)
    ]
    | inr (d, e) ↦ rw e refl
  ]

  -- What is the same at the front stays so with more behind it, and the other way round.
  pub same_before :
      (xs ys rest : List (List ℕ)) (vm : Vm)
      → SameRun env xs ys vm
      → SameRun env (xs ++ rest) (ys ++ rest) vm
  same_before xs ys rest vm h =
      ap succeeded (run_script-bind xs rest vm)
      ∙ succeeded-bind (run_script env xs vm) (run_script env ys vm)
          (and_then (run_script env rest)) (and_then (run_script env rest)) h (λ w e. refl)
      ∙ sym (ap succeeded (run_script-bind ys rest vm))

  going_injective : (w x : Vm) → ◌≡◌ {A = Result VmError Run} (ok (going w)) (ok (going x)) → w ≡ x
  going_injective w x e = grind arith

  -- A run that reaches the end of the code runs each of its texts.
  pub run_script-going :
      (ts : List (List ℕ)) (vm w : Vm)
      → run_script env ts vm ≡ ok (going w)
      → run_texts env ts vm ≡ ok w
  unfolding run_script run_texts
  run_script-going [] vm w h = ap ok (going_injective vm w h)
  run_script-going (t ∷ ts) vm w h = elim (Result-cases (run_instruction env t (read_text t) vm)) [
    | inl (x, e) ↦ elim (Bool-cases (text_returns (read_text t) vm)) [
      | inl r ↦ absurd (let y = rw (e, r) at h in grind arith)
      | inr r ↦ rw e (run_script-going ts x w (rw (e, r) at h))
    ]
    | inr (d, e) ↦ absurd (let y = rw e at h in grind arith)
  ]

  same_going :
      (out xs ys : List (List ℕ)) (vm : Vm)
      → ((w : Vm) → run_texts env out vm ≡ ok w → SameRun env xs ys w)
      → (r : Run) → run_script env out vm ≡ ok r
      → succeeded (and_then (run_script env xs) r) ≡ succeeded (and_then (run_script env ys) r)
  unfolding and_then
  same_going out xs ys vm h (going w) e = h w (run_script-going out vm w e)
  same_going out xs ys vm h (stopped w) e = refl

  pub same_behind :
      (out xs ys : List (List ℕ)) (vm : Vm)
      → ((w : Vm) → run_texts env out vm ≡ ok w → SameRun env xs ys w)
      → SameRun env (out ++ xs) (out ++ ys) vm
  same_behind out xs ys vm h =
      ap succeeded (run_script-bind out xs vm)
      ∙ succeeded-bind (run_script env out vm) (run_script env out vm)
          (and_then (run_script env xs)) (and_then (run_script env ys)) refl
          (same_going out xs ys vm h)
      ∙ sym (ap succeeded (run_script-bind out ys vm))

  -- A state in a block that does not execute.
  abbrev skipping : Vm
  skipping = record {
    main_stack = [];
    alt_stack = [];
    condition_stack = false ∷ [];
    call_stack = [];
    root_branch_trace = [];
    pc = 0;
    state = VmState.running;
  }

  module _ (out : List (List ℕ)) where
    -- A rewrite that is sound in every state that the instructions emitted so far can lead to.
    abbrev SoundHere : List (List ℕ) → Rewrite → Type 0
    SoundHere old r = (vm : Vm) → Context env out vm → IsSound env vm old r

    sound-IsSolid : (old new : List (List ℕ)) → SoundHere old (some new) → All IsSolid new
    unfolding is_currently_executing all_true
    sound-IsSolid old new h = (h skipping (dead-Context env out skipping refl)).1

    -- A decision for the instructions left: the machine does the same.
    pub record Good (left : List (List ℕ)) (d : Decision) : Type 0 where
      pub same : (vm : Vm) → Context env out vm → SameRun env left (d.emitted ++ d.rest) vm
      pub emitted_solid : All IsSolid d.emitted
      pub rest_solid : All IsSolid d.rest

    or_decide-Good :
        (win rest : List (List ℕ)) (r : Rewrite) (other : Decision)
        → SoundHere win r
        → All IsSolid rest
        → Good (win ++ rest) other
        → Good (win ++ rest) (or_decide r rest other)
    unfolding or_decide
    or_decide-Good win rest none other h k g = g
    or_decide-Good win rest (some new) other h k g = record {
      same = λ vm c. same_before win new rest vm (h vm c).0;
      emitted_solid = sound-IsSolid win new h;
      rest_solid = k;
    }

    keep-Good :
        (a : List ℕ) (v : List (List ℕ))
        → All IsSolid (a ∷ v)
        → Good (a ∷ v) (decided (a ∷ []) v false)
    keep-Good a v (sa, sv) = record {
      same = λ vm c. refl;
      emitted_solid = (sa, tt);
      rest_solid = sv;
    }

    module _ (elide : Bool) (options : LocalRewriteOptions) where
      triple_sound :
          (a b c : List ℕ)
          → IsSolid a
          → IsSolid b
          → SoundHere (a ∷ b ∷ c ∷ []) (triple_window a b c)
      unfolding triple_window
      triple_sound a b c sa sb vm k =
          if_IsSound env vm (a ∷ b ∷ c ∷ []) _ (try_rewrite_triple a b c) none
            (λ h. try_rewrite_triple-Sound env vm a b c sa sb) tt

      pair-IsSound : (a b : List ℕ) → IsSolid a → SoundHere (a ∷ b ∷ []) (pair_window elide out a b)
      unfolding pair_window
      pair-IsSound a b sa vm k =
          if_IsSound env vm (a ∷ b ∷ []) _ (try_rewrite_pair a b out elide) none
            (λ h. try_rewrite_pair-IsSound env out vm k a b elide sa) tt

      module _ (known : PlaceholdersPush env options) where
        duplicate_sound :
            (a b : List ℕ) → IsSolid a → SoundHere (a ∷ b ∷ []) (duplicate_window options a b)
        unfolding duplicate_window
        duplicate_sound a b sa vm k =
            if_IsSound env vm (a ∷ b ∷ []) (is_profitable_duplicate_push a b options) _ none
              (λ h. (
                is_profitable_duplicate_push-SameRun env options a b vm known h sa,
                (sa, hex-IsSolid BytOpcode.dup_ tt),
              ))
              tt

        decide_pair-Good :
            (a : List ℕ) (v : List (List ℕ))
            → All IsSolid (a ∷ v)
            → Good (a ∷ v) (decide_pair elide options out a v)
        unfolding decide_pair
        decide_pair-Good a [] s = keep-Good a [] s
        decide_pair-Good a (b ∷ rest) (sa, (sb, s)) =
            or_decide-Good (a ∷ b ∷ []) rest _ _ (duplicate_sound a b sa) s (
              or_decide-Good (a ∷ b ∷ []) rest _ _ (pair-IsSound a b sa) s
                (keep-Good a (b ∷ rest) (sa, (sb, s))))

        pub decide-Good :
            (a : List ℕ) (v : List (List ℕ))
            → All IsSolid (a ∷ v)
            → Good (a ∷ v) (decide elide options out a v)
        unfolding decide
        decide-Good a [] s = decide_pair-Good a [] s
        decide-Good a (b ∷ []) s = decide_pair-Good a (b ∷ []) s
        decide-Good a (b ∷ c ∷ rest) (sa, (sb, (sc, s))) =
            or_decide-Good (a ∷ b ∷ c ∷ []) rest _ _ (triple_sound a b c sa sb) s
              (decide_pair-Good a (b ∷ c ∷ rest) (sa, (sb, (sc, s))))

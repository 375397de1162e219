-- ===== src/Planner/Assignment.antt =====
-- planCopyAssignment of src/bytecode/stack_permutation_planner.cpp: what a plan that the copy search
-- finds does on the machine of src/debugger/vm/bvm_simulator.cpp.
use atomic_proof_interpreter.Prelude.{
  ℕ, zero, suc, ◌+◌, ◌≡◌, ◌≤◌, refl, arith, ap, ◌∙◌, true, some, List, [], ◌∷◌, ◌++◌, length,
  get_or, map, ◌==◌, ok,
}
use atomic_proof_interpreter.Vm.Number.{Element}
use atomic_proof_interpreter.Vm.Stack.{Stack}
use atomic_proof_interpreter.Vm.Machine.{Signatures, Vm, all_true}
use atomic_proof_interpreter.Vm.Text.{run_texts}
use atomic_proof_interpreter.Planner.Step.{StackPlanStep}
use atomic_proof_interpreter.Planner.Moves.{CopyState, run_plan, iota}
use atomic_proof_interpreter.Planner.Machine.{with_stacks}
use atomic_proof_interpreter.Planner.Plans.{plan_instructions, run_texts-plan_instructions}
use atomic_proof_interpreter.Planner.Copy.{
  Reaches, initial, is_copy_goal, same_tokens, goal, set_at,
}
use atomic_proof_interpreter.Planner.Reach.{Reaches-run_plan}
use atomic_proof_interpreter.Planner.Naturality.{map_state, run_plan-map}

same_tokens→eq : (xs ys : List ℕ) → same_tokens xs ys ≡ true → xs ≡ ys
unfolding same_tokens
same_tokens→eq [] [] h = refl
same_tokens→eq [] (y ∷ ys) h = absurd (ground arith)
same_tokens→eq (x ∷ xs) [] h = absurd (ground arith)
same_tokens→eq (x ∷ xs) (y ∷ ys) h =
    let e : x ≡ y = ground arith in
    let rest : xs ≡ ys = same_tokens→eq xs ys (ground arith) in rw (e, rest) refl

-- The element that a token stands for.
abbrev element : Stack → ℕ → Element
element es slot = get_or es slot []

map-iota-shift :
    (x : Element) (es : Stack) (first n : ℕ)
    → map (element (x ∷ es)) (iota (suc first) n) ≡ map (element es) (iota first n)
unfolding iota
map-iota-shift x es first zero = refl
map-iota-shift x es first (suc n) =
    let next : suc first + 1 ≡ suc (first + 1) = omega arith in
    rw next (ap (λ (l : Stack). element es first ∷ l) (map-iota-shift x es (first + 1) n))

map-iota : (es : Stack) → map (element es) (iota 0 (length es)) ≡ es
unfolding iota
map-iota [] = refl
map-iota (x ∷ es) = ap (λ (l : Stack). x ∷ l) (map-iota-shift x es 0 (length es) ∙ map-iota es)

map-set_at :
    (f : ℕ → Element) (depth e : ℕ) (xs : List ℕ)
    → map f (set_at depth e xs) ≡ set_at depth (f e) (map f xs)
unfolding set_at
map-set_at f depth e [] = refl
map-set_at f zero e (x ∷ xs) = refl
map-set_at f (suc depth) e (x ∷ xs) = ap (λ (l : Stack). f x ∷ l) (map-set_at f depth e xs)

map-goal :
    (es : Stack) (source target : ℕ)
    → map (element es) (goal (length es) source target) ≡ set_at target (element es source) es
unfolding goal
map-goal es source target =
    map-set_at (element es) target source (iota 0 (length es))
    ∙ ap (set_at target (element es source)) (map-iota es)

empty_length : (xs : List ℕ) → (length xs == 0) ≡ true → xs ≡ []
empty_length [] h = refl
empty_length (x ∷ xs) h = absurd (ground arith)

goal_state :
    (st : CopyState ℕ) (tokens : List ℕ)
    → is_copy_goal st tokens ≡ true
    → (st.main ≡ tokens) × (st.alt ≡ [])
unfolding is_copy_goal
goal_state st tokens h =
    (same_tokens→eq st.main tokens (ground arith), empty_length st.alt (ground arith))

-- Let a chain of the copy search lead from a window's first state to the goal of copying the source
-- slot over the target slot. On a machine that is executing, with any elements in the window, at most
-- 15, the text emitted for the chain's steps runs to the end, replaces the target slot by a copy of
-- the source slot, and leaves every other slot, all below the window, the alternative stack and the
-- rest of the machine as they were.
pub run_texts-Reaches :
    (env : Signatures) (vm : Vm) (es below frozen : Stack) (source target : ℕ)
    (steps : List StackPlanStep) (st : CopyState ℕ)
    → all_true vm.condition_stack ≡ true
    → length es ≤ 15
    → Reaches (length es) source target steps st
    → is_copy_goal st (goal (length es) source target) ≡ true
    → run_texts env (plan_instructions steps) (with_stacks vm (es ++ below) frozen)
      ≡ ok (with_stacks vm (set_at target (get_or es source []) es ++ below) frozen)
unfolding initial
run_texts-Reaches env vm es below frozen source target steps st live h chain g =
    let (run, shallow, sized) = Reaches-run_plan (length es) source target steps st h chain in
    let (main, alt) = goal_state st (goal (length es) source target) g in
    let mapped : run_plan steps (map_state (element es) (initial (length es)))
        ≡ some (map_state (element es) st) =
      run_plan-map (element es) steps (initial (length es)) st run in
    rw (main, alt, map-goal es source target, map-iota es) at
      (run_texts-plan_instructions env vm steps (map_state (element es) (initial (length es)))
        (map_state (element es) st) below frozen live shallow mapped)

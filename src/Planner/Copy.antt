-- ===== src/Planner/Copy.antt =====
-- The copy search of src/bytecode/stack_permutation_planner.cpp: copyNeighbours, isCopyGoal, and the
-- chains of neighbours that searchCopyAssignment follows from its first state.
use atomic_proof_interpreter.Prelude.{
  ℕ, zero, suc, ◌+◌, Bool, true, false, ◌&&◌, none, some, List, [], ◌∷◌, ◌++◌, length, get_elem?,
  drop, leb, ◌==◌, if◌then◌else◌,
}
use mathlib.Core.List.{Memᴰ}
use atomic_proof_interpreter.Planner.Step.{StackPlanOp, StackPlanStep, step}
use atomic_proof_interpreter.Planner.Moves.{CopyState, copy_step, move_only_operations, iota}

-- Whether the stack has the token at a depth.
unfoldable pub has_token : List ℕ → ℕ → ℕ → Bool
has_token main depth token = elim (get_elem? main depth) [ none ↦ false | some e ↦ e == token ]

-- The loop over the depths from 2, with the entries at those depths.
unfoldable pub picks_from : ℕ → ℕ → List ℕ → List StackPlanStep
picks_from token depth [] = []
picks_from token depth (e ∷ entries) =
    let rest = picks_from token (depth + 1) entries in
    if e == token then step StackPlanOp.pick depth ∷ rest else rest

unfoldable pub copy_operations : List ℕ → ℕ → List StackPlanStep
unfolding has_token picks_from
copy_operations main source =
    (if has_token main 0 source
      then step StackPlanOp.dup 0
        ∷ (if leb 2 (length main) then step StackPlanOp.tuck 1 ∷ [] else [])
      else [])
    ++ ((if has_token main 1 source then step StackPlanOp.over 1 ∷ [] else [])
        ++ picks_from source 2 (drop 2 main))

unfoldable pub delete_operations : List ℕ → ℕ → List StackPlanStep
unfolding has_token
delete_operations main target =
    (if has_token main 0 target then step StackPlanOp.drop 0 ∷ [] else [])
    ++ (if has_token main 1 target then step StackPlanOp.nip 1 ∷ [] else [])

-- The operations tried in a state, in their order.
unfoldable pub operations : CopyState ℕ → ℕ → ℕ → List StackPlanStep
unfolding copy_operations delete_operations move_only_operations
operations state source target =
    (if state.copied then [] else copy_operations state.main source)
    ++ ((if state.deleted then [] else delete_operations state.main target)
        ++ (move_only_operations (length state.main)
            ++ ((if length state.main == 0 then [] else step StackPlanOp.to_alt_stack 0 ∷ [])
                ++ (if length state.alt == 0 then [] else step StackPlanOp.from_alt_stack 0 ∷ []))))

-- Only the operations that apply.
unfoldable pub neighbours_by : CopyState ℕ → List StackPlanStep → List (CopyState ℕ × StackPlanStep)
neighbours_by state [] = []
neighbours_by state (s ∷ steps) = elim (copy_step state s.op s.depth) [
  | none ↦ neighbours_by state steps
  | some next ↦ (next, s) ∷ neighbours_by state steps
]

unfoldable pub copy_neighbours : CopyState ℕ → ℕ → ℕ → List (CopyState ℕ × StackPlanStep)
unfolding operations neighbours_by
copy_neighbours state source target = neighbours_by state (operations state source target)

unfoldable pub same_tokens : List ℕ → List ℕ → Bool
same_tokens [] [] = true
same_tokens (x ∷ xs) (y ∷ ys) = x == y && same_tokens xs ys
same_tokens _ _ = false

unfoldable pub is_copy_goal : CopyState ℕ → List ℕ → Bool
unfolding same_tokens
is_copy_goal state goal =
    state.copied && (state.deleted && (length state.alt == 0 && same_tokens state.main goal))

-- The first state: the window's slots, numbered from the top.
unfoldable pub initial : ℕ → CopyState ℕ
unfolding iota
initial window = record { main = iota 0 window; alt = []; copied = false; deleted = false }

-- `goal[targetDepth] = sourceDepth`
unfoldable pub set_at {ℓ} : {A : Type ℓ} → ℕ → A → List A → List A
set_at depth e [] = []
set_at zero e (x ∷ xs) = e ∷ xs
set_at (suc depth) e (x ∷ xs) = x ∷ set_at depth e xs

unfoldable pub goal : ℕ → ℕ → ℕ → List ℕ
unfolding iota set_at
goal window source target = set_at target source (iota 0 window)

-- States that a chain of neighbours reaches, with the steps taken.
pub data Reaches (window source target : ℕ) : List StackPlanStep → CopyState ℕ → Type 0 where
  start : Reaches window source target [] (initial window)
  extend :
      {steps : List StackPlanStep} {state next : CopyState ℕ} {s : StackPlanStep}
      → Reaches window source target steps state
      → Memᴰ (next, s) (copy_neighbours state source target)
      → Reaches window source target (steps ++ (s ∷ [])) next

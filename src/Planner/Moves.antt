-- ===== src/Planner/Moves.antt =====
-- What the steps of src/bytecode/stack_permutation_planner.cpp do to the planner's stacks, with the
-- top first: applyMoveOnly, addCopyNeighbour and moveOnlyOperations.
use atomic_proof_interpreter.Prelude.{
  ℕ, zero, suc, ◌+◌, ◌-◌, Bool, true, false, Option, none, some, List, [], ◌∷◌, ◌++◌, get_elem?,
  leb, if◌then◌else◌,
}
use atomic_proof_interpreter.Planner.Step.{
  StackPlanOp, StackPlanStep, step, swap, rot, two_swap, two_rot, roll, dup, over, pick, drop, nip,
  tuck, to_alt_stack, from_alt_stack,
}

-- `none` is a step that does not apply.
unfoldable pub without {ℓ} : {A : Type ℓ} → ℕ → List A → List A
without depth [] = []
without zero (e ∷ stack) = stack
without (suc depth) (e ∷ stack) = e ∷ without depth stack

unfoldable pub roll_front {ℓ} : {A : Type ℓ} → ℕ → List A → Option (List A)
unfolding without
roll_front depth stack = elim (get_elem? stack depth) [
  | none ↦ none
  | some e ↦ some (e ∷ without depth stack)
]

unfoldable pub swap_front {ℓ} : {A : Type ℓ} → List A → Option (List A)
swap_front (a ∷ b ∷ s) = some (b ∷ a ∷ s)
swap_front _ = none

unfoldable pub two_swap_front {ℓ} : {A : Type ℓ} → List A → Option (List A)
two_swap_front (a ∷ b ∷ c ∷ d ∷ s) = some (c ∷ d ∷ a ∷ b ∷ s)
two_swap_front _ = none

unfoldable pub two_rot_front {ℓ} : {A : Type ℓ} → List A → Option (List A)
two_rot_front (a ∷ b ∷ c ∷ d ∷ e ∷ f ∷ s) = some (e ∷ f ∷ a ∷ b ∷ c ∷ d ∷ s)
two_rot_front _ = none

unfoldable pub apply_move {ℓ} : {A : Type ℓ} → StackPlanOp → ℕ → List A → Option (List A)
unfolding roll_front swap_front two_swap_front two_rot_front
apply_move swap depth stack = swap_front stack
apply_move rot depth stack = roll_front 2 stack
apply_move two_swap depth stack = two_swap_front stack
apply_move two_rot depth stack = two_rot_front stack
apply_move roll depth stack = roll_front depth stack
apply_move _ depth stack = none

unfoldable pub apply_move_only : List ℕ → StackPlanStep → Option (List ℕ)
unfolding apply_move
apply_move_only stack s = apply_move s.op s.depth stack

-- The loop `for (depth = 3; depth < stackSize; ++depth)`.
unfoldable pub rolls_from : ℕ → ℕ → List StackPlanStep
rolls_from depth zero = []
rolls_from depth (suc rounds) = step roll depth ∷ rolls_from (depth + 1) rounds

unfoldable pub move_only_operations : ℕ → List StackPlanStep
unfolding rolls_from
move_only_operations size =
    (if leb 2 size then step swap 1 ∷ [] else [])
    ++ ((if leb 3 size then step rot 2 ∷ [] else [])
        ++ ((if leb 4 size then step two_swap 3 ∷ [] else [])
            ++ ((if leb 6 size then step two_rot 5 ∷ [] else []) ++ rolls_from 3 (size - 3))))

-- Both stacks of the copy search, and which of its two one-time steps have been taken.
pub record CopyState {ℓ} (A : Type ℓ) : Type ℓ where
  pub main : List A
  pub alt : List A
  pub copied : Bool
  pub deleted : Bool

module _ {ℓ} {A : Type ℓ} where
  unfoldable pub moved : CopyState A → Option (List A) → Option (CopyState A)
  moved state none = none
  moved state (some main) = some (record state { main = main })

  -- One copy only.
  unfoldable pub copied_to : CopyState A → Bool → Option (List A) → Option (CopyState A)
  copied_to state true main = none
  copied_to state false none = none
  copied_to state false (some main) = some (record state { main = main; copied = true })

  unfoldable pub deleted_to : CopyState A → Bool → Option (List A) → Option (CopyState A)
  deleted_to state true main = none
  deleted_to state false none = none
  deleted_to state false (some main) = some (record state { main = main; deleted = true })

  unfoldable pub copy_front : ℕ → List A → Option (List A)
  copy_front depth main = elim (get_elem? main depth) [ none ↦ none | some e ↦ some (e ∷ main) ]

  unfoldable pub tuck_front : List A → Option (List A)
  tuck_front (a ∷ b ∷ s) = some (a ∷ b ∷ a ∷ s)
  tuck_front _ = none

  unfoldable pub drop_front : List A → Option (List A)
  drop_front [] = none
  drop_front (a ∷ s) = some s

  unfoldable pub nip_front : List A → Option (List A)
  nip_front (a ∷ b ∷ s) = some (a ∷ s)
  nip_front _ = none

  unfoldable pub to_alt : CopyState A → List A → Option (CopyState A)
  to_alt state [] = none
  to_alt state (a ∷ s) = some (record state { main = s; alt = a ∷ state.alt })

  unfoldable pub from_alt : CopyState A → List A → Option (CopyState A)
  from_alt state [] = none
  from_alt state (a ∷ s) = some (record state { main = a ∷ state.main; alt = s })

  -- The state that addCopyNeighbour appends, if the step applies.
  unfoldable pub copy_step : CopyState A → StackPlanOp → ℕ → Option (CopyState A)
  unfolding moved copied_to deleted_to copy_front tuck_front drop_front nip_front to_alt from_alt
      apply_move
  copy_step state dup depth = copied_to state state.copied (copy_front 0 state.main)
  copy_step state over depth = copied_to state state.copied (copy_front 1 state.main)
  copy_step state pick depth = copied_to state state.copied (copy_front depth state.main)
  copy_step state tuck depth = copied_to state state.copied (tuck_front state.main)
  copy_step state drop depth = deleted_to state state.deleted (drop_front state.main)
  copy_step state nip depth = deleted_to state state.deleted (nip_front state.main)
  copy_step state to_alt_stack depth = to_alt state state.main
  copy_step state from_alt_stack depth = from_alt state state.alt
  copy_step state op depth = moved state (apply_move op depth state.main)

  -- A plan applied step by step.
  unfoldable pub run_plan : List StackPlanStep → CopyState A → Option (CopyState A)
  run_plan [] state = some state
  run_plan (s ∷ steps) state = elim (copy_step state s.op s.depth) [
    | none ↦ none
    | some next ↦ run_plan steps next
  ]

unfoldable pub iota : ℕ → ℕ → List ℕ
iota first zero = []
iota first (suc n) = first ∷ iota (first + 1) n

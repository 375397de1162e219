-- ===== src/Planner/Stacks.antt =====
-- Each step of stack_permutation_planner.cpp against the instruction of bvm_simulator.cpp that it
-- stands for, on the window that the planner sees and whatever lies below it.
use atomic_proof_interpreter.Prelude.{
  ◌≡◌, arith, Bool, true, false, Option, none, some, [], ◌∷◌, ◌++◌, ok,
}
use atomic_proof_interpreter.Vm.Number.{Element}
use atomic_proof_interpreter.Vm.Stack
use atomic_proof_interpreter.Vm.Stack.{VmError, Stack, Outcome}
use atomic_proof_interpreter.Vm.Ops.{op_over, op_rot, op_2rot, op_2swap, op_nip, op_tuck}
use atomic_proof_interpreter.Planner.Moves.{
  CopyState, roll_front, swap_front, two_swap_front, two_rot_front, copy_front, tuck_front,
  drop_front, nip_front, moved, copied_to, deleted_to,
}

-- The instruction acts on the window as the planner's function does.
abbrev pub Agrees : (Stack → Outcome) → (Stack → Option Stack) → Type 0
Agrees f g = (xs ys below : Stack) → g xs ≡ some ys → f (xs ++ below) ≡ ok (ys ++ below)

pub swap-Agrees : Agrees Stack.swap swap_front
unfolding Stack.swap swap_front
swap-Agrees [] ys below h = cc
swap-Agrees (a ∷ []) ys below h = cc
swap-Agrees (a ∷ b ∷ s) ys below h = ground arith

pub swap_roll-Agrees : Agrees Stack.swap (roll_front 1)
unfolding Stack.swap roll_front
swap_roll-Agrees [] ys below h = cc
swap_roll-Agrees (a ∷ []) ys below h = cc
swap_roll-Agrees (a ∷ b ∷ s) ys below h = ground arith

-- A roll by 0 moves nothing.
pub roll_zero : (xs ys : Stack) → roll_front 0 xs ≡ some ys → ys ≡ xs
unfolding roll_front
roll_zero [] ys h = cc
roll_zero (a ∷ s) ys h = ground arith

pub rot-Agrees : Agrees op_rot (roll_front 2)
unfolding op_rot roll_front
rot-Agrees [] ys below h = cc
rot-Agrees (a ∷ []) ys below h = cc
rot-Agrees (a ∷ b ∷ []) ys below h = cc
rot-Agrees (a ∷ b ∷ c ∷ s) ys below h = ground arith

pub two_swap-Agrees : Agrees op_2swap two_swap_front
unfolding op_2swap two_swap_front
two_swap-Agrees [] ys below h = cc
two_swap-Agrees (a ∷ []) ys below h = cc
two_swap-Agrees (a ∷ b ∷ []) ys below h = cc
two_swap-Agrees (a ∷ b ∷ c ∷ []) ys below h = cc
two_swap-Agrees (a ∷ b ∷ c ∷ d ∷ s) ys below h = ground arith

pub two_rot-Agrees : Agrees op_2rot two_rot_front
unfolding op_2rot two_rot_front
two_rot-Agrees [] ys below h = cc
two_rot-Agrees (a ∷ []) ys below h = cc
two_rot-Agrees (a ∷ b ∷ []) ys below h = cc
two_rot-Agrees (a ∷ b ∷ c ∷ []) ys below h = cc
two_rot-Agrees (a ∷ b ∷ c ∷ d ∷ []) ys below h = cc
two_rot-Agrees (a ∷ b ∷ c ∷ d ∷ e ∷ []) ys below h = cc
two_rot-Agrees (a ∷ b ∷ c ∷ d ∷ e ∷ f ∷ s) ys below h = ground arith

pub dup-Agrees : Agrees Stack.dup (copy_front 0)
unfolding Stack.dup copy_front
dup-Agrees [] ys below h = cc
dup-Agrees (a ∷ s) ys below h = ground arith

pub over-Agrees : Agrees op_over (copy_front 1)
unfolding op_over copy_front
over-Agrees [] ys below h = cc
over-Agrees (a ∷ []) ys below h = cc
over-Agrees (a ∷ b ∷ s) ys below h = ground arith

pub tuck-Agrees : Agrees op_tuck tuck_front
unfolding op_tuck tuck_front
tuck-Agrees [] ys below h = cc
tuck-Agrees (a ∷ []) ys below h = cc
tuck-Agrees (a ∷ b ∷ s) ys below h = ground arith

pub drop-Agrees : Agrees Stack.drop_top drop_front
unfolding Stack.drop_top drop_front
drop-Agrees [] ys below h = cc
drop-Agrees (a ∷ s) ys below h = ground arith

pub nip-Agrees : Agrees op_nip nip_front
unfolding op_nip nip_front
nip-Agrees [] ys below h = cc
nip-Agrees (a ∷ []) ys below h = cc
nip-Agrees (a ∷ b ∷ s) ys below h = ground arith

-- What a step that applied has done to the planner's state.
module _ (st st' : CopyState Element) where
  pub moved-inv :
      (m : Option Stack) → moved st m ≡ some st' → (m ≡ some st'.main) × (st'.alt ≡ st.alt)
  unfolding moved
  moved-inv none e = absurd (ground arith)
  moved-inv (some xs) e = ground arith

  pub copied-inv :
      (b : Bool) (m : Option Stack)
      → copied_to st b m ≡ some st'
      → (m ≡ some st'.main) × (st'.alt ≡ st.alt)
  unfolding copied_to
  copied-inv true m e = absurd (ground arith)
  copied-inv false none e = absurd (ground arith)
  copied-inv false (some xs) e = ground arith

  pub deleted-inv :
      (b : Bool) (m : Option Stack)
      → deleted_to st b m ≡ some st'
      → (m ≡ some st'.main) × (st'.alt ≡ st.alt)
  unfolding deleted_to
  deleted-inv true m e = absurd (ground arith)
  deleted-inv false none e = absurd (ground arith)
  deleted-inv false (some xs) e = ground arith

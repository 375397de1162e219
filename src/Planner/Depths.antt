-- ===== src/Planner/Depths.antt =====
-- Depths that stack_permutation_planner.cpp pushes, and what OP_ROLL and OP_PICK of bvm_simulator.cpp
-- do with them.
use atomic_proof_interpreter.Prelude.{
  ℕ, zero, suc, ◌≡◌, ◌≤◌, refl, arith, ap, some, [], ◌∷◌, ◌++◌, get_elem?, ok, inl, inr,
  Option-cases,
}
use atomic_proof_interpreter.Prelude.Int.{pos}
use atomic_proof_interpreter.Vm.Number.{Element, serialize_script_num, to_int}
use atomic_proof_interpreter.Vm.NumberText.{to_int-serialize_script_num}
use atomic_proof_interpreter.Vm.Stack
use atomic_proof_interpreter.Vm.Stack.{VmError, Stack, Outcome, remove_at}
use atomic_proof_interpreter.Vm.Ops.{op_pick, op_roll}
use atomic_proof_interpreter.Vm.Machine.{BytOpcode, Instruction}
use atomic_proof_interpreter.Vm.Text.{opcode_to_hex, read_text}
use atomic_proof_interpreter.Vm.Opcodes.{read_0x_number}
use atomic_proof_interpreter.Planner.Step.{
  StackPlanOp, encoded_instructions_of, number_to_script_hex, number_digits,
}
use atomic_proof_interpreter.Planner.Moves.{without, roll_front, copy_front}

get_elem?-append :
    (xs ys : Stack) (d : ℕ) (e : Element)
    → get_elem? xs d ≡ some e
    → (get_elem? (xs ++ ys) d ≡ some e) × (remove_at d (xs ++ ys) ≡ without d xs ++ ys)
unfolding remove_at without
get_elem?-append [] ys d e h = absurd (ground arith)
get_elem?-append (x ∷ xs) ys zero e h = (h, refl)
get_elem?-append (x ∷ xs) ys (suc d) e h =
    let (same, rest) = get_elem?-append xs ys d e h in (same, ap (λ (s : Stack). x ∷ s) rest)

pub roll-front :
    (d : ℕ) (xs below ys : Stack)
    → roll_front d xs ≡ some ys
    → Stack.roll d (xs ++ below) ≡ ok (ys ++ below)
unfolding roll_front Stack.roll
roll-front d xs below ys h = elim (Option-cases (get_elem? xs d)) [
  | inl e ↦ absurd (ground arith)
  | inr (a, e) ↦ let (p, q) = get_elem?-append xs below d a e in ground (arith, p, q)
]

pub pick-front :
    (d : ℕ) (xs below ys : Stack)
    → copy_front d xs ≡ some ys
    → Stack.pick d (xs ++ below) ≡ ok (ys ++ below)
unfolding copy_front Stack.pick
pick-front d xs below ys h = elim (Option-cases (get_elem? xs d)) [
  | inl e ↦ absurd (ground arith)
  | inr (a, e) ↦ let (p, q) = get_elem?-append xs below d a e in ground (arith, p)
]

to_int-depth : (d : ℕ) → d ≤ 16 → to_int (serialize_script_num (pos d)) ≡ some (pos d)
to_int-depth d h =
    (to_int-serialize_script_num (pos d) (omega arith) (omega arith)).0 (ground arith)

-- With the depth on top, OP_ROLL and OP_PICK do it.
pub op_roll-depth :
    (d : ℕ) (s : Stack) → d ≤ 16 → op_roll (serialize_script_num (pos d) ∷ s) ≡ Stack.roll d s
unfolding op_roll
op_roll-depth d s h = ground (arith, to_int-depth d h)

pub op_pick-depth :
    (d : ℕ) (s : Stack) → d ≤ 16 → op_pick (serialize_script_num (pos d) ∷ s) ≡ Stack.pick d s
unfolding op_pick
op_pick-depth d s h = ground (arith, to_int-depth d h)

pub read_depth :
    (d : ℕ)
    → 1 ≤ d
    → d ≤ 16
    → read_text (number_to_script_hex (pos d)) ≡ some (Instruction.opcode (BytOpcode.op_n d))
unfolding number_to_script_hex number_digits
read_depth zero lo hi = absurd (omega arith)
read_depth (suc n) lo hi = ground (arith, read_0x_number (suc n) lo hi)

pub many_roll :
    (d : ℕ)
    → encoded_instructions_of StackPlanOp.roll (suc (suc (suc d)))
      ≡ number_to_script_hex (pos (suc (suc (suc d)))) ∷ opcode_to_hex BytOpcode.roll ∷ []
unfolding encoded_instructions_of
many_roll d = ground arith

pub many_pick :
    (d : ℕ)
    → encoded_instructions_of StackPlanOp.pick (suc (suc d))
      ≡ number_to_script_hex (pos (suc (suc d))) ∷ opcode_to_hex BytOpcode.pick ∷ []
unfolding encoded_instructions_of
many_pick d = ground arith

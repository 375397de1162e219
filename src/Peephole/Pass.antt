-- ===== src/Peephole/Pass.antt =====
-- One round of src/bytecode_peephole_pass.h and the rounds of its loop: optimizablePrefixLength,
-- runOnePass, countBytes. The typed script is that of src/bytecode/bytecode_ir.h.
use atomic_proof_interpreter.Prelude.{
  ℕ, zero, suc, ◌+◌, ◌/◌, Bool, true, false, not, ◌&&◌, ◌||◌, Option, none, some, List, [], ◌∷◌,
  ◌++◌, length, take, drop, ◌==◌, if◌then◌else◌,
}
use atomic_proof_interpreter.Vm.Machine.{BytOpcode}
use atomic_proof_interpreter.Vm.Text.{opcode_to_hex}
use atomic_proof_interpreter.Peephole.Text.{is_pure_hex, is_op, is_inert, is_control_flow}
use atomic_proof_interpreter.Peephole.Push.{LocalRewriteOptions, is_profitable_duplicate_push}
use atomic_proof_interpreter.Peephole.Rules.{Rewrite, try_rewrite_triple, try_rewrite_pair}

pub data ScriptRegion : Type 0 where
  executable padding immutable_suffix : ScriptRegion

-- An opcode is its number.
pub data InstructionBody : Type 0 where
  opcode : ℕ → InstructionBody
  push_data : List ℕ → InstructionBody
  placeholder_push : List ℕ → Option ℕ → InstructionBody
  raw_suffix legacy_barrier : List ℕ → InstructionBody

-- The fields that the pass reads.
pub record BytecodeInstruction : Type 0 where
  pub body : InstructionBody
  pub region : ScriptRegion

unfoldable is_executable : ScriptRegion → Bool
is_executable executable = true
is_executable _ = false

unfoldable is_return : InstructionBody → Bool
is_return (opcode n) = n == 0x6a
is_return _ = false

unfoldable pub value_or : Option ℕ → ℕ → ℕ
value_or none n = n
value_or (some m) n = m

-- The loop over the typed script, at index i.
unfoldable artifact_end : ℕ → ℕ → Option ℕ → Bool → List BytecodeInstruction → ℕ
unfolding is_executable is_return value_or
artifact_end i executable_end return_end left [] = value_or return_end executable_end
artifact_end i executable_end return_end left (x ∷ xs) =
    let inside = is_executable x.region in
    let rest =
      artifact_end (i + 1) (if inside then i + 1 else executable_end)
        (if inside && is_return x.body then some (i + 1) else return_end)
        (if inside then left else true) xs in
    if inside && left then 0 else rest

-- The loop from the end: the length up to the last OP_RETURN.
unfoldable pub return_end : List (List ℕ) → Option ℕ
unfolding is_op
return_end [] = none
return_end (s ∷ texts) = elim (return_end texts) [
  | none ↦ (if is_op s BytOpcode.return_ then some 1 else none)
  | some n ↦ some (suc n)
]

unfoldable pub optimizable_prefix_length : List (List ℕ) → Option (List BytecodeInstruction) → ℕ
unfolding return_end artifact_end value_or
optimizable_prefix_length instructions none =
    value_or (return_end instructions) (length instructions)
optimizable_prefix_length instructions (some script) =
    if length script == length instructions then artifact_end 0 0 none false script else 0

-- What is emitted for the front of the instructions left, what is left then, and whether a rule
-- applied.
pub record Decision : Type 0 where
  pub emitted : List (List ℕ)
  pub rest : List (List ℕ)
  pub changed : Bool

abbrev pub decided : List (List ℕ) → List (List ℕ) → Bool → Decision
decided emitted rest changed = record { emitted = emitted; rest = rest; changed = changed }

-- A rewrite, or else another decision.
unfoldable pub or_decide : Rewrite → List (List ℕ) → Decision → Decision
or_decide none rest other = other
or_decide (some replacements) rest other = decided replacements rest true

unfoldable pub straight_line : List ℕ → Bool
unfolding is_inert is_control_flow
straight_line s = not (is_inert s) && not (is_control_flow s)

unfoldable pub triple_window : List ℕ → List ℕ → List ℕ → Rewrite
unfolding straight_line try_rewrite_triple
triple_window a b c =
    if straight_line a && (straight_line b && straight_line c)
    then try_rewrite_triple a b c
    else none

unfoldable pub duplicate_window : LocalRewriteOptions → List ℕ → List ℕ → Rewrite
unfolding is_profitable_duplicate_push
duplicate_window options a b =
    if is_profitable_duplicate_push a b options
    then some (a ∷ opcode_to_hex BytOpcode.dup_ ∷ [])
    else none

unfoldable pub pair_window : Bool → List (List ℕ) → List ℕ → List ℕ → Rewrite
unfolding straight_line is_inert try_rewrite_pair
pair_window elide out a b =
    if straight_line a && not (is_inert b) then try_rewrite_pair a b out elide else none

module _ (elide : Bool) (options : LocalRewriteOptions) where
  -- The rules for two instructions, in their order.
  unfoldable pub decide_pair : List (List ℕ) → List ℕ → List (List ℕ) → Decision
  unfolding or_decide duplicate_window pair_window
  decide_pair out a [] = decided (a ∷ []) [] false
  decide_pair out a (b ∷ rest) =
      or_decide (duplicate_window options a b) rest
        (or_decide (pair_window elide out a b) rest (decided (a ∷ []) (b ∷ rest) false))

  unfoldable pub decide : List (List ℕ) → List ℕ → List (List ℕ) → Decision
  unfolding or_decide triple_window decide_pair
  decide out a (b ∷ c ∷ rest) =
      or_decide (triple_window a b c) rest (decide_pair out a (b ∷ c ∷ rest))
  decide out a rest = decide_pair out a rest

  -- The loop over the executable instructions: what has been emitted, and what is left. Each round
  -- takes at least one instruction, so their number is enough fuel.
  unfoldable pub pass_loop : ℕ → List (List ℕ) → List (List ℕ) → List (List ℕ) × Bool
  unfolding decide
  pass_loop zero out v = (out ++ v, false)
  pass_loop (suc fuel) out [] = (out, false)
  pass_loop (suc fuel) out (a ∷ v) =
      let d = decide out a v in
      let (result, changed) = pass_loop fuel (out ++ d.emitted) d.rest in
      (result, d.changed || changed)

  -- `none` in place of the typed script where there is none.
  unfoldable pub run_one_pass :
      Option (List BytecodeInstruction) → List (List ℕ) → List (List ℕ) × Bool
  unfolding optimizable_prefix_length pass_loop
  run_one_pass artifact v =
      let end = optimizable_prefix_length v artifact in
      let (result, changed) = pass_loop (length (take end v)) [] (take end v) in
      (result ++ drop end v, changed)

  -- The rounds without a typed script, while something changes, and how many were made.
  unfoldable pub run_rounds : ℕ → List (List ℕ) → List (List ℕ)
  unfolding run_one_pass
  run_rounds zero v = v
  run_rounds (suc rounds) v =
      let (v', changed) = run_one_pass none v in
      let next = run_rounds rounds v' in if changed then next else v'

abbrev pub max_rounds : ℕ
max_rounds = 16

-- The bytes of the texts that are hexadecimal.
unfoldable count_bytes : List (List ℕ) → ℕ
unfolding is_pure_hex
count_bytes [] = 0
count_bytes (s ∷ texts) = (if is_pure_hex s then length s / 2 else 0) + count_bytes texts

-- OP_1 OP_VERIFY, at neighbouring places.
unfoldable has_true_verify : List (List ℕ) → Bool
unfolding is_op
has_true_verify (s ∷ t ∷ texts) =
    (is_op s (BytOpcode.op_n 1) && is_op t BytOpcode.verify) || has_true_verify (t ∷ texts)
has_true_verify _ = false

unfoldable pub contains_true_verify_pair : List (List ℕ) → Option (List BytecodeInstruction) → Bool
unfolding has_true_verify optimizable_prefix_length
contains_true_verify_pair instructions artifact =
    has_true_verify (take (optimizable_prefix_length instructions artifact) instructions)

unfoldable pub executable_bytes : Option (List BytecodeInstruction) → List (List ℕ) → ℕ
unfolding count_bytes optimizable_prefix_length
executable_bytes artifact v = count_bytes (take (optimizable_prefix_length v artifact) v)

-- What is committed: the original, where the removal of OP_1 OP_VERIFY left no executable byte.
unfoldable pub commit : Bool → List (List ℕ) → List (List ℕ) → List (List ℕ)
unfolding executable_bytes contains_true_verify_pair
commit elide original instrs =
    if elide
      && (not (executable_bytes none original == 0)
          && (executable_bytes none instrs == 0 && contains_true_verify_pair original none))
    then original
    else instrs

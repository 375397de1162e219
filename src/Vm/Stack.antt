-- ===== src/Vm/Stack.antt =====
-- StackState of src/debugger/vm/stack_state.cpp. The vector's last element is the top; the list
-- here has the top first, so that depth d is index d.
use atomic_proof_interpreter.Prelude.{
  ℕ, zero, suc, ◌+◌, ◌-◌, none, some, List, [], ◌∷◌, ◌++◌, length, get_elem?, take, drop, ltb, leb,
  if◌then◌else◌, Result, ok, err, ◌>>=◌,
}
use atomic_proof_interpreter.Prelude.Int.{ℤ}
use atomic_proof_interpreter.Vm.Number.{Element, serialize_script_num}

-- The std::runtime_error of the stacks and the instructions, by what it reports.
pub data VmError : Type 0 where
  underflow missing_operand not_a_number bad_index division_by_zero verify_failed : VmError
  unbalanced_else unbalanced_endif check_sig_failed not_implemented unknown_opcode : VmError

abbrev pub Stack : Type 0
Stack = List Element

-- A stack, or what a member function throws.
abbrev pub Outcome : Type 0
Outcome = Result VmError Stack

unfoldable pub push : Element → Stack → Stack
push e s = e ∷ s

unfoldable pub push_int : ℤ → Stack → Stack
push_int value s = serialize_script_num value ∷ s

unfoldable pub pop : Stack → Result VmError (Element × Stack)
pop [] = err VmError.underflow
pop (e ∷ s) = ok (e, s)

unfoldable pub peek : ℕ → Stack → Result VmError Element
peek depth s = elim (get_elem? s depth) [ none ↦ err VmError.underflow | some e ↦ ok e ]

unfoldable pub dup : Stack → Outcome
dup [] = err VmError.underflow
dup (e ∷ s) = ok (e ∷ e ∷ s)

unfoldable pub drop_top : Stack → Outcome
drop_top [] = err VmError.underflow
drop_top (e ∷ s) = ok s

unfoldable pub drop_many : ℕ → Stack → Outcome
drop_many n s = if ltb (length s) n then err VmError.underflow else ok (drop n s)

unfoldable pub swap : Stack → Outcome
swap (a ∷ b ∷ s) = ok (b ∷ a ∷ s)
swap _ = err VmError.underflow

-- The top goes to the n-th place.
unfoldable pub rot : ℕ → Stack → Outcome
rot n s =
    if ltb (length s) n
    then err VmError.underflow
    else if leb n 1
    then ok s
    else (do (e, rest) ← pop s; ok (take (n - 1) rest ++ (e ∷ drop (n - 1) rest)))

unfoldable pub pick : ℕ → Stack → Outcome
unfolding peek
pick depth s = do e ← peek depth s; ok (e ∷ s)

unfoldable pub remove_at : ℕ → Stack → Stack
remove_at depth [] = []
remove_at zero (e ∷ s) = s
remove_at (suc depth) (e ∷ s) = e ∷ remove_at depth s

unfoldable pub roll : ℕ → Stack → Outcome
unfolding peek remove_at
roll depth s = do e ← peek depth s; ok (e ∷ remove_at depth s)

unfoldable pub get_total_bytes : Stack → ℕ
get_total_bytes [] = 0
get_total_bytes (e ∷ s) = get_total_bytes s + length e

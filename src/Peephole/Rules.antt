-- ===== src/Peephole/Rules.antt =====
-- The window rules of src/bytecode_peephole_pass.h: tryRewriteTriple, tryRewritePair and what they
-- look at. `emitted` has the instructions kept so far, the last one last.
use atomic_proof_interpreter.Prelude.{
  ℕ, ◌+◌, ◌-◌, ◌/◌, Bool, true, false, ◌&&◌, ◌||◌, Option, none, some, List, [], ◌∷◌, length, ltb,
  leb, ◌==◌, if◌then◌else◌,
}
use atomic_proof_interpreter.Script.Codec.{eq_text}
use atomic_proof_interpreter.Vm.Machine.{BytOpcode}
use atomic_proof_interpreter.Vm.Text.{opcode_to_hex}
use atomic_proof_interpreter.Peephole.Text.{
  is_pure_hex, is_op, is_inert, is_control_flow, produces_canonical_bool,
}
use atomic_proof_interpreter.Peephole.Push.{
  well_formed_push_size, is_well_formed, decoded_push_payload,
}

-- The replacement of a window, if a rule applies; a deleted window is replaced by nothing.
abbrev pub Rewrite : Type 0
Rewrite = Option (List (List ℕ))

abbrev pub op_hex : BytOpcode → List ℕ
op_hex op = opcode_to_hex op

-- `true` where both have a payload.
unfoldable pub is_some : Option (List ℕ) → Bool
is_some none = false
is_some (some p) = true

unfoldable pub same_payload : Option (List ℕ) → Option (List ℕ) → Bool
unfolding eq_text
same_payload (some p) (some q) = eq_text p q
same_payload _ _ = false

unfoldable total_size : List (List ℕ) → ℕ
total_size [] = 0
total_size (s ∷ texts) = length s / 2 + total_size texts

unfoldable all_pure : List (List ℕ) → Bool
all_pure [] = true
all_pure (s ∷ texts) = is_pure_hex s && all_pure texts

unfoldable pub triple_rewrite_is_strictly_smaller : List ℕ → List ℕ → List ℕ → List (List ℕ) → Bool
unfolding total_size all_pure is_pure_hex
triple_rewrite_is_strictly_smaller first second third replacements =
    all_pure (first ∷ second ∷ third ∷ [])
    && (all_pure replacements
        && ltb (total_size replacements) ((length first + length second + length third) / 2))

-- The chain of conditions of tryRewriteTriple.
unfoldable pub triple_rule : List ℕ → List ℕ → List ℕ → Rewrite
unfolding is_some same_payload decoded_push_payload is_op produces_canonical_bool
triple_rule first second third =
    let first_payload = decoded_push_payload first in
    let second_payload = decoded_push_payload second in
    let pushes = is_some first_payload in
    let bool = produces_canonical_bool first in
    let one = is_op second (BytOpcode.op_n 1) in
    let zero_ = is_op second BytOpcode.op_0 in
    let equality = is_op third BytOpcode.equal || is_op third BytOpcode.num_equal in
    let inequality = is_op third BytOpcode.num_not_equal in
    if pushes && (is_some second_payload && is_op third BytOpcode.equal)
    then some (
        op_hex
          (if same_payload first_payload second_payload then BytOpcode.op_n 1 else BytOpcode.op_0)
        ∷ [])
    else if pushes && (is_op second BytOpcode.dup_ && is_op third BytOpcode.equal)
    then some (op_hex (BytOpcode.op_n 1) ∷ [])
    else if pushes && (is_op second BytOpcode.dup_ && is_op third BytOpcode.drop)
    then some (first ∷ [])
    else if pushes && (is_op second BytOpcode.dup_ && is_op third BytOpcode.two_drop)
    then some []
    else if bool && (is_op second BytOpcode.not_ && is_op third BytOpcode.not_)
    then some (first ∷ [])
    else if bool && (one && equality)
    then some (first ∷ [])
    else if bool && (zero_ && equality)
    then some (first ∷ op_hex BytOpcode.not_ ∷ [])
    else if bool && (zero_ && inequality)
    then some (first ∷ [])
    else if bool && (one && inequality)
    then some (first ∷ op_hex BytOpcode.not_ ∷ [])
    else none

unfoldable pub when_smaller : List ℕ → List ℕ → List ℕ → Rewrite → Rewrite
unfolding triple_rewrite_is_strictly_smaller
when_smaller first second third none = none
when_smaller first second third (some replacements) =
    if triple_rewrite_is_strictly_smaller first second third replacements
    then some replacements
    else none

unfoldable pub try_rewrite_triple : List ℕ → List ℕ → List ℕ → Rewrite
unfolding triple_rule when_smaller
try_rewrite_triple first second third =
    when_smaller first second third (triple_rule first second third)

unfoldable pub fused_verify_opcode : List ℕ → Option BytOpcode
unfolding is_op
fused_verify_opcode producer =
    if is_op producer BytOpcode.equal
    then some BytOpcode.equal_verify
    else if is_op producer BytOpcode.num_equal
    then some BytOpcode.num_equal_verify
    else if is_op producer BytOpcode.check_sig
    then some BytOpcode.check_sig_verify
    else if is_op producer BytOpcode.check_multisig
    then some BytOpcode.check_multisig_verify
    else none

-- A lower bound of the stack's depth behind the instructions, from one before them.
unfoldable pub depth_after : ℕ → List ℕ → ℕ
unfolding is_inert is_control_flow well_formed_push_size is_well_formed is_op
depth_after depth instruction =
    if is_inert instruction || is_control_flow instruction
    then 0
    else if is_well_formed (well_formed_push_size instruction)
    then depth + 1
    else if is_op instruction BytOpcode.dup_
    then (if depth == 0 then 0 else depth + 1)
    else if is_op instruction BytOpcode.drop
    then depth - 1
    else if is_op instruction BytOpcode.swap_
    then (if ltb depth 2 then 0 else depth)
    else 0

unfoldable pub proven_depth : ℕ → List (List ℕ) → ℕ
unfolding depth_after
proven_depth depth [] = depth
proven_depth depth (instruction ∷ emitted) = proven_depth (depth_after depth instruction) emitted

unfoldable pub has_proven_stack_depth : List (List ℕ) → ℕ → Bool
unfolding proven_depth
has_proven_stack_depth emitted required_depth = leb required_depth (proven_depth 0 emitted)

-- `!emitted.empty() && producesCanonicalBool(emitted.back())`
unfoldable pub after_bool : List (List ℕ) → Bool
unfolding produces_canonical_bool
after_bool [] = false
after_bool (s ∷ []) = produces_canonical_bool s
after_bool (s ∷ t ∷ emitted) = after_bool (t ∷ emitted)

unfoldable pub fused : Option BytOpcode → Rewrite
fused none = none
fused (some op) = some (op_hex op ∷ [])

unfoldable pub replace : BytOpcode → Rewrite
replace op = some (op_hex op ∷ [])

-- Whatever ends in OP_VERIFY, where the rule before did not apply.
unfoldable pub verify_rule : List ℕ → Bool → Rewrite
unfolding is_op fused fused_verify_opcode
verify_rule cur allow_true_verify_elision =
    if allow_true_verify_elision && is_op cur (BytOpcode.op_n 1)
    then some []
    else fused (fused_verify_opcode cur)

-- The rules whose second instruction is no control flow.
unfoldable pub straight_rule : List ℕ → List ℕ → List (List ℕ) → Rewrite
unfolding is_op replace well_formed_push_size is_well_formed has_proven_stack_depth after_bool
straight_rule cur nxt emitted =
    let bool = after_bool emitted in
    let one = is_op cur (BytOpcode.op_n 1) in
    let minus = is_op cur BytOpcode.op_1negate in
    if one && is_op nxt BytOpcode.add
    then replace BytOpcode.add_one
    else if one && is_op nxt BytOpcode.sub
    then replace BytOpcode.sub_one
    else if minus && is_op nxt BytOpcode.add
    then replace BytOpcode.sub_one
    else if minus && is_op nxt BytOpcode.sub
    then replace BytOpcode.add_one
    else if is_op cur BytOpcode.swap_ && is_op nxt BytOpcode.drop
    then replace BytOpcode.nip
    else if is_op cur BytOpcode.over && is_op nxt BytOpcode.over
    then replace BytOpcode.two_dup
    else if is_op cur BytOpcode.op_0 && is_op nxt BytOpcode.pick
    then replace BytOpcode.dup_
    else if one && is_op nxt BytOpcode.pick
    then replace BytOpcode.over
    else if one && is_op nxt BytOpcode.roll
    then replace BytOpcode.swap_
    else if is_op cur (BytOpcode.op_n 2) && is_op nxt BytOpcode.roll
    then replace BytOpcode.rot
    else if is_well_formed (well_formed_push_size cur) && is_op nxt BytOpcode.drop
    then some []
    else if is_op cur BytOpcode.dup_
        && (is_op nxt BytOpcode.drop && has_proven_stack_depth emitted 1)
    then some []
    else if is_op cur BytOpcode.swap_
        && (is_op nxt BytOpcode.swap_ && has_proven_stack_depth emitted 2)
    then some []
    else if is_op cur BytOpcode.not_ && (is_op nxt BytOpcode.not_ && bool)
    then replace BytOpcode.zero_not_equal
    else if is_op cur BytOpcode.drop && is_op nxt BytOpcode.drop
    then replace BytOpcode.two_drop
    else if is_op cur BytOpcode.op_0 && (is_op nxt BytOpcode.equal && bool)
    then replace BytOpcode.not_
    else if is_op cur BytOpcode.op_0 && (is_op nxt BytOpcode.num_equal && bool)
    then replace BytOpcode.not_
    else none

unfoldable pub or_else : Rewrite → Rewrite → Rewrite
or_else none other = other
or_else (some r) other = some r

unfoldable pub try_rewrite_pair : List ℕ → List ℕ → List (List ℕ) → Bool → Rewrite
unfolding is_op after_bool replace verify_rule or_else is_control_flow straight_rule
try_rewrite_pair cur nxt emitted allow_true_verify_elision =
    let straight = if is_control_flow nxt then none else straight_rule cur nxt emitted in
    if is_op cur BytOpcode.not_
      && ((is_op nxt BytOpcode.if_ || is_op nxt BytOpcode.notif) && after_bool emitted)
    then replace (if is_op nxt BytOpcode.if_ then BytOpcode.notif else BytOpcode.if_)
    else if is_op nxt BytOpcode.verify
    then or_else (verify_rule cur allow_true_verify_elision) straight
    else straight

-- ===== src/Vm/ByteStrings.antt =====
-- OP_CAT, OP_SPLIT, OP_NUM2BIN and OP_BIN2NUM of src/debugger/vm/bvm_simulator.cpp against each other.
use atomic_proof_interpreter.Prelude.{
  ℕ, ◌^◌, ◌≡◌, ◌<◌, refl, arith, some, List, [], ◌∷◌, ◌++◌, length, length-append, drop,
  take-length-append, ok, ◌>>=◌,
}
use atomic_proof_interpreter.Prelude.Int.{pos}
use atomic_proof_interpreter.Vm.Number.{Element, to_int, serialize_script_num}
use atomic_proof_interpreter.Vm.NumberText.{to_int-serialize_script_num}
use atomic_proof_interpreter.Vm.Stack.{Stack}
use atomic_proof_interpreter.Vm.Bytes.{op_cat, op_split}

pub to_int-size : (n : ℕ) → n < 2 ^ 63 → to_int (serialize_script_num (pos n)) ≡ some (pos n)
to_int-size n h = (to_int-serialize_script_num (pos n) (omega arith) (omega arith)).0 (ground arith)

drop-length-append {ℓ} : {A : Type ℓ} (xs ys : List A) → drop (length xs) (xs ++ ys) ≡ ys
drop-length-append [] ys = refl
drop-length-append (x ∷ xs) ys = drop-length-append xs ys

-- Two elements joined by OP_CAT are taken apart by OP_SPLIT at the length of the first.
pub op_split-op_cat :
    (a b : Element) (s : Stack)
    → length a < 2 ^ 63
    → (op_cat (b ∷ a ∷ s) >>= (λ (t : Stack). op_split (serialize_script_num (pos (length a)) ∷ t)))
      ≡ ok (b ∷ a ∷ s)
unfolding op_cat op_split
op_split-op_cat a b s h = ground (
  arith,
  to_int-size (length a) h,
  take-length-append a b,
  drop-length-append a b,
  length-append a b,
)

-- ===== src/Vm/Division.antt =====
-- OP_DIV and OP_MOD of src/debugger/vm/bvm_simulator.cpp: the division identity.
use atomic_proof_interpreter.Prelude.{
  ℕ, zero, suc, ◌+◌, ◌-◌, ◌*◌, ◌/◌, ◌%◌, ◌^◌, ◌≡◌, ◌≤◌, ◌<◌, refl, arith, sym, ◌∙◌, false, some,
  ◌∷◌, ◌==◌, ok, err, Bool-cases, inl, inr, ◌⊎◌,
}
use native.Mathlib.Nat.{div-add-mod', mod-lt, div-le_self}
use atomic_proof_interpreter.Prelude.Int.{ℤ, pos, negsuc, ◌+ℤ◌, ◌*ℤ◌, ◌≤ℤ◌, ◌<ℤ◌}
use atomic_proof_interpreter.Vm.Number.{to_int, serialize_script_num, abs_value, negate}
use atomic_proof_interpreter.Vm.NumberText.{to_int-serialize_script_num}
use atomic_proof_interpreter.Vm.Stack.{VmError, Stack}
use atomic_proof_interpreter.Vm.Numeric.{
  wrap64, to_int64, numeric_pair, both, quotient, remainder, op_div, op_mod,
}

-- The integers that a stack element can hold as a script number of at most eight bytes.
abbrev pub IsReadable : ℤ → Type 0
IsReadable z = (negsuc (2 ^ 63 - 1) <ℤ z) × (z ≤ℤ pos (2 ^ 63 - 1))

pub to_int-readable : (z : ℤ) → IsReadable z → to_int (serialize_script_num z) ≡ some z
to_int-readable z (lo, hi) = (to_int-serialize_script_num z (omega arith) hi).0 (λ e. ground arith)

pub numeric_pair-readable :
    (a b : ℤ) (s : Stack)
    → IsReadable a
    → IsReadable b
    → numeric_pair (serialize_script_num b ∷ serialize_script_num a ∷ s) ≡ ok (a, b, s)
unfolding numeric_pair
numeric_pair-readable a b s h k = rw (to_int-readable a h, to_int-readable b k, both) refl

abs_value-negate : (n : ℕ) → abs_value (negate n) ≡ n
unfolding abs_value negate
abs_value-negate zero = refl
abs_value-negate (suc n) = refl

negate-suc : (n : ℕ) → negsuc n ≡ negate (suc n)
unfolding negate
negate-suc n = refl

quotient_le : (a b : ℤ) → abs_value (quotient a b) ≤ abs_value a
unfolding quotient abs_value
quotient_le (pos a) (pos b) = div-le_self a b
quotient_le (pos a) (negsuc b) =
    rw (abs_value-negate (a / suc b), abs_value) (div-le_self a (suc b))
quotient_le (negsuc a) (pos b) =
    rw (abs_value-negate (suc a / b), abs_value) (div-le_self (suc a) b)
quotient_le (negsuc a) (negsuc b) = div-le_self (suc a) (suc b)

wrap64-small : (z : ℤ) → abs_value z < 2 ^ 63 → wrap64 z ≡ z
unfolding wrap64 to_int64 abs_value
wrap64-small (pos n) h = ground arith
wrap64-small (negsuc n) h = ground arith

remainder_lt : (a b : ℤ) → 0 < abs_value b → abs_value (remainder a b) < abs_value b
unfolding remainder
remainder_lt (pos a) b h = unfold abs_value in mod-lt a h
remainder_lt (negsuc a) b h = rw abs_value-negate (mod-lt (suc a) h)

-- The four sign combinations, for any magnitudes n = q * m + r.
signs_pp : (n q m r : ℕ) → n ≡ q * m + r → pos n ≡ pos q *ℤ pos m +ℤ pos r
unfolding ◌*ℤ◌ ◌+ℤ◌
signs_pp n q m r e = ground arith

signs_pn : (n q m r : ℕ) → n ≡ q * suc m + r → pos n ≡ negate q *ℤ negsuc m +ℤ pos r
unfolding ◌*ℤ◌ ◌+ℤ◌ negate
signs_pn n zero m r e = ground arith
signs_pn n (suc q) m r e = ground arith

signs_np : (n q m r : ℕ) → n ≡ q * m + r → negate n ≡ negate q *ℤ pos m +ℤ negate r
unfolding ◌*ℤ◌ ◌+ℤ◌ negate
signs_np n q m r e = ground arith

signs_nn : (n q m r : ℕ) → n ≡ q * suc m + r → negate n ≡ pos q *ℤ negsuc m +ℤ negate r
unfolding ◌*ℤ◌ ◌+ℤ◌ negate
signs_nn n q m r e = ground arith

division : (a b : ℤ) → 0 < abs_value b → a ≡ quotient a b *ℤ b +ℤ remainder a b
unfolding quotient remainder abs_value
division (pos a) (pos b) h = signs_pp a (a / b) b (a % b) (sym (div-add-mod' a b))
division (pos a) (negsuc b) h = signs_pn a (a / suc b) b (a % suc b) (sym (div-add-mod' a (suc b)))
division (negsuc a) (pos b) h =
    negate-suc a ∙ signs_np (suc a) (suc a / b) b (suc a % b) (sym (div-add-mod' (suc a) b))
division (negsuc a) (negsuc b) h =
    negate-suc a
    ∙ signs_nn (suc a) (suc a / suc b) b (suc a % suc b) (sym (div-add-mod' (suc a) (suc b)))

op_div-readable :
    (a b : ℤ) (s : Stack)
    → IsReadable a
    → IsReadable b
    → 0 < abs_value b
    → op_div (serialize_script_num b ∷ serialize_script_num a ∷ s)
      ≡ ok (serialize_script_num (quotient a b) ∷ s)
unfolding op_div
op_div-readable a b s h k nz =
    let small : abs_value a < 2 ^ 63 = unfold abs_value in ground arith in
    let q : abs_value (quotient a b) < 2 ^ 63 = omega (arith, quotient_le a b) in
    let test : (abs_value b == 0) ≡ false = ground arith in
    rw (numeric_pair-readable a b s h k, test, wrap64-small (quotient a b) q) refl

op_mod-readable :
    (a b : ℤ) (s : Stack)
    → IsReadable a
    → IsReadable b
    → 0 < abs_value b
    → op_mod (serialize_script_num b ∷ serialize_script_num a ∷ s)
      ≡ ok (serialize_script_num (remainder a b) ∷ s)
unfolding op_mod
op_mod-readable a b s h k nz =
    let test : (abs_value b == 0) ≡ false = ground arith in
    rw (numeric_pair-readable a b s h k, test) refl

op_mod_zero :
    (a b : ℤ) (s : Stack)
    → IsReadable a
    → IsReadable b
    → abs_value b ≡ 0
    → (op_div (serialize_script_num b ∷ serialize_script_num a ∷ s) ≡ err VmError.division_by_zero)
      × (op_mod (serialize_script_num b ∷ serialize_script_num a ∷ s)
          ≡ err VmError.division_by_zero)
unfolding op_div op_mod
op_mod_zero a b s h k z = rw (numeric_pair-readable a b s h k, z) (refl, refl)

-- On two numbers that the stack holds as script numbers of at most eight bytes, OP_DIV and OP_MOD
-- both refuse a divisor 0; for another divisor they leave a quotient and a remainder with
-- a = quotient * b + remainder, the remainder smaller than the divisor in magnitude.
pub op_div-op_mod :
    (a b : ℤ) (s : Stack)
    → IsReadable a
    → IsReadable b
    → ((abs_value b ≡ 0)
        × (op_div (serialize_script_num b ∷ serialize_script_num a ∷ s)
            ≡ err VmError.division_by_zero)
        × (op_mod (serialize_script_num b ∷ serialize_script_num a ∷ s)
            ≡ err VmError.division_by_zero))
      ⊎ ((q : ℤ) × (r : ℤ) × (op_div (serialize_script_num b ∷ serialize_script_num a ∷ s)
            ≡ ok (serialize_script_num q ∷ s))
          × (op_mod (serialize_script_num b ∷ serialize_script_num a ∷ s)
              ≡ ok (serialize_script_num r ∷ s))
          × (a ≡ q *ℤ b +ℤ r)
          × (abs_value r < abs_value b))
op_div-op_mod a b s h k = elim (Bool-cases (abs_value b == 0)) [
  | inl e ↦
      let z : abs_value b ≡ 0 = ground arith in
      let (no_div, no_mod) = op_mod_zero a b s h k z in inl (z, no_div, no_mod)
  | inr e ↦
      let nz : 0 < abs_value b = ground arith in
      inr (
        quotient a b,
        remainder a b,
        op_div-readable a b s h k nz,
        op_mod-readable a b s h k nz,
        division a b nz,
        remainder_lt a b nz,
      )
]

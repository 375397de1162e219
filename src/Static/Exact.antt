-- ===== src/Static/Exact.antt =====
-- The checked arithmetic of src/compiler/static_integer_evaluator.cpp against exact integers.
use atomic_proof_interpreter.Prelude.{
  ℕ, zero, suc, ◌+◌, ◌*◌, ◌/◌, ◌%◌, ◌^◌, ◌≡◌, ◌≤◌, ◌<◌, refl, arith, ap, ◌∙◌, Bool, ◌&&◌, ◌||◌, ltb,
  if◌then◌else◌, Bool-cases, inl, inr,
}
use native.Mathlib.Nat.{div-add-mod, mod-lt, mul_comm}
use atomic_proof_interpreter.Prelude.Arith.{mul_mono}
use atomic_proof_interpreter.Prelude.Int.{ℤ, pos, negsuc, ◌+ℤ◌, ◌-ℤ◌, ◌*ℤ◌, ltb_ℤ, eqb_ℤ, sub_ℕ}
use atomic_proof_interpreter.Vm.Number.{int64_max, negate}
use atomic_proof_interpreter.Vm.Numeric.{quotient}
use atomic_proof_interpreter.Static.Checked.{
  StaticIntegerError, StaticIntegerResult, known, error, checked_add, checked_subtract,
  product_overflows, checked_multiply, checked_negate, min,
}

-- The integers that an int64_t holds.
abbrev pub InInt64 : ℤ → Type 0
InInt64 (pos n) = n < 2 ^ 63
InInt64 (negsuc n) = n < 2 ^ 63

abbrev pub fits : ℤ → Bool
fits (pos n) = ltb n (2 ^ 63)
fits (negsuc n) = ltb n (2 ^ 63)

-- The exact result where it fits, and the error where it does not.
abbrev pub or_error : StaticIntegerError → ℤ → StaticIntegerResult
or_error e z = if fits z then known z else error e

checked_add-exact :
    (a b : ℤ)
    → InInt64 a
    → InInt64 b
    → checked_add a b ≡ or_error StaticIntegerError.addition_overflow (a +ℤ b)
unfolding checked_add ◌+ℤ◌ ◌-ℤ◌
checked_add-exact (pos a) (pos b) h k = ground arith
checked_add-exact (pos a) (negsuc b) h k = ground arith
checked_add-exact (negsuc a) (pos b) h k = ground arith
checked_add-exact (negsuc a) (negsuc b) h k = ground arith

checked_subtract-exact :
    (a b : ℤ)
    → InInt64 a
    → InInt64 b
    → checked_subtract a b ≡ or_error StaticIntegerError.subtraction_overflow (a -ℤ b)
unfolding checked_subtract ◌+ℤ◌ ◌-ℤ◌
checked_subtract-exact (pos a) (pos b) h k = ground arith
checked_subtract-exact (pos a) (negsuc b) h k = ground arith
checked_subtract-exact (negsuc a) (pos b) h k = ground arith
checked_subtract-exact (negsuc a) (negsuc b) h k = ground arith

-- A factor is above a quotient just if the product is above the dividend.
above_parts : (m q r n : ℕ) → r < m → ltb q n ≡ ltb (m * q + r) (n * m)
above_parts m q r n h = elim (Bool-cases (ltb q n)) [
  | inl e ↦
      let p : m * suc q ≤ m * n = mul_mono m (suc q) n (ground arith) in
      let c : m * n ≡ n * m = mul_comm m n in e ∙ ground arith
  | inr e ↦
      let p : m * n ≤ m * q = mul_mono m n q (ground arith) in
      let c : m * n ≡ n * m = mul_comm m n in e ∙ ground arith
]

above_quotient : (k m n : ℕ) → 0 < m → ltb (k / m) n ≡ ltb k (n * m)
above_quotient k m n h =
    above_parts m (k / m) (k % m) n (mod-lt k h)
    ∙ ap (λ x. ltb x (n * m)) (omega (arith, div-add-mod k m))

sub_negate : (x : ℕ) → sub_ℕ 0 x ≡ negate x
unfolding negate
sub_negate zero = refl
sub_negate (suc x) = ground arith

multiply_pos-pos : (a b : ℕ) → pos a *ℤ pos b ≡ pos (a * b)
unfolding ◌*ℤ◌
multiply_pos-pos a b = ground arith

multiply_pos-negsuc : (a b : ℕ) → pos a *ℤ negsuc b ≡ negate (a * suc b)
unfolding ◌*ℤ◌
multiply_pos-negsuc a b =
    let e : a * 0 + 0 * suc b ≡ 0 = omega arith in
    let f : a * suc b + 0 ≡ a * suc b = omega arith in rw (e, f) (sub_negate (a * suc b))

multiply_negsuc-pos : (a b : ℕ) → negsuc a *ℤ pos b ≡ negate (suc a * b)
unfolding ◌*ℤ◌
multiply_negsuc-pos a b =
    let e : 0 * b + suc a * 0 ≡ 0 = omega arith in
    let f : 0 * 0 + suc a * b ≡ suc a * b = omega arith in rw (e, f) (sub_negate (suc a * b))

multiply_negsuc-negsuc : (a b : ℕ) → negsuc a *ℤ negsuc b ≡ pos (suc a * suc b)
unfolding ◌*ℤ◌
multiply_negsuc-negsuc a b = ground arith

below_negate : (b q : ℕ) → ltb_ℤ (negsuc b) (negate q) ≡ ltb q (suc b)
unfolding negate
below_negate b zero = ground arith
below_negate b (suc q) = ground arith

-- The tests against the product of the magnitudes.
product_pos-pos :
    (a b : ℕ) → product_overflows (pos (suc a)) (pos (suc b)) ≡ ltb int64_max (suc a * suc b)
unfolding product_overflows quotient
product_pos-pos a b = ground (arith, above_quotient int64_max (suc b) (suc a) (omega arith))

product_pos-negsuc :
    (a b : ℕ) → product_overflows (pos (suc a)) (negsuc b) ≡ ltb (2 ^ 63) (suc b * suc a)
unfolding product_overflows quotient
product_pos-negsuc a b =
    ground (
      arith,
      below_negate b (2 ^ 63 / suc a),
      above_quotient (2 ^ 63) (suc a) (suc b) (omega arith),
    )

product_negsuc-pos :
    (a b : ℕ) → product_overflows (negsuc a) (pos (suc b)) ≡ ltb (2 ^ 63) (suc a * suc b)
unfolding product_overflows quotient
product_negsuc-pos a b =
    ground (
      arith,
      below_negate a (2 ^ 63 / suc b),
      above_quotient (2 ^ 63) (suc b) (suc a) (omega arith),
    )

product_negsuc-negsuc :
    (a b : ℕ) → product_overflows (negsuc a) (negsuc b) ≡ ltb int64_max (suc a * suc b)
unfolding product_overflows quotient
product_negsuc-negsuc a b = ground (
  arith,
  below_negate a (int64_max / suc b),
  above_quotient int64_max (suc b) (suc a) (omega arith),
)

-- The choice between a product and the error, by its magnitude.
pos_choice :
    (x : ℕ)
    → (if ltb int64_max x then error StaticIntegerError.multiplication_overflow else known (pos x))
      ≡ or_error StaticIntegerError.multiplication_overflow (pos x)
pos_choice x = ground arith

negate_choice :
    (x : ℕ)
    → (if ltb (2 ^ 63) x
        then error StaticIntegerError.multiplication_overflow
        else known (negate x))
      ≡ or_error StaticIntegerError.multiplication_overflow (negate x)
unfolding negate
negate_choice zero = refl
negate_choice (suc x) = ground arith

least_times_minus_one : (a b : ℕ) → (a ≡ 0) × (b ≡ int64_max) → int64_max < suc a * suc b
least_times_minus_one a b (e, f) = rw (e, f) (omega arith)

-- The two tests in front of the others.
abbrev guarded : ℤ → ℤ → StaticIntegerResult → StaticIntegerResult
guarded lhs rhs r =
    if eqb_ℤ lhs (pos 0) || eqb_ℤ rhs (pos 0)
    then known (pos 0)
    else if (eqb_ℤ lhs (negsuc 0) && eqb_ℤ rhs min) || (eqb_ℤ rhs (negsuc 0) && eqb_ℤ lhs min)
    then error StaticIntegerError.multiplication_overflow
    else r

guarded_pos-pos : (a b : ℕ) (r : StaticIntegerResult) → guarded (pos (suc a)) (pos (suc b)) r ≡ r
guarded_pos-pos a b r = ground arith

guarded_pos-negsuc : (a b : ℕ) (r : StaticIntegerResult) → guarded (pos (suc a)) (negsuc b) r ≡ r
guarded_pos-negsuc a b r = ground arith

guarded_negsuc-pos : (a b : ℕ) (r : StaticIntegerResult) → guarded (negsuc a) (pos (suc b)) r ≡ r
guarded_negsuc-pos a b r = ground arith

guarded_negsuc-negsuc :
    (a b x : ℕ)
    → ((a ≡ 0) × (b ≡ int64_max) → int64_max < x)
    → ((b ≡ 0) × (a ≡ int64_max) → int64_max < x)
    → guarded (negsuc a) (negsuc b) (
        if ltb int64_max x then error StaticIntegerError.multiplication_overflow else known (pos x))
      ≡ (if ltb int64_max x
          then error StaticIntegerError.multiplication_overflow
          else known (pos x))
guarded_negsuc-negsuc a b x h k = ground arith

checked_multiply-exact :
    (a b : ℤ)
    → InInt64 a
    → InInt64 b
    → checked_multiply a b ≡ or_error StaticIntegerError.multiplication_overflow (a *ℤ b)
unfolding checked_multiply
checked_multiply-exact (pos zero) (pos b) h k = rw (multiply_pos-pos 0 b) (ground arith)
checked_multiply-exact (pos zero) (negsuc b) h k =
    rw (multiply_pos-negsuc 0 b) (unfold negate in ground arith)
checked_multiply-exact (pos (suc a)) (pos zero) h k = rw (multiply_pos-pos (suc a) 0) (ground arith)
checked_multiply-exact (negsuc a) (pos zero) h k =
    rw (multiply_negsuc-pos a 0) (unfold negate in ground arith)
checked_multiply-exact (pos (suc a)) (pos (suc b)) h k =
    rw (multiply_pos-pos (suc a) (suc b), product_pos-pos a b)
      (guarded_pos-pos a b _ ∙ pos_choice (suc a * suc b))
checked_multiply-exact (pos (suc a)) (negsuc b) h k =
    let c : suc b * suc a ≡ suc a * suc b = mul_comm (suc b) (suc a) in
    rw (multiply_pos-negsuc (suc a) b, product_pos-negsuc a b, c)
      (guarded_pos-negsuc a b _ ∙ negate_choice (suc a * suc b))
checked_multiply-exact (negsuc a) (pos (suc b)) h k =
    rw (multiply_negsuc-pos a (suc b), product_negsuc-pos a b)
      (guarded_negsuc-pos a b _ ∙ negate_choice (suc a * suc b))
checked_multiply-exact (negsuc a) (negsuc b) h k =
    let c : suc b * suc a ≡ suc a * suc b = mul_comm (suc b) (suc a) in
    rw (multiply_negsuc-negsuc a b, product_negsuc-negsuc a b)
      (guarded_negsuc-negsuc a b (suc a * suc b) (least_times_minus_one a b)
          (λ e. omega (arith, least_times_minus_one b a e, c))
        ∙ pos_choice (suc a * suc b))

checked_negate-exact :
    (b : ℤ)
    → InInt64 b
    → checked_negate b ≡ or_error StaticIntegerError.negation_overflow (pos 0 -ℤ b)
unfolding checked_negate ◌-ℤ◌
checked_negate-exact (pos b) k = ground arith
checked_negate-exact (negsuc b) k = ground arith

-- On int64_t values, checkedAdd, checkedSubtract, checkedMultiply and the negation are the exact sum,
-- difference, product and negative where an int64_t holds these, and the overflow error where not.
pub checked_arithmetic-exact :
    (a b : ℤ)
    → InInt64 a
    → InInt64 b
    → (checked_add a b ≡ or_error StaticIntegerError.addition_overflow (a +ℤ b))
      × (checked_subtract a b ≡ or_error StaticIntegerError.subtraction_overflow (a -ℤ b))
      × (checked_multiply a b ≡ or_error StaticIntegerError.multiplication_overflow (a *ℤ b))
      × (checked_negate b ≡ or_error StaticIntegerError.negation_overflow (pos 0 -ℤ b))
checked_arithmetic-exact a b h k = (
  checked_add-exact a b h k,
  checked_subtract-exact a b h k,
  checked_multiply-exact a b h k,
  checked_negate-exact b k,
)

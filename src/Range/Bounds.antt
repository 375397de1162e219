-- ===== src/Range/Bounds.antt =====
-- How the order-preserving image of int64_t behaves, and what a built plan yields.
use atomic_proof_interpreter.Prelude.{
  ℕ, ◌+◌, ◌*◌, ◌^◌, ◌<◌, ◌≡◌, ◌↔◌, arith, ok, Bool-cases, inl, inr, suc,
}
use native.Mathlib.Nat.{mul_comm}
use atomic_proof_interpreter.Prelude.Int.{
  ℤ, pos, negsuc, ◌+ℤ◌, ◌*ℤ◌, ◌<ℤ◌, pos_part, neg_part, ltb_ℤ,
}
use atomic_proof_interpreter.Prelude.Arith.{ceil_div, lt-ceil_div, lt_of_mul-lt, ceil_div-le}
use atomic_proof_interpreter.Range.Plan.{
  IsInt64, ordered, from_ordered, step_magnitude, distance, step_count, plan_count,
}

-- `ordered` shifts by 2 ^ 63, so it keeps the order.
pub ordered_parts :
    (z : ℤ) → IsInt64 z → (ordered z + neg_part z ≡ pos_part z + 2 ^ 63) × (ordered z < 2 ^ 64)
unfolding ordered
ordered_parts (pos n) h = (omega arith, omega arith)
ordered_parts (negsuc n) h = (omega arith, omega arith)

pub from_ordered_parts :
    (w : ℕ)
    → w < 2 ^ 64
    → (pos_part (from_ordered w) + 2 ^ 63 ≡ w + neg_part (from_ordered w))
      × IsInt64 (from_ordered w)
unfolding from_ordered
from_ordered_parts w h = ground arith

-- The value at index i of range(start, stop, step), as a mathematical integer.
abbrev pub nth : ℤ → ℤ → ℕ → ℤ
nth start step i = start +ℤ pos i *ℤ step

-- A value that the range has not run past.
abbrev pub Before : ℤ → ℤ → ℤ → Type 0
Before (pos _) v stop = v <ℤ stop
Before (negsuc _) v stop = stop <ℤ v

pub nth_up :
    (s : ℤ) (m i : ℕ)
    → pos_part (nth s (pos m) i) + neg_part s ≡ neg_part (nth s (pos m) i) + pos_part s + m * i
unfolding ◌+ℤ◌ ◌*ℤ◌
nth_up s m i = ground (arith, mul_comm m i)

pub nth_down :
    (s : ℤ) (m i : ℕ)
    → pos_part (nth s (negsuc m) i) + neg_part s + (m + 1) * i
      ≡ neg_part (nth s (negsuc m) i) + pos_part s
unfolding ◌+ℤ◌ ◌*ℤ◌
nth_down s m i = ground (arith, mul_comm (suc m) i)

pub distance_up :
    (s t : ℤ) (m : ℕ)
    → IsInt64 s
    → IsInt64 t
    → 0 < m
    → s <ℤ t
    → (distance s t (pos m) + ordered s ≡ ordered t) × (distance s t (pos m) < 2 ^ 64)
unfolding distance
distance_up s t m hs ht hm h = ground (arith, ordered_parts s hs, ordered_parts t ht)

pub distance_down :
    (s t : ℤ) (m : ℕ)
    → IsInt64 s
    → IsInt64 t
    → t <ℤ s
    → (distance s t (negsuc m) + ordered t ≡ ordered s) × (distance s t (negsuc m) < 2 ^ 64)
unfolding distance
distance_down s t m hs ht h = ground (arith, ordered_parts s hs, ordered_parts t ht)

-- The count does not wrap, and the overflow branch is never taken.
step_count-ceil : (d m : ℕ) → 0 < m → d < 2 ^ 64 → step_count d m ≡ ok (ceil_div d m)
unfolding step_count
step_count-ceil d m hm hd = ground (arith, ceil_div-le d m hm)

-- Index i is below the count exactly when its value has not reached the stop.
abbrev pub Counts : ℤ → ℤ → ℤ → ℕ → Type 0
Counts start stop step n = (i : ℕ) → (i < n) ↔ Before step (nth start step i) stop

pub plan_count_up :
    (s t : ℤ) (m : ℕ)
    → IsInt64 s
    → IsInt64 t
    → 0 < m
    → (n : ℕ) × (plan_count s t (pos m) ≡ ok n) × Counts s t (pos m) n × (n < 2 ^ 64)
unfolding plan_count step_magnitude
plan_count_up s t m hs ht hm = elim (Bool-cases (ltb_ℤ s t)) [
  | inl e ↦
      let (d, small) = distance_up s t m hs ht hm (ground arith) in
      (
        ceil_div (distance s t (pos m)) m,
        ground (arith, step_count-ceil (distance s t (pos m)) m),
        λ i. (
          λ k. omega (
            arith,
            nth_up s m i,
            lt-ceil_div (distance s t (pos m)) m i hm k,
            d,
            ordered_parts s hs,
            ordered_parts t ht,
          ),
          λ k.
              lt_of_mul-lt (distance s t (pos m)) m i hm
                (omega (arith, nth_up s m i, d, ordered_parts s hs, ordered_parts t ht)),
        ),
        omega (arith, ceil_div-le (distance s t (pos m)) m hm),
      )
  | inr e ↦
      (0, ground arith, λ i. (λ k. omega arith, λ k. ground (arith, nth_up s m i)), omega arith)
]

pub plan_count_down :
    (s t : ℤ) (m : ℕ)
    → IsInt64 s
    → IsInt64 t
    → (n : ℕ) × (plan_count s t (negsuc m) ≡ ok n) × Counts s t (negsuc m) n × (n < 2 ^ 64)
unfolding plan_count step_magnitude
plan_count_down s t m hs ht = elim (Bool-cases (ltb_ℤ t s)) [
  | inl e ↦
      let (d, small) = distance_down s t m hs ht (ground arith) in
      (
        ceil_div (distance s t (negsuc m)) (m + 1),
        ground (arith, step_count-ceil (distance s t (negsuc m)) (m + 1)),
        λ i. (
          λ k. omega (
            arith,
            nth_down s m i,
            lt-ceil_div (distance s t (negsuc m)) (m + 1) i (omega arith) k,
            d,
            ordered_parts s hs,
            ordered_parts t ht,
          ),
          λ k.
              lt_of_mul-lt (distance s t (negsuc m)) (m + 1) i (omega arith)
                (omega (arith, nth_down s m i, d, ordered_parts s hs, ordered_parts t ht)),
        ),
        omega (arith, ceil_div-le (distance s t (negsuc m)) (m + 1) (omega arith)),
      )
  | inr e ↦
      (0, ground arith, λ i. (λ k. omega arith, λ k. ground (arith, nth_down s m i)), omega arith)
]

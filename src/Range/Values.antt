-- ===== src/Range/Values.antt =====
-- What a built plan is, and the values that it yields.
use atomic_proof_interpreter.Prelude.{
  ℕ, ◌+◌, ◌-◌, ◌*◌, ◌/◌, ◌^◌, ◌≤◌, ◌<◌, ◌≡◌, refl, subst, ◌≢◌, false, Option, none, some, arith,
  ltb, not, ◌&&◌, sym, ◌==◌, ok, err, Bool-cases, inl, inr, zero, suc,
}
use native.Mathlib.Nat.{le-div_iff_mul-le}
use atomic_proof_interpreter.Prelude.Int.{ℤ, pos, negsuc, eqb_ℤ, eq_of_parts}
use atomic_proof_interpreter.Range.Plan.{
  RangeErrorCode, RangePlan, IsInt64, ordered, from_ordered, plan_count, build, value_at,
  make_error, check_limit, uint64_max,
}
use atomic_proof_interpreter.Range.Bounds.{
  ordered_parts, from_ordered_parts, nth, Counts, nth_up, nth_down, plan_count_up, plan_count_down,
}

abbrev pub plan : ℤ → ℤ → ℤ → ℕ → RangePlan
plan start stop step n = record { start = start; stop = stop; step = step; count = n }

pub plan_count-Counts :
    (s t step : ℤ)
    → IsInt64 s
    → IsInt64 t
    → step ≢ pos 0
    → (n : ℕ) × (plan_count s t step ≡ ok n) × Counts s t step n × (n < 2 ^ 64)
plan_count-Counts s t (pos zero) hs ht h = absurd (h refl)
plan_count-Counts s t (pos (suc m)) hs ht h = plan_count_up s t (suc m) hs ht (omega arith)
plan_count-Counts s t (negsuc m) hs ht h = plan_count_down s t m hs ht

-- For int64_t bounds and a step other than 0 the plan is built, and its count, a uint64_t, is the
-- number of values before the stop: index i is below it exactly when start + i * step has not
-- reached the stop. A limit makes the build fail exactly when the count exceeds it, and the error
-- then names both.
pub build-Counts :
    (s t step : ℤ) (limit : ℕ)
    → IsInt64 s
    → IsInt64 t
    → step ≢ pos 0
    → (n : ℕ) × Counts s t step n
      × (n < 2 ^ 64)
      × (build s t step none ≡ ok (plan s t step n))
      × (n ≤ limit → build s t step (some limit) ≡ ok (plan s t step n))
      × (limit < n
          → build s t step (some limit)
            ≡ err (make_error RangeErrorCode.iteration_limit_exceeded (some limit) (some n)))
unfolding build check_limit
build-Counts s t step limit hs ht h =
    let (n, e, c, w) = plan_count-Counts s t step hs ht h in
    let nonzero : eqb_ℤ step (pos 0) ≡ false = ground (arith, eq_of_parts step (pos 0)) in
    (
      n,
      c,
      w,
      rw (nonzero, e),
      λ k. rw (nonzero, e) (ground arith),
      λ k. rw (nonzero, e) (ground arith),
    )

check_limit-ok : (limit : Option ℕ) (n : ℕ) (q p : RangePlan) → check_limit limit n q ≡ ok p → p ≡ q
unfolding check_limit
check_limit-ok none n q p e = cc
check_limit-ok (some l) n q p e = ground arith

-- What a successful build says of its result.
built :
    (s t step : ℤ) (limit : Option ℕ) (p : RangePlan)
    → IsInt64 s
    → IsInt64 t
    → build s t step limit ≡ ok p
    → (step ≢ pos 0) × (p ≡ plan s t step p.count) × Counts s t step p.count
unfolding build
built s t step limit p hs ht e = elim (Bool-cases (eqb_ℤ step (pos 0))) [
  | inl z ↦ absurd (ground arith)
  | inr nz ↦
      let h : step ≢ pos 0 = λ q. ground (arith, q) in
      let (n, q, c, w) = plan_count-Counts s t step hs ht h in
      let made : p ≡ plan s t step n =
        check_limit-ok limit n (plan s t step n) p (rw (nz, q) at e) in
      (
        h,
        subst (λ (r : RangePlan). r ≡ plan s t step r.count) (sym made) refl,
        subst (λ (r : RangePlan). Counts s t step r.count) (sym made) c,
      )
]

div_bound : (k m i : ℕ) → 0 < i → m * i ≤ k → m ≤ k / i
div_bound k m i h p = (le-div_iff_mul-le h).1 p

-- The offset of an index whose value lies in the range does not wrap, and its check passes.
no_overflow : (m i : ℕ) → m * i < 2 ^ 64 → (not (i == 0) && ltb (uint64_max / i) m) ≡ false
no_overflow m zero h = refl
no_overflow m (suc i) h = ground (arith, div_bound uint64_max m (suc i))

module _ (s t : ℤ) (n i : ℕ) (hs : IsInt64 s) (ht : IsInt64 t) (inside : i < n) where
  value_up :
      (m : ℕ)
      → 0 < m
      → Counts s t (pos m) n
      → (value_at (plan s t (pos m) n) i ≡ ok (nth s (pos m) i)) × IsInt64 (nth s (pos m) i)
  unfolding value_at
  value_up m hm c =
      let near : m * i < 2 ^ 64 = omega (arith, (c i).0 inside, nth_up s m i) in
      let image : ordered s + m * i < 2 ^ 64 =
        omega (arith, (c i).0 inside, nth_up s m i, ordered_parts s hs) in
      let same : from_ordered (ordered s + m * i) ≡ nth s (pos m) i =
        eq_of_parts _ _
          (omega (arith, from_ordered_parts _ image, nth_up s m i, ordered_parts s hs)) in
      let fits : IsInt64 (nth s (pos m) i) = rw same at ((from_ordered_parts _ image).1) in
      (ground (arith, no_overflow m i near, same), fits)

  value_down :
      (m : ℕ)
      → Counts s t (negsuc m) n
      → (value_at (plan s t (negsuc m) n) i ≡ ok (nth s (negsuc m) i))
        × IsInt64 (nth s (negsuc m) i)
  unfolding value_at
  value_down m c =
      let near : (m + 1) * i < 2 ^ 64 = omega (arith, (c i).0 inside, nth_down s m i) in
      let image : (m + 1) * i ≤ ordered s =
        omega (arith, (c i).0 inside, nth_down s m i, ordered_parts s hs) in
      let small : ordered s - (m + 1) * i < 2 ^ 64 = omega (arith, ordered_parts s hs) in
      let same : from_ordered (ordered s - (m + 1) * i) ≡ nth s (negsuc m) i =
        eq_of_parts _ _
          (omega (arith, from_ordered_parts _ small, nth_down s m i, ordered_parts s hs)) in
      let fits : IsInt64 (nth s (negsuc m) i) = rw same at ((from_ordered_parts _ small).1) in
      (ground (arith, no_overflow (m + 1) i near, same), fits)

  value_at_lem :
      (step : ℤ)
      → step ≢ pos 0
      → Counts s t step n
      → (value_at (plan s t step n) i ≡ ok (nth s step i)) × IsInt64 (nth s step i)
  value_at_lem (pos zero) h c = absurd (h refl)
  value_at_lem (pos (suc m)) h c = value_up (suc m) (omega arith) c
  value_at_lem (negsuc m) h c = value_down m c

-- A plan that `build` returned, under any limit or none, yields start + index * step at each index
-- below its count, an int64_t; at any other index it reports the index as out of range.
pub value_at-build :
    (s t step : ℤ) (limit : Option ℕ) (p : RangePlan) (i : ℕ)
    → IsInt64 s
    → IsInt64 t
    → build s t step limit ≡ ok p
    → (i < p.count → (value_at p i ≡ ok (nth s step i)) × IsInt64 (nth s step i))
      × (p.count ≤ i
          → value_at p i
            ≡ err (make_error RangeErrorCode.index_out_of_range (some p.count) (some i)))
value_at-build s t step limit p i hs ht e =
    let (h, made, c) = built s t step limit p hs ht e in
    (
      λ k.
          subst (λ (q : RangePlan). (value_at q i ≡ ok (nth s step i)) × IsInt64 (nth s step i))
            (sym made) (value_at_lem s t p.count i hs ht k step h c),
      λ k. unfold value_at in ground arith,
    )

-- ===== src/Range/Tests.antt =====
-- Runs of the range plan, and the theorems at concrete inputs.
use atomic_proof_interpreter.Prelude.{ℕ, ◌+◌, ◌^◌, ◌≤◌, ◌<◌, ◌≡◌, refl, none, some, arith, ok, err}
use atomic_proof_interpreter.Prelude.Int.{pos, negsuc}
use atomic_proof_interpreter.Range.Plan.{
  RangeErrorCode, RangePlan, RangeExpansionBudget, IsInt64, plan_count, build, value_at, remaining,
  consume, make_error, check_limit, distance, progresses, step_count, ordered, from_ordered,
  step_magnitude, offset,
}
use atomic_proof_interpreter.Range.Bounds.{Counts, nth}
use atomic_proof_interpreter.Range.Values.{plan, build-Counts, value_at-build}
use atomic_proof_interpreter.Range.Budget.{IsValid, consume_lem}

-- range(10, -5, -4) is 10, 6, 2, -2.
abbrev countdown : RangePlan
countdown = plan (pos 10) (negsuc 4) (negsuc 3) 4

countdown_built : build (pos 10) (negsuc 4) (negsuc 3) none ≡ ok countdown
unfolding build plan_count check_limit distance progresses step_count ordered step_magnitude
countdown_built = refl

countdown_last : value_at countdown 3 ≡ ok (negsuc 1)
unfolding value_at offset ordered from_ordered step_magnitude
countdown_last = refl

build-Counts_example :
    (n : ℕ) × Counts (pos 10) (negsuc 4) (negsuc 3) n
    × (n < 2 ^ 64)
    × (build (pos 10) (negsuc 4) (negsuc 3) none ≡ ok (plan (pos 10) (negsuc 4) (negsuc 3) n))
    × (n ≤ 2
        → build (pos 10) (negsuc 4) (negsuc 3) (some 2)
          ≡ ok (plan (pos 10) (negsuc 4) (negsuc 3) n))
    × (2 < n
        → build (pos 10) (negsuc 4) (negsuc 3) (some 2)
          ≡ err (make_error RangeErrorCode.iteration_limit_exceeded (some 2) (some n)))
build-Counts_example =
    build-Counts (pos 10) (negsuc 4) (negsuc 3) 2 (omega arith) (omega arith) (ground arith)

value_at-build_example :
    (3 < 4
      → (value_at countdown 3 ≡ ok (nth (pos 10) (negsuc 3) 3))
        × IsInt64 (nth (pos 10) (negsuc 3) 3))
    × (4 ≤ 3
        → value_at countdown 3
          ≡ err (make_error RangeErrorCode.index_out_of_range (some 4) (some 3)))
value_at-build_example =
    value_at-build (pos 10) (negsuc 4) (negsuc 3) none countdown 3 (omega arith) (omega arith)
      countdown_built

abbrev half_used : RangeExpansionBudget
half_used = record { limit = 10; consumed = 5 }

consume_lem_example :
    IsValid (consume half_used 6).0
    × ((consume half_used 6).0.limit ≡ 10)
    × (remaining half_used + 5 ≡ 10)
    × (5 + 6 ≤ 10 → ((consume half_used 6).0.consumed ≡ 5 + 6) × ((consume half_used 6).1 ≡ none))
    × (10 < 5 + 6
        → ((consume half_used 6).0 ≡ half_used)
          × ((consume half_used 6).1
              ≡ some (make_error RangeErrorCode.budget_exceeded (some 10) (some 6))))
consume_lem_example = consume_lem half_used 6 (omega arith) (omega arith)

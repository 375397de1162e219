-- ===== src/Range/Budget.antt =====
-- RangeExpansionBudget of src/compiler/range_plan.cpp: taking from the shared budget.
use atomic_proof_interpreter.Prelude.{ℕ, ◌+◌, ◌^◌, ◌≤◌, ◌<◌, ◌≡◌, none, some, arith}
use atomic_proof_interpreter.Range.Plan.{
  RangeErrorCode, RangeExpansionBudget, remaining, consume, make_error,
}

-- The constructor starts with nothing consumed; the limit is a uint64_t.
pub record IsValid (b : RangeExpansionBudget) : Type 0 where
  pub within : b.consumed ≤ b.limit
  pub word : b.limit < 2 ^ 64

-- On a valid budget and a uint64_t amount: what is left never wraps; a request that fits is taken in
-- full with no error, any other leaves the budget as it was and reports the limit and the amount; the
-- budget stays valid and its limit does not change.
pub consume_lem :
    (b : RangeExpansionBudget) (amount : ℕ)
    → IsValid b
    → amount < 2 ^ 64
    → IsValid (consume b amount).0
      × ((consume b amount).0.limit ≡ b.limit)
      × (remaining b + b.consumed ≡ b.limit)
      × (b.consumed + amount ≤ b.limit
          → ((consume b amount).0.consumed ≡ b.consumed + amount) × ((consume b amount).1 ≡ none))
      × (b.limit < b.consumed + amount
          → ((consume b amount).0 ≡ b)
            × ((consume b amount).1
                ≡ some (make_error RangeErrorCode.budget_exceeded (some b.limit) (some amount))))
unfolding consume
consume_lem b amount v h =
    (ground arith, ground arith, ground arith, λ k. ground arith, λ k. ground arith)

-- ===== src/Range/Plan.antt =====
-- src/compiler/range_plan.h and range_plan.cpp: the plan of a Python-style range over int64_t.
use atomic_proof_interpreter.Prelude.{
  ℕ, ◌+◌, ◌-◌, ◌*◌, ◌/◌, ◌%◌, ◌^◌, Bool, not, ◌&&◌, Option, none, some, ltb, leb, ◌==◌,
  if◌then◌else◌, Result, ok, err, ◌>>=◌,
}
use atomic_proof_interpreter.Prelude.Int.{ℤ, pos, negsuc, ◌≤ℤ◌, ltb_ℤ, eqb_ℤ}

pub data RangeErrorCode : Type 0 where
  zero_step count_overflow iteration_limit_exceeded : RangeErrorCode
  index_out_of_range value_overflow budget_exceeded : RangeErrorCode

-- The message text is left out.
pub record RangeError : Type 0 where
  pub code : RangeErrorCode
  pub limit : Option ℕ
  pub observed : Option ℕ

abbrev pub IsInt64 : ℤ → Type 0
IsInt64 z = (negsuc (2 ^ 63 - 1) ≤ℤ z) × (z ≤ℤ pos (2 ^ 63 - 1))

abbrev pub uint64_max : ℕ
uint64_max = 2 ^ 64 - 1

abbrev pub sign_bit : ℕ
sign_bit = 2 ^ 63

-- std::bit_cast between int64_t and uint64_t: two's complement.
abbrev pub to_uint64 : ℤ → ℕ
to_uint64 (pos n) = n
to_uint64 (negsuc n) = 2 ^ 64 - 1 - n

abbrev pub to_int64 : ℕ → ℤ
to_int64 w = if ltb w sign_bit then pos w else negsuc (2 ^ 64 - 1 - w)

-- `value ^ signBit` on 64 bits: the top bit is flipped, the others stay.
abbrev pub flip_sign : ℕ → ℕ
flip_sign w = (w + sign_bit) % 2 ^ 64

unfoldable pub ordered : ℤ → ℕ
ordered value = flip_sign (to_uint64 value)

unfoldable pub from_ordered : ℕ → ℤ
from_ordered value = to_int64 (flip_sign value)

-- uint64_t subtraction.
abbrev pub sub64 : ℕ → ℕ → ℕ
sub64 a b = (a + 2 ^ 64 - b) % 2 ^ 64

-- `-(step + 1)` of a negative step is `negsuc n + 1 = -n`, negated.
unfoldable pub step_magnitude : ℤ → ℕ
step_magnitude (pos n) = n
step_magnitude (negsuc n) = n + 1

abbrev pub make_error : RangeErrorCode → Option ℕ → Option ℕ → RangeError
make_error code limit observed = record { code = code; limit = limit; observed = observed }

pub record RangePlan : Type 0 where
  pub start : ℤ
  pub stop : ℤ
  pub step : ℤ
  pub count : ℕ

abbrev pub is_positive : ℤ → Bool
is_positive z = ltb_ℤ (pos 0) z

unfoldable pub progresses : ℤ → ℤ → ℤ → Bool
progresses start stop step = if is_positive step then ltb_ℤ start stop else ltb_ℤ stop start

unfoldable pub distance : ℤ → ℤ → ℤ → ℕ
distance start stop step =
    if is_positive step
    then sub64 (ordered stop) (ordered start)
    else sub64 (ordered start) (ordered stop)

-- The number of steps of the given magnitude in the span; the last one may be cut short.
unfoldable pub step_count : ℕ → ℕ → Result RangeError ℕ
step_count span magnitude =
    let quotient = span / magnitude in
    let has_remainder = not (span % magnitude == 0) in
    if has_remainder && quotient == uint64_max
    then err (make_error RangeErrorCode.count_overflow none none)
    else ok ((quotient + (if has_remainder then 1 else 0)) % 2 ^ 64)

-- The iteration count, before the limit is looked at.
unfoldable pub plan_count : ℤ → ℤ → ℤ → Result RangeError ℕ
unfolding progresses
plan_count start stop step =
    if progresses start stop step
    then step_count (distance start stop step) (step_magnitude step)
    else ok 0

unfoldable pub check_limit : Option ℕ → ℕ → RangePlan → Result RangeError RangePlan
check_limit none count plan = ok plan
check_limit (some limit) count plan =
    if ltb limit count
    then err (make_error RangeErrorCode.iteration_limit_exceeded (some limit) (some count))
    else ok plan

unfoldable pub build : ℤ → ℤ → ℤ → Option ℕ → Result RangeError RangePlan
unfolding plan_count check_limit
build start stop step max_iterations =
    if eqb_ℤ step (pos 0) then err (make_error RangeErrorCode.zero_step none none) else (do
      count ← plan_count start stop step
      check_limit max_iterations count
          (record { start = start; stop = stop; step = step; count = count }))

unfoldable pub offset : RangePlan → ℕ → ℕ
unfolding step_magnitude
offset plan index = step_magnitude plan.step * index % 2 ^ 64

unfoldable pub value_at : RangePlan → ℕ → Result RangeError ℤ
unfolding offset step_magnitude ordered from_ordered
value_at plan index =
    if leb plan.count index
    then err (make_error RangeErrorCode.index_out_of_range (some plan.count) (some index))
    else if not (index == 0) && ltb (uint64_max / index) (step_magnitude plan.step)
    then err (make_error RangeErrorCode.value_overflow none (some index))
    else if is_positive plan.step
    then (if ltb (uint64_max - ordered plan.start) (offset plan index)
        then err (make_error RangeErrorCode.value_overflow none (some index))
        else ok (from_ordered (ordered plan.start + offset plan index)))
    else if ltb (ordered plan.start) (offset plan index)
    then err (make_error RangeErrorCode.value_overflow none (some index))
    else ok (from_ordered (ordered plan.start - offset plan index))

-- The shared budget of nested loops: what is left, and taking from it.
pub record RangeExpansionBudget : Type 0 where
  pub limit : ℕ
  pub consumed : ℕ

-- m_limit - m_consumed on uint64_t.
unfoldable pub remaining : RangeExpansionBudget → ℕ
remaining b = sub64 b.limit b.consumed

unfoldable pub consume : RangeExpansionBudget → ℕ → RangeExpansionBudget × Option RangeError
unfolding remaining
consume b amount =
    if ltb (remaining b) amount
    then (b, some (make_error RangeErrorCode.budget_exceeded (some b.limit) (some amount)))
    else (record b { consumed = (b.consumed + amount) % 2 ^ 64 }, none)

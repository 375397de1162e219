-- ===== src/Vm/Number.antt =====
-- StackElement of src/debugger/vm/stack_state.cpp: script numbers, little endian with a sign bit, as
-- byte strings. An int64_t is an integer.
use atomic_proof_interpreter.Prelude.{
  ℕ, zero, suc, ◌+◌, ◌-◌, ◌*◌, ◌/◌, ◌%◌, ◌^◌, Bool, true, false, Option, none, some, List, [], ◌∷◌,
  length, ltb, leb, ◌==◌, if◌then◌else◌,
}
use atomic_proof_interpreter.Prelude.Int.{ℤ, pos, negsuc}

abbrev pub Element : Type 0
Element = List ℕ

abbrev pub int64_max : ℕ
int64_max = 2 ^ 63 - 1

unfoldable pub is_negative : ℤ → Bool
is_negative (pos n) = false
is_negative (negsuc n) = true

-- The magnitude, as a uint64_t.
unfoldable pub abs_value : ℤ → ℕ
abs_value (pos n) = n
abs_value (negsuc n) = suc n

-- `while (absvalue)` pushes the low byte and shifts; the fuel bounds the rounds.
unfoldable pub low_bytes : ℕ → ℕ → List ℕ
low_bytes zero absvalue = []
low_bytes (suc fuel) absvalue =
    let rest = low_bytes fuel (absvalue / 256) in
    if absvalue == 0 then [] else absvalue % 256 ∷ rest

-- The last byte takes the sign, or one more byte does where its top bit is in use. With the top bit
-- clear, `|= 0x80` adds 0x80.
unfoldable pub set_sign : Bool → List ℕ → List ℕ
set_sign neg [] = []
set_sign neg (b ∷ []) =
    if leb 0x80 b
    then b ∷ (if neg then 0x80 else 0x00) ∷ []
    else if neg
    then (b + 0x80) ∷ []
    else b ∷ []
set_sign neg (b ∷ c ∷ bytes) = b ∷ set_sign neg (c ∷ bytes)

-- Eight rounds empty a uint64_t.
unfoldable pub serialize_script_num : ℤ → Element
unfolding is_negative abs_value
serialize_script_num value =
    if abs_value value == 0
    then []
    else set_sign (is_negative value) (low_bytes 8 (abs_value value))

-- The bytes shifted to their places; `|=` of disjoint bits is a sum.
unfoldable pub little_endian : List ℕ → ℕ
little_endian [] = 0
little_endian (b ∷ bytes) = b + 256 * little_endian bytes

unfoldable pub last_byte : List ℕ → ℕ
last_byte [] = 0
last_byte (b ∷ []) = b
last_byte (b ∷ c ∷ bytes) = last_byte (c ∷ bytes)

unfoldable pub negate : ℕ → ℤ
negate zero = pos 0
negate (suc n) = negsuc n

-- `v & mask` with the sign bit of the last byte cleared takes that bit away.
unfoldable pub to_int : Element → Option ℤ
unfolding little_endian last_byte negate
to_int bytes =
    let v = little_endian bytes in
    let abs_val = v - 0x80 * 2 ^ (8 * (length bytes - 1)) in
    if length bytes == 0
    then some (pos 0)
    else if ltb 8 (length bytes)
    then none
    else if leb 0x80 (last_byte bytes)
    then (if ltb (int64_max + 1) abs_val
        then none
        else if abs_val == int64_max + 1
        then some (negsuc int64_max)
        else some (negate abs_val))
    else if ltb int64_max v
    then none
    else some (pos v)

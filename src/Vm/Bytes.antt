-- ===== src/Vm/Bytes.antt =====
-- The byte-string instructions of src/debugger/vm/bvm_simulator.cpp, op_cat to op_bitxor.
use Prim.Native.Nat.{bit_and, bit_or, bit_xor}
use atomic_proof_interpreter.Prelude.{
  ℕ, zero, suc, ◌+◌, ◌-◌, ◌*◌, ◌/◌, ◌%◌, ◌^◌, Bool, true, not, List, [], ◌∷◌, ◌++◌, length, take,
  drop, map, ltb, ◌==◌, if◌then◌else◌, ok, err, ◌>>=◌,
}
use atomic_proof_interpreter.Prelude.Int.{ℤ, pos, negsuc}
use atomic_proof_interpreter.Vm.Number.{Element, to_int}
use atomic_proof_interpreter.Vm.Stack.{VmError, Stack, Outcome, push, push_int, pop}
use atomic_proof_interpreter.Vm.Ops.{to_depth}
use atomic_proof_interpreter.Vm.Numeric.{numeric, wrap64}

unfoldable pub op_cat : Stack → Outcome
unfolding pop push
op_cat s = do (b, s₁) ← pop s; (a, s₂) ← pop s₁; ok (push (a ++ b) s₂)

unfoldable pub op_split : Stack → Outcome
unfolding pop push to_depth
op_split s = do
  (n_elem, s₁) ← pop s
  (x, s₂) ← pop s₁
  n ← to_depth (to_int n_elem)
  if ltb (length x) n then err VmError.bad_index else ok (push (drop n x) (push (take n x) s₂))

-- `v & 0xFF` and the arithmetic `v >>= 8`.
unfoldable pub low_byte : ℤ → ℕ
low_byte (pos n) = n % 256
low_byte (negsuc n) = 255 - n % 256

unfoldable pub shift_byte : ℤ → ℤ
shift_byte (pos n) = pos (n / 256)
shift_byte (negsuc n) = negsuc (n / 256)

unfoldable pub is_nonzero : ℤ → Bool
is_nonzero (pos n) = not (n == 0)
is_nonzero (negsuc n) = true

-- `while (v != 0 && bytes.size() < len)`: the rounds left, and the bytes made so far, which grow at
-- the front.
unfoldable pub big_endian : ℕ → ℤ → List ℕ → List ℕ
unfolding low_byte shift_byte is_nonzero
big_endian zero v bytes = bytes
big_endian (suc rounds) v bytes =
    let more = big_endian rounds (shift_byte v) (low_byte v ∷ bytes) in
    if is_nonzero v then more else bytes

unfoldable pub zeros : ℕ → List ℕ
zeros zero = []
zeros (suc n) = 0 ∷ zeros n

-- Padded at the front; the loop never makes more than len bytes.
unfoldable pub num2bin : ℤ → ℕ → List ℕ
unfolding big_endian zeros
num2bin value len = let bytes = big_endian len value [] in zeros (len - length bytes) ++ bytes

unfoldable pub op_num2bin : Stack → Outcome
unfolding pop push numeric to_depth num2bin
op_num2bin s = do
  (b_elem, s₁) ← pop s
  (a_elem, s₂) ← pop s₁
  value ← numeric (to_int a_elem)
  len ← to_depth (to_int b_elem)
  ok (push (num2bin value len) s₂)

-- `v = (v << 8) | c` on int64_t, from the value so far.
unfoldable pub accumulate : ℕ → List ℕ → ℕ
accumulate v [] = v
accumulate v (c ∷ bytes) = accumulate ((v * 256 + c) % 2 ^ 64) bytes

unfoldable pub op_bin2num : Stack → Outcome
unfolding pop push_int accumulate
op_bin2num s = do (x, s₁) ← pop s; ok (push_int (wrap64 (pos (accumulate 0 x))) s₁)

unfoldable pub op_invert : Stack → Outcome
unfolding pop push
op_invert s = do (x, s₁) ← pop s; ok (push (map (λ (c : ℕ). 255 - c) x) s₁)

-- Byte by byte over the shorter length.
unfoldable pub zip_bytes : (ℕ → ℕ → ℕ) → Element → Element → Element
zip_bytes f [] b = []
zip_bytes f (x ∷ xs) [] = []
zip_bytes f (x ∷ xs) (y ∷ ys) = f x y ∷ zip_bytes f xs ys

unfoldable pub bitwise : (ℕ → ℕ → ℕ) → Stack → Outcome
unfolding pop push zip_bytes
bitwise f s = do (b, s₁) ← pop s; (a, s₂) ← pop s₁; ok (push (zip_bytes f a b) s₂)

unfoldable pub op_bitand : Stack → Outcome
unfolding bitwise
op_bitand = bitwise bit_and

unfoldable pub op_bitor : Stack → Outcome
unfolding bitwise
op_bitor = bitwise bit_or

unfoldable pub op_bitxor : Stack → Outcome
unfolding bitwise
op_bitxor = bitwise bit_xor

-- ===== src/Prelude/Arith.antt =====
-- Ceiling division, as the number of steps of a given size below a distance.
use Prim.Native.Nat.{ℕ, ◌+◌, ◌*◌, ◌/◌, ◌%◌, ◌≤◌, ◌<◌}
use mathlib.Core.Bool.{not}
use native.Mathlib.Omega.{arith}
use native.Mathlib.Nat.{div-add-mod, mod-lt, mul_comm}
use atomic_proof_interpreter.Prelude.Tests.{◌==◌, if◌then◌else◌}

abbrev pub ceil_div : ℕ → ℕ → ℕ
ceil_div d m = d / m + (if not (d % m == 0) then 1 else 0)

pub mul_mono : (m i q : ℕ) → i ≤ q → m * i ≤ m * q
mul_mono m i q h = grind arith

-- The same with quotient and remainder as variables.
module _ (m i q r : ℕ) (rest : r < m) where
  below : i < q + (if not (r == 0) then 1 else 0) → m * i < m * q + r
  below k = ground (arith, mul_mono m i q, mul_mono m (i + 1) q)

  above : m * i < m * q + r → i < q + (if not (r == 0) then 1 else 0)
  above k = ground (arith, mul_mono m q i, mul_mono m (q + 1) i)

pub lt-ceil_div : (d m i : ℕ) → 0 < m → i < ceil_div d m → m * i < d
lt-ceil_div d m i h k = omega (arith, below m i (d / m) (d % m) (mod-lt d h) k, div-add-mod d m)

pub lt_of_mul-lt : (d m i : ℕ) → 0 < m → m * i < d → i < ceil_div d m
lt_of_mul-lt d m i h k = above m i (d / m) (d % m) (mod-lt d h) (omega (arith, div-add-mod d m))

pub ceil_div-le : (d m : ℕ) → 0 < m → ceil_div d m ≤ d
ceil_div-le d m h =
    ground (arith, mod-lt d h, div-add-mod d m, mul_mono (d / m) 1 m, mul_comm m (d / m))

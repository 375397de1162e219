-- ===== src/Vm/NumberText.antt =====
-- Script numbers of stack_state.cpp: what serializeScriptNum writes, toInt reads.
use atomic_proof_interpreter.Prelude.{
  ℕ, zero, suc, ◌+◌, ◌-◌, ◌*◌, ◌/◌, ◌%◌, ◌^◌, ◌≤◌, ◌<◌, ◌≡◌, refl, ap, sym, subst, ◌∙◌, Bool, true,
  false, none, some, List, [], ◌∷◌, length, All, leb, ◌==◌, if◌then◌else◌, arith, Bool-cases, inl,
  inr, ◌≢◌,
}
use native.Mathlib.Numerals.{towards_suc}
use native.Mathlib.Nat.{mul-suc, pow-suc}
use Prim.Native.Nat.{max}
use atomic_proof_interpreter.Prelude.Int.{ℤ, pos, negsuc, ◌≤ℤ◌}
use atomic_proof_interpreter.Vm.Number.{
  low_bytes, set_sign, serialize_script_num, little_endian, last_byte, negate, to_int,
}

-- The place of the byte at index k.
shift_eight : (k : ℕ) → 2 ^ (8 * suc k) ≡ 256 * 2 ^ (8 * k)
shift_eight k = rw (mul-suc 8 k) (simp towards_suc (omega arith))

-- Appending the sign to bytes that stand for n.
abbrev weight : List ℕ → ℕ
weight bytes = 0x80 * 2 ^ (8 * (length bytes - 1))

weight-cons : (b : ℕ) (t : List ℕ) → 1 ≤ length t → weight (b ∷ t) ≡ 256 * weight t
weight-cons b [] h = absurd (omega arith)
weight-cons b (d ∷ ds) h =
    let e : length (d ∷ ds) - 1 ≡ length ds = omega arith in
    let f : suc (length (d ∷ ds)) - 1 ≡ suc (length ds) = omega arith in
    rw (e, f, shift_eight (length ds)) (omega arith)

last_byte-cons : (b : ℕ) (t : List ℕ) → 1 ≤ length t → last_byte (b ∷ t) ≡ last_byte t
unfolding last_byte
last_byte-cons b [] h = absurd (omega arith)
last_byte-cons b (d ∷ ds) h = refl

set_sign_read :
    (neg : Bool) (b : ℕ) (bytes : List ℕ)
    → All (λ c. c < 256) (b ∷ bytes)
    → (little_endian (set_sign neg (b ∷ bytes))
        ≡ little_endian (b ∷ bytes) + (if neg then weight (set_sign neg (b ∷ bytes)) else 0))
      × (leb 0x80 (last_byte (set_sign neg (b ∷ bytes))) ≡ neg)
      × (1 ≤ length (set_sign neg (b ∷ bytes)))
unfolding little_endian last_byte set_sign
set_sign_read true b [] h = ground arith
set_sign_read false b [] h = ground arith
set_sign_read true b (c ∷ bytes) (hb, h) =
    let (value, sign, some_bytes) = set_sign_read true c bytes h in
    let t : List ℕ = set_sign true (c ∷ bytes) in
    (
      omega (arith, value, weight-cons b t some_bytes),
      rw (last_byte-cons b t some_bytes) sign,
      omega arith,
    )
set_sign_read false b (c ∷ bytes) (hb, h) =
    let (value, sign, some_bytes) = set_sign_read false c bytes h in
    let t : List ℕ = set_sign false (c ∷ bytes) in
    (omega (arith, value), rw (last_byte-cons b t some_bytes) sign, omega arith)

pub low_bytes-IsByte : (fuel n : ℕ) → All (λ c. c < 256) (low_bytes fuel n)
unfolding low_bytes
low_bytes-IsByte zero n = tt
low_bytes-IsByte (suc fuel) n = ground (arith, low_bytes-IsByte fuel (n / 256))

-- With enough rounds the loop writes the number out in full.
little_endian-low_bytes : (fuel n : ℕ) → n < 256 ^ fuel → little_endian (low_bytes fuel n) ≡ n
unfolding little_endian low_bytes
little_endian-low_bytes zero n h = omega arith
little_endian-low_bytes (suc fuel) n h =
    ground
      (arith, little_endian-low_bytes fuel (n / 256) (omega (arith, rw (pow-suc 256 fuel) at h)))

length-set_sign-cons :
    (neg : Bool) (x : ℕ) (t : List ℕ)
    → length (set_sign neg (x ∷ t)) ≤ suc (max 1 (length (set_sign neg t)))
unfolding set_sign
length-set_sign-cons neg x [] = ground arith
length-set_sign-cons neg x (y ∷ r) = omega arith

pub low_bytes-suc :
    (fuel n : ℕ)
    → low_bytes (suc fuel) n ≡ (if n == 0 then [] else n % 256 ∷ low_bytes fuel (n / 256))
unfolding low_bytes
low_bytes-suc fuel n = refl

-- A magnitude that leaves the top bit of its last byte free needs no byte more.
length-set_sign :
    (neg : Bool) (k n : ℕ) → n < 128 * 256 ^ k → length (set_sign neg (low_bytes (suc k) n)) ≤ suc k
length-set_sign neg zero n h = unfold set_sign low_bytes in ground arith
length-set_sign neg (suc k) n h =
    let small : n / 256 < 128 * 256 ^ k = omega (arith, rw (pow-suc 256 k) at h) in
    let ih : length (set_sign neg (low_bytes (suc k) (n / 256))) ≤ suc k =
      length-set_sign neg k (n / 256) small in
    rw (low_bytes-suc (suc k) n) (elim (Bool-cases (n == 0)) [
      | inl z ↦ rw z (empty_sign neg)
      | inr m ↦
          rw m (omega (arith, ih, length-set_sign-cons neg (n % 256) (low_bytes (suc k) (n / 256))))
    ])
  where
    empty_sign : (b : Bool) → length (set_sign b []) ≤ suc (suc k)
    empty_sign b = unfold set_sign in omega arith

-- What `to_int` makes of bytes with a known value and sign.
read_bytes :
    (neg : Bool) (t : List ℕ) (n : ℕ)
    → n < 2 ^ 63
    → little_endian t ≡ n + (if neg then weight t else 0)
    → leb 0x80 (last_byte t) ≡ neg
    → 1 ≤ length t
    → length t ≤ 8
    → to_int t ≡ some (if neg then negate n else pos n)
unfolding to_int
read_bytes true t n h value sign lo hi = ground arith
read_bytes false t n h value sign lo hi = ground arith

read_signed :
    (neg : Bool) (n : ℕ)
    → 0 < n
    → n < 2 ^ 63
    → to_int (set_sign neg (low_bytes 8 n)) ≡ some (if neg then negate n else pos n)
read_signed neg n h k =
    let rest : List ℕ = low_bytes 7 (n / 256) in
    let written : low_bytes 8 n ≡ n % 256 ∷ rest = low_bytes-suc 7 n ∙ ground arith in
    let value : little_endian (n % 256 ∷ rest) ≡ n =
      rw (← written) (little_endian-low_bytes 8 n (omega arith)) in
    let (v, sign, lo) =
      set_sign_read neg (n % 256) rest (omega arith, low_bytes-IsByte 7 (n / 256)) in
    let hi : length (set_sign neg (n % 256 ∷ rest)) ≤ 8 =
      rw (← written) (length-set_sign neg 7 n (omega arith)) in
    rw written (read_bytes neg (set_sign neg (n % 256 ∷ rest)) n k (rw value at v) sign lo hi)

negate-suc : (n : ℕ) → negate (suc n) ≡ negsuc n
unfolding negate
negate-suc n = refl

least_unread : to_int (serialize_script_num (negsuc (2 ^ 63 - 1))) ≡ none
unfolding to_int serialize_script_num low_bytes set_sign
least_unread = refl

-- Every int64_t but the least is read back from what is written; the least is written as nine bytes,
-- which are not read as a number.
pub to_int-serialize_script_num :
    (z : ℤ)
    → negsuc (2 ^ 63 - 1) ≤ℤ z
    → z ≤ℤ pos (2 ^ 63 - 1)
    → (z ≢ negsuc (2 ^ 63 - 1) → to_int (serialize_script_num z) ≡ some z)
      × (z ≡ negsuc (2 ^ 63 - 1) → to_int (serialize_script_num z) ≡ none)
unfolding serialize_script_num
to_int-serialize_script_num (pos zero) lo hi = (λ h. unfold to_int in refl, λ h. ground arith)
to_int-serialize_script_num (pos (suc n)) lo hi =
    (λ h. ground (arith, read_signed false (suc n) (omega arith) (omega arith)), λ h. ground arith)
to_int-serialize_script_num (negsuc n) lo hi = (
  λ h.
      let other : n ≢ 2 ^ 63 - 1 = λ e. h (ap negsuc e) in
      ground (arith, read_signed true (suc n) (omega arith) (omega arith), negate-suc n),
  λ h.
      let e : n ≡ 2 ^ 63 - 1 = ground arith in
      subst (λ (m : ℕ). to_int (serialize_script_num (negsuc m)) ≡ none) (sym e) least_unread,
)

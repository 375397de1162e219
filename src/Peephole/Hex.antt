-- ===== src/Peephole/Hex.antt =====
-- Texts that isPureHex of src/bytecode_peephole_pass.h accepts, as bytes.
use atomic_proof_interpreter.Prelude.{
  ℕ, zero, suc, ◌+◌, ◌*◌, ◌/◌, ◌%◌, ◌≡◌, ◌≢◌, ◌≤◌, ◌<◌, refl, arith, ap, sym, ◌∙◌, Bool, true,
  false, not, ◌&&◌, ◌||◌, Option, none, some, List, [], ◌∷◌, length, get_or, All, map, ltb, ◌==◌,
  if◌then◌else◌, ok, agree_below→eq, Bool-cases, inl, inr,
}
use atomic_proof_interpreter.Script.Hex.{
  IsByte, digits, byte_to_hex, bytes_to_hex, hex_digit, hex_pair, cons_byte, hex_pairs,
  remove_prefix, hex_to_bytes,
}
use atomic_proof_interpreter.Peephole.Text.{
  is_hex_char, all_hex, is_pure_hex, digit_value, hex_byte_at, first_byte, is_byte, is_single_op,
}
use atomic_proof_interpreter.Peephole.Push.{to_lower}

pub and-true : (a b : Bool) → a && b ≡ true → (a ≡ true) × (b ≡ true)
and-true a b h = (ground arith, ground arith)

is_digit_below : Option ℕ → ℕ → Bool
is_digit_below none bound = false
is_digit_below (some n) bound = ltb n bound

-- What a hexadecimal character is, checked for each.
good_char : ℕ → ℕ
unfolding is_hex_char hex_digit is_digit_below to_lower digit_value
good_char c =
    if not (is_hex_char c)
      || (is_digit_below (hex_digit c) 16
          && (not (c == b'x' || c == b'X')
              && to_lower c == get_or digits (digit_value (hex_digit c)) 0))
    then 1
    else 0

hex_char_below : (c : ℕ) → is_hex_char c ≡ true → c < 103
unfolding is_hex_char
hex_char_below c h = ground arith

char_good : (c : ℕ) → c < 103 → good_char c ≡ 1
unfolding good_char
char_good = agree_below→eq good_char (λ c. 1) 103 refl

abbrev pub HexChar : ℕ → ℕ → Type 0
HexChar c n =
    (hex_digit c ≡ some n) × (n < 16) × (c ≢ b'x') × (c ≢ b'X') × (to_lower c ≡ get_or digits n 0)

digit_below :
    (o : Option ℕ) → is_digit_below o 16 ≡ true → (o ≡ some (digit_value o)) × (digit_value o < 16)
unfolding is_digit_below digit_value
digit_below none h = absurd (ground arith)
digit_below (some n) h = (refl, ground arith)

hex_char : (c : ℕ) → is_hex_char c ≡ true → HexChar c (digit_value (hex_digit c))
hex_char c h =
    let lower = to_lower c == get_or digits (digit_value (hex_digit c)) 0 in
    let other = not (c == b'x' || c == b'X') in
    let below = is_digit_below (hex_digit c) 16 in
    let g : below && (other && lower) ≡ true =
      unfold good_char in ground (arith, char_good c (hex_char_below c h)) in
    let (d, r) = and-true below (other && lower) g in
    let (x, t) = and-true other lower r in
    let (e, b) = digit_below (hex_digit c) d in (e, b, ground arith, ground arith, ground arith)

-- The bytes that a text of hexadecimal digits stands for.
pub record Bytes (s bytes : List ℕ) : Type 0 where
  pub read : hex_pairs s ≡ ok bytes
  pub size : length s ≡ 2 * length bytes
  pub are_bytes : All IsByte bytes
  pub lower : map to_lower s ≡ bytes_to_hex bytes

pair_read :
    (c d m n : ℕ) (s bytes : List ℕ)
    → hex_digit c ≡ some m
    → hex_digit d ≡ some n
    → hex_pairs s ≡ ok bytes
    → hex_pairs (c ∷ d ∷ s) ≡ ok ((m * 16 + n) ∷ bytes)
unfolding hex_pairs hex_pair cons_byte
pair_read c d m n s bytes e f g = rw (e, f, g) refl

pair_lower :
    (c d m n : ℕ) (s bytes : List ℕ)
    → n < 16
    → to_lower c ≡ get_or digits m 0
    → to_lower d ≡ get_or digits n 0
    → map to_lower s ≡ bytes_to_hex bytes
    → map to_lower (c ∷ d ∷ s) ≡ bytes_to_hex ((m * 16 + n) ∷ bytes)
unfolding bytes_to_hex byte_to_hex
pair_lower c d m n s bytes h e f g =
    let hi : (m * 16 + n) / 16 ≡ m = omega arith in
    let lo : (m * 16 + n) % 16 ≡ n = omega arith in rw (e, f, g, hi, lo) refl

Bytes-cons :
    (c d : ℕ) (s bytes : List ℕ)
    → is_hex_char c ≡ true
    → is_hex_char d ≡ true
    → Bytes s bytes
    → Bytes (c ∷ d ∷ s) ((digit_value (hex_digit c) * 16 + digit_value (hex_digit d)) ∷ bytes)
Bytes-cons c d s bytes hc hd b =
    let (e, m, _, _, t) = hex_char c hc in
    let (f, n, _, _, u) = hex_char d hd in
    record {
      read = pair_read c d _ _ s bytes e f b.read;
      size = omega (arith, b.size);
      are_bytes = (omega arith, b.are_bytes);
      lower = pair_lower c d _ _ s bytes n t u b.lower;
    }

hex_byte_at_zero :
    (c d : ℕ) (s : List ℕ)
    → hex_byte_at (c ∷ d ∷ s) 0 ≡ digit_value (hex_digit c) * 16 + digit_value (hex_digit d)
unfolding hex_byte_at
hex_byte_at_zero c d s = ground arith

hex_byte_at-suc : (c d i : ℕ) (s : List ℕ) → hex_byte_at (c ∷ d ∷ s) (suc i) ≡ hex_byte_at s i
unfolding hex_byte_at
hex_byte_at-suc c d i s =
    let e : 2 * suc i ≡ suc (suc (2 * i)) = omega arith in
    let f : suc (suc (2 * i)) + 1 ≡ suc (suc (2 * i + 1)) = omega arith in rw (e, f) refl

hex_byte_at_nil : (i : ℕ) → hex_byte_at [] i ≡ 0
unfolding hex_byte_at hex_digit digit_value
hex_byte_at_nil i = refl

hex_byte_at_cons :
    (c d : ℕ) (s bytes : List ℕ)
    → ((i : ℕ) → hex_byte_at s i ≡ get_or bytes i 0)
    → (i : ℕ)
    → hex_byte_at (c ∷ d ∷ s) i
      ≡ get_or ((digit_value (hex_digit c) * 16 + digit_value (hex_digit d)) ∷ bytes) i 0
hex_byte_at_cons c d s bytes h zero = hex_byte_at_zero c d s
hex_byte_at_cons c d s bytes h (suc i) = hex_byte_at-suc c d i s ∙ h i

all_hex-cons :
    (c d : ℕ) (s : List ℕ)
    → all_hex (c ∷ d ∷ s) ≡ true
    → (is_hex_char c ≡ true) × (is_hex_char d ≡ true) × (all_hex s ≡ true)
unfolding all_hex
all_hex-cons c d s h =
    let (e, r) = and-true (is_hex_char c) (is_hex_char d && all_hex s) h in
    let (f, g) = and-true (is_hex_char d) (all_hex s) r in (e, f, g)

all_hex-Bytes :
    (s : List ℕ)
    → length s % 2 ≡ 0
    → all_hex s ≡ true
    → (bytes : List ℕ) × Bytes s bytes × ((i : ℕ) → hex_byte_at s i ≡ get_or bytes i 0)
unfolding hex_pairs bytes_to_hex
all_hex-Bytes [] h k =
    ([], record { read = refl; size = omega arith; are_bytes = tt; lower = refl }, hex_byte_at_nil)
all_hex-Bytes (c ∷ []) h k = absurd (omega arith)
all_hex-Bytes (c ∷ d ∷ s) h k =
    let (hc, hd, hs) = all_hex-cons c d s k in
    let (bytes, b, at) = all_hex-Bytes s (omega arith) hs in
    (_, Bytes-cons c d s bytes hc hd b, hex_byte_at_cons c d s bytes at)

remove_prefix-hex : (s : List ℕ) → all_hex s ≡ true → remove_prefix s ≡ s
unfolding remove_prefix
remove_prefix-hex [] h = refl
remove_prefix-hex (c ∷ []) h = refl
remove_prefix-hex (c ∷ d ∷ s) h =
    let (_, hd, _) = all_hex-cons c d s h in
    let (_, _, x, y, _) = hex_char d hd in ground (arith, x, y)

hex_to_bytes-hex :
    (s bytes : List ℕ) → all_hex s ≡ true → length s ≢ 0 → Bytes s bytes → hex_to_bytes s ≡ ok bytes
unfolding hex_to_bytes
hex_to_bytes-hex s bytes h n b =
    let even : length s % 2 ≡ 0 = omega (arith, b.size) in
    rw (remove_prefix-hex s h, even, b.read) (ground arith)

pub record PureHex (s bytes : List ℕ) : Type 0 where
  pub decoded : hex_to_bytes s ≡ ok bytes
  pub as_bytes : Bytes s bytes
  pub at : (i : ℕ) → hex_byte_at s i ≡ get_or bytes i 0
  pub positive : 1 ≤ length bytes

is_pure_hex-parts :
    (s : List ℕ) → is_pure_hex s ≡ true → (length s ≢ 0) × (length s % 2 ≡ 0) × (all_hex s ≡ true)
unfolding is_pure_hex
is_pure_hex-parts s h =
    let (n, r) = and-true (not (length s == 0)) (length s % 2 == 0 && all_hex s) h in
    let (e, g) = and-true (length s % 2 == 0) (all_hex s) r in (ground arith, ground arith, g)

pub is_pure_hex-PureHex : (s : List ℕ) → is_pure_hex s ≡ true → (bytes : List ℕ) × PureHex s bytes
is_pure_hex-PureHex s h =
    let (n, e, g) = is_pure_hex-parts s h in
    let (bytes, b, at) = all_hex-Bytes s e g in
    let pos : 1 ≤ length bytes = omega (arith, b.size, n) in
    (
      bytes,
      record { decoded = hex_to_bytes-hex s bytes g n b; as_bytes = b; at = at; positive = pos },
    )

first_byte-some :
    (s : List ℕ) (b : ℕ)
    → is_byte (first_byte s) b ≡ true
    → (is_pure_hex s ≡ true) × (hex_byte_at s 0 ≡ b)
unfolding first_byte is_byte
first_byte-some s b h = elim (Bool-cases (is_pure_hex s)) [
  | inl p ↦ (p, ground arith)
  | inr p ↦ absurd (ground arith)
]

one_byte : (bytes : List ℕ) → length bytes ≡ 1 → bytes ≡ get_or bytes 0 0 ∷ []
one_byte [] h = absurd (omega arith)
one_byte (b ∷ []) h = refl
one_byte (b ∷ c ∷ bytes) h = absurd (omega arith)

-- A text that isSingleOp accepts is decoded to that one byte.
pub is_single_op-decoded :
    (s : List ℕ) (b : ℕ) → is_single_op s b ≡ true → hex_to_bytes s ≡ ok (b ∷ [])
unfolding is_single_op
is_single_op-decoded s b h =
    let (n, f) = and-true (length s == 2) (is_byte (first_byte s) b) h in
    let (p, e) = first_byte-some s b f in
    let (bytes, q) = is_pure_hex-PureHex s p in
    let size : length s ≡ 2 = ground arith in
    let one : length bytes ≡ 1 = omega (arith, q.as_bytes.size, size) in
    let head : get_or bytes 0 0 ≡ b = sym (q.at 0) ∙ e in
    q.decoded ∙ ap ok (one_byte bytes one) ∙ ap (λ x. ok (x ∷ [])) head

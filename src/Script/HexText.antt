-- ===== src/Script/HexText.antt =====
-- Bytes and their hexadecimal text in script_codec.h: each is read back from the other.
use atomic_proof_interpreter.Prelude.{
  ℕ, ◌+◌, ◌*◌, ◌/◌, ◌%◌, ◌<◌, ◌≡◌, refl, ap, some, List, [], ◌∷◌, ◌++◌, length, get_or, All, ltb,
  if◌then◌else◌, ok, arith, agree_below→eq, ◌≢◌,
}
use mathlib.Core.List.{append_assoc}
use atomic_proof_interpreter.Script.Hex.{
  IsByte, digits, byte_to_hex, bytes_to_hex, hex_digit, hex_pair, hex_pairs, remove_prefix,
  hex_to_bytes,
}

digit_code : (n : ℕ) → n < 16 → get_or digits n 0 ≡ (if ltb n 10 then 48 + n else 87 + n)
digit_code =
    agree_below→eq (λ n. get_or digits n 0) (λ n. if ltb n 10 then 48 + n else 87 + n) 16 refl

hex_digit-digit : (n : ℕ) → n < 16 → hex_digit (get_or digits n 0) ≡ some n
unfolding hex_digit
hex_digit-digit n h = rw (digit_code n h) (ground arith)

hex_pair-byte :
    (b : ℕ)
    → IsByte b
    → hex_pair (hex_digit (get_or digits (b / 16) 0)) (hex_digit (get_or digits (b % 16) 0))
      ≡ some b
unfolding hex_pair
hex_pair-byte b h =
    rw (hex_digit-digit (b / 16) (omega arith), hex_digit-digit (b % 16) (omega arith))
      (ap some (omega arith))

pub hex_pairs-bytes_to_hex : (bs : List ℕ) → All IsByte bs → hex_pairs (bytes_to_hex bs) ≡ ok bs
unfolding hex_pairs bytes_to_hex byte_to_hex
hex_pairs-bytes_to_hex [] h = refl
hex_pairs-bytes_to_hex (b ∷ bs) (hb, hs) = rw (hex_pair-byte b hb, hex_pairs-bytes_to_hex bs hs)

pub length-bytes_to_hex : (bs : List ℕ) → length (bytes_to_hex bs) ≡ 2 * length bs
unfolding bytes_to_hex byte_to_hex
length-bytes_to_hex [] = omega arith
length-bytes_to_hex (b ∷ bs) = omega (arith, length-bytes_to_hex bs)

pub bytes_to_hex-append :
    (xs ys : List ℕ) → bytes_to_hex (xs ++ ys) ≡ bytes_to_hex xs ++ bytes_to_hex ys
unfolding bytes_to_hex
bytes_to_hex-append [] ys = refl
bytes_to_hex-append (x ∷ xs) ys = rw (bytes_to_hex-append xs ys, append_assoc)

low_digit :
    (b : ℕ) → IsByte b → (get_or digits (b % 16) 0 ≢ b'x') × (get_or digits (b % 16) 0 ≢ b'X')
low_digit b h = ground (arith, digit_code (b % 16))

pub remove_prefix-bytes_to_hex :
    (bs : List ℕ) → All IsByte bs → remove_prefix (bytes_to_hex bs) ≡ bytes_to_hex bs
unfolding remove_prefix bytes_to_hex byte_to_hex
remove_prefix-bytes_to_hex [] h = refl
remove_prefix-bytes_to_hex (b ∷ bs) (hb, hs) = ground (arith, low_digit b)

-- The text of a non-empty byte string is read back as that byte string.
pub hex_to_bytes-bytes_to_hex :
    (b : ℕ) (bs : List ℕ) → All IsByte (b ∷ bs) → hex_to_bytes (bytes_to_hex (b ∷ bs)) ≡ ok (b ∷ bs)
unfolding hex_to_bytes
hex_to_bytes-bytes_to_hex b bs h = ground (
  arith,
  remove_prefix-bytes_to_hex (b ∷ bs) h,
  hex_pairs-bytes_to_hex (b ∷ bs) h,
  length-bytes_to_hex (b ∷ bs),
)

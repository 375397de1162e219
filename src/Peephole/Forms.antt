-- ===== src/Peephole/Forms.antt =====
-- The forms of a push that wellFormedPushSize of src/bytecode_peephole_pass.h accepts, and the
-- payload that decodedPushPayload reads from each.
use atomic_proof_interpreter.Prelude.{
  ℕ, zero, suc, ◌+◌, ◌-◌, ◌*◌, ◌^◌, ◌≡◌, ◌≤◌, refl, arith, ap, ◌∙◌, Bool, true, false, ◌&&◌, none,
  some, List, [], ◌∷◌, length, take, drop, map, ltb, leb, ◌==◌, if◌then◌else◌, Bool-cases, inl, inr,
}
use atomic_proof_interpreter.Script.Hex.{bytes_to_hex, byte_to_hex}
use atomic_proof_interpreter.Peephole.Text.{hex_byte_at}
use atomic_proof_interpreter.Peephole.Push.{
  when, is_small, pushdata_header, fits_header, well_formed_size, is_well_formed, to_lower,
}

pub take_all {ℓ} : {A : Type ℓ} (n : ℕ) (xs : List A) → length xs ≡ n → take n xs ≡ xs
take_all zero [] h = refl
take_all (suc n) [] h = refl
take_all zero (x ∷ xs) h = absurd (omega arith)
take_all (suc n) (x ∷ xs) h = ap (λ t. x ∷ t) (take_all n xs (omega arith))

drop_nil : (n : ℕ) (xs : List ℕ) → xs ≡ [] → drop n xs ≡ []
drop_nil zero xs h = h
drop_nil (suc n) [] h = refl
drop_nil (suc n) (x ∷ xs) h = absurd (grind arith)

map-drop {ℓ} :
    {A B : Type ℓ} (f : A → B) (n : ℕ) (xs : List A) → map f (drop n xs) ≡ drop n (map f xs)
map-drop f zero xs = refl
map-drop f (suc n) [] = refl
map-drop f (suc n) (x ∷ xs) = map-drop f n xs

drop-bytes_to_hex :
    (k : ℕ) (bytes : List ℕ) → drop (2 * k) (bytes_to_hex bytes) ≡ bytes_to_hex (drop k bytes)
unfolding bytes_to_hex byte_to_hex
drop-bytes_to_hex zero bytes = refl
drop-bytes_to_hex (suc k) [] = drop_nil (2 * suc k) [] refl
drop-bytes_to_hex (suc k) (b ∷ bytes) =
    let e : 2 * suc k ≡ suc (suc (2 * k)) = omega arith in rw e (drop-bytes_to_hex k bytes)

-- Behind the first bytes, the text in lower case is the text of the bytes.
pub lower_payload :
    (k : ℕ) (t bytes : List ℕ)
    → map to_lower t ≡ bytes_to_hex bytes
    → map to_lower (drop (2 * k) t) ≡ bytes_to_hex (drop k bytes)
lower_payload k t bytes h =
    map-drop to_lower (2 * k) t ∙ ap (drop (2 * k)) h ∙ drop-bytes_to_hex k bytes

-- An OP_PUSHDATA with its length bytes, and a payload of that length.
abbrev pub Sized : ℕ → ℕ → ℕ → Type 0
Sized prefix n payload = (prefix ≤ n) × (payload ≡ n - prefix)

pub data Form (b n : ℕ) (t : List ℕ) : Type 0 where
  small : is_small b ≡ true → n ≡ 1 → Form b n t
  direct : 1 ≤ b → b ≤ 75 → n ≡ b + 1 → Form b n t
  data1 : b ≡ 0x4c → Sized 2 n (hex_byte_at t 1) → Form b n t
  data2 : b ≡ 0x4d → Sized 3 n (hex_byte_at t 1 + hex_byte_at t 2 * 2 ^ 8) → Form b n t
  data4 :
      b ≡ 0x4e
      → Sized 5 n (
          hex_byte_at t 1
          + hex_byte_at t 2 * 2 ^ 8
          + hex_byte_at t 3 * 2 ^ 16
          + hex_byte_at t 4 * 2 ^ 24)
      → Form b n t

fits :
    (n prefix payload : ℕ)
    → is_well_formed (fits_header n (some (prefix, payload))) ≡ true
    → payload ≡ n - prefix
unfolding fits_header is_well_formed when
fits n prefix payload h = ground arith

Sized-form :
    (n prefix payload : ℕ)
    → is_well_formed (fits_header n (if ltb n prefix then none else some (prefix, payload))) ≡ true
    → Sized prefix n payload
unfolding fits_header is_well_formed
Sized-form n prefix payload h = elim (Bool-cases (ltb n prefix)) [
  | inl e ↦ absurd (ground arith)
  | inr e ↦ (ground arith, fits n prefix payload (rw e at h))
]

header_form :
    (b n : ℕ) (t : List ℕ)
    → is_well_formed (fits_header n (pushdata_header b n t)) ≡ true
    → Form b n t
unfolding pushdata_header
header_form b n t h = elim (Bool-cases (b == 0x4c)) [
  | inl e ↦ data1 (ground arith) (Sized-form n 2 _ (rw e at h))
  | inr e ↦ elim (Bool-cases (b == 0x4d)) [
    | inl f ↦ data2 (ground arith) (Sized-form n 3 _ (rw (e, f) at h))
    | inr f ↦ elim (Bool-cases (b == 0x4e)) [
      | inl g ↦ data4 (ground arith) (Sized-form n 5 _ (rw (e, f, g) at h))
      | inr g ↦
          absurd (let x = rw (e, f, g) at h in unfold fits_header is_well_formed in ground arith)
    ]
  ]
]

when-some : (c : Bool) (n : ℕ) → is_well_formed (when c n) ≡ true → c ≡ true
unfolding is_well_formed when
when-some true n h = refl
when-some false n h = h

pub well_formed_size-Form :
    (b n : ℕ) (t : List ℕ) → is_well_formed (well_formed_size b n t) ≡ true → Form b n t
unfolding well_formed_size
well_formed_size-Form b n t h = elim (Bool-cases (is_small b)) [
  | inl e ↦ small e (let x = when-some (n == 1) 1 (rw e at h) in ground arith)
  | inr e ↦ elim (Bool-cases (leb 0x01 b && leb b 0x4b)) [
    | inl f ↦
        let x = when-some (n == b + 1) n (rw (e, f) at h) in
        direct (ground arith) (ground arith) (ground arith)
    | inr f ↦ header_form b n t (rw (e, f) at h)
  ]
]

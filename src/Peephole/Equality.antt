-- ===== src/Peephole/Equality.antt =====
-- Texts and byte strings that are equal, for tryRewriteTriple of src/bytecode_peephole_pass.h: its
-- comparison of payloads is that of the machine.
use atomic_proof_interpreter.Prelude.{
  ℕ, ◌≡◌, refl, arith, ap, sym, ◌∙◌, true, List, [], ◌∷◌, All, ok_injective, Bool-cases, inl, inr,
}
use atomic_proof_interpreter.Script.Hex.{IsByte, bytes_to_hex, hex_pairs, ScriptCodecError}
use atomic_proof_interpreter.Script.HexText.{hex_pairs-bytes_to_hex}
use atomic_proof_interpreter.Script.Codec.{eq_text}
use atomic_proof_interpreter.Vm.Number.{Element}
use atomic_proof_interpreter.Vm.Numeric.{eq_bytes}
use atomic_proof_interpreter.Peephole.Push.{
  well_formed_push_size, is_well_formed, decoded_push_payload,
}
use atomic_proof_interpreter.Peephole.Rules.{is_some}

pub eq_text→eq : (s t : List ℕ) → eq_text s t ≡ true → s ≡ t
unfolding eq_text
eq_text→eq [] [] h = refl
eq_text→eq [] (d ∷ t) h = absurd (ground arith)
eq_text→eq (c ∷ s) [] h = absurd (ground arith)
eq_text→eq (c ∷ s) (d ∷ t) h = grind (arith, eq_text→eq s t)

eq_text-same : (s : List ℕ) → eq_text s s ≡ true
unfolding eq_text
eq_text-same [] = refl
eq_text-same (c ∷ s) = ground (arith, eq_text-same s)

eq_bytes-eq_text : (x y : Element) → eq_bytes x y ≡ eq_text x y
unfolding eq_bytes eq_text
eq_bytes-eq_text [] [] = refl
eq_bytes-eq_text [] (d ∷ t) = refl
eq_bytes-eq_text (c ∷ s) [] = refl
eq_bytes-eq_text (c ∷ s) (d ∷ t) = rw (eq_bytes-eq_text s t) refl

bytes_to_hex-injective :
    (x y : Element) → All IsByte x → All IsByte y → bytes_to_hex x ≡ bytes_to_hex y → x ≡ y
bytes_to_hex-injective x y hx hy e =
    ok_injective {E = ScriptCodecError} x y
      (sym (hex_pairs-bytes_to_hex x hx) ∙ ap hex_pairs e ∙ hex_pairs-bytes_to_hex y hy)

-- Payloads are equal as texts just if the machine finds them equal.
pub same_text :
    (x y : Element)
    → All IsByte x
    → All IsByte y
    → eq_text (bytes_to_hex x) (bytes_to_hex y) ≡ eq_bytes x y
same_text x y hx hy = elim (Bool-cases (eq_text (bytes_to_hex x) (bytes_to_hex y))) [
  | inl e ↦
      let same : x ≡ y = bytes_to_hex-injective x y hx hy (eq_text→eq _ _ e) in
      let q : eq_bytes x y ≡ true = rw (eq_bytes-eq_text x y, same) (eq_text-same y) in e ∙ sym q
  | inr e ↦ elim (Bool-cases (eq_bytes x y)) [
    | inl f ↦
        let same : x ≡ y = eq_text→eq x y (sym (eq_bytes-eq_text x y) ∙ f) in
        absurd (
          let z : eq_text (bytes_to_hex x) (bytes_to_hex y) ≡ true =
            rw same (eq_text-same (bytes_to_hex y)) in
          ground arith)
    | inr f ↦ e ∙ sym f
  ]
]

pub decoded-well_formed :
    (t : List ℕ)
    → is_some (decoded_push_payload t) ≡ true
    → is_well_formed (well_formed_push_size t) ≡ true
unfolding decoded_push_payload is_some
decoded-well_formed t h = ground arith

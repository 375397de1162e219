-- ===== src/Planner/Chains.antt =====
-- Chains of the copy search of src/bytecode/stack_permutation_planner.cpp: sizes, depths, and the
-- plan that a chain spells.
use atomic_proof_interpreter.Prelude.{
  ℕ, zero, suc, ◌+◌, ◌≡◌, refl, arith, ap, subst, Bool, true, false, Option, none, some, List, [],
  ◌∷◌, length, get_elem?, Option-cases, inl, inr, ◌⊎◌, if◌then◌else◌,
}
use mathlib.Core.List.{Memᴰ}
use mathlib.Core.Option.{some-injective}
use atomic_proof_interpreter.Planner.Step.{StackPlanStep}
use atomic_proof_interpreter.Planner.Moves.{
  CopyState, copy_step, moved, copied_to, deleted_to, copy_front, tuck_front, drop_front, nip_front,
  to_alt, from_alt, roll_front, swap_front, two_swap_front, two_rot_front, without,
}
use atomic_proof_interpreter.Planner.Copy.{neighbours_by}

Memᴰ-cons {ℓ} : {A : Type ℓ} (a x : A) (xs : List A) → Memᴰ a (x ∷ xs) → a ≡ x ⊎ Memᴰ a xs
Memᴰ-cons a x xs (Memᴰ.head e) = inl e
Memᴰ-cons a x xs (Memᴰ.tail m) = inr m

-- A neighbour is what one of the operations tried makes of the state.
pub neighbours_by-lem :
    (state next : CopyState ℕ) (s : StackPlanStep) (steps : List StackPlanStep)
    → Memᴰ (next, s) (neighbours_by state steps)
    → (copy_step state s.op s.depth ≡ some next) × Memᴰ s steps
unfolding neighbours_by
neighbours_by-lem state next s [] h = elim h [ ]
neighbours_by-lem state next s (t ∷ steps) h = elim (Option-cases (copy_step state t.op t.depth)) [
  | inl e ↦
      let (p, m) = neighbours_by-lem state next s steps (rw (e, neighbours_by) at h) in
      (p, Memᴰ.tail m)
  | inr (w, e) ↦
      elim (Memᴰ-cons (next, s) (w, t) (neighbours_by state steps) (rw (e, neighbours_by) at h)) [
        | inl p ↦
            let q : next ≡ w = ap (λ (z : CopyState ℕ × StackPlanStep). z.0) p in
            let r : s ≡ t = ap (λ (z : CopyState ℕ × StackPlanStep). z.1) p in
            (rw (r, q) e, Memᴰ.head r)
        | inr m ↦ let (p, k) = neighbours_by-lem state next s steps m in (p, Memᴰ.tail k)
      ]
]

-- Each entry a state has, once the copy and the deletion are counted.
abbrev pub entries : CopyState ℕ → ℕ
entries state = length state.main + length state.alt + (if state.deleted then 1 else 0)

abbrev pub IsSized : ℕ → CopyState ℕ → Type 0
IsSized window state = entries state ≡ window + (if state.copied then 1 else 0)

pub length-without :
    (depth : ℕ) (stack : List ℕ) (e : ℕ)
    → get_elem? stack depth ≡ some e
    → suc (length (without depth stack)) ≡ length stack
unfolding without
length-without depth [] e h = absurd (ground arith)
length-without zero (x ∷ stack) e h = refl
length-without (suc depth) (x ∷ stack) e h = ap suc (length-without depth stack e h)

pub length-roll_front :
    (depth : ℕ) (xs ys : List ℕ) → roll_front depth xs ≡ some ys → length ys ≡ length xs
unfolding roll_front
length-roll_front depth xs ys h = elim (Option-cases (get_elem? xs depth)) [
  | inl e ↦ absurd (ground (arith, e))
  | inr (a, e) ↦ ground (arith, length-without depth xs a e, e)
]

pub length-two_swap : (xs ys : List ℕ) → two_swap_front xs ≡ some ys → length ys ≡ length xs
unfolding two_swap_front
length-two_swap (a ∷ b ∷ c ∷ d ∷ s) ys h = ground arith
length-two_swap xs ys h = absurd (ground arith)

pub length-two_rot : (xs ys : List ℕ) → two_rot_front xs ≡ some ys → length ys ≡ length xs
unfolding two_rot_front
length-two_rot (a ∷ b ∷ c ∷ d ∷ e ∷ f ∷ s) ys h = ground arith
length-two_rot xs ys h = absurd (ground arith)

pub length-swap : (xs ys : List ℕ) → swap_front xs ≡ some ys → length ys ≡ length xs
unfolding swap_front
length-swap (a ∷ b ∷ s) ys h = ground arith
length-swap xs ys h = absurd (ground arith)

pub length-tuck : (xs ys : List ℕ) → tuck_front xs ≡ some ys → length ys ≡ suc (length xs)
unfolding tuck_front
length-tuck (a ∷ b ∷ s) ys h = ground arith
length-tuck xs ys h = absurd (ground arith)

pub length-drop_front : (xs ys : List ℕ) → drop_front xs ≡ some ys → suc (length ys) ≡ length xs
unfolding drop_front
length-drop_front [] ys h = absurd (ground arith)
length-drop_front (a ∷ s) ys h = ground arith

pub length-nip : (xs ys : List ℕ) → nip_front xs ≡ some ys → suc (length ys) ≡ length xs
unfolding nip_front
length-nip (a ∷ b ∷ s) ys h = ground arith
length-nip xs ys h = absurd (ground arith)

pub length-copy_front :
    (depth : ℕ) (xs ys : List ℕ) → copy_front depth xs ≡ some ys → length ys ≡ suc (length xs)
unfolding copy_front
length-copy_front depth xs ys h = elim (Option-cases (get_elem? xs depth)) [
  | inl e ↦ absurd (ground (arith, e))
  | inr (a, e) ↦ ground (arith, e)
]

module _ (window : ℕ) (st st' : CopyState ℕ) (h : IsSized window st) where
  pub moved-IsSized :
      (m : Option (List ℕ))
      → ((ys : List ℕ) → m ≡ some ys → length ys ≡ length st.main)
      → moved st m ≡ some st'
      → IsSized window st'
  unfolding moved
  moved-IsSized none l e = absurd (ground arith)
  moved-IsSized (some ys) l e =
      subst (IsSized window) (some-injective _ _ e) (omega (arith, l ys refl))

  pub copied-IsSized :
      (m : Option (List ℕ)) (b : Bool)
      → b ≡ st.copied
      → ((ys : List ℕ) → m ≡ some ys → length ys ≡ suc (length st.main))
      → copied_to st b m ≡ some st'
      → IsSized window st'
  unfolding copied_to
  copied-IsSized m true c l e = absurd (ground arith)
  copied-IsSized none false c l e = absurd (ground arith)
  copied-IsSized (some ys) false c l e =
      subst (IsSized window) (some-injective _ _ e) (ground (arith, l ys refl))

  pub deleted-IsSized :
      (m : Option (List ℕ)) (b : Bool)
      → b ≡ st.deleted
      → ((ys : List ℕ) → m ≡ some ys → suc (length ys) ≡ length st.main)
      → deleted_to st b m ≡ some st'
      → IsSized window st'
  unfolding deleted_to
  deleted-IsSized m true c l e = absurd (ground arith)
  deleted-IsSized none false c l e = absurd (ground arith)
  deleted-IsSized (some ys) false c l e =
      subst (IsSized window) (some-injective _ _ e) (ground (arith, l ys refl))

  pub to_alt-IsSized : (xs : List ℕ) → xs ≡ st.main → to_alt st xs ≡ some st' → IsSized window st'
  unfolding to_alt
  to_alt-IsSized [] c e = absurd (ground arith)
  to_alt-IsSized (a ∷ s) c e = subst (IsSized window) (some-injective _ _ e) (ground arith)

  pub from_alt-IsSized :
      (xs : List ℕ) → xs ≡ st.alt → from_alt st xs ≡ some st' → IsSized window st'
  unfolding from_alt
  from_alt-IsSized [] c e = absurd (ground arith)
  from_alt-IsSized (a ∷ s) c e = subst (IsSized window) (some-injective _ _ e) (ground arith)

-- ===== src/Planner/Naturality.antt =====
-- The steps of src/bytecode/stack_permutation_planner.cpp move entries without looking at them: what
-- they do to slot tokens they do to the elements that the tokens stand for.
use atomic_proof_interpreter.Prelude.{
  ℕ, zero, suc, ◌≡◌, refl, arith, ap, Option, some, List, [], ◌∷◌, get_elem?, map, Option-cases,
  inl, inr,
}
use atomic_proof_interpreter.Planner.Step.{StackPlanOp, StackPlanStep}
use atomic_proof_interpreter.Planner.Moves.{
  CopyState, copy_step, moved, copied_to, deleted_to, copy_front, tuck_front, drop_front, nip_front,
  to_alt, from_alt, apply_move, roll_front, swap_front, two_swap_front, two_rot_front, without,
  run_plan,
}

module _ {ℓ κ} {A : Type ℓ} {B : Type κ} (f : A → B) where
  abbrev pub map_state : CopyState A → CopyState B
  map_state st = record {
    main = map f st.main;
    alt = map f st.alt;
    copied = st.copied;
    deleted = st.deleted;
  }

  -- A partial function on stacks that commutes with renaming.
  abbrev IsNatural : (List A → Option (List A)) → (List B → Option (List B)) → Type (ℓ ⊔ κ)
  IsNatural g h = (xs ys : List A) → g xs ≡ some ys → h (map f xs) ≡ some (map f ys)

  get_elem?-map :
      (xs : List A) (d : ℕ) (e : A) → get_elem? xs d ≡ some e → get_elem? (map f xs) d ≡ some (f e)
  get_elem?-map [] d e h = absurd (ground arith)
  get_elem?-map (x ∷ xs) zero e h = ground arith
  get_elem?-map (x ∷ xs) (suc d) e h = get_elem?-map xs d e h

  without-map : (d : ℕ) (xs : List A) → without d (map f xs) ≡ map f (without d xs)
  unfolding without
  without-map d [] = refl
  without-map zero (x ∷ xs) = refl
  without-map (suc d) (x ∷ xs) = ap (λ (l : List B). f x ∷ l) (without-map d xs)

  roll_front-IsNatural : (d : ℕ) → IsNatural (roll_front d) (roll_front d)
  unfolding roll_front
  roll_front-IsNatural d xs ys h = elim (Option-cases (get_elem? xs d)) [
    | inl e ↦ absurd (ground (arith, e))
    | inr (a, e) ↦ ground (arith, e, get_elem?-map xs d a e, without-map d xs)
  ]

  copy_front-IsNatural : (d : ℕ) → IsNatural (copy_front d) (copy_front d)
  unfolding copy_front
  copy_front-IsNatural d xs ys h = elim (Option-cases (get_elem? xs d)) [
    | inl e ↦ absurd (ground (arith, e))
    | inr (a, e) ↦ ground (arith, e, get_elem?-map xs d a e)
  ]

  swap-IsNatural : IsNatural swap_front swap_front
  unfolding swap_front
  swap-IsNatural (a ∷ b ∷ s) ys h = ground arith
  swap-IsNatural xs ys h = absurd (ground arith)

  two_swap-IsNatural : IsNatural two_swap_front two_swap_front
  unfolding two_swap_front
  two_swap-IsNatural (a ∷ b ∷ c ∷ d ∷ s) ys h = ground arith
  two_swap-IsNatural xs ys h = absurd (ground arith)

  two_rot-IsNatural : IsNatural two_rot_front two_rot_front
  unfolding two_rot_front
  two_rot-IsNatural (a ∷ b ∷ c ∷ d ∷ e ∷ g ∷ s) ys h = ground arith
  two_rot-IsNatural xs ys h = absurd (ground arith)

  tuck-IsNatural : IsNatural tuck_front tuck_front
  unfolding tuck_front
  tuck-IsNatural (a ∷ b ∷ s) ys h = ground arith
  tuck-IsNatural xs ys h = absurd (ground arith)

  drop-IsNatural : IsNatural drop_front drop_front
  unfolding drop_front
  drop-IsNatural [] ys h = absurd (ground arith)
  drop-IsNatural (a ∷ s) ys h = ground arith

  nip-IsNatural : IsNatural nip_front nip_front
  unfolding nip_front
  nip-IsNatural (a ∷ b ∷ s) ys h = ground arith
  nip-IsNatural xs ys h = absurd (ground arith)

  module _ (st st' : CopyState A) where
    abbrev Maps :
        (CopyState A → Option (CopyState A)) → (CopyState B → Option (CopyState B)) → Type (ℓ ⊔ κ)
    Maps g h = g st ≡ some st' → h (map_state st) ≡ some (map_state st')

    moved-map :
        (g : List A → Option (List A)) (h : List B → Option (List B))
        → IsNatural g h
        → Maps (λ s. moved s (g s.main)) (λ s. moved s (h s.main))
    unfolding moved
    moved-map g h n e = elim (Option-cases (g st.main)) [
      | inl p ↦ absurd (ground (arith, p))
      | inr (ys, p) ↦ ground (arith, p, n st.main ys p)
    ]

    copied_to-map :
        (g : List A → Option (List A)) (h : List B → Option (List B))
        → IsNatural g h
        → Maps (λ s. copied_to s s.copied (g s.main)) (λ s. copied_to s s.copied (h s.main))
    unfolding copied_to
    copied_to-map g h n e = elim (Option-cases (g st.main)) [
      | inl p ↦ absurd (ground (arith, p))
      | inr (ys, p) ↦ ground (arith, p, n st.main ys p)
    ]

    deleted_to-map :
        (g : List A → Option (List A)) (h : List B → Option (List B))
        → IsNatural g h
        → Maps (λ s. deleted_to s s.deleted (g s.main)) (λ s. deleted_to s s.deleted (h s.main))
    unfolding deleted_to
    deleted_to-map g h n e = elim (Option-cases (g st.main)) [
      | inl p ↦ absurd (ground (arith, p))
      | inr (ys, p) ↦ ground (arith, p, n st.main ys p)
    ]

    to_alt-map :
        (xs : List A)
        → to_alt st xs ≡ some st'
        → to_alt (map_state st) (map f xs) ≡ some (map_state st')
    unfolding to_alt
    to_alt-map [] e = absurd (ground arith)
    to_alt-map (a ∷ s) e = ground arith

    from_alt-map :
        (xs : List A)
        → from_alt st xs ≡ some st'
        → from_alt (map_state st) (map f xs) ≡ some (map_state st')
    unfolding from_alt
    from_alt-map [] e = absurd (ground arith)
    from_alt-map (a ∷ s) e = ground arith

    pub copy_step-map :
        (op : StackPlanOp) (d : ℕ) → Maps (λ s. copy_step s op d) (λ s. copy_step s op d)
    unfolding copy_step apply_move
    copy_step-map StackPlanOp.swap d = moved-map swap_front swap_front swap-IsNatural
    copy_step-map StackPlanOp.rot d =
        moved-map (roll_front 2) (roll_front 2) (roll_front-IsNatural 2)
    copy_step-map StackPlanOp.two_swap d =
        moved-map two_swap_front two_swap_front two_swap-IsNatural
    copy_step-map StackPlanOp.two_rot d = moved-map two_rot_front two_rot_front two_rot-IsNatural
    copy_step-map StackPlanOp.roll d =
        moved-map (roll_front d) (roll_front d) (roll_front-IsNatural d)
    copy_step-map StackPlanOp.dup d =
        copied_to-map (copy_front 0) (copy_front 0) (copy_front-IsNatural 0)
    copy_step-map StackPlanOp.over d =
        copied_to-map (copy_front 1) (copy_front 1) (copy_front-IsNatural 1)
    copy_step-map StackPlanOp.pick d =
        copied_to-map (copy_front d) (copy_front d) (copy_front-IsNatural d)
    copy_step-map StackPlanOp.tuck d = copied_to-map tuck_front tuck_front tuck-IsNatural
    copy_step-map StackPlanOp.drop d = deleted_to-map drop_front drop_front drop-IsNatural
    copy_step-map StackPlanOp.nip d = deleted_to-map nip_front nip_front nip-IsNatural
    copy_step-map StackPlanOp.to_alt_stack d = to_alt-map st.main
    copy_step-map StackPlanOp.from_alt_stack d = from_alt-map st.alt

  -- A plan that applies to tokens applies to what they stand for.
  pub run_plan-map :
      (steps : List StackPlanStep) (st st' : CopyState A)
      → run_plan steps st ≡ some st'
      → run_plan steps (map_state st) ≡ some (map_state st')
  unfolding run_plan
  run_plan-map [] st st' e = ground arith
  run_plan-map (s ∷ steps) st st' e = elim (Option-cases (copy_step st s.op s.depth)) [
    | inl p ↦ absurd (ground (arith, p))
    | inr (w, p) ↦
        rw (copy_step-map st w s.op s.depth p, run_plan)
          (run_plan-map steps w st' (rw (p, run_plan) at e))
  ]

-- ===== src/Debug/Origins.antt =====
-- resolveOrigin of src/debugger/info/debug_info.cpp picks the most specific origin of the branch that ran.
use atomic_proof_interpreter.Prelude.{
  ℕ, ◌+◌, ◌≤◌, ◌≡◌, sym, subst, refl, ◌⊎◌, inl, inr, true, false, Option, none, some, List, [], ◌∷◌,
  if◌then◌else◌, Bool-cases, length, arith,
}
use atomic_proof_interpreter.Vm.Machine.{BranchTrace}
use atomic_proof_interpreter.Debug.Maps.{is_empty}
use atomic_proof_interpreter.Debug.Info.{BranchPredicate, SourceOrigin, DebugInfo}
use atomic_proof_interpreter.Debug.Lookup.{
  all_hold, is_path_compatible, count_matches, better, take_origin, best_origin, chosen,
  own_origins, resolve_origin,
}

-- One of the origins of a list.
abbrev pub Among : SourceOrigin → List SourceOrigin → Type 0
Among o [] = ⊥
Among o (x ∷ xs) = (o ≡ x) ⊎ Among o xs

abbrev Best : Type 0
Best = Option (SourceOrigin × ℕ × ℕ)

count_matches_lem :
    (path : List BranchPredicate) (trace : BranchTrace) (n : ℕ)
    → count_matches path trace n ≡ (if all_hold path trace then some (n + length path) else none)
unfolding count_matches all_hold
count_matches_lem [] trace n = ground arith
count_matches_lem (p ∷ path) trace n = ground (arith, count_matches_lem path trace (n + 1))

module _ (trace : BranchTrace) where
  -- The numbers kept beside the best origin are the length of its path.
  abbrev Measured : Best → Type 0
  Measured none = Unit {0}
  Measured (some (b, m, s)) =
      (m ≡ length b.path) × (s ≡ length b.path) × (is_path_compatible b trace ≡ true)

  abbrev Dominates : Best → SourceOrigin → Type 0
  Dominates none o = ⊥
  Dominates (some (b, m, s)) o = length o.path ≤ length b.path

  -- Taking an origin that conflicts with the trace changes nothing.
  take_origin-conflict :
      (o : SourceOrigin) (best : Best)
      → is_path_compatible o trace ≡ false
      → take_origin trace o best ≡ best
  unfolding take_origin is_path_compatible
  take_origin-conflict o best h = ground (arith, count_matches_lem o.path trace 0)

  -- Of the best origin so far and a compatible one.
  choice : SourceOrigin → Best → Best
  unfolding better
  choice o best =
      if better best o (length o.path) then some (o, length o.path, length o.path) else best

  take_origin-compatible :
      (o : SourceOrigin) (best : Best)
      → is_path_compatible o trace ≡ true
      → take_origin trace o best ≡ choice o best
  unfolding take_origin choice is_path_compatible
  take_origin-compatible o best h = ground (arith, count_matches_lem o.path trace 0)

  choice-Measured :
      (o : SourceOrigin) (best : Best)
      → is_path_compatible o trace ≡ true
      → Measured best
      → Measured (choice o best)
  unfolding choice
  choice-Measured o none fits w = (refl, refl, fits)
  choice-Measured o (some (b, m, s)) fits w = ground arith

  choice-Dominates : (o : SourceOrigin) (best : Best) → Measured best → Dominates (choice o best) o
  unfolding choice
  choice-Dominates o none w = ground arith
  choice-Dominates o (some (b, m, s)) w = ground arith

  choice_grows :
      (o x : SourceOrigin) (best : Best)
      → Measured best
      → Dominates best x
      → Dominates (choice o best) x
  unfolding choice
  choice_grows o x none w d = absurd d
  choice_grows o x (some (b, m, s)) w d = ground arith

  take_origin-Measured :
      (o : SourceOrigin) (best : Best) → Measured best → Measured (take_origin trace o best)
  take_origin-Measured o best w = elim (Bool-cases (is_path_compatible o trace)) [
    | inl fits ↦
        subst Measured (sym (take_origin-compatible o best fits)) (choice-Measured o best fits w)
    | inr conflict ↦ subst Measured (sym (take_origin-conflict o best conflict)) w
  ]

  take_origin-Dominates :
      (o : SourceOrigin) (best : Best)
      → is_path_compatible o trace ≡ true
      → Measured best
      → Dominates (take_origin trace o best) o
  take_origin-Dominates o best fits w =
      rw (take_origin-compatible o best fits) (choice-Dominates o best w)

  take_origin_grows :
      (o x : SourceOrigin) (best : Best)
      → Measured best
      → Dominates best x
      → Dominates (take_origin trace o best) x
  take_origin_grows o x best w d = elim (Bool-cases (is_path_compatible o trace)) [
    | inl fits ↦ rw (take_origin-compatible o best fits) (choice_grows o x best w d)
    | inr conflict ↦ rw (take_origin-conflict o best conflict) d
  ]

  best_origin-Measured :
      (os : List SourceOrigin) (best : Best) → Measured best → Measured (best_origin trace os best)
  unfolding best_origin
  best_origin-Measured [] best w = w
  best_origin-Measured (o ∷ os) best w =
      best_origin-Measured os (take_origin trace o best) (take_origin-Measured o best w)

  best_origin_grows :
      (os : List SourceOrigin) (x : SourceOrigin) (best : Best)
      → Measured best
      → Dominates best x
      → Dominates (best_origin trace os best) x
  unfolding best_origin
  best_origin_grows [] x best w d = d
  best_origin_grows (o ∷ os) x best w d =
      best_origin_grows os x (take_origin trace o best) (take_origin-Measured o best w)
        (take_origin_grows o x best w d)

  best_origin-Dominates :
      (os : List SourceOrigin) (x : SourceOrigin) (best : Best)
      → Measured best
      → Among x os
      → is_path_compatible x trace ≡ true
      → Dominates (best_origin trace os best) x
  unfolding best_origin
  best_origin-Dominates [] x best w a fits = absurd a
  best_origin-Dominates (o ∷ os) x best w (inl same) fits =
      best_origin_grows os x (take_origin trace o best) (take_origin-Measured o best w)
        (rw same (take_origin-Dominates o best (let z = rw same at fits in z) w))
  best_origin-Dominates (o ∷ os) x best w (inr later) fits =
      best_origin-Dominates os x (take_origin trace o best) (take_origin-Measured o best w) later
        fits

  choice-chosen :
      (o : SourceOrigin) (best : Best) (x : SourceOrigin)
      → chosen (choice o best) ≡ some x
      → (chosen best ≡ some x) ⊎ (x ≡ o)
  unfolding chosen choice
  choice-chosen o best x e = elim (Bool-cases (better best o (length o.path))) [
    | inl better_one ↦ inr (ground arith)
    | inr worse ↦ inl (ground arith)
  ]

  take_origin-chosen :
      (o : SourceOrigin) (best : Best) (x : SourceOrigin)
      → chosen (take_origin trace o best) ≡ some x
      → (chosen best ≡ some x) ⊎ (x ≡ o)
  unfolding chosen
  take_origin-chosen o best x e = elim (Bool-cases (is_path_compatible o trace)) [
    | inl fits ↦ choice-chosen o best x (let z = rw (take_origin-compatible o best fits) at e in z)
    | inr conflict ↦ inl (let z = rw (take_origin-conflict o best conflict) at e in z)
  ]

  best_origin-Among :
      (os : List SourceOrigin) (best : Best) (x : SourceOrigin)
      → chosen (best_origin trace os best) ≡ some x
      → (chosen best ≡ some x) ⊎ Among x os
  unfolding best_origin
  best_origin-Among [] best x e = inl e
  best_origin-Among (o ∷ os) best x e = elim (best_origin-Among os (take_origin trace o best) x e) [
    | inr later ↦ inr (inr later)
    | inl head ↦ elim (take_origin-chosen o best x head) [
      | inl before ↦ inl before
      | inr same ↦ inr (inl same)
    ]
  ]

-- The origin for a branch trace: one of those given that the trace agrees with, and no other that it
-- agrees with has a longer path; or none, where the trace agrees with none.
abbrev pub IsMostSpecific : BranchTrace → List SourceOrigin → Option SourceOrigin → Type 0
IsMostSpecific trace os none = (x : SourceOrigin) → Among x os → is_path_compatible x trace ≡ false
IsMostSpecific trace os (some b) =
    Among b os
    × (is_path_compatible b trace ≡ true)
    × ((x : SourceOrigin)
        → Among x os
        → is_path_compatible x trace ≡ true
        → length x.path ≤ length b.path)

module _ (trace : BranchTrace) (os : List SourceOrigin) where
  chosen-IsMostSpecific :
      (r : Best)
      → Measured trace r
      → ((x : SourceOrigin) → Among x os → is_path_compatible x trace ≡ true → Dominates trace r x)
      → ((x : SourceOrigin) → chosen r ≡ some x → (chosen none ≡ some x) ⊎ Among x os)
      → IsMostSpecific trace os (chosen r)
  unfolding chosen
  chosen-IsMostSpecific none w dominates member = λ x among.
      elim (Bool-cases (is_path_compatible x trace)) [
        | inl fits ↦ absurd (dominates x among fits)
        | inr conflict ↦ conflict
      ]
  chosen-IsMostSpecific (some (b, m, s)) w dominates member =
      (elim (member b refl) [ inl e ↦ absurd (ground arith) | inr among ↦ among ], w.2, dominates)

-- With a trace that is not empty, resolveOrigin gives one of the instruction's origins that agrees
-- with the trace and has the longest path of those that do, and gives none only where the trace agrees
-- with none of them.
pub resolve_origin-IsMostSpecific :
    (info : DebugInfo) (pc : ℕ) (trace : BranchTrace)
    → is_empty trace ≡ false
    → IsMostSpecific trace (own_origins info pc) (resolve_origin info pc trace)
unfolding resolve_origin
resolve_origin-IsMostSpecific info pc trace h =
    let os = own_origins info pc in
    rw h (
      chosen-IsMostSpecific trace os (best_origin trace os none)
        (best_origin-Measured trace os none tt) (λ x. best_origin-Dominates trace os x none tt)
        (λ x. best_origin-Among trace os none x))

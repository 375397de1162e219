-- ===== src/Debug/Mapping.antt =====
-- The map from pcs to breakpoints of src/debugger/breakpoint/breakpoint_manager.cpp, entry by entry.
use atomic_proof_interpreter.Prelude.{
  ℕ, ◌≡◌, sym, refl, inl, inr, Bool, true, false, ◌&&◌, ◌||◌, none, List, [], ◌∷◌, ◌==◌,
  if◌then◌else◌, Bool-cases, Option-cases, arith,
}
use atomic_proof_interpreter.Debug.Maps.{
  Dict, lookup, insert, erase, contains, add_element, remove_element, is_empty, lookup-insert,
  lookup-erase, contains-add_element, contains-remove_element,
}
use atomic_proof_interpreter.Debug.Info.{pcs_at}
use atomic_proof_interpreter.Debug.Manager.{map_pcs, unmap_pc, unmap_pcs}

-- The map has an id at a pc.
abbrev pub has_id : Dict (List ℕ) → ℕ → ℕ → Bool
has_id d pc id = contains (pcs_at pc d) id

pub pcs_at-insert :
    (k p : ℕ) (v : List ℕ) (d : Dict (List ℕ))
    → pcs_at p (insert k v d) ≡ (if k == p then v else pcs_at p d)
unfolding pcs_at
pcs_at-insert k p v d = ground (arith, lookup-insert k p v d)

pcs_at-erase :
    (k p : ℕ) (d : Dict (List ℕ)) → pcs_at p (erase k d) ≡ (if k == p then [] else pcs_at p d)
unfolding pcs_at
pcs_at-erase k p d = ground (arith, lookup-erase k p d)

is_empty→nil : (ks : List ℕ) → is_empty ks ≡ true → ks ≡ []
unfolding is_empty
is_empty→nil [] h = refl
is_empty→nil (k ∷ ks) h = absurd (ground arith)

-- Where the map has no entry there is nothing to remove.
missing :
    (id pc p : ℕ) (d : Dict (List ℕ))
    → lookup pc d ≡ none
    → pcs_at p (unmap_pc id pc d)
      ≡ (if pc == p then remove_element id (pcs_at pc d) else pcs_at p d)
unfolding unmap_pc pcs_at remove_element
missing id pc p d e = elim (Bool-cases (pc == p)) [
  | inl here ↦
      let same : pc ≡ p = ground arith in
      let e' : lookup p d ≡ none = rw (sym same) e in ground arith
  | inr other ↦ ground arith
]

pcs_at-unmap_pc :
    (id pc p : ℕ) (d : Dict (List ℕ))
    → pcs_at p (unmap_pc id pc d)
      ≡ (if pc == p then remove_element id (pcs_at pc d) else pcs_at p d)
unfolding unmap_pc pcs_at
pcs_at-unmap_pc id pc p d = elim (Option-cases (lookup pc d)) [
  | inl e ↦ missing id pc p d e
  | inr (ids, e) ↦ ground (
    arith,
    lookup-insert pc p (remove_element id ids) d,
    lookup-erase pc p d,
    is_empty→nil (remove_element id ids),
  )
]

module _ (id p i : ℕ) where
  has_id-unmap_pc :
      (pc : ℕ) (d : Dict (List ℕ))
      → has_id (unmap_pc id pc d) p i ≡ (if id == i && pc == p then false else has_id d p i)
  has_id-unmap_pc pc d = elim (Bool-cases (pc == p)) [
    | inl here ↦
        let same : pc ≡ p = ground arith in
        let x : contains (pcs_at pc d) i ≡ contains (pcs_at p d) i = rw same in
        ground (arith, pcs_at-unmap_pc id pc p d, contains-remove_element id i (pcs_at pc d))
    | inr other ↦ ground (arith, pcs_at-unmap_pc id pc p d)
  ]

  pub has_id-unmap_pcs :
      (pcs : List ℕ) (d : Dict (List ℕ))
      → has_id (unmap_pcs id pcs d) p i
        ≡ (if id == i && contains pcs p then false else has_id d p i)
  unfolding unmap_pcs contains
  has_id-unmap_pcs [] d = ground arith
  has_id-unmap_pcs (pc ∷ pcs) d =
      ground (arith, has_id-unmap_pcs pcs (unmap_pc id pc d), has_id-unmap_pc pc d)

  has_id-map_pc :
      (pc : ℕ) (d : Dict (List ℕ))
      → has_id (insert pc (add_element id (pcs_at pc d)) d) p i
        ≡ ((id == i && pc == p) || has_id d p i)
  has_id-map_pc pc d = elim (Bool-cases (pc == p)) [
    | inl here ↦
        let same : pc ≡ p = ground arith in
        let x : contains (pcs_at pc d) i ≡ contains (pcs_at p d) i = rw same in
        ground (
          arith,
          pcs_at-insert pc p (add_element id (pcs_at pc d)) d,
          contains-add_element id i (pcs_at pc d),
        )
    | inr other ↦ ground (arith, pcs_at-insert pc p (add_element id (pcs_at pc d)) d)
  ]

  pub has_id-map_pcs :
      (pcs : List ℕ) (d : Dict (List ℕ))
      → has_id (map_pcs id pcs d) p i ≡ ((id == i && contains pcs p) || has_id d p i)
  unfolding map_pcs contains
  has_id-map_pcs [] d = ground arith
  has_id-map_pcs (pc ∷ pcs) d =
      let d' = insert pc (add_element id (pcs_at pc d)) d in
      ground (arith, has_id-map_pcs pcs d', has_id-map_pc pc d)

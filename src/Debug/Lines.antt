-- ===== src/Debug/Lines.antt =====
-- getPCsForSourceLine of src/debugger/info/debug_info.cpp finds what the origins say.
use atomic_proof_interpreter.Prelude.{
  ℕ, ◌<◌, ◌≡◌, ◌⊎◌, ◌∙◌, subst, refl, inl, inr, Bool, true, false, ◌&&◌, not, Option, none, some,
  List, [], ◌∷◌, ◌==◌, if◌then◌else◌, Bool-cases, Option-cases, arith,
}
use atomic_proof_interpreter.Debug.Maps.{
  Dict, lookup, Above, keys, Ascending, contains, is_empty, contains-add_element,
}
use atomic_proof_interpreter.Debug.Info.{
  SourceLocation, SourceOrigin, InstructionDebugInfo, DebugInfo, is_valid, mapped_origin,
  get_origins_for_pc, pcs_at, index_instructions, instructions_with_origins, index_sources,
  line_index,
}
use atomic_proof_interpreter.Debug.Lookup.{
  any_origin, is_on_line, matching_pcs, get_pcs_for_line, get_pcs_for_source_line,
  normalize_source_filename,
}
use atomic_proof_interpreter.Debug.Index.{
  at_line, location_at, listed, instruction_at, listed-index_instructions, index_sources_grows,
  listed-index_sources, listed-sort_lines,
}

-- The information that addInstruction and its like leave: keys rise, and the index is built.
pub record IsIndexed (info : DebugInfo) : Type 0 where
  pub sorted : Ascending info.instructions
  pub built : info.line_to_pcs ≡ line_index info

instructions_with_origins-Above :
    (p : ℕ) (is : Dict InstructionDebugInfo)
    → Above p is
    → contains (instructions_with_origins is) p ≡ false
unfolding instructions_with_origins contains keys
instructions_with_origins-Above p [] h = refl
instructions_with_origins-Above p ((pc, i) ∷ is) (x, xs) = ground (
  arith,
  instructions_with_origins-Above p is xs,
  contains-add_element pc p (instructions_with_origins is),
)

-- A pc whose instruction has no origins, or that has no instruction, is not among them.
abbrev has_no_origins : Option InstructionDebugInfo → Bool
has_no_origins none = true
has_no_origins (some i) = is_empty i.origins

instructions_with_origins-lookup :
    (p : ℕ) (is : Dict InstructionDebugInfo)
    → Ascending is
    → has_no_origins (lookup p is) ≡ true
    → contains (instructions_with_origins is) p ≡ false
unfolding instructions_with_origins contains keys lookup
instructions_with_origins-lookup p [] s h = refl
instructions_with_origins-lookup p ((pc, i) ∷ is) (a, s) h = elim (Bool-cases (pc == p)) [
  | inl here ↦
      let same : pc ≡ p = ground arith in
      let x : has_no_origins (if true then some i else lookup p is) ≡ true = rw here at h in
      let y : Above p is = subst (λ k. Above k is) same a in
      ground (arith, instructions_with_origins-Above p is y)
  | inr further ↦
      let x : has_no_origins (lookup p is) ≡ true = rw further at h in
      ground (
        arith,
        instructions_with_origins-lookup p is s x,
        contains-add_element pc p (instructions_with_origins is),
      )
]

module _ (l p : ℕ) where
  mapped_case :
      (o : Option SourceLocation)
      → any_origin (at_line l) (mapped_origin o p) ≡ true
      → (loc : SourceLocation) × (o ≡ some loc) × (location_at l loc ≡ true)
  unfolding mapped_origin any_origin
  mapped_case none h = absurd (ground arith)
  mapped_case (some loc) h = (loc, refl, ground arith)

  -- Either the instruction itself is at the line, or it has no origins and pcToSource is.
  origin_cases :
      (info : DebugInfo)
      → any_origin (at_line l) (get_origins_for_pc info p) ≡ true
      → ((i : InstructionDebugInfo) × (lookup p info.instructions ≡ some i)
          × (instruction_at l p i ≡ true))
        ⊎ ((loc : SourceLocation) × (lookup p info.pc_to_source ≡ some loc)
            × (location_at l loc ≡ true)
            × (has_no_origins (lookup p info.instructions) ≡ true))
  unfolding get_origins_for_pc any_origin
  origin_cases info h = elim (Option-cases (lookup p info.instructions)) [
    | inl e ↦
        let m : any_origin (at_line l) (mapped_origin (lookup p info.pc_to_source) p) ≡ true =
          ground arith in
        let (loc, found, at_) = mapped_case (lookup p info.pc_to_source) m in
        inr (loc, found, at_, ground arith)
    | inr (i, e) ↦ elim (Bool-cases (is_empty i.origins && not (is_valid i.location))) [
      | inl bare ↦
          let m : any_origin (at_line l) (mapped_origin (lookup p info.pc_to_source) p) ≡ true =
            ground arith in
          let (loc, found, at_) = mapped_case (lookup p info.pc_to_source) m in
          inr (loc, found, at_, ground arith)
      | inr own ↦ inl (i, e, ground arith)
    ]
  ]

  line_index_complete :
      (info : DebugInfo)
      → Ascending info.instructions
      → any_origin (at_line l) (get_origins_for_pc info p) ≡ true
      → listed l p (line_index info) ≡ true
  unfolding line_index
  line_index_complete info s h =
      let known = instructions_with_origins info.instructions in
      let filled = index_instructions info.instructions [] in
      listed-sort_lines l p (index_sources known info.pc_to_source filled)
      ∙ (elim (origin_cases info h) [
        | inl (i, e, at_) ↦
            index_sources_grows l p known info.pc_to_source filled
              (listed-index_instructions l p info.instructions [] i e at_)
        | inr (loc, e, at_, bare) ↦
            listed-index_sources l p known info.pc_to_source filled loc e
              (instructions_with_origins-lookup p info.instructions s bare) at_
      ])

contains-guarded :
    (empty : Bool) (ks : List ℕ) (p : ℕ)
    → contains (if empty then [] else ks) p ≡ (not empty && contains ks p)
unfolding contains
contains-guarded true ks p = refl
contains-guarded false ks p = refl

-- A test that implies membership may stand for both.
same_test :
    (empty listed_ on found : Bool)
    → found ≡ (listed_ && on)
    → (on ≡ true → listed_ ≡ true)
    → (not empty && found) ≡ (not empty && on)
same_test empty listed_ true found e h = ground (arith, h refl)
same_test empty listed_ false found e h = ground arith

module _ (canonical : List ℕ → List ℕ → List ℕ) where
  contains-matching_pcs :
      (info : DebugInfo) (requested : List ℕ) (line : ℕ) (pcs : List ℕ) (p : ℕ)
      → contains (matching_pcs canonical info requested line pcs) p ≡ (
          contains pcs p
          && any_origin (is_on_line canonical info requested line) (get_origins_for_pc info p))
  unfolding matching_pcs contains
  contains-matching_pcs info requested line [] p = refl
  contains-matching_pcs info requested line (pc ∷ pcs) p = elim (Bool-cases (pc == p)) [
    | inl here ↦
        let same : pc ≡ p = ground arith in
        rw same (ground (arith, contains-matching_pcs info requested line pcs p))
    | inr further ↦ ground (arith, contains-matching_pcs info requested line pcs p)
  ]

  any_on_line→at_line :
      (info : DebugInfo) (requested : List ℕ) (line : ℕ) (os : List SourceOrigin)
      → 0 < line
      → any_origin (is_on_line canonical info requested line) os ≡ true
      → any_origin (at_line line) os ≡ true
  unfolding any_origin is_on_line is_valid
  any_on_line→at_line info requested line [] pos_line h = h
  any_on_line→at_line info requested line (o ∷ os) pos_line h =
      ground (arith, any_on_line→at_line info requested line os pos_line)

  -- With the index built, a pc is found for a line of a file, counted from 1, exactly where one of the
  -- pc's origins is on that line of that file; nothing is found for the empty name.
  pub get_pcs_for_source_line-exact :
      (info : DebugInfo) (filename : List ℕ) (line p : ℕ)
      → IsIndexed info
      → 0 < line
      → contains (get_pcs_for_source_line canonical info filename line) p ≡ (
          not (is_empty (normalize_source_filename canonical filename info.source_filename))
          && any_origin
              (is_on_line canonical info
                (normalize_source_filename canonical filename info.source_filename)
                line)
              (get_origins_for_pc info p))
  unfolding get_pcs_for_source_line get_pcs_for_line
  get_pcs_for_source_line-exact info filename line p w pos_line =
      let requested = normalize_source_filename canonical filename info.source_filename in
      let pcs = pcs_at line info.line_to_pcs in
      contains-guarded (is_empty requested) (matching_pcs canonical info requested line pcs) p
      ∙ same_test (is_empty requested) (contains pcs p)
          (any_origin (is_on_line canonical info requested line) (get_origins_for_pc info p))
          (contains (matching_pcs canonical info requested line pcs) p)
          (contains-matching_pcs info requested line pcs p)
          (λ on.
            let full : listed line p (line_index info) ≡ true =
              line_index_complete line p info w.sorted
                (any_on_line→at_line info requested line (get_origins_for_pc info p) pos_line on) in
            rw w.built full)

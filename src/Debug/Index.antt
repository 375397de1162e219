-- ===== src/Debug/Index.antt =====
-- The index of lines that buildLineToPC of src/debugger/info/debug_info.cpp builds.
use atomic_proof_interpreter.Prelude.{
  ℕ, ◌≡◌, refl, inl, inr, Bool, true, false, ◌&&◌, ◌||◌, some, List, [], ◌∷◌, ◌++◌, ◌==◌,
  if◌then◌else◌, Bool-cases, arith,
}
use atomic_proof_interpreter.Debug.Maps.{
  Dict, lookup, contains, is_empty, lookup-insert, contains-add_element,
}
use atomic_proof_interpreter.Debug.Info.{
  SourceLocation, SourceOrigin, InstructionDebugInfo, is_valid, pcs_at, index_location,
  index_origins, index_instruction, index_instructions, index_sources, sort_unique, sort_lines,
}
use atomic_proof_interpreter.Debug.Lookup.{any_origin}

contains-append_one :
    (ks : List ℕ) (k n : ℕ) → contains (ks ++ k ∷ []) n ≡ (contains ks n || k == n)
unfolding contains
contains-append_one [] k n = ground arith
contains-append_one (j ∷ ks) k n = ground (arith, contains-append_one ks k n)

pub contains-sort_unique : (ks : List ℕ) (n : ℕ) → contains (sort_unique ks) n ≡ contains ks n
unfolding contains sort_unique
contains-sort_unique [] n = refl
contains-sort_unique (k ∷ ks) n =
    ground (arith, contains-add_element k n (sort_unique ks), contains-sort_unique ks n)

-- A location or an origin that belongs to a line.
abbrev pub location_at : ℕ → SourceLocation → Bool
location_at line loc = is_valid loc && loc.line == line

abbrev pub at_line : ℕ → SourceOrigin → Bool
at_line line origin = location_at line origin.location

module _ (l p : ℕ) where
  abbrev pub listed : Dict (List ℕ) → Bool
  listed d = contains (pcs_at l d) p

  pub listed-sort_lines : (d : Dict (List ℕ)) → listed (sort_lines d) ≡ listed d
  unfolding sort_lines pcs_at lookup
  listed-sort_lines [] = refl
  listed-sort_lines ((line, pcs) ∷ d) =
      ground (arith, listed-sort_lines d, contains-sort_unique pcs p)

  listed-index_location :
      (pc : ℕ) (loc : SourceLocation) (d : Dict (List ℕ))
      → listed (index_location pc loc d) ≡ (listed d || (location_at l loc && pc == p))
  unfolding index_location pcs_at
  listed-index_location pc loc d =
      let x = lookup-insert loc.line l (pcs_at loc.line d ++ pc ∷ []) d in
      let y = contains-append_one (pcs_at loc.line d) pc p in ground arith

  listed-index_origins :
      (pc : ℕ) (os : List SourceOrigin) (d : Dict (List ℕ))
      → listed (index_origins pc os d) ≡ (listed d || (any_origin (at_line l) os && pc == p))
  unfolding index_origins any_origin
  listed-index_origins pc [] d = ground arith
  listed-index_origins pc (o ∷ os) d = ground (
    arith,
    listed-index_location pc o.location d,
    listed-index_origins pc os (index_location pc o.location d),
  )

  -- What an instruction adds at the line.
  abbrev pub instruction_at : InstructionDebugInfo → Bool
  instruction_at i =
      if is_empty i.origins then location_at l i.location else any_origin (at_line l) i.origins

  listed-index_instruction :
      (pc : ℕ) (i : InstructionDebugInfo) (d : Dict (List ℕ))
      → listed (index_instruction pc i d) ≡ (listed d || (instruction_at i && pc == p))
  unfolding index_instruction
  listed-index_instruction pc i d =
      ground (arith, listed-index_location pc i.location d, listed-index_origins pc i.origins d)

  index_instructions_grows :
      (is : Dict InstructionDebugInfo) (d : Dict (List ℕ))
      → listed d ≡ true
      → listed (index_instructions is d) ≡ true
  unfolding index_instructions
  index_instructions_grows [] d h = h
  index_instructions_grows ((pc, i) ∷ is) d h =
      index_instructions_grows is (index_instruction pc i d)
        (ground (arith, listed-index_instruction pc i d))

  pub listed-index_instructions :
      (is : Dict InstructionDebugInfo) (d : Dict (List ℕ)) (i : InstructionDebugInfo)
      → lookup p is ≡ some i
      → instruction_at i ≡ true
      → listed (index_instructions is d) ≡ true
  unfolding index_instructions lookup
  listed-index_instructions [] d i e h = ground arith
  listed-index_instructions ((pc, j) ∷ is) d i e h = elim (Bool-cases (pc == p)) [
    | inl here ↦
        let same : some j ≡ some i =
          (let x : (if true then some j else lookup p is) ≡ some i = rw here at e in x) in
        index_instructions_grows is (index_instruction pc j d)
          (ground (arith, listed-index_instruction pc j d))
    | inr further ↦
        listed-index_instructions is (index_instruction pc j d) i (let x = rw further at e in x) h
  ]

  pub index_sources_grows :
      (known : List ℕ) (ss : Dict SourceLocation) (d : Dict (List ℕ))
      → listed d ≡ true
      → listed (index_sources known ss d) ≡ true
  unfolding index_sources
  index_sources_grows known [] d h = h
  index_sources_grows known ((pc, loc) ∷ ss) d h =
      index_sources_grows known ss _ (ground (arith, listed-index_location pc loc d))

  pub listed-index_sources :
      (known : List ℕ) (ss : Dict SourceLocation) (d : Dict (List ℕ)) (loc : SourceLocation)
      → lookup p ss ≡ some loc
      → contains known p ≡ false
      → location_at l loc ≡ true
      → listed (index_sources known ss d) ≡ true
  unfolding index_sources lookup
  listed-index_sources known [] d loc e k h = ground arith
  listed-index_sources known ((pc, other) ∷ ss) d loc e k h = elim (Bool-cases (pc == p)) [
    | inl here ↦ index_sources_grows known ss _ (ground (arith, listed-index_location pc other d))
    | inr further ↦ listed-index_sources known ss _ loc (let x = rw further at e in x) k h
  ]

-- ===== src/Debug/Lookup.antt =====
-- The lookups of src/debugger/info/debug_info.cpp by source line, by pc and by branch trace.
use atomic_proof_interpreter.Prelude.{
  ℕ, zero, suc, ◌+◌, ◌-◌, Bool, true, false, Option, none, some, List, [], ◌∷◌, ◌&&◌, ◌||◌, not,
  ltb, leb, ◌==◌, if◌then◌else◌, length,
}
use atomic_proof_interpreter.Script.Codec.{eq_text}
use atomic_proof_interpreter.Vm.Machine.{BranchArm, BranchTrace}
use atomic_proof_interpreter.Debug.Maps.{lookup, is_empty}
use atomic_proof_interpreter.Debug.Info.{
  SourceLocation, BranchPredicate, SourceOrigin, FunctionDebugInfo, DebugInfo, is_valid,
  no_location, get_origins_for_pc, pcs_at,
}

unfoldable pub eq_arm : BranchArm → BranchArm → Bool
eq_arm BranchArm.then_arm BranchArm.then_arm = true
eq_arm BranchArm.then_arm BranchArm.else_arm = false
eq_arm BranchArm.else_arm BranchArm.then_arm = false
eq_arm BranchArm.else_arm BranchArm.else_arm = true

-- The trace has this choice at this region.
unfoldable pub holds : BranchPredicate → BranchTrace → Bool
unfolding lookup eq_arm
holds predicate trace = elim (lookup predicate.region trace) [
  | none ↦ false
  | some actual ↦ eq_arm actual predicate.arm
]

unfoldable pub all_hold : List BranchPredicate → BranchTrace → Bool
unfolding holds
all_hold [] trace = true
all_hold (p ∷ path) trace = holds p trace && all_hold path trace

unfoldable pub is_path_compatible : SourceOrigin → BranchTrace → Bool
unfolding all_hold
is_path_compatible origin trace = all_hold origin.path trace

-- The matches of a path up to its end, or none where a predicate conflicts with the trace.
unfoldable pub count_matches : List BranchPredicate → BranchTrace → ℕ → Option ℕ
unfolding holds
count_matches [] trace matches = some matches
count_matches (p ∷ path) trace matches =
    if holds p trace then count_matches path trace (matches + 1) else none

-- The best origin so far, with its matches and the length of its path.
unfoldable pub better : Option (SourceOrigin × ℕ × ℕ) → SourceOrigin → ℕ → Bool
better none origin matches = true
better (some (best, best_matches, best_specificity)) origin matches =
    ltb best_matches matches
    || (matches == best_matches && ltb best_specificity (length origin.path))

unfoldable pub take_origin :
    BranchTrace → SourceOrigin → Option (SourceOrigin × ℕ × ℕ) → Option (SourceOrigin × ℕ × ℕ)
unfolding count_matches better
take_origin trace origin best = elim (count_matches origin.path trace 0) [
  | none ↦ best
  | some matches ↦
      if better best origin matches then some (origin, matches, length origin.path) else best
]

unfoldable pub best_origin :
    BranchTrace → List SourceOrigin → Option (SourceOrigin × ℕ × ℕ) → Option (SourceOrigin × ℕ × ℕ)
unfolding take_origin
best_origin trace [] best = best
best_origin trace (o ∷ origins) best = best_origin trace origins (take_origin trace o best)

unfoldable pub chosen : Option (SourceOrigin × ℕ × ℕ) → Option SourceOrigin
chosen none = none
chosen (some (origin, matches, specificity)) = some origin

unfoldable pub first_origin : List SourceOrigin → Option SourceOrigin
first_origin [] = none
first_origin (o ∷ origins) = some o

-- The origins that the instruction at a pc has itself.
unfoldable pub own_origins : DebugInfo → ℕ → List SourceOrigin
unfolding lookup
own_origins info pc = elim (lookup pc info.instructions) [
  | none ↦ []
  | some instruction ↦ instruction.origins
]

unfoldable pub resolve_origin : DebugInfo → ℕ → BranchTrace → Option SourceOrigin
unfolding own_origins first_origin best_origin chosen is_empty
resolve_origin info pc trace =
    if is_empty trace
    then first_origin (own_origins info pc)
    else chosen (best_origin trace (own_origins info pc) none)

unfoldable pub get_source_location : DebugInfo → ℕ → BranchTrace → SourceLocation
unfolding resolve_origin own_origins lookup is_empty
get_source_location info pc trace = elim (resolve_origin info pc trace) [
  | some origin ↦ origin.location
  | none ↦
      if not (is_empty trace) && not (is_empty (own_origins info pc))
      then no_location
      else elim (lookup pc info.pc_to_source) [ none ↦ no_location | some loc ↦ loc ]
]

unfoldable pub any_origin : (SourceOrigin → Bool) → List SourceOrigin → Bool
any_origin p [] = false
any_origin p (o ∷ origins) = p o || any_origin p origins

unfoldable pub get_function_at : List FunctionDebugInfo → ℕ → Option FunctionDebugInfo
get_function_at [] pc = none
get_function_at (f ∷ functions) pc =
    if leb f.start_pc pc && ltb pc f.end_pc then some f else get_function_at functions pc

unfoldable pub get_function_at_pc : DebugInfo → ℕ → Option FunctionDebugInfo
unfolding get_function_at
get_function_at_pc info pc = get_function_at info.functions pc

unfoldable pub get_pcs_for_line : DebugInfo → ℕ → List ℕ
unfolding pcs_at
get_pcs_for_line info line = pcs_at line info.line_to_pcs

-- `canonical` is what the file system makes of a name that is not empty, beside the primary source.
module _ (canonical : List ℕ → List ℕ → List ℕ) where
  unfoldable pub normalize_source_filename : List ℕ → List ℕ → List ℕ
  unfolding is_empty
  normalize_source_filename filename primary =
      if is_empty filename then [] else canonical filename primary

  -- An origin without a file name belongs to the primary source.
  unfoldable pub mapped_file : DebugInfo → SourceOrigin → List ℕ
  unfolding is_empty normalize_source_filename
  mapped_file info origin =
      normalize_source_filename
        (if is_empty origin.location.filename
          then info.source_filename
          else origin.location.filename)
        info.source_filename

  unfoldable pub is_on_line : DebugInfo → List ℕ → ℕ → SourceOrigin → Bool
  unfolding mapped_file eq_text
  is_on_line info requested line origin =
      origin.location.line == line && eq_text (mapped_file info origin) requested

  unfoldable pub is_active_on_line : DebugInfo → List ℕ → ℕ → BranchTrace → SourceOrigin → Bool
  unfolding is_valid is_path_compatible is_on_line
  is_active_on_line info requested line trace origin =
      is_valid origin.location
      && (is_path_compatible origin trace && is_on_line info requested line origin)

  unfoldable pub has_active_source_origin : DebugInfo → ℕ → List ℕ → ℕ → BranchTrace → Bool
  unfolding normalize_source_filename is_empty any_origin is_active_on_line get_origins_for_pc
  has_active_source_origin info pc filename line trace =
      let requested = normalize_source_filename filename info.source_filename in
      if is_empty requested
      then false
      else any_origin (is_active_on_line info requested line trace) (get_origins_for_pc info pc)

  unfoldable pub matching_pcs : DebugInfo → List ℕ → ℕ → List ℕ → List ℕ
  unfolding any_origin is_on_line get_origins_for_pc
  matching_pcs info requested line [] = []
  matching_pcs info requested line (pc ∷ pcs) =
      if any_origin (is_on_line info requested line) (get_origins_for_pc info pc)
      then pc ∷ matching_pcs info requested line pcs
      else matching_pcs info requested line pcs

  unfoldable pub get_pcs_for_source_line : DebugInfo → List ℕ → ℕ → List ℕ
  unfolding normalize_source_filename is_empty matching_pcs get_pcs_for_line
  get_pcs_for_source_line info filename line =
      let requested = normalize_source_filename filename info.source_filename in
      if is_empty requested
      then []
      else matching_pcs info requested line (get_pcs_for_line info line)

  -- The rounds left, and the distance of the next one.
  unfoldable pub nearest_from : DebugInfo → List ℕ → ℕ → ℕ → ℕ → List ℕ
  unfolding get_pcs_for_source_line is_empty
  nearest_from info filename line zero distance = []
  nearest_from info filename line (suc rounds) distance =
      let below =
        if leb line 10000 && leb distance (10000 - line)
        then get_pcs_for_source_line info filename (line + distance)
        else [] in
      let above =
        if ltb distance line then get_pcs_for_source_line info filename (line - distance) else [] in
      let rest = nearest_from info filename line rounds (distance + 1) in
      if not (is_empty below) then below else if not (is_empty above) then above else rest

  unfoldable pub find_nearest_valid_source_line : DebugInfo → List ℕ → ℕ → ℕ → List ℕ
  unfolding get_pcs_for_source_line is_empty nearest_from
  find_nearest_valid_source_line info filename line max_distance =
      let pcs = get_pcs_for_source_line info filename line in
      if not (is_empty pcs) then pcs else nearest_from info filename line max_distance 1

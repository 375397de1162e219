-- ===== src/Debug/Updates.antt =====
-- The operations that fill the debug information of src/debugger/info/debug_info.cpp.
use atomic_proof_interpreter.Prelude.{
  ℕ, Bool, true, false, none, some, List, [], ◌∷◌, ◌++◌, ◌&&◌, ltb, ◌==◌, if◌then◌else◌,
}
use atomic_proof_interpreter.Script.Codec.{eq_text}
use atomic_proof_interpreter.Debug.Maps.{lookup, insert, erase, is_empty}
use atomic_proof_interpreter.Debug.Info.{
  SourceLocation, BranchPredicate, SourceOrigin, InstructionDebugInfo, FunctionDebugInfo, DebugInfo,
  is_valid, no_location, origin_at, no_instruction, build_line_to_pc,
}
use atomic_proof_interpreter.Debug.Lookup.{eq_arm, any_origin}

unfoldable pub same_location : SourceLocation → SourceLocation → Bool
unfolding eq_text
same_location a b =
    eq_text a.filename b.filename
    && (a.line == b.line
        && (a.column == b.column && (a.end_line == b.end_line && a.end_column == b.end_column)))

unfoldable pub same_path : List BranchPredicate → List BranchPredicate → Bool
unfolding eq_arm
same_path [] [] = true
same_path [] (q ∷ qs) = false
same_path (p ∷ ps) [] = false
same_path (p ∷ ps) (q ∷ qs) = p.region == q.region && (eq_arm p.arm q.arm && same_path ps qs)

unfoldable pub same_names : List (List ℕ) → List (List ℕ) → Bool
unfolding eq_text
same_names [] [] = true
same_names [] (q ∷ qs) = false
same_names (p ∷ ps) [] = false
same_names (p ∷ ps) (q ∷ qs) = eq_text p q && same_names ps qs

unfoldable pub same_origin : SourceOrigin → SourceOrigin → Bool
unfolding same_location same_path same_names eq_text
same_origin a b =
    same_location a.location b.location
    && (a.scope_id == b.scope_id
        && (eq_text a.function_name b.function_name
            && (a.original_pc == b.original_pc
                && (same_path a.path b.path && same_names a.affected_vars b.affected_vars))))

unfoldable pub append_unique_origin : List SourceOrigin → SourceOrigin → List SourceOrigin
unfolding any_origin same_origin
append_unique_origin origins origin =
    if any_origin (λ item. same_origin item origin) origins then origins else origins ++ origin ∷ []

unfoldable pub append_origins : List SourceOrigin → List SourceOrigin → List SourceOrigin
unfolding append_unique_origin
append_origins origins [] = origins
append_origins origins (o ∷ os) = append_origins (append_unique_origin origins o) os

-- A new location for the primary origin, which is created where there is none.
unfoldable pub relocate : ℕ → SourceLocation → InstructionDebugInfo → InstructionDebugInfo
unfolding origin_at
relocate pc loc i = elim i.origins [
  | [] ↦ record i { location = loc; origins = origin_at loc pc i.affected_vars ∷ [] }
  | o ∷ os ↦ record i { location = loc; origins = record o { location = loc } ∷ os }
]

unfoldable pub add_source_mapping : ℕ → SourceLocation → DebugInfo → DebugInfo
unfolding is_valid insert lookup relocate build_line_to_pc
add_source_mapping pc loc info =
    if is_valid loc
    then build_line_to_pc (record info {
      pc_to_source = insert pc loc info.pc_to_source;
      instructions = (elim (lookup pc info.instructions) [
        | none ↦ info.instructions
        | some i ↦ insert pc (relocate pc loc i) info.instructions
      ]);
    })
    else info

-- The origins of a new instruction, and what its primary origin sets.
unfoldable pub with_primary_origin : InstructionDebugInfo → InstructionDebugInfo
unfolding is_valid origin_at is_empty
with_primary_origin i = elim i.origins [
  | [] ↦
      if is_valid i.location
      then record i { origins = origin_at i.location i.pc i.affected_vars ∷ [] }
      else i
  | o ∷ os ↦ record i {
    location = o.location;
    affected_vars = if is_empty i.affected_vars then o.affected_vars else i.affected_vars;
  }
]

unfoldable pub map_source : ℕ → SourceLocation → DebugInfo → DebugInfo
unfolding is_valid insert erase
map_source pc loc info = record info {
  pc_to_source =
      if is_valid loc then insert pc loc info.pc_to_source else erase pc info.pc_to_source;
}

unfoldable pub add_instruction : InstructionDebugInfo → DebugInfo → DebugInfo
unfolding with_primary_origin insert map_source build_line_to_pc
add_instruction value info =
    let i = with_primary_origin value in
    build_line_to_pc
      (map_source i.pc i.location (record info { instructions = insert i.pc i info.instructions }))

-- The instruction at a pc, which is created where it is missing.
unfoldable pub instruction_or_new : DebugInfo → ℕ → InstructionDebugInfo
unfolding lookup
instruction_or_new info pc = elim (lookup pc info.instructions) [
  | none ↦ no_instruction pc
  | some i ↦ i
]

-- The primary origin gives an instruction its location and its variables.
unfoldable pub show_primary : InstructionDebugInfo → List SourceOrigin → InstructionDebugInfo
show_primary i [] = record i { origins = [] }
show_primary i (o ∷ os) = record i {
  location = o.location;
  affected_vars = o.affected_vars;
  origins = o ∷ os;
}

unfoldable pub add_instruction_origin : ℕ → SourceOrigin → DebugInfo → DebugInfo
unfolding instruction_or_new append_unique_origin show_primary is_valid insert build_line_to_pc
add_instruction_origin pc value info =
    let old = instruction_or_new info pc in
    let i = show_primary old (append_unique_origin old.origins value) in
    build_line_to_pc (record info {
      instructions = insert pc i info.instructions;
      pc_to_source =
          if is_valid i.location then insert pc i.location info.pc_to_source else info.pc_to_source;
    })

unfoldable pub cleared : InstructionDebugInfo → List SourceOrigin → InstructionDebugInfo
unfolding show_primary
cleared i [] = record i { location = no_location; affected_vars = []; origins = [] }
cleared i (o ∷ os) = show_primary i (o ∷ os)

unfoldable pub set_instruction_origins : ℕ → List SourceOrigin → DebugInfo → DebugInfo
unfolding instruction_or_new append_origins cleared insert map_source build_line_to_pc
set_instruction_origins pc values info =
    let i = cleared (instruction_or_new info pc) (append_origins [] values) in
    build_line_to_pc
      (map_source pc i.location (record info { instructions = insert pc i info.instructions }))

unfoldable pub less_text : List ℕ → List ℕ → Bool
less_text [] [] = false
less_text [] (d ∷ t) = true
less_text (c ∷ s) [] = false
less_text (c ∷ s) (d ∷ t) = if c == d then less_text s t else ltb c d

unfoldable pub insert_function : FunctionDebugInfo → List FunctionDebugInfo → List FunctionDebugInfo
unfolding eq_text less_text
insert_function f [] = f ∷ []
insert_function f (g ∷ fs) =
    if eq_text f.name g.name
    then f ∷ fs
    else if less_text f.name g.name
    then f ∷ g ∷ fs
    else g ∷ insert_function f fs

unfoldable pub add_function : FunctionDebugInfo → DebugInfo → DebugInfo
unfolding insert_function
add_function f info = record info { functions = insert_function f info.functions }

-- The ways in which the compiler fills the information.
pub data Update : Type 0 where
  source_mapping : ℕ → SourceLocation → Update
  instruction : InstructionDebugInfo → Update
  instruction_origin : ℕ → SourceOrigin → Update
  instruction_origins : ℕ → List SourceOrigin → Update
  function : FunctionDebugInfo → Update

unfoldable pub update : Update → DebugInfo → DebugInfo
unfolding add_source_mapping add_instruction add_instruction_origin set_instruction_origins
    add_function
update (source_mapping pc loc) info = add_source_mapping pc loc info
update (instruction i) info = add_instruction i info
update (instruction_origin pc o) info = add_instruction_origin pc o info
update (instruction_origins pc os) info = set_instruction_origins pc os info
update (function f) info = add_function f info

unfoldable pub update_all : List Update → DebugInfo → DebugInfo
unfolding update
update_all [] info = info
update_all (u ∷ us) info = update_all us (update u info)

abbrev pub no_info : List ℕ → DebugInfo
no_info source = record {
  source_filename = source;
  pc_to_source = [];
  line_to_pcs = [];
  instructions = [];
  functions = [];
}

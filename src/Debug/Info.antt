-- ===== src/Debug/Info.antt =====
-- The records of src/debugger/info/debug_info.h, as far as source lines are looked up in them.
use atomic_proof_interpreter.Prelude.{
  ℕ, Bool, Option, none, some, List, [], ◌∷◌, ◌++◌, not, ltb, if◌then◌else◌,
}
use atomic_proof_interpreter.Vm.Machine.{BranchArm}
use atomic_proof_interpreter.Debug.Maps.{Dict, lookup, insert, contains, add_element, is_empty}

pub record SourceLocation : Type 0 where
  pub filename : List ℕ
  pub line : ℕ
  pub column : ℕ
  pub end_line : ℕ
  pub end_column : ℕ

-- A choice that an origin asks for at a region, which is the pc of its OP_IF.
pub record BranchPredicate : Type 0 where
  pub region : ℕ
  pub arm : BranchArm

pub record SourceOrigin : Type 0 where
  pub location : SourceLocation
  pub scope_id : ℕ
  pub function_name : List ℕ
  pub original_pc : ℕ
  pub path : List BranchPredicate
  pub affected_vars : List (List ℕ)

pub record InstructionDebugInfo : Type 0 where
  pub pc : ℕ
  pub location : SourceLocation
  pub opcode : List ℕ
  pub operand : List ℕ
  pub affected_vars : List (List ℕ)
  pub origins : List SourceOrigin

pub record FunctionDebugInfo : Type 0 where
  pub name : List ℕ
  pub start_pc : ℕ
  pub end_pc : ℕ

-- Functions stand in the order of the program's map, by name.
pub record DebugInfo : Type 0 where
  pub source_filename : List ℕ
  pub pc_to_source : Dict SourceLocation
  pub line_to_pcs : Dict (List ℕ)
  pub instructions : Dict InstructionDebugInfo
  pub functions : List FunctionDebugInfo

unfoldable pub is_valid : SourceLocation → Bool
is_valid loc = ltb 0 loc.line

abbrev pub no_location : SourceLocation
no_location = record { filename = []; line = 0; column = 0; end_line = 0; end_column = 0 }

-- SourceOrigin(loc) with the pc it stands at.
unfoldable pub origin_at : SourceLocation → ℕ → List (List ℕ) → SourceOrigin
origin_at loc pc vars = record {
  location = loc;
  scope_id = 0;
  function_name = [];
  original_pc = pc;
  path = [];
  affected_vars = vars;
}

abbrev pub no_instruction : ℕ → InstructionDebugInfo
no_instruction pc = record {
  pc = pc;
  location = no_location;
  opcode = [];
  operand = [];
  affected_vars = [];
  origins = [];
}

-- The origin that pcToSource gives for a pc.
unfoldable pub mapped_origin : Option SourceLocation → ℕ → List SourceOrigin
unfolding origin_at
mapped_origin none pc = []
mapped_origin (some loc) pc = origin_at loc pc [] ∷ []

unfoldable pub get_origins_for_pc : DebugInfo → ℕ → List SourceOrigin
unfolding lookup is_valid origin_at is_empty mapped_origin
get_origins_for_pc info pc = elim (lookup pc info.instructions) [
  | some instruction ↦
      if not (is_empty instruction.origins)
      then instruction.origins
      else if is_valid instruction.location
      then origin_at instruction.location pc instruction.affected_vars ∷ []
      else mapped_origin (lookup pc info.pc_to_source) pc
  | none ↦ mapped_origin (lookup pc info.pc_to_source) pc
]

-- The entry of a line, which is created empty where it is missing.
unfoldable pub pcs_at : ℕ → Dict (List ℕ) → List ℕ
unfolding lookup
pcs_at line d = elim (lookup line d) [ none ↦ [] | some pcs ↦ pcs ]

unfoldable pub index_location : ℕ → SourceLocation → Dict (List ℕ) → Dict (List ℕ)
unfolding is_valid insert pcs_at
index_location pc loc d =
    if is_valid loc then insert loc.line (pcs_at loc.line d ++ pc ∷ []) d else d

unfoldable pub index_origins : ℕ → List SourceOrigin → Dict (List ℕ) → Dict (List ℕ)
unfolding index_location
index_origins pc [] d = d
index_origins pc (o ∷ origins) d = index_origins pc origins (index_location pc o.location d)

unfoldable pub index_instruction : ℕ → InstructionDebugInfo → Dict (List ℕ) → Dict (List ℕ)
unfolding index_location index_origins is_empty
index_instruction pc instruction d =
    if is_empty instruction.origins
    then index_location pc instruction.location d
    else index_origins pc instruction.origins d

unfoldable pub index_instructions : Dict InstructionDebugInfo → Dict (List ℕ) → Dict (List ℕ)
unfolding index_instruction
index_instructions [] d = d
index_instructions ((pc, instruction) ∷ rest) d =
    index_instructions rest (index_instruction pc instruction d)

-- The pcs of the instructions with origins of their own.
unfoldable pub instructions_with_origins : Dict InstructionDebugInfo → List ℕ
unfolding add_element is_empty
instructions_with_origins [] = []
instructions_with_origins ((pc, instruction) ∷ rest) =
    if is_empty instruction.origins
    then instructions_with_origins rest
    else add_element pc (instructions_with_origins rest)

unfoldable pub index_sources : List ℕ → Dict SourceLocation → Dict (List ℕ) → Dict (List ℕ)
unfolding index_location contains
index_sources known [] d = d
index_sources known ((pc, loc) ∷ rest) d =
    index_sources known rest (if contains known pc then d else index_location pc loc d)

-- std::sort and std::unique on one line's pcs.
unfoldable pub sort_unique : List ℕ → List ℕ
unfolding add_element
sort_unique [] = []
sort_unique (k ∷ ks) = add_element k (sort_unique ks)

unfoldable pub sort_lines : Dict (List ℕ) → Dict (List ℕ)
unfolding sort_unique
sort_lines [] = []
sort_lines ((line, pcs) ∷ d) = (line, sort_unique pcs) ∷ sort_lines d

unfoldable pub line_index : DebugInfo → Dict (List ℕ)
unfolding index_instructions index_sources sort_lines instructions_with_origins
line_index info = sort_lines (
    index_sources (instructions_with_origins info.instructions) info.pc_to_source
      (index_instructions info.instructions []))

unfoldable pub build_line_to_pc : DebugInfo → DebugInfo
unfolding line_index
build_line_to_pc info = record info { line_to_pcs = line_index info }

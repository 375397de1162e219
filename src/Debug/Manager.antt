-- ===== src/Debug/Manager.antt =====
-- BreakpointManager of src/debugger/breakpoint/breakpoint_manager.cpp.
use atomic_proof_interpreter.Prelude.{
  ℕ, ◌+◌, ◌%◌, ◌^◌, Bool, true, false, Option, none, some, List, [], ◌∷◌, ◌||◌, if◌then◌else◌,
}
use atomic_proof_interpreter.Script.Codec.{eq_text}
use atomic_proof_interpreter.Debug.Maps.{
  Dict, lookup, insert, erase, keys, add_element, remove_element, is_empty,
}
use atomic_proof_interpreter.Debug.Info.{FunctionDebugInfo, DebugInfo, pcs_at, sort_unique}
use atomic_proof_interpreter.Debug.Lookup.{get_pcs_for_source_line}
use atomic_proof_interpreter.Debug.Breakpoint.{
  BreakpointState, LineTarget, Kind, line_breakpoint, function_breakpoint, conditional_breakpoint,
  data_breakpoint, Breakpoint, new_breakpoint, new_target, as_line, with_resolved, set_temporary,
}

-- Breakpoints by id, and the ids of the line breakpoints by the pcs they resolve to.
pub record BreakpointManager : Type 0 where
  pub debug_info : Option DebugInfo
  pub breakpoints : Dict Breakpoint
  pub next_id : ℕ
  pub pc_to_breakpoints : Dict (List ℕ)

abbrev pub new_manager : Option DebugInfo → BreakpointManager
new_manager info = record {
  debug_info = info;
  breakpoints = [];
  next_id = 1;
  pc_to_breakpoints = [];
}

unfoldable pub get_breakpoint : ℕ → BreakpointManager → Option Breakpoint
unfolding lookup
get_breakpoint id m = lookup id m.breakpoints

unfoldable pub put : ℕ → Breakpoint → BreakpointManager → BreakpointManager
unfolding insert
put id bp m = record m { breakpoints = insert id bp m.breakpoints }

unfoldable pub map_pcs : ℕ → List ℕ → Dict (List ℕ) → Dict (List ℕ)
unfolding insert add_element pcs_at
map_pcs id [] d = d
map_pcs id (pc ∷ pcs) d = map_pcs id pcs (insert pc (add_element id (pcs_at pc d)) d)

-- An entry whose last id goes is erased.
unfoldable pub unmap_pc : ℕ → ℕ → Dict (List ℕ) → Dict (List ℕ)
unfolding lookup insert erase remove_element is_empty
unmap_pc id pc d = elim (lookup pc d) [
  | none ↦ d
  | some ids ↦
      let rest = remove_element id ids in if is_empty rest then erase pc d else insert pc rest d
]

unfoldable pub unmap_pcs : ℕ → List ℕ → Dict (List ℕ) → Dict (List ℕ)
unfolding unmap_pc
unmap_pcs id [] d = d
unmap_pcs id (pc ∷ pcs) d = unmap_pcs id pcs (unmap_pc id pc d)

unfoldable pub target_pcs : Option LineTarget → List ℕ
target_pcs none = []
target_pcs (some t) = t.resolved_pcs

-- The pcs of a breakpoint that is found and is a line breakpoint; no others are mapped.
unfoldable pub resolved_of : Option Breakpoint → List ℕ
unfolding target_pcs as_line
resolved_of none = []
resolved_of (some bp) = target_pcs (as_line bp.kind)

unfoldable pub update_pc_to_breakpoint_mapping : ℕ → BreakpointManager → BreakpointManager
unfolding get_breakpoint resolved_of map_pcs
update_pc_to_breakpoint_mapping id m = record m {
  pc_to_breakpoints = map_pcs id (resolved_of (get_breakpoint id m)) m.pc_to_breakpoints;
}

unfoldable pub remove_pc_to_breakpoint_mapping : ℕ → BreakpointManager → BreakpointManager
unfolding get_breakpoint resolved_of unmap_pcs
remove_pc_to_breakpoint_mapping id m = record m {
  pc_to_breakpoints = unmap_pcs id (resolved_of (get_breakpoint id m)) m.pc_to_breakpoints;
}

unfoldable pub has_function : List ℕ → List FunctionDebugInfo → Bool
unfolding eq_text
has_function name [] = false
has_function name (f ∷ fs) = eq_text f.name name || has_function name fs

unfoldable pub knows_function : Option DebugInfo → List ℕ → Bool
unfolding has_function
knows_function none name = false
knows_function (some info) name = has_function name info.functions

-- A function breakpoint is left as it is where there is no debug information.
unfoldable pub resolve_function :
    Option DebugInfo → ℕ → Breakpoint → List ℕ → BreakpointManager → BreakpointManager × Bool
unfolding put has_function
resolve_function none id bp name m = (m, false)
resolve_function (some info) id bp name m =
    if has_function name info.functions
    then (put id (record bp { state = BreakpointState.enabled }) m, true)
    else (put id (record bp { state = BreakpointState.pending }) m, false)

unfoldable pub remove_breakpoint : ℕ → BreakpointManager → BreakpointManager × Bool
unfolding get_breakpoint remove_pc_to_breakpoint_mapping erase
remove_breakpoint id m = elim (get_breakpoint id m) [
  | none ↦ (m, false)
  | some bp ↦
      let m' = remove_pc_to_breakpoint_mapping id m in
      (record m' { breakpoints = erase id m'.breakpoints }, true)
]

unfoldable pub remove_all_breakpoints : BreakpointManager → BreakpointManager
remove_all_breakpoints m = record m { breakpoints = []; pc_to_breakpoints = [] }

unfoldable pub set_state : BreakpointState → ℕ → BreakpointManager → BreakpointManager × Bool
unfolding get_breakpoint put
set_state state id m = elim (get_breakpoint id m) [
  | none ↦ (m, false)
  | some bp ↦ (put id (record bp { state = state }) m, true)
]

-- The line cast comes first, and a conditional breakpoint passes it.
unfoldable pub condition_of : Kind → List ℕ → Option Kind
unfolding as_line
condition_of kind condition = elim (as_line kind) [
  | some t ↦ none
  | none ↦ elim kind [
    | conditional_breakpoint t old ↦ some (conditional_breakpoint t condition)
    | line_breakpoint t ↦ none
    | function_breakpoint name ↦ none
    | data_breakpoint variable last ↦ none
  ]
]

unfoldable pub set_breakpoint_condition : ℕ → List ℕ → BreakpointManager → BreakpointManager × Bool
unfolding get_breakpoint condition_of put
set_breakpoint_condition id condition m = elim (get_breakpoint id m) [
  | none ↦ (m, false)
  | some bp ↦ elim (condition_of bp.kind condition) [
    | none ↦ (m, false)
    | some kind ↦ (put id (record bp { kind = kind }) m, true)
  ]
]

unfoldable pub advance_id : BreakpointManager → BreakpointManager
advance_id m = record m { next_id = (m.next_id + 1) % 2 ^ 64 }

unfoldable pub add_data_breakpoint : List ℕ → BreakpointManager → BreakpointManager × ℕ
unfolding put advance_id
add_data_breakpoint variable m = (
  advance_id (put m.next_id (new_breakpoint m.next_id (data_breakpoint variable [])) m),
  m.next_id,
)

unfoldable pub add_function_breakpoint : List ℕ → BreakpointManager → BreakpointManager × ℕ
unfolding knows_function put advance_id
add_function_breakpoint name m =
    if knows_function m.debug_info name
    then (
      advance_id (put m.next_id (new_breakpoint m.next_id (function_breakpoint name)) m),
      m.next_id,
    )
    else (m, 0)

module _ (canonical : List ℕ → List ℕ → List ℕ) where
  -- No debug information is treated as a line without pcs.
  unfoldable pub pcs_for : Option DebugInfo → List ℕ → ℕ → List ℕ
  unfolding get_pcs_for_source_line
  pcs_for none filename line = []
  pcs_for (some info) filename line = get_pcs_for_source_line canonical info filename line

  unfoldable pub resolve_line :
      ℕ → Breakpoint → List ℕ → BreakpointManager → BreakpointManager × Bool
  unfolding is_empty put with_resolved sort_unique update_pc_to_breakpoint_mapping
  resolve_line id bp pcs m =
      if is_empty pcs then (put id (record bp { state = BreakpointState.pending }) m, false) else (
        update_pc_to_breakpoint_mapping id (
            put id
              (record bp {
                kind = with_resolved (sort_unique pcs) bp.kind;
                state = BreakpointState.enabled;
              })
              m),
        true,
      )

  unfoldable pub resolve_by : ℕ → Breakpoint → Kind → BreakpointManager → BreakpointManager × Bool
  unfolding resolve_line resolve_function pcs_for
  resolve_by id bp (line_breakpoint t) m =
      resolve_line id bp (pcs_for m.debug_info t.filename t.line) m
  resolve_by id bp (conditional_breakpoint t condition) m =
      resolve_line id bp (pcs_for m.debug_info t.filename t.line) m
  resolve_by id bp (function_breakpoint name) m = resolve_function m.debug_info id bp name m
  resolve_by id bp (data_breakpoint variable last) m = (m, true)

  unfoldable pub resolve_breakpoint : ℕ → BreakpointManager → BreakpointManager × Bool
  unfolding get_breakpoint remove_pc_to_breakpoint_mapping resolve_by
  resolve_breakpoint id m = elim (get_breakpoint id m) [
    | none ↦ (m, false)
    | some bp ↦ resolve_by id bp bp.kind (remove_pc_to_breakpoint_mapping id m)
  ]

  unfoldable pub resolve_each : List ℕ → BreakpointManager → BreakpointManager
  unfolding resolve_breakpoint
  resolve_each [] m = m
  resolve_each (id ∷ ids) m = resolve_each ids (resolve_breakpoint id m).0

  unfoldable pub resolve_breakpoints : BreakpointManager → BreakpointManager
  unfolding resolve_each keys
  resolve_breakpoints m = resolve_each (keys m.breakpoints) m

  unfoldable pub set_debug_info : Option DebugInfo → BreakpointManager → BreakpointManager
  unfolding resolve_breakpoints
  set_debug_info info m =
      resolve_breakpoints (record m { debug_info = info; pc_to_breakpoints = [] })

  -- addLineBreakpoint, addConditionalBreakpoint and addTemporaryBreakpoint.
  unfoldable pub add_at_line : List ℕ → ℕ → Breakpoint → BreakpointManager → BreakpointManager × ℕ
  unfolding pcs_for is_empty put resolve_breakpoint advance_id
  add_at_line filename line bp m =
      if is_empty (pcs_for m.debug_info filename line)
      then (m, 0)
      else (advance_id (resolve_breakpoint m.next_id (put m.next_id bp m)).0, m.next_id)

  unfoldable pub add_line_breakpoint : List ℕ → ℕ → BreakpointManager → BreakpointManager × ℕ
  unfolding add_at_line
  add_line_breakpoint filename line m =
      add_at_line filename line
        (new_breakpoint m.next_id (line_breakpoint (new_target filename line))) m

  unfoldable pub add_conditional_breakpoint :
      List ℕ → ℕ → List ℕ → BreakpointManager → BreakpointManager × ℕ
  unfolding add_at_line
  add_conditional_breakpoint filename line condition m =
      add_at_line filename line
        (new_breakpoint m.next_id (conditional_breakpoint (new_target filename line) condition)) m

  unfoldable pub add_temporary_breakpoint : List ℕ → ℕ → BreakpointManager → BreakpointManager × ℕ
  unfolding add_at_line set_temporary
  add_temporary_breakpoint filename line m =
      add_at_line filename line
        (set_temporary true (new_breakpoint m.next_id (line_breakpoint (new_target filename line))))
        m

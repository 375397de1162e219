-- ===== src/Debug/Hits.antt =====
-- shouldBreakAtPC and the queries of src/debugger/breakpoint/breakpoint_manager.cpp, and the manager's
-- operations as commands.
use atomic_proof_interpreter.Prelude.{
  ℕ, Bool, true, false, Option, none, some, List, [], ◌∷◌, ◌&&◌, not, ◌==◌, if◌then◌else◌, length,
}
use atomic_proof_interpreter.Script.Codec.{eq_text}
use atomic_proof_interpreter.Vm.Machine.{Vm, is_currently_executing}
use atomic_proof_interpreter.Debug.Maps.{Dict, is_empty}
use atomic_proof_interpreter.Debug.Info.{DebugInfo, pcs_at}
use atomic_proof_interpreter.Debug.Lookup.{find_nearest_valid_source_line}
use atomic_proof_interpreter.Debug.Breakpoint.{
  BreakpointState, Kind, line_breakpoint, function_breakpoint, conditional_breakpoint,
  data_breakpoint, Breakpoint, Setter, apply_setter, increment_hit_count, is_enabled, as_line,
  should_break,
}
use atomic_proof_interpreter.Debug.Manager.{
  BreakpointManager, get_breakpoint, put, remove_breakpoint, remove_all_breakpoints, set_state,
  set_breakpoint_condition, add_data_breakpoint, add_function_breakpoint, add_line_breakpoint,
  add_conditional_breakpoint, add_temporary_breakpoint, resolve_breakpoint, resolve_breakpoints,
  set_debug_info,
}

unfoldable pub all_breakpoints : Dict Breakpoint → List Breakpoint
all_breakpoints [] = []
all_breakpoints ((id, bp) ∷ d) = bp ∷ all_breakpoints d

unfoldable pub get_all_breakpoints : BreakpointManager → List Breakpoint
unfolding all_breakpoints
get_all_breakpoints m = all_breakpoints m.breakpoints

unfoldable pub select : (Breakpoint → Bool) → Dict Breakpoint → List Breakpoint
select p [] = []
select p ((id, bp) ∷ d) = if p bp then bp ∷ select p d else select p d

unfoldable pub is_at_line : List ℕ → ℕ → Breakpoint → Bool
unfolding as_line eq_text
is_at_line filename line bp = elim (as_line bp.kind) [
  | none ↦ false
  | some t ↦ eq_text t.filename filename && t.line == line
]

unfoldable pub get_breakpoints_at_line : List ℕ → ℕ → BreakpointManager → List Breakpoint
unfolding select is_at_line
get_breakpoints_at_line filename line m = select (is_at_line filename line) m.breakpoints

unfoldable pub is_for_function : List ℕ → Breakpoint → Bool
unfolding eq_text
is_for_function name bp = elim bp.kind [
  | function_breakpoint f ↦ eq_text f name
  | line_breakpoint t ↦ false
  | conditional_breakpoint t condition ↦ false
  | data_breakpoint variable last ↦ false
]

unfoldable pub get_breakpoints_at_function : List ℕ → BreakpointManager → List Breakpoint
unfolding select is_for_function
get_breakpoints_at_function name m = select (is_for_function name) m.breakpoints

unfoldable pub found_breakpoints : List ℕ → BreakpointManager → List Breakpoint
unfolding get_breakpoint
found_breakpoints [] m = []
found_breakpoints (id ∷ ids) m = elim (get_breakpoint id m) [
  | none ↦ found_breakpoints ids m
  | some bp ↦ bp ∷ found_breakpoints ids m
]

unfoldable pub get_breakpoints_at_pc : ℕ → BreakpointManager → List Breakpoint
unfolding found_breakpoints pcs_at
get_breakpoints_at_pc pc m = found_breakpoints (pcs_at pc m.pc_to_breakpoints) m

unfoldable pub get_enabled_breakpoints : BreakpointManager → ℕ
unfolding select is_enabled
get_enabled_breakpoints m = length (select is_enabled m.breakpoints)

-- A function breakpoint counts as resolved.
unfoldable pub is_resolved : Breakpoint → Bool
unfolding is_empty
is_resolved bp = elim bp.kind [
  | line_breakpoint t ↦ not (is_empty t.resolved_pcs)
  | conditional_breakpoint t condition ↦ not (is_empty t.resolved_pcs)
  | function_breakpoint name ↦ true
  | data_breakpoint variable last ↦ false
]

unfoldable pub get_resolved_breakpoints : BreakpointManager → ℕ
unfolding select is_resolved
get_resolved_breakpoints m = length (select is_resolved m.breakpoints)

unfoldable pub count_hit : ℕ → BreakpointManager → BreakpointManager
unfolding get_breakpoint put increment_hit_count
count_hit id m = elim (get_breakpoint id m) [
  | none ↦ m
  | some bp ↦ put id (increment_hit_count bp) m
]

-- A setter of a breakpoint that getBreakpoint found.
unfoldable pub adjust_breakpoint : ℕ → Setter → BreakpointManager → BreakpointManager
unfolding get_breakpoint put apply_setter
adjust_breakpoint id setter m = elim (get_breakpoint id m) [
  | none ↦ m
  | some bp ↦ put id (apply_setter setter bp) m
]

unfoldable pub is_function : Kind → Bool
is_function (line_breakpoint t) = false
is_function (function_breakpoint name) = true
is_function (conditional_breakpoint t condition) = false
is_function (data_breakpoint variable last) = false

module _ (canonical : List ℕ → List ℕ → List ℕ) where
  unfoldable pub find_nearest_valid_line : List ℕ → ℕ → ℕ → BreakpointManager → List ℕ
  unfolding find_nearest_valid_source_line
  find_nearest_valid_line filename line max_distance m = elim m.debug_info [
    | none ↦ []
    | some info ↦ find_nearest_valid_source_line canonical info filename line max_distance
  ]

  unfoldable pub stops : Option Breakpoint → Option DebugInfo → Vm → Bool
  unfolding should_break
  stops none info vm = false
  stops (some bp) info vm = should_break canonical bp info vm

  -- The first of the mapped ids whose breakpoint stops.
  unfoldable pub find_mapped : List ℕ → BreakpointManager → Option DebugInfo → Vm → Option ℕ
  unfolding get_breakpoint stops
  find_mapped [] m info vm = none
  find_mapped (id ∷ ids) m info vm =
      if stops (get_breakpoint id m) info vm then some id else find_mapped ids m info vm

  -- The first function breakpoint that stops.
  unfoldable pub find_function : Dict Breakpoint → Option DebugInfo → Vm → Option ℕ
  unfolding is_function should_break
  find_function [] info vm = none
  find_function ((id, bp) ∷ d) info vm =
      if is_function bp.kind && should_break canonical bp info vm
      then some id
      else find_function d info vm

  unfoldable pub find_hit : ℕ → BreakpointManager → Option DebugInfo → Vm → Option ℕ
  unfolding is_currently_executing find_mapped find_function pcs_at
  find_hit pc m info vm =
      if is_currently_executing vm
      then (elim (find_mapped (pcs_at pc m.pc_to_breakpoints) m info vm) [
        | some id ↦ some id
        | none ↦ find_function m.breakpoints info vm
      ])
      else none

  -- The machine has its own debug information. Deleting a temporary breakpoint is left to the caller.
  unfoldable pub should_break_at_pc :
      ℕ → Option DebugInfo → Vm → BreakpointManager → BreakpointManager × Bool
  unfolding find_hit count_hit
  should_break_at_pc pc info vm m = elim (find_hit pc m info vm) [
    | none ↦ (m, false)
    | some id ↦ (count_hit id m, true)
  ]

-- A call of the manager.
pub data Command : Type 0 where
  add_line : List ℕ → ℕ → Command
  add_conditional : List ℕ → ℕ → List ℕ → Command
  add_temporary : List ℕ → ℕ → Command
  add_function : List ℕ → Command
  add_data : List ℕ → Command
  set_condition : ℕ → List ℕ → Command
  remove : ℕ → Command
  remove_all : Command
  enable : ℕ → Command
  disable : ℕ → Command
  adjust : ℕ → Setter → Command
  resolve : ℕ → Command
  resolve_all : Command
  replace_info : Option DebugInfo → Command
  check_pc : ℕ → Option DebugInfo → Vm → Command

module _ (canonical : List ℕ → List ℕ → List ℕ) where
  unfoldable pub run_command : Command → BreakpointManager → BreakpointManager
  unfolding add_line_breakpoint add_conditional_breakpoint add_temporary_breakpoint
      add_function_breakpoint add_data_breakpoint set_breakpoint_condition remove_breakpoint
      remove_all_breakpoints set_state resolve_breakpoint resolve_breakpoints set_debug_info
      should_break_at_pc
  run_command (add_line filename line) m = (add_line_breakpoint canonical filename line m).0
  run_command (add_conditional filename line condition) m =
      (add_conditional_breakpoint canonical filename line condition m).0
  run_command (add_temporary filename line) m =
      (add_temporary_breakpoint canonical filename line m).0
  run_command (add_function name) m = (add_function_breakpoint name m).0
  run_command (add_data variable) m = (add_data_breakpoint variable m).0
  run_command (set_condition id condition) m = (set_breakpoint_condition id condition m).0
  run_command (remove id) m = (remove_breakpoint id m).0
  run_command remove_all m = remove_all_breakpoints m
  run_command (enable id) m = (set_state BreakpointState.enabled id m).0
  run_command (disable id) m = (set_state BreakpointState.disabled id m).0
  run_command (adjust id setter) m = adjust_breakpoint id setter m
  run_command (resolve id) m = (resolve_breakpoint canonical id m).0
  run_command resolve_all m = resolve_breakpoints canonical m
  run_command (replace_info info) m = set_debug_info canonical info m
  run_command (check_pc pc info vm) m = (should_break_at_pc canonical pc info vm m).0

  unfoldable pub run_commands : List Command → BreakpointManager → BreakpointManager
  unfolding run_command
  run_commands [] m = m
  run_commands (c ∷ cs) m = run_commands cs (run_command c m)

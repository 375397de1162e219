-- ===== src/Debug/Breakpoint.antt =====
-- src/debugger/breakpoint/breakpoint.h and .cpp: the kinds of breakpoints and when each stops.
use atomic_proof_interpreter.Prelude.{
  ℕ, ◌+◌, ◌%◌, ◌^◌, Bool, true, false, Option, none, some, List, [], ◌∷◌, ◌&&◌, not, ltb, ◌==◌,
  if◌then◌else◌,
}
use atomic_proof_interpreter.Script.Codec.{eq_text}
use atomic_proof_interpreter.Vm.Machine.{BranchTrace, CallFrame, Vm}
use atomic_proof_interpreter.Debug.Maps.{contains}
use atomic_proof_interpreter.Debug.Info.{FunctionDebugInfo, DebugInfo}
use atomic_proof_interpreter.Debug.Lookup.{get_function_at_pc, has_active_source_origin}

pub data BreakpointState : Type 0 where
  enabled disabled pending : BreakpointState

-- What LineBreakpoint keeps, and with it the ConditionalBreakpoint that derives from it.
pub record LineTarget : Type 0 where
  pub filename : List ℕ
  pub line : ℕ
  pub resolved_pcs : List ℕ

-- The classes that derive from Breakpoint. A data breakpoint has a variable and its last value.
pub data Kind : Type 0 where
  line_breakpoint : LineTarget → Kind
  function_breakpoint : List ℕ → Kind
  conditional_breakpoint : LineTarget → List ℕ → Kind
  data_breakpoint : List ℕ → List ℕ → Kind

pub record Breakpoint : Type 0 where
  pub id : ℕ
  pub kind : Kind
  pub state : BreakpointState
  pub hit_count : ℕ
  pub ignore_count : ℕ
  pub is_temporary : Bool

abbrev pub new_breakpoint : ℕ → Kind → Breakpoint
new_breakpoint id kind = record {
  id = id;
  kind = kind;
  state = BreakpointState.enabled;
  hit_count = 0;
  ignore_count = 0;
  is_temporary = false;
}

abbrev pub new_target : List ℕ → ℕ → LineTarget
new_target filename line = record { filename = filename; line = line; resolved_pcs = [] }

unfoldable pub increment_hit_count : Breakpoint → Breakpoint
increment_hit_count bp = record bp { hit_count = (bp.hit_count + 1) % 2 ^ 64 }

unfoldable pub reset_hit_count : Breakpoint → Breakpoint
reset_hit_count bp = record bp { hit_count = 0 }

unfoldable pub set_ignore_count : ℕ → Breakpoint → Breakpoint
set_ignore_count count bp = record bp { ignore_count = count }

unfoldable pub set_temporary : Bool → Breakpoint → Breakpoint
set_temporary temp bp = record bp { is_temporary = temp }

-- The setters that a caller may use on a breakpoint that the manager hands out.
pub data Setter : Type 0 where
  hits_reset : Setter
  hits_ignored : ℕ → Setter
  temporary : Bool → Setter

unfoldable pub apply_setter : Setter → Breakpoint → Breakpoint
unfolding reset_hit_count set_ignore_count set_temporary
apply_setter hits_reset bp = reset_hit_count bp
apply_setter (hits_ignored count) bp = set_ignore_count count bp
apply_setter (temporary temp) bp = set_temporary temp bp

unfoldable pub is_enabled : Breakpoint → Bool
is_enabled bp = elim bp.state [
  | BreakpointState.enabled ↦ true
  | BreakpointState.disabled ↦ false
  | BreakpointState.pending ↦ false
]

-- dynamic_pointer_cast<LineBreakpoint>, which a conditional breakpoint passes too.
unfoldable pub as_line : Kind → Option LineTarget
as_line (line_breakpoint t) = some t
as_line (function_breakpoint name) = none
as_line (conditional_breakpoint t condition) = some t
as_line (data_breakpoint variable last) = none

unfoldable pub with_resolved : List ℕ → Kind → Kind
with_resolved pcs (line_breakpoint t) = line_breakpoint (record t { resolved_pcs = pcs })
with_resolved pcs (function_breakpoint name) = function_breakpoint name
with_resolved pcs (conditional_breakpoint t condition) =
    conditional_breakpoint (record t { resolved_pcs = pcs }) condition
with_resolved pcs (data_breakpoint variable last) = data_breakpoint variable last

unfoldable pub innermost_trace : List CallFrame → BranchTrace → BranchTrace
innermost_trace [] root = root
innermost_trace (frame ∷ frames) root = frame.branch_trace

unfoldable pub get_active_branch_trace : Vm → BranchTrace
unfolding innermost_trace
get_active_branch_trace vm = innermost_trace vm.call_stack vm.root_branch_trace

-- Only the first instruction of the function counts.
unfoldable pub is_entry_of : List ℕ → ℕ → Option FunctionDebugInfo → Bool
unfolding eq_text
is_entry_of name pc none = false
is_entry_of name pc (some f) = if pc == f.start_pc then eq_text f.name name else false

-- Ready to stop: enabled, and not among the hits to skip.
unfoldable pub is_armed : Breakpoint → Bool
unfolding is_enabled
is_armed bp = is_enabled bp && not (ltb bp.hit_count bp.ignore_count)

module _ (canonical : List ℕ → List ℕ → List ℕ) where
  -- The machine's own debug information may be missing.
  unfoldable pub is_source_origin_active : Option DebugInfo → Vm → List ℕ → ℕ → Bool
  unfolding has_active_source_origin get_active_branch_trace
  is_source_origin_active none vm filename line = false
  is_source_origin_active (some info) vm filename line =
      has_active_source_origin canonical info vm.pc filename line (get_active_branch_trace vm)

  unfoldable pub line_should_break : Breakpoint → LineTarget → Option DebugInfo → Vm → Bool
  unfolding is_armed contains is_source_origin_active
  line_should_break bp t info vm =
      is_armed bp
      && (contains t.resolved_pcs vm.pc && is_source_origin_active info vm t.filename t.line)

  unfoldable pub function_should_break : Breakpoint → List ℕ → Option DebugInfo → Vm → Bool
  unfolding is_armed get_function_at_pc is_entry_of
  function_should_break bp name none vm = false
  function_should_break bp name (some info) vm =
      is_armed bp && is_entry_of name vm.pc (get_function_at_pc info vm.pc)

  -- Conditions and data breakpoints are not evaluated yet: the first stop as lines, the others never.
  unfoldable pub should_break_by : Kind → Breakpoint → Option DebugInfo → Vm → Bool
  unfolding line_should_break function_should_break
  should_break_by (line_breakpoint t) bp info vm = line_should_break bp t info vm
  should_break_by (function_breakpoint name) bp info vm = function_should_break bp name info vm
  should_break_by (conditional_breakpoint t condition) bp info vm = line_should_break bp t info vm
  should_break_by (data_breakpoint variable last) bp info vm = false

  unfoldable pub should_break : Breakpoint → Option DebugInfo → Vm → Bool
  unfolding should_break_by
  should_break bp info vm = should_break_by bp.kind bp info vm

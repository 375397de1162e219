-- ===== src/Debug/Tests.antt =====
-- Runs of the debug information and of the breakpoint manager at fixed inputs, and instances of the
-- theorems about them.
use atomic_proof_interpreter.Prelude.{
  ℕ, ◌<◌, ◌≡◌, sym, subst, refl, true, false, ◌&&◌, not, Option, none, some, List, [], ◌∷◌, arith,
}
use atomic_proof_interpreter.Vm.Machine.{
  BranchArm, BranchTrace, VmState, Vm, is_currently_executing,
}
use atomic_proof_interpreter.Debug.Maps.{keys, lookup, contains, is_empty, Ascending}
use atomic_proof_interpreter.Debug.Info.{
  SourceLocation, SourceOrigin, InstructionDebugInfo, DebugInfo, get_origins_for_pc,
}
use atomic_proof_interpreter.Debug.Lookup.{
  normalize_source_filename, any_origin, is_on_line, get_pcs_for_source_line, own_origins,
  resolve_origin, get_source_location, find_nearest_valid_source_line,
}
use atomic_proof_interpreter.Debug.Origins.{IsMostSpecific, resolve_origin-IsMostSpecific}
use atomic_proof_interpreter.Debug.Updates.{
  Update, instruction, instruction_origins, function, update_all, no_info,
}
use atomic_proof_interpreter.Debug.Filled.{filled-IsIndexed, get_pcs_for_source_line-update_all}
use atomic_proof_interpreter.Debug.Breakpoint.{
  line_breakpoint, Breakpoint, new_breakpoint, new_target, is_source_origin_active, should_break,
}
use atomic_proof_interpreter.Debug.Manager.{BreakpointManager, new_manager, add_line_breakpoint}
use atomic_proof_interpreter.Debug.Hits.{
  Command, get_enabled_breakpoints, get_resolved_breakpoints, should_break_at_pc, run_commands,
}
use atomic_proof_interpreter.Debug.Validity.{IsValid}
use atomic_proof_interpreter.Debug.Commands.{run_commands-IsValid, new_manager-IsValid}
use atomic_proof_interpreter.Debug.Active.{HasIndex}
use atomic_proof_interpreter.Debug.Stops.{any_stops}
use atomic_proof_interpreter.Debug.Hitting.{should_break_at_pc-any_stops}
use atomic_proof_interpreter.Debug.Setting.{add_line_breakpoint-stops}
use atomic_proof_interpreter.Debug.Ignored.{check_pcs, check_pcs-ignored}

-- A file system in which every name is canonical.
abbrev plain : List ℕ → List ℕ → List ℕ
plain name primary = name

abbrev main_file : List ℕ
main_file = 109 ∷ []

abbrev at_line : ℕ → SourceLocation
at_line line = record { filename = []; line = line; column = 1; end_line = line; end_column = 9 }

abbrev arm_origin : ℕ → BranchArm → SourceOrigin
arm_origin line arm = record {
  location = at_line line;
  scope_id = 0;
  function_name = [];
  original_pc = 4;
  path = record { region = 1; arm = arm } ∷ [];
  affected_vars = [];
}

abbrev plain_instruction : ℕ → ℕ → InstructionDebugInfo
plain_instruction pc line = record {
  pc = pc;
  location = at_line line;
  opcode = [];
  operand = [];
  affected_vars = [];
  origins = [];
}

-- Instructions of lines 3 and 4, and one at pc 4 that both arms of a block share, lines 6 and 8.
abbrev updates : List Update
updates =
    instruction (plain_instruction 0 3)
    ∷ instruction (plain_instruction 1 4)
    ∷ instruction_origins 4 (arm_origin 6 BranchArm.then_arm ∷ arm_origin 8 BranchArm.else_arm ∷ [])
    ∷ function (record { name = 102 ∷ []; start_pc = 0; end_pc = 5 })
    ∷ []

abbrev sample_info : DebugInfo
sample_info = update_all updates (no_info main_file)

abbrev at_pc : ℕ → BranchTrace → Vm
at_pc pc trace = record {
  main_stack = [];
  alt_stack = [];
  condition_stack = [];
  call_stack = [];
  root_branch_trace = trace;
  pc = pc;
  state = VmState.ready;
}

abbrev else_trace : BranchTrace
else_trace = (1, BranchArm.else_arm) ∷ []

abbrev commands : List Command
commands =
    Command.add_line main_file 8
    ∷ Command.add_function (102 ∷ [])
    ∷ Command.add_conditional main_file 3 []
    ∷ Command.disable 2
    ∷ Command.remove 3
    ∷ []

abbrev sample_manager : BreakpointManager
sample_manager = run_commands plain commands (new_manager (some sample_info))

shared_pcs : get_pcs_for_source_line plain sample_info main_file 8 ≡ 4 ∷ []
unfolding get_pcs_for_source_line update_all
shared_pcs = refl

nearest : find_nearest_valid_source_line plain sample_info main_file 5 10 ≡ 4 ∷ []
unfolding find_nearest_valid_source_line update_all
nearest = refl

else_line : (get_source_location sample_info 4 else_trace).line ≡ 8
unfolding get_source_location update_all
else_line = refl

two_left :
    (get_enabled_breakpoints sample_manager ≡ 1) × (get_resolved_breakpoints sample_manager ≡ 2)
unfolding get_enabled_breakpoints get_resolved_breakpoints run_commands update_all
two_left = (refl, refl)

-- Resolving again enables a line breakpoint that was disabled.
disabled : get_enabled_breakpoints (run_commands plain (Command.disable 1 ∷ []) sample_manager) ≡ 0
unfolding get_enabled_breakpoints run_commands update_all
disabled = refl

resolved_again :
    get_enabled_breakpoints
      (run_commands plain (Command.disable 1 ∷ Command.resolve_all ∷ []) sample_manager)
    ≡ 2
unfolding get_enabled_breakpoints run_commands update_all
resolved_again = refl

-- Without debug information the breakpoint is pending, and still counted as resolved.
pending_resolved :
    get_resolved_breakpoints (
      run_commands plain
        (Command.add_line main_file 8 ∷ Command.replace_info none ∷ [])
        (new_manager (some sample_info)))
    ≡ 1
unfolding get_resolved_breakpoints run_commands update_all
pending_resolved = refl

other_arm_passes :
    (should_break_at_pc plain 4
      (some sample_info)
      (at_pc 4 ((1, BranchArm.then_arm) ∷ []))
      sample_manager).1
    ≡ false
unfolding should_break_at_pc run_commands update_all
other_arm_passes = refl

else_trace-is_empty : is_empty else_trace ≡ false
unfolding is_empty
else_trace-is_empty = refl

sample_manager_info : sample_manager.debug_info ≡ some sample_info
unfolding run_commands update_all
sample_manager_info = refl

executing : is_currently_executing (at_pc 4 else_trace) ≡ true
unfolding is_currently_executing
executing = refl

active_line :
    is_source_origin_active plain (some sample_info) (at_pc 4 else_trace) main_file 8 ≡ true
unfolding is_source_origin_active update_all
active_line = refl

get_pcs_for_source_line-update_all_example :
    contains (get_pcs_for_source_line plain sample_info main_file 8) 4 ≡ (
      not (is_empty (normalize_source_filename plain main_file sample_info.source_filename))
      && any_origin
          (is_on_line plain sample_info
            (normalize_source_filename plain main_file sample_info.source_filename)
            8)
          (get_origins_for_pc sample_info 4))
get_pcs_for_source_line-update_all_example =
    get_pcs_for_source_line-update_all plain updates main_file main_file 8 4 (omega arith)

resolve_origin-IsMostSpecific_example :
    IsMostSpecific else_trace (own_origins sample_info 4) (resolve_origin sample_info 4 else_trace)
resolve_origin-IsMostSpecific_example =
    resolve_origin-IsMostSpecific sample_info 4 else_trace else_trace-is_empty

run_commands-IsValid_example : IsValid plain sample_manager
run_commands-IsValid_example =
    run_commands-IsValid plain commands (new_manager (some sample_info))
      (new_manager-IsValid plain (some sample_info)) (omega arith)

sample_manager-HasIndex : HasIndex sample_manager.debug_info
sample_manager-HasIndex =
    subst HasIndex (sym sample_manager_info) (filled-IsIndexed updates main_file)

should_break_at_pc-any_stops_example :
    (should_break_at_pc plain 4 sample_manager.debug_info (at_pc 4 else_trace) sample_manager).1 ≡ (
      is_currently_executing (at_pc 4 else_trace)
      && any_stops plain sample_manager.debug_info (at_pc 4 else_trace) sample_manager.breakpoints)
should_break_at_pc-any_stops_example =
    should_break_at_pc-any_stops plain (at_pc 4 else_trace) sample_manager
      (run_commands-IsValid plain commands (new_manager (some sample_info))
        (new_manager-IsValid plain (some sample_info)) (omega arith))
      sample_manager-HasIndex

add_line_breakpoint-stops_example :
    (0 < (add_line_breakpoint plain main_file 8 (new_manager (some sample_info))).1)
    × ((should_break_at_pc plain 4
          (some sample_info)
          (at_pc 4 else_trace)
          (add_line_breakpoint plain main_file 8 (new_manager (some sample_info))).0).1
        ≡ true)
add_line_breakpoint-stops_example =
    add_line_breakpoint-stops plain main_file 8 (new_manager (some sample_info))
      (at_pc 4 else_trace) (new_manager-IsValid plain (some sample_info))
      (filled-IsIndexed updates main_file) (omega arith) executing active_line

abbrev reluctant : Breakpoint
reluctant = record (new_breakpoint 1 (line_breakpoint (new_target main_file 3))) {
  ignore_count = 2;
}

abbrev one_breakpoint : BreakpointManager
one_breakpoint = record (new_manager (some sample_info)) {
  breakpoints = (1, reluctant) ∷ [];
  next_id = 2;
}

one_breakpoint-Ascending : Ascending one_breakpoint.breakpoints
unfolding keys
one_breakpoint-Ascending = (tt, tt)

there : lookup 1 one_breakpoint.breakpoints ≡ some reluctant
unfolding lookup
there = refl

check_pcs-ignored_example :
    (lookup 1 (check_pcs plain ((0, some sample_info, at_pc 0 []) ∷ []) one_breakpoint).breakpoints
      ≡ some reluctant)
    × ((info : Option DebugInfo) (vm : Vm) → should_break plain reluctant info vm ≡ false)
check_pcs-ignored_example =
    check_pcs-ignored plain ((0, some sample_info, at_pc 0 []) ∷ []) one_breakpoint 1 reluctant
      one_breakpoint-Ascending there (omega arith)

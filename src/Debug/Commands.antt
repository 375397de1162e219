-- ===== src/Debug/Commands.antt =====
-- The invariant of the manager of src/debugger/breakpoint/breakpoint_manager.cpp over sequences of
-- calls.
use atomic_proof_interpreter.Prelude.{
  ℕ, ◌+◌, ◌^◌, ◌<◌, ◌≤◌, ◌≡◌, refl, inl, inr, Option, none, List, [], ◌∷◌, length, Bool-cases,
  Option-cases, arith,
}
use atomic_proof_interpreter.Vm.Machine.{Vm}
use atomic_proof_interpreter.Debug.Maps.{lookup, contains, keys, is_empty}
use atomic_proof_interpreter.Debug.Info.{DebugInfo, pcs_at}
use atomic_proof_interpreter.Debug.Breakpoint.{
  BreakpointState, function_breakpoint, data_breakpoint, Setter, Breakpoint, new_breakpoint,
  as_line,
}
use atomic_proof_interpreter.Debug.Manager.{
  BreakpointManager, new_manager, put, remove_breakpoint, remove_all_breakpoints, set_state,
  advance_id, add_function_breakpoint, knows_function, pcs_for, resolve_breakpoint, set_debug_info,
  resolve_breakpoints, add_at_line,
}
use atomic_proof_interpreter.Debug.Hits.{
  Command, count_hit, adjust_breakpoint, find_hit, should_break_at_pc, run_command, run_commands,
}
use atomic_proof_interpreter.Debug.Validity.{
  IsValid, resolve_breakpoint-Resolved, resolve_breakpoint-IsValid,
}
use atomic_proof_interpreter.Debug.Adding.{put_new-IsValid, add_at_line-IsValid}
use atomic_proof_interpreter.Debug.Changes.{
  set_breakpoint_condition_fails, set_state-IsValid, count_hit-IsValid, adjust_breakpoint-IsValid,
  remove_breakpoint-IsValid,
}
use atomic_proof_interpreter.Debug.Invariant.{
  set_debug_info-IsValid, remove_all_breakpoints-IsValid, resolve_breakpoints-IsValid,
  resolve_each_keeps,
}

as_line_function : (name : List ℕ) → as_line (function_breakpoint name) ≡ none
unfolding as_line
as_line_function name = refl

as_line_data : (variable : List ℕ) → as_line (data_breakpoint variable []) ≡ none
unfolding as_line
as_line_data variable = refl

remove_breakpoint-next :
    (id : ℕ) (m : BreakpointManager) → (remove_breakpoint id m).0.next_id ≡ m.next_id
unfolding remove_breakpoint
remove_breakpoint-next id m = ground arith

set_state-next :
    (state : BreakpointState) (id : ℕ) (m : BreakpointManager)
    → (set_state state id m).0.next_id ≡ m.next_id
unfolding set_state
set_state-next state id m = ground arith

count_hit-next : (id : ℕ) (m : BreakpointManager) → (count_hit id m).next_id ≡ m.next_id
unfolding count_hit put
count_hit-next id m = ground arith

adjust_breakpoint-next :
    (id : ℕ) (setter : Setter) (m : BreakpointManager)
    → (adjust_breakpoint id setter m).next_id ≡ m.next_id
unfolding adjust_breakpoint put
adjust_breakpoint-next id setter m = ground arith

module _ (canonical : List ℕ → List ℕ → List ℕ) where
  should_break_at_pc-IsValid :
      (pc : ℕ) (info : Option DebugInfo) (vm : Vm) (m : BreakpointManager)
      → IsValid canonical m
      → IsValid canonical (should_break_at_pc canonical pc info vm m).0
  unfolding should_break_at_pc
  should_break_at_pc-IsValid pc info vm m v =
      elim (Option-cases (find_hit canonical pc m info vm)) [
        | inl e ↦ rw (e, should_break_at_pc) v
        | inr (id, e) ↦ rw (e, should_break_at_pc) (count_hit-IsValid canonical id m v)
      ]

  should_break_at_pc-next :
      (pc : ℕ) (info : Option DebugInfo) (vm : Vm) (m : BreakpointManager)
      → (should_break_at_pc canonical pc info vm m).0.next_id ≡ m.next_id
  unfolding should_break_at_pc
  should_break_at_pc-next pc info vm m = elim (Option-cases (find_hit canonical pc m info vm)) [
    | inl e ↦ rw (e, should_break_at_pc)
    | inr (id, e) ↦ rw (e, should_break_at_pc) (count_hit-next id m)
  ]

  add_at_line-next :
      (filename : List ℕ) (line : ℕ) (bp : Breakpoint) (m : BreakpointManager)
      → m.next_id + 1 < 2 ^ 64
      → (add_at_line canonical filename line bp m).0.next_id ≤ m.next_id + 1
  unfolding add_at_line advance_id put
  add_at_line-next filename line bp m bound =
      let r = resolve_breakpoint-Resolved canonical m.next_id (put m.next_id bp m) in
      let same : (resolve_breakpoint canonical m.next_id (put m.next_id bp m)).0.next_id
          ≡ m.next_id =
        r.next in
      elim (Bool-cases (is_empty (pcs_for canonical m.debug_info filename line))) [
        | inl empty ↦ rw empty (omega arith)
        | inr found ↦ rw found (omega arith)
      ]

  -- A call keeps the manager valid and uses at most one id.
  run_command-IsValid :
      (c : Command) (m : BreakpointManager)
      → IsValid canonical m
      → m.next_id + 1 < 2 ^ 64
      → IsValid canonical (run_command canonical c m)
        × ((run_command canonical c m).next_id ≤ m.next_id + 1)
  unfolding run_command advance_id put set_debug_info resolve_breakpoints remove_all_breakpoints
  run_command-IsValid (Command.add_line filename line) m v bound = (
    add_at_line-IsValid canonical _ m v filename line bound,
    add_at_line-next filename line _ m bound,
  )
  run_command-IsValid (Command.add_conditional filename line condition) m v bound = (
    add_at_line-IsValid canonical _ m v filename line bound,
    add_at_line-next filename line _ m bound,
  )
  run_command-IsValid (Command.add_temporary filename line) m v bound = (
    add_at_line-IsValid canonical _ m v filename line bound,
    add_at_line-next filename line _ m bound,
  )
  run_command-IsValid (Command.add_function name) m v bound =
      elim (Bool-cases (knows_function m.debug_info name)) [
        | inl found ↦
            rw (run_command, add_function_breakpoint, found)
              (
                put_new-IsValid canonical (new_breakpoint m.next_id (function_breakpoint name)) m v
                    (as_line_function name) bound,
                omega arith,
              )
        | inr unknown ↦ rw (run_command, add_function_breakpoint, unknown) (v, omega arith)
      ]
  run_command-IsValid (Command.add_data variable) m v bound = (
    put_new-IsValid canonical (new_breakpoint m.next_id (data_breakpoint variable [])) m v
        (as_line_data variable) bound,
    omega arith,
  )
  run_command-IsValid (Command.set_condition id condition) m v bound =
      rw (run_command, set_breakpoint_condition_fails id condition m) (v, omega arith)
  run_command-IsValid (Command.remove id) m v bound =
      (remove_breakpoint-IsValid canonical id m v, omega (arith, remove_breakpoint-next id m))
  run_command-IsValid Command.remove_all m v bound =
      (remove_all_breakpoints-IsValid canonical m v, omega arith)
  run_command-IsValid (Command.enable id) m v bound = (
    set_state-IsValid canonical BreakpointState.enabled id m v,
    omega (arith, set_state-next BreakpointState.enabled id m),
  )
  run_command-IsValid (Command.disable id) m v bound = (
    set_state-IsValid canonical BreakpointState.disabled id m v,
    omega (arith, set_state-next BreakpointState.disabled id m),
  )
  run_command-IsValid (Command.adjust id setter) m v bound = (
    adjust_breakpoint-IsValid canonical id setter m v,
    omega (arith, adjust_breakpoint-next id setter m),
  )
  run_command-IsValid (Command.resolve id) m v bound = (
    resolve_breakpoint-IsValid canonical id m v,
    omega (arith, (resolve_breakpoint-Resolved canonical id m).next),
  )
  run_command-IsValid Command.resolve_all m v bound = (
    resolve_breakpoints-IsValid canonical m v.known v.fresh v.sorted v.started,
    omega (arith, (resolve_each_keeps canonical (keys m.breakpoints) m).0),
  )
  run_command-IsValid (Command.replace_info info) m v bound = (
    set_debug_info-IsValid canonical info m v,
    omega (
      arith,
      (resolve_each_keeps canonical (keys m.breakpoints)
          (record m { debug_info = info; pc_to_breakpoints = [] })).0,
    ),
  )
  run_command-IsValid (Command.check_pc pc info vm) m v bound = (
    should_break_at_pc-IsValid pc info vm m v,
    omega (arith, should_break_at_pc-next pc info vm m),
  )

  -- From a valid manager, whatever calls are made, as long as a size_t counts their ids: the map leads
  -- from each pc to exactly the ids of the line and conditional breakpoints whose line the current debug
  -- information puts there, all of these at pcs that they have resolved to; ids not given out are not
  -- in use, and 0 is never given out.
  pub run_commands-IsValid :
      (cs : List Command) (m : BreakpointManager)
      → IsValid canonical m
      → m.next_id + length cs < 2 ^ 64
      → IsValid canonical (run_commands canonical cs m)
  unfolding run_commands
  run_commands-IsValid [] m v bound = v
  run_commands-IsValid (c ∷ cs) m v bound =
      let (v', next) = run_command-IsValid c m v (omega arith) in
      run_commands-IsValid cs (run_command canonical c m) v' (omega arith)

  -- The manager starts valid.
  pub new_manager-IsValid : (info : Option DebugInfo) → IsValid canonical (new_manager info)
  unfolding contains pcs_at lookup keys
  new_manager-IsValid info = record {
    known = λ id pc h. absurd (ground arith);
    exact = λ id pc. refl;
    fresh = λ id h. refl;
    sorted = tt;
    started = omega arith;
  }

-- ===== src/Debug/Hitting.antt =====
-- shouldBreakAtPC of src/debugger/breakpoint/breakpoint_manager.cpp and its map: which breakpoints stop
-- the machine.
use atomic_proof_interpreter.Prelude.{
  ℕ, ◌≡◌, ◌∙◌, refl, inl, inr, true, false, ◌&&◌, Option, none, some, List, Bool-cases,
  Option-cases, arith,
}
use atomic_proof_interpreter.Vm.Machine.{Vm, is_currently_executing}
use atomic_proof_interpreter.Debug.Maps.{lookup, contains}
use atomic_proof_interpreter.Debug.Info.{pcs_at}
use atomic_proof_interpreter.Debug.Breakpoint.{Breakpoint, should_break}
use atomic_proof_interpreter.Debug.Manager.{BreakpointManager}
use atomic_proof_interpreter.Debug.Hits.{
  stops, find_mapped, find_function, find_hit, should_break_at_pc,
}
use atomic_proof_interpreter.Debug.Validity.{IsValid}
use atomic_proof_interpreter.Debug.Active.{HasIndex, should_break_cases}
use atomic_proof_interpreter.Debug.Stops.{
  any_stops, lookup-any_stops, any_stops_cases, find_function-none, find_function-some,
  find_mapped-none, find_mapped-some,
}

module _ (canonical : List ℕ → List ℕ → List ℕ) (vm : Vm) (m : BreakpointManager) where
  stops-some :
      (o : Option Breakpoint) (bp : Breakpoint)
      → o ≡ some bp
      → stops canonical o m.debug_info vm ≡ should_break canonical bp m.debug_info vm
  unfolding stops
  stops-some o bp e = rw e

  nothing_missed :
      IsValid canonical m
      → HasIndex m.debug_info
      → find_mapped canonical (pcs_at vm.pc m.pc_to_breakpoints) m m.debug_info vm ≡ none
      → find_function canonical m.breakpoints m.debug_info vm ≡ none
      → any_stops canonical m.debug_info vm m.breakpoints ≡ false
  nothing_missed v w none_mapped no_function =
      elim (Bool-cases (any_stops canonical m.debug_info vm m.breakpoints)) [
        | inr nothing ↦ nothing
        | inl some_stop ↦
            let (id, bp, e, stop) =
              any_stops_cases canonical m.debug_info vm m.breakpoints v.sorted some_stop in
            absurd (elim (should_break_cases canonical bp m.debug_info vm w stop) [
              | inl f ↦
                  let no =
                    find_function-none canonical m.debug_info vm id bp m.breakpoints no_function e
                      f in
                  ground arith
              | inr at_pc ↦
                  let here : contains (pcs_at vm.pc m.pc_to_breakpoints) id ≡ true =
                    v.exact id vm.pc ∙ rw e at_pc in
                  let no =
                    find_mapped-none canonical m.debug_info vm id (pcs_at vm.pc m.pc_to_breakpoints)
                      m none_mapped here in
                  let same = stops-some (lookup id m.breakpoints) bp e in ground arith
            ])
      ]

  mapped_stops :
      (o : Option Breakpoint) (id : ℕ)
      → lookup id m.breakpoints ≡ o
      → stops canonical o m.debug_info vm ≡ true
      → any_stops canonical m.debug_info vm m.breakpoints ≡ true
  unfolding stops
  mapped_stops none id e h = ground arith
  mapped_stops (some bp) id e h = lookup-any_stops canonical m.debug_info vm id bp m.breakpoints e h

  -- While the machine executes and has the same debug information, whose line index is built, a valid
  -- manager stops it exactly where some breakpoint stops, whatever its kind: the map from pcs hides
  -- none and adds none. While it does not execute, it is not stopped.
  pub should_break_at_pc-any_stops :
      IsValid canonical m
      → HasIndex m.debug_info
      → (should_break_at_pc canonical vm.pc m.debug_info vm m).1
        ≡ (is_currently_executing vm && any_stops canonical m.debug_info vm m.breakpoints)
  unfolding should_break_at_pc find_hit
  should_break_at_pc-any_stops v w = elim (Bool-cases (is_currently_executing vm)) [
    | inr idle ↦ rw (should_break_at_pc, find_hit, idle)
    | inl running ↦
        elim (Option-cases
          (find_mapped canonical (pcs_at vm.pc m.pc_to_breakpoints) m m.debug_info vm)) [
            | inr (id, e) ↦ rw (
              should_break_at_pc,
              find_hit,
              running,
              e,
              mapped_stops (lookup id m.breakpoints) id refl (
                  find_mapped-some canonical m.debug_info vm id (pcs_at vm.pc m.pc_to_breakpoints) m
                    e),
            )
            | inl no_line ↦
                elim (Option-cases (find_function canonical m.breakpoints m.debug_info vm)) [
                  | inr (id, e) ↦ rw (
                    should_break_at_pc,
                    find_hit,
                    running,
                    no_line,
                    e,
                    find_function-some canonical m.debug_info vm id m.breakpoints e,
                  )
                  | inl no_function ↦ rw (
                    should_break_at_pc,
                    find_hit,
                    running,
                    no_line,
                    no_function,
                    nothing_missed v w no_line no_function,
                  )
                ]
          ]
  ]

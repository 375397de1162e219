-- ===== src/Debug/Setting.antt =====
-- A line breakpoint that is set by src/debugger/breakpoint/breakpoint_manager.cpp stops the machine.
use atomic_proof_interpreter.Prelude.{
  ℕ, ◌+◌, ◌^◌, ◌<◌, ◌≡◌, ◌∙◌, sym, subst, refl, Bool, true, false, ◌&&◌, Option, some, List, arith,
}
use atomic_proof_interpreter.Vm.Machine.{Vm, is_currently_executing}
use atomic_proof_interpreter.Debug.Maps.{
  lookup, contains, is_empty, lookup-insert, contains-is_empty,
}
use atomic_proof_interpreter.Debug.Info.{DebugInfo, sort_unique}
use atomic_proof_interpreter.Debug.Index.{contains-sort_unique}
use atomic_proof_interpreter.Debug.Breakpoint.{
  line_breakpoint, Breakpoint, new_breakpoint, new_target, with_resolved, is_enabled, is_armed,
  is_source_origin_active, line_should_break, should_break,
}
use atomic_proof_interpreter.Debug.Manager.{
  BreakpointManager, get_breakpoint, put, remove_pc_to_breakpoint_mapping,
  update_pc_to_breakpoint_mapping, pcs_for, resolve_line, resolve_by, resolve_breakpoint,
  advance_id, add_at_line, add_line_breakpoint,
}
use atomic_proof_interpreter.Debug.Hits.{should_break_at_pc}
use atomic_proof_interpreter.Debug.Validity.{IsValid, resolve_breakpoint-Resolved}
use atomic_proof_interpreter.Debug.Adding.{add_at_line-IsValid}
use atomic_proof_interpreter.Debug.Active.{HasIndex, active-wanted}
use atomic_proof_interpreter.Debug.Stops.{any_stops, lookup-any_stops}
use atomic_proof_interpreter.Debug.Hitting.{should_break_at_pc-any_stops}

-- A line breakpoint as it stands once it is resolved.
abbrev resolved_line : ℕ → List ℕ → ℕ → List ℕ → Breakpoint
resolved_line id filename line pcs =
    new_breakpoint id
      (line_breakpoint (record (new_target filename line) { resolved_pcs = sort_unique pcs }))

and_intro : {a b : Bool} → a ≡ true → b ≡ true → (a && b) ≡ true
and_intro h k = ground arith

module _ (canonical : List ℕ → List ℕ → List ℕ) where
  resolved_line-stops :
      (info : Option DebugInfo) (vm : Vm) (id : ℕ) (filename : List ℕ) (line : ℕ) (pcs : List ℕ)
      → contains pcs vm.pc ≡ true
      → is_source_origin_active canonical info vm filename line ≡ true
      → should_break canonical (resolved_line id filename line pcs) info vm ≡ true
  unfolding should_break line_should_break is_armed is_enabled
  resolved_line-stops info vm id filename line pcs at_pc active =
      rw (contains-sort_unique pcs vm.pc, at_pc) active

  module _ (filename : List ℕ) (line : ℕ) (m : BreakpointManager) where
    abbrev fresh_line : Breakpoint
    fresh_line = new_breakpoint m.next_id (line_breakpoint (new_target filename line))

    abbrev line_pcs : List ℕ
    line_pcs = pcs_for canonical m.debug_info filename line

    -- What resolving leaves under the id of a line breakpoint with pcs.
    resolve_line-lookup :
        (n : BreakpointManager) (pcs : List ℕ)
        → is_empty pcs ≡ false
        → lookup m.next_id (resolve_line canonical m.next_id fresh_line pcs n).0.breakpoints
          ≡ some (resolved_line m.next_id filename line pcs)
    unfolding resolve_line update_pc_to_breakpoint_mapping put with_resolved
    resolve_line-lookup n pcs found =
        rw (resolve_line, found)
          (ground (
            arith,
            lookup-insert m.next_id m.next_id (resolved_line m.next_id filename line pcs)
                n.breakpoints,
          ))

    lookup-resolve :
        is_empty line_pcs ≡ false
        → lookup m.next_id
            (resolve_breakpoint canonical m.next_id (put m.next_id fresh_line m)).0.breakpoints
          ≡ some (resolved_line m.next_id filename line line_pcs)
    unfolding resolve_breakpoint get_breakpoint put resolve_by remove_pc_to_breakpoint_mapping
    lookup-resolve found =
        let n = put m.next_id fresh_line m in
        let there : get_breakpoint m.next_id n ≡ some fresh_line =
          ground (arith, lookup-insert m.next_id m.next_id fresh_line m.breakpoints) in
        rw (resolve_breakpoint, there)
          (resolve_line-lookup (remove_pc_to_breakpoint_mapping m.next_id n) line_pcs found)

    added_lookup :
        is_empty line_pcs ≡ false
        → (lookup m.next_id (add_line_breakpoint canonical filename line m).0.breakpoints
            ≡ some (resolved_line m.next_id filename line line_pcs))
          × ((add_line_breakpoint canonical filename line m).1 ≡ m.next_id)
          × ((add_line_breakpoint canonical filename line m).0.debug_info ≡ m.debug_info)
    unfolding add_line_breakpoint add_at_line advance_id put
    added_lookup found =
        let r = resolve_breakpoint-Resolved canonical m.next_id (put m.next_id fresh_line m) in
        rw (add_line_breakpoint, add_at_line, found) (lookup-resolve found, refl, r.info)

    -- Setting a breakpoint at a line that is active on an executing machine, by a valid manager with
    -- the same debug information, whose line index is built, and an id left, gives an id other than 0,
    -- and the machine is stopped at once.
    pub add_line_breakpoint-stops :
        (vm : Vm)
        → IsValid canonical m
        → HasIndex m.debug_info
        → m.next_id + 1 < 2 ^ 64
        → is_currently_executing vm ≡ true
        → is_source_origin_active canonical m.debug_info vm filename line ≡ true
        → (0 < (add_line_breakpoint canonical filename line m).1)
          × ((should_break_at_pc canonical vm.pc m.debug_info vm
                (add_line_breakpoint canonical filename line m).0).1
              ≡ true)
    unfolding add_line_breakpoint
    add_line_breakpoint-stops vm v w bound running active =
        let at_pc = active-wanted canonical m.debug_info vm filename line w active in
        let found = contains-is_empty vm.pc line_pcs at_pc in
        let (there, id, info) = added_lookup found in
        let m' = (add_line_breakpoint canonical filename line m).0 in
        let v' : IsValid canonical m' =
          add_at_line-IsValid canonical fresh_line m v filename line bound in
        let stop =
          resolved_line-stops m.debug_info vm m.next_id filename line line_pcs at_pc active in
        let any =
          lookup-any_stops canonical m.debug_info vm m.next_id _ m'.breakpoints there stop in
        let hit = should_break_at_pc-any_stops canonical vm m' v' (subst HasIndex (sym info) w) in
        let stopped : (is_currently_executing vm
              && any_stops canonical m'.debug_info vm m'.breakpoints)
            ≡ true =
          and_intro running
            (subst (λ o. any_stops canonical o vm m'.breakpoints ≡ true) (sym info) any) in
        (
          rw id (omega arith),
          subst (λ o. (should_break_at_pc canonical vm.pc o vm m').1 ≡ true) info (hit ∙ stopped),
        )

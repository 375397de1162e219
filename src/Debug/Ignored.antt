-- ===== src/Debug/Ignored.antt =====
-- A breakpoint of src/debugger/breakpoint/breakpoint.cpp whose hits are to be ignored is never hit.
use atomic_proof_interpreter.Prelude.{
  ℕ, ◌<◌, ◌≡◌, ◌≢◌, ◌∙◌, sym, subst, refl, inl, inr, true, false, ◌&&◌, Option, none, some, List,
  [], ◌∷◌, ◌==◌, Bool-cases, Option-cases, arith,
}
use atomic_proof_interpreter.Vm.Machine.{Vm, is_currently_executing}
use atomic_proof_interpreter.Debug.Maps.{Dict, lookup, Ascending, Ascending-insert, lookup-insert}
use atomic_proof_interpreter.Debug.Info.{DebugInfo, pcs_at}
use atomic_proof_interpreter.Debug.Breakpoint.{
  Kind, line_breakpoint, function_breakpoint, conditional_breakpoint, data_breakpoint, Breakpoint,
  is_armed, line_should_break, function_should_break, should_break_by, should_break,
  increment_hit_count,
}
use atomic_proof_interpreter.Debug.Manager.{BreakpointManager, get_breakpoint, put}
use atomic_proof_interpreter.Debug.Hits.{
  is_function, count_hit, stops, find_mapped, find_function, find_hit, should_break_at_pc,
}
use atomic_proof_interpreter.Debug.Active.{and_right}
use atomic_proof_interpreter.Debug.Stops.{find_mapped-some, later_entry}

unarmed : (bp : Breakpoint) → bp.hit_count < bp.ignore_count → is_armed bp ≡ false
unfolding is_armed
unarmed bp h = ground arith

first_entry :
    (id j : ℕ) (bp : Breakpoint) (d : Dict Breakpoint) → j ≡ id → lookup id ((j, bp) ∷ d) ≡ some bp
unfolding lookup
first_entry id j bp d same = ground arith

module _ (canonical : List ℕ → List ℕ → List ℕ) where
  -- The machine stops at places in some order; at each the manager is asked.
  pub check_pcs : List (ℕ × Option DebugInfo × Vm) → BreakpointManager → BreakpointManager
  check_pcs [] m = m
  check_pcs ((pc, info, vm) ∷ rest) m = check_pcs rest (should_break_at_pc canonical pc info vm m).0

  ignored_by :
      (kind : Kind) (bp : Breakpoint) (info : Option DebugInfo) (vm : Vm)
      → is_armed bp ≡ false
      → should_break_by canonical kind bp info vm ≡ false
  unfolding should_break_by line_should_break function_should_break
  ignored_by (line_breakpoint t) bp info vm h = rw h
  ignored_by (function_breakpoint name) bp none vm h = refl
  ignored_by (function_breakpoint name) bp (some info) vm h = rw h
  ignored_by (conditional_breakpoint t condition) bp info vm h = rw h
  ignored_by (data_breakpoint variable last) bp info vm h = refl

  stops_by :
      (bp : Breakpoint) (info : Option DebugInfo) (vm : Vm)
      → should_break canonical bp info vm ≡ true
      → stops canonical (some bp) info vm ≡ true
  unfolding stops
  stops_by bp info vm h = h

  no_stop : (info : Option DebugInfo) (vm : Vm) → stops canonical none info vm ≢ true
  unfolding stops
  no_stop info vm h = ground arith

  found_first :
      (info : Option DebugInfo) (vm : Vm) (id j : ℕ) (bp : Breakpoint) (d : Dict Breakpoint)
      → (is_function bp.kind && should_break canonical bp info vm) ≡ true
      → find_function canonical ((j, bp) ∷ d) info vm ≡ some id
      → j ≡ id
  unfolding find_function
  found_first info vm id j bp d here e = let x = rw (find_function, here) at e in ground arith

  found_later :
      (info : Option DebugInfo) (vm : Vm) (id j : ℕ) (bp : Breakpoint) (d : Dict Breakpoint)
      → (is_function bp.kind && should_break canonical bp info vm) ≡ false
      → find_function canonical ((j, bp) ∷ d) info vm ≡ some id
      → find_function canonical d info vm ≡ some id
  unfolding find_function
  found_later info vm id j bp d further e = let x = rw (find_function, further) at e in x

  find_function-stops :
      (info : Option DebugInfo) (vm : Vm) (id : ℕ) (d : Dict Breakpoint)
      → Ascending d
      → find_function canonical d info vm ≡ some id
      → stops canonical (lookup id d) info vm ≡ true
  unfolding find_function
  find_function-stops info vm id [] s e = absurd (ground arith)
  find_function-stops info vm id ((j, bp) ∷ d) (above, s) e =
      elim (Bool-cases (is_function bp.kind && should_break canonical bp info vm)) [
        | inl here ↦
            subst (λ o. stops canonical o info vm ≡ true)
              (sym (first_entry id j bp d (found_first info vm id j bp d here e)))
              (stops_by bp info vm (and_right (is_function bp.kind) _ here))
        | inr further ↦
            let ih = find_function-stops info vm id d s (found_later info vm id j bp d further e) in
            elim (Option-cases (lookup id d)) [
              | inl missing ↦
                  absurd
                    (no_stop info vm (subst (λ o. stops canonical o info vm ≡ true) missing ih))
              | inr (found, there) ↦
                  subst (λ o. stops canonical o info vm ≡ true)
                    (there ∙ sym (later_entry id j bp found d above there)) ih
            ]
      ]

  -- Whatever is found, its breakpoint stops.
  find_hit-stops :
      (pc : ℕ) (info : Option DebugInfo) (vm : Vm) (m : BreakpointManager) (id : ℕ)
      → Ascending m.breakpoints
      → find_hit canonical pc m info vm ≡ some id
      → stops canonical (lookup id m.breakpoints) info vm ≡ true
  unfolding find_hit
  find_hit-stops pc info vm m id s e = elim (Bool-cases (is_currently_executing vm)) [
    | inr idle ↦ absurd (let x = rw (find_hit, idle) at e in ground arith)
    | inl running ↦
        elim (Option-cases (find_mapped canonical (pcs_at pc m.pc_to_breakpoints) m info vm)) [
          | inr (j, mapped) ↦
              let x = rw (find_hit, running, mapped) at e in
              find_mapped-some canonical info vm id (pcs_at pc m.pc_to_breakpoints) m (mapped ∙ x)
          | inl no_line ↦
              let x = rw (find_hit, running, no_line) at e in
              find_function-stops info vm id m.breakpoints s x
        ]
  ]

  other_hit :
      (bp : Breakpoint) (info : Option DebugInfo) (vm : Vm) (m : BreakpointManager) (id j : ℕ)
      → lookup id m.breakpoints ≡ some bp
      → is_armed bp ≡ false
      → stops canonical (lookup j m.breakpoints) info vm ≡ true
      → (j == id) ≡ false
  unfolding stops should_break
  other_hit bp info vm m id j there unarmed_ stop = elim (Bool-cases (j == id)) [
    | inr other ↦ other
    | inl here ↦
        let same : j ≡ id = ground arith in
        let x = subst (λ k. stops canonical (lookup k m.breakpoints) info vm ≡ true) same stop in
        let y = subst (λ o. stops canonical o info vm ≡ true) there x in
        absurd (let z = ignored_by bp.kind bp info vm unarmed_ in cc)
  ]

  count_hit_other :
      (m : BreakpointManager) (id j : ℕ)
      → (j == id) ≡ false
      → Ascending m.breakpoints
      → (lookup id (count_hit j m).breakpoints ≡ lookup id m.breakpoints)
        × Ascending (count_hit j m).breakpoints
  unfolding count_hit get_breakpoint put
  count_hit_other m id j other s = elim (Option-cases (lookup j m.breakpoints)) [
    | inl e ↦ rw (count_hit, get_breakpoint, e) (refl, s)
    | inr (bp, e) ↦
        rw (count_hit, get_breakpoint, e)
          (
            ground (arith, lookup-insert j id (increment_hit_count bp) m.breakpoints),
            Ascending-insert j (increment_hit_count bp) m.breakpoints s,
          )
  ]

  check_pc_ignored :
      (pc : ℕ) (info : Option DebugInfo) (vm : Vm) (m : BreakpointManager) (id : ℕ)
      (bp : Breakpoint)
      → Ascending m.breakpoints
      → lookup id m.breakpoints ≡ some bp
      → is_armed bp ≡ false
      → (lookup id (should_break_at_pc canonical pc info vm m).0.breakpoints ≡ some bp)
        × Ascending (should_break_at_pc canonical pc info vm m).0.breakpoints
  unfolding should_break_at_pc
  check_pc_ignored pc info vm m id bp s there unarmed_ =
      elim (Option-cases (find_hit canonical pc m info vm)) [
        | inl e ↦ rw (should_break_at_pc, e) (there, s)
        | inr (j, e) ↦
            let other =
              other_hit bp info vm m id j there unarmed_ (find_hit-stops pc info vm m j s e) in
            let (kept, s') = count_hit_other m id j other s in
            rw (should_break_at_pc, e) (kept ∙ there, s')
      ]

  -- In a manager with its ids in order, a breakpoint with fewer hits than are to be ignored is never
  -- hit, however often and wherever the machine is checked: it stays as it is and never stops.
  pub check_pcs-ignored :
      (checks : List (ℕ × Option DebugInfo × Vm)) (m : BreakpointManager) (id : ℕ) (bp : Breakpoint)
      → Ascending m.breakpoints
      → lookup id m.breakpoints ≡ some bp
      → bp.hit_count < bp.ignore_count
      → (lookup id (check_pcs checks m).breakpoints ≡ some bp)
        × ((info : Option DebugInfo) (vm : Vm) → should_break canonical bp info vm ≡ false)
  unfolding check_pcs should_break
  check_pcs-ignored [] m id bp s there few =
      (there, λ info vm. ignored_by bp.kind bp info vm (unarmed bp few))
  check_pcs-ignored ((pc, info, vm) ∷ checks) m id bp s there few =
      let (there', s') = check_pc_ignored pc info vm m id bp s there (unarmed bp few) in
      check_pcs-ignored checks (should_break_at_pc canonical pc info vm m).0 id bp s' there' few

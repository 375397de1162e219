-- ===== src/Debug/Active.antt =====
-- Where isSourceOriginActive of src/debugger/vm/bvm_simulator.cpp holds, the line index has the pc.
use atomic_proof_interpreter.Prelude.{
  ℕ, ◌<◌, ◌≡◌, ◌⊎◌, refl, inl, inr, Bool, true, ◌&&◌, Option, none, some, List, [], ◌∷◌, Bool-cases,
  arith,
}
use atomic_proof_interpreter.Vm.Machine.{BranchTrace, Vm}
use atomic_proof_interpreter.Debug.Maps.{contains, is_empty}
use atomic_proof_interpreter.Debug.Info.{SourceOrigin, DebugInfo, is_valid, get_origins_for_pc}
use atomic_proof_interpreter.Debug.Lookup.{
  any_origin, is_on_line, is_active_on_line, has_active_source_origin, normalize_source_filename,
  get_pcs_for_source_line,
}
use atomic_proof_interpreter.Debug.Lines.{IsIndexed, get_pcs_for_source_line-exact}
use atomic_proof_interpreter.Debug.Breakpoint.{
  LineTarget, Kind, line_breakpoint, function_breakpoint, conditional_breakpoint, data_breakpoint,
  Breakpoint, as_line, get_active_branch_trace, is_armed, is_source_origin_active,
  line_should_break, should_break_by, should_break,
}
use atomic_proof_interpreter.Debug.Manager.{pcs_for}
use atomic_proof_interpreter.Debug.Hits.{is_function}
use atomic_proof_interpreter.Debug.Resolve.{wanted_of}

-- Debug information, where there is any, has its line index built.
abbrev pub HasIndex : Option DebugInfo → Type 0
HasIndex none = Unit {0}
HasIndex (some info) = IsIndexed info

pub and_right : (a b : Bool) → (a && b) ≡ true → b ≡ true
and_right a b h = ground arith

and_assoc : (a b c : Bool) → (a && (b && c)) ≡ true → ((a && b) && c) ≡ true
and_assoc a b c h = ground arith

module _ (canonical : List ℕ → List ℕ → List ℕ) where
  -- An active origin has a line, and is on it.
  active→on_line :
      (info : DebugInfo) (requested : List ℕ) (line : ℕ) (trace : BranchTrace)
      (os : List SourceOrigin)
      → any_origin (is_active_on_line canonical info requested line trace) os ≡ true
      → (0 < line) × (any_origin (is_on_line canonical info requested line) os ≡ true)
  unfolding any_origin is_active_on_line is_on_line is_valid
  active→on_line info requested line trace [] h = absurd (ground arith)
  active→on_line info requested line trace (o ∷ os) h =
      elim (Bool-cases (is_active_on_line canonical info requested line trace o)) [
        | inl here ↦ (ground arith, ground arith)
        | inr further ↦
            let (a, b) = active→on_line info requested line trace os (ground arith) in
            (a, ground arith)
      ]

  -- Where a line is active, its pc is among the line's pcs.
  pub active-contains :
      (info : DebugInfo) (pc : ℕ) (filename : List ℕ) (line : ℕ) (trace : BranchTrace)
      → IsIndexed info
      → has_active_source_origin canonical info pc filename line trace ≡ true
      → contains (get_pcs_for_source_line canonical info filename line) pc ≡ true
  unfolding has_active_source_origin
  active-contains info pc filename line trace w h =
      let requested = normalize_source_filename canonical filename info.source_filename in
      elim (Bool-cases (is_empty requested)) [
        | inl empty ↦ absurd (ground arith)
        | inr named ↦
            let (a, b) =
              active→on_line info requested line trace (get_origins_for_pc info pc)
                (ground arith) in
            ground (arith, get_pcs_for_source_line-exact canonical info filename line pc w a)
      ]

  line_break_active :
      (bp : Breakpoint) (t : LineTarget) (info : Option DebugInfo) (vm : Vm)
      → line_should_break canonical bp t info vm ≡ true
      → is_source_origin_active canonical info vm t.filename t.line ≡ true
  unfolding line_should_break
  line_break_active bp t info vm h =
      and_right (is_armed bp && contains t.resolved_pcs vm.pc) _ (and_assoc (is_armed bp) _ _ h)

  -- Where a line is active on the machine, its pcs have the machine's.
  pub active-wanted :
      (info : Option DebugInfo) (vm : Vm) (filename : List ℕ) (line : ℕ)
      → HasIndex info
      → is_source_origin_active canonical info vm filename line ≡ true
      → contains (pcs_for canonical info filename line) vm.pc ≡ true
  unfolding is_source_origin_active pcs_for
  active-wanted none vm filename line w h = absurd (ground arith)
  active-wanted (some info) vm filename line w h =
      active-contains info vm.pc filename line (get_active_branch_trace vm) w h

  line-wanted :
      (bp : Breakpoint) (t : LineTarget) (info : Option DebugInfo) (vm : Vm)
      → HasIndex info
      → line_should_break canonical bp t info vm ≡ true
      → wanted_of canonical info (some t) vm.pc ≡ true
  line-wanted bp t info vm w h =
      active-wanted info vm t.filename t.line w (line_break_active bp t info vm h)

  -- A breakpoint that stops is for a function, or the debug information has the pc for its line.
  stop_cases :
      (kind : Kind) (bp : Breakpoint) (info : Option DebugInfo) (vm : Vm)
      → HasIndex info
      → should_break_by canonical kind bp info vm ≡ true
      → (is_function kind ≡ true) ⊎ (wanted_of canonical info (as_line kind) vm.pc ≡ true)
  unfolding should_break_by is_function as_line
  stop_cases (line_breakpoint t) bp info vm w h = inr (line-wanted bp t info vm w h)
  stop_cases (function_breakpoint name) bp info vm w h = inl refl
  stop_cases (conditional_breakpoint t condition) bp info vm w h =
      inr (line-wanted bp t info vm w h)
  stop_cases (data_breakpoint variable last) bp info vm w h = absurd (ground arith)

  pub should_break_cases :
      (bp : Breakpoint) (info : Option DebugInfo) (vm : Vm)
      → HasIndex info
      → should_break canonical bp info vm ≡ true
      → (is_function bp.kind ≡ true) ⊎ (wanted_of canonical info (as_line bp.kind) vm.pc ≡ true)
  unfolding should_break
  should_break_cases bp info vm w h = stop_cases bp.kind bp info vm w h

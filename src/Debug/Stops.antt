-- ===== src/Debug/Stops.antt =====
-- The breakpoints of src/debugger/breakpoint/breakpoint_manager.cpp that stop, in the map and in order.
use atomic_proof_interpreter.Prelude.{
  ℕ, ◌≡◌, sym, inl, inr, Bool, true, false, ◌||◌, Option, none, some, List, [], ◌∷◌, ◌==◌,
  Bool-cases, arith,
}
use atomic_proof_interpreter.Vm.Machine.{Vm}
use atomic_proof_interpreter.Debug.Maps.{Dict, lookup, contains, Above, Ascending, Above-lookup}
use atomic_proof_interpreter.Debug.Info.{DebugInfo}
use atomic_proof_interpreter.Debug.Breakpoint.{Breakpoint, should_break}
use atomic_proof_interpreter.Debug.Manager.{BreakpointManager, get_breakpoint}
use atomic_proof_interpreter.Debug.Hits.{is_function, stops, find_mapped, find_function}

head_eq :
    (id j : ℕ) (bp other : Breakpoint) (d : Dict Breakpoint)
    → (j == id) ≡ true
    → lookup id ((j, other) ∷ d) ≡ some bp
    → other ≡ bp
unfolding lookup
head_eq id j bp other d here e = ground arith

-- Keys rise, so an entry further on has another key.
pub later_entry :
    (id j : ℕ) (bp found : Breakpoint) (d : Dict Breakpoint)
    → Above j d
    → lookup id d ≡ some found
    → lookup id ((j, bp) ∷ d) ≡ some found
unfolding lookup
later_entry id j bp found d above e = elim (Bool-cases (j == id)) [
  | inl here ↦
      let same : j ≡ id = ground arith in
      absurd (let x : lookup id d ≡ none = rw (sym same) (Above-lookup j d above) in ground arith)
  | inr other ↦ rw other e
]

module _ (canonical : List ℕ → List ℕ → List ℕ) where
  module _ (info : Option DebugInfo) (vm : Vm) where
    -- Some breakpoint stops: the answer without the map.
    unfoldable pub any_stops : Dict Breakpoint → Bool
    unfolding should_break
    any_stops [] = false
    any_stops ((id, bp) ∷ d) = should_break canonical bp info vm || any_stops d

    pub lookup-any_stops :
        (id : ℕ) (bp : Breakpoint) (d : Dict Breakpoint)
        → lookup id d ≡ some bp
        → should_break canonical bp info vm ≡ true
        → any_stops d ≡ true
    unfolding any_stops lookup
    lookup-any_stops id bp [] e h = ground arith
    lookup-any_stops id bp ((j, other) ∷ d) e h = elim (Bool-cases (j == id)) [
      | inl here ↦ rw (head_eq id j bp other d here e, h)
      | inr further ↦ ground (arith, lookup-any_stops id bp d (let x = rw further at e in x) h)
    ]

    pub any_stops_cases :
        (d : Dict Breakpoint)
        → Ascending d
        → any_stops d ≡ true
        → (id : ℕ) × (bp : Breakpoint) × (lookup id d ≡ some bp)
          × (should_break canonical bp info vm ≡ true)
    unfolding any_stops lookup
    any_stops_cases [] s h = absurd (ground arith)
    any_stops_cases ((j, bp) ∷ d) (above, s) h =
        elim (Bool-cases (should_break canonical bp info vm)) [
          | inl here ↦ (j, bp, ground arith, here)
          | inr further ↦
              let (id, found, e, stop) = any_stops_cases d s (ground arith) in
              (id, found, later_entry id j bp found d above e, stop)
        ]

    head_function :
        (id j : ℕ) (bp : Breakpoint) (d : Dict Breakpoint)
        → find_function canonical ((j, bp) ∷ d) info vm ≡ none
        → is_function bp.kind ≡ true
        → should_break canonical bp info vm ≡ false
    unfolding find_function
    head_function id j bp d e f = elim (Bool-cases (should_break canonical bp info vm)) [
      | inl stop ↦ absurd (let x = rw (find_function, f, stop) at e in ground arith)
      | inr no_stop ↦ no_stop
    ]

    tail_function :
        (j : ℕ) (bp : Breakpoint) (d : Dict Breakpoint)
        → find_function canonical ((j, bp) ∷ d) info vm ≡ none
        → find_function canonical d info vm ≡ none
    unfolding find_function
    tail_function j bp d e = ground arith

    pub find_function-none :
        (id : ℕ) (bp : Breakpoint) (d : Dict Breakpoint)
        → find_function canonical d info vm ≡ none
        → lookup id d ≡ some bp
        → is_function bp.kind ≡ true
        → should_break canonical bp info vm ≡ false
    unfolding find_function lookup
    find_function-none id bp [] e there f = ground arith
    find_function-none id bp ((j, other) ∷ d) e there f = elim (Bool-cases (j == id)) [
      | inl here ↦
          let same = head_eq id j bp other d here there in
          head_function id j bp d (let x = rw same at e in x) f
      | inr further ↦
          find_function-none id bp d (tail_function j other d e) (let x = rw further at there in x)
            f
    ]

    pub find_function-some :
        (id : ℕ) (d : Dict Breakpoint)
        → find_function canonical d info vm ≡ some id
        → any_stops d ≡ true
    unfolding find_function any_stops
    find_function-some id [] e = ground arith
    find_function-some id ((j, bp) ∷ d) e = ground (arith, find_function-some id d)

    pub find_mapped-none :
        (id : ℕ) (ids : List ℕ) (m : BreakpointManager)
        → find_mapped canonical ids m info vm ≡ none
        → contains ids id ≡ true
        → stops canonical (lookup id m.breakpoints) info vm ≡ false
    unfolding find_mapped contains get_breakpoint
    find_mapped-none id [] m e h = ground arith
    find_mapped-none id (j ∷ ids) m e h = elim (Bool-cases (j == id)) [
      | inl here ↦ let same : j ≡ id = ground arith in rw (sym same) (ground arith)
      | inr further ↦ ground (arith, find_mapped-none id ids m)
    ]

    pub find_mapped-some :
        (id : ℕ) (ids : List ℕ) (m : BreakpointManager)
        → find_mapped canonical ids m info vm ≡ some id
        → stops canonical (lookup id m.breakpoints) info vm ≡ true
    unfolding find_mapped get_breakpoint
    find_mapped-some id [] m e = ground arith
    find_mapped-some id (j ∷ ids) m e =
        elim (Bool-cases (stops canonical (lookup j m.breakpoints) info vm)) [
          | inl here ↦ let same : j ≡ id = ground arith in rw (sym same) here
          | inr further ↦ find_mapped-some id ids m (ground arith)
        ]

-- ===== src/Debug/Invariant.antt =====
-- Every operation of the manager of src/debugger/breakpoint/breakpoint_manager.cpp keeps it valid.
use atomic_proof_interpreter.Prelude.{
  ℕ, ◌≤◌, ◌≡◌, ◌⊎◌, ◌∙◌, sym, ap, refl, inl, inr, true, false, Option, none, some, List, [], ◌∷◌,
  ◌==◌, Bool-cases, arith,
}
use atomic_proof_interpreter.Debug.Maps.{
  Dict, lookup, insert, contains, keys, Ascending, Ascending-insert, lookup-insert,
}
use atomic_proof_interpreter.Debug.Info.{DebugInfo, pcs_at}
use atomic_proof_interpreter.Debug.Breakpoint.{LineTarget, Breakpoint, as_line}
use atomic_proof_interpreter.Debug.Manager.{
  BreakpointManager, put, target_pcs, resolved_of, remove_all_breakpoints, resolve_breakpoint,
  resolve_each, resolve_breakpoints, set_debug_info,
}
use atomic_proof_interpreter.Debug.Resolve.{target_of, wanted_of, ExactAt}
use atomic_proof_interpreter.Debug.Validity.{
  IsValid, absent-ExactAt, resolve_breakpoint-Resolved, AllKnown, resolve-AllKnown, resolve-ExactAt,
  resolve_look_none,
}

keys-lookup : (id : ℕ) (d : Dict Breakpoint) → contains (keys d) id ≡ false → lookup id d ≡ none
unfolding contains keys lookup
keys-lookup id [] h = refl
keys-lookup id ((j, bp) ∷ d) h = ground (arith, keys-lookup id d)

target-insert :
    (id j : ℕ) (bp bp' : Breakpoint) (d : Dict Breakpoint)
    → lookup id d ≡ some bp
    → as_line bp'.kind ≡ as_line bp.kind
    → target_of (lookup j (insert id bp' d)) ≡ target_of (lookup j d)
target-insert id j bp bp' d there same = elim (Bool-cases (id == j)) [
  | inl here ↦
      let eq : id ≡ j = ground arith in
      let there' : lookup j d ≡ some bp = rw (sym eq) there in
      let set : lookup j (insert id bp' d) ≡ some bp' = ground (arith, lookup-insert id j bp' d) in
      rw (set, there') same
  | inr other ↦
      let kept : lookup j (insert id bp' d) ≡ lookup j d =
        ground (arith, lookup-insert id j bp' d) in
      rw kept
]

resolved-target : (o : Option Breakpoint) → resolved_of o ≡ target_pcs (target_of o)
unfolding resolved_of
resolved-target none = refl
resolved-target (some bp) = refl

module _ (canonical : List ℕ → List ℕ → List ℕ) where
  resolve_each-AllKnown :
      (ids : List ℕ) (m : BreakpointManager)
      → AllKnown canonical m
      → AllKnown canonical (resolve_each canonical ids m)
  unfolding resolve_each
  resolve_each-AllKnown [] m known = known
  resolve_each-AllKnown (id ∷ ids) m known =
      resolve_each-AllKnown ids (resolve_breakpoint canonical id m).0
        (resolve-AllKnown canonical id m known)

  resolve_each-ExactAt :
      (ids : List ℕ) (m : BreakpointManager) (j : ℕ)
      → AllKnown canonical m
      → (contains ids j ≡ true) ⊎ ExactAt canonical m j
      → ExactAt canonical (resolve_each canonical ids m) j
  unfolding resolve_each contains
  resolve_each-ExactAt [] m j known (inl h) = absurd (ground arith)
  resolve_each-ExactAt [] m j known (inr exact) = exact
  resolve_each-ExactAt (id ∷ ids) m j known h =
      resolve_each-ExactAt ids (resolve_breakpoint canonical id m).0 j
        (resolve-AllKnown canonical id m known)
        (elim (Bool-cases (contains ids j)) [
          | inl later ↦ inl later
          | inr not_later ↦ inr (
              resolve-ExactAt canonical id m j (known id)
                (elim h [ inl there ↦ inl (ground arith) | inr exact ↦ inr exact ]))
        ])

  pub resolve_each_keeps :
      (ids : List ℕ) (m : BreakpointManager)
      → ((resolve_each canonical ids m).next_id ≡ m.next_id)
        × ((j : ℕ)
            → lookup j m.breakpoints ≡ none
            → lookup j (resolve_each canonical ids m).breakpoints ≡ none)
        × (Ascending m.breakpoints → Ascending (resolve_each canonical ids m).breakpoints)
  unfolding resolve_each
  resolve_each_keeps [] m = (refl, λ j h. h, λ s. s)
  resolve_each_keeps (id ∷ ids) m =
      let r = resolve_breakpoint-Resolved canonical id m in
      let (next, look, sorted) = resolve_each_keeps ids (resolve_breakpoint canonical id m).0 in
      (
        next ∙ r.next,
        λ j h. look j (resolve_look_none canonical id j m h),
        λ s. sorted (r.sorted s),
      )

  -- Resolving all breakpoints makes every id exact that is known.
  pub resolve_breakpoints-IsValid :
      (m : BreakpointManager)
      → AllKnown canonical m
      → ((j : ℕ) → m.next_id ≤ j → lookup j m.breakpoints ≡ none)
      → Ascending m.breakpoints
      → 1 ≤ m.next_id
      → IsValid canonical (resolve_breakpoints canonical m)
  unfolding resolve_breakpoints
  resolve_breakpoints-IsValid m known fresh sorted started =
      let (next, look, sorted') = resolve_each_keeps (keys m.breakpoints) m in
      record {
        known = resolve_each-AllKnown (keys m.breakpoints) m known;
        exact = λ j.
            resolve_each-ExactAt (keys m.breakpoints) m j known
              (elim (Bool-cases (contains (keys m.breakpoints) j)) [
                | inl there ↦ inl there
                | inr absent ↦
                    inr
                      (absent-ExactAt canonical m j (keys-lookup j m.breakpoints absent) (known j))
              ]);
        fresh = λ j h. look j (fresh j (rw (sym next) h));
        sorted = sorted' sorted;
        started = rw next started;
      }

  pub set_debug_info-IsValid :
      (info : Option DebugInfo) (m : BreakpointManager)
      → IsValid canonical m
      → IsValid canonical (set_debug_info canonical info m)
  unfolding set_debug_info pcs_at lookup contains
  set_debug_info-IsValid info m v =
      resolve_breakpoints-IsValid (record m { debug_info = info; pc_to_breakpoints = [] })
        (λ id pc h. absurd (ground arith)) v.fresh v.sorted v.started

  -- Another breakpoint under an id, with the same line, changes nothing for the map.
  pub put-IsValid :
      (id : ℕ) (bp bp' : Breakpoint) (m : BreakpointManager)
      → lookup id m.breakpoints ≡ some bp
      → as_line bp'.kind ≡ as_line bp.kind
      → IsValid canonical m
      → IsValid canonical (put id bp' m)
  unfolding put resolved_of
  put-IsValid id bp bp' m there same v =
      let target = λ (j : ℕ). target-insert id j bp bp' m.breakpoints there same in
      record {
        known = λ j pc h.
            rw (resolved-target (lookup j (insert id bp' m.breakpoints)), target j)
              (sym (
                  ap (λ (pcs : List ℕ). contains pcs pc) (resolved-target (lookup j m.breakpoints)))
                ∙ v.known j pc h);
        exact = λ j pc.
            v.exact j pc
            ∙ sym
                (ap (λ (t : Option LineTarget). wanted_of canonical m.debug_info t pc) (target j));
        fresh = λ j h. ground (arith, lookup-insert id j bp' m.breakpoints, v.fresh j);
        sorted = Ascending-insert id bp' m.breakpoints v.sorted;
        started = v.started;
      }

  pub remove_all_breakpoints-IsValid :
      (m : BreakpointManager) → IsValid canonical m → IsValid canonical (remove_all_breakpoints m)
  unfolding remove_all_breakpoints pcs_at lookup contains keys
  remove_all_breakpoints-IsValid m v = record {
    known = λ id pc h. absurd (ground arith);
    exact = λ id pc. refl;
    fresh = λ id h. refl;
    sorted = tt;
    started = v.started;
  }

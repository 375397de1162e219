-- ===== src/Debug/Adding.antt =====
-- Adding breakpoints in src/debugger/breakpoint/breakpoint_manager.cpp.
use atomic_proof_interpreter.Prelude.{
  ℕ, ◌+◌, ◌%◌, ◌^◌, ◌<◌, ◌≤◌, ◌≡◌, ◌⊎◌, ◌∙◌, sym, ap, subst, inl, inr, false, Option, none, some,
  List, ◌==◌, Bool-cases, arith,
}
use atomic_proof_interpreter.Debug.Maps.{lookup, insert, is_empty, Ascending-insert, lookup-insert}
use atomic_proof_interpreter.Debug.Breakpoint.{Breakpoint, as_line}
use atomic_proof_interpreter.Debug.Manager.{
  BreakpointManager, put, advance_id, pcs_for, resolve_breakpoint, add_at_line,
}
use atomic_proof_interpreter.Debug.Mapping.{has_id}
use atomic_proof_interpreter.Debug.Resolve.{target_of, wanted_of, ExactAt}
use atomic_proof_interpreter.Debug.Validity.{
  IsValid, resolve_breakpoint-Resolved, AllKnown, resolve-AllKnown, resolve-ExactAt,
  resolve_look_none,
}

module _ (canonical : List ℕ → List ℕ → List ℕ) where
  -- A new breakpoint under the next id: what is kept, and the new id is nowhere in the map.
  module _ (bp : Breakpoint) (m : BreakpointManager) (v : IsValid canonical m) where
    new_nowhere : (pc : ℕ) → has_id m.pc_to_breakpoints pc m.next_id ≡ false
    new_nowhere pc =
        let e : lookup m.next_id m.breakpoints ≡ none = v.fresh m.next_id (omega arith) in
        v.exact m.next_id pc
        ∙ ap (λ (o : Option Breakpoint). wanted_of canonical m.debug_info (target_of o) pc) e

    new_look :
        (j : ℕ)
        → (m.next_id == j) ≡ false
        → lookup j (insert m.next_id bp m.breakpoints) ≡ lookup j m.breakpoints
    new_look j other = ground (arith, lookup-insert m.next_id j bp m.breakpoints)

    put_new-AllKnown : AllKnown canonical (put m.next_id bp m)
    unfolding put
    put_new-AllKnown = λ j pc h. elim (Bool-cases (m.next_id == j)) [
      | inl here ↦ absurd (
          let same : m.next_id ≡ j = ground arith in
          let nowhere =
            subst (λ k. has_id m.pc_to_breakpoints pc k ≡ false) same (new_nowhere pc) in
          ground arith)
      | inr other ↦ rw (new_look j other) (v.known j pc h)
    ]

    put_new-ExactAt :
        (j : ℕ)
        → (as_line bp.kind ≡ none) ⊎ ((m.next_id == j) ≡ false)
        → ExactAt canonical (put m.next_id bp m) j
    unfolding put
    put_new-ExactAt j h = λ pc. elim (Bool-cases (m.next_id == j)) [
      | inl here ↦
          let there : lookup j (insert m.next_id bp m.breakpoints) ≡ some bp =
            ground (arith, lookup-insert m.next_id j bp m.breakpoints) in
          let same : m.next_id ≡ j = ground arith in
          rw there (elim h [
            | inl e ↦
                rw e (subst (λ k. has_id m.pc_to_breakpoints pc k ≡ false) same (new_nowhere pc))
            | inr other ↦ absurd (ground arith)
          ])
      | inr other ↦
          v.exact j pc
          ∙ sym (
              ap (λ (o : Option Breakpoint). wanted_of canonical m.debug_info (target_of o) pc)
                (new_look j other))
    ]

    put_new_fresh : (j : ℕ) → m.next_id + 1 ≤ j → lookup j (put m.next_id bp m).breakpoints ≡ none
    unfolding put
    put_new_fresh j h = new_look j (ground arith) ∙ v.fresh j (omega arith)

    advance_id-next : m.next_id + 1 < 2 ^ 64 → (m.next_id + 1) % 2 ^ 64 ≡ m.next_id + 1
    advance_id-next h = omega arith

    -- A breakpoint that is no line breakpoint is only put in place.
    pub put_new-IsValid :
        as_line bp.kind ≡ none
        → m.next_id + 1 < 2 ^ 64
        → IsValid canonical (advance_id (put m.next_id bp m))
    unfolding advance_id put
    put_new-IsValid e bound =
        let next = advance_id-next bound in
        record {
          known = put_new-AllKnown;
          exact = λ j. put_new-ExactAt j (inl e);
          fresh = λ j h. put_new_fresh j (rw (sym next) h);
          sorted = Ascending-insert m.next_id bp m.breakpoints v.sorted;
          started = rw next (omega arith);
        }

    -- A line breakpoint is resolved too.
    resolved-IsValid :
        m.next_id + 1 < 2 ^ 64
        → IsValid canonical
            (advance_id (resolve_breakpoint canonical m.next_id (put m.next_id bp m)).0)
    unfolding advance_id put
    resolved-IsValid bound =
        let n = put m.next_id bp m in
        let r = resolve_breakpoint-Resolved canonical m.next_id n in
        let same : (resolve_breakpoint canonical m.next_id n).0.next_id ≡ m.next_id = r.next in
        record {
          known = resolve-AllKnown canonical m.next_id n put_new-AllKnown;
          exact = λ j.
              resolve-ExactAt canonical m.next_id n j (put_new-AllKnown m.next_id)
                (elim (Bool-cases (m.next_id == j)) [
                  | inl here ↦ inl here
                  | inr other ↦ inr (put_new-ExactAt j (inr other))
                ]);
          fresh = λ j h. resolve_look_none canonical m.next_id j n (put_new_fresh j (omega arith));
          sorted = r.sorted (Ascending-insert m.next_id bp m.breakpoints v.sorted);
          started = omega arith;
        }

    pub add_at_line-IsValid :
        (filename : List ℕ) (line : ℕ)
        → m.next_id + 1 < 2 ^ 64
        → IsValid canonical (add_at_line canonical filename line bp m).0
    unfolding add_at_line
    add_at_line-IsValid filename line bound =
        elim (Bool-cases (is_empty (pcs_for canonical m.debug_info filename line))) [
          | inl empty ↦ rw empty v
          | inr found ↦ rw found (resolved-IsValid bound)
        ]

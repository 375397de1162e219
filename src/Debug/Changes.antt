-- ===== src/Debug/Changes.antt =====
-- Conditions, states, hits and removal of src/debugger/breakpoint/breakpoint_manager.cpp.
use atomic_proof_interpreter.Prelude.{
  ℕ, ◌≡◌, ◌∙◌, sym, ap, subst, refl, inl, inr, true, false, Option, none, List, ◌==◌, Bool-cases,
  Option-cases, arith,
}
use atomic_proof_interpreter.Debug.Maps.{Dict, lookup, erase, Ascending-erase, lookup-erase}
use atomic_proof_interpreter.Debug.Breakpoint.{
  BreakpointState, Kind, line_breakpoint, function_breakpoint, conditional_breakpoint,
  data_breakpoint, Breakpoint, as_line, increment_hit_count, Setter, hits_reset, hits_ignored,
  temporary, apply_setter,
}
use atomic_proof_interpreter.Debug.Manager.{
  BreakpointManager, get_breakpoint, remove_pc_to_breakpoint_mapping, remove_breakpoint, set_state,
  condition_of, set_breakpoint_condition,
}
use atomic_proof_interpreter.Debug.Hits.{count_hit, adjust_breakpoint}
use atomic_proof_interpreter.Debug.Mapping.{has_id}
use atomic_proof_interpreter.Debug.Resolve.{
  target_of, KnownAt, wanted_of, removed_mapping, removed_mapping_other,
}
use atomic_proof_interpreter.Debug.Validity.{IsValid}
use atomic_proof_interpreter.Debug.Invariant.{put-IsValid}

-- The condition of a breakpoint is never replaced.
condition_of-none : (kind : Kind) (condition : List ℕ) → condition_of kind condition ≡ none
unfolding condition_of as_line
condition_of-none (line_breakpoint t) condition = refl
condition_of-none (function_breakpoint name) condition = refl
condition_of-none (conditional_breakpoint t old) condition = refl
condition_of-none (data_breakpoint variable last) condition = refl

-- Setting a condition fails for every breakpoint, conditional ones included, and changes nothing.
pub set_breakpoint_condition_fails :
    (id : ℕ) (condition : List ℕ) (m : BreakpointManager)
    → set_breakpoint_condition id condition m ≡ (m, false)
unfolding set_breakpoint_condition
set_breakpoint_condition_fails id condition m = elim (Option-cases (get_breakpoint id m)) [
  | inl e ↦ rw (e, set_breakpoint_condition)
  | inr (bp, e) ↦ rw (e, set_breakpoint_condition, condition_of-none bp.kind condition)
]

gone : (id j : ℕ) (d : Dict Breakpoint) → (id == j) ≡ true → lookup j (erase id d) ≡ none
gone id j d here = ground (arith, lookup-erase id j d)

kept : (id j : ℕ) (d : Dict Breakpoint) → (id == j) ≡ false → lookup j (erase id d) ≡ lookup j d
kept id j d other = ground (arith, lookup-erase id j d)

removed_at :
    (m : BreakpointManager) (id j pc : ℕ)
    → (id == j) ≡ true
    → KnownAt m id
    → has_id (remove_pc_to_breakpoint_mapping id m).pc_to_breakpoints pc j ≡ false
removed_at m id j pc here known =
    let same : id ≡ j = ground arith in
    subst (λ k. has_id (remove_pc_to_breakpoint_mapping id m).pc_to_breakpoints pc k ≡ false) same
      (removed_mapping m id pc known)

apply_setter-kind :
    (setter : Setter) (bp : Breakpoint) → as_line (apply_setter setter bp).kind ≡ as_line bp.kind
unfolding apply_setter
apply_setter-kind hits_reset bp = refl
apply_setter-kind (hits_ignored count) bp = refl
apply_setter-kind (temporary temp) bp = refl

module _ (canonical : List ℕ → List ℕ → List ℕ) where
  pub set_state-IsValid :
      (state : BreakpointState) (id : ℕ) (m : BreakpointManager)
      → IsValid canonical m
      → IsValid canonical (set_state state id m).0
  unfolding set_state get_breakpoint
  set_state-IsValid state id m v = elim (Option-cases (lookup id m.breakpoints)) [
    | inl e ↦ rw (e, set_state) v
    | inr (bp, e) ↦
        rw (e, set_state) (put-IsValid canonical id bp (record bp { state = state }) m e refl v)
  ]

  pub count_hit-IsValid :
      (id : ℕ) (m : BreakpointManager) → IsValid canonical m → IsValid canonical (count_hit id m)
  unfolding count_hit get_breakpoint increment_hit_count
  count_hit-IsValid id m v = elim (Option-cases (lookup id m.breakpoints)) [
    | inl e ↦ rw (e, count_hit) v
    | inr (bp, e) ↦
        rw (e, count_hit) (put-IsValid canonical id bp (increment_hit_count bp) m e refl v)
  ]

  pub adjust_breakpoint-IsValid :
      (id : ℕ) (setter : Setter) (m : BreakpointManager)
      → IsValid canonical m
      → IsValid canonical (adjust_breakpoint id setter m)
  unfolding adjust_breakpoint get_breakpoint
  adjust_breakpoint-IsValid id setter m v = elim (Option-cases (lookup id m.breakpoints)) [
    | inl e ↦ rw (e, adjust_breakpoint) v
    | inr (bp, e) ↦
        rw (e, adjust_breakpoint)
          (put-IsValid canonical id bp (apply_setter setter bp) m e (apply_setter-kind setter bp) v)
  ]

  pub remove_breakpoint-IsValid :
      (id : ℕ) (m : BreakpointManager)
      → IsValid canonical m
      → IsValid canonical (remove_breakpoint id m).0
  unfolding remove_breakpoint get_breakpoint remove_pc_to_breakpoint_mapping
  remove_breakpoint-IsValid id m v = elim (Option-cases (lookup id m.breakpoints)) [
    | inl e ↦ rw (e, remove_breakpoint) v
    | inr (bp, e) ↦
        rw (e, remove_breakpoint)
          (record {
            known = λ j pc h. elim (Bool-cases (id == j)) [
              | inl here ↦
                  absurd (let nowhere = removed_at m id j pc here (v.known id) in ground arith)
              | inr other ↦
                  rw (kept id j m.breakpoints other)
                    (v.known j pc (sym (removed_mapping_other m id pc j other) ∙ h))
            ];
            exact = λ j pc. elim (Bool-cases (id == j)) [
              | inl here ↦
                  rw (gone id j m.breakpoints here) (removed_at m id j pc here (v.known id))
              | inr other ↦
                  removed_mapping_other m id pc j other
                  ∙ v.exact j pc
                  ∙ sym (
                      ap
                        (λ (o : Option Breakpoint).
                          wanted_of canonical m.debug_info (target_of o) pc)
                        (kept id j m.breakpoints other))
            ];
            fresh = λ j h. ground (arith, lookup-erase id j m.breakpoints, v.fresh j);
            sorted = Ascending-erase id m.breakpoints v.sorted;
            started = v.started;
          })
  ]

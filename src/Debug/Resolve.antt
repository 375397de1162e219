-- ===== src/Debug/Resolve.antt =====
-- What resolveBreakpoint of src/debugger/breakpoint/breakpoint_manager.cpp does to the breakpoints and
-- to the map.
use atomic_proof_interpreter.Prelude.{
  ℕ, ◌≡◌, sym, refl, inl, inr, Bool, true, false, ◌&&◌, ◌||◌, Option, none, some, List, [], ◌==◌,
  if◌then◌else◌, Bool-cases, arith,
}
use atomic_proof_interpreter.Debug.Maps.{
  Dict, lookup, insert, contains, is_empty, lookup-insert, is_empty→contains, Ascending,
  Ascending-insert,
}
use atomic_proof_interpreter.Debug.Info.{DebugInfo, sort_unique}
use atomic_proof_interpreter.Debug.Index.{contains-sort_unique}
use atomic_proof_interpreter.Debug.Breakpoint.{
  BreakpointState, LineTarget, Kind, line_breakpoint, function_breakpoint, conditional_breakpoint,
  data_breakpoint, Breakpoint, as_line, with_resolved,
}
use atomic_proof_interpreter.Debug.Manager.{
  BreakpointManager, get_breakpoint, put, resolved_of, update_pc_to_breakpoint_mapping,
  remove_pc_to_breakpoint_mapping, has_function, resolve_function, pcs_for, resolve_line,
  resolve_by,
}
use atomic_proof_interpreter.Debug.Mapping.{has_id, has_id-map_pcs, has_id-unmap_pcs}

abbrev pub target_of : Option Breakpoint → Option LineTarget
target_of none = none
target_of (some bp) = as_line bp.kind

-- The map has an id only at pcs that its breakpoint has resolved to.
abbrev pub KnownAt : BreakpointManager → ℕ → Type 0
KnownAt m id =
    (pc : ℕ)
    → has_id m.pc_to_breakpoints pc id ≡ true
    → contains (resolved_of (lookup id m.breakpoints)) pc ≡ true

-- Without its old pcs an id that the map knows only there is nowhere in the map.
pub removed_mapping :
    (m : BreakpointManager) (id pc : ℕ)
    → KnownAt m id
    → has_id (remove_pc_to_breakpoint_mapping id m).pc_to_breakpoints pc id ≡ false
unfolding remove_pc_to_breakpoint_mapping get_breakpoint
removed_mapping m id pc known = ground (
  arith,
  known pc,
  has_id-unmap_pcs id pc id (resolved_of (lookup id m.breakpoints)) m.pc_to_breakpoints,
)

pub removed_mapping_other :
    (m : BreakpointManager) (id pc j : ℕ)
    → (id == j) ≡ false
    → has_id (remove_pc_to_breakpoint_mapping id m).pc_to_breakpoints pc j
      ≡ has_id m.pc_to_breakpoints pc j
unfolding remove_pc_to_breakpoint_mapping get_breakpoint
removed_mapping_other m id pc j other =
    ground
      (arith, has_id-unmap_pcs id pc j (resolved_of (lookup id m.breakpoints)) m.pc_to_breakpoints)

same_lookup :
    (id j : ℕ) (d : Dict Breakpoint) → lookup j d ≡ (if id == j then lookup id d else lookup j d)
same_lookup id j d = elim (Bool-cases (id == j)) [
  | inl here ↦ let same : id ≡ j = ground arith in rw same (ground arith)
  | inr other ↦ ground arith
]

module _ (canonical : List ℕ → List ℕ → List ℕ) where
  -- The debug information has this pc for a target.
  abbrev pub wanted_of : Option DebugInfo → Option LineTarget → ℕ → Bool
  wanted_of info none pc = false
  wanted_of info (some t) pc = contains (pcs_for canonical info t.filename t.line) pc

  abbrev pub wanted : BreakpointManager → ℕ → ℕ → Bool
  wanted m pc id = wanted_of m.debug_info (target_of (lookup id m.breakpoints)) pc

  -- The map has an id exactly at the pcs that the debug information has for its line.
  abbrev pub ExactAt : BreakpointManager → ℕ → Type 0
  ExactAt m id = (pc : ℕ) → has_id m.pc_to_breakpoints pc id ≡ wanted m pc id

  -- One id's breakpoint is set anew and mapped at some pcs; all else stays.
  pub record Effect (id : ℕ) (n m' : BreakpointManager) : Type 0 where
    pub breakpoint : Option Breakpoint
    pub pcs : List ℕ
    pub info : m'.debug_info ≡ n.debug_info
    pub next : m'.next_id ≡ n.next_id
    pub look :
        (j : ℕ) → lookup j m'.breakpoints ≡ (if id == j then breakpoint else lookup j n.breakpoints)
    pub mapped :
        (pc j : ℕ)
        → has_id m'.pc_to_breakpoints pc j
          ≡ ((id == j && contains pcs pc) || has_id n.pc_to_breakpoints pc j)
    pub right : (pc : ℕ) → contains pcs pc ≡ wanted_of n.debug_info (target_of breakpoint) pc
    pub known : (pc : ℕ) → contains pcs pc ≡ true → contains (resolved_of breakpoint) pc ≡ true
    pub sorted : Ascending n.breakpoints → Ascending m'.breakpoints

  pub with_resolved-as_line :
      (pcs : List ℕ) (kind : Kind) (t : LineTarget)
      → as_line kind ≡ some t
      → as_line (with_resolved pcs kind) ≡ some (record t { resolved_pcs = pcs })
  unfolding as_line with_resolved
  with_resolved-as_line pcs (line_breakpoint t) u e = ground arith
  with_resolved-as_line pcs (function_breakpoint name) u e = ground arith
  with_resolved-as_line pcs (conditional_breakpoint t condition) u e = ground arith
  with_resolved-as_line pcs (data_breakpoint variable last) u e = ground arith

  module _ (id : ℕ) (bp : Breakpoint) (n : BreakpointManager) where
    -- A breakpoint that is put back, with no pcs to map.
    pub put-Effect :
        (bp' : Breakpoint)
        → ((pc : ℕ) → wanted_of n.debug_info (as_line bp'.kind) pc ≡ false)
        → Effect id n (put id bp' n)
    unfolding put contains
    put-Effect bp' none_wanted = record {
      breakpoint = some bp';
      pcs = [];
      info = refl;
      next = refl;
      look = λ j. lookup-insert id j bp' n.breakpoints;
      mapped = λ pc j. ground arith;
      right = λ pc. sym (none_wanted pc);
      known = λ pc h. absurd (ground arith);
      sorted = λ s. Ascending-insert id bp' n.breakpoints s;
    }

    update-Effect :
        (bp' : Breakpoint) (t : LineTarget)
        → as_line bp'.kind ≡ some t
        → ((pc : ℕ) → contains t.resolved_pcs pc ≡ wanted_of n.debug_info (some t) pc)
        → Effect id n (update_pc_to_breakpoint_mapping id (put id bp' n))
    unfolding update_pc_to_breakpoint_mapping get_breakpoint put resolved_of
    update-Effect bp' t e resolved =
        let there : lookup id (insert id bp' n.breakpoints) ≡ some bp' =
          ground (arith, lookup-insert id id bp' n.breakpoints) in
        record {
          breakpoint = some bp';
          pcs = resolved_of (lookup id (insert id bp' n.breakpoints));
          info = refl;
          next = refl;
          look = λ j. lookup-insert id j bp' n.breakpoints;
          mapped = λ pc j.
              has_id-map_pcs id pc j (resolved_of (lookup id (insert id bp' n.breakpoints)))
                n.pc_to_breakpoints;
          right = λ pc. rw (there, e) (resolved pc);
          known = λ pc h. let x = rw there at h in x;
          sorted = λ s. Ascending-insert id bp' n.breakpoints s;
        }

    resolve_line-Effect :
        (t : LineTarget)
        → as_line bp.kind ≡ some t
        → Effect id n
            (resolve_line canonical id bp (pcs_for canonical n.debug_info t.filename t.line) n).0
    unfolding resolve_line
    resolve_line-Effect t e =
        let pcs = pcs_for canonical n.debug_info t.filename t.line in
        elim (Bool-cases (is_empty pcs)) [
          | inl empty ↦ rw empty (
              put-Effect (record bp { state = BreakpointState.pending })
                (λ pc. rw e (is_empty→contains pc pcs empty)))
          | inr some_pcs ↦ rw some_pcs (
              update-Effect
                (record bp {
                  kind = with_resolved (sort_unique pcs) bp.kind;
                  state = BreakpointState.enabled;
                })
                (record t { resolved_pcs = sort_unique pcs })
                (with_resolved-as_line (sort_unique pcs) bp.kind t e)
                (λ pc. contains-sort_unique pcs pc))
        ]

    -- A breakpoint that is left as it is, and is no line breakpoint.
    same-Effect : lookup id n.breakpoints ≡ some bp → as_line bp.kind ≡ none → Effect id n n
    unfolding contains
    same-Effect there e = record {
      breakpoint = lookup id n.breakpoints;
      pcs = [];
      info = refl;
      next = refl;
      look = λ j. same_lookup id j n.breakpoints;
      mapped = λ pc j. ground arith;
      right = λ pc. rw (there, e);
      known = λ pc h. absurd (ground arith);
      sorted = λ s. s;
    }

    resolve_function-Effect :
        (info : Option DebugInfo) (name : List ℕ)
        → lookup id n.breakpoints ≡ some bp
        → as_line bp.kind ≡ none
        → Effect id n (resolve_function info id bp name n).0
    unfolding resolve_function
    resolve_function-Effect none name there e = same-Effect there e
    resolve_function-Effect (some info) name there e =
        elim (Bool-cases (has_function name info.functions)) [
          | inl found ↦
              rw found (put-Effect (record bp { state = BreakpointState.enabled }) (λ pc. rw e))
          | inr unknown ↦
              rw unknown (put-Effect (record bp { state = BreakpointState.pending }) (λ pc. rw e))
        ]

    pub resolve_by-Effect :
        (kind : Kind)
        → bp.kind ≡ kind
        → lookup id n.breakpoints ≡ some bp
        → Effect id n (resolve_by canonical id bp kind n).0
    unfolding resolve_by as_line
    resolve_by-Effect (line_breakpoint t) e there = resolve_line-Effect t (rw e)
    resolve_by-Effect (conditional_breakpoint t condition) e there = resolve_line-Effect t (rw e)
    resolve_by-Effect (function_breakpoint name) e there =
        resolve_function-Effect n.debug_info name there (rw e)
    resolve_by-Effect (data_breakpoint variable last) e there = same-Effect there (rw e)

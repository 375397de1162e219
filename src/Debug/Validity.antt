-- ===== src/Debug/Validity.antt =====
-- The manager of src/debugger/breakpoint/breakpoint_manager.cpp keeps its map exact: resolving.
use atomic_proof_interpreter.Prelude.{
  ℕ, ◌≤◌, ◌≡◌, ◌⊎◌, ◌∙◌, sym, ap, subst, refl, inl, inr, true, false, Option, none, some, List,
  ◌==◌, Bool-cases, Option-cases, arith,
}
use atomic_proof_interpreter.Debug.Maps.{lookup, contains, Ascending}
use atomic_proof_interpreter.Debug.Info.{DebugInfo}
use atomic_proof_interpreter.Debug.Breakpoint.{Breakpoint}
use atomic_proof_interpreter.Debug.Manager.{
  BreakpointManager, get_breakpoint, resolved_of, remove_pc_to_breakpoint_mapping, resolve_by,
  resolve_breakpoint,
}
use atomic_proof_interpreter.Debug.Mapping.{has_id}
use atomic_proof_interpreter.Debug.Resolve.{
  target_of, KnownAt, wanted_of, ExactAt, Effect, resolve_by-Effect, removed_mapping,
  removed_mapping_other,
}

module _ (canonical : List ℕ → List ℕ → List ℕ) where
  -- The map leads from each pc to the ids of the line breakpoints whose line the debug information
  -- puts there, at pcs that these have resolved to; ids from `next_id` on are not in use, nor is 0,
  -- which reports a failure.
  pub record IsValid (m : BreakpointManager) : Type 0 where
    pub known : (id : ℕ) → KnownAt m id
    pub exact : (id : ℕ) → ExactAt canonical m id
    pub fresh : (id : ℕ) → m.next_id ≤ id → lookup id m.breakpoints ≡ none
    pub sorted : Ascending m.breakpoints
    pub started : 1 ≤ m.next_id

  -- What resolving one id keeps and establishes.
  pub record Resolved (id : ℕ) (m m' : BreakpointManager) : Type 0 where
    pub info : m'.debug_info ≡ m.debug_info
    pub next : m'.next_id ≡ m.next_id
    pub look : (j : ℕ) → (id == j) ≡ false → lookup j m'.breakpoints ≡ lookup j m.breakpoints
    pub mapped :
        (j : ℕ)
        → (id == j) ≡ false
        → (pc : ℕ) → has_id m'.pc_to_breakpoints pc j ≡ has_id m.pc_to_breakpoints pc j
    pub absent : lookup id m.breakpoints ≡ none → lookup id m'.breakpoints ≡ none
    pub exact : KnownAt m id → ExactAt canonical m' id
    pub known : KnownAt m id → KnownAt m' id
    pub sorted : Ascending m.breakpoints → Ascending m'.breakpoints

  -- An id that is not in use is not in the map.
  pub absent-ExactAt :
      (m : BreakpointManager) (id : ℕ)
      → lookup id m.breakpoints ≡ none
      → KnownAt m id
      → ExactAt canonical m id
  unfolding contains resolved_of
  absent-ExactAt m id e known = λ pc.
      let k = known pc in
      elim (Bool-cases (has_id m.pc_to_breakpoints pc id)) [
        | inl there ↦ absurd (let x = rw e at (k there) in ground arith)
        | inr nowhere ↦ rw e nowhere
      ]

  module _ (id : ℕ) (bp : Breakpoint) (m m' : BreakpointManager) where
    Effect-Resolved :
        lookup id m.breakpoints ≡ some bp
        → Effect canonical id (remove_pc_to_breakpoint_mapping id m) m'
        → Resolved id m m'
    unfolding remove_pc_to_breakpoint_mapping
    Effect-Resolved there w =
        let here : lookup id m'.breakpoints ≡ w.breakpoint = ground (arith, w.look id) in
        record {
          info = w.info;
          next = w.next;
          look = λ j other. ground (arith, w.look j);
          mapped =
              λ j other pc. ground (arith, w.mapped pc j, removed_mapping_other m id pc j other);
          absent = λ e. absurd (ground arith);
          exact = λ known pc.
              (let a : has_id m'.pc_to_breakpoints pc id ≡ contains w.pcs pc =
                  ground (arith, w.mapped pc id, removed_mapping m id pc known) in
                let b =
                  ap (λ (o : Option DebugInfo). wanted_of canonical o (target_of w.breakpoint) pc)
                    w.info in
                let c =
                  ap (λ (o : Option Breakpoint). wanted_of canonical m'.debug_info (target_of o) pc)
                    here in
                a ∙ w.right pc ∙ sym b ∙ sym c);
          known = λ known pc h.
              (let a : contains w.pcs pc ≡ true =
                  ground (arith, w.mapped pc id, removed_mapping m id pc known) in
                rw here (w.known pc a));
          sorted = w.sorted;
        }

  pub resolve_breakpoint-Resolved :
      (id : ℕ) (m : BreakpointManager) → Resolved id m (resolve_breakpoint canonical id m).0
  unfolding resolve_breakpoint get_breakpoint remove_pc_to_breakpoint_mapping
  resolve_breakpoint-Resolved id m = elim (Option-cases (lookup id m.breakpoints)) [
    | inl e ↦
        rw (e, resolve_breakpoint)
          (record {
            info = refl;
            next = refl;
            look = λ j other. refl;
            mapped = λ j other pc. refl;
            absent = λ h. h;
            exact = absent-ExactAt m id e;
            known = λ known. known;
            sorted = λ s. s;
          })
    | inr (bp, e) ↦
        rw (e, resolve_breakpoint)
          (Effect-Resolved id bp m
            (resolve_by canonical id bp bp.kind (remove_pc_to_breakpoint_mapping id m)).0 e
            (resolve_by-Effect canonical id bp (remove_pc_to_breakpoint_mapping id m) bp.kind refl
              e))
  ]

  -- All the ids of the manager are known, and those not in use come last.
  abbrev pub AllKnown : BreakpointManager → Type 0
  AllKnown m = (id : ℕ) → KnownAt m id

  -- Facts about one id that resolving another does not touch.
  KnownAt-other :
      (m m' : BreakpointManager) (id j : ℕ)
      → Resolved id m m'
      → (id == j) ≡ false
      → KnownAt m j
      → KnownAt m' j
  KnownAt-other m m' id j r other known =
      λ pc h. rw (r.look j other) (known pc (sym (r.mapped j other pc) ∙ h))

  ExactAt-other :
      (m m' : BreakpointManager) (id j : ℕ)
      → Resolved id m m'
      → (id == j) ≡ false
      → ExactAt canonical m j
      → ExactAt canonical m' j
  ExactAt-other m m' id j r other exact = λ pc.
      let b =
        ap (λ (o : Option DebugInfo). wanted_of canonical o (target_of (lookup j m.breakpoints)) pc)
          r.info in
      let c =
        ap (λ (o : Option Breakpoint). wanted_of canonical m'.debug_info (target_of o) pc)
          (r.look j other) in
      r.mapped j other pc ∙ exact pc ∙ sym b ∙ sym c

  pub resolve-AllKnown :
      (id : ℕ) (m : BreakpointManager) → AllKnown m → AllKnown (resolve_breakpoint canonical id m).0
  resolve-AllKnown id m known = λ j. elim (Bool-cases (id == j)) [
    | inl here ↦
        let same : id ≡ j = ground arith in
        subst (λ k. KnownAt (resolve_breakpoint canonical id m).0 k) same
          ((resolve_breakpoint-Resolved id m).known (known id))
    | inr other ↦
        KnownAt-other m (resolve_breakpoint canonical id m).0 id j
          (resolve_breakpoint-Resolved id m) other (known j)
  ]

  -- After resolving, the id itself is exact, and so is every id that was.
  pub resolve-ExactAt :
      (id : ℕ) (m : BreakpointManager) (j : ℕ)
      → KnownAt m id
      → ((id == j) ≡ true) ⊎ ExactAt canonical m j
      → ExactAt canonical (resolve_breakpoint canonical id m).0 j
  resolve-ExactAt id m j known h = elim (Bool-cases (id == j)) [
    | inl here ↦
        let same : id ≡ j = ground arith in
        subst (λ k. ExactAt canonical (resolve_breakpoint canonical id m).0 k) same
          ((resolve_breakpoint-Resolved id m).exact known)
    | inr other ↦ elim h [
      | inl here ↦ absurd (ground arith)
      | inr exact ↦
          ExactAt-other m (resolve_breakpoint canonical id m).0 id j
            (resolve_breakpoint-Resolved id m) other exact
    ]
  ]

  pub resolve_look_none :
      (id j : ℕ) (m : BreakpointManager)
      → lookup j m.breakpoints ≡ none
      → lookup j (resolve_breakpoint canonical id m).0.breakpoints ≡ none
  resolve_look_none id j m e =
      let r = resolve_breakpoint-Resolved id m in
      elim (Bool-cases (id == j)) [
        | inl here ↦
            let same : id ≡ j = ground arith in
            subst (λ k. lookup k (resolve_breakpoint canonical id m).0.breakpoints ≡ none) same
              (r.absent (rw same e))
        | inr other ↦ r.look j other ∙ e
      ]

  pub resolve_breakpoint-IsValid :
      (id : ℕ) (m : BreakpointManager) → IsValid m → IsValid (resolve_breakpoint canonical id m).0
  resolve_breakpoint-IsValid id m v =
      let r = resolve_breakpoint-Resolved id m in
      record {
        known = resolve-AllKnown id m v.known;
        exact = λ j. resolve-ExactAt id m j (v.known id) (inr (v.exact j));
        fresh = λ j h. resolve_look_none id j m (v.fresh j (rw (sym r.next) h));
        sorted = r.sorted v.sorted;
        started = rw r.next v.started;
      }

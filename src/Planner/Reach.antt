-- ===== src/Planner/Reach.antt =====
-- What a chain of the copy search of src/bytecode/stack_permutation_planner.cpp amounts to as a plan.
use atomic_proof_interpreter.Prelude.{
  ℕ, zero, suc, ◌+◌, ◌-◌, ◌≡◌, ◌≤◌, refl, arith, ap, sym, subst, Bool, true, false, some, List, [],
  ◌∷◌, ◌++◌, length, drop, length-drop, All, All-append, Option-cases, inl, inr, leb, ◌==◌,
  if◌then◌else◌, Bool-cases,
}
use mathlib.Core.List.{Memᴰ}
use atomic_proof_interpreter.Planner.Step.{StackPlanOp, StackPlanStep}
use atomic_proof_interpreter.Planner.Moves.{
  CopyState, copy_step, move_only_operations, rolls_from, iota, copy_front, tuck_front, drop_front,
  nip_front, apply_move, roll_front, swap_front, two_swap_front, two_rot_front, run_plan,
}
use atomic_proof_interpreter.Planner.Plans.{IsShallow}
use atomic_proof_interpreter.Planner.Copy.{
  has_token, picks_from, copy_operations, delete_operations, operations, copy_neighbours, initial,
  Reaches,
}
use atomic_proof_interpreter.Planner.Chains.{
  IsSized, neighbours_by-lem, moved-IsSized, copied-IsSized, deleted-IsSized, to_alt-IsSized,
  from_alt-IsSized, length-roll_front, length-two_swap, length-two_rot, length-swap, length-tuck,
  length-drop_front, length-nip, length-copy_front,
}

copy_step-IsSized :
    (window : ℕ) (st st' : CopyState ℕ) (op : StackPlanOp) (d : ℕ)
    → IsSized window st
    → copy_step st op d ≡ some st'
    → IsSized window st'
unfolding copy_step apply_move
copy_step-IsSized window st st' StackPlanOp.swap d h e =
    moved-IsSized window st st' h (swap_front st.main) (length-swap st.main) e
copy_step-IsSized window st st' StackPlanOp.rot d h e =
    moved-IsSized window st st' h (roll_front 2 st.main) (length-roll_front 2 st.main) e
copy_step-IsSized window st st' StackPlanOp.two_swap d h e =
    moved-IsSized window st st' h (two_swap_front st.main) (length-two_swap st.main) e
copy_step-IsSized window st st' StackPlanOp.two_rot d h e =
    moved-IsSized window st st' h (two_rot_front st.main) (length-two_rot st.main) e
copy_step-IsSized window st st' StackPlanOp.roll d h e =
    moved-IsSized window st st' h (roll_front d st.main) (length-roll_front d st.main) e
copy_step-IsSized window st st' StackPlanOp.dup d h e =
    copied-IsSized window st st' h (copy_front 0 st.main) st.copied refl
      (length-copy_front 0 st.main) e
copy_step-IsSized window st st' StackPlanOp.over d h e =
    copied-IsSized window st st' h (copy_front 1 st.main) st.copied refl
      (length-copy_front 1 st.main) e
copy_step-IsSized window st st' StackPlanOp.pick d h e =
    copied-IsSized window st st' h (copy_front d st.main) st.copied refl
      (length-copy_front d st.main) e
copy_step-IsSized window st st' StackPlanOp.tuck d h e =
    copied-IsSized window st st' h (tuck_front st.main) st.copied refl (length-tuck st.main) e
copy_step-IsSized window st st' StackPlanOp.drop d h e =
    deleted-IsSized window st st' h (drop_front st.main) st.deleted refl (length-drop_front st.main)
      e
copy_step-IsSized window st st' StackPlanOp.nip d h e =
    deleted-IsSized window st st' h (nip_front st.main) st.deleted refl (length-nip st.main) e
copy_step-IsSized window st st' StackPlanOp.to_alt_stack d h e =
    to_alt-IsSized window st st' h st.main refl e
copy_step-IsSized window st st' StackPlanOp.from_alt_stack d h e =
    from_alt-IsSized window st st' h st.alt refl e

length-iota : (first n : ℕ) → length (iota first n) ≡ n
unfolding iota
length-iota first zero = refl
length-iota first (suc n) = ap suc (length-iota (first + 1) n)

initial-IsSized : (window : ℕ) → IsSized window (initial window)
unfolding initial
initial-IsSized window = omega (arith, length-iota 0 window)

rolls_from-IsShallow :
    (depth rounds : ℕ) → depth + rounds ≤ 17 → All IsShallow (rolls_from depth rounds)
unfolding rolls_from
rolls_from-IsShallow depth zero h = tt
rolls_from-IsShallow depth (suc rounds) h =
    (omega arith, rolls_from-IsShallow (depth + 1) rounds (omega arith))

picks_from-IsShallow :
    (token depth : ℕ) (xs : List ℕ)
    → depth + length xs ≤ 17
    → All IsShallow (picks_from token depth xs)
unfolding picks_from
picks_from-IsShallow token depth [] h = tt
picks_from-IsShallow token depth (x ∷ xs) h =
    let ih : All IsShallow (picks_from token (depth + 1) xs) =
      picks_from-IsShallow token (depth + 1) xs (omega arith) in
    elim (Bool-cases (x == token)) [ inl e ↦ rw e (omega arith, ih) | inr e ↦ rw e ih ]

-- A step that is tried or not.
when-IsShallow :
    (b : Bool) (steps : List StackPlanStep)
    → All IsShallow steps
    → All IsShallow (if b then steps else [])
when-IsShallow true steps h = h
when-IsShallow false steps h = tt

unless-IsShallow :
    (b : Bool) (steps : List StackPlanStep)
    → All IsShallow steps
    → All IsShallow (if b then [] else steps)
unless-IsShallow true steps h = tt
unless-IsShallow false steps h = h

move_only_operations-IsShallow : (size : ℕ) → size ≤ 16 → All IsShallow (move_only_operations size)
unfolding move_only_operations
move_only_operations-IsShallow size h =
    All-append IsShallow _ _ (when-IsShallow (leb 2 size) _ (omega arith, tt)) (
      All-append IsShallow _ _ (when-IsShallow (leb 3 size) _ (omega arith, tt)) (
        All-append IsShallow _ _ (when-IsShallow (leb 4 size) _ (omega arith, tt)) (
          All-append IsShallow _ _ (when-IsShallow (leb 6 size) _ (omega arith, tt))
            (rolls_from-IsShallow 3 (size - 3) (omega arith)))))

operations-IsShallow :
    (state : CopyState ℕ) (source target : ℕ)
    → length state.main ≤ 16
    → All IsShallow (operations state source target)
unfolding operations copy_operations delete_operations
operations-IsShallow state source target h =
    All-append IsShallow _ _
      (unless-IsShallow state.copied _ (
        All-append IsShallow _ _
          (when-IsShallow (has_token state.main 0 source) _
            (omega arith, when-IsShallow (leb 2 (length state.main)) _ (omega arith, tt)))
          (All-append IsShallow _ _
            (when-IsShallow (has_token state.main 1 source) _ (omega arith, tt))
            (picks_from-IsShallow source 2 (drop 2 state.main)
              (omega (arith, length-drop 2 state.main))))))
      (All-append IsShallow _ _
        (unless-IsShallow state.deleted _ (
          All-append IsShallow _ _
            (when-IsShallow (has_token state.main 0 target) _ (omega arith, tt))
            (when-IsShallow (has_token state.main 1 target) _ (omega arith, tt))))
        (All-append IsShallow _ _ (move_only_operations-IsShallow (length state.main) h) (
          All-append IsShallow _ _ (unless-IsShallow (length state.main == 0) _ (omega arith, tt))
            (unless-IsShallow (length state.alt == 0) _ (omega arith, tt)))))

All-Memᴰ :
    (steps : List StackPlanStep) (s : StackPlanStep)
    → All IsShallow steps
    → Memᴰ s steps
    → IsShallow s
All-Memᴰ [] s h m = elim m [ ]
All-Memᴰ (t ∷ steps) s (h, hs) (Memᴰ.head e) = subst IsShallow (sym e) h
All-Memᴰ (t ∷ steps) s (h, hs) (Memᴰ.tail m) = All-Memᴰ steps s hs m

run_plan-append :
    (xs : List StackPlanStep) (s : StackPlanStep) (st mid next : CopyState ℕ)
    → run_plan xs st ≡ some mid
    → copy_step mid s.op s.depth ≡ some next
    → run_plan (xs ++ (s ∷ [])) st ≡ some next
unfolding run_plan
run_plan-append [] s st mid next e f = ground (arith, e, f)
run_plan-append (x ∷ xs) s st mid next e f = elim (Option-cases (copy_step st x.op x.depth)) [
  | inl p ↦ absurd (ground (arith, p))
  | inr (w, p) ↦ rw (p, run_plan) (run_plan-append xs s w mid next (rw (p, run_plan) at e) f)
]

-- A chain of neighbours from the first state of a window of at most 15 slots to some state: its steps
-- are a plan that takes the first state to that state, no step has a depth above 16, and the state
-- has the window's entries, one more if the copy was made and one less if the deletion was.
pub Reaches-run_plan :
    (window source target : ℕ) (steps : List StackPlanStep) (st : CopyState ℕ)
    → window ≤ 15
    → Reaches window source target steps st
    → (run_plan steps (initial window) ≡ some st) × All IsShallow steps × IsSized window st
unfolding copy_neighbours
Reaches-run_plan window source target steps st h Reaches.start =
    (unfold run_plan in refl, tt, initial-IsSized window)
Reaches-run_plan window source target _ _ h
      (Reaches.extend {steps = xs} {state} {next} {s} chain m) =
    let (run, shallow, sized) = Reaches-run_plan window source target xs state h chain in
    let (e, k) = neighbours_by-lem state next s (operations state source target) m in
    (
      run_plan-append xs s (initial window) state next run e,
      All-append IsShallow xs (s ∷ []) shallow (
        All-Memᴰ (operations state source target) s
            (operations-IsShallow state source target (ground arith)) k,
        tt,
      ),
      copy_step-IsSized window state next s.op s.depth sized e,
    )

-- ===== src/Debug/Filled.antt =====
-- The line index stays exact whichever way the debug information is filled.
use atomic_proof_interpreter.Prelude.{
  ℕ, ◌<◌, ◌≡◌, refl, inl, inr, ◌&&◌, not, List, [], ◌∷◌, Option, none, some, Bool-cases,
}
use atomic_proof_interpreter.Debug.Maps.{
  Dict, lookup, insert, contains, is_empty, Ascending, Ascending-insert,
}
use atomic_proof_interpreter.Debug.Info.{
  SourceLocation, InstructionDebugInfo, DebugInfo, is_valid, get_origins_for_pc, line_index,
  build_line_to_pc,
}
use atomic_proof_interpreter.Debug.Lookup.{
  any_origin, is_on_line, get_pcs_for_source_line, normalize_source_filename,
}
use atomic_proof_interpreter.Debug.Lines.{IsIndexed, get_pcs_for_source_line-exact}
use atomic_proof_interpreter.Debug.Updates.{
  Update, source_mapping, instruction, instruction_origin, instruction_origins, function, update,
  update_all, no_info, relocate, map_source, add_source_mapping, add_instruction,
  add_instruction_origin, set_instruction_origins, add_function,
}

relocated-Ascending :
    (pc : ℕ) (loc : SourceLocation) (is : Dict InstructionDebugInfo)
    (o : Option InstructionDebugInfo)
    → Ascending is
    → Ascending (elim o [ none ↦ is | some i ↦ insert pc (relocate pc loc i) is ])
relocated-Ascending pc loc is none s = s
relocated-Ascending pc loc is (some i) s = Ascending-insert pc (relocate pc loc i) is s

update-IsIndexed : (u : Update) (info : DebugInfo) → IsIndexed info → IsIndexed (update u info)
unfolding update add_source_mapping add_instruction add_instruction_origin set_instruction_origins
    add_function map_source build_line_to_pc line_index
update-IsIndexed (source_mapping pc loc) info w = elim (Bool-cases (is_valid loc)) [
  | inl valid ↦ rw valid (record {
    sorted = relocated-Ascending pc loc info.instructions (lookup pc info.instructions) w.sorted;
    built = refl;
  })
  | inr invalid ↦ rw invalid w
]
update-IsIndexed (instruction i) info w = record {
  sorted = Ascending-insert _ _ info.instructions w.sorted;
  built = refl;
}
update-IsIndexed (instruction_origin pc o) info w = record {
  sorted = Ascending-insert _ _ info.instructions w.sorted;
  built = refl;
}
update-IsIndexed (instruction_origins pc os) info w = record {
  sorted = Ascending-insert _ _ info.instructions w.sorted;
  built = refl;
}
update-IsIndexed (function f) info w = record { sorted = w.sorted; built = w.built }

update_all-IsIndexed :
    (us : List Update) (info : DebugInfo) → IsIndexed info → IsIndexed (update_all us info)
unfolding update_all
update_all-IsIndexed [] info w = w
update_all-IsIndexed (u ∷ us) info w =
    update_all-IsIndexed us (update u info) (update-IsIndexed u info w)

-- Information that was filled by any operations from nothing.
pub filled-IsIndexed :
    (us : List Update) (source : List ℕ) → IsIndexed (update_all us (no_info source))
unfolding line_index
filled-IsIndexed us source =
    update_all-IsIndexed us (no_info source) (record { sorted = tt; built = refl })

-- After any operations that fill the information, a pc is found for a line of a file, counted from 1,
-- exactly where one of the pc's origins is on that line of that file; nothing is found for the empty
-- name.
pub get_pcs_for_source_line-update_all :
    (canonical : List ℕ → List ℕ → List ℕ) (us : List Update) (source filename : List ℕ)
    (line p : ℕ)
    → 0 < line
    → contains (get_pcs_for_source_line canonical (update_all us (no_info source)) filename line) p
      ≡ (not (
            is_empty (
              normalize_source_filename canonical filename
                (update_all us (no_info source)).source_filename))
          && any_origin
              (is_on_line canonical
                (update_all us (no_info source))
                (normalize_source_filename canonical filename
                  (update_all us (no_info source)).source_filename)
                line)
              (get_origins_for_pc (update_all us (no_info source)) p))
get_pcs_for_source_line-update_all canonical us source filename line p pos_line =
    get_pcs_for_source_line-exact canonical (update_all us (no_info source)) filename line p
      (filled-IsIndexed us source) pos_line

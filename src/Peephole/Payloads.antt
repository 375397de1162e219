-- ===== src/Peephole/Payloads.antt =====
-- decodedPushPayload of src/bytecode_peephole_pass.h on the machine.
use atomic_proof_interpreter.Prelude.{
  ℕ, ◌≡◌, refl, ap, sym, arith, ◌∙◌, true, some, List, [], ◌∷◌, All, ok,
}
use atomic_proof_interpreter.Script.Hex.{IsByte, bytes_to_hex}
use atomic_proof_interpreter.Vm.Number.{Element}
use atomic_proof_interpreter.Vm.Machine.{Signatures, Vm, is_currently_executing, on_main}
use atomic_proof_interpreter.Vm.Text.{read_text, run_texts}
use atomic_proof_interpreter.Peephole.Push.{decoded_push_payload}
use atomic_proof_interpreter.Peephole.Rules.{is_some}
use atomic_proof_interpreter.Peephole.Windows.{run_stack, run_texts-live}
use atomic_proof_interpreter.Peephole.Constants.{IsSolid, well_formed-ConstantText}
use atomic_proof_interpreter.Peephole.Equality.{decoded-well_formed}

module _ (env : Signatures) where
  -- Where decodedPushPayload reads a payload from a text that is no empty OP_PUSHDATA, running the text
  -- where the machine executes pushes one element, and the payload is the text of its bytes.
  pub run_texts-decoded_push_payload :
      (t payload : List ℕ) (vm : Vm)
      → decoded_push_payload t ≡ some payload
      → IsSolid t
      → is_currently_executing vm ≡ true
      → (e : Element) × All IsByte e
        × (payload ≡ bytes_to_hex e)
        × (run_texts env (t ∷ []) vm ≡ ok (record vm { main_stack = e ∷ vm.main_stack }))
  run_texts-decoded_push_payload t payload vm h solid live =
      let k =
        well_formed-ConstantText env t (decoded-well_formed t (unfold is_some in rw h refl)) in
      let i = k.constant.instruction in
      let r : read_text t ≡ some i = k.same_read ∙ k.constant.read in
      let p = k.constant.pushes (λ e. solid (r ∙ ap some e)) vm.main_stack in
      let same : payload ≡ k.payload = let q = sym h ∙ k.decoded in grind arith in
      (
        k.constant.element,
        k.constant.are_bytes,
        same ∙ k.constant.text,
        run_texts-live env (t ∷ []) (i ∷ []) vm (r, k.constant.plain, tt) live
            ∙ unfold run_stack on_main in rw p refl,
      )

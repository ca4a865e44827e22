-- ===== src/Controller/Registry.antt =====
-- The registry as a map from the texts of the phases.
use kube_debug_sess.Prelude.{
  ◌≡◌, refl, sym, String, ◌==s◌, if◌then◌else◌, eq_iff, Bool-cases, some, [], ◌∷◌, inl, inr, arith,
}
use kube_debug_sess.Api.{SessionPhase, phase_text}
use kube_debug_sess.SessionPhases.Reason.{lookup}
use kube_debug_sess.Controller.{Registry, register}

module _ {R : Type 0} (phase : SessionPhase) (factory : R) where
  -- After a registration the phase has its new factory, once, and every other key what it had.
  pub lookup-register :
      (m : Registry R) (k : String)
      → lookup k (register m phase factory)
        ≡ (if phase_text phase ==s k then some factory else lookup k m)
  unfolding lookup register
  lookup-register [] k = refl
  lookup-register ((j, old) ∷ m) k = elim (Bool-cases (j ==s phase_text phase)) [
    | inl e ↦
        let same : phase_text phase ≡ j = sym ((eq_iff j (phase_text phase)).0 e) in
        rw e (rw same (ground arith))
    | inr e ↦ rw e (
        ground (
          arith,
          lookup-register m k,
          eq_iff j k,
          eq_iff (phase_text phase) k,
          eq_iff j (phase_text phase),
        ))
  ]

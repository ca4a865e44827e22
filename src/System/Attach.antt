-- ===== src/System/Attach.antt =====
-- Sessions as users create them, and the phases in which one may be ready.
use kube_debug_sess.Prelude.{◌≡◌, refl, ap, ◌⊎◌, inl, inr, true, false, String}
use kube_debug_sess.Api.{SessionPhase, phase_text, phase_of, DebugSession}
use kube_debug_sess.Api.SessionPhase.{unset, active, failed}
use kube_debug_sess.Controller.Runs.{IsCanonical}
use kube_debug_sess.System.Guarded.{IsGuarded}
use kube_debug_sess.System.Guarded.Steps.{may_be_ready, has_debugger}

-- A session as a user creates it: the status is a subresource, so it starts empty.
pub record IsCreated (s : DebugSession) : Type 0 where
  pub phase : s.status.phase ≡ unset
  pub quiet : s.status.ready_for_attach ≡ false

pub unset-IsCanonical : IsCanonical unset
unfolding phase_text phase_of
unset-IsCanonical = refl

-- It has no debugger and is not ready, so it is guarded whatever is asked of tokens.
pub IsCreated-IsGuarded : (D : String → Type 0) (s : DebugSession) → IsCreated s → IsGuarded D s
IsCreated-IsGuarded D s c = record { tokened = inl (ap has_debugger c.phase); ready = inl c.quiet }

pub may_be_ready_cases : (p : SessionPhase) → may_be_ready p ≡ true → (p ≡ active) ⊎ (p ≡ failed)
may_be_ready_cases active h = inl refl
may_be_ready_cases failed h = inr refl
may_be_ready_cases _ h = cc

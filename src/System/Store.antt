-- ===== src/System/Store.antt =====
-- What the API server holds after a run of `Reconcile`.
use kube_debug_sess.Prelude.{ℕ, zero, suc, ◌≡◌, refl, sym, ◌∙◌, ap, ◌⊎◌, inl, inr, [], ◌∷◌}
use mathlib.Core.Path.{subst}
use mathlib.Core.List.{Memᴰ}
use kube_debug_sess.Api.{SessionPhase, DebugSession}
use kube_debug_sess.Kube.{ApiError, Fallible-cases, ok, err}
use kube_debug_sess.Cluster.{Call, updated_status, History, Env}
use kube_debug_sess.Updates.{KeepsStatus}
use kube_debug_sess.Controller.{reconciler_for, run_reconciler, reconcile_session}
use kube_debug_sess.Controller.Runs.{persist, Run, start, step}

-- The server stores the status of the last update that it accepted.
unfoldable pub stored : Env → DebugSession → History → DebugSession
stored env s [] = s
stored env s (updated_status t ∷ h) = elim (env.status_answer h t) [
  | ok t' ↦ persist s t
  | err e ↦ stored env s h
]
stored env s (_ ∷ h) = stored env s h

-- The session after one run.
unfoldable pub after : Env → DebugSession → DebugSession
after env s = stored env s (reconcile_session env s []).1

-- A number of runs in one cluster.
unfoldable pub after_runs : ℕ → Env → DebugSession → DebugSession
after_runs zero env s = s
after_runs (suc k) env s = after_runs k env (after env s)

-- Where one run leaves the session as it is, any number of them does.
pub after_runs-same :
    (k : ℕ) (env : Env) (s : DebugSession) → after env s ≡ s → after_runs k env s ≡ s
unfolding after_runs
after_runs-same zero env s e = refl
after_runs-same (suc k) env s e = ap (after_runs k env) e ∙ after_runs-same k env s e

-- The session as it was, or as an update of the history has it.
abbrev pub IsStored : DebugSession → History → DebugSession → Type 0
IsStored s h u = (u ≡ s) ⊎ ((t : DebugSession) × Memᴰ (updated_status t) h × (u ≡ persist s t))

IsStored-cons :
    (s u : DebugSession) (c : Call) (h : History) → IsStored s h u → IsStored s (c ∷ h) u
IsStored-cons s u c h (inl e) = inl e
IsStored-cons s u c h (inr (t, m, e)) = inr (t, Memᴰ.tail m, e)

pub stored-IsStored : (env : Env) (s : DebugSession) (h : History) → IsStored s h (stored env s h)
unfolding stored
stored-IsStored env s [] = inl refl
stored-IsStored env s (updated_status t ∷ h) = elim (Fallible-cases (env.status_answer h t)) [
  | inl (t', e) ↦ rw (e, stored) (inr (t, Memᴰ.head refl, refl))
  | inr (x, e) ↦ rw (e, stored) (IsStored-cons s _ _ h (stored-IsStored env s h))
]
stored-IsStored env s (c ∷ h) = IsStored-cons s _ c h (stored-IsStored env s h)

-- What is stored after a run is what a step of the runs may read next.
pub Run-after : (env : Env) (s : DebugSession) → KeepsStatus env → Run s (after env s)
unfolding after
Run-after env s keeps = elim (stored-IsStored env s (reconcile_session env s []).1) [
  | inl e ↦ subst (Run s) (sym e) start
  | inr (t, m, e) ↦ subst (Run s) (sym e) (step env keeps m start)
]

-- The run of a session is that of the reconciler for its phase.
pub after-phase :
    (env : Env) (s : DebugSession) (p : SessionPhase)
    → s.status.phase ≡ p
    → after env s ≡ stored env s (run_reconciler (reconciler_for env p) s []).1
unfolding after reconcile_session
after-phase env s p e = ap (λ q. stored env s (run_reconciler (reconciler_for env q) s []).1) e

-- The last call of a run, where it is a status update that is accepted, gives what is stored.
pub stored-accepted :
    (env : Env) (s t : DebugSession) (h h' : History)
    → h' ≡ updated_status t ∷ h
    → env.status_answer h t ≡ ok t
    → stored env s h' ≡ persist s t
unfolding stored
stored-accepted env s t h h' e a = rw e (rw (a, stored) refl)

-- An update that is refused leaves what the calls before it left.
pub stored-refused :
    (env : Env) (s t : DebugSession) (h : History) (x : ApiError)
    → env.status_answer h t ≡ err x
    → stored env s (updated_status t ∷ h) ≡ stored env s h
unfolding stored
stored-refused env s t h x e = rw (e, stored) refl

-- A run changes the status alone.
pub after-persist : (env : Env) (s : DebugSession) → after env s ≡ persist s (after env s)
unfolding after
after-persist env s = elim (stored-IsStored env s (reconcile_session env s []).1) [
  | inl e ↦ e ∙ sym (ap (persist s) e)
  | inr (t, m, e) ↦ e ∙ sym (ap (persist s) e)
]

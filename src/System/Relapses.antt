-- ===== src/System/Relapses.antt =====
-- A debugger that breaks and recovers, again and again.
use kube_debug_sess.Prelude.{ℕ, zero, suc, ◌≡◌, refl, ap, ◌∙◌, inl, false, some, [], ◌∷◌}
use kube_debug_sess.Prelude.Int.{pos}
use kube_debug_sess.Api.{phase_text, DebugSession}
use kube_debug_sess.Api.SessionPhase.{active, retrying}
use kube_debug_sess.Kube.{ContainerStatus, NamespacedName, Pod, ok}
use kube_debug_sess.Cluster.{Env, History, got_pod, updated_status}
use kube_debug_sess.SessionPhases.Update.{
  with_namespace, with_phase, target_pod, debugger_name, update_session_status,
}
use kube_debug_sess.SessionPhases.Reason.{action_wait, action_retry, analyze_container_status}
use kube_debug_sess.Reconcilers.Containers.{find_status}
use kube_debug_sess.Reconcilers.Injecting.{with_debugger}
use kube_debug_sess.Reconcilers.Active
use kube_debug_sess.Reconcilers.Active.{with_ready}
use kube_debug_sess.Reconcilers.Active.Steps.{reconcile-found}
use kube_debug_sess.Reconcilers.Retrying.Steps.{resolved, reconcile-resolves}
use kube_debug_sess.Controller.{reconciler_for, run_reconciler}
use kube_debug_sess.System.Store.{after, after-phase, after-persist, stored-accepted}

-- One run in a cluster, then one in another, a number of times.
unfoldable pub relapses : ℕ → Env → Env → DebugSession → DebugSession
relapses zero down up s = s
relapses (suc k) down up s = relapses k down up (after up (after down s))

-- A cluster in which a session's debugger is in a state, and status updates are accepted.
pub record Shows (env : Env) (s : DebugSession) (c : ContainerStatus) : Type 0 where
  pub shown : Pod
  pub pods : (h : History) (key : NamespacedName) → env.pod h key ≡ ok shown
  pub found : find_status shown.ephemeral_container_statuses (debugger_name s) ≡ some c
  pub accepts : (h : History) (t : DebugSession) → env.status_answer h t ≡ ok t

Shows-after :
    (env env' : Env) (s : DebugSession) (c : ContainerStatus)
    → Shows env s c
    → Shows env (after env' s) c
Shows-after env env' s c w = record {
  shown = w.shown;
  pods = w.pods;
  found =
      ap (λ x. find_status w.shown.ephemeral_container_statuses (debugger_name x))
        (after-persist env' s)
      ∙ w.found;
  accepts = w.accepts;
}

-- The session as an active one that breaks is stored.
abbrev broken_session : DebugSession → ContainerStatus → DebugSession
broken_session s c =
    let u : DebugSession = with_ready (with_debugger (with_namespace s)) false in
    with_phase (record u { status = record (u.status) { retry_count = pos 1 } }) retrying
      (analyze_container_status c).1

module _ (env : Env) (s : DebugSession) (c : ContainerStatus) (w : Shows env s c) where
  after-broken :
      c.running ≡ false
      → (analyze_container_status c).0 ≡ action_retry
      → s.status.phase ≡ active
      → ((after env s).status.phase ≡ retrying) × ((after env s).status.retry_count ≡ pos 1)
  unfolding run_reconciler reconciler_for phase_text Active.observe Active.handle
      update_session_status
  after-broken stopped verdict phase =
      let h : History = got_pod (target_pod (with_namespace s)) ∷ [] in
      let run : (Active.reconcile env s []).1 ≡ updated_status (broken_session s c) ∷ h =
        ap (λ x. x.1) (reconcile-found env s w.shown c (w.pods [] _) w.found)
        ∙ simp (stopped, verdict) in
      let e =
        after-phase env s active phase
        ∙ stored-accepted env s (broken_session s c) h _ run (w.accepts h (broken_session s c)) in
      rw e (refl, refl)

  after-mended :
      (analyze_container_status c).0 ≡ action_wait
      → s.status.phase ≡ retrying
      → ((after env s).status.phase ≡ active) × ((after env s).status.retry_count ≡ pos 0)
  unfolding run_reconciler reconciler_for phase_text
  after-mended verdict phase =
      let h : History = got_pod (target_pod (with_namespace s)) ∷ [] in
      let t = resolved (with_namespace s) in
      let e =
        after-phase env s retrying phase
        ∙ stored-accepted env s t h _
            (reconcile-resolves env s w.shown c (w.pods [] _) w.found (inl verdict))
            (w.accepts h t) in
      rw e (refl, refl)

-- Of an active session whose debugger has stopped with the verdict to retry in one cluster, and is
-- well, with the verdict to wait, in another, each accepting its updates: after any number of times
-- that it breaks and recovers it is active, and when it breaks again it is retrying with one retry
-- counted, whatever its maximum.
pub relapses-active :
    (k : ℕ) (down up : Env) (s : DebugSession) (c c' : ContainerStatus)
    → Shows down s c
    → Shows up s c'
    → c.running ≡ false
    → (analyze_container_status c).0 ≡ action_retry
    → (analyze_container_status c').0 ≡ action_wait
    → s.status.phase ≡ active
    → ((relapses k down up s).status.phase ≡ active)
      × ((after down (relapses k down up s)).status.phase ≡ retrying)
      × ((after down (relapses k down up s)).status.retry_count ≡ pos 1)
unfolding relapses
relapses-active zero down up s c c' w w' stopped verdict verdict' phase =
    let (broke, count) = after-broken down s c w stopped verdict phase in (phase, broke, count)
relapses-active (suc k) down up s c c' w w' stopped verdict verdict' phase =
    let (broke, count) = after-broken down s c w stopped verdict phase in
    let (mended, none_left) =
      after-mended up (after down s) c' (Shows-after up down s c' w') verdict' broke in
    relapses-active k down up (after up (after down s)) c c'
      (Shows-after down up (after down s) c (Shows-after down down s c w))
      (Shows-after up up (after down s) c' (Shows-after up down s c' w')) stopped verdict verdict'
      mended

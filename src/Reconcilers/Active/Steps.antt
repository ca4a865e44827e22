-- ===== src/Reconcilers/Active/Steps.antt =====
-- Whole runs of the active reconciler, by the verdict on the debugger's status.
use kube_debug_sess.Prelude.{String, ◌≡◌, refl, ◌≢◌, false, some, [], ◌∷◌}
use kube_debug_sess.Api.{SessionPhase, DebugSession}
use kube_debug_sess.Api.SessionPhase.{active, retrying, terminating, failed}
use kube_debug_sess.Kube.{ContainerStatus, Pod, ok}
use kube_debug_sess.Cluster.{Env, History, got_pod, updated_status}
use kube_debug_sess.SessionPhases.Update.{
  with_namespace, target_pod, debugger_name, update_session_status,
}
use kube_debug_sess.SessionPhases.Reason.{
  ReasonAction, action_wait, action_retry, action_fail, action_succeed, analyze_container_status,
}
use kube_debug_sess.Reconcilers.Containers.{find_status}
use kube_debug_sess.Reconcilers.Injecting.{with_debugger}
use kube_debug_sess.Reconcilers.Active

-- The phase that a verdict leads an active session to.
unfoldable pub next_phase : ReasonAction → SessionPhase
next_phase action_wait = active
next_phase action_retry = retrying
next_phase action_fail = failed
next_phase action_succeed = terminating

pub reconcile-found :
    (env : Env) (s : DebugSession) (pod : Pod) (c : ContainerStatus)
    → env.pod [] (target_pod (with_namespace s)) ≡ ok pod
    → find_status pod.ephemeral_container_statuses (debugger_name s) ≡ some c
    → Active.reconcile env s []
      ≡ Active.observe env
          (some c)
          (with_debugger (with_namespace s))
          (got_pod (target_pod (with_namespace s)) ∷ [])
unfolding Active.reconcile
reconcile-found env s pod c answer found = simp (answer, found)

handle-stored :
    (env : Env) (a : ReasonAction) (u : DebugSession) (message : String) (h : History)
    → a ≢ action_wait
    → (t : DebugSession) × ((Active.handle env a u message h).1 ≡ updated_status t ∷ h)
      × (t.status.phase ≡ next_phase a)
      × (t.status.ready_for_attach ≡ false)
unfolding Active.handle update_session_status next_phase
handle-stored env action_wait u message h n = absurd (n refl)
handle-stored env action_retry u message h n = (_, refl, refl, refl)
handle-stored env action_fail u message h n = (_, refl, refl, refl)
handle-stored env action_succeed u message h n = (_, refl, refl, refl)

module _ (env : Env) (s : DebugSession) (pod : Pod) (c : ContainerStatus)
    (answer : env.pod [] (target_pod (with_namespace s)) ≡ ok pod)
    (found : find_status pod.ephemeral_container_statuses (debugger_name s) ≡ some c)
    (stopped : c.running ≡ false) where
  reconcile-handle :
      Active.reconcile env s []
      ≡ Active.handle env
          (analyze_container_status c).0
          (with_debugger (with_namespace s))
          (analyze_container_status c).1
          (got_pod (target_pod (with_namespace s)) ∷ [])
  unfolding Active.reconcile Active.observe
  reconcile-handle = simp (answer, found, stopped)

  -- Where the pod is read and the debugger in it has stopped, with a verdict other than to wait: an
  -- active session is stored once, in the phase that the verdict leads to, and no longer ready.
  pub reconcile-stopped :
      (analyze_container_status c).0 ≢ action_wait
      → (t : DebugSession) × ((Active.reconcile env s []).1
          ≡ updated_status t ∷ got_pod (target_pod (with_namespace s)) ∷ [])
        × (t.status.phase ≡ next_phase (analyze_container_status c).0)
        × (t.status.ready_for_attach ≡ false)
  reconcile-stopped n = rw reconcile-handle (handle-stored env _ _ _ _ n)

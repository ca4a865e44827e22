-- ===== src/Reconcilers/Pending/Steps.antt =====
-- Whole runs of the pending reconciler.
use kube_debug_sess.Prelude.{◌≡◌, false, none, [], ◌∷◌, ◌==s◌}
use kube_debug_sess.Api.{DebugSession}
use kube_debug_sess.Api.SessionPhase.{pending, injecting}
use kube_debug_sess.Kube.{Pod, ok}
use kube_debug_sess.Cluster.{Env, History, got_namespace, got_pod}
use kube_debug_sess.SessionPhases.Outcome.{requeue, seconds}
use kube_debug_sess.SessionPhases.Update.{with_namespace, target_pod, update_session_status}
use kube_debug_sess.Reconcilers.Pending.{
  pod_running, pod_succeeded, pod_failed, check_pod, is_unset-pending, reconcile,
}

module _ (env : Env) (s : DebugSession) (pod : Pod) (phase : s.status.phase ≡ pending)
    (namespace : (h : History) → env.namespace h (with_namespace s).spec.target_namespace ≡ ok tt)
    (answer : (h : History) → env.pod h (target_pod (with_namespace s)) ≡ ok pod) where
  -- In a pending session whose namespace and pod are there, but whose pod is not Running, Succeeded
  -- or Failed, `Reconcile` reads the two, stores nothing and asks for a run in 30 seconds.
  pub reconcile-waits :
      (pod.phase ==s pod_running) ≡ false
      → (pod.phase ==s pod_succeeded) ≡ false
      → (pod.phase ==s pod_failed) ≡ false
      → reconcile env s [] ≡ (
        requeue (seconds 30),
        got_pod (target_pod (with_namespace s))
            ∷ got_namespace (with_namespace s).spec.target_namespace
            ∷ [],
      )
  unfolding reconcile check_pod
  reconcile-waits r u f = simp (phase, is_unset-pending, namespace, answer, r, u, f)

  -- In a pending session whose namespace and pod are there, with a pod that passes the check,
  -- `Reconcile` reads the two and stores the session, as the check leaves it, as Injecting.
  pub reconcile-validates :
      (t : DebugSession)
      → check_pod (with_namespace s) pod ≡ (t, none)
      → reconcile env s []
        ≡ update_session_status env t injecting "Prerequisites validated successfully." (
            got_pod (target_pod (with_namespace s))
            ∷ got_namespace (with_namespace s).spec.target_namespace
            ∷ [])
  unfolding reconcile
  reconcile-validates t e = simp (phase, is_unset-pending, namespace, answer, e)

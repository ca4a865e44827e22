-- ===== src/Reconcilers/Retrying/Steps.antt =====
-- Whole runs of the retrying reconciler, by the verdict on the debugger's status.
use kube_debug_sess.Prelude.{
  ℕ, suc, ◌<◌, ◌^◌, ap, ◌∙◌, false, String, arith, ◌≡◌, some, [], ◌∷◌, ◌⊎◌, inl, inr,
}
use kube_debug_sess.Prelude.Int.{pos}
use kube_debug_sess.Api.{DebugSession}
use kube_debug_sess.Api.SessionPhase.{active}
use kube_debug_sess.Kube.{ContainerStatus, Pod, ok}
use kube_debug_sess.Cluster.{Env, History, got_pod, updated_status}
use kube_debug_sess.SessionPhases.Update.{
  with_namespace, with_phase, target_pod, debugger_name, update_session_status,
}
use kube_debug_sess.SessionPhases.Reason.{
  action_wait, action_retry, action_succeed, analyze_container_status,
}
use kube_debug_sess.Reconcilers.Containers.{find_status}
use kube_debug_sess.Reconcilers.Retrying.Backoff.{next_count, wait_duration}
use kube_debug_sess.Reconcilers.Retrying.Wait.{wait_duration-some}
use kube_debug_sess.Reconcilers.Retrying.Laws.{next_count-pos, not_exhausted}
use kube_debug_sess.Reconcilers.Retrying

-- The session with no retries counted, as active.
abbrev pub resolved : DebugSession → DebugSession
resolved s =
    with_phase (record s { status = record (s.status) { retry_count = pos 0 } }) active
      "Session is now active."

module _ (env : Env) (s : DebugSession) (pod : Pod) (c : ContainerStatus)
    (answer : env.pod [] (target_pod (with_namespace s)) ≡ ok pod)
    (found : find_status pod.ephemeral_container_statuses (debugger_name s) ≡ some c) where
  -- Where the pod is read and the verdict on the debugger in it is to wait or to succeed: a
  -- retrying session is stored once, as active and with no retries counted.
  pub reconcile-resolves :
      ((analyze_container_status c).0 ≡ action_wait)
        ⊎ ((analyze_container_status c).0 ≡ action_succeed)
      → (Retrying.reconcile env s []).1
        ≡ updated_status (resolved (with_namespace s))
          ∷ got_pod (target_pod (with_namespace s))
          ∷ []
  unfolding Retrying.reconcile Retrying.observe update_session_status
  reconcile-resolves (inl e) = simp (answer, found, e)
  reconcile-resolves (inr e) = simp (answer, found, e)

  -- The verdict is to retry: the handler decides.
  pub reconcile-retries :
      (analyze_container_status c).0 ≡ action_retry
      → Retrying.reconcile env s []
        ≡ Retrying.handle_retry env
            (with_namespace s)
            (analyze_container_status c).1
            (got_pod (target_pod (with_namespace s)) ∷ [])
  unfolding Retrying.reconcile Retrying.observe
  reconcile-retries e = simp (answer, found, e)

module _ (env : Env) (s : DebugSession) (reason : String) (h : History) (n m : ℕ)
    (counted : s.status.retry_count ≡ pos n) (limit : s.spec.max_retry_count ≡ pos m) where
  -- With a retry left, the session is stored with one more counted.
  pub handle_retry-counts :
      n < m
      → m < 2 ^ 31
      → ((Retrying.handle_retry env s reason h).1
          ≡ updated_status (Retrying.with_retry s reason) ∷ h)
        × ((Retrying.with_retry s reason).status.retry_count ≡ pos (suc n))
  unfolding Retrying.handle_retry
  handle_retry-counts lt bound =
      let ex : Retrying.is_exhausted s ≡ false = ground (arith, not_exhausted n m) in
      let up : next_count s.status.retry_count ≡ pos (suc n) =
        ap next_count counted ∙ next_count-pos n (omega arith) in
      let (w, e) = wait_duration-some n (omega arith) in
      let wait : wait_duration (next_count s.status.retry_count) ≡ some w =
        ap wait_duration up ∙ e in
      (ground arith, up)

-- ===== src/System/Exhaustion.antt =====
-- The end of the retries: a debugger that stays broken fails its session after a known number of
-- runs.
use kube_debug_sess.Prelude.{
  ℕ, zero, suc, ◌+◌, ◌≤◌, ◌<◌, ◌^◌, ◌≡◌, refl, sym, ap, ◌∙◌, some, [], ◌∷◌, arith,
}
use kube_debug_sess.Prelude.Int.{pos}
use kube_debug_sess.Api.{phase_text, DebugSession}
use kube_debug_sess.Api.SessionPhase.{retrying, failed}
use kube_debug_sess.Kube.{ContainerStatus, NamespacedName, Pod, ok}
use kube_debug_sess.Cluster.{Env, History, got_pod}
use kube_debug_sess.SessionPhases.Update.{
  with_namespace, with_phase, target_pod, debugger_name, update_session_status,
}
use kube_debug_sess.SessionPhases.Reason.{action_retry, analyze_container_status}
use kube_debug_sess.Reconcilers.Containers.{find_status}
use kube_debug_sess.Reconcilers.Retrying.{with_retry}
use kube_debug_sess.Reconcilers.Retrying.Laws.{handle_retry-exhausted}
use kube_debug_sess.Reconcilers.Retrying.Steps.{reconcile-retries, handle_retry-counts}
use kube_debug_sess.Controller.{reconciler_for, run_reconciler}
use kube_debug_sess.System.Store.{after, after_runs, after-phase, after-persist, stored-accepted}

-- A cluster that shows the same pod whenever it is read, and accepts each status update.
module _ (env : Env) (pod : Pod) (c : ContainerStatus)
    (pods : (h : History) (key : NamespacedName) → env.pod h key ≡ ok pod)
    (accepts : (h : History) (t : DebugSession) → env.status_answer h t ≡ ok t)
    (verdict : (analyze_container_status c).0 ≡ action_retry) where
  module _ (s : DebugSession) (n m : ℕ)
      (found : find_status pod.ephemeral_container_statuses (debugger_name s) ≡ some c)
      (phase : s.status.phase ≡ retrying) (counted : s.status.retry_count ≡ pos n)
      (limit : s.spec.max_retry_count ≡ pos m) where
    after-retry :
        n < m
        → m < 2 ^ 31
        → ((after env s).status.phase ≡ retrying) × ((after env s).status.retry_count ≡ pos (suc n))
    unfolding run_reconciler reconciler_for phase_text
    after-retry lt bound =
        let h : History = got_pod (target_pod (with_namespace s)) ∷ [] in
        let reason = (analyze_container_status c).1 in
        let (run, count) =
          handle_retry-counts env (with_namespace s) reason h n m counted limit lt bound in
        let e =
          after-phase env s retrying phase
          ∙ stored-accepted env s (with_retry (with_namespace s) reason) h _
              (ap (λ x. x.1) (reconcile-retries env s pod c (pods [] _) found verdict) ∙ run)
              (accepts h _) in
        rw e (phase, count)

    after-exhausted : m ≤ n → n < 2 ^ 31 → (after env s).status.phase ≡ failed
    unfolding run_reconciler reconciler_for phase_text update_session_status
    after-exhausted le bound =
        let h : History = got_pod (target_pod (with_namespace s)) ∷ [] in
        let reason = (analyze_container_status c).1 in
        let t = with_phase (with_namespace s) failed "Failed after max retries." in
        let e =
          after-phase env s retrying phase
          ∙ stored-accepted env s t h _
              (ap (λ x. x.1)
                (reconcile-retries env s pod c (pods [] _) found verdict
                  ∙ handle_retry-exhausted env (with_namespace s) reason h n m counted limit le
                      bound))
              (accepts h t) in
        rw e refl

  -- In a cluster that shows the same pod whenever it is read and accepts each status update: a
  -- retrying session with n retries counted and a maximum of n + k, of 31 bits, whose debugger
  -- stays in a state with the verdict to retry, is still retrying after k runs, with all retries
  -- counted, and Failed after one more.
  pub after_runs-failed :
      (k n : ℕ) (s : DebugSession)
      → find_status pod.ephemeral_container_statuses (debugger_name s) ≡ some c
      → s.status.phase ≡ retrying
      → s.status.retry_count ≡ pos n
      → s.spec.max_retry_count ≡ pos (n + k)
      → n + k < 2 ^ 31
      → ((after_runs k env s).status.phase ≡ retrying)
        × ((after_runs k env s).status.retry_count ≡ pos (n + k))
        × ((after env (after_runs k env s)).status.phase ≡ failed)
  unfolding after_runs
  after_runs-failed zero n s found phase counted limit bound = (
    phase,
    counted ∙ ap pos (omega arith),
    after-exhausted s n (n + 0) found phase counted limit (omega arith) (omega arith),
  )
  after_runs-failed (suc k) n s found phase counted limit bound =
      let (phase', counted') =
        after-retry s n (n + suc k) found phase counted limit (omega arith) bound in
      let e = after-persist env s in
      let found' =
        ap (λ x. find_status pod.ephemeral_container_statuses (debugger_name x)) e ∙ found in
      let sum : n + suc k ≡ suc n + k = omega arith in
      let limit' = ap (λ x. x.spec.max_retry_count) e ∙ limit ∙ ap pos sum in
      let (p, q, r) =
        after_runs-failed k (suc n) (after env s) found' phase' counted' limit' (omega arith) in
      (p, q ∙ ap pos (sym sum), r)

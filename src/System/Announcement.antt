-- ===== src/System/Announcement.antt =====
-- The message that tells that a session is ready: once, where its update is accepted, and again on
-- each run where it is refused.
use kube_debug_sess.Prelude.{◌≡◌, refl, ap, ◌∙◌, ℕ, suc, true, false, some, [], ◌∷◌, ◌==s◌}
use kube_debug_sess.Api.{phase_text, DebugSession}
use kube_debug_sess.Api.SessionPhase.{active}
use kube_debug_sess.Kube.{ApiError, ContainerStatus, Json, NamespacedName, Pod, ok, err}
use kube_debug_sess.Cluster.{Env, History, got_pod, updated_status, posted}
use kube_debug_sess.SessionPhases.Update.{with_namespace, target_pod, debugger_name}
use kube_debug_sess.Reconcilers.Containers.{find_status}
use kube_debug_sess.Reconcilers.Injecting.{with_debugger}
use kube_debug_sess.Reconcilers.Webhook.{
  Receiver, slack, discord, generic, receiver, payload_for, build_webhook_payload,
  send_webhook_if_configured,
}
use kube_debug_sess.Reconcilers.Active
use kube_debug_sess.Reconcilers.Active.{with_ready}
use kube_debug_sess.Reconcilers.Active.Laws.{observe-announces, observe-running}
use kube_debug_sess.Reconcilers.Active.Steps.{reconcile-found}
use kube_debug_sess.Controller.Runs.{persist}
use kube_debug_sess.Controller.{reconciler_for, run_reconciler, reconcile_session}
use kube_debug_sess.System.Store.{
  stored, after, after_runs, after_runs-same, stored-accepted, stored-refused,
}

-- The session as `Reconcile` announces it.
abbrev pub announced : DebugSession → DebugSession
announced s = with_ready (with_debugger (with_namespace s)) true

abbrev pub pod_read : DebugSession → History
pod_read s = got_pod (target_pod (with_namespace s)) ∷ []

-- The message for a session, and the calls that it takes to make and send it.
abbrev pub message : Env → DebugSession → Json
message env s = (build_webhook_payload env (env.getenv "WEBHOOK_URL") (announced s) (pod_read s)).0

abbrev pub messaged : Env → DebugSession → History
messaged env s =
    posted (env.getenv "WEBHOOK_URL") (message env s)
    ∷ (build_webhook_payload env (env.getenv "WEBHOOK_URL") (announced s) (pod_read s)).1

send_lem :
    (env : Env) (s : DebugSession)
    → (env.getenv "WEBHOOK_URL" ==s "") ≡ false
    → (send_webhook_if_configured env (announced s) (pod_read s)).1 ≡ messaged env s
unfolding send_webhook_if_configured
send_lem env s e = simp e

-- No call that a message takes is a status update.
stored-payload :
    (env : Env) (s t : DebugSession) (h : History) (r : Receiver)
    → stored env s (payload_for env r t h).1 ≡ stored env s h
unfolding stored payload_for
stored-payload env s t h slack = refl
stored-payload env s t h discord = refl
stored-payload env s t h generic = refl

stored-messaged : (env : Env) (s : DebugSession) → stored env s (messaged env s) ≡ s
unfolding stored build_webhook_payload
stored-messaged env s =
    stored-payload env s (announced s) (pod_read s) (receiver (env.getenv "WEBHOOK_URL"))

-- A cluster with a webhook, in which the pod is read and the session's debugger runs.
module _ (env : Env) (s : DebugSession) (pod : Pod) (c : ContainerStatus)
    (pods : (h : History) (key : NamespacedName) → env.pod h key ≡ ok pod)
    (found : find_status pod.ephemeral_container_statuses (debugger_name s) ≡ some c)
    (running : c.running ≡ true) (url : (env.getenv "WEBHOOK_URL" ==s "") ≡ false)
    (watched : s.status.phase ≡ active) where
  session-reconcile : reconcile_session env s [] ≡ Active.reconcile env s []
  unfolding reconcile_session run_reconciler reconciler_for phase_text
  session-reconcile = ap (λ p. run_reconciler (reconciler_for env p) s []) watched

  -- An active session that is not ready sends its message, then stores itself as ready.
  announcing :
      s.status.ready_for_attach ≡ false
      → (reconcile_session env s []).1 ≡ updated_status (announced s) ∷ messaged env s
  announcing quiet =
      ap (λ x. x.1) (session-reconcile ∙ reconcile-found env s pod c (pods [] _) found)
      ∙ observe-announces env (with_debugger (with_namespace s)) (pod_read s) c running quiet
      ∙ ap (λ h. updated_status (announced s) ∷ h) (send_lem env s url)

  silent : s.status.ready_for_attach ≡ true → (reconcile_session env s []).1 ≡ pod_read s
  silent ready =
      ap (λ x. x.1)
        (session-reconcile
          ∙ reconcile-found env s pod c (pods [] _) found
          ∙ observe-running env (with_debugger (with_namespace s)) (pod_read s) c running ready)

  still : s.status.ready_for_attach ≡ true → after env s ≡ s
  unfolding after stored
  still ready = ap (stored env s) (silent ready)

  after-announced :
      s.status.ready_for_attach ≡ false
      → env.status_answer (messaged env s) (announced s) ≡ ok (announced s)
      → after env s ≡ persist s (announced s)
  unfolding after
  after-announced quiet accepts =
      stored-accepted env s (announced s) (messaged env s) _ (announcing quiet) accepts

  after-refused :
      (x : ApiError)
      → s.status.ready_for_attach ≡ false
      → env.status_answer (messaged env s) (announced s) ≡ err x
      → after env s ≡ s
  unfolding after
  after-refused x quiet refuses =
      ap (stored env s) (announcing quiet)
      ∙ stored-refused env s _ _ x refuses
      ∙ stored-messaged env s

-- Of a session that is active, whose debugger runs, and that is not ready, with a webhook: where
-- the server accepts its update, its first run sends the message and stores it as ready, and every
-- later run, whatever their number, reads the pod and does nothing else.
pub announces_once :
    (env : Env) (s : DebugSession) (pod : Pod) (c : ContainerStatus) (k : ℕ)
    → ((h : History) (key : NamespacedName) → env.pod h key ≡ ok pod)
    → find_status pod.ephemeral_container_statuses (debugger_name s) ≡ some c
    → c.running ≡ true
    → (env.getenv "WEBHOOK_URL" ==s "") ≡ false
    → s.status.phase ≡ active
    → s.status.ready_for_attach ≡ false
    → env.status_answer (messaged env s) (announced s) ≡ ok (announced s)
    → ((reconcile_session env s []).1 ≡ updated_status (announced s) ∷ messaged env s)
      × ((reconcile_session env (after_runs (suc k) env s) []).1 ≡ pod_read s)
unfolding after_runs
announces_once env s pod c k pods found running url watched quiet accepts =
    let e = after-announced env s pod c pods found running url watched quiet accepts in
    let t = persist s (announced s) in
    let same =
      ap (after_runs k env) e
      ∙ after_runs-same k env t (still env t pod c pods found running url watched refl) in
    (
      announcing env s pod c pods found running url watched quiet,
      ap (λ x. (reconcile_session env x []).1) same
          ∙ silent env t pod c pods found running url watched refl,
    )

-- Of a session that is active, whose debugger runs, and that is not ready, with a webhook: where
-- the server refuses its update, every run, whatever their number, sends the message that it is
-- ready again, since it is sent before the update is stored.
pub reconcile_session-resends :
    (env : Env) (s : DebugSession) (pod : Pod) (c : ContainerStatus) (x : ApiError) (k : ℕ)
    → ((h : History) (key : NamespacedName) → env.pod h key ≡ ok pod)
    → find_status pod.ephemeral_container_statuses (debugger_name s) ≡ some c
    → c.running ≡ true
    → (env.getenv "WEBHOOK_URL" ==s "") ≡ false
    → s.status.phase ≡ active
    → s.status.ready_for_attach ≡ false
    → env.status_answer (messaged env s) (announced s) ≡ err x
    → (reconcile_session env (after_runs k env s) []).1
      ≡ updated_status (announced s) ∷ messaged env s
reconcile_session-resends env s pod c x k pods found running url watched quiet refuses =
    ap (λ y. (reconcile_session env y []).1)
      (after_runs-same k env s
        (after-refused env s pod c pods found running url watched x quiet refuses))
    ∙ announcing env s pod c pods found running url watched quiet

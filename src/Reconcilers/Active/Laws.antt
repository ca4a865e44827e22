-- ===== src/Reconcilers/Active/Laws.antt =====
-- When a session is ready for a connection.
use kube_debug_sess.Prelude.{◌≡◌, refl, Bool, true, false, Option, none, some, ◌∷◌, ◌⊎◌, arith}
use kube_debug_sess.Api.{DebugSession}
use kube_debug_sess.Api.SessionPhase.{failed}
use kube_debug_sess.Kube.{ContainerStatus, ApiError, err}
use kube_debug_sess.Cluster.{Env, History, got_pod, updated_status}
use kube_debug_sess.SessionPhases.Outcome.{finish}
use kube_debug_sess.SessionPhases.Update.{
  with_namespace, with_phase, target_pod, update_session_status,
}
use kube_debug_sess.SessionPhases.Reason.{analyze_container_status}
use kube_debug_sess.Updates.{Updates}
use kube_debug_sess.Reconcilers.Webhook
use kube_debug_sess.Reconcilers.Active.{observe, reconcile, with_ready}

abbrev is_running : Option ContainerStatus → Bool
is_running none = false
is_running (some c) = c.running

module _ (s : DebugSession) where
  -- A session that is stored: it is not ready, or its container runs and its phase is as it was.
  abbrev RunsIfReady : Option ContainerStatus → DebugSession → Type 0
  RunsIfReady o t =
      (t.status.ready_for_attach ≡ false)
      ⊎ (is_running o ≡ true) × (t.status.phase ≡ s.status.phase)

module _ (env : Env) (s : DebugSession) (h : History) where
  -- Where it holds of the sessions stored before, it holds after: a stored session is not ready, or
  -- the container runs and the session's phase is as it was.
  pub observe-ready :
      (o : Option ContainerStatus)
      → Updates (RunsIfReady s o) h
      → Updates (RunsIfReady s o) (observe env o s h).1
  unfolding observe Webhook.send_webhook_if_configured Webhook.build_webhook_payload
  observe-ready none u = u
  observe-ready (some c) u = grind arith

  -- A session that is ready and whose container runs is left alone: no update and no second
  -- message.
  pub observe-announced :
      (c : ContainerStatus)
      → c.running ≡ true
      → observe env (some c) (with_ready s true) h ≡ (finish, h)
  unfolding observe analyze_container_status
  observe-announced c r = ground arith

  -- Where the pod is not found the session is stored as failed, with its readiness and its token as
  -- they were.
  pub reconcile-missing_pod :
      (e : ApiError)
      → env.pod h (target_pod (with_namespace s)) ≡ err e
      → e.is_not_found ≡ true
      → let t = with_phase (with_namespace s) failed "Target pod not found." in
        ((reconcile env s h).1 ≡ updated_status t ∷ got_pod (target_pod (with_namespace s)) ∷ h)
        × (t.status.ready_for_attach ≡ s.status.ready_for_attach)
        × (t.status.one_time_token ≡ s.status.one_time_token)
  unfolding reconcile update_session_status
  reconcile-missing_pod e answer gone = (ground arith, refl, refl)

  -- The webhook is called, then the session is stored as ready.
  pub observe-announces :
      (c : ContainerStatus)
      → c.running ≡ true
      → s.status.ready_for_attach ≡ false
      → (observe env (some c) s h).1
        ≡ updated_status (with_ready s true)
          ∷ (Webhook.send_webhook_if_configured env (with_ready s true) h).1
  unfolding observe
  observe-announces c r quiet = ground arith

  pub observe-running :
      (c : ContainerStatus)
      → c.running ≡ true
      → s.status.ready_for_attach ≡ true
      → observe env (some c) s h ≡ (finish, h)
  unfolding observe analyze_container_status
  observe-running c r ready = ground arith

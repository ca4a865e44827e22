-- ===== src/Reconcilers/Active.antt =====
-- internal/controller/session_phases/reconcilers/active_reconciler.go: `Reconcile`, its
-- handlers and their map.
pub mod Laws
pub mod Steps
use kube_debug_sess.Prelude.{
  String, Bool, true, false, not, ◌&&◌, Option, none, some, if◌then◌else◌,
}
use kube_debug_sess.Prelude.Int.{pos}
use kube_debug_sess.Api.{SessionPhase, DebugSession}
use kube_debug_sess.Kube.{ContainerStatus, ok, err}
use kube_debug_sess.Cluster.{Env, M, pure, ◌>>=◌, get_pod, update_status}
use kube_debug_sess.SessionPhases.Outcome.{seconds, plain, Outcome, finish, requeue, errored}
use kube_debug_sess.SessionPhases.Update.{
  with_namespace, target_pod, debugger_name, update_session_status,
}
use kube_debug_sess.SessionPhases.Reason.{
  ReasonAction, action_wait, action_retry, action_fail, action_succeed, analyze_container_status,
}
use kube_debug_sess.Reconcilers.Containers.{find_status}
use kube_debug_sess.Reconcilers.Injecting.{with_debugger}
use kube_debug_sess.Reconcilers.Webhook.{send_webhook_if_configured}

abbrev pub with_ready : DebugSession → Bool → DebugSession
with_ready s ready = record s { status = record (s.status) { ready_for_attach = ready } }

-- A handler of a verdict, given the session and the message.
abbrev pub ActionHandler : Type 0
ActionHandler = DebugSession → String → M Outcome

-- `action == session_phases.ActionWait`
abbrev is_wait : ReasonAction → Bool
is_wait action_wait = true
is_wait action_retry = false
is_wait action_fail = false
is_wait action_succeed = false

module _ (env : Env) where
  unfoldable pub handle_retry : DebugSession → String → M Outcome
  unfolding update_session_status
  handle_retry s message =
      update_session_status env (record s { status = record (s.status) { retry_count = pos 1 } })
        SessionPhase.retrying message

  unfoldable pub handle_fail : DebugSession → String → M Outcome
  unfolding update_session_status
  handle_fail s message = update_session_status env s SessionPhase.failed message

  unfoldable handle_succeed : DebugSession → String → M Outcome
  unfolding update_session_status
  handle_succeed s message = update_session_status env s SessionPhase.terminating message

  unfoldable handle_wait : DebugSession → String → M Outcome
  handle_wait s message = pure finish

  -- The map of `NewActiveReconciler`.
  unfoldable action_handlers : ReasonAction → Option ActionHandler
  unfolding handle_retry handle_fail handle_succeed handle_wait
  action_handlers action_retry = some handle_retry
  action_handlers action_fail = some handle_fail
  action_handlers action_succeed = some handle_succeed
  action_handlers action_wait = some handle_wait

  -- `ReadyForAttach` is cleared for each action but ActionWait.
  unfoldable pub handle : ReasonAction → DebugSession → String → M Outcome
  unfolding action_handlers
  handle action s message = elim (action_handlers action) [
    | none ↦ pure finish
    | some handler ↦ handler (if is_wait action then s else with_ready s false) message
  ]

  -- The container runs for the first time.
  unfoldable pub announce : DebugSession → M Outcome
  announce s₀ =
      let s : DebugSession = with_ready s₀ true in
      do
        _ ← send_webhook_if_configured env s
        answer ← update_status env s
        pure (elim answer [ err e ↦ errored (plain e.text) | ok s' ↦ finish ])

  -- The body of the loop at the debugger's status, and the end of `Reconcile` where there is none.
  unfoldable pub observe : Option ContainerStatus → DebugSession → M Outcome
  unfolding handle announce
  observe none s = pure (requeue (seconds 5))
  observe (some c) s =
      if c.running && not s.status.ready_for_attach
      then announce s
      else (let (action, message) = analyze_container_status c in handle action s message)

  unfoldable pub reconcile : DebugSession → M Outcome
  unfolding observe
  reconcile s₀ =
      let s : DebugSession = with_namespace s₀ in
      do
        answer ← get_pod env (target_pod s)
        elim answer [
          | err e ↦
              if e.is_not_found
              then update_session_status env s SessionPhase.failed "Target pod not found."
              else pure (errored (plain e.text))
          | ok pod ↦
              let s' : DebugSession = with_debugger s in
              observe (find_status pod.ephemeral_container_statuses (debugger_name s')) s'
        ]

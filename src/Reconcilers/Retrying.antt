-- ===== src/Reconcilers/Retrying.antt =====
-- internal/controller/session_phases/reconcilers/retrying_reconciler.go
pub mod Backoff
pub mod Wait
pub mod Laws
pub mod Steps
use kube_debug_sess.Prelude.{String, Bool, Option, none, some, ◌<>◌, if◌then◌else◌}
use kube_debug_sess.Prelude.Int.{ℤ, pos, leb_ℤ, wrap}
use kube_debug_sess.Prelude.Decimal.{show_int}
use kube_debug_sess.Api.{SessionPhase, DebugSession}
use kube_debug_sess.Kube.{ContainerStatus, ok, err}
use kube_debug_sess.Cluster.{Env, M, pure, ◌>>=◌, get_pod, update_status}
use kube_debug_sess.SessionPhases.Outcome.{plain, Outcome, requeue, errored, panicked}
use kube_debug_sess.SessionPhases.Update.{
  with_namespace, target_pod, debugger_name, update_session_status,
}
use kube_debug_sess.SessionPhases.Reason.{
  ReasonAction, action_wait, action_retry, action_fail, action_succeed, analyze_container_status,
}
use kube_debug_sess.Reconcilers.Containers.{find_status}
use kube_debug_sess.Reconcilers.Active.{ActionHandler}
use Backoff.{next_count, wait_duration}

-- `int32(session.Status.RetryCount) >= session.Spec.MaxRetryCount`
abbrev pub is_exhausted : DebugSession → Bool
is_exhausted s = leb_ℤ s.spec.max_retry_count (wrap 32 s.status.retry_count)

-- `session.Status.RetryCount++` and the message that tells of it.
abbrev pub with_retry : DebugSession → String → DebugSession
with_retry s reason = record s {
  status = record (s.status) {
    retry_count = next_count s.status.retry_count;
    message =
        "Retrying... ("
        <> (show_int (next_count s.status.retry_count)
            <> ("/" <> (show_int s.spec.max_retry_count <> ("), Reason: " <> reason))));
  };
}

module _ (env : Env) where
  unfoldable handle_resolved : DebugSession → String → M Outcome
  unfolding update_session_status
  handle_resolved s message =
      update_session_status env (record s { status = record (s.status) { retry_count = pos 0 } })
        SessionPhase.active "Session is now active."

  unfoldable pub handle_fail : DebugSession → String → M Outcome
  unfolding update_session_status
  handle_fail s message = update_session_status env s SessionPhase.failed message

  -- The update, then the wait; a shift by a negative count panics before either.
  unfoldable pub retry_later : DebugSession → String → Option ℤ → M Outcome
  retry_later s message none = pure panicked
  retry_later s message (some wait) = do
    answer ← update_status env (with_retry s message)
    pure (elim answer [ err e ↦ errored (plain e.text) | ok s' ↦ requeue wait ])

  unfoldable pub handle_retry : DebugSession → String → M Outcome
  unfolding update_session_status retry_later
  handle_retry s message =
      if is_exhausted s
      then update_session_status env s SessionPhase.failed "Failed after max retries."
      else retry_later s message (wait_duration (next_count s.status.retry_count))

  -- The map of `NewRetryingReconciler`.
  unfoldable action_handlers : ReasonAction → Option ActionHandler
  unfolding handle_resolved handle_fail handle_retry
  action_handlers action_wait = some handle_resolved
  action_handlers action_succeed = some handle_resolved
  action_handlers action_fail = some handle_fail
  action_handlers action_retry = some handle_retry

  unfoldable pub handle : ReasonAction → DebugSession → String → M Outcome
  unfolding action_handlers
  handle action s message = elim (action_handlers action) [
    | none ↦ handle_retry s "unknown reason"
    | some handler ↦ handler s message
  ]

  unfoldable pub observe : Option ContainerStatus → DebugSession → M Outcome
  unfolding handle update_session_status
  observe none s =
      update_session_status env s SessionPhase.failed "Debugger container disappeared during retry."
  observe (some c) s = let (action, message) = analyze_container_status c in handle action s message

  unfoldable pub reconcile : DebugSession → M Outcome
  unfolding update_session_status
  reconcile s₀ =
      let s : DebugSession = with_namespace s₀ in
      do
        answer ← get_pod env (target_pod s)
        elim answer [
          | err e ↦
              update_session_status env s SessionPhase.failed "Target pod not found during retry."
          | ok pod ↦ observe (find_status pod.ephemeral_container_statuses (debugger_name s)) s
        ]

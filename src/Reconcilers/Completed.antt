-- ===== src/Reconcilers/Completed.antt =====
-- internal/controller/session_phases/reconcilers/completed_reconciler.go
use kube_debug_sess.Api.{SessionPhase, DebugSession}
use kube_debug_sess.Kube.{ok, err}
use kube_debug_sess.Cluster.{Env, M, pure, ◌>>=◌, update_status}
use kube_debug_sess.SessionPhases.Outcome.{Outcome, finish}
use kube_debug_sess.SessionPhases.Update.{update_session_status}

abbrev pub with_completed_message : DebugSession → DebugSession
with_completed_message s = record s {
  status = record (s.status) { message = "Session Completed." };
}

unfoldable pub reconcile : Env → DebugSession → M Outcome
unfolding update_session_status
reconcile env s = do
  answer ← update_status env (with_completed_message s)
  elim answer [
    | err e ↦ update_session_status env (with_completed_message s) SessionPhase.failed e.text
    | ok s' ↦ pure finish
  ]

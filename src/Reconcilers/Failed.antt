-- ===== src/Reconcilers/Failed.antt =====
-- internal/controller/session_phases/reconcilers/failed_reconciler.go
use kube_debug_sess.Api.{DebugSession}
use kube_debug_sess.Cluster.{Env, M, pure}
use kube_debug_sess.SessionPhases.Outcome.{Outcome, finish}

unfoldable pub reconcile : Env → DebugSession → M Outcome
reconcile env s = pure finish

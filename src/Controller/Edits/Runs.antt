-- ===== src/Controller/Edits/Runs.antt =====
-- Whole runs, by the phase of the session.
use kube_debug_sess.Prelude.{arith}
use kube_debug_sess.Prelude.Int.{pos}
use kube_debug_sess.Api.{SessionPhase, phase_text, DebugSession}
use kube_debug_sess.Api.SessionPhase.{
  unset, pending, injecting, active, retrying, terminating, completed, failed, other,
}
use kube_debug_sess.Cluster.{Env, History}
use kube_debug_sess.SessionPhases.Outcome.{seconds, Outcome}
use kube_debug_sess.SessionPhases.Update.{with_namespace}
use kube_debug_sess.Updates.{Updates}
use kube_debug_sess.Reconcilers.Failed
use kube_debug_sess.Controller.{reconciler_for, run_reconciler, reconcile_session}
use kube_debug_sess.Controller.Edits.{MayRetry, IsKept, IsCalm, Good}
use kube_debug_sess.Controller.Edits.Checking.{pending-Good, completed-Good, terminating-Good}
use kube_debug_sess.Controller.Edits.Watching.{active-Good, retrying-Good}
use kube_debug_sess.Controller.Edits.Adding.{injecting-Good}

module _ (env : Env) (P : DebugSession → Type 0) (k : IsKept env P) (Q : Outcome → Type 0)
    (calm : IsCalm Q) where
  run-Good :
      (s : DebugSession) (h : History) (p : SessionPhase)
      → MayRetry P Q (with_namespace s)
      → P s
      → Updates P h
      → Good P Q (run_reconciler (reconciler_for env p) s h)
  unfolding run_reconciler reconciler_for Failed.reconcile phase_text
  run-Good s h unset may p up = pending-Good env P k Q calm s h p up
  run-Good s h pending may p up = pending-Good env P k Q calm s h p up
  run-Good s h injecting may p up = injecting-Good env P k Q calm s h p up
  run-Good s h active may p up = active-Good env P k Q calm s h p up
  run-Good s h retrying may p up = retrying-Good env P k Q calm s h may p up
  run-Good s h terminating may p up = terminating-Good env P k Q calm s h p up
  run-Good s h completed may p up = completed-Good env P k Q calm s h p up
  run-Good s h failed may p up = (calm.quiet _, up)
  run-Good s h (other text) may p up =
      let a = active-Good env P k Q calm s h p up in
      let c = completed-Good env P k Q calm s h p up in
      let i = injecting-Good env P k Q calm s h p up in
      let q = pending-Good env P k Q calm s h p up in
      let r = retrying-Good env P k Q calm s h may p up in
      let t = terminating-Good env P k Q calm s h p up in
      let f = calm.quiet (record { requeue_after = pos 0 }) in
      let n = calm.quiet (record { requeue_after = seconds 30 }) in ground arith

  pub reconcile_session-Good :
      (s : DebugSession) (h : History)
      → MayRetry P Q (with_namespace s)
      → P s
      → Updates P h
      → Good P Q (reconcile_session env s h)
  unfolding reconcile_session
  reconcile_session-Good s h may p up = run-Good s h s.status.phase may p up

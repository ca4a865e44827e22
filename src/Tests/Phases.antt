-- ===== src/Tests/Phases.antt =====
-- Sessions that move through their phases.
use mathlib.Core.List.{Memᴰ}
use kube_debug_sess.Prelude.{◌≡◌, refl, true, []}
use kube_debug_sess.Api.{phase_text, phase_of, DebugSession}
use kube_debug_sess.Api.SessionPhase.{active, terminating}
use kube_debug_sess.Cluster.{updated_status}
use kube_debug_sess.SessionPhases.Update.{update_session_status}
use kube_debug_sess.Updates.{Updates}
use kube_debug_sess.Reconcilers.Terminating.{
  record_cleanup, upload_logs_to_s3, store_log, collect_log, fetch_ephemeral_logs,
  cleanup_ephemeral_container, cleaned_log,
}
use kube_debug_sess.Reconcilers.Containers.{is_ephemeral_container_present}
use kube_debug_sess.Reconcilers.Logs.{read_log}
use kube_debug_sess.Reconcilers.Terminating
use kube_debug_sess.Controller.{reconcile_session}
use kube_debug_sess.Controller.Diagram.{Follows}
use kube_debug_sess.Controller.Runs.{
  IsCanonical, reconcile_session-Follows, persist, Run, start, step, Run-completed,
}
use kube_debug_sess.Tests.Samples.{
  ended, in_phase, pod_with, running_debugger, calm, calm-KeepsStatus,
}

active-IsCanonical : IsCanonical active
unfolding phase_text phase_of
active-IsCanonical = refl

terminating-IsCanonical : IsCanonical terminating
unfolding phase_text phase_of
terminating-IsCanonical = refl

reconcile_session-Follows_example :
    Updates
      (Follows active)
      (reconcile_session (calm (pod_with true running_debugger)) (in_phase active) []).1
reconcile_session-Follows_example =
    reconcile_session-Follows (calm (pod_with true running_debugger)) (in_phase active)
      (calm-KeepsStatus (pod_with true running_debugger)) active-IsCanonical

last-stored :
    Memᴰ
      (updated_status ended)
      (reconcile_session (calm (pod_with true running_debugger)) (in_phase terminating) []).1
unfolding reconcile_session Terminating.reconcile update_session_status cleanup_ephemeral_container
    collect_log fetch_ephemeral_logs store_log upload_logs_to_s3 record_cleanup
    is_ephemeral_container_present cleaned_log read_log
last-stored = Memᴰ.head refl

abbrev last_run : Run (in_phase terminating) (persist (in_phase terminating) ended)
last_run =
    step (calm (pod_with true running_debugger)) (calm-KeepsStatus (pod_with true running_debugger))
      last-stored start

Run-completed_example :
    (u : DebugSession) × Run (in_phase terminating) u
    × (u.status.phase ≡ terminating)
    × Run u (persist (in_phase terminating) ended)
Run-completed_example = Run-completed terminating-IsCanonical (λ e. cc) refl last_run

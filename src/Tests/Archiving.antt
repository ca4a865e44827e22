-- ===== src/Tests/Archiving.antt =====
-- Two sessions on one pod, whose logs are stored at the same time.
use mathlib.Core.Path.{subst}
use mathlib.Core.Bool.{false≢true}
use mathlib.Core.List.{Memᴰ}
use kube_debug_sess.Prelude.{◌≡◌, ◌≢◌, refl, ℕ, true, List, [], ◌∷◌, eq_iff, arith}
use kube_debug_sess.Prelude.Texts.{Lacks}
use kube_debug_sess.Api.{DebugSession}
use kube_debug_sess.Api.SessionPhase.{terminating}
use kube_debug_sess.Kube.{Pod}
use kube_debug_sess.Cluster.{Env, put_object}
use kube_debug_sess.SessionPhases.Update.{update_session_status}
use kube_debug_sess.Reconcilers.Containers.{is_ephemeral_container_present}
use kube_debug_sess.Reconcilers.Logs.{clean_log_data, read_log}
use kube_debug_sess.Reconcilers.Terminating.{
  log_key, reconcile, cleanup_ephemeral_container, collect_log, fetch_ephemeral_logs, store_log,
  upload_logs_to_s3, record_cleanup, cleaned_log,
}
use kube_debug_sess.Reconcilers.Terminating.Archives.{PlainNamespaces, archives_apart}
use kube_debug_sess.Tests.Samples.{in_phase, pod_with, sample_debugger, running_debugger, calm}

abbrev shared_pod : Pod
shared_pod = record (pod_with true running_debugger) {
  ephemeral_containers = sample_debugger ∷ record sample_debugger { name = "debugger-8" } ∷ [];
}

abbrev crowded : Env
crowded = calm shared_pod

crowded-PlainNamespaces : PlainNamespaces crowded
crowded-PlainNamespaces = record {
  plain = λ h key pod e.
      let same : "shop" ≡ pod.namespace = cc e in
      subst (Lacks b'/') same (omega arith, (omega arith, (omega arith, (omega arith, tt))));
}

abbrev neighbour : DebugSession
neighbour = record (in_phase terminating) { name = "neighbour"; uid = "8" }

abbrev chunks : List ℕ
chunks = b'l' ∷ b's' ∷ 0x1b ∷ b'[' ∷ b'm' ∷ b'\r' ∷ b'\n' ∷ []

first-stored :
    Memᴰ
      (put_object "" (log_key shared_pod "debugger-7" 1700000000) (clean_log_data chunks))
      (reconcile crowded (in_phase terminating) []).1
unfolding reconcile update_session_status cleanup_ephemeral_container collect_log
    fetch_ephemeral_logs store_log upload_logs_to_s3 record_cleanup is_ephemeral_container_present
    cleaned_log read_log
first-stored = Memᴰ.tail (Memᴰ.tail (Memᴰ.tail (Memᴰ.head refl)))

second-stored :
    Memᴰ
      (put_object "" (log_key shared_pod "debugger-8" 1700000000) (clean_log_data chunks))
      (reconcile crowded neighbour []).1
unfolding reconcile update_session_status cleanup_ephemeral_container collect_log
    fetch_ephemeral_logs store_log upload_logs_to_s3 record_cleanup is_ephemeral_container_present
    cleaned_log read_log
second-stored = Memᴰ.tail (Memᴰ.tail (Memᴰ.tail (Memᴰ.head refl)))

archives_apart_example :
    log_key shared_pod "debugger-7" 1700000000 ≢ log_key shared_pod "debugger-8" 1700000000
archives_apart_example =
    archives_apart crowded crowded (in_phase terminating) neighbour "" ""
      (log_key shared_pod "debugger-7" 1700000000) (log_key shared_pod "debugger-8" 1700000000)
      (clean_log_data chunks) (clean_log_data chunks) crowded-PlainNamespaces
      crowded-PlainNamespaces first-stored second-stored (λ e. false≢true ((eq_iff "7" "8").1 e))

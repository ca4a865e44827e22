-- ===== src/Tests/Reconciling.antt =====
-- Single runs of the reconcilers.
use mathlib.Core.List.{Memᴰ}
use kube_debug_sess.Prelude.{◌+◌, ℕ, ◌≡◌, refl, ◌+◌, ◌≤◌, true, List, [], ◌∷◌, arith}
use kube_debug_sess.Prelude.Int.{negsuc}
use kube_debug_sess.Api.{DebugSession}
use kube_debug_sess.Api.SessionPhase.{injecting, retrying, terminating}
use kube_debug_sess.Kube.{ok}
use kube_debug_sess.Cluster.{History, Env, updated_status, got_pod, opened_log}
use kube_debug_sess.SessionPhases.Outcome.{requeue}
use kube_debug_sess.SessionPhases.Update.{
  with_namespace, target_pod, debugger_name, update_session_status,
}
use kube_debug_sess.SessionPhases.Reason.{analyze_container_status}
use kube_debug_sess.Reconcilers.Retrying.Backoff.{next_count, shift_one, wait_duration}
use kube_debug_sess.Reconcilers.Containers.{find_status, is_ephemeral_container_present}
use kube_debug_sess.Reconcilers.Logs.{read_log}
use kube_debug_sess.Reconcilers.Injecting.{with_token, with_debugger}
use kube_debug_sess.Reconcilers.Injecting.Token.{encode_to_string, fill}
use kube_debug_sess.Reconcilers.Retrying
use kube_debug_sess.Reconcilers.Retrying.{with_retry, handle_retry}
use kube_debug_sess.Reconcilers.Retrying.Laws.{handle_retry-overflow, Retries, Retries-bound}
use kube_debug_sess.Reconcilers.Terminating
use kube_debug_sess.Reconcilers.Terminating.{
  cleanup_ephemeral_container, store_log, collect_log, fetch_ephemeral_logs, upload_logs_to_s3,
  record_cleanup, cleaned_log,
}
use kube_debug_sess.Reconcilers.Terminating.Laws.{CleanedUp, reconcile-CleanedUp}
use kube_debug_sess.Tests.Samples.{
  ended, in_phase, session_at, pod_with, running_debugger, waiting_for, calm, sample_log,
}

abbrev quiet : Env
quiet = calm (pod_with true running_debugger)

ended-stored : Memᴰ (updated_status ended) (Terminating.reconcile quiet (in_phase terminating) []).1
unfolding Terminating.reconcile update_session_status cleanup_ephemeral_container collect_log
    fetch_ephemeral_logs store_log upload_logs_to_s3 record_cleanup is_ephemeral_container_present
    cleaned_log read_log
ended-stored = Memᴰ.head refl

reconcile-CleanedUp_example :
    CleanedUp quiet
      (in_phase terminating)
      (cleanup_ephemeral_container quiet (in_phase terminating) []).1
reconcile-CleanedUp_example =
    reconcile-CleanedUp quiet (in_phase terminating) ended (λ e. cc) ended-stored refl

raw_log : List ℕ
raw_log = b'l' ∷ b's' ∷ 0x1b ∷ b'[' ∷ b'm' ∷ b'\r' ∷ b'\n' ∷ []

abbrev reading : History
reading =
    opened_log "shop" "web" "debugger-7"
    ∷ got_pod (target_pod (with_namespace (in_phase terminating)))
    ∷ []

sample_log-read : read_log sample_log [] ≡ ok raw_log
unfolding read_log raw_log
sample_log-read = refl

debugger-present :
    is_ephemeral_container_present
      (pod_with true running_debugger).ephemeral_containers
      (debugger_name (in_phase terminating))
    ≡ true
unfolding is_ephemeral_container_present
debugger-present = refl

abbrev once_retried : DebugSession
once_retried = session_at retrying 1 3

handle_retry-overflow_example :
    (handle_retry quiet (session_at retrying 31 40) "ErrX" []).0
    ≡ requeue (negsuc 7_709_325_833_709_551_615)
handle_retry-overflow_example =
    handle_retry-overflow quiet (session_at retrying 31 40)
      (with_retry (session_at retrying 31 40) "ErrX") "ErrX" [] 40 refl refl (omega arith)
      (omega arith) refl

abbrev slow : Env
slow = calm (pod_with true (waiting_for "ImagePullBackOff"))

abbrev twice_retried : DebugSession
twice_retried =
    with_retry (with_namespace once_retried) "Container is waiting. Reason: ImagePullBackOff"

retry-stored : Memᴰ (updated_status twice_retried) (Retrying.reconcile slow once_retried []).1
unfolding Retrying.reconcile Retrying.observe find_status analyze_container_status handle_retry
    wait_duration shift_one next_count
retry-stored = Memᴰ.head refl

Retries-bound_example : 1 + 1 ≤ 3
Retries-bound_example =
    Retries-bound 1 3 1 once_retried (record once_retried { status = twice_retried.status }) refl
      refl (omega arith) (omega arith) (Retries.once_more slow retry-stored refl Retries.done)

-- The session of the injection: with its token, then with its container, then as active.
abbrev s₁ : DebugSession
s₁ = with_namespace (in_phase injecting)

abbrev s₂ : DebugSession
s₂ = with_token s₁ (encode_to_string (fill 32 (λ i. i + 250)))

abbrev s₃ : DebugSession
s₃ = with_debugger s₂

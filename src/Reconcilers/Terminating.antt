-- ===== src/Reconcilers/Terminating.antt =====
-- internal/controller/session_phases/reconcilers/terminating_reconciler.go, but for the log's text.
-- The bucket is read from the environment when the reconciler is made; the S3 client is outside.
pub mod Laws
pub mod Archives
use kube_debug_sess.Prelude.{ℕ, String, List, Option, none, some, ◌<>◌, if◌then◌else◌}
use kube_debug_sess.Prelude.Decimal.{show_nat}
use kube_debug_sess.Api.{SessionPhase, DebugSession}
use kube_debug_sess.Kube.{Pod, ApiError, Fallible, ok, err, LogStream}
use kube_debug_sess.Cluster.{Env, M, pure, ◌>>=◌, get_pod, update_status, now, open_log, put}
use kube_debug_sess.SessionPhases.Outcome.{GoError, plain, error_text, Outcome}
use kube_debug_sess.SessionPhases.Update.{
  with_namespace, target_pod, debugger_name, update_session_status,
}
use kube_debug_sess.Reconcilers.Containers.{is_ephemeral_container_present}
use kube_debug_sess.Reconcilers.Logs.{clean_log_data, read_log}

-- The text for a pod that cannot be read.
abbrev pod_error : ApiError → DebugSession → String
pod_error e s =
    if e.is_not_found
    then "target pod '" <> (s.spec.target_pod_name <> "' not found")
    else "failed to get target pod: " <> e.text

abbrev pub with_termination_time : DebugSession → ℕ → DebugSession
with_termination_time s t = record s { status = record (s.status) { termination_time = some t } }

abbrev pub log_key : Pod → String → ℕ → String
log_key pod container t =
    "debug-sessions/" <> (pod.namespace <> ("/" <> (container <> ("-" <> (show_nat t <> ".log")))))

-- After the stream is open.
unfoldable pub cleaned_log : LogStream → Fallible String (List ℕ)
cleaned_log stream = elim (read_log stream List.[]) [
  | err e ↦ err ("error reading log stream: " <> e)
  | ok raw ↦ ok (clean_log_data raw)
]

module _ (env : Env) where
  unfoldable pub fetch_ephemeral_logs : Pod → String → M (Fallible String (List ℕ))
  fetch_ephemeral_logs pod container = do
    answer ← open_log env pod.namespace pod.name container
    pure (elim answer [
      | err e ↦ err ("failed to open log stream: " <> e.text)
      | ok stream ↦ cleaned_log stream
    ])

  unfoldable pub upload_logs_to_s3 : Pod → String → List ℕ → M (Fallible String String)
  upload_logs_to_s3 pod container log = do
    t ← now env
    answer ← put env (env.getenv "S3_BUCKET_NAME") (log_key pod container t) log
    pure (elim answer [
      | err e ↦ err ("S3 upload failed: " <> e.text)
      | ok _ ↦ ok (log_key pod container t)
    ])

  -- The end of the cleanup: a failed status update is logged and ignored.
  unfoldable pub record_cleanup : DebugSession → M (DebugSession × Option GoError)
  record_cleanup s = do
    answer ← update_status env s
    pure (elim answer [ err e ↦ (s, none) | ok s' ↦ (s', none) ])

  -- Once the log is at hand.
  unfoldable pub store_log :
      DebugSession → Pod → Fallible String (List ℕ) → M (DebugSession × Option GoError)
  unfolding record_cleanup upload_logs_to_s3
  store_log s pod (err e) = pure (s, some (plain ("failed to fetch ephemeral logs: " <> e)))
  store_log s pod (ok log) = do
    answer ← upload_logs_to_s3 pod (debugger_name s) log
    elim answer [
      | err e ↦ pure (s, some (plain ("failed to upload logs to S3: " <> e)))
      | ok key ↦ record_cleanup s
    ]

  -- Once the pod is at hand.
  unfoldable pub collect_log : DebugSession → Pod → M (DebugSession × Option GoError)
  collect_log s pod =
      if is_ephemeral_container_present pod.ephemeral_containers (debugger_name s)
      then (do answer ← fetch_ephemeral_logs pod (debugger_name s); store_log s pod answer)
      else pure (
        s,
        some (
            plain (
              "debugger container '"
              <> (debugger_name s <> ("' not found in pod '" <> (pod.name <> "'"))))),
      )

  -- `getTargetPod` writes the namespace into the session.
  unfoldable pub cleanup_ephemeral_container : DebugSession → M (DebugSession × Option GoError)
  cleanup_ephemeral_container s₀ =
      let s : DebugSession = with_namespace s₀ in
      do
        answer ← get_pod env (target_pod s)
        elim answer [ err e ↦ pure (s, some (plain (pod_error e s))) | ok pod ↦ collect_log s pod ]

  unfoldable pub conclude : DebugSession × Option GoError → M Outcome
  unfolding update_session_status
  conclude (s, some e) = update_session_status env s SessionPhase.failed (error_text e)
  conclude (s, none) = do
    t ← now env
    update_session_status env (with_termination_time s t) SessionPhase.completed
        "Termination Completed"

  unfoldable pub reconcile : DebugSession → M Outcome
  unfolding cleanup_ephemeral_container conclude
  reconcile s = do result ← cleanup_ephemeral_container s; conclude result

-- ===== src/Reconcilers/Pending.antt =====
-- internal/controller/session_phases/reconcilers/pending_reconciler.go
pub mod Laws
pub mod Steps
-- A method that returns an error and writes to the session returns both.
use kube_debug_sess.Prelude.{
  ◌≡◌, refl, String, Bool, true, false, ◌||◌, Option, none, some, List, [], ◌∷◌, ◌<>◌, ◌==s◌,
  if◌then◌else◌,
}
use kube_debug_sess.Api.{SessionPhase, phase_text, DebugSession}
use kube_debug_sess.Kube.{Pod, ApiError, ok, err}
use kube_debug_sess.Cluster.{Env, M, pure, ◌>>=◌, get_namespace, get_pod}
use kube_debug_sess.SessionPhases.Outcome.{
  seconds, GoError, plain, requeue_error, error_text, Outcome, requeue,
}
use kube_debug_sess.SessionPhases.Update.{
  with_namespace, with_container, target_pod, update_session_status,
}
use kube_debug_sess.Reconcilers.Containers.{find_container}

-- `err` as it is, or the text for an object that is not there.
abbrev lookup_error : ApiError → String → GoError
lookup_error e missing = if e.is_not_found then plain missing else plain e.text

-- Part 4: the container.
unfoldable pub check_container : DebugSession → Pod → DebugSession × Option GoError
check_container s pod =
    if find_container pod.containers s.spec.target_container_name then (s, none) else (
      s,
      some (plain ("target container '" <> (s.spec.target_container_name <> "' not found in pod"))),
    )

-- The defaulted container name.
default_container : DebugSession → Pod → List String → DebugSession × Option GoError
unfolding check_container
default_container s pod [] =
    (s, some (plain "cannot default container name, pod has no containers"))
default_container s pod (c ∷ cs) = check_container (with_container s c) pod

abbrev pub pod_running : String
pod_running = "Running"

abbrev pub pod_succeeded : String
pod_succeeded = "Succeeded"

abbrev pub pod_failed : String
pod_failed = "Failed"

-- Parts 3 and 4, once the pod is there.
unfoldable pub check_pod : DebugSession → Pod → DebugSession × Option GoError
unfolding check_container default_container
check_pod s pod =
    if pod.phase ==s pod_running
    then (if s.spec.target_container_name ==s ""
        then default_container s pod pod.containers
        else check_container s pod)
    else if pod.phase ==s pod_succeeded || pod.phase ==s pod_failed
    then (s, some (plain ("target pod is not running (current phase: " <> (pod.phase <> ")"))))
    else (
      s,
      some (
          requeue_error ("pod is not running yet (current phase: " <> (pod.phase <> ")"))
            (seconds 30)),
    )

-- `session.Status.Phase == ""`
unfoldable pub is_unset : SessionPhase → Bool
unfolding phase_text
is_unset phase = phase_text phase ==s ""

pub is_unset-unset : is_unset SessionPhase.unset ≡ true
unfolding is_unset
is_unset-unset = refl

pub is_unset-pending : is_unset SessionPhase.pending ≡ false
unfolding is_unset
is_unset-pending = refl

module _ (env : Env) where
  -- Parts 2 to 4.
  validate_pod : DebugSession → M (DebugSession × Option GoError)
  unfolding check_pod
  validate_pod s = do
    answer ← get_pod env (target_pod s)
    pure (elim answer [
      | err e ↦
          (s, some (lookup_error e ("target pod '" <> (s.spec.target_pod_name <> "' not found"))))
      | ok pod ↦ check_pod s pod
    ])

  unfoldable pub validate_prerequisites : DebugSession → M (DebugSession × Option GoError)
  unfolding validate_pod
  validate_prerequisites s₀ =
      let s : DebugSession = with_namespace s₀ in
      do
        answer ← get_namespace env s.spec.target_namespace
        elim answer [
          | err e ↦ pure (
            s,
            some (
                lookup_error e
                  ("target namespace '" <> (s.spec.target_namespace <> "' not found"))),
          )
          | ok _ ↦ validate_pod s
        ]

  -- What `Reconcile` does with the result of the validation.
  unfoldable pub conclude : DebugSession × Option GoError → M Outcome
  unfolding update_session_status
  conclude (s, none) =
      update_session_status env s SessionPhase.injecting "Prerequisites validated successfully."
  conclude (s, some (requeue_error reason after)) = pure (requeue after)
  conclude (s, some (plain text)) =
      update_session_status env s SessionPhase.failed (error_text (plain text))

  unfoldable pub reconcile : DebugSession → M Outcome
  unfolding update_session_status validate_prerequisites conclude
  reconcile s =
      if is_unset s.status.phase
      then update_session_status env s SessionPhase.pending "DebugSession created."
      else (do result ← validate_prerequisites s; conclude result)

-- ===== src/SessionPhases/Reason.antt =====
-- internal/controller/session_phases/reason_handler.go
pub mod Laws
use kube_debug_sess.Prelude.{String, Option, none, some, List, [], ◌∷◌, ◌<>◌}
use kube_debug_sess.Prelude.{◌==s◌, if◌then◌else◌}
use kube_debug_sess.Kube.{ContainerStatus}

-- `action_wait` and so on are ActionWait, ActionRetry, ActionFail, ActionSucceed.
pub data ReasonAction : Type 0 where
  action_wait action_retry action_fail action_succeed : ReasonAction

unfoldable pub lookup {ℓ} : {V : Type ℓ} → String → List (String × V) → Option V
lookup k [] = none
lookup k ((j, v) ∷ m) = if j ==s k then some v else lookup k m

abbrev waiting_reason_map : List (String × ReasonAction)
waiting_reason_map =
    ("ContainerCreating", action_wait)
    ∷ ("ImagePullBackOff", action_retry)
    ∷ ("RegistryUnavailable", action_retry)
    ∷ ("CrashLoopBackOff", action_retry)
    ∷ ("CreateContainerError", action_retry)
    ∷ ("RunContainerError", action_retry)
    ∷ ("NetworkPluginNotReady", action_retry)
    ∷ ("ErrImagePull", action_fail)
    ∷ ("InvalidImageName", action_fail)
    ∷ ("CreateContainerConfigError", action_fail)
    ∷ []

abbrev terminated_reason_map : List (String × ReasonAction)
terminated_reason_map =
    ("Completed", action_succeed)
    ∷ ("Error", action_fail)
    ∷ ("OOMKilled", action_fail)
    ∷ ("ContainerCannotRun", action_fail)
    ∷ ("DeadlineExceeded", action_fail)
    ∷ []

analyze_waiting : String → ReasonAction × String
unfolding lookup
analyze_waiting reason = elim (lookup reason waiting_reason_map) [
  | none ↦ (action_fail, "Unknown waiting reason '" <> (reason <> "'. Attempting to retry."))
  | some action ↦ (action, "Container is waiting. Reason: " <> reason)
]

analyze_terminated : String → ReasonAction × String
unfolding lookup
analyze_terminated reason = elim (lookup reason terminated_reason_map) [
  | none ↦ (action_fail, "Container terminated with unknown reason '" <> (reason <> "'."))
  | some action ↦ (action, "Container terminated. Reason: " <> reason)
]

-- The tests for `Waiting` and `Terminated`, once the container is not running.
analyze_stopped : Option String → Option String → ReasonAction × String
unfolding analyze_waiting analyze_terminated
analyze_stopped (some reason) _ = analyze_waiting reason
analyze_stopped none (some reason) = analyze_terminated reason
analyze_stopped none none = (action_wait, "Container status is not yet determined.")

unfoldable pub analyze_container_status : ContainerStatus → ReasonAction × String
unfolding analyze_stopped
analyze_container_status c =
    if c.running
    then (action_wait, "Session is running.")
    else analyze_stopped c.waiting c.terminated

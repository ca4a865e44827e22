-- ===== src/Tests/Parts.antt =====
-- The functions that the reconcilers share.
use mathlib.Core.List.{Memᴰ}
use kube_debug_sess.Prelude.{◌≡◌, ◌⊎◌, ◌↔◌, String, true, false, none, some, [], ◌∷◌, All}
use kube_debug_sess.Prelude.Int.{pos}
use kube_debug_sess.Api.{DebugSecurityContext}
use kube_debug_sess.Api.SessionPhase.{pending}
use kube_debug_sess.SessionPhases.Update.{with_container}
use kube_debug_sess.SessionPhases.Reason.{
  action_retry, action_succeed, action_wait, analyze_container_status,
}
use kube_debug_sess.SessionPhases.Reason.Laws.{
  ShouldRetry, ShouldSucceed, ShouldWait, analyze_container_status_iff,
}
use kube_debug_sess.Reconcilers.Pending.{check_pod, pod_running}
use kube_debug_sess.Reconcilers.Pending.Laws.{chosen_container, check_pod_iff}
use kube_debug_sess.Reconcilers.SecurityContexts.{build_security_context}
use kube_debug_sess.Reconcilers.SecurityContexts.Laws.{
  IsHardened, build_security_context-IsHardened, Drops, build_security_context-Drops,
}
use kube_debug_sess.Reconcilers.Logs.{clean_log_data}
use kube_debug_sess.Reconcilers.Logs.Laws.{IsClean, clean_log_data-IsClean}
use kube_debug_sess.Tests.Samples.{in_phase, pod_with, running_debugger, waiting_for}

analyze_container_status_iff_example :
    (((analyze_container_status (waiting_for "ImagePullBackOff")).0 ≡ action_retry)
      ↔ ShouldRetry (waiting_for "ImagePullBackOff"))
    × (((analyze_container_status (waiting_for "ImagePullBackOff")).0 ≡ action_succeed)
        ↔ ShouldSucceed (waiting_for "ImagePullBackOff"))
    × (((analyze_container_status (waiting_for "ImagePullBackOff")).0 ≡ action_wait)
        ↔ ShouldWait (waiting_for "ImagePullBackOff"))
analyze_container_status_iff_example = analyze_container_status_iff (waiting_for "ImagePullBackOff")

check_pod_iff_example :
    ((check_pod (in_phase pending) (pod_with true running_debugger)).1 ≡ none) ↔ (
      (((pod_with true running_debugger).phase) ≡ pod_running)
      × (c : String) × (chosen_container (in_phase pending) (pod_with true running_debugger)
          ≡ some c)
      × Memᴰ c (pod_with true running_debugger).containers
      × ((check_pod (in_phase pending) (pod_with true running_debugger)).0
          ≡ with_container (in_phase pending) c))
check_pod_iff_example = check_pod_iff (in_phase pending) (pod_with true running_debugger)

abbrev with_net_admin : DebugSecurityContext
with_net_admin = record {
  run_as_non_root = none;
  run_as_user = some (pos 0);
  run_as_group = none;
  privileged = none;
  allow_privilege_escalation = none;
  read_only_root_filesystem = some false;
  capabilities = some (record { add = some ("NET_ADMIN" ∷ []); drop = none });
}

build_security_context-IsHardened_example :
    IsHardened (some with_net_admin) (build_security_context (some with_net_admin))
build_security_context-IsHardened_example = build_security_context-IsHardened (some with_net_admin)

build_security_context-Drops_example :
    Drops "ALL" (build_security_context (some with_net_admin)).capabilities
    ↔ (with_net_admin.capabilities ≡ none) ⊎ Drops "ALL" with_net_admin.capabilities
build_security_context-Drops_example = build_security_context-Drops (some with_net_admin)

clean_log_data-IsClean_example :
    All IsClean (clean_log_data (0x1b ∷ b'[' ∷ b'm' ∷ b'\r' ∷ b'a' ∷ []))
clean_log_data-IsClean_example = clean_log_data-IsClean (0x1b ∷ b'[' ∷ b'm' ∷ b'\r' ∷ b'a' ∷ [])

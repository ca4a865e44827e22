-- ===== src/Tests/Repeats.antt =====
-- Runs of the same session again and again at concrete inputs: its retries and its message.
use kube_debug_sess.Prelude.{◌≡◌, refl, true, false, some, [], ◌∷◌, arith}
use kube_debug_sess.Prelude.Int.{pos}
use kube_debug_sess.Api.{DebugSession}
use kube_debug_sess.Api.SessionPhase.{active, retrying, failed}
use kube_debug_sess.Kube.{ContainerStatus, Pod, err}
use kube_debug_sess.Cluster.{Env, updated_status}
use kube_debug_sess.SessionPhases.Reason.{action_wait, action_retry, analyze_container_status}
use kube_debug_sess.Reconcilers.Containers.{find_status}
use kube_debug_sess.Controller.{reconcile_session}
use kube_debug_sess.System.Store.{after, after_runs}
use kube_debug_sess.System.Exhaustion.{after_runs-failed}
use kube_debug_sess.System.Relapses.{relapses, Shows, relapses-active}
use kube_debug_sess.System.Announcement.{
  announced, pod_read, messaged, announces_once, reconcile_session-resends,
}
use kube_debug_sess.Tests.Samples.{
  in_phase, session_at, pod_with, running_debugger, waiting_for, calm, not_found,
}

abbrev running_pod : Pod
running_pod = pod_with true running_debugger

running-found :
    find_status running_pod.ephemeral_container_statuses "debugger-7" ≡ some running_debugger
unfolding find_status
running-found = refl

-- A session in its last retry but one, whose debugger stays broken.
abbrev broken : ContainerStatus
broken = waiting_for "CrashLoopBackOff"

abbrev broken_pod : Pod
broken_pod = pod_with true broken

broken-found : find_status broken_pod.ephemeral_container_statuses "debugger-7" ≡ some broken
unfolding find_status
broken-found = refl

broken-retries : (analyze_container_status broken).0 ≡ action_retry
unfolding analyze_container_status
broken-retries = refl

after_runs-failed_example :
    let s = after_runs 2 (calm broken_pod) (session_at retrying 1 3) in
    (s.status.phase ≡ retrying)
    × (s.status.retry_count ≡ pos 3)
    × ((after (calm broken_pod) s).status.phase ≡ failed)
after_runs-failed_example =
    after_runs-failed (calm broken_pod) broken_pod broken (λ h key. refl) (λ h t. refl)
      broken-retries 2 1 (session_at retrying 1 3) broken-found refl refl refl (omega arith)

-- A cluster with a webhook, and one that also refuses each update.
abbrev notified : Env
notified = record (calm running_pod) { getenv = λ name. "https://example.org/hook" }

abbrev unsaved : Env
unsaved = record notified { status_answer = λ h t. err not_found }

abbrev quiet_session : DebugSession
quiet_session = record (in_phase active) {
  status = record ((in_phase active).status) { ready_for_attach = false };
}

announces_once_example :
    ((reconcile_session notified quiet_session []).1
      ≡ updated_status (announced quiet_session) ∷ messaged notified quiet_session)
    × ((reconcile_session notified (after_runs 4 notified quiet_session) []).1
        ≡ pod_read quiet_session)
announces_once_example =
    announces_once notified quiet_session running_pod running_debugger 3 (λ h key. refl)
      running-found refl refl refl refl refl

reconcile_session-resends_example :
    (reconcile_session unsaved (after_runs 3 unsaved quiet_session) []).1
    ≡ updated_status (announced quiet_session) ∷ messaged unsaved quiet_session
reconcile_session-resends_example =
    reconcile_session-resends unsaved quiet_session running_pod running_debugger not_found 3
      (λ h key. refl) running-found refl refl refl refl refl

broken-Shows : Shows (calm broken_pod) (session_at active 0 0) broken
broken-Shows = record {
  shown = broken_pod;
  pods = λ h key. refl;
  found = broken-found;
  accepts = λ h t. refl;
}

running-Shows : Shows (calm running_pod) (session_at active 0 0) running_debugger
running-Shows = record {
  shown = running_pod;
  pods = λ h key. refl;
  found = running-found;
  accepts = λ h t. refl;
}

running-waits : (analyze_container_status running_debugger).0 ≡ action_wait
unfolding analyze_container_status
running-waits = refl

-- Of a session that allows no retry at all.
relapses-active_example :
    let s = relapses 5 (calm broken_pod) (calm running_pod) (session_at active 0 0) in
    (s.status.phase ≡ active)
    × ((after (calm broken_pod) s).status.phase ≡ retrying)
    × ((after (calm broken_pod) s).status.retry_count ≡ pos 1)
relapses-active_example =
    relapses-active 5 (calm broken_pod) (calm running_pod) (session_at active 0 0) broken
      running_debugger broken-Shows running-Shows refl broken-retries running-waits refl

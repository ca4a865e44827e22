-- ===== src/Tests/Guarantees.antt =====
-- What holds in every cluster, at concrete ones: no panic, no effect of the order of a list, and no
-- change by a run whose updates are refused.
use kube_debug_sess.Prelude.{◌≡◌, ◌≢◌, refl, true, false, [], arith}
use kube_debug_sess.Api.{DebugSession}
use kube_debug_sess.Api.SessionPhase.{injecting, retrying}
use kube_debug_sess.Kube.{ApiError, Pod, err}
use kube_debug_sess.Cluster.{Env}
use kube_debug_sess.SessionPhases.Outcome.{panicked}
use kube_debug_sess.Controller.{reconcile_session}
use kube_debug_sess.System.Store.{after, Run-after}
use kube_debug_sess.System.Panics.{IsCounted, Run-returns}
use mathlib.Core.Equiv.{IsContr}
use kube_debug_sess.System.Unordered.{Answering, serve_http-IsContr}
use kube_debug_sess.System.Conflicts.{Refuses, Untouched, after_conflicts}
use kube_debug_sess.Tests.Samples.{
  in_phase, session_at, pod_with, running_debugger, waiting_for, calm, calm-KeepsStatus, proxy,
  attach_to_web,
}

-- A session in its first retry, whose debugger stays broken.
abbrev broken_pod : Pod
broken_pod = pod_with true (waiting_for "CrashLoopBackOff")

abbrev retried : DebugSession
retried = session_at retrying 1 3

retried-IsCounted : IsCounted retried
retried-IsCounted = (1, refl, omega arith)

Run-returns_example :
    (reconcile_session (calm broken_pod) (after (calm broken_pod) retried) []).0 ≢ panicked
Run-returns_example =
    Run-returns (calm broken_pod) (calm-KeepsStatus broken_pod) refl retried-IsCounted
      (Run-after (calm broken_pod) retried (calm-KeepsStatus broken_pod))

serve_http-IsContr_example : IsContr (Answering proxy attach_to_web)
serve_http-IsContr_example = serve_http-IsContr proxy attach_to_web

-- A cluster that answers every update of a status with a conflict.
abbrev conflict : ApiError
conflict = record { is_not_found = false; text = "the object has been modified" }

abbrev changed_since : Env
changed_since = record (calm (pod_with true running_debugger)) {
  status_answer = λ h t. err conflict;
}

changed_since-Refuses : Refuses changed_since
changed_since-Refuses = record { error = λ h t. conflict; refused = λ h t. refl }

after_conflicts_example :
    (after changed_since (in_phase injecting) ≡ in_phase injecting)
    × Untouched (reconcile_session changed_since (in_phase injecting) []).1
after_conflicts_example = after_conflicts changed_since (in_phase injecting) changed_since-Refuses

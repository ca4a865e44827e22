-- ===== src/Tests/Steps.antt =====
-- Runs of the reconcilers on their branches, and the controller's maps.
use mathlib.Core.Path.{subst}
use mathlib.Core.List.{Memᴰ}
use kube_debug_sess.Prelude.{
  ◌≡◌, refl, sym, ◌∙◌, ◌≢◌, ◌↔◌, inl, inr, true, false, ◌==s◌, if◌then◌else◌, eq_iff, Bool-cases,
  none, some, List, [], ◌∷◌, arith,
}
use kube_debug_sess.Api.{DebugSession}
use kube_debug_sess.Api.SessionPhase.{active, injecting}
use kube_debug_sess.Kube.{Pod, ok}
use kube_debug_sess.Cluster.{Env, got_pod, updated_status}
use kube_debug_sess.SessionPhases.Update.{with_namespace, target_pod}
use kube_debug_sess.SessionPhases.Reason.{action_wait, analyze_container_status}
use kube_debug_sess.Reconcilers.Containers.{find_status}
use kube_debug_sess.Reconcilers.Injecting
use kube_debug_sess.Reconcilers.Injecting.Safety.{Injections, Sanctioned, reconcile-Injections}
use kube_debug_sess.Reconcilers.Active
use kube_debug_sess.Reconcilers.Active.Steps.{next_phase, reconcile-stopped}
use kube_debug_sess.Controller.{index_key, request_of, find_sessions_for_pod}
use kube_debug_sess.Controller.Requests.{Indexed}
use kube_debug_sess.Controller.Targets.{HasNoSlash, find_sessions_for_pod_targets}
use kube_debug_sess.Prelude.{All}
use kube_debug_sess.Tests.Samples.{in_phase, pod_with, running_debugger, waiting_for, calm}

reconcile-Injections_example :
    Injections
      (Sanctioned (calm (pod_with true running_debugger)) (in_phase injecting))
      (Injecting.reconcile (calm (pod_with true running_debugger)) (in_phase injecting) []).1
reconcile-Injections_example =
    reconcile-Injections (calm (pod_with true running_debugger)) (in_phase injecting)

abbrev failing_pod : Pod
failing_pod = pod_with true (waiting_for "ErrImagePull")

failing-found :
    find_status failing_pod.ephemeral_container_statuses "debugger-7"
    ≡ some (waiting_for "ErrImagePull")
unfolding find_status
failing-found = refl

failing-verdict : (analyze_container_status (waiting_for "ErrImagePull")).0 ≢ action_wait
unfolding analyze_container_status
failing-verdict = λ e. cc

reconcile-stopped_example :
    (t : DebugSession) × ((Active.reconcile (calm failing_pod) (in_phase active) []).1
      ≡ updated_status t ∷ got_pod (target_pod (with_namespace (in_phase active))) ∷ [])
    × (t.status.phase ≡ next_phase (analyze_container_status (waiting_for "ErrImagePull")).0)
    × (t.status.ready_for_attach ≡ false)
reconcile-stopped_example =
    reconcile-stopped (calm failing_pod) (in_phase active) failing_pod (waiting_for "ErrImagePull")
      refl failing-found refl failing-verdict

abbrev stored : List DebugSession
stored = in_phase active ∷ []

-- The cluster with an index of its one session.
abbrev indexed : Env
indexed = record (calm (pod_with true running_debugger)) {
  sessions = λ h index. elim index [
    | none ↦ ok stored
    | some key ↦ if key ==s "shop/web" then ok stored else ok []
  ];
}

stored-key : (s : DebugSession) → Memᴰ s stored → index_key s ≡ "shop/web"
unfolding index_key
stored-key s (Memᴰ.head e) = rw e
stored-key s (Memᴰ.tail m) = elim m [ ]

indexed-Indexed : Indexed indexed stored
indexed-Indexed = record {
  by_key = λ h key l e s. elim (Bool-cases (key ==s "shop/web")) [
    | inl q ↦
        let same : stored ≡ l = ground arith in
        subst (λ x. Memᴰ s x ↔ (Memᴰ s stored × (index_key s ≡ key))) same
          (λ m. (m, stored-key s m ∙ sym ((eq_iff key "shop/web").0 q)), λ p. p.0)
    | inr q ↦
        let same : [] ≡ l = ground arith in
        subst (λ x. Memᴰ s x ↔ (Memᴰ s stored × (index_key s ≡ key))) same
          (
            λ m. elim m [ ],
            λ (m, k). absurd (ground (arith, eq_iff key "shop/web", stored-key s m)),
          )
  ];
}

stored-HasNoSlash : All (λ s. HasNoSlash (with_namespace s).spec.target_namespace) stored
stored-HasNoSlash = ((cc, (cc, (cc, (cc, tt)))), tt)

find_sessions_for_pod_targets_example :
    Memᴰ (request_of (in_phase active)) (find_sessions_for_pod indexed "shop" "web" []).0 ↔ (
      (s : DebugSession) × Memᴰ s stored
      × ((if s.spec.target_namespace ==s "" then s.namespace else s.spec.target_namespace) ≡ "shop")
      × (s.spec.target_pod_name ≡ "web")
      × ((request_of (in_phase active)).name ≡ s.name)
      × ((request_of (in_phase active)).namespace ≡ s.namespace))
find_sessions_for_pod_targets_example =
    find_sessions_for_pod_targets indexed stored stored []
      (record { name = "web"; namespace = "shop" }) (request_of (in_phase active)) indexed-Indexed
      refl stored-HasNoSlash (cc, (cc, (cc, (cc, tt))))

-- ===== src/Controller.antt =====
-- internal/controller/debugsession_controller.go, and the registry of
-- internal/controller/session_phases/phase_reconciler.go. A Go map is an association list by the
-- text of the phase. The files of a package are initialised in the order of their names.
pub mod Diagram
pub mod Follows
pub mod Runs
pub mod Requests
pub mod Targets
pub mod Edits
pub mod Isolation
pub mod Registry
use kube_debug_sess.Prelude.{
  String, Option, none, some, List, [], ◌∷◌, ◌<>◌, map, ◌==s◌, if◌then◌else◌,
}
use kube_debug_sess.Api.{SessionPhase, phase_text, DebugSession}
use kube_debug_sess.Kube.{NamespacedName, ok, err}
use kube_debug_sess.Cluster.{Env, M, pure, ◌>>=◌, get_session, list_sessions}
use kube_debug_sess.SessionPhases.Outcome.{seconds, Outcome, finish, requeue}
use kube_debug_sess.SessionPhases.Update.{with_namespace}
use kube_debug_sess.SessionPhases.Reason.{lookup}
use kube_debug_sess.Reconcilers.Pending
use kube_debug_sess.Reconcilers.Injecting
use kube_debug_sess.Reconcilers.Active
use kube_debug_sess.Reconcilers.Retrying
use kube_debug_sess.Reconcilers.Terminating
use kube_debug_sess.Reconcilers.Completed
use kube_debug_sess.Reconcilers.Failed

-- The method `Reconcile` of a phase's reconciler, and a factory of such.
abbrev PhaseReconciler : Type 0
PhaseReconciler = DebugSession → M Outcome

abbrev pub Registry : Type 0 → Type 0
Registry R = List (String × R)

-- `reconcilerRegistry[phase] = factory`
unfoldable pub register : {R : Type 0} → Registry R → SessionPhase → R → Registry R
register [] phase factory = (phase_text phase, factory) ∷ []
register ((k, old) ∷ m) phase factory =
    if k ==s phase_text phase then (k, factory) ∷ m else (k, old) ∷ register m phase factory

-- `PhaseReconcilerFactory`: a reconciler from the clients, which the surroundings stand for.
abbrev PhaseReconcilerFactory : Type 0
PhaseReconcilerFactory = Env → PhaseReconciler

-- The registry after the `init` function of a reconciler's file.
abbrev init_active : Registry PhaseReconcilerFactory → Registry PhaseReconcilerFactory
init_active r = register r SessionPhase.active Active.reconcile

abbrev init_completed : Registry PhaseReconcilerFactory → Registry PhaseReconcilerFactory
init_completed r = register r SessionPhase.completed Completed.reconcile

abbrev init_failed : Registry PhaseReconcilerFactory → Registry PhaseReconcilerFactory
init_failed r = register r SessionPhase.failed Failed.reconcile

abbrev init_injecting : Registry PhaseReconcilerFactory → Registry PhaseReconcilerFactory
init_injecting r = register r SessionPhase.injecting Injecting.reconcile

abbrev init_pending : Registry PhaseReconcilerFactory → Registry PhaseReconcilerFactory
init_pending r =
    let r' : Registry PhaseReconcilerFactory = register r SessionPhase.pending Pending.reconcile in
    register r' SessionPhase.unset Pending.reconcile

abbrev init_retrying : Registry PhaseReconcilerFactory → Registry PhaseReconcilerFactory
init_retrying r = register r SessionPhase.retrying Retrying.reconcile

abbrev init_terminating : Registry PhaseReconcilerFactory → Registry PhaseReconcilerFactory
init_terminating r = register r SessionPhase.terminating Terminating.reconcile

-- `reconcilerRegistry` when all `init` functions have run.
unfoldable reconciler_registry : Registry PhaseReconcilerFactory
unfolding register phase_text
reconciler_registry =
    init_terminating (
      init_retrying (init_pending (init_injecting (init_failed (init_completed (init_active []))))))

unfoldable get_reconcilers : Env → Registry PhaseReconciler
get_reconcilers env = map (λ (k, factory). (k, factory env)) reconciler_registry

-- The key of the index: the target pod of a session.
unfoldable pub index_key : DebugSession → String
index_key s =
    let s' : DebugSession = with_namespace s in
    s'.spec.target_namespace <> ("/" <> s'.spec.target_pod_name)

abbrev pub request_of : DebugSession → NamespacedName
request_of s = record { name = s.name; namespace = s.namespace }

-- `r.PhaseReconcilers[phase]`
unfoldable pub reconciler_for : Env → SessionPhase → Option PhaseReconciler
unfolding get_reconcilers reconciler_registry lookup phase_text
reconciler_for env phase = lookup (phase_text phase) (get_reconcilers env)

-- `Reconcile` from the lookup on; a phase with no reconciler is asked for again later.
unfoldable pub run_reconciler : Option PhaseReconciler → DebugSession → M Outcome
run_reconciler none s = pure (requeue (seconds 30))
run_reconciler (some reconciler) s = reconciler s

module _ (env : Env) where
  unfoldable pub reconcile_session : DebugSession → M Outcome
  unfolding reconciler_for run_reconciler
  reconcile_session s = run_reconciler (reconciler_for env s.status.phase) s

  unfoldable pub reconcile : NamespacedName → M Outcome
  reconcile request = do
    answer ← get_session env request
    elim answer [ err e ↦ pure finish | ok s ↦ reconcile_session s ]

  -- The requests for the sessions of a pod, from its namespace and name.
  unfoldable pub find_sessions_for_pod : String → String → M (List NamespacedName)
  find_sessions_for_pod namespace name = do
    answer ← list_sessions env (some (namespace <> ("/" <> name)))
    pure (elim answer [ err e ↦ [] | ok items ↦ map request_of items ])

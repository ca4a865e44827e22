-- ===== src/SessionPhases/Update.antt =====
-- internal/controller/session_phases/phase_reconciler.go: `UpdateSessionStatus`, and the small
-- changes of a session that several reconcilers make.
use kube_debug_sess.Prelude.{String, ◌<>◌, ◌==s◌, if◌then◌else◌}
use kube_debug_sess.Api.{SessionPhase, DebugSession}
use kube_debug_sess.Kube.{NamespacedName, ok, err}
use kube_debug_sess.Cluster.{Env, M, pure, ◌>>=◌, update_status}
use kube_debug_sess.SessionPhases.Outcome.{plain, Outcome, finish, errored}

-- `session.Status.Phase = newPhase; session.Status.Message = message`
abbrev pub with_phase : DebugSession → SessionPhase → String → DebugSession
with_phase s new_phase message = record s {
  status = record (s.status) { phase = new_phase; message = message };
}

-- `if session.Spec.TargetNamespace == "" { … = session.Namespace }`
abbrev pub with_namespace : DebugSession → DebugSession
with_namespace s = record s {
  spec = record (s.spec) {
    target_namespace =
        if s.spec.target_namespace ==s "" then s.namespace else s.spec.target_namespace;
  };
}

abbrev pub with_container : DebugSession → String → DebugSession
with_container s container = record s {
  spec = record (s.spec) { target_container_name = container };
}

abbrev pub target_pod : DebugSession → NamespacedName
target_pod s = record { name = s.spec.target_pod_name; namespace = s.spec.target_namespace }

-- `fmt.Sprintf("debugger-%s", session.UID)`
abbrev pub debugger_name : DebugSession → String
debugger_name s = "debugger-" <> s.uid

module _ (env : Env) where
  unfoldable pub update_session_status : DebugSession → SessionPhase → String → M Outcome
  update_session_status s new_phase message = do
    answer ← update_status env (with_phase s new_phase message)
    pure (elim answer [ ok s' ↦ finish | err e ↦ errored (plain e.text) ])

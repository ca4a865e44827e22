-- ===== src/Controller/Isolation.antt =====
-- A run stores no session but the one that it was asked for.
use kube_debug_sess.Prelude.{◌∙◌}
use kube_debug_sess.Prelude.{◌≡◌, refl, String, [], ◌∷◌}
use kube_debug_sess.Api.{DebugSession}
use kube_debug_sess.Kube.{NamespacedName, ok}
use kube_debug_sess.Cluster.{Env, History, got_session}
use kube_debug_sess.Updates.{Updates}
use kube_debug_sess.Controller.Edits.{IsKept, IsCalm}
use kube_debug_sess.Controller.Edits.Runs.{reconcile_session-Good}
use kube_debug_sess.Controller.{reconcile}

-- A session under a name, a namespace and a UID.
abbrev pub IsNamed : String → String → String → DebugSession → Type 0
IsNamed name namespace uid t = (t.name ≡ name) × (t.namespace ≡ namespace) × (t.uid ≡ uid)

-- A status update that succeeds answers with the object that was sent.
pub record KeepsNames (env : Env) : Type 0 where
  pub names : (h : History) (s s' : DebugSession) → env.status_answer h s ≡ ok s' → s'.name ≡ s.name
  pub namespaces :
      (h : History) (s s' : DebugSession)
      → env.status_answer h s ≡ ok s'
      → s'.namespace ≡ s.namespace
  pub uids : (h : History) (s s' : DebugSession) → env.status_answer h s ≡ ok s' → s'.uid ≡ s.uid

IsNamed-IsKept : (env : Env) (n ns u : String) → KeepsNames env → IsKept env (IsNamed n ns u)
IsNamed-IsKept env n ns u keeps = record {
  phases = λ s p m k. k;
  defaulted = λ s k. k;
  chosen = λ s c k. k;
  tokens = λ s t k. k;
  debuggers = λ s k. k;
  readiness = λ s b k. k;
  first_retry = λ s k. k;
  no_retries = λ s k. k;
  ends = λ s t k. k;
  completions = λ s k. k;
  answers = λ h s s' e (a, b, c).
      (keeps.names h s s' e ∙ a, keeps.namespaces h s s' e ∙ b, keeps.uids h s s' e ∙ c);
}

-- Where the API server answers a request for a session with the session of that name, and a status
-- update with the object that it was sent: every session that a run of `Reconcile` for a request
-- stores has the name and the namespace of the request, and the UID of the session that it read,
-- whatever its phase and whatever else the surroundings answer.
pub reconcile-IsNamed :
    (env : Env) (request : NamespacedName) (s : DebugSession)
    → KeepsNames env
    → env.session [] request ≡ ok s
    → s.name ≡ request.name
    → s.namespace ≡ request.namespace
    → Updates (IsNamed request.name request.namespace s.uid) (reconcile env request []).1
unfolding reconcile
reconcile-IsNamed env request s keeps found name namespace =
    let kept = IsNamed-IsKept env request.name request.namespace s.uid keeps in
    let calm : IsCalm (λ o. Unit) = record { quiet = λ r. tt; loud = λ e. tt } in
    let run =
      reconcile_session-Good env (IsNamed request.name request.namespace s.uid) kept (λ o. Unit)
        calm s (got_session request ∷ [])
        (record { retries = λ m e. (name, namespace, refl); waits = λ e w. tt })
        (name, namespace, refl) (tt, tt) in
    rw (found, reconcile) run.1

-- ===== src/Controller/Follows.antt =====
-- Each reconciler stores only sessions whose phase is next in the diagram.
use kube_debug_sess.Prelude.{◌≡◌, String, Option, some, List, [], ◌∷◌, arith, inl, inr}
use kube_debug_sess.Api.{DebugSession}
use kube_debug_sess.Api.SessionPhase.{
  unset, pending, injecting, active, retrying, terminating, completed,
}
use kube_debug_sess.Kube.{ContainerStatus, Fallible-cases, Pod}
use kube_debug_sess.Cluster.{Env, History}
use kube_debug_sess.SessionPhases.Outcome.{GoError}
use kube_debug_sess.SessionPhases.Update.{with_namespace, target_pod, update_session_status}
use kube_debug_sess.Updates.{Updates, KeepsStatus}
use kube_debug_sess.Controller.Diagram.{Follows, refuse, edges}
use kube_debug_sess.Reconcilers.Pending
use kube_debug_sess.Reconcilers.NodeInfo
use kube_debug_sess.Reconcilers.Injecting
use kube_debug_sess.Reconcilers.Injecting.Token
use kube_debug_sess.Reconcilers.Webhook
use kube_debug_sess.Reconcilers.Active
use kube_debug_sess.Reconcilers.Retrying
use kube_debug_sess.Reconcilers.Terminating
use kube_debug_sess.Reconcilers.Completed

module _ (env : Env) (s : DebugSession) (h : History) where
  pub pending-Follows_unset :
      s.status.phase ≡ unset
      → Updates (Follows unset) h
      → Updates (Follows unset) (Pending.reconcile env s h).1
  unfolding Pending.reconcile
  pending-Follows_unset e u = grind (arith, edges, Pending.is_unset-unset)

  pub pending-Follows :
      s.status.phase ≡ pending
      → Updates (Follows pending) h
      → Updates (Follows pending) (Pending.reconcile env s h).1
  unfolding Pending.reconcile
  pending-Follows e u = grind (arith, edges, Pending.is_unset-pending)

  active_observe-Follows :
      (c : Option ContainerStatus)
      → s.status.phase ≡ active
      → Updates (Follows active) h
      → Updates (Follows active) (Active.observe env c s h).1
  unfolding Active.observe Webhook.send_webhook_if_configured Webhook.build_webhook_payload
  active_observe-Follows c e u = grind (arith, edges)

  retrying_observe-Follows :
      (c : Option ContainerStatus)
      → s.status.phase ≡ retrying
      → Updates (Follows retrying) h
      → Updates (Follows retrying) (Retrying.observe env c s h).1
  unfolding Retrying.observe Retrying.handle_retry
  retrying_observe-Follows c e u = grind (arith, edges)

  pub completed-Follows :
      s.status.phase ≡ completed
      → Updates (Follows completed) h
      → Updates (Follows completed) (Completed.reconcile env s h).1
  unfolding Completed.reconcile
  completed-Follows e u = grind (arith, edges)

module _ (env : Env) (s : DebugSession) (h : History) where
  pub active-Follows :
      s.status.phase ≡ active
      → Updates (Follows active) h
      → Updates (Follows active) (Active.reconcile env s h).1
  unfolding Active.reconcile update_session_status
  active-Follows e u = grind (arith, edges, active_observe-Follows)

  pub retrying-Follows :
      s.status.phase ≡ retrying
      → Updates (Follows retrying) h
      → Updates (Follows retrying) (Retrying.reconcile env s h).1
  unfolding Retrying.reconcile
  retrying-Follows e u = grind (arith, edges, retrying_observe-Follows)

-- The injection, from its last update back to the first. Each answer to an update keeps the status.
module _ (env : Env) (keeps : KeepsStatus env) (s : DebugSession) (h : History) where
  injecting_conclude-Follows :
      (node : String × String) (e : Option GoError)
      → s.status.phase ≡ injecting
      → Updates (Follows injecting) h
      → Updates (Follows injecting) (Injecting.conclude env node (s, e) h).1
  unfolding Injecting.conclude update_session_status
  injecting_conclude-Follows node e p u = grind (arith, edges)

module _ (env : Env) (keeps : KeepsStatus env) (s : DebugSession) (h : History) where
  injecting_inject-Follows :
      (pod : Pod) (node : String × String) (e : Option GoError)
      → s.status.phase ≡ injecting
      → Updates (Follows injecting) h
      → Updates (Follows injecting) (Injecting.inject env pod node (s, e) h).1
  unfolding Injecting.inject Injecting.inject_ephemeral_container update_session_status
  injecting_inject-Follows pod node e p u = grind (arith, edges, keeps.kept)

-- The conditions are read with no update.
check_condition-Follows :
    (env : Env) (pod : Pod) (h : History)
    → Updates (Follows injecting) h
    → Updates (Follows injecting) (Injecting.check_injecting_condition env pod h).1
unfolding Injecting.check_injecting_condition NodeInfo.get_proxy_service_node_info
check_condition-Follows env pod h u = ground arith

set_up-Follows :
    (env : Env) (keeps : KeepsStatus env) (s : DebugSession) (h : History)
    → s.status.phase ≡ injecting
    → Updates (Follows injecting) h
    → let (result, h') = Injecting.set_up_debug_sess env s h in
      (result.0.status.phase ≡ injecting) × Updates (Follows injecting) h'
unfolding Injecting.set_up_debug_sess Token.generate_secure_token
set_up-Follows env keeps s h p u = grind (arith, edges, keeps.kept)

pub choose_container-status :
    (s : DebugSession) (cs : List String) (t : DebugSession)
    → Injecting.choose_container s cs ≡ some t
    → t.status ≡ s.status
choose_container-status s [] t e = ground arith
choose_container-status s (c ∷ cs) t e = ground arith

module _ (env : Env) (keeps : KeepsStatus env) (s : DebugSession) (h : History) where
  injecting_prepare-Follows :
      (pod : Pod) (o : Option DebugSession)
      → s.status.phase ≡ injecting
      → ((t : DebugSession) → o ≡ some t → t.status ≡ s.status)
      → Updates (Follows injecting) h
      → Updates (Follows injecting) (Injecting.prepare env pod o s h).1
  unfolding Injecting.prepare update_session_status
  injecting_prepare-Follows pod o p q u = grind (
    arith,
    edges,
    check_condition-Follows,
    set_up-Follows env keeps,
    injecting_inject-Follows env keeps,
  )

module _ (env : Env) (keeps : KeepsStatus env) (s : DebugSession) (h : History) where
  pub injecting-Follows :
      s.status.phase ≡ injecting
      → Updates (Follows injecting) h
      → Updates (Follows injecting) (Injecting.reconcile env s h).1
  unfolding Injecting.reconcile update_session_status
  injecting-Follows p u = elim (Fallible-cases (env.pod h (target_pod (with_namespace s)))) [
    | inl (pod, e) ↦ rw e (
        injecting_prepare-Follows env keeps (with_namespace s) _ pod _ p
          (choose_container-status (with_namespace s) pod.containers) (tt, u))
    | inr (x, e) ↦ rw e (refuse, (tt, u))
  ]

module _ (env : Env) (keeps : KeepsStatus env) (s : DebugSession) (h : History) where
  pub terminating-Follows :
      s.status.phase ≡ terminating
      → Updates (Follows terminating) h
      → Updates (Follows terminating) (Terminating.reconcile env s h).1
  unfolding Terminating.reconcile Terminating.cleanup_ephemeral_container Terminating.collect_log
      Terminating.fetch_ephemeral_logs Terminating.store_log update_session_status
  terminating-Follows p u = grind (arith, edges, keeps.kept)

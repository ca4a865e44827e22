-- ===== src/System/Guarded/Steps.antt =====
-- What each reconciler does to the readiness and the token of a session.
use kube_debug_sess.Prelude.{
  ◌≡◌, refl, ◌⊎◌, inl, inr, Bool, true, false, String, Option, none, some, ◌∷◌, arith,
}
use kube_debug_sess.Api.{SessionPhase, DebugSession}
use kube_debug_sess.Api.SessionPhase.{injecting, active, retrying, failed}
use kube_debug_sess.Kube.{ContainerStatus, Fallible, Fallible-cases, Pod, ok, err}
use kube_debug_sess.Cluster.{Env, History, got_pod}
use kube_debug_sess.SessionPhases.Outcome.{GoError}
use kube_debug_sess.SessionPhases.Update.{with_namespace, target_pod, update_session_status}
use kube_debug_sess.Controller.Follows.{choose_container-status}
use kube_debug_sess.Updates.{Updates, KeepsStatus}
use kube_debug_sess.Reconcilers.Pending
use kube_debug_sess.Reconcilers.NodeInfo
use kube_debug_sess.Reconcilers.Injecting
use kube_debug_sess.Reconcilers.Injecting.Token
use kube_debug_sess.Reconcilers.Injecting.Hex.{IsDrawn}
use kube_debug_sess.Reconcilers.Injecting.Safety.{set_up-IsDrawn}
use kube_debug_sess.Reconcilers.Webhook
use kube_debug_sess.Reconcilers.Active
use kube_debug_sess.Reconcilers.Retrying
use kube_debug_sess.Reconcilers.Terminating
use kube_debug_sess.Reconcilers.Completed

-- The phases in which a debugger is watched, and those in which a session may be ready.
abbrev pub has_debugger : SessionPhase → Bool
has_debugger active = true
has_debugger retrying = true
has_debugger _ = false

abbrev pub may_be_ready : SessionPhase → Bool
may_be_ready active = true
may_be_ready failed = true
may_be_ready _ = false

abbrev pub NotReady : DebugSession → Type 0
NotReady t = t.status.ready_for_attach ≡ false

module _ (env : Env) (s : DebugSession) (h : History) (quiet : NotReady s) where
  pub pending-NotReady : Updates NotReady h → Updates NotReady (Pending.reconcile env s h).1
  unfolding Pending.reconcile
  pending-NotReady u = ground arith

  pub completed-NotReady : Updates NotReady h → Updates NotReady (Completed.reconcile env s h).1
  unfolding Completed.reconcile
  completed-NotReady u = ground arith

module _ (env : Env) (keeps : KeepsStatus env) (s : DebugSession) (h : History)
    (quiet : NotReady s) where
  pub terminating-NotReady : Updates NotReady h → Updates NotReady (Terminating.reconcile env s h).1
  unfolding Terminating.reconcile Terminating.cleanup_ephemeral_container Terminating.collect_log
      Terminating.fetch_ephemeral_logs Terminating.store_log update_session_status
  terminating-NotReady u = grind (arith, keeps.kept)

-- A retrying session is not ready, and keeps its token.
abbrev pub Holds : DebugSession → DebugSession → Type 0
Holds s t = NotReady t × (t.status.one_time_token ≡ s.status.one_time_token)

module _ (env : Env) (s : DebugSession) (h : History) (quiet : NotReady s) where
  retrying_observe-Holds :
      (c : Option ContainerStatus)
      → Updates (Holds s) h
      → Updates (Holds s) (Retrying.observe env c s h).1
  unfolding Retrying.observe Retrying.handle_retry
  retrying_observe-Holds c u = grind arith

module _ (env : Env) (s : DebugSession) (h : History) (quiet : NotReady s) where
  pub retrying-Holds : Updates (Holds s) h → Updates (Holds s) (Retrying.reconcile env s h).1
  unfolding Retrying.reconcile
  retrying-Holds u = elim (Fallible-cases (env.pod h (target_pod (with_namespace s)))) [
    | inl (pod, e) ↦ rw e (retrying_observe-Holds env (with_namespace s) _ quiet _ (tt, u))
    | inr (x, e) ↦ rw e ((quiet, refl), (tt, u))
  ]

-- An active session keeps its token, and is ready at most where a session may be.
abbrev pub Watched : DebugSession → DebugSession → Type 0
Watched s t =
    (t.status.one_time_token ≡ s.status.one_time_token)
    × ((t.status.ready_for_attach ≡ false) ⊎ (may_be_ready t.status.phase ≡ true))

module _ (env : Env) (s : DebugSession) (h : History) (phase : s.status.phase ≡ active) where
  active_observe-Watched :
      (c : Option ContainerStatus)
      → Updates (Watched s) h
      → Updates (Watched s) (Active.observe env c s h).1
  unfolding Active.observe Webhook.send_webhook_if_configured Webhook.build_webhook_payload
  active_observe-Watched c u = grind arith

module _ (env : Env) (s : DebugSession) (h : History) (phase : s.status.phase ≡ active) where
  pub active-Watched : Updates (Watched s) h → Updates (Watched s) (Active.reconcile env s h).1
  unfolding Active.reconcile update_session_status
  active-Watched u = elim (Fallible-cases (env.pod h (target_pod (with_namespace s)))) [
    | inl (pod, e) ↦ rw e (
        active_observe-Watched env (Injecting.with_debugger (with_namespace s))
          (got_pod (target_pod (with_namespace s)) ∷ h) phase _ (tt, u))
    | inr (x, e) ↦ ground arith
  ]

-- An injecting session is not ready, and has a token drawn in its surroundings where it goes on to
-- a debugger.
abbrev pub Equipped : Env → DebugSession → Type 0
Equipped env t =
    NotReady t × ((has_debugger t.status.phase ≡ false) ⊎ IsDrawn env t.status.one_time_token)

module _ (env : Env) (keeps : KeepsStatus env) where
  inject-Equipped :
      (s : DebugSession) (h : History) (pod : Pod) (node : String × String) (o : Option GoError)
      → NotReady s
      → s.status.phase ≡ injecting
      → (o ≡ none → IsDrawn env s.status.one_time_token)
      → Updates (Equipped env) h
      → Updates (Equipped env) (Injecting.inject env pod node (s, o) h).1
  unfolding Injecting.inject Injecting.inject_ephemeral_container Injecting.conclude
      update_session_status
  inject-Equipped s h pod node none q p t u = let token = t refl in grind (arith, keeps.kept)
  inject-Equipped s h pod node (some e) q p t u = ((q, inl refl), u)

  set_up-Equipped :
      (s : DebugSession) (h : History)
      → NotReady s
      → s.status.phase ≡ injecting
      → Updates (Equipped env) h
      → let (result, h') = Injecting.set_up_debug_sess env s h in
        NotReady result.0 × (result.0.status.phase ≡ injecting) × Updates (Equipped env) h'
  unfolding Injecting.set_up_debug_sess Token.generate_secure_token
  set_up-Equipped s h q p u = grind (arith, keeps.kept)

  check-Equipped :
      (pod : Pod) (h : History)
      → Updates (Equipped env) h
      → Updates (Equipped env) (Injecting.check_injecting_condition env pod h).1
  unfolding Injecting.check_injecting_condition NodeInfo.get_proxy_service_node_info
  check-Equipped pod h u = ground arith

  proceed-Equipped :
      (s : DebugSession) (pod : Pod) (answer : Fallible GoError (String × String)) (h : History)
      → NotReady s
      → s.status.phase ≡ injecting
      → Updates (Equipped env) h
      → Updates (Equipped env) (Injecting.proceed env pod s answer h).1
  unfolding Injecting.proceed update_session_status
  proceed-Equipped s pod (err e) h q p u = ((q, inl refl), u)
  proceed-Equipped s pod (ok node) h q p u =
      let (q', p', u') = set_up-Equipped s h q p u in
      inject-Equipped _ _ pod node _ q' p' (set_up-IsDrawn env keeps s h) u'

  prepare-Equipped :
      (s : DebugSession) (pod : Pod) (o : Option DebugSession) (h : History)
      → NotReady s
      → s.status.phase ≡ injecting
      → ((t : DebugSession) → o ≡ some t → t.status ≡ s.status)
      → Updates (Equipped env) h
      → Updates (Equipped env) (Injecting.prepare env pod o s h).1
  unfolding Injecting.prepare update_session_status
  prepare-Equipped s pod none h q p same u = ((q, inl refl), u)
  prepare-Equipped s pod (some s') h q p same u =
      proceed-Equipped s' pod _ _ (ground (arith, same s' refl)) (ground (arith, same s' refl))
        (check-Equipped pod h u)

  pub injecting-Equipped :
      (s : DebugSession) (h : History)
      → NotReady s
      → s.status.phase ≡ injecting
      → Updates (Equipped env) h
      → Updates (Equipped env) (Injecting.reconcile env s h).1
  unfolding Injecting.reconcile update_session_status
  injecting-Equipped s h q p u = elim (Fallible-cases (env.pod h (target_pod (with_namespace s)))) [
    | inl (pod, e) ↦ rw e (
        prepare-Equipped (with_namespace s) pod _ _ q p
          (choose_container-status (with_namespace s) pod.containers) (tt, u))
    | inr (x, e) ↦ rw e ((q, inl refl), (tt, u))
  ]

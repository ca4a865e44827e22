-- ===== src/System/Conflicts.antt =====
-- A run on a session that was read too early: the API server refuses each of its status updates.
use kube_debug_sess.Prelude.{
  ◌≡◌, ◌≢◌, refl, ◌∙◌, inl, inr, String, Option, none, some, [], ◌∷◌, arith,
}
use kube_debug_sess.Api.{SessionPhase, phase_text, DebugSession}
use kube_debug_sess.Api.SessionPhase.{
  unset, pending, injecting, active, retrying, terminating, completed, failed, other,
}
use kube_debug_sess.Kube.{ApiError, Fallible, Fallible-cases, Pod, ok, err}
use kube_debug_sess.Cluster.{Env, History, read_random, updated_status}
use kube_debug_sess.SessionPhases.Outcome.{GoError}
use kube_debug_sess.SessionPhases.Update.{with_namespace, target_pod, update_session_status}
use kube_debug_sess.Reconcilers.Pending
use kube_debug_sess.Reconcilers.Injecting
use kube_debug_sess.Reconcilers.Injecting.Token.{encode_to_string, fill, generate_secure_token}
use kube_debug_sess.Reconcilers.Injecting.{with_token}
use kube_debug_sess.Reconcilers.Injecting.Safety.{
  Injections, check-Injections, set_up-Injections, after_set_up-Injections,
}
use kube_debug_sess.Reconcilers.Webhook
use kube_debug_sess.Reconcilers.Active
use kube_debug_sess.Reconcilers.Retrying
use kube_debug_sess.Reconcilers.Terminating
use kube_debug_sess.Reconcilers.Completed
use kube_debug_sess.Reconcilers.Failed
use kube_debug_sess.Controller.{reconciler_for, run_reconciler, reconcile_session}
use kube_debug_sess.System.Store.{stored, after, stored-refused}

-- Every status update is refused, as that of an object that has changed since it was read.
pub record Refuses (env : Env) : Type 0 where
  pub error : History → DebugSession → ApiError
  pub refused : (h : History) (t : DebugSession) → env.status_answer h t ≡ err (error h t)

-- No call changes the containers of a pod.
abbrev pub Untouched : History → Type 0
Untouched h = Injections (λ ns name p h. ⊥) h

module _ (env : Env) (s : DebugSession) (h : History) (u : Untouched h) where
  pending-Untouched : Untouched (Pending.reconcile env s h).1
  unfolding Pending.reconcile
  pending-Untouched = ground arith

  completed-Untouched : Untouched (Completed.reconcile env s h).1
  unfolding Completed.reconcile
  completed-Untouched = ground arith

  retrying-Untouched : Untouched (Retrying.reconcile env s h).1
  unfolding Retrying.reconcile Retrying.observe Retrying.handle_retry update_session_status
  retrying-Untouched = ground arith

  active-Untouched : Untouched (Active.reconcile env s h).1
  unfolding Active.reconcile Active.observe Webhook.send_webhook_if_configured
      Webhook.build_webhook_payload update_session_status
  active-Untouched = ground arith

  terminating-Untouched : Untouched (Terminating.reconcile env s h).1
  unfolding Terminating.reconcile Terminating.cleanup_ephemeral_container Terminating.collect_log
      Terminating.fetch_ephemeral_logs Terminating.store_log update_session_status
  terminating-Untouched = ground arith

module _ (env : Env) (refuses : Refuses env) where
  -- The token cannot be stored.
  set_up_fails : (s : DebugSession) (h : History) → (Injecting.set_up_debug_sess env s h).0.1 ≢ none
  unfolding Injecting.set_up_debug_sess generate_secure_token
  set_up_fails s h e = elim (Fallible-cases (env.random h 32)) [
    | inr (x, q) ↦ ground arith
    | inl (source, q) ↦
        let no =
          refuses.refused (read_random 32 ∷ h) (with_token s (encode_to_string (fill 32 source))) in
        ground (arith, no)
  ]

  proceed-Untouched :
      (pod : Pod) (s : DebugSession) (answer : Fallible GoError (String × String)) (h : History)
      → Untouched h
      → Untouched (Injecting.proceed env pod s answer h).1
  unfolding Injecting.proceed update_session_status
  proceed-Untouched pod s (err e) h u = (tt, u)
  proceed-Untouched pod s (ok node) h u =
      after_set_up-Injections (λ ns name p h. ⊥) env pod node _ _ _
        (λ e. absurd (set_up_fails s h e)) (set_up-Injections (λ ns name p h. ⊥) env s h u)

  prepare-Untouched :
      (pod : Pod) (o : Option DebugSession) (s : DebugSession) (h : History)
      → Untouched h
      → Untouched (Injecting.prepare env pod o s h).1
  unfolding Injecting.prepare update_session_status
  prepare-Untouched pod none s h u = (tt, u)
  prepare-Untouched pod (some t) s h u =
      proceed-Untouched pod t _ _ (check-Injections (λ ns name p h. ⊥) env pod h u)

  injecting-Untouched :
      (s : DebugSession) (h : History) → Untouched h → Untouched (Injecting.reconcile env s h).1
  unfolding Injecting.reconcile update_session_status
  injecting-Untouched s h u = elim (Fallible-cases (env.pod h (target_pod (with_namespace s)))) [
    | inr (x, e) ↦ rw e (tt, (tt, u))
    | inl (pod, e) ↦ rw e (prepare-Untouched pod _ _ _ (tt, u))
  ]

  run-Untouched :
      (s : DebugSession) (h : History) (p : SessionPhase)
      → Untouched h
      → Untouched (run_reconciler (reconciler_for env p) s h).1
  unfolding run_reconciler reconciler_for Failed.reconcile phase_text
  run-Untouched s h unset u = pending-Untouched env s h u
  run-Untouched s h pending u = pending-Untouched env s h u
  run-Untouched s h injecting u = injecting-Untouched s h u
  run-Untouched s h active u = active-Untouched env s h u
  run-Untouched s h retrying u = retrying-Untouched env s h u
  run-Untouched s h terminating u = terminating-Untouched env s h u
  run-Untouched s h completed u = completed-Untouched env s h u
  run-Untouched s h failed u = u
  run-Untouched s h (other text) u =
      let a = active-Untouched env s h u in
      let c = completed-Untouched env s h u in
      let i = injecting-Untouched s h u in
      let p = pending-Untouched env s h u in
      let r = retrying-Untouched env s h u in
      let t = terminating-Untouched env s h u in ground arith

  -- No update, no change.
  stored_same : (s : DebugSession) (h : History) → stored env s h ≡ s
  unfolding stored
  stored_same s [] = refl
  stored_same s (updated_status t ∷ h) =
      stored-refused env s t h _ (refuses.refused h t) ∙ stored_same s h
  stored_same s (c ∷ h) = stored_same s h

-- Where the API server refuses every status update of a run, as it does where the session was read
-- before another change of it: the run leaves the session as it is stored, and adds no container to
-- any pod, whatever the session's phase and whatever else the surroundings answer.
pub after_conflicts :
    (env : Env) (s : DebugSession)
    → Refuses env
    → (after env s ≡ s) × Untouched (reconcile_session env s []).1
unfolding after reconcile_session
after_conflicts env s refuses =
    (stored_same env refuses s _, run-Untouched env refuses s [] s.status.phase tt)

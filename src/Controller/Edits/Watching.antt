-- ===== src/Controller/Edits/Watching.antt =====
-- The active and retrying reconcilers keep what each edit keeps.
use kube_debug_sess.Prelude.{
  ◌≡◌, refl, inl, inr, String, Bool-cases, Option, none, some, true, false, not, ◌&&◌, ◌==s◌,
}
use kube_debug_sess.Prelude.Int.{ℤ}
use kube_debug_sess.Api.{DebugSession}
use kube_debug_sess.Api.SessionPhase.{active, retrying, terminating, failed}
use kube_debug_sess.Kube.{ContainerStatus, Fallible-cases}
use kube_debug_sess.Cluster.{Env, History}
use kube_debug_sess.SessionPhases.Outcome.{Outcome, panicked}
use kube_debug_sess.SessionPhases.Update.{with_namespace, target_pod}
use kube_debug_sess.Updates.{Updates}
use kube_debug_sess.Reconcilers.Webhook
use kube_debug_sess.Reconcilers.Active
use kube_debug_sess.Reconcilers.Active.{with_ready}
use kube_debug_sess.Reconcilers.Retrying
use kube_debug_sess.SessionPhases.Reason.{
  ReasonAction, action_wait, action_retry, action_fail, action_succeed,
}
use kube_debug_sess.Reconcilers.Retrying.{is_exhausted, with_retry}
use kube_debug_sess.Controller.Edits.{MayRetry, IsKept, IsCalm, Good, status}

module _ (env : Env) (P : DebugSession → Type 0) (k : IsKept env P) (Q : Outcome → Type 0)
    (calm : IsCalm Q) where
  -- The active reconciler.
  payload_Updates :
      (r : Webhook.Receiver) (s : DebugSession) (h : History)
      → Updates P h
      → Updates P (Webhook.payload_for env r s h).1
  unfolding Webhook.payload_for
  payload_Updates Webhook.slack s h up = up
  payload_Updates Webhook.discord s h up = (tt, up)
  payload_Updates Webhook.generic s h up = (tt, up)

  send_Updates :
      (s : DebugSession) (h : History)
      → Updates P h
      → Updates P (Webhook.send_webhook_if_configured env s h).1
  unfolding Webhook.send_webhook_if_configured Webhook.build_webhook_payload
  send_Updates s h up = elim (Bool-cases (env.getenv "WEBHOOK_URL" ==s "")) [
    | inl e ↦ rw e up
    | inr e ↦ rw e (tt, payload_Updates (Webhook.receiver (env.getenv "WEBHOOK_URL")) s h up)
  ]

  announce-Good :
      (s : DebugSession) (h : History) → P s → Updates P h → Good P Q (Active.announce env s h)
  unfolding Active.announce
  announce-Good s h p up =
      let t = with_ready s true in
      let q = k.readiness s true p in
      let sent = send_Updates t h up in
      elim (Fallible-cases (env.status_answer (Webhook.send_webhook_if_configured env t h).1 t)) [
        | inl (s', e) ↦ rw e (calm.quiet _, (q, sent))
        | inr (x, e) ↦ rw e (calm.loud _, (q, sent))
      ]

  active_handle :
      (a : ReasonAction) (s : DebugSession) (m : String) (h : History)
      → P s
      → Updates P h
      → Good P Q (Active.handle env a s m h)
  unfolding Active.handle
  active_handle action_wait s m h p up = (calm.quiet _, up)
  active_handle action_succeed s m h p up =
      status env P k Q calm _ terminating m h (k.readiness s false p) up
  active_handle action_fail s m h p up =
      status env P k Q calm _ failed m h (k.readiness s false p) up
  active_handle action_retry s m h p up =
      status env P k Q calm _ retrying m h (k.first_retry _ (k.readiness s false p)) up

  active_observe :
      (o : Option ContainerStatus) (s : DebugSession) (h : History)
      → P s
      → Updates P h
      → Good P Q (Active.observe env o s h)
  unfolding Active.observe
  active_observe none s h p up = (calm.quiet _, up)
  active_observe (some c) s h p up =
      elim (Bool-cases (c.running && not s.status.ready_for_attach)) [
        | inl e ↦ rw e (announce-Good s h p up)
        | inr e ↦ rw e (active_handle _ s _ h p up)
      ]

  pub active-Good :
      (s : DebugSession) (h : History) → P s → Updates P h → Good P Q (Active.reconcile env s h)
  unfolding Active.reconcile
  active-Good s h p up =
      let s' = with_namespace s in
      let q = k.defaulted s p in
      elim (Fallible-cases (env.pod h (target_pod s'))) [
        | inl (pod, e) ↦ rw e (active_observe _ _ _ (k.debuggers s' q) (tt, up))
        | inr (x, e) ↦ rw e (elim (Bool-cases x.is_not_found) [
          | inl b ↦ rw b (status env P k Q calm s' failed _ _ q (tt, up))
          | inr b ↦ rw b (calm.loud _, (tt, up))
        ])
      ]

  retry_conclude :
      (s : DebugSession) (m : String) (h : History) (w : Option ℤ)
      → P (with_retry s m)
      → ((w ≡ none) → Q panicked)
      → Updates P h
      → Good P Q (Retrying.retry_later env s m w h)
  unfolding Retrying.retry_later
  retry_conclude s m h none p w up = (w refl, up)
  retry_conclude s m h (some d) p w up =
      elim (Fallible-cases (env.status_answer h (with_retry s m))) [
        | inl (s', e) ↦ rw e (calm.quiet _, (p, up))
        | inr (x, e) ↦ rw e (calm.loud _, (p, up))
      ]

  module _ (s : DebugSession) (may : MayRetry P Q s) where
    retry-Good :
        (m : String) (h : History) → P s → Updates P h → Good P Q (Retrying.handle_retry env s m h)
    unfolding Retrying.handle_retry
    retry-Good m h p up = elim (Bool-cases (is_exhausted s)) [
      | inl e ↦ rw e (status env P k Q calm s failed _ h p up)
      | inr e ↦ rw e (retry_conclude s m h _ (may.retries m e) (may.waits e) up)
    ]

    retrying_handle :
        (a : ReasonAction) (m : String) (h : History)
        → P s
        → Updates P h
        → Good P Q (Retrying.handle env a s m h)
    unfolding Retrying.handle
    retrying_handle action_wait m h p up = status env P k Q calm _ active _ h (k.no_retries s p) up
    retrying_handle action_succeed m h p up =
        status env P k Q calm _ active _ h (k.no_retries s p) up
    retrying_handle action_fail m h p up = status env P k Q calm s failed m h p up
    retrying_handle action_retry m h p up = retry-Good m h p up

    retrying_observe :
        (o : Option ContainerStatus) (h : History)
        → P s
        → Updates P h
        → Good P Q (Retrying.observe env o s h)
    unfolding Retrying.observe
    retrying_observe none h p up = status env P k Q calm s failed _ h p up
    retrying_observe (some c) h p up = retrying_handle _ _ h p up

  pub retrying-Good :
      (s : DebugSession) (h : History)
      → MayRetry P Q (with_namespace s)
      → P s
      → Updates P h
      → Good P Q (Retrying.reconcile env s h)
  unfolding Retrying.reconcile
  retrying-Good s h may p up =
      let s' = with_namespace s in
      let q = k.defaulted s p in
      elim (Fallible-cases (env.pod h (target_pod s'))) [
        | inr (x, e) ↦ rw e (status env P k Q calm s' failed _ _ q (tt, up))
        | inl (pod, e) ↦ rw e (retrying_observe s' may _ _ q (tt, up))
      ]

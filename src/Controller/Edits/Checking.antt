-- ===== src/Controller/Edits/Checking.antt =====
-- The pending, terminating and completed reconcilers keep what each edit keeps.
use kube_debug_sess.Prelude.{
  ◌≡◌, refl, inl, inr, String, ℕ, Bool-cases, Option, none, some, List, [], ◌∷◌, arith,
}
use kube_debug_sess.Api.{DebugSession}
use kube_debug_sess.Api.SessionPhase.{pending, injecting, completed, failed}
use kube_debug_sess.Kube.{Fallible, Fallible-cases, Pod, ok, err}
use kube_debug_sess.Cluster.{Env, History, got_namespace, read_clock}
use kube_debug_sess.SessionPhases.Outcome.{GoError, plain, requeue_error, Outcome}
use kube_debug_sess.SessionPhases.Update.{with_namespace, debugger_name, target_pod}
use kube_debug_sess.Updates.{Updates}
use kube_debug_sess.Reconcilers.Containers.{is_ephemeral_container_present}
use kube_debug_sess.Reconcilers.Pending
use kube_debug_sess.Reconcilers.Terminating
use kube_debug_sess.Reconcilers.Completed
use kube_debug_sess.Reconcilers.Completed.{with_completed_message}
use kube_debug_sess.Controller.Edits.{IsKept, IsCalm, Good, Edited, status}

module _ (env : Env) (P : DebugSession → Type 0) (k : IsKept env P) where
  chosen_P : (s : DebugSession) (pod : Pod) → P s → P (Pending.check_container s pod).0
  unfolding Pending.check_container
  chosen_P s pod p = ground arith

  checked_P :
      (s : DebugSession) (pod : Pod) (l : List String)
      → pod.containers ≡ l
      → P s
      → P (Pending.check_pod s pod).0
  unfolding Pending.check_pod Pending.check_container
  checked_P s pod [] e p = ground arith
  checked_P s pod (c ∷ l) e p = let q = k.chosen s c p in ground arith

module _ (env : Env) (P : DebugSession → Type 0) (k : IsKept env P) (Q : Outcome → Type 0)
    (calm : IsCalm Q) where
  pending_conclude :
      (s : DebugSession) (o : Option GoError) (h : History)
      → P s
      → Updates P h
      → Good P Q (Pending.conclude env (s, o) h)
  unfolding Pending.conclude
  pending_conclude s none h p up = status env P k Q calm s injecting _ h p up
  pending_conclude s (some (plain text)) h p up = status env P k Q calm s failed _ h p up
  pending_conclude s (some (requeue_error reason after)) h p up = (calm.quiet _, up)

  validate_P :
      (s : DebugSession) (h : History)
      → P s
      → Updates P h
      → Edited P (Pending.validate_prerequisites env s h)
  unfolding Pending.validate_prerequisites
  validate_P s h p up =
      let s' = with_namespace s in
      let q = k.defaulted s p in
      elim (Fallible-cases (env.namespace h s'.spec.target_namespace)) [
        | inr (x, e) ↦ rw e (q, (tt, up))
        | inl (a, e) ↦
            rw e
              (elim (Fallible-cases
                (env.pod (got_namespace s'.spec.target_namespace ∷ h) (target_pod s'))) [
                  | inr (x, e') ↦ rw e' (q, (tt, (tt, up)))
                  | inl (pod, e') ↦ rw e' (checked_P env P k s' pod _ refl q, (tt, (tt, up)))
                ])
      ]

  pub pending-Good :
      (s : DebugSession) (h : History) → P s → Updates P h → Good P Q (Pending.reconcile env s h)
  unfolding Pending.reconcile
  pending-Good s h p up = elim (Bool-cases (Pending.is_unset s.status.phase)) [
    | inl e ↦ rw e (status env P k Q calm s pending "DebugSession created." h p up)
    | inr e ↦ (let (q, up') = validate_P s h p up in rw e (pending_conclude _ _ _ q up'))
  ]

  pub completed-Good :
      (s : DebugSession) (h : History) → P s → Updates P h → Good P Q (Completed.reconcile env s h)
  unfolding Completed.reconcile
  completed-Good s h p up =
      let t = with_completed_message s in
      let q = k.completions s p in
      elim (Fallible-cases (env.status_answer h t)) [
        | inl (s', e) ↦ rw e (calm.quiet _, (q, up))
        | inr (x, e) ↦ rw e (status env P k Q calm t failed x.text _ q (q, up))
      ]

  -- The terminating reconciler.
  record_P :
      (s : DebugSession) (h : History)
      → P s
      → Updates P h
      → Edited P (Terminating.record_cleanup env s h)
  unfolding Terminating.record_cleanup
  record_P s h p up = elim (Fallible-cases (env.status_answer h s)) [
    | inl (s', e) ↦ rw e (k.answers h s s' e p, (p, up))
    | inr (x, e) ↦ rw e (p, (p, up))
  ]

  store_P :
      (s : DebugSession) (pod : Pod) (log : Fallible String (List ℕ)) (h : History)
      → P s
      → Updates P h
      → Edited P (Terminating.store_log env s pod log h)
  unfolding Terminating.store_log Terminating.upload_logs_to_s3
  store_P s pod (err e) h p up = (p, up)
  store_P s pod (ok log) h p up =
      let key = Terminating.log_key pod (debugger_name s) (env.clock h) in
      elim (Fallible-cases
        (env.object_answer (read_clock ∷ h) (env.getenv "S3_BUCKET_NAME") key log)) [
          | inl (x, e) ↦ rw e (record_P s _ p (tt, (tt, up)))
          | inr (x, e) ↦ rw e (p, (tt, (tt, up)))
        ]

  cleanup_P :
      (s : DebugSession) (h : History)
      → P s
      → Updates P h
      → Edited P (Terminating.cleanup_ephemeral_container env s h)
  unfolding Terminating.cleanup_ephemeral_container Terminating.collect_log
      Terminating.fetch_ephemeral_logs
  cleanup_P s h p up =
      let s' = with_namespace s in
      let q = k.defaulted s p in
      elim (Fallible-cases (env.pod h (target_pod s'))) [
        | inr (x, e) ↦ rw e (q, (tt, up))
        | inl (pod, e) ↦
            rw e
              (elim (Bool-cases
                (is_ephemeral_container_present pod.ephemeral_containers (debugger_name s'))) [
                  | inl b ↦ rw b (store_P s' pod _ _ q (tt, (tt, up)))
                  | inr b ↦ rw b (q, (tt, up))
                ])
      ]

  terminating_conclude :
      (s : DebugSession) (o : Option GoError) (h : History)
      → P s
      → Updates P h
      → Good P Q (Terminating.conclude env (s, o) h)
  unfolding Terminating.conclude
  terminating_conclude s none h p up = status env P k Q calm _ completed _ _ (k.ends s _ p) (tt, up)
  terminating_conclude s (some e) h p up = status env P k Q calm s failed _ h p up

  pub terminating-Good :
      (s : DebugSession) (h : History)
      → P s
      → Updates P h
      → Good P Q (Terminating.reconcile env s h)
  unfolding Terminating.reconcile
  terminating-Good s h p up = let (q, up') = cleanup_P s h p up in terminating_conclude _ _ _ q up'

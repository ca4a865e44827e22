-- ===== src/Controller/Edits/Adding.antt =====
-- The injecting reconciler keeps what each edit keeps.
use kube_debug_sess.Prelude.{
  inl, inr, String, Bool-cases, Option, none, some, List, [], ◌∷◌, ◌==s◌, arith,
}
use kube_debug_sess.Api.{DebugSession}
use kube_debug_sess.Api.SessionPhase.{active, failed}
use kube_debug_sess.Kube.{Fallible, Fallible-cases, Pod, ok, err}
use kube_debug_sess.Cluster.{Env, History, read_random, updated_ephemeral_containers}
use kube_debug_sess.SessionPhases.Outcome.{GoError, Outcome}
use kube_debug_sess.SessionPhases.Update.{with_namespace, target_pod}
use kube_debug_sess.Updates.{Updates}
use kube_debug_sess.Reconcilers.NodeInfo
use kube_debug_sess.Reconcilers.Injecting
use kube_debug_sess.Reconcilers.Injecting.{with_token, with_debugger}
use kube_debug_sess.Reconcilers.Injecting.Token
use kube_debug_sess.Controller.Edits.{IsKept, IsCalm, Good, Edited, status}

module _ (env : Env) (P : DebugSession → Type 0) (k : IsKept env P) (Q : Outcome → Type 0)
    (calm : IsCalm Q) where
  -- The injecting reconciler.
  set_up_P :
      (s : DebugSession) (h : History)
      → P s
      → Updates P h
      → Edited P (Injecting.set_up_debug_sess env s h)
  unfolding Injecting.set_up_debug_sess Token.generate_secure_token
  set_up_P s h p up = elim (Fallible-cases (env.random h 32)) [
    | inr (x, e) ↦ rw e (p, (tt, up))
    | inl (source, e) ↦
        let t = with_token s (Token.encode_to_string (Token.fill 32 source)) in
        let q = k.tokens s _ p in
        elim (Fallible-cases (env.status_answer (read_random 32 ∷ h) t)) [
          | inl (s', e') ↦ rw e (rw e' (k.answers _ t s' e' q, (q, (tt, up))))
          | inr (x, e') ↦ rw e (rw e' (q, (q, (tt, up))))
        ]
  ]

  add_P :
      (s : DebugSession) (pod : Pod) (h : History)
      → P s
      → Updates P h
      → Edited P (Injecting.inject_ephemeral_container env s pod h)
  unfolding Injecting.inject_ephemeral_container
  add_P s pod h p up =
      let ns = s.spec.target_namespace in
      let pod' = Injecting.with_ephemeral pod (Injecting.debug_container s) in
      let t = with_debugger s in
      let q = k.debuggers s p in
      elim (Fallible-cases (env.ephemeral_answer h ns pod.name pod')) [
        | inr (x, e) ↦ rw e (p, (tt, up))
        | inl (u, e) ↦
            elim (Fallible-cases
              (env.status_answer (updated_ephemeral_containers ns pod.name pod' ∷ h) t)) [
                | inl (s', e') ↦ rw e (rw e' (k.answers _ t s' e' q, (q, (tt, up))))
                | inr (x, e') ↦ rw e (rw e' (q, (q, (tt, up))))
              ]
      ]

  injecting_conclude :
      (node : String × String) (s : DebugSession) (o : Option GoError) (h : History)
      → P s
      → Updates P h
      → Good P Q (Injecting.conclude env node (s, o) h)
  unfolding Injecting.conclude
  injecting_conclude node s none h p up = status env P k Q calm s active _ h p up
  injecting_conclude node s (some e) h p up = status env P k Q calm s failed _ h p up

  inject-Good :
      (pod : Pod) (node : String × String) (s : DebugSession) (o : Option GoError) (h : History)
      → P s
      → Updates P h
      → Good P Q (Injecting.inject env pod node (s, o) h)
  unfolding Injecting.inject
  inject-Good pod node s none h p up =
      let (q, up') = add_P s pod h p up in injecting_conclude node _ _ _ q up'
  inject-Good pod node s (some e) h p up = status env P k Q calm s failed _ h p up

  proceed-Good :
      (pod : Pod) (s : DebugSession) (a : Fallible GoError (String × String)) (h : History)
      → P s
      → Updates P h
      → Good P Q (Injecting.proceed env pod s a h)
  unfolding Injecting.proceed
  proceed-Good pod s (err e) h p up = status env P k Q calm s failed _ h p up
  proceed-Good pod s (ok node) h p up =
      let (q, up') = set_up_P s h p up in inject-Good pod node _ _ _ q up'

  check_Updates :
      (pod : Pod) (h : History)
      → Updates P h
      → Updates P (Injecting.check_injecting_condition env pod h).1
  unfolding Injecting.check_injecting_condition NodeInfo.get_proxy_service_node_info
      NodeInfo.find_node
  check_Updates pod h up = ground arith

  prepare-Good :
      (pod : Pod) (s : DebugSession) (l : List String) (h : History)
      → P s
      → Updates P h
      → Good P Q (Injecting.prepare env pod (Injecting.choose_container s l) s h)
  unfolding Injecting.prepare
  prepare-Good pod s [] h p up = elim (Bool-cases (s.spec.target_container_name ==s "")) [
    | inl e ↦ rw e (status env P k Q calm s failed _ h p up)
    | inr e ↦ rw e (proceed-Good pod s _ _ p (check_Updates pod h up))
  ]
  prepare-Good pod s (c ∷ l) h p up = elim (Bool-cases (s.spec.target_container_name ==s "")) [
    | inl e ↦ rw e (proceed-Good pod _ _ _ (k.chosen s c p) (check_Updates pod h up))
    | inr e ↦ rw e (proceed-Good pod s _ _ p (check_Updates pod h up))
  ]

  pub injecting-Good :
      (s : DebugSession) (h : History) → P s → Updates P h → Good P Q (Injecting.reconcile env s h)
  unfolding Injecting.reconcile
  injecting-Good s h p up =
      let s' = with_namespace s in
      let q = k.defaulted s p in
      elim (Fallible-cases (env.pod h (target_pod s'))) [
        | inr (x, e) ↦ rw e (status env P k Q calm s' failed _ _ q (tt, up))
        | inl (pod, e) ↦ rw e (prepare-Good pod s' pod.containers _ q (tt, up))
      ]

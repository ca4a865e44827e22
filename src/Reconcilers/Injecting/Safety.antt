-- ===== src/Reconcilers/Injecting/Safety.antt =====
-- What must have happened before a container is added to a pod, whatever the cluster answers.
use kube_debug_sess.Prelude.{
  ◌≡◌, refl, sym, ap, ◌<>◌, ◌++◌, ◌==s◌, if◌then◌else◌, String, true, Option, none, some, [], ◌∷◌,
  inl, inr, arith,
}
use mathlib.Core.Path.{subst}
use kube_debug_sess.Reconcilers.Injecting.Hex.{IsDrawnAt, IsDrawn, IsDrawnAt_lem}
use kube_debug_sess.Api.{DebugSession}
use kube_debug_sess.Kube.{EphemeralContainer, Pod, Fallible, Fallible-cases, ok, err}
use kube_debug_sess.Cluster.{
  Call, updated_status, updated_ephemeral_containers, read_random, History, Env,
}
use kube_debug_sess.Updates.{KeepsStatus}
use kube_debug_sess.SessionPhases.Outcome.{GoError}
use kube_debug_sess.SessionPhases.Update.{with_namespace, target_pod, update_session_status}
use kube_debug_sess.Reconcilers.NodeInfo.{get_proxy_service_node_info, find_node}
use kube_debug_sess.Reconcilers.Injecting.Token.{encode_to_string, fill, generate_secure_token}
use kube_debug_sess.Reconcilers.Injecting.{
  with_token, with_ephemeral, debug_container, check_injecting_condition, set_up_debug_sess,
  inject_ephemeral_container, conclude, inject, proceed, prepare, reconcile,
}

-- A property of what a call sends to change the containers of a pod: the namespace and the name of
-- the pod, the pod, and the calls before.
abbrev Sending : Type 1
Sending = String → String → Pod → History → Type 0

abbrev OnInjection : Sending → Call → History → Type 0
OnInjection P (updated_ephemeral_containers ns name pod) h = P ns name pod h
OnInjection P _ h = Unit

abbrev pub Injections : Sending → History → Type 0
Injections P [] = Unit
Injections P (c ∷ h) = OnInjection P c h × Injections P h

-- The last two calls drew a token and stored it, and the API server answered with this session.
abbrev IsStored : Env → DebugSession → History → Type 0
IsStored env t h =
    (before : History) × (u : DebugSession) × (h ≡ updated_status u ∷ read_random 32 ∷ before)
    × IsDrawnAt env before u.status.one_time_token
    × (env.status_answer (read_random 32 ∷ before) u ≡ ok t)

-- What is sent for a pod and a session.
abbrev Sends : Sending → Pod → DebugSession → History → Type 0
Sends P pod t h = P t.spec.target_namespace pod.name (with_ephemeral pod (debug_container t)) h

module _ (P : Sending) (env : Env) where
  inject-Injections :
      (pod : Pod) (node : String × String) (t : DebugSession) (h : History)
      → Sends P pod t h
      → Injections P h
      → Injections P (inject env pod node (t, none) h).1
  unfolding inject inject_ephemeral_container conclude update_session_status
  inject-Injections pod node t h p u = ground arith

  pub check-Injections :
      (pod : Pod) (h : History)
      → Injections P h
      → Injections P (check_injecting_condition env pod h).1
  unfolding check_injecting_condition get_proxy_service_node_info find_node
  check-Injections pod h u = ground arith

  pub set_up-Injections :
      (s : DebugSession) (h : History) → Injections P h → Injections P (set_up_debug_sess env s h).1
  unfolding set_up_debug_sess generate_secure_token
  set_up-Injections s h u = ground arith

set_up-IsStored :
    (env : Env) (s : DebugSession) (h : History)
    → (set_up_debug_sess env s h).0.1 ≡ none
    → IsStored env (set_up_debug_sess env s h).0.0 (set_up_debug_sess env s h).1
unfolding set_up_debug_sess generate_secure_token
set_up-IsStored env s h n = elim (Fallible-cases (env.random h 32)) [
  | inr (e, q) ↦ absurd (ground arith)
  | inl (source, q) ↦
      let u = with_token s (encode_to_string (fill 32 source)) in
      elim (Fallible-cases (env.status_answer (read_random 32 ∷ h) u)) [
        | inr (e, r) ↦ absurd (ground arith)
        | inl (t, r) ↦ rw q (rw r (h, u, refl, IsDrawnAt_lem env h _ source q refl, r))
      ]
]

-- Where updates keep the status, the token of the session that was set up was drawn.
pub set_up-IsDrawn :
    (env : Env) (keeps : KeepsStatus env) (s : DebugSession) (h : History)
    → (set_up_debug_sess env s h).0.1 ≡ none
    → IsDrawn env (set_up_debug_sess env s h).0.0.status.one_time_token
set_up-IsDrawn env keeps s h n =
    let (before, u, same, drawn, r) = set_up-IsStored env s h n in
    (
      before,
      subst (IsDrawnAt env before) (sym (ap (λ x. x.one_time_token) (keeps.kept _ _ _ r))) drawn,
    )

-- After the set-up, a container is added only for a session with a token.
module _ (P : Sending) (env : Env) (pod : Pod) (node : String × String) where
  pub after_set_up-Injections :
      (s : DebugSession) (o : Option GoError) (h : History)
      → (o ≡ none → Sends P pod s h)
      → Injections P h
      → Injections P (inject env pod node (s, o) h).1
  unfolding inject update_session_status
  after_set_up-Injections s none h p u = inject-Injections P env pod node s h (p refl) u
  after_set_up-Injections s (some e) h p u = (tt, u)

-- What may be sent: the pod that was read for the target, whose containers share their processes,
-- under its name and in the namespace of a session whose token was just drawn and stored, with one
-- more container, which has the session's UID in its name.
abbrev pub Sanctioned : Env → DebugSession → Sending
Sanctioned env s ns name p h =
    (pod : Pod) × (env.pod [] (record {
      name = s.spec.target_pod_name;
      namespace = if s.spec.target_namespace ==s "" then s.namespace else s.spec.target_namespace;
    })
      ≡ ok pod)
    × (pod.share_process_namespace ≡ some true)
    × (name ≡ pod.name)
    × (t : DebugSession) × IsStored env t h
    × (ns ≡ t.spec.target_namespace)
    × (c : EphemeralContainer) × (p
        ≡ record pod { ephemeral_containers = pod.ephemeral_containers ++ (c ∷ []) })
    × (c.name ≡ "debugger-" <> t.uid)
    × (c.target_container_name ≡ t.spec.target_container_name)

check-shares :
    (env : Env) (pod : Pod) (h : History) (node : String × String)
    → (check_injecting_condition env pod h).0 ≡ ok node
    → pod.share_process_namespace ≡ some true
unfolding check_injecting_condition
check-shares env pod h node e = ground arith

-- The rest of `prepare`, by the answer of the check.
after_check-Injections :
    (P : Sending) (env : Env) (pod : Pod) (s : DebugSession)
    (answer : Fallible GoError (String × String)) (h : History)
    → ((node : String × String)
        → answer ≡ ok node
        → (t : DebugSession) (h : History) → IsStored env t h
        → Sends P pod t h)
    → Injections P h
    → Injections P (proceed env pod s answer h).1
unfolding proceed update_session_status
after_check-Injections P env pod s (err e) h p u = (tt, u)
after_check-Injections P env pod s (ok node) h p u =
    after_set_up-Injections P env pod node _ _ _ (λ n. p node refl _ _ (set_up-IsStored env s h n))
      (set_up-Injections P env s h u)

prepare-Injections :
    (P : Sending) (env : Env) (pod : Pod) (o : Option DebugSession) (s : DebugSession) (h : History)
    → (pod.share_process_namespace ≡ some true
        → (t : DebugSession) (h : History) → IsStored env t h
        → Sends P pod t h)
    → Injections P h
    → Injections P (prepare env pod o s h).1
unfolding prepare update_session_status
prepare-Injections P env pod none s h p u = (tt, u)
prepare-Injections P env pod (some s') s h p u =
    after_check-Injections P env pod s' (check_injecting_condition env pod h).0
      (check_injecting_condition env pod h).1 (λ node e. p (check-shares env pod h node e))
      (check-Injections P env pod h u)

-- Whatever the cluster answers: a run of `Reconcile` adds a container only to the pod that it read
-- for the session's target, under the pod's name, and only if the pod's containers share their
-- processes. The call comes right after 32 bytes were drawn and a session with their text as its
-- token was stored; it is made in the namespace of the session that the API server answered to
-- that, and adds one container to those of the pod, with that session's UID in its name and its
-- target container.
pub reconcile-Injections :
    (env : Env) (s : DebugSession) → Injections (Sanctioned env s) (reconcile env s []).1
unfolding reconcile update_session_status debug_container
reconcile-Injections env s = elim (Fallible-cases (env.pod [] (target_pod (with_namespace s)))) [
  | inr (e, q) ↦ rw q (tt, (tt, tt))
  | inl (pod, q) ↦ rw q (
      prepare-Injections (Sanctioned env s) env pod _ _ _
        (λ shares t h stored.
          (pod, q, shares, refl, t, stored, refl, debug_container t, refl, refl, refl))
        (tt, tt))
]

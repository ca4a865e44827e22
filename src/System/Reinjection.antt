-- ===== src/System/Reinjection.antt =====
-- A debugger that is injected while the update to Active is refused: the run that follows.
use kube_debug_sess.Prelude.{
  ℕ, ◌≡◌, refl, ap, ◌∙◌, true, String, none, some, List, [], ◌∷◌, ◌++◌, ◌<>◌, eq_iff, arith,
}
use kube_debug_sess.Prelude.Int.{ℤ}
use kube_debug_sess.Prelude.Decimal.{show_int}
use kube_debug_sess.Api.{phase_text, DebugSession}
use kube_debug_sess.Api.SessionPhase.{injecting, active, failed}
use kube_debug_sess.Kube.{ApiError, EphemeralContainer, Node, NamespacedName, Pod, ok, err}
use kube_debug_sess.Cluster.{
  Env, History, got_pod, got_service, listed_nodes, read_random, updated_status,
}
use kube_debug_sess.SessionPhases.Update.{
  with_namespace, with_phase, target_pod, debugger_name, update_session_status,
}
use kube_debug_sess.Reconcilers.Containers.{is_ephemeral_container_present}
use kube_debug_sess.Reconcilers.NodeInfo.{
  node_address, find_node, first_node, get_proxy_service_node_info,
}
use kube_debug_sess.Reconcilers.Injecting.Token.{encode_to_string, fill, generate_secure_token}
use kube_debug_sess.Reconcilers.Injecting
use kube_debug_sess.Reconcilers.Injecting.{
  choose_container, shares_processes, with_token, with_debugger, with_ephemeral, debug_container,
}
use kube_debug_sess.Controller.{reconciler_for, run_reconciler}
use kube_debug_sess.Controller.Runs.{persist}
use kube_debug_sess.System.Store.{stored, after, after-phase}

-- A cluster with this pod, that answers what an injection asks before it updates the pod, and
-- stores the updates of a session that is injecting.
pub record Prepares (env : Env) (pod : Pod) : Type 0 where
  pub pods : (h : History) (key : NamespacedName) → env.pod h key ≡ ok pod
  pub port : ℤ
  pub ports : List ℤ
  pub services : (h : History) (ns name : String) → env.service h ns name ≡ ok (port ∷ ports)
  pub node : Node
  pub nodes : List Node
  pub node_lists : (h : History) → env.nodes h ≡ ok (node ∷ nodes)
  pub source : ℕ → ℕ
  pub random : (h : History) (n : ℕ) → env.random h n ≡ ok source
  pub accepts :
      (h : History) (t : DebugSession) → t.status.phase ≡ injecting → env.status_answer h t ≡ ok t

-- The session with its token, before the pod is updated.
abbrev pub tokened : {env : Env} {pod : Pod} → Prepares env pod → DebugSession → DebugSession
tokened a s = with_token s (encode_to_string (fill 32 a.source))

chosen_phase :
    (s s₁ : DebugSession) (l : List String)
    → choose_container s l ≡ some s₁
    → s₁.status.phase ≡ s.status.phase
chosen_phase s s₁ [] e = ground arith
chosen_phase s s₁ (c ∷ l) e = ground arith

module _ (env : Env) (pod : Pod) (a : Prepares env pod) (s s₁ : DebugSession)
    (chosen : choose_container (with_namespace s) pod.containers ≡ some s₁)
    (shared : shares_processes pod ≡ true) (phase : s.status.phase ≡ injecting) where
  phase₁ : s₁.status.phase ≡ injecting
  phase₁ = chosen_phase (with_namespace s) s₁ pod.containers chosen ∙ phase

  abbrev h₀ : History
  h₀ =
      updated_status (tokened a s₁)
      ∷ read_random 32
      ∷ listed_nodes
      ∷ got_service "kubedebugsess-system" "kubedebugsess-proxy-svc"
      ∷ got_pod (target_pod (with_namespace s))
      ∷ []

  -- Up to the update of the pod.
  prepared :
      Injecting.reconcile env s []
      ≡ Injecting.inject env pod (node_address a.node, show_int a.port) (tokened a s₁, none) h₀
  unfolding Injecting.reconcile Injecting.prepare Injecting.proceed Injecting.set_up_debug_sess
      generate_secure_token Injecting.check_injecting_condition get_proxy_service_node_info
      find_node first_node
  prepared = simp (
    a.pods,
    chosen,
    shared,
    a.services,
    a.node_lists,
    a.random,
    λ (h : History). a.accepts h (tokened a s₁) phase₁,
  )

  after-prepared :
      after env s
      ≡ stored env s
          (Injecting.inject env pod
            (node_address a.node, show_int a.port)
            (tokened a s₁, none)
            h₀).1
  unfolding run_reconciler reconciler_for phase_text
  after-prepared = after-phase env s injecting phase ∙ ap (λ x. stored env s x.1) prepared

  -- The container is added and the update to Active is refused.
  after-injected :
      (x : ApiError)
      → ((h : History) (ns name : String) (p : Pod) → env.ephemeral_answer h ns name p ≡ ok tt)
      → ((h : History) (t : DebugSession) → t.status.phase ≡ active → env.status_answer h t ≡ err x)
      → after env s ≡ persist s (with_debugger (tokened a s₁))
  unfolding Injecting.inject Injecting.conclude Injecting.inject_ephemeral_container
      update_session_status stored
  after-injected x added refused =
      after-prepared
      ∙ simp (
        added,
        λ (h : History). a.accepts h (with_debugger (tokened a s₁)) phase₁,
        λ (h : History) (m : String).
            refused h (with_phase (with_debugger (tokened a s₁)) active m) refl,
      )

  -- The container is refused.
  after-refused :
      (x : ApiError)
      → ((h : History)
          → env.ephemeral_answer h s₁.spec.target_namespace pod.name
              (with_ephemeral pod (debug_container (tokened a s₁)))
            ≡ err x)
      → ((h : History) (t : DebugSession) → t.status.phase ≡ failed → env.status_answer h t ≡ ok t)
      → (after env s).status.phase ≡ failed
  unfolding Injecting.inject Injecting.conclude Injecting.inject_ephemeral_container
      update_session_status stored
  after-refused x rejected accepted =
      ap (λ t. t.status.phase) after-prepared
      ∙ simp (
        rejected,
        λ (h : History) (m : String). accepted h (with_phase (tokened a s₁) failed m) refl,
      )

-- The pod after the injection.
abbrev pub with_its_debugger : {env : Env} {pod : Pod} → Prepares env pod → DebugSession → Pod
with_its_debugger {pod = pod} a s₁ = with_ephemeral pod (debug_container (tokened a s₁))

-- The choice looks at the spec alone.
chosen_persist :
    (s s₁ t : DebugSession) (l : List String)
    → choose_container (with_namespace s) l ≡ some s₁
    → choose_container (with_namespace (persist s t)) l ≡ some (persist s₁ t)
chosen_persist s s₁ t [] e = ground arith
chosen_persist s s₁ t (c ∷ l) e = ground arith

chosen_uid :
    (s s₁ : DebugSession) (l : List String) → choose_container s l ≡ some s₁ → s₁.uid ≡ s.uid
chosen_uid s s₁ [] e = ground arith
chosen_uid s s₁ (c ∷ l) e = ground arith

present-append :
    (l : List EphemeralContainer) (c : EphemeralContainer) (name : String)
    → c.name ≡ name
    → is_ephemeral_container_present (l ++ (c ∷ [])) name ≡ true
unfolding is_ephemeral_container_present
present-append [] c name e = simp ((eq_iff c.name name).1 e)
present-append (d ∷ l) c name e = ground (arith, present-append l c name e)

-- Of a session that is injecting, with a target container in a pod whose containers share their
-- processes, in a cluster that answers what its injection asks, adds the container, stores the
-- session while it is injecting, and refuses the update to Active: the session is still injecting
-- after the run, with its debugger in the pod. In a later cluster with that pod, which answers as
-- much, refuses a second container of a name that the pod has, and stores a failed session, the
-- next run makes the session Failed, with its debugger in the pod.
pub after_reinjection :
    (env env' : Env) (pod : Pod) (s s₁ : DebugSession) (x y : ApiError) (a : Prepares env pod)
    → Prepares env' (with_its_debugger a s₁)
    → s.status.phase ≡ injecting
    → choose_container (with_namespace s) pod.containers ≡ some s₁
    → shares_processes pod ≡ true
    → ((h : History) (ns name : String) (p : Pod) → env.ephemeral_answer h ns name p ≡ ok tt)
    → ((h : History) (t : DebugSession) → t.status.phase ≡ active → env.status_answer h t ≡ err x)
    → ((h : History) (ns name : String) (c : EphemeralContainer)
        → is_ephemeral_container_present (with_its_debugger a s₁).ephemeral_containers c.name ≡ true
        → env'.ephemeral_answer h ns name (with_ephemeral (with_its_debugger a s₁) c) ≡ err y)
    → ((h : History) (t : DebugSession) → t.status.phase ≡ failed → env'.status_answer h t ≡ ok t)
    → ((after env s).status.phase ≡ injecting)
      × (is_ephemeral_container_present
            (with_its_debugger a s₁).ephemeral_containers
            (debugger_name s)
          ≡ true)
      × ((after env' (after env s)).status.phase ≡ failed)
unfolding debug_container
after_reinjection env env' pod s s₁ x y a a' phase chosen shared added refused unique accepted =
    let t = with_debugger (tokened a s₁) in
    let same = after-injected env pod a s s₁ chosen shared phase x added refused in
    let phase' = phase₁ env pod a s s₁ chosen shared phase in
    let present =
      present-append pod.ephemeral_containers (debug_container (tokened a s₁)) (debugger_name s)
        (ap (λ u. "debugger-" <> u) (chosen_uid (with_namespace s) s₁ pod.containers chosen)) in
    let again =
      after-refused env' (with_its_debugger a s₁) a' (persist s t) (persist s₁ t)
        (chosen_persist s s₁ t pod.containers chosen) shared phase' y
        (λ h. unique h _ _ _ (present-append pod.ephemeral_containers _ _ refl)) accepted in
    (
      ap (λ u. u.status.phase) same ∙ phase',
      present,
      ap (λ u. (after env' u).status.phase) same ∙ again,
    )

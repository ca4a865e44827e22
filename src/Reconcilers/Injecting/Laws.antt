-- ===== src/Reconcilers/Injecting/Laws.antt =====
-- The calls that an injection makes, in their order, and the refusals.
use kube_debug_sess.Prelude.{ℕ, ◌≡◌, String, true, false, some, List, [], ◌∷◌}
use kube_debug_sess.Prelude.Int.{ℤ}
use kube_debug_sess.Prelude.Decimal.{show_int}
use kube_debug_sess.Api.{DebugSession}
use kube_debug_sess.Api.SessionPhase.{active, failed}
use kube_debug_sess.Kube.{Pod, Node, ok}
use kube_debug_sess.Cluster.{
  Env, History, got_pod, got_service, listed_nodes, read_random, updated_status,
  updated_ephemeral_containers,
}
use kube_debug_sess.SessionPhases.Outcome.{finish}
use kube_debug_sess.SessionPhases.Update.{
  with_namespace, with_phase, target_pod, update_session_status,
}
use kube_debug_sess.Reconcilers.NodeInfo.{
  node_address, first_node, find_node, get_proxy_service_node_info,
}
use kube_debug_sess.Reconcilers.Injecting.Token.{encode_to_string, fill, generate_secure_token}
use kube_debug_sess.Reconcilers.Injecting.{
  choose_container, shares_processes, with_token, with_debugger, with_ephemeral, debug_container,
  build_connection_string, check_injecting_condition, set_up_debug_sess, inject_ephemeral_container,
  conclude, inject, prepare, reconcile,
}

get_proxy_service_node_info-ok :
    (env : Env) (port : ℤ) (ports : List ℤ) (node : Node) (nodes : List Node) (h : History)
    → ((h : History)
        → env.service h "kubedebugsess-system" "kubedebugsess-proxy-svc" ≡ ok (port ∷ ports))
    → ((h : History) → env.nodes h ≡ ok (node ∷ nodes))
    → get_proxy_service_node_info env h ≡ (
      ok (node_address node, show_int port),
      listed_nodes ∷ got_service "kubedebugsess-system" "kubedebugsess-proxy-svc" ∷ h,
    )
unfolding get_proxy_service_node_info find_node first_node
get_proxy_service_node_info-ok env port ports node nodes h hs hn = simp (hs, hn)

-- With every call answered, a target container, and processes that the pod shares, `Reconcile`
-- makes exactly these calls: the pod, the service and the nodes are read, a token of 32 random
-- bytes is stored, then the container is added to the pod, then its name is stored, and last the
-- phase Active with the instructions.
pub reconcile-injects :
    (env : Env) (s s₁ : DebugSession) (pod : Pod) (port : ℤ) (ports : List ℤ) (node : Node)
    (nodes : List Node) (source : ℕ → ℕ)
    → ((h : History) → env.pod h (target_pod (with_namespace s)) ≡ ok pod)
    → choose_container (with_namespace s) pod.containers ≡ some s₁
    → shares_processes pod ≡ true
    → ((h : History)
        → env.service h "kubedebugsess-system" "kubedebugsess-proxy-svc" ≡ ok (port ∷ ports))
    → ((h : History) → env.nodes h ≡ ok (node ∷ nodes))
    → ((h : History) → env.random h 32 ≡ ok source)
    → ((h : History) (ns name : String) (p : Pod) → env.ephemeral_answer h ns name p ≡ ok tt)
    → ((h : History) (t : DebugSession) → env.status_answer h t ≡ ok t)
    → let s₂ = with_token s₁ (encode_to_string (fill 32 source)) in
      let s₃ = with_debugger s₂ in
      let s₄ =
        with_phase s₃ active (build_connection_string env s₃ (node_address node) (show_int port)) in
      reconcile env s [] ≡ (
        finish,
        updated_status s₄
            ∷ updated_status s₃
            ∷ updated_ephemeral_containers s₁.spec.target_namespace pod.name
                (with_ephemeral pod (debug_container s₂))
            ∷ updated_status s₂
            ∷ read_random 32
            ∷ listed_nodes
            ∷ got_service "kubedebugsess-system" "kubedebugsess-proxy-svc"
            ∷ got_pod (target_pod (with_namespace s))
            ∷ [],
      )
unfolding reconcile prepare inject conclude set_up_debug_sess inject_ephemeral_container
    update_session_status generate_secure_token check_injecting_condition
    get_proxy_service_node_info build_connection_string
reconcile-injects env s s₁ pod port ports node nodes source hp hc share hs hn hr he hu =
    simp
      (hp, hc, share, get_proxy_service_node_info-ok env port ports node nodes _ hs hn, hr, he, hu)

-- With a target container, a pod whose containers do not share their processes is left alone:
-- nothing is read but the pod, and the session fails with the reason.
pub reconcile-refuses :
    (env : Env) (s s₁ : DebugSession) (pod : Pod) (h : History)
    → env.pod h (target_pod (with_namespace s)) ≡ ok pod
    → choose_container (with_namespace s) pod.containers ≡ some s₁
    → shares_processes pod ≡ false
    → reconcile env s h
      ≡ update_session_status env s₁ failed "Inject Failed: pod.Spec.ShareProcessNamespace is false"
          (got_pod (target_pod (with_namespace s)) ∷ h)
unfolding reconcile prepare check_injecting_condition update_session_status
reconcile-refuses env s s₁ pod h hp hc share = simp (hp, hc, share)

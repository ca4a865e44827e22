-- ===== src/Reconcilers/NodeInfo.antt =====
-- `getProxyServiceNodeInfo` of
-- internal/controller/session_phases/reconcilers/injecting_reconciler.go
pub mod Laws
use kube_debug_sess.Prelude.{String, List, [], ◌∷◌, ◌<>◌, ◌==s◌, if◌then◌else◌}
use kube_debug_sess.Prelude.Int.{ℤ}
use kube_debug_sess.Prelude.Decimal.{show_int}
use kube_debug_sess.Kube.{
  external_ip, internal_ip, other_address, NodeAddress, Node, Fallible, ok, err,
}
use kube_debug_sess.Cluster.{Env, M, pure, ◌>>=◌, get_service, list_nodes}
use kube_debug_sess.SessionPhases.Outcome.{GoError, plain}

-- The loop over the addresses; `node_ip` is the variable of that name.
unfoldable pub pick_address : List NodeAddress → String → String
pick_address [] node_ip = node_ip
pick_address (a ∷ rest) node_ip = elim (a.kind) [
  | external_ip ↦ a.address
  | internal_ip ↦ pick_address rest (if node_ip ==s "" then a.address else node_ip)
  | other_address ↦ pick_address rest node_ip
]

unfoldable pub node_address : Node → String
unfolding pick_address
node_address addresses = let ip = pick_address addresses "" in if ip ==s "" then "127.0.0.1" else ip

-- The first node of the list.
unfoldable pub first_node : List Node → ℤ → Fallible GoError (String × String)
unfolding node_address show_int
first_node [] port = err (plain "no nodes found in cluster")
first_node (node ∷ nodes) port = ok (node_address node, show_int port)

module _ (env : Env) where
  -- From the first port of the service on.
  unfoldable pub find_node : List ℤ → M (Fallible GoError (String × String))
  unfolding first_node
  find_node [] = pure (err (plain "no ports found in service"))
  find_node (port ∷ ports) = do
    answer ← list_nodes env
    pure (elim answer [
      | err e ↦ err (plain ("failed to list nodes: " <> e.text))
      | ok nodes ↦ first_node nodes port
    ])

  -- The node's address and the port of the proxy on it.
  unfoldable pub get_proxy_service_node_info : M (Fallible GoError (String × String))
  unfolding find_node
  get_proxy_service_node_info = do
    answer ← get_service env "kubedebugsess-system" "kubedebugsess-proxy-svc"
    elim answer [
      | err e ↦ pure (err (plain ("failed to get service: " <> e.text)))
      | ok ports ↦ find_node ports
    ]

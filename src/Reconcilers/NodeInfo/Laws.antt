-- ===== src/Reconcilers/NodeInfo/Laws.antt =====
-- Which address of a node is given to the user.
use kube_debug_sess.Prelude.{
  ◌≡◌, ap, String, Option, none, some, List, [], ◌∷◌, arith, ◌==s◌, if◌then◌else◌, eq_iff,
}
use kube_debug_sess.Kube.{NodeAddress, external_ip, internal_ip, Node}
use kube_debug_sess.Reconcilers.NodeInfo.{pick_address, node_address}

-- The first external address.
pub first_external : List NodeAddress → Option String
first_external [] = none
first_external (a ∷ rest) = elim (a.kind) [ external_ip ↦ some a.address | _ ↦ first_external rest ]

-- The first internal address that is not empty, or the empty text.
pub first_internal : List NodeAddress → String
first_internal [] = ""
first_internal (a ∷ rest) = elim (a.kind) [
  | internal_ip ↦ if a.address ==s "" then first_internal rest else a.address
  | _ ↦ first_internal rest
]

abbrev expected_address : Node → String
expected_address node = elim (first_external node) [ some a ↦ a | none ↦ first_internal node ]

pick_address-lem :
    (l : List NodeAddress) (ip : String)
    → pick_address l ip
      ≡ elim (first_external l) [ some a ↦ a | none ↦ if ip ==s "" then first_internal l else ip ]
unfolding pick_address first_external first_internal
pick_address-lem [] ip = ground (arith, eq_iff ip "")
pick_address-lem (a ∷ rest) ip =
    ground (arith, pick_address-lem rest ip, pick_address-lem rest a.address, eq_iff ip "")

pick_address-expected : (node : Node) → pick_address node "" ≡ expected_address node
pick_address-expected node = pick_address-lem node ""

-- The address of a node: its first external one; failing that its first internal one that is not
-- empty; and 127.0.0.1 where that leaves none.
pub node_address-lem :
    (node : Node)
    → node_address node
      ≡ (if expected_address node ==s "" then "127.0.0.1" else expected_address node)
unfolding node_address
node_address-lem node =
    ap (λ ip. if ip ==s "" then "127.0.0.1" else ip) (pick_address-expected node)

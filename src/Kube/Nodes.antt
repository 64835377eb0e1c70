-- ===== src/Kube/Nodes.antt =====
-- verify_nodes, validate_node and node_observations of filter_plugins/kube_plan.py: the Nodes that
-- the API returns against the members of the plan.
pub mod Laws
pub mod Accepts
pub mod Verified
use ansible_roles.Prelude.{
  ◌<>◌, String, Bool, true, false, not, ◌&&◌, ◌||◌, Option, none, some, List, [], ◌∷◌, length, any,
  member, ◌==◌, nat_eq, string_eq,
}
use ansible_roles.Result.{
  Result, ok, err, value_error, key_error, raise_if, map_result, any_result, ◌>>=◌, ◌>>◌,
}
use ansible_roles.Json.{Json, bool, str, Dict, object, array, get, index, lookup, insert, has, eqb}
use ansible_roles.Text.{remove_prefix}
use ansible_roles.Ipv4.{Ipv4Network, overlaps, subnet_of}
use ansible_roles.Kube.{mapping, text, require_list, ipv4_network}

-- `indexed`: the members by node name; a later one of the same name replaces the earlier.
unfoldable pub index_members : List Json → List (String × Dict) → Result (List (String × Dict))
index_members [] indexed = ok indexed
index_members (raw ∷ rest) indexed = do
  m ← mapping raw "expected member"
  name ← text (get m "nodeName") "node name"
  index_members rest (insert name m indexed)

-- One condition: `type == 'Ready' and status == 'True'`
unfoldable pub is_ready : Json → Result Bool
is_ready raw = do
  condition ← mapping raw "condition"
  ok (eqb (get condition "type") (str "Ready") && eqb (get condition "status") (str "True"))

-- The three identity tests, on the Node's labels.
unfoldable pub check_identity : Dict → Dict → Dict → Result (Unit {0})
check_identity m labels plan = do
  raise_if (not (eqb (get labels "homelab.io/server-uid") (get m "uid")))
      (value_error "Node Server identity does not match")
  raise_if (not (eqb (get labels "homelab.io/kube-cluster-uid") (get plan "uid")))
      (value_error "Node cluster identity does not match")
  elim (eqb (get m "role") (str "control-plane")) [
    | true ↦
        raise_if (not (has "node-role.kubernetes.io/control-plane" labels))
          (value_error "Node control-plane role does not match")
    | false ↦
        raise_if (has "node-role.kubernetes.io/control-plane" labels)
          (value_error "Node control-plane role does not match")
  ]

-- The versions that the Node reports.
unfoldable pub check_running : Dict → Dict → Result (Unit {0})
check_running status settings = do
  info ← mapping (get status "nodeInfo") "Node info"
  kubernetes ← text (get settings "kubernetesVersion") "Kubernetes version"
  raise_if (not (eqb (get info "kubeletVersion") (str ("v" <> kubernetes))))
      (value_error "Node kubelet version does not match")
  containerd ← text (get settings "containerdVersion") "containerd version"
  raise_if (not (eqb (get info "containerRuntimeVersion") (str ("containerd://" <> containerd))))
      (value_error "Node running runtime version does not match")

unfoldable pub check_ready : Dict → Result (Unit {0})
check_ready status = do
  conditions ← require_list (get status "conditions") "Node conditions must be an array"
  ready ← any_result is_ready conditions
  raise_if (not ready) (value_error "Node is not Ready")

unfoldable pub validate_node : Dict → Dict → Dict → Dict → Result (Unit {0})
validate_node m node settings plan = do
  metadata ← mapping (get node "metadata") "Node metadata"
  labels ← mapping (get metadata "labels") "Node labels"
  status ← mapping (get node "status") "Node status"
  check_identity m labels plan
  check_running status settings
  check_ready status

-- `node.metadata.name`
unfoldable pub node_name : Dict → Result String
node_name node = do
  metadata ← mapping (get node "metadata") "Node metadata"
  text (get metadata "name") "Node name"

-- `node.spec.podCIDR`
unfoldable pub node_subnet : Dict → Result Ipv4Network
node_subnet node = do
  spec ← mapping (get node "spec") "Node spec"
  ipv4_network (get spec "podCIDR") "Node podCIDR"

-- `indexed.get(name)`, behind the test `name in seen or name not in indexed`
unfoldable pub expected_member : List (String × Dict) → List String → String → Result Dict
expected_member indexed seen name = elim (lookup name indexed) [
  | none ↦ err (value_error "Unexpected or duplicate Kubernetes Node identity")
  | some m ↦ do
    raise_if (member name seen) (value_error "Unexpected or duplicate Kubernetes Node identity")
    ok m
]

unfoldable pub check_subnet : Dict → Dict → List Ipv4Network → Result Ipv4Network
check_subnet node settings subnets = do
  subnet ← node_subnet node
  pod ← ipv4_network (get settings "podCIDR") "podCIDR"
  raise_if (not (subnet_of subnet pod))
      (value_error "Node pod subnet is outside the cluster network")
  raise_if (any (overlaps subnet) subnets) (value_error "Node pod subnets overlap")
  ok subnet

-- The loop over the Nodes; `seen` and `subnets` are what the rounds before it accepted.
unfoldable pub check_nodes :
    List (String × Dict)
    → Dict
    → Dict
    → List String
    → List Ipv4Network
    → List Json
    → Result (Unit {0})
check_nodes indexed settings plan seen subnets [] = ok tt
check_nodes indexed settings plan seen subnets (raw ∷ rest) = do
  node ← mapping raw "Node"
  name ← node_name node
  m ← expected_member indexed seen name
  validate_node m node settings plan
  subnet ← check_subnet node settings subnets
  check_nodes indexed settings plan (name ∷ seen) (subnet ∷ subnets) rest

unfoldable pub verify_nodes : Json → Json → Result Dict
verify_nodes raw_plan raw_response = do
  plan ← mapping raw_plan "cluster plan"
  settings ← mapping (get plan "settings") "settings"
  response ← mapping raw_response "Kubernetes Node response"
  expected ← require_list (get plan "members") "Expected members and actual Nodes must be arrays"
  nodes ← require_list (get response "items") "Expected members and actual Nodes must be arrays"
  indexed ← index_members expected []
  raise_if (not (length nodes == length indexed))
      (value_error "Actual Kubernetes Node membership differs from the selected Servers")
  check_nodes indexed settings plan [] [] nodes
  ok plan

-- node_observations: the Nodes by name, a later one replacing the earlier.
unfoldable pub index_nodes : List Json → List (String × Dict) → Result (List (String × Dict))
index_nodes [] indexed = ok indexed
index_nodes (raw ∷ rest) indexed = do
  node ← mapping raw "Node"
  name ← node_name node
  index_nodes rest (insert name node indexed)

-- The texts of the addresses of type InternalIP.
unfoldable pub internal_ips : List Json → Result (List String)
internal_ips [] = ok []
internal_ips (raw ∷ rest) = do
  address ← mapping raw "address"
  elim (eqb (get address "type") (str "InternalIP")) [
    | false ↦ internal_ips rest
    | true ↦ do
      ip ← text (get address "address") "InternalIP"
      ips ← internal_ips rest
      ok (ip ∷ ips)
  ]

unfoldable pub single_ip : List String → Result String
single_ip (ip ∷ []) = ok ip
single_ip _ = err (value_error "V1 requires one actual Node InternalIP")

-- `indexed[name]`
unfoldable pub indexed_node : List (String × Dict) → String → Result Dict
indexed_node indexed name = elim (lookup name indexed) [
  | none ↦ err (key_error name)
  | some node ↦ ok node
]

-- The public facts of one member's Node, in the order in which the source reads them.
unfoldable pub observe : List (String × Dict) → Json → Result Json
observe indexed raw = do
  m ← mapping raw "member"
  name ← text (get m "nodeName") "Node name"
  node ← indexed_node indexed name
  status ← mapping (get node "status") "Node status"
  info ← mapping (get status "nodeInfo") "Node info"
  addresses ← require_list (get status "addresses") "Node addresses must be an array"
  internal ← internal_ips addresses
  ip ← single_ip internal
  server ← index m "name"
  server_uid ← index m "uid"
  shown ← index m "nodeName"
  metadata ← mapping (get node "metadata") "metadata"
  uid ← text (get metadata "uid") "Node UID"
  role ← index m "role"
  spec ← mapping (get node "spec") "Node spec"
  cidr ← text (get spec "podCIDR") "pod CIDR"
  kubelet ← text (get info "kubeletVersion") "kubelet version"
  runtime ← text (get info "containerRuntimeVersion") "runtime"
  system ← text (get info "osImage") "OS image"
  kernel ← text (get info "kernelVersion") "kernel version"
  ok (
      object (
        ("serverRef", object (("name", server) ∷ ("uid", server_uid) ∷ []))
        ∷ ("nodeName", shown)
        ∷ ("nodeUID", str uid)
        ∷ ("role", role)
        ∷ ("ready", bool true)
        ∷ ("internalIP", str ip)
        ∷ ("podCIDR", str cidr)
        ∷ ("kubeletVersion", str kubelet)
        ∷ ("containerdVersion", str (remove_prefix runtime "containerd://"))
        ∷ ("operatingSystem", str system)
        ∷ ("kernelVersion", str kernel)
        ∷ []))

unfoldable pub node_observations : Json → Json → Result Json
node_observations raw_plan raw_response = do
  plan ← verify_nodes raw_plan raw_response
  response ← mapping raw_response "Node response"
  members ← require_list (get plan "members") "Verified members and Nodes must be arrays"
  nodes ← require_list (get response "items") "Verified members and Nodes must be arrays"
  indexed ← index_nodes nodes []
  observed ← map_result (observe indexed) members
  ok (object (("nodes", array observed) ∷ []))

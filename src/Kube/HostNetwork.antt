-- ===== src/Kube/HostNetwork.antt =====
-- validate_host_network of filter_plugins/kube_plan.py: the cluster's networks against the networks
-- that the host is connected to.
pub mod Laws
use ansible_roles.Prelude.{
  ◌<>◌, String, Bool, true, false, not, ◌&&◌, ◌||◌, List, [], ◌∷◌, ◌++◌, any, member, string_eq,
  if◌then◌else◌,
}
use ansible_roles.Result.{Result, ok, err, value_error, raise_if, ◌>>=◌, ◌>>◌}
use ansible_roles.Json.{Json, bool, str, arr, obj, nil, end, Dict, get, get_or, has}
use ansible_roles.Ipv4.{Ipv4Network, ip_network, overlaps, subnet_of}
use ansible_roles.Kube.{mapping, text, require_list}
use ansible_roles.Kube.Settings.{cluster_networks}

-- `value is True`
unfoldable pub is_true : Json → Bool
is_true (bool true) = true
is_true _ = false

-- The network that one address of the facts is connected to.
unfoldable pub connected_network : Json → Result Ipv4Network
connected_network raw = do
  address ← mapping raw "IPv4 interface facts"
  ip ← text (get address "address") "interface address"
  netmask ← text (get address "netmask") "interface netmask"
  ip_network (ip <> "/" <> netmask) false

-- The networks that the kube roles manage themselves.
unfoldable pub is_managed : Dict → String → Ipv4Network → Ipv4Network → Bool
is_managed plan interface connected pod =
    is_true (get plan "allowManagedCNI")
    && member interface ("cni0" ∷ "flannel.1" ∷ [])
    && subnet_of connected pod

-- The inner loop: `continue` on a managed network, an error on any other that overlaps.
unfoldable pub check_addresses :
    Dict → Ipv4Network × Ipv4Network → String → List Json → Result (Unit {0})
check_addresses plan desired interface [] = ok tt
check_addresses plan desired interface (raw ∷ rest) = do
  connected ← connected_network raw
  raise_if
      (not (is_managed plan interface connected desired.0)
        && (overlaps connected desired.0 || overlaps connected desired.1))
      (value_error ("Cluster CIDRs overlap connected network on " <> interface))
  check_addresses plan desired interface rest

-- The secondary addresses of an interface, and its main one behind them.
unfoldable pub interface_addresses : Dict → String → Result (List Json)
interface_addresses facts interface = do
  details ← mapping (get_or facts interface (obj end)) "interface facts"
  secondary ←
      require_list (get_or details "ipv4_secondaries" (arr nil))
        "Secondary IPv4 interface facts must be an array"
  ok (if has "ipv4" details then secondary ++ (get details "ipv4" ∷ []) else secondary)

-- The outer loop.
unfoldable pub check_interfaces :
    Dict → Ipv4Network × Ipv4Network → Dict → List Json → Result (Unit {0})
check_interfaces plan desired facts [] = ok tt
check_interfaces plan desired facts (raw ∷ rest) = do
  interface ← text raw "interface name"
  addresses ← interface_addresses facts interface
  check_addresses plan desired interface addresses
  check_interfaces plan desired facts rest

-- `isinstance(interfaces, list)`, and not empty
unfoldable pub host_interfaces : Dict → Result (List Json)
host_interfaces facts = do
  interfaces ←
      require_list (get facts "interfaces")
        "Host interface facts are required for network validation"
  elim interfaces [
    | [] ↦ err (value_error "Host interface facts are required for network validation")
    | i ∷ is ↦ ok (i ∷ is)
  ]

unfoldable pub validate_host_network : Json → Json → Result Dict
validate_host_network raw_plan raw_facts = do
  plan ← mapping raw_plan "cluster plan"
  spec ← mapping (get plan "settings") "cluster settings"
  facts ← mapping raw_facts "Ansible host facts"
  interfaces ← host_interfaces facts
  desired ← cluster_networks spec
  check_interfaces plan desired facts interfaces
  ok plan

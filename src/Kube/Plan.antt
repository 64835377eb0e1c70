-- ===== src/Kube/Plan.antt =====
-- cluster_plan of filter_plugins/kube_plan.py: the validated role inputs of one cluster.
pub mod Laws
use ansible_roles.Prelude.{
  ℕ, ◌-◌, ◌^◌, String, Bool, not, ◌||◌, List, [], ◌∷◌, length, member, keep, ltb, string_eq, map,
}
use ansible_roles.Result.{Error, Result, ok, err, value_error, raise_if, ◌>>=◌, ◌>>◌}
use ansible_roles.Json.{Json, str, obj, end, Dict, object, array, get, get_or, index, eqb}
use ansible_roles.Ipv4.{Ipv4Network}
use ansible_roles.Kube.{mapping, text, ipv4_network}
use ansible_roles.Kube.Members.{Member, is_control_plane, selected_members}
use ansible_roles.Kube.Settings.{validated_settings}

pub record ClusterPlan : Type 0 where
  pub name : String
  pub uid : String
  pub settings : Dict
  pub members : List Member
  pub control_plane : Member
  pub network_api_endpoint : String

-- The members as the wire carries them.
unfoldable pub member_json : Member → Json
member_json m = object (
    ("name", str m.name)
    ∷ ("uid", str m.uid)
    ∷ ("nodeName", str m.node_name)
    ∷ ("role", str m.role)
    ∷ ("cgroupVersion", str m.options.cgroup_version)
    ∷ ("iptablesBackend", str m.options.iptables_backend)
    ∷ [])

-- The dictionary that the filter returns.
unfoldable pub plan_json : ClusterPlan → Json
unfolding member_json
plan_json p = object (
    ("name", str p.name)
    ∷ ("uid", str p.uid)
    ∷ ("settings", object p.settings)
    ∷ ("members", array (map member_json p.members))
    ∷ ("controlPlane", member_json p.control_plane)
    ∷ ("networkApiEndpoint", str p.network_api_endpoint)
    ∷ [])

-- `network.prefixlen > 24 or 2**(24 - network.prefixlen) < len(members)`
unfoldable pub too_small : Ipv4Network → List Member → Bool
too_small network members =
    ltb 24 network.prefixlen || ltb (2 ^ (24 - network.prefixlen)) (length members)

-- `next(node for node in members if node['role'] == 'control-plane')`
unfoldable pub first_control_plane : List Member → Result Member
first_control_plane members = elim (keep is_control_plane members) [
  | [] ↦ err Error.type_error
  | m ∷ _ ↦ ok m
]

unfoldable pub api_endpoint : Dict → Result String
api_endpoint metadata = do
  annotations ← mapping (get_or metadata "annotations" (obj end)) "cluster annotations"
  endpoint ←
      text (get_or annotations "homelab.io/network-api-endpoint" (str "direct"))
        "homelab.io/network-api-endpoint"
  raise_if (not (member endpoint ("direct" ∷ "service" ∷ [])))
      (value_error "homelab.io/network-api-endpoint must be \"direct\" or \"service\"")
  ok endpoint

-- cluster_plan behind the settings: members, Pod network, endpoint and control plane.
unfoldable pub plan_of : Dict → Json → String → String → Dict → Result ClusterPlan
plan_of metadata nodes name uid settings = do
  members ← selected_members nodes name uid
  cidr ← index settings "podCIDR"
  network ← ipv4_network cidr "podCIDR"
  raise_if (too_small network members)
      (value_error "Pod network needs one /24 subnet per selected node")
  endpoint ← api_endpoint metadata
  control_plane ← first_control_plane members
  ok (record {
    name = name;
    uid = uid;
    settings = settings;
    members = members;
    control_plane = control_plane;
    network_api_endpoint = endpoint;
  })

unfoldable pub cluster_plan : Json → Json → Result ClusterPlan
cluster_plan raw_target nodes = do
  target ← mapping raw_target "configuration_target"
  raise_if (not (eqb (get target "kind") (str "KubeCluster")))
      (value_error "Kubernetes setup requires a KubeCluster target")
  metadata ← mapping (get target "metadata") "cluster metadata"
  name ← text (get metadata "name") "cluster name"
  uid ← text (get metadata "uid") "cluster UID"
  settings ← validated_settings (get target "spec")
  plan_of metadata nodes name uid settings

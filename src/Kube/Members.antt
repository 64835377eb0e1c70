-- ===== src/Kube/Members.antt =====
-- host_options and selected_members of filter_plugins/kube_plan.py: the captured Servers that carry
-- the cluster's label become the cluster's members.
pub mod Laws
pub mod Collects
pub mod Sort
pub mod Selected
use ansible_roles.Prelude.{
  ℕ, ◌<>◌, String, Bool, true, false, not, ◌&&◌, ◌||◌, List, [], ◌∷◌, length, member, keep, ◌==◌,
  string_eq, nat_eq, if◌then◌else◌,
}
use ansible_roles.Result.{Result, ok, err, value_error, raise_if, ◌>>=◌, ◌>>◌}
use ansible_roles.Json.{Json, null, str, obj, end, Dict, get, get_or, eqb}
use ansible_roles.Text.{str_leb}
use ansible_roles.Kube.{mapping, text, require_list, dns_name}

pub record HostOptions : Type 0 where
  pub cgroup_version : String
  pub iptables_backend : String

-- dict(name=…, uid=…, nodeName=…, role=…, **host_options(annotations))
pub record Member : Type 0 where
  pub name : String
  pub uid : String
  pub node_name : String
  pub role : String
  pub options : HostOptions

-- One round of the loop of `host_options`; both fields have two allowed values.
unfoldable pub host_option : Dict → String → String → String → String → Result String
host_option annotations annotation default first second = do
  value ← text (get_or annotations annotation (str default)) annotation
  raise_if (not (member value (first ∷ second ∷ [])))
      (value_error (annotation <> " must be \"" <> first <> "\" or \"" <> second <> "\""))
  ok value

unfoldable pub host_options : Dict → Result HostOptions
host_options annotations = do
  cgroup ← host_option annotations "homelab.io/kube-cgroup-version" "2" "1" "2"
  backend ← host_option annotations "homelab.io/kube-iptables-backend" "nft" "legacy" "nft"
  ok (record { cgroup_version = cgroup; iptables_backend = backend })

-- `binding is not None and binding != cluster_uid`
unfoldable pub binding_conflicts : Json → String → Bool
binding_conflicts null uid = false
binding_conflicts binding uid = not (eqb binding (str uid))

-- The loop's body for a labelled Server; `names` are the node names taken so far.
unfoldable pub member_of : String → List String → Dict → Dict → Result Member
member_of uid names node labels = do
  annotations ← mapping (get_or node "annotations" (obj end)) "Server annotations"
  raise_if (binding_conflicts (get annotations "homelab.io/kube-cluster-uid") uid)
      (value_error "Server cluster UID annotation does not match the target")
  name ← text (get node "name") "Server name"
  node_name ←
      text (get_or annotations "homelab.io/kube-node-name" (str name)) "Kubernetes node name"
  role ← text (get labels "homelab.io/kube-role") "Kubernetes role"
  raise_if (not (member role ("control-plane" ∷ "worker" ∷ [])))
      (value_error "Kubernetes role must be control-plane or worker")
  raise_if (not (dns_name node_name) || member node_name names)
      (value_error "Kubernetes node names must be valid and unique")
  server_uid ← text (get node "uid") "Server UID"
  options ← host_options annotations
  ok (record {
    name = name;
    uid = server_uid;
    node_name = node_name;
    role = role;
    options = options;
  })

-- `labels.get('homelab.io/kube-cluster') == cluster_name`
unfoldable pub is_labelled : Dict → String → Bool
is_labelled labels cluster = eqb (get labels "homelab.io/kube-cluster") (str cluster)

-- The loop over the captured Servers.
unfoldable pub collect : String → String → List Json → List String → Result (List Member)
collect cluster uid [] names = ok []
collect cluster uid (raw ∷ nodes) names = do
  node ← mapping raw "captured Server"
  labels ← mapping (get_or node "labels" (obj end)) "Server labels"
  elim (is_labelled labels cluster) [
    | false ↦ collect cluster uid nodes names
    | true ↦ do
      m ← member_of uid names node labels
      rest ← collect cluster uid nodes (m.node_name ∷ names)
      ok (m ∷ rest)
  ]

unfoldable pub is_control_plane : Member → Bool
is_control_plane m = m.role == "control-plane"

-- sorted(members, key=name), which is stable.
unfoldable pub insert_member : Member → List Member → List Member
insert_member m [] = m ∷ []
insert_member m (n ∷ ns) =
    let later = n ∷ insert_member m ns in if str_leb m.name n.name then m ∷ n ∷ ns else later

unfoldable pub sort_members : List Member → List Member
sort_members [] = []
sort_members (m ∷ ms) = insert_member m (sort_members ms)

unfoldable pub selected_members : Json → String → String → Result (List Member)
selected_members nodes cluster uid = do
  raw ← require_list nodes "configuration_nodes must be an array"
  members ← collect cluster uid raw []
  raise_if (not (length (keep is_control_plane members) == 1))
      (value_error "V1 requires exactly one control-plane Server")
  ok (sort_members members)

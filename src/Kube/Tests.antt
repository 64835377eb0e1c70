-- ===== src/Kube/Tests.antt =====
-- Runs of the Kubernetes planning filters on a cluster of two nodes, and the theorems at these runs.
use ansible_roles.Prelude.{◌≡◌, refl, String, List, [], ◌∷◌, In}
use ansible_roles.Result.{ok}
use ansible_roles.Json.{Json, str, object, array, Dict, eqb, get}
use ansible_roles.Text.{split, label_matches}
use ansible_roles.Ipv4.{
  ip_network, parts_network, build_network, make_network, parse_address, parse_mask, span, size,
  broadcast, contains, overlaps, subnet_of,
}
use ansible_roles.Kube.{mapping, text, require_list, dns_name, ipv4_network}
use ansible_roles.Kube.Members.{
  Member, host_option, host_options, binding_conflicts, member_of, is_labelled, collect,
  is_control_plane, insert_member, sort_members, selected_members,
}
use ansible_roles.Kube.Members.Laws.{Describes}
use ansible_roles.Kube.Members.Collects.{BelongsTo}
use ansible_roles.Kube.Members.Selected.{
  IsSelection, selected_members-IsSelection, selected_members-BelongsTo,
}
use ansible_roles.Kube.Nodes.{
  index_members, is_ready, check_identity, check_running, check_ready, validate_node, node_name,
  node_subnet, expected_member, check_subnet, check_nodes, verify_nodes,
}
use ansible_roles.Kube.Nodes.Verified.{
  IsVerified, verify_nodes-IsVerified, members_message, response_nodes,
}

abbrev server : String → String → String → Json
server name uid role = object (
    ("name", str name)
    ∷ ("uid", str uid)
    ∷ (
      "labels",
      object (("homelab.io/kube-cluster", str "lab") ∷ ("homelab.io/kube-role", str role) ∷ []),
    )
    ∷ [])

abbrev captured : List Json
captured =
    server "worker-1" "uid-2" "worker"
    ∷ object (("name", str "other") ∷ ("uid", str "uid-9") ∷ [])
    ∷ server "control-1" "uid-1" "control-plane"
    ∷ []

abbrev host : String → String → String → Member
host name uid role = record {
  name = name;
  uid = uid;
  node_name = name;
  role = role;
  options = record { cgroup_version = "2"; iptables_backend = "nft" };
}

abbrev chosen : List Member
chosen = host "control-1" "uid-1" "control-plane" ∷ host "worker-1" "uid-2" "worker" ∷ []

selected_two : selected_members (array captured) "lab" "cluster-1" ≡ ok chosen
unfolding selected_members require_list collect mapping is_labelled eqb member_of text
    binding_conflicts dns_name split label_matches host_options host_option is_control_plane
    sort_members insert_member
selected_two = refl

selected_members-IsSelection_example : IsSelection chosen
selected_members-IsSelection_example =
    selected_members-IsSelection (array captured) "lab" "cluster-1" selected_two

selected_members-BelongsTo_example :
    ((v : Json) (node : Dict)
      → In v captured
      → BelongsTo "lab" v node
      → (m : Member) × In m chosen × Describes m node)
    × ((m : Member)
        → In m chosen
        → (v : Json) × (node : Dict) × In v captured × BelongsTo "lab" v node × Describes m node)
unfolding require_list
selected_members-BelongsTo_example =
    selected_members-BelongsTo (array captured) "lab" "cluster-1" selected_two captured refl

abbrev plan_member : String → String → String → Json
plan_member name uid role =
    object
      (("name", str name) ∷ ("uid", str uid) ∷ ("nodeName", str name) ∷ ("role", str role) ∷ [])

abbrev plan : Dict
plan =
    ("uid", str "cluster-1")
    ∷ (
      "settings",
      object (
          ("kubernetesVersion", str "1.34.1")
          ∷ ("containerdVersion", str "2.1.4")
          ∷ ("podCIDR", str "10.244.0.0/16")
          ∷ []),
    )
    ∷ (
      "members",
      array (
          plan_member "control-1" "uid-1" "control-plane"
          ∷ plan_member "worker-1" "uid-2" "worker"
          ∷ []),
    )
    ∷ []

abbrev running : String → String → Dict → String → Json
running name uid role cidr = object (
    (
      "metadata",
      object (
          ("name", str name)
          ∷ (
            "labels",
            object (
                ("homelab.io/server-uid", str uid)
                ∷ ("homelab.io/kube-cluster-uid", str "cluster-1")
                ∷ role),
          )
          ∷ []),
    )
    ∷ ("spec", object (("podCIDR", str cidr) ∷ []))
    ∷ (
      "status",
      object (
          (
            "nodeInfo",
            object (
                ("kubeletVersion", str "v1.34.1")
                ∷ ("containerRuntimeVersion", str "containerd://2.1.4")
                ∷ []),
          )
          ∷ (
            "conditions",
            array (object (("type", str "Ready") ∷ ("status", str "True") ∷ []) ∷ []),
          )
          ∷ []),
    )
    ∷ [])

abbrev nodes : List Json
nodes =
    running "worker-1" "uid-2" [] "10.244.1.0/24"
    ∷ running "control-1" "uid-1" (("node-role.kubernetes.io/control-plane", str "") ∷ [])
        "10.244.0.0/24"
    ∷ []

abbrev response : Json
response = object (("items", array nodes) ∷ [])

verified_two : verify_nodes (object plan) response ≡ ok plan
unfolding verify_nodes mapping require_list index_members text check_nodes node_name expected_member
    validate_node check_identity check_running check_ready is_ready check_subnet node_subnet
    ipv4_network ip_network parts_network build_network make_network parse_address parse_mask span
    size broadcast contains overlaps subnet_of split eqb
verified_two = refl

verify_nodes-IsVerified_example :
    (members : List Json) × (found : List Json) × (mapping (object plan) "cluster plan" ≡ ok plan)
    × (require_list (get plan "members") members_message ≡ ok members)
    × (response_nodes response ≡ ok found)
    × IsVerified plan members found
verify_nodes-IsVerified_example = verify_nodes-IsVerified (object plan) response verified_two

-- ===== src/Kube/Runs.antt =====
-- Runs of the other Kubernetes filters, and the theorems at these runs.
use ansible_roles.Prelude.{◌≡◌, refl, String, true, false, List, [], ◌∷◌}
use ansible_roles.Result.{ok}
use ansible_roles.Json.{Json, str, object, array, Dict, eqb, get}
use ansible_roles.Text.{
  insert_text, sort_texts, split, rpartition, starts_with, remove_prefix, replace, digit_value,
  is_decimal, all_decimal, is_release, int_of, label_matches, has_code,
}
use ansible_roles.Ipv4.{
  span, size, broadcast, parse_address, parse_mask, make_network, build_network, parts_network,
  ip_network, contains, overlaps, subnet_of,
}
use ansible_roles.Kube.Registration.Pointer.{WritesLabels, managed_label_patch-WritesLabels}
use ansible_roles.Kube.{mapping, text, require_list, dns_name, ipv4_network}
use ansible_roles.Kube.Members.{
  Member, host_option, host_options, binding_conflicts, member_of, is_labelled, collect,
  is_control_plane, insert_member, sort_members, selected_members,
}
use ansible_roles.Kube.Settings.{
  release_field, minor_version, valid_port, check_endpoint, default_release, cluster_networks,
  check_versions, check_network, validated_settings, stable_identity,
}
use ansible_roles.Kube.Plan.{
  ClusterPlan, member_json, plan_json, too_small, first_control_plane, api_endpoint, plan_of,
  cluster_plan,
}
use ansible_roles.Kube.HostNetwork.{
  is_true, connected_network, is_managed, check_addresses, interface_addresses, check_interfaces,
  host_interfaces, validate_host_network,
}
use ansible_roles.Kube.Nodes.{
  index_members, is_ready, check_identity, check_running, check_ready, validate_node, node_name,
  node_subnet, expected_member, check_subnet, check_nodes, verify_nodes, index_nodes, internal_ips,
  single_ip, indexed_node, observe, node_observations,
}
use ansible_roles.Kube.Registration.{
  test, add, RegistrationAction, members_by_name, desired_labels, op_json, escape, guard_ops,
  drop_ops, managed_label_patch, action_json, selected_member, is_foreign, check_owned,
  check_ownership, internal_addresses, check_address, labels_differ, opposite_label,
  identified_labels, present_action, registration_action,
}
use ansible_roles.Kube.Artifacts.{
  Artifact, differs, destination, changed_paths, changed_binaries, components, is_sha256, same_keys,
  artifact_json, manifest, installed_artifacts,
}
use ansible_roles.Kube.Membership.{
  Observation, actual_nodes, only_in, in_both, entry_of, has_conflict, ready_status, inspect_member,
  inspect_members, observation_json, membership_observation,
}
use ansible_roles.Kube.Settings.Laws.{IsSupported, validated_settings-IsSupported}
use ansible_roles.Kube.HostNetwork.Laws.{HostIsClear, validate_host_network-IsClear}
use ansible_roles.Kube.Registration.Laws.{IsEntitled, present_action-IsEntitled}
use ansible_roles.Kube.Plan.Laws.{IsPlan, cluster_plan-IsPlan}
use ansible_roles.Kube.Artifacts.Laws.{SameNames, Lists, installed_artifacts-Lists}
use ansible_roles.Kube.Flannel.{is_override, kept_entries, direct_container, variable}
use ansible_roles.Kube.Flannel.Laws.{Overrides, direct_container-Overrides}
use ansible_roles.Kube.Membership.Laws.{IsObservation, membership_observation-IsObservation}

abbrev spec : Dict
spec =
    ("kubernetesVersion", str "1.34.1")
    ∷ ("containerdVersion", str "2.1.4")
    ∷ ("podCIDR", str "10.244.0.0/16")
    ∷ ("serviceCIDR", str "10.96.0.0/12")
    ∷ ("network", object (("provider", str "flannel") ∷ ("version", str "0.27.3") ∷ []))
    ∷ ("controlPlaneEndpoint", str "10.0.0.10:6443")
    ∷ []

abbrev settings : Dict
settings =
    ("kubernetesVersion", str "1.34.1")
    ∷ ("containerdVersion", str "2.1.4")
    ∷ ("podCIDR", str "10.244.0.0/16")
    ∷ ("serviceCIDR", str "10.96.0.0/12")
    ∷ ("network", object (("provider", str "flannel") ∷ ("version", str "0.27.3") ∷ []))
    ∷ ("controlPlaneEndpoint", str "10.0.0.10:6443")
    ∷ ("runcVersion", str "1.5.2")
    ∷ ("cniPluginsVersion", str "1.9.1")
    ∷ []

settled : validated_settings (object spec) ≡ ok settings
unfolding split rpartition starts_with remove_prefix replace digit_value is_decimal all_decimal
    is_release int_of label_matches has_code span size broadcast parse_address parse_mask
    make_network build_network parts_network ip_network contains overlaps subnet_of mapping text
    require_list dns_name ipv4_network release_field minor_version valid_port check_endpoint
    default_release cluster_networks check_versions check_network validated_settings stable_identity
    eqb
settled = refl

validated_settings-IsSupported_example :
    (d : Dict) × (mapping (object spec) "cluster spec" ≡ ok d) × IsSupported d
validated_settings-IsSupported_example =
    validated_settings-IsSupported (object spec) settings settled

abbrev address : String → String → Json
address ip netmask = object (("address", str ip) ∷ ("netmask", str netmask) ∷ [])

abbrev facts : Dict
facts =
    ("interfaces", array (str "lo" ∷ str "eth0" ∷ str "cni0" ∷ []))
    ∷ ("eth0", object (("ipv4", address "192.168.1.5" "255.255.255.0") ∷ []))
    ∷ ("cni0", object (("ipv4", address "10.244.1.1" "255.255.255.0") ∷ []))
    ∷ []

abbrev host_plan : Dict
host_plan = ("allowManagedCNI", Json.bool true) ∷ ("settings", object spec) ∷ []

host_accepted : validate_host_network (object host_plan) (object facts) ≡ ok host_plan
unfolding split rpartition starts_with remove_prefix replace digit_value is_decimal all_decimal
    is_release int_of label_matches has_code span size broadcast parse_address parse_mask
    make_network build_network parts_network ip_network contains overlaps subnet_of mapping text
    require_list dns_name ipv4_network release_field minor_version valid_port check_endpoint
    default_release cluster_networks check_versions check_network validated_settings stable_identity
    is_true connected_network is_managed check_addresses interface_addresses check_interfaces
    host_interfaces validate_host_network eqb
host_accepted = refl

validate_host_network-IsClear_example : HostIsClear (object facts) host_plan
validate_host_network-IsClear_example =
    validate_host_network-IsClear (object host_plan) (object facts) host_plan host_accepted

abbrev target : Json
target = object (
    ("kind", str "KubeCluster")
    ∷ ("metadata", object (("name", str "lab") ∷ ("uid", str "cluster-1") ∷ []))
    ∷ ("spec", object spec)
    ∷ [])

abbrev captured : Json
captured = array (
    object (
      ("name", str "control-1")
      ∷ ("uid", str "uid-1")
      ∷ (
        "labels",
        object (
            ("homelab.io/kube-cluster", str "lab")
            ∷ ("homelab.io/kube-role", str "control-plane")
            ∷ []),
      )
      ∷ [])
    ∷ [])

abbrev control : Member
control = record {
  name = "control-1";
  uid = "uid-1";
  node_name = "control-1";
  role = "control-plane";
  options = record { cgroup_version = "2"; iptables_backend = "nft" };
}

abbrev single : ClusterPlan
single = record {
  name = "lab";
  uid = "cluster-1";
  settings = settings;
  members = control ∷ [];
  control_plane = control;
  network_api_endpoint = "direct";
}

planned : cluster_plan target captured ≡ ok single
unfolding split rpartition starts_with remove_prefix replace digit_value is_decimal all_decimal
    is_release int_of label_matches has_code span size broadcast parse_address parse_mask
    make_network build_network parts_network ip_network contains overlaps subnet_of mapping text
    require_list dns_name ipv4_network release_field minor_version valid_port check_endpoint
    default_release cluster_networks check_versions check_network validated_settings stable_identity
    host_option host_options binding_conflicts member_of is_labelled collect is_control_plane
    insert_member sort_members selected_members member_json plan_json too_small first_control_plane
    api_endpoint plan_of cluster_plan eqb
planned = refl

cluster_plan-IsPlan_example :
    ((t : Dict) × (mapping target "configuration_target" ≡ ok t)
      × (validated_settings (get t "spec") ≡ ok settings))
    × IsPlan single
cluster_plan-IsPlan_example = cluster_plan-IsPlan target captured single planned

abbrev plan : Dict
plan =
    ("uid", str "cluster-1")
    ∷ (
      "members",
      array (
          object (
            ("uid", str "uid-1")
            ∷ ("nodeName", str "control-1")
            ∷ ("role", str "control-plane")
            ∷ [])
          ∷ object
              (("uid", str "uid-2") ∷ ("nodeName", str "worker-1") ∷ ("role", str "worker") ∷ [])
          ∷ []),
    )
    ∷ []

abbrev worker : Dict
worker = ("uid", str "uid-2") ∷ ("nodeName", str "worker-1") ∷ ("role", str "worker") ∷ []

abbrev node : Dict
node =
    (
      "metadata",
      object (
          ("name", str "worker-1")
          ∷ ("uid", str "node-7")
          ∷ ("labels", object (("kubernetes.io/os", str "linux") ∷ []))
          ∷ []),
    )
    ∷ (
      "status",
      object (
          (
            "addresses",
            array (object (("type", str "InternalIP") ∷ ("address", str "10.0.0.12") ∷ []) ∷ []),
          )
          ∷ []),
    )
    ∷ []

abbrev request : Dict
request =
    ("nodeName", str "worker-1")
    ∷ ("serverUID", str "uid-2")
    ∷ ("role", str "worker")
    ∷ ("address", str "10.0.0.12")
    ∷ []

abbrev relabelled : RegistrationAction
relabelled = record {
  missing = false;
  labels_changed = true;
  label_patch =
      test "/metadata/uid" (str "node-7")
      ∷ test "/metadata/labels" (object (("kubernetes.io/os", str "linux") ∷ []))
      ∷ add "/metadata/labels/homelab.io~1server-uid" (str "uid-2")
      ∷ add "/metadata/labels/homelab.io~1kube-cluster-uid" (str "cluster-1")
      ∷ add "/metadata/labels/node-role.kubernetes.io~1worker" (str "")
      ∷ [];
}

acted : present_action plan worker node request ≡ ok relabelled
unfolding split rpartition starts_with remove_prefix replace digit_value is_decimal all_decimal
    is_release int_of label_matches has_code mapping text require_list dns_name ipv4_network
    members_by_name desired_labels op_json escape guard_ops drop_ops managed_label_patch action_json
    selected_member is_foreign check_owned check_ownership internal_addresses check_address
    labels_differ opposite_label identified_labels present_action registration_action eqb
acted = refl

present_action-IsEntitled_example : IsEntitled plan worker node request relabelled
present_action-IsEntitled_example =
    present_action-IsEntitled plan worker node request relabelled acted

abbrev node_list : Json
node_list = object (("items", array (object node ∷ [])) ∷ [])

abbrev observed : Observation
observed = record {
  ready = false;
  missing_members = "control-1" ∷ [];
  not_ready_members = "worker-1" ∷ [];
  unexpected_nodes = [];
  identity_conflicts = "worker-1" ∷ [];
}

observed_one : membership_observation (object plan) node_list ≡ ok observed
unfolding split rpartition starts_with remove_prefix replace digit_value is_decimal all_decimal
    is_release int_of label_matches has_code mapping text require_list dns_name ipv4_network
    index_members is_ready check_identity check_running check_ready validate_node node_name
    node_subnet expected_member check_subnet check_nodes verify_nodes index_nodes internal_ips
    single_ip indexed_node observe node_observations members_by_name desired_labels op_json escape
    guard_ops drop_ops managed_label_patch action_json selected_member is_foreign check_owned
    check_ownership internal_addresses check_address labels_differ opposite_label identified_labels
    present_action registration_action insert_text sort_texts actual_nodes only_in in_both entry_of
    has_conflict ready_status inspect_member inspect_members observation_json membership_observation
    eqb
observed_one = refl

membership_observation-IsObservation_example : IsObservation (object plan) node_list observed
membership_observation-IsObservation_example =
    membership_observation-IsObservation (object plan) node_list observed observed_one

abbrev sum : String
sum = "0123456789abcdef0123456789abcdef0123456789abcdef0123456789abcdef"

abbrev checksums : List (String × String) → Dict
checksums [] = []
checksums ((path, component) ∷ rest) = (path, str sum) ∷ checksums rest

abbrev artifacts : List (String × String) → List Artifact
artifacts [] = []
artifacts ((path, component) ∷ rest) =
    record { dest = path; component = component; checksum = sum } ∷ artifacts rest

abbrev identity : Json
identity = object (("files", object (checksums components)) ∷ [])

installed : installed_artifacts identity ≡ ok (artifacts components)
unfolding mapping text require_list dns_name ipv4_network differs destination changed_paths
    changed_binaries components is_sha256 same_keys artifact_json manifest installed_artifacts eqb
installed = refl

installed_artifacts-Lists_example :
    (i files : Dict) × (mapping identity "protected installation" ≡ ok i)
    × (mapping (get i "files") "protected binary manifest" ≡ ok files)
    × SameNames files components
    × Lists files components (artifacts components)
installed_artifacts-Lists_example =
    installed_artifacts-Lists identity (artifacts components) installed

abbrev container : Dict
container =
    ("name", str "kube-flannel")
    ∷ (
      "env",
      array (
          variable "KUBERNETES_SERVICE_HOST" "10.96.0.1"
          ∷ variable "EVENT_QUEUE_DEPTH" "5000"
          ∷ []),
    )
    ∷ []

abbrev direct : Json
direct = object (
    ("name", str "kube-flannel")
    ∷ (
      "env",
      array (
          variable "EVENT_QUEUE_DEPTH" "5000"
          ∷ variable "KUBERNETES_SERVICE_HOST" "10.0.0.10"
          ∷ variable "KUBERNETES_SERVICE_PORT" "6443"
          ∷ []),
    )
    ∷ [])

adapted : direct_container ("10.0.0.10", "6443") (object container) ≡ ok direct
unfolding direct_container kept_entries is_override mapping require_list eqb
adapted = refl

direct_container-Overrides_example : Overrides "10.0.0.10" "6443" (object container) direct
direct_container-Overrides_example =
    direct_container-Overrides "10.0.0.10" "6443" (object container) direct adapted

labelled_patch :
    managed_label_patch
      (("uid", str "node-7") ∷ ("labels", object []) ∷ [])
      (("homelab.io/~role", "r") ∷ [])
      "o"
    ≡ ok (
        test "/metadata/uid" (str "node-7")
        ∷ test "/metadata/labels" (object [])
        ∷ add "/metadata/labels/homelab.io~1~0role" (str "r")
        ∷ [])
unfolding managed_label_patch guard_ops drop_ops escape replace mapping text
labelled_patch = refl

managed_label_patch-WritesLabels_example :
    WritesLabels
      (("uid", str "node-7") ∷ ("labels", object []) ∷ [])
      (("homelab.io/~role", "r") ∷ [])
      "o"
      (test "/metadata/uid" (str "node-7")
        ∷ test "/metadata/labels" (object [])
        ∷ add "/metadata/labels/homelab.io~1~0role" (str "r")
        ∷ [])
managed_label_patch-WritesLabels_example =
    managed_label_patch-WritesLabels (("uid", str "node-7") ∷ ("labels", object []) ∷ [])
      (("homelab.io/~role", "r") ∷ []) "o"
      (test "/metadata/uid" (str "node-7")
        ∷ test "/metadata/labels" (object [])
        ∷ add "/metadata/labels/homelab.io~1~0role" (str "r")
        ∷ [])
      labelled_patch

abbrev asked : Dict
asked =
    ("kubernetesVersion", str "1.34.1")
    ∷ ("containerdVersion", str "2.1.4")
    ∷ ("podCIDR", str "10.244.0.0/16")
    ∷ ("serviceCIDR", str "10.96.0.0/12")
    ∷ ("network", object (("provider", str "flannel") ∷ []))
    ∷ ("controlPlaneEndpoint", str "10.0.0.10:6443")
    ∷ []

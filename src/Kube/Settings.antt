-- ===== src/Kube/Settings.antt =====
-- validated_settings and stable_identity of filter_plugins/kube_plan.py: the cluster's software,
-- endpoint and networks.
pub mod Laws
use ansible_roles.Prelude.{
  ℕ, ◌<>◌, String, Bool, true, false, not, ◌&&◌, ◌||◌, Option, none, some, List, [], ◌∷◌, leb, ltb,
  ◌==◌, string_eq, if◌then◌else◌,
}
use ansible_roles.Result.{Error, Result, ok, err, value_error, raise_if, ◌>>=◌, ◌>>◌}
use ansible_roles.Json.{Json, str, Dict, object, get, get_or, insert, remove, eqb}
use ansible_roles.Text.{is_release, starts_with, split, int_of, all_decimal, rpartition}
use ansible_roles.Ipv4.{Ipv4Network, overlaps}
use ansible_roles.Kube.{mapping, text, dns_name, ipv4_network}

-- A field that names an exact release.
unfoldable pub release_field : Dict → String → Result String
release_field spec field = do
  version ← text (get spec field) field
  raise_if (not (is_release version)) (value_error (field <> " must be an exact release"))
  ok version

-- `int(version.split('.')[1])`; a release has three parts.
unfoldable pub minor_version : String → Result ℕ
minor_version version = elim (split 46 version) [
  | [] ↦ err Error.type_error
  | major ∷ [] ↦ err Error.type_error
  | major ∷ minor ∷ rest ↦ int_of minor
]

-- The port's test: `port.isdigit() and 1 <= int(port) <= 65535`, whose `int` may raise too.
unfoldable pub valid_port : String → Result Bool
valid_port port =
    if all_decimal port then (do n ← int_of port; ok (leb 1 n && leb n 65535)) else ok false

abbrev endpoint_error : Error
endpoint_error = value_error "controlPlaneEndpoint must be an IPv4/DNS host and explicit valid port"

unfoldable pub check_endpoint : String → Result (Unit {0})
check_endpoint endpoint = elim (rpartition 58 endpoint) [
  | none ↦ err endpoint_error
  | some (host, port) ↦ do
    raise_if (not (dns_name host)) endpoint_error
    valid ← valid_port port
    raise_if (not valid) endpoint_error
]

-- One round of the last loop: a missing release gets its default.
unfoldable pub default_release : String → String → Dict → Result Dict
default_release field default settings = do
  let filled = insert field (get_or settings field (str default)) settings
  version ← text (get filled field) field
  raise_if (not (is_release version)) (value_error (field <> " must be an exact release"))
  ok filled

-- The two networks, in the order of the source, which must not overlap.
unfoldable pub cluster_networks : Dict → Result (Ipv4Network × Ipv4Network)
cluster_networks spec = do
  pod ← ipv4_network (get spec "podCIDR") "podCIDR"
  service ← ipv4_network (get spec "serviceCIDR") "serviceCIDR"
  ok (pod, service)

unfoldable pub check_versions : Dict → Result (Unit {0})
check_versions spec = do
  kubernetes ← release_field spec "kubernetesVersion"
  containerd ← release_field spec "containerdVersion"
  raise_if (not (starts_with kubernetes "1.")) (value_error "Only Kubernetes 1.x is supported")
  minor ← minor_version kubernetes
  raise_if (ltb minor 31)
      (value_error "The kubeadm v1beta4 configuration requires Kubernetes 1.31 or newer")

unfoldable pub check_network : Dict → Result (Unit {0})
check_network spec = do
  network ← mapping (get spec "network") "cluster network"
  raise_if (not (eqb (get network "provider") (str "flannel")))
      (value_error "The initial platform playbook supports Flannel only")
  version ← text (get network "version") "Flannel version"
  raise_if (not (is_release version)) (value_error "Flannel version must be an exact release")

unfoldable pub validated_settings : Json → Result Dict
validated_settings raw_spec = do
  spec ← mapping raw_spec "cluster spec"
  check_versions spec
  check_network spec
  networks ← cluster_networks spec
  raise_if (overlaps networks.0 networks.1)
      (value_error "Pod and Service networks must not overlap")
  endpoint ← text (get spec "controlPlaneEndpoint") "control-plane endpoint"
  check_endpoint endpoint
  settings ← default_release "runcVersion" "1.5.2" spec
  default_release "cniPluginsVersion" "1.9.1" settings

-- The Flannel release is dropped from the identity; the rest stays.
unfoldable pub stable_identity : Json → Result Dict
stable_identity raw_identity = do
  identity ← mapping raw_identity "Kubernetes member identity"
  settings ← mapping (get identity "settings") "identity settings"
  network ← mapping (get settings "network") "identity network"
  ok (
      insert "settings" (object (insert "network" (object (remove "version" network)) settings))
        identity)

-- ===== src/Kube/Settings/Laws.antt =====
-- What validated_settings accepts: networks without a common address, and a release that the
-- kubeadm configuration supports.
use ansible_roles.Prelude.{ℕ, ◌≤◌, ◌≡◌, String, true, false, not, arith}
use ansible_roles.Result.{ok, bind-eq-ok, raise_if-eq-ok}
use ansible_roles.Json.{Json, Dict, get}
use ansible_roles.Text.{starts_with}
use ansible_roles.Ipv4.{Ipv4Network, overlaps}
use ansible_roles.Ipv4.Laws.{IsAligned, InNetwork, overlaps_sound}
use ansible_roles.Kube.{mapping, ipv4_network}
use ansible_roles.Kube.Boundary.{ipv4_network-IsAligned}
use ansible_roles.Kube.Settings.{
  release_field, minor_version, check_versions, check_network, cluster_networks, validated_settings,
}

-- No address is in both networks.
abbrev pub Disjoint : Ipv4Network → Ipv4Network → Type 0
Disjoint a b = (ip : ℕ) → InNetwork ip a → InNetwork ip b → ⊥

pub cluster_networks-IsAligned :
    (spec : Dict) (pod service : Ipv4Network)
    → cluster_networks spec ≡ ok (pod, service)
    → IsAligned pod × IsAligned service
unfolding cluster_networks
cluster_networks-IsAligned spec pod service h =
    let aligned_pod : (n : Ipv4Network)
        → ipv4_network (get spec "podCIDR") "podCIDR" ≡ ok n
        → IsAligned n =
      λ n. ipv4_network-IsAligned (get spec "podCIDR") "podCIDR" in
    let aligned_service : (n : Ipv4Network)
        → ipv4_network (get spec "serviceCIDR") "serviceCIDR" ≡ ok n
        → IsAligned n =
      λ n. ipv4_network-IsAligned (get spec "serviceCIDR") "serviceCIDR" in
    (aligned_pod pod (ground arith), aligned_service service (ground arith))

pub Disjoint-networks :
    (a b : Ipv4Network) → IsAligned a → IsAligned b → overlaps a b ≡ false → Disjoint a b
Disjoint-networks a b wa wb h ip ma mb = overlaps_sound a b ip wa wb h ma mb

check_versions_lem :
    (spec : Dict)
    → check_versions spec ≡ ok tt
    → (version : String) × (minor : ℕ) × (release_field spec "kubernetesVersion" ≡ ok version)
      × (starts_with version "1." ≡ true)
      × (minor_version version ≡ ok minor)
      × (31 ≤ minor)
unfolding check_versions
check_versions_lem spec h =
    let (version, p, h1) = bind-eq-ok (release_field spec "kubernetesVersion") _ h in
    let (containerd, q, h2) = bind-eq-ok (release_field spec "containerdVersion") _ h1 in
    let (first, h3) = raise_if-eq-ok (not (starts_with version "1.")) _ _ h2 in
    let (minor, r, h4) = bind-eq-ok (minor_version version) _ h3 in
    (version, minor, p, ground arith, r, ground arith)

-- The settings of a cluster that validated_settings accepts: its Pod and Service networks have no
-- address in common, and its Kubernetes release is 1.n with n at least 31.
abbrev pub IsSupported : Dict → Type 0
IsSupported spec =
    ((pod : Ipv4Network) × (service : Ipv4Network) × (cluster_networks spec ≡ ok (pod, service))
      × Disjoint pod service)
    × ((version : String) × (minor : ℕ) × (release_field spec "kubernetesVersion" ≡ ok version)
        × (starts_with version "1." ≡ true)
        × (minor_version version ≡ ok minor)
        × (31 ≤ minor))

-- If validated_settings returns, the spec is a mapping whose Pod and Service networks have no
-- address in common, and whose Kubernetes release is 1.n with n at least 31.
pub validated_settings-IsSupported :
    (raw_spec : Json) (settings : Dict)
    → validated_settings raw_spec ≡ ok settings
    → (spec : Dict) × (mapping raw_spec "cluster spec" ≡ ok spec) × IsSupported spec
unfolding validated_settings
validated_settings-IsSupported raw_spec settings h =
    let (spec, m, h1) = bind-eq-ok (mapping raw_spec "cluster spec") _ h in
    let (_, versions, h2) = bind-eq-ok (check_versions spec) _ h1 in
    let (_, _, h3) = bind-eq-ok (check_network spec) _ h2 in
    let ((pod, service), n, h4) = bind-eq-ok (cluster_networks spec) _ h3 in
    let (apart, h5) = raise_if-eq-ok (overlaps pod service) _ _ h4 in
    let (aligned, aligned') = cluster_networks-IsAligned spec pod service n in
    (
      spec,
      m,
      (
        (pod, service, n, Disjoint-networks pod service aligned aligned' apart),
        check_versions_lem spec versions,
      ),
    )

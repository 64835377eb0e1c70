-- ===== src/Kube/HostNetwork/Laws.antt =====
-- What validate_host_network accepts: no connected network shares an address with the cluster's.
use ansible_roles.Prelude.{
  ℕ, ◌≡◌, refl, sym, subst, String, Bool, true, false, not, ◌&&◌, ◌||◌, List, [], ◌∷◌, ◌++◌, All,
  arith, inl, inr, ◌⊎◌, member, string_eq, if◌then◌else◌,
}
use ansible_roles.Result.{ok, ok_injective, bind-eq-ok, raise_if-eq-ok}
use ansible_roles.Json.{Json, bool, obj, end, arr, nil, Dict, get, get_or, has}
use ansible_roles.Ipv4.{Ipv4Network, overlaps, subnet_of}
use ansible_roles.Ipv4.Laws.{IsAligned, InNetwork, ip_network-IsAligned, subnet_of_sound}
use ansible_roles.Kube.{mapping, text, require_list}
use ansible_roles.Kube.Settings.{cluster_networks}
use ansible_roles.Kube.Settings.Laws.{Disjoint, cluster_networks-IsAligned, Disjoint-networks}
use ansible_roles.Kube.HostNetwork.{
  is_true, connected_network, is_managed, check_addresses, interface_addresses, check_interfaces,
  host_interfaces, validate_host_network,
}

the_true : (v : Json) → is_true v ≡ true → v ≡ bool true
unfolding is_true
the_true (bool true) h = refl
the_true (bool false) h = cc
the_true Json.null h = cc
the_true (Json.int n) h = cc
the_true (Json.str n) h = cc
the_true (arr n) h = cc
the_true (obj n) h = cc

pub connected_network-IsAligned :
    (raw : Json) (n : Ipv4Network) → connected_network raw ≡ ok n → IsAligned n
unfolding connected_network
connected_network-IsAligned raw n h =
    let (address, _, h1) = bind-eq-ok (mapping raw "IPv4 interface facts") _ h in
    let (ip, _, h2) = bind-eq-ok (text (get address "address") "interface address") _ h1 in
    let (netmask, _, h3) = bind-eq-ok (text (get address "netmask") "interface netmask") _ h2 in
    ip_network-IsAligned _ false h3

-- Every address of `a` is in `b`.
abbrev pub Within : Ipv4Network → Ipv4Network → Type 0
Within a b = (ip : ℕ) → InNetwork ip a → InNetwork ip b

-- A network that the kube roles manage: the plan allows it, and it is inside the Pod network on one
-- of the two interfaces of the CNI.
abbrev pub IsManaged : Dict → String → Ipv4Network → Ipv4Network → Type 0
IsManaged plan interface connected pod =
    (get plan "allowManagedCNI" ≡ bool true)
    × ((interface ≡ "cni0") ⊎ (interface ≡ "flannel.1"))
    × Within connected pod

is_managed-IsManaged :
    (plan : Dict) (interface : String) (connected pod : Ipv4Network)
    → IsAligned connected
    → IsAligned pod
    → is_managed plan interface connected pod ≡ true
    → IsManaged plan interface connected pod
unfolding is_managed
is_managed-IsManaged plan interface connected pod wc wp h =
    let allowed : is_true (get plan "allowManagedCNI") ≡ true = ground arith in
    let on : member interface ("cni0" ∷ "flannel.1" ∷ []) ≡ true = ground arith in
    let inside : subnet_of connected pod ≡ true = ground arith in
    (
      the_true (get plan "allowManagedCNI") allowed,
      one_of on,
      λ ip m. subnet_of_sound connected pod ip wc wp inside m,
    )
  where
    one_of :
        member interface ("cni0" ∷ "flannel.1" ∷ []) ≡ true
        → (interface ≡ "cni0") ⊎ (interface ≡ "flannel.1")
    one_of h =
        ground
          (arith, string_eq.same_iff interface "cni0", string_eq.same_iff interface "flannel.1")

-- An address of the facts is on a network that the roles manage, or on one that shares no address
-- with the Pod and Service networks.
abbrev pub IsClear : Dict → Ipv4Network × Ipv4Network → String → Json → Type 0
IsClear plan desired interface raw =
    (connected : Ipv4Network) × (connected_network raw ≡ ok connected)
    × (IsManaged plan interface connected desired.0
        ⊎ (Disjoint connected desired.0 × Disjoint connected desired.1))

-- Every address of the interface: the secondary ones, and the primary one if the facts have it.
abbrev pub InterfaceIsClear : Dict → Ipv4Network × Ipv4Network → Dict → Json → Type 0
InterfaceIsClear plan desired facts raw =
    (interface : String) × (details : Dict) × (secondary : List Json) × (text raw "interface name"
      ≡ ok interface)
    × (mapping (get_or facts interface (obj end)) "interface facts" ≡ ok details)
    × (require_list (get_or details "ipv4_secondaries" (arr nil))
          "Secondary IPv4 interface facts must be an array"
        ≡ ok secondary)
    × All (IsClear plan desired interface) secondary
    × ((has "ipv4" details ≡ false) ⊎ IsClear plan desired interface (get details "ipv4"))

All-append : (P : Json → Type 0) (xs : List Json) (y : Json) → All P (xs ++ y ∷ []) → All P xs × P y
All-append P [] y h = (tt, h.0)
All-append P (x ∷ xs) y h = let (below, last) = All-append P xs y h.1 in ((h.0, below), last)

interface_addresses-IsClear :
    (plan : Dict) (desired : Ipv4Network × Ipv4Network) (facts : Dict) (raw : Json)
    (interface : String) (addresses : List Json)
    → text raw "interface name" ≡ ok interface
    → interface_addresses facts interface ≡ ok addresses
    → All (IsClear plan desired interface) addresses
    → InterfaceIsClear plan desired facts raw
unfolding interface_addresses
interface_addresses-IsClear plan desired facts raw interface addresses t h all_clear =
    let (details, d, h1) =
      bind-eq-ok (mapping (get_or facts interface (obj end)) "interface facts") _ h in
    let (secondary, s, h2) =
      bind-eq-ok
        (require_list (get_or details "ipv4_secondaries" (arr nil))
          "Secondary IPv4 interface facts must be an array")
        _ h1 in
    let (clear, primary) =
      split details secondary (has "ipv4" details) refl
        (subst (All (IsClear plan desired interface)) (sym (ok_injective h2)) all_clear) in
    (interface, details, secondary, t, d, s, clear, primary)
  where
    split :
        (details : Dict) (secondary : List Json) (b : Bool)
        → has "ipv4" details ≡ b
        → All
            (IsClear plan desired interface)
            (if b then secondary ++ (get details "ipv4" ∷ []) else secondary)
        → All (IsClear plan desired interface) secondary
          × ((has "ipv4" details ≡ false) ⊎ IsClear plan desired interface (get details "ipv4"))
    split details secondary true e h =
        let (below, last) = All-append (IsClear plan desired interface) secondary _ h in
        (below, inr last)
    split details secondary false e h = (h, inl e)

-- Every interface that the facts list, against the networks of the plan's settings.
abbrev pub HostIsClear : Json → Dict → Type 0
HostIsClear raw_facts plan =
    (facts spec : Dict) × (interfaces : List Json) × (desired : Ipv4Network × Ipv4Network)
    × (mapping raw_facts "Ansible host facts" ≡ ok facts)
    × (mapping (get plan "settings") "cluster settings" ≡ ok spec)
    × (host_interfaces facts ≡ ok interfaces)
    × (cluster_networks spec ≡ ok desired)
    × All (InterfaceIsClear plan desired facts) interfaces

module _ (plan : Dict) (desired : Ipv4Network × Ipv4Network) (pod : IsAligned desired.0)
    (service : IsAligned desired.1) where
  clear :
      (interface : String) (raw : Json) (connected : Ipv4Network) (b : Bool)
      → connected_network raw ≡ ok connected
      → is_managed plan interface connected desired.0 ≡ b
      → (not b && (overlaps connected desired.0 || overlaps connected desired.1)) ≡ false
      → IsClear plan desired interface raw
  clear interface raw connected true p m h =
      let aligned = connected_network-IsAligned raw connected p in
      (connected, p, inl (is_managed-IsManaged plan interface connected desired.0 aligned pod m))
  clear interface raw connected false p m h =
      let aligned = connected_network-IsAligned raw connected p in
      (
        connected,
        p,
        inr (
          Disjoint-networks connected desired.0 aligned pod (ground arith),
          Disjoint-networks connected desired.1 aligned service (ground arith),
        ),
      )

  check_addresses-IsClear :
      (interface : String) (addresses : List Json)
      → check_addresses plan desired interface addresses ≡ ok tt
      → All (IsClear plan desired interface) addresses
  unfolding check_addresses
  check_addresses-IsClear interface [] h = tt
  check_addresses-IsClear interface (raw ∷ rest) h =
      let (connected, p, h1) = bind-eq-ok (connected_network raw) _ h in
      let (apart, h2) =
        raise_if-eq-ok
          (not (is_managed plan interface connected desired.0)
            && (overlaps connected desired.0 || overlaps connected desired.1))
          _ _ h1 in
      (clear interface raw connected _ p refl apart, check_addresses-IsClear interface rest h2)

  check_interfaces-IsClear :
      (facts : Dict) (interfaces : List Json)
      → check_interfaces plan desired facts interfaces ≡ ok tt
      → All (InterfaceIsClear plan desired facts) interfaces
  unfolding check_interfaces
  check_interfaces-IsClear facts [] h = tt
  check_interfaces-IsClear facts (raw ∷ rest) h =
      let (interface, p, h1) = bind-eq-ok (text raw "interface name") _ h in
      let (addresses, q, h2) = bind-eq-ok (interface_addresses facts interface) _ h1 in
      let (_, checked, h3) = bind-eq-ok (check_addresses plan desired interface addresses) _ h2 in
      (
        interface_addresses-IsClear plan desired facts raw interface addresses p q
            (check_addresses-IsClear interface addresses checked),
        check_interfaces-IsClear facts rest h3,
      )

-- If validate_host_network returns, then for every interface that the facts list, each of its
-- secondary addresses, and its primary one where it has one, is on a network without an address in
-- common with the Pod and the Service network, or on one that the roles manage: a network whose
-- addresses all are in the Pod network, on cni0 or flannel.1, where the plan's allowManagedCNI is
-- true.
pub validate_host_network-IsClear :
    (raw_plan raw_facts : Json) (plan : Dict)
    → validate_host_network raw_plan raw_facts ≡ ok plan
    → HostIsClear raw_facts plan
unfolding validate_host_network
validate_host_network-IsClear raw_plan raw_facts plan h =
    let (plan', _, h1) = bind-eq-ok (mapping raw_plan "cluster plan") _ h in
    let (spec, s, h2) = bind-eq-ok (mapping (get plan' "settings") "cluster settings") _ h1 in
    let (facts, f, h3) = bind-eq-ok (mapping raw_facts "Ansible host facts") _ h2 in
    let (interfaces, i, h4) = bind-eq-ok (host_interfaces facts) _ h3 in
    let (desired, d, h5) = bind-eq-ok (cluster_networks spec) _ h4 in
    let (_, c, h6) = bind-eq-ok (check_interfaces plan' desired facts interfaces) _ h5 in
    let same : plan' ≡ plan = ground arith in
    let (pod, service) = cluster_networks-IsAligned spec desired.0 desired.1 d in
    subst (HostIsClear raw_facts) same (
      facts,
      spec,
      interfaces,
      desired,
      f,
      s,
      i,
      d,
      check_interfaces-IsClear plan' desired pod service facts interfaces c,
    )

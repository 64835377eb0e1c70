-- ===== src/Kube/Members/Laws.antt =====
-- What a successful selection of members gives.
use ansible_roles.Prelude.{
  ◌≡◌, ◌≢◌, ◌⊎◌, String, true, false, List, member, arith, nat_eq, string_eq,
}
use ansible_roles.Result.{ok, bind-eq-ok}
use ansible_roles.Json.{str, obj, end, Dict, get, get_or}
use ansible_roles.Kube.{mapping, dns_name}
use ansible_roles.Kube.Boundary.{text-eq-ok}
use ansible_roles.Kube.Members.{Member, HostOptions, host_option, host_options, member_of}

-- What each member satisfies by itself.
pub record IsValid (m : Member) : Type 0 where
  pub node_name_dns : dns_name m.node_name ≡ true
  pub known_role : (m.role ≡ "control-plane") ⊎ (m.role ≡ "worker")
  pub known_cgroup : (m.options.cgroup_version ≡ "1") ⊎ (m.options.cgroup_version ≡ "2")
  pub known_backend : (m.options.iptables_backend ≡ "legacy") ⊎ (m.options.iptables_backend ≡ "nft")

host_option_known :
    (annotations : Dict) (annotation default first second : String) {v : String}
    → host_option annotations annotation default first second ≡ ok v
    → (v ≡ first) ⊎ (v ≡ second)
unfolding host_option
host_option_known annotations annotation default first second {v} h =
    ground (arith, string_eq.same_iff v first, string_eq.same_iff v second)

host_options_known :
    (annotations : Dict) {o : HostOptions}
    → host_options annotations ≡ ok o
    → ((o.cgroup_version ≡ "1") ⊎ (o.cgroup_version ≡ "2"))
      × ((o.iptables_backend ≡ "legacy") ⊎ (o.iptables_backend ≡ "nft"))
unfolding host_options
host_options_known annotations h =
    let (c, p, q) =
      bind-eq-ok (host_option annotations "homelab.io/kube-cgroup-version" "2" "1" "2") _ h in
    let (b, r, s) =
      bind-eq-ok (host_option annotations "homelab.io/kube-iptables-backend" "nft" "legacy" "nft") _
        q in
    ground (
      arith,
      host_option_known annotations "homelab.io/kube-cgroup-version" "2" "1" "2" p,
      host_option_known annotations "homelab.io/kube-iptables-backend" "nft" "legacy" "nft" r,
    )

-- A member and the Server that it was made of.
pub record Describes (m : Member) (node : Dict) : Type 0 where
  pub name : get node "name" ≡ str m.name
  pub uid : get node "uid" ≡ str m.uid

module _ (uid : String) (names : List String) (node labels : Dict) {m : Member}
    (h : member_of uid names node labels ≡ ok m) where
  pub member_of-fresh : (member m.node_name names ≡ false) × (dns_name m.node_name ≡ true)
  unfolding member_of
  member_of-fresh = ground arith

  member_of_role : (m.role ≡ "control-plane") ⊎ (m.role ≡ "worker")
  unfolding member_of
  member_of_role =
      ground (arith, string_eq.same_iff m.role "control-plane", string_eq.same_iff m.role "worker")

  member_of_options : (annotations : Dict) × (host_options annotations ≡ ok m.options)
  unfolding member_of
  member_of_options =
      let (annotations, p, q) =
        bind-eq-ok (mapping (get_or node "annotations" (obj end)) "Server annotations") _ h in
      (annotations, ground arith)

  pub member_of-IsValid : IsValid m
  member_of-IsValid =
      let (annotations, made) = member_of_options in
      let (cgroup, backend) = host_options_known annotations made in
      record {
        node_name_dns = member_of-fresh.1;
        known_role = member_of_role;
        known_cgroup = cgroup;
        known_backend = backend;
      }

  pub member_of-Describes : Describes m node
  unfolding member_of
  member_of-Describes = record {
    name = ground (arith, text-eq-ok (get node "name") "Server name" {s = m.name});
    uid = ground (arith, text-eq-ok (get node "uid") "Server UID" {s = m.uid});
  }

-- The node names of the members are new, and no two of them agree.
abbrev pub Distinct : Member → Member → Type 0
Distinct m n = m.node_name ≢ n.node_name

abbrev pub Fresh : List String → Member → Type 0
Fresh names m = member m.node_name names ≡ false

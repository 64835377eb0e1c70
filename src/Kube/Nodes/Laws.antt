-- ===== src/Kube/Nodes/Laws.antt =====
-- The loop of verify_nodes, run by run.
use ansible_roles.Prelude.{◌≡◌, String, true, false, List, any, member, some, arith, string_eq}
use ansible_roles.Result.{ok, bind-eq-ok}
use ansible_roles.Json.{Dict, get, lookup}
use ansible_roles.Ipv4.{Ipv4Network, overlaps, subnet_of}
use ansible_roles.Kube.{ipv4_network}
use ansible_roles.Kube.Nodes.{node_name, node_subnet, expected_member, validate_node, check_subnet}

-- What one round of the loop accepts.
pub record Checked : Type 0 where
  pub node : Dict
  pub name : String
  pub expected : Dict
  pub subnet : Ipv4Network

module _ (indexed : List (String × Dict)) (settings plan : Dict) where
  -- The Node is the one that the plan expects under its name.
  pub record IsExpected (c : Checked) : Type 0 where
    pub named : node_name c.node ≡ ok c.name
    pub known : lookup c.name indexed ≡ some c.expected
    pub valid : validate_node c.expected c.node settings plan ≡ ok tt
    pub placed : node_subnet c.node ≡ ok c.subnet

  pub expected_member-eq-ok :
      (seen : List String) (name : String) {m : Dict}
      → expected_member indexed seen name ≡ ok m
      → (lookup name indexed ≡ some m) × (member name seen ≡ false)
  unfolding expected_member
  expected_member-eq-ok seen name h = ground arith

pub check_subnet_fields :
    (node settings : Dict) (subnets : List Ipv4Network) {n : Ipv4Network}
    → check_subnet node settings subnets ≡ ok n
    → (node_subnet node ≡ ok n)
      × (any (overlaps n) subnets ≡ false)
      × ((pod : Ipv4Network) × (ipv4_network (get settings "podCIDR") "podCIDR" ≡ ok pod)
          × (subnet_of n pod ≡ true))
unfolding check_subnet
check_subnet_fields node settings subnets h =
    let (s, p, q) = bind-eq-ok (node_subnet node) _ h in
    let (pod, r, t) = bind-eq-ok (ipv4_network (get settings "podCIDR") "podCIDR") _ q in
    (ground arith, ground arith, (pod, r, ground arith))

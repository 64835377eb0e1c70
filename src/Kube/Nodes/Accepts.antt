-- ===== src/Kube/Nodes/Accepts.antt =====
-- The runs of the loop of verify_nodes that end well, and what they give of the Nodes together.
use ansible_roles.Prelude.{◌≡◌, ◌≢◌, String, true, false, List, [], ◌∷◌, any, member, ℕ, string_eq}
use ansible_roles.Result.{ok, bind-eq-ok}
use ansible_roles.Json.{Json, Dict, get}
use ansible_roles.Ipv4.{Ipv4Network, overlaps, subnet_of}
use ansible_roles.Ipv4.Laws.{InNetwork, subnet_of_sound}
use ansible_roles.Kube.{mapping, ipv4_network}
use ansible_roles.Kube.Boundary.{ipv4_network-IsAligned}
use ansible_roles.Kube.Nodes.{
  node_name, node_subnet, expected_member, validate_node, check_subnet, check_nodes,
}
use ansible_roles.Kube.Nodes.Laws.{Checked, IsExpected, expected_member-eq-ok, check_subnet_fields}

-- Every address of the subnet is an address of the cluster's pod network.
abbrev pub Inside : Dict → Ipv4Network → Type 0
Inside settings n =
    (pod : Ipv4Network) × (ipv4_network (get settings "podCIDR") "podCIDR" ≡ ok pod)
    × ((ip : ℕ) → InNetwork ip n → InNetwork ip pod)

-- Two Nodes have names of their own, and no address in common.
pub record ApartFrom (c d : Checked) : Type 0 where
  pub names : c.name ≢ d.name
  pub addresses : (ip : ℕ) → InNetwork ip c.subnet → ¬ InNetwork ip d.subnet

abbrev pub Unseen : List String → Checked → Type 0
Unseen seen c = member c.name seen ≡ false

abbrev pub Clear : List Ipv4Network → Checked → Type 0
Clear subnets c = any (overlaps c.subnet) subnets ≡ false

module _ (indexed : List (String × Dict)) (settings plan : Dict) where
  pub data Accepts : List String → List Ipv4Network → List Json → List Checked → Type 0 where
    done : {seen : List String} {subnets : List Ipv4Network} → Accepts seen subnets [] []
    next :
        {seen : List String} {subnets : List Ipv4Network} {raw : Json} {rest : List Json}
        {cs : List Checked} (c : Checked)
        → mapping raw "Node" ≡ ok c.node
        → IsExpected indexed settings plan c
        → Unseen seen c
        → Clear subnets c
        → Inside settings c.subnet
        → Accepts (c.name ∷ seen) (c.subnet ∷ subnets) rest cs
        → Accepts seen subnets (raw ∷ rest) (c ∷ cs)

  Inside-subnet :
      (node : Dict) (n : Ipv4Network)
      → node_subnet node ≡ ok n
      → ((pod : Ipv4Network) × (ipv4_network (get settings "podCIDR") "podCIDR" ≡ ok pod)
          × (subnet_of n pod ≡ true))
      → Inside settings n
  unfolding node_subnet
  Inside-subnet node n p (pod, q, within) =
      let (spec, r, s) = bind-eq-ok (mapping (get node "spec") "Node spec") _ p in
      (
        pod,
        q,
        λ ip.
            subnet_of_sound n pod ip (ipv4_network-IsAligned (get spec "podCIDR") "Node podCIDR" s)
              (ipv4_network-IsAligned (get settings "podCIDR") "podCIDR" q) within,
      )

  pub Accepts-check_nodes :
      (seen : List String) (subnets : List Ipv4Network) (raws : List Json)
      → check_nodes indexed settings plan seen subnets raws ≡ ok tt
      → (cs : List Checked) × Accepts seen subnets raws cs
  unfolding check_nodes
  Accepts-check_nodes seen subnets [] h = ([], done)
  Accepts-check_nodes seen subnets (raw ∷ rest) h =
      let (node, p, h1) = bind-eq-ok (mapping raw "Node") _ h in
      let (name, q, h2) = bind-eq-ok (node_name node) _ h1 in
      let (m, r, h3) = bind-eq-ok (expected_member indexed seen name) _ h2 in
      let (_, v, h4) = bind-eq-ok (validate_node m node settings plan) _ h3 in
      let (subnet, s, h5) = bind-eq-ok (check_subnet node settings subnets) _ h4 in
      let (cs, run) = Accepts-check_nodes (name ∷ seen) (subnet ∷ subnets) rest h5 in
      let (known, unseen) = expected_member-eq-ok indexed settings plan seen name r in
      let (placed, clear, within) = check_subnet_fields node settings subnets s in
      let c : Checked = record { node = node; name = name; expected = m; subnet = subnet } in
      (
        c ∷ cs,
        next c p (record { named = q; known = known; valid = v; placed = placed }) unseen clear
            (Inside-subnet node subnet placed within) run,
      )

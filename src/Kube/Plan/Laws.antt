-- ===== src/Kube/Plan/Laws.antt =====
-- What cluster_plan returns: room for every member, a control plane of its own, checked settings.
use ansible_roles.Prelude.{
  ◌-◌, ◌^◌, ◌≤◌, ◌≡◌, refl, subst, String, Bool, true, false, not, List, [], ◌∷◌, length, ltb-false,
  keep, if◌then◌else◌, In, inl, inr, arith,
}
use ansible_roles.Result.{Error, ok, err, bind-eq-ok, raise_if-eq-ok, ok_injective}
use ansible_roles.Json.{Json, Dict, get, index, eqb, str}
use ansible_roles.Ipv4.{Ipv4Network}
use ansible_roles.Kube.{mapping, text, ipv4_network}
use ansible_roles.Kube.Members.{Member, is_control_plane, selected_members}
use ansible_roles.Kube.Members.Selected.{IsSelection, selected_members-IsSelection}
use ansible_roles.Kube.Settings.{validated_settings}
use ansible_roles.Kube.Plan.{
  ClusterPlan, too_small, first_control_plane, api_endpoint, plan_of, cluster_plan,
}

-- Each member has a /24 block of the network.
abbrev pub HasRoom : Ipv4Network → List Member → Type 0
HasRoom network members = (network.prefixlen ≤ 24) × (length members ≤ 2 ^ (24 - network.prefixlen))

too_small_lem :
    (network : Ipv4Network) (members : List Member)
    → too_small network members ≡ false
    → HasRoom network members
unfolding too_small
too_small_lem network members h =
    (ground arith, ltb-false (2 ^ (24 - network.prefixlen)) (length members) (ground arith))

kept :
    (ms rest : List Member) (m : Member)
    → keep is_control_plane ms ≡ m ∷ rest
    → In m ms × (is_control_plane m ≡ true)
kept [] rest m h = cc
kept (n ∷ ms) rest m h = go (kept ms rest m) (is_control_plane n) refl h
  where
    go :
        (keep is_control_plane ms ≡ m ∷ rest → In m ms × (is_control_plane m ≡ true))
        → (b : Bool) → is_control_plane n ≡ b
        → (if b then n ∷ keep is_control_plane ms else keep is_control_plane ms) ≡ m ∷ rest
        → In m (n ∷ ms) × (is_control_plane m ≡ true)
    go later true e h = (
      inl (ground arith),
      subst (λ m. is_control_plane m ≡ true) {x = n} {y = m} (ground arith) e,
    )
    go later false e h = let (i, c) = later h in (inr i, c)

first_control_plane_lem :
    (ms : List Member) (m : Member)
    → first_control_plane ms ≡ ok m
    → In m ms × (is_control_plane m ≡ true)
unfolding first_control_plane
first_control_plane_lem ms m h = go (keep is_control_plane ms) refl h
  where
    go :
        (found : List Member)
        → keep is_control_plane ms ≡ found
        → elim found [ [] ↦ err Error.type_error | n ∷ _ ↦ ok n ] ≡ ok m
        → In m ms × (is_control_plane m ≡ true)
    go [] e h = cc
    go (n ∷ rest) e h =
        subst (λ m. In m ms × (is_control_plane m ≡ true)) {x = n} (ground arith) (kept ms rest n e)

-- The members, the Pod network and the control plane of a plan.
abbrev pub IsPlan : ClusterPlan → Type 0
IsPlan plan =
    IsSelection plan.members
    × ((cidr : Json) × (network : Ipv4Network) × (index plan.settings "podCIDR" ≡ ok cidr)
        × (ipv4_network cidr "podCIDR" ≡ ok network)
        × HasRoom network plan.members)
    × In plan.control_plane plan.members
    × (is_control_plane plan.control_plane ≡ true)

plan_of-IsPlan :
    (metadata : Dict) (nodes : Json) (name uid : String) (settings : Dict) (plan : ClusterPlan)
    → plan_of metadata nodes name uid settings ≡ ok plan
    → (settings ≡ plan.settings) × IsPlan plan
unfolding plan_of
plan_of-IsPlan metadata nodes name uid settings plan h =
    let (members, m, h7) = bind-eq-ok (selected_members nodes name uid) _ h in
    let (cidr, c, h8) = bind-eq-ok (index settings "podCIDR") _ h7 in
    let (network, n, h9) = bind-eq-ok (ipv4_network cidr "podCIDR") _ h8 in
    let (room, h10) = raise_if-eq-ok (too_small network members) _ _ h9 in
    let (endpoint, _, h11) = bind-eq-ok (api_endpoint metadata) _ h10 in
    let (control_plane, f, h12) = bind-eq-ok (first_control_plane members) _ h11 in
    let (among, is) = first_control_plane_lem members control_plane f in
    subst (λ plan. (settings ≡ plan.settings) × IsPlan plan) (ok_injective h12)
      (
        refl,
        (
          selected_members-IsSelection nodes name uid m,
          (cidr, network, c, n, too_small_lem network members room),
          among,
          is,
        ),
      )

-- If cluster_plan returns, its settings are validated_settings' of the target's spec, its members
-- are a valid selection, the Pod network has a /24 block for each of them, and its control plane is
-- a member with the control-plane role.
pub cluster_plan-IsPlan :
    (raw_target nodes : Json) (plan : ClusterPlan)
    → cluster_plan raw_target nodes ≡ ok plan
    → ((target : Dict) × (mapping raw_target "configuration_target" ≡ ok target)
        × (validated_settings (get target "spec") ≡ ok plan.settings))
      × IsPlan plan
unfolding cluster_plan
cluster_plan-IsPlan raw_target nodes plan h =
    let (target, t, h1) = bind-eq-ok (mapping raw_target "configuration_target") _ h in
    let (_, h2) = raise_if-eq-ok (not (eqb (get target "kind") (str "KubeCluster"))) _ _ h1 in
    let (metadata, _, h3) = bind-eq-ok (mapping (get target "metadata") "cluster metadata") _ h2 in
    let (name, _, h4) = bind-eq-ok (text (get metadata "name") "cluster name") _ h3 in
    let (uid, _, h5) = bind-eq-ok (text (get metadata "uid") "cluster UID") _ h4 in
    let (settings, s, h6) = bind-eq-ok (validated_settings (get target "spec")) _ h5 in
    let (same, is) = plan_of-IsPlan metadata nodes name uid settings plan h6 in
    ((target, t, subst (λ d. validated_settings (get target "spec") ≡ ok d) same s), is)

-- ===== src/Kube/Members/Selected.antt =====
-- selected_members as a whole: one control plane, valid members with names of their own, and exactly
-- the labelled Servers.
use ansible_roles.Prelude.{
  ◌≡◌, sym, subst, ◌∙◌, String, nat_eq, List, [], length, keep, All, Apart, In, arith,
}
use ansible_roles.Result.{ok, bind-eq-ok}
use ansible_roles.Json.{Json, Dict}
use ansible_roles.Kube.{require_list}
use ansible_roles.Kube.Members.{Member, collect, is_control_plane, sort_members, selected_members}
use ansible_roles.Kube.Members.Laws.{IsValid, Describes, Distinct}
use ansible_roles.Kube.Members.Collects.{
  Collects, Collects-collect, Collects-Apart, BelongsTo, Collects-complete, Collects-sound,
}
use ansible_roles.Kube.Members.Sort.{
  In-sort_members, In-of_sort_members, All-sort_members, Apart-sort_members, count-sort_members,
}

pub record IsSelection (members : List Member) : Type 0 where
  pub one_control_plane : length (keep is_control_plane members) ≡ 1
  pub distinct_names : Apart Distinct members
  pub valid : All IsValid members

module _ (nodes : Json) (cluster uid : String) {ms : List Member}
    (h : selected_members nodes cluster uid ≡ ok ms) where
  selected_run :
      (raw : List Json) × (found : List Member) × (require_list nodes
          "configuration_nodes must be an array"
        ≡ ok raw)
      × Collects cluster uid [] raw found
      × (length (keep is_control_plane found) ≡ 1)
      × (ms ≡ sort_members found)
  unfolding selected_members
  selected_run =
      let (raw, p, q) =
        bind-eq-ok (require_list nodes "configuration_nodes must be an array") _ h in
      let (found, r, s) = bind-eq-ok (collect cluster uid raw []) _ q in
      (raw, found, p, Collects-collect cluster uid raw [] found r, ground arith, ground arith)

  -- A selection that succeeds has exactly one control-plane member; no two members share a node
  -- name; each node name is a DNS name, each role control-plane or worker, and each host option
  -- one of its two allowed values.
  pub selected_members-IsSelection : IsSelection ms
  selected_members-IsSelection =
      let (raw, found, p, run, one, e) = selected_run in
      let (_, apart, valid) = Collects-Apart run in
      rw e (record {
        one_control_plane = count-sort_members is_control_plane found ∙ one;
        distinct_names = Apart-sort_members Distinct (λ m n d e. d (sym e)) found apart;
        valid = All-sort_members IsValid found valid;
      })

  -- A captured Server that carries the cluster's label is a member under its own name and UID, and
  -- each member is such a Server.
  pub selected_members-BelongsTo :
      (raw : List Json)
      → require_list nodes "configuration_nodes must be an array" ≡ ok raw
      → ((v : Json) (node : Dict)
          → In v raw
          → BelongsTo cluster v node
          → (m : Member) × In m ms × Describes m node)
        × ((m : Member)
            → In m ms
            → (v : Json) × (node : Dict) × In v raw × BelongsTo cluster v node × Describes m node)
  selected_members-BelongsTo raw given =
      let (raw', found, p, run, one, e) = selected_run in
      let same : raw' ≡ raw = cc (p, given) in
      (
        λ v node at s.
            let (m, i, d) = Collects-complete run v node (subst (In v) (sym same) at) s in
            (m, subst (In m) (sym e) (In-sort_members m found i), d),
        λ m i.
            let (v, node, at, s, d) =
              Collects-sound run m (In-of_sort_members m found (subst (In m) e i)) in
            (v, node, subst (In v) same at, s, d),
      )

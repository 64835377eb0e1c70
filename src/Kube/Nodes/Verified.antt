-- ===== src/Kube/Nodes/Verified.antt =====
-- verify_nodes as a whole: the Nodes are the members of the plan, one for one, on subnets of their own.
use ansible_roles.Prelude.{
  ◌≡◌, subst, refl, sym, ap, ◌≢◌, inl, inr, String, false, not, List, [], ◌∷◌, suc, ◌≤◌, some,
  length, All, All-map, Apart, In, arith, ◌==◌, nat_eq, string_eq, Bool-cases, pigeonhole,
}
use ansible_roles.Result.{◌>>=◌, Result, ok, value_error, bind-eq-ok, raise_if-eq-ok}
use ansible_roles.Json.{Json, Dict, get, lookup, keys}
use ansible_roles.Ipv4.{Ipv4Network, overlaps}
use ansible_roles.Ipv4.Laws.{IsAligned, overlaps_sound}
use ansible_roles.Kube.{mapping, require_list}
use ansible_roles.Kube.Boundary.{ipv4_network-IsAligned}
use ansible_roles.Kube.Nodes.{index_members, node_subnet, check_nodes, verify_nodes}
use ansible_roles.Kube.Nodes.Laws.{Checked, IsExpected}
use ansible_roles.Kube.Nodes.Accepts.{
  Accepts, done, next, ApartFrom, Inside, Unseen, Clear, Accepts-check_nodes,
}

Unseen-cons :
    (n : String) (seen : List String) (c : Checked)
    → Unseen (n ∷ seen) c
    → (n ≢ c.name) × Unseen seen c
Unseen-cons n seen c h = (λ e. ground (arith, string_eq.same_iff c.name n), ground arith)

Clear-cons :
    (n : Ipv4Network) (subnets : List Ipv4Network) (c : Checked)
    → Clear (n ∷ subnets) c
    → (overlaps c.subnet n ≡ false) × Clear subnets c
Clear-cons n subnets c h = ground arith

node_subnet-IsAligned : (node : Dict) {n : Ipv4Network} → node_subnet node ≡ ok n → IsAligned n
unfolding node_subnet
node_subnet-IsAligned node h =
    let (spec, p, q) = bind-eq-ok (mapping (get node "spec") "Node spec") _ h in
    ipv4_network-IsAligned (get spec "podCIDR") "Node podCIDR" q

module _ (indexed : List (String × Dict)) (settings plan : Dict) where
  abbrev pub Expected : Checked → Type 0
  Expected = IsExpected indexed settings plan

  separate :
      (c : Checked) (seen : List String) (subnets : List Ipv4Network) (cs : List Checked)
      → Expected c
      → All Expected cs
      → All (Unseen (c.name ∷ seen)) cs
      → All (Clear (c.subnet ∷ subnets)) cs
      → All (ApartFrom c) cs
  separate c seen subnets [] e es u k = tt
  separate c seen subnets (d ∷ ds) e (f, es) (u, us) (k, ks) = (
    record {
      names = (Unseen-cons c.name seen d u).0;
      addresses = λ ip i j.
          overlaps_sound d.subnet c.subnet ip (node_subnet-IsAligned d.node f.placed)
            (node_subnet-IsAligned c.node e.placed) (Clear-cons c.subnet subnets d k).0 j i;
    },
    separate c seen subnets ds e es us ks,
  )

  pub record Facts (seen : List String) (subnets : List Ipv4Network) (cs : List Checked)
      : Type 0 where
    pub unseen : All (Unseen seen) cs
    pub clear : All (Clear subnets) cs
    pub apart : Apart ApartFrom cs
    pub expected : All Expected cs
    pub inside : All (λ c. Inside settings c.subnet) cs

  Accepts-Facts :
      {seen : List String} {subnets : List Ipv4Network} {raws : List Json} {cs : List Checked}
      → Accepts indexed settings plan seen subnets raws cs
      → Facts seen subnets cs
  Accepts-Facts done = record { unseen = tt; clear = tt; apart = tt; expected = tt; inside = tt }
  Accepts-Facts {seen = seen} {subnets = subnets} (next {cs = cs} c p e u k i run) =
      let f = Accepts-Facts run in
      record {
        unseen = (
          u,
          All-map (Unseen (c.name ∷ seen)) (Unseen seen) (λ d h. (Unseen-cons c.name seen d h).1) cs
              f.unseen,
        );
        clear = (
          k,
          All-map (Clear (c.subnet ∷ subnets)) (Clear subnets)
              (λ d h. (Clear-cons c.subnet subnets d h).1) cs f.clear,
        );
        apart = (separate c seen subnets cs e f.expected f.unseen f.clear, f.apart);
        expected = (e, f.expected);
        inside = (i, f.inside);
      }

  length-Accepts :
      {seen : List String} {subnets : List Ipv4Network} {raws : List Json} {cs : List Checked}
      → Accepts indexed settings plan seen subnets raws cs
      → length cs ≡ length raws
  length-Accepts done = refl
  length-Accepts (next c p e u k i run) = ap suc (length-Accepts run)

names_of : List Checked → List String
names_of [] = []
names_of (c ∷ cs) = c.name ∷ names_of cs

keys_of_lookup :
    (name : String) (indexed : List (String × Dict)) {m : Dict}
    → lookup name indexed ≡ some m
    → In name (keys indexed)
keys_of_lookup name [] h = cc
keys_of_lookup name ((k, v) ∷ d) h = elim (Bool-cases (name == k)) [
  | inl e ↦ inl ((string_eq.same_iff name k).0 e)
  | inr e ↦ inr (keys_of_lookup name d (rw e at h))
]

length-keys : (indexed : List (String × Dict)) → length (keys indexed) ≡ length indexed
length-keys [] = refl
length-keys (entry ∷ d) = ap suc (length-keys d)

In-names_of :
    (name : String) (cs : List Checked)
    → In name (names_of cs)
    → (c : Checked) × In c cs × (c.name ≡ name)
unfolding names_of
In-names_of name [] i = absurd i
In-names_of name (c ∷ cs) (inl e) = (c, inl refl, sym e)
In-names_of name (c ∷ cs) (inr i) = let (d, at, e) = In-names_of name cs i in (d, inr at, e)

length-names_of : (cs : List Checked) → length (names_of cs) ≡ length cs
unfolding names_of
length-names_of [] = refl
length-names_of (c ∷ cs) = ap suc (length-names_of cs)

names-Apart : (cs : List Checked) → Apart ApartFrom cs → Apart ◌≢◌ (names_of cs)
unfolding names_of
names-Apart [] a = tt
names-Apart (c ∷ cs) (h, a) = (go cs h, names-Apart cs a)
  where
    go : (ds : List Checked) → All (ApartFrom c) ds → All (◌≢◌ c.name) (names_of ds)
    go [] k = tt
    go (d ∷ ds) (k, ks) = (k.names, go ds ks)

names_known :
    (indexed : List (String × Dict)) (settings plan : Dict) (cs : List Checked)
    → All (Expected indexed settings plan) cs
    → (name : String) → In name (names_of cs)
    → In name (keys indexed)
unfolding names_of
names_known indexed settings plan [] h name i = absurd i
names_known indexed settings plan (c ∷ cs) (h, hs) name (inl e) =
    subst (λ (k : String). In k (keys indexed)) (sym e) (keys_of_lookup c.name indexed h.known)
names_known indexed settings plan (c ∷ cs) (h, hs) name (inr i) =
    names_known indexed settings plan cs hs name i

-- What verify_nodes establishes of a plan and the list of the Nodes.
pub record IsVerified (plan : Dict) (members nodes : List Json) : Type 0 where
  pub settings : Dict
  pub indexed : List (String × Dict)
  pub read : mapping (get plan "settings") "settings" ≡ ok settings
  pub by_name : index_members members [] ≡ ok indexed
  pub checked : List Checked
  pub run : Accepts indexed settings plan [] [] nodes checked
  pub expected : All (Expected indexed settings plan) checked
  pub apart : Apart ApartFrom checked
  pub inside : All (λ c. Inside settings c.subnet) checked
  pub complete :
      (name : String) → In name (keys indexed) → (c : Checked) × In c checked × (c.name ≡ name)

abbrev pub members_message : String
members_message = "Expected members and actual Nodes must be arrays"

-- The Nodes of a response: its `items`.
pub response_nodes : Json → Result (List Json)
response_nodes raw_response = do
  response ← mapping raw_response "Kubernetes Node response"
  require_list (get response "items") members_message

-- If verify_nodes accepts a response, then each Node carries the name of a member, passed
-- validate_node against that member, and has a pod subnet inside the pod network; no two Nodes share
-- a name or a pod address; and every member of the plan is one of the Nodes.
pub verify_nodes-IsVerified :
    (raw_plan raw_response : Json) {plan : Dict}
    → verify_nodes raw_plan raw_response ≡ ok plan
    → (members : List Json) × (nodes : List Json) × (mapping raw_plan "cluster plan" ≡ ok plan)
      × (require_list (get plan "members") members_message ≡ ok members)
      × (response_nodes raw_response ≡ ok nodes)
      × IsVerified plan members nodes
unfolding verify_nodes response_nodes
verify_nodes-IsVerified raw_plan raw_response h =
    let (plan, p, h1) = bind-eq-ok (mapping raw_plan "cluster plan") _ h in
    let (settings, q, h2) = bind-eq-ok (mapping (get plan "settings") "settings") _ h1 in
    let (response, r, h3) = bind-eq-ok (mapping raw_response "Kubernetes Node response") _ h2 in
    let (members, s, h4) = bind-eq-ok (require_list (get plan "members") members_message) _ h3 in
    let (nodes, t, h5) = bind-eq-ok (require_list (get response "items") members_message) _ h4 in
    let (indexed, u, h6) = bind-eq-ok (index_members members []) _ h5 in
    let (same, h7) =
      raise_if-eq-ok (not (length nodes == length indexed))
        (value_error "Actual Kubernetes Node membership differs from the selected Servers") _ h6 in
    let (_, v, h8) = bind-eq-ok (check_nodes indexed settings plan [] [] nodes) _ h7 in
    let (cs, run) = Accepts-check_nodes indexed settings plan [] [] nodes v in
    let f = Accepts-Facts indexed settings plan run in
    let agree : length nodes ≡ length indexed = ground arith in
    let short : length (keys indexed) ≤ length (names_of cs) = omega (
      arith,
      agree,
      length-keys indexed,
      length-names_of cs,
      length-Accepts indexed settings plan run,
    ) in
    (
      members,
      nodes,
      ground arith,
      ground arith,
      ground arith,
      subst (λ (d : Dict). IsVerified d members nodes) (cc)
          (record {
            settings = settings;
            indexed = indexed;
            read = q;
            by_name = u;
            checked = cs;
            run = run;
            expected = f.expected;
            apart = f.apart;
            inside = f.inside;
            complete = λ name i. In-names_of name cs (
                pigeonhole (names_of cs) (keys indexed) (names-Apart cs f.apart)
                  (names_known indexed settings plan cs f.expected) short name i);
          }),
    )

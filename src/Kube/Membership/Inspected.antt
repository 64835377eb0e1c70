-- ===== src/Kube/Membership/Inspected.antt =====
-- What the loop of membership_observation finds out of each member that has a Node.
use ansible_roles.Prelude.{
  ◌≡◌, refl, subst, sym, ap, ◌∙◌, ◌<>◌, ◌⊎◌, inl, inr, String, Bool, true, false, not, ◌&&◌, ◌||◌,
  List, [], ◌∷◌, some, In, any, if◌then◌else◌, arith, and_split, Bool-cases,
}
use ansible_roles.Result.{ok, any_result, bind-eq-ok, ok_injective}
use ansible_roles.Json.{Json, str, obj, end, arr, nil, Dict, get, get_or, lookup, eqb}
use ansible_roles.Json.Laws.{eqb-str, eqb-str_self}
use ansible_roles.Kube.{mapping, text, require_list}
use ansible_roles.Kube.Boundary.{text-eq-ok}
use ansible_roles.Kube.Nodes.{is_ready}
use ansible_roles.Kube.Registration.{desired_labels}
use ansible_roles.Kube.Membership.{
  entry_of, has_conflict, ready_status, inspect_member, inspect_members,
}

-- A condition of the type Ready and the status True.
abbrev pub IsReady : Json → Type 0
IsReady raw =
    (condition : Dict) × (mapping raw "condition" ≡ ok condition)
    × (get condition "type" ≡ str "Ready")
    × (get condition "status" ≡ str "True")

-- Some condition of the list is so.
abbrev pub SomeReady : List Json → Type 0
SomeReady conditions = (raw : Json) × In raw conditions × IsReady raw

-- The labels have the three values.
abbrev pub HasLabels : Dict → String → String → String → Type 0
HasLabels labels server cluster role =
    (get labels "homelab.io/server-uid" ≡ str server)
    × (get labels "homelab.io/kube-cluster-uid" ≡ str cluster)
    × (get labels ("node-role.kubernetes.io/" <> role) ≡ str "")

-- The labels of a member's Node, and those that the member and the plan ask for.
abbrev pub LabelsOf : Json → Dict → Dict → Dict → String → String → String → Type 0
LabelsOf raw_plan m node labels server cluster role =
    (plan metadata : Dict) × (mapping raw_plan "cluster plan" ≡ ok plan)
    × (mapping (get node "metadata") "Node metadata" ≡ ok metadata)
    × (mapping (get_or metadata "labels" (obj end)) "Node labels" ≡ ok labels)
    × (get m "uid" ≡ str server)
    × (get plan "uid" ≡ str cluster)
    × (get m "role" ≡ str role)

abbrev pub ConditionsOf : Dict → List Json → Type 0
ConditionsOf node conditions =
    (status : Dict) × (mapping (get_or node "status" (obj end)) "Node status" ≡ ok status)
    × (require_list (get_or status "conditions" (arr nil)) "Node conditions must be an array"
        ≡ ok conditions)

-- A name is in the list exactly where the fact fails.
abbrev pub ListedUnless : String → List String → Type 0 → Type 0
ListedUnless t names fact = (In t names × ¬ fact) ⊎ (¬ In t names × fact)

-- The member and the Node of the name, and in which of the two lists it is.
abbrev pub IsInspected :
    Json → List (String × Dict) → List (String × Dict) → List String → List String → String → Type 0
IsInspected raw_plan expected actual conflicts not_ready t =
    (m node labels : Dict) × (server cluster role : String) × (conditions : List Json) × (lookup t
        expected
      ≡ some m)
    × (lookup t actual ≡ some node)
    × LabelsOf raw_plan m node labels server cluster role
    × ConditionsOf node conditions
    × ListedUnless t conflicts (HasLabels labels server cluster role)
    × ListedUnless t not_ready (SomeReady conditions)

is_ready-true : (raw : Json) → is_ready raw ≡ ok true → IsReady raw
unfolding is_ready
is_ready-true raw h =
    let (condition, m, h1) = bind-eq-ok (mapping raw "condition") _ h in
    let (kind, status) = and_split (eqb (get condition "type") (str "Ready")) _ (ok_injective h1) in
    (condition, m, eqb-str _ _ kind, eqb-str _ _ status)

is_ready-false : (raw : Json) → is_ready raw ≡ ok false → ¬ IsReady raw
unfolding is_ready
is_ready-false raw h (condition, m, kind, status) =
    let (condition', m', h1) = bind-eq-ok (mapping raw "condition") _ h in
    let same : condition' ≡ condition = ok_injective (sym m' ∙ m) in
    let refused =
      subst
        (λ (d : Dict).
          (eqb (get d "type") (str "Ready") && eqb (get d "status") (str "True")) ≡ false)
        same (ok_injective h1) in
    both kind status (eqb-str_self "Ready") (eqb-str_self "True") refused
  where
    both :
        {k s : Json}
        → k ≡ str "Ready"
        → s ≡ str "True"
        → eqb (str "Ready") (str "Ready") ≡ true
        → eqb (str "True") (str "True") ≡ true
        → (eqb k (str "Ready") && eqb s (str "True")) ≡ false
        → ⊥
    both k s p q h = cc

any-ready :
    (conditions : List Json) (b : Bool)
    → any_result is_ready conditions ≡ ok b
    → (SomeReady conditions × (b ≡ true)) ⊎ (¬ SomeReady conditions × (b ≡ false))
any-ready [] b h = inr (λ (raw, i, r). absurd i, sym (ok_injective h))
any-ready (raw ∷ rest) b h =
    let (hit, r, h1) = bind-eq-ok (is_ready raw) _ h in
    elim (Bool-cases hit) [
      | inl p ↦ inl (
        (raw, inl refl, is_ready-true raw (subst (λ hit. is_ready raw ≡ ok hit) p r)),
        found hit p h1,
      )
      | inr p ↦ elim (any-ready rest b (searched hit p h1)) [
        | inl ((some_raw, i, s), e) ↦ inl ((some_raw, inr i, s), e)
        | inr (others, e) ↦
            inr (later (is_ready-false raw (subst (λ hit. is_ready raw ≡ ok hit) p r)) others, e)
      ]
    ]
  where
    found :
        (hit : Bool)
        → hit ≡ true
        → elim hit [ true ↦ ok true | false ↦ any_result is_ready rest ] ≡ ok b
        → b ≡ true
    found true p e = sym (ok_injective e)
    found false p e = cc

    searched :
        (hit : Bool)
        → hit ≡ false
        → elim hit [ true ↦ ok true | false ↦ any_result is_ready rest ] ≡ ok b
        → any_result is_ready rest ≡ ok b
    searched true p e = cc
    searched false p e = e

    later : ¬ IsReady raw → ¬ SomeReady rest → ¬ SomeReady (raw ∷ rest)
    later first others (which, inl q, r) = first (subst IsReady q r)
    later first others (which, inr i, r) = others (which, i, r)

desired_labels_lem :
    (plan m : Dict) (desired : List (String × String))
    → desired_labels plan m ≡ ok desired
    → (server cluster role : String) × (get m "uid" ≡ str server)
      × (get plan "uid" ≡ str cluster)
      × (get m "role" ≡ str role)
      × (desired
          ≡ ("homelab.io/server-uid", server)
            ∷ ("homelab.io/kube-cluster-uid", cluster)
            ∷ ("node-role.kubernetes.io/" <> role, "")
            ∷ [])
unfolding desired_labels
desired_labels_lem plan m desired h =
    let (server, s, h1) = bind-eq-ok (text (get m "uid") "Server UID") _ h in
    let (cluster, c, h2) = bind-eq-ok (text (get plan "uid") "cluster UID") _ h1 in
    let (role, r, h3) = bind-eq-ok (text (get m "role") "Node role") _ h2 in
    (
      server,
      cluster,
      role,
      text-eq-ok _ _ s,
      text-eq-ok _ _ c,
      text-eq-ok _ _ r,
      sym (ok_injective h3),
    )

-- What the comparison of the three labels says.
compared :
    (labels : Dict) (server cluster role : String) (b : Bool)
    → any
        (λ (key, value). not (eqb (get labels key) (str value)))
        (("homelab.io/server-uid", server)
          ∷ ("homelab.io/kube-cluster-uid", cluster)
          ∷ ("node-role.kubernetes.io/" <> role, "")
          ∷ [])
      ≡ b
    → (HasLabels labels server cluster role × (b ≡ false))
      ⊎ (¬ HasLabels labels server cluster role × (b ≡ true))
compared labels server cluster role b h =
    go (get labels "homelab.io/server-uid") (get labels "homelab.io/kube-cluster-uid")
      (get labels ("node-role.kubernetes.io/" <> role)) h
  where
    equal : {v : Json} {s : String} → v ≡ str s → eqb v (str s) ≡ true
    equal {v} {s} e = subst (λ v. eqb v (str s) ≡ true) (sym e) (eqb-str_self s)

    go :
        (u v w : Json)
        → (not (eqb u (str server))
            || (not (eqb v (str cluster)) || (not (eqb w (str "")) || false)))
          ≡ b
        → (((u ≡ str server) × (v ≡ str cluster) × (w ≡ str "")) × (b ≡ false))
          ⊎ (¬ ((u ≡ str server) × (v ≡ str cluster) × (w ≡ str "")) × (b ≡ true))
    go u v w h = elim (Bool-cases b) [
      | inl p ↦ inr (λ (a, c, d). differs (equal a) (equal c) (equal d) h p, p)
      | inr p ↦ inl (
        (
          eqb-str u server (ground arith),
          eqb-str v cluster (ground arith),
          eqb-str w "" (ground arith),
        ),
        p,
      )
    ]
      where
        differs :
            {x y z : Bool}
            → x ≡ true
            → y ≡ true
            → z ≡ true
            → (not x || (not y || (not z || false))) ≡ b
            → b ≡ true
            → ⊥
        differs p q r h t = ground arith

module _ (raw_plan : Json) (expected actual : List (String × Dict)) where
  abbrev Found : String → Bool × Bool → Type 0
  Found t found = inspect_member raw_plan expected actual t ≡ ok found

  abbrev Conflict : String → Type 0
  Conflict t = (ready : Bool) × Found t (true, ready)

  abbrev Unready : String → Type 0
  Unready t = (conflict : Bool) × Found t (conflict, false)

  -- What the walk over `names` has found of a name and has put into its two lists.
  abbrev pub Walked : List String → List String → List String → String → Type 0
  Walked names conflicts not_ready t =
      (In t names → (found : Bool × Bool) × Found t found)
      × (In t conflicts → In t names × Conflict t)
      × (In t not_ready → In t names × Unready t)
      × (In t names → Conflict t → In t conflicts)
      × (In t names → Unready t → In t not_ready)

  listed :
      (P : String → Type 0) (b : Bool) (name t : String) (names xs : List String)
      → (b ≡ true → P name)
      → (In t xs → In t names × P t)
      → In t (if b then name ∷ xs else xs)
      → In t (name ∷ names) × P t
  listed P true name t names xs f rest (inl q) = (inl q, subst P (sym q) (f refl))
  listed P true name t names xs f rest (inr i) = let (m, p) = rest i in (inr m, p)
  listed P false name t names xs f rest i = let (m, p) = rest i in (inr m, p)

  lists :
      (P : String → Type 0) (b : Bool) (name t : String) (names xs : List String)
      → (b ≡ false → P name → ⊥)
      → (In t names → P t → In t xs)
      → In t (name ∷ names)
      → P t
      → In t (if b then name ∷ xs else xs)
  lists P true name t names xs f rest (inl q) p = inl q
  lists P true name t names xs f rest (inr m) p = inr (rest m p)
  lists P false name t names xs f rest (inl q) p = absurd (f refl (subst P q p))
  lists P false name t names xs f rest (inr m) p = rest m p

  flip : (b : Bool) (x y : List String) → (if not b then x else y) ≡ (if b then y else x)
  flip true x y = refl
  flip false x y = refl

  Walked-step :
      (name t : String) (names xs ys : List String) (c r : Bool)
      → Found name (c, r)
      → Walked names xs ys t
      → Walked (name ∷ names) (if c then name ∷ xs else xs) (if r then ys else name ∷ ys) t
  Walked-step name t names xs ys c r f (all_found, in_c, in_r, to_c, to_r) = (
    λ m. elim m [ inl q ↦ ((c, r), subst (λ n. Found n (c, r)) (sym q) f) | inr i ↦ all_found i ],
    listed Conflict c name t names xs (λ e. (r, subst (λ (b : Bool). Found name (b, r)) e f)) in_c,
    λ m.
        listed Unready (not r) name t names ys
          (λ e. (c, subst (λ (b : Bool). Found name (c, b)) (not_true r e) f)) in_r
          (subst (In t) (sym (flip r (name ∷ ys) ys)) m),
    lists Conflict c name t names xs
        (λ e (b, g). apart e (ap (λ (p : Bool × Bool). p.0) (ok_injective (sym f ∙ g)))) to_c,
    λ m u. subst (In t) (flip r (name ∷ ys) ys) (
        lists Unready (not r) name t names ys
          (λ e (b, g). apart_not e (ap (λ (p : Bool × Bool). p.1) (ok_injective (sym f ∙ g)))) to_r
          m u),
  )
    where
      not_true : (b : Bool) → not b ≡ true → b ≡ false
      not_true b e = ground arith

      apart : c ≡ false → c ≡ true → ⊥
      apart p q = cc

      apart_not : not r ≡ false → r ≡ false → ⊥
      apart_not p q = ground arith

  pub inspect_members-Walked :
      (names conflicts not_ready : List String)
      → inspect_members raw_plan expected actual names ≡ ok (conflicts, not_ready)
      → (t : String) → Walked names conflicts not_ready t
  unfolding inspect_members
  inspect_members-Walked [] conflicts not_ready h t =
      subst (λ (p : List String × List String). Walked [] p.0 p.1 t) (ok_injective h)
        (λ m. absurd m, λ m. absurd m, λ m. absurd m, λ m p. absurd m, λ m p. absurd m)
  inspect_members-Walked (name ∷ names) conflicts not_ready h t =
      let (found, f, h1) = bind-eq-ok (inspect_member raw_plan expected actual name) _ h in
      let (rest, r, h2) = bind-eq-ok (inspect_members raw_plan expected actual names) _ h1 in
      subst (λ (p : List String × List String). Walked (name ∷ names) p.0 p.1 t) (ok_injective h2)
        (Walked-step name t names rest.0 rest.1 found.0 found.1 f
          (inspect_members-Walked names rest.0 rest.1 r t))

  conflict_listed :
      (t : String) (names conflicts : List String) (c r : Bool) (fact : Type 0)
      → Found t (c, r)
      → In t names
      → (In t conflicts → In t names × Conflict t)
      → (In t names → Conflict t → In t conflicts)
      → (fact × (c ≡ false)) ⊎ (¬ fact × (c ≡ true))
      → ListedUnless t conflicts fact
  conflict_listed t names conflicts c r fact f m within puts (inr (lacks, e)) =
      inl (puts m (r, subst (λ (b : Bool). Found t (b, r)) e f), lacks)
  conflict_listed t names conflicts c r fact f m within puts (inl (has_it, e)) =
      inr (λ i. other (within i).1, has_it)
    where
      other : Conflict t → ⊥
      other (b, g) =
          let q : true ≡ c = ap (λ (p : Bool × Bool). p.0) (ok_injective (sym g ∙ f)) in
          ground arith

  unready_listed :
      (t : String) (names not_ready : List String) (c r : Bool) (fact : Type 0)
      → Found t (c, r)
      → In t names
      → (In t not_ready → In t names × Unready t)
      → (In t names → Unready t → In t not_ready)
      → (fact × (r ≡ true)) ⊎ (¬ fact × (r ≡ false))
      → ListedUnless t not_ready fact
  unready_listed t names not_ready c r fact f m within puts (inr (lacks, e)) =
      inl (puts m (c, subst (λ (b : Bool). Found t (c, b)) e f), lacks)
  unready_listed t names not_ready c r fact f m within puts (inl (has_it, e)) =
      inr (λ i. other (within i).1, has_it)
    where
      other : Unready t → ⊥
      other (b, g) =
          let q : false ≡ r = ap (λ (p : Bool × Bool). p.1) (ok_injective (sym g ∙ f)) in
          ground arith

  pub Walked-IsInspected :
      (names conflicts not_ready : List String) (t : String)
      → Walked names conflicts not_ready t
      → In t names
      → IsInspected raw_plan expected actual conflicts not_ready t
  unfolding inspect_member entry_of has_conflict ready_status
  Walked-IsInspected names conflicts not_ready t (all_found, in_c, in_r, to_c, to_r) m =
      let (found, f) = all_found m in
      let (node, n, h1) = bind-eq-ok (entry_of actual t) _ f in
      let (metadata, md, h2) = bind-eq-ok (mapping (get node "metadata") "Node metadata") _ h1 in
      let (labels, l, h3) =
        bind-eq-ok (mapping (get_or metadata "labels" (obj end)) "Node labels") _ h2 in
      let (plan, p, h4) = bind-eq-ok (mapping raw_plan "cluster plan") _ h3 in
      let (member, e, h5) = bind-eq-ok (entry_of expected t) _ h4 in
      let (conflict, c, h6) = bind-eq-ok (has_conflict labels plan member) _ h5 in
      let (ready, r, h7) = bind-eq-ok (ready_status node) _ h6 in
      let (desired, d, c1) = bind-eq-ok (desired_labels plan member) _ c in
      let (server, cluster, role, su, cu, ro, same) = desired_labels_lem plan member desired d in
      let (status, st, r1) =
        bind-eq-ok (mapping (get_or node "status" (obj end)) "Node status") _ r in
      let (conditions, cs, r2) =
        bind-eq-ok
          (require_list (get_or status "conditions" (arr nil)) "Node conditions must be an array") _
          r1 in
      let is : found ≡ (conflict, ready) = sym (ok_injective h7) in
      let known : Found t (conflict, ready) = subst (Found t) is f in
      let wants =
        compared labels server cluster role conflict
          (subst (Compares labels conflict) same (ok_injective c1)) in
      (
        member,
        node,
        labels,
        server,
        cluster,
        role,
        conditions,
        the_entry expected member e,
        the_entry actual node n,
        (plan, metadata, p, md, l, su, cu, ro),
        (status, st, cs),
        conflict_listed t names conflicts conflict ready _ known m in_c to_c wants,
        unready_listed t names not_ready conflict ready _ known m in_r to_r
            (any-ready conditions ready r2),
      )
    where
      Compares : Dict → Bool → List (String × String) → Type 0
      Compares labels b desired =
          any (λ (key, value). not (eqb (get labels key) (str value))) desired ≡ b

      the_entry :
          (indexed : List (String × Dict)) (d : Dict)
          → entry_of indexed t ≡ ok d
          → lookup t indexed ≡ some d
      the_entry indexed d e = ground arith

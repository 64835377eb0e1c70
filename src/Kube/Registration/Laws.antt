-- ===== src/Kube/Registration/Laws.antt =====
-- registration_action: whose Node it changes, and what its patch is conditional on.
use ansible_roles.Prelude.{
  ◌≡◌, refl, subst, ap, String, Bool, true, false, not, ◌||◌, Option, none, some, List, [], ◌∷◌,
  ◌++◌, map, All, arith, inl, inr, ◌⊎◌, Bool-cases,
}
use ansible_roles.Result.{Error, Result, ok, err, ◌>>=◌, raise_if, bind-eq-ok, raise_if-eq-ok}
use ansible_roles.Json.{
  Json, null, str, obj, end, arr, nil, Dict, object, array, get, get_or, has, index, lookup, eqb,
  truthy,
}
use ansible_roles.Json.Laws.{eqb-str}
use ansible_roles.Kube.{mapping, text, require_list}
use ansible_roles.Kube.Registration.{
  PatchOp, test, add, desired_labels, guard_ops, label_op, drop_ops, managed_label_patch,
  RegistrationAction, is_foreign, check_owned, check_ownership, internal_addresses, check_address,
  opposite_label, identified_labels, present_action,
}

-- The Node carries no identity label, or the cluster's own.
abbrev pub IsOwn : Dict → List (String × String) → String → Type 0
IsOwn labels desired key =
    (wanted : String) × (lookup key desired ≡ some wanted)
    × ((eqb (get labels key) null ≡ true) ⊎ (eqb (get labels key) (str wanted) ≡ true))

check_owned-IsOwn :
    (labels : Dict) (desired : List (String × String)) (key : String)
    → check_owned labels desired key ≡ ok tt
    → IsOwn labels desired key
unfolding check_owned is_foreign
check_owned-IsOwn labels desired key h = go (lookup key desired) refl h
  where
    either : (a b : Bool) → not (a || b) ≡ false → (a ≡ true) ⊎ (b ≡ true)
    either true b e = inl refl
    either false true e = inr refl
    either false false e = cc

    own :
        (wanted : String)
        → raise_if
            (is_foreign labels key wanted)
            (Error.value_error "Refusing to adopt a Node owned by another Server or cluster")
          ≡ ok tt
        → is_foreign labels key wanted ≡ false
    own wanted e = ground arith

    go :
        (o : Option String)
        → lookup key desired ≡ o
        → elim o [
          | none ↦ err (Error.key_error key)
          | some wanted ↦
              raise_if
                (is_foreign labels key wanted)
                (Error.value_error "Refusing to adopt a Node owned by another Server or cluster")
        ]
          ≡ ok tt
        → IsOwn labels desired key
    go none p e = cc
    go (some wanted) p e = (wanted, p, either _ _ (own wanted e))

text_lem : (v : Json) (what t : String) → text v what ≡ ok t → v ≡ str t
unfolding text
text_lem (str a) what t e = grind arith
text_lem null what t e = cc
text_lem (Json.bool b) what t e = cc
text_lem (Json.int b) what t e = cc
text_lem (arr b) what t e = cc
text_lem (obj b) what t e = cc

-- The guards fix the labels that were read, or where the Node had none its revision.
abbrev pub AreGuards : Dict → Dict → List PatchOp → Type 0
AreGuards metadata labels guards =
    ((has "labels" metadata ≡ true) × (guards ≡ test "/metadata/labels" (object labels) ∷ []))
    ⊎ ((version : String) × (has "labels" metadata ≡ false)
        × (get metadata "resourceVersion" ≡ str version)
        × (guards
            ≡ test "/metadata/resourceVersion" (str version)
              ∷ add "/metadata/labels" (obj end)
              ∷ []))

guard_ops-AreGuards :
    (metadata labels : Dict) (guards : List PatchOp)
    → guard_ops metadata labels ≡ ok guards
    → AreGuards metadata labels guards
unfolding guard_ops
guard_ops-AreGuards metadata labels guards h = elim (Bool-cases (has "labels" metadata)) [
  | inl p ↦ inl (p, with_labels p)
  | inr p ↦
      let (version, read, h1) =
        bind-eq-ok (text (get metadata "resourceVersion") "Node resource version") _ (without p) in
      inr (version, p, text_lem (get metadata "resourceVersion") _ version read, ground arith)
]
  where
    with_labels :
        has "labels" metadata ≡ true → guards ≡ test "/metadata/labels" (object labels) ∷ []
    with_labels p = ground arith

    without :
        has "labels" metadata ≡ false
        → (text (get metadata "resourceVersion") "Node resource version" >>= λ version. ok (
            test "/metadata/resourceVersion" (str version) ∷ add "/metadata/labels" (obj end) ∷ []))
          ≡ ok guards
    without p = ground arith

-- The patch first tests the UID that was read, and next the labels or the revision.
abbrev pub IsConditional : Dict → Dict → List PatchOp → Type 0
IsConditional metadata labels patch =
    (uid : Json) × (guards rest : List PatchOp) × (index metadata "uid" ≡ ok uid)
    × AreGuards metadata labels guards
    × (patch ≡ test "/metadata/uid" uid ∷ (guards ++ rest))

managed_label_patch-IsConditional :
    (metadata : Dict) (desired : List (String × String)) (opposite : String) (patch : List PatchOp)
    (labels : Dict)
    → mapping (get_or metadata "labels" (obj end)) "Node labels" ≡ ok labels
    → managed_label_patch metadata desired opposite ≡ ok patch
    → IsConditional metadata labels patch
unfolding managed_label_patch
managed_label_patch-IsConditional metadata desired opposite patch labels m h =
    let (uid, u, h1) = bind-eq-ok (index metadata "uid") _ h in
    let (labels', l, h2) =
      bind-eq-ok (mapping (get_or metadata "labels" (obj end)) "Node labels") _ h1 in
    let (guards, g, h3) = bind-eq-ok (guard_ops metadata labels') _ h2 in
    let same : labels' ≡ labels = ground arith in
    (
      uid,
      guards,
      map label_op desired ++ drop_ops opposite labels',
      u,
      guard_ops-AreGuards metadata labels guards
          (subst (λ l. guard_ops metadata l ≡ ok guards) same g),
      ground arith,
    )

-- An entry of the Node's addresses with another type than InternalIP.
abbrev pub IsOther : Json → Type 0
IsOther raw =
    (entry : Dict) × (mapping raw "Node address" ≡ ok entry)
    × (eqb (get entry "type") (str "InternalIP") ≡ false)

-- Of the Node's addresses exactly one has the type InternalIP, and it is `wanted`.
abbrev pub HasOnly : Json → List Json → Type 0
HasOnly wanted addresses =
    (before after : List Json) × (raw : Json) × (entry : Dict) × (addresses ≡ before ++ raw ∷ after)
    × All IsOther before
    × All IsOther after
    × (mapping raw "Node address" ≡ ok entry)
    × (get entry "type" ≡ str "InternalIP")
    × (eqb (get entry "address") wanted ≡ true)

internal_addresses-cases :
    (raw : Json) (rest internal : List Json)
    → internal_addresses (raw ∷ rest) ≡ ok internal
    → (IsOther raw × (internal_addresses rest ≡ ok internal))
      ⊎ ((entry : Dict) × (others : List Json) × (mapping raw "Node address" ≡ ok entry)
          × (get entry "type" ≡ str "InternalIP")
          × (internal_addresses rest ≡ ok others)
          × (internal ≡ get entry "address" ∷ others))
unfolding internal_addresses
internal_addresses-cases raw rest internal h =
    let (entry, m, h1) = bind-eq-ok (mapping raw "Node address") _ h in
    elim (Bool-cases (eqb (get entry "type") (str "InternalIP"))) [
      | inr p ↦ inl ((entry, m, p), other entry p h1)
      | inl p ↦
          let (others, r, h2) = bind-eq-ok (internal_addresses rest) _ (own entry p h1) in
          inr (entry, others, m, eqb-str _ _ p, r, ground arith)
    ]
  where
    step : Dict → Bool → Result (List Json)
    step entry b = elim b [
      | false ↦ internal_addresses rest
      | true ↦ internal_addresses rest >>= λ others. ok (get entry "address" ∷ others)
    ]

    other :
        (entry : Dict)
        → eqb (get entry "type") (str "InternalIP") ≡ false
        → step entry (eqb (get entry "type") (str "InternalIP")) ≡ ok internal
        → internal_addresses rest ≡ ok internal
    other entry p e = subst (λ b. step entry b ≡ ok internal) p e

    own :
        (entry : Dict)
        → eqb (get entry "type") (str "InternalIP") ≡ true
        → step entry (eqb (get entry "type") (str "InternalIP")) ≡ ok internal
        → (internal_addresses rest >>= λ others. ok (get entry "address" ∷ others)) ≡ ok internal
    own entry p e = subst (λ b. step entry b ≡ ok internal) p e

internal_addresses-IsOther :
    (addresses : List Json) → internal_addresses addresses ≡ ok [] → All IsOther addresses
internal_addresses-IsOther [] h = tt
internal_addresses-IsOther (raw ∷ rest) h = elim (internal_addresses-cases raw rest [] h) [
  | inl (o, h1) ↦ (o, internal_addresses-IsOther rest h1)
  | inr (entry, others, m, t, r, e) ↦ absurd (cc)
]

internal_addresses-HasOnly :
    (addresses : List Json) (found wanted : Json)
    → internal_addresses addresses ≡ ok (found ∷ [])
    → eqb found wanted ≡ true
    → HasOnly wanted addresses
unfolding internal_addresses
internal_addresses-HasOnly [] found wanted h same = cc
internal_addresses-HasOnly (raw ∷ rest) found wanted h same =
    elim (internal_addresses-cases raw rest (found ∷ []) h) [
      | inl (o, h1) ↦
          let (before, after, r, entry, e, b, a, m, t, s) =
            internal_addresses-HasOnly rest found wanted h1 same in
          (raw ∷ before, after, r, entry, ap (λ xs. raw ∷ xs) e, (o, b), a, m, t, s)
      | inr (entry, others, m, t, r, e) ↦
          let none_left : others ≡ [] = ground arith in
          let its : found ≡ get entry "address" = ground arith in
          (
            [],
            rest,
            raw,
            entry,
            refl,
            tt,
            internal_addresses-IsOther rest
                (subst (λ o. internal_addresses rest ≡ ok o) none_left r),
            m,
            t,
            subst (λ f. eqb f wanted ≡ true) its same,
          )
    ]

single :
    (internal : List Json) (wanted : Json)
    → eqb (array internal) (array (wanted ∷ [])) ≡ true
    → (found : Json) × (internal ≡ found ∷ []) × (eqb found wanted ≡ true)
unfolding eqb
single [] wanted h = absurd (cc)
single (x ∷ []) wanted h = (x, refl, ground arith)
single (x ∷ y ∷ zs) wanted h = absurd (ground arith)

-- The Node's only InternalIP is the address of the managed Server.
abbrev pub IsAddressed : Dict → Dict → Type 0
IsAddressed node request =
    (status : Dict) × (addresses : List Json) × (mapping (get_or node "status" (obj end))
        "Node status"
      ≡ ok status)
    × (require_list (get_or status "addresses" (arr nil)) "Node addresses must be an array"
        ≡ ok addresses)
    × HasOnly (get request "address") addresses

check_address-IsAddressed :
    (node request : Dict) → check_address node request ≡ ok tt → IsAddressed node request
unfolding check_address
check_address-IsAddressed node request h =
    let (status, m, h1) = bind-eq-ok (mapping (get_or node "status" (obj end)) "Node status") _ h in
    let (addresses, l, h2) =
      bind-eq-ok
        (require_list (get_or status "addresses" (arr nil)) "Node addresses must be an array") _
        h1 in
    let (internal, r, h3) = bind-eq-ok (internal_addresses addresses) _ h2 in
    let (found, one, same) = single internal (get request "address") (equal internal h3) in
    (
      status,
      addresses,
      m,
      l,
      internal_addresses-HasOnly addresses found (get request "address")
          (subst (λ (xs : List Json). internal_addresses addresses ≡ ok xs) one r) same,
    )
  where
    equal :
        (internal : List Json)
        → raise_if
            (not (eqb (array internal) (array (get request "address" ∷ []))))
            (Error.value_error "Node address does not match the managed Server")
          ≡ ok tt
        → eqb (array internal) (array (get request "address" ∷ [])) ≡ true
    equal internal e = ground arith

-- What is known of a Node that the filter would relabel.
abbrev pub IsEntitled : Dict → Dict → Dict → Dict → RegistrationAction → Type 0
IsEntitled plan m node request action =
    (metadata labels : Dict) × (desired : List (String × String)) × (mapping (get node "metadata")
        "Node metadata"
      ≡ ok metadata)
    × (eqb (get metadata "name") (get request "nodeName") ≡ true)
    × (truthy (get metadata "uid") ≡ true)
    × (mapping (get_or metadata "labels" (obj end)) "Node labels" ≡ ok labels)
    × (desired_labels plan m ≡ ok desired)
    × IsOwn labels desired "homelab.io/server-uid"
    × IsOwn labels desired "homelab.io/kube-cluster-uid"
    × IsAddressed node request
    × IsConditional metadata labels action.label_patch

identified_labels_lem :
    (metadata request labels : Dict)
    → identified_labels metadata request ≡ ok labels
    → (eqb (get metadata "name") (get request "nodeName") ≡ true)
      × (truthy (get metadata "uid") ≡ true)
      × (mapping (get_or metadata "labels" (obj end)) "Node labels" ≡ ok labels)
unfolding identified_labels
identified_labels_lem metadata request labels h =
    let (refused, e) =
      raise_if-eq-ok
        (not (eqb (get metadata "name") (get request "nodeName"))
          || not (truthy (get metadata "uid")))
        _ _ h in
    (ground arith, ground arith, e)

check_ownership_lem :
    (labels : Dict) (desired : List (String × String))
    → check_ownership labels desired ≡ ok tt
    → IsOwn labels desired "homelab.io/server-uid"
      × IsOwn labels desired "homelab.io/kube-cluster-uid"
unfolding check_ownership
check_ownership_lem labels desired h =
    let (_, s, h1) = bind-eq-ok (check_owned labels desired "homelab.io/server-uid") _ h in
    (check_owned-IsOwn labels desired _ s, check_owned-IsOwn labels desired _ h1)

-- If present_action returns for a Node that exists, that Node has the requested name and a UID, its
-- identity labels are absent or the cluster's own, exactly one of its addresses has the type
-- InternalIP and it is the address of the request, and the patch starts with a test of the UID that
-- was read and one of the labels that were read, or where there were none of the revision.
pub present_action-IsEntitled :
    (plan m node request : Dict) (action : RegistrationAction)
    → present_action plan m node request ≡ ok action
    → IsEntitled plan m node request action
unfolding present_action
present_action-IsEntitled plan m node request action h =
    let (metadata, p, h1) = bind-eq-ok (mapping (get node "metadata") "Node metadata") _ h in
    let (labels, l, h2) = bind-eq-ok (identified_labels metadata request) _ h1 in
    let (desired, d, h3) = bind-eq-ok (desired_labels plan m) _ h2 in
    let (_, o, h4) = bind-eq-ok (check_ownership labels desired) _ h3 in
    let (_, a, h5) = bind-eq-ok (check_address node request) _ h4 in
    let (patch, q, h6) =
      bind-eq-ok (managed_label_patch metadata desired (opposite_label m)) _ h5 in
    let (server, cluster) = check_ownership_lem labels desired o in
    let (named, alive, read) = identified_labels_lem metadata request labels l in
    let same : patch ≡ action.label_patch = ground arith in
    let conditional =
      managed_label_patch-IsConditional metadata desired (opposite_label m) patch labels read q in
    (
      metadata,
      labels,
      desired,
      p,
      named,
      alive,
      read,
      d,
      server,
      cluster,
      check_address-IsAddressed node request a,
      subst (IsConditional metadata labels) same conditional,
    )

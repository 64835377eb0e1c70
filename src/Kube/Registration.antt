-- ===== src/Kube/Registration.antt =====
-- members_by_name, desired_labels, registration_action and managed_label_patch of
-- filter_plugins/kube_plan.py: what repairs the registration of one installed Node.
pub mod Laws
pub mod Pointer
use ansible_roles.Prelude.{
  ◌<>◌, String, Bool, true, false, not, ◌&&◌, ◌||◌, Option, none, some, List, [], ◌∷◌, ◌++◌, any,
  map, string_eq, if◌then◌else◌,
}
use ansible_roles.Result.{Result, ok, err, value_error, key_error, raise_if, ◌>>=◌, ◌>>◌}
use ansible_roles.Json.{
  Json, null, bool, str, obj, arr, end, nil, Dict, object, array, get, get_or, index, lookup, has,
  eqb, truthy,
}
use ansible_roles.Text.{replace}
use ansible_roles.Kube.{mapping, text, require_list}
use ansible_roles.Kube.Nodes.{index_members}

-- members_by_name, over the same loop as verify_nodes
unfoldable pub members_by_name : Json → Result (List (String × Dict))
members_by_name raw_plan = do
  plan ← mapping raw_plan "cluster plan"
  members ← require_list (get plan "members") "Cluster members must be an array"
  index_members members []

-- The labels that the cluster owns, in the order of the dictionary.
unfoldable pub desired_labels : Dict → Dict → Result (List (String × String))
desired_labels plan m = do
  server ← text (get m "uid") "Server UID"
  cluster ← text (get plan "uid") "cluster UID"
  role ← text (get m "role") "Node role"
  ok (
      ("homelab.io/server-uid", server)
      ∷ ("homelab.io/kube-cluster-uid", cluster)
      ∷ ("node-role.kubernetes.io/" <> role, "")
      ∷ [])

-- One operation of a JSON Patch.
pub data PatchOp : Type 0 where
  test add : String → Json → PatchOp
  drop : String → PatchOp

unfoldable pub op_json : PatchOp → Json
op_json (test path value) = object (("op", str "test") ∷ ("path", str path) ∷ ("value", value) ∷ [])
op_json (add path value) = object (("op", str "add") ∷ ("path", str path) ∷ ("value", value) ∷ [])
op_json (drop path) = object (("op", str "remove") ∷ ("path", str path) ∷ [])

-- `key.replace('~', '~0').replace('/', '~1')`
unfoldable pub escape : String → String
escape key = replace 47 "~1" (replace 126 "~0" key)

-- The operations before the labels: they fix the Node's lifetime, and its labels or, where it has
-- none, its revision.
unfoldable pub guard_ops : Dict → Dict → Result (List PatchOp)
guard_ops metadata labels = elim (has "labels" metadata) [
  | true ↦ ok (test "/metadata/labels" (object labels) ∷ [])
  | false ↦ do
    version ← text (get metadata "resourceVersion") "Node resource version"
    ok (test "/metadata/resourceVersion" (str version) ∷ add "/metadata/labels" (obj end) ∷ [])
]

abbrev pub label_op : String × String → PatchOp
label_op (key, value) = add ("/metadata/labels/" <> escape key) (str value)

-- `opposite.replace('/', '~1')`, where the opposite label is present
unfoldable pub drop_ops : String → Dict → List PatchOp
drop_ops opposite labels =
    if has opposite labels then drop ("/metadata/labels/" <> replace 47 "~1" opposite) ∷ [] else []

unfoldable pub managed_label_patch : Dict → List (String × String) → String → Result (List PatchOp)
managed_label_patch metadata desired opposite = do
  uid ← index metadata "uid"
  labels ← mapping (get_or metadata "labels" (obj end)) "Node labels"
  guards ← guard_ops metadata labels
  ok (test "/metadata/uid" uid ∷ (guards ++ (map label_op desired ++ drop_ops opposite labels)))

-- The filter's result.
pub record RegistrationAction : Type 0 where
  pub missing : Bool
  pub labels_changed : Bool
  pub label_patch : List PatchOp

unfoldable pub action_json : RegistrationAction → Json
action_json a = object (
    ("missing", bool a.missing)
    ∷ ("labelsChanged", bool a.labels_changed)
    ∷ ("labelPatch", array (map op_json a.label_patch))
    ∷ [])

-- `members_by_name(plan).get(name)`, which must match the request.
unfoldable pub selected_member : Json → Dict → Result Dict
selected_member raw_plan request = do
  indexed ← members_by_name raw_plan
  name ← text (get request "nodeName") "Node name"
  elim (lookup name indexed) [
    | none ↦ err (value_error "Host is not the selected cluster member")
    | some m ↦ do
      raise_if
          (not (eqb (get m "uid") (get request "serverUID"))
            || not (eqb (get m "role") (get request "role")))
          (value_error "Host is not the selected cluster member")
      ok m
  ]

-- `labels.get(key) not in (None, desired[key])`
unfoldable pub is_foreign : Dict → String → String → Bool
is_foreign labels key wanted = not (eqb (get labels key) null || eqb (get labels key) (str wanted))

-- One round of the loop over the two identity keys; `desired[key]` must be there.
unfoldable pub check_owned : Dict → List (String × String) → String → Result (Unit {0})
check_owned labels desired key = elim (lookup key desired) [
  | none ↦ err (key_error key)
  | some wanted ↦
      raise_if (is_foreign labels key wanted)
        (value_error "Refusing to adopt a Node owned by another Server or cluster")
]

unfoldable pub check_ownership : Dict → List (String × String) → Result (Unit {0})
check_ownership labels desired = do
  check_owned labels desired "homelab.io/server-uid"
  check_owned labels desired "homelab.io/kube-cluster-uid"

-- The addresses of type InternalIP, which need not be texts.
unfoldable pub internal_addresses : List Json → Result (List Json)
internal_addresses [] = ok []
internal_addresses (raw ∷ rest) = do
  address ← mapping raw "Node address"
  elim (eqb (get address "type") (str "InternalIP")) [
    | false ↦ internal_addresses rest
    | true ↦ do others ← internal_addresses rest; ok (get address "address" ∷ others)
  ]

unfoldable pub check_address : Dict → Dict → Result (Unit {0})
check_address node request = do
  status ← mapping (get_or node "status" (obj end)) "Node status"
  addresses ← require_list (get_or status "addresses" (arr nil)) "Node addresses must be an array"
  internal ← internal_addresses addresses
  raise_if (not (eqb (array internal) (array (get request "address" ∷ []))))
      (value_error "Node address does not match the managed Server")

-- `labels.get(key) != value` for some desired label, or the opposite role's label is present
unfoldable pub labels_differ : Dict → List (String × String) → String → Bool
labels_differ labels desired opposite =
    any (λ (key, value). not (eqb (get labels key) (str value))) desired || has opposite labels

unfoldable pub opposite_label : Dict → String
opposite_label m =
    "node-role.kubernetes.io/"
    <> (if eqb (get m "role") (str "control-plane") then "worker" else "control-plane")

-- The Node's identity against the request, and its labels.
unfoldable pub identified_labels : Dict → Dict → Result Dict
identified_labels metadata request = do
  raise_if
      (not (eqb (get metadata "name") (get request "nodeName"))
        || not (truthy (get metadata "uid")))
      (value_error "Actual Node identity does not match the selected member")
  mapping (get_or metadata "labels" (obj end)) "Node labels"

-- A Node that is present.
unfoldable pub present_action : Dict → Dict → Dict → Dict → Result RegistrationAction
present_action plan m node request = do
  metadata ← mapping (get node "metadata") "Node metadata"
  labels ← identified_labels metadata request
  desired ← desired_labels plan m
  check_ownership labels desired
  check_address node request
  patch ← managed_label_patch metadata desired (opposite_label m)
  ok (record {
    missing = false;
    labels_changed = labels_differ labels desired (opposite_label m);
    label_patch = patch;
  })

unfoldable pub registration_action : Json → Json → Result RegistrationAction
registration_action raw_plan raw_request = do
  plan ← mapping raw_plan "cluster plan"
  request ← mapping raw_request "registration request"
  m ← selected_member raw_plan request
  node ← mapping (get request "node") "actual Node"
  elim node [
    | [] ↦ ok (record { missing = true; labels_changed = false; label_patch = [] })
    | entry ∷ rest ↦ present_action plan m (entry ∷ rest) request
  ]

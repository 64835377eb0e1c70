-- ===== src/Kube/Membership.antt =====
-- membership_observation of filter_plugins/kube_plan.py: the actual membership of a cluster, with the
-- members that are missing.
pub mod Laws
pub mod Inspected
use ansible_roles.Prelude.{
  String, Bool, true, false, not, ◌&&◌, ◌||◌, Option, none, some, List, [], ◌∷◌, any, map, keep,
  if◌then◌else◌,
}
use ansible_roles.Result.{
  Result, ok, err, value_error, key_error, raise_if, any_result, ◌>>=◌, ◌>>◌,
}
use ansible_roles.Json.{
  Json, bool, str, obj, arr, end, nil, Dict, object, array, get, get_or, lookup, has, keys, eqb,
}
use ansible_roles.Text.{sort_texts}
use ansible_roles.Kube.{mapping, text, require_list}
use ansible_roles.Kube.Nodes.{node_name, is_ready}
use ansible_roles.Kube.Registration.{members_by_name, desired_labels}

-- `actual`: the Nodes by name, each name once.
unfoldable pub actual_nodes : List Json → List (String × Dict) → Result (List (String × Dict))
actual_nodes [] actual = ok actual
actual_nodes (raw ∷ rest) actual = do
  node ← mapping raw "Node"
  name ← node_name node
  raise_if (has name actual) (value_error "Duplicate Node identity")
  actual_nodes rest ((name, node) ∷ actual)

-- sorted(set(a) - set(b)) and sorted(set(a) & set(b)), over the keys
unfoldable pub only_in : List (String × Dict) → List (String × Dict) → List String
only_in a b = sort_texts (keep (λ name. not (has name b)) (keys a))

unfoldable pub in_both : List (String × Dict) → List (String × Dict) → List String
in_both a b = sort_texts (keep (λ name. has name b) (keys a))

-- `indexed[name]`
unfoldable pub entry_of : List (String × Dict) → String → Result Dict
entry_of indexed name = elim (lookup name indexed) [
  | none ↦ err (key_error name)
  | some value ↦ ok value
]

-- Some desired label is missing from the Node or has another value.
unfoldable pub has_conflict : Dict → Dict → Dict → Result Bool
has_conflict labels plan m = do
  desired ← desired_labels plan m
  ok (any (λ (key, value). not (eqb (get labels key) (str value))) desired)

unfoldable pub ready_status : Dict → Result Bool
ready_status node = do
  status ← mapping (get_or node "status" (obj end)) "Node status"
  conditions ←
      require_list (get_or status "conditions" (arr nil)) "Node conditions must be an array"
  any_result is_ready conditions

-- What the loop finds out of one member: a conflict, and whether the Node is ready.
unfoldable pub inspect_member :
    Json → List (String × Dict) → List (String × Dict) → String → Result (Bool × Bool)
inspect_member raw_plan expected actual name = do
  node ← entry_of actual name
  metadata ← mapping (get node "metadata") "Node metadata"
  labels ← mapping (get_or metadata "labels" (obj end)) "Node labels"
  plan ← mapping raw_plan "cluster plan"
  m ← entry_of expected name
  conflict ← has_conflict labels plan m
  ready ← ready_status node
  ok (conflict, ready)

-- The lists `conflicts` and `not_ready`.
unfoldable pub inspect_members :
    Json
    → List (String × Dict)
    → List (String × Dict)
    → List String
    → Result (List String × List String)
inspect_members raw_plan expected actual [] = ok ([], [])
inspect_members raw_plan expected actual (name ∷ names) = do
  found ← inspect_member raw_plan expected actual name
  rest ← inspect_members raw_plan expected actual names
  ok (if found.0 then name ∷ rest.0 else rest.0, if found.1 then rest.1 else name ∷ rest.1)

pub record Observation : Type 0 where
  pub ready : Bool
  pub missing_members : List String
  pub not_ready_members : List String
  pub unexpected_nodes : List String
  pub identity_conflicts : List String

unfoldable pub observation_json : Observation → Json
observation_json o = object (
    ("ready", bool o.ready)
    ∷ ("missingMembers", array (map str o.missing_members))
    ∷ ("notReadyMembers", array (map str o.not_ready_members))
    ∷ ("unexpectedNodes", array (map str o.unexpected_nodes))
    ∷ ("identityConflicts", array (map str o.identity_conflicts))
    ∷ [])

abbrev is_empty : List String → Bool
is_empty [] = true
is_empty (s ∷ ss) = false

unfoldable pub membership_observation : Json → Json → Result Observation
membership_observation raw_plan raw_response = do
  expected ← members_by_name raw_plan
  response ← mapping raw_response "Node list"
  items ← require_list (get response "items") "Actual Nodes must be an array"
  actual ← actual_nodes items []
  let missing = only_in expected actual
  let unexpected = only_in actual expected
  found ← inspect_members raw_plan expected actual (in_both expected actual)
  ok (record {
    ready = is_empty missing && is_empty unexpected && is_empty found.1 && is_empty found.0;
    missing_members = missing;
    not_ready_members = found.1;
    unexpected_nodes = unexpected;
    identity_conflicts = found.0;
  })

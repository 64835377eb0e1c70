-- ===== src/Operators/Api.antt =====
-- class API of operators/common.py: the resource API as the operators see it. A call that the API
-- refuses raises HTTPError with its code; URLs, tokens and the transport are the outside's.
use ansible_roles.Prelude.{String, none, some, List, [], ◌∷◌}
use ansible_roles.Result
use ansible_roles.Result.{Result, ok, err, value_error, key_error, map_result}
use ansible_roles.Json.{Json, arr, Dict, list_of, get, lookup}
use ansible_roles.Operators.Effects.{Call, Log, Outside, Exec, lift, ◌>>=◌, request}
use ansible_roles.Operators.Resource.{Resource, json_object, resource}

-- `resource(request_json(…))`
unfoldable pub decode : Json → Result Resource
decode v = Result.◌>>=◌ (json_object v "API response") resource

unfoldable pub api_get : Outside → String → String → Exec Log Resource
api_get outside collection name = do v ← request outside (Call.get collection name); lift (decode v)

unfoldable pub collection_items : Json → Result (List Json)
collection_items (arr xs) = ok (list_of xs)
collection_items _ = err (value_error "API collection.items must be a list")

unfoldable pub decode_item : Json → Result Resource
decode_item v = Result.◌>>=◌ (json_object v "collection item") resource

unfoldable pub api_list : Outside → String → Exec Log (List Resource)
api_list outside collection = do
  v ← request outside (Call.list collection)
  d ← lift (json_object v "API response")
  items ← lift (collection_items (get d "items"))
  lift (map_result decode_item items)

-- The collections whose status the operators write, by kind.
unfoldable pub collections : List (String × String)
collections =
    ("Server", "servers")
    ∷ ("ProvisioningRun", "provisioning-runs")
    ∷ ("Configuration", "configurations")
    ∷ ("KubeCluster", "kube-clusters")
    ∷ ("Operation", "operations")
    ∷ []

unfoldable pub collection_of : String → Result String
collection_of kind = elim (lookup kind collections) [
  | none ↦ err (key_error kind)
  | some collection ↦ ok collection
]

-- API.patch_status: merge status fields for this lifetime (UID) and revision (If-Match) alone.
unfoldable pub patch_status : Outside → Resource → Dict → Exec Log Resource
patch_status outside target status = do
  collection ← lift (collection_of target.kind)
  v ← request outside (
      Call.patch collection target.metadata.name target.metadata.uid
        target.metadata.resource_version status)
  lift (decode v)

-- API.create
unfoldable pub api_create : Outside → String → String → String → Dict → Exec Log Resource
api_create outside collection kind name spec = do
  v ← request outside (Call.create collection kind name spec)
  lift (decode v)

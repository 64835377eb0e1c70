-- ===== src/Operators/Resource.antt =====
-- operators/models.py: the validated envelope of an API resource.
use ansible_roles.Prelude.{◌<>◌, String, Option, none, some, List, [], ◌∷◌}
use ansible_roles.Result.{Result, ok, err, value_error, ◌>>=◌, map_result}
use ansible_roles.Json.{
  ℤ, Json, int, str, arr, obj, end, Dict, dict_of, list_of, get, get_or, lookup,
}

-- Identity fields returned by the resource API; a field that may be missing is an option.
pub record Metadata : Type 0 where
  pub name : String
  pub uid : String
  pub resource_version : String
  pub generation : Option ℤ
  pub deletion_timestamp : Option String
  pub annotations : Option (List (String × String))
  pub labels : Option (List (String × String))
  pub creation_timestamp : Option String
  pub finalizers : Option (List String)

pub record Resource : Type 0 where
  pub kind : String
  pub api_version : Option String
  pub metadata : Metadata
  pub spec : Dict
  pub status : Dict

unfoldable pub json_object : Json → String → Result Dict
json_object (obj fs) context = ok (dict_of fs)
json_object _ context = err (value_error (context <> " must be a JSON mapping"))

unfoldable pub json_string : Json → String → Result String
json_string (str s) context = ok s
json_string _ context = err (value_error (context <> " must be a string"))

-- `if field in mapping: …`
unfoldable pub optional {ℓ} : {A : Type ℓ} → (Json → Result A) → Dict → String → Result (Option A)
optional read d field = elim (lookup field d) [
  | none ↦ ok none
  | some v ↦ (do a ← read v; ok (some a))
]

-- An integer, and not a Boolean.
unfoldable pub json_integer : Json → Result ℤ
json_integer (int n) = ok n
json_integer _ = err (value_error "metadata.generation must be an integer")

-- Labels or annotations: every value is a text.
unfoldable pub text_items : String → Dict → Result (List (String × String))
text_items context [] = ok []
text_items context ((k, v) ∷ d) = do
  s ← json_string v (context <> "." <> k)
  rest ← text_items context d
  ok ((k, s) ∷ rest)

unfoldable pub text_map : String → Json → Result (List (String × String))
text_map context v = do d ← json_object v context; text_items context d

unfoldable pub text_list : Json → Result (List String)
text_list (arr xs) = map_result (λ v. json_string v "finalizer") (list_of xs)
text_list _ = err (value_error "metadata.finalizers must be a list")

unfoldable pub metadata_of : Dict → Result Metadata
metadata_of raw = do
  name ← json_string (get raw "name") "metadata.name"
  uid ← json_string (get raw "uid") "metadata.uid"
  version ← json_string (get raw "resourceVersion") "metadata.resourceVersion"
  generation ← optional json_integer raw "generation"
  deleted ← optional (λ v. json_string v "metadata.deletionTimestamp") raw "deletionTimestamp"
  annotations ← optional (text_map "metadata.annotations") raw "annotations"
  labels ← optional (text_map "metadata.labels") raw "labels"
  created ← optional (λ v. json_string v "metadata.creationTimestamp") raw "creationTimestamp"
  finalizers ← optional text_list raw "finalizers"
  ok (record {
    name = name;
    uid = uid;
    resource_version = version;
    generation = generation;
    deletion_timestamp = deleted;
    annotations = annotations;
    labels = labels;
    creation_timestamp = created;
    finalizers = finalizers;
  })

unfoldable pub resource : Dict → Result Resource
resource value = do
  raw ← json_object (get value "metadata") "metadata"
  metadata ← metadata_of raw
  kind ← json_string (get value "kind") "kind"
  spec ← json_object (get_or value "spec" (obj end)) "spec"
  status ← json_object (get_or value "status" (obj end)) "status"
  version ← optional (λ v. json_string v "apiVersion") value "apiVersion"
  ok (record {
    kind = kind;
    api_version = version;
    metadata = metadata;
    spec = spec;
    status = status;
  })

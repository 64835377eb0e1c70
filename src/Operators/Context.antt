-- ===== src/Operators/Context.antt =====
-- operators/runner_kubernetes.py: a cluster's private context, retrieved from its control plane over
-- verified SSH and bound to the lifetimes of both.
pub mod Client
pub mod Agreement
use ansible_roles.Prelude.{
  ℕ, ◌<>◌, String, Bool, true, false, not, ◌&&◌, ◌||◌, Option, none, some, List, [], ◌∷◌, ◌++◌, map,
  all, member, ◌==◌, string_eq, if◌then◌else◌,
}
use ansible_roles.Text.{codes, is_release, remove_prefix}
use ansible_roles.Result
use ansible_roles.Result.{Error, Result, ok, err, value_error, raise_if, map_result}
use ansible_roles.Json.{
  Json, null, int, str, obj, arr, nil, end, Dict, object, get, get_or, lookup, insert, keys,
  list_of, items_of, truthy, eqb,
}
use ansible_roles.Operators.Effects.{
  Call, Log, Outside, Exec, pure, raise, lift, ◌>>=◌, ◌>>◌, refuse_if, request, choose,
}
use ansible_roles.Operators.Resource.{Resource, json_object, json_string}
use ansible_roles.Operators.Api.{api_get}
use ansible_roles.Operators.Common.{is_terminating, management_address, inventory_hosts, host_names}
use ansible_roles.Operators.Common.Keys.{Crypto}
use ansible_roles.Operators.Trust.{prepare}

-- `metadata.get('labels', {}).get(name)`
unfoldable pub text_of : Option (List (String × String)) → String → Option String
text_of none name = none
text_of (some items) name = lookup name items

unfoldable pub says : Option String → String → Bool
says none s = false
says (some t) s = t == s

unfoldable pub is_control_plane_of : Resource → Resource → Bool
is_control_plane_of cluster server =
    says (text_of server.metadata.labels "homelab.io/kube-cluster") cluster.metadata.name
    && says (text_of server.metadata.labels "homelab.io/kube-role") "control-plane"

-- `len(candidates) != 1`
unfoldable pub only_one : List Resource → Result Resource
only_one (server ∷ []) = ok server
only_one _ = err (value_error "The capture group must contain exactly one cluster control plane")

-- Bound to another cluster's UID.
unfoldable pub is_bound_elsewhere : Resource → Resource → Bool
is_bound_elsewhere cluster server =
    elim (text_of server.metadata.annotations "homelab.io/kube-cluster-uid") [
      | none ↦ false
      | some uid ↦ not (uid == cluster.metadata.uid)
    ]

unfoldable pub without_version : Dict → Dict
without_version [] = []
without_version ((k, v) ∷ d) =
    let rest = without_version d in elim (k == "version") [ true ↦ rest | false ↦ (k, v) ∷ rest ]

unfoldable pub stable_settings : Dict → Result Dict
stable_settings settings =
    Result.◌>>=◌ (json_object (get settings "network") "KubeCluster network")
      λ network. ok (insert "network" (object (without_version network)) settings)

-- A list of exactly one entry.
unfoldable pub single_entry : Dict → String → Result Json
single_entry config field = elim (get config field) [
  | arr xs ↦ elim (list_of xs) [
    | [] ↦ err (value_error "Expected one self-contained Kubernetes context")
    | x ∷ rest ↦ elim rest [
      | [] ↦ ok x
      | _ ∷ _ ↦ err (value_error "Expected one self-contained Kubernetes context")
    ]
  ]
  | _ ↦ err (value_error "Expected one self-contained Kubernetes context")
]

-- `set(d) == {…}`: the keys are the given texts, whatever their order.
unfoldable pub has_exactly : Dict → List String → Bool
has_exactly d expected =
    all (λ k. member k expected) (keys d) && all (λ k. member k (keys d)) expected

unfoldable pub values : Dict → List Json
values [] = []
values ((k, v) ∷ d) = v ∷ values d

unfoldable pub check_material : List Json → Result (Unit {0})
check_material [] = ok tt
check_material (v ∷ vs) = Result.◌>>=◌ (json_string v "embedded certificate material") λ s.
    Result.◌>>=◌ (raise_if (s == "") (value_error "Empty certificate material"))
      λ _. check_material vs

unfoldable pub is_inconsistent : Dict → Dict → Dict → Dict → Dict → Bool
is_inconsistent config cluster_entry user_entry context_entry context =
    not (eqb (get context "cluster") (get cluster_entry "name"))
    || not (eqb (get context "user") (get user_entry "name"))
    || not (eqb (get config "current-context") (get context_entry "name"))

-- The accepted configuration, its context named like the cluster.
unfoldable pub named_context : Dict → Dict → Resource → Dict
named_context config context_entry cluster = insert "current-context" (str cluster.metadata.name) (
    insert "contexts"
      (arr (items_of (object (insert "name" (str cluster.metadata.name) context_entry) ∷ [])))
      config)

unfoldable pub check_entries : Dict → Resource → Dict → Dict → Bool → Dict → Result Dict
check_entries config cluster connection credentials inconsistent named =
    Result.◌>>=◌ (json_string (get cluster.spec "controlPlaneEndpoint") "control-plane endpoint")
      λ endpoint.
        Result.◌>>=◌
          (raise_if (not (eqb (get connection "server") (str ("https://" <> endpoint))))
            (value_error "Kubeconfig endpoint does not match the cluster"))
          λ _.
            Result.◌>>=◌
              (raise_if
                (not (has_exactly connection ("server" ∷ "certificate-authority-data" ∷ [])))
                (value_error "Kubeconfig must use embedded CA trust without overrides"))
              λ _.
                Result.◌>>=◌
                  (raise_if
                    (not (
                      has_exactly credentials ("client-certificate-data" ∷ "client-key-data" ∷ [])))
                    (value_error "Kubeconfig must use embedded client credentials without plugins"))
                  λ _.
                    Result.◌>>=◌
                      (check_material
                        (values credentials ++ get connection "certificate-authority-data" ∷ []))
                      λ _.
                        Result.◌>>=◌
                          (raise_if inconsistent
                            (value_error "Kubeconfig context binding is inconsistent"))
                          λ _. ok named

unfoldable pub validate_entries : Dict → Resource → Json → Json → Json → Result Dict
validate_entries config cluster cluster_value user_value context_value =
    Result.◌>>=◌ (json_object cluster_value "cluster entry") λ cluster_entry.
      Result.◌>>=◌ (json_object user_value "user entry") λ user_entry.
        Result.◌>>=◌ (json_object context_value "context entry") λ context_entry.
          Result.◌>>=◌ (json_object (get cluster_entry "cluster") "cluster connection")
            λ connection.
              Result.◌>>=◌ (json_object (get user_entry "user") "client credentials") λ credentials.
                Result.◌>>=◌ (json_object (get context_entry "context") "context binding")
                  λ context.
                    check_entries config cluster connection credentials
                      (is_inconsistent config cluster_entry user_entry context_entry context)
                      (named_context config context_entry cluster)

unfoldable pub validate_context : Dict → Resource → Result Dict
validate_context config cluster =
    Result.◌>>=◌
      (raise_if
        (not (eqb (get config "apiVersion") (str "v1"))
          || not (eqb (get config "kind") (str "Config")))
        (value_error "Invalid kubeconfig envelope"))
      λ _. Result.◌>>=◌ (single_entry config "clusters") λ cluster_value.
        Result.◌>>=◌ (single_entry config "users") λ user_value.
          Result.◌>>=◌ (single_entry config "contexts")
            λ context_value. validate_entries config cluster cluster_value user_value context_value

-- The cluster was replaced, edited or deleted since it was read.
unfoldable pub is_changed_cluster : Resource → Resource → Bool
is_changed_cluster current cluster =
    not (current.metadata.uid == cluster.metadata.uid)
    || is_terminating current
    || not (eqb (object current.spec) (object cluster.spec))

unfoldable pub labels_json : Option (List (String × String)) → Json
labels_json none = null
labels_json (some items) = object (map (λ item. (item.0, str item.1)) items)

unfoldable pub address_json : Option String → Json
address_json none = null
address_json (some s) = str s

-- The control plane's lifetime, labels, host identity or address changed.
unfoldable pub is_changed_server : Resource → Resource → Result Bool
is_changed_server current server =
    elim (not (current.metadata.uid == server.metadata.uid)
      || not (eqb (labels_json current.metadata.labels) (labels_json server.metadata.labels))
      || is_terminating current
      || not (eqb (get current.status "hostSSH") (get server.status "hostSSH"))) [
        | true ↦ ok true
        | false ↦ Result.◌>>=◌ (management_address current) λ here.
            Result.◌>>=◌ (management_address server)
              λ there. ok (not (eqb (address_json here) (address_json there)))
      ]

-- The address that SSH is to reach.
unfoldable pub required_address : Option String → Result String
required_address none = err (value_error "Control plane has no management address")
required_address (some host) = ok host

-- The read-only retrieval answers with the printed JSON, or with null where it fails.
unfoldable pub retrieved : Json → Result Dict
retrieved null = err (value_error "Verified control-plane credential retrieval failed")
retrieved v = json_object v "kubeconfig"

-- `ip_address` is `str(ipaddress.ip_address(…))`.
module _ (outside : Outside) (crypto : Crypto) (ip_address : String → Result String) where
  unfoldable pub candidate_servers : Resource → List String → Exec Log (List Resource)
  candidate_servers cluster [] = pure []
  candidate_servers cluster (name ∷ names) = do
    server ← api_get outside "servers" name
    servers ← candidate_servers cluster names
    pure (if is_control_plane_of cluster server then server ∷ servers else servers)

  unfoldable pub control_plane : Dict → Resource → Exec Log Resource
  control_plane inventory cluster = do
    hosts ← lift (inventory_hosts inventory)
    candidates ← candidate_servers cluster (host_names hosts)
    server ← lift (only_one candidates)
    refuse_if (is_bound_elsewhere cluster server)
        (value_error "Control plane belongs to a replaced cluster")
    pure server

  -- `{'all': {'hosts': {name: {}}}}`
  abbrev one_host : String → Dict
  one_host name = ("all", object (("hosts", object ((name, obj end) ∷ [])) ∷ [])) ∷ []

  unfoldable pub fetch_context : Resource → Resource → Exec Log Dict
  fetch_context server cluster = do
    trust ← prepare crypto (λ _. pure server) (one_host server.metadata.name)
    written ← request outside (Call.other "write known_hosts" (str trust.0))
    found ← lift (management_address server)
    host ← lift (required_address found)
    address ← lift (ip_address host)
    settings ← lift (stable_settings cluster.spec)
    output ← request outside (
        Call.other "ssh read kubeconfig" (
          object (
            ("address", str address)
            ∷ ("clusterUID", str cluster.metadata.uid)
            ∷ ("serverUID", str server.metadata.uid)
            ∷ ("settings", object settings)
            ∷ [])))
    lift (retrieved output)

  unfoldable pub verified_context : Dict → Resource → Exec Log Dict
  verified_context inventory cluster = do
    refuse_if (is_terminating cluster) (value_error "Cluster is terminating")
    server ← control_plane inventory cluster
    raw ← fetch_context server cluster
    config ← lift (validate_context raw cluster)
    current ← api_get outside "kube-clusters" cluster.metadata.name
    refuse_if (is_changed_cluster current cluster)
        (value_error "Cluster changed during credential retrieval")
    current_server ← api_get outside "servers" server.metadata.name
    changed ← lift (is_changed_server current_server server)
    refuse_if changed (value_error "Control-plane identity changed during credential retrieval")
    pure config

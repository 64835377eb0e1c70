-- ===== src/Operators/Configurations/Targets.antt =====
-- What a Configuration runs on: installed_server, member_inputs and resolve_targets of
-- operators/configurations.py.
use ansible_roles.Prelude.{
  String, Bool, true, false, not, ◌||◌, Option, none, some, List, [], ◌∷◌, map, ◌==◌, string_eq,
}
use ansible_roles.Text.{sort_texts}
use ansible_roles.Result
use ansible_roles.Result.{Error, Result, ok, err, operator_error, key_error}
use ansible_roles.Json.{
  Json, str, obj, end, Dict, object, array, get, get_or, index, insert, truthy, eqb,
}
use ansible_roles.Operators.Effects.{Log, Outside, Exec, pure, lift, ◌>>=◌, ◌>>◌, refuse_if}
use ansible_roles.Operators.Resource.{Resource, json_string}
use ansible_roles.Operators.Reading.{as_dict}
use ansible_roles.Operators.Common.{
  is_terminating, generation, generation_or_zero, management_address, capture_inventory,
  resolved_inventory_hosts,
}
use ansible_roles.Operators.Configurations.{mapping, reference, pinned_reference, fetch_reference}

abbrev pub target_pending : String → Error
target_pending message = operator_error "TargetPending" message

abbrev pub inventory_pending : String → Error
inventory_pending message = operator_error "InventoryPending" message

-- `server['spec'].get('reconciliation', {})` says `paused`.
unfoldable pub is_paused : Resource → Result Bool
is_paused server = elim (truthy (get_or server.spec "reconciliation" (obj end))) [
  | false ↦ ok false
  | true ↦
      Result.◌>>=◌ (mapping server.spec "reconciliation")
        λ reconciliation. ok (truthy (get reconciliation "paused"))
]

-- Not installed, or owned by provisioning, or being deleted.
unfoldable pub is_uninstalled : Resource → Dict → Bool
is_uninstalled server provisioning =
    not (truthy (get provisioning "provisioned"))
    || truthy (get provisioning "activeRunRef")
    || truthy (get provisioning "maintenance")
    || is_terminating server

-- `mapping(fields, 'serverRef').get('uid')` is the Server's.
unfoldable pub names_server : Dict → Resource → Result Bool
names_server fields server =
    Result.◌>>=◌ (mapping fields "serverRef")
      λ owner. ok (eqb (get owner "uid") (str server.metadata.uid))

-- The successful installation of this very Server.
unfoldable pub is_successful_run : Resource → Resource → Result Bool
is_successful_run run server = elim (eqb (get run.status "phase") (str "Succeeded")) [
  | false ↦ ok false
  | true ↦ names_server run.spec server
]

-- Labels or annotations as JSON; `dict(metadata.get(…, {}))`.
unfoldable pub texts_json : Option (List (String × String)) → Json
texts_json none = obj end
texts_json (some items) = object (map (λ item. (item.0, str item.1)) items)

unfoldable pub member_inputs : Resource → Result Json
member_inputs server = Result.◌>>=◌ (mapping server.status "provisioning") λ provisioning.
    Result.◌>>=◌ (mapping server.status "hostSSH") λ host.
      Result.◌>>=◌ (mapping server.status "networking") λ networking. ok (
        object (
          ("uid", str server.metadata.uid)
          ∷ ("generation", generation_or_zero server)
          ∷ ("machineRef", get server.status "machineRef")
          ∷ ("installationRef", get provisioning "lastSuccessfulRunRef")
          ∷ ("labels", texts_json server.metadata.labels)
          ∷ ("annotations", texts_json server.metadata.annotations)
          ∷ ("keyPairRef", get host "keyPairRef")
          ∷ ("management", get networking "management")
          ∷ []))

unfoldable pub observed_reference : Resource → Json
observed_reference value = object (
    ("kind", str value.kind)
    ∷ ("name", str value.metadata.name)
    ∷ ("uid", str value.metadata.uid)
    ∷ ("generation", generation_or_zero value)
    ∷ [])

-- `{'Server': 'servers', 'KubeCluster': 'kube-clusters'}[kind]`
unfoldable pub target_collection : String → Result String
target_collection kind = elim (kind == "Server") [
  | true ↦ ok "servers"
  | false ↦ elim (kind == "KubeCluster") [
    | true ↦ ok "kube-clusters"
    | false ↦ err (key_error kind)
  ]
]

-- What a Configuration resolves to: `hosts` holds the resolved variables of each host.
pub record Targets : Type 0 where
  pub target : Resource
  pub servers : List Resource
  pub group : Resource
  pub hosts : Dict
  pub inventory : Dict

-- `[{'apiVersion': 'homelab.io/v1alpha1', 'kind': 'Server'}]`
abbrev server_only : Json
server_only =
    array (object (("apiVersion", str "homelab.io/v1alpha1") ∷ ("kind", str "Server") ∷ []) ∷ [])

-- The group was replaced or edited while it was captured.
unfoldable pub is_other_capture : Resource → Resource → Bool
is_other_capture captured group =
    not (captured.metadata.uid == group.metadata.uid)
    || not (eqb (generation captured) (generation group))

unfoldable pub no_hosts : Dict → Bool
no_hosts [] = true
no_hosts (_ ∷ _) = false

unfoldable pub dict_names : Dict → List String
dict_names [] = []
dict_names ((name, _) ∷ d) = name ∷ dict_names d

module _ (outside : Outside) where
  unfoldable pub installed_server : Resource → Exec Log (Unit {0})
  installed_server server = do
    provisioning ← lift (mapping server.status "provisioning")
    paused ← lift (is_paused server)
    refuse_if paused (target_pending "Server reconciliation is paused")
    refuse_if (is_uninstalled server provisioning)
        (target_pending "Server needs a verified installed OS without provisioning ownership")
    run_ref ← lift (pinned_reference provisioning "lastSuccessfulRunRef")
    run ← fetch_reference outside "provisioning-runs" run_ref
    succeeded ← lift (is_successful_run run server)
    refuse_if (not succeeded)
        (target_pending "Successful installation does not match Server identity")
    machine_ref ← lift (pinned_reference server.status "machineRef")
    machine ← fetch_reference outside "machines" machine_ref
    reciprocal ← lift (names_server machine.status server)
    refuse_if (not reciprocal) (target_pending "Machine binding is not reciprocal")
    address ← lift (management_address server)
    pure tt

  -- `[fetch_reference(api, 'servers', {'name': name}) for name in names]`
  unfoldable pub fetch_servers : List String → Exec Log (List Resource)
  fetch_servers [] = pure []
  fetch_servers (name ∷ names) = do
    server ← fetch_reference outside "servers" (("name", str name) ∷ [])
    servers ← fetch_servers names
    pure (server ∷ servers)

  -- Every Server is an installed one; its host's variables under its own name.
  unfoldable pub installed_hosts : Dict → Dict → List Resource → Exec Log Dict
  installed_hosts raw_hosts hosts [] = pure hosts
  installed_hosts raw_hosts hosts (server ∷ servers) = do
    installed_server server
    v ← lift (index raw_hosts server.metadata.name)
    variables ← lift (as_dict v)
    installed_hosts raw_hosts (insert server.metadata.name (object variables) hosts) servers

  unfoldable pub resolve_targets : Resource → Exec Log Targets
  resolve_targets configuration = do
    ref ← lift (reference configuration.spec "targetRef")
    kind ← lift (json_string (get ref "kind") "target kind")
    collection ← lift (target_collection kind)
    target ← fetch_reference outside collection ref
    group_ref ← lift (reference configuration.spec "inventoryCaptureGroupRef")
    group ← fetch_reference outside "inventory-capture-groups" group_ref
    refuse_if (truthy (get group.status "omittedResources")) (
        inventory_pending
          "Configuration requires a complete capture; selected resources were omitted")
    selector ← lift (mapping group.spec "selector")
    refuse_if (not (eqb (get selector "matchKinds") server_only))
        (inventory_pending "Configuration requires a Server-only capture group")
    captured ← capture_inventory outside group.metadata.name
    refuse_if (is_other_capture captured.0 group)
        (inventory_pending "Capture group changed during resolution")
    raw_hosts ← resolved_inventory_hosts outside captured.1
    refuse_if (no_hosts raw_hosts) (inventory_pending "Capture group has no managed hosts")
    servers ← fetch_servers (sort_texts (dict_names raw_hosts))
    hosts ← installed_hosts raw_hosts [] servers
    pure (record {
      target = target;
      servers = servers;
      group = group;
      hosts = hosts;
      inventory = captured.1;
    })

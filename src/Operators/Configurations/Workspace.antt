-- ===== src/Operators/Configurations/Workspace.antt =====
-- checkout and prepare_execution of operators/configurations.py: the code of the resolved revision,
-- and the inventory and values that the command is given in its private directory.
use mathlib.Core.Option
use ansible_roles.Prelude.{
  ◌<>◌, String, true, false, not, Option, none, some, List, [], ◌∷◌, ◌++◌, map, ◌==◌, string_eq,
}
use ansible_roles.Result
use ansible_roles.Result.{Result, ok, err}
use ansible_roles.Json.{
  Json, bool, int, str, obj, end, Dict, object, array, get, get_or, index, insert, lookup,
}
use ansible_roles.Operators.Effects.{Call, Log, Exec, pure, lift, ◌>>=◌, ◌>>◌, refuse_if, request}
use ansible_roles.Operators.Resource.{Resource, Metadata, json_object}
use ansible_roles.Operators.Reading.{as_dict}
use ansible_roles.Operators.Api.{api_get}
use ansible_roles.Operators.Common.{management_address, generation_or_zero, update, ssh_args}
use ansible_roles.Operators.Context.{address_json}
use ansible_roles.Operators.Trust.{prepare}
use ansible_roles.Operators.Configurations.{mapping, reference, pinned_reference, fetch_reference}
use ansible_roles.Operators.Configurations.Targets.{texts_json, dict_names}
use ansible_roles.Operators.Configurations.Planning.{Plan, Runner, source_commit}
use ansible_roles.Operators.Configurations.Reports.{inputs_changed}
use ansible_roles.Operators.Configurations.Commands.{Tools}

-- `{name: hosts[name] for name in names}`
unfoldable pub pick_hosts : Dict → List String → Result Dict
pick_hosts hosts [] = ok []
pick_hosts hosts (name ∷ names) =
    Result.◌>>=◌ (index hosts name)
      λ v. Result.◌>>=◌ (pick_hosts hosts names) λ rest. ok ((name, v) ∷ rest)

-- A group's hosts with their resolved variables.
unfoldable pub wire_group : Dict → Json → Result Json
wire_group hosts v = Result.◌>>=◌ (json_object v "inventory group") λ group.
    elim (lookup "hosts" group) [
      | none ↦ ok v
      | some _ ↦ Result.◌>>=◌ (mapping group "hosts") λ own.
          Result.◌>>=◌ (pick_hosts hosts (dict_names own))
            λ picked. ok (object (insert "hosts" (object picked) group))
    ]

unfoldable pub wire_groups : Dict → Dict → Result Dict
wire_groups hosts [] = ok []
wire_groups hosts ((name, v) ∷ groups) =
    Result.◌>>=◌ (wire_group hosts v)
      λ group. Result.◌>>=◌ (wire_groups hosts groups) λ rest. ok ((name, group) ∷ rest)

-- The implicit localhost stays the unprivileged runner.
abbrev runner_defaults : Dict
runner_defaults = ("ansible_connection", str "local") ∷ ("ansible_become", bool false) ∷ []

-- Every occurrence of a host in the inventory has its resolved variables.
unfoldable pub wire_inventory : Dict → Dict → Result Dict
wire_inventory hosts inventory = Result.◌>>=◌ (wire_groups hosts inventory) λ groups.
    Result.◌>>=◌ (json_object (get_or groups "all" (obj end)) "all inventory group") λ all_group.
      Result.◌>>=◌ (json_object (get_or all_group "vars" (obj end)) "all group variables") λ vars.
        ok (
          insert "all"
            (object (
              insert "vars" (object (update vars runner_defaults))
                (insert "hosts" (object hosts) all_group)))
            groups)

unfoldable pub connection_variables : Resource → Json → String → Json → Dict
connection_variables server address ssh_line run_uid =
    ("ansible_host", address)
    ∷ ("ansible_user", str "ansible")
    ∷ ("ansible_connection", str "ssh")
    ∷ ("ansible_become", bool true)
    ∷ ("ansible_ssh_args", str ssh_line)
    ∷ ("ansible_ssh_common_args", str "")
    ∷ ("ansible_ssh_extra_args", str "")
    ∷ ("configuration_server_uid", str server.metadata.uid)
    ∷ ("configuration_run_uid", run_uid)
    ∷ []

unfoldable pub connected_hosts : Tools → Dict → List Resource → Result Dict
connected_hosts tools hosts [] = ok hosts
connected_hosts tools hosts (server ∷ servers) =
    Result.◌>>=◌ (index hosts server.metadata.name) λ v. Result.◌>>=◌ (as_dict v) λ variables.
      Result.◌>>=◌ (management_address server) λ address.
        Result.◌>>=◌
          (ssh_args server (tools.directory <> "/known_hosts") "yes" tools.certificate_file
            tools.private_key_file)
          λ arguments. Result.◌>>=◌ (mapping server.status "provisioning") λ provisioning.
            Result.◌>>=◌ (pinned_reference provisioning "lastSuccessfulRunRef") λ run_ref.
              connected_hosts tools
                (insert server.metadata.name
                  (object (
                    update variables (
                      connection_variables server (address_json address) (tools.join arguments)
                        (get run_ref "uid"))))
                  hosts)
                servers

unfoldable pub node_values : Resource → Json
node_values server = object (
    ("name", str server.metadata.name)
    ∷ ("uid", str server.metadata.uid)
    ∷ ("labels", texts_json server.metadata.labels)
    ∷ ("annotations", texts_json server.metadata.annotations)
    ∷ [])

unfoldable pub optional_field : String → Option Json → Dict
optional_field name none = []
optional_field name (some v) = (name, v) ∷ []

-- The metadata as the API returned it.
unfoldable pub metadata_json : Metadata → Json
metadata_json m = object (
    (("name", str m.name) ∷ ("uid", str m.uid) ∷ ("resourceVersion", str m.resource_version) ∷ [])
    ++ (optional_field "generation" (Option.map (λ n. int n) m.generation)
        ++ (optional_field "deletionTimestamp" (Option.map (λ s. str s) m.deletion_timestamp)
            ++ (optional_field "annotations" (Option.map (λ d. texts_json (some d)) m.annotations)
                ++ (optional_field "labels" (Option.map (λ d. texts_json (some d)) m.labels)
                    ++ (optional_field "creationTimestamp"
                          (Option.map (λ s. str s) m.creation_timestamp)
                        ++ optional_field "finalizers"
                            (Option.map (λ l. array (map (λ s. str s) l)) m.finalizers)))))))

-- values.json
unfoldable pub command_values : Plan → String → Dict
command_values resolved directory =
    ("configuration_values", get_or resolved.configuration.spec "values" (obj end))
    ∷ ("configuration_workspace", str directory)
    ∷ ("configuration_source_revision", str resolved.source_revision)
    ∷ (
      "configuration_ref",
      object (
          ("name", str resolved.configuration.metadata.name)
          ∷ ("uid", str resolved.configuration.metadata.uid)
          ∷ []),
    )
    ∷ ("configuration_generation", generation_or_zero resolved.configuration)
    ∷ ("configuration_input_revision", str resolved.input_revision)
    ∷ ("configuration_observed", get_or resolved.configuration.status "outputs" (obj end))
    ∷ (
      "configuration_target",
      object (
          ("kind", str resolved.target.kind)
          ∷ ("metadata", metadata_json resolved.target.metadata)
          ∷ ("spec", object resolved.target.spec)
          ∷ []),
    )
    ∷ ("configuration_nodes", array (map node_values resolved.servers))
    ∷ []

module _ (runner : Runner) where
  unfoldable pub checkout : Resource → String → Exec Log (Unit {0})
  checkout configuration expected_commit = do
    source_spec ← lift (mapping configuration.spec "source")
    ref ← lift (reference source_spec "repositoryRef")
    repository ← fetch_reference runner.outside "git-repositories" ref
    revision ← source_commit runner.outside repository source_spec
    refuse_if (not (revision == expected_commit))
        (inputs_changed "Configuration source changed before checkout")
    archive ← request runner.outside (Call.other "git archive" (str revision))
    made ← request runner.outside (Call.other "mkdir" (str "code"))
    extracted ← request runner.outside (Call.other "extract" archive)
    pure tt

module _ (runner : Runner) (tools : Tools) where
  unfoldable pub prepare_execution : Plan → Exec Log (Unit {0})
  prepare_execution resolved = do
    wired ← lift (wire_inventory resolved.hosts resolved.inventory)
    trust ← prepare tools.crypto (λ name. api_get runner.outside "servers" name) wired
    known ← request runner.outside (Call.other "write known_hosts" (str trust.0))
    hosts ← lift (connected_hosts tools resolved.hosts resolved.servers)
    inventory ← lift (wire_inventory hosts resolved.inventory)
    written ← request runner.outside (Call.other "write inventory.json" (object inventory))
    passed ←
        request runner.outside
          (Call.other "write values.json" (object (command_values resolved tools.directory)))
    pure tt

-- ===== src/Operators/Configurations/Runs.antt =====
-- Runs of the Configuration runner against a small world, and the theorems at these runs.
use ansible_roles.Operators.Common.Keys.{
  strip_equals, fingerprint, drop, take, same_bytes, is_ed25519, is_space, pieces, nonempty, words,
  public_key_fields, public_key,
}
use ansible_roles.Operators.Reading.{as_dict, get_path}
use ansible_roles.Operators.Common.{
  is_uid, alias, is_terminating, host_names, is_conflicting, add_hosts, add_groups, inventory_hosts,
}
use ansible_roles.Text.{has_code, insert_text, sort_texts}
use ansible_roles.Prelude.{
  ◌≡◌, refl, inl, ◌⊎◌, ◌↔◌, String, Bool, true, false, none, some, List, [], ◌∷◌, ◌==◌, string_eq,
  In, All, ◌≤◌, length, if◌then◌else◌, any,
}
use ansible_roles.Result.{Error, Result, ok, err, http_error}
use ansible_roles.Json.{eqb, Json, null, bool, int, pos, str, Dict, object, array, get}
use ansible_roles.Operators.Effects.{
  pure, refuse_if, request, lift, ◌>>=◌, Call, Event, Log, Outside,
}
use ansible_roles.Operators.Effects.Triple.{After, Anything}
use ansible_roles.Operators.Resource.{
  json_integer, optional, metadata_of, resource, json_string, json_object, Metadata, Resource,
}
use ansible_roles.Operators.Configurations.{
  command_argument, mapping, argument_list, command_argv, dependency_list, dependencies,
}
use ansible_roles.Operators.Configurations.Order.{
  visit_all, entry, enter, visit, index_from, visit_each, walk, dependency_order,
}
use ansible_roles.Operators.Configurations.Order.Indexed.{names}
use ansible_roles.Operators.Configurations.Order.Spec.{Ordered, Given}
use ansible_roles.Operators.Configurations.Order.Laid.{dependency_order-Ordered}
use ansible_roles.Operators.Configurations.Order.Cycles.{
  IsReadable, one, Cycle, dependency_order-Cycle,
}
use ansible_roles.Operators.Configurations.Order.Total.{Refused, dependency_order-Total}
use ansible_roles.Operators.Configurations.Planning.{Plan, Runner}
use ansible_roles.Operators.Configurations.Commands.{Tools}
use ansible_roles.Operators.Configurations.Execution.{execute}
use ansible_roles.Operators.Configurations.Trace.{runs, complete, Tried}
use ansible_roles.Operators.Configurations.Trace.Executes.{execute-Runs}
use ansible_roles.Operators.Configurations.Published.{Addressed, publish_target_status-Addressed}
use ansible_roles.Operators.Configurations.Reports.{publish_target_status}
use ansible_roles.Operators.Api.{decode, api_get}
use ansible_roles.Operators.Trust.{
  qualify_group, qualify, has_fingerprint, key_text, has_verified_key, reserved_phases, is_reserved,
  trusted_entry, prepare_each, prepare,
}
use ansible_roles.Operators.Trust.Verified.{Trusts, prepare-IsTrusted}
use ansible_roles.Operators.Configurations.Argv.{IsArgument, Holds, command_argv-IsArgument}

abbrev metadata : String → Metadata
metadata name = record {
  name = name;
  uid = "u";
  resource_version = "1";
  generation = some (pos 1);
  deletion_timestamp = none;
  annotations = none;
  labels = none;
  creation_timestamp = none;
  finalizers = none;
}

abbrev thing : String → String → Dict → Dict → Resource
thing kind name spec status = record {
  kind = kind;
  api_version = none;
  metadata = metadata name;
  spec = spec;
  status = status;
}

abbrev answer : Resource → Result Json
answer r = ok (
    object (
      ("kind", str r.kind)
      ∷ (
        "metadata",
        object (
            ("name", str r.metadata.name)
            ∷ ("uid", str r.metadata.uid)
            ∷ ("resourceVersion", str r.metadata.resource_version)
            ∷ ("generation", int (pos 1))
            ∷ []),
      )
      ∷ ("spec", object r.spec)
      ∷ ("status", object r.status)
      ∷ []))

abbrev named : String → Json
named name = object (("name", str name) ∷ [])

abbrev pinned : String → Json
pinned name = object (("name", str name) ∷ ("uid", str "u") ∷ [])

-- Two Configurations; the first depends on the second.
abbrev configuration : String → List Json → Resource
configuration name needs =
    thing "Configuration" name
      (("dependsOn", array needs)
        ∷ ("command", object (("argv", array (str "true" ∷ [])) ∷ []))
        ∷ ("source", object (("repositoryRef", named "code") ∷ []))
        ∷ ("targetRef", object (("kind", str "Server") ∷ ("name", str "node") ∷ []))
        ∷ ("inventoryCaptureGroupRef", named "group")
        ∷ [])
      []

abbrev first : Resource
first = configuration "a" (named "b" ∷ [])

abbrev second : Resource
second = configuration "b" []

order_test : dependency_order (first ∷ second ∷ []) ≡ ok (second ∷ first ∷ [])
unfolding dependency_order walk visit_each sort_texts index_from insert_text visit enter entry
    dependencies dependency_list json_object visit_all json_string
order_test = refl

reads_test : dependencies first ≡ ok ((("name", str "b") ∷ []) ∷ [])
unfolding dependencies dependency_list json_object
reads_test = refl

dependency_order-Ordered_example :
    Ordered (names (first ∷ second ∷ [])) [] (second ∷ first ∷ [])
    × All (Given (first ∷ second ∷ [])) (second ∷ first ∷ [])
    × ((name : String)
        → In name (names (first ∷ second ∷ [])) ↔ In name (names (second ∷ first ∷ [])))
dependency_order-Ordered_example =
    dependency_order-Ordered (first ∷ second ∷ []) (second ∷ first ∷ []) order_test

two-IsReadable : All IsReadable (first ∷ second ∷ [])
unfolding dependencies dependency_list json_object json_string
two-IsReadable = (((("name", str "b") ∷ []) ∷ [], refl, (("b", refl), tt)), (([], refl, tt), tt))

dependency_order-Total_example :
    ((ordered : List Resource) × (dependency_order (first ∷ second ∷ []) ≡ ok ordered))
    ⊎ ((e : Error) × (dependency_order (first ∷ second ∷ []) ≡ err e)
        × Refused (first ∷ second ∷ []) e)
dependency_order-Total_example = dependency_order-Total (first ∷ second ∷ []) two-IsReadable

-- A Configuration that depends on itself.
abbrev knot : Resource
knot = configuration "a" (named "a" ∷ [])

knot-Cycle : Cycle (knot ∷ [])
unfolding dependencies index_from dependency_list json_object json_string
knot-Cycle = (
  "a",
  one {a = "a"} {b = "a"} (record {
    owner = knot;
    found = refl;
    refs = (("name", str "a") ∷ []) ∷ [];
    reads = refl;
    ref = ("name", str "a") ∷ [];
    among = inl refl;
    names_it = refl;
    given = refl;
  }),
)

dependency_order-Cycle_example : ¬ (dependency_order (knot ∷ []) ≡ ok (knot ∷ []))
dependency_order-Cycle_example = dependency_order-Cycle (knot ∷ []) (knot ∷ []) knot-Cycle

abbrev group : Resource
group =
    thing "InventoryCaptureGroup" "group"
      ((
        "selector",
        object (
            (
              "matchKinds",
              array (
                  object (("apiVersion", str "homelab.io/v1alpha1") ∷ ("kind", str "Server") ∷ [])
                  ∷ []),
            )
            ∷ []),
      )
        ∷ [])
      (("observedGeneration", int (pos 1))
        ∷ (
          "inventory",
          object (("all", object (("hosts", object (("node", object []) ∷ [])) ∷ [])) ∷ []),
        )
        ∷ [])

abbrev server_status : Dict
server_status =
    (
      "provisioning",
      object (("provisioned", bool true) ∷ ("lastSuccessfulRunRef", pinned "run") ∷ []),
    )
    ∷ ("machineRef", pinned "machine")
    ∷ ("networking", object [])
    ∷ (
      "hostSSH",
      object (
          ("keyReady", bool true)
          ∷ ("phase", str "Ready")
          ∷ ("keyPairRef", named "pair")
          ∷ ("installedKeyPairRef", named "pair")
          ∷ ("publicKey", str "ssh-ed25519 key")
          ∷ ("fingerprint", str "SHA256:print")
          ∷ ("installedFingerprint", str "SHA256:print")
          ∷ []),
    )
    ∷ []

abbrev is_create : Event → Bool
is_create e = elim e.call [ Call.create collection kind name spec ↦ true | _ ↦ false ]

-- The Server is claimed once the Operation is created.
abbrev node : Log → Resource
node log = thing "Server" "node" [] (
    if any is_create log
    then ("operationRef", pinned "operation-1") ∷ server_status
    else server_status)

abbrev server_ref : Json
server_ref = object (("kind", str "Server") ∷ ("name", str "node") ∷ ("uid", str "u") ∷ [])

abbrev read : Log → String → Result Json
read log collection =
    if collection == "servers"
    then answer (node log)
    else (if collection == "operations"
        then answer (
            thing "Operation" "operation-1"
              (("targetRef", server_ref)
                ∷ ("action", str "configure")
                ∷ ("operator", str "configurations")
                ∷ (
                  "requestedBy",
                  object
                      (("kind", str "Configuration") ∷ ("name", str "b") ∷ ("uid", str "u") ∷ []),
                )
                ∷ [])
              (("phase", str "Running") ∷ []))
        else (if collection == "configurations"
            then answer second
            else (if collection == "inventory-capture-groups"
                then answer group
                else (if collection == "git-repositories"
                    then answer (thing "GitRepository" "code" (("url", str "url") ∷ []) [])
                    else (if collection == "provisioning-runs"
                        then answer (
                            thing "ProvisioningRun" "run" (("serverRef", pinned "node") ∷ [])
                              (("phase", str "Succeeded") ∷ []))
                        else (if collection == "machines"
                            then answer
                                (thing "Machine" "machine" [] (("serverRef", pinned "node") ∷ []))
                            else err (http_error 404)))))))

abbrev other_call : String → Json → Result Json
other_call name v =
    if name == "uuid4"
    then ok (str "1")
    else (if name == "ansible-inventory"
        then ok
            (object (("_meta", object (("hostvars", object (("node", object []) ∷ [])) ∷ [])) ∷ []))
        else (if name == "git remote get-url"
            then ok (str "url")
            else (if name == "git rev-parse"
                then ok (str "commit")
                else (if name == "guard"
                    then ok (int (pos 0))
                    else (if name == "command" then ok (int (pos 0)) else ok null)))))

abbrev world : Outside
world log call = elim call [
  | Call.get collection name ↦ read log collection
  | Call.create collection kind name spec ↦ read log collection
  | Call.patch collection name uid version fields ↦ read log collection
  | Call.other name v ↦ other_call name v
  | _ ↦ err (http_error 404)
]

abbrev runner : Runner
runner = record { outside = world; depth = 3; digest = λ v. "digest"; build_url = "" }

abbrev tools : Tools
tools = record {
  crypto = record {
    decode64 = λ s. ok (
        0 ∷ 0 ∷ 0 ∷ 11 ∷ 115 ∷ 115 ∷ 104 ∷ 45 ∷ 101 ∷ 100 ∷ 50 ∷ 53 ∷ 53 ∷ 49 ∷ 57 ∷ 0 ∷ 0 ∷ 0 ∷ 32
        ∷ 1 ∷ 2 ∷ 3 ∷ 4 ∷ 5 ∷ 6 ∷ 7 ∷ 8 ∷ 9 ∷ 10 ∷ 11 ∷ 12 ∷ 13 ∷ 14 ∷ 15 ∷ 16 ∷ 17 ∷ 18 ∷ 19 ∷ 20
        ∷ 21 ∷ 22 ∷ 23 ∷ 24 ∷ 25 ∷ 26 ∷ 27 ∷ 28 ∷ 29 ∷ 30 ∷ 31 ∷ 32 ∷ []);
    encode64 = λ xs. "print=";
    sha256 = λ xs. xs;
  };
  ip_address = λ s. ok s;
  join = λ ss. "ssh";
  certificate_file = "certificate";
  private_key_file = "key";
  directory = "run";
  search_path = "/usr/bin";
}

abbrev resolved : Plan
resolved = record {
  configuration = second;
  target = node [];
  servers = node [] ∷ [];
  hosts = ("node", object []) ∷ [];
  input_revision = "sha256:digest";
  source_revision = "commit";
  resolved_references = [];
  inventory = ("all", object (("hosts", object (("node", object []) ∷ [])) ∷ [])) ∷ [];
  kube_cluster = none;
}

execute-Runs_example :
    After
      (λ _ after. runs after ≡ complete (runs []))
      (λ after. Tried (runs []) (runs after))
      (execute runner tools resolved [])
execute-Runs_example = execute-Runs runner tools resolved []

abbrev argv : List String
argv = "true" ∷ []

argv_test : command_argv second ≡ ok argv
unfolding command_argv mapping json_object argument_list command_argument has_code
argv_test = refl

command_argv-IsArgument_example :
    (1 ≤ length argv)
    × (length argv ≤ 256)
    × All IsArgument argv
    × ((command : Dict) × (values : List Json) × (mapping second.spec "command" ≡ ok command)
        × (argument_list (get command "argv") ≡ ok values)
        × Holds values argv)
command_argv-IsArgument_example = command_argv-IsArgument second argv argv_test

publish_target_status-Addressed_example :
    Addressed "u" [] 5 (publish_target_status world resolved (("phase", str "Ready") ∷ []) []).1
publish_target_status-Addressed_example =
    publish_target_status-Addressed world resolved (("phase", str "Ready") ∷ []) []

-- In this world prepare returns, so that the example is about a line.
abbrev returns : {A : Type 0} → Result A → Bool
returns (ok a) = true
returns (err e) = false

prepare-returns :
    returns (prepare tools.crypto (λ name. api_get world "servers" name) resolved.inventory []).0
    ≡ true
unfolding prepare ◌>>=◌ lift inventory_hosts add_groups get_path as_dict add_hosts is_conflicting
    prepare_each host_names trusted_entry api_get request decode json_object resource metadata_of
    json_string optional json_integer refuse_if is_terminating is_reserved reserved_phases eqb
    has_verified_key key_text public_key public_key_fields words nonempty pieces is_space is_ed25519
    same_bytes take drop fingerprint has_fingerprint strip_equals alias is_uid pure qualify
    qualify_group
prepare-returns = refl

prepare-IsTrusted_example :
    After
      (λ trust after.
        Trusts tools.crypto
          (λ name. api_get world "servers" name)
          resolved.inventory
          trust.0
          []
          after)
      Anything
      (prepare tools.crypto (λ name. api_get world "servers" name) resolved.inventory [])
prepare-IsTrusted_example =
    prepare-IsTrusted tools.crypto (λ name. api_get world "servers" name) resolved.inventory []

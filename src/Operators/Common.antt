-- ===== src/Operators/Common.antt =====
-- operators/common.py: host keys, the names that SSH trust is bound to, and captured inventories.
-- Ansible's own resolution of an inventory and the cryptography are the outside's.
pub mod Keys
use ansible_roles.Prelude.{
  ◌<>◌, String, Bool, true, false, not, ◌&&◌, ◌||◌, Option, none, some, List, [], ◌∷◌, all, leb,
  ◌==◌, nat_eq, string_eq, if◌then◌else◌,
}
use ansible_roles.Text.{codes}
use ansible_roles.Result
use ansible_roles.Result.{Error, Result, ok, err, runtime_error, key_error, raise_if}
use ansible_roles.Json.{
  Json, ℤ, null, int, str, obj, end, Dict, object, get, get_or, index, lookup, insert, subscript,
  truthy, eqb,
}
use ansible_roles.Operators.Effects.{
  Call, Log, Outside, Exec, pure, lift, ◌>>=◌, ◌>>◌, refuse_if, request,
}
use ansible_roles.Operators.Resource.{Resource, json_object, json_string}
use ansible_roles.Operators.Reading.{as_dict, get_path}
use ansible_roles.Operators.Api.{api_get}

-- A resource that is being deleted.
unfoldable pub is_terminating : Resource → Bool
is_terminating r = elim r.metadata.deletion_timestamp [ none ↦ false | some t ↦ truthy (str t) ]

-- `metadata.get('generation')`, and with a default of 0
unfoldable pub generation : Resource → Json
generation r = elim r.metadata.generation [ none ↦ null | some n ↦ int n ]

unfoldable pub generation_or_zero : Resource → Json
generation_or_zero r = elim r.metadata.generation [ none ↦ int (ℤ.pos 0) | some n ↦ int n ]

-- `re.fullmatch(r"[A-Za-z0-9-]+", uid)`
unfoldable pub is_uid : String → Bool
is_uid s =
    not (s == "")
    && all (λ c. leb 65 c && leb c 90 || leb 97 c && leb c 122 || leb 48 c && leb c 57 || c == 45)
        (codes s)

unfoldable pub alias : Resource → Result String
alias server =
    if is_uid server.metadata.uid
    then ok ("server-" <> server.metadata.uid)
    else err (runtime_error "Invalid Server UID")

-- Strict options for exactly one Server; the two files are of the environment.
unfoldable pub ssh_args : Resource → String → String → String → String → Result (List String)
ssh_args server known_hosts checking certificate_file private_key_file =
    Result.◌>>=◌ (alias server) λ qualified. ok (
      "-o"
      ∷ "BatchMode=yes"
      ∷ "-o"
      ∷ "ConnectTimeout=15"
      ∷ "-o"
      ∷ "ConnectionAttempts=1"
      ∷ "-o"
      ∷ "IdentitiesOnly=yes"
      ∷ "-o"
      ∷ "IdentityAgent=none"
      ∷ "-o"
      ∷ "ForwardAgent=no"
      ∷ "-o"
      ∷ "UpdateHostKeys=no"
      ∷ "-o"
      ∷ "HashKnownHosts=no"
      ∷ "-o"
      ∷ "HostKeyAlgorithms=ssh-ed25519"
      ∷ "-o"
      ∷ "GlobalKnownHostsFile=/dev/null"
      ∷ "-o"
      ∷ ("StrictHostKeyChecking=" <> checking)
      ∷ "-o"
      ∷ ("UserKnownHostsFile=" <> known_hosts)
      ∷ "-o"
      ∷ ("HostKeyAlias=" <> qualified)
      ∷ "-o"
      ∷ ("CertificateFile=" <> certificate_file)
      ∷ "-i"
      ∷ private_key_file
      ∷ [])

unfoldable pub management_address : Resource → Result (Option String)
management_address server =
    Result.◌>>=◌ (json_object (get_or server.status "networking" (obj end)) "networking")
      λ networking.
        Result.◌>>=◌ (json_object (get_or networking "management" (obj end)) "management")
          λ management.
            Result.◌>>=◌ (json_object (get_or management "address" (obj end)) "management address")
              λ endpoint. optional_text (get endpoint "address")
  where
    optional_text : Json → Result (Option String)
    optional_text null = ok none
    optional_text v = Result.◌>>=◌ (json_string v "management IP") λ s. ok (some s)

-- Raw host variables by host.
abbrev pub Hosts : Type 0
Hosts = List (String × Dict)

-- `result.update(variables)`
unfoldable pub update : Dict → Dict → Dict
update d [] = d
update d ((k, v) ∷ more) = update (insert k v d) more

-- The two groups that name a host disagree on its address.
unfoldable pub is_conflicting : Hosts → String → Dict → Bool
is_conflicting known name variables = elim (lookup name known) [
  | none ↦ false
  | some d ↦ not (eqb (get d "ansible_host") (get variables "ansible_host"))
]

unfoldable pub variables_of : Hosts → String → Dict
variables_of known name = elim (lookup name known) [ none ↦ [] | some d ↦ d ]

-- Variables that are no dictionary have no `.get`.
unfoldable pub add_hosts : Hosts → Dict → Result Hosts
add_hosts known [] = ok known
add_hosts known ((name, v) ∷ more) = Result.◌>>=◌ (as_dict v) λ variables.
    Result.◌>>=◌
      (raise_if (is_conflicting known name variables)
        (runtime_error "Conflicting inventory addresses"))
      λ _. add_hosts (insert name (update (variables_of known name) variables) known) more

unfoldable pub add_groups : Hosts → Dict → Result Hosts
add_groups known [] = ok known
add_groups known ((_, group) ∷ groups) =
    Result.◌>>=◌ (get_path group ("hosts" ∷ []))
      λ hosts. Result.◌>>=◌ (add_hosts known hosts) λ more. add_groups more groups

unfoldable pub inventory_hosts : Dict → Result Hosts
inventory_hosts inventory = add_groups [] inventory

unfoldable pub host_names : Hosts → List String
host_names [] = []
host_names ((name, _) ∷ hosts) = name ∷ host_names hosts

-- `{name: resolved[name] for name in names}`
unfoldable pub select_hosts : Json → List String → Result Dict
select_hosts resolved [] = ok []
select_hosts resolved (name ∷ more) =
    Result.◌>>=◌ (subscript resolved name)
      λ v. Result.◌>>=◌ (select_hosts resolved more) λ d. ok ((name, v) ∷ d)

module _ (outside : Outside) where
  -- `ansible-inventory --list` answers with the JSON that it prints.
  unfoldable pub resolved_inventory_hosts : Dict → Exec Log Dict
  resolved_inventory_hosts inventory = do
    output ← request outside (Call.other "ansible-inventory" (object inventory))
    meta ← lift (subscript output "_meta")
    resolved ← lift (subscript meta "hostvars")
    names ← lift (inventory_hosts inventory)
    lift (select_hosts resolved (host_names names))

  unfoldable pub capture_inventory : String → Exec Log (Resource × Dict)
  capture_inventory group_name = do
    group ← api_get outside "inventory-capture-groups" group_name
    refuse_if (is_terminating group) (runtime_error "Inventory capture group is terminating")
    desired ← lift (elim group.metadata.generation [
      | none ↦ err (key_error "generation")
      | some n ↦ ok (int n)
    ])
    refuse_if (not (eqb (get group.status "observedGeneration") desired))
        (runtime_error "Inventory capture group has not reconciled its current generation")
    inventory ← lift (dictionary (get group.status "inventory"))
    pure (group, inventory)
    where
      dictionary : Json → Result Dict
      dictionary v = elim (as_dict v) [
        | ok d ↦ ok d
        | err e ↦ err (runtime_error "Inventory capture group has no resolved inventory")
      ]

-- ===== src/Operators/Configurations/Quiet.antt =====
-- A condition on the log that the calls of the API and of the quiet kind leave true stays true in
-- the steps around a Configuration's command.
pub mod Around
use ansible_roles.Prelude.{
  ℕ, zero, suc, ◌≡◌, refl, ◌<>◌, String, Bool, true, false, Option, none, some, List, [], ◌∷◌,
  member, string_eq, if◌then◌else◌,
}
use ansible_roles.Result.{Error, Result, err}
use ansible_roles.Json.{Json, null, Dict}
use ansible_roles.Operators.Effects.{
  Call, Log, Outside, Exec, choose, given, ◌>>=◌, lift, pure, request,
}
use ansible_roles.Operators.Effects.Keeps.{
  Keeps, Keeps-request, Keeps-bind, Keeps-catch, Keeps-choose, Keeps-given, Tolerates, keeps_rules,
}
use ansible_roles.Operators.Resource.{Resource}
use ansible_roles.Operators.Api.{api_get, api_list, patch_status, api_create}
use ansible_roles.Operators.Operation.{
  complete_rounds, complete_operation, is_conflict, verify_operation, operation_progress,
  create_operation, claimed_target,
}
use ansible_roles.Operators.Common.{capture_inventory, resolved_inventory_hosts}
use ansible_roles.Operators.Common.Keys.{Crypto}
use ansible_roles.Operators.Trust.{trusted_entry, prepare_each, prepare}
use ansible_roles.Operators.Context.{
  candidate_servers, control_plane, fetch_context, verified_context,
}
use ansible_roles.Operators.Context.Client.{install_kubectl}
use ansible_roles.Operators.Configurations.{fetch_reference}
use ansible_roles.Operators.Configurations.Targets.{
  installed_server, fetch_servers, installed_hosts, resolve_targets,
}
use ansible_roles.Operators.Configurations.Planning.{
  Plan, Runner, first_commit, source_commit, fetch_each, context_cluster, prerequisite_rounds,
  prerequisite_inputs, plan_inside, plan_depth, plan, parsed_commit, is_verified,
}

-- The calls that run something on the managed hosts.
abbrev pub loud : List String
loud = "guard" ∷ "command" ∷ []

pub record Quiet (P : Log → Type 0) : Type 0 where
  pub get : (collection name : String) → Tolerates P (Call.get collection name)
  pub list : (collection : String) → Tolerates P (Call.list collection)
  pub create :
      (collection kind name : String) (spec : Dict)
      → Tolerates P (Call.create collection kind name spec)
  pub patch :
      (collection name uid version : String) (fields : Dict)
      → Tolerates P (Call.patch collection name uid version fields)
  pub other :
      (name : String) (v : Json) → member name loud ≡ false → Tolerates P (Call.other name v)

module _ (outside : Outside) {P : Log → Type 0} (q : Quiet P) where
  pub other-Keeps :
      (name : String) (v : Json)
      → member name loud ≡ false
      → Keeps P (request outside (Call.other name v))
  other-Keeps name v h = Keeps-request outside _ (q.other name v h)

  pub get-Keeps : (collection name : String) → Keeps P (api_get outside collection name)
  unfolding api_get
  get-Keeps collection name = search (keeps_rules, Keeps-request, q.get) depth 20

  pub list-Keeps : (collection : String) → Keeps P (api_list outside collection)
  unfolding api_list
  list-Keeps collection = search (keeps_rules, Keeps-request, q.list) depth 20

  pub patch-Keeps :
      (target : Resource) (fields : Dict) → Keeps P (patch_status outside target fields)
  unfolding patch_status
  patch-Keeps target fields = search (keeps_rules, Keeps-request, q.patch) depth 20

  pub create-Keeps :
      (collection kind name : String) (spec : Dict)
      → Keeps P (api_create outside collection kind name spec)
  unfolding api_create
  create-Keeps collection kind name spec = search (keeps_rules, Keeps-request, q.create) depth 20

  pub reference-Keeps :
      (collection : String) (ref : Dict) → Keeps P (fetch_reference outside collection ref)
  unfolding fetch_reference
  reference-Keeps collection ref = search (keeps_rules, get-Keeps) depth 20

  pub verify-Keeps : (target : Resource) → Keeps P (verify_operation outside target)
  unfolding verify_operation
  verify-Keeps target = search (keeps_rules, get-Keeps) depth 30

  pub progress-Keeps :
      (target : Resource) (step : String) → Keeps P (operation_progress outside target step)
  unfolding operation_progress
  progress-Keeps target step = search (keeps_rules, verify-Keeps, patch-Keeps) depth 20

  pub captured-Keeps : (group : String) → Keeps P (capture_inventory outside group)
  unfolding capture_inventory
  captured-Keeps group = search (keeps_rules, get-Keeps) depth 30

  pub hosts-Keeps : (inventory : Dict) → Keeps P (resolved_inventory_hosts outside inventory)
  unfolding resolved_inventory_hosts
  hosts-Keeps inventory =
      Keeps-bind _ _ (other-Keeps "ansible-inventory" _ refl) (λ v. search keeps_rules depth 20)

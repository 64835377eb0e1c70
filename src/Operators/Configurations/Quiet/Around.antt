-- ===== src/Operators/Configurations/Quiet/Around.antt =====
-- The steps that resolve, prepare and report a Configuration keep what its quiet calls leave true.
use ansible_roles.Prelude.{
  ℕ, zero, suc, ◌≡◌, refl, ◌<>◌, String, Bool, true, false, Option, none, some, List, [], ◌∷◌,
  member, string_eq, if◌then◌else◌,
}
use ansible_roles.Result.{Error, Result}
use ansible_roles.Json.{Json, Dict}
use ansible_roles.Operators.Effects.{Log, Outside, Exec, raise}
use ansible_roles.Operators.Effects.Keeps.{
  Keeps, Keeps-request, Keeps-bind, Keeps-catch, Keeps-choose, Keeps-given, Tolerates, keeps_rules,
}
use ansible_roles.Operators.Resource.{Resource}
use ansible_roles.Operators.Operation.{
  complete_rounds, complete_operation, is_conflict, create_operation, claimed_target,
}
use ansible_roles.Operators.Common.Keys.{Crypto}
use ansible_roles.Operators.Trust.{trusted_entry, prepare_each, prepare}
use ansible_roles.Operators.Context.{
  candidate_servers, control_plane, fetch_context, verified_context,
}
use ansible_roles.Operators.Context.Client.{install_kubectl}
use ansible_roles.Operators.Configurations.Targets.{
  installed_server, fetch_servers, installed_hosts, resolve_targets,
}
use ansible_roles.Operators.Configurations.Planning.{
  Plan, Runner, first_commit, source_commit, fetch_each, context_cluster, prerequisite_rounds,
  prerequisite_inputs, plan_inside, plan_depth, plan,
}
use ansible_roles.Operators.Configurations.Reports.{
  read_public_result, publish_rounds, publish_target_status, verify_claims, verified_fields, report,
  require_same_inputs, publish_observations,
}
use ansible_roles.Operators.Configurations.Commands.{
  Tools, kubernetes_environment, progress_each, enter_stage, refresh_claim_target,
}
use ansible_roles.Operators.Configurations.Workspace.{checkout, prepare_execution}
use ansible_roles.Operators.Configurations.Quiet.{
  Quiet, other-Keeps, get-Keeps, list-Keeps, patch-Keeps, create-Keeps, reference-Keeps,
  verify-Keeps, progress-Keeps, captured-Keeps, hosts-Keeps,
}

pub ruleset call_rules = (
  keeps_rules, refl, other-Keeps, get-Keeps, list-Keeps, patch-Keeps, create-Keeps, reference-Keeps,
  verify-Keeps, progress-Keeps, captured-Keeps, hosts-Keeps,
)

module _ (outside : Outside) {P : Log → Type 0} (q : Quiet P) where
  installed-Keeps : (server : Resource) → Keeps P (installed_server outside server)
  unfolding installed_server
  installed-Keeps server = search call_rules depth 60

  servers-Keeps : (names : List String) → Keeps P (fetch_servers outside names)
  unfolding fetch_servers
  servers-Keeps [] = search keeps_rules
  servers-Keeps (name ∷ names) =
      search (call_rules, (λ (_ : Unit {0}). servers-Keeps names)) depth 20

  installed_hosts-Keeps :
      (servers : List Resource) (raw hosts : Dict)
      → Keeps P (installed_hosts outside raw hosts servers)
  unfolding installed_hosts
  installed_hosts-Keeps [] raw hosts = search keeps_rules
  installed_hosts-Keeps (server ∷ servers) raw hosts =
      search (call_rules, installed-Keeps, installed_hosts-Keeps servers) depth 20

  targets-Keeps : (c : Resource) → Keeps P (resolve_targets outside c)
  unfolding resolve_targets
  targets-Keeps c = search (call_rules, servers-Keeps, installed_hosts-Keeps) depth 80

  commit-Keeps : (names : List String) → Keeps P (first_commit outside names)
  unfolding first_commit
  commit-Keeps [] = search keeps_rules
  commit-Keeps (name ∷ names) = search (call_rules, (λ (_ : Unit {0}). commit-Keeps names)) depth 20

  source-Keeps : (r : Resource) (spec : Dict) → Keeps P (source_commit outside r spec)
  unfolding source_commit
  source-Keeps r spec = search (call_rules, commit-Keeps) depth 20

  each-Keeps :
      (collection : String) (refs : List Dict) → Keeps P (fetch_each outside collection refs)
  unfolding fetch_each
  each-Keeps collection [] = search keeps_rules
  each-Keeps collection (ref ∷ refs) =
      search (call_rules, (λ (_ : Unit {0}). each-Keeps collection refs)) depth 20

  cluster-Keeps : (context : Dict) → Keeps P (context_cluster outside context)
  unfolding context_cluster
  cluster-Keeps context = search call_rules depth 20

  rounds-Keeps :
      (refs : List Dict) (resolve : Resource → Exec Log Plan) (d : Dict)
      → ((c : Resource) → Keeps P (resolve c))
      → Keeps P (prerequisite_rounds outside resolve refs d)
  unfolding prerequisite_rounds
  rounds-Keeps [] resolve d k = search keeps_rules
  rounds-Keeps (ref ∷ refs) resolve d k = search (call_rules, k, rounds-Keeps refs) depth 30

  inputs-Keeps :
      (resolve : Resource → Exec Log Plan) (c : Resource)
      → ((c : Resource) → Keeps P (resolve c))
      → Keeps P (prerequisite_inputs outside resolve c)
  unfolding prerequisite_inputs
  inputs-Keeps resolve c k = search (call_rules, rounds-Keeps, k) depth 20

  entry-Keeps :
      (crypto : Crypto) (read : String → Exec Log Resource) (name : String)
      → ((n : String) → Keeps P (read n))
      → Keeps P (trusted_entry crypto read name)
  unfolding trusted_entry
  entry-Keeps crypto read name k = search (keeps_rules, k) depth 60

  entries-Keeps :
      (names : List String) (crypto : Crypto) (read : String → Exec Log Resource) (s : String)
      (d : Dict)
      → ((n : String) → Keeps P (read n))
      → Keeps P (prepare_each crypto read names s d)
  unfolding prepare_each
  entries-Keeps [] crypto read s d k = search keeps_rules
  entries-Keeps (name ∷ names) crypto read s d k =
      search (keeps_rules, entry-Keeps, entries-Keeps names, k) depth 20

  prepare-Keeps :
      (crypto : Crypto) (read : String → Exec Log Resource) (d : Dict)
      → ((n : String) → Keeps P (read n))
      → Keeps P (prepare crypto read d)
  unfolding prepare
  prepare-Keeps crypto read d k = search (keeps_rules, entries-Keeps, k) depth 20

  candidates-Keeps :
      (names : List String) (cluster : Resource) (crypto : Crypto) (ip : String → Result String)
      → Keeps P (candidate_servers outside crypto ip cluster names)
  unfolding candidate_servers
  candidates-Keeps [] cluster crypto ip = search keeps_rules
  candidates-Keeps (name ∷ names) cluster crypto ip =
      search (call_rules, candidates-Keeps names) depth 20

  context-Keeps :
      (crypto : Crypto) (ip : String → Result String) (d : Dict) (cluster : Resource)
      → Keeps P (verified_context outside crypto ip d cluster)
  unfolding verified_context control_plane fetch_context
  context-Keeps crypto ip d cluster = search (call_rules, candidates-Keeps, prepare-Keeps) depth 80

  client-Keeps : (version : String) → Keeps P (install_kubectl outside version)
  unfolding install_kubectl
  client-Keeps version = search call_rules depth 60

  pub claims-Keeps : (servers : List Resource) → Keeps P (verify_claims outside servers)
  unfolding verify_claims
  claims-Keeps [] = search keeps_rules
  claims-Keeps (server ∷ servers) =
      search (call_rules, (λ (_ : Unit {0}). claims-Keeps servers)) depth 20

  pub result-Keeps : (name : String) → Keeps P (read_public_result outside name)
  unfolding read_public_result
  result-Keeps name = search call_rules depth 40

  publish_rounds-Keeps :
      (n : ℕ) (collection : String) (target : Resource) (d : Dict)
      → Keeps P (publish_rounds outside n collection target d)
  unfolding publish_rounds
  publish_rounds-Keeps zero collection target d = search keeps_rules
  publish_rounds-Keeps (suc n) collection target d =
      search (call_rules, publish_rounds-Keeps n) depth 30

  pub publish-Keeps :
      (resolved : Plan) (d : Dict) → Keeps P (publish_target_status outside resolved d)
  unfolding publish_target_status
  publish-Keeps resolved d = search (keeps_rules, publish_rounds-Keeps) depth 20

  complete_rounds-Keeps :
      (n : ℕ) (operation : Resource) (phase message : String)
      → Keeps P (complete_rounds outside n operation phase message)
  unfolding complete_rounds
  complete_rounds-Keeps zero operation phase message = search keeps_rules
  complete_rounds-Keeps (suc n) operation phase message =
      Keeps-bind _ _ (get-Keeps outside q _ _) λ latest. Keeps-bind _ _ (search keeps_rules) λ _.
        Keeps-bind _ _ (search keeps_rules) λ _.
          Keeps-catch _ _ (search call_rules depth 20)
            λ e. either (is_conflict e) e (complete_rounds-Keeps n operation phase message)
    where
      either :
          (b : Bool) (e : Error)
          → Keeps P (complete_rounds outside n operation phase message)
          → Keeps P (elim b [
            | true ↦ complete_rounds outside n operation phase message
            | false ↦ raise {A = Unit {0}} e
          ])
      either true e k = k
      either false e k = search keeps_rules

  pub complete-Keeps :
      (operation : Resource) (phase message : String)
      → Keeps P (complete_operation outside operation phase message)
  unfolding complete_operation
  complete-Keeps operation phase message = complete_rounds-Keeps 5 operation phase message

  pub operation-Keeps :
      (snapshot : Resource) (action operator : String) (requested : Option Json)
      → Keeps P (create_operation outside snapshot action operator requested)
  unfolding create_operation
  operation-Keeps snapshot action operator requested = search call_rules depth 30

  pub claimed-Keeps :
      (snapshot : Resource) (collection : String) (operation : Resource)
      → Keeps P (claimed_target outside snapshot collection operation)
  unfolding claimed_target
  claimed-Keeps snapshot collection operation = search call_rules depth 20

module _ (runner : Runner) {P : Log → Type 0} (q : Quiet P) where
  plan_inside-Keeps :
      (resolve : Resource → Exec Log Plan) (c : Resource)
      → ((c : Resource) → Keeps P (resolve c))
      → Keeps P (plan_inside runner resolve c)
  unfolding plan_inside
  plan_inside-Keeps resolve c k =
      search (call_rules, targets-Keeps, source-Keeps, cluster-Keeps, each-Keeps, inputs-Keeps, k)
        depth 80

  plan_depth-Keeps :
      (n : ℕ) (c : Resource) (stack : List String) → Keeps P (plan_depth runner n c stack)
  unfolding plan_depth
  plan_depth-Keeps zero c stack = search keeps_rules
  plan_depth-Keeps (suc n) c stack =
      search (keeps_rules, plan_inside-Keeps, plan_depth-Keeps n) depth 20

  pub plan-Keeps : (c : Resource) → Keeps P (plan runner c)
  unfolding plan
  plan-Keeps c = plan_depth-Keeps runner.depth c []

  verified-Keeps :
      (phase : String) (outputs : Dict) → Keeps P (verified_fields runner phase outputs)
  unfolding verified_fields
  verified-Keeps phase outputs = search call_rules depth 20

  pub report-Keeps :
      (c : Resource) (phase reason : String) (revision : Option String) (resolved : Option Plan)
      (outputs : Dict)
      → Keeps P (report runner c phase reason revision resolved outputs)
  unfolding report
  report-Keeps c phase reason revision resolved outputs =
      search (call_rules, verified-Keeps) depth 30

  pub same_inputs-Keeps :
      (resolved : Plan) (message : String) → Keeps P (require_same_inputs runner resolved message)
  unfolding require_same_inputs
  same_inputs-Keeps resolved message = search (keeps_rules, plan-Keeps) depth 20

  pub observations-Keeps : (resolved : Plan) → Keeps P (publish_observations runner resolved)
  unfolding publish_observations
  observations-Keeps resolved =
      search (keeps_rules, result-Keeps, claims-Keeps, same_inputs-Keeps, publish-Keeps) depth 30

  pub checkout-Keeps : (c : Resource) (commit : String) → Keeps P (checkout runner c commit)
  unfolding checkout
  checkout-Keeps c commit = search (call_rules, source-Keeps) depth 40

module _ (runner : Runner) (tools : Tools) {P : Log → Type 0} (q : Quiet P) where
  pub environment-Keeps : (resolved : Plan) → Keeps P (kubernetes_environment runner tools resolved)
  unfolding kubernetes_environment
  environment-Keeps resolved = search (call_rules, context-Keeps, client-Keeps) depth 40

  progress_each-Keeps :
      (servers : List Resource) (stage : String)
      → Keeps P (progress_each runner tools servers stage)
  unfolding progress_each
  progress_each-Keeps [] stage = search keeps_rules
  progress_each-Keeps (server ∷ servers) stage =
      search (call_rules, progress_each-Keeps servers) depth 20

  pub enter-Keeps :
      (resolved : Plan) (stage : String) → Keeps P (enter_stage runner tools resolved stage)
  unfolding enter_stage
  enter-Keeps resolved stage = search (keeps_rules, claims-Keeps, progress_each-Keeps) depth 20

  pub refresh-Keeps : (server : Resource) → Keeps P (refresh_claim_target runner tools server)
  unfolding refresh_claim_target
  refresh-Keeps server = search call_rules depth 20

  pub prepared-Keeps : (resolved : Plan) → Keeps P (prepare_execution runner tools resolved)
  unfolding prepare_execution
  prepared-Keeps resolved = search (call_rules, prepare-Keeps) depth 60

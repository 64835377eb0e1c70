-- ===== src/Operators/Provisioning/Guarded/Reads.antt =====
-- The steps that only read keep a condition that reads keep.
use ansible_roles.Prelude.{String, Bool, List, [], ◌∷◌}
use ansible_roles.Json.{Json, Dict}
use ansible_roles.Operators.Effects.{Log, Outside}
use ansible_roles.Operators.Effects.Keeps.{Keeps, Keeps-bind, Keeps-request, Tolerant, keeps_rules}
use ansible_roles.Operators.Resource.{Resource}
use ansible_roles.Operators.Api.{api_get, api_list}
use ansible_roles.Operators.Provisioning.{Library, View}
use ansible_roles.Operators.Provisioning.Bound.{current, bind_run}
use ansible_roles.Operators.Provisioning.Stages.{fact, ask, inspect, attempt_now, revalidate}
use ansible_roles.Operators.Provisioning.Pass.{verify_each, verify_dependencies, check_others}
use ansible_roles.Prelude.{ℕ, zero, suc}
use ansible_roles.Operators.Effects.Keeps.{Keeps-choose}
use ansible_roles.Operators.Provisioning.Session.{pause, drain_rounds, drain_commands}
use ansible_roles.Operators.Provisioning.Guarded.{On, world_rules}

module _ (outside : Outside) (lib : Library) {P : Log → Type 0} (reads : Tolerant P) where
  pub api_get-Keeps : (collection name : String) → Keeps P (api_get outside collection name)
  unfolding api_get
  api_get-Keeps collection name = search (keeps_rules, Keeps-request, reads.get collection name)

  pub api_list-Keeps : (collection : String) → Keeps P (api_list outside collection)
  unfolding api_list
  api_list-Keeps collection = search (keeps_rules, Keeps-request, reads.list collection)

  pub bind_run-Keeps : (server : Resource) → Keeps P (bind_run outside server)
  unfolding bind_run
  bind_run-Keeps server = search (keeps_rules, api_get-Keeps) depth 40

  pub current-Keeps :
      (paused pending : Bool) (view : View) → Keeps P (current outside lib paused pending view)
  unfolding current
  current-Keeps paused pending view = search (keeps_rules, api_get-Keeps, bind_run-Keeps) depth 60

  pub ask-Keeps : (name : String) (v : Json) → Keeps (On P) (ask outside lib name v)
  unfolding ask
  ask-Keeps name v = search (keeps_rules, world_rules, Keeps-request, reads.other name v) depth 20

  pub inspect-Keeps : Keeps (On P) (inspect outside lib)
  unfolding inspect
  inspect-Keeps = search (keeps_rules, world_rules, Keeps-request, reads.inspect) depth 20

  pub fact-Keeps : (facts : Dict) (k : String) → Keeps (On P) (fact facts k)
  unfolding fact
  fact-Keeps facts k = search keeps_rules

  pub attempt_now-Keeps : Keeps (On P) attempt_now
  unfolding attempt_now
  attempt_now-Keeps = search (keeps_rules, world_rules)

  pub revalidate-Keeps : (paused : Bool) → Keeps (On P) (revalidate outside lib paused)
  unfolding revalidate
  revalidate-Keeps paused = search (keeps_rules, world_rules, current-Keeps) depth 20

  pub verify_each-Keeps :
      (snapshot : Json) (ds : List (String × String))
      → Keeps P (verify_each outside lib snapshot ds)
  unfolding verify_each
  verify_each-Keeps snapshot [] = search keeps_rules
  verify_each-Keeps snapshot ((c, f) ∷ ds) = Keeps-bind _ _ (search keeps_rules) λ n.
      Keeps-bind _ _ (search keeps_rules) λ name.
        Keeps-bind _ _ (api_get-Keeps c name) λ dependency.
          Keeps-bind _ _ (search keeps_rules)
            λ uid. Keeps-bind _ _ (search keeps_rules) λ _. verify_each-Keeps snapshot ds

  pub verify_dependencies-Keeps : Keeps (On P) (verify_dependencies outside lib)
  unfolding verify_dependencies
  verify_dependencies-Keeps =
      search (keeps_rules, world_rules, attempt_now-Keeps, verify_each-Keeps) depth 40

  pub check_others-Keeps :
      (view : View) (others : List Resource) → Keeps P (check_others outside lib view others)
  unfolding check_others
  check_others-Keeps view [] = search keeps_rules
  check_others-Keeps view (other ∷ others) = Keeps-bind _ _ (search keeps_rules) λ reserved.
      Keeps-bind _ _ (search (keeps_rules, bind_run-Keeps) depth 20)
        (λ _. check_others-Keeps view others)

  pause-Keeps : Keeps (On P) (pause outside lib)
  unfolding pause
  pause-Keeps = search (keeps_rules, ask-Keeps) depth 20

  drain_rounds-Keeps : (n : ℕ) → Keeps (On P) (drain_rounds outside lib n)
  unfolding drain_rounds
  drain_rounds-Keeps zero = search keeps_rules
  drain_rounds-Keeps (suc n) =
      Keeps-bind _ _ (search (keeps_rules, world_rules, api_list-Keeps) depth 20) λ commands.
        Keeps-choose _ _ _ (search keeps_rules) (
          Keeps-bind _ _ (search ask-Keeps) λ over.
            Keeps-bind _ _ (search keeps_rules)
              λ _. Keeps-bind _ _ pause-Keeps (λ _. drain_rounds-Keeps n))

  pub drain_commands-Keeps : Keeps (On P) (drain_commands outside lib)
  unfolding drain_commands
  drain_commands-Keeps = drain_rounds-Keeps 61

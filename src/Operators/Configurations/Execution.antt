-- ===== src/Operators/Configurations/Execution.antt =====
-- execute and main of operators/configurations.py: one Configuration under the claims of all its
-- hosts, and the pass over all of a capture group.
use ansible_roles.Prelude.{
  String, Bool, true, false, ◌||◌, Option, none, some, List, [], ◌∷◌, ◌==◌, string_eq, member,
  if◌then◌else◌,
}
use ansible_roles.Text.{str_leb}
use ansible_roles.Result
use ansible_roles.Result.{Error, Result, ok, err, operator_error, interrupted}
use ansible_roles.Json.{Json, str, Dict, object, get, eqb}
use ansible_roles.Operators.Effects.{
  Log, Exec, pure, raise, lift, catch, choose, given, ◌>>=◌, ◌>>◌,
}
use ansible_roles.Operators.Resource.{Resource}
use ansible_roles.Operators.Api.{api_list}
use ansible_roles.Operators.Operation.{reservation}
use ansible_roles.Operators.Configurations.{mapping}
use ansible_roles.Operators.Configurations.Order.{dependency_order}
use ansible_roles.Operators.Configurations.Planning.{Plan, Runner, plan}
use ansible_roles.Operators.Configurations.Reports.{
  read_public_result, publish_target_status, verify_claims, report, require_same_inputs,
  publish_observations,
}
use ansible_roles.Operators.Configurations.Commands.{Tools, run_commands, refresh_claim_target}
use ansible_roles.Operators.Configurations.Workspace.{checkout, prepare_execution}

-- The Configuration that requests the Operation.
unfoldable pub requester : Resource → Json
requester configuration = object (
    ("kind", str "Configuration")
    ∷ ("name", str configuration.metadata.name)
    ∷ ("uid", str configuration.metadata.uid)
    ∷ [])

unfoldable pub is_command_failure : Error → Bool
is_command_failure (operator_error reason message) = reason == "CommandFailed"
is_command_failure _ = false

unfoldable pub or_empty_dict : Option Dict → Dict
or_empty_dict none = []
or_empty_dict (some d) = d

-- `error.reason`, of an OperatorError
unfoldable pub reason_of : Error → String
reason_of (operator_error reason message) = reason
reason_of _ = "ExecutionFailed"

unfoldable pub pending_reasons : List String
pending_reasons =
    "ReferenceMissing" ∷ "TargetPending" ∷ "InventoryPending" ∷ "DependencyPending"
    ∷ "OperationBusy" ∷ "InputsChanged" ∷ []

unfoldable pub failed_phase : String → String
failed_phase reason =
    if reason == "Suspended"
    then "Suspended"
    else (if member reason pending_reasons then "Pending" else "Failed")

-- `except Exception` does not catch a requested termination.
unfoldable pub is_termination : Error → Bool
is_termination interrupted = true
is_termination _ = false

-- `sorted(configurations, key=name)`, which is stable.
unfoldable pub insert_configuration : Resource → List Resource → List Resource
insert_configuration c [] = c ∷ []
insert_configuration c (d ∷ ds) =
    let later = d ∷ insert_configuration c ds in
    if str_leb c.metadata.name d.metadata.name then c ∷ d ∷ ds else later

unfoldable pub sort_configurations : List Resource → List Resource
sort_configurations [] = []
sort_configurations (c ∷ cs) = insert_configuration c (sort_configurations cs)

-- `except OperatorError` around dependency_order.
unfoldable pub ordered_or_sorted : List Resource → Result (List Resource)
ordered_or_sorted configurations = elim (dependency_order configurations) [
  | ok ordered ↦ ok ordered
  | err e ↦ elim e [
    | operator_error reason message ↦ ok (sort_configurations configurations)
    | other ↦ err other
  ]
]

-- The Configurations of the capture group.
unfoldable pub of_group : String → List Resource → Result (List Resource)
of_group group [] = ok []
of_group group (c ∷ cs) = Result.◌>>=◌ (mapping c.spec "inventoryCaptureGroupRef") λ ref.
    Result.◌>>=◌ (of_group group cs)
      λ rest. ok (if eqb (get ref "name") (str group) then c ∷ rest else rest)

module _ (runner : Runner) (tools : Tools) where
  -- The loop that enters one reservation after another; `body` is given the claimed Servers.
  unfoldable pub claim_all :
      {A : Type 0} → Json → List Resource → (List Resource → Exec Log A) → Exec Log A
  claim_all requested [] body = body []
  claim_all requested (server ∷ servers) body = do
    latest ← refresh_claim_target runner tools server
    reservation runner.outside latest "configure" "configurations" (some requested) "servers"
        λ operation claimed. claim_all requested servers (λ others. body (claimed ∷ others))

  unfoldable pub claimed_plan : Plan → List Resource → Plan
  claimed_plan resolved servers = record resolved { servers = servers }

  -- A completed failed play may still have public observations.
  unfoldable pub after_failure : Plan → Error → Exec Log (Unit {0})
  after_failure resolved e =
      choose (is_command_failure e) (publish_observations runner resolved >> raise e) (raise e)

  -- Under the claims; the outputs of the command.
  unfoldable pub execute_claimed : Plan → Exec Log Dict
  execute_claimed resolved = do
    require_same_inputs runner resolved "Configuration inputs changed before execution"
    report runner resolved.configuration "Reconciling" "ExecutingCommand"
        (some resolved.input_revision) (some resolved) []
    catch (run_commands runner tools resolved) (after_failure resolved)
    verify_claims runner.outside resolved.servers
    require_same_inputs runner resolved "Configuration inputs changed during execution"
    outputs ← read_public_result runner.outside "result.json"
    publish_observations runner resolved
    target_status ← read_public_result runner.outside "target-status.json"
    given target_status (pure tt) (publish_target_status runner.outside resolved)
    pure (or_empty_dict outputs)

  unfoldable pub execute : Plan → Exec Log (Unit {0})
  execute resolved = do
    checkout runner resolved.configuration resolved.source_revision
    prepare_execution runner tools resolved
    outputs ←
        claim_all (requester resolved.configuration) resolved.servers
          (λ servers. execute_claimed (claimed_plan resolved servers))
    report runner resolved.configuration "Ready" "CommandVerified" (some resolved.input_revision)
        (some resolved) outputs

  -- The status of a failed attempt, which may itself fail to be written.
  unfoldable pub report_failure : Resource → Error → Exec Log Bool
  report_failure configuration e = choose (is_termination e) (raise e) (do
    catch (report runner configuration (failed_phase (reason_of e)) (reason_of e) none none [])
        (λ f. choose (is_termination f) (raise f) (pure tt))
    pure (failed_phase (reason_of e) == "Failed"))

  -- One turn of the loop: whether it counts as failed.
  unfoldable pub attempt_configuration : Resource → Exec Log Bool
  attempt_configuration configuration =
      catch (plan runner configuration >>= λ resolved. execute resolved >> pure false)
        (report_failure configuration)

  unfoldable pub attempt_all : List Resource → Bool → Exec Log Bool
  attempt_all [] failed = pure failed
  attempt_all (configuration ∷ configurations) failed = do
    now ← attempt_configuration configuration
    attempt_all configurations (failed || now)

  -- main: whether the pass failed, for the Configurations of `group`.
  unfoldable pub reconcile_group : String → Exec Log Bool
  reconcile_group group = do
    listed ← api_list runner.outside "configurations"
    configurations ← lift (of_group group listed)
    ordered ← lift (ordered_or_sorted configurations)
    attempt_all ordered false

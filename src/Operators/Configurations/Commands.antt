-- ===== src/Operators/Configurations/Commands.antt =====
-- run_commands, execute and main of operators/configurations.py: the claims of all hosts, the guarded
-- command, and what becomes of its outcome. The files of the private workspace are calls.
use ansible_roles.Prelude.{
  ◌<>◌, String, Bool, true, false, not, ◌||◌, List, [], ◌∷◌, map, string_eq,
}
use ansible_roles.Result
use ansible_roles.Result.{
  Error, Result, ok, err, operator_error, runtime_error, value_error, http_error, os_error,
  timeout_expired, interrupted,
}
use ansible_roles.Json.{Json, ℤ, int, str, object, array, get, truthy, eqb}
use ansible_roles.Operators.Effects.{
  Call, Log, Exec, pure, raise, lift, catch, given, ◌>>=◌, ◌>>◌, refuse_if, request,
}
use ansible_roles.Operators.Resource.{Resource, json_string}
use ansible_roles.Operators.Api.{api_get}
use ansible_roles.Operators.Operation.{operation_progress}
use ansible_roles.Operators.Common.{is_terminating}
use ansible_roles.Operators.Common.Keys.{Crypto}
use ansible_roles.Operators.Context.{verified_context}
use ansible_roles.Operators.Context.Client.{install_kubectl}
use ansible_roles.Operators.Configurations.{command_argv}
use ansible_roles.Operators.Configurations.Targets.{member_inputs}
use ansible_roles.Operators.Configurations.Planning.{Plan, Runner}
use ansible_roles.Operators.Configurations.Reports.{
  inputs_changed, verify_claims, require_same_inputs,
}

-- What a run takes of the libraries and the environment: the cryptography of host keys, `ipaddress`,
-- `shlex.join`, the two files of ANSIBLE_CERTIFICATE_FILE and ANSIBLE_PRIVATE_KEY_FILE, the run's
-- private directory, and PATH.
pub record Tools : Type 0 where
  pub crypto : Crypto
  pub ip_address : String → Result String
  pub join : List String → String
  pub certificate_file : String
  pub private_key_file : String
  pub directory : String
  pub search_path : String

unfoldable pub exit_code : Json → Result ℤ
exit_code (int n) = ok n
exit_code _ = err (value_error "returncode must be an integer")

-- `returncode in (4, 6) or returncode < 0`
unfoldable pub is_uncertain : ℤ → Bool
is_uncertain (ℤ.pos n) = eqb (int (ℤ.pos n)) (int (ℤ.pos 4)) || eqb (int (ℤ.pos n)) (int (ℤ.pos 6))
is_uncertain (ℤ.negsuc n) = true

unfoldable pub require_completed_command : ℤ → Result (Unit {0})
require_completed_command code = elim (is_uncertain code) [
  | true ↦ err (
      operator_error "RemoteWorkUncertain"
        "SSH became unreachable or command was interrupted; inspect remote work before releasing claims")
  | false ↦ elim (truthy (int code)) [
    | true ↦ err (
        operator_error "CommandFailed"
          "Configuration command or installed-host verification failed")
    | false ↦ ok tt
  ]
]

-- `except subprocess.TimeoutExpired` and `except OSError`: urllib's HTTPError is an OSError.
unfoldable pub command_error : Error → Error
command_error timeout_expired =
    operator_error "RemoteWorkUncertain"
      "Timed out; inspect remote work before releasing host claims"
command_error os_error =
    operator_error "CommandFailed" "Configuration command could not be executed"
command_error (http_error code) =
    operator_error "CommandFailed" "Configuration command could not be executed"
command_error e = e

-- `except Exception`: everything but a requested termination.
unfoldable pub context_error : Error → Error
context_error interrupted = interrupted
context_error e =
    operator_error "ContextUnavailable" "Verified Kubernetes context could not be prepared"

unfoldable pub argv_json : List String → Json
argv_json argv = array (map (λ s. str s) argv)

-- `latest` has the inputs that were resolved, and the same host identity.
unfoldable pub is_changed_target : Resource → Resource → Result Bool
is_changed_target latest server = elim (is_terminating latest) [
  | true ↦ ok true
  | false ↦ Result.◌>>=◌ (member_inputs latest) λ now. Result.◌>>=◌ (member_inputs server) λ before.
      ok (
        not (eqb now before)
        || not (eqb (get latest.status "hostSSH") (get server.status "hostSSH")))
]

module _ (runner : Runner) (tools : Tools) where
  unfoldable pub kubernetes_environment : Plan → Exec Log Json
  kubernetes_environment resolved = given resolved.kube_cluster (pure (object [])) λ cluster.
      catch
        (do
          context ←
              verified_context runner.outside tools.crypto tools.ip_address resolved.inventory
                cluster
          written ← request runner.outside (Call.other "write kubeconfig" (object context))
          version ← lift (json_string (get cluster.spec "kubernetesVersion") "Kubernetes version")
          install_kubectl runner.outside version
          pure (
              object (
                ("KUBECONFIG", str (tools.directory <> "/kubeconfig"))
                ∷ ("PATH", str (tools.directory <> ("/bin:" <> tools.search_path)))
                ∷ [])))
        (λ e. raise (context_error e))

  unfoldable pub progress_each : List Resource → String → Exec Log (Unit {0})
  progress_each [] stage = pure tt
  progress_each (server ∷ servers) stage = do
    operation_progress runner.outside server stage
    progress_each servers stage

  unfoldable pub enter_stage : Plan → String → Exec Log (Unit {0})
  enter_stage resolved stage = do
    verify_claims runner.outside resolved.servers
    progress_each resolved.servers stage

  -- The guard play: its hosts are the installed ones that were resolved.
  unfoldable pub run_guard : Exec Log (Unit {0})
  run_guard = do
    v ← request runner.outside (Call.other "guard" (str "plays/configuration_guard.yml"))
    code ← lift (exit_code v)
    lift (require_completed_command code)

  unfoldable pub run_argv : Plan → Json → Exec Log (Unit {0})
  run_argv resolved environment = do
    argv ← lift (command_argv resolved.configuration)
    v ← request runner.outside (
        Call.other "command"
          (object (("argv", argv_json argv) ∷ ("environment", environment) ∷ [])))
    code ← lift (exit_code v)
    lift (require_completed_command code)

  unfoldable pub execute_stage : Plan → Exec Log (Unit {0})
  execute_stage resolved = do
    enter_stage resolved "Execute command"
    environment ← kubernetes_environment resolved
    verify_claims runner.outside resolved.servers
    require_same_inputs runner resolved "Configuration changed during context preparation"
    run_argv resolved environment

  unfoldable pub all_stages : Plan → Exec Log (Unit {0})
  all_stages resolved = do
    enter_stage resolved "Verify installed hosts"
    run_guard
    execute_stage resolved
    enter_stage resolved "Verify installed hosts after command"
    run_guard

  unfoldable pub run_commands : Plan → Exec Log (Unit {0})
  run_commands resolved = catch (all_stages resolved) (λ e. raise (command_error e))

  unfoldable pub refresh_claim_target : Resource → Exec Log Resource
  refresh_claim_target server = do
    latest ← api_get runner.outside "servers" server.metadata.name
    changed ← lift (is_changed_target latest server)
    refuse_if changed (inputs_changed "Server inputs changed before operation acquisition")
    pure latest

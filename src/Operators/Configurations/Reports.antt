-- ===== src/Operators/Configurations/Reports.antt =====
-- What a Configuration's run publishes: report, read_public_result, publish_target_status and
-- publish_observations of operators/configurations.py.
use ansible_roles.Prelude.{
  ℕ, zero, suc, String, Bool, true, false, not, ◌||◌, Option, none, some, List, [], ◌∷◌, ◌++◌, ltb,
  ◌==◌, string_eq, if◌then◌else◌,
}
use ansible_roles.Result
use ansible_roles.Result.{Error, Result, ok, err, operator_error, value_error}
use ansible_roles.Json.{Json, ℤ, null, int, str, Dict, object, array, get, truthy, eqb}
use ansible_roles.Operators.Effects.{
  Call, Log, Outside, Exec, pure, raise, lift, catch, choose, given, ◌>>=◌, ◌>>◌, refuse_if,
  request,
}
use ansible_roles.Operators.Resource.{Resource, json_object}
use ansible_roles.Operators.Api.{api_get, patch_status}
use ansible_roles.Operators.Operation.{is_conflict, verify_operation}
use ansible_roles.Operators.Common.{is_terminating, generation, generation_or_zero}
use ansible_roles.Operators.Configurations.Targets.{target_collection}
use ansible_roles.Operators.Configurations.Planning.{Plan, Runner, plan}

-- Another lifetime or generation, or one that is being deleted.
unfoldable pub is_superseded : Resource → Resource → Bool
is_superseded latest known =
    not (latest.metadata.uid == known.metadata.uid)
    || not (eqb (generation latest) (generation known))
    || is_terminating latest

unfoldable pub inputs_changed : String → Error
inputs_changed message = operator_error "InputsChanged" message

unfoldable pub ready_condition : String → String → Json → Json
ready_condition phase reason observed = array (
    object (
      ("type", str "Ready")
      ∷ ("status", str (if phase == "Ready" then "True" else "False"))
      ∷ ("reason", str reason)
      ∷ ("observedGeneration", observed)
      ∷ [])
    ∷ [])

unfoldable pub revision_fields : Option String → Dict
revision_fields none = []
revision_fields (some revision) = elim (revision == "") [
  | true ↦ []
  | false ↦ ("inputRevision", str revision) ∷ []
]

unfoldable pub resolved_fields : Option Plan → Dict
resolved_fields none = []
resolved_fields (some resolved) =
    ("sourceRevision", str resolved.source_revision)
    ∷ ("resolvedReferences", array resolved.resolved_references)
    ∷ []

unfoldable pub build_fields : String → Dict
build_fields url = elim (url == "") [ true ↦ [] | false ↦ ("buildURL", str url) ∷ [] ]

unfoldable pub status_fields :
    Resource → String → String → Option String → Option Plan → Dict → String → Dict
status_fields configuration phase reason revision resolved verified build_url =
    ("phase", str phase)
    ∷ ("reason", str reason)
    ∷ ("observedGeneration", generation_or_zero configuration)
    ∷ ("conditions", ready_condition phase reason (generation_or_zero configuration))
    ∷ (revision_fields revision
        ++ (resolved_fields resolved ++ (verified ++ build_fields build_url)))

unfoldable pub no_result : Error → Error
no_result (value_error message) =
    operator_error "InvalidResult" "Command result must be a public JSON object"
no_result e = e

-- A file's entry: null where there is none, or whether it is a regular file, and its size.
unfoldable pub is_unusable : Json → Result Bool
is_unusable v =
    Result.◌>>=◌ (json_object v "file entry")
      λ d. ok (not (truthy (get d "regular")) || exceeds (get d "size"))
  where
    exceeds : Json → Bool
    exceeds (int (ℤ.pos n)) = ltb 65536 n
    exceeds _ = true

unfoldable pub optional_entry : Json → Option Json
optional_entry null = none
optional_entry v = some v

module _ (outside : Outside) where
  unfoldable pub read_public_result : String → Exec Log (Option Dict)
  read_public_result name = do
    entry ← request outside (Call.other "lstat" (str name))
    given (optional_entry entry) (pure none) λ found. do
      unusable ← lift (is_unusable found)
      refuse_if unusable
          (operator_error "InvalidResult" "Command result must be a small regular JSON file")
      contents ←
          catch
            (request outside (Call.other "read" (str name)) >>= λ v.
              lift (json_object v "public playbook result"))
            (λ e. raise (no_result e))
      pure (some contents)

  -- The attempts of publish_target_status: `n` are left.
  unfoldable pub publish_rounds : ℕ → String → Resource → Dict → Exec Log (Unit {0})
  publish_rounds zero collection target status =
      raise (inputs_changed "Target status conflicted; observations were not published")
  publish_rounds (suc n) collection target status = do
    latest ← api_get outside collection target.metadata.name
    refuse_if (is_superseded latest target)
        (inputs_changed "Target changed before reporting observations")
    catch (patch_status outside latest status >>= λ _. pure tt)
        (λ e. choose (is_conflict e) (publish_rounds n collection target status) (raise e))

  unfoldable pub publish_target_status : Plan → Dict → Exec Log (Unit {0})
  publish_target_status resolved status = do
    collection ← lift (target_collection resolved.target.kind)
    publish_rounds 5 collection resolved.target status

  -- A Server whose claim is another one than the run's.
  unfoldable pub is_claim_lost : Resource → Resource → Bool
  is_claim_lost latest server =
      not (latest.metadata.uid == server.metadata.uid)
      || not (truthy (get server.status "operationRef"))
      || not (eqb (get latest.status "operationRef") (get server.status "operationRef"))

  unfoldable pub verify_claims : List Resource → Exec Log (Unit {0})
  verify_claims [] = pure tt
  verify_claims (server ∷ servers) = do
    latest ← api_get outside "servers" server.metadata.name
    refuse_if (is_claim_lost latest server)
        (operator_error "OwnershipChanged" "Server operation ownership changed")
    operation ← verify_operation outside latest
    verify_claims servers

module _ (runner : Runner) where
  -- `lastVerifiedAt` and `outputs`, where the phase is Ready.
  unfoldable pub verified_fields : String → Dict → Exec Log Dict
  verified_fields phase outputs =
      choose (phase == "Ready")
        (do
          now ← request runner.outside (Call.other "now" null)
          pure (("lastVerifiedAt", now) ∷ ("outputs", object outputs) ∷ []))
        (pure [])

  unfoldable pub report :
      Resource → String → String → Option String → Option Plan → Dict → Exec Log (Unit {0})
  report configuration phase reason revision resolved outputs = do
    latest ← api_get runner.outside "configurations" configuration.metadata.name
    refuse_if (is_superseded latest configuration)
        (inputs_changed "Configuration changed before reporting")
    verified ← verified_fields phase outputs
    patched ←
        patch_status runner.outside latest
          (status_fields configuration phase reason revision resolved verified runner.build_url)
    pure tt

  -- The inputs as they are now have the revision that the run resolved.
  unfoldable pub require_same_inputs : Plan → String → Exec Log (Unit {0})
  require_same_inputs resolved message = do
    current ← plan runner resolved.configuration
    refuse_if (not (current.input_revision == resolved.input_revision)) (inputs_changed message)

  unfoldable pub publish_observations : Plan → Exec Log (Unit {0})
  publish_observations resolved = do
    observations ← read_public_result runner.outside "target-observation.json"
    given observations (pure tt) λ status. do
      verify_claims runner.outside resolved.servers
      require_same_inputs resolved "Inputs changed before reporting observations"
      publish_target_status runner.outside resolved status

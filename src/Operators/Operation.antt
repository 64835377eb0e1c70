-- ===== src/Operators/Operation.antt =====
-- operators/server_operation.py: exclusive ownership of a target through an Operation resource.
pub mod Completes
pub mod Guards
pub mod Outcome
use ansible_roles.Prelude.{
  ℕ, zero, suc, ◌<>◌, String, Bool, true, false, not, ◌&&◌, ◌||◌, Option, none, some, List, [], ◌∷◌,
  ◌++◌, member, ◌==◌, nat_eq, string_eq, if◌then◌else◌,
}
use ansible_roles.Result.{Error, Result, ok, err, operator_error, runtime_error, http_error}
use ansible_roles.Json.{Json, null, str, obj, end, Dict, object, get, get_or, truthy, eqb}
use ansible_roles.Operators.Effects.{
  Call, Log, Outside, Exec, pure, raise, lift, catch, ◌>>=◌, ◌>>◌, refuse_if, request,
}
use ansible_roles.Operators.Resource.{Resource, json_object, json_string}
use ansible_roles.Operators.Api.{api_get, api_create, patch_status}

-- `{'name': …, 'uid': …}`
unfoldable pub operation_reference : Resource → Json
operation_reference operation =
    object (("name", str operation.metadata.name) ∷ ("uid", str operation.metadata.uid) ∷ [])

-- `{'kind': …, 'name': …, 'uid': …}`
unfoldable pub target_reference : Resource → Json
target_reference target = object (
    ("kind", str target.kind)
    ∷ ("name", str target.metadata.name)
    ∷ ("uid", str target.metadata.uid)
    ∷ [])

-- HTTPError with code 409
unfoldable pub is_conflict : Error → Bool
is_conflict (http_error code) = code == 409
is_conflict _ = false

-- `latest` is still the Operation's lifetime and request.
unfoldable pub same_operation : Resource → Resource → Bool
same_operation latest operation =
    latest.metadata.uid == operation.metadata.uid
    && eqb (object latest.spec) (object operation.spec)

-- `latest['status'].get('phase') in ('Running', 'Uncertain')`
unfoldable pub is_open : Resource → Bool
is_open latest =
    eqb (get latest.status "phase") (str "Running")
    || eqb (get latest.status "phase") (str "Uncertain")

abbrev pub outcome_status : String → String → Dict
outcome_status phase message = ("phase", str phase) ∷ ("message", str message) ∷ []

module _ (outside : Outside) where
  -- The loop of complete_operation: `n` rounds are left.
  unfoldable pub complete_rounds : ℕ → Resource → String → String → Exec Log (Unit {0})
  complete_rounds zero operation phase message =
      raise (runtime_error "Operation completion conflicted; inspect retained ownership")
  complete_rounds (suc n) operation phase message = do
    latest ← api_get outside "operations" operation.metadata.name
    refuse_if (not (same_operation latest operation))
        (runtime_error "Operation ownership changed; refusing completion")
    refuse_if (not (is_open latest))
        (runtime_error "Operation already completed; refusing to overwrite its outcome")
    catch (patch_status outside latest (outcome_status phase message) >>= λ _. pure tt) (λ e.
        elim (is_conflict e) [ true ↦ complete_rounds n operation phase message | false ↦ raise e ])

  unfoldable pub complete_operation : Resource → String → String → Exec Log (Unit {0})
  complete_operation = complete_rounds 5

  -- The claim of `target` is `operation`, exactly and in both directions.
  unfoldable pub claim_holds : Resource → Dict → Resource → Bool
  claim_holds operation reference target =
      eqb (str operation.metadata.uid) (get reference "uid")
      && eqb (get operation.status "phase") (str "Running")
      && eqb (get operation.spec "targetRef") (target_reference target)

  unfoldable pub verify_operation : Resource → Exec Log Resource
  verify_operation target = do
    reference ← lift (json_object (get target.status "operationRef") "active Operation")
    name ← lift (json_string (get reference "name") "Operation name")
    operation ← api_get outside "operations" name
    refuse_if (not (claim_holds operation reference target))
        (operator_error "OwnershipChanged" "The active Operation changed")
    pure operation

  unfoldable pub operation_progress : Resource → String → Exec Log (Unit {0})
  operation_progress target step = do
    operation ← verify_operation target
    patched ← patch_status outside operation (("currentStep", str step) ∷ [])
    pure tt

-- Somebody else owns the target.
unfoldable pub is_busy : Resource → Dict → Bool
is_busy snapshot provisioning =
    truthy (get snapshot.status "operationRef")
    || truthy (get provisioning "maintenance")
    || truthy (get provisioning "activeRunRef")

unfoldable pub request_fields : Option Json → Dict
request_fields none = []
request_fields (some requester) = ("requestedBy", requester) ∷ []

unfoldable pub operation_spec : Resource → String → String → Option Json → Dict
operation_spec snapshot action operator requested_by =
    ("targetRef", target_reference snapshot)
    ∷ ("action", str action)
    ∷ ("operator", str operator)
    ∷ request_fields requested_by

-- A refused creation of the Operation: a conflict means that the target is owned.
unfoldable pub creation_error : Error → Error
creation_error e =
    if is_conflict e then operator_error "OperationBusy" "Target changed or is already owned" else e

-- The two `except` clauses: what is reported of an execution that raised.
unfoldable pub failure_phase : Error → String
failure_phase (operator_error reason message) =
    if reason == "RemoteWorkUncertain" then "Uncertain" else "Failed"
failure_phase _ = "Uncertain"

unfoldable pub failure_message : Error → String
failure_message (operator_error reason message) =
    if reason == "RemoteWorkUncertain" then "Inspect remote work before resolution" else reason
failure_message _ = "Execution interrupted; inspect remote work"

module _ (outside : Outside) where
  unfoldable pub create_operation : Resource → String → String → Option Json → Exec Log Resource
  create_operation snapshot action operator requested_by = do
    v ← request outside (Call.other "uuid4" null)
    uuid ← lift (json_string v "uuid4")
    catch
        (api_create outside "operations" "Operation" ("operation-" <> uuid)
          (operation_spec snapshot action operator requested_by))
        (λ e. raise (creation_error e))

  -- The target as the API holds it now, which must carry the new claim.
  unfoldable pub claimed_target : Resource → String → Resource → Exec Log Resource
  claimed_target snapshot collection operation = do
    claimed ← api_get outside collection snapshot.metadata.name
    refuse_if
        (not (
          claimed.metadata.uid == snapshot.metadata.uid
          && eqb (get claimed.status "operationRef") (operation_reference operation)))
        (operator_error "OwnershipChanged" "Target changed before execution")
    pure claimed

  module _ {A : Type 0} where
    -- `except …: complete; raise` and `else: complete`
    unfoldable pub closing : Resource → Result A → Exec Log A
    closing operation (ok a) = do
      complete_operation outside operation "Succeeded" "Operation execution completed"
      pure a
    closing operation (err e) = do
      complete_operation outside operation (failure_phase e) (failure_message e)
      raise e

    -- The body under `try`, and what follows it whether it returns or raises.
    unfoldable pub protected : Resource → Exec Log A → Exec Log A
    protected operation m log = let (r, log') = m log in closing operation r log'

    -- `with reservation(…): body`; the body is given the Operation and the claimed target.
    unfoldable pub reservation :
        Resource
        → String
        → String
        → Option Json
        → String
        → (Resource → Resource → Exec Log A)
        → Exec Log A
    reservation snapshot action operator requested_by collection body = do
      provisioning ←
          lift (json_object (get_or snapshot.status "provisioning" (obj end)) "provisioning")
      refuse_if (is_busy snapshot provisioning)
          (operator_error "OperationBusy" "Another operation owns the target")
      operation ← create_operation snapshot action operator requested_by
      protected operation
          (claimed_target snapshot collection operation >>= λ claimed. body operation claimed)

-- ===== src/Operators/Tests.antt =====
-- Runs of the operators against small worlds, and the theorems at these runs.
use ansible_roles.Prelude.{
  arith, ap, inl, inr, ltb, ltb→lt, Bool-cases, ℕ, ◌≡◌, refl, String, true, false, none, List, [],
  ◌∷◌, ◌==◌, string_eq, if◌then◌else◌,
}
use ansible_roles.Result.{ok, err, http_error}
use ansible_roles.Json.{null, pos, Json, bool, int, str, Dict, object, array, eqb}
use ansible_roles.Operators.Effects.{
  Call, Log, Outside, Exec, pure, raise, lift, catch, ◌>>=◌, refuse_if, request,
}
use ansible_roles.Operators.Resource.{
  Metadata, Resource, json_object, json_string, resource, metadata_of, optional, json_integer,
  text_items, text_list, text_map,
}
use ansible_roles.Operators.Api.{
  decode, api_get, api_create, collection_of, collections, patch_status,
}
use ansible_roles.Operators.Operation.{
  outcome_status, complete_operation, reservation, is_busy, protected, failure_phase,
  failure_message, create_operation, closing, claimed_target, complete_rounds, creation_error,
  is_conflict, is_open, operation_reference, operation_spec, request_fields, same_operation,
  target_reference,
}
use ansible_roles.Operators.Operation.Completes.{writes, Settles, complete_operation-Settles}
use ansible_roles.Operators.Operation.Guards.{WritesOnlyOpen, complete_operation-WritesOnlyOpen}
use ansible_roles.Operators.Operation.Outcome.{
  Succeeded, Reports, reservation-Reported, protected-IsUncertain,
}
use ansible_roles.Operators.Provisioning.{Library, attempt_or_empty, get_path, as_dict, path}
use ansible_roles.Operators.Provisioning.Bound.{World}
use ansible_roles.Operators.Provisioning.Disk.{
  Partition, validate_storage, count_role, entries_of, lay_out, partition_of, whole, end_after,
  is_beyond, with_mount,
}
use ansible_roles.Operators.Provisioning.Storage.{IsLayout, validate_storage-IsLayout}
use ansible_roles.Operators.Provisioning.Pass.{reconcile}
use ansible_roles.Operators.Provisioning.Guarded.Erasure.{Clean, AtMostOnce, reconcile-AtMostOnce}
use ansible_roles.Operators.Provisioning.Pass.Failure.{handle_failure}
use ansible_roles.Operators.Provisioning.Guarded.Recovery.{handle_failure-Clean}
use ansible_roles.Operators.Provisioning.Guarded.Refusals.{
  Reads, Blocks, Nothing, reconcile-Blocks, reconcile-Nothing,
}

abbrev metadata : String → Metadata
metadata name = record {
  name = name;
  uid = "u";
  resource_version = "1";
  generation = none;
  deletion_timestamp = none;
  annotations = none;
  labels = none;
  creation_timestamp = none;
  finalizers = none;
}

abbrev thing : String → String → Dict → Dict → Resource
thing kind name spec status = record {
  kind = kind;
  api_version = none;
  metadata = metadata name;
  spec = spec;
  status = status;
}

abbrev thing_json : Resource → Json
thing_json r = object (
    ("kind", str r.kind)
    ∷ (
      "metadata",
      object (
          ("name", str r.metadata.name)
          ∷ ("uid", str r.metadata.uid)
          ∷ ("resourceVersion", str r.metadata.resource_version)
          ∷ []),
    )
    ∷ ("spec", object r.spec)
    ∷ ("status", object r.status)
    ∷ [])

abbrev operation : Resource
operation = thing "Operation" "operation-1" [] (("phase", str "Running") ∷ [])

-- The target, free and claimed.
abbrev free : Resource
free = thing "Server" "alpha" [] []

abbrev claimed : Resource
claimed =
    thing "Server" "alpha" []
      (("operationRef", object (("name", str "operation-1") ∷ ("uid", str "u") ∷ [])) ∷ [])

-- An API that holds the Operation and the claimed target.
abbrev calm : Outside
calm log (Call.get collection name) =
    if collection == "operations" then ok (thing_json operation) else ok (thing_json claimed)
calm log (Call.patch collection name uid version fields) = ok (thing_json operation)
calm log (Call.create collection kind name spec) = ok (thing_json operation)
calm log _ = ok (str "1")

abbrev body : Resource → Resource → Exec Log String
body o t = pure "done"

complete_operation-WritesOnlyOpen_example :
    WritesOnlyOpen operation
      (outcome_status "Succeeded" "done")
      []
      (complete_operation calm operation "Succeeded" "done" []).1
complete_operation-WritesOnlyOpen_example =
    complete_operation-WritesOnlyOpen calm operation "Succeeded" "done" []

abbrev after : Log
after = (reservation calm free "reboot" "system" none "servers" body []).1

reservation_returns :
    reservation calm free "reboot" "system" none "servers" body [] ≡ (ok "done", after)
unfolding reservation ◌>>=◌ lift json_object refuse_if is_busy create_operation request json_string
    catch api_create decode resource metadata_of optional protected closing eqb api_get
    collection_of collections patch_status pure raise claimed_target complete_operation
    complete_rounds creation_error failure_message failure_phase is_conflict is_open
    operation_reference operation_spec request_fields same_operation target_reference json_integer
    text_items text_list text_map
reservation_returns = refl

reservation-Reported_example : Succeeded calm free "reboot" "system" none "servers" body [] after
reservation-Reported_example =
    reservation-Reported calm free "reboot" "system" none "servers" body [] after "done"
      reservation_returns

-- Work that a lost connection interrupts.
abbrev lost : Exec Log String
lost = raise (http_error 500)

lost_raises : lost [] ≡ (err (http_error 500), [])
unfolding raise
lost_raises = refl

protected-IsUncertain_example :
    Reports calm operation (http_error 500) [] (protected calm operation lost [])
protected-IsUncertain_example =
    protected-IsUncertain calm operation lost [] [] (http_error 500) lost_raises tt

-- A disk of 1000 MiB with an EFI and a root partition.
abbrev entry : ℕ → String → String → String → ℕ → ℕ → Json
entry number role filesystem mount start last = object (
    (
      "spec",
      object (
          ("number", int (pos number))
          ∷ ("role", str role)
          ∷ ("filesystem", str filesystem)
          ∷ ("mountPoint", str mount)
          ∷ []),
    )
    ∷ ("startMiB", int (pos start))
    ∷ ("endMiB", int (pos last))
    ∷ [])

abbrev layout : Dict
layout =
    (
      "storagePlan",
      object (
          (
            "partitions",
            array (entry 1 "efi" "vfat" "/boot" 1 513 ∷ entry 2 "root" "ext4" "/" 513 900 ∷ []),
          )
          ∷ []),
    )
    ∷ []

abbrev disk : Dict
disk = ("disk", object (("size", int (pos 1048576000)) ∷ [])) ∷ []

abbrev planned : List Partition
planned =
    record {
      number = int (pos 1);
      role = str "efi";
      filesystem = str "vfat";
      mount_point = str "/boot";
      start_mib = 1;
      end_mib = 513;
    }
    ∷ record {
      number = int (pos 2);
      role = str "root";
      filesystem = str "ext4";
      mount_point = str "/";
      start_mib = 513;
      end_mib = 900;
    }
    ∷ []

disk_size : path (object disk) ("disk" ∷ "size" ∷ []) ≡ ok (int (pos 1048576000))
unfolding path
disk_size = refl

planned_two : validate_storage layout disk ≡ ok planned
unfolding validate_storage get_path as_dict entries_of lay_out partition_of path whole end_after
    is_beyond with_mount count_role eqb
planned_two = refl

validate_storage-IsLayout_example :
    IsLayout 1048576000 planned × (count_role "root" planned ≡ 1) × (count_role "efi" planned ≡ 1)
validate_storage-IsLayout_example =
    validate_storage-IsLayout disk 1048576000 disk_size layout planned planned_two

-- A run that was interrupted in the phase Installing, and the Server that it reserves.
abbrev interrupted_status : Dict
interrupted_status =
    ("phase", str "Installing")
    ∷ ("attemptID", str "u")
    ∷ ("snapshot", object [])
    ∷ ("maintenance", bool true)
    ∷ []

abbrev interrupted : World
interrupted = record {
  log = [];
  view = record {
    server = thing "Server" "alpha" [] (("provisioning", object interrupted_status) ∷ []);
    run = thing "ProvisioningRun" "run-1" [] interrupted_status;
  };
}

abbrev plain : Library
plain = record { lower = ok; address = ok; fingerprint = ok }

interrupted_attempt : attempt_or_empty interrupted.view.server ≡ ok interrupted_status
unfolding attempt_or_empty get_path as_dict
interrupted_attempt = refl

reconcile-Blocks_example : Reads Blocks [] (reconcile calm plain (str "r1") false interrupted).1.log
reconcile-Blocks_example =
    reconcile-Blocks calm plain (str "r1") interrupted interrupted_status interrupted_attempt refl

reconcile-Nothing_example :
    Reads Nothing [] (reconcile calm plain (str "r1") true interrupted).1.log
reconcile-Nothing_example = reconcile-Nothing calm plain (str "r1") interrupted

reconcile-AtMostOnce_example :
    AtMostOnce [] (reconcile calm plain (str "r1") false interrupted).1.log
reconcile-AtMostOnce_example = reconcile-AtMostOnce calm plain (str "r1") false interrupted

handle_failure-Clean_example :
    Clean [] (handle_failure calm plain (str "lost") null interrupted).1.log
handle_failure-Clean_example = handle_failure-Clean calm plain (str "lost") null interrupted

-- An API that refuses the first two writes as conflicts.
abbrev settling : Outside
settling log call = elim call [
  | Call.get collection name ↦ ok (thing_json operation)
  | Call.patch collection name uid version fields ↦
      if ltb (writes log) 2 then err (http_error 409) else ok (thing_json operation)
  | _ ↦ err (http_error 404)
]

operation_test : decode (thing_json operation) ≡ ok operation
unfolding decode json_object resource metadata_of json_string optional
operation_test = refl

open_test : (same_operation operation operation ≡ true) × (is_open operation ≡ true)
unfolding same_operation is_open eqb
open_test = (refl, refl)

settling-Settles : Settles settling operation 2
settling-Settles = record {
  reads = λ log.
      (thing_json operation, operation, refl, operation_test, open_test.0, open_test.1, refl);
  writable = λ log name uid version fields. elim (Bool-cases (ltb (writes log) 2)) [
    | inl h ↦ inr (
      ap (λ b. if b then err (http_error 409) else ok (thing_json operation)) h,
      ltb→lt (writes log) 2 h,
    )
    | inr h ↦ inl (
      thing_json operation,
      operation,
      ap (λ b. if b then err (http_error 409) else ok (thing_json operation)) h,
      operation_test,
    )
  ];
}

complete_operation-Settles_example :
    (complete_operation settling operation "Succeeded" "done" []).0 ≡ ok tt
complete_operation-Settles_example =
    complete_operation-Settles settling operation 2 "Succeeded" "done" [] settling-Settles
      (omega arith) (omega arith)

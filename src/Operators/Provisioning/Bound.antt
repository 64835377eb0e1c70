-- ===== src/Operators/Provisioning/Bound.antt =====
-- operators/provisioning.py: how a pass reads, checkpoints and releases the run that it is bound to.
-- The pass's state is the log of calls and the view, the `server` dictionary that the stages share
-- and that a checkpoint replaces in place.
use ansible_roles.Prelude.{
  ℕ, zero, suc, String, Bool, true, false, not, ◌&&◌, ◌||◌, none, some, [], ◌∷◌, ◌==◌, string_eq,
  if◌then◌else◌,
}
use ansible_roles.Result.{ok}
use ansible_roles.Json.{null, str, bool, Dict, object, get, insert, index, truthy, eqb}
use ansible_roles.Operators.Effects.{
  Log, Outside, Exec, pure, raise, lift, catch, choose, ◌>>=◌, ◌>>◌, refuse_if,
}
use ansible_roles.Operators.Resource.{Resource, json_string}
use ansible_roles.Operators.Api.{api_get, patch_status}
use ansible_roles.Operators.Operation.{is_conflict, operation_reference}
use ansible_roles.Operators.Provisioning.{
  Library, View, blocked, path, as_dict, attempt, attempt_or_empty, is_rebound, require_unchanged,
  validate_attempt_checkpoint, validate_pinned_server, one_of, get_path,
}

-- `value['status']['provisioning'] = copy.deepcopy(status)`
unfoldable pub with_attempt : Resource → Dict → Resource
with_attempt server status = record {
  kind = server.kind;
  api_version = server.api_version;
  metadata = server.metadata;
  spec = server.spec;
  status = insert "provisioning" (object status) server.status;
}

unfoldable pub is_deleted : Resource → Bool
is_deleted r = elim r.metadata.deletion_timestamp [ none ↦ false | some t ↦ truthy (str t) ]

module _ (outside : Outside) where
  unfoldable pub bind_run : Resource → Exec Log View
  bind_run server = do
    v ← lift (path (object server.status) ("provisioning" ∷ "activeRunRef" ∷ []))
    reference ← lift (as_dict v)
    n ← lift (index reference "name")
    name ← lift (json_string n "run name")
    run ← api_get outside "provisioning-runs" name
    refuse_if (is_rebound run reference server) (blocked "Run or machine binding changed")
    pure (record { server = with_attempt server run.status; run = run })

  -- A finished run that may give up its reservation: not one that is maintained or armed.
  unfoldable pub is_releasable : View → Resource → Bool
  is_releasable view run =
      run.metadata.uid == view.run.metadata.uid
      && not (truthy (get run.status "maintenance"))
      && not (truthy (get run.status "netbootArmed"))
      && one_of (get run.status "phase") ("Succeeded" ∷ "Blocked" ∷ [])

  unfoldable pub release_fields : Resource → Dict
  release_fields run =
      ("activeRunRef", null)
      ∷ ("maintenance", bool false)
      ∷ (if eqb (get run.status "phase") (str "Succeeded")
          then ("provisioned", bool true) ∷ ("lastSuccessfulRunRef", operation_reference run) ∷ []
          else [])

  unfoldable pub release_rounds : ℕ → View → Resource → Exec Log (Unit {0})
  release_rounds zero view run = raise (blocked "Concurrent reservation release")
  release_rounds (suc n) view run = do
    latest ← api_get outside "servers" view.server.metadata.name
    reserved ← lift (attempt_or_empty latest)
    refuse_if
        (not (latest.metadata.uid == view.server.metadata.uid)
          || not (eqb (get reserved "activeRunRef") (operation_reference run)))
        (blocked "Run lost its Server reservation")
    catch
        (patch_status outside latest (("provisioning", object (release_fields run)) ∷ []) >>= λ _.
          pure tt)
        (λ e. choose (is_conflict e) (release_rounds n view run) (raise e))

  unfoldable pub release_run : View → Exec Log (Unit {0})
  release_run view = do
    run ← api_get outside "provisioning-runs" view.run.metadata.name
    choose (is_releasable view run) (release_rounds 5 view run) (pure tt)

abbrev pub phase_fields : String → Dict → Dict
phase_fields phase fields = ("phase", str phase) ∷ ("currentStage", str phase) ∷ fields

-- What a pass works on; an exception leaves the view that the last checkpoint made.
pub record World : Type 0 where
  pub log : Log
  pub view : View

module _ {A : Type 0} where
  -- A step that reads and writes outside only.
  unfoldable pub api : Exec Log A → Exec World A
  api m w = let (r, log) = m w.log in (r, record { log = log; view = w.view })

  -- A step on the view that the pass holds now.
  unfoldable pub with_view : (View → Exec World A) → Exec World A
  with_view f w = f w.view w

-- `server.update(view)`
unfoldable pub become : View → Exec World (Unit {0})
become view w = (ok tt, record { log = w.log; view = view })

module _ (outside : Outside) (lib : Library) where
  -- Revalidate ownership and pinned inputs, and read the current revisions.
  unfoldable pub current : Bool → Bool → View → Exec Log View
  current allow_paused allow_network_pending snapshot = do
    latest ← api_get outside "servers" snapshot.server.metadata.name
    view ← bind_run outside latest
    lift (
        require_unchanged (str view.server.metadata.uid) (str snapshot.server.metadata.uid)
          "Server identity")
    refuse_if (is_deleted view.server) (blocked "Server is terminating")
    lift (validate_attempt_checkpoint view snapshot)
    before ← lift (attempt snapshot)
    pinned ← lift (index before "snapshot")
    lift (validate_pinned_server lib view.server pinned allow_network_pending)
    enabled ← lift (path (object view.server.spec) ("provisioning" ∷ "enabled" ∷ []))
    settings ← lift (get_path (object view.server.spec) ("reconciliation" ∷ []))
    refuse_if (not allow_paused && (not (truthy enabled) || truthy (get settings "paused")))
        (blocked "Provisioning was disabled or paused")
    pure view

  unfoldable pub checkpoint_rounds : ℕ → String → Dict → View → Exec Log View
  checkpoint_rounds zero phase fields view = raise (blocked "Concurrent provisioning status update")
  checkpoint_rounds (suc n) phase fields view = do
    latest ← current true true view
    catch
        (patch_status outside latest.run (phase_fields phase fields) >>= λ run.
          pure (record { server = with_attempt latest.server run.status; run = run }))
        (λ e. choose (is_conflict e) (checkpoint_rounds n phase fields view) (raise e))

  -- Merge a checkpoint after revalidation, and go on with the run that the API returned.
  unfoldable pub checkpoint : String → Dict → Exec World (Unit {0})
  checkpoint phase fields =
      with_view λ view. do next ← api (checkpoint_rounds 5 phase fields view); become next

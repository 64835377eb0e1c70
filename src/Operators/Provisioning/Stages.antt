-- ===== src/Operators/Provisioning/Stages.antt =====
-- operators/provisioning.py: the physical stages. The probe, key files, ssh and the artifact
-- requests are calls of the outside; an Ansible stage is a call with the play's variables.
use ansible_roles.Prelude.{
  String, Bool, true, false, not, ◌||◌, List, [], ◌∷◌, ◌==◌, string_eq, if◌then◌else◌,
}
use ansible_roles.Result
use ansible_roles.Result.{Error, Result, ok, err, operator_error}
use ansible_roles.Json.{Json, null, str, bool, Dict, object, get, get_or, index, truthy, eqb}
use ansible_roles.Operators.Effects.{
  Call, Outside, Exec, pure, lift, choose, ◌>>=◌, ◌>>◌, refuse_if, request,
}
use ansible_roles.Operators.Resource.{Resource}
use ansible_roles.Operators.Provisioning.{
  Library, View, blocked, path, as_dict, get_path, attempt, management,
}
use ansible_roles.Operators.Provisioning.Bound.{World, api, with_view, current, checkpoint}

-- The management address as the Server reports it, checked to be an address literal.
unfoldable pub host_address : Library → Resource → Result Json
host_address lib server = Result.◌>>=◌ (management server.status) λ m.
    Result.◌>>=◌ (get_path (object m) ("address" ∷ [])) λ a.
      if truthy (get a "address")
      then lib.address (get a "address")
      else err (
          operator_error "ManagementNetworkPending"
            "Waiting for an unambiguous management interface and address")

-- The variables of a stage's play, each with where the attempt or its pinned plan holds it.
abbrev attempt_variables : List (String × List String)
attempt_variables =
    ("provision_attempt_id", "attemptID" ∷ [])
    ∷ ("provision_target_disk", "snapshot" ∷ "targetDisk" ∷ [])
    ∷ ("provision_plan_digest", "snapshot" ∷ "planDigest" ∷ [])
    ∷ ("provision_operating_system", "snapshot" ∷ "inputs" ∷ "serverSpec" ∷ "operatingSystem" ∷ [])
    ∷ ("provision_server_spec", "snapshot" ∷ "inputs" ∷ "serverSpec" ∷ [])
    ∷ ("storage", "snapshot" ∷ "inputs" ∷ "storage" ∷ [])
    ∷ ("provision_users", "snapshot" ∷ "inputs" ∷ "users" ∷ [])
    ∷ ("provision_disable_eee", "snapshot" ∷ "inputs" ∷ "disableEEE" ∷ [])
    ∷ ("provision_boot_mac", "snapshot" ∷ "bootMAC" ∷ [])
    ∷ ("provision_disk_identity", "snapshot" ∷ "diskIdentity" ∷ [])
    ∷ ("provision_live_build_id", "snapshot" ∷ "isoBuildID" ∷ [])
    ∷ ("ssh_ca_bundle_digest", "snapshot" ∷ "trustBundleDigest" ∷ [])
    ∷ ("provision_live_artifacts", "snapshot" ∷ "artifacts" ∷ [])
    ∷ ("provision_source_boot_id", "sourceBootID" ∷ [])
    ∷ []

unfoldable pub read_variables : Json → List (String × List String) → Result Dict
read_variables v [] = ok []
read_variables v ((name, at) ∷ rest) =
    Result.◌>>=◌ (path v at) λ w. Result.◌>>=◌ (read_variables v rest) λ d. ok ((name, w) ∷ d)

-- run_stage's `variables`, in another order and less the boot arguments.
unfoldable pub stage_variables : Library → View → String → Result Dict
stage_variables lib view stage = Result.◌>>=◌ (attempt view) λ a.
    Result.◌>>=◌ (host_address lib view.server) λ address.
      Result.◌>>=◌ (read_variables (object a) attempt_variables) λ d.
        Result.◌>>=◌ (path (object view.server.status) ("sshTrust" ∷ "publicBundle" ∷ [])) λ bundle.
          ok (
            ("provision_stage", str stage)
            ∷ ("provision_server_uid", str view.server.metadata.uid)
            ∷ ("provision_run_uid", str view.run.metadata.uid)
            ∷ ("provision_live_boot_id", get_or a "liveBootID" (str ""))
            ∷ ("provision_destructive_authorized", bool (stage == "install"))
            ∷ ("ssh_ca_bundle", bundle)
            ∷ d)

unfoldable pub attempt_now : Exec World Dict
attempt_now = with_view λ view. lift (attempt view)

-- `facts[k]`
unfoldable pub fact : Dict → String → Exec World Json
fact facts k = lift (index facts k)

module _ (outside : Outside) (lib : Library) where
  -- A call that changes nothing of the API and runs no stage: its name and input.
  unfoldable pub ask : String → Json → Exec World Json
  ask name v = api (request outside (Call.other name v))

  -- The probe over strict SSH.
  unfoldable pub inspect : Exec World Dict
  inspect = do v ← api (request outside Call.inspect); lift (as_dict v)

  -- Run a reviewed stage; a play that fails is the outside's error.
  unfoldable pub run_stage : String → Exec World (Unit {0})
  run_stage name = with_view λ view. do
    variables ← lift (stage_variables lib view name)
    api (request outside (Call.stage name variables) >>= λ _. pure tt)

  unfoldable pub reboot : Exec World (Unit {0})
  reboot = run_stage "reboot"

  -- A revalidation whose view the caller drops.
  unfoldable pub revalidate : Bool → Exec World (Unit {0})
  revalidate allow_paused =
      with_view λ view. api (current outside lib allow_paused false view >>= λ _. pure tt)

  unfoldable pub mark : String → Dict → Exec World (Unit {0})
  mark = checkpoint outside lib

  -- `"next_entry=" in …["grubEnvironment"]`; the search in the text is the outside's.
  unfoldable pub has_next_entry : Dict → Exec World Bool
  has_next_entry facts = do
    environment ← fact facts "grubEnvironment"
    found ← ask "'next_entry=' in" environment
    pure (truthy found)

  -- Prepare a fresh handoff from the pinned source session; never reuse a live boot.
  unfoldable pub prepare_boot : Exec World (Unit {0})
  prepare_boot = do
    a ← attempt_now
    facts ← inspect
    disk ← fact facts "disk"
    pinned ← lift (path (object a) ("snapshot" ∷ "diskIdentity" ∷ []))
    boot ← fact facts "bootID"
    source ← lift (index a "sourceBootID")
    refuse_if (not (eqb disk pinned) || not (eqb boot source))
        (blocked "Unexpected session/disk before boot preparation")
    ask "artifact_preflight" (object a)
    live ← fact facts "live"
    choose (truthy live)
        (do
          run_stage "prime"
          mark "PreparingBoot" (("netbootArmed", bool true) ∷ [])
          run_stage "refresh-prepare"
          revalidate false
          mark "AwaitingLive" (("liveBootID", null) ∷ ("netbootArmed", bool true) ∷ [])
          revalidate false
          run_stage "refresh-boot")
        (do
          pending ← has_next_entry facts
          refuse_if pending (blocked "Unaccounted pending GRUB entry")
          run_stage "prime"
          mark "AwaitingLive" (("netbootArmed", bool true) ∷ [])
          revalidate false
          run_stage "arm"
          revalidate false
          reboot)

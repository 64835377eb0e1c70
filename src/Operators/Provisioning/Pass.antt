-- ===== src/Operators/Provisioning/Pass.antt =====
-- operators/provisioning.py: one pass over a reserved run, from the claim to the release, and what
-- follows a failure. `plan` of the source, ssh and key files are calls of the outside.
pub mod Failure
use ansible_roles.Prelude.{
  String, Bool, true, false, not, ◌&&◌, ◌||◌, none, some, List, [], ◌∷◌, ◌==◌, string_eq,
}
use ansible_roles.Result
use ansible_roles.Json.{Json, null, str, bool, int, Dict, object, get, index, truthy, eqb}
use ansible_roles.Operators.Effects.{
  Log, Outside, Exec, pure, lift, catch, catch_exception, choose, given, ◌>>=◌, ◌>>◌, refuse_if,
}
use ansible_roles.Operators.Resource.{Resource, json_string}
use ansible_roles.Operators.Api.{api_get, api_list, patch_status}
use ansible_roles.Operators.Provisioning.{
  Library, View, blocked, path, get_path, attempt, attempt_or_empty, eligible, identity, one_of,
}
use ansible_roles.Operators.Provisioning.Bound.{
  World, api, with_view, become, current, bind_run, release_run, with_attempt, is_deleted,
}
use ansible_roles.Operators.Provisioning.Disk.{validate_disk}
use ansible_roles.Operators.Provisioning.Stages.{
  fact, ask, inspect, run_stage, reboot, attempt_now, revalidate, mark, prepare_boot,
}
use ansible_roles.Operators.Provisioning.Session.{
  expected_marker, differs_from, or_empty, verify_installed, await_session, drain_commands,
}

-- ACTIVE
abbrev pub active : List String
active = "PreparingBoot" ∷ "AwaitingLive" ∷ "Installing" ∷ "AwaitingInstalled" ∷ "Verifying" ∷ []

abbrev dependencies : List (String × String)
dependencies =
    ("machines", "machineRef")
    ∷ ("isos", "isoRef")
    ∷ ("ssh-key-pairs", "keyPairRef")
    ∷ ("ssh-certificate-authorities", "authorityRef")
    ∷ []

-- The claim of the run: `snapshot` is the plan, and `build` the CI build.
unfoldable pub claim_fields : View → Json → Json → Json → Json → Dict
claim_fields view snapshot time build boot =
    ("phase", str "PreparingBoot")
    ∷ ("currentStage", str "PreparingBoot")
    ∷ ("maintenance", bool true)
    ∷ ("attemptID", str view.run.metadata.uid)
    ∷ ("snapshot", snapshot)
    ∷ ("startedAt", time)
    ∷ ("completedAt", null)
    ∷ ("backendRunID", build)
    ∷ (
      "observedServerGeneration",
      elim view.server.metadata.generation [ none ↦ null | some g ↦ int g ],
    )
    ∷ ("sourceBootID", boot)
    ∷ ("liveBootID", null)
    ∷ ("bootstrapPublicKey", null)
    ∷ ("netbootArmed", bool false)
    ∷ ("bootTarget", str "live")
    ∷ ("message", str "Attempt claimed")
    ∷ []

abbrev pub interrupted_fields : Dict
interrupted_fields =
    (
      "message",
      str
          "Interrupted Installing: inspect the disk/checkpoint manually; never automatically rewipe",
    )
    ∷ ("maintenance", bool true)
    ∷ []

module _ (outside : Outside) (lib : Library) where
  unfoldable pub verify_each : Json → List (String × String) → Exec Log (Unit {0})
  verify_each snapshot [] = pure tt
  verify_each snapshot ((collection, field) ∷ rest) = do
    n ← lift (path snapshot (field ∷ "name" ∷ []))
    name ← lift (json_string n "dependency name")
    dependency ← api_get outside collection name
    uid ← lift (path snapshot (field ∷ "uid" ∷ []))
    refuse_if (is_deleted dependency || not (eqb (str dependency.metadata.uid) uid))
        (blocked "Pinned dependency was deleted/replaced")
    verify_each snapshot rest

  -- Replaced dependencies or trust drift end a pinned attempt.
  unfoldable pub verify_dependencies : Exec World (Unit {0})
  verify_dependencies = with_view λ view. do
    a ← attempt_now
    snapshot ← lift (index a "snapshot")
    api (verify_each snapshot dependencies)
    trust ← lift (path snapshot ("trustBundleDigest" ∷ []))
    refuse_if (not (eqb (get view.server.status "desiredSSHTrustBundleDigest") trust))
        (blocked "CA trust changed during this attempt; do not install a mixed plan")

  -- Attest the live boot and disk before the private key is delivered, then record the session.
  unfoldable pub enroll_live : Dict → Exec World (Unit {0})
  enroll_live facts = do
    a ← attempt_now
    pinned ← lift (path (object a) ("snapshot" ∷ "diskIdentity" ∷ []))
    lift (validate_disk facts true)
    disk ← fact facts "disk"
    refuse_if (not (eqb disk pinned)) (blocked "Live disk identity differs from the approved plan")
    revalidate outside lib false
    ask outside lib "host_private_key" null
    revalidate outside lib false
    ask outside lib "ssh_host_keys.run_play, ssh_probe" null
    boot ← fact facts "bootID"
    mark outside lib "AwaitingLive"
        (("liveBootID", boot) ∷ ("bootstrapPublicKey", null) ∷ ("netbootArmed", bool false) ∷ [])

  -- The recorded live session again, or the first one.
  unfoldable pub live_session : Exec World Dict
  live_session = do
    a ← attempt_now
    choose (truthy (get a "liveBootID"))
        (do
          facts ← inspect outside lib
          boot ← fact facts "bootID"
          source ← lift (index a "sourceBootID")
          live ← fact facts "live"
          build ← fact facts "liveBuildID"
          pinned ← lift (path (object a) ("snapshot" ∷ "isoBuildID" ∷ []))
          refuse_if
              (eqb boot source
                || not (eqb boot (get a "liveBootID"))
                || not (truthy live)
                || not (eqb build pinned))
              (blocked "Recorded live session changed")
          pure facts)
        (await_session outside lib true)

  -- The one destructive stage, right after its checkpoint.
  unfoldable pub erase : Exec World (Unit {0})
  erase = do
    mark outside lib "Installing" (
        ("message", str "Destructive stage entered; interrupted runs require manual inspection")
        ∷ [])
    run_stage outside lib "install"

  unfoldable pub install_live : Exec World (Unit {0})
  install_live = do
    facts ← live_session
    enroll_live facts
    verify_dependencies
    revalidate outside lib false
    erase
    mark outside lib "AwaitingInstalled"
        (("bootTarget", str "installed") ∷ ("netbootArmed", bool false) ∷ [])

  -- The final reboot, only from the exact completed live session.
  unfoldable pub leave_live : Dict → Dict → Exec World (Unit {0})
  leave_live a before = do
    expected ← with_view λ view. lift (expected_marker view a)
    boot ← fact before "bootID"
    let same = eqb boot (get a "liveBootID")
    ready ← choose same (fact before "stagedBootReady") (pure (bool false))
    staged ← choose (truthy ready) (lift (or_empty (get before "stagedMarker"))) (pure [])
    refuse_if (not same || not (truthy ready) || differs_from staged expected)
        (blocked "Cannot verify a completed staged installation for final boot")
    revalidate outside lib true
    reboot outside lib

  -- Recover only the final reboot boundary; never replay installation.
  unfoldable pub finish_boot : Exec World (Unit {0})
  finish_boot = do
    a ← attempt_now
    before ← catch_exception (inspect outside lib >>= λ facts. pure (some facts)) (λ e. pure none)
    given before (pure tt) (λ facts. (do
      live ← choose (truthy (object facts)) (fact facts "live") (pure (bool false))
      choose (truthy live) (leave_live a facts) (pure tt)))
    facts ← await_session outside lib false
    verify_installed outside lib facts
    mark outside lib "Verifying" []

  -- Disk, OS and services are verified before the run completes and is released.
  unfoldable pub verify_completion : Exec World (Unit {0})
  verify_completion = do
    facts ← inspect outside lib
    verify_installed outside lib facts
    revalidate outside lib false
    run_stage outside lib "post"
    ask outside lib "systemctl is-active" null
    again ← inspect outside lib
    verify_installed outside lib again
    time ← ask outside lib "now" null
    mark outside lib "Succeeded" (
        ("maintenance", bool false)
        ∷ ("completedAt", time)
        ∷ ("message", str "Fresh installed boot, marker and management services verified")
        ∷ [])
    with_view λ view. api (release_run outside view)

  -- No other run may hold lifecycle maintenance.
  unfoldable pub check_others : View → List Resource → Exec Log (Unit {0})
  check_others view [] = pure tt
  check_others view (other ∷ others) = do
    reserved ← lift (eligible other)
    choose (other.metadata.uid == view.server.metadata.uid || not reserved) (pure tt) (do
      bound ← bind_run outside other
      a ← lift (attempt bound)
      refuse_if (not (eqb (get a "phase") (str "Pending")) && truthy (get a "maintenance"))
          (blocked "Another run retains lifecycle maintenance; inspect it first"))
    check_others view others

  unfoldable pub claim : View → Dict → Json → Exec World (Unit {0})
  claim view facts snapshot = do
    others ← api (api_list outside "servers")
    api (check_others view others)
    time ← ask outside lib "now" null
    build ← ask outside lib "BUILD_ID" (str "manual")
    boot ← fact facts "bootID"
    run ← api (patch_status outside view.run (claim_fields view snapshot time build boot))
    become (record { server = with_attempt view.server run.status; run = run })

  -- Validate before claiming: whether the attempt goes on.
  unfoldable pub prepare_attempt : Bool → Exec World Bool
  prepare_attempt preflight = with_view λ view. do
    provisioning ← lift (get_path (object view.server.spec) ("provisioning" ∷ []))
    settings ← lift (get_path (object view.server.spec) ("reconciliation" ∷ []))
    choose (not (truthy (get provisioning "enabled")) || truthy (get settings "paused"))
        (pure false)
        (do
          lift (identity lib view.server)
          facts ← inspect outside lib
          lift (validate_disk facts false)
          live ← fact facts "live"
          on_target ← fact facts "rootOnTarget"
          refuse_if (truthy live && truthy on_target)
              (blocked "Live root depends on the approved disk")
          ready ← fact facts "grubReady"
          refuse_if (not (truthy live) && not (truthy ready))
              (blocked "Installed host has no validated GRUB/iPXE path; manual setup required")
          snapshot ← ask outside lib "plan" (object facts)
          choose preflight (pure false) (claim view facts snapshot >>= λ _. pure true))

  -- `if server['status']['provisioning']['phase'] == phase: m`
  unfoldable pub in_phase : String → Exec World (Unit {0}) → Exec World (Unit {0})
  in_phase phase m = do
    a ← attempt_now
    p ← lift (index a "phase")
    choose (eqb p (str phase)) m (pure tt)

  -- The stages of a pass, in order: one that succeeds leads to the next.
  unfoldable pub advance : Exec World (Unit {0})
  advance = do
    in_phase "PreparingBoot" (prepare_boot outside lib)
    in_phase "AwaitingLive" install_live
    in_phase "AwaitingInstalled" finish_boot
    in_phase "Verifying" verify_completion

  -- From a claimed attempt on: the pinned revision, the pinned inputs and the dependencies first.
  unfoldable pub resume : Json → Exec World (Unit {0})
  resume revision = with_view λ view. do
    a ← attempt_now
    pinned ← lift (path (object a) ("snapshot" ∷ "codeRevision" ∷ []))
    refuse_if (not (eqb pinned revision))
        (blocked "Resume requires the pinned operator-code revision")
    phase ← lift (index a "phase")
    latest ← api (
        current outside lib (eqb phase (str "AwaitingInstalled"))
          (one_of phase ("AwaitingLive" ∷ "AwaitingInstalled" ∷ [])) view)
    become latest
    verify_dependencies
    drain_commands outside lib
    advance

  -- A run that is over: released once more, unless it holds maintenance.
  unfoldable pub settle : Dict → Bool → Exec World (Unit {0})
  settle a preflight = with_view λ view. do
    refuse_if (eqb (get a "phase") (str "Blocked") && truthy (get a "maintenance"))
        (blocked "Blocked run retains maintenance; inspect its failed build before recovery")
    choose preflight (pure tt) (api (release_run outside view))

  -- A run without an attempt is claimed first.
  unfoldable pub start : Dict → Bool → Json → Exec World (Unit {0})
  start a preflight revision =
      choose (not (truthy (get a "attemptID")) || not (one_of (get a "phase") active))
        (do go_on ← prepare_attempt preflight; choose go_on (resume revision) (pure tt))
        (resume revision)

  -- reconcile, after `attempt_status` is read.
  unfoldable pub dispatch : Dict → Bool → Json → Exec World (Unit {0})
  dispatch a preflight revision =
      choose (one_of (get a "phase") ("Succeeded" ∷ "Blocked" ∷ [])) (settle a preflight) (
        choose (preflight && one_of (get a "phase") active) (pure tt) (
          choose (eqb (get a "phase") (str "Installing"))
            (mark outside lib "Blocked" interrupted_fields) (start a preflight revision)))

  unfoldable pub reconcile : Json → Bool → Exec World (Unit {0})
  reconcile revision preflight =
      with_view λ view. do a ← lift (attempt_or_empty view.server); dispatch a preflight revision

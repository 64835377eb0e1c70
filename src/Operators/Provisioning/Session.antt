-- ===== src/Operators/Provisioning/Session.antt =====
-- operators/provisioning.py: waiting for a changed boot session, and what is attested of it.
use ansible_roles.Prelude.{
  ℕ, zero, suc, Bool, true, false, not, ◌&&◌, ◌||◌, Option, none, some, [], ◌∷◌, ◌==◌, string_eq,
  if◌then◌else◌,
}
use ansible_roles.Result
use ansible_roles.Result.{Error, Result, ok, err, operator_error, raise_if}
use ansible_roles.Json.{
  Json, null, str, bool, obj, end, Dict, object, get, get_or, index, truthy, eqb,
}
use ansible_roles.Operators.Effects.{
  Outside, Exec, pure, raise, lift, catch, catch_exception, choose, given, ◌>>=◌, ◌>>◌, refuse_if,
}
use ansible_roles.Prelude.{any}
use ansible_roles.Operators.Resource.{Resource}
use ansible_roles.Operators.Api.{api_list}
use ansible_roles.Operators.Provisioning.{one_of}
use ansible_roles.Operators.Provisioning.{Library, View, blocked, path, as_dict}
use ansible_roles.Operators.Provisioning.Bound.{World, api, with_view, become, current}
use ansible_roles.Operators.Provisioning.Disk.{verify_installed_storage}
use ansible_roles.Operators.Provisioning.Stages.{
  fact, ask, inspect, attempt_now, mark, has_next_entry, host_address,
}

-- The four fields that bind an installed marker to this attempt.
unfoldable pub expected_marker : View → Dict → Result Dict
expected_marker view a = Result.◌>>=◌ (index a "attemptID") λ id.
    Result.◌>>=◌ (path (object a) ("snapshot" ∷ "planDigest" ∷ [])) λ plan_digest. ok (
      ("serverUID", str view.server.metadata.uid)
      ∷ ("attemptID", id)
      ∷ ("runUID", str view.run.metadata.uid)
      ∷ ("planDigest", plan_digest)
      ∷ [])

-- `any(marker.get(k) != v for k, v in expected.items())`
unfoldable pub differs_from : Dict → Dict → Bool
differs_from marker [] = false
differs_from marker ((k, v) ∷ expected) = not (eqb (get marker k) v) || differs_from marker expected

-- `facts.get(k) or {}`
unfoldable pub or_empty : Json → Result Dict
or_empty v = as_dict (if truthy v then v else obj end)

unfoldable pub is_debian : Json → Bool
is_debian distribution = eqb distribution (str "debian")

-- The probe found the session that a pass waits for.
unfoldable pub is_intended : Bool → Dict → Dict → Result Bool
is_intended live a facts = Result.◌>>=◌ (index facts "live") λ l.
    Result.◌>>=◌ (index facts "bootID") λ boot.
      ok (
        eqb l (bool live) && not (eqb boot (get a (if live then "sourceBootID" else "liveBootID"))))

-- A live session must be of the pinned image.
unfoldable pub is_right_build : Bool → Dict → Dict → Result Bool
is_right_build false a facts = ok true
is_right_build true a facts = Result.◌>>=◌ (index facts "liveBuildID") λ build.
    Result.◌>>=◌ (path (object a) ("snapshot" ∷ "isoBuildID" ∷ [])) λ pinned. ok (eqb build pinned)

unfoldable pub is_pending_network : Error → Bool
is_pending_network (operator_error reason message) = reason == "ManagementNetworkPending"
is_pending_network _ = false

-- A command that is dispatched or runs.
unfoldable pub is_in_flight : Resource → Bool
is_in_flight command = one_of (get command.status "phase") ("Dispatching" ∷ "Running" ∷ [])

module _ (outside : Outside) (lib : Library) where
  -- The installed system is the requested one: `os` is /etc/os-release, its quotes stripped by the
  -- outside.
  unfoldable pub verify_os : Dict → Dict → Exec World (Unit {0})
  verify_os a facts = do
    v ← lift (path (object a) ("snapshot" ∷ "inputs" ∷ "serverSpec" ∷ "operatingSystem" ∷ []))
    o ← fact facts "os"
    os ← lift (as_dict o)
    id ← ask outside lib "strip quotes" (get_or os "ID" (str ""))
    distribution ← lift (path v ("distribution" ∷ []))
    refuse_if (not (eqb id distribution)) (blocked "Installed OS differs from requested target")
    choose (is_debian distribution)
        (do
          codename ← ask outside lib "strip quotes" (get_or os "VERSION_CODENAME" (str ""))
          version ← lift (path v ("version" ∷ []))
          refuse_if (not (eqb codename version))
              (blocked "Installed OS differs from requested target"))
        (pure tt)

  -- Fresh boot, marker, root disk, OS, restored GRUB and the whole layout.
  unfoldable pub verify_installed : Dict → Exec World (Unit {0})
  verify_installed facts = do
    a ← attempt_now
    marker ← lift (or_empty (get facts "marker"))
    live ← fact facts "live"
    root_type ← fact facts "rootType"
    boot ← fact facts "bootID"
    disk ← fact facts "disk"
    pinned ← lift (path (object a) ("snapshot" ∷ "diskIdentity" ∷ []))
    refuse_if
        (truthy live
          || not (eqb root_type (str "ext4"))
          || eqb boot (get a "liveBootID")
          || not (eqb disk pinned))
        (blocked "Not a fresh installed boot")
    expected ← with_view λ view. lift (expected_marker view a)
    root ← fact facts "rootUUID"
    refuse_if
        (differs_from marker expected
          || not (truthy root)
          || not (eqb (get marker "rootUUID") root)
          || not (truthy (get facts "rootOnTarget")))
        (blocked "Installed marker/root/disk does not match this attempt")
    verify_os a facts
    ready ← fact facts "grubReady"
    pending ← has_next_entry outside lib facts
    refuse_if (not (truthy ready) || pending) (blocked "Installed GRUB contract is not restored")
    storage ← lift (path (object a) ("snapshot" ∷ "inputs" ∷ "storage" ∷ []))
    layout ← lift (as_dict storage)
    lift (verify_installed_storage layout facts)

  -- First contact with a live session, limited to this attempt: its key is pinned only after the
  -- session has proved to be the live one.
  unfoldable pub first_contact : Dict → Exec World Dict
  first_contact a = do
    pin ← ask outside lib "ssh_probe accept-new" null
    facts ← inspect outside lib
    live ← fact facts "live"
    build ← fact facts "liveBuildID"
    boot ← fact facts "bootID"
    pinned ← lift (path (object a) ("snapshot" ∷ "isoBuildID" ∷ []))
    refuse_if (not (truthy live) || not (eqb build pinned) || eqb boot (get a "sourceBootID"))
        (blocked "Fresh contact is not the intended live session")
    mark outside lib "AwaitingLive" (("bootstrapPublicKey", pin) ∷ [])
    pure facts

  -- The facts of one round of await_session: nothing where the host does not answer yet.
  unfoldable pub contact : Bool → Dict → Exec World (Option Dict)
  contact live a = catch_exception (inspect outside lib >>= λ facts. pure (some facts)) (λ e.
      choose (live && not (truthy (get a "bootstrapPublicKey")))
        (catch_exception (first_contact a >>= λ facts. pure (some facts)) (λ f. pure none))
        (pure none))

  unfoldable pub pause : Exec World (Unit {0})
  pause = ask outside lib "sleep" null >>= λ _. pure tt

  -- The address is reported and a literal; only a missing one may be waited for.
  unfoldable pub is_reachable : Exec World Bool
  is_reachable = with_view λ view.
      catch (lift (host_address lib view.server) >>= λ v. pure true)
        (λ e. choose (is_pending_network e) (pure false) (raise e))

  -- The loop of await_session; `n` rounds are left.
  unfoldable pub await_rounds : ℕ → Bool → Exec World Dict
  await_rounds zero live = raise (blocked "Timed out waiting for the intended changed boot session")
  await_rounds (suc n) live = do
    more ← ask outside lib "time.monotonic() < deadline" null
    refuse_if (not (truthy more))
        (blocked "Timed out waiting for the intended changed boot session")
    view ← with_view λ view. api (current outside lib (not live) true view)
    become view
    reachable ← is_reachable
    choose reachable
        (do
          a ← attempt_now
          answer ← contact live a
          given answer (pause >> await_rounds n live) (λ facts. (do
            intended ← lift (is_intended live a facts)
            choose intended
                (do
                  right ← lift (is_right_build live a facts)
                  refuse_if (not right) (blocked "Booted the wrong immutable live image")
                  pure facts)
                (pause >> await_rounds n live))))
        (pause >> await_rounds n live)

  -- Each round that does not end the wait sleeps five of the 600 seconds.
  unfoldable pub await_session : Bool → Exec World Dict
  await_session live = await_rounds 121 live

  -- The loop of drain_commands; `n` rounds are left.
  unfoldable pub drain_rounds : ℕ → Exec World (Unit {0})
  drain_rounds zero = raise (blocked "In-flight administrative builds did not drain")
  drain_rounds (suc n) = do
    commands ← api (api_list outside "commands")
    choose (not (any is_in_flight commands)) (pure tt) (do
      over ← ask outside lib "time.monotonic() >= deadline" null
      refuse_if (truthy over) (blocked "In-flight administrative builds did not drain")
      pause
      drain_rounds n)

  -- Each round that goes on sleeps five of the 300 seconds.
  unfoldable pub drain_commands : Exec World (Unit {0})
  drain_commands = drain_rounds 61

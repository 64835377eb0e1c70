-- ===== src/Operators/Provisioning/Pass/Failure.antt =====
-- handle_failure of operators/provisioning.py: what follows a pass that raised.
use ansible_roles.Prelude.{Bool, true, false, not, ◌&&◌, ◌||◌, [], ◌∷◌, if◌then◌else◌}
use ansible_roles.Json.{Json, str, bool, Dict, get, eqb, truthy}
use ansible_roles.Operators.Effects.{
  Outside, Exec, pure, lift, catch_exception, choose, ◌>>=◌, ◌>>◌,
}
use ansible_roles.Operators.Resource.{json_string}
use ansible_roles.Operators.Api.{patch_status}
use ansible_roles.Operators.Provisioning.{Library, View, attempt_or_empty, one_of}
use ansible_roles.Operators.Provisioning.Bound.{World, api, with_view, become, current, release_run}
use ansible_roles.Operators.Provisioning.Stages.{fact, inspect, run_stage, mark, has_next_entry}
use ansible_roles.Operators.Provisioning.Pass.{active}

-- Work on another view than the pass's own, which stays as it is.
unfoldable pub on_view : {A : Type 0} → View → Exec World A → Exec World A
on_view view m w =
    let (r, after) = m (record { log = w.log; view = view }) in
    (r, record { log = after.log; view = w.view })

-- `failure_message or …`
unfoldable pub blocked_message : Json → Json
blocked_message message =
    if truthy message
    then message
    else str
        "Attempt blocked; inspect boot selection/disk before explicitly requesting another attempt"

unfoldable pub blocked_fields : Dict → Json → Bool → Dict
blocked_fields a message keep =
    ("maintenance", bool keep)
    ∷ ("netbootArmed", bool (keep && truthy (get a "netbootArmed")))
    ∷ ("message", blocked_message message)
    ∷ []

module _ (outside : Outside) (lib : Library) where
  -- Clear the boot selection on the host: whether maintenance must be kept all the same.
  unfoldable pub clear_boot : Dict → Bool → Exec World Bool
  clear_boot a keep = do
    facts ← inspect outside lib
    boot ← fact facts "bootID"
    choose (not (eqb boot (get a "sourceBootID"))) (pure true) (do
      live ← fact facts "live"
      choose (truthy live) (run_stage outside lib "refresh-clear" >>= λ _. pure keep) (do
        run_stage outside lib "clear"
        again ← inspect outside lib
        pending ← has_next_entry outside lib again
        pure (pending || keep)))

  -- The cleanup of an armed boot, whose every failure keeps maintenance.
  unfoldable pub disarm : Dict → Bool → Exec World Bool
  disarm a keep = with_view λ view.
      catch_exception
        (api (current outside lib true false view) >>= λ latest. on_view latest (clear_boot a keep))
        (λ e. pure true)

  unfoldable pub block : Dict → Json → Exec World (Unit {0})
  block a message = do
    let installing = eqb (get a "phase") (str "Installing")
    keep ← choose (truthy (get a "netbootArmed")) (disarm a installing) (pure installing)
    mark outside lib "Blocked" (blocked_fields a message keep)
    with_view λ view. api (release_run outside view)

  -- The phase stays, with a message.
  unfoldable pub keep_phase : Dict → Json → Exec World (Unit {0})
  keep_phase a message = do
    phase ← lift (json_string (get a "phase") "phase")
    mark outside lib phase (("message", message) ∷ [])

  unfoldable pub still_pending : Exec World (Unit {0})
  still_pending = with_view λ view. do
    run ← api (
        patch_status outside view.run (
          (
            "message",
            str
                "Preflight pending: inspect dependencies, disk identity and management connectivity",
          )
          ∷ []))
    become (record { server = view.server; run = run })

  unfoldable pub handle_failure : Json → Json → Exec World (Unit {0})
  handle_failure message reason = with_view λ view. do
    a ← lift (attempt_or_empty view.server)
    choose (eqb (get a "phase") (str "Pending")) still_pending (
        choose (not (one_of (get a "phase") active)) (pure tt) (
          choose (eqb reason (str "ManagementNetworkPending")) (keep_phase a message) (
            choose (one_of (get a "phase") ("AwaitingInstalled" ∷ "Verifying" ∷ []))
              (keep_phase a (str "Verification pending; later passes may verify, never rewipe"))
              (block a message))))

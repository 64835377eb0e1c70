-- ===== src/Operators/Provisioning/Guarded/Stages.antt =====
-- The stages other than the destructive one keep a condition that reads, writes and they keep.
use ansible_roles.Prelude.{◌≡◌, refl, String, false, ◌==◌, string_eq}
use ansible_roles.Json.{Dict}
use ansible_roles.Operators.Effects.{Call, Log, Outside, Exec}
use ansible_roles.Operators.Effects.Keeps.{
  Keeps, Keeps-bind, Keeps-choose, Keeps-request, Tolerant, Tolerates, keeps_rules,
}
use ansible_roles.Operators.Provisioning.{Library}
use ansible_roles.Operators.Provisioning.Bound.{World}
use ansible_roles.Operators.Provisioning.Stages.{run_stage, reboot, prepare_boot}
use ansible_roles.Operators.Provisioning.Pass.{leave_live, finish_boot, verify_completion, in_phase}
use ansible_roles.Operators.Provisioning.Guarded.{On, world_rules}
use ansible_roles.Operators.Provisioning.Guarded.Writes.{
  read_rules, Writes, step-Keeps, release_run-Keeps, has_next_entry-Keeps, verify_installed-Keeps,
  await_session-Keeps,
}

-- Every stage that does not erase keeps the condition.
abbrev pub Stages : (Log → Type 0) → Type 0
Stages P =
    (name : String) (d : Dict) → (name == "install") ≡ false → Tolerates P (Call.stage name d)

module _ (outside : Outside) (lib : Library) {P : Log → Type 0} (reads : Tolerant P)
    (writes : (d : Dict) → Writes P d) (stages : Stages P) where
  pub run_stage-Keeps :
      (name : String) → (name == "install") ≡ false → Keeps (On P) (run_stage outside lib name)
  unfolding run_stage
  run_stage-Keeps name h = search (keeps_rules, world_rules, Keeps-request, stages, h) depth 30

  reboot-Keeps : Keeps (On P) (reboot outside lib)
  unfolding reboot
  reboot-Keeps = run_stage-Keeps "reboot" refl

  prime-Keeps : Keeps (On P) (run_stage outside lib "prime")
  prime-Keeps = run_stage-Keeps "prime" refl

  refresh_prepare-Keeps : Keeps (On P) (run_stage outside lib "refresh-prepare")
  refresh_prepare-Keeps = run_stage-Keeps "refresh-prepare" refl

  refresh_boot-Keeps : Keeps (On P) (run_stage outside lib "refresh-boot")
  refresh_boot-Keeps = run_stage-Keeps "refresh-boot" refl

  arm-Keeps : Keeps (On P) (run_stage outside lib "arm")
  arm-Keeps = run_stage-Keeps "arm" refl

  post-Keeps : Keeps (On P) (run_stage outside lib "post")
  post-Keeps = run_stage-Keeps "post" refl

  pub prepare_boot-Keeps : Keeps (On P) (prepare_boot outside lib)
  unfolding prepare_boot
  prepare_boot-Keeps =
      search
        (
          read_rules, step-Keeps, has_next_entry-Keeps, reboot-Keeps, prime-Keeps,
          refresh_prepare-Keeps, refresh_boot-Keeps, arm-Keeps,
        )
        depth 80

  leave_live-Keeps : (a before : Dict) → Keeps (On P) (leave_live outside lib a before)
  unfolding leave_live
  leave_live-Keeps a before = search (read_rules, reboot-Keeps) depth 60

  pub finish_boot-Keeps : Keeps (On P) (finish_boot outside lib)
  unfolding finish_boot
  finish_boot-Keeps =
      search (read_rules, step-Keeps, await_session-Keeps, verify_installed-Keeps, leave_live-Keeps)
        depth 80

  pub verify_completion-Keeps : Keeps (On P) (verify_completion outside lib)
  unfolding verify_completion
  verify_completion-Keeps =
      search (read_rules, step-Keeps, verify_installed-Keeps, post-Keeps, release_run-Keeps) depth
        80

  pub in_phase-Keeps :
      (phase : String) (m : Exec World (Unit {0}))
      → Keeps (On P) m
      → Keeps (On P) (in_phase outside lib phase m)
  unfolding in_phase
  in_phase-Keeps phase m k =
      Keeps-bind _ _ (search read_rules)
        λ a. Keeps-bind _ _ (search read_rules) λ p. Keeps-choose _ _ _ k (search keeps_rules)

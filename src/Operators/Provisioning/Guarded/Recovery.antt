-- ===== src/Operators/Provisioning/Guarded/Recovery.antt =====
-- handle_failure never erases.
use ansible_roles.Prelude.{refl, Bool}
use ansible_roles.Json.{Json, Dict}
use ansible_roles.Operators.Effects.{Log, Outside, Exec}
use ansible_roles.Operators.Effects.Keeps.{Keeps}
use ansible_roles.Operators.Provisioning.{Library, View}
use ansible_roles.Operators.Provisioning.Bound.{World}
use ansible_roles.Operators.Provisioning.Stages.{run_stage}
use ansible_roles.Operators.Provisioning.Pass.Failure.{
  on_view, clear_boot, disarm, block, keep_phase, still_pending, handle_failure,
}
use ansible_roles.Operators.Provisioning.Guarded.{On}
use ansible_roles.Operators.Provisioning.Guarded.Writes.{
  read_rules, step-Keeps, patch-Keeps, release_run-Keeps, has_next_entry-Keeps,
}
use ansible_roles.Operators.Provisioning.Guarded.Stages.{run_stage-Keeps}
use ansible_roles.Operators.Provisioning.Guarded.Erasure.{
  Clean, here, Clean-Tolerant, Clean-Writes, Clean-Stages,
}

Keeps-on_view :
    {P : Log → Type 0} {A : Type 0} (view : View) (m : Exec World A)
    → Keeps (On P) m
    → Keeps (On P) (on_view view m)
unfolding on_view
Keeps-on_view view m k = record {
  holds = λ w h. record {
    of_log = (k.holds (record { log = w.log; view = view }) (record { of_log = h.of_log })).of_log;
  };
}

module _ (outside : Outside) (lib : Library) (base : Log) where
  abbrev Safe : World → Type 0
  Safe = On (Clean base)

  clear-Keeps : Keeps Safe (run_stage outside lib "clear")
  clear-Keeps = run_stage-Keeps outside lib Clean-Tolerant Clean-Writes Clean-Stages "clear" refl

  refresh-Keeps : Keeps Safe (run_stage outside lib "refresh-clear")
  refresh-Keeps =
      run_stage-Keeps outside lib Clean-Tolerant Clean-Writes Clean-Stages "refresh-clear" refl

  clear_boot-Keeps : (a : Dict) (keep : Bool) → Keeps Safe (clear_boot outside lib a keep)
  unfolding clear_boot
  clear_boot-Keeps a keep =
      search
        (read_rules, has_next_entry-Keeps, clear-Keeps, refresh-Keeps, Clean-Tolerant, Clean-Writes)
        depth 60

  disarm-Keeps : (a : Dict) (keep : Bool) → Keeps Safe (disarm outside lib a keep)
  unfolding disarm
  disarm-Keeps a keep =
      search (read_rules, Keeps-on_view, clear_boot-Keeps, Clean-Tolerant) depth 60

  block-Keeps : (a : Dict) (message : Json) → Keeps Safe (block outside lib a message)
  unfolding block
  block-Keeps a message =
      search (read_rules, step-Keeps, release_run-Keeps, disarm-Keeps, Clean-Tolerant, Clean-Writes)
        depth 60

  keep_phase-Keeps : (a : Dict) (message : Json) → Keeps Safe (keep_phase outside lib a message)
  unfolding keep_phase
  keep_phase-Keeps a message =
      search (read_rules, step-Keeps, Clean-Tolerant, Clean-Writes) depth 60

  still_pending-Keeps : Keeps Safe (still_pending outside lib)
  unfolding still_pending
  still_pending-Keeps = search (read_rules, patch-Keeps, Clean-Tolerant, Clean-Writes) depth 60

  handle_failure-Keeps :
      (message reason : Json) → Keeps Safe (handle_failure outside lib message reason)
  unfolding handle_failure
  handle_failure-Keeps message reason =
      search (read_rules, still_pending-Keeps, keep_phase-Keeps, block-Keeps) depth 60

-- What follows a failed pass, the cleanup of an armed boot included, never runs the destructive
-- stage, whatever the phase of the run and whatever the API and the hosts answer.
pub handle_failure-Clean :
    (outside : Outside) (lib : Library) (message reason : Json) (w : World)
    → Clean w.log (handle_failure outside lib message reason w).1.log
handle_failure-Clean outside lib message reason w =
    ((handle_failure-Keeps outside lib w.log message reason).holds w
      (record { of_log = here })).of_log

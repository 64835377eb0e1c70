-- ===== src/Operators/Provisioning/Guarded/Writes.antt =====
-- The steps that write keep a condition that reads and their own writes keep.
use ansible_roles.Prelude.{ℕ, zero, suc, String, Bool, true}
use ansible_roles.Json.{Json, Dict}
use ansible_roles.Operators.Effects.{Call, Log, Outside, choose}
use ansible_roles.Operators.Effects.Keeps.{
  Keeps, Keeps-bind, Keeps-catch, Keeps-choose, Keeps-given, Keeps-request, Tolerant, Tolerates,
  keeps_rules,
}
use ansible_roles.Operators.Resource.{Resource}
use ansible_roles.Operators.Api.{patch_status}
use ansible_roles.Operators.Provisioning.{Library, View}
use ansible_roles.Operators.Provisioning.Bound.{
  checkpoint_rounds, phase_fields, checkpoint, release_rounds, release_run,
}
use ansible_roles.Operators.Provisioning.Stages.{mark, has_next_entry}
use ansible_roles.Operators.Provisioning.Session.{
  verify_os, verify_installed, first_contact, contact, pause, is_reachable, await_rounds,
  await_session,
}
use ansible_roles.Operators.Provisioning.Pass.{
  enroll_live, live_session, claim, prepare_attempt, settle,
}
use ansible_roles.Operators.Provisioning.Guarded.{On, world_rules}
use ansible_roles.Operators.Provisioning.Guarded.Reads.{
  api_get-Keeps, api_list-Keeps, current-Keeps, ask-Keeps, inspect-Keeps, fact-Keeps,
  attempt_now-Keeps, revalidate-Keeps, verify_dependencies-Keeps, check_others-Keeps,
}

pub ruleset read_rules = (
  keeps_rules, world_rules, api_get-Keeps, api_list-Keeps, current-Keeps, ask-Keeps, inspect-Keeps,
  fact-Keeps, attempt_now-Keeps, revalidate-Keeps, verify_dependencies-Keeps, check_others-Keeps,
)

-- Every status write with these fields keeps the condition.
abbrev pub Writes : (Log → Type 0) → Dict → Type 0
Writes P fields =
    (collection name uid version : String)
    → Tolerates P (Call.patch collection name uid version fields)

module _ (outside : Outside) (lib : Library) {P : Log → Type 0} (reads : Tolerant P) where
  pub patch_status-Keeps :
      (target : Resource) (fields : Dict)
      → Writes P fields
      → Keeps P (patch_status outside target fields)
  unfolding patch_status
  patch_status-Keeps target fields w = search (keeps_rules, Keeps-request, w) depth 20

  pub checkpoint_rounds-Keeps :
      (n : ℕ) (phase : String) (fields : Dict) (view : View)
      → Writes P (phase_fields phase fields)
      → Keeps P (checkpoint_rounds outside lib n phase fields view)
  unfolding checkpoint_rounds
  checkpoint_rounds-Keeps zero phase fields view w = search keeps_rules
  checkpoint_rounds-Keeps (suc n) phase fields view w =
      Keeps-bind _ _ (current-Keeps outside lib reads true true view) λ latest.
        Keeps-catch _ _ (search (keeps_rules, patch_status-Keeps)) (λ e.
          Keeps-choose _ _ _ (checkpoint_rounds-Keeps n phase fields view w) (search keeps_rules))

  pub mark-Keeps :
      (phase : String) (fields : Dict)
      → Writes P (phase_fields phase fields)
      → Keeps (On P) (mark outside lib phase fields)
  unfolding mark checkpoint
  mark-Keeps phase fields w = search (keeps_rules, world_rules, checkpoint_rounds-Keeps) depth 20

  pub settle-Keeps : (a : Dict) → Keeps (On P) (settle outside lib a true)
  unfolding settle choose
  settle-Keeps a = search (keeps_rules, world_rules) depth 20

module _ (outside : Outside) (lib : Library) {P : Log → Type 0} (reads : Tolerant P)
    (writes : (d : Dict) → Writes P d) where
  pub step-Keeps : (phase : String) (fields : Dict) → Keeps (On P) (mark outside lib phase fields)
  step-Keeps phase fields =
      mark-Keeps outside lib reads phase fields (writes (phase_fields phase fields))

  pub patch-Keeps :
      (target : Resource) (fields : Dict) → Keeps P (patch_status outside target fields)
  patch-Keeps target fields = patch_status-Keeps outside lib reads target fields (writes fields)

  release_rounds-Keeps :
      (n : ℕ) (view : View) (run : Resource) → Keeps P (release_rounds outside n view run)
  unfolding release_rounds
  release_rounds-Keeps zero view run = search keeps_rules
  release_rounds-Keeps (suc n) view run =
      Keeps-bind _ _ (api_get-Keeps outside lib reads _ _) λ latest.
        Keeps-bind _ _ (search keeps_rules) λ reserved. Keeps-bind _ _ (search keeps_rules) λ _.
          Keeps-catch _ _ (search (keeps_rules, patch-Keeps))
            (λ e. Keeps-choose _ _ _ (release_rounds-Keeps n view run) (search keeps_rules))

  pub release_run-Keeps : (view : View) → Keeps P (release_run outside view)
  unfolding release_run
  release_run-Keeps view = search (read_rules, release_rounds-Keeps) depth 20

  pub claim-Keeps :
      (view : View) (facts : Dict) (snapshot : Json)
      → Keeps (On P) (claim outside lib view facts snapshot)
  unfolding claim
  claim-Keeps view facts snapshot = search (read_rules, patch-Keeps) depth 40

  pub prepare_attempt-Keeps :
      (preflight : Bool) → Keeps (On P) (prepare_attempt outside lib preflight)
  unfolding prepare_attempt
  prepare_attempt-Keeps preflight = search (read_rules, claim-Keeps) depth 60

  pub has_next_entry-Keeps : (facts : Dict) → Keeps (On P) (has_next_entry outside lib facts)
  unfolding has_next_entry
  has_next_entry-Keeps facts = search read_rules depth 20

  verify_os-Keeps : (a facts : Dict) → Keeps (On P) (verify_os outside lib a facts)
  unfolding verify_os
  verify_os-Keeps a facts = search read_rules depth 40

  pub verify_installed-Keeps : (facts : Dict) → Keeps (On P) (verify_installed outside lib facts)
  unfolding verify_installed
  verify_installed-Keeps facts = search (read_rules, has_next_entry-Keeps, verify_os-Keeps) depth 60

  first_contact-Keeps : (a : Dict) → Keeps (On P) (first_contact outside lib a)
  unfolding first_contact
  first_contact-Keeps a = search (read_rules, step-Keeps) depth 40

  contact-Keeps : (live : Bool) (a : Dict) → Keeps (On P) (contact outside lib live a)
  unfolding contact
  contact-Keeps live a = search (read_rules, first_contact-Keeps) depth 40

  pause-Keeps : Keeps (On P) (pause outside lib)
  unfolding pause
  pause-Keeps = search read_rules depth 20

  is_reachable-Keeps : Keeps (On P) (is_reachable outside lib)
  unfolding is_reachable
  is_reachable-Keeps = search read_rules depth 20

  await_rounds-Keeps : (n : ℕ) (live : Bool) → Keeps (On P) (await_rounds outside lib n live)
  unfolding await_rounds
  await_rounds-Keeps zero live = search keeps_rules
  await_rounds-Keeps (suc n) live =
      let again = await_rounds-Keeps n live in
      Keeps-bind _ _ (search read_rules) λ more. Keeps-bind _ _ (search read_rules) λ _.
        Keeps-bind _ _ (search read_rules depth 20) λ view. Keeps-bind _ _ (search read_rules) λ _.
          Keeps-bind _ _ is_reachable-Keeps λ reachable.
            Keeps-choose _ _ _
              (Keeps-bind _ _ (search read_rules) λ a.
                Keeps-bind _ _ (contact-Keeps live a) λ answer.
                  Keeps-given answer _ _ (Keeps-bind _ _ pause-Keeps (λ _. again)) λ facts.
                    Keeps-bind _ _ (search read_rules) λ intended.
                      Keeps-choose _ _ _ (search read_rules depth 20)
                        (Keeps-bind _ _ pause-Keeps (λ _. again)))
              (Keeps-bind _ _ pause-Keeps (λ _. again))

  pub await_session-Keeps : (live : Bool) → Keeps (On P) (await_session outside lib live)
  unfolding await_session
  await_session-Keeps live = await_rounds-Keeps 121 live

  pub enroll_live-Keeps : (facts : Dict) → Keeps (On P) (enroll_live outside lib facts)
  unfolding enroll_live
  enroll_live-Keeps facts = search (read_rules, step-Keeps) depth 60

  pub live_session-Keeps : Keeps (On P) (live_session outside lib)
  unfolding live_session
  live_session-Keeps = search (read_rules, await_session-Keeps) depth 60

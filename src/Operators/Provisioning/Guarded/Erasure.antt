-- ===== src/Operators/Provisioning/Guarded/Erasure.antt =====
-- The destructive stage: how often a pass runs it, and after what.
use ansible_roles.Prelude.{
  ℕ, zero, suc, ◌≡◌, refl, String, Bool, true, false, [], ◌∷◌, ◌==◌, string_eq,
}
use ansible_roles.Result.{Result, ok, err}
use ansible_roles.Json.{Json, Dict}
use ansible_roles.Operators.Effects.{Call, Log, Outside, Exec, lift, request}
use ansible_roles.Operators.Effects.Keeps.{Keeps, Tolerant, keeps_rules}
use ansible_roles.Operators.Effects.Triple.{
  Triple, Triple-state, Triple-pure, Triple-raise, Triple-lift, Triple-catch, Triple-choose,
  Triple-refuse_if, Triple-bind, Triple-request, Triple-keeps, Triple-then, Triple-weaken,
}
use ansible_roles.Operators.Resource.{Resource}
use ansible_roles.Operators.Api.{decode, collection_of, patch_status}
use ansible_roles.Operators.Provisioning.{Library, View}
use ansible_roles.Operators.Provisioning.Bound.{
  World, phase_fields, current, checkpoint_rounds, checkpoint, release_run,
}
use ansible_roles.Operators.Provisioning.Stages.{mark, run_stage, attempt_now}
use ansible_roles.Operators.Provisioning.Pass.{
  erase, install_live, in_phase, advance, resume, start, settle, dispatch, reconcile,
  interrupted_fields,
}
use ansible_roles.Operators.Provisioning.Guarded.{
  On, world_rules, Keeps-api, Keeps-become, Triple-api, Triple-with_view, Triple-become,
}
use ansible_roles.Operators.Provisioning.Guarded.Reads.{
  current-Keeps, drain_commands-Keeps, revalidate-Keeps, verify_dependencies-Keeps,
}
use ansible_roles.Operators.Provisioning.Guarded.Writes.{
  Writes, step-Keeps, release_run-Keeps, enroll_live-Keeps, live_session-Keeps,
  prepare_attempt-Keeps,
}
use ansible_roles.Operators.Provisioning.Guarded.Stages.{
  Stages, prepare_boot-Keeps, finish_boot-Keeps, verify_completion-Keeps, in_phase-Keeps,
}

unfoldable pub is_erasure : Call → Bool
is_erasure (Call.stage name d) = name == "install"
is_erasure _ = false

-- No destructive stage among the events down to `base`.
pub data Clean (base : Log) : Log → Type 0 where
  here : Clean base base
  step :
      {log : Log} (call : Call) (answer : Result Json)
      → is_erasure call ≡ false
      → Clean base log
      → Clean base (record { call = call; answer = answer } ∷ log)

-- The newest event is a write of the phase Installing that the API accepted.
abbrev pub Committed : Log → Type 0
Committed [] = ⊥
Committed (e ∷ older) =
    (collection : String) × (name : String) × (uid : String) × (version : String) × (fields : Dict)
    × (v : Json) × (e.call
        ≡ Call.patch collection name uid version (phase_fields "Installing" fields))
    × (e.answer ≡ ok v)

-- At most one destructive stage among the events down to `base`, right after such a write.
pub data AtMostOnce (base : Log) : Log → Type 0 where
  clean : {log : Log} → Clean base log → AtMostOnce base log
  erased :
      {log : Log} (d : Dict) (answer : Result Json)
      → Committed log
      → Clean base log
      → AtMostOnce base (record { call = Call.stage "install" d; answer = answer } ∷ log)
  later :
      {log : Log} (call : Call) (answer : Result Json)
      → is_erasure call ≡ false
      → AtMostOnce base log
      → AtMostOnce base (record { call = call; answer = answer } ∷ log)

module _ {base : Log} where
  pub Clean-Tolerant : Tolerant (Clean base)
  unfolding is_erasure
  Clean-Tolerant = record {
    get = λ c n log r g. step _ r refl g;
    list = λ c log r g. step _ r refl g;
    inspect = λ log r g. step _ r refl g;
    other = λ n v log r g. step _ r refl g;
  }

  pub Clean-Writes : (d : Dict) → Writes (Clean base) d
  unfolding is_erasure
  Clean-Writes d c n u v log r g = step _ r refl g

  pub Clean-Stages : Stages (Clean base)
  unfolding is_erasure
  Clean-Stages name d h log r g = step _ r h g

  AtMostOnce-Tolerant : Tolerant (AtMostOnce base)
  unfolding is_erasure
  AtMostOnce-Tolerant = record {
    get = λ c n log r g. later _ r refl g;
    list = λ c log r g. later _ r refl g;
    inspect = λ log r g. later _ r refl g;
    other = λ n v log r g. later _ r refl g;
  }

  AtMostOnce-Writes : (d : Dict) → Writes (AtMostOnce base) d
  unfolding is_erasure
  AtMostOnce-Writes d c n u v log r g = later _ r refl g

  AtMostOnce-Stages : Stages (AtMostOnce base)
  unfolding is_erasure
  AtMostOnce-Stages name d h log r g = later _ r h g

  weaker : (w : World) → On (Clean base) w → On (AtMostOnce base) w
  weaker w g = record { of_log = clean g.of_log }

module _ (outside : Outside) (lib : Library) (base : Log) where
  abbrev Before : World → Type 0
  Before = On (Clean base)

  abbrev After : World → Type 0
  After = On (AtMostOnce base)

  abbrev Ready : Log → Type 0
  Ready log = Clean base log × Committed log

  patch_status-Ready :
      (target : Resource) (fields : Dict)
      → Triple
          (Clean base)
          (patch_status outside target (phase_fields "Installing" fields))
          (λ _. Ready)
          (Clean base)
  unfolding patch_status
  patch_status-Ready target fields =
      Triple-bind {Q = λ _. Clean base} (lift (collection_of target.kind)) _
        (Triple-lift (collection_of target.kind) (λ c p log g. g) (λ log g. g))
        λ c.
          Triple-bind {Q = λ _. Ready} (request outside _) _
            (Triple-request outside _
              (λ v log g.
                (Clean-Writes _ _ _ _ _ log (ok v) g, (_, _, _, _, fields, v, refl, refl)))
              (λ e log g. Clean-Writes _ _ _ _ _ log (err e) g))
            (λ v. Triple-lift (decode v) (λ r p log g. g) (λ log g. g.0))

  checkpoint_rounds-Ready :
      (n : ℕ) (fields : Dict) (view : View)
      → Triple
          (Clean base)
          (checkpoint_rounds outside lib n "Installing" fields view)
          (λ _. Ready)
          (Clean base)
  unfolding checkpoint_rounds
  checkpoint_rounds-Ready zero fields view = Triple-raise _ (λ log g. g)
  checkpoint_rounds-Ready (suc n) fields view =
      Triple-bind {Q = λ _. Clean base} (current outside lib true true view) _
        (Triple-then _ (λ s g. g) (current-Keeps outside lib Clean-Tolerant true true view))
        λ latest.
          Triple-catch _ _ (Clean base)
            (Triple-bind {Q = λ _. Ready} (patch_status outside latest.run _) _
              (patch_status-Ready latest.run fields) (λ run. Triple-pure _ (λ log g. g)))
            (λ e.
              Triple-choose _ _ _ (checkpoint_rounds-Ready n fields view)
                (Triple-raise e (λ log g. g)))

  erase-AtMostOnce : Triple Before (erase outside lib) (λ _. After) After
  unfolding erase mark checkpoint run_stage
  erase-AtMostOnce =
      Triple-bind {Q = λ _. On Ready} _ _
        (Triple-with_view _ λ view.
          Triple-bind {Q = λ _. On Ready} _ _
            (Triple-api _ (
              Triple-weaken _ (Clean base) (Clean base) (λ s g. g) (λ s g. clean g)
                (checkpoint_rounds-Ready 5 _ view)))
            (λ next. Triple-become next (λ w g. record { of_log = g.of_log })))
        λ _. Triple-with_view _ λ view.
          Triple-bind {Q = λ _. On Ready} _ _
            (Triple-lift _ (λ a p w g. g) (λ w g. record { of_log = clean g.of_log.0 }))
            λ d. Triple-api _ (
              Triple-bind {Q = λ _. AtMostOnce base} _ _
                (Triple-request outside _ (λ v log g. erased d (ok v) g.1 g.0)
                  (λ e log g. erased d (err e) g.1 g.0))
                (λ v. Triple-pure tt (λ log g. g)))

  install_live-AtMostOnce : Triple Before (install_live outside lib) (λ _. After) After
  unfolding install_live
  install_live-AtMostOnce =
      Triple-bind {Q = λ _. Before} _ _
        (Triple-then _ weaker (live_session-Keeps outside lib Clean-Tolerant Clean-Writes))
        λ facts.
          Triple-bind {Q = λ _. Before} _ _
            (Triple-then _ weaker (enroll_live-Keeps outside lib Clean-Tolerant Clean-Writes facts))
            λ _.
              Triple-bind {Q = λ _. Before} _ _
                (Triple-then _ weaker (verify_dependencies-Keeps outside lib Clean-Tolerant))
                λ _.
                  Triple-bind {Q = λ _. Before} _ _
                    (Triple-then _ weaker (revalidate-Keeps outside lib Clean-Tolerant false))
                    λ _. Triple-bind {Q = λ _. After} _ _ erase-AtMostOnce (λ _.
                      Triple-keeps _ (λ w g. g)
                        (step-Keeps outside lib AtMostOnce-Tolerant AtMostOnce-Writes _ _))

  in_phase-AtMostOnce :
      (phase : String) (m : Exec World (Unit {0}))
      → Triple Before m (λ _. After) After
      → Triple Before (in_phase outside lib phase m) (λ _. After) After
  unfolding in_phase attempt_now
  in_phase-AtMostOnce phase m t =
      Triple-bind {Q = λ _. Before} _ _
        (Triple-with_view _ λ view. Triple-lift _ (λ a p w g. g) weaker)
        λ a.
          Triple-bind {Q = λ _. Before} _ _ (Triple-lift _ (λ a p w g. g) weaker)
            (λ p. Triple-choose _ _ _ t (Triple-pure tt weaker))

  advance-AtMostOnce : Triple Before (advance outside lib) (λ _. After) After
  unfolding advance
  advance-AtMostOnce =
      Triple-bind {Q = λ _. Before} _ _
        (Triple-then _ weaker (
          in_phase-Keeps outside lib Clean-Tolerant Clean-Writes Clean-Stages "PreparingBoot" _
            (prepare_boot-Keeps outside lib Clean-Tolerant Clean-Writes Clean-Stages)))
        λ _.
          Triple-bind {Q = λ _. After} _ _
            (in_phase-AtMostOnce "AwaitingLive" _ install_live-AtMostOnce)
            λ _.
              Triple-bind {Q = λ _. After} _ _
                (Triple-keeps _ (λ w g. g)
                  (in_phase-Keeps outside lib AtMostOnce-Tolerant AtMostOnce-Writes
                    AtMostOnce-Stages "AwaitingInstalled" _
                    (finish_boot-Keeps outside lib AtMostOnce-Tolerant AtMostOnce-Writes
                      AtMostOnce-Stages)))
                λ _.
                  Triple-keeps _ (λ w g. g)
                    (in_phase-Keeps outside lib AtMostOnce-Tolerant AtMostOnce-Writes
                      AtMostOnce-Stages "Verifying" _
                      (verify_completion-Keeps outside lib AtMostOnce-Tolerant AtMostOnce-Writes
                        AtMostOnce-Stages))

  -- What precedes the stages of a resumed attempt.
  resume-AtMostOnce :
      (revision : Json) → Triple Before (resume outside lib revision) (λ _. After) After
  unfolding resume attempt_now
  resume-AtMostOnce revision = Triple-with_view _ λ view.
      Triple-bind {Q = λ _. Before} _ _
        (Triple-with_view _ λ view. Triple-lift _ (λ a p w g. g) weaker)
        λ a. Triple-bind {Q = λ _. Before} _ _ (Triple-lift _ (λ a p w g. g) weaker) λ pinned.
          Triple-bind {Q = λ _. Before} _ _ (Triple-refuse_if _ _ (λ e w g. g) weaker) λ _.
            Triple-bind {Q = λ _. Before} _ _ (Triple-lift _ (λ a p w g. g) weaker) λ phase.
              Triple-bind {Q = λ _. Before} _ _
                (Triple-then _ weaker
                  (Keeps-api _ (current-Keeps outside lib Clean-Tolerant _ _ view)))
                λ latest.
                  Triple-bind {Q = λ _. Before} _ _ (Triple-then _ weaker (Keeps-become latest))
                    λ _.
                      Triple-bind {Q = λ _. Before} _ _
                        (Triple-then _ weaker
                          (verify_dependencies-Keeps outside lib Clean-Tolerant))
                        λ _.
                          Triple-bind {Q = λ _. Before} _ _
                            (Triple-then _ weaker (drain_commands-Keeps outside lib Clean-Tolerant))
                            (λ _. advance-AtMostOnce)

  start-AtMostOnce :
      (a : Dict) (preflight : Bool) (revision : Json)
      → Triple Before (start outside lib a preflight revision) (λ _. After) After
  unfolding start
  start-AtMostOnce a preflight revision =
      Triple-choose _ _ _
        (Triple-bind {Q = λ _. Before} _ _
          (Triple-then _ weaker
            (prepare_attempt-Keeps outside lib Clean-Tolerant Clean-Writes preflight))
          (λ go_on. Triple-choose _ _ _ (resume-AtMostOnce revision) (Triple-pure tt weaker)))
        (resume-AtMostOnce revision)

  settle-Clean : (a : Dict) (preflight : Bool) → Keeps Before (settle outside lib a preflight)
  unfolding settle
  settle-Clean a preflight =
      let release : (view : View) → Keeps (Clean base) (release_run outside view) =
        release_run-Keeps outside lib Clean-Tolerant Clean-Writes in
      search (keeps_rules, world_rules, release) depth 30

  dispatch-AtMostOnce :
      (a : Dict) (preflight : Bool) (revision : Json)
      → Triple Before (dispatch outside lib a preflight revision) (λ _. After) After
  unfolding dispatch
  dispatch-AtMostOnce a preflight revision =
      Triple-choose _ _ _ (Triple-keeps _ weaker (settle-Clean a preflight)) (
        Triple-choose _ _ _ (Triple-pure tt weaker) (
          Triple-choose _ _ _
            (Triple-keeps _ weaker
              (step-Keeps outside lib Clean-Tolerant Clean-Writes "Blocked" interrupted_fields))
            (start-AtMostOnce a preflight revision)))

-- A pass runs the destructive stage at most once, and only as the call that directly follows a
-- write of the phase Installing that the API accepted; this holds whatever the API and the hosts
-- answer, and whether the pass returns or raises.
pub reconcile-AtMostOnce :
    (outside : Outside) (lib : Library) (revision : Json) (preflight : Bool) (w : World)
    → AtMostOnce w.log (reconcile outside lib revision preflight w).1.log
unfolding reconcile
reconcile-AtMostOnce outside lib revision preflight w =
    let after =
      Triple-state {P = On (Clean w.log)} {R = On (AtMostOnce w.log)}
        (reconcile outside lib revision preflight)
        (Triple-with_view _ λ view.
          Triple-bind {Q = λ _. On (Clean w.log)} _ _ (Triple-lift _ (λ a p w g. g) weaker)
            (λ a. dispatch-AtMostOnce outside lib w.log a preflight revision))
        w (record { of_log = here }) in
    after.of_log

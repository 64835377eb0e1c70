-- ===== src/Operators/Provisioning/Guarded/Refusals.antt =====
-- Passes that must not touch the host: a preflight, and one that finds an interrupted erasure.
use ansible_roles.Prelude.{◌≡◌, refl, String, Bool, true, false, not, ◌||◌, ◌∷◌, arith}
use ansible_roles.Result.{Error, Result, ok}
use ansible_roles.Json.{Json, Dict, get, eqb, str, truthy}
use ansible_roles.Operators.Effects.{Call, Log, Outside, Exec, pure, lift, choose, ◌>>=◌, refuse_if}
use ansible_roles.Operators.Effects.Keeps.{Keeps, Tolerant}
use ansible_roles.Operators.Effects.Triple.{
  Triple, Triple-state, Triple-pure, Triple-lift, Triple-choose, Triple-branch, Triple-refuse_if,
  Triple-bind, Triple-keeps,
}
use ansible_roles.Operators.Provisioning.{Library, attempt_or_empty, one_of}
use ansible_roles.Operators.Provisioning.Bound.{World, with_view, phase_fields}
use ansible_roles.Operators.Provisioning.Stages.{mark}
use ansible_roles.Operators.Provisioning.Pass.{
  active, start, dispatch, reconcile, prepare_attempt, interrupted_fields,
}
use ansible_roles.Operators.Provisioning.Guarded.{On, Triple-with_view}
use ansible_roles.Operators.Provisioning.Guarded.Reads.{inspect-Keeps, fact-Keeps, ask-Keeps}
use ansible_roles.Operators.Provisioning.Guarded.Writes.{Writes, mark-Keeps, settle-Keeps}

unfoldable pub is_read : Call → Bool
is_read (Call.patch collection name uid version fields) = false
is_read (Call.create collection kind name spec) = false
is_read (Call.stage name d) = false
is_read _ = true

-- The events down to `base` read, probe or ask; the only writes among them give `fields`, if at all.
pub data Reads (allowed : Dict → Type 0) (base : Log) : Log → Type 0 where
  here : Reads allowed base base
  read :
      {log : Log} (call : Call) (answer : Result Json)
      → is_read call ≡ true
      → Reads allowed base log
      → Reads allowed base (record { call = call; answer = answer } ∷ log)
  write :
      {log : Log} (collection name uid version : String) (fields : Dict) (answer : Result Json)
      → allowed fields
      → Reads allowed base log
      → Reads allowed base
          (record { call = Call.patch collection name uid version fields; answer = answer } ∷ log)

module _ {allowed : Dict → Type 0} {base : Log} where
  Reads-Tolerant : Tolerant (Reads allowed base)
  unfolding is_read
  Reads-Tolerant = record {
    get = λ c n log r g. read _ r refl g;
    list = λ c log r g. read _ r refl g;
    inspect = λ log r g. read _ r refl g;
    other = λ n v log r g. read _ r refl g;
  }

  Reads-Writes : (d : Dict) → allowed d → Writes (Reads allowed base) d
  Reads-Writes d h c n u v log r g = write c n u v d r h g

-- No writes at all.
abbrev pub Nothing : Dict → Type 0
Nothing d = ⊥

-- The write that blocks an interrupted run for inspection.
abbrev pub Blocks : Dict → Type 0
Blocks d = d ≡ phase_fields "Blocked" interrupted_fields

dispatch_interrupted :
    (outside : Outside) (lib : Library) (a : Dict) (revision : Json)
    → get a "phase" ≡ str "Installing"
    → dispatch outside lib a false revision ≡ mark outside lib "Blocked" interrupted_fields
unfolding dispatch choose eqb
dispatch_interrupted outside lib a revision h = rw h refl

-- A pass that finds its run in the phase Installing never runs a stage: it reads, and its only
-- writes set the phase Blocked with maintenance retained. So an interrupted erasure is not
-- repeated.
pub reconcile-Blocks :
    (outside : Outside) (lib : Library) (revision : Json) (w : World) (a : Dict)
    → attempt_or_empty w.view.server ≡ ok a
    → get a "phase" ≡ str "Installing"
    → Reads Blocks w.log (reconcile outside lib revision false w).1.log
unfolding reconcile with_view ◌>>=◌ lift
reconcile-Blocks outside lib revision w a found phase =
    let blocks =
      (mark-Keeps outside lib {P = Reads Blocks w.log} Reads-Tolerant "Blocked" interrupted_fields
          (Reads-Writes _ refl)).holds
        w (record { of_log = here }) in
    rw (found, dispatch_interrupted outside lib a revision phase) blocks.of_log

module _ (outside : Outside) (lib : Library) (base : Log) where
  abbrev Quiet : World → Type 0
  Quiet = On (Reads Nothing base)

  -- A preflight never goes on to the stages.
  abbrev Stopped : Bool → World → Type 0
  Stopped go_on w = (go_on ≡ false) × Quiet w

  stopped : (n : Exec World Bool) → Triple Quiet (choose true (pure false) n) Stopped Quiet
  unfolding choose
  stopped n = Triple-pure false (λ w g. (refl, g))

  prepare_attempt-Stopped : Triple Quiet (prepare_attempt outside lib true) Stopped Quiet
  unfolding prepare_attempt
  prepare_attempt-Stopped = Triple-with_view _ λ view.
      Triple-bind {Q = λ _. Quiet} _ _ (lifted _) λ provisioning.
        Triple-bind {Q = λ _. Quiet} _ _ (lifted _) λ settings. Triple-choose _ _ _ stop (
          Triple-bind {Q = λ _. Quiet} _ _ (lifted _) λ _.
            Triple-bind {Q = λ _. Quiet} _ _ (kept _ (inspect-Keeps outside lib Reads-Tolerant))
              λ facts. Triple-bind {Q = λ _. Quiet} _ _ (lifted _) λ _.
                Triple-bind {Q = λ _. Quiet} _ _
                  (kept _ (fact-Keeps outside lib Reads-Tolerant facts _))
                  λ live.
                    Triple-bind {Q = λ _. Quiet} _ _
                      (kept _ (fact-Keeps outside lib Reads-Tolerant facts _))
                      λ on_target. Triple-bind {Q = λ _. Quiet} _ _ (refused _ _) λ _.
                        Triple-bind {Q = λ _. Quiet} _ _
                          (kept _ (fact-Keeps outside lib Reads-Tolerant facts _))
                          λ ready. Triple-bind {Q = λ _. Quiet} _ _ (refused _ _) λ _.
                            Triple-bind {Q = λ _. Quiet} _ _
                              (kept _ (ask-Keeps outside lib Reads-Tolerant _ _))
                              λ snapshot. stopped _)
    where
      kept : {A : Type 0} (m : Exec World A) → Keeps Quiet m → Triple Quiet m (λ _. Quiet) Quiet
      kept m k = Triple-keeps m (λ w g. g) k

      lifted : {A : Type 0} (r : Result A) → Triple Quiet (lift r) (λ _. Quiet) Quiet
      lifted r = Triple-lift r (λ a p w g. g) (λ w g. g)

      refused : (b : Bool) (e : Error) → Triple Quiet (refuse_if b e) (λ _. Quiet) Quiet
      refused b e = Triple-refuse_if b e (λ p w g. g) (λ w g. g)

      stop : Triple Quiet (pure false) Stopped Quiet
      stop = Triple-pure false (λ w g. (refl, g))

  go_on-Quiet :
      (m : Exec World (Unit {0})) (b : Bool)
      → Triple (Stopped b) (choose b m (pure tt)) (λ _. Quiet) Quiet
  go_on-Quiet m b =
      Triple-branch b m (pure tt) (λ e. record { run = λ w g. absurd (contradiction e g.0) })
        (λ _. Triple-pure tt (λ w g. g.1))
    where
      contradiction : b ≡ true → b ≡ false → ⊥
      contradiction e f = cc

  start-Quiet :
      (a : Dict) (revision : Json)
      → one_of (get a "phase") active ≡ false
      → Triple Quiet (start outside lib a true revision) (λ _. Quiet) Quiet
  unfolding start
  start-Quiet a revision idle =
      Triple-branch _ _ _
        (λ _. Triple-bind {Q = Stopped} _ _ prepare_attempt-Stopped (λ b. go_on-Quiet _ b))
        (λ claimed.
          absurd (
            contradiction (truthy (get a "attemptID")) (one_of (get a "phase") active) idle
              claimed))
    where
      contradiction : (x y : Bool) → y ≡ false → (not x || not y) ≡ false → ⊥
      contradiction x y e f = ground arith

  installing_is_active :
      (a : Dict)
      → one_of (get a "phase") active ≡ false
      → eqb (get a "phase") (str "Installing") ≡ true
      → ⊥
  installing_is_active a idle installing = ground arith

  dispatch-Quiet :
      (a : Dict) (revision : Json)
      → Triple Quiet (dispatch outside lib a true revision) (λ _. Quiet) Quiet
  unfolding dispatch
  dispatch-Quiet a revision =
      Triple-choose _ _ _ (Triple-keeps _ (λ w g. g) (settle-Keeps outside lib Reads-Tolerant a)) (
        Triple-branch _ _ _ (λ _. Triple-pure tt (λ w g. g))
          λ idle.
            Triple-branch _ _ _ (λ installing. absurd (installing_is_active a idle installing))
              (λ _. start-Quiet a revision idle))

-- A preflight pass changes nothing: it creates and patches no resource and runs no stage, whatever
-- the phase of the run and whatever the API and the hosts answer. The planning of an attempt, which
-- the outside answers, counts as one call that is not a write.
pub reconcile-Nothing :
    (outside : Outside) (lib : Library) (revision : Json) (w : World)
    → Reads Nothing w.log (reconcile outside lib revision true w).1.log
unfolding reconcile
reconcile-Nothing outside lib revision w =
    let after =
      Triple-state {P = On (Reads Nothing w.log)} {R = On (Reads Nothing w.log)}
        (reconcile outside lib revision true)
        (Triple-with_view _ λ view.
          Triple-bind {Q = λ _. On (Reads Nothing w.log)} _ _
            (Triple-lift _ (λ a p w g. g) (λ w g. g))
            (λ a. dispatch-Quiet outside lib w.log a revision))
        w (record { of_log = here }) in
    after.of_log

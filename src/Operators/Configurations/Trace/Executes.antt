-- ===== src/Operators/Configurations/Trace/Executes.antt =====
-- The runs of execute, from one stage to the next and through its reservations.
use ansible_roles.Prelude.{◌≡◌, refl, String, Bool, true, Option, List, [], ◌∷◌, nat_eq, string_eq}
use ansible_roles.Result.{Error, Result, ok, err}
use ansible_roles.Json.{Json}
use ansible_roles.Operators.Effects.{Log, Exec}
use ansible_roles.Operators.Effects.Keeps.{Keeps, keeps_rules}
use ansible_roles.Operators.Effects.Triple.{
  After, Triple, Triple-pure, Triple-raise, Triple-catch, Triple-bind, Triple-choose, Triple-then,
  Triple-keeps,
}
use ansible_roles.Operators.Resource.{Resource}
use ansible_roles.Operators.Operation.{closing, protected, reservation}
use ansible_roles.Operators.Configurations.Planning.{Plan, Runner}
use ansible_roles.Operators.Configurations.Commands.{
  Tools, run_guard, run_argv, execute_stage, all_stages, run_commands,
}
use ansible_roles.Operators.Configurations.Execution.{
  claim_all, claimed_plan, after_failure, execute_claimed, execute,
}
use ansible_roles.Operators.Configurations.Quiet.Around.{
  complete-Keeps, operation-Keeps, claimed-Keeps, report-Keeps, same_inputs-Keeps,
  observations-Keeps, checkout-Keeps, environment-Keeps, enter-Keeps, refresh-Keeps, prepared-Keeps,
  claims-Keeps, result-Keeps, publish-Keeps,
}
use ansible_roles.Operators.Configurations.Trace.{
  Run, runs, ran, Tried, nothing, guarded, commanded, checked, complete, Has, TriedIn, runs-Quiet,
  Has-Quiet, Has-Tried, run_call, run_call-Has,
}

module _ (runner : Runner) (tools : Tools) (before : List Run) where
  -- A step that runs nothing.
  quietly :
      {A : Type 0} (m : Exec Log A) (r : List Run)
      → Tried before r
      → Keeps (Has r) m
      → Triple (Has r) m (λ _. Has r) (TriedIn before)
  quietly m r t k = Triple-then m (Has-Tried before r t) k

  guard-Has :
      (r : List Run)
      → ((b : Bool) → Tried before (ran "guard" b ∷ r))
      → Triple (Has r) (run_guard runner tools) (λ _. Has (ran "guard" true ∷ r)) (TriedIn before)
  unfolding run_guard run_call
  guard-Has r t = run_call-Has runner.outside "guard" _ r (Tried before) refl t

  abbrev guarded_runs : List Run
  guarded_runs = ran "guard" true ∷ before

  abbrev command_runs : List Run
  command_runs = ran "command" true ∷ guarded_runs

  argv-Has :
      (resolved : Plan) (environment : Json)
      → Triple
          (Has guarded_runs)
          (run_argv runner tools resolved environment)
          (λ _. Has command_runs)
          (TriedIn before)
  unfolding run_argv run_call
  argv-Has resolved environment =
      Triple-bind _ _ (quietly _ guarded_runs (guarded true) (search keeps_rules)) λ argv.
        run_call-Has runner.outside "command" _ guarded_runs (Tried before) refl (λ b. commanded b)

  execute_stage-Has :
      (resolved : Plan)
      → Triple
          (Has guarded_runs)
          (execute_stage runner tools resolved)
          (λ _. Has command_runs)
          (TriedIn before)
  unfolding execute_stage
  execute_stage-Has resolved =
      let q = Has-Quiet guarded_runs in
      Triple-bind _ _ (quiet_step _ (enter-Keeps runner tools q resolved _)) λ _.
        Triple-bind _ _ (quiet_step _ (environment-Keeps runner tools q resolved)) λ environment.
          Triple-bind _ _ (quiet_step _ (claims-Keeps runner.outside q resolved.servers)) λ _.
            Triple-bind _ _ (quiet_step _ (same_inputs-Keeps runner q resolved _))
              λ _. argv-Has resolved environment
    where
      quiet_step :
          {A : Type 0} (m : Exec Log A)
          → Keeps (Has guarded_runs) m
          → Triple (Has guarded_runs) m (λ _. Has guarded_runs) (TriedIn before)
      quiet_step m k = quietly m guarded_runs (guarded true) k

  all_stages-Has :
      (resolved : Plan)
      → Triple
          (Has before)
          (all_stages runner tools resolved)
          (λ _. Has (complete before))
          (TriedIn before)
  unfolding all_stages
  all_stages-Has resolved =
      Triple-bind _ _
        (quietly _ before nothing (enter-Keeps runner tools (Has-Quiet before) resolved _))
        λ _. Triple-bind _ _ (guard-Has before guarded) λ _.
          Triple-bind _ _ (execute_stage-Has resolved) λ _.
            Triple-bind _ _
              (quietly _ command_runs (commanded true)
                (enter-Keeps runner tools (Has-Quiet command_runs) resolved _))
              λ _. guard-Has command_runs checked

  run_commands-Has :
      (resolved : Plan)
      → Triple
          (Has before)
          (run_commands runner tools resolved)
          (λ _. Has (complete before))
          (TriedIn before)
  unfolding run_commands
  run_commands-Has resolved =
      Triple-catch _ _ (TriedIn before) (all_stages-Has resolved) λ e. Triple-raise _ (λ log t. t)

  -- After the failure of the command nothing more is run.
  tried_step :
      {A : Type 0} (m : Exec Log A)
      → Keeps (TriedIn before) m
      → Triple (TriedIn before) m (λ _. TriedIn before) (TriedIn before)
  tried_step m k = Triple-keeps m (λ log t. t) k

  failure-Tried :
      (resolved : Plan) (e : Error)
      → Triple
          (TriedIn before)
          (after_failure runner tools resolved e)
          (λ _. Has (complete before))
          (TriedIn before)
  unfolding after_failure
  failure-Tried resolved e =
      Triple-choose _ _ _
        (Triple-bind _ _
          (tried_step _ (observations-Keeps runner (runs-Quiet (Tried before)) resolved))
          λ _. Triple-raise e (λ log t. t))
        (Triple-raise e (λ log t. t))

  claimed-Has :
      (resolved : Plan)
      → Triple
          (Has before)
          (execute_claimed runner tools resolved)
          (λ _. Has (complete before))
          (TriedIn before)
  unfolding execute_claimed
  claimed-Has resolved =
      let q = Has-Quiet before in
      let done = Has-Quiet (complete before) in
      Triple-bind _ _ (quietly _ before nothing (same_inputs-Keeps runner q resolved _)) λ _.
        Triple-bind _ _ (quietly _ before nothing (report-Keeps runner q _ _ _ _ _ _)) λ _.
          Triple-bind _ _
            (Triple-catch _ _ (TriedIn before) (run_commands-Has resolved) (failure-Tried resolved))
            λ _. quietly _ (complete before) (checked true) (
              search
                (
                  keeps_rules,
                  claims-Keeps runner.outside done,
                  same_inputs-Keeps runner done,
                  result-Keeps runner.outside done,
                  observations-Keeps runner done,
                  publish-Keeps runner.outside done,
                )
                depth 60)

  -- The Operation is completed after its body, whether that returned or raised.
  closing-Has :
      {A : Type 0} (operation : Resource) (r : Result A) (log : Log)
      → After (λ (_ : A). Has (complete before)) (TriedIn before) (r, log)
      → After
          (λ (_ : A). Has (complete before))
          (TriedIn before)
          (closing runner.outside operation r log)
  unfolding closing
  closing-Has operation (ok a) log h =
      (Triple-bind {Q = λ _. Has (complete before)} _ _
          (quietly _ (complete before) (checked true)
            (complete-Keeps runner.outside (Has-Quiet (complete before)) operation _ _))
          λ _. Triple-pure a (λ l p. p)).run
        log h
  closing-Has operation (err e) log h =
      (Triple-bind {Q = λ _. TriedIn before} _ _
          (tried_step _ (complete-Keeps runner.outside (runs-Quiet (Tried before)) operation _ _))
          λ _. Triple-raise e (λ l t. t)).run
        log h

  protected-Has :
      {A : Type 0} (operation : Resource) (m : Exec Log A)
      → Triple (Has before) m (λ _. Has (complete before)) (TriedIn before)
      → Triple
          (Has before)
          (protected runner.outside operation m)
          (λ _. Has (complete before))
          (TriedIn before)
  unfolding protected
  protected-Has operation m t = record {
    run = λ log p. let (r, log') = m log in closing-Has operation r log' (t.run log p);
  }

  reservation-Has :
      {A : Type 0} (snapshot : Resource) (action operator : String) (requested : Option Json)
      (collection : String) (body : Resource → Resource → Exec Log A)
      → ((operation claimed : Resource)
          → Triple
              (Has before)
              (body operation claimed)
              (λ _. Has (complete before))
              (TriedIn before))
      → Triple
          (Has before)
          (reservation runner.outside snapshot action operator requested collection body)
          (λ _. Has (complete before))
          (TriedIn before)
  unfolding reservation
  reservation-Has snapshot action operator requested collection body t =
      let q = Has-Quiet before in
      Triple-bind _ _ (quietly _ before nothing (search keeps_rules)) λ _.
        Triple-bind _ _ (quietly _ before nothing (search keeps_rules)) λ _.
          Triple-bind _ _
            (quietly _ before nothing (operation-Keeps runner.outside q snapshot _ _ _))
            λ operation. protected-Has operation _ (
              Triple-bind _ _
                (quietly _ before nothing (claimed-Keeps runner.outside q snapshot _ operation))
                λ claimed. t operation claimed)

  claim_all-Has :
      {A : Type 0} (requested : Json) (servers : List Resource) (body : List Resource → Exec Log A)
      → ((claimed : List Resource)
          → Triple (Has before) (body claimed) (λ _. Has (complete before)) (TriedIn before))
      → Triple
          (Has before)
          (claim_all runner tools requested servers body)
          (λ _. Has (complete before))
          (TriedIn before)
  unfolding claim_all
  claim_all-Has requested [] body t = t []
  claim_all-Has requested (server ∷ servers) body t =
      Triple-bind _ _
        (quietly _ before nothing (refresh-Keeps runner tools (Has-Quiet before) server))
        λ latest. reservation-Has latest _ _ _ _ _ λ operation claimed.
          claim_all-Has requested servers (λ others. body (claimed ∷ others))
            (λ others. t (claimed ∷ others))

  execute-Has :
      (resolved : Plan)
      → Triple
          (Has before)
          (execute runner tools resolved)
          (λ _. Has (complete before))
          (TriedIn before)
  unfolding execute
  execute-Has resolved =
      let q = Has-Quiet before in
      Triple-bind _ _ (quietly _ before nothing (checkout-Keeps runner q _ _)) λ _.
        Triple-bind _ _ (quietly _ before nothing (prepared-Keeps runner tools q resolved)) λ _.
          Triple-bind _ _
            (claim_all-Has _ resolved.servers _
              (λ servers. claimed-Has (claimed_plan runner tools resolved servers)))
            λ outputs.
              quietly _ (complete before) (checked true)
                (report-Keeps runner (Has-Quiet (complete before)) _ _ _ _ _ _)

-- The guard's play and the Configuration's command are the runs of the log. Whatever the outside
-- answers: where execute returns, the runs that it has made are the guard, the command and the guard
-- again, each with exit code 0, once and in this order. Where it raises, they are a part of this:
-- none comes after a run that did not exit with 0. The other calls, the read of the cluster's
-- context on a control plane among them, are not counted.
pub execute-Runs :
    (runner : Runner) (tools : Tools) (resolved : Plan) (log : Log)
    → After
        (λ _ after. runs after ≡ complete (runs log))
        (λ after. Tried (runs log) (runs after))
        (execute runner tools resolved log)
execute-Runs runner tools resolved log = (execute-Has runner tools (runs log) resolved).run log refl

-- ===== src/Operators/Operation/Outcome.antt =====
-- What a reservation reports of the work that it protects.
use ansible_roles.Prelude.{
  ◌≡◌, refl, subst, sym, ◌⊎◌, String, true, false, Option, arith, string_eq,
}
use ansible_roles.Result.{
  Error, Result, ok, err, operator_error, value_error, runtime_error, key_error, type_error,
  attribute_error, http_error, os_error, timeout_expired, interrupted, recursion_error,
}
use ansible_roles.Json.{Json, Dict, get, truthy}
use ansible_roles.Operators.Effects.{Log, Outside, Exec, raise, continue, ◌>>=◌}
use ansible_roles.Operators.Effects.Triple.{
  Triple, Anything, Triple-Anything, Triple-ok, Triple-pure, Triple-raise, Triple-bind,
  bind-returns, lift-returns, refuse_if-returns,
}
use ansible_roles.Operators.Resource.{Resource}
use ansible_roles.Operators.Operation.{
  outcome_status, complete_operation, failure_phase, failure_message, closing, protected,
  claimed_target, create_operation, reservation, is_busy,
}
use ansible_roles.Operators.Operation.Guards.{
  WritesOnlyOpen, Reported, complete_operation-WritesOnlyOpen, complete_operation-Reported,
}

abbrev pub success : Dict
success = outcome_status "Succeeded" "Operation execution completed"

-- A raise behind a program leaves the state that the program left.
state-raise :
    (A : Type 0) {B : Type 0} (m : Exec Log B) (e : Error) (log : Log)
    → ((m >>= λ _. raise {A = A} e) log).1 ≡ (m log).1
unfolding ◌>>=◌ raise
state-raise A {B} m e log = let (r, log') = m log in go r log'
  where
    go : (r : Result B) (log' : Log) → (continue {B = A} r (λ _. raise e) log').1 ≡ log'
    go (ok b) log' = refl
    go (err f) log' = refl

-- The error is unclassified, or says that remote work has an unknown outcome.
abbrev pub IsUncertain : Error → Type 0
IsUncertain (operator_error reason message) = reason ≡ "RemoteWorkUncertain"
IsUncertain _ = Unit

failure_phase-IsUncertain : (e : Error) → IsUncertain e → failure_phase e ≡ "Uncertain"
unfolding failure_phase
failure_phase-IsUncertain (operator_error reason message) u =
    ground (arith, string_eq.same_iff reason "RemoteWorkUncertain")
failure_phase-IsUncertain (value_error m) u = refl
failure_phase-IsUncertain (runtime_error m) u = refl
failure_phase-IsUncertain (key_error m) u = refl
failure_phase-IsUncertain type_error u = refl
failure_phase-IsUncertain attribute_error u = refl
failure_phase-IsUncertain (http_error n) u = refl
failure_phase-IsUncertain os_error u = refl
failure_phase-IsUncertain timeout_expired u = refl
failure_phase-IsUncertain interrupted u = refl
failure_phase-IsUncertain recursion_error u = refl

-- After `report`, which may itself raise, the error `e` goes on, or the error of `report`.
abbrev pub GoesOn : {A : Type 0} → Error → Result (Unit {0}) → Result A → Type 0
GoesOn e (ok a) r = r ≡ err e
GoesOn e (err f) r = r ≡ err f

raise-GoesOn :
    (A : Type 0) (m : Exec Log (Unit {0})) (e : Error) (log : Log)
    → GoesOn {A = A} e (m log).0 ((m >>= λ _. raise {A = A} e) log).0
unfolding ◌>>=◌ raise
raise-GoesOn A m e log = let (r, log') = m log in go r log'
  where
    go :
        (r : Result (Unit {0})) (log' : Log)
        → GoesOn {A = A} e r (continue {B = A} r (λ _. raise e) log').0
    go (ok b) log' = refl
    go (err f) log' = refl

-- The snapshot has an owner: an Operation, maintenance or a provisioning run.
abbrev pub IsOwned : Resource → Dict → Type 0
IsOwned snapshot provisioning =
    (truthy (get snapshot.status "operationRef") ≡ true)
    ⊎ (truthy (get provisioning "maintenance") ≡ true)
    ⊎ (truthy (get provisioning "activeRunRef") ≡ true)

abbrev pub IsFree : Resource → Dict → Type 0
IsFree snapshot provisioning =
    (truthy (get snapshot.status "operationRef") ≡ false)
    × (truthy (get provisioning "maintenance") ≡ false)
    × (truthy (get provisioning "activeRunRef") ≡ false)

module _ (outside : Outside) {A : Type 0} where
  closing-Reported :
      (operation : Resource) (r : Result A)
      → Triple Anything (closing outside operation r) (λ _. Reported operation success) Anything
  unfolding closing
  closing-Reported operation (ok a) =
      Triple-bind (complete_operation outside operation _ _) _
        (complete_operation-Reported outside operation "Succeeded" "Operation execution completed")
        (λ _. Triple-pure a (λ log g. g))
  closing-Reported operation (err e) =
      Triple-bind {Q = λ _. Anything} (complete_operation outside operation _ _) _
        (Triple-Anything _) (λ _. Triple-raise e (λ log g. tt))

  protected-Reported :
      (operation : Resource) (m : Exec Log A)
      → Triple Anything (protected outside operation m) (λ _. Reported operation success) Anything
  unfolding protected
  protected-Reported operation m = record {
    run = λ log p. let (r, log') = m log in (closing-Reported operation r).run log' tt;
  }

  module _ (snapshot : Resource) (action operator : String) (requested_by : Option Json)
      (collection : String) (body : Resource → Resource → Exec Log A) where
    abbrev Creation : Exec Log Resource
    Creation = create_operation outside snapshot action operator requested_by

    -- From `log` create_operation has returned an Operation, and `after` ends in a report of the
    -- success of it.
    abbrev pub Succeeded : Log → Log → Type 0
    Succeeded log after =
        (operation : Resource) × (next : Log) × (Creation log ≡ (ok operation, next))
        × Reported operation success after

    -- A reservation returns only if its very last call reports, to the Operation that it has
    -- created, that the operation succeeded, and the API accepted it: the call before it reads this
    -- Operation, with the UID and the spec that the creation gave and the phase Running or
    -- Uncertain, and the report goes to the collection, name, UID and version that were read.
    pub reservation-Reported :
        (log log' : Log) (a : A)
        → reservation outside snapshot action operator requested_by collection body log
          ≡ (ok a, log')
        → Succeeded log log'
    unfolding reservation
    reservation-Reported log log' a h = lift-returns _ _ h λ provisioning p h1.
        refuse_if-returns (is_busy snapshot provisioning) _ _ h1 λ free h2.
          bind-returns Creation _ h2 λ operation next created h3.
            let m = claimed_target outside snapshot collection operation >>= λ claimed.
            body operation claimed in
            (
              operation,
              next,
              created,
              Triple-ok (protected outside operation m) (protected-Reported operation m) next log' a
                  tt h3,
            )

  abbrev pub Reports : Resource → Error → Log → Result A × Log → Type 0
  Reports operation e log' p =
      WritesOnlyOpen operation (outcome_status "Uncertain" (failure_message e)) log' p.1
      × GoesOn e (complete_operation outside operation "Uncertain" (failure_message e) log').0 p.0

  -- Work whose remote outcome is unknown keeps its claim: where the protected body raises any error
  -- but an OperatorError, or an OperatorError RemoteWorkUncertain, the only writes that follow it
  -- report Uncertain, each to the Operation that the call before it has read as open and its own.
  -- Then the error goes on, or the error of the report where this raises.
  pub protected-IsUncertain :
      (operation : Resource) (m : Exec Log A) (log log' : Log) (e : Error)
      → m log ≡ (err e, log')
      → IsUncertain e
      → Reports operation e log' (protected outside operation m log)
  unfolding protected closing
  protected-IsUncertain operation m log log' e h u =
      let report = complete_operation outside operation "Uncertain" (failure_message e) in
      subst (λ (p : Result A × Log). Reports operation e log' (closing outside operation p.0 p.1))
        (sym h)
        (subst
          (λ (phase : String). Reports operation e log' (
            (complete_operation outside operation phase (failure_message e) >>= λ _.
            raise {A = A} e)
              log'))
          (sym (failure_phase-IsUncertain e u))
          (
            subst (WritesOnlyOpen operation (outcome_status "Uncertain" (failure_message e)) log')
                (sym (state-raise A report e log'))
                (complete_operation-WritesOnlyOpen outside operation "Uncertain" (failure_message e)
                  log'),
            raise-GoesOn A report e log',
          ))

-- ===== src/Operators/Operation/Guards.antt =====
-- What complete_operation writes: only to an Operation that it has just read as its own and open.
use ansible_roles.Prelude.{
  ℕ, zero, suc, ◌≡◌, refl, ◌⊎◌, inl, inr, String, Bool, true, false, not, ◌||◌, [], ◌∷◌, arith,
  and_split, or_split, ◌==◌, string_eq,
}
use ansible_roles.Result.{Error, Result, ok, err}
use ansible_roles.Json.{Json, Dict, str, object, get, eqb}
use ansible_roles.Json.Laws.{eqb-str}
use ansible_roles.Operators.Effects.{Call, Log, Outside, raise, lift, refuse_if, request}
use ansible_roles.Operators.Effects.Triple.{
  Triple, After, Anything, Triple-forget, Triple-state, Triple-pure, Triple-raise, Triple-lift,
  Triple-catch, Triple-refuse_if, Triple-bind, Triple-request,
}
use ansible_roles.Operators.Resource.{Resource}
use ansible_roles.Operators.Api.{decode, collection_of, api_get, patch_status}
use ansible_roles.Operators.Operation.{
  same_operation, is_open, is_conflict, outcome_status, complete_rounds, complete_operation,
}

-- The newest event of the log is the read that gave `latest`: the lifetime and the request of the
-- Operation, in the phase Running or Uncertain.
abbrev pub JustReadOpen : Resource → Resource → Log → Type 0
JustReadOpen operation latest [] = ⊥
JustReadOpen operation latest (e ∷ older) =
    (v : Json) × (e.call ≡ Call.get "operations" operation.metadata.name)
    × (e.answer ≡ ok v)
    × (decode v ≡ ok latest)
    × (latest.metadata.uid ≡ operation.metadata.uid)
    × (eqb (object latest.spec) (object operation.spec) ≡ true)
    × ((get latest.status "phase" ≡ str "Running") ⊎ (get latest.status "phase" ≡ str "Uncertain"))

-- The write of `status` to the resource `latest`, in the collection of its kind, with its UID and
-- resource version.
abbrev pub WriteTo : Resource → Dict → Call → Type 0
WriteTo latest status call =
    (collection : String) × (collection_of latest.kind ≡ ok collection)
    × (call
        ≡ Call.patch collection latest.metadata.name latest.metadata.uid
            latest.metadata.resource_version status)

-- Each write among the events down to `base` reports `status` to the Operation that such a read,
-- the event before it, gave.
pub data WritesOnlyOpen (operation : Resource) (status : Dict) (base : Log) : Log → Type 0 where
  start : WritesOnlyOpen operation status base base
  read :
      {log : Log} (name : String) (answer : Result Json)
      → WritesOnlyOpen operation status base log
      → WritesOnlyOpen operation status base
          (record { call = Call.get "operations" name; answer = answer } ∷ log)
  write :
      {log : Log} (latest : Resource) (call : Call) (answer : Result Json)
      → JustReadOpen operation latest log
      → WriteTo latest status call
      → WritesOnlyOpen operation status base log
      → WritesOnlyOpen operation status base (record { call = call; answer = answer } ∷ log)

-- The newest event is a write of `status` that the API accepted, to the Operation that the event
-- before it has read.
abbrev pub Reported : Resource → Dict → Log → Type 0
Reported operation status [] = ⊥
Reported operation status (e ∷ older) =
    (latest : Resource) × (v : Json) × JustReadOpen operation latest older
    × WriteTo latest status e.call
    × (e.answer ≡ ok v)

-- The newest event is the read of `name` that gave `latest`.
abbrev JustRead : String → Resource → Log → Type 0
JustRead name latest [] = ⊥
JustRead name latest (e ∷ older) =
    (v : Json) × (e.call ≡ Call.get "operations" name) × (e.answer ≡ ok v) × (decode v ≡ ok latest)

module _ (outside : Outside) (operation : Resource) (phase message : String) (base : Log) where
  abbrev status : Dict
  status = outcome_status phase message

  abbrev Good : Log → Type 0
  Good = WritesOnlyOpen operation status base

  abbrev Fresh : Resource → Log → Type 0
  Fresh latest log = Good log × JustRead operation.metadata.name latest log

  get_step : Triple Good (api_get outside "operations" operation.metadata.name) Fresh Good
  unfolding api_get
  get_step =
      Triple-bind {Q = λ v log. Good log × JustAnswered v log} (request outside _) _
        (Triple-request outside _ (λ v log g. (read _ (ok v) g, (refl, refl)))
          (λ e log g. read _ (err e) g))
        (λ v.
          Triple-lift (decode v) (λ latest p log g. (g.0, just v latest p log g.1)) (λ log g. g.0))
    where
      JustAnswered : Json → Log → Type 0
      JustAnswered v [] = ⊥
      JustAnswered v (e ∷ older) =
          (e.call ≡ Call.get "operations" operation.metadata.name) × (e.answer ≡ ok v)

      just :
          (v : Json) (latest : Resource)
          → decode v ≡ ok latest
          → (log : Log) → JustAnswered v log
          → JustRead operation.metadata.name latest log
      just v latest p [] h = h
      just v latest p (e ∷ older) h = (v, h.0, h.1, p)

  just_open :
      (latest : Resource) (log : Log)
      → same_operation latest operation ≡ true
      → is_open latest ≡ true
      → JustRead operation.metadata.name latest log
      → JustReadOpen operation latest log
  unfolding same_operation is_open
  just_open latest [] s o h = h
  just_open latest (e ∷ older) s o (v, c, a, d) =
      let (same, spec) =
        and_split (latest.metadata.uid == operation.metadata.uid)
          (eqb (object latest.spec) (object operation.spec)) s in
      (v, c, a, d, (string_eq.same_iff _ _).0 same, spec, phases (get latest.status "phase") o)
    where
      phases :
          (phase : Json)
          → (eqb phase (str "Running") || eqb phase (str "Uncertain")) ≡ true
          → (phase ≡ str "Running") ⊎ (phase ≡ str "Uncertain")
      phases phase h = elim (or_split _ _ h) [
        | inl p ↦ inl (eqb-str phase "Running" p)
        | inr p ↦ inr (eqb-str phase "Uncertain" p)
      ]

  abbrev Outcome : Unit {0} → Log → Type 0
  Outcome _ log = Good log × Reported operation status log

  patch_step :
      (latest : Resource)
      → Triple
          (λ log. Good log × JustReadOpen operation latest log)
          (patch_status outside latest status)
          (λ _ log. Good log × Reported operation status log)
          Good
  unfolding patch_status
  patch_step latest =
      Triple-bind
        {Q = λ c log.
          Good log × JustReadOpen operation latest log × (collection_of latest.kind ≡ ok c)}
        (lift (collection_of latest.kind)) _
        (Triple-lift (collection_of latest.kind) (λ c p log g. (g.0, g.1, p)) (λ log g. g.0))
        λ c.
          Triple-bind {Q = λ _ log. Good log × Reported operation status log} (request outside _) _
            (Triple-request outside _
              (λ v log (g, o, p).
                (write latest _ (ok v) o (c, p, refl) g, (latest, v, o, (c, p, refl), refl)))
              (λ e log (g, o, p). write latest _ (err e) o (c, p, refl) g))
            (λ v. Triple-lift (decode v) (λ r p log g. g) (λ log g. g.0))

  complete_rounds-Reported :
      (n : ℕ) → Triple Good (complete_rounds outside n operation phase message) Outcome Good
  unfolding complete_rounds
  complete_rounds-Reported zero = Triple-raise _ (λ log g. g)
  complete_rounds-Reported (suc n) =
      let again = complete_rounds-Reported n in
      Triple-bind (api_get outside "operations" operation.metadata.name) _ get_step λ latest.
        Triple-bind (refuse_if (not (same_operation latest operation)) _) _
          (Triple-refuse_if {Q = λ log. Fresh latest log × (same_operation latest operation ≡ true)}
            _ _ (λ e log g. (g, ground arith)) (λ log g. g.0))
          λ _.
            Triple-bind (refuse_if (not (is_open latest)) _) _
              (Triple-refuse_if {Q = λ log. Good log × JustReadOpen operation latest log} _ _
                (λ e log g. (g.0.0, just_open latest log g.1 (ground arith) g.0.1))
                (λ log g. g.0.0))
              λ _.
                Triple-catch _ _ Good
                  (Triple-bind (patch_status outside latest status) _ (patch_step latest)
                    (λ _. Triple-pure tt (λ log g. g)))
                  (λ e. retry n again e (is_conflict e))
    where
      retry :
          (n : ℕ)
          → Triple Good (complete_rounds outside n operation phase message) Outcome Good
          → (e : Error) (b : Bool)
          → Triple {A = Unit {0}} Good
              (elim b [
                | true ↦ complete_rounds outside n operation phase message
                | false ↦ raise e
              ])
              Outcome
              Good
      retry n again e true = again
      retry n again e false = Triple-raise e (λ log g. g)

module _ (outside : Outside) (operation : Resource) (phase message : String) where
  -- complete_operation writes an outcome only to the Operation that its newest call has read, in
  -- the collection of its kind and with its name, UID and version, and only where this read shows
  -- the UID and the spec of the Operation and the phase Running or Uncertain, whatever other
  -- writers do between its calls: a terminal outcome that it has read is never overwritten. Apart
  -- from such writes it only reads Operations, and this holds whether it returns or raises.
  pub complete_operation-WritesOnlyOpen :
      (log : Log)
      → WritesOnlyOpen operation
          (outcome_status phase message)
          log
          (complete_operation outside operation phase message log).1
  unfolding complete_operation
  complete_operation-WritesOnlyOpen log =
      Triple-state (complete_rounds outside 5 operation phase message)
        (Triple-forget _ (λ _ s g. g.0)
          (complete_rounds-Reported outside operation phase message log 5))
        log start

  -- Where complete_operation returns, its newest call is such a write, and the API accepted it.
  pub complete_operation-Reported :
      Triple Anything
        (complete_operation outside operation phase message)
        (λ _. Reported operation (outcome_status phase message))
        Anything
  unfolding complete_operation
  complete_operation-Reported = record {
    run = λ log p.
        weaken log (complete_operation outside operation phase message log)
          ((complete_rounds-Reported outside operation phase message log 5).run log start);
  }
    where
      weaken :
          (base : Log) (p : Result (Unit {0}) × Log)
          → After
              (Outcome outside operation phase message base)
              (WritesOnlyOpen operation (outcome_status phase message) base)
              p
          → After (λ _. Reported operation (outcome_status phase message)) Anything p
      weaken base (ok a, log) h = h.1
      weaken base (err e, log) h = tt

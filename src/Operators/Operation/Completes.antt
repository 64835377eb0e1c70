-- ===== src/Operators/Operation/Completes.antt =====
-- complete_operation reaches its end against an outside that stops to conflict.
use ansible_roles.Prelude.{
  ℕ, zero, suc, ◌+◌, ◌≤◌, ◌<◌, ◌≡◌, refl, sym, ap, subst, ◌∙◌, ◌⊎◌, inl, inr, String, Bool, true,
  false, not, [], ◌∷◌, arith, nat_eq,
}
use ansible_roles.Result.{Error, Result, ok, err, http_error}
use ansible_roles.Json.{Json, Dict}
use ansible_roles.Operators.Effects.{
  Call, Log, Outside, Exec, pure, raise, lift, catch, handled, continue, ◌>>=◌, refuse_if, request,
}
use ansible_roles.Operators.Resource.{Resource}
use ansible_roles.Operators.Api.{decode, collections, collection_of, api_get, patch_status}
use ansible_roles.Operators.Operation.{
  same_operation, is_open, is_conflict, outcome_status, complete_rounds, complete_operation,
}

-- The writes that a log holds.
abbrev pub writes : Log → ℕ
writes [] = 0
writes (e ∷ log) = elim e.call [
  | Call.patch collection name uid version fields ↦ suc (writes log)
  | _ ↦ writes log
]

-- A read of the Operation shows it as the same and open.
abbrev pub ReadsOpen : Outside → Resource → Log → Type 0
ReadsOpen outside operation log =
    (v : Json) × (latest : Resource) × (outside log (Call.get "operations" operation.metadata.name)
      ≡ ok v)
    × (decode v ≡ ok latest)
    × (same_operation latest operation ≡ true)
    × (is_open latest ≡ true)
    × (latest.kind ≡ "Operation")

-- A write is accepted, with a resource as the answer.
abbrev pub Accepts : Outside → Log → Call → Type 0
Accepts outside log call =
    (v : Json) × (answered : Resource) × (outside log call ≡ ok v) × (decode v ≡ ok answered)

-- The Operation stays open to every read; each write is accepted or conflicts, and it is accepted
-- once `limit` writes have conflicted.
pub record Settles (outside : Outside) (operation : Resource) (limit : ℕ) : Type 0 where
  pub reads : (log : Log) → ReadsOpen outside operation log
  pub writable :
      (log : Log) (name uid version : String) (fields : Dict)
      → Accepts outside log (Call.patch "operations" name uid version fields)
        ⊎ ((outside log (Call.patch "operations" name uid version fields) ≡ err (http_error 409))
            × (writes log < limit))

module _ {S A B : Type 0} where
  bind-run :
      (m : Exec S A) (f : A → Exec S B) (s s' : S) (a : A) → m s ≡ (ok a, s') → (m >>= f) s ≡ f a s'
  unfolding ◌>>=◌
  bind-run m f s s' a e = ap (λ p. continue p.0 f p.1) e

  bind-err :
      (m : Exec S A) (f : A → Exec S B) (s s' : S) (e : Error)
      → m s ≡ (err e, s')
      → (m >>= f) s ≡ (err e, s')
  unfolding ◌>>=◌
  bind-err m f s s' e h = ap (λ p. continue p.0 f p.1) h

module _ {S A : Type 0} where
  catch-run :
      (m : Exec S A) (h : Error → Exec S A) (s s' : S) (a : A)
      → m s ≡ (ok a, s')
      → catch m h s ≡ (ok a, s')
  unfolding catch
  catch-run m h s s' a e = ap (λ p. handled p.0 h p.1) e

  catch-err :
      (m : Exec S A) (h : Error → Exec S A) (s s' : S) (e : Error)
      → m s ≡ (err e, s')
      → catch m h s ≡ h e s'
  unfolding catch
  catch-err m h s s' e f = ap (λ p. handled p.0 h p.1) f

  lift-run : (r : Result A) (s : S) (a : A) → r ≡ ok a → lift r s ≡ (ok a, s)
  unfolding lift
  lift-run r s a e = ap (λ x. (x, s)) e

refuse-run : {S : Type 0} (b : Bool) (e : Error) (s : S) → b ≡ false → refuse_if b e s ≡ (ok tt, s)
unfolding refuse_if
refuse-run true e s h = cc
refuse-run false e s h = refl

request-run :
    {r : Result Json} (outside : Outside) (call : Call) (log : Log)
    → outside log call ≡ r
    → request outside call log ≡ (r, record { call = call; answer = r } ∷ log)
unfolding request
request-run outside call log e = ap (λ a. (a, record { call = call; answer = a } ∷ log)) e

api_get-run :
    (outside : Outside) (collection name : String) (log : Log) (v : Json) (r : Resource)
    → outside log (Call.get collection name) ≡ ok v
    → decode v ≡ ok r
    → api_get outside collection name log
      ≡ (ok r, record { call = Call.get collection name; answer = ok v } ∷ log)
unfolding api_get
api_get-run outside collection name log v r e d =
    bind-run _ _ log _ v (request-run outside _ log e) ∙ lift-run _ _ r d

collection-Operation :
    (r : Resource) → r.kind ≡ "Operation" → collection_of r.kind ≡ ok "operations"
unfolding collection_of collections
collection-Operation r e = subst (λ k. collection_of k ≡ ok "operations") (sym e) refl

module _ (outside : Outside) (operation : Resource) (limit : ℕ)
    (s : Settles outside operation limit) (phase message : String) where
  abbrev Ends : ℕ → Log → Type 0
  Ends n log = (complete_rounds outside n operation phase message log).0 ≡ ok tt

  -- The patch of one round, which is accepted or conflicts.
  patch_step : Resource → Exec Log (Unit {0})
  patch_step latest = patch_status outside latest (outcome_status phase message) >>= λ _. pure tt

  accepted :
      (latest : Resource) (log : Log)
      → latest.kind ≡ "Operation"
      → Accepts outside log (
          Call.patch "operations" latest.metadata.name latest.metadata.uid
            latest.metadata.resource_version
            (outcome_status phase message))
      → (after : Log) × (patch_step latest log ≡ (ok tt, after))
  unfolding patch_step patch_status pure
  accepted latest log k (v, r, e, d) = (
    _,
    bind-run _ _ log _ r (
        bind-run _ _ log log "operations" (lift-run _ log _ (collection-Operation latest k))
        ∙ (bind-run _ _ log _ v (request-run outside _ log e) ∙ lift-run _ _ r d)),
  )

  conflicted :
      (latest : Resource) (log : Log)
      → latest.kind ≡ "Operation"
      → outside log (
          Call.patch "operations" latest.metadata.name latest.metadata.uid
            latest.metadata.resource_version
            (outcome_status phase message))
        ≡ err (http_error 409)
      → (after : Log) × (patch_step latest log ≡ (err (http_error 409), after))
        × (writes after ≡ suc (writes log))
  unfolding patch_step patch_status
  conflicted latest log k e = (
    _,
    bind-err _ _ log _ (http_error 409) (
        bind-run _ _ log log "operations" (lift-run _ log _ (collection-Operation latest k))
        ∙ bind-err _ _ log _ (http_error 409) (request-run outside _ log e)),
    refl,
  )

  abbrev handler : ℕ → Error → Exec Log (Unit {0})
  handler n e = elim (is_conflict e) [
    | true ↦ complete_rounds outside n operation phase message
    | false ↦ raise e
  ]

  -- A round comes to its patch, one read later.
  round-run :
      (n : ℕ) (log : Log)
      → (latest : Resource) × (after : Log) × (latest.kind ≡ "Operation")
        × (writes after ≡ writes log)
        × (complete_rounds outside (suc n) operation phase message log
            ≡ catch (patch_step latest) (handler n) after)
  unfolding complete_rounds patch_step
  round-run n log =
      let (v, latest, e, d, same, open_still, k) = s.reads log in
      (
        latest,
        record { call = Call.get "operations" operation.metadata.name; answer = ok v } ∷ log,
        k,
        refl,
        bind-run _ _ log _ latest (api_get-run outside _ _ log v latest e d)
            ∙ (bind-run _ _ _ _ tt (refuse-run _ _ _ (ap not same))
                ∙ bind-run _ _ _ _ tt (refuse-run _ _ _ (ap not open_still))),
      )

  rounds-Ends : (n : ℕ) (log : Log) → writes log ≤ limit → limit < writes log + n → Ends n log
  unfolding is_conflict
  rounds-Ends zero log few room = absurd (omega arith)
  rounds-Ends (suc n) log few room =
      let (latest, mid, k, same, e) = round-run n log in
      elim (s.writable mid latest.metadata.name latest.metadata.uid latest.metadata.resource_version
        (outcome_status phase message)) [
          | inl a ↦
              let (after, h) = accepted latest mid k a in
              ap (λ p. p.0) (e ∙ catch-run _ (handler n) mid after tt h)
          | inr c ↦
              let (after, h, more) = conflicted latest mid k c.0 in
              let again : Ends n after =
                rounds-Ends n after (omega (arith, more, c.1)) (omega (arith, more, same, room)) in
              ap (λ p. p.0) (e ∙ catch-err _ (handler n) mid after (http_error 409) h) ∙ again
        ]

-- Where the Operation stays open to every read, and every write of it is accepted or conflicts, and
-- at most four more of them conflict, complete_operation returns.
pub complete_operation-Settles :
    (outside : Outside) (operation : Resource) (limit : ℕ) (phase message : String) (log : Log)
    → Settles outside operation limit
    → writes log ≤ limit
    → limit < writes log + 5
    → (complete_operation outside operation phase message log).0 ≡ ok tt
unfolding complete_operation
complete_operation-Settles outside operation limit phase message log s few room =
    rounds-Ends outside operation limit s phase message 5 log few room

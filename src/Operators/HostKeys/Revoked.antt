-- ===== src/Operators/HostKeys/Revoked.antt =====
-- The token that reads a host's private key is revoked.
use ansible_roles.Prelude.{
  ◌≡◌, refl, ◌⊎◌, inl, inr, String, [], ◌∷◌, ℕ, suc, ◌==◌, string_eq, if◌then◌else◌, sym, subst,
}
use ansible_roles.Result.{Result, ok, err}
use ansible_roles.Json.{Json, null, Dict}
use ansible_roles.Operators.Effects.{Call, Log, Outside, Exec, pure, lift, ◌>>=◌, request}
use ansible_roles.Operators.Effects.Keeps.{Keeps, keeps_rules, Keeps-request}
use ansible_roles.Operators.Effects.Triple.{
  After, Triple, Triple-lift, Triple-bind, Triple-request, Triple-then, Triple-state, Triple-pure,
}
use ansible_roles.Operators.Resource.{Resource}
use ansible_roles.Operators.Api.{api_get}
use ansible_roles.Operators.Common.Keys.{Crypto}
use ansible_roles.Operators.HostKeys.{
  read_secret, revoke_token, finally, read_private, host_private_key, private_key,
}

-- The reads of secrets in a log.
abbrev pub secret_reads : Log → ℕ
secret_reads [] = 0
secret_reads (e ∷ log) = elim e.call [
  | Call.other name v ↦ if name == "bao read" then suc (secret_reads log) else secret_reads log
  | _ ↦ secret_reads log
]

-- The newest call revokes the token of the call before it, which is the only read of a secret since
-- `base`; `accepted` says that the revocation was answered.
abbrev pub Revoked : Log → Log → Type 0
Revoked base [] = ⊥
Revoked base (e ∷ log) =
    (token : String) × (uid : String) × (older : Log) × (answer : Result Json) × (e.call
      ≡ revoke_token token)
    × (log ≡ record { call = read_secret uid token; answer = answer } ∷ older)
    × (secret_reads older ≡ secret_reads base)

-- The newest call was answered.
abbrev pub Answered : Log → Type 0
Answered [] = ⊥
Answered (e ∷ log) = (v : Json) × (e.answer ≡ ok v)

abbrev pub Unread : Log → Log → Type 0
Unread base log = secret_reads log ≡ secret_reads base

module _ (outside : Outside) (crypto : Crypto) (secret_store : String) (base : Log) where
  abbrev Raised : Log → Type 0
  Raised log = Revoked base log ⊎ Unread base log

  abbrev Returned : Log → Type 0
  Returned log = Revoked base log × Answered log

  -- A call that reads no secret.
  quiet-Keeps :
      (call : Call)
      → ((log : Log) (answer : Result Json)
          → secret_reads (record { call = call; answer = answer } ∷ log) ≡ secret_reads log)
      → Keeps (Unread base) (request outside call)
  quiet-Keeps call same =
      Keeps-request outside call
        (λ log answer p. subst (λ n. n ≡ secret_reads base) (sym (same log answer)) p)

  pair-Keeps : (name : String) → Keeps (Unread base) (api_get outside "ssh-key-pairs" name)
  unfolding api_get
  pair-Keeps name =
      search (keeps_rules, quiet-Keeps (Call.get "ssh-key-pairs" name) (λ log answer. refl)) depth
        20

  abbrev AfterRead : String → String → Log → Type 0
  AfterRead token uid log =
      (older : Log) × (answer : Result Json) × (log
        ≡ record { call = read_secret uid token; answer = answer } ∷ older)
      × Unread base older

  -- After the read: the revocation, whatever the read gave.
  revoke-Revoked :
      (token uid : String)
      → Triple
          (AfterRead token uid)
          (request outside (revoke_token token) >>= λ _. pure tt)
          (λ _. Returned)
          Raised
  revoke-Revoked token uid =
      Triple-bind {Q = λ _. Returned} _ _
        (Triple-request outside _
          (λ v log (older, answer, same, p).
            ((token, uid, older, answer, refl, same, p), (v, refl)))
          (λ e log (older, answer, same, p). inl (token, uid, older, answer, refl, same, p)))
        λ _. Triple-pure tt (λ log p. p)

  read_private-Revoked :
      (token : String) (uid : Json) (server : Resource) (host : Dict)
      → Triple
          (Unread base)
          (read_private outside crypto secret_store token uid server host)
          (λ _. Returned)
          Raised
  unfolding read_private finally
  read_private-Revoked token uid server host = record {
    run = λ log p. closing (reading log).0 (reading log).1 (reading-After log p);
  }
    where
      reading : Exec Log String
      reading = do
        response ← request outside (read_secret server.metadata.uid token)
        lift (private_key crypto response uid host)

      reading-After :
          (log : Log) → Unread base log → AfterRead token server.metadata.uid (reading log).1
      reading-After log p =
          Triple-state reading
            (Triple-bind {Q = λ _. AfterRead token server.metadata.uid} _ _
              (Triple-request outside _ (λ v l q. (l, ok v, refl, q))
                (λ e l q. (l, err e, refl, q)))
              λ v. Triple-lift _ (λ a e l q. q) (λ l q. q))
            log p

      closing :
          (r : Result String) (log' : Log)
          → AfterRead token server.metadata.uid log'
          → After
              (λ _. Returned)
              Raised
              (((request outside (revoke_token token) >>= λ _. pure tt) >>= λ _. lift r) log')
      closing r log' h =
          (Triple-bind {Q = λ _. Returned} _ _ (revoke-Revoked token server.metadata.uid)
              λ _. Triple-lift r (λ a e l q. q) (λ l q. inl q.0)).run
            log' h

  -- A step before the login.
  before :
      {A : Type 0} (m : Exec Log A)
      → Keeps (Unread base) m
      → Triple (Unread base) m (λ _. Unread base) Raised
  before m k = Triple-then m (λ log p. inr p) k

  host_private_key-Triple :
      (server : Resource)
      → Triple
          (Unread base)
          (host_private_key outside crypto secret_store server)
          (λ _. Returned)
          Raised
  unfolding host_private_key
  host_private_key-Triple server = Triple-bind _ _ (before _ (search keeps_rules)) λ found.
      Triple-bind _ _ (before _ (search keeps_rules)) λ host.
        Triple-bind _ _ (before _ (search keeps_rules)) λ reference_value.
          Triple-bind _ _ (before _ (search keeps_rules)) λ reference.
            Triple-bind _ _ (before _ (search keeps_rules)) λ name_value.
              Triple-bind _ _ (before _ (search keeps_rules)) λ name.
                Triple-bind _ _ (before _ (pair-Keeps name)) λ key.
                  Triple-bind _ _ (before _ (search keeps_rules)) λ foreign.
                    Triple-bind _ _ (before _ (search keeps_rules)) λ _.
                      Triple-bind _ _ (before _ (search keeps_rules)) λ is_current.
                        Triple-bind _ _ (before _ (search keeps_rules)) λ _.
                          Triple-bind _ _ (before _ (search keeps_rules)) λ store.
                            Triple-bind _ _ (before _ (search keeps_rules)) λ _.
                              Triple-bind _ _
                                (before _
                                  (quiet-Keeps (Call.other "bao login" null) (λ log answer. refl)))
                                λ login. Triple-bind _ _ (before _ (search keeps_rules)) λ token.
                                  Triple-bind _ _ (before _ (search keeps_rules))
                                    λ uid. read_private-Revoked token uid server host

-- Whatever the outside answers: where host_private_key returns a private key, its newest call is the
-- answered revocation of the token with which its only read of a secret was made, the call just
-- before. Where it raises, its newest call is that revocation, or it has read no secret.
pub host_private_key-Revoked :
    (outside : Outside) (crypto : Crypto) (secret_store : String) (server : Resource) (log : Log)
    → After
        (λ _ after. Revoked log after × Answered after)
        (λ after. Revoked log after ⊎ (secret_reads after ≡ secret_reads log))
        (host_private_key outside crypto secret_store server log)
host_private_key-Revoked outside crypto secret_store server log =
    (host_private_key-Triple outside crypto secret_store log server).run log refl

-- ===== src/Operators/Configurations/Published.antt =====
-- What publish_target_status writes: at most five times, and to the target's own lifetime.
use ansible_roles.Prelude.{
  ℕ, zero, suc, ◌+◌, ◌≤◌, ◌≡◌, refl, ap, ◌∙◌, String, true, false, List, [], ◌∷◌, arith, ◌==◌,
  string_eq,
}
use ansible_roles.Json.{Dict}
use ansible_roles.Operators.Effects.{Call, Log, Outside, Exec, pure, raise, choose, catch, ◌>>=◌}
use ansible_roles.Operators.Effects.Keeps.{Keeps, Keeps-request, keeps_rules}
use ansible_roles.Operators.Effects.Triple.{
  Triple, Triple-bind, Triple-catch, Triple-choose, Triple-lift, Triple-pure, Triple-raise,
  Triple-refuse_if, Triple-request, Triple-then, Triple-state,
}
use ansible_roles.Operators.Resource.{Resource}
use ansible_roles.Operators.Api.{api_get, patch_status}
use ansible_roles.Operators.Operation.{is_conflict}
use ansible_roles.Operators.Configurations.Planning.{Plan}
use ansible_roles.Operators.Configurations.Reports.{
  is_superseded, publish_rounds, publish_target_status,
}

-- The UIDs that the patches of a log carry, the newest first.
abbrev pub patched : Log → List String
patched [] = []
patched (e ∷ log) = elim e.call [
  | Call.patch collection name uid version fields ↦ uid ∷ patched log
  | _ ↦ patched log
]

abbrev pub repeat : ℕ → String → List String → List String
repeat zero uid uids = uids
repeat (suc k) uid uids = uid ∷ repeat k uid uids

-- At most `n` patches since `base`, all with this UID.
abbrev pub Addressed : String → Log → ℕ → Log → Type 0
Addressed uid base n log = (k : ℕ) × (k ≤ n) × (patched log ≡ repeat k uid (patched base))

same_uid :
    (latest target : Resource)
    → is_superseded latest target ≡ false
    → latest.metadata.uid ≡ target.metadata.uid
unfolding is_superseded
same_uid latest target h =
    let same : (latest.metadata.uid == target.metadata.uid) ≡ true = ground arith in
    (string_eq.same_iff latest.metadata.uid target.metadata.uid).0 same

module _ (outside : Outside) (target : Resource) (base : Log) where
  abbrev Within : ℕ → Log → Type 0
  Within = Addressed target.metadata.uid base

  wider : (m n : ℕ) → m ≤ n → (log : Log) → Within m log → Within n log
  wider m n le log (k, few, same) = (k, omega arith, same)

  get-Within :
      (n : ℕ) (collection name : String) → Keeps (Within n) (api_get outside collection name)
  unfolding api_get
  get-Within n collection name =
      search
        (
          keeps_rules,
          Keeps-request {P = Within n} outside (Call.get collection name) (λ log answer p. p),
        )
        depth 20

  -- A patch of a resource with the target's UID.
  patch-Within :
      (n : ℕ) (latest : Resource) (status : Dict)
      → latest.metadata.uid ≡ target.metadata.uid
      → Triple
          (Within n)
          (patch_status outside latest status)
          (λ _. Within (suc n))
          (Within (suc n))
  unfolding patch_status
  patch-Within n latest status e =
      Triple-bind {Q = λ _. Within n} _ _
        (Triple-lift _ (λ c h log p. p) (λ log p. wider n (suc n) (omega arith) log p))
        λ collection.
          Triple-bind {Q = λ _. Within (suc n)} _ _
            (Triple-request outside _ (λ v log p. one_more log p) (λ f log p. one_more log p))
            λ v. Triple-lift _ (λ r h log p. p) (λ log p. p)
    where
      one_more :
          (log : Log)
          → Within n log
          → (k : ℕ) × (k ≤ suc n)
            × (latest.metadata.uid ∷ patched log ≡ repeat k target.metadata.uid (patched base))
      one_more log (k, few, same) = (
        suc k,
        omega arith,
        ap (λ u. u ∷ patched log) e ∙ ap (λ us. target.metadata.uid ∷ us) same,
      )

  -- The patch of one round, and the rounds after a conflict.
  round-Within :
      (m n : ℕ) (latest : Resource) (status : Dict) (rest : Exec Log (Unit {0}))
      → latest.metadata.uid ≡ target.metadata.uid
      → suc n ≤ m
      → Triple (Within (suc n)) rest (λ _. Within m) (Within m)
      → Triple
          (Within n)
          (catch
            (patch_status outside latest status >>= λ _. pure tt)
            (λ e. choose (is_conflict e) rest (raise e)))
          (λ _. Within m)
          (Within m)
  round-Within m n latest status rest e le again =
      Triple-catch _ _ (Within (suc n))
        (Triple-bind {Q = λ _. Within (suc n)} _ _ (patch-Within n latest status e)
          λ _. Triple-pure tt (wider (suc n) m le))
        λ f. Triple-choose _ _ _ again (Triple-raise f (wider (suc n) m le))

  rounds-Within :
      (n j m : ℕ) (collection : String) (status : Dict)
      → j + n ≤ m
      → Triple
          (Within j)
          (publish_rounds outside n collection target status)
          (λ _. Within m)
          (Within m)
  unfolding publish_rounds
  rounds-Within zero j m collection status le = Triple-raise _ (wider j m (omega arith))
  rounds-Within (suc n) j m collection status le =
      let again = rounds-Within n (suc j) m collection status (omega arith) in
      Triple-bind {Q = λ _. Within j} _ _
        (Triple-then _ (wider j m (omega arith)) (get-Within j collection target.metadata.name))
        λ latest.
          Triple-bind {Q = λ _ log. Within j log × (latest.metadata.uid ≡ target.metadata.uid)} _ _
            (Triple-refuse_if _ _ (λ h log p. (p, same_uid latest target h))
              (wider j m (omega arith)))
            λ _. record {
              run =
                  λ log (p, e). (round-Within m j latest status _ e (omega arith) again).run log p;
            }

-- Whatever the outside answers, and whether it returns or raises, publish_target_status makes at most
-- five patches, each addressed to the UID of the target that the plan resolved.
pub publish_target_status-Addressed :
    (outside : Outside) (resolved : Plan) (status : Dict) (log : Log)
    → Addressed resolved.target.metadata.uid log 5
        (publish_target_status outside resolved status log).1
unfolding publish_target_status
publish_target_status-Addressed outside resolved status log =
    Triple-state {P = Within outside resolved.target log 0} _
      (Triple-bind {Q = λ _. Within outside resolved.target log 0} _ _
        (Triple-lift _ (λ c h l p. p) (wider outside resolved.target log 0 5 (omega arith)))
        λ collection.
          rounds-Within outside resolved.target log 5 0 5 collection status (omega arith))
      log (0, omega arith, refl)

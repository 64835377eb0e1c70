-- ===== src/Result.antt =====
-- Python exceptions as values: the classes that the program raises or lets through, each with
-- the text that the source writes, and the chain of fallible steps.
use ansible_roles.Prelude.{
  ℕ, String, ◌≡◌, refl, Bool, true, false, List, [], ◌∷◌, ◌⊎◌, inl, inr, arith,
}

-- `operator_error` is OperatorError(reason, message) of operators/common.py; `http_error` is
-- urllib's HTTPError with its code.
pub data Error : Type 0 where
  value_error : String → Error
  runtime_error : String → Error
  operator_error : String → String → Error
  key_error : String → Error
  type_error : Error
  attribute_error : Error
  http_error : ℕ → Error
  os_error : Error
  timeout_expired : Error
  interrupted : Error
  recursion_error : Error

pub data Result {ℓ} (A : Type ℓ) : Type ℓ where
  ok : A → Result A
  err : Error → Result A

infixl 5 ◌>>◌ ◌>>=◌
abbrev pub ◌>>=◌ {ℓ κ} : {A : Type ℓ} {B : Type κ} → Result A → (A → Result B) → Result B
err failure >>= continue = err failure
ok value >>= continue = continue value

abbrev pub ◌>>◌ {κ} : {B : Type κ} → Result (Unit {0}) → Result B → Result B
checked >> later = checked >>= λ _. later

-- `if test: raise error`
abbrev pub raise_if : Bool → Error → Result (Unit {0})
raise_if true e = err e
raise_if false e = ok tt

-- Inversion of a successful bind, for proofs where the parts stay shut.
pub bind-eq-ok {ℓ κ} :
    {A : Type ℓ} {B : Type κ} (step : Result A) (continue : A → Result B) {final : B}
    → step >>= continue ≡ ok final
    → (value : A) × (step ≡ ok value) × (continue value ≡ ok final)
bind-eq-ok (err failure) continue h = cc
bind-eq-ok (ok value) continue h = (value, refl, h)

pub bind-eq-err {ℓ κ} :
    {A : Type ℓ} {B : Type κ} (step : Result A) (continue : A → Result B) {e : Error}
    → step >>= continue ≡ err e
    → (step ≡ err e) ⊎ ((value : A) × (step ≡ ok value) × (continue value ≡ err e))
bind-eq-err (err failure) continue h = inl (ground arith)
bind-eq-err (ok value) continue h = inr (value, refl, h)

pub raise_if-eq-ok {ℓ} :
    {B : Type ℓ} (t : Bool) (e : Error) (k : Result B) {b : B}
    → (raise_if t e >> k) ≡ ok b
    → (t ≡ false) × (k ≡ ok b)
raise_if-eq-ok true e k h = cc
raise_if-eq-ok false e k h = (refl, h)

pub ok_injective {ℓ} : {A : Type ℓ} {a b : A} → ok a ≡ ok b → a ≡ b
ok_injective h = ground arith

pub Result-cases {ℓ} :
    {A : Type ℓ} (r : Result A) → ((a : A) × (r ≡ ok a)) ⊎ ((e : Error) × (r ≡ err e))
Result-cases (ok a) = inl (a, refl)
Result-cases (err e) = inr (e, refl)

-- `[f(x) for x in xs]` where `f` may raise.
abbrev pub map_result {ℓ κ} : {A : Type ℓ} {B : Type κ} → (A → Result B) → List A → Result (List B)
map_result f [] = ok []
map_result f (x ∷ xs) = do y ← f x; ys ← map_result f xs; ok (y ∷ ys)

-- `any(f(x) for x in xs)` where `f` may raise: it stops at the first truth.
abbrev pub any_result {ℓ} : {A : Type ℓ} → (A → Result Bool) → List A → Result Bool
any_result f [] = ok false
any_result f (x ∷ xs) = f x >>= λ hit. elim hit [ true ↦ ok true | false ↦ any_result f xs ]
